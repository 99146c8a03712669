-- ===== src/Campaign/Tasks.antt =====
-- SaucepanServer/task-server/shared/campaign/pack.go: what the tasks of a pack are.
use saucepan.Common.{
  ◌<◌, String, ◌≡◌, refl, ap, ◌∙◌, Option, none, some, List, [], ◌∷◌, string_eq, arith, All, subst,
  sym, length,
}
use saucepan.Common.Float.{Float}
use saucepan.Pier.Address.{Url}
use saucepan.Campaign.{Pack}
use saucepan.Campaign.Check.{validate_pack, validate_hook_fields, HookError, PackError}
use saucepan.Campaign.Valid.{IsValidPack, validate_pack_iff}
use saucepan.Campaign.Expand.{
  TaskSpec, Expanded, tasks, refused, expand_pack, unless_bad, pack_fault,
}
use saucepan.Campaign.Specs.{
  task_count, IsFrom, HasAllTasks, length-expand_targets, target_tasks, expand_targets-IsFrom,
  expand_targets-HasAllTasks,
}

module _ (fl : Float) where
  module _ (fixed4 : fl.F → String) (parse_request_uri : String → Option Url) where
    -- The tasks of a pack: the pack is in order, and each task is for a target in one filter, each
    -- filter of each target that is not blank has one, and there are no more.
    pub record IsExpansion (p : Pack fl) (specs : List (TaskSpec fl)) : Type 0 where
      pub valid : IsValidPack fl parse_request_uri p
      pub hook : validate_hook_fields fl p ≡ none
      pub some_task : 0 < length specs
      pub counted : length specs ≡ task_count fl p.targets
      pub wanted : All (IsFrom fl p p.targets) specs
      pub complete : HasAllTasks fl p specs p.targets

    abbrev pub IsExpandable : Pack fl → Type 0
    IsExpandable p =
        IsValidPack fl parse_request_uri p
        × ((validate_hook_fields fl p ≡ none) × (0 < task_count fl p.targets))

    abbrev pub Expansion : Pack fl → Expanded fl → Type 0
    Expansion p (tasks specs) = IsExpansion p specs
    Expansion p (refused e) = ¬ IsExpandable p

    unless_bad-Expansion :
        (p : Pack fl) (check : Option PackError) (hook : Option HookError)
        (specs : List (TaskSpec fl))
        → validate_pack fl parse_request_uri p ≡ check
        → validate_hook_fields fl p ≡ hook
        → specs ≡ target_tasks fl fixed4 parse_request_uri p p.targets
        → Expansion p (
            unless_bad fl fixed4 parse_request_uri
              (pack_fault fl fixed4 parse_request_uri check hook)
              specs)
    unless_bad-Expansion p (some e) hook specs c h same =
        λ (valid, rest). cc (c, (validate_pack_iff fl parse_request_uri p).1 valid)
    unless_bad-Expansion p none (some e) specs c h same = λ k. cc (h, k.1.0)
    unless_bad-Expansion p none none [] c h same = λ k. omega (
      arith,
      k.1.1,
      length-expand_targets fl fixed4 parse_request_uri p p.targets,
      ap length same,
    )
    unless_bad-Expansion p none none (spec ∷ specs) c h same = record {
      valid = (validate_pack_iff fl parse_request_uri p).0 c;
      hook = h;
      some_task = omega arith;
      counted = ap length same ∙ length-expand_targets fl fixed4 parse_request_uri p p.targets;
      wanted =
          subst (All (IsFrom fl p p.targets)) (sym same)
            (expand_targets-IsFrom fl fixed4 parse_request_uri p p.targets);
      complete =
          subst (λ s. HasAllTasks fl p s p.targets) (sym same)
            (expand_targets-HasAllTasks fl fixed4 parse_request_uri p p.targets);
    }

    -- A pack that is expanded is in order, it comes to one task for each filter that is not blank
    -- of each target, and to no other, each with the target's place, its exposure and a budget of
    -- all its frames; and a pack is refused only if it is not in order, if its hook is not, or if
    -- all filters of all its targets are blank.
    pub expand_pack-Expansion :
        (p : Pack fl) → Expansion p (expand_pack fl fixed4 parse_request_uri p)
    unfolding expand_pack
    expand_pack-Expansion p =
        unless_bad-Expansion p (validate_pack fl parse_request_uri p) (validate_hook_fields fl p)
          (target_tasks fl fixed4 parse_request_uri p p.targets) refl refl refl
