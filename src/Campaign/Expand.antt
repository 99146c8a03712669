-- ===== src/Campaign/Expand.antt =====
-- SaucepanServer/task-server/shared/campaign/pack.go: the tasks that a pack comes to.
use saucepan.Common.{
  String, Bool, Option, none, some, List, [], ◌∷◌, ◌++◌, ◌==◌, string_eq, if◌then◌else◌,
}
use saucepan.Common.Float.{Float}
use saucepan.Pier.Address.{Url}
use saucepan.Campaign.{PackTarget, Pack}
use saucepan.Common.Text.{trim_space}
use saucepan.Campaign.Check.{
  PackError, HookError, normalized_product_mode, validate_pack, validate_hook_fields,
}
use Prim.Native.String.{◌++◌ as join}

pub data ExpandError : Type 0 where
  invalid : PackError → ExpandError
  bad_hook : HookError → ExpandError
  no_tasks : ExpandError

module _ (fl : Float) where
  pub record TaskSpec : Type 0 where
    pub name : String
    pub target_ra : fl.F
    pub target_dec : fl.F
    pub required_filters : List String
    pub integration_time : fl.F
    pub normalized_integration_budget_s : fl.F
    pub allow_emulator : Bool
    pub product_mode : String
    pub target_magnitude : Option fl.F

  pub data Expanded : Type 0 where
    tasks : List TaskSpec → Expanded
    refused : ExpandError → Expanded

  -- Package fmt, by what %.4f prints, and net/url, by what ParseRequestURI gives.
  module _ (fixed4 : fl.F → String) (parse_request_uri : String → Option Url) where
    unfoldable pub task_name : String → PackTarget fl → String → String
    task_name name t filt =
        join name
          (join " ra=" (join (fixed4 t.ra) (join " dec=" (join (fixed4 t.dec) (join " " filt)))))

    unfoldable pub task_of : Pack fl → PackTarget fl → String → TaskSpec
    unfolding normalized_product_mode
    task_of p t filt = record {
      name = task_name p.name t filt;
      target_ra = t.ra;
      target_dec = t.dec;
      required_filters = filt ∷ [];
      integration_time = t.exposure_sec;
      normalized_integration_budget_s = fl.mul (fl.of_int t.frame_count) t.exposure_sec;
      allow_emulator = p.test_only;
      product_mode = normalized_product_mode p.product;
      target_magnitude = t.magnitude;
    }

    -- A blank filter is passed over.
    unfoldable pub expand_filters : Pack fl → PackTarget fl → List String → List TaskSpec
    unfolding trim_space task_of
    expand_filters p t [] = []
    expand_filters p t (filt ∷ filters) =
        let rest = expand_filters p t filters in
        if trim_space filt == "" then rest else task_of p t (trim_space filt) ∷ rest

    unfoldable pub expand_targets : Pack fl → List (PackTarget fl) → List TaskSpec
    unfolding expand_filters
    expand_targets p [] = []
    expand_targets p (t ∷ targets) = expand_filters p t t.filters ++ expand_targets p targets

    abbrev unless_empty : List TaskSpec → Expanded
    unless_empty [] = refused no_tasks
    unless_empty (spec ∷ specs) = tasks (spec ∷ specs)

    abbrev pub unless_bad : Option ExpandError → List TaskSpec → Expanded
    unless_bad (some e) specs = refused e
    unless_bad none specs = unless_empty specs

    abbrev pub pack_fault : Option PackError → Option HookError → Option ExpandError
    pack_fault (some e) hook = some (invalid e)
    pack_fault none (some e) = some (bad_hook e)
    pack_fault none none = none

    unfoldable pub expand_pack : Pack fl → Expanded
    unfolding validate_pack validate_hook_fields expand_targets
    expand_pack p =
        unless_bad (pack_fault (validate_pack fl parse_request_uri p) (validate_hook_fields fl p))
          (expand_targets p p.targets)
