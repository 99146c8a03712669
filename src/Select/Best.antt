-- ===== src/Select/Best.antt =====
-- SaucepanServer/task-server/shared/selector.go: SelectEligibleNodes and SelectBestNode.
use saucepan.Common.{
  Bool, true, false, ◌&&◌, ◌||◌, not, Option, none, some, List, [], ◌∷◌, ◌==◌, string_eq,
  if◌then◌else◌,
}
use saucepan.Common.Float.{Float, Math}
use saucepan.Common.Int.{ℤ, pos, ltb_ℤ}
use saucepan.Common.Sort.{sort_by}
use saucepan.Lanes.Roster.{limited}
use saucepan.Sky.Slew.{Clock}
use saucepan.Select.{Node, Requirements, Selection, idle}
use saucepan.Select.Gates.{passes_node_gates, compute_node_slew, node_is_idle}
use saucepan.Select.Preempt.{idle_selector_result, preemption_selector_result}

abbrev pub is_some {ℓ} : {A : Type ℓ} → Option A → Bool
is_some none = false
is_some (some a) = true

-- The better of the best so far and a candidate; ties go to the former.
abbrev pub better : Option Selection → Option Selection → Option Selection
better best none = best
better none (some c) = some c
better (some b) (some c) = if ltb_ℤ c.score b.score then some c else some b

module _ (fl : Float) (mt : Math fl) (req : Requirements fl) (now : Clock) where
  unfoldable pub is_eligible : Node fl → Bool
  is_eligible n =
      if not (node_is_idle fl n) || is_some n.current_task_id
      then false
      else passes_node_gates fl mt n req now

  unfoldable pub idle_result : Node fl → Selection
  idle_result n = idle_selector_result fl n (compute_node_slew fl mt n req (pos 0) now) idle

  unfoldable pub eligible_results : List (Node fl) → List Selection
  eligible_results [] = []
  eligible_results (n ∷ nodes) =
      if is_eligible n then idle_result n ∷ eligible_results nodes else eligible_results nodes

  abbrev pub lower_score : Selection → Selection → Bool
  lower_score a b = ltb_ℤ a.score b.score

  unfoldable pub select_eligible_nodes : List (Node fl) → ℤ → List Selection
  select_eligible_nodes nodes limit = limited limit (sort_by lower_score (eligible_results nodes))

  module _ (task_priority preempt_threshold slew_nearby_ms : ℤ) where
    -- What the loop of SelectBestNode makes of a node.
    unfoldable pub candidate_of : Node fl → Option Selection
    candidate_of n =
        let slew = compute_node_slew fl mt n req slew_nearby_ms now in
        if not (passes_node_gates fl mt n req now)
        then none
        else if node_is_idle fl n && not (is_some n.current_task_id)
        then some (idle_selector_result fl n slew idle)
        else if not (is_some n.current_task_priority)
            || (n.status == "busy" || (n.status == "observing" || n.status == "uploading"))
        then preemption_selector_result fl n slew task_priority preempt_threshold
        else none

    unfoldable pub best_from : Option Selection → List (Node fl) → Option Selection
    best_from best [] = best
    best_from best (n ∷ nodes) = best_from (better best (candidate_of n)) nodes

    unfoldable pub select_best_node : List (Node fl) → Option Selection
    select_best_node nodes = best_from none nodes
