-- ===== src/Select/Preempt.antt =====
-- SaucepanServer/task-server/shared/plan_preempt.go, and the scores and the preemption of
-- selector.go.
use saucepan.Common.{Bool, true, false, not, Option, none, some, ◌==◌, string_eq, if◌then◌else◌}
use saucepan.Common.Float.{Float}
use saucepan.Common.Int.{ℤ, pos, ltb_ℤ, leb_ℤ, add_int64, sub_int64}
use saucepan.Select.{Node, Selection, Reason, idle_ish, nearby_preempt, priority_preempt}
use saucepan.Select.Gates.{NodeSlew}

module _ (fl : Float) where
  unfoldable pub plan_preempt_cost_ms : fl.F → ℤ
  plan_preempt_cost_ms remaining_sec =
      if fl.le remaining_sec (fl.lit 0 0)
      then pos 0
      else fl.to_int (fl.mul remaining_sec (fl.lit 1000 0))

  unfoldable pub effective_preempt_threshold : ℤ → fl.F → ℤ
  effective_preempt_threshold base_threshold remaining_sec =
      let base = if ltb_ℤ base_threshold (pos 0) then pos 0 else base_threshold in
      if fl.le remaining_sec (fl.lit 0 0)
      then base
      else add_int64 base (fl.to_int (fl.div remaining_sec (fl.lit 60 0)))

  abbrev nearby_need : fl.F → ℤ
  nearby_need remaining_sec =
      if fl.lt (fl.lit 0 0) remaining_sec
      then add_int64 (pos 1) (fl.to_int (fl.div remaining_sec (fl.lit 120 0)))
      else pos 1

  unfoldable pub may_preempt : ℤ → ℤ → fl.F → Bool → Bool
  may_preempt priority_diff base_threshold remaining_sec nearby =
      if leb_ℤ priority_diff (pos 0)
      then false
      else if nearby
      then leb_ℤ (nearby_need remaining_sec) priority_diff
      else leb_ℤ (effective_preempt_threshold base_threshold remaining_sec) priority_diff

  -- int(float64(score) * factor)
  abbrev pub scaled : ℤ → fl.F → ℤ
  scaled score factor = fl.to_int (fl.mul (fl.of_int score) factor)

  abbrev pub tiered : Node fl → ℤ → ℤ
  tiered n score =
      if n.quality_tier == "premium"
      then scaled score (fl.lit 7 1)
      else if n.quality_tier == "community"
      then scaled score (fl.lit 13 1)
      else score

  unfoldable pub idle_score : Node fl → ℤ → ℤ
  idle_score n slew_ms =
      scaled (tiered n (add_int64 n.estimated_startup_ms slew_ms))
        (fl.sub (fl.lit 2 0) n.reliability_score)

  unfoldable pub idle_selector_result : Node fl → NodeSlew → Reason → Selection
  idle_selector_result n slew reason = record {
    node_id = n.node_id;
    slew_time_ms = slew.slew_ms;
    is_idle = true;
    is_nearby = slew.is_nearby;
    preempting = false;
    prev_task_id = none;
    score = idle_score n slew.slew_ms;
    reason = reason;
  }

  abbrev pub plan_remaining : Node fl → fl.F
  plan_remaining n = elim n.plan_remaining_sec [ none ↦ fl.lit 0 0 | some r ↦ r ]

  abbrev pub preempting_result : Node fl → NodeSlew → ℤ → Reason → Selection
  preempting_result n slew score reason = record {
    node_id = n.node_id;
    slew_time_ms = slew.slew_ms;
    is_idle = false;
    is_nearby = slew.is_nearby;
    preempting = true;
    prev_task_id = n.current_task_id;
    score = score;
    reason = reason;
  }

  abbrev pub preempt_over : Node fl → NodeSlew → ℤ → ℤ → ℤ → Option Selection
  preempt_over n slew current_priority task_priority preempt_threshold =
      let priority_diff = sub_int64 current_priority task_priority in
      let plan_rem = plan_remaining n in
      let plan_cost = plan_preempt_cost_ms plan_rem in
      if not (may_preempt priority_diff preempt_threshold plan_rem slew.is_nearby)
      then none
      else if slew.is_nearby
      then some (preempting_result n slew (add_int64 slew.slew_ms plan_cost) nearby_preempt)
      else some (
          preempting_result n slew
            (tiered n (add_int64 (add_int64 slew.slew_ms n.estimated_startup_ms) plan_cost))
            priority_preempt)

  unfoldable pub preemption_selector_result : Node fl → NodeSlew → ℤ → ℤ → Option Selection
  preemption_selector_result n slew task_priority preempt_threshold = elim n.current_task_priority [
    | none ↦ some (idle_selector_result n slew idle_ish)
    | some current ↦ preempt_over n slew current task_priority preempt_threshold
  ]
