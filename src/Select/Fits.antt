-- ===== src/Select/Fits.antt =====
-- What a selection promises of its node.
use saucepan.Common.{
  ℕ, ◌≡◌, refl, ◌⊎◌, inl, inr, ap, sym, subst, Bool, true, false, ◌&&◌, ◌||◌, not, Option, none,
  some, List, ◌==◌, string_eq, if◌then◌else◌, arith, Bool-cases, All, All-map, In, In-middle,
  In-All,
}
use saucepan.Common.Float.{Float, Math}
use saucepan.Common.Int.{ℤ, pos, ltb_ℤ, leb_ℤ, IsInt32, sub_int64, sub_int64_exact, ◌-ℤ◌, -ℤ_parts}
use saucepan.Sky.Slew.{Clock}
use saucepan.Select.{Node, Requirements, Selection, Reason, idle, idle_ish}
use saucepan.Select.Gates.{NodeSlew, passes_node_gates, node_is_idle, compute_node_slew}
use saucepan.Select.Preempt.{
  may_preempt, preempt_over, plan_remaining, preemption_selector_result, idle_selector_result,
}
use saucepan.Select.Best.{is_some, is_eligible, idle_result, candidate_of, select_best_node}
use saucepan.Select.Optimal.{IsBest, select_best_node-IsBest}
use saucepan.Select.Cohort.{select_cohort}
use saucepan.Select.Members.{IsSeat, select_cohort-IsCohort}

-- A priority that is known is in the range of its column.
abbrev pub InRange : Option ℤ → Type 0
InRange none = Unit
InRange (some p) = IsInt32 p

-- If it preempts, then for a task that is strictly more urgent (a lower number), and it names the
-- task that it displaces.
abbrev pub Displaces : Option ℤ → Option ℕ → ℤ → Selection → Type 0
Displaces current_priority current_task priority s =
    s.preempting ≡ true
    → (current : ℤ) × (current_priority ≡ some current)
      × (ltb_ℤ priority current ≡ true)
      × (s.prev_task_id ≡ current_task)

-- How a conditional that answers with a selection came to it.
chosen :
    (allowed near : Bool) (a b s : Selection)
    → (if not allowed then none else if near then some a else some b) ≡ some s
    → (allowed ≡ true) × ((a ≡ s) ⊎ (b ≡ s))
chosen false near a b s e = cc
chosen true true a b s e = (refl, inl (cc))
chosen true false a b s e = (refl, inr (cc))

candidate_cases :
    (passes is_free may_ask : Bool) (a : Selection) (other : Option Selection) (s : Selection)
    → (if not passes then none else if is_free then some a else if may_ask then other else none)
      ≡ some s
    → (passes ≡ true) × ((a ≡ s) ⊎ (other ≡ some s))
candidate_cases false is_free may_ask a other s e = cc
candidate_cases true true may_ask a other s e = (refl, inl (cc))
candidate_cases true false true a other s e = (refl, inr e)
candidate_cases true false false a other s e = cc

module _ (fl : Float) where
  may_preempt-positive :
      (diff base : ℤ) (rem : fl.F) (nearby : Bool)
      → may_preempt fl diff base rem nearby ≡ true
      → ltb_ℤ (pos 0) diff ≡ true
  unfolding may_preempt
  may_preempt-positive diff base rem nearby h = elim (Bool-cases (leb_ℤ diff (pos 0))) [
    | inl low ↦ absurd (ground arith)
    | inr high ↦ ground arith
  ]

  less_urgent :
      (current priority base : ℤ) (rem : fl.F) (nearby : Bool)
      → IsInt32 current
      → IsInt32 priority
      → may_preempt fl (sub_int64 current priority) base rem nearby ≡ true
      → ltb_ℤ priority current ≡ true
  less_urgent current priority base rem nearby h k ok =
      let positive = may_preempt-positive (sub_int64 current priority) base rem nearby ok in
      let exact = sub_int64_exact current priority h k in
      let positive' : ltb_ℤ (pos 0) (current -ℤ priority) ≡ true = rw exact at positive in
      ground (arith, -ℤ_parts current priority)

  preempt_over-Displaces :
      (n : Node fl) (slew : NodeSlew) (current priority threshold : ℤ) (s : Selection)
      → IsInt32 current
      → IsInt32 priority
      → preempt_over fl n slew current priority threshold ≡ some s
      → (s.node_id ≡ n.node_id)
        × (ltb_ℤ priority current ≡ true)
        × (s.prev_task_id ≡ n.current_task_id)
  preempt_over-Displaces n slew current priority threshold s h k e =
      let (ok, which) = chosen _ _ _ _ s e in
      let urgent =
        less_urgent current priority threshold (plan_remaining fl n) slew.is_nearby h k ok in
      elim which [
        | inl a ↦ (sym (ap (λ r. r.node_id) a), urgent, sym (ap (λ r. r.prev_task_id) a))
        | inr b ↦ (sym (ap (λ r. r.node_id) b), urgent, sym (ap (λ r. r.prev_task_id) b))
      ]

  -- The result of a node, idle or not.
  preemption-Fits :
      (n : Node fl) (slew : NodeSlew) (priority threshold : ℤ) (held : Option ℤ) (s : Selection)
      → InRange held
      → IsInt32 priority
      → (elim held [
        | none ↦ some (idle_selector_result fl n slew idle_ish)
        | some current ↦ preempt_over fl n slew current priority threshold
      ])
        ≡ some s
      → (s.node_id ≡ n.node_id) × Displaces held n.current_task_id priority s
  unfolding idle_selector_result
  preemption-Fits n slew priority threshold none s h k e =
      let same : idle_selector_result fl n slew idle_ish ≡ s = cc in
      (
        sym (ap (λ r. r.node_id) same),
        λ preempts. absurd (ground (arith, ap (λ r. r.preempting) same)),
      )
  preemption-Fits n slew priority threshold (some current) s h k e =
      let (at, urgent, prev) = preempt_over-Displaces n slew current priority threshold s h k e in
      (at, λ preempts. (current, refl, urgent, prev))

module _ (fl : Float) (mt : Math fl) (req : Requirements fl) (now : Clock) where
  -- The selection is of this node, which passes the gates of the task.
  abbrev pub Fits : ℤ → Node fl → Selection → Type 0
  Fits priority n s =
      (s.node_id ≡ n.node_id)
      × (passes_node_gates fl mt n req now ≡ true)
      × Displaces n.current_task_priority n.current_task_id priority s

  idle_result-Fits :
      (priority : ℤ) (n : Node fl) (slew : NodeSlew) (reason : Reason)
      → passes_node_gates fl mt n req now ≡ true
      → Fits priority n (idle_selector_result fl n slew reason)
  unfolding idle_selector_result
  idle_result-Fits priority n slew reason ok = (refl, ok, λ preempts. absurd (cc))

  candidate_of-Fits :
      (priority threshold nearby : ℤ) (n : Node fl) (s : Selection)
      → InRange n.current_task_priority
      → IsInt32 priority
      → candidate_of fl mt req now priority threshold nearby n ≡ some s
      → Fits priority n s
  unfolding candidate_of preemption_selector_result
  candidate_of-Fits priority threshold nearby n s h k e =
      let slew = compute_node_slew fl mt n req nearby now in
      let (ok, which) =
        candidate_cases (passes_node_gates fl mt n req now)
          (node_is_idle fl n && not (is_some n.current_task_id))
          (not (is_some n.current_task_priority)
            || (n.status == "busy" || (n.status == "observing" || n.status == "uploading")))
          (idle_selector_result fl n slew idle)
          (preemption_selector_result fl n slew priority threshold) s e in
      elim which [
        | inl same ↦ subst (Fits priority n) same (idle_result-Fits priority n slew idle ok)
        | inr held ↦
            let (at, displaces) =
              preemption-Fits fl n slew priority threshold n.current_task_priority s h k held in
            (at, ok, displaces)
      ]

  is_eligible-gates :
      (n : Node fl) → is_eligible fl mt req now n ≡ true → passes_node_gates fl mt n req now ≡ true
  unfolding is_eligible
  is_eligible-gates n h = ground arith

  module _ (nodes : List (Node fl)) (priority : ℤ) where
    -- The selection is of some node of the fleet.
    abbrev pub FitsOne : Selection → Type 0
    FitsOne s = (n : Node fl) × In n nodes × Fits priority n s

    pub select_cohort-Fits : All FitsOne (select_cohort fl mt nodes req now)
    unfolding idle_result
    select_cohort-Fits =
        All-map (IsSeat fl mt nodes req now) FitsOne
          (λ s (n, there, eligible, same). (
            n,
            there,
            subst (Fits priority n) (sym same)
                (idle_result-Fits priority n _ idle (is_eligible-gates n eligible)),
          ))
          (select_cohort fl mt nodes req now) (select_cohort-IsCohort fl mt nodes req now).1

    pub select_best_node-Fits :
        (threshold nearby : ℤ) (s : Selection)
        → IsInt32 priority
        → All (λ (n : Node fl). InRange n.current_task_priority) nodes
        → select_best_node fl mt req now priority threshold nearby nodes ≡ some s
        → FitsOne s
    select_best_node-Fits threshold nearby s k ranges e =
        let best =
          subst (IsBest (candidate_of fl mt req now priority threshold nearby) nodes) e
            (select_best_node-IsBest fl mt req now priority threshold nearby nodes) in
        let (front, n, back, split, at, before, behind) = best in
        let there : In n nodes = subst (In n) (sym split) (In-middle front n back) in
        (
          n,
          there,
          candidate_of-Fits priority threshold nearby n s
              (In-All (λ (m : Node fl). InRange m.current_task_priority) n nodes ranges there) k at,
        )
