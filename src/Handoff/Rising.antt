-- ===== src/Handoff/Rising.antt =====
-- The urgency of a task only rises with time.
use saucepan.Common.{
  ℕ, ◌≤◌, ◌≡◌, refl, ◌⊎◌, inl, inr, Bool, true, false, Option, none, some, if◌then◌else◌, arith,
  Bool-cases,
}
use saucepan.Common.Float.{Float}
use saucepan.Common.Int.{ℤ, pos, ltb_ℤ, ◌≤ℤ◌, -ℤ_parts, IsInt32, sub_int64, sub_int64_exact}
use saucepan.Handoff.{
  Settings, HandoffTask, is_set, reached, boost_of, effective_handoff_lead_seconds,
  urgency_for_task, task_in_handoff_search_window, effective_assign_priority,
}

module _ (fl : Float) (env : Settings) where
  reached_stays :
      (end : Option ℕ) (lead : ℤ) (now now' : ℕ)
      → now ≤ now'
      → reached fl env end lead now ≡ true
      → reached fl env end lead now' ≡ true
  reached_stays none lead now now' le h = cc
  reached_stays (some end) lead now now' le h = ground arith

  boost : HandoffTask fl → ℕ → ℤ
  boost task now =
      boost_of fl env (urgency_for_task fl env task now)
        (task_in_handoff_search_window fl env task now)

  abbrev boost_by : Bool → Bool → Bool → Bool → ℕ
  boost_by asked ending scheduled coverage =
      if asked
      then 100
      else if ending
      then 50
      else if scheduled
      then 20
      else if coverage
      then 20
      else 0

  boost-eq :
      (task : HandoffTask fl) (now : ℕ)
      → boost task now
        ≡ pos (
            boost_by
              (is_set fl env task.emergency_handoff_requested_at)
              (reached fl env task.user_end_at env.user_handoff_lead_seconds now)
              (reached fl env task.scheduled_end_at
                (effective_handoff_lead_seconds fl env task)
                now)
              task.coverage_active)
  unfolding boost urgency_for_task task_in_handoff_search_window
  boost-eq task now = ground arith

  boost_by_mono :
      (asked coverage ending ending' scheduled scheduled' : Bool)
      → (ending ≡ true → ending' ≡ true)
      → (scheduled ≡ true → scheduled' ≡ true)
      → (boost_by asked ending scheduled coverage ≤ boost_by asked ending' scheduled' coverage)
        × (boost_by asked ending' scheduled' coverage ≤ 100)
  boost_by_mono asked coverage false ending' scheduled scheduled' h k =
      elim (Bool-cases scheduled) [
        | inl on ↦ rw (on, k on) (ground arith)
        | inr off ↦ rw off (ground arith)
      ]
  boost_by_mono asked coverage true ending' scheduled scheduled' h k = rw (h refl) (ground arith)

  -- The priority under a boost.
  abbrev boosted : ℤ → ℕ → ℤ
  boosted base b = let p = sub_int64 base (pos b) in if ltb_ℤ p (pos 1) then pos 1 else p

  priority_eq :
      (base : ℤ) (task : HandoffTask fl) (now b : ℕ)
      → boost task now ≡ pos b
      → effective_assign_priority fl env base task now ≡ boosted base b
  unfolding boost effective_assign_priority
  priority_eq base task now b e = rw e refl

  boosted_mono :
      (base : ℤ) (b b' : ℕ)
      → IsInt32 base
      → b ≤ b'
      → b' ≤ 100
      → (pos 1 ≤ℤ boosted base b')
        × (boosted base b' ≤ℤ boosted base b)
        × ((boosted base b ≤ℤ base) ⊎ (boosted base b ≡ pos 1))
  boosted_mono base b b' h le small =
      let exact = sub_int64_exact base (pos b) h (omega arith) in
      let exact' = sub_int64_exact base (pos b') h (omega arith) in
      rw (exact, exact') (ground (arith, -ℤ_parts base (pos b), -ℤ_parts base (pos b')))

  -- As time goes on, a task is never assigned at a less urgent priority (a greater number): the effective priority at a later time is at least 1 and at most the one before, which in turn is at most the priority that the task came with, or 1. For priorities of 32 bits.
  pub effective_assign_priority_rises :
      (base : ℤ) (task : HandoffTask fl) (now now' : ℕ)
      → IsInt32 base
      → now ≤ now'
      → let p = effective_assign_priority fl env base task now in
        let p' = effective_assign_priority fl env base task now' in
        (pos 1 ≤ℤ p') × (p' ≤ℤ p) × ((p ≤ℤ base) ⊎ (p ≡ pos 1))
  effective_assign_priority_rises base task now now' h le =
      let (rise, small) =
        boost_by_mono (is_set fl env task.emergency_handoff_requested_at) task.coverage_active _ _ _
          _ (reached_stays task.user_end_at env.user_handoff_lead_seconds now now' le)
          (reached_stays task.scheduled_end_at (effective_handoff_lead_seconds fl env task) now now'
            le) in
      rw
        (
          priority_eq base task now _ (boost-eq task now),
          priority_eq base task now' _ (boost-eq task now'),
        )
        (boosted_mono base _ _ h rise small)
