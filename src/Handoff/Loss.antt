-- ===== src/Handoff/Loss.antt =====
-- SecondsUntilObstructionLoss, under settings that do not wrap.
use saucepan.Common.{
  ℕ, ◌*◌, ◌^◌, ◌≤◌, ◌<◌, ◌≡◌, refl, inl, inr, ◌∙◌, Bool, false, Option, some, if◌then◌else◌, arith,
  Bool-cases, length, ◌==◌, nat_eq,
}
use saucepan.Common.Float.{Float, Math}
use saucepan.Common.Int.{ℤ, pos, negsuc, ltb_ℤ, pos_part, neg_part, ◌*ℤ◌, IsInt32}
use saucepan.Common.Time.{second, add_duration, duration}
use saucepan.Sky.Slew.{Clock}
use saucepan.Sky.Obstruction.{ObstructionMask}
use saucepan.Sky.Safety.{TelescopeSafety}
use saucepan.Handoff.{
  Settings, HandoffTask, forbidden_at, scan_step, scan_end, first_loss, mask_for, with_place,
  loss_at, seconds_until_obstruction_loss,
}
use saucepan.Handoff.{Eta}
use saucepan.Handoff.Scan.{IsFirstLoss, scan-IsFirstLoss}

-- The settings do not make the durations of the scan wrap at int64.
pub record IsSane (env : Settings) : Type 0 where
  pub step_int32 : IsInt32 env.obstruction_scan_step_seconds
  pub horizon_low : neg_part env.obstruction_search_horizon_hours ≡ 0
  pub horizon_high : pos_part env.obstruction_search_horizon_hours ≤ 2562047

whole_seconds : (n : ℕ) → n < 2 ^ 31 → duration (pos n) second ≡ pos (n * second)
unfolding duration ◌*ℤ◌
whole_seconds n h = ground arith

whole_hours : (n : ℕ) → n ≤ 2562047 → duration (pos n) (3600 * second) ≡ pos (n * (3600 * second))
unfolding duration ◌*ℤ◌
whole_hours n h = ground arith

step_pos :
    (n : ℤ) → IsInt32 n → 0 < pos_part (duration (if ltb_ℤ (pos 15) n then n else pos 15) second)
step_pos (negsuc a) h =
    let off : ltb_ℤ (pos 15) (negsuc a) ≡ false = ground arith in
    rw (off, whole_seconds 15 (omega arith)) (omega arith)
step_pos (pos a) h = elim (Bool-cases (ltb_ℤ (pos 15) (pos a))) [
  | inl more ↦ rw (more, whole_seconds a h.0) (ground arith)
  | inr less ↦ rw (less, whole_seconds 15 (omega arith)) (omega arith)
]

end_behind :
    (t0 : ℕ) (n : ℤ)
    → neg_part n ≡ 0
    → pos_part n ≤ 2562047
    → t0 ≤ add_duration t0 (duration n (3600 * second))
end_behind t0 (negsuc a) h k = absurd (omega arith)
end_behind t0 (pos a) h k = rw (whole_hours a k) (omega arith)

module _ (fl : Float) (mt : Math fl) (env : Settings) (clock : ℕ → Clock) (sane : IsSane env) where
  first_loss-IsFirstLoss :
      (forbidden : ℕ → Bool) (t0 : ℕ)
      → (eta : Eta) × (first_loss fl mt env clock forbidden t0 ≡ some eta)
        × IsFirstLoss forbidden t0 (scan_step fl mt env clock) (scan_end fl mt env clock t0) eta
  unfolding first_loss
  first_loss-IsFirstLoss forbidden t0 =
      scan-IsFirstLoss forbidden t0 (scan_step fl mt env clock) (scan_end fl mt env clock t0)
        (step_pos env.obstruction_scan_step_seconds sane.step_int32)
        (end_behind t0 env.obstruction_search_horizon_hours sane.horizon_low sane.horizon_high)

  with_place-some :
      (search : fl.F → fl.F → fl.F → fl.F → Option Eta) (a b c d : Option fl.F)
      (ra dec lat lon : fl.F)
      → a ≡ some ra
      → b ≡ some dec
      → c ≡ some lat
      → d ≡ some lon
      → with_place fl mt env clock search a b c d ≡ search ra dec lat lon
  with_place-some search a b c d ra dec lat lon e1 e2 e3 e4 = rw (e1, e2, e3, e4) refl

  loss_at_masked :
      (task : HandoffTask fl) (safety : TelescopeSafety fl) (t0 : ℕ) (mask : ObstructionMask fl)
      (ra dec lat lon : fl.F)
      → 0 < length mask
      → loss_at fl mt env clock task safety t0 mask ra dec lat lon
        ≡ first_loss fl mt env clock
            (forbidden_at fl mt env clock task safety mask ra dec lat lon)
            t0
  unfolding loss_at
  loss_at_masked task safety t0 mask ra dec lat lon masked =
      let some_mask : (length mask == 0) ≡ false = ground arith in rw some_mask refl

  -- For a task with a target, on a site that is known and has a mask, the scan for the loss of the target ends. It answers with the first of the sampled times (the present one, then every step of at least 15 s, and the end of the search horizon) at which the target is too low, beyond the limits of the mount, below the horizon or in a forbidden polygon, and with +Inf only if it is so at none of them. The settings are those that do not make a duration wrap: a step of 32 bits and a horizon of 0 to 2562047 hours.
  pub seconds_until_obstruction_loss-IsFirstLoss :
      (task : HandoffTask fl) (safety : TelescopeSafety fl) (t0 : ℕ)
      (mask_override : ObstructionMask fl) (ra dec lat lon : fl.F)
      → task.target_ra ≡ some ra
      → task.target_dec ≡ some dec
      → safety.site_lat ≡ some lat
      → safety.site_lon ≡ some lon
      → 0 < length (mask_for fl mt env clock safety.obstruction_mask mask_override)
      → (eta : Eta) × (seconds_until_obstruction_loss fl mt env clock task safety t0 mask_override
          ≡ some eta)
        × IsFirstLoss
            (forbidden_at fl mt env clock task safety
              (mask_for fl mt env clock safety.obstruction_mask mask_override)
              ra
              dec
              lat
              lon)
            t0
            (scan_step fl mt env clock)
            (scan_end fl mt env clock t0)
            eta
  unfolding seconds_until_obstruction_loss loss_at
  seconds_until_obstruction_loss-IsFirstLoss task safety t0 mask_override ra dec lat lon e1 e2 e3 e4
        masked =
      let mask = mask_for fl mt env clock safety.obstruction_mask mask_override in
      let (eta, found, first) =
        first_loss-IsFirstLoss (forbidden_at fl mt env clock task safety mask ra dec lat lon) t0 in
      (
        eta,
        with_place-some (loss_at fl mt env clock task safety t0 mask) task.target_ra task.target_dec
              safety.site_lat safety.site_lon ra dec lat lon e1 e2 e3 e4
            ∙ loss_at_masked task safety t0 mask ra dec lat lon masked
            ∙ found,
        first,
      )
