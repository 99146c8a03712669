-- ===== src/Handoff/Tests.antt =====
-- Examples for handoff, under the arithmetic of thousandths.
use saucepan.Common.{ℕ, ◌*◌, ◌≡◌, refl, ◌⊎◌, false, none, some, [], ◌∷◌, arith, ltb}
use saucepan.Common.Float.{milli, milli_math}
use saucepan.Common.Int.{pos, ◌≤ℤ◌, sub_int64, ◌-ℤ◌, ◌*ℤ◌}
use saucepan.Common.Time.{second, duration, sub_duration}
use saucepan.Sky.Slew.{Clock}
use saucepan.Sky.Safety.{TelescopeSafety}
use saucepan.Handoff.{
  HandoffTask, default_settings, Eta, after, scan_from, scan_step, scan_end, forbidden_at,
  seconds_until_obstruction_loss, effective_assign_priority, urgency_for_task,
  task_in_handoff_search_window, effective_handoff_lead_seconds, mask_for,
}
use saucepan.Handoff.Scan.{IsFirstLoss}
use saucepan.Handoff.Loss.{IsSane, seconds_until_obstruction_loss-IsFirstLoss}
use saucepan.Handoff.Rising.{effective_assign_priority_rises}

-- Ends at second 10000; the lead is the default 5400 s.
abbrev ending_task : HandoffTask milli
ending_task = record {
  id = 7;
  status = "in_progress";
  target_ra = some (pos 1000);
  target_dec = some (pos 1000);
  min_altitude_deg = none;
  scheduled_end_at = some (10000 * second);
  user_end_at = none;
  handoff_lead_seconds = none;
  emergency_handoff_requested_at = none;
  coverage_active = false;
}

abbrev walled : TelescopeSafety milli
walled = record {
  obstruction_mask =
      ((pos 0 ∷ pos 0 ∷ []) ∷ (pos 0 ∷ pos 9000 ∷ []) ∷ (pos 9000 ∷ pos 0 ∷ []) ∷ []) ∷ [];
  mount_limits = none;
  horizon_profile = none;
  site_lat = some (pos 1000);
  site_lon = some (pos 1000);
  mount_alt_deg = none;
  mount_az_deg = none;
}

abbrev a_clock : ℕ → Clock
a_clock t = record {
  year = pos 2026;
  month = pos 1;
  day = pos 1;
  hour = pos 0;
  minute = pos 0;
  second = pos 0;
  nanosecond = pos t;
}

defaults-IsSane : IsSane default_settings
defaults-IsSane = omega arith

effective_assign_priority_rises_example :
    let p = effective_assign_priority milli default_settings (pos 30) ending_task (4000 * second) in
    let p' =
      effective_assign_priority milli default_settings (pos 30) ending_task (5000 * second) in
    (pos 1 ≤ℤ p') × (p' ≤ℤ p) × ((p ≤ℤ pos 30) ⊎ (p ≡ pos 1))
effective_assign_priority_rises_example =
    effective_assign_priority_rises milli default_settings (pos 30) ending_task (4000 * second)
      (5000 * second) (omega arith) (omega arith)

early :
    effective_assign_priority milli default_settings (pos 30) ending_task (4000 * second) ≡ pos 30
unfolding effective_assign_priority urgency_for_task task_in_handoff_search_window
    effective_handoff_lead_seconds sub_duration duration sub_int64 ◌-ℤ◌ ◌*ℤ◌
early = refl

late :
    effective_assign_priority milli default_settings (pos 30) ending_task (5000 * second) ≡ pos 10
unfolding effective_assign_priority urgency_for_task task_in_handoff_search_window
    effective_handoff_lead_seconds sub_duration duration sub_int64 ◌-ℤ◌ ◌*ℤ◌
late = refl

seconds_until_obstruction_loss-IsFirstLoss_example :
    (eta : Eta) × (seconds_until_obstruction_loss milli milli_math default_settings a_clock
        ending_task walled 0 []
      ≡ some eta)
    × IsFirstLoss
        (forbidden_at milli milli_math default_settings a_clock ending_task walled
          (mask_for milli milli_math default_settings a_clock walled.obstruction_mask [])
          (pos 1000)
          (pos 1000)
          (pos 1000)
          (pos 1000))
        0
        (scan_step milli milli_math default_settings a_clock)
        (scan_end milli milli_math default_settings a_clock 0)
        eta
seconds_until_obstruction_loss-IsFirstLoss_example =
    seconds_until_obstruction_loss-IsFirstLoss milli milli_math default_settings a_clock
      defaults-IsSane ending_task walled 0 [] (pos 1000) (pos 1000) (pos 1000) (pos 1000) refl refl
      refl refl (omega arith)

-- Lost from 25 on, with samples at every 10.
lost_at_thirty : scan_from (λ t. ltb 25 t) 0 10 1000 102 0 ≡ some (after 30)
unfolding scan_from
lost_at_thirty = refl
