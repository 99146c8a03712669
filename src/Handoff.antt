-- ===== src/Handoff.antt =====
-- SaucepanServer/task-server/shared/handoff.go: how urgent it is to hand a task to another site.
pub mod Scan
pub mod Loss
pub mod Rising
mod Tests
use saucepan.Common.{
  ℕ, ◌+◌, ◌-◌, ◌*◌, ◌/◌, ◌^◌, zero, suc, min, String, Bool, true, false, ◌&&◌, ◌||◌, not, Option,
  none, some, List, [], ◌∷◌, ltb, leb, ◌==◌, nat_eq, string_eq, if◌then◌else◌, length,
}
use saucepan.Common.Float.{Float, Math}
use saucepan.Common.Int.{ℤ, pos, ltb_ℤ, pos_part, sub_int64}
use saucepan.Common.Time.{second, add_duration, duration, sub_duration, seconds_of}
use saucepan.Sky.Slew.{Clock, compute_target_alt_az}
use saucepan.Sky.Obstruction.{ObstructionMask, point_in_forbidden_alt_az}
use saucepan.Sky.Safety.{TelescopeSafety, both, validate_mount_limits, above_horizon_profile}

pub data Urgency : Type 0 where
  no_urgency planned obstruction user emergency : Urgency

-- The package variables, which the environment may set.
pub record Settings : Type 0 where
  pub default_handoff_lead_seconds : ℤ
  pub user_handoff_lead_seconds : ℤ
  pub poll_none_seconds : ℤ
  pub poll_planned_seconds : ℤ
  pub poll_obstruction_seconds : ℤ
  pub poll_user_seconds : ℤ
  pub poll_emergency_seconds : ℤ
  pub obstruction_approach_seconds : ℤ
  pub obstruction_search_horizon_hours : ℤ
  pub obstruction_scan_step_seconds : ℤ

-- envInt's defaults
abbrev pub default_settings : Settings
default_settings = record {
  default_handoff_lead_seconds = pos 5400;
  user_handoff_lead_seconds = pos 300;
  poll_none_seconds = pos 3600;
  poll_planned_seconds = pos 300;
  poll_obstruction_seconds = pos 30;
  poll_user_seconds = pos 15;
  poll_emergency_seconds = pos 5;
  obstruction_approach_seconds = pos 1800;
  obstruction_search_horizon_hours = pos 48;
  obstruction_scan_step_seconds = pos 60;
}

pub record HandoffTask (fl : Float) : Type 0 where
  pub id : ℕ
  pub status : String
  pub target_ra : Option fl.F
  pub target_dec : Option fl.F
  pub min_altitude_deg : Option fl.F
  pub scheduled_end_at : Option ℕ
  pub user_end_at : Option ℕ
  pub handoff_lead_seconds : Option ℤ
  pub emergency_handoff_requested_at : Option ℕ
  pub coverage_active : Bool

module _ (fl : Float) (env : Settings) where
  unfoldable pub effective_handoff_lead_seconds : HandoffTask fl → ℤ
  effective_handoff_lead_seconds task = elim task.handoff_lead_seconds [
    | none ↦ env.default_handoff_lead_seconds
    | some lead ↦ if ltb_ℤ (pos 0) lead then lead else env.default_handoff_lead_seconds
  ]

  -- Whether `now` is not before `end`, less the lead.
  abbrev pub reached : Option ℕ → ℤ → ℕ → Bool
  reached none lead now = false
  reached (some end) lead now = leb (sub_duration end (duration lead second)) now

  abbrev pub is_set : Option ℕ → Bool
  is_set none = false
  is_set (some t) = true

  unfoldable pub urgency_for_task : HandoffTask fl → ℕ → Urgency
  urgency_for_task task now =
      if is_set task.emergency_handoff_requested_at
      then emergency
      else if reached task.user_end_at env.user_handoff_lead_seconds now
      then user
      else if reached task.scheduled_end_at (effective_handoff_lead_seconds task) now
      then planned
      else if task.coverage_active
      then planned
      else no_urgency

  unfoldable pub task_in_handoff_search_window : HandoffTask fl → ℕ → Bool
  task_in_handoff_search_window task now =
      if is_set task.emergency_handoff_requested_at
      then true
      else if reached task.user_end_at env.user_handoff_lead_seconds now
      then true
      else reached task.scheduled_end_at (effective_handoff_lead_seconds task) now

  unfoldable pub recommended_poll_seconds : Urgency → ℤ
  recommended_poll_seconds emergency = env.poll_emergency_seconds
  recommended_poll_seconds user = env.poll_user_seconds
  recommended_poll_seconds obstruction = env.poll_obstruction_seconds
  recommended_poll_seconds planned = env.poll_planned_seconds
  recommended_poll_seconds no_urgency = env.poll_none_seconds

  abbrev pub boost_of : Urgency → Bool → ℤ
  boost_of emergency in_window = pos 100
  boost_of user in_window = pos 50
  boost_of obstruction in_window = pos 40
  boost_of planned in_window = pos 20
  boost_of no_urgency in_window = if in_window then pos 20 else pos 0

  unfoldable pub effective_assign_priority : ℤ → HandoffTask fl → ℕ → ℤ
  effective_assign_priority base task now =
      let boost = boost_of (urgency_for_task task now) (task_in_handoff_search_window task now) in
      let p = sub_int64 base boost in if ltb_ℤ p (pos 1) then pos 1 else p

  abbrev pub is_open : HandoffTask fl → Bool
  is_open t = t.status == "pending" || (t.status == "assigned" || t.status == "in_progress")

  unfoldable pub any_handoff_broadcast_active : List (HandoffTask fl) → ℕ → Bool
  any_handoff_broadcast_active [] now = false
  any_handoff_broadcast_active (t ∷ tasks) now =
      let rest = any_handoff_broadcast_active tasks now in
      if not (is_open t) then rest else if task_in_handoff_search_window t now then true else rest

  -- The loop of BroadcastRecommendedPollSeconds.
  unfoldable pub best_poll : ℤ → List (HandoffTask fl) → ℕ → ℤ
  best_poll best [] now = best
  best_poll best (t ∷ tasks) now =
      best_poll
        (if not (is_open t)
          then best
          else if not (task_in_handoff_search_window t now)
          then best
          else (let poll = recommended_poll_seconds (urgency_for_task t now) in
              if ltb_ℤ poll best then poll else best))
        tasks now

  unfoldable pub broadcast_recommended_poll_seconds : List (HandoffTask fl) → ℕ → ℤ
  broadcast_recommended_poll_seconds tasks now = best_poll env.poll_none_seconds tasks now

-- SecondsUntilObstructionLoss: nil, +Inf, or the time left.
pub data Eta : Type 0 where
  unknown never : Eta
  after : ℕ → Eta

-- The scan from `cur` on; `none` is for a scan that the fuel does not suffice for.
unfoldable pub scan_from : (ℕ → Bool) → ℕ → ℕ → ℕ → ℕ → ℕ → Option Eta
scan_from forbidden t0 step end zero cur = none
scan_from forbidden t0 step end (suc fuel) cur =
    let nxt = min (cur + step) end in
    let later = scan_from forbidden t0 step end fuel nxt in
    if not (ltb cur end)
    then some never
    else if forbidden nxt
    then some (after (nxt - t0))
    else later

module _ (fl : Float) (mt : Math fl) (env : Settings) (clock : ℕ → Clock) where
  abbrev forbidden_place :
      HandoffTask fl → TelescopeSafety fl → ObstructionMask fl → fl.F × fl.F → Bool
  forbidden_place task safety mask (alt, az) =
      if both fl.lt (some alt) task.min_altitude_deg
      then true
      else if not (validate_mount_limits fl mt alt az safety.mount_limits)
      then true
      else if not (above_horizon_profile fl mt alt az safety.horizon_profile)
      then true
      else point_in_forbidden_alt_az fl mt alt az mask

  -- forbiddenAt, for a target and a site.
  unfoldable pub forbidden_at :
      HandoffTask fl
      → TelescopeSafety fl
      → ObstructionMask fl
      → fl.F
      → fl.F
      → fl.F
      → fl.F
      → ℕ
      → Bool
  forbidden_at task safety mask ra dec lat lon now =
      forbidden_place task safety mask (compute_target_alt_az fl mt ra dec lat lon (clock now))

  abbrev pub scan_step : ℕ
  scan_step =
      let n = env.obstruction_scan_step_seconds in
      pos_part (duration (if ltb_ℤ (pos 15) n then n else pos 15) second)

  abbrev pub scan_end : ℕ → ℕ
  scan_end t0 = add_duration t0 (duration env.obstruction_search_horizon_hours (3600 * second))

  -- The scan from `t0` on; `none` if it does not end.
  unfoldable pub first_loss : (ℕ → Bool) → ℕ → Option Eta
  first_loss forbidden t0 =
      if forbidden t0
      then some (after 0)
      else scan_from forbidden t0 scan_step (scan_end t0) ((scan_end t0 - t0) / scan_step + 2) t0

  abbrev pub mask_for : ObstructionMask fl → ObstructionMask fl → ObstructionMask fl
  mask_for mask mask_override = if ltb 0 (length mask_override) then mask_override else mask

  -- Without a target or a site there is nothing to scan for.
  abbrev pub with_place :
      (fl.F → fl.F → fl.F → fl.F → Option Eta)
      → Option fl.F
      → Option fl.F
      → Option fl.F
      → Option fl.F
      → Option Eta
  with_place search (some ra) (some dec) (some lat) (some lon) = search ra dec lat lon
  with_place search _ _ _ _ = some unknown

  unfoldable pub loss_at :
      HandoffTask fl
      → TelescopeSafety fl
      → ℕ
      → ObstructionMask fl
      → fl.F
      → fl.F
      → fl.F
      → fl.F
      → Option Eta
  loss_at task safety t0 mask ra dec lat lon =
      if length mask == 0
      then some unknown
      else first_loss (forbidden_at task safety mask ra dec lat lon) t0

  unfoldable pub seconds_until_obstruction_loss :
      HandoffTask fl → TelescopeSafety fl → ℕ → ObstructionMask fl → Option Eta
  seconds_until_obstruction_loss task safety t0 mask_override =
      with_place (loss_at task safety t0 (mask_for safety.obstruction_mask mask_override))
        task.target_ra task.target_dec safety.site_lat safety.site_lon

  abbrev pub approaches : Eta → Bool
  approaches (after d) = fl.le (seconds_of fl d) (fl.of_int env.obstruction_approach_seconds)
  approaches _ = false

  abbrev pub with_obstruction : Urgency → Option Eta → Option Urgency
  with_obstruction base none = none
  with_obstruction base (some eta) =
      if approaches eta
      then some obstruction
      else (elim base [ planned ↦ some planned | _ ↦ some no_urgency ])

  unfoldable pub combined_urgency :
      HandoffTask fl → TelescopeSafety fl → ℕ → ObstructionMask fl → Option Urgency
  combined_urgency task safety now mask_override = elim (urgency_for_task fl env task now) [
    | emergency ↦ some emergency
    | user ↦ some user
    | base ↦ with_obstruction base (seconds_until_obstruction_loss task safety now mask_override)
  ]
