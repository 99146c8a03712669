-- ===== src/Select/Tests.antt =====
-- Examples for the choice of nodes, under the arithmetic of thousandths.
use saucepan.Common.{
  ℕ, String, ◌≡◌, refl, Bool, true, false, Option, none, some, List, [], ◌∷◌, All, map, arith,
}
use saucepan.Common.Float.{milli, milli_math}
use saucepan.Common.Int.{ℤ, pos, add_int64, sub_int64, ◌+ℤ◌, ◌-ℤ◌, ◌*ℤ◌}
use saucepan.Common.Sort.{sort_by, insert_all, insert_by}
use saucepan.Lanes.Roster.{prefer_roster}
use saucepan.Sky.Slew.{Clock}
use saucepan.Handoff.{
  default_settings, effective_assign_priority, urgency_for_task, task_in_handoff_search_window,
}
use saucepan.Assign.Store.{World, TaskStatus}
use saucepan.Assign.Once.{Calls, Assigned, assign_once, publish_each, finish_all, finish_each}
use saucepan.Assign.Claim.{persist_task_assignment, insert_cohort_assignment}
use saucepan.Select.{Node, Requirements, Selection}
use saucepan.Select.Gates.{passes_node_gates, compute_node_slew, node_is_idle, node_has_filters}
use saucepan.Select.Preempt.{
  idle_selector_result, idle_score, preemption_selector_result, may_preempt,
  effective_preempt_threshold, plan_preempt_cost_ms,
}
use saucepan.Select.Best.{
  select_best_node, best_from, candidate_of, is_eligible, idle_result, eligible_results,
  select_eligible_nodes,
}
use saucepan.Select.Optimal.{IsBest, select_best_node-IsBest}
use saucepan.Select.Vector.{
  compute_vector, passes_bands, weighted_cosine, cosine_from, band_widths_for, adaptive_band_width,
  adaptive_step, apply_filler_penalty, effective_penalty, scarcity_score, idle_bonus,
}
use saucepan.Select.Cohort.{
  select_cohort, fill_behind, fill, scan_fillers, filler_key, count_substitutes, node_by_id,
  spec_from_node,
}
use saucepan.Select.Members.{IsCohort, select_cohort-IsCohort}
use saucepan.Select.Ladder.{
  TaskPayload, assign_task, task_assignments, task_nodes, select_assignments, rung,
  requirements_from_notify, handoff_task_from_notify, filter_nodes_by_campaign,
  node_serves_campaign, attach_plan_remaining, filter_preferred_nodes_mode, prefer_nodes,
}
use saucepan.Select.Handed.{IsHanded, assign_task-IsHanded}

abbrev telescope : String → ℤ → Option ℕ → Option ℤ → List String → Node milli
telescope id startup task priority filters = record {
  node_id = id;
  status = "idle";
  power = pos 5000;
  limiting_magnitude = none;
  current_task_id = task;
  current_task_priority = priority;
  estimated_startup_ms = startup;
  quality_tier = "";
  reliability_score = pos 1000;
  mount_alt_deg = none;
  mount_az_deg = none;
  site_lat = none;
  site_lon = none;
  mount_slew_rate_deg_s = none;
  available_filters = filters;
  is_emulator = false;
  obstruction_mask = [];
  mount_limits = none;
  horizon_profile = none;
  aperture_mm = some (pos 200000);
  focal_length_mm = some (pos 1000000);
  pixel_size_um = some (pos 3760);
  fov_width_arcmin = some (pos 60000);
  fov_height_arcmin = some (pos 40000);
  mount_type = some (pos 1);
  max_stable_exposure_s = none;
  site_seeing_arcsec = some (pos 2000);
  idle_since_minutes = none;
  enabled_campaign_ids = "survey" ∷ [];
  plan_remaining_sec = none;
}

abbrev wanted : Requirements milli
wanted = record {
  ra = none;
  dec = none;
  min_altitude_deg = none;
  min_power = none;
  target_magnitude = none;
  required_filters = "R" ∷ [];
  allow_emulator = false;
  min_aperture_mm = none;
  min_sub_exposure_s = none;
  min_resolution_arcsec = none;
  max_resolution_arcsec = none;
  min_psf_fwhm_arcsec = none;
  max_psf_fwhm_arcsec = none;
  required_fov_width_arcmin = none;
  required_fov_height_arcmin = none;
  science_band = "";
  preferred_node_ids = [];
  preferred_fail_open = true;
}

abbrev midnight : Clock
midnight = record {
  year = pos 2026;
  month = pos 1;
  day = pos 1;
  hour = pos 0;
  minute = pos 0;
  second = pos 0;
  nanosecond = pos 0;
}

-- A slow telescope, a fast one without the filter, a fast one with it, and a busy one.
abbrev fleet : List (Node milli)
fleet =
    telescope "slow" (pos 9000) none none ("R" ∷ [])
    ∷ telescope "blue" (pos 1000) none none ("B" ∷ [])
    ∷ telescope "fast" (pos 2000) none none ("R" ∷ [])
    ∷ record (telescope "busy" (pos 0) (some 7) (some (pos 50)) ("R" ∷ [])) { status = "busy" }
    ∷ []

select_best_node-IsBest_example :
    IsBest
      (candidate_of milli milli_math wanted midnight (pos 45) (pos 10) (pos 0))
      fleet
      (select_best_node milli milli_math wanted midnight (pos 45) (pos 10) (pos 0) fleet)
select_best_node-IsBest_example =
    select_best_node-IsBest milli milli_math wanted midnight (pos 45) (pos 10) (pos 0) fleet

abbrev ids : List Selection → List String
ids = map (λ s. s.node_id)

abbrev best_id : Option Selection → List (String × Bool)
best_id none = []
best_id (some s) = (s.node_id, s.preempting) ∷ []

-- A gap of 5 is not enough to displace task 7, one of 49 is.
the_best :
    best_id (select_best_node milli milli_math wanted midnight (pos 45) (pos 10) (pos 0) fleet)
    ≡ ("fast", false) ∷ []
unfolding select_best_node best_from candidate_of passes_node_gates compute_node_slew node_is_idle
    node_has_filters idle_selector_result idle_score preemption_selector_result may_preempt
    effective_preempt_threshold plan_preempt_cost_ms add_int64 sub_int64 ◌+ℤ◌ ◌-ℤ◌ ◌*ℤ◌
the_best = refl

the_urgent_best :
    best_id (select_best_node milli milli_math wanted midnight (pos 1) (pos 10) (pos 0) fleet)
    ≡ ("busy", true) ∷ []
unfolding select_best_node best_from candidate_of passes_node_gates compute_node_slew node_is_idle
    node_has_filters idle_selector_result idle_score preemption_selector_result may_preempt
    effective_preempt_threshold plan_preempt_cost_ms add_int64 sub_int64 ◌+ℤ◌ ◌-ℤ◌ ◌*ℤ◌
the_urgent_best = refl

select_cohort-IsCohort_example :
    IsCohort milli milli_math fleet wanted midnight
      (select_cohort milli milli_math fleet wanted midnight)
select_cohort-IsCohort_example = select_cohort-IsCohort milli milli_math fleet wanted midnight

the_cohort : ids (select_cohort milli milli_math fleet wanted midnight) ≡ "fast" ∷ "slow" ∷ []
unfolding select_cohort fill_behind fill scan_fillers filler_key count_substitutes node_by_id
    spec_from_node compute_vector passes_bands weighted_cosine cosine_from band_widths_for
    adaptive_band_width adaptive_step apply_filler_penalty effective_penalty scarcity_score
    idle_bonus select_eligible_nodes eligible_results is_eligible idle_result sort_by insert_all
    insert_by passes_node_gates compute_node_slew node_is_idle node_has_filters idle_selector_result
    idle_score add_int64 sub_int64 ◌+ℤ◌ ◌-ℤ◌ ◌*ℤ◌
the_cohort = refl

-- A task of the campaign `survey`, with hard coverage by `slow`.
abbrev survey_task : TaskPayload milli
survey_task = record {
  task_id = 8;
  priority = pos 30;
  min_power = none;
  target_magnitude = none;
  required_filters = "R" ∷ [];
  target_ra = none;
  target_dec = none;
  min_altitude_deg = none;
  allow_emulator = false;
  min_aperture_mm = none;
  min_sub_exposure_s = none;
  min_resolution_arcsec = none;
  max_resolution_arcsec = none;
  min_psf_fwhm_arcsec = none;
  max_psf_fwhm_arcsec = none;
  required_fov_width_arcmin = none;
  required_fov_height_arcmin = none;
  science_band = "";
  campaign_id = "survey";
  scheduled_end_at = none;
  user_end_at = none;
  handoff_lead_seconds = none;
  emergency_handoff_requested_at = none;
  coverage_enabled = true;
  coverage_primary = "slow" ∷ [];
  coverage_redundant = [];
  coverage_hard_mode = true;
}

abbrev all_up : Calls
all_up = record {
  claim_ok = true;
  cohort_ok = λ node. true;
  publish_ok = λ node. true;
  release_ok = λ node. true;
  clear_ok = λ node. true;
  flush_ok = true;
}

abbrev waiting : World
waiting = record {
  tasks =
      record {
        id = 8;
        status = TaskStatus.pending;
        assigned_telescope_id = none;
        failure_count = 0;
        priority = 30;
        last_assignment_attempt_at = 0;
      }
      ∷ [];
  assignments = [];
  nodes = [];
  queued = (8, 30) ∷ [];
  inflight = [];
}

abbrev assigned : Assigned
assigned =
    assign_task milli milli_math (λ t. midnight) 600 (pos 10) (pos 0) default_settings (pos 900)
      all_up (λ id. none) (some fleet) [] survey_task waiting

assign_task-IsHanded_example :
    All
      (IsHanded milli milli_math
        (λ t. midnight)
        600
        (pos 10)
        (pos 0)
        default_settings
        (pos 900)
        all_up
        (λ id. none)
        fleet
        []
        survey_task
        waiting)
      assigned.published
assign_task-IsHanded_example =
    assign_task-IsHanded milli milli_math (λ t. midnight) 600 (pos 10) (pos 0) default_settings
      (pos 900) all_up (λ id. none) fleet [] survey_task waiting (omega arith) (omega arith)

just_slow : assigned.published ≡ "slow" ∷ []
unfolding assign_task task_assignments task_nodes select_assignments rung requirements_from_notify
    handoff_task_from_notify filter_nodes_by_campaign node_serves_campaign attach_plan_remaining
    filter_preferred_nodes_mode prefer_nodes prefer_roster effective_assign_priority
    urgency_for_task task_in_handoff_search_window assign_once publish_each finish_all finish_each
    persist_task_assignment insert_cohort_assignment select_cohort fill_behind fill scan_fillers
    filler_key count_substitutes node_by_id spec_from_node compute_vector passes_bands
    weighted_cosine cosine_from band_widths_for adaptive_band_width adaptive_step
    apply_filler_penalty effective_penalty scarcity_score idle_bonus select_eligible_nodes
    eligible_results is_eligible idle_result sort_by insert_all insert_by passes_node_gates
    compute_node_slew node_is_idle node_has_filters idle_selector_result idle_score add_int64
    sub_int64 ◌+ℤ◌ ◌-ℤ◌ ◌*ℤ◌
just_slow = refl
