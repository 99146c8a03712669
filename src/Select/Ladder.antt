-- ===== src/Select/Ladder.antt =====
-- SaucepanServer/task-server/cmd/orchestrator/orchestrator_assign.go: the nodes that a task may go
-- to, the selection ladder, and assignTask from the payload to the rows; with the filters of
-- shared/selector.go and shared/campaign/serve.go.
use saucepan.Common.{
  ℕ, String, Bool, true, false, ◌&&◌, ◌||◌, not, Option, none, some, List, [], ◌∷◌, ◌++◌, ltb, any,
  filter, length, map, ◌==◌, nat_eq, string_eq, if◌then◌else◌,
}
use saucepan.Common.Float.{Float, Math}
use saucepan.Common.Int.{ℤ, pos_part}
use saucepan.Lanes.Roster.{StandbyEntry, prefer_roster}
use saucepan.Sky.Slew.{Clock}
use saucepan.Handoff.{Settings, HandoffTask, effective_assign_priority}
use saucepan.Assign.Store.{World}
use saucepan.Assign.Once.{Selected, NotifyPayload, Calls, Assigned, enqueue_by_lane, assign_once}
use saucepan.Select.{Node, Requirements, Selection}
use saucepan.Select.Best.{select_best_node}
use saucepan.Select.Cohort.{select_cohort}

-- shared.NotifyPayload, by what selection and handoff read of it.
pub record TaskPayload (fl : Float) : Type 0 where
  pub task_id : ℕ
  pub priority : ℤ
  pub min_power : Option fl.F
  pub target_magnitude : Option fl.F
  pub required_filters : List String
  pub target_ra : Option fl.F
  pub target_dec : Option fl.F
  pub min_altitude_deg : Option fl.F
  pub allow_emulator : Bool
  pub min_aperture_mm : Option fl.F
  pub min_sub_exposure_s : Option fl.F
  pub min_resolution_arcsec : Option fl.F
  pub max_resolution_arcsec : Option fl.F
  pub min_psf_fwhm_arcsec : Option fl.F
  pub max_psf_fwhm_arcsec : Option fl.F
  pub required_fov_width_arcmin : Option fl.F
  pub required_fov_height_arcmin : Option fl.F
  pub science_band : String
  pub campaign_id : String
  pub scheduled_end_at : Option ℕ
  pub user_end_at : Option ℕ
  pub handoff_lead_seconds : Option ℤ
  pub emergency_handoff_requested_at : Option ℕ
  pub coverage_enabled : Bool
  pub coverage_primary : List String
  pub coverage_redundant : List String
  pub coverage_hard_mode : Bool

unfoldable pub node_serves_campaign : List String → String → Bool
node_serves_campaign enabled campaign_id =
    if campaign_id == ""
    then true
    else if length enabled == 0
    then false
    else any (λ id. id == campaign_id) enabled

-- The ids of `preferred` that are not empty.
abbrev pub named : List String → List String
named preferred = filter (λ id. not (id == "")) preferred

module _ (fl : Float) where
  unfoldable pub requirements_from_notify : TaskPayload fl → Requirements fl
  requirements_from_notify p = record {
    ra = p.target_ra;
    dec = p.target_dec;
    min_altitude_deg = p.min_altitude_deg;
    min_power = p.min_power;
    target_magnitude = p.target_magnitude;
    required_filters = p.required_filters;
    allow_emulator = p.allow_emulator;
    min_aperture_mm = p.min_aperture_mm;
    min_sub_exposure_s = p.min_sub_exposure_s;
    min_resolution_arcsec = p.min_resolution_arcsec;
    max_resolution_arcsec = p.max_resolution_arcsec;
    min_psf_fwhm_arcsec = p.min_psf_fwhm_arcsec;
    max_psf_fwhm_arcsec = p.max_psf_fwhm_arcsec;
    required_fov_width_arcmin = p.required_fov_width_arcmin;
    required_fov_height_arcmin = p.required_fov_height_arcmin;
    science_band = p.science_band;
    preferred_node_ids = p.coverage_primary ++ p.coverage_redundant;
    preferred_fail_open = not p.coverage_hard_mode;
  }

  unfoldable pub handoff_task_from_notify : TaskPayload fl → HandoffTask fl
  handoff_task_from_notify p = record {
    id = p.task_id;
    status = "pending";
    target_ra = p.target_ra;
    target_dec = p.target_dec;
    min_altitude_deg = p.min_altitude_deg;
    scheduled_end_at = p.scheduled_end_at;
    user_end_at = p.user_end_at;
    handoff_lead_seconds = p.handoff_lead_seconds;
    emergency_handoff_requested_at = p.emergency_handoff_requested_at;
    coverage_active = p.coverage_enabled;
  }

  unfoldable pub filter_nodes_by_campaign : List (Node fl) → String → List (Node fl)
  filter_nodes_by_campaign nodes campaign_id =
      if campaign_id == ""
      then nodes
      else filter (λ n. node_serves_campaign n.enabled_campaign_ids campaign_id) nodes

  -- A node with what Redis holds as its `plan_remaining_sec`, where that is a number.
  abbrev pub attached : (String → Option fl.F) → Node fl → Node fl
  attached stored n = record n {
    plan_remaining_sec = elim n.plan_remaining_sec [
      | some r ↦ some r
      | none ↦ elim (stored n.node_id) [
        | none ↦ none
        | some sec ↦ if fl.le sec (fl.lit 0 0) then none else some sec
      ]
    ];
  }

  unfoldable pub attach_plan_remaining : (String → Option fl.F) → List (Node fl) → List (Node fl)
  attach_plan_remaining stored nodes = map (attached stored) nodes

  abbrev pub or_mode : Bool → List (Node fl) → List (Node fl) → List (Node fl)
  or_mode fail_open [] nodes = if fail_open then nodes else []
  or_mode fail_open (n ∷ out) nodes = n ∷ out

  unfoldable pub filter_preferred_nodes_mode : List (Node fl) → List String → Bool → List (Node fl)
  filter_preferred_nodes_mode nodes preferred fail_open =
      if length preferred == 0 || length nodes == 0
      then nodes
      else if length (named preferred) == 0
      then nodes
      else or_mode fail_open (filter (λ n. any (λ id. id == n.node_id) (named preferred)) nodes)
          nodes

  -- PreferRoster, on the nodes by their ids.
  unfoldable pub prefer_nodes : List (Node fl) → List StandbyEntry → List (Node fl)
  prefer_nodes nodes roster =
      map (λ p. p.1) (prefer_roster (Node fl) (map (λ n. (n.node_id, n)) nodes) roster)

abbrev pub or_else {ℓ} : {A : Type ℓ} → List A → List A → List A
or_else [] ys = ys
or_else (x ∷ xs) ys = x ∷ xs

abbrev pub to_list {ℓ} : {A : Type ℓ} → Option A → List A
to_list none = []
to_list (some a) = a ∷ []

abbrev pub selected_of : Selection → Selected
selected_of s = record {
  node_id = s.node_id;
  preempting = s.preempting;
  prev_task_id = s.prev_task_id;
}

module _ (fl : Float) (mt : Math fl) (clock : ℕ → Clock) (now : ℕ)
    (preempt_threshold slew_nearby_ms : ℤ) where
  -- A cohort, or else the single best node.
  unfoldable pub rung : List (Node fl) → Requirements fl → ℤ → List Selection
  rung nodes req priority = or_else (select_cohort fl mt nodes req (clock now)) (
      to_list
        (select_best_node fl mt req (clock now) priority preempt_threshold slew_nearby_ms nodes))

  unfoldable pub select_assignments :
      List (Node fl) → List (Node fl) → ℕ → Requirements fl → ℤ → List Selection
  select_assignments nodes select_pool roster_len req priority =
      or_else (rung select_pool req priority) (
        if ltb 0 roster_len && ltb (length select_pool) (length nodes)
        then rung nodes req priority
        else [])

  -- assignTask's nodes, before the standby roster.
  unfoldable pub task_nodes :
      (String → Option fl.F) → List (Node fl) → TaskPayload fl → List (Node fl)
  task_nodes stored fleet p =
      let nodes =
        attach_plan_remaining fl stored (filter_nodes_by_campaign fl fleet p.campaign_id) in
      let req = requirements_from_notify fl p in
      if ltb 0 (length req.preferred_node_ids)
      then filter_preferred_nodes_mode fl nodes req.preferred_node_ids req.preferred_fail_open
      else nodes

  unfoldable pub task_assignments :
      (String → Option fl.F)
      → List (Node fl)
      → List StandbyEntry
      → TaskPayload fl
      → ℤ
      → List Selection
  task_assignments stored fleet roster p priority =
      let nodes = task_nodes stored fleet p in
      select_assignments nodes (prefer_nodes fl nodes roster) (length roster)
        (requirements_from_notify fl p) priority

  -- assignTask: `fleet` is none if the nodes cannot be fetched.
  unfoldable pub assign_task :
      Settings
      → ℤ
      → Calls
      → (String → Option fl.F)
      → Option (List (Node fl))
      → List StandbyEntry
      → TaskPayload fl
      → World
      → Assigned
  assign_task env ttl calls stored fleet roster p w =
      let priority =
        effective_assign_priority fl env p.priority (handoff_task_from_notify fl p) now in
      let payload : NotifyPayload = record { task_id = p.task_id; priority = pos_part priority } in
      elim fleet [
        | none ↦ record {
          world = enqueue_by_lane payload.task_id payload.priority w;
          published = [];
          nodes = none;
        }
        | some nodes ↦
            assign_once ttl now calls payload
              (map selected_of (task_assignments stored nodes roster p priority)) w
      ]
