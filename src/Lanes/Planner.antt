-- ===== src/Lanes/Planner.antt =====
-- SaucepanServer/task-server/shared/lanes/planner.go: the agenda of planned observations.
pub mod Choice
pub mod Overlap
pub mod Agenda
use saucepan.Common.{
  ℕ, ◌+◌, ◌-◌, ◌*◌, ◌/◌, ◌%◌, ◌^◌, zero, suc, String, Bool, true, false, ◌&&◌, ◌||◌, not, Option,
  none, some, List, [], ◌∷◌, ltb, leb, ◌==◌, nat_eq, string_eq, if◌then◌else◌, any, filter, length,
  Mapping, lookup, insert, nth,
}
use saucepan.Common.Float.{Float}
use saucepan.Common.Int.{ℤ, pos, negsuc, pos_part, neg_part, ltb_ℤ, leb_ℤ, ◌*ℤ◌, wrap_int64}
use saucepan.Common.Sort.{sort_by}
use saucepan.Common.Time.{second, minute, add_duration}

abbrev pub plan_horizon_default : ℕ
plan_horizon_default = 6 * 60 * minute

pub record PlanNode : Type 0 where
  pub node_id : String

abbrev pub or_zero : Option ℕ → ℕ
or_zero none = 0
or_zero (some t) = t

-- nextFree[id]
unfoldable pub free_at : Mapping ℕ → String → ℕ
free_at next_free id = or_zero (lookup id next_free)

abbrev pub max_time : ℕ → ℕ → ℕ
max_time start bound = if ltb start bound then bound else start

module _ (fl : Float) where
  pub record PlanTask : Type 0 where
    pub task_id : ℕ
    pub campaign_id : String
    pub priority : ℤ
    pub ra : Option fl.F
    pub dec : Option fl.F
    pub integration_sec : fl.F
    pub cadence_goal_min : ℤ
    pub window_start : ℕ
    pub window_end : ℕ
    pub preferred_nodes : List String

  pub record AgendaSlot : Type 0 where
    pub task_id : ℕ
    pub campaign_id : String
    pub node_id : String
    pub start_at : ℕ
    pub end_at : ℕ
    pub cadence_goal_min : ℤ
    pub priority : ℤ
    pub ra : Option fl.F
    pub dec : Option fl.F

  abbrev pub task_before : PlanTask → PlanTask → Bool
  task_before a b =
      if not (leb_ℤ a.priority b.priority && leb_ℤ b.priority a.priority)
      then ltb_ℤ a.priority b.priority
      else ltb a.task_id b.task_id

  -- The window of a task, its end computed from its start.
  abbrev pub window_start_of : ℕ → PlanTask → ℕ
  window_start_of now t = if t.window_start == 0 then now else t.window_start

  abbrev pub window_end_of : ℕ → PlanTask → ℕ
  window_end_of now t =
      if t.window_end == 0 || not (ltb (window_start_of now t) t.window_end)
      then window_start_of now t + plan_horizon_default
      else t.window_end

  abbrev pub integration_of : PlanTask → fl.F
  integration_of t = if fl.le t.integration_sec (fl.lit 0 0) then fl.lit 60 0 else t.integration_sec

  -- time.Duration(integ * float64(time.Second))
  abbrev pub exposure_of : PlanTask → ℤ
  exposure_of t = fl.to_int (fl.mul (integration_of t) (fl.of_int (pos second)))

  unfoldable pub cadence_of : PlanTask → ℤ
  cadence_of t =
      if leb_ℤ t.cadence_goal_min (pos 0)
      then (let whole = wrap_int64 (fl.to_int (integration_of t) *ℤ pos second) in
          if ltb_ℤ whole (pos minute) then pos minute else whole)
      else wrap_int64 (t.cadence_goal_min *ℤ pos minute)

  abbrev pub is_preferred : PlanTask → PlanNode → Bool
  is_preferred t n = any (λ id. id == n.node_id) t.preferred_nodes

  unfoldable pub candidates_of : List PlanNode → PlanTask → List PlanNode
  candidates_of nodes t =
      if ltb 0 (length t.preferred_nodes)
      then (let pref = filter (is_preferred t) nodes in if ltb 0 (length pref) then pref else nodes)
      else nodes

  abbrev pub start_on : ℕ → PlanTask → Mapping ℕ → PlanNode → ℕ
  start_on now t next_free n =
      max_time (max_time (free_at next_free n.node_id) (window_start_of now t)) now

  -- One candidate against the best so far; an id of "" stands for none.
  unfoldable pub consider : ℕ → PlanTask → Mapping ℕ → PlanNode → String × ℕ → String × ℕ
  consider now t next_free n (best_id, best_start) =
      let start = start_on now t next_free n in
      if ltb (window_end_of now t) (add_duration start (exposure_of t))
      then (best_id, best_start)
      else if best_id == "" || ltb start best_start
      then (n.node_id, start)
      else (best_id, best_start)

  abbrev pub consider_at : ℕ → PlanTask → Mapping ℕ → Option PlanNode → String × ℕ → String × ℕ
  consider_at now t next_free none best = best
  consider_at now t next_free (some n) best = consider now t next_free n best

  -- The round-robin loop: `left` rounds are left, and `i` are done.
  unfoldable pub pick :
      ℕ → PlanTask → Mapping ℕ → List PlanNode → ℕ → ℕ → ℕ → String × ℕ → String × ℕ
  pick now t next_free candidates node_idx zero i best = best
  pick now t next_free candidates node_idx (suc left) i best =
      pick now t next_free candidates node_idx left (i + 1)
        (consider_at now t next_free (nth candidates ((node_idx + i) % length candidates)) best)

  abbrev pub best_of : ℕ → PlanTask → Mapping ℕ → List PlanNode → ℕ → String × ℕ
  best_of now t next_free nodes node_idx =
      let candidates = candidates_of nodes t in
      pick now t next_free candidates node_idx (length candidates) 0 ("", 0)

  abbrev pub slot_of : PlanTask → String × ℕ → AgendaSlot
  slot_of t (id, start) = record {
    task_id = t.task_id;
    campaign_id = t.campaign_id;
    node_id = id;
    start_at = start;
    end_at = add_duration start (exposure_of t);
    cadence_goal_min = t.cadence_goal_min;
    priority = t.priority;
    ra = t.ra;
    dec = t.dec;
  }

  -- The slot of a task, if a node has room for it.
  unfoldable pub place : ℕ → List PlanNode → PlanTask → Mapping ℕ → ℕ → Option AgendaSlot
  place now nodes t next_free node_idx =
      if ltb (window_end_of now t) now
      then none
      else let best = best_of now t next_free nodes node_idx in
        if best.0 == "" then none else some (slot_of t best)

  -- When the node of a slot is free again.
  unfoldable pub next_of : PlanTask → AgendaSlot → ℕ
  next_of t slot = max_time (add_duration slot.end_at (cadence_of t)) slot.end_at

  unfoldable pub place_all : ℕ → List PlanNode → List PlanTask → Mapping ℕ → ℕ → List AgendaSlot
  place_all now nodes [] next_free node_idx = []
  place_all now nodes (t ∷ tasks) next_free node_idx = elim (place now nodes t next_free node_idx) [
    | none ↦ place_all now nodes tasks next_free node_idx
    | some slot ↦
        slot
        ∷ place_all now nodes tasks (insert slot.node_id (next_of t slot) next_free) (node_idx + 1)
  ]

  abbrev pub all_free : ℕ → List PlanNode → Mapping ℕ
  all_free now [] = []
  all_free now (n ∷ nodes) = insert n.node_id now (all_free now nodes)

  unfoldable pub build_agenda : List PlanTask → List PlanNode → ℕ → List AgendaSlot
  build_agenda tasks nodes now =
      if length tasks == 0 || length nodes == 0
      then []
      else place_all now nodes (sort_by task_before tasks) (all_free now nodes) 0
