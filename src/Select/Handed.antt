-- ===== src/Select/Handed.antt =====
-- assignTask as a whole: to whom a command goes.
use saucepan.Common.{
  ℕ, String, ◌≡◌, ◌⊎◌, inl, inr, true, Option, some, List, arith, All, All-map, All-map_of, map,
}
use saucepan.Common.Float.{Float, Math}
use saucepan.Common.Int.{ℤ, pos, negsuc, ◌≤ℤ◌, IsInt32, pos_part}
use saucepan.Lanes.Roster.{StandbyEntry}
use saucepan.Sky.Slew.{Clock}
use saucepan.Handoff.{Settings, effective_assign_priority}
use saucepan.Handoff.Rising.{effective_assign_priority_rises}
use saucepan.Assign.Store.{World}
use saucepan.Assign.Once.{Selected, Calls}
use saucepan.Assign.Once.Published.{assign_once-All}
use saucepan.Select.{Node}
use saucepan.Select.Gates.{passes_node_gates}
use saucepan.Select.Fits.{InRange}
use saucepan.Select.Served.{MayServe, task_assignments-IsServed}
use saucepan.Select.Ladder.{
  TaskPayload, requirements_from_notify, handoff_task_from_notify, selected_of, task_assignments,
  assign_task,
}

raised_range : (base p : ℤ) → IsInt32 base → pos 1 ≤ℤ p → (p ≤ℤ base) ⊎ (p ≡ pos 1) → IsInt32 p
raised_range base (pos n) h low (inl below) = omega arith
raised_range base (negsuc n) h low (inl below) = absurd (omega arith)
raised_range base p h low (inr one) = rw one (omega arith)

module _ (fl : Float) (mt : Math fl) (clock : ℕ → Clock) (now : ℕ)
    (preempt_threshold slew_nearby_ms : ℤ) (env : Settings) (ttl : ℤ) (calls : Calls)
    (stored : String → Option fl.F) (fleet : List (Node fl)) (roster : List StandbyEntry)
    (p : TaskPayload fl) (w : World) where
  -- The id is that of a node that may serve the task and passes its gates.
  abbrev pub IsHanded : String → Type 0
  IsHanded id =
      (n : Node fl) × (id ≡ n.node_id)
      × MayServe fl mt clock now preempt_threshold slew_nearby_ms stored fleet p n
      × (passes_node_gates fl mt n (requirements_from_notify fl p) (clock now) ≡ true)

  -- A command to observe goes to a node of the fleet only which serves the campaign of the task, passes every gate of the task at that time (emulator or not, status, filters, power, magnitude, altitude, limits and obstructions, optics) and, in hard coverage mode with preferred sites, is one of these; whatever the roster, whichever calls succeed, and if the cohort, a single node or the retry on the whole fleet chose it. For priorities of 32 bits.
  pub assign_task-IsHanded :
      IsInt32 p.priority
      → All (λ (n : Node fl). InRange n.current_task_priority) fleet
      → All IsHanded
          (assign_task fl mt clock now preempt_threshold slew_nearby_ms env ttl calls stored
            (some fleet)
            roster
            p
            w).published
  unfolding assign_task
  assign_task-IsHanded h ranges =
      let task = handoff_task_from_notify fl p in
      let priority = effective_assign_priority fl env p.priority task now in
      let (low, same, high) =
        effective_assign_priority_rises fl env p.priority task now now h (omega arith) in
      let sels =
        task_assignments fl mt clock now preempt_threshold slew_nearby_ms stored fleet roster p
          priority in
      let served =
        task_assignments-IsServed fl mt clock now preempt_threshold slew_nearby_ms stored fleet p
          roster priority (raised_range p.priority priority h low high) ranges in
      assign_once-All ttl now calls (record { task_id = p.task_id; priority = pos_part priority })
        IsHanded (map selected_of sels) w
        (All-map_of (λ (s : Selected). IsHanded s.node_id) selected_of sels
          (All-map _ _ (λ s (n, may_serve, (at, gates, displaces)). (n, at, may_serve, gates)) sels
            served))
