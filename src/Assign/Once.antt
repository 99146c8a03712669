-- ===== src/Assign/Once.antt =====
-- SaucepanServer/task-server/cmd/orchestrator/orchestrator_assign.go: assignOnce and its production
-- executor.
pub mod Rows
pub mod Single
pub mod Published
use saucepan.Common.{
  ℕ, String, Bool, true, false, ◌&&◌, ◌||◌, not, Option, none, some, List, [], ◌∷◌, ◌++◌, ◌==◌,
  nat_eq, if◌then◌else◌, Mapping, insert, map,
}
use saucepan.Common.Int.{ℤ}
use saucepan.Assign.Store.{World, NodeState, zrem, zadd}
use saucepan.Assign.Claim.{
  persist_task_assignment, insert_cohort_assignment, clear_task_assignment,
  release_cohort_assignment,
}

-- A shared.SelectorResult, by what assignOnce reads of it.
pub record Selected : Type 0 where
  pub node_id : String
  pub preempting : Bool
  pub prev_task_id : Option ℕ

pub record NotifyPayload : Type 0 where
  pub task_id : ℕ
  pub priority : ℕ

-- Which calls of the services succeed, by the node concerned.
pub record Calls : Type 0 where
  pub claim_ok : Bool
  pub cohort_ok : String → Bool
  pub publish_ok : String → Bool
  pub release_ok : String → Bool
  pub clear_ok : String → Bool
  pub flush_ok : Bool

-- The commands of the Redis pipeline.
pub data RedisOp : Type 0 where
  node_busy : String → ℕ → ℕ → RedisOp
  queued_to_inflight inflight_to_queued : ℕ → ℕ → RedisOp

unfoldable pub apply_op : RedisOp → World → World
apply_op (node_busy node task_id priority) w = record w {
  nodes =
      insert node
        (record {
          busy = true;
          current_task_id = some task_id;
          current_task_priority = some priority;
          idle_since = none;
        })
        w.nodes;
}
apply_op (queued_to_inflight task_id priority) w = record w {
  queued = zrem task_id w.queued;
  inflight = zadd task_id priority w.inflight;
}
apply_op (inflight_to_queued task_id priority) w = record w {
  inflight = zrem task_id w.inflight;
  queued = zadd task_id priority w.queued;
}

unfoldable pub apply_ops : List RedisOp → World → World
apply_ops [] w = w
apply_ops (op ∷ ops) w = apply_ops ops (apply_op op w)

unfoldable pub flush : Calls → List RedisOp → World → World
flush calls ops w = if calls.flush_ok then apply_ops ops w else w

-- enqueueByLane, on the interrupt lane, with a service that answers
abbrev pub enqueue_by_lane : ℕ → ℕ → World → World
enqueue_by_lane task_id priority w =
    if task_id == 0 then w else record w { queued = zadd task_id priority w.queued }

-- The rows, the nodes that a command was handed to the broker for (delivered or not), and the answer, `none` for nil.
pub record Assigned : Type 0 where
  pub world : World
  pub published : List String
  pub nodes : Option (List String)

abbrev pub busy_ops : NotifyPayload → List Selected → List RedisOp
busy_ops p [] = []
busy_ops p (sel ∷ rest) = node_busy sel.node_id p.task_id p.priority ∷ busy_ops p rest

module _ (ttl : ℤ) (now : ℕ) (calls : Calls) (p : NotifyPayload) where
  -- The publishing loop, on the members from `i` on: `delivered` are those before.
  unfoldable pub publish_failed : Bool → Selected → List Selected → World → Assigned
  publish_failed is_primary sel delivered w =
      let released =
        if not is_primary && calls.release_ok sel.node_id
        then release_cohort_assignment p.task_id sel.node_id w
        else w in
      record {
        world =
            flush calls (busy_ops p delivered ++ queued_to_inflight p.task_id p.priority ∷ [])
              released;
        published = map (λ s. s.node_id) (delivered ++ sel ∷ []);
        nodes = none;
      }

  -- A preempted task goes back to pending and to the queue.
  unfoldable pub finish_each : List Selected → World → World × List RedisOp
  finish_each [] w = (w, queued_to_inflight p.task_id p.priority ∷ [])
  finish_each (sel ∷ rest) w = elim (if sel.preempting then sel.prev_task_id else none) [
    | none ↦
        let (w', ops) = finish_each rest w in (w', node_busy sel.node_id p.task_id p.priority ∷ ops)
    | some prev ↦
        let cleared =
          if calls.clear_ok sel.node_id then clear_task_assignment prev sel.node_id w else w in
        let (w', ops) = finish_each rest cleared in
        (w', inflight_to_queued prev p.priority ∷ node_busy sel.node_id p.task_id p.priority ∷ ops)
  ]

  unfoldable pub finish_all : List Selected → World → Assigned
  finish_all assignments w =
      let (w', ops) = finish_each assignments w in
      record {
        world = flush calls ops w';
        published = map (λ s. s.node_id) assignments;
        nodes = some (map (λ s. s.node_id) assignments);
      }

  abbrev pub record_cohort : Bool → Selected → World → World
  record_cohort is_primary sel w =
      if not is_primary && calls.cohort_ok sel.node_id
      then insert_cohort_assignment ttl now p.task_id sel.node_id w
      else w

  unfoldable pub publish_each : Bool → List Selected → List Selected → World → Assigned
  publish_each is_primary delivered [] w = finish_all delivered w
  publish_each is_primary delivered (sel ∷ rest) w =
      let recorded = record_cohort is_primary sel w in
      let later = publish_each false (delivered ++ sel ∷ []) rest recorded in
      if calls.publish_ok sel.node_id
      then later
      else publish_failed is_primary sel delivered recorded

  unfoldable pub assign_once : List Selected → World → Assigned
  assign_once [] w = record {
    world = enqueue_by_lane p.task_id p.priority w;
    published = [];
    nodes = none;
  }
  assign_once (primary ∷ rest) w =
      if not calls.claim_ok
      then record { world = enqueue_by_lane p.task_id p.priority w; published = []; nodes = none }
      else let (w', claimed) = persist_task_assignment ttl now p.task_id primary.node_id w in
        if not claimed
        then record { world = w'; published = []; nodes = none }
        else publish_each true [] (primary ∷ rest) w'
