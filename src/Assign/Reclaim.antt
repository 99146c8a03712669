-- ===== src/Assign/Reclaim.antt =====
-- cmd/orchestrator/orchestrator_reclaim.go: reclaimOne, clearReclaimedNode and the sweep.
-- A statement of a transaction that fails rolls the transaction back, which is the step not taken.
-- The Redis calls after the commit succeed.
pub mod Update
pub mod Effect
pub mod Keeps
pub mod Covered
pub mod Rows
pub mod Sweep
pub mod Manned
pub mod Nodes
use saucepan.Common.{
  ℕ, ◌+◌, String, Bool, true, false, ◌&&◌, Option, none, some, List, [], ◌∷◌, ltb, ◌==◌, nat_eq,
  string_eq, if◌then◌else◌, Mapping, lookup, insert, filter, map, not,
}
use saucepan.Common.Int.{ℤ}
use saucepan.Assign.Lease.{ReclaimAction, no_action, decide_reclaim, lease_expired}
use saucepan.Assign.Store.{
  TaskStatus, AssignmentStatus, TaskRow, AssignmentRow, NodeState, World, is_live, is_running,
  update_where, count_where, find_where, zrem, zadd,
}

-- The rows of one assignee of a task that are still active.
abbrev pub is_assignee : ℕ → String → AssignmentRow → Bool
is_assignee task_id node r = r.task_id == task_id && r.telescope_id == node && is_live r.status

abbrev pub is_active_on : ℕ → AssignmentRow → Bool
is_active_on task_id r = r.task_id == task_id && is_live r.status

abbrev pub has_id : ℕ → TaskRow → Bool
has_id task_id t = t.id == task_id

abbrev pub expire_row : AssignmentRow → AssignmentRow
expire_row r = record r { status = AssignmentStatus.expired }

-- The switch on the action: the two UPDATE statements on tasks.
abbrev pub put_back : TaskStatus → ℕ → ℕ → TaskRow → TaskRow
put_back status failure_count now t = record t {
  status = status;
  assigned_telescope_id = none;
  failure_count = failure_count;
  last_assignment_attempt_at = now;
}

unfoldable pub apply_action : ReclaimAction → ℕ → ℕ → ℕ → List TaskRow → List TaskRow
apply_action act task_id failure_count now tasks =
    if act.requeue_task
    then update_where (has_id task_id) (put_back TaskStatus.pending failure_count now) tasks
    else if act.terminal_expire
    then update_where (has_id task_id) (put_back TaskStatus.expired failure_count now) tasks
    else tasks

-- The compare-and-delete on the node's hash.
unfoldable pub clear_reclaimed_node : String → ℕ → Mapping NodeState → Mapping NodeState
clear_reclaimed_node node task_id nodes = elim (lookup node nodes) [
  | none ↦ nodes
  | some state ↦ (elim state.current_task_id [
    | none ↦ nodes
    | some current ↦
        if current == task_id
        then insert node
            (record {
              busy = false;
              current_task_id = none;
              current_task_priority = none;
              idle_since = none;
            })
            nodes
        else nodes
  ])
]

-- The row of tasks under its lock decides: only a running task is put back.
unfoldable pub row_action : TaskRow → ℕ → ℤ → ReclaimAction
unfolding decide_reclaim
row_action t active_left max_failures =
    if is_running t.status
    then decide_reclaim active_left (t.failure_count + 1) max_failures
    else no_action

unfoldable pub row_failures : TaskRow → ℕ
row_failures t = if is_running t.status then t.failure_count + 1 else t.failure_count

-- The Redis pipeline after the commit.
unfoldable pub requeue_keys : ReclaimAction → ℕ → ℕ → World → World
requeue_keys act task_id priority w =
    if act.requeue_task
    then record w { inflight = zrem task_id w.inflight; queued = zadd task_id priority w.queued }
    else if act.terminal_expire
    then record w { inflight = zrem task_id w.inflight; queued = zrem task_id w.queued }
    else w

-- What the transaction and the pipeline leave, once the stale rows of the assignee are expired.
unfoldable pub reclaim_task : ℤ → ℕ → ℕ → String → World → List AssignmentRow → TaskRow → World
unfolding apply_action row_action row_failures requeue_keys clear_reclaimed_node
reclaim_task max_failures now task_id node w rows t =
    let act = row_action t (count_where (is_active_on task_id) rows) max_failures in
    requeue_keys act task_id t.priority (record w {
      tasks = apply_action act task_id (row_failures t) now w.tasks;
      assignments = rows;
      nodes = clear_reclaimed_node node task_id w.nodes;
    })

unfoldable pub reclaim_one : ℤ → ℕ → World → ℕ × String → World
unfolding reclaim_task
reclaim_one max_failures now w (task_id, node) =
    if count_where (is_assignee task_id node) w.assignments == 0
    then w
    else elim (find_where (has_id task_id) w.tasks) [
      | none ↦ w
      | some t ↦
          reclaim_task max_failures now task_id node w
            (update_where (is_assignee task_id node) expire_row w.assignments) t
    ]

-- The SELECT of the sweep, and its loop.
abbrev pub is_lapsed : ℕ → AssignmentRow → Bool
is_lapsed now r = is_live r.status && lease_expired r.lease_expires_at now

unfoldable pub stale : ℕ → List AssignmentRow → List (ℕ × String)
stale now rows = map (λ r. (r.task_id, r.telescope_id)) (filter (is_lapsed now) rows)

-- What works in a sweep: its SELECT, the Scan of a pair, and the transaction of a pair.
pub record SweepCalls : Type 0 where
  pub query_ok : Bool
  pub scan_ok : ℕ × String → Bool
  pub commit_ok : ℕ × String → Bool

-- A transaction that fails is rolled back and logged.
unfoldable pub reclaim_logged : ℤ → ℕ → SweepCalls → World → ℕ × String → World
unfolding reclaim_one
reclaim_logged max_failures now calls w e =
    if calls.commit_ok e then reclaim_one max_failures now w e else w

unfoldable pub reclaim_all : ℤ → ℕ → SweepCalls → World → List (ℕ × String) → World
unfolding reclaim_logged
reclaim_all max_failures now calls w [] = w
reclaim_all max_failures now calls w (e ∷ es) =
    reclaim_all max_failures now calls (reclaim_logged max_failures now calls w e) es

unfoldable pub reclaim_expired_leases : ℤ → ℕ → SweepCalls → World → World
unfolding reclaim_all stale
reclaim_expired_leases max_failures now calls w =
    if calls.query_ok
    then reclaim_all max_failures now calls w (filter calls.scan_ok (stale now w.assignments))
    else w
