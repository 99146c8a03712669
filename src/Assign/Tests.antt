-- ===== src/Assign/Tests.antt =====
-- The theorems of the assignment modules at concrete rows.
use saucepan.Common.{
  not, ◌&&◌, ◌==◌, string_eq, nat_eq, ℕ, String, ◌≡◌, ◌≢◌, refl, true, false, none, some, [], ◌∷◌,
  arith, All, Pairs, lookup, insert, string_eq, nat_eq,
}
use saucepan.Common.Int.{pos}
use saucepan.Assign.Lease.{backoff_window, lease_expired}
use saucepan.Assign.Lease.Backoff.{backoff_window-exact, backoff_window_wraps}
use saucepan.Assign.Store.{
  TaskStatus, AssignmentStatus, Role, TaskRow, AssignmentRow, NodeState, World, count_where,
  find_where,
}
use saucepan.Assign.Reclaim.{
  SweepCalls, reclaim_one, reclaim_expired_leases, is_lapsed, has_id, is_active_on,
}
use saucepan.Assign.Reclaim.Effect.{Reclaimed}
use saucepan.Assign.Reclaim.Keeps.{
  Touched, IsSound, reclaim_one-Reclaimed, reclaim_expired_leases-IsSound,
}
use saucepan.Assign.Reclaim.Rows.{Manned}
use saucepan.Assign.Reclaim.Update.{Keyed}
use saucepan.Assign.Reclaim.Covered.{reached}
use saucepan.Assign.Reclaim.Sweep.{reclaim_expired_leases-none_lapsed}
use saucepan.Assign.Reclaim.Manned.{Outcome, reclaim_expired_leases-Manned}
use saucepan.Assign.Reclaim.Nodes.{idle_node}
use saucepan.Assign.Claim.{persist_task_assignment, insert_cohort_assignment, clear_task_assignment}
use saucepan.Assign.Claim.Exclusive.{
  persist_task_assignment_exclusive, persist_task_assignment_iff, persist_task_assignment-Manned,
}
use saucepan.Assign.Claim.Strands.{clear_task_assignment_strands}
use saucepan.Assign.Claim.Upload.{
  UploadCheck, authorized, validate_upload_assignment, cohort_rejoin_refused,
}
use saucepan.Assign.Once.{Selected, NotifyPayload, Calls, assign_once, publish_each, finish_all}
use saucepan.Assign.Once.Single.{Spares, IsIdle, assign_once_exclusive}

backoff_window-exact_example : backoff_window (pos 120000000000) (pos 3) ≡ pos 960000000000
backoff_window-exact_example = backoff_window-exact 120000000000 3 (omega arith) (omega arith)

backoff_window_wraps_example : backoff_window (pos 17592186044417) (pos 20) ≡ pos 1048576
backoff_window_wraps_example = backoff_window_wraps 1 (omega arith) (omega arith)

abbrev running_task : TaskRow
running_task = record {
  id = 7;
  status = TaskStatus.assigned;
  assigned_telescope_id = some "alpha";
  failure_count = 1;
  priority = 3;
  last_assignment_attempt_at = 100;
}

abbrev waiting_task : TaskRow
waiting_task = record running_task {
  id = 8;
  status = TaskStatus.pending;
  assigned_telescope_id = none;
}

abbrev row : String → Role → AssignmentStatus → ℕ → AssignmentRow
row node role status lease = record {
  task_id = 7;
  telescope_id = node;
  role = role;
  status = status;
  lease_expires_at = lease;
}

abbrev alpha_busy : NodeState
alpha_busy = record {
  busy = true;
  current_task_id = some 7;
  current_task_priority = some 3;
  idle_since = none;
}

-- Task 7 is observed by alpha alone, whose lease ends at 500.
abbrev one_pier : World
one_pier = record {
  tasks = running_task ∷ waiting_task ∷ [];
  assignments = row "alpha" Role.primary AssignmentStatus.assigned 500 ∷ [];
  nodes = ("alpha", alpha_busy) ∷ [];
  queued = (8, 3) ∷ [];
  inflight = (7, 3) ∷ [];
}

one_pier-Keyed : Keyed one_pier.tasks
one_pier-Keyed = ((omega arith, tt), (tt, tt))

one_pier-Manned : All (Manned one_pier.assignments) one_pier.tasks
one_pier-Manned = (λ _. omega arith, ((λ e. cc), tt))

one_pier-IsSound : All (IsSound 5) one_pier.tasks
one_pier-IsSound = (
  record { unassigned = λ e. cc; below_limit = λ _. omega arith; at_most_limit = omega arith },
  (
    record { unassigned = λ _. refl; below_limit = λ _. omega arith; at_most_limit = omega arith },
    tt,
  ),
)

-- Every call works, but the transaction of beta's task 8.
abbrev sweep_calls : SweepCalls
sweep_calls = record {
  query_ok = true;
  scan_ok = λ e. true;
  commit_ok = λ (id, node). not (id == 8 && node == "beta");
}

-- The sweep frees alpha and queues its task.
one_pier_swept :
    let w = reclaim_expired_leases (pos 5) 501 sweep_calls one_pier in
    (w.queued ≡ (7, 3) ∷ (8, 3) ∷ []) × (w.inflight ≡ []) × (w.nodes ≡ ("alpha", idle_node) ∷ [])
unfolding reclaim_expired_leases reclaim_one lease_expired lookup insert
one_pier_swept = (refl, refl, refl)

reclaim_one-Reclaimed_example :
    Pairs
      (Reclaimed 5 501 7 "alpha" one_pier.assignments)
      one_pier.tasks
      (reclaim_one (pos 5) 501 one_pier (7, "alpha")).tasks
reclaim_one-Reclaimed_example =
    reclaim_one-Reclaimed 5 501 one_pier 7 "alpha" (omega arith) one_pier-Keyed

reclaim_expired_leases-IsSound_example :
    let w = reclaim_expired_leases (pos 5) 501 sweep_calls one_pier in
    Pairs (Touched 5) one_pier.tasks w.tasks × All (IsSound 5) w.tasks
reclaim_expired_leases-IsSound_example =
    reclaim_expired_leases-IsSound 5 501 sweep_calls one_pier (omega arith) one_pier-Keyed
      one_pier-IsSound

reclaim_expired_leases-none_lapsed_example :
    All
      (λ r. is_lapsed 501 r ≡ true → reached sweep_calls (r.task_id, r.telescope_id) ≡ false)
      (reclaim_expired_leases (pos 5) 501 sweep_calls one_pier).assignments
reclaim_expired_leases-none_lapsed_example =
    reclaim_expired_leases-none_lapsed (pos 5) 501 sweep_calls one_pier (refl, tt)

reclaim_expired_leases-Manned_example :
    let w = reclaim_expired_leases (pos 5) 501 sweep_calls one_pier in
    Pairs (Outcome 5 501 sweep_calls w.assignments) one_pier.tasks w.tasks
reclaim_expired_leases-Manned_example =
    reclaim_expired_leases-Manned 5 501 sweep_calls one_pier (omega arith) one_pier-Keyed (refl, tt)
      one_pier-Manned

claim_eight : (persist_task_assignment (pos 900) 600 8 "beta" one_pier).1 ≡ true
unfolding persist_task_assignment
claim_eight = refl

persist_task_assignment_exclusive_example :
    let w = (persist_task_assignment (pos 900) 600 8 "beta" one_pier).0 in
    persist_task_assignment (pos 900) 601 8 "gamma" w ≡ (w, false)
persist_task_assignment_exclusive_example =
    persist_task_assignment_exclusive (pos 900) (pos 900) 600 601 8 "beta" "gamma" one_pier
      claim_eight

persist_task_assignment_iff_example :
    ((persist_task_assignment (pos 900) 600 7 "beta" one_pier).1 ≡ false)
    × ((persist_task_assignment (pos 900) 600 7 "beta" one_pier).1 ≡ false
        → (persist_task_assignment (pos 900) 600 7 "beta" one_pier).0 ≡ one_pier)
persist_task_assignment_iff_example = persist_task_assignment_iff (pos 900) 600 7 "beta" one_pier

persist_task_assignment-Manned_example :
    let w = (persist_task_assignment (pos 900) 600 8 "beta" one_pier).0 in
    All (Manned w.assignments) w.tasks
persist_task_assignment-Manned_example =
    persist_task_assignment-Manned (pos 900) 600 8 "beta" one_pier one_pier-Manned

-- The lease of the primary alpha has lapsed; the cohort member beta goes on.
abbrev cohort_left : World
cohort_left = record one_pier {
  assignments =
      row "alpha" Role.primary AssignmentStatus.expired 500
      ∷ row "beta" Role.cohort AssignmentStatus.in_progress 900
      ∷ [];
}

cohort_rejoin_refused_example :
    let w = insert_cohort_assignment (pos 900) 600 7 "alpha" cohort_left in
    (w ≡ cohort_left) × (validate_upload_assignment "alpha" 7 w ≢ UploadCheck.ok)
unfolding authorized
cohort_rejoin_refused_example = cohort_rejoin_refused (pos 900) 600 7 "alpha" cohort_left refl refl

clear_task_assignment_strands_example :
    let w = clear_task_assignment 7 "beta" cohort_left in
    (find_where (has_id 7) w.tasks ≡ some running_task)
    × (count_where (is_active_on 7) w.assignments ≡ 0)
clear_task_assignment_strands_example =
    clear_task_assignment_strands 7 "beta" "alpha" cohort_left running_task (omega arith) refl refl
      refl (λ e. cc) ((λ e. cc), ((λ _. refl), tt))

abbrev all_up : Calls
all_up = record {
  claim_ok = true;
  cohort_ok = λ node. true;
  publish_ok = λ node. true;
  release_ok = λ node. true;
  clear_ok = λ node. true;
  flush_ok = true;
}

-- Task 8 goes to beta, which drops task 7 for it.
abbrev two_paths : World
two_paths = record {
  tasks = running_task ∷ waiting_task ∷ [];
  assignments = [];
  nodes = [];
  queued = (8, 3) ∷ [];
  inflight = (7, 3) ∷ [];
}

abbrev beta : Selected
beta = record { node_id = "beta"; preempting = true; prev_task_id = some 7 }

abbrev gamma : Selected
gamma = record { node_id = "gamma"; preempting = false; prev_task_id = none }

abbrev urgent : NotifyPayload
urgent = record { task_id = 8; priority = 1 }

beta-Spares : Spares 8 beta
beta-Spares e = absurd (ground arith)

assign_once_exclusive_example :
    let w' = (assign_once (pos 900) 100 all_up urgent (beta ∷ []) two_paths).world in
    IsIdle w' (assign_once (pos 900) 101 all_up urgent (gamma ∷ []) w')
unfolding assign_once persist_task_assignment publish_each finish_all
assign_once_exclusive_example =
    assign_once_exclusive (pos 900) (pos 900) 100 101 all_up all_up urgent 1 (beta ∷ [])
      (gamma ∷ []) two_paths (beta-Spares, tt) (omega arith)
