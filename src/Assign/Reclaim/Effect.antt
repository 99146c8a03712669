-- ===== src/Assign/Reclaim/Effect.antt =====
-- orchestrator_reclaim.go: when a reclaim changes a row of tasks, and to what.
use saucepan.Common.{
  ℕ, ◌+◌, ◌≤◌, ◌<◌, String, ◌≡◌, ◌≢◌, refl, ◌⊎◌, inl, inr, true, none, some, List, [], ◌∷◌, arith,
  ◌==◌, nat_eq, Pairs, Bool, ◌&&◌, not, string_eq, subst,
}
use saucepan.Assign.Lease.{ReclaimAction}
use saucepan.Assign.Store.{
  TaskStatus, TaskRow, AssignmentRow, World, is_live, is_running, update_where, count_where,
  find_where,
}
use saucepan.Assign.Reclaim.{
  is_active_on, expire_row, is_assignee, has_id, apply_action, row_failures, requeue_keys,
}
use saucepan.Assign.Reclaim.Update.{Keyed, Decides, update-Pairs, update_self}

-- The active rows of an assignee of a task, and those of its other assignees.
abbrev pub is_member : ℕ → String → AssignmentRow → Bool
is_member task_id node r = r.task_id == task_id && r.telescope_id == node && is_live r.status

abbrev pub is_other_member : ℕ → String → AssignmentRow → Bool
is_other_member task_id node r =
    r.task_id == task_id && (is_live r.status && not (r.telescope_id == node))

-- The task is the reclaimed one, is running, and loses its last active assignee.
abbrev pub IsDue : ℕ → String → List AssignmentRow → TaskRow → Type 0
IsDue task_id node rows t =
    (t.id ≡ task_id)
    × (is_running t.status ≡ true)
    × (0 < count_where (is_member task_id node) rows)
    × (count_where (is_other_member task_id node) rows ≡ 0)

-- The row with one more failure and without an assignee, under a status.
abbrev pub returned : TaskStatus → ℕ → TaskRow → TaskRow
returned status now t = record t {
  status = status;
  assigned_telescope_id = none;
  failure_count = t.failure_count + 1;
  last_assignment_attempt_at = now;
}

-- What a reclaim does to a row: nothing if it is not due, or else one more failure, on which it goes
-- back to the queue below the limit and expires at it.
abbrev pub Reclaimed : ℕ → ℕ → ℕ → String → List AssignmentRow → TaskRow → TaskRow → Type 0
Reclaimed limit now task_id node rows t u =
    ((¬ IsDue task_id node rows t) × (u ≡ t))
    ⊎ (IsDue task_id node rows t
        × (((u ≡ returned TaskStatus.pending now t) × (t.failure_count + 1 < limit))
            ⊎ ((u ≡ returned TaskStatus.expired now t) × (limit ≤ t.failure_count + 1))))

-- Once the rows of one assignee are expired, the active ones are those of the others.
pub count_expired :
    (id : ℕ) (node : String) (rows : List AssignmentRow)
    → count_where (is_active_on id) (update_where (is_assignee id node) expire_row rows)
      ≡ count_where (is_other_member id node) rows
count_expired id node [] = refl
count_expired id node (r ∷ rs) = ground (arith, count_expired id node rs)

module _ (limit now id : ℕ) (node : String) (rows : List AssignmentRow) where
  pub stays : (t : TaskRow) → t.id ≢ id → Reclaimed limit now id node rows t t
  stays t differs = inl (λ due. differs due.0, refl)

  pub apply-Reclaimed :
      (t : TaskRow) (ts : List TaskRow) (act : ReclaimAction)
      → Decides limit t (count_where (is_other_member id node) rows) act
      → t.id ≡ id
      → 0 < count_where (is_member id node) rows
      → find_where (has_id id) ts ≡ some t
      → Keyed ts
      → Pairs (Reclaimed limit now id node rows) ts (apply_action act id (row_failures t) now ts)
  unfolding apply_action row_failures
  apply-Reclaimed t ts act (inl (e, why)) same held found keyed = rw e (
      subst (Pairs (Reclaimed limit now id node rows) ts) (update_self id ts) (
        update-Pairs (Reclaimed limit now id node rows) id stays (λ u. u) t ts found keyed
          (inl (λ due. ground (arith, why, due.1, due.3), refl))))
  apply-Reclaimed t ts act (inr (run, alone, inl (e, below))) same held found keyed =
      rw (e, run)
        (update-Pairs (Reclaimed limit now id node rows) id stays _ t ts found keyed
          (inr ((same, run, held, alone), inl (refl, below))))
  apply-Reclaimed t ts act (inr (run, alone, inr (e, over))) same held found keyed =
      rw (e, run)
        (update-Pairs (Reclaimed limit now id node rows) id stays _ t ts found keyed
          (inr ((same, run, held, alone), inr (refl, over))))

pub requeue_keys-tasks :
    (act : ReclaimAction) (id priority : ℕ) (w : World)
    → (requeue_keys act id priority w).tasks ≡ w.tasks
unfolding requeue_keys
requeue_keys-tasks act id priority w = ground arith
