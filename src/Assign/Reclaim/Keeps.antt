-- ===== src/Assign/Reclaim/Keeps.antt =====
-- What a reclaim and a sweep do to the rows of tasks.
use saucepan.Common.{
  ℕ, ◌+◌, ◌≤◌, ◌<◌, String, ◌≡◌, ◌≢◌, refl, ◌⊎◌, inl, inr, true, false, none, List, [], ◌∷◌, arith,
  ◌==◌, nat_eq, All, Pairs, Pairs-refl, Pairs-trans, Pairs-All, sym, filter, Bool, string_eq,
  if◌then◌else◌, Option-cases, Bool-cases, subst,
}
use saucepan.Common.Int.{pos}
use saucepan.Assign.Store.{
  TaskStatus, TaskRow, AssignmentRow, World, is_running, update_where, count_where, find_where,
}
use saucepan.Assign.Reclaim.{
  SweepCalls, is_active_on, expire_row, reclaim_logged, is_assignee, has_id, row_action,
  reclaim_one, reclaim_all, reclaim_expired_leases, stale,
}
use saucepan.Assign.Reclaim.Update.{
  Keyed, Decides, row_action-Decides, Pairs-absent, found_id, missing_All,
}
use saucepan.Assign.Reclaim.Effect.{
  Reclaimed, stays, apply-Reclaimed, count_expired, requeue_keys-tasks,
}

-- What a reclaim may do to a row: nothing, or one more failure of a running task, which goes back
-- to the queue below the limit and expires at it.
abbrev pub Touched : ℕ → TaskRow → TaskRow → Type 0
Touched limit t u =
    (u ≡ t)
    ⊎ ((is_running t.status ≡ true)
        × (u.id ≡ t.id)
        × (u.failure_count ≡ t.failure_count + 1)
        × (u.assigned_telescope_id ≡ none)
        × (((u.status ≡ TaskStatus.pending) × (u.failure_count < limit))
            ⊎ ((u.status ≡ TaskStatus.expired) × (limit ≤ u.failure_count))))

Reclaimed-Touched :
    (limit now task_id : ℕ) (node : String) (rows : List AssignmentRow) (t u : TaskRow)
    → Reclaimed limit now task_id node rows t u
    → Touched limit t u
Reclaimed-Touched limit now task_id node rows t u (inl (_, e)) = inl e
Reclaimed-Touched limit now task_id node rows t u (inr (due, inl (e, below))) =
    subst (Touched limit t) (sym e) (inr (due.1, refl, refl, refl, inl (refl, below)))
Reclaimed-Touched limit now task_id node rows t u (inr (due, inr (e, over))) =
    subst (Touched limit t) (sym e) (inr (due.1, refl, refl, refl, inr (refl, over)))

Touched-refl : (limit : ℕ) (t : TaskRow) → Touched limit t t
Touched-refl limit t = inl refl

-- The exact effect of one reclaim of any (task, node) pair on the rows of tasks, with distinct task ids and a positive limit TASK_MAX_FAILURES: the row changes that has the task's id, if the task is assigned or in progress, the node has an active assignment on it and no other node has one; it then has one more failure, no assignee, the time of the reclaim as its last attempt, and is pending if its failures stay below the limit, expired if they reach it. Every other field of it, and every other row, is as it was.
pub reclaim_one-Reclaimed :
    (limit now : ℕ) (w : World) (task_id : ℕ) (node : String)
    → 0 < limit
    → Keyed w.tasks
    → Pairs
        (Reclaimed limit now task_id node w.assignments)
        w.tasks
        (reclaim_one (pos limit) now w (task_id, node)).tasks
unfolding reclaim_one
reclaim_one-Reclaimed limit now w task_id node positive keyed =
    let R = Reclaimed limit now task_id node w.assignments in
    elim (Bool-cases (count_where (is_assignee task_id node) w.assignments == 0)) [
      | inl none_left ↦
          rw none_left (Pairs-refl R (λ t. inl (λ due. ground (arith, due.2), refl)) w.tasks)
      | inr some_left ↦ elim (Option-cases (find_where (has_id task_id) w.tasks)) [
        | inl missing ↦
            rw (some_left, missing)
              (Pairs-absent R task_id (stays limit now task_id node w.assignments) w.tasks
                (missing_All task_id w.tasks missing))
        | inr (t, found) ↦
            rw (some_left, found)
              (rw (requeue_keys-tasks _ task_id t.priority _) (
                apply-Reclaimed limit now task_id node w.assignments t w.tasks _
                  (subst
                    (λ n. Decides limit t n (
                      row_action t
                        (count_where (is_active_on task_id)
                          (update_where (is_assignee task_id node) expire_row w.assignments))
                        (pos limit)))
                    (count_expired task_id node w.assignments)
                    (row_action-Decides limit _ t positive))
                  (found_id task_id t w.tasks found) (ground arith) found keyed))
      ]
    ]

-- Pointwise, a relation may be weakened.
Pairs-map :
    (R S : TaskRow → TaskRow → Type 0)
    → ((t u : TaskRow) → R t u → S t u)
    → (ts us : List TaskRow) → Pairs R ts us
    → Pairs S ts us
Pairs-map R S f [] [] p = tt
Pairs-map R S f [] (u ∷ us) p = elim p [ ]
Pairs-map R S f (t ∷ ts) [] p = elim p [ ]
Pairs-map R S f (t ∷ ts) (u ∷ us) p = (f t u p.0, Pairs-map R S f ts us p.1)

either-Touched :
    (limit : ℕ) (b : Bool) (ts : List TaskRow) (x y : World)
    → Pairs (Touched limit) ts x.tasks
    → Pairs (Touched limit) ts y.tasks
    → Pairs (Touched limit) ts (if b then x else y).tasks
either-Touched limit true ts x y p q = p
either-Touched limit false ts x y p q = q

pub reclaim_logged-Touched :
    (limit now : ℕ) (calls : SweepCalls) (w : World) (e : ℕ × String)
    → 0 < limit
    → Keyed w.tasks
    → Pairs (Touched limit) w.tasks (reclaim_logged (pos limit) now calls w e).tasks
unfolding reclaim_logged
reclaim_logged-Touched limit now calls w (id, node) positive keyed =
    either-Touched limit (calls.commit_ok (id, node)) w.tasks
      (reclaim_one (pos limit) now w (id, node)) w
      (Pairs-map _ (Touched limit) (Reclaimed-Touched limit now id node w.assignments) w.tasks _
        (reclaim_one-Reclaimed limit now w id node positive keyed))
      (Pairs-refl (Touched limit) (Touched-refl limit) w.tasks)

ids-Pairs :
    (limit id : ℕ) (ts us : List TaskRow)
    → Pairs (Touched limit) ts us
    → All (λ v. v.id ≢ id) ts
    → All (λ v. v.id ≢ id) us
ids-Pairs limit id ts us =
    Pairs-All (Touched limit) (λ v. v.id ≢ id) (λ v. v.id ≢ id)
      (λ t u step differs e. differs (ground arith)) ts us

pub Keyed-Pairs :
    (limit : ℕ) (ts us : List TaskRow) → Pairs (Touched limit) ts us → Keyed ts → Keyed us
Keyed-Pairs limit [] [] p k = tt
Keyed-Pairs limit [] (u ∷ us) p k = elim p [ ]
Keyed-Pairs limit (t ∷ ts) [] p k = elim p [ ]
Keyed-Pairs limit (t ∷ ts) (u ∷ us) p k =
    let same : t.id ≡ u.id = ground arith in
    (
      subst (λ i. All (λ v. v.id ≢ i) us) same (ids-Pairs limit t.id ts us p.1 k.0),
      Keyed-Pairs limit ts us p.1 k.1,
    )

-- A row between two steps: a pending task has no assignee, and a task that has not expired still
-- has a failure to go.
pub record IsSound (limit : ℕ) (t : TaskRow) : Type 0 where
  pub unassigned : t.status ≡ TaskStatus.pending → t.assigned_telescope_id ≡ none
  pub below_limit : t.status ≢ TaskStatus.expired → t.failure_count < limit
  pub at_most_limit : t.failure_count ≤ limit

Touched-IsSound :
    (limit : ℕ) (t u : TaskRow) → Touched limit t u → IsSound limit t → IsSound limit u
Touched-IsSound limit t u (inl e) s = rw e s
Touched-IsSound limit t u (inr (run, _, count, gone, inl (status, below))) s = record {
  unassigned = λ _. gone;
  below_limit = λ _. below;
  at_most_limit = omega arith;
}
Touched-IsSound limit t u (inr (run, _, count, gone, inr (status, over))) s =
    let was : t.failure_count < limit = s.below_limit (λ e. ground arith) in
    record {
      unassigned = λ _. gone;
      below_limit = λ not_expired. absurd (not_expired status);
      at_most_limit = omega arith;
    }

-- A row that was put back is not running, so a sweep puts it back once.
Touched-trans :
    (limit : ℕ) (t u v : TaskRow) → Touched limit t u → Touched limit u v → Touched limit t v
Touched-trans limit t u v (inl e) k = subst (λ x. Touched limit x v) e k
Touched-trans limit t u v (inr h) (inl e) = subst (Touched limit t) (sym e) (inr h)
Touched-trans limit t u v (inr (_, _, _, _, inl (status, _))) (inr (run, _, _, _, _)) =
    absurd (ground arith)
Touched-trans limit t u v (inr (_, _, _, _, inr (status, _))) (inr (run, _, _, _, _)) =
    absurd (ground arith)

module _ (limit now : ℕ) (calls : SweepCalls) (positive : 0 < limit) where
  reclaim_all-Touched :
      (w : World) (es : List (ℕ × String))
      → Keyed w.tasks
      → Pairs (Touched limit) w.tasks (reclaim_all (pos limit) now calls w es).tasks
  unfolding reclaim_all
  reclaim_all-Touched w [] keyed = Pairs-refl (Touched limit) (Touched-refl limit) w.tasks
  reclaim_all-Touched w (e ∷ es) keyed =
      let w' = reclaim_logged (pos limit) now calls w e in
      let step : Pairs (Touched limit) w.tasks w'.tasks =
        reclaim_logged-Touched limit now calls w e positive keyed in
      Pairs-trans (Touched limit) (Touched limit) (Touched limit) (Touched-trans limit) w.tasks
        w'.tasks _ step (reclaim_all-Touched w' es (Keyed-Pairs limit w.tasks w'.tasks step keyed))

  pub reclaim_expired_leases-Touched :
      (w : World)
      → Keyed w.tasks
      → Pairs (Touched limit) w.tasks (reclaim_expired_leases (pos limit) now calls w).tasks
  unfolding reclaim_expired_leases
  reclaim_expired_leases-Touched w keyed =
      either-Touched limit calls.query_ok w.tasks _ w
        (reclaim_all-Touched w (filter calls.scan_ok (stale now w.assignments)) keyed)
        (Pairs-refl (Touched limit) (Touched-refl limit) w.tasks)

-- A whole sweep, whichever of its calls fail, with distinct task ids and a positive limit: each row of tasks stays as it is, or it was assigned or in progress, and then it has one more failure and no assignee, and is pending if its failures stay below the limit, expired if they reach it. And if no pending task has an assignee, and every task that has not expired has failed less often than the limit and every other at most that often, then the same holds after the sweep.
pub reclaim_expired_leases-IsSound :
    (limit now : ℕ) (calls : SweepCalls) (w : World)
    → 0 < limit
    → Keyed w.tasks
    → All (IsSound limit) w.tasks
    → let w' = reclaim_expired_leases (pos limit) now calls w in
      Pairs (Touched limit) w.tasks w'.tasks × All (IsSound limit) w'.tasks
reclaim_expired_leases-IsSound limit now calls w positive keyed sound =
    let w' = reclaim_expired_leases (pos limit) now calls w in
    let step : Pairs (Touched limit) w.tasks w'.tasks =
      reclaim_expired_leases-Touched limit now calls positive w keyed in
    (
      step,
      Pairs-All (Touched limit) (IsSound limit) (IsSound limit) (Touched-IsSound limit) w.tasks
          w'.tasks step sound,
    )
