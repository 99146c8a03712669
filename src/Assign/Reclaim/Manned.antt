-- ===== src/Assign/Reclaim/Manned.antt =====
-- cmd/orchestrator/orchestrator_reclaim.go: the assignees of running tasks through a sweep.
use saucepan.Common.{
  ℕ, suc, ◌<◌, String, ◌≡◌, ◌≢◌, refl, ap, inl, inr, Bool, true, false, ◌&&◌, not, some, List, [],
  ◌∷◌, arith, ◌==◌, nat_eq, string_eq, All, Pairs, Pairs-All, Option-cases, Bool-cases, subst,
  filter,
}
use saucepan.Common.Int.{pos}
use saucepan.Assign.Lease.{ReclaimAction}
use saucepan.Assign.Store.{TaskRow, AssignmentRow, World, is_running, count_where, find_where}
use saucepan.Assign.Reclaim.Keeps.{
  Touched, Keyed-Pairs, reclaim_logged-Touched, reclaim_expired_leases-Touched,
}
use saucepan.Assign.Reclaim.Update.{
  Keyed, update_self, found_id, update-Pairs, Decides, row_action-Decides,
}
use saucepan.Assign.Reclaim.Rows.{HasTask, Manned, expired_rows, reclaim_one-assignments}
use saucepan.Assign.Reclaim.Covered.{reached}
use saucepan.Assign.Reclaim.Sweep.{
  reclaim_task-tasks, reclaim_logged-HasTask, either, reclaim_expired_leases-none_lapsed,
}
use saucepan.Assign.Reclaim.{
  SweepCalls, reclaim_logged, is_assignee, is_active_on, has_id, apply_action, row_failures,
  reclaim_one, is_lapsed, stale, reclaim_all, reclaim_expired_leases,
}

-- The rows of other tasks are not touched.
count_other :
    (i id : ℕ) (node : String) (rows : List AssignmentRow)
    → i ≢ id
    → count_where (is_active_on i) (expired_rows id node rows) ≡ count_where (is_active_on i) rows
count_other i id node [] h = refl
count_other i id node (r ∷ rs) h = ground (arith, count_other i id node rs h)

abbrev Carries : List AssignmentRow → List AssignmentRow → TaskRow → TaskRow → Type 0
Carries rows rows' t t' = Manned rows t → Manned rows' t'

apply-Carries :
    (limit now id : ℕ) (t : TaskRow) (ts : List TaskRow) (rows rows' : List AssignmentRow)
    (act : ReclaimAction)
    → ((u : TaskRow) → u.id ≢ id → Carries rows rows' u u)
    → t.id ≡ id
    → Decides limit t (count_where (is_active_on id) rows') act
    → find_where (has_id id) ts ≡ some t
    → Keyed ts
    → Pairs (Carries rows rows') ts (apply_action act id (row_failures t) now ts)
unfolding apply_action row_failures
apply-Carries limit now id t ts rows rows' act other same (inl (e, why)) found keyed =
    let kept : Carries rows rows' t t = λ m run. ground (arith, why) in
    rw e (
      subst (Pairs (Carries rows rows') ts) (update_self id ts)
        (update-Pairs (Carries rows rows') id other (λ u. u) t ts found keyed kept))
apply-Carries limit now id t ts rows rows' act other same (inr (run, _, inl (e, _))) found keyed =
    rw e (update-Pairs (Carries rows rows') id other _ t ts found keyed (λ m still. absurd (cc)))
apply-Carries limit now id t ts rows rows' act other same (inr (run, _, inr (e, _))) found keyed =
    rw e (update-Pairs (Carries rows rows') id other _ t ts found keyed (λ m still. absurd (cc)))

not_both : (b c : Bool) → (b ≡ true → c ≡ false) → c ≡ true → b ≡ false
not_both true c h k = absurd (cc (h refl))
not_both false c h k = refl

module _ (limit now : ℕ) (calls : SweepCalls) (positive : 0 < limit) where
  reclaim_one-Manned :
      (w : World) (id : ℕ) (node : String)
      → Keyed w.tasks
      → All (HasTask w.tasks) w.assignments
      → All (Manned w.assignments) w.tasks
      → let w' = reclaim_one (pos limit) now w (id, node) in All (Manned w'.assignments) w'.tasks
  unfolding reclaim_one
  reclaim_one-Manned w id node keyed fk manned =
      elim (Bool-cases (count_where (is_assignee id node) w.assignments == 0)) [
        | inl no_row ↦ rw no_row manned
        | inr some_row ↦ elim (Option-cases (find_where (has_id id) w.tasks)) [
          | inl missing ↦ rw (some_row, missing) manned
          | inr (t, found) ↦
              rw
                (
                  reclaim_one-assignments (pos limit) now w id node fk,
                  some_row,
                  found,
                  reclaim_task-tasks (pos limit) now id node w rows' t,
                )
                (Pairs-All (Carries w.assignments rows') (Manned w.assignments) (Manned rows')
                  (λ u v step m. step m) w.tasks _
                  (apply-Carries limit now id t w.tasks w.assignments rows' _
                    (λ u differs m run. rw (count_other u.id id node w.assignments differs) (m run))
                    (found_id id t w.tasks found) (row_action-Decides limit _ t positive) found
                    keyed)
                  manned)
        ]
      ]
    where
      rows' : List AssignmentRow
      rows' = expired_rows id node w.assignments

  reclaim_logged-Manned :
      (w : World) (e : ℕ × String)
      → Keyed w.tasks
      → All (HasTask w.tasks) w.assignments
      → All (Manned w.assignments) w.tasks
      → let w' = reclaim_logged (pos limit) now calls w e in All (Manned w'.assignments) w'.tasks
  unfolding reclaim_logged
  reclaim_logged-Manned w (id, node) keyed fk manned =
      either (λ x. All (Manned x.assignments) x.tasks) (calls.commit_ok (id, node)) _ w
        (λ done. reclaim_one-Manned w id node keyed fk manned) (λ failed. manned)

  reclaim_all-Manned :
      (es : List (ℕ × String)) (w : World)
      → Keyed w.tasks
      → All (HasTask w.tasks) w.assignments
      → All (Manned w.assignments) w.tasks
      → let w' = reclaim_all (pos limit) now calls w es in All (Manned w'.assignments) w'.tasks
  unfolding reclaim_all
  reclaim_all-Manned [] w keyed fk manned = manned
  reclaim_all-Manned (e ∷ es) w keyed fk manned =
      let w' = reclaim_logged (pos limit) now calls w e in
      reclaim_all-Manned es w'
        (Keyed-Pairs limit w.tasks w'.tasks
          (reclaim_logged-Touched limit now calls w e positive keyed) keyed)
        (reclaim_logged-HasTask (pos limit) now calls w e fk)
        (reclaim_logged-Manned w e keyed fk manned)

  swept-Manned :
      (w : World)
      → Keyed w.tasks
      → All (HasTask w.tasks) w.assignments
      → All (Manned w.assignments) w.tasks
      → let w' = reclaim_expired_leases (pos limit) now calls w in
        All (Manned w'.assignments) w'.tasks
  unfolding reclaim_expired_leases
  swept-Manned w keyed fk manned =
      either (λ x. All (Manned x.assignments) x.tasks) calls.query_ok _ w
        (λ read.
          reclaim_all-Manned (filter calls.scan_ok (stale now w.assignments)) w keyed fk manned)
        (λ failed. manned)

-- An active assignment whose lease has not lapsed.
abbrev pub is_healthy : ℕ → ℕ → AssignmentRow → Bool
is_healthy now task_id r = is_active_on task_id r && not (is_lapsed now r)

-- The sweep gets to the pair of a row, if the row is the task's.
abbrev pub IsReached : SweepCalls → ℕ → AssignmentRow → Type 0
IsReached calls task_id r = r.task_id ≡ task_id → reached calls (r.task_id, r.telescope_id) ≡ true

count-is_healthy :
    (calls : SweepCalls) (now id : ℕ) (rows : List AssignmentRow)
    → All (λ r. is_lapsed now r ≡ true → reached calls (r.task_id, r.telescope_id) ≡ false) rows
    → All (IsReached calls id) rows
    → count_where (is_healthy now id) rows ≡ count_where (is_active_on id) rows
count-is_healthy calls now id [] h k = refl
count-is_healthy calls now id (r ∷ rs) h k = elim (Bool-cases (is_active_on id r)) [
  | inl hit ↦
      let fresh : is_lapsed now r ≡ false = not_both (is_lapsed now r) _ h.0 (k.0 (ground arith)) in
      rw (hit, fresh) (ap suc (count-is_healthy calls now id rs h.1 k.1))
  | inr miss ↦ rw miss (count-is_healthy calls now id rs h.1 k.1)
]

-- What a sweep does to a task, with the assignments that it leaves.
abbrev pub Outcome : ℕ → ℕ → SweepCalls → List AssignmentRow → TaskRow → TaskRow → Type 0
Outcome limit now calls rows t u =
    Touched limit t u
    × (is_running u.status ≡ true
        → (0 < count_where (is_active_on u.id) rows)
          × (All (IsReached calls u.id) rows → 0 < count_where (is_healthy now u.id) rows))

Pairs-and :
    (R S : TaskRow → TaskRow → Type 0) (Q : TaskRow → Type 0)
    → ((t u : TaskRow) → R t u → Q u → S t u)
    → (ts us : List TaskRow) → Pairs R ts us
    → All Q us
    → Pairs S ts us
Pairs-and R S Q f [] [] p q = tt
Pairs-and R S Q f [] (u ∷ us) p q = elim p [ ]
Pairs-and R S Q f (t ∷ ts) [] p q = elim p [ ]
Pairs-and R S Q f (t ∷ ts) (u ∷ us) p q = (f t u p.0 q.0, Pairs-and R S Q f ts us p.1 q.1)

-- What a sweep does to each task, and which running tasks it mans. Let the limit be positive, task ids be distinct, every assignment row belong to a task, and each task that is assigned or in progress have an active assignee. Then a sweep, whichever of its calls fail, leaves each task as it is, or it was assigned or in progress and now has one more failure, no assignee, and is pending below the limit, expired at it. A task that is assigned or in progress after the sweep has an active assignee; and if the query, the Scan of each of its rows and their transactions succeed, it has one whose lease has not lapsed.
pub reclaim_expired_leases-Manned :
    (limit now : ℕ) (calls : SweepCalls) (w : World)
    → 0 < limit
    → Keyed w.tasks
    → All (HasTask w.tasks) w.assignments
    → All (Manned w.assignments) w.tasks
    → let w' = reclaim_expired_leases (pos limit) now calls w in
      Pairs (Outcome limit now calls w'.assignments) w.tasks w'.tasks
reclaim_expired_leases-Manned limit now calls w positive keyed fk manned =
    let w' = reclaim_expired_leases (pos limit) now calls w in
    let lost = reclaim_expired_leases-none_lapsed (pos limit) now calls w fk in
    Pairs-and (Touched limit) (Outcome limit now calls w'.assignments) (Manned w'.assignments)
      (λ t u touched m. (
        touched,
        λ run. (
          m run,
          λ all_reached.
              rw (count-is_healthy calls now u.id w'.assignments lost all_reached) (m run),
        ),
      ))
      w.tasks w'.tasks (reclaim_expired_leases-Touched limit now calls positive w keyed)
      (swept-Manned limit now calls positive w keyed fk manned)
