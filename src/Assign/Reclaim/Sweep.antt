-- ===== src/Assign/Reclaim/Sweep.antt =====
-- cmd/orchestrator/orchestrator_reclaim.go: what a sweep does to the rows of assignments.
use saucepan.Common.{
  ℕ, String, ◌≡◌, refl, inl, inr, Bool, true, false, List, [], ◌∷◌, arith, ◌==◌, nat_eq, string_eq,
  All, All-map, Option-cases, Bool-cases, any, ◌∙◌, filter, if◌then◌else◌,
}
use saucepan.Common.Int.{ℤ}
use saucepan.Assign.Lease.{ReclaimAction}
use saucepan.Assign.Store.{
  TaskStatus, TaskRow, AssignmentRow, World, update_where, count_where, find_where,
}
use saucepan.Assign.Reclaim.Effect.{requeue_keys-tasks}
use saucepan.Assign.Reclaim.{
  SweepCalls, reclaim_logged, is_assignee, is_active_on, has_id, expire_row, put_back, apply_action,
  row_action, row_failures, reclaim_task, reclaim_one, is_lapsed, stale, reclaim_all,
  reclaim_expired_leases,
}
use saucepan.Assign.Reclaim.Rows.{HasTask, expired_rows, reclaim_one-assignments}
use saucepan.Assign.Reclaim.Covered.{
  reached, Covered, unreached, Covered-step, Covered-skip, stale-Covered, Covered-unread,
}

any-update :
    (i : ℕ) (p : TaskRow → Bool) (f : TaskRow → TaskRow)
    → ((t : TaskRow) → (f t).id ≡ t.id)
    → (ts : List TaskRow) → any (has_id i) (update_where p f ts) ≡ any (has_id i) ts
any-update i p f same [] = refl
any-update i p f same (t ∷ ts) = elim (Bool-cases (p t)) [
  | inl hit ↦ rw (hit, same t, any-update i p f same ts)
  | inr miss ↦ rw (miss, any-update i p f same ts)
]

any-apply :
    (i : ℕ) (act : ReclaimAction) (id n now : ℕ) (ts : List TaskRow)
    → any (has_id i) (apply_action act id n now ts) ≡ any (has_id i) ts
unfolding apply_action
any-apply i act id n now ts = ground (
  arith,
  any-update i (has_id id) (put_back TaskStatus.pending n now) (λ t. refl) ts,
  any-update i (has_id id) (put_back TaskStatus.expired n now) (λ t. refl) ts,
)

All-update :
    {A : Type 0} (P : A → Type 0) (p : A → Bool) (f : A → A)
    → ((x : A) → P x → P (f x))
    → (xs : List A) → All P xs
    → All P (update_where p f xs)
All-update P p f keep [] h = tt
All-update P p f keep (x ∷ xs) h = elim (Bool-cases (p x)) [
  | inl hit ↦ rw hit (keep x h.0, All-update P p f keep xs h.1)
  | inr miss ↦ rw miss (h.0, All-update P p f keep xs h.1)
]

pub either :
    (P : World → Type 0) (b : Bool) (x y : World)
    → (b ≡ true → P x)
    → (b ≡ false → P y)
    → P (if b then x else y)
either P true x y p q = p refl
either P false x y p q = q refl

module _ (max_failures : ℤ) (now : ℕ) where
  pub reclaim_task-tasks :
      (id : ℕ) (node : String) (w : World) (rows : List AssignmentRow) (t : TaskRow)
      → (reclaim_task max_failures now id node w rows t).tasks
        ≡ apply_action
            (row_action t (count_where (is_active_on id) rows) max_failures)
            id
            (row_failures t)
            now
            w.tasks
  unfolding reclaim_task
  reclaim_task-tasks id node w rows t =
      requeue_keys-tasks (row_action t (count_where (is_active_on id) rows) max_failures) id
        t.priority _

  any-reclaim_one :
      (i : ℕ) (w : World) (id : ℕ) (node : String)
      → any (has_id i) (reclaim_one max_failures now w (id, node)).tasks ≡ any (has_id i) w.tasks
  unfolding reclaim_one
  any-reclaim_one i w id node =
      elim (Bool-cases (count_where (is_assignee id node) w.assignments == 0)) [
        | inl no_row ↦ rw no_row
        | inr some_row ↦ elim (Option-cases (find_where (has_id id) w.tasks)) [
          | inl missing ↦ rw (some_row, missing)
          | inr (t, found) ↦
              rw
                (
                  some_row,
                  found,
                  reclaim_task-tasks id node w (expired_rows id node w.assignments) t,
                )
                (any-apply i _ id (row_failures t) now w.tasks)
        ]
      ]

  pub reclaim_one-HasTask :
      (w : World) (id : ℕ) (node : String)
      → All (HasTask w.tasks) w.assignments
      → let w' = reclaim_one max_failures now w (id, node) in All (HasTask w'.tasks) w'.assignments
  reclaim_one-HasTask w id node fk =
      let w' = reclaim_one max_failures now w (id, node) in
      rw (reclaim_one-assignments max_failures now w id node fk) (
        All-update (HasTask w'.tasks) (is_assignee id node) expire_row (λ r h. h) w.assignments
          (All-map (HasTask w.tasks) (HasTask w'.tasks)
            (λ r h. any-reclaim_one r.task_id w id node ∙ h) w.assignments fk))

module _ (max_failures : ℤ) (now : ℕ) (calls : SweepCalls) where
  pub reclaim_logged-HasTask :
      (w : World) (e : ℕ × String)
      → All (HasTask w.tasks) w.assignments
      → let w' = reclaim_logged max_failures now calls w e in All (HasTask w'.tasks) w'.assignments
  unfolding reclaim_logged
  reclaim_logged-HasTask w (id, node) fk =
      either (λ x. All (HasTask x.tasks) x.assignments) (calls.commit_ok (id, node)) _ w
        (λ done. reclaim_one-HasTask max_failures now w id node fk) (λ failed. fk)

  reclaim_logged-Covered :
      (e : ℕ × String) (es : List (ℕ × String)) (w : World)
      → All (HasTask w.tasks) w.assignments
      → Covered calls now (e ∷ es) w.assignments
      → Covered calls now es (reclaim_logged max_failures now calls w e).assignments
  unfolding reclaim_logged
  reclaim_logged-Covered (id, node) es w fk c =
      either (λ x. Covered calls now es x.assignments) (calls.commit_ok (id, node)) _ w
        (λ done.
          rw (reclaim_one-assignments max_failures now w id node fk)
            (Covered-step calls now id node es w.assignments c))
        (λ failed.
          Covered-skip calls now (id, node) es (unreached calls (id, node) failed) w.assignments c)

  reclaim_all-Covered :
      (es : List (ℕ × String)) (w : World)
      → All (HasTask w.tasks) w.assignments
      → Covered calls now es w.assignments
      → Covered calls now [] (reclaim_all max_failures now calls w es).assignments
  unfolding reclaim_all
  reclaim_all-Covered [] w fk c = c
  reclaim_all-Covered (e ∷ es) w fk c =
      reclaim_all-Covered es (reclaim_logged max_failures now calls w e)
        (reclaim_logged-HasTask w e fk) (reclaim_logged-Covered e es w fk c)

  -- If every assignment row belongs to a row of tasks, each active assignment whose lease has lapsed that a sweep leaves is one that it could not get to: the query failed, or the Scan of its row, or its transaction. So when none of these fails, none is left.
  pub reclaim_expired_leases-none_lapsed :
      (w : World)
      → All (HasTask w.tasks) w.assignments
      → All
          (λ r. is_lapsed now r ≡ true → reached calls (r.task_id, r.telescope_id) ≡ false)
          (reclaim_expired_leases max_failures now calls w).assignments
  unfolding reclaim_expired_leases
  reclaim_expired_leases-none_lapsed w fk =
      either
        (λ x.
          All (λ r. is_lapsed now r ≡ true → reached calls (r.task_id, r.telescope_id) ≡ false)
            x.assignments)
        calls.query_ok _ w
        (λ read. settled _ (
          reclaim_all-Covered (filter calls.scan_ok (stale now w.assignments)) w fk
            (stale-Covered calls now (stale now w.assignments) w.assignments (λ k m. m))))
        (λ failed. settled _ (Covered-unread calls now failed w.assignments))
    where
      settled :
          (rows : List AssignmentRow)
          → Covered calls now [] rows
          → All
              (λ r. is_lapsed now r ≡ true → reached calls (r.task_id, r.telescope_id) ≡ false)
              rows
      settled rows =
          All-map _ _ (λ r h lapsed. elim (h lapsed) [ inl m ↦ elim m [ ] | inr e ↦ e ]) rows
