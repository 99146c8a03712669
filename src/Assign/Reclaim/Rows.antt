-- ===== src/Assign/Reclaim/Rows.antt =====
-- SaucepanServer/task-server/cmd/orchestrator/orchestrator_reclaim.go: what one reclaim does to the
-- rows of assignments.
use saucepan.Common.{
  ℕ, suc, ◌<◌, String, ◌≡◌, ◌≢◌, refl, ap, inl, inr, true, some, List, [], ◌∷◌, arith, ◌==◌, nat_eq,
  string_eq, All, Bool-cases, if◌then◌else◌, subst, sym, any,
}
use saucepan.Common.Int.{ℤ}
use saucepan.Assign.Lease.{ReclaimAction}
use saucepan.Assign.Store.{
  TaskRow, AssignmentRow, World, is_running, update_where, count_where, find_where,
}
use saucepan.Assign.Reclaim.{
  is_assignee, is_active_on, has_id, expire_row, row_action, requeue_keys, reclaim_task,
  reclaim_one,
}

-- task_assignments.task_id refers to a row of tasks.
abbrev pub HasTask : List TaskRow → AssignmentRow → Type 0
HasTask ts r = any (has_id r.task_id) ts ≡ true

-- A running task has an active assignee.
abbrev pub Manned : List AssignmentRow → TaskRow → Type 0
Manned rows t = is_running t.status ≡ true → 0 < count_where (is_active_on t.id) rows

abbrev pub expired_rows : ℕ → String → List AssignmentRow → List AssignmentRow
expired_rows id node = update_where (is_assignee id node) expire_row

pub count_zero_update :
    (id : ℕ) (node : String) (rows : List AssignmentRow)
    → count_where (is_assignee id node) rows ≡ 0
    → expired_rows id node rows ≡ rows
count_zero_update id node [] h = refl
count_zero_update id node (r ∷ rs) h = elim (Bool-cases (is_assignee id node r)) [
  | inl hit ↦ absurd (
      omega (
        arith,
        subst
            (λ b.
              (if b
                then suc (count_where (is_assignee id node) rs)
                else count_where (is_assignee id node) rs)
              ≡ 0)
            hit h,
      ))
  | inr miss ↦ rw (miss) (ap (λ l. r ∷ l) (count_zero_update id node rs (ground arith)))
]

pub found_of_any :
    (id : ℕ) (ts : List TaskRow)
    → any (has_id id) ts ≡ true
    → (t : TaskRow) × (find_where (has_id id) ts ≡ some t) × (t.id ≡ id)
found_of_any id [] h = absurd (cc)
found_of_any id (t ∷ ts) h = elim (Bool-cases (has_id id t)) [
  | inl hit ↦ (t, rw hit refl, ground arith)
  | inr miss ↦ let (u, e, s) = found_of_any id ts (ground arith) in (u, rw miss e, s)
]

pub count-HasTask :
    (id : ℕ) (node : String) (ts : List TaskRow) (rows : List AssignmentRow)
    → All (HasTask ts) rows
    → count_where (is_assignee id node) rows ≢ 0
    → any (has_id id) ts ≡ true
count-HasTask id node ts [] h some_row = absurd (some_row refl)
count-HasTask id node ts (r ∷ rs) h some_row = elim (Bool-cases (is_assignee id node r)) [
  | inl hit ↦
      let same : r.task_id ≡ id = ground arith in subst (λ i. any (has_id i) ts ≡ true) same h.0
  | inr miss ↦ count-HasTask id node ts rs h.1 (λ e. some_row (rw miss e))
]

pub requeue_keys-assignments :
    (act : ReclaimAction) (id priority : ℕ) (w : World)
    → (requeue_keys act id priority w).assignments ≡ w.assignments
unfolding requeue_keys
requeue_keys-assignments act id priority w = ground arith

module _ (max_failures : ℤ) (now : ℕ) where
  pub reclaim_task-assignments :
      (id : ℕ) (node : String) (w : World) (rows : List AssignmentRow) (t : TaskRow)
      → (reclaim_task max_failures now id node w rows t).assignments ≡ rows
  unfolding reclaim_task
  reclaim_task-assignments id node w rows t =
      requeue_keys-assignments (row_action t (count_where (is_active_on id) rows) max_failures) id
        t.priority _

  -- With the foreign key in place a reclaim always expires the rows of its pair.
  pub reclaim_one-assignments :
      (w : World) (id : ℕ) (node : String)
      → All (HasTask w.tasks) w.assignments
      → (reclaim_one max_failures now w (id, node)).assignments ≡ expired_rows id node w.assignments
  unfolding reclaim_one
  reclaim_one-assignments w id node fk =
      elim (Bool-cases (count_where (is_assignee id node) w.assignments == 0)) [
        | inl no_row ↦ rw no_row (sym (count_zero_update id node w.assignments (ground arith)))
        | inr some_row ↦
            let present : any (has_id id) w.tasks ≡ true =
              count-HasTask id node w.tasks w.assignments fk (λ e. ground arith) in
            let (t, found, _) = found_of_any id w.tasks present in
            rw (some_row, found)
              (reclaim_task-assignments id node w (expired_rows id node w.assignments) t)
      ]
