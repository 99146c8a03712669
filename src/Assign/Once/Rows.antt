-- ===== src/Assign/Once/Rows.antt =====
-- What the steps of an assignment do to the rows that a claim could take.
use saucepan.Common.{
  ℕ, String, ◌≡◌, ◌≢◌, refl, ap, ◌∙◌, inl, inr, true, false, ◌||◌, none, List, [], ◌∷◌, arith, ◌==◌,
  nat_eq, string_eq, Bool-cases, any,
}
use saucepan.Common.Int.{ℤ}
use saucepan.Assign.Store.{TaskRow, World, update_where, count_where, TaskStatus}
use saucepan.Assign.Claim.{
  is_claimable, is_clearable, persist_task_assignment, insert_cohort_assignment,
  clear_task_assignment, release_cohort_assignment, is_key,
}
use saucepan.Assign.Claim.Exclusive.{claimed_none}
use saucepan.Assign.Once.{
  Calls, RedisOp, node_busy, queued_to_inflight, inflight_to_queued, apply_op, apply_ops, flush,
}

-- No row that a claim of the task could take.
abbrev pub Unclaimable : ℕ → World → Type 0
Unclaimable id w = count_where (is_claimable id) w.tasks ≡ 0

pub same_tasks : (id : ℕ) (w w' : World) → w'.tasks ≡ w.tasks → Unclaimable id w → Unclaimable id w'
same_tasks id w w' e u = ap (count_where (is_claimable id)) e ∙ u

apply_op-tasks : (op : RedisOp) (w : World) → (apply_op op w).tasks ≡ w.tasks
unfolding apply_op
apply_op-tasks (node_busy node t priority) w = refl
apply_op-tasks (queued_to_inflight t priority) w = refl
apply_op-tasks (inflight_to_queued t priority) w = refl

apply_ops-tasks : (ops : List RedisOp) (w : World) → (apply_ops ops w).tasks ≡ w.tasks
unfolding apply_ops
apply_ops-tasks [] w = refl
apply_ops-tasks (op ∷ ops) w = apply_ops-tasks ops (apply_op op w) ∙ apply_op-tasks op w

pub flush-tasks :
    (calls : Calls) (ops : List RedisOp) (w : World) → (flush calls ops w).tasks ≡ w.tasks
unfolding flush
flush-tasks calls ops w = elim (Bool-cases calls.flush_ok) [
  | inl up ↦ rw up (apply_ops-tasks ops w)
  | inr down ↦ rw down refl
]

pub insert_cohort-tasks :
    (ttl : ℤ) (now id : ℕ) (node : String) (w : World)
    → (insert_cohort_assignment ttl now id node w).tasks ≡ w.tasks
unfolding insert_cohort_assignment
insert_cohort-tasks ttl now id node w = elim (Bool-cases (node == "" || id == 0)) [
  | inl bad ↦ rw bad refl
  | inr good ↦ elim (Bool-cases (any (is_key id node) w.assignments)) [
    | inl there ↦ rw (good, there) refl
    | inr new ↦ rw (good, new) refl
  ]
]

pub release_cohort-tasks :
    (id : ℕ) (node : String) (w : World) → (release_cohort_assignment id node w).tasks ≡ w.tasks
unfolding release_cohort_assignment
release_cohort-tasks id node w = elim (Bool-cases (id == 0)) [
  | inl bad ↦ rw bad refl
  | inr good ↦ rw good refl
]

clear_rows :
    (id prev : ℕ) (node : String) (ts : List TaskRow)
    → prev ≢ id
    → count_where (is_claimable id) (
        update_where
          (is_clearable prev node)
          (λ t. record t { assigned_telescope_id = none; status = TaskStatus.pending })
          ts)
      ≡ count_where (is_claimable id) ts
clear_rows id prev node [] other = refl
clear_rows id prev node (t ∷ ts) other = elim (Bool-cases (is_clearable prev node t)) [
  | inr miss ↦ rw miss (ground (arith, clear_rows id prev node ts other))
  | inl hit ↦ rw hit (ground (arith, clear_rows id prev node ts other))
]

pub clear-Unclaimable :
    (id prev : ℕ) (node : String) (w : World)
    → prev ≢ id
    → Unclaimable id w
    → Unclaimable id (clear_task_assignment prev node w)
unfolding clear_task_assignment
clear-Unclaimable id prev node w other u = elim (Bool-cases (prev == 0)) [
  | inl bad ↦ rw bad u
  | inr good ↦ rw good (clear_rows id prev node w.tasks other ∙ u)
]

pub persist-Unclaimable :
    (ttl : ℤ) (now id : ℕ) (node : String) (w : World)
    → (persist_task_assignment ttl now id node w).1 ≡ true
    → Unclaimable id (persist_task_assignment ttl now id node w).0
unfolding persist_task_assignment
persist-Unclaimable ttl now id node w ok = elim (Bool-cases (node == "" || id == 0)) [
  | inl bad ↦ absurd (ground arith)
  | inr good ↦ elim (Bool-cases (count_where (is_claimable id) w.tasks == 0)) [
    | inl gone ↦ absurd (ground arith)
    | inr there ↦ rw (good, there) (claimed_none id node now w.tasks)
  ]
]

pub persist_blocked :
    (ttl : ℤ) (now id : ℕ) (node : String) (w : World)
    → Unclaimable id w
    → persist_task_assignment ttl now id node w ≡ (w, false)
unfolding persist_task_assignment
persist_blocked ttl now id node w u = elim (Bool-cases (node == "" || id == 0)) [
  | inl bad ↦ rw bad refl
  | inr good ↦ rw (good, u) refl
]
