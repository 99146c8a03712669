-- ===== src/Assign/Claim/Exclusive.antt =====
-- A claim of a task is exclusive, and gives the task an active assignee.
use saucepan.Common.{
  ℕ, ◌≤◌, ◌<◌, String, ◌≡◌, refl, inl, inr, true, false, ◌&&◌, ◌||◌, List, [], ◌∷◌, ◌++◌, arith,
  ◌==◌, nat_eq, string_eq, All, Bool-cases, any, not,
}
use saucepan.Common.Int.{ℤ}
use saucepan.Assign.Store.{
  AssignmentStatus, Role, TaskRow, AssignmentRow, World, update_where, count_where,
}
use saucepan.Assign.Reclaim.{is_active_on}
use saucepan.Assign.Reclaim.Rows.{Manned}
use saucepan.Assign.Claim.{
  is_key, is_claimable, claim_row, assigned_row, lease_expiry, upsert_primary,
  persist_task_assignment,
}

pub claimed_none :
    (id : ℕ) (node : String) (now : ℕ) (ts : List TaskRow)
    → count_where (is_claimable id) (update_where (is_claimable id) (claim_row node now) ts) ≡ 0
claimed_none id node now [] = refl
claimed_none id node now (t ∷ ts) = elim (Bool-cases (is_claimable id t)) [
  | inl hit ↦ rw hit (ground (arith, claimed_none id node now ts))
  | inr miss ↦ rw (miss, miss) (claimed_none id node now ts)
]

-- Once a claim of a task has succeeded, every later claim of it, by any node at any time, fails and changes nothing, as long as nothing else writes in between: a task is never assigned by two paths.
pub persist_task_assignment_exclusive :
    (ttl ttl' : ℤ) (now now' id : ℕ) (node node' : String) (w : World)
    → (persist_task_assignment ttl now id node w).1 ≡ true
    → let w' = (persist_task_assignment ttl now id node w).0 in
      persist_task_assignment ttl' now' id node' w' ≡ (w', false)
unfolding persist_task_assignment
persist_task_assignment_exclusive ttl ttl' now now' id node node' w ok =
    elim (Bool-cases (node == "" || id == 0)) [
      | inl bad ↦ absurd (ground arith)
      | inr good ↦ elim (Bool-cases (count_where (is_claimable id) w.tasks == 0)) [
        | inl gone ↦ absurd (ground arith)
        | inr there ↦ rw (good, there, claimed_none id node now w.tasks) (ground arith)
      ]
    ]

-- A claim succeeds exactly if the arguments are valid and a pending row of the task with no assignee is there; a claim that does not succeed changes nothing.
pub persist_task_assignment_iff :
    (ttl : ℤ) (now id : ℕ) (node : String) (w : World)
    → ((persist_task_assignment ttl now id node w).1
        ≡ (not (node == "") && (not (id == 0) && any (is_claimable id) w.tasks)))
      × ((persist_task_assignment ttl now id node w).1 ≡ false
          → (persist_task_assignment ttl now id node w).0 ≡ w)
unfolding persist_task_assignment
persist_task_assignment_iff ttl now id node w =
    (ground (arith, any_count w.tasks), λ e. ground arith)
  where
    any_count :
        (ts : List TaskRow) → any (is_claimable id) ts ≡ not (count_where (is_claimable id) ts == 0)
    any_count [] = refl
    any_count (t ∷ ts) = ground (arith, any_count ts)

count-append :
    (id : ℕ) (rows : List AssignmentRow) (r : AssignmentRow)
    → count_where (is_active_on id) rows ≤ count_where (is_active_on id) (rows ++ r ∷ [])
count-append id [] r = omega arith
count-append id (x ∷ rows) r = ground (arith, count-append id rows r)

-- The row that a conflict brings back.
abbrev revive : ℕ → AssignmentRow → AssignmentRow
revive lease r = record r {
  role = Role.primary;
  status = AssignmentStatus.assigned;
  lease_expires_at = lease;
}

count-revive :
    (id task_id lease : ℕ) (node : String) (rows : List AssignmentRow)
    → count_where (is_active_on id) rows
      ≤ count_where (is_active_on id) (update_where (is_key task_id node) (revive lease) rows)
count-revive id task_id lease node [] = omega arith
count-revive id task_id lease node (r ∷ rows) =
    ground (arith, count-revive id task_id lease node rows)

count-upsert :
    (id task_id lease : ℕ) (node : String) (rows : List AssignmentRow)
    → count_where (is_active_on id) rows
      ≤ count_where (is_active_on id) (upsert_primary task_id node lease rows)
unfolding upsert_primary
count-upsert id task_id lease node rows = elim (Bool-cases (any (is_key task_id node) rows)) [
  | inl hit ↦ rw hit (count-revive id task_id lease node rows)
  | inr miss ↦ rw miss (count-append id rows (assigned_row task_id node Role.primary lease))
]

appended_active :
    (id lease : ℕ) (node : String) (rows : List AssignmentRow)
    → 0 < count_where (is_active_on id) (rows ++ assigned_row id node Role.primary lease ∷ [])
appended_active id lease node [] = ground arith
appended_active id lease node (r ∷ rows) = ground (arith, appended_active id lease node rows)

revived_active :
    (id lease : ℕ) (node : String) (rows : List AssignmentRow)
    → any (is_key id node) rows ≡ true
    → 0 < count_where (is_active_on id) (update_where (is_key id node) (revive lease) rows)
revived_active id lease node [] h = cc
revived_active id lease node (r ∷ rows) h = ground (arith, revived_active id lease node rows)

upserted_active :
    (id lease : ℕ) (node : String) (rows : List AssignmentRow)
    → 0 < count_where (is_active_on id) (upsert_primary id node lease rows)
unfolding upsert_primary
upserted_active id lease node rows = elim (Bool-cases (any (is_key id node) rows)) [
  | inl hit ↦ rw hit (revived_active id lease node rows hit)
  | inr miss ↦ rw miss (appended_active id lease node rows)
]

claim-Manned :
    (id lease now : ℕ) (node : String) (rows : List AssignmentRow) (ts : List TaskRow)
    → All (Manned rows) ts
    → All
        (Manned (upsert_primary id node lease rows))
        (update_where (is_claimable id) (claim_row node now) ts)
claim-Manned id lease now node rows [] h = tt
claim-Manned id lease now node rows (t ∷ ts) h = elim (Bool-cases (is_claimable id t)) [
  | inl hit ↦
      let same : t.id ≡ id = ground arith in
      rw hit (
        λ run. rw same (upserted_active id lease node rows),
        claim-Manned id lease now node rows ts h.1,
      )
  | inr miss ↦ rw miss (
    λ run. omega (arith, h.0 run, count-upsert t.id id lease node rows),
    claim-Manned id lease now node rows ts h.1,
  )
]

-- A claim, successful or not, keeps every running task manned: if each task that is assigned or in progress has an active assignee before it, then so does each after it.
pub persist_task_assignment-Manned :
    (ttl : ℤ) (now id : ℕ) (node : String) (w : World)
    → All (Manned w.assignments) w.tasks
    → let w' = (persist_task_assignment ttl now id node w).0 in All (Manned w'.assignments) w'.tasks
unfolding persist_task_assignment
persist_task_assignment-Manned ttl now id node w h = elim (Bool-cases (node == "" || id == 0)) [
  | inl bad ↦ rw bad h
  | inr good ↦ elim (Bool-cases (count_where (is_claimable id) w.tasks == 0)) [
    | inl gone ↦ rw (good, gone) h
    | inr there ↦
        rw (good, there) (claim-Manned id (lease_expiry ttl now) now node w.assignments w.tasks h)
  ]
]
