-- ===== src/Assign/Claim/Strands.antt =====
-- Preempting a cohort member whose primary has lost its lease strands the task.
use saucepan.Common.{
  ℕ, ◌<◌, String, ◌≡◌, ◌≢◌, refl, inl, inr, true, false, ◌&&◌, none, some, List, [], ◌∷◌, arith,
  ◌==◌, nat_eq, string_eq, All, Bool-cases, eq_iff,
}
use saucepan.Assign.Store.{
  TaskStatus, TaskRow, AssignmentRow, World, is_live, is_running, update_where, count_where,
  find_where,
}
use saucepan.Assign.Reclaim.{is_active_on, has_id}
use saucepan.Assign.Claim.{is_key, is_clearable, release_row, clear_task_assignment}

-- Every active row of the task is that of the node.
abbrev OnlyOn : ℕ → String → List AssignmentRow → Type 0
OnlyOn id node = All (λ r. is_active_on id r ≡ true → r.telescope_id ≡ node)

released_none :
    (id : ℕ) (node : String) (rows : List AssignmentRow)
    → OnlyOn id node rows
    → count_where
        (is_active_on id)
        (update_where (λ r. is_key id node r && is_live r.status) release_row rows)
      ≡ 0
released_none id node [] h = refl
released_none id node (r ∷ rs) h =
    ground (arith, released_none id node rs h.1, eq_iff r.telescope_id node)

find_uncleared :
    (id : ℕ) (node : String) (t : TaskRow) (ts : List TaskRow)
    → find_where (has_id id) ts ≡ some t
    → is_clearable id node t ≡ false
    → find_where (has_id id) (
        update_where
          (is_clearable id node)
          (λ u. record u { assigned_telescope_id = none; status = TaskStatus.pending })
          ts)
      ≡ some t
find_uncleared id node t [] found h = found
find_uncleared id node t (u ∷ us) found h = ground (arith, find_uncleared id node t us)

-- A task that is assigned or in progress under another holder, and whose last active assignee is the node, is stranded when the node's part in it is cleared for a preemption: its row keeps its holder and its status, and no active assignment is left on it, so no sweep of leases looks at it again.
pub clear_task_assignment_strands :
    (id : ℕ) (node holder : String) (w : World) (t : TaskRow)
    → 0 < id
    → find_where (has_id id) w.tasks ≡ some t
    → is_running t.status ≡ true
    → t.assigned_telescope_id ≡ some holder
    → holder ≢ node
    → OnlyOn id node w.assignments
    → let w' = clear_task_assignment id node w in
      (find_where (has_id id) w'.tasks ≡ some t)
      × (count_where (is_active_on id) w'.assignments ≡ 0)
unfolding clear_task_assignment
clear_task_assignment_strands id node holder w t positive found run held differs only =
    elim (Bool-cases (id == 0)) [
      | inl bad ↦ absurd (ground arith)
      | inr good ↦
          let kept : is_clearable id node t ≡ false =
            rw held (ground (arith, eq_iff holder node)) in
          rw good
            (find_uncleared id node t w.tasks found kept, released_none id node w.assignments only)
    ]
