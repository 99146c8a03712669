-- ===== src/Assign/Claim/Upload.antt =====
-- cmd/apiserver/upload_assign.go: who may upload for a task, which rests on the assignment rows.
use saucepan.Common.{
  ℕ, ◌<◌, String, ◌≡◌, ◌≢◌, Bool, true, false, ◌&&◌, not, Option, none, some, List, [], ◌∷◌, ◌++◌,
  arith, ◌==◌, nat_eq, string_eq, if◌then◌else◌, any, eq_iff, eq_refl,
}
use saucepan.Common.Int.{ℤ}
use saucepan.Assign.Store.{TaskStatus, Role, TaskRow, AssignmentRow, World, is_live, find_where}
use saucepan.Assign.Reclaim.{has_id}
use saucepan.Assign.Claim.{is_key, insert_cohort_assignment, lease_expiry, assigned_row}

pub data UploadCheck : Type 0 where
  ok telescope_required task_not_found task_terminal not_assigned : UploadCheck

abbrev is_terminal : TaskStatus → Bool
is_terminal TaskStatus.completed = true
is_terminal TaskStatus.cancelled = true
is_terminal TaskStatus.failed = true
is_terminal TaskStatus.expired = true
is_terminal _ = false

-- The two EXISTS columns of lookupTaskAssignmentAuth.
unfoldable pub authorized : String → ℕ → List AssignmentRow → Bool
authorized telescope_id task_id = any (λ r. is_key task_id telescope_id r && is_live r.status)

unfoldable pub join_has_rows : ℕ → List AssignmentRow → Bool
join_has_rows task_id = any (λ r. r.task_id == task_id)

-- The legacy mirror; identifiers carry no blanks, so TrimSpace does nothing to them.
abbrev holds : String → Option String → Bool
holds telescope_id none = false
holds telescope_id (some holder) = not (holder == "") && holder == telescope_id

unfoldable pub validate_upload_assignment : String → ℕ → World → UploadCheck
unfolding authorized join_has_rows
validate_upload_assignment telescope_id task_id w =
    if telescope_id == ""
    then UploadCheck.telescope_required
    else if task_id == 0
    then UploadCheck.task_not_found
    else elim (find_where (has_id task_id) w.tasks) [
      | none ↦ UploadCheck.task_not_found
      | some row ↦
          if is_terminal row.status
          then UploadCheck.task_terminal
          else if authorized telescope_id task_id w.assignments
          then UploadCheck.ok
          else if join_has_rows task_id w.assignments
          then UploadCheck.not_assigned
          else if holds telescope_id row.assigned_telescope_id
          then UploadCheck.ok
          else UploadCheck.not_assigned
    ]

key_has_rows :
    (task_id : ℕ) (node : String) (rows : List AssignmentRow)
    → any (is_key task_id node) rows ≡ true
    → join_has_rows task_id rows ≡ true
unfolding join_has_rows
key_has_rows task_id node [] h = cc
key_has_rows task_id node (r ∷ rows) h = ground (arith, key_has_rows task_id node rows)

insert_cohort_again :
    (ttl : ℤ) (now task_id : ℕ) (node : String) (w : World)
    → any (is_key task_id node) w.assignments ≡ true
    → insert_cohort_assignment ttl now task_id node w ≡ w
unfolding insert_cohort_assignment
insert_cohort_again ttl now task_id node w there = ground (arith, there)

refused_of_dead_row :
    (task_id : ℕ) (node : String) (w : World)
    → join_has_rows task_id w.assignments ≡ true
    → authorized node task_id w.assignments ≡ false
    → validate_upload_assignment node task_id w ≢ UploadCheck.ok
unfolding validate_upload_assignment
refused_of_dead_row task_id node w rows dead e = ground arith

-- A telescope whose row for the task is left from an earlier lease, expired or released, gets no upload access from being recorded as a cohort member of the same task again: the insert does nothing on the conflict, and the check still refuses it, whatever the state of the task.
pub cohort_rejoin_refused :
    (ttl : ℤ) (now task_id : ℕ) (node : String) (w : World)
    → any (is_key task_id node) w.assignments ≡ true
    → authorized node task_id w.assignments ≡ false
    → let w' = insert_cohort_assignment ttl now task_id node w in
      (w' ≡ w) × (validate_upload_assignment node task_id w' ≢ UploadCheck.ok)
cohort_rejoin_refused ttl now task_id node w there dead =
    let same = insert_cohort_again ttl now task_id node w there in
    (
      same,
      rw same
          (refused_of_dead_row task_id node w (key_has_rows task_id node w.assignments there) dead),
    )

authorized-append :
    (task_id lease : ℕ) (node : String) (rows : List AssignmentRow)
    → authorized node task_id (rows ++ assigned_row task_id node Role.cohort lease ∷ []) ≡ true
unfolding authorized
authorized-append task_id lease node [] = ground (arith, eq_refl node)
authorized-append task_id lease node (r ∷ rows) =
    ground (arith, authorized-append task_id lease node rows)

insert_cohort_new :
    (ttl : ℤ) (now task_id : ℕ) (node : String) (w : World)
    → node ≢ ""
    → 0 < task_id
    → any (is_key task_id node) w.assignments ≡ false
    → insert_cohort_assignment ttl now task_id node w ≡ record w {
      assignments =
          w.assignments ++ assigned_row task_id node Role.cohort (lease_expiry ttl now) ∷ [];
    }
unfolding insert_cohort_assignment
insert_cohort_new ttl now task_id node w named positive absent =
    ground (arith, eq_iff node "", absent)

accepted_of_live_row :
    (task_id : ℕ) (node : String) (w : World) (t : TaskRow)
    → node ≢ ""
    → 0 < task_id
    → find_where (has_id task_id) w.tasks ≡ some t
    → is_terminal t.status ≡ false
    → authorized node task_id w.assignments ≡ true
    → validate_upload_assignment node task_id w ≡ UploadCheck.ok
unfolding validate_upload_assignment
accepted_of_live_row task_id node w t named positive found open_task live =
    ground (arith, eq_iff node "", found, open_task)

-- A telescope that was not on the task before, recorded as a cohort member with valid arguments, may upload for it if the task is there and not completed, cancelled, failed or expired.
pub cohort_join_authorized :
    (ttl : ℤ) (now task_id : ℕ) (node : String) (w : World) (t : TaskRow)
    → node ≢ ""
    → 0 < task_id
    → any (is_key task_id node) w.assignments ≡ false
    → find_where (has_id task_id) w.tasks ≡ some t
    → is_terminal t.status ≡ false
    → validate_upload_assignment node task_id (insert_cohort_assignment ttl now task_id node w)
      ≡ UploadCheck.ok
cohort_join_authorized ttl now task_id node w t named positive absent found open_task =
    rw (insert_cohort_new ttl now task_id node w named positive absent) (
      accepted_of_live_row task_id node _ t named positive found open_task
        (authorized-append task_id (lease_expiry ttl now) node w.assignments))
