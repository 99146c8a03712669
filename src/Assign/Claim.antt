-- ===== src/Assign/Claim.antt =====
-- cmd/orchestrator/orchestrator_assign.go: the statements that claim and release assignments, and
-- cmd/collector/lease_renew.go: renewTaskLease. Each stands for one committed transaction.
pub mod Exclusive
pub mod Strands
pub mod Upload
use saucepan.Common.{
  ℕ, ◌+◌, String, Bool, true, false, ◌&&◌, ◌||◌, Option, none, some, List, [], ◌∷◌, ◌++◌, ◌==◌,
  nat_eq, string_eq, if◌then◌else◌, any,
}
use saucepan.Common.Int.{ℤ, pos, pos_part, leb_ℤ}
use saucepan.Assign.Store.{
  TaskStatus, AssignmentStatus, Role, TaskRow, AssignmentRow, World, is_live, is_running,
  is_pending, update_where, count_where,
}

-- 15 * time.Minute
abbrev pub default_ttl : ℕ
default_ttl = 900000000000

unfoldable pub lease_expiry : ℤ → ℕ → ℕ
lease_expiry ttl now = if leb_ℤ ttl (pos 0) then now + default_ttl else now + pos_part ttl

abbrev pub is_key : ℕ → String → AssignmentRow → Bool
is_key task_id telescope_id r = r.task_id == task_id && r.telescope_id == telescope_id

abbrev is_none : Option String → Bool
is_none none = true
is_none (some _) = false

-- WHERE id = $3 AND status = 'pending' AND assigned_telescope_id IS NULL
abbrev pub is_claimable : ℕ → TaskRow → Bool
is_claimable task_id t = t.id == task_id && (is_pending t.status && is_none t.assigned_telescope_id)

abbrev pub claim_row : String → ℕ → TaskRow → TaskRow
claim_row telescope_id now t = record t {
  assigned_telescope_id = some telescope_id;
  status = TaskStatus.assigned;
  last_assignment_attempt_at = now;
}

abbrev pub assigned_row : ℕ → String → Role → ℕ → AssignmentRow
assigned_row task_id telescope_id role lease = record {
  task_id = task_id;
  telescope_id = telescope_id;
  role = role;
  status = AssignmentStatus.assigned;
  lease_expires_at = lease;
}

-- INSERT ... ON CONFLICT (task_id, telescope_id) DO UPDATE
unfoldable pub upsert_primary : ℕ → String → ℕ → List AssignmentRow → List AssignmentRow
upsert_primary task_id telescope_id lease rows =
    if any (is_key task_id telescope_id) rows
    then update_where (is_key task_id telescope_id)
        (λ r. record r {
          role = Role.primary;
          status = AssignmentStatus.assigned;
          lease_expires_at = lease;
        })
        rows
    else rows ++ assigned_row task_id telescope_id Role.primary lease ∷ []

unfoldable pub persist_task_assignment : ℤ → ℕ → ℕ → String → World → World × Bool
unfolding lease_expiry upsert_primary
persist_task_assignment ttl now task_id telescope_id w =
    if telescope_id == "" || task_id == 0
    then (w, false)
    else if count_where (is_claimable task_id) w.tasks == 0
    then (w, false)
    else (
      record w {
        tasks = update_where (is_claimable task_id) (claim_row telescope_id now) w.tasks;
        assignments = upsert_primary task_id telescope_id (lease_expiry ttl now) w.assignments;
      },
      true,
    )

-- INSERT ... ON CONFLICT DO NOTHING
unfoldable pub insert_cohort_assignment : ℤ → ℕ → ℕ → String → World → World
unfolding lease_expiry
insert_cohort_assignment ttl now task_id telescope_id w =
    if telescope_id == "" || task_id == 0
    then w
    else if any (is_key task_id telescope_id) w.assignments
    then w
    else record w {
      assignments =
          w.assignments
          ++ assigned_row task_id telescope_id Role.cohort (lease_expiry ttl now) ∷ [];
    }

abbrev pub held_by : String → Option String → Bool
held_by telescope_id none = true
held_by telescope_id (some holder) = holder == telescope_id

abbrev pub is_clearable : ℕ → String → TaskRow → Bool
is_clearable task_id telescope_id t =
    t.id == task_id && (held_by telescope_id t.assigned_telescope_id && is_running t.status)

abbrev pub release_row : AssignmentRow → AssignmentRow
release_row r = record r { status = AssignmentStatus.released }

-- Two statements outside of a transaction, as one step: that only the second fails, or that another
-- path comes between them, is left out.
unfoldable pub clear_task_assignment : ℕ → String → World → World
clear_task_assignment task_id telescope_id w = if task_id == 0 then w else record w {
  tasks =
      update_where (is_clearable task_id telescope_id)
        (λ t. record t { assigned_telescope_id = none; status = TaskStatus.pending }) w.tasks;
  assignments =
      update_where (λ r. is_key task_id telescope_id r && is_live r.status) release_row
        w.assignments;
}

abbrev is_cohort : Role → Bool
is_cohort Role.cohort = true
is_cohort Role.primary = false

unfoldable pub release_cohort_assignment : ℕ → String → World → World
release_cohort_assignment task_id telescope_id w = if task_id == 0 then w else record w {
  assignments =
      update_where (λ r. is_key task_id telescope_id r && (is_cohort r.role && is_live r.status))
        release_row w.assignments;
}

-- `ttl` is positive: leaseRenewTTL falls back to 15 minutes.
unfoldable pub renew_task_lease : ℕ → ℕ → ℕ → String → World → World
renew_task_lease ttl now task_id node w = record w {
  assignments =
      update_where (λ r. is_key task_id node r && is_live r.status)
        (λ r. record r { lease_expires_at = now + ttl }) w.assignments;
}
