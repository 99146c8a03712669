-- ===== src/Assign/Store.antt =====
-- The rows and keys that the orchestrator works on: Postgres tasks and task_assignments, Redis
-- node_state hashes and the two task queues (sorted sets, here maps from the member to its score).
use saucepan.Common.{
  ℕ, String, Bool, true, false, Option, none, some, List, [], ◌∷◌, ◌==◌, nat_eq, string_eq,
  if◌then◌else◌, Mapping, suc, filter, not,
}

-- shared/task_status.go
pub data TaskStatus : Type 0 where
  pending assigned in_progress completed expired superseded cancelled failed : TaskStatus

pub data AssignmentStatus : Type 0 where
  assigned in_progress completed expired released : AssignmentStatus

pub data Role : Type 0 where
  primary cohort : Role

pub record TaskRow : Type 0 where
  pub id : ℕ
  pub status : TaskStatus
  pub assigned_telescope_id : Option String
  pub failure_count : ℕ
  pub priority : ℕ
  pub last_assignment_attempt_at : ℕ

pub record AssignmentRow : Type 0 where
  pub task_id : ℕ
  pub telescope_id : String
  pub role : Role
  pub status : AssignmentStatus
  pub lease_expires_at : ℕ  -- 0 is NULL

pub record NodeState : Type 0 where
  pub busy : Bool
  pub current_task_id : Option ℕ
  pub current_task_priority : Option ℕ
  pub idle_since : Option ℕ

pub record World : Type 0 where
  pub tasks : List TaskRow
  pub assignments : List AssignmentRow
  pub nodes : Mapping NodeState
  pub queued : List (ℕ × ℕ)
  pub inflight : List (ℕ × ℕ)

-- status IN ('assigned', 'in_progress')
abbrev pub is_live : AssignmentStatus → Bool
is_live AssignmentStatus.assigned = true
is_live AssignmentStatus.in_progress = true
is_live _ = false

abbrev pub is_running : TaskStatus → Bool
is_running TaskStatus.assigned = true
is_running TaskStatus.in_progress = true
is_running _ = false

abbrev pub is_pending : TaskStatus → Bool
is_pending TaskStatus.pending = true
is_pending _ = false

-- UPDATE ... WHERE, and the count of the rows that a WHERE clause selects.
abbrev pub update_where {ℓ} : {A : Type ℓ} → (A → Bool) → (A → A) → List A → List A
update_where p f [] = []
update_where p f (x ∷ xs) = (if p x then f x else x) ∷ update_where p f xs

abbrev pub count_where {ℓ} : {A : Type ℓ} → (A → Bool) → List A → ℕ
count_where p [] = 0
count_where p (x ∷ xs) = if p x then suc (count_where p xs) else count_where p xs

abbrev pub find_where {ℓ} : {A : Type ℓ} → (A → Bool) → List A → Option A
find_where p [] = none
find_where p (x ∷ xs) = if p x then some x else find_where p xs

-- ZREM and ZADD
abbrev pub zrem : ℕ → List (ℕ × ℕ) → List (ℕ × ℕ)
zrem m = filter (λ e. not (e.0 == m))

abbrev pub zadd : ℕ → ℕ → List (ℕ × ℕ) → List (ℕ × ℕ)
zadd m score q = (m, score) ∷ zrem m q
