-- ===== src/Assign/Reclaim/Update.antt =====
-- cmd/orchestrator/orchestrator_reclaim.go: a row of tasks that is looked up and changed, and the
-- action that a reclaim takes.
use saucepan.Common.{
  ℕ, ◌+◌, ◌≤◌, ◌<◌, ◌≡◌, ◌≢◌, refl, ◌⊎◌, inl, inr, true, false, none, some, List, [], ◌∷◌, arith,
  nat_eq, All, Pairs, string_eq, Bool-cases, subst,
}
use saucepan.Common.Int.{pos}
use saucepan.Assign.Lease.{ReclaimAction, no_action}
use saucepan.Assign.Store.{TaskRow, is_running, update_where, find_where}
use saucepan.Assign.Reclaim.{has_id, row_action}

-- tasks.id is a primary key.
abbrev pub Keyed : List TaskRow → Type 0
Keyed [] = Unit {0}
Keyed (t ∷ ts) = All (λ u. u.id ≢ t.id) ts × Keyed ts

update_absent :
    (id : ℕ) (f : TaskRow → TaskRow) (ts : List TaskRow)
    → All (λ u. u.id ≢ id) ts
    → update_where (has_id id) f ts ≡ ts
update_absent id f [] h = refl
update_absent id f (t ∷ ts) h = ground (arith, update_absent id f ts h.1)

pub Pairs-absent :
    (R : TaskRow → TaskRow → Type 0) (id : ℕ)
    → ((t : TaskRow) → t.id ≢ id → R t t)
    → (ts : List TaskRow) → All (λ u. u.id ≢ id) ts
    → Pairs R ts ts
Pairs-absent R id r [] h = tt
Pairs-absent R id r (t ∷ ts) h = (r t h.0, Pairs-absent R id r ts h.1)

-- Only the row found changes: a relation that holds for it and for every other row holds throughout.
pub update-Pairs :
    (R : TaskRow → TaskRow → Type 0) (id : ℕ)
    → ((t : TaskRow) → t.id ≢ id → R t t)
    → (f : TaskRow → TaskRow) (t : TaskRow) (ts : List TaskRow) → find_where (has_id id) ts ≡ some t
    → Keyed ts
    → R t (f t)
    → Pairs R ts (update_where (has_id id) f ts)
update-Pairs R id r f t [] found k h = tt
update-Pairs R id r f t (u ∷ us) found k h = elim (Bool-cases (has_id id u)) [
  | inl hit ↦
      let e : t ≡ u = ground arith in
      let same : u.id ≡ id = ground arith in
      let absent : All (λ v. v.id ≢ id) us = subst (λ i. All (λ v. v.id ≢ i) us) same k.0 in
      rw hit (
        subst (λ x. R x (f x)) e h,
        rw (update_absent id f us absent) (Pairs-absent R id r us absent),
      )
  | inr miss ↦ rw miss (r u (λ e. ground arith), update-Pairs R id r f t us (ground arith) k.1 h)
]

abbrev pub requeue : ReclaimAction
requeue = record { requeue_task = true; terminal_expire = false }

abbrev pub terminal : ReclaimAction
terminal = record { requeue_task = false; terminal_expire = true }

-- The three actions, and when each is taken.
abbrev pub Decides : ℕ → TaskRow → ℕ → ReclaimAction → Type 0
Decides limit t left act =
    ((act ≡ no_action) × ((is_running t.status ≡ false) ⊎ (0 < left)))
    ⊎ ((is_running t.status ≡ true)
        × (left ≡ 0)
        × (((act ≡ requeue) × (t.failure_count + 1 < limit))
            ⊎ ((act ≡ terminal) × (limit ≤ t.failure_count + 1))))

pub row_action-Decides :
    (limit left : ℕ) (t : TaskRow)
    → 0 < limit
    → Decides limit t left (row_action t left (pos limit))
unfolding row_action
row_action-Decides limit left t positive = ground arith

pub update_self : (id : ℕ) (ts : List TaskRow) → update_where (has_id id) (λ t. t) ts ≡ ts
update_self id [] = refl
update_self id (t ∷ ts) = ground (arith, update_self id ts)

pub found_id :
    (id : ℕ) (t : TaskRow) (ts : List TaskRow) → find_where (has_id id) ts ≡ some t → t.id ≡ id
found_id id t [] e = cc
found_id id t (u ∷ us) e = ground (arith, found_id id t us)

pub missing_All :
    (id : ℕ) (ts : List TaskRow) → find_where (has_id id) ts ≡ none → All (λ u. u.id ≢ id) ts
missing_All id [] e = tt
missing_All id (t ∷ ts) e = elim (Bool-cases (has_id id t)) [
  | inl hit ↦ absurd (ground arith)
  | inr miss ↦ (λ same. ground arith, missing_All id ts (ground arith))
]
