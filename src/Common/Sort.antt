-- ===== src/Common/Sort.antt =====
-- sort.Slice and sort.Strings as a stable insertion sort. Where the order is total on what is
-- sorted, or ties are equal, this is the result of any sort; elsewhere it is one of those allowed.
use saucepan.Common.{
  ℕ, ◌+◌, suc, ◌≡◌, refl, Bool, true, false, ◌||◌, List, [], ◌∷◌, arith, Bool-cases, inl, inr,
  if◌then◌else◌, any, All, All-map,
}

module _ {ℓ} {A : Type ℓ} where
  unfoldable pub insert_by : (A → A → Bool) → A → List A → List A
  insert_by less x [] = x ∷ []
  insert_by less x (y ∷ ys) = if less x y then x ∷ y ∷ ys else y ∷ insert_by less x ys

  unfoldable pub insert_all : (A → A → Bool) → List A → List A → List A
  unfolding insert_by
  insert_all less sorted [] = sorted
  insert_all less sorted (x ∷ xs) = insert_all less (insert_by less x sorted) xs

  -- Each element goes behind those that are not greater.
  unfoldable pub sort_by : (A → A → Bool) → List A → List A
  unfolding insert_all
  sort_by less xs = insert_all less [] xs

-- No element is less than one before it, next to it.
abbrev pub Ordered : {A : Type 0} → (A → A → Bool) → List A → Type 0
Ordered less [] = Unit
Ordered less (x ∷ xs) = All (λ y. less y x ≡ false) xs × Ordered less xs

abbrev pub count_if {ℓ} : {A : Type ℓ} → (A → Bool) → List A → ℕ
count_if p [] = 0
count_if p (x ∷ xs) = if p x then suc (count_if p xs) else count_if p xs

module _ {A : Type 0} (less : A → A → Bool) where
  any-insert_by :
      (p : A → Bool) (x : A) (ys : List A) → any p (insert_by less x ys) ≡ (p x || any p ys)
  unfolding insert_by
  any-insert_by p x [] = refl
  any-insert_by p x (y ∷ ys) = ground (arith, any-insert_by p x ys)

  any-insert_all :
      (p : A → Bool) (sorted xs : List A)
      → any p (insert_all less sorted xs) ≡ (any p sorted || any p xs)
  unfolding insert_all
  any-insert_all p sorted [] = ground arith
  any-insert_all p sorted (x ∷ xs) =
      ground (arith, any-insert_all p (insert_by less x sorted) xs, any-insert_by p x sorted)

  pub any-sort_by : (p : A → Bool) (xs : List A) → any p (sort_by less xs) ≡ any p xs
  unfolding sort_by
  any-sort_by p xs = any-insert_all p [] xs

  All-insert_by :
      (P : A → Type 0) (x : A) (ys : List A) → P x → All P ys → All P (insert_by less x ys)
  unfolding insert_by
  All-insert_by P x [] h k = (h, tt)
  All-insert_by P x (y ∷ ys) h k = elim (Bool-cases (less x y)) [
    | inl before ↦ rw before (h, k)
    | inr behind ↦ rw behind (k.0, All-insert_by P x ys h k.1)
  ]

  All-insert_all :
      (P : A → Type 0) (sorted xs : List A)
      → All P sorted
      → All P xs
      → All P (insert_all less sorted xs)
  unfolding insert_all
  All-insert_all P sorted [] h k = h
  All-insert_all P sorted (x ∷ xs) h k =
      All-insert_all P (insert_by less x sorted) xs (All-insert_by P x sorted k.0 h) k.1

  pub All-sort_by : (P : A → Type 0) (xs : List A) → All P xs → All P (sort_by less xs)
  unfolding sort_by
  All-sort_by P xs h = All-insert_all P [] xs tt h

  count-insert_by :
      (p : A → Bool) (x : A) (ys : List A) → count_if p (insert_by less x ys) ≡ count_if p (x ∷ ys)
  unfolding insert_by
  count-insert_by p x [] = refl
  count-insert_by p x (y ∷ ys) = ground (arith, count-insert_by p x ys)

  count-insert_all :
      (p : A → Bool) (sorted xs : List A)
      → count_if p (insert_all less sorted xs) ≡ count_if p sorted + count_if p xs
  unfolding insert_all
  count-insert_all p sorted [] = omega arith
  count-insert_all p sorted (x ∷ xs) =
      ground (arith, count-insert_all p (insert_by less x sorted) xs, count-insert_by p x sorted)

  -- The sorted list holds what the list holds, as often.
  pub count-sort_by : (p : A → Bool) (xs : List A) → count_if p (sort_by less xs) ≡ count_if p xs
  unfolding sort_by
  count-sort_by p xs = ground (arith, count-insert_all p [] xs)

-- For an order that is asymmetric and whose negation is transitive the result is in order.
module _ {A : Type 0} (less : A → A → Bool) (asym : (x y : A) → less x y ≡ true → less y x ≡ false)
    (trans : (x y z : A) → less y x ≡ false → less z y ≡ false → less z x ≡ false) where
  insert_by-Ordered : (x : A) (ys : List A) → Ordered less ys → Ordered less (insert_by less x ys)
  unfolding insert_by
  insert_by-Ordered x [] o = (tt, tt)
  insert_by-Ordered x (y ∷ ys) o = elim (Bool-cases (less x y)) [
    | inl before ↦
        rw before
          ((asym x y before, All-map _ _ (λ z h. trans x y z (asym x y before) h) ys o.0), o)
    | inr behind ↦
        rw behind
          (All-insert_by less (λ z. less z y ≡ false) x ys behind o.0, insert_by-Ordered x ys o.1)
  ]

  insert_all-Ordered :
      (sorted xs : List A) → Ordered less sorted → Ordered less (insert_all less sorted xs)
  unfolding insert_all
  insert_all-Ordered sorted [] o = o
  insert_all-Ordered sorted (x ∷ xs) o =
      insert_all-Ordered (insert_by less x sorted) xs (insert_by-Ordered x sorted o)

  pub sort_by-Ordered : (xs : List A) → Ordered less (sort_by less xs)
  unfolding sort_by
  sort_by-Ordered xs = insert_all-Ordered [] xs tt
