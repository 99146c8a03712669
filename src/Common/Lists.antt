-- ===== src/Common/Lists.antt =====
-- Lists measured by native numbers, Boolean filters, and predicates by recursion.
use Prim.Native.Nat.{ℕ, zero, suc, ◌+◌, ◌-◌, ◌≤◌, min}
use mathlib.Core.Path.{◌≡◌, refl, ap, subst}
use mathlib.Core.Logic.{◌⊎◌, inl, inr}
use mathlib.Core.Bool.{Bool, true, false, ◌&&◌, ◌||◌}
use mathlib.Core.Option.{Option, none, some}
use mathlib.Core.List.{List, [], ◌∷◌, ◌++◌, map}
use native.Mathlib.Omega.{arith}
use saucepan.Common.Tests.{if◌then◌else◌}

module _ {ℓ} {A : Type ℓ} where
  abbrev pub length : List A → ℕ
  length [] = 0
  length (x ∷ xs) = suc (length xs)

  abbrev pub take : ℕ → List A → List A
  take zero xs = []
  take (suc n) [] = []
  take (suc n) (x ∷ xs) = x ∷ take n xs

  abbrev pub drop : ℕ → List A → List A
  drop zero xs = xs
  drop (suc n) [] = []
  drop (suc n) (x ∷ xs) = drop n xs

  abbrev pub filter : (A → Bool) → List A → List A
  filter p [] = []
  filter p (x ∷ xs) = if p x then x ∷ filter p xs else filter p xs

  -- The element at a place, if there is one.
  abbrev pub nth : List A → ℕ → Option A
  nth [] i = none
  nth (x ∷ xs) zero = some x
  nth (x ∷ xs) (suc i) = nth xs i

  abbrev pub remove_at : ℕ → List A → List A
  remove_at i [] = []
  remove_at zero (x ∷ xs) = xs
  remove_at (suc i) (x ∷ xs) = x ∷ remove_at i xs

  abbrev pub any : (A → Bool) → List A → Bool
  any p [] = false
  any p (x ∷ xs) = p x || any p xs

  abbrev pub all : (A → Bool) → List A → Bool
  all p [] = true
  all p (x ∷ xs) = p x && all p xs

  pub length-append : (xs ys : List A) → length (xs ++ ys) ≡ length xs + length ys
  length-append [] ys = omega arith
  length-append (x ∷ xs) ys = omega (arith, length-append xs ys)

  pub length-take : (n : ℕ) (xs : List A) → length (take n xs) ≡ min n (length xs)
  length-take zero xs = omega arith
  length-take (suc n) [] = omega arith
  length-take (suc n) (x ∷ xs) = omega (arith, length-take n xs)

  pub length-drop : (n : ℕ) (xs : List A) → length (drop n xs) ≡ length xs - n
  length-drop zero xs = omega arith
  length-drop (suc n) [] = omega arith
  length-drop (suc n) (x ∷ xs) = omega (arith, length-drop n xs)

  pub take-append-drop : (n : ℕ) (xs : List A) → take n xs ++ drop n xs ≡ xs
  take-append-drop zero xs = refl
  take-append-drop (suc n) [] = refl
  take-append-drop (suc n) (x ∷ xs) = ap (λ r. x ∷ r) (take-append-drop n xs)

  pub length-filter-le : (p : A → Bool) (xs : List A) → length (filter p xs) ≤ length xs
  length-filter-le p [] = omega arith
  length-filter-le p (x ∷ xs) = ground (arith, length-filter-le p xs)

-- A predicate by recursion computes to tuples, which the tactics read and build.
abbrev pub All {ℓ κ} : {A : Type ℓ} → (A → Type κ) → List A → Type κ
All P [] = Unit
All P (x ∷ xs) = P x × All P xs

module _ {ℓ κ} {A : Type ℓ} (P : A → Type κ) where
  pub All-append : (front back : List A) → All P back → All P front → All P (front ++ back)
  All-append [] back b _ = b
  All-append (a ∷ front) back b (here, later) = (here, All-append front back b later)

  pub All-filter : (p : A → Bool) (xs : List A) → All P xs → All P (filter p xs)
  All-filter p [] h = tt
  All-filter p (x ∷ xs) h = ground (arith, All-filter p xs h.1)

  pub All-take : (n : ℕ) (xs : List A) → All P xs → All P (take n xs)
  All-take zero xs h = tt
  All-take (suc n) [] h = tt
  All-take (suc n) (x ∷ xs) h = (h.0, All-take n xs h.1)

module _ {ℓ κ} {A : Type ℓ} (P : A → Type κ) where
  pub All-nth : (i : ℕ) (xs : List A) (x : A) → All P xs → nth xs i ≡ some x → P x
  All-nth i [] x h e = absurd (cc)
  All-nth zero (y ∷ ys) x h e = let same : y ≡ x = cc in subst P same h.0
  All-nth (suc i) (y ∷ ys) x h e = All-nth i ys x h.1 e

  pub All-remove_at : (i : ℕ) (xs : List A) → All P xs → All P (remove_at i xs)
  All-remove_at zero [] h = tt
  All-remove_at (suc i) [] h = tt
  All-remove_at zero (x ∷ xs) h = h.1
  All-remove_at (suc i) (x ∷ xs) h = (h.0, All-remove_at i xs h.1)

-- What the filter keeps passes its test.
pub All-filter_self {ℓ} :
    {A : Type ℓ} (p : A → Bool) (xs : List A) → All (λ x. p x ≡ true) (filter p xs)
All-filter_self p [] = tt
All-filter_self p (x ∷ xs) = ground (arith, All-filter_self p xs)

-- Membership as a type by recursion.
abbrev pub In : {A : Type 0} → A → List A → Type 0
In a [] = ⊥
In a (x ∷ xs) = (x ≡ a) ⊎ In a xs

-- Two lists of one length that are related place by place.
abbrev pub Pairs : {A : Type 0} → (A → A → Type 0) → List A → List A → Type 0
Pairs R [] [] = Unit
Pairs R (x ∷ xs) (y ∷ ys) = R x y × Pairs R xs ys
Pairs R _ _ = ⊥

pub Pairs-refl :
    {A : Type 0} (R : A → A → Type 0) → ((x : A) → R x x) → (xs : List A) → Pairs R xs xs
Pairs-refl R r [] = tt
Pairs-refl R r (x ∷ xs) = (r x, Pairs-refl R r xs)

pub Pairs-trans :
    {A : Type 0} (R S T : A → A → Type 0)
    → ((x y z : A) → R x y → S y z → T x z)
    → (xs ys zs : List A) → Pairs R xs ys
    → Pairs S ys zs
    → Pairs T xs zs
Pairs-trans R S T t [] [] [] p q = tt
Pairs-trans R S T t [] [] (z ∷ zs) p q = elim q [ ]
Pairs-trans R S T t [] (y ∷ ys) zs p q = elim p [ ]
Pairs-trans R S T t (x ∷ xs) [] zs p q = elim p [ ]
Pairs-trans R S T t (x ∷ xs) (y ∷ ys) [] p q = elim q [ ]
Pairs-trans R S T t (x ∷ xs) (y ∷ ys) (z ∷ zs) p q =
    (t x y z p.0 q.0, Pairs-trans R S T t xs ys zs p.1 q.1)

-- A property of each place that the relation carries over.
pub Pairs-All :
    {A : Type 0} (R : A → A → Type 0) (P Q : A → Type 0)
    → ((x y : A) → R x y → P x → Q y)
    → (xs ys : List A) → Pairs R xs ys
    → All P xs
    → All Q ys
Pairs-All R P Q f [] [] r h = tt
Pairs-All R P Q f [] (y ∷ ys) r h = elim r [ ]
Pairs-All R P Q f (x ∷ xs) [] r h = elim r [ ]
Pairs-All R P Q f (x ∷ xs) (y ∷ ys) r h = (f x y r.0 h.0, Pairs-All R P Q f xs ys r.1 h.1)

pub All-map {ℓ} :
    {A : Type ℓ} (P Q : A → Type 0) → ((x : A) → P x → Q x) → (xs : List A) → All P xs → All Q xs
All-map P Q f [] h = tt
All-map P Q f (x ∷ xs) h = (f x h.0, All-map P Q f xs h.1)

pub In-All : {A : Type 0} (P : A → Type 0) (a : A) (xs : List A) → All P xs → In a xs → P a
In-All P a [] h there = elim there [ ]
In-All P a (x ∷ xs) h (inl same) = subst P same h.0
In-All P a (x ∷ xs) h (inr there) = In-All P a xs h.1 there

pub All-In : {A : Type 0} (xs ys : List A) → ((a : A) → In a xs → In a ys) → All (λ a. In a ys) xs
All-In [] ys sub = tt
All-In (x ∷ xs) ys sub = (sub x (inl refl), All-In xs ys (λ a there. sub a (inr there)))

pub In-middle : {A : Type 0} (front : List A) (a : A) (back : List A) → In a (front ++ a ∷ back)
In-middle [] a back = inl refl
In-middle (x ∷ front) a back = inr (In-middle front a back)

pub In-front : {A : Type 0} (front back : List A) (a : A) → In a front → In a (front ++ back)
In-front (x ∷ front) back a (inl same) = inl same
In-front (x ∷ front) back a (inr there) = inr (In-front front back a there)
In-front [] back a there = elim there [ ]

pub In-back : {A : Type 0} (front back : List A) (a : A) → In a back → In a (front ++ back)
In-back [] back a there = there
In-back (x ∷ front) back a there = inr (In-back front back a there)

-- What holds of the images holds of the elements, under the function.
pub All-map_of {ℓ κ} :
    {A : Type ℓ} {B : Type κ} (P : B → Type 0) (f : A → B) (xs : List A)
    → All (λ a. P (f a)) xs
    → All P (map f xs)
All-map_of P f [] h = tt
All-map_of P f (x ∷ xs) h = (h.0, All-map_of P f xs h.1)
