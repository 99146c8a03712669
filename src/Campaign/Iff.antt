-- ===== src/Campaign/Iff.antt =====
-- Checks that give their first error, against what they check.
use saucepan.Common.{
  String, ◌≡◌, ◌↔◌, ◌⊎◌, refl, sym, inl, inr, Bool, true, false, ◌||◌, not, Option, none, some,
  List, [], ◌∷◌, ◌==◌, string_eq, any, In, eq_iff,
}
use saucepan.Campaign.Check.{first, reject, one_of, on_some}

-- A value that may be nil has the property, if it is there.
abbrev pub IfSome : {A : Type 0} → (A → Type 0) → Option A → Type 0
IfSome P none = Unit
IfSome P (some a) = P a

-- Checks pass together when each does.
module _ {E : Type 0} where
  pub first_iff :
      {P Q : Type 0} (a b : Option E)
      → (a ≡ none) ↔ P
      → (b ≡ none) ↔ Q
      → (first a b ≡ none) ↔ (P × Q)
  first_iff none b p q = (λ h. (p.0 refl, q.0 h), λ h. q.1 h.1)
  first_iff (some e) b p q = (λ h. absurd (cc h), λ h. p.1 h.0)

  pub reject_iff : {P : Type 0} (b : Bool) (e : E) → (b ≡ false) ↔ P → (reject b e ≡ none) ↔ P
  reject_iff true e p = (λ h. absurd (cc h), λ h. absurd (cc (p.1 h)))
  reject_iff false e p = (λ h. p.0 refl, λ h. refl)

  pub on_some_iff :
      {A : Type 0} (P : A → Type 0) (check : A → Option E)
      → ((a : A) → (check a ≡ none) ↔ P a)
      → (o : Option A) → (on_some check o ≡ none) ↔ IfSome P o
  on_some_iff P check each none = (λ h. tt, λ h. refl)
  on_some_iff P check each (some a) = each a

pub or_iff :
    {P Q : Type 0} (a b : Bool) → (a ≡ true) ↔ P → (b ≡ true) ↔ Q → ((a || b) ≡ true) ↔ (P ⊎ Q)
or_iff true b p q = (λ h. inl (p.0 refl), λ h. refl)
or_iff false b p q =
    (λ h. inr (q.0 h), λ h. elim h [ inl here ↦ absurd (cc (p.1 here)) | inr there ↦ q.1 there ])

pub neither_iff :
    {P Q : Type 0} (a b : Bool) → (a ≡ false) ↔ P → (b ≡ false) ↔ Q → ((a || b) ≡ false) ↔ (P × Q)
neither_iff true b p q = (λ h. absurd (cc h), λ h. absurd (cc (p.1 h.0)))
neither_iff false b p q = (λ h. (p.0 refl, q.0 h), λ h. q.1 h.1)

-- What a Boolean test is, when it fails.
pub not_iff : {P : Type 0} (b : Bool) → (b ≡ true) ↔ P → (not b ≡ false) ↔ P
not_iff true p = (λ h. p.0 refl, λ h. refl)
not_iff false p = (λ h. absurd (cc h), λ h. absurd (cc (p.1 h)))

pub one_of_iff : (s : String) (names : List String) → (one_of s names ≡ true) ↔ In s names
one_of_iff s [] = (λ h. absurd (cc h), λ h. elim h [ ])
one_of_iff s (name ∷ names) =
    let e = eq_iff s name in
    or_iff (s == name) (one_of s names) (λ h. sym (e.0 h), λ h. e.1 (sym h)) (one_of_iff s names)

-- A name that the menu of on-pier code holds.
pub menu_iff : (a : String) (menu : List String) → (any (λ name. name == a) menu ≡ true) ↔ In a menu
menu_iff a [] = (λ h. absurd (cc h), λ h. elim h [ ])
menu_iff a (name ∷ menu) =
    or_iff (name == a) (any (λ name. name == a) menu) (eq_iff name a) (menu_iff a menu)
