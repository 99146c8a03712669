-- ===== src/Pier/Consent/Allows.antt =====
-- What an approval admits, and until when.
use saucepan.Common.{
  ℕ, String, ◌≡◌, ◌≢◌, ◌↔◌, refl, inl, inr, Bool, true, false, ◌&&◌, ◌||◌, not, none, some, List,
  [], ◌∷◌, ◌++◌, arith, ◌==◌, string_eq, any, All, In, Bool-cases, lookup, delete, lookup-insert,
  lookup-delete, eq_iff, eq_refl, ◌∙◌, Option-cases, subst, sym,
}
use saucepan.Common.Sort.{any-sort_by}
use saucepan.Common.Text.{string_lt}
use saucepan.Pier.Consent.{
  Approval, Store, dedupe, normalize, approve, revoke, allowed, no_consent, is_approved,
  allows_each, allows,
}

any-append : (p : String → Bool) (xs ys : List String) → any p (xs ++ ys) ≡ (any p xs || any p ys)
any-append p [] ys = refl
any-append p (x ∷ xs) ys = ground (arith, any-append p xs ys)

is_approved-dedupe :
    (a : String) (out names : List String)
    → is_approved (dedupe out names) a
      ≡ (is_approved out a || (is_approved names a && not (a == "")))
unfolding dedupe
is_approved-dedupe a out [] = ground arith
is_approved-dedupe a out (b ∷ names) = elim (Bool-cases (b == "" || any (λ s. s == b) out)) [
  | inl skipped ↦
      rw skipped
        (ground (arith, is_approved-dedupe a out names, eq_iff b a, eq_iff b "", eq_iff a ""))
  | inr added ↦ rw added (
      ground (
        arith,
        is_approved-dedupe a (out ++ b ∷ []) names,
        any-append (λ s. s == a) out (b ∷ []),
        eq_iff b a,
        eq_iff b "",
        eq_iff a "",
      ))
]

is_approved-normalize :
    (a : String) (names : List String)
    → is_approved (normalize names) a ≡ (is_approved names a && not (a == ""))
unfolding normalize
is_approved-normalize a names =
    any-sort_by string_lt (λ s. s == a) (dedupe [] names) ∙ is_approved-dedupe a [] names

abbrev Shown : List String → String → Type 0
Shown actions a = In a actions × (a ≢ "")

is_approved-In :
    (actions : List String) (a : String) → (is_approved actions a ≡ true) ↔ In a actions
is_approved-In [] a = (λ e. absurd (cc), λ h. elim h [ ])
is_approved-In (b ∷ actions) a = elim (Bool-cases (b == a)) [
  | inl same ↦ (λ _. inl (ground (arith, eq_iff b a)), λ _. ground arith)
  | inr other ↦ (
    λ e. inr ((is_approved-In actions a).0 (ground arith)),
    λ h. elim h [
      | inl e ↦ ground (arith, eq_iff b a)
      | inr later ↦ ground (arith, (is_approved-In actions a).1 later)
    ],
  )
]

allows_each-All :
    (actions want : List String)
    → (allows_each (normalize actions) want ≡ allowed) ↔ All (Shown actions) want
unfolding allows_each
allows_each-All actions [] = (λ _. tt, λ _. refl)
allows_each-All actions (a ∷ want) =
    let (into, back) = allows_each-All actions want in
    let kept = is_approved-normalize a actions in
    let (found, find) = is_approved-In actions a in
    elim (Bool-cases (is_approved (normalize actions) a)) [
      | inl yes_shown ↦
          rw yes_shown
            (λ e. ((found (ground arith), ground (arith, eq_iff a "")), into e), λ h. back h.1)
      | inr hidden ↦
          rw hidden (λ e. absurd (cc), λ h. absurd (ground (arith, find h.0.0, eq_iff a "")))
    ]

allows-none :
    (c : String) (want : List String) (s : Store)
    → lookup c s.campaigns ≡ none
    → allows c want s ≡ no_consent
unfolding allows
allows-none c want s e = rw (e, allows) refl

allows-some :
    (c : String) (want : List String) (s : Store) (rec : Approval)
    → lookup c s.campaigns ≡ some rec
    → allows c want s ≡ allows_each rec.actions want
unfolding allows
allows-some c want s rec e = rw (e, allows) refl

allows-same :
    (c : String) (want : List String) (s t : Store)
    → lookup c s.campaigns ≡ lookup c t.campaigns
    → allows c want s ≡ allows c want t
allows-same c want s t e = elim (Option-cases (lookup c t.campaigns)) [
  | inl missing ↦ allows-none c want s (e ∙ missing) ∙ sym (allows-none c want t missing)
  | inr (rec, found) ↦ allows-some c want s rec (e ∙ found) ∙ sym (allows-some c want t rec found)
]

-- An approval admits exactly what it showed: after it the campaign may run just with actions that are all, not empty, among those approved (in any order and any number of times, whatever was approved before); and what any other campaign may run with stays as it was.
pub approve-allows :
    (now : ℕ) (campaign_id : String) (actions : List String) (s : Store)
    → ((want : List String)
        → (allows campaign_id want (approve now campaign_id actions s) ≡ allowed)
          ↔ All (λ a. In a actions × (a ≢ "")) want)
      × ((other : String) (want : List String)
          → other ≢ campaign_id
          → allows other want (approve now campaign_id actions s) ≡ allows other want s)
unfolding approve
approve-allows now campaign_id actions s =
    let rec : Approval = record { approved_at = now; actions = normalize actions } in
    let s' = approve now campaign_id actions s in
    let at = λ (c : String). lookup-insert campaign_id c rec s.campaigns in
    (
      λ want.
          rw (allows-some campaign_id want s' rec (at campaign_id ∙ rw (eq_refl campaign_id) refl))
            (allows_each-All actions want),
      λ other want different.
          let away : (campaign_id == other) ≡ false = ground (arith, eq_iff campaign_id other) in
          allows-same other want s' s (at other ∙ rw away refl),
    )

abbrev pub Withdrawn : String → Store → Store × Bool → Type 0
Withdrawn campaign_id s (s', found) =
    ((want : List String) → allows campaign_id want s' ≡ no_consent)
    × ((other : String) (want : List String)
        → other ≢ campaign_id
        → allows other want s' ≡ allows other want s)
    × ((found ≡ true) ↔ (allows campaign_id [] s ≡ allowed))
    × (found ≡ false → s' ≡ s)

-- A revocation is final until the next approval: afterwards the campaign has no consent for anything, every other is as before, and the answer tells if there was an approval; where there was none the store does not change.
pub revoke-Withdrawn :
    (campaign_id : String) (s : Store) → Withdrawn campaign_id s (revoke campaign_id s)
unfolding revoke allows_each
revoke-Withdrawn campaign_id s = elim (Option-cases (lookup campaign_id s.campaigns)) [
  | inl missing ↦
      let same : revoke campaign_id s ≡ (s, false) = rw (missing, revoke) refl in
      subst (Withdrawn campaign_id s) (sym same) (
        λ want. allows-none campaign_id want s missing,
        λ other want different. refl,
        (λ e. absurd (cc), λ e. absurd (ground (arith, allows-none campaign_id [] s missing))),
        λ _. refl,
      )
  | inr (rec, found) ↦
      let left : Store = record s { campaigns = delete campaign_id s.campaigns } in
      let same : revoke campaign_id s ≡ (left, true) = rw (found, revoke) refl in
      let at = λ (c : String). lookup-delete campaign_id c s.campaigns in
      subst (Withdrawn campaign_id s) (sym same) (
        λ want. allows-none campaign_id want left (at campaign_id ∙ rw (eq_refl campaign_id) refl),
        λ other want different.
            let away : (campaign_id == other) ≡ false = ground (arith, eq_iff campaign_id other) in
            allows-same other want left s (at other ∙ rw away refl),
        (λ _. allows-some campaign_id [] s rec found, λ _. refl),
        λ e. absurd (cc),
      )
]
