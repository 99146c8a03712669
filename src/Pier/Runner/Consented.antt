-- ===== src/Pier/Runner/Consented.antt =====
-- The consent gate of a run.
use saucepan.Common.{
  String, ◌≡◌, refl, inl, inr, ◌∙◌, sym, Bool, true, Option, none, some, List, [], ◌∷◌, arith, ◌==◌,
  nat_eq, string_eq, Mapping, lookup, eq_iff, Bool-cases, Option-cases, Bool,
}
use saucepan.Common.Float.{Float}
use saucepan.Common.Sort.{sort_by, any-sort_by}
use saucepan.Pier.Actions.{Bytes, is_on}
use saucepan.Pier.Address.{Url}
use saucepan.Common.Text.{string_lt}
use saucepan.Pier.Consent.{
  Approval, Store, load, Consent, allowed, no_consent, not_approved, allows, allows_each,
  is_approved,
}
use saucepan.Pier.Host.{Memory, Codec}
use saucepan.Pier.Runner.{
  no_consent_path, no_consent_file, granted_names, Job, Machine, check_consent, consent_error,
}

allows_each-approved :
    (actions want : List String) (a : String)
    → allows_each actions want ≡ allowed
    → is_approved want a ≡ true
    → is_approved actions a ≡ true
unfolding allows_each
allows_each-approved actions [] a ok h = absurd (cc)
allows_each-approved actions (b ∷ want) a ok h =
    ground (arith, allows_each-approved actions want a, eq_iff b a)

granted-listed :
    (a : String) (grants : Mapping Bool)
    → is_on (lookup a grants) ≡ true
    → is_approved (granted_names grants) a ≡ true
unfolding lookup
granted-listed a [] h = absurd (cc)
granted-listed a ((b, granted) ∷ grants) h = ground (arith, granted-listed a grants, eq_iff b a)

-- What the consent of an operator covers.
abbrev pub Covers : Store → String → Mapping Bool → Type 0
Covers store campaign_id grants =
    (rec : Approval) × (lookup campaign_id store.campaigns ≡ some rec)
    × ((a : String) → is_on (lookup a grants) ≡ true → is_approved rec.actions a ≡ true)

the_gate :
    (campaign_id : String) (grants : Mapping Bool) (store : Store) (rec : Approval)
    → lookup campaign_id store.campaigns ≡ some rec
    → allows campaign_id (sort_by string_lt (granted_names grants)) store
      ≡ allows_each rec.actions (sort_by string_lt (granted_names grants))
unfolding allows
the_gate campaign_id grants store rec found = rw (found, allows) refl

allows-Covers :
    (campaign_id : String) (grants : Mapping Bool) (store : Store)
    → allows campaign_id (sort_by string_lt (granted_names grants)) store ≡ allowed
    → Covers store campaign_id grants
unfolding allows
allows-Covers campaign_id grants store ok =
    elim (Option-cases (lookup campaign_id store.campaigns)) [
      | inl missing ↦
          let refused : allows campaign_id (sort_by string_lt (granted_names grants)) store
              ≡ no_consent =
            rw (missing, allows) refl in
          absurd (cc)
      | inr (rec, found) ↦
          let each : allows_each rec.actions (sort_by string_lt (granted_names grants)) ≡ allowed =
            sym (the_gate campaign_id grants store rec found) ∙ ok in
          (
            rec,
            found,
            λ a on.
                allows_each-approved rec.actions (sort_by string_lt (granted_names grants)) a each (
                  any-sort_by string_lt (λ s. s == a) (granted_names grants)
                  ∙ granted-listed a grants on),
          )
    ]

module _ (fl : Float) (mem : Memory) (codec : Codec fl) (uri : String → Option Url)
    (digest : Bytes → String) where
  -- The consent file that is read covers every action that the job grants.
  abbrev pub Consented : Machine fl mem codec uri digest → Job fl mem codec uri digest → Type 0
  Consented machine job =
      (store : Store) × (load machine.consent ≡ some store)
      × Covers store job.campaign_id job.host.grants

  consent_error-none : (c : Consent) → consent_error fl mem codec uri digest c ≡ none → c ≡ allowed
  consent_error-none allowed e = refl
  consent_error-none no_consent e = absurd (cc)
  consent_error-none (not_approved a) e = absurd (cc)

  pub check_consent-Consented :
      (machine : Machine fl mem codec uri digest) (job : Job fl mem codec uri digest)
      → check_consent fl mem codec uri digest machine job ≡ none
      → Consented machine job
  unfolding check_consent
  check_consent-Consented machine job ok = elim (Bool-cases machine.consent_path_ok) [
    | inr lost ↦
        let refused : check_consent fl mem codec uri digest machine job ≡ some no_consent_path =
          rw (lost, check_consent) refl in
        absurd (cc)
    | inl there ↦ elim (Option-cases (load machine.consent)) [
      | inl unread ↦
          let refused : check_consent fl mem codec uri digest machine job ≡ some no_consent_file =
            rw (there, check_consent, unread) refl in
          absurd (cc)
      | inr (store, read) ↦
          let verdict =
            allows job.campaign_id (sort_by string_lt (granted_names job.host.grants)) store in
          let same : check_consent fl mem codec uri digest machine job
              ≡ consent_error fl mem codec uri digest verdict =
            rw (there, check_consent, read) refl in
          (
            store,
            read,
            allows-Covers job.campaign_id job.host.grants store
                (consent_error-none verdict (sym same ∙ ok)),
          )
    ]
  ]
