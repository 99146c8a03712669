-- ===== src/Campaign/Granted.antt =====
-- SaucepanServer/task-server/shared/campaign/pack.go and shared/wire/piercode.go: what the code of
-- a campaign may do on a pier.
use saucepan.Common.{
  String, ◌≡◌, ◌↔◌, ◌⊎◌, refl, inl, inr, Bool, true, false, not, ◌||◌, Option, none, some, [], ◌∷◌,
  ◌==◌, string_eq, if◌then◌else◌, arith, filter, Mapping, lookup, Bool-cases, eq_iff,
}
use saucepan.Common.Float.{Float}
use saucepan.Pier.Actions.{
  Record, is_pier_code_action, default_pier_code_grants, grant_allows, check_record_grant,
  action_state, action_done, action_error, is_terminal, GrantRefusal, not_in_menu, not_granted,
  action_read_frame, action_board_post, action_board_read,
}
use saucepan.Pier.Address.{Url}
use saucepan.Campaign.{PierCodeIntent, Pack}
use saucepan.Campaign.Iff.{or_iff}
use saucepan.Campaign.Grants.{or_default, intent_grants, apply_pier_code_from_pack}

-- Indexing a nil map gives the zero value.
abbrev grants_of : Option (Mapping Bool) → Mapping Bool
grants_of none = []
grants_of (some grants) = grants

-- The choice of a campaign for an action: what its map says, or the three basic actions if it has
-- no map.
abbrev Chooses : Mapping Bool → String → Type 0
Chooses [] a = (a ≡ action_read_frame) ⊎ ((a ≡ action_board_post) ⊎ (a ≡ action_board_read))
Chooses (entry ∷ actions) a = lookup a (entry ∷ actions) ≡ some true

abbrev Grants : Option PierCodeIntent → String → Type 0
Grants none a = ⊥
Grants (some c) a = (c.enabled ≡ true) × ((is_pier_code_action a ≡ true) × Chooses c.actions a)

lookup-filter_menu :
    (a : String) (actions : Mapping Bool)
    → lookup a (filter (λ (b, _). is_pier_code_action b) actions)
      ≡ (if is_pier_code_action a then lookup a actions else none)
unfolding lookup
lookup-filter_menu a [] = ground arith
lookup-filter_menu a ((head, value) ∷ actions) =
    let ih = lookup-filter_menu a actions in ground (arith, ih, eq_iff head a)

grant_allows_iff :
    (grants : Mapping Bool) (a : String)
    → (grant_allows grants a ≡ true)
      ↔ ((is_pier_code_action a ≡ true) × (lookup a grants ≡ some true))
unfolding grant_allows
grant_allows_iff grants a = (λ h. (ground arith, ground arith), λ h. ground arith)

-- The actions that need no grant: state, done and error.
abbrev pub IsOwn : String → Type 0
IsOwn a = (a ≡ action_state) ⊎ ((a ≡ action_done) ⊎ (a ≡ action_error))

is_terminal_iff : (a : String) → ((a == action_state || is_terminal a) ≡ true) ↔ IsOwn a
is_terminal_iff a =
    or_iff (a == action_state) (is_terminal a) (eq_iff a action_state)
      (or_iff (a == action_done) (a == action_error) (eq_iff a action_done) (eq_iff a action_error))

default_iff : (a : String) → (lookup a default_pier_code_grants ≡ some true) ↔ Chooses [] a
unfolding lookup
default_iff a = (
  λ h.
      ground
        (arith, eq_iff action_read_frame a, eq_iff action_board_post a, eq_iff action_board_read a),
  λ h.
      ground
        (arith, eq_iff action_read_frame a, eq_iff action_board_post a, eq_iff action_board_read a),
)

Chooses-iff :
    (actions : Mapping Bool) (a : String)
    → (grant_allows (or_default actions) a ≡ true)
      ↔ ((is_pier_code_action a ≡ true) × Chooses actions a)
Chooses-iff [] a =
    let e = grant_allows_iff default_pier_code_grants a in
    let d = default_iff a in (λ h. ((e.0 h).0, d.0 (e.0 h).1), λ h. e.1 (h.0, d.1 h.1))
Chooses-iff (entry ∷ actions) a =
    let e = grant_allows_iff (or_default (entry ∷ actions)) a in
    let m = lookup-filter_menu a (entry ∷ actions) in
    (λ h. ((e.0 h).0, ground (arith, m, e.0 h)), λ h. e.1 (h.0, ground (arith, m)))

no_grants : (a : String) → ¬ (grant_allows [] a ≡ true)
unfolding grant_allows lookup
no_grants a h = ground arith

intent_grants_iff :
    (intent : Option PierCodeIntent) (a : String)
    → (grant_allows (grants_of (intent_grants intent)) a ≡ true) ↔ Grants intent a
intent_grants_iff none a = (λ h. no_grants a h, λ h. elim h [ ])
intent_grants_iff (some c) a =
    let e = Chooses-iff c.actions a in
    elim (Bool-cases c.enabled) [
      | inl on ↦ rw on (λ h. (refl, e.0 h), λ h. e.1 h.1)
      | inr off ↦ rw off (λ h. absurd (no_grants a h), λ h. absurd (cc h.0))
    ]

verdict_iff :
    {P : Type 0} (own menu granted : Bool) (x y : GrantRefusal)
    → (own ≡ true) ↔ P
    → (granted ≡ true → menu ≡ true)
    → ((if own then none else if not menu then some x else if not granted then some y else none)
        ≡ none)
      ↔ (P ⊎ (granted ≡ true))
verdict_iff true menu granted x y p sub = (λ h. inl (p.0 refl), λ h. refl)
verdict_iff false true true x y p sub = (λ h. inr refl, λ h. refl)
verdict_iff false true false x y p sub =
    (λ h. absurd (cc h), λ h. elim h [ inl own ↦ absurd (cc (p.1 own)) | inr g ↦ absurd (cc g) ])
verdict_iff false false granted x y p sub = (
  λ h. absurd (cc h),
  λ h. elim h [ inl own ↦ absurd (cc (p.1 own)) | inr g ↦ absurd (cc (sub g)) ],
)

check_iff :
    (rec : Record) (grants : Mapping Bool)
    → (check_record_grant rec grants ≡ none)
      ↔ (IsOwn rec.action ⊎ (grant_allows grants rec.action ≡ true))
unfolding check_record_grant
check_iff rec grants =
    verdict_iff (rec.action == action_state || is_terminal rec.action)
      (is_pier_code_action rec.action) (grant_allows grants rec.action) not_in_menu not_granted
      (is_terminal_iff rec.action) (λ h. ((grant_allows_iff grants rec.action).0 h).0)

-- A pack that does not parse grants nothing.
abbrev pub PackGrants : (fl : Float) → Option (Pack fl) → String → Type 0
PackGrants fl none a = ⊥
PackGrants fl (some p) a = Grants p.pier_code a

-- CheckRecordGrant, given the grants that ride on the assignments of a campaign, accepts a record exactly when its action is state, done or error, or when the pack enables on-pier code, the action is on the menu, and the pack's map says true for it or, where the pack has no map, it is read_frame, board_post or board_read.
pub check_record_grant-Grants :
    (fl : Float) (parse_request_uri : String → Option Url) (pack : Option (Pack fl)) (rec : Record)
    → (check_record_grant rec
          (grants_of (apply_pier_code_from_pack fl parse_request_uri pack).grants)
        ≡ none)
      ↔ (IsOwn rec.action ⊎ PackGrants fl pack rec.action)
unfolding apply_pier_code_from_pack
check_record_grant-Grants fl parse_request_uri none rec =
    let k = check_iff rec [] in
    (
      λ h. elim (k.0 h) [ inl own ↦ inl own | inr granted ↦ absurd (no_grants rec.action granted) ],
      λ h. k.1 (elim h [ inl own ↦ inl own | inr granted ↦ elim granted [ ] ]),
    )
check_record_grant-Grants fl parse_request_uri (some p) rec =
    let e = intent_grants_iff p.pier_code rec.action in
    let k = check_iff rec (grants_of (intent_grants p.pier_code)) in
    (
      λ h. elim (k.0 h) [ inl own ↦ inl own | inr granted ↦ inr (e.0 granted) ],
      λ h. k.1 (elim h [ inl own ↦ inl own | inr granted ↦ inr (e.1 granted) ]),
    )
