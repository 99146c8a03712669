-- ===== src/Pier/Consent.antt =====
-- SaucepanServer/task-server/shared/consent/consent.go: which campaigns' code the operator of a
-- pier lets run.
pub mod Allows
use saucepan.Common.{
  ℕ, String, Bool, true, false, ◌&&◌, ◌||◌, not, Option, none, some, List, [], ◌∷◌, ◌++◌, ltb, ◌==◌,
  nat_eq, string_eq, if◌then◌else◌, any, Mapping, lookup, insert, delete,
}
use saucepan.Common.Sort.{sort_by}
use saucepan.Common.Text.{string_lt}

abbrev pub file_version : ℕ
file_version = 1

pub record Approval : Type 0 where
  pub approved_at : ℕ
  pub actions : List String

pub record Store : Type 0 where
  pub version : ℕ
  pub campaigns : Mapping Approval

-- What ReadFile and json.Unmarshal give of the consent file. A missing `campaigns` is an empty map.
pub data ConsentFile : Type 0 where
  no_file unreadable unparsable : ConsentFile
  parsed : Store → ConsentFile

unfoldable pub load : ConsentFile → Option Store
load no_file = some (record { version = file_version; campaigns = [] })
load unreadable = none
load unparsable = none
load (parsed s) = some (if s.version == 0 then record s { version = file_version } else s)

-- The loop of normalize, over the names seen, which are those of `out`.
unfoldable pub dedupe : List String → List String → List String
dedupe out [] = out
dedupe out (a ∷ names) =
    dedupe (if a == "" || any (λ s. s == a) out then out else out ++ a ∷ []) names

unfoldable pub normalize : List String → List String
unfolding dedupe
normalize names = sort_by string_lt (dedupe [] names)

unfoldable pub approve : ℕ → String → List String → Store → Store
unfolding normalize
approve now campaign_id actions s = record s {
  campaigns =
      insert campaign_id (record { approved_at = now; actions = normalize actions }) s.campaigns;
}

unfoldable pub revoke : String → Store → Store × Bool
revoke campaign_id s = elim (lookup campaign_id s.campaigns) [
  | none ↦ (s, false)
  | some _ ↦ (record s { campaigns = delete campaign_id s.campaigns }, true)
]

pub data Consent : Type 0 where
  allowed no_consent : Consent
  not_approved : String → Consent

abbrev pub is_approved : List String → String → Bool
is_approved actions a = any (λ s. s == a) actions

unfoldable pub allows_each : List String → List String → Consent
allows_each actions [] = allowed
allows_each actions (a ∷ want) =
    if not (is_approved actions a) then not_approved a else allows_each actions want

unfoldable pub allows : String → List String → Store → Consent
unfolding allows_each
allows campaign_id want s = elim (lookup campaign_id s.campaigns) [
  | none ↦ no_consent
  | some rec ↦ allows_each rec.actions want
]
