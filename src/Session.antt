-- ===== src/Session.antt =====
-- SaucepanServer/user-server/sessions.go: refresh sessions, their rotation and revocation.
pub mod Rotate
pub mod Revoke
mod Tests
use saucepan.Common.{
  ℕ, suc, ◌+◌, String, Bool, true, false, ◌&&◌, not, Option, none, some, List, [], ◌∷◌, ◌++◌, ltb,
  ◌==◌, nat_eq, string_eq, if◌then◌else◌, any, Mapping, insert,
}

-- A row of user_sessions. Ids come from gen_random_uuid(), and enter as arguments.
pub record SessionRow : Type 0 where
  pub id : ℕ
  pub user_id : String
  pub token_hash : String
  pub user_agent : Option String
  pub expires_at : ℕ
  pub revoked_at : Option ℕ
  pub replaced_by : Option ℕ

pub record Accounts : Type 0 where
  pub sessions : List SessionRow
  pub password_hashes : Mapping String

abbrev pub is_set : Option ℕ → Bool
is_set none = false
is_set (some _) = true

abbrev pub is_live : SessionRow → Bool
is_live r = not (is_set r.revoked_at)

abbrev pub is_live_of : String → SessionRow → Bool
is_live_of user_id r = r.user_id == user_id && is_live r

abbrev pub has_hash : String → SessionRow → Bool
has_hash hash r = r.token_hash == hash

abbrev pub has_id : ℕ → SessionRow → Bool
has_id id r = r.id == id

abbrev pub find_row : (SessionRow → Bool) → List SessionRow → Option SessionRow
find_row p [] = none
find_row p (r ∷ rows) = if p r then some r else find_row p rows

abbrev pub count_rows : (SessionRow → Bool) → List SessionRow → ℕ
count_rows p [] = 0
count_rows p (r ∷ rows) = if p r then suc (count_rows p rows) else count_rows p rows

abbrev pub update_rows :
    (SessionRow → Bool) → (SessionRow → SessionRow) → List SessionRow → List SessionRow
update_rows p f [] = []
update_rows p f (r ∷ rows) = (if p r then f r else r) ∷ update_rows p f rows

abbrev pub revoke_at : ℕ → SessionRow → SessionRow
revoke_at now r = record r { revoked_at = some now }

-- NULLIF($3, '')
abbrev pub null_if_empty : String → Option String
null_if_empty text = if text == "" then none else some text

abbrev pub new_row : ℕ → String → String → String → ℕ → SessionRow
new_row id user_id hash user_agent expires_at = record {
  id = id;
  user_id = user_id;
  token_hash = hash;
  user_agent = null_if_empty user_agent;
  expires_at = expires_at;
  revoked_at = none;
  replaced_by = none;
}

-- INSERT under the unique index on token_hash: `none` is the violation.
unfoldable pub insert_row : SessionRow → List SessionRow → Option (List SessionRow)
insert_row r rows = if any (has_hash r.token_hash) rows then none else some (rows ++ r ∷ [])

pub data RotateResult : Type 0 where
  rotated : ℕ → RotateResult
  not_found revoked expired reuse database_error : RotateResult

-- The digest of a token: sha256 in hexadecimal, of the standard library.
module _ (hash_refresh_token : String → String) where
  unfoldable pub create_session : ℕ → String → String → String → ℕ → Accounts → Accounts × Option ℕ
  unfolding insert_row
  create_session new_id user_id refresh_token user_agent expires_at s =
      elim (insert_row
        (new_row new_id user_id (hash_refresh_token refresh_token) user_agent expires_at)
        s.sessions) [ none ↦ (s, none) | some rows ↦ (record s { sessions = rows }, some new_id) ]

  -- What rotateSession does with the row found, under its lock.
  unfoldable pub rotate_row :
      ℕ → ℕ → String → String → String → ℕ → Accounts → SessionRow → Accounts × RotateResult
  unfolding insert_row
  rotate_row now new_id user_id new_refresh user_agent expires_at s r =
      if not (r.user_id == user_id)
      then (s, not_found)
      else if is_set r.revoked_at
      then (if is_set r.replaced_by
          then (
            record s { sessions = update_rows (is_live_of user_id) (revoke_at now) s.sessions },
            reuse,
          )
          else (s, revoked))
      else if ltb r.expires_at now
      then (s, expired)
      else elim (insert_row
          (new_row new_id user_id (hash_refresh_token new_refresh) user_agent expires_at)
          s.sessions) [
            | none ↦ (s, database_error)
            | some rows ↦ (
              record s {
                sessions =
                    update_rows (λ u. u.id == r.id && is_live u)
                      (λ u. record u { revoked_at = some now; replaced_by = some new_id }) rows;
              },
              rotated new_id,
            )
          ]

  unfoldable pub rotate_session :
      ℕ → ℕ → String → String → String → String → ℕ → Accounts → Accounts × RotateResult
  unfolding rotate_row
  rotate_session now new_id user_id old_refresh new_refresh user_agent expires_at s =
      elim (find_row (has_hash (hash_refresh_token old_refresh)) s.sessions) [
        | none ↦ (s, not_found)
        | some r ↦ rotate_row now new_id user_id new_refresh user_agent expires_at s r
      ]

  -- The Boolean is false for errSessionNotFound.
  unfoldable pub revoke_session_by_hash : ℕ → String → Accounts → Accounts × Bool
  revoke_session_by_hash now refresh_token s =
      let hit = λ (r : SessionRow). has_hash (hash_refresh_token refresh_token) r && is_live r in
      (
        record s { sessions = update_rows hit (revoke_at now) s.sessions },
        not (count_rows hit s.sessions == 0),
      )

unfoldable pub revoke_all_user_sessions : ℕ → String → Accounts → Accounts × ℕ
revoke_all_user_sessions now user_id s = (
  record s { sessions = update_rows (is_live_of user_id) (revoke_at now) s.sessions },
  count_rows (is_live_of user_id) s.sessions,
)

-- UPDATE users ... WHERE id = $1, then the sessions, in one transaction.
abbrev has_key : String → Mapping String → Bool
has_key key [] = false
has_key key ((k, _) ∷ rest) = if k == key then true else has_key key rest

unfoldable pub update_password_and_revoke_sessions : ℕ → String → String → Accounts → Accounts × ℕ
update_password_and_revoke_sessions now user_id password_hash s = (
  record s {
    password_hashes =
        if has_key user_id s.password_hashes
        then insert user_id password_hash s.password_hashes
        else s.password_hashes;
    sessions = update_rows (is_live_of user_id) (revoke_at now) s.sessions;
  },
  count_rows (is_live_of user_id) s.sessions,
)
