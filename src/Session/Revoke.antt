-- ===== src/Session/Revoke.antt =====
-- Refusals, logout and password change.
use saucepan.Common.{
  ℕ, ◌≤◌, ◌<◌, String, ◌≡◌, ◌≢◌, refl, ◌⊎◌, inl, inr, Bool, true, false, ◌&&◌, Option, none, some,
  List, [], ◌∷◌, arith, nat_eq, string_eq, Bool-cases, Option-cases, any, if◌then◌else◌, eq_iff,
  Pairs,
}
use saucepan.Session.{
  SessionRow, Accounts, is_set, is_live, is_live_of, has_hash, find_row, count_rows, update_rows,
  revoke_at, RotateResult, rotated, not_found, revoked, expired, reuse, database_error,
  rotate_session, revoke_session_by_hash, update_password_and_revoke_sessions,
}
use saucepan.Session.Rotate.{none_live}

-- Whether a rotation must be accepted, read off the rows alone.
abbrev pub Verdict : Option SessionRow → String → ℕ → ℕ → Bool → RotateResult → Type 0
Verdict none user now new_id taken result = result ≡ not_found
Verdict (some r) user now new_id taken result =
    (r.user_id ≢ user → result ≡ not_found)
    × (r.user_id ≡ user → is_set r.revoked_at ≡ true → is_set r.replaced_by ≡ true → result ≡ reuse)
    × (r.user_id ≡ user
        → is_set r.revoked_at ≡ true
        → is_set r.replaced_by ≡ false
        → result ≡ revoked)
    × (r.user_id ≡ user → is_set r.revoked_at ≡ false → r.expires_at < now → result ≡ expired)
    × (r.user_id ≡ user
        → is_set r.revoked_at ≡ false
        → now ≤ r.expires_at
        → result ≡ (if taken then database_error else rotated new_id))

abbrev pub IsRefusal : RotateResult → Type 0
IsRefusal (rotated _) = ⊥
IsRefusal reuse = ⊥
IsRefusal _ = Unit

module _ (hash : String → String) (now new_id : ℕ) (user old_refresh new_refresh agent : String)
    (expires_at : ℕ) (s : Accounts) where
  abbrev attempt : Accounts × RotateResult
  attempt = rotate_session hash now new_id user old_refresh new_refresh agent expires_at s

  -- The outcome of a rotation is decided by the row of the presented token: not found without a row or with a foreign one; for a revoked row a reuse if a rotation replaced it, and plain revoked otherwise; expired past its time; and else the new session, or a database error if the digest of the new token is taken. Any refusal but a reuse leaves the tables as they were.
  pub rotate_session-Verdict :
      Verdict
        (find_row (has_hash (hash old_refresh)) s.sessions)
        user
        now
        new_id
        (any (has_hash (hash new_refresh)) s.sessions)
        attempt.1
      × (IsRefusal attempt.1 → attempt.0 ≡ s)
  unfolding rotate_session
  rotate_session-Verdict = elim (Option-cases (find_row (has_hash (hash old_refresh)) s.sessions)) [
    | inl missing ↦ rw (missing, rotate_session) (refl, λ _. refl)
    | inr (r, found) ↦
        rw (found, rotate_session)
          (
            (
              ground (arith, eq_iff r.user_id user),
              ground (arith, eq_iff r.user_id user),
              ground (arith, eq_iff r.user_id user),
              ground (arith, eq_iff r.user_id user),
              ground (arith, eq_iff r.user_id user),
            ),
            ground arith,
          )
  ]

-- What a revocation may do to a row: nothing, or to revoke one that the test selects.
abbrev pub Revoked : (SessionRow → Bool) → ℕ → SessionRow → SessionRow → Type 0
Revoked p now u v = (u ≡ v) ⊎ ((p u ≡ true) × (v ≡ revoke_at now u))

update-Revoked :
    (p : SessionRow → Bool) (now : ℕ) (rows : List SessionRow)
    → Pairs (Revoked p now) rows (update_rows p (revoke_at now) rows)
update-Revoked p now [] = tt
update-Revoked p now (r ∷ rows) = elim (Bool-cases (p r)) [
  | inl hit ↦ rw hit (inr (refl, refl), update-Revoked p now rows)
  | inr miss ↦ rw miss (inl refl, update-Revoked p now rows)
]

find-revoked :
    (h : String) (now : ℕ) (rows : List SessionRow) (r : SessionRow)
    → find_row (has_hash h) rows ≡ some r
    → is_live r ≡ true
    → find_row (has_hash h) (update_rows (λ u. has_hash h u && is_live u) (revoke_at now) rows)
      ≡ some (revoke_at now r)
find-revoked h now [] r e l = absurd (cc)
find-revoked h now (u ∷ rows) r e l = ground (arith, find-revoked h now rows r)

count-found :
    (h : String) (rows : List SessionRow) (r : SessionRow)
    → find_row (has_hash h) rows ≡ some r
    → is_live r ≡ true
    → 0 < count_rows (λ u. has_hash h u && is_live u) rows
count-found h [] r e l = absurd (cc)
count-found h (u ∷ rows) r e l = ground (arith, count-found h rows r)

rotate_session-revoked :
    (hash : String → String) (later new_id : ℕ) (user token next agent : String) (expires_at : ℕ)
    (s : Accounts) (r : SessionRow)
    → find_row (has_hash (hash token)) s.sessions ≡ some r
    → r.user_id ≡ user
    → is_set r.revoked_at ≡ true
    → is_set r.replaced_by ≡ false
    → rotate_session hash later new_id user token next agent expires_at s ≡ (s, revoked)
unfolding rotate_session
rotate_session-revoked hash later new_id user token next agent expires_at s r found owned gone
      kept =
    rw (found, rotate_session) (ground (arith, eq_iff r.user_id user))

-- Logging out with a token revokes its session, and nothing else: the presented token, of a live session that no rotation replaced, is then refused as plainly revoked (no reuse alarm), and only live rows with its digest change.
pub revoke_session_by_hash_verdict :
    (hash : String → String) (now later new_id : ℕ) (user token next agent : String)
    (expires_at : ℕ) (s : Accounts) (r : SessionRow)
    → find_row (has_hash (hash token)) s.sessions ≡ some r
    → r.user_id ≡ user
    → is_live r ≡ true
    → is_set r.replaced_by ≡ false
    → let s' = (revoke_session_by_hash hash now token s).0 in
      ((revoke_session_by_hash hash now token s).1 ≡ true)
      × (rotate_session hash later new_id user token next agent expires_at s' ≡ (s', revoked))
      × Pairs (Revoked (λ u. has_hash (hash token) u && is_live u) now) s.sessions s'.sessions
unfolding revoke_session_by_hash
revoke_session_by_hash_verdict hash now later new_id user token next agent expires_at s r found
      owned live replaced =
    let s' = (revoke_session_by_hash hash now token s).0 in
    (
      ground (arith, count-found (hash token) s.sessions r found live),
      rotate_session-revoked hash later new_id user token next agent expires_at s' (revoke_at now r)
          (find-revoked (hash token) now s.sessions r found live) owned refl replaced,
      update-Revoked (λ u. has_hash (hash token) u && is_live u) now s.sessions,
    )

-- A password change reports how many live sessions of the user it ended, ends all of them, and touches no row that was not a live session of that user.
pub update_password_and_revoke_sessions_ends :
    (now : ℕ) (user password_hash : String) (s : Accounts)
    → let (s', ended) = update_password_and_revoke_sessions now user password_hash s in
      (ended ≡ count_rows (is_live_of user) s.sessions)
      × (count_rows (is_live_of user) s'.sessions ≡ 0)
      × Pairs (Revoked (is_live_of user) now) s.sessions s'.sessions
unfolding update_password_and_revoke_sessions
update_password_and_revoke_sessions_ends now user password_hash s =
    (refl, none_live now user s.sessions, update-Revoked (is_live_of user) now s.sessions)
