-- ===== src/Session/Rotate.antt =====
-- Rotation: a refresh token is good for one use, and a second use revokes everything.
use saucepan.Common.{
  ℕ, ◌+◌, ◌≤◌, String, ◌≡◌, ◌≢◌, refl, ap, inl, inr, Bool, true, false, ◌&&◌, some, List, [], ◌∷◌,
  ◌++◌, arith, ◌==◌, nat_eq, string_eq, All, Bool-cases, Option-cases, any, if◌then◌else◌, eq_iff,
  subst, sym,
}
use saucepan.Session.{
  SessionRow, Accounts, is_set, is_live, is_live_of, has_hash, find_row, count_rows, update_rows,
  revoke_at, new_row, RotateResult, rotated, reuse, rotate_session,
}

-- The primary key of user_sessions.
abbrev pub Keyed : List SessionRow → Type 0
Keyed [] = Unit {0}
Keyed (r ∷ rows) = All (λ u. u.id ≢ r.id) rows × Keyed rows

abbrev replace : ℕ → ℕ → SessionRow → SessionRow
replace now new_id u = record u { revoked_at = some now; replaced_by = some new_id }

-- The row that a rotation presents is found again, marked.
find_replaced :
    (h : String) (now new_id : ℕ) (rows back : List SessionRow) (r : SessionRow)
    → find_row (has_hash h) rows ≡ some r
    → is_live r ≡ true
    → find_row
        (has_hash h)
        (update_rows (λ u. u.id == r.id && is_live u) (replace now new_id) (rows ++ back))
      ≡ some (replace now new_id r)
find_replaced h now new_id [] back r e l = cc
find_replaced h now new_id (u ∷ rows) back r e l = elim (Bool-cases (has_hash h u)) [
  | inl hit ↦
      let same : u ≡ r = ground arith in
      subst
        (λ v.
          find_row (has_hash h)
            (update_rows (λ w. w.id == r.id && is_live w) (replace now new_id) ((v ∷ rows) ++ back))
          ≡ some (replace now new_id r))
        (sym same) (ground arith)
  | inr miss ↦ ground (arith, find_replaced h now new_id rows back r)
]

module _ (hash : String → String) (now new_id : ℕ) (user old_refresh new_refresh agent : String)
    (expires_at : ℕ) (s : Accounts) where
  abbrev outcome : Accounts × RotateResult
  outcome = rotate_session hash now new_id user old_refresh new_refresh agent expires_at s

  abbrev fresh_row : SessionRow
  fresh_row = new_row new_id user (hash new_refresh) agent expires_at

  -- What a successful rotation has found, and what it leaves.
  pub record Rotates (r : SessionRow) : Type 0 where
    pub found : find_row (has_hash (hash old_refresh)) s.sessions ≡ some r
    pub owned : r.user_id ≡ user
    pub live : is_live r ≡ true
    pub in_time : now ≤ r.expires_at
    pub unused : any (has_hash (hash new_refresh)) s.sessions ≡ false
    pub written :
        outcome.0.sessions
        ≡ update_rows
            (λ u. u.id == r.id && is_live u)
            (replace now new_id)
            (s.sessions ++ fresh_row ∷ [])

  rotate_row-Rotates :
      (r : SessionRow)
      → find_row (has_hash (hash old_refresh)) s.sessions ≡ some r
      → outcome.1 ≡ rotated new_id
      → Rotates r
  unfolding rotate_session
  rotate_row-Rotates r found ok = record {
    found = found;
    owned = ground (arith, found, eq_iff r.user_id user);
    live = ground (arith, found);
    in_time = ground (arith, found);
    unused = ground (arith, found);
    written = ground (arith, found);
  }

  rotate_session-Rotates : outcome.1 ≡ rotated new_id → (r : SessionRow) × Rotates r
  unfolding rotate_session
  rotate_session-Rotates ok =
      elim (Option-cases (find_row (has_hash (hash old_refresh)) s.sessions)) [
        | inl none_found ↦ absurd (ground (arith, none_found))
        | inr (r, found) ↦ (r, rotate_row-Rotates r found ok)
      ]

pub none_live :
    (now : ℕ) (user : String) (rows : List SessionRow)
    → count_rows (is_live_of user) (update_rows (is_live_of user) (revoke_at now) rows) ≡ 0
none_live now user [] = refl
none_live now user (r ∷ rows) = elim (Bool-cases (is_live_of user r)) [
  | inl hit ↦ rw hit (ground (arith, none_live now user rows))
  | inr miss ↦ rw (miss, miss) (none_live now user rows)
]

rotate_session-reuse :
    (hash : String → String) (now new_id : ℕ) (user old_refresh new_refresh agent : String)
    (expires_at : ℕ) (s : Accounts) (r : SessionRow)
    → find_row (has_hash (hash old_refresh)) s.sessions ≡ some r
    → r.user_id ≡ user
    → is_set r.revoked_at ≡ true
    → is_set r.replaced_by ≡ true
    → rotate_session hash now new_id user old_refresh new_refresh agent expires_at s
      ≡ (record s { sessions = update_rows (is_live_of user) (revoke_at now) s.sessions }, reuse)
unfolding rotate_session
rotate_session-reuse hash now new_id user old_refresh new_refresh agent expires_at s r found owned
      gone replaced =
    rw (found, rotate_session) (ground (arith, eq_iff r.user_id user))

-- A refresh token is good for one use: after a successful rotation, presenting the same token again for the same user, at any time and with any new token, is refused as a reuse, and then no session of the user is live.
pub rotate_session_twice :
    (hash : String → String) (now later new_id next_id : ℕ)
    (user old_refresh new_refresh next_refresh agent next_agent : String)
    (expires_at next_expires_at : ℕ) (s : Accounts)
    → (rotate_session hash now new_id user old_refresh new_refresh agent expires_at s).1
      ≡ rotated new_id
    → let s' = (rotate_session hash now new_id user old_refresh new_refresh agent expires_at s).0 in
      let again =
        rotate_session hash later next_id user old_refresh next_refresh next_agent next_expires_at
          s' in
      (again.1 ≡ reuse) × (count_rows (is_live_of user) again.0.sessions ≡ 0)
rotate_session_twice hash now later new_id next_id user old_refresh new_refresh next_refresh agent
      next_agent expires_at next_expires_at s ok =
    let (r, done) =
      rotate_session-Rotates hash now new_id user old_refresh new_refresh agent expires_at s ok in
    let s' = (rotate_session hash now new_id user old_refresh new_refresh agent expires_at s).0 in
    let found : find_row (has_hash (hash old_refresh)) s'.sessions ≡ some (replace now new_id r) =
      rw done.written
        (find_replaced (hash old_refresh) now new_id s.sessions _ r done.found done.live) in
    rw
      (rotate_session-reuse hash later next_id user old_refresh next_refresh next_agent
        next_expires_at s' (replace now new_id r) found done.owned refl refl)
      (refl, none_live later user s'.sessions)

update_absent :
    (id : ℕ) (f : SessionRow → SessionRow) (rows : List SessionRow)
    → All (λ u. u.id ≢ id) rows
    → update_rows (λ u. u.id == id && is_live u) f rows ≡ rows
update_absent id f [] h = refl
update_absent id f (r ∷ rows) h = ground (arith, update_absent id f rows h.1)

count-append :
    (p : SessionRow → Bool) (rows back : List SessionRow)
    → count_rows p (rows ++ back) ≡ count_rows p rows + count_rows p back
count-append p [] back = omega arith
count-append p (r ∷ rows) back = ground (arith, count-append p rows back)

All-found :
    (P : SessionRow → Type 0) (p : SessionRow → Bool) (rows : List SessionRow) (r : SessionRow)
    → All P rows
    → find_row p rows ≡ some r
    → P r
All-found P p [] r h e = absurd (cc)
All-found P p (v ∷ rows) r h e = elim (Bool-cases (p v)) [
  | inl hit ↦ let same : v ≡ r = ground arith in subst P same h.0
  | inr miss ↦ All-found P p rows r h.1 (ground arith)
]

-- Exactly the presented session stops being live.
count-replaced :
    (h u : String) (now new_id : ℕ) (rows : List SessionRow) (r : SessionRow)
    → find_row (has_hash h) rows ≡ some r
    → is_live r ≡ true
    → Keyed rows
    → count_rows (is_live_of u) rows
      ≡ count_rows
          (is_live_of u)
          (update_rows (λ v. v.id == r.id && is_live v) (replace now new_id) rows)
        + (if r.user_id == u then 1 else 0)
count-replaced h u now new_id [] r e l k = absurd (cc)
count-replaced h u now new_id (v ∷ rows) r e l k = elim (Bool-cases (has_hash h v)) [
  | inl hit ↦
      let same : v ≡ r = ground arith in
      let absent : All (λ w. w.id ≢ r.id) rows =
        subst (λ x. All (λ w. w.id ≢ x.id) rows) same k.0 in
      rw (update_absent r.id (replace now new_id) rows absent) (ground arith)
  | inr miss ↦
      let rest : find_row (has_hash h) rows ≡ some r = ground arith in
      let differs : r.id ≢ v.id = All-found (λ w. w.id ≢ v.id) (has_hash h) rows r k.0 rest in
      ground (arith, differs, count-replaced h u now new_id rows r rest l k.1)
]

update-append :
    (p : SessionRow → Bool) (f : SessionRow → SessionRow) (rows back : List SessionRow)
    → update_rows p f (rows ++ back) ≡ update_rows p f rows ++ update_rows p f back
update-append p f [] back = refl
update-append p f (r ∷ rows) back =
    ap (λ l. (if p r then f r else r) ∷ l) (update-append p f rows back)

-- A successful rotation, with distinct session ids and a fresh id for the new one, leaves every user with as many live sessions as before: it moves a session on, and never adds one.
pub count-rotate_session :
    (hash : String → String) (now new_id : ℕ) (user old_refresh new_refresh agent u : String)
    (expires_at : ℕ) (s : Accounts)
    → Keyed s.sessions
    → All (λ v. v.id ≢ new_id) s.sessions
    → (rotate_session hash now new_id user old_refresh new_refresh agent expires_at s).1
      ≡ rotated new_id
    → let s' = (rotate_session hash now new_id user old_refresh new_refresh agent expires_at s).0 in
      count_rows (is_live_of u) s'.sessions ≡ count_rows (is_live_of u) s.sessions
count-rotate_session hash now new_id user old_refresh new_refresh agent u expires_at s keyed fresh
      ok =
    let (r, done) =
      rotate_session-Rotates hash now new_id user old_refresh new_refresh agent expires_at s ok in
    let row = new_row new_id user (hash new_refresh) agent expires_at in
    let other : r.id ≢ new_id =
      All-found (λ v. v.id ≢ new_id) (has_hash (hash old_refresh)) s.sessions r fresh done.found in
    let f = replace now new_id in
    let p = λ (v : SessionRow). v.id == r.id && is_live v in
    rw
      (
        done.written,
        update-append p f s.sessions (row ∷ []),
        count-append (is_live_of u) (update_rows p f s.sessions) (update_rows p f (row ∷ [])),
      )
      (ground (
        arith,
        other,
        done.owned,
        count-replaced (hash old_refresh) u now new_id s.sessions r done.found done.live keyed,
      ))
