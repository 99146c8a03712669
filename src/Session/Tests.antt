-- ===== src/Session/Tests.antt =====
-- The session theorems at a user with two devices. The digest of a token is the token itself.
use saucepan.Common.{String, ◌≡◌, refl, true, false, none, some, [], ◌∷◌, Pairs, ◌&&◌}
use saucepan.Session.{
  SessionRow, Accounts, is_live, is_live_of, has_hash, count_rows, rotated, revoked, reuse,
  rotate_session, create_session, revoke_session_by_hash, update_password_and_revoke_sessions,
}
use saucepan.Session.Rotate.{rotate_session_twice}
use saucepan.Session.Revoke.{
  Verdict, IsRefusal, Revoked, rotate_session-Verdict, revoke_session_by_hash_verdict,
  update_password_and_revoke_sessions_ends,
}

abbrev digest : String → String
digest token = token

abbrev laptop : SessionRow
laptop = record {
  id = 1;
  user_id = "ann";
  token_hash = "t1";
  user_agent = none;
  expires_at = 1000;
  revoked_at = none;
  replaced_by = none;
}

abbrev phone : SessionRow
phone = record laptop { id = 2; token_hash = "t2" }

abbrev two_devices : Accounts
two_devices = record { sessions = laptop ∷ phone ∷ []; password_hashes = ("ann", "p") ∷ [] }

rotates : (rotate_session digest 10 3 "ann" "t1" "t3" "" 2000 two_devices).1 ≡ rotated 3
unfolding rotate_session
rotates = refl

created : (create_session digest 3 "ann" "t2" "" 2000 two_devices).1 ≡ none
unfolding create_session
created = refl

rotate_session_twice_example :
    let s = (rotate_session digest 10 3 "ann" "t1" "t3" "" 2000 two_devices).0 in
    let again = rotate_session digest 20 4 "ann" "t1" "t4" "" 2000 s in
    (again.1 ≡ reuse) × (count_rows (is_live_of "ann") again.0.sessions ≡ 0)
rotate_session_twice_example =
    rotate_session_twice digest 10 20 3 4 "ann" "t1" "t3" "t4" "" "" 2000 2000 two_devices rotates

rotate_session-Verdict_example :
    Verdict
      (some laptop)
      "ann"
      10
      3
      false
      (rotate_session digest 10 3 "ann" "t1" "t3" "" 2000 two_devices).1
    × (IsRefusal (rotate_session digest 10 3 "ann" "t1" "t3" "" 2000 two_devices).1
        → (rotate_session digest 10 3 "ann" "t1" "t3" "" 2000 two_devices).0 ≡ two_devices)
rotate_session-Verdict_example =
    rotate_session-Verdict digest 10 3 "ann" "t1" "t3" "" 2000 two_devices

revoke_session_by_hash_verdict_example :
    let s = (revoke_session_by_hash digest 10 "t1" two_devices).0 in
    ((revoke_session_by_hash digest 10 "t1" two_devices).1 ≡ true)
    × (rotate_session digest 20 3 "ann" "t1" "t3" "" 2000 s ≡ (s, revoked))
    × Pairs (Revoked (λ u. has_hash "t1" u && is_live u) 10) two_devices.sessions s.sessions
revoke_session_by_hash_verdict_example =
    revoke_session_by_hash_verdict digest 10 20 3 "ann" "t1" "t3" "" 2000 two_devices laptop refl
      refl refl refl

update_password_and_revoke_sessions_ends_example :
    let (s, ended) = update_password_and_revoke_sessions 10 "ann" "q" two_devices in
    (ended ≡ 2)
    × (count_rows (is_live_of "ann") s.sessions ≡ 0)
    × Pairs (Revoked (is_live_of "ann") 10) two_devices.sessions s.sessions
update_password_and_revoke_sessions_ends_example =
    update_password_and_revoke_sessions_ends 10 "ann" "q" two_devices
