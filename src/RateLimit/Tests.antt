-- ===== src/RateLimit/Tests.antt =====
-- Two failed logins of ann, one of bob between them, under a limit of 2.
use saucepan.Common.{
  ℕ, suc, ◌+◌, ◌≤◌, ◌<◌, min, String, ◌≡◌, refl, inl, false, List, [], ◌∷◌, arith, leb,
}
use saucepan.RateLimit.{is_limited, auth_login_fail_window}
use saucepan.RateLimit.Window.{Hit, let_through, hits_of, after_hits, let_through-window}
use saucepan.Common.{lookup}

abbrev at : String → ℕ → Hit
at key now = record { key = key; now = now; until = now }

abbrev later_hits : List Hit
later_hits = at "bob" 6 ∷ at "ann" 7 ∷ at "ann" 8 ∷ []

let_through-window_example :
    let buckets' = after_hits 2 auth_login_fail_window (at "ann" 5 ∷ later_hits) [] in
    (let_through 2 auth_login_fail_window "ann" (at "ann" 5 ∷ later_hits) []
      ≡ min (suc (hits_of 2 auth_login_fail_window "ann" later_hits)) 2)
    × (9 ≤ 5 + auth_login_fail_window
        → (is_limited "ann" 2 9 9 buckets').1
          ≡ leb 2 (suc (hits_of 2 auth_login_fail_window "ann" later_hits)))
    × (5 + auth_login_fail_window < 9 → (is_limited "ann" 2 9 9 buckets').1 ≡ false)
unfolding lookup
let_through-window_example =
    let_through-window 2 auth_login_fail_window (at "ann" 5) later_hits [] 9 9 (omega arith)
      (omega arith) (inl refl) ((λ _. omega arith), ((λ _. omega arith), ((λ _. omega arith), tt)))
