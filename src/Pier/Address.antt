-- ===== src/Pier/Address.antt =====
-- SaucepanServer/task-server/shared/wire/piercode.go: where an artifact may come from.
use saucepan.Common.{
  ℕ, ◌/◌, ◌%◌, String, Bool, true, false, ◌&&◌, ◌||◌, not, Option, none, some, List, [], ◌∷◌, ◌==◌,
  nat_eq, string_eq, if◌then◌else◌, all, ◌≡◌, refl, In, inl, inr, Bool-cases, map, All, All-map,
  subst, ◌≢◌, ◌≤◌, ◌<◌, ◌⊎◌, arith,
}
use saucepan.Common.Text.{codes, to_lower}

-- A net.IP: the four bytes of an IPv4 address, mapped into IPv6 or not, or the sixteen of
-- another: the first two and the other fourteen.
pub data Ip : Type 0 where
  v4 : ℕ → ℕ → ℕ → ℕ → Ip
  v6 : ℕ → ℕ → List ℕ → Ip

abbrev is_one : List ℕ → Bool
is_one [] = false
is_one (a ∷ []) = a == 1
is_one (a ∷ rest) = a == 0 && is_one rest

-- The predicates of net.IP.
abbrev pub is_loopback : Ip → Bool
is_loopback (v4 a b c d) = a == 127
is_loopback (v6 a b rest) = a == 0 && b == 0 && is_one rest

abbrev pub is_private : Ip → Bool
is_private (v4 a b c d) = a == 10 || (a == 172 && b / 16 == 1 || a == 192 && b == 168)
is_private (v6 a b rest) = a / 2 == 126

abbrev pub is_link_local_unicast : Ip → Bool
is_link_local_unicast (v4 a b c d) = a == 169 && b == 254
is_link_local_unicast (v6 a b rest) = a == 254 && b / 64 == 2

abbrev pub is_link_local_multicast : Ip → Bool
is_link_local_multicast (v4 a b c d) = a == 224 && b == 0 && c == 0
is_link_local_multicast (v6 a b rest) = a == 255 && b % 16 == 2

abbrev pub is_unspecified : Ip → Bool
is_unspecified (v4 a b c d) = a == 0 && b == 0 && c == 0 && d == 0
is_unspecified (v6 a b rest) = a == 0 && b == 0 && all (λ x. x == 0) rest

abbrev pub is_multicast : Ip → Bool
is_multicast (v4 a b c d) = a / 16 == 14
is_multicast (v6 a b rest) = a == 255

unfoldable pub blocked_artifact_ip : Ip → Bool
blocked_artifact_ip ip =
    is_loopback ip
    || (is_private ip
        || (is_link_local_unicast ip
            || (is_link_local_multicast ip || (is_unspecified ip || is_multicast ip))))

-- A url.URL, with its Hostname() and what net.ParseIP makes of that.
pub record Url : Type 0 where
  pub scheme : String
  pub host : String
  pub has_user : Bool
  pub hostname : String
  pub ip : Option Ip

abbrev pub is_blocked : Option Ip → Bool
is_blocked none = false
is_blocked (some ip) = blocked_artifact_ip ip

-- strings.EqualFold with "localhost": the long s folds to an s.
abbrev fold : ℕ → ℕ
fold c = if c == 383 then b's' else to_lower c

abbrev codes_eq : List ℕ → List ℕ → Bool
codes_eq [] [] = true
codes_eq (x ∷ xs) (y ∷ ys) = x == y && codes_eq xs ys
codes_eq _ _ = false

abbrev pub equal_fold : String → String → Bool
equal_fold a b = codes_eq (map fold (codes a)) (map fold (codes b))

-- Whether the URL is accepted.
unfoldable pub parse_artifact_url : (String → Option Url) → String → Bool
unfolding blocked_artifact_ip
parse_artifact_url parse_request_uri raw = elim (parse_request_uri raw) [
  | none ↦ false
  | some u ↦
      if not (u.scheme == "https") || (u.host == "" || u.has_user)
      then false
      else if u.hostname == "" || equal_fold u.hostname "localhost"
      then false
      else not (is_blocked u.ip)
]

pub data Dial : Type 0 where
  connected : Ip → Dial
  private_address dial_failed : Dial

-- The loop of DialContext over the resolved addresses: those dialled, in order, and the result.
unfoldable pub dial_each : (Ip → Bool) → List Ip → List Ip × Dial
unfolding blocked_artifact_ip
dial_each answers [] = ([], dial_failed)
dial_each answers (ip ∷ ips) =
    let (tried, result) = dial_each answers ips in
    if blocked_artifact_ip ip
    then ([], private_address)
    else if answers ip
    then (ip ∷ [], connected ip)
    else (ip ∷ tried, result)

-- The fourteen last bytes of :: and of ::1.
abbrev pub zeros : List ℕ
zeros = 0 ∷ 0 ∷ 0 ∷ 0 ∷ 0 ∷ 0 ∷ 0 ∷ 0 ∷ 0 ∷ 0 ∷ 0 ∷ 0 ∷ 0 ∷ 0 ∷ []

abbrev pub zeros_one : List ℕ
zeros_one = 0 ∷ 0 ∷ 0 ∷ 0 ∷ 0 ∷ 0 ∷ 0 ∷ 0 ∷ 0 ∷ 0 ∷ 0 ∷ 0 ∷ 0 ∷ 1 ∷ []

-- Outside 127.0.0.0/8, 10.0.0.0/8, 172.16.0.0/12, 192.168.0.0/16, 169.254.0.0/16, 224.0.0.0/4 and
-- 0.0.0.0; outside ::, ::1, fc00::/7, fe80::/10 and ff00::/8.
abbrev pub IsOutside : Ip → Type 0
IsOutside (v4 a b c d) =
    (a ≢ 127)
    × (a ≢ 10)
    × (a ≡ 172 → (b < 16) ⊎ (31 < b))
    × (a ≡ 192 → b ≢ 168)
    × (a ≡ 169 → b ≢ 254)
    × ((a < 224) ⊎ (239 < a))
    × (a ≡ 0 → b ≡ 0 → c ≡ 0 → d ≢ 0)
IsOutside (v6 a b rest) =
    (a ≡ 0 → b ≡ 0 → (rest ≢ zeros) × (rest ≢ zeros_one))
    × ((a < 252) ⊎ (253 < a))
    × (a ≡ 254 → (b < 128) ⊎ (191 < b))
    × (a ≢ 255)

below_or_above : (n lo hi : ℕ) → ¬ ((lo ≤ n) × (n ≤ hi)) → (n < lo) ⊎ (hi < n)
below_or_above n lo hi h = ground arith

all-zeros : (rest : List ℕ) → rest ≡ zeros → all (λ x. x == 0) rest ≡ true
all-zeros rest e = rw e refl

is_one-zeros_one : (rest : List ℕ) → rest ≡ zeros_one → is_one rest ≡ true
is_one-zeros_one rest e = rw e refl

blocked-IsOutside : (ip : Ip) → blocked_artifact_ip ip ≡ false → IsOutside ip
unfolding blocked_artifact_ip
blocked-IsOutside (v4 a b c d) good = (
  λ e. ground arith,
  λ e. ground arith,
  λ e. below_or_above b 16 31 (λ h. ground arith),
  λ e e'. ground arith,
  λ e e'. ground arith,
  below_or_above a 224 239 (λ h. ground arith),
  λ i j k l. ground arith,
)
blocked-IsOutside (v6 a b rest) good = (
  λ e e'. (λ z. ground (arith, all-zeros rest z), λ z. ground (arith, is_one-zeros_one rest z)),
  below_or_above a 252 253 (λ h. ground arith),
  λ e. below_or_above b 128 191 (λ h. ground arith),
  λ e. ground arith,
)

-- Whatever addresses a name resolves to, and in whatever order: each that is dialled is one of them, and lies outside 127/8, 10/8, 172.16/12, 192.168/16, 169.254/16, 224/4 and 0.0.0.0 if it is an IPv4 address, mapped or not, and outside ::, ::1, fc00::/7, fe80::/10 and ff00::/8 otherwise; and a connection is to an address that was dialled and that answers.
pub dial_each-public :
    (answers : Ip → Bool) (ips : List Ip)
    → let (tried, result) = dial_each answers ips in
      All (λ ip. IsOutside ip × In ip ips) tried
      × ((ip : Ip) → result ≡ connected ip → In ip tried × (answers ip ≡ true))
unfolding dial_each
dial_each-public answers [] = (tt, λ ip e. absurd (cc))
dial_each-public answers (ip ∷ ips) =
    let (safe, ends) = dial_each-public answers ips in
    elim (Bool-cases (blocked_artifact_ip ip)) [
      | inl bad ↦ rw bad (tt, λ q e. absurd (cc))
      | inr good ↦ elim (Bool-cases (answers ip)) [
        | inl up ↦
            rw (good, up)
              (
                ((blocked-IsOutside ip good, inl refl), tt),
                λ q e.
                    let joined : connected ip ≡ connected q = e in
                    let same : ip ≡ q = cc in (inl same, subst (λ z. answers z ≡ true) same up),
              )
        | inr down ↦
            rw (good, down)
              (
                (
                  (blocked-IsOutside ip good, inl refl),
                  All-map _ _ (λ z h. (h.0, inr h.1)) (dial_each answers ips).0 safe,
                ),
                λ q e. (inr (ends q e).0, (ends q e).1),
              )
      ]
    ]
