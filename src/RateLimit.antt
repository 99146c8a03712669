-- ===== src/RateLimit.antt =====
-- SaucepanServer/task-server/cmd/apiserver/auth_rate_limit.go: the limits on logins,
-- registrations and refreshes, on the backend in memory.
pub mod Window
mod Tests
use saucepan.Common.{
  ℕ, suc, ◌+◌, ◌-◌, ◌*◌, ◌^◌, String, Bool, true, false, ◌&&◌, ◌||◌, not, Option, none, some, List,
  [], ◌∷◌, ltb, leb, ◌==◌, nat_eq, if◌then◌else◌, Mapping, lookup, insert,
}
use Prim.Native.String.{◌++◌ as join}

-- Durations and times in nanoseconds.
abbrev pub second : ℕ
second = 10 ^ 9

abbrev pub auth_login_fail_limit : ℕ
auth_login_fail_limit = 10

abbrev pub auth_login_fail_window : ℕ
auth_login_fail_window = 15 * 60 * second

abbrev pub auth_register_limit : ℕ
auth_register_limit = 5

abbrev pub auth_register_window : ℕ
auth_register_window = 3600 * second

abbrev pub auth_refresh_limit : ℕ
auth_refresh_limit = 60

abbrev pub auth_refresh_window : ℕ
auth_refresh_window = 3600 * second

-- strings.Join under the prefix
abbrev pub join_parts : List String → String
join_parts [] = ""
join_parts (part ∷ []) = part
join_parts (part ∷ parts) = join part (join ":" (join_parts parts))

abbrev pub auth_rate_limit_key : List String → String
auth_rate_limit_key parts = join "oa:ratelimit:auth:" (join_parts parts)

-- An `expires_at` of 0 is the zero time, of a bucket that is new.
pub record Bucket : Type 0 where
  pub count : ℕ
  pub expires_at : ℕ

abbrev pub new_bucket : Bucket
new_bucket = record { count = 0; expires_at = 0 }

abbrev pub or_new : Option Bucket → Bucket
or_new none = new_bucket
or_new (some b) = b

-- LoadOrStore: the bucket, and the map with it.
abbrev pub bucket : String → Mapping Bucket → Bucket
bucket key buckets = or_new (lookup key buckets)

-- `now` is the time under the lock, and `then` that of time.Until.
unfoldable pub count_hits : String → ℕ → ℕ → Mapping Bucket → Mapping Bucket × ℕ × ℕ
count_hits key now until buckets =
    let b = bucket key buckets in
    let stored = insert key b buckets in
    if not (b.expires_at == 0) && ltb b.expires_at now
    then (stored, 0, 0)
    else (stored, b.count, b.expires_at - until)

-- A bucket that is new or has lapsed starts again.
abbrev pub opened : ℕ → ℕ → Bucket → Bucket
opened window now b =
    if b.expires_at == 0 || ltb b.expires_at now
    then record { count = 0; expires_at = now + window }
    else b

abbrev pub hit : ℕ → ℕ → Bucket → Bucket
hit window now b = let o = opened window now b in record o { count = suc o.count }

unfoldable pub increment : String → ℕ → ℕ → ℕ → Mapping Bucket → Mapping Bucket × ℕ × ℕ
increment key window now until buckets =
    let b = hit window now (bucket key buckets) in
    (insert key b buckets, b.count, b.expires_at - until)

abbrev pub clamp_retry_after : ℕ → ℕ
clamp_retry_after d = if ltb d second then second else d

unfoldable pub is_limited : String → ℕ → ℕ → ℕ → Mapping Bucket → Mapping Bucket × Bool × ℕ
unfolding count_hits
is_limited key limit now until buckets =
    let (buckets', n, ttl) = count_hits key now until buckets in
    if leb limit n then (buckets', true, clamp_retry_after ttl) else (buckets', false, 0)

unfoldable pub record_hit : String → ℕ → ℕ → ℕ → ℕ → Mapping Bucket → Mapping Bucket × Bool × ℕ
unfolding increment
record_hit key limit window now until buckets =
    let (buckets', n, ttl) = increment key window now until buckets in
    if ltb limit n then (buckets', true, clamp_retry_after ttl) else (buckets', false, 0)
