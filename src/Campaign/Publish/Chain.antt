-- ===== src/Campaign/Publish/Chain.antt =====
-- Chains of steps that may fail with the status code of an HTTP answer.
use saucepan.Common.{ℕ, Bool, true, false, Option, none, some, nat_eq, string_eq}

-- A result, or the status code of the answer.
pub data Outcome (A : Type 0) : Type 0 where
  done : A → Outcome A
  fail : ℕ → Outcome A

infixl 5 ◌>>=◌ ◌>>◌
abbrev pub ◌>>=◌ : {A B : Type 0} → Outcome A → (A → Outcome B) → Outcome B
done a >>= f = f a
fail status >>= f = fail status

abbrev pub ◌>>◌ : {B : Type 0} → Outcome (Unit {0}) → Outcome B → Outcome B
m >> k = m >>= λ _. k

abbrev pub guard : Bool → ℕ → Outcome (Unit {0})
guard true status = done tt
guard false status = fail status

abbrev pub or_fail : {A : Type 0} → Option A → ℕ → Outcome A
or_fail none status = fail status
or_fail (some a) status = done a

abbrev pub none_or_fail : {E : Type 0} → Option E → ℕ → Outcome (Unit {0})
none_or_fail none status = done tt
none_or_fail (some e) status = fail status
