-- ===== src/Common/Float.antt =====
-- float64 as an interface: the operations that the program uses, with no law assumed of them, so
-- that what is proved holds for IEEE arithmetic with its rounding and its NaN (where `lt` and `le`
-- are both false).
use saucepan.Common.{ℕ, ◌+◌, ◌*◌, ◌/◌, ◌%◌, ◌^◌, Bool, false, nat_beq}
use saucepan.Common.Int.{ℤ, pos, negsuc, pos_part, neg_part, ltb_ℤ, leb_ℤ, ◌+ℤ◌, ◌-ℤ◌, ◌*ℤ◌, sub_ℕ}

pub record Float : Type 1 where
  pub F : Type 0
  pub lt : F → F → Bool
  pub le : F → F → Bool
  pub feq : F → F → Bool
  pub add : F → F → F
  pub sub : F → F → F
  pub mul : F → F → F
  pub div : F → F → F
  -- float64(n), and int(x)
  pub of_int : ℤ → F
  pub to_int : F → ℤ
  -- the literal n / 10^k
  pub lit : ℕ → ℕ → F

-- The functions of package math, and math.Pi.
pub record Math (fl : Float) : Type 0 where
  pub pi : fl.F
  pub sin : fl.F → fl.F
  pub cos : fl.F → fl.F
  pub asin : fl.F → fl.F
  pub sqrt : fl.F → fl.F
  pub log : fl.F → fl.F
  pub floor : fl.F → fl.F
  pub abs : fl.F → fl.F
  pub atan2 : fl.F → fl.F → fl.F
  pub fmod : fl.F → fl.F → fl.F
  pub is_nan : fl.F → Bool
  pub is_inf : fl.F → Bool

-- Thousandths: a concrete arithmetic to evaluate examples with.
abbrev quot : ℤ → ℕ → ℤ
quot (pos a) b = pos (a / b)
quot (negsuc a) b = sub_ℕ 0 ((a + 1) / b)

abbrev over : ℤ → ℤ → ℤ
over a (pos b) = quot a b
over a (negsuc b) = quot (pos 0 -ℤ a) (b + 1)

abbrev pub milli : Float
milli = record {
  F = ℤ;
  lt = ltb_ℤ;
  le = leb_ℤ;
  feq = λ a b. nat_beq (pos_part a + neg_part b) (pos_part b + neg_part a);
  add = ◌+ℤ◌;
  sub = ◌-ℤ◌;
  mul = λ a b. quot (a *ℤ b) 1000;
  div = λ a b. over (a *ℤ pos 1000) b;
  of_int = λ n. n *ℤ pos 1000;
  to_int = λ x. quot x 1000;
  lit = λ n k. pos (n * 1000 / 10 ^ k);
}

-- The circular functions are those of a flat sky, the root and the logarithm are left out.
abbrev pub milli_math : Math milli
milli_math = record {
  pi = pos 3142;
  sin = λ x. x;
  cos = λ x. pos 1000;
  asin = λ x. x;
  sqrt = λ x. x;
  log = λ x. x;
  floor = λ x. quot x 1000 *ℤ pos 1000;
  abs = λ x. pos (pos_part x + neg_part x);
  atan2 = λ y x. y;
  fmod = λ x y. pos (pos_part x % pos_part y);
  is_nan = λ x. false;
  is_inf = λ x. false;
}
