-- ===== src/Decimal.antt =====
-- `decimal.Decimal`, as the services use it. A value is a whole number of smallest units, so that
-- sums, differences and comparisons are exact. Python's are while they have at most the 28 digits of
-- the default context; longer ones are not modelled. Products and quotients, which it rounds, and the
-- text of a number, are the operations of an instance.
pub mod Hundredths
use portfolio_analytics_syst.Prelude.{ℕ, ◌+◌, ◌*◌, ◌/◌, ◌≡◌, refl, String, arith}
use portfolio_analytics_syst.Prelude.Int.{
  ℤ, pos, negsuc, ◌*ℤ◌, ◌≤ℤ◌, ◌<ℤ◌, pos_part, neg_part, sub_ℕ, is_zero, int_laws,
}

abbrev pub Decimal : Type 0
Decimal = ℤ

pub record Arith : Type 0 where
  -- `Decimal(1)`
  pub one : ℤ
  pub mul : ℤ → ℤ → ℤ
  pub div : ℤ → ℤ → ℤ
  -- `str(d)`
  pub show : ℤ → String

-- What the decimal specification says of correctly rounded products and quotients: rounding keeps
-- the sign, and a product by 0 or by 1 is exact.
pub record IsRounded (a : Arith) : Type 0 where
  pub one_pos : pos 0 <ℤ a.one
  pub mul_nonneg : (x y : ℤ) → pos 0 ≤ℤ x → pos 0 ≤ℤ y → pos 0 ≤ℤ a.mul x y
  pub mul_zero : (x : ℤ) → a.mul x (pos 0) ≡ pos 0
  pub mul_one : (x : ℤ) → a.mul x a.one ≡ x
  pub div_nonneg : (x y : ℤ) → pos 0 ≤ℤ x → pos 0 <ℤ y → pos 0 ≤ℤ a.div x y
