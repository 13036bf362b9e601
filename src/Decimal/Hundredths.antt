-- ===== src/Decimal/Hundredths.antt =====
-- An arithmetic in hundredths, rounded half away from zero: it shows that the laws can be met, and
-- serves the runs on concrete amounts.
use Prim.Native.Nat.{◌+◌, ◌*◌, ◌/◌}
use portfolio_analytics_syst.Prelude.{ℕ, suc, String, ◌≡◌, arith}
use portfolio_analytics_syst.Prelude.Int.{ℤ, pos, negsuc, sub_ℕ, ◌≤ℤ◌, ◌<ℤ◌}
use portfolio_analytics_syst.Decimal.{Arith, IsRounded}

abbrev magnitude : ℤ → ℕ
magnitude (pos n) = n
magnitude (negsuc n) = suc n

-- a magnitude with the sign of a product
abbrev signed : ℤ → ℤ → ℕ → ℤ
signed (pos a) (pos b) n = pos n
signed (pos a) (negsuc b) n = sub_ℕ 0 n
signed (negsuc a) (pos b) n = sub_ℕ 0 n
signed (negsuc a) (negsuc b) n = pos n

-- `x * y` is a number of ten-thousandths.
abbrev mul_hundredths : ℤ → ℤ → ℤ
mul_hundredths x y = signed x y ((magnitude x * magnitude y + 50) / 100)

abbrev div_hundredths : ℤ → ℤ → ℤ
div_hundredths x y = signed x y ((magnitude x * 200 + magnitude y) / (magnitude y * 2))

abbrev show_sign : ℤ → String
show_sign (pos n) = "0 or more"
show_sign (negsuc n) = "less than 0"

instance abbrev pub hundredths : Arith
hundredths = record { one = pos 100; mul = mul_hundredths; div = div_hundredths; show = show_sign }

mul_nonneg : (x y : ℤ) → pos 0 ≤ℤ x → pos 0 ≤ℤ y → pos 0 ≤ℤ mul_hundredths x y
mul_nonneg (pos a) (pos b) h k = omega arith
mul_nonneg (pos a) (negsuc b) h k = absurd (omega arith)
mul_nonneg (negsuc a) y h k = absurd (omega arith)

mul_zero : (x : ℤ) → mul_hundredths x (pos 0) ≡ pos 0
mul_zero (pos a) = ground arith
mul_zero (negsuc a) = ground arith

mul_one : (x : ℤ) → mul_hundredths x (pos 100) ≡ x
mul_one (pos a) = ground arith
mul_one (negsuc a) = ground arith

div_nonneg : (x y : ℤ) → pos 0 ≤ℤ x → pos 0 <ℤ y → pos 0 ≤ℤ div_hundredths x y
div_nonneg (pos a) (pos b) h k = omega arith
div_nonneg (pos a) (negsuc b) h k = absurd (omega arith)
div_nonneg (negsuc a) y h k = absurd (omega arith)

pub hundredths-IsRounded : IsRounded hundredths
hundredths-IsRounded = record {
  one_pos = omega arith;
  mul_nonneg = mul_nonneg;
  mul_zero = mul_zero;
  mul_one = mul_one;
  div_nonneg = div_nonneg;
}
