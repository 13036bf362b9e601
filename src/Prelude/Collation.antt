-- ===== src/Prelude/Collation.antt =====
-- The order in which the database sorts texts, and orders by several columns.
use Prim.Native.String.{String}
use mathlib.Core.Path.{◌≡◌}
use mathlib.Core.Bool.{Bool, true, false}
use portfolio_analytics_syst.Prelude.Tests.{if◌then◌else◌}

pub record Collation : Type 0 where
  pub leb : String → String → Bool

-- An order of texts is total and transitive.
pub record IsOrder (c : Collation) : Type 0 where
  pub total : (x y : String) → c.leb x y ≡ false → c.leb y x ≡ true
  pub trans : (x y z : String) → c.leb x y ≡ true → c.leb y z ≡ true → c.leb x z ≡ true

-- `ORDER BY first, rest`: `rest` decides where the first column is the same for both.
abbrev pub then_by : Bool → Bool → Bool → Bool
then_by forth back rest = if forth then (if back then rest else true) else false
