-- ===== src/Prelude/Keys.antt =====
-- Pairs of identifiers, the keys that the services keep books, states and positions by.
use Prim.Native.String.{String}
use mathlib.Core.Path.{◌≡◌, refl, sym}
use mathlib.Core.Logic.{◌↔◌, ◌≢◌, ◌⊎◌, inl, inr}
use mathlib.Core.Bool.{Bool, true, false, ◌&&◌}
use native.Mathlib.Omega.{arith}
use portfolio_analytics_syst.Prelude.Text.{str_eq, str_eq_iff}
use portfolio_analytics_syst.Prelude.Tests.{if◌then◌else◌, Bool-cases}

-- A `defaultdict` is a total function.
abbrev pub Key : Type 0
Key = String × String

unfoldable pub key_eq : Key → Key → Bool
key_eq (p, i) (q, j) = str_eq p q && str_eq i j

pub key_eq_iff : (k j : Key) → (key_eq k j ≡ true) ↔ (k ≡ j)
unfolding key_eq
key_eq_iff (p, i) (q, j) = ground (arith, str_eq_iff p q, str_eq_iff i j)

pub key_eq_self : (k : Key) → key_eq k k ≡ true
key_eq_self k = (key_eq_iff k k).1 refl

-- `d[key] = value`
unfoldable pub update {ℓ} : {A : Type ℓ} → (Key → A) → Key → A → Key → A
update d key value j = if key_eq key j then value else d j

pub update-other {ℓ} :
    {A : Type ℓ} (d : Key → A) (key : Key) (value : A) (j : Key)
    → (j ≡ key) ⊎ (update d key value j ≡ d j)
unfolding update
update-other d key value j = elim (Bool-cases (key_eq key j)) [
  | inl e ↦ inl (sym ((key_eq_iff key j).0 e))
  | inr e ↦ inr (rw e refl)
]

-- What a key differs from is not it.
pub key_eq_other : (k j : Key) → k ≢ j → key_eq k j ≡ false
key_eq_other k j n = elim (Bool-cases (key_eq k j)) [
  | inl e ↦ absurd (n ((key_eq_iff k j).0 e))
  | inr e ↦ e
]
