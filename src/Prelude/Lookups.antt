-- ===== src/Prelude/Lookups.antt =====
-- What a lookup finds after rows are added or updated.
use mathlib.Core.Path.{◌≡◌, refl, sym, ap, subst}
use mathlib.Core.Logic.{inl, inr}
use mathlib.Core.Bool.{Bool, true, false}
use mathlib.Core.List.{List, [], ◌∷◌, ◌++◌}
use mathlib.Core.Option.{Option, none, some}
use native.Mathlib.Omega.{arith}
use portfolio_analytics_syst.Prelude.Tests.{if◌then◌else◌, Bool-cases, get_or}
use portfolio_analytics_syst.Prelude.Tables.{find_row, update_rows}

-- A row that is found stays found in a longer table.
pub find_row-append {ℓ} :
    {A : Type ℓ} (test : A → Bool) (rows more : List A) (x : A)
    → find_row test rows ≡ some x
    → find_row test (rows ++ more) ≡ some x
unfolding find_row
find_row-append test [] more x h = cc
find_row-append test (r ∷ rows) more x h = elim (Bool-cases (test r)) [
  | inl e ↦ rw (e) (rw (sym h, e) refl)
  | inr e ↦ rw (e) (find_row-append test rows more x (ground (arith, h, e)))
]

changed_or-test {ℓ} :
    {A : Type ℓ} (test : A → Bool) (f : A → A) (r : A) (b : Bool)
    → ((r : A) → test (f r) ≡ test r)
    → test (if b then f r else r) ≡ test r
changed_or-test test f r true k = k r
changed_or-test test f r false k = refl

taken {ℓ} :
    {A : Type ℓ} (b : Bool) (r x : A) (rest : Option A)
    → b ≡ true
    → (if b then some r else rest) ≡ some x
    → r ≡ x
taken {A} true r x rest e h = ap (λ (o : Option A). get_or o r) h
taken false r x rest e h = cc

-- A row is found under its key after an update, with the change if it was to be changed.
pub find_row-update_rows {ℓ} :
    {A : Type ℓ} (test changed : A → Bool) (f : A → A) (rows : List A) (x : A)
    → ((r : A) → test (f r) ≡ test r)
    → find_row test rows ≡ some x
    → find_row test (update_rows changed f rows) ≡ some (if changed x then f x else x)
unfolding find_row update_rows
find_row-update_rows test changed f [] x k h = cc
find_row-update_rows {A} test changed f (r ∷ rows) x k h =
    let same = changed_or-test test f r (changed r) k in
    elim (Bool-cases (test r)) [
      | inl e ↦
          let here : r ≡ x = taken (test r) r x (find_row test rows) e h in
          rw (same, e)
            (subst
              (λ (z : A). some (if changed r then f r else r) ≡ some (if changed z then f z else z))
              here refl)
      | inr e ↦ rw (same, e) (find_row-update_rows test changed f rows x k (ground (arith, h, e)))
    ]

-- A row that is found passes the test.
pub find_row-test {ℓ} :
    {A : Type ℓ} (test : A → Bool) (rows : List A) (r : A)
    → find_row test rows ≡ some r
    → test r ≡ true
unfolding find_row
find_row-test test [] r h = cc
find_row-test test (x ∷ rows) r h = elim (Bool-cases (test x)) [
  | inl e ↦ grind (arith, h, e)
  | inr e ↦ find_row-test test rows r (ground (arith, h, e))
]

-- A row that is not in a table is looked up in what is added to it.
pub find_row-append_none {ℓ} :
    {A : Type ℓ} (test : A → Bool) (rows more : List A)
    → find_row test rows ≡ none
    → find_row test (rows ++ more) ≡ find_row test more
unfolding find_row
find_row-append_none test [] more h = refl
find_row-append_none test (r ∷ rows) more h = elim (Bool-cases (test r)) [
  | inl e ↦ ground (arith, h, e)
  | inr e ↦ rw (e) (find_row-append_none test rows more (ground (arith, h, e)))
]
