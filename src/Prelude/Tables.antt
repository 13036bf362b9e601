-- ===== src/Prelude/Tables.antt =====
-- Statements on the rows of a table: `UPDATE … WHERE`, `INSERT … ON CONFLICT DO UPDATE` on a unique
-- key, and the first row of an ordered query.
use Prim.Native.Nat.{ℕ}
use mathlib.Core.Path.{◌≡◌, refl}
use mathlib.Core.Logic.{inl, inr}
use mathlib.Core.Bool.{Bool, true, false, ◌||◌}
use mathlib.Core.List.{List, [], ◌∷◌}
use mathlib.Core.Option.{Option, none, some}
use portfolio_analytics_syst.Prelude.Tests.{if◌then◌else◌, ◌==◌, Bool-cases}
use portfolio_analytics_syst.Prelude.Lists.{All, All-filter_test, All-weaken, filter, head?}
use portfolio_analytics_syst.Prelude.Sorting.{
  sort_by, sort_by-IsSorted, All-sort_by, All-of-sort_by, IsSorted,
}

unfoldable pub id_in : ℕ → List ℕ → Bool
id_in id [] = false
id_in id (i ∷ ids) = (id == i) || id_in id ids

false_not_true : false ≡ true → ⊥
false_not_true e = cc

not_true : (b : Bool) → ((b ≡ true) → ⊥) → b ≡ false
not_true true n = absurd (n refl)
not_true false n = refl

module _ {ℓ} {A : Type ℓ} where
  unfoldable pub update_rows : (A → Bool) → (A → A) → List A → List A
  update_rows test change [] = []
  update_rows test change (r ∷ rows) =
      (if test r then change r else r) ∷ update_rows test change rows

  -- The row that the key conflicts with is changed; without one, the new row is added.
  unfoldable pub upsert_row : (A → Bool) → (A → A) → A → List A → List A
  upsert_row same change new [] = new ∷ []
  upsert_row same change new (r ∷ rows) =
      if same r then change r ∷ rows else r ∷ upsert_row same change new rows

  unfoldable pub find_row : (A → Bool) → List A → Option A
  find_row test [] = none
  find_row test (r ∷ rows) = if test r then some r else find_row test rows

  abbrev pub or_new : (A → A) → A → Option A → A
  or_new change new none = new
  or_new change new (some r) = change r

  -- An upserted row is found again: the changed one, or the new one.
  pub find_row-upsert_row :
      (same : A → Bool) (change : A → A) (new : A) (rows : List A)
      → same new ≡ true
      → ((r : A) → same r ≡ true → same (change r) ≡ true)
      → find_row same (upsert_row same change new rows)
        ≡ some (or_new change new (find_row same rows))
  unfolding find_row upsert_row
  find_row-upsert_row same change new [] h k = rw (h) refl
  find_row-upsert_row same change new (r ∷ rows) h k = elim (Bool-cases (same r)) [
    | inl e ↦ rw (e, find_row, k r e) refl
    | inr e ↦ rw (e, find_row, e) (find_row-upsert_row same change new rows h k)
  ]

  -- A row of another key is found as before.
  pub find_row-upsert_other :
      (same other : A → Bool) (change : A → A) (new : A) (rows : List A)
      → other new ≡ false
      → ((r : A) → same r ≡ true → other r ≡ false)
      → ((r : A) → same r ≡ true → other (change r) ≡ false)
      → find_row other (upsert_row same change new rows) ≡ find_row other rows
  unfolding find_row upsert_row
  find_row-upsert_other same other change new [] h k c = rw (h) refl
  find_row-upsert_other same other change new (r ∷ rows) h k c = elim (Bool-cases (same r)) [
    | inl e ↦ rw (e, find_row, c r e, k r e) refl
    | inr e ↦ rw (e, find_row, find_row-upsert_other same other change new rows h k c) refl
  ]

  pub All-update_rows {κ} :
      (P : A → Type κ) (test : A → Bool) (change : A → A) (rows : List A)
      → ((r : A) → P r → P (change r))
      → All P rows
      → All P (update_rows test change rows)
  unfolding update_rows
  All-update_rows P test change [] c h = tt
  All-update_rows P test change (r ∷ rows) c (h, hs) = elim (Bool-cases (test r)) [
    | inl e ↦ rw (e, update_rows) (c r h, All-update_rows P test change rows c hs)
    | inr e ↦ rw (e, update_rows) (h, All-update_rows P test change rows c hs)
  ]

  -- What the changed rows and the others have.
  pub All-update_rows_cases {κ} :
      (P : A → Type κ) (test : A → Bool) (change : A → A) (rows : List A)
      → ((r : A) → test r ≡ true → P (change r))
      → ((r : A) → test r ≡ false → P r)
      → All P (update_rows test change rows)
  unfolding update_rows
  All-update_rows_cases P test change [] c k = tt
  All-update_rows_cases P test change (r ∷ rows) c k = elim (Bool-cases (test r)) [
    | inl e ↦ rw (e, update_rows) (c r e, All-update_rows_cases P test change rows c k)
    | inr e ↦ rw (e, update_rows) (k r e, All-update_rows_cases P test change rows c k)
  ]

  -- A filter that keeps no changed row keeps what it kept.
  pub filter-update_rows :
      (keep test : A → Bool) (change : A → A) (rows : List A)
      → ((r : A) → test r ≡ true → keep r ≡ false)
      → ((r : A) → test r ≡ true → keep (change r) ≡ false)
      → filter keep (update_rows test change rows) ≡ filter keep rows
  unfolding filter update_rows
  filter-update_rows keep test change [] h k = refl
  filter-update_rows keep test change (r ∷ rows) h k = elim (Bool-cases (test r)) [
    | inl e ↦
        rw (e, filter, update_rows, h r e, k r e) (filter-update_rows keep test change rows h k)
    | inr e ↦ rw (e, filter, update_rows, filter-update_rows keep test change rows h k) refl
  ]

  pub All-upsert_row {κ} :
      (P : A → Type κ) (same : A → Bool) (change : A → A) (new : A) (rows : List A)
      → P new
      → ((r : A) → P r → P (change r))
      → All P rows
      → All P (upsert_row same change new rows)
  unfolding upsert_row
  All-upsert_row P same change new [] n c h = (n, tt)
  All-upsert_row P same change new (r ∷ rows) n c (h, hs) = elim (Bool-cases (same r)) [
    | inl e ↦ rw (e, upsert_row) (c r h, hs)
    | inr e ↦ rw (e, upsert_row) (h, All-upsert_row P same change new rows n c hs)
  ]

  -- `ORDER BY … LIMIT 1` on the rows that pass the test.
  unfoldable pub first_by : (A → A → Bool) → (A → Bool) → List A → Option A
  unfolding sort_by filter head?
  first_by le test rows = head? (sort_by le (filter test rows))

  -- The first row passes the test and comes before all that pass it; none, when no row passes it.
  abbrev pub IsFirst : (A → A → Bool) → (A → Bool) → List A → Option A → Type 0
  IsFirst le test rows none = All (λ r. test r ≡ false) rows
  IsFirst le test rows (some r) =
      (test r ≡ true) × All (λ x. (test x ≡ true) → (le r x ≡ true)) rows

  All-of-filter :
      (P : A → Type 0) (test : A → Bool) (rows : List A)
      → All P (filter test rows)
      → All (λ r. (test r ≡ true) → P r) rows
  unfolding filter
  All-of-filter P test [] h = tt
  All-of-filter P test (r ∷ rows) h =
      (elim (test r)
          as (λ b.
            All P (if b then r ∷ filter test rows else filter test rows)
            → ((b ≡ true) → P r) × All (λ x. (test x ≡ true) → P x) rows) [
              | true ↦ λ k. (λ _. k.0, All-of-filter P test rows k.1)
              | false ↦ λ k. (λ e. absurd (false_not_true e), All-of-filter P test rows k)
            ])
        h

  module _ (le : A → A → Bool) (total : (x y : A) → le x y ≡ false → le y x ≡ true)
      (trans : (x y z : A) → le x y ≡ true → le y z ≡ true → le x z ≡ true) where
    le_self : (x : A) → le x x ≡ true
    le_self x = elim (Bool-cases (le x x)) [ inl e ↦ e | inr e ↦ total x x e ]

    head-IsFirst :
        (test : A → Bool) (rows sorted : List A)
        → All (λ x. test x ≡ true) sorted
        → IsSorted le sorted
        → ((P : A → Type 0) → All P sorted → All P (filter test rows))
        → IsFirst le test rows (head? sorted)
    unfolding head?
    head-IsFirst test rows [] h s back =
        All-weaken (λ x. (test x ≡ true) → ⊥) (λ x. test x ≡ false) rows
          (λ x n. not_true (test x) n) (All-of-filter (λ x. ⊥) test rows (back (λ x. ⊥) tt))
    head-IsFirst test rows (r ∷ rest) (h, hs) (s, ss) back =
        (h, All-of-filter (λ x. le r x ≡ true) test rows (back (λ x. le r x ≡ true) (le_self r, s)))

    -- The first row of an ordered query.
    pub first_by-IsFirst :
        (test : A → Bool) (rows : List A) → IsFirst le test rows (first_by le test rows)
    unfolding first_by
    first_by-IsFirst test rows =
        head-IsFirst test rows (sort_by le (filter test rows))
          (All-sort_by le (λ x. test x ≡ true) (filter test rows) (All-filter_test test rows))
          (sort_by-IsSorted le total trans (filter test rows))
          (λ P. All-of-sort_by le P (filter test rows))
