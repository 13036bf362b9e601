-- ===== src/Engine/Sorter.antt =====
-- logic/sorter.py: by date, and within an instant the larger quantity first.
use portfolio_analytics_syst.Prelude.{
  ℕ, filter, Bool, true, false, ◌&&◌, ◌||◌, List, ◌++◌, ◌≡◌, arith, ltb, ◌==◌,
}
use portfolio_analytics_syst.Prelude.Int.{ℤ, leb_ℤ}
use portfolio_analytics_syst.Prelude.Sorting.{
  sort_by, IsSorted, sort_by-IsSorted, sort_by-perm, sort_by_stable,
}
use mathlib.Core.List.{Perm}
use portfolio_analytics_syst.Engine.Model.{Transaction}

-- The order of the keys `(transaction_date, -quantity)`.
unfoldable pub comes_before : Transaction → Transaction → Bool
comes_before s t =
    ltb s.transaction_date t.transaction_date
    || (s.transaction_date == t.transaction_date) && leb_ℤ t.quantity s.quantity

unfoldable pub sort_transactions : List Transaction → List Transaction → List Transaction
sort_transactions existing new = sort_by comes_before (existing ++ new)

pub comes_before_total : (s t : Transaction) → comes_before s t ≡ false → comes_before t s ≡ true
unfolding comes_before
comes_before_total s t h = ground arith

pub comes_before_trans :
    (s t u : Transaction)
    → comes_before s t ≡ true
    → comes_before t u ≡ true
    → comes_before s u ≡ true
unfolding comes_before
comes_before_trans s t u h k = ground arith

-- Has this sorting key.
abbrev pub has_key : ℕ → ℤ → Transaction → Bool
has_key date quantity t =
    (t.transaction_date == date) && leb_ℤ t.quantity quantity && leb_ℤ quantity t.quantity

-- The sorted history is in order of date, and within an instant the larger quantity stands first;
-- it holds exactly the transactions of both lists, and those of one date and quantity keep the
-- order of arrival.
pub sort_transactions-IsSorted :
    (existing new : List Transaction)
    → IsSorted comes_before (sort_transactions existing new)
      × Perm (sort_transactions existing new) (existing ++ new)
      × ((date : ℕ) (quantity : ℤ)
          → filter (has_key date quantity) (sort_transactions existing new)
            ≡ filter (has_key date quantity) (existing ++ new))
unfolding sort_transactions
sort_transactions-IsSorted existing new = (
  sort_by-IsSorted comes_before comes_before_total comes_before_trans (existing ++ new),
  sort_by-perm comes_before (existing ++ new),
  λ date quantity.
      sort_by_stable comes_before (has_key date quantity) (same_key date quantity)
        (existing ++ new),
)
  where
    same_key :
        (date : ℕ) (quantity : ℤ) (s t : Transaction)
        → has_key date quantity s ≡ true
        → has_key date quantity t ≡ true
        → comes_before s t ≡ true
    same_key date quantity s t h k = unfold comes_before in ground arith
