-- ===== src/Prelude/Sums.antt =====
-- Sums over lists, as Python's `sum` reads: a plain recursion that starts from the right has the
-- same value, since the additions are exact.
use mathlib.Core.Path.{◌≡◌}
use mathlib.Core.List.{List, [], ◌∷◌, ◌++◌}
use portfolio_analytics_syst.Prelude.Int.{ℤ, pos, ◌+ℤ◌, ◌≤ℤ◌, int_laws}
use portfolio_analytics_syst.Prelude.Lists.{All}

module _ {ℓ} {A : Type ℓ} where
  -- `sum(f(x) for x in l)`
  unfoldable pub sum_by : (A → ℤ) → List A → ℤ
  sum_by f [] = pos 0
  sum_by f (x ∷ xs) = f x +ℤ sum_by f xs

  pub sum_by-append :
      (f : A → ℤ) (xs ys : List A) → sum_by f (xs ++ ys) ≡ sum_by f xs +ℤ sum_by f ys
  unfolding sum_by
  sum_by-append f [] ys = omega int_laws
  sum_by-append f (x ∷ xs) ys = rw (sum_by-append f xs ys) (omega int_laws)

  pub sum_by_nonneg : (f : A → ℤ) (xs : List A) → All (λ x. pos 0 ≤ℤ f x) xs → pos 0 ≤ℤ sum_by f xs
  unfolding sum_by
  sum_by_nonneg f [] h = omega int_laws
  sum_by_nonneg f (x ∷ xs) h = omega (int_laws, sum_by_nonneg f xs h.1, h.0)
