-- ===== src/Prelude/Lists.antt =====
-- Lists measured by native numbers, and predicates over lists by recursion.
use Prim.Native.Nat.{ℕ, zero, suc, ◌+◌, ◌≤◌}
use mathlib.Core.Path.{◌≡◌, refl, ap}
use mathlib.Core.Bool.{Bool, true, false}
use mathlib.Core.List.{List, [], ◌∷◌, ◌++◌, map}
use mathlib.Core.Option.{Option, none, some}
use native.Mathlib.Omega.{arith}
use mathlib.Core.Logic.{inl, inr}
use portfolio_analytics_syst.Prelude.Tests.{if◌then◌else◌, Bool-cases}

module _ {ℓ} {A : Type ℓ} where
  abbrev pub length : List A → ℕ
  length [] = 0
  length (x ∷ xs) = suc (length xs)

  -- `l[:n]`
  unfoldable pub take : ℕ → List A → List A
  take zero xs = []
  take (suc n) [] = []
  take (suc n) (x ∷ xs) = x ∷ take n xs

  -- `[x for x in l if p(x)]`
  unfoldable pub filter : (A → Bool) → List A → List A
  filter p [] = []
  filter p (x ∷ xs) = let rest = filter p xs in if p x then x ∷ rest else rest

  -- `sum(1 for x in l if p(x))`
  unfoldable pub count : (A → Bool) → List A → ℕ
  count p [] = 0
  count p (x ∷ xs) = (if p x then 1 else 0) + count p xs

  unfoldable pub head? : List A → Option A
  head? [] = none
  head? (x ∷ xs) = some x

  abbrev pub All {κ} : (A → Type κ) → List A → Type κ
  All P [] = Unit
  All P (x ∷ xs) = P x × All P xs

  pub length-append : (xs ys : List A) → length (xs ++ ys) ≡ length xs + length ys
  length-append [] ys = omega arith
  length-append (x ∷ xs) ys = omega (arith, length-append xs ys)

  pub All-append {κ} : (P : A → Type κ) (xs ys : List A) → All P xs → All P ys → All P (xs ++ ys)
  All-append P [] ys hx hy = hy
  All-append P (x ∷ xs) ys hx hy = (hx.0, All-append P xs ys hx.1 hy)

  pub length-take-le : (n : ℕ) (xs : List A) → length (take n xs) ≤ n
  unfolding take
  length-take-le zero xs = omega arith
  length-take-le (suc n) [] = omega arith
  length-take-le (suc n) (x ∷ xs) = omega (arith, length-take-le n xs)

  pub All-filter {κ} :
      (P : A → Type κ) (keep : A → Bool) (xs : List A) → All P xs → All P (filter keep xs)
  unfolding filter
  All-filter P keep [] h = tt
  All-filter P keep (x ∷ xs) (h, hs) = elim (Bool-cases (keep x)) [
    | inl e ↦ rw (e, filter) (h, All-filter P keep xs hs)
    | inr e ↦ rw (e, filter) (All-filter P keep xs hs)
  ]

  pub All-take {κ} : (P : A → Type κ) (n : ℕ) (xs : List A) → All P xs → All P (take n xs)
  unfolding take
  All-take P zero xs h = tt
  All-take P (suc n) [] h = tt
  All-take P (suc n) (x ∷ xs) h = (h.0, All-take P n xs h.1)

  pub All-drop {κ} : (P : A → Type κ) (xs ys : List A) → All P (xs ++ ys) → All P ys
  All-drop P [] ys h = h
  All-drop P (x ∷ xs) ys h = All-drop P xs ys h.1

  pub All-weaken {κ μ} :
      (P : A → Type κ) (Q : A → Type μ) (xs : List A) → ((x : A) → P x → Q x) → All P xs → All Q xs
  All-weaken P Q [] f h = tt
  All-weaken P Q (x ∷ xs) f (h, hs) = (f x h, All-weaken P Q xs f hs)

  pub filter-append :
      (keep : A → Bool) (xs ys : List A) → filter keep (xs ++ ys) ≡ filter keep xs ++ filter keep ys
  unfolding filter
  filter-append keep [] ys = refl
  filter-append keep (x ∷ xs) ys = ground (arith, filter-append keep xs ys)

  pub count-filter :
      (p keep : A → Bool) (xs : List A)
      → ((x : A) → p x ≡ true → keep x ≡ true)
      → count p (filter keep xs) ≡ count p xs
  unfolding count filter
  count-filter p keep [] h = refl
  count-filter p keep (x ∷ xs) h = ground (arith, h x, count-filter p keep xs h)

  pub length-filter : (p : A → Bool) (xs : List A) → length (filter p xs) ≡ count p xs
  unfolding count filter
  length-filter p [] = refl
  length-filter p (x ∷ xs) = ground (arith, length-filter p xs)

  -- What a filter keeps passes its test.
  pub All-filter_test : (keep : A → Bool) (xs : List A) → All (λ x. keep x ≡ true) (filter keep xs)
  unfolding filter
  All-filter_test keep [] = tt
  All-filter_test keep (x ∷ xs) = elim (Bool-cases (keep x)) [
    | inl e ↦ rw (e, filter) (e, All-filter_test keep xs)
    | inr e ↦ rw (e, filter) (All-filter_test keep xs)
  ]

  pub filter_every :
      (keep : A → Bool) (xs : List A) → All (λ x. keep x ≡ true) xs → filter keep xs ≡ xs
  unfolding filter
  filter_every keep [] h = refl
  filter_every keep (x ∷ xs) (h, hs) = ground (arith, h, filter_every keep xs hs)

  pub filter_nothing :
      (keep : A → Bool) (xs : List A) → All (λ x. keep x ≡ false) xs → filter keep xs ≡ []
  unfolding filter
  filter_nothing keep [] h = refl
  filter_nothing keep (x ∷ xs) (h, hs) = ground (arith, h, filter_nothing keep xs hs)

  -- A filter that a second one implies.
  pub filter-filter :
      (keep strong : A → Bool) (xs : List A)
      → ((x : A) → strong x ≡ true → keep x ≡ true)
      → filter strong (filter keep xs) ≡ filter strong xs
  unfolding filter
  filter-filter keep strong [] h = refl
  filter-filter keep strong (x ∷ xs) h = ground (arith, h x, filter-filter keep strong xs h)

module _ {ℓ κ} {A : Type ℓ} {B : Type κ} where
  pub All-map_of {μ} :
      (P : B → Type μ) (f : A → B) (xs : List A) → All (λ x. P (f x)) xs → All P (map f xs)
  All-map_of P f [] h = tt
  All-map_of P f (x ∷ xs) h = (h.0, All-map_of P f xs h.1)

  pub map-append_lem : (f : A → B) (xs ys : List A) → map f (xs ++ ys) ≡ map f xs ++ map f ys
  map-append_lem f [] ys = refl
  map-append_lem f (x ∷ xs) ys = ap (λ l. f x ∷ l) (map-append_lem f xs ys)
