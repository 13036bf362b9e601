-- ===== src/Prelude/Sorting.antt =====
-- `list.sort(key=…)`: a stable sort by a key order, and what Python documents of it. The order is
-- given by its Boolean test `le`, which must be total and transitive.
use Prim.Native.Nat.{ℕ, zero, suc}
use mathlib.Core.Path.{◌≡◌, refl}
use mathlib.Core.Logic.{inl, inr}
use mathlib.Core.Bool.{Bool, true, false}
use mathlib.Core.List.{List, [], ◌∷◌, Perm}
use mathlib.Core.List.Perm
use native.Mathlib.Omega.{arith}
use portfolio_analytics_syst.Prelude.Tests.{if◌then◌else◌, Bool-cases}
use portfolio_analytics_syst.Prelude.Lists.{All, All-take, count, filter, length, take}

module _ {ℓ} {A : Type ℓ} (le : A → A → Bool) where
  -- Puts `x` before the first element that it does not exceed, so equal keys keep their order when
  -- the list is built from its end.
  insert_sorted : A → List A → List A
  insert_sorted x [] = x ∷ []
  insert_sorted x (y ∷ ys) = if le x y then x ∷ y ∷ ys else y ∷ insert_sorted x ys

  unfoldable pub sort_by : List A → List A
  unfolding insert_sorted
  sort_by [] = []
  sort_by (x ∷ xs) = insert_sorted x (sort_by xs)

  -- Every element is at most each that follows.
  abbrev pub IsSorted : List A → Type 0
  IsSorted [] = Unit
  IsSorted (x ∷ xs) = All (λ y. le x y ≡ true) xs × IsSorted xs

module _ {ℓ} {A : Type ℓ} (le : A → A → Bool) where
  insert_sorted-perm : (x : A) (l : List A) → Perm (insert_sorted le x l) (x ∷ l)
  unfolding insert_sorted
  insert_sorted-perm x [] = Perm.rfl
  insert_sorted-perm x (y ∷ ys) = elim (Bool-cases (le x y)) [
    | inl e ↦ rw (e, insert_sorted) Perm.rfl
    | inr e ↦
        rw (e, insert_sorted)
          (Perm.trans (Perm.cons y (insert_sorted-perm x ys)) (Perm.swap x y ys))
  ]

  -- The sorted list is a rearrangement of the list.
  pub sort_by-perm : (l : List A) → Perm (sort_by le l) l
  unfolding sort_by
  sort_by-perm [] = Perm.rfl
  sort_by-perm (x ∷ xs) =
      Perm.trans (insert_sorted-perm x (sort_by le xs)) (Perm.cons x (sort_by-perm xs))

  All-insert_sorted {κ} :
      (P : A → Type κ) (x : A) (l : List A) → P x → All P l → All P (insert_sorted le x l)
  unfolding insert_sorted
  All-insert_sorted P x [] h k = (h, tt)
  All-insert_sorted P x (y ∷ ys) h (k, ks) = elim (Bool-cases (le x y)) [
    | inl e ↦ rw (e, insert_sorted) (h, (k, ks))
    | inr e ↦ rw (e, insert_sorted) (k, All-insert_sorted P x ys h ks)
  ]

  -- What holds of every element holds of every element of the sorted list.
  pub All-sort_by {κ} : (P : A → Type κ) (l : List A) → All P l → All P (sort_by le l)
  unfolding sort_by
  All-sort_by P [] h = tt
  All-sort_by P (x ∷ xs) h = All-insert_sorted P x (sort_by le xs) h.0 (All-sort_by P xs h.1)

  module _ (total : (x y : A) → le x y ≡ false → le y x ≡ true)
      (trans : (x y z : A) → le x y ≡ true → le y z ≡ true → le x z ≡ true) where
    below-All :
        (x y : A) (l : List A)
        → le x y ≡ true
        → All (λ z. le y z ≡ true) l
        → All (λ z. le x z ≡ true) l
    below-All x y [] h k = tt
    below-All x y (z ∷ l) h (k, ks) = (trans x y z h k, below-All x y l h ks)

    insert_sorted-IsSorted :
        (x : A) (l : List A) → IsSorted le l → IsSorted le (insert_sorted le x l)
    unfolding insert_sorted
    insert_sorted-IsSorted x [] s = (tt, tt)
    insert_sorted-IsSorted x (y ∷ ys) (b, s) = elim (Bool-cases (le x y)) [
      | inl e ↦ rw (e, insert_sorted) ((e, below-All x y ys e b), (b, s))
      | inr e ↦
          rw (e, insert_sorted)
            (
              All-insert_sorted (λ z. le y z ≡ true) x ys (total x y e) b,
              insert_sorted-IsSorted x ys s,
            )
    ]

    -- The sorted list is in ascending order.
    pub sort_by-IsSorted : (l : List A) → IsSorted le (sort_by le l)
    unfolding sort_by
    sort_by-IsSorted [] = tt
    sort_by-IsSorted (x ∷ xs) = insert_sorted-IsSorted x (sort_by le xs) (sort_by-IsSorted xs)

  module _ (same : A → Bool) (tie : (x y : A) → same x ≡ true → same y ≡ true → le x y ≡ true) where
    filter-insert_sorted :
        (x : A) (l : List A) → filter same (insert_sorted le x l) ≡ filter same (x ∷ l)
    unfolding insert_sorted filter
    filter-insert_sorted x [] = refl
    filter-insert_sorted x (y ∷ ys) = ground (arith, filter-insert_sorted x ys, tie x y)

    -- The elements of one key stand in the order that they had before.
    pub sort_by_stable : (l : List A) → filter same (sort_by le l) ≡ filter same l
    unfolding sort_by filter
    sort_by_stable [] = refl
    sort_by_stable (x ∷ xs) =
        ground (arith, filter-insert_sorted x (sort_by le xs), sort_by_stable xs)

  All-of-insert_sorted {κ} :
      (P : A → Type κ) (x : A) (l : List A) → All P (insert_sorted le x l) → P x × All P l
  unfolding insert_sorted
  All-of-insert_sorted P x [] h = h
  All-of-insert_sorted P x (y ∷ ys) h =
      (elim (le x y)
          as (λ b.
            All P (if b then x ∷ y ∷ ys else y ∷ insert_sorted le x ys) → P x × (P y × All P ys)) [
              | true ↦ λ k. k
              | false ↦ λ k. let (r, s) = All-of-insert_sorted P x ys k.1 in (r, (k.0, s))
            ])
        h

  -- What holds of every element of the sorted list holds of every element.
  pub All-of-sort_by {κ} : (P : A → Type κ) (l : List A) → All P (sort_by le l) → All P l
  unfolding sort_by
  All-of-sort_by P [] h = tt
  All-of-sort_by P (x ∷ xs) h =
      let (p, q) = All-of-insert_sorted P x (sort_by le xs) h in (p, All-of-sort_by P xs q)

  pub IsSorted-take : (n : ℕ) (l : List A) → IsSorted le l → IsSorted le (take n l)
  unfolding take
  IsSorted-take zero l s = tt
  IsSorted-take (suc n) [] s = tt
  IsSorted-take (suc n) (x ∷ xs) (h, s) =
      (All-take (λ y. le x y ≡ true) n xs h, IsSorted-take n xs s)

  count-insert_sorted :
      (p : A → Bool) (x : A) (l : List A) → count p (insert_sorted le x l) ≡ count p (x ∷ l)
  unfolding insert_sorted count
  count-insert_sorted p x [] = refl
  count-insert_sorted p x (y ∷ ys) = ground (arith, count-insert_sorted p x ys)

  -- Sorting keeps the number of elements that pass a test.
  pub count-sort_by : (p : A → Bool) (l : List A) → count p (sort_by le l) ≡ count p l
  unfolding sort_by count
  count-sort_by p [] = refl
  count-sort_by p (x ∷ xs) =
      ground (arith, count-insert_sorted p x (sort_by le xs), count-sort_by p xs)

  length-insert_sorted : (x : A) (l : List A) → length (insert_sorted le x l) ≡ suc (length l)
  unfolding insert_sorted
  length-insert_sorted x [] = refl
  length-insert_sorted x (y ∷ ys) = ground (arith, length-insert_sorted x ys)

  pub length-sort_by : (l : List A) → length (sort_by le l) ≡ length l
  unfolding sort_by
  length-sort_by [] = refl
  length-sort_by (x ∷ xs) =
      ground (arith, length-insert_sorted x (sort_by le xs), length-sort_by xs)
