-- ===== src/Engine/Timeline.antt =====
-- The replay of a history: the books stay sound, and no transaction is dropped in silence.
use portfolio_analytics_syst.Prelude.{
  String, Bool, true, none, some, List, [], ◌∷◌, ◌++◌, map, ◌≡◌, ◌⊎◌, inl, inr, refl, arith,
  Bool-cases, All, All-append, All-filter, All-drop, filter, str_in, str_eq_iff, str_eq_self,
}
use portfolio_analytics_syst.Prelude.Sorting.{All-sort_by, All-of-sort_by}
use portfolio_analytics_syst.Decimal.{Arith, IsRounded}
use portfolio_analytics_syst.Engine.Model.{Transaction, InRange}
use portfolio_analytics_syst.Engine.Reporter.{Reporter, has_errors_for, has_errors_for-add_error}
use portfolio_analytics_syst.Engine.Strategies.{Run, Outcome}
use portfolio_analytics_syst.Engine.Disposition.{Books}
use portfolio_analytics_syst.Engine.Calculator.{calculate_transaction_costs}
use portfolio_analytics_syst.Engine.Sorter.{sort_transactions, comes_before}
use portfolio_analytics_syst.Engine.Processor.{
  Timeline, record_outcome, process_one, process_timeline, replay, is_valid,
}
use portfolio_analytics_syst.Engine.Invariant.{BooksAreSound}
use portfolio_analytics_syst.Engine.Soundness.{calculate_transaction_costs-BooksAreSound}
use portfolio_analytics_syst.Engine.Behaviour.{Extends, calculate_transaction_costs-Behaves}

abbrev pub ids : List Transaction → List String
ids = map (λ t. t.transaction_id)

-- The transaction went through, or the reporter has an error for it.
abbrev pub Handled : String → List Transaction → Reporter → Type 0
Handled tid processed errors =
    (str_in tid (ids processed) ≡ true) ⊎ (has_errors_for tid errors ≡ true)

str_in-append_left :
    (tid : String) (ts us : List Transaction)
    → str_in tid (ids ts) ≡ true
    → str_in tid (ids (ts ++ us)) ≡ true
unfolding str_in
str_in-append_left tid [] us h = cc
str_in-append_left tid (t ∷ ts) us h = ground (arith, str_in-append_left tid ts us)

str_in-append_last :
    (t : Transaction) (ts : List Transaction) → str_in t.transaction_id (ids (ts ++ t ∷ [])) ≡ true
unfolding str_in
str_in-append_last t [] = ground (arith, str_eq_self t.transaction_id)
str_in-append_last t (u ∷ ts) = ground (arith, str_in-append_last t ts)

str_in-filter :
    (keep : Transaction → Bool) (tid : String) (ts : List Transaction)
    → ((t : Transaction) → t.transaction_id ≡ tid → keep t ≡ true)
    → str_in tid (ids ts) ≡ true
    → str_in tid (ids (filter keep ts)) ≡ true
unfolding str_in filter
str_in-filter keep tid [] k h = h
str_in-filter keep tid (t ∷ ts) k h =
    ground (arith, str_in-filter keep tid ts k, k t, str_eq_iff tid t.transaction_id)

Extends-kept :
    (tid j : String) (old new : Reporter)
    → Extends tid old new
    → has_errors_for j old ≡ true
    → has_errors_for j new ≡ true
Extends-kept tid j old new (inl e) h = rw e h
Extends-kept tid j old new (inr (text, e)) h =
    rw e (ground (arith, has_errors_for-add_error j tid text old))

All-map {κ μ ν} :
    {P : Transaction → Type κ} {Q : Transaction → Type μ} {R : Transaction → Type ν}
    (ts : List Transaction)
    → ((t : Transaction) → P t → Q t → R t)
    → All P ts
    → All Q ts
    → All R ts
All-map [] f p q = tt
All-map (t ∷ ts) f p q = (f t p.0 q.0, All-map ts f p.1 q.1)

str_in-cons :
    (tid : String) (t : Transaction) (ts : List Transaction)
    → str_in tid (ids ts) ≡ true
    → str_in tid (ids (t ∷ ts)) ≡ true
unfolding str_in
str_in-cons tid t ts h = ground arith

own_ids_in :
    (ts us : List Transaction)
    → ((u : Transaction)
        → str_in u.transaction_id (ids ts) ≡ true
        → str_in u.transaction_id (ids us) ≡ true)
    → All (λ t. str_in t.transaction_id (ids us) ≡ true) ts
unfolding str_in
own_ids_in [] us f = tt
own_ids_in (t ∷ ts) us f = (
  f t (ground (arith, str_eq_self t.transaction_id)),
  own_ids_in ts us (λ u h. f u (str_in-cons u.transaction_id t ts h)),
)

own_ids : (ts : List Transaction) → All (λ t. str_in t.transaction_id (ids ts) ≡ true) ts
own_ids ts = own_ids_in ts ts (λ u h. h)

returned_or_error :
    (processed : List Transaction) (errors : Reporter) (new_ids : List String) (t : Transaction)
    → str_in t.transaction_id new_ids ≡ true
    → Handled t.transaction_id processed errors
    → Handled t.transaction_id (filter (λ u. str_in u.transaction_id new_ids) processed) errors
returned_or_error processed errors new_ids t known (inr h) = inr h
returned_or_error processed errors new_ids t known (inl h) = inl (
    str_in-filter (λ u. str_in u.transaction_id new_ids) t.transaction_id processed
      (λ u e. rw e known) h)

module _ ⦃a : Arith⦄ where
  -- One step, by what the calculation left.
  step-Handled :
      (processed : List Transaction) (t : Transaction) (o : Outcome)
      → o.1 ≡ none
      → o.0.txn.transaction_id ≡ t.transaction_id
      → Handled t.transaction_id (record_outcome processed t o).processed o.0.errors
  unfolding record_outcome
  step-Handled processed t (r, some text) n e = cc
  step-Handled processed t (r, none) n e =
      elim (Bool-cases (has_errors_for r.txn.transaction_id r.errors)) [
        | inl f ↦ inr (rw (← e) f)
        | inr f ↦ inl (rw (f, ← e) (str_in-append_last r.txn processed))
      ]

  step_keeps :
      (processed : List Transaction) (t : Transaction) (o : Outcome) (j : String)
      → o.1 ≡ none
      → str_in j (ids processed) ≡ true
      → str_in j (ids (record_outcome processed t o).processed) ≡ true
  unfolding record_outcome
  step_keeps processed t (r, some text) j n h = cc
  step_keeps processed t (r, none) j n h =
      elim (Bool-cases (has_errors_for r.txn.transaction_id r.errors)) [
        | inl f ↦ rw f h
        | inr f ↦ rw f (str_in-append_left j processed (r.txn ∷ []) h)
      ]

  step_errors :
      (processed : List Transaction) (t : Transaction) (o : Outcome)
      → o.1 ≡ none
      → ((record_outcome processed t o).errors ≡ o.0.errors)
        × ((record_outcome processed t o).books ≡ o.0.books)
  unfolding record_outcome
  step_errors processed t (r, some text) n = cc
  step_errors processed t (r, none) n = (refl, refl)

  abbrev run_of : Timeline → Transaction → Run
  run_of s t = record { txn = t; books = s.books; errors = s.errors }

  process_one-Handled :
      (s : Timeline) (t : Transaction)
      → Handled t.transaction_id (process_one s t).processed (process_one s t).errors
  unfolding process_one
  process_one-Handled s t =
      let o = calculate_transaction_costs (run_of s t) in
      let b = calculate_transaction_costs-Behaves (run_of s t) in
      rw (step_errors s.processed t o b.raises_nothing).0
        (step-Handled s.processed t o b.raises_nothing b.same_id)

  process_one-kept :
      (s : Timeline) (t : Transaction) (j : String)
      → Handled j s.processed s.errors
      → Handled j (process_one s t).processed (process_one s t).errors
  unfolding process_one
  process_one-kept s t j (inl h) =
      let o = calculate_transaction_costs (run_of s t) in
      let b = calculate_transaction_costs-Behaves (run_of s t) in
      inl (step_keeps s.processed t o j b.raises_nothing h)
  process_one-kept s t j (inr h) =
      let o = calculate_transaction_costs (run_of s t) in
      let b = calculate_transaction_costs-Behaves (run_of s t) in
      inr (
        rw (step_errors s.processed t o b.raises_nothing).0
          (Extends-kept t.transaction_id j s.errors o.0.errors b.errors h))

  process_timeline-kept :
      (ts : List Transaction) (s : Timeline) (j : String)
      → Handled j s.processed s.errors
      → let after = process_timeline ts s in Handled j after.processed after.errors
  unfolding process_timeline
  process_timeline-kept [] s j h = h
  process_timeline-kept (t ∷ ts) s j h =
      process_timeline-kept ts (process_one s t) j (process_one-kept s t j h)

  pub process_timeline-Handled :
      (ts : List Transaction) (s : Timeline)
      → let after = process_timeline ts s in
        All (λ t. Handled t.transaction_id after.processed after.errors) ts
  unfolding process_timeline
  process_timeline-Handled [] s = tt
  process_timeline-Handled (t ∷ ts) s = (
    process_timeline-kept ts (process_one s t) t.transaction_id (process_one-Handled s t),
    process_timeline-Handled ts (process_one s t),
  )

  module _ (laws : IsRounded a) where
    pub process_timeline-BooksAreSound :
        (ts : List Transaction) (s : Timeline)
        → All InRange ts
        → BooksAreSound s.books
        → BooksAreSound (process_timeline ts s).books
    unfolding process_timeline process_one
    process_timeline-BooksAreSound [] s i h = h
    process_timeline-BooksAreSound (t ∷ ts) s (i, is) h =
        let o = calculate_transaction_costs (run_of s t) in
        let b = calculate_transaction_costs-Behaves (run_of s t) in
        process_timeline-BooksAreSound ts (process_one s t) is (
          rw (step_errors s.processed t o b.raises_nothing).1
            (calculate_transaction_costs-BooksAreSound laws (run_of s t) i h))

    -- When rounding keeps signs, a replay of transactions whose fields are in their declared ranges
    -- leaves sound books if it starts from sound ones: no average holding is below zero, or an open FIFO lot has a positive quantity and
    -- costs per share that are not negative.
    pub replay-BooksAreSound :
        (books : Books) (errors : Reporter) (existing new : List Transaction)
        → All InRange existing
        → All InRange new
        → BooksAreSound books
        → BooksAreSound (replay books errors existing new).1.books
    unfolding replay sort_transactions
    replay-BooksAreSound books errors existing new i j h =
        let history = filter is_valid existing ++ filter is_valid new in
        process_timeline-BooksAreSound (sort_transactions [] history)
          (record { books = books; errors = errors; processed = [] })
          (All-sort_by comes_before InRange history (
            All-append InRange (filter is_valid existing) (filter is_valid new)
              (All-filter InRange is_valid existing i) (All-filter InRange is_valid new j)))
          h

  -- Every valid new transaction of a replay is returned, or has an error in the reporter.
  pub replay_accounts :
      (books : Books) (errors : Reporter) (existing new : List Transaction)
      → let (returned, after) = replay books errors existing new in
        All (λ t. Handled t.transaction_id returned after.errors) (filter is_valid new)
  unfolding replay sort_transactions
  replay_accounts books errors existing new =
      let start : Timeline = record { books = books; errors = errors; processed = [] } in
      let news = filter is_valid new in
      let history = filter is_valid existing ++ news in
      let after = process_timeline (sort_transactions [] history) start in
      All-map news
        (λ t known handled.
          returned_or_error after.processed after.errors (ids news) t known handled)
        (own_ids news)
        (All-drop (λ t. Handled t.transaction_id after.processed after.errors)
          (filter is_valid existing) news
          (All-of-sort_by comes_before (λ t. Handled t.transaction_id after.processed after.errors)
            history (process_timeline-Handled (sort_transactions [] history) start)))
