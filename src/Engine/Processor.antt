-- ===== src/Engine/Processor.antt =====
-- engine/transaction_processor.py: the whole history is parsed, sorted and replayed.
use portfolio_analytics_syst.Prelude.{
  Bool, not, Option, none, some, List, [], ◌∷◌, ◌++◌, map, filter, concat, str_in, present,
  if◌then◌else◌,
}
use portfolio_analytics_syst.Decimal.{Arith}
use portfolio_analytics_syst.Engine.Model.{Transaction}
use portfolio_analytics_syst.Engine.Reporter.{Reporter, add_error, has_errors_for, clear}
use portfolio_analytics_syst.Engine.Disposition.{Books}
use portfolio_analytics_syst.Engine.Strategies.{Outcome}
use portfolio_analytics_syst.Engine.Calculator.{calculate_transaction_costs}
use portfolio_analytics_syst.Engine.Sorter.{sort_transactions}
use portfolio_analytics_syst.Engine.Parser.{Pydantic, Raw, parse_transactions}

-- The books and the reporter after a step, and the transactions that went through, in order.
pub record Timeline : Type 0 where
  pub books : Books
  pub errors : Reporter
  pub processed : List Transaction

module _ ⦃a : Arith⦄ where
  -- The end of a step: an exception is reported, and a transaction with no error is kept.
  unfoldable pub record_outcome : List Transaction → Transaction → Outcome → Timeline
  record_outcome processed t (r, some text) = record {
    books = r.books;
    errors = add_error r.txn.transaction_id (concat ("Unexpected error: " ∷ text ∷ [])) r.errors;
    processed = processed;
  }
  record_outcome processed t (r, none) = record {
    books = r.books;
    errors = r.errors;
    processed =
        if has_errors_for r.txn.transaction_id r.errors then processed else processed ++ r.txn ∷ [];
  }

  unfoldable pub process_one : Timeline → Transaction → Timeline
  unfolding record_outcome
  process_one s t =
      record_outcome s.processed t
        (calculate_transaction_costs (record { txn = t; books = s.books; errors = s.errors }))

  unfoldable pub process_timeline : List Transaction → Timeline → Timeline
  unfolding process_one
  process_timeline [] s = s
  process_timeline (t ∷ ts) s = process_timeline ts (process_one s t)

  -- `not txn.error_reason`
  abbrev pub is_valid : Transaction → Bool
  is_valid t = not (present t.error_reason)

  -- Steps 2 to 4, on the parsed transactions.
  unfoldable pub replay :
      Books → Reporter → List Transaction → List Transaction → List Transaction × Timeline
  unfolding process_timeline
  replay books errors parsed_existing parsed_new =
      let new_ids = map (λ (t : Transaction). t.transaction_id) (filter is_valid parsed_new) in
      let history = filter is_valid parsed_existing ++ filter is_valid parsed_new in
      let end_state =
        process_timeline (sort_transactions [] history)
          (record { books = books; errors = errors; processed = [] }) in
      (filter (λ t. str_in t.transaction_id new_ids) end_state.processed, end_state)

  abbrev parse_new :
      (p : Pydantic)
      → Books
      → List (Raw p)
      → Option (List Transaction) × Reporter
      → Option (List Transaction × Timeline)
  parse_new p books new (none, errors) = none
  parse_new p books new (some existing, errors) =
      let (parsed, errors') = parse_transactions p new errors in
      elim parsed [ none ↦ none | some ts ↦ some (replay books errors' existing ts) ]

  -- `none` when an exception leaves the parser. The errors are `get_errors` of the end state.
  unfoldable pub process_transactions :
      (p : Pydantic)
      → Books
      → (existing_raw new_raw : List (Raw p)) → Option (List Transaction × Timeline)
  process_transactions p books existing_raw new_raw =
      parse_new p books new_raw (parse_transactions p existing_raw clear)
