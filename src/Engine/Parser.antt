-- ===== src/Engine/Parser.antt =====
-- logic/parser.py. A raw transaction is a dict; its values, and the validation of a dict against the
-- fields of `Transaction`, are those of pydantic, which is not part of the repository.
use portfolio_analytics_syst.Prelude.{
  String, Option, none, some, List, [], ◌∷◌, concat, str_eq, if◌then◌else◌,
}
use portfolio_analytics_syst.Prelude.Int.{pos}
use portfolio_analytics_syst.Decimal.{Decimal}
use portfolio_analytics_syst.Engine.Model.{Transaction}
use portfolio_analytics_syst.Engine.Reporter.{Reporter, add_error}

-- What a validation ends in: a transaction, the located messages of a `ValidationError`, or the
-- type and the text of another exception.
pub data Validated : Type 0 where
  valid : Transaction → Validated
  invalid : List (String × String) → Validated
  failed : String → String → Validated

pub record Pydantic : Type 1 where
  -- a value of a raw dict
  pub Value : Type 0
  pub text : String → Value
  pub decimal : Decimal → Value
  pub as_text : Value → String
  pub validate : List (String × Value) → Validated

-- `"; ".join(f"{loc}: {msg}" …)`
join_messages : List (String × String) → String
join_messages [] = ""
join_messages ((loc, msg) ∷ []) = concat (loc ∷ ": " ∷ msg ∷ [])
join_messages ((loc, msg) ∷ more) = concat (loc ∷ ": " ∷ msg ∷ "; " ∷ join_messages more ∷ [])

module _ (p : Pydantic) where
  open p use {Value}

  abbrev pub Raw : Type 0
  Raw = List (String × Value)

  -- `raw.get(name, default)`
  unfoldable pub get : Raw → String → Value → Value
  get [] name default = default
  get ((n, v) ∷ raw) name default = if str_eq n name then v else get raw name default

  -- the keyword arguments of the stub
  unfoldable pub stub_fields : Raw → String → Raw
  unfolding get
  stub_fields raw error_reason =
      ("transaction_id", get raw "transaction_id" (p.text "UNKNOWN_ID"))
      ∷ ("portfolio_id", get raw "portfolio_id" (p.text "UNKNOWN"))
      ∷ ("instrument_id", get raw "instrument_id" (p.text "UNKNOWN"))
      ∷ ("security_id", get raw "security_id" (p.text "UNKNOWN"))
      ∷ ("transaction_type", get raw "transaction_type" (p.text "UNKNOWN"))
      ∷ ("transaction_date", get raw "transaction_date" (p.text "1970-01-01"))
      ∷ ("settlement_date", get raw "settlement_date" (p.text "1970-01-01"))
      ∷ ("quantity", get raw "quantity" (p.decimal (pos 0)))
      ∷ ("gross_transaction_amount", get raw "gross_transaction_amount" (p.decimal (pos 0)))
      ∷ ("trade_currency", get raw "trade_currency" (p.text "UNK"))
      ∷ ("portfolio_base_currency", get raw "portfolio_base_currency" (p.text "UNK"))
      ∷ ("error_reason", p.text error_reason)
      ∷ []

  -- The parsed transactions, or `none` when an exception leaves the parser: the stub is validated
  -- like any transaction.
  abbrev pub Parse : Type 0
  Parse = Option (List Transaction) × Reporter

  abbrev cons_parsed : Transaction → Parse → Parse
  cons_parsed t (none, errors) = (none, errors)
  cons_parsed t (some ts, errors) = (some (t ∷ ts), errors)

  abbrev reason_of : Validated → String
  reason_of (valid t) = ""
  reason_of (invalid messages) = concat ("Validation error: " ∷ join_messages messages ∷ [])
  reason_of (failed type message) =
      concat ("Unexpected parsing error: " ∷ type ∷ ": " ∷ message ∷ [])

  unfoldable pub parse_transactions : List Raw → Reporter → Parse
  unfolding stub_fields join_messages
  parse_transactions [] errors = (some [], errors)
  parse_transactions (raw ∷ rest) errors =
      let transaction_id =
        p.as_text (get raw "transaction_id" (p.text "UNKNOWN_ID_BEFORE_PARSE")) in
      let reason = reason_of (p.validate raw) in
      let reported = add_error transaction_id reason errors in
      let stub = p.validate (stub_fields raw reason) in
      let accepted = parse_transactions rest errors in
      let with_error = parse_transactions rest reported in
      elim (p.validate raw) [
        | valid t ↦ cons_parsed t accepted
        | _ ↦ elim stub [ valid s ↦ cons_parsed s with_error | _ ↦ (none, reported) ]
      ]
