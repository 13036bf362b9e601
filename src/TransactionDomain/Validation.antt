-- ===== src/TransactionDomain/Validation.antt =====
-- buy_models.py, buy_reason_codes.py, buy_validation.py and their SELL counterparts, which differ in
-- the name of the side only.
use portfolio_analytics_syst.Prelude.{
  ℕ, String, Bool, false, ◌||◌, not, Option, none, some, List, [], ◌∷◌, ◌++◌, concat, str_eq, upper,
  nonempty, present, ltb, is_some, if◌then◌else◌,
}
use portfolio_analytics_syst.Prelude.Int.{pos, leb_ℤ}
use portfolio_analytics_syst.Decimal.{Decimal}

pub data Side : Type 0 where
  buy sell : Side

abbrev pub side_name : Side → String
side_name buy = "BUY"
side_name sell = "SELL"

pub record CanonicalTransaction : Type 0 where
  pub transaction_id : String
  pub transaction_type : String
  pub portfolio_id : String
  pub instrument_id : String
  pub security_id : String
  pub transaction_date : ℕ
  pub settlement_date : Option ℕ
  pub quantity : Decimal
  pub price : Decimal
  pub gross_transaction_amount : Decimal
  pub trade_fee : Option Decimal
  pub trade_currency : String
  pub currency : String
  pub economic_event_id : Option String
  pub linked_transaction_group_id : Option String
  pub calculation_policy_id : Option String
  pub calculation_policy_version : Option String

pub data ReasonCode : Type 0 where
  invalid_transaction_type missing_settlement_date non_positive_quantity : ReasonCode
  non_positive_gross_amount missing_trade_currency missing_book_currency : ReasonCode
  invalid_date_order missing_linkage_identifier missing_policy_metadata : ReasonCode

abbrev code_suffix : ReasonCode → String
code_suffix invalid_transaction_type = "_001_INVALID_TRANSACTION_TYPE"
code_suffix missing_settlement_date = "_002_MISSING_SETTLEMENT_DATE"
code_suffix non_positive_quantity = "_003_NON_POSITIVE_QUANTITY"
code_suffix non_positive_gross_amount = "_004_NON_POSITIVE_GROSS_AMOUNT"
code_suffix missing_trade_currency = "_005_MISSING_TRADE_CURRENCY"
code_suffix missing_book_currency = "_006_MISSING_BOOK_CURRENCY"
code_suffix invalid_date_order = "_007_INVALID_DATE_ORDER"
code_suffix missing_linkage_identifier = "_008_MISSING_LINKAGE_IDENTIFIER"
code_suffix missing_policy_metadata = "_009_MISSING_POLICY_METADATA"

abbrev pub code_value : Side → ReasonCode → String
code_value side code = concat (side_name side ∷ code_suffix code ∷ [])

pub record ValidationIssue : Type 0 where
  pub code : ReasonCode
  pub field : String
  pub message : String

abbrev issue : ReasonCode → String → String → ValidationIssue
issue code field message = record { code = code; field = field; message = message }

abbrev pub issue_if : Bool → ValidationIssue → List ValidationIssue
issue_if broken i = if broken then i ∷ [] else []

-- `txn.settlement_date is not None and txn.transaction_date > txn.settlement_date`
abbrev pub settled_before : Option ℕ → ℕ → Bool
settled_before none traded = false
settled_before (some settled) traded = ltb settled traded

abbrev pub lacks_linkage : CanonicalTransaction → Bool
lacks_linkage t = not (present t.economic_event_id) || not (present t.linked_transaction_group_id)

abbrev pub lacks_policy : CanonicalTransaction → Bool
lacks_policy t = not (present t.calculation_policy_id) || not (present t.calculation_policy_version)

-- The rules that hold in either mode, and those under `strict_metadata`.
unfoldable pub basic_issues : Side → CanonicalTransaction → List ValidationIssue
unfolding str_eq upper nonempty
basic_issues side t =
    issue_if (not (str_eq (upper t.transaction_type) (side_name side))) (
      issue invalid_transaction_type "transaction_type" (
        concat (
          "transaction_type must be "
          ∷ side_name side
          ∷ " for "
          ∷ side_name side
          ∷ " canonical validation."
          ∷ [])))
    ++ issue_if (not (is_some t.settlement_date)) (
        issue missing_settlement_date "settlement_date"
          (concat ("settlement_date is required for " ∷ side_name side ∷ "." ∷ [])))
    ++ issue_if (leb_ℤ t.quantity (pos 0)) (
        issue non_positive_quantity "quantity"
          (concat ("quantity must be greater than zero for " ∷ side_name side ∷ "." ∷ [])))
    ++ issue_if (leb_ℤ t.gross_transaction_amount (pos 0)) (
        issue non_positive_gross_amount "gross_transaction_amount" (
          concat (
            "gross_transaction_amount must be greater than zero for " ∷ side_name side ∷ "." ∷ [])))
    ++ issue_if (not (nonempty t.trade_currency))
        (issue missing_trade_currency "trade_currency" "trade_currency is required.")
    ++ issue_if (not (nonempty t.currency))
        (issue missing_book_currency "currency" "currency is required.")
    ++ issue_if (settled_before t.settlement_date t.transaction_date) (
        issue invalid_date_order "transaction_date"
          "transaction_date must be on or before settlement_date.")

unfoldable pub metadata_issues : CanonicalTransaction → List ValidationIssue
unfolding present
metadata_issues t =
    issue_if (lacks_linkage t) (
      issue missing_linkage_identifier "economic_event_id"
        "economic_event_id and linked_transaction_group_id are required under strict metadata validation.")
    ++ issue_if (lacks_policy t) (
        issue missing_policy_metadata "calculation_policy_id"
          "calculation_policy_id and calculation_policy_version are required under strict metadata validation.")

unfoldable pub validate_transaction : Side → Bool → CanonicalTransaction → List ValidationIssue
unfolding basic_issues metadata_issues
validate_transaction side strict_metadata t =
    basic_issues side t ++ (if strict_metadata then metadata_issues t else [])

abbrev pub validate_buy_transaction : Bool → CanonicalTransaction → List ValidationIssue
validate_buy_transaction = validate_transaction buy

abbrev pub validate_sell_transaction : Bool → CanonicalTransaction → List ValidationIssue
validate_sell_transaction = validate_transaction sell

join_issues : Side → List ValidationIssue → String
join_issues side [] = ""
join_issues side (i ∷ []) = concat (code_value side i.code ∷ ": " ∷ i.field ∷ [])
join_issues side (i ∷ more) =
    concat (code_value side i.code ∷ ": " ∷ i.field ∷ "; " ∷ join_issues side more ∷ [])

-- The message of `BuyValidationError` and `SellValidationError`.
unfoldable pub error_message : Side → List ValidationIssue → String
unfolding join_issues nonempty
error_message side issues =
    let message = join_issues side issues in
    if nonempty message then message else concat (side_name side ∷ " validation failed" ∷ [])
