-- ===== src/TransactionDomain/Linkage.antt =====
-- sell_linkage.py: the linkage and policy metadata of a SELL event.
use portfolio_analytics_syst.Prelude.{
  String, Bool, false, not, Option, none, some, [], ◌∷◌, concat, str_eq, upper, or_text,
  if◌then◌else◌,
}
use portfolio_analytics_syst.Events.{TransactionEvent}
use portfolio_analytics_syst.TransactionDomain.Validation.{CanonicalTransaction}

abbrev is_avco : Option String → Bool
is_avco none = false
is_avco (some method) = str_eq method "AVCO"

abbrev pub resolved_policy_id : Option String → String
resolved_policy_id method = if is_avco method then "SELL_AVCO_POLICY" else "SELL_FIFO_POLICY"

abbrev pub generated_id : String → TransactionEvent → String
generated_id kind e = concat (kind ∷ "-SELL-" ∷ e.portfolio_id ∷ "-" ∷ e.transaction_id ∷ [])

abbrev pub with_metadata : Option String → TransactionEvent → TransactionEvent
with_metadata method e = record e {
  economic_event_id = some (or_text e.economic_event_id (generated_id "EVT" e));
  linked_transaction_group_id = some (or_text e.linked_transaction_group_id (generated_id "LTG" e));
  calculation_policy_id = some (or_text e.calculation_policy_id (resolved_policy_id method));
  calculation_policy_version = some (or_text e.calculation_policy_version "1.0.0");
}

unfoldable pub enrich_sell_transaction_metadata :
    Option String → TransactionEvent → TransactionEvent
unfolding or_text str_eq upper
enrich_sell_transaction_metadata cost_basis_method e =
    if not (str_eq (upper e.transaction_type) "SELL") then e else with_metadata cost_basis_method e

-- The canonical transaction of an event (`from_attributes`, further fields ignored).
abbrev pub canonical_of : TransactionEvent → CanonicalTransaction
canonical_of e = record {
  transaction_id = e.transaction_id;
  transaction_type = e.transaction_type;
  portfolio_id = e.portfolio_id;
  instrument_id = e.instrument_id;
  security_id = e.security_id;
  transaction_date = e.transaction_date;
  settlement_date = e.settlement_date;
  quantity = e.quantity;
  price = e.price;
  gross_transaction_amount = e.gross_transaction_amount;
  trade_fee = e.trade_fee;
  trade_currency = e.trade_currency;
  currency = e.currency;
  economic_event_id = e.economic_event_id;
  linked_transaction_group_id = e.linked_transaction_group_id;
  calculation_policy_id = e.calculation_policy_id;
  calculation_policy_version = e.calculation_policy_version;
}
