-- ===== src/TransactionDomain/Tests.antt =====
-- The theorems on canonical transactions, at a sale that lacks its metadata.
use portfolio_analytics_syst.Prelude.{true, false, none, some, [], ◌≡◌, ◌≢◌, ◌⊎◌, ◌↔◌, refl, upper}
use portfolio_analytics_syst.Prelude.Int.{pos}
use portfolio_analytics_syst.Events.{TransactionEvent}
use portfolio_analytics_syst.TransactionDomain.Validation.{
  sell, validate_transaction, validate_sell_transaction,
}
use portfolio_analytics_syst.TransactionDomain.Linkage.{
  enrich_sell_transaction_metadata, canonical_of,
}
use portfolio_analytics_syst.TransactionDomain.Rules.{
  IsCanonical, validate_transaction-IsCanonical, Ascending, validate_transaction-Ascending,
}
use portfolio_analytics_syst.TransactionDomain.Metadata.{
  Enriched, enrich_sell_transaction_metadata-Enriched, validate_sell_transaction-enriched,
  enrich_sell_transaction_metadata_twice,
}

abbrev sale : TransactionEvent
sale = record {
  transaction_id = "T";
  portfolio_id = "P";
  instrument_id = "I";
  security_id = "S";
  transaction_date = 10;
  transaction_type = "Sell";
  quantity = pos 5;
  price = pos 2;
  gross_transaction_amount = pos 10;
  trade_currency = "USD";
  currency = "USD";
  trade_fee = none;
  settlement_date = some 12;
  net_cost = none;
  gross_cost = none;
  realized_gain_loss = none;
  transaction_fx_rate = none;
  net_cost_local = none;
  realized_gain_loss_local = none;
  economic_event_id = some "E";
  linked_transaction_group_id = none;
  calculation_policy_id = none;
  calculation_policy_version = none;
  source_system = none;
  epoch = none;
}

sale_is_sell : upper sale.transaction_type ≡ "SELL"
unfolding upper
sale_is_sell = refl

validate_transaction-IsCanonical_example :
    (validate_transaction sell true (canonical_of sale) ≡ [])
    ↔ IsCanonical sell true (canonical_of sale)
validate_transaction-IsCanonical_example =
    validate_transaction-IsCanonical sell true (canonical_of sale)

ordered_issues : Ascending 0 (validate_transaction sell true (canonical_of sale)) 9
ordered_issues = validate_transaction-Ascending sell true (canonical_of sale)

enrich_sell_transaction_metadata-Enriched_example :
    let after = enrich_sell_transaction_metadata (some "AVCO") sale in
    (upper "Sell" ≡ "SELL") × Enriched sale after ⊎ (upper "Sell" ≢ "SELL") × (after ≡ sale)
enrich_sell_transaction_metadata-Enriched_example =
    enrich_sell_transaction_metadata-Enriched (some "AVCO") sale

valid_once_enriched :
    let t = canonical_of (enrich_sell_transaction_metadata none sale) in
    validate_sell_transaction true t ≡ validate_sell_transaction false t
valid_once_enriched = validate_sell_transaction-enriched none sale sale_is_sell

enriches_once :
    enrich_sell_transaction_metadata (some "AVCO") (enrich_sell_transaction_metadata none sale)
    ≡ enrich_sell_transaction_metadata none sale
enriches_once = enrich_sell_transaction_metadata_twice none (some "AVCO") sale
