-- ===== src/TransactionDomain/Metadata.antt =====
-- The metadata of a SELL event: generated once, complete, and enough for strict validation.
use portfolio_analytics_syst.Prelude.{
  String, true, false, Option, none, some, [], ◌∷◌, ◌≡◌, ◌≢◌, ◌⊎◌, refl, arith, inl, inr,
  Bool-cases, str_eq, str_eq_iff, upper, nonempty, nonempty-concat, present, or_text,
}
use portfolio_analytics_syst.Events.{TransactionEvent}
use portfolio_analytics_syst.TransactionDomain.Validation.{
  metadata_issues, validate_transaction, validate_sell_transaction,
}
use portfolio_analytics_syst.TransactionDomain.Linkage.{
  resolved_policy_id, generated_id, with_metadata, enrich_sell_transaction_metadata, canonical_of,
}

-- The value that was given, if it is not empty, and otherwise a value that is not empty.
abbrev pub FilledFrom : Option String → Option String → Type 0
FilledFrom given result = (present result ≡ true) × ((present given ≡ false) ⊎ (result ≡ given))

or_text-present :
    (given : Option String) (default : String)
    → nonempty default ≡ true
    → FilledFrom given (some (or_text given default))
unfolding present or_text
or_text-present none default h = (h, inl refl)
or_text-present (some s) default h = elim (Bool-cases (nonempty s)) [
  | inl e ↦ rw e (e, inr refl)
  | inr e ↦ rw e (h, inl refl)
]

resolved_nonempty : (method : Option String) → nonempty (resolved_policy_id method) ≡ true
unfolding nonempty
resolved_nonempty none = refl
resolved_nonempty (some m) = elim (Bool-cases (str_eq m "AVCO")) [
  | inl e ↦ rw e refl
  | inr e ↦ rw e refl
]

generated_nonempty :
    (kind : String) (e : TransactionEvent)
    → nonempty kind ≡ true
    → nonempty (generated_id kind e) ≡ true
generated_nonempty kind e h =
    nonempty-concat kind ("-SELL-" ∷ e.portfolio_id ∷ "-" ∷ e.transaction_id ∷ []) h

-- All four metadata fields are filled, and the other fields unchanged.
pub record Enriched (e after : TransactionEvent) : Type 0 where
  pub economic : FilledFrom e.economic_event_id after.economic_event_id
  pub linked : FilledFrom e.linked_transaction_group_id after.linked_transaction_group_id
  pub policy : FilledFrom e.calculation_policy_id after.calculation_policy_id
  pub version : FilledFrom e.calculation_policy_version after.calculation_policy_version
  pub others :
      record e {
        economic_event_id = none;
        linked_transaction_group_id = none;
        calculation_policy_id = none;
        calculation_policy_version = none;
      }
      ≡ record after {
        economic_event_id = none;
        linked_transaction_group_id = none;
        calculation_policy_id = none;
        calculation_policy_version = none;
      }

with_metadata-Enriched :
    (method : Option String) (e : TransactionEvent) → Enriched e (with_metadata method e)
with_metadata-Enriched method e = record {
  economic =
      or_text-present e.economic_event_id (generated_id "EVT" e)
        (generated_nonempty "EVT" e (unfold nonempty in refl));
  linked =
      or_text-present e.linked_transaction_group_id (generated_id "LTG" e)
        (generated_nonempty "LTG" e (unfold nonempty in refl));
  policy =
      or_text-present e.calculation_policy_id (resolved_policy_id method)
        (resolved_nonempty method);
  version = or_text-present e.calculation_policy_version "1.0.0" (unfold nonempty in refl);
  others = refl;
}

-- A SELL event is completed: each metadata field holds the upstream value where there is one and a
-- generated one otherwise, and no other field changes. An event of another type is left as it is.
pub enrich_sell_transaction_metadata-Enriched :
    (method : Option String) (e : TransactionEvent)
    → let after = enrich_sell_transaction_metadata method e in
      (upper e.transaction_type ≡ "SELL") × Enriched e after
      ⊎ (upper e.transaction_type ≢ "SELL") × (after ≡ e)
unfolding enrich_sell_transaction_metadata
enrich_sell_transaction_metadata-Enriched method e =
    let kind = upper e.transaction_type in
    elim (Bool-cases (str_eq kind "SELL")) [
      | inl h ↦ rw h (inl ((str_eq_iff kind "SELL").0 h, with_metadata-Enriched method e))
      | inr h ↦ rw h (inr (λ k. ground (arith, h, (str_eq_iff kind "SELL").1 k), refl))
    ]

complete_metadata :
    (e after : TransactionEvent) → Enriched e after → metadata_issues (canonical_of after) ≡ []
unfolding metadata_issues
complete_metadata e after r = rw (r.economic.0, r.linked.0, r.policy.0, r.version.0) refl

-- An enriched SELL event has no more issues under strict validation than under the basic one.
pub validate_sell_transaction-enriched :
    (method : Option String) (e : TransactionEvent)
    → upper e.transaction_type ≡ "SELL"
    → let t = canonical_of (enrich_sell_transaction_metadata method e) in
      validate_sell_transaction true t ≡ validate_sell_transaction false t
unfolding validate_transaction enrich_sell_transaction_metadata
validate_sell_transaction-enriched method e h =
    rw
      (
        (str_eq_iff (upper e.transaction_type) "SELL").1 h,
        complete_metadata e (with_metadata method e) (with_metadata-Enriched method e),
      )
      refl

filled_once :
    (given : Option String) (first second : String)
    → nonempty first ≡ true
    → or_text (some (or_text given first)) second ≡ or_text given first
unfolding or_text
filled_once none first second h = rw h refl
filled_once (some s) first second h = elim (Bool-cases (nonempty s)) [
  | inl e ↦ rw (e, e) refl
  | inr e ↦ rw (e, h) refl
]

-- Enrichment is idempotent: repeated, under the same method or another, it changes nothing more.
pub enrich_sell_transaction_metadata_twice :
    (method other : Option String) (e : TransactionEvent)
    → enrich_sell_transaction_metadata other (enrich_sell_transaction_metadata method e)
      ≡ enrich_sell_transaction_metadata method e
unfolding enrich_sell_transaction_metadata
enrich_sell_transaction_metadata_twice method other e =
    elim (Bool-cases (str_eq (upper e.transaction_type) "SELL")) [
      | inl h ↦
          rw
            (
              h,
              h,
              filled_once e.economic_event_id (generated_id "EVT" e) (generated_id "EVT" e)
                  (generated_nonempty "EVT" e (unfold nonempty in refl)),
              filled_once e.linked_transaction_group_id (generated_id "LTG" e)
                  (generated_id "LTG" e) (generated_nonempty "LTG" e (unfold nonempty in refl)),
              filled_once e.calculation_policy_id (resolved_policy_id method)
                  (resolved_policy_id other) (resolved_nonempty method),
              filled_once e.calculation_policy_version "1.0.0" "1.0.0" (unfold nonempty in refl),
            )
            refl
      | inr h ↦ rw (h, h) refl
    ]
