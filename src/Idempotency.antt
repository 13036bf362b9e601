-- ===== src/Idempotency.antt =====
-- portfolio_common/idempotency_repository.py: the table processed_events, whose rows are unique by
-- the event and the service.
use portfolio_analytics_syst.Prelude.{
  String, Bool, true, false, ◌&&◌, ◌||◌, Option, List, [], ◌∷◌, ◌++◌, ◌≡◌, refl, str_eq,
  str_eq_self,
}
use native.Mathlib.Omega.{arith}

-- A message as the consumers read it. `event_id` is the text that its topic, partition and offset make.
pub record Delivery : Type 0 where
  pub event_id : String
  pub value : String
  pub correlation_id : Option String

pub record ProcessedEvent : Type 0 where
  pub event_id : String
  pub portfolio_id : String
  pub service_name : String
  pub correlation_id : Option String

abbrev is_event : String → String → ProcessedEvent → Bool
is_event event_id service_name e = str_eq e.event_id event_id && str_eq e.service_name service_name

unfoldable pub is_event_processed : String → String → List ProcessedEvent → Bool
is_event_processed event_id service_name [] = false
is_event_processed event_id service_name (e ∷ es) =
    is_event event_id service_name e || is_event_processed event_id service_name es

unfoldable pub mark_event_processed :
    String → String → String → Option String → List ProcessedEvent → List ProcessedEvent
mark_event_processed event_id portfolio_id service_name correlation_id es =
    es
    ++ record {
      event_id = event_id;
      portfolio_id = portfolio_id;
      service_name = service_name;
      correlation_id = correlation_id;
    }
      ∷ []

-- An event is processed once it is marked.
pub is_event_processed-marked :
    (event_id portfolio_id service_name : String) (correlation_id : Option String)
    (es : List ProcessedEvent)
    → is_event_processed event_id service_name
        (mark_event_processed event_id portfolio_id service_name correlation_id es)
      ≡ true
unfolding is_event_processed mark_event_processed
is_event_processed-marked i p s c [] = rw (str_eq_self i, str_eq_self s) refl
is_event_processed-marked i p s c (e ∷ es) = ground (arith, is_event_processed-marked i p s c es)
