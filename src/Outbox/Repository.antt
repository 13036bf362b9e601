-- ===== src/Outbox/Repository.antt =====
-- portfolio_common/outbox_repository.py, and the table outbox_events.
use portfolio_analytics_syst.Prelude.{
  ℕ, suc, String, Option, none, List, [], ◌∷◌, ◌++◌, nonempty, if◌then◌else◌,
}
use portfolio_analytics_syst.Prelude.Results.{Result, ok, raised}

pub data OutboxStatus : Type 0 where
  pending processed : OutboxStatus

pub record OutboxEvent (P : Type 0) : Type 0 where
  pub id : ℕ
  pub aggregate_type : String
  pub aggregate_id : String
  pub event_type : String
  pub payload : P
  pub topic : String
  pub status : OutboxStatus
  pub correlation_id : Option String
  pub retry_count : ℕ
  pub last_attempted_at : Option ℕ
  pub created_at : ℕ
  pub processed_at : Option ℕ

-- The table, and the next value of its id sequence.
pub record Outbox (P : Type 0) : Type 0 where
  pub next_id : ℕ
  pub events : List (OutboxEvent P)

-- What a caller gives.
pub record NewEvent (P : Type 0) : Type 0 where
  pub aggregate_type : String
  pub aggregate_id : String
  pub event_type : String
  pub payload : P
  pub topic : String
  pub correlation_id : Option String

module _ {P : Type 0} where
  -- The row that is added.
  abbrev pub row_of : ℕ → ℕ → NewEvent P → OutboxEvent P
  row_of id now e = record {
    id = id;
    aggregate_type = e.aggregate_type;
    aggregate_id = e.aggregate_id;
    event_type = e.event_type;
    payload = e.payload;
    topic = e.topic;
    status = pending;
    correlation_id = e.correlation_id;
    retry_count = 0;
    last_attempted_at = none;
    created_at = now;
    processed_at = none;
  }

  abbrev pub add_row : ℕ → NewEvent P → Outbox P → Outbox P
  add_row now e o = record {
    next_id = suc o.next_id;
    events = o.events ++ row_of o.next_id now e ∷ [];
  }

  -- `clock id` is the time that is read when the row `id` is made.
  unfoldable pub create_outbox_event : (ℕ → ℕ) → NewEvent P → Outbox P → Result (Outbox P)
  create_outbox_event clock e o =
      if nonempty e.aggregate_id
      then ok (add_row (clock o.next_id) e o)
      else raised "aggregate_id (portfolio_id) is required for outbox events"
