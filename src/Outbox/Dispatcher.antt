-- ===== src/Outbox/Dispatcher.antt =====
-- portfolio_common/outbox_dispatcher.py: one batch. The broker is not part of the repository: a
-- record says what its client reports.
use portfolio_analytics_syst.Prelude.{
  ℕ, suc, String, Bool, true, false, ◌&&◌, ◌||◌, not, Option, none, some, List, [], ◌∷◌, map,
  filter, take, leb, ◌==◌, if◌then◌else◌,
}
use portfolio_analytics_syst.Prelude.Results.{Result, ok, raised}
use portfolio_analytics_syst.Prelude.Sorting.{sort_by}
use portfolio_analytics_syst.Outbox.Repository.{pending, processed, OutboxEvent, Outbox}

-- What the client and the database do during a batch.
pub record Broker (P : Type 0) : Type 0 where
  -- rows that another dispatcher has locked
  pub is_locked : ℕ → Bool
  -- the text of an exception of `publish_message`
  pub publish_error : OutboxEvent P → Option String
  -- the last delivery callback for the row, if there was one
  pub report : ℕ → Option Bool
  pub flush_raises : Bool

unfoldable pub id_in : ℕ → List ℕ → Bool
id_in id [] = false
id_in id (i ∷ ids) = (id == i) || id_in id ids

-- `ok`, or `not ok`, of an entry
abbrev pub acked_as : Bool → Option Bool → Bool
acked_as outcome none = false
acked_as outcome (some true) = outcome
acked_as outcome (some false) = not outcome

module _ {P : Type 0} where
  abbrev pub kept_or : Outbox P → Result (Outbox P) → Outbox P
  kept_or o (ok after) = after
  kept_or o (raised text) = o

  abbrev pub is_pending : OutboxEvent P → Bool
  is_pending e = elim e.status [ pending ↦ true | processed ↦ false ]

  abbrev pub created_before : OutboxEvent P → OutboxEvent P → Bool
  created_before a b = leb a.created_at b.created_at

  abbrev pub mark_processed : ℕ → OutboxEvent P → OutboxEvent P
  mark_processed now e = record e { status = processed; processed_at = some now }

  abbrev pub mark_retry : ℕ → OutboxEvent P → OutboxEvent P
  mark_retry now e = record e { retry_count = suc e.retry_count; last_attempted_at = some now }

  -- `UPDATE … WHERE id IN (…)`
  unfoldable pub update_ids :
      List ℕ → (OutboxEvent P → OutboxEvent P) → List (OutboxEvent P) → List (OutboxEvent P)
  unfolding id_in
  update_ids ids change [] = []
  update_ids ids change (e ∷ events) =
      (if id_in e.id ids then change e else e) ∷ update_ids ids change events

module _ {P : Type 0} (broker : Broker P) where
  -- `ORDER BY created_at`, rows locked elsewhere skipped, at most `batch_size`
  abbrev pub is_available : OutboxEvent P → Bool
  is_available e = is_pending e && not (broker.is_locked e.id)

  unfoldable pub events_to_process : ℕ → List (OutboxEvent P) → List (OutboxEvent P)
  unfolding take sort_by filter
  events_to_process batch_size events =
      take batch_size (sort_by created_before (filter is_available events))

  -- The entry of `delivery_ack` after the flush: an exception of the flush counts as a failure of
  -- each event without a report.
  unfoldable pub delivery_ack : ℕ → Option Bool
  delivery_ack id = elim (broker.report id) [
    | none ↦ if broker.flush_raises then some false else none
    | some delivered ↦ some delivered
  ]

  abbrev pub is_acked : Bool → ℕ → Bool
  is_acked outcome id = acked_as outcome (delivery_ack id)

  -- `success_ids` and `failure_ids`
  abbrev pub ids_with : Bool → List (OutboxEvent P) → List ℕ
  ids_with outcome batch = filter (is_acked outcome) (map (λ (e : OutboxEvent P). e.id) batch)

  unfoldable pub publish_all : List (OutboxEvent P) → Option String
  publish_all [] = none
  publish_all (e ∷ batch) =
      let rest = publish_all batch in
      elim (broker.publish_error e) [ none ↦ rest | some text ↦ some text ]

  abbrev pub settle_batch : ℕ → List (OutboxEvent P) → Outbox P → Option String → Result (Outbox P)
  settle_batch now batch o (some text) = raised text
  settle_batch now batch o none = ok (record o {
    events =
        update_ids (ids_with false batch) (mark_retry now)
          (update_ids (ids_with true batch) (mark_processed now) o.events);
  })

  -- One batch; an exception of `publish_message` rolls the batch back, and `run` logs it.
  unfoldable pub process_batch : ℕ → ℕ → Outbox P → Result (Outbox P)
  unfolding events_to_process update_ids publish_all filter delivery_ack
  process_batch batch_size now o =
      let batch = events_to_process batch_size o.events in
      settle_batch now batch o (publish_all batch)

  -- The outbox after a poll of `run`.
  unfoldable pub poll : ℕ → ℕ → Outbox P → Outbox P
  unfolding process_batch
  poll batch_size now o = kept_or o (process_batch batch_size now o)
