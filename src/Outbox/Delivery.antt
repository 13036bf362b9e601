-- ===== src/Outbox/Delivery.antt =====
-- What a batch does to each row: an event is marked processed only when its delivery is confirmed,
-- and no event is lost or changed otherwise.
use portfolio_analytics_syst.Prelude.{
  ℕ, ◌≤◌, String, Bool, true, false, ◌&&◌, Option, none, some, List, [], ◌∷◌, map, filter, length,
  length-take-le, ◌≡◌, refl, sym, All-take, ap, arith, All, All-filter_test, Bool-cases,
  Option-cases, inl, inr, if◌then◌else◌,
}
use portfolio_analytics_syst.Prelude.Results.{Result, ok, raised}
use portfolio_analytics_syst.Prelude.Sorting.{
  IsSorted, sort_by-IsSorted, All-sort_by, IsSorted-take,
}
use portfolio_analytics_syst.Outbox.Repository.{OutboxEvent, Outbox}
use portfolio_analytics_syst.Outbox.Dispatcher.{
  Broker, is_available, created_before, events_to_process, delivery_ack, is_acked, ids_with, id_in,
  acked_as, kept_or, mark_processed, mark_retry, update_ids, publish_all, settle_batch,
  process_batch, poll,
}

id_in-filter :
    (keep : ℕ → Bool) (id : ℕ) (ids : List ℕ)
    → id_in id (filter keep ids) ≡ (id_in id ids && keep id)
unfolding id_in filter
id_in-filter keep id [] = refl
id_in-filter keep id (i ∷ ids) = ground (arith, id_in-filter keep id ids)

module _ {P : Type 0} (broker : Broker P) where
  abbrev pub payloads_of : List (OutboxEvent P) → List P
  payloads_of = map (λ (e : OutboxEvent P). e.payload)

  abbrev ids_of : List (OutboxEvent P) → List ℕ
  ids_of = map (λ (e : OutboxEvent P). e.id)

  -- What becomes of a row, from the report of its delivery alone.
  abbrev pub outcome_of : List (OutboxEvent P) → ℕ → OutboxEvent P → OutboxEvent P
  outcome_of batch now e =
      if id_in e.id (ids_of batch)
      then elim (delivery_ack broker e.id) [
        | none ↦ e
        | some true ↦ mark_processed now e
        | some false ↦ mark_retry now e
      ]
      else e

  update_ids-map :
      (ids : List ℕ) (change : OutboxEvent P → OutboxEvent P) (events : List (OutboxEvent P))
      → update_ids ids change events ≡ map (λ e. if id_in e.id ids then change e else e) events
  unfolding update_ids
  update_ids-map ids change [] = refl
  update_ids-map ids change (e ∷ events) = rw (update_ids-map ids change events) refl

  -- The two updates of one row.
  abbrev updated_row : List (OutboxEvent P) → ℕ → OutboxEvent P → OutboxEvent P
  updated_row batch now e =
      let marked = if id_in e.id (ids_with broker true batch) then mark_processed now e else e in
      if id_in marked.id (ids_with broker false batch) then mark_retry now marked else marked

  updated_row-outcome_of :
      (batch : List (OutboxEvent P)) (now : ℕ) (e : OutboxEvent P)
      → updated_row batch now e ≡ outcome_of batch now e
  updated_row-outcome_of batch now e =
      let ids = ids_of batch in
      let acked = id_in-filter (is_acked broker true) e.id ids in
      let failed = id_in-filter (is_acked broker false) e.id ids in
      elim (Bool-cases (id_in e.id ids)) [
        | inr m ↦ rw (acked, m, failed, m) refl
        | inl m ↦ elim (Option-cases (delivery_ack broker e.id)) [
          | inl k ↦ rw (acked, m, ap (acked_as true) k, failed, m, ap (acked_as false) k, k) refl
          | inr (true, k) ↦
              rw (acked, m, ap (acked_as true) k, failed, m, ap (acked_as false) k, k) refl
          | inr (false, k) ↦
              rw (acked, m, ap (acked_as true) k, failed, m, ap (acked_as false) k, k) refl
        ]
      ]

  two_updates :
      (batch events : List (OutboxEvent P)) (now : ℕ)
      → update_ids
          (ids_with broker false batch)
          (mark_retry now)
          (update_ids (ids_with broker true batch) (mark_processed now) events)
        ≡ map (outcome_of batch now) events
  unfolding update_ids
  two_updates batch [] now = refl
  two_updates batch (e ∷ events) now =
      rw (two_updates batch events now, sym (updated_row-outcome_of batch now e)) refl

  -- Every event of a batch that is published without an exception was accepted by the client.
  publish_all-All :
      (batch : List (OutboxEvent P))
      → publish_all broker batch ≡ none
      → All (λ e. broker.publish_error e ≡ none) batch
  unfolding publish_all
  publish_all-All [] h = tt
  publish_all-All (e ∷ batch) h = elim (Option-cases (broker.publish_error e)) [
    | inl k ↦ (k, publish_all-All batch (ground (arith, h, k)))
    | inr (text, k) ↦ absurd (ground (arith, h, k))
  ]

  -- What a batch leads to: if the client accepts every event of it, each row as its delivery report
  -- says; and a failure, which rolls back, only if it refuses one.
  abbrev pub BatchOutcome : ℕ → ℕ → Outbox P → Result (Outbox P) → Type 0
  BatchOutcome batch_size now o (ok after) =
      All (λ e. broker.publish_error e ≡ none) (events_to_process broker batch_size o.events)
      × (after.next_id ≡ o.next_id)
      × (after.events
          ≡ map (outcome_of (events_to_process broker batch_size o.events) now) o.events)
  BatchOutcome batch_size now o (raised text) =
      publish_all broker (events_to_process broker batch_size o.events) ≡ some text

  settle_batch-BatchOutcome :
      (batch_size now : ℕ) (o : Outbox P) (error : Option String)
      → publish_all broker (events_to_process broker batch_size o.events) ≡ error
      → BatchOutcome batch_size now o
          (settle_batch broker now (events_to_process broker batch_size o.events) o error)
  settle_batch-BatchOutcome batch_size now o none h = (
    publish_all-All _ h,
    refl,
    two_updates (events_to_process broker batch_size o.events) o.events now,
  )
  settle_batch-BatchOutcome batch_size now o (some text) h = h

  pub process_batch-BatchOutcome :
      (batch_size now : ℕ) (o : Outbox P)
      → BatchOutcome batch_size now o (process_batch broker batch_size now o)
  unfolding process_batch
  process_batch-BatchOutcome batch_size now o = settle_batch-BatchOutcome batch_size now o _ refl

  outcome-payload :
      (batch : List (OutboxEvent P)) (now : ℕ) (e : OutboxEvent P)
      → (outcome_of batch now e).payload ≡ e.payload
  outcome-payload batch now e = elim (Bool-cases (id_in e.id (ids_of batch))) [
    | inr m ↦ rw m refl
    | inl m ↦ elim (Option-cases (delivery_ack broker e.id)) [
      | inl k ↦ rw (m, k) refl
      | inr (true, k) ↦ rw (m, k) refl
      | inr (false, k) ↦ rw (m, k) refl
    ]
  ]

  outcomes-payload :
      (batch events : List (OutboxEvent P)) (now : ℕ)
      → payloads_of (map (outcome_of batch now) events) ≡ payloads_of events
  outcomes-payload batch [] now = refl
  outcomes-payload batch (e ∷ events) now =
      rw (outcome-payload batch now e, outcomes-payload batch events now) refl

  kept_payloads :
      (batch_size now : ℕ) (o : Outbox P) (r : Result (Outbox P))
      → BatchOutcome batch_size now o r
      → payloads_of (kept_or o r).events ≡ payloads_of o.events
  kept_payloads batch_size now o (ok after) h =
      rw h.2 (outcomes-payload (events_to_process broker batch_size o.events) o.events now)
  kept_payloads batch_size now o (raised text) h = refl

  -- A poll loses no event and changes no payload, whatever the broker does.
  pub poll-payloads :
      (batch_size now : ℕ) (o : Outbox P)
      → payloads_of (poll broker batch_size now o).events ≡ payloads_of o.events
  unfolding poll
  poll-payloads batch_size now o =
      kept_payloads batch_size now o (process_batch broker batch_size now o)
        (process_batch-BatchOutcome batch_size now o)

  -- A batch holds at most `batch_size` events, all pending and not locked, the oldest first.
  pub events_to_process-IsSorted :
      (batch_size : ℕ) (events : List (OutboxEvent P))
      → let batch = events_to_process broker batch_size events in
        (length batch ≤ batch_size)
        × All (λ e. is_available broker e ≡ true) batch
        × IsSorted created_before batch
  unfolding events_to_process
  events_to_process-IsSorted batch_size events =
      let available = filter (is_available broker) events in
      (
        length-take-le batch_size _,
        All-take (λ e. is_available broker e ≡ true) batch_size _
            (All-sort_by created_before (λ e. is_available broker e ≡ true) available
              (All-filter_test (is_available broker) events)),
        IsSorted-take created_before batch_size _ (
            sort_by-IsSorted created_before (λ a b h. ground (arith, h))
              (λ a b c h k. ground (arith, h, k)) available),
      )
