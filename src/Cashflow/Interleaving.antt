-- ===== src/Cashflow/Interleaving.antt =====
-- The tables of the cashflow consumer under any interleaving of its attempts, the dispatcher of the
-- outbox, restarts, and the services that write the other tables.
use portfolio_analytics_syst.Prelude.{
  ℕ, suc, String, false, Option, none, some, List, [], ◌∷◌, ◌++◌, map, map-append_lem, append-nil,
  ap, All, ◌≡◌, refl, ◌∙◌, inl, inr, Bool-cases, str_eq, str_eq_comm, arith, nonempty,
}
use portfolio_analytics_syst.Events.{TransactionEvent}
use portfolio_analytics_syst.Idempotency.{Delivery, ProcessedEvent, is_event_processed}
use portfolio_analytics_syst.Outbox.Repository.{OutboxEvent, Outbox, create_outbox_event}
use portfolio_analytics_syst.Outbox.Dispatcher.{Broker, poll}
use portfolio_analytics_syst.Outbox.Delivery.{poll-payloads}
use portfolio_analytics_syst.Positions.State.{PositionState}
use portfolio_analytics_syst.Cashflow.Logic.{CashflowRule, Cashflow, calculate}
use portfolio_analytics_syst.Cashflow.Consumer.{
  CashflowRow, CashflowCalculatedEvent, OutboxPayload, cashflow_calculated, of_other_service,
  Database, service_name, Attempt, committed, skipped, integrity_error, no_rule, unexpected,
  loaded_rules, has_cashflow, violates_constraint, create_cashflow, completion_of, outbox_entry,
  mark_and_commit, publish_and_commit, save_under_rule, process_event, Service, settle,
  attempt_decoded, attempt_message,
}
use portfolio_analytics_syst.Cashflow.Once.{
  is_current, fenced, rule_of, process_event_stale, process_event_marked, process_event_open,
}

-- No two rows of one transaction.
abbrev pub HasUniqueTransactions : List CashflowRow → Type 0
HasUniqueTransactions [] = Unit
HasUniqueTransactions (r ∷ rows) =
    (has_cashflow r.cashflow.transaction_id rows ≡ false) × HasUniqueTransactions rows

abbrev pub own_events : List OutboxPayload → List CashflowCalculatedEvent
own_events [] = []
own_events (cashflow_calculated e ∷ l) = e ∷ own_events l
own_events (of_other_service text ∷ l) = own_events l

abbrev pub payloads : List (OutboxEvent OutboxPayload) → List OutboxPayload
payloads = map (λ (e : OutboxEvent OutboxPayload). e.payload)

-- The events of this service in the shared table.
abbrev pub announced : Outbox OutboxPayload → List CashflowCalculatedEvent
announced o = own_events (payloads o.events)

-- A row that another service adds.
abbrev pub IsForeign : OutboxPayload → Type 0
IsForeign (cashflow_calculated e) = ⊥
IsForeign (of_other_service text) = Unit

-- Each transaction has one cashflow at most, and each cashflow has one event, in order; other rows of
-- the outbox may stand between them.
abbrev pub IsConsistent : Database → Type 0
IsConsistent db =
    HasUniqueTransactions db.cashflows × (announced db.outbox ≡ map completion_of db.cashflows)

-- A step of the system: an attempt at a message, a poll of the dispatcher at whatever the broker does,
-- a restart of the process, and the writes of others to the tables that this service reads or shares:
-- to the outbox they add rows of their own.
pub data Step (clock : ℕ → ℕ) (decode : String → Option TransactionEvent) (s : Service)
    : Service → Type 0 where
  attempts : (m : Delivery) → Step clock decode s (attempt_message clock decode m s).1
  dispatches :
      (broker : Broker OutboxPayload) (batch_size now : ℕ)
      → Step clock decode s (record s {
        database = record s.database { outbox = poll broker batch_size now s.database.outbox };
      })
  restarts : Step clock decode s (record s { cache = none })
  others_write :
      (states : List PositionState) (processed : List ProcessedEvent) (rules : List CashflowRule)
      (transaction_ids portfolio_ids : List String) (next_id : ℕ)
      (rows : List (OutboxEvent OutboxPayload))
      → All (λ e. IsForeign e.payload) rows
      → Step clock decode s (record s {
        database = record s.database {
          states = states;
          processed = processed;
          rules = rules;
          transaction_ids = transaction_ids;
          portfolio_ids = portfolio_ids;
          outbox = record { next_id = next_id; events = s.database.outbox.events ++ rows };
        };
      })

pub data Reach (clock : ℕ → ℕ) (decode : String → Option TransactionEvent) (start : Service)
    : Service → Type 0 where
  here : Reach clock decode start start
  later :
      {s t : Service}
      → Reach clock decode start s
      → Step clock decode s t
      → Reach clock decode start t

has_cashflow-append :
    (i : String) (rows : List CashflowRow) (r : CashflowRow)
    → str_eq r.cashflow.transaction_id i ≡ false
    → has_cashflow i rows ≡ false
    → has_cashflow i (rows ++ r ∷ []) ≡ false
unfolding has_cashflow
has_cashflow-append i [] r e h = ground (arith, e)
has_cashflow-append i (x ∷ rows) r e h = ground (arith, e, h, has_cashflow-append i rows r e)

HasUniqueTransactions-append :
    (rows : List CashflowRow) (r : CashflowRow)
    → has_cashflow r.cashflow.transaction_id rows ≡ false
    → HasUniqueTransactions rows
    → HasUniqueTransactions (rows ++ r ∷ [])
unfolding has_cashflow
HasUniqueTransactions-append [] r e h = (refl, tt)
HasUniqueTransactions-append (x ∷ rows) r e (h, hs) =
    let i = r.cashflow.transaction_id in
    let j = x.cashflow.transaction_id in
    (
      has_cashflow-append j rows r (ground (arith, e, str_eq_comm i j)) h,
      HasUniqueTransactions-append rows r (ground (arith, e)) hs,
    )

-- What an attempt that commits leaves.
abbrev Keeps : Attempt → Type 0
Keeps (committed db) = IsConsistent db
Keeps skipped = Unit
Keeps integrity_error = Unit
Keeps (no_rule text) = Unit
Keeps (unexpected text) = Unit

own_events-append :
    (xs ys : List OutboxPayload) → own_events (xs ++ ys) ≡ own_events xs ++ own_events ys
own_events-append [] ys = refl
own_events-append (cashflow_calculated e ∷ xs) ys = ap (λ l. e ∷ l) (own_events-append xs ys)
own_events-append (of_other_service text ∷ xs) ys = own_events-append xs ys

own_events-foreign :
    (rows : List (OutboxEvent OutboxPayload))
    → All (λ e. IsForeign e.payload) rows
    → own_events (payloads rows) ≡ []
own_events-foreign [] h = refl
own_events-foreign (r ∷ rows) (h, hs) =
    own_events-append (r.payload ∷ []) (payloads rows)
    ∙ rw (own_events-foreign rows hs) (none_own r.payload h)
  where
    none_own : (p : OutboxPayload) → IsForeign p → own_events (p ∷ []) ++ [] ≡ []
    none_own (cashflow_calculated e) h = absurd h
    none_own (of_other_service text) h = refl

-- What violates no constraint is new.
admitted_row :
    (c : Cashflow) (db : Database)
    → violates_constraint c db ≡ false
    → has_cashflow c.transaction_id db.cashflows ≡ false
unfolding violates_constraint
admitted_row c db e = ground (arith, e)

module _ (clock : ℕ → ℕ) where
  -- The cashflow that is added, with the event that announces it.
  mark_and_commit-Keeps :
      (m : Delivery) (event : TransactionEvent) (row : CashflowRow) (db : Database)
      (rows : List CashflowRow)
      → db.cashflows ≡ rows ++ row ∷ []
      → HasUniqueTransactions (rows ++ row ∷ [])
      → announced db.outbox ≡ map completion_of rows
      → Keeps (
          mark_and_commit m event db
            (create_outbox_event clock (outbox_entry m.correlation_id row) db.outbox))
  unfolding create_outbox_event
  mark_and_commit-Keeps m event row db rows e u a =
      elim (Bool-cases (nonempty row.cashflow.portfolio_id)) [
        | inr n ↦ rw (n) tt
        | inl n ↦
            rw (n) (rw (e) u, rw (e, map-append_lem, own_events-append, map-append_lem, a) refl)
      ]

  publish_and_commit-Keeps :
      (m : Delivery) (event : TransactionEvent) (c : Cashflow) (db : Database)
      → IsConsistent db
      → Keeps (publish_and_commit clock m event (create_cashflow c db))
  unfolding create_cashflow
  publish_and_commit-Keeps m event c db (u, a) =
      let row : CashflowRow = record { id = db.next_id; cashflow = c } in
      elim (Bool-cases (violates_constraint c db)) [
        | inl e ↦ rw (e) tt
        | inr e ↦ rw (e) (
            mark_and_commit-Keeps m event row
              (record db { cashflows = db.cashflows ++ row ∷ []; next_id = suc db.next_id })
              db.cashflows refl
              (HasUniqueTransactions-append db.cashflows row (admitted_row c db e) u) a)
      ]

  save_under_rule-Keeps :
      (m : Delivery) (event : TransactionEvent) (db : Database) (o : Option CashflowRule)
      → IsConsistent db
      → Keeps (save_under_rule clock m event db o)
  save_under_rule-Keeps m event db none k = tt
  save_under_rule-Keeps m event db (some rule) k =
      publish_and_commit-Keeps m event (calculate event rule event.epoch) db k

  process_event-Keeps :
      (m : Delivery) (event : TransactionEvent) (cache : Option (List CashflowRule)) (db : Database)
      → IsConsistent db
      → Keeps (process_event clock m event cache db).0
  process_event-Keeps m event cache db k = elim (Bool-cases (is_current event db)) [
    | inr stale ↦ rw (process_event_stale clock m event cache db stale) tt
    | inl current ↦ elim (Bool-cases (is_event_processed m.event_id service_name db.processed)) [
      | inl marked ↦ rw (process_event_marked clock m event cache db marked) tt
      | inr fresh ↦ rw (process_event_open clock m event cache db current fresh) (
          save_under_rule-Keeps m event (fenced event db)
            (rule_of event (loaded_rules cache db.rules)) k)
    ]
  ]

  settle-IsConsistent :
      (db : Database) (a : Attempt) (cache : Option (List CashflowRule))
      → IsConsistent db
      → Keeps a
      → IsConsistent (settle db (a, cache)).1.database
  settle-IsConsistent db (committed after) cache k h = h
  settle-IsConsistent db skipped cache k h = k
  settle-IsConsistent db integrity_error cache k h = k
  settle-IsConsistent db (no_rule text) cache k h = k
  settle-IsConsistent db (unexpected text) cache k h = k

  module _ (decode : String → Option TransactionEvent) where
    attempt_decoded-IsConsistent :
        (m : Delivery) (s : Service) (o : Option TransactionEvent)
        → IsConsistent s.database
        → IsConsistent (attempt_decoded clock decode m s o).1.database
    attempt_decoded-IsConsistent m s none k = k
    attempt_decoded-IsConsistent m s (some event) k =
        let (a, cache) = process_event clock m event s.cache s.database in
        settle-IsConsistent s.database a cache k (process_event-Keeps m event s.cache s.database k)

    preserved_at_once :
        (s t : Service) → Step clock decode s t → IsConsistent s.database → IsConsistent t.database
    unfolding attempt_message
    preserved_at_once s t (attempts m) k = attempt_decoded-IsConsistent m s (decode m.value) k
    preserved_at_once s t (dispatches broker batch_size now) (u, a) =
        (u, ap own_events (poll-payloads broker batch_size now s.database.outbox) ∙ a)
    preserved_at_once s t restarts k = k
    preserved_at_once s t
          (others_write states processed rules transaction_ids portfolio_ids next_id rows h)
          (u, a) =
        (
          u,
          rw (map-append_lem, own_events-append, own_events-foreign rows h)
              (append-nil (announced s.database.outbox) ∙ a),
        )

    -- In whatever order attempts, retries and redeliveries of any messages, polls of the
    -- dispatcher, restarts and the writes of other services come, their rows of the outbox included,
    -- each transaction has one cashflow at most, and the events of this service in the outbox are
    -- those of the cashflows, one each and in order, when it was so at the start.
    pub reach-IsConsistent :
        {start s : Service}
        → Reach clock decode start s
        → IsConsistent start.database
        → IsConsistent s.database
    reach-IsConsistent here k = k
    reach-IsConsistent (later {s} {t} before step) k =
        preserved_at_once s t step (reach-IsConsistent before k)
