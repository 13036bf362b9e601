-- ===== src/Costs/Effects.antt =====
-- What a transaction event changes, and that it does so once.
use portfolio_analytics_syst.Prelude.{
  ℕ, String, Bool, true, false, not, Option, none, some, List, [], ◌∷◌, ◌++◌, append-nil,
  append_assoc, map, map-append_lem, filter, All, All-append, All-filter_test, ◌≡◌, ◌⊎◌, inl, inr,
  refl, sym, ◌∙◌, Bool-cases, str_eq, str_eq_iff, str_eq_self, nonempty, if◌then◌else◌,
}
use mathlib.Core.Path.{subst}
use portfolio_analytics_syst.Prelude.Results.{Result, ok, raised, ◌>>=◌}
use portfolio_analytics_syst.Prelude.Tables.{find_row, upsert_row, filter-update_rows}
use portfolio_analytics_syst.Prelude.Lookups.{find_row-test}
use portfolio_analytics_syst.Decimal.{Arith}
use portfolio_analytics_syst.Events.{TransactionEvent}
use portfolio_analytics_syst.Idempotency.{Delivery, is_event_processed, is_event_processed-marked}
use portfolio_analytics_syst.Outbox.Repository.{OutboxEvent, Outbox, create_outbox_event}
use portfolio_analytics_syst.Positions.Store.{TransactionRow}
use portfolio_analytics_syst.Engine.Model.{Transaction}
use portfolio_analytics_syst.Engine.Reporter.{ErroredTransaction}
use portfolio_analytics_syst.Engine.Parser.{Raw}
use portfolio_analytics_syst.Engine.Processor.{Timeline}
use portfolio_analytics_syst.Costs.Repository.{
  PositionLotState, CostTables, is_transaction, same_lot, lot_of, renewed_lot, upsert_buy_lot_state,
}
use portfolio_analytics_syst.Costs.Consumer.{
  service, Edges, Attempt, committed, skipped, portfolio_not_found, fx_rate_not_found,
  invalid_payload, integrity_error, unexpected, breaks_foreign_key, persist_checked, costed,
  published, processed_event, with_outbox, store_costs, persist_row, persist_transactions,
  mark_processed, persist_unless, take_results, run_engine,
}

abbrev payloads : Outbox TransactionEvent → List TransactionEvent
payloads o = map (λ (e : OutboxEvent TransactionEvent). e.payload) o.events

-- An event about the transaction, in the epoch of the message, if it names one.
abbrev pub IsReport : String → Option ℕ → TransactionEvent → Type 0
IsReport id epoch e = (str_eq e.transaction_id id ≡ true) × ((epoch ≡ none) ⊎ (e.epoch ≡ epoch))

-- Only the rows of one transaction are changed, and what is queued is about it.
abbrev pub Concerns : String → Option ℕ → CostTables → CostTables → Type 0
Concerns id epoch before after =
    (filter (λ (r : TransactionRow). not (is_transaction id r)) after.transactions
      ≡ filter (λ (r : TransactionRow). not (is_transaction id r)) before.transactions)
    × (filter (λ (r : PositionLotState). not (same_lot id r)) after.lots
        ≡ filter (λ (r : PositionLotState). not (same_lot id r)) before.lots)
    × ((new : List TransactionEvent) × (payloads after.outbox ≡ payloads before.outbox ++ new)
        × All (IsReport id epoch) new)

Concerns-refl : (id : String) (epoch : Option ℕ) (db : CostTables) → Concerns id epoch db db
Concerns-refl id epoch db = (refl, refl, ([], sym (append-nil (payloads db.outbox)), tt))

Concerns-trans :
    (id : String) (epoch : Option ℕ) (x y z : CostTables)
    → Concerns id epoch x y
    → Concerns id epoch y z
    → Concerns id epoch x z
Concerns-trans id epoch x y z (a, b, (n, c, d)) (a', b', (n', c', d')) = (
  a' ∙ a,
  b' ∙ b,
  (
    n ++ n',
    rw (c', c) (append_assoc (payloads x.outbox) n n'),
    All-append (IsReport id epoch) n n' d d',
  ),
)

filter-upsert_row {ℓ} :
    {A : Type ℓ} (same : A → Bool) (change : A → A) (new : A) (rows : List A)
    → same new ≡ true
    → ((r : A) → same r ≡ true → same (change r) ≡ true)
    → filter (λ r. not (same r)) (upsert_row same change new rows) ≡ filter (λ r. not (same r)) rows
unfolding filter upsert_row
filter-upsert_row same change new [] h k = rw (h) refl
filter-upsert_row same change new (r ∷ rows) h k = elim (Bool-cases (same r)) [
  | inl e ↦ rw (e, filter, k r e) refl
  | inr e ↦ rw (e, filter, e, filter-upsert_row same change new rows h k) refl
]

lots-Concerns :
    (edges : Edges) (t : Transaction) (lots : List PositionLotState)
    → filter
        (λ (r : PositionLotState). not (same_lot t.transaction_id r))
        (upsert_buy_lot_state edges.extra t lots)
      ≡ filter (λ (r : PositionLotState). not (same_lot t.transaction_id r)) lots
unfolding upsert_buy_lot_state
lots-Concerns edges t lots =
    filter-upsert_row (same_lot t.transaction_id) (renewed_lot edges.extra t) (lot_of edges.extra t)
      lots (str_eq_self t.transaction_id) (λ r e. e)

lots_of_purchase :
    (edges : Edges) (t : Transaction) (lots : List PositionLotState) (b : Bool)
    → filter
        (λ (r : PositionLotState). not (same_lot t.transaction_id r))
        (if b then upsert_buy_lot_state edges.extra t lots else lots)
      ≡ filter (λ (r : PositionLotState). not (same_lot t.transaction_id r)) lots
lots_of_purchase edges t lots true = lots-Concerns edges t lots
lots_of_purchase edges t lots false = refl

abbrev id_of : TransactionEvent → String
id_of e = e.transaction_id

published-IsReport :
    (id : String) (epoch : Option ℕ) (e : TransactionEvent)
    → str_eq e.transaction_id id ≡ true
    → IsReport id epoch (published epoch e)
published-IsReport id none e h = (h, inl refl)
published-IsReport id (some n) e h = (h, inr refl)

-- What a call leaves, if it returns.
abbrev Leaves : String → Option ℕ → CostTables → Result CostTables → Type 0
Leaves id epoch before (raised text) = Unit
Leaves id epoch before (ok after) = Concerns id epoch before after

module _ (epoch : Option ℕ) (m : Delivery) (t : Transaction) (clock : ℕ → ℕ) where
  -- The rows of the transaction are changed, and one event is queued.
  with_outbox-Leaves :
      (before stored : CostTables) (row : TransactionRow)
      → Concerns t.transaction_id epoch before stored
      → str_eq row.event.transaction_id t.transaction_id ≡ true
      → Leaves t.transaction_id epoch before (
          with_outbox stored (
            create_outbox_event clock
              (processed_event m.correlation_id t.portfolio_id (published epoch row.event))
              stored.outbox))
  unfolding create_outbox_event
  with_outbox-Leaves before stored row (a, b, (n, c, d)) h =
      elim (Bool-cases (nonempty t.portfolio_id)) [
        | inr e ↦ rw (e) tt
        | inl e ↦ rw (e) (
          a,
          b,
          (
            n ++ published epoch row.event ∷ [],
            rw (map-append_lem, c)
                (append_assoc (payloads before.outbox) n (published epoch row.event ∷ [])),
            All-append (IsReport t.transaction_id epoch) n (published epoch row.event ∷ []) d
                (published-IsReport t.transaction_id epoch row.event h, tt),
          ),
        )
      ]

chained :
    {epoch : Option ℕ} (id : String) (before x : CostTables) (r : Result CostTables)
    → Concerns id epoch before x
    → Leaves id epoch x r
    → Leaves id epoch before r
chained id before x (raised text) h k = tt
chained {epoch} id before x (ok after) h k = Concerns-trans id epoch before x after h k

module _ ⦃a : Arith⦄ (edges : Edges) (m : Delivery) (epoch : Option ℕ) where
  persist_row-Leaves :
      (id : String) (t : Transaction) (db : CostTables) (o : Option TransactionRow)
      → t.transaction_id ≡ id
      → ((r : TransactionRow) → o ≡ some r → is_transaction t.transaction_id r ≡ true)
      → Leaves id epoch db (persist_row edges m epoch db t o)
  persist_row-Leaves id t db none e h = tt
  persist_row-Leaves id t db (some row) e h =
      subst (λ (i : String). Leaves i epoch db (persist_row edges m epoch db t (some row))) e
        (with_outbox-Leaves epoch m t edges.clock db (store_costs edges db t) (costed t row)
          (
            filter-update_rows (λ (r : TransactionRow). not (is_transaction t.transaction_id r))
                (is_transaction t.transaction_id) (costed t) db.transactions (λ r k. rw (k) refl)
                (λ r k. rw (k) refl),
            lots_of_purchase edges t db.lots (str_eq t.transaction_type "BUY"),
            ([], sym (append-nil (payloads db.outbox)), tt),
          )
          (h row refl))

  bind-Leaves :
      (id : String) (before : CostTables) (r : Result CostTables)
      (f : CostTables → Result CostTables)
      → Leaves id epoch before r
      → ((x : CostTables) → Leaves id epoch x (f x))
      → Leaves id epoch before (r >>= f)
  bind-Leaves id before (raised text) f h k = tt
  bind-Leaves id before (ok x) f h k = chained id before x (f x) h (k x)

  persist_transactions-Leaves :
      (id : String) (ts : List Transaction) (db : CostTables)
      → All (λ t. str_eq t.transaction_id id ≡ true) ts
      → Leaves id epoch db (persist_transactions edges m epoch ts db)
  unfolding persist_transactions
  persist_transactions-Leaves id [] db h = Concerns-refl id epoch db
  persist_transactions-Leaves id (t ∷ ts) db (h, hs) =
      let o = find_row (is_transaction t.transaction_id) db.transactions in
      bind-Leaves id db (persist_row edges m epoch db t o) (persist_transactions edges m epoch ts)
        (persist_row-Leaves id t db o ((str_eq_iff t.transaction_id id).0 h)
          (λ r e. find_row-test (is_transaction t.transaction_id) db.transactions r e))
        (λ x. persist_transactions-Leaves id ts x hs)

  abbrev pub is_marked : CostTables → Bool
  is_marked db = is_event_processed m.event_id service db.processed

  -- A commit marks the message and concerns one transaction; what is skipped is marked.
  abbrev pub Commits : String → CostTables → Attempt → Type 0
  Commits id db (committed after) = Concerns id epoch db after × (is_marked after ≡ true)
  Commits id db skipped = is_marked db ≡ true
  Commits id db (portfolio_not_found text) = Unit
  Commits id db (fx_rate_not_found text) = Unit
  Commits id db invalid_payload = Unit
  Commits id db (integrity_error text) = Unit
  Commits id db (unexpected text) = Unit

  mark_processed-Commits :
      (id : String) (e : TransactionEvent) (db : CostTables) (r : Result CostTables)
      → Leaves id epoch db r
      → Commits id db (mark_processed edges m epoch e r)
  mark_processed-Commits id e db (raised text) h = tt
  mark_processed-Commits id e db (ok after) h = (
    h,
    is_event_processed-marked m.event_id e.portfolio_id service m.correlation_id after.processed,
  )

  persist_checked-Commits :
      (e : TransactionEvent) (db : CostTables) (ts : List Transaction) (b : Bool)
      → All (λ t. str_eq t.transaction_id e.transaction_id ≡ true) ts
      → Commits e.transaction_id db (persist_checked edges m epoch e db ts b)
  persist_checked-Commits e db ts true h = tt
  persist_checked-Commits e db ts false h =
      mark_processed-Commits e.transaction_id e db (persist_transactions edges m epoch ts db)
        (persist_transactions-Leaves e.transaction_id ts db h)

  persist_unless-Commits :
      (e : TransactionEvent) (db : CostTables) (ts : List Transaction)
      (errors : List ErroredTransaction)
      → All (λ t. str_eq t.transaction_id e.transaction_id ≡ true) ts
      → Commits e.transaction_id db (persist_unless edges m epoch e db ts errors)
  persist_unless-Commits e db ts (error ∷ errors) h = tt
  persist_unless-Commits e db ts [] h =
      persist_checked-Commits e db ts (breaks_foreign_key edges m epoch db ts) h

  take_results-Commits :
      (e : TransactionEvent) (db : CostTables) (o : Option (List Transaction × Timeline))
      → Commits e.transaction_id db (take_results edges m epoch e db o)
  take_results-Commits e db none = tt
  take_results-Commits e db (some (done, end_state)) =
      persist_unless-Commits e db
        (filter (λ (t : Transaction). str_eq t.transaction_id e.transaction_id) done)
        (filter (λ (x : ErroredTransaction). str_eq x.transaction_id e.transaction_id)
          end_state.errors)
        (All-filter_test (λ (t : Transaction). str_eq t.transaction_id e.transaction_id) done)

  pub run_engine-Commits :
      (e : TransactionEvent) (db : CostTables) (method : String)
      (r : Result (List (Raw edges.pydantic)))
      → Commits e.transaction_id db (run_engine edges m epoch e db method r)
  run_engine-Commits e db method (raised text) = tt
  run_engine-Commits e db method (ok raws) = take_results-Commits e db _
