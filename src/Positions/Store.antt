-- ===== src/Positions/Store.antt =====
-- The tables that the position calculator reads and writes, and the queries of
-- app/repositories/position_repository.py. A table is a list of rows, and `ORDER BY` a stable sort.
use portfolio_analytics_syst.Prelude.{
  ℕ, suc, max, String, Bool, ◌&&◌, ◌||◌, not, Option, none, some, List, [], ◌∷◌, ◌++◌, map, filter,
  head?, ltb, leb, ◌==◌,
}
use portfolio_analytics_syst.Prelude.Keys.{Key, key_eq}
use portfolio_analytics_syst.Prelude.Sorting.{sort_by}
use portfolio_analytics_syst.Events.{TransactionEvent, date_of}
use portfolio_analytics_syst.Outbox.Repository.{Outbox}
use portfolio_analytics_syst.Positions.State.{PositionState}
use portfolio_analytics_syst.Positions.Logic.{Position}

pub record HistoryRow : Type 0 where
  pub id : ℕ
  pub position : Position

-- The key columns of daily_position_snapshots.
pub record Snapshot : Type 0 where
  pub portfolio_id : String
  pub security_id : String
  pub date : ℕ
  pub epoch : ℕ

-- A row of transactions, as the event that it validates to: the table has no epoch.
pub record TransactionRow : Type 0 where
  pub id : ℕ
  pub event : TransactionEvent

pub record Store : Type 0 where
  pub states : List PositionState
  pub history : List HistoryRow
  pub next_id : ℕ
  pub snapshots : List Snapshot
  pub transactions : List TransactionRow
  pub outbox : Outbox TransactionEvent

abbrev later : Option ℕ → ℕ → Option ℕ
later none d = some d
later (some e) d = some (max e d)

-- `max(column)`, null for no rows
unfoldable pub latest : List ℕ → Option ℕ
latest [] = none
latest (d ∷ ds) = later (latest ds) d

abbrev pub in_epoch : Key → ℕ → Snapshot → Bool
in_epoch key epoch r = key_eq key (r.portfolio_id, r.security_id) && (r.epoch == epoch)

unfoldable pub get_latest_completed_snapshot_date : Key → ℕ → List Snapshot → Option ℕ
unfolding latest
get_latest_completed_snapshot_date key epoch snapshots =
    latest (map (λ (r : Snapshot). r.date) (filter (in_epoch key epoch) snapshots))

abbrev pub event_key : TransactionEvent → Key
event_key t = (t.portfolio_id, t.security_id)

-- `ORDER BY transaction_date ASC, id ASC`
abbrev pub chronological : TransactionRow → TransactionRow → Bool
chronological a b =
    ltb a.event.transaction_date b.event.transaction_date
    || (a.event.transaction_date == b.event.transaction_date) && leb a.id b.id

abbrev pub events_of : List TransactionRow → List TransactionEvent
events_of = map (λ r. r.event)

unfoldable pub get_all_transactions_for_security : Key → List TransactionRow → List TransactionEvent
get_all_transactions_for_security key rows =
    events_of (sort_by chronological (filter (λ r. key_eq key (event_key r.event)) rows))

abbrev pub on_or_after : Key → ℕ → TransactionRow → Bool
on_or_after key date r =
    key_eq key (event_key r.event) && leb date (date_of r.event.transaction_date)

unfoldable pub get_transactions_on_or_after : Key → ℕ → List TransactionRow → List TransactionEvent
get_transactions_on_or_after key date rows =
    events_of (sort_by chronological (filter (on_or_after key date) rows))

abbrev pub position_key : Position → Key
position_key p = (p.portfolio_id, p.security_id)

-- The rows of a key and an epoch, before a date or from it on.
abbrev pub is_before : Key → ℕ → ℕ → HistoryRow → Bool
is_before key date epoch r =
    key_eq key (position_key r.position)
    && ltb r.position.position_date date
    && (r.position.epoch == epoch)

abbrev pub is_from : Key → ℕ → ℕ → HistoryRow → Bool
is_from key date epoch r =
    key_eq key (position_key r.position)
    && leb date r.position.position_date
    && (r.position.epoch == epoch)

-- `ORDER BY position_date DESC, id DESC`
abbrev pub newest_first : HistoryRow → HistoryRow → Bool
newest_first a b =
    ltb b.position.position_date a.position.position_date
    || (a.position.position_date == b.position.position_date) && leb b.id a.id

abbrev position_of : Option HistoryRow → Option Position
position_of none = none
position_of (some r) = some r.position

unfoldable pub get_last_position_before : Key → ℕ → ℕ → List HistoryRow → Option Position
unfolding head?
get_last_position_before key date epoch rows =
    position_of (head? (sort_by newest_first (filter (is_before key date epoch) rows)))

unfoldable pub delete_positions_from : Key → ℕ → ℕ → List HistoryRow → List HistoryRow
delete_positions_from key date epoch rows = filter (λ r. not (is_from key date epoch r)) rows

-- The new rows, with the next ids of the sequence.
unfoldable pub number_rows : ℕ → List Position → List HistoryRow
number_rows next [] = []
number_rows next (p ∷ ps) = record { id = next; position = p } ∷ number_rows (suc next) ps

unfoldable pub next_after : ℕ → List Position → ℕ
next_after next [] = next
next_after next (p ∷ ps) = next_after (suc next) ps

unfoldable pub save_positions : List Position → Store → Store
unfolding number_rows next_after
save_positions ps s = record s {
  history = s.history ++ number_rows s.next_id ps;
  next_id = next_after s.next_id ps;
}
