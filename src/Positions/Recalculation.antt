-- ===== src/Positions/Recalculation.antt =====
-- The recalculation branch: the rows it replaces, the rows it leaves, and that it is idempotent.
use portfolio_analytics_syst.Prelude.{
  ℕ, Bool, true, false, ◌&&◌, not, List, [], ◌∷◌, ◌++◌, map, ◌≡◌, refl, sym, ap, arith, All,
  All-weaken, All-filter_test, All-map_of, filter, filter_every, filter_nothing, filter-append,
  filter-filter, map-append_lem, append-nil, leb, ◌==◌,
}
use portfolio_analytics_syst.Prelude.Keys.{Key, key_eq}
use portfolio_analytics_syst.Prelude.Sorting.{All-sort_by}
use portfolio_analytics_syst.Events.{TransactionEvent, date_of}
use portfolio_analytics_syst.Positions.Logic.{
  Amounts, Position, run_positions, calculate_new_positions, calculate_next_position,
}
use portfolio_analytics_syst.Positions.Store.{
  Store, HistoryRow, TransactionRow, event_key, position_key, is_before, is_from, on_or_after,
  chronological, number_rows, get_last_position_before, get_transactions_on_or_after,
  delete_positions_from, save_positions,
}
use portfolio_analytics_syst.Positions.Calculator.{recalculate}

abbrev pub positions_of : List HistoryRow → List Position
positions_of = map (λ (r : HistoryRow). r.position)

-- A row that the query `delete_positions_from` selects.
abbrev pub selected : Key → ℕ → ℕ → Position → Bool
selected key date epoch p =
    key_eq key (position_key p) && leb date p.position_date && (p.epoch == epoch)

number_rows-positions : (next : ℕ) (ps : List Position) → positions_of (number_rows next ps) ≡ ps
unfolding number_rows
number_rows-positions next [] = refl
number_rows-positions next (p ∷ ps) = ap (λ l. p ∷ l) (number_rows-positions _ ps)

number_rows-All :
    (key : Key) (date epoch next : ℕ) (ps : List Position)
    → All (λ p. selected key date epoch p ≡ true) ps
    → All (λ r. is_from key date epoch r ≡ true) (number_rows next ps)
unfolding number_rows
number_rows-All key date epoch next [] h = tt
number_rows-All key date epoch next (p ∷ ps) (h, hs) = (h, number_rows-All key date epoch _ ps hs)

abbrev is_due : Key → ℕ → TransactionEvent → Bool
is_due key date t = key_eq key (event_key t) && leb date (date_of t.transaction_date)

run_positions-selected :
    (key : Key) (date epoch : ℕ) (s : Amounts) (ts : List TransactionEvent)
    → All (λ t. is_due key date t ≡ true) ts
    → All (λ p. selected key date epoch p ≡ true) (run_positions s ts epoch)
unfolding run_positions
run_positions-selected key date epoch s [] h = tt
run_positions-selected key date epoch s (t ∷ ts) (h, hs) =
    (ground (arith, h), run_positions-selected key date epoch (calculate_next_position s t) ts hs)

due_events :
    (key : Key) (date : ℕ) (rows : List TransactionRow)
    → All (λ t. is_due key date t ≡ true) (get_transactions_on_or_after key date rows)
unfolding get_transactions_on_or_after
due_events key date rows =
    All-map_of (λ t. is_due key date t ≡ true) (λ (r : TransactionRow). r.event) _
      (All-sort_by chronological (λ r. on_or_after key date r ≡ true) _
        (All-filter_test (on_or_after key date) rows))

-- The rows that a recalculation makes.
abbrev pub new_rows : Key → ℕ → ℕ → Store → List Position
new_rows key date epoch s =
    calculate_new_positions (get_last_position_before key date epoch s.history)
      (get_transactions_on_or_after key date s.transactions) epoch

not-is_from :
    (key : Key) (date epoch : ℕ) (r : HistoryRow)
    → is_before key date epoch r ≡ true
    → not (is_from key date epoch r) ≡ true
not-is_from key date epoch r h = ground arith

anchor_kept :
    (key : Key) (date epoch : ℕ) (rows : List HistoryRow)
    → get_last_position_before key date epoch (delete_positions_from key date epoch rows)
      ≡ get_last_position_before key date epoch rows
unfolding get_last_position_before delete_positions_from
anchor_kept key date epoch rows =
    rw
      (filter-filter (λ r. not (is_from key date epoch r)) (is_before key date epoch) rows
        (not-is_from key date epoch))
      refl

recalculate-history :
    (key : Key) (date epoch : ℕ) (s : Store)
    → (recalculate key date epoch s).history
      ≡ delete_positions_from key date epoch s.history
        ++ number_rows s.next_id (new_rows key date epoch s)
unfolding recalculate save_positions
recalculate-history key date epoch s = rw (anchor_kept key date epoch s.history) refl

new_rows-selected :
    (key : Key) (date epoch next : ℕ) (s : Store)
    → All (λ r. is_from key date epoch r ≡ true) (number_rows next (new_rows key date epoch s))
unfolding calculate_new_positions
new_rows-selected key date epoch next s =
    number_rows-All key date epoch next _
      (run_positions-selected key date epoch _ _ (due_events key date s.transactions))

not-true : (b : Bool) → b ≡ true → not b ≡ false
not-true b h = ground arith

not-not : (b : Bool) → not b ≡ true → b ≡ false
not-not b h = ground arith

pub recalculate_rows :
    (key : Key) (date epoch : ℕ) (s : Store)
    → let after = recalculate key date epoch s in
      (filter (λ r. not (is_from key date epoch r)) after.history
        ≡ filter (λ r. not (is_from key date epoch r)) s.history)
      × (positions_of (filter (is_from key date epoch) after.history) ≡ new_rows key date epoch s)
unfolding delete_positions_from
recalculate_rows key date epoch s =
    let others = λ (r : HistoryRow). not (is_from key date epoch r) in
    let rows = number_rows s.next_id (new_rows key date epoch s) in
    let kept = filter others s.history in
    let made = new_rows-selected key date epoch s.next_id s in
    (
      rw
          (
            recalculate-history key date epoch s,
            filter-append others kept rows,
            filter_nothing others rows
                (All-weaken _ _ rows (λ r. not-true (is_from key date epoch r)) made),
            filter-filter others others s.history (λ r h. h),
          )
          (append-nil kept),
      rw
          (
            recalculate-history key date epoch s,
            filter-append (is_from key date epoch) kept rows,
            filter_every (is_from key date epoch) rows made,
            filter_nothing (is_from key date epoch) kept (
                All-weaken _ _ kept (λ r. not-not (is_from key date epoch r))
                  (All-filter_test others s.history)),
          )
          (number_rows-positions s.next_id (new_rows key date epoch s)),
    )

delete_again :
    (key : Key) (date epoch : ℕ) (s : Store)
    → delete_positions_from key date epoch (recalculate key date epoch s).history
      ≡ delete_positions_from key date epoch s.history
unfolding delete_positions_from
delete_again key date epoch s = (recalculate_rows key date epoch s).0

new_rows_again :
    (key : Key) (date epoch : ℕ) (s : Store)
    → new_rows key date epoch (recalculate key date epoch s) ≡ new_rows key date epoch s
new_rows_again key date epoch s =
    rw
      (
        sym (anchor_kept key date epoch (recalculate key date epoch s).history),
        delete_again key date epoch s,
        anchor_kept key date epoch s.history,
      )
      (unfold recalculate save_positions in refl)

-- A recalculation that is repeated, as on a redelivered event, leaves the same positions.
pub recalculate_twice :
    (key : Key) (date epoch : ℕ) (s : Store)
    → let once = recalculate key date epoch s in
      positions_of (recalculate key date epoch once).history ≡ positions_of once.history
recalculate_twice key date epoch s =
    let once = recalculate key date epoch s in
    rw
      (
        recalculate-history key date epoch once,
        delete_again key date epoch s,
        new_rows_again key date epoch s,
        recalculate-history key date epoch s,
        map-append_lem (λ (r : HistoryRow). r.position)
            (delete_positions_from key date epoch s.history)
            (number_rows once.next_id (new_rows key date epoch s)),
        map-append_lem (λ (r : HistoryRow). r.position)
            (delete_positions_from key date epoch s.history)
            (number_rows s.next_id (new_rows key date epoch s)),
        number_rows-positions once.next_id (new_rows key date epoch s),
        number_rows-positions s.next_id (new_rows key date epoch s),
      )
      refl
