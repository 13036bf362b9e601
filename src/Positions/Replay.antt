-- ===== src/Positions/Replay.antt =====
-- The back-dated branch: what is queued, and the state of the key after it.
use portfolio_analytics_syst.Prelude.{
  ℕ, suc, ◌∙◌, filter, ◌+◌, ◌-◌, ◌<◌, Bool, ◌&&◌, count, str_eq, if◌then◌else◌, true, false, none,
  some, List, [], ◌∷◌, ◌++◌, map, ◌≡◌, refl, sym, ap, arith, All, All-append, All-weaken,
  All-filter_test, All-map_of, map-append_lem, append_assoc, append-nil, nonempty, leb, get_or,
  is_some, lt→ltb, le→ltb,
}
use portfolio_analytics_syst.Prelude.Keys.{Key, key_eq, key_eq_iff}
use portfolio_analytics_syst.Prelude.Results.{Result, ok}
use portfolio_analytics_syst.Prelude.Sorting.{
  IsSorted, sort_by, sort_by-IsSorted, count-sort_by, All-sort_by,
}
use portfolio_analytics_syst.Events.{TransactionEvent, date_of}
use portfolio_analytics_syst.Outbox.Repository.{Outbox, OutboxEvent, add_row, create_outbox_event}
use portfolio_analytics_syst.Positions.State.{
  PositionState, state_key, find_state, update_where, reset_state,
  increment_epoch_and_reset_watermark, fence_check,
}
use portfolio_analytics_syst.Positions.Store.{
  Store, TransactionRow, event_key, chronological, get_all_transactions_for_security,
}
use portfolio_analytics_syst.Positions.Calculator.{
  tagged, replay_event, queue_events, by_date, events_to_replay, trigger_replay,
  effective_completed_date, calculate,
}
use portfolio_analytics_syst.Positions.Epochs.{get_or_create_state_known}

abbrev pub payloads : Outbox TransactionEvent → List TransactionEvent
payloads o = map (λ (e : OutboxEvent TransactionEvent). e.payload) o.events

-- Queueing events of portfolios with an id succeeds, and appends the tagged events in order.
abbrev Queued :
    ℕ → List TransactionEvent → Outbox TransactionEvent → Result (Outbox TransactionEvent) → Type 0
Queued epoch ts o r =
    (after : Outbox TransactionEvent) × (r ≡ ok after)
    × (payloads after ≡ payloads o ++ map (tagged epoch) ts)

queue_events-Queued :
    (clock : ℕ → ℕ) (epoch : ℕ) (ts : List TransactionEvent) (o : Outbox TransactionEvent)
    → All (λ t. nonempty t.portfolio_id ≡ true) ts
    → Queued epoch ts o (queue_events clock epoch ts o)
unfolding queue_events
queue_events-Queued clock epoch [] o h = (o, refl, sym (append-nil (payloads o)))
queue_events-Queued clock epoch (t ∷ ts) o (h, hs) =
    let next = add_row (clock o.next_id) (replay_event (tagged epoch t)) o in
    let (after, e, f) = queue_events-Queued clock epoch ts next hs in
    (
      after,
      rw (create_outbox_event, h) e,
      rw (f, map-append_lem (λ (e : OutboxEvent TransactionEvent). e.payload) o.events _)
          (append_assoc (payloads o) (tagged epoch t ∷ []) (map (tagged epoch) ts)),
    )

same_portfolio :
    (event : TransactionEvent) (s : Store)
    → nonempty event.portfolio_id ≡ true
    → All (λ t. nonempty t.portfolio_id ≡ true) (events_to_replay event s)
unfolding events_to_replay get_all_transactions_for_security
same_portfolio event s h =
    let Named = λ (t : TransactionEvent). nonempty t.portfolio_id ≡ true in
    let key = event_key event in
    All-sort_by by_date Named _ (
      All-append Named _ (event ∷ [])
        (All-map_of Named (λ (r : TransactionRow). r.event) _
          (All-sort_by chronological (λ (r : TransactionRow). Named r.event) _
            (All-weaken (λ (r : TransactionRow). key_eq key (event_key r.event) ≡ true)
              (λ (r : TransactionRow). Named r.event) _
              (λ r e. rw (sym (ap (λ (k : Key). k.0) ((key_eq_iff key (event_key r.event)).0 e))) h)
              (All-filter_test (λ (r : TransactionRow). key_eq key (event_key r.event))
                s.transactions))))
        (h, tt))

by_date_total : (a b : TransactionEvent) → by_date a b ≡ false → by_date b a ≡ true
by_date_total a b h = ground arith

by_date_trans :
    (a b c : TransactionEvent) → by_date a b ≡ true → by_date b c ≡ true → by_date a c ≡ true
by_date_trans a b c h k = ground arith

count-events :
    (p : TransactionEvent → Bool) (rows : List TransactionRow)
    → count p (map (λ (r : TransactionRow). r.event) rows)
      ≡ count (λ (r : TransactionRow). p r.event) rows
unfolding count
count-events p [] = refl
count-events p (r ∷ rows) = ground (arith, count-events p rows)

count-at_key :
    (event : TransactionEvent) (p : TransactionEvent → Bool) (rows : List TransactionRow)
    → count
        (λ (r : TransactionRow). p r.event)
        (filter (λ (r : TransactionRow). key_eq (event_key event) (event_key r.event)) rows)
      ≡ count
          (λ (r : TransactionRow).
            str_eq event.portfolio_id r.event.portfolio_id
            && str_eq event.security_id r.event.security_id
            && p r.event)
          rows
unfolding count filter key_eq
count-at_key event p [] = refl
count-at_key event p (r ∷ rows) = ground (arith, count-at_key event p rows)

count-append {ℓ} :
    {A : Type ℓ} (p : A → Bool) (xs ys : List A) → count p (xs ++ ys) ≡ count p xs + count p ys
unfolding count
count-append p [] ys = omega arith
count-append p (x ∷ xs) ys = ground (arith, count-append p xs ys)

plus_one_event :
    (p : TransactionEvent → Bool) (event : TransactionEvent) (n : ℕ)
    → n + count p (event ∷ []) ≡ n + (if p event then 1 else 0)
unfolding count
plus_one_event p event n = ground arith

-- The events of a replay are in order of time. Whatever is asked of an event, as many of them answer
-- it as do rows of the portfolio and the security of the triggering event in the table, and that event
-- itself once more; so no event of another key is among them.
pub events_to_replay-IsSorted :
    (event : TransactionEvent) (s : Store) (p : TransactionEvent → Bool)
    → IsSorted
        (λ (a b : TransactionEvent). leb a.transaction_date b.transaction_date)
        (events_to_replay event s)
      × (count p (events_to_replay event s)
          ≡ count
              (λ (r : TransactionRow).
                str_eq event.portfolio_id r.event.portfolio_id
                && str_eq event.security_id r.event.security_id
                && p r.event)
              s.transactions
            + (if p event then 1 else 0))
unfolding events_to_replay get_all_transactions_for_security
events_to_replay-IsSorted event s p =
    let key = event_key event in
    let rows = filter (λ (r : TransactionRow). key_eq key (event_key r.event)) s.transactions in
    let of_event = λ (r : TransactionRow). p r.event in
    let history = get_all_transactions_for_security key s.transactions in
    let stored : count p history ≡ count of_event rows =
      count-events p (sort_by chronological rows) ∙ count-sort_by chronological of_event rows in
    (
      sort_by-IsSorted by_date by_date_total by_date_trans _,
      count-sort_by by_date p (history ++ event ∷ [])
          ∙ (count-append p history (event ∷ [])
              ∙ (ap (λ n. n + count p (event ∷ [])) (stored ∙ count-at_key event p s.transactions)
                  ∙ plus_one_event p event (count _ s.transactions))),
    )

find_state-update_where :
    (key : Key) (change : PositionState → PositionState)
    → ((s : PositionState) → state_key (change s) ≡ state_key s)
    → (states : List PositionState) (current : PositionState) → find_state key states ≡ some current
    → find_state key (update_where (λ s. key_eq key (state_key s)) change states)
      ≡ some (change current)
unfolding find_state update_where
find_state-update_where key change k [] current h = cc
find_state-update_where key change k (s ∷ states) current h =
    ground (arith, k s, find_state-update_where key change k states current)

-- What a back-dated event leads to: a new epoch and a watermark on the day before, the history as it
-- was, and in the outbox the events of the replay, each tagged with the new epoch.
pub record Replayed (event : TransactionEvent) (current : PositionState) (s after : Store)
    : Type 0 where
  pub state :
      find_state (event_key event) after.states
      ≡ some (record current {
        epoch = suc current.epoch;
        watermark_date = date_of event.transaction_date - 1;
        status = "REPROCESSING";
      })
  pub history : after.history ≡ s.history
  pub queued :
      payloads after.outbox
      ≡ payloads s.outbox ++ map (tagged (suc current.epoch)) (events_to_replay event s)

trigger_replay-Replayed :
    (clock : ℕ → ℕ) (event : TransactionEvent) (s : Store) (current : PositionState)
    → find_state (event_key event) s.states ≡ some current
    → 1 < date_of event.transaction_date
    → nonempty event.portfolio_id ≡ true
    → (after : Store) × (trigger_replay clock event s ≡ ok after) × Replayed event current s after
unfolding trigger_replay increment_epoch_and_reset_watermark
trigger_replay-Replayed clock event s current found late named =
    let watermark = date_of event.transaction_date - 1 in
    let states =
      update_where (λ s. key_eq (event_key event) (state_key s)) (reset_state watermark) s.states in
    let bumped =
      find_state-update_where (event_key event) (reset_state watermark) (λ s. refl) s.states current
        found in
    let (outbox, e, f) =
      queue_events-Queued clock (suc current.epoch) (events_to_replay event s) s.outbox
        (same_portfolio event s named) in
    (
      record s { states = states; outbox = outbox },
      rw (le→leb_false (date_of event.transaction_date) late, bumped, e) refl,
      record { state = bumped; history = refl; queued = f },
    )
  where
    le→leb_false : (d : ℕ) → 1 < d → leb d 1 ≡ false
    le→leb_false d h = ground arith

-- For a key with a state, an event with no epoch, dated before the completed date, bumps the epoch, sets the
-- watermark to the day before, keeps the positions, and queues the whole history of the key with
-- itself, all tagged with the new epoch. The portfolio has an id and a day before the event exists.
pub calculate_backdated :
    (clock : ℕ → ℕ) (event : TransactionEvent) (s : Store) (current : PositionState)
    → find_state (event_key event) s.states ≡ some current
    → event.epoch ≡ none
    → date_of event.transaction_date < effective_completed_date (event_key event) current s
    → 1 < date_of event.transaction_date
    → nonempty event.portfolio_id ≡ true
    → (after : Store) × (calculate clock event s ≡ ok after) × Replayed event current s after
unfolding calculate fence_check
calculate_backdated clock event s current found tag before late named =
    let known = get_or_create_state_known (event_key event) s.states current found in
    let (after, e, r) = trigger_replay-Replayed clock event s current found late named in
    (
      after,
      rw
          (
            known,
            known,
            ap (λ o. get_or o current.epoch) tag,
            ap is_some tag,
            le→ltb current.epoch current.epoch (omega arith),
            lt→ltb _ (effective_completed_date (event_key event) current s) before,
          )
          e,
      r,
    )
