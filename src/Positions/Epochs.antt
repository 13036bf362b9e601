-- ===== src/Positions/Epochs.antt =====
-- The epoch of a key: it is never lowered, and an event of an older epoch changes nothing.
use portfolio_analytics_syst.Prelude.{
  ℕ, ◌≤◌, ◌<◌, Bool, ◌&&◌, not, Option, none, some, List, [], ◌∷◌, ◌++◌, ◌≡◌, refl, arith, inl, inr,
  Bool-cases, Option-cases, ltb, lt→ltb, le→ltb, leb, is_some,
}
use portfolio_analytics_syst.Prelude.Keys.{Key, key_eq}
use portfolio_analytics_syst.Prelude.Results.{Result, ok, raised, ◌>>=◌}
use portfolio_analytics_syst.Events.{TransactionEvent, date_of}
use portfolio_analytics_syst.Outbox.Repository.{Outbox}
use portfolio_analytics_syst.Positions.State.{
  PositionState, state_key, initial_state, find_state, get_or_create_state, reset_state,
  update_where, increment_epoch_and_reset_watermark, StateUpdate, apply_update, bulk_update_states,
  rewind, update_watermarks_if_older, fence_check,
}
use portfolio_analytics_syst.Positions.Store.{Store, event_key}
use portfolio_analytics_syst.Positions.Calculator.{
  queue_events, queue_replay, events_to_replay, trigger_replay, recalculate,
  effective_completed_date, decide, calculate,
}

abbrev epoch_of : Option PositionState → ℕ
epoch_of none = 0
epoch_of (some s) = s.epoch

-- The epoch of a key; a missing state is created with epoch 0.
unfoldable pub current_epoch : Key → List PositionState → ℕ
unfolding find_state
current_epoch key states = epoch_of (find_state key states)

current_epoch-append :
    (j key : Key) (states : List PositionState)
    → current_epoch j (states ++ initial_state key ∷ []) ≡ current_epoch j states
unfolding current_epoch find_state
current_epoch-append j key [] = ground arith
current_epoch-append j key (s ∷ states) = ground (arith, current_epoch-append j key states)

current_epoch-get_or_create_state :
    (j key : Key) (states : List PositionState)
    → current_epoch j (get_or_create_state key states).1 ≡ current_epoch j states
unfolding get_or_create_state
current_epoch-get_or_create_state j key states = elim (Option-cases (find_state key states)) [
  | inl e ↦ rw (get_or_create_state, e) (current_epoch-append j key states)
  | inr (s, e) ↦ rw (get_or_create_state, e) refl
]

current_epoch-update_where :
    (test : PositionState → Bool) (change : PositionState → PositionState)
    → ((s : PositionState) → state_key (change s) ≡ state_key s)
    → ((s : PositionState) → s.epoch ≤ (change s).epoch)
    → (j : Key) (states : List PositionState)
    → current_epoch j states ≤ current_epoch j (update_where test change states)
unfolding current_epoch find_state update_where
current_epoch-update_where test change k e j [] = omega arith
current_epoch-update_where test change k e j (s ∷ states) =
    let rest = current_epoch-update_where test change k e j states in
    elim (Bool-cases (test s)) [
      | inl t ↦ elim (Bool-cases (key_eq j (state_key s))) [
        | inl f ↦ rw (t, k s, f) (e s)
        | inr f ↦ rw (t, k s, f) rest
      ]
      | inr t ↦ elim (Bool-cases (key_eq j (state_key s))) [
        | inl f ↦ rw (t, f) (omega arith)
        | inr f ↦ rw (t, f) rest
      ]
    ]

current_epoch-increment :
    (j key : Key) (watermark : ℕ) (states : List PositionState)
    → current_epoch j states
      ≤ current_epoch j (increment_epoch_and_reset_watermark key watermark states).1
unfolding increment_epoch_and_reset_watermark
current_epoch-increment j key watermark states =
    current_epoch-update_where _ (reset_state watermark) (λ s. refl) (λ s. omega arith) j states

-- Rewinding watermarks lowers no epoch.
pub current_epoch-update_watermarks_if_older :
    (j : Key) (keys : List Key) (date : ℕ) (states : List PositionState)
    → current_epoch j states ≤ current_epoch j (update_watermarks_if_older keys date states).1
unfolding update_watermarks_if_older
current_epoch-update_watermarks_if_older j [] date states = omega arith
current_epoch-update_watermarks_if_older j (k ∷ keys) date states =
    current_epoch-update_where _ (rewind date) (λ s. refl) (λ s. omega arith) j states

-- A bulk update of watermarks lowers no epoch.
pub current_epoch-bulk_update_states :
    (j : Key) (us : List StateUpdate) (states : List PositionState)
    → current_epoch j states ≤ current_epoch j (bulk_update_states us states).1
unfolding bulk_update_states
current_epoch-bulk_update_states j [] states = omega arith
current_epoch-bulk_update_states j (u ∷ us) states =
    let next = update_where (λ s. key_eq u.key (state_key s)) (apply_update u) states in
    let first =
      current_epoch-update_where (λ s. key_eq u.key (state_key s)) (apply_update u) (λ s. refl)
        (λ s. omega arith) j states in
    omega (arith, first, current_epoch-bulk_update_states j us next)

-- A call that succeeds lowers the epoch of no key; one that raises is rolled back.
abbrev pub KeepsEpochs : Store → Result Store → Type 0
KeepsEpochs s (ok after) = (j : Key) → current_epoch j s.states ≤ current_epoch j after.states
KeepsEpochs s (raised text) = Unit

KeepsEpochs-queued :
    (s : Store) (states : List PositionState) (outbox : Result (Outbox TransactionEvent))
    → ((j : Key) → current_epoch j s.states ≤ current_epoch j states)
    → KeepsEpochs s (outbox >>= λ o. ok (record s { states = states; outbox = o }))
KeepsEpochs-queued s states (ok o) h = h
KeepsEpochs-queued s states (raised text) h = tt

KeepsEpochs-queue_replay :
    (clock : ℕ → ℕ) (event : TransactionEvent) (s : Store)
    (reply : Option PositionState × List PositionState)
    → ((j : Key) → current_epoch j s.states ≤ current_epoch j reply.1)
    → KeepsEpochs s (queue_replay clock event s reply)
KeepsEpochs-queue_replay clock event s (none, states) h = tt
KeepsEpochs-queue_replay clock event s (some new, states) h =
    KeepsEpochs-queued s states (queue_events clock new.epoch (events_to_replay event s) s.outbox) h

KeepsEpochs-trigger_replay :
    (clock : ℕ → ℕ) (event : TransactionEvent) (s : Store)
    → KeepsEpochs s (trigger_replay clock event s)
unfolding trigger_replay
KeepsEpochs-trigger_replay clock event s =
    elim (Bool-cases (leb (date_of event.transaction_date) 1)) [
      | inl e ↦ rw e tt
      | inr e ↦ rw e (
          KeepsEpochs-queue_replay clock event s _
            (λ j. current_epoch-increment j (event_key event) _ s.states))
    ]

KeepsEpochs-decide :
    (clock : ℕ → ℕ) (event : TransactionEvent) (current : PositionState) (s : Store)
    → KeepsEpochs s (decide clock event current s)
unfolding recalculate
KeepsEpochs-decide clock event current s =
    elim (Bool-cases (
      ltb (date_of event.transaction_date) (effective_completed_date (event_key event) current s)
      && not (is_some event.epoch))) [
        | inl e ↦ rw e (KeepsEpochs-trigger_replay clock event s)
        | inr e ↦ rw e (λ j. omega arith)
      ]

KeepsEpochs-from :
    (s next : Store) (r : Result Store)
    → ((j : Key) → current_epoch j s.states ≤ current_epoch j next.states)
    → KeepsEpochs next r
    → KeepsEpochs s r
KeepsEpochs-from s next (ok after) h k = λ j. omega (arith, h j, k j)
KeepsEpochs-from s next (raised text) h k = tt

-- A position event never lowers the epoch of any key, whichever branch it takes; a call that raises
-- is rolled back.
pub calculate-KeepsEpochs :
    (clock : ℕ → ℕ) (event : TransactionEvent) (s : Store) → KeepsEpochs s (calculate clock event s)
unfolding calculate fence_check
calculate-KeepsEpochs clock event s =
    let key = event_key event in
    let checked = (get_or_create_state key s.states).1 in
    let created = get_or_create_state key checked in
    let ready : Store = record s { states = created.1 } in
    let first = λ (j : Key). current_epoch-get_or_create_state j key s.states in
    elim (Bool-cases (fence_check key event.epoch s.states).0) [
      | inl e ↦ rw e (
          KeepsEpochs-from s ready (decide clock event created.0 ready)
            (λ j. omega (arith, first j, current_epoch-get_or_create_state j key checked))
            (KeepsEpochs-decide clock event created.0 ready))
      | inr e ↦ rw e (λ j. omega (arith, first j))
    ]

pub get_or_create_state_known :
    (key : Key) (states : List PositionState) (current : PositionState)
    → find_state key states ≡ some current
    → get_or_create_state key states ≡ (current, states)
unfolding get_or_create_state
get_or_create_state_known key states current found = rw (get_or_create_state, found) refl

-- For a key with a state, an event of an older epoch is discarded: the store is as it was.
pub calculate_stale :
    (clock : ℕ → ℕ) (event : TransactionEvent) (s : Store) (current : PositionState) (e : ℕ)
    → find_state (event_key event) s.states ≡ some current
    → event.epoch ≡ some e
    → e < current.epoch
    → calculate clock event s ≡ ok s
unfolding calculate fence_check
calculate_stale clock event s current e found tag old =
    let known = get_or_create_state_known (event_key event) s.states current found in
    rw (known, known, tag, lt→ltb e current.epoch old) refl

-- For a key with a state, an event that carries its epoch or a later one, as a replayed event does,
-- is recalculated and never starts another replay.
pub calculate_replayed :
    (clock : ℕ → ℕ) (event : TransactionEvent) (s : Store) (current : PositionState) (e : ℕ)
    → find_state (event_key event) s.states ≡ some current
    → event.epoch ≡ some e
    → current.epoch ≤ e
    → calculate clock event s
      ≡ ok (recalculate (event_key event) (date_of event.transaction_date) e s)
unfolding calculate fence_check
calculate_replayed clock event s current e found tag fresh =
    let known = get_or_create_state_known (event_key event) s.states current found in
    rw (known, known, tag, le→ltb e current.epoch fresh)
      (elim (Bool-cases (
        ltb (date_of event.transaction_date)
          (effective_completed_date (event_key event) current s))) [
            | inl f ↦ rw f refl
            | inr f ↦ rw f refl
          ])
