-- ===== src/Positions/State.antt =====
-- portfolio_common/position_state_repository.py and reprocessing.py: the epoch and the watermark of
-- each key, and the fence that discards events of an old epoch.
use portfolio_analytics_syst.Prelude.{
  ℕ, suc, ◌+◌, String, Bool, false, ◌&&◌, ◌||◌, not, Option, none, some, List, [], ◌∷◌, ◌++◌,
  filter, length, ltb, get_or, if◌then◌else◌,
}
use portfolio_analytics_syst.Prelude.Keys.{Key, key_eq}
use portfolio_analytics_syst.Events.{epoch_start}

pub record PositionState : Type 0 where
  pub portfolio_id : String
  pub security_id : String
  pub epoch : ℕ
  pub watermark_date : ℕ
  pub status : String

abbrev pub state_key : PositionState → Key
state_key s = (s.portfolio_id, s.security_id)

abbrev pub initial_state : Key → PositionState
initial_state (portfolio_id, security_id) = record {
  portfolio_id = portfolio_id;
  security_id = security_id;
  epoch = 0;
  watermark_date = epoch_start;
  status = "CURRENT";
}

-- The row of a key; the key is the table's primary key.
unfoldable pub find_state : Key → List PositionState → Option PositionState
find_state key [] = none
find_state key (s ∷ states) = if key_eq key (state_key s) then some s else find_state key states

unfoldable pub get_or_create_state : Key → List PositionState → PositionState × List PositionState
get_or_create_state key states = elim (find_state key states) [
  | none ↦ (initial_state key, states ++ initial_state key ∷ [])
  | some s ↦ (s, states)
]

abbrev pub reset_state : ℕ → PositionState → PositionState
reset_state watermark s = record s {
  epoch = suc s.epoch;
  watermark_date = watermark;
  status = "REPROCESSING";
}

-- `UPDATE … SET … WHERE` on the rows that the test holds of.
unfoldable pub update_where :
    (PositionState → Bool)
    → (PositionState → PositionState)
    → List PositionState
    → List PositionState
update_where test change [] = []
update_where test change (s ∷ states) =
    (if test s then change s else s) ∷ update_where test change states

-- The updated row, if there is one, and the table.
unfoldable pub increment_epoch_and_reset_watermark :
    Key → ℕ → List PositionState → Option PositionState × List PositionState
unfolding find_state update_where
increment_epoch_and_reset_watermark key watermark states =
    let after = update_where (λ s. key_eq key (state_key s)) (reset_state watermark) states in
    (find_state key after, after)

unfoldable pub key_in : Key → List Key → Bool
key_in key [] = false
key_in key (k ∷ keys) = key_eq k key || key_in key keys

abbrev pub is_later : List Key → ℕ → PositionState → Bool
is_later keys date s = key_in (state_key s) keys && ltb date s.watermark_date

abbrev pub rewind : ℕ → PositionState → PositionState
rewind date s = record s { watermark_date = date; status = "REPROCESSING" }

-- The number of updated rows, and the table.
unfoldable pub update_watermarks_if_older :
    List Key → ℕ → List PositionState → ℕ × List PositionState
unfolding update_where
update_watermarks_if_older [] date states = (0, states)
update_watermarks_if_older (k ∷ keys) date states = (
  length (filter (is_later (k ∷ keys) date) states),
  update_where (is_later (k ∷ keys) date) (rewind date) states,
)

pub record StateUpdate : Type 0 where
  pub key : Key
  pub watermark_date : ℕ
  pub status : String

abbrev pub apply_update : StateUpdate → PositionState → PositionState
apply_update u s = record s { watermark_date = u.watermark_date; status = u.status }

unfoldable pub bulk_update_states : List StateUpdate → List PositionState → ℕ × List PositionState
unfolding update_where
bulk_update_states [] states = (0, states)
bulk_update_states (u ∷ us) states =
    let touched = filter (λ s. key_eq u.key (state_key s)) states in
    let (n, after) =
      bulk_update_states us
        (update_where (λ s. key_eq u.key (state_key s)) (apply_update u) states) in
    (length touched + n, after)

-- `EpochFencer.check` of an event with this key and epoch; a missing state is created.
unfoldable pub fence_check : Key → Option ℕ → List PositionState → Bool × List PositionState
unfolding get_or_create_state
fence_check key epoch states =
    let (current, after) = get_or_create_state key states in
    (not (ltb (get_or epoch current.epoch) current.epoch), after)
