-- ===== src/Simulation/Sessions.antt =====
-- app/repositories/simulation_repository.py, and the operations on sessions and changes of
-- app/services/simulation_service.py. The ids of `uuid4` and the time come as arguments.
use portfolio_analytics_syst.Prelude.{
  ℕ, suc, ◌+◌, ◌*◌, String, Bool, true, false, ◌&&◌, ◌||◌, not, Option, none, some, List, [], ◌∷◌,
  ◌++◌, filter, length, ltb, leb, ◌==◌, str_eq, concat, if◌then◌else◌,
}
use portfolio_analytics_syst.Prelude.Results.{Result, ok, raised, ◌>>=◌}
use portfolio_analytics_syst.Prelude.Sorting.{sort_by}
use portfolio_analytics_syst.Prelude.Tables.{find_row, update_rows}
use portfolio_analytics_syst.Decimal.{Decimal}

pub data SessionStatus : Type 0 where
  active closed : SessionStatus

pub record SimulationSession : Type 0 where
  pub session_id : String
  pub portfolio_id : String
  pub status : SessionStatus
  pub version : ℕ
  pub created_by : Option String
  pub created_at : ℕ
  pub expires_at : ℕ

pub record SimulationChange : Type 0 where
  pub id : ℕ
  pub change_id : String
  pub session_id : String
  pub portfolio_id : String
  pub security_id : String
  pub transaction_type : String
  pub quantity : Option Decimal
  pub price : Option Decimal
  pub amount : Option Decimal
  pub currency : Option String
  pub effective_date : Option ℕ
  pub created_at : ℕ

-- What a client sends for a change.
pub record ChangeInput : Type 0 where
  pub security_id : String
  pub transaction_type : String
  pub quantity : Option Decimal
  pub price : Option Decimal
  pub amount : Option Decimal
  pub currency : Option String
  pub effective_date : Option ℕ

pub record SimulationStore : Type 0 where
  pub sessions : List SimulationSession
  pub changes : List SimulationChange
  pub next_id : ℕ

abbrev pub is_session : String → SimulationSession → Bool
is_session session_id s = str_eq s.session_id session_id

abbrev pub new_session : String → String → Option String → ℕ → ℕ → SimulationSession
new_session session_id portfolio_id created_by ttl_hours now = record {
  session_id = session_id;
  portfolio_id = portfolio_id;
  status = active;
  version = 1;
  created_by = created_by;
  created_at = now;
  expires_at = now + ttl_hours * 3600000000;
}

unfoldable pub create_session :
    String → String → Option String → ℕ → ℕ → SimulationStore → SimulationSession × SimulationStore
create_session session_id portfolio_id created_by ttl_hours now s =
    let session = new_session session_id portfolio_id created_by ttl_hours now in
    (session, record s { sessions = s.sessions ++ session ∷ [] })

unfoldable pub get_session : String → SimulationStore → Option SimulationSession
unfolding find_row str_eq
get_session session_id s = find_row (is_session session_id) s.sessions

abbrev pub found : String → Option SimulationSession → Result SimulationSession
found session_id none = raised (concat ("Simulation session " ∷ session_id ∷ " not found" ∷ []))
found session_id (some session) = ok session

abbrev pub closed_session : SimulationSession → SimulationSession
closed_session x = record x { status = closed; version = suc x.version }

abbrev pub bumped : SimulationSession → SimulationSession
bumped x = record x { version = suc x.version }

unfoldable pub close_session : String → SimulationStore → Result SimulationStore
unfolding get_session update_rows str_eq concat
close_session session_id s = found session_id (get_session session_id s) >>= λ session.
    ok (record s { sessions = update_rows (is_session session_id) closed_session s.sessions })

abbrev pub is_active : SimulationSession → Bool
is_active x = elim x.status [ active ↦ true | closed ↦ false ]

unfoldable pub validate_session_active :
    String → ℕ → Option SimulationSession → Result SimulationSession
unfolding concat
validate_session_active session_id now none =
    raised (concat ("Simulation session " ∷ session_id ∷ " not found" ∷ []))
validate_session_active session_id now (some x) =
    if not (is_active x)
    then raised (concat ("Simulation session " ∷ session_id ∷ " is not active" ∷ []))
    else if ltb x.expires_at now
    then raised (concat ("Simulation session " ∷ session_id ∷ " is expired" ∷ []))
    else ok x

abbrev pub change_row : ℕ → String → ℕ → SimulationSession → ChangeInput → SimulationChange
change_row id change_id now x c = record {
  id = id;
  change_id = change_id;
  session_id = x.session_id;
  portfolio_id = x.portfolio_id;
  security_id = c.security_id;
  transaction_type = c.transaction_type;
  quantity = c.quantity;
  price = c.price;
  amount = c.amount;
  currency = c.currency;
  effective_date = c.effective_date;
  created_at = now;
}

-- `uuid id` is the change id that is drawn for the row `id`.
unfoldable pub change_rows :
    (ℕ → String) → ℕ → ℕ → SimulationSession → List ChangeInput → List SimulationChange
change_rows uuid id now x [] = []
change_rows uuid id now x (c ∷ cs) =
    change_row id (uuid id) now x c ∷ change_rows uuid (suc id) now x cs

abbrev pub with_rows : String → SimulationStore → List SimulationChange → SimulationStore
with_rows session_id s rows = record s {
  changes = s.changes ++ rows;
  next_id = s.next_id + length rows;
  sessions = update_rows (is_session session_id) bumped s.sessions;
}

unfoldable pub add_changes :
    (ℕ → String) → ℕ → String → List ChangeInput → SimulationStore → Result SimulationStore
unfolding validate_session_active get_session change_rows update_rows str_eq
add_changes uuid now session_id inputs s =
    validate_session_active session_id now (get_session session_id s) >>= λ x.
    ok (with_rows session_id s (change_rows uuid s.next_id now x inputs))

abbrev pub is_change : String → String → SimulationChange → Bool
is_change session_id change_id c = str_eq c.session_id session_id && str_eq c.change_id change_id

abbrev pub deleted :
    String → String → SimulationStore → Option SimulationChange → Result SimulationStore
deleted session_id change_id s none =
    raised (concat ("Simulation change " ∷ change_id ∷ " not found" ∷ []))
deleted session_id change_id s (some c) = ok (record s {
  changes = filter (λ (c : SimulationChange). not (is_change session_id change_id c)) s.changes;
  sessions = update_rows (is_session session_id) bumped s.sessions;
})

unfoldable pub delete_change : ℕ → String → String → SimulationStore → Result SimulationStore
unfolding validate_session_active get_session find_row filter update_rows str_eq concat
delete_change now session_id change_id s =
    validate_session_active session_id now (get_session session_id s) >>= λ x.
    deleted session_id change_id s (find_row (is_change session_id change_id) s.changes)

abbrev pub in_order : SimulationChange → SimulationChange → Bool
in_order a b = ltb a.created_at b.created_at || (a.created_at == b.created_at) && leb a.id b.id

unfoldable pub get_changes : String → SimulationStore → List SimulationChange
unfolding sort_by filter str_eq
get_changes session_id s =
    sort_by in_order (filter (λ (c : SimulationChange). str_eq c.session_id session_id) s.changes)
