-- ===== src/Simulation/Tests.antt =====
-- A session that is opened, changed, closed, and asked to change again.
use portfolio_analytics_syst.Prelude.{◌≤◌, false, none, some, [], ◌∷◌, ◌≡◌, refl, str_eq}
use portfolio_analytics_syst.Prelude.Int.{pos}
use portfolio_analytics_syst.Prelude.Tables.{find_row, update_rows}
use portfolio_analytics_syst.Simulation.Sessions.{
  SimulationSession, ChangeInput, SimulationStore, new_session, get_session, close_session,
  is_active, validate_session_active, add_changes, change_rows,
}
use portfolio_analytics_syst.Simulation.Lifecycle.{
  after, closes, adds, Requests, here, later, changes_of, requests-Follows,
}

abbrev buy : ChangeInput
buy = record {
  security_id = "S";
  transaction_type = "BUY";
  quantity = some (pos 5);
  price = none;
  amount = none;
  currency = none;
  effective_date = none;
}

abbrev session : SimulationSession
session = new_session "A" "P" none 24 0

abbrev opened : SimulationStore
opened = record { sessions = session ∷ []; changes = []; next_id = 1 }

abbrev changed_once : SimulationStore
changed_once = after opened (add_changes (λ id. "c") 1 "A" (buy ∷ []) opened)

abbrev shut : SimulationStore
shut = after changed_once (close_session "A" changed_once)

abbrev changed_again : SimulationStore
changed_again = after shut (add_changes (λ id. "d") 2 "A" (buy ∷ []) shut)

abbrev requests : Requests opened changed_again
requests =
    later (later (later here (adds (λ id. "c") 1 "A" (buy ∷ []))) (closes "A"))
      (adds (λ id. "d") 2 "A" (buy ∷ []))

refuses_changes : changed_again.changes ≡ changed_once.changes
unfolding add_changes validate_session_active get_session find_row str_eq change_rows update_rows
    close_session
refuses_changes = refl

requests-Follows_example :
    (y : SimulationSession) × (get_session "A" changed_again ≡ some y)
    × (1 ≤ y.version)
    × ((is_active session ≡ false)
        → (is_active y ≡ false) × (changes_of "A" changed_again ≡ changes_of "A" opened))
requests-Follows_example =
    requests-Follows "A" opened changed_again session requests
      (unfold get_session find_row str_eq in refl)
