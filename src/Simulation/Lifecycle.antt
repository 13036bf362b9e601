-- ===== src/Simulation/Lifecycle.antt =====
-- A closed session is frozen, and versions only grow.
use portfolio_analytics_syst.Prelude.{
  ℕ, suc, ◌≤◌, String, Bool, true, false, not, Option, none, some, List, [], ◌∷◌, ◌++◌, append-nil,
  filter, filter-append, filter-filter, filter_nothing, ltb, All, All-weaken, ◌≡◌, refl, sym, ap,
  ◌∙◌, arith, inl, inr, Bool-cases, str_eq, str_eq_iff, if◌then◌else◌, get_or,
}
use portfolio_analytics_syst.Prelude.Results.{Result, ok, raised, ◌>>=◌}
use portfolio_analytics_syst.Prelude.Tables.{find_row, update_rows}
use portfolio_analytics_syst.Prelude.Lookups.{find_row-append, find_row-update_rows, find_row-test}
use portfolio_analytics_syst.Simulation.Sessions.{
  SimulationSession, SimulationChange, ChangeInput, SimulationStore, is_session, new_session,
  create_session, get_session, found, closed_session, bumped, close_session, is_active,
  validate_session_active, change_rows, with_rows, add_changes, is_change, deleted, delete_change,
}

-- The store after a call, which a call that raises leaves as it was.
abbrev pub after : SimulationStore → Result SimulationStore → SimulationStore
after s (raised text) = s
after s (ok t) = t

-- A request to the service; the id of a new session is new.
pub data Request (s : SimulationStore) : SimulationStore → Type 0 where
  creates :
      (session_id portfolio_id : String) (created_by : Option String) (ttl_hours now : ℕ)
      → get_session session_id s ≡ none
      → Request s (create_session session_id portfolio_id created_by ttl_hours now s).1
  closes : (session_id : String) → Request s (after s (close_session session_id s))
  adds :
      (uuid : ℕ → String) (now : ℕ) (session_id : String) (inputs : List ChangeInput)
      → Request s (after s (add_changes uuid now session_id inputs s))
  deletes :
      (now : ℕ) (session_id change_id : String)
      → Request s (after s (delete_change now session_id change_id s))

pub data Requests (s : SimulationStore) : SimulationStore → Type 0 where
  here : Requests s s
  later : {t u : SimulationStore} → Requests s t → Request t u → Requests s u

abbrev pub changes_of : String → SimulationStore → List SimulationChange
changes_of id s = filter (λ (c : SimulationChange). str_eq c.session_id id) s.changes

-- What becomes of a session: its version does not fall, and once it is closed it stays closed and
-- keeps its changes.
abbrev pub Follows : String → SimulationSession → SimulationStore → SimulationStore → Type 0
Follows id x s t =
    (y : SimulationSession) × (get_session id t ≡ some y)
    × (x.version ≤ y.version)
    × ((is_active x ≡ false) → (is_active y ≡ false) × (changes_of id t ≡ changes_of id s))

-- A change to one session, on the session of any id.
abbrev touched :
    (SimulationSession → SimulationSession) → String → SimulationSession → SimulationSession
touched f j x = if is_session j x then f x else x

get_session-update_rows :
    (f : SimulationSession → SimulationSession) (id j : String) (s t : SimulationStore)
    (x : SimulationSession)
    → ((x : SimulationSession) → (f x).session_id ≡ x.session_id)
    → t.sessions ≡ update_rows (is_session j) f s.sessions
    → get_session id s ≡ some x
    → get_session id t ≡ some (touched f j x)
unfolding get_session
get_session-update_rows f id j s t x k e h = rw (e) (
    find_row-update_rows (is_session id) (is_session j) f s.sessions x
      (λ r. ap (λ (i : String). str_eq i id) (k r)) h)

close_session-Follows :
    (id j : String) (s : SimulationStore) (x : SimulationSession) (o : Option SimulationSession)
    → get_session id s ≡ some x
    → Follows id x s (
        after s (
          found j o >>= λ session.
          ok (record s { sessions = update_rows (is_session j) closed_session s.sessions })))
close_session-Follows id j s x none h = (x, h, omega arith, λ a. (a, refl))
close_session-Follows id j s x (some session) h = (
  touched closed_session j x,
  get_session-update_rows closed_session id j s
      (record s { sessions = update_rows (is_session j) closed_session s.sessions }) x (λ r. refl)
      refl h,
  ground arith,
  λ a. (ground (arith, a), refl),
)

clash : (b : Bool) → b ≡ false → b ≡ true → ⊥
clash b h k = ground (arith, h, k)

active_not_closed : (y : SimulationSession) → is_active y ≡ false → is_active y ≡ true → ⊥
active_not_closed y h k = ground (arith, h, k)

change_rows-All :
    (uuid : ℕ → String) (id now : ℕ) (x : SimulationSession) (inputs : List ChangeInput)
    → All (λ c. c.session_id ≡ x.session_id) (change_rows uuid id now x inputs)
unfolding change_rows
change_rows-All uuid id now x [] = tt
change_rows-All uuid id now x (c ∷ cs) = (refl, change_rows-All uuid (suc id) now x cs)

-- Rows of another session.
no_changes :
    (id other : String) (rows : List SimulationChange)
    → All (λ c. c.session_id ≡ other) rows
    → str_eq other id ≡ false
    → filter (λ (c : SimulationChange). str_eq c.session_id id) rows ≡ []
no_changes id other rows h n =
    filter_nothing (λ (c : SimulationChange). str_eq c.session_id id) rows
      (All-weaken (λ c. c.session_id ≡ other) (λ c. str_eq c.session_id id ≡ false) rows
        (λ c e. ap (λ (i : String). str_eq i id) e ∙ n) h)

-- The closed session is not the active one that a change is made to.
other_session :
    (id j : String) (s : SimulationStore) (x y : SimulationSession)
    → get_session id s ≡ some x
    → get_session j s ≡ some y
    → is_active x ≡ false
    → is_active y ≡ true
    → str_eq y.session_id id ≡ false
unfolding get_session
other_session id j s x y hx hy ax ay = elim (Bool-cases (str_eq y.session_id id)) [
  | inr e ↦ e
  | inl e ↦
      let same : j ≡ id =
        sym ((str_eq_iff y.session_id j).0 (find_row-test (is_session j) s.sessions y hy))
        ∙ (str_eq_iff y.session_id id).0 e in
      let there : some x ≡ some y =
        sym hx ∙ (ap (λ (i : String). find_row (is_session i) s.sessions) (sym same) ∙ hy) in
      absurd (
        active_not_closed y
          (sym (ap (λ (o : Option SimulationSession). is_active (get_or o x)) there) ∙ ax) ay)
]

untouched :
    (id : String) (s : SimulationStore) (x : SimulationSession)
    → get_session id s ≡ some x
    → Follows id x s s
untouched id s x h = (x, h, omega arith, λ a. (a, refl))

-- A change of the session that is validated, with what it does to the changes.
bumped-Follows :
    (id j : String) (s t : SimulationStore) (x : SimulationSession)
    → t.sessions ≡ update_rows (is_session j) bumped s.sessions
    → ((is_active x ≡ false) → changes_of id t ≡ changes_of id s)
    → get_session id s ≡ some x
    → Follows id x s t
bumped-Follows id j s t x e c h = (
  touched bumped j x,
  get_session-update_rows bumped id j s t x (λ r. refl) e h,
  ground arith,
  λ a. (ground (arith, a), c a),
)

-- A call that first validates the session, on the session of any id.
validated-Follows :
    (id j : String) (now : ℕ) (s : SimulationStore) (x : SimulationSession)
    (o : Option SimulationSession) (call : SimulationSession → Result SimulationStore)
    → get_session id s ≡ some x
    → get_session j s ≡ o
    → ((y : SimulationSession)
        → get_session j s ≡ some y
        → is_active y ≡ true
        → Follows id x s (after s (call y)))
    → Follows id x s (after s (validate_session_active j now o >>= call))
unfolding validate_session_active
validated-Follows id j now s x none call h e k = untouched id s x h
validated-Follows id j now s x (some y) call h e k = elim (Bool-cases (is_active y)) [
  | inr f ↦ rw (f) (untouched id s x h)
  | inl f ↦ elim (Bool-cases (ltb y.expires_at now)) [
    | inl g ↦ rw (f, g) (untouched id s x h)
    | inr g ↦ rw (f, g) (k y e f)
  ]
]

add_changes-Follows :
    (id j : String) (uuid : ℕ → String) (now : ℕ) (inputs : List ChangeInput) (s : SimulationStore)
    (x : SimulationSession)
    → get_session id s ≡ some x
    → Follows id x s (after s (add_changes uuid now j inputs s))
unfolding add_changes
add_changes-Follows id j uuid now inputs s x h =
    validated-Follows id j now s x (get_session j s)
      (λ y. ok (with_rows j s (change_rows uuid s.next_id now y inputs))) h refl
      (λ y hy ay.
        let rows = change_rows uuid s.next_id now y inputs in
        bumped-Follows id j s (with_rows j s rows) x refl
          (λ a.
            filter-append (λ (c : SimulationChange). str_eq c.session_id id) s.changes rows
            ∙ (ap (λ (l : List SimulationChange). changes_of id s ++ l)
                  (no_changes id y.session_id rows (change_rows-All uuid s.next_id now y inputs)
                    (other_session id j s x y h hy a ay))
                ∙ append-nil (changes_of id s)))
          h)

-- A change of another session is kept.
kept_change :
    (id j change_id : String) (y : SimulationSession) (c : SimulationChange)
    → str_eq y.session_id j ≡ true
    → str_eq y.session_id id ≡ false
    → str_eq c.session_id id ≡ true
    → not (is_change j change_id c) ≡ true
kept_change id j change_id y c e n h = elim (Bool-cases (str_eq c.session_id j)) [
  | inr f ↦ rw (f) refl
  | inl f ↦
      let same : y.session_id ≡ c.session_id =
        (str_eq_iff y.session_id j).0 e ∙ sym ((str_eq_iff c.session_id j).0 f) in
      absurd (clash (str_eq y.session_id id) n (ap (λ (i : String). str_eq i id) same ∙ h))
]

deleted-Follows :
    (id j change_id : String) (s : SimulationStore) (x y : SimulationSession)
    (o : Option SimulationChange)
    → get_session id s ≡ some x
    → get_session j s ≡ some y
    → is_active y ≡ true
    → Follows id x s (after s (deleted j change_id s o))
deleted-Follows id j change_id s x y none h hy ay = untouched id s x h
deleted-Follows id j change_id s x y (some c) h hy ay =
    bumped-Follows id j s
      (record s {
        changes = filter (λ (c : SimulationChange). not (is_change j change_id c)) s.changes;
        sessions = update_rows (is_session j) bumped s.sessions;
      })
      x refl
      (λ a.
        filter-filter (λ (c : SimulationChange). not (is_change j change_id c))
          (λ (c : SimulationChange). str_eq c.session_id id) s.changes
          (λ c k.
            kept_change id j change_id y c
              (find_row-test (is_session j) s.sessions y (unfold get_session in hy))
              (other_session id j s x y h hy a ay) k))
      h

one_more_call :
    (id : String) (s t : SimulationStore) (x : SimulationSession)
    → Request s t
    → get_session id s ≡ some x
    → Follows id x s t
unfolding create_session close_session delete_change
one_more_call id s _ x (creates j portfolio_id created_by ttl_hours now fresh) h = (
  x,
  unfold get_session in
      find_row-append (is_session id) s.sessions
        (new_session j portfolio_id created_by ttl_hours now ∷ []) x h,
  omega arith,
  λ a. (a, refl),
)
one_more_call id s _ x (closes j) h = close_session-Follows id j s x (get_session j s) h
one_more_call id s _ x (adds uuid now j inputs) h = add_changes-Follows id j uuid now inputs s x h
one_more_call id s _ x (deletes now j change_id) h =
    validated-Follows id j now s x (get_session j s)
      (λ y. deleted j change_id s (find_row (is_change j change_id) s.changes)) h refl
      (λ y hy ay.
        deleted-Follows id j change_id s x y (find_row (is_change j change_id) s.changes) h hy ay)

-- Whatever requests the service handles, in whatever order: a session stays, its version never falls,
-- and once it is closed it stays closed and neither gains nor loses a change.
pub requests-Follows :
    (id : String) (s t : SimulationStore) (x : SimulationSession)
    → Requests s t
    → get_session id s ≡ some x
    → Follows id x s t
requests-Follows id s _ x here h = untouched id s x h
requests-Follows id s _ x (later {t} {u} before request) h =
    let (y, hy, v, k) = requests-Follows id s t x before h in
    let (z, hz, w, l) = one_more_call id t u y request hy in
    (z, hz, omega (arith, v, w), λ a. ((l (k a).0).0, (l (k a).0).1 ∙ (k a).1))
