-- ===== src/RateLimit/Accepted.antt =====
-- The writes that the limiter accepts, over any sequence of requests: how many of them any window
-- holds, and which requests are refused.
use portfolio_analytics_syst.Prelude.{
  ℕ, ◌≤◌, String, Bool, true, false, ◌&&◌, List, [], ◌∷◌, ◌++◌, ◌≡◌, refl, sym, ap, ◌∙◌, arith, inl,
  inr, Bool-cases, append_assoc, append-nil, filter, str_eq, str_eq_iff, str_eq_self, if◌then◌else◌,
}
use portfolio_analytics_syst.Prelude.Int.{ℤ}
use portfolio_analytics_syst.RateLimit.Window.{
  WriteEvent, Limits, Windows, evict_expired, current_records, at_least_one, admit,
  enforce_ingestion_write_rate_limit,
}
use portfolio_analytics_syst.RateLimit.Bounds.{IsWithin, evict_within}
use portfolio_analytics_syst.RateLimit.Deques.{
  in_window, fits, Tracks, evict-in_window, logged, admit-fits, admit-Tracks,
}

pub record Request : Type 0 where
  pub endpoint : String
  pub record_count : ℤ
  pub at : ℕ

abbrev pub write_of : Request → WriteEvent
write_of r = record { observed_at = r.at; record_count = at_least_one r.record_count }

-- The requests come in the order of their times, from one time to another.
abbrev pub InTime : ℕ → List Request → ℕ → Type 0
InTime from [] to = from ≤ to
InTime from (r ∷ requests) to = (from ≤ r.at) × InTime r.at requests to

module _ (limits : Limits) where
  abbrev answer : Request → Windows → Bool × Windows
  answer r windows =
      enforce_ingestion_write_rate_limit limits r.endpoint r.record_count r.at windows

  unfoldable pub serve : List Request → Windows → Windows
  unfolding enforce_ingestion_write_rate_limit
  serve [] windows = windows
  serve (r ∷ requests) windows = serve requests (answer r windows).1

  -- The writes to an endpoint that are accepted.
  unfoldable pub accepted_writes : String → List Request → Windows → List WriteEvent
  unfolding enforce_ingestion_write_rate_limit str_eq
  accepted_writes name [] windows = []
  accepted_writes name (r ∷ requests) windows =
      let rest = accepted_writes name requests (answer r windows).1 in
      if (answer r windows).0 && str_eq name r.endpoint then write_of r ∷ rest else rest

  module _ (on : limits.enabled ≡ true) where
    -- What is known after requests: the log, and the deque that tracks it.
    abbrev Served : String → ℕ → List WriteEvent → List WriteEvent → Type 0
    Served name to log deque = (at : ℕ) × (at ≤ to) × Tracks limits at log deque

    answered-same :
        (r : Request) (name : String) (windows : Windows)
        → str_eq name r.endpoint ≡ true
        → ((answer r windows).0
            ≡ (admit limits r.at (at_least_one r.record_count) (windows name)).0)
          × ((answer r windows).1 name
              ≡ (admit limits r.at (at_least_one r.record_count) (windows name)).1)
    unfolding enforce_ingestion_write_rate_limit
    answered-same r name windows e =
        let same = (str_eq_iff name r.endpoint).0 e in
        (
          rw (on) (
              ap (λ n. (admit limits r.at (at_least_one r.record_count) (windows n)).0) (sym same)),
          rw (on, e)
              (ap (λ n. (admit limits r.at (at_least_one r.record_count) (windows n)).1)
                (sym same)),
        )

    answered-other :
        (r : Request) (name : String) (windows : Windows)
        → str_eq name r.endpoint ≡ false
        → (answer r windows).1 name ≡ windows name
    unfolding enforce_ingestion_write_rate_limit
    answered-other r name windows e = rw (on, e) refl

    one_more :
        (name : String) (r : Request) (requests : List Request) (windows : Windows)
        (log : List WriteEvent)
        → log ++ accepted_writes name (r ∷ requests) windows
          ≡ logged limits ((answer r windows).0 && str_eq name r.endpoint) log (write_of r)
            ++ accepted_writes name requests (answer r windows).1
    unfolding accepted_writes
    one_more name r requests windows log =
        elim (Bool-cases ((answer r windows).0 && str_eq name r.endpoint)) [
          | inl e ↦ rw (e) (sym (append_assoc log (write_of r ∷ []) _))
          | inr e ↦ rw (e) refl
        ]

    InTime-earlier :
        (requests : List Request) (from later to : ℕ)
        → from ≤ later
        → InTime later requests to
        → InTime from requests to
    InTime-earlier [] from later to h k = omega (arith, h, k)
    InTime-earlier (r ∷ requests) from later to h (k, ks) = (omega (arith, h, k), ks)

    plain_test :
        {at : ℕ} (b : Bool) (log : List WriteEvent) (e : WriteEvent) (deque : List WriteEvent)
        → Tracks limits at (logged limits b log e) deque
        → Tracks limits at (logged limits (b && true) log e) deque
    plain_test true log e deque t = t
    plain_test false log e deque t = t

    no_log :
        {at : ℕ} (b : Bool) (log : List WriteEvent) (e : WriteEvent) (deque : List WriteEvent)
        → Tracks limits at log deque
        → Tracks limits at (logged limits (b && false) log e) deque
    no_log true log e deque t = t
    no_log false log e deque t = t

    whole_log :
        {at : ℕ} {deque : List WriteEvent} (log : List WriteEvent)
        → Tracks limits at log deque
        → Tracks limits at (log ++ []) deque
    whole_log log t = rw (append-nil log) t

    serve-Served :
        (name : String) (requests : List Request) (windows : Windows) (at to : ℕ)
        (log : List WriteEvent)
        → Tracks limits at log (windows name)
        → InTime at requests to
        → Served name to
            (log ++ accepted_writes name requests windows)
            (serve requests windows name)
    unfolding serve accepted_writes
    serve-Served name [] windows at to log t h = (at, h, whole_log log t)
    serve-Served name (r ∷ requests) windows at to log t (h, hs) =
        let next = (answer r windows).1 in
        elim (Bool-cases (str_eq name r.endpoint)) [
          | inl e ↦
              let (a, b) = answered-same r name windows e in
              let step =
                admit-Tracks limits r.at (at_least_one r.record_count) at log (windows name) t h in
              rw (one_more name r requests windows log) (
                serve-Served name requests next r.at to
                  (logged limits ((answer r windows).0 && str_eq name r.endpoint) log (write_of r))
                  (rw (e, a, b) (plain_test _ log (write_of r) _ step)) hs)
          | inr e ↦ rw (one_more name r requests windows log) (
              serve-Served name requests next at to
                (logged limits ((answer r windows).0 && str_eq name r.endpoint) log (write_of r))
                (rw (e, answered-other r name windows e) (no_log _ log (write_of r) _ t))
                (InTime-earlier requests at r.at to h hs))
        ]

    -- After any requests in the order of their times, whatever their endpoints and sizes, and at any
    -- later instant: the accepted writes to an endpoint in the window that ends there are within both
    -- limits, and a further request is accepted exactly when it still fits among them.
    pub accepted_writes-IsWithin :
        (requests : List Request) (next : Request)
        → InTime 0 requests next.at
        → let served =
            filter (in_window limits next.at) (accepted_writes next.endpoint requests (λ _. [])) in
          IsWithin limits served
          × ((enforce_ingestion_write_rate_limit limits next.endpoint next.record_count next.at
                (serve requests (λ _. []))).0
              ≡ fits limits (at_least_one next.record_count) served)
    accepted_writes-IsWithin requests next h =
        let name = next.endpoint in
        let windows = serve requests (λ _. []) in
        let (at, late, t) =
          serve-Served name requests (λ _. []) 0 next.at []
            (record {
              holds = unfold filter in refl;
              order = tt;
              past = tt;
              within = (omega arith, unfold current_records in omega arith);
            })
            h in
        let live =
          ap (evict_expired limits next.at) t.holds
          ∙ evict-in_window limits at next.at _ late t.order in
        let (fewer, less) = evict_within limits next.at (windows name) in
        let (n, m) = t.within in
        (
          rw (sym live) (omega (arith, fewer, n), omega (arith, less, m)),
          (answered-same next name windows (str_eq_self name)).0
              ∙ admit-fits limits next.at (at_least_one next.record_count) at _ (windows name) t
                  late,
        )
