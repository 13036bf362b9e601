-- ===== src/RateLimit/Bounds.antt =====
-- What one request does to the deques: their bounds, and what is evicted.
use portfolio_analytics_syst.Prelude.{
  ℕ, ◌+◌, ◌≤◌, String, true, false, ◌||◌, not, List, [], ◌∷◌, ◌++◌, ◌≡◌, refl, arith, inl, inr,
  Bool-cases, All, length, length-append, filter, filter_every, str_eq, ltb,
}
use portfolio_analytics_syst.Prelude.Int.{ℤ}
use portfolio_analytics_syst.RateLimit.Window.{
  WriteEvent, Limits, Windows, is_expired, evict_expired, current_records, at_least_one, admit,
  enforce_ingestion_write_rate_limit,
}

abbrev pub IsWithin : Limits → List WriteEvent → Type 0
IsWithin limits events =
    (length events ≤ limits.max_requests) × (current_records events ≤ limits.max_records)

pub evict_within :
    (limits : Limits) (now : ℕ) (events : List WriteEvent)
    → (length (evict_expired limits now events) ≤ length events)
      × (current_records (evict_expired limits now events) ≤ current_records events)
unfolding evict_expired current_records
evict_within limits now [] = (omega arith, omega arith)
evict_within limits now (e ∷ events) =
    let (n, r) = evict_within limits now events in
    elim (Bool-cases (is_expired limits now e)) [
      | inl h ↦ rw h (omega (arith, n), omega (arith, r))
      | inr h ↦ rw h (omega arith, omega arith)
    ]

current_records-append :
    (xs : List WriteEvent) (e : WriteEvent)
    → current_records (xs ++ e ∷ []) ≡ current_records xs + e.record_count
unfolding current_records
current_records-append [] e = omega arith
current_records-append (x ∷ xs) e = omega (arith, current_records-append xs e)

pub admit-IsWithin :
    (limits : Limits) (now count : ℕ) (events : List WriteEvent)
    → IsWithin limits events
    → IsWithin limits (admit limits now count events).1
unfolding admit
admit-IsWithin limits now count events (n, r) =
    let live = evict_expired limits now events in
    let added : WriteEvent = record { observed_at = now; record_count = count } in
    let (fewer, less) = evict_within limits now events in
    elim (Bool-cases (
      ltb limits.max_requests (length live + 1)
      || ltb limits.max_records (current_records live + count))) [
        | inl h ↦ rw h (omega (arith, fewer, n), omega (arith, less, r))
        | inr h ↦ rw h (
          ground (arith, h, length-append live (added ∷ [])),
          ground (arith, h, current_records-append live added),
        )
      ]

-- With the limit enabled, a write to any endpoint, of any size and at any time, accepted or refused,
-- keeps every endpoint within both limits when all were.
pub enforce_ingestion_write_rate_limit-IsWithin :
    (limits : Limits) (endpoint : String) (count : ℤ) (now : ℕ) (windows : Windows)
    → ((name : String) → IsWithin limits (windows name))
    → limits.enabled ≡ true
    → (name : String)
    → IsWithin limits
        ((enforce_ingestion_write_rate_limit limits endpoint count now windows).1 name)
unfolding enforce_ingestion_write_rate_limit
enforce_ingestion_write_rate_limit-IsWithin limits endpoint count now windows h on name =
    elim (Bool-cases (str_eq name endpoint)) [
      | inl e ↦
          rw (on, e)
            (admit-IsWithin limits now (at_least_one count) (windows endpoint) (h endpoint))
      | inr e ↦ rw (on, e) (h name)
    ]

-- The events stand in the order of their times.
abbrev pub InOrder : List WriteEvent → Type 0
InOrder [] = Unit
InOrder (e ∷ events) = All (λ f. e.observed_at ≤ f.observed_at) events × InOrder events

All-live :
    (limits : Limits) (now : ℕ) (e : WriteEvent) (events : List WriteEvent)
    → is_expired limits now e ≡ false
    → All (λ f. e.observed_at ≤ f.observed_at) events
    → All (λ f. not (is_expired limits now f) ≡ true) events
All-live limits now e [] h k = tt
All-live limits now e (f ∷ events) h (k, ks) =
    (ground (arith, h, k), All-live limits now e events h ks)

-- For events in order of time, evicting from the front drops exactly the expired events.
pub evict_expired-filter :
    (limits : Limits) (now : ℕ) (events : List WriteEvent)
    → InOrder events
    → evict_expired limits now events ≡ filter (λ e. not (is_expired limits now e)) events
unfolding evict_expired filter
evict_expired-filter limits now [] h = refl
evict_expired-filter limits now (e ∷ events) (h, hs) = elim (Bool-cases (is_expired limits now e)) [
  | inl x ↦ rw x (evict_expired-filter limits now events hs)
  | inr x ↦
      rw
        (
          x,
          filter_every (λ f. not (is_expired limits now f)) events
              (All-live limits now e events x h),
        )
        refl
]
