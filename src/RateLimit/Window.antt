-- ===== src/RateLimit/Window.antt =====
-- `enforce_ingestion_write_rate_limit`: a sliding window of the accepted writes of each endpoint. An
-- instant and the window are numbers of microseconds.
use portfolio_analytics_syst.Prelude.{
  ℕ, zero, suc, ◌+◌, String, Bool, true, false, ◌||◌, List, [], ◌∷◌, ◌++◌, length, str_eq, ltb,
  if◌then◌else◌,
}
use portfolio_analytics_syst.Prelude.Int.{ℤ, pos, negsuc}

pub record WriteEvent : Type 0 where
  pub observed_at : ℕ
  pub record_count : ℕ

-- The settings that the environment gives.
pub record Limits : Type 0 where
  pub enabled : Bool
  pub window : ℕ
  pub max_requests : ℕ
  pub max_records : ℕ

-- The defaultdict of deques, by endpoint.
abbrev pub Windows : Type 0
Windows = String → List WriteEvent

abbrev pub is_expired : Limits → ℕ → WriteEvent → Bool
is_expired limits now e = ltb (e.observed_at + limits.window) now

unfoldable pub evict_expired : Limits → ℕ → List WriteEvent → List WriteEvent
evict_expired limits now [] = []
evict_expired limits now (e ∷ events) =
    let rest = evict_expired limits now events in
    if is_expired limits now e then rest else e ∷ events

-- `sum(item.record_count for item in events)`
unfoldable pub current_records : List WriteEvent → ℕ
current_records [] = 0
current_records (e ∷ events) = e.record_count + current_records events

-- A count below one is one.
abbrev pub at_least_one : ℤ → ℕ
at_least_one (pos zero) = 1
at_least_one (pos (suc n)) = suc n
at_least_one (negsuc n) = 1

-- Whether the write is accepted (a refused one raises `PermissionError`), and the events after it:
-- the expired ones are dropped in either case.
unfoldable pub admit : Limits → ℕ → ℕ → List WriteEvent → Bool × List WriteEvent
unfolding evict_expired current_records
admit limits now count events =
    let live = evict_expired limits now events in
    if ltb limits.max_requests (length live + 1)
      || ltb limits.max_records (current_records live + count)
    then (false, live)
    else (true, live ++ record { observed_at = now; record_count = count } ∷ [])

abbrev pub set_events : Windows → String → List WriteEvent → Windows
set_events windows endpoint events name = if str_eq name endpoint then events else windows name

unfoldable pub enforce_ingestion_write_rate_limit :
    Limits → String → ℤ → ℕ → Windows → Bool × Windows
unfolding admit
enforce_ingestion_write_rate_limit limits endpoint record_count now windows =
    let (accepted, events) = admit limits now (at_least_one record_count) (windows endpoint) in
    if limits.enabled then (accepted, set_events windows endpoint events) else (true, windows)
