-- ===== src/RateLimit/Tests.antt =====
-- The limit at two writes in a window of ten.
use portfolio_analytics_syst.Prelude.{
  ℕ, String, true, not, List, [], ◌∷◌, ◌≡◌, refl, arith, filter, str_eq,
}
use portfolio_analytics_syst.Prelude.Int.{pos}
use portfolio_analytics_syst.RateLimit.Window.{
  WriteEvent, Limits, Windows, is_expired, evict_expired, current_records,
  enforce_ingestion_write_rate_limit, admit,
}
use portfolio_analytics_syst.RateLimit.Deques.{in_window, fits}
use portfolio_analytics_syst.RateLimit.Accepted.{
  Request, serve, accepted_writes, accepted_writes-IsWithin,
}
use portfolio_analytics_syst.RateLimit.Bounds.{
  IsWithin, enforce_ingestion_write_rate_limit-IsWithin, InOrder, evict_expired-filter,
}

abbrev limits : Limits
limits = record { enabled = true; window = 10; max_requests = 2; max_records = 100 }

abbrev write : ℕ → ℕ → WriteEvent
write at count = record { observed_at = at; record_count = count }

abbrev events : List WriteEvent
events = write 1 5 ∷ write 8 7 ∷ []

abbrev windows : Windows
windows name = events

windows-IsWithin : (name : String) → IsWithin limits (windows name)
windows-IsWithin name = (omega arith, unfold current_records in omega arith)

one_write_keeps_the_limits :
    IsWithin limits
      ((enforce_ingestion_write_rate_limit limits "/transactions" (pos 3) 15 windows).1 "/prices")
one_write_keeps_the_limits =
    enforce_ingestion_write_rate_limit-IsWithin limits "/transactions" (pos 3) 15 windows
      windows-IsWithin refl "/prices"

events-InOrder : InOrder events
events-InOrder = ((omega arith, tt), (tt, tt))

evicts_expired : evict_expired limits 15 events ≡ filter (λ e. not (is_expired limits 15 e)) events
evicts_expired = evict_expired-filter limits 15 events events-InOrder

abbrev post : ℕ → Request
post at = record { endpoint = "/prices"; record_count = pos 3; at = at }

abbrev posts : List Request
posts = post 1 ∷ post 8 ∷ post 9 ∷ []

-- The third is refused, and the writes at 1 and 8 are in the window that ends at 11.
two_are_accepted : accepted_writes limits "/prices" posts (λ _. []) ≡ write 1 3 ∷ write 8 3 ∷ []
unfolding accepted_writes enforce_ingestion_write_rate_limit admit evict_expired current_records
    str_eq
two_are_accepted = refl

accepted_writes-IsWithin_example :
    let served = filter (in_window limits 12) (accepted_writes limits "/prices" posts (λ _. [])) in
    IsWithin limits served
    × ((enforce_ingestion_write_rate_limit limits "/prices"
          (pos 3)
          12
          (serve limits posts (λ _. []))).0
        ≡ fits limits 3 served)
accepted_writes-IsWithin_example =
    accepted_writes-IsWithin limits refl posts (post 12)
      (omega arith, (omega arith, (omega arith, omega arith)))
