-- ===== src/RateLimit/Deques.antt =====
-- The deque of an endpoint against the log of the writes that were accepted there.
use portfolio_analytics_syst.Prelude.{
  ℕ, ◌+◌, ◌≤◌, Bool, true, false, ◌&&◌, ◌||◌, List, [], ◌∷◌, ◌++◌, ◌≡◌, refl, sym, ap, ◌∙◌, arith,
  inl, inr, Bool-cases, All, All-append, All-weaken, length, filter, filter-append, filter_every,
  leb, ltb, if◌then◌else◌,
}
use portfolio_analytics_syst.RateLimit.Window.{
  WriteEvent, Limits, is_expired, evict_expired, current_records, admit,
}
use portfolio_analytics_syst.RateLimit.Bounds.{IsWithin, InOrder, admit-IsWithin}

-- Less than a window ago, or exactly that.
abbrev pub in_window : Limits → ℕ → WriteEvent → Bool
in_window limits now e = leb now (e.observed_at + limits.window)

-- One more write fits in.
abbrev pub fits : Limits → ℕ → List WriteEvent → Bool
fits limits count events =
    leb (length events + 1) limits.max_requests
    && leb (current_records events + count) limits.max_records

module _ (limits : Limits) where
  -- The deque of an endpoint holds the accepted writes of the last window.
  pub record Tracks (at : ℕ) (log deque : List WriteEvent) : Type 0 where
    pub holds : deque ≡ filter (in_window limits at) log
    pub order : InOrder log
    pub past : All (λ e. e.observed_at ≤ at) log
    pub within : IsWithin limits deque

  later-in_window :
      (now : ℕ) (e : WriteEvent) (events : List WriteEvent)
      → in_window limits now e ≡ true
      → All (λ f. e.observed_at ≤ f.observed_at) events
      → All (λ f. in_window limits now f ≡ true) events
  later-in_window now e [] h k = tt
  later-in_window now e (f ∷ events) h (k, ks) =
      (ground (arith, h, k), later-in_window now e events h ks)

  pub evict-in_window :
      (at now : ℕ) (log : List WriteEvent)
      → at ≤ now
      → InOrder log
      → evict_expired limits now (filter (in_window limits at) log)
        ≡ filter (in_window limits now) log
  unfolding evict_expired filter
  evict-in_window at now [] h o = refl
  evict-in_window at now (e ∷ log) h (k, o) = elim (Bool-cases (in_window limits now e)) [
    | inl live ↦
        let was : in_window limits at e ≡ true = ground (arith, h, live) in
        let kept : is_expired limits now e ≡ false = ground (arith, live) in
        rw (live, was, kept)
          (ap (λ l. e ∷ l)
            (filter_every (in_window limits at) log (later-in_window at e log was k)
              ∙ sym (filter_every (in_window limits now) log (later-in_window now e log live k))))
    | inr gone ↦
        let dropped : is_expired limits now e ≡ true = ground (arith, gone) in
        elim (Bool-cases (in_window limits at e)) [
          | inl was ↦ rw (gone, was, dropped) (evict-in_window at now log h o)
          | inr was ↦ rw (gone, was) (evict-in_window at now log h o)
        ]
  ]

  InOrder-append :
      (log : List WriteEvent) (e : WriteEvent)
      → InOrder log
      → All (λ f. f.observed_at ≤ e.observed_at) log
      → InOrder (log ++ e ∷ [])
  InOrder-append [] e o h = (tt, tt)
  InOrder-append (f ∷ log) e (k, o) (h, hs) = (
    All-append (λ g. f.observed_at ≤ g.observed_at) log (e ∷ []) k (h, tt),
    InOrder-append log e o hs,
  )

  abbrev pub logged : Bool → List WriteEvent → WriteEvent → List WriteEvent
  logged b log e = if b then log ++ e ∷ [] else log

  pub admit-fits :
      (now count at : ℕ) (log deque : List WriteEvent)
      → Tracks at log deque
      → at ≤ now
      → (admit limits now count deque).0 ≡ fits limits count (filter (in_window limits now) log)
  unfolding admit
  admit-fits now count at log deque t h =
      let live : evict_expired limits now deque ≡ filter (in_window limits now) log =
        ap (evict_expired limits now) t.holds ∙ evict-in_window at now log h t.order in
      rw (live) (ground arith)

  now-in_window :
      (now : ℕ) (e : WriteEvent)
      → e.observed_at ≡ now
      → filter (in_window limits now) (e ∷ []) ≡ e ∷ []
  unfolding filter
  now-in_window now e h = ground (arith, h)

  pub admit-Tracks :
      (now count at : ℕ) (log deque : List WriteEvent)
      → Tracks at log deque
      → at ≤ now
      → Tracks now
          (logged
            (admit limits now count deque).0
            log
            (record { observed_at = now; record_count = count }))
          (admit limits now count deque).1
  unfolding admit
  admit-Tracks now count at log deque t h =
      let e : WriteEvent = record { observed_at = now; record_count = count } in
      let live = evict_expired limits now deque in
      let kept : live ≡ filter (in_window limits now) log =
        ap (evict_expired limits now) t.holds ∙ evict-in_window at now log h t.order in
      let earlier : All (λ f. f.observed_at ≤ now) log =
        All-weaken (λ f. f.observed_at ≤ at) (λ f. f.observed_at ≤ now) log
          (λ f k. omega (arith, k, h)) t.past in
      let bounded = admit-IsWithin limits now count deque t.within in
      elim (Bool-cases (
        ltb limits.max_requests (length live + 1)
        || ltb limits.max_records (current_records live + count))) [
          | inl x ↦ record {
            holds = rw (x) kept;
            order = rw (x) t.order;
            past = rw (x) earlier;
            within = bounded;
          }
          | inr x ↦ record {
            holds = rw (x) (
                ap (λ l. l ++ e ∷ []) kept
                ∙ sym (
                    filter-append (in_window limits now) log (e ∷ [])
                    ∙ ap (λ l. filter (in_window limits now) log ++ l) (now-in_window now e refl)));
            order = rw (x) (InOrder-append log e t.order earlier);
            past =
                rw (x)
                  (All-append (λ f. f.observed_at ≤ now) log (e ∷ []) earlier (omega arith, tt));
            within = bounded;
          }
        ]
