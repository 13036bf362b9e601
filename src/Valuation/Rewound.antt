-- ===== src/Valuation/Rewound.antt =====
-- Rewinding the watermarks of a security, and the trigger that asks for it.
use mathlib.Core.Path.{subst}
use portfolio_analytics_syst.Prelude.{
  ℕ, ◌≤◌, ◌<◌, ◌-◌, String, Bool, true, false, List, [], ◌∷◌, ◌++◌, map, filter, All, All-weaken,
  str_eq, str_in, str_eq_iff, str_eq_self, str_eq_comm, ◌≡◌, refl, sym, ap, ◌∙◌, arith, inl, inr,
  Bool-cases,
}
use portfolio_analytics_syst.Prelude.Keys.{Key, key_eq}
use portfolio_analytics_syst.Prelude.Results.{Result, ok, raised, ◌>>=◌}
use portfolio_analytics_syst.Positions.State.{
  PositionState, state_key, update_where, key_in, is_later, rewind, update_watermarks_if_older,
}
use portfolio_analytics_syst.Positions.Calculator.{previous_day}
use portfolio_analytics_syst.Valuation.Reprocessing.{Payload, ReprocessingJob, ReprocessingTables}
use portfolio_analytics_syst.Valuation.ReprocessingWorker.{
  distinct, find_portfolios_for_security, field, rewind_watermarks, settle_job, process_jobs,
  process_batch, find_and_claim_jobs,
}

All-update_where :
    (P Q : PositionState → Type 0) (test : PositionState → Bool)
    (change : PositionState → PositionState) (states : List PositionState)
    → ((s : PositionState) → P s → test s ≡ true → Q (change s))
    → ((s : PositionState) → P s → test s ≡ false → Q s)
    → All P states
    → All Q (update_where test change states)
unfolding update_where
All-update_where P Q test change [] c k h = tt
All-update_where P Q test change (s ∷ states) c k (h, hs) = elim (Bool-cases (test s)) [
  | inl e ↦ rw (e) (c s h e, All-update_where P Q test change states c k hs)
  | inr e ↦ rw (e) (k s h e, All-update_where P Q test change states c k hs)
]

str_in-distinct : (s : String) (l : List String) → str_in s l ≡ true → str_in s (distinct l) ≡ true
unfolding str_in distinct
str_in-distinct s [] h = h
str_in-distinct s (t ∷ l) h = elim (Bool-cases (str_eq s t)) [
  | inl f ↦ elim (Bool-cases (str_in t (distinct l))) [
    | inl e ↦ rw (e) (ap (λ (x : String). str_in x (distinct l)) ((str_eq_iff s t).0 f) ∙ e)
    | inr e ↦ rw (e, f) refl
  ]
  | inr f ↦ let rest = str_in-distinct s l (ground (arith, h, f)) in ground (arith, rest, f)
]

key_in_of :
    (p security_id : String) (ps : List String)
    → str_in p ps ≡ true
    → key_in (p, security_id) (map (λ (q : String). (q, security_id)) ps) ≡ true
unfolding str_in key_in key_eq
key_in_of p security_id [] h = h
key_in_of p security_id (q ∷ ps) h =
    ground (arith, h, str_eq_comm q p, str_eq_self security_id, key_in_of p security_id ps)

holders-All :
    (security_id : String) (states : List PositionState)
    → All
        (λ s.
          (str_eq s.security_id security_id ≡ true)
          → str_in s.portfolio_id (
              map
                (λ (s : PositionState). s.portfolio_id)
                (filter (λ (s : PositionState). str_eq s.security_id security_id) states))
            ≡ true)
        states
unfolding str_in filter
holders-All security_id [] = tt
holders-All security_id (s ∷ states) = (
  λ h. rw (h) (ground (arith, str_eq_self s.portfolio_id)),
  All-weaken _ _ states (λ (x : PositionState) k h. ground (arith, k h))
      (holders-All security_id states),
)

-- Every state of the security has a watermark of at most this date.
abbrev pub IsRewound : String → ℕ → List PositionState → Type 0
IsRewound security_id date states =
    All (λ s. (str_eq s.security_id security_id ≡ true) → s.watermark_date ≤ date) states

update-IsRewound :
    (security_id : String) (keys : List Key) (date : ℕ) (states : List PositionState)
    → All (λ s. (str_eq s.security_id security_id ≡ true) → key_in (state_key s) keys ≡ true) states
    → IsRewound security_id date (update_watermarks_if_older keys date states).1
unfolding update_watermarks_if_older key_in
update-IsRewound security_id [] date states h =
    All-weaken _ _ states (λ (s : PositionState) k e. ground (arith, k e)) h
update-IsRewound security_id (key ∷ keys) date states h =
    All-update_where
      (λ s. (str_eq s.security_id security_id ≡ true) → key_in (state_key s) (key ∷ keys) ≡ true)
      (λ s. (str_eq s.security_id security_id ≡ true) → s.watermark_date ≤ date)
      (is_later (key ∷ keys) date) (rewind date) states (λ s k e f. omega arith)
      (λ s k e f. ground (arith, k f, e)) h

-- Watermarks only move back.
update-KeepsRewound :
    (security_id : String) (limit : ℕ) (keys : List Key) (date : ℕ) (states : List PositionState)
    → IsRewound security_id limit states
    → IsRewound security_id limit (update_watermarks_if_older keys date states).1
unfolding update_watermarks_if_older
update-KeepsRewound security_id limit [] date states h = h
update-KeepsRewound security_id limit (key ∷ keys) date states h =
    All-update_where (λ s. (str_eq s.security_id security_id ≡ true) → s.watermark_date ≤ limit)
      (λ s. (str_eq s.security_id security_id ≡ true) → s.watermark_date ≤ limit)
      (is_later (key ∷ keys) date) (rewind date) states (λ s k e f. ground (arith, k f, e))
      (λ s k e f. k f) h

holders-key_in :
    (security_id : String) (states : List PositionState)
    → All
        (λ s.
          (str_eq s.security_id security_id ≡ true)
          → key_in (state_key s) (
              map
                (λ (p : String). (p, security_id))
                (find_portfolios_for_security security_id states))
            ≡ true)
        states
unfolding find_portfolios_for_security
holders-key_in security_id states =
    let ps = find_portfolios_for_security security_id states in
    All-weaken _ _ states
      (λ (s : PositionState) k h.
        ap (λ (x : String). key_in (s.portfolio_id, x) (map (λ (p : String). (p, security_id)) ps))
          ((str_eq_iff s.security_id security_id).0 h)
        ∙ key_in_of s.portfolio_id security_id ps (str_in-distinct s.portfolio_id _ (k h)))
      (holders-All security_id states)

module _ (fromisoformat : String → Result ℕ) where
  -- The states after a job, if it completes.
  abbrev kept : List PositionState → Result (List PositionState) → List PositionState
  kept states (raised text) = states
  kept states (ok after) = after

  settle_job-states :
      (job_id now : ℕ) (t : ReprocessingTables) (r : Result (List PositionState))
      → (settle_job fromisoformat job_id now t r).states ≡ kept t.states r
  settle_job-states job_id now t (raised text) = refl
  settle_job-states job_id now t (ok after) = refl

  kept_of {ℓ} :
      {A : Type ℓ} (P : List PositionState → Type 0) (states : List PositionState)
      → P states
      → (r : Result A) (f : A → Result (List PositionState)) → ((x : A) → P (kept states (f x)))
      → P (kept states (r >>= f))
  kept_of P states h (raised text) f k = h
  kept_of P states h (ok x) f k = k x

  previous_day_of : (date : ℕ) → 1 < date → previous_day date ≡ ok (date - 1)
  previous_day_of date h = ground (arith, h)

  -- A payload that names a security and a date with a day before it.
  abbrev pub Names : Payload → String → ℕ → Type 0
  Names payload security_id date =
      (field "security_id" payload ≡ ok security_id)
      × ((text : String) × (field "earliest_impacted_date" payload ≡ ok text)
          × (fromisoformat text ≡ ok date))
      × (1 < date)

  rewind_watermarks-IsRewound :
      (payload : Payload) (states : List PositionState) (security_id : String) (date : ℕ)
      → Names payload security_id date
      → IsRewound security_id
          (date - 1)
          (kept states (rewind_watermarks fromisoformat payload states))
  unfolding rewind_watermarks
  rewind_watermarks-IsRewound payload states security_id date (a, (text, b, c), d) =
      rw (a, b, c, previous_day_of date d)
        (update-IsRewound security_id
          (map (λ (p : String). (p, security_id)) (find_portfolios_for_security security_id states))
          (date - 1) states (holders-key_in security_id states))

  rewind_watermarks-KeepsRewound :
      (payload : Payload) (states : List PositionState) (security_id : String) (limit : ℕ)
      → IsRewound security_id limit states
      → IsRewound security_id limit (kept states (rewind_watermarks fromisoformat payload states))
  unfolding rewind_watermarks
  rewind_watermarks-KeepsRewound payload states security_id limit h =
      let P : List PositionState → Type 0 = IsRewound security_id limit in
      kept_of P states h (field "security_id" payload) _ (λ other.
        kept_of P states h (field "earliest_impacted_date" payload) _ (λ text.
          kept_of P states h (fromisoformat text) _ (λ earliest_date.
            kept_of P states h (previous_day earliest_date) _ (λ watermark.
              update-KeepsRewound security_id limit
                (map (λ (p : String). (p, other)) (find_portfolios_for_security other states))
                watermark states h))))

  process_jobs-KeepsRewound :
      (now : ℕ) (jobs : List ReprocessingJob) (t : ReprocessingTables) (security_id : String)
      (limit : ℕ)
      → IsRewound security_id limit t.states
      → IsRewound security_id limit (process_jobs fromisoformat now jobs t).states
  unfolding process_jobs
  process_jobs-KeepsRewound now [] t security_id limit h = h
  process_jobs-KeepsRewound now (j ∷ jobs) t security_id limit h =
      let r = rewind_watermarks fromisoformat j.payload t.states in
      process_jobs-KeepsRewound now jobs (settle_job fromisoformat j.id now t r) security_id limit (
        rw (settle_job-states j.id now t r)
          (rewind_watermarks-KeepsRewound j.payload t.states security_id limit h))

  process_jobs-IsRewound :
      (now : ℕ) (before : List ReprocessingJob) (j : ReprocessingJob) (after : List ReprocessingJob)
      (t : ReprocessingTables) (security_id : String) (date : ℕ)
      → Names j.payload security_id date
      → IsRewound security_id
          (date - 1)
          (process_jobs fromisoformat now (before ++ j ∷ after) t).states
  unfolding process_jobs
  process_jobs-IsRewound now [] j after t security_id date n =
      let r = rewind_watermarks fromisoformat j.payload t.states in
      process_jobs-KeepsRewound now after (settle_job fromisoformat j.id now t r) security_id
        (date - 1)
        (rw (settle_job-states j.id now t r)
          (rewind_watermarks-IsRewound j.payload t.states security_id date n))
  process_jobs-IsRewound now (i ∷ before) j after t security_id date n =
      process_jobs-IsRewound now before j after
        (settle_job fromisoformat i.id now t (rewind_watermarks fromisoformat i.payload t.states))
        security_id date n

  -- A batch that claims a job which names a security and a date leaves every position state of the
  -- security with a watermark before the date, in whatever order the jobs come and whatever becomes
  -- of the others.
  pub process_batch-IsRewound :
      (batch_size now : ℕ) (before : List ReprocessingJob) (j : ReprocessingJob)
      (after : List ReprocessingJob) (t : ReprocessingTables) (security_id : String) (date : ℕ)
      → (find_and_claim_jobs "RESET_WATERMARKS" batch_size now t.jobs).0 ≡ before ++ j ∷ after
      → Names j.payload security_id date
      → IsRewound security_id (date - 1) (process_batch fromisoformat batch_size now t).states
  unfolding process_batch
  process_batch-IsRewound batch_size now before j after t security_id date claimed n =
      let start : ReprocessingTables = record t {
        jobs = (find_and_claim_jobs "RESET_WATERMARKS" batch_size now t.jobs).1;
      } in
      subst
        (λ (l : List ReprocessingJob).
          IsRewound security_id (date - 1) (process_jobs fromisoformat now l start).states)
        (sym claimed) (process_jobs-IsRewound now before j after start security_id date n)
