-- ===== src/TransactionDomain/Rules.antt =====
-- The validators report no issue exactly for the transactions that meet every rule, and list each
-- rule at most once, in the order of the reason codes.
use portfolio_analytics_syst.Prelude.{
  ℕ, ◌<◌, ◌≤◌, Bool, true, false, not, Option, none, some, List, [], ◌∷◌, ◌++◌, ◌≡◌, ◌⊎◌, ◌↔◌, inl,
  inr, refl, arith, str_eq_iff, upper, nonempty, present, is_some,
}
use portfolio_analytics_syst.Prelude.Int.{ℤ, pos, ◌<ℤ◌, leb_ℤ, leb_ℤ→lt}
use portfolio_analytics_syst.TransactionDomain.Validation.{
  Side, side_name, CanonicalTransaction, ReasonCode, ValidationIssue, invalid_transaction_type,
  missing_settlement_date, non_positive_quantity, non_positive_gross_amount, missing_trade_currency,
  missing_book_currency, invalid_date_order, missing_linkage_identifier, missing_policy_metadata,
  issue_if, basic_issues, metadata_issues, validate_transaction, settled_before,
}

-- A settlement date that is not before the trade.
abbrev pub SettlesOnTime : ℕ → Option ℕ → Type 0
SettlesOnTime traded none = ⊥
SettlesOnTime traded (some settled) = traded ≤ settled

abbrev pub MetadataIsComplete : CanonicalTransaction → Type 0
MetadataIsComplete t =
    (present t.economic_event_id ≡ true)
    × (present t.linked_transaction_group_id ≡ true)
    × (present t.calculation_policy_id ≡ true)
    × (present t.calculation_policy_version ≡ true)

-- What the two validators ask of a canonical transaction.
abbrev pub IsCanonical : Side → Bool → CanonicalTransaction → Type 0
IsCanonical side strict t =
    (upper t.transaction_type ≡ side_name side)
    × (pos 0 <ℤ t.quantity)
    × (pos 0 <ℤ t.gross_transaction_amount)
    × (nonempty t.trade_currency ≡ true)
    × (nonempty t.currency ≡ true)
    × SettlesOnTime t.transaction_date t.settlement_date
    × ((strict ≡ false) ⊎ MetadataIsComplete t)

append_nothing {ℓ} : {A : Type ℓ} (xs ys : List A) → xs ++ ys ≡ [] → (xs ≡ []) × (ys ≡ [])
append_nothing [] ys h = (refl, h)
append_nothing (x ∷ xs) ys h = cc

issue_if_nothing : (b : Bool) (i : ValidationIssue) → issue_if b i ≡ [] → b ≡ false
issue_if_nothing true i h = cc
issue_if_nothing false i h = refl

lt→leb_false : (x : ℤ) → pos 0 <ℤ x → leb_ℤ x (pos 0) ≡ false
lt→leb_false x h = ground arith

not-false : (b : Bool) → not b ≡ false → b ≡ true
not-false b h = ground arith

settles :
    (traded : ℕ) (o : Option ℕ)
    → not (is_some o) ≡ false
    → settled_before o traded ≡ false
    → SettlesOnTime traded o
settles traded none h k = ground (arith, h)
settles traded (some d) h k = ground (arith, k)

settles_rules :
    (traded : ℕ) (o : Option ℕ)
    → SettlesOnTime traded o
    → (not (is_some o) ≡ false) × (settled_before o traded ≡ false)
settles_rules traded none h = absurd h
settles_rules traded (some d) h = (refl, ground (arith, h))

basic-IsCanonical :
    (side : Side) (t : CanonicalTransaction) → basic_issues side t ≡ [] → IsCanonical side false t
unfolding basic_issues
basic-IsCanonical side t h =
    let (r6, e7) = append_nothing _ _ h in
    let (r5, e6) = append_nothing _ _ r6 in
    let (r4, e5) = append_nothing _ _ r5 in
    let (r3, e4) = append_nothing _ _ r4 in
    let (r2, e3) = append_nothing _ _ r3 in
    let (e1, e2) = append_nothing _ _ r2 in
    (
      (str_eq_iff (upper t.transaction_type) (side_name side)).0
          (not-false _ (issue_if_nothing _ _ e1)),
      leb_ℤ→lt t.quantity (pos 0) (issue_if_nothing _ _ e3),
      leb_ℤ→lt t.gross_transaction_amount (pos 0) (issue_if_nothing _ _ e4),
      not-false _ (issue_if_nothing _ _ e5),
      not-false _ (issue_if_nothing _ _ e6),
      settles t.transaction_date t.settlement_date (issue_if_nothing _ _ e2)
          (issue_if_nothing _ _ e7),
      inl refl,
    )

IsCanonical-basic :
    (side : Side) (strict : Bool) (t : CanonicalTransaction)
    → IsCanonical side strict t
    → basic_issues side t ≡ []
unfolding basic_issues
IsCanonical-basic side strict t (kind, quantity, gross, traded, booked, settled, meta) =
    let (has_date, in_order) = settles_rules t.transaction_date t.settlement_date settled in
    rw
      (
        (str_eq_iff (upper t.transaction_type) (side_name side)).1 kind,
        has_date,
        lt→leb_false t.quantity quantity,
        lt→leb_false t.gross_transaction_amount gross,
        traded,
        booked,
        in_order,
      )
      refl

metadata_complete : (t : CanonicalTransaction) → (metadata_issues t ≡ []) ↔ MetadataIsComplete t
unfolding metadata_issues
metadata_complete t = ground arith

-- A transaction has no issue exactly when it meets every rule of its side; the linkage and policy
-- metadata count only under strict validation.
pub validate_transaction-IsCanonical :
    (side : Side) (strict : Bool) (t : CanonicalTransaction)
    → (validate_transaction side strict t ≡ []) ↔ IsCanonical side strict t
unfolding validate_transaction
validate_transaction-IsCanonical side true t = (
  λ h.
      let (basic, meta) = append_nothing _ _ h in
      let (kind, quantity, gross, traded, booked, settled, _) = basic-IsCanonical side t basic in
      (kind, quantity, gross, traded, booked, settled, inr ((metadata_complete t).0 meta)),
  λ (kind, quantity, gross, traded, booked, settled, meta).
      rw
        (
          IsCanonical-basic side false t (kind, quantity, gross, traded, booked, settled, inl refl),
          (metadata_complete t).1 (strict_metadata meta),
        )
        refl,
)
  where
    strict_metadata : (true ≡ false) ⊎ MetadataIsComplete t → MetadataIsComplete t
    strict_metadata (inl e) = cc
    strict_metadata (inr m) = m
validate_transaction-IsCanonical side false t = (
  λ h. basic-IsCanonical side t (append_nothing _ _ h).0,
  λ c. rw (IsCanonical-basic side false t c) refl,
)

-- The number of a reason code.
abbrev pub code_number : ReasonCode → ℕ
code_number invalid_transaction_type = 1
code_number missing_settlement_date = 2
code_number non_positive_quantity = 3
code_number non_positive_gross_amount = 4
code_number missing_trade_currency = 5
code_number missing_book_currency = 6
code_number invalid_date_order = 7
code_number missing_linkage_identifier = 8
code_number missing_policy_metadata = 9

-- Every code is greater than those before it, above the first bound and at most the second.
unfoldable pub Ascending : ℕ → List ValidationIssue → ℕ → Type 0
Ascending low [] high = low ≤ high
Ascending low (i ∷ issues) high =
    (low < code_number i.code) × Ascending (code_number i.code) issues high

Ascending-lower :
    (low mid high : ℕ) (issues : List ValidationIssue)
    → low ≤ mid
    → Ascending mid issues high
    → Ascending low issues high
unfolding Ascending
Ascending-lower low mid high [] h k = omega (arith, h, k)
Ascending-lower low mid high (i ∷ issues) h (k, ks) = (omega (arith, h, k), ks)

Ascending-append :
    (low mid high : ℕ) (xs ys : List ValidationIssue)
    → Ascending low xs mid
    → Ascending mid ys high
    → Ascending low (xs ++ ys) high
unfolding Ascending
Ascending-append low mid high [] ys h k = Ascending-lower low mid high ys h k
Ascending-append low mid high (x ∷ xs) ys (h, hs) k =
    (h, Ascending-append (code_number x.code) mid high xs ys hs k)

Ascending-issue_if :
    (b : Bool) (i : ValidationIssue) (low high : ℕ)
    → low < code_number i.code
    → code_number i.code ≤ high
    → Ascending low (issue_if b i) high
unfolding Ascending
Ascending-issue_if true i low high h k = (h, k)
Ascending-issue_if false i low high h k = omega (arith, h, k)

basic-Ascending : (side : Side) (t : CanonicalTransaction) → Ascending 0 (basic_issues side t) 7
unfolding basic_issues
basic-Ascending side t =
    Ascending-append 0 6 7 _ _
      (Ascending-append 0 5 6 _ _
        (Ascending-append 0 4 5 _ _
          (Ascending-append 0 3 4 _ _
            (Ascending-append 0 2 3 _ _
              (Ascending-append 0 1 2 _ _ (Ascending-issue_if _ _ 0 1 (omega arith) (omega arith))
                (Ascending-issue_if _ _ 1 2 (omega arith) (omega arith)))
              (Ascending-issue_if _ _ 2 3 (omega arith) (omega arith)))
            (Ascending-issue_if _ _ 3 4 (omega arith) (omega arith)))
          (Ascending-issue_if _ _ 4 5 (omega arith) (omega arith)))
        (Ascending-issue_if _ _ 5 6 (omega arith) (omega arith)))
      (Ascending-issue_if _ _ 6 7 (omega arith) (omega arith))

metadata-Ascending : (t : CanonicalTransaction) → Ascending 7 (metadata_issues t) 9
unfolding metadata_issues
metadata-Ascending t =
    Ascending-append 7 8 9 _ _ (Ascending-issue_if _ _ 7 8 (omega arith) (omega arith))
      (Ascending-issue_if _ _ 8 9 (omega arith) (omega arith))

-- The issues come in the order of their reason codes, each code at most once.
pub validate_transaction-Ascending :
    (side : Side) (strict : Bool) (t : CanonicalTransaction)
    → Ascending 0 (validate_transaction side strict t) 9
unfolding validate_transaction Ascending
validate_transaction-Ascending side true t =
    Ascending-append 0 7 9 _ _ (basic-Ascending side t) (metadata-Ascending t)
validate_transaction-Ascending side false t =
    Ascending-append 0 7 9 _ [] (basic-Ascending side t) (omega arith)
