-- ===== src/Positions/Running.antt =====
-- The running position: a calculation can be resumed from any of its rows, the quantity is the sum
-- of what the transactions move, and a closed position carries no cost.
use portfolio_analytics_syst.Prelude.{
  ℕ, false, Option, some, List, [], ◌∷◌, ◌++◌, ◌≡◌, ◌⊎◌, inl, inr, refl, ap, Bool-cases, All,
  str_eq, str_in, upper, sum_by, if◌then◌else◌,
}
use portfolio_analytics_syst.Prelude.Int.{pos, ◌+ℤ◌, neg, is_zero, int_laws, +ℤ_assoc}
use portfolio_analytics_syst.Decimal.{Decimal}
use portfolio_analytics_syst.Events.{TransactionEvent}
use portfolio_analytics_syst.Positions.Logic.{
  Amounts, Position, moved, calculate_next_position, record_position, run_positions, start_from,
  calculate_new_positions,
}

-- The last row, or the anchor when there is none.
abbrev pub last_position : Option Position → List Position → Option Position
last_position anchor [] = anchor
last_position anchor (p ∷ ps) = last_position (some p) ps

-- The rows of a history are those of its first part, and those of the rest calculated from the last
-- row of the first part as the anchor.
pub calculate_new_positions-append :
    (anchor : Option Position) (xs ys : List TransactionEvent) (epoch : ℕ)
    → let first = calculate_new_positions anchor xs epoch in
      calculate_new_positions anchor (xs ++ ys) epoch
      ≡ first ++ calculate_new_positions (last_position anchor first) ys epoch
unfolding calculate_new_positions run_positions
calculate_new_positions-append anchor [] ys epoch = refl
calculate_new_positions-append anchor (x ∷ xs) ys epoch =
    let row = record_position epoch x (calculate_next_position (start_from anchor) x) in
    ap (λ l. row ∷ l) (calculate_new_positions-append (some row) xs ys epoch)

-- What each type of transaction moves, from the business rules: units for trades and transfers,
-- and the amount of money for cash movements.
abbrev pub quantity_effect : TransactionEvent → Decimal
quantity_effect t =
    let kind = upper t.transaction_type in
    if str_eq kind "BUY"
    then t.quantity
    else if str_in kind ("SELL" ∷ "TRANSFER_OUT" ∷ [])
    then neg t.quantity
    else if str_eq kind "DEPOSIT"
    then t.gross_transaction_amount
    else if str_eq kind "TRANSFER_IN"
    then t.quantity
    else if str_in kind ("FEE" ∷ "TAX" ∷ "WITHDRAWAL" ∷ [])
    then neg t.gross_transaction_amount
    else pos 0

moved-quantity :
    (s : Amounts) (t : TransactionEvent) → (moved s t).quantity ≡ s.quantity +ℤ quantity_effect t
unfolding moved
moved-quantity s t =
    let kind = upper t.transaction_type in
    elim (Bool-cases (str_eq kind "BUY")) [
      | inl e ↦ rw e refl
      | inr e ↦ elim (Bool-cases (str_in kind ("SELL" ∷ "TRANSFER_OUT" ∷ []))) [
        | inl f ↦ rw (e, f) (omega int_laws)
        | inr f ↦ elim (Bool-cases (str_eq kind "DEPOSIT")) [
          | inl g ↦ rw (e, f, g) refl
          | inr g ↦ elim (Bool-cases (str_eq kind "TRANSFER_IN")) [
            | inl h ↦ rw (e, f, g, h) refl
            | inr h ↦ elim (Bool-cases (str_in kind ("FEE" ∷ "TAX" ∷ "WITHDRAWAL" ∷ []))) [
              | inl k ↦ rw (e, f, g, h, k) (omega int_laws)
              | inr k ↦ rw (e, f, g, h, k) (omega int_laws)
            ]
          ]
        ]
      ]
    ]

next-quantity :
    (s : Amounts) (t : TransactionEvent)
    → (calculate_next_position s t).quantity ≡ (moved s t).quantity
unfolding calculate_next_position
next-quantity s t = elim (Bool-cases (is_zero (moved s t).quantity)) [
  | inl e ↦ rw e refl
  | inr e ↦ rw e refl
]

-- The quantity of the last row is that of the anchor and what all the transactions move.
pub calculate_new_positions-quantity :
    (anchor : Option Position) (ts : List TransactionEvent) (epoch : ℕ)
    → (start_from (last_position anchor (calculate_new_positions anchor ts epoch))).quantity
      ≡ (start_from anchor).quantity +ℤ sum_by quantity_effect ts
unfolding calculate_new_positions run_positions sum_by
calculate_new_positions-quantity anchor [] epoch = omega int_laws
calculate_new_positions-quantity anchor (t ∷ ts) epoch =
    let start = start_from anchor in
    let row = record_position epoch t (calculate_next_position start t) in
    rw
      (
        calculate_new_positions-quantity (some row) ts epoch,
        next-quantity start t,
        moved-quantity start t,
      )
      (+ℤ_assoc start.quantity (quantity_effect t) (sum_by quantity_effect ts))

-- An open position, or one with no cost.
abbrev pub HasNoIdleCost : Position → Type 0
HasNoIdleCost p =
    (is_zero p.quantity ≡ false) ⊎ (p.cost_basis ≡ pos 0) × (p.cost_basis_local ≡ some (pos 0))

next-HasNoIdleCost :
    (s : Amounts) (t : TransactionEvent) (epoch : ℕ)
    → HasNoIdleCost (record_position epoch t (calculate_next_position s t))
unfolding calculate_next_position
next-HasNoIdleCost s t epoch = elim (Bool-cases (is_zero (moved s t).quantity)) [
  | inl e ↦ inr (rw e (refl, refl))
  | inr e ↦ inl (rw e e)
]

-- Each row that is calculated has an open position, or no cost in either currency.
pub run_positions-HasNoIdleCost :
    (s : Amounts) (ts : List TransactionEvent) (epoch : ℕ)
    → All HasNoIdleCost (run_positions s ts epoch)
unfolding run_positions
run_positions-HasNoIdleCost s [] epoch = tt
run_positions-HasNoIdleCost s (t ∷ ts) epoch = (
  next-HasNoIdleCost s t epoch,
  run_positions-HasNoIdleCost (calculate_next_position s t) ts epoch,
)
