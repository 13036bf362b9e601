-- ===== src/Simulation/Proposed.antt =====
-- The quantities of the projection against a reading of the baseline and of the changes that does not
-- use its code.
use portfolio_analytics_syst.Prelude.{
  String, Bool, true, false, ◌||◌, Option, none, some, List, [], ◌∷◌, map, ◌≡◌, refl, sym, ap, ◌∙◌,
  arith, inl, inr, Bool-cases, str_eq, str_eq_iff, str_eq_self, str_in, if◌then◌else◌, is_some,
  upper, get_or,
}
use portfolio_analytics_syst.Prelude.Int.{pos, is_zero, is_zero→eq}
use portfolio_analytics_syst.Prelude.Tables.{
  find_row, upsert_row, or_new, find_row-upsert_row, find_row-upsert_other,
}
use portfolio_analytics_syst.Decimal.{Decimal}
use portfolio_analytics_syst.Simulation.Sessions.{SimulationChange}
use portfolio_analytics_syst.Simulation.Projection.{
  Floats, InstrumentInfo, BaselineRow, Projected, or_amount, is_of, change_quantity_effect,
  of_baseline, baseline_map, renamed, projected_map,
}
use portfolio_analytics_syst.Simulation.Quantities.{after_changes, entry, projected_map-entry}

-- The types that move a quantity, and whether they add to it.
abbrev pub directions : List (String × Bool)
directions =
    ("BUY", true)
    ∷ ("DEPOSIT", true)
    ∷ ("TRANSFER_IN", true)
    ∷ ("SELL", false)
    ∷ ("WITHDRAWAL", false)
    ∷ ("TRANSFER_OUT", false)
    ∷ ("FEE", false)
    ∷ ("TAX", false)
    ∷ []

-- The size of a change: its quantity, or its amount if that is missing or zero, or zero.
abbrev pub size_of : Option Decimal → Option Decimal → Decimal
size_of none amount = get_or amount (pos 0)
size_of (some q) amount = if is_zero q then get_or amount (pos 0) else q

-- The quantity of the last row of a security, if there is one.
unfoldable pub last_held : String → List BaselineRow → Option Decimal → Option Decimal
last_held id [] o = o
last_held id (b ∷ bs) o = last_held id bs (if str_eq b.security_id id then some b.quantity else o)

or_zero : (d : Decimal) → get_or (or_amount (some d) none) (pos 0) ≡ d
or_zero d = elim (Bool-cases (is_zero d)) [
  | inl e ↦ rw (e) (sym (is_zero→eq d e))
  | inr e ↦ rw (e) refl
]

amount_or_zero :
    (amount : Option Decimal) → get_or (or_amount amount none) (pos 0) ≡ get_or amount (pos 0)
amount_or_zero none = refl
amount_or_zero (some a) = or_zero a

size_of-or_amount :
    (q amount : Option Decimal)
    → get_or (or_amount (or_amount q amount) none) (pos 0) ≡ size_of q amount
size_of-or_amount none amount = amount_or_zero amount
size_of-or_amount (some q) amount = elim (Bool-cases (is_zero q)) [
  | inl e ↦ rw (e) (amount_or_zero amount)
  | inr e ↦ rw (e, e) refl
]

module _ (floats : Floats) where
  open floats use {Float}

  abbrev pub start : Option Decimal → Float
  start none = floats.zero_float
  start (some d) = floats.of_decimal d

  abbrev pub in_direction : Float → Option (String × Bool) → Float
  in_direction size none = floats.zero_float
  in_direction size (some (name, true)) = size
  in_direction size (some (name, false)) = floats.negate size

  -- What a change adds.
  abbrev pub effect : SimulationChange → Float
  effect c =
      in_direction (floats.of_decimal (size_of c.quantity c.amount))
        (find_row (λ (d : String × Bool). str_eq (upper c.transaction_type) d.0) directions)

  -- The quantity after the changes of a security, in order.
  unfoldable pub moved_quantity : String → Float → List SimulationChange → Float
  moved_quantity id quantity [] = quantity
  moved_quantity id quantity (c ∷ cs) =
      moved_quantity id
        (if str_eq c.security_id id then floats.add quantity (effect c) else quantity) cs

  in_direction-kind :
      (kind : String) (size : Float)
      → (if str_in kind ("BUY" ∷ "DEPOSIT" ∷ "TRANSFER_IN" ∷ [])
          then size
          else if str_in kind ("SELL" ∷ "WITHDRAWAL" ∷ "TRANSFER_OUT" ∷ "FEE" ∷ "TAX" ∷ [])
          then floats.negate size
          else floats.zero_float)
        ≡ in_direction size (find_row (λ (d : String × Bool). str_eq kind d.0) directions)
  unfolding str_in find_row
  in_direction-kind kind size = ground arith

  effect_lem : (c : SimulationChange) → change_quantity_effect floats c ≡ effect c
  unfolding change_quantity_effect
  effect_lem c =
      in_direction-kind (upper c.transaction_type) _
      ∙ ap
          (λ d.
            in_direction (floats.of_decimal d)
              (find_row (λ (d : String × Bool). str_eq (upper c.transaction_type) d.0) directions))
          (size_of-or_amount c.quantity c.amount)

  moved_quantity_lem :
      (id : String) (quantity : Float) (changes : List SimulationChange)
      → after_changes floats id quantity changes ≡ moved_quantity id quantity changes
  unfolding after_changes moved_quantity
  moved_quantity_lem id quantity [] = refl
  moved_quantity_lem id quantity (c ∷ cs) =
      moved_quantity_lem id
        (if str_eq c.security_id id
          then floats.add quantity (change_quantity_effect floats c)
          else quantity)
        cs
      ∙ ap
          (λ e.
            moved_quantity id (if str_eq c.security_id id then floats.add quantity e else quantity)
              cs)
          (effect_lem c)

  abbrev quantities : Option (Projected Float) → Option (Float × Float)
  quantities none = none
  quantities (some r) = some (r.baseline_quantity, r.proposed_quantity)

  abbrev shown : Option Decimal → Option (Float × Float)
  shown none = none
  shown (some d) = some (floats.of_decimal d, floats.of_decimal d)

  -- One row of the baseline.
  quantities-upsert_row :
      (id : String) (b : BaselineRow) (rows : List (Projected Float)) (o : Option Decimal)
      → quantities (find_row (is_of id) rows) ≡ shown o
      → quantities (
          find_row (is_of id) (
            upsert_row
              (is_of b.security_id)
              (λ _. of_baseline floats b)
              (of_baseline floats b)
              rows))
        ≡ shown (if str_eq b.security_id id then some b.quantity else o)
  quantities-upsert_row id b rows o h =
      let s = b.security_id in
      let new = of_baseline floats b in
      elim (Bool-cases (str_eq s id)) [
        | inl e ↦ rw (e) (
            ap (λ i. quantities (find_row (is_of i) (upsert_row (is_of s) (λ _. new) new rows)))
              (sym ((str_eq_iff s id).0 e))
            ∙ ap quantities (
                find_row-upsert_row (is_of s) (λ _. new) new rows (str_eq_self s)
                  (λ r k. str_eq_self s))
            ∙ always_new new (find_row (is_of s) rows))
        | inr e ↦ rw (e) (
            ap quantities (
              find_row-upsert_other (is_of s) (is_of id) (λ _. new) new rows e
                (λ r k. ap (λ i. str_eq i id) ((str_eq_iff r.security_id s).0 k) ∙ e) (λ r k. e))
            ∙ h)
      ]
    where
      always_new :
          (new : Projected Float) (o : Option (Projected Float))
          → quantities (some (or_new (λ _. new) new o))
            ≡ some (new.baseline_quantity, new.proposed_quantity)
      always_new new none = refl
      always_new new (some r) = refl

  quantities-baseline_map :
      (id : String) (baseline : List BaselineRow) (rows : List (Projected Float))
      (o : Option Decimal)
      → quantities (find_row (is_of id) rows) ≡ shown o
      → quantities (find_row (is_of id) (baseline_map floats baseline rows))
        ≡ shown (last_held id baseline o)
  unfolding baseline_map last_held
  quantities-baseline_map id [] rows o h = h
  quantities-baseline_map id (b ∷ bs) rows o h =
      quantities-baseline_map id bs _ _ (quantities-upsert_row id b rows o h)

  -- An entry that shows a quantity.
  abbrev Starts : String → Option (Projected Float) → Option Decimal → Type 0
  Starts id o d =
      ((entry floats id o).baseline_quantity ≡ start d)
      × ((entry floats id o).proposed_quantity ≡ start d)
      × (is_some o ≡ is_some d)

  shown-Starts :
      (id : String) (o : Option (Projected Float)) (d : Option Decimal)
      → quantities o ≡ shown d
      → Starts id o d
  shown-Starts id none none h = (refl, refl, refl)
  shown-Starts id none (some d) h = cc
  shown-Starts id (some r) none h = cc
  shown-Starts id (some r) (some d) h = (
    ap (λ (o : Option (Float × Float)). (get_or o (r.baseline_quantity, r.proposed_quantity)).0) h,
    ap (λ (o : Option (Float × Float)). (get_or o (r.baseline_quantity, r.proposed_quantity)).1) h,
    refl,
  )

  named-quantities :
      (i : Option InstrumentInfo) (r : Projected Float)
      → ((renamed floats i r).baseline_quantity ≡ r.baseline_quantity)
        × ((renamed floats i r).proposed_quantity ≡ r.proposed_quantity)
  named-quantities none r = (refl, refl)
  named-quantities (some i) r = (refl, refl)

  -- A security that is held or that a change names has an entry. Its baseline quantity is that of the
  -- last baseline row of the security, or zero. Its proposed quantity starts from there and takes each
  -- change to that security in order, and no other: what is bought, deposited or transferred in is
  -- added, what is sold, withdrawn, transferred out, or paid as a fee or a tax is added negated, and
  -- any other type adds zero.
  pub projected_map-moved_quantity :
      (instrument_of : String → Option InstrumentInfo) (baseline : List BaselineRow)
      (changes : List SimulationChange) (id : String)
      → (str_in id (map (λ (c : SimulationChange). c.security_id) changes)
          || is_some (last_held id baseline none))
        ≡ true
      → (r : Projected Float) × (find_row
            (is_of id)
            (projected_map floats instrument_of baseline changes)
          ≡ some r)
        × (r.baseline_quantity ≡ start (last_held id baseline none))
        × (r.proposed_quantity ≡ moved_quantity id (start (last_held id baseline none)) changes)
  projected_map-moved_quantity instrument_of baseline changes id h =
      let o = find_row (is_of id) (baseline_map floats baseline []) in
      let d = last_held id baseline none in
      let (b, p, same) =
        shown-Starts id o d
          (quantities-baseline_map id baseline [] none (unfold find_row in refl)) in
      let before = entry floats id o in
      let (nb, np) = named-quantities (instrument_of before.security_id) before in
      (
        _,
        projected_map-entry floats instrument_of baseline changes id (rw (same) h),
        nb ∙ b,
        ap (λ q. after_changes floats id q changes) (np ∙ p)
            ∙ moved_quantity_lem id (start d) changes,
      )
