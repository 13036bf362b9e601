-- ===== src/Engine/Fifo/Consume.antt =====
-- What a sale takes from the lots of its key: the oldest lots whole, then a part of the next one.
use portfolio_analytics_syst.Prelude.{
  true, false, List, [], ◌∷◌, ◌++◌, ◌≡◌, refl, ap, arith, All, sum_by, Bool-cases, inl, inr,
  if◌then◌else◌,
}
use portfolio_analytics_syst.Prelude.Int.{
  ℤ, pos, ◌+ℤ◌, ◌-ℤ◌, ◌≤ℤ◌, ◌<ℤ◌, is_zero, pos_part, neg_part, leb_ℤ, ltb_ℤ, int_laws, leb_ℤ→le,
  leb_ℤ→lt, le→leb_ℤ, lt→ltb_ℤ,
}
use portfolio_analytics_syst.Decimal.{Decimal, Arith}
use portfolio_analytics_syst.Engine.Model.{CostLot}
use portfolio_analytics_syst.Engine.Fifo.{Matched, available, match_lots, take_from}

-- Every lot in the queue holds something.
abbrev pub IsOpen : CostLot → Type 0
IsOpen lot = pos 0 <ℤ lot.remaining_quantity

add_back : (required q held part : ℤ) → required -ℤ q ≡ held +ℤ part → required ≡ q +ℤ held +ℤ part
add_back required q held part h = omega (int_laws, ap pos_part h, ap neg_part h)

module _ ⦃a : Arith⦄ where
  -- The cost of lots that are taken whole.
  unfoldable pub whole_cost_base : List CostLot → Decimal
  whole_cost_base = sum_by (λ lot. a.mul lot.remaining_quantity lot.cost_per_share_base)

  unfoldable pub whole_cost_local : List CostLot → Decimal
  whole_cost_local = sum_by (λ lot. a.mul lot.remaining_quantity lot.cost_per_share_local)

  -- The queue after a sale that ends in `lot`, of which `q` is taken.
  abbrev pub after_sale : Decimal → CostLot → List CostLot → List CostLot
  after_sale q lot rest =
      if is_zero (lot.remaining_quantity -ℤ q)
      then rest
      else record lot { remaining_quantity = lot.remaining_quantity -ℤ q } ∷ rest

  -- The first-in-first-out rule, from an accumulated `start`: `used` are taken whole, and `part` of
  -- the next lot, `last`.
  pub record FifoSale (start : Matched) (required : Decimal) (lots : List CostLot)
      (result : Matched × List CostLot) : Type 0 where
    pub used : List CostLot
    pub last : CostLot
    pub rest : List CostLot
    pub part : Decimal
    pub lots_split : lots ≡ used ++ last ∷ rest
    pub part_pos : pos 0 <ℤ part
    pub part_le : part ≤ℤ last.remaining_quantity
    pub quantity : required ≡ available used +ℤ part
    pub consumed : result.0.consumed ≡ start.consumed +ℤ required
    pub cost_base :
        result.0.cost_base
        ≡ start.cost_base +ℤ (whole_cost_base used +ℤ a.mul part last.cost_per_share_base)
    pub cost_local :
        result.0.cost_local
        ≡ start.cost_local +ℤ (whole_cost_local used +ℤ a.mul part last.cost_per_share_local)
    pub left_lots : result.1 ≡ after_sale part last rest

  -- The lot at the head covers what is required.
  covered :
      (m : Matched) (required : Decimal) (lot : CostLot) (rest : List CostLot)
      → pos 0 <ℤ required
      → required ≤ℤ lot.remaining_quantity
      → FifoSale m required (lot ∷ rest) (match_lots required m (lot ∷ rest))
  unfolding match_lots available whole_cost_base whole_cost_local sum_by
  covered m required lot rest h k =
      rw (lt→ltb_ℤ (pos 0) required h, le→leb_ℤ required lot.remaining_quantity k, match_lots)
        (record {
          used = [];
          last = lot;
          rest = rest;
          part = required;
          lots_split = refl;
          part_pos = h;
          part_le = k;
          quantity = omega int_laws;
          consumed = refl;
          cost_base = omega int_laws;
          cost_local = omega int_laws;
          left_lots = refl;
        })

  -- The lot at the head is used up, and the sale goes on with the next ones.
  exhausted :
      (m : Matched) (required : Decimal) (lot : CostLot) (rest : List CostLot)
      → pos 0 <ℤ required
      → lot.remaining_quantity <ℤ required
      → (result : Matched × List CostLot)
      → FifoSale
          (take_from lot.remaining_quantity lot m)
          (required -ℤ lot.remaining_quantity)
          rest
          result
      → FifoSale m required (lot ∷ rest) result
  unfolding available whole_cost_base whole_cost_local sum_by
  exhausted m required lot rest h k result s = record {
    used = lot ∷ s.used;
    last = s.last;
    rest = s.rest;
    part = s.part;
    lots_split = ap (◌∷◌ lot) s.lots_split;
    part_pos = s.part_pos;
    part_le = s.part_le;
    quantity = add_back required lot.remaining_quantity (available s.used) s.part s.quantity;
    consumed = rw s.consumed (omega int_laws);
    cost_base = rw s.cost_base (omega int_laws);
    cost_local = rw s.cost_local (omega int_laws);
    left_lots = s.left_lots;
  }

  match_lots-exhausted :
      (m : Matched) (required : Decimal) (lot : CostLot) (rest : List CostLot)
      → ltb_ℤ (pos 0) required ≡ true
      → leb_ℤ required lot.remaining_quantity ≡ false
      → match_lots required m (lot ∷ rest)
        ≡ match_lots
            (required -ℤ lot.remaining_quantity)
            (take_from lot.remaining_quantity lot m)
            rest
  unfolding match_lots
  match_lots-exhausted m required lot rest h k = rw (h, k)

  -- A sale of at most what is held follows the first-in-first-out rule.
  pub match_lots-FifoSale :
      (m : Matched) (required : Decimal) (lots : List CostLot)
      → All IsOpen lots
      → pos 0 <ℤ required
      → required ≤ℤ available lots
      → FifoSale m required lots (match_lots required m lots)
  match_lots-FifoSale m required [] o h k = absurd (unfold available sum_by in omega arith)
  match_lots-FifoSale m required (lot ∷ rest) (p, o) h k =
      elim (Bool-cases (leb_ℤ required lot.remaining_quantity)) [
        | inl e ↦ covered m required lot rest h (leb_ℤ→le required lot.remaining_quantity e)
        | inr e ↦
            let less = leb_ℤ→lt required lot.remaining_quantity e in
            rw (match_lots-exhausted m required lot rest (lt→ltb_ℤ (pos 0) required h) e) (
              exhausted m required lot rest h less _ (
                match_lots-FifoSale (take_from lot.remaining_quantity lot m)
                  (required -ℤ lot.remaining_quantity) rest o (unfold ◌-ℤ◌ in ground arith)
                  (unfold available sum_by in omega int_laws)))
      ]
