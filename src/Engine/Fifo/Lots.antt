-- ===== src/Engine/Fifo/Lots.antt =====
-- The invariant of the open lots, and how purchases and sales change the quantity on hand.
use portfolio_analytics_syst.Prelude.{
  ◌⊎◌, false, none, List, [], ◌∷◌, ◌++◌, ◌≡◌, ◌≢◌, refl, ap, arith, All, All-append, sum_by,
  Bool-cases, inl, inr,
}
use portfolio_analytics_syst.Prelude.Int.{
  ℤ, pos, pos_part, neg_part, ◌+ℤ◌, ◌-ℤ◌, ◌≤ℤ◌, ◌<ℤ◌, is_zero, leb_ℤ, ltb_ℤ, int_laws, leb_ℤ→le,
  leb_ℤ→lt, ltb_ℤ→lt, ltb_ℤ→le, is_zero→eq,
}
use portfolio_analytics_syst.Decimal.{Decimal, Arith, IsRounded}
use portfolio_analytics_syst.Engine.Model.{
  update-other, CostLot, Transaction, Key, key_eq, key_eq_self, key_of, update,
}
use portfolio_analytics_syst.Engine.Fifo.{
  OpenLots, Matched, nothing_matched, available, get_available_quantity, match_lots, take_from,
  consume_sell_quantity, new_lot,
}

-- An open lot holds something, never more than was bought, at costs that are not negative.
abbrev pub IsSound : CostLot → Type 0
IsSound lot =
    (pos 0 <ℤ lot.remaining_quantity)
    × (lot.remaining_quantity ≤ℤ lot.original_quantity)
    × (pos 0 ≤ℤ lot.cost_per_share_local)
    × (pos 0 ≤ℤ lot.cost_per_share_base)

abbrev pub LotsAreSound : OpenLots → Type 0
LotsAreSound lots = (key : Key) → All IsSound (lots key)

absurd_order : (x y : ℤ) → x <ℤ y → y ≤ℤ x → ⊥
absurd_order x y h k = omega arith

abbrev pub CostsNotNegative : Matched → Type 0
CostsNotNegative m = (pos 0 ≤ℤ m.cost_base) × (pos 0 ≤ℤ m.cost_local)

module _ ⦃a : Arith⦄ where
  part_IsSound :
      (required : Decimal) (lot : CostLot)
      → IsSound lot
      → pos 0 <ℤ required
      → required ≤ℤ lot.remaining_quantity
      → is_zero (lot.remaining_quantity -ℤ required) ≡ false
      → IsSound (record lot { remaining_quantity = lot.remaining_quantity -ℤ required })
  unfolding ◌-ℤ◌
  part_IsSound required lot s h k e = ground arith

  pub match_lots-IsSound :
      (required : Decimal) (m : Matched) (lots : List CostLot)
      → All IsSound lots
      → All IsSound (match_lots required m lots).1
  unfolding match_lots
  match_lots-IsSound required m [] s = tt
  match_lots-IsSound required m (lot ∷ rest) (s, ss) = elim (Bool-cases (ltb_ℤ (pos 0) required)) [
    | inr e ↦ rw e (s, ss)
    | inl e ↦ elim (Bool-cases (leb_ℤ required lot.remaining_quantity)) [
      | inr f ↦
          rw (e, f)
            (match_lots-IsSound (required -ℤ lot.remaining_quantity)
              (take_from lot.remaining_quantity lot m) rest ss)
      | inl f ↦ elim (Bool-cases (is_zero (lot.remaining_quantity -ℤ required))) [
        | inl z ↦ rw (e, f, z) ss
        | inr z ↦
            rw (e, f, z)
              (
                part_IsSound required lot s (ltb_ℤ→lt (pos 0) required e)
                    (leb_ℤ→le required lot.remaining_quantity f) z,
                ss,
              )
      ]
    ]
  ]

  -- What is left and what was required make up what was held.
  pub available-match_lots :
      (required : Decimal) (m : Matched) (lots : List CostLot)
      → pos 0 ≤ℤ required
      → required ≤ℤ available lots
      → available (match_lots required m lots).1 +ℤ required ≡ available lots
  unfolding match_lots available sum_by
  available-match_lots required m [] h k = unfold ◌+ℤ◌ in ground arith
  available-match_lots required m (lot ∷ rest) h k = elim (Bool-cases (ltb_ℤ (pos 0) required)) [
    | inr e ↦ let z = ltb_ℤ→le (pos 0) required e in rw e (omega int_laws)
    | inl e ↦ elim (Bool-cases (leb_ℤ required lot.remaining_quantity)) [
      | inr f ↦
          let g = leb_ℤ→lt required lot.remaining_quantity f in
          let ih =
            available-match_lots (required -ℤ lot.remaining_quantity)
              (take_from lot.remaining_quantity lot m) rest (omega int_laws) (omega int_laws) in
          rw (e, f) (omega (int_laws, ap pos_part ih, ap neg_part ih))
      | inl f ↦ elim (Bool-cases (is_zero (lot.remaining_quantity -ℤ required))) [
        | inl z ↦
            let same = is_zero→eq (lot.remaining_quantity -ℤ required) z in
            rw (e, f, z) (omega (int_laws, ap pos_part same, ap neg_part same))
        | inr z ↦ rw (e, f, z) (omega int_laws)
      ]
    ]
  ]

  update-LotsAreSound :
      (lots : OpenLots) (key : Key) (l : List CostLot)
      → LotsAreSound lots
      → All IsSound l
      → LotsAreSound (update lots key l)
  unfolding update
  update-LotsAreSound lots key l s h j = elim (Bool-cases (key_eq key j)) [
    | inl e ↦ rw e h
    | inr e ↦ rw e (s j)
  ]

  -- A sale keeps every open lot sound, refused or not.
  pub consume_sell_quantity-LotsAreSound :
      (lots : OpenLots) (key : Key) (q : Decimal)
      → LotsAreSound lots
      → LotsAreSound (consume_sell_quantity lots key q).1
  unfolding consume_sell_quantity
  consume_sell_quantity-LotsAreSound lots key q s =
      elim (Bool-cases (ltb_ℤ (available (lots key)) q)) [
        | inl e ↦ rw (e, consume_sell_quantity) s
        | inr e ↦
            rw (e, consume_sell_quantity)
              (update-LotsAreSound lots key (match_lots q nothing_matched (lots key)).1 s
                (match_lots-IsSound q nothing_matched (lots key) (s key)))
      ]

  -- A sale of at most what the key holds succeeds, and the key then holds that much less; a sale of
  -- more is refused and changes no lot. In both, every other key is as before.
  pub available-consume_sell_quantity :
      (lots : OpenLots) (key : Key) (q : Decimal)
      → pos 0 ≤ℤ q
      → let (reply, after) = consume_sell_quantity lots key q in
        ((q ≤ℤ get_available_quantity lots key)
            × (reply.1 ≡ none)
            × (get_available_quantity after key +ℤ q ≡ get_available_quantity lots key)
          ⊎ (get_available_quantity lots key <ℤ q)
            × (reply.0 ≡ nothing_matched)
            × (reply.1 ≢ none)
            × (after ≡ lots))
        × ((j : Key) → (j ≡ key) ⊎ (after j ≡ lots j))
  unfolding consume_sell_quantity update
  available-consume_sell_quantity lots key q h =
      elim (Bool-cases (ltb_ℤ (available (lots key)) q)) [
        | inl e ↦
            rw (e, consume_sell_quantity)
              (inr (ltb_ℤ→lt (available (lots key)) q e, refl, λ f. cc, refl), λ j. inr refl)
        | inr e ↦
            let k = ltb_ℤ→le (available (lots key)) q e in
            rw (e, consume_sell_quantity)
              (
                inl (
                  k,
                  refl,
                  rw (key_eq_self key) (available-match_lots q nothing_matched (lots key) h k),
                ),
                λ j. update-other lots key _ j,
              )
      ]

  module _ (laws : IsRounded a) where
    take_from_nonneg :
        (q : Decimal) (lot : CostLot) (m : Matched)
        → pos 0 ≤ℤ q
        → IsSound lot
        → CostsNotNegative m
        → CostsNotNegative (take_from q lot m)
    take_from_nonneg q lot m h s (b, l) = (
      omega (int_laws, laws.mul_nonneg q lot.cost_per_share_base h s.3),
      omega (int_laws, laws.mul_nonneg q lot.cost_per_share_local h s.2),
    )

    pub match_lots-CostsNotNegative :
        (required : Decimal) (m : Matched) (lots : List CostLot)
        → All IsSound lots
        → CostsNotNegative m
        → CostsNotNegative (match_lots required m lots).0
    unfolding match_lots
    match_lots-CostsNotNegative required m [] s h = h
    match_lots-CostsNotNegative required m (lot ∷ rest) (s, ss) h =
        elim (Bool-cases (ltb_ℤ (pos 0) required)) [
          | inr e ↦ rw e h
          | inl e ↦ elim (Bool-cases (leb_ℤ required lot.remaining_quantity)) [
            | inl f ↦
                let p = ltb_ℤ→lt (pos 0) required e in
                rw (e, f) (take_from_nonneg required lot m (omega arith) s h)
            | inr f ↦
                rw (e, f)
                  (match_lots-CostsNotNegative (required -ℤ lot.remaining_quantity)
                    (take_from lot.remaining_quantity lot m) rest ss
                    (take_from_nonneg lot.remaining_quantity lot m (omega arith) s h))
          ]
        ]

    -- A purchase at costs that are not negative adds a sound lot.
    pub add_costed_lot-LotsAreSound :
        (lots : OpenLots) (t : Transaction) (c cl : Decimal)
        → LotsAreSound lots
        → pos 0 <ℤ t.quantity
        → pos 0 ≤ℤ c
        → pos 0 ≤ℤ cl
        → LotsAreSound (update lots (key_of t) (lots (key_of t) ++ new_lot t c cl ∷ []))
    add_costed_lot-LotsAreSound lots t c cl s q hc hl =
        update-LotsAreSound lots (key_of t) (lots (key_of t) ++ new_lot t c cl ∷ []) s (
          All-append IsSound (lots (key_of t)) (new_lot t c cl ∷ []) (s (key_of t)) (
            (q, omega arith, laws.div_nonneg cl t.quantity hl q, laws.div_nonneg c t.quantity hc q),
            tt,
          ))
