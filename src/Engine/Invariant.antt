-- ===== src/Engine/Invariant.antt =====
-- The invariant of the books: open lots are sound, or no average holding is below zero. Every
-- strategy keeps it for a transaction in range.
use portfolio_analytics_syst.Prelude.{some, ◌≡◌, refl, Bool-cases, inl, inr}
use portfolio_analytics_syst.Prelude.Int.{
  pos, ◌≤ℤ◌, is_zero, leb_ℤ, ltb_ℤ, int_laws, ltb_ℤ→lt, ltb_ℤ→le,
}
use portfolio_analytics_syst.Decimal.{Decimal, Arith, IsRounded}
use portfolio_analytics_syst.Engine.Model.{
  Transaction, Key, key_eq, key_of, update, Result, ok, raised,
}
use portfolio_analytics_syst.Engine.Fifo
use portfolio_analytics_syst.Engine.Fifo.{Matched, nothing_matched}
use portfolio_analytics_syst.Engine.Fifo.Lots.{
  LotsAreSound, add_costed_lot-LotsAreSound, consume_sell_quantity-LotsAreSound,
}
use portfolio_analytics_syst.Engine.Average
use portfolio_analytics_syst.Engine.Average.{Holdings}
use portfolio_analytics_syst.Engine.Disposition.{
  Books, fifo, average, add_buy_lot, consume_sell_quantity,
}
use portfolio_analytics_syst.Engine.Strategies.{
  Run, fx_rate_or_one, book_cost_local, with_buy_costs, reported_lot, uncaught_lot,
  add_lot_reporting, buy_strategy,
}

abbrev pub BooksAreSound : Books → Type 0
BooksAreSound (fifo lots) = LotsAreSound lots
BooksAreSound (average holdings) = (key : Key) → pos 0 ≤ℤ (holdings key).total_qty

abbrev pub ResultIsSound : Result Books → Type 0
ResultIsSound (ok books) = BooksAreSound books
ResultIsSound (raised text) = Unit

module _ ⦃a : Arith⦄ where
  average_update_sound :
      (h : Holdings) (key : Key) (new : Average.Holding)
      → ((j : Key) → pos 0 ≤ℤ (h j).total_qty)
      → pos 0 ≤ℤ new.total_qty
      → (j : Key) → pos 0 ≤ℤ (update h key new j).total_qty
  unfolding update
  average_update_sound h key new s n j = elim (Bool-cases (key_eq key j)) [
    | inl e ↦ rw e n
    | inr e ↦ rw e (s j)
  ]

  -- Whatever is sold, the books stay sound.
  pub consume_sell_quantity-BooksAreSound :
      (books : Books) (t : Transaction)
      → BooksAreSound books
      → BooksAreSound (consume_sell_quantity books t).1
  unfolding consume_sell_quantity Average.consume_sell_quantity
  consume_sell_quantity-BooksAreSound (fifo lots) t s =
      consume_sell_quantity-LotsAreSound lots (key_of t) t.quantity s
  consume_sell_quantity-BooksAreSound (average h) t s =
      elim (Bool-cases (ltb_ℤ (h (key_of t)).total_qty t.quantity)) [
        | inl e ↦ rw e s
        | inr e ↦ elim (Bool-cases (is_zero (h (key_of t)).total_qty)) [
          | inl z ↦ rw (e, z) s
          | inr z ↦
              let k = ltb_ℤ→le (h (key_of t)).total_qty t.quantity e in
              rw (e, z) (average_update_sound h (key_of t) _ s (omega int_laws))
        ]
      ]

  module _ (laws : IsRounded a) where
    -- A purchase at costs that are not negative keeps the books sound.
    pub add_buy_lot_sound :
        (books : Books) (t : Transaction) (c cl : Decimal)
        → BooksAreSound books
        → t.net_cost ≡ some c
        → t.net_cost_local ≡ some cl
        → pos 0 ≤ℤ c
        → pos 0 ≤ℤ cl
        → ResultIsSound (add_buy_lot books t)
    unfolding add_buy_lot Fifo.add_buy_lot Average.add_buy_lot
    add_buy_lot_sound (fifo lots) t c cl s e el hc hl =
        elim (Bool-cases (ltb_ℤ (pos 0) t.quantity)) [
          | inr q ↦ rw q s
          | inl q ↦ elim (Bool-cases (is_zero t.quantity)) [
            | inl z ↦ rw (q, e, el, z) s
            | inr z ↦
                rw (q, e, el, z)
                  (add_costed_lot-LotsAreSound laws lots t c cl s (ltb_ℤ→lt (pos 0) t.quantity q) hc
                    hl)
          ]
        ]
    add_buy_lot_sound (average h) t c cl s e el hc hl =
        elim (Bool-cases (ltb_ℤ (pos 0) t.quantity)) [
          | inr q ↦ rw q s
          | inl q ↦
              let p = ltb_ℤ→lt (pos 0) t.quantity q in
              let old = s (key_of t) in
              rw (q, e, el) (average_update_sound h (key_of t) _ s (omega int_laws))
        ]

    pub reported_lot_sound :
        (r : Run) (result : Result Books)
        → BooksAreSound r.books
        → ResultIsSound result
        → BooksAreSound (reported_lot r result).0.books
    reported_lot_sound r (ok books) s h = h
    reported_lot_sound r (raised text) s h = s

    pub uncaught_lot_sound :
        (r : Run) (result : Result Books)
        → BooksAreSound r.books
        → ResultIsSound result
        → BooksAreSound (uncaught_lot r result).0.books
    uncaught_lot_sound r (ok books) s h = h
    uncaught_lot_sound r (raised text) s h = s

    pub buy_strategy_sound :
        (r : Run) → BooksAreSound r.books → BooksAreSound (buy_strategy r).0.books
    unfolding buy_strategy add_lot_reporting
    buy_strategy_sound r s =
        let t = r.txn in
        let c = a.mul (book_cost_local t) (fx_rate_or_one t) in
        elim (Bool-cases (leb_ℤ t.quantity (pos 0))) [
          | inl e ↦ rw e s
          | inr e ↦
              elim (Bool-cases
                (ltb_ℤ (a.mul t.gross_transaction_amount (fx_rate_or_one t)) (pos 0))) [
                  | inl f ↦ rw (e, f) s
                  | inr f ↦ elim (Bool-cases (ltb_ℤ (book_cost_local t) (pos 0))) [
                    | inl g ↦ rw (e, f, g) s
                    | inr g ↦ elim (Bool-cases (ltb_ℤ c (pos 0))) [
                      | inl h ↦ rw (e, f, g, h) s
                      | inr h ↦ elim (Bool-cases (ltb_ℤ (pos 0) t.quantity)) [
                        | inr k ↦ rw (e, f, g, h, k) s
                        | inl k ↦
                            rw (e, f, g, h, k)
                              (reported_lot_sound (record r { txn = with_buy_costs t })
                                (add_buy_lot r.books (with_buy_costs t)) s
                                (add_buy_lot_sound r.books (with_buy_costs t) c (book_cost_local t)
                                  s refl refl (ltb_ℤ→le c (pos 0) h)
                                  (ltb_ℤ→le (book_cost_local t) (pos 0) g)))
                      ]
                    ]
                  ]
                ]
        ]
