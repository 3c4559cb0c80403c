-- ===== src/Book/OrderBook/KeepingMoved.antt =====
-- src/book/OrderBook.cpp, replaceOrder under one reference: the order keeps its slot, and the table and the
-- levels stay in agreement.
use astra_feed_engine.Prelude.{
  ℕ, ◌^◌, ◌<◌, ◌≡◌, refl, sym, ◌∙◌, subst, true, false, not, arith, if_elim,
}
use astra_feed_engine.Book.{is_applied, is_valid_side}
use astra_feed_engine.Book.PriceLevelStore.{PricePageReservation}
use astra_feed_engine.Book.PriceLevelStore.Depths.{put, more, fewer}
use astra_feed_engine.Book.PriceLevelStore.Removals.{move}
use astra_feed_engine.Book.PriceLevelStore.Step.{IsStep, move-IsStep}
use astra_feed_engine.Book.OrderTable.{OrderState, Place, is_active, was_seen, published}
use astra_feed_engine.Book.OrderTable.States.{state_at}
use astra_feed_engine.Book.OrderTable.Sums.{InRange}
use astra_feed_engine.Book.OrderTable.Writes.{write_state-IsWrite}
use astra_feed_engine.Book.OrderBook.{BookView, is_invalidating, state_of, address_of}
use astra_feed_engine.Book.OrderBook.Replacement.{replace_in_place}
use astra_feed_engine.Book.OrderBook.Ledger.{order_side}
use astra_feed_engine.Book.OrderBook.Booked.{refused-IsBooked}
use astra_feed_engine.Book.OrderBook.Levelled.{IsReserved}
use astra_feed_engine.Book.OrderBook.Counting.{kept-IsCounting, live_orders-kept}
use astra_feed_engine.Book.OrderBook.Changes.{at_order, replace-IsBooked}
use astra_feed_engine.Book.OrderBook.Balance.{
  Balanced, Balances, reject-Balances, is_true, stored_side,
}
use astra_feed_engine.Book.OrderBook.Accepts.{move-Accepts}
use astra_feed_engine.Book.OrderBook.Counts.{level-IsBounded, level-HasOrder, posted-IsInside}
use astra_feed_engine.Book.PriceLevelStore.Operations.{IsInside}

-- A live order of this book.
pub record IsLive (p : Place) (v : BookView) : Type 0 where
  pub inside : InRange p v.orders
  pub live : is_active (state_at p v.orders) ≡ true
  pub locate_eq : (state_at p v.orders).locate ≡ v.book.stock_locate
  pub side_valid : is_valid_side (order_side (state_at p v.orders)) ≡ true

module _ (p : Place) (price : PricePageReservation) (new_qty timestamp : ℕ) (pos : 0 < new_qty)
    (small : new_qty < 2 ^ 32) where
  -- An order can move to any level that is not full.
  pub moved-Accepts :
      {home : ℕ} {rest : ℕ → ℕ} (v : BookView)
      → Balanced home rest v
      → IsLive p v
      → IsReserved v.book.stock_locate price v.prices
      → is_invalidating
          (move
            (address_of (state_at p v.orders))
            (state_at p v.orders).qty
            price.address
            new_qty
            (order_side (state_at p v.orders))
            v.prices).0
        ≡ false
  moved-Accepts {home} {rest} v k is_live r =
      let state = state_at p v.orders in
      let side = order_side state in
      let posted = k.booked.placed.posted p is_live.live in
      let inside = posted-IsInside v.prices state posted in
      let inside' : IsInside price.address side v.prices = record {
        valid = posted.side_valid;
        handle_pos = r.handle_pos;
        inside = r.inside;
      } in
      move-Accepts v.prices k.booked.sound (address_of state) price.address side inside inside'
        posted.index_low r.index_low state.qty new_qty small
        (level-HasOrder p v.orders v.prices k.booked is_live.inside is_live.live)
        (level-IsBounded v.orders v.prices (address_of state) side k.booked inside posted.index_low)
        (level-IsBounded v.orders v.prices price.address side k.booked inside' r.index_low)
        (posted.locate_eq ∙ (is_live.locate_eq ∙ sym r.locate_eq))

  pub replace_in_place-Balances :
      {home : ℕ} {rest : ℕ → ℕ} (v : BookView)
      → Balanced home rest v
      → IsLive p v
      → IsReserved v.book.stock_locate price v.prices
      → Balances home rest (replace_in_place p price new_qty timestamp v)
  unfolding replace_in_place is_active was_seen
  replace_in_place-Balances {home} {rest} v k is_live r =
      let state = state_at p v.orders in
      let old_low = (k.booked.placed.posted p is_live.live).index_low in
      let step =
        move-IsStep v.prices k.booked.sound (address_of state) price.address (order_side state)
          state.qty new_qty old_low r.index_low small in
      let moved =
        move (address_of state) state.qty price.address new_qty (order_side state) v.prices in
      if_elim (Balances home rest) (not (is_applied moved.0))
        (λ refused. reject-Balances _ _ (moved-Accepts v k is_live r) (record {
          booked = refused-IsBooked moved v.orders step (ground (arith, refused)) k.booked;
          is_open = k.is_open;
          counting = kept-IsCounting v _ k.counting refl refl (λ l. refl);
        }))
        (λ ok. record {
          booked =
              replace-IsBooked v.prices moved is_live.inside (write_state-IsWrite p _ v.orders)
                k.booked (is_true ok) is_live.live is_live.live
                (k.booked.placed.seen p is_live.live)
                (record {
                  handle_pos = r.handle_pos;
                  inside = r.inside;
                  locate_eq = r.locate_eq ∙ sym is_live.locate_eq;
                  page_eq = r.page_eq;
                  index_low = r.index_low;
                  qty_pos = pos;
                  qty_low = small;
                  side_valid = is_live.side_valid;
                })
                step;
          is_open = k.is_open;
          counting =
              kept-IsCounting v _ k.counting refl refl (λ l.
                live_orders-kept is_live.inside (write_state-IsWrite p _ v.orders) l refl refl);
        })

  -- The new order, with the side of the old one.
  abbrev pub new_state : BookView → OrderState
  new_state v = published (state_of new_qty (order_side (state_at p v.orders)) price v)

  pub moved-IsStep :
      {home : ℕ} {rest : ℕ → ℕ} (v : BookView)
      → Balanced home rest v
      → IsLive p v
      → price.address.level_index < 65536
      → IsStep v.prices
          (λ d.
            at_order v.prices
              (new_state v)
              (more (new_state v).qty)
              (at_order v.prices (state_at p v.orders) (fewer (state_at p v.orders).qty) d))
          (move
            (address_of (state_at p v.orders))
            (state_at p v.orders).qty
            price.address
            new_qty
            (order_side (state_at p v.orders))
            v.prices)
  unfolding published
  moved-IsStep {home} {rest} v k is_live low =
      let old = state_at p v.orders in
      let side = order_side old in
      let prices = v.prices in
      let o = prices.page_owners price.address.page_handle in
      subst
        (λ x.
          IsStep prices
            (λ d.
              put o price.address.level_index x (more new_qty)
                (at_order prices old (fewer old.qty) d))
            (move (address_of old) old.qty price.address new_qty side prices))
        (sym (stored_side side is_live.side_valid))
        (move-IsStep prices k.booked.sound (address_of old) price.address side old.qty new_qty
          (k.booked.placed.posted p is_live.live).index_low low small)
