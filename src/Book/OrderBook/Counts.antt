-- ===== src/Book/OrderBook/Counts.antt =====
-- src/book/OrderBook.cpp: what the sums of the stored orders say of the level of one order.
use astra_feed_engine.Prelude.{
  ℕ, ◌+◌, ◌-◌, ◌*◌, ◌^◌, ◌≤◌, ◌<◌, ◌≡◌, inl, inr, sym, ◌∙◌, subst, true, some, arith, Bool-cases,
}
use astra_feed_engine.Book.{OrderSide}
use astra_feed_engine.Book.PriceLevelStore.{PriceAddress, PriceLevelStore, join_price}
use astra_feed_engine.Book.PriceLevelStore.Levels.{level_unchecked}
use astra_feed_engine.Book.PriceLevelStore.Depths.{here_level}
use astra_feed_engine.Book.PriceLevelStore.Operations.{IsInside}
use astra_feed_engine.Book.PriceLevelStore.Removing.{HasOrder}
use astra_feed_engine.Book.PriceLevelStore.Step.{Grows-refl}
use astra_feed_engine.Book.OrderTable.{
  OrderState, OrderTable, Place, is_active, erased_state, erase_place,
}
use astra_feed_engine.Book.OrderTable.States.{state_at}
use astra_feed_engine.Book.OrderTable.Sums.{InRange, total, total-change, total-bound}
use astra_feed_engine.Book.OrderTable.Writes.{erase_place-IsWrite}
use astra_feed_engine.Book.OrderBook.{address_of}
use astra_feed_engine.Book.OrderBook.Accepts.{IsBounded}
use astra_feed_engine.Book.OrderBook.Ledger.{books, shares, one_order, stands, order_side}
use astra_feed_engine.Book.OrderBook.Booked.{IsPosted, IsPlaced, IsBooked, IsWrite-IsPlaced}
use astra_feed_engine.Book.OrderBook.Changes.{erased-IsWritable, erased_off}

module _ (l : ℕ) (side : OrderSide) (raw : ℕ) where
  -- The shares at a price are as many as the orders at least, and 32-bit words each.
  placed-Bounds :
      (t : OrderTable) (s : PriceLevelStore)
      → IsPlaced t s
      → (total (shares l side raw) t ≤ total (one_order l side raw) t * (2 ^ 32 - 1))
        × (total (one_order l side raw) t ≤ total (shares l side raw) t * 1)
  placed-Bounds t s k =
      let f = shares l side raw in
      let g = one_order l side raw in
      let bound : (p : Place)
          → (f (state_at p t) ≤ g (state_at p t) * (2 ^ 32 - 1))
            × (g (state_at p t) ≤ f (state_at p t) * 1) =
        λ p. elim (Bool-cases (stands l side raw (state_at p t))) [
          | inl here ↦
              let posted = k.posted p (ground (arith, here)) in
              let low = posted.qty_low in
              let pos = posted.qty_pos in (ground (arith, here, low), ground (arith, here, pos))
          | inr there ↦ (ground (arith, there), ground (arith, there))
        ] in
      (total-bound (2 ^ 32 - 1) f g t (λ p. (bound p).0), total-bound 1 g f t (λ p. (bound p).1))

  -- Of the order that stands there, and of the other ones.
  books-HasOrder :
      (p : Place) (t : OrderTable) (s : PriceLevelStore)
      → InRange p t
      → is_active (state_at p t) ≡ true
      → stands l side raw (state_at p t) ≡ true
      → IsPlaced t s
      → HasOrder (state_at p t).qty (books t l side raw)
  unfolding books
  books-HasOrder p t s inside on here k =
      let state = state_at p t in
      let t' = (erase_place (some p) t).1 in
      let (_, w) = erase_place-IsWrite p t on in
      let a = total-change (shares l side raw) p erased_state t t' inside w in
      let b = total-change (one_order l side raw) p erased_state t t' inside w in
      let (c, d) =
        placed-Bounds t' s (IsWrite-IsPlaced s s w (Grows-refl s) (erased-IsWritable s) k) in
      let q = (k.posted p on).qty_pos in
      let off = erased_off in
      let a' : total (shares l side raw) t' + state.qty ≡ total (shares l side raw) t =
        ground (arith, a, here, off) in
      let b' : total (one_order l side raw) t' + 1 ≡ total (one_order l side raw) t =
        ground (arith, b, here, off) in
      record {
        some_shares = q;
        some_order = omega (arith, b');
        within = omega (arith, a');
        last = λ one. omega (arith, one, a', b', c, d);
        others = λ more. omega (arith, more, a', b', c, d);
      }

-- A level is the sum of its orders.
level-books :
    (t : OrderTable) (s : PriceLevelStore) (a : PriceAddress) (side : OrderSide)
    → IsBooked t s
    → IsInside a side s
    → a.level_index < 65536
    → level_unchecked a side s
      ≡ books t
          (s.page_owners a.page_handle).stock_locate
          side
          (join_price (s.page_owners a.page_handle).page_index a.level_index)
level-books t s a side k inside low =
    let h = a.page_handle in
    let o = s.page_owners h in
    let raw = join_price o.page_index a.level_index in
    let own = k.sound.owned h inside.handle_pos inside.inside in
    let page_low = own.index_low in
    let raw_low : raw < 2 ^ 32 = omega (arith, page_low, low) in
    sym (
      here_level s k.sound h a.level_index side inside.valid inside.handle_pos inside.inside low
        o.stock_locate side inside.valid raw raw_low (ground arith))
    ∙ k.shows o.stock_locate side inside.valid raw raw_low

pub level-IsBounded :
    (t : OrderTable) (s : PriceLevelStore) (a : PriceAddress) (side : OrderSide)
    → IsBooked t s
    → IsInside a side s
    → a.level_index < 65536
    → IsBounded (level_unchecked a side s)
unfolding books
level-IsBounded t s a side k inside low =
    let o = s.page_owners a.page_handle in
    subst IsBounded (sym (level-books t s a side k inside low))
      (placed-Bounds o.stock_locate side (join_price o.page_index a.level_index) t s k.placed).0

pub posted-IsInside :
    (s : PriceLevelStore) (state : OrderState)
    → IsPosted s state
    → IsInside (address_of state) (order_side state) s
posted-IsInside s state k = record {
  valid = k.side_valid;
  handle_pos = k.handle_pos;
  inside = k.inside;
}

-- A live order is one of its level's.
pub level-HasOrder :
    (p : Place) (t : OrderTable) (s : PriceLevelStore)
    → IsBooked t s
    → InRange p t
    → is_active (state_at p t) ≡ true
    → HasOrder
        (state_at p t).qty
        (level_unchecked (address_of (state_at p t)) (order_side (state_at p t)) s)
level-HasOrder p t s k inside on =
    let state = state_at p t in
    let posted = k.placed.posted p on in
    let o = s.page_owners state.price_page_handle in
    let e = posted.locate_eq in
    let f = posted.page_eq in
    let raw = join_price o.page_index state.price_level_index in
    let here : stands o.stock_locate (order_side state) raw state ≡ true =
      ground (arith, on, e, f) in
    subst (HasOrder state.qty)
      (sym (
        level-books t s (address_of state) (order_side state) k (posted-IsInside s state posted)
          posted.index_low))
      (books-HasOrder o.stock_locate (order_side state) raw p t s inside on here k.placed)
