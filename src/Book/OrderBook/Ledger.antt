-- ===== src/Book/OrderBook/Ledger.antt =====
-- src/book/OrderBook.cpp: the books that the stored orders make up, and how they change with a state.
use astra_feed_engine.Prelude.{
  ℕ, ◌+◌, ◌-◌, ◌≤◌, ◌<◌, ◌≡◌, inl, inr, sym, ap, subst, Bool, true, false, ◌&&◌, if◌then◌else◌,
  arith, Bool-cases,
}
use astra_feed_engine.Book.{OrderSide}
use astra_feed_engine.Book.PriceLevelStore.{PriceLevelState, PageOwner}
use astra_feed_engine.Book.PriceLevelStore.Depths.{Depths, put, is_here, more, fewer, shrunk_by}
use astra_feed_engine.Book.OrderTable.{
  OrderState, OrderTable, Place, in_direct, in_fallback, is_active,
}
use astra_feed_engine.Book.OrderTable.States.{state_at}
use astra_feed_engine.Book.OrderTable.Sums.{total, InRange, IsWrite, total-change, total-term}
use astra_feed_engine.Book.OrderBook.{decode_stored_side}

-- An order's page, by its locate and the upper half of its price.
abbrev pub order_owner : OrderState → PageOwner
order_owner state = record {
  stock_locate = state.locate;
  page_index = state.price_page_index;
  committed = 1;
}

abbrev pub order_side : OrderState → OrderSide
order_side state = decode_stored_side state.side

-- Is the order live, in this book, on this side, at this price?
abbrev pub stands : ℕ → OrderSide → ℕ → OrderState → Bool
stands l side raw state =
    is_active state
    && is_here (order_owner state) state.price_level_index (order_side state) l side raw

abbrev pub shares : ℕ → OrderSide → ℕ → OrderState → ℕ
shares l side raw state = if stands l side raw state then state.qty else 0

abbrev pub one_order : ℕ → OrderSide → ℕ → OrderState → ℕ
one_order l side raw state = if stands l side raw state then 1 else 0

-- What the live orders of a table add up to at each price of each book.
unfoldable pub books : OrderTable → Depths
books t l side raw = record {
  total_qty = total (shares l side raw) t;
  order_count = total (one_order l side raw) t;
}

-- The level of an order's price changes.
abbrev pub put_order : OrderState → (PriceLevelState → PriceLevelState) → Depths → Depths
put_order state f d = put (order_owner state) state.price_level_index (order_side state) f d

module _ {p : Place} {state : OrderState} {t t' : OrderTable} (inside : InRange p t)
    (w : IsWrite p state t t') (l : ℕ) (side : OrderSide) (raw : ℕ) where
  abbrev old : OrderState
  old = state_at p t

  -- The sums, with the old order taken out and the new one put in.
  changed :
      (total (shares l side raw) t' + shares l side raw old
        ≡ total (shares l side raw) t + shares l side raw state)
      × (total (one_order l side raw) t' + one_order l side raw old
          ≡ total (one_order l side raw) t + one_order l side raw state)
      × (shares l side raw old ≤ total (shares l side raw) t)
      × (one_order l side raw old ≤ total (one_order l side raw) t)
  changed = (
    total-change (shares l side raw) p state t t' inside w,
    total-change (one_order l side raw) p state t t' inside w,
    total-term (shares l side raw) p t inside,
    total-term (one_order l side raw) p t inside,
  )

  pub books-post :
      is_active old ≡ false
      → is_active state ≡ true
      → books t' l side raw ≡ put_order state (more state.qty) (books t) l side raw
  unfolding books
  books-post off on =
      let (a, b, c, d) = changed in
      elim (Bool-cases
        (is_here (order_owner state) state.price_level_index (order_side state) l side raw)) [
          | inl here ↦ ground (arith, a, b, c, d, off, on, here)
          | inr there ↦ ground (arith, a, b, c, d, off, on, there)
        ]

  pub books-retire :
      is_active old ≡ true
      → is_active state ≡ false
      → books t' l side raw ≡ put_order old (fewer old.qty) (books t) l side raw
  unfolding books
  books-retire on off =
      let (a, b, c, d) = changed in
      elim (Bool-cases
        (is_here (order_owner old) old.price_level_index (order_side old) l side raw)) [
          | inl here ↦ ground (arith, a, b, c, d, off, on, here)
          | inr there ↦ ground (arith, a, b, c, d, off, on, there)
        ]

  pub books-replace :
      is_active old ≡ true
      → is_active state ≡ true
      → books t' l side raw
        ≡ put_order state (more state.qty) (put_order old (fewer old.qty) (books t)) l side raw
  unfolding books
  books-replace on on' =
      let (a, b, c, d) = changed in
      elim (Bool-cases
        (is_here (order_owner old) old.price_level_index (order_side old) l side raw)) [
          | inl here ↦
              elim (Bool-cases (
                is_here (order_owner state) state.price_level_index (order_side state) l side
                  raw)) [
                    | inl here' ↦ ground (arith, a, b, c, d, on, on', here, here')
                    | inr there' ↦ ground (arith, a, b, c, d, on, on', here, there')
                  ]
          | inr there ↦
              elim (Bool-cases (
                is_here (order_owner state) state.price_level_index (order_side state) l side
                  raw)) [
                    | inl here' ↦ ground (arith, a, b, c, d, on, on', there, here')
                    | inr there' ↦ ground (arith, a, b, c, d, on, on', there, there')
                  ]
        ]

module _ {p : Place} {t t' : OrderTable} (inside : InRange p t) (reduction : ℕ)
    (w : IsWrite p (record (state_at p t) { qty = (state_at p t).qty - reduction }) t t') (l : ℕ)
    (side : OrderSide) (raw : ℕ) where
  pub books-shrink :
      is_active (state_at p t) ≡ true
      → reduction ≤ (state_at p t).qty
      → books t' l side raw ≡ put_order (state_at p t) (shrunk_by reduction) (books t) l side raw
  unfolding books is_active
  books-shrink on small =
      let old = state_at p t in
      let (a, b, c, d) = changed inside w l side raw in
      elim (Bool-cases
        (is_here (order_owner old) old.price_level_index (order_side old) l side raw)) [
          | inl here ↦ ground (arith, a, b, c, d, on, here, small)
          | inr there ↦ ground (arith, a, b, c, d, on, there, small)
        ]

pub IsWrite-InRange :
    {p : Place} {state : OrderState} {t t' : OrderTable} (q : Place)
    → IsWrite p state t t'
    → InRange q t
    → InRange q t'
IsWrite-InRange (in_direct i) w h = subst (λ n. i < n) (sym w.slots) h
IsWrite-InRange (in_fallback b way) w (h, low) = (subst (λ n. b < n) (sym w.buckets) h, low)

-- A new order at p', and then a write at p that ends the order there.
module _ {p p' : Place} {new gone : OrderState} {t mid t' : OrderTable} (inside' : InRange p' t)
    (w : IsWrite p' new t mid) (inside : InRange p mid) (w' : IsWrite p gone mid t')
    (free : is_active (state_at p' t) ≡ false) (on : is_active new ≡ true)
    (off : is_active gone ≡ false) (l : ℕ) (side : OrderSide) (raw : ℕ) where
  -- The order that ends is an older one.
  pub books-exchange :
      InRange p t
      → state_at p mid ≡ state_at p t
      → is_active (state_at p t) ≡ true
      → books t' l side raw
        ≡ put_order new
            (more new.qty)
            (put_order (state_at p t) (fewer (state_at p t).qty) (books t))
            l
            side
            raw
  unfolding books
  books-exchange here kept live =
      let old = state_at p t in
      let (a, b, _, _) = changed inside' w l side raw in
      let (a', b', _, _) = changed inside w' l side raw in
      let c = total-term (shares l side raw) p t here in
      let d = total-term (one_order l side raw) p t here in
      let e = ap (shares l side raw) kept in
      let f = ap (one_order l side raw) kept in
      elim (Bool-cases
        (is_here (order_owner old) old.price_level_index (order_side old) l side raw)) [
          | inl x ↦
              elim (Bool-cases
                (is_here (order_owner new) new.price_level_index (order_side new) l side raw)) [
                  | inl y ↦ ground (arith, a, b, a', b', c, d, e, f, free, on, off, live, x, y)
                  | inr y ↦ ground (arith, a, b, a', b', c, d, e, f, free, on, off, live, x, y)
                ]
          | inr x ↦
              elim (Bool-cases
                (is_here (order_owner new) new.price_level_index (order_side new) l side raw)) [
                  | inl y ↦ ground (arith, a, b, a', b', c, d, e, f, free, on, off, live, x, y)
                  | inr y ↦ ground (arith, a, b, a', b', c, d, e, f, free, on, off, live, x, y)
                ]
        ]

  -- The order that ends is the new one.
  pub books-rollback : state_at p mid ≡ new → books t' l side raw ≡ books t l side raw
  unfolding books
  books-rollback same =
      let (a, b, _, _) = changed inside' w l side raw in
      let (a', b', _, _) = changed inside w' l side raw in
      let e = ap (shares l side raw) same in
      let f = ap (one_order l side raw) same in ground (arith, a, b, a', b', e, f, free, on, off)
