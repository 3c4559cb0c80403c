-- ===== src/Book/OrderBook/Balance.antt =====
-- src/book/OrderBook.cpp: what holds of a book between two operations, with what the tests on a found
-- order can say.
use astra_feed_engine.Prelude.{
  ℕ, ◌≡◌, refl, sym, ◌∙◌, ap, subst, Bool, true, false, not, Option, none, some, arith, List, [],
  ◌∷◌, ◌&&◌, if◌then◌else◌, true-ne-false,
}
use astra_feed_engine.Book.{
  MutationResult, OrderSide, is_applied, is_valid_side, side_code, LookupPath,
}
use astra_feed_engine.Book.PriceLevelStore.{
  PricePageReservation, is_valid_reservation, owns_address,
}
use astra_feed_engine.Book.OrderTable.{
  OrderState, OrderTable, OrderSlotReservation, Place, is_active, reserve, find_state,
  reserve_fallback, fallback_slots, reservation, was_seen,
}
use astra_feed_engine.Book.OrderTable.States.{state_at}
use astra_feed_engine.Book.OrderTable.Sums.{InRange}
use astra_feed_engine.Book.OrderTable.Writes.{find_state-found}
use astra_feed_engine.Book.OrderBook.{
  BookView, OrderBook, reject, rejected, is_invalidating, state_result, address_of,
  decode_stored_side,
}
use astra_feed_engine.Book.OrderBook.Orders.{live_result, exceeded}
use astra_feed_engine.Book.OrderBook.Accepts.{owns_address-true}
use astra_feed_engine.Book.OrderBook.Counts.{posted-IsInside}
use astra_feed_engine.Book.OrderBook.Counting.{IsCounting, kept-IsCounting, live_orders}
use astra_feed_engine.Book.OrderBook.Ledger.{order_side}
use astra_feed_engine.Book.OrderBook.Booked.{IsPosted, IsBooked}
use astra_feed_engine.Book.OrderBook.Levelled.{IsReserved, IsLevelled}

-- The two stores agree, and the book is not out of order.
pub record Balanced (home : ℕ) (rest : ℕ → ℕ) (v : BookView) : Type 0 where
  pub booked : IsBooked v.orders v.prices
  pub is_open : v.book.local_invalid ≡ false
  pub counting : IsCounting home rest v

abbrev pub Balances : ℕ → (ℕ → ℕ) → MutationResult × BookView → Type 0
Balances home rest x = Balanced home rest x.1

-- The result of a rejection is none of those that invalidate the book.
pub reject-Balances :
    {home : ℕ} {rest : ℕ → ℕ} (result : MutationResult) (v : BookView)
    → is_invalidating result ≡ false
    → Balanced home rest v
    → Balances home rest (reject result v)
unfolding reject rejected
reject-Balances {home} {rest} result v fine k = record {
  booked = k.booked;
  is_open = let o = k.is_open in ground (arith, fine, o);
  counting = kept-IsCounting v (reject result v).1 k.counting refl refl (λ l. refl);
}

pub is_true : {b : Bool} → not b ≡ false → b ≡ true
is_true h = ground (arith, h)

pub stored_side :
    (side : OrderSide) → is_valid_side side ≡ true → decode_stored_side (side_code side) ≡ side
unfolding decode_stored_side
stored_side OrderSide.buy v = refl
stored_side OrderSide.sell v = refl
stored_side OrderSide.no_side v = absurd (true-ne-false (sym v))

-- The level is reserved: the stores are in agreement.
pub levelled-Balanced :
    {home : ℕ} {rest : ℕ → ℕ} (v : BookView) (x : PricePageReservation × MutationResult × BookView)
    → IsLevelled v x
    → Balanced home rest v
    → Balanced home rest x.2
levelled-Balanced {home} {rest} v x k b = record {
  booked = subst (λ t. IsBooked t x.2.prices) (sym k.same_orders) k.booked;
  is_open = ap (λ (b : OrderBook). b.local_invalid) k.same_book ∙ b.is_open;
  counting =
      kept-IsCounting v x.2 b.counting (ap (λ (y : OrderBook). y.stock_locate) k.same_book)
        (ap (λ (y : OrderBook). y.live_order_count) k.same_book)
        (λ l. ap (live_orders l) k.same_orders);
}

pub levelled-IsReserved :
    (v : BookView) (x : PricePageReservation × MutationResult × BookView)
    → IsLevelled v x
    → is_valid_reservation x.0 ≡ true
    → is_applied x.1 ≡ true
    → IsReserved x.2.book.stock_locate x.0 x.2.prices
levelled-IsReserved v x k valid ok =
    subst (λ (b : OrderBook). IsReserved b.stock_locate x.0 x.2.prices) (sym k.same_book)
      (k.reserved valid ok)

-- A found state is live.
pub found_cases :
    {home : ℕ} {rest : ℕ → ℕ} (Q : Option Place → Type 0) (order_id : ℕ) (v : BookView)
    → Balanced home rest v
    → Q none
    → ((p : Place)
        → find_state order_id v.orders ≡ some p
        → InRange p v.orders × (is_active (state_at p v.orders) ≡ true)
        → Q (some p))
    → Q (find_state order_id v.orders)
found_cases {home} {rest} Q order_id v k missing found =
    cases_eq (find_state order_id v.orders)
      (λ p e. found p e (find_state-found order_id v.orders p k.booked.placed.buckets e))
  where
    cases_eq : (o : Option Place) → ((p : Place) → o ≡ some p → Q (some p)) → Q o
    cases_eq none q = missing
    cases_eq (some p) q = q p refl

-- The branches for a found state.
pub found_elim :
    {home : ℕ} {rest : ℕ → ℕ} {B : Type 0} (Q : B → Type 0) (order_id : ℕ) (v : BookView) {n : B}
    {f : Place → B}
    → Balanced home rest v
    → Q n
    → ((p : Place)
        → find_state order_id v.orders ≡ some p
        → InRange p v.orders × (is_active (state_at p v.orders) ≡ true)
        → Q (f p))
    → Q (elim (find_state order_id v.orders) [ none ↦ n | some p ↦ f p ])
found_elim {home} {rest} Q order_id v {n} {f} k missing found =
    found_cases (λ o. Q (elim o [ none ↦ n | some p ↦ f p ])) order_id v k missing found

-- A reference that cannot be reserved is not the fault of the book.
reserve_fallback-Accepts :
    (slots : List (LookupPath × ℕ × ℕ)) (first : OrderSlotReservation) (order_ref : ℕ)
    (t : OrderTable)
    → is_invalidating first.result ≡ false
    → is_invalidating (reserve_fallback slots first order_ref t).result ≡ false
unfolding reserve_fallback
reserve_fallback-Accepts [] first order_ref t h = h
reserve_fallback-Accepts ((path, bucket, way) ∷ slots) first order_ref t h =
    let first' =
      if not (was_seen (t.fallback bucket way).state) && not (is_applied first.result)
      then reservation MutationResult.applied path order_ref bucket way
      else first in
    ground (arith, h, reserve_fallback-Accepts slots first' order_ref t)

pub reserve-Accepts :
    (order_ref : ℕ) (t : OrderTable) → is_invalidating (reserve order_ref t).result ≡ false
unfolding reserve
reserve-Accepts order_ref t = ground (
  arith,
  reserve_fallback-Accepts (fallback_slots order_ref t)
      (reservation MutationResult.order_table_capacity_exceeded LookupPath.no_path order_ref 0 0)
      order_ref t refl,
)

-- The tests on a live order.
module _ {home : ℕ} {rest : ℕ → ℕ} (p : Place) (v : BookView) (k : Balanced home rest v)
    (on : is_active (state_at p v.orders) ≡ true) where
  abbrev state : OrderState
  state = state_at p v.orders

  posted : IsPosted v.prices state
  posted = k.booked.placed.posted p on

  pub live_result-Accepts : is_invalidating (live_result state v) ≡ false
  unfolding live_result
  live_result-Accepts =
      let a = posted.side_valid in
      let b = posted.qty_pos in let c = posted.handle_pos in ground (arith, a, b, c)

  pub live-locate_eq : is_applied (live_result state v) ≡ true → state.locate ≡ v.book.stock_locate
  unfolding live_result
  live-locate_eq ok = ground (arith, ok)

  pub live-owns_address :
      state.locate ≡ v.book.stock_locate
      → owns_address v.book.stock_locate state.price_page_index (address_of state) v.prices ≡ true
  live-owns_address e =
      owns_address-true v.prices k.booked.sound (address_of state) (order_side state)
        (posted-IsInside v.prices state posted) posted.index_low v.book.stock_locate
        state.price_page_index (posted.locate_eq ∙ e) posted.page_eq

  pub exceeded-Accepts :
      state.locate ≡ v.book.stock_locate → is_invalidating (exceeded state v) ≡ false
  exceeded-Accepts e = let owns = live-owns_address e in ground (arith, owns)

  place_result-Accepts : is_invalidating (state_result (some p) v) ≡ false
  unfolding state_result
  place_result-Accepts =
      let a = posted.side_valid in
      let b = posted.qty_pos in
      let c = posted.handle_pos in let owns = live-owns_address in ground (arith, a, b, c, owns)

pub state_result-Accepts :
    {home : ℕ} {rest : ℕ → ℕ} (order_id : ℕ) (v : BookView)
    → Balanced home rest v
    → is_invalidating (state_result (find_state order_id v.orders) v) ≡ false
unfolding state_result
state_result-Accepts {home} {rest} order_id v k =
    found_cases (λ o. is_invalidating (state_result o v) ≡ false) order_id v k refl
      (λ p e found. place_result-Accepts p v k found.1)

-- What the tests of a found order tell of its book.
pub found-locate_eq :
    (order_id : ℕ) (p : Place) (v : BookView)
    → find_state order_id v.orders ≡ some p
    → is_applied (state_result (find_state order_id v.orders) v) ≡ true
    → (state_at p v.orders).locate ≡ v.book.stock_locate
unfolding state_result
found-locate_eq order_id p v e ok =
    let ok' : is_applied (state_result (some p) v) ≡ true =
      subst (λ o. is_applied (state_result o v) ≡ true) e ok in
    ground (arith, ok')
