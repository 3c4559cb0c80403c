-- ===== src/Book/OrderBook/KeepingAdded.antt =====
-- src/book/OrderBook.cpp, addOrder: it keeps the table and the levels in agreement.
use astra_feed_engine.Prelude.{
  ℕ, ◌%◌, ◌^◌, ◌<◌, ◌≡◌, refl, sym, ◌∙◌, ap, subst, true, false, not, ◌==◌, arith, add_u64, if_elim,
  true-ne-false,
}
use astra_feed_engine.Wire.{is_valid_itch_price4}
use astra_feed_engine.Book.{MutationResult, OrderSide, is_applied, is_valid_side}
use astra_feed_engine.Book.PriceLevelStore.{
  PriceLevelStore, PricePageReservation, is_valid_reservation, is_book_prepared,
}
use astra_feed_engine.Book.PriceLevelStore.Depths.{put, more}
use astra_feed_engine.Book.PriceLevelStore.Soundness.{IsSound}
use astra_feed_engine.Book.PriceLevelStore.Additions.{add}
use astra_feed_engine.Book.PriceLevelStore.Operations.{IsInside}
use astra_feed_engine.Book.PriceLevelStore.Step.{IsStep, add-IsStep}
use astra_feed_engine.Book.OrderTable.{
  OrderState, OrderTable, OrderSlotReservation, published, reserve, commit,
}
use astra_feed_engine.Book.OrderTable.DayUnique.{published_seen}
use astra_feed_engine.Book.OrderTable.Publication.{published_active}
use astra_feed_engine.Book.OrderTable.Reservation.{reserve-commit}
use astra_feed_engine.Book.OrderTable.Writes.{commit-IsWrite}
use astra_feed_engine.Book.OrderBook.{BookView, is_invalidating, state_of, decode_side}
use astra_feed_engine.Book.OrderBook.Orders.{reserve_level, publish_order, add_reserved, add_order}
use astra_feed_engine.Book.OrderBook.Balance.{
  Balanced, Balances, reject-Balances, is_true, stored_side, levelled-Balanced, levelled-IsReserved,
  reserve-Accepts,
}
use astra_feed_engine.Book.OrderBook.Accepts.{add-Accepts}
use astra_feed_engine.Book.OrderBook.Counts.{level-IsBounded}
use astra_feed_engine.Book.OrderBook.Booked.{IsPosted, IsBooked}
use astra_feed_engine.Book.OrderBook.Levelled.{IsReserved, reserve_level-IsLevelled}
use astra_feed_engine.Book.OrderBook.Counting.{more-IsCounting, live_orders-post}
use astra_feed_engine.Book.OrderBook.Changes.{unseen_off, at_order, post-IsBooked}

-- The state that a reservation makes is posted, before and after its flags are set.
pub state_of-IsPosted :
    (qty : ℕ) (side : OrderSide) (r : PricePageReservation) (v : BookView) (s : PriceLevelStore)
    → 0 < qty
    → qty < 2 ^ 32
    → is_valid_side side ≡ true
    → IsReserved v.book.stock_locate r s
    → IsPosted s (published (state_of qty side r v))
unfolding published
state_of-IsPosted qty side r v s pos small valid k = record {
  handle_pos = k.handle_pos;
  qty_pos = pos;
  side_valid = ap is_valid_side (stored_side side valid) ∙ valid;
  inside = k.inside;
  locate_eq = k.locate_eq;
  page_eq = k.page_eq;
  index_low = k.index_low;
  qty_low = small;
}

-- A reserved reference is committed.
pub commit-Applies :
    (order_id : ℕ) (slot : OrderSlotReservation) (state : OrderState) (t : OrderTable)
    (s : PriceLevelStore)
    → IsBooked t s
    → slot ≡ reserve order_id t
    → is_applied slot.result ≡ true
    → is_applied (commit slot state t).0 ≡ true
commit-Applies order_id slot state t s k e ok =
    let applied : (r : MutationResult) → is_applied r ≡ true → r ≡ MutationResult.applied =
      λ r h. ground (arith, add_u64, h) in
    subst (λ r. is_applied (commit r state t).0 ≡ true) (sym e)
      (ap is_applied (
        reserve-commit order_id state t k.placed.buckets
          (applied _ (subst (λ (r : OrderSlotReservation). is_applied r.result ≡ true) e ok))))

module _ (order_id : ℕ) (slot : OrderSlotReservation) (price : PricePageReservation)
    (side : OrderSide) (qty timestamp : ℕ) (pos : 0 < qty) (small : qty < 2 ^ 32)
    (valid : is_valid_side side ≡ true) where
  added-IsStep :
      (v : BookView)
      → IsSound v.prices
      → price.address.level_index < 65536
      → IsStep v.prices
          (at_order v.prices (published (state_of qty side price v)) (more qty))
          (add price.address side qty v.prices)
  unfolding published
  added-IsStep v sound low =
      subst
        (λ x.
          IsStep v.prices
            (put (v.prices.page_owners price.address.page_handle) price.address.level_index x
              (more qty))
            (add price.address side qty v.prices))
        (sym (stored_side side valid)) (add-IsStep v.prices sound price.address side low qty small)

  publish_order-Balances :
      {home : ℕ} {rest : ℕ → ℕ} (v : BookView)
      → Balanced home rest v
      → slot ≡ reserve order_id v.orders
      → is_applied slot.result ≡ true
      → IsReserved v.book.stock_locate price v.prices
      → is_applied (add price.address side qty v.prices).0 ≡ true
      → Balances home rest (
          publish_order slot price side qty timestamp
            (record v { prices = (add price.address side qty v.prices).1 }))
  unfolding publish_order published add_u64
  publish_order-Balances {home} {rest} v k e free reserved added =
      let state = state_of qty side price v in
      let done = commit-Applies order_id slot state v.orders v.prices k.booked e free in
      let (p, inside, unseen, w) = commit-IsWrite slot state v.orders done in
      let posted = state_of-IsPosted qty side price v v.prices pos small valid reserved in
      if_elim (Balances home rest) (not (is_applied (commit slot state v.orders).0))
        (λ failed. absurd (true-ne-false (sym done ∙ ground (arith, add_u64, failed))))
        (λ _. record {
          booked =
              post-IsBooked v.prices (add price.address side qty v.prices) inside w k.booked added
                unseen (published_active state) (published_seen state) posted
                (added-IsStep v k.booked.sound reserved.index_low);
          is_open = k.is_open;
          counting = more-IsCounting v _ k.counting refl refl (λ l.
              live_orders-post inside w l (unseen_off p k.booked.placed unseen)
                (published_active state));
        })

-- A reserved level takes an order, or is full.
pub reserved-Accepts :
    {home : ℕ} {rest : ℕ → ℕ} (r : PricePageReservation) (side : OrderSide) (qty : ℕ) (v : BookView)
    → Balanced home rest v
    → qty < 2 ^ 32
    → is_valid_side side ≡ true
    → IsReserved v.book.stock_locate r v.prices
    → is_invalidating (add r.address side qty v.prices).0 ≡ false
reserved-Accepts {home} {rest} r side qty v k small valid reserved =
    let inside : IsInside r.address side v.prices = record {
      valid = valid;
      handle_pos = reserved.handle_pos;
      inside = reserved.inside;
    } in
    add-Accepts v.prices k.booked.sound r.address side inside reserved.index_low qty small
      (level-IsBounded v.orders v.prices r.address side k.booked inside reserved.index_low)

add_reserved-Balances :
    {home : ℕ} {rest : ℕ → ℕ} (order_id price qty : ℕ) (side : OrderSide) (timestamp : ℕ)
    (v : BookView)
    → 0 < qty
    → qty < 2 ^ 32
    → is_valid_side side ≡ true
    → Balanced home rest v
    → Balances home rest (add_reserved order_id price qty side timestamp v)
unfolding add_reserved
add_reserved-Balances {home} {rest} order_id price qty side timestamp v pos small valid k =
    let slot = reserve order_id v.orders in
    let r = reserve_level (price % 2 ^ 32) v in
    let levelled = reserve_level-IsLevelled (price % 2 ^ 32) v k.booked in
    let paged = levelled-Balanced v r levelled k in
    if_elim (Balances home rest) (not (is_applied slot.result))
      (λ _. reject-Balances _ v (reserve-Accepts order_id v.orders) k)
      (λ free.
        if_elim (Balances home rest) (not (is_valid_reservation r.0))
          (λ _. reject-Balances _ r.2 levelled.accepts paged)
          (λ fits.
            if_elim (Balances home rest) (not (is_applied r.1))
              (λ failed. absurd (
                true-ne-false
                  (sym (levelled.paged (is_true fits)) ∙ ground (arith, add_u64, failed))))
              (λ ok.
                let reserved = levelled-IsReserved v r levelled (is_true fits) (is_true ok) in
                if_elim (Balances home rest)
                  (not (is_applied (add r.0.address side qty r.2.prices).0))
                  (λ _.
                    reject-Balances _ r.2
                      (reserved-Accepts r.0 side qty r.2 paged small valid reserved) paged)
                  (λ added.
                    publish_order-Balances order_id slot r.0 side qty timestamp pos small valid r.2
                      paged (ap (reserve order_id) (sym levelled.same_orders)) (is_true free)
                      reserved (is_true added)))))

pub add_order-Balances :
    {home : ℕ} {rest : ℕ → ℕ} (order_id price qty side timestamp : ℕ) (v : BookView)
    → qty < 2 ^ 32
    → Balanced home rest v
    → Balances home rest (add_order order_id price qty side timestamp v)
unfolding add_order
add_order-Balances {home} {rest} order_id price qty side timestamp v small k =
    if_elim (Balances home rest) v.book.local_invalid (λ _. k)
      (λ _.
        if_elim (Balances home rest) (not (is_book_prepared v.book.stock_locate v.prices))
          (λ _. reject-Balances _ v refl k)
          (λ _.
            if_elim (Balances home rest) (not (is_valid_side (decode_side side)))
              (λ _. reject-Balances _ v refl k)
              (λ valid.
                if_elim (Balances home rest) (qty == 0) (λ _. reject-Balances _ v refl k)
                  (λ some_shares.
                    if_elim (Balances home rest) (not (is_valid_itch_price4 price))
                      (λ _. reject-Balances _ v refl k)
                      (λ _.
                        add_reserved-Balances order_id price qty (decode_side side) timestamp v
                          (ground (arith, add_u64, some_shares)) small (is_true valid) k)))))
