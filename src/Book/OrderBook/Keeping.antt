-- ===== src/Book/OrderBook/Keeping.antt =====
-- src/book/OrderBook.cpp: an order that is reduced or removed keeps the table and the levels in
-- agreement.
use astra_feed_engine.Prelude.{
  ℕ, ◌<◌, ◌≡◌, refl, sym, ◌∙◌, ap, true, not, ◌==◌, ltb, leb, some, arith, ◌+◌, if◌then◌else◌,
  if_elim, sub_u64, true-ne-false,
}
use astra_feed_engine.Book.{is_applied}
use astra_feed_engine.Book.PriceLevelStore.{owns_address}
use astra_feed_engine.Book.PriceLevelStore.Removals.{erase}
use astra_feed_engine.Book.PriceLevelStore.Levels.{reduce_checked}
use astra_feed_engine.Book.PriceLevelStore.Step.{erase-IsStep, reduce_checked-IsStep}
use astra_feed_engine.Book.OrderTable.{Place, is_active, erase_place, find_state}
use astra_feed_engine.Book.OrderTable.States.{state_at}
use astra_feed_engine.Book.OrderTable.Sums.{InRange}
use astra_feed_engine.Book.OrderTable.Writes.{erase_place-IsWrite, write_state-IsWrite}
use astra_feed_engine.Book.OrderBook.{BookView, state_result, address_of}
use astra_feed_engine.Book.OrderBook.Orders.{
  live_result, reduce_order, remove_order, cancel_shares, delete_order, execute_order,
}
use astra_feed_engine.Book.OrderBook.Balance.{
  found-locate_eq, Balanced, Balances, reject-Balances, is_true, found_elim, live_result-Accepts,
  live-locate_eq, live-owns_address, exceeded-Accepts, state_result-Accepts,
}
use astra_feed_engine.Book.OrderBook.Accepts.{erase-Applies, reduce_checked-Accepts}
use astra_feed_engine.Book.OrderBook.Counts.{level-HasOrder, posted-IsInside}
use astra_feed_engine.Book.OrderBook.Ledger.{order_side}
use astra_feed_engine.Book.OrderBook.Counting.{
  kept-IsCounting, fewer-IsCounting, live_orders, live_orders-retire, live_orders-kept,
}
use astra_feed_engine.Book.OrderBook.Changes.{erased_off, retire-IsBooked, shrink-IsBooked}

reduce_order-Balances :
    {home : ℕ} {rest : ℕ → ℕ} (p : Place) (reduction timestamp : ℕ) (v : BookView)
    → InRange p v.orders × (is_active (state_at p v.orders) ≡ true)
    → (state_at p v.orders).locate ≡ v.book.stock_locate
    → 0 < reduction
    → reduction < (state_at p v.orders).qty
    → Balanced home rest v
    → Balances home rest (reduce_order p reduction timestamp v)
unfolding reduce_order is_active
reduce_order-Balances {home} {rest} p reduction timestamp v (inside, on) here some_shares small k =
    let state = state_at p v.orders in
    let posted = k.booked.placed.posted p on in
    let l = v.book.stock_locate in
    let left =
      reduce_checked l state.price_page_index (address_of state) (order_side state) state.qty
        reduction v.prices in
    let step =
      reduce_checked-IsStep v.prices k.booked.sound (address_of state) (order_side state)
        posted.index_low l state.price_page_index state.qty reduction in
    let done : is_applied left.0 ≡ true =
      reduce_checked-Accepts v.prices k.booked.sound (address_of state) (order_side state)
        (posted-IsInside v.prices state posted) posted.index_low l state.price_page_index state.qty
        reduction (posted.locate_eq ∙ here) posted.page_eq some_shares small
        (level-HasOrder p v.orders v.prices k.booked inside on) in
    if_elim (Balances home rest) (not (is_applied left.0))
      (λ refused. absurd (true-ne-false (sym done ∙ ground (arith, refused))))
      (λ ok. record {
        booked =
            shrink-IsBooked v.prices left reduction inside (write_state-IsWrite p _ v.orders)
              k.booked done on small step;
        is_open = k.is_open;
        counting =
            kept-IsCounting v _ k.counting refl refl
              (λ x. live_orders-kept inside (write_state-IsWrite p _ v.orders) x refl refl);
      })

remove_order-Balances :
    {home : ℕ} {rest : ℕ → ℕ} (p : Place) (timestamp : ℕ) (v : BookView)
    → InRange p v.orders × (is_active (state_at p v.orders) ≡ true)
    → (state_at p v.orders).locate ≡ v.book.stock_locate
    → Balanced home rest v
    → Balances home rest (remove_order p timestamp v)
unfolding remove_order sub_u64 erase
remove_order-Balances {home} {rest} p timestamp v (inside, on) here k =
    let state = state_at p v.orders in
    let posted = k.booked.placed.posted p on in
    let left = erase (address_of state) (order_side state) state.qty v.prices in
    let step =
      erase-IsStep v.prices k.booked.sound (address_of state) (order_side state) posted.index_low
        state.qty in
    let (gone, w) = erase_place-IsWrite p v.orders on in
    let valid =
      erase-Applies v.prices k.booked.sound (address_of state) (order_side state)
        (posted-IsInside v.prices state posted) posted.index_low state.qty
        (level-HasOrder p v.orders v.prices k.booked inside on) in
    let done : is_applied left.0 ≡ true = ground (arith, valid) in
    if_elim (Balances home rest) (not (is_applied left.0))
      (λ refused. absurd (true-ne-false (sym done ∙ ground (arith, refused))))
      (λ ok.
        if_elim (Balances home rest) (not (is_applied (erase_place (some p) v.orders).0))
          (λ failed. absurd (true-ne-false (sym (ap is_applied gone) ∙ ground (arith, failed))))
          (λ _. record {
            booked = retire-IsBooked v.prices left inside w k.booked done on refl step;
            is_open = k.is_open;
            counting = fewer-IsCounting v _ k.counting refl refl (λ x.
                live_orders-retire inside w x on erased_off
                ∙ ap
                    (λ y.
                      live_orders x (erase_place (some p) v.orders).1 + (if y == x then 1 else 0))
                    here);
          }))

pub cancel_shares-Balances :
    {home : ℕ} {rest : ℕ → ℕ} (order_id canceled_qty timestamp : ℕ) (v : BookView)
    → Balanced home rest v
    → Balances home rest (cancel_shares order_id canceled_qty timestamp v)
unfolding cancel_shares
cancel_shares-Balances {home} {rest} order_id canceled_qty timestamp v k =
    if_elim (Balances home rest) v.book.local_invalid (λ _. k)
      (λ _.
        if_elim (Balances home rest) (canceled_qty == 0) (λ _. reject-Balances _ v refl k)
          (λ some_shares.
            found_elim (Balances home rest) order_id v k (reject-Balances _ v refl k) (λ p _ found.
              let state = state_at p v.orders in
              if_elim (Balances home rest) (not (is_applied (live_result state v)))
                (λ _. reject-Balances _ v (live_result-Accepts p v k found.1) k)
                (λ live.
                  let here = live-locate_eq p v k found.1 (is_true live) in
                  if_elim (Balances home rest) (leb state.qty canceled_qty)
                    (λ _. reject-Balances _ v (exceeded-Accepts p v k found.1 here) k)
                    (λ within.
                      reduce_order-Balances p canceled_qty timestamp v found here
                        (ground (arith, some_shares)) (ground (arith, within)) k)))))

pub delete_order-Balances :
    {home : ℕ} {rest : ℕ → ℕ} (order_id timestamp : ℕ) (v : BookView)
    → Balanced home rest v
    → Balances home rest (delete_order order_id timestamp v)
unfolding delete_order
delete_order-Balances {home} {rest} order_id timestamp v k =
    if_elim (Balances home rest) v.book.local_invalid (λ _. k)
      (λ _.
        if_elim (Balances home rest)
          (not (is_applied (state_result (find_state order_id v.orders) v)))
          (λ _. reject-Balances _ v (state_result-Accepts order_id v k) k)
          (λ ok.
            found_elim (Balances home rest) order_id v k (reject-Balances _ v refl k) (λ p e found.
              remove_order-Balances p timestamp v found
                (found-locate_eq order_id p v e (is_true ok)) k)))

pub execute_order-Balances :
    {home : ℕ} {rest : ℕ → ℕ} (order_id executed_qty timestamp : ℕ) (v : BookView)
    → Balanced home rest v
    → Balances home rest (execute_order order_id executed_qty timestamp v)
unfolding execute_order
execute_order-Balances {home} {rest} order_id executed_qty timestamp v k =
    if_elim (Balances home rest) v.book.local_invalid (λ _. k)
      (λ _.
        if_elim (Balances home rest) (executed_qty == 0) (λ _. reject-Balances _ v refl k)
          (λ some_shares.
            found_elim (Balances home rest) order_id v k (reject-Balances _ v refl k) (λ p _ found.
              let state = state_at p v.orders in
              if_elim (Balances home rest) (not (is_applied (live_result state v)))
                (λ _. reject-Balances _ v (live_result-Accepts p v k found.1) k)
                (λ live.
                  let here = live-locate_eq p v k found.1 (is_true live) in
                  if_elim (Balances home rest) (ltb state.qty executed_qty)
                    (λ _. reject-Balances _ v (exceeded-Accepts p v k found.1 here) k)
                    (λ within.
                      if_elim (Balances home rest) (executed_qty == state.qty)
                        (λ _.
                          if_elim (Balances home rest)
                            (not (
                              owns_address v.book.stock_locate state.price_page_index
                                (address_of state) v.prices))
                            (λ failed. absurd (
                              true-ne-false (
                                sym (live-owns_address p v k found.1 here)
                                ∙ ground (arith, failed))))
                            (λ _. remove_order-Balances p timestamp v found here k))
                        (λ other.
                          reduce_order-Balances p executed_qty timestamp v found here
                            (ground (arith, some_shares)) (ground (arith, within, other)) k))))))
