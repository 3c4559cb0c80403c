-- ===== src/Book/OrderBook/Marking.antt =====
-- src/book/OrderBook.cpp: an operation marks its book invalid exactly when it answers with a fault.
use astra_feed_engine.Prelude.{
  ℕ, ◌^◌, ◌≡◌, ◌∙◌, false, not, ◌&&◌, ◌==◌, ◌%◌, ltb, Option, none, some, arith, if_elim,
}
use astra_feed_engine.Book.{MutationResult, OrderSide, is_applied}
use astra_feed_engine.Book.OrderTable.{OrderState, Place, OrderSlotReservation, reserve, find_state}
use astra_feed_engine.Book.OrderTable.States.{state_at}
use astra_feed_engine.Wire.{is_valid_itch_price4}
use astra_feed_engine.Book.PriceLevelStore.{
  PricePageReservation, is_valid_reservation, owns_address,
}
use astra_feed_engine.Book.PriceLevelStore.Additions.{add}
use astra_feed_engine.Book.OrderBook.{
  BookView, reject, rejected, is_invalidating, decode_side, address_of, state_result,
}
use astra_feed_engine.Book.OrderBook.Orders.{
  reserve_level, publish_order, add_reserved, reduce_order, remove_order, live_result,
}
use astra_feed_engine.Book.OrderBook.Orders
use astra_feed_engine.Book.OrderBook.Replacement.{
  replace_in_place, retire_order, replace_by_new, replace_found,
}
use astra_feed_engine.Book.OrderBook.Replacement

-- The book is marked invalid exactly when the answer is one of the faults.
abbrev pub Marked : MutationResult × BookView → Type 0
Marked x = x.1.book.local_invalid ≡ is_invalidating x.0

-- An operation on a book that is not marked marks it exactly when it answers with a fault.
abbrev pub Marks : (BookView → MutationResult × BookView) → Type 0
Marks operation = (v : BookView) → v.book.local_invalid ≡ false → Marked (operation v)

option_elim :
    {A B : Type 0} (Q : B → Type 0) (o : Option A) {n : B} {f : A → B}
    → Q n
    → ((a : A) → Q (f a))
    → Q (elim o [ none ↦ n | some a ↦ f a ])
option_elim Q none p q = p
option_elim Q (some a) p q = q a

reserve_level-book :
    (raw : ℕ) (v : BookView) → (reserve_level raw v).2.book.local_invalid ≡ v.book.local_invalid
unfolding reserve_level
reserve_level-book raw v = ground arith

reject-Marks : (result : MutationResult) → Marks (reject result)
unfolding reject rejected
reject-Marks result v e = ground (arith, e)

publish_order-Marks :
    (slot : OrderSlotReservation) (price : PricePageReservation) (side : OrderSide) (qty : ℕ)
    (timestamp : ℕ)
    → Marks (publish_order slot price side qty timestamp)
unfolding reject rejected publish_order
publish_order-Marks slot price side qty timestamp v e = ground (arith, e)

add_reserved-Marks :
    (order_id : ℕ) (price : ℕ) (qty : ℕ) (side : OrderSide) (timestamp : ℕ)
    → Marks (add_reserved order_id price qty side timestamp)
unfolding add_reserved
add_reserved-Marks order_id price qty side timestamp v e =
    let slot = reserve order_id v.orders in
    let level = reserve_level (price % 2 ^ 32) v in
    let same = reserve_level-book (price % 2 ^ 32) v ∙ e in
    let added = add level.0.address side qty level.2.prices in
    if_elim Marked (not (is_applied slot.result)) (λ _. reject-Marks slot.result v e)
      (λ _.
        if_elim Marked (not (is_valid_reservation level.0))
          (λ _. reject-Marks level.0.result level.2 same)
          (λ _.
            if_elim Marked (not (is_applied level.1)) (λ _. reject-Marks level.1 level.2 same)
              (λ _.
                if_elim Marked (not (is_applied added.0)) (λ _. reject-Marks added.0 level.2 same)
                  (λ _.
                    publish_order-Marks slot level.0 side qty timestamp
                      (record level.2 { prices = added.1 }) same))))

pub add_order-Marks :
    (order_id : ℕ) (price : ℕ) (qty : ℕ) (side : ℕ) (timestamp : ℕ)
    → Marks (Orders.add_order order_id price qty side timestamp)
unfolding reject rejected Orders.add_order
add_order-Marks order_id price qty side timestamp v e =
    ground (arith, e, add_reserved-Marks order_id price qty (decode_side side) timestamp v e)

reduce_order-Marks :
    (p : Place) (reduction : ℕ) (timestamp : ℕ) → Marks (reduce_order p reduction timestamp)
unfolding reject rejected reduce_order
reduce_order-Marks p reduction timestamp v e = ground (arith, e)

remove_order-Marks : (p : Place) (timestamp : ℕ) → Marks (remove_order p timestamp)
unfolding reject rejected remove_order
remove_order-Marks p timestamp v e = ground (arith, e)

pub cancel_shares-Marks :
    (order_id : ℕ) (canceled_qty : ℕ) (timestamp : ℕ)
    → Marks (Orders.cancel_shares order_id canceled_qty timestamp)
unfolding reject rejected Orders.cancel_shares reduce_order
cancel_shares-Marks order_id canceled_qty timestamp v e = ground (arith, e)

pub delete_order-Marks :
    (order_id : ℕ) (timestamp : ℕ) → Marks (Orders.delete_order order_id timestamp)
unfolding reject rejected Orders.delete_order remove_order
delete_order-Marks order_id timestamp v e = ground (arith, e)

pub execute_order-Marks :
    (order_id : ℕ) (executed_qty : ℕ) (timestamp : ℕ)
    → Marks (Orders.execute_order order_id executed_qty timestamp)
unfolding Orders.execute_order
execute_order-Marks order_id executed_qty timestamp v e =
    if_elim Marked v.book.local_invalid (λ invalid. ground (arith, e, invalid))
      (λ _.
        if_elim Marked (executed_qty == 0) (λ _. reject-Marks _ v e)
          (λ _. option_elim Marked (find_state order_id v.orders) (reject-Marks _ v e) (λ p.
            let state = state_at p v.orders in
            if_elim Marked (not (is_applied (live_result state v))) (λ _. reject-Marks _ v e)
              (λ _.
                if_elim Marked (ltb state.qty executed_qty) (λ _. reject-Marks _ v e)
                  (λ _.
                    if_elim Marked (executed_qty == state.qty)
                      (λ _.
                        if_elim Marked
                          (not (
                            owns_address v.book.stock_locate state.price_page_index
                              (address_of state) v.prices))
                          (λ _. reject-Marks _ v e) (λ _. remove_order-Marks p timestamp v e))
                      (λ _. reduce_order-Marks p executed_qty timestamp v e))))))

replace_in_place-Marks :
    (p : Place) (price : PricePageReservation) (new_qty : ℕ) (timestamp : ℕ)
    → Marks (replace_in_place p price new_qty timestamp)
unfolding reject rejected replace_in_place
replace_in_place-Marks p price new_qty timestamp v e = ground (arith, e)

retire_order-Marks :
    (new_id : ℕ) (p : Place) (old : OrderState) (price : PricePageReservation) (new_qty : ℕ)
    (timestamp : ℕ)
    → Marks (retire_order new_id p old price new_qty timestamp)
unfolding reject rejected retire_order
retire_order-Marks new_id p old price new_qty timestamp v e = ground (arith, e)

replace_by_new-Marks :
    (new_id : ℕ) (slot : OrderSlotReservation) (p : Place) (price : PricePageReservation)
    (new_qty : ℕ) (timestamp : ℕ)
    → Marks (replace_by_new new_id slot p price new_qty timestamp)
unfolding reject rejected replace_by_new retire_order
replace_by_new-Marks new_id slot p price new_qty timestamp v e = ground (arith, e)

replace_found-Marks :
    (p : Place) (old_id : ℕ) (new_id : ℕ) (new_price : ℕ) (new_qty : ℕ) (timestamp : ℕ)
    → Marks (replace_found p old_id new_id new_price new_qty timestamp)
unfolding replace_found
replace_found-Marks p old_id new_id new_price new_qty timestamp v e =
    let slot = reserve new_id v.orders in
    let level = reserve_level (new_price % 2 ^ 32) v in
    let same = reserve_level-book (new_price % 2 ^ 32) v ∙ e in
    if_elim Marked (not (new_id == old_id) && not (is_applied slot.result))
      (λ _. reject-Marks slot.result v e)
      (λ _.
        if_elim Marked (not (is_valid_reservation level.0))
          (λ _. reject-Marks level.0.result level.2 same)
          (λ _.
            if_elim Marked (not (is_applied level.1)) (λ _. reject-Marks level.1 level.2 same)
              (λ _.
                if_elim Marked (new_id == old_id)
                  (λ _. replace_in_place-Marks p level.0 new_qty timestamp level.2 same)
                  (λ _.
                    replace_by_new-Marks new_id slot p level.0 new_qty timestamp level.2 same))))

pub replace_order-Marks :
    (old_id : ℕ) (new_id : ℕ) (new_price : ℕ) (new_qty : ℕ) (timestamp : ℕ)
    → Marks (Replacement.replace_order old_id new_id new_price new_qty timestamp)
unfolding Replacement.replace_order
replace_order-Marks old_id new_id new_price new_qty timestamp v e =
    if_elim Marked v.book.local_invalid (λ invalid. ground (arith, e, invalid))
      (λ _.
        if_elim Marked (new_qty == 0) (λ _. reject-Marks _ v e)
          (λ _.
            if_elim Marked (not (is_valid_itch_price4 new_price)) (λ _. reject-Marks _ v e)
              (λ _.
                if_elim Marked (not (is_applied (state_result (find_state old_id v.orders) v)))
                  (λ _. reject-Marks _ v e)
                  (λ _.
                    option_elim Marked (find_state old_id v.orders) (reject-Marks _ v e)
                      (λ p. replace_found-Marks p old_id new_id new_price new_qty timestamp v e)))))
