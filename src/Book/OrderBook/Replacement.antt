-- ===== src/Book/OrderBook/Replacement.antt =====
-- src/book/OrderBook.cpp: replaceOrder.
use astra_feed_engine.Prelude.{ℕ, ◌%◌, ◌^◌, not, ◌&&◌, none, some, ◌==◌, if◌then◌else◌}
use astra_feed_engine.Wire.{is_valid_itch_price4}
use astra_feed_engine.Book.{MutationResult, is_applied}
use astra_feed_engine.Book.OrderTable.{
  OrderState, Place, OrderSlotReservation, reserve, commit, find_state, erase_place,
}
use astra_feed_engine.Book.OrderTable
use astra_feed_engine.Book.OrderTable.States.{state_at, write_state}
use astra_feed_engine.Book.PriceLevelStore.{PricePageReservation, is_valid_reservation}
use astra_feed_engine.Book.PriceLevelStore.Removals.{move}
use astra_feed_engine.Book.OrderBook.{
  BookView, decode_stored_side, address_of, reject, finish, state_result, state_of,
}
use astra_feed_engine.Book.OrderBook.Orders.{reserve_level}

-- The branch for one reference: the order keeps its slot.
unfoldable pub replace_in_place :
    Place → PricePageReservation → ℕ → ℕ → BookView → MutationResult × BookView
replace_in_place place price new_qty timestamp v =
    let state = state_at place v.orders in
    let (move_result, prices) =
      move (address_of state) state.qty price.address new_qty (decode_stored_side state.side)
        v.prices in
    let moved = record v { prices = prices } in
    if not (is_applied move_result)
    then reject move_result moved
    else finish timestamp (record moved {
      orders =
          write_state place
            (record state {
              qty = new_qty;
              price_page_handle = price.address.page_handle;
              price_level_index = price.address.level_index;
              price_page_index = price.page_index;
            })
            v.orders;
    })

-- The old order leaves the table, after the new one was published and the quantity moved; `old` is the
-- old order's state before.
unfoldable pub retire_order :
    ℕ → Place → OrderState → PricePageReservation → ℕ → ℕ → BookView → MutationResult × BookView
retire_order new_id place old price new_qty timestamp v =
    let (result, orders) = erase_place (some place) v.orders in
    let (_, rolled_back) = OrderTable.erase new_id orders in
    let (_, prices) =
      move price.address new_qty (address_of old) old.qty (decode_stored_side old.side) v.prices in
    if not (is_applied result)
    then reject MutationResult.invariant_violation
        (record v { orders = rolled_back; prices = prices })
    else finish timestamp (record v { orders = orders })

-- The branch for a new reference, from the commit of its slot on.
unfoldable pub replace_by_new :
    ℕ
    → OrderSlotReservation
    → Place
    → PricePageReservation
    → ℕ
    → ℕ
    → BookView
    → MutationResult × BookView
replace_by_new new_id slot place price new_qty timestamp v =
    let old = state_at place v.orders in
    let side = decode_stored_side old.side in
    let (new_commit, orders) = commit slot (state_of new_qty side price v) v.orders in
    let committed = record v { orders = orders } in
    let (move_result, prices) = move (address_of old) old.qty price.address new_qty side v.prices in
    let (table_rollback, rolled_back) = OrderTable.erase new_id orders in
    if not (is_applied new_commit)
    then reject new_commit committed
    else if not (is_applied move_result)
    then reject
        (if is_applied table_rollback then move_result else MutationResult.invariant_violation)
        (record v { orders = rolled_back; prices = prices })
    else retire_order new_id place old price new_qty timestamp
        (record committed { prices = prices })

-- replaceOrder, once the old order was found.
unfoldable pub replace_found : Place → ℕ → ℕ → ℕ → ℕ → ℕ → BookView → MutationResult × BookView
replace_found place old_id new_id new_price new_qty timestamp v =
    let slot = reserve new_id v.orders in
    let (price, page_result, paged) = reserve_level (new_price % 2 ^ 32) v in
    if not (new_id == old_id) && not (is_applied slot.result)
    then reject slot.result v
    else if not (is_valid_reservation price)
    then reject price.result paged
    else if not (is_applied page_result)
    then reject page_result paged
    else if new_id == old_id
    then replace_in_place place price new_qty timestamp paged
    else replace_by_new new_id slot place price new_qty timestamp paged

unfoldable pub replace_order : ℕ → ℕ → ℕ → ℕ → ℕ → BookView → MutationResult × BookView
replace_order old_id new_id new_price new_qty timestamp v =
    let found = find_state old_id v.orders in
    let old_result = state_result found v in
    if v.book.local_invalid
    then (MutationResult.book_invalid, v)
    else if new_qty == 0
    then reject MutationResult.invalid_quantity v
    else if not (is_valid_itch_price4 new_price)
    then reject MutationResult.price_out_of_range v
    else if not (is_applied old_result)
    then reject old_result v
    else elim found [
      | none ↦ reject MutationResult.order_not_found v
      | some place ↦ replace_found place old_id new_id new_price new_qty timestamp v
    ]
