-- ===== src/Book/OrderBook/Orders.antt =====
-- src/book/OrderBook.cpp: an order is added, reduced or removed.
use astra_feed_engine.Prelude.{
  ℕ, ◌-◌, ◌%◌, ◌^◌, not, ◌&&◌, ◌||◌, none, some, ◌==◌, ltb, leb, if◌then◌else◌, add_u64, sub_u64,
}
use astra_feed_engine.Wire.{is_valid_itch_price4}
use astra_feed_engine.Book.{MutationResult, OrderSide, is_applied, is_valid_side}
use astra_feed_engine.Book.OrderTable.{
  OrderState, Place, OrderSlotReservation, reserve, commit, find_state, erase_place,
}
use astra_feed_engine.Book.OrderTable.States.{state_at, write_state}
use astra_feed_engine.Book.PriceLevelStore.{
  PricePageReservation, is_valid_address, is_valid_reservation, is_book_prepared, owns_address,
  reserve_price, commit_reservation,
}
use astra_feed_engine.Book.PriceLevelStore.Levels.{reduce_checked}
use astra_feed_engine.Book.PriceLevelStore.Additions.{add}
use astra_feed_engine.Book.PriceLevelStore.Removals.{erase}
use astra_feed_engine.Book.OrderBook.{
  BookView, decode_side, decode_stored_side, address_of, reject, finish, state_result, state_of,
}

-- reservePrice, and the commit of a new page with its result, which is applied when none is needed.
unfoldable pub reserve_level : ℕ → BookView → PricePageReservation × MutationResult × BookView
reserve_level raw_price v =
    let (price, prices) = reserve_price v.book.stock_locate raw_price v.prices in
    let (page_commit, committed) = commit_reservation price prices in
    if is_valid_reservation price && price.requires_commit
    then (price, page_commit, record v { prices = committed })
    else (price, MutationResult.applied, record v { prices = prices })

-- Publishes the order of a level that it has joined; if that fails, the order leaves the level again.
unfoldable pub publish_order :
    OrderSlotReservation
    → PricePageReservation
    → OrderSide
    → ℕ
    → ℕ
    → BookView
    → MutationResult × BookView
unfolding add_u64
publish_order slot price side qty timestamp v =
    let (order_commit, orders) = commit slot (state_of qty side price v) v.orders in
    let (rollback, prices) = erase price.address side qty v.prices in
    let b = v.book in
    if not (is_applied order_commit)
    then reject (if is_applied rollback then order_commit else MutationResult.invariant_violation)
        (record v { prices = prices })
    else finish timestamp (record v {
      orders = orders;
      book = record b { live_order_count = add_u64 b.live_order_count 1 };
    })

-- addOrder, from the reservations on.
unfoldable pub add_reserved : ℕ → ℕ → ℕ → OrderSide → ℕ → BookView → MutationResult × BookView
add_reserved order_id price qty side timestamp v =
    let slot = reserve order_id v.orders in
    let (reservation, page_result, paged) = reserve_level (price % 2 ^ 32) v in
    let (level_result, prices) = add reservation.address side qty paged.prices in
    if not (is_applied slot.result)
    then reject slot.result v
    else if not (is_valid_reservation reservation)
    then reject reservation.result paged
    else if not (is_applied page_result)
    then reject page_result paged
    else if not (is_applied level_result)
    then reject level_result paged
    else publish_order slot reservation side qty timestamp (record paged { prices = prices })

unfoldable pub add_order : ℕ → ℕ → ℕ → ℕ → ℕ → BookView → MutationResult × BookView
add_order order_id price qty side timestamp v =
    if v.book.local_invalid
    then (MutationResult.book_invalid, v)
    else if not (is_book_prepared v.book.stock_locate v.prices)
    then reject MutationResult.book_not_prepared v
    else if not (is_valid_side (decode_side side))
    then reject MutationResult.invalid_side v
    else if qty == 0
    then reject MutationResult.invalid_quantity v
    else if not (is_valid_itch_price4 price)
    then reject MutationResult.price_out_of_range v
    else add_reserved order_id price qty (decode_side side) timestamp v

-- The tests on a found order that cancelShares and executeOrder share; applied when they pass.
unfoldable pub live_result : OrderState → BookView → MutationResult
live_result state v =
    if not (state.locate == v.book.stock_locate)
    then MutationResult.locate_mismatch
    else if not (is_valid_side (decode_stored_side state.side))
        || state.qty == 0
        || not (is_valid_address (address_of state))
    then MutationResult.invariant_violation
    else MutationResult.applied

-- The order keeps a part of its shares.
unfoldable pub reduce_order : Place → ℕ → ℕ → BookView → MutationResult × BookView
reduce_order place reduction timestamp v =
    let state = state_at place v.orders in
    let (result, prices) =
      reduce_checked v.book.stock_locate state.price_page_index (address_of state)
        (decode_stored_side state.side) state.qty reduction v.prices in
    if not (is_applied result)
    then reject result (record v { prices = prices })
    else finish timestamp (record v {
      prices = prices;
      orders = write_state place (record state { qty = state.qty - reduction }) v.orders;
    })

-- The order leaves its level and the table.
unfoldable pub remove_order : Place → ℕ → BookView → MutationResult × BookView
unfolding sub_u64
remove_order place timestamp v =
    let state = state_at place v.orders in
    let (level_result, prices) =
      erase (address_of state) (decode_stored_side state.side) state.qty v.prices in
    let (table_result, orders) = erase_place (some place) v.orders in
    let b = v.book in
    if not (is_applied level_result)
    then reject level_result (record v { prices = prices })
    else if not (is_applied table_result)
    then reject MutationResult.invariant_violation (record v { prices = prices; orders = orders })
    else finish timestamp (record v {
      prices = prices;
      orders = orders;
      book = record b { live_order_count = sub_u64 b.live_order_count 1 };
    })

-- What a quantity beyond the order's is rejected with.
abbrev pub exceeded : OrderState → BookView → MutationResult
exceeded state v =
    if not (owns_address v.book.stock_locate state.price_page_index (address_of state) v.prices)
    then MutationResult.invariant_violation
    else MutationResult.quantity_exceeded

unfoldable pub cancel_shares : ℕ → ℕ → ℕ → BookView → MutationResult × BookView
cancel_shares order_id canceled_qty timestamp v =
    if v.book.local_invalid
    then (MutationResult.book_invalid, v)
    else if canceled_qty == 0
    then reject MutationResult.invalid_quantity v
    else elim (find_state order_id v.orders) [
      | none ↦ reject MutationResult.order_not_found v
      | some place ↦
          let state = state_at place v.orders in
          let live = live_result state v in
          if not (is_applied live)
          then reject live v
          else if leb state.qty canceled_qty
          then reject (exceeded state v) v
          else reduce_order place canceled_qty timestamp v
    ]

unfoldable pub delete_order : ℕ → ℕ → BookView → MutationResult × BookView
delete_order order_id timestamp v =
    let found = find_state order_id v.orders in
    let lookup_result = state_result found v in
    if v.book.local_invalid
    then (MutationResult.book_invalid, v)
    else if not (is_applied lookup_result)
    then reject lookup_result v
    else elim found [
      | none ↦ reject MutationResult.order_not_found v
      | some place ↦ remove_order place timestamp v
    ]

unfoldable pub execute_order : ℕ → ℕ → ℕ → BookView → MutationResult × BookView
execute_order order_id executed_qty timestamp v =
    if v.book.local_invalid
    then (MutationResult.book_invalid, v)
    else if executed_qty == 0
    then reject MutationResult.invalid_quantity v
    else elim (find_state order_id v.orders) [
      | none ↦ reject MutationResult.order_not_found v
      | some place ↦
          let state = state_at place v.orders in
          let live = live_result state v in
          if not (is_applied live)
          then reject live v
          else if ltb state.qty executed_qty
          then reject (exceeded state v) v
          else if executed_qty == state.qty
          then if not
              (owns_address v.book.stock_locate state.price_page_index (address_of state) v.prices)
            then reject MutationResult.invariant_violation v
            else remove_order place timestamp v
          else reduce_order place executed_qty timestamp v
    ]
