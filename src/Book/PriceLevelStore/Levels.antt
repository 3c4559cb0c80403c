-- ===== src/Book/PriceLevelStore/Levels.antt =====
-- src/book/PriceLevelStore.cpp: one price level, read and written at its address, and its partial
-- reduction.
use astra_feed_engine.Prelude.{
  ℕ, ◌-◌, not, ◌&&◌, ◌||◌, Option, none, some, ◌==◌, ltb, leb, if◌then◌else◌, update,
}
use astra_feed_engine.Symbols.{is_valid_stock_locate}
use astra_feed_engine.Book.{MutationResult, OrderSide, is_applied, is_valid_side}
use astra_feed_engine.Book.PriceLevelStore.{
  PriceLevelState, PricePage, PriceAddress, PriceLevelStore, is_valid_address,
}

abbrev pub side_levels : OrderSide → PricePage → ℕ → PriceLevelState
side_levels OrderSide.buy page = page.bids
side_levels _ page = page.asks

abbrev pub with_side_levels : OrderSide → (ℕ → PriceLevelState) → PricePage → PricePage
with_side_levels OrderSide.buy levels page = record page { bids = levels }
with_side_levels _ levels page = record page { asks = levels }

-- *levelUnchecked(address, side), read.
unfoldable pub level_unchecked : PriceAddress → OrderSide → PriceLevelStore → PriceLevelState
level_unchecked address side s =
    side_levels side (s.pages (address.page_handle - 1)) address.level_index

-- *levelUnchecked(address, side), written.
unfoldable pub write_level :
    PriceAddress → OrderSide → PriceLevelState → PriceLevelStore → PriceLevelStore
write_level address side level s =
    let page = s.pages (address.page_handle - 1) in
    record s {
      pages =
          update s.pages (address.page_handle - 1)
            (with_side_levels side (update (side_levels side page) address.level_index level) page);
    }

unfoldable pub validate_address : PriceAddress → OrderSide → PriceLevelStore → MutationResult
validate_address address side s =
    if not (is_valid_side side)
    then MutationResult.invalid_side
    else if not (is_valid_address address) || ltb s.committed_pages address.page_handle
    then MutationResult.invalid_price_page
    else MutationResult.applied

unfoldable pub resolve_level : PriceAddress → OrderSide → PriceLevelStore → Option PriceLevelState
resolve_level address side s =
    if not (is_applied (validate_address address side s))
    then none
    else some (level_unchecked address side s)

-- The tests that reduce and reduceChecked make after those of the address and the owner.
unfoldable pub validate_reduction : PriceLevelState → ℕ → ℕ → MutationResult
validate_reduction level current_order_qty reduction_qty =
    if current_order_qty == 0 || reduction_qty == 0
    then MutationResult.invalid_quantity
    else if leb current_order_qty reduction_qty
    then MutationResult.quantity_underflow
    else if level.order_count == 0 || level.total_qty == 0
    then MutationResult.missing_price_level
    else if ltb level.total_qty current_order_qty
    then MutationResult.quantity_underflow
    else if level.order_count == 1 && not (level.total_qty == current_order_qty)
    then MutationResult.invariant_violation
    else if ltb 1 level.order_count && level.total_qty == current_order_qty
    then MutationResult.invariant_violation
    else if leb level.total_qty reduction_qty
    then MutationResult.quantity_underflow
    else MutationResult.applied

unfoldable pub reduce :
    PriceAddress → OrderSide → ℕ → ℕ → PriceLevelStore → MutationResult × PriceLevelStore
reduce address side current_order_qty reduction_qty s =
    let address_result = validate_address address side s in
    let level = level_unchecked address side s in
    let result = validate_reduction level current_order_qty reduction_qty in
    if not (is_applied address_result)
    then (address_result, s)
    else if not (is_applied result)
    then (result, s)
    else (
      MutationResult.applied,
      write_level address side (record level { total_qty = level.total_qty - reduction_qty }) s,
    )

unfoldable pub reduce_checked :
    ℕ → ℕ → PriceAddress → OrderSide → ℕ → ℕ → PriceLevelStore → MutationResult × PriceLevelStore
reduce_checked expected_stock_locate expected_page_index address side current_order_qty
      reduction_qty s =
    let address_result = validate_address address side s in
    let o = s.page_owners address.page_handle in
    let level = level_unchecked address side s in
    let result = validate_reduction level current_order_qty reduction_qty in
    if not (is_valid_stock_locate expected_stock_locate)
    then (MutationResult.invalid_locate, s)
    else if not (is_applied address_result)
    then (address_result, s)
    else if o.committed == 0
        || not (o.stock_locate == expected_stock_locate)
        || not (o.page_index == expected_page_index)
    then (MutationResult.invariant_violation, s)
    else if not (is_applied result)
    then (result, s)
    else (
      MutationResult.applied,
      write_level address side (record level { total_qty = level.total_qty - reduction_qty }) s,
    )
