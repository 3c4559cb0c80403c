-- ===== src/Book/OrderBook.antt =====
-- src/book/OrderBook.cpp and include/astra/book/OrderBook.hpp: a view of one stock locate over the
-- order table and the price levels that all books share. This file has its state and its helpers. The
-- two pointers to the stores are never null, as both constructors set them.
pub mod Orders
pub mod Replacement
pub mod Depth
pub mod Shown
pub mod Ledger
pub mod Booked
pub mod Changes
pub mod Accepts
pub mod Counts
pub mod Counting
pub mod Balance
pub mod Keeping
pub mod KeepingAdded
pub mod KeepingMoved
pub mod RolledBack
pub mod KeepingReplaced
pub mod Marking
pub mod Levelled
use astra_feed_engine.Prelude.{
  ℕ, ◌+◌, ◌%◌, ◌^◌, Bool, true, false, not, ◌&&◌, ◌||◌, Option, none, some, ◌==◌, ltb, leb,
  if◌then◌else◌, add_u64,
}
use astra_feed_engine.Book.{MutationResult, OrderSide, is_applied, side_code, is_valid_side}
use astra_feed_engine.Book.OrderTable.{OrderState, OrderTable, Place}
use astra_feed_engine.Book.OrderTable.States.{state_at}
use astra_feed_engine.Book.PriceLevelStore.{
  PriceAddress, PriceLevelStore, PricePageReservation, invalid_price_page_handle, is_book_prepared,
  owns_address,
}

pub record OrderBook : Type 0 where
  pub symbol_id : ℕ
  pub stock_locate : ℕ
  pub local_invalid : Bool
  pub order_capacity : ℕ
  pub live_order_count : ℕ
  pub allocation_failures : ℕ
  pub latest_update_timestamp : ℕ

-- A book with the stores that its pointers name.
pub record BookView : Type 0 where
  pub orders : OrderTable
  pub prices : PriceLevelStore
  pub book : OrderBook

-- The constructor of a managed book.
unfoldable pub new_book : ℕ → ℕ → PriceLevelStore → OrderBook
new_book stock_locate reported_capacity prices = record {
  symbol_id = stock_locate;
  stock_locate = stock_locate;
  local_invalid = not (is_book_prepared stock_locate prices);
  order_capacity = reported_capacity;
  live_order_count = 0;
  allocation_failures = 0;
  latest_update_timestamp = 0;
}

-- decodeSide of a character of the wire, and of a stored side.
unfoldable pub decode_side : ℕ → OrderSide
decode_side side =
    if side == b'B'
    then OrderSide.buy
    else if side == b'S'
    then OrderSide.sell
    else OrderSide.no_side

unfoldable pub decode_stored_side : ℕ → OrderSide
decode_stored_side side =
    if side == 1 then OrderSide.buy else if side == 2 then OrderSide.sell else OrderSide.no_side

abbrev pub address_of : OrderState → PriceAddress
address_of state = record {
  page_handle = state.price_page_handle;
  level_index = state.price_level_index;
}

-- The results that reject counts as failed allocations, and those that invalidate the book.
abbrev pub is_allocation_failure : MutationResult → Bool
is_allocation_failure MutationResult.order_table_capacity_exceeded = true
is_allocation_failure MutationResult.price_page_capacity_exceeded = true
is_allocation_failure _ = false

abbrev pub is_invalidating : MutationResult → Bool
is_invalidating MutationResult.quantity_overflow = true
is_invalidating MutationResult.quantity_underflow = true
is_invalidating MutationResult.invalid_price_page = true
is_invalidating MutationResult.missing_price_level = true
is_invalidating MutationResult.stale_reservation = true
is_invalidating MutationResult.invariant_violation = true
is_invalidating MutationResult.book_invalid = true
is_invalidating _ = false

unfoldable pub rejected : MutationResult → OrderBook → OrderBook
unfolding add_u64
rejected result b = record b {
  allocation_failures =
      if is_allocation_failure result
      then add_u64 b.allocation_failures 1
      else b.allocation_failures;
  local_invalid = is_invalidating result || b.local_invalid;
}

-- return reject(result)
unfoldable pub reject : MutationResult → BookView → MutationResult × BookView
reject result v = (result, record v { book = rejected result v.book })

-- The end of an operation that was applied.
abbrev pub finish : ℕ → BookView → MutationResult × BookView
finish timestamp v = (
  MutationResult.applied,
  record v { book = record v.book { latest_update_timestamp = timestamp } },
)

-- validateState, of a place or the null pointer; applied when it rejects nothing.
unfoldable pub state_result : Option Place → BookView → MutationResult
state_result none v = MutationResult.order_not_found
state_result (some place) v =
    let state = state_at place v.orders in
    if not (state.locate == v.book.stock_locate)
    then MutationResult.locate_mismatch
    else if not (is_valid_side (decode_stored_side state.side))
        || state.qty == 0
        || state.price_page_handle == invalid_price_page_handle
    then MutationResult.invariant_violation
    else if not
        (owns_address v.book.stock_locate state.price_page_index (address_of state) v.prices)
    then MutationResult.invariant_violation
    else MutationResult.applied

-- The state of an order that addOrder and replaceOrder build.
abbrev pub state_of : ℕ → OrderSide → PricePageReservation → BookView → OrderState
state_of qty side price v = record {
  qty = qty;
  price_page_handle = price.address.page_handle;
  price_level_index = price.address.level_index;
  locate = v.book.stock_locate;
  side = side_code side;
  flags = 0;
  price_page_index = price.page_index;
}
