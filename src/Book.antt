-- ===== src/Book.antt =====
-- include/astra/book/: the results of the books' operations, the table of the day's orders, the price
-- levels, the books, and their manager; include/astra/protocol/OrderSide.hpp.
pub mod OrderTable
pub mod PriceLevelStore
pub mod OrderBook
pub mod BookManager
use astra_feed_engine.Prelude.{ℕ, ◌==◌, Bool, true, false, if◌then◌else◌}

pub data MutationResult : Type 0 where
  applied invalid_locate book_not_prepared invalid_side invalid_quantity : MutationResult
  price_out_of_range order_not_found duplicate_order_ref locate_mismatch : MutationResult
  quantity_exceeded price_page_capacity_exceeded order_table_capacity_exceeded : MutationResult
  quantity_overflow quantity_underflow order_count_overflow invalid_price_page : MutationResult
  missing_price_level stale_reservation invariant_violation book_invalid : MutationResult

pub data LookupPath : Type 0 where
  no_path direct_path fallback_primary fallback_secondary miss : LookupPath

abbrev pub is_applied : MutationResult → Bool
is_applied MutationResult.applied = true
is_applied _ = false

-- OrderSide; no_side is static_cast<OrderSide>(0).
pub data OrderSide : Type 0 where
  no_side buy sell : OrderSide

-- static_cast<std::uint8_t>(side)
abbrev pub side_code : OrderSide → ℕ
side_code no_side = 0
side_code buy = 1
side_code sell = 2

abbrev pub is_valid_side : OrderSide → Bool
is_valid_side no_side = false
is_valid_side _ = true

abbrev pub side_index : OrderSide → ℕ
side_index buy = 0
side_index _ = 1
