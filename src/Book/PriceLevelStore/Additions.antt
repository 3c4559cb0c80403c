-- ===== src/Book/PriceLevelStore/Additions.antt =====
-- src/book/PriceLevelStore.cpp: an order joins a level.
use astra_feed_engine.Prelude.{
  ℕ, ◌-◌, ◌^◌, Bool, not, ◌&&◌, ◌||◌, none, some, ◌==◌, ltb, leb, if◌then◌else◌, update, inc_u32,
  add_u64,
}
use astra_feed_engine.Symbols.{is_valid_stock_locate}
use astra_feed_engine.Bitmap.{PriceBitmapStorage}
use astra_feed_engine.Bitmap
use astra_feed_engine.Book.{MutationResult, OrderSide, is_applied, side_index}
use astra_feed_engine.Book.PriceLevelStore.{
  PriceAddress, PageOwner, PageSideSummary, BookSideSummary, PriceLevelStore,
  invalid_price_page_handle, price_part_count, join_price, owner, page_side_index, book_side_index,
}
use astra_feed_engine.Book.PriceLevelStore.Levels.{level_unchecked, write_level, validate_address}

abbrev pub better : OrderSide → ℕ → ℕ → Bool
better OrderSide.buy lhs rhs = ltb rhs lhs
better _ lhs rhs = ltb lhs rhs

abbrev pub page_summary : ℕ → OrderSide → PriceLevelStore → PageSideSummary
page_summary handle side s = s.page_summaries handle (side_index side)

abbrev pub book_summary : ℕ → OrderSide → PriceLevelStore → BookSideSummary
book_summary stock_locate side s = s.book_summaries stock_locate (side_index side)

-- Writes the summary and the bitmap of one side of a page, and of one side of a book.
abbrev pub write_page_side :
    ℕ → OrderSide → PageSideSummary → PriceBitmapStorage → PriceLevelStore → PriceLevelStore
write_page_side handle side summary bitmap s = record s {
  page_summaries =
      update s.page_summaries handle (update (s.page_summaries handle) (side_index side) summary);
  page_occupancy = update s.page_occupancy (page_side_index handle side) bitmap;
}

abbrev pub write_book_side :
    ℕ → OrderSide → BookSideSummary → PriceBitmapStorage → PriceLevelStore → PriceLevelStore
write_book_side stock_locate side summary bitmap s = record s {
  book_summaries =
      update s.book_summaries stock_locate
        (update (s.book_summaries stock_locate) (side_index side) summary);
  book_occupancy = update s.book_occupancy (book_side_index stock_locate side) bitmap;
}

unfoldable pub validate_activation : PriceAddress → OrderSide → PriceLevelStore → MutationResult
validate_activation address side s = elim (owner address.page_handle s) [
  | none ↦ MutationResult.invariant_violation
  | some o ↦
      let page = page_summary address.page_handle side s in
      let book = book_summary o.stock_locate side s in
      if o.committed == 0 || not (is_valid_stock_locate o.stock_locate)
      then MutationResult.invariant_violation
      else if leb price_part_count page.active_levels
          || (not (page.active_levels == 0) && leb price_part_count page.best_level_index)
          || (page.active_levels == 0 && leb price_part_count book.active_pages)
      then MutationResult.invariant_violation
      else MutationResult.applied
]

unfoldable pub validate_add : PriceAddress → OrderSide → ℕ → PriceLevelStore → MutationResult
validate_add address side qty s =
    let address_result = validate_address address side s in
    let level = level_unchecked address side s in
    if not (is_applied address_result)
    then address_result
    else if qty == 0
    then MutationResult.invalid_quantity
    else if level.order_count == 2 ^ 32 - 1
    then MutationResult.order_count_overflow
    else if ltb (2 ^ 64 - 1 - qty) level.total_qty
    then MutationResult.quantity_overflow
    else if not (level.order_count == 0) && level.total_qty == 0
        || level.order_count == 0 && not (level.total_qty == 0)
    then MutationResult.invariant_violation
    else if level.order_count == 0
    then validate_activation address side s
    else MutationResult.applied

-- The bitmap of a page that had `active` levels, after one more joins: a single level has no bit.
abbrev pub marked : ℕ → ℕ → ℕ → PriceBitmapStorage → PriceBitmapStorage
marked active best i bitmap =
    if active == 1
    then Bitmap.set i (Bitmap.set best bitmap)
    else if ltb 1 active
    then Bitmap.set i bitmap
    else bitmap

-- The part of activateLevel about the page.
unfoldable pub activate_in_page : PriceAddress → OrderSide → PriceLevelStore → PriceLevelStore
unfolding inc_u32
activate_in_page address side s =
    let handle = address.page_handle in
    let i = address.level_index in
    let page = page_summary handle side s in
    write_page_side handle side
      (record {
        active_levels = inc_u32 page.active_levels;
        best_level_index =
            if page.active_levels == 0 || better side i page.best_level_index
            then i
            else page.best_level_index;
      })
      (marked page.active_levels page.best_level_index i
        (s.page_occupancy (page_side_index handle side)))
      s

-- And about the book.
unfoldable pub activate_in_book :
    PageOwner → Bool → PriceAddress → OrderSide → PriceLevelStore → PriceLevelStore
unfolding inc_u32
activate_in_book o page_was_empty address side s =
    let book = book_summary o.stock_locate side s in
    let bitmap = s.book_occupancy (book_side_index o.stock_locate side) in
    let raw_price = join_price o.page_index address.level_index in
    let is_best =
      book.active_pages == 0
      || book.best_page_handle == invalid_price_page_handle
      || better side raw_price book.best_raw_price in
    write_book_side o.stock_locate side
      (record {
        active_pages = if page_was_empty then inc_u32 book.active_pages else book.active_pages;
        best_raw_price = if is_best then raw_price else book.best_raw_price;
        best_page_handle = if is_best then address.page_handle else book.best_page_handle;
      })
      (if page_was_empty then Bitmap.set o.page_index bitmap else bitmap) s

unfoldable pub activate_level : PriceAddress → OrderSide → PriceLevelStore → PriceLevelStore
activate_level address side s =
    activate_in_book (s.page_owners address.page_handle)
      ((page_summary address.page_handle side s).active_levels == 0) address side
      (activate_in_page address side s)

unfoldable pub add_validated : PriceAddress → OrderSide → ℕ → PriceLevelStore → PriceLevelStore
unfolding inc_u32 add_u64
add_validated address side qty s =
    let level = level_unchecked address side s in
    write_level address side
      (record { total_qty = add_u64 level.total_qty qty; order_count = inc_u32 level.order_count })
      (if level.order_count == 0 then activate_level address side s else s)

unfoldable pub add :
    PriceAddress → OrderSide → ℕ → PriceLevelStore → MutationResult × PriceLevelStore
add address side qty s =
    let validation = validate_add address side qty s in
    if not (is_applied validation)
    then (validation, s)
    else (MutationResult.applied, add_validated address side qty s)
