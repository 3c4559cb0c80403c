-- ===== src/Book/PriceLevelStore/Reads.antt =====
-- src/book/PriceLevelStore.cpp: the levels of a book, from the best one on.
use astra_feed_engine.Prelude.{
  ℕ, zero, suc, ◌%◌, not, ◌||◌, Option, none, some, List, [], ◌∷◌, ◌==◌, ltb, leb, min,
  if◌then◌else◌,
}
use astra_feed_engine.Symbols.{is_valid_stock_locate}
use astra_feed_engine.Book.{OrderSide, is_valid_side}
use astra_feed_engine.Book.PriceLevelStore.{
  PriceLevelStore, invalid_price_page_handle, price_part_count, top_level_count, join_price,
  split_price, page_side_index, book_side_index, page_handle_of, is_book_prepared,
  root_handle_matches,
}
use astra_feed_engine.Book.PriceLevelStore.Levels.{resolve_level}
use astra_feed_engine.Book.PriceLevelStore.Additions.{page_summary, book_summary}
use astra_feed_engine.Book.PriceLevelStore.Deactivation.{next_worse_index}

-- A valid cursor; one that is not valid is none.
pub record PriceLevelCursor : Type 0 where
  pub page_handle : ℕ
  pub raw_price : ℕ
  pub stock_locate : ℕ

-- A valid view; one that is not valid is none.
pub record PriceLevelView : Type 0 where
  pub raw_price : ℕ
  pub total_qty : ℕ
  pub order_count : ℕ

unfoldable pub best : ℕ → OrderSide → PriceLevelStore → Option PriceLevelCursor
best stock_locate side s =
    let book = book_summary stock_locate side s in
    if not (is_book_prepared stock_locate s) || not (is_valid_side side)
    then none
    else if book.active_pages == 0 || book.best_page_handle == invalid_price_page_handle
    then none
    else some (record {
      page_handle = book.best_page_handle;
      raw_price = book.best_raw_price;
      stock_locate = stock_locate;
    })

-- The part of nextWorse on the pages beyond the cursor's page.
unfoldable pub next_worse_page : ℕ → OrderSide → ℕ → PriceLevelStore → Option PriceLevelCursor
next_worse_page stock_locate side page_index s =
    elim (next_worse_index side page_index (s.book_occupancy (book_side_index stock_locate side))) [
      | none ↦ none
      | some next_page_index ↦
          let next_handle = page_handle_of stock_locate (next_page_index % 65536) s in
          let next_page = page_summary next_handle side s in
          if next_handle == invalid_price_page_handle
          then none
          else if next_page.active_levels == 0 || leb price_part_count next_page.best_level_index
          then none
          else some (record {
            page_handle = next_handle;
            raw_price = join_price (next_page_index % 65536) (next_page.best_level_index % 65536);
            stock_locate = stock_locate;
          })
    ]

-- Its part on the cursor's page.
unfoldable pub next_worse_level : OrderSide → PriceLevelCursor → PriceLevelStore → Option ℕ
next_worse_level side current s =
    if ltb 1 (page_summary current.page_handle side s).active_levels
    then next_worse_index side (split_price current.raw_price).level_index
        (s.page_occupancy (page_side_index current.page_handle side))
    else none

unfoldable pub next_worse :
    ℕ → OrderSide → PriceLevelCursor → PriceLevelStore → Option PriceLevelCursor
next_worse stock_locate side current s =
    let parts = split_price current.raw_price in
    if not (current.stock_locate == stock_locate)
      || not (is_book_prepared stock_locate s)
      || not (is_valid_side side)
    then none
    else if not (root_handle_matches stock_locate parts.page_index current.page_handle s)
    then none
    else elim (next_worse_level side current s) [
      | some next_level_index ↦ some (record {
        page_handle = current.page_handle;
        raw_price = join_price parts.page_index (next_level_index % 65536);
        stock_locate = stock_locate;
      })
      | none ↦ next_worse_page stock_locate side parts.page_index s
    ]

unfoldable pub view : PriceLevelCursor → OrderSide → PriceLevelStore → Option PriceLevelView
view cursor side s =
    let parts = split_price cursor.raw_price in
    if not (is_valid_stock_locate cursor.stock_locate)
      || not (root_handle_matches cursor.stock_locate parts.page_index cursor.page_handle s)
    then none
    else elim (resolve_level
        (record { page_handle = cursor.page_handle; level_index = parts.level_index }) side s) [
          | none ↦ none
          | some level ↦
              if level.order_count == 0
              then none
              else some (record {
                raw_price = cursor.raw_price;
                total_qty = level.total_qty;
                order_count = level.order_count;
              })
        ]

-- The loop of topTen, with `room` levels left to fill; the list is what it writes to its output.
unfoldable pub top_loop :
    ℕ → ℕ → OrderSide → Option PriceLevelCursor → PriceLevelStore → List PriceLevelView
top_loop zero stock_locate side cursor s = []
top_loop (suc room) stock_locate side none s = []
top_loop (suc room) stock_locate side (some cursor) s =
    let rest = top_loop room stock_locate side (next_worse stock_locate side cursor s) s in
    elim (view cursor side s) [ none ↦ [] | some level_view ↦ level_view ∷ rest ]

-- topTen on an output of `room` views.
unfoldable pub top_ten : ℕ → OrderSide → ℕ → PriceLevelStore → List PriceLevelView
top_ten stock_locate side room s =
    top_loop (min room top_level_count) stock_locate side (best stock_locate side s) s
