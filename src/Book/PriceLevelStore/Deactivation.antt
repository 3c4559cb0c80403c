-- ===== src/Book/PriceLevelStore/Deactivation.antt =====
-- src/book/PriceLevelStore.cpp: the last order of a level leaves. The plan of what changes is made,
-- with every test, before anything is written.
use astra_feed_engine.Prelude.{
  ℕ, ◌+◌, ◌-◌, ◌%◌, Bool, true, false, not, ◌&&◌, ◌||◌, Option, none, some, ◌==◌, ltb, leb,
  if◌then◌else◌, dec_u32,
}
use astra_feed_engine.Symbols.{is_valid_stock_locate}
use astra_feed_engine.Bitmap.{PriceBitmapStorage, find_highest_at_or_below, find_lowest_at_or_above}
use astra_feed_engine.Bitmap
use astra_feed_engine.Book.{MutationResult, OrderSide, is_applied}
use astra_feed_engine.Book.PriceLevelStore.{
  PriceLevelState, PriceAddress, PageOwner, PageSideSummary, BookSideSummary, PriceLevelStore,
  invalid_price_page_handle, price_part_count, join_price, split_price, owner, page_side_index,
  book_side_index, page_handle_of,
}
use astra_feed_engine.Book.PriceLevelStore.Levels.{level_unchecked}
use astra_feed_engine.Book.PriceLevelStore.Additions.{
  page_summary, book_summary, write_page_side, write_book_side,
}

-- next_level_index is none for PriceBitmap::kInvalid.
pub record DeactivationPlan : Type 0 where
  pub next_level_index : Option ℕ
  pub next_book_raw_price : ℕ
  pub next_book_page_handle : ℕ
  pub page_becomes_empty : Bool
  pub page_best_changes : Bool
  pub book_best_changes : Bool

-- DeactivationPlan{}
abbrev pub no_plan : DeactivationPlan
no_plan = record {
  next_level_index = none;
  next_book_raw_price = 0;
  next_book_page_handle = invalid_price_page_handle;
  page_becomes_empty = false;
  page_best_changes = false;
  book_best_changes = false;
}

-- The search beyond an index of 16 bits, to worse prices: below it for bids, above it for asks.
unfoldable pub next_worse_index : OrderSide → ℕ → PriceBitmapStorage → Option ℕ
next_worse_index OrderSide.buy index bitmap =
    if index == 0 then none else find_highest_at_or_below (index - 1) bitmap
next_worse_index _ index bitmap =
    if index == 65535 then none else find_lowest_at_or_above (index + 1) bitmap

abbrev pub is_empty_level : PriceLevelState → Bool
is_empty_level level = level.order_count == 0 || level.total_qty == 0

-- The first tests of validateDeactivation, on the two summaries and the bitmap of the book: do they
-- fail?
unfoldable pub is_broken_summary :
    PageOwner → PageSideSummary → BookSideSummary → PriceBitmapStorage → Bool
is_broken_summary o page book book_bitmap =
    page.active_levels == 0
    || ltb price_part_count page.active_levels
    || leb price_part_count page.best_level_index
    || book.active_pages == 0
    || ltb price_part_count book.active_pages
    || book.best_page_handle == invalid_price_page_handle
    || not (Bitmap.test o.page_index book_bitmap)

-- Its tests on the cached best level of the book: do they fail?
unfoldable pub is_broken_best : PageOwner → BookSideSummary → OrderSide → PriceLevelStore → Bool
is_broken_best o book side s =
    let cached_best = split_price book.best_raw_price in
    let cached_page = page_summary book.best_page_handle side s in
    let cached_level =
      level_unchecked
        (record { page_handle = book.best_page_handle; level_index = cached_best.level_index }) side
        s in
    elim (owner book.best_page_handle s) [
      | none ↦ true
      | some cached_owner ↦
          cached_owner.committed == 0
          || not (cached_owner.stock_locate == o.stock_locate)
          || not (cached_owner.page_index == cached_best.page_index)
          || cached_page.active_levels == 0
          || not (cached_page.best_level_index == cached_best.level_index)
          || is_empty_level cached_level
    ]

abbrev pub planned : DeactivationPlan → MutationResult × DeactivationPlan
planned plan = (MutationResult.applied, plan)

abbrev pub violated : DeactivationPlan → MutationResult × DeactivationPlan
violated plan = (MutationResult.invariant_violation, plan)

-- The part of the plan about the page: `if (levels_before == 1) … else …`.
unfoldable pub plan_page :
    PriceAddress → OrderSide → PageSideSummary → PriceLevelStore → MutationResult × DeactivationPlan
plan_page address side page s =
    let removed_is_page_best = page.best_level_index == address.level_index in
    let bitmap = s.page_occupancy (page_side_index address.page_handle side) in
    if page.active_levels == 1
    then if not removed_is_page_best
      then violated no_plan
      else planned (record no_plan { page_becomes_empty = true })
    else if Bitmap.empty bitmap
        || not (Bitmap.test address.level_index bitmap)
        || not (Bitmap.test page.best_level_index bitmap)
    then violated no_plan
    else if not removed_is_page_best
    then planned no_plan
    else elim (next_worse_index side address.level_index bitmap) [
      | none ↦ violated no_plan
      | some next ↦
          let plan = record no_plan { next_level_index = some next } in
          if is_empty_level (
            level_unchecked
              (record { page_handle = address.page_handle; level_index = next % 65536 }) side s)
          then violated plan
          else planned (record plan { page_best_changes = true })
    ]

-- The next best page of a book whose best page becomes empty.
unfoldable pub plan_next_page :
    PageOwner
    → OrderSide
    → BookSideSummary
    → DeactivationPlan
    → PriceLevelStore
    → MutationResult × DeactivationPlan
plan_next_page o side book plan s =
    elim (next_worse_index side o.page_index
      (s.book_occupancy (book_side_index o.stock_locate side))) [
        | none ↦ if book.active_pages == 1 then planned plan else violated plan
        | some next_page_index ↦
            let next_handle = page_handle_of o.stock_locate (next_page_index % 65536) s in
            let next_page = page_summary next_handle side s in
            if book.active_pages == 1
            then violated plan
            else if next_handle == invalid_price_page_handle
                || next_page.active_levels == 0
                || leb price_part_count next_page.best_level_index
                || is_empty_level (
                    level_unchecked
                      (record {
                        page_handle = next_handle;
                        level_index = next_page.best_level_index % 65536;
                      })
                      side s)
            then violated plan
            else planned (record plan {
              next_book_raw_price =
                  join_price (next_page_index % 65536) (next_page.best_level_index % 65536);
              next_book_page_handle = next_handle;
            })
      ]

abbrev pub index_or_zero : Option ℕ → ℕ
index_or_zero none = 0
index_or_zero (some i) = i

-- The part of the plan about the book, from `removed_is_book_best` on.
unfoldable pub plan_book :
    PriceAddress
    → PageOwner
    → OrderSide
    → Bool
    → BookSideSummary
    → DeactivationPlan
    → PriceLevelStore
    → MutationResult × DeactivationPlan
plan_book address o side removed_is_page_best book plan s =
    let changed = record plan { book_best_changes = true } in
    if book.best_raw_price == join_price o.page_index address.level_index
    then if not (book.best_page_handle == address.page_handle) || not removed_is_page_best
      then violated plan
      else if plan.page_becomes_empty
      then plan_next_page o side book changed s
      else if not plan.page_best_changes
      then violated changed
      else planned (record changed {
        next_book_raw_price = join_price o.page_index (index_or_zero plan.next_level_index % 65536);
        next_book_page_handle = address.page_handle;
      })
    else if plan.page_becomes_empty && book.active_pages == 1
    then violated plan
    else planned plan

unfoldable pub validate_deactivation :
    PriceAddress → OrderSide → PriceLevelStore → MutationResult × DeactivationPlan
validate_deactivation address side s = elim (owner address.page_handle s) [
  | none ↦ violated no_plan
  | some o ↦
      let page = page_summary address.page_handle side s in
      let book = book_summary o.stock_locate side s in
      let book_bitmap = s.book_occupancy (book_side_index o.stock_locate side) in
      let (result, plan) = plan_page address side page s in
      if o.committed == 0 || not (is_valid_stock_locate o.stock_locate)
      then violated no_plan
      else if is_broken_summary o page book book_bitmap || is_broken_best o book side s
      then violated no_plan
      else if not (is_applied result)
      then (result, plan)
      else plan_book address o side (page.best_level_index == address.level_index) book plan s
]

-- The bitmap of a page that keeps `left` levels, after a level leaves.
abbrev pub unmarked : ℕ → ℕ → ℕ → PriceBitmapStorage → PriceBitmapStorage
unmarked left best i bitmap =
    if left == 1 then Bitmap.reset best (Bitmap.reset i bitmap) else Bitmap.reset i bitmap

-- The part of deactivateLevel about the page, when it keeps other levels.
unfoldable pub deactivate_in_page :
    PriceAddress → OrderSide → DeactivationPlan → PriceLevelStore → PriceLevelStore
unfolding dec_u32
deactivate_in_page address side plan s =
    let handle = address.page_handle in
    let page = page_summary handle side s in
    let active = dec_u32 page.active_levels in
    let best =
      if plan.page_best_changes
      then index_or_zero plan.next_level_index
      else page.best_level_index in
    write_page_side handle side (record { active_levels = active; best_level_index = best })
      (unmarked active best address.level_index (s.page_occupancy (page_side_index handle side))) s

-- And when it becomes empty.
unfoldable pub empty_page : PriceAddress → OrderSide → PriceLevelStore → PriceLevelStore
empty_page address side s =
    let handle = address.page_handle in
    write_page_side handle side (record { active_levels = 0; best_level_index = 0 })
      (s.page_occupancy (page_side_index handle side)) s

-- The part about the book.
unfoldable pub deactivate_in_book :
    PageOwner → OrderSide → DeactivationPlan → PriceLevelStore → PriceLevelStore
unfolding dec_u32
deactivate_in_book o side plan s =
    let book = book_summary o.stock_locate side s in
    let bitmap = s.book_occupancy (book_side_index o.stock_locate side) in
    write_book_side o.stock_locate side
      (record {
        active_pages =
            if plan.page_becomes_empty then dec_u32 book.active_pages else book.active_pages;
        best_raw_price =
            if plan.book_best_changes then plan.next_book_raw_price else book.best_raw_price;
        best_page_handle =
            if plan.book_best_changes then plan.next_book_page_handle else book.best_page_handle;
      })
      (if plan.page_becomes_empty then Bitmap.reset o.page_index bitmap else bitmap) s

unfoldable pub deactivate_level :
    PriceAddress → OrderSide → DeactivationPlan → PriceLevelStore → PriceLevelStore
deactivate_level address side plan s =
    deactivate_in_book (s.page_owners address.page_handle) side plan (
      if plan.page_becomes_empty
      then empty_page address side s
      else deactivate_in_page address side plan s)
