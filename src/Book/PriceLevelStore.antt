-- ===== src/Book/PriceLevelStore.antt =====
-- include/astra/book/PriceLevelStore.hpp and src/book/PriceLevelStore.cpp: the price levels of all
-- books, in pages of 65536 prices that a book receives on demand. This file has the records, the
-- owners of the pages, and the reservation of a page. A mapped array is a function from its indices;
-- what lies beyond its end is never read.
pub mod Levels
pub mod Additions
pub mod Deactivation
pub mod Removals
pub mod Reads
pub mod Ranking
pub mod NextWorse
pub mod Tracking
pub mod Soundness
pub mod Change
pub mod Preservation
pub mod Touch
pub mod Joining
pub mod Adding
pub mod PagePlan
pub mod BookPlan
pub mod BookCases
pub mod NextPage
pub mod Validation
pub mod Removing
pub mod Publishing
pub mod Frames
pub mod Operations
pub mod Moving
pub mod Invariant
pub mod Best
pub mod Ladder
pub mod TopTen
pub mod Depths
pub mod Refinement
pub mod MoveEffect
pub mod Effects
pub mod Step
use astra_feed_engine.Prelude.{
  ℕ, zero, suc, ◌+◌, ◌*◌, ◌/◌, ◌%◌, ◌^◌, ◌-◌, Bool, true, false, not, ◌&&◌, ◌||◌, Option, none,
  some, ◌==◌, ltb, leb, if◌then◌else◌, update, inc_u32, add_u64,
}
use astra_feed_engine.Symbols.{is_valid_stock_locate}
use astra_feed_engine.Bitmap.{PriceBitmapStorage}
use astra_feed_engine.Bitmap
use astra_feed_engine.Book.{MutationResult, OrderSide, is_applied, side_index}

abbrev pub invalid_price_page_handle : ℕ
invalid_price_page_handle = 0

abbrev pub price_part_count : ℕ
price_part_count = 65536

abbrev pub top_level_count : ℕ
top_level_count = 10

pub record PriceParts : Type 0 where
  pub page_index : ℕ
  pub level_index : ℕ

abbrev pub split_price : ℕ → PriceParts
split_price price = record { page_index = price / 65536 % 65536; level_index = price % 65536 }

abbrev pub join_price : ℕ → ℕ → ℕ
join_price page_index level_index = page_index * 65536 + level_index

abbrev pub price_root_index : ℕ → ℕ → ℕ
price_root_index stock_locate page_index = stock_locate * 65536 + page_index

pub record PriceLevelState : Type 0 where
  pub total_qty : ℕ
  pub order_count : ℕ

pub record PricePage : Type 0 where
  pub bids : ℕ → PriceLevelState
  pub asks : ℕ → PriceLevelState

pub record PriceAddress : Type 0 where
  pub page_handle : ℕ
  pub level_index : ℕ

abbrev pub is_valid_address : PriceAddress → Bool
is_valid_address address = not (address.page_handle == invalid_price_page_handle)

pub record PricePageReservation : Type 0 where
  pub result : MutationResult
  pub address : PriceAddress
  pub stock_locate : ℕ
  pub page_index : ℕ
  pub expected_committed_pages : ℕ
  pub requires_commit : Bool

abbrev pub is_valid_reservation : PricePageReservation → Bool
is_valid_reservation r = is_applied r.result && is_valid_address r.address

pub record PriceLevelStoreConfig : Type 0 where
  pub page_capacity : ℕ
  pub prefault : Bool

pub record PageOwner : Type 0 where
  pub stock_locate : ℕ
  pub page_index : ℕ
  pub committed : ℕ

pub record PageSideSummary : Type 0 where
  pub best_level_index : ℕ
  pub active_levels : ℕ

pub record BookSideSummary : Type 0 where
  pub best_raw_price : ℕ
  pub best_page_handle : ℕ
  pub active_pages : ℕ

-- The summaries of a page and of a book are functions of a side's index.
pub record PriceLevelStore : Type 0 where
  pub config : PriceLevelStoreConfig
  pub roots : ℕ → ℕ
  pub prepared_books : ℕ → ℕ
  pub pages : ℕ → PricePage
  pub page_owners : ℕ → PageOwner
  pub page_summaries : ℕ → ℕ → PageSideSummary
  pub page_occupancy : ℕ → PriceBitmapStorage
  pub book_summaries : ℕ → ℕ → BookSideSummary
  pub book_occupancy : ℕ → PriceBitmapStorage
  pub committed_pages : ℕ
  pub prepared_book_count : ℕ
  pub page_capacity_failures : ℕ

abbrev pub empty_level : PriceLevelState
empty_level = record { total_qty = 0; order_count = 0 }

-- The mapped arrays are zero at first.
unfoldable pub blank_store : PriceLevelStoreConfig → PriceLevelStore
blank_store config = record {
  config = config;
  roots = λ _. 0;
  prepared_books = λ _. 0;
  pages = λ _. record { bids = λ _. empty_level; asks = λ _. empty_level };
  page_owners = λ _. record { stock_locate = 0; page_index = 0; committed = 0 };
  page_summaries = λ _ _. record { best_level_index = 0; active_levels = 0 };
  page_occupancy = λ _. Bitmap.clear;
  book_summaries = λ _ _. record { best_raw_price = 0; best_page_handle = 0; active_pages = 0 };
  book_occupancy = λ _. Bitmap.clear;
  committed_pages = 0;
  prepared_book_count = 0;
  page_capacity_failures = 0;
}

-- The constructor; none when validatedConfig throws.
unfoldable pub new_store : PriceLevelStoreConfig → Option PriceLevelStore
new_store config =
    if config.page_capacity == 0 || config.page_capacity == 2 ^ 32 - 1
    then none
    else some (blank_store config)

abbrev pub page_side_index : ℕ → OrderSide → ℕ
page_side_index handle side = handle * 2 + side_index side

abbrev pub book_side_index : ℕ → OrderSide → ℕ
book_side_index stock_locate side = stock_locate * 2 + side_index side

-- owner(handle); none for its null pointer.
abbrev pub owner : ℕ → PriceLevelStore → Option PageOwner
owner handle s =
    if handle == invalid_price_page_handle || ltb s.committed_pages handle
    then none
    else some (s.page_owners handle)

-- Is the owner of a page there, with this locate and page index?
unfoldable pub root_handle_matches : ℕ → ℕ → ℕ → PriceLevelStore → Bool
root_handle_matches stock_locate page_index handle s = elim (owner handle s) [
  | none ↦ false
  | some o ↦ not (o.committed == 0) && o.stock_locate == stock_locate && o.page_index == page_index
]

unfoldable pub prepare_book : ℕ → PriceLevelStore → MutationResult × PriceLevelStore
unfolding inc_u32
prepare_book stock_locate s =
    if not (is_valid_stock_locate stock_locate)
    then (MutationResult.invalid_locate, s)
    else if s.prepared_books stock_locate == 0
    then (
      MutationResult.applied,
      record s {
        prepared_books = update s.prepared_books stock_locate 1;
        prepared_book_count = inc_u32 s.prepared_book_count;
      },
    )
    else (MutationResult.applied, s)

unfoldable pub is_book_prepared : ℕ → PriceLevelStore → Bool
is_book_prepared stock_locate s =
    is_valid_stock_locate stock_locate && not (s.prepared_books stock_locate == 0)

unfoldable pub page_handle_of : ℕ → ℕ → PriceLevelStore → ℕ
page_handle_of stock_locate page_index s =
    let handle = s.roots (price_root_index stock_locate page_index) in
    if not (is_valid_stock_locate stock_locate)
    then invalid_price_page_handle
    else if root_handle_matches stock_locate page_index handle s
    then handle
    else invalid_price_page_handle

unfoldable pub owns_address : ℕ → ℕ → PriceAddress → PriceLevelStore → Bool
owns_address stock_locate page_index address s =
    is_valid_stock_locate stock_locate
    && root_handle_matches stock_locate page_index address.page_handle s

-- PricePageReservation{} with a result.
abbrev pub no_reservation : MutationResult → PricePageReservation
no_reservation result = record {
  result = result;
  address = record { page_handle = invalid_price_page_handle; level_index = 0 };
  stock_locate = 0;
  page_index = 0;
  expected_committed_pages = 0;
  requires_commit = false;
}

-- A reservation whose fields, but for the last three, come from the price and the store.
abbrev pub reservation_of :
    ℕ → ℕ → MutationResult → ℕ → Bool → PriceLevelStore → PricePageReservation
reservation_of stock_locate raw_price result handle requires_commit s = record {
  result = result;
  address = record { page_handle = handle; level_index = (split_price raw_price).level_index };
  stock_locate = stock_locate;
  page_index = (split_price raw_price).page_index;
  expected_committed_pages = s.committed_pages;
  requires_commit = requires_commit;
}

-- A const method, but for the counter of failures.
unfoldable pub reserve_price : ℕ → ℕ → PriceLevelStore → PricePageReservation × PriceLevelStore
unfolding add_u64
reserve_price stock_locate raw_price s =
    let page_index = (split_price raw_price).page_index in
    let existing = s.roots (price_root_index stock_locate page_index) in
    let reservation = λ (result : MutationResult) (handle : ℕ) (requires_commit : Bool).
      reservation_of stock_locate raw_price result handle requires_commit s in
    if not (is_valid_stock_locate stock_locate)
    then (no_reservation MutationResult.invalid_locate, s)
    else if not (is_book_prepared stock_locate s)
    then (no_reservation MutationResult.book_not_prepared, s)
    else if not (existing == invalid_price_page_handle)
    then if not (root_handle_matches stock_locate page_index existing s)
      then (reservation MutationResult.invariant_violation 0 false, s)
      else (reservation MutationResult.applied existing false, s)
    else if leb s.config.page_capacity s.committed_pages
    then (
      reservation MutationResult.price_page_capacity_exceeded 0 false,
      record s { page_capacity_failures = add_u64 s.page_capacity_failures 1 },
    )
    else (reservation MutationResult.applied ((s.committed_pages + 1) % 2 ^ 32) true, s)

-- Publishes the owner of a new page, and then its root.
abbrev pub publish_page : PricePageReservation → PriceLevelStore → PriceLevelStore
publish_page r s = record s {
  page_owners =
      update s.page_owners r.address.page_handle
        (record { stock_locate = r.stock_locate; page_index = r.page_index; committed = 1 });
  committed_pages = r.address.page_handle;
  roots = update s.roots (price_root_index r.stock_locate r.page_index) r.address.page_handle;
}

unfoldable pub commit_reservation :
    PricePageReservation → PriceLevelStore → MutationResult × PriceLevelStore
commit_reservation r s =
    let root = s.roots (price_root_index r.stock_locate r.page_index) in
    if not (is_applied r.result)
    then (r.result, s)
    else if not (is_valid_address r.address)
    then (MutationResult.invalid_price_page, s)
    else if not (is_valid_stock_locate r.stock_locate)
    then (MutationResult.invalid_locate, s)
    else if not (is_book_prepared r.stock_locate s)
    then (MutationResult.book_not_prepared, s)
    else if not r.requires_commit
    then if root == r.address.page_handle
      then (MutationResult.applied, s)
      else (MutationResult.stale_reservation, s)
    else if not (root == invalid_price_page_handle)
        || not (s.committed_pages == r.expected_committed_pages)
        || not (r.address.page_handle == (s.committed_pages + 1) % 2 ^ 32)
        || ltb s.config.page_capacity r.address.page_handle
    then (MutationResult.stale_reservation, s)
    else if not ((s.page_owners r.address.page_handle).committed == 0)
    then (MutationResult.invariant_violation, s)
    else (MutationResult.applied, publish_page r s)
