-- ===== src/Book/BookManager.antt =====
-- src/book/BookManager.cpp and include/astra/book/BookManager.hpp: the books of all stock locates over
-- one order table and one arena of price levels.
pub mod Audit
pub mod OneBook
pub mod Capacity
pub mod Footprint
pub mod Requests
pub mod Day
pub mod Opening
pub mod Agreement
pub mod Answers
use astra_feed_engine.Prelude.{
  ℕ, zero, suc, ◌+◌, ◌*◌, ◌-◌, ◌%◌, ◌^◌, Bool, true, false, not, ◌&&◌, Option, none, some, ◌==◌,
  ltb, if◌then◌else◌, update, add_u64,
}
use astra_feed_engine.Symbols.{is_valid_stock_locate}
use astra_feed_engine.Book.{MutationResult, is_applied}
use astra_feed_engine.Book.OrderTable.{OrderTable, new_table}
use astra_feed_engine.Book.PriceLevelStore.{
  PriceLevelStore, PriceLevelStoreConfig, new_store, prepare_book,
}
use astra_feed_engine.Book.OrderBook.{OrderBook, BookView, new_book}
use astra_feed_engine.Book.OrderBook.Orders
use astra_feed_engine.Book.OrderBook.Replacement
use astra_feed_engine.Parser.State.{Books}

pub record OrderTableConfig : Type 0 where
  pub direct_slots : ℕ
  pub fallback_bucket_count : ℕ

pub record BookManagerConfig : Type 0 where
  pub orders : OrderTableConfig
  pub prices : PriceLevelStoreConfig

abbrev pub max_stock_locate : ℕ
max_stock_locate = 65536

pub record BookManager : Type 0 where
  pub config : BookManagerConfig
  pub orders : OrderTable
  pub prices : PriceLevelStore
  pub books : ℕ → Option OrderBook

-- The constructor; none when a store's constructor throws. The footprint of the storage is in Capacity.
unfoldable pub new_manager : BookManagerConfig → Option BookManager
new_manager config =
    elim (new_table config.orders.direct_slots config.orders.fallback_bucket_count) [
      | none ↦ none
      | some orders ↦ elim (new_store config.prices) [
        | none ↦ none
        | some prices ↦
            some (record { config = config; orders = orders; prices = prices; books = λ _. none })
      ]
    ]

-- find; none for its null pointer.
unfoldable pub find : ℕ → BookManager → Option OrderBook
find stock_locate m =
    if not (is_valid_stock_locate stock_locate) then none else m.books stock_locate

-- getOrCreate, with whether its pointer is not null. direct_slots fits in a size_t.
unfoldable pub get_or_create : ℕ → BookManager → Bool × BookManager
get_or_create stock_locate m =
    let (prepared, prices) = prepare_book stock_locate m.prices in
    let book = new_book stock_locate m.config.orders.direct_slots prices in
    if not (is_valid_stock_locate stock_locate) then (false, m) else elim (find stock_locate m) [
      | some _ ↦ (true, m)
      | none ↦
          if not (is_applied prepared)
          then (false, record m { prices = prices })
          else (true, record m { prices = prices; books = update m.books stock_locate (some book) })
    ]

-- A message is routed to its book, which works on the shared stores.
unfoldable pub route :
    ℕ → (BookView → MutationResult × BookView) → BookManager → MutationResult × BookManager
route stock_locate operation m = elim (find stock_locate m) [
  | none ↦ (MutationResult.book_not_prepared, m)
  | some book ↦
      let (result, v) = operation (record { orders = m.orders; prices = m.prices; book = book }) in
      (
        result,
        record m {
          orders = v.orders;
          prices = v.prices;
          books = update m.books stock_locate (some v.book);
        },
      )
]

unfoldable pub add_order : ℕ → ℕ → ℕ → ℕ → ℕ → ℕ → BookManager → MutationResult × BookManager
add_order stock_locate order_id price qty side timestamp m =
    route stock_locate (Orders.add_order order_id price qty side timestamp) m

unfoldable pub cancel_shares : ℕ → ℕ → ℕ → ℕ → BookManager → MutationResult × BookManager
cancel_shares stock_locate order_id canceled_qty timestamp m =
    route stock_locate (Orders.cancel_shares order_id canceled_qty timestamp) m

unfoldable pub delete_order : ℕ → ℕ → ℕ → BookManager → MutationResult × BookManager
delete_order stock_locate order_id timestamp m =
    route stock_locate (Orders.delete_order order_id timestamp) m

unfoldable pub execute_order : ℕ → ℕ → ℕ → ℕ → BookManager → MutationResult × BookManager
execute_order stock_locate order_id executed_qty timestamp m =
    route stock_locate (Orders.execute_order order_id executed_qty timestamp) m

unfoldable pub replace_order : ℕ → ℕ → ℕ → ℕ → ℕ → ℕ → BookManager → MutationResult × BookManager
replace_order stock_locate old_id new_id new_price new_qty timestamp m =
    route stock_locate (Replacement.replace_order old_id new_id new_price new_qty timestamp) m

abbrev pub live_orders_of : Option OrderBook → ℕ
live_orders_of none = 0
live_orders_of (some book) = book.live_order_count

-- The loop of totalLiveOrderCount, with `rounds` slots left.
unfoldable pub live_loop : ℕ → ℕ → ℕ → BookManager → ℕ
live_loop zero slot total m = total
live_loop (suc rounds) slot total m =
    live_loop rounds (slot + 1) (add_u64 total (live_orders_of (m.books slot))) m

unfoldable pub total_live_order_count : BookManager → ℕ
total_live_order_count m = live_loop (max_stock_locate - 1) 1 0 m

-- What the parser asks of its books, as the manager does it.
abbrev pub managed_books : Books BookManager
managed_books = record {
  add_order = add_order;
  execute_order = execute_order;
  cancel_shares = cancel_shares;
  delete_order = delete_order;
  replace_order = replace_order;
  get_or_create = get_or_create;
  total_live_order_count = total_live_order_count;
}
