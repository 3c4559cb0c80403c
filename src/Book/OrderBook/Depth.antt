-- ===== src/Book/OrderBook/Depth.antt =====
-- src/book/OrderBook.cpp, include/astra/book/TopOfBook.hpp and BookUpdate.hpp: what a book shows.
use astra_feed_engine.Prelude.{ℕ, Bool, true, false, not, ◌&&◌, Option, none, some, List, map}
use astra_feed_engine.Channel.{ChannelHealth}
use astra_feed_engine.Book.{OrderSide}
use astra_feed_engine.Book.PriceLevelStore.Reads.{PriceLevelView, best, view, top_ten}
use astra_feed_engine.Book.OrderBook.{OrderBook, BookView}

pub record TopOfBook : Type 0 where
  pub timestamp : ℕ
  pub bid_price : ℕ
  pub bid_qty : ℕ
  pub ask_price : ℕ
  pub ask_qty : ℕ
  pub symbol_id : ℕ
  pub has_bid : Bool
  pub has_ask : Bool

pub record BookLevelUpdate : Type 0 where
  pub price : ℕ
  pub qty : ℕ
  pub num_orders : ℕ

-- The two arrays as lists, of which the depths are the lengths.
pub record BookUpdate : Type 0 where
  pub bids : List BookLevelUpdate
  pub asks : List BookLevelUpdate
  pub timestamp : ℕ
  pub symbol_id : ℕ

-- The view of the best level of a side.
unfoldable pub best_view : OrderSide → BookView → Option PriceLevelView
best_view side v = elim (best v.book.stock_locate side v.prices) [
  | none ↦ none
  | some cursor ↦ view cursor side v.prices
]

abbrev pub price_or_zero : Option PriceLevelView → ℕ
price_or_zero none = 0
price_or_zero (some level) = level.raw_price

abbrev pub qty_or_zero : Option PriceLevelView → ℕ
qty_or_zero none = 0
qty_or_zero (some level) = level.total_qty

abbrev pub is_there : Option PriceLevelView → Bool
is_there none = false
is_there (some _) = true

unfoldable pub get_top_of_book : BookView → TopOfBook
get_top_of_book v =
    let bid = best_view OrderSide.buy v in
    let ask = best_view OrderSide.sell v in
    record {
      timestamp = v.book.latest_update_timestamp;
      bid_price = price_or_zero bid;
      bid_qty = qty_or_zero bid;
      ask_price = price_or_zero ask;
      ask_qty = qty_or_zero ask;
      symbol_id = v.book.symbol_id;
      has_bid = is_there bid;
      has_ask = is_there ask;
    }

abbrev pub level_update : PriceLevelView → BookLevelUpdate
level_update level = record {
  price = level.raw_price;
  qty = level.total_qty;
  num_orders = level.order_count;
}

unfoldable pub get_book_update : BookView → BookUpdate
get_book_update v = record {
  bids = map level_update (top_ten v.book.stock_locate OrderSide.buy 10 v.prices);
  asks = map level_update (top_ten v.book.stock_locate OrderSide.sell 10 v.prices);
  timestamp = v.book.latest_update_timestamp;
  symbol_id = v.book.symbol_id;
}

abbrev is_good : ChannelHealth → Bool
is_good ChannelHealth.good = true
is_good _ = false

unfoldable pub is_tradable : ChannelHealth → OrderBook → Bool
unfolding is_good
is_tradable channel_health b = is_good channel_health && not b.local_invalid
