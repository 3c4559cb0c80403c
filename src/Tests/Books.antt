-- ===== src/Tests/Books.antt =====
-- One book with two orders at two prices.
use astra_feed_engine.Prelude.{ℕ, ◌≡◌, refl, List, [], ◌∷◌, All, true, false, none, some, arith}
use astra_feed_engine.Prelude.{inc_u32, add_u64}
use astra_feed_engine.Book.{OrderSide}
use astra_feed_engine.Book.OrderTable.{empty_state}
use astra_feed_engine.Book.PriceLevelStore.{blank_store, is_book_prepared}
use astra_feed_engine.Book.PriceLevelStore.Reads.{top_ten}
use astra_feed_engine.Book.PriceLevelStore.TopTen.{IsLadder}
use astra_feed_engine.Book.BookManager.{BookManager, BookManagerConfig, new_manager}
use astra_feed_engine.Wire.{is_valid_itch_price4}
use astra_feed_engine.Book.BookManager
use astra_feed_engine.Book.OrderBook.{new_book, decode_side, reject, rejected}
use astra_feed_engine.Book.OrderBook.Orders.{
  reserve_level, publish_order, add_reserved, live_result, reduce_order, remove_order,
}
use astra_feed_engine.Book.OrderBook.Orders
use astra_feed_engine.Book.OrderTable.{
  new_table, reserve, commit, published, was_seen, is_valid_config,
}
use astra_feed_engine.Book.PriceLevelStore.{
  new_store, prepare_book, owner, root_handle_matches, reserve_price, commit_reservation,
}
use astra_feed_engine.Book.PriceLevelStore.Levels.{level_unchecked, write_level, validate_address}
use astra_feed_engine.Book.PriceLevelStore.Additions.{
  validate_activation, validate_add, activate_in_page, activate_in_book, activate_level,
  add_validated, add,
}
use astra_feed_engine.Book.BookManager.Answers.{IsHealthy, answer, serve_all-new-answer}
use astra_feed_engine.Book.BookManager.Requests.{serve}
use astra_feed_engine.Book.BookManager.Requests.{
  Request, creates, adds, cancels, executes, deletes, replaces, IsWordSized, serve_all,
}
use astra_feed_engine.Book.BookManager.Day.{serve_all-new-IsLadder}
use astra_feed_engine.Book.BookManager.Agreement.{
  Counts, serve_all-new-live_order_count, serve_all-new-books, IsOpen,
}
use astra_feed_engine.Book.PriceLevelStore.Best.{level_at}
use astra_feed_engine.Book.OrderBook.Ledger.{books}
use astra_feed_engine.Book.OrderBook.Counting.{live_orders}

abbrev pub config : BookManagerConfig
config = record {
  orders = record { direct_slots = 16; fallback_bucket_count = 4 };
  prices = record { page_capacity = 4; prefault = false };
}

abbrev pub manager : BookManager
manager = record {
  config = config;
  orders = record {
    direct_slots = 16;
    fallback_bucket_count = 4;
    direct = λ _. empty_state;
    fallback = λ _ _. record { state = empty_state; order_ref = 0 };
  };
  prices = blank_store config.prices;
  books = λ _. none;
}

-- On stock locate 7.
abbrev requests : List Request
requests = creates 7 ∷ adds 7 1 100 500 b'B' 1 ∷ adds 7 2 200 300 b'B' 2 ∷ []

pub created : new_manager config ≡ some manager
unfolding new_manager new_table new_store is_valid_config
created = refl

words : All IsWordSized requests
words = (tt, (omega arith, (omega arith, tt)))

prepared : is_book_prepared 7 (serve_all requests manager).prices ≡ true
unfolding serve_all serve BookManager.get_or_create BookManager.find BookManager.add_order
    BookManager.route blank_store prepare_book is_book_prepared new_book decode_side reject rejected
    is_valid_itch_price4 Orders.add_order reserve_level publish_order add_reserved reserve commit
    published was_seen owner root_handle_matches reserve_price commit_reservation level_unchecked
    write_level validate_address validate_activation validate_add activate_in_page activate_in_book
    activate_level add_validated add inc_u32 add_u64
prepared = refl

serve_all-new-IsLadder_example :
    IsLadder 7 OrderSide.buy
      (serve_all requests manager).prices
      10
      (λ _. true)
      (top_ten 7 OrderSide.buy 10 (serve_all requests manager).prices)
serve_all-new-IsLadder_example =
    serve_all-new-IsLadder config manager requests (omega arith) created words 7 OrderSide.buy refl
      prepared

-- Orders that come, shrink, move, and go, on stock locate 7.
abbrev day : List Request
day =
    creates 7
    ∷ adds 7 1 100 500 b'B' 1
    ∷ adds 7 20 100 300 b'B' 2
    ∷ executes 7 1 200 3
    ∷ replaces 7 20 21 120 50 4
    ∷ cancels 7 1 100 5
    ∷ deletes 7 21 6
    ∷ []

day_words : All IsWordSized day
day_words = (tt, (omega arith, (omega arith, (tt, (omega arith, (tt, (tt, tt)))))))

serve_all-new-books_example :
    level_at 7 OrderSide.buy 100 (serve_all day manager).prices
    ≡ books (serve_all day manager).orders 7 OrderSide.buy 100
serve_all-new-books_example =
    serve_all-new-books config manager day (omega arith) created day_words 7 OrderSide.buy refl 100
      (omega arith)

-- The next request cancels more than the order has.
serve_all-new-answer_example :
    IsHealthy (answer (cancels 7 1 900 7) (serve_all day manager))
    × ((l : ℕ) → IsOpen ((serve_all day manager).books l))
serve_all-new-answer_example =
    serve_all-new-answer config manager day (cancels 7 1 900 7) (omega arith) created day_words tt

serve_all-new-live_order_count_example :
    Counts 7 (live_orders 7 (serve_all day manager).orders) ((serve_all day manager).books 7)
serve_all-new-live_order_count_example =
    serve_all-new-live_order_count config manager day (omega arith) created day_words 7
