-- ===== src/Book/BookManager/Day.antt =====
-- src/book/BookManager.cpp: the levels that are shown through a day of messages.
use astra_feed_engine.Prelude.{ℕ, ◌^◌, ◌<◌, ◌≡◌, true, some, List, All}
use astra_feed_engine.Book.{OrderSide, is_valid_side}
use astra_feed_engine.Book.PriceLevelStore.{is_book_prepared}
use astra_feed_engine.Book.PriceLevelStore.Reads.{top_ten}
use astra_feed_engine.Book.PriceLevelStore.TopTen.{IsLadder, top_ten-IsLadder}
use astra_feed_engine.Book.BookManager.{BookManager, BookManagerConfig, new_manager}
use astra_feed_engine.Book.BookManager.Requests.{Request, IsWordSized, serve_all}
use astra_feed_engine.Book.BookManager.Agreement.{serve_all-new-IsBooked}

-- The books are right all day: whatever requests a new manager serves, in whatever order and with
-- whatever results, rejections and rollbacks included, when the quantities of new orders are 32-bit
-- words, then for every prepared stock locate and side the levels that topTen shows getBookUpdate are
-- the ten best live prices in their order, with their quantities and numbers of orders, or all the
-- live prices when they are fewer.
pub serve_all-new-IsLadder :
    (config : BookManagerConfig) (m : BookManager) (rs : List Request)
    → config.prices.page_capacity < 2 ^ 32
    → new_manager config ≡ some m
    → All IsWordSized rs
    → (l : ℕ) (side : OrderSide) → is_valid_side side ≡ true
    → is_book_prepared l (serve_all rs m).prices ≡ true
    → IsLadder l side
        (serve_all rs m).prices
        10
        (λ _. true)
        (top_ten l side 10 (serve_all rs m).prices)
serve_all-new-IsLadder config m rs word e w l side v p =
    top_ten-IsLadder l side (serve_all rs m).prices
      (serve_all-new-IsBooked config m rs word e w).sound v p 10
