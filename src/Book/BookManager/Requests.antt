-- ===== src/Book/BookManager/Requests.antt =====
-- src/book/BookManager.cpp: the messages of a day, and how the manager serves them.
use astra_feed_engine.Prelude.{ℕ, ◌^◌, ◌<◌, List, [], ◌∷◌}
use astra_feed_engine.Book.BookManager.{
  BookManager, get_or_create, add_order, cancel_shares, delete_order, execute_order, replace_order,
}

-- What the parser asks of the manager.
pub data Request : Type 0 where
  creates : ℕ → Request
  adds : ℕ → ℕ → ℕ → ℕ → ℕ → ℕ → Request
  cancels executes : ℕ → ℕ → ℕ → ℕ → Request
  deletes : ℕ → ℕ → ℕ → Request
  replaces : ℕ → ℕ → ℕ → ℕ → ℕ → ℕ → Request

unfoldable pub serve : Request → BookManager → BookManager
serve (creates l) m = (get_or_create l m).1
serve (adds l order_id price qty side timestamp) m =
    (add_order l order_id price qty side timestamp m).1
serve (cancels l order_id qty timestamp) m = (cancel_shares l order_id qty timestamp m).1
serve (executes l order_id qty timestamp) m = (execute_order l order_id qty timestamp m).1
serve (deletes l order_id timestamp) m = (delete_order l order_id timestamp m).1
serve (replaces l old_id new_id new_price new_qty timestamp) m =
    (replace_order l old_id new_id new_price new_qty timestamp m).1

unfoldable pub serve_all : List Request → BookManager → BookManager
serve_all [] m = m
serve_all (r ∷ rs) m = serve_all rs (serve r m)

-- The quantities of new orders are 32-bit words.
abbrev pub IsWordSized : Request → Type 0
IsWordSized (adds l order_id price qty side timestamp) = qty < 2 ^ 32
IsWordSized (replaces l old_id new_id new_price new_qty timestamp) = new_qty < 2 ^ 32
IsWordSized _ = Unit
