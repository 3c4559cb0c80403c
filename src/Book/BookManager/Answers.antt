-- ===== src/Book/BookManager/Answers.antt =====
-- src/book/OrderBook.cpp and src/book/BookManager.cpp: what the operations answer through a day.
use astra_feed_engine.Prelude.{ℕ, ◌^◌, ◌<◌, ◌≡◌, ◌≢◌, refl, sym, ◌∙◌, false, some, List, All, arith}
use astra_feed_engine.Book.{MutationResult}
use astra_feed_engine.Book.OrderBook.{BookView, is_invalidating}
use astra_feed_engine.Book.OrderBook.Counting.{live_orders}
use astra_feed_engine.Book.OrderBook.Balance.{Balanced, Balances}
use astra_feed_engine.Book.OrderBook.KeepingAdded.{add_order-Balances}
use astra_feed_engine.Book.OrderBook.Keeping.{
  cancel_shares-Balances, delete_order-Balances, execute_order-Balances,
}
use astra_feed_engine.Book.OrderBook.KeepingReplaced.{replace_order-Balances}
use astra_feed_engine.Book.OrderBook.Orders.{
  reserve_level, publish_order, add_reserved, reduce_order, remove_order, live_result,
}
use astra_feed_engine.Book.OrderBook.Orders
use astra_feed_engine.Book.OrderBook.Replacement.{
  replace_in_place, retire_order, replace_by_new, replace_found,
}
use astra_feed_engine.Book.OrderBook.Replacement
use astra_feed_engine.Book.BookManager.{
  BookManager, BookManagerConfig, new_manager, route, add_order, cancel_shares, delete_order,
  execute_order, replace_order,
}
use astra_feed_engine.Book.BookManager.Requests.{
  Request, creates, adds, cancels, executes, deletes, replaces, serve_all, IsWordSized,
}
use astra_feed_engine.Book.BookManager.Agreement.{
  Agrees, IsOpen, Agrees-IsOpen, found_book, serve_all-Agrees, new_manager-Agrees,
}
use astra_feed_engine.Book.OrderBook.Marking.{
  Marks, add_order-Marks, cancel_shares-Marks, delete_order-Marks, execute_order-Marks,
  replace_order-Marks,
}

-- The manager's answer to a request. A call of getOrCreate has no result of this kind.
abbrev pub answer : Request → BookManager → MutationResult
answer (creates l) m = MutationResult.applied
answer (adds l order_id price qty side timestamp) m =
    (add_order l order_id price qty side timestamp m).0
answer (cancels l order_id qty timestamp) m = (cancel_shares l order_id qty timestamp m).0
answer (executes l order_id qty timestamp) m = (execute_order l order_id qty timestamp m).0
answer (deletes l order_id timestamp) m = (delete_order l order_id timestamp m).0
answer (replaces l old_id new_id new_price new_qty timestamp) m =
    (replace_order l old_id new_id new_price new_qty timestamp m).0

-- A result that reports no broken state.
pub record IsHealthy (result : MutationResult) : Type 0 where
  pub no_overflow : result ≢ MutationResult.quantity_overflow
  pub no_underflow : result ≢ MutationResult.quantity_underflow
  pub page_found : result ≢ MutationResult.invalid_price_page
  pub level_found : result ≢ MutationResult.missing_price_level
  pub not_stale : result ≢ MutationResult.stale_reservation
  pub no_violation : result ≢ MutationResult.invariant_violation
  pub not_invalid : result ≢ MutationResult.book_invalid

fine-IsHealthy : (result : MutationResult) → is_invalidating result ≡ false → IsHealthy result
fine-IsHealthy result e = record {
  no_overflow = ground (arith, e);
  no_underflow = ground (arith, e);
  page_found = ground (arith, e);
  level_found = ground (arith, e);
  not_stale = ground (arith, e);
  no_violation = ground (arith, e);
  not_invalid = ground (arith, e);
}

route-IsHealthy :
    (l : ℕ) (operation : BookView → MutationResult × BookView) (m : BookManager)
    → ((home : ℕ) (rest : ℕ → ℕ) (v : BookView)
        → Balanced home rest v
        → Balances home rest (operation v))
    → Marks operation
    → Agrees m
    → IsHealthy (route l operation m).0
unfolding route
route-IsHealthy l operation m keeps marks k =
    found_book (λ (x : MutationResult × BookManager). IsHealthy x.0) l m k
      (fine-IsHealthy MutationResult.book_not_prepared refl)
      (λ book (is_open, here, own).
        let v : BookView = record { orders = m.orders; prices = m.prices; book = book } in
        let after =
          keeps l (λ (x : ℕ). live_orders x m.orders) v
            (record {
              booked = k.booked;
              is_open = is_open;
              counting = record { locate_eq = here; own = own; others = λ x ne. refl };
            }) in
        fine-IsHealthy (operation v).0 (sym (marks v is_open) ∙ after.is_open))

answer-IsHealthy :
    (r : Request) (m : BookManager) → IsWordSized r → Agrees m → IsHealthy (answer r m)
unfolding add_order cancel_shares execute_order delete_order replace_order
answer-IsHealthy (creates l) m w k = fine-IsHealthy MutationResult.applied refl
answer-IsHealthy (adds l order_id price qty side timestamp) m w k =
    route-IsHealthy l (Orders.add_order order_id price qty side timestamp) m
      (λ home rest v. add_order-Balances order_id price qty side timestamp v w)
      (add_order-Marks order_id price qty side timestamp) k
answer-IsHealthy (cancels l order_id qty timestamp) m w k =
    route-IsHealthy l (Orders.cancel_shares order_id qty timestamp) m
      (λ home rest v. cancel_shares-Balances order_id qty timestamp v)
      (cancel_shares-Marks order_id qty timestamp) k
answer-IsHealthy (executes l order_id qty timestamp) m w k =
    route-IsHealthy l (Orders.execute_order order_id qty timestamp) m
      (λ home rest v. execute_order-Balances order_id qty timestamp v)
      (execute_order-Marks order_id qty timestamp) k
answer-IsHealthy (deletes l order_id timestamp) m w k =
    route-IsHealthy l (Orders.delete_order order_id timestamp) m
      (λ home rest v. delete_order-Balances order_id timestamp v)
      (delete_order-Marks order_id timestamp) k
answer-IsHealthy (replaces l old_id new_id new_price new_qty timestamp) m w k =
    route-IsHealthy l (Replacement.replace_order old_id new_id new_price new_qty timestamp) m
      (λ home rest v. replace_order-Balances old_id new_id new_price new_qty timestamp w v)
      (replace_order-Marks old_id new_id new_price new_qty timestamp) k

-- No operation meets a broken state: after whatever requests a new manager has served, in whatever
-- order and with whatever results, when the quantities of new orders are 32-bit words, the answer to
-- any next request is none of quantity overflow and underflow, invalid price page, missing price level,
-- stale reservation, invariant violation and invalid book, and no book is marked invalid.
pub serve_all-new-answer :
    (config : BookManagerConfig) (m : BookManager) (rs : List Request) (r : Request)
    → config.prices.page_capacity < 2 ^ 32
    → new_manager config ≡ some m
    → All IsWordSized rs
    → IsWordSized r
    → IsHealthy (answer r (serve_all rs m)) × ((l : ℕ) → IsOpen ((serve_all rs m).books l))
serve_all-new-answer config m rs r word e ws w =
    let k = serve_all-Agrees rs m ws (new_manager-Agrees config m word e) in
    (answer-IsHealthy r (serve_all rs m) w k, λ l. Agrees-IsOpen l (serve_all rs m) k)
