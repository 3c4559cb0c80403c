-- ===== src/Book/BookManager/Agreement.antt =====
-- src/book/BookManager.cpp: through a day of messages the price levels agree with the stored orders.
use astra_feed_engine.Prelude.{
  ◌%◌, Option, none, ◌==◌, ℕ, ◌^◌, ◌<◌, ◌≡◌, refl, sym, ◌∙◌, ap, subst, Bool, true, false, not,
  some, List, [], ◌∷◌, All, if_elim, arith,
}
use astra_feed_engine.Symbols.{is_valid_stock_locate}
use astra_feed_engine.Book.{MutationResult, OrderSide, is_applied, is_valid_side}
use astra_feed_engine.Book.OrderTable.{new_table, is_valid_config}
use astra_feed_engine.Book.PriceLevelStore.{PriceLevelStore, prepare_book, is_book_prepared}
use astra_feed_engine.Book.PriceLevelStore.Best.{level_at}
use astra_feed_engine.Book.OrderBook.{OrderBook, BookView, new_book}
use astra_feed_engine.Book.OrderBook.Counting.{live_orders}
use astra_feed_engine.Book.OrderBook.Ledger.{books}
use astra_feed_engine.Book.OrderBook.Booked.{IsBooked}
use astra_feed_engine.Book.OrderBook.Levelled.{prepare_book-IsBooked}
use astra_feed_engine.Book.OrderBook.Balance.{Balanced, Balances, is_true}
use astra_feed_engine.Book.OrderBook.KeepingAdded.{add_order-Balances}
use astra_feed_engine.Book.OrderBook.Keeping.{
  cancel_shares-Balances, delete_order-Balances, execute_order-Balances,
}
use astra_feed_engine.Book.OrderBook.KeepingReplaced.{replace_order-Balances}
use astra_feed_engine.Book.OrderBook.Orders
use astra_feed_engine.Book.OrderBook.Replacement
use astra_feed_engine.Book.BookManager.{
  BookManager, BookManagerConfig, new_manager, find, get_or_create, route, add_order, cancel_shares,
  delete_order, execute_order, replace_order,
}
use astra_feed_engine.Book.BookManager.Opening.{new_states, new_states-live, new_manager-IsBooked}
use astra_feed_engine.Book.BookManager.Requests.{
  Request, creates, adds, cancels, executes, deletes, replaces, serve, serve_all, IsWordSized,
}

abbrev pub IsOpen : Option OrderBook → Type 0
IsOpen none = Unit
IsOpen (some book) = book.local_invalid ≡ false

-- The book of a stock locate counts these live orders.
abbrev pub Counts : ℕ → ℕ → Option OrderBook → Type 0
Counts l live none = live ≡ 0
Counts l live (some book) = (book.stock_locate ≡ l) × (book.live_order_count ≡ live % 2 ^ 64)

-- The book of a stock locate for which `live` orders are stored.
abbrev pub IsBookOf : ℕ → ℕ → Option OrderBook → Type 0
IsBookOf l live none = live ≡ 0
IsBookOf l live (some book) =
    (book.local_invalid ≡ false) × (book.stock_locate ≡ l) × (book.live_order_count ≡ live % 2 ^ 64)

-- The two stores agree, no book is out of order, and each one counts its live orders.
pub record Agrees (m : BookManager) : Type 0 where
  pub booked : IsBooked m.orders m.prices
  pub counted : (l : ℕ) → IsBookOf l (live_orders l m.orders) (m.books l)

pub Agrees-IsOpen : (l : ℕ) (m : BookManager) → Agrees m → IsOpen (m.books l)
Agrees-IsOpen l m k = open_book (m.books l) (k.counted l)
  where
    open_book : (o : Option OrderBook) → IsBookOf l (live_orders l m.orders) o → IsOpen o
    open_book none h = tt
    open_book (some book) (is_open, _, _) = is_open

pub found_book :
    {B : Type 0} (Q : B → Type 0) (l : ℕ) (m : BookManager) {n : B} {f : OrderBook → B}
    → Agrees m
    → Q n
    → ((book : OrderBook) → IsBookOf l (live_orders l m.orders) (some book) → Q (f book))
    → Q (elim (find l m) [ none ↦ n | some book ↦ f book ])
unfolding find
found_book Q l m {n} {f} k missing found =
    if_elim (λ (o : Option OrderBook). Q (elim o [ none ↦ n | some book ↦ f book ]))
      (not (is_valid_stock_locate l)) (λ _. missing) (λ _. go (m.books l) (k.counted l))
  where
    go :
        (o : Option OrderBook)
        → IsBookOf l (live_orders l m.orders) o
        → Q (elim o [ none ↦ n | some book ↦ f book ])
    go none h = missing
    go (some book) h = found book h

route-Agrees :
    (l : ℕ) (operation : BookView → MutationResult × BookView) (m : BookManager)
    → ((home : ℕ) (rest : ℕ → ℕ) (v : BookView)
        → Balanced home rest v
        → Balances home rest (operation v))
    → Agrees m
    → Agrees (route l operation m).1
unfolding route
route-Agrees l operation m keeps k =
    found_book (λ (x : MutationResult × BookManager). Agrees x.1) l m k k
      (λ book (is_open, here, own).
        let v : BookView = record { orders = m.orders; prices = m.prices; book = book } in
        let rest = λ (x : ℕ). live_orders x m.orders in
        let after = keeps l rest v (record {
          booked = k.booked;
          is_open = is_open;
          counting = record { locate_eq = here; own = own; others = λ x ne. refl };
        }) in
        let orders = (operation v).1.orders in
        record {
          booked = after.booked;
          counted = λ x.
              if_elim (IsBookOf x (live_orders x orders)) (x == l)
                (λ same.
                  let q : l ≡ x = ground (arith, same) in
                  subst (λ y. IsBookOf y (live_orders y orders) (some (operation v).1.book)) q
                    (after.is_open, after.counting.locate_eq, after.counting.own))
                (λ other.
                  subst (λ n. IsBookOf x n (m.books x)) (sym (after.counting.others x other))
                    (k.counted x));
        })

prepare_book-prepared :
    (l : ℕ) (s : PriceLevelStore)
    → is_applied (prepare_book l s).0 ≡ true
    → is_book_prepared l (prepare_book l s).1 ≡ true
unfolding prepare_book is_book_prepared
prepare_book-prepared l s ok = ground (arith, ok)

option_cases :
    {A B : Type 0} (Q : B → Type 0) (o : Option A) {n : B} {f : A → B}
    → ((a : A) → Q (f a))
    → (o ≡ none → Q n)
    → Q (elim o [ some a ↦ f a | none ↦ n ])
option_cases Q none q p = p refl
option_cases Q (some a) q p = q a

get_or_create-Agrees : (l : ℕ) (m : BookManager) → Agrees m → Agrees (get_or_create l m).1
unfolding get_or_create new_book find
get_or_create-Agrees l m k =
    let F = λ (x : Bool × BookManager). Agrees x.1 in
    let prepared = prepare_book-IsBooked l m.orders m.prices k.booked in
    if_elim F (not (is_valid_stock_locate l)) (λ _. k)
      (λ valid.
        option_cases F (find l m) (λ _. k)
          (λ missing.
            if_elim F (not (is_applied (prepare_book l m.prices).0))
              (λ _. record { booked = prepared; counted = k.counted })
              (λ ok.
                let fresh = prepare_book-prepared l m.prices (is_true ok) in
                let free : m.books l ≡ none = ground (arith, missing, valid) in
                let idle : live_orders l m.orders ≡ 0 =
                  subst (IsBookOf l (live_orders l m.orders)) free (k.counted l) in
                record {
                  booked = prepared;
                  counted = λ x.
                      if_elim (IsBookOf x (live_orders x m.orders)) (x == l)
                        (λ same.
                          let q : x ≡ l = ground (arith, same) in
                          let idle' : live_orders x m.orders ≡ 0 =
                            ap (λ y. live_orders y m.orders) q ∙ idle in
                          (ap not fresh, sym q, ground (arith, idle')))
                        (λ _. k.counted x);
                })))

pub serve-Agrees : (r : Request) (m : BookManager) → IsWordSized r → Agrees m → Agrees (serve r m)
unfolding serve add_order cancel_shares execute_order delete_order replace_order
serve-Agrees (creates l) m w k = get_or_create-Agrees l m k
serve-Agrees (adds l order_id price qty side timestamp) m w k =
    route-Agrees l (Orders.add_order order_id price qty side timestamp) m
      (λ home rest v. add_order-Balances order_id price qty side timestamp v w) k
serve-Agrees (cancels l order_id qty timestamp) m w k =
    route-Agrees l (Orders.cancel_shares order_id qty timestamp) m
      (λ home rest v. cancel_shares-Balances order_id qty timestamp v) k
serve-Agrees (executes l order_id qty timestamp) m w k =
    route-Agrees l (Orders.execute_order order_id qty timestamp) m
      (λ home rest v. execute_order-Balances order_id qty timestamp v) k
serve-Agrees (deletes l order_id timestamp) m w k =
    route-Agrees l (Orders.delete_order order_id timestamp) m
      (λ home rest v. delete_order-Balances order_id timestamp v) k
serve-Agrees (replaces l old_id new_id new_price new_qty timestamp) m w k =
    route-Agrees l (Replacement.replace_order old_id new_id new_price new_qty timestamp) m
      (λ home rest v. replace_order-Balances old_id new_id new_price new_qty timestamp w v) k

pub serve_all-Agrees :
    (rs : List Request) (m : BookManager) → All IsWordSized rs → Agrees m → Agrees (serve_all rs m)
unfolding serve_all
serve_all-Agrees [] m w k = k
serve_all-Agrees (r ∷ rs) m (w, ws) k = serve_all-Agrees rs (serve r m) ws (serve-Agrees r m w k)

pub new_manager-Agrees :
    (config : BookManagerConfig) (m : BookManager)
    → config.prices.page_capacity < 2 ^ 32
    → new_manager config ≡ some m
    → Agrees m
unfolding new_manager new_table is_valid_config
new_manager-Agrees config m word e =
    let a : new_states config.orders.direct_slots config.orders.fallback_bucket_count ≡ m.orders =
      ground (arith, e) in
    let none_there : (λ _. none) ≡ m.books = ground (arith, e) in
    record {
      booked = new_manager-IsBooked config m word e;
      counted = λ l.
          subst (λ (x : ℕ → Option OrderBook). IsBookOf l (live_orders l m.orders) (x l)) none_there
            (subst (λ t. live_orders l t ≡ 0) a
              (new_states-live config.orders.direct_slots config.orders.fallback_bucket_count l));
    }

pub serve_all-new-IsBooked :
    (config : BookManagerConfig) (m : BookManager) (rs : List Request)
    → config.prices.page_capacity < 2 ^ 32
    → new_manager config ≡ some m
    → All IsWordSized rs
    → IsBooked (serve_all rs m).orders (serve_all rs m).prices
serve_all-new-IsBooked config m rs word e w =
    (serve_all-Agrees rs m w (new_manager-Agrees config m word e)).booked

-- The two stores agree all day: whatever requests a new manager serves, in whatever order and with
-- whatever results, rejections and rollbacks included, when the quantities of new orders are 32-bit
-- words, then at every price of every valid side of every stock locate the quantity and the number of
-- orders in the price level are the sum of the shares and the number of the live orders that the order
-- table stores with that stock locate, side and price (`books`).
pub serve_all-new-books :
    (config : BookManagerConfig) (m : BookManager) (rs : List Request)
    → config.prices.page_capacity < 2 ^ 32
    → new_manager config ≡ some m
    → All IsWordSized rs
    → (l : ℕ) (side : OrderSide) → is_valid_side side ≡ true
    → (raw : ℕ) → raw < 2 ^ 32
    → level_at l side raw (serve_all rs m).prices ≡ books (serve_all rs m).orders l side raw
serve_all-new-books config m rs word e w l side v raw k =
    (serve_all-new-IsBooked config m rs word e w).shows l side v raw k

-- The counters are right: whatever requests a new manager serves, in whatever order and with whatever
-- results, rejections and rollbacks included, when the quantities of new orders are 32-bit words, then
-- every book has its own stock locate, and its number of live orders is that of the live orders that the
-- order table stores with that stock locate, modulo 2^64; where there is no book, none is stored.
pub serve_all-new-live_order_count :
    (config : BookManagerConfig) (m : BookManager) (rs : List Request)
    → config.prices.page_capacity < 2 ^ 32
    → new_manager config ≡ some m
    → All IsWordSized rs
    → (l : ℕ) → Counts l (live_orders l (serve_all rs m).orders) ((serve_all rs m).books l)
serve_all-new-live_order_count config m rs word e w l =
    count_book ((serve_all rs m).books l)
      ((serve_all-Agrees rs m w (new_manager-Agrees config m word e)).counted l)
  where
    count_book :
        (o : Option OrderBook)
        → IsBookOf l (live_orders l (serve_all rs m).orders) o
        → Counts l (live_orders l (serve_all rs m).orders) o
    count_book none h = h
    count_book (some book) (_, here, own) = (here, own)
