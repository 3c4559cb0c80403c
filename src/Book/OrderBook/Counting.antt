-- ===== src/Book/OrderBook/Counting.antt =====
-- src/book/OrderBook.cpp, live_order_count_: the number of live orders that the table stores for a
-- stock locate, and how a write of the table changes it.
use astra_feed_engine.Prelude.{
  ℕ, ◌+◌, ◌%◌, ◌^◌, ◌≡◌, sym, ◌∙◌, ap, true, false, ◌&&◌, ◌==◌, if◌then◌else◌, arith, add_u64,
  sub_u64,
}
use astra_feed_engine.Book.OrderTable.{OrderState, OrderTable, Place, is_active}
use astra_feed_engine.Book.OrderTable.States.{state_at}
use astra_feed_engine.Book.OrderTable.Sums.{InRange, IsWrite, total, total-change}
use astra_feed_engine.Book.OrderBook.{BookView}

abbrev pub one_live : ℕ → OrderState → ℕ
one_live l state = if is_active state && state.locate == l then 1 else 0

unfoldable pub live_orders : ℕ → OrderTable → ℕ
live_orders l t = total (one_live l) t

-- The counter of the book of stock locate `home`, and the counts of all other locates.
pub record IsCounting (home : ℕ) (rest : ℕ → ℕ) (v : BookView) : Type 0 where
  pub locate_eq : v.book.stock_locate ≡ home
  pub own : v.book.live_order_count ≡ live_orders home v.orders % 2 ^ 64
  pub others : (l : ℕ) → (l == home) ≡ false → live_orders l v.orders ≡ rest l

module _ {p : Place} {state : OrderState} {t t' : OrderTable} (inside : InRange p t)
    (w : IsWrite p state t t') (l : ℕ) where
  pub live_orders-post :
      is_active (state_at p t) ≡ false
      → is_active state ≡ true
      → live_orders l t' ≡ live_orders l t + (if state.locate == l then 1 else 0)
  unfolding live_orders
  live_orders-post off on =
      let a = total-change (one_live l) p state t t' inside w in ground (arith, a, off, on)

  pub live_orders-retire :
      is_active (state_at p t) ≡ true
      → is_active state ≡ false
      → live_orders l t ≡ live_orders l t' + (if (state_at p t).locate == l then 1 else 0)
  unfolding live_orders
  live_orders-retire on off =
      let a = total-change (one_live l) p state t t' inside w in ground (arith, a, off, on)

  pub live_orders-kept :
      is_active (state_at p t) ≡ is_active state
      → state.locate ≡ (state_at p t).locate
      → live_orders l t' ≡ live_orders l t
  unfolding live_orders
  live_orders-kept e f =
      let a = total-change (one_live l) p state t t' inside w in
      let same : one_live l state ≡ one_live l (state_at p t) =
        ap (λ x. if x && state.locate == l then 1 else 0) (sym e)
        ∙ ap (λ x. if is_active (state_at p t) && x == l then 1 else 0) f in
      omega (arith, a, same)

-- The operations that count: an order comes, or goes, or the number stays.
module _ {home : ℕ} {rest : ℕ → ℕ} (v v' : BookView) (k : IsCounting home rest v)
    (same_locate : v'.book.stock_locate ≡ v.book.stock_locate) where
  pub kept-IsCounting :
      v'.book.live_order_count ≡ v.book.live_order_count
      → ((l : ℕ) → live_orders l v'.orders ≡ live_orders l v.orders)
      → IsCounting home rest v'
  kept-IsCounting e f = record {
    locate_eq = same_locate ∙ k.locate_eq;
    own = e ∙ (k.own ∙ ap (λ n. n % 2 ^ 64) (sym (f home)));
    others = λ l ne. f l ∙ k.others l ne;
  }

  pub more-IsCounting :
      v'.book.live_order_count ≡ add_u64 v.book.live_order_count 1
      → ((l : ℕ)
          → live_orders l v'.orders
            ≡ live_orders l v.orders + (if v.book.stock_locate == l then 1 else 0))
      → IsCounting home rest v'
  unfolding add_u64
  more-IsCounting e f =
      let q = k.locate_eq in
      let own = k.own in
      record {
        locate_eq = same_locate ∙ q;
        own = let g = f home in ground (arith, q, own, e, g);
        others = λ l ne. let g = f l in let o = k.others l ne in ground (arith, q, g, o, ne);
      }

  pub fewer-IsCounting :
      v'.book.live_order_count ≡ sub_u64 v.book.live_order_count 1
      → ((l : ℕ)
          → live_orders l v.orders
            ≡ live_orders l v'.orders + (if v.book.stock_locate == l then 1 else 0))
      → IsCounting home rest v'
  unfolding sub_u64
  fewer-IsCounting e f =
      let q = k.locate_eq in
      let own = k.own in
      record {
        locate_eq = same_locate ∙ q;
        own = let g = f home in ground (arith, q, own, e, g);
        others = λ l ne. let g = f l in let o = k.others l ne in ground (arith, q, g, o, ne);
      }
