-- ===== src/Book/OrderBook/Shown.antt =====
-- src/book/OrderBook.cpp, getTopOfBook and getBookUpdate: the two views of a book agree.
use astra_feed_engine.Prelude.{
  ℕ, ◌≡◌, refl, Bool, true, false, List, [], ◌∷◌, Option, none, some, map,
}
use astra_feed_engine.Book.{OrderSide}
use astra_feed_engine.Book.PriceLevelStore.Reads.{
  PriceLevelView, best, view, next_worse, top_loop, top_ten,
}
use astra_feed_engine.Book.OrderBook.{BookView}
use astra_feed_engine.Book.OrderBook.Depth.{
  BookLevelUpdate, best_view, price_or_zero, qty_or_zero, is_there, get_top_of_book,
  get_book_update, level_update,
}

-- The first of some levels, with zeros for none.
abbrev pub first_price : List BookLevelUpdate → ℕ
first_price [] = 0
first_price (level ∷ _) = level.price

abbrev pub first_qty : List BookLevelUpdate → ℕ
first_qty [] = 0
first_qty (level ∷ _) = level.qty

abbrev pub is_filled : List BookLevelUpdate → Bool
is_filled [] = false
is_filled (_ ∷ _) = true

-- What a list of levels and the view of a best level have in common.
record IsHead (levels : List BookLevelUpdate) (w : Option PriceLevelView) : Type 0 where
  price_eq : price_or_zero w ≡ first_price levels
  qty_eq : qty_or_zero w ≡ first_qty levels
  there_eq : is_there w ≡ is_filled levels

best_view-IsHead :
    (side : OrderSide) (v : BookView)
    → IsHead (map level_update (top_ten v.book.stock_locate side 10 v.prices)) (best_view side v)
unfolding best_view top_ten top_loop
best_view-IsHead side v =
    let l = v.book.stock_locate in
    let s = v.prices in
    elim (best l side s)
      as (λ o.
        IsHead (map level_update (top_loop 10 l side o s))
          (elim o [ none ↦ none | some c ↦ view c side s ])) [
            | none ↦ record { price_eq = refl; qty_eq = refl; there_eq = refl }
            | some c ↦
                let rest = top_loop 9 l side (next_worse l side c s) s in
                elim (view c side s)
                  as (λ w. IsHead (map level_update (elim w [ none ↦ [] | some u ↦ u ∷ rest ])) w) [
                    | none ↦ record { price_eq = refl; qty_eq = refl; there_eq = refl }
                    | some u ↦ record { price_eq = refl; qty_eq = refl; there_eq = refl }
                  ]
          ]

-- The top of a book is the head of its depth: for every book, the best bid and the best ask that
-- getTopOfBook shows, their quantities and whether they are there, are those of the first levels of
-- getBookUpdate, and the time stamp and the symbol are the same.
pub get_top_of_book-get_book_update :
    (v : BookView)
    → ((get_top_of_book v).bid_price ≡ first_price (get_book_update v).bids)
      × ((get_top_of_book v).bid_qty ≡ first_qty (get_book_update v).bids)
      × ((get_top_of_book v).has_bid ≡ is_filled (get_book_update v).bids)
      × ((get_top_of_book v).ask_price ≡ first_price (get_book_update v).asks)
      × ((get_top_of_book v).ask_qty ≡ first_qty (get_book_update v).asks)
      × ((get_top_of_book v).has_ask ≡ is_filled (get_book_update v).asks)
      × ((get_top_of_book v).timestamp ≡ (get_book_update v).timestamp)
      × ((get_top_of_book v).symbol_id ≡ (get_book_update v).symbol_id)
unfolding get_top_of_book get_book_update
get_top_of_book-get_book_update v =
    let b = best_view-IsHead OrderSide.buy v in
    let a = best_view-IsHead OrderSide.sell v in
    (b.price_eq, b.qty_eq, b.there_eq, a.price_eq, a.qty_eq, a.there_eq, refl, refl)
