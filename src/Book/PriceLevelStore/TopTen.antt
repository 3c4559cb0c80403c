-- ===== src/Book/PriceLevelStore/TopTen.antt =====
-- src/book/PriceLevelStore.cpp, view and topTen: the output is the list of the best levels.
use astra_feed_engine.Prelude.{
  ℕ, zero, suc, ◌/◌, ◌%◌, ◌^◌, ◌≤◌, ◌<◌, ◌≡◌, refl, sym, ◌∙◌, ap, subst, Bool, true, false, min,
  List, [], ◌∷◌, Option, none, some, arith,
}
use astra_feed_engine.Book.{OrderSide, is_valid_side}
use astra_feed_engine.Book.PriceLevelStore.{
  PriceLevelStore, is_book_prepared, root_handle_matches, top_level_count,
}
use astra_feed_engine.Book.PriceLevelStore.Levels.{resolve_level, validate_address}
use astra_feed_engine.Book.PriceLevelStore.Additions.{better}
use astra_feed_engine.Book.PriceLevelStore.Reads.{
  PriceLevelCursor, PriceLevelView, best, next_worse, view, top_loop, top_ten,
}
use astra_feed_engine.Book.PriceLevelStore.Soundness.{IsSound}
use astra_feed_engine.Book.PriceLevelStore.Best.{
  level_at, is_live, IsAt, Leads, nowhere, leads_to, best-Leads,
}
use astra_feed_engine.Book.PriceLevelStore.Ladder.{matches, next_worse-Leads}

-- The view of a price, from the abstract book.
abbrev pub view_at : ℕ → OrderSide → ℕ → PriceLevelStore → PriceLevelView
view_at stock_locate side raw_price s = record {
  raw_price = raw_price;
  total_qty = (level_at stock_locate side raw_price s).total_qty;
  order_count = (level_at stock_locate side raw_price s).order_count;
}

-- A view of the best live price among those with a property.
pub record IsRung (stock_locate : ℕ) (side : OrderSide) (s : PriceLevelStore) (within : ℕ → Bool)
    (w : PriceLevelView) : Type 0 where
  pub price_low : w.raw_price < 2 ^ 32
  pub inside : within w.raw_price ≡ true
  pub shown : w ≡ view_at stock_locate side w.raw_price s
  pub live : is_live stock_locate side s w.raw_price ≡ true
  pub top :
      (raw : ℕ)
      → raw < 2 ^ 32
      → within raw ≡ true
      → better side raw w.raw_price ≡ true
      → is_live stock_locate side s raw ≡ false

-- The levels of a book in their order, at most `room` of them: each is the best that is left.
unfoldable pub IsLadder :
    ℕ → OrderSide → PriceLevelStore → ℕ → (ℕ → Bool) → List PriceLevelView → Type 0
IsLadder stock_locate side s zero within [] = Unit
IsLadder stock_locate side s zero within (w ∷ ws) = ⊥
IsLadder stock_locate side s (suc room) within [] =
    (raw : ℕ) → raw < 2 ^ 32 → within raw ≡ true → is_live stock_locate side s raw ≡ false
IsLadder stock_locate side s (suc room) within (w ∷ ws) =
    IsRung stock_locate side s within w
    × IsLadder stock_locate side s room (better side w.raw_price) ws

module _ (stock_locate : ℕ) (side : OrderSide) (s : PriceLevelStore) (sound : IsSound s)
    (v : is_valid_side side ≡ true) (prepared : is_book_prepared stock_locate s ≡ true) where
  module _ (c : PriceLevelCursor) (at : IsAt stock_locate side s c) where
    page_low : c.raw_price / 65536 % 65536 ≡ c.raw_price / 65536
    page_low = omega (arith, at.low)

    matched :
        root_handle_matches c.stock_locate (c.raw_price / 65536 % 65536) c.page_handle s ≡ true
    matched =
        ap (λ l. root_handle_matches l (c.raw_price / 65536 % 65536) c.page_handle s) at.locate
        ∙ (ap (λ p. root_handle_matches stock_locate p c.page_handle s) page_low
            ∙ (ap (λ h. root_handle_matches stock_locate (c.raw_price / 65536) h s) at.handle
                ∙ matches stock_locate side s sound v prepared (c.raw_price / 65536) at.low
                    (omega (arith, at.handle, at.some_page))))

    used : c.page_handle ≤ s.committed_pages
    used =
        let (h, _, _) =
          sound.rooted stock_locate (c.raw_price / 65536) at.low
            (omega (arith, at.handle, at.some_page)) in
        omega (arith, h, at.handle)

    live_price : is_live stock_locate side s c.raw_price ≡ true
    unfolding level_at
    live_price = ground (arith, at.handle, at.some_page, at.live)

    pub view-view_at : view c side s ≡ some (view_at stock_locate side c.raw_price s)
    unfolding view resolve_level validate_address level_at is_book_prepared
    view-view_at =
        ground (arith, prepared, matched, used, at.some_page, at.handle, at.live, at.locate, v)

    view_at-IsRung :
        (within : ℕ → Bool)
        → within c.raw_price ≡ true
        → ((raw : ℕ)
            → raw < 2 ^ 32
            → within raw ≡ true
            → better side raw c.raw_price ≡ true
            → is_live stock_locate side s raw ≡ false)
        → IsRung stock_locate side s within (view_at stock_locate side c.raw_price s)
    view_at-IsRung within w gap = record {
      price_low = omega (arith, at.low);
      inside = w;
      shown = refl;
      live = live_price;
      top = gap;
    }

  top_loop-IsLadder :
      (room : ℕ) (within : ℕ → Bool) (o : Option PriceLevelCursor)
      → Leads stock_locate side s within o
      → IsLadder stock_locate side s room within (top_loop room stock_locate side o s)
  unfolding IsLadder top_loop
  top_loop-IsLadder zero within o l = tt
  top_loop-IsLadder (suc room) within o (nowhere e all) =
      subst
        (λ x.
          IsLadder stock_locate side s (suc room) within
            (top_loop (suc room) stock_locate side x s))
        (sym e) all
  top_loop-IsLadder (suc room) within o (leads_to c e at w gap) =
      let rest = top_loop room stock_locate side (next_worse stock_locate side c s) s in
      let others =
        top_loop-IsLadder room (better side c.raw_price) (next_worse stock_locate side c s)
          (next_worse-Leads stock_locate side s sound v prepared c at) in
      subst
        (λ x.
          IsLadder stock_locate side s (suc room) within
            (top_loop (suc room) stock_locate side x s))
        (sym e)
        (subst
          (λ x.
            IsLadder stock_locate side s (suc room) within
              (elim x [ none ↦ [] | some u ↦ u ∷ rest ]))
          (sym (view-view_at c at)) (view_at-IsRung c at within w gap, others))

  -- topTen shows a book as it is: in a sound store, for a prepared book and a side, the views are those
  -- of the best live price, of the best one worse than it, and so on, each with the total quantity and
  -- the number of orders at its price, until the room or ten levels are full or no live price is left.
  pub top_ten-IsLadder :
      (room : ℕ)
      → IsLadder stock_locate side s
          (min room top_level_count)
          (λ _. true)
          (top_ten stock_locate side room s)
  unfolding top_ten
  top_ten-IsLadder room =
      top_loop-IsLadder (min room top_level_count) (λ _. true) (best stock_locate side s)
        (best-Leads stock_locate side s sound v prepared)
