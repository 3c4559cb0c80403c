-- ===== src/Book/PriceLevelStore/BookPlan.antt =====
-- src/book/PriceLevelStore.cpp, validateDeactivation: in a sound store the book's part of the plan is
-- made, and it is right.
use astra_feed_engine.Prelude.{
  ℕ, ◌/◌, ◌%◌, ◌≤◌, ◌<◌, ◌≡◌, inl, inr, sym, ◌∙◌, ap, subst, Bool, true, false, not, ◌&&◌, ◌==◌,
  if◌then◌else◌, arith, if_true, if_false, Bool-cases, true-ne-false, dec_u32, dec_u32-eq, count-le,
  count-pos,
}
use astra_feed_engine.Bitmap.{PriceBitmapStorage, test}
use astra_feed_engine.Bitmap
use astra_feed_engine.Bitmap.Summaries.{TwoLevels, reset-TwoLevels, set-reset-test}
use astra_feed_engine.Book.{OrderSide, is_valid_side}
use astra_feed_engine.Book.PriceLevelStore.{
  PageSideSummary, BookSideSummary, PriceLevelStore, book_side_index,
}
use astra_feed_engine.Book.PriceLevelStore.Additions.{page_summary, book_summary}
use astra_feed_engine.Book.PriceLevelStore.Deactivation.{DeactivationPlan, index_or_zero}
use astra_feed_engine.Book.PriceLevelStore.Soundness.{IsSound, has_orders, has_levels, root_of}
use astra_feed_engine.Book.PriceLevelStore.Change.{root_owner}
use astra_feed_engine.Book.PriceLevelStore.Preservation.{repaged}

-- A side of a page, and its book's summary and bitmap, after deactivateLevel by a plan.
abbrev pub left_page : ℕ → OrderSide → PriceLevelStore → DeactivationPlan → PageSideSummary
left_page h side s p =
    if p.page_becomes_empty then record { active_levels = 0; best_level_index = 0 } else record {
      active_levels = dec_u32 (page_summary h side s).active_levels;
      best_level_index =
          if p.page_best_changes
          then index_or_zero p.next_level_index
          else (page_summary h side s).best_level_index;
    }

abbrev pub left_book : ℕ → OrderSide → PriceLevelStore → DeactivationPlan → BookSideSummary
left_book h side s p =
    let book = book_summary (s.page_owners h).stock_locate side s in
    record {
      active_pages = if p.page_becomes_empty then dec_u32 book.active_pages else book.active_pages;
      best_raw_price = if p.book_best_changes then p.next_book_raw_price else book.best_raw_price;
      best_page_handle =
          if p.book_best_changes then p.next_book_page_handle else book.best_page_handle;
    }

abbrev pub left_bits : ℕ → OrderSide → PriceLevelStore → DeactivationPlan → PriceBitmapStorage
left_bits h side s p =
    let bits = s.book_occupancy (book_side_index (s.page_owners h).stock_locate side) in
    if p.page_becomes_empty then Bitmap.reset (s.page_owners h).page_index bits else bits

module _ (s : PriceLevelStore) (sound : IsSound s) (h i : ℕ) (side : OrderSide)
    (v : is_valid_side side ≡ true) (pos : 0 < h) (used : h ≤ s.committed_pages) (low : i < 65536)
    (on : has_orders h side s i ≡ true) where
  abbrev page : PageSideSummary
  page = page_summary h side s

  abbrev locate : ℕ
  locate = (s.page_owners h).stock_locate

  abbrev index : ℕ
  index = (s.page_owners h).page_index

  abbrev book : BookSideSummary
  book = book_summary locate side s

  abbrev bits : PriceBitmapStorage
  bits = s.book_occupancy (book_side_index locate side)

  abbrev pages : ℕ → Bool
  pages = has_levels locate side s

  pub page_active : 0 < page.active_levels
  page_active =
      let t = sound.tracked h side v pos in
      omega (arith, count-pos 65536 i (has_orders h side s) low on, t.ranked.counted)

  pub index_on : pages index ≡ true
  index_on =
      let on_pos = page_active in
      ap (λ x. not (x == 0) && not ((page_summary x side s).active_levels == 0))
        (sound.owned h pos used).root
      ∙ ground (arith, pos, on_pos)

  pub book_active : 0 < book.active_pages
  book_active =
      let b = sound.summed locate side v in
      omega (
        arith,
        count-pos 65536 index pages (sound.owned h pos used).index_low index_on,
        b.ranked.counted,
      )

  -- The best page is the page of the level, or another one.
  pub best_page_here :
      (book.best_raw_price / 65536 ≡ index)
      → (book.best_page_handle ≡ h) × (book.best_raw_price % 65536 ≡ page.best_level_index)
  best_page_here e =
      let b = sound.summed locate side v in
      let at =
        b.best_handle book_active
        ∙ (ap (λ p. root_of locate p s) e ∙ (sound.owned h pos used).root) in
      (at, b.best_level book_active ∙ ap (λ x. (page_summary x side s).best_level_index) at)

  pub best_page_other :
      (book.best_raw_price / 65536 == index) ≡ false → (book.best_page_handle == h) ≡ false
  best_page_other ne = elim (Bool-cases (book.best_page_handle == h)) [
    | inl there ↦
        let b = sound.summed locate side v in
        let e : root_of locate (book.best_raw_price / 65536) s ≡ h =
          sym (b.best_handle book_active) ∙ ground arith in
        let (_, q) =
          root_owner s sound locate (book.best_raw_price / 65536) h pos
            (b.ranked.best_low book_active) e in
        absurd (true-ne-false (ground (arith, q, ne)))
    | inr other ↦ other
  ]

  -- The pages after the page becomes empty, or keeps levels.
  pub pages_left :
      (p : DeactivationPlan)
      → p.page_becomes_empty ≡ true
      → (j : ℕ) → j < 65536
      → repaged h side (left_page h side s p) s j ≡ (not (j == index) && pages j)
  pages_left p e j k = ground (arith, e)

  pub left_active : (page.active_levels == 1) ≡ false → (dec_u32 page.active_levels == 0) ≡ false
  left_active more =
      let t = sound.tracked h side v pos in
      let on_pos = page_active in
      let eq =
        dec_u32-eq page.active_levels on_pos
          (omega (arith, t.ranked.counted, count-le 65536 (has_orders h side s))) in
      ground (arith, eq, more, on_pos)

  pub pages_kept :
      (p : DeactivationPlan)
      → p.page_becomes_empty ≡ false
      → (page.active_levels == 1) ≡ false
      → (j : ℕ) → j < 65536
      → repaged h side (left_page h side s p) s j ≡ pages j
  pages_kept p e more j k = elim (Bool-cases (j == index)) [
    | inl here ↦
        let q : j ≡ index = ground arith in
        let on_pos = left_active more in
        if_true _ _ here ∙ (ground (arith, e, on_pos) ∙ sym (ap pages q ∙ index_on))
    | inr other ↦ if_false _ _ other
  ]

  -- The bitmap of the book after that.
  pub bits_left :
      (p : DeactivationPlan)
      → p.page_becomes_empty ≡ true
      → TwoLevels (left_bits h side s p)
        × ((j : ℕ)
            → j < 65536
            → test j (left_bits h side s p) ≡ repaged h side (left_page h side s p) s j)
  bits_left p e =
      let b = sound.summed locate side v in
      let eq : left_bits h side s p ≡ Bitmap.reset index bits = if_true _ _ e in
      (
        subst TwoLevels (sym eq) (reset-TwoLevels index bits b.levels),
        λ j k.
            ap (test j) eq
            ∙ ((set-reset-test index j bits).1
                ∙ (ap (λ x. not (j == index) && x) (b.shows j k) ∙ sym (pages_left p e j k))),
      )

  pub bits_kept :
      (p : DeactivationPlan)
      → p.page_becomes_empty ≡ false
      → (page.active_levels == 1) ≡ false
      → TwoLevels (left_bits h side s p)
        × ((j : ℕ)
            → j < 65536
            → test j (left_bits h side s p) ≡ repaged h side (left_page h side s p) s j)
  bits_kept p e more =
      let b = sound.summed locate side v in
      let eq : left_bits h side s p ≡ bits = if_false _ _ e in
      (
        subst TwoLevels (sym eq) b.levels,
        λ j k. ap (test j) eq ∙ (b.shows j k ∙ sym (pages_kept p e more j k)),
      )
