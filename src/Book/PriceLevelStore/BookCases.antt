-- ===== src/Book/PriceLevelStore/BookCases.antt =====
-- src/book/PriceLevelStore.cpp, validateDeactivation: the cases of the book's part of the plan. The
-- level is not the best one of the book, or its page keeps other levels.
use astra_feed_engine.Prelude.{
  ℕ, ◌/◌, ◌%◌, ◌≤◌, ◌<◌, ◌≡◌, inl, inr, refl, sym, ◌∙◌, ap, Bool, true, false, ◌==◌, ==_refl,
  if◌then◌else◌, arith, if_true, if_false, Bool-cases, true-ne-false, count, count_one,
}
use astra_feed_engine.Book.{OrderSide, is_valid_side}
use astra_feed_engine.Book.PriceLevelStore.{
  PageSideSummary, BookSideSummary, PriceLevelStore, join_price,
}
use astra_feed_engine.Book.PriceLevelStore.Additions.{page_summary, book_summary}
use astra_feed_engine.Book.PriceLevelStore.Deactivation.{
  DeactivationPlan, planned, plan_book, index_or_zero,
}
use astra_feed_engine.Book.PriceLevelStore.Ranking.{leave-IsRanked}
use astra_feed_engine.Book.PriceLevelStore.Soundness.{
  IsSound, IsRanked-cong, IsRanked-eq, has_orders, has_levels, root_of,
}
use astra_feed_engine.Book.PriceLevelStore.Preservation.{IsAgreed}
use astra_feed_engine.Book.PriceLevelStore.PagePlan.{IsPagePlan, only_best}
use astra_feed_engine.Book.PriceLevelStore.BookPlan.{
  left_page, left_book, left_bits, page_active, index_on, book_active, best_page_here,
  best_page_other, pages_left, pages_kept, bits_left, bits_kept,
}

module _ (s : PriceLevelStore) (sound : IsSound s) (h i : ℕ) (side : OrderSide)
    (v : is_valid_side side ≡ true) (pos : 0 < h) (used : h ≤ s.committed_pages) (low : i < 65536)
    (on : has_orders h side s i ≡ true) (plan : DeactivationPlan)
    (r : IsPagePlan side
      (has_orders h side s)
      (page_summary h side s).active_levels
      (page_summary h side s).best_level_index
      i
      plan) where
  abbrev page : PageSideSummary
  page = page_summary h side s

  abbrev locate : ℕ
  locate = (s.page_owners h).stock_locate

  abbrev index : ℕ
  index = (s.page_owners h).page_index

  abbrev book : BookSideSummary
  book = book_summary locate side s

  abbrev pages : ℕ → Bool
  pages = has_levels locate side s

  abbrev pub BookPlanned : Type 0
  BookPlanned =
      (p : DeactivationPlan) × (plan_book (record { page_handle = h; level_index = i })
          (s.page_owners h) side (page.best_level_index == i) book plan s
        ≡ planned p)
      × (p.page_becomes_empty ≡ plan.page_becomes_empty)
      × (p.page_best_changes ≡ plan.page_best_changes)
      × (p.next_level_index ≡ plan.next_level_index)
      × IsAgreed h side (left_page h side s p) (left_book h side s p) (left_bits h side s p) s

  facts : (0 < page.active_levels) × (pages index ≡ true) × (0 < book.active_pages)
  facts = (
    page_active s sound h i side v pos used low on,
    index_on s sound h i side v pos used low on,
    book_active s sound h i side v pos used low on,
  )

  here :
      (book.best_raw_price / 65536 ≡ index)
      → (book.best_page_handle ≡ h) × (book.best_raw_price % 65536 ≡ page.best_level_index)
  here = best_page_here s sound h i side v pos used low on

  -- The level is the best one of its book exactly when its page and it are the best ones.
  pub best_parts :
      (book.best_raw_price == join_price index i) ≡ true
      → (book.best_raw_price / 65536 ≡ index) × (book.best_raw_price % 65536 ≡ i)
  best_parts best =
      let e : book.best_raw_price ≡ join_price index i = ground arith in
      (omega (arith, e, low), omega (arith, e, low))

  not_best :
      (book.best_raw_price == join_price index i) ≡ false
      → book.best_raw_price / 65536 ≡ index
      → (page.best_level_index == i) ≡ false
  not_best ne e = elim (Bool-cases (page.best_level_index == i)) [
    | inl there ↦
        let (_, q) = here e in
        let q' : book.best_raw_price % 65536 ≡ i = q ∙ ground arith in
        let all : book.best_raw_price ≡ join_price index i = omega (arith, e, q') in
        absurd (true-ne-false (ground (arith, all, ne)))
    | inr other ↦ other
  ]

  -- The best level of a page after the change.
  abbrev best_after : DeactivationPlan → ℕ → ℕ
  best_after p x =
      if x == h
      then (left_page h side s p).best_level_index
      else (page_summary x side s).best_level_index

  best_after_at :
      (p : DeactivationPlan) {x : ℕ}
      → (left_book h side s p).best_page_handle ≡ x
      → best_after p (left_book h side s p).best_page_handle ≡ best_after p x
  best_after_at p e = ap (best_after p) e

  kept_level :
      (book.best_raw_price == join_price index i) ≡ false
      → plan.page_becomes_empty ≡ false
      → best_after plan book.best_page_handle
        ≡ (page_summary book.best_page_handle side s).best_level_index
  kept_level ne more = elim (Bool-cases (book.best_raw_price / 65536 == index)) [
    | inl at ↦
        let e : book.best_raw_price / 65536 ≡ index = ground arith in
        let (q, _) = here e in
        let other = not_best ne e in
        let same_best : plan.page_best_changes ≡ false = ground (arith, r.changes, other) in
        let itself : (book.best_page_handle == h) ≡ true = ground (arith, q) in
        if_true _ _ itself
        ∙ (ground (arith, more, same_best)
            ∙ ap (λ x. (page_summary x side s).best_level_index) (sym q))
    | inr away ↦ if_false _ _ (best_page_other s sound h i side v pos used low on away)
  ]

  -- Neither the page nor the book loses its best level.
  pub kept_case :
      (book.best_raw_price == join_price index i) ≡ false
      → plan.page_becomes_empty ≡ false
      → BookPlanned
  unfolding plan_book
  kept_case ne more =
      let (some_level, _, some_page) = facts in
      let more' : (page.active_levels == 1) ≡ false = sym r.empties ∙ more in
      let b = sound.summed locate side v in
      let (lv, sh) = bits_kept s sound h i side v pos used low on plan more more' in
      let off = r.untouched in
      (
        plan,
        ground (arith, ne, more),
        refl,
        refl,
        refl,
        record {
          ranked =
              IsRanked-eq
                (IsRanked-cong b.ranked
                  (pages_kept s sound h i side v pos used low on plan more more'))
                (if_false _ _ more) (ap (λ x. x / 65536) (if_false _ _ off));
          levels = lv;
          shows = sh;
          best_handle = λ _.
              if_false _ _ off
              ∙ (b.best_handle some_page
                  ∙ sym (ap (λ x. root_of locate (x / 65536) s) (if_false _ _ off)));
          best_level = λ _.
              ap (λ x. x % 65536) (if_false _ _ off)
              ∙ (b.best_level some_page
                  ∙ sym (best_after_at plan (if_false _ _ off) ∙ kept_level ne more));
        },
      )

  -- The page becomes empty, and is not the best one.
  pub emptied_case :
      (book.best_raw_price == join_price index i) ≡ false
      → plan.page_becomes_empty ≡ true
      → BookPlanned
  unfolding plan_book
  emptied_case ne empty =
      let (some_level, index_set, some_page) = facts in
      let one : (page.active_levels == 1) ≡ true = sym r.empties ∙ empty in
      let b = sound.summed locate side v in
      let own = sound.owned h pos used in
      let (lv, sh) = bits_left s sound h i side v pos used low on plan empty in
      let off = r.untouched in
      let away : (book.best_raw_price / 65536 == index) ≡ false =
        elim (Bool-cases (book.best_raw_price / 65536 == index)) [
          | inl at ↦ absurd (
              true-ne-false
                (sym (only_best s sound h i side v pos low on one) ∙ not_best ne (ground arith)))
          | inr away ↦ away
        ] in
      let more_pages : (book.active_pages == 1) ≡ false =
        elim (Bool-cases (book.active_pages == 1)) [
          | inl single ↦
              let e : count 65536 pages ≡ 1 = sym b.ranked.counted ∙ ground arith in
              let only =
                count_one 65536 index pages e own.index_low index_set (book.best_raw_price / 65536)
                  (b.ranked.best_low some_page) (ground (arith, away)) in
              absurd (true-ne-false (sym (b.ranked.best_on some_page) ∙ only))
          | inr other ↦ other
        ] in
      let elsewhere = best_page_other s sound h i side v pos used low on away in
      (
        plan,
        ground (arith, ne, empty, more_pages),
        refl,
        refl,
        refl,
        record {
          ranked =
              IsRanked-eq
                (leave-IsRanked b.ranked index own.index_low index_set (ground (arith, away))
                  (pages_left s sound h i side v pos used low on plan empty))
                (if_true _ _ empty) (ap (λ x. x / 65536) (if_false _ _ off));
          levels = lv;
          shows = sh;
          best_handle = λ _.
              if_false _ _ off
              ∙ (b.best_handle some_page
                  ∙ sym (ap (λ x. root_of locate (x / 65536) s) (if_false _ _ off)));
          best_level = λ _.
              ap (λ x. x % 65536) (if_false _ _ off)
              ∙ (b.best_level some_page
                  ∙ sym (best_after_at plan (if_false _ _ off) ∙ if_false _ _ elsewhere));
        },
      )

  -- The best level of the book leaves a page that keeps others.
  pub next_level_case :
      (book.best_raw_price == join_price index i) ≡ true
      → plan.page_becomes_empty ≡ false
      → BookPlanned
  unfolding plan_book
  next_level_case best more =
      let (some_level, _, some_page) = facts in
      let more' : (page.active_levels == 1) ≡ false = sym r.empties ∙ more in
      let b = sound.summed locate side v in
      let own = sound.owned h pos used in
      let (e, f) = best_parts best in
      let (at, q) = here e in
      let top : (page.best_level_index == i) ≡ true = ground (arith, q, f) in
      let moves : plan.page_best_changes ≡ true = ground (arith, r.changes, more', top) in
      let k = index_or_zero plan.next_level_index in
      let small = r.next_low in
      let raw = join_price index (k % 65536) in
      let p = record plan {
        book_best_changes = true;
        next_book_raw_price = raw;
        next_book_page_handle = h;
      } in
      let (lv, sh) = bits_kept s sound h i side v pos used low on p more more' in
      let page_eq : raw / 65536 ≡ book.best_raw_price / 65536 = omega (arith, e) in
      let index_eq : raw / 65536 ≡ index = omega arith in
      let level_eq : raw % 65536 ≡ k = omega (arith, small) in
      (
        p,
        ground (arith, best, more, at, top, moves),
        refl,
        refl,
        refl,
        record {
          ranked =
              IsRanked-eq
                (IsRanked-cong b.ranked
                  (pages_kept s sound h i side v pos used low on p more more'))
                (if_false _ _ more) page_eq;
          levels = lv;
          shows = sh;
          best_handle = λ _. sym (ap (λ x. root_of locate x s) index_eq ∙ own.root);
          best_level = λ _. level_eq ∙ sym (if_true _ _ (==_refl h) ∙ ground (arith, more, moves));
        },
      )
