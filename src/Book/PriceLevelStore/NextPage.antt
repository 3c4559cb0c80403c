-- ===== src/Book/PriceLevelStore/NextPage.antt =====
-- src/book/PriceLevelStore.cpp, validateDeactivation: the last level of the best page leaves, and the
-- book turns to its next page, or becomes empty. With BookCases these are all cases.
use astra_feed_engine.Prelude.{
  ℕ, ◌-◌, ◌/◌, ◌%◌, ◌≤◌, ◌<◌, ◌≡◌, inl, inr, refl, sym, ◌∙◌, ap, subst, Bool, true, false, not,
  ◌&&◌, ◌==◌, ltb, arith, if_true, if_false, Bool-cases, true-ne-false, dec_u32-eq, count,
  count_one,
}
use astra_feed_engine.Book.{OrderSide, is_valid_side}
use astra_feed_engine.Book.PriceLevelStore.{
  PageSideSummary, BookSideSummary, PriceLevelStore, join_price, book_side_index, page_handle_of,
  root_handle_matches,
}
use astra_feed_engine.Book.PriceLevelStore.Additions.{better, page_summary, book_summary}
use astra_feed_engine.Book.PriceLevelStore.Deactivation.{
  DeactivationPlan, plan_book, plan_next_page, is_empty_level,
}
use astra_feed_engine.Book.PriceLevelStore.Ranking.{
  leave_last-IsRanked, leave_best-IsRanked, has_other, better_irrefl,
}
use astra_feed_engine.Book.PriceLevelStore.NextWorse.{none_worse, next, next_worse_index-WorseThan}
use astra_feed_engine.Book.PriceLevelStore.Soundness.{
  IsSound, IsRanked-eq, level_of, has_orders, has_levels, root_of,
}
use astra_feed_engine.Book.PriceLevelStore.Change.{root_owner}
use astra_feed_engine.Book.PriceLevelStore.Preservation.{IsAgreed}
use astra_feed_engine.Book.PriceLevelStore.PagePlan.{IsPagePlan, orders-not_empty}
use astra_feed_engine.Book.PriceLevelStore.BookPlan.{
  left_page, left_book, left_bits, index_on, book_active, best_page_here, pages_left, bits_left,
}
use astra_feed_engine.Book.PriceLevelStore.BookCases.{
  BookPlanned, best_parts, kept_case, emptied_case, next_level_case,
}

module _ (s : PriceLevelStore) (sound : IsSound s) (h i : ℕ) (side : OrderSide)
    (v : is_valid_side side ≡ true) (pos : 0 < h) (used : h ≤ s.committed_pages) (low : i < 65536)
    (on : has_orders h side s i ≡ true) (plan : DeactivationPlan)
    (r : IsPagePlan side
      (has_orders h side s)
      (page_summary h side s).active_levels
      (page_summary h side s).best_level_index
      i
      plan) where
  abbrev page : PageSideSummary
  page = page_summary h side s

  abbrev locate : ℕ
  locate = (s.page_owners h).stock_locate

  abbrev index : ℕ
  index = (s.page_owners h).page_index

  abbrev book : BookSideSummary
  book = book_summary locate side s

  abbrev pages : ℕ → Bool
  pages = has_levels locate side s

  -- The next best page, as its root names it.
  next_page_found :
      (k : ℕ)
      → k < 65536
      → pages k ≡ true
      → let g = page_handle_of locate (k % 65536) s in
        (g ≡ root_of locate k s)
        × ((g == 0) ≡ false)
        × (((page_summary g side s).active_levels == 0) ≡ false)
        × ((page_summary g side s).best_level_index < 65536)
        × (is_empty_level (level_of g side ((page_summary g side s).best_level_index % 65536) s)
            ≡ false)
  unfolding page_handle_of root_handle_matches
  next_page_found k small set =
      let g = root_of locate k s in
      let m : k % 65536 ≡ k = omega (arith, small) in
      let some_root : (g == 0) ≡ false = ground (arith, set) in
      let some_level : ((page_summary g side s).active_levels == 0) ≡ false = ground (arith, set) in
      let positive : 0 < (page_summary g side s).active_levels = ground (arith, some_level) in
      let (inside, a, b) = sound.rooted locate k small (ground (arith, some_root)) in
      let g_pos : 0 < g = ground (arith, some_root) in
      let own = sound.owned g g_pos inside in
      let mine = sound.owned h pos used in
      let t = sound.tracked g side v g_pos in
      let best = (page_summary g side s).best_level_index in
      let low_best = t.ranked.best_low positive in
      let m2 : best % 65536 ≡ best = omega (arith, low_best) in
      let full =
        orders-not_empty (level_of g side best s) (sound.filled g side best v)
          (t.ranked.best_on positive) in
      let full' = subst (λ x. is_empty_level (level_of g side x s) ≡ false) (sym m2) full in
      let live = own.committed in
      let loc = mine.locate_pos in
      let handle : page_handle_of locate (k % 65536) s ≡ g =
        subst (λ x. page_handle_of locate x s ≡ g) (sym m)
          (ground (arith, inside, a, b, some_root, live, loc)) in
      (
        handle,
        subst (λ x. (x == 0) ≡ false) (sym handle) some_root,
        subst (λ x. ((page_summary x side s).active_levels == 0) ≡ false) (sym handle) some_level,
        subst (λ x. (page_summary x side s).best_level_index < 65536) (sym handle) low_best,
        subst
            (λ x.
              is_empty_level (level_of x side ((page_summary x side s).best_level_index % 65536) s)
              ≡ false)
            (sym handle) full',
      )

  -- The plan for the next best page.
  abbrev next_page_plan : ℕ → DeactivationPlan
  next_page_plan k =
      let g = page_handle_of locate (k % 65536) s in
      record plan {
        book_best_changes = true;
        next_book_raw_price =
            join_price (k % 65536) ((page_summary g side s).best_level_index % 65536);
        next_book_page_handle = g;
      }

  next_page-IsAgreed :
      (k : ℕ)
      → plan.page_becomes_empty ≡ true
      → book.best_raw_price / 65536 ≡ index
      → k < 65536
      → pages k ≡ true
      → better side index k ≡ true
      → ((j : ℕ)
          → j < 65536
          → better side index j ≡ true
          → better side j k ≡ true
          → pages j ≡ false)
      → 1 < book.active_pages
      → IsAgreed h side
          (left_page h side s (next_page_plan k))
          (left_book h side s (next_page_plan k))
          (left_bits h side s (next_page_plan k))
          s
  next_page-IsAgreed k empty e small set worse gap more =
      let b = sound.summed locate side v in
      let p = next_page_plan k in
      let (handle, some_root, _, best_small, _) = next_page_found k small set in
      let g = page_handle_of locate (k % 65536) s in
      let best = (page_summary g side s).best_level_index in
      let (lv, sh) = bits_left s sound h i side v pos used low on p empty in
      let m : k % 65536 ≡ k = omega (arith, small) in
      let m2 : best % 65536 ≡ best = omega (arith, best_small) in
      let page_eq : join_price (k % 65536) (best % 65536) / 65536 ≡ k = omega (arith, m) in
      let level_eq : join_price (k % 65536) (best % 65536) % 65536 ≡ best = omega (arith, m2) in
      let elsewhere : (g == h) ≡ false = elim (Bool-cases (g == h)) [
        | inl there ↦
            let at : root_of locate k s ≡ h = sym handle ∙ ground arith in
            let (_, q) = root_owner s sound locate k h pos small at in
            absurd
              (true-ne-false (sym worse ∙ (ap (λ x. better side x k) q ∙ better_irrefl side k)))
        | inr other ↦ other
      ] in
      record {
        ranked =
            IsRanked-eq
              (leave_best-IsRanked b.ranked k more small
                (subst (λ x. better side x k ≡ true) (sym e) worse) set
                (λ j l.
                  pages_left s sound h i side v pos used low on p empty j l
                  ∙ ap (λ x. not (j == x) && pages j) (sym e))
                (λ j l a c. gap j l (subst (λ x. better side x j ≡ true) e a) c))
              (if_true _ _ empty) page_eq;
        levels = lv;
        shows = sh;
        best_handle = λ _. handle ∙ ap (λ x. root_of locate x s) (sym page_eq);
        best_level = λ _. level_eq ∙ sym (if_false _ _ elsewhere);
      }

  -- The last level of the last page leaves.
  last_page :
      (p : DeactivationPlan)
      → p.page_becomes_empty ≡ true
      → book.active_pages ≡ 1
      → IsAgreed h side (left_page h side s p) (left_book h side s p) (left_bits h side s p) s
  last_page p empty single =
      let index_set = index_on s sound h i side v pos used low on in
      let some_page = book_active s sound h i side v pos used low on in
      let b = sound.summed locate side v in
      let own = sound.owned h pos used in
      let (lv, sh) = bits_left s sound h i side v pos used low on p empty in
      let none_left : (left_book h side s p).active_pages ≡ 0 =
        if_true _ _ empty
        ∙ (dec_u32-eq book.active_pages some_page (omega arith) ∙ ap (λ x. x - 1) single) in
      record {
        ranked =
            IsRanked-eq
              (leave_last-IsRanked b.ranked index ((left_book h side s p).best_raw_price / 65536)
                own.index_low index_set single
                (pages_left s sound h i side v pos used low on p empty))
              none_left refl;
        levels = lv;
        shows = sh;
        best_handle = λ page_left. absurd (not_positive page_left none_left);
        best_level = λ page_left. absurd (not_positive page_left none_left);
      }
    where
      not_positive : {n : ℕ} → 0 < n → n ≡ 0 → ⊥
      not_positive page_left z = omega arith

  -- With a worse page in the book, there are two.
  two_pages :
      (k : ℕ) → k < 65536 → better side index k ≡ true → pages k ≡ true → 1 < book.active_pages
  two_pages k small worse set =
      let index_set = index_on s sound h i side v pos used low on in
      let some_page = book_active s sound h i side v pos used low on in
      let b = sound.summed locate side v in
      let own = sound.owned h pos used in
      elim (Bool-cases (ltb 1 book.active_pages)) [
        | inl more ↦ ground arith
        | inr less ↦
            let e : count 65536 pages ≡ 1 =
              sym b.ranked.counted ∙ ground (arith, less, some_page) in
            elim (Bool-cases (k == index)) [
              | inl here ↦
                  let q : k ≡ index = ground arith in
                  absurd (
                    true-ne-false
                      (sym worse ∙ (ap (better side index) q ∙ better_irrefl side index)))
              | inr other ↦
                  let off =
                    count_one 65536 index pages e own.index_low index_set k small (ground arith) in
                  absurd (true-ne-false (sym set ∙ off))
            ]
      ]

  -- The best level of the book leaves its page empty.
  next_page_case :
      (book.best_raw_price == join_price index i) ≡ true
      → plan.page_becomes_empty ≡ true
      → BookPlanned s sound h i side v pos used low on plan r
  unfolding plan_book plan_next_page
  next_page_case best empty =
      let index_set = index_on s sound h i side v pos used low on in
      let some_page = book_active s sound h i side v pos used low on in
      let b = sound.summed locate side v in
      let own = sound.owned h pos used in
      let (e, f) = best_parts s sound h i side v pos used low on plan r best in
      let (at, q) = best_page_here s sound h i side v pos used low on e in
      let top : (page.best_level_index == i) ≡ true = ground (arith, q, f) in
      elim (next_worse_index-WorseThan pages (s.book_occupancy (book_side_index locate side))
        b.levels b.shows side index own.index_low) [
          | none_worse found gap ↦
              let single : book.active_pages ≡ 1 = elim (Bool-cases (ltb 1 book.active_pages)) [
                | inl more ↦ absurd (
                    has_other b.ranked (ground arith) (
                      subst (λ x. (j : ℕ) → j < 65536 → better side x j ≡ true → pages j ≡ false)
                        (sym e) gap))
                | inr less ↦ ground (arith, less, some_page)
              ] in
              let p = record plan { book_best_changes = true } in
              (
                p,
                ground (arith, best, empty, at, top, found, single),
                refl,
                refl,
                refl,
                last_page p empty single,
              )
          | next k found small worse set gap ↦
              let more_pages = two_pages k small worse set in
              let (handle, some_root, some_level_k, best_small, full) =
                next_page_found k small set in
              (
                next_page_plan k,
                ground (
                  arith, best, empty, at, top, found, more_pages, some_root, some_level_k,
                  best_small, full,
                ),
                refl,
                refl,
                refl,
                next_page-IsAgreed k empty e small set worse gap more_pages,
              )
        ]

  pub plan_book-IsAgreed : BookPlanned s sound h i side v pos used low on plan r
  plan_book-IsAgreed = elim (Bool-cases (book.best_raw_price == join_price index i)) [
    | inl best ↦ elim (Bool-cases plan.page_becomes_empty) [
      | inl empty ↦ next_page_case best empty
      | inr more ↦ next_level_case s sound h i side v pos used low on plan r best more
    ]
    | inr ne ↦ elim (Bool-cases plan.page_becomes_empty) [
      | inl empty ↦ emptied_case s sound h i side v pos used low on plan r ne empty
      | inr more ↦ kept_case s sound h i side v pos used low on plan r ne more
    ]
  ]
