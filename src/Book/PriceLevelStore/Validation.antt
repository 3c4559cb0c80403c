-- ===== src/Book/PriceLevelStore/Validation.antt =====
-- src/book/PriceLevelStore.cpp, validateDeactivation: in a sound store none of its tests fails, so the
-- last order of a level can always leave.
use astra_feed_engine.Prelude.{
  ℕ, ◌/◌, ◌%◌, ◌≤◌, ◌<◌, ◌≡◌, ◌≢◌, refl, sym, ◌∙◌, ap, subst, true, false, not, ◌&&◌, ◌==◌,
  if◌then◌else◌, arith, dec_u32, count-le,
}
use astra_feed_engine.Book.{MutationResult, OrderSide, is_valid_side}
use astra_feed_engine.Book.PriceLevelStore.{
  PageOwner, PageSideSummary, BookSideSummary, PriceLevelStore, book_side_index,
}
use astra_feed_engine.Book.PriceLevelStore.Additions.{page_summary, book_summary}
use astra_feed_engine.Book.PriceLevelStore.Deactivation.{
  DeactivationPlan, planned, is_broken_summary, is_broken_best, is_empty_level, plan_book,
  validate_deactivation, index_or_zero,
}
use astra_feed_engine.Book.PriceLevelStore.Ranking.{IsRanked}
use astra_feed_engine.Book.PriceLevelStore.Soundness.{
  IsSound, IsRanked-eq, level_of, has_orders, has_levels, root_of,
}
use astra_feed_engine.Book.PriceLevelStore.Preservation.{IsAgreed}
use astra_feed_engine.Book.PriceLevelStore.PagePlan.{plan_page-IsPagePlan, orders-not_empty}
use astra_feed_engine.Book.PriceLevelStore.BookPlan.{
  left_page, left_book, left_bits, page_active, index_on, book_active,
}
use astra_feed_engine.Book.PriceLevelStore.NextPage.{plan_book-IsAgreed}

-- A plan after which the summaries are right again.
pub record IsRightPlan (h i : ℕ) (side : OrderSide) (s : PriceLevelStore) (p : DeactivationPlan)
    : Type 0 where
  pub empties : p.page_becomes_empty ≡ ((page_summary h side s).active_levels == 1)
  pub ranked :
      ((page_summary h side s).active_levels == 1) ≡ false
      → IsRanked side
          (λ j. not (j == i) && has_orders h side s j)
          (dec_u32 (page_summary h side s).active_levels)
          (if p.page_best_changes
            then index_or_zero p.next_level_index
            else (page_summary h side s).best_level_index)
  pub agreed :
      IsAgreed h side (left_page h side s p) (left_book h side s p) (left_bits h side s p) s

module _ (s : PriceLevelStore) (sound : IsSound s) (h i : ℕ) (side : OrderSide)
    (v : is_valid_side side ≡ true) (pos : 0 < h) (used : h ≤ s.committed_pages) (low : i < 65536)
    (on : has_orders h side s i ≡ true) where
  abbrev o : PageOwner
  o = s.page_owners h

  abbrev page : PageSideSummary
  page = page_summary h side s

  abbrev book : BookSideSummary
  book = book_summary o.stock_locate side s

  summary_fine :
      is_broken_summary o page book (s.book_occupancy (book_side_index o.stock_locate side)) ≡ false
  unfolding is_broken_summary
  summary_fine =
      let t = sound.tracked h side v pos in
      let b = sound.summed o.stock_locate side v in
      let own = sound.owned h pos used in
      let levels_on = page_active s sound h i side v pos used low on in
      let pages_on = book_active s sound h i side v pos used low on in
      let shown_here =
        b.shows o.page_index own.index_low ∙ index_on s sound h i side v pos used low on in
      let levels_low : page.active_levels ≤ 65536 =
        omega (arith, t.ranked.counted, count-le 65536 (has_orders h side s)) in
      let pages_low : book.active_pages ≤ 65536 =
        omega (arith, b.ranked.counted, count-le 65536 (has_levels o.stock_locate side s)) in
      let best = t.ranked.best_low levels_on in
      let handle : (book.best_page_handle == 0) ≡ false =
        ground (arith, b.best_handle pages_on, b.ranked.best_on pages_on) in
      ground (arith, levels_on, pages_on, shown_here, levels_low, pages_low, best, handle)

  best_fine : is_broken_best o book side s ≡ false
  unfolding is_broken_best
  best_fine =
      let b = sound.summed o.stock_locate side v in
      let pages_on = book_active s sound h i side v pos used low on in
      let p = book.best_raw_price / 65536 in
      let p_low = b.ranked.best_low pages_on in
      let g = book.best_page_handle in
      let at = b.best_handle pages_on in
      let set = b.ranked.best_on pages_on in
      let g_pos : 0 < g = ground (arith, at, set) in
      let not_zero : root_of o.stock_locate p s ≢ 0 = ground (arith, set) in
      let (inside, l_eq, p_eq) = sound.rooted o.stock_locate p p_low not_zero in
      let l_eq' : (s.page_owners g).stock_locate ≡ o.stock_locate =
        ap (λ x. (s.page_owners x).stock_locate) at ∙ l_eq in
      let p_eq' : (s.page_owners g).page_index ≡ p =
        ap (λ x. (s.page_owners x).page_index) at ∙ p_eq in
      let inside' : g ≤ s.committed_pages = omega (arith, at, inside) in
      let own = sound.owned g g_pos inside' in
      let live = own.committed in
      let levels_on : ((page_summary g side s).active_levels == 0) ≡ false =
        ap (λ x. (page_summary x side s).active_levels == 0) at ∙ ground (arith, set) in
      let t = sound.tracked g side v g_pos in
      let best_eq = b.best_level pages_on in
      let full =
        orders-not_empty (level_of g side (page_summary g side s).best_level_index s)
          (sound.filled g side (page_summary g side s).best_level_index v)
          (t.ranked.best_on (ground (arith, levels_on))) in
      let full' : is_empty_level (level_of g side (book.best_raw_price % 65536) s) ≡ false =
        subst (λ x. is_empty_level (level_of g side x s) ≡ false) (sym best_eq) full in
      let split_eq : p % 65536 ≡ p = omega (arith, p_low) in
      ground (arith, g_pos, inside', live, l_eq', p_eq', split_eq, levels_on, best_eq, full')

  pub validate_deactivation-IsRightPlan :
      (p : DeactivationPlan) × (validate_deactivation
          (record { page_handle = h; level_index = i })
          side
          s
        ≡ planned p)
      × IsRightPlan h i side s p
  unfolding validate_deactivation
  validate_deactivation-IsRightPlan =
      let (plan, made, r) = plan_page-IsPagePlan s sound h i side v pos low on in
      let (p, done, e, c, n, a) = plan_book-IsAgreed s sound h i side v pos used low on plan r in
      let own = sound.owned h pos used in
      let live = own.committed in
      let loc = own.locate_pos in
      let fine = summary_fine in
      let fine_best = best_fine in
      let result_eq = ap (λ (x : MutationResult × DeactivationPlan). x.0) made in
      let plan_eq = ap (λ (x : MutationResult × DeactivationPlan). x.1) made in
      let done' =
        subst
          (λ x.
            plan_book (record { page_handle = h; level_index = i }) o side
              (page.best_level_index == i) book x s
            ≡ planned p)
          (sym plan_eq) done in
      (
        p,
        ground (arith, pos, used, live, loc, fine, fine_best, result_eq, done'),
        record {
          empties = e ∙ r.empties;
          ranked = λ more. IsRanked-eq (r.ranked more) refl (
              ap (λ b. if b then index_or_zero p.next_level_index else page.best_level_index) c
              ∙ ap (λ x. if plan.page_best_changes then index_or_zero x else page.best_level_index)
                  n);
          agreed = a;
        },
      )
