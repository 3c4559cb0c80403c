-- ===== src/Book/PriceLevelStore/PagePlan.antt =====
-- src/book/PriceLevelStore.cpp, validateDeactivation: in a sound store the page's part of the plan is
-- made, and it is right.
use astra_feed_engine.Prelude.{
  ℕ, ◌/◌, ◌%◌, ◌<◌, ◌≡◌, inl, inr, refl, sym, ◌∙◌, ap, subst, Bool, true, false, not, ◌&&◌, ◌||◌,
  some, ◌==◌, if◌then◌else◌, arith, Bool-cases, true-ne-false, dec_u32, count, count-pos, count_one,
}
use astra_feed_engine.Bitmap.{PriceBitmapStorage, test, empty, valid_l2_mask, and_word}
use astra_feed_engine.Bitmap.Search.{shown}
use astra_feed_engine.Bitmap.Summaries.{TwoLevels, TwoLevels-IsSummarised, nonzero_of}
use astra_feed_engine.Book.{OrderSide, is_valid_side}
use astra_feed_engine.Book.PriceLevelStore.{
  PriceLevelState, PriceAddress, PageSideSummary, PriceLevelStore, page_side_index,
}
use astra_feed_engine.Book.PriceLevelStore.Additions.{better, page_summary}
use astra_feed_engine.Book.PriceLevelStore.Deactivation.{
  DeactivationPlan, no_plan, planned, plan_page, is_empty_level, index_or_zero,
}
use astra_feed_engine.Book.PriceLevelStore.Ranking.{
  IsRanked, leave-IsRanked, leave_best-IsRanked, has_other,
}
use astra_feed_engine.Book.PriceLevelStore.NextWorse.{none_worse, next, next_worse_index-WorseThan}
use astra_feed_engine.Book.PriceLevelStore.Soundness.{IsFilled, IsSound, level_of, has_orders}

-- A bitmap with a set index is not empty.
pub set-not_empty :
    (bitmap : PriceBitmapStorage)
    → TwoLevels bitmap
    → (j : ℕ) → test j bitmap ≡ true
    → empty bitmap ≡ false
unfolding empty
set-not_empty bitmap t j on =
    let ok = TwoLevels-IsSummarised bitmap t in
    let (_, two) = shown bitmap ok j on in
    let r = ok.range (j / 64 / 64) two in
    nonzero_of (and_word bitmap.l2 valid_l2_mask) (j / 64 / 64) (omega arith)
      (ground (arith, two, r))

-- A level with orders has shares.
pub orders-not_empty :
    (level : PriceLevelState)
    → IsFilled level
    → not (level.order_count == 0) ≡ true
    → is_empty_level level ≡ false
orders-not_empty level f on = let a = f.agree in ground (arith, a, on)

-- The page's part of the plan, for a page with `active` levels of which `best` is the best: `i` leaves.
pub record IsPagePlan (side : OrderSide) (occ : ℕ → Bool) (active best i : ℕ)
    (plan : DeactivationPlan) : Type 0 where
  pub empties : plan.page_becomes_empty ≡ (active == 1)
  pub changes : plan.page_best_changes ≡ (not (active == 1) && best == i)
  pub untouched : plan.book_best_changes ≡ false
  pub no_handle : plan.next_book_page_handle ≡ 0
  pub next_low : index_or_zero plan.next_level_index < 65536
  pub ranked :
      (active == 1) ≡ false
      → IsRanked side
          (λ j. not (j == i) && occ j)
          (dec_u32 active)
          (if plan.page_best_changes then index_or_zero plan.next_level_index else best)

module _ (s : PriceLevelStore) (sound : IsSound s) (h i : ℕ) (side : OrderSide)
    (v : is_valid_side side ≡ true) (pos : 0 < h) (low : i < 65536)
    (on : has_orders h side s i ≡ true) where
  abbrev page : PageSideSummary
  page = page_summary h side s

  abbrev bitmap : PriceBitmapStorage
  bitmap = s.page_occupancy (page_side_index h side)

  abbrev occ : ℕ → Bool
  occ = has_orders h side s

  abbrev address : PriceAddress
  address = record { page_handle = h; level_index = i }

  some_level : 0 < page.active_levels
  some_level =
      let t = sound.tracked h side v pos in
      omega (arith, count-pos 65536 i occ low on, t.ranked.counted)

  -- The only level is the best one.
  pub only_best : (page.active_levels == 1) ≡ true → (page.best_level_index == i) ≡ true
  only_best one = elim (Bool-cases (page.best_level_index == i)) [
    | inl here ↦ here
    | inr other ↦
        let t = sound.tracked h side v pos in
        let e : count 65536 occ ≡ 1 = sym t.ranked.counted ∙ ground arith in
        let off =
          count_one 65536 i occ e low on page.best_level_index (t.ranked.best_low some_level)
            (ground arith) in
        absurd (true-ne-false (sym (t.ranked.best_on some_level) ∙ off))
  ]

  abbrev pub PagePlanned : Type 0
  PagePlanned =
      (plan : DeactivationPlan) × (plan_page address side page s ≡ planned plan)
      × IsPagePlan side occ page.active_levels page.best_level_index i plan

  single_plan : (page.active_levels == 1) ≡ true → PagePlanned
  unfolding plan_page
  single_plan one =
      let here = only_best one in
      (
        record no_plan { page_becomes_empty = true },
        ground (arith, one, here),
        record {
          empties = sym one;
          changes = ground (arith, one);
          untouched = refl;
          no_handle = refl;
          next_low = omega arith;
          ranked = λ more. absurd (true-ne-false (sym one ∙ more));
        },
      )

  more_than_one : (page.active_levels == 1) ≡ false → 1 < page.active_levels
  more_than_one more = let on_pos = some_level in ground (arith, more, on_pos)

  -- The tests on the bitmap of the page pass.
  bitmap_fine :
      (page.active_levels == 1) ≡ false
      → (empty bitmap || not (test i bitmap) || not (test page.best_level_index bitmap)) ≡ false
  bitmap_fine more =
      let t = sound.tracked h side v pos in
      let two = more_than_one more in
      let best =
        t.many two page.best_level_index (t.ranked.best_low some_level)
        ∙ t.ranked.best_on some_level in
      let here = t.many two i low ∙ on in
      let full = set-not_empty bitmap t.levels i here in ground (arith, best, here, full)

  kept_plan : (page.active_levels == 1) ≡ false → (page.best_level_index == i) ≡ false → PagePlanned
  unfolding plan_page
  kept_plan more other =
      let t = sound.tracked h side v pos in
      let fine = bitmap_fine more in
      (
        no_plan,
        ground (arith, more, other, fine),
        record {
          empties = sym more;
          changes = ground (arith, more, other);
          untouched = refl;
          no_handle = refl;
          next_low = omega arith;
          ranked = λ _. leave-IsRanked t.ranked i low on (ground arith) (λ j k. refl);
        },
      )

  next_plan : (page.active_levels == 1) ≡ false → (page.best_level_index == i) ≡ true → PagePlanned
  unfolding plan_page
  next_plan more best =
      let t = sound.tracked h side v pos in
      let two = more_than_one more in
      let fine = bitmap_fine more in
      let e : page.best_level_index ≡ i = ground arith in
      elim (next_worse_index-WorseThan occ bitmap t.levels (t.many two) side i low) [
        | none_worse _ gap ↦ absurd (
            has_other t.ranked two (
              subst (λ x. (j : ℕ) → j < 65536 → better side x j ≡ true → occ j ≡ false) (sym e)
                gap))
        | next k found small worse on_k gap ↦
            let at : k % 65536 ≡ k = omega arith in
            let full = orders-not_empty (level_of h side k s) (sound.filled h side k v) on_k in
            let full' = subst (λ x. is_empty_level (level_of h side x s) ≡ false) (sym at) full in
            (
              record no_plan { next_level_index = some k; page_best_changes = true },
              ground (arith, more, best, fine, found, full'),
              record {
                empties = sym more;
                changes = ground (arith, more, best);
                untouched = refl;
                no_handle = refl;
                next_low = small;
                ranked = λ _.
                    leave_best-IsRanked t.ranked k two small
                      (subst (λ x. better side x k ≡ true) (sym e) worse) on_k
                      (λ j m. ap (λ x. not (j == x) && occ j) (sym e))
                      (λ j m b c. gap j m (subst (λ x. better side x j ≡ true) e b) c);
              },
            )
      ]

  pub plan_page-IsPagePlan : PagePlanned
  plan_page-IsPagePlan = elim (Bool-cases (page.active_levels == 1)) [
    | inl one ↦ single_plan one
    | inr more ↦ elim (Bool-cases (page.best_level_index == i)) [
      | inl best ↦ next_plan more best
      | inr other ↦ kept_plan more other
    ]
  ]
