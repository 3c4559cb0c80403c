-- ===== src/Book/PriceLevelStore/Change.antt =====
-- src/book/PriceLevelStore.cpp: a store stays sound when one level changes together with the summaries
-- and bitmaps of its page and its book.
use astra_feed_engine.Prelude.{
  ℕ, ◌-◌, ◌≤◌, ◌<◌, ◌≡◌, inl, inr, sym, ◌∙◌, ap, subst, Bool, true, not, ◌&&◌, ◌==◌, if◌then◌else◌,
  arith, if_elim, Bool-cases,
}
use astra_feed_engine.Bitmap.{PriceBitmapStorage}
use astra_feed_engine.Book.{OrderSide, is_valid_side, side_index}
use astra_feed_engine.Book.PriceLevelStore.{
  PriceLevelState, PageSideSummary, BookSideSummary, PriceLevelStore, page_side_index,
  book_side_index,
}
use astra_feed_engine.Book.PriceLevelStore.Levels.{write_level}
use astra_feed_engine.Book.PriceLevelStore.Additions.{
  page_summary, book_summary, write_page_side, write_book_side,
}
use astra_feed_engine.Book.PriceLevelStore.Tracking.{IsTracked}
use astra_feed_engine.Book.PriceLevelStore.Soundness.{
  IsFilled, IsSound, level_of, has_orders, root_of, same_side, write_level-level_of,
}

side_index-le : (side : OrderSide) → side_index side ≤ 1
side_index-le OrderSide.no_side = omega arith
side_index-le OrderSide.buy = omega arith
side_index-le OrderSide.sell = omega arith

abbrev pub same : ℕ → OrderSide → ℕ → OrderSide → Bool
same h side h' side' = h' == h && side_index side' == side_index side

pub page_summary-write :
    (h : ℕ) (side : OrderSide) (ps : PageSideSummary) (pb : PriceBitmapStorage)
    (s : PriceLevelStore) (h' : ℕ) (side' : OrderSide)
    → page_summary h' side' (write_page_side h side ps pb s)
      ≡ (if same h side h' side' then ps else page_summary h' side' s)
page_summary-write h side ps pb s h' side' = ground arith

pub page_occupancy-write :
    (h : ℕ) (side : OrderSide) (ps : PageSideSummary) (pb : PriceBitmapStorage)
    (s : PriceLevelStore) (h' : ℕ) (side' : OrderSide)
    → (write_page_side h side ps pb s).page_occupancy (page_side_index h' side')
      ≡ (if same h side h' side' then pb else s.page_occupancy (page_side_index h' side'))
page_occupancy-write h side ps pb s h' side' =
    let a = side_index-le side in let b = side_index-le side' in ground (arith, a, b)

pub book_summary-write :
    (l : ℕ) (side : OrderSide) (bs : BookSideSummary) (bb : PriceBitmapStorage)
    (s : PriceLevelStore) (l' : ℕ) (side' : OrderSide)
    → book_summary l' side' (write_book_side l side bs bb s)
      ≡ (if same l side l' side' then bs else book_summary l' side' s)
book_summary-write l side bs bb s l' side' = ground arith

pub book_occupancy-write :
    (l : ℕ) (side : OrderSide) (bs : BookSideSummary) (bb : PriceBitmapStorage)
    (s : PriceLevelStore) (l' : ℕ) (side' : OrderSide)
    → (write_book_side l side bs bb s).book_occupancy (book_side_index l' side')
      ≡ (if same l side l' side' then bb else s.book_occupancy (book_side_index l' side'))
book_occupancy-write l side bs bb s l' side' =
    let a = side_index-le side in let b = side_index-le side' in ground (arith, a, b)

-- A root that names a page is the one of the page's owner.
pub root_owner :
    (s : PriceLevelStore)
    → IsSound s
    → (l p h : ℕ) → 0 < h
    → p < 65536
    → root_of l p s ≡ h
    → ((s.page_owners h).stock_locate ≡ l) × ((s.page_owners h).page_index ≡ p)
root_owner s sound l p h pos low e =
    let (_, a, b) = sound.rooted l p low (λ z. zero_root pos (sym e ∙ z)) in
    (
      sym (ap (λ x. (s.page_owners x).stock_locate) e) ∙ a,
      sym (ap (λ x. (s.page_owners x).page_index) e) ∙ b,
    )
  where
    zero_root : {h : ℕ} → 0 < h → h ≡ 0 → ⊥
    zero_root pos z = omega arith

-- The levels of a page with orders, after a level is written.
abbrev pub written : ℕ → ℕ → OrderSide → PriceLevelState → PriceLevelStore → ℕ → Bool
written h i side level s j = if j == i then not (level.order_count == 0) else has_orders h side s j

module _ (s : PriceLevelStore) (sound : IsSound s) (h i : ℕ) (side : OrderSide)
    (v : is_valid_side side ≡ true) (level : PriceLevelState) where
  pub write_level-IsFilled :
      IsFilled level
      → (h' : ℕ) (side' : OrderSide) (j : ℕ) → is_valid_side side' ≡ true
      → IsFilled (
          level_of h' side' j
            (write_level (record { page_handle = h; level_index = i }) side level s))
  write_level-IsFilled full h' side' j v' =
      subst IsFilled (sym (write_level-level_of h i side level s h' j side' v v'))
        (if_elim IsFilled _ (λ _. full) (λ _. sound.filled h' side' j v'))

  pub has_orders-write :
      (h' : ℕ) (side' : OrderSide) (j : ℕ)
      → is_valid_side side' ≡ true
      → 0 < h
      → 0 < h'
      → has_orders h' side'
          (write_level (record { page_handle = h; level_index = i }) side level s)
          j
        ≡ (if same h side h' side' then written h i side level s j else has_orders h' side' s j)
  has_orders-write h' side' j v' pos pos' =
      ap (λ (x : PriceLevelState). not (x.order_count == 0))
        (write_level-level_of h i side level s h' j side' v v')
      ∙ elim (Bool-cases (same h side h' side')) [
        | inl yes_same ↦
            let e : h' ≡ h = ground arith in
            let f = same_side side' side v' v (ground arith) in
            ap
              (λ x. not (
                (if x - 1 == h - 1 && side_index side' == side_index side && j == i
                  then level
                  else level_of x side' j s).order_count
                == 0))
              e
            ∙ ap
                (λ x. not (
                  (if h - 1 == h - 1 && side_index x == side_index side && j == i
                    then level
                    else level_of h x j s).order_count
                  == 0))
                f
            ∙ ground (arith, yes_same)
        | inr no_same ↦ ground (arith, no_same)
      ]

abbrev pub TrackedWith : OrderSide → (ℕ → Bool) → PageSideSummary → PriceBitmapStorage → Type 0
TrackedWith side occ page bitmap =
    IsTracked side occ page.active_levels page.best_level_index bitmap
