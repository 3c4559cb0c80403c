-- ===== src/Book/PriceLevelStore/Soundness.antt =====
-- src/book/PriceLevelStore.cpp: what holds of the store between two operations. A page's summary and
-- bitmap agree with its levels, a book's with its pages, and roots and owners name each other.
use astra_feed_engine.Prelude.{
  ℕ, ◌-◌, ◌/◌, ◌%◌, ◌^◌, ◌≤◌, ◌<◌, ◌≡◌, ◌≢◌, refl, sym, ◌∙◌, subst, Bool, true, not, ◌&&◌, ◌==◌,
  if◌then◌else◌, arith, count_cong,
}
use astra_feed_engine.Bitmap.{PriceBitmapStorage, test}
use astra_feed_engine.Bitmap.Summaries.{TwoLevels}
use astra_feed_engine.Book.{OrderSide, is_valid_side, side_index}
use astra_feed_engine.Book.PriceLevelStore.{
  PriceLevelState, PriceLevelStore, price_root_index, page_side_index, book_side_index,
}
use astra_feed_engine.Book.PriceLevelStore.Levels.{level_unchecked, write_level}
use astra_feed_engine.Book.PriceLevelStore.Additions.{page_summary, book_summary}
use astra_feed_engine.Book.PriceLevelStore.Ranking.{IsRanked}
use astra_feed_engine.Book.PriceLevelStore.Tracking.{IsTracked}

-- The quantity and the number of orders of a level fit their words, and are zero together.
pub record IsFilled (level : PriceLevelState) : Type 0 where
  pub qty_low : level.total_qty < 2 ^ 64
  pub count_low : level.order_count < 2 ^ 32
  pub agree : (level.order_count == 0) ≡ (level.total_qty == 0)

abbrev pub level_of : ℕ → OrderSide → ℕ → PriceLevelStore → PriceLevelState
level_of handle side i s = level_unchecked (record { page_handle = handle; level_index = i }) side s

-- The levels of a page that have orders, and the pages of a book that have levels.
abbrev pub has_orders : ℕ → OrderSide → PriceLevelStore → ℕ → Bool
has_orders handle side s i = not ((level_of handle side i s).order_count == 0)

abbrev pub root_of : ℕ → ℕ → PriceLevelStore → ℕ
root_of stock_locate page_index s = s.roots (price_root_index stock_locate page_index)

abbrev pub has_levels : ℕ → OrderSide → PriceLevelStore → ℕ → Bool
has_levels stock_locate side s p =
    not (root_of stock_locate p s == 0)
    && not ((page_summary (root_of stock_locate p s) side s).active_levels == 0)

-- A page in use, with its owner and its root.
pub record IsOwned (handle : ℕ) (s : PriceLevelStore) : Type 0 where
  pub root :
      root_of (s.page_owners handle).stock_locate (s.page_owners handle).page_index s ≡ handle
  pub committed : (s.page_owners handle).committed ≢ 0
  pub index_low : (s.page_owners handle).page_index < 65536
  pub locate_pos : 0 < (s.page_owners handle).stock_locate

-- One side of a book.
pub record IsSummed (stock_locate : ℕ) (side : OrderSide) (s : PriceLevelStore) : Type 0 where
  pub ranked :
      IsRanked side
        (has_levels stock_locate side s)
        (book_summary stock_locate side s).active_pages
        ((book_summary stock_locate side s).best_raw_price / 65536)
  pub levels : TwoLevels (s.book_occupancy (book_side_index stock_locate side))
  pub shows :
      (p : ℕ)
      → p < 65536
      → test p (s.book_occupancy (book_side_index stock_locate side))
        ≡ has_levels stock_locate side s p
  pub best_handle :
      0 < (book_summary stock_locate side s).active_pages
      → (book_summary stock_locate side s).best_page_handle
        ≡ root_of stock_locate ((book_summary stock_locate side s).best_raw_price / 65536) s
  pub best_level :
      0 < (book_summary stock_locate side s).active_pages
      → (book_summary stock_locate side s).best_raw_price % 65536
        ≡ (page_summary (book_summary stock_locate side s).best_page_handle side s).best_level_index

pub record IsSound (s : PriceLevelStore) : Type 0 where
  pub filled :
      (handle : ℕ) (side : OrderSide) (i : ℕ)
      → is_valid_side side ≡ true
      → IsFilled (level_of handle side i s)
  pub tracked :
      (handle : ℕ) (side : OrderSide)
      → is_valid_side side ≡ true
      → 0 < handle
      → IsTracked side
          (has_orders handle side s)
          (page_summary handle side s).active_levels
          (page_summary handle side s).best_level_index
          (s.page_occupancy (page_side_index handle side))
  pub summed :
      (stock_locate : ℕ) (side : OrderSide)
      → is_valid_side side ≡ true
      → IsSummed stock_locate side s
  pub rooted :
      (stock_locate p : ℕ)
      → p < 65536
      → root_of stock_locate p s ≢ 0
      → (root_of stock_locate p s ≤ s.committed_pages)
        × ((s.page_owners (root_of stock_locate p s)).stock_locate ≡ stock_locate)
        × ((s.page_owners (root_of stock_locate p s)).page_index ≡ p)
  pub owned : (handle : ℕ) → 0 < handle → handle ≤ s.committed_pages → IsOwned handle s
  pub unused :
      (handle : ℕ) (side : OrderSide)
      → is_valid_side side ≡ true
      → s.committed_pages < handle
      → (page_summary handle side s).active_levels ≡ 0
  pub fresh : (handle : ℕ) → s.committed_pages < handle → (s.page_owners handle).committed ≡ 0
  pub room : s.committed_pages ≤ s.config.page_capacity
  pub capacity_low : s.config.page_capacity < 2 ^ 32 - 1

-- The ranking and the tracking of two sets with the same members.
pub IsRanked-cong :
    {side : OrderSide} {f g : ℕ → Bool} {active best : ℕ}
    → IsRanked side f active best
    → ((j : ℕ) → j < 65536 → g j ≡ f j)
    → IsRanked side g active best
IsRanked-cong {side} {f} {g} {active} {best} r e = record {
  counted = r.counted ∙ sym (count_cong 65536 f g e);
  best_low = r.best_low;
  best_on = λ pos. e best (r.best_low pos) ∙ r.best_on pos;
  best_top = λ pos j k b. e j k ∙ r.best_top pos j k b;
}

pub IsRanked-eq :
    {side : OrderSide} {f : ℕ → Bool} {active best active' best' : ℕ}
    → IsRanked side f active best
    → active' ≡ active
    → best' ≡ best
    → IsRanked side f active' best'
IsRanked-eq {side} {f} {active} {best} {active'} {best'} r e d =
    subst (IsRanked side f active') (sym d) (subst (λ n. IsRanked side f n best) (sym e) r)

pub IsTracked-cong :
    {side : OrderSide} {f g : ℕ → Bool} {active best : ℕ} {bitmap : PriceBitmapStorage}
    → IsTracked side f active best bitmap
    → ((j : ℕ) → j < 65536 → g j ≡ f j)
    → IsTracked side g active best bitmap
IsTracked-cong t e = record {
  ranked = IsRanked-cong t.ranked e;
  levels = t.levels;
  many = λ more j k. t.many more j k ∙ sym (e j k);
  few = t.few;
}

pub same_side :
    (a b : OrderSide)
    → is_valid_side a ≡ true
    → is_valid_side b ≡ true
    → side_index a ≡ side_index b
    → a ≡ b
same_side OrderSide.buy OrderSide.buy u v e = refl
same_side OrderSide.sell OrderSide.sell u v e = refl
same_side OrderSide.buy OrderSide.sell u v e = ground arith
same_side OrderSide.sell OrderSide.buy u v e = ground arith
same_side OrderSide.no_side b u v e = ground arith
same_side a OrderSide.no_side u v e = ground arith

-- What a level reads as after a write.
pub write_level-level_of :
    (h i : ℕ) (side : OrderSide) (level : PriceLevelState) (s : PriceLevelStore) (h' j : ℕ)
    (side' : OrderSide)
    → is_valid_side side ≡ true
    → is_valid_side side' ≡ true
    → level_of h' side' j (write_level (record { page_handle = h; level_index = i }) side level s)
      ≡ (if h' - 1 == h - 1 && side_index side' == side_index side && j == i
          then level
          else level_of h' side' j s)
unfolding level_unchecked write_level
write_level-level_of h i OrderSide.buy level s h' j OrderSide.buy v v' = ground arith
write_level-level_of h i OrderSide.buy level s h' j OrderSide.sell v v' = ground arith
write_level-level_of h i OrderSide.sell level s h' j OrderSide.buy v v' = ground arith
write_level-level_of h i OrderSide.sell level s h' j OrderSide.sell v v' = ground arith
write_level-level_of h i OrderSide.no_side level s h' j side' v v' = ground arith
write_level-level_of h i side level s h' j OrderSide.no_side v v' = ground arith
