-- ===== src/Book/PriceLevelStore/Preservation.antt =====
-- src/book/PriceLevelStore.cpp: a store stays sound when one level changes together with the summaries
-- and bitmaps of its page and its book.
use astra_feed_engine.Prelude.{
  ℕ, ◌/◌, ◌%◌, ◌≤◌, ◌<◌, ◌≡◌, inl, inr, sym, ◌∙◌, ap, subst, Bool, true, false, not, ◌&&◌, ◌==◌,
  if◌then◌else◌, arith, if_true, if_false, Bool-cases, true-ne-false,
}
use astra_feed_engine.Bitmap.{PriceBitmapStorage, test}
use astra_feed_engine.Bitmap.Summaries.{TwoLevels}
use astra_feed_engine.Book.{OrderSide, is_valid_side}
use astra_feed_engine.Book.PriceLevelStore.{
  PriceLevelState, PageSideSummary, BookSideSummary, PriceLevelStore, page_side_index,
  book_side_index,
}
use astra_feed_engine.Book.PriceLevelStore.Levels.{level_unchecked, write_level}
use astra_feed_engine.Book.PriceLevelStore.Additions.{
  page_summary, book_summary, write_page_side, write_book_side,
}
use astra_feed_engine.Book.PriceLevelStore.Ranking.{IsRanked}
use astra_feed_engine.Book.PriceLevelStore.Soundness.{
  IsFilled, IsSummed, IsSound, has_orders, has_levels, root_of, IsRanked-cong, IsTracked-cong,
  same_side,
}
use astra_feed_engine.Book.PriceLevelStore.Change.{
  same, written, TrackedWith, has_orders-write, write_level-IsFilled, page_summary-write,
  page_occupancy-write, book_summary-write, book_occupancy-write, root_owner,
}

-- The pages of a book with levels, after a side of the page h has become `page`.
abbrev pub repaged : ℕ → OrderSide → PageSideSummary → PriceLevelStore → ℕ → Bool
repaged h side page s p =
    if p == (s.page_owners h).page_index
    then not (page.active_levels == 0)
    else has_levels (s.page_owners h).stock_locate side s p

-- The new summary and bitmap of the book agree with the new summary of its page.
pub record IsAgreed (h : ℕ) (side : OrderSide) (page : PageSideSummary) (book : BookSideSummary)
    (bitmap : PriceBitmapStorage) (s : PriceLevelStore) : Type 0 where
  pub ranked : IsRanked side (repaged h side page s) book.active_pages (book.best_raw_price / 65536)
  pub levels : TwoLevels bitmap
  pub shows : (p : ℕ) → p < 65536 → test p bitmap ≡ repaged h side page s p
  pub best_handle :
      0 < book.active_pages
      → book.best_page_handle
        ≡ root_of (s.page_owners h).stock_locate (book.best_raw_price / 65536) s
  pub best_level :
      0 < book.active_pages
      → book.best_raw_price % 65536 ≡ (
          if book.best_page_handle == h
          then page.best_level_index
          else (page_summary book.best_page_handle side s).best_level_index)

abbrev pub changed :
    ℕ
    → ℕ
    → OrderSide
    → PriceLevelState
    → PageSideSummary
    → PriceBitmapStorage
    → BookSideSummary
    → PriceBitmapStorage
    → PriceLevelStore
    → PriceLevelStore
changed h i side level page pb book bb s =
    write_level (record { page_handle = h; level_index = i }) side level
      (write_book_side (s.page_owners h).stock_locate side book bb
        (write_page_side h side page pb s))

carry :
    {side : OrderSide} {f g : ℕ → Bool} {x y : PageSideSummary} {b c : PriceBitmapStorage}
    → TrackedWith side f x b
    → y ≡ x
    → c ≡ b
    → ((j : ℕ) → j < 65536 → g j ≡ f j)
    → TrackedWith side g y c
carry {side} {f} {g} {x} {y} {b} {c} t e d same_set =
    IsTracked-cong
      (subst (λ z. TrackedWith side f z c) (sym e) (subst (TrackedWith side f x) (sym d) t))
      same_set

IsSummed-from :
    (l : ℕ) (side : OrderSide) (s' : PriceLevelStore) (b : BookSideSummary)
    (bitmap : PriceBitmapStorage) (pages : ℕ → Bool)
    → book_summary l side s' ≡ b
    → s'.book_occupancy (book_side_index l side) ≡ bitmap
    → IsRanked side pages b.active_pages (b.best_raw_price / 65536)
    → TwoLevels bitmap
    → ((p : ℕ) → p < 65536 → test p bitmap ≡ pages p)
    → ((p : ℕ) → p < 65536 → has_levels l side s' p ≡ pages p)
    → (0 < b.active_pages → b.best_page_handle ≡ root_of l (b.best_raw_price / 65536) s')
    → (0 < b.active_pages
        → b.best_raw_price % 65536 ≡ (page_summary b.best_page_handle side s').best_level_index)
    → IsSummed l side s'
IsSummed-from l side s' b bitmap pages e d r lv sh pg bh bl = record {
  ranked =
      subst
        (λ (x : BookSideSummary).
          IsRanked side (has_levels l side s') x.active_pages (x.best_raw_price / 65536))
        (sym e) (IsRanked-cong r pg);
  levels = subst TwoLevels (sym d) lv;
  shows = λ p k. ap (test p) d ∙ (sh p k ∙ sym (pg p k));
  best_handle =
      subst
        (λ (x : BookSideSummary).
          0 < x.active_pages → x.best_page_handle ≡ root_of l (x.best_raw_price / 65536) s')
        (sym e) bh;
  best_level =
      subst
        (λ (x : BookSideSummary).
          0 < x.active_pages
          → x.best_raw_price % 65536 ≡ (page_summary x.best_page_handle side s').best_level_index)
        (sym e) bl;
}

module _ (s : PriceLevelStore) (sound : IsSound s) (h i : ℕ) (side : OrderSide)
    (v : is_valid_side side ≡ true) (pos : 0 < h) (used : h ≤ s.committed_pages)
    (level : PriceLevelState) (page : PageSideSummary) (pb : PriceBitmapStorage)
    (book : BookSideSummary) (bb : PriceBitmapStorage) where
  changed_tracked :
      TrackedWith side (written h i side level s) page pb
      → (h' : ℕ) (side' : OrderSide) → is_valid_side side' ≡ true
      → 0 < h'
      → let s' = changed h i side level page pb book bb s in
        TrackedWith side'
          (has_orders h' side' s')
          (page_summary h' side' s')
          (s'.page_occupancy (page_side_index h' side'))
  unfolding write_level level_unchecked
  changed_tracked t h' side' v' pos' =
      let s' = changed h i side level page pb book bb s in
      let orders = λ (j : ℕ). has_orders-write s sound h i side v level h' side' j v' pos pos' in
      let summary = page_summary-write h side page pb s h' side' in
      let bitmap = page_occupancy-write h side page pb s h' side' in
      elim (Bool-cases (same h side h' side')) [
        | inl yes_same ↦
            let e = same_side side' side v' v (ground arith) in
            carry (subst (λ a. TrackedWith a (written h i side level s) page pb) (sym e) t)
              (summary ∙ if_true _ _ yes_same) (bitmap ∙ if_true _ _ yes_same)
              (λ j k. orders j ∙ if_true _ _ yes_same)
        | inr no_same ↦
            carry (sound.tracked h' side' v' pos') (summary ∙ if_false _ _ no_same)
              (bitmap ∙ if_false _ _ no_same) (λ j k. orders j ∙ if_false _ _ no_same)
      ]

  -- The pages of the changed book, and of another one.
  pages_here :
      (p : ℕ)
      → p < 65536
      → has_levels (s.page_owners h).stock_locate side (changed h i side level page pb book bb s) p
        ≡ repaged h side page s p
  unfolding write_level
  pages_here p low =
      let l = (s.page_owners h).stock_locate in
      let r = root_of l p s in
      let own = sound.owned h pos used in
      let summary = page_summary-write h side page pb s r side in
      elim (Bool-cases (p == (s.page_owners h).page_index)) [
        | inl here ↦
            let e : p ≡ (s.page_owners h).page_index = ground arith in
            let at : r ≡ h = ap (λ x. root_of l x s) e ∙ own.root in
            ground (arith, here, at, summary, pos)
        | inr other ↦ elim (Bool-cases (r == h)) [
          | inl there ↦
              let (_, q) = root_owner s sound l p h pos low (ground arith) in
              absurd (true-ne-false (ground (arith, q, other)))
          | inr elsewhere ↦ ground (arith, other, elsewhere, summary)
        ]
      ]

  not_here :
      (l' : ℕ) (side' : OrderSide) (p : ℕ)
      → is_valid_side side' ≡ true
      → p < 65536
      → same (s.page_owners h).stock_locate side l' side' ≡ false
      → same h side (root_of l' p s) side' ≡ false
  not_here l' side' p v' low no_same = elim (Bool-cases (root_of l' p s == h)) [
    | inl there ↦
        let (q, _) = root_owner s sound l' p h pos low (ground arith) in ground (arith, q, no_same)
    | inr elsewhere ↦ ground (arith, elsewhere)
  ]

  pages_there :
      (l' : ℕ) (side' : OrderSide)
      → is_valid_side side' ≡ true
      → same (s.page_owners h).stock_locate side l' side' ≡ false
      → (p : ℕ) → p < 65536
      → has_levels l' side' (changed h i side level page pb book bb s) p ≡ has_levels l' side' s p
  unfolding write_level
  pages_there l' side' v' no_same p low =
      ap (λ (x : PageSideSummary). not (root_of l' p s == 0) && not (x.active_levels == 0))
        (page_summary-write h side page pb s (root_of l' p s) side'
          ∙ if_false _ _ (not_here l' side' p v' low no_same))

  IsSummed-here :
      IsAgreed h side page book bb s
      → IsSummed (s.page_owners h).stock_locate side (changed h i side level page pb book bb s)
  unfolding write_level
  IsSummed-here a =
      let l = (s.page_owners h).stock_locate in
      let itself : same l side l side ≡ true = ground arith in
      IsSummed-from l side (changed h i side level page pb book bb s) book bb
        (repaged h side page s) (book_summary-write l side book bb s l side ∙ if_true _ _ itself)
        (book_occupancy-write l side book bb s l side ∙ if_true _ _ itself) a.ranked a.levels
        a.shows pages_here a.best_handle
        (λ some_page.
          a.best_level some_page
          ∙ sym (
              ap (λ (x : PageSideSummary). x.best_level_index)
                (page_summary-write h side page pb s book.best_page_handle side)
              ∙ ground arith))

  IsSummed-there :
      (l' : ℕ) (side' : OrderSide)
      → is_valid_side side' ≡ true
      → same (s.page_owners h).stock_locate side l' side' ≡ false
      → IsSummed l' side' (changed h i side level page pb book bb s)
  unfolding write_level
  IsSummed-there l' side' v' no_same =
      let l = (s.page_owners h).stock_locate in
      let old = sound.summed l' side' v' in
      let b = book_summary l' side' s in
      IsSummed-from l' side' (changed h i side level page pb book bb s) b
        (s.book_occupancy (book_side_index l' side')) (has_levels l' side' s)
        (book_summary-write l side book bb s l' side' ∙ if_false _ _ no_same)
        (book_occupancy-write l side book bb s l' side' ∙ if_false _ _ no_same) old.ranked
        old.levels old.shows (pages_there l' side' v' no_same) old.best_handle
        (λ some_page.
          let away =
            not_here l' side' (b.best_raw_price / 65536) v' (old.ranked.best_low some_page)
              no_same in
          let away' =
            subst (λ x. same h side x side' ≡ false) (sym (old.best_handle some_page)) away in
          old.best_level some_page
          ∙ ap (λ (x : PageSideSummary). x.best_level_index)
              (sym (
                page_summary-write h side page pb s b.best_page_handle side' ∙ if_false _ _ away')))

  changed-IsSummed :
      IsAgreed h side page book bb s
      → (l' : ℕ) (side' : OrderSide) → is_valid_side side' ≡ true
      → IsSummed l' side' (changed h i side level page pb book bb s)
  changed-IsSummed a l' side' v' =
      let l = (s.page_owners h).stock_locate in
      let s' = changed h i side level page pb book bb s in
      elim (Bool-cases (same l side l' side')) [
        | inl yes_same ↦
            let e : l ≡ l' = ground arith in
            let f = sym (same_side side' side v' v (ground arith)) in
            subst (λ x. IsSummed x side' s') e (subst (λ x. IsSummed l x s') f (IsSummed-here a))
        | inr no_same ↦ IsSummed-there l' side' v' no_same
      ]

  -- The store stays sound.
  pub changed-IsSound :
      IsFilled level
      → TrackedWith side (written h i side level s) page pb
      → IsAgreed h side page book bb s
      → IsSound (changed h i side level page pb book bb s)
  unfolding write_level level_unchecked
  changed-IsSound full t a = record {
    filled = λ h' side' j v'. write_level-IsFilled s sound h i side v level full h' side' j v';
    tracked = changed_tracked t;
    summed = changed-IsSummed a;
    rooted = sound.rooted;
    owned = λ h' pos' used'.
        let o = sound.owned h' pos' used' in
        record {
          root = o.root;
          committed = o.committed;
          index_low = o.index_low;
          locate_pos = o.locate_pos;
        };
    unused = λ h' side' v' far.
        let away : same h side h' side' ≡ false = ground arith in
        ap (λ (x : PageSideSummary). x.active_levels)
          (page_summary-write h side page pb s h' side' ∙ if_false _ _ away)
        ∙ sound.unused h' side' v' far;
    fresh = sound.fresh;
    room = sound.room;
    capacity_low = sound.capacity_low;
  }
