-- ===== src/Book/PriceLevelStore/Joining.antt =====
-- src/book/PriceLevelStore.cpp, activateLevel: the summaries of a page and of its book after a level
-- that gets its first order. The page had no level or some.
use astra_feed_engine.Prelude.{
  ℕ, ◌+◌, ◌/◌, ◌%◌, ◌^◌, ◌≤◌, ◌<◌, ◌≡◌, inl, inr, sym, ◌∙◌, ap, subst, Bool, true, false, not, ◌&&◌,
  ◌||◌, ◌==◌, if◌then◌else◌, arith, if_elim, if_true, if_false, Bool-cases, true-ne-false, ==_refl,
  inc_u32, count-le, count-pos,
}
use astra_feed_engine.Bitmap.{PriceBitmapStorage, test}
use astra_feed_engine.Bitmap
use astra_feed_engine.Bitmap.Summaries.{TwoLevels, set-TwoLevels, set-reset-test}
use astra_feed_engine.Book.{OrderSide, is_valid_side}
use astra_feed_engine.Book.PriceLevelStore.{
  PageSideSummary, BookSideSummary, PriceLevelStore, join_price, book_side_index,
}
use astra_feed_engine.Book.PriceLevelStore.Additions.{better, page_summary, book_summary}
use astra_feed_engine.Book.PriceLevelStore.Ranking.{join-IsRanked}
use astra_feed_engine.Book.PriceLevelStore.Soundness.{
  IsSound, IsRanked-cong, IsRanked-eq, has_orders, has_levels, root_of,
}
use astra_feed_engine.Book.PriceLevelStore.Change.{root_owner}
use astra_feed_engine.Book.PriceLevelStore.Preservation.{repaged, IsAgreed}

-- Prices compare by their pages, and within a page by their levels.
better_join :
    (side : OrderSide) (p i raw : ℕ)
    → i < 65536
    → better side (join_price p i) raw
      ≡ (if p == raw / 65536 then better side i (raw % 65536) else better side p (raw / 65536))
better_join OrderSide.buy p i raw h = ground arith
better_join OrderSide.sell p i raw h = ground arith
better_join OrderSide.no_side p i raw h = ground arith

module _ (s : PriceLevelStore) (sound : IsSound s) (h i : ℕ) (side : OrderSide)
    (v : is_valid_side side ≡ true) (pos : 0 < h) (used : h ≤ s.committed_pages)
    (low : i < 65536) where
  abbrev page : PageSideSummary
  page = page_summary h side s

  abbrev book : BookSideSummary
  book = book_summary (s.page_owners h).stock_locate side s

  abbrev locate : ℕ
  locate = (s.page_owners h).stock_locate

  abbrev index : ℕ
  index = (s.page_owners h).page_index

  -- A page of a book with a level is not its page zero.
  best_handle-pos : 0 < book.active_pages → 0 < book.best_page_handle
  best_handle-pos some_page =
      let b = sound.summed locate side v in
      let on = b.ranked.best_on some_page in ground (arith, b.best_handle some_page, on)

  -- The new price is the best of its book.
  abbrev is_best : Bool
  is_best =
      book.active_pages == 0
      || book.best_page_handle == 0
      || better side (join_price index i) book.best_raw_price

  abbrev pub new_page : PageSideSummary
  new_page = record {
    active_levels = (page.active_levels + 1) % 2 ^ 32;
    best_level_index =
        if page.active_levels == 0 || better side i page.best_level_index
        then i
        else page.best_level_index;
  }

  abbrev pub new_book : BookSideSummary
  new_book = record {
    active_pages =
        if page.active_levels == 0 then (book.active_pages + 1) % 2 ^ 32 else book.active_pages;
    best_raw_price = if is_best then join_price index i else book.best_raw_price;
    best_page_handle = if is_best then h else book.best_page_handle;
  }

  abbrev bits : PriceBitmapStorage
  bits = s.book_occupancy (book_side_index locate side)

  abbrev pub new_bits : PriceBitmapStorage
  new_bits = if page.active_levels == 0 then Bitmap.set index bits else bits

  active_up : (page.active_levels + 1) % 2 ^ 32 ≡ page.active_levels + 1
  active_up =
      let t = sound.tracked h side v pos in
      omega (arith, t.ranked.counted, count-le 65536 (has_orders h side s))

  has_levels_here : has_levels locate side s index ≡ not (page.active_levels == 0)
  has_levels_here =
      let own = sound.owned h pos used in
      ap (λ x. not (x == 0) && not ((page_summary x side s).active_levels == 0)) own.root
      ∙ ground (arith, pos)

  root_first :
      root_of locate index s ≡ h
      → is_best ≡ true
      → root_of locate (new_book.best_raw_price / 65536) s ≡ h
  root_first own first =
      let q : join_price index i / 65536 ≡ index = omega (arith, low) in
      ap (λ r. root_of locate (r / 65536) s) (if_true _ _ first)
      ∙ (ap (λ p. root_of locate p s) q ∙ own)

  level_first : is_best ≡ true → new_book.best_raw_price % 65536 ≡ i
  level_first first =
      let q : join_price index i % 65536 ≡ i = omega (arith, low) in
      ap (λ r. r % 65536) (if_true _ _ first) ∙ q

  -- The best level of a page after the change.
  abbrev best_level_of : ℕ → ℕ
  best_level_of x =
      if x == h then new_page.best_level_index else (page_summary x side s).best_level_index

  best_level_at :
      {x : ℕ}
      → new_book.best_page_handle ≡ x
      → best_level_of new_book.best_page_handle ≡ best_level_of x
  best_level_at e = ap best_level_of e

  some_page_of : is_best ≡ false → 0 < book.active_pages
  some_page_of later = ground arith

  -- The page had no level.
  module _ (none_on : page.active_levels ≡ 0) where
    pages_join :
        (p : ℕ)
        → p < 65536
        → repaged h side new_page s p ≡ (p == index || has_levels locate side s p)
    pages_join p k = let up = active_up in ground (arith, none_on, up)

    here_off : has_levels locate side s index ≡ false
    here_off = has_levels_here ∙ ground (arith, none_on)

    other_page : 0 < book.active_pages → (index == book.best_raw_price / 65536) ≡ false
    other_page some_page = elim (Bool-cases (index == book.best_raw_price / 65536)) [
      | inl here ↦
          let e : book.best_raw_price / 65536 ≡ index = ground arith in
          let on = (sound.summed locate side v).ranked.best_on some_page in
          absurd (true-ne-false (sym on ∙ (ap (has_levels locate side s) e ∙ here_off)))
      | inr other ↦ other
    ]

    other_handle : 0 < book.active_pages → (book.best_page_handle == h) ≡ false
    other_handle some_page = elim (Bool-cases (book.best_page_handle == h)) [
      | inl there ↦
          let b = sound.summed locate side v in
          let e : root_of locate (book.best_raw_price / 65536) s ≡ h =
            sym (b.best_handle some_page) ∙ ground arith in
          let (_, q) =
            root_owner s sound locate (book.best_raw_price / 65536) h pos
              (b.ranked.best_low some_page) e in
          absurd (true-ne-false (ground (arith, q, other_page some_page)))
      | inr other ↦ other
    ]

    best_page : new_book.best_raw_price / 65536 ≡ (
        if book.active_pages == 0 || better side index (book.best_raw_price / 65536)
        then index
        else book.best_raw_price / 65536)
    best_page = elim (Bool-cases (book.active_pages == 0)) [
      | inl empty ↦ ground (arith, empty, low)
      | inr some_page ↦
          let some_page' : 0 < book.active_pages = ground arith in
          let first = best_handle-pos some_page' in
          let compare_prices = better_join side index i book.best_raw_price low in
          let other = other_page some_page' in
          ground (arith, some_page, first, compare_prices, other, low)
    ]

    first_level : new_page.best_level_index ≡ i
    first_level = ground (arith, none_on)

    empty-IsAgreed : IsAgreed h side new_page new_book new_bits s
    empty-IsAgreed =
        let b = sound.summed locate side v in
        let own = sound.owned h pos used in
        let join = join-IsRanked b.ranked index own.index_low here_off pages_join in
        let count_eq : new_book.active_pages ≡ inc_u32 book.active_pages =
          unfold inc_u32 in ground (arith, none_on) in
        let bits_eq : new_bits ≡ Bitmap.set index bits =
          if_true _ _ {b = page.active_levels == 0} (ground (arith, none_on)) in
        record {
          ranked = IsRanked-eq join count_eq best_page;
          levels = subst TwoLevels (sym bits_eq) (set-TwoLevels index bits own.index_low b.levels);
          shows = λ p k.
              ap (test p) bits_eq
              ∙ ((set-reset-test index p bits).0
                  ∙ (ap (λ x. p == index || x) (b.shows p k) ∙ sym (pages_join p k)));
          best_handle = λ some_page. elim (Bool-cases is_best) [
            | inl first ↦ if_true _ _ first ∙ sym (root_first own.root first)
            | inr later ↦
                if_false _ _ later
                ∙ (b.best_handle (some_page_of later)
                    ∙ sym (ap (λ r. root_of locate (r / 65536) s) (if_false _ _ later)))
          ];
          best_level = λ some_page. elim (Bool-cases is_best) [
            | inl first ↦
                level_first first
                ∙ sym (best_level_at (if_true _ _ first) ∙ (if_true _ _ (==_refl h) ∙ first_level))
            | inr later ↦
                ap (λ r. r % 65536) (if_false _ _ later)
                ∙ (b.best_level (some_page_of later)
                    ∙ sym (
                        best_level_at (if_false _ _ later)
                        ∙ if_false _ _ (other_handle (some_page_of later))))
          ];
        }

  -- The page had levels.
  module _ (some_on : (page.active_levels == 0) ≡ false) where
    pages_same : (p : ℕ) → p < 65536 → repaged h side new_page s p ≡ has_levels locate side s p
    pages_same p k = elim (Bool-cases (p == index)) [
      | inl here ↦
          let e : p ≡ index = ground arith in
          let up = active_up in
          if_true _ _ here
          ∙ (ground (arith, up)
              ∙ sym (ap (has_levels locate side s) e ∙ (has_levels_here ∙ ap not some_on)))
      | inr other ↦ if_false _ _ other
    ]

    index_on : has_levels locate side s index ≡ true
    index_on = has_levels_here ∙ ap not some_on

    some_page : 0 < book.active_pages
    some_page =
        let b = sound.summed locate side v in
        let own = sound.owned h pos used in
        omega (
          arith,
          count-pos 65536 index (has_levels locate side s) own.index_low index_on,
          b.ranked.counted,
        )

    -- A better price is on the best page.
    best_here : is_best ≡ true → book.best_raw_price / 65536 ≡ index
    best_here first =
        let b = sound.summed locate side v in
        let own = sound.owned h pos used in
        let handle = best_handle-pos some_page in
        let compare_prices = better_join side index i book.best_raw_price low in
        elim (Bool-cases (index == book.best_raw_price / 65536)) [
          | inl here ↦ ground arith
          | inr other ↦
              let pages_on = some_page in
              let up : better side index (book.best_raw_price / 65536) ≡ true =
                ground (arith, first, other, compare_prices, handle, pages_on) in
              absurd
                (true-ne-false (sym index_on ∙ b.ranked.best_top some_page index own.index_low up))
        ]

    handle_here : book.best_raw_price / 65536 ≡ index → book.best_page_handle ≡ h
    handle_here e =
        (sound.summed locate side v).best_handle some_page
        ∙ (ap (λ p. root_of locate p s) e ∙ (sound.owned h pos used).root)

    page_kept : new_book.best_raw_price / 65536 ≡ book.best_raw_price / 65536
    page_kept = elim (Bool-cases is_best) [
      | inl first ↦
          let q : join_price index i / 65536 ≡ index = omega (arith, low) in
          ap (λ r. r / 65536) (if_true _ _ first) ∙ (q ∙ sym (best_here first))
      | inr later ↦ ap (λ r. r / 65536) (if_false _ _ later)
    ]

    -- On the best page, the better level is the new best one.
    level_best : is_best ≡ true → new_page.best_level_index ≡ i
    level_best first =
        let b = sound.summed locate side v in
        let e = best_here first in
        let here = handle_here e in
        let pages_on = some_page in
        let handle = best_handle-pos pages_on in
        let compare_prices = better_join side index i book.best_raw_price low in
        let old = b.best_level pages_on ∙ ap (λ x. (page_summary x side s).best_level_index) here in
        ground (arith, first, e, pages_on, handle, compare_prices, old, some_on)

    level_kept :
        is_best ≡ false
        → book.best_page_handle ≡ h
        → new_page.best_level_index ≡ page.best_level_index
    level_kept later here =
        let b = sound.summed locate side v in
        let pages_on = some_page in
        let at = b.best_handle pages_on in
        let root : root_of locate (book.best_raw_price / 65536) s ≡ h = sym at ∙ here in
        let (_, e) =
          root_owner s sound locate (book.best_raw_price / 65536) h pos (b.ranked.best_low pages_on)
            root in
        let compare_prices = better_join side index i book.best_raw_price low in
        let old = b.best_level pages_on ∙ ap (λ x. (page_summary x side s).best_level_index) here in
        ground (arith, later, e, pages_on, compare_prices, old, some_on)

    best_level_kept :
        is_best ≡ false
        → best_level_of book.best_page_handle
          ≡ (page_summary book.best_page_handle side s).best_level_index
    best_level_kept later = elim (Bool-cases (book.best_page_handle == h)) [
      | inl there ↦
          let e : book.best_page_handle ≡ h = ground arith in
          if_true _ _ there
          ∙ (level_kept later e ∙ ap (λ x. (page_summary x side s).best_level_index) (sym e))
      | inr other ↦ if_false _ _ other
    ]

    some-IsAgreed : IsAgreed h side new_page new_book new_bits s
    some-IsAgreed =
        let b = sound.summed locate side v in
        let own = sound.owned h pos used in
        let bits_eq : new_bits ≡ bits = if_false _ _ {b = page.active_levels == 0} some_on in
        record {
          ranked = IsRanked-eq (IsRanked-cong b.ranked pages_same) (if_false _ _ some_on) page_kept;
          levels = subst TwoLevels (sym bits_eq) b.levels;
          shows = λ p k. ap (test p) bits_eq ∙ (b.shows p k ∙ sym (pages_same p k));
          best_handle = λ _. elim (Bool-cases is_best) [
            | inl first ↦ if_true _ _ first ∙ sym (root_first own.root first)
            | inr later ↦
                if_false _ _ later
                ∙ (b.best_handle some_page
                    ∙ sym (ap (λ r. root_of locate (r / 65536) s) (if_false _ _ later)))
          ];
          best_level = λ _. elim (Bool-cases is_best) [
            | inl first ↦
                level_first first
                ∙ sym (
                    best_level_at (if_true _ _ first)
                    ∙ (if_true _ _ (==_refl h) ∙ level_best first))
            | inr later ↦
                ap (λ r. r % 65536) (if_false _ _ later)
                ∙ (b.best_level some_page
                    ∙ sym (best_level_at (if_false _ _ later) ∙ best_level_kept later))
          ];
        }

  -- In both cases the summaries agree with the store again.
  pub joined-IsAgreed : IsAgreed h side new_page new_book new_bits s
  joined-IsAgreed =
      if_elim (λ _. IsAgreed h side new_page new_book new_bits s) (page.active_levels == 0)
        {x = true} {y = true} (λ z. empty-IsAgreed (ground arith)) (λ z. some-IsAgreed z)
