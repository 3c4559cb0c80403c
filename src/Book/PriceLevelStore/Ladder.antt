-- ===== src/Book/PriceLevelStore/Ladder.antt =====
-- src/book/PriceLevelStore.cpp: from a level to the next worse one.
use astra_feed_engine.Prelude.{
  ℕ, ◌+◌, ◌*◌, ◌/◌, ◌%◌, ◌<◌, ◌≡◌, ◌≢◌, inl, inr, refl, sym, ◌∙◌, ap, subst, Bool, true, false,
  ◌==◌, ltb, none, some, arith, Bool-cases, if_elim, count-pos, count_one, true-ne-false,
}
use astra_feed_engine.Book.{OrderSide, is_valid_side}
use astra_feed_engine.Book.PriceLevelStore.{
  PriceLevelStore, is_book_prepared, root_handle_matches, page_handle_of, page_side_index,
  book_side_index,
}
use astra_feed_engine.Book.PriceLevelStore.Additions.{better, page_summary}
use astra_feed_engine.Book.PriceLevelStore.Deactivation.{next_worse_index}
use astra_feed_engine.Book.PriceLevelStore.Reads.{
  PriceLevelCursor, next_worse_page, next_worse_level, next_worse,
}
use astra_feed_engine.Book.PriceLevelStore.Ranking.{better_irrefl}
use astra_feed_engine.Book.PriceLevelStore.NextWorse.{
  WorseThan, none_worse, next, next_worse_index-WorseThan,
}
use astra_feed_engine.Book.PriceLevelStore.Soundness.{IsSound, has_orders, has_levels, root_of}
use astra_feed_engine.Book.PriceLevelStore.Best.{
  IsAt, Leads, nowhere, leads_to, is_live, better_split, page_off, level_off, page_best,
  page_best-IsAt, page_best-top,
}

better_asym : (side : OrderSide) (a b : ℕ) → better side a b ≡ true → better side b a ≡ false
better_asym OrderSide.buy a b h = ground arith
better_asym OrderSide.sell a b h = ground arith
better_asym OrderSide.no_side a b h = ground arith

better_apart : (side : OrderSide) (a b : ℕ) → better side a b ≡ true → (a == b) ≡ false
better_apart OrderSide.buy a b h = ground arith
better_apart OrderSide.sell a b h = ground arith
better_apart OrderSide.no_side a b h = ground arith

module _ (stock_locate : ℕ) (side : OrderSide) (s : PriceLevelStore) (sound : IsSound s)
    (v : is_valid_side side ≡ true) (prepared : is_book_prepared stock_locate s ≡ true) where
  abbrev root : ℕ → ℕ
  root p = root_of stock_locate p s

  abbrev pages : ℕ → Bool
  pages = has_levels stock_locate side s

  pub matches :
      (p : ℕ) → p < 65536 → 0 < root p → root_handle_matches stock_locate p (root p) s ≡ true
  unfolding root_handle_matches
  matches p low pos =
      let (used, e_locate, e_page) = sound.rooted stock_locate p low (ground (arith, pos)) in
      let o = sound.owned (root p) pos used in
      let live = o.committed in ground (arith, pos, used, e_locate, e_page, live)

  handle_found : (p : ℕ) → p < 65536 → 0 < root p → page_handle_of stock_locate p s ≡ root p
  unfolding page_handle_of is_book_prepared
  handle_found p low pos = ground (arith, prepared, matches p low pos)

  module _ (c : PriceLevelCursor) (at : IsAt stock_locate side s c) where
    abbrev page : ℕ
    page = c.raw_price / 65536

    abbrev level : ℕ
    level = c.raw_price % 65536

    next_worse_level-WorseThan :
        WorseThan side (has_orders c.page_handle side s) level (next_worse_level side c s)
    unfolding next_worse_level
    next_worse_level-WorseThan =
        let h = c.page_handle in
        let occ = has_orders h side s in
        let t = sound.tracked h side v at.some_page in
        let active = (page_summary h side s).active_levels in
        let low : level < 65536 = omega arith in
        let pos = count-pos 65536 level occ low at.live in
        if_elim (WorseThan side occ level) (ltb 1 active)
          (λ more.
            next_worse_index-WorseThan occ (s.page_occupancy (page_side_index h side)) t.levels
              (t.many (ground arith)) side level low)
          (λ few.
            let one : active ≡ 1 = ground (arith, pos, t.ranked.counted) in
            none_worse refl (λ j k b. elim (Bool-cases (j == level)) [
              | inl same ↦
                  let q : j ≡ level = ground arith in
                  absurd
                    (true-ne-false (sym b ∙ (ap (better side level) q ∙ better_irrefl side level)))
              | inr other ↦
                  count_one 65536 level occ (omega (arith, one, t.ranked.counted)) low at.live j k
                    (ground arith)
            ]))

    page_on : pages page ≡ true
    page_on = elim (Bool-cases (pages page)) [
      | inl on ↦ on
      | inr off ↦
          let t = sound.tracked c.page_handle side v at.some_page in
          let pos = count-pos 65536 level (has_orders c.page_handle side s) (omega arith) at.live in
          let active : (page_summary c.page_handle side s).active_levels ≢ 0 =
            omega (arith, pos, t.ranked.counted) in
          let active' : (page_summary (root page) side s).active_levels ≢ 0 =
            subst (λ x. (page_summary x side s).active_levels ≢ 0) at.handle active in
          ground (arith, at.handle, at.some_page, active')
    ]

    next_page-WorseThan :
        WorseThan side pages page
          (next_worse_index side page (s.book_occupancy (book_side_index stock_locate side)))
    next_page-WorseThan =
        let b = sound.summed stock_locate side v in
        next_worse_index-WorseThan pages (s.book_occupancy (book_side_index stock_locate side))
          b.levels b.shows side page at.low

    abbrev same_page : ℕ → PriceLevelCursor
    same_page k = record {
      page_handle = c.page_handle;
      raw_price = page * 65536 + k % 65536;
      stock_locate = stock_locate;
    }

    abbrev other_page : ℕ → PriceLevelCursor
    other_page q = record {
      page_handle = root q;
      raw_price = q * 65536 + (page_summary (root q) side s).best_level_index % 65536;
      stock_locate = stock_locate;
    }

    page_low : page % 65536 ≡ page
    page_low = omega (arith, at.low)

    matched : root_handle_matches stock_locate (page % 65536) c.page_handle s ≡ true
    matched =
        ap (λ p. root_handle_matches stock_locate p c.page_handle s) page_low
        ∙ (ap (λ h. root_handle_matches stock_locate page h s) at.handle
            ∙ matches page at.low (omega (arith, at.handle, at.some_page)))

    next_worse-same :
        (k : ℕ)
        → next_worse_level side c s ≡ some k
        → next_worse stock_locate side c s ≡ some (same_page k)
    unfolding next_worse
    next_worse-same k e = ground (arith, at.locate, prepared, v, matched, e, page_low)

    next_worse-page :
        next_worse_level side c s ≡ none
        → next_worse stock_locate side c s ≡ next_worse_page stock_locate side (page % 65536) s
    unfolding next_worse
    next_worse-page e = ground (arith, at.locate, prepared, v, matched, e)

    no_next_page :
        next_worse_index side page (s.book_occupancy (book_side_index stock_locate side)) ≡ none
        → next_worse_page stock_locate side page s ≡ none
    unfolding next_worse_page
    no_next_page e = ground (arith, e)

    next_page :
        (q : ℕ)
        → q < 65536
        → pages q ≡ true
        → next_worse_index side page (s.book_occupancy (book_side_index stock_locate side)) ≡ some q
        → next_worse_page stock_locate side page s ≡ some (other_page q)
    unfolding next_worse_page
    next_page q low on e =
        let q_low : q % 65536 ≡ q = omega (arith, low) in
        let (pos, active, best_low, _, _) = page_best stock_locate side s sound v q on in
        let found = ap (λ x. page_handle_of stock_locate x s) q_low ∙ handle_found q low pos in
        let active' : ((page_summary (root q) side s).active_levels == 0) ≡ false =
          ground (arith, active) in
        ground (arith, e, found, pos, active', best_low, q_low)

    -- No price on the cursor's page, or beyond it, is live: by its index, or by its page.
    off_here :
        (raw : ℕ)
        → raw / 65536 ≡ page
        → has_orders c.page_handle side s (raw % 65536) ≡ false
        → is_live stock_locate side s raw ≡ false
    off_here raw e off =
        level_off stock_locate side s sound v raw page e
          (ap (λ h. has_orders h side s (raw % 65536)) (sym at.handle) ∙ off)

    off_there : (raw : ℕ) → pages (raw / 65536) ≡ false → is_live stock_locate side s raw ≡ false
    off_there raw off = page_off stock_locate side s sound v raw off

    same_page-Leads :
        (k : ℕ)
        → next_worse_level side c s ≡ some k
        → k < 65536
        → better side level k ≡ true
        → has_orders c.page_handle side s k ≡ true
        → ((j : ℕ)
            → j < 65536
            → better side level j ≡ true
            → better side j k ≡ true
            → has_orders c.page_handle side s j ≡ false)
        → Leads stock_locate side s (better side c.raw_price) (next_worse stock_locate side c s)
    same_page-Leads k e low worse on gap =
        let raw' = page * 65536 + k % 65536 in
        let e_page : raw' / 65536 ≡ page = omega arith in
        let e_level : raw' % 65536 ≡ k = omega (arith, low) in
        leads_to (same_page k) (next_worse-same k e)
          (record {
            locate = refl;
            low = omega (arith, e_page, at.low);
            handle = at.handle ∙ ap root (sym e_page);
            some_page = at.some_page;
            live = ap (has_orders c.page_handle side s) e_level ∙ on;
          })
          (let split = better_split side c.raw_price raw' in
            let worse' : better side level (raw' % 65536) ≡ true =
              ap (better side level) e_level ∙ worse in
            ground (arith, split, e_page, worse'))
          (λ raw low' w1 w2.
            let split1 = better_split side c.raw_price raw in
            let split2 = better_split side raw raw' in
            elim (Bool-cases (raw / 65536 == page)) [
              | inl here ↦
                  let b1 : better side level (raw % 65536) ≡ true =
                    ground (arith, split1, w1, here) in
                  let b2 : better side (raw % 65536) (raw' % 65536) ≡ true =
                    ground (arith, split2, w2, here, e_page) in
                  off_here raw (ground (arith, here)) (
                    gap (raw % 65536) (omega arith) b1
                      (sym (ap (better side (raw % 65536)) e_level) ∙ b2))
              | inr other ↦
                  let b1 : better side page (raw / 65536) ≡ true =
                    ground (arith, split1, w1, other) in
                  let b2' : better side (raw / 65536) (raw' / 65536) ≡ true =
                    ground (arith, split2, w2, other, e_page) in
                  let b2 : better side (raw / 65536) page ≡ true =
                    sym (ap (better side (raw / 65536)) e_page) ∙ b2' in
                  absurd (true-ne-false (sym b2 ∙ better_asym side page (raw / 65536) b1))
            ])

    -- What is worse than the cursor lies on its page, at a worse level, or on a worse page.
    worse_off :
        (raw : ℕ)
        → better side c.raw_price raw ≡ true
        → ((j : ℕ)
            → j < 65536
            → better side level j ≡ true
            → has_orders c.page_handle side s j ≡ false)
        → ((raw / 65536 == page) ≡ false
            → better side page (raw / 65536) ≡ true
            → is_live stock_locate side s raw ≡ false)
        → is_live stock_locate side s raw ≡ false
    worse_off raw w levels beyond =
        let split = better_split side c.raw_price raw in
        elim (Bool-cases (raw / 65536 == page)) [
          | inl here ↦
              off_here raw (ground (arith, here))
                (levels (raw % 65536) (omega arith) (ground (arith, split, w, here)))
          | inr other ↦ beyond other (ground (arith, split, w, other))
        ]

    no_page-Leads :
        next_worse_level side c s ≡ none
        → next_worse_index side page (s.book_occupancy (book_side_index stock_locate side)) ≡ none
        → ((j : ℕ)
            → j < 65536
            → better side level j ≡ true
            → has_orders c.page_handle side s j ≡ false)
        → ((j : ℕ) → j < 65536 → better side page j ≡ true → pages j ≡ false)
        → Leads stock_locate side s (better side c.raw_price) (next_worse stock_locate side c s)
    no_page-Leads e f levels all =
        nowhere
          (next_worse-page e
            ∙ (ap (λ p. next_worse_page stock_locate side p s) page_low ∙ no_next_page f))
          (λ raw low w.
            worse_off raw w levels
              (λ other b. off_there raw (all (raw / 65536) (omega (arith, low)) b)))

    next_page-Leads :
        (q : ℕ)
        → next_worse_level side c s ≡ none
        → next_worse_index side page (s.book_occupancy (book_side_index stock_locate side)) ≡ some q
        → ((j : ℕ)
            → j < 65536
            → better side level j ≡ true
            → has_orders c.page_handle side s j ≡ false)
        → q < 65536
        → better side page q ≡ true
        → pages q ≡ true
        → ((j : ℕ)
            → j < 65536
            → better side page j ≡ true
            → better side j q ≡ true
            → pages j ≡ false)
        → Leads stock_locate side s (better side c.raw_price) (next_worse stock_locate side c s)
    next_page-Leads q e f levels low worse on gap =
        let (_, _, best_low, _, _) = page_best stock_locate side s sound v q on in
        let b = (page_summary (root q) side s).best_level_index in
        let raw' = q * 65536 + b % 65536 in
        let e_page : raw' / 65536 ≡ q = omega arith in
        let e_level : raw' % 65536 ≡ b = omega (arith, best_low) in
        let apart : (page == q) ≡ false = better_apart side page q worse in
        leads_to (other_page q)
          (next_worse-page e
            ∙ (ap (λ p. next_worse_page stock_locate side p s) page_low ∙ next_page q low on f))
          (page_best-IsAt stock_locate side s sound v q (other_page q) low on refl refl e_page
            e_level)
          (let split = better_split side c.raw_price raw' in
            let worse' : better side page (raw' / 65536) ≡ true =
              ap (better side page) e_page ∙ worse in
            ground (arith, split, e_page, worse', apart))
          (λ raw low' w1 w2. worse_off raw w1 levels (λ other b1.
            elim (Bool-cases (raw / 65536 == q)) [
              | inl there ↦
                  page_best-top stock_locate side s sound v q raw' raw on e_page e_level
                    (ground (arith, there)) w2
              | inr between ↦
                  let split2 = better_split side raw raw' in
                  let b2' : better side (raw / 65536) (raw' / 65536) ≡ true =
                    ground (arith, split2, w2, between, e_page) in
                  off_there raw (
                    gap (raw / 65536) (omega (arith, low')) b1
                      (sym (ap (better side (raw / 65536)) e_page) ∙ b2'))
            ]))

    pub next_worse-Leads :
        Leads stock_locate side s (better side c.raw_price) (next_worse stock_locate side c s)
    next_worse-Leads = elim next_worse_level-WorseThan [
      | next k e low worse on gap ↦ same_page-Leads k e low worse on gap
      | none_worse e levels ↦ elim next_page-WorseThan [
        | none_worse f all ↦ no_page-Leads e f levels all
        | next q f low worse on gap ↦ next_page-Leads q e f levels low worse on gap
      ]
    ]
