-- ===== src/Book/PriceLevelStore/Best.antt =====
-- src/book/PriceLevelStore.cpp: the prices of a book that have orders, and its best level.
use astra_feed_engine.Prelude.{
  ℕ, ◌/◌, ◌%◌, ◌^◌, ◌<◌, ◌≡◌, inl, inr, refl, sym, ◌∙◌, ap, Bool, true, false, not, ◌==◌,
  if◌then◌else◌, Option, none, some, arith, Bool-cases, count_zero,
}
use astra_feed_engine.Book.{OrderSide, is_valid_side}
use astra_feed_engine.Book.PriceLevelStore.{
  PriceLevelState, PriceLevelStore, empty_level, is_book_prepared,
}
use astra_feed_engine.Book.PriceLevelStore.Additions.{better, page_summary, book_summary}
use astra_feed_engine.Book.PriceLevelStore.Reads.{PriceLevelCursor, best}
use astra_feed_engine.Book.PriceLevelStore.Soundness.{
  IsSound, level_of, has_orders, has_levels, root_of,
}

-- The abstract book: what stands at each price.
unfoldable pub level_at : ℕ → OrderSide → ℕ → PriceLevelStore → PriceLevelState
level_at stock_locate side raw_price s =
    let handle = root_of stock_locate (raw_price / 65536) s in
    if handle == 0 then empty_level else level_of handle side (raw_price % 65536) s

abbrev pub is_live : ℕ → OrderSide → PriceLevelStore → ℕ → Bool
is_live stock_locate side s raw_price =
    not ((level_at stock_locate side raw_price s).order_count == 0)

-- A cursor on a price that has orders.
pub record IsAt (stock_locate : ℕ) (side : OrderSide) (s : PriceLevelStore) (c : PriceLevelCursor)
    : Type 0 where
  pub locate : c.stock_locate ≡ stock_locate
  pub low : c.raw_price / 65536 < 65536
  pub handle : c.page_handle ≡ root_of stock_locate (c.raw_price / 65536) s
  pub some_page : 0 < c.page_handle
  pub live : has_orders c.page_handle side s (c.raw_price % 65536) ≡ true

-- The best live price among those with a property, or none.
pub data Leads (stock_locate : ℕ) (side : OrderSide) (s : PriceLevelStore) (within : ℕ → Bool)
    (o : Option PriceLevelCursor) : Type 0 where
  nowhere :
      o ≡ none
      → ((raw : ℕ) → raw < 2 ^ 32 → within raw ≡ true → is_live stock_locate side s raw ≡ false)
      → Leads stock_locate side s within o
  leads_to :
      (c : PriceLevelCursor)
      → o ≡ some c
      → IsAt stock_locate side s c
      → within c.raw_price ≡ true
      → ((raw : ℕ)
          → raw < 2 ^ 32
          → within raw ≡ true
          → better side raw c.raw_price ≡ true
          → is_live stock_locate side s raw ≡ false)
      → Leads stock_locate side s within o

-- Prices compare by their pages first.
pub better_split :
    (side : OrderSide) (a b : ℕ)
    → better side a b ≡ (
        if a / 65536 == b / 65536
        then better side (a % 65536) (b % 65536)
        else better side (a / 65536) (b / 65536))
better_split OrderSide.buy a b = ground arith
better_split OrderSide.sell a b = ground arith
better_split OrderSide.no_side a b = ground arith

module _ (stock_locate : ℕ) (side : OrderSide) (s : PriceLevelStore) (sound : IsSound s)
    (v : is_valid_side side ≡ true) where
  abbrev root : ℕ → ℕ
  root p = root_of stock_locate p s

  abbrev pages : ℕ → Bool
  pages = has_levels stock_locate side s

  abbrev live : ℕ → Bool
  live = is_live stock_locate side s

  -- Without levels on its page, a price has no orders; nor when its level has none.
  pub page_off : (raw : ℕ) → pages (raw / 65536) ≡ false → live raw ≡ false
  unfolding level_at
  page_off raw off = elim (Bool-cases (root (raw / 65536) == 0)) [
    | inl no_page ↦ ground (arith, no_page)
    | inr some_page ↦
        let t = sound.tracked (root (raw / 65536)) side v (ground (arith, some_page)) in
        let none_on : (page_summary (root (raw / 65536)) side s).active_levels ≡ 0 =
          ground (arith, off, some_page) in
        let off' =
          count_zero 65536 (has_orders (root (raw / 65536)) side s)
            (omega (arith, t.ranked.counted, none_on)) (raw % 65536) (omega arith) in
        ground (arith, some_page, off')
  ]

  pub level_off :
      (raw p : ℕ)
      → raw / 65536 ≡ p
      → has_orders (root p) side s (raw % 65536) ≡ false
      → live raw ≡ false
  unfolding level_at
  level_off raw p e off =
      let off' : has_orders (root (raw / 65536)) side s (raw % 65536) ≡ false =
        ap (λ x. has_orders (root x) side s (raw % 65536)) e ∙ off in
      ground (arith, off')

  -- The best level of a page that has levels.
  pub page_best :
      (p : ℕ)
      → pages p ≡ true
      → (0 < root p)
        × (0 < (page_summary (root p) side s).active_levels)
        × ((page_summary (root p) side s).best_level_index < 65536)
        × (has_orders (root p) side s (page_summary (root p) side s).best_level_index ≡ true)
        × ((j : ℕ)
            → j < 65536
            → better side j (page_summary (root p) side s).best_level_index ≡ true
            → has_orders (root p) side s j ≡ false)
  page_best p on =
      let pos : 0 < root p = ground (arith, on) in
      let active : 0 < (page_summary (root p) side s).active_levels = ground (arith, on) in
      let t = sound.tracked (root p) side v pos in
      (pos, active, t.ranked.best_low active, t.ranked.best_on active, t.ranked.best_top active)

  -- A cursor on the best level of a page.
  pub page_best-IsAt :
      (p : ℕ) (c : PriceLevelCursor)
      → p < 65536
      → pages p ≡ true
      → c.stock_locate ≡ stock_locate
      → c.page_handle ≡ root p
      → c.raw_price / 65536 ≡ p
      → c.raw_price % 65536 ≡ (page_summary (root p) side s).best_level_index
      → IsAt stock_locate side s c
  page_best-IsAt p c low on e_locate e_handle e_page e_level =
      let (pos, _, _, on_level, _) = page_best p on in
      record {
        locate = e_locate;
        low = omega (arith, e_page, low);
        handle = e_handle ∙ ap root (sym e_page);
        some_page = omega (arith, e_handle, pos);
        live =
            ap (λ x. has_orders x side s (c.raw_price % 65536)) e_handle
            ∙ (ap (has_orders (root p) side s) e_level ∙ on_level);
      }

  -- No price of the page is better than its best level.
  pub page_best-top :
      (p : ℕ) (best_raw raw : ℕ)
      → pages p ≡ true
      → best_raw / 65536 ≡ p
      → best_raw % 65536 ≡ (page_summary (root p) side s).best_level_index
      → raw / 65536 ≡ p
      → better side raw best_raw ≡ true
      → live raw ≡ false
  page_best-top p best_raw raw on e_page e_level same_page b =
      let (_, _, _, _, top) = page_best p on in
      let split = better_split side raw best_raw in
      let b' : better side (raw % 65536) (best_raw % 65536) ≡ true =
        ground (arith, split, b, e_page, same_page) in
      level_off raw p same_page
        (top (raw % 65536) (omega arith) (ap (better side (raw % 65536)) (sym e_level) ∙ b'))

  pub best-Leads :
      is_book_prepared stock_locate s ≡ true
      → Leads stock_locate side s (λ _. true) (best stock_locate side s)
  unfolding best
  best-Leads prepared =
      let b = sound.summed stock_locate side v in
      let book = book_summary stock_locate side s in
      elim (Bool-cases (book.active_pages == 0)) [
        | inl no_pages ↦ nowhere (ground (arith, prepared, v, no_pages)) (λ raw low _.
            page_off raw (
              count_zero 65536 pages (ground (arith, b.ranked.counted, no_pages)) (raw / 65536)
                (omega (arith, low))))
        | inr some_pages ↦
            let pos : 0 < book.active_pages = ground (arith, some_pages) in
            let p = book.best_raw_price / 65536 in
            let on = b.ranked.best_on pos in
            let at = b.best_handle pos in
            let level = b.best_level pos ∙ ap (λ x. (page_summary x side s).best_level_index) at in
            let (root_pos, _, _, _, _) = page_best p on in
            let c : PriceLevelCursor = record {
              page_handle = book.best_page_handle;
              raw_price = book.best_raw_price;
              stock_locate = stock_locate;
            } in
            leads_to c (ground (arith, prepared, v, some_pages, at, root_pos))
              (page_best-IsAt p c (b.ranked.best_low pos) on refl at refl level) refl
              (λ raw low _ w. elim (Bool-cases (raw / 65536 == p)) [
                | inl same ↦
                    page_best-top p book.best_raw_price raw on refl level (ground (arith, same)) w
                | inr other ↦
                    let split = better_split side raw book.best_raw_price in
                    page_off raw (
                      b.ranked.best_top pos (raw / 65536) (omega (arith, low))
                        (ground (arith, split, w, other)))
              ])
      ]
