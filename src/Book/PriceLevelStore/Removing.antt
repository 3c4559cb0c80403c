-- ===== src/Book/PriceLevelStore/Removing.antt =====
-- src/book/PriceLevelStore.cpp: an order that leaves a level keeps the store sound.
use astra_feed_engine.Prelude.{
  ℕ, ◌+◌, ◌-◌, ◌%◌, ◌^◌, ◌≤◌, ◌<◌, ◌≡◌, inl, inr, sym, ◌∙◌, subst, Bool, true, false, not, ◌&&◌,
  ◌==◌, if◌then◌else◌, arith, Bool-cases, sub_u64, dec_u32, dec_u32-eq, count-le, count-pos,
}
use astra_feed_engine.Book.{OrderSide, is_valid_side}
use astra_feed_engine.Book.PriceLevelStore.{
  PriceLevelState, PriceAddress, PageSideSummary, PriceLevelStore, page_side_index,
}
use astra_feed_engine.Book.PriceLevelStore.Levels.{level_unchecked, write_level}
use astra_feed_engine.Book.PriceLevelStore.Additions.{page_summary}
use astra_feed_engine.Book.PriceLevelStore.Deactivation.{
  DeactivationPlan, unmarked, index_or_zero, deactivate_level, deactivate_in_page, empty_page,
  deactivate_in_book,
}
use astra_feed_engine.Book.PriceLevelStore.Removals.{erase_validated}
use astra_feed_engine.Book.PriceLevelStore.Ranking.{leave_last-IsRanked}
use astra_feed_engine.Book.PriceLevelStore.Tracking.{IsTracked, leave-IsTracked}
use astra_feed_engine.Book.PriceLevelStore.Soundness.{
  IsFilled, IsSound, IsRanked-cong, level_of, has_orders,
}
use astra_feed_engine.Book.PriceLevelStore.Change.{written}
use astra_feed_engine.Book.PriceLevelStore.Preservation.{IsAgreed, changed-IsSound}
use astra_feed_engine.Book.PriceLevelStore.Touch.{touch-IsSound}
use astra_feed_engine.Book.PriceLevelStore.BookPlan.{left_page, left_book, left_bits}
use astra_feed_engine.Book.PriceLevelStore.Validation.{IsRightPlan}

-- The level with one order of `qty` shares less.
abbrev pub reduced : ℕ → PriceLevelState → PriceLevelState
reduced qty level = record {
  total_qty = (level.total_qty + (2 ^ 64 - qty)) % 2 ^ 64;
  order_count = (level.order_count + (2 ^ 32 - 1)) % 2 ^ 32;
}

-- An order of `qty` shares is in the level: its last one exactly when the shares are all.
pub record HasOrder (qty : ℕ) (level : PriceLevelState) : Type 0 where
  pub some_shares : 0 < qty
  pub some_order : 0 < level.order_count
  pub within : qty ≤ level.total_qty
  pub last : level.order_count ≡ 1 → level.total_qty ≡ qty
  pub others : 1 < level.order_count → qty < level.total_qty

reduced-IsFilled :
    (qty : ℕ) (level : PriceLevelState)
    → IsFilled level
    → HasOrder qty level
    → IsFilled (reduced qty level)
reduced-IsFilled qty level f r =
    let a : (level.total_qty + (2 ^ 64 - qty)) % 2 ^ 64 ≡ level.total_qty - qty =
      omega (arith, f.qty_low, r.within, r.some_shares) in
    let b : (level.order_count + (2 ^ 32 - 1)) % 2 ^ 32 ≡ level.order_count - 1 =
      omega (arith, f.count_low, r.some_order) in
    record {
      qty_low = omega arith;
      count_low = omega arith;
      agree = let c = r.last in let d = r.others in let e = r.some_order in ground (arith, a, b);
    }

abbrev flagged : DeactivationPlan → Bool → DeactivationPlan
flagged p b = record p { page_becomes_empty = b }

module _ (s : PriceLevelStore) (sound : IsSound s) (h i : ℕ) (side : OrderSide)
    (v : is_valid_side side ≡ true) (pos : 0 < h) (used : h ≤ s.committed_pages) (low : i < 65536)
    (qty : ℕ) (has : HasOrder qty (level_of h side i s)) where
  abbrev level : PriceLevelState
  level = level_of h side i s

  abbrev address : PriceAddress
  address = record { page_handle = h; level_index = i }

  abbrev page : PageSideSummary
  page = page_summary h side s

  abbrev occ : ℕ → Bool
  occ = has_orders h side s

  on : occ i ≡ true
  on = let c = has.some_order in ground arith

  full : IsFilled (reduced qty level)
  full = reduced-IsFilled qty level (sound.filled h side i v) has

  written_leaves :
      (level.order_count == 1) ≡ true
      → (j : ℕ) → j < 65536
      → written h i side (reduced qty level) s j ≡ (not (j == i) && occ j)
  written_leaves last j k =
      let e : level.order_count ≡ 1 = ground arith in
      let z : (level.order_count + (2 ^ 32 - 1)) % 2 ^ 32 ≡ 0 = omega (arith, e) in
      ground (arith, z)

  emptied-IsTracked :
      (level.order_count == 1) ≡ true
      → (page.active_levels == 1) ≡ true
      → IsTracked side
          (written h i side (reduced qty level) s)
          0
          0
          (s.page_occupancy (page_side_index h side))
  emptied-IsTracked last one =
      let t = sound.tracked h side v pos in
      record {
        ranked = leave_last-IsRanked t.ranked i 0 low on (ground arith) (written_leaves last);
        levels = t.levels;
        many = λ more. absurd (none_more more);
        few = λ _. t.few (ground arith);
      }
    where
      none_more : 1 < 0 → ⊥
      none_more more = omega arith

  left_pos :
      (page.active_levels == 1) ≡ false
      → (1 < page.active_levels) × (0 < dec_u32 page.active_levels)
  left_pos more =
      let t = sound.tracked h side v pos in
      let some_level : 0 < page.active_levels =
        omega (arith, count-pos 65536 i occ low on, t.ranked.counted) in
      let two : 1 < page.active_levels = ground (arith, more, some_level) in
      (
        two,
        omega (
          arith,
          two,
          dec_u32-eq page.active_levels some_level
              (omega (arith, t.ranked.counted, count-le 65536 occ)),
        ),
      )

  kept-IsTracked :
      (p : DeactivationPlan)
      → IsRightPlan h i side s p
      → (level.order_count == 1) ≡ true
      → (page.active_levels == 1) ≡ false
      → let best =
          if p.page_best_changes then index_or_zero p.next_level_index else page.best_level_index in
        let active = dec_u32 page.active_levels in
        IsTracked side
          (written h i side (reduced qty level) s)
          active
          best
          (unmarked active best i (s.page_occupancy (page_side_index h side)))
  kept-IsTracked p r last more =
      let (two, one_left) = left_pos more in
      leave-IsTracked (sound.tracked h side v pos) i _ _ two one_left (written_leaves last)
        (IsRanked-cong (r.ranked more) (written_leaves last))

  IsAgreed-as :
      (p : DeactivationPlan)
      → IsRightPlan h i side s p
      → {b : Bool} → p.page_becomes_empty ≡ b
      → IsAgreed h side
          (left_page h side s (flagged p b))
          (left_book h side s (flagged p b))
          (left_bits h side s (flagged p b))
          s
  IsAgreed-as p r e =
      subst
        (λ b.
          IsAgreed h side (left_page h side s (flagged p b)) (left_book h side s (flagged p b))
            (left_bits h side s (flagged p b)) s)
        e r.agreed

  -- The writes of eraseValidated for a level's last order, by whether the page becomes empty.
  last-IsSound :
      (level.order_count == 1) ≡ true
      → (p : DeactivationPlan) → IsRightPlan h i side s p
      → IsSound (deactivate_level address side p (write_level address side (reduced qty level) s))
  unfolding deactivate_level deactivate_in_page deactivate_in_book empty_page dec_u32 write_level
      level_unchecked
  last-IsSound last p r = elim (Bool-cases p.page_becomes_empty) [
    | inl empty ↦
        subst
          (λ b. IsSound (
            deactivate_level address side (flagged p b)
              (write_level address side (reduced qty level) s)))
          (sym empty)
          (changed-IsSound s sound h i side v pos used (reduced qty level) _ _
            (left_book h side s (flagged p true)) (left_bits h side s (flagged p true)) full
            (emptied-IsTracked last (sym r.empties ∙ empty)) (IsAgreed-as p r empty))
    | inr more ↦
        subst
          (λ b. IsSound (
            deactivate_level address side (flagged p b)
              (write_level address side (reduced qty level) s)))
          (sym more)
          (changed-IsSound s sound h i side v pos used (reduced qty level)
            (left_page h side s (flagged p false)) _ (left_book h side s (flagged p false))
            (left_bits h side s (flagged p false)) full
            (kept-IsTracked p r last (sym r.empties ∙ more)) (IsAgreed-as p r more))
  ]

  -- eraseValidated keeps the store sound, when its plan for a level's last order is right.
  pub erase_validated-IsSound :
      (p : DeactivationPlan)
      → ((level.order_count == 1) ≡ true → IsRightPlan h i side s p)
      → IsSound (erase_validated address side qty p s)
  unfolding erase_validated sub_u64 dec_u32
  erase_validated-IsSound p right = elim (Bool-cases (level.order_count == 1)) [
    | inl last ↦
        subst
          (λ b. IsSound (
            if b
            then deactivate_level address side p (write_level address side (reduced qty level) s)
            else write_level address side (reduced qty level) s))
          (sym last) (last-IsSound last p (right last))
    | inr more ↦
        let c = has.some_order in
        let f = (sound.filled h side i v).count_low in
        let n : (level.order_count + (2 ^ 32 - 1)) % 2 ^ 32 ≡ level.order_count - 1 =
          omega (arith, c, f) in
        let kept : ((reduced qty level).order_count == 0) ≡ (level.order_count == 0) =
          ground (arith, n, more, c) in
        subst
          (λ b. IsSound (
            if b
            then deactivate_level address side p (write_level address side (reduced qty level) s)
            else write_level address side (reduced qty level) s))
          (sym more) (touch-IsSound s sound h i side v pos (reduced qty level) kept full)
  ]
