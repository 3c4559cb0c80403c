-- ===== src/Book/PriceLevelStore/Adding.antt =====
-- src/book/PriceLevelStore.cpp: an order that joins a level keeps the store sound.
use astra_feed_engine.Prelude.{
  ℕ, ◌+◌, ◌%◌, ◌^◌, ◌≤◌, ◌<◌, ◌≡◌, inl, inr, sym, ap, subst, Bool, true, false, not, ◌||◌, ◌==◌,
  if◌then◌else◌, arith, Bool-cases, inc_u32, add_u64,
}
use astra_feed_engine.Book.{OrderSide, is_valid_side}
use astra_feed_engine.Book.PriceLevelStore.{PriceLevelState, PriceLevelStore}
use astra_feed_engine.Book.PriceLevelStore.Levels.{write_level}
use astra_feed_engine.Book.PriceLevelStore.Additions.{
  activate_in_page, activate_in_book, activate_level, add_validated,
}
use astra_feed_engine.Book.PriceLevelStore.Tracking.{join-IsTracked}
use astra_feed_engine.Book.PriceLevelStore.Soundness.{IsFilled, IsSound, level_of, has_orders}
use astra_feed_engine.Book.PriceLevelStore.Change.{written}
use astra_feed_engine.Book.PriceLevelStore.Preservation.{changed-IsSound}
use astra_feed_engine.Book.PriceLevelStore.Touch.{touch-IsSound}
use astra_feed_engine.Book.PriceLevelStore.Joining.{new_page, new_book, new_bits, joined-IsAgreed}

-- The level with one order more.
abbrev pub joined : ℕ → PriceLevelState → PriceLevelState
joined qty level = record {
  total_qty = (level.total_qty + qty) % 2 ^ 64;
  order_count = (level.order_count + 1) % 2 ^ 32;
}

-- There is room in a level for one more order of `qty` shares.
pub record HasRoom (qty : ℕ) (level : PriceLevelState) : Type 0 where
  pub some_shares : 0 < qty
  pub qty_fits : level.total_qty + qty < 2 ^ 64
  pub count_fits : level.order_count + 1 < 2 ^ 32

joined-IsFilled :
    (qty : ℕ) (level : PriceLevelState) → HasRoom qty level → IsFilled (joined qty level)
joined-IsFilled qty level r = record {
  qty_low = omega arith;
  count_low = omega arith;
  agree =
      let a : (level.total_qty + qty) % 2 ^ 64 ≡ level.total_qty + qty =
        omega (arith, r.qty_fits) in
      let b : (level.order_count + 1) % 2 ^ 32 ≡ level.order_count + 1 =
        omega (arith, r.count_fits) in
      let c = r.some_shares in ground (arith, a, b, c);
}

module _ (s : PriceLevelStore) (sound : IsSound s) (h i : ℕ) (side : OrderSide)
    (v : is_valid_side side ≡ true) (pos : 0 < h) (used : h ≤ s.committed_pages) (low : i < 65536)
    (qty : ℕ) (room : HasRoom qty (level_of h side i s)) where
  abbrev level : PriceLevelState
  level = level_of h side i s

  written_join :
      (level.order_count == 0) ≡ true
      → (j : ℕ) → j < 65536
      → written h i side (joined qty level) s j ≡ (j == i || has_orders h side s j)
  written_join empty j k = let c = room.count_fits in ground (arith, empty)

  level_off : (level.order_count == 0) ≡ true → has_orders h side s i ≡ false
  level_off empty = ap not empty

  added :
      {b : Bool}
      → (level.order_count == 0) ≡ b
      → add_validated (record { page_handle = h; level_index = i }) side qty s
        ≡ write_level
            (record { page_handle = h; level_index = i })
            side
            (joined qty level)
            (if b then activate_level (record { page_handle = h; level_index = i }) side s else s)
  unfolding add_validated inc_u32 add_u64
  added e =
      ap
        (λ b.
          write_level (record { page_handle = h; level_index = i }) side (joined qty level)
            (if b then activate_level (record { page_handle = h; level_index = i }) side s else s))
        e

  -- addValidated keeps the store sound.
  pub add_validated-IsSound :
      IsSound (add_validated (record { page_handle = h; level_index = i }) side qty s)
  unfolding add_validated activate_level activate_in_page activate_in_book inc_u32 add_u64
  add_validated-IsSound = elim (Bool-cases (level.order_count == 0)) [
    | inl empty ↦
        let t =
          join-IsTracked (sound.tracked h side v pos) i low (level_off empty)
            (written_join empty) in
        let agreed = joined-IsAgreed s sound h i side v pos used low in
        let r =
          changed-IsSound s sound h i side v pos used (joined qty level)
            (new_page s sound h i side v pos used low) _ (new_book s sound h i side v pos used low)
            (new_bits s sound h i side v pos used low) (joined-IsFilled qty level room) t agreed in
        subst IsSound (sym (added empty)) r
    | inr some_orders ↦
        let c = room.count_fits in
        let kept : ((joined qty level).order_count == 0) ≡ (level.order_count == 0) =
          ground (arith, some_orders) in
        let r =
          touch-IsSound s sound h i side v pos (joined qty level) kept
            (joined-IsFilled qty level room) in
        subst IsSound (sym (added some_orders)) r
  ]
