-- ===== src/Book/PriceLevelStore/Touch.antt =====
-- src/book/PriceLevelStore.cpp: a change of a level that leaves it with orders, or without, as before.
use astra_feed_engine.Prelude.{
  ℕ, ◌<◌, ◌≡◌, inl, inr, sym, ◌∙◌, ap, true, not, ◌==◌, arith, if_true, if_false, Bool-cases,
}
use astra_feed_engine.Book.{OrderSide, is_valid_side}
use astra_feed_engine.Book.PriceLevelStore.{PriceLevelState, PriceLevelStore}
use astra_feed_engine.Book.PriceLevelStore.Levels.{level_unchecked, write_level}
use astra_feed_engine.Book.PriceLevelStore.Soundness.{
  IsFilled, IsSound, level_of, has_orders, IsTracked-cong, same_side,
}
use astra_feed_engine.Book.PriceLevelStore.Change.{
  same, written, has_orders-write, write_level-IsFilled,
}

module _ (s : PriceLevelStore) (sound : IsSound s) (h i : ℕ) (side : OrderSide)
    (v : is_valid_side side ≡ true) (pos : 0 < h) (level : PriceLevelState)
    (kept : (level.order_count == 0) ≡ ((level_of h side i s).order_count == 0)) where
  written_same : (j : ℕ) → written h i side level s j ≡ has_orders h side s j
  written_same j = elim (Bool-cases (j == i)) [
    | inl here ↦
        let e : j ≡ i = ground arith in
        if_true _ _ here ∙ (ap not kept ∙ ap (has_orders h side s) (sym e))
    | inr other ↦ if_false _ _ other
  ]

  orders_same :
      (h' : ℕ) (side' : OrderSide) (j : ℕ)
      → is_valid_side side' ≡ true
      → 0 < h'
      → has_orders h' side'
          (write_level (record { page_handle = h; level_index = i }) side level s)
          j
        ≡ has_orders h' side' s j
  orders_same h' side' j v' pos' =
      has_orders-write s sound h i side v level h' side' j v' pos pos'
      ∙ elim (Bool-cases (same h side h' side')) [
        | inl yes_same ↦
            let e : h ≡ h' = ground arith in
            let f = sym (same_side side' side v' v (ground arith)) in
            if_true _ _ yes_same
            ∙ (written_same j
                ∙ (ap (λ x. has_orders x side s j) e ∙ ap (λ x. has_orders h' x s j) f))
        | inr no_same ↦ if_false _ _ no_same
      ]

  pub touch-IsSound :
      IsFilled level
      → IsSound (write_level (record { page_handle = h; level_index = i }) side level s)
  unfolding write_level level_unchecked
  touch-IsSound full = record {
    filled = λ h' side' j v'. write_level-IsFilled s sound h i side v level full h' side' j v';
    tracked = λ h' side' v' pos'.
        IsTracked-cong (sound.tracked h' side' v' pos') (λ j k. orders_same h' side' j v' pos');
    summed = λ l side' v'.
        let o = sound.summed l side' v' in
        record {
          ranked = o.ranked;
          levels = o.levels;
          shows = o.shows;
          best_handle = o.best_handle;
          best_level = o.best_level;
        };
    rooted = sound.rooted;
    owned = λ h' pos' used'.
        let o = sound.owned h' pos' used' in
        record {
          root = o.root;
          committed = o.committed;
          index_low = o.index_low;
          locate_pos = o.locate_pos;
        };
    unused = sound.unused;
    fresh = sound.fresh;
    room = sound.room;
    capacity_low = sound.capacity_low;
  }
