-- ===== src/Book/PriceLevelStore/Moving.antt =====
-- src/book/PriceLevelStore.cpp: a move keeps the store sound. What was tested of the destination still
-- holds after the order has left the source.
use astra_feed_engine.Prelude.{
  ℕ, ◌+◌, ◌-◌, ◌%◌, ◌^◌, ◌≤◌, ◌<◌, ◌≡◌, ◌⊎◌, inl, inr, refl, sym, ◌∙◌, subst, Bool, true, false,
  ◌&&◌, ◌==◌, ltb, if◌then◌else◌, arith, if_false, Bool-cases, add_u64, sub_u64,
}
use astra_feed_engine.Book.{MutationResult, OrderSide, is_applied, side_index}
use astra_feed_engine.Book.PriceLevelStore.{PriceLevelState, PriceAddress, PriceLevelStore}
use astra_feed_engine.Book.PriceLevelStore.Levels.{level_unchecked, write_level}
use astra_feed_engine.Book.PriceLevelStore.Additions.{validate_add, add_validated}
use astra_feed_engine.Book.PriceLevelStore.Removals.{
  validate_erase, erase_validated, same_address, move_in_place, move_levels, move,
}
use astra_feed_engine.Book.PriceLevelStore.Soundness.{IsSound, level_of, write_level-level_of}
use astra_feed_engine.Book.PriceLevelStore.Touch.{touch-IsSound}
use astra_feed_engine.Book.PriceLevelStore.Adding.{HasRoom, add_validated-IsSound}
use astra_feed_engine.Book.PriceLevelStore.Removing.{reduced}
use astra_feed_engine.Book.PriceLevelStore.Frames.{erase_validated-Keeps, level_of-pages}
use astra_feed_engine.Book.PriceLevelStore.Operations.{
  validate_add-IsInside, validate_add-HasRoom, validate_erase-HasOrder, erase_applied-IsSound,
}

-- What move leaves, branch by branch.
module _ (s : PriceLevelStore) (old new : PriceAddress) (side : OrderSide)
    (old_qty new_qty : ℕ) where
  pub source_refused :
      is_applied (validate_erase old side old_qty s).0 ≡ false
      → (move_levels old old_qty new new_qty side s).1 ≡ s
  unfolding move_levels
  source_refused refused = ground (arith, refused)

  pub stays :
      is_applied (validate_erase old side old_qty s).0 ≡ true
      → same_address old new ≡ true
      → (move_levels old old_qty new new_qty side s).1
        ≡ (move_in_place old old_qty new_qty side s).1
  unfolding move_levels
  stays ok here = ground (arith, ok, here)

  pub destination_refused :
      is_applied (validate_erase old side old_qty s).0 ≡ true
      → same_address old new ≡ false
      → is_applied (validate_add new side new_qty s) ≡ false
      → (move_levels old old_qty new new_qty side s).1 ≡ s
  unfolding move_levels
  destination_refused ok apart refused = ground (arith, ok, apart, refused)

  pub moves :
      is_applied (validate_erase old side old_qty s).0 ≡ true
      → same_address old new ≡ false
      → is_applied (validate_add new side new_qty s) ≡ true
      → (move_levels old old_qty new new_qty side s).1
        ≡ add_validated new side new_qty
            (erase_validated old side old_qty (validate_erase old side old_qty s).1 s)
  unfolding move_levels
  moves ok apart ok' = ground (arith, ok, apart, ok')

  pub move-store :
      ((move old old_qty new new_qty side s).1 ≡ s)
      ⊎ ((0 < new_qty)
          × ((move old old_qty new new_qty side s).1
              ≡ (move_levels old old_qty new new_qty side s).1))
  unfolding move
  move-store = ground arith

module _ (s : PriceLevelStore) (sound : IsSound s) (old new : PriceAddress) (side : OrderSide)
    (old_qty new_qty : ℕ) (old_low : old.level_index < 65536) (new_low : new.level_index < 65536)
    (small : new_qty < 2 ^ 32) where
  abbrev source : PriceLevelState
  source = level_unchecked old side s

  -- The level of an order that keeps its place.
  abbrev swapped : PriceLevelState
  swapped = record source {
    total_qty = ((source.total_qty + (2 ^ 64 - old_qty)) % 2 ^ 64 + new_qty) % 2 ^ 64;
  }

  in_place-IsSound :
      0 < new_qty
      → is_applied (validate_erase old side old_qty s).0 ≡ true
      → IsSound (move_in_place old old_qty new_qty side s).1
  unfolding move_in_place sub_u64 add_u64
  in_place-IsSound pos ok =
      let (inside, has, _) = validate_erase-HasOrder s old side old_qty ok in
      let full = sound.filled old.page_handle side old.level_index inside.valid in
      let without = (source.total_qty + (2 ^ 64 - old_qty)) % 2 ^ 64 in
      let choose : Bool → MutationResult × PriceLevelStore = λ b.
        if b
        then (MutationResult.quantity_overflow, s)
        else (MutationResult.applied, write_level old side swapped s) in
      elim (Bool-cases (ltb (2 ^ 64 - 1 - new_qty) without)) [
        | inl over ↦ subst (λ b. IsSound (choose b).1) (sym over) sound
        | inr fits ↦
            let n = has.some_order in
            let w : (without + new_qty) % 2 ^ 64 ≡ without + new_qty =
              ground (arith, fits, small) in
            subst (λ b. IsSound (choose b).1) (sym fits)
              (touch-IsSound s sound old.page_handle old.level_index side inside.valid
                inside.handle_pos swapped refl
                (record {
                  qty_low = omega arith;
                  count_low = full.count_low;
                  agree = ground (arith, w, n, pos);
                }))
      ]

  abbrev left : PriceLevelStore
  left = erase_validated old side old_qty (validate_erase old side old_qty s).1 s

  -- The destination is as it was.
  pub destination_kept :
      is_applied (validate_erase old side old_qty s).0 ≡ true
      → is_applied (validate_add new side new_qty s) ≡ true
      → same_address old new ≡ false
      → level_of new.page_handle side new.level_index left
        ≡ level_of new.page_handle side new.level_index s
  destination_kept ok ok' apart =
      let (inside, _, _) = validate_erase-HasOrder s old side old_qty ok in
      let inside' = validate_add-IsInside s new side new_qty ok' in
      let p = inside.handle_pos in
      let q = inside'.handle_pos in
      let k = erase_validated-Keeps old side old_qty (validate_erase old side old_qty s).1 s in
      let w = write_level old side (reduced old_qty source) s in
      level_of-pages w left k.pages_eq new.page_handle side new.level_index
      ∙ (write_level-level_of old.page_handle old.level_index side (reduced old_qty source) s
            new.page_handle new.level_index side inside.valid inside.valid
          ∙ if_false _ _
              {b = new.page_handle - 1 == old.page_handle - 1
                && side_index side == side_index side
                && new.level_index == old.level_index}
              (ground (arith, apart, p, q)))

  pub moved-IsSound :
      is_applied (validate_erase old side old_qty s).0 ≡ true
      → is_applied (validate_add new side new_qty s) ≡ true
      → same_address old new ≡ false
      → IsSound (add_validated new side new_qty left)
  moved-IsSound ok ok' apart =
      let inside' = validate_add-IsInside s new side new_qty ok' in
      let k = erase_validated-Keeps old side old_qty (validate_erase old side old_qty s).1 s in
      let room =
        validate_add-HasRoom s new side new_qty small
          (sound.filled new.page_handle side new.level_index inside'.valid) ok' in
      add_validated-IsSound left (erase_applied-IsSound s old side sound old_low old_qty ok)
        new.page_handle new.level_index side inside'.valid inside'.handle_pos
        (subst (λ n. new.page_handle ≤ n) (sym k.committed_eq) inside'.inside) new_low new_qty
        (subst (HasRoom new_qty) (sym (destination_kept ok ok' apart)) room)

  move_levels-IsSound : 0 < new_qty → IsSound (move_levels old old_qty new new_qty side s).1
  move_levels-IsSound pos = elim (Bool-cases (is_applied (validate_erase old side old_qty s).0)) [
    | inr refused ↦
        subst IsSound (sym (source_refused s old new side old_qty new_qty refused)) sound
    | inl ok ↦ elim (Bool-cases (same_address old new)) [
      | inl here ↦
          subst IsSound (sym (stays s old new side old_qty new_qty ok here))
            (in_place-IsSound pos ok)
      | inr apart ↦ elim (Bool-cases (is_applied (validate_add new side new_qty s))) [
        | inr refused ↦
            subst IsSound
              (sym (destination_refused s old new side old_qty new_qty ok apart refused)) sound
        | inl ok' ↦
            subst IsSound (sym (moves s old new side old_qty new_qty ok apart ok'))
              (moved-IsSound ok ok' apart)
      ]
    ]
  ]

  pub move-IsSound : IsSound (move old old_qty new new_qty side s).1
  move-IsSound = elim (move-store s old new side old_qty new_qty) [
    | inl e ↦ subst IsSound (sym e) sound
    | inr (pos, e) ↦ subst IsSound (sym e) (move_levels-IsSound pos)
  ]
