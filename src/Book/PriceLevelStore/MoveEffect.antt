-- ===== src/Book/PriceLevelStore/MoveEffect.antt =====
-- src/book/PriceLevelStore.cpp, move: one order goes and another comes, in one call.
use astra_feed_engine.Prelude.{
  ℕ, ◌+◌, ◌-◌, ◌%◌, ◌^◌, ◌≤◌, ◌<◌, ◌≡◌, inl, inr, refl, sym, ◌∙◌, ap, subst, Bool, true, false, ltb,
  if◌then◌else◌, arith, Bool-cases, if_true, if_false, true-ne-false, sub_u64, add_u64,
}
use astra_feed_engine.Book.{MutationResult, OrderSide, is_applied}
use astra_feed_engine.Book.PriceLevelStore.{
  PriceLevelState, PriceAddress, PageOwner, PriceLevelStore,
}
use astra_feed_engine.Book.PriceLevelStore.Levels.{level_unchecked, write_level}
use astra_feed_engine.Book.PriceLevelStore.Additions.{validate_add, add_validated}
use astra_feed_engine.Book.PriceLevelStore.Removals.{
  validate_erase, erase_validated, same_address, move_in_place, move_levels, move,
}
use astra_feed_engine.Book.PriceLevelStore.Soundness.{IsSound}
use astra_feed_engine.Book.PriceLevelStore.Adding.{HasRoom}
use astra_feed_engine.Book.PriceLevelStore.Frames.{erase_validated-Keeps}
use astra_feed_engine.Book.PriceLevelStore.Operations.{
  IsInside, validate_add-IsInside, validate_add-HasRoom, validate_erase-HasOrder,
  erase_applied-IsSound,
}
use astra_feed_engine.Book.PriceLevelStore.Moving.{destination_kept}
use astra_feed_engine.Book.PriceLevelStore.Depths.{
  Depths, depths, put, is_here, more, fewer, written-put,
}
use astra_feed_engine.Book.PriceLevelStore.Refinement.{
  Shows, gated, gate, erase_validated-Shows, add_validated-Shows,
}

put-put :
    (o : PageOwner) (i : ℕ) (side : OrderSide) (f g : PriceLevelState → PriceLevelState)
    (d : Depths) (l : ℕ) (side' : OrderSide) (raw : ℕ)
    → put o i side (λ x. g (f x)) d l side' raw ≡ put o i side g (put o i side f d) l side' raw
put-put o i side f g d l side' raw = elim (Bool-cases (is_here o i side l side' raw)) [
  | inl here ↦
      if_true (g (f (d l side' raw))) _ here
      ∙ sym (
          if_true (g (put o i side f d l side' raw)) _ here
          ∙ ap g (if_true (f (d l side' raw)) _ here))
  | inr there ↦
      if_false (g (f (d l side' raw))) _ there
      ∙ sym (
          if_false (g (put o i side f d l side' raw)) _ there
          ∙ if_false (f (d l side' raw)) _ there)
]

put_cong :
    (o : PageOwner) (i : ℕ) (side : OrderSide) (f : PriceLevelState → PriceLevelState)
    (d d' : Depths) (l : ℕ) (side' : OrderSide) (raw : ℕ)
    → d l side' raw ≡ d' l side' raw
    → put o i side f d l side' raw ≡ put o i side f d' l side' raw
put_cong o i side f d d' l side' raw e = ap (λ x. if is_here o i side l side' raw then f x else x) e

module _ (s : PriceLevelStore) (sound : IsSound s) (old new : PriceAddress) (side : OrderSide)
    (old_qty new_qty : ℕ) (old_low : old.level_index < 65536) (new_low : new.level_index < 65536)
    (small : new_qty < 2 ^ 32) where
  -- An order goes, and one comes.
  abbrev pub replaced : Depths → Depths
  replaced d =
      put (s.page_owners new.page_handle) new.level_index side (more new_qty)
        (put (s.page_owners old.page_handle) old.level_index side (fewer old_qty) d)

  abbrev source : PriceLevelState
  source = level_unchecked old side s

  abbrev swap : PriceLevelState → PriceLevelState
  swap level = more new_qty (fewer old_qty level)

  move_result :
      is_applied (move old old_qty new new_qty side s).0 ≡ true
      → (0 < new_qty)
        × (move_levels old old_qty new new_qty side s ≡ move old old_qty new new_qty side s)
  unfolding move
  move_result ok = ground (arith, ok)

  move_refused :
      is_applied (move old old_qty new new_qty side s).0 ≡ false
      → (move old old_qty new new_qty side s).1 ≡ s
  unfolding move move_levels move_in_place
  move_refused refused = ground (arith, refused)

  levels_applied :
      is_applied (move_levels old old_qty new new_qty side s).0 ≡ true
      → is_applied (validate_erase old side old_qty s).0 ≡ true
  unfolding move_levels
  levels_applied ok = ground (arith, ok)

  in_place :
      is_applied (move_levels old old_qty new new_qty side s).0 ≡ true
      → same_address old new ≡ true
      → move_in_place old old_qty new_qty side s ≡ move_levels old old_qty new new_qty side s
  unfolding move_levels
  in_place ok here = ground (arith, ok, here)

  apart :
      is_applied (move_levels old old_qty new new_qty side s).0 ≡ true
      → same_address old new ≡ false
      → (is_applied (validate_add new side new_qty s) ≡ true)
        × (add_validated new side new_qty
              (erase_validated old side old_qty (validate_erase old side old_qty s).1 s)
            ≡ (move_levels old old_qty new new_qty side s).1)
  unfolding move_levels
  apart ok there = ground (arith, ok, there)

  abbrev swapped : ℕ → PriceLevelState
  swapped without = record source { total_qty = (without + new_qty) % 2 ^ 64 }

  in_place-store :
      is_applied (move_in_place old old_qty new_qty side s).0 ≡ true
      → (write_level old side (swapped ((source.total_qty + (2 ^ 64 - old_qty)) % 2 ^ 64)) s
          ≡ (move_in_place old old_qty new_qty side s).1)
        × ((source.total_qty + (2 ^ 64 - old_qty)) % 2 ^ 64 ≤ 2 ^ 64 - 1 - new_qty)
  unfolding move_in_place sub_u64 add_u64
  in_place-store ok =
      let without = (source.total_qty + (2 ^ 64 - old_qty)) % 2 ^ 64 in
      let choose : Bool → MutationResult × PriceLevelStore = λ b.
        if b
        then (MutationResult.quantity_overflow, s)
        else (MutationResult.applied, write_level old side (swapped without) s) in
      elim (Bool-cases (ltb (2 ^ 64 - 1 - new_qty) without)) [
        | inl over ↦ absurd (true-ne-false (sym ok ∙ ap (λ b. is_applied (choose b).0) over))
        | inr fits ↦ (sym (ap (λ b. (choose b).1) fits), ground (arith, fits))
      ]

  in_place-Shows :
      is_applied (validate_erase old side old_qty s).0 ≡ true
      → is_applied (move_in_place old old_qty new_qty side s).0 ≡ true
      → same_address old new ≡ true
      → Shows (move_in_place old old_qty new_qty side s).1 (replaced (depths s))
  unfolding write_level
  in_place-Shows ok fits here =
      let (e, room) = in_place-store fits in
      let (inside, has, _) = validate_erase-HasOrder s old side old_qty ok in
      let full = sound.filled old.page_handle side old.level_index inside.valid in
      let q = full.qty_low in
      let enough = has.within in
      let some_order = has.some_order in
      let some_shares = has.some_shares in
      let without = (source.total_qty + (2 ^ 64 - old_qty)) % 2 ^ 64 in
      let a : without ≡ source.total_qty - old_qty = omega arith in
      let b : (without + new_qty) % 2 ^ 64 ≡ source.total_qty - old_qty + new_qty =
        omega (arith, a, room, small) in
      let c : swapped without ≡ swap source = ground (arith, b, some_order) in
      let same_handle : old.page_handle ≡ new.page_handle = ground (arith, here) in
      let same_index : old.level_index ≡ new.level_index = ground (arith, here) in
      subst (λ y. Shows y (replaced (depths s))) e
        (λ l side' v' raw k.
          written-put s sound old.page_handle old.level_index side inside.valid inside.handle_pos
            inside.inside old_low l side' v' raw k swap (swapped without)
            (write_level old side (swapped without) s) refl refl c
          ∙ (put-put (s.page_owners old.page_handle) old.level_index side (fewer old_qty)
                (more new_qty) (depths s) l side' raw
              ∙ (ap
                    (λ h.
                      put (s.page_owners h) old.level_index side (more new_qty)
                        (put (s.page_owners old.page_handle) old.level_index side (fewer old_qty)
                          (depths s))
                        l side' raw)
                    same_handle
                  ∙ ap
                      (λ i.
                        put (s.page_owners new.page_handle) i side (more new_qty)
                          (put (s.page_owners old.page_handle) old.level_index side (fewer old_qty)
                            (depths s))
                          l side' raw)
                      same_index)))

  apart-Shows :
      is_applied (validate_erase old side old_qty s).0 ≡ true
      → is_applied (validate_add new side new_qty s) ≡ true
      → same_address old new ≡ false
      → Shows
          (add_validated new side new_qty
            (erase_validated old side old_qty (validate_erase old side old_qty s).1 s))
          (replaced (depths s))
  apart-Shows ok ok' there l side' v' raw k =
      let plan = (validate_erase old side old_qty s).1 in
      let left = erase_validated old side old_qty plan s in
      let keeps = erase_validated-Keeps old side old_qty plan s in
      let inside = validate_add-IsInside s new side new_qty ok' in
      let room =
        validate_add-HasRoom s new side new_qty small
          (sound.filled new.page_handle side new.level_index inside.valid) ok' in
      let inside' : IsInside new side left = record {
        valid = inside.valid;
        handle_pos = inside.handle_pos;
        inside = subst (λ n. new.page_handle ≤ n) (sym keeps.committed_eq) inside.inside;
      } in
      let room' =
        subst (HasRoom new_qty)
          (sym (
            destination_kept s sound old new side old_qty new_qty old_low new_low small ok ok'
              there))
          room in
      add_validated-Shows left (erase_applied-IsSound s old side sound old_low old_qty ok) new side
        new_low new_qty inside' room' l side' v' raw k
      ∙ (ap
            (λ (o : ℕ → PageOwner).
              put (o new.page_handle) new.level_index side (more new_qty) (depths left) l side' raw)
            keeps.owners_eq
          ∙ put_cong (s.page_owners new.page_handle) new.level_index side (more new_qty)
              (depths left)
              (put (s.page_owners old.page_handle) old.level_index side (fewer old_qty) (depths s))
              l side' raw
              (erase_validated-Shows s sound old side old_low old_qty ok l side' v' raw k))

  pub move-Shows :
      Shows
        (move old old_qty new new_qty side s).1
        (gated (move old old_qty new new_qty side s).0 replaced (depths s))
  move-Shows =
      gate s replaced (move old old_qty new new_qty side s)
        (λ ok.
          let (_, e) = move_result ok in
          let done : is_applied (move_levels old old_qty new new_qty side s).0 ≡ true =
            ap (λ (x : MutationResult × PriceLevelStore). is_applied x.0) e ∙ ok in
          let from = levels_applied done in
          subst (λ (x : MutationResult × PriceLevelStore). Shows x.1 (replaced (depths s))) e
            (elim (Bool-cases (same_address old new)) [
              | inl here ↦
                  let q = in_place done here in
                  subst (λ (x : MutationResult × PriceLevelStore). Shows x.1 (replaced (depths s)))
                    q
                    (in_place-Shows from
                      (ap (λ (x : MutationResult × PriceLevelStore). is_applied x.0) q ∙ done) here)
              | inr there ↦
                  let (to, q) = apart done there in
                  subst (λ y. Shows y (replaced (depths s))) q (apart-Shows from to there)
            ]))
        move_refused
