-- ===== src/Book/PriceLevelStore/Step.antt =====
-- src/book/PriceLevelStore.cpp: all that a caller relies on of one call: the soundness of the store, the
-- owners of its pages, the change of the abstract books, and that a refused call changes nothing.
use astra_feed_engine.Prelude.{
  ℕ, ◌≤◌, ◌<◌, ◌≡◌, ◌^◌, inl, inr, refl, sym, ◌∙◌, ap, subst, Bool, true, false, if◌then◌else◌,
  arith, Bool-cases,
}
use astra_feed_engine.Book.{MutationResult, OrderSide, is_applied}
use astra_feed_engine.Book.PriceLevelStore.{PriceAddress, PageOwner, PriceLevelStore}
use astra_feed_engine.Book.PriceLevelStore.Levels.{reduce_checked, write_level}
use astra_feed_engine.Book.PriceLevelStore.Additions.{add, add_validated, validate_add}
use astra_feed_engine.Book.PriceLevelStore.Removals.{
  erase, erase_validated, validate_erase, move, move_levels, move_in_place, same_address,
}
use astra_feed_engine.Book.PriceLevelStore.Soundness.{IsSound}
use astra_feed_engine.Book.PriceLevelStore.Frames.{add_validated-Keeps, erase_validated-Keeps}
use astra_feed_engine.Book.PriceLevelStore.Operations.{
  add-store, erase-store, add-IsSound, erase-IsSound, reduce_checked-IsSound,
}
use astra_feed_engine.Book.PriceLevelStore.Moving.{
  move-store, move-IsSound, source_refused, stays, destination_refused, moves,
}
use astra_feed_engine.Book.PriceLevelStore.Depths.{Depths, depths, put, more, fewer, shrunk_by}
use astra_feed_engine.Book.PriceLevelStore.Refinement.{
  Shows, gated, add-Shows, erase-Shows, reduce_checked-Shows,
}
use astra_feed_engine.Book.PriceLevelStore.MoveEffect.{replaced, move-Shows}

-- Pages that are in use keep their owners.
pub record Grows (s s' : PriceLevelStore) : Type 0 where
  pub committed : s.committed_pages ≤ s'.committed_pages
  pub owners : (h : ℕ) → h ≤ s.committed_pages → s'.page_owners h ≡ s.page_owners h

pub Grows-refl : (s : PriceLevelStore) → Grows s s
Grows-refl s = record { committed = omega arith; owners = λ h k. refl }

pub Grows-same :
    (s s' : PriceLevelStore)
    → s'.page_owners ≡ s.page_owners
    → s'.committed_pages ≡ s.committed_pages
    → Grows s s'
Grows-same s s' e f = record {
  committed = omega (arith, f);
  owners = λ h k. ap (λ (x : ℕ → PageOwner). x h) e;
}

pub Grows-trans : (a b c : PriceLevelStore) → Grows a b → Grows b c → Grows a c
Grows-trans a b c f g = record {
  committed = omega (arith, f.committed, g.committed);
  owners = λ h k. g.owners h (omega (arith, k, f.committed)) ∙ f.owners h k;
}

-- A call that makes `f` of the abstract books, or is refused.
pub record IsStep (s : PriceLevelStore) (f : Depths → Depths) (x : MutationResult × PriceLevelStore)
    : Type 0 where
  pub sound : IsSound x.1
  pub grows : Grows s x.1
  pub shows : is_applied x.0 ≡ true → Shows x.1 (f (depths s))
  pub refused : is_applied x.0 ≡ false → x.1 ≡ s

opened :
    (s : PriceLevelStore) (f : Depths → Depths) (x : MutationResult × PriceLevelStore)
    → Shows x.1 (gated x.0 f (depths s))
    → is_applied x.0 ≡ true
    → Shows x.1 (f (depths s))
opened s f x h ok =
    let choose : Bool → Depths = λ b. if b then f (depths s) else depths s in
    subst (λ b. Shows x.1 (choose b)) ok h

module _ (s : PriceLevelStore) (sound : IsSound s) (a : PriceAddress) (side : OrderSide)
    (low : a.level_index < 65536) where
  add-refused : (qty : ℕ) → is_applied (add a side qty s).0 ≡ false → (add a side qty s).1 ≡ s
  unfolding add
  add-refused qty no_change = ground (arith, no_change)

  erase-refused : (qty : ℕ) → is_applied (erase a side qty s).0 ≡ false → (erase a side qty s).1 ≡ s
  unfolding erase
  erase-refused qty no_change = ground (arith, no_change)

  reduce_checked-refused :
      (l p current reduction : ℕ)
      → is_applied (reduce_checked l p a side current reduction s).0 ≡ false
      → (reduce_checked l p a side current reduction s).1 ≡ s
  unfolding reduce_checked
  reduce_checked-refused l p current reduction no_change = ground (arith, no_change)

  pub add-IsStep :
      (qty : ℕ)
      → qty < 2 ^ 32
      → IsStep s
          (put (s.page_owners a.page_handle) a.level_index side (more qty))
          (add a side qty s)
  add-IsStep qty small = record {
    sound = add-IsSound s a side sound low qty small;
    grows = elim (add-store s a side qty) [
      | inl e ↦ subst (Grows s) (sym e) (Grows-refl s)
      | inr (_, e) ↦
          let k = add_validated-Keeps a side qty s in
          subst (Grows s) (sym e)
            (Grows-same s (add_validated a side qty s) k.owners_eq k.committed_eq)
    ];
    shows =
        opened s (put (s.page_owners a.page_handle) a.level_index side (more qty))
          (add a side qty s) (add-Shows s sound a side low qty small);
    refused = add-refused qty;
  }

  pub erase-IsStep :
      (qty : ℕ)
      → IsStep s
          (put (s.page_owners a.page_handle) a.level_index side (fewer qty))
          (erase a side qty s)
  erase-IsStep qty = record {
    sound = erase-IsSound s a side sound low qty;
    grows = elim (erase-store s a side qty) [
      | inl e ↦ subst (Grows s) (sym e) (Grows-refl s)
      | inr (_, e) ↦
          let plan = (validate_erase a side qty s).1 in
          let k = erase_validated-Keeps a side qty plan s in
          subst (Grows s) (sym e)
            (Grows-same s (erase_validated a side qty plan s) k.owners_eq k.committed_eq)
    ];
    shows =
        opened s (put (s.page_owners a.page_handle) a.level_index side (fewer qty))
          (erase a side qty s) (erase-Shows s sound a side low qty);
    refused = erase-refused qty;
  }

  reduce_checked-store :
      (l p current reduction : ℕ)
      → ((reduce_checked l p a side current reduction s).1.page_owners ≡ s.page_owners)
        × ((reduce_checked l p a side current reduction s).1.committed_pages ≡ s.committed_pages)
  unfolding reduce_checked write_level
  reduce_checked-store l p current reduction =
      elim (Bool-cases (is_applied (reduce_checked l p a side current reduction s).0)) [
        | inl ok ↦ (ground (arith, ok), ground (arith, ok))
        | inr refused ↦
            let e : (reduce_checked l p a side current reduction s).1 ≡ s =
              ground (arith, refused) in
            (
              ap (λ (x : PriceLevelStore). x.page_owners) e,
              ap (λ (x : PriceLevelStore). x.committed_pages) e,
            )
      ]

  pub reduce_checked-IsStep :
      (l p current reduction : ℕ)
      → IsStep s
          (put (s.page_owners a.page_handle) a.level_index side (shrunk_by reduction))
          (reduce_checked l p a side current reduction s)
  reduce_checked-IsStep l p current reduction =
      let (o, c) = reduce_checked-store l p current reduction in
      record {
        sound = reduce_checked-IsSound s a side sound low l p current reduction;
        grows = Grows-same s (reduce_checked l p a side current reduction s).1 o c;
        shows =
            opened s (put (s.page_owners a.page_handle) a.level_index side (shrunk_by reduction))
              (reduce_checked l p a side current reduction s)
              (reduce_checked-Shows s sound a side low l p current reduction);
        refused = reduce_checked-refused l p current reduction;
      }

module _ (s : PriceLevelStore) (sound : IsSound s) (old new : PriceAddress) (side : OrderSide)
    (old_qty new_qty : ℕ) (old_low : old.level_index < 65536) (new_low : new.level_index < 65536)
    (small : new_qty < 2 ^ 32) where
  in_place-Grows : Grows s (move_in_place old old_qty new_qty side s).1
  unfolding move_in_place write_level
  in_place-Grows = elim (Bool-cases (is_applied (move_in_place old old_qty new_qty side s).0)) [
    | inl ok ↦
        Grows-same s (move_in_place old old_qty new_qty side s).1 (ground (arith, ok))
          (ground (arith, ok))
    | inr refused ↦
        let e : (move_in_place old old_qty new_qty side s).1 ≡ s = ground (arith, refused) in
        subst (Grows s) (sym e) (Grows-refl s)
  ]

  moved-Grows : Grows s (
      add_validated new side new_qty
        (erase_validated old side old_qty (validate_erase old side old_qty s).1 s))
  moved-Grows =
      let plan = (validate_erase old side old_qty s).1 in
      let left = erase_validated old side old_qty plan s in
      let k = erase_validated-Keeps old side old_qty plan s in
      let j = add_validated-Keeps new side new_qty left in
      Grows-trans s left (add_validated new side new_qty left)
        (Grows-same s left k.owners_eq k.committed_eq)
        (Grows-same left (add_validated new side new_qty left) j.owners_eq j.committed_eq)

  move_levels-Grows : Grows s (move_levels old old_qty new new_qty side s).1
  move_levels-Grows = elim (Bool-cases (is_applied (validate_erase old side old_qty s).0)) [
    | inr refused ↦
        subst (Grows s) (sym (source_refused s old new side old_qty new_qty refused)) (Grows-refl s)
    | inl ok ↦ elim (Bool-cases (same_address old new)) [
      | inl here ↦
          subst (Grows s) (sym (stays s old new side old_qty new_qty ok here)) in_place-Grows
      | inr apart ↦ elim (Bool-cases (is_applied (validate_add new side new_qty s))) [
        | inr refused ↦
            subst (Grows s)
              (sym (destination_refused s old new side old_qty new_qty ok apart refused))
              (Grows-refl s)
        | inl ok' ↦
            subst (Grows s) (sym (moves s old new side old_qty new_qty ok apart ok')) moved-Grows
      ]
    ]
  ]

  move-refused :
      is_applied (move old old_qty new new_qty side s).0 ≡ false
      → (move old old_qty new new_qty side s).1 ≡ s
  unfolding move move_levels move_in_place
  move-refused no_change = ground (arith, no_change)

  pub move-IsStep :
      IsStep s
        (replaced s sound old new side old_qty new_qty old_low new_low small)
        (move old old_qty new new_qty side s)
  move-IsStep = record {
    sound = move-IsSound s sound old new side old_qty new_qty old_low new_low small;
    grows = elim (move-store s old new side old_qty new_qty) [
      | inl e ↦ subst (Grows s) (sym e) (Grows-refl s)
      | inr (_, e) ↦ subst (Grows s) (sym e) move_levels-Grows
    ];
    shows =
        opened s (replaced s sound old new side old_qty new_qty old_low new_low small)
          (move old old_qty new new_qty side s)
          (move-Shows s sound old new side old_qty new_qty old_low new_low small);
    refused = move-refused;
  }
