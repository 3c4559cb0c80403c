-- ===== src/Book/PriceLevelStore/Refinement.antt =====
-- src/book/PriceLevelStore.cpp: every call does to the abstract books what it promises.
use astra_feed_engine.Prelude.{
  ℕ, ◌+◌, ◌-◌, ◌%◌, ◌^◌, ◌<◌, ◌≡◌, inl, inr, refl, sym, subst, Bool, true, false, if◌then◌else◌,
  arith, Bool-cases,
}
use astra_feed_engine.Book.{MutationResult, OrderSide, is_applied, is_valid_side}
use astra_feed_engine.Book.PriceLevelStore.{PriceLevelState, PriceAddress, PriceLevelStore}
use astra_feed_engine.Book.PriceLevelStore.Levels.{
  level_unchecked, write_level, reduce, reduce_checked, validate_address,
}
use astra_feed_engine.Book.PriceLevelStore.Additions.{validate_add, add_validated, add}
use astra_feed_engine.Book.PriceLevelStore.Removals.{validate_erase, erase_validated, erase}
use astra_feed_engine.Book.PriceLevelStore.Soundness.{IsSound, IsFilled}
use astra_feed_engine.Book.PriceLevelStore.Adding.{joined, HasRoom}
use astra_feed_engine.Book.PriceLevelStore.Removing.{reduced, HasOrder}
use astra_feed_engine.Book.PriceLevelStore.Frames.{add_validated-Keeps, erase_validated-Keeps}
use astra_feed_engine.Book.PriceLevelStore.Operations.{
  IsInside, validate_address-IsInside, validate_add-IsInside, validate_add-HasRoom,
  validate_erase-HasOrder,
}
use astra_feed_engine.Book.PriceLevelStore.Best.{level_at}
use astra_feed_engine.Book.PriceLevelStore.Depths.{
  Depths, depths, put, more, fewer, shrunk_by, written-put,
}

-- The abstract books of a store are these.
abbrev pub Shows : PriceLevelStore → Depths → Type 0
Shows s d =
    (l : ℕ) (side : OrderSide)
    → is_valid_side side ≡ true
    → (raw : ℕ) → raw < 2 ^ 32
    → level_at l side raw s ≡ d l side raw

-- A change that happens when the result is applied.
abbrev pub gated : MutationResult → (Depths → Depths) → Depths → Depths
gated result f d = if is_applied result then f d else d

pub gate :
    (s : PriceLevelStore) (f : Depths → Depths) (x : MutationResult × PriceLevelStore)
    → (is_applied x.0 ≡ true → Shows x.1 (f (depths s)))
    → (is_applied x.0 ≡ false → x.1 ≡ s)
    → Shows x.1 (gated x.0 f (depths s))
gate s f x done refused =
    let choose : Bool → Depths = λ b. if b then f (depths s) else depths s in
    elim (Bool-cases (is_applied x.0)) [
      | inl ok ↦ subst (λ b. Shows x.1 (choose b)) (sym ok) (done ok)
      | inr no_change ↦
          subst (λ b. Shows x.1 (choose b)) (sym no_change)
            (subst (λ y. Shows y (depths s)) (sym (refused no_change)) (λ l side v raw k. refl))
    ]

joined-more :
    (qty : ℕ) (level : PriceLevelState) → HasRoom qty level → joined qty level ≡ more qty level
joined-more qty level r =
    let a : (level.total_qty + qty) % 2 ^ 64 ≡ level.total_qty + qty = omega (arith, r.qty_fits) in
    let b : (level.order_count + 1) % 2 ^ 32 ≡ level.order_count + 1 =
      omega (arith, r.count_fits) in
    ground (arith, a, b)

reduced-fewer :
    (qty : ℕ) (level : PriceLevelState)
    → IsFilled level
    → HasOrder qty level
    → reduced qty level ≡ fewer qty level
reduced-fewer qty level f r =
    let a : (level.total_qty + (2 ^ 64 - qty)) % 2 ^ 64 ≡ level.total_qty - qty =
      omega (arith, f.qty_low, r.within, r.some_shares) in
    let b : (level.order_count + (2 ^ 32 - 1)) % 2 ^ 32 ≡ level.order_count - 1 =
      omega (arith, f.count_low, r.some_order) in
    ground (arith, a, b)

module _ (s : PriceLevelStore) (sound : IsSound s) (a : PriceAddress) (side : OrderSide)
    (low : a.level_index < 65536) where
  abbrev level : PriceLevelState
  level = level_unchecked a side s

  abbrev here : (PriceLevelState → PriceLevelState) → Depths → Depths
  here f = put (s.page_owners a.page_handle) a.level_index side f

  pub add_validated-Shows :
      (qty : ℕ)
      → IsInside a side s
      → HasRoom qty level
      → Shows (add_validated a side qty s) (here (more qty) (depths s))
  add_validated-Shows qty inside room l side' v' raw k =
      let keeps = add_validated-Keeps a side qty s in
      written-put s sound a.page_handle a.level_index side inside.valid inside.handle_pos
        inside.inside low l side' v' raw k (more qty) (joined qty level)
        (add_validated a side qty s) keeps.pages_eq keeps.roots_eq (joined-more qty level room)

  pub add-Shows :
      (qty : ℕ)
      → qty < 2 ^ 32
      → Shows (add a side qty s).1 (gated (add a side qty s).0 (here (more qty)) (depths s))
  unfolding add
  add-Shows qty small =
      gate s (here (more qty)) (add a side qty s)
        (λ ok.
          let ok' : is_applied (validate_add a side qty s) ≡ true = ground (arith, ok) in
          let inside = validate_add-IsInside s a side qty ok' in
          let room =
            validate_add-HasRoom s a side qty small
              (sound.filled a.page_handle side a.level_index inside.valid) ok' in
          let e : add_validated a side qty s ≡ (add a side qty s).1 = ground (arith, ok') in
          subst (λ y. Shows y (here (more qty) (depths s))) e (add_validated-Shows qty inside room))
        (λ refused. ground (arith, refused))

  pub erase_validated-Shows :
      (qty : ℕ)
      → is_applied (validate_erase a side qty s).0 ≡ true
      → Shows
          (erase_validated a side qty (validate_erase a side qty s).1 s)
          (here (fewer qty) (depths s))
  erase_validated-Shows qty ok l side' v' raw k =
      let plan = (validate_erase a side qty s).1 in
      let keeps = erase_validated-Keeps a side qty plan s in
      let (inside, has, _) = validate_erase-HasOrder s a side qty ok in
      written-put s sound a.page_handle a.level_index side inside.valid inside.handle_pos
        inside.inside low l side' v' raw k (fewer qty) (reduced qty level)
        (erase_validated a side qty plan s) keeps.pages_eq keeps.roots_eq
        (reduced-fewer qty level (sound.filled a.page_handle side a.level_index inside.valid) has)

  pub erase-Shows :
      (qty : ℕ)
      → Shows (erase a side qty s).1 (gated (erase a side qty s).0 (here (fewer qty)) (depths s))
  unfolding erase
  erase-Shows qty =
      gate s (here (fewer qty)) (erase a side qty s)
        (λ ok.
          let ok' : is_applied (validate_erase a side qty s).0 ≡ true = ground (arith, ok) in
          let e : erase_validated a side qty (validate_erase a side qty s).1 s
              ≡ (erase a side qty s).1 =
            ground (arith, ok') in
          subst (λ y. Shows y (here (fewer qty) (depths s))) e (erase_validated-Shows qty ok'))
        (λ refused. ground (arith, refused))

  abbrev shrunk : ℕ → PriceLevelStore
  shrunk qty = write_level a side (record level { total_qty = level.total_qty - qty }) s

  shrunk-Shows :
      (qty : ℕ)
      → is_applied (validate_address a side s) ≡ true
      → Shows (shrunk qty) (here (shrunk_by qty) (depths s))
  unfolding write_level
  shrunk-Shows qty ok l side' v' raw k =
      let inside = validate_address-IsInside s a side ok in
      written-put s sound a.page_handle a.level_index side inside.valid inside.handle_pos
        inside.inside low l side' v' raw k (shrunk_by qty)
        (record level { total_qty = level.total_qty - qty }) (shrunk qty) refl refl refl

  pub reduce-Shows :
      (current reduction : ℕ)
      → Shows
          (reduce a side current reduction s).1
          (gated (reduce a side current reduction s).0 (here (shrunk_by reduction)) (depths s))
  unfolding reduce
  reduce-Shows current reduction =
      gate s (here (shrunk_by reduction)) (reduce a side current reduction s)
        (λ ok.
          let e : shrunk reduction ≡ (reduce a side current reduction s).1 = ground (arith, ok) in
          subst (λ y. Shows y (here (shrunk_by reduction) (depths s))) e
            (shrunk-Shows reduction (ground (arith, ok))))
        (λ refused. ground (arith, refused))

  pub reduce_checked-Shows :
      (l p current reduction : ℕ)
      → Shows (reduce_checked l p a side current reduction s).1 (
          gated
            (reduce_checked l p a side current reduction s).0
            (here (shrunk_by reduction))
            (depths s))
  unfolding reduce_checked
  reduce_checked-Shows l p current reduction =
      gate s (here (shrunk_by reduction)) (reduce_checked l p a side current reduction s)
        (λ ok.
          let e : shrunk reduction ≡ (reduce_checked l p a side current reduction s).1 =
            ground (arith, ok) in
          subst (λ y. Shows y (here (shrunk_by reduction) (depths s))) e
            (shrunk-Shows reduction (ground (arith, ok))))
        (λ refused. ground (arith, refused))
