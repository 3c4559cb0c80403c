-- ===== src/Book/PriceLevelStore/Operations.antt =====
-- src/book/PriceLevelStore.cpp: each mutation keeps the store sound.
use astra_feed_engine.Prelude.{
  ℕ, ◌-◌, ◌^◌, ◌≤◌, ◌<◌, ◌≡◌, ◌⊎◌, inl, inr, refl, sym, ◌∙◌, ap, subst, true, ◌&&◌, ◌==◌, arith,
  Bool-cases,
}
use astra_feed_engine.Book.{MutationResult, OrderSide, is_applied, is_valid_side}
use astra_feed_engine.Book.PriceLevelStore.{PriceLevelState, PriceAddress, PriceLevelStore}
use astra_feed_engine.Book.PriceLevelStore.Levels.{
  level_unchecked, write_level, validate_address, validate_reduction, reduce, reduce_checked,
}
use astra_feed_engine.Book.PriceLevelStore.Additions.{validate_add, add_validated, add}
use astra_feed_engine.Book.PriceLevelStore.Deactivation.{DeactivationPlan, validate_deactivation}
use astra_feed_engine.Book.PriceLevelStore.Removals.{validate_erase, erase_validated, erase}
use astra_feed_engine.Book.PriceLevelStore.Soundness.{IsFilled, IsSound, has_orders}
use astra_feed_engine.Book.PriceLevelStore.Touch.{touch-IsSound}
use astra_feed_engine.Book.PriceLevelStore.Adding.{HasRoom, add_validated-IsSound}
use astra_feed_engine.Book.PriceLevelStore.Removing.{HasOrder, erase_validated-IsSound}
use astra_feed_engine.Book.PriceLevelStore.Validation.{
  IsRightPlan, validate_deactivation-IsRightPlan,
}

-- What validateAddress has tested.
pub record IsInside (a : PriceAddress) (side : OrderSide) (s : PriceLevelStore) : Type 0 where
  pub valid : is_valid_side side ≡ true
  pub handle_pos : 0 < a.page_handle
  pub inside : a.page_handle ≤ s.committed_pages

module _ (s : PriceLevelStore) (a : PriceAddress) (side : OrderSide) where
  pub validate_address-IsInside : is_applied (validate_address a side s) ≡ true → IsInside a side s
  unfolding validate_address
  validate_address-IsInside ok = record {
    valid = ground (arith, ok);
    handle_pos = ground (arith, ok);
    inside = ground (arith, ok);
  }

  abbrev level : PriceLevelState
  level = level_unchecked a side s

  -- What an addition that passes its tests may rely on.
  pub validate_add-IsInside :
      (qty : ℕ) → is_applied (validate_add a side qty s) ≡ true → IsInside a side s
  unfolding validate_add
  validate_add-IsInside qty ok = validate_address-IsInside (ground (arith, ok))

  pub validate_add-HasRoom :
      (qty : ℕ)
      → qty < 2 ^ 32
      → IsFilled level
      → is_applied (validate_add a side qty s) ≡ true
      → HasRoom qty level
  unfolding validate_add
  validate_add-HasRoom qty small full ok = record {
    some_shares = ground (arith, ok);
    qty_fits = ground (arith, ok, small);
    count_fits = let c = full.count_low in ground (arith, ok);
  }

  -- And a removal: the order is in the level, and the plan is that of the deactivation.
  pub validate_erase-HasOrder :
      (qty : ℕ)
      → is_applied (validate_erase a side qty s).0 ≡ true
      → IsInside a side s
        × HasOrder qty level
        × ((level.order_count == 1) ≡ true
            → validate_erase a side qty s ≡ validate_deactivation a side s)
  unfolding validate_erase
  validate_erase-HasOrder qty ok = (
    validate_address-IsInside (ground (arith, ok)),
    record {
      some_shares = ground (arith, ok);
      some_order = ground (arith, ok);
      within = ground (arith, ok);
      last = λ one. ground (arith, ok, one);
      others = λ more. ground (arith, ok, more);
    },
    λ one. ground (arith, ok, one),
  )

  pub add-store :
      (qty : ℕ)
      → ((add a side qty s).1 ≡ s)
        ⊎ ((is_applied (validate_add a side qty s) ≡ true)
            × ((add a side qty s).1 ≡ add_validated a side qty s))
  unfolding add
  add-store qty = elim (Bool-cases (is_applied (validate_add a side qty s))) [
    | inl ok ↦ inr (ok, ground (arith, ok))
    | inr refused ↦ inl (ground (arith, refused))
  ]

  pub erase-store :
      (qty : ℕ)
      → ((erase a side qty s).1 ≡ s)
        ⊎ ((is_applied (validate_erase a side qty s).0 ≡ true)
            × ((erase a side qty s).1
                ≡ erase_validated a side qty (validate_erase a side qty s).1 s))
  unfolding erase
  erase-store qty = elim (Bool-cases (is_applied (validate_erase a side qty s).0)) [
    | inl ok ↦ inr (ok, ground (arith, ok))
    | inr refused ↦ inl (ground (arith, refused))
  ]

  -- The level with a smaller quantity.
  abbrev shrunk : ℕ → PriceLevelState
  shrunk qty = record level { total_qty = level.total_qty - qty }

  module _ (sound : IsSound s) (low : a.level_index < 65536) where
    pub add_applied-IsSound :
        (qty : ℕ)
        → qty < 2 ^ 32
        → is_applied (validate_add a side qty s) ≡ true
        → IsSound (add_validated a side qty s)
    add_applied-IsSound qty small ok =
        let inside = validate_add-IsInside qty ok in
        let room =
          validate_add-HasRoom qty small
            (sound.filled a.page_handle side a.level_index inside.valid) ok in
        add_validated-IsSound s sound a.page_handle a.level_index side inside.valid
          inside.handle_pos inside.inside low qty room

    pub add-IsSound : (qty : ℕ) → qty < 2 ^ 32 → IsSound (add a side qty s).1
    add-IsSound qty small = elim (add-store qty) [
      | inl e ↦ subst IsSound (sym e) sound
      | inr (ok, e) ↦ subst IsSound (sym e) (add_applied-IsSound qty small ok)
    ]

    pub erase_applied-IsSound :
        (qty : ℕ)
        → is_applied (validate_erase a side qty s).0 ≡ true
        → IsSound (erase_validated a side qty (validate_erase a side qty s).1 s)
    erase_applied-IsSound qty ok =
        let (inside, has, plan_of) = validate_erase-HasOrder qty ok in
        erase_validated-IsSound s sound a.page_handle a.level_index side inside.valid
          inside.handle_pos inside.inside low qty has (validate_erase a side qty s).1
          (λ last.
            let on : has_orders a.page_handle side s a.level_index ≡ true =
              let c = has.some_order in ground arith in
            let (p, made, right) =
              validate_deactivation-IsRightPlan s sound a.page_handle a.level_index side
                inside.valid inside.handle_pos inside.inside low on in
            let e = ap (λ (x : MutationResult × DeactivationPlan). x.1) (plan_of last ∙ made) in
            subst (IsRightPlan a.page_handle a.level_index side s) (sym e) right)

    pub erase-IsSound : (qty : ℕ) → IsSound (erase a side qty s).1
    erase-IsSound qty = elim (erase-store qty) [
      | inl e ↦ subst IsSound (sym e) sound
      | inr (ok, e) ↦ subst IsSound (sym e) (erase_applied-IsSound qty ok)
    ]

    -- A level that keeps its orders, and some of its shares.
    shrink-IsSound :
        (current reduction : ℕ)
        → is_applied (validate_address a side s) ≡ true
        → is_applied (validate_reduction level current reduction) ≡ true
        → IsSound (write_level a side (shrunk reduction) s)
    unfolding validate_reduction
    shrink-IsSound current reduction at ok =
        let inside = validate_address-IsInside at in
        let full = sound.filled a.page_handle side a.level_index inside.valid in
        let q = full.qty_low in
        let g = full.agree in
        touch-IsSound s sound a.page_handle a.level_index side inside.valid inside.handle_pos
          (shrunk reduction) refl
          (record { qty_low = omega arith; count_low = full.count_low; agree = ground (arith, ok) })

    pub reduce-IsSound : (current reduction : ℕ) → IsSound (reduce a side current reduction s).1
    unfolding reduce
    reduce-IsSound current reduction =
        elim (Bool-cases (
          is_applied (validate_address a side s)
          && is_applied (validate_reduction level current reduction))) [
            | inl ok ↦
                let e : (reduce a side current reduction s).1
                    ≡ write_level a side (shrunk reduction) s =
                  ground (arith, ok) in
                subst IsSound (sym e)
                  (shrink-IsSound current reduction (ground arith) (ground arith))
            | inr refused ↦
                let e : (reduce a side current reduction s).1 ≡ s = ground (arith, refused) in
                subst IsSound (sym e) sound
          ]

    pub reduce_checked-IsSound :
        (l p current reduction : ℕ) → IsSound (reduce_checked l p a side current reduction s).1
    unfolding reduce_checked
    reduce_checked-IsSound l p current reduction =
        elim (Bool-cases (is_applied (reduce_checked l p a side current reduction s).0)) [
          | inl ok ↦
              let e : (reduce_checked l p a side current reduction s).1
                  ≡ write_level a side (shrunk reduction) s =
                ground (arith, ok) in
              subst IsSound (sym e)
                (shrink-IsSound current reduction (ground (arith, ok)) (ground (arith, ok)))
          | inr refused ↦
              let e : (reduce_checked l p a side current reduction s).1 ≡ s =
                ground (arith, refused) in
              subst IsSound (sym e) sound
        ]
