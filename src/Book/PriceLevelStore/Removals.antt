-- ===== src/Book/PriceLevelStore/Removals.antt =====
-- src/book/PriceLevelStore.cpp: an order leaves its level, or moves to another one.
use astra_feed_engine.Prelude.{
  ℕ, ◌-◌, ◌^◌, Bool, not, ◌&&◌, ◌||◌, none, some, ◌==◌, ltb, if◌then◌else◌, sub_u64, add_u64,
  dec_u32,
}
use astra_feed_engine.Book.{MutationResult, OrderSide, is_applied}
use astra_feed_engine.Book.PriceLevelStore.{PriceAddress, PriceLevelStore, owner}
use astra_feed_engine.Book.PriceLevelStore.Levels.{level_unchecked, write_level, validate_address}
use astra_feed_engine.Book.PriceLevelStore.Additions.{validate_add, add_validated}
use astra_feed_engine.Book.PriceLevelStore.Deactivation.{
  DeactivationPlan, no_plan, validate_deactivation, deactivate_level,
}

unfoldable pub validate_erase :
    PriceAddress → OrderSide → ℕ → PriceLevelStore → MutationResult × DeactivationPlan
validate_erase address side qty s =
    let address_result = validate_address address side s in
    let level = level_unchecked address side s in
    if not (is_applied address_result)
    then (address_result, no_plan)
    else if qty == 0
    then (MutationResult.invalid_quantity, no_plan)
    else if level.order_count == 0 || level.total_qty == 0
    then (MutationResult.missing_price_level, no_plan)
    else if ltb level.total_qty qty
    then (MutationResult.quantity_underflow, no_plan)
    else if level.order_count == 1 && not (level.total_qty == qty)
    then (MutationResult.invariant_violation, no_plan)
    else if ltb 1 level.order_count && level.total_qty == qty
    then (MutationResult.invariant_violation, no_plan)
    else if level.order_count == 1
    then validate_deactivation address side s
    else (MutationResult.applied, no_plan)

unfoldable pub erase_validated :
    PriceAddress → OrderSide → ℕ → DeactivationPlan → PriceLevelStore → PriceLevelStore
unfolding sub_u64 dec_u32
erase_validated address side qty plan s =
    let level = level_unchecked address side s in
    let reduced =
      write_level address side
        (record {
          total_qty = sub_u64 level.total_qty qty;
          order_count = dec_u32 level.order_count;
        })
        s in
    if level.order_count == 1 then deactivate_level address side plan reduced else reduced

unfoldable pub erase :
    PriceAddress → OrderSide → ℕ → PriceLevelStore → MutationResult × PriceLevelStore
erase address side remaining_order_qty s =
    let (validation, plan) = validate_erase address side remaining_order_qty s in
    if not (is_applied validation)
    then (validation, s)
    else (MutationResult.applied, erase_validated address side remaining_order_qty plan s)

abbrev pub same_address : PriceAddress → PriceAddress → Bool
same_address a b = a.page_handle == b.page_handle && a.level_index == b.level_index

-- The branch of move for one level: the order keeps its place and changes its quantity.
unfoldable pub move_in_place :
    PriceAddress → ℕ → ℕ → OrderSide → PriceLevelStore → MutationResult × PriceLevelStore
unfolding sub_u64 add_u64
move_in_place address old_qty new_qty side s =
    let level = level_unchecked address side s in
    let without_old = sub_u64 level.total_qty old_qty in
    if ltb (2 ^ 64 - 1 - new_qty) without_old then (MutationResult.quantity_overflow, s) else (
      MutationResult.applied,
      write_level address side (record level { total_qty = add_u64 without_old new_qty }) s,
    )

-- move, once the owners of the two pages have been compared.
unfoldable pub move_levels :
    PriceAddress
    → ℕ
    → PriceAddress
    → ℕ
    → OrderSide
    → PriceLevelStore
    → MutationResult × PriceLevelStore
move_levels old_address old_qty new_address new_qty side s =
    let (source_validation, source_plan) = validate_erase old_address side old_qty s in
    let destination_validation = validate_add new_address side new_qty s in
    if not (is_applied source_validation)
    then (source_validation, s)
    else if same_address old_address new_address
    then move_in_place old_address old_qty new_qty side s
    else if not (is_applied destination_validation)
    then (destination_validation, s)
    else (
      MutationResult.applied,
      add_validated new_address side new_qty
          (erase_validated old_address side old_qty source_plan s),
    )

unfoldable pub move :
    PriceAddress
    → ℕ
    → PriceAddress
    → ℕ
    → OrderSide
    → PriceLevelStore
    → MutationResult × PriceLevelStore
move old_address old_qty new_address new_qty side s =
    if new_qty == 0
    then (MutationResult.invalid_quantity, s)
    else elim (owner old_address.page_handle s) [
      | none ↦ (MutationResult.invalid_price_page, s)
      | some old_owner ↦ elim (owner new_address.page_handle s) [
        | none ↦ (MutationResult.invalid_price_page, s)
        | some new_owner ↦
            if old_owner.committed == 0 || new_owner.committed == 0
            then (MutationResult.invariant_violation, s)
            else if not (old_owner.stock_locate == new_owner.stock_locate)
            then (MutationResult.locate_mismatch, s)
            else move_levels old_address old_qty new_address new_qty side s
      ]
    ]
