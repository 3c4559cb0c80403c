-- ===== src/Book/OrderBook/Accepts.antt =====
-- src/book/PriceLevelStore.cpp: in a sound store the calls that an order book makes for its own orders
-- never fail a test of the store's invariants.
use astra_feed_engine.Prelude.{
  ℕ, ◌-◌, ◌*◌, ◌^◌, ◌≤◌, ◌<◌, ◌≡◌, refl, ◌∙◌, ap, Bool, true, false, not, ◌&&◌, ◌||◌, ◌==◌, arith,
  count, count-le, count_join, sub_u64, add_u64,
}
use astra_feed_engine.Book.{MutationResult, OrderSide, is_applied}
use astra_feed_engine.Book.PriceLevelStore.{
  PriceLevelState, PriceAddress, PriceLevelStore, root_handle_matches, owns_address,
}
use astra_feed_engine.Book.PriceLevelStore.Levels.{
  level_unchecked, validate_address, validate_reduction, reduce_checked,
}
use astra_feed_engine.Book.PriceLevelStore.Additions.{
  validate_activation, validate_add, add, page_summary, book_summary,
}
use astra_feed_engine.Book.PriceLevelStore.Removals.{
  validate_erase, move, move_levels, move_in_place,
}
use astra_feed_engine.Book.PriceLevelStore.Deactivation.{validate_deactivation, DeactivationPlan}
use astra_feed_engine.Book.PriceLevelStore.Soundness.{IsSound, has_orders, has_levels}
use astra_feed_engine.Book.PriceLevelStore.Operations.{IsInside}
use astra_feed_engine.Book.PriceLevelStore.Removing.{HasOrder}
use astra_feed_engine.Book.PriceLevelStore.Validation.{validate_deactivation-IsRightPlan}
use astra_feed_engine.Book.OrderBook.{is_invalidating}

-- Room for one more.
count_off : (n i : ℕ) (f : ℕ → Bool) → i < n → f i ≡ false → count n f < n
count_off n i f h off =
    let all = count-le n (λ j. j == i || f j) in
    let more = count_join n i f (λ j. j == i || f j) h off (λ j k. refl) in omega (arith, all, more)

-- A level that no quantity can overflow before its count does.
abbrev pub IsBounded : PriceLevelState → Type 0
IsBounded level = level.total_qty ≤ level.order_count * (2 ^ 32 - 1)

module _ (s : PriceLevelStore) (sound : IsSound s) (a : PriceAddress) (side : OrderSide)
    (inside : IsInside a side s) (low : a.level_index < 65536) where
  abbrev level : PriceLevelState
  level = level_unchecked a side s

  address-Applies : validate_address a side s ≡ MutationResult.applied
  unfolding validate_address
  address-Applies =
      let v = inside.valid in
      let p = inside.handle_pos in let u = inside.inside in ground (arith, v, p, u)

  activation-Applies :
      (level.order_count == 0) ≡ true → validate_activation a side s ≡ MutationResult.applied
  unfolding validate_activation
  activation-Applies idle =
      let h = a.page_handle in
      let o = s.page_owners h in
      let own = sound.owned h inside.handle_pos inside.inside in
      let live = own.committed in
      let loc = own.locate_pos in
      let p = inside.handle_pos in
      let u = inside.inside in
      let t = sound.tracked h side inside.valid p in
      let b = sound.summed o.stock_locate side inside.valid in
      let room : (page_summary h side s).active_levels < 65536 = omega (
        arith,
        t.ranked.counted,
        count_off 65536 a.level_index (has_orders h side s) low (ground (arith, idle)),
      ) in
      let best = t.ranked.best_low in
      let pages : ((page_summary h side s).active_levels == 0) ≡ true
          → (book_summary o.stock_locate side s).active_pages < 65536 =
        λ none_here. omega (
          arith,
          b.ranked.counted,
          count_off 65536 o.page_index (has_levels o.stock_locate side s) own.index_low (
              ap (λ x. not (x == 0) && not ((page_summary x side s).active_levels == 0)) own.root
              ∙ ground (arith, none_here)),
        ) in
      ground (arith, live, loc, p, u, room, best, pages)

  pub add-Accepts :
      (qty : ℕ) → qty < 2 ^ 32 → IsBounded level → is_invalidating (add a side qty s).0 ≡ false
  unfolding add validate_add
  add-Accepts qty small bound =
      let at = address-Applies in
      let on = activation-Applies in
      let full = sound.filled a.page_handle side a.level_index inside.valid in
      let c = full.count_low in
      let agree = full.agree in ground (arith, at, on, c, agree, small, bound)

  pub erase-Applies :
      (qty : ℕ) → HasOrder qty level → is_applied (validate_erase a side qty s).0 ≡ true
  unfolding validate_erase
  erase-Applies qty k =
      let at = address-Applies in
      let off : (level.order_count == 1) ≡ true
          → (validate_deactivation a side s).0 ≡ MutationResult.applied =
        λ one.
          let (p, e, _) =
            validate_deactivation-IsRightPlan s sound a.page_handle a.level_index side inside.valid
              inside.handle_pos inside.inside low (ground (arith, one)) in
          ap (λ (x : MutationResult × DeactivationPlan). x.0) e in
      let x = k.some_shares in
      let y = k.some_order in
      let z = k.within in
      let l = k.last in let m = k.others in ground (arith, at, off, x, y, z, l, m)

  pub reduction-Applies :
      (qty reduction : ℕ)
      → 0 < reduction
      → reduction < qty
      → HasOrder qty level
      → validate_reduction level qty reduction ≡ MutationResult.applied
  unfolding validate_reduction
  reduction-Applies qty reduction some part k =
      let y = k.some_order in
      let z = k.within in
      let l = k.last in let m = k.others in ground (arith, some, part, y, z, l, m)

  -- The page is the one that its owner names.
  pub owns_address-true :
      (l p : ℕ)
      → (s.page_owners a.page_handle).stock_locate ≡ l
      → (s.page_owners a.page_handle).page_index ≡ p
      → owns_address l p a s ≡ true
  unfolding owns_address root_handle_matches
  owns_address-true l p e f =
      let own = sound.owned a.page_handle inside.handle_pos inside.inside in
      let live = own.committed in
      let loc = own.locate_pos in
      let h = inside.handle_pos in let u = inside.inside in ground (arith, e, f, live, loc, h, u)

  pub reduce_checked-Accepts :
      (l p qty reduction : ℕ)
      → (s.page_owners a.page_handle).stock_locate ≡ l
      → (s.page_owners a.page_handle).page_index ≡ p
      → 0 < reduction
      → reduction < qty
      → HasOrder qty level
      → is_applied (reduce_checked l p a side qty reduction s).0 ≡ true
  unfolding reduce_checked
  reduce_checked-Accepts l p qty reduction e f some part k =
      let own = sound.owned a.page_handle inside.handle_pos inside.inside in
      let live = own.committed in
      let loc = own.locate_pos in
      let at = address-Applies in
      let ok = reduction-Applies qty reduction some part k in
      ground (arith, e, f, live, loc, at, ok)

module _ (s : PriceLevelStore) (sound : IsSound s) (a b : PriceAddress) (side : OrderSide)
    (inside : IsInside a side s) (inside' : IsInside b side s) (low : a.level_index < 65536)
    (low' : b.level_index < 65536) (qty qty' : ℕ) (small : qty' < 2 ^ 32)
    (k : HasOrder qty (level s sound a side inside low))
    (bound : IsBounded (level s sound a side inside low))
    (bound' : IsBounded (level s sound b side inside' low')) where
  in_place-Accepts : is_invalidating (move_in_place a qty qty' side s).0 ≡ false
  unfolding move_in_place sub_u64 add_u64
  in_place-Accepts =
      let z = k.within in
      let full = sound.filled a.page_handle side a.level_index inside.valid in
      let c = full.count_low in ground (arith, small, bound, z, c)

  add_result : is_invalidating (validate_add b side qty' s) ≡ false
  unfolding add
  add_result =
      let e = add-Accepts s sound b side inside' low' qty' small bound' in ground (arith, e)

  pub move-Accepts :
      (s.page_owners a.page_handle).stock_locate ≡ (s.page_owners b.page_handle).stock_locate
      → is_invalidating (move a qty b qty' side s).0 ≡ false
  unfolding move move_levels
  move-Accepts e =
      let out = erase-Applies s sound a side inside low qty k in
      let own = sound.owned a.page_handle inside.handle_pos inside.inside in
      let own' = sound.owned b.page_handle inside'.handle_pos inside'.inside in
      let live = own.committed in
      let live' = own'.committed in
      let h = inside.handle_pos in
      let u = inside.inside in
      let h' = inside'.handle_pos in
      let u' = inside'.inside in
      let here = in_place-Accepts in
      let there = add_result in ground (arith, e, out, live, live', h, u, h', u', here, there)
