-- ===== src/Book/PriceLevelStore/Effects.antt =====
-- src/book/PriceLevelStore.cpp: what any call does to the abstract books.
use astra_feed_engine.Prelude.{
  ℕ, ◌+◌, ◌*◌, ◌/◌, ◌%◌, ◌<◌, ◌≡◌, inl, inr, refl, sym, ◌∙◌, ap, subst, true, false, ◌&&◌, ◌==◌,
  if◌then◌else◌, arith, Bool-cases, if_true, if_false, count_zero,
}
use astra_feed_engine.Book.{OrderSide, is_valid_side}
use astra_feed_engine.Book.PriceLevelStore.{
  PriceLevelStore, PricePageReservation, empty_level, publish_page, commit_reservation,
}
use astra_feed_engine.Book.PriceLevelStore.Levels.{reduce, reduce_checked}
use astra_feed_engine.Book.PriceLevelStore.Additions.{add}
use astra_feed_engine.Book.PriceLevelStore.Removals.{erase, move}
use astra_feed_engine.Book.PriceLevelStore.Soundness.{IsSound, has_orders, level_of, root_of}
use astra_feed_engine.Book.PriceLevelStore.Publishing.{
  root_new, is_new_page, commit_reservation-store,
}
use astra_feed_engine.Book.PriceLevelStore.Invariant.{
  Mutation, apply, IsTyped, prepare_book-store, reserve_price-store,
}
use astra_feed_engine.Book.PriceLevelStore.Invariant
use astra_feed_engine.Book.PriceLevelStore.Frames.{level_of-pages}
use astra_feed_engine.Book.PriceLevelStore.Best.{level_at}
use astra_feed_engine.Book.PriceLevelStore.Depths.{Depths, depths, put, more, fewer, shrunk_by}
use astra_feed_engine.Book.PriceLevelStore.Refinement.{
  Shows, gated, add-Shows, erase-Shows, reduce-Shows, reduce_checked-Shows,
}
use astra_feed_engine.Book.PriceLevelStore.MoveEffect.{move-Shows}

-- What a call does to the abstract books: an addition that is applied puts one order more into the
-- level of its price, a removal one less, a reduction takes shares, and a move is a removal and an
-- addition; every other call, and every call that is refused, changes nothing.
abbrev pub effect : Mutation → PriceLevelStore → Depths → Depths
effect (Invariant.prepares l) s = λ d. d
effect (Invariant.reserves l raw) s = λ d. d
effect (Invariant.commits r) s = λ d. d
effect (Invariant.adds a side qty) s =
    gated (add a side qty s).0 (put (s.page_owners a.page_handle) a.level_index side (more qty))
effect (Invariant.reduces a side current reduction) s =
    gated (reduce a side current reduction s).0
      (put (s.page_owners a.page_handle) a.level_index side (shrunk_by reduction))
effect (Invariant.reduces_checked l p a side current reduction) s =
    gated (reduce_checked l p a side current reduction s).0
      (put (s.page_owners a.page_handle) a.level_index side (shrunk_by reduction))
effect (Invariant.erases a side qty) s =
    gated (erase a side qty s).0 (put (s.page_owners a.page_handle) a.level_index side (fewer qty))
effect (Invariant.moves old old_qty new new_qty side) s =
    gated (move old old_qty new new_qty side s).0 (λ d.
      put (s.page_owners new.page_handle) new.level_index side (more new_qty)
        (put (s.page_owners old.page_handle) old.level_index side (fewer old_qty) d))

-- A page that is not in use has no orders.
unused_level :
    (s : PriceLevelStore) (h i : ℕ) (side : OrderSide)
    → IsSound s
    → is_valid_side side ≡ true
    → s.committed_pages < h
    → i < 65536
    → level_of h side i s ≡ empty_level
unused_level s h i side sound v far low =
    let t = sound.tracked h side v (omega arith) in
    let idle = sound.unused h side v far in
    let off =
      count_zero 65536 (has_orders h side s) (omega (arith, t.ranked.counted, idle)) i low in
    let full = sound.filled h side i v in let agree = full.agree in ground (arith, off, agree)

pub same_levels :
    (s s' : PriceLevelStore) → s'.pages ≡ s.pages → s'.roots ≡ s.roots → Shows s' (depths s)
unfolding level_at
same_levels s s' e f l side v raw k =
    ap
      (λ (x : ℕ → ℕ).
        if x (l * 65536 + raw / 65536) == 0
        then empty_level
        else level_of (x (l * 65536 + raw / 65536)) side (raw % 65536) s')
      f
    ∙ ap (λ y. if root_of l (raw / 65536) s == 0 then empty_level else y)
        (level_of-pages s s' e (root_of l (raw / 65536) s) side (raw % 65536))

published-Shows :
    (s : PriceLevelStore) (r : PricePageReservation)
    → IsSound s
    → r.page_index < 65536
    → is_new_page r s ≡ true
    → Shows (publish_page r s) (depths s)
unfolding level_at
published-Shows s r sound low new l side v raw k =
    let s' = publish_page r s in
    let h = r.address.page_handle in
    let cap = sound.capacity_low in
    let room = sound.room in
    let next_page : h ≡ s.committed_pages + 1 = ground (arith, new, cap, room) in
    let no_root : root_of r.stock_locate r.page_index s ≡ 0 = ground (arith, new) in
    let p = raw / 65536 in
    let at =
      root_new s sound r next_page (ground (arith, new)) no_root low (ground (arith, new)) l p
        (omega (arith, k)) in
    elim (Bool-cases (l == r.stock_locate && p == r.page_index)) [
      | inl here ↦
          let a : l ≡ r.stock_locate = ground (arith, here) in
          let b : p ≡ r.page_index = ground (arith, here) in
          let before : root_of l p s ≡ 0 =
            ap (λ x. root_of x p s) a ∙ (ap (λ x. root_of r.stock_locate x s) b ∙ no_root) in
          let before' : (root_of l p s == 0) ≡ true = ground (arith, before) in
          let now : root_of l p s' ≡ h = at ∙ if_true _ _ here in
          let none_there : level_of (root_of l p s') side (raw % 65536) s ≡ empty_level =
            ap (λ x. level_of x side (raw % 65536) s) now
            ∙ unused_level s h (raw % 65536) side sound v (omega (arith, next_page))
                (omega arith) in
          let kept = level_of-pages s s' refl (root_of l p s') side (raw % 65536) in
          let now_pos : (root_of l p s' == 0) ≡ false = ground (arith, now, next_page) in
          if_false empty_level _ now_pos
          ∙ (kept ∙ (none_there ∙ sym (if_true empty_level _ before')))
      | inr there ↦
          let now : root_of l p s' ≡ root_of l p s = at ∙ if_false _ _ there in
          ap (λ x. if x == 0 then empty_level else level_of x side (raw % 65536) s') now
          ∙ ap (λ y. if root_of l p s == 0 then empty_level else y)
              (level_of-pages s s' refl (root_of l p s) side (raw % 65536))
    ]

pub commit-Shows :
    (s : PriceLevelStore) (r : PricePageReservation)
    → IsSound s
    → r.page_index < 65536
    → Shows (commit_reservation r s).1 (depths s)
commit-Shows s r sound low = elim (commit_reservation-store s r) [
  | inl e ↦ subst (λ y. Shows y (depths s)) (sym e) (λ l side v raw k. refl)
  | inr (new, e) ↦ subst (λ y. Shows y (depths s)) (sym e) (published-Shows s r sound low new)
]

-- The price store refines the abstract books, which keep for every stock locate, side and price the
-- number of shares and of orders: in a sound store, with arguments of their machine types, after any
-- call the level at any price of any book is what the call promises of it (see `effect`). No price but
-- those of the call changes, no sum wraps, a new page shows no orders, and a refused call changes
-- nothing.
pub apply-Shows :
    (m : Mutation) (s : PriceLevelStore)
    → IsSound s
    → IsTyped m
    → Shows (apply m s) (effect m s (depths s))
unfolding apply
apply-Shows (Invariant.prepares l) s k t = elim (prepare_book-store l s) [
  | inl e ↦ subst (λ y. Shows y (depths s)) (sym e) (λ l side v raw k. refl)
  | inr e ↦ subst (λ y. Shows y (depths s)) (sym e) (same_levels s _ refl refl)
]
apply-Shows (Invariant.reserves l raw) s k t = elim (reserve_price-store l raw s) [
  | inl e ↦ subst (λ y. Shows y (depths s)) (sym e) (λ l side v raw k. refl)
  | inr e ↦ subst (λ y. Shows y (depths s)) (sym e) (same_levels s _ refl refl)
]
apply-Shows (Invariant.commits r) s k t = commit-Shows s r k t
apply-Shows (Invariant.adds a side qty) s k (low, small) = add-Shows s k a side low qty small
apply-Shows (Invariant.reduces a side current reduction) s k low =
    reduce-Shows s k a side low current reduction
apply-Shows (Invariant.reduces_checked l p a side current reduction) s k low =
    reduce_checked-Shows s k a side low l p current reduction
apply-Shows (Invariant.erases a side qty) s k low = erase-Shows s k a side low qty
apply-Shows (Invariant.moves old old_qty new new_qty side) s k (old_low, new_low, small) =
    move-Shows s k old new side old_qty new_qty old_low new_low small
