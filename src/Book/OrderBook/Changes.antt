-- ===== src/Book/OrderBook/Changes.antt =====
-- src/book/OrderBook.cpp: a write of the order table with the call of the price levels that goes with
-- it keeps the two in agreement.
use astra_feed_engine.Prelude.{
  ℕ, ◌-◌, ◌≡◌, inl, inr, refl, sym, ◌∙◌, ◌<◌, ap, subst, true, false, arith, Bool-cases,
  true-ne-false,
}
use astra_feed_engine.Book.{MutationResult, is_applied}
use astra_feed_engine.Book.PriceLevelStore.{PriceLevelState, PriceLevelStore}
use astra_feed_engine.Book.PriceLevelStore.Depths.{Depths, put, more, fewer, shrunk_by}
use astra_feed_engine.Book.PriceLevelStore.Step.{IsStep, Grows-refl}
use astra_feed_engine.Book.OrderTable.{
  OrderState, OrderTable, Place, in_direct, in_fallback, is_active, was_seen, erased_state,
}
use astra_feed_engine.Book.OrderTable.States.{state_at}
use astra_feed_engine.Book.OrderTable.Sums.{InRange, IsWrite, IsWrite-there, same_place}
use astra_feed_engine.Book.OrderBook.Ledger.{
  order_side, books-post, books-retire, books-replace, books-shrink, books-exchange, books-rollback,
  IsWrite-InRange,
}
use astra_feed_engine.Book.OrderBook.Booked.{
  IsPosted, IsPosted-Grows, IsPlaced, IsBooked, IsWritable, IsWrite-IsPlaced, changed-Shows,
  exchanged-Shows,
}

-- The change of the level on which an order stands.
abbrev pub at_order :
    PriceLevelStore → OrderState → (PriceLevelState → PriceLevelState) → Depths → Depths
at_order s state f =
    put (s.page_owners state.price_page_handle) state.price_level_index (order_side state) f

pub erased_off : is_active erased_state ≡ false
unfolding is_active
erased_off = refl

pub erased-IsWritable : (s : PriceLevelStore) → IsWritable s erased_state
erased-IsWritable s on = absurd (true-ne-false (sym on ∙ erased_off))

-- An unseen slot has no live order.
pub unseen_off :
    {s : PriceLevelStore} {t : OrderTable} (p : Place)
    → IsPlaced t s
    → was_seen (state_at p t) ≡ false
    → is_active (state_at p t) ≡ false
unseen_off {s} {t} p k unseen = elim (Bool-cases (is_active (state_at p t))) [
  | inl on ↦ absurd (true-ne-false (sym (k.seen p on) ∙ unseen))
  | inr off ↦ off
]

same_place-state :
    (p q : Place) (t : OrderTable) → same_place q p ≡ true → state_at q t ≡ state_at p t
same_place-state (in_direct i) (in_direct j) t same =
    let e : j ≡ i = ground (arith, same) in ap (λ x. state_at (in_direct x) t) e
same_place-state (in_fallback b w) (in_fallback b' w') t same =
    let e : b' ≡ b = ground (arith, same) in
    let f : w' ≡ w = ground (arith, same) in
    ap (λ x. state_at (in_fallback x w') t) e ∙ ap (λ x. state_at (in_fallback b x) t) f
same_place-state (in_direct i) (in_fallback b w) t same = absurd (true-ne-false (sym same))
same_place-state (in_fallback b w) (in_direct i) t same = absurd (true-ne-false (sym same))

module _ {p : Place} {state : OrderState} {t t' : OrderTable} (s : PriceLevelStore)
    (x : MutationResult × PriceLevelStore) (inside : InRange p t) (w : IsWrite p state t t')
    (k : IsBooked t s) (ok : is_applied x.0 ≡ true) where
  pub post-IsBooked :
      was_seen (state_at p t) ≡ false
      → is_active state ≡ true
      → was_seen state ≡ true
      → IsPosted s state
      → IsStep s (at_order s state (more state.qty)) x
      → IsBooked t' x.1
  post-IsBooked unseen on seen posted step = record {
    sound = step.sound;
    placed =
        IsWrite-IsPlaced s x.1 w step.grows
          (λ _. (seen, IsPosted-Grows s x.1 state step.grows posted)) k.placed;
    shows =
        changed-Shows s x.1 state (more state.qty) _ _ posted k.shows (step.shows ok)
          (λ l side raw. books-post inside w l side raw (unseen_off p k.placed unseen) on);
  }

  pub retire-IsBooked :
      is_active (state_at p t) ≡ true
      → state ≡ erased_state
      → IsStep s (at_order s (state_at p t) (fewer (state_at p t).qty)) x
      → IsBooked t' x.1
  retire-IsBooked on gone step = record {
    sound = step.sound;
    placed =
        IsWrite-IsPlaced s x.1 w step.grows
          (subst (IsWritable x.1) (sym gone) (erased-IsWritable x.1)) k.placed;
    shows =
        changed-Shows s x.1 (state_at p t) (fewer (state_at p t).qty) _ _ (k.placed.posted p on)
          k.shows (step.shows ok)
          (λ l side raw. books-retire inside w l side raw on (ap is_active gone ∙ erased_off));
  }

  pub replace-IsBooked :
      is_active (state_at p t) ≡ true
      → is_active state ≡ true
      → was_seen state ≡ true
      → IsPosted s state
      → IsStep s
          (λ d.
            at_order s state
              (more state.qty)
              (at_order s (state_at p t) (fewer (state_at p t).qty) d))
          x
      → IsBooked t' x.1
  replace-IsBooked on on' seen posted step = record {
    sound = step.sound;
    placed =
        IsWrite-IsPlaced s x.1 w step.grows
          (λ _. (seen, IsPosted-Grows s x.1 state step.grows posted)) k.placed;
    shows =
        exchanged-Shows s x.1 (state_at p t) state (fewer (state_at p t).qty) (more state.qty) _ _
          (k.placed.posted p on) posted k.shows (step.shows ok)
          (λ l side raw. books-replace inside w l side raw on on');
  }

module _ {p : Place} {t t' : OrderTable} (s : PriceLevelStore)
    (x : MutationResult × PriceLevelStore) (reduction : ℕ) (inside : InRange p t)
    (w : IsWrite p (record (state_at p t) { qty = (state_at p t).qty - reduction }) t t')
    (k : IsBooked t s) (ok : is_applied x.0 ≡ true) where
  pub shrink-IsBooked :
      is_active (state_at p t) ≡ true
      → reduction < (state_at p t).qty
      → IsStep s (at_order s (state_at p t) (shrunk_by reduction)) x
      → IsBooked t' x.1
  unfolding is_active was_seen
  shrink-IsBooked on small step =
      let posted = k.placed.posted p on in
      let later = IsPosted-Grows s x.1 (state_at p t) step.grows posted in
      let low = later.qty_low in
      record {
        sound = step.sound;
        placed =
            IsWrite-IsPlaced s x.1 w step.grows
              (λ _. (
                k.placed.seen p on,
                record {
                  inside = later.inside;
                  locate_eq = later.locate_eq;
                  page_eq = later.page_eq;
                  index_low = later.index_low;
                  handle_pos = later.handle_pos;
                  side_valid = later.side_valid;
                  qty_pos = omega (arith, small);
                  qty_low = omega (arith, low);
                },
              ))
              k.placed;
        shows =
            changed-Shows s x.1 (state_at p t) (shrunk_by reduction) _ _ posted k.shows
              (step.shows ok)
              (λ l side raw. books-shrink inside reduction w l side raw on (omega (arith, small)));
      }

-- The other orders are as they were when a new one is published.
pub kept_state :
    {p' : Place} {new : OrderState} {t mid : OrderTable} (s : PriceLevelStore) (p : Place)
    → was_seen (state_at p' t) ≡ false
    → IsWrite p' new t mid
    → IsPlaced t s
    → is_active (state_at p t) ≡ true
    → state_at p mid ≡ state_at p t
kept_state {p'} {new} {t} {mid} s p unseen w k live = elim (Bool-cases (same_place p p')) [
  | inl same ↦ absurd (
      true-ne-false
        (sym live ∙ (ap is_active (same_place-state p' p t same) ∙ unseen_off p' k unseen)))
  | inr other ↦ IsWrite-there p w other
]

-- A new order is published, and then one is erased.
module _ {p p' : Place} {new : OrderState} {t mid t' : OrderTable} (s : PriceLevelStore)
    (inside' : InRange p' t) (unseen : was_seen (state_at p' t) ≡ false) (w : IsWrite p' new t mid)
    (on : is_active new ≡ true) (seen : was_seen new ≡ true) (posted : IsPosted s new)
    (k : IsBooked t s) where
  pub exchange-IsBooked :
      (x : MutationResult × PriceLevelStore)
      → InRange p t
      → is_active (state_at p t) ≡ true
      → IsWrite p erased_state mid t'
      → IsStep s
          (λ d.
            at_order s new (more new.qty) (at_order s (state_at p t) (fewer (state_at p t).qty) d))
          x
      → is_applied x.0 ≡ true
      → IsBooked t' x.1
  exchange-IsBooked x inside live w' step ok =
      let g = step.grows in
      let placed =
        IsWrite-IsPlaced s x.1 w g (λ _. (seen, IsPosted-Grows s x.1 new g posted)) k.placed in
      record {
        sound = step.sound;
        placed = IsWrite-IsPlaced x.1 x.1 w' (Grows-refl x.1) (erased-IsWritable x.1) placed;
        shows =
            exchanged-Shows s x.1 (state_at p t) new (fewer (state_at p t).qty) (more new.qty) _ _
              (k.placed.posted p live) posted k.shows (step.shows ok)
              (λ l side raw.
                books-exchange inside' w (IsWrite-InRange p w inside) w'
                  (unseen_off p' k.placed unseen) on erased_off l side raw inside
                  (kept_state s p unseen w k.placed live) live);
      }

  pub rollback-IsBooked :
      InRange p mid → state_at p mid ≡ new → IsWrite p erased_state mid t' → IsBooked t' s
  rollback-IsBooked inside same w' =
      let placed = IsWrite-IsPlaced s s w (Grows-refl s) (λ _. (seen, posted)) k.placed in
      record {
        sound = k.sound;
        placed = IsWrite-IsPlaced s s w' (Grows-refl s) (erased-IsWritable s) placed;
        shows = λ l side v raw h.
            k.shows l side v raw h
            ∙ sym (
                books-rollback inside' w inside w' (unseen_off p' k.placed unseen) on erased_off l
                  side raw same);
      }
