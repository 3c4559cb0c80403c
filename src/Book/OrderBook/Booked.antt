-- ===== src/Book/OrderBook/Booked.antt =====
-- src/book/OrderBook.cpp: the order table and the price levels agree, and what one write of each keeps.
use astra_feed_engine.Prelude.{
  ℕ, ◌≤◌, ◌<◌, ◌≡◌, ◌≢◌, ◌^◌, inl, inr, sym, ◌∙◌, ap, subst, true, false, if◌then◌else◌, arith,
  Bool-cases,
}
use astra_feed_engine.Book.{MutationResult, OrderSide, is_applied, is_valid_side}
use astra_feed_engine.Book.PriceLevelStore.{PriceLevelState, PageOwner, PriceLevelStore}
use astra_feed_engine.Book.PriceLevelStore.Soundness.{IsSound}
use astra_feed_engine.Book.PriceLevelStore.Depths.{Depths, depths, put, is_here}
use astra_feed_engine.Book.PriceLevelStore.Refinement.{Shows}
use astra_feed_engine.Book.PriceLevelStore.Step.{Grows, IsStep}
use astra_feed_engine.Book.OrderTable.{OrderState, OrderTable, Place, is_active, was_seen}
use astra_feed_engine.Book.OrderTable.States.{state_at}
use astra_feed_engine.Book.OrderTable.Sums.{IsWrite, IsWrite-same, IsWrite-there, same_place}
use astra_feed_engine.Book.OrderBook.Ledger.{books, order_side, put_order}

-- An order stands on the page of its locate and its price.
pub record IsPosted (s : PriceLevelStore) (state : OrderState) : Type 0 where
  pub handle_pos : 0 < state.price_page_handle
  pub inside : state.price_page_handle ≤ s.committed_pages
  pub locate_eq : (s.page_owners state.price_page_handle).stock_locate ≡ state.locate
  pub page_eq : (s.page_owners state.price_page_handle).page_index ≡ state.price_page_index
  pub index_low : state.price_level_index < 65536
  pub qty_pos : 0 < state.qty
  pub qty_low : state.qty < 2 ^ 32
  pub side_valid : is_valid_side (order_side state) ≡ true

pub IsPosted-Grows :
    (s s' : PriceLevelStore) (state : OrderState)
    → Grows s s'
    → IsPosted s state
    → IsPosted s' state
IsPosted-Grows s s' state g p =
    let o = g.owners state.price_page_handle p.inside in
    record {
      inside = omega (arith, p.inside, g.committed);
      locate_eq = ap (λ (x : PageOwner). x.stock_locate) o ∙ p.locate_eq;
      page_eq = ap (λ (x : PageOwner). x.page_index) o ∙ p.page_eq;
      index_low = p.index_low;
      qty_pos = p.qty_pos;
      qty_low = p.qty_low;
      side_valid = p.side_valid;
      handle_pos = p.handle_pos;
    }

-- Every live order was seen, and stands on its page.
pub record IsPlaced (t : OrderTable) (s : PriceLevelStore) : Type 0 where
  pub buckets : t.fallback_bucket_count ≢ 0
  pub seen : (p : Place) → is_active (state_at p t) ≡ true → was_seen (state_at p t) ≡ true
  pub posted : (p : Place) → is_active (state_at p t) ≡ true → IsPosted s (state_at p t)

-- The levels are the sums of the live orders.
pub record IsBooked (t : OrderTable) (s : PriceLevelStore) : Type 0 where
  pub sound : IsSound s
  pub placed : IsPlaced t s
  pub shows : Shows s (books t)

pub IsPlaced-Grows :
    (t : OrderTable) (s s' : PriceLevelStore) → Grows s s' → IsPlaced t s → IsPlaced t s'
IsPlaced-Grows t s s' g k = record {
  buckets = k.buckets;
  seen = k.seen;
  posted = λ p on. IsPosted-Grows s s' (state_at p t) g (k.posted p on);
}

-- What a live state must be to be written.
abbrev pub IsWritable : PriceLevelStore → OrderState → Type 0
IsWritable s state = is_active state ≡ true → (was_seen state ≡ true) × IsPosted s state

pub IsWrite-IsPlaced :
    {p : Place} {state : OrderState} {t t' : OrderTable} (s s' : PriceLevelStore)
    → IsWrite p state t t'
    → Grows s s'
    → IsWritable s' state
    → IsPlaced t s
    → IsPlaced t' s'
IsWrite-IsPlaced {p} {state} {t} {t'} s s' w g good k =
    let fit : (q : Place) → IsWritable s' (state_at q t') = λ q.
      elim (Bool-cases (same_place q p)) [
        | inl here ↦ subst (IsWritable s') (sym (IsWrite-same q w here)) good
        | inr there ↦
            subst (IsWritable s') (sym (IsWrite-there q w there))
              (λ on. (k.seen q on, IsPosted-Grows s s' (state_at q t) g (k.posted q on)))
      ] in
    record {
      buckets = λ e. k.buckets (sym w.buckets ∙ e);
      seen = λ q on. (fit q on).0;
      posted = λ q on. (fit q on).1;
    }

-- A call that is refused.
pub refused-IsBooked :
    {s : PriceLevelStore} {f : Depths → Depths} (x : MutationResult × PriceLevelStore)
    (t : OrderTable)
    → IsStep s f x
    → is_applied x.0 ≡ false
    → IsBooked t s
    → IsBooked t x.1
refused-IsBooked x t step no_change k = subst (IsBooked t) (sym (step.refused no_change)) k

-- The owner in the store stands for the fields of the order.
pub put-owner :
    (s : PriceLevelStore) (state : OrderState) (f : PriceLevelState → PriceLevelState) (d : Depths)
    (l : ℕ) (side : OrderSide) (raw : ℕ)
    → IsPosted s state
    → put
        (s.page_owners state.price_page_handle)
        state.price_level_index
        (order_side state)
        f
        d
        l
        side
        raw
      ≡ put_order state f d l side raw
put-owner s state f d l side raw p =
    let o = s.page_owners state.price_page_handle in
    let i = state.price_level_index in
    let test = λ (locate page : ℕ).
      is_here (record { stock_locate = locate; page_index = page; committed = 1 }) i
        (order_side state) l side raw in
    ap (λ locate. if test locate o.page_index then f (d l side raw) else d l side raw) p.locate_eq
    ∙ ap (λ page. if test state.locate page then f (d l side raw) else d l side raw) p.page_eq

-- A change of one level, made to the orders and to the store.
pub changed-Shows :
    (s s' : PriceLevelStore) (state : OrderState) (f : PriceLevelState → PriceLevelState)
    (d d' : Depths)
    → IsPosted s state
    → Shows s d
    → Shows s' (
        put
          (s.page_owners state.price_page_handle)
          state.price_level_index
          (order_side state)
          f
          (depths s))
    → ((l : ℕ) (side : OrderSide) (raw : ℕ) → d' l side raw ≡ put_order state f d l side raw)
    → Shows s' d'
changed-Shows s s' state f d d' p before after same l side v raw k =
    let o = s.page_owners state.price_page_handle in
    let i = state.price_level_index in
    after l side v raw k
    ∙ (ap (λ x. if is_here o i (order_side state) l side raw then f x else x)
          (before l side v raw k)
        ∙ (put-owner s state f d l side raw p ∙ sym (same l side raw)))

-- A removal and an addition.
pub exchanged-Shows :
    (s s' : PriceLevelStore) (old new : OrderState) (f g : PriceLevelState → PriceLevelState)
    (d d' : Depths)
    → IsPosted s old
    → IsPosted s new
    → Shows s d
    → Shows s' (
        put (s.page_owners new.price_page_handle) new.price_level_index (order_side new) g (
          put
            (s.page_owners old.price_page_handle)
            old.price_level_index
            (order_side old)
            f
            (depths s)))
    → ((l : ℕ) (side : OrderSide) (raw : ℕ)
        → d' l side raw ≡ put_order new g (put_order old f d) l side raw)
    → Shows s' d'
exchanged-Shows s s' old new f g d d' p q before after same l side v raw k =
    let o = s.page_owners old.price_page_handle in
    let o' = s.page_owners new.price_page_handle in
    let inner =
      ap (λ x. if is_here o old.price_level_index (order_side old) l side raw then f x else x)
        (before l side v raw k)
      ∙ put-owner s old f d l side raw p in
    after l side v raw k
    ∙ (ap (λ x. if is_here o' new.price_level_index (order_side new) l side raw then g x else x)
          inner
        ∙ (put-owner s new g (put_order old f d) l side raw q ∙ sym (same l side raw)))
