-- ===== src/Book/BookManager/Opening.antt =====
-- src/book/BookManager.cpp: the stores of a new manager agree, as both are empty.
use astra_feed_engine.Prelude.{
  ℕ, zero, suc, ◌^◌, ◌<◌, ◌≡◌, ◌≢◌, refl, sym, ◌∙◌, ap, subst, true, false, some, [], arith,
  true-ne-false,
}
use astra_feed_engine.Book.{OrderSide}
use astra_feed_engine.Book.OrderTable.{
  OrderTable, Place, in_direct, in_fallback, new_table, is_valid_config, empty_state, is_active,
}
use astra_feed_engine.Book.OrderTable.States.{state_at}
use astra_feed_engine.Book.OrderTable.Sums.{sum_below, total}
use astra_feed_engine.Book.PriceLevelStore.{blank_store, new_store, empty_level}
use astra_feed_engine.Book.PriceLevelStore.Best.{level_at}
use astra_feed_engine.Book.PriceLevelStore.Refinement.{Shows}
use astra_feed_engine.Book.PriceLevelStore.Invariant.{apply_all, apply_all-new-IsSound}
use astra_feed_engine.Book.OrderBook.Counting.{live_orders}
use astra_feed_engine.Book.OrderBook.Ledger.{books}
use astra_feed_engine.Book.OrderBook.Booked.{IsPlaced, IsBooked}
use astra_feed_engine.Book.BookManager.{BookManager, BookManagerConfig, new_manager}

sum_below_zero : (n : ℕ) → sum_below n (λ _. 0) ≡ 0
unfolding sum_below
sum_below_zero zero = refl
sum_below_zero (suc n) = omega (arith, sum_below_zero n)

abbrev pub new_states : ℕ → ℕ → OrderTable
new_states slots buckets = record {
  direct_slots = slots;
  fallback_bucket_count = buckets;
  direct = λ _. empty_state;
  fallback = λ _ _. record { state = empty_state; order_ref = 0 };
}

-- No order is stored at first, and no level is filled.
new_states-off :
    (slots buckets : ℕ) (p : Place) → is_active (state_at p (new_states slots buckets)) ≡ false
unfolding state_at is_active
new_states-off slots buckets (in_direct i) = refl
new_states-off slots buckets (in_fallback b w) = refl

new_states-books :
    (slots buckets l : ℕ) (side : OrderSide) (raw : ℕ)
    → books (new_states slots buckets) l side raw ≡ empty_level
unfolding books total state_at is_active
new_states-books slots buckets l side raw =
    ground (arith, sum_below_zero slots, sum_below_zero buckets)

pub new_states-live : (slots buckets l : ℕ) → live_orders l (new_states slots buckets) ≡ 0
unfolding live_orders total state_at is_active
new_states-live slots buckets l = ground (arith, sum_below_zero slots, sum_below_zero buckets)

blank-Shows :
    (config : BookManagerConfig) → Shows (blank_store config.prices) (λ _ _ _. empty_level)
unfolding level_at blank_store
blank-Shows config l side v raw k = refl

pub new_manager-IsBooked :
    (config : BookManagerConfig) (m : BookManager)
    → config.prices.page_capacity < 2 ^ 32
    → new_manager config ≡ some m
    → IsBooked m.orders m.prices
unfolding new_manager new_table new_store is_valid_config apply_all
new_manager-IsBooked config m word e =
    let a : new_states config.orders.direct_slots config.orders.fallback_bucket_count ≡ m.orders =
      ground (arith, e) in
    let b : blank_store config.prices ≡ m.prices = ground (arith, e) in
    let c : new_store config.prices ≡ some m.prices = ground (arith, e) in
    let n : config.orders.fallback_bucket_count ≢ 0 = ground (arith, e) in
    let off = new_states-off config.orders.direct_slots config.orders.fallback_bucket_count in
    let none_there = λ (p : Place).
      λ (on : is_active
            (state_at p (new_states config.orders.direct_slots config.orders.fallback_bucket_count))
          ≡ true).
        true-ne-false (sym on ∙ off p) in
    record {
      sound = apply_all-new-IsSound config.prices m.prices [] word c tt;
      placed =
          subst (λ t. IsPlaced t m.prices) a
            (record {
              buckets = n;
              seen = λ p on. absurd (none_there p on);
              posted = λ p on. absurd (none_there p on);
            });
      shows = λ l side v raw h.
          ap (λ s. level_at l side raw s) (sym b)
          ∙ (blank-Shows config l side v raw h
              ∙ (sym (
                    new_states-books config.orders.direct_slots config.orders.fallback_bucket_count
                      l side raw)
                  ∙ ap (λ t. books t l side raw) a));
    }
