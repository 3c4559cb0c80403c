-- ===== src/Book/PriceLevelStore/Invariant.antt =====
-- src/book/PriceLevelStore.cpp: whatever calls are made on a new store, in whatever order and with
-- whatever results, it stays sound.
use astra_feed_engine.Prelude.{
  ℕ, ◌-◌, ◌^◌, ◌≤◌, ◌<◌, ◌≡◌, ◌⊎◌, inl, inr, refl, sym, ap, subst, List, [], ◌∷◌, All, Bool, false,
  not, ◌==◌, some, arith, update, add_u64, inc_u32, count_none,
}
use astra_feed_engine.Bitmap
use astra_feed_engine.Bitmap.{test}
use astra_feed_engine.Bitmap.Summaries.{clear-TwoLevels}
use astra_feed_engine.Book.{OrderSide}
use astra_feed_engine.Book.PriceLevelStore.{
  PriceAddress, PricePageReservation, PriceLevelStoreConfig, PriceLevelState, PriceLevelStore,
  empty_level, blank_store, new_store, prepare_book, reserve_price, commit_reservation,
}
use astra_feed_engine.Book.PriceLevelStore.Levels.{level_unchecked, reduce, reduce_checked}
use astra_feed_engine.Book.PriceLevelStore.Additions.{add}
use astra_feed_engine.Book.PriceLevelStore.Removals.{erase, move}
use astra_feed_engine.Book.PriceLevelStore.Ranking.{IsRanked}
use astra_feed_engine.Book.PriceLevelStore.Soundness.{IsFilled, IsSound, level_of}
use astra_feed_engine.Book.PriceLevelStore.Publishing.{commit_reservation-IsSound}
use astra_feed_engine.Book.PriceLevelStore.Operations.{
  add-IsSound, erase-IsSound, reduce-IsSound, reduce_checked-IsSound,
}
use astra_feed_engine.Book.PriceLevelStore.Moving.{move-IsSound}

-- A call of a method that can change the store.
pub data Mutation : Type 0 where
  prepares : ℕ → Mutation
  reserves : ℕ → ℕ → Mutation
  commits : PricePageReservation → Mutation
  adds : PriceAddress → OrderSide → ℕ → Mutation
  reduces : PriceAddress → OrderSide → ℕ → ℕ → Mutation
  reduces_checked : ℕ → ℕ → PriceAddress → OrderSide → ℕ → ℕ → Mutation
  erases : PriceAddress → OrderSide → ℕ → Mutation
  moves : PriceAddress → ℕ → PriceAddress → ℕ → OrderSide → Mutation

unfoldable pub apply : Mutation → PriceLevelStore → PriceLevelStore
apply (prepares l) s = (prepare_book l s).1
apply (reserves l raw) s = (reserve_price l raw s).1
apply (commits r) s = (commit_reservation r s).1
apply (adds a side qty) s = (add a side qty s).1
apply (reduces a side current reduction) s = (reduce a side current reduction s).1
apply (reduces_checked l p a side current reduction) s =
    (reduce_checked l p a side current reduction s).1
apply (erases a side qty) s = (erase a side qty s).1
apply (moves old old_qty new new_qty side) s = (move old old_qty new new_qty side s).1

unfoldable pub apply_all : List Mutation → PriceLevelStore → PriceLevelStore
apply_all [] s = s
apply_all (m ∷ ms) s = apply_all ms (apply m s)

-- Indices are 16-bit and quantities 32-bit words.
abbrev pub IsTyped : Mutation → Type 0
IsTyped (prepares l) = Unit
IsTyped (reserves l raw) = Unit
IsTyped (commits r) = r.page_index < 65536
IsTyped (adds a side qty) = (a.level_index < 65536) × (qty < 2 ^ 32)
IsTyped (reduces a side current reduction) = a.level_index < 65536
IsTyped (reduces_checked l p a side current reduction) = a.level_index < 65536
IsTyped (erases a side qty) = a.level_index < 65536
IsTyped (moves old old_qty new new_qty side) =
    (old.level_index < 65536) × (new.level_index < 65536) × (new_qty < 2 ^ 32)

-- Preparation and the count of failures are apart from the rest.
unrelated-IsSound :
    (s : PriceLevelStore) (prepared : ℕ → ℕ) (n failures : ℕ)
    → IsSound s
    → IsSound (record s {
      prepared_books = prepared;
      prepared_book_count = n;
      page_capacity_failures = failures;
    })
unfolding level_unchecked
unrelated-IsSound s prepared n failures k = record {
  filled = k.filled;
  tracked = k.tracked;
  summed = λ l side v.
      let o = k.summed l side v in
      record {
        ranked = o.ranked;
        levels = o.levels;
        shows = o.shows;
        best_handle = o.best_handle;
        best_level = o.best_level;
      };
  rooted = k.rooted;
  owned = λ h pos used.
      let o = k.owned h pos used in
      record {
        root = o.root;
        committed = o.committed;
        index_low = o.index_low;
        locate_pos = o.locate_pos;
      };
  unused = k.unused;
  fresh = k.fresh;
  room = k.room;
  capacity_low = k.capacity_low;
}

pub prepare_book-store :
    (l : ℕ) (s : PriceLevelStore)
    → ((prepare_book l s).1 ≡ s)
      ⊎ ((prepare_book l s).1 ≡ record s {
        prepared_books = update s.prepared_books l 1;
        prepared_book_count = inc_u32 s.prepared_book_count;
      })
unfolding prepare_book
prepare_book-store l s = ground arith

pub reserve_price-store :
    (l raw : ℕ) (s : PriceLevelStore)
    → ((reserve_price l raw s).1 ≡ s)
      ⊎ ((reserve_price l raw s).1
          ≡ record s { page_capacity_failures = add_u64 s.page_capacity_failures 1 })
unfolding reserve_price
reserve_price-store l raw s = ground arith

pub apply-IsSound :
    (m : Mutation) (s : PriceLevelStore) → IsTyped m → IsSound s → IsSound (apply m s)
unfolding apply
apply-IsSound (prepares l) s t k = elim (prepare_book-store l s) [
  | inl e ↦ subst IsSound (sym e) k
  | inr e ↦ subst IsSound (sym e) (unrelated-IsSound s _ _ s.page_capacity_failures k)
]
apply-IsSound (reserves l raw) s t k = elim (reserve_price-store l raw s) [
  | inl e ↦ subst IsSound (sym e) k
  | inr e ↦ subst IsSound (sym e) (unrelated-IsSound s s.prepared_books s.prepared_book_count _ k)
]
apply-IsSound (commits r) s t k = commit_reservation-IsSound s r k t
apply-IsSound (adds a side qty) s (low, small) k = add-IsSound s a side k low qty small
apply-IsSound (reduces a side current reduction) s low k =
    reduce-IsSound s a side k low current reduction
apply-IsSound (reduces_checked l p a side current reduction) s low k =
    reduce_checked-IsSound s a side k low l p current reduction
apply-IsSound (erases a side qty) s low k = erase-IsSound s a side k low qty
apply-IsSound (moves old old_qty new new_qty side) s (old_low, new_low, small) k =
    move-IsSound s k old new side old_qty new_qty old_low new_low small

apply_all-IsSound :
    (ms : List Mutation) (s : PriceLevelStore)
    → All IsTyped ms
    → IsSound s
    → IsSound (apply_all ms s)
unfolding apply_all
apply_all-IsSound [] s t k = k
apply_all-IsSound (m ∷ ms) s (t, ts) k = apply_all-IsSound ms (apply m s) ts (apply-IsSound m s t k)

clear-test : (j : ℕ) → test j Bitmap.clear ≡ false
unfolding test Bitmap.clear
clear-test j = refl

no_ranking :
    (side : OrderSide) (occ : ℕ → Bool) (b : ℕ)
    → ((j : ℕ) → j < 65536 → occ j ≡ false)
    → IsRanked side occ 0 b
no_ranking side occ b off = record {
  counted = sym (count_none 65536 occ off);
  best_low = λ some_index. absurd (not_positive some_index);
  best_on = λ some_index. absurd (not_positive some_index);
  best_top = λ some_index. absurd (not_positive some_index);
}
  where
    not_positive : 0 < 0 → ⊥
    not_positive k = omega arith

none_owned : (h : ℕ) → 0 < h → h ≤ 0 → ⊥
none_owned h a b = omega arith

level_at_start :
    (config : PriceLevelStoreConfig) (h : ℕ) (side : OrderSide) (i : ℕ)
    → level_of h side i (blank_store config) ≡ empty_level
unfolding blank_store level_unchecked
level_at_start config h OrderSide.buy i = refl
level_at_start config h OrderSide.sell i = refl
level_at_start config h OrderSide.no_side i = refl

blank_store-IsSound :
    (config : PriceLevelStoreConfig)
    → config.page_capacity < 2 ^ 32 - 1
    → IsSound (blank_store config)
unfolding blank_store
blank_store-IsSound config small = record {
  filled = λ h side i v.
      subst IsFilled (sym (level_at_start config h side i))
        (record { qty_low = omega arith; count_low = omega arith; agree = refl });
  tracked = λ h side v pos. record {
    ranked = no_ranking side _ 0 (λ j k.
        ap (λ (x : PriceLevelState). not (x.order_count == 0)) (level_at_start config h side j));
    levels = clear-TwoLevels;
    many = λ more. absurd (none_more more);
    few = λ _ j k. clear-test j;
  };
  summed = λ l side v. record {
    ranked = no_ranking side _ 0 (λ j k. refl);
    levels = clear-TwoLevels;
    shows = λ p k. clear-test p;
    best_handle = λ pos. absurd (none_on pos);
    best_level = λ pos. absurd (none_on pos);
  };
  rooted = λ l p k ne. absurd (ne refl);
  owned = λ h pos used. absurd (none_owned h pos used);
  unused = λ h side v far. refl;
  fresh = λ h far. refl;
  room = omega arith;
  capacity_low = small;
}
  where
    none_more : 1 < 0 → ⊥
    none_more k = omega arith

    none_on : 0 < 0 → ⊥
    none_on k = omega arith

-- The price store's invariant: after any calls on a new store, with arguments of their machine types
-- and whatever their results, every level's quantity and order count fit their words and are zero
-- together; a page's summary has the number of its levels with orders and the best of them, and its
-- bitmap shows them when they are two or more; a book's summary and bitmap do so for its pages, and its
-- best price is the best level of its best page; and roots and page owners name each other.
pub apply_all-new-IsSound :
    (config : PriceLevelStoreConfig) (s : PriceLevelStore) (ms : List Mutation)
    → config.page_capacity < 2 ^ 32
    → new_store config ≡ some s
    → All IsTyped ms
    → IsSound (apply_all ms s)
unfolding new_store
apply_all-new-IsSound config s ms word e typed =
    let same_store : blank_store config ≡ s = ground (arith, e) in
    apply_all-IsSound ms s typed
      (subst IsSound same_store (blank_store-IsSound config (ground (arith, e))))
