-- ===== src/Book/OrderBook/Levelled.antt =====
-- src/book/OrderBook.cpp: what reservePrice and the commit of a new page leave to the operations.
use astra_feed_engine.Prelude.{
  ℕ, ◌+◌, ◌%◌, ◌/◌, ◌^◌, ◌==◌, Bool-cases, ◌≤◌, ◌<◌, ◌≡◌, inl, inr, refl, sym, ◌∙◌, ap, subst, true,
  false, ◌&&◌, arith, if_elim, update_self, update_ne,
}
use astra_feed_engine.Book.{MutationResult, is_applied}
use astra_feed_engine.Book.PriceLevelStore.{
  PageOwner, PriceLevelStore, PricePageReservation, is_valid_reservation, root_handle_matches,
  is_book_prepared, reserve_price, commit_reservation, publish_page, prepare_book,
}
use astra_feed_engine.Book.PriceLevelStore.Soundness.{IsSound, root_of}
use astra_feed_engine.Book.PriceLevelStore.Publishing.{
  commit_reservation-store, commit_reservation-IsSound,
}
use astra_feed_engine.Book.PriceLevelStore.Invariant.{
  apply-IsSound, prepare_book-store, reserve_price-store,
}
use astra_feed_engine.Book.PriceLevelStore.Invariant
use astra_feed_engine.Book.PriceLevelStore.Depths.{depths}
use astra_feed_engine.Book.PriceLevelStore.Refinement.{Shows}
use astra_feed_engine.Book.PriceLevelStore.Effects.{same_levels, commit-Shows}
use astra_feed_engine.Book.PriceLevelStore.Step.{Grows, Grows-refl, Grows-same}
use astra_feed_engine.Book.OrderTable.{OrderTable}
use astra_feed_engine.Book.OrderBook.{BookView, is_invalidating}
use astra_feed_engine.Book.OrderBook.Orders.{reserve_level}
use astra_feed_engine.Book.OrderBook.Booked.{IsBooked, IsPlaced-Grows}

-- A call that changes no level.
pub idle-IsBooked :
    (t : OrderTable) (s s' : PriceLevelStore)
    → IsSound s'
    → Grows s s'
    → Shows s' (depths s)
    → IsBooked t s
    → IsBooked t s'
idle-IsBooked t s s' sound g same k = record {
  sound = sound;
  placed = IsPlaced-Grows t s s' g k.placed;
  shows = λ l side v raw h. same l side v raw h ∙ k.shows l side v raw h;
}

-- The reservation names a page of this book.
pub record IsReserved (stock_locate : ℕ) (r : PricePageReservation) (s : PriceLevelStore)
    : Type 0 where
  pub handle_pos : 0 < r.address.page_handle
  pub inside : r.address.page_handle ≤ s.committed_pages
  pub locate_eq : (s.page_owners r.address.page_handle).stock_locate ≡ stock_locate
  pub page_eq : (s.page_owners r.address.page_handle).page_index ≡ r.page_index
  pub index_low : r.address.level_index < 65536

reserve_price-low :
    (l raw : ℕ) (s : PriceLevelStore)
    → ((reserve_price l raw s).0.page_index < 65536)
      × ((reserve_price l raw s).0.address.level_index < 65536)
unfolding reserve_price
reserve_price-low l raw s = (ground arith, ground arith)

reserve_price-IsBooked :
    (l raw : ℕ) (t : OrderTable) (s : PriceLevelStore)
    → IsBooked t s
    → IsBooked t (reserve_price l raw s).1
unfolding Invariant.apply
reserve_price-IsBooked l raw t s k = elim (reserve_price-store l raw s) [
  | inl e ↦ subst (IsBooked t) (sym e) k
  | inr e ↦
      let sound = apply-IsSound (Invariant.reserves l raw) s tt k.sound in
      idle-IsBooked t s (reserve_price l raw s).1 sound
        (subst (Grows s) (sym e) (Grows-same s _ refl refl))
        (subst (λ y. Shows y (depths s)) (sym e) (same_levels s _ refl refl)) k
]

pub prepare_book-IsBooked :
    (l : ℕ) (t : OrderTable) (s : PriceLevelStore) → IsBooked t s → IsBooked t (prepare_book l s).1
unfolding Invariant.apply
prepare_book-IsBooked l t s k = elim (prepare_book-store l s) [
  | inl e ↦ subst (IsBooked t) (sym e) k
  | inr e ↦
      let sound = apply-IsSound (Invariant.prepares l) s tt k.sound in
      idle-IsBooked t s (prepare_book l s).1 sound
        (subst (Grows s) (sym e) (Grows-same s _ refl refl))
        (subst (λ y. Shows y (depths s)) (sym e) (same_levels s _ refl refl)) k
]

-- A page that is there already.
existing-IsReserved :
    (l raw : ℕ) (s : PriceLevelStore)
    → IsSound s
    → is_valid_reservation (reserve_price l raw s).0 ≡ true
    → (reserve_price l raw s).0.requires_commit ≡ false
    → IsReserved l (reserve_price l raw s).0 (reserve_price l raw s).1
unfolding reserve_price root_handle_matches
existing-IsReserved l raw s sound valid old = record {
  handle_pos = ground (arith, valid, old);
  inside = ground (arith, valid, old);
  locate_eq = ground (arith, valid, old);
  page_eq = ground (arith, valid, old);
  index_low = (reserve_price-low l raw s).1;
}

new-IsReserved :
    (r : PricePageReservation) (s : PriceLevelStore)
    → r.address.level_index < 65536
    → is_applied (commit_reservation r s).0 ≡ true
    → r.requires_commit ≡ true
    → IsReserved r.stock_locate r (commit_reservation r s).1
unfolding commit_reservation
new-IsReserved r s low ok needs =
    let e : publish_page r s ≡ (commit_reservation r s).1 = ground (arith, ok, needs) in
    let own =
      update_self s.page_owners r.address.page_handle
        (record { stock_locate = r.stock_locate; page_index = r.page_index; committed = 1 }) in
    subst (IsReserved r.stock_locate r) e (record {
      handle_pos = ground (arith, ok);
      inside = omega arith;
      locate_eq = ap (λ (x : PageOwner). x.stock_locate) own;
      page_eq = ap (λ (x : PageOwner). x.page_index) own;
      index_low = low;
    })

commit_reservation-Grows :
    (r : PricePageReservation) (s : PriceLevelStore)
    → IsSound s
    → Grows s (commit_reservation r s).1
commit_reservation-Grows r s sound = elim (commit_reservation-store s r) [
  | inl e ↦ subst (Grows s) (sym e) (Grows-refl s)
  | inr (new, e) ↦
      let cap = sound.capacity_low in
      let room = sound.room in
      let next_page : r.address.page_handle ≡ s.committed_pages + 1 =
        ground (arith, new, cap, room) in
      subst (Grows s) (sym e) (record {
        committed = omega (arith, next_page);
        owners = λ h k.
            update_ne s.page_owners r.address.page_handle _ h (λ q. omega (arith, q, k, next_page));
      })
]

commit_reservation-IsBooked :
    (r : PricePageReservation) (t : OrderTable) (s : PriceLevelStore)
    → r.page_index < 65536
    → IsBooked t s
    → IsBooked t (commit_reservation r s).1
commit_reservation-IsBooked r t s low k =
    idle-IsBooked t s (commit_reservation r s).1 (commit_reservation-IsSound s r k.sound low)
      (commit_reservation-Grows r s k.sound) (commit-Shows s r k.sound low) k

reserved_locate :
    (l raw : ℕ) (s : PriceLevelStore)
    → is_valid_reservation (reserve_price l raw s).0 ≡ true
    → (reserve_price l raw s).0.stock_locate ≡ l
unfolding reserve_price
reserved_locate l raw s valid = ground (arith, valid)

-- In a sound store a reservation never fails a test of its invariants, and is not stale.
reserve_price-Accepts :
    (l raw : ℕ) (s : PriceLevelStore)
    → IsSound s
    → is_invalidating (reserve_price l raw s).0.result ≡ false
unfolding reserve_price root_handle_matches
reserve_price-Accepts l raw s sound =
    let p = (raw / 65536) % 65536 in
    elim (Bool-cases (root_of l p s == 0)) [
      | inl free ↦ ground (arith, free)
      | inr taken ↦
          let (inside, a, b) = sound.rooted l p (omega arith) (ground (arith, taken)) in
          let live = (sound.owned (root_of l p s) (ground (arith, taken)) inside).committed in
          ground (arith, taken, inside, a, b, live)
    ]

commit_reservation-Applies :
    (l raw : ℕ) (s : PriceLevelStore)
    → IsSound s
    → is_valid_reservation (reserve_price l raw s).0 ≡ true
    → (reserve_price l raw s).0.requires_commit ≡ true
    → is_applied (commit_reservation (reserve_price l raw s).0 (reserve_price l raw s).1).0 ≡ true
unfolding reserve_price commit_reservation is_book_prepared
commit_reservation-Applies l raw s sound valid needs =
    let fresh = sound.fresh ((s.committed_pages + 1) % 2 ^ 32) in
    let cap = sound.capacity_low in
    let room = sound.room in ground (arith, valid, needs, fresh, cap, room)

-- What an operation knows of the level that it reserved.
pub record IsLevelled (v : BookView) (x : PricePageReservation × MutationResult × BookView)
    : Type 0 where
  pub same_orders : x.2.orders ≡ v.orders
  pub same_book : x.2.book ≡ v.book
  pub booked : IsBooked v.orders x.2.prices
  pub accepts : is_invalidating x.0.result ≡ false
  pub paged : is_valid_reservation x.0 ≡ true → is_applied x.1 ≡ true
  pub reserved :
      is_valid_reservation x.0 ≡ true
      → is_applied x.1 ≡ true
      → IsReserved v.book.stock_locate x.0 x.2.prices

pub reserve_level-IsLevelled :
    (raw : ℕ) (v : BookView) → IsBooked v.orders v.prices → IsLevelled v (reserve_level raw v)
unfolding reserve_level
reserve_level-IsLevelled raw v k =
    let l = v.book.stock_locate in
    let price = (reserve_price l raw v.prices).0 in
    let prices = (reserve_price l raw v.prices).1 in
    let (page_low, level_low) = reserve_price-low l raw v.prices in
    let booked = reserve_price-IsBooked l raw v.orders v.prices k in
    if_elim (IsLevelled v) (is_valid_reservation price && price.requires_commit)
      (λ both. record {
        same_orders = refl;
        same_book = refl;
        booked = commit_reservation-IsBooked price v.orders prices page_low booked;
        accepts = reserve_price-Accepts l raw v.prices k.sound;
        paged =
            λ valid. commit_reservation-Applies l raw v.prices k.sound valid (ground (arith, both));
        reserved = λ valid ok.
            subst (λ n. IsReserved n price (commit_reservation price prices).1)
              (reserved_locate l raw v.prices valid)
              (new-IsReserved price prices level_low ok (ground (arith, both)));
      })
      (λ one. record {
        same_orders = refl;
        same_book = refl;
        booked = booked;
        accepts = reserve_price-Accepts l raw v.prices k.sound;
        paged = λ valid. refl;
        reserved = λ valid ok.
            existing-IsReserved l raw v.prices k.sound valid (ground (arith, one, valid));
      })
