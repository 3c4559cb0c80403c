-- ===== src/Book/OrderBook/RolledBack.antt =====
-- src/book/OrderBook.cpp, replaceOrder: the erasure of a reference that was just committed undoes the commit.
use astra_feed_engine.Prelude.{
  ℕ, ◌≡◌, inl, inr, refl, sym, ◌∙◌, ap, subst, true, false, some, arith, Bool-cases, true-ne-false,
}
use astra_feed_engine.Book.{is_applied}
use astra_feed_engine.Book.PriceLevelStore.{PriceLevelStore}
use astra_feed_engine.Book.OrderTable.{
  OrderState, OrderTable, OrderSlotReservation, Place, is_active, was_seen, published, reserve,
  commit, erase_place, find_state,
}
use astra_feed_engine.Book.OrderTable
use astra_feed_engine.Book.OrderTable.States.{state_at}
use astra_feed_engine.Book.OrderTable.DayUnique.{is_seen, reserve-seen, published_seen}
use astra_feed_engine.Book.OrderTable.Publication.{
  published_active, IsConsistent, commit-find_state, reserve-order_ref,
}
use astra_feed_engine.Book.OrderTable.Writes.{commit-IsWrite, erase_place-IsWrite, find_state-found}
use astra_feed_engine.Book.OrderBook.Booked.{IsPosted, IsPlaced, IsBooked}
use astra_feed_engine.Book.OrderBook.Counting.{live_orders, live_orders-post, live_orders-retire}
use astra_feed_engine.Book.OrderBook.Changes.{unseen_off, erased_off, rollback-IsBooked}
use astra_feed_engine.Book.OrderBook.KeepingAdded.{commit-Applies}

-- The states of a table whose live orders were seen.
placed-IsConsistent : (t : OrderTable) (s : PriceLevelStore) → IsPlaced t s → IsConsistent t
unfolding state_at
placed-IsConsistent t s k = record {
  direct = λ i. k.seen (OrderTable.in_direct i);
  fallback = λ b w. k.seen (OrderTable.in_fallback b w);
}

free-unseen :
    (order_id : ℕ) (t : OrderTable)
    → is_applied (reserve order_id t).result ≡ true
    → is_seen order_id t ≡ false
free-unseen order_id t free = elim (Bool-cases (is_seen order_id t)) [
  | inl used ↦ absurd (true-ne-false (sym free ∙ ap is_applied (reserve-seen order_id t used)))
  | inr new ↦ new
]

-- The erasure of a reference that was just committed.
pub rolled-IsBooked :
    (new_id : ℕ) (state : OrderState) (t : OrderTable) (s : PriceLevelStore)
    → is_applied (reserve new_id t).result ≡ true
    → IsPosted s (published state)
    → IsBooked t s
    → (is_applied (OrderTable.erase new_id (commit (reserve new_id t) state t).1).0 ≡ true)
      × IsBooked (OrderTable.erase new_id (commit (reserve new_id t) state t).1).1 s
      × ((l : ℕ)
          → live_orders l (OrderTable.erase new_id (commit (reserve new_id t) state t).1).1
            ≡ live_orders l t)
unfolding OrderTable.erase
rolled-IsBooked new_id state t s free posted k =
    let slot = reserve new_id t in
    let mid = (commit slot state t).1 in
    let done = commit-Applies new_id slot state t s k refl free in
    let (p', inside', unseen, w) = commit-IsWrite slot state t done in
    let ref = reserve-order_ref new_id t in
    let new : is_seen slot.order_ref t ≡ false =
      ap (λ n. is_seen n t) ref ∙ free-unseen new_id t free in
    let (q, found, at) =
      commit-find_state slot state t (placed-IsConsistent t s k.placed) new
        (ground (arith, done)) in
    let found' : find_state new_id mid ≡ some q = ap (λ n. find_state n mid) (sym ref) ∙ found in
    let buckets = λ (e : mid.fallback_bucket_count ≡ 0). k.placed.buckets (sym w.buckets ∙ e) in
    let (inside, on) = find_state-found new_id mid q buckets found' in
    let (gone, w') = erase_place-IsWrite q mid on in
    subst
      (λ o.
        (is_applied (erase_place o mid).0 ≡ true)
        × IsBooked (erase_place o mid).1 s
        × ((l : ℕ) → live_orders l (erase_place o mid).1 ≡ live_orders l t))
      (sym found')
      (
        ap is_applied gone,
        rollback-IsBooked s inside' unseen w (published_active state) (published_seen state) posted
            k inside at w',
        λ l.
            let a =
              live_orders-post inside' w l (unseen_off p' k.placed unseen)
                (published_active state) in
            let b = live_orders-retire inside w' l on erased_off in
            let c = ap (λ (x : OrderState). x.locate) at in ground (arith, a, b, c),
      )
