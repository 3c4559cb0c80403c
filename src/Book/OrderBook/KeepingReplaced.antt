-- ===== src/Book/OrderBook/KeepingReplaced.antt =====
-- src/book/OrderBook.cpp, replaceOrder under a new reference, and as a whole: the table and the levels stay in
-- agreement, also when the new order is rolled back.
use astra_feed_engine.Prelude.{
  ℕ, ◌%◌, ◌^◌, ◌<◌, ◌≡◌, refl, sym, ◌∙◌, ap, subst, true, not, ◌&&◌, ◌==◌, some, arith, if_elim,
  true-ne-false,
}
use astra_feed_engine.Wire.{is_valid_itch_price4}
use astra_feed_engine.Book.{MutationResult, is_applied, is_valid_side}
use astra_feed_engine.Book.PriceLevelStore.{
  PriceLevelStore, PricePageReservation, is_valid_reservation,
}
use astra_feed_engine.Book.PriceLevelStore.Removals.{move}
use astra_feed_engine.Book.OrderTable.{
  OrderState, OrderTable, Place, is_active, published, reserve, commit, erase_place, find_state,
}
use astra_feed_engine.Book.OrderTable.States.{state_at}
use astra_feed_engine.Book.OrderTable.Sums.{InRange}
use astra_feed_engine.Book.OrderTable.DayUnique.{published_seen}
use astra_feed_engine.Book.OrderTable.Publication.{published_active}
use astra_feed_engine.Book.OrderTable.Writes.{commit-IsWrite, erase_place-IsWrite}
use astra_feed_engine.Book.OrderBook.{OrderBook, BookView, state_of, state_result, address_of}
use astra_feed_engine.Book.OrderBook.Orders.{reserve_level}
use astra_feed_engine.Book.OrderBook.Replacement.{
  retire_order, replace_by_new, replace_found, replace_order,
}
use astra_feed_engine.Book.OrderBook.Ledger.{IsWrite-InRange, order_side}
use astra_feed_engine.Book.OrderBook.Booked.{refused-IsBooked}
use astra_feed_engine.Book.OrderBook.Levelled.{IsReserved, IsLevelled, reserve_level-IsLevelled}
use astra_feed_engine.Book.OrderBook.Counting.{
  kept-IsCounting, live_orders-post, live_orders-retire,
}
use astra_feed_engine.Book.OrderBook.Changes.{unseen_off, erased_off, exchange-IsBooked, kept_state}
use astra_feed_engine.Book.OrderBook.Balance.{
  Balanced, Balances, reject-Balances, is_true, levelled-Balanced, levelled-IsReserved, found_elim,
  reserve-Accepts, state_result-Accepts,
}
use astra_feed_engine.Book.OrderBook.KeepingAdded.{state_of-IsPosted, commit-Applies}
use astra_feed_engine.Book.OrderBook.KeepingMoved.{
  IsLive, moved-Accepts, replace_in_place-Balances, moved-IsStep,
}
use astra_feed_engine.Book.OrderBook.RolledBack.{rolled-IsBooked}

module _ (new_id : ℕ) (p : Place) (price : PricePageReservation) (new_qty timestamp : ℕ)
    (pos : 0 < new_qty) (small : new_qty < 2 ^ 32) where
  abbrev in_mid : BookView → OrderTable
  in_mid v =
      (commit (reserve new_id v.orders)
        (state_of new_qty (order_side (state_at p v.orders)) price v) v.orders).1

  abbrev moved : BookView → MutationResult × PriceLevelStore
  moved v =
      move (address_of (state_at p v.orders)) (state_at p v.orders).qty price.address new_qty
        (order_side (state_at p v.orders)) v.prices

  -- The old order leaves the table.
  retire_order-Balances :
      {home : ℕ} {rest : ℕ → ℕ} (v : BookView)
      → Balanced home rest v
      → IsLive p v
      → IsReserved v.book.stock_locate price v.prices
      → is_applied (reserve new_id v.orders).result ≡ true
      → is_applied (moved v).0 ≡ true
      → Balances home rest (
          retire_order new_id p
            (state_at p v.orders)
            price
            new_qty
            timestamp
            (record v { orders = in_mid v; prices = (moved v).1 }))
  unfolding retire_order published
  retire_order-Balances {home} {rest} v k is_live r free ok =
      let state = state_of new_qty (order_side (state_at p v.orders)) price v in
      let posted =
        state_of-IsPosted new_qty (order_side (state_at p v.orders)) price v v.prices pos small
          is_live.side_valid r in
      let done =
        commit-Applies new_id (reserve new_id v.orders) state v.orders v.prices k.booked refl
          free in
      let (p', inside', unseen, w) = commit-IsWrite (reserve new_id v.orders) state v.orders done in
      let on =
        ap is_active (kept_state v.prices p unseen w k.booked.placed is_live.live) ∙ is_live.live in
      let (gone, w') = erase_place-IsWrite p (in_mid v) on in
      if_elim (Balances home rest) (not (is_applied (erase_place (some p) (in_mid v)).0))
        (λ failed. absurd (true-ne-false (sym (ap is_applied gone) ∙ ground (arith, failed))))
        (λ _. record {
          booked =
              exchange-IsBooked v.prices inside' unseen w (published_active state)
                (published_seen state) posted k.booked (moved v) is_live.inside is_live.live w'
                (moved-IsStep p price new_qty timestamp pos small v k is_live r.index_low) ok;
          is_open = k.is_open;
          counting = kept-IsCounting v _ k.counting refl refl (λ l.
              let a =
                live_orders-post inside' w l (unseen_off p' k.booked.placed unseen)
                  (published_active state) in
              let b = live_orders-retire (IsWrite-InRange p w is_live.inside) w' l on erased_off in
              let c =
                ap (λ (x : OrderState). x.locate)
                  (kept_state v.prices p unseen w k.booked.placed is_live.live) in
              let d = is_live.locate_eq in ground (arith, a, b, c, d));
        })

  replace_by_new-Balances :
      {home : ℕ} {rest : ℕ → ℕ} (v : BookView)
      → Balanced home rest v
      → IsLive p v
      → IsReserved v.book.stock_locate price v.prices
      → is_applied (reserve new_id v.orders).result ≡ true
      → Balances home rest
          (replace_by_new new_id (reserve new_id v.orders) p price new_qty timestamp v)
  unfolding replace_by_new
  replace_by_new-Balances {home} {rest} v k is_live r free =
      let slot = reserve new_id v.orders in
      let state = state_of new_qty (order_side (state_at p v.orders)) price v in
      let posted =
        state_of-IsPosted new_qty (order_side (state_at p v.orders)) price v v.prices pos small
          is_live.side_valid r in
      let done = commit-Applies new_id slot state v.orders v.prices k.booked refl free in
      if_elim (Balances home rest) (not (is_applied (commit slot state v.orders).0))
        (λ failed. absurd (true-ne-false (sym done ∙ ground (arith, failed))))
        (λ _.
          if_elim (Balances home rest) (not (is_applied (moved v).0))
            (λ refused.
              let (undone, booked, counts) =
                rolled-IsBooked new_id state v.orders v.prices free posted k.booked in
              let fine = moved-Accepts p price new_qty timestamp pos small v k is_live r in
              reject-Balances _ _ (ground (arith, undone, fine)) (record {
                booked =
                    refused-IsBooked (moved v) _
                      (moved-IsStep p price new_qty timestamp pos small v k is_live r.index_low)
                      (ground (arith, refused)) booked;
                is_open = k.is_open;
                counting = kept-IsCounting v _ k.counting refl refl counts;
              }))
            (λ ok. retire_order-Balances v k is_live r free (is_true ok)))

state_result-IsLive :
    (order_id : ℕ) (p : Place) (v : BookView)
    → find_state order_id v.orders ≡ some p
    → InRange p v.orders × (is_active (state_at p v.orders) ≡ true)
    → is_applied (state_result (find_state order_id v.orders) v) ≡ true
    → IsLive p v
unfolding state_result
state_result-IsLive order_id p v e (inside, on) ok =
    let ok' : is_applied (state_result (some p) v) ≡ true =
      subst (λ o. is_applied (state_result o v) ≡ true) e ok in
    record {
      inside = inside;
      live = on;
      locate_eq = ground (arith, ok');
      side_valid = ground (arith, ok');
    }

levelled-IsLive :
    (p : Place) (v : BookView) (x : PricePageReservation × MutationResult × BookView)
    → IsLevelled v x
    → IsLive p v
    → IsLive p x.2
levelled-IsLive p v x k h = record {
  inside = subst (InRange p) (sym k.same_orders) h.inside;
  live = subst (λ t. is_active (state_at p t) ≡ true) (sym k.same_orders) h.live;
  locate_eq =
      ap (λ t. (state_at p t).locate) k.same_orders
      ∙ (h.locate_eq ∙ sym (ap (λ (b : OrderBook). b.stock_locate) k.same_book));
  side_valid =
      subst (λ t. is_valid_side (order_side (state_at p t)) ≡ true) (sym k.same_orders)
        h.side_valid;
}

module _ (old_id new_id new_price new_qty timestamp : ℕ) (small : new_qty < 2 ^ 32) where
  replace_found-Balances :
      {home : ℕ} {rest : ℕ → ℕ} (p : Place) (v : BookView)
      → Balanced home rest v
      → IsLive p v
      → 0 < new_qty
      → Balances home rest (replace_found p old_id new_id new_price new_qty timestamp v)
  unfolding replace_found
  replace_found-Balances {home} {rest} p v k is_live pos =
      let slot = reserve new_id v.orders in
      let r = reserve_level (new_price % 2 ^ 32) v in
      let levelled = reserve_level-IsLevelled (new_price % 2 ^ 32) v k.booked in
      let paged = levelled-Balanced v r levelled k in
      let is_live' = levelled-IsLive p v r levelled is_live in
      if_elim (Balances home rest) (not (new_id == old_id) && not (is_applied slot.result))
        (λ _. reject-Balances _ v (reserve-Accepts new_id v.orders) k)
        (λ free.
          if_elim (Balances home rest) (not (is_valid_reservation r.0))
            (λ _. reject-Balances _ r.2 levelled.accepts paged)
            (λ fits.
              if_elim (Balances home rest) (not (is_applied r.1))
                (λ failed.
                  absurd
                    (true-ne-false (sym (levelled.paged (is_true fits)) ∙ ground (arith, failed))))
                (λ ok.
                  let reserved = levelled-IsReserved v r levelled (is_true fits) (is_true ok) in
                  if_elim (Balances home rest) (new_id == old_id)
                    (λ _.
                      replace_in_place-Balances p r.0 new_qty timestamp pos small r.2 paged is_live'
                        reserved)
                    (λ other.
                      let free' : is_applied (reserve new_id v.orders).result ≡ true =
                        ground (arith, free, other) in
                      subst
                        (λ t.
                          Balances home rest
                            (replace_by_new new_id (reserve new_id t) p r.0 new_qty timestamp r.2))
                        levelled.same_orders
                        (replace_by_new-Balances new_id p r.0 new_qty timestamp pos small r.2 paged
                          is_live' reserved
                          (subst (λ t. is_applied (reserve new_id t).result ≡ true)
                            (sym levelled.same_orders) free'))))))

  pub replace_order-Balances :
      {home : ℕ} {rest : ℕ → ℕ} (v : BookView)
      → Balanced home rest v
      → Balances home rest (replace_order old_id new_id new_price new_qty timestamp v)
  unfolding replace_order
  replace_order-Balances {home} {rest} v k =
      if_elim (Balances home rest) v.book.local_invalid (λ _. k)
        (λ _.
          if_elim (Balances home rest) (new_qty == 0) (λ _. reject-Balances _ v refl k)
            (λ some_shares.
              if_elim (Balances home rest) (not (is_valid_itch_price4 new_price))
                (λ _. reject-Balances _ v refl k)
                (λ _.
                  if_elim (Balances home rest)
                    (not (is_applied (state_result (find_state old_id v.orders) v)))
                    (λ _. reject-Balances _ v (state_result-Accepts old_id v k) k)
                    (λ ok.
                      found_elim (Balances home rest) old_id v k (reject-Balances _ v refl k)
                        (λ p e found.
                          replace_found-Balances p v k
                            (state_result-IsLive old_id p v e found (is_true ok))
                            (ground (arith, some_shares)))))))
