-- ===== src/Book/OrderTable/Laws.antt =====
-- src/book/OrderTable.cpp: the two lookups agree, and a new order is found where it was reserved.
use astra_feed_engine.Prelude.{
  ℕ, ◌≡◌, ◌≢◌, ◌↔◌, inl, inr, sym, ◌∙◌, ap, List, [], ◌∷◌, true, false, not, ◌||◌, ◌==◌, leb,
  Option, none, some, arith, if_elim, Bool-cases,
}
use astra_feed_engine.Book.{MutationResult, LookupPath, is_applied}
use astra_feed_engine.Book.OrderTable.States.{state_at}
use astra_feed_engine.Book.OrderTable.{
  OrderState, OrderTable, FallbackEntry, Place, in_direct, in_fallback, OrderSlotReservation,
  is_active, was_seen, is_direct, fallback_slots, reserve, published, write_fallback, write_direct,
  is_stale_fallback, commit, find, find_fallback, find_state, find_fallback_state, new_table,
  erased_state, erase_place, erase,
}
use astra_feed_engine.Book.OrderTable.DayUnique.{
  is_seen, reserve-seen, published_seen, erased_seen, TableStep, committed, erased, run_steps,
}
use astra_feed_engine.Book.OrderTable.Publication.{
  IsConsistent, commit-find_state, reserve-order_ref,
}

find_fallback-state :
    (slots : List (LookupPath × ℕ × ℕ)) (order_ref : ℕ) (t : OrderTable)
    → ((find_fallback slots order_ref t).place ≡ find_fallback_state slots order_ref t)
      × ((find_fallback slots order_ref t).place ≢ none
          ↔ ((find_fallback slots order_ref t).result ≡ MutationResult.applied))
unfolding find_fallback find_fallback_state
find_fallback-state [] order_ref t = ground arith
find_fallback-state ((path, bucket, way) ∷ slots) order_ref t =
    ground (arith, find_fallback-state slots order_ref t)

-- The lookup of the mutation path gives the place that the diagnostic lookup gives, and there is one
-- exactly when that lookup reports that the order was found.
pub find-find_state :
    (order_ref : ℕ) (t : OrderTable)
    → ((find order_ref t).place ≡ find_state order_ref t)
      × (find_state order_ref t ≢ none ↔ ((find order_ref t).result ≡ MutationResult.applied))
unfolding find find_state
find-find_state order_ref t =
    ground (arith, find_fallback-state (fallback_slots order_ref t) order_ref t)

write_direct-IsConsistent :
    (i : ℕ) (state : OrderState) (t : OrderTable)
    → (is_active state ≡ true → was_seen state ≡ true)
    → IsConsistent t
    → IsConsistent (write_direct i state t)
write_direct-IsConsistent i state t s c = record {
  direct = λ j.
      if_elim (λ x. is_active x ≡ true → was_seen x ≡ true) (j == i) (λ _. s) (λ _. c.direct j);
  fallback = c.fallback;
}

write_fallback-IsConsistent :
    (bucket way : ℕ) (entry : FallbackEntry) (t : OrderTable)
    → (is_active entry.state ≡ true → was_seen entry.state ≡ true)
    → IsConsistent t
    → IsConsistent (write_fallback bucket way entry t)
write_fallback-IsConsistent bucket way entry t s c = record {
  direct = c.direct;
  fallback = λ b w. ground (arith, s, c.fallback b w);
}

commit-IsConsistent :
    (r : OrderSlotReservation) (state : OrderState) (t : OrderTable)
    → IsConsistent t
    → IsConsistent (commit r state t).1
unfolding commit
commit-IsConsistent r state t c =
    let R = λ (x : MutationResult × OrderTable). IsConsistent x.1 in
    if_elim R (not (is_applied r.result)) (λ _. c)
      λ _.
        if_elim R (is_direct r.path)
          (λ _.
            if_elim R (leb t.direct_slots r.order_ref || was_seen (t.direct r.order_ref)) (λ _. c)
              λ _.
                write_direct-IsConsistent r.order_ref (published state) t
                  (λ _. published_seen state) c)
          λ _.
            if_elim R (is_stale_fallback r t || was_seen (t.fallback r.bucket r.way).state) (λ _. c)
              λ _. write_fallback-IsConsistent r.bucket r.way _ t (λ _. published_seen state) c

erase_place-IsConsistent :
    (place : Option Place) (t : OrderTable) → IsConsistent t → IsConsistent (erase_place place t).1
unfolding erase_place
erase_place-IsConsistent none t c = c
erase_place-IsConsistent (some (in_direct i)) t c =
    if_elim (λ (x : MutationResult × OrderTable). IsConsistent x.1) (not (is_active (t.direct i)))
      (λ _. c) λ _. write_direct-IsConsistent i erased_state t (λ _. erased_seen) c
erase_place-IsConsistent (some (in_fallback bucket way)) t c =
    if_elim (λ (x : MutationResult × OrderTable). IsConsistent x.1)
      (not (is_active (t.fallback bucket way).state)) (λ _. c)
      λ _. write_fallback-IsConsistent bucket way _ t (λ _. erased_seen) c

run_steps-IsConsistent :
    (steps : List TableStep) (t : OrderTable) → IsConsistent t → IsConsistent (run_steps steps t)
unfolding run_steps erase
run_steps-IsConsistent [] t c = c
run_steps-IsConsistent (committed r state ∷ steps) t c =
    run_steps-IsConsistent steps _ (commit-IsConsistent r state t c)
run_steps-IsConsistent (erased order_ref ∷ steps) t c =
    run_steps-IsConsistent steps _ (erase_place-IsConsistent (find_state order_ref t) t c)

new_table-IsConsistent :
    (direct_slots buckets : ℕ) (t : OrderTable)
    → new_table direct_slots buckets ≡ some t
    → IsConsistent t
unfolding new_table is_active was_seen
new_table-IsConsistent direct_slots buckets t e = record {
  direct = λ i. ground arith;
  fallback = λ b w. ground arith;
}

pub duplicate-ne-applied : MutationResult.duplicate_order_ref ≢ MutationResult.applied
duplicate-ne-applied e = cc

reserve-fresh :
    (order_ref : ℕ) (t : OrderTable)
    → (reserve order_ref t).result ≡ MutationResult.applied
    → is_seen order_ref t ≡ false
reserve-fresh order_ref t h = elim (Bool-cases (is_seen order_ref t)) [
  | inr new ↦ new
  | inl old ↦ absurd (duplicate-ne-applied (sym (reserve-seen order_ref t old) ∙ h))
]

-- In any table that commits and erasures make of a new one: an order that is committed to the slot
-- that reserve gave is found under its reference, with the state that was committed and the active and
-- the seen flag set.
pub reserve-commit-find_state :
    (direct_slots buckets : ℕ) (t : OrderTable) (steps : List TableStep) (order_ref : ℕ)
    (state : OrderState)
    → new_table direct_slots buckets ≡ some t
    → (reserve order_ref (run_steps steps t)).result ≡ MutationResult.applied
    → (commit (reserve order_ref (run_steps steps t)) state (run_steps steps t)).0
      ≡ MutationResult.applied
    → let t' = (commit (reserve order_ref (run_steps steps t)) state (run_steps steps t)).1 in
      (place : Place) × (find_state order_ref t' ≡ some place)
      × (state_at place t' ≡ published state)
reserve-commit-find_state direct_slots buckets t steps order_ref state made valid done =
    let u = run_steps steps t in
    let r = reserve order_ref u in
    let same = reserve-order_ref order_ref u in
    let c = run_steps-IsConsistent steps t (new_table-IsConsistent direct_slots buckets t made) in
    let (place, hit, stored) =
      commit-find_state r state u c (ap (λ n. is_seen n u) same ∙ reserve-fresh order_ref u valid)
        done in
    (place, ap (λ n. find_state n (commit r state u).1) (sym same) ∙ hit, stored)
