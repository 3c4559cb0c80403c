-- ===== src/Book/OrderTable/DayUnique.antt =====
-- src/book/OrderTable.cpp: a reference that was used once stays reserved for the day.
use astra_feed_engine.Prelude.{
  ℕ, zero, suc, ◌≤◌, ◌<◌, ◌≡◌, ◌⊎◌, inl, inr, refl, sym, ◌∙◌, ap, subst, List, [], ◌∷◌, Bool, true,
  false, not, ◌&&◌, ◌||◌, ◌==◌, ltb, leb, if◌then◌else◌, Option, none, some, update_self, arith,
  if_elim,
}
use astra_feed_engine.Book.{MutationResult, LookupPath, is_applied}
use astra_feed_engine.Book.OrderTable.{
  OrderState, OrderTable, FallbackEntry, Place, in_direct, in_fallback, OrderSlotReservation,
  is_active, was_seen, is_direct, fallback_candidate_buckets, fallback_slots, slots_of, reservation,
  reserve_fallback, reserve, published, write_fallback, write_direct, is_stale_fallback, commit,
  erased_state, erase_place, erase, find_state,
}

-- Was the reference used in one of the slots?
unfoldable pub seen_in : List (LookupPath × ℕ × ℕ) → ℕ → OrderTable → Bool
seen_in [] order_ref t = false
seen_in ((_, bucket, way) ∷ slots) order_ref t =
    (was_seen (t.fallback bucket way).state && (t.fallback bucket way).order_ref == order_ref)
    || seen_in slots order_ref t

-- Was the reference used before?
unfoldable pub is_seen : ℕ → OrderTable → Bool
is_seen order_ref t =
    if ltb order_ref t.direct_slots
    then was_seen (t.direct order_ref)
    else seen_in (fallback_slots order_ref t) order_ref t

reserve_fallback-seen :
    (slots : List (LookupPath × ℕ × ℕ)) (first : OrderSlotReservation) (order_ref : ℕ)
    (t : OrderTable)
    → seen_in slots order_ref t ≡ true
    → (reserve_fallback slots first order_ref t).result ≡ MutationResult.duplicate_order_ref
unfolding reserve_fallback seen_in
reserve_fallback-seen [] first order_ref t h = ground arith
reserve_fallback-seen ((path, bucket, way) ∷ slots) first order_ref t h =
    let first' =
      if not (was_seen (t.fallback bucket way).state) && not (is_applied first.result)
      then reservation MutationResult.applied path order_ref bucket way
      else first in
    ground (arith, reserve_fallback-seen slots first' order_ref t)

pub reserve-seen :
    (order_ref : ℕ) (t : OrderTable)
    → is_seen order_ref t ≡ true
    → (reserve order_ref t).result ≡ MutationResult.duplicate_order_ref
unfolding reserve is_seen
reserve-seen order_ref t h = ground (
  arith,
  reserve_fallback-seen (fallback_slots order_ref t)
      (reservation MutationResult.order_table_capacity_exceeded LookupPath.no_path order_ref 0 0)
      order_ref t,
)

-- No slot forgets that it was used, nor by which reference.
pub record Remembers (t t' : OrderTable) : Type 0 where
  pub slots : t'.direct_slots ≡ t.direct_slots
  pub buckets : t'.fallback_bucket_count ≡ t.fallback_bucket_count
  pub direct : (i : ℕ) → was_seen (t.direct i) ≡ true → was_seen (t'.direct i) ≡ true
  pub fallback :
      (b w : ℕ)
      → was_seen (t.fallback b w).state ≡ true
      → (was_seen (t'.fallback b w).state ≡ true)
        × ((t'.fallback b w).order_ref ≡ (t.fallback b w).order_ref)

Remembers-refl : (t : OrderTable) → Remembers t t
Remembers-refl t = record {
  slots = refl;
  buckets = refl;
  direct = λ i h. h;
  fallback = λ b w h. (h, refl);
}

seen_in-Remembers :
    (slots : List (LookupPath × ℕ × ℕ)) (order_ref : ℕ) (t t' : OrderTable)
    → Remembers t t'
    → seen_in slots order_ref t ≡ true
    → seen_in slots order_ref t' ≡ true
unfolding seen_in
seen_in-Remembers [] order_ref t t' r h = h
seen_in-Remembers ((path, bucket, way) ∷ slots) order_ref t t' r h =
    ground (arith, r.fallback bucket way, seen_in-Remembers slots order_ref t t' r)

is_seen-Remembers :
    (order_ref : ℕ) (t t' : OrderTable)
    → Remembers t t'
    → is_seen order_ref t ≡ true
    → is_seen order_ref t' ≡ true
unfolding is_seen fallback_slots
is_seen-Remembers order_ref t t' r h = ground (
  arith,
  r.slots,
  r.buckets,
  r.direct order_ref,
  seen_in-Remembers (fallback_slots order_ref t) order_ref t t' r,
)

write_direct-Remembers :
    (i : ℕ) (state : OrderState) (t : OrderTable)
    → was_seen state ≡ true
    → Remembers t (write_direct i state t)
write_direct-Remembers i state t h = record {
  slots = refl;
  buckets = refl;
  direct = λ j s. if_elim (λ x. was_seen x ≡ true) (j == i) (λ _. h) (λ _. s);
  fallback = λ b w s. (s, refl);
}

write_fallback-Remembers :
    (bucket way : ℕ) (entry : FallbackEntry) (t : OrderTable)
    → was_seen entry.state ≡ true
    → (was_seen (t.fallback bucket way).state ≡ false)
      ⊎ (entry.order_ref ≡ (t.fallback bucket way).order_ref)
    → Remembers t (write_fallback bucket way entry t)
write_fallback-Remembers bucket way entry t h same = record {
  slots = refl;
  buckets = refl;
  direct = λ j s. s;
  fallback = λ b w s. ground (arith, same, h, s);
}

pub published_seen : (state : OrderState) → was_seen (published state) ≡ true
unfolding was_seen published
published_seen state = ground arith

pub erased_seen : was_seen erased_state ≡ true
unfolding was_seen
erased_seen = refl

commit-Remembers :
    (r : OrderSlotReservation) (state : OrderState) (t : OrderTable)
    → Remembers t (commit r state t).1
unfolding commit
commit-Remembers r state t =
    let R = λ (x : MutationResult × OrderTable). Remembers t x.1 in
    if_elim R (not (is_applied r.result)) (λ _. Remembers-refl t)
      λ _.
        if_elim R (is_direct r.path)
          (λ _.
            if_elim R (leb t.direct_slots r.order_ref || was_seen (t.direct r.order_ref))
              (λ _. Remembers-refl t)
              λ _. write_direct-Remembers r.order_ref (published state) t (published_seen state))
          λ _.
            if_elim R (is_stale_fallback r t || was_seen (t.fallback r.bucket r.way).state)
              (λ _. Remembers-refl t)
              λ fresh.
                write_fallback-Remembers r.bucket r.way _ t (published_seen state)
                  (inl (ground arith))

erase_place-Remembers :
    (place : Option Place) (t : OrderTable) → Remembers t (erase_place place t).1
unfolding erase_place
erase_place-Remembers none t = Remembers-refl t
erase_place-Remembers (some (in_direct i)) t =
    if_elim (λ (x : MutationResult × OrderTable). Remembers t x.1) (not (is_active (t.direct i)))
      (λ _. Remembers-refl t) λ _. write_direct-Remembers i erased_state t erased_seen
erase_place-Remembers (some (in_fallback bucket way)) t =
    if_elim (λ (x : MutationResult × OrderTable). Remembers t x.1)
      (not (is_active (t.fallback bucket way).state)) (λ _. Remembers-refl t)
      λ _. write_fallback-Remembers bucket way _ t erased_seen (inr refl)

-- What the books do to the table: a commit of any reservation, however old, and an erasure.
pub data TableStep : Type 0 where
  committed : OrderSlotReservation → OrderState → TableStep
  erased : ℕ → TableStep

unfoldable pub run_steps : List TableStep → OrderTable → OrderTable
run_steps [] t = t
run_steps (committed r state ∷ steps) t = run_steps steps (commit r state t).1
run_steps (erased order_ref ∷ steps) t = run_steps steps (erase order_ref t).1

run_steps-seen :
    (steps : List TableStep) (order_ref : ℕ) (t : OrderTable)
    → is_seen order_ref t ≡ true
    → is_seen order_ref (run_steps steps t) ≡ true
unfolding run_steps erase
run_steps-seen [] order_ref t h = h
run_steps-seen (committed r state ∷ steps) order_ref t h =
    run_steps-seen steps order_ref _
      (is_seen-Remembers order_ref t _ (commit-Remembers r state t) h)
run_steps-seen (erased other ∷ steps) order_ref t h =
    run_steps-seen steps order_ref _
      (is_seen-Remembers order_ref t _ (erase_place-Remembers (find_state other t) t) h)

too_large : (n : ℕ) → suc (suc n) < 2 → ⊥
too_large n h = omega arith

pub used : ℕ → ℕ → ℕ → OrderTable → Bool
used bucket way order_ref t =
    was_seen (t.fallback bucket way).state && (t.fallback bucket way).order_ref == order_ref

used_slot :
    (primary secondary bucket way order_ref : ℕ) (t : OrderTable)
    → used bucket way order_ref t ≡ true
    → way < 2
    → (bucket ≡ primary) ⊎ ((bucket ≡ secondary) × ((primary == secondary) ≡ false))
    → (used primary 0 order_ref t ≡ true)
      ⊎ (used primary 1 order_ref t ≡ true)
      ⊎ (((primary == secondary) ≡ false)
          × ((used secondary 0 order_ref t ≡ true) ⊎ (used secondary 1 order_ref t ≡ true)))
used_slot primary secondary bucket zero order_ref t u w (inl e) =
    inl (subst (λ b. used b 0 order_ref t ≡ true) e u)
used_slot primary secondary bucket zero order_ref t u w (inr (e, n)) =
    inr (inr (n, inl (subst (λ b. used b 0 order_ref t ≡ true) e u)))
used_slot primary secondary bucket (suc zero) order_ref t u w (inl e) =
    inr (inl (subst (λ b. used b 1 order_ref t ≡ true) e u))
used_slot primary secondary bucket (suc zero) order_ref t u w (inr (e, n)) =
    inr (inr (n, inr (subst (λ b. used b 1 order_ref t ≡ true) e u)))
used_slot primary secondary bucket (suc (suc way)) order_ref t u w e = absurd (too_large way w)

slots_of-seen :
    (primary secondary bucket way order_ref : ℕ) (t : OrderTable)
    → used bucket way order_ref t ≡ true
    → way < 2
    → (bucket ≡ primary) ⊎ ((bucket ≡ secondary) × ((primary == secondary) ≡ false))
    → seen_in (slots_of (primary, secondary)) order_ref t ≡ true
unfolding seen_in used
slots_of-seen primary secondary bucket way order_ref t u w e =
    ground (arith, used_slot primary secondary bucket way order_ref t u w e)

-- A slot that is not stale for the reservation is one of the slots of its reference.
pub fresh-seen :
    (r : OrderSlotReservation) (t t' : OrderTable)
    → is_stale_fallback r t ≡ false
    → t'.fallback_bucket_count ≡ t.fallback_bucket_count
    → was_seen (t'.fallback r.bucket r.way).state ≡ true
    → (t'.fallback r.bucket r.way).order_ref ≡ r.order_ref
    → (seen_in (fallback_slots r.order_ref t') r.order_ref t' ≡ true)
      × (t.direct_slots ≤ r.order_ref)
unfolding is_stale_fallback fallback_slots used
fresh-seen r t t' fresh same seen ref =
    let (primary, secondary) = fallback_candidate_buckets t.fallback_bucket_count r.order_ref in
    let u : used r.bucket r.way r.order_ref t' ≡ true = ground (arith, seen, ref) in
    let w : r.way < 2 = ground arith in
    let low : t.direct_slots ≤ r.order_ref = ground arith in
    let e : (r.bucket ≡ primary) ⊎ ((r.bucket ≡ secondary) × ((primary == secondary) ≡ false)) =
      ground arith in
    (
      subst
          (λ n. seen_in (slots_of (fallback_candidate_buckets n r.order_ref)) r.order_ref t' ≡ true)
          (sym same) (slots_of-seen primary secondary r.bucket r.way r.order_ref t' u w e),
      low,
    )

pub commit-seen :
    (r : OrderSlotReservation) (state : OrderState) (t : OrderTable)
    → (commit r state t).0 ≡ MutationResult.applied
    → is_seen r.order_ref (commit r state t).1 ≡ true
unfolding commit is_seen
commit-seen r state t h =
    let entry : FallbackEntry = record { state = published state; order_ref = r.order_ref } in
    let t' = write_fallback r.bucket r.way entry t in
    let written : t'.fallback r.bucket r.way ≡ entry = ground arith in
    let d =
      ap was_seen (update_self t.direct r.order_ref (published state)) ∙ published_seen state in
    ground (
      arith,
      d,
      (λ (fresh : is_stale_fallback r t ≡ false).
          fresh-seen r t t' fresh refl
            (ap (λ (x : FallbackEntry). was_seen x.state) written ∙ published_seen state)
            (ap (λ (x : FallbackEntry). x.order_ref) written)),
    )

-- Order references are unique for the day: once a commit under a reference has been applied, every
-- later reservation of that reference is refused as a duplicate, whatever is committed and erased in
-- between.
pub commit-day_unique :
    (r : OrderSlotReservation) (state : OrderState) (t : OrderTable) (steps : List TableStep)
    → (commit r state t).0 ≡ MutationResult.applied
    → (reserve r.order_ref (run_steps steps (commit r state t).1)).result
      ≡ MutationResult.duplicate_order_ref
commit-day_unique r state t steps h =
    reserve-seen r.order_ref _ (run_steps-seen steps r.order_ref _ (commit-seen r state t h))
