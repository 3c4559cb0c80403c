-- ===== src/Book/OrderTable/Publication.antt =====
-- src/book/OrderTable.cpp: an order that is committed under a new reference is found, with its state.
use astra_feed_engine.Prelude.{
  ℕ, ◌≡◌, inl, inr, refl, sym, ◌∙◌, ap, subst, List, [], ◌∷◌, true, false, not, ◌&&◌, ◌==◌,
  if◌then◌else◌, some, update_self, arith, Bool-cases, true-ne-false,
}
use astra_feed_engine.Book.{MutationResult, LookupPath, is_applied}
use astra_feed_engine.Book.OrderTable.States.{state_at}
use astra_feed_engine.Book.OrderTable.{
  OrderState, OrderTable, FallbackEntry, Place, in_direct, in_fallback, OrderSlotReservation,
  is_active, was_seen, is_direct, fallback_candidate_buckets, fallback_slots, slots_of, reservation,
  reserve_fallback, reserve, published, write_fallback, is_stale_fallback, commit, find_state,
  find_fallback_state,
}
use astra_feed_engine.Book.OrderTable.DayUnique.{seen_in, is_seen, fresh-seen, published_seen}

-- A live order was seen.
pub record IsConsistent (t : OrderTable) : Type 0 where
  pub direct : (i : ℕ) → is_active (t.direct i) ≡ true → was_seen (t.direct i) ≡ true
  pub fallback :
      (b w : ℕ) → is_active (t.fallback b w).state ≡ true → was_seen (t.fallback b w).state ≡ true

pub published_active : (state : OrderState) → is_active (published state) ≡ true
unfolding is_active published
published_active state = ground arith

-- The search for a reference that only the written slot holds.
find_fallback_state-written :
    (slots : List (LookupPath × ℕ × ℕ)) (bucket way : ℕ) (entry : FallbackEntry) (t : OrderTable)
    → IsConsistent t
    → is_active entry.state ≡ true
    → seen_in slots entry.order_ref t ≡ false
    → seen_in slots entry.order_ref (write_fallback bucket way entry t) ≡ true
    → find_fallback_state slots entry.order_ref (write_fallback bucket way entry t)
      ≡ some (in_fallback bucket way)
unfolding find_fallback_state seen_in
find_fallback_state-written [] bucket way entry t c a old new = absurd (true-ne-false (sym new))
find_fallback_state-written ((path, b, w) ∷ slots) bucket way entry t c a old new =
    let t' = write_fallback bucket way entry t in
    let ih = find_fallback_state-written slots bucket way entry t c a in
    elim (Bool-cases (b == bucket && w == way)) [
      | inl here ↦
          let same : t'.fallback b w ≡ entry = ground arith in
          let at : (b ≡ bucket) × (w ≡ way) = ground arith in
          ground (
            arith,
            a,
            at,
            ap (λ (x : FallbackEntry). is_active x.state) same,
            ap (λ (x : FallbackEntry). x.order_ref) same,
          )
      | inr off ↦
          let same : t'.fallback b w ≡ t.fallback b w = ground arith in
          ground (
            arith,
            ih,
            c.fallback b w,
            ap (λ (x : FallbackEntry). is_active x.state) same,
            ap (λ (x : FallbackEntry). was_seen x.state) same,
            ap (λ (x : FallbackEntry). x.order_ref) same,
          )
    ]

reserve_fallback-order_ref :
    (slots : List (LookupPath × ℕ × ℕ)) (first : OrderSlotReservation) (order_ref : ℕ)
    (t : OrderTable)
    → first.order_ref ≡ order_ref
    → (reserve_fallback slots first order_ref t).order_ref ≡ order_ref
unfolding reserve_fallback
reserve_fallback-order_ref [] first order_ref t h = h
reserve_fallback-order_ref ((path, bucket, way) ∷ slots) first order_ref t h =
    let first' =
      if not (was_seen (t.fallback bucket way).state) && not (is_applied first.result)
      then reservation MutationResult.applied path order_ref bucket way
      else first in
    ground (arith, h, reserve_fallback-order_ref slots first' order_ref t)

slots_eq :
    (order_ref : ℕ) (t t' : OrderTable)
    → t'.fallback_bucket_count ≡ t.fallback_bucket_count
    → fallback_slots order_ref t' ≡ fallback_slots order_ref t
unfolding fallback_slots
slots_eq order_ref t t' e = ap (λ n. slots_of (fallback_candidate_buckets n order_ref)) e

pub reserve-order_ref :
    (order_ref : ℕ) (t : OrderTable) → (reserve order_ref t).order_ref ≡ order_ref
unfolding reserve
reserve-order_ref order_ref t = ground (
  arith,
  reserve_fallback-order_ref (fallback_slots order_ref t)
      (reservation MutationResult.order_table_capacity_exceeded LookupPath.no_path order_ref 0 0)
      order_ref t refl,
)

-- A commit under a reference that no slot has seen.
pub commit-find_state :
    (r : OrderSlotReservation) (state : OrderState) (t : OrderTable)
    → IsConsistent t
    → is_seen r.order_ref t ≡ false
    → (commit r state t).0 ≡ MutationResult.applied
    → (place : Place) × (find_state r.order_ref (commit r state t).1 ≡ some place)
      × (state_at place (commit r state t).1 ≡ published state)
unfolding commit find_state is_seen state_at
commit-find_state r state t c new done = elim (Bool-cases (is_direct r.path)) [
  | inl direct ↦
      let w = update_self t.direct r.order_ref (published state) in
      (
        in_direct r.order_ref,
        ground (arith, ap is_active w ∙ published_active state),
        ground (arith, w),
      )
  | inr indirect ↦
      let entry : FallbackEntry = record { state = published state; order_ref = r.order_ref } in
      let t' = write_fallback r.bucket r.way entry t in
      let written : t'.fallback r.bucket r.way ≡ entry = ground arith in
      let fresh : is_stale_fallback r t ≡ false = ground arith in
      let (listed, high) =
        fresh-seen r t t' fresh refl
          (ap (λ (x : FallbackEntry). was_seen x.state) written ∙ published_seen state)
          (ap (λ (x : FallbackEntry). x.order_ref) written) in
      let old : seen_in (fallback_slots r.order_ref t) r.order_ref t ≡ false = ground arith in
      let hit =
        find_fallback_state-written (fallback_slots r.order_ref t) r.bucket r.way entry t c
          (published_active state) old
          (subst (λ s. seen_in s r.order_ref t' ≡ true) (slots_eq r.order_ref t t' refl) listed) in
      (
        in_fallback r.bucket r.way,
        ground (arith, hit, high, slots_eq r.order_ref t t' refl),
        ground (arith, ap (λ (x : FallbackEntry). x.state) written),
      )
]
