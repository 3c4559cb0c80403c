-- ===== src/Book/OrderTable/Reservation.antt =====
-- src/book/OrderTable.cpp: a slot that reserve gives is accepted by commit.
use astra_feed_engine.Prelude.{
  ℕ, ◌+◌, ◌%◌, ◌^◌, ◌≤◌, ◌<◌, ◌≡◌, ◌≢◌, inl, inr, refl, sym, ◌∙◌, ap, subst, List, [], ◌∷◌, All,
  true, false, not, ◌&&◌, ◌==◌, ltb, if◌then◌else◌, arith, if_elim, Bool-cases,
}
use native.Mathlib.Nat.{mod-lt}
use astra_feed_engine.Book.{MutationResult, LookupPath, is_applied}
use astra_feed_engine.Book.OrderTable.{
  OrderState, OrderTable, OrderSlotReservation, was_seen, is_direct, fallback_candidate_buckets,
  fallback_slots, slots_of, hash_primary, hash_secondary, reservation, reserve_fallback, reserve,
  is_stale_fallback, commit,
}
use astra_feed_engine.Book.OrderTable.Laws.{duplicate-ne-applied}

-- Both candidate buckets exist.
pub candidate_buckets-lt :
    (count order_ref : ℕ)
    → count ≢ 0
    → ((fallback_candidate_buckets count order_ref).0 < count)
      × ((fallback_candidate_buckets count order_ref).1 < count)
unfolding fallback_candidate_buckets
candidate_buckets-lt count order_ref n =
    let primary = hash_primary order_ref % 2 ^ 32 % count in
    let secondary = hash_secondary order_ref % 2 ^ 32 % count in
    (
      mod-lt (hash_primary order_ref % 2 ^ 32) (omega arith),
      if_elim (λ b. b < count) (secondary == primary && ltb 1 count)
          (λ _. mod-lt (secondary + 1) (omega arith))
          (λ _. mod-lt (hash_secondary order_ref % 2 ^ 32) (omega arith)),
    )

-- A slot that commit accepts.
record IsFitting (t : OrderTable) (r : OrderSlotReservation) : Type 0 where
  fresh : is_stale_fallback r t ≡ false
  unseen : was_seen (t.fallback r.bucket r.way).state ≡ false
  indirect : is_direct r.path ≡ false

record IsSlot (t : OrderTable) (order_ref : ℕ) (slot : LookupPath × ℕ × ℕ) : Type 0 where
  fresh :
      is_stale_fallback (reservation MutationResult.applied slot.0 order_ref slot.1 slot.2) t
      ≡ false
  indirect : is_direct slot.0 ≡ false

reserve_fallback-IsFitting :
    (slots : List (LookupPath × ℕ × ℕ)) (first : OrderSlotReservation) (order_ref : ℕ)
    (t : OrderTable)
    → All (IsSlot t order_ref) slots
    → (first.result ≡ MutationResult.applied → IsFitting t first)
    → (reserve_fallback slots first order_ref t).result ≡ MutationResult.applied
    → IsFitting t (reserve_fallback slots first order_ref t)
unfolding reserve_fallback
reserve_fallback-IsFitting [] first order_ref t a f h = f h
reserve_fallback-IsFitting ((path, bucket, way) ∷ slots) first order_ref t (s, a) f h =
    let entry = t.fallback bucket way in
    let is_empty = not (was_seen entry.state) && not (is_applied first.result) in
    let first' =
      if is_empty then reservation MutationResult.applied path order_ref bucket way else first in
    elim (Bool-cases (was_seen entry.state && entry.order_ref == order_ref)) [
      | inl taken ↦
          let step : (reserve_fallback ((path, bucket, way) ∷ slots) first order_ref t).result
              ≡ MutationResult.duplicate_order_ref =
            rw (taken, reserve_fallback) refl in
          absurd (duplicate-ne-applied (sym step ∙ h))
      | inr going ↦
          let f' : first'.result ≡ MutationResult.applied → IsFitting t first' =
            if_elim
              (λ (r : OrderSlotReservation). r.result ≡ MutationResult.applied → IsFitting t r)
              is_empty
              (λ e _. record { fresh = s.fresh; unseen = ground arith; indirect = s.indirect })
              (λ _. f) in
          let step : reserve_fallback ((path, bucket, way) ∷ slots) first order_ref t
              ≡ reserve_fallback slots first' order_ref t =
            rw (going, reserve_fallback) refl in
          subst (IsFitting t) (sym step) (
            reserve_fallback-IsFitting slots first' order_ref t a f'
              (ap (λ (r : OrderSlotReservation). r.result) (sym step) ∙ h))
    ]

full-ne-applied : MutationResult.order_table_capacity_exceeded ≢ MutationResult.applied
full-ne-applied e = cc

slots_of-IsSlot :
    (order_ref : ℕ) (t : OrderTable)
    → t.direct_slots ≤ order_ref
    → t.fallback_bucket_count ≢ 0
    → All
        (IsSlot t order_ref)
        (slots_of (fallback_candidate_buckets t.fallback_bucket_count order_ref))
unfolding is_stale_fallback
slots_of-IsSlot order_ref t high n =
    let (a, b) = candidate_buckets-lt t.fallback_bucket_count order_ref n in
    let (primary, secondary) = fallback_candidate_buckets t.fallback_bucket_count order_ref in
    (
      record { fresh = ground (arith, a, high); indirect = refl },
      (
        record { fresh = ground (arith, a, high); indirect = refl },
        if_elim (All (IsSlot t order_ref)) (primary == secondary) (λ _. tt)
            (λ other. (
              record { fresh = ground (arith, b, high, other); indirect = refl },
              (record { fresh = ground (arith, b, high, other); indirect = refl }, tt),
            )),
      ),
    )

reserve-IsFitting :
    (order_ref : ℕ) (t : OrderTable)
    → t.direct_slots ≤ order_ref
    → t.fallback_bucket_count ≢ 0
    → (reserve_fallback
        (fallback_slots order_ref t)
        (reservation MutationResult.order_table_capacity_exceeded LookupPath.no_path order_ref 0 0)
        order_ref
        t).result
      ≡ MutationResult.applied
    → IsFitting t (
        reserve_fallback
          (fallback_slots order_ref t)
          (reservation MutationResult.order_table_capacity_exceeded LookupPath.no_path order_ref 0
            0)
          order_ref
          t)
unfolding fallback_slots
reserve-IsFitting order_ref t high n h =
    reserve_fallback-IsFitting _ _ order_ref t (slots_of-IsSlot order_ref t high n)
      (λ (e : MutationResult.order_table_capacity_exceeded ≡ MutationResult.applied).
        absurd (full-ne-applied e))
      h

commit_fitting :
    (r : OrderSlotReservation) (state : OrderState) (t : OrderTable)
    → r.result ≡ MutationResult.applied
    → IsFitting t r
    → (commit r state t).0 ≡ MutationResult.applied
unfolding commit
commit_fitting r state t given f = ground (arith, f.fresh, f.unseen, f.indirect)

commit_direct :
    (order_ref : ℕ) (state : OrderState) (t : OrderTable)
    → ltb order_ref t.direct_slots ≡ true
    → (reserve order_ref t).result ≡ MutationResult.applied
    → (commit (reserve order_ref t) state t).0 ≡ MutationResult.applied
unfolding reserve commit
commit_direct order_ref state t low h = ground arith

-- A reservation is never refused later: in a table with at least one fallback bucket, a commit right
-- after a reserve that gave a slot is applied, whatever the state.
pub reserve-commit :
    (order_ref : ℕ) (state : OrderState) (t : OrderTable)
    → t.fallback_bucket_count ≢ 0
    → (reserve order_ref t).result ≡ MutationResult.applied
    → (commit (reserve order_ref t) state t).0 ≡ MutationResult.applied
unfolding reserve
reserve-commit order_ref state t n h = elim (Bool-cases (ltb order_ref t.direct_slots)) [
  | inl low ↦ commit_direct order_ref state t low h
  | inr high ↦
      let le : t.direct_slots ≤ order_ref = ground arith in
      let r =
        reserve_fallback (fallback_slots order_ref t)
          (reservation MutationResult.order_table_capacity_exceeded LookupPath.no_path order_ref 0
            0)
          order_ref t in
      let same : reserve order_ref t ≡ r = rw (high, reserve) refl in
      let given : r.result ≡ MutationResult.applied =
        ap (λ (x : OrderSlotReservation). x.result) (sym same) ∙ h in
      subst (λ x. (commit x state t).0 ≡ MutationResult.applied) (sym same)
        (commit_fitting r state t given (reserve-IsFitting order_ref t le n given))
]
