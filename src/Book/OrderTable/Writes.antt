-- ===== src/Book/OrderTable/Writes.antt =====
-- src/book/OrderTable.cpp: what commit, erase and the writes through a found pointer change, and what
-- findState finds.
use astra_feed_engine.Prelude.{
  ℕ, ◌<◌, ◌≡◌, ◌≢◌, inl, inr, refl, sym, ap, subst, true, false, ◌&&◌, ◌==◌, leb, if◌then◌else◌,
  List, [], ◌∷◌, All, some, arith, Bool-cases, if_elim,
}
use astra_feed_engine.Book.{MutationResult, LookupPath, is_applied}
use astra_feed_engine.Book.OrderTable.{
  OrderState, OrderTable, FallbackEntry, Place, in_direct, in_fallback, OrderSlotReservation,
  is_active, was_seen, is_direct, published, erased_state, write_direct, write_fallback,
  is_stale_fallback, fallback_candidate_buckets, fallback_slots, slots_of, commit, erase_place,
  find_state, find_fallback_state,
}
use astra_feed_engine.Book.OrderTable.States.{state_at, write_state}
use astra_feed_engine.Book.OrderTable.Reservation.{candidate_buckets-lt}
use astra_feed_engine.Book.OrderTable.Sums.{InRange, IsWrite, same_place}

write_direct-IsWrite :
    (i : ℕ) (state : OrderState) (t : OrderTable)
    → IsWrite (in_direct i) state t (write_direct i state t)
unfolding state_at
write_direct-IsWrite i state t = record { slots = refl; buckets = refl; states = states }
  where
    states :
        (q : Place)
        → state_at q (write_direct i state t)
          ≡ (if same_place q (in_direct i) then state else state_at q t)
    states (in_direct j) = refl
    states (in_fallback b w) = refl

write_fallback-IsWrite :
    (bucket way : ℕ) (entry : FallbackEntry) (t : OrderTable)
    → IsWrite (in_fallback bucket way) entry.state t (write_fallback bucket way entry t)
unfolding state_at
write_fallback-IsWrite bucket way entry t = record { slots = refl; buckets = refl; states = states }
  where
    states :
        (q : Place)
        → state_at q (write_fallback bucket way entry t)
          ≡ (if same_place q (in_fallback bucket way) then entry.state else state_at q t)
    states (in_direct j) = refl
    states (in_fallback b w) = ground arith

pub write_state-IsWrite :
    (p : Place) (state : OrderState) (t : OrderTable) → IsWrite p state t (write_state p state t)
unfolding write_state
write_state-IsWrite (in_direct i) state t = write_direct-IsWrite i state t
write_state-IsWrite (in_fallback b w) state t = write_fallback-IsWrite b w _ t

-- An active state is erased.
pub erase_place-IsWrite :
    (p : Place) (t : OrderTable)
    → is_active (state_at p t) ≡ true
    → ((erase_place (some p) t).0 ≡ MutationResult.applied)
      × IsWrite p erased_state t (erase_place (some p) t).1
unfolding erase_place state_at
erase_place-IsWrite (in_direct i) t on =
    let e : erase_place (some (in_direct i)) t
        ≡ (MutationResult.applied, write_direct i erased_state t) =
      ground (arith, on) in
    (
      ap (λ (x : MutationResult × OrderTable). x.0) e,
      subst (λ (x : MutationResult × OrderTable). IsWrite (in_direct i) erased_state t x.1) (sym e)
          (write_direct-IsWrite i erased_state t),
    )
erase_place-IsWrite (in_fallback b w) t on =
    let entry : FallbackEntry = record (t.fallback b w) { state = erased_state } in
    let e : erase_place (some (in_fallback b w)) t
        ≡ (MutationResult.applied, write_fallback b w entry t) =
      ground (arith, on) in
    (
      ap (λ (x : MutationResult × OrderTable). x.0) e,
      subst (λ (x : MutationResult × OrderTable). IsWrite (in_fallback b w) erased_state t x.1)
          (sym e) (write_fallback-IsWrite b w entry t),
    )

-- A commit that is applied writes an unseen slot, and one that is not writes nothing.
pub commit-IsWrite :
    (r : OrderSlotReservation) (state : OrderState) (t : OrderTable)
    → is_applied (commit r state t).0 ≡ true
    → (p : Place) × InRange p t
      × (was_seen (state_at p t) ≡ false)
      × IsWrite p (published state) t (commit r state t).1
unfolding commit is_stale_fallback state_at
commit-IsWrite r state t done = elim (Bool-cases (is_direct r.path)) [
  | inl direct ↦
      let e : write_direct r.order_ref (published state) t ≡ (commit r state t).1 =
        ground (arith, done, direct) in
      (
        in_direct r.order_ref,
        ground (arith, done, direct),
        ground (arith, done, direct),
        subst (IsWrite (in_direct r.order_ref) (published state) t) e
            (write_direct-IsWrite r.order_ref (published state) t),
      )
  | inr indirect ↦
      let entry : FallbackEntry = record { state = published state; order_ref = r.order_ref } in
      let e : write_fallback r.bucket r.way entry t ≡ (commit r state t).1 =
        ground (arith, done, indirect) in
      (
        in_fallback r.bucket r.way,
        (ground (arith, done, indirect), ground (arith, done, indirect)),
        ground (arith, done, indirect),
        subst (IsWrite (in_fallback r.bucket r.way) (published state) t) e
            (write_fallback-IsWrite r.bucket r.way entry t),
      )
]

pub commit-refused :
    (r : OrderSlotReservation) (state : OrderState) (t : OrderTable)
    → is_applied (commit r state t).0 ≡ false
    → (commit r state t).1 ≡ t
unfolding commit
commit-refused r state t refused = ground (arith, refused)

abbrev IsRoom : OrderTable → LookupPath × ℕ × ℕ → Type 0
IsRoom t (_, bucket, way) = (bucket < t.fallback_bucket_count) × (way < 2)

find_fallback_state-found :
    (slots : List (LookupPath × ℕ × ℕ)) (order_ref : ℕ) (t : OrderTable) (p : Place)
    → All (IsRoom t) slots
    → find_fallback_state slots order_ref t ≡ some p
    → InRange p t × (is_active (state_at p t) ≡ true)
unfolding find_fallback_state state_at
find_fallback_state-found [] order_ref t p rooms e = cc
find_fallback_state-found ((path, bucket, way) ∷ slots) order_ref t p (room, rooms) e =
    elim (Bool-cases
      (is_active (t.fallback bucket way).state && (t.fallback bucket way).order_ref == order_ref)) [
        | inl here ↦
            let q : in_fallback bucket way ≡ p = ground (arith, e, here) in
            subst (λ x. InRange x t × (is_active (state_at x t) ≡ true)) q
              (room, ground (arith, here))
        | inr other ↦ find_fallback_state-found slots order_ref t p rooms (ground (arith, e, other))
      ]

slots_of-IsRoom :
    (order_ref : ℕ) (t : OrderTable)
    → t.fallback_bucket_count ≢ 0
    → All (IsRoom t) (slots_of (fallback_candidate_buckets t.fallback_bucket_count order_ref))
slots_of-IsRoom order_ref t n =
    let (a, b) = candidate_buckets-lt t.fallback_bucket_count order_ref n in
    let (primary, secondary) = fallback_candidate_buckets t.fallback_bucket_count order_ref in
    (
      (a, omega arith),
      (
        (a, omega arith),
        if_elim (All (IsRoom t)) (primary == secondary) (λ _. tt)
            (λ _. ((b, omega arith), ((b, omega arith), tt))),
      ),
    )

-- A found state is active, and one of the table's.
pub find_state-found :
    (order_ref : ℕ) (t : OrderTable) (p : Place)
    → t.fallback_bucket_count ≢ 0
    → find_state order_ref t ≡ some p
    → InRange p t × (is_active (state_at p t) ≡ true)
unfolding find_state state_at fallback_slots
find_state-found order_ref t p n e = elim (Bool-cases (leb t.direct_slots order_ref)) [
  | inl high ↦
      find_fallback_state-found
        (slots_of (fallback_candidate_buckets t.fallback_bucket_count order_ref)) order_ref t p
        (slots_of-IsRoom order_ref t n) (ground (arith, e, high))
  | inr low ↦
      let q : in_direct order_ref ≡ p = ground (arith, e, low) in
      subst (λ x. InRange x t × (is_active (state_at x t) ≡ true)) q
        (ground (arith, low), ground (arith, e, low))
]
