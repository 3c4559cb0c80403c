-- ===== src/Book/OrderTable.antt =====
-- src/book/OrderTable.cpp, include/astra/book/OrderTable.hpp and OrderState.hpp: the orders of the day,
-- a direct array for the low references and two buckets of two ways for each other one. A pointer to a
-- state is its place. The bucket count is a power of two, so `x & mask` is `x % fallback_bucket_count`.
pub mod States
pub mod DayUnique
pub mod Publication
pub mod Laws
pub mod Reservation
pub mod Sums
pub mod Writes
use astra_feed_engine.Prelude.{
  ℕ, zero, suc, ◌+◌, ◌*◌, ◌/◌, ◌%◌, ◌^◌, ◌-◌, bit_and, bit_xor, List, [], ◌∷◌, ◌++◌, Bool, true,
  false, not, ◌&&◌, ◌||◌, Option, none, some, ◌==◌, ltb, leb, if◌then◌else◌, update, add_u64,
  mul_u64,
}
use astra_feed_engine.Book.{MutationResult, LookupPath, is_applied}

pub record OrderState : Type 0 where
  pub qty : ℕ
  pub price_page_handle : ℕ
  pub price_level_index : ℕ
  pub locate : ℕ
  pub side : ℕ
  pub flags : ℕ
  pub price_page_index : ℕ

-- flags & kOrderStateActive, bit 0; flags & kOrderStateSeen, bit 1.
unfoldable pub is_active : OrderState → Bool
is_active state = not (state.flags % 2 == 0)

unfoldable pub was_seen : OrderState → Bool
was_seen state = not (state.flags / 2 % 2 == 0)

pub record FallbackEntry : Type 0 where
  pub state : OrderState
  pub order_ref : ℕ

pub record OrderTable : Type 0 where
  pub direct_slots : ℕ
  pub fallback_bucket_count : ℕ
  pub direct : ℕ → OrderState
  pub fallback : ℕ → ℕ → FallbackEntry

-- Where a state lies.
pub data Place : Type 0 where
  in_direct : ℕ → Place
  in_fallback : ℕ → ℕ → Place

pub record OrderLookup : Type 0 where
  pub result : MutationResult
  pub path : LookupPath
  pub place : Option Place

pub record OrderSlotReservation : Type 0 where
  pub result : MutationResult
  pub path : LookupPath
  pub order_ref : ℕ
  pub bucket : ℕ
  pub way : ℕ

-- OrderState{}
abbrev pub empty_state : OrderState
empty_state = record {
  qty = 0;
  price_page_handle = 0;
  price_level_index = 0;
  locate = 0;
  side = 0;
  flags = 0;
  price_page_index = 0;
}

-- Does validateConfig return? direct_slots fits a nonzero size_t, and the bucket count is a power of
-- two.
unfoldable pub is_valid_config : ℕ → ℕ → Bool
is_valid_config direct_slots fallback_bucket_count =
    not (direct_slots == 0)
    && leb direct_slots (2 ^ 64 - 1)
    && not (fallback_bucket_count == 0)
    && bit_and fallback_bucket_count (fallback_bucket_count - 1) == 0

-- The constructor; none when it throws.
unfoldable pub new_table : ℕ → ℕ → Option OrderTable
new_table direct_slots fallback_bucket_count =
    if is_valid_config direct_slots fallback_bucket_count
    then some (record {
      direct_slots = direct_slots;
      fallback_bucket_count = fallback_bucket_count;
      direct = λ _. empty_state;
      fallback = λ _ _. record { state = empty_state; order_ref = 0 };
    })
    else none

unfoldable pub hash_primary : ℕ → ℕ
unfolding mul_u64
hash_primary value =
    let a = bit_xor value (value / 2 ^ 33) in
    let b = mul_u64 a 0xff51afd7ed558ccd in
    let c = bit_xor b (b / 2 ^ 33) in let d = mul_u64 c 0xc4ceb9fe1a85ec53 in bit_xor d (d / 2 ^ 33)

unfoldable pub hash_secondary : ℕ → ℕ
unfolding mul_u64 add_u64
hash_secondary value =
    let a = add_u64 value 0x9e3779b97f4a7c15 in
    let b = mul_u64 (bit_xor a (a / 2 ^ 30)) 0xbf58476d1ce4e5b9 in
    let c = mul_u64 (bit_xor b (b / 2 ^ 27)) 0x94d049bb133111eb in bit_xor c (c / 2 ^ 31)

-- fallbackCandidateBuckets, for a table of `count` buckets.
unfoldable pub fallback_candidate_buckets : ℕ → ℕ → ℕ × ℕ
unfolding hash_primary hash_secondary
fallback_candidate_buckets count order_ref =
    let primary = hash_primary order_ref % 2 ^ 32 % count in
    let secondary = hash_secondary order_ref % 2 ^ 32 % count in
    (primary, if secondary == primary && ltb 1 count then (secondary + 1) % count else secondary)

-- The slots of a reference, in the order of the two nested loops: path, bucket and way.
abbrev pub slots_of : ℕ × ℕ → List (LookupPath × ℕ × ℕ)
slots_of (primary, secondary) =
    (LookupPath.fallback_primary, primary, 0)
    ∷ (LookupPath.fallback_primary, primary, 1)
    ∷ (if primary == secondary
        then []
        else (LookupPath.fallback_secondary, secondary, 0)
          ∷ (LookupPath.fallback_secondary, secondary, 1)
          ∷ [])

unfoldable pub fallback_slots : ℕ → OrderTable → List (LookupPath × ℕ × ℕ)
fallback_slots order_ref t = slots_of (fallback_candidate_buckets t.fallback_bucket_count order_ref)

abbrev pub holds : ℕ → FallbackEntry → Bool
holds order_ref entry = is_active entry.state && entry.order_ref == order_ref

-- The loops of find over the fallback slots.
unfoldable pub find_fallback : List (LookupPath × ℕ × ℕ) → ℕ → OrderTable → OrderLookup
find_fallback [] order_ref t = record {
  result = MutationResult.order_not_found;
  path = LookupPath.miss;
  place = none;
}
find_fallback ((path, bucket, way) ∷ slots) order_ref t =
    let rest = find_fallback slots order_ref t in
    if holds order_ref (t.fallback bucket way)
    then record {
      result = MutationResult.applied;
      path = path;
      place = some (in_fallback bucket way);
    }
    else rest

unfoldable pub find : ℕ → OrderTable → OrderLookup
find order_ref t =
    if ltb order_ref t.direct_slots
    then if is_active (t.direct order_ref)
      then record {
        result = MutationResult.applied;
        path = LookupPath.direct_path;
        place = some (in_direct order_ref);
      }
      else record {
        result = MutationResult.order_not_found;
        path = LookupPath.direct_path;
        place = none;
      }
    else find_fallback (fallback_slots order_ref t) order_ref t

-- findFallbackStateObserved, without its observer.
unfoldable pub find_fallback_state : List (LookupPath × ℕ × ℕ) → ℕ → OrderTable → Option Place
find_fallback_state [] order_ref t = none
find_fallback_state ((_, bucket, way) ∷ slots) order_ref t =
    let rest = find_fallback_state slots order_ref t in
    if holds order_ref (t.fallback bucket way) then some (in_fallback bucket way) else rest

-- findState, the lookup of the mutation path.
unfoldable pub find_state : ℕ → OrderTable → Option Place
find_state order_ref t =
    if leb t.direct_slots order_ref
    then find_fallback_state (fallback_slots order_ref t) order_ref t
    else if is_active (t.direct order_ref)
    then some (in_direct order_ref)
    else none

abbrev pub reservation : MutationResult → LookupPath → ℕ → ℕ → ℕ → OrderSlotReservation
reservation result path order_ref bucket way = record {
  result = result;
  path = path;
  order_ref = order_ref;
  bucket = bucket;
  way = way;
}

-- The loops of reserve, with the first empty slot so far.
unfoldable pub reserve_fallback :
    List (LookupPath × ℕ × ℕ) → OrderSlotReservation → ℕ → OrderTable → OrderSlotReservation
reserve_fallback [] first_empty order_ref t = first_empty
reserve_fallback ((path, bucket, way) ∷ slots) first_empty order_ref t =
    let entry = t.fallback bucket way in
    let empty = not (was_seen entry.state) && not (is_applied first_empty.result) in
    let rest =
      reserve_fallback slots
        (if empty
          then reservation MutationResult.applied path order_ref bucket way
          else first_empty)
        order_ref t in
    if was_seen entry.state && entry.order_ref == order_ref
    then reservation MutationResult.duplicate_order_ref path order_ref bucket way
    else rest

unfoldable pub reserve : ℕ → OrderTable → OrderSlotReservation
reserve order_ref t =
    if ltb order_ref t.direct_slots
    then if was_seen (t.direct order_ref)
      then reservation MutationResult.duplicate_order_ref LookupPath.direct_path order_ref 0 0
      else reservation MutationResult.applied LookupPath.direct_path order_ref 0 0
    else reserve_fallback (fallback_slots order_ref t)
        (reservation MutationResult.order_table_capacity_exceeded LookupPath.no_path order_ref 0 0)
        order_ref t

-- state.flags | kOrderStateActive | kOrderStateSeen
unfoldable pub published : OrderState → OrderState
published state = record state { flags = state.flags / 4 * 4 + 3 }

abbrev pub write_fallback : ℕ → ℕ → FallbackEntry → OrderTable → OrderTable
write_fallback bucket way entry t = record t {
  fallback = update t.fallback bucket (update (t.fallback bucket) way entry);
}

abbrev pub write_direct : ℕ → OrderState → OrderTable → OrderTable
write_direct order_ref state t = record t { direct = update t.direct order_ref state }

-- The tests of commit on a reservation of the fallback part: is it stale?
unfoldable pub is_stale_fallback : OrderSlotReservation → OrderTable → Bool
is_stale_fallback r t =
    let (primary, secondary) = fallback_candidate_buckets t.fallback_bucket_count r.order_ref in
    let unfit =
      leb t.fallback_bucket_count r.bucket || leb 2 r.way || ltb r.order_ref t.direct_slots in
    elim r.path [
      | LookupPath.fallback_primary ↦ unfit || not (r.bucket == primary)
      | LookupPath.fallback_secondary ↦ unfit || not (r.bucket == secondary) || primary == secondary
      | _ ↦ true
    ]

abbrev pub is_direct : LookupPath → Bool
is_direct LookupPath.direct_path = true
is_direct _ = false

unfoldable pub commit : OrderSlotReservation → OrderState → OrderTable → MutationResult × OrderTable
commit r state t =
    if not (is_applied r.result)
    then (r.result, t)
    else if is_direct r.path
    then if leb t.direct_slots r.order_ref || was_seen (t.direct r.order_ref)
      then (MutationResult.stale_reservation, t)
      else (MutationResult.applied, write_direct r.order_ref (published state) t)
    else if is_stale_fallback r t || was_seen (t.fallback r.bucket r.way).state
    then (MutationResult.stale_reservation, t)
    else (
      MutationResult.applied,
      write_fallback r.bucket r.way (record { state = published state; order_ref = r.order_ref }) t,
    )

-- The state of an erased order: OrderState{} with the seen flag.
abbrev pub erased_state : OrderState
erased_state = record empty_state { flags = 2 }

unfoldable pub erase_place : Option Place → OrderTable → MutationResult × OrderTable
erase_place none t = (MutationResult.order_not_found, t)
erase_place (some (in_direct i)) t =
    if not (is_active (t.direct i))
    then (MutationResult.order_not_found, t)
    else (MutationResult.applied, write_direct i erased_state t)
erase_place (some (in_fallback bucket way)) t =
    if not (is_active (t.fallback bucket way).state) then (MutationResult.order_not_found, t) else (
      MutationResult.applied,
      write_fallback bucket way (record (t.fallback bucket way) { state = erased_state }) t,
    )

unfoldable pub erase : ℕ → OrderTable → MutationResult × OrderTable
erase order_ref t = erase_place (find_state order_ref t) t
