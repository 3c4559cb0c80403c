-- ===== src/Control/Rate.antt =====
-- include/astra/protocol/MoldUdpControlSchedule.hpp: the rate of sequenced packets.
use astra_feed_engine.Prelude.{
  ℕ, ◌+◌, ◌*◌, ◌/◌, ◌%◌, ◌≤◌, ◌≡◌, ◌≢◌, inl, inr, List, [], ◌∷◌, Bool, true, false, ◌&&◌, ◌==◌, leb,
  if◌then◌else◌, Option, none, some, length, arith, if_elim, Option-cases,
}
use native.Mathlib.Nat.{
  le-div_iff_mul-le, mod-eq-sub-mul-div, mul_comm, add-mul, suc-mul, mul_assoc, mul-le-mul_left,
  mul-le-mul_right,
}
use astra_feed_engine.Control.{
  nanoseconds_per_second, MoldUdpPacketRateSchedule, interval_for, new_rate_schedule, checked_add,
  rate_base, checked_deadline_after_packet,
}

-- A quotient rounded up, times the divisor.
ceil-mul : (b p : ℕ) → p ≢ 0 → b ≤ (b / p + (if b % p == 0 then 0 else 1)) * p
ceil-mul b p n =
    let q = b / p in
    let above = le-div_iff_mul-le {k = p} {x = q + 1} {y = b} (omega arith) in
    let one_more = add-mul q 1 p in
    let same = add-mul q 0 p in
    let whole = mod-eq-sub-mul-div b p in
    let turned = mul_comm p q in ground (arith, above, one_more, same, whole, turned)

-- The interval rounds up: as many of them as packets fill a second.
interval_for-le :
    (packets_per_second : ℕ)
    → packets_per_second ≢ 0
    → nanoseconds_per_second ≤ interval_for packets_per_second * packets_per_second
unfolding interval_for
interval_for-le p n =
    if_elim (λ x. nanoseconds_per_second ≤ x * p) (p == 0) (λ z. absurd (n (ground arith)))
      λ _. ceil-mul nanoseconds_per_second p n

-- Is a packet allowed at the time?
abbrev pub is_due : Option ℕ → ℕ → Bool
is_due none time = true
is_due (some deadline) time = leb deadline time

abbrev is_empty : List ℕ → Bool
is_empty [] = true
is_empty (t ∷ ts) = false

-- A sender that sends at the times given, none before the deadline that the schedule named last, and
-- that sends no more when there is no deadline.
unfoldable pub is_paced : MoldUdpPacketRateSchedule → List ℕ → Bool
is_paced s [] = true
is_paced s (t ∷ ts) =
    let (next, s') = checked_deadline_after_packet t s in
    is_due s.scheduled_deadline t && (elim next [ none ↦ is_empty ts | some _ ↦ is_paced s' ts ])

unfoldable pub last : ℕ → List ℕ → ℕ
last t [] = t
last t (u ∷ us) = last u us

checked_deadline_after_packet-step :
    (t c : ℕ) (s : MoldUdpPacketRateSchedule)
    → (checked_deadline_after_packet t s).0 ≡ some c
    → (t + s.interval ≤ c)
      × ((checked_deadline_after_packet t s).1.interval ≡ s.interval)
      × ((checked_deadline_after_packet t s).1.scheduled_deadline ≡ some c)
unfolding checked_deadline_after_packet checked_add rate_base
checked_deadline_after_packet-step t c s h = ground arith

spacing :
    (t : ℕ) (ts : List ℕ) (s : MoldUdpPacketRateSchedule)
    → is_paced s (t ∷ ts) ≡ true
    → t + length ts * s.interval ≤ last t ts
unfolding is_paced last
spacing t [] s h = omega arith
spacing t (u ∷ us) s h = elim (Option-cases (checked_deadline_after_packet t s).0) [
  | inl nothing ↦ ground arith
  | inr (c, hit) ↦
      let s' = (checked_deadline_after_packet t s).1 in
      let (far, same, due) = checked_deadline_after_packet-step t c s hit in
      let rest : is_paced s' (u ∷ us) ≡ true = ground arith in
      let ih = spacing u us s' rest in
      ground (arith, ih, far, due, h, same, suc-mul (length us) s.interval)
]

-- The configured rate is never exceeded: a sender that waits for the deadlines of the schedule, however
-- late it wakes up, spends at least n seconds on every n times packets_per_second packets after the
-- first one.
pub is_paced-rate :
    (packets_per_second t : ℕ) (ts : List ℕ)
    → packets_per_second ≢ 0
    → is_paced (new_rate_schedule packets_per_second) (t ∷ ts) ≡ true
    → t * packets_per_second + length ts * nanoseconds_per_second ≤ last t ts * packets_per_second
unfolding new_rate_schedule
is_paced-rate p t ts n h =
    let space =
      mul-le-mul_right p
        (spacing t ts (record { interval = interval_for p; scheduled_deadline = none }) h) in
    let fill = mul-le-mul_left (length ts) (interval_for-le p n) in
    omega (
      arith,
      space,
      fill,
      add-mul t (length ts * interval_for p) p,
      mul_assoc (length ts) (interval_for p) p,
    )
