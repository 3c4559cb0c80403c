-- ===== src/Control.antt =====
-- include/astra/protocol/MoldUdpControlPacket.hpp and MoldUdpControlSchedule.hpp: the control packets of
-- a sender, and when it may send. Times and durations are the ticks of the steady clock, nanoseconds
-- from 0 on; `max_time` is the largest of their 64-bit type. Negative durations, which every test treats
-- like 0, are left out.
pub mod Packets
pub mod Rate
use astra_feed_engine.Prelude.{
  ℕ, zero, suc, ◌+◌, ◌-◌, ◌*◌, ◌/◌, ◌%◌, ◌^◌, List, [], ◌∷◌, ◌++◌, Bool, true, false, not, ◌&&◌,
  ◌||◌, Option, none, some, ◌==◌, ltb, leb, if◌then◌else◌, length, get_or,
}
use astra_feed_engine.Wire.{session_size, end_of_session_message_count}

-- The first loop of makeMoldControlPacket: the session, padded with spaces.
unfoldable pub session_bytes : ℕ → ℕ → List ℕ → List ℕ
session_bytes zero index session = []
session_bytes (suc rounds) index session =
    (if ltb index (length session) then get_or session index 0 else b' ')
    ∷ session_bytes rounds (index + 1) session

-- The second loop, from the last byte to the first.
unfoldable pub sequence_bytes : ℕ → ℕ → List ℕ → List ℕ
sequence_bytes zero next_sequence bytes = bytes
sequence_bytes (suc rounds) next_sequence bytes =
    sequence_bytes rounds (next_sequence / 256) (next_sequence % 256 ∷ bytes)

unfoldable pub make_mold_control_packet : List ℕ → ℕ → ℕ → List ℕ
make_mold_control_packet session next_sequence message_count =
    session_bytes session_size 0 session
    ++ sequence_bytes 8 next_sequence (message_count / 256 ∷ message_count % 256 ∷ [])

unfoldable pub make_mold_heartbeat_packet : List ℕ → ℕ → List ℕ
make_mold_heartbeat_packet session next_sequence = make_mold_control_packet session next_sequence 0

unfoldable pub make_mold_end_of_session_packet : List ℕ → ℕ → List ℕ
make_mold_end_of_session_packet session next_sequence =
    make_mold_control_packet session next_sequence end_of_session_message_count

abbrev pub max_time : ℕ
max_time = 9223372036854775807

abbrev pub nanoseconds_per_second : ℕ
nanoseconds_per_second = 1000000000

pub record MoldUdpPacketRateSchedule : Type 0 where
  pub interval : ℕ
  pub scheduled_deadline : Option ℕ

unfoldable pub interval_for : ℕ → ℕ
interval_for packets_per_second =
    if packets_per_second == 0
    then 0
    else nanoseconds_per_second / packets_per_second
      + (if nanoseconds_per_second % packets_per_second == 0 then 0 else 1)

unfoldable pub new_rate_schedule : ℕ → MoldUdpPacketRateSchedule
new_rate_schedule packets_per_second = record {
  interval = interval_for packets_per_second;
  scheduled_deadline = none;
}

unfoldable pub reset : ℕ → MoldUdpPacketRateSchedule → MoldUdpPacketRateSchedule
reset base s = record s { scheduled_deadline = some base }

unfoldable pub checked_add : ℕ → ℕ → Option ℕ
checked_add base interval = if ltb (max_time - interval) base then none else some (base + interval)

-- The later of the scheduled deadline and the time of the send.
unfoldable pub rate_base : Option ℕ → ℕ → ℕ
rate_base none sent_at = sent_at
rate_base (some deadline) sent_at = if ltb sent_at deadline then deadline else sent_at

unfoldable pub checked_deadline_after_packet :
    ℕ → MoldUdpPacketRateSchedule → Option ℕ × MoldUdpPacketRateSchedule
checked_deadline_after_packet sent_at s =
    if not (ltb 0 s.interval)
    then (none, s)
    else elim (checked_add (rate_base s.scheduled_deadline sent_at) s.interval) [
      | none ↦ (none, s)
      | some candidate ↦ (some candidate, record s { scheduled_deadline = some candidate })
    ]

pub record MoldUdpHeartbeatSchedule : Type 0 where
  pub interval : ℕ
  pub next_heartbeat : Option ℕ

unfoldable pub observe_traffic : ℕ → MoldUdpHeartbeatSchedule → MoldUdpHeartbeatSchedule
observe_traffic sent_at s =
    if not (ltb 0 s.interval) then record s { next_heartbeat = none } else record s {
      next_heartbeat =
          some (if ltb (max_time - s.interval) sent_at then max_time else sent_at + s.interval);
    }

unfoldable pub next_heartbeat_before : ℕ → MoldUdpHeartbeatSchedule → Option ℕ
next_heartbeat_before data_deadline s = elim s.next_heartbeat [
  | none ↦ none
  | some next ↦ if leb data_deadline next then none else some next
]

pub record MoldUdpEndOfSessionSchedule : Type 0 where
  pub packet_count : ℕ
  pub interval : ℕ

unfoldable pub checked_deadline : ℕ → ℕ → MoldUdpEndOfSessionSchedule → Option ℕ
checked_deadline first_send packet_index s =
    let delay = s.interval * packet_index in
    if packet_index == 0 || s.interval == 0
    then some first_send
    else if ltb (max_time / s.interval) packet_index
    then none
    else if ltb (max_time - delay) first_send
    then none
    else some (first_send + delay)

unfoldable pub checked_deadline_after_send : ℕ → MoldUdpEndOfSessionSchedule → Option ℕ
checked_deadline_after_send successful_send s = checked_deadline successful_send 1 s

unfoldable pub deadline : ℕ → ℕ → MoldUdpEndOfSessionSchedule → ℕ
deadline first_send packet_index s = elim (checked_deadline first_send packet_index s) [
  | none ↦ max_time
  | some at ↦ at
]
