-- ===== src/Tests/Sender.antt =====
-- A heartbeat, a paced sender, and an engine over a short session.
use astra_feed_engine.Prelude.{
  ℕ, ◌+◌, ◌*◌, ◌≤◌, ◌≡◌, refl, List, [], ◌∷◌, true, false, none, some, length, take, arith,
}
use astra_feed_engine.Wire.{header_size, session_size, read_u16_be, read_u64_be}
use astra_feed_engine.Control.{
  nanoseconds_per_second, session_bytes, make_mold_control_packet, interval_for, new_rate_schedule,
  checked_add, rate_base, checked_deadline_after_packet,
}
use astra_feed_engine.Control.Packets.{make_mold_control_packet-read}
use astra_feed_engine.Control.Rate.{is_paced, last, is_paced-rate}
use astra_feed_engine.Decoder.State.{DecodeStatus, new_decoder, is_terminal_decode_failure}
use astra_feed_engine.Decoder.Packet.{process_packet, process_bytes}
use astra_feed_engine.Engine.{EngineConfig, Round, react, receive, run_loop}
use astra_feed_engine.Engine.Liveness.{collaborators, new_engine, run_loop-live}
use astra_feed_engine.Tests.{log_parser, counter, packet_view}

make_mold_control_packet-read_example :
    let packet = make_mold_control_packet (65 ∷ 66 ∷ []) 1000 0 in
    (length packet ≡ header_size)
    × (read_u64_be packet 10 ≡ 1000)
    × (read_u16_be packet 18 ≡ 0)
    × (take session_size packet ≡ session_bytes session_size 0 (65 ∷ 66 ∷ []))
make_mold_control_packet-read_example =
    make_mold_control_packet-read (65 ∷ 66 ∷ []) 1000 0 (omega arith) (omega arith)

-- Three packets at three a second; the second is late.
paced : is_paced (new_rate_schedule 3) (5 ∷ 400000000 ∷ 733333334 ∷ []) ≡ true
unfolding is_paced new_rate_schedule interval_for checked_add rate_base
    checked_deadline_after_packet
paced = refl

is_paced-rate_example : 5 * 3 + 2 * nanoseconds_per_second ≤ last 5 (400000000 ∷ 733333334 ∷ []) * 3
is_paced-rate_example = is_paced-rate 3 5 (400000000 ∷ 733333334 ∷ []) (λ e. ground arith) paced

abbrev config : EngineConfig
config = record {
  enable_latency_metrics = true;
  stop_on_decode_error = false;
  stop_on_sequence_gap = false;
}

-- A datagram that is too short, which does not stop the engine, and a round with none.
abbrev rounds : List Round
rounds =
    record { stop_called = false; received = some (packet_view (1 ∷ [])) }
    ∷ record { stop_called = false; received = none }
    ∷ []

abbrev keep_last : ℕ → ℕ → ℕ → ℕ
keep_last duration samples before = duration

still_runs :
    (run_loop config
      (collaborators log_parser counter keep_last)
      rounds
      (new_engine [] 0 1 0)).running
    ≡ true
unfolding run_loop receive react new_engine new_decoder process_packet process_bytes
    is_terminal_decode_failure
still_runs = refl

run_loop-live_example :
    (run_loop config
      (collaborators log_parser counter keep_last)
      rounds
      (new_engine [] 0 1 0)).processor.terminal_status
    ≡ DecodeStatus.ok
run_loop-live_example = run_loop-live log_parser counter keep_last config rounds [] 0 1 0 still_runs
