-- ===== src/Tests/MoldSession.antt =====
-- Runs of the decoder of src/codec/MoldUdpDecoder.cpp on two datagrams that arrive in the wrong order.
use astra_feed_engine.Prelude.{
  ℕ, ◌+◌, ◌≡◌, refl, List, [], ◌∷◌, ◌++◌, true, false, none, All, replicate, arith, bytes_eq,
  add_u64, mul_u64, inc_u32, dec_u32,
}
use astra_feed_engine.Wire.{
  byte_at, subspan, read_be, read_u16_be, read_u64_be, expected_itch_message_length,
}
use astra_feed_engine.Channel.{set_session, session_matches, initial_channel}
use astra_feed_engine.GapBuffer
use astra_feed_engine.Decoder.State.{
  DecodeStatus, MoldUdpDecoder, PacketView, new_decoder, terminal_failure, merge_latency,
  is_terminal_decode_failure,
}
use astra_feed_engine.Decoder.Messages.{
  process_sequenced_packet, timed_result, message_loop, apply_message, validate_sequenced_packet,
  validate_loop,
}
use astra_feed_engine.Decoder.Drain.{
  drain_gap_buffer, drain_loop, drain_step, drain_packet, erase_packet, nearest_candidate, nearest,
}
use astra_feed_engine.Decoder.Packet.{
  process_packet, process_packets, process_bytes, process_datagram, process_sequenced, apply_packet,
  advance, conclude, resolve_pending_end_of_stream, buffer_packet, settle, note_insertion,
  bind_session, process_heartbeat, process_end_of_session, early_end_of_session,
}
use astra_feed_engine.Decoder.Stream.{frames, played, Honest}
use astra_feed_engine.Decoder.Sequencing.{process_packets-in_order}
use astra_feed_engine.Decoder.Verdict.{Verdict, process_packets-IsCounted, new_decoder-IsCounted}
use astra_feed_engine.Decoder.Finality.{
  run, process_packet-Verdict, process_packet-failure_is_final,
}
use astra_feed_engine.Decoder.Termination.{drain_gap_buffer-exhausts}
use astra_feed_engine.Tests.{log_parser, counter, event, one_event, swapped, packet_view}

-- A packet of another session.
abbrev stray : PacketView
stray = packet_view (replicate 10 90 ++ (0 ∷ 0 ∷ 0 ∷ 0 ∷ 0 ∷ 0 ∷ 0 ∷ 3 ∷ 0 ∷ 0 ∷ []))

-- Before the stray packet: both messages are delivered, and the decoder is live.
abbrev after_both : MoldUdpDecoder (List (List ℕ))
after_both = run log_parser counter [] 0 1 swapped

-- The second packet is buffered, and the first has not come.
abbrev waiting : MoldUdpDecoder (List (List ℕ))
waiting = run log_parser counter [] 0 1 (one_event 2 ∷ [])

runs :
    (after_both.parser ≡ event 2 ∷ event 1 ∷ [])
    × (after_both.terminal_status ≡ DecodeStatus.ok)
    × (is_terminal_decode_failure (process_packet log_parser counter stray after_both).0.status
        ≡ true)
    × ((drain_gap_buffer log_parser counter waiting).0.status ≡ DecodeStatus.ok)
unfolding process_packets process_packet process_bytes process_datagram process_sequenced
    apply_packet advance conclude resolve_pending_end_of_stream buffer_packet settle note_insertion
    bind_session terminal_failure process_heartbeat process_end_of_session early_end_of_session
    drain_gap_buffer drain_loop drain_step drain_packet erase_packet nearest_candidate nearest
    process_sequenced_packet timed_result message_loop apply_message validate_sequenced_packet
    validate_loop new_decoder merge_latency is_terminal_decode_failure GapBuffer.clear
    GapBuffer.empty GapBuffer.hash GapBuffer.slot_for GapBuffer.next GapBuffer.probe_distance
    GapBuffer.compare_duplicate GapBuffer.insert_probe GapBuffer.insert GapBuffer.locate
    GapBuffer.find_slot GapBuffer.find GapBuffer.shift_entry GapBuffer.close_gap GapBuffer.fill_hole
    GapBuffer.erase_at GapBuffer.erase byte_at subspan read_be read_u16_be read_u64_be
    expected_itch_message_length set_session session_matches initial_channel bytes_eq add_u64
    mul_u64 inc_u32 dec_u32
runs = (refl, refl, refl, refl)

swapped-Honest : All (Honest event) swapped
unfolding byte_at subspan read_be read_u16_be read_u64_be frames
swapped-Honest = (
  record { carries = (ground arith, λ _. (refl, tt)) },
  (record { carries = (ground arith, λ _. (refl, tt)) }, tt),
)

process_packets-in_order_example :
    let d = process_packets log_parser counter swapped (new_decoder [] 0 1) in
    (n : ℕ) × (d.parser ≡ played log_parser event 1 [] n)
    × (is_terminal_decode_failure d.terminal_status ≡ false → 1 + n ≡ d.channel.next_expected_seq)
process_packets-in_order_example =
    process_packets-in_order log_parser counter event 1 [] 0 swapped (omega arith) swapped-Honest

process_packet-Verdict_example :
    Verdict
      (process_packet log_parser counter (one_event 3) (run log_parser counter [] 0 1 swapped))
process_packet-Verdict_example =
    process_packet-Verdict log_parser counter [] 0 1 swapped (one_event 3) runs.1

process_packet-failure_is_final_example :
    let (result, e) =
      process_packet log_parser counter stray (run log_parser counter [] 0 1 swapped) in
    (process_packets log_parser counter swapped e ≡ e)
    × ((process_packet log_parser counter (one_event 3) e).0.status ≡ result.status)
process_packet-failure_is_final_example =
    process_packet-failure_is_final log_parser counter [] 0 1 swapped swapped stray (one_event 3)
      runs.1 runs.2

drain_gap_buffer-exhausts_example :
    let e = (drain_gap_buffer log_parser counter waiting).1 in
    nearest_candidate e.channel.next_expected_seq e.channel.gap_buffer ≡ none
drain_gap_buffer-exhausts_example =
    drain_gap_buffer-exhausts log_parser counter waiting
      (process_packets-IsCounted log_parser counter (one_event 2 ∷ []) _
        (new_decoder-IsCounted [] 0 1))
      runs.3
