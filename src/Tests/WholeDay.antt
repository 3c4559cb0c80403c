-- ===== src/Tests/WholeDay.antt =====
-- A whole day of system events, from the first message to the accepted end of the stream.
use astra_feed_engine.Prelude.{
  ℕ, ◌+◌, ◌≡◌, refl, List, [], ◌∷◌, ◌++◌, true, All, arith, bytes_eq, add_u64, mul_u64, inc_u32,
  dec_u32, ◌-◌, get_or,
}
use astra_feed_engine.Wire.{
  byte_at, subspan, read_be, read_u16_be, read_u48_be, read_u64_be, expected_itch_message_length,
}
use astra_feed_engine.Channel.{ChannelPhase, set_session, session_matches, initial_channel}
use astra_feed_engine.GapBuffer
use astra_feed_engine.Decoder.State.{
  DecodeStatus, PacketView, new_decoder, terminal_failure, merge_latency,
  is_terminal_decode_failure,
}
use astra_feed_engine.Decoder.Messages.{
  process_sequenced_packet, timed_result, message_loop, apply_message, validate_sequenced_packet,
  validate_loop,
}
use astra_feed_engine.Decoder.Drain.{
  drain_gap_buffer, drain_loop, drain_step, drain_packet, erase_packet, nearest_candidate, nearest,
}
use astra_feed_engine.Decoder.Packet.{
  process_packet, process_packets, process_bytes, process_datagram, process_sequenced, apply_packet,
  advance, conclude, resolve_pending_end_of_stream, buffer_packet, settle, note_insertion,
  bind_session, process_heartbeat, process_end_of_session, early_end_of_session,
}
use astra_feed_engine.Decoder.Stream.{played, frames, Honest}
use astra_feed_engine.Symbols.{initial_directory, is_registered}
use astra_feed_engine.Book.{MutationResult}
use astra_feed_engine.Parser.State.{Books, new_parser, fail, skip}
use astra_feed_engine.Parser.Phase.{
  is_allowed, advance_phase, mark_startup_admin_message, create_registered_book, create_books_loop,
  create_registered_books, handle_system_hours_start, system_event, handle_system_event,
}
use astra_feed_engine.Parser.Dispatch.{
  itch_handler, dispatch_type, dispatch_message, handle_prevalidated_message,
}
use astra_feed_engine.Session.{process_packets-end_of_stream}
use astra_feed_engine.Tests.{counter, framed, header, packet_view}

-- Books that only count the live orders.
abbrev pub counting_books : Books ℕ
counting_books = record {
  add_order = λ _ _ _ _ _ _ n. (MutationResult.applied, n + 1);
  execute_order = λ _ _ _ _ n. (MutationResult.applied, n);
  cancel_shares = λ _ _ _ _ n. (MutationResult.applied, n);
  delete_order = λ _ _ _ n. (MutationResult.applied, n - 1);
  replace_order = λ _ _ _ _ _ _ n. (MutationResult.applied, n);
  get_or_create = λ _ n. (true, n);
  total_live_order_count = λ n. n;
}

abbrev pub event_of : ℕ → List ℕ
event_of code = 83 ∷ 0 ∷ 0 ∷ 0 ∷ 0 ∷ 0 ∷ 0 ∷ 0 ∷ 0 ∷ 0 ∷ 0 ∷ code ∷ []

abbrev day : ℕ → List ℕ
day n = event_of (get_or (79 ∷ 83 ∷ 81 ∷ 77 ∷ 69 ∷ 67 ∷ []) (n - 1) 0)

-- The end marker of the session, which announces message 7 as the next one.
abbrev end_marker : List ℕ
end_marker =
    65 ∷ 66 ∷ 67 ∷ 68 ∷ 69 ∷ 70 ∷ 71 ∷ 72 ∷ 73 ∷ 74 ∷ 0 ∷ 0 ∷ 0 ∷ 0 ∷ 0 ∷ 0 ∷ 0 ∷ 7 ∷ 255 ∷ 255 ∷ []

abbrev whole_day : List PacketView
whole_day =
    packet_view (header 4 3 ++ framed (day 4) ++ framed (day 5) ++ framed (day 6))
    ∷ packet_view end_marker
    ∷ packet_view (header 1 3 ++ framed (day 1) ++ framed (day 2) ++ framed (day 3))
    ∷ []

day_ends :
    (process_packets
      (itch_handler counting_books)
      counter
      whole_day
      (new_decoder (new_parser initial_directory 0) 0 1)).terminal_status
    ≡ DecodeStatus.end_of_stream
unfolding process_packets process_packet process_bytes process_datagram process_sequenced
    apply_packet advance conclude resolve_pending_end_of_stream buffer_packet settle note_insertion
    bind_session terminal_failure process_heartbeat process_end_of_session early_end_of_session
    drain_gap_buffer drain_loop drain_step drain_packet erase_packet nearest_candidate nearest
    process_sequenced_packet timed_result message_loop apply_message validate_sequenced_packet
    validate_loop new_decoder merge_latency is_terminal_decode_failure GapBuffer.clear
    GapBuffer.empty GapBuffer.hash GapBuffer.slot_for GapBuffer.next GapBuffer.probe_distance
    GapBuffer.compare_duplicate GapBuffer.insert_probe GapBuffer.insert GapBuffer.locate
    GapBuffer.find_slot GapBuffer.find GapBuffer.shift_entry GapBuffer.close_gap GapBuffer.fill_hole
    GapBuffer.erase_at GapBuffer.erase byte_at subspan read_be read_u16_be read_u64_be
    expected_itch_message_length set_session session_matches initial_channel bytes_eq add_u64
    mul_u64 inc_u32 dec_u32 itch_handler new_parser handle_prevalidated_message dispatch_message
    dispatch_type handle_system_event system_event advance_phase is_allowed
    handle_system_hours_start create_registered_books create_books_loop create_registered_book fail
    skip mark_startup_admin_message initial_directory is_registered read_u48_be
day_ends = refl

whole_day-Honest : All (Honest day) whole_day
unfolding byte_at subspan read_be read_u16_be read_u64_be frames
whole_day-Honest = (
  record { carries = (ground arith, λ _. (refl, (refl, (refl, tt)))) },
  (
    record { carries = (ground arith, λ n. absurd (n refl)) },
    (record { carries = (ground arith, λ _. (refl, (refl, (refl, tt)))) }, tt),
  ),
)

process_packets-end_of_stream_example :
    let d =
      process_packets
        (itch_handler counting_books)
        counter
        whole_day
        (new_decoder (new_parser initial_directory 0) 0 1) in
    (n : ℕ) × (d.parser
      ≡ played (itch_handler counting_books) day 1 (new_parser initial_directory 0) n)
    × (1 + n ≡ d.channel.next_expected_seq)
    × (d.parser.channel_phase ≡ ChannelPhase.end_of_messages)
    × (counting_books.total_live_order_count d.parser.books ≡ 0)
process_packets-end_of_stream_example =
    process_packets-end_of_stream counting_books counter day 1 initial_directory 0 0 whole_day
      (omega arith) whole_day-Honest day_ends
