-- ===== src/Tests/OneMessage.antt =====
-- Single messages, at the states that the theorems on src/parser/ItchParser.cpp are applied to.
use astra_feed_engine.Prelude.{ℕ, ◌+◌, ◌≡◌, ◌⊎◌, inl, refl, List, ◌++◌, All, arith}
use astra_feed_engine.Wire.{header_size, byte_at, read_u16_be, expected_itch_message_length}
use astra_feed_engine.Channel.{initial_channel}
use astra_feed_engine.Symbols.{initial_directory}
use astra_feed_engine.Parser.State.{ItchParser, new_parser}
use astra_feed_engine.Parser.Dispatch.{itch_handler, handle_message, handle_prevalidated_message}
use astra_feed_engine.Parser.Lifecycle.{Lifecycle, handle_message-Lifecycle}
use astra_feed_engine.Parser.Closed.{IsOpen, handle_prevalidated_message_books}
use astra_feed_engine.Parser.Prevalidated.{validate_sequenced_packet-prevalidates}
use astra_feed_engine.Decoder.State.{DecodeStatus, MoldUdpDecoder, new_decoder}
use astra_feed_engine.Decoder.Messages.{validate_loop, validate_sequenced_packet}
use astra_feed_engine.Decoder.Packet.{process_sequenced}
use astra_feed_engine.Decoder.Stream.{frames}
use astra_feed_engine.Decoder.Progress.{Advances, process_sequenced-Advances}
use astra_feed_engine.Tests.{counter, header, framed}
use astra_feed_engine.Tests.WholeDay.{counting_books, event_of}

abbrev fresh : ItchParser ℕ
fresh = new_parser initial_directory 3

handle_message-Lifecycle_example :
    Lifecycle 83 79 fresh.channel_phase
      (handle_message counting_books (event_of 79) fresh).1.channel_phase
    × Lifecycle 83 79 fresh.channel_phase
        (handle_prevalidated_message counting_books (event_of 79) fresh).1.channel_phase
unfolding byte_at
handle_message-Lifecycle_example = handle_message-Lifecycle counting_books (event_of 79) fresh

handle_prevalidated_message_books_example :
    ((handle_prevalidated_message counting_books (event_of 79) fresh).1.books ≡ fresh.books)
    ⊎ IsOpen 83 fresh.channel_phase
unfolding byte_at
handle_prevalidated_message_books_example =
    handle_prevalidated_message_books counting_books (event_of 79) fresh

-- A packet with one system event.
abbrev one : List ℕ
one = header 1 1 ++ framed (event_of 79)

one_valid : validate_sequenced_packet one 1 ≡ DecodeStatus.ok
unfolding validate_sequenced_packet validate_loop byte_at read_u16_be expected_itch_message_length
one_valid = refl

validate_sequenced_packet-prevalidates_example :
    All
      (λ m.
        handle_message counting_books m fresh ≡ handle_prevalidated_message counting_books m fresh)
      (frames 1 one header_size)
validate_sequenced_packet-prevalidates_example =
    validate_sequenced_packet-prevalidates counting_books fresh one 1 one_valid

abbrev start : MoldUdpDecoder (ItchParser ℕ)
start = new_decoder fresh 0 1

start_fields : (start.channel.next_expected_seq ≡ 1) × (start.pending_end_sequence ≡ 0)
unfolding new_decoder initial_channel
start_fields = (refl, refl)

process_sequenced-Advances_example :
    Advances
      (itch_handler counting_books)
      counter
      (1 + 1)
      (process_sequenced (itch_handler counting_books) counter one 1 1 5 start)
process_sequenced-Advances_example =
    process_sequenced-Advances (itch_handler counting_books) counter one 1 1 5 start one_valid
      (omega arith) (omega (arith, start_fields.0)) (omega (arith, start_fields.0))
      (inl start_fields.1)
