-- ===== src/Decoder/State.antt =====
-- include/astra/codec/DecodeResult.hpp and MoldUdpDecoder.hpp: results and the decoder's state.
use astra_feed_engine.Prelude.{ℕ, List, Bool, true, false, Option, add_u64}
use astra_feed_engine.Channel.{ChannelPhase, ChannelState, ChannelHealth, initial_channel}

pub data DecodeStatus : Type 0 where
  ok packet_too_small invalid_message_type invalid_size unsupported_version : DecodeStatus
  invalid_order_side heartbeat end_of_stream invalid_sequence invalid_session : DecodeStatus
  redundant_feed_mismatch invalid_itch_message incomplete_session : DecodeStatus

abbrev pub is_ok : DecodeStatus → Bool
is_ok DecodeStatus.ok = true
is_ok _ = false

abbrev pub is_end_of_stream : DecodeStatus → Bool
is_end_of_stream DecodeStatus.end_of_stream = true
is_end_of_stream _ = false

unfoldable pub is_terminal_decode_failure : DecodeStatus → Bool
is_terminal_decode_failure DecodeStatus.invalid_size = true
is_terminal_decode_failure DecodeStatus.invalid_sequence = true
is_terminal_decode_failure DecodeStatus.invalid_session = true
is_terminal_decode_failure DecodeStatus.redundant_feed_mismatch = true
is_terminal_decode_failure DecodeStatus.invalid_itch_message = true
is_terminal_decode_failure DecodeStatus.incomplete_session = true
is_terminal_decode_failure _ = false

pub record DecodeResult : Type 0 where
  pub status : DecodeStatus
  pub had_gap : Bool
  pub latency_total_ns : ℕ
  pub latency_sample_count : ℕ

-- DecodeResult{status, had_gap}
abbrev pub of_status : DecodeStatus → Bool → DecodeResult
of_status status had_gap = record {
  status = status;
  had_gap = had_gap;
  latency_total_ns = 0;
  latency_sample_count = 0;
}

unfoldable pub merge_latency : DecodeResult → DecodeResult → DecodeResult
merge_latency target source = record target {
  latency_total_ns = add_u64 target.latency_total_ns source.latency_total_ns;
  latency_sample_count = add_u64 target.latency_sample_count source.latency_sample_count;
}

-- What the decoder asks of the parser: handlePrevalidatedMessage, channelPhase and
-- !lastError().empty().
pub record MessageHandler (P : Type 0) : Type 0 where
  pub handle : P → List ℕ → P
  pub channel_phase : P → ChannelPhase
  pub failed : P → Bool

-- rdtsc() at its n-th call, and elapsedRdtscNs(start, end).
pub record Clock : Type 0 where
  pub rdtsc : ℕ → ℕ
  pub elapsed_rdtsc_ns : ℕ → ℕ → ℕ

-- `clock_reads` counts the calls of rdtsc() so far.
pub record MoldUdpDecoder (P : Type 0) : Type 0 where
  pub first_packet_seen : Bool
  pub pending_end_sequence : ℕ
  pub terminal_status : DecodeStatus
  pub channel : ChannelState
  pub parser : P
  pub clock_reads : ℕ

-- A datagram; none is a null pointer, and `size` is the number of the bytes.
pub record PacketView : Type 0 where
  pub payload : Option (List ℕ)
  pub receive_start_ticks : ℕ

module _ {P : Type 0} where
  unfoldable pub new_decoder : P → ℕ → ℕ → MoldUdpDecoder P
  unfolding initial_channel
  new_decoder parser channel_id initial_expected_sequence = record {
    first_packet_seen = false;
    pending_end_sequence = 0;
    terminal_status = DecodeStatus.ok;
    channel = initial_channel channel_id initial_expected_sequence;
    parser = parser;
    clock_reads = 0;
  }

  abbrev pub with_status : ChannelHealth → MoldUdpDecoder P → MoldUdpDecoder P
  with_status status d = record d { channel = record (d.channel) { status = status } }

  unfoldable pub terminal_failure :
      DecodeStatus → MoldUdpDecoder P → DecodeResult × MoldUdpDecoder P
  terminal_failure status d = (
    of_status status false,
    record (with_status ChannelHealth.invalid d) { terminal_status = status },
  )
