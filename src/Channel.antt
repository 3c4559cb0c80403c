-- ===== src/Channel.antt =====
-- include/astra/channel/: the health, the daily phase and the sequencing state of the one Mold
-- channel that a process reads.
use astra_feed_engine.Prelude.{ℕ, List, [], Bool, true, false, bytes_eq, take}
use astra_feed_engine.Wire.{session_size}
use astra_feed_engine.GapBuffer.{GapBuffer}
use astra_feed_engine.GapBuffer

pub data ChannelHealth : Type 0 where
  good gap_detected recovering stale invalid : ChannelHealth

pub data ChannelPhase : Type 0 where
  waiting_start_of_messages startup_directory_spin startup_admin_spin system_hours : ChannelPhase
  market_hours post_market_hours post_system_hours end_of_messages : ChannelPhase

abbrev pub is_good : ChannelHealth → Bool
is_good ChannelHealth.good = true
is_good _ = false

abbrev pub is_gap_detected : ChannelHealth → Bool
is_gap_detected ChannelHealth.gap_detected = true
is_gap_detected _ = false

abbrev pub is_recovering : ChannelHealth → Bool
is_recovering ChannelHealth.recovering = true
is_recovering _ = false

abbrev pub is_stale : ChannelHealth → Bool
is_stale ChannelHealth.stale = true
is_stale _ = false

abbrev pub is_invalid : ChannelHealth → Bool
is_invalid ChannelHealth.invalid = true
is_invalid _ = false

abbrev pub is_end_of_messages : ChannelPhase → Bool
is_end_of_messages ChannelPhase.end_of_messages = true
is_end_of_messages _ = false

-- `session` is the ten bytes before the terminating zero.
pub record ChannelState : Type 0 where
  pub channel_id : ℕ
  pub session : List ℕ
  pub next_expected_seq : ℕ
  pub heartbeat_next_seq_high_watermark : ℕ
  pub identical_buffered_redundant_packets : ℕ
  pub conflicting_buffered_redundant_packets : ℕ
  pub status : ChannelHealth
  pub phase : ChannelPhase
  pub gap_buffer : GapBuffer

unfoldable pub set_session : List ℕ → ChannelState → ChannelState
set_session bytes c = record c { session = take session_size bytes }

unfoldable pub session_matches : List ℕ → ChannelState → Bool
unfolding bytes_eq
session_matches bytes c = bytes_eq c.session (take session_size bytes)

-- The initial channel of a decoder.
unfoldable pub initial_channel : ℕ → ℕ → ChannelState
initial_channel channel_id sequence = record {
  channel_id = channel_id;
  session = [];
  next_expected_seq = sequence;
  heartbeat_next_seq_high_watermark = 0;
  identical_buffered_redundant_packets = 0;
  conflicting_buffered_redundant_packets = 0;
  status = ChannelHealth.good;
  phase = ChannelPhase.waiting_start_of_messages;
  gap_buffer = GapBuffer.clear;
}
