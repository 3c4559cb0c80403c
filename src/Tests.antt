-- ===== src/Tests.antt =====
-- Datagrams, a parser and a clock that the theorems on src/codec/MoldUdpDecoder.cpp are applied to.
use astra_feed_engine.Prelude.{ℕ, List, [], ◌∷◌, ◌++◌, false, some, length}
use astra_feed_engine.Channel.{ChannelPhase}
use astra_feed_engine.Decoder.State.{MessageHandler, Clock, PacketView}
mod Books
mod Levels
mod Capacity
mod MoldSession
mod WholeDay
mod Feed
mod OneMessage
mod Tables
mod Orders
mod Prices
mod Sender

-- A parser that keeps the messages it is given, the last one first.
abbrev pub log_parser : MessageHandler (List (List ℕ))
log_parser = record {
  handle = λ p m. m ∷ p;
  channel_phase = λ p. ChannelPhase.system_hours;
  failed = λ p. false;
}

abbrev pub counter : Clock
counter = record { rdtsc = λ n. n; elapsed_rdtsc_ns = λ s e. e }

-- A system event message, number n of the stream.
abbrev pub event : ℕ → List ℕ
event n = 83 ∷ 0 ∷ 0 ∷ 0 ∷ 0 ∷ 0 ∷ 0 ∷ 0 ∷ 0 ∷ 0 ∷ n ∷ 79 ∷ []

abbrev pub framed : List ℕ → List ℕ
framed m = 0 ∷ length m ∷ m

abbrev pub header : ℕ → ℕ → List ℕ
header seq count =
    65 ∷ 66 ∷ 67 ∷ 68 ∷ 69 ∷ 70 ∷ 71 ∷ 72 ∷ 73 ∷ 74 ∷ 0 ∷ 0 ∷ 0 ∷ 0 ∷ 0 ∷ 0 ∷ 0 ∷ seq ∷ 0 ∷ count
    ∷ []

abbrev pub packet_view : List ℕ → PacketView
packet_view bytes = record { payload = some bytes; receive_start_ticks = 5 }

abbrev pub one_event : ℕ → PacketView
one_event n = packet_view (header n 1 ++ framed (event n))

abbrev pub swapped : List PacketView
swapped = one_event 2 ∷ one_event 1 ∷ []
