-- ===== src/Decoder.antt =====
-- src/codec/MoldUdpDecoder.cpp and include/astra/codec/: sequencing of one MoldUDP64 session that
-- arrives on two redundant lines. The parser behind the decoder is the interface `MessageHandler`,
-- and the time stamp counter is `Clock`. Console output is left out.
pub mod State
pub mod Messages
pub mod Drain
pub mod Packet
pub mod Stream
pub mod Loop
pub mod InOrder
pub mod Delivery
pub mod Sequencing
pub mod Termination
pub mod Verdict
pub mod Finality
pub mod PhaseSync
pub mod Validated
pub mod Progress
