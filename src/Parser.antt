-- ===== src/Parser.antt =====
-- src/parser/ItchParser.cpp: the ITCH 5.0 messages, applied to the stock directory and to the books
-- behind the interface `Books`.
pub mod State
pub mod Phase
pub mod Orders
pub mod Directory
pub mod Dispatch
pub mod Lifecycle
pub mod Closed
pub mod Kept
pub mod Prevalidated
