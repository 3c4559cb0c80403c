-- ===== src/Lib.antt =====
-- Verification library of astra-feed-engine, a market data engine for NASDAQ TotalView-ITCH 5.0 over
-- MoldUDP64.
--
-- The program receives the datagrams of two redundant lines. src/codec/MoldUdpDecoder.cpp checks each
-- one, puts the messages of the session in order with the help of a buffer of early packets
-- (include/astra/sequencing/GapBuffer.hpp), and hands every message to the parser.
--
-- - Prelude: the names of the libraries that the modules share, Boolean tests, lists, arrays as
--   functions, and the 32-bit and 64-bit operations with their wrap-around written out.
-- - Wire: include/astra/protocol/ItchMessageLength.hpp, ItchPrice.hpp and PacketHeader.hpp, and the
--   big-endian readers. A datagram is the list of its bytes.
-- - GapBuffer: include/astra/sequencing/GapBuffer.hpp, with its hash and its probing. Stored, Honest
--   and Count hold the lemmas, Stats has its stats().
-- - Channel: include/astra/channel.
-- - Decoder: src/codec/MoldUdpDecoder.cpp. State has the records, Messages has
--   validateSequencedPacket and processSequencedPacket, Drain has drainGapBuffer, and Packet has
--   processPacket, cut at its comments into one function per kind of datagram. Stream says what an
--   honest sender puts on the lines.
-- - Symbols: include/astra/symbol, the directory of tickers with its reverse index.
-- - Parser: src/parser/ItchParser.cpp. State has its records, and Books, what it asks of BookManager;
--   Phase the lifecycle, Orders the messages that change a book, Directory the Stock Directory message,
--   Dispatch the entry points.
-- - Bitmap: include/astra/utils/PriceBitmap.hpp, the occupied prices with two levels of summaries.
-- - Book: include/astra/book. OrderTable is src/book/OrderTable.cpp. PriceLevelStore is
--   src/book/PriceLevelStore.cpp, the price levels of all books in pages: Levels has the levels and
--   their reductions, Additions and Removals what adds, erases and moves orders, Deactivation what the
--   last order of a level leaves behind, and Reads the way from the best level to the next ones.
--   OrderBook is src/book/OrderBook.cpp, one book over the shared stores, with Orders, Replacement and
--   Depth. BookManager is src/book/BookManager.cpp, with Audit for auditDirectory and Capacity for the
--   footprint of the storage and the capacity profiles; it fills the parser's interface Books.
-- - Session: the decoder with the parser behind it. Day is the trading day as the tables of its messages
--   and phases describe it, written apart from the parser but for its test of a stock field and its
--   reading of a directory entry, and Day/Refinement follows the parser's handlers. Feed puts the manager
--   behind the parser; Parser/Kept carries an invariant of the books through every message.
-- - Engine: src/engine/MarketDataEngine.cpp, the receive loop.
-- - Control: include/astra/protocol/MoldUdpControlPacket.hpp and MoldUdpControlSchedule.hpp, the sender's
--   control packets and schedules.
-- - Tests: concrete runs.
--
-- The loop of drainGapBuffer runs on fuel, one more than the number of buffered packets. Every round
-- erases one. The probing loops run over the capacity, as in the source.
--
-- A sound store is described in Book/PriceLevelStore/Soundness, over Ranking (a set of indices with its
-- size and its best index) and Tracking (its bitmap); the modules beside it follow each operation. Best has
-- the abstract book of a store, what stands at each price; Depths and Effects say what each call does to
-- it. OrderBook/Ledger has the books that the stored orders make up, with OrderTable/Sums; Booked says
-- that they are the ones of the price levels, and Levelled, Changes and Counts follow the two stores
-- through their calls. Accepts says which calls never fail, Counting what the counters of live orders
-- are. Balance puts these together for a book between two operations, and KeepingAdded, Keeping,
-- KeepingMoved, RolledBack and KeepingReplaced go through the operations. BookManager/Requests has the
-- messages of a day, Opening the new manager, and Agreement carries all this through the day. Answers
-- follows the results of the operations, by OrderBook/Marking.
--
-- Not modelled: the standalone constructor of OrderBook, which is for tests; the loader of
-- src/book/BookCapacityProfile.cpp; sockets and DPDK, the replay of capture files, metrics, memory
-- mapping, console output, applications, benchmarks and scripts. The decoder sees its parser as an interface,
-- MessageHandler, which Parser.Dispatch fills; the time stamp counter is an argument.
mod Prelude
pub mod Wire
pub mod GapBuffer
pub mod Channel
pub mod Decoder
pub mod Symbols
pub mod Bitmap
pub mod Book
pub mod Parser
pub mod Session
pub mod Engine
pub mod Control
pub mod Tests
