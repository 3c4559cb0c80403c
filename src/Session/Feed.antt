-- ===== src/Session/Feed.antt =====
-- The whole feed: src/codec/MoldUdpDecoder.cpp with src/parser/ItchParser.cpp and src/book/BookManager.cpp
-- behind it.
use astra_feed_engine.Prelude.{
  ℕ, zero, suc, ◌+◌, ◌^◌, ◌<◌, ◌≡◌, refl, sym, subst, ap, ◌∙◌, false, true, some, List, All,
}
use astra_feed_engine.Wire.Octets.{Octets}
use astra_feed_engine.Symbols.{StockDirectory}
use astra_feed_engine.Book.{OrderSide, is_valid_side}
use astra_feed_engine.Book.PriceLevelStore.Best.{level_at}
use astra_feed_engine.Book.OrderBook.Ledger.{books}
use astra_feed_engine.Book.BookManager.{BookManager, BookManagerConfig, new_manager, managed_books}
use astra_feed_engine.Book.BookManager.Requests.{
  creates, adds, cancels, executes, deletes, replaces, serve,
}
use astra_feed_engine.Book.BookManager.Agreement.{
  Agrees, Agrees-IsOpen, IsOpen, serve-Agrees, new_manager-Agrees,
}
use astra_feed_engine.Decoder.State.{Clock, PacketView, new_decoder, is_terminal_decode_failure}
use astra_feed_engine.Decoder.Packet.{process_packets}
use astra_feed_engine.Decoder.Stream.{played, Honest}
use astra_feed_engine.Decoder.Sequencing.{process_packets-in_order}
use astra_feed_engine.Parser.State.{Books, ItchParser, new_parser}
use astra_feed_engine.Parser.Dispatch.{itch_handler}
use astra_feed_engine.Session.Day.{new_day, run, step}
use astra_feed_engine.Session.Day.Refinement.{day_of, handle_prevalidated_message-day}
use astra_feed_engine.Parser.Kept.{Keeps, handle_prevalidated_message-Fine}

-- The manager as the parser calls it.
managed_books-Keeps : Keeps managed_books Agrees
unfolding serve
managed_books-Keeps = record {
  adds = λ l id price qty side time m w k. serve-Agrees (adds l id price qty side time) m w k;
  executes = λ l id qty time m k. serve-Agrees (executes l id qty time) m tt k;
  cancels = λ l id qty time m k. serve-Agrees (cancels l id qty time) m tt k;
  deletes = λ l id time m k. serve-Agrees (deletes l id time) m tt k;
  replaces = λ l old_id new_id price qty time m w k.
      serve-Agrees (replaces l old_id new_id price qty time) m w k;
  creates = λ l m k. serve-Agrees (creates l) m tt k;
}

played-Agrees :
    (stream : ℕ → List ℕ) (first : ℕ) (p : ItchParser BookManager) (n : ℕ)
    → ((i : ℕ) → Octets (stream i))
    → Agrees p.books
    → Agrees (played (itch_handler managed_books) stream first p n).books
unfolding played itch_handler
played-Agrees stream first p zero o k = k
played-Agrees stream first p (suc n) o k =
    handle_prevalidated_message-Fine managed_books Agrees managed_books-Keeps (stream (first + n)) _
      (o (first + n)) (played-Agrees stream first p n o k)

played-day :
    {B : Type 0} (manager : Books B) (stream : ℕ → List ℕ) (first : ℕ) (p : ItchParser B) (n : ℕ)
    → day_of (played (itch_handler manager) stream first p n)
      ≡ run manager stream first (day_of p) n
unfolding played itch_handler run
played-day manager stream first p zero = refl
played-day manager stream first p (suc n) =
    handle_prevalidated_message-day manager (stream (first + n))
      (played (itch_handler manager) stream first p n)
    ∙ ap (step manager (stream (first + n))) (played-day manager stream first p n)

-- The feed is the day that its messages describe. A stream of messages of octets is sent over any
-- number of honest lines that lose, repeat and reorder its datagrams, and decoded, parsed and applied to
-- a new manager. Then the phase, the directory and the books are those that Session/Day gives for the
-- first n messages of the stream, each one read by its table of fields and applied once and in order;
-- and, unless the decoder has failed, n leads to the next expected number. Moreover the level at any
-- price of any valid side of any stock locate is the sum of the shares and the number of the live orders
-- that are stored with that locate, side and price, and its book is not marked invalid.
pub process_packets-books :
    (config : BookManagerConfig) (m : BookManager) (clock : Clock) (stream : ℕ → List ℕ) (first : ℕ)
    (symbols : StockDirectory) (channel_id : ℕ) (packets : List PacketView)
    → config.prices.page_capacity < 2 ^ 32
    → new_manager config ≡ some m
    → first < 2 ^ 64
    → ((i : ℕ) → Octets (stream i))
    → All (Honest stream) packets
    → (l : ℕ) (side : OrderSide) → is_valid_side side ≡ true
    → (raw : ℕ) → raw < 2 ^ 32
    → let d =
        process_packets
          (itch_handler managed_books)
          clock
          packets
          (new_decoder (new_parser symbols m) channel_id first) in
      ((n : ℕ) × (day_of d.parser ≡ run managed_books stream first (new_day symbols m) n)
        × (is_terminal_decode_failure d.terminal_status ≡ false
            → first + n ≡ d.channel.next_expected_seq))
      × (level_at l side raw d.parser.books.prices ≡ books d.parser.books.orders l side raw)
      × IsOpen (d.parser.books.books l)
unfolding new_parser
process_packets-books config m clock stream first symbols channel_id packets word e w o a l side v
      raw h =
    let p = new_parser symbols m in
    let (n, prefix, current) =
      process_packets-in_order (itch_handler managed_books) clock stream first p channel_id packets
        w a in
    let start : Agrees p.books = new_manager-Agrees config m word e in
    let k =
      subst (λ (q : ItchParser BookManager). Agrees q.books) (sym prefix)
        (played-Agrees stream first p n o start) in
    (
      (n, ap day_of prefix ∙ played-day managed_books stream first p n, current),
      k.booked.shows l side v raw h,
      Agrees-IsOpen l _ k,
    )
