-- ===== src/Tests/Feed.antt =====
-- A feed that opens a book and adds an order to it.
use astra_feed_engine.Prelude.{
  ℕ, ◌+◌, ◌≡◌, ◌==◌, refl, List, [], ◌∷◌, ◌++◌, false, All, arith, if◌then◌else◌, if_elim,
}
use astra_feed_engine.Wire.{byte_at, subspan, read_be, read_u16_be, read_u64_be}
use astra_feed_engine.Wire.Octets.{Octets}
use astra_feed_engine.Symbols.{initial_directory}
use astra_feed_engine.Book.{OrderSide}
use astra_feed_engine.Book.PriceLevelStore.Best.{level_at}
use astra_feed_engine.Book.OrderBook.Ledger.{books}
use astra_feed_engine.Book.BookManager.{managed_books}
use astra_feed_engine.Book.BookManager.Agreement.{IsOpen}
use astra_feed_engine.Decoder.State.{PacketView, new_decoder, is_terminal_decode_failure}
use astra_feed_engine.Decoder.Packet.{process_packets}
use astra_feed_engine.Decoder.Stream.{frames, Honest}
use astra_feed_engine.Parser.State.{new_parser}
use astra_feed_engine.Parser.Dispatch.{itch_handler}
use astra_feed_engine.Session.Day.{new_day, run}
use astra_feed_engine.Session.Day.Refinement.{day_of}
use astra_feed_engine.Session.Feed.{process_packets-books}
use astra_feed_engine.Tests.{counter, framed, header, packet_view}
use astra_feed_engine.Tests.Books.{config, manager, created}
use astra_feed_engine.Tests.WholeDay.{event_of}

-- The stock ABC, of stock locate 7.
abbrev stock : List ℕ
stock = 65 ∷ 66 ∷ 67 ∷ 32 ∷ 32 ∷ 32 ∷ 32 ∷ 32 ∷ []

abbrev directory : List ℕ
directory =
    (82 ∷ 0 ∷ 7 ∷ 0 ∷ 0 ∷ 0 ∷ 0 ∷ 0 ∷ 0 ∷ 0 ∷ 0 ∷ [])
    ++ stock
    ++ (81 ∷ 78 ∷ 0 ∷ 0 ∷ 0 ∷ 100 ∷ 78 ∷ 67 ∷ 90 ∷ 32 ∷ 80 ∷ 78 ∷ 78 ∷ 49 ∷ 78 ∷ 0 ∷ 0 ∷ 0 ∷ 0 ∷ 78
        ∷ [])

-- Reference 1, to buy 500 at the price 100.
abbrev order : List ℕ
order =
    (65 ∷ 0 ∷ 7 ∷ 0 ∷ 0 ∷ 0 ∷ 0 ∷ 0 ∷ 0 ∷ 0 ∷ 9 ∷ 0 ∷ 0 ∷ 0 ∷ 0 ∷ 0 ∷ 0 ∷ 0 ∷ 1 ∷ 66 ∷ 0 ∷ 0 ∷ 1
      ∷ 244 ∷ [])
    ++ stock
    ++ (0 ∷ 0 ∷ 0 ∷ 100 ∷ [])

abbrev opening : ℕ → List ℕ
opening n =
    if n == 1
    then event_of 79
    else if n == 2
    then directory
    else if n == 3
    then event_of 83
    else order

opening-Octets : (n : ℕ) → Octets (opening n)
opening-Octets n =
    if_elim Octets (n == 1) (λ _. ground arith)
      (λ _.
        if_elim Octets (n == 2) (λ _. ground arith)
          (λ _. if_elim Octets (n == 3) (λ _. ground arith) (λ _. ground arith)))

-- The last two messages overtake the first two.
abbrev arrivals : List PacketView
arrivals =
    packet_view (header 3 2 ++ framed (opening 3) ++ framed (opening 4))
    ∷ packet_view (header 1 2 ++ framed (opening 1) ++ framed (opening 2))
    ∷ []

arrivals-Honest : All (Honest opening) arrivals
unfolding byte_at subspan read_be read_u16_be read_u64_be frames
arrivals-Honest = (
  record { carries = (ground arith, λ _. (refl, (refl, tt))) },
  (record { carries = (ground arith, λ _. (refl, (refl, tt))) }, tt),
)

process_packets-books_example :
    let d =
      process_packets
        (itch_handler managed_books)
        counter
        arrivals
        (new_decoder (new_parser initial_directory manager) 0 1) in
    ((n : ℕ) × (day_of d.parser ≡ run managed_books opening 1 (new_day initial_directory manager) n)
      × (is_terminal_decode_failure d.terminal_status ≡ false
          → 1 + n ≡ d.channel.next_expected_seq))
    × (level_at 7 OrderSide.buy 100 d.parser.books.prices
        ≡ books d.parser.books.orders 7 OrderSide.buy 100)
    × IsOpen (d.parser.books.books 7)
process_packets-books_example =
    process_packets-books config manager counter opening 1 initial_directory 0 arrivals
      (omega arith) created (omega arith) opening-Octets arrivals-Honest 7 OrderSide.buy refl 100
      (omega arith)
