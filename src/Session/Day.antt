-- ===== src/Session/Day.antt =====
-- The trading day of NASDAQ TotalView-ITCH 5.0, from the tables of its messages and phases: what one
-- message makes of the phase, of the directory and of the books, with no error reports and no message flags.
-- src/parser/ItchParser.cpp implements it, and Refinement follows its handlers.
pub mod Refinement
use astra_feed_engine.Prelude.{
  ℕ, zero, suc, ◌+◌, List, [], ◌∷◌, Bool, true, false, not, ◌&&◌, ◌||◌, none, some, ◌==◌, ltb,
  if◌then◌else◌, bytes_eq,
}
use astra_feed_engine.Wire.{
  byte_at, read_u16_be, read_u32_be, read_u48_be, read_u64_be, is_valid_itch_price4,
}
use astra_feed_engine.Channel.{ChannelPhase}
use astra_feed_engine.Symbols.{StockDirectory, is_registered, c_string, locate_for_ticker}
use astra_feed_engine.Symbols
use astra_feed_engine.Parser.State.{Books}
use astra_feed_engine.Parser.Orders.{wire_stock_matches}
use astra_feed_engine.Parser.Directory.{fixed_text, directory_entry}

pub record Day (B : Type 0) : Type 0 where
  pub phase : ChannelPhase
  pub symbols : StockDirectory
  pub is_prepared : Bool
  pub books : B

-- Before the first message.
abbrev pub new_day : {B : Type 0} → StockDirectory → B → Day B
new_day symbols books = record {
  phase = ChannelPhase.waiting_start_of_messages;
  symbols = symbols;
  is_prepared = false;
  books = books;
}

-- The fields that messages share.
abbrev pub locate_of : List ℕ → ℕ
locate_of msg = read_u16_be msg 1

abbrev pub time_of : List ℕ → ℕ
time_of msg = read_u48_be msg 5

abbrev pub reference_of : List ℕ → ℕ
reference_of msg = read_u64_be msg 11

-- Before the start only the start is taken, after the end nothing. Between the end of system hours and
-- the end of messages these are orders that leave, broken trades, and the end.
abbrev pub takes : ChannelPhase → ℕ → ℕ → Bool
takes ChannelPhase.waiting_start_of_messages type code = type == b'S' && code == b'O'
takes ChannelPhase.end_of_messages type code = false
takes ChannelPhase.post_system_hours type code =
    type == b'X' || type == b'D' || type == b'B' || type == b'S' && code == b'C'
takes _ type code = true

-- Where a system event leads; the events of the market's state lead nowhere.
abbrev pub start_of_messages : ChannelPhase → ChannelPhase
start_of_messages ChannelPhase.waiting_start_of_messages = ChannelPhase.startup_directory_spin
start_of_messages phase = phase

abbrev pub is_startup : ChannelPhase → Bool
is_startup ChannelPhase.startup_directory_spin = true
is_startup ChannelPhase.startup_admin_spin = true
is_startup _ = false

abbrev pub start_of_market : ChannelPhase → ChannelPhase
start_of_market ChannelPhase.system_hours = ChannelPhase.market_hours
start_of_market phase = phase

abbrev pub end_of_market : ChannelPhase → ChannelPhase
end_of_market ChannelPhase.market_hours = ChannelPhase.post_market_hours
end_of_market phase = phase

abbrev pub end_of_system : ChannelPhase → ChannelPhase
end_of_system ChannelPhase.post_market_hours = ChannelPhase.post_system_hours
end_of_system phase = phase

abbrev pub end_of_day : ChannelPhase → ChannelPhase
end_of_day ChannelPhase.post_system_hours = ChannelPhase.end_of_messages
end_of_day phase = phase

-- The first message about the market's set-up ends the directory.
abbrev pub end_of_directory : ChannelPhase → ChannelPhase
end_of_directory ChannelPhase.startup_directory_spin = ChannelPhase.startup_admin_spin
end_of_directory phase = phase

-- H, Y, L, V, W, K, J and h.
abbrev pub is_set_up : ℕ → Bool
is_set_up type =
    type == b'H'
    || type == b'Y'
    || type == b'L'
    || type == b'V'
    || type == b'W'
    || type == b'K'
    || type == b'J'
    || type == b'h'

module _ {B : Type 0} (manager : Books B) where
  -- The books of the registered stock locates from `slot` on, of the next `rounds`.
  unfoldable pub open_books : ℕ → ℕ → StockDirectory → B → B
  open_books zero slot symbols books = books
  open_books (suc rounds) slot symbols books =
      open_books rounds (slot + 1) symbols
        (if is_registered slot symbols then (manager.get_or_create slot books).1 else books)

  -- The first start of system hours opens the books of all registered stock locates.
  unfoldable pub start_of_system : Day B → Day B
  start_of_system day =
      let opened = open_books 65535 1 day.symbols day.books in
      if not (is_startup day.phase) then day else record {
        phase = ChannelPhase.system_hours;
        symbols = day.symbols;
        is_prepared = true;
        books = if day.is_prepared then day.books else opened;
      }

  unfoldable pub event : ℕ → Day B → Day B
  event code day =
      if code == b'O'
      then record day { phase = start_of_messages day.phase }
      else if code == b'S'
      then start_of_system day
      else if code == b'Q'
      then record day { phase = start_of_market day.phase }
      else if code == b'M'
      then record day { phase = end_of_market day.phase }
      else if code == b'E'
      then record day { phase = end_of_system day.phase }
      else if code == b'C' && manager.total_live_order_count day.books == 0
      then record day { phase = end_of_day day.phase }
      else day

  -- May the ticker of a directory message stand at its stock locate?
  unfoldable pub is_free : List ℕ → ℕ → StockDirectory → Bool
  is_free ticker locate symbols =
      not (bytes_eq ticker [])
      && not (locate == 0)
      && (elim (Symbols.get locate symbols) [
        | none ↦ true
        | some entry ↦ bytes_eq (c_string 9 entry.ticker) ticker
      ])
      && (locate_for_ticker ticker symbols == 0 || locate_for_ticker ticker symbols == locate)

  unfoldable pub list_symbol : List ℕ → Day B → Day B
  list_symbol msg day =
      let locate = locate_of msg in
      let (is_set, symbols) = Symbols.set locate (directory_entry msg) day.symbols in
      if not (is_free (fixed_text msg 11 8) locate day.symbols) then day else record day {
        symbols = symbols;
        books =
            if is_set && day.is_prepared && is_registered locate symbols
            then (manager.get_or_create locate day.books).1
            else day.books;
      }

  unfoldable pub add : List ℕ → Day B → Day B
  add msg day = elim (Symbols.get (locate_of msg) day.symbols) [
    | none ↦ day
    | some entry ↦ if not (wire_stock_matches entry msg 24) then day else record day {
      books =
          (manager.add_order (locate_of msg) (reference_of msg) (read_u32_be msg 32)
            (read_u32_be msg 20) (byte_at msg 19) (time_of msg) day.books).1;
    }
  ]

  unfoldable pub execute : List ℕ → Day B → Day B
  execute msg day = record day {
    books =
        (manager.execute_order (locate_of msg) (reference_of msg) (read_u32_be msg 19) (time_of msg)
          day.books).1;
  }

  unfoldable pub cancel : List ℕ → Day B → Day B
  cancel msg day = record day {
    books =
        (manager.cancel_shares (locate_of msg) (reference_of msg) (read_u32_be msg 19) (time_of msg)
          day.books).1;
  }

  unfoldable pub delete : List ℕ → Day B → Day B
  delete msg day = record day {
    books = (manager.delete_order (locate_of msg) (reference_of msg) (time_of msg) day.books).1;
  }

  unfoldable pub replace : List ℕ → Day B → Day B
  replace msg day = if read_u64_be msg 19 == reference_of msg then day else record day {
    books =
        (manager.replace_order (locate_of msg) (reference_of msg) (read_u64_be msg 19)
          (read_u32_be msg 31) (read_u32_be msg 27) (time_of msg) day.books).1;
  }

  -- A message that is taken. The other types, which are about trades and prices, leave the day alone.
  unfoldable pub apply : List ℕ → Day B → Day B
  apply msg day =
      let type = byte_at msg 0 in
      if type == b'A' || type == b'F'
      then add msg day
      else if type == b'E' || type == b'C' && is_valid_itch_price4 (read_u32_be msg 32)
      then execute msg day
      else if type == b'X'
      then cancel msg day
      else if type == b'D'
      then delete msg day
      else if type == b'U'
      then replace msg day
      else if type == b'R'
      then list_symbol msg day
      else if type == b'S'
      then event (byte_at msg 11) day
      else if is_set_up type
      then record day { phase = end_of_directory day.phase }
      else day

  -- One message: it is taken when its time is within a day, its phase takes its type, and, for a system
  -- event, its stock locate is 0.
  unfoldable pub step : List ℕ → Day B → Day B
  step [] day = day
  step (c ∷ cs) day =
      let msg = c ∷ cs in
      let type = byte_at msg 0 in
      if ltb (time_of msg) 86400000000000
        && (not (type == b'S') || locate_of msg == 0)
        && takes day.phase type (byte_at msg 11)
      then apply msg day
      else day

  -- The first n messages of a stream.
  unfoldable pub run : (ℕ → List ℕ) → ℕ → Day B → ℕ → Day B
  run stream first day zero = day
  run stream first day (suc n) = step (stream (first + n)) (run stream first day n)
