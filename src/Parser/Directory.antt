-- ===== src/Parser/Directory.antt =====
-- src/parser/ItchParser.cpp: the Stock Directory message.
use astra_feed_engine.Prelude.{
  ℕ, zero, suc, List, [], Bool, false, not, ◌&&◌, ◌||◌, none, some, ◌==◌, if◌then◌else◌, bytes_eq,
  take,
}
use astra_feed_engine.Wire.{byte_at, subspan, read_u16_be, read_u32_be}
use astra_feed_engine.Channel.{ChannelPhase}
use astra_feed_engine.Symbols.{
  StockDirectoryEntry, c_string, is_valid_stock_locate, locate_for_ticker,
}
use astra_feed_engine.Symbols
use astra_feed_engine.Parser.State.{ParseError, Books, ItchParser, fail}
use astra_feed_engine.Parser.Phase.{create_registered_book}

-- The length that fixedText leaves of a field's first `n` bytes.
unfoldable pub trimmed_length : ℕ → List ℕ → ℕ
trimmed_length zero field = 0
trimmed_length (suc n) field =
    let rest = trimmed_length n field in
    if byte_at field n == b' ' || byte_at field n == 0 then rest else suc n

unfoldable pub fixed_text : List ℕ → ℕ → ℕ → List ℕ
fixed_text msg off len = let field = subspan msg off len in take (trimmed_length len field) field

unfoldable pub directory_entry : List ℕ → StockDirectoryEntry
directory_entry msg = record {
  round_lot_size = read_u32_be msg 21;
  locate = read_u16_be msg 1;
  ticker = fixed_text msg 11 8;
  market_category = byte_at msg 19;
  fin_status = byte_at msg 20;
  is_test = byte_at msg 29 == b'T';
  round_lots_only = byte_at msg 25 == b'Y';
  issue_classification = byte_at msg 26;
}

-- Is the locate registered under a text other than `sym`?
unfoldable pub ticker_conflicts : ℕ → List ℕ → Symbols.StockDirectory → Bool
ticker_conflicts locate sym symbols = elim (Symbols.get locate symbols) [
  | none ↦ false
  | some existing ↦ not (bytes_eq (c_string 9 existing.ticker) sym)
]

unfoldable pub start_directory : {B : Type 0} → ItchParser B → ItchParser B
start_directory p = elim p.channel_phase [
  | ChannelPhase.waiting_start_of_messages ↦ record p {
    channel_phase = ChannelPhase.startup_directory_spin;
  }
  | _ ↦ p
]

module _ {B : Type 0} (manager : Books B) where
  -- The end of handleStockDirectory: the identity is checked.
  unfoldable pub register_directory_entry : List ℕ → ItchParser B → ItchParser B
  register_directory_entry msg p =
      let locate = read_u16_be msg 1 in
      let (registered, symbols) = Symbols.set locate (directory_entry msg) p.symbols in
      let q = record p { symbols = symbols } in
      let (created, r) = create_registered_book manager locate q in
      if not registered
      then fail ParseError.unable_to_register q
      else if not q.books_prepared
      then q
      else if not created
      then fail ParseError.unable_to_prepare_directory_book r
      else r

  unfoldable pub handle_stock_directory : List ℕ → ItchParser B → ItchParser B
  handle_stock_directory msg p =
      let locate = read_u16_be msg 1 in
      let sym = fixed_text msg 11 8 in
      let existing_locate = locate_for_ticker sym p.symbols in
      if bytes_eq sym [] || not (is_valid_stock_locate locate)
      then fail ParseError.invalid_directory_identity p
      else if ticker_conflicts locate sym p.symbols
      then fail ParseError.conflicting_ticker p
      else if not (existing_locate == 0) && not (existing_locate == locate)
      then fail ParseError.ticker_already_registered p
      else register_directory_entry msg (start_directory p)
