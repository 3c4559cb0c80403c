-- ===== src/Parser/Dispatch.antt =====
-- src/parser/ItchParser.cpp: handleMessage, handlePrevalidatedMessage and dispatchMessage. The result
-- tells whether the message produced a book update.
use astra_feed_engine.Prelude.{
  ℕ, List, [], ◌∷◌, Bool, true, false, not, ◌&&◌, ◌||◌, none, some, ◌==◌, leb, if◌then◌else◌,
  length,
}
use astra_feed_engine.Wire.{byte_at, read_u16_be, read_u48_be, expected_itch_message_length}
use astra_feed_engine.Channel.{ChannelPhase, is_end_of_messages}
use astra_feed_engine.Decoder.State.{MessageHandler}
use astra_feed_engine.Parser.State.{ParseError, Books, ItchParser, fail, skip}
use astra_feed_engine.Parser.Phase.{handle_system_event, mark_startup_admin_message}
use astra_feed_engine.Parser.Orders.{
  handle_add, handle_order_executed, handle_order_executed_with_price, handle_cancel, handle_delete,
  handle_replace, handle_broken_trade,
}
use astra_feed_engine.Parser.Directory.{handle_stock_directory}

abbrev pub nanoseconds_per_day : ℕ
nanoseconds_per_day = 86400000000000

abbrev pub is_waiting : ChannelPhase → Bool
is_waiting ChannelPhase.waiting_start_of_messages = true
is_waiting _ = false

abbrev pub is_post_system_hours : ChannelPhase → Bool
is_post_system_hours ChannelPhase.post_system_hours = true
is_post_system_hours _ = false

-- H, Y, L, V, W, K, J and h.
abbrev pub is_admin_type : ℕ → Bool
is_admin_type type =
    type == b'H'
    || type == b'Y'
    || type == b'L'
    || type == b'V'
    || type == b'W'
    || type == b'K'
    || type == b'J'
    || type == b'h'

module _ {B : Type 0} (manager : Books B) where
  -- A book-relevant message returns !last_message_skipped_.
  abbrev pub book_update : ItchParser B → Bool × ItchParser B
  book_update p = (not p.last_message_skipped, p)

  -- The switch of dispatchMessage.
  unfoldable pub dispatch_type : ℕ → List ℕ → ItchParser B → Bool × ItchParser B
  dispatch_type type msg p =
      let locate = read_u16_be msg 1 in
      if type == b'A' || type == b'F'
      then book_update (handle_add manager msg locate p)
      else if type == b'E'
      then book_update (handle_order_executed manager msg locate p)
      else if type == b'C'
      then book_update (handle_order_executed_with_price manager msg locate p)
      else if type == b'X'
      then book_update (handle_cancel manager msg locate p)
      else if type == b'D'
      then book_update (handle_delete manager msg locate p)
      else if type == b'U'
      then book_update (handle_replace manager msg locate p)
      else if type == b'B'
      then book_update (handle_broken_trade manager msg locate p)
      else if type == b'R'
      then (false, handle_stock_directory manager msg p)
      else if type == b'S'
      then (false, handle_system_event manager msg p)
      else if is_admin_type type
      then (false, mark_startup_admin_message p)
      else (false, skip p)

  unfoldable pub dispatch_message : List ℕ → ItchParser B → Bool × ItchParser B
  dispatch_message msg p =
      let type = byte_at msg 0 in
      let event_code = if type == b'S' then byte_at msg 11 else 0 in
      if leb nanoseconds_per_day (read_u48_be msg 5)
      then (false, fail ParseError.timestamp_outside_trading_day p)
      else if type == b'S' && not (read_u16_be msg 1 == 0)
      then (false, fail ParseError.system_event_locate_not_zero p)
      else if is_waiting p.channel_phase && (not (type == b'S') || not (event_code == b'O'))
      then (false, fail ParseError.first_message_not_start p)
      else if is_end_of_messages p.channel_phase
      then (false, fail ParseError.message_after_end_of_messages p)
      else if is_post_system_hours p.channel_phase
          && not (type == b'X')
          && not (type == b'D')
          && not (type == b'B')
          && not (type == b'S' && event_code == b'C')
      then (false, fail ParseError.message_after_system_hours p)
      else dispatch_type type msg p

  -- last_error_.clear(); last_message_skipped_ = false;
  abbrev pub begin_message : ItchParser B → ItchParser B
  begin_message p = record p { last_error = none; last_message_skipped = false }

  unfoldable pub handle_message : List ℕ → ItchParser B → Bool × ItchParser B
  handle_message [] p = (false, fail ParseError.empty_message (begin_message p))
  handle_message (c ∷ cs) p =
      let expected_length = expected_itch_message_length c in
      if expected_length == 0
      then (false, fail ParseError.unsupported_message_type (begin_message p))
      else if not (length (c ∷ cs) == expected_length)
      then (false, fail ParseError.invalid_message_length (begin_message p))
      else dispatch_message (c ∷ cs) (begin_message p)

  unfoldable pub handle_prevalidated_message : List ℕ → ItchParser B → Bool × ItchParser B
  handle_prevalidated_message [] p =
      (false, fail ParseError.empty_prevalidated_message (begin_message p))
  handle_prevalidated_message (c ∷ cs) p = dispatch_message (c ∷ cs) (begin_message p)

abbrev pub has_error : {B : Type 0} → ItchParser B → Bool
has_error p = elim p.last_error [ none ↦ false | some _ ↦ true ]

-- The parser as the decoder uses it.
unfoldable pub itch_handler : {B : Type 0} → Books B → MessageHandler (ItchParser B)
itch_handler manager = record {
  handle = λ p msg. (handle_prevalidated_message manager msg p).1;
  channel_phase = λ p. p.channel_phase;
  failed = λ p. has_error p;
}
