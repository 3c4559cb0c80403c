-- ===== src/Parser/Phase.antt =====
-- src/parser/ItchParser.cpp: the daily lifecycle, advancePhase and the System Event message.
use astra_feed_engine.Prelude.{
  ℕ, zero, suc, ◌+◌, List, Bool, true, false, not, ◌&&◌, ◌||◌, ◌==◌, if◌then◌else◌,
}
use astra_feed_engine.Wire.{byte_at}
use astra_feed_engine.Channel.{ChannelPhase}
use astra_feed_engine.Symbols.{is_valid_stock_locate, is_registered}
use astra_feed_engine.Parser.State.{ParseError, Books, ItchParser, fail}

-- The switch of advancePhase: may `next` follow the current phase?
unfoldable pub is_allowed : ChannelPhase → ChannelPhase → Bool
is_allowed ChannelPhase.startup_directory_spin ChannelPhase.waiting_start_of_messages = true
is_allowed ChannelPhase.system_hours ChannelPhase.startup_directory_spin = true
is_allowed ChannelPhase.system_hours ChannelPhase.startup_admin_spin = true
is_allowed ChannelPhase.market_hours ChannelPhase.system_hours = true
is_allowed ChannelPhase.post_market_hours ChannelPhase.market_hours = true
is_allowed ChannelPhase.post_system_hours ChannelPhase.post_market_hours = true
is_allowed ChannelPhase.end_of_messages ChannelPhase.post_system_hours = true
is_allowed _ _ = false

module _ {B : Type 0} where
  unfoldable pub advance_phase : ChannelPhase → ItchParser B → Bool × ItchParser B
  advance_phase next p =
      if is_allowed next p.channel_phase
      then (true, record p { channel_phase = next })
      else (false, fail ParseError.out_of_order_system_event p)

  -- markStartupAdminMessage
  unfoldable pub mark_startup_admin_message : ItchParser B → ItchParser B
  mark_startup_admin_message p = elim p.channel_phase [
    | ChannelPhase.startup_directory_spin ↦ record p {
      channel_phase = ChannelPhase.startup_admin_spin;
    }
    | _ ↦ p
  ]

module _ {B : Type 0} (manager : Books B) where
  unfoldable pub create_registered_book : ℕ → ItchParser B → Bool × ItchParser B
  create_registered_book locate p =
      let (created, books) = manager.get_or_create locate p.books in
      if not (is_valid_stock_locate locate) || not (is_registered locate p.symbols)
      then (false, p)
      else (created, record p { books = books })

  -- The loop of createRegisteredBooks from `slot` on, with `success` so far.
  unfoldable pub create_books_loop : ℕ → ℕ → Bool → ItchParser B → Bool × ItchParser B
  create_books_loop zero slot success p = (success, p)
  create_books_loop (suc rounds) slot success p =
      let (created, q) = create_registered_book slot p in
      let registered = is_registered slot p.symbols in
      create_books_loop rounds (slot + 1) (if registered then created && success else success)
        (if registered then q else p)

  unfoldable pub create_registered_books : ItchParser B → Bool × ItchParser B
  create_registered_books p = create_books_loop 65535 1 true p

  unfoldable pub handle_system_hours_start : ItchParser B → ItchParser B
  handle_system_hours_start p =
      let (advanced, q) = advance_phase ChannelPhase.system_hours p in
      let (created, r) = create_registered_books (record q { books_prepared = true }) in
      if not advanced
      then q
      else if q.books_prepared
      then q
      else if not created
      then fail ParseError.unable_to_prepare_registered_books r
      else r

  -- The switch of handleSystemEvent, on the event code.
  unfoldable pub system_event : ℕ → ItchParser B → ItchParser B
  system_event event_code p =
      if event_code == b'O'
      then (advance_phase ChannelPhase.startup_directory_spin p).1
      else if event_code == b'S'
      then handle_system_hours_start p
      else if event_code == b'Q'
      then (advance_phase ChannelPhase.market_hours p).1
      else if event_code == b'M'
      then (advance_phase ChannelPhase.post_market_hours p).1
      else if event_code == b'E'
      then (advance_phase ChannelPhase.post_system_hours p).1
      else if event_code == b'C'
      then if not (manager.total_live_order_count p.books == 0)
        then fail ParseError.end_of_messages_with_live_orders p
        else (advance_phase ChannelPhase.end_of_messages p).1
      else if event_code == b'A' || event_code == b'R' || event_code == b'B'
      then p
      else fail ParseError.unsupported_system_event p

  unfoldable pub handle_system_event : List ℕ → ItchParser B → ItchParser B
  handle_system_event msg p = system_event (byte_at msg 11) p
