-- ===== src/Parser/Closed.antt =====
-- src/parser/ItchParser.cpp: when a message can reach the books, and what the end of messages means.
use astra_feed_engine.Prelude.{
  ℕ, ◌≡◌, ◌≢◌, ◌⊎◌, inl, inr, refl, List, [], ◌∷◌, true, false, ◌==◌, arith, Bool-cases,
}
use astra_feed_engine.Wire.{byte_at}
use astra_feed_engine.Channel.{ChannelPhase, is_end_of_messages}
use astra_feed_engine.Symbols.{StockDirectory}
use astra_feed_engine.Parser.State.{Books, ItchParser, new_parser, fail, skip}
use astra_feed_engine.Parser.Phase.{
  is_allowed, advance_phase, mark_startup_admin_message, handle_system_hours_start, system_event,
  handle_system_event,
}
use astra_feed_engine.Parser.Orders.{handle_broken_trade}
use astra_feed_engine.Parser.Dispatch.{
  is_waiting, is_post_system_hours, dispatch_type, dispatch_message, handle_prevalidated_message,
}
use astra_feed_engine.Parser.Lifecycle.{dispatch_type-Lifecycle, handle_system_hours_start_phase}

-- The messages that may reach the books, by phase.
abbrev pub IsOpen : ℕ → ChannelPhase → Type 0
IsOpen type phase =
    (phase ≢ ChannelPhase.waiting_start_of_messages)
    × (phase ≢ ChannelPhase.end_of_messages)
    × (phase ≢ ChannelPhase.post_system_hours ⊎ (type ≡ b'X') ⊎ (type ≡ b'D'))

module _ {B : Type 0} (manager : Books B) where
  handle_system_hours_start_books :
      (p : ItchParser B)
      → ((handle_system_hours_start manager p).books ≡ p.books)
        ⊎ (is_allowed ChannelPhase.system_hours p.channel_phase ≡ true)
  unfolding handle_system_hours_start advance_phase fail
  handle_system_hours_start_books p = ground arith

  system_event_books :
      (code : ℕ) (p : ItchParser B)
      → ((system_event manager code p).books ≡ p.books)
        ⊎ (is_allowed ChannelPhase.system_hours p.channel_phase ≡ true)
  unfolding system_event advance_phase fail
  system_event_books code p = ground (arith, handle_system_hours_start_books p)

  dispatch_type_books :
      (type : ℕ) (msg : List ℕ) (p : ItchParser B)
      → is_end_of_messages p.channel_phase ≡ false
      → (is_waiting p.channel_phase ≡ false) ⊎ (type ≡ b'S')
      → (is_post_system_hours p.channel_phase ≡ false)
        ⊎ (type ≡ b'X')
        ⊎ (type ≡ b'D')
        ⊎ (type ≡ b'B')
        ⊎ (type ≡ b'S')
      → ((dispatch_type manager type msg p).1.books ≡ p.books) ⊎ IsOpen type p.channel_phase
  unfolding dispatch_type handle_system_event handle_broken_trade skip mark_startup_admin_message
      is_allowed
  dispatch_type_books type msg p e w c = ground (arith, system_event_books (byte_at msg 11) p)

  dispatch_message_books :
      (msg : List ℕ) (p : ItchParser B)
      → ((dispatch_message manager msg p).1.books ≡ p.books)
        ⊎ IsOpen (byte_at msg 0) p.channel_phase
  unfolding dispatch_message fail
  dispatch_message_books msg p = ground (arith, dispatch_type_books (byte_at msg 0) msg p)

  -- The books are closed before the start of messages and after their end, and between the end of
  -- system hours and the end of messages only a cancel or a delete reaches them: any other message
  -- leaves the books as they are.
  pub handle_prevalidated_message_books :
      (msg : List ℕ) (p : ItchParser B)
      → ((handle_prevalidated_message manager msg p).1.books ≡ p.books)
        ⊎ IsOpen (byte_at msg 0) p.channel_phase
  unfolding handle_prevalidated_message fail
  handle_prevalidated_message_books [] p = inl refl
  handle_prevalidated_message_books (c ∷ cs) p = dispatch_message_books (c ∷ cs) _

  -- With the day at its end, no order is live.
  pub record IsSettled (p : ItchParser B) : Type 0 where
    pub settled :
        p.channel_phase ≡ ChannelPhase.end_of_messages → manager.total_live_order_count p.books ≡ 0

  handle_system_hours_start-IsSettled :
      (p : ItchParser B)
      → p.channel_phase ≢ ChannelPhase.end_of_messages
      → (handle_system_hours_start manager p).channel_phase ≢ ChannelPhase.end_of_messages
  handle_system_hours_start-IsSettled p n =
      ground (arith, handle_system_hours_start_phase manager p)

  system_event-IsSettled :
      (code : ℕ) (p : ItchParser B)
      → p.channel_phase ≢ ChannelPhase.end_of_messages
      → IsSettled (system_event manager code p)
  unfolding system_event advance_phase fail
  system_event-IsSettled code p n = ground (arith, handle_system_hours_start-IsSettled p)

  dispatch_type-IsSettled :
      (type : ℕ) (msg : List ℕ) (p : ItchParser B)
      → p.channel_phase ≢ ChannelPhase.end_of_messages
      → (is_waiting p.channel_phase ≡ false) ⊎ (type ≡ b'S')
      → IsSettled (dispatch_type manager type msg p).1
  unfolding dispatch_type handle_system_event
  dispatch_type-IsSettled type msg p n w = elim (Bool-cases (type == b'S')) [
    | inl s ↦ ground (arith, (system_event-IsSettled (byte_at msg 11) p n).settled)
    | inr other ↦
        let quiet : (dispatch_type manager type msg p).1.channel_phase
            ≢ ChannelPhase.end_of_messages =
          ground (arith, dispatch_type-Lifecycle manager type msg p w) in
        record { settled = λ e. absurd (quiet e) }
  ]

  dispatch_message-IsSettled :
      (msg : List ℕ) (p : ItchParser B) → IsSettled p → IsSettled (dispatch_message manager msg p).1
  unfolding dispatch_message fail
  dispatch_message-IsSettled msg p h =
      let typed : p.channel_phase ≢ ChannelPhase.end_of_messages
          → (is_waiting p.channel_phase ≡ false) ⊎ (byte_at msg 0 ≡ b'S')
          → (dispatch_type manager (byte_at msg 0) msg p).1.channel_phase
            ≡ ChannelPhase.end_of_messages
          → manager.total_live_order_count (dispatch_type manager (byte_at msg 0) msg p).1.books
            ≡ 0 =
        λ n w. (dispatch_type-IsSettled (byte_at msg 0) msg p n w).settled in
      ground (arith, h.settled, typed)

  pub handle_prevalidated_message-IsSettled :
      (msg : List ℕ) (p : ItchParser B)
      → IsSettled p
      → IsSettled (handle_prevalidated_message manager msg p).1
  unfolding handle_prevalidated_message fail
  handle_prevalidated_message-IsSettled [] p h = record { settled = h.settled }
  handle_prevalidated_message-IsSettled (c ∷ cs) p h =
      dispatch_message-IsSettled (c ∷ cs) _ (record { settled = h.settled })

  pub new_parser-IsSettled :
      (symbols : StockDirectory) (books : B) → IsSettled (new_parser symbols books)
  unfolding new_parser
  new_parser-IsSettled symbols books = record { settled = λ e. ground arith }
