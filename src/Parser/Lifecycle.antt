-- ===== src/Parser/Lifecycle.antt =====
-- src/parser/ItchParser.cpp: how a message moves the daily phase.
use astra_feed_engine.Prelude.{
  ℕ, zero, suc, ◌+◌, ◌≡◌, ◌⊎◌, inl, refl, ◌∙◌, List, [], ◌∷◌, Bool, true, false, ◌&&◌, none,
  if◌then◌else◌, arith, if_elim,
}
use astra_feed_engine.Wire.{byte_at, read_u16_be}
use astra_feed_engine.Channel.{ChannelPhase}
use astra_feed_engine.Symbols.{is_registered}
use astra_feed_engine.Parser.State.{Books, ItchParser, fail, skip, apply_book_result}
use astra_feed_engine.Parser.Phase.{
  is_allowed, advance_phase, mark_startup_admin_message, create_registered_book, create_books_loop,
  create_registered_books, handle_system_hours_start, system_event, handle_system_event,
}
use astra_feed_engine.Parser.Orders.{
  handle_add, apply_execution, handle_order_executed, handle_order_executed_with_price,
  handle_cancel, handle_delete, handle_replace, handle_broken_trade,
}
use astra_feed_engine.Parser.Directory.{
  register_directory_entry, start_directory, handle_stock_directory,
}
use astra_feed_engine.Parser.Dispatch.{
  is_waiting, is_admin_type, dispatch_type, dispatch_message, handle_message,
  handle_prevalidated_message,
}

-- Parts of the parser that a book message leaves alone.
pub record SameDay {B : Type 0} (p q : ItchParser B) : Type 0 where
  pub phase : q.channel_phase ≡ p.channel_phase
  pub prepared : q.books_prepared ≡ p.books_prepared
  pub symbols : q.symbols ≡ p.symbols

module _ {B : Type 0} (manager : Books B) where
  handle_add-SameDay :
      (msg : List ℕ) (locate : ℕ) (p : ItchParser B) → SameDay p (handle_add manager msg locate p)
  unfolding handle_add fail apply_book_result
  handle_add-SameDay msg locate p = ground arith

  apply_execution-SameDay :
      (msg : List ℕ) (locate : ℕ) (p : ItchParser B)
      → SameDay p (apply_execution manager msg locate p)
  unfolding apply_execution apply_book_result
  apply_execution-SameDay msg locate p = ground arith

  handle_order_executed_with_price-SameDay :
      (msg : List ℕ) (locate : ℕ) (p : ItchParser B)
      → SameDay p (handle_order_executed_with_price manager msg locate p)
  unfolding handle_order_executed_with_price fail
  handle_order_executed_with_price-SameDay msg locate p =
      ground (arith, apply_execution-SameDay msg locate p)

  handle_cancel-SameDay :
      (msg : List ℕ) (locate : ℕ) (p : ItchParser B)
      → SameDay p (handle_cancel manager msg locate p)
  unfolding handle_cancel apply_book_result
  handle_cancel-SameDay msg locate p = ground arith

  handle_delete-SameDay :
      (msg : List ℕ) (locate : ℕ) (p : ItchParser B)
      → SameDay p (handle_delete manager msg locate p)
  unfolding handle_delete apply_book_result
  handle_delete-SameDay msg locate p = ground arith

  handle_replace-SameDay :
      (msg : List ℕ) (locate : ℕ) (p : ItchParser B)
      → SameDay p (handle_replace manager msg locate p)
  unfolding handle_replace fail apply_book_result
  handle_replace-SameDay msg locate p = ground arith

  create_registered_book-SameDay :
      (locate : ℕ) (p : ItchParser B) → SameDay p (create_registered_book manager locate p).1
  unfolding create_registered_book
  create_registered_book-SameDay locate p = ground arith

  create_books_loop-SameDay :
      (rounds slot : ℕ) (success : Bool) (p q : ItchParser B)
      → SameDay p q
      → SameDay p (create_books_loop manager rounds slot success q).1
  unfolding create_books_loop
  create_books_loop-SameDay zero slot success p q h = h
  create_books_loop-SameDay (suc rounds) slot success p q h =
      let made = create_registered_book manager slot q in
      let s = create_registered_book-SameDay slot q in
      let registered = is_registered slot q.symbols in
      create_books_loop-SameDay rounds (slot + 1)
        (if registered then made.0 && success else success) p (if registered then made.1 else q)
        (if_elim (SameDay p) registered
          (λ _. record {
            phase = s.phase ∙ h.phase;
            prepared = s.prepared ∙ h.prepared;
            symbols = s.symbols ∙ h.symbols;
          })
          λ _. h)

  create_registered_books-SameDay :
      (p : ItchParser B) → SameDay p (create_registered_books manager p).1
  unfolding create_registered_books
  create_registered_books-SameDay p =
      create_books_loop-SameDay _ 1 true p p
        (record { phase = refl; prepared = refl; symbols = refl })

-- The table of the day: which message moves which phase to which.
abbrev pub Lifecycle : ℕ → ℕ → ChannelPhase → ChannelPhase → Type 0
Lifecycle type code cur next =
    (next ≡ cur)
    ⊎ ((type ≡ b'S')
        × (code ≡ b'O')
        × (cur ≡ ChannelPhase.waiting_start_of_messages)
        × (next ≡ ChannelPhase.startup_directory_spin))
    ⊎ ((is_admin_type type ≡ true)
        × (cur ≡ ChannelPhase.startup_directory_spin)
        × (next ≡ ChannelPhase.startup_admin_spin))
    ⊎ ((type ≡ b'S')
        × (code ≡ b'S')
        × ((cur ≡ ChannelPhase.startup_directory_spin) ⊎ (cur ≡ ChannelPhase.startup_admin_spin))
        × (next ≡ ChannelPhase.system_hours))
    ⊎ ((type ≡ b'S')
        × (code ≡ b'Q')
        × (cur ≡ ChannelPhase.system_hours)
        × (next ≡ ChannelPhase.market_hours))
    ⊎ ((type ≡ b'S')
        × (code ≡ b'M')
        × (cur ≡ ChannelPhase.market_hours)
        × (next ≡ ChannelPhase.post_market_hours))
    ⊎ ((type ≡ b'S')
        × (code ≡ b'E')
        × (cur ≡ ChannelPhase.post_market_hours)
        × (next ≡ ChannelPhase.post_system_hours))
    ⊎ ((type ≡ b'S')
        × (code ≡ b'C')
        × (cur ≡ ChannelPhase.post_system_hours)
        × (next ≡ ChannelPhase.end_of_messages))

module _ {B : Type 0} (manager : Books B) where
  pub handle_system_hours_start_phase :
      (p : ItchParser B)
      → Lifecycle b'S' b'S' p.channel_phase (handle_system_hours_start manager p).channel_phase
  unfolding handle_system_hours_start advance_phase is_allowed fail
  handle_system_hours_start_phase p = ground (
    arith,
    create_registered_books-SameDay manager
        (record ((advance_phase ChannelPhase.system_hours p).1) { books_prepared = true }),
  )

  system_event-Lifecycle :
      (code : ℕ) (p : ItchParser B)
      → Lifecycle b'S' code p.channel_phase (system_event manager code p).channel_phase
  unfolding system_event advance_phase is_allowed fail
  system_event-Lifecycle code p = ground (arith, handle_system_hours_start_phase p)

  mark_startup_admin_message-Lifecycle :
      (type code : ℕ) (p : ItchParser B)
      → is_admin_type type ≡ true
      → Lifecycle type code p.channel_phase (mark_startup_admin_message p).channel_phase
  unfolding mark_startup_admin_message
  mark_startup_admin_message-Lifecycle type code p h = ground arith

  register_directory_entry_phase :
      (msg : List ℕ) (p : ItchParser B)
      → (register_directory_entry manager msg p).channel_phase ≡ p.channel_phase
  unfolding register_directory_entry create_registered_book fail
  register_directory_entry_phase msg p = ground arith

  handle_stock_directory_phase :
      (msg : List ℕ) (p : ItchParser B)
      → is_waiting p.channel_phase ≡ false
      → (handle_stock_directory manager msg p).channel_phase ≡ p.channel_phase
  unfolding handle_stock_directory start_directory fail
  handle_stock_directory_phase msg p h =
      ground (arith, register_directory_entry_phase msg (start_directory p))

  pub dispatch_type-Lifecycle :
      (type : ℕ) (msg : List ℕ) (p : ItchParser B)
      → is_waiting p.channel_phase ≡ false ⊎ (type ≡ b'S')
      → Lifecycle type
          (byte_at msg 11)
          p.channel_phase
          (dispatch_type manager type msg p).1.channel_phase
  unfolding dispatch_type handle_order_executed handle_broken_trade handle_system_event skip
  dispatch_type-Lifecycle type msg p h =
      let locate = read_u16_be msg 1 in
      ground (
        arith,
        handle_add-SameDay manager msg locate p,
        apply_execution-SameDay manager msg locate p,
        handle_order_executed_with_price-SameDay manager msg locate p,
        handle_cancel-SameDay manager msg locate p,
        handle_delete-SameDay manager msg locate p,
        handle_replace-SameDay manager msg locate p,
        handle_stock_directory_phase msg p,
        system_event-Lifecycle (byte_at msg 11) p,
        mark_startup_admin_message-Lifecycle type (byte_at msg 11) p,
      )

  pub dispatch_message-Lifecycle :
      (msg : List ℕ) (p : ItchParser B)
      → Lifecycle
          (byte_at msg 0)
          (byte_at msg 11)
          p.channel_phase
          (dispatch_message manager msg p).1.channel_phase
  unfolding dispatch_message fail
  dispatch_message-Lifecycle msg p = ground (arith, dispatch_type-Lifecycle (byte_at msg 0) msg p)

  -- Whatever the books answer, a message moves the phase of the day only as the table says: by the
  -- system event of the next phase, or by the first administrative message of the startup. This holds
  -- of both entry points, that of handleMessage and that of the decoder.
  pub handle_message-Lifecycle :
      (msg : List ℕ) (p : ItchParser B)
      → Lifecycle
          (byte_at msg 0)
          (byte_at msg 11)
          p.channel_phase
          (handle_message manager msg p).1.channel_phase
        × Lifecycle
            (byte_at msg 0)
            (byte_at msg 11)
            p.channel_phase
            (handle_prevalidated_message manager msg p).1.channel_phase
  unfolding handle_message handle_prevalidated_message fail
  handle_message-Lifecycle [] p = (inl refl, inl refl)
  handle_message-Lifecycle (c ∷ cs) p =
      let h =
        dispatch_message-Lifecycle (c ∷ cs)
          (record p { last_error = none; last_message_skipped = false }) in
      (ground (arith, h), h)
