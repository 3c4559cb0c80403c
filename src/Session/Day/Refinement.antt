-- ===== src/Session/Day/Refinement.antt =====
-- src/parser/ItchParser.cpp: every message makes of the parser's day what Session/Day says.
use astra_feed_engine.Prelude.{
  ℕ, zero, suc, ◌+◌, ◌≡◌, refl, ◌∙◌, ap, List, [], ◌∷◌, Bool, true, false, not, ◌&&◌, ◌==◌, arith,
  if◌then◌else◌,
}
use astra_feed_engine.Wire.{byte_at}
use astra_feed_engine.Channel.{ChannelPhase}
use astra_feed_engine.Symbols.{is_registered}
use astra_feed_engine.Book.{MutationResult}
use astra_feed_engine.Parser.State.{BookOperation, Books, ItchParser, fail, skip, apply_book_result}
use astra_feed_engine.Parser.Phase.{
  is_allowed, advance_phase, mark_startup_admin_message, create_registered_book, create_books_loop,
  create_registered_books, handle_system_hours_start, system_event, handle_system_event,
}
use astra_feed_engine.Parser.Orders.{
  handle_add, apply_execution, handle_order_executed, handle_order_executed_with_price,
  handle_cancel, handle_delete, handle_replace, handle_broken_trade,
}
use astra_feed_engine.Parser.Directory.{
  ticker_conflicts, start_directory, register_directory_entry, handle_stock_directory,
}
use astra_feed_engine.Parser.Dispatch.{
  is_waiting, dispatch_type, dispatch_message, handle_prevalidated_message, begin_message,
}
use astra_feed_engine.Session.Day.{
  Day, locate_of, end_of_directory, open_books, start_of_system, event, is_free, list_symbol, add,
  execute, cancel, delete, replace, apply, step,
}

-- The day of a parser.
abbrev pub day_of : {B : Type 0} → ItchParser B → Day B
day_of p = record {
  phase = p.channel_phase;
  symbols = p.symbols;
  is_prepared = p.books_prepared;
  books = p.books;
}

apply_book_result-day :
    {B : Type 0} (operation : BookOperation) (x : MutationResult × B) (p : ItchParser B)
    → day_of (apply_book_result operation x p) ≡ record (day_of p) { books = x.1 }
unfolding apply_book_result
apply_book_result-day operation (result, b) p = ground arith

module _ {B : Type 0} (manager : Books B) where
  handle_add-day :
      (msg : List ℕ) (p : ItchParser B)
      → day_of (handle_add manager msg (locate_of msg) p) ≡ add manager msg (day_of p)
  unfolding handle_add fail add apply_book_result
  handle_add-day msg p = ground arith

  apply_execution-day :
      (msg : List ℕ) (p : ItchParser B)
      → day_of (apply_execution manager msg (locate_of msg) p) ≡ execute manager msg (day_of p)
  unfolding apply_execution execute
  apply_execution-day msg p = apply_book_result-day _ _ p

  handle_cancel-day :
      (msg : List ℕ) (p : ItchParser B)
      → day_of (handle_cancel manager msg (locate_of msg) p) ≡ cancel manager msg (day_of p)
  unfolding handle_cancel cancel
  handle_cancel-day msg p = apply_book_result-day _ _ p

  handle_delete-day :
      (msg : List ℕ) (p : ItchParser B)
      → day_of (handle_delete manager msg (locate_of msg) p) ≡ delete manager msg (day_of p)
  unfolding handle_delete delete
  handle_delete-day msg p = apply_book_result-day _ _ p

  handle_replace-day :
      (msg : List ℕ) (p : ItchParser B)
      → day_of (handle_replace manager msg (locate_of msg) p) ≡ replace manager msg (day_of p)
  unfolding handle_replace fail replace apply_book_result
  handle_replace-day msg p = ground arith

  created-day :
      (slot : ℕ) (p : ItchParser B)
      → day_of
          (if is_registered slot p.symbols then (create_registered_book manager slot p).1 else p)
        ≡ record (day_of p) {
          books =
              if is_registered slot p.symbols
              then (manager.get_or_create slot p.books).1
              else p.books;
        }
  unfolding create_registered_book is_registered
  created-day slot p = ground arith

  create_books_loop-day :
      (rounds slot : ℕ) (success : Bool) (p : ItchParser B)
      → day_of (create_books_loop manager rounds slot success p).1
        ≡ record (day_of p) { books = open_books manager rounds slot p.symbols p.books }
  unfolding create_books_loop open_books
  create_books_loop-day zero slot success p = refl
  create_books_loop-day (suc rounds) slot success p =
      let (created, q) = create_registered_book manager slot p in
      let registered = is_registered slot p.symbols in
      create_books_loop-day rounds (slot + 1) (if registered then created && success else success)
        (if registered then q else p)
      ∙ ap
          (λ (day : Day B). record day {
            books = open_books manager rounds (slot + 1) day.symbols day.books;
          })
          (created-day slot p)

  system_hours-day :
      (p : ItchParser B)
      → day_of (handle_system_hours_start manager p) ≡ start_of_system manager (day_of p)
  unfolding handle_system_hours_start create_registered_books start_of_system advance_phase fail
      is_allowed
  system_hours-day p = ground (
    arith,
    create_books_loop-day 65535 1 true
        (record p { channel_phase = ChannelPhase.system_hours; books_prepared = true }),
  )

  system_event-day :
      (code : ℕ) (p : ItchParser B)
      → day_of (system_event manager code p) ≡ event manager code (day_of p)
  unfolding system_event event advance_phase fail is_allowed
  system_event-day code p = ground (arith, system_hours-day p)

  mark-day :
      (p : ItchParser B)
      → day_of (mark_startup_admin_message p)
        ≡ record (day_of p) { phase = end_of_directory p.channel_phase }
  unfolding mark_startup_admin_message
  mark-day p = ground arith

  handle_stock_directory-day :
      (msg : List ℕ) (p : ItchParser B)
      → is_waiting p.channel_phase ≡ false
      → day_of (handle_stock_directory manager msg p) ≡ list_symbol manager msg (day_of p)
  unfolding handle_stock_directory register_directory_entry create_registered_book start_directory
      ticker_conflicts fail list_symbol is_free is_registered
  handle_stock_directory-day msg p started = ground (arith, started)

  -- Once the day has started, or with a system event.
  dispatch_type-day :
      (msg : List ℕ) (p : ItchParser B)
      → (is_waiting p.channel_phase && not (byte_at msg 0 == b'S')) ≡ false
      → day_of (dispatch_type manager (byte_at msg 0) msg p).1 ≡ apply manager msg (day_of p)
  unfolding dispatch_type apply handle_order_executed handle_order_executed_with_price
      handle_broken_trade handle_system_event skip fail
  dispatch_type-day msg p started = ground (
    arith,
    started,
    handle_add-day msg p,
    apply_execution-day msg p,
    handle_cancel-day msg p,
    handle_delete-day msg p,
    handle_replace-day msg p,
    system_event-day (byte_at msg 11) p,
    mark-day p,
    λ (q : is_waiting p.channel_phase ≡ false). handle_stock_directory-day msg p q,
  )

  dispatch_message-day :
      (c : ℕ) (cs : List ℕ) (p : ItchParser B)
      → day_of (dispatch_message manager (c ∷ cs) p).1 ≡ step manager (c ∷ cs) (day_of p)
  unfolding dispatch_message step fail
  dispatch_message-day c cs p = ground (
    arith,
    λ (started : (is_waiting p.channel_phase && not (byte_at (c ∷ cs) 0 == b'S')) ≡ false).
        dispatch_type-day (c ∷ cs) p started,
  )

  -- A message that the decoder hands over makes of the parser's day what it makes of the day.
  pub handle_prevalidated_message-day :
      (msg : List ℕ) (p : ItchParser B)
      → day_of (handle_prevalidated_message manager msg p).1 ≡ step manager msg (day_of p)
  unfolding handle_prevalidated_message fail step
  handle_prevalidated_message-day [] p = refl
  handle_prevalidated_message-day (c ∷ cs) p = dispatch_message-day c cs (begin_message manager p)
