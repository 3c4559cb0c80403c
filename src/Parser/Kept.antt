-- ===== src/Parser/Kept.antt =====
-- src/parser/ItchParser.cpp: what every call of the books keeps, every message keeps.
use astra_feed_engine.Prelude.{
  ℕ, zero, suc, ◌+◌, ◌^◌, ◌<◌, ◌≡◌, sym, subst, List, [], ◌∷◌, Bool, true, not, ◌&&◌, ◌||◌, ◌==◌,
  leb, Option, none, some, if◌then◌else◌, if_elim, arith, bytes_eq,
}
use astra_feed_engine.Wire.{
  byte_at, read_u16_be, read_u32_be, read_u48_be, read_u64_be, is_valid_itch_price4,
}
use astra_feed_engine.Wire.Octets.{Octets, read_u32_be-lt}
use astra_feed_engine.Channel.{ChannelPhase, is_end_of_messages}
use astra_feed_engine.Symbols.{is_valid_stock_locate, is_registered, locate_for_ticker}
use astra_feed_engine.Symbols
use astra_feed_engine.Book.{MutationResult}
use astra_feed_engine.Parser.State.{BookOperation, Books, ItchParser, fail, skip, apply_book_result}
use astra_feed_engine.Parser.Phase.{
  is_allowed, advance_phase, mark_startup_admin_message, create_registered_book, create_books_loop,
  create_registered_books, handle_system_hours_start, system_event, handle_system_event,
}
use astra_feed_engine.Parser.Orders.{
  wire_stock_matches, handle_add, apply_execution, handle_order_executed,
  handle_order_executed_with_price, handle_cancel, handle_delete, handle_replace,
  handle_broken_trade,
}
use astra_feed_engine.Parser.Directory.{
  fixed_text, ticker_conflicts, start_directory, register_directory_entry, handle_stock_directory,
  directory_entry,
}
use astra_feed_engine.Parser.Dispatch.{
  is_waiting, is_post_system_hours, is_admin_type, nanoseconds_per_day, dispatch_type,
  dispatch_message, handle_prevalidated_message, begin_message,
}

-- No call of the books breaks Q, when the quantities of new orders are 32-bit words.
pub record Keeps {B : Type 0} (manager : Books B) (Q : B → Type 0) : Type 0 where
  pub adds :
      (l id price qty side time : ℕ) (b : B)
      → qty < 2 ^ 32
      → Q b
      → Q (manager.add_order l id price qty side time b).1
  pub executes : (l id qty time : ℕ) (b : B) → Q b → Q (manager.execute_order l id qty time b).1
  pub cancels : (l id qty time : ℕ) (b : B) → Q b → Q (manager.cancel_shares l id qty time b).1
  pub deletes : (l id time : ℕ) (b : B) → Q b → Q (manager.delete_order l id time b).1
  pub replaces :
      (l old_id new_id price qty time : ℕ) (b : B)
      → qty < 2 ^ 32
      → Q b
      → Q (manager.replace_order l old_id new_id price qty time b).1
  pub creates : (l : ℕ) (b : B) → Q b → Q (manager.get_or_create l b).1

apply_book_result-books :
    {B : Type 0} (operation : BookOperation) (x : MutationResult × B) (p : ItchParser B)
    → (apply_book_result operation x p).books ≡ x.1
unfolding apply_book_result
apply_book_result-books operation (result, b) p = ground arith

option_elim :
    {A B : Type 0} (Q : B → Type 0) (o : Option A) {n : B} {f : A → B}
    → Q n
    → ((a : A) → Q (f a))
    → Q (elim o [ none ↦ n | some a ↦ f a ])
option_elim Q none p q = p
option_elim Q (some a) p q = q a

start_directory-books : {B : Type 0} (p : ItchParser B) → (start_directory p).books ≡ p.books
unfolding start_directory
start_directory-books p = ground arith

mark-books : {B : Type 0} (p : ItchParser B) → (mark_startup_admin_message p).books ≡ p.books
unfolding mark_startup_admin_message
mark-books p = ground arith

module _ {B : Type 0} (manager : Books B) (Q : B → Type 0) (k : Keeps manager Q) where
  abbrev Fine : ItchParser B → Type 0
  Fine p = Q p.books

  applied-Fine :
      (operation : BookOperation) (x : MutationResult × B) (p : ItchParser B)
      → Q x.1
      → Fine (apply_book_result operation x p)
  applied-Fine operation x p h = subst Q (sym (apply_book_result-books operation x p)) h

  advanced-Fine : (next : ChannelPhase) (p : ItchParser B) → Fine p → Fine (advance_phase next p).1
  unfolding advance_phase fail
  advanced-Fine next p h =
      if_elim (λ (x : Bool × ItchParser B). Fine x.1) (is_allowed next p.channel_phase) (λ _. h)
        (λ _. h)

  created-Fine :
      (locate : ℕ) (p : ItchParser B) → Fine p → Fine (create_registered_book manager locate p).1
  unfolding create_registered_book
  created-Fine locate p h =
      if_elim (λ (x : Bool × ItchParser B). Fine x.1)
        (not (is_valid_stock_locate locate) || not (is_registered locate p.symbols)) (λ _. h)
        (λ _. k.creates locate p.books h)

  create_books_loop-Fine :
      (rounds slot : ℕ) (success : Bool) (p : ItchParser B)
      → Fine p
      → Fine (create_books_loop manager rounds slot success p).1
  unfolding create_books_loop
  create_books_loop-Fine zero slot success p h = h
  create_books_loop-Fine (suc rounds) slot success p h =
      create_books_loop-Fine rounds (slot + 1) _ _
        (if_elim Fine (is_registered slot p.symbols) (λ _. created-Fine slot p h) (λ _. h))

  system_hours-Fine : (p : ItchParser B) → Fine p → Fine (handle_system_hours_start manager p)
  unfolding handle_system_hours_start create_registered_books fail
  system_hours-Fine p h =
      let (advanced, q) = advance_phase ChannelPhase.system_hours p in
      let here = advanced-Fine ChannelPhase.system_hours p h in
      let all = create_books_loop-Fine 65535 1 true (record q { books_prepared = true }) here in
      if_elim Fine (not advanced) (λ _. here)
        (λ _. if_elim Fine q.books_prepared (λ _. here) (λ _. if_elim Fine _ (λ _. all) (λ _. all)))

  system_event-Fine : (code : ℕ) (p : ItchParser B) → Fine p → Fine (system_event manager code p)
  unfolding system_event fail
  system_event-Fine code p h =
      if_elim Fine (code == b'O') (λ _. advanced-Fine ChannelPhase.startup_directory_spin p h)
        (λ _.
          if_elim Fine (code == b'S') (λ _. system_hours-Fine p h)
            (λ _.
              if_elim Fine (code == b'Q') (λ _. advanced-Fine ChannelPhase.market_hours p h)
                (λ _.
                  if_elim Fine (code == b'M')
                    (λ _. advanced-Fine ChannelPhase.post_market_hours p h)
                    (λ _.
                      if_elim Fine (code == b'E')
                        (λ _. advanced-Fine ChannelPhase.post_system_hours p h)
                        (λ _.
                          if_elim Fine (code == b'C')
                            (λ _.
                              if_elim Fine (not (manager.total_live_order_count p.books == 0))
                                (λ _. h) (λ _. advanced-Fine ChannelPhase.end_of_messages p h))
                            (λ _.
                              if_elim Fine (code == b'A' || code == b'R' || code == b'B') (λ _. h)
                                (λ _. h)))))))

  handle_add-Fine :
      (msg : List ℕ) (locate : ℕ) (p : ItchParser B)
      → Octets msg
      → Fine p
      → Fine (handle_add manager msg locate p)
  unfolding handle_add fail
  handle_add-Fine msg locate p o h = option_elim Fine (Symbols.get locate p.symbols) h (λ entry.
      if_elim Fine (not (wire_stock_matches entry msg 24)) (λ _. h)
        (λ _. applied-Fine _ _ p (k.adds _ _ _ _ _ _ p.books (read_u32_be-lt msg 20 o) h)))

  handle_executed-Fine :
      (msg : List ℕ) (locate : ℕ) (p : ItchParser B)
      → Fine p
      → Fine (apply_execution manager msg locate p)
  unfolding apply_execution
  handle_executed-Fine msg locate p h = applied-Fine _ _ p (k.executes _ _ _ _ p.books h)

  handle_executed_with_price-Fine :
      (msg : List ℕ) (locate : ℕ) (p : ItchParser B)
      → Fine p
      → Fine (handle_order_executed_with_price manager msg locate p)
  unfolding handle_order_executed_with_price fail
  handle_executed_with_price-Fine msg locate p h =
      if_elim Fine (not (is_valid_itch_price4 (read_u32_be msg 32))) (λ _. h)
        (λ _. handle_executed-Fine msg locate p h)

  handle_cancel-Fine :
      (msg : List ℕ) (locate : ℕ) (p : ItchParser B)
      → Fine p
      → Fine (handle_cancel manager msg locate p)
  unfolding handle_cancel
  handle_cancel-Fine msg locate p h = applied-Fine _ _ p (k.cancels _ _ _ _ p.books h)

  handle_delete-Fine :
      (msg : List ℕ) (locate : ℕ) (p : ItchParser B)
      → Fine p
      → Fine (handle_delete manager msg locate p)
  unfolding handle_delete
  handle_delete-Fine msg locate p h = applied-Fine _ _ p (k.deletes _ _ _ p.books h)

  handle_replace-Fine :
      (msg : List ℕ) (locate : ℕ) (p : ItchParser B)
      → Octets msg
      → Fine p
      → Fine (handle_replace manager msg locate p)
  unfolding handle_replace fail
  handle_replace-Fine msg locate p o h =
      if_elim Fine (read_u64_be msg 19 == read_u64_be msg 11) (λ _. h)
        (λ _. applied-Fine _ _ p (k.replaces _ _ _ _ _ _ p.books (read_u32_be-lt msg 27 o) h))

  register-Fine :
      (msg : List ℕ) (p : ItchParser B) → Fine p → Fine (register_directory_entry manager msg p)
  unfolding register_directory_entry fail
  register-Fine msg p h =
      let locate = read_u16_be msg 1 in
      let (registered, symbols) = Symbols.set locate (directory_entry msg) p.symbols in
      let q = record p { symbols = symbols } in
      let (created, r) = create_registered_book manager locate q in
      let made = created-Fine locate q h in
      if_elim Fine (not registered) (λ _. h)
        (λ _.
          if_elim Fine (not q.books_prepared) (λ _. h)
            (λ _. if_elim Fine (not created) (λ _. made) (λ _. made)))

  handle_stock_directory-Fine :
      (msg : List ℕ) (p : ItchParser B) → Fine p → Fine (handle_stock_directory manager msg p)
  unfolding handle_stock_directory fail
  handle_stock_directory-Fine msg p h =
      let locate = read_u16_be msg 1 in
      let text = fixed_text msg 11 8 in
      let existing_locate = locate_for_ticker text p.symbols in
      if_elim Fine (bytes_eq text [] || not (is_valid_stock_locate locate)) (λ _. h)
        (λ _.
          if_elim Fine (ticker_conflicts locate text p.symbols) (λ _. h)
            (λ _.
              if_elim Fine (not (existing_locate == 0) && not (existing_locate == locate)) (λ _. h)
                (λ _.
                  register-Fine msg (start_directory p)
                    (subst Q (sym (start_directory-books p)) h))))

  abbrev FineResult : Bool × ItchParser B → Type 0
  FineResult x = Fine x.1

  dispatch_type-Fine :
      (type : ℕ) (msg : List ℕ) (p : ItchParser B)
      → Octets msg
      → Fine p
      → FineResult (dispatch_type manager type msg p)
  unfolding dispatch_type handle_order_executed handle_broken_trade handle_system_event skip
  dispatch_type-Fine type msg p o h =
      let locate = read_u16_be msg 1 in
      if_elim FineResult (type == b'A' || type == b'F') (λ _. handle_add-Fine msg locate p o h)
        (λ _.
          if_elim FineResult (type == b'E') (λ _. handle_executed-Fine msg locate p h)
            (λ _.
              if_elim FineResult (type == b'C')
                (λ _. handle_executed_with_price-Fine msg locate p h)
                (λ _.
                  if_elim FineResult (type == b'X') (λ _. handle_cancel-Fine msg locate p h)
                    (λ _.
                      if_elim FineResult (type == b'D') (λ _. handle_delete-Fine msg locate p h)
                        (λ _.
                          if_elim FineResult (type == b'U')
                            (λ _. handle_replace-Fine msg locate p o h)
                            (λ _.
                              if_elim FineResult (type == b'B') (λ _. h)
                                (λ _.
                                  if_elim FineResult (type == b'R')
                                    (λ _. handle_stock_directory-Fine msg p h)
                                    (λ _.
                                      if_elim FineResult (type == b'S')
                                        (λ _. system_event-Fine (byte_at msg 11) p h)
                                        (λ _.
                                          if_elim FineResult (is_admin_type type)
                                            (λ _. subst Q (sym (mark-books p)) h) (λ _. h))))))))))

  dispatch_message-Fine :
      (msg : List ℕ) (p : ItchParser B)
      → Octets msg
      → Fine p
      → FineResult (dispatch_message manager msg p)
  unfolding dispatch_message fail
  dispatch_message-Fine msg p o h =
      let type = byte_at msg 0 in
      let event_code = if type == b'S' then byte_at msg 11 else 0 in
      if_elim FineResult (leb nanoseconds_per_day (read_u48_be msg 5)) (λ _. h)
        (λ _.
          if_elim FineResult (type == b'S' && not (read_u16_be msg 1 == 0)) (λ _. h)
            (λ _.
              if_elim FineResult
                (is_waiting p.channel_phase && (not (type == b'S') || not (event_code == b'O')))
                (λ _. h)
                (λ _.
                  if_elim FineResult (is_end_of_messages p.channel_phase) (λ _. h)
                    (λ _.
                      if_elim FineResult
                        (is_post_system_hours p.channel_phase
                          && not (type == b'X')
                          && not (type == b'D')
                          && not (type == b'B')
                          && not (type == b'S' && event_code == b'C'))
                        (λ _. h) (λ _. dispatch_type-Fine type msg p o h)))))

  pub handle_prevalidated_message-Fine :
      (msg : List ℕ) (p : ItchParser B)
      → Octets msg
      → Q p.books
      → Q (handle_prevalidated_message manager msg p).1.books
  unfolding handle_prevalidated_message fail
  handle_prevalidated_message-Fine [] p o h = h
  handle_prevalidated_message-Fine (c ∷ cs) p o h =
      dispatch_message-Fine (c ∷ cs) (begin_message manager p) o h
