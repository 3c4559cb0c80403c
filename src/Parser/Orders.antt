-- ===== src/Parser/Orders.antt =====
-- src/parser/ItchParser.cpp: the messages that change the displayed book.
use astra_feed_engine.Prelude.{
  ℕ, zero, suc, ◌+◌, List, Bool, true, not, ◌&&◌, none, some, ◌==◌, ltb, if◌then◌else◌, length,
}
use astra_feed_engine.Wire.{byte_at, read_u32_be, read_u48_be, read_u64_be, is_valid_itch_price4}
use astra_feed_engine.Symbols.{StockDirectoryEntry, ticker_view}
use astra_feed_engine.Symbols
use astra_feed_engine.Parser.State.{
  BookOperation, ParseError, Books, ItchParser, fail, skip, apply_book_result,
}

-- The second loop of wireStockMatches, with `rounds` characters left.
unfoldable pub wire_stock_loop : ℕ → ℕ → ℕ → List ℕ → List ℕ → ℕ → Bool
wire_stock_loop zero index ticker_length ticker msg offset = true
wire_stock_loop (suc rounds) index ticker_length ticker msg offset =
    (byte_at msg (offset + index)
      == (if ltb index ticker_length then byte_at ticker index else b' '))
    && wire_stock_loop rounds (index + 1) ticker_length ticker msg offset

unfoldable pub wire_stock_matches : StockDirectoryEntry → List ℕ → ℕ → Bool
wire_stock_matches entry msg offset =
    wire_stock_loop 8 0 (length (ticker_view entry)) entry.ticker msg offset

module _ {B : Type 0} (manager : Books B) where
  unfoldable pub handle_add : List ℕ → ℕ → ItchParser B → ItchParser B
  handle_add msg locate p = elim (Symbols.get locate p.symbols) [
    | none ↦ fail ParseError.add_order_unregistered_locate p
    | some entry ↦
        if not (wire_stock_matches entry msg 24)
        then fail ParseError.add_order_stock_mismatch p
        else apply_book_result BookOperation.add_order
            (manager.add_order locate (read_u64_be msg 11) (read_u32_be msg 32) (read_u32_be msg 20)
              (byte_at msg 19) (read_u48_be msg 5) p.books)
            p
  ]

  unfoldable pub apply_execution : List ℕ → ℕ → ItchParser B → ItchParser B
  apply_execution msg locate p =
      apply_book_result BookOperation.order_execution
        (manager.execute_order locate (read_u64_be msg 11) (read_u32_be msg 19) (read_u48_be msg 5)
          p.books)
        p

  unfoldable pub handle_order_executed : List ℕ → ℕ → ItchParser B → ItchParser B
  handle_order_executed msg locate p = apply_execution msg locate p

  unfoldable pub handle_order_executed_with_price : List ℕ → ℕ → ItchParser B → ItchParser B
  handle_order_executed_with_price msg locate p =
      if not (is_valid_itch_price4 (read_u32_be msg 32))
      then fail ParseError.execution_price_out_of_range p
      else apply_execution msg locate p

  unfoldable pub handle_cancel : List ℕ → ℕ → ItchParser B → ItchParser B
  handle_cancel msg locate p =
      apply_book_result BookOperation.order_cancel
        (manager.cancel_shares locate (read_u64_be msg 11) (read_u32_be msg 19) (read_u48_be msg 5)
          p.books)
        p

  unfoldable pub handle_delete : List ℕ → ℕ → ItchParser B → ItchParser B
  handle_delete msg locate p =
      apply_book_result BookOperation.order_delete
        (manager.delete_order locate (read_u64_be msg 11) (read_u48_be msg 5) p.books) p

  unfoldable pub handle_replace : List ℕ → ℕ → ItchParser B → ItchParser B
  handle_replace msg locate p =
      let old_id = read_u64_be msg 11 in
      let new_id = read_u64_be msg 19 in
      if new_id == old_id
      then fail ParseError.replacement_reference_not_new p
      else apply_book_result BookOperation.order_replace
          (manager.replace_order locate old_id new_id (read_u32_be msg 31) (read_u32_be msg 27)
            (read_u48_be msg 5) p.books)
          p

  unfoldable pub handle_broken_trade : List ℕ → ℕ → ItchParser B → ItchParser B
  handle_broken_trade msg locate p = skip p
