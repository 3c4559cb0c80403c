-- ===== src/Parser/State.antt =====
-- include/astra/parser/ItchParser.hpp: the parser's state,
-- its errors, and what it asks of BookManager.
use astra_feed_engine.Prelude.{ℕ, Bool, true, false, Option, none, some}
use astra_feed_engine.Channel.{ChannelPhase}
use astra_feed_engine.Symbols.{StockDirectory}
use astra_feed_engine.Book.{MutationResult}

-- The texts that the parser passes to applyBookResult.
pub data BookOperation : Type 0 where
  add_order order_execution order_cancel order_delete order_replace : BookOperation

-- The texts of lastError(), one constructor each; none of them is empty.
pub data ParseError : Type 0 where
  empty_message unsupported_message_type invalid_message_length : ParseError
  empty_prevalidated_message timestamp_outside_trading_day : ParseError
  system_event_locate_not_zero first_message_not_start : ParseError
  message_after_end_of_messages message_after_system_hours : ParseError
  add_order_unregistered_locate add_order_stock_mismatch : ParseError
  execution_price_out_of_range replacement_reference_not_new : ParseError
  invalid_directory_identity conflicting_ticker ticker_already_registered : ParseError
  unable_to_register unable_to_prepare_directory_book : ParseError
  end_of_messages_with_live_orders unsupported_system_event : ParseError
  unable_to_prepare_registered_books out_of_order_system_event : ParseError
  book_failure : BookOperation → MutationResult → ParseError

-- BookManager, as the parser calls it. `get_or_create` tells whether its pointer is not null.
pub record Books (B : Type 0) : Type 0 where
  pub add_order : ℕ → ℕ → ℕ → ℕ → ℕ → ℕ → B → MutationResult × B
  pub execute_order : ℕ → ℕ → ℕ → ℕ → B → MutationResult × B
  pub cancel_shares : ℕ → ℕ → ℕ → ℕ → B → MutationResult × B
  pub delete_order : ℕ → ℕ → ℕ → B → MutationResult × B
  pub replace_order : ℕ → ℕ → ℕ → ℕ → ℕ → ℕ → B → MutationResult × B
  pub get_or_create : ℕ → B → Bool × B
  pub total_live_order_count : B → ℕ

pub record ItchParser (B : Type 0) : Type 0 where
  pub symbols : StockDirectory
  pub books : B
  pub channel_phase : ChannelPhase
  pub last_message_skipped : Bool
  pub last_error : Option ParseError
  pub books_prepared : Bool

module _ {B : Type 0} where
  unfoldable pub new_parser : StockDirectory → B → ItchParser B
  new_parser symbols books = record {
    symbols = symbols;
    books = books;
    channel_phase = ChannelPhase.waiting_start_of_messages;
    last_message_skipped = false;
    last_error = none;
    books_prepared = false;
  }

  unfoldable pub skip : ItchParser B → ItchParser B
  skip p = record p { last_message_skipped = true }

  unfoldable pub fail : ParseError → ItchParser B → ItchParser B
  fail error p = record p { last_message_skipped = true; last_error = some error }

  -- applyBookResult and applyBookFailure, on what a call of the books returned.
  unfoldable pub apply_book_result :
      BookOperation → MutationResult × B → ItchParser B → ItchParser B
  apply_book_result operation (MutationResult.applied, books) p = record p { books = books }
  apply_book_result operation (result, books) p = record p {
    books = books;
    last_message_skipped = true;
    last_error = some (book_failure operation result);
  }
