-- ===== src/Book/BookManager/Audit.antt =====
-- src/book/BookManager.cpp, auditDirectory: one directory entry, one book.
use astra_feed_engine.Prelude.{
  ℕ, zero, suc, ◌+◌, ◌-◌, Bool, true, false, not, ◌&&◌, ◌||◌, Option, none, some, ◌==◌,
}
use astra_feed_engine.Symbols.{StockDirectory, is_registered}
use astra_feed_engine.Book.PriceLevelStore.{is_book_prepared}
use astra_feed_engine.Book.OrderBook.{OrderBook}
use astra_feed_engine.Book.BookManager.{BookManager, max_stock_locate}

pub record BookDirectoryAudit : Type 0 where
  pub registered_symbols : ℕ
  pub materialized_books : ℕ
  pub prepared_books : ℕ
  pub registered_books_missing : ℕ
  pub unregistered_books_present : ℕ
  pub descriptor_price_state_mismatches : ℕ
  pub descriptor_identity_mismatches : ℕ

unfoldable pub is_clean : BookDirectoryAudit → Bool
is_clean audit =
    audit.registered_books_missing == 0
    && audit.unregistered_books_present == 0
    && audit.descriptor_price_state_mismatches == 0
    && audit.descriptor_identity_mismatches == 0
    && audit.registered_symbols == audit.materialized_books
    && audit.registered_symbols == audit.prepared_books

abbrev pub is_there : Option OrderBook → Bool
is_there none = false
is_there (some _) = true

-- Does a book name another locate than its slot's?
abbrev pub is_misnamed : ℕ → Option OrderBook → Bool
is_misnamed locate none = false
is_misnamed locate (some book) = not (book.stock_locate == locate) || not (book.symbol_id == locate)

abbrev pub count_if : Bool → ℕ → ℕ
count_if true n = n + 1
count_if false n = n

-- One round of the loop. The counts are at most the number of slots, and do not wrap.
unfoldable pub audit_slot :
    ℕ → StockDirectory → BookManager → BookDirectoryAudit → BookDirectoryAudit
audit_slot locate directory m audit =
    let registered = is_registered locate directory in
    let materialized = is_there (m.books locate) in
    let prepared = is_book_prepared locate m.prices in
    record audit {
      materialized_books = count_if materialized audit.materialized_books;
      registered_books_missing =
          count_if (registered && (not materialized || not prepared))
            audit.registered_books_missing;
      unregistered_books_present =
          count_if (not registered && (materialized || prepared)) audit.unregistered_books_present;
      descriptor_price_state_mismatches =
          count_if (materialized && not prepared || not materialized && prepared)
            audit.descriptor_price_state_mismatches;
      descriptor_identity_mismatches =
          count_if (is_misnamed locate (m.books locate)) audit.descriptor_identity_mismatches;
    }

unfoldable pub audit_loop :
    ℕ → ℕ → StockDirectory → BookManager → BookDirectoryAudit → BookDirectoryAudit
audit_loop zero slot directory m audit = audit
audit_loop (suc rounds) slot directory m audit =
    audit_loop rounds (slot + 1) directory m (audit_slot slot directory m audit)

unfoldable pub audit_directory : StockDirectory → BookManager → BookDirectoryAudit
audit_directory directory m = audit_loop (max_stock_locate - 1) 1 directory m (record {
  registered_symbols = directory.count;
  materialized_books = 0;
  prepared_books = m.prices.prepared_book_count;
  registered_books_missing = 0;
  unregistered_books_present = 0;
  descriptor_price_state_mismatches = 0;
  descriptor_identity_mismatches = 0;
})
