-- ===== src/Book/BookManager/OneBook.antt =====
-- src/book/BookManager.cpp, auditDirectory: what a clean audit proves.
use astra_feed_engine.Prelude.{
  ℕ, zero, suc, ◌+◌, ◌≤◌, ◌<◌, ◌≡◌, ◌↔◌, inl, inr, refl, ap, ◌∙◌, subst, Bool, true, false, ◌==◌,
  arith, Bool-cases, if◌then◌else◌, count, count_cong,
}
use astra_feed_engine.Symbols.{StockDirectory, is_registered}
use astra_feed_engine.Book.PriceLevelStore.{is_book_prepared}
use astra_feed_engine.Book.BookManager.{BookManager, max_stock_locate}
use astra_feed_engine.Book.BookManager.Audit.{
  BookDirectoryAudit, is_clean, is_there, is_misnamed, audit_slot, audit_loop, audit_directory,
}

-- A registered locate has its book, with its price levels prepared, and no other locate has any.
pub record IsCoherent (d : StockDirectory) (m : BookManager) (locate : ℕ) : Type 0 where
  pub book : is_there (m.books locate) ≡ is_registered locate d
  pub prepared : is_book_prepared locate m.prices ≡ is_registered locate d
  pub named : is_misnamed locate (m.books locate) ≡ false

-- The findings of the loop about single locates.
abbrev pub faults : BookDirectoryAudit → ℕ
faults a =
    a.registered_books_missing + a.unregistered_books_present + a.descriptor_price_state_mismatches
    + a.descriptor_identity_mismatches

audit_slot-faults :
    (locate : ℕ) (d : StockDirectory) (m : BookManager) (a : BookDirectoryAudit)
    → (faults a ≤ faults (audit_slot locate d m a))
      × (IsCoherent d m locate → faults (audit_slot locate d m a) ≡ faults a)
      × (faults (audit_slot locate d m a) ≡ faults a → IsCoherent d m locate)
unfolding audit_slot
audit_slot-faults locate d m a = (
  ground arith,
  λ c. ground (arith, c.book, c.prepared, c.named),
  λ e. record { book = ground arith; prepared = ground arith; named = ground arith },
)

audit_slot-totals :
    (locate : ℕ) (d : StockDirectory) (m : BookManager) (a : BookDirectoryAudit)
    → ((audit_slot locate d m a).registered_symbols ≡ a.registered_symbols)
      × ((audit_slot locate d m a).materialized_books
          ≡ a.materialized_books + (if is_there (m.books locate) then 1 else 0))
      × ((audit_slot locate d m a).prepared_books ≡ a.prepared_books)
unfolding audit_slot
audit_slot-totals locate d m a = (refl, ground arith, refl)

none_left : (slot l : ℕ) → slot ≤ l → l < slot + 0 → ⊥
none_left slot l h k = omega arith

audit_loop-faults :
    (rounds slot : ℕ) (d : StockDirectory) (m : BookManager) (a : BookDirectoryAudit)
    → (faults a ≤ faults (audit_loop rounds slot d m a))
      × (((l : ℕ) → slot ≤ l → l < slot + rounds → IsCoherent d m l)
          ↔ (faults (audit_loop rounds slot d m a) ≡ faults a))
unfolding audit_loop
audit_loop-faults zero slot d m a =
    (omega arith, ((λ _. refl), λ _ l h k. absurd (none_left slot l h k)))
audit_loop-faults (suc rounds) slot d m a =
    let (up, ok, back) = audit_slot-faults slot d m a in
    let (more, (fine, all)) = audit_loop-faults rounds (slot + 1) d m (audit_slot slot d m a) in
    (
      omega arith,
      (
        (λ c.
            let e = ok (c slot (omega arith) (omega arith)) in
            let f = fine (λ l h k. c l (omega arith) (omega arith)) in omega arith),
        λ e l h k. elim (Bool-cases (l == slot)) [
          | inl same ↦
              let q : slot ≡ l = ground arith in subst (IsCoherent d m) q (back (omega arith))
          | inr other ↦ all (omega arith) l (ground arith) (omega arith)
        ],
      ),
    )

-- How many stock locates from `slot` on, of the next `rounds`, have a book.
abbrev pub books_from : ℕ → ℕ → BookManager → ℕ
books_from slot rounds m = count rounds (λ j. is_there (m.books (slot + j)))

count_first :
    (n : ℕ) (f : ℕ → Bool) → count (suc n) f ≡ (if f 0 then 1 else 0) + count n (λ j. f (suc j))
unfolding count
count_first zero f = omega arith
count_first (suc n) f = omega (arith, count_first n f)

books_from-next :
    (rounds slot : ℕ) (m : BookManager)
    → books_from slot (suc rounds) m
      ≡ (if is_there (m.books slot) then 1 else 0) + books_from (slot + 1) rounds m
books_from-next rounds slot m =
    let first = count_first rounds (λ j. is_there (m.books (slot + j))) in
    let here : is_there (m.books (slot + 0)) ≡ is_there (m.books slot) =
      ap (λ l. is_there (m.books l)) (omega arith) in
    let rest =
      count_cong rounds (λ j. is_there (m.books (slot + 1 + j)))
        (λ j. is_there (m.books (slot + suc j)))
        (λ j k. ap (λ l. is_there (m.books l)) (omega arith)) in
    ground (arith, first, here, rest)

-- The totals of an audit: it counts the books, and copies the numbers of symbols and of prepared books.
record Totals (books : ℕ) (a b : BookDirectoryAudit) : Type 0 where
  symbols : b.registered_symbols ≡ a.registered_symbols
  counted : b.materialized_books ≡ a.materialized_books + books
  prepared : b.prepared_books ≡ a.prepared_books

audit_loop-Totals :
    (rounds slot : ℕ) (d : StockDirectory) (m : BookManager) (a : BookDirectoryAudit)
    → Totals (books_from slot rounds m) a (audit_loop rounds slot d m a)
unfolding audit_loop count
audit_loop-Totals zero slot d m a = record {
  symbols = refl;
  counted = omega arith;
  prepared = refl;
}
audit_loop-Totals (suc rounds) slot d m a =
    let rest = audit_loop-Totals rounds (slot + 1) d m (audit_slot slot d m a) in
    let (symbols, counted, prepared) = audit_slot-totals slot d m a in
    let next = books_from-next rounds slot m in
    record {
      symbols = rest.symbols ∙ symbols;
      counted = omega (arith, rest.counted, counted, next);
      prepared = rest.prepared ∙ prepared;
    }

-- The audit is right. It reports the number of registered symbols, the number of valid stock locates
-- that have a book, and the number of books with prepared price levels. It is clean exactly when these
-- three are equal, and every valid stock locate has a book, and prepared price levels, if and only if
-- it is registered, and no book names another locate than its own.
pub audit_directory-IsCoherent :
    (d : StockDirectory) (m : BookManager)
    → let a = audit_directory d m in
      (a.registered_symbols ≡ d.count)
      × (a.materialized_books ≡ books_from 1 65535 m)
      × (a.prepared_books ≡ m.prices.prepared_book_count)
      × ((is_clean a ≡ true) ↔ (
          ((l : ℕ) → 0 < l → l < max_stock_locate → IsCoherent d m l)
          × (d.count ≡ books_from 1 65535 m)
          × (d.count ≡ m.prices.prepared_book_count)))
unfolding audit_directory is_clean
audit_directory-IsCoherent d m =
    let start : BookDirectoryAudit = record {
      registered_symbols = d.count;
      materialized_books = 0;
      prepared_books = m.prices.prepared_book_count;
      registered_books_missing = 0;
      unregistered_books_present = 0;
      descriptor_price_state_mismatches = 0;
      descriptor_identity_mismatches = 0;
    } in
    let (_, (fine, all)) = audit_loop-faults 65535 1 d m start in
    let t = audit_loop-Totals 65535 1 d m start in
    let t1 = t.symbols in
    let t2 = t.counted in
    let t3 = t.prepared in
    (
      t1,
      omega (arith, t2),
      t3,
      (
        (λ clean. (
          (λ l h k. all (ground arith) l (omega arith) (omega arith)),
          ground (arith, t1, t2),
          ground (arith, t1, t3),
        )),
        λ (c, symbols, books).
            let f = fine (λ l h k. c l (omega arith) (omega arith)) in
            ground (arith, f, symbols, books, t1, t2, t3),
      ),
    )
