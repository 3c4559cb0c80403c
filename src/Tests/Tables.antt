-- ===== src/Tests/Tables.antt =====
-- Small tables that the theorems on the gap buffer and on the stock directory are applied to.
use astra_feed_engine.Prelude.{
  ℕ, ◌<◌, ◌^◌, ◌≡◌, ◌≢◌, arith, refl, inl, List, [], ◌∷◌, true, false, some, bytes_eq, mul_u64,
  inc_u32,
}
use astra_feed_engine.GapBuffer.{SequencedPacket, InsertResult, GapBuffer}
use astra_feed_engine.GapBuffer
use astra_feed_engine.GapBuffer.Stats.{IsReport, stats, stats-IsReport}
use astra_feed_engine.GapBuffer.Count.{insert-IsCounted, clear-IsCounted}
use astra_feed_engine.GapBuffer.Honest.{insert-AllStored, clear-AllStored}
use astra_feed_engine.GapBuffer.Lookup.{insert-find, insert-find_kept}
use astra_feed_engine.Symbols.{
  StockDirectoryEntry, c_string, ticker_view, canonical_entry, ticker_hash, initial_directory,
  is_registered, probe_ticker, locate_for_ticker, probe_empty, empty_reverse_slot, register, set,
}
use astra_feed_engine.Symbols.Identity.{set-keeps_identity}
use astra_feed_engine.Symbols.OneToOne.{set_all, set_all-one_to_one}

abbrev five : GapBuffer
five = (GapBuffer.insert (some (1 ∷ 2 ∷ [])) 5 1 9 GapBuffer.clear).1

inserts :
    ((GapBuffer.insert (some (1 ∷ 2 ∷ [])) 5 1 9 GapBuffer.clear).0 ≡ InsertResult.inserted)
    × (GapBuffer.find 5 five
        ≡ some (record {
          seq = 5;
          receive_start_ticks = 9;
          msg_count = 1;
          len = 2;
          payload = 1 ∷ 2 ∷ [];
        }))
unfolding GapBuffer.insert GapBuffer.insert_probe GapBuffer.clear GapBuffer.slot_for GapBuffer.hash
    GapBuffer.find GapBuffer.find_slot GapBuffer.locate mul_u64 inc_u32
inserts = (refl, refl)

insert-find_example :
    (q : SequencedPacket) × (GapBuffer.find 5 five ≡ some q)
    × (q.seq ≡ 5)
    × (q.msg_count ≡ 1)
    × (q.len ≡ 2)
    × (q.payload ≡ 1 ∷ 2 ∷ [])
insert-find_example = insert-find (1 ∷ 2 ∷ []) 5 1 9 GapBuffer.clear (inl inserts.0)

insert-find_kept_example :
    GapBuffer.find 5 (GapBuffer.insert (some (3 ∷ [])) 8 2 11 five).1
    ≡ some
        (record { seq = 5; receive_start_ticks = 9; msg_count = 1; len = 2; payload = 1 ∷ 2 ∷ [] })
insert-find_kept_example = insert-find_kept (some (3 ∷ [])) 8 2 11 5 five _ inserts.1

-- An entry for the ticker AB.
abbrev entry : StockDirectoryEntry
entry = record {
  round_lot_size = 100;
  locate = 7;
  ticker = 65 ∷ 66 ∷ [];
  market_category = 81;
  fin_status = 78;
  is_test = false;
  round_lots_only = false;
  issue_classification = 67;
}

-- The ticker AB is set for 7 and then for 9, which is refused; AC is set for 8.
abbrev thrice : List (ℕ × StockDirectoryEntry)
thrice = (7, entry) ∷ (9, entry) ∷ (8, record entry { ticker = 65 ∷ 67 ∷ [] }) ∷ []

seven_only :
    (is_registered 7 (set_all thrice initial_directory) ≡ true)
    × (is_registered 9 (set_all thrice initial_directory) ≡ false)
    × (is_registered 7 (set 7 entry initial_directory).1 ≡ true)
    × (is_registered 8 (set_all thrice initial_directory) ≡ true)
unfolding set_all set register is_registered ticker_view c_string canonical_entry ticker_hash
    initial_directory probe_ticker locate_for_ticker probe_empty empty_reverse_slot bytes_eq mul_u64
seven_only = (refl, refl, refl, refl)

set_all-one_to_one_example :
    ticker_view ((set_all thrice initial_directory).entries 7)
    ≢ ticker_view ((set_all thrice initial_directory).entries 8)
set_all-one_to_one_example =
    set_all-one_to_one thrice 7 8 (λ e. ground arith) seven_only.0 seven_only.3

set-keeps_identity_example :
    (is_registered 7 (set 9 entry (set 7 entry initial_directory).1).1 ≡ true)
    × (ticker_view ((set 9 entry (set 7 entry initial_directory).1).1.entries 7)
        ≡ ticker_view ((set 7 entry initial_directory).1.entries 7))
set-keeps_identity_example =
    set-keeps_identity 9 entry (set 7 entry initial_directory).1 7 seven_only.2

-- Two waiting packets.
abbrev waiting : GapBuffer
waiting = (GapBuffer.insert (some (3 ∷ [])) 8 2 11 five).1

some_waiting : GapBuffer.empty waiting ≡ false
unfolding GapBuffer.empty GapBuffer.insert GapBuffer.insert_probe GapBuffer.slot_for GapBuffer.hash
    GapBuffer.clear mul_u64 inc_u32
some_waiting = refl

stats-IsReport_example : IsReport 6 waiting (stats 6 waiting)
stats-IsReport_example =
    stats-IsReport 6 waiting (omega arith)
      (insert-IsCounted (3 ∷ []) 8 2 11 five
        (insert-IsCounted (1 ∷ 2 ∷ []) 5 1 9 GapBuffer.clear clear-IsCounted))
      (insert-AllStored (λ p. p.seq < 2 ^ 64) (3 ∷ []) 8 2 11 five (omega arith)
        (insert-AllStored (λ p. p.seq < 2 ^ 64) (1 ∷ 2 ∷ []) 5 1 9 GapBuffer.clear (omega arith)
          (clear-AllStored (λ p. p.seq < 2 ^ 64))))
      some_waiting
