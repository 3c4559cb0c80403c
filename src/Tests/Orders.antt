-- ===== src/Tests/Orders.antt =====
-- A small order table, with one order below the direct slots and one above.
use astra_feed_engine.Prelude.{
  arith, ◌≡◌, ◌≢◌, ◌↔◌, refl, List, [], ◌∷◌, none, some, mul_u64, add_u64,
}
use astra_feed_engine.Book.{MutationResult}
use astra_feed_engine.Book.OrderTable.{
  OrderState, OrderTable, Place, empty_state, is_valid_config, new_table, is_active, was_seen,
  hash_primary, hash_secondary, fallback_candidate_buckets, fallback_slots, find, find_state,
  find_fallback_state, reserve, reserve_fallback, published, is_stale_fallback, commit, erase,
  erase_place,
}
use astra_feed_engine.Book.OrderTable.DayUnique.{
  TableStep, committed, erased, run_steps, commit-day_unique,
}
use astra_feed_engine.Book.OrderTable.States.{state_at}
use astra_feed_engine.Book.OrderTable.Reservation.{reserve-commit}
use astra_feed_engine.Book.OrderTable.Laws.{find-find_state, reserve-commit-find_state}

abbrev small : OrderTable
small = record {
  direct_slots = 4;
  fallback_bucket_count = 8;
  direct = λ _. empty_state;
  fallback = λ _ _. record { state = empty_state; order_ref = 0 };
}

abbrev order : OrderState
order = record empty_state { qty = 100; side = 1 }

-- Order 3 is committed and erased.
abbrev steps : List TableStep
steps = committed (reserve 3 small) order ∷ erased 3 ∷ []

abbrev used_table : OrderTable
used_table = run_steps steps small

facts :
    (new_table 4 8 ≡ some small)
    × ((reserve 77 used_table).result ≡ MutationResult.applied)
    × ((commit (reserve 77 used_table) order used_table).0 ≡ MutationResult.applied)
    × ((commit (reserve 77 small) order small).0 ≡ MutationResult.applied)
    × ((reserve 77 small).result ≡ MutationResult.applied)
unfolding new_table is_valid_config is_active was_seen hash_primary hash_secondary
    fallback_candidate_buckets fallback_slots find_state find_fallback_state reserve
    reserve_fallback published is_stale_fallback commit erase erase_place run_steps mul_u64 add_u64
facts = (refl, refl, refl, refl, refl)

reserve-commit-find_state_example :
    let t' = (commit (reserve 77 used_table) order used_table).1 in
    (place : Place) × (find_state 77 t' ≡ some place) × (state_at place t' ≡ published order)
reserve-commit-find_state_example =
    reserve-commit-find_state 4 8 small steps 77 order facts.0 facts.1 facts.2

commit-day_unique_example :
    (reserve
      (reserve 77 small).order_ref
      (run_steps (erased 77 ∷ []) (commit (reserve 77 small) order small).1)).result
    ≡ MutationResult.duplicate_order_ref
commit-day_unique_example =
    commit-day_unique (reserve 77 small) order small (erased 77 ∷ []) facts.3

find-find_state_example :
    ((find 3 used_table).place ≡ find_state 3 used_table)
    × (find_state 3 used_table ≢ none ↔ ((find 3 used_table).result ≡ MutationResult.applied))
find-find_state_example = find-find_state 3 used_table

reserve-commit_example : (commit (reserve 77 small) order small).0 ≡ MutationResult.applied
reserve-commit_example = reserve-commit 77 order small (λ e. ground arith) facts.4
