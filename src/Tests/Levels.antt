-- ===== src/Tests/Levels.antt =====
-- Price levels and the capacity of the books on concrete data.
use astra_feed_engine.Prelude.{refl, List, [], ◌∷◌, true, false, arith}
use astra_feed_engine.Book.{MutationResult, OrderSide}
use astra_feed_engine.Book.PriceLevelStore.{
  PriceAddress, PriceLevelStoreConfig, blank_store, new_store,
}
use astra_feed_engine.Book.PriceLevelStore.Soundness.{IsSound}
use astra_feed_engine.Book.OrderTable.{empty_state}
use astra_feed_engine.Book.PriceLevelStore.{
  PriceLevelStore, prepare_book, commit_reservation, is_book_prepared, owner, root_handle_matches,
}
use astra_feed_engine.Book.PriceLevelStore.Levels.{validate_address, level_unchecked, write_level}
use astra_feed_engine.Book.PriceLevelStore.Additions.{
  add, validate_add, validate_activation, add_validated, activate_level, activate_in_page,
  activate_in_book,
}
use astra_feed_engine.Prelude.{inc_u32, add_u64, ◌≡◌}
use astra_feed_engine.Book.PriceLevelStore.Reads.{top_ten}
use astra_feed_engine.Book.PriceLevelStore.TopTen.{IsLadder, top_ten-IsLadder}
use astra_feed_engine.Book.PriceLevelStore.Depths.{depths}
use astra_feed_engine.Book.PriceLevelStore.Refinement.{Shows}
use astra_feed_engine.Book.PriceLevelStore.Effects.{effect, apply-Shows}
use astra_feed_engine.Book.OrderBook.{BookView, new_book}
use astra_feed_engine.Book.OrderBook.Depth.{get_top_of_book, get_book_update}
use astra_feed_engine.Book.OrderBook.Shown.{
  first_price, first_qty, is_filled, get_top_of_book-get_book_update,
}
use astra_feed_engine.Book.PriceLevelStore.Invariant.{
  Mutation, apply, apply_all, apply_all-new-IsSound,
}

abbrev config : PriceLevelStoreConfig
config = record { page_capacity = 4; prefault = false }

abbrev low_level : PriceAddress
low_level = record { page_handle = 1; level_index = 100 }

abbrev high_level : PriceAddress
high_level = record { page_handle = 1; level_index = 200 }

-- A page for stock locate 7, two levels on it, and calls that move, reduce and remove their orders.
abbrev calls : List Mutation
calls =
    Mutation.prepares 7
    ∷ Mutation.reserves 7 100
    ∷ Mutation.commits (record {
      result = MutationResult.applied;
      address = low_level;
      stock_locate = 7;
      page_index = 0;
      expected_committed_pages = 0;
      requires_commit = true;
    })
    ∷ Mutation.adds low_level OrderSide.buy 500
    ∷ Mutation.adds high_level OrderSide.buy 300
    ∷ Mutation.reduces high_level OrderSide.buy 300 100
    ∷ Mutation.erases high_level OrderSide.buy 200
    ∷ Mutation.moves low_level 500 high_level 70 OrderSide.buy
    ∷ []

apply_all-new-IsSound_example : IsSound (apply_all calls (blank_store config))
unfolding new_store
apply_all-new-IsSound_example =
    apply_all-new-IsSound config (blank_store config) calls (omega arith) refl (
      tt,
      (
        tt,
        (
          omega arith,
          (
            (omega arith, omega arith),
            (
              (omega arith, omega arith),
              (omega arith, (omega arith, ((omega arith, omega arith, omega arith), tt))),
            ),
          ),
        ),
      ),
    )

-- The first calls alone: two levels with orders.
abbrev opening : List Mutation
opening =
    Mutation.prepares 7
    ∷ Mutation.commits (record {
      result = MutationResult.applied;
      address = low_level;
      stock_locate = 7;
      page_index = 0;
      expected_committed_pages = 0;
      requires_commit = true;
    })
    ∷ Mutation.adds low_level OrderSide.buy 500
    ∷ Mutation.adds high_level OrderSide.buy 300
    ∷ []

abbrev two_levels : PriceLevelStore
two_levels = apply_all opening (blank_store config)

two_levels-IsSound : IsSound two_levels
unfolding new_store
two_levels-IsSound =
    apply_all-new-IsSound config (blank_store config) opening (omega arith) refl
      (tt, (omega arith, ((omega arith, omega arith), ((omega arith, omega arith), tt))))

two_levels_prepared : is_book_prepared 7 two_levels ≡ true
unfolding apply_all apply blank_store prepare_book commit_reservation is_book_prepared add
    validate_add validate_address validate_activation add_validated activate_level activate_in_page
    activate_in_book level_unchecked write_level owner root_handle_matches inc_u32 add_u64
two_levels_prepared = refl

abbrev shown : BookView
shown = record {
  orders = record {
    direct_slots = 16;
    fallback_bucket_count = 4;
    direct = λ _. empty_state;
    fallback = λ _ _. record { state = empty_state; order_ref = 0 };
  };
  prices = two_levels;
  book = new_book 7 16 two_levels;
}

top_ten-IsLadder_example :
    IsLadder 7 OrderSide.buy two_levels 10 (λ _. true) (top_ten 7 OrderSide.buy 12 two_levels)
top_ten-IsLadder_example =
    top_ten-IsLadder 7 OrderSide.buy two_levels two_levels-IsSound refl two_levels_prepared 12

-- The lower level is moved above the other one.
apply-Shows_example :
    Shows (apply (Mutation.moves low_level 500 high_level 70 OrderSide.buy) two_levels) (
      effect
        (Mutation.moves low_level 500 high_level 70 OrderSide.buy)
        two_levels
        (depths two_levels))
apply-Shows_example =
    apply-Shows (Mutation.moves low_level 500 high_level 70 OrderSide.buy) two_levels
      two_levels-IsSound (omega arith, omega arith, omega arith)

get_top_of_book-get_book_update_example :
    ((get_top_of_book shown).bid_price ≡ first_price (get_book_update shown).bids)
    × ((get_top_of_book shown).bid_qty ≡ first_qty (get_book_update shown).bids)
    × ((get_top_of_book shown).has_bid ≡ is_filled (get_book_update shown).bids)
    × ((get_top_of_book shown).ask_price ≡ first_price (get_book_update shown).asks)
    × ((get_top_of_book shown).ask_qty ≡ first_qty (get_book_update shown).asks)
    × ((get_top_of_book shown).has_ask ≡ is_filled (get_book_update shown).asks)
    × ((get_top_of_book shown).timestamp ≡ (get_book_update shown).timestamp)
    × ((get_top_of_book shown).symbol_id ≡ (get_book_update shown).symbol_id)
get_top_of_book-get_book_update_example = get_top_of_book-get_book_update shown
