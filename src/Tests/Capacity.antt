-- ===== src/Tests/Capacity.antt =====
-- The capacity of the books and the audit of their directory on concrete data.
use astra_feed_engine.Prelude.{
  ℕ, ◌≡◌, ◌≤◌, ◌<◌, ◌+◌, ◌*◌, ◌↔◌, refl, [], ◌∷◌, Option, true, false, none, some, replicate,
}
use astra_feed_engine.Symbols.{initial_directory}
use astra_feed_engine.Book.BookManager.{
  BookManager, BookManagerConfig, max_stock_locate, get_or_create,
}
use astra_feed_engine.Book.OrderTable.{empty_state}
use astra_feed_engine.Book.PriceLevelStore.{blank_store}
use astra_feed_engine.Book.BookManager.Capacity.{
  BookStorageFootprint, estimate_book_storage_footprint, arenas, size_max, BookCapacityProfile,
  BookCapacityHeadroom, validate_book_capacity_profile, validate_config, is_power_of_two,
  footprint_of, map_arenas, mapped_bytes, checked_multiply, raised, round_up, sum_from, checked_add,
  is_named, is_lower_hex_sha256, all_lower_hex,
}
use astra_feed_engine.Book.BookManager.Footprint.{
  AllRounded, IsRounded, sum, estimate-IsPlanned, validate_book_capacity_profile-room,
}
use astra_feed_engine.Book.BookManager.Audit.{audit_directory, is_clean}
use astra_feed_engine.Book.BookManager.OneBook.{IsCoherent, books_from, audit_directory-IsCoherent}

abbrev compact : BookManagerConfig
compact = record {
  orders = record { direct_slots = 1048576; fallback_bucket_count = 4096 };
  prices = record { page_capacity = 512; prefault = false };
}

abbrev footprint : Option BookStorageFootprint
footprint = estimate_book_storage_footprint 88 8 compact 4096

abbrev profile : BookCapacityProfile
profile = record {
  name = 97 ∷ [];
  evidence_sha256 = replicate 64 97;
  config = compact;
  evidence = record { profiled_max_order_reference = 1000000; profiled_unique_price_pages = 500 };
  minimum_headroom = record { direct_order_reference_slots = 1000; price_pages = 10 };
}

-- The footprint of the compact configuration, on a system with pages of 4096 bytes.
abbrev planned : BookStorageFootprint
planned = record {
  system_page_bytes = 4096;
  arena_mapped_bytes =
      16777216 ∷ 2097152 ∷ 17179869184 ∷ 2097152 ∷ 1073741824 ∷ 2097152 ∷ 2097152 ∷ 10485760
      ∷ 2097152 ∷ 1098907648 ∷ [];
  mapped_array_bytes = 19390267392;
  descriptor_slot_bytes = 5767168;
  descriptor_mapped_bytes = 6291456;
  planned_storage_bytes = 19396558848;
}

estimated : estimate_book_storage_footprint 88 8 compact 4096 ≡ some planned
unfolding estimate_book_storage_footprint validate_config is_power_of_two footprint_of map_arenas
    arenas mapped_bytes checked_multiply raised round_up sum_from checked_add
estimated = refl

estimate-IsPlanned_example :
    AllRounded 4096 (arenas compact) planned.arena_mapped_bytes
    × IsRounded (max_stock_locate * 88) 4096 planned.descriptor_mapped_bytes
    × (planned.planned_storage_bytes
        ≡ sum planned.arena_mapped_bytes + planned.descriptor_mapped_bytes)
    × (planned.planned_storage_bytes ≤ size_max)
estimate-IsPlanned_example = estimate-IsPlanned 88 8 compact 4096 estimated

abbrev headroom : BookCapacityHeadroom
headroom = record { direct_order_reference_slots = 48575; price_pages = 12 }

accepted : validate_book_capacity_profile profile ≡ some headroom
unfolding validate_book_capacity_profile is_named validate_config is_power_of_two
    is_lower_hex_sha256 all_lower_hex
accepted = refl

validate_book_capacity_profile-room_example :
    (1000000 + 1000 < 1048576)
    × (500 + 10 ≤ 512)
    × (1000000 + 1 + 48575 ≡ 1048576)
    × (500 + 12 ≡ 512)
validate_book_capacity_profile-room_example = validate_book_capacity_profile-room profile accepted

-- A manager with a book for stock locate 7, which the directory does not have.
abbrev manager : BookManager
manager =
    (get_or_create 7 (record {
      config = compact;
      orders = record {
        direct_slots = 1048576;
        fallback_bucket_count = 4096;
        direct = λ _. empty_state;
        fallback = λ _ _. record { state = empty_state; order_ref = 0 };
      };
      prices = blank_store compact.prices;
      books = λ _. none;
    })).1

audit_directory-IsCoherent_example :
    let a = audit_directory initial_directory manager in
    (a.registered_symbols ≡ initial_directory.count)
    × (a.materialized_books ≡ books_from 1 65535 manager)
    × (a.prepared_books ≡ manager.prices.prepared_book_count)
    × ((is_clean a ≡ true) ↔ (
        ((l : ℕ) → 0 < l → l < max_stock_locate → IsCoherent initial_directory manager l)
        × (initial_directory.count ≡ books_from 1 65535 manager)
        × (initial_directory.count ≡ manager.prices.prepared_book_count)))
audit_directory-IsCoherent_example = audit_directory-IsCoherent initial_directory manager
