-- ===== src/Book/BookManager/Capacity.antt =====
-- src/book/BookManager.cpp: the footprint of the storage, and the test of a capacity profile. none
-- stands for a throw.
use astra_feed_engine.Prelude.{
  ℕ, ◌+◌, ◌*◌, ◌-◌, ◌/◌, ◌%◌, ◌^◌, bit_and, List, [], ◌∷◌, Bool, true, not, ◌&&◌, ◌||◌, Option,
  none, some, ◌==◌, ltb, leb, if◌then◌else◌, length,
}
use astra_feed_engine.Book.BookManager.{BookManagerConfig, max_stock_locate}

infixl 5 ◌>>=◌
abbrev pub ◌>>=◌ : {A B : Type 0} → Option A → (A → Option B) → Option B
none >>= f = none
some a >>= f = f a

abbrev pub size_max : ℕ
size_max = 2 ^ 64 - 1

unfoldable pub is_power_of_two : ℕ → Bool
is_power_of_two value = not (value == 0) && bit_and value (value - 1) == 0

unfoldable pub checked_add : ℕ → ℕ → Option ℕ
checked_add lhs rhs = if ltb (size_max - rhs) lhs then none else some (lhs + rhs)

unfoldable pub checked_multiply : ℕ → ℕ → Option ℕ
checked_multiply lhs rhs =
    if not (lhs == 0) && ltb (size_max / lhs) rhs then none else some (lhs * rhs)

-- The alignment of mappedBytes: no less than the system's page and the element's alignment.
unfoldable pub raised : ℕ → ℕ → ℕ → ℕ
raised requested element_alignment system_page_bytes =
    let asked = if requested == 0 then system_page_bytes else requested in
    let paged = if ltb asked system_page_bytes then system_page_bytes else asked in
    if ltb paged element_alignment then element_alignment else paged

-- `x & ~(alignment - 1)` is `x / alignment * alignment`, as the alignment is a power of two.
unfoldable pub round_up : ℕ → ℕ → Option ℕ
round_up logical_bytes alignment =
    let rounded_bytes = (logical_bytes + alignment - 1) / alignment * alignment in
    if logical_bytes == 0
    then some 0
    else if ltb (size_max - (alignment - 1)) logical_bytes
    then none
    else if ltb (size_max - alignment) rounded_bytes
    then none
    else some rounded_bytes

unfoldable pub mapped_bytes : ℕ → ℕ → ℕ → ℕ → ℕ → Option ℕ
mapped_bytes count element_bytes element_alignment requested_alignment system_page_bytes =
    let alignment = raised requested_alignment element_alignment system_page_bytes in
    checked_multiply count element_bytes >>= λ logical_bytes.
    if not (is_power_of_two alignment) || not (alignment % system_page_bytes == 0)
    then none
    else round_up logical_bytes alignment

unfoldable pub validate_config : BookManagerConfig → Bool
validate_config config =
    not (config.orders.direct_slots == 0)
    && leb config.orders.direct_slots size_max
    && is_power_of_two config.orders.fallback_bucket_count
    && not (config.prices.page_capacity == 0)
    && not (config.prices.page_capacity == 2 ^ 32 - 1)

abbrev pub hot_arena_alignment : ℕ
hot_arena_alignment = 2097152

-- The arenas of estimateBookStorageFootprint: number, size and alignment of the elements, and the
-- alignment asked for. First the two of OrderTable, then the eight of PriceLevelStore.
unfoldable pub arenas : BookManagerConfig → List (ℕ × ℕ × ℕ × ℕ)
arenas config =
    let slots = config.prices.page_capacity + 1 in
    (config.orders.direct_slots, 16, 16, hot_arena_alignment)
    ∷ (config.orders.fallback_bucket_count, 64, 64, hot_arena_alignment)
    ∷ (2 ^ 32, 4, 4, hot_arena_alignment)
    ∷ (65536, 1, 1, hot_arena_alignment)
    ∷ (config.prices.page_capacity, 2097152, 64, 2097152)
    ∷ (slots, 8, 4, hot_arena_alignment)
    ∷ (slots, 16, 16, hot_arena_alignment)
    ∷ (slots * 2, 8384, 64, hot_arena_alignment)
    ∷ (65536, 32, 32, hot_arena_alignment)
    ∷ (65536 * 2, 8384, 64, hot_arena_alignment)
    ∷ []

-- The arenas' mappings, and their sum.
unfoldable pub map_arenas : List (ℕ × ℕ × ℕ × ℕ) → ℕ → Option (List ℕ)
map_arenas [] system_page_bytes = some []
map_arenas ((count, element_bytes, element_alignment, requested) ∷ rest) system_page_bytes =
    let others = map_arenas rest system_page_bytes in
    mapped_bytes count element_bytes element_alignment requested system_page_bytes >>= λ bytes.
    others >>= λ all. some (bytes ∷ all)

unfoldable pub sum_from : ℕ → List ℕ → Option ℕ
sum_from total [] = some total
sum_from total (bytes ∷ rest) = checked_add total bytes >>= λ sum. sum_from sum rest

pub record BookStorageFootprint : Type 0 where
  pub system_page_bytes : ℕ
  pub arena_mapped_bytes : List ℕ
  pub mapped_array_bytes : ℕ
  pub descriptor_slot_bytes : ℕ
  pub descriptor_mapped_bytes : ℕ
  pub planned_storage_bytes : ℕ

-- estimateBookStorageFootprint, once the configuration and the page size have passed their tests.
unfoldable pub footprint_of : ℕ → ℕ → BookManagerConfig → ℕ → Option BookStorageFootprint
footprint_of slot_bytes slot_alignment config system_page_bytes =
    map_arenas (arenas config) system_page_bytes >>= λ arena_bytes.
    sum_from 0 arena_bytes >>= λ mapped. checked_multiply max_stock_locate slot_bytes >>= λ slots.
    mapped_bytes max_stock_locate slot_bytes slot_alignment hot_arena_alignment system_page_bytes
    >>= λ descriptors. checked_add mapped descriptors >>= λ planned. some (record {
      system_page_bytes = system_page_bytes;
      arena_mapped_bytes = arena_bytes;
      mapped_array_bytes = mapped;
      descriptor_slot_bytes = slots;
      descriptor_mapped_bytes = descriptors;
      planned_storage_bytes = planned;
    })

-- estimateBookStorageFootprint; sizeof and alignof of std::optional<OrderBook> are the compiler's.
unfoldable pub estimate_book_storage_footprint :
    ℕ → ℕ → BookManagerConfig → ℕ → Option BookStorageFootprint
estimate_book_storage_footprint slot_bytes slot_alignment config system_page_bytes =
    if not (validate_config config) || not (is_power_of_two system_page_bytes)
    then none
    else footprint_of slot_bytes slot_alignment config system_page_bytes

pub record BookCapacityEvidence : Type 0 where
  pub profiled_max_order_reference : ℕ
  pub profiled_unique_price_pages : ℕ

pub record BookCapacityHeadroom : Type 0 where
  pub direct_order_reference_slots : ℕ
  pub price_pages : ℕ

pub record BookCapacityProfile : Type 0 where
  pub name : List ℕ
  pub evidence_sha256 : List ℕ
  pub config : BookManagerConfig
  pub evidence : BookCapacityEvidence
  pub minimum_headroom : BookCapacityHeadroom

abbrev pub is_lower_hex : ℕ → Bool
is_lower_hex c = leb b'0' c && leb c b'9' || leb b'a' c && leb c b'f'

unfoldable pub all_lower_hex : List ℕ → Bool
all_lower_hex [] = true
all_lower_hex (c ∷ cs) = is_lower_hex c && all_lower_hex cs

unfoldable pub is_lower_hex_sha256 : List ℕ → Bool
is_lower_hex_sha256 value = length value == 64 && all_lower_hex value

-- The tests of validateBookCapacityProfile that precede the capacities: do they pass?
unfoldable pub is_named : BookCapacityProfile → Bool
is_named profile =
    validate_config profile.config
    && not (length profile.name == 0)
    && is_lower_hex_sha256 profile.evidence_sha256
    && not (profile.evidence.profiled_max_order_reference == 0)
    && not (profile.evidence.profiled_unique_price_pages == 0)
    && not (profile.minimum_headroom.direct_order_reference_slots == 0)
    && not (profile.minimum_headroom.price_pages == 0)

unfoldable pub validate_book_capacity_profile : BookCapacityProfile → Option BookCapacityHeadroom
validate_book_capacity_profile profile =
    let slots = profile.config.orders.direct_slots in
    let pages = profile.config.prices.page_capacity in
    let evidence = profile.evidence in
    let direct = slots - (evidence.profiled_max_order_reference + 1) in
    let price = pages - evidence.profiled_unique_price_pages in
    if not (is_named profile)
    then none
    else if leb slots evidence.profiled_max_order_reference
    then none
    else if ltb direct profile.minimum_headroom.direct_order_reference_slots
    then none
    else if leb pages evidence.profiled_unique_price_pages
    then none
    else if ltb price profile.minimum_headroom.price_pages
    then none
    else some (record { direct_order_reference_slots = direct; price_pages = price })
