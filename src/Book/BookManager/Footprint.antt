-- ===== src/Book/BookManager/Footprint.antt =====
-- src/book/BookManager.cpp: the planned storage holds every arena, and an accepted profile leaves room.
use native.Mathlib.Nat.{lt-div-mul-add, div-add-mod', mul_assoc}
use astra_feed_engine.Prelude.{
  ℕ, ◌+◌, ◌*◌, ◌-◌, ◌/◌, ◌%◌, ◌≤◌, ◌<◌, ◌≡◌, inl, inr, refl, sym, subst, ◌∙◌, ap, List, [], ◌∷◌,
  Option, none, some, ◌==◌, arith, Bool-cases, some_eq,
}
use astra_feed_engine.Book.BookManager.{BookManagerConfig, max_stock_locate}
use astra_feed_engine.Book.BookManager.Capacity.{
  ◌>>=◌, size_max, is_power_of_two, checked_add, checked_multiply, round_up, mapped_bytes, raised,
  map_arenas, sum_from, arenas, BookStorageFootprint, estimate_book_storage_footprint, footprint_of,
  hot_arena_alignment, BookCapacityProfile, BookCapacityHeadroom, validate_book_capacity_profile,
}

-- A mapping of `bytes` holds the logical bytes, in whole pages of the system.
pub record IsRounded (logical_bytes page_bytes bytes : ℕ) : Type 0 where
  pub pages : ℕ
  pub whole : bytes ≡ pages * page_bytes
  pub holds : logical_bytes ≤ bytes

>>=-some :
    {A B : Type 0} (m : Option A) (f : A → Option B) {b : B}
    → (m >>= f) ≡ some b
    → (a : A) × (m ≡ some a) × (f a ≡ some b)
>>=-some none f h = cc
>>=-some (some a) f h = (a, refl, h)

checked_add-eq :
    (a b : ℕ) {c : ℕ} → b ≤ size_max → checked_add a b ≡ some c → (c ≡ a + b) × (c ≤ size_max)
unfolding checked_add
checked_add-eq a b h e = ground arith

checked_multiply-eq : (a b : ℕ) {c : ℕ} → checked_multiply a b ≡ some c → c ≡ a * b
unfolding checked_multiply
checked_multiply-eq a b e = ground arith

round_up-IsRounded :
    (n a : ℕ) {b : ℕ}
    → 0 < a
    → round_up n a ≡ some b
    → (q : ℕ) × (b ≡ q * a) × (n ≤ b) × (b ≤ size_max)
unfolding round_up
round_up-IsRounded n a {b} pos e = elim (Bool-cases (n == 0)) [
  | inl zero_bytes ↦ (0, ground arith, ground arith, ground arith)
  | inr some_bytes ↦
      let q = (n + a - 1) / a in
      let up : n + a - 1 < q * a + a = lt-div-mul-add pos in
      let e' : b ≡ q * a = ground arith in (q, e', omega (arith, up, e'), ground (arith, e'))
]

pub mapped_bytes-IsRounded :
    (count bytes element requested page : ℕ) {b : ℕ}
    → 0 < page
    → mapped_bytes count bytes element requested page ≡ some b
    → IsRounded (count * bytes) page b × (b ≤ size_max)
unfolding mapped_bytes is_power_of_two
mapped_bytes-IsRounded count bytes element requested page {b} pos e =
    let alignment = raised requested element page in
    let (n, p, r) = >>=-some (checked_multiply count bytes) _ e in
    let rest : round_up n alignment ≡ some b = ground arith in
    let some_bytes : 0 < alignment = ground arith in
    let whole : alignment % page ≡ 0 = ground arith in
    let (q, w, h, small) = round_up-IsRounded n alignment some_bytes rest in
    let m = alignment / page in
    let am : alignment ≡ m * page = omega (arith, div-add-mod' alignment page, whole) in
    (
      record {
        pages = q * m;
        whole = w ∙ (ap (λ x. q * x) am ∙ sym (mul_assoc q m page));
        holds = omega (arith, h, checked_multiply-eq count bytes p);
      },
      small,
    )

-- Each mapping is rounded up from its arena.
abbrev pub AllRounded : ℕ → List (ℕ × ℕ × ℕ × ℕ) → List ℕ → Type 0
AllRounded page [] [] = Unit
AllRounded page ((count, bytes, _, _) ∷ rest) (b ∷ bs) =
    (IsRounded (count * bytes) page b × (b ≤ size_max)) × AllRounded page rest bs
AllRounded page _ _ = ⊥

abbrev pub sum : List ℕ → ℕ
sum [] = 0
sum (b ∷ bs) = b + sum bs

map_arenas-AllRounded :
    (list : List (ℕ × ℕ × ℕ × ℕ)) (page : ℕ) {bs : List ℕ}
    → 0 < page
    → map_arenas list page ≡ some bs
    → AllRounded page list bs
unfolding map_arenas
map_arenas-AllRounded [] page pos e = subst (AllRounded page []) (some_eq e) tt
map_arenas-AllRounded ((count, bytes, element, requested) ∷ rest) page {bs} pos e =
    let (b, p, r) = >>=-some (mapped_bytes count bytes element requested page) _ e in
    let (others, q, s) = >>=-some (map_arenas rest page) _ r in
    let here = mapped_bytes-IsRounded count bytes element requested page pos p in
    let there = map_arenas-AllRounded rest page pos q in
    subst (AllRounded page ((count, bytes, element, requested) ∷ rest)) (some_eq s) (here, there)

sum_from-eq :
    (total : ℕ) (bs : List ℕ) (page : ℕ) (list : List (ℕ × ℕ × ℕ × ℕ)) {c : ℕ}
    → AllRounded page list bs
    → total ≤ size_max
    → sum_from total bs ≡ some c
    → (c ≡ total + sum bs) × (c ≤ size_max)
unfolding sum_from
sum_from-eq total [] page list r h e = ground (arith, some_eq e)
sum_from-eq total (b ∷ bs) page [] r h e = absurd r
sum_from-eq total (b ∷ bs) page ((count, bytes, _, _) ∷ rest) ((_, small), rs) h e =
    let (s, p, q) = >>=-some (checked_add total b) _ e in
    let (s_eq, s_small) = checked_add-eq total b small p in
    let (eq, le) = sum_from-eq s bs page rest rs s_small q in (omega arith, le)

footprint_of-IsPlanned :
    (slot_bytes slot_alignment : ℕ) (config : BookManagerConfig) (page : ℕ)
    {f : BookStorageFootprint}
    → 0 < page
    → footprint_of slot_bytes slot_alignment config page ≡ some f
    → AllRounded page (arenas config) f.arena_mapped_bytes
      × IsRounded (max_stock_locate * slot_bytes) page f.descriptor_mapped_bytes
      × (f.planned_storage_bytes ≡ sum f.arena_mapped_bytes + f.descriptor_mapped_bytes)
      × (f.planned_storage_bytes ≤ size_max)
unfolding footprint_of
footprint_of-IsPlanned slot_bytes slot_alignment config page {f} pos e =
    let (bs, a, r) = >>=-some (map_arenas (arenas config) page) _ e in
    let (mapped, b, r2) = >>=-some (sum_from 0 bs) _ r in
    let (slots, c, r3) = >>=-some (checked_multiply max_stock_locate slot_bytes) _ r2 in
    let (descriptors, d, r4) =
      >>=-some (mapped_bytes max_stock_locate slot_bytes slot_alignment hot_arena_alignment page) _
        r3 in
    let (planned, g, last) = >>=-some (checked_add mapped descriptors) _ r4 in
    let rounded = map_arenas-AllRounded (arenas config) page pos a in
    let (sum_eq, _) = sum_from-eq 0 bs page (arenas config) rounded (omega arith) b in
    let (own, small) =
      mapped_bytes-IsRounded max_stock_locate slot_bytes slot_alignment hot_arena_alignment page pos
        d in
    let (planned_eq, fits) = checked_add-eq mapped descriptors small g in
    subst
      (λ (x : BookStorageFootprint).
        AllRounded page (arenas config) x.arena_mapped_bytes
        × IsRounded (max_stock_locate * slot_bytes) page x.descriptor_mapped_bytes
        × (x.planned_storage_bytes ≡ sum x.arena_mapped_bytes + x.descriptor_mapped_bytes)
        × (x.planned_storage_bytes ≤ size_max))
      (some_eq last) (rounded, own, omega arith, fits)

-- The footprint of the storage is right: when the estimate does not throw, every mapping is a whole
-- number of the system's pages and holds the bytes of its arena, the mapping of the descriptors holds
-- the descriptors, and the planned storage is the exact sum of all mappings, without overflow of a
-- size_t.
pub estimate-IsPlanned :
    (slot_bytes slot_alignment : ℕ) (config : BookManagerConfig) (page : ℕ)
    {f : BookStorageFootprint}
    → estimate_book_storage_footprint slot_bytes slot_alignment config page ≡ some f
    → AllRounded page (arenas config) f.arena_mapped_bytes
      × IsRounded (max_stock_locate * slot_bytes) page f.descriptor_mapped_bytes
      × (f.planned_storage_bytes ≡ sum f.arena_mapped_bytes + f.descriptor_mapped_bytes)
      × (f.planned_storage_bytes ≤ size_max)
unfolding estimate_book_storage_footprint is_power_of_two
estimate-IsPlanned slot_bytes slot_alignment config page {f} e =
    footprint_of-IsPlanned slot_bytes slot_alignment config page {f = f} (ground arith)
      (ground arith)

-- An accepted profile leaves the room it asks for: the highest profiled order reference and as many
-- references above it as the profile wants are all direct slots, and so are the profiled pages with
-- the wanted reserve within the page arena. The headroom it reports is exactly what is left.
pub validate_book_capacity_profile-room :
    (p : BookCapacityProfile) {h : BookCapacityHeadroom}
    → validate_book_capacity_profile p ≡ some h
    → (p.evidence.profiled_max_order_reference + p.minimum_headroom.direct_order_reference_slots
        < p.config.orders.direct_slots)
      × (p.evidence.profiled_unique_price_pages + p.minimum_headroom.price_pages
          ≤ p.config.prices.page_capacity)
      × (p.evidence.profiled_max_order_reference + 1 + h.direct_order_reference_slots
          ≡ p.config.orders.direct_slots)
      × (p.evidence.profiled_unique_price_pages + h.price_pages ≡ p.config.prices.page_capacity)
unfolding validate_book_capacity_profile
validate_book_capacity_profile-room p e = ground arith
