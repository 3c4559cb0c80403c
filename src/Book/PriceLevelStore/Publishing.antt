-- ===== src/Book/PriceLevelStore/Publishing.antt =====
-- src/book/PriceLevelStore.cpp, commitReservation: a new page keeps the store sound.
use astra_feed_engine.Prelude.{
  ℕ, ◌+◌, ◌/◌, ◌%◌, ◌^◌, ◌≤◌, ◌<◌, ◌≡◌, ◌≢◌, ◌⊎◌, inl, inr, sym, ◌∙◌, ap, subst, Bool, true, false,
  not, ◌&&◌, ◌==◌, ==_refl, leb, if◌then◌else◌, arith, if_true, if_false, Bool-cases,
}
use astra_feed_engine.Symbols.{is_valid_stock_locate}
use astra_feed_engine.Book.{OrderSide, is_applied, is_valid_side}
use astra_feed_engine.Book.PriceLevelStore.{
  PageOwner, PriceLevelStore, PricePageReservation, price_root_index, publish_page,
  commit_reservation,
}
use astra_feed_engine.Book.PriceLevelStore.Levels.{level_unchecked}
use astra_feed_engine.Book.PriceLevelStore.Additions.{page_summary, book_summary}
use astra_feed_engine.Book.PriceLevelStore.Soundness.{
  IsSound, IsOwned, IsSummed, IsRanked-cong, has_levels, root_of,
}

module _ (s : PriceLevelStore) (sound : IsSound s) (r : PricePageReservation)
    (next_page : r.address.page_handle ≡ s.committed_pages + 1)
    (room : r.address.page_handle ≤ s.config.page_capacity)
    (no_root : root_of r.stock_locate r.page_index s ≡ 0) (low : r.page_index < 65536)
    (locate_pos : 0 < r.stock_locate) where
  abbrev h : ℕ
  h = r.address.page_handle

  abbrev s' : PriceLevelStore
  s' = publish_page r s

  pub root_new :
      (l p : ℕ)
      → p < 65536
      → root_of l p s' ≡ (if l == r.stock_locate && p == r.page_index then h else root_of l p s)
  root_new l p k = ground (arith, low)

  owner_old : (g : ℕ) → g ≤ s.committed_pages → s'.page_owners g ≡ s.page_owners g
  owner_old g k = let n = next_page in ground (arith, n)

  -- A new page has no level, so no book changes.
  levels_kept :
      (l : ℕ) (side : OrderSide)
      → is_valid_side side ≡ true
      → (p : ℕ) → p < 65536
      → has_levels l side s' p ≡ has_levels l side s p
  levels_kept l side v p k = elim (Bool-cases (l == r.stock_locate && p == r.page_index)) [
    | inl here ↦
        let e : root_of l p s' ≡ h = root_new l p k ∙ if_true _ _ here in
        let a : l ≡ r.stock_locate = ground arith in
        let b : p ≡ r.page_index = ground arith in
        let f : root_of l p s ≡ 0 =
          ap (λ x. root_of x p s) a ∙ (ap (λ x. root_of r.stock_locate x s) b ∙ no_root) in
        let idle = sound.unused h side v (omega (arith, next_page)) in
        let new_off : has_levels l side s' p ≡ false =
          ap (λ x. not (x == 0) && not ((page_summary x side s).active_levels == 0)) e
          ∙ ground (arith, idle) in
        new_off ∙ sym (ap (λ x. not (x == 0) && not ((page_summary x side s).active_levels == 0)) f)
    | inr other ↦
        ap (λ x. not (x == 0) && not ((page_summary x side s).active_levels == 0))
          (root_new l p k ∙ if_false _ _ other)
  ]

  published-IsSummed : (l : ℕ) (side : OrderSide) → is_valid_side side ≡ true → IsSummed l side s'
  published-IsSummed l side v =
      let b = sound.summed l side v in
      let raw = (book_summary l side s).best_raw_price in
      record {
        ranked = IsRanked-cong b.ranked (levels_kept l side v);
        levels = b.levels;
        shows = λ p k. b.shows p k ∙ sym (levels_kept l side v p k);
        best_handle = λ some_page.
            let k = b.ranked.best_low some_page in
            let at = b.best_handle some_page in
            let set = b.ranked.best_on some_page in
            let z = no_root in
            at
            ∙ sym (
                root_new l (raw / 65536) k
                ∙ elim (Bool-cases (l == r.stock_locate && raw / 65536 == r.page_index)) [
                  | inl here ↦
                      let a : l ≡ r.stock_locate = ground arith in
                      let c : raw / 65536 ≡ r.page_index = ground arith in
                      let f : root_of l (raw / 65536) s ≡ 0 =
                        ap (λ x. root_of x (raw / 65536) s) a
                        ∙ (ap (λ x. root_of r.stock_locate x s) c ∙ no_root) in
                      ground (arith, f, set)
                  | inr other ↦ if_false _ _ other
                ]);
        best_level = b.best_level;
      }

  published-IsOwned : (g : ℕ) → 0 < g → g ≤ h → IsOwned g s'
  published-IsOwned g g_pos k = elim (Bool-cases (g == h)) [
    | inl new ↦
        let e : h ≡ g = ground arith in
        let own : s'.page_owners h
            ≡ record { stock_locate = r.stock_locate; page_index = r.page_index; committed = 1 } =
          if_true _ _ (==_refl h) in
        subst (λ x. IsOwned x s') e
          (record {
            root =
                ap (λ (x : PageOwner). root_of x.stock_locate x.page_index s') own
                ∙ if_true _ _ (==_refl (price_root_index r.stock_locate r.page_index));
            committed = λ z. one_ne (sym (ap (λ (x : PageOwner). x.committed) own) ∙ z);
            index_low = subst (λ (x : PageOwner). x.page_index < 65536) (sym own) low;
            locate_pos = subst (λ (x : PageOwner). 0 < x.stock_locate) (sym own) locate_pos;
          })
    | inr old ↦
        let inside : g ≤ s.committed_pages = ground (arith, old, k, next_page) in
        let o = sound.owned g g_pos inside in
        let e = owner_old g inside in
        let z = no_root in
        record {
          root =
              ap (λ (x : PageOwner). root_of x.stock_locate x.page_index s') e
              ∙ (root_new (s.page_owners g).stock_locate (s.page_owners g).page_index o.index_low
                  ∙ elim (Bool-cases (
                      (s.page_owners g).stock_locate == r.stock_locate
                      && (s.page_owners g).page_index == r.page_index)) [
                        | inl clash ↦
                            let a : (s.page_owners g).stock_locate ≡ r.stock_locate =
                              ground arith in
                            let c : (s.page_owners g).page_index ≡ r.page_index = ground arith in
                            absurd (
                              no_page g_pos (
                                sym o.root
                                ∙ (ap (λ x. root_of x (s.page_owners g).page_index s) a
                                    ∙ (ap (λ x. root_of r.stock_locate x s) c ∙ no_root))))
                        | inr other ↦ if_false _ _ other ∙ o.root
                      ]);
          committed = λ y. o.committed (sym (ap (λ (x : PageOwner). x.committed) e) ∙ y);
          index_low = subst (λ (x : PageOwner). x.page_index < 65536) (sym e) o.index_low;
          locate_pos = subst (λ (x : PageOwner). 0 < x.stock_locate) (sym e) o.locate_pos;
        }
  ]
    where
      one_ne : ◌≡◌ {A = ℕ} 1 0 → ⊥
      one_ne e = omega arith

      no_page : {g : ℕ} → 0 < g → g ≡ 0 → ⊥
      no_page a b = omega arith

  published_rooted :
      (l p : ℕ)
      → p < 65536
      → root_of l p s' ≢ 0
      → (root_of l p s' ≤ h)
        × ((s'.page_owners (root_of l p s')).stock_locate ≡ l)
        × ((s'.page_owners (root_of l p s')).page_index ≡ p)
  published_rooted l p k ne = elim (Bool-cases (l == r.stock_locate && p == r.page_index)) [
    | inl here ↦
        let e : root_of l p s' ≡ h = root_new l p k ∙ if_true _ _ here in
        let own : s'.page_owners h
            ≡ record { stock_locate = r.stock_locate; page_index = r.page_index; committed = 1 } =
          if_true _ _ (==_refl h) in
        let owner_eq = ap s'.page_owners e ∙ own in
        (
          omega (arith, e),
          ap (λ (x : PageOwner). x.stock_locate) owner_eq ∙ ground arith,
          ap (λ (x : PageOwner). x.page_index) owner_eq ∙ ground arith,
        )
    | inr other ↦
        let e : root_of l p s' ≡ root_of l p s = root_new l p k ∙ if_false _ _ other in
        let (inside, a, b) = sound.rooted l p k (λ z. ne (e ∙ z)) in
        let owner_eq = ap s'.page_owners e ∙ owner_old (root_of l p s) inside in
        (
          omega (arith, e, inside, next_page),
          ap (λ (x : PageOwner). x.stock_locate) owner_eq ∙ a,
          ap (λ (x : PageOwner). x.page_index) owner_eq ∙ b,
        )
  ]

  pub publish_page-IsSound : IsSound s'
  unfolding level_unchecked
  publish_page-IsSound = record {
    filled = sound.filled;
    tracked = sound.tracked;
    summed = published-IsSummed;
    rooted = published_rooted;
    owned = published-IsOwned;
    unused = λ g side v far. sound.unused g side v (omega (arith, next_page));
    fresh = λ g far.
        let away : (g == h) ≡ false = ground arith in
        ap (λ (x : PageOwner). x.committed) (if_false _ _ away)
        ∙ sound.fresh g (omega (arith, next_page));
    room = room;
    capacity_low = sound.capacity_low;
  }

-- A new page is committed.
abbrev pub is_new_page : PricePageReservation → PriceLevelStore → Bool
is_new_page r s =
    is_applied r.result
    && is_valid_stock_locate r.stock_locate
    && r.requires_commit
    && root_of r.stock_locate r.page_index s == 0
    && r.address.page_handle == (s.committed_pages + 1) % 2 ^ 32
    && leb r.address.page_handle s.config.page_capacity

pub commit_reservation-store :
    (s : PriceLevelStore) (r : PricePageReservation)
    → ((commit_reservation r s).1 ≡ s)
      ⊎ ((is_new_page r s ≡ true) × ((commit_reservation r s).1 ≡ publish_page r s))
unfolding commit_reservation
commit_reservation-store s r =
    elim (Bool-cases (is_applied (commit_reservation r s).0 && r.requires_commit)) [
      | inl done ↦ inr (ground (arith, done), ground (arith, done))
      | inr refused ↦ inl (ground (arith, refused))
    ]

-- commitReservation keeps the store sound, whatever the reservation.
pub commit_reservation-IsSound :
    (s : PriceLevelStore) (r : PricePageReservation)
    → IsSound s
    → r.page_index < 65536
    → IsSound (commit_reservation r s).1
commit_reservation-IsSound s r sound low = elim (commit_reservation-store s r) [
  | inl same_store ↦ subst IsSound (sym same_store) sound
  | inr (new, published) ↦
      let cap = sound.capacity_low in
      let room = sound.room in
      subst IsSound (sym published) (
        publish_page-IsSound s sound r (ground (arith, new, cap, room)) (ground (arith, new))
          (ground (arith, new)) low (ground (arith, new)))
]
