-- ===== src/Book/PriceLevelStore/Depths.antt =====
-- src/book/PriceLevelStore.cpp: the store as a plain map from stock locate, side and price to a level,
-- and what the writes of a level do to it.
use astra_feed_engine.Prelude.{
  ℕ, ◌+◌, ◌-◌, ◌*◌, ◌/◌, ◌%◌, ◌^◌, ◌≤◌, ◌<◌, ◌≡◌, inl, inr, sym, ◌∙◌, ap, Bool, true, false, ◌&&◌,
  ◌==◌, if◌then◌else◌, arith, Bool-cases, if_true, if_false,
}
use astra_feed_engine.Book.{OrderSide, is_valid_side, side_index}
use astra_feed_engine.Book.PriceLevelStore.{PriceLevelState, PageOwner, PriceLevelStore, join_price}
use astra_feed_engine.Book.PriceLevelStore.Levels.{write_level}
use astra_feed_engine.Book.PriceLevelStore.Soundness.{
  IsSound, level_of, root_of, same_side, write_level-level_of,
}
use astra_feed_engine.Book.PriceLevelStore.Frames.{level_of-pages}
use astra_feed_engine.Book.PriceLevelStore.Best.{level_at}

-- The abstract books of all stock locates.
abbrev pub Depths : Type 0
Depths = ℕ → OrderSide → ℕ → PriceLevelState

abbrev pub depths : PriceLevelStore → Depths
depths s stock_locate side raw_price = level_at stock_locate side raw_price s

-- Is a price the one of the level i of a page with this owner?
abbrev pub is_here : PageOwner → ℕ → OrderSide → ℕ → OrderSide → ℕ → Bool
is_here o i side l side' raw =
    l == o.stock_locate && side_index side' == side_index side && raw == join_price o.page_index i

-- The level of one price changes.
abbrev pub put : PageOwner → ℕ → OrderSide → (PriceLevelState → PriceLevelState) → Depths → Depths
put o i side f d l side' raw =
    if is_here o i side l side' raw then f (d l side' raw) else d l side' raw

-- An order of `qty` shares comes, or goes, or shares of an order go. Nothing wraps.
abbrev pub more : ℕ → PriceLevelState → PriceLevelState
more qty level = record { total_qty = level.total_qty + qty; order_count = level.order_count + 1 }

abbrev pub fewer : ℕ → PriceLevelState → PriceLevelState
fewer qty level = record { total_qty = level.total_qty - qty; order_count = level.order_count - 1 }

abbrev pub shrunk_by : ℕ → PriceLevelState → PriceLevelState
shrunk_by qty level = record { total_qty = level.total_qty - qty; order_count = level.order_count }

module _ (s : PriceLevelStore) (sound : IsSound s) (h i : ℕ) (side : OrderSide)
    (v : is_valid_side side ≡ true) (pos : 0 < h) (used : h ≤ s.committed_pages) (low : i < 65536)
    (l : ℕ) (side' : OrderSide) (v' : is_valid_side side' ≡ true) (raw : ℕ)
    (raw_low : raw < 2 ^ 32) where
  abbrev o : PageOwner
  o = s.page_owners h

  abbrev r : ℕ
  r = root_of l (raw / 65536) s

  root_here : l ≡ o.stock_locate → raw / 65536 ≡ o.page_index → r ≡ h
  root_here e f =
      ap (λ x. root_of x (raw / 65536) s) e
      ∙ (ap (λ p. root_of o.stock_locate p s) f ∙ (sound.owned h pos used).root)

  root_there : r ≡ h → (l ≡ o.stock_locate) × (raw / 65536 ≡ o.page_index)
  root_there e =
      let (_, a, b) =
        sound.rooted l (raw / 65536) (omega (arith, raw_low)) (omega (arith, e, pos)) in
      (
        sym a ∙ ap (λ x. (s.page_owners x).stock_locate) e,
        sym b ∙ ap (λ x. (s.page_owners x).page_index) e,
      )

  here_root : is_here o i side l side' raw ≡ true → r ≡ h
  here_root e = root_here (ground (arith, e)) (ground (arith, e, low))

  pub here_level :
      is_here o i side l side' raw ≡ true → level_at l side' raw s ≡ level_of h side i s
  unfolding level_at
  here_level e =
      let at = here_root e in
      let q : side' ≡ side = same_side side' side v' v (ground (arith, e)) in
      let j : raw % 65536 ≡ i = ground (arith, e, low) in
      ground (arith, at, pos)
      ∙ (ap (λ x. level_of r x (raw % 65536) s) q
          ∙ (ap (λ x. level_of r side x s) j ∙ ap (λ x. level_of x side i s) at))

  same_place :
      0 < r
      → (r - 1 == h - 1 && side_index side' == side_index side && raw % 65536 == i)
        ≡ is_here o i side l side' raw
  same_place r_pos = elim (Bool-cases (r == h)) [
    | inl same ↦ let (a, b) = root_there (ground (arith, same)) in ground (arith, same, a, b, low)
    | inr other ↦
        let away : is_here o i side l side' raw ≡ false =
          elim (Bool-cases (is_here o i side l side' raw)) [
            | inl e ↦ let at = here_root e in ground (arith, at, other)
            | inr e ↦ e
          ] in
        ground (arith, away, other, r_pos, pos)
  ]

  -- A store with the same roots, and the pages of the write.
  pub written-level_at :
      (level : PriceLevelState) (s' : PriceLevelStore)
      → s'.pages ≡ (write_level (record { page_handle = h; level_index = i }) side level s).pages
      → s'.roots ≡ s.roots
      → level_at l side' raw s'
        ≡ (if is_here o i side l side' raw then level else level_at l side' raw s)
  unfolding level_at
  written-level_at level s' e f =
      let w = write_level (record { page_handle = h; level_index = i }) side level s in
      let same_root : root_of l (raw / 65536) s' ≡ r =
        ap (λ (x : ℕ → ℕ). x (l * 65536 + raw / 65536)) f in
      elim (Bool-cases (r == 0)) [
        | inl no_page ↦
            let away : is_here o i side l side' raw ≡ false =
              elim (Bool-cases (is_here o i side l side' raw)) [
                | inl here ↦ let at = here_root here in ground (arith, at, no_page, pos)
                | inr there ↦ there
              ] in
            ground (arith, away, same_root, no_page)
        | inr some_page ↦
            let r_pos : 0 < r = ground (arith, some_page) in
            let now : level_of (root_of l (raw / 65536) s') side' (raw % 65536) s' ≡ (
                if is_here o i side l side' raw then level else level_of r side' (raw % 65536) s) =
              ap (λ x. level_of x side' (raw % 65536) s') same_root
              ∙ (level_of-pages w s' e r side' (raw % 65536)
                  ∙ (write_level-level_of h i side level s r (raw % 65536) side' v v'
                      ∙ ap (λ b. if b then level else level_of r side' (raw % 65536) s)
                          (same_place r_pos))) in
            ground (arith, now, same_root, some_page)
      ]

  -- In terms of the abstract books.
  pub written-put :
      (f : PriceLevelState → PriceLevelState) (level : PriceLevelState) (s' : PriceLevelStore)
      → s'.pages ≡ (write_level (record { page_handle = h; level_index = i }) side level s).pages
      → s'.roots ≡ s.roots
      → level ≡ f (level_of h side i s)
      → level_at l side' raw s' ≡ put o i side f (depths s) l side' raw
  written-put f level s' e g q =
      written-level_at level s' e g ∙ (elim (Bool-cases (is_here o i side l side' raw)) [
        | inl here ↦
            if_true level _ here
            ∙ (q
                ∙ (ap f (sym (here_level here))
                    ∙ sym (if_true (f (level_at l side' raw s)) _ here)))
        | inr there ↦ if_false level _ there ∙ sym (if_false (f (level_at l side' raw s)) _ there)
      ])
