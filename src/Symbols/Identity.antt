-- ===== src/Symbols/Identity.antt =====
-- include/astra/symbol/StockDirectory.hpp, set: what it changes, and that a locate keeps its identity.
use astra_feed_engine.Prelude.{
  ℕ, ◌+◌, ◌≡◌, ◌≢◌, inl, inr, refl, sym, ◌∙◌, ap, subst, [], Bool, true, false, not, ◌&&◌, ◌||◌,
  ◌==◌, some, true-ne-false, get_or, bytes_eq, bytes_eq→eq, update, update_self, update_ne, arith,
  if_elim, Bool-cases, Option-cases,
}
use astra_feed_engine.Symbols.{
  StockDirectoryEntry, StockDirectory, is_valid_stock_locate, ticker_view, canonical_entry,
  is_registered, locate_for_ticker, empty_reverse_slot, register, set,
}
use astra_feed_engine.Symbols.Index.{ticker_view_canonical, canonical_registered}

-- What `set` does to a directory: nothing, a refresh, or a registration.
pub data SetCases (locate : ℕ) (e : StockDirectoryEntry) (d d' : StockDirectory) : Type 0 where
  unchanged : d' ≡ d → SetCases locate e d d'
  refreshed :
      is_registered locate d ≡ true
      → ticker_view (d.entries locate) ≡ ticker_view e
      → bytes_eq (ticker_view e) [] ≡ false
      → d'
        ≡ record d { entries = update d.entries locate (canonical_entry locate e (ticker_view e)) }
      → SetCases locate e d d'
  registered :
      (slot : ℕ)
      → is_registered locate d ≡ false
      → locate ≢ 0
      → bytes_eq (ticker_view e) [] ≡ false
      → locate_for_ticker (ticker_view e) d ≡ 0
      → empty_reverse_slot (ticker_view e) d ≡ some slot
      → d' ≡ record {
        entries = update d.entries locate (canonical_entry locate e (ticker_view e));
        ticker_index = update d.ticker_index slot locate;
        count = d.count + 1;
      }
      → SetCases locate e d d'

pub set-cases :
    (locate : ℕ) (e : StockDirectoryEntry) (d : StockDirectory)
    → SetCases locate e d (set locate e d).1
unfolding set register
set-cases locate e d =
    let S = λ (r : Bool × StockDirectory). SetCases locate e d r.1 in
    if_elim S (not (is_valid_stock_locate locate) || bytes_eq (ticker_view e) [])
      (λ _. unchanged refl)
      λ valid.
        if_elim S (is_registered locate d)
          (λ known.
            if_elim S (bytes_eq (ticker_view (d.entries locate)) (ticker_view e))
              (λ same. refreshed known (bytes_eq→eq _ _ same) (ground arith) refl)
              λ _. unchanged refl)
          λ new.
            if_elim S (not (locate_for_ticker (ticker_view e) d == 0)) (λ _. unchanged refl)
              λ free. elim (Option-cases (empty_reverse_slot (ticker_view e) d)) [
                | inl full ↦ rw (full, set) (unchanged refl)
                | inr (slot, hit) ↦
                    rw (hit, set)
                      (registered slot new (ground arith) (ground arith) (ground arith) hit refl)
              ]

pub registered_ne : (l : ℕ) (d : StockDirectory) → is_registered l d ≡ true → l ≢ 0
unfolding is_registered
registered_ne l d h = ground arith

-- A write of a canonical entry at `locate`, seen through the two readings of an entry.
module _ (locate : ℕ) (e : StockDirectoryEntry) (d d' : StockDirectory)
    (written : d'.entries
      ≡ update d.entries locate (canonical_entry locate e (ticker_view e))) where
  pub view_self : ticker_view (d'.entries locate) ≡ ticker_view e
  view_self = rw written (
      ap ticker_view (update_self d.entries locate (canonical_entry locate e (ticker_view e)))
      ∙ ticker_view_canonical locate e)

  pub view_other : (l : ℕ) → l ≢ locate → ticker_view (d'.entries l) ≡ ticker_view (d.entries l)
  view_other l n =
      rw written
        (ap ticker_view (update_ne d.entries locate (canonical_entry locate e (ticker_view e)) l n))

  pub registered_self :
      locate ≢ 0 → bytes_eq (ticker_view e) [] ≡ false → is_registered locate d' ≡ true
  unfolding is_registered
  registered_self n h =
      let self = update_self d.entries locate (canonical_entry locate e (ticker_view e)) in
      rw written (
        ground (
          arith,
          ap (λ (x : StockDirectoryEntry). get_or x.ticker 0 0) self,
          canonical_registered locate e h,
        ))

  pub registered_other : (l : ℕ) → l ≢ locate → is_registered l d' ≡ is_registered l d
  unfolding is_registered
  registered_other l n =
      let same = update_ne d.entries locate (canonical_entry locate e (ticker_view e)) l n in
      rw written (
        ap (λ (x : StockDirectoryEntry). is_valid_stock_locate l && not (get_or x.ticker 0 0 == 0))
          same)

-- A registered locate stays registered, with the same ticker.
record KeepsIdentity (l : ℕ) (d d' : StockDirectory) : Type 0 where
  stays : is_registered l d' ≡ true
  ticker : ticker_view (d'.entries l) ≡ ticker_view (d.entries l)

SetCases-KeepsIdentity :
    (locate : ℕ) (e : StockDirectoryEntry) (d d' : StockDirectory) (l : ℕ)
    → SetCases locate e d d'
    → is_registered l d ≡ true
    → KeepsIdentity l d d'
SetCases-KeepsIdentity locate e d d' l (unchanged same) h =
    rw same (record { stays = h; ticker = refl })
SetCases-KeepsIdentity locate e d d' l (refreshed known view nonempty w) h =
    let entries = ap (λ (x : StockDirectory). x.entries) w in
    elim (Bool-cases (l == locate)) [
      | inl at ↦
          let here : locate ≡ l = ground arith in
          subst (λ m. KeepsIdentity m d d') here
            (record {
              stays = registered_self locate e d d' entries (registered_ne locate d known) nonempty;
              ticker = view_self locate e d d' entries ∙ sym view;
            })
      | inr off ↦
          let n : l ≢ locate = λ (here : l ≡ locate). ground arith in
          record {
            stays = registered_other locate e d d' entries l n ∙ h;
            ticker = view_other locate e d d' entries l n;
          }
    ]
SetCases-KeepsIdentity locate e d d' l (registered slot new nz nonempty free hit w) h =
    let entries = ap (λ (x : StockDirectory). x.entries) w in
    let n : l ≢ locate =
      λ (here : l ≡ locate). true-ne-false (sym h ∙ ap (λ m. is_registered m d) here ∙ new) in
    record {
      stays = registered_other locate e d d' entries l n ∙ h;
      ticker = view_other locate e d d' entries l n;
    }

-- The identity of a locate is fixed: whatever is set, and whether or not it is accepted, a registered
-- locate stays registered, with the same ticker.
pub set-keeps_identity :
    (locate : ℕ) (e : StockDirectoryEntry) (d : StockDirectory) (l : ℕ)
    → is_registered l d ≡ true
    → (is_registered l (set locate e d).1 ≡ true)
      × (ticker_view ((set locate e d).1.entries l) ≡ ticker_view (d.entries l))
set-keeps_identity locate e d l h =
    let k = SetCases-KeepsIdentity locate e d (set locate e d).1 l (set-cases locate e d) h in
    (k.stays, k.ticker)
