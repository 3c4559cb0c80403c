-- ===== src/Symbols/Index.antt =====
-- include/astra/symbol/StockDirectory.hpp: the reverse index. Reach tells that the probing for a
-- ticker gets to a locate, over index entries in use only.
use astra_feed_engine.Prelude.{
  ℕ, zero, suc, ◌+◌, ◌%◌, ◌≡◌, ◌≢◌, ◌⊎◌, inl, inr, refl, ap, List, [], ◌∷◌, false, ◌==◌, some,
  none-ne-some, get_or, bytes_eq, bytes_eq_refl, update, arith, Bool-cases,
}
use astra_feed_engine.Symbols.{
  StockDirectoryEntry, StockDirectory, ticker_index_capacity, c_string, ticker_view,
  canonical_entry, probe_ticker, probe_empty,
}

pub c_string_idempotent : (n : ℕ) (t : List ℕ) → c_string n (c_string n t) ≡ c_string n t
unfolding c_string
c_string_idempotent zero t = refl
c_string_idempotent (suc n) [] = refl
c_string_idempotent (suc n) (c ∷ t) = elim (Bool-cases (c == 0)) [
  | inl z ↦ rw (z, c_string) refl
  | inr nz ↦ rw (nz, c_string) (rw (nz, c_string) (ap (λ r. c ∷ r) (c_string_idempotent n t)))
]

pub ticker_view_canonical :
    (locate : ℕ) (e : StockDirectoryEntry)
    → ticker_view (canonical_entry locate e (ticker_view e)) ≡ ticker_view e
unfolding ticker_view canonical_entry
ticker_view_canonical locate e = c_string_idempotent 8 e.ticker

pub canonical_registered :
    (locate : ℕ) (e : StockDirectoryEntry)
    → bytes_eq (ticker_view e) [] ≡ false
    → (get_or (canonical_entry locate e (ticker_view e)).ticker 0 0 == 0) ≡ false
unfolding ticker_view canonical_entry c_string bytes_eq
canonical_registered locate e h = ground (arith, h)

-- From `slot` on, `n` probes reach an index entry that is `l`, over entries in use only.
pub Reach : ℕ → (ℕ → ℕ) → ℕ → ℕ → Type 0
Reach l index zero slot = ⊥
Reach l index (suc n) slot =
    (index slot ≡ l) ⊎ ((index slot ≢ 0) × Reach l index n ((slot + 1) % ticker_index_capacity))

pub probe_ticker-finds :
    (l n slot : ℕ) (t : List ℕ) (d : StockDirectory)
    → l ≢ 0
    → ticker_view (d.entries l) ≡ t
    → Reach l d.ticker_index n slot
    → probe_ticker n slot t d ≢ 0
unfolding probe_ticker Reach
probe_ticker-finds l zero slot t d h e r = absurd r
probe_ticker-finds l (suc n) slot t d h e r = elim r [
  | inl at ↦ ground (arith, bytes_eq_refl t, at)
  | inr (used, rest) ↦
      ground (arith, used, probe_ticker-finds l n ((slot + 1) % ticker_index_capacity) t d h e rest)
]

pub Reach-update :
    (l n slot at v : ℕ) (index : ℕ → ℕ)
    → index at ≡ 0
    → l ≢ 0
    → v ≢ 0
    → Reach l index n slot
    → Reach l (update index at v) n slot
unfolding Reach
Reach-update l zero slot at v index free h k r = absurd r
Reach-update l (suc n) slot at v index free h k (inl here) = inl (ground arith)
Reach-update l (suc n) slot at v index free h k (inr (used, rest)) = inr (
  (λ (z : update index at v slot ≡ 0). ground arith),
  Reach-update l n ((slot + 1) % ticker_index_capacity) at v index free h k rest,
)

pub probe_empty-Reach :
    (n slot at v : ℕ) (d : StockDirectory)
    → v ≢ 0
    → probe_empty n slot d ≡ some at
    → (d.ticker_index at ≡ 0) × Reach v (update d.ticker_index at v) n slot
unfolding probe_empty Reach
probe_empty-Reach zero slot at v d k e = absurd (none-ne-some e)
probe_empty-Reach (suc n) slot at v d k e = elim (Bool-cases (d.ticker_index slot == 0)) [
  | inl free ↦ let same : slot ≡ at = ground arith in (ground arith, inl (ground arith))
  | inr used ↦
      let (free, rest) =
        probe_empty-Reach n ((slot + 1) % ticker_index_capacity) at v d k (ground arith) in
      (free, inr ((λ (z : update d.ticker_index at v slot ≡ 0). ground arith), rest))
]
