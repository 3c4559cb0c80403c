-- ===== src/Symbols/OneToOne.antt =====
-- include/astra/symbol/StockDirectory.hpp: no two locates share a ticker.
use astra_feed_engine.Prelude.{
  ℕ, ◌+◌, ◌%◌, ◌≡◌, ◌≢◌, inl, inr, sym, ◌∙◌, ap, subst, List, [], ◌∷◌, true, false, ◌==◌, some,
  true-ne-false, bytes_eq, update, arith, Bool-cases,
}
use astra_feed_engine.Symbols.{
  StockDirectoryEntry, StockDirectory, ticker_index_capacity, ticker_view, canonical_entry,
  ticker_hash, initial_directory, is_registered, locate_for_ticker, empty_reverse_slot, set,
}
use astra_feed_engine.Symbols.Index.{Reach, probe_ticker-finds, Reach-update, probe_empty-Reach}
use astra_feed_engine.Symbols.Identity.{
  unchanged, refreshed, registered, set-cases, registered_ne, view_self, view_other,
  registered_other,
}

-- The reverse index finds every registered locate, and tickers are distinct.
pub record IsOneToOne (d : StockDirectory) : Type 0 where
  pub indexed :
      (l : ℕ)
      → is_registered l d ≡ true
      → Reach l d.ticker_index ticker_index_capacity
          (ticker_hash (ticker_view (d.entries l)) % ticker_index_capacity)
  pub distinct :
      (l m : ℕ)
      → is_registered l d ≡ true
      → is_registered m d ≡ true
      → ticker_view (d.entries l) ≡ ticker_view (d.entries m)
      → l ≡ m

-- A locate that is registered after the write was registered before, or is the one written.
registered_before :
    (locate : ℕ) (e : StockDirectoryEntry) (d d' : StockDirectory) (l : ℕ)
    → d'.entries ≡ update d.entries locate (canonical_entry locate e (ticker_view e))
    → l ≢ locate
    → is_registered l d' ≡ true
    → is_registered l d ≡ true
registered_before locate e d d' l w n h = sym (registered_other locate e d d' w l n) ∙ h

-- A ticker that the reverse index finds under no locate is the ticker of no registered locate.
free_ticker :
    (t : List ℕ) (d : StockDirectory) (l : ℕ)
    → IsOneToOne d
    → bytes_eq t [] ≡ false
    → locate_for_ticker t d ≡ 0
    → is_registered l d ≡ true
    → ticker_view (d.entries l) ≢ t
unfolding locate_for_ticker bytes_eq
free_ticker [] d l o ne free h e = true-ne-false ne
free_ticker (c ∷ t) d l o ne free h e =
    probe_ticker-finds l ticker_index_capacity _ (c ∷ t) d (registered_ne l d h) e
      (subst
        (λ u. Reach l d.ticker_index ticker_index_capacity (ticker_hash u % ticker_index_capacity))
        e (o.indexed l h))
      free

registered-IsOneToOne :
    (locate : ℕ) (e : StockDirectoryEntry) (d d' : StockDirectory) (slot : ℕ)
    → IsOneToOne d
    → locate ≢ 0
    → bytes_eq (ticker_view e) [] ≡ false
    → locate_for_ticker (ticker_view e) d ≡ 0
    → empty_reverse_slot (ticker_view e) d ≡ some slot
    → d' ≡ record {
      entries = update d.entries locate (canonical_entry locate e (ticker_view e));
      ticker_index = update d.ticker_index slot locate;
      count = d.count + 1;
    }
    → IsOneToOne d'
unfolding empty_reverse_slot
registered-IsOneToOne locate e d d' slot o nz nonempty free hit w =
    let entries = ap (λ (x : StockDirectory). x.entries) w in
    let index : d'.ticker_index ≡ update d.ticker_index slot locate =
      ap (λ (x : StockDirectory). x.ticker_index) w in
    let (slot_free, reached) =
      probe_empty-Reach ticker_index_capacity (ticker_hash (ticker_view e) % ticker_index_capacity)
        slot locate d nz hit in
    let split = λ (l : ℕ). Bool-cases (l == locate) in
    let clash : (l : ℕ)
        → l ≢ locate
        → is_registered l d' ≡ true
        → ticker_view (d'.entries l) ≢ ticker_view e =
      λ l n h same.
        free_ticker (ticker_view e) d l o nonempty free
          (registered_before locate e d d' l entries n h)
          (sym (view_other locate e d d' entries l n) ∙ same) in
    record {
      indexed = λ l h. rw index (elim (split l) [
        | inl at ↦
            let here : locate ≡ l = ground arith in
            subst
              (λ m.
                Reach m (update d.ticker_index slot locate) ticker_index_capacity
                  (ticker_hash (ticker_view (d'.entries m)) % ticker_index_capacity))
              here (rw (view_self locate e d d' entries) reached)
        | inr off ↦
            let n : l ≢ locate = λ (here : l ≡ locate). ground arith in
            let before = registered_before locate e d d' l entries n h in
            rw (view_other locate e d d' entries l n) (
              Reach-update l ticker_index_capacity _ slot locate d.ticker_index slot_free
                (registered_ne l d before) nz (o.indexed l before))
      ]);
      distinct = λ l m h k same. elim (split l) [
        | inl at ↦ elim (split m) [
          | inl at' ↦ ground arith
          | inr off' ↦
              let n : m ≢ locate = λ (here : m ≡ locate). ground arith in
              let here : locate ≡ l = ground arith in
              absurd (
                clash m n k (
                  sym same
                  ∙ ap (λ x. ticker_view (d'.entries x)) (sym here)
                  ∙ view_self locate e d d' entries))
        ]
        | inr off ↦
            let n : l ≢ locate = λ (here : l ≡ locate). ground arith in
            elim (split m) [
              | inl at' ↦
                  let here : locate ≡ m = ground arith in
                  absurd (
                    clash l n h (
                      same
                      ∙ ap (λ x. ticker_view (d'.entries x)) (sym here)
                      ∙ view_self locate e d d' entries))
              | inr off' ↦
                  let n' : m ≢ locate = λ (here : m ≡ locate). ground arith in
                  o.distinct l m (registered_before locate e d d' l entries n h)
                    (registered_before locate e d d' m entries n' k)
                    (sym (view_other locate e d d' entries l n)
                      ∙ same
                      ∙ view_other locate e d d' entries m n')
            ]
      ];
    }

refreshed-IsOneToOne :
    (locate : ℕ) (e : StockDirectoryEntry) (d d' : StockDirectory)
    → IsOneToOne d
    → is_registered locate d ≡ true
    → ticker_view (d.entries locate) ≡ ticker_view e
    → d' ≡ record d { entries = update d.entries locate (canonical_entry locate e (ticker_view e)) }
    → IsOneToOne d'
refreshed-IsOneToOne locate e d d' o known view w =
    let entries = ap (λ (x : StockDirectory). x.entries) w in
    let index : d'.ticker_index ≡ d.ticker_index = ap (λ (x : StockDirectory). x.ticker_index) w in
    let before : (l : ℕ)
        → is_registered l d' ≡ true
        → (is_registered l d ≡ true) × (ticker_view (d'.entries l) ≡ ticker_view (d.entries l)) =
      λ l h. elim (Bool-cases (l == locate)) [
        | inl at ↦
            let here : locate ≡ l = ground arith in
            subst
              (λ m.
                (is_registered m d ≡ true)
                × (ticker_view (d'.entries m) ≡ ticker_view (d.entries m)))
              here (known, view_self locate e d d' entries ∙ sym view)
        | inr off ↦
            let n : l ≢ locate = λ (here : l ≡ locate). ground arith in
            (registered_before locate e d d' l entries n h, view_other locate e d d' entries l n)
      ] in
    record {
      indexed = λ l h. let (b, v) = before l h in rw index (rw v (o.indexed l b));
      distinct = λ l m h k same.
          let (b, v) = before l h in
          let (b', v') = before m k in o.distinct l m b b' (sym v ∙ same ∙ v');
    }

set-IsOneToOne :
    (locate : ℕ) (e : StockDirectoryEntry) (d : StockDirectory)
    → IsOneToOne d
    → IsOneToOne (set locate e d).1
set-IsOneToOne locate e d o = elim (set-cases locate e d) [
  | unchanged same ↦ rw same o
  | refreshed known view _ w ↦ refreshed-IsOneToOne locate e d _ o known view w
  | registered slot _ nz nonempty free hit w ↦
      registered-IsOneToOne locate e d _ slot o nz nonempty free hit w
]

initial_directory-IsOneToOne : IsOneToOne initial_directory
unfolding initial_directory is_registered
initial_directory-IsOneToOne = record {
  indexed = λ l h. absurd (true-ne-false (ground arith));
  distinct = λ l m h k same. absurd (true-ne-false (ground arith));
}

-- A directory after any calls of `set`, in order, from an empty one.
unfoldable pub set_all : List (ℕ × StockDirectoryEntry) → StockDirectory → StockDirectory
set_all [] d = d
set_all ((locate, e) ∷ calls) d = set_all calls (set locate e d).1

set_all-IsOneToOne :
    (calls : List (ℕ × StockDirectoryEntry)) (d : StockDirectory)
    → IsOneToOne d
    → IsOneToOne (set_all calls d)
unfolding set_all
set_all-IsOneToOne [] d o = o
set_all-IsOneToOne ((locate, e) ∷ calls) d o =
    set_all-IsOneToOne calls _ (set-IsOneToOne locate e d o)

-- After any calls of `set`, two different registered locates have different tickers.
pub set_all-one_to_one :
    (calls : List (ℕ × StockDirectoryEntry)) (l m : ℕ)
    → l ≢ m
    → is_registered l (set_all calls initial_directory) ≡ true
    → is_registered m (set_all calls initial_directory) ≡ true
    → ticker_view ((set_all calls initial_directory).entries l)
      ≢ ticker_view ((set_all calls initial_directory).entries m)
set_all-one_to_one calls l m n h k same = n (
    (set_all-IsOneToOne calls initial_directory initial_directory-IsOneToOne).distinct l m h k same)
