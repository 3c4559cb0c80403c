-- ===== src/Symbols.antt =====
-- include/astra/symbol/: the directory of tickers, indexed by stock locate, with its reverse index.
-- A ticker field is the list of its bytes, the NULs at its end left out; `x & kTickerIndexMask` is
-- `x % ticker_index_capacity`, since the capacity is 2^17.
pub mod Index
pub mod Identity
pub mod OneToOne
use astra_feed_engine.Prelude.{
  ℕ, zero, suc, ◌+◌, ◌%◌, bit_xor, List, [], ◌∷◌, Bool, true, false, not, ◌&&◌, ◌||◌, Option, none,
  some, ◌==◌, if◌then◌else◌, bytes_eq, update, mul_u64, foldl, get_or,
}

pub record StockDirectoryEntry : Type 0 where
  pub round_lot_size : ℕ
  pub locate : ℕ
  pub ticker : List ℕ
  pub market_category : ℕ
  pub fin_status : ℕ
  pub is_test : Bool
  pub round_lots_only : Bool
  pub issue_classification : ℕ

pub record StockDirectory : Type 0 where
  pub entries : ℕ → StockDirectoryEntry
  pub ticker_index : ℕ → ℕ
  pub count : ℕ

abbrev pub ticker_index_capacity : ℕ
ticker_index_capacity = 131072

abbrev pub is_valid_stock_locate : ℕ → Bool
is_valid_stock_locate locate = not (locate == 0)

-- The bytes of a field before its first NUL, at most n.
unfoldable pub c_string : ℕ → List ℕ → List ℕ
c_string zero bytes = []
c_string (suc n) [] = []
c_string (suc n) (c ∷ bytes) = let rest = c_string n bytes in if c == 0 then [] else c ∷ rest

unfoldable pub ticker_view : StockDirectoryEntry → List ℕ
ticker_view entry = c_string 8 entry.ticker

unfoldable pub canonical_entry : ℕ → StockDirectoryEntry → List ℕ → StockDirectoryEntry
canonical_entry locate entry ticker_value = record entry { ticker = ticker_value; locate = locate }

-- FNV-1a on 64 bits.
unfoldable pub ticker_hash : List ℕ → ℕ
unfolding mul_u64
ticker_hash ticker_value =
    foldl (λ hash byte. mul_u64 (bit_xor hash byte) 1099511628211) 14695981039346656037 ticker_value

unfoldable pub initial_directory : StockDirectory
initial_directory = record {
  entries = λ _. record {
    round_lot_size = 0;
    locate = 0;
    ticker = [];
    market_category = 0;
    fin_status = 0;
    is_test = false;
    round_lots_only = false;
    issue_classification = 0;
  };
  ticker_index = λ _. 0;
  count = 0;
}

unfoldable pub is_registered : ℕ → StockDirectory → Bool
is_registered locate d =
    is_valid_stock_locate locate && not (get_or (d.entries locate).ticker 0 0 == 0)

unfoldable pub get : ℕ → StockDirectory → Option StockDirectoryEntry
get locate d = if is_registered locate d then some (d.entries locate) else none

-- The loop of locateForTicker, with `rounds` probes left.
unfoldable pub probe_ticker : ℕ → ℕ → List ℕ → StockDirectory → ℕ
probe_ticker zero slot ticker_value d = 0
probe_ticker (suc rounds) slot ticker_value d =
    let rest = probe_ticker rounds ((slot + 1) % ticker_index_capacity) ticker_value d in
    let locate = d.ticker_index slot in
    if locate == 0
    then 0
    else if bytes_eq (ticker_view (d.entries locate)) ticker_value
    then locate
    else rest

unfoldable pub locate_for_ticker : List ℕ → StockDirectory → ℕ
locate_for_ticker [] d = 0
locate_for_ticker (c ∷ cs) d =
    probe_ticker ticker_index_capacity (ticker_hash (c ∷ cs) % ticker_index_capacity) (c ∷ cs) d

-- The loop of emptyReverseSlot; none is kTickerIndexCapacity.
unfoldable pub probe_empty : ℕ → ℕ → StockDirectory → Option ℕ
probe_empty zero slot d = none
probe_empty (suc rounds) slot d =
    let rest = probe_empty rounds ((slot + 1) % ticker_index_capacity) d in
    if d.ticker_index slot == 0 then some slot else rest

unfoldable pub empty_reverse_slot : List ℕ → StockDirectory → Option ℕ
empty_reverse_slot ticker_value d =
    probe_empty ticker_index_capacity (ticker_hash ticker_value % ticker_index_capacity) d

-- A locate that has no ticker yet.
unfoldable pub register : ℕ → StockDirectoryEntry → StockDirectory → Bool × StockDirectory
register locate entry d =
    if not (locate_for_ticker (ticker_view entry) d == 0)
    then (false, d)
    else elim (empty_reverse_slot (ticker_view entry) d) [
      | none ↦ (false, d)
      | some slot ↦ (
        true,
        record {
          entries = update d.entries locate (canonical_entry locate entry (ticker_view entry));
          ticker_index = update d.ticker_index slot locate;
          count = d.count + 1;
        },
      )
    ]

unfoldable pub set : ℕ → StockDirectoryEntry → StockDirectory → Bool × StockDirectory
set locate entry d =
    if not (is_valid_stock_locate locate) || bytes_eq (ticker_view entry) []
    then (false, d)
    else if is_registered locate d
    then if bytes_eq (ticker_view (d.entries locate)) (ticker_view entry)
      then (
        true,
        record d {
          entries = update d.entries locate (canonical_entry locate entry (ticker_view entry));
        },
      )
      else (false, d)
    else register locate entry d
