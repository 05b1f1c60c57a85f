-- ===== src/Bloom.antt =====
-- bloom/txfilter.go: a transaction filter that may hold no bloom filter yet. The bloom filter itself
-- is the library's, a parameter of the model.
pub mod Loaded
use elastos_ela_side_chain_t.Base.{
  ◌≡◌, Bytes, Bool, true, false, Option, none, some, if◌then◌else◌, Outcome, ok, err, ◌>>=◌,
}
use elastos_ela_side_chain_t.Types.{Transaction}
use elastos_ela_side_chain_t.Library.{Library}

-- `bloom.Filter`: a filter that is loaded stays so.
pub record BloomFilters (Filter : Type 0) : Type 0 where
  -- `FilterLoad.Deserialize` and `LoadFilter`; `none` is an error
  pub load_filter : Bytes → Option Filter
  pub is_loaded : Filter → Bool
  pub load_filter_loaded : (b : Bytes) (f : Filter) → load_filter b ≡ some f → is_loaded f ≡ true
  pub add : Filter → Bytes → Filter
  pub add_loaded : (f : Filter) (b : Bytes) → is_loaded f ≡ true → is_loaded (add f b) ≡ true
  -- `MatchTxAndUpdate`, and what it does on a nil filter
  pub match_tx_and_update : Filter → Transaction → Bool × Filter
  pub match_loaded :
      (f : Filter) (tx : Transaction)
      → is_loaded f ≡ true
      → is_loaded (match_tx_and_update f tx).1 ≡ true
  pub match_nil : Transaction → Outcome (Unit {0}) Bool

pub data FilterError : Type 0 where
  bad_filter not_loaded : FilterError

module _ {Filter : Type 0} (lib : Library) (filters : BloomFilters Filter) where
  unfoldable pub load_found :
      Option Filter → Option Filter → Outcome FilterError (Unit {0}) × Option Filter
  load_found none f = (err bad_filter, f)
  load_found (some g) f = (ok tt, some g)

  -- `Load`: the result, and the filter that is left.
  unfoldable pub load : Bytes → Option Filter → Outcome FilterError (Unit {0}) × Option Filter
  unfolding load_found
  load filter f = load_found (filters.load_filter filter) f

  -- `Add`
  unfoldable pub add : Bytes → Option Filter → Outcome FilterError (Unit {0}) × Option Filter
  add filter none = (err not_loaded, none)
  add filter (some f) =
      if filters.is_loaded f then (ok tt, some (filters.add f filter)) else (err not_loaded, some f)

  -- `f.filter.MatchTxAndUpdate(tx)`
  unfoldable pub match_filter :
      Transaction → Option Filter → Outcome (Unit {0}) (Bool × Option Filter)
  match_filter tx none = do matched ← filters.match_nil tx; ok (matched, none)
  match_filter tx (some f) =
      let (matched, f') = filters.match_tx_and_update f tx in ok (matched, some f')

  -- `Match`: the answer, and the filter that is left.
  unfoldable pub match : Transaction → Option Filter → Outcome (Unit {0}) (Bool × Option Filter)
  unfolding match_filter
  match tx f = if lib.is_register_asset_tx tx then ok (true, f) else match_filter tx f

-- `NewTxFilter`
abbrev pub new_tx_filter : {Filter : Type 0} → Option Filter
new_tx_filter = none
