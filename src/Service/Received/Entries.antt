-- ===== src/Service/Received/Entries.antt =====
-- What `GetReceivedByAddress` adds up over the entries of the store.
use elastos_ela_side_chain_t.Base.{
  ℤ, pos, ◌≡◌, refl, List, [], ◌∷◌, none, some, true, false, bytes_eq, bytes_eq_iff, ok, All, arith,
  Bool-cases, map, ◌>>=◌, ◌∙◌, inl, inr,
}
use elastos_ela_side_chain_t.Base.Assoc.{bytes_Eq, lookup, Distinct}
use elastos_ela_side_chain_t.Types.{Uint256, Uint168}
use elastos_ela_side_chain_t.Library.{Library}
use elastos_ela_side_chain_t.Format.{Format}
use elastos_ela_side_chain_t.Texts.{Texts}
use elastos_ela_side_chain_t.Store.Database.{Database, Layout}
use elastos_ela_side_chain_t.Store.Utxo.{Utxo, UtxoKey, ix_unspent_utxo}
use elastos_ela_side_chain_t.Store.Listing.{get_unspents}
use elastos_ela_side_chain_t.Store.Unspent.{or_empty}
use elastos_ela_side_chain_t.Store.Listing.Unspents.{
  entry_bytes, of_asset, FitsEntry, get_unspents-entries, get_unspents-Distinct,
}
use elastos_ela_side_chain_t.Service.Received.{
  Received, nothing_received, receive_all, unspents_or_nil,
}
use elastos_ela_side_chain_t.Service.Received.Totals.{
  sum_of, total_of, IsDecodable, token_value, receive_all-totals,
}

module _ (lib : Library) (texts : Texts) where
  -- What stands in a map without a repetition is what is looked up.
  total_of-lookup :
      (a : Uint256) (m : List (Uint256 × List Utxo))
      → Distinct m
      → total_of a m ≡ sum_of (or_empty (lookup a m))
  unfolding total_of sum_of lookup
  total_of-lookup a [] d = refl
  total_of-lookup a ((b, us) ∷ m) d = elim (Bool-cases (bytes_eq b a)) [
    | inl is ↦
        let gone : lookup a m ≡ none = rw ((bytes_eq_iff b a).0 is) at d.0 in
        let rest : total_of a m ≡ 0 = total_of-lookup a m d.1 ∙ rw gone refl in
        rw is (omega (arith, rest))
    | inr other ↦ rw other (total_of-lookup a m d.1)
  ]

  -- The amount of an entry is not nil.
  abbrev pub IsAmount : Utxo → Type 0
  IsAmount u = (v : ℤ) × (texts.fixed64_from_bytes u.value ≡ some v)

  IsDecodable-lookup :
      (m : List (Uint256 × List Utxo))
      → Distinct m
      → ((a : Uint256)
          → bytes_eq a lib.system_asset_id ≡ true
          → All IsAmount (or_empty (lookup a m)))
      → All (IsDecodable lib texts) m
  unfolding lookup
  IsDecodable-lookup [] d known = tt
  IsDecodable-lookup ((b, us) ∷ m) d known = (
    λ is. let same : bytes_eq b b ≡ true = (bytes_eq_iff b b).1 refl in rw same at (known b is),
    IsDecodable-lookup m d.1 (λ a is. below a is),
  )
    where
      below :
          (a : Uint256)
          → bytes_eq a lib.system_asset_id ≡ true
          → All IsAmount (or_empty (lookup a m))
      below a is = elim (Bool-cases (bytes_eq b a)) [
        | inl same ↦
            let gone : lookup a m ≡ none = rw ((bytes_eq_iff b a).0 same) at d.0 in rw gone tt
        | inr other ↦ rw other at (known a is)
      ]

  module _ (format : Format) (layout : Layout) where
    -- Over the entries that the store put for an address, the loops of `GetReceivedByAddress` end
    -- well and add up, for each token asset, the magnitudes of all amounts in the entries of that
    -- asset. The iterator returns the entries, their fields are in range, slices for their lists can
    -- be made, and no amount of ELA in them is nil.
    pub received_entries :
        (db : Database) (program_hash : Uint168) (entries : List (UtxoKey × List Utxo))
        → db.iterator (ix_unspent_utxo ∷ format.uint168_bytes program_hash)
          ≡ map (entry_bytes format) entries
        → All (FitsEntry layout) entries
        → All IsAmount (of_asset lib.system_asset_id entries)
        → (r : Received) × ((do
          m ← unspents_or_nil (get_unspents format layout db program_hash)
          receive_all lib texts nothing_received m)
            ≡ ok r)
          × ((a : Uint256)
              → bytes_eq a lib.system_asset_id ≡ false
              → token_value lib texts r a ≡ pos (sum_of (of_asset a entries)))
    unfolding unspents_or_nil
    received_entries db program_hash entries iterated fits known =
        let (m, listed, holds) =
          get_unspents-entries format layout db program_hash entries iterated fits in
        let distinct = get_unspents-Distinct format layout db program_hash listed in
        let decodable =
          IsDecodable-lookup m distinct
            (λ a is. rw (holds a, (bytes_eq_iff a lib.system_asset_id).0 is) known) in
        let (r, e, sums) = receive_all-totals lib texts m decodable in
        (r, rw listed e, λ a other. rw (sums a other, total_of-lookup a m distinct, holds a) refl)
