-- ===== src/Store/Utxo/Lists.antt =====
-- What the store holds under a key once a list of outputs has been put there.
use mathlib.Core.List.{append-nil}
use elastos_ela_side_chain_t.Base.{
  ◌^◌, ◌<◌, ◌≡◌, true, List, [], ◌∷◌, ◌++◌, length, All, Outcome, ok, err, bytes_eq, bytes_eq_iff,
  arith,
}
use elastos_ela_side_chain_t.Format.{Format}
use elastos_ela_side_chain_t.Store.Database.{
  StoreError, Database, Layout, Batch, commit, commit-append, committed,
}
use elastos_ela_side_chain_t.Store.Utxo.{
  Utxo, UtxoKey, utxo_key, serialize_utxos, read_utxos, read_unspents,
  persist_unspent_with_program_hash, get_unspent_element_from_program_hash,
}
use elastos_ela_side_chain_t.Store.Utxo.RoundTrip.{
  FitsUtxo, all_bytes, serialize_utxos-eq, read_utxos-all_bytes,
}

-- A stored list: none is a missing key.
abbrev pub found_utxos : List Utxo → Outcome StoreError (List Utxo)
found_utxos [] = err StoreError.not_found
found_utxos (u ∷ us) = ok (u ∷ us)

module _ (format : Format) (layout : Layout) where
  pub read_unspents-All_bytes :
      (us : List Utxo)
      → length us < 2 ^ 64
      → layout.makes_slice (length us) ≡ true
      → All FitsUtxo us
      → read_unspents format layout (serialize_utxos format us (format.var_uint_bytes (length us)))
        ≡ ok us
  unfolding read_unspents
  read_unspents-All_bytes us few slice fits =
      let read : read_utxos format (length us) (all_bytes format us) ≡ ok (us, []) =
        rw (append-nil (all_bytes format us)) at (read_utxos-all_bytes format us [] fits) in
      rw (
        serialize_utxos-eq format us (format.var_uint_bytes (length us)),
        format.read_var_uint-bytes (length us) (all_bytes format us) few,
        slice,
        read,
      )

  -- After a batch that ends in `PersistUnspentWithProgramHash`, reading the same key finds the list
  -- that was written, or no entry where the list was empty. The list has less than 2 ^ 64 elements
  -- and a slice of that many can be made, and every element is in range.
  pub get_unspent_element-persist :
      (db : Database) (batch : Batch) (key : UtxoKey) (us : List Utxo)
      → length us < 2 ^ 64
      → layout.makes_slice (length us) ≡ true
      → All FitsUtxo us
      → get_unspent_element_from_program_hash format layout
          (committed db (batch ++ (persist_unspent_with_program_hash format key us ∷ [])))
          key
        ≡ found_utxos us
  unfolding get_unspent_element_from_program_hash committed commit persist_unspent_with_program_hash
  get_unspent_element-persist db batch key [] few slice fits =
      rw (commit-append batch _ db.get (utxo_key format key), same)
    where
      same : bytes_eq (utxo_key format key) (utxo_key format key) ≡ true
      same = ground (arith, bytes_eq_iff (utxo_key format key) (utxo_key format key))
  get_unspent_element-persist db batch key (u ∷ us) few slice fits = rw (
    commit-append batch _ db.get (utxo_key format key),
    same,
    read_unspents-All_bytes (u ∷ us) few slice fits,
  )
    where
      same : bytes_eq (utxo_key format key) (utxo_key format key) ≡ true
      same = ground (arith, bytes_eq_iff (utxo_key format key) (utxo_key format key))
