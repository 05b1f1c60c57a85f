-- ===== src/Store/Listing/Unspents.antt =====
-- What `GetUnspents` returns for an address.
use mathlib.Core.Path.{subst}
use mathlib.Core.List.{append_assoc, append-nil}
use elastos_ela_side_chain_t.Base.{
  ◌^◌, ◌<◌, ◌≡◌, refl, true, Bytes, List, [], ◌∷◌, ◌++◌, length, All, ok, map, if◌then◌else◌,
  bytes_eq, bytes_eq_iff, Bool-cases, inl, inr, sym, >>=-eq-ok, ok-injective,
}
use elastos_ela_side_chain_t.Base.Assoc.{
  bytes_Eq, lookup, insert, lookup-insert, Distinct, Distinct-insert,
}
use elastos_ela_side_chain_t.Types.{Uint256, Uint168}
use elastos_ela_side_chain_t.Format.{Format}
use elastos_ela_side_chain_t.Store.Database.{Database, Layout}
use elastos_ela_side_chain_t.Store.Unspent.{or_empty}
use elastos_ela_side_chain_t.Store.Utxo.{
  read_unspents, Utxo, UtxoKey, ix_unspent_utxo, utxo_key, serialize_utxos,
}
use elastos_ela_side_chain_t.Store.Utxo.RoundTrip.{FitsUtxo}
use elastos_ela_side_chain_t.Store.Utxo.Lists.{read_unspents-All_bytes}
use elastos_ela_side_chain_t.Store.Listing.{or_failed, asset_of_key, gather_unspents, get_unspents}

-- The key and the value that `PersistUnspentWithProgramHash` puts for a list that is not empty.
abbrev pub entry_bytes : Format → UtxoKey × List Utxo → Bytes × Bytes
entry_bytes format (key, us) =
    (utxo_key format key, serialize_utxos format us (format.var_uint_bytes (length us)))

-- The outputs of one asset, over all heights, in the order of the entries.
unfoldable pub of_asset : Uint256 → List (UtxoKey × List Utxo) → List Utxo
of_asset a [] = []
of_asset a (((p, b, height), us) ∷ entries) =
    let rest = of_asset a entries in if bytes_eq b a then us ++ rest else rest

-- The fields are in range, and a slice for the list can be made.
pub record FitsEntry (layout : Layout) (entry : UtxoKey × List Utxo) : Type 0 where
  pub address : length entry.0.0 ≡ 21
  pub asset : length entry.0.1 ≡ 32
  pub few : length entry.1 < 2 ^ 64
  pub slice : layout.makes_slice (length entry.1) ≡ true
  pub fits : All FitsUtxo entry.1

module _ (format : Format) where
  asset_of_key-utxo_key :
      (key : UtxoKey)
      → length key.0 ≡ 21
      → length key.1 ≡ 32
      → asset_of_key format (utxo_key format key) ≡ key.1
  unfolding asset_of_key utxo_key
  asset_of_key-utxo_key (p, a, height) address asset =
      let tail : Bytes = format.uint256_bytes a ++ format.uint32_bytes height in
      let shape : utxo_key format (p, a, height)
          ≡ ix_unspent_utxo ∷ (format.uint168_bytes p ++ tail) =
        rw
          (append_assoc (format.uint168_bytes p) (format.uint256_bytes a)
            (format.uint32_bytes height))
          refl in
      let skip : format.skip_bytes 1 (ix_unspent_utxo ∷ (format.uint168_bytes p ++ tail))
          ≡ format.uint168_bytes p ++ tail =
        format.skip_bytes-append (ix_unspent_utxo ∷ []) (format.uint168_bytes p ++ tail) in
      let first = format.read_uint168-bytes p tail address in
      let second = format.read_uint256-bytes a (format.uint32_bytes height) asset in
      rw (shape, asset_of_key, skip, first, or_failed, second) (unfold or_failed in refl)

  gather_unspents-entries :
      (layout : Layout) (entries : List (UtxoKey × List Utxo)) (m : List (Uint256 × List Utxo))
      → All (FitsEntry layout) entries
      → (m' : List (Uint256 × List Utxo)) × (gather_unspents format layout
            (map (entry_bytes format) entries)
            m
          ≡ ok m')
        × ((a : Uint256) → or_empty (lookup a m') ≡ or_empty (lookup a m) ++ of_asset a entries)
  unfolding gather_unspents of_asset
  gather_unspents-entries layout [] m fits = (m, refl, λ a. sym (append-nil _))
  gather_unspents-entries layout ((key, us) ∷ entries) m (fit, fits) =
      let (p, b, height) = key in
      let n = insert b (or_empty (lookup b m) ++ us) m in
      let (m', e, same) = gather_unspents-entries layout entries n fits in
      (
        m',
        rw
            (
              read_unspents-All_bytes format layout us fit.few fit.slice fit.fits,
              asset_of_key-utxo_key key fit.address fit.asset,
            )
            e,
        λ a.
            rw (same a, lookup-insert b a (or_empty (lookup b m) ++ us) m)
              (elim (Bool-cases (bytes_eq b a)) [
                | inl is ↦
                    rw (is, (bytes_eq_iff b a).0 is, append_assoc (or_empty (lookup a m)) us) refl
                | inr other ↦ rw other refl
              ]),
      )

  gather_unspents-Distinct :
      (layout : Layout) (entries : List (Bytes × Bytes)) (m : List (Uint256 × List Utxo))
      {m' : List (Uint256 × List Utxo)}
      → gather_unspents format layout entries m ≡ ok m'
      → Distinct m
      → Distinct m'
  unfolding gather_unspents
  gather_unspents-Distinct layout [] m e d = subst Distinct (ok-injective e) d
  gather_unspents-Distinct layout ((key, value) ∷ entries) m e d =
      let (us, read, rest) = >>=-eq-ok (read_unspents format layout value) _ e in
      gather_unspents-Distinct layout entries _ rest
        (Distinct-insert (asset_of_key format key) _ m d)

  -- No asset stands twice in the map of `GetUnspents`.
  pub get_unspents-Distinct :
      (layout : Layout) (db : Database) (program_hash : Uint168) {m : List (Uint256 × List Utxo)}
      → get_unspents format layout db program_hash ≡ ok m
      → Distinct m
  unfolding get_unspents
  get_unspents-Distinct layout db program_hash e = gather_unspents-Distinct layout _ [] e tt

  -- Where the iterator returns the entries that were put for an address, `GetUnspents` succeeds, and
  -- its map holds, under each asset, the outputs of all entries of that asset, in their order. The
  -- fields of the entries are in range, and slices for their lists can be made.
  pub get_unspents-entries :
      (layout : Layout) (db : Database) (program_hash : Uint168)
      (entries : List (UtxoKey × List Utxo))
      → db.iterator (ix_unspent_utxo ∷ format.uint168_bytes program_hash)
        ≡ map (entry_bytes format) entries
      → All (FitsEntry layout) entries
      → (m : List (Uint256 × List Utxo)) × (get_unspents format layout db program_hash ≡ ok m)
        × ((a : Uint256) → or_empty (lookup a m) ≡ of_asset a entries)
  unfolding get_unspents
  get_unspents-entries layout db program_hash entries e fits =
      let (m, made, same) = gather_unspents-entries layout entries [] fits in
      (m, rw e made, λ a. unfold lookup in same a)
