-- ===== src/Store/Utxo/RoundTrip.antt =====
-- The bytes of one output that is not spent.
use mathlib.Core.List.{append_assoc, append-nil}
use elastos_ela_side_chain_t.Base.{
  ◌^◌, ◌≤◌, ◌<◌, ◌≡◌, refl, Bytes, List, [], ◌∷◌, ◌++◌, length, All, ok, ◌>>=◌, sym,
}
use elastos_ela_side_chain_t.Format.{Format, bytes_buffer, write}
use elastos_ela_side_chain_t.Wire.{max_token_value_data_size}
use elastos_ela_side_chain_t.Store.Utxo.{
  Utxo, serialize_utxo, read_value, deserialize_utxo, read_utxos, utxo_bytes, serialize_utxos,
}

-- The fields are in the range of their Go types, and the value fits the limit on its bytes.
pub record FitsUtxo (u : Utxo) : Type 0 where
  pub tx_id : length u.tx_id ≡ 32
  pub index : u.index < 2 ^ 32
  pub asset_id : length u.asset_id ≡ 32
  pub value : length u.value ≤ max_token_value_data_size

module _ (format : Format) where
  pub serialize_utxo-buffer :
      (u : Utxo) (w : Bytes)
      → serialize_utxo format bytes_buffer u w ≡ ok (w ++ utxo_bytes format u)
  unfolding serialize_utxo write utxo_bytes
  serialize_utxo-buffer u w = rw (append_assoc, append_assoc, append_assoc)

  deserialize-utxo_bytes :
      (u : Utxo) (rest : Bytes)
      → FitsUtxo u
      → deserialize_utxo format (utxo_bytes format u ++ rest) ≡ ok (u, rest)
  unfolding deserialize_utxo utxo_bytes read_value
  deserialize-utxo_bytes u rest fits =
      let tail : Bytes = format.uint256_bytes u.asset_id ++ (format.var_bytes u.value ++ rest) in
      rw (
        append_assoc (format.uint256_bytes u.tx_id) _ rest,
        append_assoc (format.uint32_bytes u.index) _ rest,
        append_assoc (format.uint256_bytes u.asset_id) (format.var_bytes u.value) rest,
        format.read_uint256-bytes u.tx_id (format.uint32_bytes u.index ++ tail) fits.tx_id,
        format.read_uint32-bytes u.index tail fits.index,
        format.read_uint256-bytes u.asset_id (format.var_bytes u.value ++ rest) fits.asset_id,
        format.read_var_bytes-bytes max_token_value_data_size u.value rest fits.value,
      )

  -- A UTXO that `Serialize` writes to a buffer is read back by `Deserialize`, with the bytes behind
  -- it left over, if its fields are in range and its value has at most 33 bytes.
  pub deserialize_utxo-serialize_utxo :
      (u : Utxo) (rest : Bytes)
      → FitsUtxo u
      → (do w ← serialize_utxo format bytes_buffer u []; deserialize_utxo format (w ++ rest))
        ≡ ok (u, rest)
  deserialize_utxo-serialize_utxo u rest fits =
      rw (serialize_utxo-buffer u []) (deserialize-utxo_bytes u rest fits)

  unfoldable pub all_bytes : List Utxo → Bytes
  all_bytes [] = []
  all_bytes (u ∷ us) = utxo_bytes format u ++ all_bytes us

  pub serialize_utxos-eq :
      (us : List Utxo) (w : Bytes) → serialize_utxos format us w ≡ w ++ all_bytes us
  unfolding serialize_utxos all_bytes
  serialize_utxos-eq [] w = sym (append-nil w)
  serialize_utxos-eq (u ∷ us) w =
      rw (serialize_utxo-buffer u w, serialize_utxos-eq us (w ++ utxo_bytes format u), append_assoc)

  pub read_utxos-all_bytes :
      (us : List Utxo) (rest : Bytes)
      → All FitsUtxo us
      → read_utxos format (length us) (all_bytes us ++ rest) ≡ ok (us, rest)
  unfolding read_utxos all_bytes
  read_utxos-all_bytes [] rest fits = refl
  read_utxos-all_bytes (u ∷ us) rest (fit, fits) = rw (
    append_assoc (utxo_bytes format u) (all_bytes us) rest,
    deserialize-utxo_bytes u (all_bytes us ++ rest) fit,
    read_utxos-all_bytes us rest fits,
  )
