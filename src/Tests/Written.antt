-- ===== src/Tests/Written.antt =====
-- Witnesses: the theorems on the encodings, on sample outputs and assets.
use elastos_ela_side_chain_t.Base.{
  pos, negsuc, ◌^◌, ◌≡◌, ◌≢◌, refl, [], ◌∷◌, ◌++◌, true, not, ◌==◌, ok, err, ◌>>=◌, replicate,
  bytes_eq, bytes_eq_iff, arith,
}
use elastos_ela_side_chain_t.Types.{Output}
use elastos_ela_side_chain_t.Format.{Writer, bytes_buffer, read_failed, write}
use elastos_ela_side_chain_t.Wire.{serialize_output, deserialize_output, output_amount_bytes}
use elastos_ela_side_chain_t.Wire.RoundTrip.{
  Fits, read_back, deserialize-serialize, deserialize-serialize_wide,
}
use elastos_ela_side_chain_t.Store.Database.{Batch, Op, committed}
use elastos_ela_side_chain_t.Store.Utxo.{
  Utxo, UtxoKey, persist_unspent_with_program_hash, get_unspent_element_from_program_hash,
}
use elastos_ela_side_chain_t.Store.Utxo.RoundTrip.{FitsUtxo}
use elastos_ela_side_chain_t.Store.Utxo.Lists.{found_utxos, get_unspent_element-persist}
use elastos_ela_side_chain_t.Store.Assets.{
  AssetInfo, serialize_asset_info, persist_asset, get_asset, buffer_after, asset_key,
}
use elastos_ela_side_chain_t.Store.Assets.Stored.{get_asset-persist_asset}
use elastos_ela_side_chain_t.Tests.Samples.{
  sample_library, sample_format, sample_layout, sample_store_library, sample_database, sample_asset,
  sample_asset_reads, address, ela_id, token_id, ela_output, token_output,
}

abbrev debt : Output
debt = token_output address (negsuc 4)

debt-Fits : Fits sample_library sample_format debt
debt-Fits = record {
  asset_id = refl;
  value = (omega arith, omega arith);
  token_value = omega arith;
  output_lock = omega arith;
  program_hash = refl;
}

-- A token amount of -5 comes back as 5.
deserialize-serialize_example :
    (do
      w ← serialize_output sample_library sample_format bytes_buffer debt []
      deserialize_output sample_library sample_format (ela_output [] (pos 0)) (w ++ (8 ∷ [])))
    ≡ ok (read_back sample_library sample_format (ela_output [] (pos 0)) debt, 8 ∷ [])
deserialize-serialize_example =
    deserialize-serialize sample_library sample_format (ela_output [] (pos 0)) debt (8 ∷ [])
      debt-Fits

token_is_no_system_asset : token_id ≢ sample_library.system_asset_id
token_is_no_system_asset e = ground (arith, bytes_eq_iff token_id ela_id)

abbrev wide : Output
wide = token_output address (pos (256 ^ 33))

deserialize-serialize_wide_example :
    (do
      w ← serialize_output sample_library sample_format bytes_buffer wide []
      deserialize_output sample_library sample_format (ela_output [] (pos 0)) (w ++ []))
    ≡ err read_failed
deserialize-serialize_wide_example =
    deserialize-serialize_wide sample_library sample_format (ela_output [] (pos 0)) wide [] refl
      token_is_no_system_asset (omega arith)

-- A writer that refuses exactly what begins with the byte 9 of the lock.
abbrev refuses_nine : Writer
refuses_nine w [] = true
refuses_nine w (b ∷ _) = not (b == 9)

abbrev locked : Output
locked = record {
  asset_id = ela_id;
  value = pos 3;
  token_value = pos 0;
  output_lock = 9;
  program_hash = address;
}

amount_is_accepted :
    refuses_nine ([] ++ ela_id) (output_amount_bytes sample_library sample_format locked) ≡ true
unfolding output_amount_bytes bytes_eq
amount_is_accepted = refl

abbrev sample_utxo : Utxo
sample_utxo = record { tx_id = replicate 32 7; index = 1; asset_id = token_id; value = 1 ∷ 0 ∷ [] }

sample_utxo-FitsUtxo : FitsUtxo sample_utxo
sample_utxo-FitsUtxo = record {
  tx_id = refl;
  index = omega arith;
  asset_id = refl;
  value = omega arith;
}

abbrev sample_key : UtxoKey
sample_key = (address, token_id, 12)

get_unspent_element-persist_example :
    get_unspent_element_from_program_hash sample_format sample_layout
      (committed sample_database (
        [] ++ (persist_unspent_with_program_hash sample_format sample_key (sample_utxo ∷ []) ∷ [])))
      sample_key
    ≡ found_utxos (sample_utxo ∷ [])
get_unspent_element-persist_example =
    get_unspent_element-persist sample_format sample_layout sample_database [] sample_key
      (sample_utxo ∷ []) (omega arith) refl (sample_utxo-FitsUtxo, tt)

abbrev sample_info : AssetInfo
sample_info = record { asset = sample_asset; height = 12 }

abbrev registered : Batch
registered = Op.put (192 ∷ replicate 32 3) (3 ∷ 84 ∷ 79 ∷ 75 ∷ 12 ∷ 0 ∷ 0 ∷ 0 ∷ []) ∷ []

sample_info_persists :
    persist_asset sample_library sample_format sample_layout sample_store_library sample_info
    ≡ ok registered
unfolding persist_asset buffer_after serialize_asset_info write asset_key bytes_eq
sample_info_persists = refl

get_asset-persist_asset_example :
    get_asset sample_library sample_format sample_layout sample_store_library
      (committed sample_database ([] ++ registered))
      (replicate 32 3)
    ≡ ok sample_info
get_asset-persist_asset_example =
    get_asset-persist_asset sample_library sample_format sample_layout sample_store_library
      sample_database [] sample_info sample_asset_reads (omega arith) sample_info_persists
