-- ===== src/Store/Utxo.antt =====
-- `utxo` of blockchain/chainstore.go: its bytes, and the lists of them that the store holds for an
-- address, an asset and a height.
pub mod RoundTrip
pub mod Lists
use elastos_ela_side_chain_t.Base.{
  ℕ, zero, suc, ◌+◌, ◌%◌, ◌^◌, ◌≡◌, refl, ◌↔◌, Bytes, List, [], ◌∷◌, ◌++◌, Bool, true, false,
  Option, none, some, ◌&&◌, ◌==◌, ==_iff, if◌then◌else◌, bytes_eq, bytes_eq_iff, big_bytes, length,
  Outcome, ok, err, panic, ◌>>=◌, or_err, get_elem?, arith, ap,
}
use elastos_ela_side_chain_t.Base.Assoc.{Eq}
use elastos_ela_side_chain_t.Types.{Uint256, Uint168, Output}
use elastos_ela_side_chain_t.Library.{Library}
use elastos_ela_side_chain_t.Format.{Format, WireError, Writer, bytes_buffer, write, or_eof}
use elastos_ela_side_chain_t.Store.Database.{StoreError, Database, Layout, Op, Batch}
use elastos_ela_side_chain_t.Wire.{max_token_value_data_size}

pub record Utxo : Type 0 where
  pub tx_id : Uint256
  pub index : ℕ
  pub asset_id : Uint256
  pub value : Bytes

-- The three keys of the nested maps: address, asset, height.
abbrev pub UtxoKey : Type 0
UtxoKey = Uint168 × Uint256 × ℕ

-- `IX_Unspent_UTXO`
abbrev pub ix_unspent_utxo : ℕ
ix_unspent_utxo = 145

-- `output.Value.Bytes()` or `output.TokenValue.Bytes()`
unfoldable pub value_bytes : Library → Format → Output → Bytes
value_bytes lib format o =
    if lib.is_equal o.asset_id lib.system_asset_id
    then format.fixed64_bytes o.value
    else big_bytes o.token_value

-- A buffer `w` after a write whose error is not looked at.
abbrev pub written_to : Outcome WireError Bytes → Bytes → Bytes
written_to (ok w') w = w'
written_to (err _) w = w
written_to panic w = w

module _ (format : Format) where
  -- `utxo.Serialize`
  unfoldable pub serialize_utxo : Writer → Utxo → Bytes → Outcome WireError Bytes
  serialize_utxo accepts u w = do
    w1 ← write accepts (format.uint256_bytes u.tx_id) w
    w2 ← write accepts (format.uint32_bytes u.index) w1
    w3 ← write accepts (format.uint256_bytes u.asset_id) w2
    write accepts (format.var_bytes u.value) w3

  -- The last step of `utxo.Deserialize`: an error of `ReadVarBytes` is answered by nil.
  unfoldable pub read_value : Option (Bytes × Bytes) → Bytes → Bytes × Bytes
  read_value none r = format.failed_var_bytes max_token_value_data_size r
  read_value (some found) r = found

  -- `utxo.Deserialize`
  unfoldable pub deserialize_utxo : Bytes → Outcome WireError (Utxo × Bytes)
  deserialize_utxo r = do
    (tx_id, r1) ← or_eof (format.read_uint256 r)
    (index, r2) ← or_eof (format.read_uint32 r1)
    (asset_id, r3) ← or_eof (format.read_uint256 r2)
    let (value, r4) = read_value (format.read_var_bytes max_token_value_data_size r3) r3
    ok (record { tx_id = tx_id; index = index; asset_id = asset_id; value = value }, r4)

  -- The loop that reads `n` of them.
  unfoldable pub read_utxos : ℕ → Bytes → Outcome WireError (List Utxo × Bytes)
  unfolding deserialize_utxo
  read_utxos zero r = ok ([], r)
  read_utxos (suc n) r = do
    (u, r1) ← deserialize_utxo r
    (us, r2) ← read_utxos n r1
    ok (u ∷ us, r2)

  -- What `Serialize` puts into a buffer.
  unfoldable pub utxo_bytes : Utxo → Bytes
  utxo_bytes u =
      format.uint256_bytes u.tx_id
      ++ (format.uint32_bytes u.index
          ++ (format.uint256_bytes u.asset_id ++ format.var_bytes u.value))

  -- The bytes of a key.
  unfoldable pub utxo_key : UtxoKey → Bytes
  utxo_key (program_hash, asset_id, height) =
      ix_unspent_utxo ∷ format.uint168_bytes program_hash
      ++ format.uint256_bytes asset_id
      ++ format.uint32_bytes height

  -- What the loop of `Serialize` calls leaves in the buffer `w`. Their errors are not looked at; on a
  -- buffer there are none.
  unfoldable pub serialize_utxos : List Utxo → Bytes → Bytes
  serialize_utxos [] w = w
  serialize_utxos (u ∷ us) w = serialize_utxos us (written_to (serialize_utxo bytes_buffer u w) w)

  -- `PersistUnspentWithProgramHash`: the operation that it adds to the batch.
  unfoldable pub persist_unspent_with_program_hash : UtxoKey → List Utxo → Op
  persist_unspent_with_program_hash key [] = Op.delete (utxo_key key)
  persist_unspent_with_program_hash key (u ∷ us) =
      Op.put (utxo_key key) (serialize_utxos (u ∷ us) (format.var_uint_bytes (length (u ∷ us))))

  from_wire {ℓ} : {A : Type ℓ} → Outcome WireError A → Outcome StoreError A
  from_wire (ok a) = ok a
  from_wire (err _) = err StoreError.read_error
  from_wire panic = panic

  -- `make([]*utxo, listNum)` and the loop
  unfoldable pub read_unspents : Layout → Bytes → Outcome StoreError (List Utxo)
  unfolding read_utxos from_wire
  read_unspents layout unspents_data = do
    (n, r) ← or_err (format.read_var_uint unspents_data) StoreError.read_error
    (if layout.makes_slice n then (do (us, _) ← from_wire (read_utxos n r); ok us) else panic)

  -- `GetUnspentElementFromProgramHash`
  unfoldable pub get_unspent_element_from_program_hash :
      Layout → Database → UtxoKey → Outcome StoreError (List Utxo)
  unfolding read_unspents
  get_unspent_element_from_program_hash layout db key = do
    unspents_data ← or_err (db.get (utxo_key key)) StoreError.not_found
    read_unspents layout unspents_data
