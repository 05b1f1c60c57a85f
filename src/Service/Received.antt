-- ===== src/Service/Received.antt =====
-- `GetReceivedByAddress` of service/service.go. Maps are association lists in the order of insertion.
use mathlib.Core.Option
pub mod Totals
pub mod Entries
pub mod Refused
use elastos_ela_side_chain_t.Base.{
  ℕ, ℤ, pos, negsuc, ◌+ℤ◌, ◌/◌, ◌^◌, wrap_int64, Bytes, List, [], ◌∷◌, Option, none, some,
  if◌then◌else◌, bytes_eq, set_bytes, to_string, set_string, Outcome, ok, err, panic, ◌>>=◌, or_err,
  or_panic,
}
use elastos_ela_side_chain_t.Base.Assoc.{bytes_Eq, lookup, insert}
use elastos_ela_side_chain_t.Types.{Uint256}
use elastos_ela_side_chain_t.Library.{Library}
use elastos_ela_side_chain_t.Format.{Format}
use elastos_ela_side_chain_t.Texts.{Texts}
use elastos_ela_side_chain_t.Store.Database.{StoreError, Database, Layout}
use elastos_ela_side_chain_t.Store.Utxo.{Utxo}
use elastos_ela_side_chain_t.Store.Listing.{get_unspents}
use elastos_ela_side_chain_t.Service.{Params, ServiceError}

-- `elaValue` and `tokenValueList`
pub record Received : Type 0 where
  pub ela_value : ℤ
  pub token_values : List (Uint256 × ℤ)

abbrev pub nothing_received : Received
nothing_received = record { ela_value = pos 0; token_values = [] }

-- `Div` by 10 ^ 18: the quotient that leaves a remainder which is not negative.
unfoldable pub div_tokens : ℤ → ℤ
div_tokens (pos n) = pos (n / 10 ^ 18)
div_tokens (negsuc n) = negsuc (n / 10 ^ 18)

-- The map that `GetUnspents` returns; nil beside an error, which is not looked at.
unfoldable pub unspents_or_nil :
    Outcome StoreError (List (Uint256 × List Utxo))
    → Outcome ServiceError (List (Uint256 × List Utxo))
unspents_or_nil (ok m) = ok m
unspents_or_nil (err _) = ok []
unspents_or_nil panic = panic

module _ (lib : Library) (texts : Texts) where
  -- The body of the inner loop, for an output under the asset `a`.
  unfoldable pub receive_utxo : Uint256 → Received → Utxo → Outcome ServiceError Received
  receive_utxo a r u =
      if bytes_eq a lib.system_asset_id
      then (do
        value ← or_panic (texts.fixed64_from_bytes u.value)
        ok (record r { ela_value = wrap_int64 (r.ela_value +ℤ value) }))
      else ok (record r {
        token_values =
            insert a (Option.get_or (lookup a r.token_values) (pos 0) +ℤ set_bytes u.value)
              r.token_values;
      })

  unfoldable pub receive_utxos : Uint256 → Received → List Utxo → Outcome ServiceError Received
  unfolding receive_utxo
  receive_utxos a r [] = ok r
  receive_utxos a r (u ∷ us) = do r' ← receive_utxo a r u; receive_utxos a r' us

  -- The loops over the map.
  unfoldable pub receive_all : Received → List (Uint256 × List Utxo) → Outcome ServiceError Received
  unfolding receive_utxos
  receive_all r [] = ok r
  receive_all r ((a, us) ∷ m) = do r' ← receive_utxos a r us; receive_all r' m

  -- `valueList`, an entry for each token.
  unfoldable pub list_values :
      List (Uint256 × ℤ) → List (Bytes × Bytes) → Outcome ServiceError (List (Bytes × Bytes))
  unfolding div_tokens
  list_values [] values = ok values
  list_values ((k, v) ∷ tokens) values = do
    reverse ← or_panic (texts.uint256_from_bytes (texts.bytes_reverse k))
    total_value ← or_panic (set_string (to_string v))
    list_values tokens
        (insert (texts.uint256_string reverse) (to_string (div_tokens total_value)) values)

  -- The key of ELA in the result.
  unfoldable pub ela_key : Bytes
  ela_key = texts.bytes_to_hex_string (texts.bytes_reverse lib.system_asset_id)

  -- The whole map, or the entry of one asset; a missing entry reads as an empty string.
  unfoldable pub chosen_values : Option Bytes → List (Bytes × Bytes) → List (Bytes × Bytes)
  chosen_values none values = values
  chosen_values (some asset_id) values = (asset_id, Option.get_or (lookup asset_id values) []) ∷ []

  -- What is made of the unspent outputs.
  unfoldable pub received_values :
      Option Bytes → List (Uint256 × List Utxo) → Outcome ServiceError (List (Bytes × Bytes))
  unfolding receive_all list_values ela_key chosen_values
  received_values asset_id unspents = do
    r ← receive_all nothing_received unspents
    values ← list_values r.token_values ((ela_key, texts.fixed64_string r.ela_value) ∷ [])
    ok (chosen_values asset_id values)

  module _ (format : Format) (layout : Layout) (db : Database) where
    -- `GetReceivedByAddress`
    unfoldable pub get_received_by_address : Params → Outcome ServiceError (List (Bytes × Bytes))
    unfolding received_values unspents_or_nil
    get_received_by_address params = do
      str ← or_err params.address ServiceError.invalid_params
      program_hash ← or_err (texts.uint168_from_address str) ServiceError.invalid_params
      unspents ← unspents_or_nil (get_unspents format layout db program_hash)
      received_values params.assetid unspents
