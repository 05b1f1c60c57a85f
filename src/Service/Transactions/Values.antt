-- ===== src/Service/Transactions/Values.antt =====
-- The amount of tokens that `GetTransactionInfo` shows, against that of `ListUnspent`.
use elastos_ela_side_chain_t.Base.{
  ℕ, pos, ◌/◌, ◌%◌, ◌^◌, ◌<◌, ◌≡◌, ◌≢◌, sym, ◌∙◌, Bytes, ◌∷◌, ◌++◌, some, false, ok, arith,
  parse_digits, to_string,
}
use elastos_ela_side_chain_t.Base.Decimal.Prefix.{parse_digits-decimal}
use elastos_ela_side_chain_t.Types.{Uint256, Output}
use elastos_ela_side_chain_t.Library.{Library}
use elastos_ela_side_chain_t.Format.{Format}
use elastos_ela_side_chain_t.Texts.{Texts}
use elastos_ela_side_chain_t.Store.UtxoSet.{utxo_of}
use elastos_ela_side_chain_t.Store.Amount.{value_string}
use elastos_ela_side_chain_t.Store.Amount.Value.{value_string-utxo_of}
use elastos_ela_side_chain_t.Service.Received.{div_tokens}
use elastos_ela_side_chain_t.Service.Transactions.{output_value}

module _ (lib : Library) (format : Format) (texts : Texts) where
  -- For an output of a positive amount of tokens, `GetTransactionInfo` shows the whole tokens that
  -- `ListUnspent` shows before the point, and drops what stands behind it.
  pub output_value-value_string :
      (h : Uint256) (i : ℕ) (o : Output) (n : ℕ)
      → o.asset_id ≢ lib.system_asset_id
      → o.token_value ≡ pos n
      → 0 < n
      → (whole fraction : Bytes) × (value_string lib texts (utxo_of lib format h i o)
          ≡ ok (whole ++ (b'.' ∷ fraction)))
        × (parse_digits (output_value lib texts o) ≡ parse_digits whole)
        × (parse_digits fraction ≡ some (n % 10 ^ 18))
  unfolding output_value to_string div_tokens
  output_value-value_string h i o n other amount positive =
      let (s, e, spells) = value_string-utxo_of lib format texts h i o other (rw amount positive) in
      let no_ela : lib.is_equal o.asset_id lib.system_asset_id ≡ false =
        ground (arith, lib.is_equal_iff o.asset_id lib.system_asset_id) in
      (
        spells.whole,
        spells.fraction,
        rw (← spells.text) e,
        rw (no_ela, amount)
            (parse_digits-decimal (n / 10 ^ 18) ∙ sym (rw amount at spells.whole_value)),
        rw amount at spells.fraction_value,
      )
