-- ===== src/Store/Amount.antt =====
-- `ValueString` of blockchain/chainstore.go: the amount of an unspent output as a text.
pub mod Value
use elastos_ela_side_chain_t.Base.{
  ℕ, suc, ◌-◌, ◌≡◌, refl, Bytes, List, [], ◌∷◌, ◌++◌, if◌then◌else◌, bytes_eq, leb, length, take,
  drop, replicate, set_bytes, to_string, Outcome, ok, ◌>>=◌, or_panic, digits, decimal,
}
use elastos_ela_side_chain_t.Library.{Library}
use elastos_ela_side_chain_t.Texts.{Texts}
use elastos_ela_side_chain_t.Store.Database.{StoreError}
use elastos_ela_side_chain_t.Store.Utxo.{Utxo}

abbrev pub max_precision : ℕ
max_precision = 18

-- A text of digits with a point before the last 18 of them.
unfoldable pub with_point : Bytes → Bytes
with_point total =
    if bytes_eq total (b'0' ∷ [])
    then total
    else if leb (suc max_precision) (length total)
    then take (length total - max_precision) total
      ++ (b'.' ∷ drop (length total - max_precision) total)
    else b'0' ∷ b'.' ∷ (replicate (max_precision - length total) b'0' ++ total)

-- `ValueString`: an amount of ELA that `Fixed64FromBytes` leaves nil panics.
unfoldable pub value_string : Library → Texts → Utxo → Outcome StoreError Bytes
unfolding with_point
value_string lib texts u =
    if bytes_eq u.asset_id lib.system_asset_id
    then (do number ← or_panic (texts.fixed64_from_bytes u.value); ok (texts.fixed64_string number))
    else ok (with_point (to_string (set_bytes u.value)))
