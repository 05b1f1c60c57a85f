-- ===== src/Service/Payloads.antt =====
-- `GetPayloadInfo` of service/service.go.
pub mod Lengths
use elastos_ela_side_chain_t.Base.{
  ℕ, ℤ, suc, ◌≡◌, Bytes, List, [], ◌∷◌, Option, none, some, if◌then◌else◌, ◌==◌, to_string, Outcome,
  ok, ◌>>=◌, panic,
}
use elastos_ela_side_chain_t.Types.{
  Asset, Payload, coin_base_data, registration, transfer, record_data, recharge, cross_chain,
  unknown, PayloadTransferCrossChainAsset, PayloadRechargeToSideChain,
}
use elastos_ela_side_chain_t.Texts.{Texts}
use elastos_ela_side_chain_t.Service.{ServiceError}

-- `CrossChainAssetInfo`
pub record CrossChainAssetInfo : Type 0 where
  pub cross_chain_address : Bytes
  pub output_index : ℕ
  pub cross_chain_amount : Bytes

-- The types of `service.PayloadInfo` that the code makes.
pub data PayloadInfo : Type 0 where
  coinbase_info : Bytes → PayloadInfo
  register_asset_info : Asset → Bytes → Bytes → PayloadInfo
  transfer_cross_chain_asset_info : List CrossChainAssetInfo → PayloadInfo
  recharge_to_side_chain_info_v0 : Bytes → Bytes → PayloadInfo
  recharge_to_side_chain_info_v1 : Bytes → PayloadInfo

-- The payload versions are constants of the library: `RechargeToSideChainPayloadVersion0` and `1`.
pub record PayloadVersions : Type 0 where
  pub recharge_version0 : ℕ
  pub recharge_version1 : ℕ

module _ (texts : Texts) (versions : PayloadVersions) where
  -- The loop over the addresses: the other two lists are indexed without a check.
  unfoldable pub cross_chain_infos :
      List Bytes → List ℕ → List ℤ → Outcome ServiceError (List CrossChainAssetInfo)
  cross_chain_infos [] indexes amounts = ok []
  cross_chain_infos (a ∷ addresses) [] amounts = panic
  cross_chain_infos (a ∷ addresses) (i ∷ indexes) [] = panic
  cross_chain_infos (a ∷ addresses) (i ∷ indexes) (v ∷ amounts) = do
    rest ← cross_chain_infos addresses indexes amounts
    ok (
        record {
          cross_chain_address = a;
          output_index = i;
          cross_chain_amount = texts.fixed64_string v;
        }
        ∷ rest)

  unfoldable pub recharge_info : PayloadRechargeToSideChain → ℕ → Option PayloadInfo
  recharge_info p version =
      if version == versions.recharge_version0
      then some (
          recharge_to_side_chain_info_v0 (texts.bytes_to_hex_string p.main_chain_transaction)
            (texts.bytes_to_hex_string p.merkle_proof))
      else if version == versions.recharge_version1
      then some
          (recharge_to_side_chain_info_v1 (texts.to_reversed_string p.main_chain_transaction_hash))
      else none

  -- `GetPayloadInfo`; `none` is nil.
  unfoldable pub get_payload_info : Payload → ℕ → Outcome ServiceError (Option PayloadInfo)
  unfolding cross_chain_infos recharge_info
  get_payload_info (coin_base_data d) version = ok (some (coinbase_info d))
  get_payload_info (registration p) version = ok (
      some (
        register_asset_info p.asset (to_string p.amount)
          (texts.bytes_to_hex_string (texts.bytes_reverse p.controller))))
  get_payload_info (cross_chain p) version = do
    infos ← cross_chain_infos p.cross_chain_addresses p.output_indexes p.cross_chain_amounts
    ok (some (transfer_cross_chain_asset_info infos))
  get_payload_info transfer version = ok none
  get_payload_info record_data version = ok none
  get_payload_info (recharge p) version = ok (recharge_info p version)
  get_payload_info unknown version = ok none
