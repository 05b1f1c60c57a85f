-- ===== src/Service/Payloads/Lengths.antt =====
-- When `GetPayloadInfo` panics.
use elastos_ela_side_chain_t.Base.{
  ℕ, ℤ, ◌≤◌, ◌≡◌, ◌≢◌, ◌↔◌, refl, Bytes, List, [], ◌∷◌, length, Outcome, ok, err, panic, ◌>>=◌,
  arith,
}
use elastos_ela_side_chain_t.Types.{cross_chain, PayloadTransferCrossChainAsset}
use elastos_ela_side_chain_t.Texts.{Texts}
use elastos_ela_side_chain_t.Service.{ServiceError}
use elastos_ela_side_chain_t.Service.Payloads.{PayloadVersions, cross_chain_infos, get_payload_info}

-- What only wraps a result panics where the result does.
only_panic :
    {A B : Type 0} (r : Outcome ServiceError A) (g : A → B)
    → (r >>= λ a. ok (g a)) ≡ panic
    → r ≡ panic
only_panic (ok a) g e = absurd (cc)
only_panic (err x) g e = absurd (cc)
only_panic panic g e = refl

module _ (texts : Texts) (versions : PayloadVersions) where
  cross_chain_infos_iff :
      (addresses : List Bytes) (indexes : List ℕ) (amounts : List ℤ)
      → (cross_chain_infos texts versions addresses indexes amounts ≢ panic)
        ↔ ((length addresses ≤ length indexes) × (length addresses ≤ length amounts))
  unfolding cross_chain_infos
  cross_chain_infos_iff [] indexes amounts = (λ h. (omega arith, omega arith), λ h e. cc)
  cross_chain_infos_iff (a ∷ addresses) [] amounts =
      (λ h. absurd (h refl), λ h. absurd (omega (arith, h.0)))
  cross_chain_infos_iff (a ∷ addresses) (i ∷ indexes) [] =
      (λ h. absurd (h refl), λ h. absurd (omega (arith, h.1)))
  cross_chain_infos_iff (a ∷ addresses) (i ∷ indexes) (v ∷ amounts) =
      let ih = cross_chain_infos_iff addresses indexes amounts in
      (
        λ h.
            let short = ih.0 (λ e. h (rw e refl)) in
            (omega (arith, short.0), omega (arith, short.1)),
        λ h e. ih.1 (omega (arith, h.0), omega (arith, h.1)) (only_panic _ _ e),
      )

  -- `GetPayloadInfo` on a cross chain transfer does not panic exactly if there are at least as many
  -- output indexes and as many amounts as addresses.
  pub get_payload_info_iff :
      (p : PayloadTransferCrossChainAsset) (version : ℕ)
      → (get_payload_info texts versions (cross_chain p) version ≢ panic) ↔ (
          (length p.cross_chain_addresses ≤ length p.output_indexes)
          × (length p.cross_chain_addresses ≤ length p.cross_chain_amounts))
  unfolding get_payload_info
  get_payload_info_iff p version =
      let lists =
        cross_chain_infos_iff p.cross_chain_addresses p.output_indexes p.cross_chain_amounts in
      (λ h. lists.0 (λ e. h (rw e refl)), λ h e. lists.1 h (only_panic _ _ e))
