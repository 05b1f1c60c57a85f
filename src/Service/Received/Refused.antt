-- ===== src/Service/Received/Refused.antt =====
-- The errors of `GetReceivedByAddress`.
use elastos_ela_side_chain_t.Base.{
  ◌≡◌, ◌↔◌, ◌⊎◌, refl, sym, ap, Bytes, List, [], ◌∷◌, Option, none, some, bytes_eq, ℤ, Outcome, ok,
  err, panic, ◌>>=◌, or_panic, set_string, to_string, Bool-cases, Option-cases, inl, inr,
}
use elastos_ela_side_chain_t.Types.{Uint256, Uint168}
use elastos_ela_side_chain_t.Library.{Library}
use elastos_ela_side_chain_t.Format.{Format}
use elastos_ela_side_chain_t.Texts.{Texts}
use elastos_ela_side_chain_t.Store.Database.{StoreError, Database, Layout}
use elastos_ela_side_chain_t.Store.Utxo.{Utxo}
use elastos_ela_side_chain_t.Store.Listing.{get_unspents}
use elastos_ela_side_chain_t.Service.{Params, ServiceError}
use elastos_ela_side_chain_t.Service.Received.{
  Received, receive_utxo, receive_utxos, receive_all, list_values, unspents_or_nil, received_values,
  get_received_by_address,
}

-- A call that returns no error: a value, or a panic.
abbrev NoError : {A : Type 0} → Outcome ServiceError A → Type 0
NoError (ok a) = Unit {0}
NoError (err e) = ⊥
NoError panic = Unit {0}

NoError-not_err :
    {A : Type 0} (r : Outcome ServiceError A) {e : ServiceError} → NoError r → r ≡ err e → ⊥
NoError-not_err (ok a) none_here h = cc
NoError-not_err (err x) none_here h = none_here
NoError-not_err panic none_here h = cc

NoError-bind :
    {A B : Type 0} (r : Outcome ServiceError A) (next : A → Outcome ServiceError B)
    → NoError r
    → ((a : A) → NoError (next a))
    → NoError (r >>= next)
NoError-bind (ok a) next first rest = rest a
NoError-bind (err x) next first rest = absurd first
NoError-bind panic next first rest = tt

NoError-or_panic : {A : Type 0} (o : Option A) → NoError (or_panic o)
NoError-or_panic none = tt
NoError-or_panic (some a) = tt

err-injective :
    {A : Type 0} {x y : ServiceError} → ◌≡◌ {A = Outcome ServiceError A} (err x) (err y) → x ≡ y
err-injective {A} {x} h = ap error_of h
  where
    error_of : Outcome ServiceError A → ServiceError
    error_of (err e) = e
    error_of (ok a) = x
    error_of panic = x

NoError-unspents_or_nil :
    (r : Outcome StoreError (List (Uint256 × List Utxo))) → NoError (unspents_or_nil r)
unfolding unspents_or_nil
NoError-unspents_or_nil (ok m) = tt
NoError-unspents_or_nil (err x) = tt
NoError-unspents_or_nil panic = tt

module _ (lib : Library) (texts : Texts) where
  receive_utxo-NoError :
      (a : Uint256) (r : Received) (u : Utxo) → NoError (receive_utxo lib texts a r u)
  unfolding receive_utxo
  receive_utxo-NoError a r u = elim (Bool-cases (bytes_eq a lib.system_asset_id)) [
    | inl is ↦ rw is (
        NoError-bind (or_panic (texts.fixed64_from_bytes u.value)) _
          (NoError-or_panic (texts.fixed64_from_bytes u.value)) (λ v. tt))
    | inr other ↦ rw other tt
  ]

  receive_utxos-NoError :
      (a : Uint256) (us : List Utxo) (r : Received) → NoError (receive_utxos lib texts a r us)
  unfolding receive_utxos
  receive_utxos-NoError a [] r = tt
  receive_utxos-NoError a (u ∷ us) r =
      NoError-bind (receive_utxo lib texts a r u) _ (receive_utxo-NoError a r u)
        (λ n. receive_utxos-NoError a us n)

  receive_all-NoError :
      (m : List (Uint256 × List Utxo)) (r : Received) → NoError (receive_all lib texts r m)
  unfolding receive_all
  receive_all-NoError [] r = tt
  receive_all-NoError ((a, us) ∷ m) r =
      NoError-bind (receive_utxos lib texts a r us) _ (receive_utxos-NoError a us r)
        (λ n. receive_all-NoError m n)

  list_values-NoError :
      (tokens : List (Uint256 × ℤ)) (values : List (Bytes × Bytes))
      → NoError (list_values lib texts tokens values)
  unfolding list_values
  list_values-NoError [] values = tt
  list_values-NoError ((k, v) ∷ tokens) values =
      NoError-bind (or_panic (texts.uint256_from_bytes (texts.bytes_reverse k))) _
        (NoError-or_panic (texts.uint256_from_bytes (texts.bytes_reverse k)))
        (λ reverse.
          NoError-bind (or_panic (set_string (to_string v))) _
            (NoError-or_panic (set_string (to_string v))) (λ total. list_values-NoError tokens _))

  received_values-NoError :
      (asset_id : Option Bytes) (m : List (Uint256 × List Utxo))
      → NoError (received_values lib texts asset_id m)
  unfolding received_values
  received_values-NoError asset_id m =
      NoError-bind (receive_all lib texts _ m) _ (receive_all-NoError m _) (λ r.
        NoError-bind (list_values lib texts r.token_values _) _
          (list_values-NoError r.token_values _) (λ values. tt))

  module _ (format : Format) (layout : Layout) (db : Database) where
    decoded :
        (str : Bytes) (program_hash : Uint168)
        → texts.uint168_from_address str ≡ some program_hash
        → (◌≡◌ {A = Option Bytes} (some str) none
            ⊎ ((s : Bytes) × (◌≡◌ {A = Option Bytes} (some str) (some s))
                × (texts.uint168_from_address s ≡ none)))
        → ⊥
    decoded str program_hash good (inl h) = cc
    decoded str program_hash good (inr (s, same, bad)) = cc

    -- `GetReceivedByAddress` returns an error exactly if the address is missing or cannot be decoded,
    -- and it is always that of invalid parameters: no failure of the store is reported as an error.
    pub get_received_by_address-refuses_iff :
        (params : Params) (e : ServiceError)
        → (get_received_by_address lib texts format layout db params ≡ err e) ↔ (
            (e ≡ ServiceError.invalid_params)
            × ((params.address ≡ none)
                ⊎ ((str : Bytes) × (params.address ≡ some str)
                    × (texts.uint168_from_address str ≡ none))))
    unfolding get_received_by_address
    get_received_by_address-refuses_iff params e = elim (Option-cases params.address) [
      | inl missing ↦ rw missing (λ h. (sym (err-injective h), inl refl), λ h. ap err (sym h.0))
      | inr (str, given) ↦ rw given (elim (Option-cases (texts.uint168_from_address str)) [
        | inl bad ↦
            rw bad (λ h. (sym (err-injective h), inr (str, refl, bad)), λ h. ap err (sym h.0))
        | inr (program_hash, good) ↦ rw good (
          λ h. absurd (
              NoError-not_err
                (unspents_or_nil (get_unspents format layout db program_hash) >>= λ m.
                  received_values lib texts params.assetid m)
                (NoError-bind (unspents_or_nil (get_unspents format layout db program_hash)) _
                  (NoError-unspents_or_nil (get_unspents format layout db program_hash))
                  (received_values-NoError params.assetid))
                h),
          λ h. absurd (decoded str program_hash good h.1),
        )
      ])
    ]
