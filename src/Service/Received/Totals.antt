-- ===== src/Service/Received/Totals.antt =====
-- What `GetReceivedByAddress` adds up.
use mathlib.Core.Option
use elastos_ela_side_chain_t.Base.{
  ℕ, ℤ, pos, ◌+ℤ◌, ◌+◌, ◌≡◌, refl, List, [], ◌∷◌, some, true, false, if◌then◌else◌, bytes_eq,
  bytes_eq_iff, set_bytes, value_from, ok, All, arith, Bool-cases, wrap_int64, ◌∙◌, ap, inl, inr,
}
use elastos_ela_side_chain_t.Base.Assoc.{bytes_Eq, lookup, insert, lookup-insert}
use elastos_ela_side_chain_t.Types.{Uint256}
use elastos_ela_side_chain_t.Library.{Library}
use elastos_ela_side_chain_t.Texts.{Texts}
use elastos_ela_side_chain_t.Store.Utxo.{Utxo}
use elastos_ela_side_chain_t.Service.Received.{
  Received, nothing_received, receive_utxo, receive_utxos, receive_all,
}

-- The sum of the amounts, read as magnitudes.
unfoldable pub sum_of : List Utxo → ℕ
sum_of [] = 0
sum_of (u ∷ us) = value_from u.value 0 + sum_of us

-- The sum of what stands under one asset.
unfoldable pub total_of : Uint256 → List (Uint256 × List Utxo) → ℕ
total_of a [] = 0
total_of a ((b, us) ∷ m) =
    let rest = total_of a m in if bytes_eq b a then sum_of us + rest else rest

add_pos : (a b : ℕ) → pos a +ℤ pos b ≡ pos (a + b)
unfolding ◌+ℤ◌
add_pos a b = ground arith

module _ (lib : Library) (texts : Texts) where
  -- An amount of ELA that is nil does not occur.
  abbrev pub IsDecodable : Uint256 × List Utxo → Type 0
  IsDecodable (a, us) =
      bytes_eq a lib.system_asset_id ≡ true
      → All (λ (u : Utxo). (v : ℤ) × (texts.fixed64_from_bytes u.value ≡ some v)) us

  -- What is added up for an asset.
  abbrev pub token_value : Received → Uint256 → ℤ
  token_value r a = Option.get_or (lookup a r.token_values) (pos 0)

  receive_utxos-tokens :
      (b : Uint256) (us : List Utxo) (r : Received)
      → bytes_eq b lib.system_asset_id ≡ false
      → (r' : Received) × (receive_utxos lib texts b r us ≡ ok r')
        × ((a : Uint256) (t : ℕ)
            → token_value r a ≡ pos t
            → token_value r' a ≡ pos (if bytes_eq b a then t + sum_of us else t))
  unfolding receive_utxos receive_utxo sum_of
  receive_utxos-tokens b [] r other = (r, refl, λ a t e. ground (arith, e))
  receive_utxos-tokens b (u ∷ us) r other =
      let n : Received = record r {
        token_values = insert b (token_value r b +ℤ set_bytes u.value) r.token_values;
      } in
      let (r', e, sums) = receive_utxos-tokens b us n other in
      (
        r',
        rw other e,
        λ a t held. elim (Bool-cases (bytes_eq b a)) [
          | inl is ↦
              let same = (bytes_eq_iff b a).0 is in
              let added : token_value n a ≡ pos (t + value_from u.value 0) =
                rw (lookup-insert b a (token_value r b +ℤ set_bytes u.value) r.token_values, is)
                  (rw (same, held) (unfold set_bytes in add_pos t (value_from u.value 0))) in
              let all : token_value r' a ≡ pos (t + value_from u.value 0 + sum_of us) =
                rw is at (sums a (t + value_from u.value 0) added) in
              rw is (ground (arith, all))
          | inr not_it ↦
              let kept : token_value n a ≡ pos t =
                rw (lookup-insert b a (token_value r b +ℤ set_bytes u.value) r.token_values, not_it)
                  held in
              let all : token_value r' a ≡ pos t = rw not_it at (sums a t kept) in rw not_it all
        ],
      )

  receive_utxos-ela :
      (b : Uint256) (us : List Utxo) (r : Received)
      → bytes_eq b lib.system_asset_id ≡ true
      → All (λ (u : Utxo). (v : ℤ) × (texts.fixed64_from_bytes u.value ≡ some v)) us
      → (r' : Received) × (receive_utxos lib texts b r us ≡ ok r')
        × ((a : Uint256) → token_value r' a ≡ token_value r a)
  unfolding receive_utxos receive_utxo
  receive_utxos-ela b [] r is known = (r, refl, λ a. refl)
  receive_utxos-ela b (u ∷ us) r is ((v, read), known) =
      let (r', e, same) =
        receive_utxos-ela b us (record r { ela_value = wrap_int64 (r.ela_value +ℤ v) }) is known in
      (r', rw (is, read) e, λ a. same a)

  receive_all-from :
      (m : List (Uint256 × List Utxo)) (r : Received)
      → All IsDecodable m
      → (r' : Received) × (receive_all lib texts r m ≡ ok r')
        × ((a : Uint256) (t : ℕ)
            → bytes_eq a lib.system_asset_id ≡ false
            → token_value r a ≡ pos t
            → token_value r' a ≡ pos (t + total_of a m))
  unfolding receive_all total_of
  receive_all-from [] r known = (r, refl, λ a t other held. ground (arith, held))
  receive_all-from ((b, us) ∷ m) r (known, rest) =
      elim (Bool-cases (bytes_eq b lib.system_asset_id)) [
        | inl is ↦
            let (n, first, same) = receive_utxos-ela b us r is (known is) in
            let (r', e, sums) = receive_all-from m n rest in
            (
              r',
              rw first e,
              λ a t other held.
                  let apart : bytes_eq b a ≡ false = ground (
                    arith,
                    bytes_eq_iff b a,
                    bytes_eq_iff b lib.system_asset_id,
                    bytes_eq_iff a lib.system_asset_id,
                  ) in
                  rw apart (sums a t other (same a ∙ held)),
            )
        | inr not_ela ↦
            let (n, first, adds) = receive_utxos-tokens b us r not_ela in
            let (r', e, sums) = receive_all-from m n rest in
            (
              r',
              rw first e,
              λ a t other held.
                  let all =
                    sums a (if bytes_eq b a then t + sum_of us else t) other (adds a t held) in
                  ground (arith, all),
            )
      ]

  -- The loops of `GetReceivedByAddress` end well where no amount of ELA is nil, and have then added
  -- up, for each token asset, the magnitudes of all amounts under it.
  pub receive_all-totals :
      (m : List (Uint256 × List Utxo))
      → All IsDecodable m
      → (r : Received) × (receive_all lib texts nothing_received m ≡ ok r)
        × ((a : Uint256)
            → bytes_eq a lib.system_asset_id ≡ false
            → token_value r a ≡ pos (total_of a m))
  receive_all-totals m known =
      let (r, e, sums) = receive_all-from m nothing_received known in
      (r, e, λ a other. sums a 0 other (unfold lookup in refl) ∙ ap pos (omega arith))
