-- ===== src/Store/Unspent/Spent.antt =====
-- The ledger of `persistUnspend` as one count of the inputs that the block spends.
use elastos_ela_side_chain_t.Base.{
  ℕ, suc, ◌+◌, ◌-◌, ◌%◌, ◌^◌, ◌≡◌, refl, List, [], ◌∷◌, ◌++◌, bytes_eq, bytes_eq_iff, All, arith,
  Bool-cases, inl, inr, true, false,
}
use elastos_ela_side_chain_t.Base.Assoc.{bytes_Eq}
use elastos_ela_side_chain_t.Types.{Uint256, Transaction, Input, Output}
use elastos_ela_side_chain_t.Library.{Library}
use elastos_ela_side_chain_t.Store.Unspent.Ledger.{
  Ledger, credit, debit, credits, debits, txn_ledger, block_ledger,
}
use elastos_ela_side_chain_t.Store.Unspent.Writable.{IsUint16}
use elastos_ela_side_chain_t.Store.Unspent.Restored.{refers, spends, spent_inputs, has_hash}

All-append : (P : Input → Type 0) (a b : List Input) → All P (a ++ b) → All P a × All P b
All-append P [] b h = (tt, h)
All-append P (x ∷ a) b h = let rest = All-append P a b h.1 in ((h.0, rest.0), rest.1)

credits-other :
    (g h : Uint256) (os : List Output) (i j : ℕ) (u : Ledger)
    → bytes_eq g h ≡ false
    → credits g os i u h j ≡ u h j
unfolding credits credit
credits-other g h [] i j u other = refl
credits-other g h (o ∷ os) i j u other =
    ground (arith, credits-other g h os (suc i) j (credit g (i % 2 ^ 16) u) other)

debits-spends :
    (inputs : List Input) (u : Ledger) (h : Uint256) (j : ℕ)
    → All (λ (i : Input). IsUint16 i.previous_index) inputs
    → debits inputs u h j ≡ u h j - spends h j inputs
unfolding debits debit spends
debits-spends [] u h j fits = omega arith
debits-spends (input ∷ inputs) u h j fits =
    let i = input.previous_index % 2 ^ 16 in
    ground (arith, debits-spends inputs (debit input.previous_tx_id i u) h j fits.1, fits.0)

spends-append :
    (a b : List Input) (h : Uint256) (j : ℕ) → spends h j (a ++ b) ≡ spends h j a + spends h j b
unfolding spends
spends-append [] b h j = omega arith
spends-append (input ∷ a) b h j = ground (arith, spends-append a b h j)

-- A transaction that no input names is spent by none.
pub spends-unnamed :
    (inputs : List Input) (h : Uint256) (j : ℕ) → refers h inputs ≡ false → spends h j inputs ≡ 0
unfolding spends refers
spends-unnamed [] h j e = refl
spends-unnamed (input ∷ inputs) h j e = ground (arith, spends-unnamed inputs h j)

module _ (lib : Library) where
  -- The block only takes from a transaction of an earlier block.
  pub block_ledger-earlier :
      (txns : List Transaction) (u : Ledger) (h : Uint256) (j : ℕ)
      → has_hash lib h txns ≡ false
      → All (λ (i : Input). IsUint16 i.previous_index) (spent_inputs lib txns)
      → block_ledger lib txns u h j ≡ u h j - spends h j (spent_inputs lib txns)
  unfolding block_ledger has_hash spent_inputs
  block_ledger-earlier [] u h j other fits = unfold spends in omega arith
  block_ledger-earlier (txn ∷ txns) u h j other fits = elim (Bool-cases (lib.is_coin_base_tx txn)) [
    | inl is ↦
        let below : All (λ (i : Input). IsUint16 i.previous_index) (spent_inputs lib txns) =
          rw is at fits in
        let rest = block_ledger-earlier txns (txn_ledger lib txn u) h j (ground arith) below in
        let made : txn_ledger lib txn u h j ≡ u h j =
          unfold txn_ledger in
          rw is (credits-other (lib.hash txn) h txn.outputs 0 j u (ground arith)) in
        rw is (ground (arith, rest, made))
    | inr is ↦
        let both : All (λ (i : Input). IsUint16 i.previous_index)
            (txn.inputs ++ spent_inputs lib txns) =
          rw is at fits in
        let split =
          All-append (λ (i : Input). IsUint16 i.previous_index) txn.inputs (spent_inputs lib txns)
            both in
        let rest = block_ledger-earlier txns (txn_ledger lib txn u) h j (ground arith) split.1 in
        let created = credits (lib.hash txn) txn.outputs 0 u in
        let made : txn_ledger lib txn u h j ≡ debits txn.inputs created h j =
          unfold txn_ledger in rw is refl in
        let spent = debits-spends txn.inputs created h j split.0 in
        let kept : created h j ≡ u h j =
          credits-other (lib.hash txn) h txn.outputs 0 j u (ground arith) in
        let sum = spends-append txn.inputs (spent_inputs lib txns) h j in
        rw is (omega (arith, rest, made, spent, kept, sum))
  ]

  pub refers-has_hash :
      (inputs : List Input) (txns : List Transaction) (h : Uint256)
      → All (λ (i : Input). has_hash lib i.previous_tx_id txns ≡ false) inputs
      → refers h inputs ≡ true
      → has_hash lib h txns ≡ false
  unfolding refers
  refers-has_hash [] txns h earlier e = absurd (ground arith)
  refers-has_hash (input ∷ inputs) txns h earlier e =
      elim (Bool-cases (bytes_eq input.previous_tx_id h)) [
        | inl same ↦ rw (← (bytes_eq_iff input.previous_tx_id h).0 same) earlier.0
        | inr other ↦ refers-has_hash inputs txns h earlier.1 (ground arith)
      ]
