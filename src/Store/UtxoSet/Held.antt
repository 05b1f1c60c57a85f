-- ===== src/Store/UtxoSet/Held.antt =====
-- The map of `persistUnspendUTXOs` of blockchain/chainstore.go: its keys, and the ranges in it.
use mathlib.Core.Path.{subst}
use elastos_ela_side_chain_t.Base.{
  ℕ, suc, ◌^◌, ◌<◌, ◌≤◌, ◌≡◌, refl, List, [], ◌∷◌, ◌++◌, Option, none, some, length, All, get_elem?,
  Outcome, ok, err, panic, or_err, or_panic, >>=-eq-ok, ok-injective, or_err-some, or_panic-some,
  arith, Option-cases, Bool-cases, inl, inr,
}
use elastos_ela_side_chain_t.Base.Assoc.{lookup, insert, Distinct, Distinct-insert}
use elastos_ela_side_chain_t.Types.{Uint256, Transaction, Input, Output}
use elastos_ela_side_chain_t.Library.{Library}
use elastos_ela_side_chain_t.Format.{Format}
use elastos_ela_side_chain_t.Wire.{max_token_value_data_size}
use elastos_ela_side_chain_t.Store.Database.{StoreError, Database, Layout}
use elastos_ela_side_chain_t.Store.Kept.{All-swap_remove, All-get}
use elastos_ela_side_chain_t.Store.Utxo.{Utxo, UtxoKey, value_bytes}
use elastos_ela_side_chain_t.Store.Utxo.RoundTrip.{FitsUtxo}
use elastos_ela_side_chain_t.Store.UtxoSet.{
  UtxoMap, key_Eq, key_beq, key_of, held_or, or_no_utxos, or_no_unspent, take_utxo, utxo_of,
  stored_unspents, create_utxos, spend_utxo, spend_utxos, utxos_txn, utxos_txns,
}
use elastos_ela_side_chain_t.Store.UtxoSet.Stored.{IsKey}

abbrev pub Entry : UtxoKey × List Utxo → Type 0
Entry (k, us) = IsKey k × All FitsUtxo us

-- No key twice, and keys and unspent outputs in range.
pub record IsHeld (m : UtxoMap) : Type 0 where
  pub distinct : Distinct m
  pub entries : All Entry m

All-insert :
    (k : UtxoKey) (us : List Utxo) (m : UtxoMap)
    → Entry (k, us)
    → All Entry m
    → All Entry (insert k us m)
unfolding insert
All-insert k us [] e h = (e, tt)
All-insert k us ((j, vs) ∷ m) e h = elim (Bool-cases (key_beq j k)) [
  | inl same ↦ rw same ((h.0.0, e.1), h.1)
  | inr other ↦ rw other (h.0, All-insert k us m e h.1)
]

IsHeld-insert :
    (k : UtxoKey) (us : List Utxo) (m : UtxoMap)
    → IsKey k
    → All FitsUtxo us
    → IsHeld m
    → IsHeld (insert k us m)
IsHeld-insert k us m is fits held = record {
  distinct = Distinct-insert k us m held.distinct;
  entries = All-insert k us m (is, fits) held.entries;
}

All-lookup :
    (k : UtxoKey) (m : UtxoMap) {us : List Utxo}
    → All Entry m
    → lookup k m ≡ some us
    → All FitsUtxo us
unfolding lookup
All-lookup k [] h e = absurd (ground arith)
All-lookup k ((j, vs) ∷ m) {us} h e = elim (Bool-cases (key_beq j k)) [
  | inl same ↦ let is : vs ≡ us = ground arith in subst (All FitsUtxo) is h.0.1
  | inr other ↦ All-lookup k m h.1 (rw other at e)
]

-- The list that a step works on: of the map, or as it is read.
All-held_or :
    (k : UtxoKey) (m : UtxoMap) (read : Outcome StoreError (List Utxo)) {us : List Utxo}
    → IsHeld m
    → ((l : List Utxo) → read ≡ ok l → All FitsUtxo l)
    → held_or (lookup k m) read ≡ ok us
    → All FitsUtxo us
unfolding held_or
All-held_or k m read held fits e = elim (Option-cases (lookup k m)) [
  | inl miss ↦ fits _ (rw miss at e)
  | inr (l, hit) ↦
      subst (All FitsUtxo) (ok-injective (rw hit at e)) (All-lookup k m held.entries hit)
]

All-or_no_utxos :
    (read : Outcome StoreError (List Utxo)) (l : List Utxo)
    → ((l' : List Utxo) → read ≡ ok l' → All FitsUtxo l')
    → or_no_utxos read ≡ ok l
    → All FitsUtxo l
unfolding or_no_utxos
All-or_no_utxos (ok l') l fits e = subst (All FitsUtxo) (ok-injective e) (fits l' refl)
All-or_no_utxos (err _) l fits e = subst (All FitsUtxo) (ok-injective e) tt
All-or_no_utxos panic l fits e = absurd (cc)

All-or_no_unspent :
    (read : Outcome StoreError (List Utxo)) (l : List Utxo)
    → ((l' : List Utxo) → read ≡ ok l' → All FitsUtxo l')
    → or_no_unspent read ≡ ok l
    → All FitsUtxo l
unfolding or_no_unspent
All-or_no_unspent (ok l') l fits e = subst (All FitsUtxo) (ok-injective e) (fits l' refl)
All-or_no_unspent (err _) l fits e = absurd (cc)
All-or_no_unspent panic l fits e = absurd (cc)

All-take_utxo :
    (o : Option ℕ) (l : List Utxo) {l' : List Utxo}
    → All FitsUtxo l
    → take_utxo o l ≡ ok l'
    → All FitsUtxo l'
unfolding take_utxo
All-take_utxo none l fits e = absurd (cc)
All-take_utxo (some i) l fits e =
    subst (All FitsUtxo) (ok-injective e) (All-swap_remove FitsUtxo i l fits)

All-snoc : (l : List Utxo) {u : Utxo} → All FitsUtxo l → FitsUtxo u → All FitsUtxo (l ++ (u ∷ []))
All-snoc [] a b = (b, tt)
All-snoc (x ∷ l) a b = (a.0, All-snoc l a.1 b)

module _ (lib : Library) (format : Format) (layout : Layout) (db : Database) where
  -- An output with an address, an asset and an amount of the sizes that the formats have.
  pub record IsOutput (o : Output) : Type 0 where
    pub program_hash : length o.program_hash ≡ 21
    pub asset_id : length o.asset_id ≡ 32
    pub amount : length (value_bytes lib format o) ≤ max_token_value_data_size

  -- What the store holds has these sizes too, and the hashes are of 32 bytes.
  pub record InRange : Type 0 where
    pub hash : (txn : Transaction) → length (lib.hash txn) ≡ 32
    pub transaction :
        (h : Uint256) {txn : Transaction} {height : ℕ}
        → db.get_transaction h ≡ some (txn, height)
        → All IsOutput txn.outputs × (height < 2 ^ 32)
    pub unspents :
        (k : UtxoKey) (us : List Utxo)
        → stored_unspents lib format layout db k ≡ ok us
        → All FitsUtxo us

  key_of-IsKey : (o : Output) (height : ℕ) → IsOutput o → height < 2 ^ 32 → IsKey (key_of o height)
  key_of-IsKey o height is fits = (is.program_hash, is.asset_id, fits)

  utxo_of-FitsUtxo :
      (h : Uint256) (i : ℕ) (o : Output)
      → length h ≡ 32
      → IsOutput o
      → FitsUtxo (utxo_of lib format h i o)
  unfolding utxo_of
  utxo_of-FitsUtxo h i o size is = record {
    tx_id = size;
    index = omega arith;
    asset_id = is.asset_id;
    value = is.amount;
  }

  module _ (db_fits : InRange) where
    create_utxos-IsHeld :
        (height : ℕ) (h : Uint256) (os : List Output) (i : ℕ) (m : UtxoMap) {m' : UtxoMap}
        → height < 2 ^ 32
        → length h ≡ 32
        → All IsOutput os
        → create_utxos lib format layout db height h os i m ≡ ok m'
        → IsHeld m
        → IsHeld m'
    unfolding create_utxos
    create_utxos-IsHeld height h [] i m low size outs e held = subst IsHeld (ok-injective e) held
    create_utxos-IsHeld height h (o ∷ os) i m low size outs e held =
        let k = key_of o height in
        let read = or_no_utxos (stored_unspents lib format layout db k) in
        let (l, got, rest) = >>=-eq-ok (held_or (lookup k m) read) _ e in
        let old =
          All-held_or k m read held
            (λ l'. All-or_no_utxos (stored_unspents lib format layout db k) l' (db_fits.unspents k))
            got in
        create_utxos-IsHeld height h os (suc i) _ low size outs.1 rest (
          IsHeld-insert k _ m (key_of-IsKey o height outs.0 low)
            (All-snoc l old (utxo_of-FitsUtxo h i o size outs.0)) held)

    spend_utxo-IsHeld :
        (m : UtxoMap) (input : Input) {m' : UtxoMap}
        → spend_utxo lib format layout db m input ≡ ok m'
        → IsHeld m
        → IsHeld m'
    unfolding spend_utxo
    spend_utxo-IsHeld m input e held =
        let ((txn, height), got, step) =
          >>=-eq-ok (or_err (db.get_transaction input.previous_tx_id) StoreError.library_error) _
            e in
        let (o, at, rest) =
          >>=-eq-ok (or_panic (get_elem? txn.outputs input.previous_index)) _ step in
        let (outs, low) =
          db_fits.transaction input.previous_tx_id
            (or_err-some (db.get_transaction input.previous_tx_id) _ got) in
        let is = All-get IsOutput txn.outputs input.previous_index outs (or_panic-some _ at) in
        let k = key_of o height in
        let read = or_no_unspent (stored_unspents lib format layout db k) in
        let (l, found, taken) = >>=-eq-ok (held_or (lookup k m) read) _ rest in
        let old =
          All-held_or k m read held
            (λ l'.
              All-or_no_unspent (stored_unspents lib format layout db k) l' (db_fits.unspents k))
            found in
        let (l', left, made) = >>=-eq-ok (take_utxo _ l) _ taken in
        subst IsHeld (ok-injective made)
          (IsHeld-insert k l' m (key_of-IsKey o height is low) (All-take_utxo _ l old left) held)

    spend_utxos-IsHeld :
        (inputs : List Input) (m : UtxoMap) {m' : UtxoMap}
        → spend_utxos lib format layout db m inputs ≡ ok m'
        → IsHeld m
        → IsHeld m'
    unfolding spend_utxos
    spend_utxos-IsHeld [] m e held = subst IsHeld (ok-injective e) held
    spend_utxos-IsHeld (input ∷ inputs) m e held =
        let (n, first, rest) = >>=-eq-ok (spend_utxo lib format layout db m input) _ e in
        spend_utxos-IsHeld inputs n rest (spend_utxo-IsHeld m input first held)

    utxos_txn-IsHeld :
        (height : ℕ) (m : UtxoMap) (txn : Transaction) {m' : UtxoMap}
        → height < 2 ^ 32
        → All IsOutput txn.outputs
        → utxos_txn lib format layout db height m txn ≡ ok m'
        → IsHeld m
        → IsHeld m'
    unfolding utxos_txn
    utxos_txn-IsHeld height m txn low outs e held =
        let (n, first, rest) =
          >>=-eq-ok (create_utxos lib format layout db height (lib.hash txn) txn.outputs 0 m) _ e in
        let made =
          create_utxos-IsHeld height (lib.hash txn) txn.outputs 0 m low (db_fits.hash txn) outs
            first held in
        elim (Bool-cases (lib.is_coin_base_tx txn)) [
          | inl is ↦ subst IsHeld (ok-injective (rw is at rest)) made
          | inr other ↦ spend_utxos-IsHeld txn.inputs n (rw other at rest) made
        ]

    pub utxos_txns-IsHeld :
        (height : ℕ) (txns : List Transaction) (m : UtxoMap) {m' : UtxoMap}
        → height < 2 ^ 32
        → All (λ txn. All IsOutput txn.outputs) txns
        → utxos_txns lib format layout db height m txns ≡ ok m'
        → IsHeld m
        → IsHeld m'
    unfolding utxos_txns
    utxos_txns-IsHeld height [] m low outs e held = subst IsHeld (ok-injective e) held
    utxos_txns-IsHeld height (txn ∷ txns) m low outs e held =
        let (n, first, rest) = >>=-eq-ok (utxos_txn lib format layout db height m txn) _ e in
        utxos_txns-IsHeld height txns n low outs.1 rest
          (utxos_txn-IsHeld height m txn low outs.0 first held)
