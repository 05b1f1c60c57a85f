-- ===== src/Store/UtxoSet/Rollback.antt =====
-- What `rollbackUnspendUTXOs` does to the ledger of unspent outputs.
use mathlib.Core.Path.{fun_ext}
use elastos_ela_side_chain_t.Base.{
  ℕ, suc, ◌%◌, ◌^◌, ◌≡◌, ◌≢◌, refl, List, [], ◌∷◌, ◌&&◌, ◌==◌, Bool, true, Option, none, some, leb,
  length, bytes_eq, bytes_eq_iff, Outcome, ok, err, panic, ◌>>=◌, get_elem?, get_elem?-eq-none,
  arith, Bool-cases, Option-cases, inl, inr, if◌then◌else◌, ◌≤◌,
}
use elastos_ela_side_chain_t.Base.Assoc.{insert}
use elastos_ela_side_chain_t.Types.{Uint256, Transaction, Input, Output}
use elastos_ela_side_chain_t.Library.{Library}
use elastos_ela_side_chain_t.Format.{Format}
use elastos_ela_side_chain_t.Store.Database.{StoreError, Database, Layout}
use elastos_ela_side_chain_t.Store.Removal.{
  find_index, remove_at, find_index-some, find_index-none, remove_at-perm,
}
use elastos_ela_side_chain_t.Store.Count.{count_if-absent, count_if}
use elastos_ela_side_chain_t.Store.Utxo.{Utxo, UtxoKey}
use elastos_ela_side_chain_t.Store.UtxoSet.{
  UtxoMap, key_Eq, key_of, is_utxo, position, delete_at, stored_unspents, remove_utxos,
  restore_utxo, restore_utxos, rollback_utxos_txn, rollback_utxos_txns,
}
use elastos_ela_side_chain_t.Store.UtxoSet.Ledger.{
  UtxoLedger, gain, lose, and_then, utxo_view, AgreesUtxo, AgreesUtxo-gain, AgreesUtxo-lose,
}
use elastos_ela_side_chain_t.Store.UtxoSet.Refinement.{held_or-created, held_or-spent}

-- The outputs of a transaction go, from the index `i` on; each must be there.
unfoldable pub removals : ℕ → Uint256 → List Output → ℕ → UtxoLedger → Option UtxoLedger
removals height h [] i u = some u
removals height h (o ∷ os) i u =
    let rest = removals height h os (suc i) (lose (key_of o height) h (i % 2 ^ 32) u) in
    if leb 1 (u (key_of o height) h (i % 2 ^ 32)) then rest else none

module _ (lib : Library) (db : Database) where
  -- An entry comes back for each input of the transaction `h`, as an output of `h`.
  unfoldable pub regain_output : Uint256 → ℕ → ℕ → Option Output → UtxoLedger → Option UtxoLedger
  regain_output h height i none u = none
  regain_output h height i (some o) u = some (gain (key_of o height) h (i % 2 ^ 32) u)

  unfoldable pub regain : Uint256 → Option (Transaction × ℕ) → ℕ → UtxoLedger → Option UtxoLedger
  regain h none i u = none
  regain h (some (txn, height)) i u = regain_output h height i (get_elem? txn.outputs i) u

  unfoldable pub regains : Uint256 → List Input → UtxoLedger → Option UtxoLedger
  regains h [] u = some u
  regains h (input ∷ inputs) u =
      and_then (regain h (db.get_transaction input.previous_tx_id) input.previous_index u)
        (regains h inputs)

  unfoldable pub rollback_ledger_txn : ℕ → Transaction → UtxoLedger → Option UtxoLedger
  rollback_ledger_txn height txn u =
      and_then (removals height (lib.hash txn) txn.outputs 0 u)
        (λ v. if lib.is_coin_base_tx txn then some v else regains (lib.hash txn) txn.inputs v)

  -- The abstract effect of a rollback: the transactions in the order of the block.
  unfoldable pub rollback_utxo_ledger : ℕ → List Transaction → UtxoLedger → Option UtxoLedger
  rollback_utxo_ledger height [] u = some u
  rollback_utxo_ledger height (txn ∷ txns) u =
      and_then (rollback_ledger_txn height txn u) (rollback_utxo_ledger height txns)

module _ (lib : Library) (format : Format) (layout : Layout) (db : Database) where
  -- Where the ledger has a next state, the code gives a map that agrees with it.
  abbrev pub Follows : Outcome StoreError UtxoMap → Option UtxoLedger → Type 0
  Follows r none = Unit {0}
  Follows (ok m) (some u) = AgreesUtxo lib format layout db m u
  Follows (err _) (some u) = ⊥
  Follows panic (some u) = ⊥

  Follows-bind :
      (r : Outcome StoreError UtxoMap) (s : Option UtxoLedger)
      (f : UtxoMap → Outcome StoreError UtxoMap) (g : UtxoLedger → Option UtxoLedger)
      → Follows r s
      → ((m : UtxoMap) (u : UtxoLedger) → AgreesUtxo lib format layout db m u → Follows (f m) (g u))
      → Follows (r >>= f) (and_then s g)
  Follows-bind r none f g a k = tt
  Follows-bind (ok m) (some u) f g a k = k m u a
  Follows-bind (err _) (some u) f g a k = absurd a
  Follows-bind panic (some u) f g a k = absurd a

  -- The test of the loop is that of the ledger.
  removal_test :
      (h : Uint256) (i : ℕ)
      → ◌≡◌ {A = Utxo → Bool} (λ u. bytes_eq u.tx_id h && u.index == i) (is_utxo lib h i)
  unfolding is_utxo
  removal_test h i =
      fun_ext (λ u. ground (arith, bytes_eq_iff u.tx_id h, lib.is_equal_iff u.tx_id h))

  -- An entry that the ledger has is found, and taken out.
  delete_at-found :
      (k : UtxoKey) (h : Uint256) (i : ℕ) (m : UtxoMap) (u : UtxoLedger)
      → AgreesUtxo lib format layout db m u
      → 1 ≤ u k h i
      → let l = utxo_view lib format layout db m k in
        (rest : List Utxo) × (delete_at (position (find_index (is_utxo lib h i) l)) l ≡ ok rest)
        × AgreesUtxo lib format layout db (insert k rest m) (lose k h i u)
  unfolding delete_at position
  delete_at-found k h i m u agree there =
      let l = utxo_view lib format layout db m k in
      let p = is_utxo lib h i in
      elim (Option-cases (find_index p l)) [
        | inl missing ↦
            absurd
              (omega (arith, there, agree k h i, count_if-absent p l (find_index-none p l missing)))
        | inr (n, found) ↦
            let (x, at, same) = find_index-some p l found in
            let inside : leb (suc n) (length l) ≡ true = ground (arith, get_elem?-eq-none l n) in
            (
              remove_at n l,
              rw (found, inside) refl,
              AgreesUtxo-lose lib format layout db k h i x (remove_at n l) m u
                  (remove_at-perm l n at) same agree,
            )
      ]

  Follows-remove_utxos :
      (height : ℕ) (h : Uint256) (os : List Output) (i : ℕ) (m : UtxoMap) (u : UtxoLedger)
      → AgreesUtxo lib format layout db m u
      → Follows (remove_utxos lib format layout db height h os i m) (removals height h os i u)
  unfolding remove_utxos removals
  Follows-remove_utxos height h [] i m u agree = agree
  Follows-remove_utxos height h (o ∷ os) i m u agree =
      let k = key_of o height in
      let n = i % 2 ^ 32 in
      elim (Bool-cases (leb 1 (u k h n))) [
        | inr gone ↦ rw gone tt
        | inl there ↦
            let (rest, gives, next) = delete_at-found k h n m u agree (ground arith) in
            rw (there, removal_test h n)
              (elim (held_or-spent lib format layout db m k) [
                | inl r ↦
                    rw (r, gives)
                      (Follows-remove_utxos height h os (suc i) (insert k rest m) (lose k h n u)
                        next)
                | inr (nothing, r) ↦ absurd (agree-nil k h n m u agree nothing (ground arith))
              ])
      ]
    where
      agree-nil :
          (k : UtxoKey) (h : Uint256) (n : ℕ) (m : UtxoMap) (u : UtxoLedger)
          → AgreesUtxo lib format layout db m u
          → utxo_view lib format layout db m k ≡ []
          → 1 ≤ u k h n
          → ⊥
      agree-nil k h n m u agree nothing there =
          let empty : count_if (is_utxo lib h n) (utxo_view lib format layout db m k) ≡ 0 =
            rw nothing (unfold count_if in refl) in
          omega (arith, there, agree k h n, empty)

  Follows-restore_utxo :
      (h : Uint256) (input : Input) (m : UtxoMap) (u : UtxoLedger)
      → ((k : UtxoKey) → stored_unspents lib format layout db k ≢ panic)
      → AgreesUtxo lib format layout db m u
      → Follows
          (restore_utxo lib format layout db h m input)
          (regain lib db h (db.get_transaction input.previous_tx_id) input.previous_index u)
  unfolding restore_utxo regain regain_output
  Follows-restore_utxo h input m u safe agree =
      elim (Option-cases (db.get_transaction input.previous_tx_id)) [
        | inl e ↦ rw e tt
        | inr ((txn, height), e) ↦
            rw e (elim (Option-cases (get_elem? txn.outputs input.previous_index)) [
              | inl out ↦ rw out tt
              | inr (o, at) ↦
                  let k = key_of o height in
                  rw (at, held_or-created lib format layout db m k (safe k))
                    (AgreesUtxo-gain lib format layout db k h input.previous_index o m u agree)
            ])
      ]

  Follows-restore_utxos :
      (h : Uint256) (inputs : List Input) (m : UtxoMap) (u : UtxoLedger)
      → ((k : UtxoKey) → stored_unspents lib format layout db k ≢ panic)
      → AgreesUtxo lib format layout db m u
      → Follows (restore_utxos lib format layout db h m inputs) (regains lib db h inputs u)
  unfolding restore_utxos regains
  Follows-restore_utxos h [] m u safe agree = agree
  Follows-restore_utxos h (input ∷ inputs) m u safe agree =
      Follows-bind _ _ _ _ (Follows-restore_utxo h input m u safe agree)
        (λ m' u' a. Follows-restore_utxos h inputs m' u' safe a)

  Follows-rollback_txn :
      (height : ℕ) (txn : Transaction) (m : UtxoMap) (u : UtxoLedger)
      → ((k : UtxoKey) → stored_unspents lib format layout db k ≢ panic)
      → AgreesUtxo lib format layout db m u
      → Follows
          (rollback_utxos_txn lib format layout db height m txn)
          (rollback_ledger_txn lib db height txn u)
  unfolding rollback_utxos_txn rollback_ledger_txn
  Follows-rollback_txn height txn m u safe agree =
      Follows-bind _ _ _ _ (Follows-remove_utxos height (lib.hash txn) txn.outputs 0 m u agree)
        (λ m' u' a. elim (Bool-cases (lib.is_coin_base_tx txn)) [
          | inl is ↦ rw is a
          | inr is ↦ rw is (Follows-restore_utxos (lib.hash txn) txn.inputs m' u' safe a)
        ])

  -- From a map that agrees with the ledger, and where the rollback ledger has a next state, the loop
  -- of `rollbackUnspendUTXOs` gives a map that agrees with it: each output of the block goes, and
  -- each input of an ordinary transaction comes back as an entry under the hash of the transaction
  -- that spent it. No list in the store makes the read panic.
  pub rollback_utxos_txns-Follows :
      (height : ℕ) (txns : List Transaction) (m : UtxoMap) (u : UtxoLedger)
      → ((k : UtxoKey) → stored_unspents lib format layout db k ≢ panic)
      → AgreesUtxo lib format layout db m u
      → Follows
          (rollback_utxos_txns lib format layout db height m txns)
          (rollback_utxo_ledger lib db height txns u)
  unfolding rollback_utxos_txns rollback_utxo_ledger
  rollback_utxos_txns-Follows height [] m u safe agree = agree
  rollback_utxos_txns-Follows height (txn ∷ txns) m u safe agree =
      Follows-bind _ _ _ _ (Follows-rollback_txn height txn m u safe agree)
        (λ m' u' a. rollback_utxos_txns-Follows height txns m' u' safe a)
