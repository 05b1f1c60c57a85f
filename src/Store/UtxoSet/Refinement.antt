-- ===== src/Store/UtxoSet/Refinement.antt =====
-- `persistUnspendUTXOs` implements the ledger of unspent outputs.
use elastos_ela_side_chain_t.Base.{
  ℕ, suc, ◌%◌, ◌^◌, ◌≡◌, ◌≢◌, refl, List, [], ◌∷◌, Bool, true, false, Option, none, some, leb,
  Outcome, ok, err, panic, ◌>>=◌, get_elem?, arith, Bool-cases, Option-cases, Outcome-cases, inl,
  inr, ◌⊎◌,
}
use elastos_ela_side_chain_t.Base.Assoc.{lookup, insert}
use elastos_ela_side_chain_t.Types.{Uint256, Transaction, Input, Output}
use elastos_ela_side_chain_t.Library.{Library}
use elastos_ela_side_chain_t.Format.{Format}
use elastos_ela_side_chain_t.Store.Database.{StoreError, Database, Layout}
use elastos_ela_side_chain_t.Store.Removal.{
  find_index, swap_remove, find_index-some, find_index-none, swap_remove-perm,
}
use elastos_ela_side_chain_t.Store.Count.{count_if-perm, count_if-cons, count_if-absent}
use elastos_ela_side_chain_t.Store.Utxo.{Utxo, UtxoKey}
use elastos_ela_side_chain_t.Store.UtxoSet.{
  UtxoMap, key_Eq, key_of, is_utxo, take_utxo, stored_unspents, held_or, or_no_utxos, or_no_unspent,
  create_utxos, spend_utxo, spend_utxos, utxos_txn, utxos_txns,
}
use elastos_ela_side_chain_t.Store.UtxoSet.Ledger.{
  UtxoLedger, gains, and_then, lose_output, lose_reference, losses, utxo_ledger_txn, utxo_ledger,
  list_of, utxo_view, AgreesUtxo, AgreesUtxo-gain, AgreesUtxo-lose,
}

module _ (lib : Library) (format : Format) (layout : Layout) (db : Database) where
  -- The code gives a map that agrees with the ledger, or fails where the ledger has no next state.
  abbrev pub Refines : Outcome StoreError UtxoMap → Option UtxoLedger → Type 0
  Refines (ok m) (some u) = AgreesUtxo lib format layout db m u
  Refines (ok m) none = ⊥
  Refines (err _) none = Unit {0}
  Refines (err _) (some u) = ⊥
  Refines panic none = Unit {0}
  Refines panic (some u) = ⊥

  Refines-bind :
      (r : Outcome StoreError UtxoMap) (s : Option UtxoLedger)
      (f : UtxoMap → Outcome StoreError UtxoMap) (g : UtxoLedger → Option UtxoLedger)
      → Refines r s
      → ((m : UtxoMap) (u : UtxoLedger) → AgreesUtxo lib format layout db m u → Refines (f m) (g u))
      → Refines (r >>= f) (and_then s g)
  Refines-bind (ok m) (some u) f g a k = k m u a
  Refines-bind (ok m) none f g a k = absurd a
  Refines-bind (err _) none f g a k = tt
  Refines-bind (err _) (some u) f g a k = absurd a
  Refines-bind panic none f g a k = tt
  Refines-bind panic (some u) f g a k = absurd a

  pub held_or-created :
      (m : UtxoMap) (k : UtxoKey)
      → stored_unspents lib format layout db k ≢ panic
      → held_or (lookup k m) (or_no_utxos (stored_unspents lib format layout db k))
        ≡ ok (utxo_view lib format layout db m k)
  unfolding held_or or_no_utxos utxo_view list_of
  held_or-created m k safe = elim (Option-cases (lookup k m)) [
    | inr (l, e) ↦ rw e refl
    | inl e ↦ rw e (elim (Outcome-cases (stored_unspents lib format layout db k)) [
      | inl (l, r) ↦ rw r refl
      | inr (inl (x, r)) ↦ rw r refl
      | inr (inr r) ↦ absurd (safe r)
    ])
  ]

  pub held_or-spent :
      (m : UtxoMap) (k : UtxoKey)
      → let r = held_or (lookup k m) (or_no_unspent (stored_unspents lib format layout db k)) in
        (r ≡ ok (utxo_view lib format layout db m k))
        ⊎ ((utxo_view lib format layout db m k ≡ [])
            × ((r ≡ err StoreError.no_unspent) ⊎ (r ≡ panic)))
  unfolding held_or or_no_unspent utxo_view list_of
  held_or-spent m k = elim (Option-cases (lookup k m)) [
    | inr (l, e) ↦ rw e (inl refl)
    | inl e ↦ rw e (elim (Outcome-cases (stored_unspents lib format layout db k)) [
      | inl (l, r) ↦ rw r (inl refl)
      | inr (inl (x, r)) ↦ rw r (inr (refl, inl refl))
      | inr (inr r) ↦ rw r (inr (refl, inr refl))
    ])
  ]

  Refines-create_utxos :
      (height : ℕ) (h : Uint256) (os : List Output) (i : ℕ) (m : UtxoMap) (u : UtxoLedger)
      → ((k : UtxoKey) → stored_unspents lib format layout db k ≢ panic)
      → AgreesUtxo lib format layout db m u
      → Refines (create_utxos lib format layout db height h os i m) (some (gains height h os i u))
  unfolding create_utxos gains
  Refines-create_utxos height h [] i m u safe agree = agree
  Refines-create_utxos height h (o ∷ os) i m u safe agree =
      rw (held_or-created m (key_of o height) (safe (key_of o height))) (
        Refines-create_utxos height h os (suc i) _ _ safe
          (AgreesUtxo-gain lib format layout db (key_of o height) h i o m u agree))

  -- Taking an element out of the list under a key.
  Refines-take_utxo :
      (txn : Transaction) (height i : ℕ) (o : Output) (m : UtxoMap) (u : UtxoLedger)
      → AgreesUtxo lib format layout db m u
      → let k = key_of o height in
        let l = utxo_view lib format layout db m k in
        Refines
          (take_utxo (find_index (is_utxo lib (lib.hash txn) i) l) l >>= λ l'. ok (insert k l' m))
          (lose_output lib db txn height i (some o) u)
  unfolding take_utxo lose_output
  Refines-take_utxo txn height i o m u agree =
      let k = key_of o height in
      let p = is_utxo lib (lib.hash txn) i in
      let l = utxo_view lib format layout db m k in
      elim (Option-cases (find_index p l)) [
        | inl missing ↦
            let zero_left : leb 1 (u k (lib.hash txn) i) ≡ false = ground (
              arith,
              agree k (lib.hash txn) i,
              count_if-absent p l (find_index-none p l missing),
            ) in
            rw (missing, zero_left) tt
        | inr (n, found) ↦
            let (x, at, same) = find_index-some p l found in
            let one_left : leb 1 (u k (lib.hash txn) i) ≡ true = ground (
              arith,
              agree k (lib.hash txn) i,
              count_if-perm p (x ∷ swap_remove n l) l (swap_remove-perm l n at),
              count_if-cons p x (swap_remove n l),
            ) in
            rw (found, one_left)
              (AgreesUtxo-lose lib format layout db k (lib.hash txn) i x (swap_remove n l) m u
                (swap_remove-perm l n at) same agree)
      ]

  take_utxo-nil :
      (p : Utxo → Bool) (l : List Utxo)
      → l ≡ []
      → take_utxo (find_index p l) l ≡ err StoreError.unspent_not_found
  unfolding take_utxo find_index
  take_utxo-nil p l e = rw e refl

  Refines-spend_utxo :
      (input : Input) (m : UtxoMap) (u : UtxoLedger)
      → AgreesUtxo lib format layout db m u
      → Refines
          (spend_utxo lib format layout db m input)
          (lose_reference lib db (db.get_transaction input.previous_tx_id) input.previous_index u)
  unfolding spend_utxo lose_reference
  Refines-spend_utxo input m u agree =
      elim (Option-cases (db.get_transaction input.previous_tx_id)) [
        | inl e ↦ rw e tt
        | inr ((txn, height), e) ↦
            rw e (elim (Option-cases (get_elem? txn.outputs input.previous_index)) [
              | inl out ↦ rw out (unfold lose_output in tt)
              | inr (o, at) ↦ rw at (held o txn height)
            ])
      ]
    where
      held :
          (o : Output) (txn : Transaction) (height : ℕ)
          → let k = key_of o height in
            let i = input.previous_index % 2 ^ 32 in
            Refines
              (held_or (lookup k m) (or_no_unspent (stored_unspents lib format layout db k))
                >>= λ l. take_utxo (find_index (is_utxo lib (lib.hash txn) i) l) l >>= λ l'.
                    ok (insert k l' m))
              (lose_output lib db txn height i (some o) u)
      held o txn height =
          let k = key_of o height in
          let i = input.previous_index % 2 ^ 32 in
          let p = is_utxo lib (lib.hash txn) i in
          let full = Refines-take_utxo txn height i o m u agree in
          elim (held_or-spent m k) [
            | inl r ↦ rw r full
            | inr (nothing, r) ↦
                let fails =
                  rw (take_utxo-nil p (utxo_view lib format layout db m k) nothing) at full in
                elim r [ inl r ↦ rw r fails | inr r ↦ rw r fails ]
          ]

  Refines-spend_utxos :
      (inputs : List Input) (m : UtxoMap) (u : UtxoLedger)
      → AgreesUtxo lib format layout db m u
      → Refines (spend_utxos lib format layout db m inputs) (losses lib db inputs u)
  unfolding spend_utxos losses
  Refines-spend_utxos [] m u agree = agree
  Refines-spend_utxos (input ∷ inputs) m u agree =
      Refines-bind _ _ _ _ (Refines-spend_utxo input m u agree)
        (λ m' u' a. Refines-spend_utxos inputs m' u' a)

  Refines-utxos_txn :
      (height : ℕ) (txn : Transaction) (m : UtxoMap) (u : UtxoLedger)
      → ((k : UtxoKey) → stored_unspents lib format layout db k ≢ panic)
      → AgreesUtxo lib format layout db m u
      → Refines (utxos_txn lib format layout db height m txn) (utxo_ledger_txn lib db height txn u)
  unfolding utxos_txn utxo_ledger_txn
  Refines-utxos_txn height txn m u safe agree =
      let created = Refines-create_utxos height (lib.hash txn) txn.outputs 0 m u safe agree in
      elim (Bool-cases (lib.is_coin_base_tx txn)) [
        | inl is ↦ rw is (
            Refines-bind (create_utxos lib format layout db height (lib.hash txn) txn.outputs 0 m)
              (some (gains height (lib.hash txn) txn.outputs 0 u)) (λ x. ok x) (λ v. some v) created
              (λ m' u' a. a))
        | inr is ↦ rw is (
            Refines-bind (create_utxos lib format layout db height (lib.hash txn) txn.outputs 0 m)
              (some (gains height (lib.hash txn) txn.outputs 0 u))
              (λ x. spend_utxos lib format layout db x txn.inputs) (losses lib db txn.inputs)
              created (λ m' u' a. Refines-spend_utxos txn.inputs m' u' a))
      ]

  -- From a map that agrees with the ledger, the loop of `persistUnspendUTXOs` implements it: the loop
  -- fails exactly where some input names no stored output or one that the ledger does not have, and
  -- otherwise gives a map that agrees with the ledger after the transactions. No list in the store
  -- makes the read panic.
  pub utxos_txns-Refines :
      (height : ℕ) (txns : List Transaction) (m : UtxoMap) (u : UtxoLedger)
      → ((k : UtxoKey) → stored_unspents lib format layout db k ≢ panic)
      → AgreesUtxo lib format layout db m u
      → Refines (utxos_txns lib format layout db height m txns) (utxo_ledger lib db height txns u)
  unfolding utxos_txns utxo_ledger
  utxos_txns-Refines height [] m u safe agree = agree
  utxos_txns-Refines height (txn ∷ txns) m u safe agree =
      Refines-bind _ _ _ _ (Refines-utxos_txn height txn m u safe agree)
        (λ m' u' a. utxos_txns-Refines height txns m' u' safe a)
