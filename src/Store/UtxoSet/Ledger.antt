-- ===== src/Store/UtxoSet/Ledger.antt =====
-- The abstract ledger of unspent outputs, and when the map of `persistUnspendUTXOs` agrees with it.
use mathlib.Core.Option
use mathlib.Core.List.{Perm}
use elastos_ela_side_chain_t.Base.{
  ℕ, suc, ◌+◌, ◌-◌, ◌%◌, ◌^◌, ◌≡◌, refl, List, [], ◌∷◌, ◌++◌, Bool, true, Option, none, some, ◌&&◌,
  ◌==◌, if◌then◌else◌, bytes_eq, bytes_eq_iff, leb, Outcome, ok, err, panic, get_elem?, arith,
}
use elastos_ela_side_chain_t.Base.Assoc.{lookup, insert, lookup-insert}
use elastos_ela_side_chain_t.Types.{Uint256, Transaction, Input, Output}
use elastos_ela_side_chain_t.Library.{Library}
use elastos_ela_side_chain_t.Format.{Format}
use elastos_ela_side_chain_t.Store.Database.{StoreError, Database, Layout}
use elastos_ela_side_chain_t.Store.Count.{count_if, count_if-perm, count_if-cons, count_if-append}
use elastos_ela_side_chain_t.Store.Utxo.{Utxo, UtxoKey}
use elastos_ela_side_chain_t.Store.UtxoSet.{
  UtxoMap, key_Eq, key_beq, key_beq_iff, key_of, is_utxo, utxo_of, stored_unspents,
}

-- How many unspent outputs stand under a key for a transaction and an index.
abbrev pub UtxoLedger : Type 0
UtxoLedger = UtxoKey → Uint256 → ℕ → ℕ

abbrev at_entry : UtxoKey → Uint256 → ℕ → UtxoKey → Uint256 → ℕ → Bool
at_entry k h i k' h' i' = key_beq k k' && bytes_eq h h' && i == i'

unfoldable pub gain : UtxoKey → Uint256 → ℕ → UtxoLedger → UtxoLedger
gain k h i u k' h' i' = if at_entry k h i k' h' i' then u k' h' i' + 1 else u k' h' i'

unfoldable pub lose : UtxoKey → Uint256 → ℕ → UtxoLedger → UtxoLedger
lose k h i u k' h' i' = if at_entry k h i k' h' i' then u k' h' i' - 1 else u k' h' i'

unfoldable pub gains : ℕ → Uint256 → List Output → ℕ → UtxoLedger → UtxoLedger
gains height h [] i u = u
gains height h (o ∷ os) i u = gains height h os (suc i) (gain (key_of o height) h (i % 2 ^ 32) u)

abbrev pub and_then : Option UtxoLedger → (UtxoLedger → Option UtxoLedger) → Option UtxoLedger
and_then none f = none
and_then (some u) f = f u

module _ (lib : Library) (db : Database) where
  -- An output can be spent only if the ledger has it.
  unfoldable pub lose_output : Transaction → ℕ → ℕ → Option Output → UtxoLedger → Option UtxoLedger
  lose_output txn height i none u = none
  lose_output txn height i (some o) u =
      if leb 1 (u (key_of o height) (lib.hash txn) i)
      then some (lose (key_of o height) (lib.hash txn) i u)
      else none

  unfoldable pub lose_reference : Option (Transaction × ℕ) → ℕ → UtxoLedger → Option UtxoLedger
  lose_reference none i u = none
  lose_reference (some (txn, height)) i u =
      lose_output txn height (i % 2 ^ 32) (get_elem? txn.outputs i) u

  unfoldable pub losses : List Input → UtxoLedger → Option UtxoLedger
  losses [] u = some u
  losses (input ∷ inputs) u =
      and_then (lose_reference (db.get_transaction input.previous_tx_id) input.previous_index u)
        (losses inputs)

  unfoldable pub utxo_ledger_txn : ℕ → Transaction → UtxoLedger → Option UtxoLedger
  utxo_ledger_txn height txn u =
      let created = gains height (lib.hash txn) txn.outputs 0 u in
      if lib.is_coin_base_tx txn then some created else losses txn.inputs created

  unfoldable pub utxo_ledger : ℕ → List Transaction → UtxoLedger → Option UtxoLedger
  utxo_ledger height [] u = some u
  utxo_ledger height (txn ∷ txns) u =
      and_then (utxo_ledger_txn height txn u) (utxo_ledger height txns)

-- The list that a read gave; none if it failed.
unfoldable pub list_of : Outcome StoreError (List Utxo) → List Utxo
list_of (ok l) = l
list_of (err _) = []
list_of panic = []

count_if-one : {A : Type 0} (p : A → Bool) (x : A) → count_if p (x ∷ []) ≡ (if p x then 1 else 0)
unfolding count_if
count_if-one p x = refl

module _ (lib : Library) (format : Format) (layout : Layout) (db : Database) where
  -- The map over the store.
  unfoldable pub utxo_view : UtxoMap → UtxoKey → List Utxo
  utxo_view m k = Option.get_or (lookup k m) (list_of (stored_unspents lib format layout db k))

  abbrev pub AgreesUtxo : UtxoMap → UtxoLedger → Type 0
  AgreesUtxo m u =
      (k : UtxoKey) (h : Uint256) (i : ℕ) → count_if (is_utxo lib h i) (utxo_view m k) ≡ u k h i

  utxo_view-insert :
      (k j : UtxoKey) (l : List Utxo) (m : UtxoMap)
      → utxo_view (insert k l m) j ≡ (if key_beq k j then l else utxo_view m j)
  unfolding utxo_view
  utxo_view-insert k j l m = ground (arith, lookup-insert k j l m)

  is_utxo-utxo_of :
      (h g : Uint256) (i j : ℕ) (o : Output)
      → is_utxo lib g j (utxo_of lib format h i o) ≡ (bytes_eq h g && i % 2 ^ 32 == j)
  unfolding is_utxo utxo_of
  is_utxo-utxo_of h g i j o = ground (arith, lib.is_equal_iff h g, bytes_eq_iff h g)

  pub AgreesUtxo-gain :
      (k : UtxoKey) (h : Uint256) (i : ℕ) (o : Output) (m : UtxoMap) (u : UtxoLedger)
      → AgreesUtxo m u
      → AgreesUtxo
          (insert k (utxo_view m k ++ (utxo_of lib format h i o ∷ [])) m)
          (gain k h (i % 2 ^ 32) u)
  unfolding gain
  AgreesUtxo-gain k h i o m u agree j g n =
      let p = is_utxo lib g n in
      let x = utxo_of lib format h i o in
      ground (
        arith,
        utxo_view-insert k j (utxo_view m k ++ (x ∷ [])) m,
        count_if-append p (utxo_view m k) (x ∷ []),
        count_if-one p x,
        is_utxo-utxo_of h g i n o,
        key_beq_iff k j,
        agree j g n,
      )

  -- Of two tests for the same element, one is the other.
  is_utxo-same :
      (h g : Uint256) (i n : ℕ) (x : Utxo)
      → is_utxo lib h i x ≡ true
      → is_utxo lib g n x ≡ (bytes_eq h g && i == n)
  unfolding is_utxo
  is_utxo-same h g i n x e =
      ground (arith, lib.is_equal_iff x.tx_id h, lib.is_equal_iff x.tx_id g, bytes_eq_iff h g)

  pub AgreesUtxo-lose :
      (k : UtxoKey) (h : Uint256) (i : ℕ) (x : Utxo) (rest : List Utxo) (m : UtxoMap)
      (u : UtxoLedger)
      → Perm (x ∷ rest) (utxo_view m k)
      → is_utxo lib h i x ≡ true
      → AgreesUtxo m u
      → AgreesUtxo (insert k rest m) (lose k h i u)
  unfolding lose
  AgreesUtxo-lose k h i x rest m u perm same agree j g q =
      let p = is_utxo lib g q in
      ground (
        arith,
        utxo_view-insert k j rest m,
        count_if-perm p (x ∷ rest) (utxo_view m k) perm,
        count_if-cons p x rest,
        is_utxo-same h g i q x same,
        key_beq_iff k j,
        agree j g q,
      )
