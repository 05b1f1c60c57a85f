-- ===== src/Store/Unspent/Ledger.antt =====
-- The map that `persist_unspend` builds, against an abstract ledger that counts unspent outputs.
use mathlib.Core.Option
use mathlib.Core.Path.{subst}
use elastos_ela_side_chain_t.Base.{
  ℕ, suc, ◌+◌, ◌-◌, ◌%◌, ◌^◌, ◌≡◌, refl, List, [], ◌∷◌, ◌++◌, Bytes, Option, none, some, ◌&&◌, ◌==◌,
  if◌then◌else◌, bytes_eq, bytes_eq_iff, ok, >>=-eq-ok, ok-injective, sym, arith, Bool-cases, inl,
  inr, All,
}
use elastos_ela_side_chain_t.Base.Assoc.{bytes_Eq, lookup, insert, lookup-insert}
use elastos_ela_side_chain_t.Types.{Uint256, Transaction, Input, Output}
use elastos_ela_side_chain_t.Library.{Library}
use elastos_ela_side_chain_t.Format.{Format}
use elastos_ela_side_chain_t.Store.Database.{Database, Layout}
use elastos_ela_side_chain_t.Store.Count.{
  count, count_if, count_if-append, count-remove_value, remove_value,
}
use elastos_ela_side_chain_t.Store.Unspent.{
  Unspents, or_empty, add_outputs, read_unspent, spend_input, spend_inputs, unspend_txn,
  unspend_txns, unspent_key,
}

-- How many unspent outputs with this index a transaction has.
abbrev pub Ledger : Type 0
Ledger = Uint256 → ℕ → ℕ

-- One more, or one less, at one place. There is no less than none.
unfoldable pub credit : Uint256 → ℕ → Ledger → Ledger
credit h i u g j = if bytes_eq h g && i == j then u g j + 1 else u g j

unfoldable pub debit : Uint256 → ℕ → Ledger → Ledger
debit h i u g j = if bytes_eq h g && i == j then u g j - 1 else u g j

-- The outputs of a transaction, from the index `i` on.
unfoldable pub credits : Uint256 → List Output → ℕ → Ledger → Ledger
credits h [] i u = u
credits h (o ∷ os) i u = credits h os (suc i) (credit h (i % 2 ^ 16) u)

unfoldable pub debits : List Input → Ledger → Ledger
debits [] u = u
debits (input ∷ inputs) u =
    debits inputs (debit input.previous_tx_id (input.previous_index % 2 ^ 16) u)

pub count-one : (i j : ℕ) → count j (i ∷ []) ≡ (if i == j then 1 else 0)
unfolding count_if
count-one i j = refl

module _ (lib : Library) where
  unfoldable pub txn_ledger : Transaction → Ledger → Ledger
  txn_ledger txn u =
      let created = credits (lib.hash txn) txn.outputs 0 u in
      if lib.is_coin_base_tx txn then created else debits txn.inputs created

  -- The abstract effect of a block.
  unfoldable pub block_ledger : List Transaction → Ledger → Ledger
  block_ledger [] u = u
  block_ledger (txn ∷ txns) u = block_ledger txns (txn_ledger txn u)

-- The indices under a value; none if it is missing or unreadable.
unfoldable pub decode_stored : Layout → Option Bytes → List ℕ
decode_stored layout none = []
decode_stored layout (some value) = or_empty (layout.get_uint16_array value)

module _ (lib : Library) (format : Format) (layout : Layout) (db : Database) where
  -- The indices that the store holds for a transaction; none under a missing or unreadable value.
  unfoldable pub stored : Uint256 → List ℕ
  stored h = decode_stored layout (db.get (unspent_key lib format layout h))

  -- The map over the store.
  unfoldable pub view : Unspents → Uint256 → List ℕ
  view unspents h = Option.get_or (lookup h unspents) (stored h)

  pub view-insert :
      (h g : Uint256) (l : List ℕ) (m : Unspents)
      → view (insert h l m) g ≡ (if bytes_eq h g then l else view m g)
  unfolding view
  view-insert h g l m = ground (arith, lookup-insert h g l m)

  -- The map agrees with the ledger.
  abbrev pub Agrees : Unspents → Ledger → Type 0
  Agrees m u = (g : Uint256) (j : ℕ) → count j (view m g) ≡ u g j

  Agrees-credit :
      (h : Uint256) (i : ℕ) (m : Unspents) (u : Ledger)
      → stored h ≡ []
      → Agrees m u
      → Agrees (insert h (or_empty (lookup h m) ++ (i ∷ [])) m) (credit h i u)
  unfolding credit
  Agrees-credit h i m u fresh agree g j = ground (
    arith,
    view-insert h g (or_empty (lookup h m) ++ (i ∷ [])) m,
    known,
    count_if-append (λ x. x == j) (view m h) (i ∷ []),
    count-one i j,
    bytes_eq_iff h g,
    agree g j,
  )
    where
      known : or_empty (lookup h m) ≡ view m h
      known = unfold view in ground arith

  Agrees-debit :
      (h : Uint256) (i : ℕ) (m : Unspents) (u : Ledger)
      → Agrees m u
      → Agrees (insert h (remove_value i (view m h)) m) (debit h i u)
  unfolding debit
  Agrees-debit h i m u agree g j = ground (
    arith,
    view-insert h g (remove_value i (view m h)) m,
    count-remove_value i j (view m h),
    bytes_eq_iff h g,
    agree g j,
  )

  Agrees-credits :
      (h : Uint256) (os : List Output) (i : ℕ) (m : Unspents) (u : Ledger)
      → stored h ≡ []
      → Agrees m u
      → Agrees (add_outputs lib format layout h os i m) (credits h os i u)
  unfolding add_outputs credits
  Agrees-credits h [] i m u fresh agree = agree
  Agrees-credits h (o ∷ os) i m u fresh agree =
      Agrees-credits h os (suc i) _ (credit h (i % 2 ^ 16) u) fresh
        (Agrees-credit h (i % 2 ^ 16) m u fresh agree)

  read_unspent-view :
      (m : Unspents) (h : Uint256) {l : List ℕ}
      → read_unspent lib format layout db (lookup h m) h ≡ ok l
      → l ≡ view m h
  unfolding read_unspent view stored decode_stored
  read_unspent-view m h e = ground arith

  spend_input-eq :
      (input : Input) (m : Unspents) {m' : Unspents}
      → spend_input lib format layout db m input ≡ ok m'
      → m'
        ≡ insert input.previous_tx_id
            (remove_value (input.previous_index % 2 ^ 16) (view m input.previous_tx_id))
            m
  unfolding spend_input
  spend_input-eq input m e =
      let h = input.previous_tx_id in
      let (l, got, made) = >>=-eq-ok (read_unspent lib format layout db (lookup h m) h) _ e in
      ground (arith, read_unspent-view m h got, made)

  Agrees-spend_inputs :
      (inputs : List Input) (m : Unspents) (u : Ledger) {m' : Unspents}
      → spend_inputs lib format layout db m inputs ≡ ok m'
      → Agrees m u
      → Agrees m' (debits inputs u)
  unfolding debits spend_inputs
  Agrees-spend_inputs [] m u e agree = subst (λ x. Agrees x u) (ok-injective e) agree
  Agrees-spend_inputs (input ∷ inputs) m u e agree =
      let (n, first, rest) = >>=-eq-ok (spend_input lib format layout db m input) _ e in
      let i = input.previous_index % 2 ^ 16 in
      Agrees-spend_inputs inputs n (debit input.previous_tx_id i u) rest (
        subst (λ x. Agrees x (debit input.previous_tx_id i u)) (sym (spend_input-eq input m first))
          (Agrees-debit input.previous_tx_id i m u agree))

  Agrees-unspend_txn :
      (txn : Transaction) (m : Unspents) (u : Ledger) {m' : Unspents}
      → unspend_txn lib format layout db m txn ≡ ok m'
      → stored (lib.hash txn) ≡ []
      → Agrees m u
      → Agrees m' (txn_ledger lib txn u)
  unfolding txn_ledger unspend_txn
  Agrees-unspend_txn txn m u {m'} e fresh agree = elim (Bool-cases (lib.is_coin_base_tx txn)) [
    | inl is ↦ rw is (
        subst (λ x. Agrees x (credits (lib.hash txn) txn.outputs 0 u)) (ok-injective (rw is at e))
          created)
    | inr is ↦ rw is (Agrees-spend_inputs txn.inputs _ _ (rw is at e) created)
  ]
    where
      created :
          Agrees
            (add_outputs lib format layout (lib.hash txn) txn.outputs 0 m)
            (credits (lib.hash txn) txn.outputs 0 u)
      created = Agrees-credits (lib.hash txn) txn.outputs 0 m u fresh agree

  -- The map refines the ledger: after the transactions, each index is held as often as the ledger
  -- has it.
  pub unspend_txns-refines :
      (txns : List Transaction) (m : Unspents) (u : Ledger) {m' : Unspents}
      → unspend_txns lib format layout db m txns ≡ ok m'
      → All (λ txn. stored (lib.hash txn) ≡ []) txns
      → Agrees m u
      → Agrees m' (block_ledger lib txns u)
  unfolding block_ledger unspend_txns
  unspend_txns-refines [] m u e fresh agree = subst (λ x. Agrees x u) (ok-injective e) agree
  unspend_txns-refines (txn ∷ txns) m u e fresh agree =
      let (n, first, rest) = >>=-eq-ok (unspend_txn lib format layout db m txn) _ e in
      unspend_txns-refines txns n (txn_ledger lib txn u) rest fresh.1
        (Agrees-unspend_txn txn m u first fresh.0 agree)
