-- ===== src/Store/Unspent/Total.antt =====
-- When `persistUnspend` succeeds.
use elastos_ela_side_chain_t.Base.{
  ℕ, suc, ◌%◌, ◌^◌, ◌≤◌, ◌≡◌, refl, sym, List, [], ◌∷◌, ◌++◌, length, true, false, Option, none,
  All, All-map, bytes_eq, bytes_eq_iff, ok, arith, Bool-cases, inl, inr, ◌⊎◌,
}
use elastos_ela_side_chain_t.Base.Assoc.{bytes_Eq, lookup, insert, lookup-insert}
use elastos_ela_side_chain_t.Types.{Uint256, Transaction, Input, Output, Block}
use elastos_ela_side_chain_t.Library.{Library}
use elastos_ela_side_chain_t.Format.{Format}
use elastos_ela_side_chain_t.Store.Database.{Database, Layout, Batch}
use elastos_ela_side_chain_t.Store.Count.{remove_value}
use elastos_ela_side_chain_t.Store.Unspent.{
  Unspents, add_outputs, read_unspent, spend_input, spend_inputs, unspend_txn, unspend_txns,
  write_unspents, persist_unspend,
}

module _ (lib : Library) (format : Format) (layout : Layout) (db : Database) where
  -- The unspent indices of a transaction can be read.
  abbrev pub IsReadable : Option (List ℕ) → Uint256 → Type 0
  IsReadable held h = (l : List ℕ) × (read_unspent lib format layout db held h ≡ ok l)

  -- The transactions whose outputs are at hand, with those of one more.
  abbrev pub AndOf : Transaction → (Uint256 → Type 0) → Uint256 → Type 0
  AndOf txn K h = K h ⊎ ((h ≡ lib.hash txn) × (1 ≤ length txn.outputs))

  -- Every input names a transaction that is at hand: before the block, or in it and not later.
  abbrev pub IsAvailable : (Uint256 → Type 0) → List Transaction → Type 0
  IsAvailable K [] = Unit {0}
  IsAvailable K (txn ∷ txns) =
      (lib.is_coin_base_tx txn ≡ false
        → All (λ (i : Input). AndOf txn K i.previous_tx_id) txn.inputs)
      × IsAvailable (AndOf txn K) txns

  IsReadable-insert :
      (g h : Uint256) (l : List ℕ) (m : Unspents)
      → (bytes_eq g h ≡ true) ⊎ IsReadable (lookup h m) h
      → IsReadable (lookup h (insert g l m)) h
  unfolding read_unspent
  IsReadable-insert g h l m known = elim (Bool-cases (bytes_eq g h)) [
    | inl same ↦ rw (lookup-insert g h l m, same) (l, refl)
    | inr other ↦
        rw (lookup-insert g h l m, other)
          (elim known [ inl same ↦ absurd (ground arith) | inr readable ↦ readable ])
  ]

  IsReadable-add_outputs :
      (g h : Uint256) (os : List Output) (i : ℕ) (m : Unspents)
      → ((g ≡ h) × (1 ≤ length os)) ⊎ IsReadable (lookup h m) h
      → IsReadable (lookup h (add_outputs lib format layout g os i m)) h
  unfolding add_outputs
  IsReadable-add_outputs g h [] i m (inl made) = absurd (omega (arith, made.1))
  IsReadable-add_outputs g h [] i m (inr readable) = readable
  IsReadable-add_outputs g h (o ∷ os) i m known =
      IsReadable-add_outputs g h os (suc i) _ (inr (IsReadable-insert g h _ m (one known)))
    where
      one :
          ((g ≡ h) × (1 ≤ length (o ∷ os))) ⊎ IsReadable (lookup h m) h
          → (bytes_eq g h ≡ true) ⊎ IsReadable (lookup h m) h
      one (inl made) = inl ((bytes_eq_iff g h).1 made.0)
      one (inr readable) = inr readable

  spend_inputs-total :
      (inputs : List Input) (m : Unspents)
      → All (λ (i : Input). IsReadable (lookup i.previous_tx_id m) i.previous_tx_id) inputs
      → (m' : Unspents) × (spend_inputs lib format layout db m inputs ≡ ok m')
        × ((h : Uint256) → IsReadable (lookup h m) h → IsReadable (lookup h m') h)
  unfolding spend_inputs spend_input
  spend_inputs-total [] m known = (m, refl, λ h r. r)
  spend_inputs-total (input ∷ inputs) m ((l, read), known) =
      let h = input.previous_tx_id in
      let n : Unspents = insert h (remove_value (input.previous_index % 2 ^ 16) l) m in
      let kept : (g : Uint256) → IsReadable (lookup g m) g → IsReadable (lookup g n) g =
        λ g r. IsReadable-insert h g (remove_value (input.previous_index % 2 ^ 16) l) m (inr r) in
      let (m', e, keeps) =
        spend_inputs-total inputs n
          (All-map (λ (i : Input) r. kept i.previous_tx_id r) inputs known) in
      (m', rw read e, λ g r. keeps g (kept g r))

  unspend_txn-total :
      (txn : Transaction) (m : Unspents) (K : Uint256 → Type 0)
      → ((h : Uint256) → K h → IsReadable (lookup h m) h)
      → (lib.is_coin_base_tx txn ≡ false
          → All (λ (i : Input). AndOf txn K i.previous_tx_id) txn.inputs)
      → (m' : Unspents) × (unspend_txn lib format layout db m txn ≡ ok m')
        × ((h : Uint256) → AndOf txn K h → IsReadable (lookup h m') h)
  unfolding unspend_txn
  unspend_txn-total txn m K known available =
      let n : Unspents = add_outputs lib format layout (lib.hash txn) txn.outputs 0 m in
      let created : (h : Uint256) → AndOf txn K h → IsReadable (lookup h n) h = λ h k. made h k in
      elim (Bool-cases (lib.is_coin_base_tx txn)) [
        | inl is ↦ (n, rw is refl, created)
        | inr is ↦
            let (m', e, keeps) =
              spend_inputs-total txn.inputs n
                (All-map (λ i k. created i.previous_tx_id k) txn.inputs (available is)) in
            (m', rw is e, λ h k. keeps h (created h k))
      ]
    where
      made :
          (h : Uint256)
          → AndOf txn K h
          → IsReadable (lookup h (add_outputs lib format layout (lib.hash txn) txn.outputs 0 m)) h
      made h (inl k) = IsReadable-add_outputs (lib.hash txn) h txn.outputs 0 m (inr (known h k))
      made h (inr own) =
          IsReadable-add_outputs (lib.hash txn) h txn.outputs 0 m (inl (sym own.0, own.1))

  unspend_txns-total :
      (txns : List Transaction) (m : Unspents) (K : Uint256 → Type 0)
      → ((h : Uint256) → K h → IsReadable (lookup h m) h)
      → IsAvailable K txns
      → (m' : Unspents) × (unspend_txns lib format layout db m txns ≡ ok m')
  unfolding unspend_txns
  unspend_txns-total [] m K known available = (m, refl)
  unspend_txns-total (txn ∷ txns) m K known available =
      let (n, e, later) = unspend_txn-total txn m K known available.0 in
      let (m', e') = unspend_txns-total txns n (AndOf txn K) later available.1 in (m', rw e e')

  -- `persistUnspend` succeeds on a block in which every input of an ordinary transaction names a
  -- transaction whose unspent indices the store can read, or one with outputs that stands in the
  -- block and not later.
  pub persist_unspend-total :
      (batch : Batch) (b : Block)
      → IsAvailable (IsReadable none) b.transactions
      → (batch' : Batch) × (persist_unspend lib format layout db batch b ≡ ok batch')
  unfolding persist_unspend
  persist_unspend-total batch b available =
      let (m, e) =
        unspend_txns-total b.transactions [] (IsReadable none) (λ h k. unfold lookup in k)
          available in
      (batch ++ write_unspents lib format layout m, rw e refl)
