-- ===== src/Store/Unspent/Restored.antt =====
-- The map that `rollbackUnspend` builds: one more index for each input of the block.
use mathlib.Core.List.{append-nil, append_assoc}
use elastos_ela_side_chain_t.Base.{
  ℕ, suc, ◌≡◌, refl, Bytes, List, [], ◌∷◌, ◌++◌, Bool, true, false, Option, none, some, ◌&&◌, ◌||◌,
  ◌==◌, if◌then◌else◌, bytes_eq, All, ok, ◌>>=◌, ok-injective, arith, Bool-cases, Option-cases,
  Outcome-cases, inl, inr, sym,
}
use elastos_ela_side_chain_t.Base.Assoc.{bytes_Eq, lookup}
use elastos_ela_side_chain_t.Types.{Uint256, Transaction, Input}
use elastos_ela_side_chain_t.Library.{Library}
use elastos_ela_side_chain_t.Format.{Format}
use elastos_ela_side_chain_t.Store.Database.{Database, Layout, Op, Batch}
use elastos_ela_side_chain_t.Store.Unspent.{
  Unspents, or_empty, decode_spent, read_spent, restore_input, restore_inputs, restore_txns,
  unspent_key,
}
use elastos_ela_side_chain_t.Store.Unspent.Ledger.{decode_stored, stored, view}
use elastos_ela_side_chain_t.Store.Unspent.Writable.{IsUint16, IsWritable}

-- Whether some input names a transaction, and how many name one output of it.
unfoldable pub refers : Uint256 → List Input → Bool
refers h [] = false
refers h (input ∷ inputs) = bytes_eq input.previous_tx_id h || refers h inputs

unfoldable pub spends : Uint256 → ℕ → List Input → ℕ
spends h j [] = 0
spends h j (input ∷ inputs) =
    if bytes_eq input.previous_tx_id h && input.previous_index == j
    then suc (spends h j inputs)
    else spends h j inputs

abbrev pub is_held : Option (List ℕ) → Bool
is_held none = false
is_held (some l) = true

module _ (lib : Library) where
  -- The inputs of the ordinary transactions, in the order of the block.
  unfoldable pub spent_inputs : List Transaction → List Input
  spent_inputs [] = []
  spent_inputs (txn ∷ txns) =
      if lib.is_coin_base_tx txn then spent_inputs txns else txn.inputs ++ spent_inputs txns

  -- Whether a hash is that of a transaction of the block.
  unfoldable pub has_hash : Uint256 → List Transaction → Bool
  has_hash h [] = false
  has_hash h (txn ∷ txns) = bytes_eq (lib.hash txn) h || has_hash h txns

  module _ (format : Format) (layout : Layout) where
    -- The deletions of the loop over the transactions.
    unfoldable pub deletions : List Transaction → Batch
    deletions [] = []
    deletions (txn ∷ txns) =
        Op.delete (unspent_key lib format layout (lib.hash txn)) ∷ deletions txns

module _ (lib : Library) (format : Format) (layout : Layout) (db : Database) where
  restore_inputs-append :
      (a b : List Input) (m : Unspents)
      → restore_inputs lib format layout db m (a ++ b)
        ≡ (restore_inputs lib format layout db m a >>= λ n. restore_inputs lib format layout db n b)
  unfolding restore_inputs
  restore_inputs-append [] b m = refl
  restore_inputs-append (input ∷ a) b m =
      elim (Outcome-cases (restore_input lib format layout db m input)) [
        | inl (n, e) ↦ rw e (restore_inputs-append a b n)
        | inr (inl (x, e)) ↦ rw e refl
        | inr (inr e) ↦ rw e refl
      ]

  pub IsUint16-view :
      (m : Unspents) (h : Uint256) → IsWritable m → All IsUint16 (view lib format layout db m h)
  unfolding view stored
  IsUint16-view m h w = elim (Option-cases (lookup h m)) [
    | inr (l, hit) ↦ rw hit (w.ranged h l hit)
    | inl miss ↦ rw miss (decoded (db.get (unspent_key lib format layout h)))
  ]
    where
      decoded : (o : Option Bytes) → All IsUint16 (decode_stored layout o)
      decoded none = unfold decode_stored in tt
      decoded (some value) =
          unfold decode_stored in
          elim (Option-cases (layout.get_uint16_array value)) [
            | inl bad ↦ rw bad tt
            | inr (l, e) ↦ rw e (layout.get_uint16_array_range value l e)
          ]

  -- The loop over the transactions is one loop over the inputs that the block spends.
  pub restore_txns-eq :
      (txns : List Transaction) (batch : Batch) (m : Unspents)
      → restore_txns lib format layout db batch m txns ≡ (
          restore_inputs lib format layout db m (spent_inputs lib txns) >>= λ n.
          ok (batch ++ deletions lib format layout txns, n))
  unfolding restore_txns spent_inputs deletions
  restore_txns-eq [] batch m = unfold restore_inputs in rw (append-nil batch) refl
  restore_txns-eq (txn ∷ txns) batch m = elim (Bool-cases (lib.is_coin_base_tx txn)) [
    | inl is ↦ rw (is, restore_txns-eq txns _ m, append_assoc) refl
    | inr is ↦
        rw (is, restore_inputs-append txn.inputs (spent_inputs lib txns) m)
          (elim (Outcome-cases (restore_inputs lib format layout db m txn.inputs)) [
            | inl (n, e) ↦ rw (e, restore_txns-eq txns _ n, append_assoc) refl
            | inr (inl (x, e)) ↦ rw e refl
            | inr (inr e) ↦ rw e refl
          ])
  ]

  -- The values under the keys of unspent indices can be read.
  abbrev pub IsSound : Type 0
  IsSound =
      (h : Uint256) (value : Bytes)
      → db.get (unspent_key lib format layout h) ≡ some value
      → (l : List ℕ) × (layout.get_uint16_array value ≡ some l)

  decode_spent-stored :
      (o : Option Bytes) {l : List ℕ}
      → decode_spent lib format layout (or_empty o) ≡ ok l
      → l ≡ decode_stored layout o
  unfolding decode_spent decode_stored
  decode_spent-stored none e = sym (ok-injective e)
  decode_spent-stored (some []) {l} e =
      let none_read : l ≡ [] = sym (ok-injective e) in
      rw none_read (elim (Option-cases (layout.get_uint16_array [])) [
        | inl bad ↦ rw bad refl
        | inr (k, good) ↦ rw (good, layout.get_uint16_array_empty k good) refl
      ])
  decode_spent-stored (some (x ∷ v)) e = ground arith

  pub read_spent-view :
      (m : Unspents) (h : Uint256) {l : List ℕ}
      → read_spent lib format layout db (lookup h m) h ≡ ok l
      → l ≡ view lib format layout db m h
  unfolding read_spent view stored
  read_spent-view m h {l} e = elim (Option-cases (lookup h m)) [
    | inr (k, hit) ↦ rw hit (sym (ok-injective (rw hit at e)))
    | inl miss ↦
        rw miss (decode_spent-stored (db.get (unspent_key lib format layout h)) (rw miss at e))
  ]

  -- A read can only fail on a value that is no array.
  pub read_spent-total :
      (m : Unspents) (h : Uint256)
      → IsSound
      → (l : List ℕ) × (read_spent lib format layout db (lookup h m) h ≡ ok l)
  unfolding read_spent decode_spent
  read_spent-total m h sound = elim (Option-cases (lookup h m)) [
    | inr (k, hit) ↦ (k, rw hit refl)
    | inl miss ↦ elim (Option-cases (db.get (unspent_key lib format layout h))) [
      | inl gone ↦ ([], rw (miss, gone) refl)
      | inr (value, held) ↦ rw (miss, held) (read value (sound h value held))
    ]
  ]
    where
      read :
          (value : Bytes)
          → ((l : List ℕ) × (layout.get_uint16_array value ≡ some l))
          → (l : List ℕ) × (decode_spent lib format layout value ≡ ok l)
      read [] known = ([], unfold decode_spent in refl)
      read (x ∷ v) (l, e) = (l, unfold decode_spent in rw e refl)
