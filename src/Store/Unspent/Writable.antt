-- ===== src/Store/Unspent/Writable.antt =====
-- The map that `persist_unspend` builds has no key twice, and every index in it is a uint16.
use mathlib.Core.Path.{subst}
use elastos_ela_side_chain_t.Base.{
  ℕ, suc, ◌%◌, ◌^◌, ◌<◌, ◌≡◌, List, [], ◌∷◌, ◌++◌, some, bytes_eq, All, ok, or_err, >>=-eq-ok,
  ok-injective, arith, Bool-cases, Option-cases, inl, inr,
}
use elastos_ela_side_chain_t.Base.Assoc.{
  bytes_Eq, lookup, insert, lookup-insert, Distinct, Distinct-insert,
}
use elastos_ela_side_chain_t.Types.{Uint256, Transaction, Input, Output}
use elastos_ela_side_chain_t.Library.{Library}
use elastos_ela_side_chain_t.Format.{Format}
use elastos_ela_side_chain_t.Store.Database.{StoreError, Database, Layout}
use elastos_ela_side_chain_t.Store.Kept.{All-remove_value}
use elastos_ela_side_chain_t.Store.Unspent.{
  Unspents, or_empty, unspent_key, add_outputs, read_unspent, spend_input, spend_inputs,
  unspend_txn, unspend_txns,
}

abbrev pub IsUint16 : ℕ → Type 0
IsUint16 n = n < 2 ^ 16

-- A map that can be written: no key twice, and every list of uint16.
pub record IsWritable (m : Unspents) : Type 0 where
  pub distinct : Distinct m
  pub ranged : (h : Uint256) (l : List ℕ) → lookup h m ≡ some l → All IsUint16 l

pub IsWritable-nil : IsWritable []
unfolding lookup
IsWritable-nil = record { distinct = tt; ranged = λ g l none-some. ground (arith) }

pub All-snoc : (l : List ℕ) {n : ℕ} → All IsUint16 l → IsUint16 n → All IsUint16 (l ++ (n ∷ []))
All-snoc [] a b = (b, tt)
All-snoc (x ∷ l) a b = (a.0, All-snoc l a.1 b)

pub IsWritable-insert :
    (h : Uint256) (l : List ℕ) (m : Unspents)
    → All IsUint16 l
    → IsWritable m
    → IsWritable (insert h l m)
IsWritable-insert h l m fits w = record {
  distinct = Distinct-insert h l m w.distinct;
  ranged = λ g k e. elim (Bool-cases (bytes_eq h g)) [
    | inl same ↦
        let found : l ≡ k = ground (arith, lookup-insert h g l m) in subst (All IsUint16) found fits
    | inr other ↦
        let below : lookup g m ≡ some k = ground (arith, lookup-insert h g l m) in
        w.ranged g k below
  ];
}

module _ (lib : Library) (format : Format) (layout : Layout) (db : Database) where
  IsUint16-or_empty :
      (h : Uint256) (m : Unspents) → IsWritable m → All IsUint16 (or_empty (lookup h m))
  IsUint16-or_empty h m w = elim (Option-cases (lookup h m)) [
    | inl e ↦ rw e tt
    | inr (l, e) ↦ rw e (w.ranged h l e)
  ]

  IsWritable-add_outputs :
      (h : Uint256) (os : List Output) (i : ℕ) (m : Unspents)
      → IsWritable m
      → IsWritable (add_outputs lib format layout h os i m)
  unfolding add_outputs
  IsWritable-add_outputs h [] i m w = w
  IsWritable-add_outputs h (o ∷ os) i m w =
      IsWritable-add_outputs h os (suc i) _
        (IsWritable-insert h _ m (All-snoc _ (IsUint16-or_empty h m w) (omega arith)) w)

  IsUint16-read :
      (h : Uint256) (m : Unspents) {l : List ℕ}
      → IsWritable m
      → read_unspent lib format layout db (lookup h m) h ≡ ok l
      → All IsUint16 l
  unfolding read_unspent
  IsUint16-read h m {l} w e = elim (Option-cases (lookup h m)) [
    | inl miss ↦
        let (value, got, decoded) =
          >>=-eq-ok (or_err (db.get (unspent_key lib format layout h)) StoreError.not_found) _
            (rw miss at e) in
        layout.get_uint16_array_range value l (ground arith)
    | inr (k, hit) ↦ subst (All IsUint16) (ok-injective (rw hit at e)) (w.ranged h k hit)
  ]

  IsWritable-spend_inputs :
      (inputs : List Input) (m : Unspents) {m' : Unspents}
      → spend_inputs lib format layout db m inputs ≡ ok m'
      → IsWritable m
      → IsWritable m'
  unfolding spend_inputs spend_input
  IsWritable-spend_inputs [] m e w = subst IsWritable (ok-injective e) w
  IsWritable-spend_inputs (input ∷ inputs) m e w =
      let h = input.previous_tx_id in
      let (n, first, rest) = >>=-eq-ok (spend_input lib format layout db m input) _ e in
      let (l, got, made) = >>=-eq-ok (read_unspent lib format layout db (lookup h m) h) _ first in
      IsWritable-spend_inputs inputs n rest (
        subst IsWritable (ok-injective made) (
          IsWritable-insert h _ m
            (All-remove_value IsUint16 (input.previous_index % 2 ^ 16) l (IsUint16-read h m w got))
            w))

  pub IsWritable-unspend_txns :
      (txns : List Transaction) (m : Unspents) {m' : Unspents}
      → unspend_txns lib format layout db m txns ≡ ok m'
      → IsWritable m
      → IsWritable m'
  unfolding unspend_txns unspend_txn
  IsWritable-unspend_txns [] m e w = subst IsWritable (ok-injective e) w
  IsWritable-unspend_txns (txn ∷ txns) m e w =
      let (n, first, rest) = >>=-eq-ok (unspend_txn lib format layout db m txn) _ e in
      IsWritable-unspend_txns txns n rest (one n first)
    where
      created : IsWritable (add_outputs lib format layout (lib.hash txn) txn.outputs 0 m)
      created = IsWritable-add_outputs (lib.hash txn) txn.outputs 0 m w

      one : (n : Unspents) → unspend_txn lib format layout db m txn ≡ ok n → IsWritable n
      one n first = elim (Bool-cases (lib.is_coin_base_tx txn)) [
        | inl is ↦ subst IsWritable (ok-injective (rw is at first)) created
        | inr is ↦ IsWritable-spend_inputs txn.inputs _ (rw is at first) created
      ]
