-- ===== src/Service/Unspent/Rows.antt =====
-- The rows that `ListUnspent` returns.
use mathlib.Core.Logic.{∥∥₁_elim}
use mathlib.Core.List.{append-nil, append_assoc, Perm, Permᴰ, Perm-prop, perm_append_comm}
use mathlib.Core.List.Perm
use mathlib.Core.Path.{subst, ◌∙◌}
use elastos_ela_side_chain_t.Base.{
  ℕ, ◌+◌, ◌%◌, ◌^◌, ◌<◌, ◌≡◌, ◌↔◌, refl, sym, ap, Bytes, List, [], ◌∷◌, ◌++◌, none, some, get_elem?,
  Outcome, ok, err, panic, ◌>>=◌, or_err, or_panic, or_err-some, or_panic-some, >>=-eq-ok,
  ok-injective, arith, Outcome-cases, inl, inr,
}
use elastos_ela_side_chain_t.Types.{Uint256, Uint168, Transaction, Output}
use elastos_ela_side_chain_t.Library.{Library}
use elastos_ela_side_chain_t.Format.{Format}
use elastos_ela_side_chain_t.Texts.{Texts}
use elastos_ela_side_chain_t.Validator.References.{sub_uint32}
use elastos_ela_side_chain_t.Store.Database.{Database, Layout}
use elastos_ela_side_chain_t.Store.Utxo.{Utxo}
use elastos_ela_side_chain_t.Store.Amount.{value_string}
use elastos_ela_side_chain_t.Store.Listing.{get_unspents}
use elastos_ela_side_chain_t.Service.{
  array, Params, ServiceError, RangeOrder, or_error, or_error-ok,
}
use elastos_ela_side_chain_t.Service.Unspent.{
  UtxoInfo, address_strings, addresses_of, confirmations_of, chosen_rows, utxo_info, utxo_infos,
  asset_infos, address_infos, all_infos, list_unspent,
}

-- The outputs of all assets, in the order of the map.
unfoldable pub outputs_of : List (Uint256 × List Utxo) → List Utxo
outputs_of [] = []
outputs_of ((_, us) ∷ m) = us ++ outputs_of m

same : {xs ys : List Utxo} → xs ≡ ys → Perm xs ys
same {xs} e = subst (Perm xs) e (Perm.refl xs)

swap : (xs ys zs : List Utxo) → Perm (xs ++ (ys ++ zs)) (ys ++ (xs ++ zs))
swap xs ys zs =
    Perm.trans (same (sym (append_assoc xs ys zs)))
      (Perm.trans (Perm.append_right zs (perm_append_comm xs ys)) (same (append_assoc ys xs zs)))

outputs_of-Permᴰ :
    {m m' : List (Uint256 × List Utxo)} → Permᴰ m m' → Perm (outputs_of m) (outputs_of m')
unfolding outputs_of
outputs_of-Permᴰ Permᴰ.nil = Perm.refl []
outputs_of-Permᴰ (Permᴰ.cons {a} {b} e p) =
    Perm.append (same (ap (λ x. x.1) e)) (outputs_of-Permᴰ p)
outputs_of-Permᴰ (Permᴰ.swap {a} {b} {a'} {b'} {l} e f) = Perm.trans (swap a.1 b.1 (outputs_of l)) (
    Perm.append (same (ap (λ x. x.1) f))
      (Perm.append (same (ap (λ x. x.1) e)) (Perm.refl (outputs_of l))))
outputs_of-Permᴰ (Permᴰ.trans p q) = Perm.trans (outputs_of-Permᴰ p) (outputs_of-Permᴰ q)

outputs_of-Perm :
    {m m' : List (Uint256 × List Utxo)} → Perm m m' → Perm (outputs_of m) (outputs_of m')
outputs_of-Perm p = ∥∥₁_elim p Perm-prop outputs_of-Permᴰ

-- The confirmations and the height make the height after the best one, and nothing else does.
confirmations_of-age :
    (best_height height : ℕ)
    → height < 2 ^ 32
    → ((confirmations_of best_height height + height) % 2 ^ 32 ≡ (best_height + 1) % 2 ^ 32)
      × (confirmations_of best_height height < 2 ^ 32)
unfolding confirmations_of sub_uint32
confirmations_of-age best_height height fits = (ground arith, ground arith)

confirmations_of-only :
    (best_height height n : ℕ)
    → height < 2 ^ 32
    → n < 2 ^ 32
    → (n + height) % 2 ^ 32 ≡ (best_height + 1) % 2 ^ 32
    → confirmations_of best_height height ≡ n
unfolding confirmations_of sub_uint32
confirmations_of-only best_height height n fits small age = ground arith

module _ (lib : Library) (texts : Texts) (db : Database) (best_height : ℕ) where
  -- The heights of stored transactions are uint32.
  abbrev pub HasHeights : Type 0
  HasHeights =
      (h : Uint256) (tx : Transaction) (height : ℕ)
      → db.get_transaction h ≡ some (tx, height)
      → height < 2 ^ 32

  -- The row of an output: the store has the transaction, it has the output, whose lock is shown, and
  -- the amount has a text. The confirmations and the height make the height after the best one,
  -- as uint32.
  pub record IsRow (address : Bytes) (u : Utxo) (r : UtxoInfo) : Type 0 where
    pub tx : Transaction
    pub height : ℕ
    pub output : Output
    pub found : db.get_transaction u.tx_id ≡ some (tx, height)
    pub at : get_elem? tx.outputs u.index ≡ some output
    pub text : value_string lib texts u ≡ ok r.amount
    pub asset_id : r.asset_id ≡ texts.bytes_to_hex_string (texts.bytes_reverse u.asset_id)
    pub txid : r.txid ≡ texts.bytes_to_hex_string (texts.bytes_reverse u.tx_id)
    pub vout : r.vout ≡ u.index
    pub of_address : r.address ≡ address
    pub output_lock : r.output_lock ≡ output.output_lock
    pub age : (r.confirmations + height) % 2 ^ 32 ≡ (best_height + 1) % 2 ^ 32
    pub uint32 : r.confirmations < 2 ^ 32

  -- One row for each output, in the same order.
  abbrev pub AreRows : Bytes → List Utxo → List UtxoInfo → Type 0
  AreRows address [] [] = Unit {0}
  AreRows address [] (r ∷ rows) = ⊥
  AreRows address (u ∷ us) [] = ⊥
  AreRows address (u ∷ us) (r ∷ rows) = IsRow address u r × AreRows address us rows

  module _ (in_range : HasHeights) where
    utxo_info-IsRow :
        (address : Bytes) (u : Utxo) {r : UtxoInfo}
        → utxo_info lib texts db best_height address u ≡ ok r
        → IsRow address u r
    unfolding utxo_info
    utxo_info-IsRow address u e =
        let ((tx, height), found, e1) = >>=-eq-ok (or_err (db.get_transaction u.tx_id) _) _ e in
        let (amount, text, e2) = >>=-eq-ok (or_error (value_string lib texts u) _) _ e1 in
        let (o, at, e3) = >>=-eq-ok (or_panic (get_elem? tx.outputs u.index)) _ e2 in
        let held = or_err-some (db.get_transaction u.tx_id) _ found in
        let age = confirmations_of-age best_height height (in_range u.tx_id tx height held) in
        subst (IsRow address u) (ok-injective e3) (record {
          tx = tx;
          height = height;
          output = o;
          found = held;
          at = or_panic-some (get_elem? tx.outputs u.index) at;
          text = or_error-ok (value_string lib texts u) _ text;
          asset_id = refl;
          txid = refl;
          vout = refl;
          of_address = refl;
          output_lock = refl;
          age = age.0;
          uint32 = age.1;
        })

    IsRow-utxo_info :
        (address : Bytes) (u : Utxo) (r : UtxoInfo)
        → IsRow address u r
        → utxo_info lib texts db best_height address u ≡ ok r
    unfolding utxo_info
    IsRow-utxo_info address u r is =
        let age =
          confirmations_of-only best_height is.height r.confirmations
            (in_range u.tx_id is.tx is.height is.found) is.uint32 is.age in
        rw
          (
            is.found,
            is.text,
            is.at,
            sym is.asset_id,
            sym is.txid,
            sym is.vout,
            sym is.of_address,
            sym is.output_lock,
            sym age,
          )
          refl

    utxo_infos-AreRows :
        (address : Bytes) (us : List Utxo) (rows : List UtxoInfo)
        → utxo_infos lib texts db best_height address us ≡ ok rows
        → AreRows address us rows
    unfolding utxo_infos
    utxo_infos-AreRows address [] [] e = tt
    utxo_infos-AreRows address [] (r ∷ rows) e = absurd (ground (arith, ok-injective e))
    utxo_infos-AreRows address (u ∷ us) rows e =
        let (s, first, e1) = >>=-eq-ok (utxo_info lib texts db best_height address u) _ e in
        let (more, rest, e2) = >>=-eq-ok (utxo_infos lib texts db best_height address us) _ e1 in
        subst (AreRows address (u ∷ us)) (ok-injective e2)
          (utxo_info-IsRow address u first, utxo_infos-AreRows address us more rest)

    AreRows-utxo_infos :
        (address : Bytes) (us : List Utxo) (rows : List UtxoInfo)
        → AreRows address us rows
        → utxo_infos lib texts db best_height address us ≡ ok rows
    unfolding utxo_infos
    AreRows-utxo_infos address [] [] a = refl
    AreRows-utxo_infos address [] (r ∷ rows) a = absurd a
    AreRows-utxo_infos address (u ∷ us) [] a = absurd a
    AreRows-utxo_infos address (u ∷ us) (r ∷ rows) (is, a) =
        rw (IsRow-utxo_info address u r is, AreRows-utxo_infos address us rows a) refl

  utxo_infos-append :
      (address : Bytes) (us vs : List Utxo)
      → utxo_infos lib texts db best_height address (us ++ vs) ≡ (do
        rows ← utxo_infos lib texts db best_height address us
        more ← utxo_infos lib texts db best_height address vs
        ok (rows ++ more))
  unfolding utxo_infos
  utxo_infos-append address [] vs = bind-ok (utxo_infos lib texts db best_height address vs)
    where
      bind-ok : (r : Outcome ServiceError (List UtxoInfo)) → r ≡ (r >>= λ more. ok more)
      bind-ok (ok a) = refl
      bind-ok (err e) = refl
      bind-ok panic = refl
  utxo_infos-append address (u ∷ us) vs =
      elim (Outcome-cases (utxo_info lib texts db best_height address u)) [
        | inr (inl (x, e)) ↦ rw e refl
        | inr (inr e) ↦ rw e refl
        | inl (r, e) ↦
            rw (e, utxo_infos-append address us vs)
              (elim (Outcome-cases (utxo_infos lib texts db best_height address us)) [
                | inr (inl (x, f)) ↦ rw f refl
                | inr (inr f) ↦ rw f refl
                | inl (rows, f) ↦
                    rw f (elim (Outcome-cases (utxo_infos lib texts db best_height address vs)) [
                      | inr (inl (x, g)) ↦ rw g refl
                      | inr (inr g) ↦ rw g refl
                      | inl (more, g) ↦ rw g refl
                    ])
              ])
      ]

  asset_infos-outputs_of :
      (address : Bytes) (m : List (Uint256 × List Utxo))
      → asset_infos lib texts db best_height address m
        ≡ utxo_infos lib texts db best_height address (outputs_of m)
  unfolding asset_infos outputs_of
  asset_infos-outputs_of address [] = unfold utxo_infos in refl
  asset_infos-outputs_of address ((a, us) ∷ m) =
      rw (utxo_infos-append address us (outputs_of m), asset_infos-outputs_of address m) refl

  module _ (format : Format) (layout : Layout) (order : RangeOrder Uint256 (List Utxo)) where
    -- `ListUnspent` for one address and all assets takes the outputs that `GetUnspents` returns in some
    -- order, and gives rows exactly if they are one row for each output, in that order: the store
    -- has the transaction of the output, the transaction has an output at the index, whose lock
    -- is shown, the amount has a text, and the confirmations and the height at which the store
    -- has the transaction make the height after the best one, as uint32. This is so for every
    -- order in which `range` visits the map. Heights of stored transactions are uint32.
    pub list_unspent_iff :
        (params : Params) (address : Bytes) (program_hash : Uint168)
        (m : List (Uint256 × List Utxo))
        → params.addresses ≡ some (array (some address ∷ []))
        → params.assetid ≡ none
        → texts.uint168_from_address address ≡ some program_hash
        → get_unspents format layout db program_hash ≡ ok m
        → HasHeights
        → (us : List Utxo) × Perm us (outputs_of m)
          × ((rows : List UtxoInfo)
              → (list_unspent lib texts db best_height format layout order params ≡ ok rows)
                ↔ AreRows address us rows)
    unfolding list_unspent addresses_of address_strings all_infos address_infos chosen_rows
    list_unspent_iff params address program_hash m given whole decoded listed in_range =
        let us = outputs_of (order.visit 0 m) in
        let is : list_unspent lib texts db best_height format layout order params
            ≡ utxo_infos lib texts db best_height address us =
          rw (given, whole, decoded, listed, asset_infos-outputs_of address (order.visit 0 m))
            (last (utxo_infos lib texts db best_height address us)) in
        (
          us,
          outputs_of-Perm (order.visit-Perm 0 m),
          λ rows. (
            λ e. utxo_infos-AreRows in_range address us rows (sym is ∙ e),
            λ a. is ∙ AreRows-utxo_infos in_range address us rows a,
          ),
        )
      where
        last :
            (r : Outcome ServiceError (List UtxoInfo))
            → ((r >>= λ found. ok (found ++ [])) >>= λ found. ok (chosen_rows none found)) ≡ r
        last (ok found) = unfold chosen_rows in rw (append-nil found) refl
        last (err e) = refl
        last panic = refl
