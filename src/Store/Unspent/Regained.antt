-- ===== src/Store/Unspent/Regained.antt =====
-- What the loop over the inputs does to the map of `rollbackUnspend`.
use mathlib.Core.Path.{subst}
use elastos_ela_side_chain_t.Base.{
  ℕ, ◌+◌, ◌≡◌, refl, List, [], ◌∷◌, ◌++◌, ◌&&◌, ◌||◌, ◌==◌, if◌then◌else◌, bytes_eq, bytes_eq_iff,
  All, ok, >>=-eq-ok, ok-injective, arith, sym,
}
use elastos_ela_side_chain_t.Base.Assoc.{bytes_Eq, lookup, insert, lookup-insert}
use elastos_ela_side_chain_t.Types.{Uint256, Input}
use elastos_ela_side_chain_t.Library.{Library}
use elastos_ela_side_chain_t.Format.{Format}
use elastos_ela_side_chain_t.Store.Database.{Database, Layout}
use elastos_ela_side_chain_t.Store.Count.{count, count_if-append}
use elastos_ela_side_chain_t.Store.Unspent.{Unspents, read_spent, restore_input, restore_inputs}
use elastos_ela_side_chain_t.Store.Unspent.Ledger.{view, view-insert, count-one}
use elastos_ela_side_chain_t.Store.Unspent.Writable.{
  IsUint16, IsWritable, IsWritable-insert, All-snoc,
}
use elastos_ela_side_chain_t.Store.Unspent.Restored.{
  refers, spends, is_held, IsSound, read_spent-view, read_spent-total, IsUint16-view,
}

module _ (lib : Library) (format : Format) (layout : Layout) (db : Database) where
  restore_input-eq :
      (input : Input) (m : Unspents) {m' : Unspents}
      → restore_input lib format layout db m input ≡ ok m'
      → m'
        ≡ insert input.previous_tx_id
            (view lib format layout db m input.previous_tx_id ++ (input.previous_index ∷ []))
            m
  unfolding restore_input
  restore_input-eq input m e =
      let h = input.previous_tx_id in
      let (l, got, made) = >>=-eq-ok (read_spent lib format layout db (lookup h m) h) _ e in
      rw (← read_spent-view lib format layout db m h got) (sym (ok-injective made))

  restore_input-count :
      (input : Input) (m : Unspents) (h : Uint256) (j : ℕ)
      → count j (
          view lib format layout db
            (insert input.previous_tx_id
              (view lib format layout db m input.previous_tx_id ++ (input.previous_index ∷ []))
              m)
            h)
        ≡ count j (view lib format layout db m h)
          + (if bytes_eq input.previous_tx_id h && input.previous_index == j then 1 else 0)
  restore_input-count input m h j =
      let g = input.previous_tx_id in
      let i = input.previous_index in
      ground (
        arith,
        view-insert lib format layout db g h (view lib format layout db m g ++ (i ∷ [])) m,
        count_if-append (λ x. x == j) (view lib format layout db m g) (i ∷ []),
        count-one i j,
        bytes_eq_iff g h,
      )

  -- The map holds one more index for each input.
  pub restore_inputs-count :
      (inputs : List Input) (m : Unspents) {m' : Unspents}
      → restore_inputs lib format layout db m inputs ≡ ok m'
      → (h : Uint256) (j : ℕ)
      → count j (view lib format layout db m' h)
        ≡ count j (view lib format layout db m h) + spends h j inputs
  unfolding restore_inputs spends
  restore_inputs-count [] m e h j = rw (ok-injective e) (omega arith)
  restore_inputs-count (input ∷ inputs) m e h j =
      let (n, first, rest) = >>=-eq-ok (restore_input lib format layout db m input) _ e in
      let made = restore_input-eq input m first in
      let one = restore_input-count input m h j in
      let more = restore_inputs-count inputs n rest h j in ground (arith, made, one, more)

  -- The map holds exactly the transactions that an input names.
  pub restore_inputs-held :
      (inputs : List Input) (m : Unspents) {m' : Unspents}
      → restore_inputs lib format layout db m inputs ≡ ok m'
      → (h : Uint256) → is_held (lookup h m') ≡ (is_held (lookup h m) || refers h inputs)
  unfolding restore_inputs refers
  restore_inputs-held [] m e h = rw (ok-injective e) (ground arith)
  restore_inputs-held (input ∷ inputs) m e h =
      let (n, first, rest) = >>=-eq-ok (restore_input lib format layout db m input) _ e in
      let g = input.previous_tx_id in
      let l = view lib format layout db m g ++ (input.previous_index ∷ []) in
      let made = restore_input-eq input m first in
      let more = restore_inputs-held inputs n rest h in
      ground (arith, made, lookup-insert g h l m, more)

  pub restore_inputs-IsWritable :
      (inputs : List Input) (m : Unspents) {m' : Unspents}
      → restore_inputs lib format layout db m inputs ≡ ok m'
      → All (λ (i : Input). IsUint16 i.previous_index) inputs
      → IsWritable m
      → IsWritable m'
  unfolding restore_inputs
  restore_inputs-IsWritable [] m e fits w = subst IsWritable (ok-injective e) w
  restore_inputs-IsWritable (input ∷ inputs) m e fits w =
      let (n, first, rest) = >>=-eq-ok (restore_input lib format layout db m input) _ e in
      let g = input.previous_tx_id in
      restore_inputs-IsWritable inputs n rest fits.1 (
        subst IsWritable (sym (restore_input-eq input m first)) (
          IsWritable-insert g _ m (All-snoc _ (IsUint16-view lib format layout db m g w) fits.0) w))

  pub restore_inputs-total :
      (inputs : List Input) (m : Unspents)
      → IsSound lib format layout db
      → (m' : Unspents) × (restore_inputs lib format layout db m inputs ≡ ok m')
  unfolding restore_inputs restore_input
  restore_inputs-total [] m sound = (m, refl)
  restore_inputs-total (input ∷ inputs) m sound =
      let h = input.previous_tx_id in
      let (l, e) = read_spent-total lib format layout db m h sound in
      let (m', e') =
        restore_inputs-total inputs (insert h (l ++ (input.previous_index ∷ [])) m) sound in
      (m', rw e e')
