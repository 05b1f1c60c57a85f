-- ===== src/Store/UtxoSet/Stored.antt =====
-- The batch of `persistUnspendUTXOs` of blockchain/chainstore.go, as the store reads it back.
use mathlib.Core.Path.{subst}
use mathlib.Core.List.{append_assoc}
use elastos_ela_side_chain_t.Base.{
  ℕ, ◌^◌, ◌<◌, ◌≡◌, ◌≢◌, refl, sym, ap, ◌∙◌, Bytes, List, [], ◌∷◌, ◌++◌, length, drop, Option, none,
  some, true, if◌then◌else◌, bytes_eq, bytes_eq_iff, All, ok, panic, ◌>>=◌, or_err, arith,
  Option-cases, Bool-cases, inl, inr,
}
use elastos_ela_side_chain_t.Base.Assoc.{lookup, Distinct}
use elastos_ela_side_chain_t.Types.{Uint256, Uint168, Block}
use elastos_ela_side_chain_t.Library.{Library}
use elastos_ela_side_chain_t.Format.{Format}
use elastos_ela_side_chain_t.Store.Database.{
  StoreError, Database, Layout, Batch, commit, commit-append, committed,
}
use elastos_ela_side_chain_t.Store.Count.{count_if}
use elastos_ela_side_chain_t.Store.Utxo.{
  Utxo, UtxoKey, utxo_key, serialize_utxos, persist_unspent_with_program_hash,
  get_unspent_element_from_program_hash, read_unspents,
}
use elastos_ela_side_chain_t.Store.Utxo.RoundTrip.{FitsUtxo}
use elastos_ela_side_chain_t.Store.Utxo.Lists.{read_unspents-All_bytes}
use elastos_ela_side_chain_t.Store.UtxoSet.{
  UtxoMap, key_Eq, key_beq, key_beq_iff, is_utxo, stored_unspents, utxos_txns, write_utxos,
  persist_unspend_utxos,
}
use elastos_ela_side_chain_t.Store.UtxoSet.Ledger.{
  UtxoLedger, utxo_ledger, list_of, utxo_view, AgreesUtxo,
}
use elastos_ela_side_chain_t.Store.UtxoSet.Refinement.{Refines, utxos_txns-Refines}

-- An address, an asset and a height in the range of their Go types.
abbrev pub IsKey : UtxoKey → Type 0
IsKey (p, a, height) = (length p ≡ 21) × (length a ≡ 32) × (height < 2 ^ 32)

-- The list can be written and read back.
abbrev pub IsStorableList : Layout → List Utxo → Type 0
IsStorableList layout us =
    (length us < 2 ^ 64) × (layout.makes_slice (length us) ≡ true) × All FitsUtxo us

-- The map can be written: no key twice, and keys and lists in range.
pub record IsStorable (layout : Layout) (m : UtxoMap) : Type 0 where
  pub distinct : Distinct m
  pub entries : All (λ (e : UtxoKey × List Utxo). IsKey e.0 × IsStorableList layout e.1) m

-- What is read from the same bytes is the same.
read_same :
    {A : Type 0} (read : Bytes → Option (A × Bytes)) {s t : Bytes} {a b : A} {x y : Bytes}
    → s ≡ t
    → read s ≡ some (a, x)
    → read t ≡ some (b, y)
    → (a ≡ b) × (x ≡ y)
read_same read e first second = pair (sym first ∙ ap read e ∙ second)
  where
    pair :
        {A : Type 0} {a b : A} {x y : Bytes}
        → ◌≡◌ {A = Option (A × Bytes)} (some (a, x)) (some (b, y))
        → (a ≡ b) × (x ≡ y)
    pair e = (cc, cc)

module _ (lib : Library) (format : Format) (layout : Layout) (db : Database) where
  utxo_key-injective :
      (k j : UtxoKey) → IsKey k → IsKey j → utxo_key format k ≡ utxo_key format j → k ≡ j
  unfolding utxo_key
  utxo_key-injective (p, a, height) (q, b, height') (p_size, a_size, fits) (q_size, b_size, fits')
        e =
      let low = format.uint256_bytes a ++ format.uint32_bytes height in
      let low' = format.uint256_bytes b ++ format.uint32_bytes height' in
      let behind : (r : Uint168) (c : Uint256) (n : ℕ)
          → drop 1 (utxo_key format (r, c, n))
            ≡ format.uint168_bytes r ++ (format.uint256_bytes c ++ format.uint32_bytes n) =
        λ r c n.
          append_assoc (format.uint168_bytes r) (format.uint256_bytes c) (format.uint32_bytes n) in
      let tails = sym (behind p a height) ∙ ap (drop 1) e ∙ behind q b height' in
      let (same_p, same_low) =
        read_same format.read_uint168 tails (format.read_uint168-bytes p low p_size)
          (format.read_uint168-bytes q low' q_size) in
      let (same_a, same_height) =
        read_same format.read_uint256 same_low
          (format.read_uint256-bytes a (format.uint32_bytes height) a_size)
          (format.read_uint256-bytes b (format.uint32_bytes height') b_size) in
      let (same_n, _) =
        read_same format.read_uint32 (ap (λ x. x ++ []) same_height)
          (format.read_uint32-bytes height [] fits) (format.read_uint32-bytes height' [] fits') in
      rw (same_p, same_a, same_n) refl

  key_eq :
      (k j : UtxoKey)
      → IsKey k
      → IsKey j
      → bytes_eq (utxo_key format k) (utxo_key format j) ≡ key_beq k j
  key_eq k j is_k is_j = ground (
    arith,
    bytes_eq_iff (utxo_key format k) (utxo_key format j),
    key_beq_iff k j,
    utxo_key-injective k j is_k is_j,
    same,
  )
    where
      same : k ≡ j → utxo_key format k ≡ utxo_key format j
      same e = ap (utxo_key format) e

  -- What is put for a list, and what stands under its key once the map is written.
  unfoldable written : List Utxo → Option Bytes
  written [] = none
  written (u ∷ us) =
      some (serialize_utxos format (u ∷ us) (format.var_uint_bytes (length (u ∷ us))))

  unfoldable after : Option (List Utxo) → Option Bytes → Option Bytes
  after none old = old
  after (some us) old = written us

  commit-persist :
      (j : UtxoKey) (us : List Utxo) (ops : Batch) (get : Bytes → Option Bytes) (i : Bytes)
      → commit (persist_unspent_with_program_hash format j us ∷ ops) get i
        ≡ commit ops (λ x. if bytes_eq (utxo_key format j) x then written us else get x) i
  unfolding commit written persist_unspent_with_program_hash
  commit-persist j [] ops get i = refl
  commit-persist j (u ∷ us) ops get i = refl

  commit-write_utxos :
      (m : UtxoMap) (get : Bytes → Option Bytes) (k : UtxoKey)
      → IsKey k
      → IsStorable layout m
      → commit (write_utxos lib format layout db m) get (utxo_key format k)
        ≡ after (lookup k m) (get (utxo_key format k))
  unfolding write_utxos lookup after
  commit-write_utxos [] get k is w = unfold commit in refl
  commit-write_utxos ((j, us) ∷ m) get k is w =
      let put : Bytes → Option Bytes =
        λ x. if bytes_eq (utxo_key format j) x then written us else get x in
      let first =
        commit-persist j us (write_utxos lib format layout db m) get (utxo_key format k) in
      let rest =
        commit-write_utxos m put k is (record { distinct = w.distinct.1; entries = w.entries.1 }) in
      let fresh : lookup j m ≡ none = w.distinct.0 in
      ground (arith, first, rest, key_eq j k w.entries.0.0 is, key_beq_iff j k, fresh)

  lookup-IsStorableList :
      (m : UtxoMap) (k : UtxoKey) {us : List Utxo}
      → All (λ (e : UtxoKey × List Utxo). IsKey e.0 × IsStorableList layout e.1) m
      → lookup k m ≡ some us
      → IsStorableList layout us
  unfolding lookup
  lookup-IsStorableList [] k all e = absurd (ground arith)
  lookup-IsStorableList ((j, vs) ∷ m) k {us} all e = elim (Bool-cases (key_beq j k)) [
    | inl same ↦ let is : vs ≡ us = ground arith in subst (IsStorableList layout) is all.0.1
    | inr other ↦ lookup-IsStorableList m k all.1 (rw other at e)
  ]

  -- The map, once it is written, is what the store holds.
  write_utxos-stored :
      (batch : Batch) (m : UtxoMap) (k : UtxoKey)
      → IsKey k
      → IsStorable layout m
      → commit batch db.get (utxo_key format k) ≡ db.get (utxo_key format k)
      → list_of (
          stored_unspents lib format layout
            (committed db (batch ++ write_utxos lib format layout db m))
            k)
        ≡ utxo_view lib format layout db m k
  unfolding stored_unspents get_unspent_element_from_program_hash committed utxo_view
  write_utxos-stored batch m k is w untouched =
      let key = utxo_key format k in
      let left : commit (batch ++ write_utxos lib format layout db m) db.get key
          ≡ after (lookup k m) (db.get key) =
        commit-append batch (write_utxos lib format layout db m) db.get key
        ∙ commit-write_utxos m (commit batch db.get) k is w
        ∙ ap (after (lookup k m)) untouched in
      rw left (elim (Option-cases (lookup k m)) [
        | inl miss ↦
            rw miss (unfold after stored_unspents get_unspent_element_from_program_hash in refl)
        | inr (us, hit) ↦
            rw hit (unfold after in read_back us (lookup-IsStorableList m k w.entries hit))
      ])
    where
      read_back :
          (us : List Utxo)
          → IsStorableList layout us
          → list_of (
              or_err (written us) StoreError.not_found >>= λ unspents_data.
              read_unspents format layout unspents_data)
            ≡ us
      read_back [] fits = unfold written list_of in refl
      read_back (u ∷ us) (few, slice, fits) =
          unfold written list_of in
          rw (read_unspents-All_bytes format layout (u ∷ us) few slice fits) refl

  -- The batch of `persistUnspendUTXOs` takes the unspent outputs that the store holds under a key to
  -- those of the ledger after the block, which has a next state: where the loop over the
  -- transactions succeeds with a map that can be written, the key is in range, the batch before
  -- leaves what is under it alone, and no list in the store makes the read panic.
  pub persist_unspend_utxos-stored :
      (batch : Batch) (b : Block) (m : UtxoMap) (u : UtxoLedger)
      → utxos_txns lib format layout db b.height [] b.transactions ≡ ok m
      → IsStorable layout m
      → ((k : UtxoKey) → commit batch db.get (utxo_key format k) ≡ db.get (utxo_key format k))
      → ((k : UtxoKey) → stored_unspents lib format layout db k ≢ panic)
      → AgreesUtxo lib format layout db [] u
      → (u' : UtxoLedger) × (utxo_ledger lib db b.height b.transactions u ≡ some u')
        × (batch' : Batch) × (persist_unspend_utxos lib format layout db batch b ≡ ok batch')
        × ((k : UtxoKey) (h : Uint256) (i : ℕ)
            → IsKey k
            → count_if
                (is_utxo lib h i)
                (list_of (stored_unspents lib format layout (committed db batch') k))
              ≡ u' k h i)
  unfolding persist_unspend_utxos
  persist_unspend_utxos-stored batch b m u made w untouched safe agree =
      let refines =
        rw made at
          (utxos_txns-Refines lib format layout db b.height b.transactions [] u safe agree) in
      let (u', after_block, agrees) = next (utxo_ledger lib db b.height b.transactions u) refines in
      (
        u',
        after_block,
        batch ++ write_utxos lib format layout db m,
        rw made refl,
        λ k h i is. rw (write_utxos-stored batch m k is w (untouched k)) (agrees k h i),
      )
    where
      next :
          (s : Option UtxoLedger)
          → Refines lib format layout db (ok m) s
          → (v : UtxoLedger) × (s ≡ some v) × AgreesUtxo lib format layout db m v
      next none a = absurd a
      next (some v) a = (v, refl, a)
