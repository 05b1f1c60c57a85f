-- ===== src/Store/Unspent/Stored.antt =====
-- What the batch of `persist_unspend` leaves in the store.
use mathlib.Core.Path.{subst}
use elastos_ela_side_chain_t.Base.{
  ℕ, ◌≡◌, refl, ap, Bytes, List, [], ◌∷◌, ◌++◌, Option, none, some, if◌then◌else◌, bytes_eq,
  bytes_eq_iff, All, ok, >>=-eq-ok, ok-injective, arith, Option-cases, inl, inr,
}
use elastos_ela_side_chain_t.Base.Assoc.{bytes_Eq, lookup, Distinct}
use elastos_ela_side_chain_t.Types.{Uint256, Block}
use elastos_ela_side_chain_t.Library.{Library}
use elastos_ela_side_chain_t.Format.{Format}
use elastos_ela_side_chain_t.Store.Database.{
  Database, Layout, Batch, commit, commit-append, committed,
}
use elastos_ela_side_chain_t.Store.Count.{count}
use elastos_ela_side_chain_t.Store.Unspent.{
  Unspents, unspent_key, unspend_txns, unspent_op, write_unspents, persist_unspend,
}
use elastos_ela_side_chain_t.Store.Unspent.Ledger.{
  Ledger, decode_stored, stored, view, block_ledger, unspend_txns-refines,
}
use elastos_ela_side_chain_t.Store.Unspent.Writable.{
  IsUint16, IsWritable, IsWritable-nil, IsWritable-unspend_txns,
}

module _ (lib : Library) (format : Format) (layout : Layout) (db : Database) where
  -- What is put for a list of indices.
  unfoldable pub written : List ℕ → Option Bytes
  written [] = none
  written (i ∷ l) = some (layout.to_byte_array (i ∷ l))

  pub key_eq :
      (g h : Uint256)
      → bytes_eq (unspent_key lib format layout g) (unspent_key lib format layout h) ≡ bytes_eq g h
  unfolding unspent_key
  key_eq g h = ground (
    arith,
    bytes_eq_iff g h,
    bytes_eq_iff (layout.ix_unspent ∷ format.uint256_bytes g)
        (layout.ix_unspent ∷ format.uint256_bytes h),
    same,
    other,
  )
    where
      same :
          (layout.ix_unspent ∷ format.uint256_bytes g)
            ≡ (layout.ix_unspent ∷ format.uint256_bytes h)
          → g ≡ h
      same e = format.uint256_bytes_inj g h (cc)

      other :
          g ≡ h
          → (layout.ix_unspent ∷ format.uint256_bytes g)
            ≡ (layout.ix_unspent ∷ format.uint256_bytes h)
      other e = ap (λ (x : Uint256). layout.ix_unspent ∷ format.uint256_bytes x) e

  -- What stands under a key once the map is written.
  unfoldable pub after : Option (List ℕ) → Option Bytes → Option Bytes
  after none old = old
  after (some l) old = written l

  commit-unspent_op :
      (g : Uint256) (l : List ℕ) (ops : Batch) (get : Bytes → Option Bytes) (k : Bytes)
      → commit (unspent_op lib format layout (g, l) ∷ ops) get k
        ≡ commit ops
            (λ i. if bytes_eq (unspent_key lib format layout g) i then written l else get i)
            k
  unfolding commit written unspent_op
  commit-unspent_op g [] ops get k = refl
  commit-unspent_op g (i ∷ l) ops get k = refl

  pub commit-write :
      (m : Unspents) (get : Bytes → Option Bytes) (h : Uint256)
      → Distinct m
      → commit (write_unspents lib format layout m) get (unspent_key lib format layout h)
        ≡ after (lookup h m) (get (unspent_key lib format layout h))
  unfolding write_unspents lookup after
  commit-write [] get h d = unfold commit in refl
  commit-write ((g, l) ∷ m) get h d =
      let put : Bytes → Option Bytes =
        λ i. if bytes_eq (unspent_key lib format layout g) i then written l else get i in
      let first =
        commit-unspent_op g l (write_unspents lib format layout m) get
          (unspent_key lib format layout h) in
      let rest = commit-write m put h d.1 in
      ground (arith, first, rest, key_eq g h, bytes_eq_iff g h, d.0)

  pub decode-written : (l : List ℕ) → All IsUint16 l → decode_stored layout (written l) ≡ l
  unfolding decode_stored written
  decode-written [] fits = refl
  decode-written (i ∷ l) fits = rw (layout.get_uint16_array-to_byte_array (i ∷ l) fits) refl

  decode-after :
      (m : Unspents) (h : Uint256)
      → IsWritable m
      → decode_stored layout (after (lookup h m) (db.get (unspent_key lib format layout h)))
        ≡ view lib format layout db m h
  unfolding view after stored
  decode-after m h w = elim (Option-cases (lookup h m)) [
    | inl e ↦ rw e refl
    | inr (l, e) ↦ rw e (decode-written l (w.ranged h l e))
  ]

  pub commit-append_write :
      (batch : Batch) (m : Unspents) (h : Uint256)
      → IsWritable m
      → commit batch db.get (unspent_key lib format layout h)
        ≡ db.get (unspent_key lib format layout h)
      → commit
          (batch ++ write_unspents lib format layout m)
          db.get
          (unspent_key lib format layout h)
        ≡ after (lookup h m) (db.get (unspent_key lib format layout h))
  commit-append_write batch m h w untouched =
      rw
        (commit-append batch (write_unspents lib format layout m) db.get
          (unspent_key lib format layout h))
        (rw (commit-write m (commit batch db.get) h w.distinct) (rw untouched refl))

  stored-committed :
      (batch : Batch) (m : Unspents) (h : Uint256)
      → IsWritable m
      → commit batch db.get (unspent_key lib format layout h)
        ≡ db.get (unspent_key lib format layout h)
      → stored lib format layout (committed db (batch ++ write_unspents lib format layout m)) h
        ≡ view lib format layout db m h
  unfolding stored committed
  stored-committed batch m h w untouched =
      rw (commit-append_write batch m h w untouched) (decode-after m h w)

  -- Where `persist_unspend` succeeds, its batch takes the store from a count of unspent outputs to the
  -- count that the ledger has after the block: one more for each output, and one less for each input
  -- of an ordinary transaction, where there is one. The batch before it leaves the indices alone,
  -- and no transaction of the block is stored yet.
  pub persist_unspend-refines :
      (batch : Batch) (b : Block) {batch' : Batch}
      → persist_unspend lib format layout db batch b ≡ ok batch'
      → ((h : Uint256)
          → commit batch db.get (unspent_key lib format layout h)
            ≡ db.get (unspent_key lib format layout h))
      → All (λ txn. stored lib format layout db (lib.hash txn) ≡ []) b.transactions
      → (h : Uint256) (j : ℕ)
      → count j (stored lib format layout (committed db batch') h)
        ≡ block_ledger lib b.transactions (λ g i. count i (stored lib format layout db g)) h j
  unfolding persist_unspend view lookup
  persist_unspend-refines batch b e untouched fresh h j =
      let (m, made, put) = >>=-eq-ok (unspend_txns lib format layout db [] b.transactions) _ e in
      let u : Ledger = λ g i. count i (stored lib format layout db g) in
      let agree =
        unspend_txns-refines lib format layout db b.transactions [] u made fresh (λ g i. refl) in
      let w = IsWritable-unspend_txns lib format layout db b.transactions [] made IsWritable-nil in
      subst
        (λ x.
          count j (stored lib format layout (committed db x) h)
          ≡ block_ledger lib b.transactions u h j)
        (ok-injective put) (rw (stored-committed batch m h w (untouched h)) (agree h j))
