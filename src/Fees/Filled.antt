-- ===== src/Fees/Filled.antt =====
-- What `fill` puts into a block.
use mathlib.Core.List.{append_assoc, append-nil}
use mathlib.Core.Option
use elastos_ela_side_chain_t.Base.{
  All, ℕ, ℤ, pos, suc, ◌+◌, ◌%◌, ◌^◌, ◌≤◌, ◌≡◌, sym, ◌∙◌, ap, List, [], ◌∷◌, ◌++◌, true, some, ltb,
  leb, length, ◌+ℤ◌, wrap_int64, add_int64, add_int64-wrap_int64, +ℤ_assoc, +ℤ_zero, arith,
  Bool-cases, Option-cases, inl, inr,
}
use elastos_ela_side_chain_t.Types.{Transaction}
use elastos_ela_side_chain_t.Fees.{Pool, Filling, include, fill}

-- The first list is the second with some elements left out.
pub data Sublist {A : Type 0} : List A → List A → Type 0 where
  stop : {ys : List A} → Sublist [] ys
  keep : {x : A} {xs ys : List A} → Sublist xs ys → Sublist (x ∷ xs) (x ∷ ys)
  skip : {y : A} {xs ys : List A} → Sublist xs ys → Sublist xs (y ∷ ys)

module _ (pool : Pool) where
  unfoldable pub sizes : List Transaction → ℕ
  sizes [] = 0
  sizes (tx ∷ txs) = pool.size tx + sizes txs

  -- The fee of a transaction, 0 where it has none.
  abbrev pub fee_of : Transaction → ℤ
  fee_of tx = Option.get_or (pool.tx_fee tx) (pos 0)

  unfoldable pub fees : List Transaction → ℤ
  fees [] = pos 0
  fees (tx ∷ txs) = fee_of tx +ℤ fees txs

  -- A transaction that may stand in the next block, with a fee that can be told.
  abbrev pub IsIncludable : Transaction → Type 0
  IsIncludable tx =
      (pool.is_final tx ((pool.best_height + 1) % 2 ^ 32) ≡ true)
      × (fee : ℤ) × (pool.tx_fee tx ≡ some fee)

  -- What the loop did between two states.
  pub record Filled (txs : List Transaction) (f g : Filling) : Type 0 where
    pub chosen : List Transaction
    pub transactions : g.transactions ≡ f.transactions ++ chosen
    pub count : g.count ≡ f.count + length chosen
    pub sublist : Sublist chosen txs
    pub includable : All IsIncludable chosen
    pub total_fee :
        (t : ℤ) → f.total_fee ≡ wrap_int64 t → g.total_fee ≡ wrap_int64 (t +ℤ fees chosen)
    pub small :
        f.total_size ≤ pool.max_block_size → f.total_size + sizes chosen ≤ pool.max_block_size
    pub few : f.count ≤ pool.max_tx_per_block → f.count + length chosen ≤ pool.max_tx_per_block

  nothing-Filled :
      (txs : List Transaction) (f : Filling) (n : ℕ) → Filled txs f (record f { total_size = n })
  nothing-Filled txs f n = record {
    chosen = [];
    transactions = sym (append-nil f.transactions);
    count = omega arith;
    sublist = stop;
    includable = tt;
    total_fee = λ t e. unfold fees in e ∙ ap wrap_int64 (sym (+ℤ_zero t));
    small = λ h. unfold sizes in omega arith;
    few = λ h. omega arith;
  }

  -- A transaction that is left out.
  Filled-skip :
      (tx : Transaction) (txs : List Transaction) (f g : Filling)
      → f.total_size + pool.size tx ≤ pool.max_block_size
      → Filled txs (record f { total_size = f.total_size + pool.size tx }) g
      → Filled (tx ∷ txs) f g
  Filled-skip tx txs f g small d = record {
    chosen = d.chosen;
    transactions = d.transactions;
    count = d.count;
    sublist = skip d.sublist;
    includable = d.includable;
    total_fee = d.total_fee;
    small = λ h. omega (arith, d.small small);
    few = d.few;
  }

  -- A transaction that is put in.
  Filled-keep :
      (tx : Transaction) (txs : List Transaction) (f g : Filling) (fee : ℤ)
      → f.total_size + pool.size tx ≤ pool.max_block_size
      → suc f.count ≤ pool.max_tx_per_block
      → pool.is_final tx ((pool.best_height + 1) % 2 ^ 32) ≡ true
      → pool.tx_fee tx ≡ some fee
      → Filled txs
          (record f {
            total_size = f.total_size + pool.size tx;
            count = suc f.count;
            total_fee = add_int64 f.total_fee fee;
            transactions = f.transactions ++ (tx ∷ []);
          })
          g
      → Filled (tx ∷ txs) f g
  unfolding fees sizes
  Filled-keep tx txs f g fee small few final paid d = record {
    chosen = tx ∷ d.chosen;
    transactions = d.transactions ∙ append_assoc f.transactions (tx ∷ []) d.chosen;
    count = omega (arith, d.count);
    sublist = keep d.sublist;
    includable = ((final, fee, paid), d.includable);
    total_fee = λ t e.
        rw (paid, sym (+ℤ_assoc t fee (fees d.chosen)))
          (d.total_fee (t +ℤ fee) (ap (λ (x : ℤ). add_int64 x fee) e ∙ add_int64-wrap_int64 t fee));
    small = λ h. omega (arith, d.small small);
    few = λ h. omega (arith, d.few few);
  }

  Filled-next :
      (tx : Transaction) (txs : List Transaction) (f : Filling)
      → ((g : Filling) → Filled txs g (fill pool txs g))
      → f.total_size + pool.size tx ≤ pool.max_block_size
      → suc f.count ≤ pool.max_tx_per_block
      → Filled (tx ∷ txs) f (
          fill pool txs (
            include pool tx
              (pool.is_final tx ((pool.best_height + 1) % 2 ^ 32))
              (pool.tx_fee tx)
              (record f { total_size = f.total_size + pool.size tx })))
  unfolding include
  Filled-next tx txs f filled small few =
      elim (Bool-cases (pool.is_final tx ((pool.best_height + 1) % 2 ^ 32))) [
        | inr other ↦ rw other (Filled-skip tx txs f _ small (filled _))
        | inl final ↦ rw final (elim (Option-cases (pool.tx_fee tx)) [
          | inl free ↦ rw free (Filled-skip tx txs f _ small (filled _))
          | inr (fee, paid) ↦ rw paid (Filled-keep tx txs f _ fee small few final paid (filled _))
        ])
      ]

  -- The loop adds a part of the sorted pool, in order, behind what the block has: transactions that
  -- are final and have a fee. It counts them and adds up their fees as an int64, and it keeps the
  -- sizes and the count within the limits if they are within them before.
  pub fill-Filled : (txs : List Transaction) (f : Filling) → Filled txs f (fill pool txs f)
  unfolding fill
  fill-Filled [] f = nothing-Filled [] f f.total_size
  fill-Filled (tx ∷ txs) f =
      elim (Bool-cases (ltb pool.max_block_size (f.total_size + pool.size tx))) [
        | inl big ↦ rw big (nothing-Filled (tx ∷ txs) f (f.total_size + pool.size tx))
        | inr small ↦ rw small (elim (Bool-cases (leb pool.max_tx_per_block f.count)) [
          | inl full ↦ rw full (nothing-Filled (tx ∷ txs) f (f.total_size + pool.size tx))
          | inr room ↦
              rw room (Filled-next tx txs f (fill-Filled txs) (ground arith) (ground arith))
        ])
      ]
