-- ===== src/Fees.antt =====
-- mempool/feehelper.go: `GenerateBlockTransactions` fills a block from the transaction pool and splits
-- the fees over the two outputs of its coinbase.
pub mod Filled
pub mod Split
use elastos_ela_side_chain_t.Base.{
  ℕ, ℤ, pos, suc, ◌+◌, ◌%◌, ◌^◌, Bytes, List, [], ◌∷◌, ◌++◌, Bool, true, false, Option, none, some,
  if◌then◌else◌, ltb, leb, Outcome, ok, panic, ◌>>=◌, add_int64, sub_int64, thirty_percent,
}
use elastos_ela_side_chain_t.Types.{Transaction, Output, Block}

-- What the method takes from libraries. `sorted` is the pool in the order that `sort.Sort` leaves;
-- `none` is an error.
pub record Pool : Type 0 where
  pub sorted : List Transaction
  pub size : Transaction → ℕ
  pub is_final : Transaction → ℕ → Bool
  pub tx_fee : Transaction → Option ℤ
  pub max_block_size : ℕ
  pub max_tx_per_block : ℕ
  pub best_height : ℕ

-- What the loop has at hand: `totalTxsSize`, `txCount`, `totalFee`, `msgBlock.Transactions`.
pub record Filling : Type 0 where
  pub total_size : ℕ
  pub count : ℕ
  pub total_fee : ℤ
  pub transactions : List Transaction

module _ (pool : Pool) where
  -- A transaction that passes both checks goes in.
  unfoldable pub include : Transaction → Bool → Option ℤ → Filling → Filling
  include tx false fee f = f
  include tx true none f = f
  include tx true (some fee) f = record f {
    count = suc f.count;
    total_fee = add_int64 f.total_fee fee;
    transactions = f.transactions ++ (tx ∷ []);
  }

  -- The loop over the sorted pool; the next height is a uint32. The size counts a transaction that is then left out, too.
  unfoldable pub fill : List Transaction → Filling → Filling
  fill [] f = f
  fill (tx ∷ txs) f =
      let size = f.total_size + pool.size tx in
      let rest = fill txs (
        include tx (pool.is_final tx ((pool.best_height + 1) % 2 ^ 32)) (pool.tx_fee tx)
          (record f { total_size = size })) in
      if ltb pool.max_block_size size
      then record f { total_size = size }
      else if leb pool.max_tx_per_block f.count
      then record f { total_size = size }
      else rest

  -- The first two outputs of the first transaction take the reward.
  unfoldable pub split_outputs : ℤ → List Output → Outcome ⊥ (List Output)
  split_outputs reward [] = panic
  split_outputs reward (o ∷ []) = panic
  split_outputs reward (o ∷ p ∷ os) = ok (
      record o { value = thirty_percent reward }
      ∷ record p { value = sub_int64 reward (thirty_percent reward) }
      ∷ os)

  unfoldable pub split_reward : ℤ → List Transaction → Outcome ⊥ (List Transaction)
  split_reward reward [] = panic
  split_reward reward (coin_base ∷ txs) = do
    outputs ← split_outputs reward coin_base.outputs
    ok (record coin_base { outputs = outputs } ∷ txs)

  -- `GenerateBlockTransactions` on the transactions that the block has, with the coinbase among them.
  unfoldable pub generate_block_transactions :
      Transaction → List Transaction → Outcome ⊥ (List Transaction)
  generate_block_transactions coin_base transactions =
      let f = fill pool.sorted (record {
        total_size = pool.size coin_base;
        count = 1;
        total_fee = pos 0;
        transactions = transactions;
      }) in
      split_reward f.total_fee f.transactions
