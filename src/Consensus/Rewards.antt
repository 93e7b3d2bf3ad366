-- ===== src/Consensus/Rewards.antt =====
-- The withdrawals that a transaction block must pay (corpochain/consensus/block_rewards.py), and the
-- search for the previous transaction block (corpochain/util/prev_transaction_block.py).
pub mod Schedule
pub mod Withdrawals
pub mod InTime
use corpochain_beacon_client.Base.{
  ℕ, zero, suc, ◌+◌, ◌*◌, Bool, true, false, not, Option, none, some, List, [], ◌∷◌, ◌++◌, ltb,
  ◌==◌, if◌then◌else◌, Result, ok, err, out_of_fuel, ◌>>=◌, ◌>>◌,
}
use corpochain_beacon_client.Ints.{uint}
use corpochain_beacon_client.Consensus.Constants.{Constants}
use corpochain_beacon_client.Consensus.Block.{
  BlockRecord, Blockchain, block_record, is_transaction_block,
}
use corpochain_beacon_client.Consensus.Chain.{walk_back}

pub record Withdrawal : Type 0 where
  pub index : ℕ
  pub validator_index : ℕ
  pub address : ℕ
  pub amount : ℕ

abbrev pub corpochain_to_gwei : ℕ
corpochain_to_gwei = 1_000_000_000

abbrev pub blocks_per_year : ℕ
blocks_per_year = 4608 * 2 * 365

unfoldable pub calculate_block_reward : ℕ → ℕ
calculate_block_reward height =
    if ltb height (3 * blocks_per_year)
    then 2 * corpochain_to_gwei
    else if ltb height (6 * blocks_per_year)
    then 1 * corpochain_to_gwei
    else if ltb height (9 * blocks_per_year)
    then 500_000_000
    else if ltb height (12 * blocks_per_year)
    then 250_000_000
    else if ltb height (15 * blocks_per_year)
    then 125_000_000
    else 0

-- `WithdrawalV1(...)`, which converts the numbers to uint64.
unfoldable pub withdrawal : ℕ → ℕ → ℕ → ℕ → Result Withdrawal
unfolding uint
withdrawal index validator_index address amount = do
  index_64 ← uint 64 index
  validator_index_64 ← uint 64 validator_index
  amount_64 ← uint 64 amount
  ok (record {
    index = index_64;
    validator_index = validator_index_64;
    address = address;
    amount = amount_64;
  })

unfoldable pub block_withdrawal : ℕ → BlockRecord → Result Withdrawal
unfolding withdrawal calculate_block_reward
block_withdrawal index b = withdrawal index 1 b.coinbase (calculate_block_reward b.height)

module _ (c : Constants) where
  module _ (bs : Blockchain) where
    -- The `while True` loop, from `curr` with the next index.
    unfoldable pub reward_loop : ℕ → ℕ → BlockRecord → Result (List Withdrawal)
    unfolding block_withdrawal
    reward_loop zero index curr = err out_of_fuel
    reward_loop (suc fuel) index curr = do
      paid ← block_withdrawal index curr
      elim (curr.prev_hash == c.genesis_challenge) [
        | true ↦ ok (paid ∷ [])
        | false ↦ do
          p ← block_record bs curr.prev_hash
          rest ← elim (is_transaction_block p) [
            | true ↦ ok []
            | false ↦ reward_loop fuel (index + 1) p
          ]
          ok (paid ∷ rest)
      ]

  unfoldable pub prefarm : ℕ → Result Withdrawal
  unfolding withdrawal
  prefarm index = withdrawal index 0 c.prefarm_address (c.prefarm_amount * corpochain_to_gwei)

  abbrev pub next_index : BlockRecord → ℕ
  next_index b = elim b.last_withdrawal_index [ none ↦ 0 | some last ↦ last + 1 ]

  unfoldable pub create_withdrawals : Blockchain → BlockRecord → Result (List Withdrawal)
  unfolding reward_loop prefarm
  create_withdrawals bs prev_tx_block = elim (prev_tx_block.height == 0) [
    | true ↦ do
      first ← prefarm (next_index prev_tx_block)
      rewards ←
          reward_loop bs (suc prev_tx_block.height) (next_index prev_tx_block + 1) prev_tx_block
      ok (first ∷ rewards)
    | false ↦ reward_loop bs (suc prev_tx_block.height) (next_index prev_tx_block) prev_tx_block
  ]

unfoldable pub get_prev_transaction_block :
    Blockchain → BlockRecord → ℕ → Result (Bool × BlockRecord)
get_prev_transaction_block bs curr total_iters_sp = do
  found ← walk_back bs (λ b. not (is_transaction_block b)) (suc curr.height) curr
  ok (if ltb found.total_iters total_iters_sp then (true, found) else (false, curr))
