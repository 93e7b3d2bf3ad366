-- ===== src/Consensus/Rewards/Schedule.antt =====
-- The reward of a block over the years.
use corpochain_beacon_client.Base.{ℕ, ◌*◌, ◌≤◌, ◌≡◌, arith}
use corpochain_beacon_client.Consensus.Rewards.{
  calculate_block_reward, corpochain_to_gwei, blocks_per_year,
}

-- A later block is not paid more, no block is paid more than two coins, and from the fifteenth
-- year on nothing is paid.
pub calculate_block_reward_falls :
    (h k : ℕ)
    → h ≤ k
    → (calculate_block_reward k ≤ calculate_block_reward h)
      × (calculate_block_reward h ≤ 2 * corpochain_to_gwei)
      × (15 * blocks_per_year ≤ k → calculate_block_reward k ≡ 0)
unfolding calculate_block_reward
calculate_block_reward_falls h k le = ground arith
