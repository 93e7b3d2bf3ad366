-- ===== src/Consensus/ForkPoint.antt =====
-- The fork point of two chains: corpochain/consensus/find_fork_point.py.
pub mod Common
pub mod Highest
use Prim.{Discrete}
use mathlib.Core.Bool.{decide}
use native.Mathlib.Decide.{ℕ_discrete}
use corpochain_beacon_client.Base.{
  ℕ, zero, suc, ◌+◌, Bool, true, false, ◌||◌, ltb, ◌==◌, if◌then◌else◌, Result, ok, err,
  out_of_fuel, ◌>>=◌,
}
use corpochain_beacon_client.Base.Int.{ℤ, pos, negsuc}
use corpochain_beacon_client.Consensus.Block.{
  BlockRecord, Blockchain, block_record, SubEpochSummary,
}

SubEpochSummary-discrete : Discrete SubEpochSummary
SubEpochSummary-discrete = hlevel ℕ_discrete

pub BlockRecord-discrete : Discrete BlockRecord
BlockRecord-discrete = hlevel (ℕ_discrete, SubEpochSummary-discrete)

module _ (bs : Blockchain) where
  -- The loop's end, where both heights are 0.
  unfoldable pub find_fork_point_in_chain_fuel : ℕ → BlockRecord → BlockRecord → Result ℤ
  find_fork_point_in_chain_fuel zero block_1 block_2 = err out_of_fuel
  find_fork_point_in_chain_fuel (suc fuel) block_1 block_2 =
      elim (ltb 0 block_2.height || ltb 0 block_1.height) [
        | false ↦ ok (if decide (BlockRecord-discrete block_2 block_1) then pos 0 else negsuc 0)
        | true ↦ elim (ltb block_1.height block_2.height) [
          | true ↦ do
            p ← block_record bs block_2.prev_hash
            find_fork_point_in_chain_fuel fuel block_1 p
          | false ↦ elim (ltb block_2.height block_1.height) [
            | true ↦ do
              p ← block_record bs block_1.prev_hash
              find_fork_point_in_chain_fuel fuel p block_2
            | false ↦ elim (block_2.header_hash == block_1.header_hash) [
              | true ↦ ok (pos block_2.height)
              | false ↦ do
                p ← block_record bs block_2.prev_hash
                q ← block_record bs block_1.prev_hash
                find_fork_point_in_chain_fuel fuel q p
            ]
          ]
        ]
      ]

  unfoldable pub find_fork_point_in_chain : BlockRecord → BlockRecord → Result ℤ
  unfolding find_fork_point_in_chain_fuel
  find_fork_point_in_chain block_1 block_2 =
      find_fork_point_in_chain_fuel (suc (block_1.height + block_2.height)) block_1 block_2
