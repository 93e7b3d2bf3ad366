-- ===== src/Consensus/Deficit.antt =====
-- The deficit of a block: corpochain/consensus/deficit.py. Of the previous block the code reads
-- only `prev_b.deficit`.
pub mod Laws
use corpochain_beacon_client.Base.{
  ℕ, ◌-◌, Bool, Option, none, some, ltb, ◌==◌, if◌then◌else◌, Result, ok, err, assertion_error,
}
use corpochain_beacon_client.Ints.{uint, uint_sub}
use corpochain_beacon_client.Consensus.Constants.{Constants}

module _ (c : Constants) where
  after_deficit : ℕ → Bool → ℕ → Result ℕ
  unfolding uint uint_sub
  after_deficit prev_deficit overflow num_finished_sub_slots =
      let m = c.min_blocks_per_challenge_block in
      if prev_deficit == m
      then (if overflow
          then (if ltb 0 num_finished_sub_slots
              then uint_sub 8 prev_deficit 1
              else uint 8 prev_deficit)
          else uint_sub 8 prev_deficit 1)
      else if prev_deficit == 0
      then (if num_finished_sub_slots == 0
          then uint 8 0
          else if num_finished_sub_slots == 1
          then (if overflow then uint 8 m else uint_sub 8 m 1)
          else uint_sub 8 m 1)
      else uint_sub 8 prev_deficit 1

  unfoldable pub calculate_deficit : ℕ → Option ℕ → Bool → ℕ → Result ℕ
  unfolding after_deficit
  calculate_deficit height prev_deficit overflow num_finished_sub_slots =
      if height == 0 then uint_sub 8 c.min_blocks_per_challenge_block 1 else elim prev_deficit [
        | none ↦ err assertion_error
        | some d ↦ after_deficit d overflow num_finished_sub_slots
      ]
