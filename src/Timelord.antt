-- ===== src/Timelord.antt =====
-- What a timelord works on: corpochain/timelord/types.py, corpochain/timelord/iters_from_block.py
-- and the messages of corpochain/protocols/timelord_protocol.py.
pub mod State
use corpochain_beacon_client.Base.{
  ℕ, Bool, Option, none, some, List, ◌==◌, Result, ok, assertion_error, ◌>>=◌, ◌>>◌, require,
  or_raise,
}
use corpochain_beacon_client.Consensus.Constants.{Constants}
use corpochain_beacon_client.Consensus.Block.{SubEpochSummary}
use corpochain_beacon_client.Consensus.Iterations.{
  calculate_sp_iters, calculate_ip_iters, calculate_iterations_quality,
}
use corpochain_beacon_client.Types.Proofs.{bytes32, verify_and_get_quality_string}
use corpochain_beacon_client.Types.Slots.{EndOfSubSlotBundle}
use corpochain_beacon_client.Types.Blocks.{RewardChainBlock, Hashes}

pub data Chain : Type 0 where
  challenge_chain reward_chain infused_challenge_chain bluebox : Chain

pub data StateType : Type 0 where
  peak end_of_sub_slot first_sub_slot : StateType

pub record NewPeakTimelord : Type 0 where
  pub reward_chain_block : RewardChainBlock
  pub difficulty : ℕ
  pub deficit : ℕ
  pub sub_slot_iters : ℕ
  pub sub_epoch_summary : Option SubEpochSummary
  pub previous_reward_challenges : List (ℕ × ℕ)
  pub last_challenge_sb_or_eos_total_iters : ℕ
  pub passes_ses_height_but_not_yet_included : Bool

-- `cc_sp`
abbrev pub cc_sp_of : Hashes → RewardChainBlock → Result ℕ
cc_sp_of hashes b = elim b.challenge_chain_sp_vdf [
  | none ↦ do require (b.signage_point_index == 0) assertion_error; ok b.pos_ss_cc_challenge_hash
  | some vdf ↦ ok (hashes.classgroup_element vdf.output)
]

-- The unfinished blocks, which the code also calls this with, have the fields that it reads.
unfoldable pub iters_from_block :
    Hashes
    → (List ℕ → List ℕ)
    → (List ℕ → ℕ → ℕ → List ℕ → List ℕ)
    → Constants
    → RewardChainBlock
    → ℕ
    → ℕ
    → Result (ℕ × ℕ)
unfolding bytes32 verify_and_get_quality_string calculate_iterations_quality calculate_sp_iters
    calculate_ip_iters
iters_from_block hashes std_hash validate_proof c b sub_slot_iters difficulty = do
  cc_sp ← cc_sp_of hashes b
  verified ←
      verify_and_get_quality_string std_hash validate_proof b.proof_of_space c
        b.pos_ss_cc_challenge_hash cc_sp
  quality_string ← or_raise verified assertion_error
  required_iters ←
      calculate_iterations_quality std_hash c.difficulty_constant_factor quality_string
        b.proof_of_space.size difficulty (bytes32 cc_sp)
  sp_iters ← calculate_sp_iters c sub_slot_iters b.signage_point_index
  ip_iters ← calculate_ip_iters c sub_slot_iters b.signage_point_index required_iters
  ok (sp_iters, ip_iters)
