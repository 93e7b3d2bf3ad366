-- ===== src/Types/Blocks.antt =====
-- Blocks: corpochain/types/blockchain_format/reward_chain_block.py, foliage.py and
-- execution_payload.py, corpochain/types/full_block.py, header_block.py and unfinished_block.py.
-- `FullBlock` and `HeaderBlock` have the same fields, and one record stands for both.
use corpochain_beacon_client.Base.{
  ℕ, Bool, true, false, not, ◌||◌, Option, none, some, List, [], ◌∷◌, ◌==◌, if◌then◌else◌,
}
use corpochain_beacon_client.Consensus.Block.{SubEpochSummary}
use corpochain_beacon_client.Consensus.Rewards.{Withdrawal}
use corpochain_beacon_client.Types.Proofs.{ProofOfSpace, VdfInfo, VdfProof}
use corpochain_beacon_client.Types.Slots.{
  ChallengeBlockInfo, ChallengeChainSubSlot, InfusedChallengeChainSubSlot, RewardChainSubSlot,
  EndOfSubSlotBundle,
}

pub record RewardChainBlockUnfinished : Type 0 where
  pub total_iters : ℕ
  pub signage_point_index : ℕ
  pub pos_ss_cc_challenge_hash : ℕ
  pub proof_of_space : ProofOfSpace
  pub challenge_chain_sp_vdf : Option VdfInfo
  pub challenge_chain_sp_signature : ℕ
  pub reward_chain_sp_vdf : Option VdfInfo
  pub reward_chain_sp_signature : ℕ

pub record RewardChainBlock : Type 0 where
  pub weight : ℕ
  pub height : ℕ
  pub total_iters : ℕ
  pub signage_point_index : ℕ
  pub pos_ss_cc_challenge_hash : ℕ
  pub proof_of_space : ProofOfSpace
  pub challenge_chain_sp_vdf : Option VdfInfo
  pub challenge_chain_sp_signature : ℕ
  pub challenge_chain_ip_vdf : VdfInfo
  pub reward_chain_sp_vdf : Option VdfInfo
  pub reward_chain_sp_signature : ℕ
  pub reward_chain_ip_vdf : VdfInfo
  pub infused_challenge_chain_ip_vdf : Option VdfInfo
  pub is_transaction_block : Bool

abbrev pub get_unfinished : RewardChainBlock → RewardChainBlockUnfinished
get_unfinished b = record {
  total_iters = b.total_iters;
  signage_point_index = b.signage_point_index;
  pos_ss_cc_challenge_hash = b.pos_ss_cc_challenge_hash;
  proof_of_space = b.proof_of_space;
  challenge_chain_sp_vdf = b.challenge_chain_sp_vdf;
  challenge_chain_sp_signature = b.challenge_chain_sp_signature;
  reward_chain_sp_vdf = b.reward_chain_sp_vdf;
  reward_chain_sp_signature = b.reward_chain_sp_signature;
}

pub record FoliageTransactionBlock : Type 0 where
  pub prev_transaction_block_hash : ℕ
  pub timestamp : ℕ
  pub execution_block_hash : ℕ

pub record FoliageBlockData : Type 0 where
  pub unfinished_reward_block_hash : ℕ
  pub coinbase : ℕ
  pub extension_data : ℕ

pub record Foliage : Type 0 where
  pub prev_block_hash : ℕ
  pub reward_block_hash : ℕ
  pub foliage_block_data : FoliageBlockData
  pub foliage_block_data_signature : ℕ
  pub foliage_transaction_block_hash : Option ℕ
  pub foliage_transaction_block_signature : Option ℕ

pub record ExecutionPayload : Type 0 where
  pub parent_hash : ℕ
  pub fee_recipient : ℕ
  pub state_root : ℕ
  pub receipts_root : ℕ
  pub logs_bloom : ℕ
  pub prev_randao : ℕ
  pub block_number : ℕ
  pub gas_limit : ℕ
  pub gas_used : ℕ
  pub timestamp : ℕ
  pub extra_data : List ℕ
  pub base_fee_per_gas : ℕ
  pub block_hash : ℕ
  pub transactions : List (List ℕ)
  pub withdrawals : List Withdrawal

pub record FullBlock : Type 0 where
  pub finished_sub_slots : List EndOfSubSlotBundle
  pub reward_chain_block : RewardChainBlock
  pub challenge_chain_sp_proof : Option VdfProof
  pub challenge_chain_ip_proof : VdfProof
  pub reward_chain_sp_proof : Option VdfProof
  pub reward_chain_ip_proof : VdfProof
  pub infused_challenge_chain_ip_proof : Option VdfProof
  pub foliage : Foliage
  pub foliage_transaction_block : Option FoliageTransactionBlock
  pub execution_payload : Option ExecutionPayload

-- A proof that is not of one element normalized to the identity.
abbrev pub is_bulky : VdfProof → Bool
is_bulky proof = not (proof.witness_type == 0) || not proof.normalized_to_identity

abbrev pub has_bulky : Option VdfProof → Bool
has_bulky none = false
has_bulky (some proof) = is_bulky proof

abbrev pub compact_sub_slots : List EndOfSubSlotBundle → Bool
compact_sub_slots [] = true
compact_sub_slots (slot ∷ slots) =
    if is_bulky slot.proofs.challenge_chain_slot_proof
    then false
    else if has_bulky slot.proofs.infused_challenge_chain_slot_proof
    then false
    else compact_sub_slots slots

unfoldable pub is_fully_compactified : FullBlock → Bool
is_fully_compactified block =
    if not (compact_sub_slots block.finished_sub_slots)
    then false
    else if has_bulky block.challenge_chain_sp_proof
    then false
    else not (is_bulky block.challenge_chain_ip_proof)

pub record UnfinishedBlock : Type 0 where
  pub finished_sub_slots : List EndOfSubSlotBundle
  pub reward_chain_block : RewardChainBlockUnfinished
  pub challenge_chain_sp_proof : Option VdfProof
  pub reward_chain_sp_proof : Option VdfProof
  pub foliage : Foliage
  pub foliage_transaction_block : Option FoliageTransactionBlock
  pub execution_payload : Option ExecutionPayload

-- `get_hash` of the streamable classes: `std_hash` of the bytes of the object, which is a parameter.
pub record Hashes : Type 0 where
  pub challenge_block_info : ChallengeBlockInfo → ℕ
  pub challenge_chain : ChallengeChainSubSlot → ℕ
  pub infused_challenge_chain : InfusedChallengeChainSubSlot → ℕ
  pub reward_chain : RewardChainSubSlot → ℕ
  pub reward_chain_block : RewardChainBlock → ℕ
  pub reward_chain_block_unfinished : RewardChainBlockUnfinished → ℕ
  pub foliage : Foliage → ℕ
  pub sub_epoch_summary : SubEpochSummary → ℕ
  pub classgroup_element : ℕ → ℕ
