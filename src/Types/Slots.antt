-- ===== src/Types/Slots.antt =====
-- Sub-slots: corpochain/types/blockchain_format/slots.py and
-- corpochain/types/end_of_slot_bundle.py.
use corpochain_beacon_client.Base.{ℕ, Option}
use corpochain_beacon_client.Types.Proofs.{ProofOfSpace, VdfInfo, VdfProof}

pub record ChallengeBlockInfo : Type 0 where
  pub proof_of_space : ProofOfSpace
  pub challenge_chain_sp_vdf : Option VdfInfo
  pub challenge_chain_sp_signature : ℕ
  pub challenge_chain_ip_vdf : VdfInfo

pub record ChallengeChainSubSlot : Type 0 where
  pub challenge_chain_end_of_slot_vdf : VdfInfo
  pub infused_challenge_chain_sub_slot_hash : Option ℕ
  pub subepoch_summary_hash : Option ℕ
  pub new_sub_slot_iters : Option ℕ
  pub new_difficulty : Option ℕ

pub record InfusedChallengeChainSubSlot : Type 0 where
  pub infused_challenge_chain_end_of_slot_vdf : VdfInfo

pub record RewardChainSubSlot : Type 0 where
  pub end_of_slot_vdf : VdfInfo
  pub challenge_chain_sub_slot_hash : ℕ
  pub infused_challenge_chain_sub_slot_hash : Option ℕ
  pub deficit : ℕ

pub record SubSlotProofs : Type 0 where
  pub challenge_chain_slot_proof : VdfProof
  pub infused_challenge_chain_slot_proof : Option VdfProof
  pub reward_chain_slot_proof : VdfProof

pub record EndOfSubSlotBundle : Type 0 where
  pub challenge_chain : ChallengeChainSubSlot
  pub infused_challenge_chain : Option InfusedChallengeChainSubSlot
  pub reward_chain : RewardChainSubSlot
  pub proofs : SubSlotProofs
