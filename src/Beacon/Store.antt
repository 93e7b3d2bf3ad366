-- ===== src/Beacon/Store.antt =====
-- The sub-slots, signage points and blocks that the beacon keeps in memory:
-- corpochain/beacon/beacon_store.py and signage_point.py. The time is given by the caller, in
-- seconds. What is only kept and handed on is a number or a parameter: an infusion point by its
-- message, a validation result by its place.
pub mod Blocks
pub mod Future
pub mod SubSlots
pub mod SignagePoints
pub mod NewPeak
use corpochain_beacon_client.Base.{
  ℕ, zero, suc, ◌==◌, Bool, true, false, ◌&&◌, Option, none, some, List, [], ◌∷◌,
}
use corpochain_beacon_client.Base.Dict.{Dict}
use corpochain_beacon_client.Base.Bytes.{bytes_eq}
use corpochain_beacon_client.Consensus.Constants.{Constants}
use corpochain_beacon_client.Types.Proofs.{VdfInfo, VdfProof, same_vdf_info}
use corpochain_beacon_client.Types.Slots.{
  ChallengeChainSubSlot, InfusedChallengeChainSubSlot, RewardChainSubSlot, SubSlotProofs,
  EndOfSubSlotBundle,
}
use corpochain_beacon_client.Types.Blocks.{UnfinishedBlock}
use corpochain_beacon_client.Util.LruCache.{LruCache}
use corpochain_beacon_client.Util.LruCache as Lru

pub record SignagePoint : Type 0 where
  pub cc_vdf : Option VdfInfo
  pub cc_proof : Option VdfProof
  pub rc_vdf : Option VdfInfo
  pub rc_proof : Option VdfProof

abbrev pub no_signage_point : SignagePoint
no_signage_point = record { cc_vdf = none; cc_proof = none; rc_vdf = none; rc_proof = none }

-- `NewInfusionPointVDF` of corpochain/protocols/timelord_protocol.py
pub record InfusionPoint : Type 0 where
  pub unfinished_reward_hash : ℕ
  pub challenge_chain_ip_vdf : VdfInfo
  pub challenge_chain_ip_proof : VdfProof
  pub reward_chain_ip_vdf : VdfInfo
  pub reward_chain_ip_proof : VdfProof
  pub infused_challenge_chain_ip_vdf : Option VdfInfo
  pub infused_challenge_chain_ip_proof : Option VdfProof

-- An entry of `finished_sub_slots`
pub record SlotEntry : Type 0 where
  pub sub_slot : Option EndOfSubSlotBundle
  pub sps : List (Option SignagePoint)
  pub total_iters : ℕ

pub record BeaconStore : Type 0 where
  pub candidate_blocks : Dict (ℕ × UnfinishedBlock)
  pub candidate_backup_blocks : Dict (ℕ × UnfinishedBlock)
  pub seen_unfinished_blocks : List ℕ
  pub unfinished_blocks : Dict (ℕ × (UnfinishedBlock × ℕ))
  pub finished_sub_slots : List SlotEntry
  pub future_eos_cache : Dict (List EndOfSubSlotBundle)
  pub future_sp_cache : Dict (List (ℕ × SignagePoint))
  pub future_ip_cache : Dict (List InfusionPoint)
  pub future_cache_key_times : Dict ℕ
  pub recent_signage_points : LruCache (SignagePoint × ℕ)
  pub recent_eos : LruCache (EndOfSubSlotBundle × ℕ)

-- `[None] * NUM_SPS_SUB_SLOT`
abbrev pub no_sps : ℕ → List (Option SignagePoint)
no_sps zero = []
no_sps (suc n) = none ∷ no_sps n

module _ (c : Constants) where
  abbrev pub genesis_slots : List SlotEntry
  genesis_slots = record { sub_slot = none; sps = no_sps c.num_sps_sub_slot; total_iters = 0 } ∷ []

  abbrev pub initialize_genesis_sub_slot : BeaconStore → BeaconStore
  initialize_genesis_sub_slot s = record s { finished_sub_slots = genesis_slots }

  abbrev pub init : BeaconStore
  init = record {
    candidate_blocks = [];
    candidate_backup_blocks = [];
    seen_unfinished_blocks = [];
    unfinished_blocks = [];
    finished_sub_slots = genesis_slots;
    future_eos_cache = [];
    future_sp_cache = [];
    future_ip_cache = [];
    future_cache_key_times = [];
    recent_signage_points = Lru.init 500;
    recent_eos = Lru.init 50;
  }

-- Equality of the data classes, field by field.
abbrev pub same_option : {A : Type 0} → (A → A → Bool) → Option A → Option A → Bool
same_option same none none = true
same_option same none (some b) = false
same_option same (some a) none = false
same_option same (some a) (some b) = same a b

abbrev pub same_bool : Bool → Bool → Bool
same_bool true b = b
same_bool false true = false
same_bool false false = true

abbrev pub same_vdf_proof : VdfProof → VdfProof → Bool
same_vdf_proof a b =
    a.witness_type == b.witness_type
    && (bytes_eq a.witness b.witness && same_bool a.normalized_to_identity b.normalized_to_identity)

abbrev pub same_challenge_chain : ChallengeChainSubSlot → ChallengeChainSubSlot → Bool
same_challenge_chain a b =
    same_vdf_info a.challenge_chain_end_of_slot_vdf b.challenge_chain_end_of_slot_vdf
    && (same_option ◌==◌ a.infused_challenge_chain_sub_slot_hash
          b.infused_challenge_chain_sub_slot_hash
        && (same_option ◌==◌ a.subepoch_summary_hash b.subepoch_summary_hash
            && (same_option ◌==◌ a.new_sub_slot_iters b.new_sub_slot_iters
                && same_option ◌==◌ a.new_difficulty b.new_difficulty)))

abbrev pub same_infused : InfusedChallengeChainSubSlot → InfusedChallengeChainSubSlot → Bool
same_infused a b =
    same_vdf_info a.infused_challenge_chain_end_of_slot_vdf
      b.infused_challenge_chain_end_of_slot_vdf

abbrev pub same_reward_chain : RewardChainSubSlot → RewardChainSubSlot → Bool
same_reward_chain a b =
    same_vdf_info a.end_of_slot_vdf b.end_of_slot_vdf
    && (a.challenge_chain_sub_slot_hash == b.challenge_chain_sub_slot_hash
        && (same_option ◌==◌ a.infused_challenge_chain_sub_slot_hash
              b.infused_challenge_chain_sub_slot_hash
            && a.deficit == b.deficit))

abbrev pub same_proofs : SubSlotProofs → SubSlotProofs → Bool
same_proofs a b =
    same_vdf_proof a.challenge_chain_slot_proof b.challenge_chain_slot_proof
    && (same_option same_vdf_proof a.infused_challenge_chain_slot_proof
          b.infused_challenge_chain_slot_proof
        && same_vdf_proof a.reward_chain_slot_proof b.reward_chain_slot_proof)

unfoldable pub same_bundle : EndOfSubSlotBundle → EndOfSubSlotBundle → Bool
same_bundle a b =
    same_challenge_chain a.challenge_chain b.challenge_chain
    && (same_option same_infused a.infused_challenge_chain b.infused_challenge_chain
        && (same_reward_chain a.reward_chain b.reward_chain && same_proofs a.proofs b.proofs))
