-- ===== src/Tests/Time.antt =====
-- Proofs of space and time, the timelord, and the record of a block, on small data.
use corpochain_beacon_client.Base.{
  ℕ, ◌+◌, ◌^◌, ◌≡◌, ◌≢◌, ◌↔◌, refl, inr, Bool, true, false, not, ◌&&◌, Option, none, some, List, [],
  ◌∷◌, if◌then◌else◌, is_some, ok, err, out_of_fuel, arith,
}
use corpochain_beacon_client.Consensus.Constants.{default_constants}
use corpochain_beacon_client.Consensus.Block.{BlockRecord}
use corpochain_beacon_client.Consensus.Chain.{walk_back}
use corpochain_beacon_client.Consensus.VdfInfo.{VdfStart, vdf_start, get_signage_point_vdf_info}
use corpochain_beacon_client.Consensus.VdfInfo.Start.{IsStart, get_signage_point_vdf_info-IsStart}
use corpochain_beacon_client.Consensus.VdfInfo.InTime.{get_signage_point_vdf_info-in_time}
use corpochain_beacon_client.Consensus.Record.{block_to_block_record}
use corpochain_beacon_client.Consensus.Record.Describes.{Describes, block_to_block_record-Describes}
use corpochain_beacon_client.Types.Proofs.{
  VdfInfo, VdfProof, ProofOfSpace, verify_and_get_quality_string,
}
use corpochain_beacon_client.Types.Proofs.Accepted.{
  IsProof, plot_id_of, Answers, verify_and_get_quality_string_iff,
}
use corpochain_beacon_client.Types.Slots.{EndOfSubSlotBundle}
use corpochain_beacon_client.Types.Blocks.{FullBlock, Hashes}
use corpochain_beacon_client.Timelord.{end_of_sub_slot}
use corpochain_beacon_client.Timelord.State.{
  LastState, subslot, set_state, init, set_end, can_infuse_block, get_next_sub_epoch_summary,
}
use corpochain_beacon_client.Timelord.State.Valid.{IsNoted, set_state-IsNoted}
use corpochain_beacon_client.Timelord.State.Slots.{done_iters, or_else, set_end-returns}
use corpochain_beacon_client.Tests.Blocks.{chain, chain-IsLinked, block_4}

-- A hash that is always empty, and a verifier that answers for every proof.
abbrev zero_hash : List ℕ → List ℕ
zero_hash bytes = []

abbrev trusting : List ℕ → ℕ → ℕ → List ℕ → List ℕ
trusting plot_id size challenge proof =
    1 ∷ 2 ∷ 3 ∷ 4 ∷ 5 ∷ 6 ∷ 7 ∷ 8 ∷ 1 ∷ 2 ∷ 3 ∷ 4 ∷ 5 ∷ 6 ∷ 7 ∷ 8 ∷ 1 ∷ 2 ∷ 3 ∷ 4 ∷ 5 ∷ 6 ∷ 7 ∷ 8
    ∷ 1 ∷ 2 ∷ 3 ∷ 4 ∷ 5 ∷ 6 ∷ 7 ∷ 8 ∷ []

trusting-Answers : Answers zero_hash trusting default_constants 5 6
trusting-Answers plot_id size challenge proof = inr refl

abbrev space : ProofOfSpace
space = record {
  challenge = 0;
  pool_public_key = none;
  pool_contract_puzzle_hash = some (1 ∷ []);
  plot_public_key = 2 ∷ [];
  size = 32;
  proof = [];
}

verify_and_get_quality_string_iff_example :
    (r : Option (List ℕ)) × (verify_and_get_quality_string zero_hash trusting space
        default_constants 5 6
      ≡ ok r)
    × ((quality : List ℕ)
        → (r ≡ some quality) ↔ (
            (plot_id : List ℕ) × (plot_id_of zero_hash trusting default_constants 5 6
                space.pool_public_key space.pool_contract_puzzle_hash space.plot_public_key
              ≡ some plot_id)
            × IsProof zero_hash trusting default_constants 5 6 space plot_id quality))
verify_and_get_quality_string_iff_example =
    verify_and_get_quality_string_iff zero_hash trusting default_constants 5 6 space (omega arith)
      trusting-Answers

abbrev vdf : ℕ → VdfInfo
vdf output = record { challenge = 3; number_of_iterations = 100; output = output }

abbrev pub vdf_proof : VdfProof
vdf_proof = record { witness_type = 0; witness = []; normalized_to_identity = true }

abbrev pub hashes : Hashes
hashes = record {
  challenge_block_info = λ x. 1;
  challenge_chain = λ x. 2;
  infused_challenge_chain = λ x. 3;
  reward_chain = λ x. 4;
  reward_chain_block = λ x. 5;
  reward_chain_block_unfinished = λ x. 6;
  foliage = λ x. 100;
  sub_epoch_summary = λ x. 8;
  classgroup_element = λ x. x;
}

-- The end of a sub-slot that starts an epoch.
abbrev ending : EndOfSubSlotBundle
ending = record {
  challenge_chain = record {
    challenge_chain_end_of_slot_vdf = vdf 1;
    infused_challenge_chain_sub_slot_hash = none;
    subepoch_summary_hash = none;
    new_sub_slot_iters = some 2000;
    new_difficulty = some 7;
  };
  infused_challenge_chain = none;
  reward_chain = record {
    end_of_slot_vdf = vdf 2;
    challenge_chain_sub_slot_hash = 2;
    infused_challenge_chain_sub_slot_hash = none;
    deficit = 16;
  };
  proofs = record {
    challenge_chain_slot_proof = vdf_proof;
    infused_challenge_chain_slot_proof = none;
    reward_chain_slot_proof = vdf_proof;
  };
}

abbrev start : LastState
start = init hashes default_constants

set_end-returns_example :
    (s' : LastState) × (set_end hashes default_constants ending start ≡ ok s')
    × (s'.total_iters + done_iters start ≡ start.total_iters + start.sub_slot_iters)
    × (done_iters s' ≡ 0)
    × (s'.difficulty ≡ or_else (some 7) start.difficulty)
    × (s'.sub_slot_iters ≡ (
        if is_some ending.challenge_chain.new_difficulty
        then or_else (some 2000) start.sub_slot_iters
        else start.sub_slot_iters))
    × ((overflow : Bool)
        → can_infuse_block hashes default_constants overflow s'
          ≡ not (overflow && is_some ending.challenge_chain.new_difficulty))
    × (get_next_sub_epoch_summary s' ≡ ok none)
set_end-returns_example =
    set_end-returns hashes default_constants ending start (omega arith) (omega arith) refl

abbrev at_epoch : LastState
at_epoch = record start {
  state_type = end_of_sub_slot;
  subslot_end = some ending;
  deficit = 16;
  total_iters = 2 ^ 20;
  last_challenge_sb_or_eos_total_iters = 2 ^ 20;
  difficulty = 7;
  sub_slot_iters = 2000;
  new_epoch = true;
  reward_challenge_cache = (default_constants.genesis_challenge, 0) ∷ (4, 2 ^ 20) ∷ [];
}

epoch_set :
    set_state hashes default_constants zero_hash trusting (subslot ending) start ≡ ok at_epoch
unfolding set_state
epoch_set = refl

set_state-IsNoted_example : IsNoted hashes default_constants at_epoch
set_state-IsNoted_example =
    set_state-IsNoted hashes default_constants zero_hash trusting (subslot ending) start at_epoch
      (omega arith) epoch_set

-- A signage point 500 iterations after a block that is the first in its sub-slot.
abbrev after_block_4 : VdfStart
after_block_4 = vdf_start 8 0 0 500

found_block_4 :
    get_signage_point_vdf_info chain 4500 900 hashes default_constants [] false (some block_4)
    ≡ ok after_block_4
unfolding get_signage_point_vdf_info walk_back
found_block_4 = refl

get_signage_point_vdf_info-IsStart_example : IsStart chain 4500 900 block_4 after_block_4
get_signage_point_vdf_info-IsStart_example =
    get_signage_point_vdf_info-IsStart chain 4500 900 hashes default_constants [] false block_4
      after_block_4 refl found_block_4

get_signage_point_vdf_info-in_time_example :
    get_signage_point_vdf_info chain 4500 900 hashes default_constants [] true (some block_4)
    ≢ err out_of_fuel
get_signage_point_vdf_info-in_time_example =
    get_signage_point_vdf_info-in_time chain 4500 900 hashes default_constants [] true block_4
      chain-IsLinked refl

-- The first block, after a sub-slot that no block was in.
abbrev genesis_block : FullBlock
genesis_block = record {
  finished_sub_slots = ending ∷ [];
  reward_chain_block = record {
    weight = 30;
    height = 0;
    total_iters = 2000000;
    signage_point_index = 5;
    pos_ss_cc_challenge_hash = 2;
    proof_of_space = space;
    challenge_chain_sp_vdf = none;
    challenge_chain_sp_signature = 0;
    challenge_chain_ip_vdf = vdf 4;
    reward_chain_sp_vdf = none;
    reward_chain_sp_signature = 0;
    reward_chain_ip_vdf = vdf 5;
    infused_challenge_chain_ip_vdf = none;
    is_transaction_block = true;
  };
  challenge_chain_sp_proof = none;
  challenge_chain_ip_proof = vdf_proof;
  reward_chain_sp_proof = none;
  reward_chain_ip_proof = vdf_proof;
  infused_challenge_chain_ip_proof = none;
  foliage = record {
    prev_block_hash = 1;
    reward_block_hash = 5;
    foliage_block_data = record {
      unfinished_reward_block_hash = 6;
      coinbase = 55;
      extension_data = 0;
    };
    foliage_block_data_signature = 0;
    foliage_transaction_block_hash = none;
    foliage_transaction_block_signature = none;
  };
  foliage_transaction_block = some (record {
    prev_transaction_block_hash = 1;
    timestamp = 1700000000;
    execution_block_hash = 0;
  });
  execution_payload = none;
}

abbrev genesis_record : BlockRecord
genesis_record = record {
  header_hash = 100;
  prev_hash = 1;
  height = 0;
  weight = 30;
  total_iters = 2000000;
  signage_point_index = 5;
  challenge_vdf_output = 4;
  infused_challenge_vdf_output = none;
  reward_infusion_new_challenge = 5;
  challenge_block_info_hash = 1;
  sub_slot_iters = 2 ^ 20;
  coinbase = 55;
  required_iters = 12;
  deficit = 15;
  overflow = false;
  prev_transaction_block_height = 0;
  timestamp = some 1700000000;
  prev_transaction_block_hash = some 1;
  execution_block_height = some 0;
  execution_block_hash = some 0;
  last_withdrawal_index = none;
  execution_timestamp = some 0;
  finished_challenge_slot_hashes = some (2 ∷ []);
  finished_infused_challenge_slot_hashes = some [];
  finished_reward_slot_hashes = some (4 ∷ []);
  sub_epoch_summary_included = none;
}

recorded :
    block_to_block_record hashes default_constants chain 12 (some genesis_block) none none
    ≡ ok genesis_record
unfolding block_to_block_record
recorded = refl

block_to_block_record-Describes_example :
    Describes hashes default_constants chain genesis_block genesis_record
block_to_block_record-Describes_example =
    block_to_block_record-Describes hashes default_constants chain 12 genesis_block none recorded
