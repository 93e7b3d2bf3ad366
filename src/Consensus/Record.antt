-- ===== src/Consensus/Record.antt =====
-- The record that is kept of a block: corpochain/consensus/full_block_to_block_record.py. A full
-- block and a header block have the same fields, and are both a `FullBlock` here.
pub mod Describes
use corpochain_beacon_client.Base.{
  ℕ, zero, suc, Bool, true, false, not, ◌&&◌, ◌||◌, Option, none, some, List, [], ◌∷◌, map, ltb,
  ◌==◌, if◌then◌else◌, is_some, last?, length, Result, ok, err, value_error, index_error,
  assertion_error, out_of_fuel, ◌>>=◌, ◌>>◌, require, or_raise,
}
use corpochain_beacon_client.Consensus.Constants.{Constants}
use corpochain_beacon_client.Consensus.Iterations.{is_overflow_block}
use corpochain_beacon_client.Consensus.Deficit.{calculate_deficit}
use corpochain_beacon_client.Consensus.Difficulty.{get_next_sub_slot_iters_and_difficulty}
use corpochain_beacon_client.Consensus.Summary.{make_sub_epoch_summary}
use corpochain_beacon_client.Consensus.Rewards.{Withdrawal}
use corpochain_beacon_client.Consensus.Block.{
  BlockRecord, Blockchain, SubEpochSummary, block_record, is_transaction_block,
}
use corpochain_beacon_client.Types.Proofs.{VdfInfo}
use corpochain_beacon_client.Types.Slots.{EndOfSubSlotBundle}
use corpochain_beacon_client.Types.Blocks.{
  Hashes, FullBlock, FoliageTransactionBlock, ExecutionPayload,
}

-- `found_ses_hash`: the last summary hash in the finished sub-slots
abbrev pub summary_hash : List EndOfSubSlotBundle → Option ℕ → Option ℕ
summary_hash [] found = found
summary_hash (slot ∷ slots) found =
    summary_hash slots
      (elim slot.challenge_chain.subepoch_summary_hash [ none ↦ found | some hash ↦ some hash ])

abbrev pub output_of : Option VdfInfo → Option ℕ
output_of none = none
output_of (some vdf) = some vdf.output

abbrev pub last_index : Option ExecutionPayload → Option ℕ
last_index none = none
last_index (some payload) = elim (last? payload.withdrawals) [
  | none ↦ none
  | some withdrawal ↦ some withdrawal.index
]

-- `execution_block_height` and `execution_timestamp`, of a block with a transaction block
abbrev pub payload_height : Option ExecutionPayload → ℕ
payload_height none = 0
payload_height (some payload) = payload.block_number

abbrev pub payload_timestamp : Option ExecutionPayload → ℕ
payload_timestamp none = 0
payload_timestamp (some payload) = payload.timestamp

-- A value that only a block with a transaction block has.
abbrev pub if_transaction :
    {A : Type 0} → Option FoliageTransactionBlock → (FoliageTransactionBlock → A) → Option A
if_transaction none value = none
if_transaction (some foliage) value = some (value foliage)

module _ (hashes : Hashes) where
  abbrev pub challenge_hashes : List EndOfSubSlotBundle → List ℕ
  challenge_hashes slots = map (λ slot. hashes.challenge_chain slot.challenge_chain) slots

  abbrev pub reward_hashes : List EndOfSubSlotBundle → List ℕ
  reward_hashes slots = map (λ slot. hashes.reward_chain slot.reward_chain) slots

  abbrev pub infused_hashes : List EndOfSubSlotBundle → List ℕ
  infused_hashes [] = []
  infused_hashes (slot ∷ slots) = elim slot.infused_challenge_chain [
    | none ↦ infused_hashes slots
    | some infused ↦ hashes.infused_challenge_chain infused ∷ infused_hashes slots
  ]

  module _ (c : Constants) where
    -- The hashes of the finished sub-slots, the genesis challenge for the first block, or none.
    abbrev pub finished : FullBlock → List ℕ → Option (List ℕ)
    finished block of_slots =
        if ltb 0 (length block.finished_sub_slots)
        then some of_slots
        else if block.reward_chain_block.height == 0
        then some (c.genesis_challenge ∷ [])
        else none

    unfoldable pub header_block_to_sub_block_record :
        ℕ → FullBlock → ℕ → Bool → ℕ → ℕ → Option SubEpochSummary → BlockRecord
    header_block_to_sub_block_record required_iters block sub_slot_iters overflow deficit
          prev_transaction_block_height ses =
        let b = block.reward_chain_block in
        let slots = block.finished_sub_slots in
        let transaction = block.foliage_transaction_block in
        record {
          header_hash = hashes.foliage block.foliage;
          prev_hash = block.foliage.prev_block_hash;
          height = b.height;
          weight = b.weight;
          total_iters = b.total_iters;
          signage_point_index = b.signage_point_index;
          challenge_vdf_output = b.challenge_chain_ip_vdf.output;
          infused_challenge_vdf_output = output_of b.infused_challenge_chain_ip_vdf;
          reward_infusion_new_challenge = hashes.reward_chain_block b;
          challenge_block_info_hash = hashes.challenge_block_info (record {
            proof_of_space = b.proof_of_space;
            challenge_chain_sp_vdf = b.challenge_chain_sp_vdf;
            challenge_chain_sp_signature = b.challenge_chain_sp_signature;
            challenge_chain_ip_vdf = b.challenge_chain_ip_vdf;
          });
          sub_slot_iters = sub_slot_iters;
          coinbase = block.foliage.foliage_block_data.coinbase;
          required_iters = required_iters;
          deficit = deficit;
          overflow = overflow;
          prev_transaction_block_height = prev_transaction_block_height;
          timestamp = if_transaction transaction (λ f. f.timestamp);
          prev_transaction_block_hash =
              if_transaction transaction (λ f. f.prev_transaction_block_hash);
          execution_block_height =
              if_transaction transaction (λ f. payload_height block.execution_payload);
          execution_block_hash = if_transaction transaction (λ f. f.execution_block_hash);
          last_withdrawal_index = last_index block.execution_payload;
          execution_timestamp =
              if_transaction transaction (λ f. payload_timestamp block.execution_payload);
          finished_challenge_slot_hashes = finished block (challenge_hashes slots);
          finished_infused_challenge_slot_hashes =
              if ltb 0 (length slots) then some (infused_hashes slots) else none;
          finished_reward_slot_hashes = finished block (reward_hashes slots);
          sub_epoch_summary_included = ses;
        }

    module _ (bs : Blockchain) where
      -- `while curr is not None and not curr.is_transaction_block`, and the height behind it
      unfoldable pub prev_transaction_height : ℕ → Option BlockRecord → Result ℕ
      prev_transaction_height fuel none = ok 0
      prev_transaction_height zero (some curr) = err out_of_fuel
      prev_transaction_height (suc fuel) (some curr) = elim (is_transaction_block curr) [
        | true ↦ ok curr.height
        | false ↦ prev_transaction_height fuel (bs.block_records curr.prev_hash)
      ]

      abbrev pub fuel_for : Option BlockRecord → ℕ
      fuel_for none = 0
      fuel_for (some curr) = suc curr.height

      -- The summary that the block includes, checked against the hash in its sub-slots.
      unfoldable pub checked_summary :
          ℕ → EndOfSubSlotBundle → FullBlock → Option BlockRecord → Result SubEpochSummary
      unfolding make_sub_epoch_summary
      checked_summary found_ses_hash slot block prev = do
        prev_b ← or_raise prev assertion_error
        prev_prev_b ← block_record bs prev_b.prev_hash
        ses ←
            make_sub_epoch_summary hashes.sub_epoch_summary c bs block.reward_chain_block.height
              prev_prev_b slot.challenge_chain.new_difficulty
              slot.challenge_chain.new_sub_slot_iters
        require (hashes.sub_epoch_summary ses == found_ses_hash) value_error
        ok ses

      unfoldable pub summary_for :
          Option ℕ
          → List EndOfSubSlotBundle
          → FullBlock
          → Option BlockRecord
          → Result (Option SubEpochSummary)
      unfolding checked_summary
      summary_for none slots block prev = ok none
      summary_for (some found_ses_hash) [] block prev = err assertion_error
      summary_for (some found_ses_hash) (slot ∷ slots) block prev = do
        ses ← checked_summary found_ses_hash slot block prev
        ok (some ses)

      abbrev pub summary_included : FullBlock → Option BlockRecord → Result (Option SubEpochSummary)
      summary_included block prev =
          summary_for (summary_hash block.finished_sub_slots none) block.finished_sub_slots block
            prev

      -- The sub-slot iterations, where the caller does not give them.
      unfoldable pub iters_of : FullBlock → Option BlockRecord → Option ℕ → Result ℕ
      unfolding get_next_sub_slot_iters_and_difficulty
      iters_of block prev_b (some sub_slot_iters) = ok sub_slot_iters
      iters_of block prev_b none = do
        next ←
            get_next_sub_slot_iters_and_difficulty c bs (ltb 0 (length block.finished_sub_slots))
              prev_b
        ok next.0

      abbrev pub deficit_of : Option BlockRecord → Option ℕ
      deficit_of none = none
      deficit_of (some b) = some b.deficit

      abbrev pub choose : Option FullBlock → Option FullBlock → Result FullBlock
      choose (some full_block) header_block = ok full_block
      choose none header_block = or_raise header_block assertion_error

      unfoldable pub block_to_block_record :
          ℕ → Option FullBlock → Option FullBlock → Option ℕ → Result BlockRecord
      unfolding iters_of is_overflow_block calculate_deficit summary_for prev_transaction_height
          header_block_to_sub_block_record
      block_to_block_record required_iters full_block header_block given_iters = do
        block ← choose full_block header_block
        let height = block.reward_chain_block.height
        let prev_b = bs.block_records block.foliage.prev_block_hash
        require (height == 0 || is_some prev_b) assertion_error
        sub_slot_iters ← iters_of block prev_b given_iters
        overflow ← is_overflow_block c block.reward_chain_block.signage_point_index
        deficit ←
            calculate_deficit c height (deficit_of prev_b) overflow
              (length block.finished_sub_slots)
        ses ← summary_included block prev_b
        prev_height ← prev_transaction_height (fuel_for prev_b) prev_b
        ok (
            header_block_to_sub_block_record required_iters block sub_slot_iters overflow deficit
              prev_height ses)
