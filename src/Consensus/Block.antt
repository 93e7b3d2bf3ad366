-- ===== src/Consensus/Block.antt =====
-- `SubEpochSummary` and `BlockRecord` (corpochain/consensus/block_record.py), and the part of
-- `BlockchainInterface` that the consensus rules call, as `Blockchain` implements it
-- (corpochain/consensus/blockchain.py). Hashes, VDF outputs and addresses are only compared and
-- handed on, so each is the number that its bytes spell.
pub mod SignagePoint
use corpochain_beacon_client.Base.{
  ℕ, ◌+◌, ◌-◌, Bool, Option, none, some, List, ◌==◌, if◌then◌else◌, is_some, Result, ok, err,
  value_error, key_error, ◌>>=◌, ◌>>◌, or_raise,
}
use corpochain_beacon_client.Base.Int.{ℤ}
use corpochain_beacon_client.Ints.{uint, uint_sub}
use corpochain_beacon_client.Consensus.Constants.{Constants}
use corpochain_beacon_client.Consensus.Iterations.{calculate_ip_iters, calculate_sp_iters}

pub record SubEpochSummary : Type 0 where
  pub prev_subepoch_summary_hash : ℕ
  pub reward_chain_hash : ℕ
  pub num_blocks_overflow : ℕ
  pub new_difficulty : Option ℕ
  pub new_sub_slot_iters : Option ℕ

pub record BlockRecord : Type 0 where
  pub header_hash : ℕ
  pub prev_hash : ℕ
  pub height : ℕ
  pub weight : ℕ
  pub total_iters : ℕ
  pub signage_point_index : ℕ
  pub challenge_vdf_output : ℕ
  pub infused_challenge_vdf_output : Option ℕ
  pub reward_infusion_new_challenge : ℕ
  pub challenge_block_info_hash : ℕ
  pub sub_slot_iters : ℕ
  pub coinbase : ℕ
  pub required_iters : ℕ
  pub deficit : ℕ
  pub overflow : Bool
  pub prev_transaction_block_height : ℕ
  pub timestamp : Option ℕ
  pub prev_transaction_block_hash : Option ℕ
  pub execution_block_height : Option ℕ
  pub execution_block_hash : Option ℕ
  pub last_withdrawal_index : Option ℕ
  pub execution_timestamp : Option ℕ
  pub finished_challenge_slot_hashes : Option (List ℕ)
  pub finished_infused_challenge_slot_hashes : Option (List ℕ)
  pub finished_reward_slot_hashes : Option (List ℕ)
  pub sub_epoch_summary_included : Option SubEpochSummary

abbrev pub is_transaction_block : BlockRecord → Bool
is_transaction_block b = is_some b.timestamp

abbrev pub first_in_sub_slot : BlockRecord → Bool
first_in_sub_slot b = is_some b.finished_challenge_slot_hashes

module _ (c : Constants) where
  unfoldable pub is_challenge_block : BlockRecord → Bool
  is_challenge_block b = b.deficit + 1 == c.min_blocks_per_challenge_block

  unfoldable pub sp_iters : BlockRecord → Result ℕ
  sp_iters b = calculate_sp_iters c b.sub_slot_iters b.signage_point_index

  unfoldable pub ip_iters : BlockRecord → Result ℕ
  ip_iters b = calculate_ip_iters c b.sub_slot_iters b.signage_point_index b.required_iters

  unfoldable pub sp_sub_slot_total_iters : BlockRecord → Result ℕ
  unfolding ip_iters uint_sub
  sp_sub_slot_total_iters b = do
    ip ← ip_iters b
    uint_sub 128 b.total_iters (if b.overflow then ip + b.sub_slot_iters else ip)

  unfoldable pub ip_sub_slot_total_iters : BlockRecord → Result ℕ
  unfolding ip_iters uint_sub
  ip_sub_slot_total_iters b = do ip ← ip_iters b; uint_sub 128 b.total_iters ip

  unfoldable pub sp_total_iters : BlockRecord → Result ℕ
  unfolding sp_sub_slot_total_iters sp_iters uint
  sp_total_iters b = do start ← sp_sub_slot_total_iters b; sp ← sp_iters b; uint 128 (start + sp)

-- The dictionary of block records by header hash, and the hashes of the blocks on the path to the
-- peak by height.
pub record Blockchain : Type 0 where
  pub block_records : ℕ → Option BlockRecord
  pub height_to_hash : ℕ → Option ℕ

abbrev pub contains_block : Blockchain → ℕ → Bool
contains_block bs header_hash = is_some (bs.block_records header_hash)

abbrev pub block_record : Blockchain → ℕ → Result BlockRecord
block_record bs header_hash = or_raise (bs.block_records header_hash) key_error

abbrev pub contains_height : Blockchain → ℕ → Bool
contains_height bs height = is_some (bs.height_to_hash height)

abbrev pub height_to_block_record : Blockchain → ℕ → Result BlockRecord
height_to_block_record bs height = do
  header_hash ← or_raise (bs.height_to_hash height) value_error
  block_record bs header_hash
