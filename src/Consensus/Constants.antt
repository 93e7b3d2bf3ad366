-- ===== src/Consensus/Constants.antt =====
-- `ConsensusConstants` of corpochain/consensus/constants.py, and the defaults of
-- default_constants.py. Hashes and addresses are the numbers that their bytes spell.
use corpochain_beacon_client.Base.{ℕ, ◌+◌, ◌*◌, ◌^◌}

pub record Constants : Type 0 where
  pub slot_blocks_target : ℕ
  pub min_blocks_per_challenge_block : ℕ
  pub max_sub_slot_blocks : ℕ
  pub num_sps_sub_slot : ℕ
  pub sub_slot_iters_starting : ℕ
  pub sub_slot_iters_hard_min : ℕ
  pub difficulty_constant_factor : ℕ
  pub difficulty_starting : ℕ
  pub difficulty_change_max_factor : ℕ
  pub sub_epoch_blocks : ℕ
  pub epoch_blocks : ℕ
  pub significant_bits : ℕ
  pub discriminant_size_bits : ℕ
  pub number_zero_bits_plot_filter : ℕ
  pub min_plot_size : ℕ
  pub max_plot_size : ℕ
  pub sub_slot_time_target : ℕ
  pub num_sp_intervals_extra : ℕ
  pub max_future_time : ℕ
  pub number_of_timestamps : ℕ
  pub genesis_challenge : ℕ
  pub max_vdf_witness_size : ℕ
  pub weight_proof_threshold : ℕ
  pub weight_proof_recent_blocks : ℕ
  pub max_block_count_per_requests : ℕ
  pub blocks_cache_size : ℕ
  pub genesis_execution_block_hash : ℕ
  pub prefarm_address : ℕ
  pub prefarm_amount : ℕ

abbrev pub default_constants : Constants
default_constants = record {
  slot_blocks_target = 32;
  min_blocks_per_challenge_block = 16;
  max_sub_slot_blocks = 128;
  num_sps_sub_slot = 64;
  sub_slot_iters_starting = 2 ^ 20;
  sub_slot_iters_hard_min = 2 ^ 19;
  difficulty_constant_factor = 2 ^ 51;
  difficulty_starting = 30;
  difficulty_change_max_factor = 3;
  sub_epoch_blocks = 384;
  epoch_blocks = 4608;
  significant_bits = 8;
  discriminant_size_bits = 1024;
  number_zero_bits_plot_filter = 9;
  min_plot_size = 32;
  max_plot_size = 50;
  sub_slot_time_target = 300;
  num_sp_intervals_extra = 3;
  max_future_time = 15;
  number_of_timestamps = 11;
  genesis_challenge = 0xe3b0c44298fc1c149afbf4c8996fb92427ae41e4649b934ca495991b7852b855;
  max_vdf_witness_size = 64;
  weight_proof_threshold = 2;
  weight_proof_recent_blocks = 1000;
  max_block_count_per_requests = 32;
  blocks_cache_size = 4608 + 128 * 4;
  genesis_execution_block_hash = 0;
  prefarm_address = 0;
  prefarm_amount = 0;
}
