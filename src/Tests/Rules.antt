-- ===== src/Tests/Rules.antt =====
-- The arithmetic of the consensus rules on concrete numbers.
use corpochain_beacon_client.Base.{
  ℕ, ◌+◌, ◌-◌, ◌*◌, ◌/◌, ◌%◌, ◌^◌, ◌≤◌, ◌<◌, max, ◌≡◌, refl, Bool, false, none, List, [], ◌∷◌,
  if◌then◌else◌, ok, arith,
}
use corpochain_beacon_client.Consensus.Constants.{default_constants}
use corpochain_beacon_client.Consensus.Iterations.{
  is_overflow_block, calculate_sp_iters, calculate_ip_iters, calculate_iterations_quality,
}
use corpochain_beacon_client.Consensus.Iterations.Points.{calculate_ip_iters-overflow}
use corpochain_beacon_client.Consensus.SignificantBits.{
  bit_length, truncate_to_significant_bits, count_significant_bits,
}
use corpochain_beacon_client.Consensus.SignificantBits.Truncate.{truncate_lem}
use corpochain_beacon_client.Consensus.Difficulty.{clamp_ssi, clamp_difficulty}
use corpochain_beacon_client.Consensus.Difficulty.Bounds.{
  bounded, clamp_difficulty_total, clamp_ssi_range,
}
use corpochain_beacon_client.Consensus.Block.{BlockRecord, sp_total_iters}
use corpochain_beacon_client.Consensus.Block.SignagePoint.{sp_total_iters_lem}

wrapped : calculate_ip_iters default_constants (2 ^ 20) 62 10 ≡ ok 16394
unfolding calculate_ip_iters
wrapped = refl

calculate_ip_iters-overflow_example :
    (sp : ℕ) × (overflow : Bool) × (calculate_sp_iters default_constants (2 ^ 20) 62 ≡ ok sp)
    × (is_overflow_block default_constants 62 ≡ ok overflow)
    × (16394 < 2 ^ 20)
    × (16394 + (if overflow then 2 ^ 20 else 0) ≡ sp + 3 * (2 ^ 20 / 64) + 10)
calculate_ip_iters-overflow_example =
    calculate_ip_iters-overflow default_constants (2 ^ 20) 62 10 (omega arith) wrapped

abbrev hash : List ℕ → List ℕ
hash bytes = 1 ∷ 2 ∷ []

easy : calculate_iterations_quality hash (2 ^ 260) (5 ∷ []) 1 1 (6 ∷ []) ≡ ok 1376
unfolding calculate_iterations_quality
easy = refl

hard : calculate_iterations_quality hash (2 ^ 260) (5 ∷ []) 1 2 (6 ∷ []) ≡ ok 2752
unfolding calculate_iterations_quality
hard = refl

long_enough : 3 ≤ bit_length 1000
unfolding bit_length
long_enough = omega arith

truncate_lem_example :
    truncate_to_significant_bits 1000 3
    ≡ 1000 / 2 ^ (bit_length 1000 - 3) * 2 ^ (bit_length 1000 - 3)
truncate_lem_example = truncate_lem 1000 3 long_enough

trebled : clamp_difficulty default_constants 30 1000 ≡ ok 90
unfolding clamp_difficulty truncate_to_significant_bits count_significant_bits
trebled = refl

clamp_difficulty_total_example : (d : ℕ) × (clamp_difficulty default_constants 30 1000 ≡ ok d)
clamp_difficulty_total_example =
    clamp_difficulty_total default_constants 30 1000 (omega arith) (omega arith) (omega arith)

kept : clamp_ssi default_constants (2 ^ 20) (2 ^ 20 + 5) ≡ ok (2 ^ 20)
unfolding clamp_ssi truncate_to_significant_bits count_significant_bits
kept = refl

clamp_ssi_range_example :
    (2 ^ 20 % 64 ≡ 0)
    × (2 ^ 20 ≤ truncate_to_significant_bits (bounded 3 (2 ^ 19) (2 ^ 20) (2 ^ 20 + 5)) 8)
    × (truncate_to_significant_bits (bounded 3 (2 ^ 19) (2 ^ 20) (2 ^ 20 + 5)) 8 < 2 ^ 20 + 64)
    × (2 ^ 20 ≤ max (2 ^ 19) (3 * 2 ^ 20))
    × (count_significant_bits (2 ^ 20) ≤ 8)
clamp_ssi_range_example = clamp_ssi_range default_constants (2 ^ 20) (2 ^ 20 + 5) kept

abbrev early : BlockRecord
early = record {
  header_hash = 1;
  prev_hash = 0;
  height = 1;
  weight = 30;
  total_iters = 99314;
  signage_point_index = 3;
  challenge_vdf_output = 0;
  infused_challenge_vdf_output = none;
  reward_infusion_new_challenge = 0;
  challenge_block_info_hash = 0;
  sub_slot_iters = 2 ^ 20;
  coinbase = 0;
  required_iters = 10;
  deficit = 15;
  overflow = false;
  prev_transaction_block_height = 0;
  timestamp = none;
  prev_transaction_block_hash = none;
  execution_block_height = none;
  execution_block_hash = none;
  last_withdrawal_index = none;
  execution_timestamp = none;
  finished_challenge_slot_hashes = none;
  finished_infused_challenge_slot_hashes = none;
  finished_reward_slot_hashes = none;
  sub_epoch_summary_included = none;
}

no_overflow : is_overflow_block default_constants 3 ≡ ok false
unfolding is_overflow_block
no_overflow = refl

early_point : sp_total_iters default_constants early ≡ ok 50152
unfolding sp_total_iters calculate_ip_iters
early_point = refl

sp_total_iters_lem_example : 50152 + 3 * (2 ^ 20 / 64) + 10 ≡ 99314
sp_total_iters_lem_example =
    sp_total_iters_lem default_constants early (omega arith) no_overflow early_point
