-- ===== src/Consensus/Iterations.antt =====
-- Proof-of-time iterations of signage and infusion points: corpochain/consensus/pot_iterations.py
-- and pos_quality.py. `std_hash` is a parameter; byte strings are lists of numbers below 256.
pub mod Points
pub mod Quality
pub mod Division
use corpochain_beacon_client.Base.{
  ℕ, zero, suc, ◌+◌, ◌-◌, ◌*◌, ◌/◌, ◌%◌, ◌^◌, max, Bool, List, ◌++◌, ◌||◌, not, ltb, leb, ◌==◌,
  Result, ok, err, value_error, assertion_error, zero_division_error, ◌>>=◌, ◌>>◌, require,
  raise_if,
}
use corpochain_beacon_client.Ints.{uint, of_digits}
use corpochain_beacon_client.Consensus.Constants.{Constants}

-- `a % b` and `a // b`
abbrev pub modulo : ℕ → ℕ → Result ℕ
modulo a b = do raise_if (b == 0) zero_division_error; ok (a % b)

abbrev pub divide : ℕ → ℕ → Result ℕ
divide a b = do raise_if (b == 0) zero_division_error; ok (a / b)

module _ (c : Constants) where
  unfoldable pub is_overflow_block : ℕ → Result Bool
  is_overflow_block signage_point_index = do
    raise_if (leb c.num_sps_sub_slot signage_point_index) value_error
    ok (leb (c.num_sps_sub_slot - c.num_sp_intervals_extra) signage_point_index)

  unfoldable pub calculate_sp_interval_iters : ℕ → Result ℕ
  unfolding uint
  calculate_sp_interval_iters sub_slot_iters = do
    remainder ← modulo sub_slot_iters c.num_sps_sub_slot
    require (remainder == 0) assertion_error
    uint 64 (sub_slot_iters / c.num_sps_sub_slot)

  unfoldable pub calculate_sp_iters : ℕ → ℕ → Result ℕ
  unfolding calculate_sp_interval_iters
  calculate_sp_iters sub_slot_iters signage_point_index = do
    raise_if (leb c.num_sps_sub_slot signage_point_index) value_error
    interval ← calculate_sp_interval_iters sub_slot_iters
    uint 64 (interval * signage_point_index)

  unfoldable pub calculate_ip_iters : ℕ → ℕ → ℕ → Result ℕ
  unfolding calculate_sp_iters calculate_sp_interval_iters
  calculate_ip_iters sub_slot_iters signage_point_index required_iters = do
    sp_iters ← calculate_sp_iters sub_slot_iters signage_point_index
    interval ← calculate_sp_interval_iters sub_slot_iters
    remainder ← modulo sp_iters interval
    raise_if (not (remainder == 0) || leb sub_slot_iters sp_iters) value_error
    raise_if (leb interval required_iters || required_iters == 0) value_error
    ip_iters ←
        modulo (sp_iters + c.num_sp_intervals_extra * interval + required_iters) sub_slot_iters
    uint 64 ip_iters

-- `((2 * k) + 1) * (2 ** (k - 1))`; for `k = 0` Python computes 0.5, which `uint64` cuts to 0.
unfoldable pub expected_plot_size : ℕ → Result ℕ
unfolding uint
expected_plot_size zero = uint 64 0
expected_plot_size (suc k) = uint 64 ((2 * suc k + 1) * 2 ^ k)

module _ (std_hash : List ℕ → List ℕ) where
  unfoldable pub calculate_iterations_quality : ℕ → List ℕ → ℕ → ℕ → List ℕ → Result ℕ
  unfolding expected_plot_size of_digits uint
  calculate_iterations_quality difficulty_constant_factor quality_string size difficulty
        cc_sp_output_hash =
      do
        let sp_quality_string = std_hash (quality_string ++ cc_sp_output_hash)
        plot_size ← expected_plot_size size
        quotient ←
            divide (difficulty * difficulty_constant_factor * of_digits 0 sp_quality_string)
              (2 ^ 256 * plot_size)
        iters ← uint 64 quotient
        ok (max iters 1)
