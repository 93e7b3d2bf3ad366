-- ===== src/Consensus/SignificantBits.antt =====
-- corpochain/util/significant_bits.py, on the numbers from 0 up that its callers pass. `x & mask`
-- is the native `bit_and`, and `x & (1 << i) > 0` the test of bit `i`.
pub mod Truncate
use Prim.Native.Nat.{bit_and}
use corpochain_beacon_client.Base.{ℕ, zero, suc, ◌+◌, ◌-◌, ◌/◌, ◌%◌, ◌^◌, ltb, ◌==◌, if◌then◌else◌}

bit_length_fuel : ℕ → ℕ → ℕ
bit_length_fuel zero n = 0
bit_length_fuel (suc f) n = let rest = suc (bit_length_fuel f (n / 2)) in if n == 0 then 0 else rest

-- Python's `int.bit_length`
unfoldable pub bit_length : ℕ → ℕ
unfolding bit_length_fuel
bit_length n = bit_length_fuel n n

unfoldable pub truncate_to_significant_bits : ℕ → ℕ → ℕ
unfolding bit_length
truncate_to_significant_bits x num_significant_bits =
    let len = bit_length x in
    let lower = len - num_significant_bits in
    let mask = 2 ^ len - 1 - (2 ^ lower - 1) in
    if ltb len num_significant_bits then x else bit_and x mask

-- The loop of `count_significant_bits`: `k` rounds are left, from bit `i`.
count_from : ℕ → ℕ → ℕ → ℕ → ℕ
count_from zero i len x = 0
count_from (suc k) i len x =
    let rest = count_from k (suc i) len x in if x / 2 ^ i % 2 == 1 then len - i else rest

unfoldable pub count_significant_bits : ℕ → ℕ
unfolding count_from bit_length
count_significant_bits x = count_from (bit_length x) 0 (bit_length x) x
