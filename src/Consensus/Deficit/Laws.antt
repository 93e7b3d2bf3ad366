-- ===== src/Consensus/Deficit/Laws.antt =====
-- The deficit counts down from a challenge block.
use corpochain_beacon_client.Base.{
  ℕ, ◌+◌, ◌-◌, ◌^◌, ◌≤◌, ◌<◌, ◌≡◌, Bool, ◌&&◌, Option, some, List, [], ◌∷◌, length, ◌==◌,
  if◌then◌else◌, Result, ok, ◌>>=◌, arith,
}
use corpochain_beacon_client.Consensus.Constants.{Constants}
use corpochain_beacon_client.Consensus.Deficit.{calculate_deficit}

module _ (c : Constants) where
  -- The deficit of a block after another, on every branch, for a challenge distance m that is positive
  -- and below 256 and a previous deficit of at most m: an overflow block keeps a full deficit until a
  -- sub-slot ends; a deficit of 0 is kept until one ends, and is then full again, less the block itself
  -- unless it is an overflow block in the first new sub-slot; any other deficit falls by one.
  pub calculate_deficit_cases :
      (height d : ℕ) (overflow : Bool) (n : ℕ)
      → 0 < height
      → 0 < c.min_blocks_per_challenge_block
      → c.min_blocks_per_challenge_block < 2 ^ 8
      → d ≤ c.min_blocks_per_challenge_block
      → let m = c.min_blocks_per_challenge_block in
        calculate_deficit c height (some d) overflow n
        ≡ ok (
            if d == m && overflow && n == 0
            then m
            else if d == 0 && n == 0
            then 0
            else if d == 0 && overflow && n == 1
            then m
            else if d == 0
            then m - 1
            else d - 1)
  unfolding calculate_deficit
  calculate_deficit_cases height d overflow n h m b l = ground arith

  pub calculate_deficit_first :
      (prev : Option ℕ) (overflow : Bool) (n : ℕ)
      → 0 < c.min_blocks_per_challenge_block
      → c.min_blocks_per_challenge_block < 2 ^ 8
      → calculate_deficit c 0 prev overflow n ≡ ok (c.min_blocks_per_challenge_block - 1)
  unfolding calculate_deficit
  calculate_deficit_first prev overflow n m b = ground arith

  -- The deficit after blocks in a row, each with its overflow flag and its finished sub-slots.
  abbrev pub deficit_after : ℕ → ℕ → List (Bool × ℕ) → Result ℕ
  deficit_after height d [] = ok d
  deficit_after height d ((overflow, n) ∷ rest) =
      calculate_deficit c height (some d) overflow n >>= λ d'. deficit_after (height + 1) d' rest

  -- From a deficit d below the challenge distance, d blocks or fewer count it down by one each, whatever
  -- their overflow flags and finished sub-slots; so no challenge block follows another before the
  -- deficit has come down to 0.
  pub deficit_after-countdown :
      (height d : ℕ) (blocks : List (Bool × ℕ))
      → 0 < height
      → c.min_blocks_per_challenge_block < 2 ^ 8
      → d < c.min_blocks_per_challenge_block
      → length blocks ≤ d
      → deficit_after height d blocks ≡ ok (d - length blocks)
  deficit_after-countdown height d [] h b l k = ground arith
  deficit_after-countdown height d ((overflow, n) ∷ rest) h b l k = ground (
    arith,
    calculate_deficit_cases height d overflow n,
    deficit_after-countdown (height + 1) (d - 1) rest (omega arith) b (omega arith) (omega arith),
  )
