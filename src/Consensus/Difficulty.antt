-- ===== src/Consensus/Difficulty.antt =====
-- The adjustment of the sub-slot iterations and of the difficulty at the end of an epoch: the second
-- half of corpochain/consensus/difficulty_adjustment.py. Where the code subtracts or divides Python
-- ints with no range check, ℤ is used.
pub mod Bounds
pub mod Next
pub mod Cases
use corpochain_beacon_client.Base.{
  ℕ, zero, suc, ◌+◌, ◌-◌, ◌*◌, ◌/◌, ◌%◌, min, max, Bool, true, false, not, ◌&&◌, ◌||◌, Option, none,
  some, List, [], ◌∷◌, ltb, leb, ◌==◌, if◌then◌else◌, is_some, get_elem?, Result, ok, err,
  out_of_fuel, value_error, index_error, assertion_error, ◌>>=◌, ◌>>◌, require, raise_if, or_raise,
}
use corpochain_beacon_client.Base.Lists.{drop}
use corpochain_beacon_client.Base.Int.{ℤ, sub_ℕ, scale, floor_div}
use corpochain_beacon_client.Ints.{uint, uint_sub, uint_of_ℤ}
use corpochain_beacon_client.Consensus.Constants.{Constants}
use corpochain_beacon_client.Consensus.Iterations.{modulo, divide}
use corpochain_beacon_client.Consensus.SignificantBits.{
  truncate_to_significant_bits, count_significant_bits,
}
use corpochain_beacon_client.Consensus.Block.{
  BlockRecord, Blockchain, block_record, contains_block, contains_height, height_to_block_record,
  is_transaction_block, sp_total_iters,
}
use corpochain_beacon_client.Consensus.Chain.{walk_back}
use corpochain_beacon_client.Consensus.Epoch.{can_finish_sub_and_full_epoch}

module _ (bs : Blockchain) where
  -- `for h in range(h, h + n)`: the blocks of the main chain
  unfoldable pub fetch_by_height : ℕ → ℕ → Result (List BlockRecord)
  unfolding uint
  fetch_by_height zero h = ok []
  fetch_by_height (suc n) h =
      let rest = fetch_by_height n (h + 1) in
      do
        height ← uint 32 h
        require (contains_height bs height) assertion_error
        b ← height_to_block_record bs height
        more ← rest
        ok (b ∷ more)

  -- The slow search of a fork, whose list is returned reversed: so `found` grows at its head.
  unfoldable pub fetch_by_walk :
      ℕ → ℕ → ℕ → BlockRecord → List BlockRecord → Result (List BlockRecord)
  fetch_by_walk zero target max_blocks curr found = err out_of_fuel
  fetch_by_walk (suc fuel) target max_blocks curr found = elim (leb target curr.height) [
    | false ↦ ok found
    | true ↦
        let found' = if ltb curr.height (target + max_blocks) then curr ∷ found else found in
        elim (curr.height == 0) [
          | true ↦ ok found'
          | false ↦ do
            p ← block_record bs curr.prev_hash
            fetch_by_walk fuel target max_blocks p found'
        ]
  ]

  -- Whether `prev_b` is the block of the main chain at its height.
  on_main_chain : BlockRecord → Bool
  on_main_chain prev_b = elim (bs.height_to_hash prev_b.height) [
    | none ↦ false
    | some header_hash ↦ header_hash == prev_b.header_hash
  ]

  unfoldable pub get_blocks_at_height : BlockRecord → ℕ → ℕ → Result (List BlockRecord)
  unfolding fetch_by_height fetch_by_walk on_main_chain
  get_blocks_at_height prev_b target_height max_num_blocks =
      if on_main_chain prev_b
      then fetch_by_height max_num_blocks target_height
      else fetch_by_walk (suc prev_b.height) target_height max_num_blocks prev_b []

-- `while next_b.sub_epoch_summary_included is None`, with the blocks from `fetched_index` on.
unfoldable pub last_before_summary :
    BlockRecord → BlockRecord → List BlockRecord → Result BlockRecord
last_before_summary curr next [] =
    if is_some next.sub_epoch_summary_included then ok curr else err index_error
last_before_summary curr next (b ∷ rest) =
    let more = last_before_summary next b rest in
    if is_some next.sub_epoch_summary_included then ok curr else more

module _ (bs : Blockchain) where
  -- `while found_tx_block < 2`
  unfoldable pub backtrack_to_second : ℕ → ℕ → BlockRecord → Result BlockRecord
  backtrack_to_second zero found curr = err out_of_fuel
  backtrack_to_second (suc fuel) found curr = elim (ltb found 2) [
    | false ↦ ok curr
    | true ↦ do
      p ← block_record bs curr.prev_hash
      backtrack_to_second fuel (if is_transaction_block p then found + 1 else found) p
  ]

module _ (c : Constants) (bs : Blockchain) where
  -- The search among the fetched blocks for the second to last transaction block.
  unfoldable pub find_in_fetched : ℕ → List BlockRecord → Result BlockRecord
  unfolding last_before_summary backtrack_to_second
  find_in_fetched surpass fetched = do
    curr ← or_raise (get_elem? fetched c.max_sub_slot_blocks) index_error
    require (curr.height + 1 == surpass) assertion_error
    next ← or_raise (get_elem? fetched (c.max_sub_slot_blocks + 1)) index_error
    require (next.height == surpass) assertion_error
    last ← last_before_summary curr next (drop (c.max_sub_slot_blocks + 1) fetched)
    backtrack_to_second bs (suc last.height) (if is_transaction_block last then 1 else 0) last

  unfoldable pub second_to_last_transaction_block : BlockRecord → Result BlockRecord
  unfolding get_blocks_at_height find_in_fetched uint uint_sub
  second_to_last_transaction_block last_b = do
    let ahead = last_b.height + 2 * c.max_sub_slot_blocks + c.min_blocks_per_challenge_block + 5
    offset ← modulo ahead c.epoch_blocks
    surpass ← uint 32 (ahead - offset)
    prev_surpass ← uint_sub 32 surpass c.epoch_blocks
    require (prev_surpass % c.epoch_blocks == 0) assertion_error
    require (ltb (ahead - surpass) (5 * c.max_sub_slot_blocks)) assertion_error
    if prev_surpass == 0
        then (do
          fetched ← get_blocks_at_height bs last_b 0 1
          or_raise (get_elem? fetched 0) index_error)
        else (do
          target ← uint_sub 32 prev_surpass (c.max_sub_slot_blocks + 1)
          count ← uint 32 (3 * c.max_sub_slot_blocks + c.min_blocks_per_challenge_block + 3)
          fetched ← get_blocks_at_height bs last_b target count
          find_in_fetched prev_surpass fetched)

  -- `while last_block_curr.total_iters > signage_point_total_iters or not is_transaction_block`
  unfoldable pub last_transaction_block_before : ℕ → BlockRecord → Result BlockRecord
  last_transaction_block_before sp_total prev_b =
      walk_back bs (λ b. ltb sp_total b.total_iters || not (is_transaction_block b))
        (suc prev_b.height) prev_b

  -- Whether the parameters stay as they are: no new epoch begins after the block.
  unfoldable pub same_epoch : ℕ → ℕ → ℕ → Bool → Bool → Bool → Result Bool
  same_epoch prev_header_hash height deficit included_ses new_slot true = ok false
  same_epoch prev_header_hash height deficit included_ses new_slot false = do
    finish ← can_finish_sub_and_full_epoch c bs height (some prev_header_hash) deficit included_ses
    ok (not new_slot || not (finish.1))

-- The new number of iterations, from the last transaction blocks of this epoch and of the one before.
module _ (c : Constants) where
  -- The change by at most the factor, and the cut to the significant bits.
  unfoldable pub clamp_ssi : ℕ → ℕ → Result ℕ
  unfolding uint
  clamp_ssi old precise = do
    max_ssi ← uint 64 (c.difficulty_change_max_factor * old)
    quotient ← divide old c.difficulty_change_max_factor
    min_ssi ← uint 64 quotient
    clamped ← uint 64 (
        if leb old precise
        then min precise max_ssi
        else max c.sub_slot_iters_hard_min (max precise min_ssi))
    let truncated = truncate_to_significant_bits clamped c.significant_bits
    offset ← modulo truncated c.num_sps_sub_slot
    new_ssi ← uint 64 (truncated - offset)
    require (leb (count_significant_bits new_ssi) c.significant_bits) assertion_error
    ok new_ssi

  unfoldable pub adjust_ssi : BlockRecord → BlockRecord → Result ℕ
  unfolding clamp_ssi uint_of_ℤ
  adjust_ssi last_prev last_curr = do
    time_curr ← or_raise last_curr.timestamp assertion_error
    time_prev ← or_raise last_prev.timestamp assertion_error
    quotient ←
        floor_div (scale c.sub_slot_time_target (sub_ℕ last_curr.total_iters last_prev.total_iters))
          (sub_ℕ time_curr time_prev)
    precise ← uint_of_ℤ 64 quotient
    clamp_ssi last_curr.sub_slot_iters precise

  unfoldable pub clamp_difficulty : ℕ → ℕ → Result ℕ
  unfolding uint
  clamp_difficulty old precise = do
    max_diff ← uint 64 (c.difficulty_change_max_factor * old)
    quotient ← divide old c.difficulty_change_max_factor
    min_diff ← uint 64 quotient
    clamped ←
        uint 64 (if leb old precise then min precise max_diff else max 1 (max precise min_diff))
    let new_difficulty = truncate_to_significant_bits clamped c.significant_bits
    require (leb (count_significant_bits new_difficulty) c.significant_bits) assertion_error
    uint 64 new_difficulty

  -- `actual_epoch_time`
  unfoldable pub epoch_time : BlockRecord → BlockRecord → Result ℕ
  unfolding uint_sub
  epoch_time last_prev last_curr = do
    time_curr ← or_raise last_curr.timestamp assertion_error
    time_prev ← or_raise last_prev.timestamp assertion_error
    uint_sub 64 time_curr time_prev

  unfoldable pub adjust_difficulty : BlockRecord → BlockRecord → ℕ → ℕ → Result ℕ
  unfolding clamp_difficulty uint_of_ℤ
  adjust_difficulty last_prev last_curr actual_epoch_time old_difficulty = do
    quotient ←
        floor_div (scale c.sub_slot_time_target (sub_ℕ last_curr.weight last_prev.weight))
          (sub_ℕ (c.slot_blocks_target * actual_epoch_time) 0)
    precise ← uint_of_ℤ 64 quotient
    clamp_difficulty old_difficulty precise

module _ (c : Constants) (bs : Blockchain) where
  -- The lines behind the check for a new epoch.
  unfoldable pub new_epoch_ssi : ℕ → BlockRecord → Result ℕ
  unfolding second_to_last_transaction_block last_transaction_block_before adjust_ssi
  new_epoch_ssi sp_total prev_b = do
    last_prev ← second_to_last_transaction_block c bs prev_b
    last_curr ← last_transaction_block_before c bs sp_total prev_b
    adjust_ssi c last_prev last_curr

  unfoldable pub new_epoch_difficulty : ℕ → BlockRecord → Result ℕ
  unfolding second_to_last_transaction_block last_transaction_block_before adjust_difficulty
      epoch_time uint_sub
  new_epoch_difficulty sp_total prev_b = do
    last_prev ← second_to_last_transaction_block c bs prev_b
    last_curr ← last_transaction_block_before c bs sp_total prev_b
    actual_epoch_time ← epoch_time c last_prev last_curr
    before ← block_record bs prev_b.prev_hash
    old_difficulty ← uint_sub 64 prev_b.weight before.weight
    adjust_difficulty c last_prev last_curr actual_epoch_time old_difficulty

  -- Past the first epoch: the value as it is, or the new one.
  unfoldable pub past_first_epoch :
      ℕ → ℕ → ℕ → Bool → Bool → Bool → ℕ → (BlockRecord → Result ℕ) → Result ℕ
  unfolding same_epoch
  past_first_epoch prev_header_hash height deficit included_ses new_slot skip current adjust = do
    require (contains_block bs prev_header_hash) value_error
    prev_b ← block_record bs prev_header_hash
    same ← same_epoch c bs prev_header_hash height deficit included_ses new_slot skip
    if same then ok current else adjust prev_b

  unfoldable pub get_next_sub_slot_iters : ℕ → ℕ → ℕ → ℕ → Bool → Bool → ℕ → Bool → Result ℕ
  unfolding past_first_epoch new_epoch_ssi uint
  get_next_sub_slot_iters prev_header_hash height curr_sub_slot_iters deficit included_ses new_slot
        sp_total skip =
      do
        next_height ← uint 32 (height + 1)
        if ltb next_height c.epoch_blocks
            then uint 64 c.sub_slot_iters_starting
            else past_first_epoch prev_header_hash height deficit included_ses new_slot skip
                curr_sub_slot_iters (new_epoch_ssi sp_total)

  unfoldable pub get_next_difficulty : ℕ → ℕ → ℕ → ℕ → Bool → Bool → ℕ → Bool → Result ℕ
  unfolding past_first_epoch new_epoch_difficulty uint
  get_next_difficulty prev_header_hash height current_difficulty deficit included_ses new_slot
        sp_total skip =
      do
        next_height ← uint 32 (height + 1)
        if ltb (next_height + 3 * c.max_sub_slot_blocks) c.epoch_blocks
            then uint 64 c.difficulty_starting
            else past_first_epoch prev_header_hash height deficit included_ses new_slot skip
                current_difficulty (new_epoch_difficulty sp_total)

  -- `prev_difficulty`: the weight that the block added
  unfoldable pub difficulty_of : BlockRecord → Result ℕ
  unfolding uint uint_sub
  difficulty_of b =
      if b.height == 0
      then uint 64 b.weight
      else (do before ← block_record bs b.prev_hash; uint_sub 64 b.weight before.weight)

  unfoldable pub next_from_block : Bool → BlockRecord → Result (ℕ × ℕ)
  unfolding get_next_sub_slot_iters get_next_difficulty difficulty_of
  next_from_block is_first_in_sub_slot prev_b = do
    prev_difficulty ← difficulty_of prev_b
    if is_some prev_b.sub_epoch_summary_included
        then ok (prev_b.sub_slot_iters, prev_difficulty)
        else (do
          sp_total ← sp_total_iters c prev_b
          difficulty ←
              get_next_difficulty prev_b.prev_hash prev_b.height prev_difficulty prev_b.deficit
                false is_first_in_sub_slot sp_total false
          sub_slot_iters ←
              get_next_sub_slot_iters prev_b.prev_hash prev_b.height prev_b.sub_slot_iters
                prev_b.deficit false is_first_in_sub_slot sp_total false
          ok (sub_slot_iters, difficulty))

  unfoldable pub get_next_sub_slot_iters_and_difficulty : Bool → Option BlockRecord → Result (ℕ × ℕ)
  unfolding next_from_block
  get_next_sub_slot_iters_and_difficulty is_first none =
      ok (c.sub_slot_iters_starting, c.difficulty_starting)
  get_next_sub_slot_iters_and_difficulty is_first (some prev_b) = next_from_block is_first prev_b
