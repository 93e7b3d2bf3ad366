-- ===== src/Consensus/Summary.antt =====
-- The sub-epoch summary that the next block may include:
-- corpochain/consensus/make_sub_epoch_summary.py. The hash of a summary (`get_hash`) is a parameter.
pub mod Previous
use corpochain_beacon_client.Base.{
  ℕ, zero, suc, ◌+◌, ◌-◌, ◌*◌, ◌/◌, ◌%◌, Bool, true, false, not, ◌&&◌, ◌||◌, Option, none, some,
  List, [], ◌∷◌, ltb, leb, ◌==◌, if◌then◌else◌, is_some, last?, length, Result, ok, err,
  out_of_fuel, index_error, assertion_error, ◌>>=◌, ◌>>◌, require, or_raise,
}
use corpochain_beacon_client.Ints.{uint, uint_sub}
use corpochain_beacon_client.Consensus.Constants.{Constants}
use corpochain_beacon_client.Consensus.Iterations.{
  modulo, divide, is_overflow_block, calculate_sp_iters, calculate_ip_iters,
}
use corpochain_beacon_client.Consensus.Deficit.{calculate_deficit}
use corpochain_beacon_client.Consensus.Block.{
  BlockRecord, Blockchain, block_record, SubEpochSummary,
}
use corpochain_beacon_client.Consensus.Chain.{walk_back}
use corpochain_beacon_client.Consensus.Epoch.{
  height_can_be_first_in_epoch, can_finish_sub_and_full_epoch,
}
use corpochain_beacon_client.Consensus.Difficulty.{
  get_next_difficulty, get_next_sub_slot_iters, get_next_sub_slot_iters_and_difficulty,
}
use corpochain_beacon_client.Consensus.Header.{HeaderBlock, EndOfSubSlot}

abbrev pub lacks_summary : BlockRecord → Bool
lacks_summary b = not (is_some b.sub_epoch_summary_included)

module _ (ses_hash : SubEpochSummary → ℕ) (c : Constants) (bs : Blockchain) where
  -- The summary behind an earlier one, from the block that included that one.
  unfoldable pub summary_after : BlockRecord → Option ℕ → Option ℕ → Result SubEpochSummary
  unfolding uint
  summary_after curr new_difficulty new_sub_slot_iters = do
    slots ← or_raise curr.finished_reward_slot_hashes assertion_error
    previous ← or_raise curr.sub_epoch_summary_included assertion_error
    reward_hash ← or_raise (last? slots) index_error
    offset ← modulo curr.height c.sub_epoch_blocks
    overflow ← uint 8 offset
    ok (record {
      prev_subepoch_summary_hash = ses_hash previous;
      reward_chain_hash = reward_hash;
      num_blocks_overflow = overflow;
      new_difficulty = new_difficulty;
      new_sub_slot_iters = new_sub_slot_iters;
    })

  abbrev pub first_summary : SubEpochSummary
  first_summary = record {
    prev_subepoch_summary_hash = c.genesis_challenge;
    reward_chain_hash = c.genesis_challenge;
    num_blocks_overflow = 0;
    new_difficulty = none;
    new_sub_slot_iters = none;
  }

  unfoldable pub previous_summary : BlockRecord → Option ℕ → Option ℕ → Result SubEpochSummary
  unfolding summary_after
  previous_summary prev_prev_block new_difficulty new_sub_slot_iters = do
    curr ← walk_back bs lacks_summary (suc prev_prev_block.height) prev_prev_block
    summary_after curr new_difficulty new_sub_slot_iters

  unfoldable pub make_sub_epoch_summary :
      ℕ → BlockRecord → Option ℕ → Option ℕ → Result SubEpochSummary
  unfolding previous_summary
  make_sub_epoch_summary blocks_included_height prev_prev_block new_difficulty new_sub_slot_iters =
      do
        require (prev_prev_block.height + 2 == blocks_included_height) assertion_error
        sub_epochs ← divide (blocks_included_height + c.max_sub_slot_blocks) c.sub_epoch_blocks
        if leb sub_epochs 1
            then ok first_summary
            else previous_summary prev_prev_block new_difficulty new_sub_slot_iters

-- A block that included a summary with a new difficulty.
abbrev pub starts_epoch : BlockRecord → Bool
starts_epoch b = elim b.sub_epoch_summary_included [
  | none ↦ false
  | some ses ↦ is_some ses.new_difficulty
]

module _ (c : Constants) (bs : Blockchain) where
  -- The loop under `can_finish_soon` and the test behind it: whether a new epoch began in the
  -- sub-epoch of `curr`.
  unfoldable pub epoch_in_sub_epoch : ℕ → BlockRecord → Result Bool
  epoch_in_sub_epoch zero curr = err out_of_fuel
  epoch_in_sub_epoch (suc fuel) curr = elim (ltb 0 (curr.height % c.sub_epoch_blocks)) [
    | false ↦ ok (starts_epoch curr)
    | true ↦ do
      p ← block_record bs curr.prev_hash
      earlier ← epoch_in_sub_epoch fuel p
      ok (starts_epoch curr || earlier)
  ]

  -- `can_finish_epoch` under `can_finish_soon`
  unfoldable pub can_finish_epoch_soon : BlockRecord → Result Bool
  unfolding epoch_in_sub_epoch uint height_can_be_first_in_epoch
  can_finish_epoch_soon prev_b = do
    next ← uint 32 (prev_b.height + 2)
    aligned ← height_can_be_first_in_epoch c next
    offset ← modulo (prev_b.height + 2) c.sub_epoch_blocks
    let inside = (do begun ← epoch_in_sub_epoch (suc prev_b.height) prev_b; ok (not begun))
    let later = (do
      far ← uint 32 (prev_b.height + c.max_sub_slot_blocks + 2)
      height_can_be_first_in_epoch c far)
    if aligned then (if ltb 1 offset then inside else ok true) else later

  -- `deficit`, `can_finish_se` and `can_finish_epoch`
  unfoldable pub finish_of : Bool → HeaderBlock → BlockRecord → Bool → Result (ℕ × Bool × Bool)
  unfolding can_finish_epoch_soon uint
  finish_of true block prev_b overflow = do
    epoch ← can_finish_epoch_soon prev_b
    ok (0, true, epoch)
  finish_of false block prev_b overflow = do
    height ← uint 32 (prev_b.height + 1)
    deficit ←
        calculate_deficit c height (some prev_b.deficit) overflow (length block.finished_sub_slots)
    (se, epoch) ← can_finish_sub_and_full_epoch c bs height (some prev_b.header_hash) deficit false
    ok (deficit, se, epoch)

  -- The new difficulty and sub-slot iterations where an epoch ends.
  unfoldable pub new_parameters : ℕ → HeaderBlock → BlockRecord → ℕ → Bool → ℕ → Result (ℕ × ℕ)
  unfolding uint uint_sub
  new_parameters required_iters block prev_b sub_slot_iters overflow deficit = do
    sp_iters ← calculate_sp_iters c sub_slot_iters block.signage_point_index
    ip_iters ← calculate_ip_iters c sub_slot_iters block.signage_point_index required_iters
    height ← uint 32 (prev_b.height + 1)
    before ← block_record bs prev_b.prev_hash
    current ← uint_sub 64 prev_b.weight before.weight
    sp_total ←
        uint_sub 128 (block.total_iters + sp_iters)
          (ip_iters + (if overflow then sub_slot_iters else 0))
    difficulty ←
        get_next_difficulty c bs block.prev_header_hash height current deficit false true sp_total
          true
    ssi ←
        get_next_sub_slot_iters c bs block.prev_header_hash height sub_slot_iters deficit false true
          sp_total true
    ok (difficulty, ssi)

-- `block.finished_sub_slots[0]` of a block that has just included a summary
abbrev pub includes_summary : List EndOfSubSlot → Bool
includes_summary [] = false
includes_summary (slot ∷ _) = is_some slot.subepoch_summary_hash

abbrev pub begins_epoch : List EndOfSubSlot → Bool
begins_epoch [] = false
begins_epoch (slot ∷ _) = is_some slot.new_difficulty

module _ (ses_hash : SubEpochSummary → ℕ) (c : Constants) (bs : Blockchain) where
  -- The summary for a block that may end its sub-epoch, and its epoch if `epoch`.
  finished_summary : ℕ → HeaderBlock → BlockRecord → ℕ → Bool → ℕ → Bool → Result SubEpochSummary
  unfolding make_sub_epoch_summary new_parameters uint
  finished_summary required_iters block prev_b sub_slot_iters overflow deficit epoch = do
    (difficulty, ssi) ← elim epoch [
      | true ↦ do
        (d, s) ← new_parameters c bs required_iters block prev_b sub_slot_iters overflow deficit
        ok (some d, some s)
      | false ↦ ok (none, none)
    ]
    included ← uint 32 (prev_b.height + 2)
    make_sub_epoch_summary ses_hash c bs included prev_b difficulty ssi

  next_after : ℕ → HeaderBlock → BlockRecord → Bool → Result (Option SubEpochSummary)
  unfolding finished_summary finish_of
  next_after required_iters block prev_b can_finish_soon = do
    (ssi, _) ←
        get_next_sub_slot_iters_and_difficulty c bs (ltb 0 (length block.finished_sub_slots))
          (some prev_b)
    overflow ← is_overflow_block c block.signage_point_index
    let finish = (do
      (deficit, se, epoch) ← finish_of c bs can_finish_soon block prev_b overflow
      let summary = finished_summary required_iters block prev_b ssi overflow deficit epoch
      if se then (do ses ← summary; ok (some ses)) else ok none)
    if includes_summary block.finished_sub_slots then ok none else finish

  unfoldable pub next_sub_epoch_summary : ℕ → HeaderBlock → Bool → Result (Option SubEpochSummary)
  unfolding next_after
  next_sub_epoch_summary required_iters block can_finish_soon =
      elim (bs.block_records block.prev_header_hash) [
        | none ↦ ok none
        | some prev_b ↦
            if prev_b.height == 0 || begins_epoch block.finished_sub_slots
            then ok none
            else next_after required_iters block prev_b can_finish_soon
      ]
