-- ===== src/Consensus/Epoch.antt =====
-- Which block may end a sub-epoch and an epoch: the first half of
-- corpochain/consensus/difficulty_adjustment.py.
pub mod Finish
pub mod InTime
use corpochain_beacon_client.Base.{
  ℕ, zero, suc, ◌+◌, ◌-◌, ◌%◌, Bool, true, false, not, Option, none, some, ltb, ◌==◌, if◌then◌else◌,
  is_some, Result, ok, err, out_of_fuel, assertion_error, ◌>>=◌, ◌>>◌, or_raise,
}
use corpochain_beacon_client.Ints.{uint}
use corpochain_beacon_client.Consensus.Constants.{Constants}
use corpochain_beacon_client.Consensus.Iterations.{modulo}
use corpochain_beacon_client.Consensus.Block.{BlockRecord, Blockchain, block_record}

module _ (c : Constants) where
  unfoldable pub height_can_be_first_in_epoch : ℕ → Result Bool
  height_can_be_first_in_epoch height = do
    offset ← modulo height c.sub_epoch_blocks
    remainder ← modulo (height - offset) c.epoch_blocks
    ok (remainder == 0)

  module _ (bs : Blockchain) where
    -- The loop of `can_finish_sub_and_full_epoch` and the test behind it: whether a block from
    -- `curr` back to the start of its sub-epoch included a summary. The caller has reduced modulo
    -- SUB_EPOCH_BLOCKS before, so that it is not 0.
    unfoldable pub summary_in_sub_epoch : ℕ → BlockRecord → Result Bool
    summary_in_sub_epoch zero curr = err out_of_fuel
    summary_in_sub_epoch (suc fuel) curr = elim (ltb 0 (curr.height % c.sub_epoch_blocks)) [
      | true ↦ elim (is_some curr.sub_epoch_summary_included) [
        | true ↦ ok true
        | false ↦ do p ← block_record bs curr.prev_hash; summary_in_sub_epoch fuel p
      ]
      | false ↦ ok (is_some curr.sub_epoch_summary_included)
    ]

    -- Whether a summary stands between the start of the sub-epoch and the block before `height`.
    unfoldable pub summary_before : ℕ → ℕ → Result Bool
    unfolding summary_in_sub_epoch
    summary_before height prev_header_hash = do
      offset ← modulo (height + 1) c.sub_epoch_blocks
      if ltb 1 offset
          then (do
            curr ← block_record bs prev_header_hash
            summary_in_sub_epoch (suc curr.height) curr)
          else ok false

    -- The last lines: no summary yet, and the next height checked.
    unfoldable pub finish_epoch : ℕ → Bool → Result (Bool × Bool)
    unfolding height_can_be_first_in_epoch uint
    finish_epoch height true = ok (false, false)
    finish_epoch height false = do
      next ← uint 32 (height + 1)
      first ← height_can_be_first_in_epoch next
      ok (true, first)

    unfoldable pub can_finish_sub_and_full_epoch : ℕ → Option ℕ → ℕ → Bool → Result (Bool × Bool)
    unfolding summary_before finish_epoch
    can_finish_sub_and_full_epoch height prev_header_hash deficit block_at_height_included_ses =
        let search =
          λ (prev : ℕ). (do included ← summary_before height prev; finish_epoch height included) in
        let guarded = λ (prev : ℕ).
          if ltb 0 deficit
          then ok (false, false)
          else if block_at_height_included_ses
          then ok (false, false)
          else search prev in
        if ltb (height + 1) c.sub_epoch_blocks
        then ok (false, false)
        else or_raise prev_header_hash assertion_error >>= guarded
