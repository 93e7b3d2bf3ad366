-- ===== src/Consensus/Epoch/InTime.antt =====
-- The search back to the start of a sub-epoch ends.
use corpochain_beacon_client.Base.{
  ℕ, zero, suc, ◌%◌, ◌<◌, ◌≡◌, ◌≢◌, some, ltb, err, out_of_fuel, Bool-cases, Option-cases, inl, inr,
  arith,
}
use corpochain_beacon_client.Consensus.Constants.{Constants}
use corpochain_beacon_client.Consensus.Block.{BlockRecord, Blockchain}
use corpochain_beacon_client.Consensus.Chain.{IsLinked}
use corpochain_beacon_client.Consensus.Epoch.{summary_in_sub_epoch}
use corpochain_beacon_client.Consensus.Epoch.Finish.{
  included, stop_here, found_here, missing_here, go_back,
}

module _ (c : Constants) (bs : Blockchain) where
  -- In a linked store that has the block, the search for a summary back to the start of its sub-epoch
  -- does not run out of fuel, if it is given more fuel than the height of the block.
  pub summary_in_sub_epoch-in_time :
      (fuel : ℕ) (b : BlockRecord)
      → IsLinked bs
      → bs.block_records b.header_hash ≡ some b
      → b.height < fuel
      → summary_in_sub_epoch c bs fuel b ≢ err out_of_fuel
  summary_in_sub_epoch-in_time zero b l k h = elim h [ ]
  summary_in_sub_epoch-in_time (suc fuel) b l k h =
      elim (Bool-cases (ltb 0 (b.height % c.sub_epoch_blocks))) [
        | inr start ↦ rw (stop_here c bs fuel b start) (λ e. cc)
        | inl inside ↦ elim (Bool-cases (included c bs b)) [
          | inl found ↦ rw (found_here c bs fuel b inside found) (λ e. cc)
          | inr absent ↦ elim (Option-cases (bs.block_records b.prev_hash)) [
            | inl missing ↦ rw (missing_here c bs fuel b inside absent missing) (λ e. cc)
            | inr (p, e) ↦
                let (k', n) = l.step b p k e in
                rw (go_back c bs fuel b p inside absent e)
                  (summary_in_sub_epoch-in_time fuel p l k' (omega (arith, n, h)))
          ]
        ]
      ]
