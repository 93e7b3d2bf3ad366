-- ===== src/Consensus/Chain.antt =====
-- Walking back along `prev_hash`. The source does so by loops
-- `while test(curr): curr = blocks.block_record(curr.prev_hash)`; `walk_back` is such a loop, on
-- fuel. In a linked store the height falls by one a step, so the height plus one is fuel enough.
pub mod Walk
use corpochain_beacon_client.Base.{
  ℕ, zero, suc, ◌+◌, ◌≡◌, Bool, true, false, some, Result, ok, err, out_of_fuel, ◌>>=◌, ◌>>◌,
}
use corpochain_beacon_client.Consensus.Block.{BlockRecord, Blockchain, block_record}

module _ (bs : Blockchain) (test : BlockRecord → Bool) where
  unfoldable pub walk_back : ℕ → BlockRecord → Result BlockRecord
  walk_back zero b = err out_of_fuel
  walk_back (suc fuel) b = elim (test b) [
    | true ↦ do p ← block_record bs b.prev_hash; walk_back fuel p
    | false ↦ ok b
  ]

  -- The nearest block at which the test fails, going back from `b`.
  pub data Nearest : BlockRecord → BlockRecord → Type 0 where
    here : {b : BlockRecord} → test b ≡ false → Nearest b b
    back :
        {b p r : BlockRecord}
        → test b ≡ true
        → bs.block_records b.prev_hash ≡ some p
        → Nearest p r
        → Nearest b r

-- A store in which each block is one higher than the block before it.
pub record IsLinked (bs : Blockchain) : Type 0 where
  pub step :
      (b p : BlockRecord)
      → bs.block_records b.header_hash ≡ some b
      → bs.block_records b.prev_hash ≡ some p
      → (bs.block_records p.header_hash ≡ some p) × (suc p.height ≡ b.height)
