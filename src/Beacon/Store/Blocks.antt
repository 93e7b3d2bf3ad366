-- ===== src/Beacon/Store/Blocks.antt =====
-- Candidate blocks, and unfinished blocks that were seen.
use corpochain_beacon_client.Base.{
  ℕ, Bool, true, false, Option, none, some, [], ◌∷◌, ltb, if◌then◌else◌, elem,
}
use corpochain_beacon_client.Base.Dict.{Dict, lookup, insert}
use corpochain_beacon_client.Types.Blocks.{UnfinishedBlock, Hashes}
use corpochain_beacon_client.Beacon.Store.{BeaconStore}

abbrev pub add_candidate_block : ℕ → ℕ → UnfinishedBlock → Bool → BeaconStore → BeaconStore
add_candidate_block quality_string height unfinished_block backup s =
    if backup
    then record s {
      candidate_backup_blocks =
          insert quality_string (height, unfinished_block) s.candidate_backup_blocks;
    }
    else record s {
      candidate_blocks = insert quality_string (height, unfinished_block) s.candidate_blocks;
    }

abbrev pub get_candidate_block : ℕ → Bool → BeaconStore → Option (ℕ × UnfinishedBlock)
get_candidate_block quality_string backup s =
    if backup
    then lookup quality_string s.candidate_backup_blocks
    else lookup quality_string s.candidate_blocks

-- The items of a dictionary that are not below a height.
abbrev pub drop_below {ℓ} : {V : Type ℓ} → ℕ → Dict (ℕ × V) → Dict (ℕ × V)
drop_below height [] = []
drop_below height (item ∷ items) =
    if ltb item.1.0 height then drop_below height items else item ∷ drop_below height items

abbrev pub clear_candidate_blocks_below : ℕ → BeaconStore → BeaconStore
clear_candidate_blocks_below height s = record s {
  candidate_blocks = drop_below height s.candidate_blocks;
  candidate_backup_blocks = drop_below height s.candidate_backup_blocks;
}

abbrev pub seen_unfinished_block : ℕ → BeaconStore → Bool × BeaconStore
seen_unfinished_block object_hash s =
    if elem object_hash s.seen_unfinished_blocks
    then (true, s)
    else (false, record s { seen_unfinished_blocks = object_hash ∷ s.seen_unfinished_blocks })

abbrev pub clear_seen_unfinished_blocks : BeaconStore → BeaconStore
clear_seen_unfinished_blocks s = record s { seen_unfinished_blocks = [] }

abbrev pub add_unfinished_block : Hashes → ℕ → UnfinishedBlock → ℕ → BeaconStore → BeaconStore
add_unfinished_block hashes height unfinished_block result s =
    let partial_hash = hashes.reward_chain_block_unfinished unfinished_block.reward_chain_block in
    record s {
      unfinished_blocks =
          insert partial_hash (height, (unfinished_block, result)) s.unfinished_blocks;
    }

abbrev pub get_unfinished_block : ℕ → BeaconStore → Option UnfinishedBlock
get_unfinished_block unfinished_reward_hash s =
    elim (lookup unfinished_reward_hash s.unfinished_blocks) [
      | none ↦ none
      | some result ↦ some result.1.0
    ]

abbrev pub clear_unfinished_blocks_below : ℕ → BeaconStore → BeaconStore
clear_unfinished_blocks_below height s = record s {
  unfinished_blocks = drop_below height s.unfinished_blocks;
}
