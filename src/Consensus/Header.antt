-- ===== src/Consensus/Header.antt =====
-- What the consensus rules read of a block that is not a record yet: `FullBlock`, `UnfinishedBlock`
-- and their header blocks (corpochain/types). `challenge_chain_hash` is the value of
-- `challenge_chain.get_hash()`, and `challenge` that of
-- `challenge_chain.challenge_chain_end_of_slot_vdf.challenge`.
use corpochain_beacon_client.Base.{ℕ, Option, List}

pub record EndOfSubSlot : Type 0 where
  pub challenge_chain_hash : ℕ
  pub challenge : ℕ
  pub new_difficulty : Option ℕ
  pub subepoch_summary_hash : Option ℕ

pub record HeaderBlock : Type 0 where
  pub prev_header_hash : ℕ
  pub total_iters : ℕ
  pub signage_point_index : ℕ
  pub finished_sub_slots : List EndOfSubSlot
