-- ===== src/Consensus.antt =====
-- The consensus rules that are computed from block records: corpochain/consensus.
pub mod Constants
pub mod Iterations
pub mod Deficit
pub mod SignificantBits
pub mod Block
pub mod Chain
pub mod Epoch
pub mod Difficulty
pub mod VdfInfo
pub mod Record
pub mod Header
pub mod Challenge
pub mod ForkPoint
pub mod Rewards
pub mod Summary
