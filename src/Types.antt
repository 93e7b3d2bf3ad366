-- ===== src/Types.antt =====
-- The data of blocks and sub-slots: corpochain/types and corpochain/types/blockchain_format. A
-- hash or a VDF output is the number that its bytes spell; a signature, a key or a proof is a byte
-- string or, where it is only handed on, a number.
pub mod Proofs
pub mod Slots
pub mod Blocks
