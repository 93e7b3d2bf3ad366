-- ===== src/Beacon.antt =====
-- Stores of the beacon client: corpochain/beacon.
pub mod HeightMap
pub mod LockQueue
pub mod Store
pub mod SyncStore
