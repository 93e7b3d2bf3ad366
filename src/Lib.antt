-- ===== src/Lib.antt =====
-- The consensus rules of the corpochain beacon client and components around them: the stores of
-- the beacon, the rate limits of messages, the farmer's side of the plot synchronisation and the
-- state of the timelord. Each part is translated from the Python source into executable definitions.
--
-- Base: tests on numbers, lists and their slices, byte strings, dictionaries (`dict` as the list of its items in insertion order),
-- integers below 0, and `Result`, the outcome of a call that may raise.
-- Ints (corpochain/util/struct_stream.py, ints.py): the sized integers. `uint w n` is the constructor
-- of the unsigned class of w bits, which raises ValueError out of range, and is written out wherever
-- the source converts; there is no wrap-around.
-- Consensus (corpochain/consensus, with corpochain/util/significant_bits.py and
-- prev_transaction_block.py):
--   Constants, Iterations (pot_iterations.py, pos_quality.py), Deficit (deficit.py),
--   SignificantBits, Block (block_record.py, the lookups of blockchain.py), Chain (the loops along
--   prev_hash), Epoch and Difficulty (difficulty_adjustment.py), Header (what is read of a block
--   that is not a record yet), Challenge (get_block_challenge.py), ForkPoint (find_fork_point.py),
--   Rewards (block_rewards.py), Summary (make_sub_epoch_summary.py), VdfInfo
--   (vdf_info_computation.py), Record (full_block_to_block_record.py).
--   The rules call each other as in the source: Summary asks Epoch whether an epoch ends, Difficulty
--   for the new parameters, and these walk the chain through Block's `Blockchain`, a lookup of
--   records by hash and of hashes by height.
-- Types (corpochain/types, corpochain/types/blockchain_format): the fields of blocks and sub-slots,
-- and the check of a proof of space (proof_of_space.py). Record turns a block into the record that
-- the other rules read, with the deficit and the summary that Deficit and Summary compute.
-- Beacon (corpochain/beacon): SyncStore (sync_store.py), Store (beacon_store.py, signage_point.py:
-- Blocks the unfinished blocks, Future the caches of what waits for an infusion, SubSlots,
-- SignagePoints, NewPeak), HeightMap (block_height_map.py, Load its
-- reading of the files and the database), LockQueue (lock_queue.py, a step relation in which clients
-- and the task of the queue interleave).
-- Timelord (corpochain/timelord): iters_from_block.py, and State (timelord_state.py).
-- Util (corpochain/util): LruCache (lru_cache.py).
-- Server (corpochain/server/rate_limits.py, rate_limit_numbers.py): RateLimits.
-- PlotSync (corpochain/plot_sync/receiver.py, delta.py, util.py, exceptions.py): State, Handlers and
-- Receiver. A handler returns the state that it left, also where it raises.
-- Tests runs the code on concrete data.
--
-- Hashes, VDF outputs, addresses, node ids and file paths are only compared and handed on, so each
-- is the number that its bytes spell. `std_hash`, `get_hash`, the verifier of proofs of space and the
-- verification of VDFs are parameters, and so are the rows of the database. Times are seconds
-- handed in by the caller.
--
-- Loops along prev_hash run on fuel, the height of the block where they start plus one (for the fork
-- point the two heights plus one): in a linked store the height falls by one a step. A loop that is
-- cut off returns the error `out_of_fuel`, which no other call returns.
--
-- The loading of the height map needs no fuel of the caller: the height falls by one with each block.
--
-- Not modelled: databases, sockets, processes and the execution client; the validation of headers
-- and bodies, weight proofs, block creation, the processes of the timelord, the address manager, the
-- harvester, the daemon and the commands.
pub mod Base
pub mod Ints
pub mod Consensus
pub mod Beacon
pub mod Server
pub mod PlotSync
pub mod Types
pub mod Timelord
pub mod Util
mod Tests
