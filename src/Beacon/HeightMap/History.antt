-- ===== src/Beacon/HeightMap/History.antt =====
-- Any sequence of calls of a height map, and the file after a write.
use mathlib.Core.Path.{subst}
use corpochain_beacon_client.Base.{
  ℕ, ◌≤◌, ◌≡◌, Option, some, List, [], ◌∷◌, length, take, All, Result, ok, ◌>>=◌, >>=-eq-ok,
  ok-injective,
}
use corpochain_beacon_client.Beacon.HeightMap.{
  BlockHeightMap, Files, update_height, rollback, maybe_flush,
}
use corpochain_beacon_client.Beacon.HeightMap.Saved.{
  IsSaved, update_height-IsSaved, rollback-IsSaved,
}
use corpochain_beacon_client.Beacon.HeightMap.Flush.{maybe_flush-writes, maybe_flush-IsSaved}

pub data Call : Type 0 where
  updates : ℕ → List ℕ → Option (List ℕ) → Call
  rolls_back : ℕ → Call
  flushes : Call

unfoldable pub call : Call → BlockHeightMap × Files → Result (BlockHeightMap × Files)
unfolding update_height rollback maybe_flush
call (updates height header_hash ses) (m, files) = do
  m' ← update_height height header_hash ses m
  ok (m', files)
call (rolls_back kept) (m, files) = ok (rollback kept m, files)
call flushes (m, files) = maybe_flush m files

unfoldable pub run : List Call → BlockHeightMap × Files → Result (BlockHeightMap × Files)
unfolding call
run [] s = ok s
run (c ∷ calls) s = do s' ← call c s; run calls s'

-- A header hash has 32 bytes.
abbrev pub IsSized : Call → Type 0
IsSized (updates height header_hash ses) = length header_hash ≡ 32
IsSized (rolls_back kept) = Unit
IsSized flushes = Unit

call-IsSaved :
    (c : Call) (m m' : BlockHeightMap) (files files' : Files)
    → IsSized c
    → IsSaved m files
    → call c (m, files) ≡ ok (m', files')
    → IsSaved m' files'
unfolding call
call-IsSaved (updates height header_hash ses) m m' files files' size v h =
    let (n, e, same) = >>=-eq-ok (update_height height header_hash ses m) _ h in
    subst (λ s. IsSaved s.0 s.1) (ok-injective same)
      (update_height-IsSaved height header_hash ses m n files size v e)
call-IsSaved (rolls_back kept) m m' files files' size v h =
    subst (λ s. IsSaved s.0 s.1) (ok-injective h) (rollback-IsSaved kept m files v)
call-IsSaved flushes m m' files files' size v h = maybe_flush-IsSaved m m' files files' v h

run-IsSaved :
    (calls : List Call) (m m' : BlockHeightMap) (files files' : Files)
    → All IsSized calls
    → IsSaved m files
    → run calls (m, files) ≡ ok (m', files')
    → IsSaved m' files'
unfolding run
run-IsSaved [] m m' files files' sizes v h = subst (λ s. IsSaved s.0 s.1) (ok-injective h) v
run-IsSaved (c ∷ calls) m m' files files' (size, sizes) v h =
    let ((n, kept), e, rest) = >>=-eq-ok (call c (m, files)) (run calls) h in
    run-IsSaved calls n m' kept files' sizes (call-IsSaved c m n files kept size v e) rest

-- After any updates, rollbacks and flushes, starting where the file agrees with the map below its
-- first dirty height, a flush that writes (a counter of 1000 or more) returns; it leaves a file whose
-- first bytes, as many as the map has, are the map's hashes, and it leaves the map's summaries in
-- the other file. The hashes added have 32 bytes each.
pub run-maybe_flush-writes :
    (calls : List Call) (start m : BlockHeightMap) (files files' : Files)
    → All IsSized calls
    → IsSaved start files
    → run calls (start, files) ≡ ok (m, files')
    → 1000 ≤ m.counter
    → (saved : BlockHeightMap × Files) × (maybe_flush m files' ≡ ok saved)
      × ((file : List ℕ) × (saved.1.height_to_hash ≡ some file)
          × (take (length m.height_to_hash) file ≡ m.height_to_hash))
      × (saved.1.sub_epoch_summaries ≡ some m.sub_epoch_summaries)
      × (saved.0.height_to_hash ≡ m.height_to_hash)
run-maybe_flush-writes calls start m files files' sizes v h due =
    maybe_flush-writes m files' (run-IsSaved calls start m files files' sizes v h) due
