-- ===== src/Beacon/HeightMap.antt =====
-- The hashes of the main chain by height, and the sub-epoch summaries in it:
-- corpochain/beacon/block_height_map.py. Byte strings are lists of numbers below 256, and a
-- serialized summary is a byte string. `Files` is what the two cache files hold, the summaries as
-- the content of the `SesCache`.
pub mod Load
pub mod Saved
pub mod Flush
pub mod History
pub mod Reads
pub mod Restore
use corpochain_beacon_client.Base.{
  ℕ, zero, suc, ◌+◌, ◌-◌, ◌*◌, ◌/◌, ◌%◌, min, Bool, Option, none, some, List, [], ◌∷◌, ◌++◌, map,
  ltb, leb, ◌==◌, if◌then◌else◌, length, take, drop, Result, ok, err, key_error, assertion_error,
  ◌>>=◌, ◌>>◌, require, or_raise,
}
use corpochain_beacon_client.Base.Dict.{Dict, lookup, insert}
use corpochain_beacon_client.Base.Slices.{slice, set_slice}

pub record BlockHeightMap : Type 0 where
  pub height_to_hash : List ℕ
  pub sub_epoch_summaries : Dict (List ℕ)
  pub counter : ℕ
  pub first_dirty : ℕ

pub record Files : Type 0 where
  pub height_to_hash : Option (List ℕ)
  pub sub_epoch_summaries : Option (Dict (List ℕ))

unfoldable pub set_hash : ℕ → List ℕ → BlockHeightMap → BlockHeightMap
set_hash height block_hash m =
    let idx = height * 32 in
    record m {
      height_to_hash = set_slice idx (idx + 32) block_hash m.height_to_hash;
      counter = m.counter + 1;
      first_dirty = min m.first_dirty height;
    }

unfoldable pub get_hash : ℕ → BlockHeightMap → Result (List ℕ)
get_hash height m =
    let idx = height * 32 in
    do
      require (leb (idx + 32) (length m.height_to_hash)) assertion_error
      ok (slice idx (idx + 32) m.height_to_hash)

abbrev pub contains_height : ℕ → BlockHeightMap → Bool
contains_height height m = ltb (height * 32) (length m.height_to_hash)

abbrev pub set_ses : ℕ → Option (List ℕ) → BlockHeightMap → BlockHeightMap
set_ses height none m = m
set_ses height (some ses) m = record m {
  sub_epoch_summaries = insert height ses m.sub_epoch_summaries;
}

unfoldable pub update_height : ℕ → List ℕ → Option (List ℕ) → BlockHeightMap → Result BlockHeightMap
unfolding set_hash
update_height height header_hash ses m = do
  require (leb (height * 32) (length m.height_to_hash)) assertion_error
  ok (set_ses height ses (set_hash height header_hash m))

-- The summaries up to the fork, which holds the heights below `kept`.
abbrev pub keep_below : ℕ → Dict (List ℕ) → Dict (List ℕ)
keep_below kept [] = []
keep_below kept (item ∷ items) =
    if leb kept item.0 then keep_below kept items else item ∷ keep_below kept items

-- `kept` is `fork_height + 1`: a fork height is at least -1.
unfoldable pub rollback : ℕ → BlockHeightMap → BlockHeightMap
rollback kept m = record m {
  height_to_hash = take (kept * 32) m.height_to_hash;
  sub_epoch_summaries = keep_below kept m.sub_epoch_summaries;
  first_dirty = min m.first_dirty kept;
}

-- A file of `size` bytes or more, the missing ones zeros: seeking past the end leaves a gap.
abbrev pub zeros : ℕ → List ℕ
zeros zero = []
zeros (suc n) = 0 ∷ zeros n

abbrev pub write_at : ℕ → List ℕ → List ℕ → List ℕ
write_at offset bytes file =
    set_slice offset (offset + length bytes) bytes (file ++ zeros (offset - length file))

unfoldable pub maybe_flush : BlockHeightMap → Files → Result (BlockHeightMap × Files)
maybe_flush m files = if ltb m.counter 1000 then ok (m, files) else (do
  require (length m.height_to_hash % 32 == 0) assertion_error
  let offset = m.first_dirty * 32
  ok (
    record m { counter = 0; first_dirty = length m.height_to_hash / 32 },
    record {
      height_to_hash = some (elim files.height_to_hash [
        | none ↦ m.height_to_hash
        | some file ↦ write_at offset (drop offset m.height_to_hash) file
      ]);
      sub_epoch_summaries = some m.sub_epoch_summaries;
    },
  ))

-- `from_bytes` is `SubEpochSummary.from_bytes`.
unfoldable pub get_ses : {S : Type 0} → (List ℕ → Result S) → ℕ → BlockHeightMap → Result S
get_ses from_bytes height m = do
  bytes ← or_raise (lookup height m.sub_epoch_summaries) key_error
  from_bytes bytes

-- `sorted`
abbrev pub insert_sorted : ℕ → List ℕ → List ℕ
insert_sorted x [] = x ∷ []
insert_sorted x (y ∷ ys) = if leb x y then x ∷ y ∷ ys else y ∷ insert_sorted x ys

abbrev pub sorted : List ℕ → List ℕ
sorted [] = []
sorted (x ∷ xs) = insert_sorted x (sorted xs)

unfoldable pub get_ses_heights : BlockHeightMap → List ℕ
get_ses_heights m = sorted (map (λ item. item.0) m.sub_epoch_summaries)
