-- ===== src/Tests/Heights.antt =====
-- The height map on a chain of two blocks.
use corpochain_beacon_client.Base.{
  ℕ, zero, suc, ◌+◌, ◌≤◌, ◌<◌, ◌≡◌, refl, ◌&&◌, none, some, Option, List, [], ◌∷◌, ◌++◌, ltb, ◌==◌,
  if◌then◌else◌, is_some, length, take, ok, err, assertion_error, arith, ap,
}
use corpochain_beacon_client.Base.Bytes.{bytes_eq}
use corpochain_beacon_client.Base.Dict.{lookup}
use corpochain_beacon_client.Beacon.HeightMap.{
  BlockHeightMap, Files, get_hash, update_height, rollback, maybe_flush,
}
use corpochain_beacon_client.Beacon.HeightMap.Load.{
  Row, Database, window, ordered, read_files, create,
}
use corpochain_beacon_client.Beacon.HeightMap.Saved.{IsSaved}
use corpochain_beacon_client.Beacon.HeightMap.History.{
  Call, updates, rolls_back, flushes, run, run-maybe_flush-writes,
}
use corpochain_beacon_client.Beacon.HeightMap.Reads.{update_height-reads, rollback-reads}
use corpochain_beacon_client.Beacon.HeightMap.Restore.{IsChain}
use corpochain_beacon_client.Beacon.HeightMap.Restore.Earlier.{
  IsEarlier, IsBinding, create-restores,
}

abbrev copies : ℕ → ℕ → List ℕ
copies zero x = []
copies (suc n) x = x ∷ copies n x

-- The hash of the block at a height, and its row.
abbrev hash_at : ℕ → List ℕ
hash_at h = copies 32 (h + 7)

abbrev row_at : ℕ → Row
row_at zero = record {
  header_hash = hash_at 0;
  prev_hash = copies 32 0;
  height = 0;
  sub_epoch_summary = some (5 ∷ []);
}
row_at (suc h) = record {
  header_hash = hash_at (suc h);
  prev_hash = hash_at h;
  height = suc h;
  sub_epoch_summary = none;
}

abbrev two_rows : Database
two_rows = record {
  current_peak = some (hash_at 1);
  full_block = λ hash. if bytes_eq hash (hash_at 1) then some (row_at 1) else none;
  main_chain = row_at 1 ∷ row_at 0 ∷ [];
}

two_rows-IsChain : IsChain two_rows row_at 1
two_rows-IsChain = record {
  heights = λ h le. heights h;
  sizes = λ h le. sizes h;
  links = λ h lt. links h;
  current = refl;
  block = refl;
  rows = λ low high h from below le. rows low high h from below le;
}
  where
    heights : (h : ℕ) → (row_at h).height ≡ h
    heights zero = refl
    heights (suc h) = refl

    sizes : (h : ℕ) → length (row_at h).header_hash ≡ 32
    sizes zero = refl
    sizes (suc h) = refl

    links : (h : ℕ) → (row_at (suc h)).prev_hash ≡ (row_at h).header_hash
    links zero = refl
    links (suc h) = refl

    rows :
        (low high h : ℕ)
        → low ≤ h
        → h < high
        → high ≤ 1
        → ordered (window low high two_rows.main_chain) (row_at h).header_hash ≡ some (row_at h)
    rows low high zero from below le =
        let none_below : low ≡ 0 = omega arith in
        let one : high ≡ 1 = omega arith in rw none_below (rw one refl)
    rows low high (suc h) from below le = absurd (omega arith)

-- The files of another chain, with a summary for a block that has none.
abbrev stale_files : Files
stale_files = record {
  height_to_hash = some (copies 40 3);
  sub_epoch_summaries = some ((0, 9 ∷ []) ∷ []);
}

abbrev first_byte : List ℕ → ℕ
first_byte [] = 0
first_byte (x ∷ xs) = x

abbrev old_at : ℕ → Row
old_at h = record {
  header_hash = copies 32 3;
  prev_hash = copies 32 2;
  height = h;
  sub_epoch_summary = some (9 ∷ []);
}

stale_files-IsEarlier : IsEarlier row_at old_at 1 1 (read_files stale_files 1)
unfolding get_hash
stale_files-IsEarlier = record {
  hashes = λ h low. at_zero h low;
  summaries = λ h low. known h low;
  beyond = λ h le low. absurd (omega (arith, le, low));
  links = λ h low. absurd (omega (arith, low));
}
  where
    at_zero : (h : ℕ) → h < 1 → get_hash h (read_files stale_files 1) ≡ ok (copies 32 3)
    at_zero zero low = refl
    at_zero (suc h) low = absurd (omega (arith, low))

    known :
        (h : ℕ) → h < 1 → lookup h (read_files stale_files 1).sub_epoch_summaries ≡ some (9 ∷ [])
    known zero low = refl
    known (suc h) low = absurd (omega (arith, low))

rows-IsBinding : IsBinding row_at old_at
rows-IsBinding zero h same = absurd (differ (ap first_byte same))
  where
    differ : ◌≡◌ {A = ℕ} 7 3 → ⊥
    differ e = absurd (omega (arith, e))
rows-IsBinding (suc g) h same = absurd (differ (ap first_byte same))
  where
    differ : suc g + 7 ≡ 3 → ⊥
    differ e = absurd (omega (arith, e))

create-restores_example :
    (saved : BlockHeightMap × Files) × (create two_rows stale_files ≡ ok saved)
    × ((k : ℕ) → k ≤ 1 → get_hash k saved.0 ≡ ok (row_at k).header_hash)
    × ((k : ℕ) → k < 1 → lookup k saved.0.sub_epoch_summaries ≡ (row_at k).sub_epoch_summary)
create-restores_example =
    create-restores two_rows stale_files row_at old_at 1 1 two_rows-IsChain stale_files-IsEarlier
      rows-IsBinding

abbrev two_blocks : BlockHeightMap
two_blocks = record {
  height_to_hash = copies 64 7;
  sub_epoch_summaries = (0, 5 ∷ []) ∷ [];
  counter = 998;
  first_dirty = 0;
}

abbrev no_files : Files
no_files = record { height_to_hash = none; sub_epoch_summaries = none }

two_blocks-IsSaved : IsSaved two_blocks no_files
two_blocks-IsSaved = record { whole = refl; dirty = omega arith; agrees = tt }

abbrev reorg : List Call
reorg =
    rolls_back 1 ∷ updates 1 (hash_at 3) none ∷ flushes ∷ updates 2 (hash_at 4) (some (6 ∷ [])) ∷ []

abbrev after_reorg : BlockHeightMap
after_reorg = record {
  height_to_hash = take 32 (copies 64 7) ++ (hash_at 3 ++ hash_at 4);
  sub_epoch_summaries = (0, 5 ∷ []) ∷ (2, 6 ∷ []) ∷ [];
  counter = 1000;
  first_dirty = 0;
}

reorg_runs : run reorg (two_blocks, no_files) ≡ ok (after_reorg, no_files)
unfolding run
reorg_runs = refl

run-maybe_flush-writes_example :
    (saved : BlockHeightMap × Files) × (maybe_flush after_reorg no_files ≡ ok saved)
    × ((file : List ℕ) × (saved.1.height_to_hash ≡ some file)
        × (take (length after_reorg.height_to_hash) file ≡ after_reorg.height_to_hash))
    × (saved.1.sub_epoch_summaries ≡ some after_reorg.sub_epoch_summaries)
    × (saved.0.height_to_hash ≡ after_reorg.height_to_hash)
run-maybe_flush-writes_example =
    run-maybe_flush-writes reorg two_blocks after_reorg no_files no_files
      (tt, (refl, (tt, (refl, tt)))) two_blocks-IsSaved reorg_runs (omega arith)

abbrev summary : Option (List ℕ)
summary = some (6 ∷ [])

update_height-reads_example :
    (m' : BlockHeightMap) × (update_height 2 (hash_at 5) summary two_blocks ≡ ok m')
    × ((k : ℕ) → get_hash k m' ≡ (if k == 2 then ok (hash_at 5) else get_hash k two_blocks))
    × ((k : ℕ)
        → lookup k m'.sub_epoch_summaries ≡ (
            if k == 2 && is_some summary then summary else lookup k two_blocks.sub_epoch_summaries))
update_height-reads_example =
    update_height-reads 2 (hash_at 5) summary two_blocks refl refl (omega arith)

rollback-reads_example :
    (get_hash 1 (rollback 1 two_blocks)
      ≡ (if ltb 1 1 then get_hash 1 two_blocks else err assertion_error))
    × (lookup 1 (rollback 1 two_blocks).sub_epoch_summaries
        ≡ (if ltb 1 1 then lookup 1 two_blocks.sub_epoch_summaries else none))
rollback-reads_example = rollback-reads 1 two_blocks 1
