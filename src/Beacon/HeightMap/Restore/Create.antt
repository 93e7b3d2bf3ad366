-- ===== src/Beacon/HeightMap/Restore/Create.antt =====
-- `create` as a whole: the files, the peak, and the blocks below it.
use mathlib.Core.Path.{subst}
use corpochain_beacon_client.Base.{
  ℕ, suc, ◌+◌, ◌-◌, ◌*◌, ◌%◌, ◌≤◌, ◌<◌, ◌≡◌, refl, false, Option, none, some, List, [], ◌∷◌, ◌∙◌,
  sym, ltb, if◌then◌else◌, length, length-take, length-append, ok, arith, Bool-cases, inl, inr,
  ltb→lt, ap,
}
use corpochain_beacon_client.Base.Dict.{Dict, Distinct, lookup, insert, insert-Distinct}
use corpochain_beacon_client.Base.Bytes.{bytes_eq, bytes_eq→eq}
use corpochain_beacon_client.Base.Slices.{slice}
use corpochain_beacon_client.Beacon.HeightMap.{
  BlockHeightMap, Files, zeros, set_hash, get_hash, set_ses, maybe_flush,
}
use corpochain_beacon_client.Beacon.HeightMap.Reads.{
  get_hash-set_hash, length-set_hash, get_hash-read, read, get_hash-set_ses, lookup-set_ses,
}
use corpochain_beacon_client.Beacon.HeightMap.Load.{
  Row, Database, to_dict, resize, load_blocks_from, read_files, set_peak, create,
}
use corpochain_beacon_client.Beacon.HeightMap.Saved.{length-zeros}
use corpochain_beacon_client.Beacon.HeightMap.Restore.{IsChain, IsTrusted, Restored}
use corpochain_beacon_client.Beacon.HeightMap.Restore.Windows.{
  load_windows-Restored, set_hash_summaries, set_hash_distinct, follows,
}

read_files-length :
    (files : Files) (height : ℕ)
    → length (read_files files height).height_to_hash ≡ (height + 1) * 32
read_files-length files height = go (elim files.height_to_hash [ none ↦ [] | some file ↦ file ])
  where
    go : (file : List ℕ) → length (resize ((height + 1) * 32) file) ≡ (height + 1) * 32
    go file =
        let n = (height + 1) * 32 in
        let cut = length-take n file in
        let filled = length-append file (zeros (n - length file)) in
        let gap = length-zeros (n - length file) in
        elim (Bool-cases (ltb n (length file))) [
          | inl long ↦ ground arith
          | inr short ↦ ground arith
        ]

read_files-Distinct :
    (files : Files) (height : ℕ) → Distinct (read_files files height).sub_epoch_summaries
read_files-Distinct files height = go files.sub_epoch_summaries
  where
    to_dict-Distinct : (content d : Dict (List ℕ)) → Distinct d → Distinct (to_dict content d)
    to_dict-Distinct [] d h = h
    to_dict-Distinct (item ∷ content) d h =
        to_dict-Distinct content (insert item.0 item.1 d) (insert-Distinct item.0 item.1 d h)

    go :
        (content : Option (Dict (List ℕ)))
        → Distinct (elim content [ none ↦ [] | some content ↦ to_dict content [] ])
    go none = tt
    go (some content) = to_dict-Distinct content [] tt

set_ses-Distinct :
    (height : ℕ) (ses : Option (List ℕ)) (m : BlockHeightMap)
    → Distinct m.sub_epoch_summaries
    → Distinct (set_ses height ses m).sub_epoch_summaries
set_ses-Distinct height none m h = h
set_ses-Distinct height (some s) m h = insert-Distinct height s m.sub_epoch_summaries h

set_ses-height_to_hash :
    (height : ℕ) (ses : Option (List ℕ)) (m : BlockHeightMap)
    → (set_ses height ses m).height_to_hash ≡ m.height_to_hash
set_ses-height_to_hash height none m = refl
set_ses-height_to_hash height (some s) m = refl

module _ (db : Database) (row_at : ℕ → Row) (top : ℕ) (cached : BlockHeightMap) where
  abbrev with_peak : BlockHeightMap
  with_peak =
      if bytes_eq (slice (top * 32) (top * 32 + 32) cached.height_to_hash) (row_at top).header_hash
      then cached
      else set_hash top (row_at top).header_hash cached

  -- Before the summary of the peak is set.
  with_peak-Restored :
      IsChain db row_at top
      → length cached.height_to_hash ≡ (top + 1) * 32
      → Distinct cached.sub_epoch_summaries
      → Restored db row_at top cached top with_peak
  with_peak-Restored chain size distinct =
      let hash = (row_at top).header_hash in
      let current = slice (top * 32) (top * 32 + 32) cached.height_to_hash in
      let sized = chain.sizes top (omega arith) in
      elim (Bool-cases (bytes_eq current hash)) [
        | inl same ↦ rw same (record {
          size = size;
          peak =
              (let old = get_hash-read top cached in
                let e = bytes_eq→eq current hash same in ground arith);
          above = λ k from below. absurd (omega arith);
          below = λ k under. (refl, refl);
          distinct = distinct;
        })
        | inr other ↦ rw other (record {
          size = length-set_hash top hash cached sized (omega arith) ∙ size;
          peak =
              (let new = get_hash-set_hash top top hash cached sized (omega arith) (omega arith) in
                ground arith);
          above = λ k from below. absurd (omega arith);
          below = λ k under. (
            (let new = get_hash-set_hash top k hash cached sized (omega arith) (omega arith) in
                ground arith),
            set_hash_summaries db row_at top cached top hash cached k,
          );
          distinct = set_hash_distinct db row_at top cached top hash cached distinct;
        })
      ]

  set_ses-Restored :
      (ses : Option (List ℕ)) (m : BlockHeightMap)
      → Restored db row_at top cached top m
      → Restored db row_at top cached top (set_ses top ses m)
  set_ses-Restored ses m r = record {
    size = ap length (set_ses-height_to_hash top ses m) ∙ r.size;
    peak = get_hash-set_ses top top ses m ∙ r.peak;
    above = λ k from below. absurd (omega arith);
    below = λ k under. (
      get_hash-set_ses top k ses m ∙ (r.below k under).0,
      (let old = (r.below k under).1 in let new = lookup-set_ses top k ses m in ground arith),
    );
    distinct = set_ses-Distinct top ses m r.distinct;
  }

  set_peak-due :
      IsChain db row_at top
      → length cached.height_to_hash ≡ (top + 1) * 32
      → set_peak (row_at top) cached ≡ ok (set_ses top (row_at top).sub_epoch_summary with_peak)
  unfolding set_peak
  set_peak-due chain size =
      let old : get_hash top cached ≡ ok (slice (top * 32) (top * 32 + 32) cached.height_to_hash) =
        get_hash-read top cached ∙ ground arith in
      rw (chain.heights top (omega arith)) (rw old refl)

  load_blocks_from-Restored :
      (m : BlockHeightMap)
      → IsChain db row_at top
      → IsTrusted db row_at top cached
      → Restored db row_at top cached top m
      → (n : BlockHeightMap) × (load_blocks_from db top (row_at top).prev_hash m ≡ ok n)
        × Restored db row_at top cached 0 n
  unfolding load_blocks_from
  load_blocks_from-Restored m chain trusted r =
      load_windows-Restored db row_at top cached (suc top) 400 top (row_at top).prev_hash m chain
        trusted (omega arith) (omega arith) (omega arith) r
        (follows db row_at top cached top chain (omega arith))

maybe_flush-returns :
    (m : BlockHeightMap) (files : Files)
    → length m.height_to_hash % 32 ≡ 0
    → (s : BlockHeightMap × Files) × (maybe_flush m files ≡ ok s)
      × (s.0.height_to_hash ≡ m.height_to_hash)
      × (s.0.sub_epoch_summaries ≡ m.sub_epoch_summaries)
unfolding maybe_flush
maybe_flush-returns m files whole = elim (Bool-cases (ltb m.counter 1000)) [
  | inl few ↦ rw few ((m, files), refl, refl, refl)
  | inr due ↦ rw due (rw whole (_, refl, refl, refl))
]

create-due :
    (db : Database) (files : Files) (row : Row) (peak : List ℕ) (m n : BlockHeightMap)
    → db.current_peak ≡ some peak
    → db.full_block peak ≡ some row
    → set_peak row (read_files files row.height) ≡ ok m
    → load_blocks_from db row.height row.prev_hash m ≡ ok n
    → create db files ≡ maybe_flush n files
unfolding create
create-due db files row peak m n current block set load =
    rw current (rw block (rw set (rw load refl)))

-- `create` returns, and the map it returns is the main chain of the database: at every height up to
-- the peak it answers the block's hash, and below the peak its sub-epoch summary or none. The hashes
-- have 32 bytes, each block of the main chain is found in the tables and names the block before it.
-- The cache files may hold anything, except that where the hash and the summary at a height are
-- those of the database, so is all that the files hold below it.
pub create-restores_trusted :
    (db : Database) (files : Files) (row_at : ℕ → Row) (top : ℕ)
    → IsChain db row_at top
    → IsTrusted db row_at top (read_files files top)
    → (saved : BlockHeightMap × Files) × (create db files ≡ ok saved)
      × ((k : ℕ) → k ≤ top → get_hash k saved.0 ≡ ok (row_at k).header_hash)
      × ((k : ℕ) → k < top → lookup k saved.0.sub_epoch_summaries ≡ (row_at k).sub_epoch_summary)
create-restores_trusted db files row_at top chain trusted =
    let cached = read_files files top in
    let size = read_files-length files top in
    let height = chain.heights top (omega arith) in
    let peaked =
      with_peak-Restored db row_at top cached chain size (read_files-Distinct files top) in
    let ses = (row_at top).sub_epoch_summary in
    let m = set_ses top ses (with_peak db row_at top cached) in
    let (n, e, r) =
      load_blocks_from-Restored db row_at top cached m chain trusted
        (set_ses-Restored db row_at top cached ses (with_peak db row_at top cached) peaked) in
    let sized = r.size in
    let (s, e', same, sames) = maybe_flush-returns n files (omega arith) in
    (
      s,
      create-due db files (row_at top) (row_at top).header_hash m n chain.current chain.block
            (subst (λ h. set_peak (row_at top) (read_files files h) ≡ ok m) (sym height)
              (set_peak-due db row_at top cached chain size))
            (subst (λ h. load_blocks_from db h (row_at top).prev_hash m ≡ ok n) (sym height) e)
          ∙ e',
      (λ k le.
          get_hash-read k s.0
          ∙ (ap (read k) same
              ∙ (sym (get_hash-read k n) ∙ (elim (Bool-cases (ltb k top)) [
                | inl low ↦ (r.above k (omega arith) (ltb→lt _ _ low)).0
                | inr high ↦
                    subst (λ i. get_hash i n ≡ ok (row_at i).header_hash) (at_top k le high) r.peak
              ])))),
      (λ k below. ap (lookup k) sames ∙ (r.above k (omega arith) below).1),
    )
  where
    at_top : (k : ℕ) → k ≤ top → ltb k top ≡ false → top ≡ k
    at_top k le high = ground arith
