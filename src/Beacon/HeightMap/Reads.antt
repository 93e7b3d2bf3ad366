-- ===== src/Beacon/HeightMap/Reads.antt =====
-- What a height map answers after an update or a rollback.
use corpochain_beacon_client.Base.{
  ℕ, ◌+◌, ◌-◌, ◌*◌, ◌%◌, ◌≤◌, ◌<◌, ◌≡◌, refl, Option, none, some, List, [], ◌∷◌, ◌∙◌, ltb, leb,
  is_some, ◌&&◌, ◌==◌, if◌then◌else◌, length, get_elem?, take, Result, ok, err, assertion_error,
  arith, Bool-cases, inl, inr, length-take, ==_iff,
}
use corpochain_beacon_client.Base.Dict.{Dict, lookup, lookup-insert}
use corpochain_beacon_client.Base.Slices.{
  slice, set_slice, get_elem?-set_slice, get_elem?-slice, get_elem?-take, get_elem?-ge,
  length-set_slice, list_ext,
}
use corpochain_beacon_client.Beacon.HeightMap.{
  BlockHeightMap, set_hash, get_hash, update_height, rollback, keep_below, set_ses,
}

-- The answer, as a function of the buffer.
abbrev pub read : ℕ → List ℕ → Result (List ℕ)
read k hashes =
    if leb (k * 32 + 32) (length hashes)
    then ok (slice (k * 32) (k * 32 + 32) hashes)
    else err assertion_error

pub get_hash-read : (k : ℕ) (m : BlockHeightMap) → get_hash k m ≡ read k m.height_to_hash
unfolding get_hash
get_hash-read k m = ground arith

slice_same :
    (i j : ℕ) (xs ys : List ℕ)
    → ((k : ℕ) → i ≤ k → k < j → get_elem? xs k ≡ get_elem? ys k)
    → slice i j xs ≡ slice i j ys
slice_same i j xs ys same = list_ext _ _ λ k.
    let x = get_elem?-slice i j xs k in
    let y = get_elem?-slice i j ys k in
    elim (Bool-cases (ltb k (j - i))) [
      | inl low ↦ (let e = same (i + k) (omega arith) (ground arith) in ground arith)
      | inr high ↦ ground arith
    ]

slice_new :
    (height : ℕ) (block_hash hashes : List ℕ)
    → length block_hash ≡ 32
    → height * 32 ≤ length hashes
    → slice
        (height * 32)
        (height * 32 + 32)
        (set_slice (height * 32) (height * 32 + 32) block_hash hashes)
      ≡ block_hash
slice_new height block_hash hashes size room = list_ext _ _ λ k.
    let i = height * 32 in
    let new = set_slice i (i + 32) block_hash hashes in
    let x = get_elem?-slice i (i + 32) new k in
    let y = get_elem?-set_slice i (i + 32) block_hash hashes (i + k) room (omega arith) in
    elim (Bool-cases (ltb k 32)) [
      | inl low ↦ ground arith
      | inr high ↦ (let past = get_elem?-ge block_hash k (ground arith) in ground arith)
    ]

pub length-set_hash :
    (height : ℕ) (block_hash : List ℕ) (m : BlockHeightMap)
    → length block_hash ≡ 32
    → height * 32 + 32 ≤ length m.height_to_hash
    → length (set_hash height block_hash m).height_to_hash ≡ length m.height_to_hash
unfolding set_hash
length-set_hash height block_hash m size room =
    omega (arith, length-set_slice (height * 32) (height * 32 + 32) block_hash m.height_to_hash)

pub get_hash-set_hash :
    (height k : ℕ) (block_hash : List ℕ) (m : BlockHeightMap)
    → length block_hash ≡ 32
    → length m.height_to_hash % 32 ≡ 0
    → height * 32 ≤ length m.height_to_hash
    → get_hash k (set_hash height block_hash m)
      ≡ (if k == height then ok block_hash else get_hash k m)
unfolding set_hash
get_hash-set_hash height k block_hash m size whole room =
    let i = height * 32 in
    let new = set_slice i (i + 32) block_hash m.height_to_hash in
    let l = length-set_slice i (i + 32) block_hash m.height_to_hash in
    let old = get_hash-read k m in
    let now = get_hash-read k (set_hash height block_hash m) in
    elim (Bool-cases (k == height)) [
      | inl here ↦
          let e = (==_iff k height).0 here in
          let s = slice_new height block_hash m.height_to_hash size room in ground arith
      | inr other ↦
          let s = slice_same (k * 32) (k * 32 + 32) new m.height_to_hash λ j low high.
            (let r =
                get_elem?-set_slice i (i + 32) block_hash m.height_to_hash j room (omega arith) in
              ground arith) in
          ground arith
    ]

pub lookup-set_ses :
    (height k : ℕ) (ses : Option (List ℕ)) (m : BlockHeightMap)
    → lookup k (set_ses height ses m).sub_epoch_summaries
      ≡ (if k == height && is_some ses then ses else lookup k m.sub_epoch_summaries)
lookup-set_ses height k none m = ground arith
lookup-set_ses height k (some s) m = ground (arith, lookup-insert k height s m.sub_epoch_summaries)

lookup-keep_below :
    (kept k : ℕ) (d : Dict (List ℕ))
    → lookup k (keep_below kept d) ≡ (if ltb k kept then lookup k d else none)
lookup-keep_below kept k [] = ground arith
lookup-keep_below kept k (item ∷ d) = ground (arith, lookup-keep_below kept k d)

lookup-set_ses-set_hash :
    (height : ℕ) (header_hash : List ℕ) (ses : Option (List ℕ)) (m : BlockHeightMap) (k : ℕ)
    → lookup k (set_ses height ses (set_hash height header_hash m)).sub_epoch_summaries
      ≡ (if k == height && is_some ses then ses else lookup k m.sub_epoch_summaries)
unfolding set_hash
lookup-set_ses-set_hash height header_hash ses m k =
    lookup-set_ses height k ses (set_hash height header_hash m)

update_height-due :
    (height : ℕ) (header_hash : List ℕ) (ses : Option (List ℕ)) (m : BlockHeightMap)
    → height * 32 ≤ length m.height_to_hash
    → update_height height header_hash ses m
      ≡ ok (set_ses height ses (set_hash height header_hash m))
unfolding update_height
update_height-due height header_hash ses m room = ground arith

pub get_hash-set_ses :
    (height k : ℕ) (ses : Option (List ℕ)) (m : BlockHeightMap)
    → get_hash k (set_ses height ses m) ≡ get_hash k m
unfolding get_hash
get_hash-set_ses height k none m = refl
get_hash-set_ses height k (some s) m = refl

-- A block can be added at any height up to one above the highest. The map then answers its hash at
-- that height and its summary if it has one, and at every other height what it answered before. The
-- map has a whole number of hashes and the new hash has 32 bytes.
pub update_height-reads :
    (height : ℕ) (header_hash : List ℕ) (ses : Option (List ℕ)) (m : BlockHeightMap)
    → length header_hash ≡ 32
    → length m.height_to_hash % 32 ≡ 0
    → height * 32 ≤ length m.height_to_hash
    → (m' : BlockHeightMap) × (update_height height header_hash ses m ≡ ok m')
      × ((k : ℕ) → get_hash k m' ≡ (if k == height then ok header_hash else get_hash k m))
      × ((k : ℕ)
          → lookup k m'.sub_epoch_summaries
            ≡ (if k == height && is_some ses then ses else lookup k m.sub_epoch_summaries))
update_height-reads height header_hash ses m size whole room = (
  set_ses height ses (set_hash height header_hash m),
  update_height-due height header_hash ses m room,
  (λ k.
      get_hash-set_ses height k ses (set_hash height header_hash m)
      ∙ get_hash-set_hash height k header_hash m size whole room),
  lookup-set_ses-set_hash height header_hash ses m,
)

-- After a rollback the map answers as before up to the fork height (the heights below `kept`), and
-- above it has no summary, and its assertion fails for a hash.
pub rollback-reads :
    (kept : ℕ) (m : BlockHeightMap) (k : ℕ)
    → (get_hash k (rollback kept m) ≡ (if ltb k kept then get_hash k m else err assertion_error))
      × (lookup k (rollback kept m).sub_epoch_summaries
          ≡ (if ltb k kept then lookup k m.sub_epoch_summaries else none))
unfolding rollback
rollback-reads kept m k =
    let cut = take (kept * 32) m.height_to_hash in
    let l = length-take (kept * 32) m.height_to_hash in
    let old = get_hash-read k m in
    let now = get_hash-read k (rollback kept m) in
    (
      elim (Bool-cases (ltb k kept)) [
        | inl low ↦
            let s = slice_same (k * 32) (k * 32 + 32) cut m.height_to_hash λ j from below.
              (let r = get_elem?-take (kept * 32) m.height_to_hash j in ground arith) in
            ground arith
        | inr high ↦ ground arith
      ],
      lookup-keep_below kept k m.sub_epoch_summaries,
    )
