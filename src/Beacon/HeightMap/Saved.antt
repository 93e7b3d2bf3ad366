-- ===== src/Beacon/HeightMap/Saved.antt =====
-- What the cache file holds: below the first dirty height the hashes of the map, whatever is added
-- or rolled back.
use mathlib.Core.Path.{subst}
use corpochain_beacon_client.Base.{
  ℕ, zero, suc, ◌+◌, ◌-◌, ◌*◌, ◌%◌, ◌≤◌, ◌<◌, ◌≡◌, refl, Option, none, some, List, ◌++◌, ltb,
  if◌then◌else◌, leb, require, sym, ◌∙◌, length, get_elem?, take, ok, arith, min, require-eq-ok,
  >>=-eq-ok, length-append, length-take, get_elem?-lt, ok-injective, leb→le,
}
use corpochain_beacon_client.Base.Slices.{
  set_slice, get_elem?-set_slice, get_elem?-append, get_elem?-take, get_elem?-ge, length-set_slice,
}
use corpochain_beacon_client.Beacon.HeightMap.{
  BlockHeightMap, Files, set_hash, set_ses, update_height, rollback, zeros, write_at,
}

-- A byte of a file, 0 past its end.
abbrev pub byte : List ℕ → ℕ → ℕ
byte xs i = elim (get_elem? xs i) [ none ↦ 0 | some b ↦ b ]

pub length-zeros : (n : ℕ) → length (zeros n) ≡ n
length-zeros zero = refl
length-zeros (suc n) = omega (arith, length-zeros n)

byte-zeros : (n i : ℕ) → byte (zeros n) i ≡ 0
byte-zeros zero i = refl
byte-zeros (suc n) zero = refl
byte-zeros (suc n) (suc i) = byte-zeros n i

byte-pad : (xs : List ℕ) (n i : ℕ) → byte (xs ++ zeros n) i ≡ byte xs i
byte-pad xs n i =
    ground (arith, get_elem?-append xs (zeros n) i, byte-zeros n (i - length xs), get_elem?-ge xs i)

pub byte-get_elem? :
    (xs ys : List ℕ) (i : ℕ)
    → i < length xs
    → i < length ys
    → byte xs i ≡ byte ys i
    → get_elem? xs i ≡ get_elem? ys i
byte-get_elem? xs ys i h k e = ground (arith, get_elem?-lt xs i h, get_elem?-lt ys i k)

pub length-write_at :
    (offset : ℕ) (bytes file : List ℕ) → offset + length bytes ≤ length (write_at offset bytes file)
length-write_at offset bytes file = omega (
  arith,
  length-set_slice offset (offset + length bytes) bytes (file ++ zeros (offset - length file)),
  length-append file (zeros (offset - length file)),
  length-zeros (offset - length file),
)

pub byte-write_at :
    (offset : ℕ) (bytes file : List ℕ) (i : ℕ)
    → i < offset + length bytes
    → byte (write_at offset bytes file) i
      ≡ (if ltb i offset then byte file i else byte bytes (i - offset))
byte-write_at offset bytes file i h =
    let padded = file ++ zeros (offset - length file) in
    let long : offset ≤ length padded = omega (
      arith,
      length-append file (zeros (offset - length file)),
      length-zeros (offset - length file),
    ) in
    let read = get_elem?-set_slice offset (offset + length bytes) bytes padded i long refl in
    let same = byte-pad file (offset - length file) i in ground arith

-- The file agrees with the map below the first dirty height.
abbrev pub Agrees : List ℕ → ℕ → Option (List ℕ) → Type 0
Agrees hashes dirty none = Unit
Agrees hashes dirty (some file) = (i : ℕ) → i < dirty * 32 → byte file i ≡ byte hashes i

pub record IsSaved (m : BlockHeightMap) (files : Files) : Type 0 where
  pub whole : length m.height_to_hash % 32 ≡ 0
  pub dirty : m.first_dirty * 32 ≤ length m.height_to_hash
  pub agrees : Agrees m.height_to_hash m.first_dirty files.height_to_hash

module _ (height : ℕ) (block_hash : List ℕ) (hashes : List ℕ) where
  abbrev with_hash : List ℕ
  with_hash = set_slice (height * 32) (height * 32 + 32) block_hash hashes

  length-with_hash :
      length block_hash ≡ 32
      → length hashes % 32 ≡ 0
      → height * 32 ≤ length hashes
      → (length with_hash % 32 ≡ 0)
        × (height * 32 + 32 ≤ length with_hash)
        × (length hashes ≤ length with_hash)
  length-with_hash size whole room =
      let l = length-set_slice (height * 32) (height * 32 + 32) block_hash hashes in
      (omega arith, omega arith, omega arith)

  byte-with_hash :
      (i : ℕ)
      → length block_hash ≡ 32
      → height * 32 ≤ length hashes
      → i < height * 32
      → byte with_hash i ≡ byte hashes i
  byte-with_hash i size room below =
      let read =
        get_elem?-set_slice (height * 32) (height * 32 + 32) block_hash hashes i room
          (omega arith) in
      ground arith

set_hash-IsSaved :
    (height : ℕ) (block_hash : List ℕ) (m : BlockHeightMap) (files : Files)
    → length block_hash ≡ 32
    → height * 32 ≤ length m.height_to_hash
    → IsSaved m files
    → IsSaved (set_hash height block_hash m) files
unfolding set_hash
set_hash-IsSaved height block_hash m files size room v =
    let l = length-with_hash height block_hash m.height_to_hash size v.whole room in
    record {
      whole = l.0;
      dirty = (let d = v.dirty in omega arith);
      agrees = go files.height_to_hash v.agrees;
    }
  where
    go :
        (file : Option (List ℕ))
        → Agrees m.height_to_hash m.first_dirty file
        → Agrees (with_hash height block_hash m.height_to_hash) (min m.first_dirty height) file
    go none a = tt
    go (some file) a = λ i below.
        a i (omega arith)
        ∙ sym (byte-with_hash height block_hash m.height_to_hash i size room (omega arith))

-- Adding a block keeps the file in step with the map below the first dirty height.
pub update_height-IsSaved :
    (height : ℕ) (header_hash : List ℕ) (ses : Option (List ℕ)) (m m' : BlockHeightMap)
    (files : Files)
    → length header_hash ≡ 32
    → IsSaved m files
    → update_height height header_hash ses m ≡ ok m'
    → IsSaved m' files
unfolding update_height
update_height-IsSaved height header_hash ses m m' files size v h =
    let (u, room, e) = >>=-eq-ok (require (leb (height * 32) (length m.height_to_hash)) _) _ h in
    subst (λ m. IsSaved m files) (ok-injective e)
      (go ses
        (set_hash-IsSaved height header_hash m files size (leb→le _ _ (require-eq-ok _ _ room)) v))
  where
    go :
        (ses : Option (List ℕ)) {m : BlockHeightMap}
        → IsSaved m files
        → IsSaved (set_ses height ses m) files
    go none v = v
    go (some _) v = record { whole = v.whole; dirty = v.dirty; agrees = v.agrees }

pub rollback-IsSaved :
    (kept : ℕ) (m : BlockHeightMap) (files : Files)
    → IsSaved m files
    → IsSaved (rollback kept m) files
unfolding rollback
rollback-IsSaved kept m files v =
    let l = length-take (kept * 32) m.height_to_hash in
    let whole = v.whole in
    let dirty = v.dirty in
    record { whole = omega arith; dirty = omega arith; agrees = go files.height_to_hash v.agrees }
  where
    go :
        (file : Option (List ℕ))
        → Agrees m.height_to_hash m.first_dirty file
        → Agrees (take (kept * 32) m.height_to_hash) (min m.first_dirty kept) file
    go none a = tt
    go (some file) a = λ i below.
        let cut = get_elem?-take (kept * 32) m.height_to_hash i in
        let old = a i (omega arith) in ground arith
