-- ===== src/Beacon/HeightMap/Flush.antt =====
-- A write of `maybe_flush` brings the cache file up to date.
use mathlib.Core.Path.{subst}
use corpochain_beacon_client.Base.{
  ℕ, ◌-◌, ◌*◌, ◌/◌, ◌≤◌, ◌<◌, ◌≡◌, refl, true, Option, none, some, List, [], ◌∷◌, ltb, ap, sym, ◌∙◌,
  ltb→lt, ltb_false→le, length, take, drop, ok, arith, Bool-cases, inl, inr, ok-injective,
}
use corpochain_beacon_client.Base.Slices.{
  get_elem?-take, get_elem?-drop, get_elem?-ge, length-drop, list_ext,
}
use corpochain_beacon_client.Beacon.HeightMap.{BlockHeightMap, Files, write_at, maybe_flush}
use corpochain_beacon_client.Beacon.HeightMap.Saved.{
  Agrees, IsSaved, byte, byte-write_at, byte-get_elem?, length-write_at,
}

-- What `maybe_flush` leaves in the file.
abbrev written : BlockHeightMap → Option (List ℕ) → List ℕ
written m none = m.height_to_hash
written m (some file) =
    write_at (m.first_dirty * 32) (drop (m.first_dirty * 32) m.height_to_hash) file

take-all : (xs : List ℕ) → take (length xs) xs ≡ xs
take-all [] = refl
take-all (x ∷ xs) = ap (◌∷◌ x) (take-all xs)

byte-written :
    (m : BlockHeightMap) (files : Files)
    → IsSaved m files
    → (i : ℕ) → i < length m.height_to_hash
    → byte (written m files.height_to_hash) i ≡ byte m.height_to_hash i
byte-written m files v i below = go files.height_to_hash v.agrees
  where
    go :
        (file : Option (List ℕ))
        → Agrees m.height_to_hash m.first_dirty file
        → byte (written m file) i ≡ byte m.height_to_hash i
    go none a = refl
    go (some file) a =
        let offset = m.first_dirty * 32 in
        let rest = drop offset m.height_to_hash in
        let long = length-drop offset m.height_to_hash in
        let dirty = v.dirty in
        let read = byte-write_at offset rest file i (omega arith) in
        let moved = get_elem?-drop offset m.height_to_hash (i - offset) in
        elim (Bool-cases (ltb i offset)) [
          | inl low ↦ (let old = a i (ltb→lt _ _ low) in ground arith)
          | inr high ↦ ground arith
        ]

length-written :
    (m : BlockHeightMap) (files : Files)
    → IsSaved m files
    → length m.height_to_hash ≤ length (written m files.height_to_hash)
length-written m files v = go files.height_to_hash
  where
    go : (file : Option (List ℕ)) → length m.height_to_hash ≤ length (written m file)
    go none = omega arith
    go (some file) =
        let offset = m.first_dirty * 32 in
        let rest = drop offset m.height_to_hash in
        let long = length-drop offset m.height_to_hash in
        let dirty = v.dirty in omega (arith, length-write_at offset rest file)

-- The written file, cut to the length of the map, is the map.
take-written :
    (m : BlockHeightMap) (files : Files)
    → IsSaved m files
    → take (length m.height_to_hash) (written m files.height_to_hash) ≡ m.height_to_hash
take-written m files v = list_ext _ _ λ i.
    let n = length m.height_to_hash in
    let file = written m files.height_to_hash in
    let cut = get_elem?-take n file i in
    elim (Bool-cases (ltb i n)) [
      | inl low ↦
          let below = ltb→lt _ _ low in
          let long = length-written m files v in
          let same =
            byte-get_elem? file m.height_to_hash i (omega arith) below
              (byte-written m files v i below) in
          ground arith
      | inr high ↦
          let past = get_elem?-ge m.height_to_hash i (ltb_false→le _ _ high) in ground arith
    ]

flushed : BlockHeightMap → Files → BlockHeightMap × Files
flushed m files = (
  record m { counter = 0; first_dirty = length m.height_to_hash / 32 },
  record {
    height_to_hash = some (written m files.height_to_hash);
    sub_epoch_summaries = some m.sub_epoch_summaries;
  },
)

maybe_flush-due :
    (m : BlockHeightMap) (files : Files)
    → IsSaved m files
    → 1000 ≤ m.counter
    → maybe_flush m files ≡ ok (flushed m files)
unfolding maybe_flush flushed
maybe_flush-due m files v due = go files.height_to_hash
  where
    go :
        (file : Option (List ℕ))
        → maybe_flush m (record files { height_to_hash = file })
          ≡ ok (flushed m (record files { height_to_hash = file }))
    go none = ground (arith, v.whole)
    go (some file) = ground (arith, v.whole)

pub maybe_flush-writes :
    (m : BlockHeightMap) (files : Files)
    → IsSaved m files
    → 1000 ≤ m.counter
    → (saved : BlockHeightMap × Files) × (maybe_flush m files ≡ ok saved)
      × ((file : List ℕ) × (saved.1.height_to_hash ≡ some file)
          × (take (length m.height_to_hash) file ≡ m.height_to_hash))
      × (saved.1.sub_epoch_summaries ≡ some m.sub_epoch_summaries)
      × (saved.0.height_to_hash ≡ m.height_to_hash)
unfolding flushed
maybe_flush-writes m files v due = (
  flushed m files,
  maybe_flush-due m files v due,
  (written m files.height_to_hash, refl, take-written m files v),
  refl,
  refl,
)

flushed-IsSaved :
    (m : BlockHeightMap) (files : Files)
    → IsSaved m files
    → IsSaved (flushed m files).0 (flushed m files).1
unfolding flushed
flushed-IsSaved m files v =
    let whole = v.whole in
    record {
      whole = v.whole;
      dirty = omega arith;
      agrees = λ i below. byte-written m files v i (omega arith);
    }

pub maybe_flush-IsSaved :
    (m m' : BlockHeightMap) (files files' : Files)
    → IsSaved m files
    → maybe_flush m files ≡ ok (m', files')
    → IsSaved m' files'
unfolding maybe_flush
maybe_flush-IsSaved m m' files files' v h = elim (Bool-cases (ltb m.counter 1000)) [
  | inl few ↦
      subst (λ s. IsSaved s.0 s.1) (ok-injective (sym (maybe_flush-early m files few) ∙ h)) v
  | inr due ↦
      subst (λ s. IsSaved s.0 s.1)
        (ok-injective (sym (maybe_flush-due m files v (ltb_false→le _ _ due)) ∙ h))
        (flushed-IsSaved m files v)
]
  where
    maybe_flush-early :
        (m : BlockHeightMap) (files : Files)
        → ltb m.counter 1000 ≡ true
        → maybe_flush m files ≡ ok (m, files)
    maybe_flush-early m files few = ground arith
