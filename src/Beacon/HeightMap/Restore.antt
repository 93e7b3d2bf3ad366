-- ===== src/Beacon/HeightMap/Restore.antt =====
-- What `create` loads: the main chain of the database.
pub mod Windows
pub mod Create
pub mod Earlier
use mathlib.Core.Path.{subst}
use corpochain_beacon_client.Base.{
  ℕ, zero, suc, ◌+◌, ◌-◌, ◌*◌, ◌%◌, ◌≤◌, ◌<◌, ◌≡◌, refl, ◌⊎◌, Bool, true, false, Option, none, some,
  List, [], ◌∷◌, ◌∙◌, sym, ltb, ◌==◌, if◌then◌else◌, length, Result, ok, err, arith, ◌>>=◌,
  Bool-cases, Option-cases, inl, inr, ltb→lt, ltb_false→le, ap, ==_iff, ◌&&◌,
}
use corpochain_beacon_client.Base.Dict.{
  Dict, Distinct, lookup, contains, insert, erase, lookup-insert, lookup-erase_ne,
  lookup-erase_self, insert-Distinct, erase-Distinct,
}
use corpochain_beacon_client.Base.Bytes.{bytes_eq, bytes_eq→eq}
use corpochain_beacon_client.Base.Slices.{slice}
use corpochain_beacon_client.Beacon.HeightMap.{
  BlockHeightMap, Files, set_hash, get_hash, set_ses, maybe_flush,
}
use corpochain_beacon_client.Beacon.HeightMap.Reads.{
  get_hash-set_hash, length-set_hash, get_hash-read, get_hash-set_ses,
}
use corpochain_beacon_client.Beacon.HeightMap.Load.{
  Row, Database, Loading, done, more, window, ordered, holds_ses, match_entry, load_window,
  load_windows, load_blocks_from, read_files, set_peak, create,
}

-- The rows of the main chain by height, up to the peak, as the tables hold them.
pub record IsChain (db : Database) (row_at : ℕ → Row) (top : ℕ) : Type 0 where
  pub heights : (h : ℕ) → h ≤ top → (row_at h).height ≡ h
  pub sizes : (h : ℕ) → h ≤ top → length (row_at h).header_hash ≡ 32
  pub links : (h : ℕ) → h < top → (row_at (suc h)).prev_hash ≡ (row_at h).header_hash
  pub current : db.current_peak ≡ some (row_at top).header_hash
  pub block : db.full_block (row_at top).header_hash ≡ some (row_at top)
  pub rows :
      (low high h : ℕ)
      → low ≤ h
      → h < high
      → high ≤ top
      → ordered (window low high db.main_chain) (row_at h).header_hash ≡ some (row_at h)

module _ (db : Database) (row_at : ℕ → Row) (top : ℕ) where
  abbrev pub IsRight : ℕ → BlockHeightMap → Type 0
  IsRight k m =
      (get_hash k m ≡ ok (row_at k).header_hash)
      × (lookup k m.sub_epoch_summaries ≡ (row_at k).sub_epoch_summary)

  -- The assumption of the code: where a summary and the hash of its block are those of the
  -- database, everything below was populated from the same chain.
  abbrev pub IsTrusted : BlockHeightMap → Type 0
  IsTrusted m =
      (h : ℕ) (ses : List ℕ)
      → h < top
      → (row_at h).sub_epoch_summary ≡ some ses
      → get_hash h m ≡ ok (row_at h).header_hash
      → lookup h m.sub_epoch_summaries ≡ some ses
      → (k : ℕ) → k < h
      → IsRight k m

  module _ (cached : BlockHeightMap) where
    -- Restored from the height `h` on, and as cached below.
    pub record Restored (h : ℕ) (m : BlockHeightMap) : Type 0 where
      pub size : length m.height_to_hash ≡ (top + 1) * 32
      pub peak : get_hash top m ≡ ok (row_at top).header_hash
      pub above : (k : ℕ) → h ≤ k → k < top → IsRight k m
      pub below :
          (k : ℕ)
          → k < h
          → (get_hash k m ≡ get_hash k cached)
            × (lookup k m.sub_epoch_summaries ≡ lookup k cached.sub_epoch_summaries)
      pub distinct : Distinct m.sub_epoch_summaries

    abbrev pub Follows : ℕ → List ℕ → Type 0
    Follows zero prev_hash = Unit
    Follows (suc k) prev_hash = prev_hash ≡ (row_at k).header_hash

    abbrev pub Good : ℕ → Loading → Type 0
    Good window_end (done m) = Restored 0 m
    Good window_end (more h prev_hash m) = (h ≡ window_end) × Restored h m × Follows h prev_hash

    -- The entry of height `k` checked: all is right already, or the summary is.
    abbrev pub Checked : ℕ → BlockHeightMap → Bool × BlockHeightMap → Type 0
    Checked k m (true, m') = Restored 0 m'
    Checked k m (false, m') =
        (m'.height_to_hash ≡ m.height_to_hash)
        × ((j : ℕ)
            → lookup j m'.sub_epoch_summaries
              ≡ (if j == k then (row_at k).sub_epoch_summary else lookup j m.sub_epoch_summaries))
        × Distinct m'.sub_epoch_summaries

    get_hash-returns :
        (k : ℕ) (m : BlockHeightMap)
        → k * 32 + 32 ≤ length m.height_to_hash
        → get_hash k m ≡ ok (slice (k * 32) (k * 32 + 32) m.height_to_hash)
    get_hash-returns k m room = get_hash-read k m ∙ ground arith

    all_right :
        IsTrusted cached
        → (k : ℕ) (ses : List ℕ) (m : BlockHeightMap) → k < top
        → Restored (suc k) m
        → (row_at k).sub_epoch_summary ≡ some ses
        → get_hash k m ≡ ok (row_at k).header_hash
        → lookup k m.sub_epoch_summaries ≡ some ses
        → Restored 0 m
    all_right trusted k ses m low r has hash known = record {
      size = r.size;
      peak = r.peak;
      above = λ j from below. elim (Bool-cases (ltb k j)) [
        | inl higher ↦ r.above j (ltb→lt _ _ higher) below
        | inr lower ↦ elim (Bool-cases (j == k)) [
          | inl here ↦ subst (λ i. IsRight i m) (sym ((==_iff j k).0 here)) (hash, known ∙ sym has)
          | inr other ↦
              let at_k = r.below k (omega arith) in
              let at_j = r.below j (ground arith) in
              let right =
                trusted k ses low has (sym at_k.0 ∙ hash) (sym at_k.1 ∙ known) j (ground arith) in
              (at_j.0 ∙ right.0, at_j.1 ∙ right.1)
        ]
      ];
      below = λ j none_below. absurd (omega arith);
      distinct = r.distinct;
    }

    holds_ses→eq :
        (k : ℕ) (ses : List ℕ) (m : BlockHeightMap)
        → holds_ses k ses m ≡ true
        → lookup k m.sub_epoch_summaries ≡ some ses
    holds_ses→eq k ses m h = elim (Option-cases (lookup k m.sub_epoch_summaries)) [
      | inl missing ↦ ground arith
      | inr (known, found) ↦ let same = bytes_eq→eq known ses (ground arith) in found ∙ ap some same
    ]

    -- The entry of a height whose row has no summary, and of one whose row has one.
    pub match_none :
        (k : ℕ) (prev_hash : List ℕ) (m : BlockHeightMap)
        → Distinct m.sub_epoch_summaries
        → (row_at k).sub_epoch_summary ≡ none
        → (r : Bool × BlockHeightMap) × (match_entry k prev_hash none m ≡ ok r) × Checked k m r
    unfolding match_entry
    match_none k prev_hash m distinct lacks = elim (Bool-cases (contains k m.sub_epoch_summaries)) [
      | inl held ↦ (
        (false, record m { sub_epoch_summaries = erase k m.sub_epoch_summaries }),
        ground arith,
        (
          refl,
          (λ j.
              let self = lookup-erase_self k m.sub_epoch_summaries distinct in
              let other = lookup-erase_ne j k m.sub_epoch_summaries in ground arith),
          erase-Distinct k m.sub_epoch_summaries distinct,
        ),
      )
      | inr missing ↦ ((false, m), ground arith, (refl, (λ j. ground arith), distinct))
    ]

    pub match_some :
        IsTrusted cached
        → (k : ℕ) (ses : List ℕ) (m : BlockHeightMap) → k < top
        → k * 32 + 32 ≤ length m.height_to_hash
        → Restored (suc k) m
        → (row_at k).sub_epoch_summary ≡ some ses
        → (r : Bool × BlockHeightMap) × (match_entry k (row_at k).header_hash (some ses) m ≡ ok r)
          × Checked k m r
    unfolding match_entry
    match_some trusted k ses m low room r has =
        let current = slice (k * 32) (k * 32 + 32) m.height_to_hash in
        let here = get_hash-returns k m room in
        let same = bytes_eq current (row_at k).header_hash in
        rw here (elim (Bool-cases (same && holds_ses k ses m)) [
          | inl matches ↦ (
            (true, m),
            rw matches refl,
            all_right trusted k ses m low r has (here ∙ ap ok (bytes_eq→eq _ _ (ground arith)))
                (holds_ses→eq k ses m (ground arith)),
          )
          | inr differs ↦ (
            (false, set_ses k (some ses) m),
            rw differs refl,
            (
              refl,
              (λ j. ground (arith, lookup-insert j k ses m.sub_epoch_summaries)),
              insert-Distinct k ses m.sub_epoch_summaries r.distinct,
            ),
          )
        ])
