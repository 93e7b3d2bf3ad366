-- ===== src/Beacon/HeightMap/Restore/Earlier.antt =====
-- What `create` loads from the files of an earlier main chain.
use mathlib.Core.Path.{subst}
use corpochain_beacon_client.Base.{
  ℕ, zero, suc, ◌+◌, ◌-◌, ◌≤◌, ◌<◌, ◌≡◌, Option, none, some, List, ◌∙◌, sym, ltb, ok, arith,
  Bool-cases, inl, inr, ltb→lt, ltb_false→le, ap, ok-injective,
}
use corpochain_beacon_client.Base.Dict.{lookup}
use corpochain_beacon_client.Beacon.HeightMap.{BlockHeightMap, Files, get_hash}
use corpochain_beacon_client.Beacon.HeightMap.Load.{Row, Database, read_files, create}
use corpochain_beacon_client.Beacon.HeightMap.Restore.{IsChain, IsTrusted}
use corpochain_beacon_client.Beacon.HeightMap.Restore.Create.{create-restores_trusted}

plus_zero : (k : ℕ) → k + 0 ≡ k
plus_zero k = omega arith

plus_suc : (k d : ℕ) → k + suc d ≡ suc k + d
plus_suc k d = omega arith

module _ (row_at old_at : ℕ → Row) where
  -- A map that holds the first `size` blocks of a chain, and below `top` no other summaries.
  pub record IsEarlier (size top : ℕ) (m : BlockHeightMap) : Type 0 where
    pub hashes : (h : ℕ) → h < size → get_hash h m ≡ ok (old_at h).header_hash
    pub summaries :
        (h : ℕ) → h < size → lookup h m.sub_epoch_summaries ≡ (old_at h).sub_epoch_summary
    pub beyond : (h : ℕ) → size ≤ h → h < top → lookup h m.sub_epoch_summaries ≡ none
    pub links : (h : ℕ) → suc h < size → (old_at (suc h)).prev_hash ≡ (old_at h).header_hash

  -- A hash names one block: the block before it, and its summary.
  abbrev pub IsBinding : Type 0
  IsBinding =
      (g h : ℕ)
      → (row_at g).header_hash ≡ (old_at h).header_hash
      → ((row_at g).prev_hash ≡ (old_at h).prev_hash)
        × ((row_at g).sub_epoch_summary ≡ (old_at h).sub_epoch_summary)

  -- Chains that share a block share what is below it.
  shared_below :
      (db : Database) (top size : ℕ) (m : BlockHeightMap) (d k : ℕ)
      → IsChain db row_at top
      → IsEarlier size top m
      → IsBinding
      → k + d < top
      → k + d < size
      → (row_at (k + d)).header_hash ≡ (old_at (k + d)).header_hash
      → (row_at k).header_hash ≡ (old_at k).header_hash
  shared_below db top size m zero k chain earlier binding low small same =
      subst (λ i. (row_at i).header_hash ≡ (old_at i).header_hash) (plus_zero k) same
  shared_below db top size m (suc d) k chain earlier binding low small same =
      let next =
        shared_below db top size m d (suc k) chain earlier binding (omega (arith, low))
          (omega (arith, small))
          (subst (λ i. (row_at i).header_hash ≡ (old_at i).header_hash) (plus_suc k d) same) in
      sym (chain.links k (omega (arith, low)))
      ∙ (binding (suc k) (suc k) next).0
      ∙ earlier.links k (omega (arith, small))

  IsEarlier-IsTrusted :
      (db : Database) (top size : ℕ) (m : BlockHeightMap)
      → IsChain db row_at top
      → IsEarlier size top m
      → IsBinding
      → IsTrusted db row_at top m
  IsEarlier-IsTrusted db top size m chain earlier binding h ses low has hash known k below =
      elim (Bool-cases (ltb h size)) [
        | inr out ↦
            absurd (none_some ses (sym (earlier.beyond h (ltb_false→le _ _ out) low) ∙ known))
        | inl inside ↦ right (ltb→lt _ _ inside)
      ]
    where
      none_some : (ses : List ℕ) → ◌≡◌ {A = Option (List ℕ)} none (some ses) → ⊥
      none_some ses e = cc

      right :
          h < size
          → (get_hash k m ≡ ok (row_at k).header_hash)
            × (lookup k m.sub_epoch_summaries ≡ (row_at k).sub_epoch_summary)
      right inside =
          let same = ok-injective (sym hash ∙ earlier.hashes h inside) in
          let apart : h ≡ k + (h - k) = omega (arith, below) in
          let there =
            shared_below db top size m (h - k) k chain earlier binding (omega (arith, low, below))
              (omega (arith, inside, below))
              (subst (λ i. (row_at i).header_hash ≡ (old_at i).header_hash) apart same) in
          let room : k < size = omega (arith, inside, below) in
          (
            earlier.hashes k room ∙ ap ok (sym there),
            earlier.summaries k room ∙ sym (binding k k there).1,
          )

-- `create` returns, and the map it returns is the main chain of the database: at every height up to
-- the peak it answers the block's hash, and below the peak its sub-epoch summary or none. The hashes
-- of the main chain have 32 bytes, and each of its blocks is found in the tables and names the block
-- before it. The cache files hold the first blocks of some other chain, such as the main chain at
-- an earlier time (or no block at all), whatever it shares with the main chain; a hash names one
-- block before and one summary.
pub create-restores :
    (db : Database) (files : Files) (row_at old_at : ℕ → Row) (top size : ℕ)
    → IsChain db row_at top
    → IsEarlier row_at old_at size top (read_files files top)
    → IsBinding row_at old_at
    → (saved : BlockHeightMap × Files) × (create db files ≡ ok saved)
      × ((k : ℕ) → k ≤ top → get_hash k saved.0 ≡ ok (row_at k).header_hash)
      × ((k : ℕ) → k < top → lookup k saved.0.sub_epoch_summaries ≡ (row_at k).sub_epoch_summary)
create-restores db files row_at old_at top size chain earlier binding =
    create-restores_trusted db files row_at top chain
      (IsEarlier-IsTrusted row_at old_at db top size (read_files files top) chain earlier binding)
