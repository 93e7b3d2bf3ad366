-- ===== src/Beacon/SyncStore/Capacity.antt =====
-- At most 256 peaks are kept, and which one is given up for a new one.
use mathlib.Core.Path.{subst}
use corpochain_beacon_client.Base.{
  ℕ, suc, ◌+◌, ◌≤◌, ◌<◌, ◌≡◌, ◌≢◌, ◌⊎◌, inl, inr, Bool, true, false, Option, none, some, List, [],
  ◌∷◌, ltb, ◌==◌, if◌then◌else◌, length, arith, Option-cases, Bool-cases, ltb→lt, sym, ◌∙◌,
}
use corpochain_beacon_client.Base.Dict.{
  Dict, Distinct, lookup, insert, lookup-insert, insert-Distinct, length-insert_le,
  length-insert_new, length-insert_old,
}
use corpochain_beacon_client.Beacon.SyncStore.{
  Peak, SyncStore, hits, evict, note_peer, add, peer_has_block,
}

pub record IsValid (s : SyncStore) : Type 0 where
  pub bounded : length s.peak_to_peer ≤ 256
  pub peaks : Distinct s.peak_to_peer
  pub peers : Distinct s.peer_to_peak

hits_unique : (t : Option Peak) (j k : ℕ) → hits t j ≡ true → hits t k ≡ true → j ≡ k
hits_unique none j k p q = cc
hits_unique (some peak) j k p q = ground arith

-- The key that goes.
abbrev victim : Option Peak → Dict (List ℕ) → ℕ
victim t [] = 0
victim t (a ∷ []) = a.0
victim t (a ∷ b ∷ c) = if hits t a.0 then b.0 else a.0

lookup-evict :
    (t : Option Peak) (a b : ℕ × List ℕ) (c : Dict (List ℕ)) (k : ℕ)
    → Distinct (a ∷ b ∷ c)
    → lookup k (evict t (a ∷ b ∷ c))
      ≡ (if k == victim t (a ∷ b ∷ c) then none else lookup k (a ∷ b ∷ c))
unfolding evict
lookup-evict t a b c k h = ground (arith, lookup-insert k a.0 a.1 c, h.0, h.1)

length-evict :
    (t : Option Peak) (d : Dict (List ℕ))
    → length (evict t d) + 1 ≤ length d + (if length d == 0 then 1 else 0)
unfolding evict
length-evict t [] = omega arith
length-evict t (a ∷ []) = ground arith
length-evict t (a ∷ b ∷ c) = ground (arith, length-insert_le a.0 a.1 c)

evict-Distinct : (t : Option Peak) (d : Dict (List ℕ)) → Distinct d → Distinct (evict t d)
unfolding evict
evict-Distinct t [] h = tt
evict-Distinct t (a ∷ []) h = ground arith
evict-Distinct t (a ∷ b ∷ c) h = ground (arith, insert-Distinct a.0 a.1 c (h.1.1))

note_peer-length :
    (t : Option Peak) (h p : ℕ) (d : Dict (List ℕ))
    → length d ≤ 256
    → length (note_peer t h p d) ≤ 256
unfolding note_peer
note_peer-length t h p d n = elim (Option-cases (lookup h d)) [
  | inl new ↦
      ground (arith, length-insert_new h (p ∷ []) d new, length-evict t (insert h (p ∷ []) d))
  | inr (peers, old) ↦ ground (arith, length-insert_old h (add p peers) d)
]

note_peer-Distinct :
    (t : Option Peak) (h p : ℕ) (d : Dict (List ℕ)) → Distinct d → Distinct (note_peer t h p d)
unfolding note_peer
note_peer-Distinct t h p d v = elim (Option-cases (lookup h d)) [
  | inl new ↦ ground (arith, insert-Distinct h (p ∷ []) d v, evict-Distinct t (insert h (p ∷ []) d))
  | inr (peers, old) ↦ ground (arith, insert-Distinct h (add p peers) d v)
]

-- `peer_has_block` keeps at most 256 peaks, with no key twice in either dictionary.
pub peer_has_block-IsValid :
    (h p weight height : ℕ) (new : Bool) (s : SyncStore)
    → IsValid s
    → IsValid (peer_has_block h p weight height new s)
unfolding peer_has_block
peer_has_block-IsValid h p weight height new s v = record {
  bounded = note_peer-length s.target_peak h p s.peak_to_peer v.bounded;
  peaks = note_peer-Distinct s.target_peak h p s.peak_to_peer v.peaks;
  peers = ground (
    arith,
    insert-Distinct p (record { header_hash = h; height = height; weight = weight }) s.peer_to_peak
        v.peers,
  );
}

-- What the store should say of the hash `k` once peer `p` has reported `h`.
abbrev pub reported : ℕ → ℕ → Dict (List ℕ) → ℕ → Option (List ℕ)
reported h p d k =
    if k == h
    then some (elim (lookup h d) [ none ↦ p ∷ [] | some peers ↦ add p peers ])
    else lookup k d

note_peer_new :
    (t : Option Peak) (h p : ℕ) (d : Dict (List ℕ))
    → lookup h d ≡ none
    → note_peer t h p d ≡ (
        if ltb 256 (length (insert h (p ∷ []) d))
        then evict t (insert h (p ∷ []) d)
        else insert h (p ∷ []) d)
unfolding note_peer
note_peer_new t h p d new = rw (new, note_peer)

note_peer_old :
    (t : Option Peak) (h p : ℕ) (d : Dict (List ℕ)) (peers : List ℕ)
    → lookup h d ≡ some peers
    → note_peer t h p d ≡ insert h (add p peers) d
unfolding note_peer
note_peer_old t h p d peers old = rw (old, note_peer)

reported_new :
    (h p : ℕ) (d : Dict (List ℕ)) (k : ℕ)
    → lookup h d ≡ none
    → lookup k (insert h (p ∷ []) d) ≡ reported h p d k
reported_new h p d k new = rw (lookup-insert k h (p ∷ []) d) (rw new)

reported_old :
    (h p : ℕ) (d : Dict (List ℕ)) (k : ℕ) (peers : List ℕ)
    → lookup h d ≡ some peers
    → lookup k (insert h (add p peers) d) ≡ reported h p d k
reported_old h p d k peers old = rw (lookup-insert k h (add p peers) d) (rw old)

insert_two :
    {V : Type 0} (h : ℕ) (v : V) (a b : ℕ × V) (c : Dict V)
    → lookup h (a ∷ b ∷ c) ≡ none
    → (insert h v (a ∷ b ∷ c) ≡ a ∷ b ∷ insert h v c) × (h ≢ a.0) × (h ≢ b.0)
insert_two h v a b c new = ground arith

-- Where the store is full and the hash is new, one key goes: not the new one, nor the target.
lookup-evict_full :
    (t : Option Peak) (h : ℕ) (v : List ℕ) (a b : ℕ × List ℕ) (c : Dict (List ℕ)) (k : ℕ)
    → Distinct (a ∷ b ∷ c)
    → lookup h (a ∷ b ∷ c) ≡ none
    → (lookup k (evict t (insert h v (a ∷ b ∷ c))) ≡ lookup k (insert h v (a ∷ b ∷ c)))
      ⊎ ((k ≡ victim t (a ∷ b ∷ c)) × (k ≢ h) × (hits t k ≡ false))
lookup-evict_full t h v a b c k dist new =
    let two = insert_two h v a b c new in
    let whole : Distinct (a ∷ b ∷ insert h v c) =
      subst Distinct two.0 (insert-Distinct h v (a ∷ b ∷ c) dist) in
    let went = lookup-evict t a b (insert h v c) k whole in
    rw (two.0) (ground (arith, went, hits_unique t a.0 k, two.1, two.2, dist.0))

lookup-evict_new :
    (t : Option Peak) (h : ℕ) (v : List ℕ) (d : Dict (List ℕ)) (k : ℕ)
    → Distinct d
    → length d ≤ 256
    → lookup h d ≡ none
    → 256 < length (insert h v d)
    → (lookup k (evict t (insert h v d)) ≡ lookup k (insert h v d))
      ⊎ ((k ≡ victim t d) × (length d ≡ 256) × (k ≢ h) × (hits t k ≡ false))
lookup-evict_new t h v [] k dist n new full = absurd (omega arith)
lookup-evict_new t h v (a ∷ []) k dist n new full =
    absurd (omega (arith, length-insert_new h v (a ∷ []) new))
lookup-evict_new t h v (a ∷ b ∷ c) k dist n new full =
    let size = length-insert_new h v (a ∷ b ∷ c) new in
    let all : suc (suc (length c)) ≡ 256 = omega (arith, size) in
    elim (lookup-evict_full t h v a b c k dist new) [
      | inl kept ↦ inl kept
      | inr (lost, ne, no_hit) ↦ inr (lost, all, ne, no_hit)
    ]

lookup-note_peer :
    (t : Option Peak) (h p : ℕ) (d : Dict (List ℕ)) (k : ℕ)
    → Distinct d
    → length d ≤ 256
    → (lookup k (note_peer t h p d) ≡ reported h p d k)
      ⊎ ((k ≡ victim t d) × (length d ≡ 256) × (k ≢ h) × (hits t k ≡ false))
lookup-note_peer t h p d k v n = elim (Option-cases (lookup h d)) [
  | inr (peers, old) ↦ inl (rw (note_peer_old t h p d peers old) (reported_old h p d k peers old))
  | inl new ↦
      rw (note_peer_new t h p d new) (elim (Bool-cases (ltb 256 (length (insert h (p ∷ []) d)))) [
        | inr room ↦ rw room (inl (reported_new h p d k new))
        | inl full ↦ rw full (
            rw (← reported_new h p d k new)
              (lookup-evict_new t h (p ∷ []) d k v n new (ltb→lt _ _ full)))
      ])
]

-- The peers of the reported hash and of the sync target are kept: after a report, the entry of the
-- reported hash has the reporting peer added, and the target's entry is as it was (or is that one).
pub peer_has_block-keeps :
    (h p weight height : ℕ) (new : Bool) (s : SyncStore) (k : ℕ)
    → IsValid s
    → (k ≡ h) ⊎ (hits s.target_peak k ≡ true)
    → lookup k (peer_has_block h p weight height new s).peak_to_peer ≡ reported h p s.peak_to_peer k
unfolding peer_has_block
peer_has_block-keeps h p weight height new s k v kept =
    elim (lookup-note_peer s.target_peak h p s.peak_to_peer k v.peaks v.bounded) [
      | inl same ↦ same
      | inr (lost, full, ne, no_hit) ↦ absurd (elim kept [ inl e ↦ ne e | inr hit ↦ cc ])
    ]

-- A report can cost an entry only when the store is full, and then one entry at most: any two
-- hashes whose entries are not as reported are the same hash.
pub peer_has_block-loses_one :
    (h p weight height : ℕ) (new : Bool) (s : SyncStore) (j k : ℕ)
    → IsValid s
    → let d = (peer_has_block h p weight height new s).peak_to_peer in
      lookup j d ≢ reported h p s.peak_to_peer j
      → lookup k d ≢ reported h p s.peak_to_peer k
      → (j ≡ k) × (length s.peak_to_peer ≡ 256)
unfolding peer_has_block
peer_has_block-loses_one h p weight height new s j k v lost_j lost_k =
    elim (lookup-note_peer s.target_peak h p s.peak_to_peer j v.peaks v.bounded) [
      | inl same ↦ absurd (lost_j same)
      | inr (at_j, full, _, _) ↦
          elim (lookup-note_peer s.target_peak h p s.peak_to_peer k v.peaks v.bounded) [
            | inl same ↦ absurd (lost_k same)
            | inr (at_k, _, _, _) ↦ (at_j ∙ sym at_k, full)
          ]
    ]
