-- ===== src/Beacon/SyncStore/Heaviest.antt =====
-- The heaviest peak that a peer has reported.
use mathlib.Core.Path.{subst}
use mathlib.Core.Bool.{false≢true}
use corpochain_beacon_client.Base.{
  ℕ, ◌≤◌, ◌≡◌, ◌≢◌, ◌⊎◌, inl, inr, refl, true, false, Option, none, some, List, [], ◌∷◌, ltb, ◌==◌,
  arith, Option-cases, some_cancel, ltb_false→le, ==_refl, ap, Bool-cases, sym, ◌∙◌, ok, err,
  assertion_error,
}
use corpochain_beacon_client.Base.Errors.{Result}
use corpochain_beacon_client.Base.Dict.{Dict, lookup, contains, Distinct}
use corpochain_beacon_client.Beacon.SyncStore.{
  Peak, SyncStore, heaviest, heavier, get_heaviest_peak,
}
use corpochain_beacon_client.Beacon.SyncStore.Capacity.{IsValid}

-- Peer `p` reported the peak, and its hash is still in the store.
abbrev pub Known : SyncStore → ℕ → Peak → Type 0
Known s p peak =
    (lookup p s.peer_to_peak ≡ some peak) × (contains peak.header_hash s.peak_to_peer ≡ true)

abbrev weight_of : Option Peak → ℕ
weight_of none = 0
weight_of (some peak) = peak.weight

-- Going on never lowers the best weight, nor loses a best peak.
heaviest-grows :
    (d : Dict (List ℕ)) (peers : Dict Peak) (best : Peak)
    → (b : Peak) × (heaviest d peers (some best) ≡ some b) × (best.weight ≤ b.weight)
unfolding heaviest
heaviest-grows d [] best = (best, refl, omega arith)
heaviest-grows d (e ∷ rest) best = elim (Bool-cases (contains e.1.header_hash d)) [
  | inr unknown ↦ rw unknown (heaviest-grows d rest best)
  | inl known ↦ rw known (elim (Bool-cases (ltb best.weight e.1.weight)) [
    | inl more ↦ rw more (let (b, q, w) = heaviest-grows d rest e.1 in (b, q, ground (arith, w)))
    | inr less ↦ rw less (heaviest-grows d rest best)
  ])
]

heavier_bound :
    (best : Option Peak) (q : Peak) → (b : Peak) × (heavier best q ≡ some b) × (q.weight ≤ b.weight)
heavier_bound none q = (q, refl, omega arith)
heavier_bound (some best) q = elim (Bool-cases (ltb best.weight q.weight)) [
  | inl more ↦ (q, rw more, omega arith)
  | inr less ↦ (best, rw less, ltb_false→le _ _ less)
]

heavier_from : (old : Option Peak) (q b : Peak) → heavier old q ≡ some b → (old ≡ some b) ⊎ (q ≡ b)
heavier_from none q b h = inr (some_cancel h)
heavier_from (some old) q b h = elim (Bool-cases (ltb old.weight q.weight)) [
  | inl more ↦ inr (some_cancel (rw more at h))
  | inr less ↦ inl (rw less at h)
]

lookup-skip :
    (p : ℕ) (e : ℕ × Peak) (rest : Dict Peak) (b : Peak)
    → lookup e.0 rest ≡ none
    → lookup p rest ≡ some b
    → lookup p (e ∷ rest) ≡ some b
lookup-skip p e rest b fresh found = ground (arith, fresh, found)

heaviest-bound :
    (d : Dict (List ℕ)) (peers : Dict Peak) (best : Option Peak) (p : ℕ) (peak : Peak)
    → lookup p peers ≡ some peak
    → contains peak.header_hash d ≡ true
    → (b : Peak) × (heaviest d peers best ≡ some b) × (peak.weight ≤ b.weight)
unfolding heaviest
heaviest-bound d [] best p peak found known = absurd (cc)
heaviest-bound d (e ∷ rest) best p peak found known = elim (Bool-cases (p == e.0)) [
  | inr other ↦ heaviest-bound d rest _ p peak (rw other at found) known
  | inl this ↦
      let e' : e.1 ≡ peak = some_cancel (rw this at found) in
      let known' : contains e.1.header_hash d ≡ true = rw e' known in
      let (b, step, w) = heavier_bound best e.1 in
      let (b', last, w') = heaviest-grows d rest b in
      let up : peak.weight ≤ b'.weight = rw (← e') (omega (arith, w, w')) in
      (b', rw (known', step) last, up)
]

heaviest-from :
    (d : Dict (List ℕ)) (peers : Dict Peak) (best : Option Peak) (b : Peak)
    → Distinct peers
    → heaviest d peers best ≡ some b
    → (best ≡ some b) ⊎ ((p : ℕ) × (lookup p peers ≡ some b) × (contains b.header_hash d ≡ true))
unfolding heaviest
heaviest-from d [] best b dist h = inl h
heaviest-from d (e ∷ rest) best b dist h = elim (Bool-cases (contains e.1.header_hash d)) [
  | inr unknown ↦ elim (heaviest-from d rest best b dist.1 (rw unknown at h)) [
    | inl old ↦ inl old
    | inr (p, found, known) ↦ inr (p, lookup-skip p e rest b dist.0 found, known)
  ]
  | inl known ↦ elim (heaviest-from d rest (heavier best e.1) b dist.1 (rw known at h)) [
    | inr (p, found, known') ↦ inr (p, lookup-skip p e rest b dist.0 found, known')
    | inl step ↦ elim (heavier_from best e.1 b step) [
      | inl old ↦ inl old
      | inr new ↦ inr (e.0, rw (==_refl e.0) (ap some new), rw (← new) known)
    ]
  ]
]

-- Where no known peak was found, no reported peak is known.
none_known :
    (d : Dict (List ℕ)) (peers : Dict Peak) (p : ℕ) (peak : Peak)
    → heaviest d peers none ≡ none
    → lookup p peers ≡ some peak
    → contains peak.header_hash d ≡ false
none_known d peers p peak h found = elim (Bool-cases (contains peak.header_hash d)) [
  | inr unknown ↦ unknown
  | inl known ↦ let (b, e, w) = heaviest-bound d peers none p peak found known in absurd (cc)
]

-- What the store answers: nothing if no peer has reported; otherwise the known peak of some peer,
-- that no known peak outweighs; and it raises exactly where peers have reported and the hash of no
-- reported peak is in the store any more.
pub data Answers (s : SyncStore) : Result (Option Peak) → Type 0 where
  no_peers : s.peer_to_peak ≡ [] → Answers s (ok none)
  best :
      (p : ℕ) (b : Peak)
      → Known s p b
      → ((q : ℕ) (peak : Peak) → Known s q peak → peak.weight ≤ b.weight)
      → Answers s (ok (some b))
  raises :
      s.peer_to_peak ≢ []
      → ((q : ℕ) (peak : Peak) → ¬ Known s q peak)
      → Answers s (err assertion_error)

get_heaviest_peak-empty : (s : SyncStore) → s.peer_to_peak ≡ [] → get_heaviest_peak s ≡ ok none
unfolding get_heaviest_peak
get_heaviest_peak-empty s e = ground arith

get_heaviest_peak-some :
    (s : SyncStore) (b : Peak)
    → s.peer_to_peak ≢ []
    → heaviest s.peak_to_peer s.peer_to_peak none ≡ some b
    → get_heaviest_peak s ≡ ok (some b)
unfolding get_heaviest_peak
get_heaviest_peak-some s b e h = ground arith

get_heaviest_peak-none :
    (s : SyncStore)
    → s.peer_to_peak ≢ []
    → heaviest s.peak_to_peer s.peer_to_peak none ≡ none
    → get_heaviest_peak s ≡ err assertion_error
unfolding get_heaviest_peak
get_heaviest_peak-none s e h = ground arith

List-cases {ℓ} : {A : Type ℓ} (xs : List A) → (xs ≡ []) ⊎ (xs ≢ [])
List-cases [] = inl refl
List-cases (x ∷ xs) = inr (λ e. cc)

best_answer :
    (s : SyncStore) (b : Peak)
    → IsValid s
    → heaviest s.peak_to_peer s.peer_to_peak none ≡ some b
    → Answers s (ok (some b))
best_answer s b v h = elim (heaviest-from s.peak_to_peer s.peer_to_peak none b v.peers h) [
  | inl impossible ↦ absurd (cc)
  | inr (p, found, known) ↦
      best p b (found, known)
        λ q peak k.
          let (b', e, w) = heaviest-bound s.peak_to_peer s.peer_to_peak none q peak k.0 k.1 in
          rw (some_cancel (sym h ∙ e)) w
]

-- `get_heaviest_peak` on a valid store: no peers, the heaviest known peak, or the failed assertion.
pub get_heaviest_peak-Answers : (s : SyncStore) → IsValid s → Answers s (get_heaviest_peak s)
get_heaviest_peak-Answers s v = elim (List-cases s.peer_to_peak) [
  | inl e ↦ subst (Answers s) (sym (get_heaviest_peak-empty s e)) (no_peers e)
  | inr ne ↦ elim (Option-cases (heaviest s.peak_to_peer s.peer_to_peak none)) [
    | inr (b, h) ↦ subst (Answers s) (sym (get_heaviest_peak-some s b ne h)) (best_answer s b v h)
    | inl h ↦ subst (Answers s) (sym (get_heaviest_peak-none s ne h)) (
        raises ne λ q peak k.
          let unknown = none_known s.peak_to_peer s.peer_to_peak q peak h k.0 in
          false≢true (sym unknown ∙ k.1))
  ]
]
