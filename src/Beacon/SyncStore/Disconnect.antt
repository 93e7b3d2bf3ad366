-- ===== src/Beacon/SyncStore/Disconnect.antt =====
-- A peer that is gone.
use mathlib.Core.Path.{ap₂}
use corpochain_beacon_client.Base.{
  ℕ, ◌≡◌, ◌≢◌, inl, inr, refl, Bool, true, false, ◌||◌, none, some, List, [], ◌∷◌, ◌==◌,
  if◌then◌else◌, elem, arith, Option-cases, ==_iff, Bool-cases, sym, ◌∙◌, ok,
}
use corpochain_beacon_client.Base.Dict.{
  Dict, lookup, contains, lookup-erase_self, lookup-erase_ne, erase,
}
use corpochain_beacon_client.Beacon.SyncStore.{
  SyncStore, add, add_all, remove, forget, peer_disconnected, peers_from, get_peers_that_have_peak,
}
use corpochain_beacon_client.Beacon.SyncStore.Capacity.{IsValid}

elem-remove_self : (x : ℕ) (xs : List ℕ) → elem x (remove x xs) ≡ false
elem-remove_self x [] = refl
elem-remove_self x (y ∷ ys) = ground (arith, elem-remove_self x ys)

elem-remove_ne : (x z : ℕ) (xs : List ℕ) → z ≢ x → elem z (remove x xs) ≡ elem z xs
elem-remove_ne x z [] h = refl
elem-remove_ne x z (y ∷ ys) h = ground (arith, elem-remove_ne x z ys h)

elem-add : (z x : ℕ) (xs : List ℕ) → elem z (add x xs) ≡ (z == x || elem z xs)
elem-add z x xs = elim (Bool-cases (z == x)) [
  | inl e ↦ rw ((==_iff z x).0 e) (ground arith)
  | inr ne ↦ ground arith
]

elem-add_all : (z : ℕ) (xs ys : List ℕ) → elem z (add_all xs ys) ≡ (elem z xs || elem z ys)
elem-add_all z [] ys = refl
elem-add_all z (x ∷ xs) ys = ground (arith, elem-add_all z xs (add x ys), elem-add z x ys)

abbrev entry : ℕ → Dict (List ℕ) → List ℕ
entry h d = elim (lookup h d) [ none ↦ [] | some peers ↦ peers ]

-- Whether the peer is listed under one of the hashes.
abbrev pub has_one_of : ℕ → Dict (List ℕ) → List ℕ → Bool
has_one_of p d [] = false
has_one_of p d (h ∷ hs) = elem p (entry h d) || has_one_of p d hs

elem-peers_from :
    (p : ℕ) (d : Dict (List ℕ)) (hs ids : List ℕ)
    → elem p (peers_from d hs ids) ≡ (has_one_of p d hs || elem p ids)
unfolding peers_from
elem-peers_from p d [] ids = refl
elem-peers_from p d (h ∷ hs) ids = elim (Option-cases (lookup h d)) [
  | inl unknown ↦ ground (arith, elem-peers_from p d hs ids)
  | inr (peers, found) ↦
      ground (arith, elem-peers_from p d hs (add_all peers ids), elem-add_all p peers ids)
]

-- The answer lists exactly the peers that stand under one of the hashes.
pub get_peers_that_have_peak_lem :
    (p : ℕ) (hs : List ℕ) (s : SyncStore)
    → elem p (get_peers_that_have_peak hs s) ≡ has_one_of p s.peak_to_peer hs
unfolding get_peers_that_have_peak
get_peers_that_have_peak_lem p hs s = rw (elem-peers_from p s.peak_to_peer hs []) (ground arith)

none_of :
    (p : ℕ) (d : Dict (List ℕ)) (hs : List ℕ)
    → ((k : ℕ) → elem p (entry k d) ≡ false)
    → has_one_of p d hs ≡ false
none_of p d [] h = refl
none_of p d (k ∷ hs) h = rw (h k) (none_of p d hs h)

same_of :
    (p : ℕ) (d d' : Dict (List ℕ)) (hs : List ℕ)
    → ((k : ℕ) → elem p (entry k d) ≡ elem p (entry k d'))
    → has_one_of p d hs ≡ has_one_of p d' hs
same_of p d d' [] h = refl
same_of p d d' (k ∷ hs) h = ap₂ (λ x y. x || y) (h k) (same_of p d d' hs h)

forget-lookup :
    (n : ℕ) (d : Dict (List ℕ))
    → (d' : Dict (List ℕ)) × (forget n d ≡ ok d')
      × ((k : ℕ) → elem n (entry k d') ≡ false)
      × ((k p : ℕ) → p ≢ n → elem p (entry k d') ≡ elem p (entry k d))
unfolding forget
forget-lookup n [] = ([], refl, λ k. refl, λ k p h. refl)
forget-lookup n (e ∷ rest) =
    let (d', done, gone, others) = forget-lookup n rest in
    let peers = if elem n e.1 then remove n e.1 else e.1 in
    let absent : elem n peers ≡ false = ground (arith, elem-remove_self n e.1) in
    (
      (e.0, peers) ∷ d',
      rw absent (rw done),
      λ k. ground (arith, gone k, absent),
      λ k p h. ground (arith, others k p h, elem-remove_ne n p e.1 h),
    )

-- `peer_disconnected` on a valid store returns: its assertion holds. Then the peer stands under no
-- hash and has no peak, every other peer stands where it stood, with the peak that it had, and
-- those who wait on a change of peers are woken.
pub peer_disconnected-forgets :
    (n : ℕ) (s : SyncStore)
    → IsValid s
    → (s' : SyncStore) × (peer_disconnected n s ≡ ok s')
      × (s'.peers_changed ≡ true)
      × (lookup n s'.peer_to_peak ≡ none)
      × ((hs : List ℕ) → elem n (get_peers_that_have_peak hs s') ≡ false)
      × ((p : ℕ) → p ≢ n → lookup p s'.peer_to_peak ≡ lookup p s.peer_to_peak)
      × ((p : ℕ) (hs : List ℕ)
          → p ≢ n
          → elem p (get_peers_that_have_peak hs s') ≡ elem p (get_peers_that_have_peak hs s))
unfolding peer_disconnected
peer_disconnected-forgets n s v =
    let (d', done, gone, others) = forget-lookup n s.peak_to_peer in
    let after = (record s {
      peer_to_peak = if contains n s.peer_to_peak then erase n s.peer_to_peak else s.peer_to_peak;
      peak_to_peer = d';
      peers_changed = true;
    }) in
    (
      after,
      rw done,
      refl,
      ground (arith, lookup-erase_self n s.peer_to_peak v.peers),
      λ hs. get_peers_that_have_peak_lem n hs after ∙ none_of n d' hs gone,
      λ p h. ground (arith, lookup-erase_ne p n s.peer_to_peak h),
      λ p hs h.
          get_peers_that_have_peak_lem p hs after
          ∙ same_of p d' s.peak_to_peer hs (λ k. others k p h)
          ∙ sym (get_peers_that_have_peak_lem p hs s),
    )
