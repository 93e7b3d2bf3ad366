-- ===== src/Tests/FullStore.antt =====
-- A full sync store, which gives up its oldest peak for a new one.
use corpochain_beacon_client.Base.{
  ℕ, zero, suc, ◌≤◌, ◌≢◌, ◌≡◌, refl, false, none, List, [], ◌∷◌, length, arith,
}
use corpochain_beacon_client.Base.Dict.{Dict, lookup, Distinct}
use corpochain_beacon_client.Beacon.SyncStore.{SyncStore, peer_has_block}
use corpochain_beacon_client.Beacon.SyncStore.Capacity.{IsValid, reported, peer_has_block-loses_one}

abbrev peaks : ℕ → Dict (List ℕ)
peaks zero = []
peaks (suc n) = (n, 7 ∷ []) ∷ peaks n

lookup-peaks : (j n : ℕ) → n ≤ j → lookup j (peaks n) ≡ none
lookup-peaks j zero h = refl
lookup-peaks j (suc n) h = ground (arith, lookup-peaks j n)

peaks-Distinct : (n : ℕ) → Distinct (peaks n)
peaks-Distinct zero = tt
peaks-Distinct (suc n) = (lookup-peaks n n (omega arith), peaks-Distinct n)

length-peaks : (n : ℕ) → length (peaks n) ≡ n
length-peaks zero = refl
length-peaks (suc n) = omega (arith, length-peaks n)

abbrev full : SyncStore
full = record {
  sync_mode = false;
  long_sync = false;
  peak_to_peer = peaks 256;
  peer_to_peak = [];
  target_peak = none;
  peers_changed = false;
  batch_syncing = [];
  backtrack_syncing = [];
}

full-IsValid : IsValid full
full-IsValid = record {
  bounded = omega (arith, length-peaks 256);
  peaks = peaks-Distinct 256;
  peers = tt;
}

oldest_lost :
    lookup 255 (peer_has_block 1000 8 1 1 false full).peak_to_peer
    ≢ reported 1000 8 full.peak_to_peer 255
unfolding peer_has_block
oldest_lost e = cc

peer_has_block-loses_one_example : ◌≡◌ {A = ℕ} 255 255 × (length full.peak_to_peer ≡ 256)
peer_has_block-loses_one_example =
    peer_has_block-loses_one 1000 8 1 1 false full 255 255 full-IsValid oldest_lost oldest_lost
