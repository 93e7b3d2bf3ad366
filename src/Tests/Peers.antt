-- ===== src/Tests/Peers.antt =====
-- The sync store and the rate limiter on small data, and the sized integers.
use corpochain_beacon_client.Base.{
  ℕ, ◌*◌, ◌≤◌, ◌≢◌, ◌≡◌, refl, true, false, none, some, List, [], ◌∷◌, elem, ok, arith, inl,
}
use corpochain_beacon_client.Base.Int.{ℤ, negsuc}
use corpochain_beacon_client.Base.Dict.{lookup}
use corpochain_beacon_client.Ints.{init, from_bytes, to_bytes}
use corpochain_beacon_client.Ints.RoundTrip.{metadata, from_bytes-to_bytes, to_bytes-from_bytes}
use corpochain_beacon_client.Beacon.SyncStore.{
  Peak, SyncStore, peer_has_block, get_heaviest_peak, get_peers_that_have_peak, peer_disconnected,
}
use corpochain_beacon_client.Beacon.SyncStore.Capacity.{
  IsValid, reported, peer_has_block-IsValid, peer_has_block-keeps,
}
use corpochain_beacon_client.Beacon.SyncStore.Heaviest.{Answers, get_heaviest_peak-Answers}
use corpochain_beacon_client.Beacon.SyncStore.Disconnect.{peer_disconnected-forgets}
use corpochain_beacon_client.Server.RateLimits.{RateLimiter, Message, limits_of, max_total_of}
use corpochain_beacon_client.Server.RateLimits as Limiter
use corpochain_beacon_client.Server.RateLimits.Counting.{passed, passed_size, passed-within-limits}

abbrev peak_of : ℕ → ℕ → Peak
peak_of hash weight = record { header_hash = hash; height = 7; weight = weight }

-- Three peers, two peaks, the first of them the target.
abbrev two_peaks : SyncStore
two_peaks = record {
  sync_mode = true;
  long_sync = false;
  peak_to_peer = (11, 1 ∷ 2 ∷ []) ∷ (12, 3 ∷ []) ∷ [];
  peer_to_peak = (1, peak_of 11 100) ∷ (3, peak_of 12 250) ∷ [];
  target_peak = some (peak_of 11 100);
  peers_changed = false;
  batch_syncing = [];
  backtrack_syncing = [];
}

two_peaks-IsValid : IsValid two_peaks
two_peaks-IsValid = record {
  bounded = omega arith;
  peaks = (refl, (refl, tt));
  peers = (refl, (refl, tt));
}

peer_has_block-IsValid_example : IsValid (peer_has_block 13 4 300 9 true two_peaks)
peer_has_block-IsValid_example = peer_has_block-IsValid 13 4 300 9 true two_peaks two_peaks-IsValid

peer_has_block-keeps_example :
    lookup 12 (peer_has_block 12 4 300 9 true two_peaks).peak_to_peer
    ≡ reported 12 4 two_peaks.peak_to_peer 12
peer_has_block-keeps_example =
    peer_has_block-keeps 12 4 300 9 true two_peaks 12 two_peaks-IsValid (inl refl)

get_heaviest_peak-Answers_example : Answers two_peaks (get_heaviest_peak two_peaks)
get_heaviest_peak-Answers_example = get_heaviest_peak-Answers two_peaks two_peaks-IsValid

peer_disconnected-forgets_example :
    (s' : SyncStore) × (peer_disconnected 1 two_peaks ≡ ok s')
    × (s'.peers_changed ≡ true)
    × (lookup 1 s'.peer_to_peak ≡ none)
    × ((hs : List ℕ) → elem 1 (get_peers_that_have_peak hs s') ≡ false)
    × ((p : ℕ) → p ≢ 1 → lookup p s'.peer_to_peak ≡ lookup p two_peaks.peer_to_peak)
    × ((p : ℕ) (hs : List ℕ)
        → p ≢ 1
        → elem p (get_peers_that_have_peak hs s') ≡ elem p (get_peers_that_have_peak hs two_peaks))
peer_disconnected-forgets_example = peer_disconnected-forgets 1 two_peaks two_peaks-IsValid

abbrev handshake : ℕ → Message
handshake size = record { message_type = 1; size = size }

abbrev schedule : List (ℕ × Message)
schedule = (65, handshake 100) ∷ (66, handshake 20_000) ∷ (90, handshake 7) ∷ []

passed-within-limits_example :
    (100 * passed 1 schedule (Limiter.init false 60 100 61) ≤ (limits_of 1).frequency * 100)
    × (100 * passed_size 1 schedule (Limiter.init false 60 100 61)
        ≤ max_total_of (limits_of 1) * 100)
passed-within-limits_example =
    passed-within-limits 1 schedule 60 100 61 refl (refl, (refl, (refl, tt)))

int16_minus_five : init (metadata true 1) (negsuc 4) ≡ ok (negsuc 4)
unfolding init
int16_minus_five = refl

from_bytes-to_bytes_example :
    from_bytes (metadata true 1) (to_bytes (metadata true 1) (negsuc 4)) ≡ ok (negsuc 4)
from_bytes-to_bytes_example = from_bytes-to_bytes true 1 (negsuc 4) int16_minus_five

to_bytes-from_bytes_example :
    (v : ℤ) × (from_bytes (metadata false 1) (255 ∷ 2 ∷ []) ≡ ok v)
    × (to_bytes (metadata false 1) v ≡ 255 ∷ 2 ∷ [])
to_bytes-from_bytes_example =
    to_bytes-from_bytes false 1 (255 ∷ 2 ∷ []) (omega arith, (omega arith, tt)) refl
