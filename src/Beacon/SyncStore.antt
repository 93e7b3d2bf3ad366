-- ===== src/Beacon/SyncStore.antt =====
-- Which peer has which peak: corpochain/beacon/sync_store.py. A set of node ids is a list in which
-- an id is added only if it is missing; `peers_changed` is the flag of the asyncio event.
pub mod Capacity
pub mod Heaviest
pub mod Disconnect
use corpochain_beacon_client.Base.{
  ℕ, zero, suc, ◌+◌, Bool, true, false, not, ◌&&◌, ◌||◌, Option, none, some, List, [], ◌∷◌, ◌++◌,
  ltb, ◌==◌, if◌then◌else◌, is_some, length, elem, Result, ok, err, assertion_error, ◌>>=◌, ◌>>◌,
  require,
}
use corpochain_beacon_client.Base.Dict.{Dict, lookup, contains, insert, erase}

pub record Peak : Type 0 where
  pub header_hash : ℕ
  pub height : ℕ
  pub weight : ℕ

pub record SyncStore : Type 0 where
  pub sync_mode : Bool
  pub long_sync : Bool
  pub peak_to_peer : Dict (List ℕ)
  pub peer_to_peak : Dict Peak
  pub target_peak : Option Peak
  pub peers_changed : Bool
  pub batch_syncing : List ℕ
  pub backtrack_syncing : Dict ℕ

-- `set.add`
abbrev pub add : ℕ → List ℕ → List ℕ
add x xs = if elem x xs then xs else x ∷ xs

-- `set.remove`, of an id that is there
abbrev pub remove : ℕ → List ℕ → List ℕ
remove x [] = []
remove x (y ∷ ys) = if x == y then remove x ys else y ∷ remove x ys

-- `self.target_peak is not None and hash == self.target_peak.header_hash`, on the target alone
abbrev pub hits : Option Peak → ℕ → Bool
hits none header_hash = false
hits (some peak) header_hash = header_hash == peak.header_hash

-- `popitem(last=False)`, and the sync target put back in before the next entry goes
unfoldable pub evict : Option Peak → Dict (List ℕ) → Dict (List ℕ)
evict target [] = []
evict target (item ∷ rest) =
    if hits target item.0
    then (elim (insert item.0 item.1 rest) [ [] ↦ [] | _ ∷ kept ↦ kept ])
    else rest

-- The new `peak_to_peer`
unfoldable pub note_peer : Option Peak → ℕ → ℕ → Dict (List ℕ) → Dict (List ℕ)
unfolding evict
note_peer target header_hash peer_id d = elim (lookup header_hash d) [
  | some peers ↦ insert header_hash (add peer_id peers) d
  | none ↦
      let d' = insert header_hash (peer_id ∷ []) d in
      if ltb 256 (length d') then evict target d' else d'
]

unfoldable pub peer_has_block : ℕ → ℕ → ℕ → ℕ → Bool → SyncStore → SyncStore
unfolding note_peer
peer_has_block header_hash peer_id weight height new_peak s = record s {
  peers_changed = hits s.target_peak header_hash || s.peers_changed;
  peak_to_peer = note_peer s.target_peak header_hash peer_id s.peak_to_peer;
  peer_to_peak =
      if new_peak
      then insert peer_id (record { header_hash = header_hash; height = height; weight = weight })
          s.peer_to_peak
      else s.peer_to_peak;
}

abbrev pub seen_header_hash : ℕ → SyncStore → Bool
seen_header_hash header_hash s = contains header_hash s.peak_to_peer

-- `node_ids.add` for each of a list
abbrev pub add_all : List ℕ → List ℕ → List ℕ
add_all [] node_ids = node_ids
add_all (x ∷ xs) node_ids = add_all xs (add x node_ids)

unfoldable pub peers_from : Dict (List ℕ) → List ℕ → List ℕ → List ℕ
peers_from d [] node_ids = node_ids
peers_from d (header_hash ∷ hashes) node_ids =
    peers_from d hashes
      (elim (lookup header_hash d) [ none ↦ node_ids | some peers ↦ add_all peers node_ids ])

unfoldable pub get_peers_that_have_peak : List ℕ → SyncStore → List ℕ
unfolding peers_from
get_peers_that_have_peak header_hashes s = peers_from s.peak_to_peer header_hashes []

unfoldable pub known_peaks : Dict (List ℕ) → Dict Peak → Dict Peak
known_peaks d [] = []
known_peaks d (e ∷ rest) =
    if contains e.1.header_hash d then e ∷ known_peaks d rest else known_peaks d rest

unfoldable pub get_peak_of_each_peer : SyncStore → Dict Peak
unfolding known_peaks
get_peak_of_each_peer s = known_peaks s.peak_to_peer s.peer_to_peak

-- One round of the loop in `get_heaviest_peak`.
abbrev pub heavier : Option Peak → Peak → Option Peak
heavier none peak = some peak
heavier (some best) peak = if ltb best.weight peak.weight then some peak else some best

unfoldable pub heaviest : Dict (List ℕ) → Dict Peak → Option Peak → Option Peak
heaviest d [] best = best
heaviest d (e ∷ rest) best =
    heaviest d rest (if contains e.1.header_hash d then heavier best e.1 else best)

unfoldable pub get_heaviest_peak : SyncStore → Result (Option Peak)
unfolding heaviest
get_heaviest_peak s =
    let best = heaviest s.peak_to_peer s.peer_to_peak none in
    if length s.peer_to_peak == 0
    then ok none
    else (do require (is_some best) assertion_error; ok best)

unfoldable pub clear_sync_info : SyncStore → SyncStore
clear_sync_info s = record s { peak_to_peer = [] }

-- The loop of `peer_disconnected`, with its assertion.
unfoldable pub forget : ℕ → Dict (List ℕ) → Result (Dict (List ℕ))
forget node_id [] = ok []
forget node_id (e ∷ rest) =
    let others = forget node_id rest in
    do
      let peers = if elem node_id e.1 then remove node_id e.1 else e.1
      require (not (elem node_id peers)) assertion_error
      kept ← others
      ok ((e.0, peers) ∷ kept)

unfoldable pub peer_disconnected : ℕ → SyncStore → Result SyncStore
unfolding forget
peer_disconnected node_id s = do
  kept ← forget node_id s.peak_to_peer
  ok (record s {
    peer_to_peak =
        if contains node_id s.peer_to_peak then erase node_id s.peer_to_peak else s.peer_to_peak;
    peak_to_peer = kept;
    peers_changed = true;
  })
