-- ===== src/Beacon/Store/Future.antt =====
-- What depends on infusions that are not there yet.
use corpochain_beacon_client.Base.{
  ℕ, ◌+◌, Bool, false, ◌&&◌, ◌||◌, not, none, some, List, [], ◌∷◌, ◌++◌, ltb, ◌==◌, if◌then◌else◌,
  is_some,
}
use corpochain_beacon_client.Base.Dict.{Dict, lookup, contains, insert, erase}
use corpochain_beacon_client.Types.Proofs.{VdfInfo, same_vdf_info}
use corpochain_beacon_client.Beacon.Store.{SignagePoint, InfusionPoint, BeaconStore}

-- `d[key].append(x)`, of a list that is made if it is missing
abbrev pub append_to {ℓ} : {A : Type ℓ} → ℕ → A → Dict (List A) → Dict (List A)
append_to key x d = insert key (elim (lookup key d) [ none ↦ x ∷ [] | some xs ↦ xs ++ x ∷ [] ]) d

abbrev pub add_to_future_ip : InfusionPoint → BeaconStore → BeaconStore
add_to_future_ip ip s = record s {
  future_ip_cache = append_to ip.reward_chain_ip_vdf.challenge ip s.future_ip_cache;
}

abbrev pub cached_at : ℕ → VdfInfo → List (ℕ × SignagePoint) → Bool
cached_at index rc_vdf [] = false
cached_at index rc_vdf (item ∷ items) =
    (item.0 == index && elim item.1.rc_vdf [ none ↦ false | some vdf ↦ same_vdf_info vdf rc_vdf ])
    || cached_at index rc_vdf items

unfoldable pub in_future_sp_cache : SignagePoint → ℕ → BeaconStore → Bool
in_future_sp_cache sp index s = elim sp.rc_vdf [
  | none ↦ false
  | some rc_vdf ↦ elim (lookup rc_vdf.challenge s.future_sp_cache) [
    | none ↦ false
    | some items ↦ cached_at index rc_vdf items
  ]
]

-- The list is made before the entry is looked for in it.
abbrev pub make_list {ℓ} : {A : Type ℓ} → ℕ → Dict (List A) → Dict (List A)
make_list key d = if contains key d then d else insert key [] d

unfoldable pub add_to_future_sp : SignagePoint → ℕ → ℕ → BeaconStore → BeaconStore
unfolding in_future_sp_cache
add_to_future_sp sp index now s =
    if not (is_some sp.cc_vdf) || not (is_some sp.cc_proof) || not (is_some sp.rc_proof)
    then s
    else elim sp.rc_vdf [
      | none ↦ s
      | some rc_vdf ↦
          let made = record s { future_sp_cache = make_list rc_vdf.challenge s.future_sp_cache } in
          if in_future_sp_cache sp index made then made else record made {
            future_cache_key_times = insert rc_vdf.challenge now s.future_cache_key_times;
            future_sp_cache = append_to rc_vdf.challenge (index, sp) made.future_sp_cache;
          }
    ]

-- `remove_keys`
abbrev pub old_keys : ℕ → Dict ℕ → List ℕ
old_keys now [] = []
old_keys now (item ∷ items) =
    if ltb (item.1 + 3600) now then item.0 ∷ old_keys now items else old_keys now items

-- `pop(k, ...)` for each key
abbrev pub erase_all {ℓ} : {V : Type ℓ} → List ℕ → Dict V → Dict V
erase_all [] d = d
erase_all (k ∷ keys) d = erase_all keys (erase k d)

unfoldable pub clear_old_cache_entries : ℕ → BeaconStore → BeaconStore
clear_old_cache_entries now s =
    let remove_keys = old_keys now s.future_cache_key_times in
    record s {
      future_cache_key_times = erase_all remove_keys s.future_cache_key_times;
      future_ip_cache = erase_all remove_keys s.future_ip_cache;
      future_eos_cache = erase_all remove_keys s.future_eos_cache;
      future_sp_cache = erase_all remove_keys s.future_sp_cache;
    }
