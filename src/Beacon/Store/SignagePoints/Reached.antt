-- ===== src/Beacon/Store/SignagePoints/Reached.antt =====
-- The slots of the store as its calls change them, from the store at the start, and what the search
-- by index finds in them.
use mathlib.Core.Path.{subst}
use corpochain_beacon_client.Base.{
  ℕ, ◌<◌, ◌≡◌, refl, Bool, true, false, Option, none, some, List, [], ◌∷◌, leb, ◌==◌, if◌then◌else◌,
  length, get_elem?, ok, index_error, assertion_error, ◌>>=◌, >>=-eq-ok, require, or_raise,
  or_raise-eq-ok, ok-injective, sym, ◌∙◌, ==_iff, some_cancel,
}
use corpochain_beacon_client.Consensus.Constants.{Constants}
use corpochain_beacon_client.Consensus.Block.{BlockRecord, Blockchain}
use corpochain_beacon_client.Types.Proofs.{VdfInfo}
use corpochain_beacon_client.Types.Slots.{EndOfSubSlotBundle}
use corpochain_beacon_client.Types.Blocks.{FullBlock, Hashes}
use corpochain_beacon_client.Beacon.Store.{
  SignagePoint, InfusionPoint, SlotEntry, BeaconStore, no_sps, init,
}
use corpochain_beacon_client.Beacon.Store.Future.{add_to_future_ip, clear_old_cache_entries}
use corpochain_beacon_client.Beacon.Store.SubSlots.{cc_hash, new_finished_sub_slot}
use corpochain_beacon_client.Beacon.Store.SubSlots.Chained.{new_finished_sub_slot-grows}
use corpochain_beacon_client.Beacon.Store.NewPeak.{BeaconStorePeakResult, new_peak}
use corpochain_beacon_client.Beacon.Store.NewPeak.Replayed.{new_peak-AllFiled}
use corpochain_beacon_client.Beacon.Store.SignagePoints.{
  new_signage_point, sp_at, find_by_index, get_signage_point_by_index,
}
use corpochain_beacon_client.Beacon.Store.SignagePoints.Filed.{if_no, new_signage_point-Files}
use corpochain_beacon_client.Beacon.Store.SignagePoints.Found.{not_zero}
use corpochain_beacon_client.Beacon.Store.SignagePoints.Orderly.{
  IsFiled, AllFiled, empty-IsFiled, Files-AllFiled, Extends-AllFiled,
}

module _ (hashes : Hashes) (c : Constants) where
  -- The calls that change the slots or the caches of what waits for an infusion.
  pub data Call : BeaconStore → BeaconStore → Type 0 where
    finished :
        {s : BeaconStore} {r : Option (List InfusionPoint) × BeaconStore} (bs : Blockchain)
        (verify_vdf : VdfInfo → ℕ → List ℕ → ℕ → ℕ → Option Bool) (eos : EndOfSubSlotBundle)
        (peak : Option BlockRecord) (peak_full_block : Option FullBlock) (now : ℕ)
        → new_finished_sub_slot hashes c bs verify_vdf eos peak peak_full_block now s ≡ ok r
        → Call s r.1
    signaged :
        {s : BeaconStore} {r : Bool × BeaconStore} (bs : Blockchain)
        (verify_vdf : VdfInfo → ℕ → List ℕ → ℕ → ℕ → Option Bool) (skip_vdf_validation : Bool)
        (index : ℕ) (peak : Option BlockRecord) (next_sub_slot_iters : ℕ) (sp : SignagePoint)
        (now : ℕ)
        → new_signage_point hashes c bs verify_vdf skip_vdf_validation index peak
            next_sub_slot_iters sp now s
          ≡ ok r
        → Call s r.1
    peaked :
        {s : BeaconStore} {r : BeaconStorePeakResult × BeaconStore} (bs : Blockchain)
        (verify_vdf : VdfInfo → ℕ → List ℕ → ℕ → ℕ → Option Bool) (peak : BlockRecord)
        (peak_full_block : FullBlock) (now : ℕ)
        (sp_sub_slot ip_sub_slot : Option EndOfSubSlotBundle) (fork_block : Option BlockRecord)
        → new_peak hashes c bs verify_vdf peak peak_full_block now sp_sub_slot ip_sub_slot
            fork_block s
          ≡ ok r
        → Call s r.1
    infused : {s : BeaconStore} (ip : InfusionPoint) → Call s (add_to_future_ip ip s)
    cleared : {s : BeaconStore} (now : ℕ) → Call s (clear_old_cache_entries now s)

  pub data Reached : BeaconStore → Type 0 where
    started : Reached (init c)
    called : {s s' : BeaconStore} → Reached s → Call s s' → Reached s'

  Call-AllFiled :
      {s s' : BeaconStore}
      → Call s s'
      → AllFiled hashes c s.finished_sub_slots
      → AllFiled hashes c s'.finished_sub_slots
  unfolding clear_old_cache_entries
  Call-AllFiled {s} (finished {r = r} bs verify_vdf eos peak peak_full_block now h) all =
      Extends-AllFiled hashes c eos s r
        (new_finished_sub_slot-grows hashes c bs verify_vdf eos peak peak_full_block now s h) all
  Call-AllFiled {s}
        (signaged {r = r} bs verify_vdf skip_vdf_validation index peak next_sub_slot_iters sp now h)
        all =
      Files-AllFiled hashes c index peak next_sub_slot_iters sp s r
        (new_signage_point-Files hashes c bs verify_vdf skip_vdf_validation index peak
          next_sub_slot_iters sp now s h)
        all
  Call-AllFiled {s}
        (peaked {r = r} bs verify_vdf peak peak_full_block now sp_sub_slot ip_sub_slot fork_block h)
        all =
      new_peak-AllFiled hashes c bs verify_vdf peak peak_full_block now sp_sub_slot ip_sub_slot
        fork_block s all h
  Call-AllFiled (infused ip) all = all
  Call-AllFiled (cleared now) all = all

  -- In every store that the calls lead to from the start, each slot has a place for every signage
  -- point, and a point stands only in the slot of its challenge, not at index 0.
  pub Reached-AllFiled : (s : BeaconStore) → Reached s → AllFiled hashes c s.finished_sub_slots
  Reached-AllFiled _ started = (
    empty-IsFiled hashes c
        (record { sub_slot = none; sps = no_sps c.num_sps_sub_slot; total_iters = 0 }) refl,
    tt,
  )
  Reached-AllFiled _ (called {s} reached call) = Call-AllFiled call (Reached-AllFiled s reached)

  -- A point as it was asked for, by the challenge of its slot and that of its reward chain.
  abbrev pub IsAsked : ℕ → ℕ → SignagePoint → Type 0
  IsAsked challenge rc sp =
      (cc_vdf : VdfInfo) × (rc_vdf : VdfInfo) × (sp.cc_vdf ≡ some cc_vdf)
      × (sp.rc_vdf ≡ some rc_vdf)
      × (cc_vdf.challenge ≡ challenge)
      × (rc_vdf.challenge ≡ rc)

  sp_at-IsAsked :
      (challenge index rc : ℕ) (entry : SlotEntry) (sp : SignagePoint)
      → 0 < index
      → IsFiled hashes c entry
      → cc_hash hashes c entry.sub_slot ≡ challenge
      → sp_at hashes c index rc entry ≡ ok (some sp)
      → IsAsked challenge rc sp
  sp_at-IsAsked challenge index rc entry sp pos is hash h =
      let (here, at, h1) =
        >>=-eq-ok (or_raise (get_elem? entry.sps index) index_error) _
          (sym (if_no _ _ (index == 0) (not_zero index pos)) ∙ h) in
      there here (or_raise-eq-ok _ _ at) h1
    where
      none_some : ◌≡◌ {A = Option SignagePoint} none (some sp) → ⊥
      none_some e = cc

      right :
          (other : SignagePoint) (vdf : VdfInfo) (same : Bool)
          → same ≡ (vdf.challenge == rc)
          → get_elem? entry.sps index ≡ some (some other)
          → other.rc_vdf ≡ some vdf
          → (if same then some other else none) ≡ some sp
          → IsAsked challenge rc sp
      right other vdf false same at is_rc e = absurd (none_some e)
      right other vdf true same at is_rc e =
          let (above, cc_vdf, rc_vdf, is_cc, is_rc', slot) = is.1 index other at in
          subst (IsAsked challenge rc) (some_cancel e)
            (cc_vdf, vdf, is_cc, is_rc, slot ∙ hash, (==_iff _ _).0 (sym same))

      there :
          (here : Option SignagePoint)
          → get_elem? entry.sps index ≡ some here
          → elim here [
            | none ↦ ok none
            | some other ↦ or_raise other.rc_vdf assertion_error >>= λ vdf.
                ok (if vdf.challenge == rc then some other else none)
          ]
            ≡ ok (some sp)
          → IsAsked challenge rc sp
      there none at h = absurd (none_some (ok-injective h))
      there (some other) at h =
          let (vdf, is_rc, last) = >>=-eq-ok (or_raise other.rc_vdf assertion_error) _ h in
          right other vdf (vdf.challenge == rc) refl at (or_raise-eq-ok _ _ is_rc)
            (ok-injective last)

  find_by_index-IsAsked :
      (challenge index rc : ℕ) (entries : List SlotEntry) (sp : SignagePoint)
      → 0 < index
      → AllFiled hashes c entries
      → find_by_index hashes c challenge index rc entries ≡ ok (some sp)
      → IsAsked challenge rc sp
  find_by_index-IsAsked challenge index rc [] sp pos all h = absurd (none_some (ok-injective h))
    where
      none_some : ◌≡◌ {A = Option SignagePoint} none (some sp) → ⊥
      none_some e = cc
  find_by_index-IsAsked challenge index rc (entry ∷ entries) sp pos (first, all) h =
      choose (cc_hash hashes c entry.sub_slot == challenge) refl
        (find_by_index-IsAsked challenge index rc entries sp pos all) h
    where
      choose :
          (same : Bool)
          → same ≡ (cc_hash hashes c entry.sub_slot == challenge)
          → (find_by_index hashes c challenge index rc entries ≡ ok (some sp)
              → IsAsked challenge rc sp)
          → (if same
              then sp_at hashes c index rc entry
              else find_by_index hashes c challenge index rc entries)
            ≡ ok (some sp)
          → IsAsked challenge rc sp
      choose true same rest h =
          sp_at-IsAsked challenge index rc entry sp pos first ((==_iff _ _).0 (sym same)) h
      choose false same rest h = rest h

  -- In every store that the calls lead to from the start, a signage point that is found by an index
  -- above 0 has the challenge that was asked for, and its reward chain the one of the infusion.
  pub Reached-get_signage_point_by_index :
      (s : BeaconStore) (challenge_hash index last_rc_infusion : ℕ) {sp : SignagePoint}
      → Reached s
      → 0 < index
      → get_signage_point_by_index hashes c challenge_hash index last_rc_infusion s ≡ ok (some sp)
      → IsAsked challenge_hash last_rc_infusion sp
  unfolding get_signage_point_by_index
  Reached-get_signage_point_by_index s challenge index rc {sp} reached pos h =
      let (u, some_slot, h1) =
        >>=-eq-ok (require (leb 1 (length s.finished_sub_slots)) assertion_error) _ h in
      find_by_index-IsAsked challenge index rc s.finished_sub_slots sp pos
        (Reached-AllFiled s reached) h1
