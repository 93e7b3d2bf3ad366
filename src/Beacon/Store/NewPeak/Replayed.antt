-- ===== src/Beacon/Store/NewPeak/Replayed.antt =====
-- Every point stands in the slot of its challenge after a new peak, when it did so before.
use mathlib.Core.Path.{subst}
use corpochain_beacon_client.Base.{
  ℕ, ◌≡◌, refl, Bool, true, false, not, ◌||◌, Option, none, some, List, [], ◌∷◌, leb, ◌==◌,
  if◌then◌else◌, is_some, length, ok, assertion_error, ◌>>◌, >>=-eq-ok, require, ok-injective, sym,
}
use corpochain_beacon_client.Base.Dict.{lookup}
use corpochain_beacon_client.Consensus.Constants.{Constants}
use corpochain_beacon_client.Consensus.Block.{
  BlockRecord, Blockchain, sp_sub_slot_total_iters, ip_sub_slot_total_iters,
}
use corpochain_beacon_client.Types.Proofs.{VdfInfo}
use corpochain_beacon_client.Types.Slots.{EndOfSubSlotBundle}
use corpochain_beacon_client.Types.Blocks.{FullBlock, Hashes}
use corpochain_beacon_client.Util.LruCache as Lru
use corpochain_beacon_client.Beacon.Store.{SignagePoint, InfusionPoint, SlotEntry, BeaconStore}
use corpochain_beacon_client.Beacon.Store.NewPeak.{
  BeaconStorePeakResult, sps_at_peak, sp_slots, slots_at_peak, take_eos, take_sps, waiting,
  pop_future, put_recent_eos, sorted, new_peak,
}
use corpochain_beacon_client.Beacon.Store.NewPeak.Kept.{FiledAt, empty-FiledAt, sps_at_peak-FiledAt}
use corpochain_beacon_client.Beacon.Store.SubSlots.{cc_hash, new_finished_sub_slot}
use corpochain_beacon_client.Beacon.Store.SubSlots.Chained.{new_finished_sub_slot-grows}
use corpochain_beacon_client.Beacon.Store.SignagePoints.{new_signage_point}
use corpochain_beacon_client.Beacon.Store.SignagePoints.Filed.{new_signage_point-Files}
use corpochain_beacon_client.Beacon.Store.SignagePoints.Orderly.{
  AllFiled, AllFiled-snoc, Files-AllFiled, Extends-AllFiled,
}

module _ (hashes : Hashes) (c : Constants) where
  sp_slots-AllFiled :
      (peak : BlockRecord) (sp_sub_slot : Option EndOfSubSlotBundle)
      (sps : List (Option SignagePoint)) {entries : List SlotEntry}
      → FiledAt hashes c sp_sub_slot sps
      → sp_slots c peak sp_sub_slot sps ≡ ok entries
      → AllFiled hashes c entries
  unfolding sp_slots
  sp_slots-AllFiled peak sp_sub_slot sps {entries} is h =
      let (total, e, h1) = >>=-eq-ok (sp_sub_slot_total_iters c peak) _ h in
      choose total (is_some sp_sub_slot || total == 0) h1
    where
      choose :
          (total : ℕ) (own : Bool)
          → (if own
              then require (peak.overflow || not (total == 0)) assertion_error
                >> ok (record { sub_slot = sp_sub_slot; sps = sps; total_iters = total } ∷ [])
              else ok [])
            ≡ ok entries
          → AllFiled hashes c entries
      choose total true h =
          let (u, e, last) =
            >>=-eq-ok (require (peak.overflow || not (total == 0)) assertion_error) _ h in
          subst (AllFiled hashes c) (ok-injective last) (is, tt)
      choose total false h = subst (AllFiled hashes c) (ok-injective h) tt

  slots_at_peak-AllFiled :
      (peak : BlockRecord) (sp_sub_slot ip_sub_slot : Option EndOfSubSlotBundle)
      (fork_block : Option BlockRecord) (s : BeaconStore) {s' : BeaconStore}
      → AllFiled hashes c s.finished_sub_slots
      → slots_at_peak c peak sp_sub_slot ip_sub_slot fork_block s ≡ ok s'
      → AllFiled hashes c s'.finished_sub_slots
  unfolding slots_at_peak
  slots_at_peak-AllFiled peak sp_sub_slot none fork_block s all h =
      subst (λ (x : BeaconStore). AllFiled hashes c x.finished_sub_slots) (ok-injective h)
        (empty-FiledAt hashes c none, tt)
  slots_at_peak-AllFiled peak sp_sub_slot (some ip) fork_block s all h =
      let (sps, e, h1) =
        >>=-eq-ok (sps_at_peak c peak sp_sub_slot (some ip) fork_block s.finished_sub_slots) _ h in
      let (first, e', h2) = >>=-eq-ok (sp_slots c peak sp_sub_slot sps.0) _ h1 in
      let (total, e'', last) = >>=-eq-ok (ip_sub_slot_total_iters c peak) _ h2 in
      let (at_sp, at_ip) =
        sps_at_peak-FiledAt hashes c peak sp_sub_slot (some ip) fork_block s.finished_sub_slots sps
          all e in
      subst (λ (x : BeaconStore). AllFiled hashes c x.finished_sub_slots) (ok-injective last)
        (AllFiled-snoc hashes c first _ (sp_slots-AllFiled peak sp_sub_slot sps.0 at_sp e') at_ip)

  module _ (bs : Blockchain) (verify_vdf : VdfInfo → ℕ → List ℕ → ℕ → ℕ → Option Bool)
      (peak : BlockRecord) (peak_full_block : FullBlock) (now : ℕ) where
    take_eos-AllFiled :
        (slots : List EndOfSubSlotBundle) (s : BeaconStore)
        {r : Option EndOfSubSlotBundle × BeaconStore}
        → AllFiled hashes c s.finished_sub_slots
        → take_eos hashes c bs verify_vdf peak peak_full_block now slots s ≡ ok r
        → AllFiled hashes c r.1.finished_sub_slots
    unfolding take_eos
    take_eos-AllFiled [] s {r} all h =
        subst
          (λ (x : Option EndOfSubSlotBundle × BeaconStore).
            AllFiled hashes c x.1.finished_sub_slots)
          (ok-injective h) all
    take_eos-AllFiled (eos ∷ rest) s {r} all h =
        let (added, e, h1) =
          >>=-eq-ok
            (new_finished_sub_slot hashes c bs verify_vdf eos (some peak) (some peak_full_block) now
              s)
            _ h in
        let kept =
          Extends-AllFiled hashes c eos s added
            (new_finished_sub_slot-grows hashes c bs verify_vdf eos (some peak)
              (some peak_full_block) now s e)
            all in
        choose added.0 added.1 kept (λ s all. take_eos-AllFiled rest s all) h1
      where
        choose :
            (ips : Option (List InfusionPoint)) (s' : BeaconStore)
            → AllFiled hashes c s'.finished_sub_slots
            → ((s : BeaconStore)
                → AllFiled hashes c s.finished_sub_slots
                → take_eos hashes c bs verify_vdf peak peak_full_block now rest s ≡ ok r
                → AllFiled hashes c r.1.finished_sub_slots)
            → elim ips [
              | none ↦ take_eos hashes c bs verify_vdf peak peak_full_block now rest s'
              | some ips ↦ ok (some eos, s')
            ]
              ≡ ok r
            → AllFiled hashes c r.1.finished_sub_slots
        choose none s' all next h = next s' all h
        choose (some ips) s' all next h =
            subst
              (λ (x : Option EndOfSubSlotBundle × BeaconStore).
                AllFiled hashes c x.1.finished_sub_slots)
              (ok-injective h) all

    take_sps-AllFiled :
        (items : List (ℕ × SignagePoint)) (s : BeaconStore)
        {r : List (ℕ × SignagePoint) × BeaconStore}
        → AllFiled hashes c s.finished_sub_slots
        → take_sps hashes c bs verify_vdf peak peak_full_block now items s ≡ ok r
        → AllFiled hashes c r.1.finished_sub_slots
    unfolding take_sps
    take_sps-AllFiled [] s {r} all h =
        subst
          (λ (x : List (ℕ × SignagePoint) × BeaconStore). AllFiled hashes c x.1.finished_sub_slots)
          (ok-injective h) all
    take_sps-AllFiled (item ∷ items) s {r} all h =
        let (u, checked, h1) = >>=-eq-ok (require (is_some item.1.cc_vdf) assertion_error) _ h in
        let (added, e, h2) =
          >>=-eq-ok
            (new_signage_point hashes c bs verify_vdf false item.0 (some peak) peak.sub_slot_iters
              item.1 now s)
            _ h1 in
        let (rest, e', last) =
          >>=-eq-ok (take_sps hashes c bs verify_vdf peak peak_full_block now items added.1) _ h2 in
        let kept =
          Files-AllFiled hashes c item.0 (some peak) peak.sub_slot_iters item.1 s added
            (new_signage_point-Files hashes c bs verify_vdf false item.0 (some peak)
              peak.sub_slot_iters item.1 now s e)
            all in
        subst
          (λ (x : List (ℕ × SignagePoint) × BeaconStore). AllFiled hashes c x.1.finished_sub_slots)
          (ok-injective last) (take_sps-AllFiled items added.1 kept e')

    put_recent_eos-same :
        (entries : List SlotEntry) (s : BeaconStore)
        → (put_recent_eos hashes c bs verify_vdf peak peak_full_block now entries
            s).finished_sub_slots
          ≡ s.finished_sub_slots
    unfolding put_recent_eos
    put_recent_eos-same [] s = refl
    put_recent_eos-same (entry ∷ entries) s =
        choose entry.sub_slot (λ s. put_recent_eos-same entries s)
      where
        choose :
            (o : Option EndOfSubSlotBundle)
            → ((s : BeaconStore)
                → (put_recent_eos hashes c bs verify_vdf peak peak_full_block now entries
                    s).finished_sub_slots
                  ≡ s.finished_sub_slots)
            → (elim o as (λ (x : Option EndOfSubSlotBundle). BeaconStore) [
              | none ↦ put_recent_eos hashes c bs verify_vdf peak peak_full_block now entries s
              | some slot ↦
                  put_recent_eos hashes c bs verify_vdf peak peak_full_block now entries (record s {
                    recent_eos = Lru.put (cc_hash hashes c (some slot)) (slot, now) s.recent_eos;
                  })
            ]).finished_sub_slots
              ≡ s.finished_sub_slots
        choose none next = next s
        choose (some slot) next = next _

    -- A new peak leaves every signage point that stays or comes in the slot of its challenge.
    pub new_peak-AllFiled :
        (sp_sub_slot ip_sub_slot : Option EndOfSubSlotBundle) (fork_block : Option BlockRecord)
        (s : BeaconStore) {r : BeaconStorePeakResult × BeaconStore}
        → AllFiled hashes c s.finished_sub_slots
        → new_peak hashes c bs verify_vdf peak peak_full_block now sp_sub_slot ip_sub_slot
            fork_block s
          ≡ ok r
        → AllFiled hashes c r.1.finished_sub_slots
    unfolding new_peak
    new_peak-AllFiled sp_sub_slot ip_sub_slot fork_block s {r} all h =
        let challenge = peak.reward_infusion_new_challenge in
        let (u, some_slot, h1) =
          >>=-eq-ok (require (leb 1 (length s.finished_sub_slots)) assertion_error) _ h in
        let (kept, e, h2) =
          >>=-eq-ok (slots_at_peak c peak sp_sub_slot ip_sub_slot fork_block s) _ h1 in
        let (eos, e', h3) =
          >>=-eq-ok
            (take_eos hashes c bs verify_vdf peak peak_full_block now
              (waiting (lookup challenge kept.future_eos_cache)) kept)
            _ h2 in
        let (sps, e'', h4) =
          >>=-eq-ok
            (take_sps hashes c bs verify_vdf peak peak_full_block now
              (waiting (lookup challenge eos.1.future_sp_cache)) eos.1)
            _ h3 in
        let (new_sps, e''', last) = >>=-eq-ok (sorted sps.0) _ h4 in
        let all_kept =
          take_sps-AllFiled _ eos.1
            (take_eos-AllFiled _ kept
              (slots_at_peak-AllFiled peak sp_sub_slot ip_sub_slot fork_block s all e) e')
            e'' in
        let popped = pop_future hashes c bs verify_vdf peak peak_full_block now sps.1 in
        subst
          (λ (x : BeaconStorePeakResult × BeaconStore). AllFiled hashes c x.1.finished_sub_slots)
          (ok-injective last)
          (subst (AllFiled hashes c) (sym (put_recent_eos-same popped.finished_sub_slots popped))
            all_kept)
