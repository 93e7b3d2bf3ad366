-- ===== src/Beacon/Store/SubSlots/Chained.antt =====
-- The finished sub-slots in the store follow each other.
use mathlib.Core.Path.{subst}
use corpochain_beacon_client.Base.{
  ℕ, ◌+◌, ◌≡◌, ◌⊎◌, inl, inr, refl, Bool, true, false, not, ◌&&◌, Option, none, some, List, [], ◌∷◌,
  ◌++◌, ◌==◌, if◌then◌else◌, is_some, last?, Result, ok, assertion_error, ◌>>=◌, >>=-eq-ok,
  or_raise, or_raise-eq-ok, ok-injective, sym, ◌∙◌, ap, ==_iff, some_cancel,
}
use corpochain_beacon_client.Ints.{uint}
use corpochain_beacon_client.Ints.Range.{uint-eq-ok}
use corpochain_beacon_client.Consensus.Constants.{Constants}
use corpochain_beacon_client.Consensus.Block.{BlockRecord, Blockchain}
use corpochain_beacon_client.Types.Proofs.{VdfInfo, same_vdf_info}
use corpochain_beacon_client.Types.Slots.{EndOfSubSlotBundle}
use corpochain_beacon_client.Types.Blocks.{FullBlock, Hashes}
use corpochain_beacon_client.Beacon.Store.{InfusionPoint, SlotEntry, BeaconStore, no_sps}
use corpochain_beacon_client.Beacon.Store.SubSlots.{
  cc_hash, is_present, EosStart, Start, refused, deferred, starts, start_of, vdfs_fit, both,
  iters_at, add_slot, defer_slot, append_slot, new_finished_sub_slot,
}

pub and_left : (a b : Bool) → (a && b) ≡ true → a ≡ true
and_left true b h = refl
and_left false b h = cc

pub and_right : (a b : Bool) → (a && b) ≡ true → b ≡ true
and_right true b h = h
and_right false b h = cc

if_true : (b : Bool) (r : Result Bool) → (if b then r else ok false) ≡ ok true → b ≡ true
if_true true r h = refl
if_true false r h = absurd (false_true (ok-injective h))
  where
    false_true : false ≡ true → ⊥
    false_true e = cc

module _ (hashes : Hashes) (c : Constants) where
  -- The end of the entry's sub-slot follows the one before: its challenge, and its iterations.
  abbrev pub Follows : SlotEntry → SlotEntry → Type 0
  Follows before entry =
      (slot : EndOfSubSlotBundle) × (entry.sub_slot ≡ some slot)
      × (slot.challenge_chain.challenge_chain_end_of_slot_vdf.challenge
          ≡ cc_hash hashes c before.sub_slot)
      × (entry.total_iters
          ≡ before.total_iters
            + slot.challenge_chain.challenge_chain_end_of_slot_vdf.number_of_iterations)

  abbrev pub Chained : List SlotEntry → Type 0
  Chained [] = Unit
  Chained (a ∷ []) = Unit
  Chained (a ∷ b ∷ rest) = Follows a b × Chained (b ∷ rest)

  Chained-snoc :
      (entries : List SlotEntry) (last entry : SlotEntry)
      → Chained entries
      → last? entries ≡ some last
      → Follows last entry
      → Chained (entries ++ entry ∷ [])
  Chained-snoc [] last entry chained e f = cc
  Chained-snoc (a ∷ []) last entry chained e f =
      (subst (λ l. Follows l entry) (sym (some_cancel e)) f, tt)
  Chained-snoc (a ∷ b ∷ rest) last entry (link, chained) e f =
      (link, Chained-snoc (b ∷ rest) last entry chained e f)

  -- What the call leaves: the same slots, or one more that follows.
  abbrev pub Extends :
      EndOfSubSlotBundle → BeaconStore → Option (List InfusionPoint) × BeaconStore → Type 0
  Extends eos s (added, s') =
      (s'.finished_sub_slots ≡ s.finished_sub_slots)
      ⊎ ((last : SlotEntry) × (entry : SlotEntry) × (last? s.finished_sub_slots ≡ some last)
          × Follows last entry
          × (entry.sub_slot ≡ some eos)
          × (entry.sps ≡ no_sps c.num_sps_sub_slot)
          × (s'.finished_sub_slots ≡ s.finished_sub_slots ++ entry ∷ [])
          × (is_some added ≡ true))

  Extends-Chained :
      (eos : EndOfSubSlotBundle) (s : BeaconStore) (r : Option (List InfusionPoint) × BeaconStore)
      → Extends eos s r
      → Chained s.finished_sub_slots
      → Chained r.1.finished_sub_slots
  Extends-Chained eos s r (inl same) chained = subst Chained (sym same) chained
  Extends-Chained eos s r (inr (last, entry, at, follows, is_eos, sps, grown, added)) chained =
      subst Chained (sym grown) (Chained-snoc s.finished_sub_slots last entry chained at follows)

  module _ (bs : Blockchain) (verify_vdf : VdfInfo → ℕ → List ℕ → ℕ → ℕ → Option Bool) where
    fits_whole :
        (start : EosStart) (challenge sub_slot_iters : ℕ) (eos : EndOfSubSlotBundle)
        → vdfs_fit hashes c verify_vdf start challenge sub_slot_iters eos ≡ ok true
        → eos.challenge_chain.challenge_chain_end_of_slot_vdf.number_of_iterations ≡ sub_slot_iters
    unfolding vdfs_fit
    fits_whole start challenge sub_slot_iters eos h =
        let vdf = eos.challenge_chain.challenge_chain_end_of_slot_vdf in
        let fits = and_left _ _ (if_true _ _ h) in
        let info = and_left (same_vdf_info vdf _) _ fits in
        (==_iff _ _).0 (and_left _ _ (and_right (vdf.challenge == challenge) _ info))

    append_slot-Extends :
        (eos : EndOfSubSlotBundle) (pair : Option (BlockRecord × FullBlock)) (last : SlotEntry)
        (now : ℕ) (s : BeaconStore) (r : Option (List InfusionPoint) × BeaconStore)
        → last? s.finished_sub_slots ≡ some last
        → eos.challenge_chain.challenge_chain_end_of_slot_vdf.challenge
          ≡ cc_hash hashes c last.sub_slot
        → append_slot hashes c bs verify_vdf eos pair last now s ≡ ok r
        → Extends eos s r
    unfolding append_slot
    append_slot-Extends eos pair last now s r at linked h =
        let iters = iters_at c pair in
        let (total, e, h1) = >>=-eq-ok (uint 128 (last.total_iters + iters)) _ h in
        let (start, e', h2) = >>=-eq-ok (start_of hashes c bs eos pair last iters total) _ h1 in
        from start total (uint-eq-ok 128 (last.total_iters + iters) e).0 h2
      where
        from :
            (start : Start) (total : ℕ)
            → total ≡ last.total_iters + iters_at c pair
            → (elim start [
              | refused ↦ ok (none, s)
              | deferred rc_challenge ↦
                  ok (none, defer_slot hashes c bs verify_vdf rc_challenge eos now s)
              | starts vdfs ↦
                  vdfs_fit hashes c verify_vdf vdfs
                    (cc_hash hashes c last.sub_slot)
                    (iters_at c pair)
                    eos
                  >>= λ fit.
                      ok
                        (if fit then add_slot hashes c bs verify_vdf eos total now s else (none, s))
            ])
              ≡ ok r
            → Extends eos s r
        from refused total t h = subst (Extends eos s) (ok-injective h) (inl refl)
        from (deferred rc) total t h = subst (Extends eos s) (ok-injective h) (inl refl)
        from (starts vdfs) total t h =
            let (fit, e, last_step) =
              >>=-eq-ok
                (vdfs_fit hashes c verify_vdf vdfs (cc_hash hashes c last.sub_slot)
                  (iters_at c pair) eos)
                (λ fit.
                  ok (if fit then add_slot hashes c bs verify_vdf eos total now s else (none, s)))
                h in
            subst (Extends eos s) (ok-injective last_step) (finish fit total t e)
          where
            finish :
                (fit : Bool) (total : ℕ)
                → total ≡ last.total_iters + iters_at c pair
                → vdfs_fit hashes c verify_vdf vdfs
                    (cc_hash hashes c last.sub_slot)
                    (iters_at c pair)
                    eos
                  ≡ ok fit
                → Extends eos s
                    (if fit then add_slot hashes c bs verify_vdf eos total now s else (none, s))
            finish false total t e = inl refl
            finish true total t e = inr (
              last,
              record { sub_slot = some eos; sps = no_sps c.num_sps_sub_slot; total_iters = total },
              at,
              (
                eos,
                refl,
                linked,
                t
                    ∙ ap (◌+◌ last.total_iters) (
                        sym (
                          fits_whole vdfs (cc_hash hashes c last.sub_slot) (iters_at c pair) eos
                            e)),
              ),
              refl,
              refl,
              refl,
              refl,
            )

    pub new_finished_sub_slot-grows :
        (eos : EndOfSubSlotBundle) (peak : Option BlockRecord) (peak_full_block : Option FullBlock)
        (now : ℕ) (s : BeaconStore) {r : Option (List InfusionPoint) × BeaconStore}
        → new_finished_sub_slot hashes c bs verify_vdf eos peak peak_full_block now s ≡ ok r
        → Extends eos s r
    unfolding new_finished_sub_slot
    new_finished_sub_slot-grows eos peak peak_full_block now s {r} h =
        let (last, e, h1) = >>=-eq-ok (or_raise (last? s.finished_sub_slots) assertion_error) _ h in
        let (pair, e', h2) = >>=-eq-ok (both peak peak_full_block) _ h1 in
        branch last pair (or_raise-eq-ok _ assertion_error e) h2
      where
        present : Bool
        present = is_present eos s.finished_sub_slots

        branch :
            (last : SlotEntry) (pair : Option (BlockRecord × FullBlock))
            → last? s.finished_sub_slots ≡ some last
            → (if is_present eos s.finished_sub_slots
                then ok (some [], s)
                else if not (
                    eos.challenge_chain.challenge_chain_end_of_slot_vdf.challenge
                    == cc_hash hashes c last.sub_slot)
                then ok (none, s)
                else append_slot hashes c bs verify_vdf eos pair last now s)
              ≡ ok r
            → Extends eos s r
        branch last pair at h =
            split present
              (eos.challenge_chain.challenge_chain_end_of_slot_vdf.challenge
                == cc_hash hashes c last.sub_slot)
              refl h
          where
            split :
                (here linked : Bool)
                → linked ≡ (
                    eos.challenge_chain.challenge_chain_end_of_slot_vdf.challenge
                    == cc_hash hashes c last.sub_slot)
                → (if here
                    then ok (some [], s)
                    else if not linked
                    then ok (none, s)
                    else append_slot hashes c bs verify_vdf eos pair last now s)
                  ≡ ok r
                → Extends eos s r
            split true linked e h = subst (Extends eos s) (ok-injective h) (inl refl)
            split false false e h = subst (Extends eos s) (ok-injective h) (inl refl)
            split false true e h =
                append_slot-Extends eos pair last now s r at ((==_iff _ _).0 (sym e)) h

    -- A finished sub-slot leaves the slots of the store as they were, or it puts itself at the end,
    -- with no signage point yet, and follows the one before it: its challenge is that one's hash (or
    -- the genesis challenge), its total iterations are that one's and those of its VDF. The call then
    -- returns a list. Slots that followed each other still do.
    pub new_finished_sub_slot-Extends :
        (eos : EndOfSubSlotBundle) (peak : Option BlockRecord) (peak_full_block : Option FullBlock)
        (now : ℕ) (s : BeaconStore) {r : Option (List InfusionPoint) × BeaconStore}
        → Chained s.finished_sub_slots
        → new_finished_sub_slot hashes c bs verify_vdf eos peak peak_full_block now s ≡ ok r
        → Extends eos s r × Chained r.1.finished_sub_slots
    new_finished_sub_slot-Extends eos peak peak_full_block now s {r} chained h =
        let grown = new_finished_sub_slot-grows eos peak peak_full_block now s h in
        (grown, Extends-Chained eos s r grown chained)
