-- ===== src/Beacon/Store/SignagePoints/Orderly.antt =====
-- Slots of the store that follow each other, with every signage point in the slot of its challenge,
-- and what keeps them so.
use mathlib.Core.Path.{subst}
use corpochain_beacon_client.Base.{
  ℕ, zero, suc, ◌<◌, ◌≡◌, ◌⊎◌, inl, inr, refl, Bool, Option, none, some, List, [], ◌∷◌, ◌++◌,
  length, get_elem?, sym, ◌∙◌, ap, some_cancel, arith,
}
use corpochain_beacon_client.Base.Slices.{set_slice}
use corpochain_beacon_client.Consensus.Constants.{Constants}
use corpochain_beacon_client.Consensus.Block.{BlockRecord}
use corpochain_beacon_client.Types.Proofs.{VdfInfo}
use corpochain_beacon_client.Types.Slots.{EndOfSubSlotBundle}
use corpochain_beacon_client.Types.Blocks.{Hashes}
use corpochain_beacon_client.Beacon.Store.{
  SignagePoint, InfusionPoint, SlotEntry, BeaconStore, no_sps,
}
use corpochain_beacon_client.Beacon.Store.SubSlots.{cc_hash}
use corpochain_beacon_client.Beacon.Store.SubSlots.Chained.{Follows, Chained, Extends}
use corpochain_beacon_client.Beacon.Store.SignagePoints.Filed.{set_slice-length, Files}
use corpochain_beacon_client.Beacon.Store.SignagePoints.Found.{parts_of-Whole}

no_sps-length : (n : ℕ) → length (no_sps n) ≡ n
no_sps-length zero = refl
no_sps-length (suc n) = ap suc (no_sps-length n)

no_sps-empty : (n k : ℕ) (sp : SignagePoint) → get_elem? (no_sps n) k ≡ some (some sp) → ⊥
no_sps-empty zero k sp h = cc
no_sps-empty (suc n) zero sp h = none_some (some_cancel h)
  where
    none_some : ◌≡◌ {A = Option SignagePoint} none (some sp) → ⊥
    none_some e = cc
no_sps-empty (suc n) (suc k) sp h = no_sps-empty n k sp h

-- Another entry is one of those that were there.
set_slice-cases :
    {A : Type 0} (i : ℕ) (x : A) (xs : List A) (k : ℕ) (y : A)
    → i < length xs
    → get_elem? (set_slice i (suc i) (x ∷ []) xs) k ≡ some y
    → ((k ≡ i) × (x ≡ y)) ⊎ (get_elem? xs k ≡ some y)
set_slice-cases i x [] k y h e = absurd (omega arith)
set_slice-cases zero x (z ∷ xs) zero y h e = inl (refl, some_cancel e)
set_slice-cases zero x (z ∷ xs) (suc k) y h e = inr e
set_slice-cases (suc i) x (z ∷ xs) zero y h e = inr e
set_slice-cases (suc i) x (z ∷ xs) (suc k) y h e = next (set_slice-cases i x xs k y (omega arith) e)
  where
    next :
        ((k ≡ i) × (x ≡ y)) ⊎ (get_elem? xs k ≡ some y)
        → ((suc k ≡ suc i) × (x ≡ y)) ⊎ (get_elem? xs k ≡ some y)
    next (inl (same, is)) = inl (ap suc same, is)
    next (inr there) = inr there

module _ (hashes : Hashes) (c : Constants) where
  -- The point has the challenge of the slot and is not at its end.
  abbrev pub Fits : SlotEntry → ℕ → SignagePoint → Type 0
  Fits entry k sp =
      (0 < k)
      × (cc_vdf : VdfInfo) × (rc_vdf : VdfInfo) × (sp.cc_vdf ≡ some cc_vdf)
      × (sp.rc_vdf ≡ some rc_vdf)
      × (cc_vdf.challenge ≡ cc_hash hashes c entry.sub_slot)

  abbrev pub IsFiled : SlotEntry → Type 0
  IsFiled entry =
      (length entry.sps ≡ c.num_sps_sub_slot)
      × ((k : ℕ) (sp : SignagePoint) → get_elem? entry.sps k ≡ some (some sp) → Fits entry k sp)

  abbrev pub AllFiled : List SlotEntry → Type 0
  AllFiled [] = Unit
  AllFiled (entry ∷ entries) = IsFiled entry × AllFiled entries

  pub empty-IsFiled : (entry : SlotEntry) → entry.sps ≡ no_sps c.num_sps_sub_slot → IsFiled entry
  empty-IsFiled entry e = (
    ap length e ∙ no_sps-length c.num_sps_sub_slot,
    λ k sp at.
        absurd
          (no_sps-empty c.num_sps_sub_slot k sp (subst (λ l. get_elem? l k ≡ some (some sp)) e at)),
  )

  AllFiled-at :
      (entries : List SlotEntry) (k : ℕ) (entry : SlotEntry)
      → AllFiled entries
      → get_elem? entries k ≡ some entry
      → IsFiled entry
  AllFiled-at [] k entry all at = cc
  AllFiled-at (e ∷ entries) zero entry (first, all) at = subst IsFiled (some_cancel at) first
  AllFiled-at (e ∷ entries) (suc k) entry (first, all) at = AllFiled-at entries k entry all at

  AllFiled-set :
      (entries : List SlotEntry) (k : ℕ) (entry : SlotEntry)
      → AllFiled entries
      → IsFiled entry
      → AllFiled (set_slice k (suc k) (entry ∷ []) entries)
  AllFiled-set [] zero entry all is = (is, tt)
  AllFiled-set [] (suc k) entry all is = (is, tt)
  AllFiled-set (e ∷ entries) zero entry (first, all) is = (is, all)
  AllFiled-set (e ∷ entries) (suc k) entry (first, all) is =
      (first, AllFiled-set entries k entry all is)

  pub AllFiled-snoc :
      (entries : List SlotEntry) (entry : SlotEntry)
      → AllFiled entries
      → IsFiled entry
      → AllFiled (entries ++ entry ∷ [])
  AllFiled-snoc [] entry all is = (is, tt)
  AllFiled-snoc (e ∷ entries) entry (first, all) is = (first, AllFiled-snoc entries entry all is)

  -- The slots stay chained when the points of one of them change.
  Chained-set :
      (entries : List SlotEntry) (k : ℕ) (entry : SlotEntry) (sps : List (Option SignagePoint))
      → get_elem? entries k ≡ some entry
      → Chained hashes c entries
      → Chained hashes c (set_slice k (suc k) (record entry { sps = sps } ∷ []) entries)
  Chained-set [] k entry sps at chained = cc
  Chained-set (a ∷ []) zero entry sps at chained = tt
  Chained-set (a ∷ []) (suc k) entry sps at chained = cc
  Chained-set (a ∷ b ∷ rest) zero entry sps at (link, chained) =
      (subst (λ e. Follows hashes c (record e { sps = sps }) b) (some_cancel at) link, chained)
  Chained-set (a ∷ b ∷ rest) (suc zero) entry sps at (link, chained) = (
    subst (λ e. Follows hashes c a (record e { sps = sps })) (some_cancel at) link,
    Chained-set (b ∷ rest) zero entry sps at chained,
  )
  Chained-set (a ∷ b ∷ rest) (suc (suc k)) entry sps at (link, chained) =
      (link, Chained-set (b ∷ rest) (suc k) entry sps at chained)

  pub Files-AllFiled :
      (index : ℕ) (peak : Option BlockRecord) (next_sub_slot_iters : ℕ) (sp : SignagePoint)
      (s : BeaconStore) (r : Bool × BeaconStore)
      → Files hashes c index peak next_sub_slot_iters sp s r
      → AllFiled s.finished_sub_slots
      → AllFiled r.1.finished_sub_slots
  Files-AllFiled index peak next_sub_slot_iters sp s r (inl (taken, same)) all =
      subst AllFiled (sym same) all
  Files-AllFiled index peak next_sub_slot_iters sp s r
        (inr (parts, k, entry, taken, whole, (at, hash, within, found), delta, pos, inside, grown))
        all =
      let (whole_length, points) = AllFiled-at s.finished_sub_slots k entry all at in
      let (is_cc, is_rc) = parts_of-Whole sp whole in
      let sps = set_slice index (suc index) (some sp ∷ []) entry.sps in
      let filled = record entry { sps = sps } in
      let fits : (j : ℕ) (other : SignagePoint)
          → get_elem? sps j ≡ some (some other)
          → Fits filled j other =
        λ j other e. elim (set_slice-cases index (some sp) entry.sps j (some other) inside e) [
          | inl (j_index, same) ↦
              subst (Fits filled j) (some_cancel same)
                (omega (arith, j_index, pos), parts.cc_vdf, parts.rc_vdf, is_cc, is_rc, sym hash)
          | inr there ↦ points j other there
        ] in
      subst AllFiled (sym grown) (
        AllFiled-set s.finished_sub_slots k filled all
          (set_slice-length index (some sp) entry.sps inside ∙ whole_length, fits))

  -- A signage point leaves slots that follow each other so.
  pub Files-Chained :
      (index : ℕ) (peak : Option BlockRecord) (next_sub_slot_iters : ℕ) (sp : SignagePoint)
      (s : BeaconStore) (r : Bool × BeaconStore)
      → Files hashes c index peak next_sub_slot_iters sp s r
      → Chained hashes c s.finished_sub_slots
      → Chained hashes c r.1.finished_sub_slots
  Files-Chained index peak next_sub_slot_iters sp s r (inl (taken, same)) chained =
      subst (Chained hashes c) (sym same) chained
  Files-Chained index peak next_sub_slot_iters sp s r
        (inr (parts, k, entry, taken, whole, (at, hash, within, found), delta, pos, inside, grown))
        chained =
      subst (Chained hashes c) (sym grown) (
        Chained-set s.finished_sub_slots k entry
          (set_slice index (suc index) (some sp ∷ []) entry.sps) at chained)

  pub Extends-AllFiled :
      (eos : EndOfSubSlotBundle) (s : BeaconStore) (r : Option (List InfusionPoint) × BeaconStore)
      → Extends hashes c eos s r
      → AllFiled s.finished_sub_slots
      → AllFiled r.1.finished_sub_slots
  Extends-AllFiled eos s r (inl same) all = subst AllFiled (sym same) all
  Extends-AllFiled eos s r (inr (last, entry, at, follows, is_eos, sps, grown, added)) all =
      subst AllFiled (sym grown)
        (AllFiled-snoc s.finished_sub_slots entry all (empty-IsFiled entry sps))
