-- ===== src/Beacon/Store/SignagePoints/Found.antt =====
-- A signage point that is taken is found again at its index.
use corpochain_beacon_client.Base.{
  ℕ, suc, ◌<◌, ◌≡◌, inl, inr, refl, Bool, true, false, Option, none, some, List, [], ◌∷◌, leb, ◌==◌,
  if◌then◌else◌, length, get_elem?, Result, ok, index_error, assertion_error, ◌>>=◌, ◌>>◌,
  >>=-eq-ok, require, or_raise, or_raise-eq-ok, ok-injective, sym, ◌∙◌, ap, ==_refl, le→leb,
  some_cancel, arith,
}
use corpochain_beacon_client.Base.Slices.{set_slice}
use corpochain_beacon_client.Consensus.Constants.{Constants}
use corpochain_beacon_client.Consensus.Block.{BlockRecord, Blockchain}
use corpochain_beacon_client.Types.Proofs.{VdfInfo}
use corpochain_beacon_client.Types.Blocks.{Hashes}
use corpochain_beacon_client.Beacon.Store.{SignagePoint, SlotEntry, BeaconStore}
use corpochain_beacon_client.Beacon.Store.SignagePoints.{
  Parts, parts_of, new_signage_point, sp_at, find_by_index, get_signage_point_by_index,
}
use corpochain_beacon_client.Beacon.Store.SignagePoints.Filed.{
  set_slice-get_elem?, set_slice-length, if_yes, if_no, Files, new_signage_point-Files,
}

-- The parts are those of the point.
pub parts_of-Whole :
    (sp : SignagePoint) {parts : Parts}
    → parts_of sp ≡ ok parts
    → (sp.cc_vdf ≡ some parts.cc_vdf) × (sp.rc_vdf ≡ some parts.rc_vdf)
unfolding parts_of
parts_of-Whole sp {parts} h =
    let (cc_vdf, a, h1) = >>=-eq-ok (or_raise sp.cc_vdf assertion_error) _ h in
    let (cc_proof, b, h2) = >>=-eq-ok (or_raise sp.cc_proof assertion_error) _ h1 in
    let (rc_vdf, d, h3) = >>=-eq-ok (or_raise sp.rc_vdf assertion_error) _ h2 in
    let (rc_proof, e, h4) = >>=-eq-ok (or_raise sp.rc_proof assertion_error) _ h3 in
    let same = ok-injective h4 in
    (
      or_raise-eq-ok _ _ a ∙ ap (λ (p : Parts). some p.cc_vdf) same,
      or_raise-eq-ok _ _ d ∙ ap (λ (p : Parts). some p.rc_vdf) same,
    )

pub not_zero : (n : ℕ) → 0 < n → (n == 0) ≡ false
not_zero n h = grind arith

module _ (hashes : Hashes) (c : Constants) where
  sp_at-here :
      (index : ℕ) (sp : SignagePoint) (rc_vdf : VdfInfo) (entry : SlotEntry)
      → 0 < index
      → get_elem? entry.sps index ≡ some (some sp)
      → sp.rc_vdf ≡ some rc_vdf
      → sp_at hashes c index rc_vdf.challenge entry ≡ ok (some sp)
  sp_at-here index sp rc_vdf entry pos at is_rc =
      if_no _ _ (index == 0) (not_zero index pos)
      ∙ ap
          (λ here. or_raise here index_error >>= λ here.
            elim here as (λ (x : Option SignagePoint). Result (Option SignagePoint)) [
              | none ↦ ok none
              | some sp ↦ or_raise sp.rc_vdf assertion_error >>= λ vdf.
                  ok (if vdf.challenge == rc_vdf.challenge then some sp else none)
            ])
          at
      ∙ ap
          (λ found. or_raise found assertion_error >>= λ (vdf : VdfInfo).
            ok (if vdf.challenge == rc_vdf.challenge then some sp else none))
          is_rc
      ∙ ap ok (if_yes _ _ (rc_vdf.challenge == rc_vdf.challenge) (==_refl rc_vdf.challenge))

  some_slot :
      {A : Type 0} (slots slots' : List SlotEntry) (k : ℕ) (entry : SlotEntry) (next : Result A)
      → k < length slots
      → slots' ≡ set_slice k (suc k) (entry ∷ []) slots
      → (require (leb 1 (length slots')) assertion_error >> next) ≡ next
  some_slot slots slots' k entry next within same =
      ap (λ b. require b assertion_error >> next)
        (le→leb 1 (length slots')
          (omega (arith, within, ap length same, set_slice-length k entry slots within)))

  module _ (bs : Blockchain) (verify_vdf : VdfInfo → ℕ → List ℕ → ℕ → ℕ → Option Bool)
      (skip_vdf_validation : Bool) where
    -- A signage point that is taken is then found by its challenge, its index and the challenge of
    -- its reward chain.
    pub new_signage_point-get_signage_point_by_index :
        (index : ℕ) (peak : Option BlockRecord) (next_sub_slot_iters : ℕ) (sp : SignagePoint)
        (cc_vdf rc_vdf : VdfInfo) (now : ℕ) (s : BeaconStore) {s' : BeaconStore}
        → sp.cc_vdf ≡ some cc_vdf
        → sp.rc_vdf ≡ some rc_vdf
        → new_signage_point hashes c bs verify_vdf skip_vdf_validation index peak
            next_sub_slot_iters sp now s
          ≡ ok (true, s')
        → get_signage_point_by_index hashes c cc_vdf.challenge index rc_vdf.challenge s'
          ≡ ok (some sp)
    unfolding get_signage_point_by_index
    new_signage_point-get_signage_point_by_index index peak next_sub_slot_iters sp cc_vdf rc_vdf now
          s {s'} is_cc is_rc h =
        filed (
          new_signage_point-Files hashes c bs verify_vdf skip_vdf_validation index peak
            next_sub_slot_iters sp now s h)
      where
        filed :
            Files hashes c index peak next_sub_slot_iters sp s (true, s')
            → (require (leb 1 (length s'.finished_sub_slots)) assertion_error
                >> find_by_index hashes c cc_vdf.challenge index rc_vdf.challenge
                    s'.finished_sub_slots)
              ≡ ok (some sp)
        filed (inl (differs, same)) = cc
        filed
              (inr (
                parts,
                k,
                entry,
                taken,
                whole,
                (at, hash, within, found),
                delta,
                pos,
                inside,
                grown,
              )) =
            let (is_cc', is_rc') = parts_of-Whole sp whole in
            let filled = record entry {
              sps = set_slice index (suc index) (some sp ∷ []) entry.sps;
            } in
            some_slot s.finished_sub_slots s'.finished_sub_slots k filled _ within grown
            ∙ ap
                (λ (v : VdfInfo).
                  find_by_index hashes c v.challenge index rc_vdf.challenge s'.finished_sub_slots)
                (some_cancel (sym is_cc ∙ is_cc'))
            ∙ ap (find_by_index hashes c parts.cc_vdf.challenge index rc_vdf.challenge) grown
            ∙ found index rc_vdf.challenge filled refl
            ∙ sp_at-here index sp rc_vdf filled pos
                (set_slice-get_elem? index (some sp) entry.sps inside) is_rc
