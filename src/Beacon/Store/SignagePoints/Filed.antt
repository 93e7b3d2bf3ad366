-- ===== src/Beacon/Store/SignagePoints/Filed.antt =====
-- What a new signage point leaves of the slots of the store: nothing changes, or the point is put
-- at its index into the first slot with its challenge.
use mathlib.Core.Path.{subst}
use corpochain_beacon_client.Base.{
  ℕ, zero, suc, ◌+◌, ◌<◌, ◌≡◌, ◌⊎◌, inl, inr, refl, Bool, true, false, ◌||◌, Option, none, some,
  List, [], ◌∷◌, ltb, leb, ◌==◌, if◌then◌else◌, length, get_elem?, is_some, ok, index_error,
  assertion_error, ◌>>=◌, >>=-eq-ok, require, require-eq-ok, ltb→lt, ok-injective, sym, ◌∙◌, ap,
  ==_iff, some_cancel, arith,
}
use corpochain_beacon_client.Base.Slices.{set_slice}
use corpochain_beacon_client.Base.Dict.{insert}
use corpochain_beacon_client.Consensus.Constants.{Constants}
use corpochain_beacon_client.Consensus.Block.{BlockRecord, Blockchain}
use corpochain_beacon_client.Types.Proofs.{VdfInfo, same_vdf_info}
use corpochain_beacon_client.Types.Blocks.{Hashes}
use corpochain_beacon_client.Beacon.Store.{SignagePoint, SlotEntry, BeaconStore}
use corpochain_beacon_client.Beacon.Store.Future.{
  add_to_future_sp, in_future_sp_cache, make_list, append_to,
}
use corpochain_beacon_client.Beacon.Store.SubSlots.{cc_hash}
use corpochain_beacon_client.Beacon.Store.SubSlots.Chained.{and_left, and_right}
use corpochain_beacon_client.Beacon.Store.SignagePoints.{
  Parts, parts_of, SpStart, find_entry, delta_iters, sp_start, sp_fits, file_sp, place_sp,
  new_signage_point, sp_at, find_by_index,
}

module _ {ℓ} {A : Type ℓ} where
  pub set_slice-get_elem? :
      (k : ℕ) (x : A) (xs : List A)
      → k < length xs
      → get_elem? (set_slice k (suc k) (x ∷ []) xs) k ≡ some x
  set_slice-get_elem? zero x [] h = absurd (omega arith)
  set_slice-get_elem? zero x (y ∷ xs) h = refl
  set_slice-get_elem? (suc k) x [] h = absurd (omega arith)
  set_slice-get_elem? (suc k) x (y ∷ xs) h = set_slice-get_elem? k x xs (omega arith)

  pub set_slice-length :
      (k : ℕ) (x : A) (xs : List A)
      → k < length xs
      → length (set_slice k (suc k) (x ∷ []) xs) ≡ length xs
  set_slice-length zero x [] h = absurd (omega arith)
  set_slice-length zero x (y ∷ xs) h = refl
  set_slice-length (suc k) x [] h = absurd (omega arith)
  set_slice-length (suc k) x (y ∷ xs) h = ap suc (set_slice-length k x xs (omega arith))

pub if_yes {ℓ} : {A : Type ℓ} (x y : A) (b : Bool) → b ≡ true → (if b then x else y) ≡ x
if_yes x y true h = refl
if_yes x y false h = cc

pub if_no {ℓ} : {A : Type ℓ} (x y : A) (b : Bool) → b ≡ false → (if b then x else y) ≡ y
if_no x y true h = cc
if_no x y false h = refl

in_range : (index bound : ℕ) → (index == 0 || leb bound index) ≡ false → 0 < index
in_range zero bound h = cc
in_range (suc index) bound h = omega arith

zero_plus : (k n : ℕ) → n ≡ 0 + k → k ≡ n
zero_plus k n h = omega (arith, h)

module _ (hashes : Hashes) (c : Constants) where
  -- The place of the first slot with the hash, and what the search by index sees when the slot there
  -- is another one with the same end.
  abbrev pub IsFirst : ℕ → List SlotEntry → ℕ → SlotEntry → Type 0
  IsFirst challenge entries k entry =
      (get_elem? entries k ≡ some entry)
      × (cc_hash hashes c entry.sub_slot ≡ challenge)
      × (k < length entries)
      × ((index rc : ℕ) (filled : SlotEntry)
          → filled.sub_slot ≡ entry.sub_slot
          → find_by_index hashes c challenge index rc (set_slice k (suc k) (filled ∷ []) entries)
            ≡ sp_at hashes c index rc filled)

  find_entry-IsFirst :
      (challenge i : ℕ) (entries : List SlotEntry) (place : ℕ × SlotEntry)
      → find_entry hashes c challenge i entries ≡ ok (some place)
      → (k : ℕ) × (place.0 ≡ i + k) × IsFirst challenge entries k place.1
  find_entry-IsFirst challenge i [] place h = absurd (none_some (ok-injective h))
    where
      none_some : ◌≡◌ {A = Option (ℕ × SlotEntry)} none (some place) → ⊥
      none_some e = cc
  find_entry-IsFirst challenge i (e ∷ entries) place h =
      let (checked, u, h1) =
        >>=-eq-ok (require (is_some e.sub_slot || e.total_iters == 0) assertion_error) _ h in
      choose (cc_hash hashes c e.sub_slot == challenge) refl
        (find_entry-IsFirst challenge (suc i) entries place) h1
    where
      choose :
          (same : Bool)
          → same ≡ (cc_hash hashes c e.sub_slot == challenge)
          → (find_entry hashes c challenge (suc i) entries ≡ ok (some place)
              → (k : ℕ) × (place.0 ≡ suc i + k) × IsFirst challenge entries k place.1)
          → (if same then ok (some (i, e)) else find_entry hashes c challenge (suc i) entries)
            ≡ ok (some place)
          → (k : ℕ) × (place.0 ≡ i + k) × IsFirst challenge (e ∷ entries) k place.1
      choose true same rest h =
          subst (λ p. (k : ℕ) × (p.0 ≡ i + k) × IsFirst challenge (e ∷ entries) k p.1)
            (some_cancel (ok-injective h))
            (
              0,
              omega arith,
              (
                refl,
                (==_iff _ _).0 (sym same),
                omega arith,
                λ index rc filled end.
                    if_yes _ _ _ (ap (λ o. cc_hash hashes c o == challenge) end ∙ sym same),
              ),
            )
      choose false same rest h =
          let (k, at, (here, hash, within, found)) = rest h in
          (
            suc k,
            omega (arith, at),
            (
              here,
              hash,
              omega (arith, within),
              λ index rc filled end. if_no _ _ _ (sym same) ∙ found index rc filled end,
            ),
          )

  -- What a call leaves of the slots: the same, or the point in its place.
  abbrev pub Files :
      ℕ → Option BlockRecord → ℕ → SignagePoint → BeaconStore → Bool × BeaconStore → Type 0
  Files index peak next_sub_slot_iters sp s (taken, s') =
      ((taken ≡ false) × (s'.finished_sub_slots ≡ s.finished_sub_slots))
      ⊎ ((parts : Parts) × (k : ℕ) × (entry : SlotEntry) × (taken ≡ true)
          × (parts_of sp ≡ ok parts)
          × IsFirst parts.cc_vdf.challenge s.finished_sub_slots k entry
          × (delta_iters hashes c index peak next_sub_slot_iters entry
              ≡ ok parts.cc_vdf.number_of_iterations)
          × (0 < index)
          × (index < length entry.sps)
          × (s'.finished_sub_slots
              ≡ set_slice k (suc k)
                  (record entry { sps = set_slice index (suc index) (some sp ∷ []) entry.sps } ∷ [])
                  s.finished_sub_slots))

  either_same :
      (slots : List SlotEntry) (b : Bool) (x y : BeaconStore)
      → x.finished_sub_slots ≡ slots
      → y.finished_sub_slots ≡ slots
      → (if b then x else y).finished_sub_slots ≡ slots
  either_same slots true x y e f = e
  either_same slots false x y e f = f

  pub add_to_future_sp-finished_sub_slots :
      (sp : SignagePoint) (index now : ℕ) (s : BeaconStore)
      → (add_to_future_sp sp index now s).finished_sub_slots ≡ s.finished_sub_slots
  unfolding add_to_future_sp
  add_to_future_sp-finished_sub_slots sp index now s =
      either_same s.finished_sub_slots _ s _ refl (cached sp.rc_vdf)
    where
      cached :
          (o : Option VdfInfo)
          → (elim o as (λ (x : Option VdfInfo). BeaconStore) [
            | none ↦ s
            | some rc_vdf ↦
                let made = record s {
                  future_sp_cache = make_list rc_vdf.challenge s.future_sp_cache;
                } in
                if in_future_sp_cache sp index made then made else record made {
                  future_cache_key_times = insert rc_vdf.challenge now s.future_cache_key_times;
                  future_sp_cache = append_to rc_vdf.challenge (index, sp) made.future_sp_cache;
                }
          ]).finished_sub_slots
            ≡ s.finished_sub_slots
      cached none = refl
      cached (some rc_vdf) = either_same s.finished_sub_slots _ _ _ refl refl

  module _ (bs : Blockchain) (verify_vdf : VdfInfo → ℕ → List ℕ → ℕ → ℕ → Option Bool)
      (skip_vdf_validation : Bool) where
    sp_fits-delta :
        (start : SpStart) (delta : ℕ) (entry : SlotEntry) (parts : Parts)
        → sp_fits hashes c verify_vdf skip_vdf_validation start delta entry parts ≡ true
        → parts.cc_vdf.number_of_iterations ≡ delta
    unfolding sp_fits
    sp_fits-delta start delta entry parts h =
        let info = and_left (same_vdf_info parts.cc_vdf _) _ h in
        let rest = and_right (parts.cc_vdf.challenge == cc_hash hashes c entry.sub_slot) _ info in
        (==_iff _ _).0 (and_left (parts.cc_vdf.number_of_iterations == delta) _ rest)

    place_sp-Files :
        (index : ℕ) (peak : Option BlockRecord) (next_sub_slot_iters : ℕ) (sp : SignagePoint)
        (parts : Parts) (now : ℕ) (place : ℕ × SlotEntry) (s : BeaconStore) (r : Bool × BeaconStore)
        → 0 < index
        → parts_of sp ≡ ok parts
        → IsFirst parts.cc_vdf.challenge s.finished_sub_slots place.0 place.1
        → place_sp hashes c bs verify_vdf skip_vdf_validation index peak next_sub_slot_iters sp
            parts now place s
          ≡ ok r
        → Files index peak next_sub_slot_iters sp s r
    unfolding place_sp file_sp
    place_sp-Files index peak next_sub_slot_iters sp parts now (i, entry) s r pos whole first h =
        let (delta, e, h1) =
          >>=-eq-ok (delta_iters hashes c index peak next_sub_slot_iters entry) _ h in
        let (start, e', h2) = >>=-eq-ok (sp_start hashes c bs peak entry delta) _ h1 in
        choose (sp_fits hashes c verify_vdf skip_vdf_validation start delta entry parts) delta start
          refl e h2
      where
        choose :
            (fits : Bool) (delta : ℕ) (start : SpStart)
            → fits ≡ sp_fits hashes c verify_vdf skip_vdf_validation start delta entry parts
            → delta_iters hashes c index peak next_sub_slot_iters entry ≡ ok delta
            → (if fits
                then file_sp hashes c index sp parts i entry now s >>= (λ s'. ok (true, s'))
                else ok (false, add_to_future_sp sp index now s))
              ≡ ok r
            → Files index peak next_sub_slot_iters sp s r
        choose false delta start is_fit e h =
            subst (Files index peak next_sub_slot_iters sp s) (ok-injective h)
              (inl (refl, add_to_future_sp-finished_sub_slots sp index now s))
        choose true delta start is_fit e h =
            let (s', filed, last) = >>=-eq-ok (file_sp hashes c index sp parts i entry now s) _ h in
            let (u, within, at) =
              >>=-eq-ok (require (ltb index (length entry.sps)) index_error) _ filed in
            subst (Files index peak next_sub_slot_iters sp s) (ok-injective last) (
              inr (
                parts,
                i,
                entry,
                refl,
                whole,
                first,
                e ∙ ap ok (sym (sp_fits-delta start delta entry parts (sym is_fit))),
                pos,
                ltb→lt _ _ (require-eq-ok _ _ within),
                ap (λ (x : BeaconStore). x.finished_sub_slots) (sym (ok-injective at)),
              ))

    pub new_signage_point-Files :
        (index : ℕ) (peak : Option BlockRecord) (next_sub_slot_iters : ℕ) (sp : SignagePoint)
        (now : ℕ) (s : BeaconStore) {r : Bool × BeaconStore}
        → new_signage_point hashes c bs verify_vdf skip_vdf_validation index peak
            next_sub_slot_iters sp now s
          ≡ ok r
        → Files index peak next_sub_slot_iters sp s r
    unfolding new_signage_point
    new_signage_point-Files index peak next_sub_slot_iters sp now s {r} h =
        let (u, some_slot, h1) =
          >>=-eq-ok (require (leb 1 (length s.finished_sub_slots)) assertion_error) _ h in
        choose (index == 0 || leb c.num_sps_sub_slot index) refl h1
      where
        out_of_range : Bool
        out_of_range = index == 0 || leb c.num_sps_sub_slot index

        find :
            (parts : Parts) (found : Option (ℕ × SlotEntry))
            → 0 < index
            → parts_of sp ≡ ok parts
            → find_entry hashes c parts.cc_vdf.challenge 0 s.finished_sub_slots ≡ ok found
            → elim found [
              | none ↦ ok (false, add_to_future_sp sp index now s)
              | some place ↦
                  place_sp hashes c bs verify_vdf skip_vdf_validation index peak next_sub_slot_iters
                    sp parts now place s
            ]
              ≡ ok r
            → Files index peak next_sub_slot_iters sp s r
        find parts none pos whole e h =
            subst (Files index peak next_sub_slot_iters sp s) (ok-injective h)
              (inl (refl, add_to_future_sp-finished_sub_slots sp index now s))
        find parts (some place) pos whole e h =
            let (k, at, first) =
              find_entry-IsFirst parts.cc_vdf.challenge 0 s.finished_sub_slots place e in
            place_sp-Files index peak next_sub_slot_iters sp parts now place s r pos whole
              (subst (λ j. IsFirst parts.cc_vdf.challenge s.finished_sub_slots j place.1)
                (zero_plus k place.0 at) first)
              h

        choose :
            (out : Bool)
            → out ≡ (index == 0 || leb c.num_sps_sub_slot index)
            → (if out
                then ok (false, s)
                else parts_of sp >>= λ parts.
                    find_entry hashes c parts.cc_vdf.challenge 0 s.finished_sub_slots >>= λ found.
                    elim found [
                      | none ↦ ok (false, add_to_future_sp sp index now s)
                      | some place ↦
                          place_sp hashes c bs verify_vdf skip_vdf_validation index peak
                            next_sub_slot_iters sp parts now place s
                    ])
              ≡ ok r
            → Files index peak next_sub_slot_iters sp s r
        choose true is_out h =
            subst (Files index peak next_sub_slot_iters sp s) (ok-injective h) (inl (refl, refl))
        choose false is_out h =
            let (parts, whole, h1) = >>=-eq-ok (parts_of sp) _ h in
            let (found, e, h2) =
              >>=-eq-ok (find_entry hashes c parts.cc_vdf.challenge 0 s.finished_sub_slots) _ h1 in
            find parts found (in_range index c.num_sps_sub_slot (sym is_out)) whole e h2
