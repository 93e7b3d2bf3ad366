-- ===== src/Beacon/Store/SubSlots/Collected.antt =====
-- Which sub-slots the store gives out for a new block.
use mathlib.Core.Path.{subst}
use corpochain_beacon_client.Base.{
  ℕ, suc, ◌≡◌, ◌≢◌, ◌⊎◌, inl, inr, refl, Bool, true, false, not, ◌&&◌, ◌||◌, Option, none, some,
  List, [], ◌∷◌, ◌++◌, drop, ◌==◌, if◌then◌else◌, get_elem?, is_some, Result, ok, err,
  assertion_error, index_error, or_raise, require, >>=-eq-ok, ok-injective, sym, ◌∙◌, ap, ==_iff,
  some_cancel, Option-cases,
}
use corpochain_beacon_client.Consensus.Chain.{walk_back}
use corpochain_beacon_client.Consensus.Chain.Walk.{walk_back-Nearest}
use corpochain_beacon_client.Consensus.VdfInfo.{inside_sub_slot}
use corpochain_beacon_client.Consensus.VdfInfo.Search.{
  IsLast, last_hash-IsLast, SlotStart, Nearest-SlotStart,
}
use corpochain_beacon_client.Consensus.Constants.{Constants}
use corpochain_beacon_client.Consensus.Block.{BlockRecord, Blockchain}
use corpochain_beacon_client.Types.Proofs.{VdfInfo}
use corpochain_beacon_client.Types.Slots.{EndOfSubSlotBundle}
use corpochain_beacon_client.Types.Blocks.{Hashes}
use corpochain_beacon_client.Beacon.Store.{SlotEntry, BeaconStore}
use corpochain_beacon_client.Beacon.Store.SubSlots.{
  collect_slots, chain_challenge, get_finished_sub_slots,
}

module _ (hashes : Hashes) (c : Constants) (bs : Blockchain)
    (verify_vdf : VdfInfo → ℕ → List ℕ → ℕ → ℕ → Option Bool) where
  -- Where the chain of the block stands: at the genesis challenge, or at the last challenge of the
  -- sub-slot that the block is in.
  abbrev pub StandsAt : Option BlockRecord → ℕ → Type 0
  StandsAt none from = from ≡ c.genesis_challenge
  StandsAt (some prev_b) from =
      (first : BlockRecord) × SlotStart bs prev_b first
      × IsLast first.finished_challenge_slot_hashes from

  chain_challenge-StandsAt :
      (prev_b : Option BlockRecord) (s : BeaconStore) {from : ℕ}
      → chain_challenge hashes c bs verify_vdf prev_b s ≡ ok from
      → StandsAt prev_b from
  unfolding chain_challenge
  chain_challenge-StandsAt none s h =
      let (first, e, h1) =
        >>=-eq-ok (or_raise (get_elem? s.finished_sub_slots 0) index_error) _ h in
      let (u, e', last) = >>=-eq-ok (require (not (is_some first.sub_slot)) assertion_error) _ h1 in
      sym (ok-injective last)
  chain_challenge-StandsAt (some prev_b) s h =
      let (first, walked, last) =
        >>=-eq-ok (walk_back bs inside_sub_slot (suc prev_b.height) prev_b) _ h in
      (
        first,
        Nearest-SlotStart bs
            (walk_back-Nearest bs inside_sub_slot (suc prev_b.height) prev_b first walked),
        last_hash-IsLast _ last,
      )

  -- The slots up to the first with the hash `to`.
  pub data UpTo (to : ℕ) : List SlotEntry → List EndOfSubSlotBundle → Type 0 where
    ends :
        {entry : SlotEntry} {entries : List SlotEntry} {slot : EndOfSubSlotBundle}
        → entry.sub_slot ≡ some slot
        → hashes.challenge_chain slot.challenge_chain ≡ to
        → UpTo to (entry ∷ entries) (slot ∷ [])
    goes_on :
        {entry : SlotEntry} {entries : List SlotEntry} {slot : EndOfSubSlotBundle}
        {slots : List EndOfSubSlotBundle}
        → entry.sub_slot ≡ some slot
        → hashes.challenge_chain slot.challenge_chain ≢ to
        → UpTo to entries slots
        → UpTo to (entry ∷ entries) (slot ∷ slots)

  -- The slots from the first with the challenge `from` up to the first with the hash `to`.
  pub data Stretch (from to : ℕ) : List SlotEntry → List EndOfSubSlotBundle → Type 0 where
    starts_here :
        {entry : SlotEntry} {entries : List SlotEntry} {slot : EndOfSubSlotBundle}
        {slots : List EndOfSubSlotBundle}
        → slot.challenge_chain.challenge_chain_end_of_slot_vdf.challenge ≡ from
        → UpTo to (entry ∷ entries) (slot ∷ slots)
        → Stretch from to (entry ∷ entries) (slot ∷ slots)
    passes :
        {entry : SlotEntry} {entries : List SlotEntry} {slot : EndOfSubSlotBundle}
        {slots : List EndOfSubSlotBundle}
        → entry.sub_slot ≡ some slot
        → slot.challenge_chain.challenge_chain_end_of_slot_vdf.challenge ≢ from
        → Stretch from to entries slots
        → Stretch from to (entry ∷ entries) slots

  no_answer :
      {slots : List EndOfSubSlotBundle}
      → ◌≡◌ {A = Option (List EndOfSubSlotBundle)} none (some slots)
      → ⊥
  no_answer e = cc

  append_one :
      (xs : List EndOfSubSlotBundle) (x : EndOfSubSlotBundle) (ys : List EndOfSubSlotBundle)
      → (xs ++ x ∷ []) ++ ys ≡ xs ++ x ∷ ys
  append_one [] x ys = refl
  append_one (z ∷ xs) x ys = ap (λ l. z ∷ l) (append_one xs x ys)

  -- One round of the loop, at an entry.
  abbrev Round :
      ℕ
      → ℕ
      → Bool
      → List EndOfSubSlotBundle
      → List SlotEntry
      → Option EndOfSubSlotBundle
      → Result (Option (List EndOfSubSlotBundle))
  Round from to connected collected entries o = elim o [
    | none ↦ err assertion_error
    | some slot ↦
        let connects =
          slot.challenge_chain.challenge_chain_end_of_slot_vdf.challenge == from || connected in
        elim (connects && hashes.challenge_chain slot.challenge_chain == to) [
          | true ↦ ok (some (collected ++ slot ∷ []))
          | false ↦
              collect_slots hashes c bs verify_vdf from to connects
                (if connects then collected ++ slot ∷ [] else collected) entries
        ]
  ]

  -- The slot of an entry that the loop went past.
  round_slot :
      (from to : ℕ) (connected : Bool) (collected slots : List EndOfSubSlotBundle)
      (entry : SlotEntry) (entries : List SlotEntry)
      → collect_slots hashes c bs verify_vdf from to connected collected (entry ∷ entries)
        ≡ ok (some slots)
      → (slot : EndOfSubSlotBundle) × (entry.sub_slot ≡ some slot)
        × (Round from to connected collected entries (some slot) ≡ ok (some slots))
  unfolding collect_slots
  round_slot from to connected collected slots entry entries h =
      elim (Option-cases entry.sub_slot) [
        | inl missing ↦ absurd (
            raised (
              subst (λ o. Round from to connected collected entries o ≡ ok (some slots)) missing h))
        | inr (slot, is) ↦ (
          slot,
          is,
          subst (λ o. Round from to connected collected entries o ≡ ok (some slots)) is h,
        )
      ]
    where
      raised :
          ◌≡◌ {A = Result (Option (List EndOfSubSlotBundle))}
            (err assertion_error)
            (ok (some slots))
          → ⊥
      raised e = cc

  no_slots :
      (from to : ℕ) (connected : Bool) (collected slots : List EndOfSubSlotBundle)
      → collect_slots hashes c bs verify_vdf from to connected collected [] ≡ ok (some slots)
      → ⊥
  unfolding collect_slots
  no_slots from to connected collected slots h = no_answer (ok-injective h)

  or_true : (b : Bool) → (b || true) ≡ true
  or_true true = refl
  or_true false = refl

  -- The round after the first slot was found.
  connected_round :
      (from to : ℕ) (collected slots : List EndOfSubSlotBundle) (entries : List SlotEntry)
      (slot : EndOfSubSlotBundle) (connects : Bool)
      → connects ≡ true
      → elim (connects && hashes.challenge_chain slot.challenge_chain == to) [
        | true ↦ ok (some (collected ++ slot ∷ []))
        | false ↦
            collect_slots hashes c bs verify_vdf from to connects
              (if connects then collected ++ slot ∷ [] else collected)
              entries
      ]
        ≡ ok (some slots)
      → ((hashes.challenge_chain slot.challenge_chain ≡ to) × (slots ≡ collected ++ slot ∷ []))
        ⊎ ((hashes.challenge_chain slot.challenge_chain ≢ to)
            × (collect_slots hashes c bs verify_vdf from to true (collected ++ slot ∷ []) entries
                ≡ ok (some slots)))
  connected_round from to collected slots entries slot false is h = cc
  connected_round from to collected slots entries slot true is h =
      choose (hashes.challenge_chain slot.challenge_chain == to) refl h
    where
      choose :
          (last : Bool)
          → last ≡ (hashes.challenge_chain slot.challenge_chain == to)
          → elim last [
            | true ↦ ok (some (collected ++ slot ∷ []))
            | false ↦
                collect_slots hashes c bs verify_vdf from to true (collected ++ slot ∷ []) entries
          ]
            ≡ ok (some slots)
          → ((hashes.challenge_chain slot.challenge_chain ≡ to) × (slots ≡ collected ++ slot ∷ []))
            ⊎ ((hashes.challenge_chain slot.challenge_chain ≢ to)
                × (collect_slots hashes c bs verify_vdf from to true
                      (collected ++ slot ∷ [])
                      entries
                    ≡ ok (some slots)))
      choose true e h = inl ((==_iff _ _).0 (sym e), sym (some_cancel (ok-injective h)))
      choose false e h = inr ((λ same. differ (e ∙ (==_iff _ _).1 same)), h)
        where
          differ : false ≡ true → ⊥
          differ e = cc

  collected-UpTo :
      (from to : ℕ) (collected : List EndOfSubSlotBundle) (entries : List SlotEntry)
      (slots : List EndOfSubSlotBundle)
      → collect_slots hashes c bs verify_vdf from to true collected entries ≡ ok (some slots)
      → (found : List EndOfSubSlotBundle) × (slots ≡ collected ++ found) × UpTo to entries found
  collected-UpTo from to collected [] slots h = absurd (no_slots from to true collected slots h)
  collected-UpTo from to collected (entry ∷ entries) slots h =
      let (slot, is, h1) = round_slot from to true collected slots entry entries h in
      elim (connected_round from to collected slots entries slot _
        (or_true (slot.challenge_chain.challenge_chain_end_of_slot_vdf.challenge == from)) h1) [
          | inl (last, same) ↦ (slot ∷ [], same, ends is last)
          | inr (other, h2) ↦
              let (found, same, rest) =
                collected-UpTo from to (collected ++ slot ∷ []) entries slots h2 in
              (slot ∷ found, same ∙ append_one collected slot found, goes_on is other rest)
        ]

  collect_slots-Stretch :
      (from to : ℕ) (entries : List SlotEntry) (slots : List EndOfSubSlotBundle)
      → collect_slots hashes c bs verify_vdf from to false [] entries ≡ ok (some slots)
      → Stretch from to entries slots
  collect_slots-Stretch from to [] slots h = absurd (no_slots from to false [] slots h)
  collect_slots-Stretch from to (entry ∷ entries) slots h =
      let (slot, is, h1) = round_slot from to false [] slots entry entries h in
      choose slot (slot.challenge_chain.challenge_chain_end_of_slot_vdf.challenge == from) refl is
        (collect_slots-Stretch from to entries slots) h1
    where
      choose :
          (slot : EndOfSubSlotBundle) (here : Bool)
          → here ≡ (slot.challenge_chain.challenge_chain_end_of_slot_vdf.challenge == from)
          → entry.sub_slot ≡ some slot
          → (collect_slots hashes c bs verify_vdf from to false [] entries ≡ ok (some slots)
              → Stretch from to entries slots)
          → elim ((here || false) && hashes.challenge_chain slot.challenge_chain == to) [
            | true ↦ ok (some ([] ++ slot ∷ []))
            | false ↦
                collect_slots hashes c bs verify_vdf from to
                  (here || false)
                  (if here || false then [] ++ slot ∷ [] else [])
                  entries
          ]
            ≡ ok (some slots)
          → Stretch from to (entry ∷ entries) slots
      choose slot true e is rest h =
          elim (connected_round from to [] slots entries slot true refl h) [
            | inl (last, same) ↦
                subst (Stretch from to (entry ∷ entries)) (sym same)
                  (starts_here ((==_iff _ _).0 (sym e)) (ends is last))
            | inr (other, h2) ↦
                let (found, same, up) = collected-UpTo from to (slot ∷ []) entries slots h2 in
                subst (Stretch from to (entry ∷ entries)) (sym same)
                  (starts_here ((==_iff _ _).0 (sym e)) (goes_on is other up))
          ]
      choose slot false e is rest h = passes is (λ same. differ (e ∙ (==_iff _ _).1 same)) (rest h)
        where
          differ : false ≡ true → ⊥
          differ e = cc

  -- The sub-slots given out for a block after `prev_b` are a stretch of the slots of the store behind
  -- the first: from the first slot whose challenge is the one where the chain of `prev_b` stands
  -- (the last challenge of the nearest block that starts a sub-slot, or the genesis challenge
  -- without a block), up to the first slot after it whose hash is the challenge asked for, with none
  -- left out. No slots are given out where the chain stands at that challenge already.
  pub get_finished_sub_slots-Stretch :
      (prev_b : Option BlockRecord) (last_challenge_to_add : ℕ) (s : BeaconStore)
      {slots : List EndOfSubSlotBundle}
      → get_finished_sub_slots hashes c bs verify_vdf prev_b last_challenge_to_add s
        ≡ ok (some slots)
      → (from : ℕ) × StandsAt prev_b from
        × (((from ≡ last_challenge_to_add) × (slots ≡ []))
            ⊎ ((from ≢ last_challenge_to_add)
                × Stretch from last_challenge_to_add (drop 1 s.finished_sub_slots) slots))
  unfolding get_finished_sub_slots
  get_finished_sub_slots-Stretch prev_b last s {slots} h =
      let (from, e, h1) = >>=-eq-ok (chain_challenge hashes c bs verify_vdf prev_b s) _ h in
      (from, chain_challenge-StandsAt prev_b s e, choose (last == from) from refl h1)
    where
      choose :
          (same : Bool) (from : ℕ)
          → same ≡ (last == from)
          → (if same
              then ok (some [])
              else collect_slots hashes c bs verify_vdf from last false []
                  (drop 1 s.finished_sub_slots))
            ≡ ok (some slots)
          → ((from ≡ last) × (slots ≡ []))
            ⊎ ((from ≢ last) × Stretch from last (drop 1 s.finished_sub_slots) slots)
      choose true from e h = inl (sym ((==_iff _ _).0 (sym e)), sym (some_cancel (ok-injective h)))
      choose false from e h = inr (
        (λ same. differ (e ∙ (==_iff _ _).1 (sym same))),
        collect_slots-Stretch from last (drop 1 s.finished_sub_slots) slots h,
      )
        where
          differ : false ≡ true → ⊥
          differ e = cc
