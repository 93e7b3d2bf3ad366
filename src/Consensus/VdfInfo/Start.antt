-- ===== src/Consensus/VdfInfo/Start.antt =====
-- From which block the VDF of a signage point starts.
use mathlib.Core.Path.{subst}
use corpochain_beacon_client.Base.{
  ℕ, suc, ◌+◌, ◌≤◌, ◌<◌, ◌≡◌, ◌⊎◌, inl, inr, refl, Bool, true, false, some, List, [], ◌∷◌, reverse,
  ltb, if◌then◌else◌, length, ok, arith, Bool-cases, ltb→lt, ltb_false→le, ◌>>=◌, >>=-eq-ok,
  ok-injective, sym, ◌∙◌,
}
use corpochain_beacon_client.Base.Slices.{length-reverse}
use corpochain_beacon_client.Ints.{uint_sub}
use corpochain_beacon_client.Ints.Range.{uint_sub-eq-ok}
use corpochain_beacon_client.Consensus.Constants.{Constants}
use corpochain_beacon_client.Consensus.Block.{BlockRecord, Blockchain}
use corpochain_beacon_client.Consensus.Chain.{walk_back}
use corpochain_beacon_client.Consensus.Chain.Walk.{walk_back-Nearest}
use corpochain_beacon_client.Types.Proofs.{default_element}
use corpochain_beacon_client.Types.Slots.{EndOfSubSlotBundle}
use corpochain_beacon_client.Types.Blocks.{Hashes}
use corpochain_beacon_client.Consensus.VdfInfo.Search.{
  IsLast, last_hash-IsLast, SlotStart, Nearest-SlotStart, Before, Nearest-Before,
}
use corpochain_beacon_client.Consensus.VdfInfo.{
  VdfStart, vdf_start, last_hash, lies_after, inside_sub_slot, start_from, from_previous,
  from_overflow, get_signage_point_vdf_info, from_chain, from_slot,
}

module _ (bs : Blockchain) (sp_total_iters sp_iters : ℕ) where
  -- What the start says of the block `b` where the search ended.
  abbrev pub StartsAt : BlockRecord → ℕ → ℕ → ℕ → Type 0
  StartsAt b iters input rc_challenge =
      ((iters + b.total_iters ≡ sp_total_iters)
        × (b.total_iters < sp_total_iters)
        × (input ≡ b.challenge_vdf_output)
        × (rc_challenge ≡ b.reward_infusion_new_challenge))
      ⊎ ((iters ≡ sp_iters)
          × (sp_total_iters ≤ b.total_iters)
          × (input ≡ default_element)
          × IsLast b.finished_reward_slot_hashes rc_challenge)

  start_below :
      (b : BlockRecord)
      → ltb b.total_iters sp_total_iters ≡ true
      → start_from bs sp_total_iters sp_iters b ≡ (
          uint_sub 64 sp_total_iters b.total_iters >>= λ n.
          ok (n, (b.challenge_vdf_output, b.reward_infusion_new_challenge)))
  unfolding start_from
  start_below b h = rw (h, start_from) refl

  start_above :
      (b : BlockRecord)
      → ltb b.total_iters sp_total_iters ≡ false
      → start_from bs sp_total_iters sp_iters b
        ≡ (last_hash b.finished_reward_slot_hashes >>= λ rc. ok (sp_iters, (default_element, rc)))
  unfolding start_from
  start_above b h = rw (h, start_from) refl

  start_from-StartsAt :
      (b : BlockRecord) (r : ℕ × (ℕ × ℕ))
      → start_from bs sp_total_iters sp_iters b ≡ ok r
      → StartsAt b r.0 r.1.0 r.1.1
  start_from-StartsAt b r h = elim (Bool-cases (ltb b.total_iters sp_total_iters)) [
    | inl below ↦
        let (n, e, same) =
          >>=-eq-ok (uint_sub 64 sp_total_iters b.total_iters) _ (sym (start_below b below) ∙ h) in
        let s = uint_sub-eq-ok 64 sp_total_iters b.total_iters e in
        subst (λ r. StartsAt b r.0 r.1.0 r.1.1) (ok-injective same)
          (inl (omega (arith, s.0, s.1), ltb→lt _ _ below, refl, refl))
    | inr above ↦
        let (rc, e, same) =
          >>=-eq-ok (last_hash b.finished_reward_slot_hashes) _ (sym (start_above b above) ∙ h) in
        subst (λ r. StartsAt b r.0 r.1.0 r.1.1) (ok-injective same)
          (inr (refl, ltb_false→le _ _ above, refl, last_hash-IsLast _ e))
  ]

  -- What is returned where the search goes back from `prev_b`.
  abbrev pub IsStart : BlockRecord → VdfStart → Type 0
  IsStart prev_b r =
      (b : BlockRecord) × (first : BlockRecord) × Before bs sp_total_iters prev_b b
      × SlotStart bs b first
      × StartsAt b r.rc_iters r.cc_input r.rc_challenge
      × (r.cc_iters ≡ r.rc_iters)
      × (r.rc_input ≡ default_element)
      × IsLast first.finished_challenge_slot_hashes r.cc_challenge

  from_previous-IsStart :
      (prev_b : BlockRecord) (r : VdfStart)
      → from_previous bs sp_total_iters sp_iters prev_b ≡ ok r
      → IsStart prev_b r
  unfolding from_previous
  from_previous-IsStart prev_b r h =
      let (b, walked, h1) =
        >>=-eq-ok (walk_back bs (lies_after sp_total_iters) (suc prev_b.height) prev_b) _ h in
      let (start, started, h2) = >>=-eq-ok (start_from bs sp_total_iters sp_iters b) _ h1 in
      let (first, again, h3) = >>=-eq-ok (walk_back bs inside_sub_slot (suc b.height) b) _ h2 in
      let (cc_challenge, last, same) =
        >>=-eq-ok (last_hash first.finished_challenge_slot_hashes)
          (λ cc_vdf_challenge. ok (vdf_start cc_vdf_challenge start.1.1 start.1.0 start.0)) h3 in
      subst (IsStart prev_b) (ok-injective same) (
        b,
        first,
        Nearest-Before bs sp_total_iters
            (walk_back-Nearest bs (lies_after sp_total_iters) (suc prev_b.height) prev_b b walked),
        Nearest-SlotStart bs (walk_back-Nearest bs inside_sub_slot (suc b.height) b first again),
        start_from-StartsAt b start started,
        refl,
        refl,
        last_hash-IsLast _ last,
      )

  module _ (hashes : Hashes) (c : Constants) where
    -- Where the signage point lies in the sub-slot of the previous block (no sub-slot was finished
    -- and it does not overflow, or one was finished and it overflows into that one), its VDF starts
    -- at the nearest block `b`, going back from the previous one, that is the first in its sub-slot
    -- or does not lie after the signage point, all before it lying after and inside the sub-slot. If `b` lies before the signage point, then the VDF
    -- starts at the output and the challenge of `b`, and its iterations lead from `b` exactly to the
    -- signage point. Otherwise it starts at the sub-slot of `b` and runs for `sp_iters`. The
    -- challenge of the challenge chain is that of the sub-slot.
    pub get_signage_point_vdf_info-IsStart :
        (finished_sub_slots : List EndOfSubSlotBundle) (overflow : Bool) (prev_b : BlockRecord)
        (r : VdfStart)
        → length finished_sub_slots ≡ (if overflow then 1 else 0)
        → get_signage_point_vdf_info bs sp_total_iters sp_iters hashes c finished_sub_slots overflow
            (some prev_b)
          ≡ ok r
        → IsStart prev_b r
    unfolding get_signage_point_vdf_info
    get_signage_point_vdf_info-IsStart finished_sub_slots overflow prev_b r count h =
        go (reverse finished_sub_slots) overflow (length-reverse finished_sub_slots ∙ count) h
      where
        go :
            (slots : List EndOfSubSlotBundle) (overflow : Bool)
            → length slots ≡ (if overflow then 1 else 0)
            → (elim slots [
              | [] ↦
                  from_chain bs sp_total_iters sp_iters hashes c
                    (if overflow
                      then from_overflow bs sp_total_iters sp_iters
                      else from_previous bs sp_total_iters sp_iters)
                    (some prev_b)
              | last ∷ [] ↦
                  if overflow
                  then from_chain bs sp_total_iters sp_iters hashes c
                      (from_previous bs sp_total_iters sp_iters)
                      (some prev_b)
                  else ok (from_slot bs sp_total_iters sp_iters hashes c last)
              | last ∷ before ∷ _ ↦ ok (
                  from_slot bs sp_total_iters sp_iters hashes c (if overflow then before else last))
            ])
              ≡ ok r
            → IsStart prev_b r
        go [] false count h = from_previous-IsStart prev_b r h
        go [] true count h = absurd (omega arith)
        go (last ∷ []) true count h = from_previous-IsStart prev_b r h
        go (last ∷ []) false count h = absurd (omega arith)
        go (last ∷ before ∷ slots) true count h = absurd (omega arith)
        go (last ∷ before ∷ slots) false count h = absurd (omega arith)
