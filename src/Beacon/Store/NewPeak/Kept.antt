-- ===== src/Beacon/Store/NewPeak/Kept.antt =====
-- A new peak keeps only signage points of its slots, so every point stays in the slot of its challenge.
use mathlib.Core.Path.{subst}
use corpochain_beacon_client.Base.{
  ℕ, zero, suc, ◌+◌, ◌*◌, ◌≡◌, refl, Bool, true, false, Option, none, some, List, [], ◌∷◌, ltb,
  ◌==◌, if◌then◌else◌, length, get_elem?, ok, ◌>>=◌, >>=-eq-ok, ok-injective, sym, ◌∙◌, ap, ==_iff,
  some_cancel,
}
use corpochain_beacon_client.Consensus.Constants.{Constants}
use corpochain_beacon_client.Consensus.Iterations.{calculate_sp_interval_iters}
use corpochain_beacon_client.Consensus.Block.{BlockRecord}
use corpochain_beacon_client.Types.Proofs.{VdfInfo, same_vdf_info}
use corpochain_beacon_client.Types.Slots.{EndOfSubSlotBundle, ChallengeChainSubSlot}
use corpochain_beacon_client.Types.Blocks.{Hashes}
use corpochain_beacon_client.Beacon.Store.{
  SignagePoint, SlotEntry, no_sps, same_option, same_challenge_chain, same_bundle,
}
use corpochain_beacon_client.Beacon.Store.NewPeak.{
  replaced_sps, is_slot, kept_sps, fork_total_iters_of, changes_iters, sps_at_peak,
}
use corpochain_beacon_client.Beacon.Store.SubSlots.{cc_hash}
use corpochain_beacon_client.Beacon.Store.SubSlots.Chained.{and_left, and_right}
use corpochain_beacon_client.Beacon.Store.SignagePoints.Orderly.{IsFiled, AllFiled, empty-IsFiled}

same_numbers : (a b : Option ℕ) → same_option ◌==◌ a b ≡ true → a ≡ b
same_numbers none none h = refl
same_numbers none (some b) h = cc
same_numbers (some a) none h = cc
same_numbers (some a) (some b) h = ap some ((==_iff a b).0 h)

same_vdf_info→eq : (a b : VdfInfo) → same_vdf_info a b ≡ true → a ≡ b
same_vdf_info→eq a b h =
    let challenge = (==_iff _ _).0 (and_left (a.challenge == b.challenge) _ h) in
    let rest = and_right (a.challenge == b.challenge) _ h in
    let iters =
      (==_iff _ _).0 (and_left (a.number_of_iterations == b.number_of_iterations) _ rest) in
    let output =
      (==_iff _ _).0 (and_right (a.number_of_iterations == b.number_of_iterations) _ rest) in
    cc

same_fields :
    (a b : ChallengeChainSubSlot)
    → a.challenge_chain_end_of_slot_vdf ≡ b.challenge_chain_end_of_slot_vdf
    → a.infused_challenge_chain_sub_slot_hash ≡ b.infused_challenge_chain_sub_slot_hash
    → a.subepoch_summary_hash ≡ b.subepoch_summary_hash
    → a.new_sub_slot_iters ≡ b.new_sub_slot_iters
    → a.new_difficulty ≡ b.new_difficulty
    → a ≡ b
same_fields a b vdf infused summary iters difficulty = cc

same_challenge_chain→eq : (a b : ChallengeChainSubSlot) → same_challenge_chain a b ≡ true → a ≡ b
same_challenge_chain→eq a b h =
    let one =
      and_right (same_vdf_info a.challenge_chain_end_of_slot_vdf b.challenge_chain_end_of_slot_vdf)
        _ h in
    let two =
      and_right
        (same_option ◌==◌ a.infused_challenge_chain_sub_slot_hash
          b.infused_challenge_chain_sub_slot_hash)
        _ one in
    let three =
      and_right (same_option ◌==◌ a.subepoch_summary_hash b.subepoch_summary_hash) _ two in
    same_fields a b (same_vdf_info→eq _ _ (and_left _ _ h)) (same_numbers _ _ (and_left _ _ one))
      (same_numbers _ _ (and_left _ _ two)) (same_numbers _ _ (and_left _ _ three))
      (same_numbers _ _
        (and_right (same_option ◌==◌ a.new_sub_slot_iters b.new_sub_slot_iters) _ three))

is_slot→challenge :
    (slot other : EndOfSubSlotBundle)
    → is_slot slot (some other) ≡ true
    → slot.challenge_chain ≡ other.challenge_chain
unfolding same_bundle
is_slot→challenge slot other h = same_challenge_chain→eq _ _ (and_left _ _ h)

replaced_sps-length :
    (total interval fork i : ℕ) (sps : List (Option SignagePoint))
    → length (replaced_sps total interval fork i sps) ≡ length sps
replaced_sps-length total interval fork i [] = refl
replaced_sps-length total interval fork i (sp ∷ sps) =
    ap suc (replaced_sps-length total interval fork (suc i) sps)

replaced_sps-at :
    (total interval fork i : ℕ) (sps : List (Option SignagePoint)) (k : ℕ) (sp : SignagePoint)
    → get_elem? (replaced_sps total interval fork i sps) k ≡ some (some sp)
    → get_elem? sps k ≡ some (some sp)
replaced_sps-at total interval fork i [] k sp h = h
replaced_sps-at total interval fork i (x ∷ sps) zero sp h =
    keep (ltb (total + i * interval) fork) (some_cancel h)
  where
    keep : (b : Bool) → (if b then x else none) ≡ some sp → some x ≡ some (some sp)
    keep true e = ap some e
    keep false e = cc
replaced_sps-at total interval fork i (x ∷ sps) (suc k) sp h =
    replaced_sps-at total interval fork (suc i) sps k sp h

module _ (hashes : Hashes) (c : Constants) where
  -- Points that may stand in the slot of that end.
  abbrev pub FiledAt : Option EndOfSubSlotBundle → List (Option SignagePoint) → Type 0
  FiledAt target sps = IsFiled hashes c (record { sub_slot = target; sps = sps; total_iters = 0 })

  kept_sps-FiledAt :
      (interval fork : ℕ) (target : Option EndOfSubSlotBundle) (sps : List (Option SignagePoint))
      (entries : List SlotEntry)
      → FiledAt target sps
      → AllFiled hashes c entries
      → FiledAt target (kept_sps interval fork target sps entries)
  kept_sps-FiledAt interval fork target sps [] is all = is
  kept_sps-FiledAt interval fork target sps (entry ∷ entries) is (first, all) =
      choose entry.sub_slot refl
        (λ sps is. kept_sps-FiledAt interval fork target sps entries is all)
    where
      moved :
          (target : Option EndOfSubSlotBundle) (slot : EndOfSubSlotBundle) (same : Bool)
          → same ≡ is_slot slot target
          → entry.sub_slot ≡ some slot
          → FiledAt target sps
          → FiledAt target
              (if same then replaced_sps entry.total_iters interval fork 0 entry.sps else sps)
      moved target slot false e at is = is
      moved none slot true e at is = cc
      moved (some other) slot true e at is = (
        replaced_sps-length entry.total_iters interval fork 0 entry.sps ∙ first.0,
        λ k sp here.
            let (pos, cc_vdf, rc_vdf, is_cc, is_rc, hash) =
              first.1 k sp
                (replaced_sps-at entry.total_iters interval fork 0 entry.sps k sp here) in
            (
              pos,
              cc_vdf,
              rc_vdf,
              is_cc,
              is_rc,
              hash
                  ∙ ap (cc_hash hashes c) at
                  ∙ ap hashes.challenge_chain (is_slot→challenge slot other (sym e)),
            ),
      )

      choose :
          (o : Option EndOfSubSlotBundle)
          → entry.sub_slot ≡ o
          → ((sps : List (Option SignagePoint))
              → FiledAt target sps
              → FiledAt target (kept_sps interval fork target sps entries))
          → FiledAt target (elim o [
            | none ↦ kept_sps interval fork target sps entries
            | some slot ↦
                kept_sps interval fork target
                  (if is_slot slot target
                    then replaced_sps entry.total_iters interval fork 0 entry.sps
                    else sps)
                  entries
          ])
      choose none at rest = rest sps is
      choose (some slot) at rest = rest _ (moved target slot (is_slot slot target) refl at is)

  pub empty-FiledAt :
      (target : Option EndOfSubSlotBundle) → FiledAt target (no_sps c.num_sps_sub_slot)
  empty-FiledAt target =
      empty-IsFiled hashes c
        (record { sub_slot = target; sps = no_sps c.num_sps_sub_slot; total_iters = 0 }) refl

  pub sps_at_peak-FiledAt :
      (peak : BlockRecord) (sp_sub_slot ip_sub_slot : Option EndOfSubSlotBundle)
      (fork_block : Option BlockRecord) (entries : List SlotEntry)
      (r : List (Option SignagePoint) × List (Option SignagePoint))
      → AllFiled hashes c entries
      → sps_at_peak c peak sp_sub_slot ip_sub_slot fork_block entries ≡ ok r
      → FiledAt sp_sub_slot r.0 × FiledAt ip_sub_slot r.1
  unfolding sps_at_peak
  sps_at_peak-FiledAt peak sp_sub_slot ip_sub_slot fork_block entries r all h =
      choose (changes_iters fork_block peak) h
    where
      Kept : List (Option SignagePoint) × List (Option SignagePoint) → Type 0
      Kept r = FiledAt sp_sub_slot r.0 × FiledAt ip_sub_slot r.1

      empty : List (Option SignagePoint)
      empty = no_sps c.num_sps_sub_slot

      fork : ℕ
      fork = fork_total_iters_of fork_block peak

      choose :
          (changed : Bool)
          → (if changed
              then ok (empty, empty)
              else calculate_sp_interval_iters c peak.sub_slot_iters >>= λ interval. ok (
                kept_sps interval fork sp_sub_slot empty entries,
                kept_sps interval fork ip_sub_slot empty entries,
              ))
            ≡ ok r
          → Kept r
      choose true h =
          subst Kept (ok-injective h) (empty-FiledAt sp_sub_slot, empty-FiledAt ip_sub_slot)
      choose false h =
          let (interval, e, last) =
            >>=-eq-ok (calculate_sp_interval_iters c peak.sub_slot_iters) _ h in
          subst Kept (ok-injective last) (
            kept_sps-FiledAt interval fork sp_sub_slot empty entries (empty-FiledAt sp_sub_slot)
                all,
            kept_sps-FiledAt interval fork ip_sub_slot empty entries (empty-FiledAt ip_sub_slot)
                all,
          )
