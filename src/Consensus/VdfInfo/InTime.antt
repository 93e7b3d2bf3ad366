-- ===== src/Consensus/VdfInfo/InTime.antt =====
-- The search for the start of a signage point's VDF ends.
use corpochain_beacon_client.Base.{
  ℕ, zero, suc, ◌<◌, ◌≡◌, ◌≢◌, Bool, true, false, ◌&&◌, Option, none, some, List, [], ◌∷◌, ◌++◌,
  reverse, ltb, if◌then◌else◌, length, get_elem?, last?, Result, ok, err, out_of_fuel, key_error,
  index_error, Exception, err-injective, arith, Bool-cases, inl, inr, ap, refl, ◌>>=◌, >>=-in_time,
  or_raise, or_raise-in_time,
}
use corpochain_beacon_client.Ints.{uint_sub}
use corpochain_beacon_client.Consensus.Constants.{Constants}
use corpochain_beacon_client.Consensus.Block.{BlockRecord, Blockchain, block_record}
use corpochain_beacon_client.Consensus.Chain.{walk_back, Nearest, here, back, IsLinked}
use corpochain_beacon_client.Consensus.Chain.Walk.{walk_back-Nearest, walk_back_fuel}
use corpochain_beacon_client.Types.Proofs.{default_element}
use corpochain_beacon_client.Types.Slots.{EndOfSubSlotBundle}
use corpochain_beacon_client.Types.Blocks.{Hashes}
use corpochain_beacon_client.Consensus.VdfInfo.{
  VdfStart, vdf_start, last_hash, lies_after, inside_sub_slot, slots_of, before_sp, start_from,
  from_previous, find_sub_slots, from_overflow, get_signage_point_vdf_info, from_chain, from_slot,
}

-- A block that the store has under its hash.
abbrev IsKept : Blockchain → BlockRecord → Type 0
IsKept bs b = bs.block_records b.header_hash ≡ some b

Nearest-IsKept :
    (bs : Blockchain) (test : BlockRecord → Bool) {b r : BlockRecord}
    → IsLinked bs
    → IsKept bs b
    → Nearest bs test b r
    → IsKept bs r
Nearest-IsKept bs test l k (here stop) = k
Nearest-IsKept bs test l k (back {b} {p} go found rest) =
    Nearest-IsKept bs test l (l.step b p k found).0 rest

or_raise_known :
    {V : Type 0} (found : Option V) (e : Exception)
    → e ≢ out_of_fuel
    → or_raise found e ≢ err out_of_fuel
or_raise_known none e h = λ p. absurd (h (err-injective p))
or_raise_known (some v) e h = λ p. cc

last_hash-in_time : (hashes : Option (List ℕ)) → last_hash hashes ≢ err out_of_fuel
last_hash-in_time none = λ e. cc
last_hash-in_time (some hashes) = or_raise_known (last? hashes) index_error (λ e. cc)

uint_sub-in_time : (w a b : ℕ) → uint_sub w a b ≢ err out_of_fuel
unfolding uint_sub
uint_sub-in_time w a b = ground arith

slots_of-in_time : (b : BlockRecord) → slots_of b ≢ err out_of_fuel
unfolding slots_of
slots_of-in_time b = go b.finished_challenge_slot_hashes b.finished_reward_slot_hashes
  where
    go :
        (challenges rewards : Option (List ℕ))
        → slots_of (record b {
          finished_challenge_slot_hashes = challenges;
          finished_reward_slot_hashes = rewards;
        })
          ≢ err out_of_fuel
    go none rewards = λ e. cc
    go (some challenges) none = λ e. cc
    go (some challenges) (some rewards) = λ e. cc

bind_in_time :
    {V W : Type 0} (call : Result V) (rest : V → Result W)
    → call ≢ err out_of_fuel
    → ((v : V) → call ≡ ok v → rest v ≢ err out_of_fuel)
    → (call >>= rest) ≢ err out_of_fuel
bind_in_time (err raised) rest h k = λ p. h (ap err (err-injective p))
bind_in_time (ok v) rest h k = k v refl

module _ (bs : Blockchain) (sp_total_iters sp_iters : ℕ) where
  find_stop :
      (fuel : ℕ) (found : List (ℕ × ℕ)) (pre : Option BlockRecord) (b : BlockRecord)
      → (ltb (length found) 2 && ltb 0 b.height) ≡ false
      → find_sub_slots bs sp_total_iters sp_iters (suc fuel) found pre b ≡ ok (found, (pre, b))
  unfolding find_sub_slots
  find_stop fuel found pre b h = rw (h, find_sub_slots) refl

  find_go :
      (fuel : ℕ) (found : List (ℕ × ℕ)) (pre : Option BlockRecord) (b : BlockRecord)
      → (ltb (length found) 2 && ltb 0 b.height) ≡ true
      → find_sub_slots bs sp_total_iters sp_iters (suc fuel) found pre b ≡ (
          block_record bs b.prev_hash >>= λ p. slots_of p >>= λ slots.
          find_sub_slots bs sp_total_iters sp_iters fuel
            (found ++ slots)
            (before_sp sp_total_iters b pre)
            p)
  unfolding find_sub_slots
  find_go fuel found pre b h = rw (h, find_sub_slots) refl

  find_sub_slots-in_time :
      (fuel : ℕ) (found : List (ℕ × ℕ)) (pre : Option BlockRecord) (b : BlockRecord)
      → IsLinked bs
      → IsKept bs b
      → b.height < fuel
      → find_sub_slots bs sp_total_iters sp_iters fuel found pre b ≢ err out_of_fuel
  find_sub_slots-in_time zero found pre b l k h = elim h [ ]
  find_sub_slots-in_time (suc fuel) found pre b l k h =
      elim (Bool-cases (ltb (length found) 2 && ltb 0 b.height)) [
        | inr stop ↦ rw (find_stop fuel found pre b stop) (λ e. cc)
        | inl goes ↦ rw (find_go fuel found pre b goes) (
            or_raise-in_time (bs.block_records b.prev_hash) key_error _ (λ e. cc)
              (λ p e.
                let (k', n) = l.step b p k e in
                >>=-in_time (slots_of p) _ (slots_of-in_time p) (λ slots.
                  find_sub_slots-in_time fuel (found ++ slots) (before_sp sp_total_iters b pre) p l
                    k' (omega (arith, n, h)))))
      ]

  start_from-in_time : (b : BlockRecord) → start_from bs sp_total_iters sp_iters b ≢ err out_of_fuel
  unfolding start_from
  start_from-in_time b = elim (Bool-cases (ltb b.total_iters sp_total_iters)) [
    | inl below ↦
        rw (below, start_from)
          (>>=-in_time (uint_sub 64 sp_total_iters b.total_iters) _
            (uint_sub-in_time 64 sp_total_iters b.total_iters) (λ n e. cc))
    | inr above ↦
        rw (above, start_from)
          (>>=-in_time (last_hash b.finished_reward_slot_hashes) _
            (last_hash-in_time b.finished_reward_slot_hashes) (λ n e. cc))
  ]

  from_previous-in_time :
      (b : BlockRecord)
      → IsLinked bs
      → IsKept bs b
      → from_previous bs sp_total_iters sp_iters b ≢ err out_of_fuel
  unfolding from_previous
  from_previous-in_time b l k =
      let after = lies_after sp_total_iters in
      bind_in_time (walk_back bs after (suc b.height) b) _
        (walk_back_fuel bs after (suc b.height) b l k (omega arith))
        (λ r e.
          >>=-in_time (start_from bs sp_total_iters sp_iters r) _ (start_from-in_time r) (λ start.
            >>=-in_time (walk_back bs inside_sub_slot (suc r.height) r) _
              (walk_back_fuel bs inside_sub_slot (suc r.height) r l
                (Nearest-IsKept bs after l k (walk_back-Nearest bs after _ b r e)) (omega arith))
              (λ first.
                >>=-in_time (last_hash first.finished_challenge_slot_hashes) _
                  (last_hash-in_time first.finished_challenge_slot_hashes) (λ n e. cc))))

  from_overflow-in_time :
      (b : BlockRecord)
      → IsLinked bs
      → IsKept bs b
      → from_overflow bs sp_total_iters sp_iters b ≢ err out_of_fuel
  unfolding from_overflow
  from_overflow-in_time b l k = >>=-in_time (slots_of b) _ (slots_of-in_time b) (λ slots.
      >>=-in_time (find_sub_slots bs sp_total_iters sp_iters (suc b.height) slots none b) _
        (find_sub_slots-in_time (suc b.height) slots none b l k (omega arith))
        (λ r. finish r.0 (before_sp sp_total_iters r.1.1 r.1.0)))
    where
      slot_in_time :
          (found : List (ℕ × ℕ)) (start : ℕ × ℕ → VdfStart)
          → (or_raise (get_elem? found 1) index_error >>= λ slot. ok (start slot)) ≢ err out_of_fuel
      slot_in_time found start =
          >>=-in_time (or_raise (get_elem? found 1) index_error) (λ slot. ok (start slot))
            (or_raise_known (get_elem? found 1) index_error (λ e. cc)) (λ slot e. cc)

      finish :
          (found : List (ℕ × ℕ)) (pre : Option BlockRecord)
          → (elim pre [
            | some sp_pre_sb ↦ uint_sub 64 sp_total_iters sp_pre_sb.total_iters >>= λ sp_vdf_iters.
                or_raise (get_elem? found 1) index_error >>= λ slot. ok (
                  vdf_start slot.0 sp_pre_sb.reward_infusion_new_challenge
                    sp_pre_sb.challenge_vdf_output sp_vdf_iters)
            | none ↦ or_raise (get_elem? found 1) index_error >>= λ slot.
                ok (vdf_start slot.0 slot.1 default_element sp_iters)
          ])
            ≢ err out_of_fuel
      finish found none =
          slot_in_time found (λ slot. vdf_start slot.0 slot.1 default_element sp_iters)
      finish found (some b) =
          >>=-in_time (uint_sub 64 sp_total_iters b.total_iters) _
            (uint_sub-in_time 64 sp_total_iters b.total_iters)
            (λ n.
              slot_in_time found
                (λ slot. vdf_start slot.0 b.reward_infusion_new_challenge b.challenge_vdf_output n))

  -- In a linked store that has the previous block under its hash, the start of the VDF is found
  -- without running out of fuel, in all of the six cases.
  pub get_signage_point_vdf_info-in_time :
      (hashes : Hashes) (c : Constants) (finished_sub_slots : List EndOfSubSlotBundle)
      (overflow : Bool) (prev_b : BlockRecord)
      → IsLinked bs
      → bs.block_records prev_b.header_hash ≡ some prev_b
      → get_signage_point_vdf_info bs sp_total_iters sp_iters hashes c finished_sub_slots overflow
          (some prev_b)
        ≢ err out_of_fuel
  unfolding get_signage_point_vdf_info
  get_signage_point_vdf_info-in_time hashes c finished_sub_slots overflow b l k =
      go (reverse finished_sub_slots) overflow
    where
      go :
          (slots : List EndOfSubSlotBundle) (overflow : Bool)
          → (elim slots [
            | [] ↦
                from_chain bs sp_total_iters sp_iters hashes c
                  (if overflow
                    then from_overflow bs sp_total_iters sp_iters
                    else from_previous bs sp_total_iters sp_iters)
                  (some b)
            | last ∷ [] ↦
                if overflow
                then from_chain bs sp_total_iters sp_iters hashes c
                    (from_previous bs sp_total_iters sp_iters)
                    (some b)
                else ok (from_slot bs sp_total_iters sp_iters hashes c last)
            | last ∷ before ∷ _ ↦
                ok (
                  from_slot bs sp_total_iters sp_iters hashes c (if overflow then before else last))
          ])
            ≢ err out_of_fuel
      go [] true = from_overflow-in_time b l k
      go [] false = from_previous-in_time b l k
      go (last ∷ []) true = from_previous-in_time b l k
      go (last ∷ []) false = λ e. cc
      go (last ∷ before ∷ slots) overflow = λ e. cc
