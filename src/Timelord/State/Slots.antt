-- ===== src/Timelord/State/Slots.antt =====
-- The state of a timelord at the end of a sub-slot.
use corpochain_beacon_client.Base.{
  ℕ, ◌+◌, ◌≤◌, ◌<◌, ◌^◌, ◌≡◌, ◌-◌, refl, Bool, true, false, not, ◌&&◌, Option, none, some,
  if◌then◌else◌, is_some, ok, arith,
}
use corpochain_beacon_client.Ints.{uint}
use corpochain_beacon_client.Ints.Range.{uint_sub_lem}
use corpochain_beacon_client.Consensus.Constants.{Constants}
use corpochain_beacon_client.Types.Blocks.{Hashes}
use corpochain_beacon_client.Types.Slots.{EndOfSubSlotBundle}
use corpochain_beacon_client.Timelord.{NewPeakTimelord}
use corpochain_beacon_client.Timelord.State.{
  LastState, at_end, total_after, epoch_after, set_end, can_infuse_block,
  get_next_sub_epoch_summary,
}
use corpochain_beacon_client.Timelord.State.Valid.{noted, note_challenge-returns}

-- The iterations of the sub-slot that are done at the state: up to the peak's infusion point.
abbrev pub done_iters : LastState → ℕ
done_iters s = if is_some s.peak then s.last_ip else 0

-- The new parameters come together or not at all.
abbrev pub Together : Option ℕ → Option ℕ → Type 0
Together none sub_slot_iters = Unit
Together (some difficulty) sub_slot_iters = is_some sub_slot_iters ≡ true

-- The parameters of the next sub-slot.
abbrev pub or_else : Option ℕ → ℕ → ℕ
or_else none n = n
or_else (some m) n = m

module _ (hashes : Hashes) (c : Constants) where
  total_after-returns :
      (s : LastState)
      → done_iters s ≤ s.total_iters + s.sub_slot_iters
      → s.total_iters + s.sub_slot_iters < 2 ^ 128
      → total_after hashes c s ≡ ok (s.total_iters + s.sub_slot_iters - done_iters s)
  unfolding uint
  total_after-returns s room small = go s.peak room
    where
      go :
          (p : Option NewPeakTimelord)
          → done_iters (record s { peak = p }) ≤ s.total_iters + s.sub_slot_iters
          → total_after hashes c (record s { peak = p })
            ≡ ok (s.total_iters + s.sub_slot_iters - done_iters (record s { peak = p }))
      go none room = ground arith
      go (some p) room =
          uint_sub_lem 128 (s.total_iters + s.sub_slot_iters) s.last_ip room (omega arith)

  epoch_from : Option ℕ → Option ℕ → LastState → ℕ × (ℕ × Bool)
  epoch_from difficulty sub_slot_iters s = (
    or_else difficulty s.difficulty,
    (
      (if is_some difficulty then or_else sub_slot_iters s.sub_slot_iters else s.sub_slot_iters),
      is_some difficulty,
    ),
  )

  epoch_of : EndOfSubSlotBundle → LastState → ℕ × (ℕ × Bool)
  unfolding epoch_from
  epoch_of b s = epoch_from b.challenge_chain.new_difficulty b.challenge_chain.new_sub_slot_iters s

  epoch_after-returns :
      (b : EndOfSubSlotBundle) (s : LastState)
      → Together b.challenge_chain.new_difficulty b.challenge_chain.new_sub_slot_iters
      → epoch_after hashes c b s ≡ ok (epoch_of b s)
  unfolding epoch_of epoch_from
  epoch_after-returns b s together =
      go b.challenge_chain.new_difficulty b.challenge_chain.new_sub_slot_iters together
    where
      go :
          (difficulty sub_slot_iters : Option ℕ)
          → Together difficulty sub_slot_iters
          → let chain = record b.challenge_chain {
            new_difficulty = difficulty;
            new_sub_slot_iters = sub_slot_iters;
          } in
            epoch_after hashes c (record b { challenge_chain = chain }) s
            ≡ ok (epoch_from difficulty sub_slot_iters s)
      go none ssi h = refl
      go (some d) none h = absurd (ground arith)
      go (some d) (some i) h = refl

  -- The end of a sub-slot can be set where the total iterations fit in 128 bits and reach the
  -- infusion point of the peak, and new parameters come together. The total then stands at the start
  -- of the next sub-slot: the iterations done in the old one are left off, and the whole sub-slot is
  -- added. The difficulty and the sub-slot iterations are the new ones if there are any, a block can
  -- be infused unless it overflows into a new epoch, and no summary can come before a peak.
  pub set_end-returns :
      (b : EndOfSubSlotBundle) (s : LastState)
      → done_iters s ≤ s.total_iters + s.sub_slot_iters
      → s.total_iters + s.sub_slot_iters < 2 ^ 128
      → Together b.challenge_chain.new_difficulty b.challenge_chain.new_sub_slot_iters
      → (s' : LastState) × (set_end hashes c b s ≡ ok s')
        × (s'.total_iters + done_iters s ≡ s.total_iters + s.sub_slot_iters)
        × (done_iters s' ≡ 0)
        × (s'.difficulty ≡ or_else b.challenge_chain.new_difficulty s.difficulty)
        × (s'.sub_slot_iters ≡ (
            if is_some b.challenge_chain.new_difficulty
            then or_else b.challenge_chain.new_sub_slot_iters s.sub_slot_iters
            else s.sub_slot_iters))
        × ((overflow : Bool)
            → can_infuse_block hashes c overflow s'
              ≡ not (overflow && is_some b.challenge_chain.new_difficulty))
        × (get_next_sub_epoch_summary s' ≡ ok none)
  unfolding set_end epoch_of epoch_from can_infuse_block get_next_sub_epoch_summary
  set_end-returns b s room small together =
      let total = s.total_iters + s.sub_slot_iters - done_iters s in
      let at = at_end hashes c b total (epoch_of b s) s in
      let (challenge, e, reward) = note_challenge-returns hashes c at (refl, refl) in
      (
        noted hashes c at challenge,
        rw (total_after-returns s room small) (rw (epoch_after-returns b s together) e),
        omega arith,
        refl,
        refl,
        refl,
        (λ overflow. infuse overflow (is_some b.challenge_chain.new_difficulty)),
        refl,
      )
    where
      infuse :
          (a b : Bool) → (if a && b then false else if true then true else false) ≡ not (a && b)
      infuse true true = refl
      infuse true false = refl
      infuse false b = refl
