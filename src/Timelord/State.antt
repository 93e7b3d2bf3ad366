-- ===== src/Timelord/State.antt =====
-- The state of a timelord: `LastState` of corpochain/timelord/timelord_state.py. An exception of
-- `set_state` leaves no state in the model, where the code would leave a part of the fields set.
pub mod Valid
pub mod Slots
use corpochain_beacon_client.Base.{
  ℕ, ◌+◌, ◌-◌, ◌*◌, ◌%◌, Bool, true, false, not, ◌&&◌, ◌||◌, Option, none, some, List, [], ◌∷◌,
  ◌++◌, ltb, leb, ◌==◌, if◌then◌else◌, is_some, length, Result, ok, err, assertion_error,
  zero_division_error, ◌>>=◌, ◌>>◌, require, raise_if, or_raise,
}
use corpochain_beacon_client.Ints.{uint, uint_sub}
use corpochain_beacon_client.Consensus.Constants.{Constants}
use corpochain_beacon_client.Consensus.Block.{SubEpochSummary}
use corpochain_beacon_client.Consensus.Iterations.{modulo}
use corpochain_beacon_client.Types.Proofs.{default_element}
use corpochain_beacon_client.Types.Slots.{EndOfSubSlotBundle}
use corpochain_beacon_client.Types.Blocks.{Hashes}
use corpochain_beacon_client.Timelord.{
  Chain, challenge_chain, reward_chain, infused_challenge_chain, bluebox, StateType, peak,
  end_of_sub_slot, first_sub_slot, NewPeakTimelord, iters_from_block,
}

pub record LastState : Type 0 where
  pub state_type : StateType
  pub peak : Option NewPeakTimelord
  pub subslot_end : Option EndOfSubSlotBundle
  pub last_ip : ℕ
  pub deficit : ℕ
  pub sub_epoch_summary : Option SubEpochSummary
  pub last_weight : ℕ
  pub last_height : ℕ
  pub total_iters : ℕ
  pub last_challenge_sb_or_eos_total_iters : ℕ
  pub last_block_total_iters : Option ℕ
  pub last_peak_challenge : ℕ
  pub difficulty : ℕ
  pub sub_slot_iters : ℕ
  pub reward_challenge_cache : List (ℕ × ℕ)
  pub new_epoch : Bool
  pub passed_ses_height_but_not_yet_included : Bool
  pub infused_ses : Bool

abbrev pub is_peak : StateType → Bool
is_peak peak = true
is_peak end_of_sub_slot = false
is_peak first_sub_slot = false

-- `while len(cache) > bound: cache.pop(0)`
abbrev pub trim : ℕ → List (ℕ × ℕ) → List (ℕ × ℕ)
trim bound [] = []
trim bound (item ∷ cache) =
    if ltb bound (length (item ∷ cache)) then trim bound cache else item ∷ cache

-- `already_infused_count`
abbrev pub count_after : ℕ → List (ℕ × ℕ) → ℕ
count_after ss_start_iters [] = 0
count_after ss_start_iters (item ∷ cache) =
    if ltb ss_start_iters item.1
    then count_after ss_start_iters cache + 1
    else count_after ss_start_iters cache

module _ (hashes : Hashes) (c : Constants) where
  abbrev pub init : LastState
  init = record {
    state_type = first_sub_slot;
    peak = none;
    subslot_end = none;
    last_ip = 0;
    deficit = c.min_blocks_per_challenge_block;
    sub_epoch_summary = none;
    last_weight = 0;
    last_height = 0;
    total_iters = 0;
    last_challenge_sb_or_eos_total_iters = 0;
    last_block_total_iters = none;
    last_peak_challenge = c.genesis_challenge;
    difficulty = c.difficulty_starting;
    sub_slot_iters = c.sub_slot_iters_starting;
    reward_challenge_cache = (c.genesis_challenge, 0) ∷ [];
    new_epoch = false;
    passed_ses_height_but_not_yet_included = false;
    infused_ses = false;
  }

  -- The challenge of a peak, of the end of a sub-slot, and of the first sub-slot.
  abbrev pub challenge_of_peak : NewPeakTimelord → Chain → Option ℕ
  challenge_of_peak p challenge_chain = some p.reward_chain_block.challenge_chain_ip_vdf.challenge
  challenge_of_peak p reward_chain = some (hashes.reward_chain_block p.reward_chain_block)
  challenge_of_peak p infused_challenge_chain =
      let b = p.reward_chain_block in
      elim b.infused_challenge_chain_ip_vdf [
        | some vdf ↦ some vdf.challenge
        | none ↦
            if p.deficit + 1 == c.min_blocks_per_challenge_block
            then some (
                hashes.challenge_block_info (record {
                  proof_of_space = b.proof_of_space;
                  challenge_chain_sp_vdf = b.challenge_chain_sp_vdf;
                  challenge_chain_sp_signature = b.challenge_chain_sp_signature;
                  challenge_chain_ip_vdf = b.challenge_chain_ip_vdf;
                }))
            else none
      ]
  challenge_of_peak p bluebox = none

  abbrev pub challenge_of_end : EndOfSubSlotBundle → Chain → Result (Option ℕ)
  challenge_of_end e challenge_chain = ok (some (hashes.challenge_chain e.challenge_chain))
  challenge_of_end e reward_chain = ok (some (hashes.reward_chain e.reward_chain))
  challenge_of_end e infused_challenge_chain =
      if ltb e.reward_chain.deficit c.min_blocks_per_challenge_block
      then (do
        infused ← or_raise e.infused_challenge_chain assertion_error
        ok (some (hashes.infused_challenge_chain infused)))
      else ok none
  challenge_of_end e bluebox = ok none

  abbrev pub challenge_of_genesis : Chain → Option ℕ
  challenge_of_genesis challenge_chain = some c.genesis_challenge
  challenge_of_genesis reward_chain = some c.genesis_challenge
  challenge_of_genesis infused_challenge_chain = none
  challenge_of_genesis bluebox = none

  unfoldable pub get_challenge : LastState → Chain → Result (Option ℕ)
  get_challenge s chain = elim s.state_type [
    | first_sub_slot ↦ do
      require (not (is_some s.peak) && not (is_some s.subslot_end)) assertion_error
      ok (challenge_of_genesis chain)
    | peak ↦ do p ← or_raise s.peak assertion_error; ok (challenge_of_peak p chain)
    | end_of_sub_slot ↦ do e ← or_raise s.subslot_end assertion_error; challenge_of_end e chain
  ]

  abbrev pub form_of_peak : NewPeakTimelord → Chain → Option ℕ
  form_of_peak p challenge_chain = some p.reward_chain_block.challenge_chain_ip_vdf.output
  form_of_peak p reward_chain = some default_element
  form_of_peak p infused_challenge_chain =
      elim p.reward_chain_block.infused_challenge_chain_ip_vdf [
        | some vdf ↦ some vdf.output
        | none ↦
            if p.deficit + 1 == c.min_blocks_per_challenge_block then some default_element else none
      ]
  form_of_peak p bluebox = none

  abbrev pub form_of_end : Option EndOfSubSlotBundle → Chain → Result (Option ℕ)
  form_of_end subslot_end challenge_chain = ok (some default_element)
  form_of_end subslot_end reward_chain = ok (some default_element)
  form_of_end subslot_end infused_challenge_chain = do
    e ← or_raise subslot_end assertion_error
    (if ltb e.reward_chain.deficit c.min_blocks_per_challenge_block
        then ok (some default_element)
        else ok none)
  form_of_end subslot_end bluebox = ok none

  unfoldable pub get_initial_form : LastState → Chain → Result (Option ℕ)
  get_initial_form s chain = elim s.state_type [
    | first_sub_slot ↦ ok (some default_element)
    | peak ↦ do p ← or_raise s.peak assertion_error; ok (form_of_peak p chain)
    | end_of_sub_slot ↦ form_of_end s.subslot_end chain
  ]

  -- The end of `set_state`: the new reward challenge goes to the cache.
  unfoldable pub note_challenge : LastState → Result LastState
  unfolding get_challenge
  note_challenge s = do
    challenge ← get_challenge s reward_chain
    reward_challenge ← or_raise challenge assertion_error
    ok (record s {
      reward_challenge_cache =
          trim (2 * c.max_sub_slot_blocks)
            (s.reward_challenge_cache ++ (reward_challenge, s.total_iters) ∷ []);
    })

  -- The fields that a peak sets, with its infusion point and the remainder of its next height.
  abbrev pub at_peak : NewPeakTimelord → ℕ → ℕ → LastState → LastState
  at_peak p ip_iters past s =
      let b = p.reward_chain_block in
      record s {
        state_type = peak;
        peak = some p;
        subslot_end = none;
        last_ip = ip_iters;
        deficit = p.deficit;
        sub_epoch_summary = p.sub_epoch_summary;
        last_weight = b.weight;
        last_height = b.height;
        total_iters = b.total_iters;
        last_peak_challenge = hashes.reward_chain_block b;
        difficulty = p.difficulty;
        sub_slot_iters = p.sub_slot_iters;
        last_block_total_iters =
            if b.is_transaction_block then some b.total_iters else s.last_block_total_iters;
        reward_challenge_cache = p.previous_reward_challenges;
        last_challenge_sb_or_eos_total_iters = p.last_challenge_sb_or_eos_total_iters;
        new_epoch = false;
        passed_ses_height_but_not_yet_included =
            if past == 0 then true else p.passes_ses_height_but_not_yet_included;
      }

  module _ (std_hash : List ℕ → List ℕ) (validate_proof : List ℕ → ℕ → ℕ → List ℕ → List ℕ) where
    unfoldable pub set_peak : NewPeakTimelord → LastState → Result LastState
    unfolding iters_from_block note_challenge
    set_peak p s =
        let b = p.reward_chain_block in
        do
          iters ← iters_from_block hashes std_hash validate_proof c b p.sub_slot_iters p.difficulty
          past ← modulo (b.height + 1) c.sub_epoch_blocks
          note_challenge (at_peak p iters.1 past s)

  -- The difficulty and the sub-slot iterations, and whether a new epoch starts.
  abbrev pub epoch_after : EndOfSubSlotBundle → LastState → Result (ℕ × (ℕ × Bool))
  epoch_after e s = elim e.challenge_chain.new_difficulty [
    | none ↦ ok (s.difficulty, (s.sub_slot_iters, false))
    | some difficulty ↦ do
      sub_slot_iters ← or_raise e.challenge_chain.new_sub_slot_iters assertion_error
      ok (difficulty, (sub_slot_iters, true))
  ]

  -- The fields that the end of a sub-slot sets.
  abbrev pub at_end : EndOfSubSlotBundle → ℕ → ℕ × (ℕ × Bool) → LastState → LastState
  at_end e total_iters epoch s =
      let infuses = is_some e.challenge_chain.subepoch_summary_hash in
      record s {
        state_type = end_of_sub_slot;
        total_iters = total_iters;
        peak = none;
        subslot_end = some e;
        last_ip = 0;
        deficit = e.reward_chain.deficit;
        difficulty = epoch.0;
        sub_slot_iters = epoch.1.0;
        new_epoch = epoch.1.1;
        infused_ses = infuses;
        passed_ses_height_but_not_yet_included =
            if infuses then false else s.passed_ses_height_but_not_yet_included;
        last_challenge_sb_or_eos_total_iters = total_iters;
      }

  abbrev pub total_after : LastState → Result ℕ
  total_after s =
      if is_some s.peak
      then uint_sub 128 (s.total_iters + s.sub_slot_iters) s.last_ip
      else uint 128 (s.total_iters + s.sub_slot_iters)

  unfoldable pub set_end : EndOfSubSlotBundle → LastState → Result LastState
  unfolding note_challenge uint uint_sub
  set_end e s = do
    total_iters ← total_after s
    epoch ← epoch_after e s
    note_challenge (at_end e total_iters epoch s)

  -- `ss_start_iters` may be negative, and then everything lies after it.
  unfoldable pub can_infuse_block : Bool → LastState → Bool
  can_infuse_block overflow s =
      if overflow && s.new_epoch
      then false
      else if not (is_peak s.state_type)
      then true
      else if leb c.max_sub_slot_blocks (
          if leb s.last_ip s.total_iters
          then count_after (s.total_iters - s.last_ip) s.reward_challenge_cache
          else length s.reward_challenge_cache)
      then false
      else true

-- What `set_state` is called with.
pub data Target : Type 0 where
  new_peak : NewPeakTimelord → Target
  subslot : EndOfSubSlotBundle → Target

unfoldable pub set_state :
    Hashes
    → Constants
    → (List ℕ → List ℕ)
    → (List ℕ → ℕ → ℕ → List ℕ → List ℕ)
    → Target
    → LastState
    → Result LastState
unfolding set_peak set_end
set_state hashes c std_hash validate_proof (new_peak p) s =
    set_peak hashes c std_hash validate_proof p s
set_state hashes c std_hash validate_proof (subslot e) s = set_end hashes c e s

unfoldable pub get_next_sub_epoch_summary : LastState → Result (Option SubEpochSummary)
get_next_sub_epoch_summary s = if not (is_peak s.state_type) then ok none else (do
  require (is_some s.peak) assertion_error
  (if s.passed_ses_height_but_not_yet_included && s.deficit == 0
      then ok s.sub_epoch_summary
      else ok none))

unfoldable pub just_infused_sub_epoch_summary : LastState → Bool
just_infused_sub_epoch_summary s = elim s.state_type [
  | end_of_sub_slot ↦ s.infused_ses
  | peak ↦ false
  | first_sub_slot ↦ false
]
