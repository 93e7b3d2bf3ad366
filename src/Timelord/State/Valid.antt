-- ===== src/Timelord/State/Valid.antt =====
-- The shape of a timelord's state, which `set_state` keeps: the assertions of `get_challenge` hold
-- on it for the challenge chain and the reward chain, and the cache of reward challenges is bounded.
use mathlib.Core.Path.{subst}
use corpochain_beacon_client.Base.{
  ℕ, ◌+◌, ◌*◌, ◌≤◌, ◌<◌, ◌≡◌, refl, true, Option, none, some, List, [], ◌∷◌, ◌++◌, is_some, last?,
  length, ok, arith, >>=-eq-ok, ok-injective, sym, ◌∙◌,
}
use corpochain_beacon_client.Consensus.Constants.{Constants}
use corpochain_beacon_client.Consensus.Iterations.{modulo}
use corpochain_beacon_client.Types.Blocks.{Hashes}
use corpochain_beacon_client.Types.Slots.{EndOfSubSlotBundle}
use corpochain_beacon_client.Timelord.{
  Chain, challenge_chain, reward_chain, infused_challenge_chain, bluebox, StateType, peak,
  end_of_sub_slot, first_sub_slot, NewPeakTimelord, iters_from_block,
}
use corpochain_beacon_client.Timelord.State.{
  LastState, trim, at_peak, at_end, total_after, epoch_after, get_challenge, note_challenge,
  set_peak, set_end, Target, new_peak, subslot, set_state,
}

-- A peak exactly in the state after a peak, an end of sub-slot exactly in the state after one.
abbrev pub Fits : StateType → Option NewPeakTimelord → Option EndOfSubSlotBundle → Type 0
Fits peak p e = (is_some p ≡ true) × (e ≡ none)
Fits end_of_sub_slot p e = (p ≡ none) × (is_some e ≡ true)
Fits first_sub_slot p e = (p ≡ none) × (e ≡ none)

pub record IsValid (c : Constants) (s : LastState) : Type 0 where
  pub fits : Fits s.state_type s.peak s.subslot_end
  pub bounded : length s.reward_challenge_cache ≤ 2 * c.max_sub_slot_blocks

length-trim : (n : ℕ) (cache : List (ℕ × ℕ)) → length (trim n cache) ≤ n
length-trim n [] = omega arith
length-trim n (item ∷ cache) = ground (arith, length-trim n cache)

last?-trim : (n : ℕ) (cache : List (ℕ × ℕ)) → 0 < n → last? (trim n cache) ≡ last? cache
last?-trim n [] h = refl
last?-trim n (item ∷ []) h = ground arith
last?-trim n (item ∷ next ∷ cache) h = ground (arith, last?-trim n (next ∷ cache) h)

last?-snoc : (cache : List (ℕ × ℕ)) (item : ℕ × ℕ) → last? (cache ++ item ∷ []) ≡ some item
last?-snoc [] item = refl
last?-snoc (x ∷ []) item = refl
last?-snoc (x ∷ y ∷ cache) item = last?-snoc (y ∷ cache) item

-- The chains that always have VDFs.
abbrev pub AlwaysRuns : Chain → Type 0
AlwaysRuns challenge_chain = Unit
AlwaysRuns reward_chain = Unit
AlwaysRuns infused_challenge_chain = ⊥
AlwaysRuns bluebox = ⊥

module _ (hashes : Hashes) (c : Constants) where
  -- In a state of the right shape, the challenge of the challenge chain or the reward chain is there.
  pub get_challenge-returns :
      (chain : Chain) (s : LastState)
      → Fits s.state_type s.peak s.subslot_end
      → AlwaysRuns chain
      → (challenge : ℕ) × (get_challenge hashes c s chain ≡ ok (some challenge))
  unfolding get_challenge
  get_challenge-returns infused_challenge_chain s fits runs = absurd runs
  get_challenge-returns bluebox s fits runs = absurd runs
  get_challenge-returns challenge_chain s fits runs = go s.state_type s.peak s.subslot_end fits
    where
      go :
          (t : StateType) (p : Option NewPeakTimelord) (e : Option EndOfSubSlotBundle)
          → Fits t p e
          → (challenge : ℕ) × (get_challenge hashes c
                (record s { state_type = t; peak = p; subslot_end = e })
                challenge_chain
              ≡ ok (some challenge))
      go peak none e f = absurd (ground arith)
      go peak (some p) e f = (_, refl)
      go end_of_sub_slot p none f = absurd (ground arith)
      go end_of_sub_slot p (some e) f = (_, refl)
      go first_sub_slot (some p) e f = absurd (ground arith)
      go first_sub_slot none (some e) f = absurd (ground arith)
      go first_sub_slot none none f = (_, refl)
  get_challenge-returns reward_chain s fits runs = go s.state_type s.peak s.subslot_end fits
    where
      go :
          (t : StateType) (p : Option NewPeakTimelord) (e : Option EndOfSubSlotBundle)
          → Fits t p e
          → (challenge : ℕ) × (get_challenge hashes c
                (record s { state_type = t; peak = p; subslot_end = e })
                reward_chain
              ≡ ok (some challenge))
      go peak none e f = absurd (ground arith)
      go peak (some p) e f = (_, refl)
      go end_of_sub_slot p none f = absurd (ground arith)
      go end_of_sub_slot p (some e) f = (_, refl)
      go first_sub_slot (some p) e f = absurd (ground arith)
      go first_sub_slot none (some e) f = absurd (ground arith)
      go first_sub_slot none none f = (_, refl)

  abbrev pub noted : LastState → ℕ → LastState
  noted s challenge = record s {
    reward_challenge_cache =
        trim (2 * c.max_sub_slot_blocks)
          (s.reward_challenge_cache ++ (challenge, s.total_iters) ∷ []);
  }

  pub note_challenge-returns :
      (s : LastState)
      → Fits s.state_type s.peak s.subslot_end
      → (challenge : ℕ) × (note_challenge hashes c s ≡ ok (noted s challenge))
        × (get_challenge hashes c s reward_chain ≡ ok (some challenge))
  unfolding note_challenge
  note_challenge-returns s fits =
      let (challenge, e) = get_challenge-returns reward_chain s fits tt in (challenge, rw e refl, e)

  -- What a state is after `set_state`: of the right shape, with its reward challenge the newest of
  -- a bounded cache.
  pub record IsNoted (s : LastState) : Type 0 where
    pub valid : IsValid c s
    pub newest :
        (challenge : ℕ) × (get_challenge hashes c s reward_chain ≡ ok (some challenge))
        × (last? s.reward_challenge_cache ≡ some (challenge, s.total_iters))

  get_challenge-noted :
      (s : LastState) (n : ℕ) (chain : Chain)
      → get_challenge hashes c (noted s n) chain ≡ get_challenge hashes c s chain
  unfolding get_challenge
  get_challenge-noted s n chain = refl

  pub note_challenge-IsNoted :
      (s s' : LastState)
      → 0 < c.max_sub_slot_blocks
      → note_challenge hashes c s ≡ ok s'
      → Fits s.state_type s.peak s.subslot_end
      → IsNoted s'
  note_challenge-IsNoted s s' some_blocks h fits =
      let (challenge, e, reward) = note_challenge-returns s fits in
      let entry : ℕ × ℕ = (challenge, s.total_iters) in
      subst IsNoted (ok-injective (sym e ∙ h)) (record {
        valid = record { fits = fits; bounded = length-trim _ _ };
        newest = (
          challenge,
          get_challenge-noted s challenge reward_chain ∙ reward,
          last?-trim _ (s.reward_challenge_cache ++ entry ∷ []) (omega arith)
              ∙ last?-snoc s.reward_challenge_cache entry,
        );
      })

  module _ (std_hash : List ℕ → List ℕ) (validate_proof : List ℕ → ℕ → ℕ → List ℕ → List ℕ) where
    -- After a peak or the end of a sub-slot is set, the state is of the right shape, its cache
    -- holds twice the blocks of a sub-slot at most, and the newest entry of the cache is the state's
    -- reward challenge with its total iterations. The constants allow a block in a sub-slot.
    pub set_state-IsNoted :
        (target : Target) (s s' : LastState)
        → 0 < c.max_sub_slot_blocks
        → set_state hashes c std_hash validate_proof target s ≡ ok s'
        → IsNoted s'
    unfolding set_state set_peak set_end
    set_state-IsNoted (new_peak p) s s' some_blocks h =
        let b = p.reward_chain_block in
        let (iters, e, rest) =
          >>=-eq-ok
            (iters_from_block hashes std_hash validate_proof c b p.sub_slot_iters p.difficulty) _
            h in
        let (past, e', last) =
          >>=-eq-ok (modulo (b.height + 1) c.sub_epoch_blocks)
            (λ past. note_challenge hashes c (at_peak hashes c p iters.1 past s)) rest in
        note_challenge-IsNoted (at_peak hashes c p iters.1 past s) s' some_blocks last (refl, refl)
    set_state-IsNoted (subslot b) s s' some_blocks h =
        let (total, e, rest) = >>=-eq-ok (total_after hashes c s) _ h in
        let (epoch, e', last) =
          >>=-eq-ok (epoch_after hashes c b s)
            (λ epoch. note_challenge hashes c (at_end hashes c b total epoch s)) rest in
        note_challenge-IsNoted (at_end hashes c b total epoch s) s' some_blocks last (refl, refl)
