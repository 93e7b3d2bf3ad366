-- ===== src/Types/Proofs/Accepted.antt =====
-- What holds of a proof of space that is accepted.
use mathlib.Core.Path.{subst}
use native.Mathlib.Nat.{div-lt_iff_lt-mul, one-le-pow}
use corpochain_beacon_client.Base.{
  ℕ, ◌-◌, ◌/◌, ◌^◌, ◌≤◌, ◌<◌, ◌≡◌, ◌≢◌, ◌↔◌, ◌⊎◌, inl, inr, refl, false, Option, none, some, List,
  ◌++◌, ltb, ◌==◌, if◌then◌else◌, length, ok, ◌>>=◌, arith, not, sym, ◌∙◌, ap, some_cancel, ==_iff,
  lt→ltb, ltb→lt, ltb_false→le, Bool-cases,
}
use corpochain_beacon_client.Ints.{of_digits}
use corpochain_beacon_client.Consensus.Constants.{Constants}
use corpochain_beacon_client.Types.Proofs.{
  ProofOfSpace, bytes32, calculate_plot_id_pk, calculate_plot_id_ph, calculate_plot_filter_input,
  calculate_pos_challenge, passes_plot_filter, get_quality_string, verify_and_get_quality_string,
}

module _ (std_hash : List ℕ → List ℕ) (validate_proof : List ℕ → ℕ → ℕ → List ℕ → List ℕ)
    (c : Constants) (original_challenge_hash signage_point : ℕ) where
  -- The hash that the plot filter reads.
  abbrev pub filter_hash : List ℕ → List ℕ
  filter_hash plot_id =
      std_hash (plot_id ++ (bytes32 original_challenge_hash ++ bytes32 signage_point))

  -- The proof is for a plot of a size in range, its challenge is the hash of the filter's hash, that
  -- one starts with the zero bits, and the verifier answers the quality string of 32 bytes.
  pub record IsProof (pos : ProofOfSpace) (plot_id quality : List ℕ) : Type 0 where
    pub smallest : c.min_plot_size ≤ pos.size
    pub largest : pos.size ≤ c.max_plot_size
    pub challenge : of_digits 0 (std_hash (filter_hash plot_id)) ≡ pos.challenge
    pub filter : of_digits 0 (filter_hash plot_id) < 2 ^ (256 - c.number_zero_bits_plot_filter)
    pub valid : validate_proof plot_id pos.size pos.challenge pos.proof ≡ quality
    pub accepted : length quality ≡ 32

  -- The plot id of a proof with exactly one of the two pool fields.
  abbrev pub plot_id_of : Option (List ℕ) → Option (List ℕ) → List ℕ → Option (List ℕ)
  plot_id_of (some key) none plot_key = some (std_hash (key ++ plot_key))
  plot_id_of none (some hash) plot_key = some (std_hash (hash ++ plot_key))
  plot_id_of none none plot_key = none
  plot_id_of (some key) (some hash) plot_key = none

  -- The answer without the ways to raise.
  abbrev answer : Option (List ℕ) → ProofOfSpace → Option (List ℕ)
  answer none pos = none
  answer (some plot_id) pos =
      if ltb pos.size c.min_plot_size
      then none
      else if ltb c.max_plot_size pos.size
      then none
      else if not (of_digits 0 (std_hash (filter_hash plot_id)) == pos.challenge)
      then none
      else if ltb (of_digits 0 (filter_hash plot_id)) (2 ^ (256 - c.number_zero_bits_plot_filter))
      then if length (validate_proof plot_id pos.size pos.challenge pos.proof) == 0
        then none
        else some (validate_proof plot_id pos.size pos.challenge pos.proof)
      else none

  -- What chiapos promises: an empty string, or one of 32 bytes.
  abbrev pub Answers : Type 0
  Answers =
      (plot_id : List ℕ) (size challenge : ℕ) (proof : List ℕ)
      → (length (validate_proof plot_id size challenge proof) ≡ 0)
        ⊎ (length (validate_proof plot_id size challenge proof) ≡ 32)

  power_pos : (n : ℕ) → 0 < 2 ^ n
  power_pos n = one-le-pow n 2 (omega arith)

  below : (x n : ℕ) → (x / 2 ^ n == 0) ≡ ltb x (2 ^ n)
  below x n =
      let small = div-lt_iff_lt-mul {k = 2 ^ n} {x = x} {y = 1} (power_pos n) in
      elim (Bool-cases (ltb x (2 ^ n))) [
        | inl low ↦
            (==_iff _ _).1 (omega (arith, small.1 (omega (arith, ltb→lt _ _ low)))) ∙ sym low
        | inr high ↦ not_zero x n (ltb_false→le _ _ high) ∙ sym high
      ]
    where
      not_zero : (x n : ℕ) → 2 ^ n ≤ x → (x / 2 ^ n == 0) ≡ false
      not_zero x n h = elim (Bool-cases (x / 2 ^ n == 0)) [
        | inr other ↦ other
        | inl same ↦
            let small = div-lt_iff_lt-mul {k = 2 ^ n} {x = x} {y = 1} (power_pos n) in
            absurd (omega (arith, h, small.0 (omega (arith, (==_iff _ _).0 same))))
      ]

  passes_plot_filter-below :
      (plot_id : List ℕ)
      → 0 < c.number_zero_bits_plot_filter
      → passes_plot_filter std_hash c plot_id original_challenge_hash signage_point
        ≡ ok (ltb (of_digits 0 (filter_hash plot_id)) (2 ^ (256 - c.number_zero_bits_plot_filter)))
  unfolding passes_plot_filter calculate_plot_filter_input
  passes_plot_filter-below plot_id h =
      rw (lt→ltb _ _ h)
        (ap ok (below (of_digits 0 (filter_hash plot_id)) (256 - c.number_zero_bits_plot_filter)))

  get_quality_string-returns :
      (pos : ProofOfSpace) (plot_id : List ℕ)
      → Answers
      → get_quality_string validate_proof pos plot_id
        ≡ ok (
            if length (validate_proof plot_id pos.size pos.challenge pos.proof) == 0
            then none
            else some (validate_proof plot_id pos.size pos.challenge pos.proof))
  unfolding get_quality_string
  get_quality_string-returns pos plot_id answers =
      elim (answers plot_id pos.size pos.challenge pos.proof) [
        | inl empty ↦ rw empty refl
        | inr full ↦ rw full refl
      ]

  verify_answer :
      (pos : ProofOfSpace)
      → 0 < c.number_zero_bits_plot_filter
      → Answers
      → verify_and_get_quality_string std_hash validate_proof pos c original_challenge_hash
          signage_point
        ≡ ok (
            answer
              (plot_id_of pos.pool_public_key pos.pool_contract_puzzle_hash pos.plot_public_key)
              pos)
  unfolding verify_and_get_quality_string calculate_plot_id_pk calculate_plot_id_ph
      calculate_pos_challenge calculate_plot_filter_input
  verify_answer pos bits answers = go pos.pool_public_key pos.pool_contract_puzzle_hash
    where
      found :
          (pos : ProofOfSpace) (id : List ℕ)
          → (if ltb pos.size c.min_plot_size
              then ok none
              else if ltb c.max_plot_size pos.size
              then ok none
              else if not (of_digits 0 (std_hash (filter_hash id)) == pos.challenge)
              then ok none
              else (do
                passes ← passes_plot_filter std_hash c id original_challenge_hash signage_point
                (if passes then get_quality_string validate_proof pos id else ok none)))
            ≡ ok (answer (some id) pos)
      found pos id =
          rw (passes_plot_filter-below id bits, get_quality_string-returns pos id answers)
            (ground arith)

      go :
          (key hash : Option (List ℕ))
          → verify_and_get_quality_string std_hash validate_proof
              (record pos { pool_public_key = key; pool_contract_puzzle_hash = hash })
              c
              original_challenge_hash
              signage_point
            ≡ ok (
                answer
                  (plot_id_of key hash pos.plot_public_key)
                  (record pos { pool_public_key = key; pool_contract_puzzle_hash = hash }))
      go none none = refl
      go (some key) (some hash) = refl
      go (some key) none =
          found (record pos { pool_public_key = some key; pool_contract_puzzle_hash = none })
            (std_hash (key ++ pos.plot_public_key))
      go none (some hash) =
          found (record pos { pool_public_key = none; pool_contract_puzzle_hash = some hash })
            (std_hash (hash ++ pos.plot_public_key))

  answer_iff :
      (pos : ProofOfSpace) (plot_id : List ℕ) (quality : List ℕ)
      → Answers
      → (answer (some plot_id) pos ≡ some quality) ↔ IsProof pos plot_id quality
  answer_iff pos plot_id quality answers = (there, back)
    where
      full :
          length (validate_proof plot_id pos.size pos.challenge pos.proof) ≢ 0
          → length (validate_proof plot_id pos.size pos.challenge pos.proof) ≡ 32
      full some_bytes = elim (answers plot_id pos.size pos.challenge pos.proof) [
        | inl empty ↦ absurd (some_bytes empty)
        | inr whole ↦ whole
      ]

      there : answer (some plot_id) pos ≡ some quality → IsProof pos plot_id quality
      there h = record {
        smallest = ground arith;
        largest = ground arith;
        challenge = ground arith;
        filter = ground arith;
        valid = ground arith;
        accepted =
            let q : validate_proof plot_id pos.size pos.challenge pos.proof ≡ quality =
              ground arith in
            ap length (sym q) ∙ full (λ empty. ground arith);
      }

      back : IsProof pos plot_id quality → answer (some plot_id) pos ≡ some quality
      back p =
          let a = p.smallest in
          let b = p.largest in
          let d = p.challenge in
          let e = p.filter in let f = p.valid in let g = p.accepted in ground arith

  -- Where the plot filter has a bit and the verifier answers an empty string or one of 32 bytes, the
  -- verification of a proof of space returns. It answers a quality string exactly if one of the
  -- two pool fields is there and not the other, and for the plot id that is the hash of that field
  -- and the plot's key: the size is in range, the challenge is the hash of the hash of plot id,
  -- challenge and signage point, that inner hash starts with as many zero bits as the filter asks
  -- for, and the string is what the verifier answers and has 32 bytes.
  pub verify_and_get_quality_string_iff :
      (pos : ProofOfSpace)
      → 0 < c.number_zero_bits_plot_filter
      → Answers
      → (r : Option (List ℕ)) × (verify_and_get_quality_string std_hash validate_proof pos c
            original_challenge_hash signage_point
          ≡ ok r)
        × ((quality : List ℕ)
            → (r ≡ some quality) ↔ (
                (plot_id : List ℕ) × (plot_id_of pos.pool_public_key pos.pool_contract_puzzle_hash
                    pos.plot_public_key
                  ≡ some plot_id)
                × IsProof pos plot_id quality))
  verify_and_get_quality_string_iff pos bits answers =
      (answer plot_id pos, verify_answer pos bits answers, λ quality. iff plot_id quality)
    where
      plot_id : Option (List ℕ)
      plot_id = plot_id_of pos.pool_public_key pos.pool_contract_puzzle_hash pos.plot_public_key

      iff :
          (id : Option (List ℕ)) (quality : List ℕ)
          → (answer id pos ≡ some quality)
            ↔ ((plot_id : List ℕ) × (id ≡ some plot_id) × IsProof pos plot_id quality)
      iff none quality = ((λ h. cc), λ h. cc)
      iff (some id) quality = (
        (λ h. (id, refl, (answer_iff pos id quality answers).0 h)),
        λ (i, e, p).
            (answer_iff pos id quality answers).1
              (subst (λ j. IsProof pos j quality) (sym (some_cancel e)) p),
      )
