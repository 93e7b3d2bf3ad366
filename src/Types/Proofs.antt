-- ===== src/Types/Proofs.antt =====
-- Proofs of time and of space: corpochain/types/blockchain_format/classgroup.py, vdf.py and
-- proof_of_space.py. `std_hash` and `Verifier().validate_proof`, which answers an empty string for
-- a proof that is not valid, are parameters.
pub mod Accepted
use corpochain_beacon_client.Base.{
  ℕ, ◌+◌, ◌-◌, ◌*◌, ◌/◌, ◌^◌, Bool, true, false, not, ◌&&◌, ◌||◌, Option, none, some, List, [],
  ◌++◌, ltb, leb, ◌==◌, if◌then◌else◌, is_some, length, Result, ok, err, assertion_error,
  value_error, ◌>>=◌, ◌>>◌, require, or_raise,
}
use corpochain_beacon_client.Ints.{to_digits, of_digits}
use corpochain_beacon_client.Consensus.Constants.{Constants}

-- `ClassgroupElement.get_default_element()`: the byte 8 and 99 zeros
abbrev pub default_element : ℕ
default_element = 8 * 256 ^ 99

pub record VdfInfo : Type 0 where
  pub challenge : ℕ
  pub number_of_iterations : ℕ
  pub output : ℕ

pub record VdfProof : Type 0 where
  pub witness_type : ℕ
  pub witness : List ℕ
  pub normalized_to_identity : Bool

pub record ProofOfSpace : Type 0 where
  pub challenge : ℕ
  pub pool_public_key : Option (List ℕ)
  pub pool_contract_puzzle_hash : Option (List ℕ)
  pub plot_public_key : List ℕ
  pub size : ℕ
  pub proof : List ℕ

abbrev pub same_vdf_info : VdfInfo → VdfInfo → Bool
same_vdf_info a b =
    a.challenge == b.challenge
    && (a.number_of_iterations == b.number_of_iterations && a.output == b.output)

-- `is_valid` with the call of `verify_vdf` as a parameter, none where it raises.
unfoldable pub is_valid_vdf :
    (VdfInfo → ℕ → List ℕ → ℕ → ℕ → Option Bool)
    → Constants
    → VdfProof
    → ℕ
    → VdfInfo
    → Option VdfInfo
    → Bool
is_valid_vdf verify_vdf c p input_el info target_vdf_info =
    if elim target_vdf_info [ none ↦ false | some target ↦ not (same_vdf_info info target) ]
    then false
    else if ltb c.max_vdf_witness_size (p.witness_type + 1)
    then false
    else elim (verify_vdf info input_el p.witness c.discriminant_size_bits p.witness_type) [
      | none ↦ false
      | some valid ↦ valid
    ]

-- The 32 bytes of a hash.
unfoldable pub bytes32 : ℕ → List ℕ
unfolding to_digits
bytes32 n = to_digits 32 n []

unfoldable pub get_quality_string :
    (List ℕ → ℕ → ℕ → List ℕ → List ℕ) → ProofOfSpace → List ℕ → Result (Option (List ℕ))
get_quality_string validate_proof pos plot_id =
    let quality_str = validate_proof plot_id pos.size pos.challenge pos.proof in
    if length quality_str == 0
    then ok none
    else (do require (length quality_str == 32) value_error; ok (some quality_str))

module _ (std_hash : List ℕ → List ℕ) where
  unfoldable pub calculate_plot_id_pk : List ℕ → List ℕ → List ℕ
  calculate_plot_id_pk pool_public_key plot_public_key =
      std_hash (pool_public_key ++ plot_public_key)

  unfoldable pub calculate_plot_id_ph : List ℕ → List ℕ → List ℕ
  calculate_plot_id_ph pool_contract_puzzle_hash plot_public_key =
      std_hash (pool_contract_puzzle_hash ++ plot_public_key)

  unfoldable pub calculate_plot_filter_input : List ℕ → ℕ → ℕ → List ℕ
  unfolding bytes32
  calculate_plot_filter_input plot_id challenge_hash signage_point =
      std_hash (plot_id ++ (bytes32 challenge_hash ++ bytes32 signage_point))

  unfoldable pub calculate_pos_challenge : List ℕ → ℕ → ℕ → List ℕ
  unfolding calculate_plot_filter_input
  calculate_pos_challenge plot_id challenge_hash signage_point =
      std_hash (calculate_plot_filter_input plot_id challenge_hash signage_point)

  -- The first bits of the 256, as a number; without a bit there is none, and `uint` raises.
  unfoldable pub passes_plot_filter : Constants → List ℕ → ℕ → ℕ → Result Bool
  unfolding calculate_plot_filter_input of_digits
  passes_plot_filter c plot_id challenge_hash signage_point = do
    require (ltb 0 c.number_zero_bits_plot_filter) value_error
    ok (
        of_digits 0 (calculate_plot_filter_input plot_id challenge_hash signage_point)
          / 2 ^ (256 - c.number_zero_bits_plot_filter)
        == 0)

  unfoldable pub get_plot_id : ProofOfSpace → Result (List ℕ)
  unfolding calculate_plot_id_pk calculate_plot_id_ph
  get_plot_id pos = do
    require (not (is_some pos.pool_public_key) || not (is_some pos.pool_contract_puzzle_hash))
        assertion_error
    elim pos.pool_public_key [
      | some key ↦ ok (calculate_plot_id_pk key pos.plot_public_key)
      | none ↦ do
        hash ← or_raise pos.pool_contract_puzzle_hash assertion_error
        ok (calculate_plot_id_ph hash pos.plot_public_key)
    ]

  unfoldable pub verify_and_get_quality_string :
      (List ℕ → ℕ → ℕ → List ℕ → List ℕ)
      → ProofOfSpace
      → Constants
      → ℕ
      → ℕ
      → Result (Option (List ℕ))
  unfolding get_plot_id calculate_pos_challenge passes_plot_filter get_quality_string of_digits
  verify_and_get_quality_string validate_proof pos c original_challenge_hash signage_point =
      if not (is_some pos.pool_public_key) && not (is_some pos.pool_contract_puzzle_hash)
      then ok none
      else if is_some pos.pool_public_key && is_some pos.pool_contract_puzzle_hash
      then ok none
      else if ltb pos.size c.min_plot_size
      then ok none
      else if ltb c.max_plot_size pos.size
      then ok none
      else (do
        plot_id ← get_plot_id pos
        let new_challenge = calculate_pos_challenge plot_id original_challenge_hash signage_point
        (if not (of_digits 0 new_challenge == pos.challenge) then ok none else (do
          passes ← passes_plot_filter c plot_id original_challenge_hash signage_point
          (if passes then get_quality_string validate_proof pos plot_id else ok none))))
