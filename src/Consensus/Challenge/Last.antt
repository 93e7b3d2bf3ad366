-- ===== src/Consensus/Challenge/Last.antt =====
-- Which challenges the search along the chain collects.
use mathlib.Core.List.{append-nil, append_assoc}
use corpochain_beacon_client.Base.{
  ℕ, zero, suc, ◌-◌, ◌≤◌, ◌≡◌, ◌==◌, ltb, refl, sym, ap, ◌∙◌, Bool, true, false, some, List, [],
  ◌++◌, length, get_elem?, ok, err, out_of_fuel, or_raise, require, assertion_error, ◌>>=◌, ◌>>◌,
  arith, ◌<◌, ◌≢◌, Option, none, some, key_error, index_error, ok-injective, or_raise-in_time,
  >>=-in_time, Bool-cases, inl, inr, ◌⊎◌, ==_iff, >>=-eq-ok, or_raise-eq-ok, ltb_false→le,
}
use corpochain_beacon_client.Consensus.Block.{BlockRecord, Blockchain, block_record}
use corpochain_beacon_client.Consensus.Chain.{IsLinked}
use corpochain_beacon_client.Consensus.Header.{HeaderBlock}
use corpochain_beacon_client.Consensus.Challenge.{
  slot_hashes, collect_challenges, challenge_of_chain,
}

module _ (bs : Blockchain) where
  -- The challenges of the sub-slots that ended from `b` back to some block, the latest first; the
  -- flag tells whether that block is the first of the chain.
  pub data Recent : BlockRecord → Bool → List ℕ → Type 0 where
    nothing : {b : BlockRecord} → Recent b false []
    first : {b : BlockRecord} → b.height ≡ 0 → Recent b true (slot_hashes b)
    back :
        {b p : BlockRecord} {whole : Bool} {hashes : List ℕ}
        → bs.block_records b.prev_hash ≡ some p
        → Recent p whole hashes
        → Recent b whole (slot_hashes b ++ hashes)

  enough_found :
      (fuel n : ℕ) (found : List ℕ) (b : BlockRecord)
      → ltb (length found) n ≡ false
      → collect_challenges bs (suc fuel) n found b ≡ ok found
  unfolding collect_challenges
  enough_found fuel n found b h = rw (h, collect_challenges) refl

  at_first :
      (fuel n : ℕ) (found : List ℕ) (b : BlockRecord)
      → ltb (length found) n ≡ true
      → (b.height == 0) ≡ true
      → collect_challenges bs (suc fuel) n found b ≡ (
          or_raise b.finished_challenge_slot_hashes assertion_error >>= λ hashes.
          (require (ltb 0 (length hashes)) assertion_error >> ok (found ++ slot_hashes b)))
  unfolding collect_challenges
  at_first fuel n found b h g = rw (h, collect_challenges) (rw (g, collect_challenges) refl)

  go_back :
      (fuel n : ℕ) (found : List ℕ) (b : BlockRecord)
      → ltb (length found) n ≡ true
      → (b.height == 0) ≡ false
      → collect_challenges bs (suc fuel) n found b ≡ (
          block_record bs b.prev_hash >>= λ p.
          collect_challenges bs fuel n (found ++ slot_hashes b) p)
  unfolding collect_challenges
  go_back fuel n found b h g = rw (h, collect_challenges) (rw (g, collect_challenges) refl)

  no_fuel :
      (n : ℕ) (found : List ℕ) (b : BlockRecord)
      → collect_challenges bs 0 n found b ≡ err out_of_fuel
  unfolding collect_challenges
  no_fuel n found b = refl

  pub collect_challenges-Recent :
      (fuel n : ℕ) (found : List ℕ) (b : BlockRecord) {result : List ℕ}
      → collect_challenges bs fuel n found b ≡ ok result
      → (whole : Bool) × (hashes : List ℕ) × Recent b whole hashes
        × (result ≡ found ++ hashes)
        × (n ≤ length result ⊎ whole ≡ true)
  collect_challenges-Recent zero n found b h = cc (no_fuel n found b)
  collect_challenges-Recent (suc fuel) n found b {result} h =
      elim (Bool-cases (ltb (length found) n)) [
        | inr enough ↦
            let same : found ≡ result =
              ok-injective (sym (enough_found fuel n found b enough) ∙ h) in
            (
              false,
              [],
              nothing,
              sym same ∙ sym (append-nil found),
              inl (omega (arith, ltb_false→le _ _ enough, ap length same)),
            )
        | inl few ↦ elim (Bool-cases (b.height == 0)) [
          | inl start ↦
              let (hashes, a, h1) =
                >>=-eq-ok (or_raise b.finished_challenge_slot_hashes assertion_error)
                  (λ hashes.
                    require (ltb 0 (length hashes)) assertion_error >> ok (found ++ slot_hashes b))
                  (sym (at_first fuel n found b few start) ∙ h) in
              let (_, r, h2) =
                >>=-eq-ok (require (ltb 0 (length hashes)) assertion_error)
                  (λ _. ok (found ++ slot_hashes b)) h1 in
              (true, slot_hashes b, first ((==_iff _ _).0 start), sym (ok-injective h2), inr refl)
          | inr later ↦
              let (p, e, h1) =
                >>=-eq-ok (block_record bs b.prev_hash)
                  (λ p. collect_challenges bs fuel n (found ++ slot_hashes b) p)
                  (sym (go_back fuel n found b few later) ∙ h) in
              let (whole, hashes, recent, same, reached) =
                collect_challenges-Recent fuel n (found ++ slot_hashes b) p h1 in
              (
                whole,
                slot_hashes b ++ hashes,
                back (or_raise-eq-ok _ _ e) recent,
                same ∙ append_assoc found (slot_hashes b) hashes,
                reached,
              )
        ]
      ]

  -- For a block that ended no sub-slot, the n-th challenge returned is the n-th latest of the challenges
  -- whose sub-slots ended in the blocks from its previous block back.
  pub challenge_of_chain-Recent :
      (h : HeaderBlock) (n : ℕ) {challenge : ℕ}
      → challenge_of_chain bs h n ≡ ok challenge
      → (b : BlockRecord) × (whole : Bool) × (hashes : List ℕ) × (bs.block_records
            h.prev_header_hash
          ≡ some b)
        × Recent b whole hashes
        × (get_elem? hashes (n - 1) ≡ some challenge)
  unfolding challenge_of_chain
  challenge_of_chain-Recent h n e =
      let (b, a, h1) = >>=-eq-ok (block_record bs h.prev_header_hash) _ e in
      let (found, f, h2) = >>=-eq-ok (collect_challenges bs (suc b.height) n [] b) _ h1 in
      let (whole, hashes, recent, same, reached) =
        collect_challenges-Recent (suc b.height) n [] b f in
      (
        b,
        whole,
        hashes,
        or_raise-eq-ok _ _ a,
        recent,
        ap (λ l. get_elem? l (n - 1)) (sym same) ∙ or_raise-eq-ok _ _ h2,
      )

  collect_challenges-in_time :
      (fuel n : ℕ) (found : List ℕ) (b : BlockRecord)
      → IsLinked bs
      → bs.block_records b.header_hash ≡ some b
      → b.height < fuel
      → collect_challenges bs fuel n found b ≢ err out_of_fuel
  collect_challenges-in_time zero n found b l k h = elim h [ ]
  collect_challenges-in_time (suc fuel) n found b l k h = elim (Bool-cases (ltb (length found) n)) [
    | inr enough ↦ rw (enough_found fuel n found b enough) (λ e. cc)
    | inl few ↦ elim (Bool-cases (b.height == 0)) [
      | inl start ↦ rw (at_first fuel n found b few start) (
          or_raise-in_time b.finished_challenge_slot_hashes assertion_error _ (λ e. cc)
            (λ hashes e. require-in_time (ltb 0 (length hashes)) (found ++ slot_hashes b)))
      | inr later ↦ rw (go_back fuel n found b few later) (
          or_raise-in_time (bs.block_records b.prev_hash) key_error _ (λ e. cc)
            (λ p e.
              let (k', m) = l.step b p k e in
              collect_challenges-in_time fuel n (found ++ slot_hashes b) p l k'
                (omega (arith, m, h))))
    ]
  ]
    where
      require-in_time :
          (b : Bool) (l : List ℕ) → (require b assertion_error >> ok l) ≢ err out_of_fuel
      require-in_time true l = λ e. cc
      require-in_time false l = λ e. cc

  -- In a linked store that has the previous block under its hash, the search for the challenge does
  -- not run out of fuel.
  pub challenge_of_chain-in_time :
      (h : HeaderBlock) (n : ℕ)
      → IsLinked bs
      → ((b : BlockRecord)
          → bs.block_records h.prev_header_hash ≡ some b
          → bs.block_records b.header_hash ≡ some b)
      → challenge_of_chain bs h n ≢ err out_of_fuel
  unfolding challenge_of_chain
  challenge_of_chain-in_time h n l keyed =
      or_raise-in_time (bs.block_records h.prev_header_hash) key_error _ (λ e. cc)
        (λ b e.
          >>=-in_time (collect_challenges bs (suc b.height) n [] b) _
            (collect_challenges-in_time (suc b.height) n [] b l (keyed b e) (omega arith))
            (λ found. last_step (get_elem? found (n - 1))))
    where
      last_step : (o : Option ℕ) → or_raise o index_error ≢ err out_of_fuel
      last_step none = λ e. cc
      last_step (some x) = λ e. cc
