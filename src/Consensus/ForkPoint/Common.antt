-- ===== src/Consensus/ForkPoint/Common.antt =====
-- The fork point is a block of both chains.
use mathlib.Core.Path.{subst}
use mathlib.Core.Bool.{decide}
use corpochain_beacon_client.Base.{
  ℕ, zero, suc, ◌+◌, ◌<◌, ◌≡◌, ◌≢◌, key_error, ◌==◌, ◌||◌, ltb, ltb_false→le, refl, sym, ap, ◌∙◌,
  true, false, some, if◌then◌else◌, ok, err, out_of_fuel, ◌>>=◌, arith, ok-injective,
  or_raise-in_time, Bool-cases, inl, inr, ==_iff, >>=-eq-ok, or_raise-eq-ok,
}
use corpochain_beacon_client.Base.Int.{ℤ, pos, negsuc}
use corpochain_beacon_client.Consensus.Block.{BlockRecord, Blockchain, block_record}
use corpochain_beacon_client.Consensus.Chain.{IsLinked}
use corpochain_beacon_client.Consensus.ForkPoint.{
  BlockRecord-discrete, find_fork_point_in_chain_fuel, find_fork_point_in_chain,
}

module _ (bs : Blockchain) where
  -- `r` is `b` or a block before it.
  pub data Ancestor : BlockRecord → BlockRecord → Type 0 where
    here : {b : BlockRecord} → Ancestor b b
    back :
        {b p r : BlockRecord} → bs.block_records b.prev_hash ≡ some p → Ancestor p r → Ancestor b r

  -- What the height returned says: the two chains have blocks of that height and of one header
  -- hash, or they have the same first block at height 0; -1 says that the first blocks differ.
  pub data Forks (block_1 block_2 : BlockRecord) : ℤ → Type 0 where
    shared :
        {a b : BlockRecord}
        → Ancestor block_1 a
        → Ancestor block_2 b
        → a.height ≡ b.height
        → a.header_hash ≡ b.header_hash
        → Forks block_1 block_2 (pos a.height)
    apart :
        {a b : BlockRecord}
        → Ancestor block_1 a
        → Ancestor block_2 b
        → a.height ≡ 0
        → b.height ≡ 0
        → b ≢ a
        → Forks block_1 block_2 (negsuc 0)

  back_1 :
      {x y p : BlockRecord} {n : ℤ}
      → bs.block_records x.prev_hash ≡ some p
      → Forks p y n
      → Forks x y n
  back_1 e (shared i j h k) = shared (back e i) j h k
  back_1 e (apart i j h k n) = apart (back e i) j h k n

  back_2 :
      {x y p : BlockRecord} {n : ℤ}
      → bs.block_records y.prev_hash ≡ some p
      → Forks x p n
      → Forks x y n
  back_2 e (shared i j h k) = shared i (back e j) h k
  back_2 e (apart i j h k n) = apart i (back e j) h k n

  pub at_start :
      (fuel : ℕ) (x y : BlockRecord)
      → (ltb 0 y.height || ltb 0 x.height) ≡ false
      → find_fork_point_in_chain_fuel bs (suc fuel) x y
        ≡ ok (if decide (BlockRecord-discrete y x) then pos 0 else negsuc 0)
  unfolding find_fork_point_in_chain_fuel
  at_start fuel x y h = rw (h, find_fork_point_in_chain_fuel) refl

  pub second_higher :
      (fuel : ℕ) (x y : BlockRecord)
      → (ltb 0 y.height || ltb 0 x.height) ≡ true
      → ltb x.height y.height ≡ true
      → find_fork_point_in_chain_fuel bs (suc fuel) x y
        ≡ (block_record bs y.prev_hash >>= λ p. find_fork_point_in_chain_fuel bs fuel x p)
  unfolding find_fork_point_in_chain_fuel
  second_higher fuel x y h l =
      rw (h, find_fork_point_in_chain_fuel) (rw (l, find_fork_point_in_chain_fuel) refl)

  pub first_higher :
      (fuel : ℕ) (x y : BlockRecord)
      → (ltb 0 y.height || ltb 0 x.height) ≡ true
      → ltb x.height y.height ≡ false
      → ltb y.height x.height ≡ true
      → find_fork_point_in_chain_fuel bs (suc fuel) x y
        ≡ (block_record bs x.prev_hash >>= λ p. find_fork_point_in_chain_fuel bs fuel p y)
  unfolding find_fork_point_in_chain_fuel
  first_higher fuel x y h l g =
      rw (h, find_fork_point_in_chain_fuel)
        (rw (l, find_fork_point_in_chain_fuel) (rw (g, find_fork_point_in_chain_fuel) refl))

  pub level :
      (fuel : ℕ) (x y : BlockRecord)
      → (ltb 0 y.height || ltb 0 x.height) ≡ true
      → ltb x.height y.height ≡ false
      → ltb y.height x.height ≡ false
      → find_fork_point_in_chain_fuel bs (suc fuel) x y ≡ elim (y.header_hash == x.header_hash) [
        | true ↦ ok (pos y.height)
        | false ↦ block_record bs y.prev_hash >>= λ p.
            block_record bs x.prev_hash >>= λ q. find_fork_point_in_chain_fuel bs fuel q p
      ]
  unfolding find_fork_point_in_chain_fuel
  level fuel x y h l g =
      rw (h, find_fork_point_in_chain_fuel)
        (rw (l, find_fork_point_in_chain_fuel) (rw (g, find_fork_point_in_chain_fuel) refl))

  pub no_fuel : (x y : BlockRecord) → find_fork_point_in_chain_fuel bs 0 x y ≡ err out_of_fuel
  unfolding find_fork_point_in_chain_fuel
  no_fuel x y = refl

  pub low :
      (x y : BlockRecord) → (ltb 0 y.height || ltb 0 x.height) ≡ false → x.height + y.height ≡ 0
  low x y h = ground arith

  at_start-Forks :
      (x y : BlockRecord) (d : Dec (y ≡ x))
      → x.height ≡ 0
      → y.height ≡ 0
      → Forks x y (if decide d then pos 0 else negsuc 0)
  unfolding decide
  at_start-Forks x y (yes e) hx hy =
      subst (λ t. Forks x y (pos t)) hx
        (shared here here (hx ∙ sym hy) (ap (λ z. z.header_hash) (sym e)))
  at_start-Forks x y (no ne) hx hy = apart here here hx hy ne

  pub find_fork_point_in_chain_fuel-Forks :
      (fuel : ℕ) (x y : BlockRecord) (n : ℤ)
      → find_fork_point_in_chain_fuel bs fuel x y ≡ ok n
      → Forks x y n
  find_fork_point_in_chain_fuel-Forks zero x y n h = cc (no_fuel x y)
  find_fork_point_in_chain_fuel-Forks (suc fuel) x y n h =
      elim (Bool-cases (ltb 0 y.height || ltb 0 x.height)) [
        | inr start ↦ subst (Forks x y) (ok-injective (sym (at_start fuel x y start) ∙ h)) (
            at_start-Forks x y (BlockRecord-discrete y x) (omega (arith, low x y start))
              (omega (arith, low x y start)))
        | inl above ↦ elim (Bool-cases (ltb x.height y.height)) [
          | inl second ↦
              let (p, e, h1) =
                >>=-eq-ok (block_record bs y.prev_hash)
                  (λ p. find_fork_point_in_chain_fuel bs fuel x p)
                  (sym (second_higher fuel x y above second) ∙ h) in
              back_2 (or_raise-eq-ok _ _ e) (find_fork_point_in_chain_fuel-Forks fuel x p n h1)
          | inr le ↦ elim (Bool-cases (ltb y.height x.height)) [
            | inl first ↦
                let (p, e, h1) =
                  >>=-eq-ok (block_record bs x.prev_hash)
                    (λ p. find_fork_point_in_chain_fuel bs fuel p y)
                    (sym (first_higher fuel x y above le first) ∙ h) in
                back_1 (or_raise-eq-ok _ _ e) (find_fork_point_in_chain_fuel-Forks fuel p y n h1)
            | inr ge ↦ elim (Bool-cases (y.header_hash == x.header_hash)) [
              | inl same ↦
                  let height : x.height ≡ y.height =
                    omega (arith, ltb_false→le _ _ le, ltb_false→le _ _ ge) in
                  subst (Forks x y)
                    (ap pos height
                      ∙ ok-injective (sym (level fuel x y above le ge ∙ rw same refl) ∙ h))
                    (shared here here height (sym ((==_iff _ _).0 same)))
              | inr other ↦
                  let (p, e, h1) =
                    >>=-eq-ok (block_record bs y.prev_hash)
                      (λ p. block_record bs x.prev_hash >>= λ q.
                        find_fork_point_in_chain_fuel bs fuel q p)
                      (sym (level fuel x y above le ge ∙ rw other refl) ∙ h) in
                  let (q, f, h2) =
                    >>=-eq-ok (block_record bs x.prev_hash)
                      (λ q. find_fork_point_in_chain_fuel bs fuel q p) h1 in
                  back_1 (or_raise-eq-ok _ _ f) (
                    back_2 (or_raise-eq-ok _ _ e)
                      (find_fork_point_in_chain_fuel-Forks fuel q p n h2))
            ]
          ]
        ]
      ]

  -- A height that is returned is that of a block before (or at) the one, and of a block before (or at)
  -- the other, of equal height and header hash; -1 is returned where the walk reached two different
  -- blocks of height 0.
  pub find_fork_point_in_chain-Forks :
      (x y : BlockRecord) (n : ℤ) → find_fork_point_in_chain bs x y ≡ ok n → Forks x y n
  unfolding find_fork_point_in_chain
  find_fork_point_in_chain-Forks x y n =
      find_fork_point_in_chain_fuel-Forks (suc (x.height + y.height)) x y n

  find_fork_point_in_chain_fuel-in_time :
      (fuel : ℕ) (x y : BlockRecord)
      → IsLinked bs
      → bs.block_records x.header_hash ≡ some x
      → bs.block_records y.header_hash ≡ some y
      → x.height + y.height < fuel
      → find_fork_point_in_chain_fuel bs fuel x y ≢ err out_of_fuel
  find_fork_point_in_chain_fuel-in_time zero x y l kx ky h = elim h [ ]
  find_fork_point_in_chain_fuel-in_time (suc fuel) x y l kx ky h =
      elim (Bool-cases (ltb 0 y.height || ltb 0 x.height)) [
        | inr start ↦ rw (at_start fuel x y start) (λ e. cc)
        | inl above ↦ elim (Bool-cases (ltb x.height y.height)) [
          | inl second ↦ rw (second_higher fuel x y above second) (
              or_raise-in_time (bs.block_records y.prev_hash) key_error _ (λ e. cc)
                (λ p e.
                  let (kp, n) = l.step y p ky e in
                  find_fork_point_in_chain_fuel-in_time fuel x p l kx kp (omega (arith, n, h))))
          | inr le ↦ elim (Bool-cases (ltb y.height x.height)) [
            | inl first ↦ rw (first_higher fuel x y above le first) (
                or_raise-in_time (bs.block_records x.prev_hash) key_error _ (λ e. cc)
                  (λ p e.
                    let (kp, n) = l.step x p kx e in
                    find_fork_point_in_chain_fuel-in_time fuel p y l kp ky (omega (arith, n, h))))
            | inr ge ↦ elim (Bool-cases (y.header_hash == x.header_hash)) [
              | inl same ↦ rw (level fuel x y above le ge) (rw same (λ e. cc))
              | inr other ↦ rw (level fuel x y above le ge) (
                  rw other (
                    or_raise-in_time (bs.block_records y.prev_hash) key_error _ (λ e. cc)
                      (λ p e.
                        or_raise-in_time (bs.block_records x.prev_hash) key_error _ (λ e. cc)
                          (λ q f.
                            let (kp, n) = l.step y p ky e in
                            let (kq, m) = l.step x q kx f in
                            find_fork_point_in_chain_fuel-in_time fuel q p l kq kp
                              (omega (arith, n, m, h))))))
            ]
          ]
        ]
      ]

  -- In a linked store that has both blocks, the search for the fork point never runs out of fuel.
  pub find_fork_point_in_chain-in_time :
      (x y : BlockRecord)
      → IsLinked bs
      → bs.block_records x.header_hash ≡ some x
      → bs.block_records y.header_hash ≡ some y
      → find_fork_point_in_chain bs x y ≢ err out_of_fuel
  unfolding find_fork_point_in_chain
  find_fork_point_in_chain-in_time x y l kx ky =
      find_fork_point_in_chain_fuel-in_time (suc (x.height + y.height)) x y l kx ky (omega arith)
