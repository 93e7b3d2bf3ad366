-- ===== src/Consensus/ForkPoint/Highest.antt =====
-- The fork point is the highest block that the two chains share.
use mathlib.Core.Path.{subst}
use mathlib.Core.Bool.{decide}
use corpochain_beacon_client.Base.{
  ℕ, zero, suc, ◌+◌, ◌≤◌, ◌<◌, ◌≡◌, ◌⊎◌, ◌==◌, ◌||◌, ltb, ltb_false→le, ltb→lt, refl, sym, ap, ◌∙◌,
  true, false, some, if◌then◌else◌, ok, ◌>>=◌, arith, ok-injective, Bool-cases, inl, inr, ==_iff,
  >>=-eq-ok, or_raise-eq-ok, some_cancel,
}
use corpochain_beacon_client.Base.Int.{ℤ, pos, negsuc}
use corpochain_beacon_client.Consensus.Block.{BlockRecord, Blockchain, block_record}
use corpochain_beacon_client.Consensus.Chain.{IsLinked}
use corpochain_beacon_client.Consensus.ForkPoint.{
  BlockRecord-discrete, find_fork_point_in_chain_fuel, find_fork_point_in_chain,
}
use corpochain_beacon_client.Consensus.ForkPoint.Common.{
  Ancestor, here, back, Forks, at_start, second_higher, first_higher, level, no_fuel, low,
  find_fork_point_in_chain-Forks,
}

module _ (bs : Blockchain) where
  Ancestor-cases :
      {x a : BlockRecord}
      → Ancestor bs x a
      → (a ≡ x) ⊎ ((p : BlockRecord) × (bs.block_records x.prev_hash ≡ some p) × Ancestor bs p a)
  Ancestor-cases here = inl refl
  Ancestor-cases (back {p = p} e rest) = inr (p, e, rest)

  Ancestor-height :
      {x a : BlockRecord}
      → IsLinked bs
      → bs.block_records x.header_hash ≡ some x
      → Ancestor bs x a
      → a.height ≤ x.height
  Ancestor-height l k here = omega arith
  Ancestor-height {x} l k (back {p = p} e rest) =
      let (kp, n) = l.step x p k e in omega (arith, n, Ancestor-height l kp rest)

  -- A block of the chain as high as its end is the end.
  Ancestor-top :
      (x a : BlockRecord)
      → IsLinked bs
      → bs.block_records x.header_hash ≡ some x
      → Ancestor bs x a
      → x.height ≤ a.height
      → a ≡ x
  Ancestor-top x a l k i h = elim (Ancestor-cases i) [
    | inl same ↦ same
    | inr (p, e, rest) ↦
        let (kp, n) = l.step x p k e in absurd (omega (arith, n, h, Ancestor-height l kp rest))
  ]

  -- A lower one is a block of the chain of the block before.
  Ancestor-below :
      (x p a : BlockRecord)
      → bs.block_records x.prev_hash ≡ some p
      → Ancestor bs x a
      → a.height < x.height
      → Ancestor bs p a
  Ancestor-below x p a e i h = elim (Ancestor-cases i) [
    | inl same ↦ absurd (omega (arith, h, ap (λ (b : BlockRecord). b.height) same))
    | inr (q, f, rest) ↦ subst (λ z. Ancestor bs z a) (some_cancel (sym f ∙ e)) rest
  ]

  abbrev pub AtMost : ℕ → ℤ → Type 0
  AtMost k (pos h) = k ≤ h
  AtMost k (negsuc h) = ⊥

  -- No block of both chains is higher; at -1 there is none.
  abbrev pub Highest : BlockRecord → BlockRecord → ℤ → Type 0
  Highest x y n =
      (a b : BlockRecord)
      → Ancestor bs x a
      → Ancestor bs y b
      → a.height ≡ b.height
      → a.header_hash ≡ b.header_hash
      → AtMost a.height n

  at_start-Highest :
      (x y : BlockRecord) (d : Dec (y ≡ x))
      → IsLinked bs
      → bs.block_records x.header_hash ≡ some x
      → bs.block_records y.header_hash ≡ some y
      → x.height ≡ 0
      → y.height ≡ 0
      → Highest x y (if decide d then pos 0 else negsuc 0)
  unfolding decide
  at_start-Highest x y (yes e) l kx ky hx hy a b i j h k = omega (arith, hx, Ancestor-height l kx i)
  at_start-Highest x y (no ne) l kx ky hx hy a b i j h k =
      let a_x = Ancestor-top x a l kx i (omega (arith, hx)) in
      let b_y = Ancestor-top y b l ky j (omega (arith, hy)) in
      let hash =
        sym (ap (λ (z : BlockRecord). z.header_hash) b_y)
        ∙ sym k
        ∙ ap (λ (z : BlockRecord). z.header_hash) a_x in
      absurd (ne (some_cancel (sym ky ∙ ap bs.block_records hash ∙ kx)))

  find_fork_point_in_chain_fuel-Highest :
      (fuel : ℕ) (x y : BlockRecord) (n : ℤ)
      → IsLinked bs
      → bs.block_records x.header_hash ≡ some x
      → bs.block_records y.header_hash ≡ some y
      → find_fork_point_in_chain_fuel bs fuel x y ≡ ok n
      → Highest x y n
  find_fork_point_in_chain_fuel-Highest zero x y n l kx ky h = cc (no_fuel bs x y)
  find_fork_point_in_chain_fuel-Highest (suc fuel) x y n l kx ky h =
      elim (Bool-cases (ltb 0 y.height || ltb 0 x.height)) [
        | inr start ↦ subst (Highest x y) (ok-injective (sym (at_start bs fuel x y start) ∙ h)) (
            at_start-Highest x y (BlockRecord-discrete y x) l kx ky
              (omega (arith, low bs x y start)) (omega (arith, low bs x y start)))
        | inl above ↦ elim (Bool-cases (ltb x.height y.height)) [
          | inl second ↦
              let (p, e, h1) =
                >>=-eq-ok (block_record bs y.prev_hash)
                  (λ p. find_fork_point_in_chain_fuel bs fuel x p)
                  (sym (second_higher bs fuel x y above second) ∙ h) in
              let e' = or_raise-eq-ok _ _ e in
              let (kp, m) = l.step y p ky e' in
              λ a b i j same hash.
                find_fork_point_in_chain_fuel-Highest fuel x p n l kx kp h1 a b i
                  (Ancestor-below y p b e' j
                    (omega (arith, same, ltb→lt _ _ second, Ancestor-height l kx i)))
                  same hash
          | inr le ↦ elim (Bool-cases (ltb y.height x.height)) [
            | inl first ↦
                let (p, e, h1) =
                  >>=-eq-ok (block_record bs x.prev_hash)
                    (λ p. find_fork_point_in_chain_fuel bs fuel p y)
                    (sym (first_higher bs fuel x y above le first) ∙ h) in
                let e' = or_raise-eq-ok _ _ e in
                let (kp, m) = l.step x p kx e' in
                λ a b i j same hash.
                  find_fork_point_in_chain_fuel-Highest fuel p y n l kp ky h1 a b
                    (Ancestor-below x p a e' i
                      (omega (arith, same, ltb→lt _ _ first, Ancestor-height l ky j)))
                    j same hash
            | inr ge ↦
                let height : x.height ≡ y.height =
                  omega (arith, ltb_false→le _ _ le, ltb_false→le _ _ ge) in
                elim (Bool-cases (y.header_hash == x.header_hash)) [
                  | inl same ↦
                      let found : pos y.height ≡ n =
                        ok-injective (sym (level bs fuel x y above le ge ∙ rw same refl) ∙ h) in
                      subst (Highest x y) found
                        (λ a b i j eq hash. omega (arith, height, Ancestor-height l kx i))
                  | inr other ↦
                      let (p, e, h1) =
                        >>=-eq-ok (block_record bs y.prev_hash)
                          (λ p. block_record bs x.prev_hash >>= λ q.
                            find_fork_point_in_chain_fuel bs fuel q p)
                          (sym (level bs fuel x y above le ge ∙ rw other refl) ∙ h) in
                      let (q, f, h2) =
                        >>=-eq-ok (block_record bs x.prev_hash)
                          (λ q. find_fork_point_in_chain_fuel bs fuel q p) h1 in
                      let e' = or_raise-eq-ok _ _ e in
                      let f' = or_raise-eq-ok _ _ f in
                      let (kp, m) = l.step y p ky e' in
                      let (kq, o) = l.step x q kx f' in
                      λ a b i j eq hash.
                        let under = lower x y a b l kx ky i j height eq hash other in
                        find_fork_point_in_chain_fuel-Highest fuel q p n l kq kp h2 a b
                          (Ancestor-below x q a f' i under)
                          (Ancestor-below y p b e' j (omega (arith, under, height, eq))) eq hash
                ]
          ]
        ]
      ]
    where
      lower :
          (x y a b : BlockRecord)
          → IsLinked bs
          → bs.block_records x.header_hash ≡ some x
          → bs.block_records y.header_hash ≡ some y
          → Ancestor bs x a
          → Ancestor bs y b
          → x.height ≡ y.height
          → a.height ≡ b.height
          → a.header_hash ≡ b.header_hash
          → (y.header_hash == x.header_hash) ≡ false
          → a.height < x.height
      lower x y a b l kx ky i j height eq hash other = elim (Bool-cases (ltb a.height x.height)) [
        | inl under ↦ ltb→lt _ _ under
        | inr top ↦
            let a_x = Ancestor-top x a l kx i (ltb_false→le _ _ top) in
            let b_y = Ancestor-top y b l ky j (omega (arith, ltb_false→le _ _ top, height, eq)) in
            let same =
              sym (ap (λ (z : BlockRecord). z.header_hash) b_y)
              ∙ sym hash
              ∙ ap (λ (z : BlockRecord). z.header_hash) a_x in
            absurd (differ (sym other ∙ (==_iff _ _).1 same))
      ]
        where
          differ : false ≡ true → ⊥
          differ e = cc

  -- In a linked store that has both blocks, a height that is returned is that of a block of both
  -- chains, and no block of both chains is higher; -1 is returned only where the first blocks of the
  -- two chains differ, and then the chains share no block. A block of both chains is one of equal
  -- height and header hash.
  pub find_fork_point_in_chain-Highest :
      (x y : BlockRecord) (n : ℤ)
      → IsLinked bs
      → bs.block_records x.header_hash ≡ some x
      → bs.block_records y.header_hash ≡ some y
      → find_fork_point_in_chain bs x y ≡ ok n
      → Forks bs x y n × Highest x y n
  unfolding find_fork_point_in_chain
  find_fork_point_in_chain-Highest x y n l kx ky h = (
    find_fork_point_in_chain-Forks bs x y n h,
    find_fork_point_in_chain_fuel-Highest (suc (x.height + y.height)) x y n l kx ky h,
  )
