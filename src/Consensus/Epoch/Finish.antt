-- ===== src/Consensus/Epoch/Finish.antt =====
-- What the two flags of can_finish_sub_and_full_epoch say.
use mathlib.Core.Path.{subst}
use native.Mathlib.Nat.{mod-add-div', mul-mod_left}
use corpochain_beacon_client.Base.{
  some_cancel, or_raise-eq-ok, ltb_false→le, ltb→lt, lt→ltb, ==_iff, ◌↔◌, ◌<◌, ◌-◌, ◌*◌, ◌/◌, ℕ,
  zero, suc, ◌+◌, ◌%◌, ◌≤◌, ◌≡◌, Bool, true, false, none, some, ltb, is_some, ok, err, out_of_fuel,
  key_error, or_raise, refl, sym, ◌∙◌, ap, arith, Bool-cases, Option-cases, inl, inr, ok-injective,
  >>=-eq-ok,
}
use corpochain_beacon_client.Ints.{uint}
use corpochain_beacon_client.Ints.Range.{uint-eq-ok}
use corpochain_beacon_client.Consensus.Iterations.Division.{modulo-eq-ok}
use corpochain_beacon_client.Consensus.Constants.{Constants}
use corpochain_beacon_client.Consensus.Iterations.{modulo}
use corpochain_beacon_client.Consensus.Block.{BlockRecord, Blockchain, block_record}
use corpochain_beacon_client.Consensus.Epoch.{
  height_can_be_first_in_epoch, summary_in_sub_epoch, summary_before, finish_epoch,
  can_finish_sub_and_full_epoch,
}

module _ (c : Constants) (bs : Blockchain) where
  -- `b` is a block from `curr` back to the first block of the sub-epoch of `curr`.
  pub data InSubEpoch : BlockRecord → BlockRecord → Type 0 where
    here : {b : BlockRecord} → InSubEpoch b b
    back :
        {curr p b : BlockRecord}
        → ltb 0 (curr.height % c.sub_epoch_blocks) ≡ true
        → bs.block_records curr.prev_hash ≡ some p
        → InSubEpoch p b
        → InSubEpoch curr b

  abbrev pub included : BlockRecord → Bool
  included b = is_some b.sub_epoch_summary_included

  pub stop_here :
      (fuel : ℕ) (b : BlockRecord)
      → ltb 0 (b.height % c.sub_epoch_blocks) ≡ false
      → summary_in_sub_epoch c bs (suc fuel) b ≡ ok (included b)
  unfolding summary_in_sub_epoch
  stop_here fuel b h = rw (h, summary_in_sub_epoch) refl

  pub found_here :
      (fuel : ℕ) (b : BlockRecord)
      → ltb 0 (b.height % c.sub_epoch_blocks) ≡ true
      → included b ≡ true
      → summary_in_sub_epoch c bs (suc fuel) b ≡ ok true
  unfolding summary_in_sub_epoch
  found_here fuel b h e = rw (h, summary_in_sub_epoch) (rw (e, summary_in_sub_epoch) refl)

  pub missing_here :
      (fuel : ℕ) (b : BlockRecord)
      → ltb 0 (b.height % c.sub_epoch_blocks) ≡ true
      → included b ≡ false
      → bs.block_records b.prev_hash ≡ none
      → summary_in_sub_epoch c bs (suc fuel) b ≡ err key_error
  unfolding summary_in_sub_epoch
  missing_here fuel b h e m =
      rw (h, summary_in_sub_epoch) (rw (e, summary_in_sub_epoch) (rw (m, or_raise) refl))

  pub go_back :
      (fuel : ℕ) (b p : BlockRecord)
      → ltb 0 (b.height % c.sub_epoch_blocks) ≡ true
      → included b ≡ false
      → bs.block_records b.prev_hash ≡ some p
      → summary_in_sub_epoch c bs (suc fuel) b ≡ summary_in_sub_epoch c bs fuel p
  unfolding summary_in_sub_epoch
  go_back fuel b p h e m =
      rw (h, summary_in_sub_epoch) (rw (e, summary_in_sub_epoch) (rw (m, or_raise) refl))

  no_fuel : (b : BlockRecord) → summary_in_sub_epoch c bs 0 b ≡ err out_of_fuel
  unfolding summary_in_sub_epoch
  no_fuel b = refl

  pub summary_in_sub_epoch-true :
      (fuel : ℕ) (curr : BlockRecord)
      → summary_in_sub_epoch c bs fuel curr ≡ ok true
      → (b : BlockRecord) × InSubEpoch curr b × (included b ≡ true)
  summary_in_sub_epoch-true zero curr h = cc (no_fuel curr)
  summary_in_sub_epoch-true (suc fuel) curr h = elim (Bool-cases (included curr)) [
    | inl yes_here ↦ (curr, here, yes_here)
    | inr e ↦ elim (Bool-cases (ltb 0 (curr.height % c.sub_epoch_blocks))) [
      | inr start ↦ (curr, here, ok-injective (sym (stop_here fuel curr start) ∙ h))
      | inl inside ↦ elim (Option-cases (bs.block_records curr.prev_hash)) [
        | inl missing ↦ cc (missing_here fuel curr inside e missing)
        | inr (p, m) ↦
            let (b, i, s) =
              summary_in_sub_epoch-true fuel p (sym (go_back fuel curr p inside e m) ∙ h) in
            (b, back inside m i, s)
      ]
    ]
  ]

  alone :
      {x y : BlockRecord}
      → InSubEpoch x y
      → ltb 0 (x.height % c.sub_epoch_blocks) ≡ false
      → included x ≡ false
      → included y ≡ false
  alone here s e = e
  alone (back inside m i) s e = cc

  from_here :
      (x p y : BlockRecord)
      → included x ≡ false
      → bs.block_records x.prev_hash ≡ some p
      → (InSubEpoch p y → included y ≡ false)
      → InSubEpoch x y
      → included y ≡ false
  from_here x p y e m ih here = e
  from_here x p y e m ih (back inside n i) =
      ih (subst (λ z. InSubEpoch z y) (some_cancel (sym n ∙ m)) i)

  pub summary_in_sub_epoch-false :
      (fuel : ℕ) (curr b : BlockRecord)
      → summary_in_sub_epoch c bs fuel curr ≡ ok false
      → InSubEpoch curr b
      → included b ≡ false
  summary_in_sub_epoch-false zero curr b h i = cc (no_fuel curr)
  summary_in_sub_epoch-false (suc fuel) curr b h i =
      elim (Bool-cases (ltb 0 (curr.height % c.sub_epoch_blocks))) [
        | inr start ↦ alone i start (ok-injective (sym (stop_here fuel curr start) ∙ h))
        | inl inside ↦ elim (Bool-cases (included curr)) [
          | inl e ↦ cc (found_here fuel curr inside e)
          | inr e ↦ elim (Option-cases (bs.block_records curr.prev_hash)) [
            | inl missing ↦ cc (missing_here fuel curr inside e missing)
            | inr (p, m) ↦
                from_here curr p b e m
                  (summary_in_sub_epoch-false fuel p b (sym (go_back fuel curr p inside e m) ∙ h)) i
          ]
        ]
      ]

  height_can_be_first_in_epoch_iff :
      (height : ℕ) {first : Bool}
      → height_can_be_first_in_epoch c height ≡ ok first
      → (first ≡ true)
        ↔ ((epochs : ℕ) × (height - height % c.sub_epoch_blocks ≡ epochs * c.epoch_blocks))
  unfolding height_can_be_first_in_epoch
  height_can_be_first_in_epoch_iff height {first} h =
      let (offset, o, h1) = >>=-eq-ok (modulo height c.sub_epoch_blocks) _ h in
      let (remainder, r, h2) = >>=-eq-ok (modulo (height - offset) c.epoch_blocks) _ h1 in
      let offset_eq = (modulo-eq-ok _ _ o).0 in
      let remainder_eq = (modulo-eq-ok _ _ r).0 in
      let start = height - offset in
      let split = mod-add-div' start c.epoch_blocks in
      (
        (λ yes_first.
            let zero_rest = (==_iff remainder 0).0 (ok-injective h2 ∙ yes_first) in
            (
              start / c.epoch_blocks,
              ap (λ o. height - o) (sym offset_eq)
                  ∙ sym split
                  ∙ omega (arith, zero_rest, remainder_eq),
            )),
        (λ (epochs, e).
            let whole = ap (λ o. height - o) offset_eq ∙ e in
            sym (ok-injective h2)
            ∙ (==_iff remainder 0).1 (
                remainder_eq
                ∙ ap (λ s. s % c.epoch_blocks) whole
                ∙ mul-mod_left epochs c.epoch_blocks)),
      )

  -- No block from the previous one back to the first of its sub-epoch included a summary; nothing is
  -- asked of them where the next block is the first or second of a sub-epoch.
  abbrev pub NoSummary : ℕ → ℕ → Type 0
  NoSummary height prev =
      (curr b : BlockRecord)
      → 1 < (height + 1) % c.sub_epoch_blocks
      → bs.block_records prev ≡ some curr
      → InSubEpoch curr b
      → included b ≡ false

  -- What has to hold for a block to end its sub-epoch.
  abbrev pub MayFinish : ℕ → ℕ → ℕ → Bool → Type 0
  MayFinish height prev deficit ses =
      (c.sub_epoch_blocks ≤ height + 1) × (deficit ≡ 0) × (ses ≡ false) × NoSummary height prev

  not_here :
      (height prev deficit : ℕ) (ses : Bool) (r : Bool × Bool)
      → (MayFinish height prev deficit ses → ⊥)
      → ok (false, false) ≡ ok r
      → ((r.0 ≡ true) ↔ MayFinish height prev deficit ses)
        × ((r.1 ≡ true)
            ↔ (r.0 ≡ true)
              × ((epochs : ℕ) × (height + 1 - (height + 1) % c.sub_epoch_blocks
                    ≡ epochs * c.epoch_blocks)))
  not_here height prev deficit ses r never h =
      let same = ok-injective h in
      (
        ((λ e. absurd (differ (ap (λ x. x.0) same ∙ e))), (λ m. absurd (never m))),
        (
          (λ e. absurd (differ (ap (λ x. x.1) same ∙ e))),
          (λ (e, rest). absurd (differ (ap (λ x. x.0) same ∙ e))),
        ),
      )
    where
      differ : false ≡ true → ⊥
      differ e = cc

  -- Where the search before a block found no summary, and the next block is not the first or second of
  -- a sub-epoch, no block from the previous one back to the first of its sub-epoch included one.
  pub summary_before-false :
      (height prev : ℕ) (curr b : BlockRecord)
      → summary_before c bs height prev ≡ ok false
      → ltb 1 ((height + 1) % c.sub_epoch_blocks) ≡ true
      → bs.block_records prev ≡ some curr
      → InSubEpoch curr b
      → included b ≡ false
  unfolding summary_before
  summary_before-false height prev curr b h inside m i =
      let (offset, o, h1) = >>=-eq-ok (modulo (height + 1) c.sub_epoch_blocks) _ h in
      let taken = ap (λ x. ltb 1 x) (modulo-eq-ok _ _ o).0 ∙ inside in
      let (start, there, search) =
        >>=-eq-ok (block_record bs prev) (λ curr. summary_in_sub_epoch c bs (suc curr.height) curr)
          (sym (rw taken refl) ∙ h1) in
      let same = some_cancel (sym (or_raise-eq-ok (bs.block_records prev) key_error there) ∙ m) in
      summary_in_sub_epoch-false (suc start.height) start b search
        (subst (λ z. InSubEpoch z b) (sym same) i)

  summary_before-true :
      (height prev : ℕ) → summary_before c bs height prev ≡ ok true → NoSummary height prev → ⊥
  unfolding summary_before
  summary_before-true height prev h no_summary =
      let (offset, o, h1) = >>=-eq-ok (modulo (height + 1) c.sub_epoch_blocks) _ h in
      elim (Bool-cases (ltb 1 offset)) [
        | inr edge ↦ differ (ok-injective (sym (rw edge refl) ∙ h1))
        | inl inside ↦
            let (start, there, search) =
              >>=-eq-ok (block_record bs prev)
                (λ curr. summary_in_sub_epoch c bs (suc curr.height) curr)
                (sym (rw inside refl) ∙ h1) in
            let (b, i, found) = summary_in_sub_epoch-true (suc start.height) start search in
            let none_there =
              no_summary start b (omega (arith, ltb→lt _ _ inside, (modulo-eq-ok _ _ o).0))
                (or_raise-eq-ok (bs.block_records prev) key_error there) i in
            differ (sym none_there ∙ found)
      ]
    where
      differ : false ≡ true → ⊥
      differ e = cc

  finish_epoch_iff :
      (height prev deficit : ℕ) (ses inc : Bool) (r : Bool × Bool)
      → c.sub_epoch_blocks ≤ height + 1
      → deficit ≡ 0
      → ses ≡ false
      → summary_before c bs height prev ≡ ok inc
      → finish_epoch c bs height inc ≡ ok r
      → ((r.0 ≡ true) ↔ MayFinish height prev deficit ses)
        × ((r.1 ≡ true)
            ↔ (r.0 ≡ true)
              × ((epochs : ℕ) × (height + 1 - (height + 1) % c.sub_epoch_blocks
                    ≡ epochs * c.epoch_blocks)))
  unfolding finish_epoch
  finish_epoch_iff height prev deficit ses true r high paid absent s h =
      not_here height prev deficit ses r
        (λ (a, b, d, no_summary). summary_before-true height prev s no_summary) h
  finish_epoch_iff height prev deficit ses false r high paid absent s h =
      let (next, u, h1) = >>=-eq-ok (uint 32 (height + 1)) _ h in
      let (first, f, h2) = >>=-eq-ok (height_can_be_first_in_epoch c next) _ h1 in
      let same : next ≡ height + 1 = (uint-eq-ok 32 (height + 1) u).0 in
      let at_next : height_can_be_first_in_epoch c (height + 1) ≡ ok first =
        ap (height_can_be_first_in_epoch c) (sym same) ∙ f in
      let first_iff = height_can_be_first_in_epoch_iff (height + 1) at_next in
      let answer = ok-injective h2 in
      let yes_0 = ap (λ x. x.0) (sym answer) in
      let is_1 = ap (λ x. x.1) answer in
      (
        (
          (λ e. (
            high,
            paid,
            absent,
            λ curr b inside m i. summary_before-false height prev curr b s (lt→ltb _ _ inside) m i,
          )),
          (λ m. yes_0),
        ),
        ((λ e. (yes_0, first_iff.0 (is_1 ∙ e))), (λ (e, q). sym is_1 ∙ first_iff.1 q)),
      )

  -- Where the function returns for a block after a first one, its first flag is true exactly if the
  -- next height is past the first sub-epoch's length, the deficit is 0, the block included no
  -- summary, and no block from the previous one back to the first of its sub-epoch did (the last
  -- only where the next height is not the first or second of its sub-epoch). The second flag is
  -- true exactly if the first is and the sub-epoch of the next height starts at a multiple of the
  -- epoch's length.
  pub can_finish_sub_and_full_epoch_iff :
      (height prev deficit : ℕ) (ses : Bool) {r : Bool × Bool}
      → can_finish_sub_and_full_epoch c bs height (some prev) deficit ses ≡ ok r
      → ((r.0 ≡ true) ↔ MayFinish height prev deficit ses)
        × ((r.1 ≡ true)
            ↔ (r.0 ≡ true)
              × ((epochs : ℕ) × (height + 1 - (height + 1) % c.sub_epoch_blocks
                    ≡ epochs * c.epoch_blocks)))
  unfolding can_finish_sub_and_full_epoch
  can_finish_sub_and_full_epoch_iff height prev deficit ses {r} h =
      elim (Bool-cases (ltb (height + 1) c.sub_epoch_blocks)) [
        | inl low ↦
            not_here height prev deficit ses r
              (λ (a, b, d, e). absurd (omega (arith, a, ltb→lt _ _ low)))
              (sym (rw (low, can_finish_sub_and_full_epoch) refl) ∙ h)
        | inr high ↦ elim (Bool-cases (ltb 0 deficit)) [
          | inl owed ↦
              not_here height prev deficit ses r
                (λ (a, b, d, e). absurd (omega (arith, b, ltb→lt _ _ owed)))
                (sym (rw (high, can_finish_sub_and_full_epoch) (rw owed refl)) ∙ h)
          | inr paid ↦ elim (Bool-cases ses) [
            | inl there ↦
                not_here height prev deficit ses r (λ (a, b, d, e). differ (sym d ∙ there))
                  (sym (rw (high, can_finish_sub_and_full_epoch) (rw paid (rw there refl))) ∙ h)
            | inr absent ↦
                let (inc, s, f) =
                  >>=-eq-ok (summary_before c bs height prev) (finish_epoch c bs height) (
                    sym (rw (high, can_finish_sub_and_full_epoch) (rw paid (rw absent refl)))
                    ∙ h) in
                finish_epoch_iff height prev deficit ses inc r
                  (omega (arith, ltb_false→le _ _ high)) (omega (arith, ltb_false→le _ _ paid))
                  absent s f
          ]
        ]
      ]
    where
      differ : false ≡ true → ⊥
      differ e = cc
