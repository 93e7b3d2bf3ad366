-- ===== src/Server/RateLimits/Counting.antt =====
-- What the counters count.
use mathlib.Core.Path.{subst, subst₂}
use mathlib.Core.Bool.{false≢true}
use corpochain_beacon_client.Base.{
  ℕ, ◌+◌, ◌*◌, ◌/◌, ◌≤◌, ◌≡◌, refl, Bool, true, false, ◌&&◌, List, [], ◌∷◌, ◌==◌, if◌then◌else◌,
  arith, All, Bool-cases, inl, inr, sym, ◌∙◌, ap, ==_iff, ==_refl,
}
use corpochain_beacon_client.Server.RateLimits.{
  Message, RateLimiter, count_of, init, roll_over, limits_of, max_total_of, is_allowed, commit,
  is_message_type, check_message, process_msg_and_check,
}
use corpochain_beacon_client.Server.RateLimits.Limits.{
  count_of-insert, check_message_unknown, check_message_allowed, check_message_refused,
  check_message-fixed, roll_over-fixed, run, run-IsWithin,
}

-- A message of type `t` that was let through.
abbrev pub passes : ℕ → Message → RateLimiter → Bool
passes t m r = (t == m.message_type) && (check_message m r).1

commit_counts :
    (t : ℕ) (m : Message) (r : RateLimiter)
    → (count_of t (commit m r).message_counts
        ≡ count_of t r.message_counts + (if t == m.message_type then 1 else 0))
      × (count_of t (commit m r).message_cumulative_sizes
          ≡ count_of t r.message_cumulative_sizes + (if t == m.message_type then m.size else 0))
unfolding commit
commit_counts t m r = elim (Bool-cases (t == m.message_type)) [
  | inl same ↦
      let e : t ≡ m.message_type = (==_iff t m.message_type).0 same in
      (
        rw (count_of-insert t m.message_type _ r.message_counts) (rw (same, e) refl),
        rw (count_of-insert t m.message_type _ r.message_cumulative_sizes) (rw (same, e) refl),
      )
  | inr other ↦ (
    rw (count_of-insert t m.message_type _ r.message_counts) (rw other (omega arith)),
    rw (count_of-insert t m.message_type _ r.message_cumulative_sizes) (rw other (omega arith)),
  )
]

check_message_refused_out :
    (m : Message) (r : RateLimiter)
    → r.incoming ≡ false
    → is_message_type m.message_type ≡ true
    → is_allowed m r ≡ false
    → check_message m r ≡ (r, false)
check_message_refused_out m r out known refused =
    check_message_refused m r known refused ∙ go r.incoming out
  where
    go :
        (b : Bool)
        → b ≡ false
        → ◌≡◌ {A = RateLimiter × Bool} (if b then commit m r else r, false) (r, false)
    go true e = absurd (cc)
    go false e = refl

-- What a call does to the counters of type `t`, by its new state and its answer.
abbrev Counted : ℕ → Message → RateLimiter → RateLimiter × Bool → Type 0
Counted t m r (r', passed) =
    (count_of t r'.message_counts
      ≡ count_of t r.message_counts + (if (t == m.message_type) && passed then 1 else 0))
    × (count_of t r'.message_cumulative_sizes
        ≡ count_of t r.message_cumulative_sizes
          + (if (t == m.message_type) && passed then m.size else 0))

and_true : (b : Bool) → (b && true) ≡ b
and_true true = refl
and_true false = refl

and_false : (b : Bool) → (b && false) ≡ false
and_false true = refl
and_false false = refl

Counted-commit : (t : ℕ) (m : Message) (r : RateLimiter) → Counted t m r (commit m r, true)
Counted-commit t m r = rw (and_true (t == m.message_type)) (commit_counts t m r)

Counted-same : (t : ℕ) (m : Message) (r : RateLimiter) → Counted t m r (r, false)
Counted-same t m r = rw (and_false (t == m.message_type)) (omega arith)

Counted-unknown :
    (t : ℕ) (m : Message) (r : RateLimiter)
    → is_message_type t ≡ true
    → is_message_type m.message_type ≡ false
    → Counted t m r (r, true)
Counted-unknown t m r known unknown = elim (Bool-cases (t == m.message_type)) [
  | inl same ↦
      let e : t ≡ m.message_type = (==_iff t m.message_type).0 same in
      absurd (false≢true (sym unknown ∙ subst (λ k. is_message_type k ≡ true) e known))
  | inr other ↦ rw other (omega arith)
]

-- On a message of a known type: an outgoing limiter counts it exactly if it lets it through.
check_message-Counted :
    (t : ℕ) (m : Message) (r : RateLimiter)
    → r.incoming ≡ false
    → is_message_type t ≡ true
    → Counted t m r (check_message m r)
check_message-Counted t m r out known = elim (Bool-cases (is_message_type m.message_type)) [
  | inr unknown ↦
      subst (Counted t m r) (sym (check_message_unknown m r unknown))
        (Counted-unknown t m r known unknown)
  | inl known' ↦ elim (Bool-cases (is_allowed m r)) [
    | inl allowed ↦
        subst (Counted t m r) (sym (check_message_allowed m r known' allowed))
          (Counted-commit t m r)
    | inr refused ↦
        subst (Counted t m r) (sym (check_message_refused_out m r out known' refused))
          (Counted-same t m r)
  ]
]

-- How many messages of type `t` a limiter lets through in a schedule, and their sizes in all.
abbrev pub passed : ℕ → List (ℕ × Message) → RateLimiter → ℕ
passed t [] r = 0
passed t ((now, m) ∷ schedule) r =
    let step = process_msg_and_check now m r in
    (if (t == m.message_type) && step.1 then 1 else 0) + passed t schedule step.0

abbrev pub passed_size : ℕ → List (ℕ × Message) → RateLimiter → ℕ
passed_size t [] r = 0
passed_size t ((now, m) ∷ schedule) r =
    let step = process_msg_and_check now m r in
    (if (t == m.message_type) && step.1 then m.size else 0) + passed_size t schedule step.0

-- Every message of the schedule falls into the period `minute`.
abbrev pub InPeriod : ℕ → ℕ → List (ℕ × Message) → Type 0
InPeriod reset_seconds minute = All (λ e. e.0 / reset_seconds ≡ minute)

roll_over_same :
    (now : ℕ) (r : RateLimiter) → now / r.reset_seconds ≡ r.current_minute → roll_over now r ≡ r
unfolding roll_over
roll_over_same now r e = rw (e, ==_refl r.current_minute)

process_same :
    (now : ℕ) (m : Message) (r : RateLimiter)
    → now / r.reset_seconds ≡ r.current_minute
    → process_msg_and_check now m r ≡ check_message m r
unfolding process_msg_and_check
process_same now m r e = ap (check_message m) (roll_over_same now r e)

init_lem :
    (reset_seconds percentage now : ℕ)
    → let r = init false reset_seconds percentage now in
      (r.incoming ≡ false)
      × (r.reset_seconds ≡ reset_seconds)
      × (r.current_minute ≡ now / reset_seconds)
      × (r.percentage_of_limit ≡ percentage)
      × (r.message_counts ≡ [])
      × (r.message_cumulative_sizes ≡ [])
unfolding init
init_lem reset_seconds percentage now = (refl, refl, refl, refl, refl, refl)

run_percentage :
    (schedule : List (ℕ × Message)) (r : RateLimiter)
    → (run schedule r).percentage_of_limit ≡ r.percentage_of_limit
unfolding process_msg_and_check
run_percentage [] r = refl
run_percentage (e ∷ schedule) r =
    run_percentage schedule _
    ∙ (check_message-fixed e.1 (roll_over e.0 r)).1
    ∙ (roll_over-fixed e.0 r).1

run_counts :
    (t : ℕ) (schedule : List (ℕ × Message)) (r : RateLimiter)
    → r.incoming ≡ false
    → is_message_type t ≡ true
    → InPeriod r.reset_seconds r.current_minute schedule
    → (count_of t (run schedule r).message_counts
        ≡ count_of t r.message_counts + passed t schedule r)
      × (count_of t (run schedule r).message_cumulative_sizes
          ≡ count_of t r.message_cumulative_sizes + passed_size t schedule r)
run_counts t [] r out known within = (omega arith, omega arith)
run_counts t ((now, m) ∷ schedule) r out known (now_in, rest) =
    let r' = (check_message m r).0 in
    let fixed = check_message-fixed m r in
    let rest' : InPeriod r'.reset_seconds r'.current_minute schedule =
      subst₂ (λ a b. InPeriod a b schedule) (sym fixed.2) (sym fixed.3) rest in
    let ih = run_counts t schedule r' (fixed.0 ∙ out) known rest' in
    let step = check_message-Counted t m r out known in
    let same = process_same now m r now_in in
    let run_0 = ap (λ s. count_of t (run schedule s.0).message_counts) same in
    let run_1 = ap (λ s. count_of t (run schedule s.0).message_cumulative_sizes) same in
    let passed_0 =
      ap (λ s. (if (t == m.message_type) && s.1 then 1 else 0) + passed t schedule s.0) same in
    let passed_1 =
      ap (λ s. (if (t == m.message_type) && s.1 then m.size else 0) + passed_size t schedule s.0)
        same in
    (omega (arith, ih.0, step.0, run_0, passed_0), omega (arith, ih.1, step.1, run_1, passed_1))

-- Within one period, an outgoing limiter that starts afresh lets through no more messages of a known
-- type than the type's frequency, and no more data than the type's total size, each scaled by the
-- percentage of the limits in use.
pub passed-within-limits :
    (t : ℕ) (schedule : List (ℕ × Message)) (reset_seconds percentage now : ℕ)
    → is_message_type t ≡ true
    → InPeriod reset_seconds (now / reset_seconds) schedule
    → let r = init false reset_seconds percentage now in
      (100 * passed t schedule r ≤ (limits_of t).frequency * percentage)
      × (100 * passed_size t schedule r ≤ max_total_of (limits_of t) * percentage)
passed-within-limits t schedule reset_seconds percentage now known within =
    let r = init false reset_seconds percentage now in
    let start = init_lem reset_seconds percentage now in
    let period : InPeriod r.reset_seconds r.current_minute schedule =
      subst₂ (λ a b. InPeriod a b schedule) (sym start.1) (sym start.2) within in
    let counted = run_counts t schedule r start.0 known period in
    let bound = run-IsWithin schedule reset_seconds percentage now in
    let same = run_percentage schedule r ∙ start.3 in
    let none_0 : count_of t r.message_counts ≡ 0 = ap (count_of t) start.4 in
    let none_1 : count_of t r.message_cumulative_sizes ≡ 0 = ap (count_of t) start.5 in
    let scale_0 = ap (λ p. (limits_of t).frequency * p) same in
    let scale_1 = ap (λ p. max_total_of (limits_of t) * p) same in
    (
      omega (arith, bound.counts t, counted.0, none_0, scale_0),
      omega (arith, bound.sizes t, counted.1, none_1, scale_1),
    )
