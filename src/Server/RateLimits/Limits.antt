-- ===== src/Server/RateLimits/Limits.antt =====
-- An outgoing limiter never lets more through than the limits allow.
use corpochain_beacon_client.Base.{
  ℕ, ◌*◌, ◌/◌, ◌≤◌, ◌≡◌, refl, Bool, true, false, ◌||◌, List, [], ◌∷◌, ◌==◌, if◌then◌else◌, arith,
  Bool-cases, ==_iff, inl, inr, ◌∙◌,
}
use corpochain_beacon_client.Base.Dict.{Dict, insert, lookup-insert}
use corpochain_beacon_client.Server.RateLimits.Numbers.{non_tx_freq, non_tx_max_total_size}
use corpochain_beacon_client.Server.RateLimits.{
  Message, RateLimiter, count_of, init, roll_over, limits_of, max_total_of, is_listed, is_allowed,
  commit, is_message_type, check_message, process_msg_and_check, new_message_counts,
  new_cumulative_size, new_non_tx_count, new_non_tx_size,
}

pub record IsWithin (r : RateLimiter) : Type 0 where
  pub counts :
      (t : ℕ) → 100 * count_of t r.message_counts ≤ (limits_of t).frequency * r.percentage_of_limit
  pub sizes :
      (t : ℕ)
      → 100 * count_of t r.message_cumulative_sizes
        ≤ max_total_of (limits_of t) * r.percentage_of_limit
  pub non_tx_counts : 100 * r.non_tx_message_counts ≤ non_tx_freq * r.percentage_of_limit
  pub non_tx_sizes : 100 * r.non_tx_cumulative_size ≤ non_tx_max_total_size * r.percentage_of_limit

pub count_of-insert :
    (j k n : ℕ) (d : Dict ℕ) → count_of j (insert k n d) ≡ (if j == k then n else count_of j d)
count_of-insert j k n d = ground (arith, lookup-insert j k n d)

-- What an allowed message satisfies.
is_allowed_lem :
    (m : Message) (r : RateLimiter)
    → is_allowed m r ≡ true
    → (100 * new_message_counts m r ≤ (limits_of m.message_type).frequency * r.percentage_of_limit)
      × (100 * new_cumulative_size m r
          ≤ max_total_of (limits_of m.message_type) * r.percentage_of_limit)
      × (is_listed m.message_type ≡ true
          → 100 * new_non_tx_count m r ≤ non_tx_freq * r.percentage_of_limit)
      × (is_listed m.message_type ≡ true
          → 100 * new_non_tx_size m r ≤ non_tx_max_total_size * r.percentage_of_limit)
unfolding is_allowed
is_allowed_lem m r h = ground arith

insert_bound :
    (f : ℕ → ℕ) (k n : ℕ) (d : Dict ℕ)
    → ((t : ℕ) → 100 * count_of t d ≤ f t)
    → 100 * n ≤ f k
    → (t : ℕ) → 100 * count_of t (insert k n d) ≤ f t
insert_bound f k n d old new t = elim (Bool-cases (t == k)) [
  | inl same ↦
      let e : t ≡ k = (==_iff t k).0 same in rw (count_of-insert t k n d) (rw same (rw e new))
  | inr other ↦ rw (count_of-insert t k n d) (rw other (old t))
]

commit-IsWithin :
    (m : Message) (r : RateLimiter) → IsWithin r → is_allowed m r ≡ true → IsWithin (commit m r)
unfolding commit
commit-IsWithin m r w h =
    let (count, size, other_count, other_size) = is_allowed_lem m r h in
    record {
      counts =
          insert_bound (λ t. (limits_of t).frequency * r.percentage_of_limit) _ _ _ w.counts count;
      sizes =
          insert_bound (λ t. max_total_of (limits_of t) * r.percentage_of_limit) _ _ _ w.sizes size;
      non_tx_counts = elim (Bool-cases (is_listed m.message_type)) [
        | inl listed ↦ other_count listed
        | inr unlisted ↦ rw unlisted w.non_tx_counts
      ];
      non_tx_sizes = elim (Bool-cases (is_listed m.message_type)) [
        | inl listed ↦ other_size listed
        | inr unlisted ↦ rw unlisted w.non_tx_sizes
      ];
    }

empty-IsWithin :
    (inc : Bool) (reset minute pct : ℕ)
    → IsWithin (record {
      incoming = inc;
      reset_seconds = reset;
      current_minute = minute;
      message_counts = [];
      message_cumulative_sizes = [];
      percentage_of_limit = pct;
      non_tx_message_counts = 0;
      non_tx_cumulative_size = 0;
    })
empty-IsWithin inc reset minute pct = record {
  counts = λ t. omega arith;
  sizes = λ t. omega arith;
  non_tx_counts = omega arith;
  non_tx_sizes = omega arith;
}

roll_over-IsWithin : (now : ℕ) (r : RateLimiter) → IsWithin r → IsWithin (roll_over now r)
unfolding roll_over
roll_over-IsWithin now r w = elim (Bool-cases (now / r.reset_seconds == r.current_minute)) [
  | inl same ↦ rw same w
  | inr later ↦
      rw later
        (empty-IsWithin r.incoming r.reset_seconds (now / r.reset_seconds) r.percentage_of_limit)
]

outgoing_same :
    (m : Message) {r : RateLimiter}
    → r.incoming ≡ false
    → IsWithin r
    → IsWithin (if r.incoming then commit m r else r)
outgoing_same m {r} out w = go r.incoming out
  where
    go : (b : Bool) → b ≡ false → IsWithin (if b then commit m r else r)
    go true e = absurd (cc)
    go false e = w

pub check_message_unknown :
    (m : Message) (r : RateLimiter)
    → is_message_type m.message_type ≡ false
    → check_message m r ≡ (r, true)
unfolding check_message
check_message_unknown m r unknown = rw unknown

pub check_message_allowed :
    (m : Message) (r : RateLimiter)
    → is_message_type m.message_type ≡ true
    → is_allowed m r ≡ true
    → check_message m r ≡ (commit m r, true)
unfolding check_message
check_message_allowed m r known allowed = rw (known, allowed) (go r.incoming)
  where
    go :
        (b : Bool)
        → ◌≡◌ {A = RateLimiter × Bool}
            (if b || true then commit m r else r, true)
            (commit m r, true)
    go true = refl
    go false = refl

pub check_message_refused :
    (m : Message) (r : RateLimiter)
    → is_message_type m.message_type ≡ true
    → is_allowed m r ≡ false
    → check_message m r ≡ (if r.incoming then commit m r else r, false)
unfolding check_message
check_message_refused m r known refused = rw (known, refused) (go r.incoming)
  where
    go :
        (b : Bool)
        → ◌≡◌ {A = RateLimiter × Bool}
            (if b || false then commit m r else r, false)
            (if b then commit m r else r, false)
    go true = refl
    go false = refl

pub check_message-IsWithin :
    (m : Message) (r : RateLimiter)
    → r.incoming ≡ false
    → IsWithin r
    → IsWithin (check_message m r).0
check_message-IsWithin m r out w = elim (Bool-cases (is_message_type m.message_type)) [
  | inr unknown ↦ rw (check_message_unknown m r unknown) w
  | inl known ↦ elim (Bool-cases (is_allowed m r)) [
    | inl allowed ↦ rw (check_message_allowed m r known allowed) (commit-IsWithin m r w allowed)
    | inr refused ↦ rw (check_message_refused m r known refused) (outgoing_same m out w)
  ]
]

pub check_message-fixed :
    (m : Message) (r : RateLimiter)
    → ((check_message m r).0.incoming ≡ r.incoming)
      × ((check_message m r).0.percentage_of_limit ≡ r.percentage_of_limit)
      × ((check_message m r).0.reset_seconds ≡ r.reset_seconds)
      × ((check_message m r).0.current_minute ≡ r.current_minute)
unfolding check_message commit
check_message-fixed m r = ground arith

-- The limiter after a schedule of messages, each with its time.
abbrev pub run : List (ℕ × Message) → RateLimiter → RateLimiter
run [] r = r
run (e ∷ schedule) r = run schedule (process_msg_and_check e.0 e.1 r).0

pub roll_over-fixed :
    (now : ℕ) (r : RateLimiter)
    → ((roll_over now r).incoming ≡ r.incoming)
      × ((roll_over now r).percentage_of_limit ≡ r.percentage_of_limit)
      × ((roll_over now r).reset_seconds ≡ r.reset_seconds)
unfolding roll_over
roll_over-fixed now r = ground arith

run_keeps :
    (schedule : List (ℕ × Message)) (r : RateLimiter)
    → r.incoming ≡ false
    → IsWithin r
    → IsWithin (run schedule r)
unfolding process_msg_and_check
run_keeps [] r out w = w
run_keeps (e ∷ schedule) r out w =
    let r' = roll_over e.0 r in
    let out' : r'.incoming ≡ false = (roll_over-fixed e.0 r).0 ∙ out in
    run_keeps schedule (check_message e.1 r').0 ((check_message-fixed e.1 r').0 ∙ out')
      (check_message-IsWithin e.1 r' out' (roll_over-IsWithin e.0 r w))

-- Whatever is asked of an outgoing limiter and when, its counters never pass a limit of the period:
-- for every type of message, listed or not, and for the listed types together.
pub run-IsWithin :
    (schedule : List (ℕ × Message)) (reset_seconds percentage now : ℕ)
    → IsWithin (run schedule (init false reset_seconds percentage now))
unfolding init
run-IsWithin schedule reset_seconds percentage now =
    run_keeps schedule _ refl (empty-IsWithin false reset_seconds (now / reset_seconds) percentage)
