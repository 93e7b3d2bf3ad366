-- ===== src/Server/RateLimits.antt =====
-- The rate limits of messages: corpochain/server/rate_limits.py and rate_limit_numbers.py. A message
-- is its type's number and the size of its data. `time.time()` is a number of seconds, and a limit
-- `limit * (percentage_of_limit / 100)` is compared without the division: `n > limit * p / 100` as
-- `100 * n > limit * p`, exact where the source rounds a float. `reset_seconds` is positive.
pub mod Numbers
pub mod Limits
pub mod Counting
use corpochain_beacon_client.Base.{
  ℕ, zero, suc, ◌+◌, ◌*◌, ◌/◌, Bool, true, false, not, ◌&&◌, ◌||◌, Option, none, some, List, [],
  ◌∷◌, ltb, leb, ◌==◌, if◌then◌else◌, is_some,
}
use corpochain_beacon_client.Base.Dict.{Dict, lookup, insert}
use corpochain_beacon_client.Server.RateLimits.Numbers.{
  RlSettings, default_settings, non_tx_freq, non_tx_max_total_size, rate_limits_other,
}

pub record Message : Type 0 where
  pub message_type : ℕ
  pub size : ℕ

-- A `Counter`: a key that is missing counts 0.
abbrev pub count_of : ℕ → Dict ℕ → ℕ
count_of k d = elim (lookup k d) [ none ↦ 0 | some n ↦ n ]

pub record RateLimiter : Type 0 where
  pub incoming : Bool
  pub reset_seconds : ℕ
  pub current_minute : ℕ
  pub message_counts : Dict ℕ
  pub message_cumulative_sizes : Dict ℕ
  pub percentage_of_limit : ℕ
  pub non_tx_message_counts : ℕ
  pub non_tx_cumulative_size : ℕ

-- `__init__`, at the time `now`
unfoldable pub init : Bool → ℕ → ℕ → ℕ → RateLimiter
init incoming reset_seconds percentage_of_limit now = record {
  incoming = incoming;
  reset_seconds = reset_seconds;
  current_minute = now / reset_seconds;
  message_counts = [];
  message_cumulative_sizes = [];
  percentage_of_limit = percentage_of_limit;
  non_tx_message_counts = 0;
  non_tx_cumulative_size = 0;
}

-- A new period clears the counters.
unfoldable pub roll_over : ℕ → RateLimiter → RateLimiter
roll_over now r = if now / r.reset_seconds == r.current_minute then r else record r {
  current_minute = now / r.reset_seconds;
  message_counts = [];
  message_cumulative_sizes = [];
  non_tx_message_counts = 0;
  non_tx_cumulative_size = 0;
}

-- `n > limit * proportion_of_limit`
abbrev pub exceeds : ℕ → ℕ → RateLimiter → Bool
exceeds n limit r = ltb (limit * r.percentage_of_limit) (100 * n)

-- `message_type in rate_limits["rate_limits_other"]`, and the settings for the type
abbrev pub is_listed : ℕ → Bool
is_listed t = is_some (lookup t rate_limits_other)

abbrev pub limits_of : ℕ → RlSettings
limits_of t = elim (lookup t rate_limits_other) [ none ↦ default_settings | some limits ↦ limits ]

abbrev pub max_total_of : RlSettings → ℕ
max_total_of limits = elim limits.max_total_size [
  | none ↦ limits.frequency * limits.max_size
  | some total ↦ total
]

-- The counters after the message, for its type and for all listed types.
abbrev pub new_message_counts : Message → RateLimiter → ℕ
new_message_counts m r = count_of m.message_type r.message_counts + 1

abbrev pub new_cumulative_size : Message → RateLimiter → ℕ
new_cumulative_size m r = count_of m.message_type r.message_cumulative_sizes + m.size

abbrev pub new_non_tx_count : Message → RateLimiter → ℕ
new_non_tx_count m r =
    if is_listed m.message_type then r.non_tx_message_counts + 1 else r.non_tx_message_counts

abbrev pub new_non_tx_size : Message → RateLimiter → ℕ
new_non_tx_size m r =
    if is_listed m.message_type then r.non_tx_cumulative_size + m.size else r.non_tx_cumulative_size

-- The `try` block: whether the message is within the limits.
unfoldable pub is_allowed : Message → RateLimiter → Bool
is_allowed m r =
    let limits = limits_of m.message_type in
    if is_listed m.message_type && exceeds (new_non_tx_count m r) non_tx_freq r
    then false
    else if is_listed m.message_type && exceeds (new_non_tx_size m r) non_tx_max_total_size r
    then false
    else if exceeds (new_message_counts m r) limits.frequency r
    then false
    else if ltb limits.max_size m.size
    then false
    else if exceeds (new_cumulative_size m r) (max_total_of limits) r
    then false
    else true

-- The `finally` block.
unfoldable pub commit : Message → RateLimiter → RateLimiter
commit m r = record r {
  message_counts = insert m.message_type (new_message_counts m r) r.message_counts;
  message_cumulative_sizes =
      insert m.message_type (new_cumulative_size m r) r.message_cumulative_sizes;
  non_tx_message_counts = new_non_tx_count m r;
  non_tx_cumulative_size = new_non_tx_size m r;
}

-- `ProtocolMessageTypes(message.type)` succeeds on the numbers 1 to 52.
abbrev pub is_message_type : ℕ → Bool
is_message_type t = leb 1 t && leb t 52

-- A message in the current period.
unfoldable pub check_message : Message → RateLimiter → RateLimiter × Bool
check_message m r =
    if is_message_type m.message_type
    then (if r.incoming || is_allowed m r then commit m r else r, is_allowed m r)
    else (r, true)

unfoldable pub process_msg_and_check : ℕ → Message → RateLimiter → RateLimiter × Bool
process_msg_and_check now m r = check_message m (roll_over now r)
