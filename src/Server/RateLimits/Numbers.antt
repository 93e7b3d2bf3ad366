-- ===== src/Server/RateLimits/Numbers.antt =====
-- The numbers of corpochain/server/rate_limit_numbers.py, by the numbers of the message types in
-- corpochain/protocols/protocol_message_types.py.
use corpochain_beacon_client.Base.{ℕ, ◌*◌, Option, none, some, [], ◌∷◌}
use corpochain_beacon_client.Base.Dict.{Dict}

pub record RlSettings : Type 0 where
  pub frequency : ℕ
  pub max_size : ℕ
  pub max_total_size : Option ℕ

abbrev pub settings : ℕ → ℕ → Option ℕ → RlSettings
settings frequency max_size max_total_size = record {
  frequency = frequency;
  max_size = max_size;
  max_total_size = max_total_size;
}

abbrev pub default_settings : RlSettings
default_settings = settings 100 (1024 * 1024) (some (100 * 1024 * 1024))

abbrev pub non_tx_freq : ℕ
non_tx_freq = 1000

abbrev pub non_tx_max_total_size : ℕ
non_tx_max_total_size = 100 * 1024 * 1024

unfoldable pub rate_limits_other : Dict RlSettings
rate_limits_other =
    (1, settings 5 (10 * 1024) (some (5 * 10 * 1024)))
    ∷ (2, settings 5 (1024 * 1024) none)
    ∷ (6, settings 100 1024 none)
    ∷ (3, settings 100 2048 none)
    ∷ (4, settings 100 2048 none)
    ∷ (5, settings 100 2048 none)
    ∷ (17, settings 200 2048 none)
    ∷ (18, settings 100 (10 * 1024) none)
    ∷ (19, settings 100 512 none)
    ∷ (21, settings 100 1024 none)
    ∷ (20, settings 100 1024 none)
    ∷ (22, settings 100 (20 * 1024) none)
    ∷ (23, settings 100 (10 * 1024) none)
    ∷ (25, settings 100 (100 * 1024) none)
    ∷ (24, settings 100 (100 * 1024) none)
    ∷ (26, settings 100 (100 * 1024) none)
    ∷ (27, settings 100 (10 * 1024) none)
    ∷ (28, settings 100 (100 * 1024) none)
    ∷ (29, settings 200 512 none)
    ∷ (30, settings 5 100 none)
    ∷ (31, settings 5 (50 * 1024 * 1024) (some (100 * 1024 * 1024)))
    ∷ (32, settings 200 100 none)
    ∷ (34, settings 200 100 none)
    ∷ (35, settings 500 100 none)
    ∷ (36, settings 100 (50 * 1024 * 1024) (some (5 * 50 * 1024 * 1024)))
    ∷ (37, settings 100 100 none)
    ∷ (33, settings 200 (2 * 1024 * 1024) (some (10 * 2 * 1024 * 1024)))
    ∷ (38, settings 200 100 none)
    ∷ (39, settings 200 100 none)
    ∷ (40, settings 200 (2 * 1024 * 1024) (some (10 * 2 * 1024 * 1024)))
    ∷ (41, settings 200 200 none)
    ∷ (42, settings 200 200 none)
    ∷ (43, settings 200 (50 * 1024) none)
    ∷ (44, settings 100 (50 * 1024) none)
    ∷ (45, settings 200 1024 none)
    ∷ (46, settings 200 (100 * 1024) none)
    ∷ (47, settings 100 1024 none)
    ∷ (48, settings 10 100 none)
    ∷ (49, settings 10 (1 * 1024 * 1024) none)
    ∷ (51, settings 100 100 none)
    ∷ (52, settings 100 (1024 * 1024) none)
    ∷ (7, settings 10 (10 * 1024 * 1024) none)
    ∷ (8, settings 10 (100 * 1024 * 1024) none)
    ∷ (9, settings 1000 (100 * 1024 * 1024) none)
    ∷ (10, settings 1000 (100 * 1024 * 1024) none)
    ∷ (11, settings 1000 (100 * 1024 * 1024) none)
    ∷ (12, settings 1000 (100 * 1024 * 1024) none)
    ∷ (13, settings 1000 (100 * 1024 * 1024) none)
    ∷ (14, settings 1000 (100 * 1024 * 1024) none)
    ∷ (15, settings 1000 (100 * 1024 * 1024) none)
    ∷ (16, settings 3000 (100 * 1024 * 1024) none)
    ∷ []
