-- ===== src/Consensus/Difficulty/Cases.antt =====
-- The difficulty after a block, on every branch.
use corpochain_beacon_client.Base.{ℕ, ◌≡◌, ◌⊎◌, Bool, true, false, some, ok}
use corpochain_beacon_client.Consensus.Constants.{Constants}
use corpochain_beacon_client.Consensus.Block.{Blockchain}
use corpochain_beacon_client.Consensus.Epoch.{can_finish_sub_and_full_epoch}

module _ (c : Constants) (bs : Blockchain) where
  -- The check is made, and no new slot begins or the epoch goes on.
  abbrev pub Stays : ℕ → ℕ → ℕ → Bool → Bool → Bool → Type 0
  Stays prev height deficit ses new_slot skip =
      (flags : Bool × Bool) × (skip ≡ false)
      × (can_finish_sub_and_full_epoch c bs height (some prev) deficit ses ≡ ok flags)
      × ((new_slot ≡ false) ⊎ (flags.1 ≡ false))

  -- The check is left out, or a new slot begins and the epoch may end.
  abbrev pub Begins : ℕ → ℕ → ℕ → Bool → Bool → Bool → Type 0
  Begins prev height deficit ses new_slot skip =
      (skip ≡ true)
      ⊎ ((flags : Bool × Bool) × (can_finish_sub_and_full_epoch c bs height (some prev) deficit ses
            ≡ ok flags)
          × (new_slot ≡ true)
          × (flags.1 ≡ true))
