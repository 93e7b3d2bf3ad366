-- ===== src/PlotSync/Delta/Lists.antt =====
-- What `from_lists` reports.
use corpochain_beacon_client.Base.{
  ℕ, ◌≡◌, refl, not, ◌&&◌, ◌||◌, List, [], ◌∷◌, elem, ◌==◌, arith, Bool-cases, inl, inr, ==_iff,
}
use corpochain_beacon_client.PlotSync.Delta.{without, from_lists}

elem-without : (x : ℕ) (xs ys : List ℕ) → elem x (without xs ys) ≡ (elem x xs && not (elem x ys))
unfolding without
elem-without x [] ys = refl
elem-without x (y ∷ xs) ys = elim (Bool-cases (x == y)) [
  | inl same ↦ rw ((==_iff x y).0 same) (ground (arith, elem-without y xs ys))
  | inr other ↦ ground (arith, elem-without x xs ys)
]

-- A path is an addition exactly if it is new, and a removal exactly if it is gone; so applying the
-- delta to the old list gives the paths of the new one.
pub from_lists_lem :
    (old new : List ℕ) (x : ℕ)
    → let d = from_lists old new in
      (elem x d.additions ≡ (elem x new && not (elem x old)))
      × (elem x d.removals ≡ (elem x old && not (elem x new)))
      × (((elem x old && not (elem x d.removals)) || elem x d.additions) ≡ elem x new)
unfolding from_lists
from_lists_lem old new x = ground (arith, elem-without x new old, elem-without x old new)
