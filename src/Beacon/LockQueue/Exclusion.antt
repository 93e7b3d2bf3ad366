-- ===== src/Beacon/LockQueue/Exclusion.antt =====
-- One client at a time holds the lock.
use mathlib.Core.Path.{subst}
use corpochain_beacon_client.Base.{
  ℕ, ◌≡◌, ◌⊎◌, inl, inr, refl, Bool, true, false, List, [], ◌∷◌, ◌++◌, arith, sym, ◌∙◌, ap,
}
use corpochain_beacon_client.Beacon.LockQueue.{
  Loop, getting, acquiring, calling, waiting, LockQueue, Step, gets, acquires, calls, wakes, leaves,
  Reachable, created, joined, stepped,
}

-- What the lock, the event and the clients inside are at each await of the loop.
abbrev pub Consistent : Loop → Bool → Bool → List ℕ → Type 0
Consistent getting locked event inside = (locked ≡ false) × (inside ≡ [])
Consistent (acquiring e) locked event inside = (locked ≡ false) × (inside ≡ []) × (event ≡ false)
Consistent (calling e) locked event inside = (locked ≡ true) × (inside ≡ []) × (event ≡ false)
Consistent waiting locked event inside =
    ((client : ℕ) × (inside ≡ client ∷ []) × (locked ≡ true) × (event ≡ false))
    ⊎ ((inside ≡ []) × (locked ≡ false) × (event ≡ true))

abbrev pub IsConsistent : LockQueue → Type 0
IsConsistent s = Consistent s.loop s.locked s.release_event s.inside

pub at_loop :
    (s : LockQueue) {loop : Loop}
    → s.loop ≡ loop
    → IsConsistent s
    → Consistent loop s.locked s.release_event s.inside
at_loop s at v = subst (λ l. Consistent l s.locked s.release_event s.inside) at v

pub not_split : (client : ℕ) (before after : List ℕ) → [] ≡ before ++ client ∷ after → ⊥
not_split client [] after h = cc
not_split client (x ∷ before) after h = cc

one_split :
    (c client : ℕ) (before after : List ℕ)
    → c ∷ [] ≡ before ++ client ∷ after
    → before ++ after ≡ []
one_split c client [] after h = ground arith
one_split c client (x ∷ before) after h = absurd (not_split client before after (ground arith))

-- Only at the wait is somebody inside, and then the lock is taken.
left_empty :
    (loop : Loop) (locked event : Bool) (inside : List ℕ) (client : ℕ) (before after : List ℕ)
    → inside ≡ before ++ client ∷ after
    → Consistent loop locked event inside
    → Consistent loop false true (before ++ after)
left_empty waiting locked event inside client before after split (inl (c, one, taken, unset)) =
    inr (one_split c client before after (sym one ∙ split), refl, refl)
left_empty waiting locked event inside client before after split (inr (empty, free, set)) =
    absurd (not_split client before after (sym empty ∙ split))
left_empty getting locked event inside client before after split (free, empty) =
    absurd (not_split client before after (sym empty ∙ split))
left_empty (acquiring e) locked event inside client before after split (free, empty, unset) =
    absurd (not_split client before after (sym empty ∙ split))
left_empty (calling e) locked event inside client before after split (taken, empty, unset) =
    absurd (not_split client before after (sym empty ∙ split))

pub Step-IsConsistent : {s s' : LockQueue} → Step s s' → IsConsistent s → IsConsistent s'
Step-IsConsistent {s} (gets e before after at split least) v =
    let now = at_loop s at v in (now.0, now.1, refl)
Step-IsConsistent {s} (acquires e at free) v = let now = at_loop s at v in (refl, now.1, now.2)
Step-IsConsistent {s} (calls e at) v =
    let now = at_loop s at v in inl (e.client, ap (◌∷◌ e.client) now.1, now.0, now.2)
Step-IsConsistent {s} (wakes at set) v = elim (at_loop s at v) [
  | inl (c, one, taken, unset) ↦ absurd (ground arith)
  | inr (empty, free, now) ↦ (free, empty)
]
Step-IsConsistent {s} (leaves client before after split) v =
    left_empty s.loop s.locked s.release_event s.inside client before after split v

pub Reachable-IsConsistent : {s : LockQueue} → Reachable s → IsConsistent s
Reachable-IsConsistent created = (refl, refl)
Reachable-IsConsistent (joined e r) = Reachable-IsConsistent r
Reachable-IsConsistent (stepped r step) = Step-IsConsistent step (Reachable-IsConsistent r)

exclusive :
    (loop : Loop) (locked event : Bool) (inside : List ℕ)
    → Consistent loop locked event inside
    → (inside ≡ []) ⊎ ((client : ℕ) × (inside ≡ client ∷ []) × (locked ≡ true) × (loop ≡ waiting))
exclusive waiting locked event inside (inl (c, one, taken, unset)) = inr (c, one, taken, refl)
exclusive waiting locked event inside (inr (empty, free, set)) = inl empty
exclusive getting locked event inside (free, empty) = inl empty
exclusive (acquiring e) locked event inside (free, empty, unset) = inl empty
exclusive (calling e) locked event inside (taken, empty, unset) = inl empty

-- Whatever clients join and leave and in whatever order the tasks run, at most one client is inside,
-- and while it is there the inner lock is taken and the loop waits for its release.
pub Reachable-exclusive :
    {s : LockQueue}
    → Reachable s
    → (s.inside ≡ [])
      ⊎ ((client : ℕ) × (s.inside ≡ client ∷ []) × (s.locked ≡ true) × (s.loop ≡ waiting))
Reachable-exclusive {s} r =
    exclusive s.loop s.locked s.release_event s.inside (Reachable-IsConsistent r)
