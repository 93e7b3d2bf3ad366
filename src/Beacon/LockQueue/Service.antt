-- ===== src/Beacon/LockQueue/Service.antt =====
-- Every client that waits is called.
use mathlib.Core.Path.{subst}
use corpochain_beacon_client.Base.{
  ℕ, ◌+◌, ◌*◌, ◌≤◌, ◌<◌, ◌≡◌, inl, inr, refl, Bool, true, List, [], ◌∷◌, ◌++◌, ◌==◌, if◌then◌else◌,
  length, length-append, All, leb, leb→le, leb_false→lt, Bool-cases, arith, sym, ◌∙◌, ap,
}
use corpochain_beacon_client.Beacon.LockQueue.{
  Entry, Loop, getting, acquiring, calling, waiting, LockQueue, Step, gets, acquires, calls, wakes,
  leaves, Reachable, Steps, stop, go,
}
use corpochain_beacon_client.Beacon.LockQueue.Exclusion.{
  Consistent, IsConsistent, Step-IsConsistent, Reachable-IsConsistent, not_split, at_loop,
}

-- The steps until the loop gets the next entry.
abbrev rank : Loop → Bool → ℕ
rank getting event = 0
rank (acquiring e) event = 4
rank (calling e) event = 3
rank waiting event = if event then 1 else 2

-- The steps that are left when nobody else joins.
abbrev pub steps_left : LockQueue → ℕ
steps_left s = 5 * length s.task_queue + rank s.loop s.release_event

leaves_rank :
    (loop : Loop) (locked event : Bool) (inside : List ℕ) (client : ℕ) (before after : List ℕ)
    → inside ≡ before ++ client ∷ after
    → Consistent loop locked event inside
    → rank loop event ≡ rank loop true + 1
leaves_rank waiting locked event inside client before after split (inl (c, one, taken, unset)) =
    ground arith
leaves_rank waiting locked event inside client before after split (inr (empty, free, set)) =
    absurd (not_split client before after (sym empty ∙ split))
leaves_rank getting locked event inside client before after split (free, empty) =
    absurd (not_split client before after (sym empty ∙ split))
leaves_rank (acquiring e) locked event inside client before after split (free, empty, unset) =
    absurd (not_split client before after (sym empty ∙ split))
leaves_rank (calling e) locked event inside client before after split (taken, empty, unset) =
    absurd (not_split client before after (sym empty ∙ split))

Step-steps_left : {s s' : LockQueue} → Step s s' → IsConsistent s → steps_left s ≡ steps_left s' + 1
Step-steps_left {s} (gets e before after at split least) v =
    let r = ap (λ l. rank l s.release_event) at in
    let q = ap length split in
    omega (arith, length-append before (e ∷ after), length-append before after)
Step-steps_left {s} (acquires e at free) v =
    let r = ap (λ l. rank l s.release_event) at in omega arith
Step-steps_left {s} (calls e at) v =
    let r = ap (λ l. rank l s.release_event) at in let unset = (at_loop s at v).2 in ground arith
Step-steps_left {s} (wakes at set) v = let r = ap (λ l. rank l s.release_event) at in ground arith
Step-steps_left {s} (leaves client before after split) v =
    let r = leaves_rank s.loop s.locked s.release_event s.inside client before after split v in
    omega arith

-- An entry of the lowest number, with what is before and after it.
abbrev Least : List Entry → Type 0
Least entries =
    (e : Entry) × (before : List Entry) × (after : List Entry) × (entries ≡ before ++ e ∷ after)
    × All (λ other. e.priority ≤ other.priority) entries

weaken :
    (m n : ℕ) (entries : List Entry)
    → m ≤ n
    → All (λ other. n ≤ other.priority) entries
    → All (λ other. m ≤ other.priority) entries
weaken m n [] h all = tt
weaken m n (e ∷ entries) h (least, all) = (omega arith, weaken m n entries h all)

least : (e : Entry) (entries : List Entry) → Least (e ∷ entries)
least e [] = (e, [], [], refl, (omega arith, tt))
least e (next ∷ entries) =
    let (m, before, after, split, all) = least next entries in
    elim (Bool-cases (leb e.priority m.priority)) [
      | inl first ↦
          let le = leb→le _ _ first in
          (
            e,
            [],
            next ∷ entries,
            refl,
            (omega arith, weaken e.priority m.priority (next ∷ entries) le all),
          )
      | inr later ↦
          let lt = leb_false→lt _ _ later in
          (m, e ∷ before, after, ap (◌∷◌ e) split, (omega arith, all))
    ]

-- Where steps are left, one can be taken: the lock does not get stuck.
progress : (s : LockQueue) → IsConsistent s → 0 < steps_left s → (s' : LockQueue) × Step s s'
progress s v some_left = from s.loop refl
  where
    from : (loop : Loop) → s.loop ≡ loop → (s' : LockQueue) × Step s s'
    from getting at = queued s.task_queue refl
      where
        queued : (entries : List Entry) → s.task_queue ≡ entries → (s' : LockQueue) × Step s s'
        queued [] none_left = absurd (
            let r = ap (λ l. rank l s.release_event) at in
            let q = ap length none_left in omega arith)
        queued (e ∷ entries) there =
            let (m, before, after, split, all) = least e entries in
            (
              _,
              gets m before after at (there ∙ split)
                  (subst (All (λ other. m.priority ≤ other.priority)) (sym there) all),
            )
    from (acquiring e) at = (_, acquires e at (at_loop s at v).0)
    from (calling e) at = (_, calls e at)
    from waiting at = elim (at_loop s at v) [
      | inl (client, one, taken, unset) ↦ (_, leaves client [] [] one)
      | inr (empty, free, set) ↦ (_, wakes at set)
    ]

-- How often a client is among entries, in the hand of the loop, and in a list of clients.
abbrev is_for : ℕ → Entry → ℕ
is_for client e = if client == e.client then 1 else 0

abbrev queued_count : ℕ → List Entry → ℕ
queued_count client [] = 0
queued_count client (e ∷ entries) = is_for client e + queued_count client entries

abbrev in_hand : ℕ → Loop → ℕ
in_hand client getting = 0
in_hand client (acquiring e) = is_for client e
in_hand client (calling e) = is_for client e
in_hand client waiting = 0

-- The calls that a client waits for.
abbrev pub pending : ℕ → LockQueue → ℕ
pending client s = queued_count client s.task_queue + in_hand client s.loop

abbrev pub times_called : ℕ → List ℕ → ℕ
times_called client [] = 0
times_called client (c ∷ called) = (if client == c then 1 else 0) + times_called client called

queued_count-append :
    (client : ℕ) (before after : List Entry)
    → queued_count client (before ++ after) ≡ queued_count client before + queued_count client after
queued_count-append client [] after = omega arith
queued_count-append client (e ∷ before) after =
    omega (arith, queued_count-append client before after)

Step-pending :
    (client : ℕ) {s s' : LockQueue}
    → Step s s'
    → IsConsistent s
    → times_called client s'.called + pending client s'
      ≡ times_called client s.called + pending client s
Step-pending client {s} (gets e before after at split least) v =
    let hand = ap (in_hand client) at in
    let q = ap (queued_count client) split in
    omega (
      arith,
      queued_count-append client before (e ∷ after),
      queued_count-append client before after,
    )
Step-pending client {s} (acquires e at free) v = let hand = ap (in_hand client) at in omega arith
Step-pending client {s} (calls e at) v = let hand = ap (in_hand client) at in omega arith
Step-pending client {s} (wakes at set) v = let hand = ap (in_hand client) at in omega arith
Step-pending client {s} (leaves c before after split) v = refl

Steps-count :
    {n : ℕ} {s s' : LockQueue}
    → Steps n s s'
    → IsConsistent s
    → (steps_left s ≡ n + steps_left s')
      × IsConsistent s'
      × ((client : ℕ)
          → times_called client s'.called + pending client s'
            ≡ times_called client s.called + pending client s)
Steps-count stop v = (omega arith, v, λ client. refl)
Steps-count (go step steps) v =
    let (left, w, counts) = Steps-count steps (Step-IsConsistent step v) in
    let one = Step-steps_left step v in
    (omega arith, w, λ client. counts client ∙ Step-pending client step v)

nothing_left : (s : LockQueue) → steps_left s ≡ 0 → (s.task_queue ≡ []) × (s.loop ≡ getting)
nothing_left s h = (empty s.task_queue refl, idle s.loop refl)
  where
    empty : (entries : List Entry) → s.task_queue ≡ entries → s.task_queue ≡ []
    empty [] e = e
    empty (x ∷ xs) e = absurd (let q = ap length e in omega arith)

    idle : (loop : Loop) → s.loop ≡ loop → s.loop ≡ getting
    idle getting e = e
    idle (acquiring x) e = absurd (let r = ap (λ l. rank l s.release_event) e in omega arith)
    idle (calling x) e = absurd (let r = ap (λ l. rank l s.release_event) e in omega arith)
    idle waiting e = absurd (let r = ap (λ l. rank l s.release_event) e in ground arith)

nobody_waits :
    (client : ℕ) (s : LockQueue) → s.task_queue ≡ [] → s.loop ≡ getting → pending client s ≡ 0
nobody_waits client s empty idle =
    let q = ap (queued_count client) empty in let l = ap (in_hand client) idle in omega arith

-- Every client is served. While nobody else joins, a reachable lock makes at most a fixed number of
-- steps; as long as it has made fewer, another can be made, in whatever order they were; and when
-- it has made them all, the queue is empty, nobody is inside, and each client was called exactly as
-- many times as it was waiting to be.
pub Steps-serve :
    {n : ℕ} {s s' : LockQueue}
    → Reachable s
    → Steps n s s'
    → (n ≤ steps_left s)
      × (n < steps_left s → (s'' : LockQueue) × Step s' s'')
      × (n ≡ steps_left s
          → (s'.task_queue ≡ [])
            × (s'.inside ≡ [])
            × ((client : ℕ)
                → times_called client s'.called ≡ times_called client s.called + pending client s))
Steps-serve {s' = s'} r steps =
    let (left, v, counts) = Steps-count steps (Reachable-IsConsistent r) in
    (
      omega arith,
      (λ few. progress s' v (omega arith)),
      (λ all.
          let (empty, idle) = nothing_left s' (omega arith) in
          (
            empty,
            (at_loop s' idle v).1,
            (λ client.
                (let p = nobody_waits client s' empty idle in
                  let c = counts client in omega arith)),
          )),
    )
