-- ===== src/Consensus/VdfInfo/Search.antt =====
-- Where the searches back along the chain end: at the first block of a sub-slot, or at the nearest
-- block that is one or does not lie after a signage point.
use corpochain_beacon_client.Base.{
  ℕ, ◌≤◌, ◌<◌, ◌≡◌, refl, Bool, true, false, not, ◌&&◌, Option, some, List, [], ◌∷◌, ◌++◌, ltb,
  is_some, last?, ok, assertion_error, or_raise, or_raise-eq-ok, >>=-eq-ok, sym, ◌∙◌, ap, ltb→lt,
  ltb_false→le, some_cancel,
}
use corpochain_beacon_client.Consensus.Block.{BlockRecord, Blockchain}
use corpochain_beacon_client.Consensus.Chain.{Nearest, here, back}
use corpochain_beacon_client.Consensus.VdfInfo.{last_hash, lies_after, inside_sub_slot}

-- The hash is the last of the list, which is there.
abbrev pub IsLast : Option (List ℕ) → ℕ → Type 0
IsLast hashes h = (front : List ℕ) × (hashes ≡ some (front ++ h ∷ []))

last?-IsLast : (l : List ℕ) (h : ℕ) → last? l ≡ some h → (front : List ℕ) × (l ≡ front ++ h ∷ [])
last?-IsLast [] h e = cc
last?-IsLast (x ∷ []) h e = ([], ap (λ y. y ∷ []) (some_cancel e))
last?-IsLast (x ∷ y ∷ l) h e =
    let (front, same) = last?-IsLast (y ∷ l) h e in (x ∷ front, ap (λ l. x ∷ l) same)

pub last_hash-IsLast :
    (hashes : Option (List ℕ)) {h : ℕ} → last_hash hashes ≡ ok h → IsLast hashes h
last_hash-IsLast hashes {h} e =
    let (found, there, last) = >>=-eq-ok (or_raise hashes assertion_error) _ e in
    let (front, same) = last?-IsLast found h (or_raise-eq-ok _ _ last) in
    (front, or_raise-eq-ok _ _ there ∙ ap some same)

module _ (bs : Blockchain) where
  -- The nearest block, back from the first one, that starts a sub-slot.
  pub data SlotStart : BlockRecord → BlockRecord → Type 0 where
    starts : {b : BlockRecord} → is_some b.finished_challenge_slot_hashes ≡ true → SlotStart b b
    inside :
        {b p r : BlockRecord}
        → is_some b.finished_challenge_slot_hashes ≡ false
        → bs.block_records b.prev_hash ≡ some p
        → SlotStart p r
        → SlotStart b r

  refuted : (b : Bool) → not b ≡ true → b ≡ false
  refuted true h = cc
  refuted false h = refl

  confirmed : (b : Bool) → not b ≡ false → b ≡ true
  confirmed true h = refl
  confirmed false h = cc

  pub Nearest-SlotStart : {b r : BlockRecord} → Nearest bs inside_sub_slot b r → SlotStart b r
  Nearest-SlotStart (here stop) = starts (confirmed _ stop)
  Nearest-SlotStart (back go e rest) = inside (refuted _ go) e (Nearest-SlotStart rest)

  module _ (sp_total_iters : ℕ) where
    -- The nearest block, back from the first one, that starts a sub-slot or does not lie after the
    -- signage point.
    pub data Before : BlockRecord → BlockRecord → Type 0 where
      first : {b : BlockRecord} → is_some b.finished_challenge_slot_hashes ≡ true → Before b b
      reached : {b : BlockRecord} → b.total_iters ≤ sp_total_iters → Before b b
      after :
          {b p r : BlockRecord}
          → is_some b.finished_challenge_slot_hashes ≡ false
          → sp_total_iters < b.total_iters
          → bs.block_records b.prev_hash ≡ some p
          → Before p r
          → Before b r

    stops :
        (b : BlockRecord) (start later : Bool)
        → start ≡ is_some b.finished_challenge_slot_hashes
        → later ≡ ltb sp_total_iters b.total_iters
        → (not start && later) ≡ false
        → Before b b
    stops b true later s l h = first (sym s)
    stops b false true s l h = cc
    stops b false false s l h = reached (ltb_false→le _ _ (sym l))

    goes : (start later : Bool) → (not start && later) ≡ true → (start ≡ false) × (later ≡ true)
    goes true later h = cc
    goes false true h = (refl, refl)
    goes false false h = cc

    pub Nearest-Before :
        {b r : BlockRecord} → Nearest bs (lies_after sp_total_iters) b r → Before b r
    Nearest-Before {b} (here stop) = stops b _ _ refl refl stop
    Nearest-Before {b} (back go e rest) =
        let (s, l) =
          goes (is_some b.finished_challenge_slot_hashes) (ltb sp_total_iters b.total_iters) go in
        after s (ltb→lt _ _ l) e (Nearest-Before rest)
