-- ===== src/Util/LruCache/Laws.antt =====
-- What a cache holds after a `put` or a `get`.
use mathlib.Core.Path.{subst}
use corpochain_beacon_client.Base.{
  ℕ, ◌+◌, ◌≤◌, ◌<◌, ◌≡◌, ◌≢◌, ◌⊎◌, inl, inr, refl, true, false, Option, none, some, [], ◌∷◌, ◌++◌,
  ltb, ◌==◌, if◌then◌else◌, length, length-append, arith, Bool-cases, ap, sym, ◌∙◌, ltb→lt,
  Option-cases, ltb_false→le, ==_iff,
}
use corpochain_beacon_client.Base.Dict.{
  Dict, Distinct, lookup, insert, erase, lookup-insert, lookup-erase_self, lookup-erase_ne,
  erase-Distinct,
}
use corpochain_beacon_client.Util.LruCache.{LruCache, move_to_end, pop_first, put}

module _ {V : Type 0} where
  pub record IsValid (c : LruCache V) : Type 0 where
    pub distinct : Distinct c.cache
    pub bounded : length c.cache ≤ c.capacity

  abbrev first_of : Option V → Option V → Option V
  first_of none o = o
  first_of (some v) o = some v

  lookup-snoc :
      (j k : ℕ) (v : V) (d : Dict V)
      → lookup j (d ++ (k, v) ∷ []) ≡ first_of (lookup j d) (if j == k then some v else none)
  lookup-snoc j k v [] = refl
  lookup-snoc j k v (e ∷ d) = ground (arith, lookup-snoc j k v d)

  snoc-Distinct :
      (k : ℕ) (v : V) (d : Dict V) → Distinct d → lookup k d ≡ none → Distinct (d ++ (k, v) ∷ [])
  snoc-Distinct k v [] h new = (refl, tt)
  snoc-Distinct k v (e ∷ d) h new = ground (arith, snoc-Distinct k v d h.1, lookup-snoc e.0 k v d)

  erase-insert : (k : ℕ) (v : V) (d : Dict V) → Distinct d → erase k (insert k v d) ≡ erase k d
  erase-insert k v [] h = ground arith
  erase-insert k v (e ∷ d) h = ground (arith, erase-insert k v d h.1)

  -- The new entry goes to the end.
  move_to_end-insert :
      (k : ℕ) (v : V) (d : Dict V)
      → Distinct d
      → move_to_end k (insert k v d) ≡ erase k d ++ (k, v) ∷ []
  move_to_end-insert k v d h =
      let found : lookup k (insert k v d) ≡ some v = lookup-insert k k v d ∙ ground arith in
      rw (found, move_to_end) (ap (λ r. r ++ (k, v) ∷ []) (erase-insert k v d h))

  length-erase : (k : ℕ) (d : Dict V) → length (erase k d) ≤ length d
  length-erase k [] = omega arith
  length-erase k (e ∷ d) = ground (arith, length-erase k d)

  length-erase_old : (k : ℕ) (d : Dict V) → lookup k d ≢ none → length (erase k d) + 1 ≡ length d
  length-erase_old k [] h = absurd (h refl)
  length-erase_old k (e ∷ d) h = ground (arith, length-erase_old k d)

  moved : ℕ → V → Dict V → Dict V
  moved k v d = erase k d ++ (k, v) ∷ []

  lookup-moved :
      (j k : ℕ) (v : V) (d : Dict V)
      → Distinct d
      → lookup j (moved k v d) ≡ (if j == k then some v else lookup j d)
  unfolding moved
  lookup-moved j k v d h =
      ground (arith, lookup-snoc j k v (erase k d), lookup-erase_self k d h, lookup-erase_ne j k d)

  moved-Distinct : (k : ℕ) (v : V) (d : Dict V) → Distinct d → Distinct (moved k v d)
  unfolding moved
  moved-Distinct k v d h =
      snoc-Distinct k v (erase k d) (erase-Distinct k d h) (lookup-erase_self k d h)

  length-moved : (k : ℕ) (v : V) (d : Dict V) → length (moved k v d) ≤ length d + 1
  unfolding moved
  length-moved k v d = omega (arith, length-append (erase k d) ((k, v) ∷ []), length-erase k d)

  put_fits :
      (k : ℕ) (v : V) (c : LruCache V)
      → Distinct c.cache
      → ltb c.capacity (length (moved k v c.cache)) ≡ false
      → put k v c ≡ record c { cache = moved k v c.cache }
  unfolding put moved
  put_fits k v c h fits = rw (move_to_end-insert k v c.cache h) (rw fits refl)

  put_over :
      (k : ℕ) (v : V) (c : LruCache V)
      → Distinct c.cache
      → ltb c.capacity (length (moved k v c.cache)) ≡ true
      → put k v c ≡ record c { cache = pop_first (moved k v c.cache) }
  unfolding put moved
  put_over k v c h over = rw (move_to_end-insert k v c.cache h) (rw over refl)

  erase_new : (k : ℕ) (d : Dict V) → lookup k d ≡ none → erase k d ≡ d
  erase_new k [] h = refl
  erase_new k (e ∷ d) h = ground (arith, erase_new k d)

  lookup-pop_first :
      (j : ℕ) (e : ℕ × V) (d : Dict V)
      → Distinct (e ∷ d)
      → lookup j d ≡ (if j == e.0 then none else lookup j (e ∷ d))
  lookup-pop_first j e d h = ground (arith, h.0)

  -- The key that is given up.
  abbrev pub oldest : Dict V → Option ℕ
  oldest [] = none
  oldest (e ∷ d) = some e.0

  moved_over :
      (k : ℕ) (v : V) (c : LruCache V)
      → IsValid c
      → 0 < c.capacity
      → c.capacity < length (moved k v c.cache)
      → (e : ℕ × V) × (d : Dict V) × (moved k v c.cache ≡ e ∷ d)
        × (oldest c.cache ≡ some e.0)
        × (k ≢ e.0)
        × (length c.cache ≡ c.capacity)
        × (length d ≡ c.capacity)
  unfolding moved
  moved_over k v c h some_room over =
      from c.cache h.bounded (omega (arith, length-moved k v c.cache)) over
    where
      from :
          (d : Dict V)
          → length d ≤ c.capacity
          → c.capacity ≤ length d
          → c.capacity < length (erase k d ++ (k, v) ∷ [])
          → (e : ℕ × V) × (r : Dict V) × (erase k d ++ (k, v) ∷ [] ≡ e ∷ r)
            × (oldest d ≡ some e.0)
            × (k ≢ e.0)
            × (length d ≡ c.capacity)
            × (length r ≡ c.capacity)
      from [] le ge over = absurd (omega arith)
      from (e ∷ d) le ge over = elim (Option-cases (lookup k (e ∷ d))) [
        | inl new ↦ (
          e,
          d ++ (k, v) ∷ [],
          ap (λ r. r ++ (k, v) ∷ []) (erase_new k (e ∷ d) new),
          refl,
          ground arith,
          omega arith,
          omega (arith, length-append d ((k, v) ∷ [])),
        )
        | inr (w, old) ↦ absurd (
            let l = length-append (erase k (e ∷ d)) ((k, v) ∷ []) in
            let m = length-erase_old k (e ∷ d) (λ none_there. ground arith) in omega arith)
      ]

  -- What is said of a cache after a `put`.
  abbrev pub Reads : ℕ → V → LruCache V → LruCache V → Type 0
  Reads k v c c' =
      IsValid c'
      × ((j : ℕ)
          → (lookup j c'.cache ≡ (if j == k then some v else lookup j c.cache))
            ⊎ ((oldest c.cache ≡ some j) × (j ≢ k) × (length c.cache ≡ c.capacity)))

  -- Putting an item keeps the cache valid: no key twice, and no more items than the capacity, which
  -- is at least 1. Every key is then answered as in a dictionary without a bound, except one at most:
  -- where the cache was full, the key that was used least recently may be gone, and it is not the
  -- new one.
  pub put-Reads :
      (k : ℕ) (v : V) (c : LruCache V) → IsValid c → 0 < c.capacity → Reads k v c (put k v c)
  put-Reads k v c h some_room = elim (Bool-cases (ltb c.capacity (length (moved k v c.cache)))) [
    | inr fits ↦ subst (Reads k v c) (sym (put_fits k v c h.distinct fits)) (
      record { distinct = moved-Distinct k v c.cache h.distinct; bounded = ltb_false→le _ _ fits },
      λ j. inl (lookup-moved j k v c.cache h.distinct),
    )
    | inl over ↦
        let (e, d, split, first, other, full, length_d) =
          moved_over k v c h some_room (ltb→lt _ _ over) in
        let whole = subst Distinct split (moved-Distinct k v c.cache h.distinct) in
        subst (Reads k v c)
          (sym (put_over k v c h.distinct over ∙ ap (λ r. record c { cache = pop_first r }) split))
          (
            record { distinct = whole.1; bounded = omega arith },
            λ j. elim (Bool-cases (j == e.0)) [
              | inl gone ↦
                  let here = (==_iff j e.0).0 gone in
                  inr (first ∙ ap some (sym here), (λ same. other (sym same ∙ here)), full)
              | inr kept ↦ inl (
                  lookup-pop_first j e d whole
                  ∙ (ap (λ b. if b then none else lookup j (e ∷ d)) kept
                      ∙ (ap (lookup j) (sym split) ∙ lookup-moved j k v c.cache h.distinct)))
            ],
          )
  ]
