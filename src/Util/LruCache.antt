-- ===== src/Util/LruCache.antt =====
-- A cache of the most recently used items: corpochain/util/lru_cache.py. The ordered dictionary is
-- the list of its items, the least recently used first.
pub mod Laws
use corpochain_beacon_client.Base.{
  ℕ, ◌≡◌, Option, none, some, List, [], ◌∷◌, ◌++◌, ltb, if◌then◌else◌, length, Result, ok, err,
  key_error, is_some,
}
use corpochain_beacon_client.Base.Dict.{Dict, lookup, insert, erase}

pub record LruCache {ℓ} (V : Type ℓ) : Type ℓ where
  pub cache : Dict V
  pub capacity : ℕ

module _ {ℓ} {V : Type ℓ} where
  abbrev pub init : ℕ → LruCache V
  init capacity = record { cache = []; capacity = capacity }

  -- `move_to_end`, of a key that is there
  abbrev pub move_to_end : ℕ → Dict V → Dict V
  move_to_end key cache = elim (lookup key cache) [
    | none ↦ cache
    | some value ↦ erase key cache ++ (key, value) ∷ []
  ]

  -- `popitem(last=False)`, of a cache that is not empty
  abbrev pub pop_first : Dict V → Dict V
  pop_first [] = []
  pop_first (item ∷ cache) = cache

  unfoldable pub get : ℕ → LruCache V → Option V × LruCache V
  get key c = elim (lookup key c.cache) [
    | none ↦ (none, c)
    | some value ↦ (some value, record c { cache = move_to_end key c.cache })
  ]

  unfoldable pub put : ℕ → V → LruCache V → LruCache V
  put key value c =
      let cache = move_to_end key (insert key value c.cache) in
      record c { cache = if ltb c.capacity (length cache) then pop_first cache else cache }

  unfoldable pub remove : ℕ → LruCache V → Result (LruCache V)
  remove key c =
      if is_some (lookup key c.cache)
      then ok (record c { cache = erase key c.cache })
      else err key_error
