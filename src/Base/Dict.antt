-- ===== src/Base/Dict.antt =====
-- A Python dict whose keys are hashes, paths or heights, as the list of its items in insertion
-- order. `insert` keeps the place of a key that is there, and appends a new one.
use Prim.Native.Nat.{ℕ, suc, ◌≤◌}
use mathlib.Core.Path.{◌≡◌, refl}
use mathlib.Core.Logic.{◌≢◌}
use mathlib.Core.Bool.{Bool}
use mathlib.Core.Option.{Option, none, some}
use mathlib.Core.List.{List, [], ◌∷◌}
use native.Mathlib.Omega.{arith}
use corpochain_beacon_client.Base.Tests.{◌==◌, if◌then◌else◌, is_some}
use corpochain_beacon_client.Base.Lists.{length}

abbrev pub Dict {ℓ} : Type ℓ → Type ℓ
Dict V = List (ℕ × V)

module _ {ℓ} {V : Type ℓ} where
  abbrev pub lookup : ℕ → Dict V → Option V
  lookup key [] = none
  lookup key (item ∷ items) = if key == item.0 then some item.1 else lookup key items

  abbrev pub contains : ℕ → Dict V → Bool
  contains key items = is_some (lookup key items)

  abbrev pub insert : ℕ → V → Dict V → Dict V
  insert key value [] = (key, value) ∷ []
  insert key value (item ∷ items) =
      if key == item.0 then (key, value) ∷ items else item ∷ insert key value items

  abbrev pub erase : ℕ → Dict V → Dict V
  erase key [] = []
  erase key (item ∷ items) = if key == item.0 then items else item ∷ erase key items

  -- No key stands twice.
  abbrev pub Distinct : Dict V → Type ℓ
  Distinct [] = Unit
  Distinct (e ∷ d) = (lookup e.0 d ≡ none) × Distinct d

  pub lookup-insert :
      (j k : ℕ) (v : V) (d : Dict V)
      → lookup j (insert k v d) ≡ (if j == k then some v else lookup j d)
  lookup-insert j k v [] = refl
  lookup-insert j k v (e ∷ d) = ground (arith, lookup-insert j k v d)

  pub lookup-erase_ne : (j k : ℕ) (d : Dict V) → j ≢ k → lookup j (erase k d) ≡ lookup j d
  lookup-erase_ne j k [] apart = refl
  lookup-erase_ne j k (item ∷ d) apart = ground (arith, lookup-erase_ne j k d apart)

  pub lookup-erase_self : (k : ℕ) (d : Dict V) → Distinct d → lookup k (erase k d) ≡ none
  lookup-erase_self k [] h = refl
  lookup-erase_self k (e ∷ d) h = ground (arith, lookup-erase_self k d h.1)

  pub lookup-erase-none : (j k : ℕ) (d : Dict V) → lookup j d ≡ none → lookup j (erase k d) ≡ none
  lookup-erase-none j k [] h = refl
  lookup-erase-none j k (e ∷ d) h = ground (arith, lookup-erase-none j k d)

  pub insert-Distinct : (k : ℕ) (v : V) (d : Dict V) → Distinct d → Distinct (insert k v d)
  insert-Distinct k v [] h = (refl, tt)
  insert-Distinct k v (e ∷ d) h = ground (arith, insert-Distinct k v d h.1, lookup-insert e.0 k v d)

  pub erase-Distinct : (k : ℕ) (d : Dict V) → Distinct d → Distinct (erase k d)
  erase-Distinct k [] h = tt
  erase-Distinct k (e ∷ d) h = ground (arith, erase-Distinct k d h.1, lookup-erase-none e.0 k d h.0)

  pub length-insert_le : (k : ℕ) (v : V) (d : Dict V) → length (insert k v d) ≤ suc (length d)
  length-insert_le k v [] = omega arith
  length-insert_le k v (e ∷ d) = ground (arith, length-insert_le k v d)

  pub length-insert_new :
      (k : ℕ) (v : V) (d : Dict V) → lookup k d ≡ none → length (insert k v d) ≡ suc (length d)
  length-insert_new k v [] h = refl
  length-insert_new k v (e ∷ d) h = ground (arith, length-insert_new k v d)

  pub length-insert_old :
      (k : ℕ) (v : V) (d : Dict V) → lookup k d ≢ none → length (insert k v d) ≡ length d
  length-insert_old k v [] h = absurd (h refl)
  length-insert_old k v (e ∷ d) h = ground (arith, length-insert_old k v d)
