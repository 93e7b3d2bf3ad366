-- ===== src/Base/Slices.antt =====
-- Python's slices of lists and byte strings, `xs[i:j]` and `xs[i:j] = ys`, read entry by entry.
use Prim.Native.Nat.{ℕ, zero, suc, ◌+◌, ◌-◌, ◌≤◌, min}
use mathlib.Core.Path.{◌≡◌, refl, ap}
use mathlib.Core.List.{List, [], ◌∷◌, ◌++◌, reverse, reverse-cons}
use mathlib.Core.Option.{none}
use native.Mathlib.Omega.{arith}
use corpochain_beacon_client.Base.Tests.{ltb, if◌then◌else◌, some_cancel}
use corpochain_beacon_client.Base.Lists.{length, get_elem?, take, drop, length-append, length-take}

module _ {ℓ} {A : Type ℓ} where
  -- `xs[i:j]`
  abbrev pub slice : ℕ → ℕ → List A → List A
  slice i j xs = take (j - i) (drop i xs)

  -- `xs[i:j] = ys`
  abbrev pub set_slice : ℕ → ℕ → List A → List A → List A
  set_slice i j ys xs = take i xs ++ (ys ++ drop j xs)

  pub length-drop : (n : ℕ) (xs : List A) → length (drop n xs) ≡ length xs - n
  length-drop zero xs = omega arith
  length-drop (suc n) [] = omega arith
  length-drop (suc n) (x ∷ xs) = omega (arith, length-drop n xs)

  pub get_elem?-ge : (xs : List A) (i : ℕ) → length xs ≤ i → get_elem? xs i ≡ none
  get_elem?-ge [] i h = refl
  get_elem?-ge (x ∷ xs) zero h = absurd (omega arith)
  get_elem?-ge (x ∷ xs) (suc i) h = get_elem?-ge xs i (omega arith)

  pub get_elem?-drop :
      (n : ℕ) (xs : List A) (i : ℕ) → get_elem? (drop n xs) i ≡ get_elem? xs (n + i)
  get_elem?-drop zero xs i = ground arith
  get_elem?-drop (suc n) [] i = refl
  get_elem?-drop (suc n) (x ∷ xs) i = ground (arith, get_elem?-drop n xs i)

  pub get_elem?-take :
      (n : ℕ) (xs : List A) (i : ℕ)
      → get_elem? (take n xs) i ≡ (if ltb i n then get_elem? xs i else none)
  get_elem?-take zero xs i = ground arith
  get_elem?-take (suc n) [] i = ground arith
  get_elem?-take (suc n) (x ∷ xs) zero = ground arith
  get_elem?-take (suc n) (x ∷ xs) (suc i) = ground (arith, get_elem?-take n xs i)

  pub get_elem?-append :
      (xs ys : List A) (i : ℕ)
      → get_elem? (xs ++ ys) i
        ≡ (if ltb i (length xs) then get_elem? xs i else get_elem? ys (i - length xs))
  get_elem?-append [] ys i = ground arith
  get_elem?-append (x ∷ xs) ys zero = ground arith
  get_elem?-append (x ∷ xs) ys (suc i) = ground (arith, get_elem?-append xs ys i)

  -- Two lists that read the same everywhere are the same.
  pub list_ext : (xs ys : List A) → ((i : ℕ) → get_elem? xs i ≡ get_elem? ys i) → xs ≡ ys
  list_ext [] [] h = refl
  list_ext [] (y ∷ ys) h = absurd (let e = h 0 in ground arith)
  list_ext (x ∷ xs) [] h = absurd (let e = h 0 in ground arith)
  list_ext (x ∷ xs) (y ∷ ys) h =
      let heads = some_cancel (h 0) in let tails = list_ext xs ys (λ i. h (suc i)) in cc

pub length-reverse {ℓ} : {A : Type ℓ} (xs : List A) → length (reverse xs) ≡ length xs
length-reverse [] = refl
length-reverse (x ∷ xs) =
    omega
      (arith, ap length (reverse-cons x xs), length-append (reverse xs) (x ∷ []), length-reverse xs)

module _ {A : Type 0} where
  pub length-set_slice :
      (i j : ℕ) (ys xs : List A)
      → length (set_slice i j ys xs) ≡ min i (length xs) + (length ys + (length xs - j))
  length-set_slice i j ys xs = omega (
    arith,
    length-append (take i xs) (ys ++ drop j xs),
    length-append ys (drop j xs),
    length-take i xs,
    length-drop j xs,
  )

  -- A slice that is replaced by one of its length, where the list reaches its start.
  pub get_elem?-set_slice :
      (i j : ℕ) (ys xs : List A) (k : ℕ)
      → i ≤ length xs
      → i + length ys ≡ j
      → get_elem? (set_slice i j ys xs) k ≡ (
          if ltb k i
          then get_elem? xs k
          else if ltb k j
          then get_elem? ys (k - i)
          else get_elem? xs k)
  get_elem?-set_slice i j ys xs k h e = ground (
    arith,
    get_elem?-append (take i xs) (ys ++ drop j xs) k,
    get_elem?-append ys (drop j xs) (k - i),
    get_elem?-take i xs k,
    get_elem?-drop j xs (k - i - length ys),
    length-take i xs,
  )

  pub get_elem?-slice :
      (i j : ℕ) (xs : List A) (k : ℕ)
      → get_elem? (slice i j xs) k ≡ (if ltb k (j - i) then get_elem? xs (i + k) else none)
  get_elem?-slice i j xs k =
      ground (arith, get_elem?-take (j - i) (drop i xs) k, get_elem?-drop i xs k)
