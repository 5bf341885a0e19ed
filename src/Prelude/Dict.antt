-- ===== src/Prelude/Dict.antt =====
-- A Go map as an association list with one entry for each key.
use ghost_trace.Prelude.Tests.{Comparable, ◌==◌, ==_refl, if◌then◌else◌, Bool-cases}
use mathlib.Core.Path.{◌≡◌, refl}
use mathlib.Core.Logic.{◌≢◌, inl, inr}
use mathlib.Core.Bool.{Bool, true, false}
use mathlib.Core.Option.{Option, none, some}
use mathlib.Core.List.{List, [], ◌∷◌}
use native.Mathlib.Omega.{arith}

abbrev pub Dict {ℓ κ} : Type ℓ → Type κ → Type (ℓ ⊔ κ)
Dict K V = List (K × V)

module _ {ℓ κ} {K : Type ℓ} {V : Type κ} ⦃e : Comparable K⦄ where
  -- `v, ok := m[k]`
  unfoldable pub lookup : K → Dict K V → Option V
  lookup key [] = none
  lookup key ((at_key, value) ∷ rest) = if at_key == key then some value else lookup key rest

  -- `_, ok := m[k]`
  unfoldable pub contains : K → Dict K V → Bool
  contains k [] = false
  contains k ((j, v) ∷ m) = if j == k then true else contains k m

  -- `m[k] = v`
  unfoldable pub insert : K → V → Dict K V → Dict K V
  insert key value [] = (key, value) ∷ []
  insert key value (entry ∷ rest) =
      if entry.0 == key then (key, value) ∷ rest else entry ∷ insert key value rest

  -- `delete(m, k)`
  unfoldable pub erase : K → Dict K V → Dict K V
  erase k [] = []
  erase k ((j, w) ∷ m) = if j == k then m else (j, w) ∷ erase k m

  pub lookup-insert :
      (k j : K) (v : V) (m : Dict K V)
      → lookup j (insert k v m) ≡ (if k == j then some v else lookup j m)
  unfolding lookup insert
  lookup-insert k j v [] = refl
  lookup-insert k j v ((i, old) ∷ m) =
      ground (arith, e.same_iff k j, e.same_iff i k, e.same_iff i j, lookup-insert k j v m)

  pub lookup-insert_self : (k : K) (v : V) (m : Dict K V) → lookup k (insert k v m) ≡ some v
  lookup-insert_self k v m = simp (lookup-insert, ==_refl k)

  -- No key has two entries.
  abbrev pub IsFunctional : Dict K V → Type (ℓ ⊔ κ)
  IsFunctional [] = Unit
  IsFunctional ((k, v) ∷ m) = (lookup k m ≡ none) × IsFunctional m

  pub contains-lookup : (k : K) (m : Dict K V) → contains k m ≡ false → lookup k m ≡ none
  unfolding lookup contains
  contains-lookup k [] h = refl
  contains-lookup k ((j, v) ∷ m) h = ground (arith, contains-lookup k m)

  pub lookup_of_contains :
      (k : K) (m : Dict K V) → contains k m ≡ true → (v : V) × (lookup k m ≡ some v)
  unfolding lookup contains
  lookup_of_contains k [] h = absurd (ground arith)
  lookup_of_contains k ((j, v) ∷ m) h = elim (Bool-cases (j == k)) [
    | inl here ↦ rw (here, lookup) (v, refl)
    | inr later ↦ rw (later, lookup) (lookup_of_contains k m (ground arith))
  ]

  pub lookup-contains : (k : K) (m : Dict K V) → lookup k m ≡ none → contains k m ≡ false
  unfolding lookup contains
  lookup-contains k [] h = refl
  lookup-contains k ((j, v) ∷ m) h = ground (arith, lookup-contains k m)

  pub contains_of_lookup :
      (k : K) (v : V) (m : Dict K V) → lookup k m ≡ some v → contains k m ≡ true
  unfolding lookup contains
  contains_of_lookup k v [] h = absurd (ground arith)
  contains_of_lookup k v ((j, w) ∷ m) h = ground (arith, contains_of_lookup k v m)

  pub lookup-erase_ne : (j k : K) (m : Dict K V) → j ≢ k → lookup j (erase k m) ≡ lookup j m
  unfolding lookup erase
  lookup-erase_ne j k [] h = refl
  lookup-erase_ne j k ((i, w) ∷ m) h =
      ground (arith, e.same_iff i k, e.same_iff i j, lookup-erase_ne j k m)

  pub lookup-erase_self : (k : K) (m : Dict K V) → IsFunctional m → lookup k (erase k m) ≡ none
  unfolding lookup erase
  lookup-erase_self k [] h = refl
  lookup-erase_self k ((i, w) ∷ m) h = ground (arith, e.same_iff i k, lookup-erase_self k m h.1)

  pub insert-IsFunctional :
      (k : K) (v : V) (m : Dict K V) → IsFunctional m → IsFunctional (insert k v m)
  unfolding lookup insert
  insert-IsFunctional k v [] h = (refl, tt)
  insert-IsFunctional k v ((i, w) ∷ m) h =
      ground (
        arith,
        e.same_iff i k,
        e.same_iff k i,
        lookup-insert k i v m,
        insert-IsFunctional k v m h.1,
      )

  pub erase-IsFunctional : (k : K) (m : Dict K V) → IsFunctional m → IsFunctional (erase k m)
  unfolding lookup erase
  erase-IsFunctional k [] h = tt
  erase-IsFunctional k ((i, w) ∷ m) h =
      ground (arith, e.same_iff i k, lookup-erase_ne i k m, erase-IsFunctional k m h.1)

  -- Every entry of the first map is in the second.
  abbrev pub Keeps : Dict K V → Dict K V → Type (ℓ ⊔ κ)
  Keeps old new = (k : K) (v : V) → lookup k old ≡ some v → lookup k new ≡ some v

  pub Keeps-refl : (m : Dict K V) → Keeps m m
  Keeps-refl m k v h = h

  pub Keeps-trans : (a b c : Dict K V) → Keeps a b → Keeps b c → Keeps a c
  Keeps-trans a b c h g k v e = g k v (h k v e)
