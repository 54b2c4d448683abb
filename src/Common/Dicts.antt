-- ===== src/Common/Dicts.antt =====
-- A dictionary with numbers for keys, in the order of insertion, as Python keeps it: a write to a
-- key that is there replaces its value in place, and a new key goes to the end.
use Prim.Native.Nat.{ℕ, suc, ◌<◌}
use mathlib.Core.Path.{◌≡◌, refl}
use mathlib.Core.Logic.{inl, inr}
use mathlib.Core.Option.{Option, none, some}
use mathlib.Core.List.{List, [], ◌∷◌, ◌++◌}
use native.Mathlib.Omega.{arith}
use agent_gear.Common.Bools.{◌==◌, if◌then◌else◌, Bool-cases}

abbrev pub Dict {ℓ} : Type ℓ → Type ℓ
Dict V = List (ℕ × V)

module _ {ℓ} {V : Type ℓ} where
  unfoldable pub lookup : ℕ → Dict V → Option V
  lookup k [] = none
  lookup k ((j, v) ∷ d) = if j == k then some v else lookup k d

  unfoldable pub insert : ℕ → V → Dict V → Dict V
  insert k v [] = (k, v) ∷ []
  insert k v ((j, w) ∷ d) = if j == k then (k, v) ∷ d else (j, w) ∷ insert k v d

  pub lookup-insert :
      (k j : ℕ) (v : V) (d : Dict V)
      → lookup j (insert k v d) ≡ (if k == j then some v else lookup j d)
  unfolding lookup insert
  lookup-insert k j v [] = refl
  lookup-insert k j v ((i, w) ∷ d) = ground (arith, lookup-insert k j v d)

  -- Every key is below the bound.
  abbrev pub KeysBelow : ℕ → Dict V → Type 0
  KeysBelow n [] = Unit
  KeysBelow n ((j, v) ∷ d) = (j < n) × KeysBelow n d

  pub insert_fresh : (n : ℕ) (v : V) (d : Dict V) → KeysBelow n d → insert n v d ≡ d ++ (n, v) ∷ []
  unfolding insert
  insert_fresh n v [] h = refl
  insert_fresh n v ((j, w) ∷ d) h = ground (arith, insert_fresh n v d h.1)

  pub KeysBelow-suc : (n : ℕ) (d : Dict V) → KeysBelow n d → KeysBelow (suc n) d
  KeysBelow-suc n [] h = tt
  KeysBelow-suc n ((j, w) ∷ d) h = (omega arith, KeysBelow-suc n d h.1)

  pub insert-KeysBelow :
      (n k : ℕ) (v : V) (d : Dict V) → k < n → KeysBelow n d → KeysBelow n (insert k v d)
  unfolding insert
  insert-KeysBelow n k v [] lt h = (lt, tt)
  insert-KeysBelow n k v ((j, w) ∷ d) lt h = elim (Bool-cases (j == k)) [
    | inl e ↦ rw e (lt, h.1)
    | inr e ↦ rw e (h.0, insert-KeysBelow n k v d lt h.1)
  ]

  pub lookup-lt : (n k : ℕ) (v : V) (d : Dict V) → KeysBelow n d → lookup k d ≡ some v → k < n
  unfolding lookup
  lookup-lt n k v [] h e = cc
  lookup-lt n k v ((j, w) ∷ d) h e = ground (arith, lookup-lt n k v d h.1)

  pub lookup_fresh : (n : ℕ) (d : Dict V) → KeysBelow n d → lookup n d ≡ none
  unfolding lookup
  lookup_fresh n [] h = refl
  lookup_fresh n ((j, w) ∷ d) h = ground (arith, lookup_fresh n d h.1)

  pub lookup-insert_self : (k : ℕ) (v : V) (d : Dict V) → lookup k (insert k v d) ≡ some v
  unfolding lookup insert
  lookup-insert_self k v [] = ground arith
  lookup-insert_self k v ((j, w) ∷ d) = ground (arith, lookup-insert_self k v d)
