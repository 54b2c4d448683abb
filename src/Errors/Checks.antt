-- ===== src/Errors/Checks.antt =====
-- Functions that may raise and change nothing: their composition, and a check that raises.
use agent_gear.Common.{Bool, true, false, Option, none, some, ◌≡◌, ◌≢◌, refl}
use agent_gear.Errors.{Error, Result, ok, err}

module _ {ℓ κ} {A : Type ℓ} {B : Type κ} where
  infixl 10 ◌>>=◌ ◌>>◌
  abbrev pub ◌>>=◌ : Result A → (A → Result B) → Result B
  err e >>= k = err e
  ok a >>= k = k a

  abbrev pub ◌>>◌ : Result A → Result B → Result B
  r >> s = r >>= λ a. s

  -- A chain that returns did so at each of its two steps.
  pub chain_ok :
      (r : Result A) (k : A → Result B) (b : B)
      → (r >>= k) ≡ ok b
      → (a : A) × (r ≡ ok a) × (k a ≡ ok b)
  chain_ok (err e) k b h = cc
  chain_ok (ok a) k b h = (a, refl, h)

-- `if failed: raise e`
abbrev pub raise_if : Bool → Error → Result (Unit {0})
raise_if true e = err e
raise_if false e = ok tt

-- The check of an optional value.
abbrev pub raise_if_some {ℓ} : {A : Type ℓ} → (A → Bool) → Option A → Error → Result (Unit {0})
raise_if_some failed none e = ok tt
raise_if_some failed (some a) e = raise_if (failed a) e

-- A check that a chain passed did not fail.
pub raise_if_ok {ℓ} :
    {A : Type ℓ} (b : Bool) (e : Error) (r : Result A) (a : A)
    → (raise_if b e >> r) ≡ ok a
    → (b ≡ false) × (r ≡ ok a)
raise_if_ok true e r a h = cc
raise_if_ok false e r a h = (refl, h)

pub ok_injective {ℓ} : {A : Type ℓ} (a b : A) → ok a ≡ ok b → a ≡ b
ok_injective a b h = cc

-- What every value that a function returns satisfies.
abbrev pub Yields {ℓ κ} : {A : Type ℓ} → (A → Type κ) → Result A → Type (ℓ ⊔ κ)
Yields {A = A} P r = (a : A) → r ≡ ok a → P a

module _ {ℓ κ μ} {A : Type ℓ} {B : Type κ} (P : B → Type μ) where
  pub Yields-bind :
      (r : Result A) (k : A → Result B) → ((a : A) → r ≡ ok a → Yields P (k a)) → Yields P (r >>= k)
  Yields-bind (err e) k step b h = cc
  Yields-bind (ok a) k step b h = step a refl b h

pub ok_not_err {ℓ} : {A : Type ℓ} (a : A) (e : Error) → ok a ≢ err e
ok_not_err a e h = cc
