-- ===== src/Errors/Exec.antt =====
-- Methods that change an object and may raise. What was written before a raise stays written, so the
-- object comes back beside the error too.
use agent_gear.Common.{Bool, true, false}
use agent_gear.Errors.{Error, Result, ok, err}

abbrev pub Exec {ℓ κ} : Type ℓ → Type κ → Type (ℓ ⊔ κ)
Exec S A = S → Result A × S

module _ {ℓ κ} {S : Type ℓ} {A : Type κ} where
  unfoldable pub pure : A → Exec S A
  pure a s = (ok a, s)

  unfoldable pub raise : Error → Exec S A
  raise e s = (err e, s)

  unfoldable pub lift : Result A → Exec S A
  lift r s = (r, s)

  -- a value computed from the object, which may raise
  unfoldable pub asks : (S → Result A) → Exec S A
  asks f s = (f s, s)

  unfoldable pub gets : (S → A) → Exec S A
  gets f s = (ok (f s), s)

module _ {ℓ} {S : Type ℓ} where
  unfoldable pub modify : (S → S) → Exec S (Unit {0})
  modify f s = (ok tt, f s)

  -- `if b: raise e`
  unfoldable pub raise_if : Bool → Error → Exec S (Unit {0})
  raise_if true e s = (err e, s)
  raise_if false e s = (ok tt, s)

-- Runs an action on a part of the object.
module _ {ℓ κ μ} {S : Type ℓ} {T : Type κ} {A : Type μ} where
  unfoldable pub zoom : (S → T) → (T → S → S) → Exec T A → Exec S A
  zoom get put m s = ((m (get s)).0, put (m (get s)).1 s)

module _ {ℓ κ μ} {S : Type ℓ} {A : Type κ} {B : Type μ} where
  infixl 10 ◌>>=◌ ◌>>◌
  abbrev pub continue : Result A → (A → Exec S B) → Exec S B
  continue (ok a) f s = f a s
  continue (err e) f s = (err e, s)

  -- opening this opens the actions above too
  unfoldable pub ◌>>=◌ : Exec S A → (A → Exec S B) → Exec S B
  unfolding pure raise lift asks gets modify raise_if zoom
  ◌>>=◌ m f s = continue (m s).0 f (m s).1

  abbrev pub ◌>>◌ : Exec S A → Exec S B → Exec S B
  m >> n = m >>= λ _. n
