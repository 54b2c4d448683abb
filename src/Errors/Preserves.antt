-- ===== src/Errors/Preserves.antt =====
-- When an action keeps a property of the object, whether it returns or raises: one rule for each way
-- to build an action.
use agent_gear.Common.{Bool, true, false, if◌then◌else◌}
use agent_gear.Errors.{Error, Result, ok, err}
use agent_gear.Errors.Exec.{Exec, pure, raise, lift, asks, gets, raise_if, continue, ◌>>=◌}

pub record Preserves {ℓ κ μ} {S : Type ℓ} {A : Type κ} (P : S → Type μ) (m : Exec S A)
    : Type (ℓ ⊔ μ) where
  pub apply : (s : S) → P s → P (m s).1

module _ {ℓ κ μ} {S : Type ℓ} {A : Type κ} {P : S → Type μ} where
  pub pure-Preserves : (a : A) → Preserves P (pure a)
  unfolding pure
  pure-Preserves a = record { apply = λ s h. h }

  pub raise-Preserves : (e : Error) → Preserves P (raise {A = A} e)
  unfolding raise
  raise-Preserves e = record { apply = λ s h. h }

  pub lift-Preserves : (r : Result A) → Preserves P (lift r)
  unfolding lift
  lift-Preserves r = record { apply = λ s h. h }

  pub asks-Preserves : (f : S → Result A) → Preserves P (asks f)
  unfolding asks
  asks-Preserves f = record { apply = λ s h. h }

  pub gets-Preserves : (f : S → A) → Preserves P (gets f)
  unfolding gets
  gets-Preserves f = record { apply = λ s h. h }

  pub if-Preserves :
      (b : Bool) (m n : Exec S A) → Preserves P m → Preserves P n → Preserves P (if b then m else n)
  if-Preserves true m n hm hn = hm
  if-Preserves false m n hm hn = hn

module _ {ℓ μ} {S : Type ℓ} {P : S → Type μ} where
  pub raise_if-Preserves : (b : Bool) (e : Error) → Preserves P (raise_if b e)
  unfolding raise_if
  raise_if-Preserves true e = record { apply = λ s h. h }
  raise_if-Preserves false e = record { apply = λ s h. h }

module _ {ℓ κ ν μ} {S : Type ℓ} {A : Type κ} {B : Type ν} {P : S → Type μ} where
  continue-Preserves :
      (r : Result A) (f : A → Exec S B)
      → ((a : A) → Preserves P (f a))
      → (s : S) → P s
      → P (continue r f s).1
  continue-Preserves (ok a) f hf s h = (hf a).apply s h
  continue-Preserves (err e) f hf s h = h

  pub bind-Preserves :
      (m : Exec S A) (f : A → Exec S B)
      → Preserves P m
      → ((a : A) → Preserves P (f a))
      → Preserves P (m >>= f)
  unfolding ◌>>=◌
  bind-Preserves m f hm hf = record {
    apply = λ s h. continue-Preserves (m s).0 f hf (m s).1 (hm.apply s h);
  }

-- When an action leads from one property of the object to another, whether it returns or raises.
pub record Leads {ℓ κ μ ν} {S : Type ℓ} {A : Type κ} (Q : S → Type μ) (P : S → Type ν)
    (m : Exec S A) : Type (ℓ ⊔ μ ⊔ ν) where
  pub apply : (s : S) → Q s → P (m s).1

module _ {ℓ κ μ ν} {S : Type ℓ} {A : Type κ} {Q : S → Type μ} {P : S → Type ν}
    (stronger : (s : S) → Q s → P s) where
  pub lead_weaken : {m : Exec S A} → Preserves P m → Leads Q P m
  lead_weaken kept = record { apply = λ s h. kept.apply s (stronger s h) }

module _ {ℓ κ ν μ} {S : Type ℓ} {A : Type κ} {B : Type ν} {Q P : S → Type μ} where
  -- the first action leads there, and the others keep it
  pub lead_first :
      (m : Exec S A) (f : A → Exec S B)
      → Leads Q P m
      → ((a : A) → Preserves P (f a))
      → Leads Q P (m >>= f)
  unfolding ◌>>=◌
  lead_first m f hm hf = record {
    apply = λ s h. continue-Preserves (m s).0 f hf (m s).1 (hm.apply s h);
  }

  continue-Leads :
      ((s : S) → Q s → P s)
      → (r : Result A) (f : A → Exec S B) → ((a : A) → Leads Q P (f a))
      → (s : S) → Q s
      → P (continue r f s).1
  continue-Leads stronger (ok a) f hf s h = (hf a).apply s h
  continue-Leads stronger (err e) f hf s h = stronger s h

  -- the first action keeps the one, and the others lead to the other
  pub lead_after :
      ((s : S) → Q s → P s)
      → (m : Exec S A) (f : A → Exec S B) → Preserves Q m
      → ((a : A) → Leads Q P (f a))
      → Leads Q P (m >>= f)
  unfolding ◌>>=◌
  lead_after stronger m f hm hf = record {
    apply = λ s h. continue-Leads stronger (m s).0 f hf (m s).1 (hm.apply s h);
  }

module _ {ℓ κ ν μ} {S : Type ℓ} {A : Type κ} {B : Type ν} {Q M P : S → Type μ} where
  -- by way of a property in the middle
  pub lead_through :
      ((s : S) → M s → P s)
      → (m : Exec S A) (f : A → Exec S B) → Leads Q M m
      → ((a : A) → Leads M P (f a))
      → Leads Q P (m >>= f)
  unfolding ◌>>=◌
  lead_through stronger m f hm hf = record {
    apply = λ s h. continue-Leads stronger (m s).0 f hf (m s).1 (hm.apply s h);
  }

pub ruleset preserves_rules = (
  pure-Preserves, raise-Preserves, lift-Preserves, asks-Preserves, gets-Preserves, if-Preserves,
  raise_if-Preserves, bind-Preserves,
)
