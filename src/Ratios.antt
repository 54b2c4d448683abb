-- ===== src/Ratios.antt =====
-- Scores and thresholds: exact fractions that are not negative, in place of the floats of the sources,
-- whose rounding is not modelled.
use native.Mathlib.Decide.{dec_lt}
use native.Mathlib.Nat.{mul-le-mul_right}
use agent_gear.Common.{
  ℕ, suc, ◌+◌, ◌-◌, ◌*◌, ◌/◌, ◌≤◌, ◌<◌, Bool, arith, leb, leb→le, le→leb, if◌then◌else◌, Bool-cases,
  inl, inr,
}

-- `num / (rest + 1)`
pub record Ratio : Type 0 where
  pub num : ℕ
  pub rest : ℕ

abbrev pub den : Ratio → ℕ
den r = suc r.rest

-- `n / d`, where the caller shows that it does not divide by zero.
abbrev pub fraction : (n d : ℕ) → 0 < d → Ratio
fraction n d h = record { num = n; rest = d - 1 }

-- A number of millionths, and a count.
abbrev pub millionths : ℕ → Ratio
millionths n = record { num = n; rest = 999999 }

abbrev pub count_of : ℕ → Ratio
count_of n = record { num = n; rest = 0 }

infix 50 ◌≤?◌
abbrev pub ◌≤?◌ : Ratio → Ratio → Bool
a ≤? b = leb (a.num * den b) (b.num * den a)

infix 45 ◌≼◌
abbrev pub ◌≼◌ : Ratio → Ratio → Type 0
a ≼ b = a.num * den b ≤ b.num * den a

infixl 65 ◌⊕◌ ◌⊖◌
infixl 70 ◌⊛◌
unfoldable pub ◌⊕◌ : Ratio → Ratio → Ratio
a ⊕ b = record { num = a.num * den b + b.num * den a; rest = a.rest * b.rest + a.rest + b.rest }

unfoldable pub ◌⊛◌ : Ratio → Ratio → Ratio
a ⊛ b = record { num = a.num * b.num; rest = a.rest * b.rest + a.rest + b.rest }

-- The difference, or zero where that is negative: `max(0.0, a - b)`.
unfoldable pub ◌⊖◌ : Ratio → Ratio → Ratio
a ⊖ b = record { num = a.num * den b - b.num * den a; rest = a.rest * b.rest + a.rest + b.rest }

-- `min(1.0, a)`, all that is left of `max(0.0, min(1.0, a))` for a number that is not negative
unfoldable pub at_most_one : Ratio → Ratio
at_most_one a = if a ≤? count_of 1 then a else count_of 1

-- `int(a)`
unfoldable pub floor : Ratio → ℕ
floor a = a.num / den a

trans_cross :
    (a i b j c k : ℕ) → a * suc j ≤ b * suc i → b * suc k ≤ c * suc j → a * suc k ≤ c * suc i
trans_cross a i b j c k h l = elim (dec_lt (c * suc i) (a * suc k)) [
  | yes over ↦ absurd (
      omega (
        arith,
        mul-le-mul_right (suc j) over,
        mul-le-mul_right (suc k) h,
        mul-le-mul_right (suc i) l,
      ))
  | no within ↦ omega arith
]

pub ≼_trans : (a b c : Ratio) → a ≼ b → b ≼ c → a ≼ c
≼_trans a b c h k = trans_cross a.num a.rest b.num b.rest c.num c.rest h k

pub at_most_one-le : (a : Ratio) → at_most_one a ≼ count_of 1
unfolding at_most_one
at_most_one-le a = ground arith

pub at_most_one_mono : (a b : Ratio) → a ≼ b → at_most_one a ≼ at_most_one b
unfolding at_most_one
at_most_one_mono a b h = elim (Bool-cases (b ≤? count_of 1)) [
  | inl e ↦ rw (e, le→leb _ _ (≼_trans a b (count_of 1) h (leb→le _ _ e))) h
  | inr e ↦ rw e (at_most_one-le a)
]

pub ⊕_mono : (a b c d : Ratio) → a ≼ b → c ≼ d → a ⊕ c ≼ b ⊕ d
unfolding ◌⊕◌
⊕_mono a b c d h k = omega (
  arith,
  mul-le-mul_right (suc c.rest * suc d.rest) h,
  mul-le-mul_right (suc a.rest * suc b.rest) k,
)

pub ⊛_mono : (k a b : Ratio) → a ≼ b → k ⊛ a ≼ k ⊛ b
unfolding ◌⊛◌
⊛_mono k a b h = omega (arith, mul-le-mul_right (k.num * suc k.rest) h)
