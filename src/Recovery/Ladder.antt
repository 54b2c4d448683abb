-- ===== src/Recovery/Ladder.antt =====
-- Which strategy a recovery tries next, and when none is left.
use mathlib.Core.Path.{subst}
use mathlib.Core.Bool.{false≢true}
use agent_gear.Common.{
  is_blank, ap, ◌==◌, ℕ, zero, suc, ◌<◌, ◌≤◌, ◌≡◌, refl, ◌⊎◌, inl, inr, sym, ◌∙◌, true, false,
  String, none, some, List, [], ◌∷◌, ◌++◌, arith, contains, get_last?, Bool-cases, Option-cases,
  All, ltb, le→ltb_false, ltb→lt,
}
use agent_gear.Errors.{Error, Result, ok, err}
use agent_gear.Errors.Checks.{◌>>=◌, chain_ok}
use agent_gear.Config.{WatchdogPolicy}
use agent_gear.Recovery.{next_strategy, first_untried, strategy_ladder, is_last_resort}

-- `before` lists what stands ahead of `s` in the ladder, all of it tried.
pub record IsFirstUntried (tried ladder : List String) (s : String) : Type 0 where
  pub before : List String
  pub behind : List String
  pub split : ladder ≡ before ++ s ∷ behind
  pub all_before : All (λ b. contains b tried ≡ true) before
  pub untried : contains s tried ≡ false

first_untried-IsFirstUntried :
    (tried ladder : List String) (s : String)
    → first_untried tried ladder ≡ some s
    → IsFirstUntried tried ladder s
unfolding first_untried
first_untried-IsFirstUntried tried [] s h = absurd (ground (arith, h))
first_untried-IsFirstUntried tried (x ∷ xs) s h = elim (Bool-cases (contains x tried)) [
  | inl e ↦
      let found = first_untried-IsFirstUntried tried xs s (rw e at h) in
      record {
        before = x ∷ found.before;
        behind = found.behind;
        split = rw found.split;
        all_before = (e, found.all_before);
        untried = found.untried;
      }
  | inr e ↦ record {
    before = [];
    behind = xs;
    split = ground (arith, h, e);
    all_before = tt;
    untried = ground (arith, h, e);
  }
]

first_untried-none :
    (tried ladder : List String)
    → first_untried tried ladder ≡ none
    → All (λ s. contains s tried ≡ true) ladder
unfolding first_untried
first_untried-none tried [] h = tt
first_untried-none tried (x ∷ xs) h = elim (Bool-cases (contains x tried)) [
  | inl e ↦ (e, first_untried-none tried xs (rw e at h))
  | inr e ↦ absurd (ground (arith, h, e))
]

next_strategy-found :
    (p : WatchdogPolicy) (tried : List String) (n : ℕ) (s : String)
    → next_strategy p tried n ≡ ok s
    → (first_untried tried strategy_ladder ≡ some s)
      × (n ≤ p.max_recovery_attempts)
      × (is_last_resort (get_last? tried) ≡ false)
unfolding next_strategy
next_strategy-found p tried n s h = ground arith

ok_path : {a b : List String} → ok a ≡ ok b → a ≡ b
ok_path h = cc

some_path : {a b : String} → some a ≡ some b → a ≡ b
some_path h = cc

-- A strategy that `next_strategy` returns was never tried: it is the first of the ladder that was
-- not, everything ahead of it was tried, the attempt is within the bound, and the last resort was
-- not the strategy tried last.
pub next_strategy-new :
    (p : WatchdogPolicy) (tried : List String) (n : ℕ) (s : String)
    → next_strategy p tried n ≡ ok s
    → IsFirstUntried tried strategy_ladder s
      × (n ≤ p.max_recovery_attempts)
      × (is_last_resort (get_last? tried) ≡ false)
next_strategy-new p tried n s h =
    let found = next_strategy-found p tried n s h in
    (first_untried-IsFirstUntried tried strategy_ladder s found.0, found.1, found.2)

refused_early :
    (p : WatchdogPolicy) (tried : List String) (n : ℕ) (e : Error) (s : String)
    → next_strategy p tried n ≡ err e
    → first_untried tried strategy_ladder ≡ some s
    → (p.max_recovery_attempts < n)
      ⊎ ((is_last_resort (get_last? tried) ≡ true)
          ⊎ All (λ s. contains s tried ≡ true) strategy_ladder)
unfolding next_strategy
refused_early p tried n e s h left = elim (Bool-cases (ltb p.max_recovery_attempts n)) [
  | inl past ↦ inl (ltb→lt _ _ past)
  | inr within ↦ inr (inl (ground arith))
]

first_untried-All :
    (P : String → Type 0) (tried ladder : List String) (s : String)
    → All P ladder
    → first_untried tried ladder ≡ some s
    → P s
unfolding first_untried
first_untried-All P tried [] s all h = absurd (ground (arith, h))
first_untried-All P tried (x ∷ xs) s all h = elim (Bool-cases (contains x tried)) [
  | inl e ↦ first_untried-All P tried xs s all.1 (rw e at h)
  | inr e ↦ subst P (some_path (rw e at h)) all.0
]

-- `next_strategy` raises for one of three reasons only: the attempt is past the bound, the last
-- resort was tried last, or every strategy of the ladder was tried.
pub next_strategy-exhausted :
    (p : WatchdogPolicy) (tried : List String) (n : ℕ) (e : Error)
    → next_strategy p tried n ≡ err e
    → (p.max_recovery_attempts < n)
      ⊎ ((is_last_resort (get_last? tried) ≡ true)
          ⊎ All (λ s. contains s tried ≡ true) strategy_ladder)
next_strategy-exhausted p tried n e h = elim (Option-cases (first_untried tried strategy_ladder)) [
  | inl none_left ↦ inr (inr (first_untried-none tried strategy_ladder none_left))
  | inr (s, left) ↦ refused_early p tried n e s h left
]

-- Every strategy that is returned is a text that is not blank.
pub next_strategy-not_blank :
    (p : WatchdogPolicy) (tried : List String) (n : ℕ) (s : String)
    → next_strategy p tried n ≡ ok s
    → is_blank s ≡ false
unfolding is_blank
next_strategy-not_blank p tried n s h =
    first_untried-All (λ x. is_blank x ≡ false) tried strategy_ladder s
      (refl, (refl, (refl, (refl, (refl, (refl, (refl, (refl, (refl, (refl, tt))))))))))
      (next_strategy-found p tried n s h).0

-- The strategies that an episode has tried after its first `n` attempts, if it has made that many.
pub climb : WatchdogPolicy → ℕ → Result (List String)
climb p zero = ok []
climb p (suc n) = do tried ← climb p n; s ← next_strategy p tried (suc n); ok (tried ++ s ∷ [])

abbrev pub take : ℕ → List String → List String
take zero xs = []
take (suc n) [] = []
take (suc n) (x ∷ xs) = x ∷ take n xs

within_bound :
    (p : WatchdogPolicy) (n : ℕ)
    → n ≤ p.max_recovery_attempts
    → ltb p.max_recovery_attempts n ≡ false
within_bound p n h = le→ltb_false p.max_recovery_attempts n h

-- One more attempt on a part of the ladder tries the rung above it.
rung :
    (p : WatchdogPolicy) (n : ℕ)
    → n < 10
    → suc n ≤ p.max_recovery_attempts
    → (do
      s ← next_strategy p (take n strategy_ladder) (suc n)
      ok (take n strategy_ladder ++ s ∷ []))
      ≡ ok (take (suc n) strategy_ladder)
unfolding next_strategy first_untried contains get_last?
rung p zero small h = rw (within_bound p 1 h)
rung p (suc zero) small h = rw (within_bound p 2 h)
rung p (suc (suc zero)) small h = rw (within_bound p 3 h)
rung p (suc (suc (suc zero))) small h = rw (within_bound p 4 h)
rung p (suc (suc (suc (suc zero)))) small h = rw (within_bound p 5 h)
rung p (suc (suc (suc (suc (suc zero))))) small h = rw (within_bound p 6 h)
rung p (suc (suc (suc (suc (suc (suc zero)))))) small h = rw (within_bound p 7 h)
rung p (suc (suc (suc (suc (suc (suc (suc zero))))))) small h = rw (within_bound p 8 h)
rung p (suc (suc (suc (suc (suc (suc (suc (suc zero)))))))) small h = rw (within_bound p 9 h)
rung p (suc (suc (suc (suc (suc (suc (suc (suc (suc zero))))))))) small h = rw (within_bound p 10 h)
rung p (suc (suc (suc (suc (suc (suc (suc (suc (suc (suc n)))))))))) small h = absurd (omega arith)

-- An episode climbs the ladder from the bottom without skipping or repeating: after `n` attempts, at
-- most ten and within the bound of the policy, it has tried exactly the first `n` strategies, in the
-- order of the ladder.
pub climb-take :
    (p : WatchdogPolicy) (n : ℕ)
    → n ≤ 10
    → n ≤ p.max_recovery_attempts
    → climb p n ≡ ok (take n strategy_ladder)
unfolding climb
climb-take p zero small h = refl
climb-take p (suc n) small h =
    rw (climb-take p n (omega arith) (omega arith)) (rung p n (omega arith) h)

ladder_done : is_last_resort (get_last? strategy_ladder) ≡ true
unfolding get_last?
ladder_done = refl

climb_ten :
    (p : WatchdogPolicy) (n : ℕ) (tried : List String)
    → n ≡ 10
    → n ≤ p.max_recovery_attempts
    → climb p n ≡ ok tried
    → is_last_resort (get_last? tried) ≡ true
climb_ten p n tried ten h c =
    subst (λ t. is_last_resort (get_last? t) ≡ true) (ok_path (sym top ∙ c)) ladder_done
  where
    top : climb p n ≡ ok strategy_ladder
    top = climb-take p n (omega arith) h ∙ ap (λ k. ok (take k strategy_ladder)) ten

is_ten : (n : ℕ) → (n == 10) ≡ true → n ≡ 10
is_ten n h = ground arith

below_ten : (n : ℕ) → n ≤ 10 → (n == 10) ≡ false → suc n ≤ 10
below_ten n h k = ground arith

-- An episode makes at most ten attempts, and at most as many as the policy allows.
pub climb_bounded :
    (p : WatchdogPolicy) (n : ℕ) (tried : List String)
    → climb p n ≡ ok tried
    → (n ≤ 10) × (n ≤ p.max_recovery_attempts)
unfolding climb
climb_bounded p zero tried h = (omega arith, omega arith)
climb_bounded p (suc n) tried h =
    let (before, made, rest) = chain_ok (climb p n) _ _ h in
    let (s, next, _) = chain_ok (next_strategy p before (suc n)) _ _ rest in
    let found = next_strategy-found p before (suc n) s next in
    let lower = climb_bounded p n before made in
    elim (Bool-cases (n == 10)) [
      | inl ten ↦
          absurd (false≢true (sym found.2 ∙ climb_ten p n before (is_ten n ten) lower.1 made))
      | inr other ↦ (below_ten n lower.0 other, found.1)
    ]
