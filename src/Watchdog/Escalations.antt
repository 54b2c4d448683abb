-- ===== src/Watchdog/Escalations.antt =====
-- The bound on model escalations, where the watchdog escalates.
pub mod Runs
use agent_gear.Common.{
  ℕ, ◌+◌, ◌<◌, ◌≤◌, ◌≡◌, refl, String, Bool, true, false, Option, none, some, List, ℤ, arith, pos,
  if◌then◌else◌, insert, lookup-insert_self, Option-cases, Bool-cases, inl, inr, leb,
}
use agent_gear.Errors.{Error, Result, ok, err}
use agent_gear.Errors.Exec.{Exec, modify, pure, asks, gets, continue, ◌>>=◌, ◌>>◌}
use agent_gear.Errors.Preserves.{
  Preserves, preserves_rules, Leads, lead_weaken, lead_first, lead_after, bind-Preserves,
  gets-Preserves,
}
use agent_gear.Floats.{Float, require_non_negative_int, require_positive_int}
use agent_gear.Config.{Policy}
use agent_gear.Models.{
  ModelTier, ReasoningEffort, ExecutionState, ProgressSignalKind, RecoveryResult,
  RecoveryEpisodeOutcome,
}
use agent_gear.Models.Messages.{Message}
use agent_gear.Models.Records.{Checkpoint, RecoveryAttempt}
use agent_gear.Budget.{
  Ledger, BudgetReservation, ReservationKind, escalation, committed, reserve, commit, affordable,
  next_reservation, with_reservation, replace_state,
}
use agent_gear.Budget.Laws.{reserve_lem, resolve_reserved}
use agent_gear.Budget.Kinds.{
  count_kind, count_kind-insert, count_kind-replace, count_kind-reserve, count_kind-commit,
}
use agent_gear.StateMachine.{StateMachine}
use agent_gear.Progress.{ProgressTracker}
use agent_gear.Stall.{StallVerdict}
use agent_gear.Escalation.{
  EscalationDecision, EscalationSignals, decide_escalation, triggering_reason, decide_step,
  estimate_cost,
}
use agent_gear.Watchdog.State.{
  Core, Watchdog, on_machine, on_budget, on_progress, checked_time, checked_active, commit_time,
}
use agent_gear.Watchdog.Episodes.{
  open_new_recovery_episode, close_recovery_episode, close_opened, transition_to_blocked,
}
use agent_gear.Watchdog.Work.{
  charge_initial, start_core, advance_core, record_activity_core, record_progress_core,
  record_escalation_core, apply_escalation, checkpoint_of, keep_checkpoint, complete_core,
}
use agent_gear.Watchdog.Recovering.{
  enter_stall, evaluate_core, give_up, begin_attempt, after_reserve, try_reserve, after_strategy,
  admit_recovery, begin_recovery_core, recover, fail_recovery, resolve_attempt,
  record_recovery_result_core,
}
use agent_gear.Watchdog.Api.{Event, run}
use agent_gear.Watchdog.Frame.Kept.{IsKept}
use agent_gear.Watchdog.Frame.Runs.{run-Preserves}

-- A decision that escalates was asked for below the bound.
decide_escalation-room :
    (tier : ModelTier) (reasoning : ReasoningEffort) (used : ℕ) (signals : EscalationSignals)
    (policy : Policy) (tokens : ℕ) (ledger : Option Ledger) (d : EscalationDecision)
    → decide_escalation tier reasoning (pos used) signals policy (pos tokens) ledger ≡ ok d
    → d.should_escalate ≡ true
    → used < policy.watchdog.max_model_escalations
unfolding decide_escalation require_non_negative_int require_positive_int
decide_escalation-room tier reasoning used signals policy tokens ledger d h e = ground arith

abbrev is_escalation : ReservationKind → Bool
is_escalation escalation = true
is_escalation _ = false

-- The escalations that the ledger was charged for.
unfoldable pub charged : Ledger → ℕ
unfolding count_kind
charged l = count_kind is_escalation l.reservations

-- The watchdog has counted every escalation that it charged, and its count is within the bound of the
-- policy.
abbrev pub IsFrugal : Core → Type 0
IsFrugal c =
    (charged c.budget ≤ c.escalations_used)
    × (c.escalations_used ≤ c.policy.watchdog.max_model_escalations)

-- One more would be, too.
abbrev CanEscalate : Core → Type 0
CanEscalate c =
    (charged c.budget ≤ c.escalations_used)
    × (c.escalations_used < c.policy.watchdog.max_model_escalations)

pub machine-IsFrugal {ℓ} :
    {A : Type ℓ} (m : Exec StateMachine A) → Preserves IsFrugal (on_machine m)
unfolding on_machine
machine-IsFrugal m = record { apply = λ c h. h }

-- A reservation of another kind.
pub reserve-IsFrugal :
    (kind : ReservationKind) (tokens : ℤ) (cost : Float) (label : String)
    → is_escalation kind ≡ false
    → Preserves IsFrugal (on_budget (reserve kind tokens cost label))
unfolding on_budget charged
reserve-IsFrugal kind tokens cost label other = record {
  apply = λ c h. (
    count_kind-reserve is_escalation kind tokens cost label c.budget c.escalations_used other h.0,
    h.1,
  );
}

pub commit-IsFrugal : (id : ℕ) → Preserves IsFrugal (on_budget (commit id))
unfolding on_budget charged
commit-IsFrugal id = record {
  apply = λ c h. (count_kind-commit is_escalation id c.budget c.escalations_used h.0, h.1);
}

pub progress-IsFrugal {ℓ} :
    {A : Type ℓ} (m : Exec ProgressTracker A) → Preserves IsFrugal (on_progress m)
unfolding on_progress
progress-IsFrugal m = record { apply = λ c h. h }

pub time-IsFrugal : (at : Float) → Preserves IsFrugal (checked_time at)
unfolding checked_time
time-IsFrugal at = record { apply = λ c h. h }

pub active-IsFrugal : Preserves IsFrugal checked_active
unfolding checked_active
active-IsFrugal = record { apply = λ c h. h }

pub modify-IsFrugal :
    (f : Core → Core)
    → ((c : Core) → (f c).escalations_used ≡ c.escalations_used)
    → ((c : Core) → (f c).policy ≡ c.policy)
    → ((c : Core) → (f c).budget ≡ c.budget)
    → Preserves IsFrugal (modify f)
unfolding modify
modify-IsFrugal f same_used same_policy same_budget = record {
  apply = λ c h. rw (same_used c, same_policy c, same_budget c) h;
}

pub commit_time-IsFrugal : (t : ℕ) → Preserves IsFrugal (modify (commit_time t))
unfolding commit_time
commit_time-IsFrugal t = modify-IsFrugal _ (λ c. refl) (λ c. refl) (λ c. refl)

pub ruleset frugal_rules = (
  machine-IsFrugal, reserve-IsFrugal, commit-IsFrugal, progress-IsFrugal, time-IsFrugal,
  active-IsFrugal, modify-IsFrugal, commit_time-IsFrugal,
)

can-IsFrugal : (c : Core) → CanEscalate c → IsFrugal c
can-IsFrugal c h = (h.0, omega (arith, h.1))

-- The charge of one escalation.
charged-once :
    (t cost : ℕ) (label : String) (l : Ledger)
    → let r = next_reservation l escalation t cost label in
      charged (replace_state r.reservation_id r committed (with_reservation r l)) ≤ charged l + 1
unfolding charged replace_state
charged-once t cost label l =
    let r = next_reservation l escalation t cost label in
    let d = insert l.id_counter r l.reservations in
    omega (
      arith,
      count_kind-insert is_escalation l.id_counter r l.reservations,
      count_kind-replace is_escalation l.id_counter (record r { state = committed }) r d
          (lookup-insert_self l.id_counter r l.reservations) refl,
    )

-- Applying a decision charges one escalation and counts it, or does neither.
apply_escalation-Leads :
    (d : EscalationDecision) (tier : Option ModelTier) (reasoning : Option ReasoningEffort)
    → Leads CanEscalate IsFrugal (apply_escalation d tier reasoning)
unfolding modify on_budget commit gets ◌>>=◌
apply_escalation-Leads d none reasoning = lead_weaken can-IsFrugal (search (preserves_rules))
apply_escalation-Leads d (some tier) none = lead_weaken can-IsFrugal (search (preserves_rules))
apply_escalation-Leads d (some tier) (some reasoning) = record {
  apply = λ c h.
      let t = c.context_budget_tokens in
      let cost = estimate_cost tier t in
      let r = next_reservation c.budget escalation t cost d.reason in
      elim (Bool-cases (affordable c.budget t cost)) [
        | inl e ↦
            rw
              (
                reserve_lem escalation t cost d.reason c.budget,
                e,
                resolve_reserved committed c.budget.id_counter (with_reservation r c.budget) r
                    (lookup-insert_self c.budget.id_counter r c.budget.reservations) refl,
              )
              (omega (arith, h.0, charged-once t cost d.reason c.budget), omega (arith, h.1))
        | inr e ↦ rw (reserve_lem escalation t cost d.reason c.budget, e) (can-IsFrugal c h)
      ];
}

-- What follows a value that was computed from the state may use that it was.
asked-Preserves {ℓ κ} :
    {A : Type ℓ} {B : Type κ} (f : Core → Result A) (k : A → Exec Core B)
    → ((a : A) → Leads (λ c. IsFrugal c × (f c ≡ ok a)) IsFrugal (k a))
    → Preserves IsFrugal (asks f >>= k)
unfolding ◌>>=◌ asks
asked-Preserves {A = A} f k hk = record { apply = λ c h. by_answer c h (f c) refl }
  where
    by_answer : (c : Core) → IsFrugal c → (r : Result A) → f c ≡ r → IsFrugal (continue r k c).1
    by_answer c h (ok a) e = (hk a).apply c (h, e)
    by_answer c h (err x) e = h

flagged :
    (d : EscalationDecision) (b : Bool) (Q : Core → Type 0)
    → ((c : Core) → Q c → IsFrugal c)
    → (b ≡ true → (c : Core) → Q c → CanEscalate c)
    → Leads Q IsFrugal (if b then apply_escalation d d.next_tier d.next_reasoning else pure tt)
flagged d true Q weak room = record {
  apply = λ c h. (apply_escalation-Leads d d.next_tier d.next_reasoning).apply c (room refl c h);
}
flagged d false Q weak room = lead_weaken weak (search (preserves_rules))

pub record_escalation_core-IsFrugal :
    (at : Float) (signals : EscalationSignals)
    → Preserves IsFrugal (record_escalation_core at signals)
unfolding record_escalation_core
record_escalation_core-IsFrugal at signals = bind-Preserves _ _ active-IsFrugal (λ u.
    bind-Preserves _ _ (time-IsFrugal at) (λ t. asked-Preserves _ _ (λ d.
      lead_first _ _
        (flagged d d.should_escalate _ (λ c h. h.0)
          (λ e c h. (
            h.0.0,
            decide_escalation-room c.tier c.reasoning c.escalations_used signals c.policy
                c.context_budget_tokens (some c.budget) d h.1 e,
          )))
        (λ v. search (preserves_rules, frugal_rules) depth 20))))
