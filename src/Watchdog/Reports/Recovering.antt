-- ===== src/Watchdog/Reports/Recovering.antt =====
-- An execution that is blocked carries its report: the recovery keeps that, which alone blocks one, and
-- so does any sequence of public calls.
use agent_gear.Common.{
  ℕ, ◌≡◌, refl, String, true, false, not, ◌&&◌, Option, none, some, List, arith, Bool-cases, inl,
  inr,
}
use agent_gear.Errors.{Result, ok, err}
use agent_gear.Errors.Exec.{Exec, modify}
use agent_gear.Errors.Preserves.{
  Preserves, preserves_rules, Leads, lead_first, bind-Preserves, asks-Preserves,
}
use agent_gear.Floats.{Float}
use agent_gear.Models.{
  ExecutionState, RecoveryResult, success, failure, pending, RecoveryEpisodeOutcome,
}
use agent_gear.Models.Messages.{Message}
use agent_gear.Models.Records.{RecoveryAttempt}
use agent_gear.Budget.{BudgetReservation}
use agent_gear.StateMachine.{StateMachine}
use agent_gear.Stall.{StallVerdict}
use agent_gear.Watchdog.State.{Core, Watchdog, on_machine, commit_time}
use agent_gear.Watchdog.Episodes.{
  open_new_recovery_episode, close_recovery_episode, close_opened, transition_to_blocked,
}
use agent_gear.Watchdog.Work.{is_some}
use agent_gear.Watchdog.Recovering.{
  is_success, can_resume, enter_stall, evaluate_core, give_up, begin_attempt, after_reserve,
  try_reserve, after_strategy, admit_recovery, begin_recovery_core, recover, fail_recovery,
  resolve_attempt, record_recovery_result_core,
}
use agent_gear.Watchdog.Api.{Event, run}
use agent_gear.Watchdog.Frame.Kept.{IsKept}
use agent_gear.Watchdog.Frame.Runs.{run-Preserves}
use agent_gear.Watchdog.Reports.{
  is_blocked, IsReported, reported_rules, budget-IsReported, time-IsReported, modify-IsReported,
  raised-IsReported, start_core-IsReported, advance_core-IsReported,
  record_activity_core-IsReported, record_progress_core-IsReported,
  record_escalation_core-IsReported, checkpoint_of-IsReported, keep_checkpoint-IsReported,
  complete_core-IsReported,
}

abbrev HasReport : Core → Type 0
HasReport c = is_some c.blocked_report ≡ true

close_opened-IsReported :
    (outcome : RecoveryEpisodeOutcome) (at : ℕ) (opened : Option ℕ)
    → Preserves IsReported (close_opened outcome at opened)
close_opened-IsReported outcome at none = search (preserves_rules)
close_opened-IsReported outcome at (some o) = search (preserves_rules, reported_rules) depth 20

close_recovery_episode-IsReported :
    (outcome : RecoveryEpisodeOutcome) (at : ℕ)
    → Preserves IsReported (close_recovery_episode outcome at)
unfolding close_recovery_episode
close_recovery_episode-IsReported outcome at = record {
  apply = λ c h. (close_opened-IsReported outcome at c.episode_opened_at).apply c h;
}

report-IsReported : (c : Core) → HasReport c → IsReported c
report-IsReported c h = inr h

machine-HasReport {ℓ} : {A : Type ℓ} (m : Exec StateMachine A) → Preserves HasReport (on_machine m)
unfolding on_machine
machine-HasReport m = record { apply = λ c h. h }

modify-HasReport :
    (f : Core → Core)
    → ((c : Core) → (f c).blocked_report ≡ c.blocked_report)
    → Preserves HasReport (modify f)
unfolding modify
modify-HasReport f same = record { apply = λ c h. rw (same c) h }

-- With a report there, closing the episode, the transition and the rest keep it.
close_opened-HasReport :
    (outcome : RecoveryEpisodeOutcome) (at : ℕ) (opened : Option ℕ)
    → Preserves HasReport (close_opened outcome at opened)
close_opened-HasReport outcome at none = search (preserves_rules)
close_opened-HasReport outcome at (some o) = search (preserves_rules, modify-HasReport) depth 20

close_recovery_episode-HasReport :
    (outcome : RecoveryEpisodeOutcome) (at : ℕ)
    → Preserves HasReport (close_recovery_episode outcome at)
unfolding close_recovery_episode
close_recovery_episode-HasReport outcome at = record {
  apply = λ c h. (close_opened-HasReport outcome at c.episode_opened_at).apply c h;
}

-- Once the report is set, it stays to the end of the way to BLOCKED.
ends-IsReported {ℓ} :
    {A : Type ℓ} {m : Exec Core A} → Leads IsReported HasReport m → Preserves IsReported m
ends-IsReported led = record { apply = λ c h. inr (led.apply c h) }

transition_to_blocked-IsReported :
    (at : ℕ) (blocker root_cause : Message)
    → Preserves IsReported (transition_to_blocked at blocker root_cause)
unfolding transition_to_blocked modify commit_time
transition_to_blocked-IsReported at blocker root_cause =
    bind-Preserves _ _ (asks-Preserves _) (λ report. ends-IsReported (
      lead_first _ _ (record { apply = λ c h. refl })
        (λ u.
          search
            (preserves_rules, machine-HasReport, modify-HasReport, close_recovery_episode-HasReport)
            depth 20)))

open_episode-IsReported :
    (at : ℕ) (reason : Message)
    → Preserves IsReported (modify (open_new_recovery_episode at reason))
unfolding open_new_recovery_episode
open_episode-IsReported at reason = modify-IsReported _ (λ c. refl) (λ c. refl)

enter_stall-IsReported :
    (t : ℕ) (verdict : StallVerdict) → Preserves IsReported (enter_stall t verdict)
unfolding enter_stall
enter_stall-IsReported t verdict =
    search (preserves_rules, reported_rules, open_episode-IsReported) depth 20

evaluate_core-IsReported : (at : Float) → Preserves IsReported (evaluate_core at)
unfolding evaluate_core
evaluate_core-IsReported at =
    search (preserves_rules, reported_rules, enter_stall-IsReported) depth 20

give_up-IsReported :
    (t : ℕ) (reason : String) (blocker root_cause : Message)
    → Preserves IsReported (give_up t reason blocker root_cause)
unfolding give_up
give_up-IsReported t reason blocker root_cause =
    search (preserves_rules, reported_rules, transition_to_blocked-IsReported) depth 20

begin_attempt-IsReported :
    (t : ℕ) (reason strategy : String) (number : ℕ)
    → Preserves IsReported (begin_attempt t reason strategy number)
unfolding begin_attempt
begin_attempt-IsReported t reason strategy number =
    search (preserves_rules, reported_rules) depth 20

try_reserve-IsReported : (strategy : String) → Preserves IsReported (try_reserve strategy)
try_reserve-IsReported strategy = record { apply = λ c h. (budget-IsReported _).apply c h }

after_reserve-IsReported :
    (t : ℕ) (reason strategy : String) (number : ℕ) (r : Result BudgetReservation)
    → Preserves IsReported (after_reserve t reason strategy number r)
after_reserve-IsReported t reason strategy number (ok r) =
    search (preserves_rules, reported_rules, begin_attempt-IsReported) depth 20
after_reserve-IsReported t reason strategy number (err e) =
    search (preserves_rules, give_up-IsReported) depth 20

after_strategy-IsReported :
    (t : ℕ) (reason : String) (number : ℕ) (r : Result String)
    → Preserves IsReported (after_strategy t reason number r)
after_strategy-IsReported t reason number (ok strategy) =
    search (preserves_rules, try_reserve-IsReported, after_reserve-IsReported) depth 20
after_strategy-IsReported t reason number (err e) =
    search (preserves_rules, give_up-IsReported) depth 20

admit_recovery-IsReported :
    (t : ℕ) (reason : String) → Preserves IsReported (admit_recovery t reason)
unfolding admit_recovery
admit_recovery-IsReported t reason =
    search (preserves_rules, reported_rules, give_up-IsReported, after_strategy-IsReported) depth 20

begin_recovery_core-IsReported :
    (at : Float) (reason : String) → Preserves IsReported (begin_recovery_core at reason)
unfolding begin_recovery_core
begin_recovery_core-IsReported at reason =
    search (preserves_rules, reported_rules, admit_recovery-IsReported) depth 20

recover-IsReported :
    (t : ℕ) (resume_state : ExecutionState) (description : Message)
    → is_blocked resume_state ≡ false
    → Preserves IsReported (recover t resume_state description)
unfolding recover
recover-IsReported t resume_state description fine =
    search (preserves_rules, reported_rules, close_recovery_episode-IsReported, fine) depth 20

fail_recovery-IsReported :
    (t : ℕ) (strategy : String) (evidence : Option String)
    → Preserves IsReported (fail_recovery t strategy evidence)
unfolding fail_recovery
fail_recovery-IsReported t strategy evidence =
    search (preserves_rules, reported_rules, transition_to_blocked-IsReported) depth 20

resolve_attempt-IsReported :
    (t : ℕ) (result : RecoveryResult) (resume_state : ExecutionState) (evidence : Option String)
    (last : Option RecoveryAttempt)
    → (is_success result && not (can_resume resume_state)) ≡ false
    → Preserves IsReported (resolve_attempt t result resume_state evidence last)
resolve_attempt-IsReported t result resume_state evidence none h = search (preserves_rules)
resolve_attempt-IsReported t success resume_state evidence (some last) h =
    let fine : is_blocked resume_state ≡ false = ground (arith, h) in
    search (preserves_rules, reported_rules, recover-IsReported, fine) depth 20
resolve_attempt-IsReported t failure resume_state evidence (some last) h =
    search (preserves_rules, reported_rules, fail_recovery-IsReported) depth 20
resolve_attempt-IsReported t pending resume_state evidence (some last) h =
    search (preserves_rules, reported_rules, fail_recovery-IsReported) depth 20

record_recovery_result_core-IsReported :
    (at : Float) (result : RecoveryResult) (resume_state : ExecutionState)
    (evidence : Option String)
    → Preserves IsReported (record_recovery_result_core at result resume_state evidence)
unfolding record_recovery_result_core
record_recovery_result_core-IsReported at result resume_state evidence =
    elim (Bool-cases (is_success result && not (can_resume resume_state))) [
      | inl e ↦ rw e (search (preserves_rules, time-IsReported, raised-IsReported) depth 20)
      | inr e ↦ search (preserves_rules, time-IsReported, resolve_attempt-IsReported, e) depth 20
    ]

IsReported-IsKept : IsKept IsReported
IsReported-IsKept = record {
  start_keeps = start_core-IsReported;
  advance_keeps = advance_core-IsReported;
  record_activity_keeps = record_activity_core-IsReported;
  record_progress_keeps = record_progress_core-IsReported;
  record_escalation_keeps = record_escalation_core-IsReported;
  checkpoint_of_keeps = checkpoint_of-IsReported;
  keep_checkpoint_keeps = keep_checkpoint-IsReported;
  complete_keeps = complete_core-IsReported;
  evaluate_keeps = evaluate_core-IsReported;
  begin_recovery_keeps = begin_recovery_core-IsReported;
  record_recovery_result_keeps = record_recovery_result_core-IsReported;
}

-- After any public calls, those that raise included, an execution that is BLOCKED carries a report,
-- if it was not BLOCKED, or had a report, before them.
pub run-IsReported :
    {Disk : Type 0} (w : Watchdog Disk) (es : List Event)
    → IsReported w.core
    → IsReported (run es w).core
run-IsReported w es h = run-Preserves IsReported-IsKept es w h
