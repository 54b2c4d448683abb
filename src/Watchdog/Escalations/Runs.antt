-- ===== src/Watchdog/Escalations/Runs.antt =====
-- The bound on model escalations: every other method leaves what it counts, and so any sequence of
-- public calls keeps it.
use agent_gear.Common.{ℕ, refl, String, Bool, Option, none, some, List, ℤ}
use agent_gear.Errors.{Result, ok, err}
use agent_gear.Errors.Exec.{modify}
use agent_gear.Errors.Preserves.{Preserves, preserves_rules}
use agent_gear.Floats.{Float}
use agent_gear.Models.{ExecutionState, ProgressSignalKind, RecoveryResult, RecoveryEpisodeOutcome}
use agent_gear.Models.Messages.{Message}
use agent_gear.Models.Records.{Checkpoint, RecoveryAttempt}
use agent_gear.Budget.{BudgetReservation, recovery}
use agent_gear.Stall.{StallVerdict}
use agent_gear.Watchdog.State.{Watchdog}
use agent_gear.Watchdog.Episodes.{
  open_new_recovery_episode, close_recovery_episode, close_opened, transition_to_blocked,
}
use agent_gear.Watchdog.Work.{
  charge_initial, start_core, advance_core, record_activity_core, record_progress_core,
  checkpoint_of, keep_checkpoint, complete_core,
}
use agent_gear.Watchdog.Recovering.{
  enter_stall, evaluate_core, give_up, begin_attempt, after_reserve, try_reserve, after_strategy,
  admit_recovery, begin_recovery_core, recover, fail_recovery, resolve_attempt,
  record_recovery_result_core,
}
use agent_gear.Watchdog.Api.{Event, run}
use agent_gear.Watchdog.Frame.Kept.{IsKept}
use agent_gear.Watchdog.Frame.Runs.{run-Preserves}
use agent_gear.Watchdog.Escalations.{
  IsFrugal, frugal_rules, reserve-IsFrugal, modify-IsFrugal, record_escalation_core-IsFrugal,
}

charge_initial-IsFrugal :
    (tokens : ℤ) (cost : Float) → Preserves IsFrugal (charge_initial tokens cost)
unfolding charge_initial
charge_initial-IsFrugal tokens cost = search (preserves_rules, frugal_rules) depth 20

start_core-IsFrugal :
    (task : String) (at : Float) (tokens : ℤ) (cost : Float)
    → Preserves IsFrugal (start_core task at tokens cost)
unfolding start_core
start_core-IsFrugal task at tokens cost =
    search (preserves_rules, frugal_rules, charge_initial-IsFrugal) depth 20

advance_core-IsFrugal :
    (target : ExecutionState) (at : Float) (note : Message)
    → Preserves IsFrugal (advance_core target at note)
unfolding advance_core
advance_core-IsFrugal target at note = search (preserves_rules, frugal_rules) depth 20

record_activity_core-IsFrugal :
    (at : Float) (fingerprint : String) (succeeded is_trivial : Bool) (duration : Float)
    (error : Option String)
    → Preserves IsFrugal (record_activity_core at fingerprint succeeded is_trivial duration error)
unfolding record_activity_core
record_activity_core-IsFrugal at fingerprint succeeded is_trivial duration error =
    search (preserves_rules, frugal_rules) depth 20

record_progress_core-IsFrugal :
    (at : Float) (kind : ProgressSignalKind) (description : String)
    → Preserves IsFrugal (record_progress_core at kind description)
unfolding record_progress_core
record_progress_core-IsFrugal at kind description = search (preserves_rules, frugal_rules) depth 20

checkpoint_of-IsFrugal :
    (at : Float) (phase : String) (done left : List String) (last_good_state : Option String)
    → Preserves IsFrugal (checkpoint_of at phase done left last_good_state)
unfolding checkpoint_of
checkpoint_of-IsFrugal at phase done left last_good_state =
    search (preserves_rules, frugal_rules) depth 20

keep_checkpoint-IsFrugal : (cp : Checkpoint) → Preserves IsFrugal (keep_checkpoint cp)
unfolding keep_checkpoint
keep_checkpoint-IsFrugal cp = search (preserves_rules, frugal_rules) depth 20

complete_core-IsFrugal :
    (at : Float) (evidence : List String) → Preserves IsFrugal (complete_core at evidence)
unfolding complete_core
complete_core-IsFrugal at evidence = search (preserves_rules, frugal_rules) depth 20

close_opened-IsFrugal :
    (outcome : RecoveryEpisodeOutcome) (at : ℕ) (opened : Option ℕ)
    → Preserves IsFrugal (close_opened outcome at opened)
close_opened-IsFrugal outcome at none = search (preserves_rules)
close_opened-IsFrugal outcome at (some o) = search (preserves_rules, frugal_rules) depth 20

close_recovery_episode-IsFrugal :
    (outcome : RecoveryEpisodeOutcome) (at : ℕ)
    → Preserves IsFrugal (close_recovery_episode outcome at)
unfolding close_recovery_episode
close_recovery_episode-IsFrugal outcome at = record {
  apply = λ c h. (close_opened-IsFrugal outcome at c.episode_opened_at).apply c h;
}

transition_to_blocked-IsFrugal :
    (at : ℕ) (blocker root_cause : Message)
    → Preserves IsFrugal (transition_to_blocked at blocker root_cause)
unfolding transition_to_blocked
transition_to_blocked-IsFrugal at blocker root_cause =
    search (preserves_rules, frugal_rules, close_recovery_episode-IsFrugal) depth 20

open_episode-IsFrugal :
    (at : ℕ) (reason : Message) → Preserves IsFrugal (modify (open_new_recovery_episode at reason))
unfolding open_new_recovery_episode
open_episode-IsFrugal at reason = modify-IsFrugal _ (λ c. refl) (λ c. refl) (λ c. refl)

enter_stall-IsFrugal : (t : ℕ) (verdict : StallVerdict) → Preserves IsFrugal (enter_stall t verdict)
unfolding enter_stall
enter_stall-IsFrugal t verdict =
    search (preserves_rules, frugal_rules, open_episode-IsFrugal) depth 20

evaluate_core-IsFrugal : (at : Float) → Preserves IsFrugal (evaluate_core at)
unfolding evaluate_core
evaluate_core-IsFrugal at = search (preserves_rules, frugal_rules, enter_stall-IsFrugal) depth 20

give_up-IsFrugal :
    (t : ℕ) (reason : String) (blocker root_cause : Message)
    → Preserves IsFrugal (give_up t reason blocker root_cause)
unfolding give_up
give_up-IsFrugal t reason blocker root_cause =
    search (preserves_rules, frugal_rules, transition_to_blocked-IsFrugal) depth 20

begin_attempt-IsFrugal :
    (t : ℕ) (reason strategy : String) (number : ℕ)
    → Preserves IsFrugal (begin_attempt t reason strategy number)
unfolding begin_attempt
begin_attempt-IsFrugal t reason strategy number = search (preserves_rules, frugal_rules) depth 20

try_reserve-IsFrugal : (strategy : String) → Preserves IsFrugal (try_reserve strategy)
try_reserve-IsFrugal strategy = record {
  apply = λ c h. (reserve-IsFrugal recovery _ _ strategy refl).apply c h;
}

after_reserve-IsFrugal :
    (t : ℕ) (reason strategy : String) (number : ℕ) (r : Result BudgetReservation)
    → Preserves IsFrugal (after_reserve t reason strategy number r)
after_reserve-IsFrugal t reason strategy number (ok r) =
    search (preserves_rules, frugal_rules, begin_attempt-IsFrugal) depth 20
after_reserve-IsFrugal t reason strategy number (err e) =
    search (preserves_rules, give_up-IsFrugal) depth 20

after_strategy-IsFrugal :
    (t : ℕ) (reason : String) (number : ℕ) (r : Result String)
    → Preserves IsFrugal (after_strategy t reason number r)
after_strategy-IsFrugal t reason number (ok strategy) =
    search (preserves_rules, try_reserve-IsFrugal, after_reserve-IsFrugal) depth 20
after_strategy-IsFrugal t reason number (err e) =
    search (preserves_rules, give_up-IsFrugal) depth 20

admit_recovery-IsFrugal : (t : ℕ) (reason : String) → Preserves IsFrugal (admit_recovery t reason)
unfolding admit_recovery
admit_recovery-IsFrugal t reason =
    search (preserves_rules, frugal_rules, give_up-IsFrugal, after_strategy-IsFrugal) depth 20

begin_recovery_core-IsFrugal :
    (at : Float) (reason : String) → Preserves IsFrugal (begin_recovery_core at reason)
unfolding begin_recovery_core
begin_recovery_core-IsFrugal at reason =
    search (preserves_rules, frugal_rules, admit_recovery-IsFrugal) depth 20

recover-IsFrugal :
    (t : ℕ) (resume_state : ExecutionState) (description : Message)
    → Preserves IsFrugal (recover t resume_state description)
unfolding recover
recover-IsFrugal t resume_state description =
    search (preserves_rules, frugal_rules, close_recovery_episode-IsFrugal) depth 20

fail_recovery-IsFrugal :
    (t : ℕ) (strategy : String) (evidence : Option String)
    → Preserves IsFrugal (fail_recovery t strategy evidence)
unfolding fail_recovery
fail_recovery-IsFrugal t strategy evidence =
    search (preserves_rules, frugal_rules, transition_to_blocked-IsFrugal) depth 20

resolve_attempt-IsFrugal :
    (t : ℕ) (result : RecoveryResult) (resume_state : ExecutionState) (evidence : Option String)
    (last : Option RecoveryAttempt)
    → Preserves IsFrugal (resolve_attempt t result resume_state evidence last)
resolve_attempt-IsFrugal t result resume_state evidence none = search (preserves_rules)
resolve_attempt-IsFrugal t result resume_state evidence (some last) =
    search (preserves_rules, frugal_rules, recover-IsFrugal, fail_recovery-IsFrugal) depth 20

record_recovery_result_core-IsFrugal :
    (at : Float) (result : RecoveryResult) (resume_state : ExecutionState)
    (evidence : Option String)
    → Preserves IsFrugal (record_recovery_result_core at result resume_state evidence)
unfolding record_recovery_result_core
record_recovery_result_core-IsFrugal at result resume_state evidence =
    search (preserves_rules, frugal_rules, resolve_attempt-IsFrugal) depth 20

IsFrugal-IsKept : IsKept IsFrugal
IsFrugal-IsKept = record {
  start_keeps = start_core-IsFrugal;
  advance_keeps = advance_core-IsFrugal;
  record_activity_keeps = record_activity_core-IsFrugal;
  record_progress_keeps = record_progress_core-IsFrugal;
  record_escalation_keeps = record_escalation_core-IsFrugal;
  checkpoint_of_keeps = checkpoint_of-IsFrugal;
  keep_checkpoint_keeps = keep_checkpoint-IsFrugal;
  complete_keeps = complete_core-IsFrugal;
  evaluate_keeps = evaluate_core-IsFrugal;
  begin_recovery_keeps = begin_recovery_core-IsFrugal;
  record_recovery_result_keeps = record_recovery_result_core-IsFrugal;
}

-- No sequence of public calls, those that raise included, charges the ledger for more escalations than
-- the watchdog has counted, or makes that count more than the policy allows, if both hold at first: an
-- execution is never escalated, and charged for it, more often than the policy's bound.
pub run-IsFrugal :
    {Disk : Type 0} (w : Watchdog Disk) (es : List Event)
    → IsFrugal w.core
    → IsFrugal (run es w).core
run-IsFrugal w es h = run-Preserves IsFrugal-IsKept es w h
