-- ===== src/Watchdog/Bounds/Recovering.antt =====
-- The bound on recovery attempts: recovery keeps it, and so does any sequence of public calls.
use agent_gear.Common.{ℕ, String, not, ◌||◌, Option, none, some, List, arith, Bool-cases, inl, inr}
use agent_gear.Errors.{Result, ok, err}
use agent_gear.Errors.Exec.{Exec, modify, pure, ◌>>=◌, ◌>>◌}
use agent_gear.Errors.Preserves.{
  Preserves, preserves_rules, Leads, lead_weaken, lead_first, lead_after,
}
use agent_gear.Floats.{Float}
use agent_gear.Models.{ExecutionState, RecoveryResult, RecoveryEpisodeOutcome}
use agent_gear.Models.Messages.{Message}
use agent_gear.Models.Records.{RecoveryAttempt}
use agent_gear.Budget.{Ledger, BudgetReservation}
use agent_gear.Stall.{StallVerdict}
use agent_gear.Recovery.{
  exceeded, can_start_recovery_attempt, record_no_progress_cycle, guard_progress,
  start_new_recovery_episode,
}
use agent_gear.Watchdog.State.{Watchdog, on_budget}
use agent_gear.Watchdog.Episodes.{
  open_new_recovery_episode, close_recovery_episode, close_opened, transition_to_blocked,
}
use agent_gear.Watchdog.Recovering.{
  enter_stall, evaluate_core, give_up, after_reserve, try_reserve, after_strategy, admit_recovery,
  begin_recovery_core, recover, fail_recovery, resolve_attempt, record_recovery_result_core,
}
use agent_gear.Watchdog.Api.{Event, run}
use agent_gear.Watchdog.Frame.Kept.{IsKept}
use agent_gear.Watchdog.Frame.Runs.{run-Preserves}
use agent_gear.Watchdog.Bounds.Attempts.{
  HasRoom, room-IsBounded, set_last-IsBounded, begin_attempt-Leads,
}
use agent_gear.Watchdog.Bounds.{
  IsBounded, bounded_rules, start_core-IsBounded, advance_core-IsBounded,
  record_activity_core-IsBounded, record_progress_core-IsBounded, record_escalation_core-IsBounded,
  checkpoint_of-IsBounded, keep_checkpoint-IsBounded, complete_core-IsBounded,
}

close_opened-IsBounded :
    (outcome : RecoveryEpisodeOutcome) (at : ℕ) (opened : Option ℕ)
    → Preserves IsBounded (close_opened outcome at opened)
close_opened-IsBounded outcome at none = search (preserves_rules)
close_opened-IsBounded outcome at (some o) = search (preserves_rules, bounded_rules) depth 20

close_recovery_episode-IsBounded :
    (outcome : RecoveryEpisodeOutcome) (at : ℕ)
    → Preserves IsBounded (close_recovery_episode outcome at)
unfolding close_recovery_episode
close_recovery_episode-IsBounded outcome at = record {
  apply = λ c h. (close_opened-IsBounded outcome at c.episode_opened_at).apply c h;
}

transition_to_blocked-IsBounded :
    (at : ℕ) (blocker root_cause : Message)
    → Preserves IsBounded (transition_to_blocked at blocker root_cause)
unfolding transition_to_blocked
transition_to_blocked-IsBounded at blocker root_cause =
    search (preserves_rules, bounded_rules, close_recovery_episode-IsBounded) depth 20

open_episode-IsBounded :
    (at : ℕ) (reason : Message) → Preserves IsBounded (modify (open_new_recovery_episode at reason))
unfolding modify open_new_recovery_episode start_new_recovery_episode
open_episode-IsBounded at reason = record { apply = λ c h. (omega arith, omega arith) }

enter_stall-IsBounded :
    (t : ℕ) (verdict : StallVerdict) → Preserves IsBounded (enter_stall t verdict)
unfolding enter_stall record_no_progress_cycle
enter_stall-IsBounded t verdict =
    search (preserves_rules, bounded_rules, open_episode-IsBounded) depth 20

evaluate_core-IsBounded : (at : Float) → Preserves IsBounded (evaluate_core at)
unfolding evaluate_core
evaluate_core-IsBounded at = search (preserves_rules, bounded_rules, enter_stall-IsBounded) depth 20

give_up-IsBounded :
    (t : ℕ) (reason : String) (blocker root_cause : Message)
    → Preserves IsBounded (give_up t reason blocker root_cause)
unfolding give_up
give_up-IsBounded t reason blocker root_cause =
    search (preserves_rules, bounded_rules, transition_to_blocked-IsBounded) depth 20

recover-IsBounded :
    (t : ℕ) (resume_state : ExecutionState) (description : Message)
    → Preserves IsBounded (recover t resume_state description)
unfolding recover guard_progress
recover-IsBounded t resume_state description =
    search (preserves_rules, bounded_rules, close_recovery_episode-IsBounded) depth 20

fail_recovery-IsBounded :
    (t : ℕ) (strategy : String) (evidence : Option String)
    → Preserves IsBounded (fail_recovery t strategy evidence)
unfolding fail_recovery
fail_recovery-IsBounded t strategy evidence =
    search (preserves_rules, bounded_rules, transition_to_blocked-IsBounded) depth 20

resolve_attempt-IsBounded :
    (t : ℕ) (result : RecoveryResult) (resume_state : ExecutionState) (evidence : Option String)
    (last : Option RecoveryAttempt)
    → Preserves IsBounded (resolve_attempt t result resume_state evidence last)
resolve_attempt-IsBounded t result resume_state evidence none = search (preserves_rules)
resolve_attempt-IsBounded t result resume_state evidence (some last) =
    search
      (
        preserves_rules, bounded_rules, set_last-IsBounded, recover-IsBounded,
        fail_recovery-IsBounded,
      )
      depth 20

record_recovery_result_core-IsBounded :
    (at : Float) (result : RecoveryResult) (resume_state : ExecutionState)
    (evidence : Option String)
    → Preserves IsBounded (record_recovery_result_core at result resume_state evidence)
unfolding record_recovery_result_core
record_recovery_result_core-IsBounded at result resume_state evidence =
    search (preserves_rules, bounded_rules, resolve_attempt-IsBounded) depth 20

room_kept {ℓ} : {A : Type ℓ} (m : Exec Ledger A) → Preserves HasRoom (on_budget m)
unfolding on_budget
room_kept m = record { apply = λ c h. h }

after_reserve-Leads :
    (t : ℕ) (reason strategy : String) (number : ℕ) (r : Result BudgetReservation)
    → Leads HasRoom IsBounded (after_reserve t reason strategy number r)
after_reserve-Leads t reason strategy number (ok r) =
    lead_after room-IsBounded _ _ (room_kept _) (λ u.
      lead_first _ _ (begin_attempt-Leads t reason strategy number) (λ a. search (preserves_rules)))
after_reserve-Leads t reason strategy number (err e) =
    lead_weaken room-IsBounded (search (preserves_rules, give_up-IsBounded) depth 20)

try_reserve-room : (strategy : String) → Preserves HasRoom (try_reserve strategy)
try_reserve-room strategy = record { apply = λ c h. (room_kept _).apply c h }

after_strategy-Leads :
    (t : ℕ) (reason : String) (number : ℕ) (r : Result String)
    → Leads HasRoom IsBounded (after_strategy t reason number r)
after_strategy-Leads t reason number (ok strategy) =
    lead_after room-IsBounded _ _ (try_reserve-room strategy)
      (λ answer. after_reserve-Leads t reason strategy number answer)
after_strategy-Leads t reason number (err e) =
    lead_weaken room-IsBounded (search (preserves_rules, give_up-IsBounded) depth 20)

refusal-IsBounded :
    (t : ℕ) (reason : String) (blocker root_cause : Message)
    → Preserves IsBounded
        (give_up t reason blocker root_cause >> pure {A = Option RecoveryAttempt} none)
refusal-IsBounded t reason blocker root_cause = search (preserves_rules, give_up-IsBounded) depth 20

-- The guard admits an attempt only where there is room for it.
admit_recovery-IsBounded : (t : ℕ) (reason : String) → Preserves IsBounded (admit_recovery t reason)
unfolding admit_recovery can_start_recovery_attempt ◌>>=◌
admit_recovery-IsBounded t reason = record {
  apply = λ c h.
      elim (Bool-cases
        ((exceeded c.loop_guard).0 || not (can_start_recovery_attempt c.loop_guard))) [
          | inl e ↦ rw e ((refusal-IsBounded t reason _ _).apply c h)
          | inr e ↦ rw e ((after_strategy-Leads t reason _ _).apply c (ground (arith, e)))
        ];
}

begin_recovery_core-IsBounded :
    (at : Float) (reason : String) → Preserves IsBounded (begin_recovery_core at reason)
unfolding begin_recovery_core
begin_recovery_core-IsBounded at reason =
    search (preserves_rules, bounded_rules, admit_recovery-IsBounded) depth 20

IsBounded-IsKept : IsKept IsBounded
IsBounded-IsKept = record {
  start_keeps = start_core-IsBounded;
  advance_keeps = advance_core-IsBounded;
  record_activity_keeps = record_activity_core-IsBounded;
  record_progress_keeps = record_progress_core-IsBounded;
  record_escalation_keeps = record_escalation_core-IsBounded;
  checkpoint_of_keeps = checkpoint_of-IsBounded;
  keep_checkpoint_keeps = keep_checkpoint-IsBounded;
  complete_keeps = complete_core-IsBounded;
  evaluate_keeps = evaluate_core-IsBounded;
  begin_recovery_keeps = begin_recovery_core-IsBounded;
  record_recovery_result_keeps = record_recovery_result_core-IsBounded;
}

-- No sequence of public calls, those that raise included, makes the attempts that a recovery episode has
-- recorded more than its loop guard has counted, or that count more than the policy allows, if both hold
-- at first: an episode never has more attempts than the policy's bound.
pub attempts-IsBounded :
    {Disk : Type 0} (w : Watchdog Disk) (es : List Event)
    → IsBounded w.core
    → IsBounded (run es w).core
attempts-IsBounded w es h = run-Preserves IsBounded-IsKept es w h
