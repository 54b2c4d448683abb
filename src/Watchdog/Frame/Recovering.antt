-- ===== src/Watchdog/Frame/Recovering.antt =====
-- Every method of the recovery keeps the framed properties too.
use agent_gear.Common.{ℕ, String, refl, Option, none, some}
use agent_gear.Errors.{Result, ok, err}
use agent_gear.Errors.Exec.{modify}
use agent_gear.Errors.Preserves.{Preserves, preserves_rules}
use agent_gear.Floats.{Float}
use agent_gear.Models.{ExecutionState, RecoveryEpisodeOutcome, RecoveryResult}
use agent_gear.Models.Messages.{Message}
use agent_gear.Models.Records.{RecoveryAttempt}
use agent_gear.Budget.{BudgetReservation}
use agent_gear.Stall.{StallVerdict}
use agent_gear.Watchdog.State.{Core}
use agent_gear.Watchdog.Episodes.{
  open_new_recovery_episode, close_recovery_episode, close_opened, transition_to_blocked,
}
use agent_gear.Watchdog.Recovering.{
  enter_stall, evaluate_core, give_up, begin_attempt, after_reserve, try_reserve, after_strategy,
  admit_recovery, begin_recovery_core, recover, fail_recovery, resolve_attempt,
  record_recovery_result_core,
}
use agent_gear.Watchdog.Frame.{
  IsFramed, modify-Preserves, progress-Preserves, checked_time-Preserves, commit_time-Preserves,
}

module _ {P : Core → Type 0} (framed : IsFramed P) where
  close_opened-Preserves :
      (outcome : RecoveryEpisodeOutcome) (at : ℕ) (opened : Option ℕ)
      → Preserves P (close_opened outcome at opened)
  close_opened-Preserves outcome at none = search (preserves_rules)
  close_opened-Preserves outcome at (some o) =
      search (preserves_rules, (modify-Preserves framed)) depth 20

  close_recovery_episode-Preserves :
      (outcome : RecoveryEpisodeOutcome) (at : ℕ) → Preserves P (close_recovery_episode outcome at)
  unfolding close_recovery_episode
  close_recovery_episode-Preserves outcome at = record {
    apply = λ c h. (close_opened-Preserves outcome at c.episode_opened_at).apply c h;
  }

  pub transition_to_blocked-Preserves :
      (at : ℕ) (blocker root_cause : Message)
      → Preserves P (transition_to_blocked at blocker root_cause)
  unfolding transition_to_blocked
  transition_to_blocked-Preserves at blocker root_cause =
      search
        (
          preserves_rules,
          (commit_time-Preserves framed),
          framed.moves,
          (modify-Preserves framed),
          close_recovery_episode-Preserves,
        )
        depth 20

  open_episode-Preserves :
      (at : ℕ) (reason : Message) → Preserves P (modify (open_new_recovery_episode at reason))
  unfolding open_new_recovery_episode
  open_episode-Preserves at reason = modify-Preserves framed _ (λ c. refl) (λ c. refl)

  pub enter_stall-Preserves : (t : ℕ) (verdict : StallVerdict) → Preserves P (enter_stall t verdict)
  unfolding enter_stall
  enter_stall-Preserves t verdict =
      search
        (
          preserves_rules,
          (commit_time-Preserves framed),
          framed.moves,
          (modify-Preserves framed),
          open_episode-Preserves,
        )
        depth 20

  pub evaluate_core-Preserves : (at : Float) → Preserves P (evaluate_core at)
  unfolding evaluate_core
  evaluate_core-Preserves at =
      search
        (
          preserves_rules,
          (checked_time-Preserves framed),
          (commit_time-Preserves framed),
          enter_stall-Preserves,
        )
        depth 20

  pub give_up-Preserves :
      (t : ℕ) (reason : String) (blocker root_cause : Message)
      → Preserves P (give_up t reason blocker root_cause)
  unfolding give_up
  give_up-Preserves t reason blocker root_cause =
      search (preserves_rules, framed.moves, transition_to_blocked-Preserves) depth 20

  pub begin_attempt-Preserves :
      (t : ℕ) (reason strategy : String) (number : ℕ)
      → Preserves P (begin_attempt t reason strategy number)
  unfolding begin_attempt
  begin_attempt-Preserves t reason strategy number =
      search
        (preserves_rules, (commit_time-Preserves framed), framed.moves, (modify-Preserves framed))
        depth 20

  pub recover-Preserves :
      (t : ℕ) (resume_state : ExecutionState) (description : Message)
      → Preserves P (recover t resume_state description)
  unfolding recover
  recover-Preserves t resume_state description =
      search
        (
          preserves_rules,
          (commit_time-Preserves framed),
          (progress-Preserves framed),
          framed.moves,
          (modify-Preserves framed),
          close_recovery_episode-Preserves,
        )
        depth 20

  pub fail_recovery-Preserves :
      (t : ℕ) (strategy : String) (evidence : Option String)
      → Preserves P (fail_recovery t strategy evidence)
  unfolding fail_recovery
  fail_recovery-Preserves t strategy evidence =
      search
        (
          preserves_rules,
          (commit_time-Preserves framed),
          framed.moves,
          transition_to_blocked-Preserves,
        )
        depth 20

  try_reserve-Preserves : (strategy : String) → Preserves P (try_reserve strategy)
  try_reserve-Preserves strategy = record { apply = λ c h. (framed.reserves _ _ _ _).apply c h }

  after_reserve-Preserves :
      (t : ℕ) (reason strategy : String) (number : ℕ) (r : Result BudgetReservation)
      → Preserves P (after_reserve t reason strategy number r)
  after_reserve-Preserves t reason strategy number (ok r) =
      search (preserves_rules, framed.commits, begin_attempt-Preserves) depth 20
  after_reserve-Preserves t reason strategy number (err e) =
      search (preserves_rules, give_up-Preserves) depth 20

  after_strategy-Preserves :
      (t : ℕ) (reason : String) (number : ℕ) (r : Result String)
      → Preserves P (after_strategy t reason number r)
  after_strategy-Preserves t reason number (ok strategy) =
      search (preserves_rules, try_reserve-Preserves, after_reserve-Preserves) depth 20
  after_strategy-Preserves t reason number (err e) =
      search (preserves_rules, give_up-Preserves) depth 20

  pub admit_recovery-Preserves : (t : ℕ) (reason : String) → Preserves P (admit_recovery t reason)
  unfolding admit_recovery
  admit_recovery-Preserves t reason =
      search (preserves_rules, give_up-Preserves, after_strategy-Preserves) depth 20

  pub begin_recovery_core-Preserves :
      (at : Float) (reason : String) → Preserves P (begin_recovery_core at reason)
  unfolding begin_recovery_core
  begin_recovery_core-Preserves at reason =
      search (preserves_rules, (checked_time-Preserves framed), admit_recovery-Preserves) depth 20

  resolve_attempt-Preserves :
      (t : ℕ) (result : RecoveryResult) (resume_state : ExecutionState) (evidence : Option String)
      (last : Option RecoveryAttempt)
      → Preserves P (resolve_attempt t result resume_state evidence last)
  resolve_attempt-Preserves t result resume_state evidence none = search (preserves_rules)
  resolve_attempt-Preserves t result resume_state evidence (some last) =
      search
        (preserves_rules, (modify-Preserves framed), recover-Preserves, fail_recovery-Preserves)
        depth 20

  pub record_recovery_result_core-Preserves :
      (at : Float) (result : RecoveryResult) (resume_state : ExecutionState)
      (evidence : Option String)
      → Preserves P (record_recovery_result_core at result resume_state evidence)
  unfolding record_recovery_result_core
  record_recovery_result_core-Preserves at result resume_state evidence =
      search (preserves_rules, (checked_time-Preserves framed), resolve_attempt-Preserves) depth 20
