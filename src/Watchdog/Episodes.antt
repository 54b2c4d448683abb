-- ===== src/Watchdog/Episodes.antt =====
-- Opening and closing a recovery episode, and the one way to BLOCKED.
use agent_gear.Common.{ℕ, ◌+◌, Option, none, some, List, [], ◌∷◌, ◌++◌, map, pos, length, get_last?}
use agent_gear.Errors.{Result}
use agent_gear.Errors.Exec.{Exec, pure, asks, modify, ◌>>=◌, ◌>>◌}
use agent_gear.Floats.{float_of}
use agent_gear.Models.{RecoveryEpisodeOutcome, ExecutionState}
use agent_gear.Models.Messages.{Message, attempt}
use agent_gear.Models.Records.{
  RecoveryAttempt, RecoveryEpisode, BlockedReport, make_recovery_episode,
}
use agent_gear.Blocked.{build_blocked_report}
use agent_gear.StateMachine.{transition}
use agent_gear.Recovery.{start_new_recovery_episode}
use agent_gear.Watchdog.State.{Core, on_machine, commit_time}

unfoldable pub open_new_recovery_episode : ℕ → Message → Core → Core
open_new_recovery_episode at stall_reason c = record c {
  episode_number = c.episode_number + 1;
  episode_opened_at = some at;
  episode_stall_reason = stall_reason;
  recovery_attempts = [];
  tried_strategies = [];
  loop_guard = start_new_recovery_episode c.loop_guard;
}

-- The record of the episode that is open, as it closes.
unfoldable pub closed_episode : RecoveryEpisodeOutcome → ℕ → ℕ → Core → Result RecoveryEpisode
closed_episode outcome opened_at at c =
    make_recovery_episode (pos c.episode_number) c.episode_stall_reason c.recovery_attempts outcome
      (float_of opened_at) (float_of at)

abbrev pub close_opened : RecoveryEpisodeOutcome → ℕ → Option ℕ → Exec Core (Unit {0})
close_opened outcome at none = pure tt
close_opened outcome at (some opened_at) = do
  episode ← asks (closed_episode outcome opened_at at)
  modify (λ c. record c { recovery_history = c.recovery_history ++ episode ∷ [] })

unfoldable pub close_recovery_episode : RecoveryEpisodeOutcome → ℕ → Exec Core (Unit {0})
close_recovery_episode outcome at c = close_opened outcome at c.episode_opened_at c

-- f"attempt {a.attempt_number}: {a.strategy}" for each attempt of the episode.
abbrev pub attempt_lines : List RecoveryAttempt → List Message
attempt_lines attempts = map (λ a. attempt a.attempt_number a.strategy) attempts

-- The report that `_transition_to_blocked` builds; its callers leave `evidence` and `files_affected`
-- at their defaults.
unfoldable pub blocked_report_of : Message → Message → Core → Result BlockedReport
blocked_report_of blocker root_cause c =
    build_blocked_report blocker root_cause (get_last? c.checkpoints)
      (pos (length c.recovery_attempts)) c.tried_strategies (attempt_lines c.recovery_attempts) []
      none

-- `_transition_to_blocked` up to the heartbeat.
unfoldable pub transition_to_blocked : ℕ → Message → Message → Exec Core (Unit {0})
transition_to_blocked at blocker root_cause = do
  report ← asks (blocked_report_of blocker root_cause)
  modify (λ c. record c { blocked_report = some report })
  close_recovery_episode RecoveryEpisodeOutcome.blocked at
  on_machine (transition ExecutionState.blocked (float_of at) [] blocker)
  modify (λ c. record c { last_error = some blocker })
  modify (commit_time at)
