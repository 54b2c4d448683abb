-- ===== src/Watchdog/Tests.antt =====
-- Runs of the watchdog on concrete calls, over a disk that keeps what is written and never fails.
use agent_gear.Common.{
  ℕ, ◌≡◌, refl, true, inl, false, Option, none, some, List, [], ◌∷◌, ◌++◌, ◌+◌, ◌*◌, ◌≤◌, pos,
  is_blank, arith, not,
}
use agent_gear.Errors.{ok}
use agent_gear.Floats.{float_of, require_positive_int, require_positive_float}
use agent_gear.Models.{ReasoningEffort, fast, planning, running, recovering, RecoveryResult}
use agent_gear.Models.Messages.{text}
use agent_gear.Models.Records.{Heartbeat, Checkpoint}
use agent_gear.Config.{default_policy}
use agent_gear.StateMachine.{new_machine}
use agent_gear.Progress.{new_tracker}
use agent_gear.StateMachine.History.{IsRecorded, Extends}
use agent_gear.Budget.{new_ledger, committed_tokens, reserved_tokens, committed_cost, reserved_cost}
use agent_gear.Recovery.{new_guard}
use agent_gear.Watchdog.State.{Core, Watchdog, Persistence, state_of}
use agent_gear.Watchdog.Work.{new_core, start_core}
use agent_gear.Watchdog.Api.{
  Event, starting, activity, resolving, evaluating, recovering_from, over, run, write_heartbeat,
  sync_heartbeat,
}
use agent_gear.Watchdog.Plans.{from_plan, from_plan-runs}
use agent_gear.Planning.{agent_count}
use agent_gear.Analysis.Tests.{login}
use agent_gear.Planning.Tests.{login_complexity, login_risk, login_plan, login_accepted}
use agent_gear.Watchdog.Safety.{watchdog-IsRecorded, watchdog_within_budget, watchdog_history_kept}
use agent_gear.Watchdog.Bounds.{IsBounded}
use agent_gear.Watchdog.Bounds.Recovering.{attempts-IsBounded}
use agent_gear.Watchdog.Heartbeats.{IsSettled, write_heartbeat-IsSettled, sync_heartbeat-answer}
use agent_gear.Watchdog.Reports.{IsReported}
use agent_gear.Watchdog.Reports.Recovering.{run-IsReported}
use agent_gear.Watchdog.Escalations.{IsFrugal, charged}
use agent_gear.Watchdog.Escalations.Runs.{run-IsFrugal}
use agent_gear.Watchdog.DeadEnds.{IsDeadEnd, at_planning, dead_end_final}

-- A disk that holds the last heartbeat and the checkpoints.
record Disk : Type 0 where
  heartbeat : Option Heartbeat
  checkpoints : List Checkpoint

abbrev steady : Persistence Disk
steady = record {
  write = λ heartbeat d. (ok tt, record d { heartbeat = some heartbeat });
  append = λ cp d. (ok tt, record d { checkpoints = d.checkpoints ++ cp ∷ [] });
}

abbrev empty : Disk
empty = record { heartbeat = none; checkpoints = [] }

abbrev fresh : Core
fresh = record {
  execution_id = "run-1";
  policy = default_policy;
  tier = fast;
  reasoning = ReasoningEffort.low;
  context_budget_tokens = 2000;
  escalations_used = 0;
  machine = record { execution_id = "run-1"; state = planning; history = [] };
  progress = record { events = [] };
  loop_guard = record {
    policy = default_policy.watchdog;
    identical_failure_streak = 0;
    recovery_attempts = 0;
    no_progress_cycles = 0;
    total_attempts = 0;
    model_escalations = 0;
  };
  budget = record {
    max_tokens = 200000;
    max_cost = 5000000;
    reservations = [];
    id_counter = 1;
    agent_dispatches = 0;
  };
  activities = [];
  checkpoints = [];
  recovery_attempts = [];
  tried_strategies = [];
  episode_number = 0;
  episode_opened_at = none;
  episode_stall_reason = text "";
  recovery_history = [];
  blocked_report = none;
  started_at = none;
  last_observed_at = none;
  current_task = "";
  last_progress_evidence = none;
  last_error = none;
  planned_initial = none;
}

fresh-built : new_core "run-1" default_policy fast ReasoningEffort.low (pos 2000) none ≡ ok fresh
unfolding new_core is_blank require_positive_int new_ledger require_positive_float new_machine
    new_tracker new_guard
fresh-built = refl

abbrev failing : ℕ → Event
failing n = activity (float_of n) "pytest" false false (float_of 1) none

-- Two failures alike after the start stall the execution, and its recovery begins.
abbrev stuck : List Event
stuck = starting "task" (float_of 0) (pos 0) (float_of 0) ∷ failing 1 ∷ failing 2 ∷ []

-- The recovery succeeds, back into PLANNING.
abbrev replanned : List Event
replanned = stuck ++ (resolving (float_of 3) RecoveryResult.success planning none) ∷ []

abbrev opened : Watchdog Disk
opened = over fresh (some steady) empty

watchdog-IsRecorded_example : IsRecorded (run replanned opened).core.machine
watchdog-IsRecorded_example =
    watchdog-IsRecorded (some steady) empty "run-1" default_policy fast ReasoningEffort.low
      (pos 2000) none fresh fresh-built replanned

watchdog_within_budget_example :
    let l = (run replanned opened).core.budget in
    (committed_tokens l + reserved_tokens l ≤ 200000)
    × (committed_cost l + reserved_cost l ≤ 5000000)
watchdog_within_budget_example =
    watchdog_within_budget (some steady) empty "run-1" default_policy fast ReasoningEffort.low
      (pos 2000) none fresh fresh-built replanned

watchdog_history_kept_example : Extends opened.core.machine (run replanned opened).core.machine
watchdog_history_kept_example = watchdog_history_kept opened replanned

-- As a successful recovery into PLANNING leaves it.
abbrev abandoned : Watchdog Disk
abandoned =
    over
      (record fresh {
        machine = record {
          execution_id = "run-1";
          state = planning;
          history =
              (record {
                from_state = recovering;
                to_state = planning;
                at_seconds = float_of 3;
                note = text "replanned";
                evidence = [];
              })
              ∷ [];
        };
        started_at = some 0;
        last_observed_at = some 3;
      })
      (some steady) empty

abandoned-IsDeadEnd : IsDeadEnd abandoned.core
unfolding over
abandoned-IsDeadEnd = at_planning refl refl

abbrev later : List Event
later =
    starting "again" (float_of 4) (pos 0) (float_of 0)
    ∷ recovering_from (float_of 9) "again"
    ∷ evaluating (float_of 10)
    ∷ []

dead_end_final_example : (run later abandoned).core.machine ≡ abandoned.core.machine
dead_end_final_example = dead_end_final abandoned later abandoned-IsDeadEnd

opened-IsBounded : IsBounded opened.core
unfolding over
opened-IsBounded = (omega arith, omega arith)

opened_with : opened.persistence ≡ some steady
unfolding over
opened_with = refl

attempts-IsBounded_example : IsBounded (run replanned opened).core
attempts-IsBounded_example = attempts-IsBounded opened replanned opened-IsBounded

write_heartbeat-IsSettled_example :
    IsSettled steady 4 opened (write_heartbeat 4 opened).0 (write_heartbeat 4 opened).1
write_heartbeat-IsSettled_example = write_heartbeat-IsSettled steady 4 opened opened_with

-- A watchdog that a failed write left dirty.
abbrev behind : Watchdog Disk
behind = record opened { heartbeat_dirty = true; last_heartbeat_at_seconds = some 3 }

sync_heartbeat-answer_example :
    ((sync_heartbeat behind).0 ≡ not (sync_heartbeat behind).1.heartbeat_dirty)
    × ((sync_heartbeat behind).1.core ≡ behind.core)
sync_heartbeat-answer_example = sync_heartbeat-answer behind

opened-IsReported : IsReported opened.core
unfolding over
opened-IsReported = inl refl

run-IsReported_example : IsReported (run replanned opened).core
run-IsReported_example = run-IsReported opened replanned opened-IsReported

opened-IsFrugal : IsFrugal opened.core
unfolding over charged
opened-IsFrugal = (omega arith, omega arith)

run-IsFrugal_example : IsFrugal (run replanned opened).core
run-IsFrugal_example = run-IsFrugal opened replanned opened-IsFrugal

from_plan-runs_example :
    (before : Core) × (after : Core) × (from_plan "run-1" login_plan default_policy ≡ ok before)
    × (start_core "login" (float_of 7) (pos 0) (float_of 0) before ≡ (ok 7, after))
    × (state_of after ≡ running)
    × (committed_tokens after.budget
        ≡ login_plan.context_budget_tokens * agent_count login_plan.strategy)
    × (committed_cost after.budget ≡ login_plan.max_estimated_cost)
    × (reserved_tokens after.budget ≡ 0)
    × (reserved_cost after.budget ≡ 0)
unfolding is_blank
from_plan-runs_example =
    from_plan-runs "run-1" "login" 7 login login_complexity login_risk default_policy login_plan
      refl refl login_accepted
