-- ===== src/Models.antt =====
-- models.py: the enums, and the records of the watchdog with the checks of their `__post_init__`.
-- A field's type check on an enum is the type of the field here.
pub mod Messages
pub mod Records
pub mod Tasks
use agent_gear.Common.{ℕ, Bool, List, [], ◌∷◌}

pub data ModelTier : Type 0 where
  fast standard advanced frontier : ModelTier

pub data ReasoningEffort : Type 0 where
  none low medium high xhigh max : ReasoningEffort

pub data ExecutionState : Type 0 where
  planning running testing reviewing stalled recovering blocked completed : ExecutionState

pub data ProgressSignalKind : Type 0 where
  subtask_completed file_changed test_status_improved error_resolved new_evidence :
      ProgressSignalKind
  phase_advanced pending_work_reduced tool_success decision_produced : ProgressSignalKind
  checkpoint_reached : ProgressSignalKind

pub data RecoveryResult : Type 0 where
  pending success failure : RecoveryResult

pub data RecoveryEpisodeOutcome : Type 0 where
  success blocked : RecoveryEpisodeOutcome

-- `ModelTier.rank`: the place in `_TIER_ORDER`.
unfoldable pub tier_rank : ModelTier → ℕ
tier_rank fast = 0
tier_rank standard = 1
tier_rank advanced = 2
tier_rank frontier = 3

-- `ReasoningEffort.rank`: the place in `_REASONING_ORDER`.
unfoldable pub reasoning_rank : ReasoningEffort → ℕ
reasoning_rank none = 0
reasoning_rank low = 1
reasoning_rank medium = 2
reasoning_rank high = 3
reasoning_rank xhigh = 4
reasoning_rank max = 5

pub ModelTier-discrete : Discrete ModelTier
ModelTier-discrete = hlevel

pub ExecutionState-discrete : Discrete ExecutionState
ExecutionState-discrete = hlevel
