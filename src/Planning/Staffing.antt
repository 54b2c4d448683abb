-- ===== src/Planning/Staffing.antt =====
-- The shape of the pipeline of agents.
use agent_gear.Common.{
  ℕ, zero, suc, ◌≤◌, ◌≡◌, refl, Bool, true, false, ◌&&◌, List, [], ◌∷◌, ◌++◌, all, map, leb, ltb,
  arith, if◌then◌else◌,
}
use agent_gear.Config.{Policy}
use agent_gear.Models.{ModelTier, ReasoningEffort}
use agent_gear.Models.Tasks.{ComplexityAssessment, RiskAssessment}
use agent_gear.Routing.{ModelProfile}
use agent_gear.Planning.{
  AgentRole, AgentAssignment, ExecutionStrategy, agent_count, count_agents, role_of, joins_if,
  assign, needs_multi_agent, researcher_count, is_judged, lone_builder, pipeline,
  build_execution_strategy, has_reviewer, reaches, architectural_impact,
}

-- The place of a role in the pipeline.
abbrev pub stage : AgentRole → ℕ
stage AgentRole.planner = 0
stage AgentRole.researcher = 1
stage AgentRole.judge = 2
stage AgentRole.builder = 3
stage AgentRole.reviewer = 4

-- Each role comes once, in the order of the stages.
abbrev pub is_in_order : List AgentRole → Bool
is_in_order [] = true
is_in_order (r ∷ []) = true
is_in_order (r ∷ s ∷ rest) = ltb (stage r) (stage s) && is_in_order (s ∷ rest)

abbrev pub has_judge : List AgentRole → Bool
has_judge [] = false
has_judge (AgentRole.judge ∷ rest) = true
has_judge (_ ∷ rest) = has_judge rest

abbrev pub has_builder : List AgentRole → Bool
has_builder [] = false
has_builder (AgentRole.builder ∷ rest) = true
has_builder (_ ∷ rest) = has_builder rest

abbrev pub is_counted : AgentAssignment → Bool
is_counted a = leb 1 a.count

-- What holds of the staffing of a task, where `multi` says whether more than a builder is needed.
abbrev pub IsStaffed : Bool → ExecutionStrategy → Type 0
IsStaffed multi s =
    (s.execution_order ≡ map role_of s.agents)
    × (is_in_order s.execution_order ≡ true)
    × (has_builder s.execution_order ≡ true)
    × (has_judge s.execution_order ≡ s.judge_required)
    × (has_reviewer s.execution_order ≡ multi)
    × (all is_counted s.agents ≡ true)
    × (leb (agent_count s) 6 ≡ true)

-- The agents of a pipeline, by what decides on them.
abbrev crew :
    Bool
    → ℕ
    → Bool
    → ModelTier
    → ModelTier
    → ModelTier
    → ReasoningEffort
    → ModelTier
    → List AgentAssignment
crew planned researchers judged main_tier down judge_tier effort reviewer_tier =
    joins_if planned (assign AgentRole.planner main_tier ReasoningEffort.low 1)
    ++ (joins_if (leb 1 researchers)
          (assign AgentRole.researcher down ReasoningEffort.medium researchers)
        ++ (joins_if judged (assign AgentRole.judge judge_tier ReasoningEffort.high 1)
            ++ (assign AgentRole.builder main_tier effort 1
                ∷ assign AgentRole.reviewer reviewer_tier ReasoningEffort.medium 1
                ∷ [])))

module _ (main_tier down judge_tier : ModelTier) (effort : ReasoningEffort)
    (reviewer_tier : ModelTier) where
  abbrev crew_strategy : Bool → ℕ → Bool → ExecutionStrategy
  crew_strategy planned researchers judged =
      let agents = crew planned researchers judged main_tier down judge_tier effort reviewer_tier in
      record { agents = agents; judge_required = judged; execution_order = map role_of agents }

  crew-IsStaffed :
      (planned : Bool) (researchers : ℕ) (judged : Bool)
      → researchers ≤ 2
      → IsStaffed true (crew_strategy planned researchers judged)
  unfolding count_agents has_reviewer all
  crew-IsStaffed true zero true h = (refl, refl, refl, refl, refl, refl, refl)
  crew-IsStaffed true zero false h = (refl, refl, refl, refl, refl, refl, refl)
  crew-IsStaffed true (suc zero) true h = (refl, refl, refl, refl, refl, refl, refl)
  crew-IsStaffed true (suc zero) false h = (refl, refl, refl, refl, refl, refl, refl)
  crew-IsStaffed true (suc (suc zero)) true h = (refl, refl, refl, refl, refl, refl, refl)
  crew-IsStaffed true (suc (suc zero)) false h = (refl, refl, refl, refl, refl, refl, refl)
  crew-IsStaffed false zero true h = (refl, refl, refl, refl, refl, refl, refl)
  crew-IsStaffed false zero false h = (refl, refl, refl, refl, refl, refl, refl)
  crew-IsStaffed false (suc zero) true h = (refl, refl, refl, refl, refl, refl, refl)
  crew-IsStaffed false (suc zero) false h = (refl, refl, refl, refl, refl, refl, refl)
  crew-IsStaffed false (suc (suc zero)) true h = (refl, refl, refl, refl, refl, refl, refl)
  crew-IsStaffed false (suc (suc zero)) false h = (refl, refl, refl, refl, refl, refl, refl)
  crew-IsStaffed planned (suc (suc (suc n))) judged h = absurd (omega arith)

researcher_count-le :
    (complexity : ComplexityAssessment) (risk : RiskAssessment)
    → researcher_count complexity risk ≤ 2
unfolding researcher_count
researcher_count-le complexity risk = ground arith

-- The staffing of any task has each role at most once and in the order planner, researcher, judge,
-- builder, reviewer, with a builder in it; it has a judge just where the strategy requires one, and a
-- reviewer just where more than a lone builder is needed. Every agent counts at least one, and all of
-- them at most six.
pub build_execution_strategy-IsStaffed :
    (complexity : ComplexityAssessment) (risk : RiskAssessment) (model : ModelProfile)
    (policy : Policy)
    → IsStaffed
        (needs_multi_agent complexity risk policy)
        (build_execution_strategy complexity risk model policy)
unfolding build_execution_strategy pipeline lone_builder has_reviewer all count_agents
build_execution_strategy-IsStaffed complexity risk model policy =
    elim (needs_multi_agent complexity risk policy)
      as (λ b. IsStaffed b (
        if b
        then record {
          agents = pipeline complexity risk model policy;
          judge_required = is_judged complexity risk;
          execution_order = map role_of (pipeline complexity risk model policy);
        }
        else lone_builder complexity risk model)) [
          | true ↦
              crew-IsStaffed _ _ _ _ _ (reaches (architectural_impact complexity risk) 500000)
                (researcher_count complexity risk) (is_judged complexity risk)
                (researcher_count-le complexity risk)
          | false ↦ (refl, refl, refl, refl, refl, refl, refl)
        ]
