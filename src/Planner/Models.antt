-- ===== src/Planner/Models.antt =====
-- planner_runtime/models.py: a plan, its steps and its profile, with their validation.
use imece_ide.Base.{
  ℕ, String, Bool, false, ◌&&◌, leb, List, all, length, Result, ok, ◌>>◌, guard, is_stable_id,
  is_bounded_text, is_sha256, planner_input,
}

pub data TaskComplexity : Type 0 where
  low medium high : TaskComplexity

pub data TaskScope : Type 0 where
  local multi_area repository_wide : TaskScope

pub record PlanStep : Type 0 where
  pub title : String
  pub objective : String

-- PlanStep.__post_init__
unfoldable pub make_step : PlanStep → Result PlanStep
make_step s = do
  guard (is_bounded_text 300 false s.title) planner_input
  guard (is_bounded_text 2000 false s.objective) planner_input
  ok s

pub record TaskProfile : Type 0 where
  pub complexity : TaskComplexity
  pub scope : TaskScope

pub record ParsedPlanDecision : Type 0 where
  pub summary : String
  pub steps : List PlanStep
  pub acceptance_criteria : List String
  pub risks : List String
  pub task_profile : TaskProfile

-- _validate_steps
unfoldable pub valid_steps : List PlanStep → Bool
valid_steps steps = leb 1 (length steps) && leb (length steps) 16

-- _validate_string_tuple
unfoldable pub valid_strings : ℕ → ℕ → List String → Bool
valid_strings max_items max_chars values =
    leb (length values) max_items && all (is_bounded_text max_chars false) values

-- ParsedPlanDecision.__post_init__
unfoldable pub make_plan_decision : ParsedPlanDecision → Result ParsedPlanDecision
make_plan_decision d = do
  guard (is_bounded_text 4000 false d.summary) planner_input
  guard (valid_steps d.steps) planner_input
  guard (valid_strings 24 1000 d.acceptance_criteria) planner_input
  guard (valid_strings 16 1000 d.risks) planner_input
  ok d

pub record PlanReport : Type 0 where
  pub plan_id : String
  pub summary : String
  pub steps : List PlanStep
  pub acceptance_criteria : List String
  pub risks : List String
  pub task_profile : TaskProfile
  pub repository_fingerprint : String
  pub task_sha256 : String

-- PlanReport.__post_init__
unfoldable pub make_plan_report : PlanReport → Result PlanReport
make_plan_report r = do
  guard (is_stable_id r.plan_id) planner_input
  guard (is_bounded_text 4000 false r.summary) planner_input
  guard (valid_steps r.steps) planner_input
  guard (valid_strings 24 1000 r.acceptance_criteria) planner_input
  guard (valid_strings 16 1000 r.risks) planner_input
  guard (is_sha256 r.repository_fingerprint) planner_input
  guard (is_sha256 r.task_sha256) planner_input
  ok r
