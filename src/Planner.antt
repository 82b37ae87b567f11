-- ===== src/Planner.antt =====
-- planner_runtime: the plan that the planner's model proposes, checked.
pub mod Models
