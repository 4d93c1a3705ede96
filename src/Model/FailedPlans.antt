-- ===== src/Model/FailedPlans.antt =====
-- FailedPlanCache of orchestrator/internal/engine/model/utility_ai.go: the array of sixteen entries
-- is a list of that length, and an entry at or past `count` is not valid.
pub mod Refinement
use minecraft_orchestrator.Base.{
  ℕ, ◌+◌, ◌%◌, List, [], ◌∷◌, ◌++◌, take, drop, set, ltb, ◌==◌, if◌then◌else◌,
}
use minecraft_orchestrator.Model.Types.{FailedPlan}

abbrev pub failed_plan_cache_capacity : ℕ
failed_plan_cache_capacity = 16

pub record FailedPlanCache : Type 0 where
  pub entries : List FailedPlan
  pub count : ℕ  -- uint8

unfoldable pub len : FailedPlanCache → ℕ
len c = if ltb failed_plan_cache_capacity c.count then failed_plan_cache_capacity else c.count

-- `copy(c.Entries[:15], c.Entries[1:])`: the last entry keeps its place.
unfoldable pub shift_left : List FailedPlan → List FailedPlan
shift_left entries = take 15 (drop 1 entries) ++ drop 15 entries

unfoldable pub add : FailedPlanCache → FailedPlan → FailedPlanCache
unfolding len shift_left
add c plan =
    if len c == failed_plan_cache_capacity
    then record { entries = set (shift_left c.entries) 15 plan; count = failed_plan_cache_capacity }
    else record { entries = set c.entries (len c) plan; count = (len c + 1) % 256 }
