-- ===== src/Scheduler/Access.antt =====
-- orchestrator/internal/engine/scheduler/types.go: what a system declares, and what it is.
use minecraft_orchestrator.Base.{
  Bool, false, ◌&&◌, ◌||◌, if◌then◌else◌, Option, none, some, List, [], ◌∷◌, ltb, length, bit_and,
  bit_or,
}
use Prim.Native.String.{String}
use minecraft_orchestrator.Model.Mask.{Mask, intersects, contains}
use minecraft_orchestrator.Core.World.{World, is_dirty}
use minecraft_orchestrator.Core.Command.{CommandBuffer}

abbrev pub PhaseId : Type 0
PhaseId = String

abbrev pub SystemId : Type 0
SystemId = String

pub record AccessSpec : Type 0 where
  pub queries : List Mask
  pub reads : Mask
  pub writes : Mask
  pub structural : List Mask

-- HashStructuralEffects.
unfoldable pub has_structural_effects : AccessSpec → Bool
has_structural_effects a = ltb 0 (length a.structural)

pub data AccessError : Type 0 where
  overlap : Mask → AccessError
  empty_query : AccessError

-- `none` where the declaration is accepted. slices.Contains is `is_dirty` of a list of masks.
unfoldable pub validate_access : AccessSpec → Option AccessError
validate_access a =
    if intersects a.reads a.writes
    then some (overlap (bit_and a.reads a.writes))
    else if is_dirty a.queries 0
    then some empty_query
    else none

-- A System is what its three methods do. Run is given the world and its own buffer of commands; an
-- error or a panic that the executor recovers from is `true`.
pub record System : Type 0 where
  pub id : SystemId
  pub access : AccessSpec
  pub run : World → CommandBuffer → World × CommandBuffer × Bool

-- slices.ContainsFunc(queries, dirty.Contains).
unfoldable pub any_contained : Mask → List Mask → Bool
any_contained dirty [] = false
any_contained dirty (q ∷ qs) = contains dirty q || any_contained dirty qs

unfoldable pub any_observed : List Mask → List Mask → Bool
any_observed [] queries = false
any_observed (m ∷ ms) queries = any_contained m queries || any_observed ms queries

unfoldable pub systems_conflict : AccessSpec → AccessSpec → Bool
systems_conflict a b =
    (intersects a.writes (bit_or b.reads b.writes) || intersects b.writes (bit_or a.reads a.writes))
    || (any_observed a.structural b.queries
        || (any_observed b.structural a.queries
            || (ltb 0 (length a.structural) && ltb 0 (length b.structural))))
