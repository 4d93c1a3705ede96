-- ===== src/Examples/Places.antt =====
-- A place to stand at that is picked in a world of two sections, the lower of stone.
use minecraft_orchestrator.Base.{true, some, [], ◌∷◌, ◌≡◌, refl}
use minecraft_orchestrator.Model.Types.{BlockPosition, Position}
use minecraft_orchestrator.Model.Chunks.{single, states_get}
use minecraft_orchestrator.Model.Chunks.Columns
use minecraft_orchestrator.Model.Chunks.Columns.{
  ChunkColumn, DimensionType, outside, offset, state_index,
}
use minecraft_orchestrator.Model.WorldViews.{
  WorldView, WorldViews, fresh_view, find_chunk, same_chunk, int32_lt,
}
use minecraft_orchestrator.Model.WorldViews.Blocks.{
  block_state, chunk_of, floor_chunk, int32_div_16, local, out_of_dimension,
}
use minecraft_orchestrator.Systems.Terrain.{can_stand_at, is_hazard}
use minecraft_orchestrator.Systems.Terrain.Destination.{
  pick_destination, draw_places, scan_heights, pick_destination-CanStand,
}

abbrev two : DimensionType
two = record { registry_id = 0; key = "minecraft:overworld"; min_y = 0; height = 32 }

abbrev ground_column : ChunkColumn
ground_column = record {
  min_y = 0;
  height = 32;
  version = 0;
  sections =
      record { non_air = 4096; states = single 33 }
      ∷ record { non_air = 0; states = single 0 }
      ∷ [];
}

abbrev ground_view : WorldView
ground_view = record (fresh_view 1) {
  active_dimension_type = two;
  has_dimension_type_binding = true;
  has_active_dimension_type = true;
  chunks = some ((record { x = 0; z = 0 }, ground_column) ∷ []);
}

abbrev ground_views : WorldViews
ground_views p = some ground_view

abbrev above : BlockPosition
above = record { x = 1; y = 16; z = 1 }

abbrev stand : Position
stand = record { x = 1; y = 16; z = 1 }

picked : pick_destination (λ x. x) (λ n. 0) (λ n k. (5, 5)) 5 stand ground_views ≡ some (some above)
unfolding pick_destination draw_places scan_heights can_stand_at block_state Columns.block_state
    chunk_of floor_chunk int32_div_16 local out_of_dimension find_chunk same_chunk outside offset
    state_index states_get is_hazard int32_lt
picked = refl

pick_destination-CanStand_example : can_stand_at 5 1 16 1 ground_views ≡ some true
pick_destination-CanStand_example =
    pick_destination-CanStand (λ x. x) (λ n. 0) (λ n k. (5, 5)) 5 stand ground_views above picked
