-- ===== src/Examples/Views.antt =====
-- The theorems on the bindings of views and on the tick's snapshot at concrete inputs.
use minecraft_orchestrator.Base.{true, false, none, some, [], ◌∷◌, take, ◌≡◌, refl}
use minecraft_orchestrator.Model.Chunks.Columns.{DimensionType}
use minecraft_orchestrator.Model.WorldViews.{
  WorldView, WorldViews, fresh_view, begin_attempt, set_dimension_types, bind_dimension, with_types,
  dimension_type, current,
}
use minecraft_orchestrator.Model.WorldViews.Binding.{
  here, next, begun, types_set, bound, IsBound, Reach-IsBound,
}
use minecraft_orchestrator.Model.TickContext.{TickContextInput, new_tick_context, to_inventory}
use minecraft_orchestrator.Model.TickContext.Bounded.{new_tick_context-bounded}
use minecraft_orchestrator.Examples.Worlds.{flat}
use minecraft_orchestrator.Examples.Events.{steve}

-- The dimension of a view is bound, its type is taken off the list, and another comes in its place.
abbrev tall : DimensionType
tall = record flat { height = 32 }

abbrev bound_views : WorldViews
bound_views =
    (bind_dimension 5 1 0 (set_dimension_types 5 1 (flat ∷ []) (begin_attempt 5 1 (λ p. none))).0).0

abbrev listed_views : WorldViews
listed_views = (set_dimension_types 5 1 (tall ∷ []) (set_dimension_types 5 1 [] bound_views).0).0

abbrev tall_view : WorldView
tall_view = record (fresh_view 1) {
  dimension_types = tall ∷ [];
  active_dimension_type = tall;
  has_dimension_type_binding = true;
  has_active_dimension_type = true;
}

listed_views-tall : listed_views 5 ≡ some tall_view
unfolding begin_attempt set_dimension_types bind_dimension with_types dimension_type current
listed_views-tall = refl

Reach-IsBound_example : IsBound tall_view
Reach-IsBound_example =
    Reach-IsBound listed_views 5 tall_view
      (next
        (next
          (next
            (next (next here (begun 1 (λ p. none)))
              (types_set 1 (flat ∷ []) (begin_attempt 5 1 (λ p. none))))
            (bound 1 0 _))
          (types_set 1 [] bound_views))
        (types_set 1 (tall ∷ []) _))
      listed_views-tall

abbrev input : TickContextInput
input = record {
  tick = 1;
  bot = steve.bot;
  session = steve.session;
  position = steve.position;
  rotation = steve.rotation;
  health = steve.health;
  hunger = steve.hunger;
  inventory = record { selected_hotbar_slot = 2; slots = record { slot = 36; item = none } ∷ [] };
  entities = [];
  blocks = [];
  reality = none;
  world = record {
    has_navigable_world = false;
    wander_destination = record { x = 0; y = 0; z = 0 };
    has_wander_target = false;
    preconditions_hash = 0;
  };
}

new_tick_context-bounded_example :
    let c = new_tick_context input in
    (to_inventory c.inventory
      ≡ record { selected_hotbar_slot = 2; slots = record { slot = 36; item = none } ∷ [] })
    × (take c.entity_count c.entities ≡ [])
    × (take c.block_count c.blocks ≡ [])
new_tick_context-bounded_example = new_tick_context-bounded input
