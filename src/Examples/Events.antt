-- ===== src/Examples/Events.antt =====
-- The theorems on mailboxes, events and worlds at concrete inputs.
use minecraft_orchestrator.Base.{
  ℕ, ◌^◌, ◌≤◌, ◌<◌, true, none, some, [], ◌∷◌, ◌++◌, ◌≡◌, ◌≢◌, inr, refl, arith,
}
use minecraft_orchestrator.Model.Types.{BlockPosition}
use minecraft_orchestrator.Model.Chunks.Columns
use minecraft_orchestrator.Model.Chunks.Columns.{ChunkColumn, outside, offset}
use minecraft_orchestrator.Model.Components.{play_ready}
use minecraft_orchestrator.Model.WorldViews.{
  WorldView, WorldViews, fresh_view, find_chunk, same_chunk,
}
use minecraft_orchestrator.Model.WorldViews.Blocks.{
  block_state, set_block_state, chunk_of, floor_chunk, int32_div_16, local, out_of_dimension,
}
use minecraft_orchestrator.Model.WorldViews.Updates.{InWorld, block_state-set_block_state_view}
use minecraft_orchestrator.Network.{Event, EntityChanges, Entity, ChunkLoad, event_host_vitals}
use minecraft_orchestrator.Network.Mailbox
use minecraft_orchestrator.Network.Mailbox.{
  Mailbox, Call, publishing, draining, published, new_mailbox, run-published,
}
use minecraft_orchestrator.HostTransport.Observation.{plain_event}
use minecraft_orchestrator.Systems.Observations.{
  Row, no_ai, no_sync, no_position, apply_network_event,
}
use minecraft_orchestrator.Systems.Observations.Redelivery.{apply_network_event-stale}
use minecraft_orchestrator.Systems.Observations.Replay.{
  apply_events, apply_events-Later, apply_events-replay,
}
use minecraft_orchestrator.Systems.Terrain.{apply_chunk_load}
use minecraft_orchestrator.Systems.Terrain.Loads.{first, block_state-apply_chunk_load}
use minecraft_orchestrator.Systems.Apply.{State}
use minecraft_orchestrator.Examples.Worlds.{
  air, air-HasRoom, flat, one_section, stone, one_section-stone,
}

run-published_example :
    let end =
      Mailbox.run {A = ℕ}
        (publishing 1 ∷ publishing 2 ∷ draining ∷ publishing 3 ∷ [])
        new_mailbox in
    end.1 ++ end.0.messages ≡ 1 ∷ 2 ∷ 3 ∷ []
unfolding published
run-published_example =
    run-published {A = ℕ} (publishing 1 ∷ publishing 2 ∷ draining ∷ publishing 3 ∷ []) new_mailbox

abbrev pub steve : Row
steve = record {
  bot = record { profile_id = 5; username = "steve" };
  session = record {
    phase = play_ready;
    attempt_id = 1;
    player_entity_id = 0;
    failure = "";
    remote_session_id = "one";
    last_sequence = 4;
  };
  position = no_position;
  rotation = record { yaw = 0; pitch = 0 };
  velocity = record { x = 0; y = 0; z = 0 };
  health = record { current = 0; max = 0 };
  hunger = record { current = 0; max = 0 };
  game_mode = 0;
  inventory = record { selected_hotbar_slot = 0; slots = [] };
  effects = record { values = [] };
  utility_ai = no_ai;
  controller_sync = no_sync;
}

abbrev pub vitals_event : ℕ → Event
vitals_event n = record (plain_event 5 "one" n event_host_vitals) {
  vitals = some (record { health = 1; food = 20; saturation = 0; oxygen = 0 });
}

apply_network_event-stale_example : apply_network_event (vitals_event 3) steve ≡ steve
apply_network_event-stale_example =
    apply_network_event-stale (vitals_event 3) steve (inr refl, omega arith)

apply_events-Later_example :
    ((apply_events (vitals_event 6 ∷ vitals_event 2 ∷ []) steve).session.remote_session_id ≡ "one")
    × (4 ≤ (apply_events (vitals_event 6 ∷ vitals_event 2 ∷ []) steve).session.last_sequence)
apply_events-Later_example =
    apply_events-Later (vitals_event 6 ∷ vitals_event 2 ∷ []) steve (refl, (refl, tt))

apply_events-replay_example :
    let after = apply_events (vitals_event 6 ∷ vitals_event 7 ∷ []) steve in
    apply_network_event (vitals_event 6) after ≡ after
apply_events-replay_example =
    apply_events-replay (vitals_event 6) (vitals_event 7 ∷ []) steve (refl, (refl, tt))

abbrev zombie : ℕ → Entity
zombie x = record {
  id = 8;
  name = "zombie";
  position = record { x = x; y = 0; z = 0 };
  yaw = 0;
  pitch = 0;
}

abbrev one_zombie : EntityChanges
one_zombie = record { added = zombie 1 ∷ []; removed = []; moved = zombie 2 ∷ [] }

abbrev pub state : State
state = record {
  rows = (steve ∷ []) ∷ [];
  worlds = λ p. none;
  entities = λ p. none;
  reality = λ p. none;
}

abbrev pub loaded : ChunkLoad
loaded = record { position = record { x = 0; z = 0 }; bytes = one_section; min_y = 0; height = 16 }

block_state-apply_chunk_load_example :
    block_state 5 (record { x = 1; y = 2; z = 3 }) (apply_chunk_load 5 loaded (λ p. none))
    ≡ Columns.block_state stone (local 1) 2 (local 3)
unfolding chunk_of floor_chunk int32_div_16 out_of_dimension
block_state-apply_chunk_load_example =
    block_state-apply_chunk_load 5 loaded (λ p. none) flat stone (record { x = 1; y = 2; z = 3 })
      (first refl) one_section-stone refl refl

abbrev pub air_view : WorldView
air_view = record (fresh_view 1) {
  active_dimension_type = flat;
  has_dimension_type_binding = true;
  has_active_dimension_type = true;
  chunks = some ((record { x = 0; z = 0 }, air) ∷ []);
}

abbrev pub air_views : WorldViews
air_views p = some air_view

abbrev spot : BlockPosition
spot = record { x = 1; y = 2; z = 3 }

air-InWorld : InWorld air_views 5 1 spot air_view air
unfolding chunk_of floor_chunk int32_div_16 out_of_dimension find_chunk same_chunk outside offset
    local
air-InWorld = record {
  found = refl;
  of_attempt = refl;
  active = refl;
  column = refl;
  aligned = refl;
  ranges = (omega arith, omega arith, omega arith, omega arith);
  inside = refl;
}

block_state-set_block_state_view_example :
    (u : WorldViews) × (set_block_state 5 1 spot 9 air_views ≡ some (u, true))
    × (block_state 5 spot u ≡ some (some 9))
    × ((at' : BlockPosition)
        → (at'.x < 2 ^ 32) × (at'.y < 2 ^ 32) × (at'.z < 2 ^ 32)
        → spot ≢ at'
        → block_state 5 at' u ≡ block_state 5 at' air_views)
block_state-set_block_state_view_example =
    block_state-set_block_state_view air_views 5 1 spot 9 air_view air (λ j. 0) air-InWorld
      (air-HasRoom 9)
