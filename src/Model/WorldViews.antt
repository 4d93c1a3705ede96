-- ===== src/Model/WorldViews.antt =====
-- WorldViews of orchestrator/internal/engine/model/resources.go: the chunks that each bot has loaded.
-- The map of views is a function; that of chunks a list, or `none` where it is nil. An int32 is its
-- bit pattern. A view that Get returns is a value here; in the source it shares its chunks.
pub mod Blocks
pub mod Updates
pub mod Binding
use minecraft_orchestrator.Base.{
  ℕ, zero, suc, ◌+◌, ◌-◌, ◌*◌, ◌/◌, ◌%◌, ◌^◌, Bool, true, false, not, ◌||◌, ◌&&◌, ◌==◌, ltb, leb,
  if◌then◌else◌, Option, none, some, List, [], ◌∷◌, length, get_elem?, update,
}
use Prim.Native.String.{String}
use minecraft_orchestrator.Model.Types.{ProfileId, BlockPosition}
use minecraft_orchestrator.Model.Chunks.{Written, panicked, refused, stored}
use minecraft_orchestrator.Model.Chunks.Columns
use minecraft_orchestrator.Model.Chunks.Columns.{ChunkColumn, DimensionType, geometry_matches}

pub record ChunkPosition : Type 0 where
  pub x : ℕ
  pub z : ℕ

pub record Perception : Type 0 where
  pub dimension : String
  pub center_chunk : ChunkPosition
  pub view_distance : ℕ
  pub revision : ℕ

abbrev pub Chunks : Type 0
Chunks = List (ChunkPosition × ChunkColumn)

pub record WorldView : Type 0 where
  pub attempt_id : ℕ
  pub dimension_epoch : ℕ
  pub perception : Perception
  pub dimension_types : List DimensionType
  pub active_dimension_type_id : ℕ
  pub active_dimension_type : DimensionType
  pub has_dimension_type_binding : Bool
  pub has_active_dimension_type : Bool
  pub chunks : Option Chunks

abbrev pub WorldViews : Type 0
WorldViews = ProfileId → Option WorldView

abbrev pub no_dimension : DimensionType
no_dimension = record { registry_id = 0; key = ""; min_y = 0; height = 0 }

-- WorldView{AttemptID: attemptID}.
abbrev pub fresh_view : ℕ → WorldView
fresh_view attempt = record {
  attempt_id = attempt;
  dimension_epoch = 0;
  perception = record {
    dimension = "";
    center_chunk = record { x = 0; z = 0 };
    view_distance = 0;
    revision = 0;
  };
  dimension_types = [];
  active_dimension_type_id = 0;
  active_dimension_type = no_dimension;
  has_dimension_type_binding = false;
  has_active_dimension_type = false;
  chunks = none;
}

unfoldable pub same_chunk : ChunkPosition → ChunkPosition → Bool
same_chunk a b = a.x == b.x && a.z == b.z

unfoldable pub find_chunk : ChunkPosition → Chunks → Option ChunkColumn
unfolding same_chunk
find_chunk at [] = none
find_chunk at ((p, c) ∷ chunks) = if same_chunk p at then some c else find_chunk at chunks

unfoldable pub put_chunk : ChunkPosition → ChunkColumn → Chunks → Chunks
unfolding same_chunk
put_chunk at c [] = (at, c) ∷ []
put_chunk at c ((p, d) ∷ chunks) =
    if same_chunk p at then (p, c) ∷ chunks else (p, d) ∷ put_chunk at c chunks

unfoldable pub delete_chunk : ChunkPosition → Chunks → Chunks
unfolding same_chunk
delete_chunk at [] = []
delete_chunk at ((p, d) ∷ chunks) =
    if same_chunk p at then chunks else (p, d) ∷ delete_chunk at chunks

-- A nil map has no entry, and is made before the first write.
abbrev pub chunks_of : Option Chunks → Chunks
chunks_of none = []
chunks_of (some chunks) = chunks

unfoldable pub begin_attempt : ProfileId → ℕ → WorldViews → WorldViews
begin_attempt profile attempt v = update v profile (some (fresh_view attempt))

-- A comparison of the int32 of two patterns.
unfoldable pub int32_lt : ℕ → ℕ → Bool
int32_lt a b = ltb ((a + 2 ^ 31) % 2 ^ 32) ((b + 2 ^ 31) % 2 ^ 32)

abbrev pub registered : ℕ → Option DimensionType → Option DimensionType
registered id none = none
registered id (some candidate) = if candidate.registry_id == id then some candidate else none

-- A negative identifier is past the end of any list.
unfoldable pub dimension_type : List DimensionType → ℕ → Option DimensionType
dimension_type types id = if leb (2 ^ 31) id then none else registered id (get_elem? types id)

-- The view of a profile, where it is of the attempt.
unfoldable pub current : ProfileId → ℕ → WorldViews → Option WorldView
current profile attempt v = elim (v profile) [
  | none ↦ none
  | some view ↦ if view.attempt_id == attempt then some view else none
]

-- What an operation that was refused, or carried out, leaves and returns.
abbrev pub unchanged : WorldViews → WorldViews × Bool
unchanged v = (v, false)

abbrev pub save : ProfileId → WorldView → WorldViews → WorldViews × Bool
save profile view v = (update v profile (some view), true)

unfoldable pub clear_chunks : WorldView → WorldView
clear_chunks view = record view { chunks = none }

-- The active type is looked up again; where its geometry is another, the chunks are dropped.
abbrev pub rebind : WorldView → Option DimensionType → WorldView
rebind view none = record view {
  has_active_dimension_type = false;
  active_dimension_type = no_dimension;
}
rebind view (some active) =
    let before = view.active_dimension_type in
    let bound = record view { has_active_dimension_type = true; active_dimension_type = active } in
    if view.has_active_dimension_type
      && (not (before.min_y == active.min_y) || not (before.height == active.height))
    then record bound {
      chunks = none;
      dimension_epoch = (view.dimension_epoch + 1) % 2 ^ 64;
      perception = record view.perception { revision = (view.perception.revision + 1) % 2 ^ 64 };
    }
    else bound

unfoldable pub with_types : List DimensionType → WorldView → WorldView
with_types types view =
    let listed = record view { dimension_types = types } in
    if view.has_dimension_type_binding
    then rebind listed (dimension_type types view.active_dimension_type_id)
    else listed

unfoldable pub set_dimension_types :
    ProfileId → ℕ → List DimensionType → WorldViews → WorldViews × Bool
set_dimension_types profile attempt types v = elim (current profile attempt v) [
  | none ↦ unchanged v
  | some view ↦ save profile (with_types types view) v
]

abbrev pub bind_found :
    ProfileId → ℕ → WorldView → WorldViews → Option DimensionType → WorldViews × Bool
bind_found profile id view v none = unchanged v
bind_found profile id view v (some found) =
    save profile
      (record view {
        active_dimension_type_id = id;
        active_dimension_type = found;
        has_dimension_type_binding = true;
        has_active_dimension_type = true;
      })
      v

unfoldable pub bind_dimension : ProfileId → ℕ → ℕ → WorldViews → WorldViews × Bool
bind_dimension profile attempt id v = elim (current profile attempt v) [
  | none ↦ unchanged v
  | some view ↦ bind_found profile id view v (dimension_type view.dimension_types id)
]

unfoldable pub update_perception :
    ProfileId → ℕ → String → ChunkPosition → ℕ → WorldViews → WorldViews × Bool
update_perception profile attempt dimension center distance v = elim (current profile attempt v) [
  | none ↦ unchanged v
  | some view ↦
      save profile
        (record view {
          perception = record {
            dimension = dimension;
            center_chunk = center;
            view_distance = distance;
            revision = (view.perception.revision + 1) % 2 ^ 64;
          };
        })
        v
]

unfoldable pub remove : ProfileId → ℕ → WorldViews → WorldViews × Bool
remove profile attempt v = elim (current profile attempt v) [
  | none ↦ unchanged v
  | some view ↦ (update v profile none, true)
]

abbrev pub next_version : Option ChunkColumn → ℕ
next_version none = 1
next_version (some previous) = (previous.version + 1) % 2 ^ 64

unfoldable pub replace_chunk :
    ProfileId → ℕ → ChunkPosition → ChunkColumn → WorldViews → WorldViews × Bool
replace_chunk profile attempt at column v = elim (current profile attempt v) [
  | none ↦ unchanged v
  | some view ↦
      let chunks = chunks_of view.chunks in
      let versioned = record column { version = next_version (find_chunk at chunks) } in
      if not view.has_active_dimension_type
        || not (geometry_matches column view.active_dimension_type)
      then unchanged v
      else save profile (record view { chunks = some (put_chunk at versioned chunks) }) v
]

abbrev pub unload_found :
    ProfileId → ChunkPosition → WorldView → WorldViews → Option ChunkColumn → WorldViews × Bool
unload_found profile at view v none = unchanged v
unload_found profile at view v (some column) =
    save profile (record view { chunks = some (delete_chunk at (chunks_of view.chunks)) }) v

unfoldable pub unload_chunk : ProfileId → ℕ → ChunkPosition → WorldViews → WorldViews × Bool
unload_chunk profile attempt at v = elim (current profile attempt v) [
  | none ↦ unchanged v
  | some view ↦
      if view.has_active_dimension_type
      then unload_found profile at view v (find_chunk at (chunks_of view.chunks))
      else unchanged v
]

unfoldable pub chunk_version : ProfileId → ChunkPosition → WorldViews → Option ℕ
chunk_version profile at v = elim (v profile) [
  | none ↦ none
  | some view ↦ elim (find_chunk at (chunks_of view.chunks)) [
    | none ↦ none
    | some c ↦ some c.version
  ]
]

unfoldable pub chunks_count : WorldView → ℕ
chunks_count view = length (chunks_of view.chunks)
