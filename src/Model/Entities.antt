-- ===== src/Model/Entities.antt =====
-- EntityViews and PerceptionView of orchestrator/internal/engine/model/resources.go. The map of a
-- profile's entities is a function into `Option`; a nil slice is the empty list. GetNearby, which
-- compares distances of floating point in the order of a map, is not modelled.
pub mod Laws
use minecraft_orchestrator.Base.{ℕ, Option, none, some, List, [], ◌∷◌, update}
use Prim.Native.String.{String}
use minecraft_orchestrator.Model.Types.{Int32, Float32, Float64, ProfileId, Position, BlockPosition}

pub record Entity : Type 0 where
  pub id : Int32
  pub name : String
  pub position : Position
  pub yaw : Float32
  pub pitch : Float32

abbrev pub Known : Type 0
Known = Int32 → Option Entity

abbrev pub EntityViews : Type 0
EntityViews = ProfileId → Option Known

abbrev pub known_of : Option Known → Known
known_of none = λ id. none
known_of (some m) = m

unfoldable pub add_all : List Entity → Known → Known
add_all [] m = m
add_all (e ∷ additions) m = add_all additions (update m e.id (some e))

unfoldable pub remove_all : List Int32 → Known → Known
remove_all [] m = m
remove_all (id ∷ ids) m = remove_all ids (update m id none)

-- An entity that is known moves, and keeps its name; another is passed over.
abbrev pub moved : Entity → Option Entity → Option Entity
moved e none = none
moved e (some existing) =
    some (record existing { position = e.position; yaw = e.yaw; pitch = e.pitch })

abbrev pub move_one : Entity → Known → Option Entity → Known
move_one e m none = m
move_one e m (some existing) = update m e.id (moved e (some existing))

unfoldable pub move_all : List Entity → Known → Known
move_all [] m = m
move_all (e ∷ moves) m = move_all moves (move_one e m (m e.id))

unfoldable pub add_entities : ProfileId → List Entity → EntityViews → EntityViews
add_entities profile additions v =
    update v profile (some (add_all additions (known_of (v profile))))

unfoldable pub remove_entities : ProfileId → List Int32 → EntityViews → EntityViews
remove_entities profile ids v = elim (v profile) [
  | none ↦ v
  | some m ↦ update v profile (some (remove_all ids m))
]

unfoldable pub move_entities : ProfileId → List Entity → EntityViews → EntityViews
move_entities profile moves v = elim (v profile) [
  | none ↦ v
  | some m ↦ update v profile (some (move_all moves m))
]

-- The copy of the map, or nil.
unfoldable pub get_all : ProfileId → EntityViews → Option Known
get_all profile v = v profile

pub record PerceivedEntity : Type 0 where
  pub id : Int32
  pub name : String
  pub position : Position
  pub distance : Float64
  pub angle : Float64

pub record PerceptionBlock : Type 0 where
  pub position : BlockPosition
  pub name : String
  pub distance : Float64
  pub angle : Float64
  pub visible_face : BlockPosition
