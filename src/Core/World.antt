-- ===== src/Core/World.antt =====
-- orchestrator/internal/engine/core/world.go: the record of every entity, the tables by mask, and the
-- operations that create, destroy and migrate an entity at once. A map is a function into `Option`;
-- the last free index is the head of `free`. The singleton resources are not modelled.
use minecraft_orchestrator.Base.{
  ℕ, ◌+◌, ◌%◌, ◌^◌, Bool, true, false, not, ◌||◌, ◌==◌, ltb, leb, if◌then◌else◌, Option, none, some,
  List, [], ◌∷◌, ◌++◌, length, get_elem?, set, update,
}
use minecraft_orchestrator.Model.Types.{ProfileId}
use minecraft_orchestrator.Model.Mask.{Mask, contains, has, c_bot}
use minecraft_orchestrator.Model.Components.{Value, bot_value}
use minecraft_orchestrator.Core.Outcome
use minecraft_orchestrator.Core.Outcome.{
  Entity, Error, corrupted_bot, bot_mapped, invalid_index, stale_or_dead, wrong_archetype, Result,
  ok, err, panic, guard,
}
use minecraft_orchestrator.Core.Table.{
  Bundle, Table, validate, get_component, new_table, add_entity, bundle_at, remove_swap,
}

pub record Location : Type 0 where
  pub mask : Mask
  pub row : ℕ
  pub generation : ℕ
  pub alive : Bool

-- CreateCommand is the one type that implements Command.
pub data Command : Type 0 where
  create_command : Bundle → Command

pub record Envelop : Type 0 where
  pub system_order : ℕ
  pub sequence : ℕ
  pub command : Command

pub record World : Type 0 where
  pub tables : Mask → Option Table
  pub table_order : List Mask
  pub locations : List Location
  pub generations : List ℕ
  pub free : List ℕ
  pub bot_index : ProfileId → Option Entity
  pub queue : List Envelop
  pub dirty : List Mask

abbrev pub no_location : Location
no_location = record { mask = 0; row = 0; generation = 0; alive = false }

-- Index 0 is reserved, so that a zero Entity is always invalid.
unfoldable pub new_world : World
new_world = record {
  tables = λ m. none;
  table_order = [];
  locations = no_location ∷ [];
  generations = 0 ∷ [];
  free = [];
  bot_index = λ p. none;
  queue = [];
  dirty = [];
}

-- An operation on the world. What it did before an error stays done.
abbrev pub M : Type 0 → Type 0
M A = World → World × Result A

abbrev pub run_then : {A B : Type 0} → World × Result A → (A → M B) → World × Result B
run_then (w, ok a) f = f a w
run_then (w, err e) f = (w, err e)
run_then (w, panic) f = (w, panic)

infixl 5 ◌>>=◌ ◌>>◌
abbrev pub ◌>>=◌ : {A B : Type 0} → M A → (A → M B) → M B
◌>>=◌ m f w = run_then (m w) f

abbrev pub ◌>>◌ : {B : Type 0} → M (Unit {0}) → M B → M B
◌>>◌ m k w = run_then (m w) (λ _. k)

abbrev pub lift : {A : Type 0} → Result A → M A
lift r w = (w, r)

abbrev pub asks : {A : Type 0} → (World → A) → M A
asks f w = (w, ok (f w))

abbrev pub modify : (World → World) → M (Unit {0})
modify f w = (f w, ok tt)

-- An index past the end of a slice panics.
abbrev pub or_panic : {A : Type 0} → Option A → Result A
or_panic none = panic
or_panic (some a) = ok a

unfoldable pub insert_mask : Mask → List Mask → List Mask
insert_mask m [] = m ∷ []
insert_mask m (n ∷ ns) = if leb m n then m ∷ n ∷ ns else n ∷ insert_mask m ns

-- slices.Sort.
unfoldable pub sort_masks : List Mask → List Mask
sort_masks [] = []
sort_masks (m ∷ ms) = insert_mask m (sort_masks ms)

unfoldable pub ensure_table : Mask → M (Unit {0})
ensure_table mask w = elim (w.tables mask) [
  | some t ↦ (w, ok tt)
  | none ↦ (
    record w {
      tables = update w.tables mask (some (new_table mask));
      table_order = sort_masks (w.table_order ++ mask ∷ []);
    },
    ok tt,
  )
]

-- The tables of a mask order whose mask contains what is required; every mask there has a table.
abbrev pub keep_table : Option Table → List Table → List Table
keep_table none ts = ts
keep_table (some t) ts = t ∷ ts

unfoldable pub matching_in : (Mask → Option Table) → Mask → List Mask → List Table
matching_in tables required [] = []
matching_in tables required (m ∷ ms) =
    let rest = matching_in tables required ms in
    if contains m required then keep_table (tables m) rest else rest

unfoldable pub matching : World → Mask → List Table
matching w required = matching_in w.tables required w.table_order

-- The conversion uint32(len(w.generations)) wraps.
unfoldable pub allocate_entity : M Entity
allocate_entity w = elim w.free [
  | index ∷ rest ↦ (
    record w { free = rest },
    elim (get_elem? w.generations index) [
      | none ↦ panic
      | some generation ↦ ok (record { index = index; generation = generation })
    ],
  )
  | [] ↦ (
    record w { generations = w.generations ++ 1 ∷ []; locations = w.locations ++ no_location ∷ [] },
    ok (record { index = length w.generations % 2 ^ 32; generation = 1 }),
  )
]

unfoldable pub resolve : World → Entity → Result Location
resolve w e =
    if e.index == 0 || leb (length w.locations) e.index
    then err (invalid_index e)
    else elim (get_elem? w.locations e.index) [
      | none ↦ panic
      | some loc ↦
          if not loc.alive || not (loc.generation == e.generation)
          then err (stale_or_dead e)
          else ok loc
    ]

-- The bundle of an entity; a location without a table is a nil dereference.
unfoldable pub bundle : World → Entity → Result Bundle
bundle w e =
    Outcome.◌>>=◌ (resolve w e)
      λ loc. Outcome.◌>>=◌ (or_panic (w.tables loc.mask)) λ t. bundle_at t loc.row

-- The profile of a bundle with a bot, by the checked assertion of the source.
abbrev pub bot_of : Value → Result (Option ProfileId)
bot_of (bot_value b) = ok (some b.profile_id)
bot_of _ = err corrupted_bot

unfoldable pub profile_of : Bundle → Result (Option ProfileId)
profile_of b = if has b.mask c_bot then bot_of (get_component b c_bot) else ok none

abbrev pub bot_is_free : (ProfileId → Option Entity) → Option ProfileId → Result (Unit {0})
bot_is_free bots none = ok tt
bot_is_free bots (some p) = elim (bots p) [ none ↦ ok tt | some e ↦ err (bot_mapped p e) ]

abbrev pub index_bot : Option ProfileId → Option Entity → World → World
index_bot none e w = w
index_bot (some p) e w = record w { bot_index = update w.bot_index p e }

unfoldable pub store_location : ℕ → Location → M (Unit {0})
store_location i loc w =
    if ltb i (length w.locations)
    then (record w { locations = set w.locations i loc }, ok tt)
    else (w, panic)

-- table.AddEntity on the table of a mask.
abbrev pub with_row : World → Mask → Result (Table × ℕ) → World × Result ℕ
with_row w mask (ok (t, row)) = (record w { tables = update w.tables mask (some t) }, ok row)
with_row w mask (err e) = (w, err e)
with_row w mask panic = (w, panic)

unfoldable pub add_row : Mask → Entity → Bundle → M ℕ
add_row mask e b w = elim (w.tables mask) [
  | none ↦ (w, panic)
  | some t ↦ with_row w mask (add_entity t e b)
]

unfoldable pub create_now : Bundle → M Entity
create_now b = do
  lift (validate b)
  profile ← lift (profile_of b)
  bots ← asks (λ w. w.bot_index)
  lift (bot_is_free bots profile)
  entity ← allocate_entity
  ensure_table b.mask
  row ← add_row b.mask entity b
  store_location entity.index
      (record { mask = b.mask; row = row; generation = entity.generation; alive = true })
  modify (index_bot profile (some entity))
  asks (λ w. entity)

-- table.removeSwap on the table of a mask.
abbrev pub without_row :
    World → Mask → Result (Table × Bundle × Option Entity) → World × Result (Bundle × Option Entity)
without_row w mask (ok (t, removed, moved)) =
    (record w { tables = update w.tables mask (some t) }, ok (removed, moved))
without_row w mask (err e) = (w, err e)
without_row w mask panic = (w, panic)

unfoldable pub remove_row : Mask → ℕ → M (Bundle × Option Entity)
remove_row mask row w = elim (w.tables mask) [
  | none ↦ (w, panic)
  | some t ↦ without_row w mask (remove_swap t row)
]

-- The entity that moved into a row is recorded there.
unfoldable pub relocate : Option Entity → ℕ → M (Unit {0})
relocate none row = lift (ok tt)
relocate (some moved) row = do
  locations ← asks (λ w. w.locations)
  loc ← lift (or_panic (get_elem? locations moved.index))
  store_location moved.index (record loc { row = row })

-- `w.generations[i]++` wraps.
unfoldable pub next_generation : ℕ → M ℕ
next_generation i w = elim (get_elem? w.generations i) [
  | none ↦ (w, panic)
  | some g ↦
      (record w { generations = set w.generations i ((g + 1) % 2 ^ 32) }, ok ((g + 1) % 2 ^ 32))
]

unfoldable pub destroy_now : Entity → M (Unit {0})
destroy_now entity = do
  w ← asks (λ w. w)
  loc ← lift (resolve w entity)
  (removed, moved) ← remove_row loc.mask loc.row
  relocate moved loc.row
  profile ← lift (profile_of removed)
  modify (index_bot profile none)
  generation ← next_generation entity.index
  store_location entity.index (record no_location { generation = generation })
  modify (λ v. record v { free = entity.index ∷ v.free })

unfoldable pub migrate_now : Entity → Mask → Bundle → M (Unit {0})
migrate_now entity expected dest = do
  w ← asks (λ w. w)
  loc ← lift (resolve w entity)
  lift (guard (loc.mask == expected) (wrong_archetype entity expected loc.mask))
  lift (validate dest)
  (removed, moved) ← remove_row loc.mask loc.row
  old_profile ← lift (profile_of removed)
  modify (index_bot old_profile none)
  relocate moved loc.row
  ensure_table dest.mask
  row ← add_row dest.mask entity dest
  store_location entity.index
      (record { mask = dest.mask; row = row; generation = entity.generation; alive = true })
  new_profile ← lift (profile_of dest)
  modify (index_bot new_profile (some entity))

-- QueryTouchesDirty, with the dirty mask that it reports; the source's map gives any such mask.
unfoldable pub query_touches_dirty : List Mask → Mask → Option Mask
query_touches_dirty [] required = none
query_touches_dirty (m ∷ ms) required =
    if contains m required then some m else query_touches_dirty ms required

unfoldable pub is_dirty : List Mask → Mask → Bool
is_dirty [] mask = false
is_dirty (m ∷ ms) mask = m == mask || is_dirty ms mask

-- Each declared mask joins the dirty set, where it is not there yet.
unfoldable pub mark_dirty : List Mask → List Mask → List Mask
mark_dirty [] dirty = dirty
mark_dirty (m ∷ ms) dirty = mark_dirty ms (if is_dirty dirty m then dirty else dirty ++ m ∷ [])

unfoldable pub stage : List Envelop → List Mask → World → World
stage envelops declared w = record w {
  queue = w.queue ++ envelops;
  dirty = mark_dirty declared w.dirty;
}

unfoldable pub bot_entity : World → Entity → Result Mask
bot_entity w e = Outcome.◌>>=◌ (resolve w e) λ loc. ok loc.mask

unfoldable pub pending_commands : World → ℕ
pending_commands w = length w.queue
