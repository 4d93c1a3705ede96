-- ===== src/Core/Command.antt =====
-- orchestrator/internal/engine/core/command.go and sync.go: commands are validated against the world
-- and a shadow of the batch, and applied in the order of their systems.
use minecraft_orchestrator.Base.{
  ℕ, ◌+◌, ◌%◌, ◌^◌, Bool, true, false, ◌&&◌, ◌||◌, ◌==◌, ltb, if◌then◌else◌, Option, none, some,
  List, [], ◌∷◌, ◌++◌, length, update,
}
use minecraft_orchestrator.Model.Types.{ProfileId}
use minecraft_orchestrator.Model.Mask.{Mask}
use minecraft_orchestrator.Core.Outcome.{
  Entity, bot_mapped, bot_in_batch, destroyed_in_batch, wrong_archetype, Result, ok, err, panic,
  guard, ◌>>=◌, ◌>>◌,
}
use minecraft_orchestrator.Core.Table.{Bundle, validate}
use minecraft_orchestrator.Core.World.{
  World, M, Command, create_command, Envelop, bundle, profile_of, create_now, destroy_now,
  migrate_now, ensure_table, pending_commands,
}

-- The entities that the batch has touched, newest first, and the profiles as the batch leaves them.
pub record ShadowEntity : Type 0 where
  pub alive : Bool
  pub bundle : Bundle

pub record ShadowState : Type 0 where
  pub entities : List (Entity × ShadowEntity)
  pub bots : ProfileId → Option Entity

unfoldable pub new_shadow_state : World → ShadowState
new_shadow_state w = record { entities = []; bots = w.bot_index }

same_entity : Entity → Entity → Bool
same_entity a b = a.index == b.index && a.generation == b.generation

unfoldable pub find_shadow : Entity → List (Entity × ShadowEntity) → Option ShadowEntity
unfolding same_entity
find_shadow e [] = none
find_shadow e ((f, s) ∷ rest) = if same_entity e f then some s else find_shadow e rest

-- shadowState.entity: the shadow after the lookup, and the entity's state in it.
unfoldable pub shadow_entity : World → ShadowState → Entity → Result (ShadowState × ShadowEntity)
shadow_entity w s e = elim (find_shadow e s.entities) [
  | some found ↦ if found.alive then ok (s, found) else err (destroyed_in_batch e)
  | none ↦ do
    b ← bundle w e
    let state : ShadowEntity = record { alive = true; bundle = b }
    ok (record s { entities = (e, state) ∷ s.entities }, state)
]

pub data ValidatedCommand : Type 0 where
  validated_create : Bundle → ValidatedCommand
  validated_destroy : Entity → ValidatedCommand
  validated_migrate : Entity → Mask → Bundle → ValidatedCommand

unit_of : {A : Type 0} → World × Result A → World × Result (Unit {0})
unit_of (w, ok a) = (w, ok tt)
unit_of (w, err e) = (w, err e)
unit_of (w, panic) = (w, panic)

unfoldable pub apply : ValidatedCommand → M (Unit {0})
unfolding unit_of
apply (validated_create b) w = unit_of (create_now b w)
apply (validated_destroy e) w = destroy_now e w
apply (validated_migrate e source destination) w = migrate_now e source destination w

unfoldable pub destination_mask : ValidatedCommand → Option Mask
destination_mask (validated_create b) = some b.mask
destination_mask (validated_destroy e) = none
destination_mask (validated_migrate e source destination) = some destination.mask

unfoldable pub declared_affected : Command → List Mask
declared_affected (create_command b) = b.mask ∷ []

-- The profile of a bundle to create must be neither in the world nor in the batch, and is reserved.
abbrev pub reserve_bot : World → ShadowState → Option ProfileId → Result ShadowState
reserve_bot w s none = ok s
reserve_bot w s (some p) = elim (w.bot_index p) [
  | some e ↦ err (bot_mapped p e)
  | none ↦ elim (s.bots p) [
    | some e ↦ err (bot_in_batch p)
    | none ↦ ok (record s { bots = update s.bots p (some (record { index = 0; generation = 0 })) })
  ]
]

unfoldable pub validate_command :
    World → ShadowState → Command → Result (ShadowState × ValidatedCommand)
validate_command w s (create_command b) = do
  validate b
  profile ← profile_of b
  s' ← reserve_bot w s profile
  ok (s', validated_create b)

abbrev drop_bot : Option ProfileId → (ProfileId → Option Entity) → ProfileId → Option Entity
drop_bot none bots = bots
drop_bot (some p) bots = update bots p none

-- DestroyCommand.validate. The expected mask 0 accepts any.
unfoldable pub validate_destroy :
    World → ShadowState → Entity → Mask → Result (ShadowState × ValidatedCommand)
validate_destroy w s e expected = do
  (s', state) ← shadow_entity w s e
  guard (expected == 0 || state.bundle.mask == expected)
      (wrong_archetype e expected state.bundle.mask)
  profile ← profile_of state.bundle
  let dead : ShadowEntity = record state { alive = false }
  ok (
    record { entities = (e, dead) ∷ s'.entities; bots = drop_bot profile s'.bots },
    validated_destroy e,
  )

pub record CommandBuffer : Type 0 where
  pub system_order : ℕ
  pub next : ℕ
  pub commands : List Envelop

unfoldable pub new_command_buffer : ℕ → CommandBuffer
new_command_buffer order = record { system_order = order; next = 0; commands = [] }

-- CommandBuffer.Stage; the sequence number is a uint64, which wraps.
unfoldable pub stage_command : CommandBuffer → Command → CommandBuffer
stage_command b c = record b {
  commands =
      b.commands ++ record { system_order = b.system_order; sequence = b.next; command = c } ∷ [];
  next = (b.next + 1) % 2 ^ 64;
}

unfoldable pub buffer_len : CommandBuffer → ℕ
buffer_len b = length b.commands

unfoldable pub envelopes : CommandBuffer → List Envelop
envelopes b = b.commands

-- The comparison of slices.SortStableFunc: by system, then by sequence.
unfoldable pub envelop_before : Envelop → Envelop → Bool
envelop_before a b =
    ltb a.system_order b.system_order
    || (a.system_order == b.system_order && ltb a.sequence b.sequence)

-- A stable sort: an element goes before the first that it is not after.
unfoldable pub insert_envelop : Envelop → List Envelop → List Envelop
insert_envelop e [] = e ∷ []
insert_envelop e (f ∷ fs) = if envelop_before f e then f ∷ insert_envelop e fs else e ∷ f ∷ fs

unfoldable pub sort_envelops : List Envelop → List Envelop
sort_envelops [] = []
sort_envelops (e ∷ es) = insert_envelop e (sort_envelops es)

unfoldable pub validate_all : World → ShadowState → List Envelop → Result (List ValidatedCommand)
validate_all w s [] = ok []
validate_all w s (e ∷ es) = do
  (s', command) ← validate_command w s e.command
  rest ← validate_all w s' es
  ok (command ∷ rest)

-- Storage is reserved before any change; all that can be seen of it is that the tables exist.
unfoldable pub reserve : List ValidatedCommand → World → World
reserve [] w = w
reserve (c ∷ cs) w =
    reserve cs (elim (destination_mask c) [ none ↦ w | some m ↦ (ensure_table m w).0 ])

abbrev pub then_apply :
    World × Result (Unit {0}) → (World → World × Result (Unit {0})) → World × Result (Unit {0})
then_apply (w, ok u) k = k w
then_apply (w, err e) k = (w, err e)
then_apply (w, panic) k = (w, panic)

unfoldable pub apply_all : List ValidatedCommand → World → World × Result (Unit {0})
apply_all [] w = (w, ok tt)
apply_all (c ∷ cs) w = then_apply (apply c w) (λ v. apply_all cs v)

abbrev pub commit : World → Result (List ValidatedCommand) → World × Result (Unit {0})
commit w (err e) = (w, err e)
commit w panic = (w, panic)
commit w (ok commands) =
    then_apply (apply_all commands (reserve commands w))
      (λ v. (record v { queue = []; dirty = [] }, ok tt))

-- Sync: the queue is sorted in place, also where validation then fails.
unfoldable pub sync : World → World × Result (Unit {0})
sync w =
    let sorted = record w { queue = sort_envelops w.queue } in
    if pending_commands w == 0
    then (record w { dirty = [] }, ok tt)
    else commit sorted (validate_all sorted (new_shadow_state sorted) sorted.queue)
