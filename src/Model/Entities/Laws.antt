-- ===== src/Model/Entities/Laws.antt =====
-- What a batch of changes leaves known of one entity, whatever the length of its lists.
use minecraft_orchestrator.Base.{
  Bool, true, false, ◌==◌, Option-cases, if◌then◌else◌, Option, none, some, List, [], ◌∷◌, update,
  ==-cases, inl, inr, ◌≡◌, refl, arith,
}
use minecraft_orchestrator.Model.Types.{Int32, ProfileId}
use minecraft_orchestrator.Model.Entities.{
  Entity, Known, EntityViews, known_of, add_all, remove_all, moved, move_one, move_all,
  add_entities, remove_entities, move_entities,
}

-- The last entry of the list with an identifier.
unfoldable pub last_with : Int32 → List Entity → Option Entity
last_with id [] = none
last_with id (e ∷ es) = elim (last_with id es) [
  | some f ↦ some f
  | none ↦ if e.id == id then some e else none
]

abbrev pub over : Option Entity → Option Entity → Option Entity
over none before = before
over (some e) before = some e

unfoldable pub listed : Int32 → List Int32 → Bool
listed id [] = false
listed id (i ∷ is) = if i == id then true else listed id is

abbrev pub unless : Bool → Option Entity → Option Entity
unless true before = none
unless false before = before

abbrev pub move_over : Option Entity → Option Entity → Option Entity
move_over none before = before
move_over (some e) before = moved e before

add_all_lem :
    (es : List Entity) (m : Known) (id : Int32) → add_all es m id ≡ over (last_with id es) (m id)
unfolding add_all last_with
add_all_lem [] m id = refl
add_all_lem (e ∷ es) m id = elim (Option-cases (last_with id es)) [
  | inl none_left ↦ elim (==-cases e.id id) [
    | inl same ↦ grind (arith, none_left, same, add_all_lem es (update m e.id (some e)) id)
    | inr other ↦ grind (arith, none_left, other, add_all_lem es (update m e.id (some e)) id)
  ]
  | inr (f, found) ↦ grind (arith, found, add_all_lem es (update m e.id (some e)) id)
]

remove_all_lem :
    (is : List Int32) (m : Known) (id : Int32) → remove_all is m id ≡ unless (listed id is) (m id)
unfolding remove_all listed
remove_all_lem [] m id = refl
remove_all_lem (i ∷ is) m id = elim (==-cases i id) [
  | inl same ↦ grind (arith, same, remove_all_lem is (update m i none) id)
  | inr other ↦ grind (arith, other, remove_all_lem is (update m i none) id)
]

unless-none : (b : Bool) → unless b none ≡ none
unless-none true = refl
unless-none false = refl

moved_again : (e f : Entity) (o : Option Entity) → moved f (moved e o) ≡ moved f o
moved_again e f none = refl
moved_again e f (some x) = refl

move_one_at :
    (e : Entity) (m : Known) (id : Int32)
    → move_one e m (m e.id) id ≡ (if e.id == id then moved e (m id) else m id)
move_one_at e m id = elim (==-cases e.id id) [
  | inl same ↦ elim (Option-cases (m e.id)) [
    | inl unknown ↦ grind (arith, same, unknown)
    | inr (x, known) ↦ grind (arith, same, known)
  ]
  | inr other ↦ elim (Option-cases (m e.id)) [
    | inl unknown ↦ grind (arith, other, unknown)
    | inr (x, known) ↦ grind (arith, other, known)
  ]
]

move_all_lem :
    (es : List Entity) (m : Known) (id : Int32)
    → move_all es m id ≡ move_over (last_with id es) (m id)
unfolding move_all last_with
move_all_lem [] m id = refl
move_all_lem (e ∷ es) m id = elim (Option-cases (last_with id es)) [
  | inl none_left ↦ elim (==-cases e.id id) [
    | inl same ↦
        grind
          (arith, none_left, same, move_one_at e m id, move_all_lem es (move_one e m (m e.id)) id)
    | inr other ↦
        grind
          (arith, none_left, other, move_one_at e m id, move_all_lem es (move_one e m (m e.id)) id)
  ]
  | inr (f, found) ↦ elim (==-cases e.id id) [
    | inl same ↦ grind (
      arith,
      found,
      same,
      moved_again,
      move_one_at e m id,
      move_all_lem es (move_one e m (m e.id)) id,
    )
    | inr other ↦
        grind (arith, found, other, move_one_at e m id, move_all_lem es (move_one e m (m e.id)) id)
  ]
]

-- What is known of an entity in the view of a profile.
unfoldable pub entity_of : ProfileId → Int32 → EntityViews → Option Entity
entity_of profile id v = known_of (v profile) id

pub entity_of-add_entities :
    (p q : ProfileId) (id : Int32) (es : List Entity) (v : EntityViews)
    → entity_of q id (add_entities p es v)
      ≡ (if p == q then over (last_with id es) (entity_of q id v) else entity_of q id v)
unfolding entity_of add_entities
entity_of-add_entities p q id es v = elim (==-cases p q) [
  | inl same ↦ grind (arith, same, add_all_lem es (known_of (v p)) id)
  | inr other ↦ grind (arith, other)
]

pub entity_of-remove_entities :
    (p q : ProfileId) (id : Int32) (is : List Int32) (v : EntityViews)
    → entity_of q id (remove_entities p is v)
      ≡ (if p == q then unless (listed id is) (entity_of q id v) else entity_of q id v)
unfolding entity_of remove_entities
entity_of-remove_entities p q id is v = elim (Option-cases (v p)) [
  | inl unknown ↦ elim (==-cases p q) [
    | inl same ↦ grind (arith, same, unknown, unless-none (listed id is))
    | inr other ↦ grind (arith, other, unknown)
  ]
  | inr (m, known) ↦ elim (==-cases p q) [
    | inl same ↦ grind (arith, same, known, remove_all_lem is m id)
    | inr other ↦ grind (arith, other, known)
  ]
]

move_over-none : (o : Option Entity) → move_over o none ≡ none
move_over-none none = refl
move_over-none (some e) = refl

pub entity_of-move_entities :
    (p q : ProfileId) (id : Int32) (es : List Entity) (v : EntityViews)
    → entity_of q id (move_entities p es v)
      ≡ (if p == q then move_over (last_with id es) (entity_of q id v) else entity_of q id v)
unfolding entity_of move_entities
entity_of-move_entities p q id es v = elim (Option-cases (v p)) [
  | inl unknown ↦ elim (==-cases p q) [
    | inl same ↦ grind (arith, same, unknown, move_over-none (last_with id es))
    | inr other ↦ grind (arith, other, unknown)
  ]
  | inr (m, known) ↦ elim (==-cases p q) [
    | inl same ↦ grind (arith, same, known, move_all_lem es m id)
    | inr other ↦ grind (arith, other, known)
  ]
]
