-- ===== src/Systems/Feedback/Laws.antt =====
-- What a batch of changes leaves known of one entity.
use minecraft_orchestrator.Base.{◌==◌, if◌then◌else◌, List, [], ◌∷◌, ==-cases, inl, inr, ◌≡◌, arith}
use minecraft_orchestrator.Model.Types.{Int32, ProfileId}
use minecraft_orchestrator.Model.Entities.{
  EntityViews, add_entities, remove_entities, move_entities,
}
use minecraft_orchestrator.Model.Entities.Laws.{
  last_with, over, listed, unless, move_over, entity_of, entity_of-add_entities,
  entity_of-remove_entities, entity_of-move_entities,
}
use minecraft_orchestrator.Network.{Entity, EntityChanges}
use minecraft_orchestrator.Systems.Feedback.{to_model_entities, unless_empty, apply_changes}

added-entity_of :
    (p q : ProfileId) (id : Int32) (es : List Entity) (v : EntityViews)
    → entity_of q id (unless_empty (λ xs. add_entities p (to_model_entities xs)) es v) ≡ (
        if p == q
        then over (last_with id (to_model_entities es)) (entity_of q id v)
        else entity_of q id v)
unfolding to_model_entities last_with
added-entity_of p q id [] v = ground arith
added-entity_of p q id (e ∷ es) v = entity_of-add_entities p q id (to_model_entities (e ∷ es)) v

removed-entity_of :
    (p q : ProfileId) (id : Int32) (is : List Int32) (v : EntityViews)
    → entity_of q id (unless_empty (remove_entities p) is v)
      ≡ (if p == q then unless (listed id is) (entity_of q id v) else entity_of q id v)
unfolding listed
removed-entity_of p q id [] v = ground arith
removed-entity_of p q id (i ∷ is) v = entity_of-remove_entities p q id (i ∷ is) v

moved-entity_of :
    (p q : ProfileId) (id : Int32) (es : List Entity) (v : EntityViews)
    → entity_of q id (unless_empty (λ xs. move_entities p (to_model_entities xs)) es v) ≡ (
        if p == q
        then move_over (last_with id (to_model_entities es)) (entity_of q id v)
        else entity_of q id v)
unfolding to_model_entities last_with
moved-entity_of p q id [] v = ground arith
moved-entity_of p q id (e ∷ es) v = entity_of-move_entities p q id (to_model_entities (e ∷ es)) v

pub entity_of-apply_changes :
    (p q : ProfileId) (id : Int32) (changes : EntityChanges) (v : EntityViews)
    → entity_of q id (apply_changes p changes v) ≡ (
        if p == q
        then move_over (last_with id (to_model_entities changes.moved)) (
            unless
              (listed id changes.removed)
              (over (last_with id (to_model_entities changes.added)) (entity_of q id v)))
        else entity_of q id v)
unfolding apply_changes
entity_of-apply_changes p q id changes v =
    let added = unless_empty (λ es. add_entities p (to_model_entities es)) changes.added v in
    let removed = unless_empty (remove_entities p) changes.removed added in
    elim (==-cases p q) [
      | inl same ↦ grind (
        arith,
        same,
        moved-entity_of p q id changes.moved removed,
        removed-entity_of p q id changes.removed added,
        added-entity_of p q id changes.added v,
      )
      | inr other ↦ grind (
        arith,
        other,
        moved-entity_of p q id changes.moved removed,
        removed-entity_of p q id changes.removed added,
        added-entity_of p q id changes.added v,
      )
    ]
