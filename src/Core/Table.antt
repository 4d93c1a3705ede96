-- ===== src/Core/Table.antt =====
-- orchestrator/internal/engine/core/table.go: bundles of component values, and tables with a column
-- for each component of their mask. A column is the list of its values; capacity is not modelled.
use minecraft_orchestrator.Base.{
  ℕ, ◌-◌, Bool, true, not, ◌&&◌, ◌||◌, ◌==◌, ltb, if◌then◌else◌, Option, none, some, List, [], ◌∷◌,
  ◌++◌, length, get_elem?, set, take,
}
use minecraft_orchestrator.Model.Mask.{
  Component, Mask, index, has, bit, all_components, c_health, c_bot,
}
use minecraft_orchestrator.Model.Components.{
  Value, nil, health_value, bot_value, is_of, is_negative, clone_component,
}
use minecraft_orchestrator.Core.Outcome.{
  Entity, empty_mask, negative_max_health, zero_profile, mask_mismatch, row_out_of_range, Result,
  ok, err, panic, guard, ◌>>=◌, ◌>>◌,
}

pub record Bundle : Type 0 where
  pub mask : Mask
  pub components : Component → Value

abbrev same_component : Component → Component → Bool
same_component c d = index c == index d

unfoldable pub set_component : Bundle → Component → Value → Bundle
set_component b c data_of = record {
  mask = Prim.Native.Nat.bit_or b.mask (bit c);
  components = λ d. if same_component c d then data_of else b.components d;
}

unfoldable pub get_component : Bundle → Component → Value
get_component b c = if has b.mask c then b.components c else nil

-- The check of a value that a mask announces; a value of another type panics.
validate_health : Value → Result (Unit {0})
validate_health (health_value h) = guard (not (is_negative h.max)) negative_max_health
validate_health _ = panic

validate_bot : Value → Result (Unit {0})
validate_bot (bot_value b) = guard (not (b.profile_id == 0)) zero_profile
validate_bot _ = panic

unfoldable pub validate : Bundle → Result (Unit {0})
unfolding validate_health validate_bot
validate b = do
  guard (not (b.mask == 0)) empty_mask
  if has b.mask c_health then validate_health (b.components c_health) else ok tt
  if has b.mask c_bot then validate_bot (b.components c_bot) else ok tt

pub record Table : Type 0 where
  pub mask : Mask
  pub entities : List Entity
  pub columns : Component → List Value

-- Every component of a mask has a column; the columns of the others are never read.
unfoldable pub new_table : Mask → Table
new_table mask = record { mask = mask; entities = []; columns = λ c. [] }

-- The loop over the components of a mask, with a test for each.
unfoldable pub all_of : Mask → (Component → Bool) → List Component → Bool
all_of mask test [] = true
all_of mask test (c ∷ cs) = (not (has mask c) || test c) && all_of mask test cs

-- AddEntity, with the row that it returns.
unfoldable pub add_entity : Table → Entity → Bundle → Result (Table × ℕ)
add_entity t e b =
    if not (b.mask == t.mask)
    then err (mask_mismatch b.mask t.mask)
    else if all_of t.mask (λ c. is_of c (b.components c)) all_components
    then ok (
      record t {
        entities = t.entities ++ e ∷ [];
        columns = λ c.
            if has t.mask c
            then t.columns c ++ clone_component c (b.components c) ∷ []
            else t.columns c;
      },
      length t.entities,
    )
    else panic

abbrev pub get_or_nil : List Value → ℕ → Value
get_or_nil vs row = elim (get_elem? vs row) [ none ↦ nil | some v ↦ v ]

-- bundleAt, which panics where a column has no such row.
unfoldable pub bundle_at : Table → ℕ → Result Bundle
bundle_at t row =
    if all_of t.mask (λ c. ltb row (length (t.columns c))) all_components
    then ok (record {
      mask = t.mask;
      components =
          λ c. if has t.mask c then clone_component c (get_or_nil (t.columns c) row) else nil;
    })
    else panic

-- The last element moves into the row, and the list loses its last place.
unfoldable pub swap_remove {ℓ} : {A : Type ℓ} → List A → ℕ → List A
swap_remove xs row =
    let last = length xs - 1 in
    elim (get_elem? xs last) [
      | none ↦ take last xs
      | some x ↦ take last (if row == last then xs else set xs row x)
    ]

-- removeSwap: the removed bundle, and the entity that moved into the row, if one did.
unfoldable pub remove_swap : Table → ℕ → Result (Table × Bundle × Option Entity)
remove_swap t row = do
  guard (ltb row (length t.entities)) (row_out_of_range row)
  removed ← bundle_at t row
  let last = length t.entities - 1
  ok (
    record t {
      entities = swap_remove t.entities row;
      columns = λ c. if has t.mask c then swap_remove (t.columns c) row else t.columns c;
    },
    removed,
    if row == last then none else get_elem? t.entities last,
  )
