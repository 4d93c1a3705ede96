-- ===== src/Model/Controller.antt =====
-- ControllerState of orchestrator/internal/engine/model/utility_ai.go: the desired targets of a
-- bot's controller, their normalisation, and the delta that is sent.
pub mod Laws
pub mod Delta
use minecraft_orchestrator.Base.{
  ℕ, Bool, true, false, not, ◌&&◌, ◌||◌, ◌==◌, if◌then◌else◌, Option, none, some, List, [], ◌∷◌,
  ◌++◌,
}
use Prim.Native.String.{String}
use text.Mathlib.Text.{◌==◌ as str_eq}
use minecraft_orchestrator.Model.Types.{Int32, BlockPosition, CraftTarget, PlaceTarget}

pub data ControllerField : Type 0 where
  field_goto field_break field_attack field_craft field_equip field_place field_consume :
      ControllerField

pub record ControllerState : Type 0 where
  pub goto_target : Option BlockPosition
  pub break_target : Option BlockPosition
  pub attack_target : Option Int32
  pub craft_target : Option CraftTarget
  pub equip_target : Option String
  pub consume_target : Option String
  pub place_target : Option PlaceTarget

pub record ControllerStateDelta : Type 0 where
  pub state : ControllerState
  pub clear_fields : List ControllerField

unfoldable pub empty_controller_state : ControllerState
empty_controller_state = record {
  goto_target = none;
  break_target = none;
  attack_target = none;
  craft_target = none;
  equip_target = none;
  consume_target = none;
  place_target = none;
}

abbrev pub is_some {ℓ} : {A : Type ℓ} → Option A → Bool
is_some none = false
is_some (some a) = true

abbrev pub is_empty {ℓ} : {A : Type ℓ} → List A → Bool
is_empty [] = true
is_empty (x ∷ xs) = false

-- `new(T); *p = *q`: a fresh cell with the same value.
abbrev pub copy_cell {ℓ} : {A : Type ℓ} → Option A → Option A
copy_cell none = none
copy_cell (some a) = some a

unfoldable pub clone : ControllerState → ControllerState
clone s = record {
  goto_target = copy_cell s.goto_target;
  break_target = copy_cell s.break_target;
  attack_target = copy_cell s.attack_target;
  craft_target = copy_cell s.craft_target;
  equip_target = copy_cell s.equip_target;
  consume_target = copy_cell s.consume_target;
  place_target = copy_cell s.place_target;
}

unfoldable pub has_any : ControllerState → Bool
has_any s =
    is_some s.goto_target
    || is_some s.break_target
    || is_some s.attack_target
    || is_some s.craft_target
    || is_some s.equip_target
    || is_some s.consume_target
    || is_some s.place_target

-- A comparison of pointers to comparable values: both nil, or both set and equal.
abbrev pub ptr_equal {ℓ} : {A : Type ℓ} → (A → A → Bool) → Option A → Option A → Bool
ptr_equal eq none none = true
ptr_equal eq none (some b) = false
ptr_equal eq (some a) none = false
ptr_equal eq (some a) (some b) = eq a b

unfoldable pub block_pos_equal : Option BlockPosition → Option BlockPosition → Bool
block_pos_equal = ptr_equal (λ a b. a.x == b.x && a.y == b.y && a.z == b.z)

unfoldable pub int32_ptr_equal : Option Int32 → Option Int32 → Bool
int32_ptr_equal = ptr_equal (λ a b. a == b)

unfoldable pub string_ptr_equal : Option String → Option String → Bool
string_ptr_equal = ptr_equal str_eq

unfoldable pub craft_target_equal : Option CraftTarget → Option CraftTarget → Bool
craft_target_equal = ptr_equal (λ a b. str_eq a.item_name b.item_name && a.count == b.count)

unfoldable pub place_target_equal : Option PlaceTarget → Option PlaceTarget → Bool
place_target_equal = ptr_equal (λ a b.
    a.x == b.x
    && a.y == b.y
    && a.z == b.z
    && a.face_x == b.face_x
    && a.face_y == b.face_y
    && a.face_z == b.face_z)

-- `other` is `none` where the method is given nil.
unfoldable pub equal : ControllerState → Option ControllerState → Bool
unfolding has_any
equal s none = not (has_any s)
equal s (some o) =
    block_pos_equal s.goto_target o.goto_target
    && block_pos_equal s.break_target o.break_target
    && int32_ptr_equal s.attack_target o.attack_target
    && craft_target_equal s.craft_target o.craft_target
    && string_ptr_equal s.equip_target o.equip_target
    && string_ptr_equal s.consume_target o.consume_target
    && place_target_equal s.place_target o.place_target

unfoldable pub validate_controller_state : ControllerState → ControllerState
validate_controller_state out =
    if is_some out.break_target
    then record out {
      attack_target = none;
      craft_target = none;
      place_target = none;
      consume_target = none;
    }
    else if is_some out.attack_target
    then record out {
      break_target = none;
      craft_target = none;
      place_target = none;
      consume_target = none;
    }
    else if is_some out.craft_target
    then record out {
      break_target = none;
      attack_target = none;
      place_target = none;
      consume_target = none;
    }
    else if is_some out.place_target
    then record out {
      break_target = none;
      attack_target = none;
      craft_target = none;
      consume_target = none;
    }
    else if is_some out.consume_target
    then record out {
      break_target = none;
      attack_target = none;
      craft_target = none;
      place_target = none;
    }
    else out

unfoldable pub delta_has_any : Option ControllerStateDelta → Bool
unfolding has_any
delta_has_any none = false
delta_has_any (some d) = has_any d.state || not (is_empty d.clear_fields)

unfoldable pub field_index : ControllerField → ℕ
field_index field_goto = 1
field_index field_break = 2
field_index field_attack = 3
field_index field_craft = 4
field_index field_equip = 5
field_index field_place = 6
field_index field_consume = 7

unfoldable pub contains_field : ControllerField → List ControllerField → Bool
contains_field f [] = false
contains_field f (g ∷ gs) = field_index f == field_index g || contains_field f gs

unfoldable pub clears : Option ControllerStateDelta → ControllerField → Bool
clears none field = false
clears (some d) field = contains_field field d.clear_fields

-- One `if` of DiffControllerState: the field that it appends to the clears, and the target it sets.
abbrev pub clear_of {ℓ} : {A : Type ℓ} → Bool → ControllerField → Option A → List ControllerField
clear_of true field cur = []
clear_of false field none = field ∷ []
clear_of false field (some a) = []

abbrev pub set_of {ℓ} : {A : Type ℓ} → Bool → Option A → Option A
set_of true cur = none
set_of false cur = cur

-- What the seven `if`s collect, over the results of their comparisons.
unfoldable pub delta_of : (g b a c e s p : Bool) → ControllerState → ControllerStateDelta
delta_of g b a c e s p cur = record {
  state = record {
    goto_target = set_of g cur.goto_target;
    break_target = set_of b cur.break_target;
    attack_target = set_of a cur.attack_target;
    craft_target = set_of c cur.craft_target;
    equip_target = set_of e cur.equip_target;
    consume_target = set_of s cur.consume_target;
    place_target = set_of p cur.place_target;
  };
  clear_fields =
      clear_of g field_goto cur.goto_target
      ++ (clear_of b field_break cur.break_target
          ++ (clear_of a field_attack cur.attack_target
              ++ (clear_of c field_craft cur.craft_target
                  ++ (clear_of e field_equip cur.equip_target
                      ++ (clear_of s field_consume cur.consume_target
                          ++ clear_of p field_place cur.place_target)))));
}

unfoldable pub diff_controller_state :
    ControllerState → ControllerState → Option ControllerStateDelta
diff_controller_state last cur =
    let delta =
      delta_of (block_pos_equal last.goto_target cur.goto_target)
        (block_pos_equal last.break_target cur.break_target)
        (int32_ptr_equal last.attack_target cur.attack_target)
        (craft_target_equal last.craft_target cur.craft_target)
        (string_ptr_equal last.equip_target cur.equip_target)
        (string_ptr_equal last.consume_target cur.consume_target)
        (place_target_equal last.place_target cur.place_target) cur in
    if delta_has_any (some delta) then some delta else none
