-- ===== src/Model/Mask.antt =====
-- Component and Mask of orchestrator/internal/engine/model/components.go. A Mask is the number of
-- its uint64; the panic of Bit from 64 on cannot arise, since a Component is one of twelve.
use minecraft_orchestrator.Base.{
  ℕ, ◌^◌, Bool, not, ◌==◌, Option, List, [], ◌∷◌, bit_and, bit_or, get_elem?,
}

pub data Component : Type 0 where
  c_position c_velocity c_health c_hunger c_bot c_rotation c_game_mode c_session : Component
  c_inventory c_effects c_utility_ai c_controller_sync : Component

abbrev pub Mask : Type 0
Mask = ℕ

abbrev pub component_count : ℕ
component_count = 12

abbrev pub index : Component → ℕ
index c_position = 0
index c_velocity = 1
index c_health = 2
index c_hunger = 3
index c_bot = 4
index c_rotation = 5
index c_game_mode = 6
index c_session = 7
index c_inventory = 8
index c_effects = 9
index c_utility_ai = 10
index c_controller_sync = 11

-- The loop `for c := range ComponentCount`.
abbrev pub all_components : List Component
all_components =
    c_position ∷ c_velocity ∷ c_health ∷ c_hunger ∷ c_bot ∷ c_rotation ∷ c_game_mode ∷ c_session
    ∷ c_inventory ∷ c_effects ∷ c_utility_ai ∷ c_controller_sync ∷ []

-- `none` is the error on a value that no component has.
unfoldable pub parse_component : ℕ → Option Component
parse_component v = get_elem? all_components v

abbrev pub bit : Component → Mask
bit c = 2 ^ index c

unfoldable pub components : List Component → Mask
components [] = 0
components (c ∷ cs) = bit_or (bit c) (components cs)

unfoldable pub contains : Mask → Mask → Bool
contains m candidate = bit_and m candidate == candidate

unfoldable pub has : Mask → Component → Bool
has m c = not (bit_and m (bit c) == 0)

unfoldable pub intersects : Mask → Mask → Bool
intersects m other = not (bit_and m other == 0)

unfoldable pub equals : Mask → Mask → Bool
equals m other = m == other

unfoldable pub mirrored_bot_mask : Mask
unfolding components
mirrored_bot_mask = components (
    c_position ∷ c_velocity ∷ c_health ∷ c_hunger ∷ c_bot ∷ c_rotation ∷ c_game_mode ∷ c_session
    ∷ c_inventory ∷ c_effects ∷ c_utility_ai ∷ c_controller_sync ∷ [])
