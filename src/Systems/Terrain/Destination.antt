-- ===== src/Systems/Terrain/Destination.antt =====
-- pickDestination (systems.go): thirty places drawn around a bot, each looked at from three blocks
-- below to three above. The draws of rand.IntN are parameters, as is the conversion of a coordinate
-- to an int32; `none` is a panic.
use minecraft_orchestrator.Base.{
  ℕ, zero, suc, ◌+◌, ◌-◌, ◌*◌, ◌%◌, ◌^◌, Bool, true, false, Option, none, some, List, [], ◌∷◌, ◌≡◌,
  refl, some_injective, none_ne_some, subst,
}
use minecraft_orchestrator.Model.Types.{Float64, Int32, ProfileId, Position, BlockPosition}
use minecraft_orchestrator.Model.WorldViews.{WorldViews}
use minecraft_orchestrator.Systems.Terrain.{can_stand_at}

-- The sum of two int32, which wraps.
abbrev pub int32_add : Int32 → Int32 → Int32
int32_add a b = (a + b) % 2 ^ 32

-- From -3 to 3.
abbrev pub heights : List Int32
heights = 0xfffffffd ∷ 0xfffffffe ∷ 0xffffffff ∷ 0 ∷ 1 ∷ 2 ∷ 3 ∷ []

abbrev pub found_or :
    Option Bool → BlockPosition → Option (Option BlockPosition) → Option (Option BlockPosition)
found_or none at rest = none
found_or (some true) at rest = some (some at)
found_or (some false) at rest = rest

unfoldable pub scan_heights :
    ProfileId → BlockPosition → List Int32 → WorldViews → Option (Option BlockPosition)
scan_heights profile from [] v = some none
scan_heights profile from (dy ∷ dys) v =
    let at : BlockPosition = record { x = from.x; y = int32_add from.y dy; z = from.z } in
    found_or (can_stand_at profile at.x at.y at.z v) at (scan_heights profile from dys v)

abbrev pub or_again :
    Option (Option BlockPosition) → Option (Option BlockPosition) → Option (Option BlockPosition)
or_again none rest = none
or_again (some none) rest = rest
or_again (some (some at)) rest = some (some at)

-- The place of one round; a draw less the radius wraps to an int32.
abbrev pub drawn_place : BlockPosition → Int32 → ℕ × ℕ → BlockPosition
drawn_place origin radius (a, b) = record {
  x = int32_add origin.x (a + 2 ^ 32 - radius);
  y = origin.y;
  z = int32_add origin.z (b + 2 ^ 32 - radius);
}

-- The rounds that are left; `draws k` are the draws of the round that leaves k more.
unfoldable pub draw_places :
    ℕ → ProfileId → BlockPosition → Int32 → (ℕ → ℕ × ℕ) → WorldViews → Option (Option BlockPosition)
unfolding scan_heights
draw_places zero profile origin radius draws v = some none
draw_places (suc rounds) profile origin radius draws v =
    or_again (scan_heights profile (drawn_place origin radius (draws rounds)) heights v)
      (draw_places rounds profile origin radius draws v)

-- `draw n` is the draw of the radius below n, and `places n` those of the thirty rounds below n.
unfoldable pub pick_destination :
    (Float64 → Int32)
    → (ℕ → ℕ)
    → (ℕ → ℕ → ℕ × ℕ)
    → ProfileId
    → Position
    → WorldViews
    → Option (Option BlockPosition)
unfolding draw_places
pick_destination to_int32 draw places profile pos v =
    let radius = 5 + draw 16 in
    let origin : BlockPosition = record {
      x = to_int32 pos.x;
      y = to_int32 pos.y;
      z = to_int32 pos.z;
    } in
    draw_places 30 profile origin radius (places (radius * 2 + 1)) v

abbrev CanStand : ProfileId → WorldViews → BlockPosition → Type 0
CanStand p v at = can_stand_at p at.x at.y at.z v ≡ some true

found_or-CanStand :
    (p : ProfileId) (v : WorldViews) (b : Option Bool) (from to : BlockPosition)
    (rest : Option (Option BlockPosition))
    → can_stand_at p from.x from.y from.z v ≡ b
    → (rest ≡ some (some to) → CanStand p v to)
    → found_or b from rest ≡ some (some to)
    → CanStand p v to
found_or-CanStand p v none from to rest e later h = absurd (none_ne_some h)
found_or-CanStand p v (some true) from to rest e later h =
    subst (CanStand p v) (some_injective (some_injective h)) e
found_or-CanStand p v (some false) from to rest e later h = later h

scan_heights-CanStand :
    (p : ProfileId) (from to : BlockPosition) (dys : List Int32) (v : WorldViews)
    → scan_heights p from dys v ≡ some (some to)
    → CanStand p v to
unfolding scan_heights
scan_heights-CanStand p from to [] v h = absurd (none_ne_some (some_injective h))
scan_heights-CanStand p from to (dy ∷ dys) v h =
    found_or-CanStand p v _ (record { x = from.x; y = int32_add from.y dy; z = from.z }) to
      (scan_heights p from dys v) refl (scan_heights-CanStand p from to dys v) h

or_again-CanStand :
    (p : ProfileId) (v : WorldViews) (o rest : Option (Option BlockPosition)) (to : BlockPosition)
    → (o ≡ some (some to) → CanStand p v to)
    → (rest ≡ some (some to) → CanStand p v to)
    → or_again o rest ≡ some (some to)
    → CanStand p v to
or_again-CanStand p v none rest to now later h = absurd (none_ne_some h)
or_again-CanStand p v (some none) rest to now later h = later h
or_again-CanStand p v (some (some at)) rest to now later h = now h

draw_places-CanStand :
    (rounds : ℕ) (p : ProfileId) (origin to : BlockPosition) (radius : Int32) (draws : ℕ → ℕ × ℕ)
    (v : WorldViews)
    → draw_places rounds p origin radius draws v ≡ some (some to)
    → CanStand p v to
unfolding draw_places
draw_places-CanStand zero p origin to radius draws v h = absurd (none_ne_some (some_injective h))
draw_places-CanStand (suc n) p origin to radius draws v h =
    or_again-CanStand p v _ (draw_places n p origin radius draws v) to
      (scan_heights-CanStand p _ to heights v) (draw_places-CanStand n p origin to radius draws v) h

-- Whatever is drawn in the thirty rounds, a destination that is picked is one where the bot can stand.
pub pick_destination-CanStand :
    (to_int32 : Float64 → Int32) (draw : ℕ → ℕ) (places : ℕ → ℕ → ℕ × ℕ) (p : ProfileId)
    (pos : Position) (v : WorldViews) (to : BlockPosition)
    → pick_destination to_int32 draw places p pos v ≡ some (some to)
    → can_stand_at p to.x to.y to.z v ≡ some true
unfolding pick_destination
pick_destination-CanStand to_int32 draw places p pos v to h =
    draw_places-CanStand 30 p _ to (5 + draw 16) (places ((5 + draw 16) * 2 + 1)) v h
