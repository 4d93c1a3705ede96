-- ===== src/Model/Controller/Laws.antt =====
-- What the comparison, the normalisation and the delta of controller states mean.
use minecraft_orchestrator.Base.{
  Bool, true, false, ◌&&◌, ◌||◌, none, some, List, [], ◌∷◌, arith, ◌≡◌, refl, subst, ap, ◌⊎◌, ◌↔◌,
  ==_iff,
}
use text.Mathlib.TextEquality.{eq_iff}
use minecraft_orchestrator.Model.Controller.{
  ControllerState, is_some, ptr_equal, equal, block_pos_equal, int32_ptr_equal, string_ptr_equal,
  craft_target_equal, place_target_equal, validate_controller_state,
}

-- A comparison that decides equality.
abbrev pub Decides {ℓ} : {A : Type ℓ} → (A → A → Bool) → Type ℓ
Decides {A} eq = (a b : A) → (eq a b ≡ true) ↔ (a ≡ b)

ptr_equal-Decides {ℓ} : {A : Type ℓ} (eq : A → A → Bool) → Decides eq → Decides (ptr_equal eq)
ptr_equal-Decides eq d none none = (λ h. refl, λ h. refl)
ptr_equal-Decides eq d none (some b) = (λ h. cc, λ h. cc)
ptr_equal-Decides eq d (some a) none = (λ h. cc, λ h. cc)
ptr_equal-Decides eq d (some a) (some b) = (λ h. ap some ((d a b).0 h), λ h. (d a b).1 (cc))

pub block_pos_equal_iff : Decides block_pos_equal
unfolding block_pos_equal
block_pos_equal_iff = ptr_equal-Decides _ (λ a b. ground arith)

pub int32_ptr_equal_iff : Decides int32_ptr_equal
unfolding int32_ptr_equal
int32_ptr_equal_iff = ptr_equal-Decides _ ==_iff

pub string_ptr_equal_iff : Decides string_ptr_equal
unfolding string_ptr_equal
string_ptr_equal_iff = ptr_equal-Decides _ eq_iff

pub craft_target_equal_iff : Decides craft_target_equal
unfolding craft_target_equal
craft_target_equal_iff = ptr_equal-Decides _ (λ a b. ground (arith, eq_iff a.item_name b.item_name))

pub place_target_equal_iff : Decides place_target_equal
unfolding place_target_equal
place_target_equal_iff = ptr_equal-Decides _ (λ a b. ground arith)

pub and_left : (a b : Bool) → (a && b) ≡ true → a ≡ true
and_left a b h = ground arith

pub and_right : (a b : Bool) → (a && b) ≡ true → b ≡ true
and_right a b h = ground arith

pub or_left : (a b : Bool) → (a || b) ≡ false → a ≡ false
or_left a b h = ground arith

pub or_right : (a b : Bool) → (a || b) ≡ false → b ≡ false
or_right a b h = ground arith

pub state_path :
    {s o : ControllerState}
    → s.goto_target ≡ o.goto_target
    → s.break_target ≡ o.break_target
    → s.attack_target ≡ o.attack_target
    → s.craft_target ≡ o.craft_target
    → s.equip_target ≡ o.equip_target
    → s.consume_target ≡ o.consume_target
    → s.place_target ≡ o.place_target
    → s ≡ o
state_path g b a c e u p = λ i. record {
  goto_target = g i;
  break_target = b i;
  attack_target = a i;
  craft_target = c i;
  equip_target = e i;
  consume_target = u i;
  place_target = p i;
}

and_seven :
    (g b a c e u p : Bool)
    → (g && b && a && c && e && u && p) ≡ true
    → (g ≡ true) × (b ≡ true) × (a ≡ true) × (c ≡ true) × (e ≡ true) × (u ≡ true) × (p ≡ true)
and_seven g b a c e u p h = ground arith

-- `Equal` on two states says exactly that all seven targets agree.
pub equal_iff : (s o : ControllerState) → (equal s (some o) ≡ true) ↔ (s ≡ o)
unfolding equal
equal_iff s o = (
  (λ h.
      let (g, b, a, c, e, u, p) = and_seven _ _ _ _ _ _ _ h in
      state_path ((block_pos_equal_iff _ _).0 g) ((block_pos_equal_iff _ _).0 b)
        ((int32_ptr_equal_iff _ _).0 a) ((craft_target_equal_iff _ _).0 c)
        ((string_ptr_equal_iff _ _).0 e) ((string_ptr_equal_iff _ _).0 u)
        ((place_target_equal_iff _ _).0 p)),
  (λ h.
      subst (λ r. equal s (some r) ≡ true) h
        (rw (
          (block_pos_equal_iff s.goto_target _).1 refl,
          (block_pos_equal_iff s.break_target _).1 refl,
          (int32_ptr_equal_iff s.attack_target _).1 refl,
          (craft_target_equal_iff s.craft_target _).1 refl,
          (string_ptr_equal_iff s.equip_target _).1 refl,
          (string_ptr_equal_iff s.consume_target _).1 refl,
          (place_target_equal_iff s.place_target _).1 refl,
        ))),
)

-- The five targets of which the compatibility matrix lets through one.
abbrev pub one_shots : ControllerState → List Bool
one_shots s =
    is_some s.break_target
    ∷ is_some s.attack_target
    ∷ is_some s.craft_target
    ∷ is_some s.place_target
    ∷ is_some s.consume_target
    ∷ []

-- The first of a list to be set, alone.
abbrev pub first_only : List Bool → List Bool
first_only [] = []
first_only (true ∷ bs) = true ∷ none_set bs
  where
    none_set : List Bool → List Bool
    none_set [] = []
    none_set (_ ∷ cs) = false ∷ none_set cs
first_only (false ∷ bs) = false ∷ first_only bs

-- Each one-shot target of the first state is that of the second, or none.
abbrev pub Keeps : ControllerState → ControllerState → Type 0
Keeps v s =
    ((v.break_target ≡ none) ⊎ (v.break_target ≡ s.break_target))
    × ((v.attack_target ≡ none) ⊎ (v.attack_target ≡ s.attack_target))
    × ((v.craft_target ≡ none) ⊎ (v.craft_target ≡ s.craft_target))
    × ((v.place_target ≡ none) ⊎ (v.place_target ≡ s.place_target))
    × ((v.consume_target ≡ none) ⊎ (v.consume_target ≡ s.consume_target))

-- Normalising leaves of the one-shot targets only the first that is set, in the order break,
-- attack, craft, place, consume, with its value; it leaves the goto and equip targets alone and
-- is idempotent.
pub validate_controller_state_lem :
    (s : ControllerState)
    → (one_shots (validate_controller_state s) ≡ first_only (one_shots s))
      × ((validate_controller_state s).goto_target ≡ s.goto_target)
      × ((validate_controller_state s).equip_target ≡ s.equip_target)
      × Keeps (validate_controller_state s) s
      × (validate_controller_state (validate_controller_state s) ≡ validate_controller_state s)
unfolding validate_controller_state
validate_controller_state_lem s = ground arith
