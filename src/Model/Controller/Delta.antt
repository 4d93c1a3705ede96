-- ===== src/Model/Controller/Delta.antt =====
-- The delta of two controller states, against a receiver that applies it.
use minecraft_orchestrator.Base.{
  Bool, true, false, not, ◌&&◌, ◌||◌, ◌==◌, Option, none, some, List, [], ◌∷◌, ◌++◌, arith, ◌≡◌,
  refl, subst, inl, inr, ◌↔◌, Bool-cases,
}
use minecraft_orchestrator.Model.Controller.{
  ControllerField, ControllerState, ControllerStateDelta, is_some, is_empty, delta_of,
  diff_controller_state, clears, delta_has_any, contains_field, field_index, set_of, clear_of,
  block_pos_equal, int32_ptr_equal, string_ptr_equal, craft_target_equal, place_target_equal,
  field_goto, field_break, field_attack, field_craft, field_equip, field_place, field_consume,
}
use minecraft_orchestrator.Model.Controller.Laws.{
  block_pos_equal_iff, int32_ptr_equal_iff, string_ptr_equal_iff, craft_target_equal_iff,
  place_target_equal_iff, or_left, or_right, state_path,
}

-- A receiver: a cleared target is dropped, a target in the delta replaces, and a target that is
-- neither stays.
abbrev pub apply_target {ℓ} : {A : Type ℓ} → Bool → Option A → Option A → Option A
apply_target true new old = none
apply_target false none old = old
apply_target false (some a) old = some a

pub apply_delta : Option ControllerStateDelta → ControllerState → ControllerState
apply_delta none s = s
apply_delta (some d) s = record {
  goto_target = apply_target (clears (some d) field_goto) d.state.goto_target s.goto_target;
  break_target = apply_target (clears (some d) field_break) d.state.break_target s.break_target;
  attack_target = apply_target (clears (some d) field_attack) d.state.attack_target s.attack_target;
  craft_target = apply_target (clears (some d) field_craft) d.state.craft_target s.craft_target;
  equip_target = apply_target (clears (some d) field_equip) d.state.equip_target s.equip_target;
  consume_target =
      apply_target (clears (some d) field_consume) d.state.consume_target s.consume_target;
  place_target = apply_target (clears (some d) field_place) d.state.place_target s.place_target;
}

abbrev lost {ℓ} : {A : Type ℓ} → Bool → Option A → Bool
lost true cur = false
lost false none = true
lost false (some a) = false

contains-clear_of {ℓ} :
    {A : Type ℓ} (f g : ControllerField) (b : Bool) (cur : Option A) (rest : List ControllerField)
    → contains_field f (clear_of b g cur ++ rest)
      ≡ ((field_index f == field_index g) && lost b cur) || contains_field f rest
unfolding contains_field
contains-clear_of f g true cur rest = ground arith
contains-clear_of f g false none rest = ground arith
contains-clear_of f g false (some a) rest = ground arith

contains-clear_of_last {ℓ} :
    {A : Type ℓ} (f g : ControllerField) (b : Bool) (cur : Option A)
    → contains_field f (clear_of b g cur) ≡ (field_index f == field_index g) && lost b cur
unfolding contains_field
contains-clear_of_last f g true cur = ground arith
contains-clear_of_last f g false none = ground arith
contains-clear_of_last f g false (some a) = ground arith

apply_back {ℓ} :
    {A : Type ℓ} (b : Bool) (old cur : Option A)
    → (b ≡ true → old ≡ cur)
    → apply_target (lost b cur) (set_of b cur) old ≡ cur
apply_back true old cur h = h refl
apply_back false old none h = refl
apply_back false old (some a) h = refl

or-false : (b : Bool) → (b || false) ≡ b
or-false true = refl
or-false false = refl

module _ (g b a c e u p : Bool) (cur : ControllerState) where
  cleared :
      (f : ControllerField)
      → clears (some (delta_of g b a c e u p cur)) f
        ≡ ((field_index f == 1) && lost g cur.goto_target)
          || (((field_index f == 2) && lost b cur.break_target)
              || (((field_index f == 3) && lost a cur.attack_target)
                  || (((field_index f == 4) && lost c cur.craft_target)
                      || (((field_index f == 5) && lost e cur.equip_target)
                          || (((field_index f == 7) && lost u cur.consume_target)
                              || ((field_index f == 6) && lost p cur.place_target))))))
  unfolding clears delta_of field_index
  cleared f = simp (contains-clear_of, contains-clear_of_last)

  applied :
      (last : ControllerState)
      → (g ≡ true → last.goto_target ≡ cur.goto_target)
      → (b ≡ true → last.break_target ≡ cur.break_target)
      → (a ≡ true → last.attack_target ≡ cur.attack_target)
      → (c ≡ true → last.craft_target ≡ cur.craft_target)
      → (e ≡ true → last.equip_target ≡ cur.equip_target)
      → (u ≡ true → last.consume_target ≡ cur.consume_target)
      → (p ≡ true → last.place_target ≡ cur.place_target)
      → apply_delta (some (delta_of g b a c e u p cur)) last ≡ cur
  unfolding apply_delta field_index delta_of
  applied last hg hb ha hc he hu hp =
      state_path (rw (cleared field_goto, or-false) (apply_back g _ _ hg))
        (rw (cleared field_break, or-false) (apply_back b _ _ hb))
        (rw (cleared field_attack, or-false) (apply_back a _ _ ha))
        (rw (cleared field_craft, or-false) (apply_back c _ _ hc))
        (rw (cleared field_equip, or-false) (apply_back e _ _ he))
        (rw (cleared field_consume, or-false) (apply_back u _ _ hu))
        (rw (cleared field_place) (apply_back p _ _ hp))

is_empty-append {ℓ} :
    {A : Type ℓ} (xs ys : List A)
    → is_empty (xs ++ ys) ≡ true
    → (is_empty xs ≡ true) × (is_empty ys ≡ true)
is_empty-append [] ys h = (refl, h)
is_empty-append (x ∷ xs) ys h = cc

-- A target that is neither set nor cleared was found equal.
quiet {ℓ} :
    {A : Type ℓ} (b : Bool) (f : ControllerField) (cur : Option A)
    → is_some (set_of b cur) ≡ false
    → is_empty (clear_of b f cur) ≡ true
    → b ≡ true
quiet true f cur h k = refl
quiet false f none h k = cc
quiet false f (some a) h k = cc

eq_of_not : (b : Bool) → not b ≡ false → b ≡ true
eq_of_not b h = ground arith

or_seven :
    (g b a c e u p : Bool)
    → (g || b || a || c || e || u || p) ≡ false
    → (g ≡ false)
      × (b ≡ false)
      × (a ≡ false)
      × (c ≡ false)
      × (e ≡ false)
      × (u ≡ false)
      × (p ≡ false)
or_seven g b a c e u p h = ground arith

no_delta :
    (g b a c e u p : Bool) (cur : ControllerState)
    → delta_has_any (some (delta_of g b a c e u p cur)) ≡ false
    → (g ≡ true) × (b ≡ true) × (a ≡ true) × (c ≡ true) × (e ≡ true) × (u ≡ true) × (p ≡ true)
unfolding delta_has_any delta_of
no_delta g b a c e u p cur h =
    let (sg, sb, sa, sc, se, su, sp) = or_seven _ _ _ _ _ _ _ (or_left _ _ h) in
    let (kg, k1) = is_empty-append _ _ (eq_of_not _ (or_right _ _ h)) in
    let (kb, k2) = is_empty-append _ _ k1 in
    let (ka, k3) = is_empty-append _ _ k2 in
    let (kc, k4) = is_empty-append _ _ k3 in
    let (ke, k5) = is_empty-append _ _ k4 in
    let (ku, kp) = is_empty-append _ _ k5 in
    (
      quiet g _ _ sg kg,
      quiet b _ _ sb kb,
      quiet a _ _ sa ka,
      quiet c _ _ sc kc,
      quiet e _ _ se ke,
      quiet u _ _ su ku,
      quiet p _ _ sp kp,
    )

-- The delta before it is tested for content.
abbrev raw : ControllerState → ControllerState → ControllerStateDelta
raw last cur =
    delta_of (block_pos_equal last.goto_target cur.goto_target)
      (block_pos_equal last.break_target cur.break_target)
      (int32_ptr_equal last.attack_target cur.attack_target)
      (craft_target_equal last.craft_target cur.craft_target)
      (string_ptr_equal last.equip_target cur.equip_target)
      (string_ptr_equal last.consume_target cur.consume_target)
      (place_target_equal last.place_target cur.place_target) cur

unchanged : (last cur : ControllerState) → delta_has_any (some (raw last cur)) ≡ false → last ≡ cur
unchanged last cur h =
    let (g, b, a, c, e, u, p) = no_delta _ _ _ _ _ _ _ cur h in
    state_path ((block_pos_equal_iff _ _).0 g) ((block_pos_equal_iff _ _).0 b)
      ((int32_ptr_equal_iff _ _).0 a) ((craft_target_equal_iff _ _).0 c)
      ((string_ptr_equal_iff _ _).0 e) ((string_ptr_equal_iff _ _).0 u)
      ((place_target_equal_iff _ _).0 p)

raw_self : (s : ControllerState) → delta_has_any (some (raw s s)) ≡ false
unfolding delta_of delta_has_any
raw_self s = rw (
  (block_pos_equal_iff s.goto_target _).1 refl,
  (block_pos_equal_iff s.break_target _).1 refl,
  (int32_ptr_equal_iff s.attack_target _).1 refl,
  (craft_target_equal_iff s.craft_target _).1 refl,
  (string_ptr_equal_iff s.equip_target _).1 refl,
  (string_ptr_equal_iff s.consume_target _).1 refl,
  (place_target_equal_iff s.place_target _).1 refl,
)

-- A receiver in the last state that was sent, which applies the delta, is in the current state.
pub apply_delta-diff :
    (last cur : ControllerState) → apply_delta (diff_controller_state last cur) last ≡ cur
unfolding diff_controller_state apply_delta
apply_delta-diff last cur = elim (Bool-cases (delta_has_any (some (raw last cur)))) [
  | inl some_change ↦ rw some_change (
      applied _ _ _ _ _ _ _ cur last ((block_pos_equal_iff _ _).0) ((block_pos_equal_iff _ _).0)
        ((int32_ptr_equal_iff _ _).0) ((craft_target_equal_iff _ _).0)
        ((string_ptr_equal_iff _ _).0) ((string_ptr_equal_iff _ _).0)
        ((place_target_equal_iff _ _).0))
  | inr no_change ↦ rw no_change (unchanged last cur no_change)
]

-- Nothing is sent exactly when nothing has changed.
pub diff-none_iff :
    (last cur : ControllerState) → (diff_controller_state last cur ≡ none) ↔ (last ≡ cur)
unfolding diff_controller_state apply_delta
diff-none_iff last cur = (
  (λ e. subst (λ d. apply_delta d last ≡ cur) e (apply_delta-diff last cur)),
  (λ e. subst (λ c. diff_controller_state last c ≡ none) e (rw (raw_self last))),
)
