-- ===== src/Model/FailedPlans/Refinement.antt =====
-- The cache as a queue that forgets its oldest plan.
use minecraft_orchestrator.Base.{
  ℕ, zero, suc, ◌+◌, ◌-◌, ◌≤◌, ◌<◌, ◌≡◌, refl, sym, ap, ◌∙◌, List, [], ◌∷◌, ◌++◌, arith, length,
  take, drop, set, ◌==◌, inl, inr, Bool-cases, ==_iff, length-set, length-append, length-take,
  length-drop, take-length, le→ltb, drop-append, ◌%◌,
}
use minecraft_orchestrator.Model.Types.{FailedPlan}
use minecraft_orchestrator.Model.FailedPlans.{FailedPlanCache, len, add, shift_left}

-- The valid plans, oldest first.
abbrev pub plans : FailedPlanCache → List FailedPlan
plans c = take (len c) c.entries

-- The newest `n` of a list.
abbrev pub newest : ℕ → List FailedPlan → List FailedPlan
newest n ps = drop (length ps - n) ps

take-set_end {ℓ} :
    {A : Type ℓ} (n : ℕ) (xs : List A) (v : A)
    → n < length xs
    → take (suc n) (set xs n v) ≡ take n xs ++ v ∷ []
take-set_end zero [] v h = absurd (omega arith)
take-set_end zero (x ∷ xs) v h = refl
take-set_end (suc n) [] v h = absurd (omega arith)
take-set_end (suc n) (x ∷ xs) v h = ap (◌∷◌ x) (take-set_end n xs v (omega arith))

-- Sixteen entries shifted and overwritten at the end.
take_of_length {ℓ} : {A : Type ℓ} (n : ℕ) (xs : List A) → length xs ≡ n → take n xs ≡ xs
take_of_length n xs h = rw (← h) (take-length xs)

set_last {ℓ} :
    {A : Type ℓ} (n : ℕ) (xs ys : List A) (v : A)
    → length xs ≡ n
    → length ys ≡ 1
    → set (xs ++ ys) n v ≡ xs ++ v ∷ []
set_last zero [] [] v h k = absurd (omega arith)
set_last zero [] (y ∷ []) v h k = refl
set_last zero [] (y ∷ z ∷ ys) v h k = absurd (omega arith)
set_last zero (x ∷ xs) ys v h k = absurd (omega arith)
set_last (suc n) [] ys v h k = absurd (omega arith)
set_last (suc n) (x ∷ xs) ys v h k = ap (◌∷◌ x) (set_last n xs ys v (omega arith) k)

set-shift_left :
    (xs : List FailedPlan) (p : FailedPlan)
    → length xs ≡ 16
    → set (shift_left xs) 15 p ≡ drop 1 xs ++ p ∷ []
unfolding shift_left
set-shift_left xs p h = rw (take_of_length 15 (drop 1 xs) (omega (arith, length-drop 1 xs))) (
    set_last 15 (drop 1 xs) (drop 15 xs) p (omega (arith, length-drop 1 xs))
      (omega (arith, length-drop 15 xs)))

-- The valid entries of a full cache are all of them.
plans_full : (c : FailedPlanCache) → length c.entries ≡ 16 → len c ≡ 16 → plans c ≡ c.entries
plans_full c h e = rw e (take_of_length 16 c.entries h)

newest_full :
    (xs : List FailedPlan) (p : FailedPlan)
    → length xs ≡ 16
    → newest 16 (xs ++ p ∷ []) ≡ drop 1 xs ++ p ∷ []
newest_full xs p h =
    let one : length (xs ++ p ∷ []) - 16 ≡ 1 = omega (arith, length-append xs (p ∷ [])) in
    rw one (drop-append 1 xs (p ∷ []) (omega arith))

newest_short : (xs : List FailedPlan) → length xs ≤ 16 → newest 16 xs ≡ xs
newest_short xs h = let none : length xs - 16 ≡ 0 = omega arith in rw none

len-le : (c : FailedPlanCache) → len c ≤ 16
unfolding len
len-le c = ground arith

plans_of :
    (xs : List FailedPlan) (n : ℕ) → n ≤ 16 → plans (record { entries = xs; count = n }) ≡ take n xs
unfolding len
plans_of xs n h = rw (le→ltb 16 n h)

sixteen :
    (xs : List FailedPlan) (p : FailedPlan) → length xs ≡ 16 → length (drop 1 xs ++ p ∷ []) ≡ 16
sixteen xs p h = omega (arith, length-append (drop 1 xs) (p ∷ []), length-drop 1 xs)

-- Adding a plan to a cache of sixteen entries leaves the newest sixteen of the valid plans and
-- the new one, in order, and sixteen entries again.
pub plans-add :
    (c : FailedPlanCache) (p : FailedPlan)
    → length c.entries ≡ 16
    → (plans (add c p) ≡ newest 16 (plans c ++ p ∷ [])) × (length (add c p).entries ≡ 16)
unfolding add
plans-add c p h = elim (Bool-cases (len c == 16)) [
  | inl e ↦
      let full : len c ≡ 16 = (==_iff (len c) 16).0 e in
      rw (e, set-shift_left c.entries p h)
        (
          plans_of (drop 1 c.entries ++ p ∷ []) 16 (omega arith)
              ∙ take_of_length 16 _ (omega (arith, sixteen c.entries p h))
              ∙ rw (plans_full c h full) (sym (newest_full c.entries p h)),
          sixteen c.entries p h,
        )
  | inr e ↦
      let small : len c < 16 = ground (arith, len-le c) in
      let wrap : (len c + 1) % 256 ≡ suc (len c) = omega arith in
      rw (e, wrap)
        (
          plans_of (set c.entries (len c) p) (suc (len c)) (omega arith)
              ∙ take-set_end (len c) c.entries p (omega arith)
              ∙ sym (
                  newest_short (plans c ++ p ∷ []) (
                    omega
                      (arith, length-append (plans c) (p ∷ []), length-take (len c) c.entries))),
          length-set c.entries (len c) p ∙ h,
        )
]
