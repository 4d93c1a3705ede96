-- ===== src/Model/Chunks/Fields.antt =====
-- Reading and writing one bit field of a word.
use minecraft_orchestrator.Base.{
  ℕ, zero, suc, ◌+◌, ◌-◌, ◌*◌, ◌/◌, ◌%◌, ◌^◌, ◌<◌, ◌≡◌, ◌≢◌, sym, ap, ◌∙◌, inl, inr, arith, ltb,
  Bool-cases, ltb→lt, ltb-false→le,
}
use native.Mathlib.Nat.{
  pow-suc, mod-lt, add-mul-div_left, add-mul-mod_self_left, div-div-eq-div-mul, mod-add-div,
  div-eq_of_lt, mod-eq_of_lt,
}
use minecraft_orchestrator.Model.Chunks.{get_field, put_field}

pub pow_two-pos : (n : ℕ) → 0 < 2 ^ n
pow_two-pos zero = omega arith
pow_two-pos (suc n) = omega (arith, pow-suc 2 n, pow_two-pos n)

pub pow_two-add : (a b : ℕ) → 2 ^ (a + b) ≡ 2 ^ a * 2 ^ b
pow_two-add a zero = let e : a + 0 ≡ a = omega arith in rw e (omega arith)
pow_two-add a (suc b) =
    let e : a + suc b ≡ suc (a + b) = omega arith in
    rw e (
      omega (
        arith,
        pow-suc 2 (a + b),
        ap (λ (t : ℕ). t * 2) (pow_two-add a b),
        ap (λ (t : ℕ). 2 ^ a * t) (pow-suc 2 b),
      ))

-- A number below `a` and a multiple of `a`.
low_high : (a r q : ℕ) → 0 < a → r < a → ((r + a * q) / a ≡ q) × ((r + a * q) % a ≡ r)
low_high a r q pos h = (
  add-mul-div_left r q pos ∙ ap (λ (t : ℕ). t + q) (div-eq_of_lt h) ∙ omega arith,
  add-mul-mod_self_left r a q ∙ mod-eq_of_lt h,
)

pub get_field-put_field : (s b v w : ℕ) → get_field s b (put_field s b v w) ≡ v % 2 ^ b
unfolding get_field put_field
get_field-put_field s b v w =
    let a = 2 ^ s in
    let m = 2 ^ b in
    rw ((low_high a (w % a) (v % m + m * (w / a / m)) (pow_two-pos s) (mod-lt w (pow_two-pos s))).0)
      ((low_high m (v % m) (w / a / m) (pow_two-pos b) (mod-lt v (pow_two-pos b))).1)

-- A field above the one that is written.
get_field-put_field_above :
    (s b t v w : ℕ) → get_field (s + b + t) b (put_field s b v w) ≡ get_field (s + b + t) b w
unfolding get_field put_field
get_field-put_field_above s b t v w =
    let a = 2 ^ s in
    let m = 2 ^ b in
    let x = v % m + m * (w / a / m) in
    let split : 2 ^ (s + b + t) ≡ a * m * 2 ^ t =
      pow_two-add (s + b) t ∙ ap (λ (u : ℕ). u * 2 ^ t) (pow_two-add s b) in
    let written : (w % a + a * x) / (a * m * 2 ^ t) ≡ w / a / m / 2 ^ t =
      sym (div-div-eq-div-mul (w % a + a * x) (a * m) (2 ^ t))
      ∙ ap (λ (u : ℕ). u / 2 ^ t)
          (sym (div-div-eq-div-mul (w % a + a * x) a m)
            ∙ ap (λ (u : ℕ). u / m)
                ((low_high a (w % a) x (pow_two-pos s) (mod-lt w (pow_two-pos s))).0)
            ∙ (low_high m (v % m) (w / a / m) (pow_two-pos b) (mod-lt v (pow_two-pos b))).0) in
    let before : w / (a * m * 2 ^ t) ≡ w / a / m / 2 ^ t =
      sym (div-div-eq-div-mul w (a * m) (2 ^ t))
      ∙ ap (λ (u : ℕ). u / 2 ^ t) (sym (div-div-eq-div-mul w a m)) in
    rw split (ap (λ (u : ℕ). u % 2 ^ b) (written ∙ sym before))

-- What lies `d` bits above a place, of which a field of `b` bits is read below.
below : (a b t x r : ℕ) → (r + a * (2 ^ b * t) * x) / a % 2 ^ b ≡ r / a % 2 ^ b
below a b t x r = elim (Bool-cases (ltb 0 a)) [
  | inl pos ↦
      let regroup : a * (2 ^ b * t) * x ≡ a * (2 ^ b * (t * x)) = grind arith in
      rw regroup (
        ap (λ (u : ℕ). u % 2 ^ b) (add-mul-div_left r (2 ^ b * (t * x)) (ltb→lt 0 a pos))
        ∙ add-mul-mod_self_left (r / a) (2 ^ b) (t * x))
  | inr none_there ↦
      let z : a ≡ 0 = omega (arith, ltb-false→le 0 a none_there) in
      rw z (ap (λ (u : ℕ). u / 0 % 2 ^ b) (omega arith))
]

-- A field below the one that is written.
get_field-put_field_below :
    (s b t v w : ℕ) → get_field s b (put_field (s + b + t) b v w) ≡ get_field s b w
unfolding get_field put_field
get_field-put_field_below s b t v w =
    let a = 2 ^ s in
    let c = 2 ^ (s + b + t) in
    let split : c ≡ a * (2 ^ b * 2 ^ t) =
      let e : s + b + t ≡ s + (b + t) = omega arith in
      ap (λ (u : ℕ). 2 ^ u) e ∙ pow_two-add s (b + t) ∙ ap (λ (u : ℕ). a * u) (pow_two-add b t) in
    let x = v % 2 ^ b + 2 ^ b * (w / c / 2 ^ b) in
    let one : (w % c + c * x) / a % 2 ^ b ≡ w % c / a % 2 ^ b =
      ap (λ (u : ℕ). (w % c + u * x) / a % 2 ^ b) split ∙ below a b (2 ^ t) x (w % c) in
    let two : (w % c + c * (w / c)) / a % 2 ^ b ≡ w % c / a % 2 ^ b =
      ap (λ (u : ℕ). (w % c + u * (w / c)) / a % 2 ^ b) split ∙ below a b (2 ^ t) (w / c) (w % c) in
    one ∙ sym two ∙ ap (λ (u : ℕ). u / a % 2 ^ b) (mod-add-div w c)

-- Fields of one width at different places of a word do not meet.
pub get_field-put_field_ne :
    (i j b v w : ℕ) → i ≢ j → get_field (j * b) b (put_field (i * b) b v w) ≡ get_field (j * b) b w
get_field-put_field_ne i j b v w ne = elim (Bool-cases (ltb i j)) [
  | inl above ↦
      let lt : i < j = ltb→lt i j above in
      let place : j * b ≡ i * b + b + (j - i - 1) * b =
        let e : j ≡ i + 1 + (j - i - 1) = omega arith in ap (λ (u : ℕ). u * b) e ∙ grind arith in
      rw place (get_field-put_field_above (i * b) b ((j - i - 1) * b) v w)
  | inr under ↦
      let le : j < i = omega (arith, ltb-false→le i j under, ne) in
      let place : i * b ≡ j * b + b + (i - j - 1) * b =
        let e : i ≡ j + 1 + (i - j - 1) = omega arith in ap (λ (u : ℕ). u * b) e ∙ grind arith in
      rw place (get_field-put_field_below (j * b) b ((i - j - 1) * b) v w)
]
