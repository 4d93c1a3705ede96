-- ===== src/Wire/VarInt/RoundTrip.antt =====
-- A VarInt that is written is read back, whatever follows it.
use minecraft_orchestrator.Base.{
  ℕ, zero, suc, ◌+◌, ◌*◌, ◌/◌, ◌%◌, ◌^◌, ◌≤◌, ◌<◌, true, false, ◌==◌, List, ◌++◌, bit_and, bit_or,
  ◌≡◌, ap, ◌∙◌, inl, inr, arith, Bool-cases, ==_iff, ltb, ltb→lt, ltb-false→le, bit_or-high,
  bit_and_low_seven, bit_and_top_bit, bit_or_top_bit,
}
use native.Mathlib.Numerals.{towards_suc}
use minecraft_orchestrator.Wire.VarInt.{
  ok, add_bits, read_from, read_var_int, write_from, write_var_int,
}

-- A group of seven bits goes above the value so far.
add_bits-low :
    (p v b : ℕ)
    → v < 2 ^ (7 * p)
    → b % 128 * 2 ^ (7 * p) < 2 ^ 32
    → add_bits p v b ≡ v + b % 128 * 2 ^ (7 * p)
add_bits-low p v b h fits =
    let kept : bit_and b 0x7f * 2 ^ (7 * p) % 2 ^ 32 ≡ b % 128 * 2 ^ (7 * p) =
      rw (bit_and_low_seven b) (omega arith) in
    ap (bit_or v) kept ∙ bit_or-high (7 * p) v (b % 128) h

pow_group : (p : ℕ) → 2 ^ (7 * suc p) ≡ 128 * 2 ^ (7 * p)
pow_group p =
    let seven : 7 * suc p ≡ 7 * p + 7 = omega arith in rw seven (simp towards_suc (omega arith))

-- The last byte of a number below 128.
read_last :
    (f p v n : ℕ) (rest : List ℕ)
    → n < 128
    → v < 2 ^ (7 * p)
    → n * 2 ^ (7 * p) < 2 ^ 32
    → read_from (suc f) p v (write_from (suc f) n ++ rest) ≡ ok (v + n * 2 ^ (7 * p), rest)
unfolding read_from write_from
read_last f p v n rest h low fits =
    let one : n % 128 ≡ n = omega arith in
    let over : (n / 2 ^ 7 == 0) ≡ true = ground arith in
    let stop : (bit_and n 0x80 == 0) ≡ true =
      (==_iff _ 0).1 (bit_and_top_bit n (omega arith) ∙ omega arith) in
    rw (over, bit_and_low_seven n, one, stop)
      (ap (λ t. ok (t, rest)) (add_bits-low p v n low (rw one fits) ∙ rw one))

-- A byte that announces more.
read_more :
    (f p v n : ℕ) (rest : List ℕ)
    → 128 ≤ n
    → v < 2 ^ (7 * p)
    → n % 128 * 2 ^ (7 * p) < 2 ^ 32
    → read_from (suc f) p v (write_from (suc f) n ++ rest)
      ≡ read_from f (suc p) (v + n % 128 * 2 ^ (7 * p)) (write_from f (n / 128) ++ rest)
unfolding read_from write_from
read_more f p v n rest h low fits =
    let on : (n / 2 ^ 7 == 0) ≡ false = ground arith in
    let byte : bit_or (bit_and n 0x7f) 0x80 ≡ n % 128 + 128 =
      rw (bit_and_low_seven n) (bit_or_top_bit (n % 128) (omega arith)) in
    let same : (n % 128 + 128) % 128 ≡ n % 128 = omega arith in
    let go : (bit_and (n % 128 + 128) 0x80 == 0) ≡ false =
      ground (arith, bit_and_top_bit (n % 128 + 128)) in
    rw (on, byte, go)
      (ap (λ t. read_from f (suc p) t (write_from f (n / 128) ++ rest))
        (add_bits-low p v (n % 128 + 128) low (rw same fits) ∙ rw same))

mul_mono : (a b k : ℕ) → a ≤ b → a * k ≤ b * k
mul_mono a b k h = grind arith

groups : (n k : ℕ) → n * k ≡ n / 128 * (128 * k) + n % 128 * k
groups n k =
    let split : n ≡ n / 128 * 128 + n % 128 = omega arith in
    omega (arith, ap (λ (t : ℕ). t * k) split)

read_from-write_from :
    (f p v n : ℕ) (rest : List ℕ)
    → v < 2 ^ (7 * p)
    → n < 2 ^ (7 * suc f)
    → n * 2 ^ (7 * p) < 2 ^ 32
    → read_from (suc f) p v (write_from (suc f) n ++ rest) ≡ ok (v + n * 2 ^ (7 * p), rest)
read_from-write_from zero p v n rest low short fits = read_last 0 p v n rest short low fits
read_from-write_from (suc f) p v n rest low short fits = elim (Bool-cases (ltb n 128)) [
  | inl last ↦ read_last (suc f) p v n rest (ltb→lt n 128 last) low fits
  | inr more ↦
      let k : ℕ = 2 ^ (7 * p) in
      let whole : n * k ≡ n / 128 * (128 * k) + n % 128 * k = groups n k in
      let small : n % 128 * k ≤ 127 * k = mul_mono (n % 128) 127 k (omega arith) in
      let v' : ℕ = v + n % 128 * k in
      let next : n / 128 * 2 ^ (7 * suc p) ≡ n / 128 * (128 * k) =
        ap (λ (t : ℕ). n / 128 * t) (pow_group p) in
      read_more (suc f) p v n rest (ltb-false→le n 128 more) low (omega arith)
      ∙ read_from-write_from f (suc p) v' (n / 128) rest (omega (arith, pow_group p))
          (omega (arith, pow_group (suc f))) (omega arith)
      ∙ ap (λ (t : ℕ). ok (t, rest)) (omega arith)
]

-- Reading gives back every int32 that was written, and leaves what follows it.
pub read_var_int-write_var_int :
    (n : ℕ) (rest : List ℕ) → n < 2 ^ 32 → read_var_int (write_var_int n ++ rest) ≡ ok (n, rest)
unfolding read_var_int write_var_int
read_var_int-write_var_int n rest h =
    read_from-write_from 4 0 0 n rest (omega arith) (omega arith) (omega arith)
    ∙ ap (λ (t : ℕ). ok (t, rest)) (omega arith)
