-- ===== src/Model/Chunks/Packed.antt =====
-- Packed states as an array: writes, and copies into wider states (chunks.go).
use minecraft_orchestrator.Base.{
  ℕ, zero, suc, ◌+◌, ◌-◌, ◌*◌, ◌/◌, ◌%◌, ◌^◌, ◌≤◌, ◌<◌, ◌≡◌, ◌≢◌, refl, sym, ap, subst, ◌∙◌, inl,
  inr, arith, Bool-cases, ◌==◌, ==_iff, Option, some, length, get_elem?, set, get_elem?-lt,
  get_elem?-set_self, get_elem?-set_ne, length-set,
}
use native.Mathlib.Nat.{
  add-div_right, lt-div-mul-add, div-lt_iff_lt-mul, le-div_iff_mul-le, mod-add-div, mod-eq_of_lt,
  zero-div, zero-mod,
}
use minecraft_orchestrator.Model.Chunks.{
  PackedStates, replicate, values_per_word, packed_word_count, get_field, put_field, packed_get,
  packed_set, copy_states, zero_states,
}
use minecraft_orchestrator.Model.Chunks.Fields.{get_field-put_field, get_field-put_field_ne}

pub record IsPacked (p : PackedStates) : Type 0 where
  pub bits_pos : 0 < p.bits
  pub bits_le : p.bits ≤ 32
  pub word_count : length p.words ≡ packed_word_count 4096 p.bits

-- The first states of an array are those of a function.
abbrev pub Holds : ℕ → PackedStates → (ℕ → ℕ) → Type 0
Holds n p f = (j : ℕ) → j < n → packed_get p j ≡ some (f j)

pub values_per_word-pos : (bits : ℕ) → 0 < bits → bits ≤ 32 → 0 < values_per_word bits
unfolding values_per_word
values_per_word-pos bits pos le = (le-div_iff_mul-le pos).1 (omega arith)

word_index-lt :
    (j bits : ℕ)
    → 0 < bits
    → bits ≤ 32
    → j < 4096
    → j / values_per_word bits < packed_word_count 4096 bits
unfolding packed_word_count
word_index-lt j bits pos le h =
    let n = values_per_word bits in
    let n_pos : 0 < n = values_per_word-pos bits pos le in
    let whole : 4096 + n - 1 ≡ 4095 + n = omega arith in
    let top : 4095 < 4095 / n * n + n = lt-div-mul-add n_pos in
    let next : (4095 / n + 1) * n ≡ 4095 / n * n + n = grind arith in
    rw (whole, add-div_right 4095 n_pos) ((div-lt_iff_lt-mul n_pos).1 (omega arith))

-- Two states of one word stand at different places of it.
place-ne : (i j n : ℕ) → i ≢ j → i / n ≡ j / n → i % n ≢ j % n
place-ne i j n ne same e = ne (
    sym (mod-add-div i n)
    ∙ ap (λ (t : ℕ). t + n * (i / n)) e
    ∙ ap (λ (t : ℕ). j % n + n * t) same
    ∙ mod-add-div j n)

-- What a write leaves.
pub record IsWrite (p : PackedStates) (i v : ℕ) (q : PackedStates) : Type 0 where
  pub packed : IsPacked q
  pub bits_same : q.bits ≡ p.bits
  pub at_index : packed_get q i ≡ some (v % 2 ^ p.bits)
  pub elsewhere : (j : ℕ) → i ≢ j → packed_get q j ≡ packed_get p j

module _ (p : PackedStates) (i v w : ℕ) where
  abbrev n : ℕ
  n = values_per_word p.bits

  abbrev written : PackedStates
  written = record p { words = set p.words (i / n) (put_field (i % n * p.bits) p.bits v w) }

  module _ (ip : IsPacked p) (found : get_elem? p.words (i / n) ≡ some w)
      (h : i / n < length p.words) where
    written_self : packed_get written i ≡ some (v % 2 ^ p.bits)
    unfolding packed_get
    written_self =
        rw (get_elem?-set_self p.words (i / n) (put_field (i % n * p.bits) p.bits v w) h)
          (ap some (get_field-put_field (i % n * p.bits) p.bits v w))

    written_ne : (j : ℕ) → i ≢ j → packed_get written j ≡ packed_get p j
    unfolding packed_get
    written_ne j ne = elim (Bool-cases (i / n == j / n)) [
      | inl e ↦
          let same : i / n ≡ j / n = (==_iff _ _).0 e in
          rw
            (
              ← same,
              found,
              get_elem?-set_self p.words (i / n) (put_field (i % n * p.bits) p.bits v w) h,
            )
            (ap some (get_field-put_field_ne (i % n) (j % n) p.bits v w (place-ne i j n ne same)))
      | inr e ↦
          let other : i / n ≢ j / n = λ same. ground (arith, same) in
          rw
            (get_elem?-set_ne p.words (i / n) (j / n) (put_field (i % n * p.bits) p.bits v w) other)
    ]

    written-IsWrite : IsWrite p i v written
    written-IsWrite = record {
      packed = record {
        bits_pos = ip.bits_pos;
        bits_le = ip.bits_le;
        word_count =
            length-set p.words (i / n) (put_field (i % n * p.bits) p.bits v w) ∙ ip.word_count;
      };
      bits_same = refl;
      at_index = written_self;
      elsewhere = written_ne;
    }

pub packed_set_lem :
    (p : PackedStates) (i v : ℕ)
    → IsPacked p
    → i < 4096
    → (q : PackedStates) × (packed_set p i v ≡ some q) × IsWrite p i v q
unfolding packed_set
packed_set_lem p i v ip h =
    let lt : i / values_per_word p.bits < length p.words =
      rw ip.word_count (word_index-lt i p.bits ip.bits_pos ip.bits_le h) in
    let (w, found) = get_elem?-lt p.words (i / values_per_word p.bits) lt in
    (written p i v w, rw found, written-IsWrite p i v w ip found lt)

length-replicate : (n x : ℕ) → length (replicate n x) ≡ n
length-replicate zero x = refl
length-replicate (suc n) x = ap suc (length-replicate n x)

get_elem?-replicate : (n x i : ℕ) → i < n → get_elem? (replicate n x) i ≡ some x
get_elem?-replicate zero x i h = absurd (omega arith)
get_elem?-replicate (suc n) x zero h = refl
get_elem?-replicate (suc n) x (suc i) h = get_elem?-replicate n x i (omega arith)

pub zero_states-IsPacked : (bits : ℕ) → 0 < bits → bits ≤ 32 → IsPacked (zero_states bits)
unfolding zero_states
zero_states-IsPacked bits pos le = record {
  bits_pos = pos;
  bits_le = le;
  word_count = length-replicate (packed_word_count 4096 bits) 0;
}

pub bits-zero_states : (bits : ℕ) → (zero_states bits).bits ≡ bits
unfolding zero_states
bits-zero_states bits = refl

pub zero_states-Holds : (bits : ℕ) → 0 < bits → bits ≤ 32 → Holds 4096 (zero_states bits) (λ j. 0)
unfolding zero_states packed_get get_field
zero_states-Holds bits pos le j h =
    let n = values_per_word bits in
    rw (get_elem?-replicate (packed_word_count 4096 bits) 0 (j / n) (word_index-lt j bits pos le h))
      (ap some (ap (λ (t : ℕ). t % 2 ^ bits) (zero-div (2 ^ (j % n * bits))) ∙ zero-mod (2 ^ bits)))

-- A copy is complete, where every state fits the bits of the target.
pub copy_states_lem :
    (n index : ℕ) (get : ℕ → Option ℕ) (f : ℕ → ℕ) (p : PackedStates)
    → index + n ≡ 4096
    → ((j : ℕ) → j < 4096 → get j ≡ some (f j))
    → IsPacked p
    → ((j : ℕ) → j < 4096 → f j < 2 ^ p.bits)
    → Holds index p f
    → (q : PackedStates) × (copy_states n index get p ≡ some q)
      × IsPacked q
      × (q.bits ≡ p.bits)
      × Holds 4096 q f
unfolding copy_states
copy_states_lem zero index get f p e source ip small done =
    (p, refl, ip, refl, λ j h. done j (omega arith))
copy_states_lem (suc n) index get f p e source ip small done =
    let lt : index < 4096 = omega arith in
    let (q, set_q, w) = packed_set_lem p index (f index) ip lt in
    let more : Holds (index + 1) q f = λ j h. elim (Bool-cases (index == j)) [
      | inl same ↦
          subst (λ k. packed_get q k ≡ some (f k)) ((==_iff index j).0 same)
            (w.at_index ∙ ap some (mod-eq_of_lt (small index lt)))
      | inr other ↦
          let ne : index ≢ j = λ same. ground (arith, same) in
          w.elsewhere j ne ∙ done j (ground arith)
    ] in
    let (r, copied, ir, bits_same, holds) =
      copy_states_lem n (index + 1) get f q (omega arith) source w.packed
        (λ j h. subst (λ b. f j < 2 ^ b) (sym w.bits_same) (small j h)) more in
    (r, rw (source index lt, set_q) copied, ir, bits_same ∙ w.bits_same, holds)
