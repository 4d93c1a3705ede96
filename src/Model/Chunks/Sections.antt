-- ===== src/Model/Chunks/Sections.antt =====
-- The block states of a section as a function of the index, and one write to them (chunks.go).
use minecraft_orchestrator.Base.{
  ℕ, suc, ◌+◌, ◌-◌, ◌*◌, ◌/◌, ◌%◌, ◌^◌, ◌≤◌, ◌<◌, ◌≡◌, ◌≢◌, refl, sym, ap, subst, ◌∙◌, inl, inr,
  arith, Bool-cases, ◌==◌, ==_iff, false, Option, none, some, List, [], ◌∷◌, ◌++◌, length,
  get_elem?, ltb, update, update_self, update_ne, ==-cases, lt-get_elem?, get_elem?-append,
  get_elem?-append_end, length-append, le→ltb,
}
use native.Mathlib.Nat.{mod-lt, mod-eq_of_lt, pow-le-pow_right, pow-suc}
use minecraft_orchestrator.Model.Chunks.{
  PackedStates, BlockStates, single, indirect, direct, bind, packed_get, packed_set, get_field,
  mask, zero_states, resize, indirect_get, states_get, Written, stored, stored_as, palette_index,
  direct_set, append_state, values_per_word,
}
use minecraft_orchestrator.Model.Chunks.Fields.{pow_two-pos}
use minecraft_orchestrator.Model.Chunks.Packed.{
  IsPacked, Holds, packed_set_lem, zero_states-IsPacked, bits-zero_states, copy_states_lem,
}

abbrev pub IsStates : BlockStates → Type 0
IsStates (single v) = Unit {0}
IsStates (indirect palette p) = IsPacked p × (p.bits ≤ 8) × (length palette ≤ 2 ^ p.bits)
IsStates (direct p) = IsPacked p

-- The states of a section, read one by one, are those of a function.
abbrev pub Represents : BlockStates → (ℕ → ℕ) → Type 0
Represents s f = (j : ℕ) → j < 4096 → states_get s j ≡ some (f j)

-- The value and, where the states may become direct ones of 15 bits, all states are small enough.
abbrev pub Fits : BlockStates → (ℕ → ℕ) → ℕ → Type 0
Fits (single w) f v = Unit {0}
Fits (indirect palette p) f v = (v < 2 ^ 15) × ((j : ℕ) → j < 4096 → f j < 2 ^ 15)
Fits (direct p) f v = v < 2 ^ p.bits

-- A write was carried out, and what it leaves is the function.
abbrev pub Stores : Written BlockStates → (ℕ → ℕ) → Type 0
Stores r f = (s : BlockStates) × (r ≡ stored s) × IsStates s × Represents s f

-- A function is updated where it is right at the index and as before elsewhere.
pub updated :
    (get : ℕ → Option ℕ) (f : ℕ → ℕ) (i v : ℕ)
    → get i ≡ some v
    → ((j : ℕ) → j < 4096 → i ≢ j → get j ≡ some (f j))
    → (j : ℕ) → j < 4096
    → get j ≡ some (update f i v j)
updated get f i v here other j h = elim (==-cases i j) [
  | inl same ↦
      subst (λ k. get k ≡ some (update f i v k)) same (here ∙ ap some (sym (update_self f i v)))
  | inr ne ↦ other j h ne ∙ ap some (sym (update_ne f i j v ne))
]

pub bind-eq-some :
    (o : Option ℕ) (k : ℕ → Option ℕ) (v : ℕ)
    → bind o k ≡ some v
    → (a : ℕ) × (o ≡ some a) × (k a ≡ some v)
bind-eq-some none k v h = cc
bind-eq-some (some a) k v h = (a, refl, h)

pub some_path : {a b : ℕ} → some a ≡ some b → a ≡ b
some_path h = cc

field-lt :
    (o : Option ℕ) (shift bits k : ℕ)
    → bind o (λ w. some (get_field shift bits w)) ≡ some k
    → k < 2 ^ bits
unfolding get_field
field-lt none shift bits k e = cc
field-lt (some w) shift bits k e =
    subst (λ t. t < 2 ^ bits) (some_path e) (mod-lt _ (pow_two-pos bits))

pub packed_get-lt : (p : PackedStates) (j k : ℕ) → packed_get p j ≡ some k → k < 2 ^ p.bits
unfolding packed_get
packed_get-lt p j k e =
    field-lt (get_elem? p.words (j / values_per_word p.bits)) (j % values_per_word p.bits * p.bits)
      p.bits k e

pub direct_set-Stores :
    (p : PackedStates) (f : ℕ → ℕ) (i v : ℕ)
    → IsPacked p
    → Holds 4096 p f
    → i < 4096
    → v < 2 ^ p.bits
    → Stores (direct_set p i v) (update f i v)
unfolding direct_set states_get mask
direct_set-Stores p f i v ip holds h small =
    let (q, set_q, w) = packed_set_lem p i v ip h in
    let bound : 2 ^ p.bits ≤ 2 ^ 32 = pow-le-pow_right (omega arith) ip.bits_le in
    let whole : (2 ^ p.bits - 1) % 2 ^ 32 ≡ 2 ^ p.bits - 1 =
      mod-eq_of_lt (omega (arith, pow_two-pos p.bits)) in
    let admitted : ltb ((2 ^ p.bits - 1) % 2 ^ 32) v ≡ false =
      rw whole (le→ltb _ _ (omega arith)) in
    (
      direct q,
      rw (admitted, set_q),
      w.packed,
      updated (packed_get q) f i v (w.at_index ∙ ap some (mod-eq_of_lt small))
          (λ j lt ne. w.elsewhere j ne ∙ holds j lt),
    )

pub palette_index-some :
    (palette : List ℕ) (v k : ℕ) → palette_index palette v ≡ some k → get_elem? palette k ≡ some v
unfolding palette_index
palette_index-some [] v k e = cc
palette_index-some (c ∷ palette) v k e = elim (Bool-cases (c == v)) [
  | inl same ↦
      let first : some 0 ≡ some k = (rw same at e) in
      subst (λ t. get_elem? (c ∷ palette) t ≡ some v) (some_path first)
        (ap some ((==_iff c v).0 same))
  | inr other ↦
      let (a, found, next) =
        bind-eq-some (palette_index palette v) (λ i. some (suc i)) k (rw other at e) in
      subst (λ t. get_elem? (c ∷ palette) t ≡ some v) (some_path next)
        (palette_index-some palette v a found)
]

-- A write of an index that the palette, grown or not, has at the value.
pub indirect-Stores :
    (palette grown : List ℕ) (p : PackedStates) (f : ℕ → ℕ) (i v k : ℕ)
    → IsPacked p
    → p.bits ≤ 8
    → length grown ≤ 2 ^ p.bits
    → ((l u : ℕ) → get_elem? palette l ≡ some u → get_elem? grown l ≡ some u)
    → get_elem? grown k ≡ some v
    → Represents (indirect palette p) f
    → i < 4096
    → Stores (stored_as (indirect grown) (packed_set p i k)) (update f i v)
unfolding states_get indirect_get
indirect-Stores palette grown p f i v k ip le fits keeps found rep h =
    let (q, set_q, w) = packed_set_lem p i k ip h in
    let small : k < 2 ^ p.bits = omega (arith, lt-get_elem? grown k v found) in
    (
      indirect grown q,
      rw set_q,
      (
        w.packed,
        subst (λ b. b ≤ 8) (sym w.bits_same) le,
        subst (λ b. length grown ≤ 2 ^ b) (sym w.bits_same) fits,
      ),
      updated (indirect_get grown q) f i v (rw (w.at_index, mod-eq_of_lt small) found) (λ j lt ne.
          let (l, packed, value) =
            bind-eq-some (packed_get p j) (λ k. get_elem? palette k) (f j) (rep j lt) in
          rw (w.elsewhere j ne, packed) (keeps l (f j) value)),
    )

pub append_state-Stores :
    (palette : List ℕ) (p : PackedStates) (f : ℕ → ℕ) (i v : ℕ)
    → IsPacked p
    → p.bits ≤ 8
    → length palette < 2 ^ p.bits
    → Represents (indirect palette p) f
    → i < 4096
    → Stores (append_state palette (some p) i v) (update f i v)
append_state-Stores palette p f i v ip le room rep h =
    indirect-Stores palette (palette ++ v ∷ []) p f i v (length palette) ip le
      (omega (arith, length-append palette (v ∷ [])))
      (λ l u e. get_elem?-append palette (v ∷ []) l (lt-get_elem? palette l u e) ∙ e)
      (get_elem?-append_end palette v) rep h

abbrev index_of : PackedStates → ℕ → ℕ
index_of p j = elim (packed_get p j) [ none ↦ 0 | some k ↦ k ]

-- Wider packed indices into the same palette.
pub resize-Represents :
    (palette : List ℕ) (p : PackedStates) (f : ℕ → ℕ)
    → IsPacked p
    → p.bits < 32
    → Represents (indirect palette p) f
    → (q : PackedStates) × (resize p (p.bits + 1) ≡ some q)
      × IsPacked q
      × (q.bits ≡ p.bits + 1)
      × Represents (indirect palette q) f
unfolding resize states_get indirect_get
resize-Represents palette p f ip lt rep =
    let bits = p.bits + 1 in
    let indices : (j : ℕ) → j < 4096 → packed_get p j ≡ some (index_of p j) = λ j h.
      let (k, e, _) = bind-eq-some (packed_get p j) (λ k. get_elem? palette k) (f j) (rep j h) in
      rw (e, index_of) in
    let (q, copied, iq, same, holds) =
      copy_states_lem 4096 0 (packed_get p) (index_of p) (zero_states bits) (omega arith) indices
        (zero_states-IsPacked bits (omega arith) (omega arith))
        (λ j h.
          subst (λ b. index_of p j < 2 ^ b) (sym (bits-zero_states bits))
            (omega (arith, packed_get-lt p j (index_of p j) (indices j h), one_more)))
        (λ j h. absurd (omega arith)) in
    (
      q,
      copied,
      iq,
      same ∙ bits-zero_states bits,
      λ j h. rw (holds j h) (rw (← rep j h, indices j h)),
    )
  where
    one_more : 2 ^ (p.bits + 1) ≡ 2 ^ p.bits * 2
    one_more = let e : p.bits + 1 ≡ suc p.bits = omega arith in rw e (pow-suc 2 p.bits)
