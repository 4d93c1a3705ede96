-- ===== src/ChunkDecode/Geometry.antt =====
-- The geometry and the sections of a column that decodes (decode.go).
use minecraft_orchestrator.Base.{
  ℕ, zero, suc, ◌*◌, ◌/◌, ◌%◌, ◌^◌, ◌≤◌, true, not, ◌||◌, ◌==◌, ==_iff, ltb, leb, some, List, ◌∷◌,
  length, All, ◌≡◌, refl, sym, ap, subst, ◌∙◌, inl, inr, arith, Bool-cases, if_true, if_false,
}
use minecraft_orchestrator.Model.Chunks.{
  ChunkSection, PackedStates, single, indirect, direct, new_single_value_section,
  new_indirect_palette_section, new_direct_palette_section, new_packed_states, packed_word_count,
  on_ok, invalid_packed_bits, invalid_word_count,
}
use minecraft_orchestrator.Model.Chunks as Section
use minecraft_orchestrator.Model.Chunks.Packed.{IsPacked}
use minecraft_orchestrator.Model.Chunks.Sections.{IsStates}
use minecraft_orchestrator.Model.Chunks.Columns.{
  ChunkColumn, DimensionType, new_chunk_column, geometry_matches,
}
use minecraft_orchestrator.Wire.Payload.{require_empty, read_int16}
use minecraft_orchestrator.ChunkDecode.{
  DecodeError, Result, decoded, failed, ◌>>=◌, wire, section, read_byte, read_state_id,
  read_palette, read_packed_words, made, read_single, read_indirect, read_direct, read_block_states,
  skip_biome_states, read_section, read_sections, decode_column,
}

-- The parts of a chain that succeeds.
pub >>=-eq-decoded {ℓ μ} :
    {A : Type ℓ} {B : Type μ} (m : Result A) (k : A → Result B) {b : B}
    → (m >>= k) ≡ decoded b
    → (a : A) × (m ≡ decoded a) × (k a ≡ decoded b)
>>=-eq-decoded (decoded a) k h = (a, refl, h)
>>=-eq-decoded (failed e) k h = cc

decoded_path {ℓ} : {A : Type ℓ} {a b : A} → decoded a ≡ decoded b → a ≡ b
decoded_path h = cc

ok_path {ℓ} : {A : Type ℓ} {a b : A} → Section.ok a ≡ Section.ok b → a ≡ b
ok_path h = cc

section-eq-decoded {ℓ} :
    {A : Type ℓ} (r : Section.Result A) (a : A) → section r ≡ decoded a → r ≡ Section.ok a
section-eq-decoded (Section.ok b) a h = ap Section.ok (decoded_path h)
section-eq-decoded (Section.err e) a h = cc

clash {ℓ} : {A : Type ℓ} {x : Section.ChunkError} {b : A} → Section.err x ≡ Section.ok b → ⊥
clash h = cc

new_packed_states-IsPacked :
    (bits : ℕ) (words : List ℕ) (p : PackedStates)
    → new_packed_states bits 4096 (some words) ≡ Section.ok p
    → IsPacked p × (p.bits ≡ bits)
unfolding new_packed_states
new_packed_states-IsPacked bits words p e = elim (Bool-cases (bits == 0 || ltb 32 bits)) [
  | inl bad ↦ absurd (clash (rw bad at e))
  | inr fine ↦ elim (Bool-cases (length words == packed_word_count 4096 bits)) [
    | inl right ↦
        let q : PackedStates = record { bits = bits; words = words } in
        let same : q ≡ p = ok_path (rw (fine, right) at e) in
        let iq : IsPacked q = record {
          bits_pos = ground (arith, fine);
          bits_le = ground (arith, fine);
          word_count = (==_iff _ _).0 right;
        } in
        (subst IsPacked same iq, ap (λ (r : PackedStates). r.bits) (sym same))
    | inr wrong ↦ absurd (clash (rw (fine, wrong) at e))
  ]
]

on_ok-eq-ok :
    (f : PackedStates → ChunkSection) (r : Section.Result PackedStates) (s : ChunkSection)
    → on_ok f r ≡ Section.ok s
    → (p : PackedStates) × (r ≡ Section.ok p) × (f p ≡ s)
on_ok-eq-ok f (Section.ok p) s h = (p, refl, ok_path h)
on_ok-eq-ok f (Section.err e) s h = cc

abbrev pub IsSection : ChunkSection → Type 0
IsSection s = IsStates s.states

new_indirect-IsSection :
    (non_air bits : ℕ) (palette words : List ℕ) (s : ChunkSection)
    → new_indirect_palette_section non_air bits palette (some words) ≡ Section.ok s
    → IsSection s
unfolding new_indirect_palette_section
new_indirect-IsSection non_air bits palette words s e =
    elim (Bool-cases
      (ltb bits 1 || ltb 8 bits || length palette == 0 || ltb (2 ^ bits) (length palette))) [
        | inl bad ↦ absurd (clash (sym (if_true _ _ _ bad) ∙ e))
        | inr fine ↦
            let (p, built, same) =
              on_ok-eq-ok (λ p. record { non_air = non_air; states = indirect palette p })
                (new_packed_states bits 4096 (some words)) s (sym (if_false _ _ _ fine) ∙ e) in
            let (ip, b) = new_packed_states-IsPacked bits words p built in
            let low : bits ≤ 8 = ground (arith, fine) in
            let short : length palette ≤ 2 ^ bits = ground (arith, fine) in
            subst IsSection same (
              ip,
              subst (λ k. k ≤ 8) (sym b) low,
              subst (λ k. length palette ≤ 2 ^ k) (sym b) short,
            )
      ]

new_direct-IsSection :
    (non_air bits : ℕ) (words : List ℕ) (s : ChunkSection)
    → new_direct_palette_section non_air bits (some words) ≡ Section.ok s
    → IsSection s
unfolding new_direct_palette_section
new_direct-IsSection non_air bits words s e = elim (Bool-cases (leb bits 8 || ltb 15 bits)) [
  | inl bad ↦ absurd (clash (sym (if_true _ _ _ bad) ∙ e))
  | inr fine ↦
      let (p, built, same) =
        on_ok-eq-ok (λ p. record { non_air = non_air; states = direct p })
          (new_packed_states bits 4096 (some words)) s (sym (if_false _ _ _ fine) ∙ e) in
      subst IsSection same ((new_packed_states-IsPacked bits words p built).0)
]

-- A section that was made, and the constructor's answer.
made-eq :
    (r : Section.Result ChunkSection) (rest left : List ℕ) (s : ChunkSection)
    → made r rest ≡ decoded (s, left)
    → r ≡ Section.ok s
made-eq (Section.ok t) rest left s h =
    ap Section.ok (ap (λ (q : ChunkSection × List ℕ). q.0) (decoded_path h))
made-eq (Section.err e) rest left s h = cc

not_failed {ℓ} : {A : Type ℓ} {e : DecodeError} {a : A} → failed e ≡ decoded a → ⊥
not_failed h = cc

single-IsSection :
    (non_air : ℕ) (bytes left : List ℕ) (s : ChunkSection)
    → read_single non_air bytes ≡ decoded (s, left)
    → IsSection s
unfolding read_single new_single_value_section
single-IsSection non_air bytes left s e =
    let ((id, rest), _, h) =
      >>=-eq-decoded (read_state_id bytes)
        (λ (id, rest). made (new_single_value_section non_air id) rest) e in
    subst IsSection (ok_path (made-eq (new_single_value_section non_air id) rest left s h)) tt

indirect-IsSection :
    (non_air bits : ℕ) (bytes left : List ℕ) (s : ChunkSection)
    → read_indirect non_air bits bytes ≡ decoded (s, left)
    → IsSection s
unfolding read_indirect
indirect-IsSection non_air bits bytes left s e =
    let ((palette, rest), _, h) = >>=-eq-decoded (read_palette bits bytes) _ e in
    let ((words, end), _, k) =
      >>=-eq-decoded (read_packed_words 4096 bits rest)
        (λ (words, end). made (new_indirect_palette_section non_air bits palette (some words)) end)
        h in
    new_indirect-IsSection non_air bits palette words s (made-eq _ end left s k)

direct-IsSection :
    (non_air bits : ℕ) (bytes left : List ℕ) (s : ChunkSection)
    → read_direct non_air bits bytes ≡ decoded (s, left)
    → IsSection s
unfolding read_direct
direct-IsSection non_air bits bytes left s e =
    let ((words, end), _, k) =
      >>=-eq-decoded (read_packed_words 4096 bits bytes)
        (λ (words, end). made (new_direct_palette_section non_air bits (some words)) end) e in
    new_direct-IsSection non_air bits words s (made-eq _ end left s k)

read_block_states-IsSection :
    (non_air : ℕ) (bytes left : List ℕ) (s : ChunkSection)
    → read_block_states non_air bytes ≡ decoded (s, left)
    → IsSection s
unfolding read_block_states
read_block_states-IsSection non_air bytes left s e =
    let ((bits, rest), _, h) = >>=-eq-decoded (read_byte bytes) _ e in
    elim (Bool-cases (bits == 0)) [
      | inl one ↦ single-IsSection non_air rest left s (sym (if_true _ _ _ one) ∙ h)
      | inr some_bits ↦ elim (Bool-cases (leb bits 8)) [
        | inl few ↦
            indirect-IsSection non_air bits rest left s
              (sym (if_true _ _ _ few) ∙ sym (if_false _ _ _ some_bits) ∙ h)
        | inr many ↦ elim (Bool-cases (ltb 15 bits)) [
          | inl over ↦ absurd (
              not_failed (
                sym (if_true _ _ _ over)
                ∙ sym (if_false _ _ _ many)
                ∙ sym (if_false _ _ _ some_bits)
                ∙ h))
          | inr fine ↦ direct-IsSection non_air bits rest left s (
              sym (if_false _ _ _ fine)
              ∙ sym (if_false _ _ _ many)
              ∙ sym (if_false _ _ _ some_bits)
              ∙ h)
        ]
      ]
    ]

read_section-IsSection :
    (bytes left : List ℕ) (s : ChunkSection) → read_section bytes ≡ decoded (s, left) → IsSection s
unfolding read_section
read_section-IsSection bytes left s e =
    let ((non_air, rest), _, h) = >>=-eq-decoded (wire (read_int16 bytes)) _ e in
    elim (Bool-cases (leb (2 ^ 15) non_air)) [
      | inl negative ↦ absurd (not_failed (sym (if_true _ _ _ negative) ∙ h))
      | inr fine ↦
          let ((t, after), states, k) =
            >>=-eq-decoded (read_block_states non_air rest)
              (λ (t, after). skip_biome_states after >>= λ end. decoded (t, end))
              (sym (if_false _ _ _ fine) ∙ h) in
          let (end, _, same) =
            >>=-eq-decoded (skip_biome_states after) (λ end. decoded (t, end)) k in
          subst IsSection (ap (λ (q : ChunkSection × List ℕ). q.0) (decoded_path same))
            (read_block_states-IsSection non_air rest after t states)
    ]

read_sections-IsSection :
    (n : ℕ) (bytes left : List ℕ) (ss : List ChunkSection)
    → read_sections n bytes ≡ decoded (ss, left)
    → All IsSection ss
unfolding read_sections
read_sections-IsSection zero bytes left ss e =
    subst (All IsSection) (ap (λ (q : List ChunkSection × List ℕ). q.0) (decoded_path e)) tt
read_sections-IsSection (suc n) bytes left ss e =
    let ((s, rest), first, h) =
      >>=-eq-decoded (read_section bytes)
        (λ (s, rest). read_sections n rest >>= λ (more, end). decoded (s ∷ more, end)) e in
    let ((more, end), others, same) =
      >>=-eq-decoded (read_sections n rest) (λ (more, end). decoded (s ∷ more, end)) h in
    subst (All IsSection) (ap (λ (q : List ChunkSection × List ℕ). q.0) (decoded_path same))
      (read_section-IsSection bytes rest s first, read_sections-IsSection n rest end more others)

new_chunk_column-eq :
    (min_y height : ℕ) (ss : List ChunkSection) (c : ChunkColumn)
    → new_chunk_column min_y height ss ≡ Section.ok c
    → (c ≡ record { min_y = min_y; height = height; sections = ss; version = 0 })
      × (min_y % 16 ≡ 0)
      × (height % 16 ≡ 0)
      × (length ss ≡ height / 16)
unfolding new_chunk_column
new_chunk_column-eq min_y height ss c e = ground arith

-- A column that decodes has the geometry of its dimension, so that it is not refused for another; it
-- starts at a multiple of 16, has a section for each 16 blocks of its height, and in each section the
-- words are as many as the bits ask for and the palette, if any, is no longer than they can index.
pub decode_column-geometry :
    (payload : List ℕ) (d : DimensionType) (c : ChunkColumn)
    → decode_column payload d ≡ decoded c
    → (geometry_matches c d ≡ true)
      × (c.min_y % 16 ≡ 0)
      × (length c.sections * 16 ≡ d.height)
      × All IsSection c.sections
unfolding decode_column geometry_matches
decode_column-geometry payload d c e =
    elim (Bool-cases (
      not (d.min_y % 16 == 0)
      || (d.height == 0 || leb (2 ^ 31) d.height)
      || not (d.height % 16 == 0))) [
        | inl bad ↦ absurd (not_failed (sym (if_true _ _ _ bad) ∙ e))
        | inr fine ↦
            let ((ss, rest), read, h) =
              >>=-eq-decoded (read_sections (d.height / 16) payload)
                (λ (ss, rest). wire (require_empty rest) >>= λ done.
                  section (new_chunk_column d.min_y d.height ss))
                (sym (if_false _ _ _ fine) ∙ e) in
            let (done, _, built) =
              >>=-eq-decoded (wire (require_empty rest))
                (λ u. section (new_chunk_column d.min_y d.height ss)) h in
            let (same, aligned, whole, count) =
              new_chunk_column-eq d.min_y d.height ss c
                (section-eq-decoded (new_chunk_column d.min_y d.height ss) c built) in
            rw same (
              ground arith,
              aligned,
              omega arith,
              read_sections-IsSection (d.height / 16) payload rest ss read,
            )
      ]
