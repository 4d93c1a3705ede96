-- ===== src/Model/Chunks/Writes.antt =====
-- Writes to the block states of a section, in each representation (chunks.go).
use minecraft_orchestrator.Base.{
  ℕ, suc, ◌+◌, ◌*◌, ◌%◌, ◌^◌, ◌≤◌, ◌<◌, ◌≡◌, refl, sym, ap, subst, ◌∙◌, inl, inr, arith, Bool-cases,
  ◌==◌, ==_iff, Option, none, some, List, [], ◌∷◌, length, ltb, update, ltb→lt, ltb-false→le,
}
use native.Mathlib.Nat.{pow-suc}
use minecraft_orchestrator.Model.Chunks.{
  PackedStates, BlockStates, single, indirect, direct, packed_set, zero_states, resize,
  indirect_get, states_get, stored_as, palette_index, to_direct, append_state, direct_set_of,
  indirect_set, states_set,
}
use minecraft_orchestrator.Model.Chunks.Fields.{pow_two-pos}
use minecraft_orchestrator.Model.Chunks.Packed.{
  packed_set_lem, zero_states-IsPacked, bits-zero_states, zero_states-Holds, copy_states_lem,
}
use minecraft_orchestrator.Model.Chunks.Sections.{
  IsStates, Represents, Fits, Stores, direct_set-Stores, palette_index-some, indirect-Stores,
  append_state-Stores, resize-Represents, updated,
}

-- The change to direct states, where the palette is full at eight bits.
to_direct-Stores :
    (palette : List ℕ) (p : PackedStates) (f : ℕ → ℕ) (i v : ℕ)
    → Represents (indirect palette p) f
    → Fits (indirect palette p) f v
    → i < 4096
    → Stores (direct_set_of (to_direct palette p) i v) (update f i v)
unfolding to_direct states_get
to_direct-Stores palette p f i v rep fits h =
    let (q, copied, iq, same, holds) =
      copy_states_lem 4096 0 (indirect_get palette p) f (zero_states 15) (omega arith) rep
        (zero_states-IsPacked 15 (omega arith) (omega arith))
        (λ j lt. subst (λ b. f j < 2 ^ b) (sym (bits-zero_states 15)) (fits.1 j lt))
        (λ j lt. absurd (omega arith)) in
    rw copied (
      direct_set-Stores q f i v iq holds h
        (subst (λ b. v < 2 ^ b) (sym (same ∙ bits-zero_states 15)) fits.0))

-- A palette that is full, at fewer than eight bits.
widened-Stores :
    (palette : List ℕ) (p : PackedStates) (f : ℕ → ℕ) (i v : ℕ)
    → IsStates (indirect palette p)
    → Represents (indirect palette p) f
    → p.bits + 1 ≤ 8
    → i < 4096
    → Stores (append_state palette (resize p (p.bits + 1)) i v) (update f i v)
widened-Stores palette p f i v (ip, le, fits) rep narrow h =
    let (q, resized, iq, same, rep') = resize-Represents palette p f ip (omega arith) rep in
    let more : 2 ^ (p.bits + 1) ≡ 2 ^ p.bits * 2 =
      let e : p.bits + 1 ≡ suc p.bits = omega arith in rw e (pow-suc 2 p.bits) in
    let room : length palette < 2 ^ (p.bits + 1) = omega (arith, pow_two-pos p.bits) in
    rw resized (
      append_state-Stores palette q f i v iq (subst (λ b. b ≤ 8) (sym same) narrow)
        (subst (λ b. length palette < 2 ^ b) (sym same) room) rep' h)

indirect_set-Stores :
    (palette : List ℕ) (p : PackedStates) (f : ℕ → ℕ) (i v : ℕ)
    → IsStates (indirect palette p)
    → Represents (indirect palette p) f
    → Fits (indirect palette p) f v
    → i < 4096
    → Stores (indirect_set palette p i v) (update f i v)
unfolding indirect_set
indirect_set-Stores palette p f i v (ip, le, short) rep fits h = go (palette_index palette v) refl
  where
    go :
        (o : Option ℕ)
        → palette_index palette v ≡ o
        → Stores (indirect_set palette p i v) (update f i v)
    go (some k) e =
        rw (e, indirect_set)
          (indirect-Stores palette palette p f i v k ip le short (λ l u found. found)
            (palette_index-some palette v k e) rep h)
    go none e = elim (Bool-cases (ltb (length palette) (2 ^ p.bits))) [
      | inl room ↦
          rw (e, indirect_set, room)
            (append_state-Stores palette p f i v ip le (ltb→lt _ _ room) rep h)
      | inr full ↦ elim (Bool-cases (ltb 8 (p.bits + 1))) [
        | inl widest ↦
            rw (e, indirect_set, full, widest) (to_direct-Stores palette p f i v rep fits h)
        | inr narrow ↦
            rw (e, indirect_set, full, narrow)
              (widened-Stores palette p f i v (ip, le, short) rep (ltb-false→le _ _ narrow) h)
      ]
    ]

-- A section of one value gets a palette of two.
single_set-Stores :
    (w : ℕ) (f : ℕ → ℕ) (i v : ℕ)
    → Represents (single w) f
    → i < 4096
    → Stores (stored_as (indirect (w ∷ v ∷ [])) (packed_set (zero_states 4) i 1)) (update f i v)
unfolding states_get indirect_get
single_set-Stores w f i v rep h =
    let ip = zero_states-IsPacked 4 (omega arith) (omega arith) in
    let (q, set_q, wr) = packed_set_lem (zero_states 4) i 1 ip h in
    let four : q.bits ≡ 4 = wr.bits_same ∙ bits-zero_states 4 in
    let one : 1 % 2 ^ (zero_states 4).bits ≡ 1 = rw (bits-zero_states 4) (omega arith) in
    (
      indirect (w ∷ v ∷ []) q,
      rw set_q,
      (wr.packed, rw four (omega arith), rw four (omega arith)),
      updated (indirect_get (w ∷ v ∷ []) q) f i v (rw (wr.at_index, one)) (λ j lt ne.
          rw (wr.elsewhere j ne, zero_states-Holds 4 (omega arith) (omega arith) j lt) (rep j lt)),
    )

-- In a section whose 4096 states are those of a function, a write that fits is carried out, in each
-- of the three representations and where it changes the representation, and the states after it are
-- those of the function updated at the index.
pub states_set-Stores :
    (s : BlockStates) (f : ℕ → ℕ) (i v : ℕ)
    → IsStates s
    → Represents s f
    → Fits s f v
    → i < 4096
    → Stores (states_set s i v) (update f i v)
unfolding states_set states_get
states_set-Stores (single w) f i v is rep fits h = elim (Bool-cases (v == w)) [
  | inl same ↦
      let e : v ≡ w = (==_iff v w).0 same in
      rw same
        (single w, refl, tt, updated (λ j. some w) f i v (ap some (sym e)) (λ j lt ne. rep j lt))
  | inr other ↦ rw other (single_set-Stores w f i v rep h)
]
states_set-Stores (indirect palette p) f i v is rep fits h =
    indirect_set-Stores palette p f i v is rep fits h
states_set-Stores (direct p) f i v is rep fits h = direct_set-Stores p f i v is rep h fits
