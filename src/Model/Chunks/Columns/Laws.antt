-- ===== src/Model/Chunks/Columns/Laws.antt =====
-- Blocks that are set and read in a column (chunks.go).
use minecraft_orchestrator.Base.{
  ℕ, ◌+◌, ◌*◌, ◌/◌, ◌%◌, ◌^◌, ◌<◌, ◌≡◌, ◌≢◌, sym, ap, ◌∙◌, inl, inr, arith, Bool-cases, ==-cases,
  false, some, length, get_elem?, set, update, update_self, update_ne, get_elem?-lt,
  get_elem?-set_self, get_elem?-set_ne, length-set, bit_or, bit_or-high, bit_or_comm,
}
use minecraft_orchestrator.Model.Chunks.{ChunkSection, BlockStates, stored}
use minecraft_orchestrator.Model.Chunks.Sections.{IsStates, Represents, Fits}
use minecraft_orchestrator.Model.Chunks.Writes.{states_set-Stores}
use minecraft_orchestrator.Model.Chunks.Columns.{
  ChunkColumn, offset, outside, state_index, block_state, next_non_air, set_block_state,
}

-- The fields of an index do not meet.
state_index-sum : (x y z : ℕ) → x < 16 → z < 16 → state_index x y z ≡ x + (z + y % 16 * 16) * 16
unfolding state_index
state_index-sum x y z hx hz =
    let upper : bit_or (y % 16 * 2 ^ 8) (z * 2 ^ 4) ≡ (z + y % 16 * 16) * 2 ^ 4 =
      bit_or_comm _ _ ∙ bit_or-high 8 (z * 2 ^ 4) (y % 16) (omega arith) ∙ omega arith in
    rw upper (bit_or_comm _ _ ∙ bit_or-high 4 x (z + y % 16 * 16) (omega arith) ∙ omega arith)

-- The section of the height, where the column has one, reads as a function of the index (so that each
-- of its packed indices is within its palette), and has room for one more state.
abbrev pub HasRoom : ChunkColumn → ℕ → (ℕ → ℕ) → ℕ → Type 0
HasRoom c y f v =
    (s : ChunkSection)
    → get_elem? c.sections (offset c y / 16) ≡ some s
    → IsStates s.states × Represents s.states f × Fits s.states f v

inside :
    (c : ChunkColumn) (x y z : ℕ)
    → outside c x y z ≡ false
    → (x < 16) × (z < 16) × (offset c y / 16 < length c.sections)
unfolding outside
inside c x y z h = ground arith

-- Two blocks of a column with one section and one index are one block.
same_block :
    (c : ChunkColumn) (x y z x' y' z' : ℕ)
    → c.min_y % 16 ≡ 0
    → c.min_y < 2 ^ 32
    → (y < 2 ^ 32) × (y' < 2 ^ 32)
    → (x < 16) × (z < 16) × (x' < 16) × (z' < 16)
    → offset c y / 16 ≡ offset c y' / 16
    → state_index x y z ≡ state_index x' y' z'
    → (x ≡ x') × (y ≡ y') × (z ≡ z')
unfolding offset
same_block c x y z x' y' z' aligned m (hy, hy') (hx, hz, hx', hz') section index =
    let sums : x + (z + y % 16 * 16) * 16 ≡ x' + (z' + y' % 16 * 16) * 16 =
      sym (state_index-sum x y z hx hz) ∙ index ∙ state_index-sum x' y' z' hx' hz' in
    (omega arith, omega arith, omega arith)

module _ (c : ChunkColumn) (f : ℕ → ℕ) (x y z v : ℕ) (s : ChunkSection) (states : BlockStates) where
  abbrev k : ℕ
  k = offset c y / 16

  abbrev i : ℕ
  i = state_index x y z

  abbrev after : ChunkColumn
  after = record c {
    sections =
        set c.sections k (record { non_air = next_non_air (f i) v s.non_air; states = states });
  }

  module _ (within : outside c x y z ≡ false) (found : get_elem? c.sections k ≡ some s)
      (represents : Represents s.states f) (after_write : Represents states (update f i v)) where
    lt : k < length c.sections
    lt = (inside c x y z within).2

    index-lt : i < 4096
    index-lt = let (hx, hz, _) = inside c x y z within in omega (arith, state_index-sum x y z hx hz)

    outside-after : (x' y' z' : ℕ) → outside after x' y' z' ≡ outside c x' y' z'
    unfolding outside offset
    outside-after x' y' z' = rw (
        length-set c.sections k
          (record { non_air = next_non_air (f i) v s.non_air; states = states }))

    section_at :
        get_elem? after.sections k
        ≡ some (record { non_air = next_non_air (f i) v s.non_air; states = states })
    section_at = get_elem?-set_self c.sections k _ lt

    read_self : block_state after x y z ≡ some (some v)
    unfolding block_state offset
    read_self =
        rw (outside-after x y z, within, section_at, after_write i index-lt)
          (ap (λ (t : ℕ). some (some t)) (update_self f i v))

    read_other :
        (x' y' z' : ℕ)
        → c.min_y % 16 ≡ 0
        → c.min_y < 2 ^ 32
        → (y < 2 ^ 32) × (y' < 2 ^ 32)
        → (x ≡ x' → y ≡ y' → z ≡ z' → ⊥)
        → block_state after x' y' z' ≡ block_state c x' y' z'
    unfolding block_state offset
    read_other x' y' z' aligned m ys ne = elim (Bool-cases (outside c x' y' z')) [
      | inl out ↦ rw (outside-after x' y' z', out)
      | inr within' ↦ elim (==-cases k (offset c y' / 16)) [
        | inr sections ↦ rw (
          outside-after x' y' z',
          within',
          get_elem?-set_ne c.sections k (offset c y' / 16)
              (record { non_air = next_non_air (f i) v s.non_air; states = states }) sections,
        )
        | inl section ↦
            let (hx, hz, _) = inside c x y z within in
            let (hx', hz', _) = inside c x' y' z' within' in
            let index : i ≢ state_index x' y' z' = λ e.
              let (ex, ey, ez) =
                same_block c x y z x' y' z' aligned m ys (hx, hz, hx', hz') section e in
              ne ex ey ez in
            let small : state_index x' y' z' < 4096 =
              omega (arith, state_index-sum x' y' z' hx' hz') in
            rw
              (
                outside-after x' y' z',
                within',
                ← section,
                section_at,
                found,
                after_write _ small,
                represents _ small,
              )
              (ap (λ (t : ℕ). some (some t)) (update_ne f i (state_index x' y' z') v index))
      ]
    ]

-- In an aligned column, a block inside it is set when the section it lies in reads as a function of its
-- 4096 indices (its packed indices are within its palette) and has room for the state; the state is
-- then read at its place, and at every other place the column reads as before.
pub block_state-set_block_state :
    (c : ChunkColumn) (f : ℕ → ℕ) (x y z v : ℕ)
    → c.min_y % 16 ≡ 0
    → c.min_y < 2 ^ 32
    → y < 2 ^ 32
    → HasRoom c y f v
    → outside c x y z ≡ false
    → (d : ChunkColumn) × (set_block_state c x y z v ≡ stored d)
      × (block_state d x y z ≡ some (some v))
      × ((x' y' z' : ℕ)
          → y' < 2 ^ 32
          → (x ≡ x' → y ≡ y' → z ≡ z' → ⊥)
          → block_state d x' y' z' ≡ block_state c x' y' z')
unfolding set_block_state
block_state-set_block_state c f x y z v aligned m hy room within =
    let k : ℕ = offset c y / 16 in
    let i : ℕ = state_index x y z in
    let (hx, hz, lt) = inside c x y z within in
    let small : i < 4096 = omega (arith, state_index-sum x y z hx hz) in
    let (s, found) = get_elem?-lt c.sections k lt in
    let (is, represents, fits) = room s found in
    let (states, wrote, _, after_write) =
      states_set-Stores s.states f i v is represents fits small in
    (
      after c f x y z v s states,
      rw (within, found, represents i small, wrote),
      read_self c f x y z v s states within found represents after_write,
      λ x' y' z' hy' ne.
          read_other c f x y z v s states within found represents after_write x' y' z' aligned m
            (hy, hy') ne,
    )
