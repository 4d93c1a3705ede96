-- ===== src/Model/Chunks.antt =====
-- The block states of chunks of orchestrator/internal/engine/model/chunks.go: sections of 4096 states
-- in three representations. `none` is the panic on an index out of range.
pub mod Fields
pub mod Packed
pub mod Sections
pub mod Writes
pub mod Columns
use minecraft_orchestrator.Base.{
  ℕ, zero, suc, ◌+◌, ◌-◌, ◌*◌, ◌/◌, ◌%◌, ◌^◌, Bool, true, false, ◌||◌, ◌==◌, ltb, leb,
  if◌then◌else◌, Option, none, some, List, [], ◌∷◌, ◌++◌, length, get_elem?, set,
}

abbrev pub section_block_count : ℕ
section_block_count = 16 * 16 * 16

abbrev pub min_indirect_bits : ℕ
min_indirect_bits = 4

abbrev pub max_indirect_bits : ℕ
max_indirect_bits = 8

abbrev pub max_direct_bits : ℕ
max_direct_bits = 15

pub record PackedStates : Type 0 where
  pub bits : ℕ
  pub words : List ℕ

-- The three types of the interface blockStates.
pub data BlockStates : Type 0 where
  single : ℕ → BlockStates
  indirect : List ℕ → PackedStates → BlockStates
  direct : PackedStates → BlockStates

pub record ChunkSection : Type 0 where
  pub non_air : ℕ
  pub states : BlockStates

pub data ChunkError : Type 0 where
  invalid_indirect_section invalid_geometry : ChunkError
  invalid_direct_bits invalid_packed_bits : ℕ → ChunkError
  invalid_word_count : ℕ → ℕ → ChunkError

pub data Result {ℓ} (A : Type ℓ) : Type ℓ where
  ok : A → Result A
  err : ChunkError → Result A

-- What a constructor does with the packed states, or with their error.
abbrev pub on_ok {ℓ μ} : {A : Type ℓ} {B : Type μ} → (A → B) → Result A → Result B
on_ok f (err e) = err e
on_ok f (ok a) = ok (f a)

abbrev pub bind {ℓ μ} : {A : Type ℓ} {B : Type μ} → Option A → (A → Option B) → Option B
bind none f = none
bind (some a) f = f a

abbrev pub replicate {ℓ} : {A : Type ℓ} → ℕ → A → List A
replicate zero x = []
replicate (suc n) x = x ∷ replicate n x

unfoldable pub values_per_word : ℕ → ℕ
values_per_word bits = 64 / bits

unfoldable pub packed_word_count : ℕ → ℕ → ℕ
unfolding values_per_word
packed_word_count capacity bits = (capacity + values_per_word bits - 1) / values_per_word bits

-- `none` for the words is nil, which stands for zeros.
abbrev words_or_zeros : Option (List ℕ) → ℕ → List ℕ
words_or_zeros none want = replicate want 0
words_or_zeros (some words) want = words

unfoldable pub new_packed_states : ℕ → ℕ → Option (List ℕ) → Result PackedStates
unfolding packed_word_count
new_packed_states bits capacity words =
    let want = packed_word_count capacity bits in
    let given = words_or_zeros words want in
    if bits == 0 || ltb 32 bits
    then err (invalid_packed_bits bits)
    else if length given == want
    then ok (record { bits = bits; words = given })
    else err (invalid_word_count (length given) want)

unfoldable pub mask : PackedStates → ℕ
mask p = (2 ^ p.bits - 1) % 2 ^ 32

-- `(word >> shift) & mask`, for a mask of so many bits.
unfoldable pub get_field : ℕ → ℕ → ℕ → ℕ
get_field shift bits word = word / 2 ^ shift % 2 ^ bits

-- `(word &^ (mask << shift)) | (value & mask) << shift`: the bits below and above the field stay.
unfoldable pub put_field : ℕ → ℕ → ℕ → ℕ → ℕ
put_field shift bits value word =
    word % 2 ^ shift + 2 ^ shift * (value % 2 ^ bits + 2 ^ bits * (word / 2 ^ shift / 2 ^ bits))

unfoldable pub packed_get : PackedStates → ℕ → Option ℕ
unfolding values_per_word
packed_get p index =
    let n = values_per_word p.bits in
    bind (get_elem? p.words (index / n)) (λ word. some (get_field (index % n * p.bits) p.bits word))

unfoldable pub packed_set : PackedStates → ℕ → ℕ → Option PackedStates
unfolding values_per_word
packed_set p index value =
    let n = values_per_word p.bits in
    bind (get_elem? p.words (index / n)) (λ word. some (record p {
      words = set p.words (index / n) (put_field (index % n * p.bits) p.bits value word);
    }))

-- The loops of resize and toDirect: so many states from an index on are copied.
unfoldable pub copy_states : ℕ → ℕ → (ℕ → Option ℕ) → PackedStates → Option PackedStates
copy_states zero index get p = some p
copy_states (suc n) index get p =
    bind (get index) λ value. bind (packed_set p index value) λ q. copy_states n (index + 1) get q

-- What newPackedStates gives resize and toDirect, whose arguments it never refuses.
unfoldable pub zero_states : ℕ → PackedStates
zero_states bits = record {
  bits = bits;
  words = replicate (packed_word_count section_block_count bits) 0;
}

unfoldable pub resize : PackedStates → ℕ → Option PackedStates
resize p bits = copy_states section_block_count 0 (packed_get p) (zero_states bits)

unfoldable pub indirect_get : List ℕ → PackedStates → ℕ → Option ℕ
indirect_get palette p index = bind (packed_get p index) (λ k. get_elem? palette k)

unfoldable pub states_get : BlockStates → ℕ → Option ℕ
states_get (single v) index = some v
states_get (indirect palette p) index = indirect_get palette p index
states_get (direct p) index = packed_get p index

-- What a write ends in: a panic, `false`, or the states after it.
pub data Written {ℓ} (A : Type ℓ) : Type ℓ where
  panicked refused : Written A
  stored : A → Written A

abbrev pub stored_as {ℓ μ} : {A : Type ℓ} {B : Type μ} → (A → B) → Option A → Written B
stored_as f none = panicked
stored_as f (some a) = stored (f a)

-- The first index of a value in a palette.
unfoldable pub palette_index : List ℕ → ℕ → Option ℕ
palette_index [] value = none
palette_index (candidate ∷ palette) value =
    if candidate == value then some 0 else bind (palette_index palette value) (λ i. some (suc i))

unfoldable pub direct_set : PackedStates → ℕ → ℕ → Written BlockStates
direct_set p index value =
    if ltb (mask p) value then refused else stored_as direct (packed_set p index value)

unfoldable pub to_direct : List ℕ → PackedStates → Option PackedStates
to_direct palette p =
    copy_states section_block_count 0 (indirect_get palette p) (zero_states max_direct_bits)

abbrev pub direct_set_of : Option PackedStates → ℕ → ℕ → Written BlockStates
direct_set_of none index value = panicked
direct_set_of (some p) index value = direct_set p index value

-- The value joins the palette, whose packed indices have grown if they had to.
abbrev pub append_state : List ℕ → Option PackedStates → ℕ → ℕ → Written BlockStates
append_state palette none index value = panicked
append_state palette (some p) index value =
    stored_as (indirect (palette ++ value ∷ [])) (packed_set p index (length palette))

unfoldable pub indirect_set : List ℕ → PackedStates → ℕ → ℕ → Written BlockStates
indirect_set palette p index value = elim (palette_index palette value) [
  | some i ↦ stored_as (indirect palette) (packed_set p index i)
  | none ↦
      if ltb (length palette) (2 ^ p.bits)
      then append_state palette (some p) index value
      else if ltb max_indirect_bits (p.bits + 1)
      then direct_set_of (to_direct palette p) index value
      else append_state palette (resize p (p.bits + 1)) index value
]

unfoldable pub states_set : BlockStates → ℕ → ℕ → Written BlockStates
states_set (single v) index value =
    if value == v
    then stored (single v)
    else stored_as (indirect (v ∷ value ∷ [])) (packed_set (zero_states min_indirect_bits) index 1)
states_set (indirect palette p) index value = indirect_set palette p index value
states_set (direct p) index value = direct_set p index value

unfoldable pub new_single_value_section : ℕ → ℕ → Result ChunkSection
new_single_value_section non_air state = ok (record { non_air = non_air; states = single state })

unfoldable pub new_indirect_palette_section : ℕ → ℕ → List ℕ → Option (List ℕ) → Result ChunkSection
new_indirect_palette_section non_air bits palette words =
    if ltb bits 1
      || ltb max_indirect_bits bits
      || length palette == 0
      || ltb (2 ^ bits) (length palette)
    then err invalid_indirect_section
    else on_ok (λ p. record { non_air = non_air; states = indirect palette p })
        (new_packed_states bits section_block_count words)

unfoldable pub new_direct_palette_section : ℕ → ℕ → Option (List ℕ) → Result ChunkSection
new_direct_palette_section non_air bits words =
    if leb bits max_indirect_bits || ltb max_direct_bits bits
    then err (invalid_direct_bits bits)
    else on_ok (λ p. record { non_air = non_air; states = direct p })
        (new_packed_states bits section_block_count words)
