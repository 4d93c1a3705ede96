-- ===== src/Scheduler/Frames/Dirty.antt =====
-- Sets of masks: what the lists of the compiler and of the world hold.
use minecraft_orchestrator.Base.{
  ◌<◌, Bool, true, false, ◌||◌, ◌==◌, if◌then◌else◌, none, List, [], ◌∷◌, ◌++◌, length, All, ◌⊎◌,
  ◌≡◌, refl, ◌∙◌, inl, inr, arith, Bool-cases, length-append,
}
use minecraft_orchestrator.Model.Mask.{Mask, contains}
use minecraft_orchestrator.Core.World.{is_dirty, mark_dirty, query_touches_dirty}
use minecraft_orchestrator.Scheduler.Builder.{SystemDef}
use minecraft_orchestrator.Scheduler.Compiler.{
  append_unique_mask, append_unique_masks, wave_dirty, match_query, match_queries, match_wave,
  wave_touches_dirty,
}

abbrev pub Sub : List Mask → List Mask → Type 0
Sub d e = (m : Mask) → is_dirty d m ≡ true → is_dirty e m ≡ true

pub is_dirty_nil : (m : Mask) → is_dirty [] m ≡ false
unfolding is_dirty
is_dirty_nil m = refl

is_dirty-append :
    (xs ys : List Mask) (m : Mask) → is_dirty (xs ++ ys) m ≡ is_dirty xs m || is_dirty ys m
unfolding is_dirty
is_dirty-append [] ys m = refl
is_dirty-append (x ∷ xs) ys m = ground (arith, is_dirty-append xs ys m)

-- Adding a mask where it is missing: both `append_unique_mask` and `mark_dirty` do so.
is_dirty-add :
    (d : List Mask) (x m : Mask)
    → is_dirty (if is_dirty d x then d else d ++ x ∷ []) m ≡ is_dirty d m || x == m
is_dirty-add d x m = elim (Bool-cases (is_dirty d x)) [
  | inl old ↦ rw old (ground arith)
  | inr new ↦ rw new (is_dirty-append d (x ∷ []) m ∙ (unfold is_dirty in ground arith))
]

pub is_dirty-mark_dirty :
    (ms d : List Mask) (m : Mask) → is_dirty (mark_dirty ms d) m ≡ is_dirty d m || is_dirty ms m
unfolding mark_dirty
is_dirty-mark_dirty [] d m = unfold is_dirty in ground arith
is_dirty-mark_dirty (x ∷ ms) d m =
    is_dirty-mark_dirty ms (if is_dirty d x then d else d ++ x ∷ []) m
    ∙ rw (is_dirty-add d x m) (unfold is_dirty in ground arith)

pub is_dirty-append_unique_masks :
    (d ms : List Mask) (m : Mask)
    → is_dirty (append_unique_masks d ms) m ≡ is_dirty d m || is_dirty ms m
unfolding append_unique_masks append_unique_mask
is_dirty-append_unique_masks d [] m = unfold is_dirty in ground arith
is_dirty-append_unique_masks d (x ∷ ms) m =
    is_dirty-append_unique_masks (append_unique_mask d x) ms m
    ∙ rw (is_dirty-add d x m) (unfold is_dirty in ground arith)

-- What the systems of a wave declare.
abbrev pub declares : List SystemDef → Mask → Bool
declares [] m = false
declares (d ∷ wave) m = is_dirty d.system.access.structural m || declares wave m

pub is_dirty-wave_dirty :
    (wave : List SystemDef) (d : List Mask) (m : Mask)
    → is_dirty (wave_dirty wave d) m ≡ is_dirty d m || declares wave m
unfolding wave_dirty
is_dirty-wave_dirty [] d m = ground arith
is_dirty-wave_dirty (s ∷ wave) d m =
    is_dirty-wave_dirty wave (append_unique_masks d s.system.access.structural) m
    ∙ rw (is_dirty-append_unique_masks d s.system.access.structural m) (ground arith)

-- A wave adds to the world's dirty set what it adds to the compiler's.
pub Sub-wave :
    (wave : List SystemDef) (d e : List Mask)
    → Sub d e
    → Sub (mark_dirty (wave_dirty wave []) d) (wave_dirty wave e)
Sub-wave wave d e h m k = ground (
  arith,
  is_dirty-mark_dirty (wave_dirty wave []) d m,
  is_dirty-wave_dirty wave [] m,
  is_dirty-wave_dirty wave e m,
  h m,
  is_dirty_nil m,
)

pub is_dirty_head : (m : Mask) (d : List Mask) → is_dirty (m ∷ d) m ≡ true
unfolding is_dirty
is_dirty_head m d = ground arith

is_dirty_tail : (m n : Mask) (d : List Mask) → is_dirty d n ≡ true → is_dirty (m ∷ d) n ≡ true
unfolding is_dirty
is_dirty_tail m n d h = ground arith

pub pos_of_dirty : (d : List Mask) (m : Mask) → is_dirty d m ≡ true → 0 < length d
pos_of_dirty [] m h = ground (arith, is_dirty_nil m)
pos_of_dirty (n ∷ d) m h = omega arith

pub empty_of_Sub : (d : List Mask) → Sub d [] → d ≡ []
empty_of_Sub [] h = refl
empty_of_Sub (m ∷ d) h = ground (arith, h m, is_dirty_head m d, is_dirty_nil m)

-- No mask of the set contains a query.
abbrev pub Misses : List Mask → Mask → Type 0
Misses d q = (m : Mask) → is_dirty d m ≡ true → contains m q ≡ false

pub query_touches-none : (d : List Mask) (q : Mask) → Misses d q → query_touches_dirty d q ≡ none
unfolding query_touches_dirty
query_touches-none [] q h = refl
query_touches-none (m ∷ d) q h =
    rw (h m (is_dirty_head m d)) (query_touches-none d q (λ n k. h n (is_dirty_tail m n d k)))

append_unique_mask-pos : (masks : List Mask) (x : Mask) → 0 < length (append_unique_mask masks x)
unfolding append_unique_mask
append_unique_mask-pos [] x = ground (arith, is_dirty_nil x)
append_unique_mask-pos (m ∷ masks) x = ground (arith, length-append (m ∷ masks) (x ∷ []))

Misses-cons :
    (x : Mask) (d : List Mask) (q : Mask) → contains x q ≡ false → Misses d q → Misses (x ∷ d) q
unfolding is_dirty
Misses-cons x d q h k m e = ground (arith, k m)

-- Where nothing is matched, nothing was to match.
match_query-Misses :
    (d : List Mask) (q : Mask) (matched : List Mask)
    → length (match_query d q matched) ≡ 0
    → (length matched ≡ 0) × Misses d q
unfolding match_query
match_query-Misses [] q matched h = (h, λ m k. ground (arith, is_dirty_nil m))
match_query-Misses (x ∷ d) q matched h = elim (Bool-cases (contains x q)) [
  | inl hit ↦ absurd (
      omega (
        arith,
        append_unique_mask-pos matched x,
        (match_query-Misses d q (append_unique_mask matched x) (rw hit at h)).0,
      ))
  | inr miss ↦
      let (short, rest) = match_query-Misses d q matched (rw miss at h) in
      (short, Misses-cons x d q miss rest)
]

match_queries-Misses :
    (d qs matched : List Mask)
    → length (match_queries d qs matched) ≡ 0
    → (length matched ≡ 0) × All (Misses d) qs
unfolding match_queries
match_queries-Misses d [] matched h = (h, tt)
match_queries-Misses d (q ∷ qs) matched h =
    let (later, rest) = match_queries-Misses d qs (match_query d q matched) h in
    let (short, misses) = match_query-Misses d q matched later in (short, (misses, rest))

match_wave-Misses :
    (wave : List SystemDef) (d matched : List Mask)
    → length (match_wave wave d matched) ≡ 0
    → (length matched ≡ 0) × All (λ s. All (Misses d) s.system.access.queries) wave
unfolding match_wave
match_wave-Misses [] d matched h = (h, tt)
match_wave-Misses (s ∷ wave) d matched h =
    let (later, rest) =
      match_wave-Misses wave d (match_queries d s.system.access.queries matched) h in
    let (short, misses) = match_queries-Misses d s.system.access.queries matched later in
    (short, (misses, rest))

-- A wave that touches no dirty mask queries none.
pub untouched-Misses :
    (wave : List SystemDef) (d : List Mask)
    → (wave_touches_dirty wave d).0 ≡ false
    → All (λ s. All (Misses d) s.system.access.queries) wave
unfolding wave_touches_dirty
untouched-Misses wave d h = (match_wave-Misses wave d [] (ground arith)).1

pub Misses-Sub : (d e : List Mask) (q : Mask) → Sub d e → Misses e q → Misses d q
Misses-Sub d e q h k m j = k m (h m j)

pub Misses-nil : (q : Mask) → Misses [] q
Misses-nil q m h = ground (arith, is_dirty_nil m)

pub mark_dirty-pos :
    (ms d : List Mask) → (0 < length ms) ⊎ (0 < length d) → 0 < length (mark_dirty ms d)
unfolding mark_dirty
mark_dirty-pos [] d (inl h) = absurd (omega arith)
mark_dirty-pos [] d (inr h) = h
mark_dirty-pos (m ∷ ms) d h = mark_dirty-pos ms _ (inr (add-pos d m))
  where
    add-pos : (d : List Mask) (m : Mask) → 0 < length (if is_dirty d m then d else d ++ m ∷ [])
    add-pos [] m = ground (arith, is_dirty_nil m)
    add-pos (n ∷ d) m = ground (arith, length-append (n ∷ d) (m ∷ []))
