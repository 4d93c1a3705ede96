-- ===== src/Scheduler/Degrees.antt =====
-- The maps of orchestrator/internal/engine/scheduler/compiler.go: in-degrees by name, a Go map[ID]int
-- in the order of insertion, and lists of successors. An int is signed.
use minecraft_orchestrator.Base.{
  ℕ, zero, suc, Bool, true, false, if◌then◌else◌, List, [], ◌∷◌, ◌++◌,
}
use Prim.Native.String.{String}
use text.Mathlib.Text.{◌==◌ as str_eq}

-- `negsuc n` is -(n + 1).
pub data ℤ : Type 0 where
  pos negsuc : ℕ → ℤ

abbrev pub increment : ℤ → ℤ
increment (pos n) = pos (suc n)
increment (negsuc zero) = pos 0
increment (negsuc (suc n)) = negsuc n

abbrev pub decrement : ℤ → ℤ
decrement (pos zero) = negsuc 0
decrement (pos (suc n)) = pos n
decrement (negsuc n) = negsuc (suc n)

abbrev pub is_zero : ℤ → Bool
is_zero (pos zero) = true
is_zero (pos (suc n)) = false
is_zero (negsuc n) = false

abbrev pub Degrees : Type 0
Degrees = List (String × ℤ)

-- A missing key reads as 0.
unfoldable pub degree : String → Degrees → ℤ
degree id [] = pos 0
degree id ((i, d) ∷ rest) = if str_eq i id then d else degree id rest

-- A write keeps the place of a key that is there.
unfoldable pub set_degree : String → ℤ → Degrees → Degrees
set_degree id v [] = (id, v) ∷ []
set_degree id v ((i, d) ∷ rest) =
    if str_eq i id then (i, v) ∷ rest else (i, d) ∷ set_degree id v rest

unfoldable pub delete : String → Degrees → Degrees
delete id [] = []
delete id ((i, d) ∷ rest) = if str_eq i id then rest else (i, d) ∷ delete id rest

abbrev pub Successors : Type 0
Successors = String → List String

abbrev pub append_successor : Successors → String → String → Successors
append_successor out from to id = if str_eq from id then out from ++ to ∷ [] else out id

-- The loop over the successors of an id, each of which loses an edge.
unfoldable pub decrement_all : List String → Degrees → Degrees
decrement_all [] ds = ds
decrement_all (n ∷ ns) ds = decrement_all ns (set_degree n (decrement (degree n ds)) ds)

unfoldable pub contains_id : String → List String → Bool
contains_id id [] = false
contains_id id (i ∷ is) = if str_eq i id then true else contains_id id is

-- The keys of degree zero, in the order of the map.
unfoldable pub zero_keys : Degrees → List String
zero_keys [] = []
zero_keys ((i, d) ∷ rest) = if is_zero d then i ∷ zero_keys rest else zero_keys rest
