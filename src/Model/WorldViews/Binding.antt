-- ===== src/Model/WorldViews/Binding.antt =====
-- The operations on the views as steps: what each leaves alone, and the binding of the dimension.
use minecraft_orchestrator.Base.{
  ℕ, Bool, true, false, not, ◌||◌, Option, none, some, List, update, update_ne, update_self, ◌≡◌,
  ◌≢◌, refl, sym, ap, subst, ◌∙◌, inl, inr, ◌⊎◌, arith, ==-cases, Bool-cases, if_true,
}
use Prim.Native.String.{String}
use minecraft_orchestrator.Model.Types.{ProfileId, BlockPosition}
use minecraft_orchestrator.Model.Chunks.{Written, panicked, refused, stored}
use minecraft_orchestrator.Model.Chunks.Columns.{ChunkColumn, DimensionType, geometry_matches}
use minecraft_orchestrator.Model.WorldViews.{
  ChunkPosition, Chunks, WorldView, WorldViews, fresh_view, find_chunk, chunks_of, begin_attempt,
  dimension_type, current, save, rebind, with_types, set_dimension_types, bind_found,
  bind_dimension, update_perception, remove, replace_chunk, unload_found, unload_chunk,
}
use minecraft_orchestrator.Model.WorldViews.Blocks.{
  set_block_state, set_block_states, set_found, save_column, set_in_column, chunk_of,
  out_of_dimension, set_all, then_chunks, update_blocks,
}

-- What has been looked up for the active dimension is what its list has.
abbrev pub IsBound : WorldView → Type 0
IsBound view =
    view.has_active_dimension_type ≡ true
    → (view.has_dimension_type_binding ≡ true)
      × (dimension_type view.dimension_types view.active_dimension_type_id
          ≡ some view.active_dimension_type)

-- An entry for the profile that is bound if the entry before it was.
abbrev pub Bound : Option WorldView → Type 0
Bound none = Unit {0}
Bound (some view) = IsBound view

-- One call of an operation for a profile, which did not panic.
pub data Step (p : ProfileId) : WorldViews → WorldViews → Type 0 where
  begun : (a : ℕ) (v : WorldViews) → Step p v (begin_attempt p a v)
  types_set :
      (a : ℕ) (types : List DimensionType) (v : WorldViews)
      → Step p v (set_dimension_types p a types v).0
  bound : (a id : ℕ) (v : WorldViews) → Step p v (bind_dimension p a id v).0
  perceived :
      (a : ℕ) (d : String) (c : ChunkPosition) (n : ℕ) (v : WorldViews)
      → Step p v (update_perception p a d c n v).0
  removed : (a : ℕ) (v : WorldViews) → Step p v (remove p a v).0
  replaced :
      (a : ℕ) (at : ChunkPosition) (c : ChunkColumn) (v : WorldViews)
      → Step p v (replace_chunk p a at c v).0
  unloaded : (a : ℕ) (at : ChunkPosition) (v : WorldViews) → Step p v (unload_chunk p a at v).0
  block_set :
      (a : ℕ) (at : BlockPosition) (s : ℕ) {v u : WorldViews} {answer : Bool}
      → set_block_state p a at s v ≡ some (u, answer)
      → Step p v u
  blocks_set :
      (a : ℕ) (us : List (BlockPosition × ℕ)) {v u : WorldViews} {answer : Bool}
      → set_block_states p a us v ≡ some (u, answer)
      → Step p v u

-- What a step does: nothing, or it changes the entry of its profile, which stays bound.
abbrev Changes : ProfileId → WorldViews → WorldViews → Type 0
Changes p v u = (u ≡ v) ⊎ ((o : Option WorldView) × (u ≡ update v p o) × (Bound (v p) → Bound o))

current-some :
    (p : ProfileId) (a : ℕ) (v : WorldViews) (view : WorldView)
    → current p a v ≡ some view
    → v p ≡ some view
unfolding current
current-some p a v view e = ground arith

-- The same binding in a view that an operation has changed elsewhere.
kept :
    (p : ProfileId) (a : ℕ) (v : WorldViews) (view : WorldView) (changed : WorldView)
    → current p a v ≡ some view
    → (IsBound view → IsBound changed)
    → Changes p v (update v p (some changed))
kept p a v view changed e keep =
    inr (some changed, refl, λ b. keep (subst Bound (current-some p a v view e) b))

rebind-IsBound :
    (view : WorldView) (o : Option DimensionType)
    → view.has_dimension_type_binding ≡ true
    → dimension_type view.dimension_types view.active_dimension_type_id ≡ o
    → IsBound (rebind view o)
rebind-IsBound view none b e h = cc
rebind-IsBound view (some active) b e h = ground arith

with_types-IsBound :
    (types : List DimensionType) (view : WorldView) → IsBound view → IsBound (with_types types view)
unfolding with_types
with_types-IsBound types view b = elim (Bool-cases view.has_dimension_type_binding) [
  | inl known ↦ rw known (
      rebind-IsBound (record view { dimension_types = types; has_dimension_type_binding = true })
        (dimension_type types view.active_dimension_type_id) refl refl)
  | inr free ↦ rw free (λ h. absurd (clash (b h).0 free))
]
  where
    clash : {x : Bool} → x ≡ true → x ≡ false → ⊥
    clash s t = cc

save_column-Changes :
    (p : ProfileId) (a : ℕ) (at : ChunkPosition) (v : WorldViews) (view : WorldView)
    (w : Written ChunkColumn) (u : WorldViews) (answer : Bool)
    → current p a v ≡ some view
    → save_column p at view v w ≡ some (u, answer)
    → Changes p v u
save_column-Changes p a at v view panicked u answer e h = cc
save_column-Changes p a at v view refused u answer e h = inl (sym (first_path h))
  where
    first_path : {r s : WorldViews × Bool} → some r ≡ some s → r.0 ≡ s.0
    first_path k = cc
save_column-Changes p a at v view (stored c) u answer e h =
    subst (Changes p v) (first_path h) (kept p a v view _ e (λ b. b))
  where
    first_path : {r s : WorldViews × Bool} → some r ≡ some s → r.0 ≡ s.0
    first_path k = cc

answered : {r s : WorldViews × Bool} → some r ≡ some s → r.0 ≡ s.0
answered k = cc

set_all-Changes :
    (p : ProfileId) (a : ℕ) (us : List (BlockPosition × ℕ)) (v : WorldViews) (view : WorldView)
    (o : Option Chunks) (u : WorldViews) (answer : Bool)
    → current p a v ≡ some view
    → set_all p us view v o ≡ some (u, answer)
    → Changes p v u
set_all-Changes p a us v view none u answer e h = inl (sym (answered h))
set_all-Changes p a us v view (some chunks) u answer e h =
    go (update_blocks view.active_dimension_type us chunks) h
  where
    go :
        (r : Option Chunks)
        → then_chunks r (λ after. some (save p (record view { chunks = some after }) v))
          ≡ some (u, answer)
        → Changes p v u
    go none k = cc
    go (some after) k = subst (Changes p v) (answered k) (kept p a v view _ e (λ b. b))

-- Each step, given what the lookup of the current view gives.
module _ (p : ProfileId) (a : ℕ) (v : WorldViews) where
  types_set-Changes :
      (types : List DimensionType) (o : Option WorldView)
      → current p a v ≡ o
      → Changes p v (set_dimension_types p a types v).0
  unfolding set_dimension_types
  types_set-Changes types none e = rw (e, set_dimension_types) (inl refl)
  types_set-Changes types (some view) e =
      rw (e, set_dimension_types)
        (kept p a v view (with_types types view) e (with_types-IsBound types view))

  bound-Changes :
      (id : ℕ) (o : Option WorldView) → current p a v ≡ o → Changes p v (bind_dimension p a id v).0
  unfolding bind_dimension
  bound-Changes id none e = rw (e, bind_dimension) (inl refl)
  bound-Changes id (some view) e =
      rw (e, bind_dimension) (go (dimension_type view.dimension_types id) refl)
    where
      go :
          (o : Option DimensionType)
          → dimension_type view.dimension_types id ≡ o
          → Changes p v (bind_found p id view v o).0
      go none f = inl refl
      go (some found) f = kept p a v view _ e (λ b h. (refl, f))

  perceived-Changes :
      (d : String) (c : ChunkPosition) (n : ℕ) (o : Option WorldView)
      → current p a v ≡ o
      → Changes p v (update_perception p a d c n v).0
  unfolding update_perception
  perceived-Changes d c n none e = rw (e, update_perception) (inl refl)
  perceived-Changes d c n (some view) e = rw (e, update_perception) (kept p a v view _ e (λ b. b))

  removed-Changes : (o : Option WorldView) → current p a v ≡ o → Changes p v (remove p a v).0
  unfolding remove
  removed-Changes none e = rw (e, remove) (inl refl)
  removed-Changes (some view) e = rw (e, remove) (inr (none, refl, λ b. tt))

  replaced-Changes :
      (at : ChunkPosition) (c : ChunkColumn) (o : Option WorldView)
      → current p a v ≡ o
      → Changes p v (replace_chunk p a at c v).0
  unfolding replace_chunk
  replaced-Changes at c none e = rw (e, replace_chunk) (inl refl)
  replaced-Changes at c (some view) e =
      elim (Bool-cases (
        not view.has_active_dimension_type
        || not (geometry_matches c view.active_dimension_type))) [
          | inl bad ↦ rw (e, replace_chunk, bad) (inl refl)
          | inr fine ↦ rw (e, replace_chunk, fine) (kept p a v view _ e (λ b. b))
        ]

  unloaded-Changes :
      (at : ChunkPosition) (o : Option WorldView)
      → current p a v ≡ o
      → Changes p v (unload_chunk p a at v).0
  unfolding unload_chunk
  unloaded-Changes at none e = rw (e, unload_chunk) (inl refl)
  unloaded-Changes at (some view) e = elim (Bool-cases view.has_active_dimension_type) [
    | inr idle ↦ rw (e, unload_chunk, idle) (inl refl)
    | inl active ↦
        rw (e, unload_chunk)
          (subst (λ (r : WorldViews × Bool). Changes p v r.0)
            (sym (if_true view.has_active_dimension_type _ _ active))
            (go (find_chunk at (chunks_of view.chunks))))
  ]
    where
      go : (o : Option ChunkColumn) → Changes p v (unload_found p at view v o).0
      go none = inl refl
      go (some c) = kept p a v view _ e (λ b. b)

  block_set-Changes :
      (at : BlockPosition) (s : ℕ) (u : WorldViews) (answer : Bool) (o : Option WorldView)
      → current p a v ≡ o
      → set_block_state p a at s v ≡ some (u, answer)
      → Changes p v u
  unfolding set_block_state
  block_set-Changes at s u answer none e h = inl (sym (answered (rw (e, set_block_state) at h)))
  block_set-Changes at s u answer (some view) e h =
      elim (Bool-cases
        (not view.has_active_dimension_type || out_of_dimension view.active_dimension_type at.y)) [
          | inl out ↦ inl (sym (answered (rw (e, set_block_state, out) at h)))
          | inr within ↦
              go (find_chunk (chunk_of at) (chunks_of view.chunks))
                (rw (e, set_block_state, within) at h)
        ]
    where
      go : (o : Option ChunkColumn) → set_found p at s view v o ≡ some (u, answer) → Changes p v u
      go none k = inl (sym (answered k))
      go (some c) k =
          save_column-Changes p a (chunk_of at) v view (set_in_column at s c) u answer e k

  blocks_set-Changes :
      (us : List (BlockPosition × ℕ)) (u : WorldViews) (answer : Bool) (o : Option WorldView)
      → current p a v ≡ o
      → set_block_states p a us v ≡ some (u, answer)
      → Changes p v u
  unfolding set_block_states
  blocks_set-Changes us u answer none e h = inl (sym (answered (rw (e, set_block_states) at h)))
  blocks_set-Changes us u answer (some view) e h =
      elim (Bool-cases view.has_active_dimension_type) [
        | inr idle ↦ inl (sym (answered (rw (e, set_block_states, idle) at h)))
        | inl active ↦ set_all-Changes p a us v view view.chunks u answer e (
            sym (if_true view.has_active_dimension_type _ _ active)
            ∙ (rw (e, set_block_states) at h))
      ]

Step-Changes : {p : ProfileId} {v u : WorldViews} → Step p v u → Changes p v u
unfolding begin_attempt
Step-Changes {p} (begun a v) = inr (some (fresh_view a), refl, λ b h. cc)
Step-Changes {p} (types_set a types v) = types_set-Changes p a v types (current p a v) refl
Step-Changes {p} (bound a id v) = bound-Changes p a v id (current p a v) refl
Step-Changes {p} (perceived a d c n v) = perceived-Changes p a v d c n (current p a v) refl
Step-Changes {p} (removed a v) = removed-Changes p a v (current p a v) refl
Step-Changes {p} (replaced a at c v) = replaced-Changes p a v at c (current p a v) refl
Step-Changes {p} (unloaded a at v) = unloaded-Changes p a v at (current p a v) refl
Step-Changes {p} {v} {u} (block_set a at s {answer = r} e) =
    block_set-Changes p a v at s u r (current p a v) refl e
Step-Changes {p} {v} {u} (blocks_set a us {answer = r} e) =
    blocks_set-Changes p a v us u r (current p a v) refl e

-- An operation for one bot leaves the view of every other bot as it is.
pub Step-other :
    {p : ProfileId} {v u : WorldViews} → Step p v u → (q : ProfileId) → p ≢ q → u q ≡ v q
Step-other {p} {v} {u} step q ne = elim (Step-Changes step) [
  | inl same ↦ rw same
  | inr (o, changed, _) ↦ rw changed (update_ne v p q o ne)
]

-- Operations for any bots, one after another.
pub data Reach (v : WorldViews) : WorldViews → Type 0 where
  here : Reach v v
  next : {p : ProfileId} {u w : WorldViews} → Reach v u → Step p u w → Reach v w

Step-Bound :
    {p : ProfileId} {v u : WorldViews}
    → Step p v u
    → ((q : ProfileId) → Bound (v q))
    → (q : ProfileId) → Bound (u q)
Step-Bound {p} {v} {u} step all q = elim (==-cases p q) [
  | inr ne ↦ subst Bound (sym (Step-other step q ne)) (all q)
  | inl same ↦ elim (Step-Changes step) [
    | inl unmoved ↦ rw unmoved (all q)
    | inr (o, changed, keeps) ↦
        subst (λ (w : WorldViews). Bound (w q)) (sym changed)
          (subst Bound (ap (λ (k : ℕ). update v p o k) same)
            (subst Bound (sym (update_self v p o)) (keeps (all p))))
  ]
]

-- Whatever operations, for any bots and none of which panics, a store that starts empty has gone
-- through, a view with an active dimension is bound to one, and its active type is the one that its
-- list has under the identifier it is bound to.
pub Reach-IsBound :
    (v : WorldViews) (q : ProfileId) (view : WorldView)
    → Reach (λ p. none) v
    → v q ≡ some view
    → IsBound view
Reach-IsBound v q view r e = subst Bound e (go r q)
  where
    go : {u : WorldViews} → Reach (λ p. none) u → (p : ProfileId) → Bound (u p)
    go here p = tt
    go (next r step) p = Step-Bound step (go r) p
