-- ===== src/Scheduler/Frames/Plan.antt =====
-- What the compiler guarantees of its nodes: no wave queries what is dirty when it runs, each wave
-- declares the masks of its structural systems, and nothing is dirty at the end.
use minecraft_orchestrator.Base.{
  ℕ, ◌+◌, ◌<◌, true, List, [], ◌∷◌, ◌++◌, length, All, ◌≡◌, refl, subst, inl, inr, arith,
  Bool-cases,
}
use minecraft_orchestrator.Model.Mask.{Mask}
use minecraft_orchestrator.Core.World.{is_dirty, mark_dirty}
use minecraft_orchestrator.Scheduler.Access.{System, PhaseId}
use minecraft_orchestrator.Scheduler.Builder.{SystemDef, PhaseDef, Builder, Result, ok, err}
use minecraft_orchestrator.Scheduler.Phases.{sort_phase, or_stop}
use minecraft_orchestrator.Scheduler.Waves.{compile_phase}
use minecraft_orchestrator.Scheduler.Compiler.{
  CompiledSystem, PlanNode, sync_node, wave_node, CompileState, number, wave_dirty,
  wave_touches_dirty, sync_before, add_wave, compile_waves, compile_phases, compile, close_frame,
  empty_plan, finish, compile_sorted,
}
use minecraft_orchestrator.Scheduler.Frames.Dirty.{
  Sub, Misses, declares, is_dirty-wave_dirty, Sub-wave, empty_of_Sub, untouched-Misses, Misses-Sub,
  Misses-nil, pos_of_dirty, is_dirty_head,
}

-- The dirty set after nodes have run.
abbrev pub after_nodes : List PlanNode → List Mask → List Mask
after_nodes [] d = d
after_nodes (sync_node phase reason ∷ ns) d = after_nodes ns []
after_nodes (wave_node phase index systems masks ∷ ns) d = after_nodes ns (mark_dirty masks d)

-- Every system with structural effects has marked some mask.
abbrev pub Declares : List CompiledSystem → List Mask → Type 0
Declares systems masks = All (λ c. 0 < length c.system.access.structural → 0 < length masks) systems

abbrev pub Fresh : List PlanNode → List Mask → Type 0
Fresh [] d = Unit {0}
Fresh (sync_node phase reason ∷ ns) d = Fresh ns []
Fresh (wave_node phase index systems masks ∷ ns) d =
    All (λ c. All (Misses d) c.system.access.queries) systems
    × Declares systems masks
    × Fresh ns (mark_dirty masks d)

Fresh-append :
    (ns ms : List PlanNode) (d : List Mask)
    → Fresh ns d
    → Fresh ms (after_nodes ns d)
    → Fresh (ns ++ ms) d
Fresh-append [] ms d f g = g
Fresh-append (sync_node phase reason ∷ ns) ms d f g = Fresh-append ns ms [] f g
Fresh-append (wave_node phase index systems masks ∷ ns) ms d f g =
    (f.0, f.1, Fresh-append ns ms (mark_dirty masks d) f.2 g)

after_nodes-append :
    (ns ms : List PlanNode) (d : List Mask)
    → after_nodes (ns ++ ms) d ≡ after_nodes ms (after_nodes ns d)
after_nodes-append [] ms d = refl
after_nodes-append (sync_node phase reason ∷ ns) ms d = after_nodes-append ns ms []
after_nodes-append (wave_node phase index systems masks ∷ ns) ms d =
    after_nodes-append ns ms (mark_dirty masks d)

All-number :
    (P : System → Type 0) (order : ℕ) (wave : List SystemDef)
    → All (λ s. P s.system) wave
    → All (λ c. P c.system) (number order wave)
unfolding number
All-number P order [] h = tt
All-number P order (s ∷ wave) h = (h.0, All-number P (order + 1) wave h.1)

All-Misses : (d e : List Mask) (qs : List Mask) → Sub d e → All (Misses e) qs → All (Misses d) qs
All-Misses d e [] h k = tt
All-Misses d e (q ∷ qs) h k = (Misses-Sub d e q h k.0, All-Misses d e qs h k.1)

All-queries :
    (d e : List Mask) (wave : List SystemDef)
    → Sub d e
    → All (λ s. All (Misses e) s.system.access.queries) wave
    → All (λ s. All (Misses d) s.system.access.queries) wave
All-queries d e [] h k = tt
All-queries d e (s ∷ wave) h k =
    (All-Misses d e s.system.access.queries h k.0, All-queries d e wave h k.1)

All-Misses-nil : (qs : List Mask) → All (Misses []) qs
All-Misses-nil [] = tt
All-Misses-nil (q ∷ qs) = (Misses-nil q, All-Misses-nil qs)

All-queries_nil : (wave : List SystemDef) → All (λ s. All (Misses []) s.system.access.queries) wave
All-queries_nil [] = tt
All-queries_nil (s ∷ wave) = (All-Misses-nil s.system.access.queries, All-queries_nil wave)

structural-pos :
    (structural masks : List Mask)
    → ((m : Mask) → is_dirty structural m ≡ true → is_dirty masks m ≡ true)
    → 0 < length structural
    → 0 < length masks
structural-pos [] masks h k = absurd (omega arith)
structural-pos (m ∷ ms) masks h k = pos_of_dirty masks m (h m (is_dirty_head m ms))

wave-Declares :
    (wave : List SystemDef) (masks : List Mask)
    → ((m : Mask) → declares wave m ≡ true → is_dirty masks m ≡ true)
    → All (λ s. 0 < length s.system.access.structural → 0 < length masks) wave
wave-Declares [] masks h = tt
wave-Declares (s ∷ wave) masks h = (
  structural-pos s.system.access.structural masks (λ m k. h m (ground arith)),
  wave-Declares wave masks (λ m k. h m (ground arith)),
)

pub record Inv (s : CompileState) : Type 0 where
  pub fresh : Fresh s.nodes []
  pub covered : Sub (after_nodes s.nodes []) s.dirty

sync_before-Inv :
    (phase : PhaseId) (wave : List SystemDef) (s : CompileState)
    → Inv s
    → Inv (sync_before phase wave s)
      × All (λ d. All (Misses (sync_before phase wave s).dirty) d.system.access.queries) wave
unfolding sync_before
sync_before-Inv phase wave s v = elim (Bool-cases (wave_touches_dirty wave s.dirty).0) [
  | inl touched ↦ rw touched (
    record {
      fresh = Fresh-append s.nodes _ [] v.fresh tt;
      covered = rw (after_nodes-append s.nodes) (λ m k. k);
    },
    All-queries_nil wave,
  )
  | inr clean ↦ rw clean (v, untouched-Misses wave s.dirty clean)
]

add_wave-Inv :
    (phase : PhaseId) (index : ℕ) (wave : List SystemDef) (s : CompileState)
    → Inv s
    → All (λ d. All (Misses s.dirty) d.system.access.queries) wave
    → Inv (add_wave phase index wave s)
unfolding add_wave
add_wave-Inv phase index wave s v clean = record {
  fresh = Fresh-append s.nodes _ [] v.fresh (
    All-number (λ y. All (Misses (after_nodes s.nodes [])) y.access.queries) s.next_order wave
        (All-queries (after_nodes s.nodes []) s.dirty wave v.covered clean),
    All-number (λ y. 0 < length y.access.structural → 0 < length (wave_dirty wave [])) s.next_order
        wave
        (wave-Declares wave (wave_dirty wave [])
          (λ m k. ground (arith, is_dirty-wave_dirty wave [] m))),
    tt,
  );
  covered =
      rw (after_nodes-append s.nodes) (Sub-wave wave (after_nodes s.nodes []) s.dirty v.covered);
}

compile_waves-Inv :
    (phase : PhaseId) (index : ℕ) (waves : List (List SystemDef)) (s : CompileState)
    → Inv s
    → Inv (compile_waves phase index waves s)
unfolding compile_waves
compile_waves-Inv phase index [] s v = v
compile_waves-Inv phase index (wave ∷ rest) s v =
    let (before, clean) = sync_before-Inv phase wave s v in
    compile_waves-Inv phase (index + 1) rest _
      (add_wave-Inv phase index wave (sync_before phase wave s) before clean)

-- A successful chain stopped at no step.
pub or_stop-eq-ok {ℓ κ} :
    {A : Type ℓ} {B : Type κ} (r : Result A) (f : A → Result B) {b : B}
    → or_stop r f ≡ ok b
    → (a : A) × (r ≡ ok a) × (f a ≡ ok b)
or_stop-eq-ok (ok a) f h = (a, refl, h)
or_stop-eq-ok (err e) f h = cc

ok_injective {ℓ} : {A : Type ℓ} {a b : A} → ok a ≡ ok b → a ≡ b
ok_injective e = cc

compile_phases-Inv :
    (ps : List PhaseDef) (s t : CompileState) → Inv s → compile_phases ps s ≡ ok t → Inv t
unfolding compile_phases
compile_phases-Inv [] s t v e = subst Inv (ok_injective e) v
compile_phases-Inv (p ∷ ps) s t v e =
    let (waves, _, later) = or_stop-eq-ok (compile_phase p) _ e in
    compile_phases-Inv ps _ t (compile_waves-Inv p.id 0 waves s v) later

close_frame-Fresh :
    (s : CompileState) → Inv s → Fresh (close_frame s) [] × (after_nodes (close_frame s) [] ≡ [])
close_frame-Fresh s v = go s.dirty refl
  where
    go :
        (d : List Mask)
        → s.dirty ≡ d
        → Fresh (close_frame s) [] × (after_nodes (close_frame s) [] ≡ [])
    go [] e = rw e (v.fresh, empty_of_Sub _ (rw e at v.covered))
    go (m ∷ ms) e = rw e (Fresh-append s.nodes _ [] v.fresh tt, after_nodes-append s.nodes _ [])

-- In a compiled plan that starts with nothing dirty, no query of a wave is contained in a mask that
-- is then dirty, a wave with a structural system declares a mask, and nothing is dirty after the
-- last node.
pub compile-Fresh :
    (b : Builder) (plan : List PlanNode)
    → compile b ≡ ok plan
    → Fresh plan [] × (after_nodes plan [] ≡ [])
unfolding compile
compile-Fresh b plan e =
    let (phases, _, sorted) = or_stop-eq-ok (sort_phase b.phases) compile_sorted e in
    let (s, built, closed) = or_stop-eq-ok (compile_phases phases empty_plan) finish sorted in
    subst (λ ns. Fresh ns [] × (after_nodes ns [] ≡ [])) (ok_injective closed)
      (close_frame-Fresh s
        (compile_phases-Inv phases empty_plan s (record { fresh = tt; covered = λ m k. k }) built))
