-- ===== src/Scheduler/Frames/Run.antt =====
-- A frame on a compiled plan: the executor's two checks of the plan never fail.
use minecraft_orchestrator.Base.{
  suc, ◌<◌, ◌==◌, true, Option, none, some, List, [], ◌∷◌, ◌++◌, length, All, ◌≡◌, refl, sym, subst,
  ap, ◌∙◌, ◌⊎◌, inl, inr, arith, Bool-cases, Option-cases, length-append, append-nil,
}
use minecraft_orchestrator.Model.Mask.{Mask}
use minecraft_orchestrator.Core.Outcome
use minecraft_orchestrator.Core.World.{World, Envelop, mark_dirty, stage, pending_commands}
use minecraft_orchestrator.Core.Command.{
  CommandBuffer, new_command_buffer, buffer_len, envelopes, sort_envelops, insert_envelop, sync,
  commit, apply_all, reserve, then_apply, ValidatedCommand,
}
use minecraft_orchestrator.Scheduler.Access.{System, SystemId, has_structural_effects}
use minecraft_orchestrator.Scheduler.Builder.{Builder, ok}
use minecraft_orchestrator.Scheduler.Compiler.{
  CompiledSystem, PlanNode, sync_node, wave_node, compile,
}
use minecraft_orchestrator.Scheduler.Executor.{
  FrameError, sync_failed, sync_panicked, plan_mismatch, system_failed, undeclared_commands,
  undeclared_archetype, pending, FrameResult, SystemResult, run_systems, check_result,
  check_results, all_envelopes, finish_wave, run_wave, check_queries, check_wave, run_node,
  run_frame, then_run, check_pending, sync_result,
}
use minecraft_orchestrator.Scheduler.Frames.Dirty.{Misses, query_touches-none, mark_dirty-pos}
use minecraft_orchestrator.Scheduler.Frames.Plan.{Fresh, Declares, after_nodes, compile-Fresh}

-- A system that leaves the queue and the dirty set to the executor.
abbrev pub Keeps : System → Type 0
Keeps s =
    (w : World) (b : CommandBuffer)
    → ((s.run w b).0.queue ≡ w.queue) × ((s.run w b).0.dirty ≡ w.dirty)

abbrev pub PlanKeeps : List PlanNode → Type 0
PlanKeeps [] = Unit {0}
PlanKeeps (sync_node phase reason ∷ ns) = PlanKeeps ns
PlanKeeps (wave_node phase index systems masks ∷ ns) =
    All (λ c. Keeps c.system) systems × PlanKeeps ns

check_queries-none :
    (id : SystemId) (qs d : List Mask) → All (Misses d) qs → check_queries id qs d ≡ none
unfolding check_queries
check_queries-none id [] d h = refl
check_queries-none id (q ∷ qs) d h =
    rw (query_touches-none d q h.0, check_queries) (check_queries-none id qs d h.1)

check_wave-none :
    (systems : List CompiledSystem) (d : List Mask)
    → All (λ c. All (Misses d) c.system.access.queries) systems
    → check_wave systems d ≡ none
unfolding check_wave
check_wave-none [] d h = refl
check_wave-none (c ∷ cs) d h =
    rw (check_queries-none c.system.id c.system.access.queries d h.0, check_wave)
      (check_wave-none cs d h.1)

run_systems-Keeps :
    (systems : List CompiledSystem) (w : World)
    → All (λ c. Keeps c.system) systems
    → ((run_systems systems w).0.queue ≡ w.queue) × ((run_systems systems w).0.dirty ≡ w.dirty)
unfolding run_systems
run_systems-Keeps [] w h = (refl, refl)
run_systems-Keeps (c ∷ cs) w h =
    let (q, d) = h.0 w (new_command_buffer c.order) in
    let (q', d') = run_systems-Keeps cs (c.system.run w (new_command_buffer c.order)).0 h.1 in
    (q' ∙ q, d' ∙ d)

check_results-cons :
    (r : SystemResult) (rs : List SystemResult)
    → check_results (r ∷ rs) ≡ none
    → (check_result r ≡ none) × (check_results rs ≡ none)
unfolding check_results
check_results-cons r rs e = ground arith

check_result-none :
    (r : SystemResult)
    → check_result r ≡ none
    → (length (envelopes r.buffer) ≡ 0) ⊎ (0 < length r.compiled.system.access.structural)
unfolding has_structural_effects buffer_len envelopes
check_result-none r e = ground arith

-- Commands are accepted only of systems with structural effects, which have marked a mask.
all_envelopes-Declares :
    (systems : List CompiledSystem) (w : World) (masks : List Mask)
    → Declares systems masks
    → check_results (run_systems systems w).1 ≡ none
    → (length (all_envelopes (run_systems systems w).1) ≡ 0) ⊎ (0 < length masks)
unfolding run_systems check_results all_envelopes
all_envelopes-Declares [] w masks h e = inl refl
all_envelopes-Declares (c ∷ cs) w masks h e =
    let next = (c.system.run w (new_command_buffer c.order)).0 in
    let buffer = (c.system.run w (new_command_buffer c.order)).1 in
    let r : SystemResult = record {
      compiled = c;
      buffer = buffer;
      failed = (c.system.run w (new_command_buffer c.order)).2;
    } in
    let (first, rest) = check_results-cons r (run_systems cs next).1 e in
    grind (
      arith,
      check_result-none r first,
      all_envelopes-Declares cs next masks h.1 rest,
      h.0,
      length-append (envelopes buffer) (all_envelopes (run_systems cs next).1),
    )

length-insert_envelop :
    (e : Envelop) (es : List Envelop) → length (insert_envelop e es) ≡ suc (length es)
unfolding insert_envelop
length-insert_envelop e [] = refl
length-insert_envelop e (f ∷ fs) = ground (arith, length-insert_envelop e fs)

length-sort_envelops : (es : List Envelop) → length (sort_envelops es) ≡ length es
unfolding sort_envelops
length-sort_envelops [] = refl
length-sort_envelops (e ∷ es) =
    omega (arith, length-insert_envelop e (sort_envelops es), length-sort_envelops es)

commit-clears :
    (w : World) (r : Outcome.Result (List ValidatedCommand))
    → (commit w r).1 ≡ Outcome.ok tt
    → ((commit w r).0.queue ≡ []) × ((commit w r).0.dirty ≡ [])
commit-clears w (Outcome.err x) e = cc
commit-clears w Outcome.panic e = cc
commit-clears w (Outcome.ok commands) e = go (apply_all commands (reserve commands w)) e
  where
    go :
        (a : World × Outcome.Result (Unit {0}))
        → (then_apply a (λ v. (record v { queue = []; dirty = [] }, Outcome.ok tt))).1
          ≡ Outcome.ok tt
        → ((then_apply a (λ v. (record v { queue = []; dirty = [] }, Outcome.ok tt))).0.queue ≡ [])
          × ((then_apply a (λ v. (record v { queue = []; dirty = [] }, Outcome.ok tt))).0.dirty
              ≡ [])
    go (v, Outcome.ok u) f = (refl, refl)
    go (v, Outcome.err x) f = cc
    go (v, Outcome.panic) f = cc

empty_of_length {ℓ} : {A : Type ℓ} (xs : List A) → length xs ≡ 0 → xs ≡ []
empty_of_length [] h = refl
empty_of_length (x ∷ xs) h = absurd (omega arith)

-- A sync that succeeds leaves neither a command nor a dirty mask.
sync-clears :
    (w : World) → (sync w).1 ≡ Outcome.ok tt → ((sync w).0.queue ≡ []) × ((sync w).0.dirty ≡ [])
unfolding sync pending_commands
sync-clears w e = elim (Bool-cases (length w.queue == 0)) [
  | inl idle ↦ rw idle (empty_of_length w.queue (ground arith), refl)
  | inr busy ↦ rw busy (commit-clears _ _ (rw busy at e))
]

-- A frame that ends well has no command and no dirty mask left; one that fails fails for a reason
-- that is not the plan's.
abbrev pub Sound : FrameResult → Type 0
Sound (w, none) = (w.queue ≡ []) × (w.dirty ≡ [])
Sound (w, some (plan_mismatch id query m)) = ⊥
Sound (w, some (pending n)) = ⊥
Sound (w, some (sync_failed e)) = Unit {0}
Sound (w, some sync_panicked) = Unit {0}
Sound (w, some (system_failed id)) = Unit {0}
Sound (w, some (undeclared_commands id)) = Unit {0}
Sound (w, some (undeclared_archetype id m)) = Unit {0}

check_result-Sound :
    (r : SystemResult) (e : FrameError) (w : World) → check_result r ≡ some e → Sound (w, some e)
check_result-Sound r e w h = ground arith

check_results-Sound :
    (rs : List SystemResult) (e : FrameError) (w : World)
    → check_results rs ≡ some e
    → Sound (w, some e)
unfolding check_results
check_results-Sound [] e w h = cc
check_results-Sound (r ∷ rs) e w h = elim (Option-cases (check_result r)) [
  | inl clean ↦ check_results-Sound rs e w (rw (clean, check_results) at h)
  | inr (x, failed) ↦ check_result-Sound r e w (failed ∙ (rw (failed, check_results) at h))
]

check_pending-Sound : (w : World) → w.queue ≡ [] → w.dirty ≡ [] → Sound (check_pending w)
unfolding pending_commands
check_pending-Sound w q d =
    let none_left : (length w.queue == 0) ≡ true = ground (arith, ap length q) in
    rw none_left (q, d)

-- What holds of the world between two nodes, `d` being what the plan takes for dirty.
abbrev Between : World → List Mask → Type 0
Between w d = (w.dirty ≡ d) × ((w.queue ≡ []) ⊎ (0 < length d))

sync-Sound :
    (r : World × Outcome.Result (Unit {0})) (k : World → FrameResult)
    → ((w : World) → r ≡ (w, Outcome.ok tt) → Sound (k w))
    → Sound (then_run (sync_result r) k)
sync-Sound (w, Outcome.ok u) k h = h w refl
sync-Sound (w, Outcome.err e) k h = tt
sync-Sound (w, Outcome.panic) k h = tt

stage-Between :
    (masks d : List Mask) (v : World) (es : List Envelop)
    → Between v d
    → (length es ≡ 0) ⊎ (0 < length masks)
    → Between (stage (sort_envelops es) masks v) (mark_dirty masks d)
unfolding stage
stage-Between masks d v es between (inr some_mask) =
    (ap (mark_dirty masks) between.0, inr (mark_dirty-pos masks d (inl some_mask)))
stage-Between masks d v es between (inl none_sent) = (ap (mark_dirty masks) between.0, go between.1)
  where
    none_sorted : sort_envelops es ≡ []
    none_sorted = empty_of_length (sort_envelops es) (length-sort_envelops es ∙ none_sent)

    go :
        (v.queue ≡ []) ⊎ (0 < length d)
        → (v.queue ++ sort_envelops es ≡ []) ⊎ (0 < length (mark_dirty masks d))
    go (inr dirty) = inr (mark_dirty-pos masks d (inr dirty))
    go (inl empty) = inl (rw (none_sorted, append-nil) empty)

finish_wave-Sound :
    (masks d : List Mask) (v : World) (results : List SystemResult) (k : World → FrameResult)
    → Between v d
    → (check_results results ≡ none → (length (all_envelopes results) ≡ 0) ⊎ (0 < length masks))
    → ((u : World) → Between u (mark_dirty masks d) → Sound (k u))
    → (o : Option FrameError) → check_results results ≡ o
    → Sound (then_run (finish_wave masks (v, results)) k)
finish_wave-Sound masks d v results k between declared next (some e) failed =
    let stop : finish_wave masks (v, results) ≡ (v, some e) = rw (failed, finish_wave) in
    subst (λ f. Sound (then_run f k)) (sym stop) (check_results-Sound results e v failed)
finish_wave-Sound masks d v results k between declared next none clean =
    let u = stage (sort_envelops (all_envelopes results)) masks v in
    let go : finish_wave masks (v, results) ≡ (u, none) = rw (clean, finish_wave) in
    subst (λ f. Sound (then_run f k)) (sym go)
      (next u (stage-Between masks d v (all_envelopes results) between (declared clean)))

wave-Sound :
    (systems : List CompiledSystem) (masks d : List Mask) (w : World) (k : World → FrameResult)
    → Declares systems masks
    → All (λ c. Keeps c.system) systems
    → Between w d
    → ((v : World) → Between v (mark_dirty masks d) → Sound (k v))
    → Sound (then_run (run_wave systems masks w) k)
unfolding run_wave
wave-Sound systems masks d w k declares keeps between next =
    let (q, e) = run_systems-Keeps systems w keeps in
    finish_wave-Sound masks d (run_systems systems w).0 (run_systems systems w).1 k
      (e ∙ between.0, rw q between.1) (all_envelopes-Declares systems w masks declares) next _ refl

run_frame-Sound :
    (ns : List PlanNode) (w : World) (d : List Mask)
    → Fresh ns d
    → after_nodes ns d ≡ []
    → PlanKeeps ns
    → Between w d
    → Sound (run_frame ns w)
unfolding run_frame run_node
run_frame-Sound [] w d fresh closed keeps (dirty, inl queue) =
    check_pending-Sound w queue (dirty ∙ closed)
run_frame-Sound [] w d fresh closed keeps (dirty, inr more) =
    absurd (omega (arith, ap length closed))
run_frame-Sound (sync_node phase reason ∷ ns) w d fresh closed keeps between =
    sync-Sound (sync w) (λ v. run_frame ns v)
      λ v e.
        let (queue, dirty) =
          sync-clears w (ap (λ (r : World × Outcome.Result (Unit {0})). r.1) e) in
        let same = ap (λ (r : World × Outcome.Result (Unit {0})). r.0) e in
        run_frame-Sound ns v [] fresh closed keeps
          (subst (λ u. u.dirty ≡ []) same dirty, inl (subst (λ u. u.queue ≡ []) same queue))
run_frame-Sound (wave_node phase index systems masks ∷ ns) w d fresh closed keeps between =
    let clean : check_wave systems w.dirty ≡ none = check_wave-none systems w.dirty (
      subst (λ e. All (λ c. All (Misses e) c.system.access.queries) systems) (sym between.0)
        fresh.0) in
    let run : run_node (wave_node phase index systems masks) w ≡ run_wave systems masks w =
      rw (clean, run_node) in
    subst (λ f. Sound (then_run f (λ v. run_frame ns v))) (sym run)
      (wave-Sound systems masks d w (λ v. run_frame ns v) fresh.1 keeps.0 between
        (λ v b. run_frame-Sound ns v (mark_dirty masks d) fresh.2 closed keeps.1 b))

-- On a world with no command queued and nothing dirty, a frame of a compiled plan whose systems leave
-- the queue and the dirty set to the executor never fails with a plan mismatch or with pending
-- commands; and if it does not fail, it ends with no command queued and nothing dirty.
pub run_frame-compile :
    (b : Builder) (plan : List PlanNode) (w : World)
    → compile b ≡ ok plan
    → PlanKeeps plan
    → w.queue ≡ []
    → w.dirty ≡ []
    → Sound (run_frame plan w)
run_frame-compile b plan w e keeps queue dirty =
    let (fresh, closed) = compile-Fresh b plan e in
    run_frame-Sound plan w [] fresh closed keeps (dirty, inl queue)
