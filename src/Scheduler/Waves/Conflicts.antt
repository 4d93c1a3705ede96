-- ===== src/Scheduler/Waves/Conflicts.antt =====
-- What a compiled phase keeps apart, and that its loop ends.
use minecraft_orchestrator.Base.{
  ℕ, zero, suc, ◌-◌, ◌≤◌, ◌<◌, true, false, List, [], ◌∷◌, ◌++◌, length, All, ◌≡◌, ◌≢◌, refl, sym,
  subst, ◌∙◌, inl, inr, arith, Bool-cases, length-append,
}
use minecraft_orchestrator.Scheduler.Access.{AccessSpec, systems_conflict}
use minecraft_orchestrator.Scheduler.Degrees.{Degrees, Successors}
use minecraft_orchestrator.Scheduler.Builder.{SystemDef, PhaseDef, Result, ok, err, system_cycle}
use minecraft_orchestrator.Scheduler.Phases.{Graph, or_stop}
use minecraft_orchestrator.Scheduler.Waves.{
  compatible_with, select_wave, retire, WaveResult, waves, cycle, out_of_fuel, cons_wave,
  ready_systems, wave_loop, compile_phase, system_edges, zero_systems,
}

-- The conflict test does not depend on which system comes first.
pub systems_conflict_comm : (a b : AccessSpec) → systems_conflict a b ≡ systems_conflict b a
unfolding systems_conflict
systems_conflict_comm a b = ground arith

-- Two systems that may run at once, whichever is taken first.
abbrev pub Apart : SystemDef → SystemDef → Type 0
Apart s t =
    (systems_conflict t.system.access s.system.access ≡ false)
    × (systems_conflict s.system.access t.system.access ≡ false)

-- Every two systems of a wave may run at once.
abbrev pub ConflictFree : List SystemDef → Type 0
ConflictFree [] = Unit {0}
ConflictFree (s ∷ wave) = All (Apart s) wave × ConflictFree wave

ConflictFree-append :
    (wave : List SystemDef) (c : SystemDef)
    → ConflictFree wave
    → compatible_with c wave ≡ true
    → ConflictFree (wave ++ c ∷ [])
unfolding compatible_with
ConflictFree-append [] c f h = (tt, tt)
ConflictFree-append (s ∷ wave) c f h =
    elim (Bool-cases (systems_conflict c.system.access s.system.access)) [
      | inl clash ↦ absurd (ground arith)
      | inr fine ↦
          let later : compatible_with c wave ≡ true = ground arith in
          (
            All-snoc wave c f.0
                (fine, systems_conflict_comm s.system.access c.system.access ∙ fine),
            ConflictFree-append wave c f.1 later,
          )
    ]
  where
    All-snoc :
        (xs : List SystemDef) (x : SystemDef)
        → All (Apart s) xs
        → Apart s x
        → All (Apart s) (xs ++ x ∷ [])
    All-snoc [] x a e = (e, tt)
    All-snoc (y ∷ xs) x a e = (a.0, All-snoc xs x a.1 e)

select_wave-ConflictFree :
    (wave ready : List SystemDef) → ConflictFree wave → ConflictFree (select_wave wave ready)
unfolding select_wave
select_wave-ConflictFree wave [] f = f
select_wave-ConflictFree wave (c ∷ ready) f = elim (Bool-cases (compatible_with c wave)) [
  | inl fits ↦
      rw fits (select_wave-ConflictFree (wave ++ c ∷ []) ready (ConflictFree-append wave c f fits))
  | inr not_now ↦ rw not_now (select_wave-ConflictFree wave ready f)
]

length-select_wave : (wave ready : List SystemDef) → length wave ≤ length (select_wave wave ready)
unfolding select_wave
length-select_wave wave [] = omega arith
length-select_wave wave (c ∷ ready) = elim (Bool-cases (compatible_with c wave)) [
  | inl fits ↦
      rw fits
        (omega (arith, length-append wave (c ∷ []), length-select_wave (wave ++ c ∷ []) ready))
  | inr not_now ↦ rw not_now (length-select_wave wave ready)
]

-- The first ready system is always selected.
select_wave-pos : (c : SystemDef) (ready : List SystemDef) → 0 < length (select_wave [] (c ∷ ready))
unfolding select_wave compatible_with
select_wave-pos c ready = omega (arith, length-select_wave (c ∷ []) ready)

-- What the loop promises: conflict-free waves, or a cycle.
abbrev Promise : WaveResult → Type 0
Promise (waves ws) = All ConflictFree ws
Promise cycle = Unit {0}
Promise out_of_fuel = ⊥

cons_wave-Promise :
    (w : List SystemDef) (r : WaveResult) → ConflictFree w → Promise r → Promise (cons_wave w r)
cons_wave-Promise w (waves ws) f p = (f, p)
cons_wave-Promise w cycle f p = tt
cons_wave-Promise w out_of_fuel f p = p

wave_loop-Promise :
    (fuel : ℕ) (systems : List SystemDef) (out : Successors) (ds : Degrees) (remaining : ℕ)
    → remaining ≤ fuel
    → Promise (wave_loop fuel systems out ds remaining)
unfolding wave_loop
wave_loop-Promise zero systems out ds zero h = tt
wave_loop-Promise (suc fuel) systems out ds zero h = tt
wave_loop-Promise zero systems out ds (suc remaining) h = absurd (omega arith)
wave_loop-Promise (suc fuel) systems out ds (suc remaining) h =
    go (ready_systems systems ds) refl (λ ds' r k. wave_loop-Promise fuel systems out ds' r k)
  where
    go :
        (ready : List SystemDef)
        → ready_systems systems ds ≡ ready
        → ((ds' : Degrees) (r : ℕ) → r ≤ fuel → Promise (wave_loop fuel systems out ds' r))
        → Promise (wave_loop (suc fuel) systems out ds (suc remaining))
    go [] e ih =
        let stuck : wave_loop (suc fuel) systems out ds (suc remaining) ≡ cycle =
          rw (e, wave_loop) in
        subst Promise (sym stuck) tt
    go (first ∷ rest) e ih =
        let w = select_wave [] (first ∷ rest) in
        let later = wave_loop fuel systems out (retire out w ds) (suc remaining - length w) in
        let round : wave_loop (suc fuel) systems out ds (suc remaining) ≡ cons_wave w later =
          rw (e, wave_loop) in
        subst Promise (sym round) (
          cons_wave-Promise w later (select_wave-ConflictFree [] (first ∷ rest) tt)
            (ih _ _ (omega (arith, select_wave-pos first rest))))

-- With fuel for every system that remains the loop over waves is never cut short.
pub wave_loop_fuel :
    (fuel : ℕ) (systems : List SystemDef) (out : Successors) (ds : Degrees) (remaining : ℕ)
    → remaining ≤ fuel
    → wave_loop fuel systems out ds remaining ≢ out_of_fuel
wave_loop_fuel fuel systems out ds remaining h e =
    subst Promise e (wave_loop-Promise fuel systems out ds remaining h)

ok_injective {ℓ} : {A : Type ℓ} {a b : A} → ok a ≡ ok b → a ≡ b
ok_injective e = cc

-- In each wave of a phase that compiles, no two systems conflict, whichever is taken first.
pub compile_phase-ConflictFree :
    (phase : PhaseDef) (ws : List (List SystemDef))
    → compile_phase phase ≡ ok ws
    → All ConflictFree ws
unfolding compile_phase
compile_phase-ConflictFree phase ws e = go (system_edges phase phase.systems start) e
  where
    start : Graph
    start = record { indegree = zero_systems phase.systems []; out = λ id. [] }

    outcome : WaveResult → Result (List (List SystemDef))
    outcome r = elim r [
      | waves vs ↦ ok vs
      | cycle ↦ err (system_cycle phase.id)
      | out_of_fuel ↦ err (system_cycle phase.id)
    ]

    read : (r : WaveResult) → Promise r → outcome r ≡ ok ws → All ConflictFree ws
    read (waves vs) p f = subst (All ConflictFree) (ok_injective f) p
    read cycle p f = cc
    read out_of_fuel p f = absurd p

    go :
        (g : Result Graph)
        → or_stop g (λ h.
          outcome (
            wave_loop (length phase.systems) phase.systems h.out h.indegree (length phase.systems)))
          ≡ ok ws
        → All ConflictFree ws
    go (err x) f = cc
    go (ok g) f =
        read _
          (wave_loop-Promise (length phase.systems) phase.systems g.out g.indegree
            (length phase.systems) (omega arith))
          f
