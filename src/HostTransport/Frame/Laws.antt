-- ===== src/HostTransport/Frame/Laws.antt =====
-- What Push does with a stream of frames, however the socket cuts it.
use minecraft_orchestrator.Base.{
  ℕ, zero, suc, ◌+◌, ◌≤◌, ◌<◌, ◌≡◌, refl, ap, ◌∙◌, inl, inr, List, [], ◌∷◌, ◌++◌, arith, length,
  take, drop, ltb, leb, Bool-cases, length-append, length-drop, take-append, drop-append, ltb→lt,
  leb→le, le→leb, le→ltb, lt→ltb,
}
use minecraft_orchestrator.Base.Words.{u32_of, u32_of-append}
use minecraft_orchestrator.HostTransport.Frame.{PushResult, ok, err, prepend, take_frames}

-- More fuel than bytes changes nothing.
pub take_frames_fuel :
    (f g m : ℕ) (b : List ℕ) → length b ≤ f → length b ≤ g → take_frames f m b ≡ take_frames g m b
unfolding take_frames
take_frames_fuel zero zero m b p q = refl
take_frames_fuel zero (suc g) m [] p q = refl
take_frames_fuel zero (suc g) m (x ∷ b) p q = absurd (omega arith)
take_frames_fuel (suc f) zero m [] p q = refl
take_frames_fuel (suc f) zero m (x ∷ b) p q = absurd (omega arith)
take_frames_fuel (suc f) (suc g) m b p q = elim (Bool-cases (leb 4 (length b))) [
  | inl long ↦ rw (
      take_frames_fuel f g m (drop (4 + u32_of b) b)
        (omega (arith, leb→le 4 (length b) long, length-drop (4 + u32_of b) b))
        (omega (arith, leb→le 4 (length b) long, length-drop (4 + u32_of b) b)))
  | inr short ↦ rw short
]

abbrev pub run : ℕ → List ℕ → List ℕ × PushResult
run m b = take_frames (length b) m b

abbrev pub prepend_all : List (List ℕ) → List ℕ × PushResult → List ℕ × PushResult
prepend_all [] r = r
prepend_all (f ∷ fs) r = prepend f (prepend_all fs r)

-- Going on with more bytes after a call of the loop.
abbrev pub resume : ℕ → List ℕ → List ℕ × PushResult → List ℕ × PushResult
resume m c (b, ok fs) = prepend_all fs (run m (b ++ c))
resume m c (b, err n) = (b ++ c, err n)

resume-prepend :
    (m : ℕ) (c p : List ℕ) (r : List ℕ × PushResult)
    → resume m c (prepend p r) ≡ prepend p (resume m c r)
resume-prepend m c p (b, ok fs) = refl
resume-prepend m c p (b, err n) = refl

-- One round on a buffer that holds a whole frame.
pub take_frames_round :
    (f m : ℕ) (b : List ℕ)
    → 4 + u32_of b ≤ length b
    → u32_of b ≤ m
    → take_frames (suc f) m b
      ≡ prepend (take (u32_of b) (drop 4 b)) (take_frames f m (drop (4 + u32_of b) b))
unfolding take_frames
take_frames_round f m b whole fits = rw (
  le→leb 4 (length b) (omega arith),
  le→ltb m (u32_of b) fits,
  le→ltb (length b) (4 + u32_of b) whole,
)

pub take_frames_part :
    (f m : ℕ) (b : List ℕ) → length b < 4 + u32_of b → u32_of b ≤ m → take_frames f m b ≡ (b, ok [])
unfolding take_frames
take_frames_part zero m b part fits = refl
take_frames_part (suc f) m b part fits =
    rw (le→ltb m (u32_of b) fits, lt→ltb (length b) (4 + u32_of b) part)
      (elim (Bool-cases (leb 4 (length b))) [ inl e ↦ rw e | inr e ↦ rw e ])

pub take_frames_short : (f m : ℕ) (b : List ℕ) → length b < 4 → take_frames f m b ≡ (b, ok [])
unfolding take_frames
take_frames_short zero m b short = refl
take_frames_short (suc f) m b short = ground arith

pub take_frames_over :
    (f m : ℕ) (b : List ℕ)
    → 4 ≤ length b
    → m < u32_of b
    → take_frames (suc f) m b ≡ (b, err (u32_of b))
unfolding take_frames
take_frames_over f m b long over = rw (le→leb 4 (length b) long, lt→ltb m (u32_of b) over)

-- A loop that stopped for want of bytes goes on as if it had not started.
stopped :
    (f g m : ℕ) (b c : List ℕ)
    → length (b ++ c) ≤ g
    → take_frames f m b ≡ (b, ok [])
    → take_frames g m (b ++ c) ≡ resume m c (take_frames f m b)
stopped f g m b c q e = rw e (take_frames_fuel g (length (b ++ c)) m (b ++ c) q (omega arith))

take_frames_whole :
    (f g m : ℕ) (b c : List ℕ)
    → 4 + u32_of b ≤ length b
    → u32_of b ≤ m
    → take_frames g m (drop (4 + u32_of b) b ++ c)
      ≡ resume m c (take_frames f m (drop (4 + u32_of b) b))
    → take_frames (suc g) m (b ++ c) ≡ resume m c (take_frames (suc f) m b)
take_frames_whole f g m b c whole fits ih =
    rw (take_frames_round f m b whole fits, resume-prepend)
      (take_frames_round g m (b ++ c) (rw same (omega (arith, length-append b c))) (rw same fits)
        ∙ rw (
          same,
          drop-append (4 + u32_of b) b c whole,
          drop-append 4 b c (omega arith),
          take-append (u32_of b) (drop 4 b) c (omega (arith, length-drop 4 b)),
          ih,
        ))
  where
    same : u32_of (b ++ c) ≡ u32_of b
    same = u32_of-append b c (omega arith)

pub take_frames-append :
    (f g m : ℕ) (b c : List ℕ)
    → length b ≤ f
    → length (b ++ c) ≤ g
    → take_frames g m (b ++ c) ≡ resume m c (take_frames f m b)
take_frames-append zero g m [] c p q = stopped 0 g m [] c q (take_frames_short 0 m [] (omega arith))
take_frames-append zero g m (x ∷ b) c p q = absurd (omega arith)
take_frames-append (suc f) zero m [] c p q =
    stopped (suc f) 0 m [] c q (take_frames_short (suc f) m [] (omega arith))
take_frames-append (suc f) zero m (x ∷ b) c p q = absurd (omega arith)
take_frames-append (suc f) (suc g) m b c p q = elim (Bool-cases (leb 4 (length b))) [
  | inr short ↦ stopped (suc f) (suc g) m b c q (take_frames_short (suc f) m b (ground arith))
  | inl long ↦ elim (Bool-cases (ltb m (u32_of b))) [
    | inl over ↦ rw (take_frames_over f m b (leb→le 4 _ long) (ltb→lt m _ over)) (
        take_frames_over g m (b ++ c) (omega (arith, leb→le 4 _ long, length-append b c))
          (rw (u32_of-append b c (leb→le 4 _ long)) (ltb→lt m _ over))
        ∙ ap (λ n. (b ++ c, err n)) (u32_of-append b c (leb→le 4 _ long)))
    | inr fits ↦ elim (Bool-cases (ltb (length b) (4 + u32_of b))) [
      | inl part ↦
          stopped (suc f) (suc g) m b c q
            (take_frames_part (suc f) m b (ltb→lt _ _ part) (ground arith))
      | inr whole ↦ take_frames_whole f g m b c (ground arith) (ground arith) (
          take_frames-append f g m (drop (4 + u32_of b) b) c
            (omega (arith, length-drop (4 + u32_of b) b))
            (omega (
              arith,
              length-append (drop (4 + u32_of b) b) c,
              length-append b c,
              length-drop (4 + u32_of b) b,
              leb→le 4 (length b) long,
            )))
    ]
  ]
]

pub prepend_all-append :
    (fs gs : List (List ℕ)) (r : List ℕ × PushResult)
    → prepend_all (fs ++ gs) r ≡ prepend_all fs (prepend_all gs r)
prepend_all-append [] gs r = refl
prepend_all-append (f ∷ fs) gs r = ap (prepend f) (prepend_all-append fs gs r)
