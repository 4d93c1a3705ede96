-- ===== src/HostTransport/Frame/Stream.antt =====
-- The frames that a decoder hands out, against the payloads that were encoded.
use minecraft_orchestrator.Base.{
  ℕ, Option, none, some, zero, suc, ◌+◌, ◌%◌, ◌^◌, ◌≤◌, ◌<◌, ◌≡◌, refl, sym, ap, ◌∙◌, inl, inr,
  List, [], ◌∷◌, ◌++◌, arith, length, drop, All, ltb, leb, Bool-cases, length-append, length-take,
  length-drop, take-append, drop-append, take-length, drop-length, append_assoc, append-nil, map,
  ltb→lt, leb→le, ltb-false→le, subst,
}
use minecraft_orchestrator.Base.Words.{put_u32, u32_of, u32_of-put_u32}
use minecraft_orchestrator.HostTransport.Frame.{
  Decoder, PushResult, ok, err, prepend, take_frames, push, encode,
}
use minecraft_orchestrator.HostTransport.Frame.Laws.{
  run, prepend_all, resume, take_frames-append, take_frames_fuel, take_frames_round,
  take_frames_short, take_frames_over, take_frames_part,
}

ok_injective : {fs gs : List (List ℕ)} → ok fs ≡ ok gs → fs ≡ gs
ok_injective e = cc

-- The frames that reads hand out one after another, and the length that ended them in an error.
abbrev pub Delivery : Type 0
Delivery = List (List ℕ) × Option ℕ

-- The frames of one read, which the caller has before it reads on; an error ends the reading.
abbrev pub deliver : PushResult → Delivery → Delivery
deliver (ok fs) (gs, e) = (fs ++ gs, e)
deliver (err n) later = ([], some n)

-- The reads of HostSupervisor.serve, which pushes each into the decoder and handles the frames it gets
-- before the next read. A frame handed out before an error stays handed out.
abbrev pub read_all : Decoder → List (List ℕ) → Delivery
read_all d [] = ([], none)
read_all d (c ∷ cs) = let (d', r) = push d c in deliver r (read_all d' cs)

-- What a single call can show of a delivery: on an error it returns no frames.
abbrev pub outcome : Delivery → PushResult
outcome (fs, none) = ok fs
outcome (fs, some n) = err n

abbrev pub flatten : List (List ℕ) → List ℕ
flatten [] = []
flatten (c ∷ cs) = c ++ flatten cs

abbrev add_frames : List (List ℕ) → PushResult → PushResult
add_frames fs (ok gs) = ok (fs ++ gs)
add_frames fs (err n) = err n

abbrev followed_by : PushResult → PushResult → PushResult
followed_by (ok fs) r = add_frames fs r
followed_by (err n) r = err n

outcome-deliver :
    (r : PushResult) (later : Delivery) → outcome (deliver r later) ≡ followed_by r (outcome later)
outcome-deliver (ok fs) (gs, none) = refl
outcome-deliver (ok fs) (gs, some n) = refl
outcome-deliver (err n) later = refl

prepend_all-add_frames :
    (fs : List (List ℕ)) (r : List ℕ × PushResult) → prepend_all fs r ≡ (r.0, add_frames fs r.1)
prepend_all-add_frames [] (b, ok gs) = refl
prepend_all-add_frames [] (b, err n) = refl
prepend_all-add_frames (f ∷ fs) (b, ok gs) = ap (prepend f) (prepend_all-add_frames fs (b, ok gs))
prepend_all-add_frames (f ∷ fs) (b, err n) = ap (prepend f) (prepend_all-add_frames fs (b, err n))

-- What `resume` says of the frames, in terms of a second call.
resume-push :
    (m : ℕ) (c : List ℕ) (r : List ℕ × PushResult)
    → (resume m c r).1
      ≡ followed_by r.1 (push (record { maximum_frame_size = m; buffer = r.0 }) c).1
unfolding push
resume-push m c (b, ok fs) =
    ap (λ (t : List ℕ × PushResult). t.1) (prepend_all-add_frames fs (run m (b ++ c)))
resume-push m c (b, err n) = refl

-- One read of two pieces returns what two reads return, or fails where they fail.
push-append :
    (d : Decoder) (a c : List ℕ)
    → (push d (a ++ c)).1 ≡ followed_by (push d a).1 (push (push d a).0 c).1
unfolding push
push-append d a c =
    let m = d.maximum_frame_size in
    rw (← append_assoc d.buffer a c) (
      rw
        (take_frames-append (length (d.buffer ++ a)) (length ((d.buffer ++ a) ++ c)) m
          (d.buffer ++ a) c (omega arith) (omega arith))
        (resume-push m c (run m (d.buffer ++ a))))

followed_by-nothing : (r : PushResult) → followed_by r (ok []) ≡ r
followed_by-nothing (ok fs) = rw append-nil
followed_by-nothing (err n) = refl

-- However a stream is cut into reads, they end in an error exactly when one read of the whole stream
-- ends in one, which announces the same length; when they do not, the frames they hand out one after
-- another are those of the one read. Which frames they hand out before an error is left open: it
-- depends on the cut.
pub read_all-push :
    (d : Decoder) (c : List ℕ) (cs : List (List ℕ))
    → outcome (read_all d (c ∷ cs)) ≡ (push d (c ++ flatten cs)).1
read_all-push d c [] =
    outcome-deliver (push d c).1 ([], none) ∙ followed_by-nothing (push d c).1 ∙ rw append-nil
read_all-push d c (c' ∷ cs) =
    outcome-deliver (push d c).1 (read_all (push d c).0 (c' ∷ cs))
    ∙ ap (followed_by (push d c).1) (read_all-push (push d c).0 c' cs)
    ∙ sym (push-append d c (c' ++ flatten cs))

outcome-ok : (r : Delivery) (fs : List (List ℕ)) → outcome r ≡ ok fs → r ≡ (fs, none)
outcome-ok (gs, none) fs e = ap (λ hs. (hs, none)) (ok_injective e)
outcome-ok (gs, some n) fs e = cc

-- The loop hands out a frame whose length the limit admits, and goes on behind it.
run-frame :
    (m n : ℕ) (p rest : List ℕ)
    → n ≡ length p
    → n ≤ m
    → n < 2 ^ 32
    → run m (put_u32 n ++ (p ++ rest)) ≡ prepend p (run m rest)
run-frame m n p rest e fits small =
    take_frames_round (suc (suc (suc (length (p ++ rest))))) m (put_u32 n ++ (p ++ rest))
      (rw header (omega (arith, length-append p rest))) (rw header fits)
    ∙ rw (
      header,
      e,
      skip,
      take-append (length p) p rest (omega arith),
      take-length,
      drop-append (length p) p rest (omega arith),
      drop-length,
      take_frames_fuel (suc (suc (suc (length (p ++ rest))))) (length rest) m rest
          (omega (arith, length-append p rest)) (omega arith),
    )
  where
    header : u32_of (put_u32 n ++ (p ++ rest)) ≡ n
    header = u32_of-put_u32 n (p ++ rest) small

    skip : 4 + length p ≡ suc (suc (suc (suc (length p))))
    skip = omega arith

run-encode :
    (m : ℕ) (p rest : List ℕ)
    → length p ≤ m
    → m < 2 ^ 32
    → run m (encode p ++ rest) ≡ prepend p (run m rest)
unfolding encode
run-encode m p rest fits small =
    run-frame m (length p % 2 ^ 32) p rest (omega arith) (omega arith) (omega arith)

run-encode-All :
    (m : ℕ) (ps : List (List ℕ))
    → m < 2 ^ 32
    → All (λ p. length p ≤ m) ps
    → run m (flatten (map encode ps)) ≡ ([], ok ps)
unfolding take_frames
run-encode-All m [] small fits = refl
run-encode-All m (p ∷ ps) small fits =
    run-encode m p (flatten (map encode ps)) fits.0 small
    ∙ ap (prepend p) (run-encode-All m ps small fits.1)

-- However the bytes of encoded payloads are cut into socket reads, a fresh decoder whose limit
-- admits each payload hands out exactly those payloads, in order and with no error.
pub read_all-encode :
    (d : Decoder) (ps : List (List ℕ)) (c : List ℕ) (cs : List (List ℕ))
    → d.buffer ≡ []
    → d.maximum_frame_size < 2 ^ 32
    → All (λ p. length p ≤ d.maximum_frame_size) ps
    → c ++ flatten cs ≡ flatten (map encode ps)
    → read_all d (c ∷ cs) ≡ (ps, none)
unfolding push
read_all-encode d ps c cs fresh small fits cut = outcome-ok (read_all d (c ∷ cs)) ps (
    read_all-push d c cs ∙ rw (cut, push, fresh, run-encode-All d.maximum_frame_size ps small fits))

abbrev Bounded : ℕ → List ℕ × PushResult → Type 0
Bounded m (b, ok fs) = (length b < 4 + m) × All (λ f. length f ≤ m) fs
Bounded m (b, err n) = Unit {0}

prepend-Bounded :
    (m : ℕ) (f : List ℕ) (r : List ℕ × PushResult)
    → length f ≤ m
    → Bounded m r
    → Bounded m (prepend f r)
prepend-Bounded m f (b, ok fs) h v = (v.0, (h, v.1))
prepend-Bounded m f (b, err n) h v = tt

take_frames-Bounded : (f m : ℕ) (b : List ℕ) → length b ≤ f → Bounded m (take_frames f m b)
take_frames-Bounded zero m b h = rw (take_frames_short 0 m b (omega arith)) (omega arith, tt)
take_frames-Bounded (suc f) m b h = elim (Bool-cases (leb 4 (length b))) [
  | inr short ↦ rw (take_frames_short (suc f) m b (ground arith)) (ground arith, tt)
  | inl long ↦ elim (Bool-cases (ltb m (u32_of b))) [
    | inl over ↦ rw (take_frames_over f m b (leb→le 4 _ long) (ltb→lt m _ over)) tt
    | inr fits ↦ elim (Bool-cases (ltb (length b) (4 + u32_of b))) [
      | inl part ↦
          rw (take_frames_part (suc f) m b (ltb→lt _ _ part) (ground arith)) (ground arith, tt)
      | inr whole ↦ rw (take_frames_round f m b (ground arith) (ground arith)) (
          prepend-Bounded m _ _
            (omega (arith, length-take (u32_of b) (drop 4 b), ltb-false→le m (u32_of b) fits))
            (take_frames-Bounded f m (drop (4 + u32_of b) b)
              (omega (arith, length-drop (4 + u32_of b) b, leb→le 4 (length b) long))))
    ]
  ]
]

bounds_of :
    (m : ℕ) (r : List ℕ × PushResult) (fs : List (List ℕ))
    → Bounded m r
    → r.1 ≡ ok fs
    → (length r.0 < 4 + m) × All (λ f. length f ≤ m) fs
bounds_of m (b, ok gs) fs v e =
    subst (λ hs. (length b < 4 + m) × All (λ f. length f ≤ m) hs) (ok_injective e) v
bounds_of m (b, err n) fs v e = cc

-- After a call that succeeds the decoder holds less than a prefix and one frame of the greatest
-- size, and no frame handed out is longer than the limit.
pub push_bounds :
    (d : Decoder) (c : List ℕ) (fs : List (List ℕ))
    → (push d c).1 ≡ ok fs
    → (length (push d c).0.buffer < 4 + d.maximum_frame_size)
      × All (λ f. length f ≤ d.maximum_frame_size) fs
unfolding push
push_bounds d c fs e =
    bounds_of d.maximum_frame_size (run d.maximum_frame_size (d.buffer ++ c)) fs
      (take_frames-Bounded (length (d.buffer ++ c)) d.maximum_frame_size (d.buffer ++ c)
        (omega arith))
      e
