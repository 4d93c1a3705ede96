-- ===== src/HostTransport/Frame/Prefix.antt =====
-- What a decoder hands out before an error, against the bytes that it received (frame.go).
use minecraft_orchestrator.Base.{
  ℕ, zero, suc, ◌+◌, ◌*◌, ◌%◌, ◌^◌, ◌≤◌, ◌<◌, ◌≡◌, refl, sym, ap, ◌∙◌, inl, inr, List, [], ◌∷◌,
  ◌++◌, arith, length, take, drop, All, ltb, leb, Bool-cases, length-take, append_assoc, map,
  ltb→lt, leb→le, subst,
}
use minecraft_orchestrator.Base.Words.{put_u32, u32_of}
use minecraft_orchestrator.HostTransport.Frame.{
  Decoder, PushResult, ok, err, prepend, take_frames, push, encode,
}
use minecraft_orchestrator.HostTransport.Frame.Laws.{
  take_frames_round, take_frames_short, take_frames_over, take_frames_part,
}
use minecraft_orchestrator.HostTransport.Frame.Stream.{Delivery, deliver, read_all, flatten}

abbrev pub AreBytes : List ℕ → Type 0
AreBytes = All (λ b. b < 256)

take-drop {ℓ} : {A : Type ℓ} (n : ℕ) (xs : List A) → take n xs ++ drop n xs ≡ xs
take-drop zero xs = refl
take-drop (suc n) [] = refl
take-drop (suc n) (x ∷ xs) = ap (λ ys. x ∷ ys) (take-drop n xs)

AreBytes-drop : (n : ℕ) (b : List ℕ) → AreBytes b → AreBytes (drop n b)
AreBytes-drop zero b h = h
AreBytes-drop (suc n) [] h = tt
AreBytes-drop (suc n) (x ∷ b) h = AreBytes-drop n b h.1

AreBytes-append : (a b : List ℕ) → AreBytes a → AreBytes b → AreBytes (a ++ b)
AreBytes-append [] b ha hb = hb
AreBytes-append (x ∷ a) b ha hb = (ha.0, AreBytes-append a b ha.1 hb)

AreBytes-first : (a b : List ℕ) → AreBytes (a ++ b) → AreBytes a
AreBytes-first [] b h = tt
AreBytes-first (x ∷ a) b h = (h.0, AreBytes-first a b h.1)

AreBytes-rest : (a b : List ℕ) → AreBytes (a ++ b) → AreBytes b
AreBytes-rest [] b h = h
AreBytes-rest (x ∷ a) b h = AreBytes-rest a b h.1

put_u32-bytes :
    (n x y z w : ℕ)
    → x < 256
    → y < 256
    → z < 256
    → w < 256
    → n ≡ x * 2 ^ 24 + y * 2 ^ 16 + z * 2 ^ 8 + w
    → put_u32 (n % 2 ^ 32) ≡ x ∷ y ∷ z ∷ w ∷ []
put_u32-bytes n x y z w hx hy hz hw e = four (omega arith) (omega arith) (omega arith) (omega arith)
  where
    four : {a b c d : ℕ} → a ≡ x → b ≡ y → c ≡ z → d ≡ w → a ∷ b ∷ c ∷ d ∷ [] ≡ x ∷ y ∷ z ∷ w ∷ []
    four ea eb ec ed = cc

-- The encoding of a frame that a round takes is what the round removes from the buffer.
encode-take :
    (b : List ℕ)
    → AreBytes b
    → 4 + u32_of b ≤ length b
    → encode (take (u32_of b) (drop 4 b)) ++ drop (4 + u32_of b) b ≡ b
unfolding encode u32_of
encode-take [] h whole = absurd (omega arith)
encode-take (x ∷ []) h whole = absurd (omega arith)
encode-take (x ∷ y ∷ []) h whole = absurd (omega arith)
encode-take (x ∷ y ∷ z ∷ []) h whole = absurd (omega arith)
encode-take (x ∷ y ∷ z ∷ w ∷ b) (hx, (hy, (hz, (hw, h)))) whole =
    let n : ℕ = x * 2 ^ 24 + y * 2 ^ 16 + z * 2 ^ 8 + w in
    let skip : 4 + n ≡ suc (suc (suc (suc n))) = omega arith in
    ap (λ (k : ℕ). encode (take n b) ++ drop k (x ∷ y ∷ z ∷ w ∷ b)) skip
    ∙ ap (λ ys. (ys ++ take n b) ++ drop n b)
        (put_u32-bytes (length (take n b)) x y z w hx hy hz hw (omega (arith, length-take n b)))
    ∙ ap (λ ys. x ∷ y ∷ z ∷ w ∷ ys) (take-drop n b)

-- Frames with the bytes behind them.
abbrev Splits : List ℕ → List ℕ × PushResult → Type 0
Splits b (left, ok fs) = b ≡ flatten (map encode fs) ++ left
Splits b (left, err n) = Unit {0}

Splits-prepend :
    (f b rest : List ℕ) (r : List ℕ × PushResult)
    → encode f ++ rest ≡ b
    → Splits rest r
    → Splits b (prepend f r)
Splits-prepend f b rest (left, err n) e s = tt
Splits-prepend f b rest (left, ok fs) e s =
    sym e
    ∙ ap (λ ys. encode f ++ ys) s
    ∙ sym (append_assoc (encode f) (flatten (map encode fs)) left)

take_frames-Splits : (f m : ℕ) (b : List ℕ) → AreBytes b → Splits b (take_frames f m b)
unfolding take_frames
take_frames-Splits zero m b h = refl
take_frames-Splits (suc f) m b h = elim (Bool-cases (leb 4 (length b))) [
  | inr short ↦ rw (take_frames_short (suc f) m b (ground arith)) refl
  | inl long ↦ elim (Bool-cases (ltb m (u32_of b))) [
    | inl over ↦ rw (take_frames_over f m b (leb→le 4 _ long) (ltb→lt m _ over)) tt
    | inr fits ↦ elim (Bool-cases (ltb (length b) (4 + u32_of b))) [
      | inl part ↦ rw (take_frames_part (suc f) m b (ltb→lt _ _ part) (ground arith)) refl
      | inr whole ↦ rw (take_frames_round f m b (ground arith) (ground arith)) (
          Splits-prepend (take (u32_of b) (drop 4 b)) b (drop (4 + u32_of b) b) _
            (encode-take b h (ground arith))
            (take_frames-Splits f m (drop (4 + u32_of b) b) (AreBytes-drop (4 + u32_of b) b h)))
    ]
  ]
]

abbrev pub HasPrefix : List ℕ → Delivery → Type 0
HasPrefix b r = (rest : List ℕ) × (b ≡ flatten (map encode r.0) ++ rest)

encoded-append :
    (fs gs : List (List ℕ))
    → flatten (map encode (fs ++ gs)) ≡ flatten (map encode fs) ++ flatten (map encode gs)
encoded-append [] gs = refl
encoded-append (f ∷ fs) gs =
    ap (λ ys. encode f ++ ys) (encoded-append fs gs)
    ∙ sym (append_assoc (encode f) (flatten (map encode fs)) (flatten (map encode gs)))

-- One read whose bytes split, and the delivery of what is left with the later reads.
deliver-HasPrefix :
    (b later : List ℕ) (r : List ℕ × PushResult) (next : List ℕ → Delivery)
    → AreBytes b
    → Splits b r
    → ((left : List ℕ) → AreBytes left → HasPrefix (left ++ later) (next left))
    → HasPrefix (b ++ later) (deliver r.1 (next r.0))
deliver-HasPrefix b later (left, err n) next h s go = (b ++ later, refl)
deliver-HasPrefix b later (left, ok fs) next h s go =
    let sent : List ℕ = flatten (map encode fs) in
    let (rest, e) = go left (AreBytes-rest sent left (subst AreBytes s h)) in
    let after : List ℕ = flatten (map encode (next left).0) in
    (
      rest,
      ap (λ ys. ys ++ later) s
          ∙ append_assoc sent left later
          ∙ ap (λ ys. sent ++ ys) e
          ∙ sym (append_assoc sent after rest)
          ∙ ap (λ ys. ys ++ rest) (sym (encoded-append fs (next left).0)),
    )

-- Whatever bytes arrive in whatever reads, and whether or not these end in an error, the encodings of
-- the frames handed out by then, one behind another, are the first of the bytes that the decoder held
-- and those that the reads brought.
pub read_all-HasPrefix :
    (d : Decoder) (cs : List (List ℕ))
    → AreBytes d.buffer
    → AreBytes (flatten cs)
    → HasPrefix (d.buffer ++ flatten cs) (read_all d cs)
unfolding push
read_all-HasPrefix d [] buffered h = (d.buffer ++ [], refl)
read_all-HasPrefix d (c ∷ cs) buffered h =
    let b : List ℕ = d.buffer ++ c in
    let bytes = AreBytes-append d.buffer c buffered (AreBytes-first c (flatten cs) h) in
    subst (λ ys. HasPrefix ys (read_all d (c ∷ cs))) (append_assoc d.buffer c (flatten cs))
      (deliver-HasPrefix b (flatten cs) (take_frames (length b) d.maximum_frame_size b)
        (λ left. read_all (record d { buffer = left }) cs) bytes
        (take_frames-Splits (length b) d.maximum_frame_size b bytes)
        (λ left hl.
          read_all-HasPrefix (record d { buffer = left }) cs hl (AreBytes-rest c (flatten cs) h)))
