-- ===== src/Bench/Stream/Laws.antt =====
-- The frames of a stream do not depend on how the network cut it into chunks.
use chimely.Prelude.{
  ℕ, zero, suc, ◌<◌, ◌≤◌, none, some, List, [], ◌∷◌, ◌++◌, length, length-append, ◌≡◌, refl, sym,
  ◌∙◌, arith, Option-cases, none-some, inl, inr,
}
use mathlib.Core.List.{append_assoc, append-nil}
use chimely.Prelude.Units.{Units}
use chimely.Bench.Stream.{cut_frame, frames_from, frames_of, guarded, receive, receive_all}

-- The rest behind a frame is shorter.
cut_frame-shorter :
    (buf frame rest : Units) → cut_frame buf ≡ some (frame, rest) → length rest < length buf
unfolding cut_frame
cut_frame-shorter [] frame rest e = elim (none-some e) [ ]
cut_frame-shorter (c ∷ []) frame rest e = elim (none-some e) [ ]
cut_frame-shorter (c ∷ d ∷ s) frame rest e = elim (Option-cases (cut_frame (d ∷ s))) [
  | inl k ↦ ground arith
  | inr ((frame1, rest1), k) ↦
      let shorter = cut_frame-shorter (d ∷ s) frame1 rest1 k in ground arith
]

cut_frame-append :
    (buf more frame rest : Units)
    → cut_frame buf ≡ some (frame, rest)
    → cut_frame (buf ++ more) ≡ some (frame, rest ++ more)
unfolding cut_frame
cut_frame-append [] more frame rest e = elim (none-some e) [ ]
cut_frame-append (c ∷ []) more frame rest e = elim (none-some e) [ ]
cut_frame-append (c ∷ d ∷ s) more frame rest e = elim (Option-cases (cut_frame (d ∷ s))) [
  | inl k ↦ ground arith
  | inr ((frame1, rest1), k) ↦
      let appended = cut_frame-append (d ∷ s) more frame1 rest1 k in ground arith
]

frames_from-none : (n : ℕ) (buf : Units) → cut_frame buf ≡ none → frames_from n buf ≡ ([], buf)
unfolding frames_from
frames_from-none zero buf e = refl
frames_from-none (suc n) buf e = rw (frames_from, e) refl

frames_from-some :
    (n : ℕ) (buf frame rest : Units)
    → cut_frame buf ≡ some (frame, rest)
    → frames_from (suc n) buf ≡ (frame ∷ (frames_from n rest).0, (frames_from n rest).1)
unfolding frames_from
frames_from-some n buf frame rest e = rw (frames_from, e) refl

cut_frame-empty : (buf : Units) → length buf ≤ 0 → cut_frame buf ≡ none
unfolding cut_frame
cut_frame-empty [] h = refl
cut_frame-empty (c ∷ buf) h = let no : ⊥ = omega arith in elim no [ ]

-- As many rounds as characters are enough.
frames_from-enough :
    (n m : ℕ) (buf : Units)
    → length buf ≤ n
    → length buf ≤ m
    → frames_from n buf ≡ frames_from m buf
unfolding frames_from
frames_from-enough zero m buf h k = sym (frames_from-none m buf (cut_frame-empty buf (omega arith)))
frames_from-enough (suc n) zero buf h k =
    frames_from-none (suc n) buf (cut_frame-empty buf (omega arith))
frames_from-enough (suc n) (suc m) buf h k = elim (Option-cases (cut_frame buf)) [
  | inl e ↦ frames_from-none (suc n) buf e ∙ sym (frames_from-none (suc m) buf e)
  | inr ((frame, rest), e) ↦
      let shorter = cut_frame-shorter buf frame rest e in
      let same : frames_from n rest ≡ frames_from m rest =
        frames_from-enough n m rest (omega arith) (omega arith) in
      rw (frames_from-some n buf frame rest e, frames_from-some m buf frame rest e, same) refl
]

-- What is left behind the last frame is not longer, and no frame is in it.
frames_from-left :
    (n : ℕ) (buf : Units)
    → length buf ≤ n
    → (cut_frame (frames_from n buf).1 ≡ none) × (length (frames_from n buf).1 ≤ length buf)
unfolding frames_from
frames_from-left zero buf h = (cut_frame-empty buf h, omega arith)
frames_from-left (suc n) buf h = elim (Option-cases (cut_frame buf)) [
  | inl e ↦ rw (frames_from-none (suc n) buf e) (e, omega arith)
  | inr ((frame, rest), e) ↦
      let shorter = cut_frame-shorter buf frame rest e in
      let left = frames_from-left n rest (omega arith) in
      rw (frames_from-some n buf frame rest e) (left.0, omega arith)
]

-- The frames of two texts in a row: those of the first, then those of what it left with the second.
abbrev Resumed : Units → List Units × Units → List Units × Units → Type 0
Resumed more first all =
    all ≡ (first.0 ++ (frames_of (first.1 ++ more)).0, (frames_of (first.1 ++ more)).1)

frames_from-append_none :
    (n m : ℕ) (buf more : Units)
    → length (buf ++ more) ≤ m
    → cut_frame buf ≡ none
    → Resumed more (frames_from n buf) (frames_from m (buf ++ more))
frames_from-append_none n m buf more k e =
    rw (frames_from-none n buf e)
      (frames_from-enough m (length (buf ++ more)) (buf ++ more) k (omega arith))

frames_from-append :
    (n m : ℕ) (buf more : Units)
    → length buf ≤ n
    → length (buf ++ more) ≤ m
    → Resumed more (frames_from n buf) (frames_from m (buf ++ more))
frames_from-append zero m buf more h k =
    frames_from-append_none zero m buf more k (cut_frame-empty buf h)
frames_from-append (suc n) zero buf more h k =
    frames_from-append_none (suc n) zero buf more k
      (cut_frame-empty buf (omega (arith, length-append buf more)))
frames_from-append (suc n) (suc m) buf more h k = elim (Option-cases (cut_frame buf)) [
  | inl e ↦ frames_from-append_none (suc n) (suc m) buf more k e
  | inr ((frame, rest), e) ↦
      let shorter = cut_frame-shorter buf frame rest e in
      let same =
        frames_from-append n m rest more (omega arith)
          (omega (arith, length-append buf more, length-append rest more)) in
      rw
        (
          frames_from-some n buf frame rest e,
          frames_from-some m (buf ++ more) frame (rest ++ more)
              (cut_frame-append buf more frame rest e),
          same,
        )
        refl
]

frames_of-append : (buf more : Units) → Resumed more (frames_of buf) (frames_of (buf ++ more))
frames_of-append buf more =
    frames_from-append (length buf) (length (buf ++ more)) buf more (omega arith) (omega arith)

-- The guard never empties the buffer while the chunks arrive.
abbrev pub Fits : Units → List Units → Type 0
Fits buf [] = Unit
Fits buf (chunk ∷ chunks) =
    (length (frames_of (buf ++ chunk)).1 ≤ 65536) × Fits (frames_of (buf ++ chunk)).1 chunks

-- The text of a list of chunks.
abbrev pub joined : List Units → Units
joined [] = []
joined (chunk ∷ chunks) = chunk ++ joined chunks

guarded_short : (buf : Units) → length buf ≤ 65536 → guarded buf ≡ buf
guarded_short buf h = ground arith

cut_nothing : cut_frame [] ≡ none
unfolding cut_frame
cut_nothing = refl

frames_joined :
    (buf : Units) (chunks : List Units)
    → cut_frame buf ≡ none
    → Fits buf chunks
    → receive_all buf chunks ≡ frames_of (buf ++ joined chunks)
unfolding receive_all receive
frames_joined buf [] e h = rw (append-nil buf) (sym (frames_from-none (length buf) buf e))
frames_joined buf (chunk ∷ chunks) e h =
    let left = (frames_of (buf ++ chunk)).1 in
    let kept : guarded left ≡ left = guarded_short left h.0 in
    let no_frame = frames_from-left (length (buf ++ chunk)) (buf ++ chunk) (omega arith) in
    let rest : receive_all left chunks ≡ frames_of (left ++ joined chunks) =
      frames_joined left chunks no_frame.0 h.1 in
    rw (kept, rest, sym (append_assoc buf chunk (joined chunks)))
      (sym (frames_of-append (buf ++ chunk) (joined chunks)))

-- The chunks of a stream that begins with an empty buffer bring the frames of their text, however the
-- network cut it, and leave what stands behind its last frame, as long as what a chunk leaves is
-- within the guard.
pub receive_all-joined :
    (chunks : List Units) → Fits [] chunks → receive_all [] chunks ≡ frames_of (joined chunks)
receive_all-joined chunks h = frames_joined [] chunks cut_nothing h
