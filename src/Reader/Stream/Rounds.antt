-- ===== src/Reader/Stream/Rounds.antt =====
-- One round of the loop of `feed` of bridgewire/reader.py, and its fuel.
use frontdoor.Prelude.{
  ℕ, zero, suc, ◌≤◌, ◌<◌, ◌≡◌, refl, Bool, true, false, not, none, some, [], ◌∷◌, ◌++◌, length,
  take, drop, ltb, ◌==◌, if◌then◌else◌, all, arith, length-drop, Option-cases, inl, inr, ap,
  Bool-cases,
}
use frontdoor.Reader.Record.{Text, stx, etx, malformed, parse_reader_record}
use frontdoor.Reader.Stream.{find, resume_at, record_result, drain}

-- No byte of a text is `byte`.
abbrev pub lacks : ℕ → Text → Bool
lacks byte = all λ b. not (b == byte)

pub find_absent : (byte : ℕ) (text : Text) → lacks byte text ≡ true → find byte text ≡ none
find_absent byte [] h = refl
find_absent byte (b ∷ text) h = ground (arith, find_absent byte text)

pub find_first :
    (byte : ℕ) (text rest : Text)
    → lacks byte text ≡ true
    → find byte (text ++ byte ∷ rest) ≡ some (length text)
find_first byte [] rest h = ground arith
find_first byte (b ∷ text) rest h = ground (arith, find_first byte text rest)

pub find-none : (byte : ℕ) (text : Text) → find byte text ≡ none → lacks byte text ≡ true
find-none byte [] h = refl
find-none byte (b ∷ text) h = ground (arith, find-none byte text)

take-append_next :
    (text : Text) (b : ℕ) (rest : Text)
    → take (suc (length text)) (text ++ b ∷ rest) ≡ text ++ b ∷ []
take-append_next [] b rest = refl
take-append_next (c ∷ text) b rest = ap (◌∷◌ c) (take-append_next text b rest)

drop-append_next :
    (text : Text) (b : ℕ) (rest : Text) → drop (suc (length text)) (text ++ b ∷ rest) ≡ rest
drop-append_next [] b rest = refl
drop-append_next (c ∷ text) b rest = drop-append_next text b rest

-- A resumed buffer is shorter, and begins a record if it is not empty.
pub length-resume_at :
    (b : ℕ) (rest : Text)
    → (b == stx) ≡ false
    → length (resume_at (find stx (b ∷ rest)) (b ∷ rest)) ≤ length rest
length-resume_at b rest h = elim (Option-cases (find stx rest)) [
  | inl absent ↦ rw (h, absent) (omega arith)
  | inr (i, found) ↦ rw (h, found) (omega (arith, length-drop i rest))
]

pub drain_nil : (fuel maximum : ℕ) → drain fuel maximum [] ≡ ([], [])
unfolding drain
drain_nil zero maximum = refl
drain_nil (suc fuel) maximum = refl

-- The three kinds of round.
module _ (fuel maximum b : ℕ) (rest : Text) where
  pub drain_noise :
      (b == stx) ≡ false
      → let later = drain fuel maximum (resume_at (find stx (b ∷ rest)) (b ∷ rest)) in
        drain (suc fuel) maximum (b ∷ rest) ≡ (malformed "invalid_framing" ∷ later.0, later.1)
  unfolding drain
  drain_noise noise = rw noise

  pub drain_waits :
      (b == stx) ≡ true
      → find etx rest ≡ none
      → drain (suc fuel) maximum (b ∷ rest) ≡ (
          if ltb maximum (suc (length rest))
          then (malformed "excessive_length" ∷ [], [])
          else ([], b ∷ rest))
  unfolding drain
  drain_waits starts absent = rw (starts, absent)

  pub drain_ends :
      {i : ℕ}
      → (b == stx) ≡ true
      → find etx rest ≡ some i
      → let later = drain fuel maximum (drop (suc i) rest) in
        drain (suc fuel) maximum (b ∷ rest)
        ≡ (record_result (parse_reader_record (take (suc (suc i)) (b ∷ rest))) ∷ later.0, later.1)
  unfolding drain
  drain_ends starts ends = rw (starts, ends)

-- With a round for each byte the loop ends by itself.
pub drain_fuel :
    (f g maximum : ℕ) (buffer : Text)
    → length buffer ≤ f
    → length buffer ≤ g
    → drain f maximum buffer ≡ drain g maximum buffer
unfolding drain
drain_fuel zero zero maximum buffer hf hg = refl
drain_fuel zero (suc g) maximum [] hf hg = refl
drain_fuel zero (suc g) maximum (b ∷ rest) hf hg = absurd (omega arith)
drain_fuel (suc f) zero maximum [] hf hg = refl
drain_fuel (suc f) zero maximum (b ∷ rest) hf hg = absurd (omega arith)
drain_fuel (suc f) (suc g) maximum [] hf hg = refl
drain_fuel (suc f) (suc g) maximum (b ∷ rest) hf hg = elim (Bool-cases (b == stx)) [
  | inl starts ↦ elim (Option-cases (find etx rest)) [
    | inl partial ↦ rw (starts, partial)
    | inr (i, ends) ↦ rw (
      starts,
      ends,
      drain_fuel f g maximum (drop (suc i) rest) (omega (arith, length-drop (suc i) rest))
          (omega (arith, length-drop (suc i) rest)),
    )
  ]
  | inr noise ↦ rw (
    drain_fuel f g maximum (resume_at (find stx (b ∷ rest)) (b ∷ rest))
        (omega (arith, length-resume_at b rest noise))
        (omega (arith, length-resume_at b rest noise)),
    noise,
  )
]

-- A frame with no end byte inside is handed to the parser, and the loop goes on after it.
pub drain_frame :
    (fuel maximum : ℕ) (body rest : Text)
    → lacks etx body ≡ true
    → drain (suc fuel) maximum (stx ∷ body ++ etx ∷ rest) ≡ (
      record_result (parse_reader_record (stx ∷ body ++ etx ∷ [])) ∷ (drain fuel maximum rest).0,
      (drain fuel maximum rest).1,
    )
unfolding drain
drain_frame fuel maximum body rest h =
    rw (find_first etx body rest h, take-append_next body etx rest, drop-append_next body etx rest)

-- The beginning of a frame waits in the buffer.
pub drain_partial :
    (fuel maximum : ℕ) (body : Text)
    → lacks etx body ≡ true
    → length body < maximum
    → drain (suc fuel) maximum (stx ∷ body) ≡ ([], stx ∷ body)
unfolding drain
drain_partial fuel maximum body h small = rw (find_absent etx body h) (ground arith)
