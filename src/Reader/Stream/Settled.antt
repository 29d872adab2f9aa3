-- ===== src/Reader/Stream/Settled.antt =====
-- The buffer and the results of the stream of bridgewire/reader.py, on any bytes.
use frontdoor.Prelude.{
  ℕ, zero, suc, ◌≤◌, ◌≡◌, refl, sym, ap, ◌∙◌, inl, inr, true, Option, none, some, List, [], ◌∷◌,
  ◌++◌, length, take, drop, All, All-map, arith, ltb, ◌==◌, if◌then◌else◌, append_assoc,
  take-append-drop, length-drop, drop-length, Bool-cases, Option-cases,
}
use frontdoor.Reader.Record.{
  Text, stx, etx, Parsed, parsed, refused, RecordResult, accepted, malformed, parse_reader_record,
  build_record,
}
use frontdoor.Reader.Record.RoundTrip.{build-parse}
use frontdoor.Reader.Stream.{ReaderRecordStream, find, resume_at, record_result, drain, feed}
use frontdoor.Reader.Stream.Rounds.{
  lacks, find-none, length-resume_at, drain_nil, drain_noise, drain_waits, drain_ends,
}

-- A buffer that waits for more: nothing, or the beginning of one record that is not too long.
abbrev pub IsSettled : ℕ → Text → Type 0
IsSettled maximum [] = Unit
IsSettled maximum (b ∷ rest) = (b ≡ stx) × (lacks etx rest ≡ true) × (length (b ∷ rest) ≤ maximum)

-- The bytes of an accepted record stand in the input.
abbrev pub IsGenuine : Text → RecordResult → Type 0
IsGenuine input (malformed reason) = Unit
IsGenuine input (accepted p) =
    (before : Text) × (bytes : Text) × (after : Text) × (build_record p.credential ≡ some bytes)
    × (input ≡ before ++ (bytes ++ after))

IsGenuine-drop :
    (n : ℕ) (input : Text) (r : RecordResult) → IsGenuine (drop n input) r → IsGenuine input r
IsGenuine-drop n input (malformed reason) g = tt
IsGenuine-drop n input (accepted p) (before, bytes, after, built, eq) = (
  take n input ++ before,
  bytes,
  after,
  built,
  sym (take-append-drop n input)
      ∙ ap (λ (t : Text). take n input ++ t) eq
      ∙ sym (append_assoc (take n input) before (bytes ++ after)),
)

IsGenuine-resume :
    (at : Option ℕ) (input : Text) (rs : List RecordResult)
    → All (IsGenuine (resume_at at input)) rs
    → All (IsGenuine input) rs
IsGenuine-resume none input rs h =
    All-map (IsGenuine-drop (length input) input) rs (rw drop-length h)
IsGenuine-resume (some n) input rs h = All-map (IsGenuine-drop n input) rs h

record_result-IsGenuine :
    (n : ℕ) (input : Text) → IsGenuine input (record_result (parse_reader_record (take n input)))
record_result-IsGenuine n input = of_result (parse_reader_record (take n input)) refl
  where
    of_result :
        (r : Parsed) → parse_reader_record (take n input) ≡ r → IsGenuine input (record_result r)
    of_result (refused reason) eq = tt
    of_result (parsed p) eq = (
      [],
      take n input,
      drop n input,
      build-parse (take n input) p eq,
      sym (take-append-drop n input),
    )

waiting-IsSettled :
    (maximum b : ℕ) (rest : Text)
    → (b == stx) ≡ true
    → find etx rest ≡ none
    → let result : List RecordResult × Text =
        if ltb maximum (suc (length rest))
        then (malformed "excessive_length" ∷ [], [])
        else ([], b ∷ rest) in
      IsSettled maximum result.1 × All (IsGenuine (b ∷ rest)) result.0
waiting-IsSettled maximum b rest starts absent = ground (arith, find-none etx rest)

drain-IsSettled :
    (fuel maximum : ℕ) (buffer : Text)
    → length buffer ≤ fuel
    → IsSettled maximum (drain fuel maximum buffer).1
      × All (IsGenuine buffer) (drain fuel maximum buffer).0
drain-IsSettled zero maximum [] h = rw drain_nil (tt, tt)
drain-IsSettled zero maximum (b ∷ rest) h = absurd (omega arith)
drain-IsSettled (suc fuel) maximum [] h = rw drain_nil (tt, tt)
drain-IsSettled (suc fuel) maximum (b ∷ rest) h = elim (Bool-cases (b == stx)) [
  | inr noise ↦
      let at = find stx (b ∷ rest) in
      let (settled, genuine) =
        drain-IsSettled fuel maximum (resume_at at (b ∷ rest))
          (omega (arith, length-resume_at b rest noise)) in
      rw (drain_noise fuel maximum b rest noise)
        (settled, (tt, IsGenuine-resume at (b ∷ rest) _ genuine))
  | inl starts ↦ elim (Option-cases (find etx rest)) [
    | inl absent ↦
        rw (drain_waits fuel maximum b rest starts absent)
          (waiting-IsSettled maximum b rest starts absent)
    | inr (i, ends) ↦
        let (settled, genuine) =
          drain-IsSettled fuel maximum (drop (suc i) rest)
            (omega (arith, length-drop (suc i) rest)) in
        rw (drain_ends fuel maximum b rest starts ends) (
          settled,
          (
            record_result-IsGenuine (suc (suc i)) (b ∷ rest),
            All-map (IsGenuine-drop (suc (suc i)) (b ∷ rest)) _ genuine,
          ),
        )
  ]
]

-- Whatever comes in, the loop ends by itself: the buffer is empty, or begins one record of at most
-- the maximum length; and a credential is accepted only if its whole record stood in the input.
pub feed-IsSettled :
    (s : ReaderRecordStream) (chunk : Text)
    → IsSettled s.maximum_buffer s.buffer
    → IsSettled s.maximum_buffer (feed s chunk).1.buffer
      × All (IsGenuine (s.buffer ++ chunk)) (feed s chunk).0
unfolding feed
feed-IsSettled s [] settled = (settled, tt)
feed-IsSettled s (b ∷ chunk) settled =
    let buffer = s.buffer ++ b ∷ chunk in
    drain-IsSettled (length buffer) s.maximum_buffer buffer (omega arith)
