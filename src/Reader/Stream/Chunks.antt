-- ===== src/Reader/Stream/Chunks.antt =====
-- The stream of bridgewire/reader.py on the records of a reader, as the serial line cuts them into
-- chunks.
use frontdoor.Prelude.{
  ℕ, zero, suc, ◌+◌, ◌/◌, ◌%◌, ◌≤◌, ◌<◌, ◌≡◌, refl, sym, ap, ap₂, ◌∙◌, ◌⊎◌, inl, inr, true, not,
  Option, none, some, List, [], ◌∷◌, ◌++◌, map, length, concat, all, All, arith, append_assoc,
  append-nil, map-append, and_parts, ◌==◌, cons-injective, append-nil_parts, nil_of_length,
  length-append,
}
use frontdoor.Reader.Record.{
  Text, stx, etx, parsed, RecordResult, accepted, is_hex_digit, format_02x, xor_pairs,
  parse_reader_record, build_record,
}
use frontdoor.Reader.Record.Hex.{is_hex_digit-hex_digit, xor_pairs-lt}
use frontdoor.Reader.Record.RoundTrip.{IsIdentifier, parse-build}
use frontdoor.Reader.Stream.{ReaderRecordStream, drain, feed, feed_all, new_stream}
use frontdoor.Reader.Stream.Rounds.{lacks, drain_nil, drain_frame, drain_partial}

abbrev pub bytes_of : Option Text → Text
bytes_of none = []
bytes_of (some bytes) = bytes

-- What a reader sends for a list of credentials.
abbrev pub wire : List Text → Text
wire [] = []
wire (c ∷ cs) = bytes_of (build_record c) ++ wire cs

abbrev pub read_back : Text → RecordResult
read_back c = accepted (record { credential = c })

lacks-append :
    (byte : ℕ) (xs ys : Text)
    → lacks byte xs ≡ true
    → lacks byte ys ≡ true
    → lacks byte (xs ++ ys) ≡ true
lacks-append byte [] ys hx hy = hy
lacks-append byte (x ∷ xs) ys hx hy = ground (arith, lacks-append byte xs ys)

lacks-hex : (text : Text) → all is_hex_digit text ≡ true → lacks etx text ≡ true
lacks-hex [] h = refl
lacks-hex (c ∷ text) h =
    let (hc, rest) = and_parts (is_hex_digit c) (all is_hex_digit text) h in
    rw (lacks-hex text rest) (ground arith)

-- The record of an identifier is a frame with no end byte inside.
record Frame (c : Text) : Type 0 where
  body : Text
  built : bytes_of (build_record c) ≡ stx ∷ body ++ etx ∷ []
  inside : lacks etx body ≡ true
  size : length body ≡ 14
  reads : parse_reader_record (stx ∷ body ++ etx ∷ []) ≡ parsed (record { credential = c })

frame : (c : Text) → IsIdentifier c → Frame c
unfolding build_record
frame c id =
    let checksum = xor_pairs 0 c in
    let small : checksum < 256 = xor_pairs-lt 0 c (omega arith) id.digits in
    let body : Text = c ++ (format_02x checksum ++ 13 ∷ 10 ∷ []) in
    let (bytes, built, size, reads) = parse-build c id in
    let whole : bytes_of (build_record c) ≡ stx ∷ body ++ etx ∷ [] =
      rw id.digits (ap (◌∷◌ stx) (simp append_assoc)) in
    let same : bytes ≡ stx ∷ body ++ etx ∷ [] = sym (ap bytes_of built) ∙ whole in
    record {
      body = body;
      built = whole;
      inside = lacks-append etx c _ (lacks-hex c id.digits) (
          lacks-append etx (format_02x checksum) (13 ∷ 10 ∷ [])
            (lacks-hex (format_02x checksum) (
              rw (
                is_hex_digit-hex_digit (checksum / 16) (omega arith),
                is_hex_digit-hex_digit (checksum % 16) (omega arith),
              )))
            refl);
      size = omega (arith, ap length same, size, length-append {0} (stx ∷ body) (etx ∷ []));
      reads = rw same at reads;
    }

-- Two ways to cut one text.
cut_at :
    (xs ys zs ws : Text)
    → xs ++ ys ≡ zs ++ ws
    → ((xs' : Text) × (xs ≡ zs ++ xs') × (xs' ++ ys ≡ ws))
      ⊎ ((z : ℕ) × (zs' : Text) × (zs ≡ xs ++ z ∷ zs') × (ys ≡ z ∷ zs' ++ ws))
cut_at xs ys [] ws h = inl (xs, refl, h)
cut_at [] ys (z ∷ zs) ws h = inr (z, zs, refl, h)
cut_at (x ∷ xs) ys (z ∷ zs) ws h =
    let (head, tail) = cons-injective h in
    elim (cut_at xs ys zs ws tail) [
      | inl (xs', eq, rest) ↦ inl (xs', cc, rest)
      | inr (y, zs', eq, rest) ↦ inr (y, zs', cc, rest)
    ]

prefix_lacks :
    (e x : ℕ) (body xs rest : Text)
    → lacks e body ≡ true
    → body ++ e ∷ [] ≡ xs ++ x ∷ rest
    → (lacks e xs ≡ true) × (length xs ≤ length body)
prefix_lacks e x body [] rest h eq = (refl, omega arith)
prefix_lacks e x [] (y ∷ xs) rest h eq =
    let (_, tail) = cons-injective eq in
    let (_, absurd_tail) = append-nil_parts xs (x ∷ rest) (sym tail) in absurd (cc)
prefix_lacks e x (b ∷ body) (y ∷ xs) rest h eq =
    let (head, tail) = cons-injective eq in
    let (hb, more) = and_parts (not (b == e)) (lacks e body) h in
    let (inside, short) = prefix_lacks e x body xs rest more tail in
    (rw (← head, hb) inside, omega arith)

-- What a round of the loop does with the records that are still to come: the first of them are read,
-- and the beginning of the next one waits in the buffer.
record Cut (result : List RecordResult × Text) (bytes : Text) (cs : List Text) : Type 0 where
  done : List Text
  later : List Text
  split : cs ≡ done ++ later
  results : result.0 ≡ map read_back done
  resumes : result.1 ++ bytes ≡ wire later
  short : length result.1 < 16

Cut-partial :
    (maximum fuel : ℕ) (c : Text) (cs : List Text) (buffer bytes : Text) (z : ℕ) (zs : Text)
    → 16 ≤ maximum
    → Frame c
    → length buffer ≤ fuel
    → buffer ++ bytes ≡ wire (c ∷ cs)
    → bytes_of (build_record c) ≡ buffer ++ z ∷ zs
    → Cut (drain fuel maximum buffer) bytes (c ∷ cs)
Cut-partial maximum fuel c cs [] bytes z zs room f enough eq partial = rw drain_nil (record {
  done = [];
  later = c ∷ cs;
  split = refl;
  results = refl;
  resumes = eq;
  short = omega arith;
})
Cut-partial maximum zero c cs (b ∷ buffer) bytes z zs room f enough eq partial =
    absurd (omega arith)
Cut-partial maximum (suc fuel) c cs (b ∷ buffer) bytes z zs room f enough eq partial =
    let (starts, inner) = cons-injective (sym f.built ∙ partial) in
    let (inside, size) = prefix_lacks etx z f.body buffer zs f.inside inner in
    rw (← starts, drain_partial fuel maximum buffer inside (omega (arith, f.size)))
      (record {
        done = [];
        later = c ∷ cs;
        split = refl;
        results = refl;
        resumes = rw starts eq;
        short = omega (arith, f.size);
      })

Cut-whole :
    (maximum fuel : ℕ) (c : Text) (cs : List Text) (buffer bytes : Text)
    → Frame c
    → Cut (drain fuel maximum buffer) bytes cs
    → Cut (drain (suc fuel) maximum (bytes_of (build_record c) ++ buffer)) bytes (c ∷ cs)
Cut-whole maximum fuel c cs buffer bytes f cut =
    rw (f.built, append_assoc, drain_frame fuel maximum f.body buffer f.inside, f.reads)
      (record {
        done = c ∷ cut.done;
        later = cut.later;
        split = ap (◌∷◌ c) cut.split;
        results = ap (◌∷◌ (read_back c)) cut.results;
        resumes = cut.resumes;
        short = cut.short;
      })

length-sent : (c : Text) → Frame c → length (bytes_of (build_record c)) ≡ 16
length-sent c f =
    omega (arith, ap length f.built, f.size, length-append {0} (stx ∷ f.body) (etx ∷ []))

drain-Cut :
    (maximum : ℕ)
    → 16 ≤ maximum
    → (cs : List Text) (fuel : ℕ) (buffer bytes : Text) → All IsIdentifier cs
    → length buffer ≤ fuel
    → buffer ++ bytes ≡ wire cs
    → Cut (drain fuel maximum buffer) bytes cs
drain-Cut maximum room [] fuel buffer bytes ids enough eq =
    let (empty, none_left) = append-nil_parts buffer bytes eq in
    rw (empty, drain_nil)
      (record {
        done = [];
        later = [];
        split = refl;
        results = refl;
        resumes = none_left;
        short = omega arith;
      })
drain-Cut maximum room (c ∷ cs) zero buffer bytes ids enough eq =
    let f = frame c ids.0 in
    let empty = nil_of_length buffer enough in
    rw empty (
      Cut-partial maximum 0 c cs [] bytes stx (f.body ++ etx ∷ []) room f (omega arith)
        (rw empty at eq) f.built)
drain-Cut maximum room (c ∷ cs) (suc fuel) buffer bytes ids enough eq =
    let f = frame c ids.0 in
    elim (cut_at buffer bytes (bytes_of (build_record c)) (wire cs) eq) [
      | inl (buffer', whole, rest) ↦
          let size : length buffer ≡ 16 + length buffer' = omega (
            arith,
            ap length whole,
            length-sent c f,
            length-append {0} (bytes_of (build_record c)) buffer',
          ) in
          rw whole (
            Cut-whole maximum fuel c cs buffer' bytes f
              (drain-Cut maximum room cs fuel buffer' bytes ids.1 (omega arith) rest))
      | inr (z, zs, partial, rest) ↦
          Cut-partial maximum (suc fuel) c cs buffer bytes z zs room f enough eq partial
    ]

feed-Cut :
    (s : ReaderRecordStream) (chunk bytes : Text) (cs : List Text)
    → 16 ≤ s.maximum_buffer
    → All IsIdentifier cs
    → length s.buffer < 16
    → (s.buffer ++ chunk) ++ bytes ≡ wire cs
    → Cut ((feed s chunk).0, (feed s chunk).1.buffer) bytes cs
      × ((feed s chunk).1.maximum_buffer ≡ s.maximum_buffer)
unfolding feed
feed-Cut s [] bytes cs room ids short eq = (
  record {
    done = [];
    later = cs;
    split = refl;
    results = refl;
    resumes = rw append-nil at eq;
    short = short;
  },
  refl,
)
feed-Cut s (b ∷ chunk) bytes cs room ids short eq =
    let buffer = s.buffer ++ b ∷ chunk in
    (drain-Cut s.maximum_buffer room cs (length buffer) buffer bytes ids (omega arith) eq, refl)

All-later {ℓ κ} : {A : Type ℓ} (P : A → Type κ) (xs ys : List A) → All P (xs ++ ys) → All P ys
All-later P [] ys h = h
All-later P (x ∷ xs) ys h = All-later P xs ys h.1

length-wire : (cs : List Text) → All IsIdentifier cs → length (wire cs) < 16 → cs ≡ []
length-wire [] ids h = refl
length-wire (c ∷ cs) ids h = absurd (
    omega (
      arith,
      length-sent c (frame c ids.0),
      length-append {0} (bytes_of (build_record c)) (wire cs),
    ))

-- From a buffer that holds the beginning of a record.
feed_all_cut :
    (chunks : List Text) (s : ReaderRecordStream) (cs : List Text)
    → 16 ≤ s.maximum_buffer
    → All IsIdentifier cs
    → length s.buffer < 16
    → s.buffer ++ concat chunks ≡ wire cs
    → ((feed_all s chunks).0 ≡ map read_back cs) × ((feed_all s chunks).1.buffer ≡ [])
unfolding feed_all
feed_all_cut [] s cs room ids short eq =
    let all_read = length-wire cs ids (rw (← eq, append-nil) short) in
    (rw all_read, (append-nil_parts s.buffer [] (eq ∙ ap wire all_read)).0)
feed_all_cut (chunk ∷ chunks) s cs room ids short eq =
    let (cut, same) =
      feed-Cut s chunk (concat chunks) cs room ids short
        (append_assoc s.buffer chunk (concat chunks) ∙ eq) in
    let (rest, empty) =
      feed_all_cut chunks (feed s chunk).1 cut.later (rw same room)
        (All-later IsIdentifier cut.done cut.later (rw cut.split at ids)) cut.short cut.resumes in
    (
      ap₂ ◌++◌ cut.results rest
          ∙ sym (map-append read_back cut.done cut.later)
          ∙ ap (map read_back) (sym cut.split),
      empty,
    )

-- Records that a reader sends, cut into chunks in any way, come out of a new stream one by one, with
-- their credentials, and nothing is left in the buffer.
pub feed_all-wire :
    (maximum : ℕ) (credentials : List Text) (chunks : List Text)
    → 16 ≤ maximum
    → All IsIdentifier credentials
    → concat chunks ≡ wire credentials
    → ((feed_all (new_stream maximum) chunks).0 ≡ map read_back credentials)
      × ((feed_all (new_stream maximum) chunks).1.buffer ≡ [])
unfolding new_stream
feed_all-wire maximum credentials chunks room ids eq =
    feed_all_cut chunks (record { buffer = []; maximum_buffer = maximum }) credentials room ids
      (omega arith) eq
