-- ===== src/Reader/Stream.antt =====
-- `ReaderRecordStream` of bridgewire/reader.py: the bytes that have come, cut into records.
pub mod Rounds
pub mod Settled
pub mod Chunks
use frontdoor.Prelude.{
  ℕ, zero, suc, ◌+◌, ◌*◌, Bool, true, false, not, Option, none, some, List, [], ◌∷◌, ◌++◌, length,
  take, drop, ltb, ◌==◌, if◌then◌else◌,
}
use frontdoor.Reader.Record.{
  Text, stx, etx, record_length, Parsed, parsed, refused, RecordResult, accepted, malformed,
  parse_reader_record,
}

pub record ReaderRecordStream : Type 0 where
  pub buffer : Text
  pub maximum_buffer : ℕ

-- `ReaderRecordStream.__init__`
unfoldable pub new_stream : ℕ → ReaderRecordStream
new_stream maximum_buffer = record { buffer = []; maximum_buffer = maximum_buffer }

-- The default of `maximum_buffer`.
abbrev pub default_maximum_buffer : ℕ
default_maximum_buffer = record_length * 4

-- `bytearray.find`; `none` stands for -1.
abbrev pub find : ℕ → Text → Option ℕ
find byte [] = none
find byte (b ∷ bytes) =
    if b == byte then some 0 else elim (find byte bytes) [ none ↦ none | some i ↦ some (suc i) ]

-- The buffer after a byte that begins no record.
abbrev pub resume_at : Option ℕ → Text → Text
resume_at none buffer = []
resume_at (some start) buffer = drop start buffer

-- The `try` round `parse_reader_record`.
abbrev pub record_result : Parsed → RecordResult
record_result (parsed p) = accepted p
record_result (refused reason) = malformed reason

-- The `while` loop of `feed`: what it adds to `results`, and the buffer that it leaves. A round that
-- does not end the loop takes at least one byte off the buffer.
unfoldable pub drain : ℕ → ℕ → Text → List RecordResult × Text
drain zero maximum buffer = ([], buffer)
drain (suc fuel) maximum [] = ([], [])
drain (suc fuel) maximum (b ∷ rest) =
    let buffer = b ∷ rest in
    let resumed = drain fuel maximum (resume_at (find stx buffer) buffer) in
    if not (b == stx)
    then (malformed "invalid_framing" ∷ resumed.0, resumed.1)
    else elim (find etx rest) [
      | none ↦
          if ltb maximum (length buffer)
          then (malformed "excessive_length" ∷ [], [])
          else ([], buffer)
      | some i ↦
          let end = suc i in
          let later = drain fuel maximum (drop (suc end) buffer) in
          (record_result (parse_reader_record (take (suc end) buffer)) ∷ later.0, later.1)
    ]

-- The loop, with a round for each byte.
abbrev pub drain_all : ℕ → Text → List RecordResult × Text
drain_all maximum buffer = drain (length buffer) maximum buffer

unfoldable pub feed : ReaderRecordStream → Text → List RecordResult × ReaderRecordStream
unfolding drain
feed s [] = ([], s)
feed s (byte ∷ chunk) =
    let (results, buffer) = drain_all s.maximum_buffer (s.buffer ++ byte ∷ chunk) in
    (results, record s { buffer = buffer })

-- Several chunks in turn, and all their results.
unfoldable pub feed_all : ReaderRecordStream → List Text → List RecordResult × ReaderRecordStream
feed_all s [] = ([], s)
feed_all s (chunk ∷ chunks) =
    let (results, s') = feed s chunk in
    let (more, final) = feed_all s' chunks in (results ++ more, final)
