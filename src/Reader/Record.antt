-- ===== src/Reader/Record.antt =====
-- One record of the reader's protocol: `parse_reader_record` and `parse_credential_identifier` of
-- bridgewire/reader.py, and `build_record` of bridgewire/simulation.py.
pub mod Hex
pub mod RoundTrip
use frontdoor.Prelude.{
  ℕ, ◌+◌, ◌-◌, ◌*◌, ◌/◌, ◌%◌, bit_xor, String, Bool, true, false, not, ◌&&◌, ◌||◌, Option, none,
  some, List, [], ◌∷◌, ◌++◌, length, take, drop, get_or, all, ltb, leb, ◌==◌, if◌then◌else◌,
}

abbrev pub Text : Type 0
Text = List ℕ

abbrev pub stx : ℕ
stx = 0x02

abbrev pub etx : ℕ
etx = 0x03

abbrev pub record_length : ℕ
record_length = 16

pub record ParsedRecord : Type 0 where
  pub credential : Text

-- What `parse_reader_record` returns, or the reason of the `ReaderRecordError` that it raises.
pub data Parsed : Type 0 where
  parsed : ParsedRecord → Parsed
  refused : String → Parsed

-- `RecordResult`
pub data RecordResult : Type 0 where
  accepted : ParsedRecord → RecordResult
  malformed : String → RecordResult

-- `character in "0123456789ABCDEF"`
abbrev pub is_hex_digit : ℕ → Bool
is_hex_digit c = (leb b'0' c && leb c b'9') || (leb b'A' c && leb c b'F')

-- `int(c, 16)` of such a character.
abbrev pub hex_value : ℕ → ℕ
hex_value c = if leb c b'9' then c - b'0' else c - b'A' + 10

-- `int(text, 16)` from the left, over the characters above.
unfoldable pub int_16 : ℕ → Text → ℕ
int_16 acc [] = acc
int_16 acc (c ∷ text) = int_16 (acc * 16 + hex_value c) text

-- `for offset in range(0, len(data), 2): checksum ^= int(data[offset : offset + 2], 16)`
unfoldable pub xor_pairs : ℕ → Text → ℕ
unfolding int_16
xor_pairs checksum [] = checksum
xor_pairs checksum (a ∷ []) = bit_xor checksum (int_16 0 (a ∷ []))
xor_pairs checksum (a ∷ b ∷ data') = xor_pairs (bit_xor checksum (int_16 0 (a ∷ b ∷ []))) data'

-- `decode("ascii", errors="strict")` does not raise.
abbrev pub is_ascii : Text → Bool
is_ascii = all λ byte. ltb byte 128

-- `record[first:last]`
abbrev pub slice : ℕ → ℕ → Text → Text
slice first last bytes = take (last - first) (drop first bytes)

unfoldable pub parse_credential_identifier : Text → Parsed
parse_credential_identifier credential =
    if not (length credential == 10) || not (all is_hex_digit credential)
    then refused "invalid_identifier"
    else parsed (record { credential = credential })

-- From the checksum's characters on, once the identifier is accepted.
unfoldable pub check_checksum : Text → Text → ParsedRecord → Parsed
unfolding xor_pairs
check_checksum data' checksum_text result =
    if not (length checksum_text == 2) || not (all is_hex_digit checksum_text)
    then refused "invalid_checksum_encoding"
    else if not (xor_pairs 0 data' == int_16 0 checksum_text)
    then refused "checksum_mismatch"
    else parsed result

abbrev after_identifier : Text → Text → Parsed → Parsed
after_identifier data' checksum_text (refused reason) = refused reason
after_identifier data' checksum_text (parsed result) = check_checksum data' checksum_text result

unfoldable pub parse_reader_record : Text → Parsed
unfolding parse_credential_identifier check_checksum
parse_reader_record bytes =
    let data' = slice 1 11 bytes in
    let checksum_text = slice 11 13 bytes in
    if not (length bytes == record_length)
    then refused "invalid_length"
    else if not (get_or bytes 0 0 == stx) || not (get_or bytes 15 0 == etx)
    then refused "invalid_framing"
    else if not (get_or bytes 13 0 == 13) || not (get_or bytes 14 0 == 10)
    then refused "invalid_terminator"
    else if not (is_ascii data') || not (is_ascii checksum_text)
    then refused "invalid_encoding"
    else after_identifier data' checksum_text (parse_credential_identifier data')

-- A digit of the format `02X`.
abbrev pub hex_digit : ℕ → ℕ
hex_digit n = if ltb n 10 then b'0' + n else b'A' + (n - 10)

-- `f"{n:02X}"` for a byte.
abbrev pub format_02x : ℕ → Text
format_02x n = hex_digit (n / 16) ∷ hex_digit (n % 16) ∷ []

-- `build_record`, for a credential of hexadecimal digits; `none` stands for any other.
unfoldable pub build_record : Text → Option Text
unfolding xor_pairs
build_record credential =
    if all is_hex_digit credential
    then some (stx ∷ credential ++ format_02x (xor_pairs 0 credential) ++ 13 ∷ 10 ∷ etx ∷ [])
    else none
