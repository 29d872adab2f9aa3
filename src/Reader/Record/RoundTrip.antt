-- ===== src/Reader/Record/RoundTrip.antt =====
-- `parse_reader_record` of bridgewire/reader.py against `build_record` of bridgewire/simulation.py.
use frontdoor.Prelude.{
  ℕ, ◌<◌, ◌≡◌, refl, String, Bool, true, not, ◌&&◌, ◌||◌, some, [], ◌∷◌, ◌++◌, arith, ◌==◌,
  if◌then◌else◌, length, ◌/◌, ◌%◌, get_or, all, and_parts, ==_iff, ap, sym, ◌∙◌,
}
use frontdoor.Reader.Record.{
  Text, stx, etx, ParsedRecord, Parsed, parsed, refused, is_hex_digit, hex_digit, format_02x,
  int_16, xor_pairs, is_ascii, after_identifier, slice, parse_credential_identifier, check_checksum,
  parse_reader_record, build_record,
}
use frontdoor.Reader.Record.Hex.{
  is_hex_digit-hex_digit, format_02x-int_16, int_16-format_02x, xor_pairs-lt,
}

-- A credential that every source accepts.
pub record IsIdentifier (credential : Text) : Type 0 where
  pub ten : length credential ≡ 10
  pub digits : all is_hex_digit credential ≡ true

pub all-is_ascii : (text : Text) → all is_hex_digit text ≡ true → is_ascii text ≡ true
all-is_ascii [] h = refl
all-is_ascii (c ∷ text) h =
    let (hc, rest) = and_parts (is_hex_digit c) (all is_hex_digit text) h in
    rw (all-is_ascii text rest) (ground arith)

-- The parts of a framed record of sixteen bytes.
abbrev pub framed : Text → Text → Text
framed credential checksum = stx ∷ credential ++ checksum ++ 13 ∷ 10 ∷ etx ∷ []

-- A record of the right shape is decided by its identifier and its checksum.
parse_ten :
    (a b c d e f g h i j x y : ℕ)
    → let text = a ∷ b ∷ c ∷ d ∷ e ∷ f ∷ g ∷ h ∷ i ∷ j ∷ [] in
      all is_hex_digit text ≡ true
      → is_hex_digit x ≡ true
      → is_hex_digit y ≡ true
      → xor_pairs 0 text ≡ int_16 0 (x ∷ y ∷ [])
      → parse_reader_record (framed text (x ∷ y ∷ [])) ≡ parsed (record { credential = text })
unfolding parse_reader_record
parse_ten a b c d e f g h i j x y hex hx hy sum =
    let text = a ∷ b ∷ c ∷ d ∷ e ∷ f ∷ g ∷ h ∷ i ∷ j ∷ [] in
    rw
      (
        all-is_ascii text hex,
        all-is_ascii (x ∷ y ∷ []) (rw (hx, hy)),
        hex,
        hx,
        hy,
        (==_iff (xor_pairs 0 text) (int_16 0 (x ∷ y ∷ []))).1 sum,
      )
      refl

-- Every identifier has a record, of sixteen bytes, and the parser gives the identifier back.
pub parse-build :
    (credential : Text)
    → IsIdentifier credential
    → (bytes : Text) × (build_record credential ≡ some bytes)
      × (length bytes ≡ 16)
      × (parse_reader_record bytes ≡ parsed (record { credential = credential }))
unfolding build_record
parse-build (a ∷ b ∷ c ∷ d ∷ e ∷ f ∷ g ∷ h ∷ i ∷ j ∷ []) id =
    let text = a ∷ b ∷ c ∷ d ∷ e ∷ f ∷ g ∷ h ∷ i ∷ j ∷ [] in
    let checksum = xor_pairs 0 text in
    let small : checksum < 256 = xor_pairs-lt 0 text (omega arith) id.digits in
    (
      framed text (format_02x checksum),
      rw id.digits,
      refl,
      parse_ten a b c d e f g h i j (hex_digit (checksum / 16)) (hex_digit (checksum % 16))
          id.digits (is_hex_digit-hex_digit (checksum / 16) (omega arith))
          (is_hex_digit-hex_digit (checksum % 16) (omega arith))
          (sym (int_16-format_02x checksum small)),
    )
parse-build (a ∷ b ∷ c ∷ d ∷ e ∷ f ∷ g ∷ h ∷ i ∷ j ∷ k ∷ l) id = absurd (omega (arith, id.ten))
parse-build _ id = absurd (omega (arith, id.ten))

-- One step down a ladder of refusals: both of its tests held.
passed :
    (a b : Bool) (reason : String) (rest : Parsed) {p : ParsedRecord}
    → (if not a || not b then refused reason else rest) ≡ parsed p
    → (a ≡ true) × (b ≡ true) × (rest ≡ parsed p)
passed a b reason rest h = ground arith

passed_one :
    (a : Bool) (reason : String) (rest : Parsed) {p : ParsedRecord}
    → (if not a then refused reason else rest) ≡ parsed p
    → (a ≡ true) × (rest ≡ parsed p)
passed_one a reason rest h = ground arith

-- The tests that an accepted record has passed.
record HasPassed (bytes : Text) (p : ParsedRecord) : Type 0 where
  sixteen : length bytes ≡ 16
  starts : get_or bytes 0 0 ≡ stx
  ends : get_or bytes 15 0 ≡ etx
  returns : get_or bytes 13 0 ≡ 13
  feed : get_or bytes 14 0 ≡ 10
  digits : all is_hex_digit (slice 1 11 bytes) ≡ true
  checked : all is_hex_digit (slice 11 13 bytes) ≡ true
  sum : xor_pairs 0 (slice 1 11 bytes) ≡ int_16 0 (slice 11 13 bytes)
  credential : record { credential = slice 1 11 bytes } ≡ p

parsed-injective : {p q : ParsedRecord} → parsed p ≡ parsed q → p ≡ q
parsed-injective h = cc

after_identifier-parsed :
    (data' text : Text) {p : ParsedRecord}
    → after_identifier data' text (parse_credential_identifier data') ≡ parsed p
    → (all is_hex_digit data' ≡ true)
      × (check_checksum data' text (record { credential = data' }) ≡ parsed p)
unfolding parse_credential_identifier
after_identifier-parsed data' text h = ground arith

check_checksum-parsed :
    (data' text : Text) (r : ParsedRecord) {p : ParsedRecord}
    → check_checksum data' text r ≡ parsed p
    → (all is_hex_digit text ≡ true) × (xor_pairs 0 data' ≡ int_16 0 text) × (r ≡ p)
unfolding check_checksum
check_checksum-parsed data' text r h =
    let (two, hex, h₁) = passed (length text == 2) (all is_hex_digit text) _ _ h in
    let (sum, h₂) = passed_one (xor_pairs 0 data' == int_16 0 text) _ _ h₁ in
    (hex, (==_iff (xor_pairs 0 data') (int_16 0 text)).0 sum, parsed-injective h₂)

parse-HasPassed :
    (bytes : Text) (p : ParsedRecord) → parse_reader_record bytes ≡ parsed p → HasPassed bytes p
unfolding parse_reader_record
parse-HasPassed bytes p h =
    let (sixteen, h₁) = passed_one (length bytes == 16) _ _ h in
    let (starts, ends, h₂) = passed (get_or bytes 0 0 == stx) (get_or bytes 15 0 == etx) _ _ h₁ in
    let (cr, lf, h₃) = passed (get_or bytes 13 0 == 13) (get_or bytes 14 0 == 10) _ _ h₂ in
    let (_, _, h₄) = passed (is_ascii (slice 1 11 bytes)) (is_ascii (slice 11 13 bytes)) _ _ h₃ in
    let (digits, h₅) = after_identifier-parsed (slice 1 11 bytes) (slice 11 13 bytes) h₄ in
    let (checked, sum, whole) = check_checksum-parsed (slice 1 11 bytes) (slice 11 13 bytes) _ h₅ in
    record {
      sixteen = (==_iff (length bytes) 16).0 sixteen;
      starts = (==_iff (get_or bytes 0 0) stx).0 starts;
      ends = (==_iff (get_or bytes 15 0) etx).0 ends;
      returns = (==_iff (get_or bytes 13 0) 13).0 cr;
      feed = (==_iff (get_or bytes 14 0) 10).0 lf;
      digits = digits;
      checked = checked;
      sum = sum;
      credential = whole;
    }

built_sixteen :
    (s a b c d e f g h i j x y m n o : ℕ) {p : ParsedRecord}
    → let bytes = s ∷ a ∷ b ∷ c ∷ d ∷ e ∷ f ∷ g ∷ h ∷ i ∷ j ∷ x ∷ y ∷ m ∷ n ∷ o ∷ [] in
      HasPassed bytes p → build_record p.credential ≡ some bytes
unfolding build_record
built_sixteen s a b c d e f g h i j x y m n o {p} tests =
    let text = a ∷ b ∷ c ∷ d ∷ e ∷ f ∷ g ∷ h ∷ i ∷ j ∷ [] in
    let (hx, more) = and_parts (is_hex_digit x) (is_hex_digit y && true) tests.checked in
    let (hy, _) = and_parts (is_hex_digit y) true more in
    let sum : format_02x (xor_pairs 0 text) ≡ x ∷ y ∷ [] =
      ap format_02x tests.sum ∙ format_02x-int_16 x y hx hy in
    rw (← tests.credential, tests.digits, tests.starts, tests.ends, tests.returns, tests.feed)
      (ap (λ (t : Text). some (framed text t)) sum)

-- Whatever the parser accepts is the record that the builder makes of the identifier that it gives:
-- no other bytes are read as a credential.
pub build-parse :
    (bytes : Text) (p : ParsedRecord)
    → parse_reader_record bytes ≡ parsed p
    → build_record p.credential ≡ some bytes
build-parse bytes p h = of_tests bytes (parse-HasPassed bytes p h)
  where
    of_tests : (bytes : Text) → HasPassed bytes p → build_record p.credential ≡ some bytes
    of_tests (s ∷ a ∷ b ∷ c ∷ d ∷ e ∷ f ∷ g ∷ h ∷ i ∷ j ∷ x ∷ y ∷ m ∷ n ∷ o ∷ []) tests =
        built_sixteen s a b c d e f g h i j x y m n o tests
    of_tests (s ∷ a ∷ b ∷ c ∷ d ∷ e ∷ f ∷ g ∷ h ∷ i ∷ j ∷ x ∷ y ∷ m ∷ n ∷ o ∷ k ∷ l) tests =
        absurd (omega (arith, tests.sixteen))
    of_tests _ tests = absurd (omega (arith, tests.sixteen))
