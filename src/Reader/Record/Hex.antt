-- ===== src/Reader/Record/Hex.antt =====
-- Hexadecimal digits, and the exclusive or of bytes.
use frontdoor.Prelude.{
  ℕ, zero, suc, ◌+◌, ◌*◌, ◌/◌, ◌%◌, ◌<◌, ◌≡◌, bit_xor, true, ◌&&◌, [], ◌∷◌, arith, ap, all, ap₂,
  ◌∙◌, and_parts,
}
use Prim.Native.Nat.{digits, bit_xor-bitwise, differ}
use frontdoor.Reader.Record.{
  is_hex_digit, hex_value, hex_digit, format_02x, int_16, xor_pairs, Text,
}

pub hex_value-lt : (c : ℕ) → is_hex_digit c ≡ true → hex_value c < 16
hex_value-lt c h = ground arith

pub hex_digit-hex_value : (c : ℕ) → is_hex_digit c ≡ true → hex_digit (hex_value c) ≡ c
hex_digit-hex_value c h = ground arith

pub hex_value-hex_digit : (n : ℕ) → n < 16 → hex_value (hex_digit n) ≡ n
hex_value-hex_digit n h = ground arith

pub is_hex_digit-hex_digit : (n : ℕ) → n < 16 → is_hex_digit (hex_digit n) ≡ true
is_hex_digit-hex_digit n h = ground arith

div_of_parts : (a b : ℕ) → b < 16 → (a * 16 + b) / 16 ≡ a
div_of_parts a b h = omega arith

mod_of_parts : (a b : ℕ) → b < 16 → (a * 16 + b) % 16 ≡ b
mod_of_parts a b h = omega arith

int_16_pair : (a b : ℕ) → int_16 0 (a ∷ b ∷ []) ≡ hex_value a * 16 + hex_value b
unfolding int_16
int_16_pair a b = ap (λ (n : ℕ). n * 16 + hex_value b) (omega arith)

-- Printing two digits and reading them back.
pub format_02x-int_16 :
    (a b : ℕ)
    → is_hex_digit a ≡ true
    → is_hex_digit b ≡ true
    → format_02x (int_16 0 (a ∷ b ∷ [])) ≡ a ∷ b ∷ []
format_02x-int_16 a b ha hb = rw (int_16_pair a b) (
    ap₂ (λ (x y : ℕ). x ∷ y ∷ [])
      (ap hex_digit (div_of_parts (hex_value a) (hex_value b) (hex_value-lt b hb))
        ∙ hex_digit-hex_value a ha)
      (ap hex_digit (mod_of_parts (hex_value a) (hex_value b) (hex_value-lt b hb))
        ∙ hex_digit-hex_value b hb))

pub int_16-format_02x : (n : ℕ) → n < 256 → int_16 0 (format_02x n) ≡ n
int_16-format_02x n h =
    rw
      (
        int_16_pair (hex_digit (n / 16)) (hex_digit (n % 16)),
        hex_value-hex_digit (n / 16) (omega arith),
        hex_value-hex_digit (n % 16) (omega arith),
      )
      (omega arith)

pub int_16_pair-lt :
    (a b : ℕ) → is_hex_digit a ≡ true → is_hex_digit b ≡ true → int_16 0 (a ∷ b ∷ []) < 256
int_16_pair-lt a b ha hb = omega (arith, int_16_pair a b, hex_value-lt a ha, hex_value-lt b hb)

abbrev power_of_two : ℕ → ℕ
power_of_two zero = 1
power_of_two (suc k) = power_of_two k * 2

differ-lt : (a b : ℕ) → a < 2 → b < 2 → differ a b < 2
differ-lt zero b h k = k
differ-lt (suc zero) zero h k = omega arith
differ-lt (suc zero) (suc b) h k = omega arith
differ-lt (suc (suc a)) b h k = absurd (omega arith)

-- The exclusive or of two numbers of at most k binary digits has at most k.
digits-lt :
    (n k a b : ℕ)
    → a < power_of_two k
    → b < power_of_two k
    → digits (λ b. b) differ n a b < power_of_two k
digits-lt zero k a b ha hb = hb
digits-lt (suc n) k zero b ha hb = hb
digits-lt (suc n) zero (suc a) b ha hb = absurd (omega arith)
digits-lt (suc n) (suc k) (suc a) b ha hb = omega (
  arith,
  digits-lt n k (suc a / 2) (b / 2) (omega arith) (omega arith),
  differ-lt (suc a % 2) (b % 2) (omega arith) (omega arith),
)

pub bit_xor-lt : (a b : ℕ) → a < 256 → b < 256 → bit_xor a b < 256
bit_xor-lt a b ha hb = omega (arith, bit_xor-bitwise a b, digits-lt a 8 a b ha hb)

-- The checksum of hexadecimal digits is a byte.
pub xor_pairs-lt :
    (checksum : ℕ) (text : Text)
    → checksum < 256
    → all is_hex_digit text ≡ true
    → xor_pairs checksum text < 256
unfolding xor_pairs
xor_pairs-lt checksum [] h hex = h
xor_pairs-lt checksum (a ∷ []) h hex =
    let (ha, _) = and_parts (is_hex_digit a) true hex in
    bit_xor-lt checksum _ h (omega (arith, hex_value-lt a ha))
xor_pairs-lt checksum (a ∷ b ∷ text) h hex =
    let (ha, more) = and_parts (is_hex_digit a) (is_hex_digit b && all is_hex_digit text) hex in
    let (hb, rest) = and_parts (is_hex_digit b) (all is_hex_digit text) more in
    xor_pairs-lt (bit_xor checksum _) text (bit_xor-lt checksum _ h (int_16_pair-lt a b ha hb)) rest
