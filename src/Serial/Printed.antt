-- ===== src/Serial/Printed.antt =====
-- What bridgewire/adapters/reader/posix_serial.py reads of the properties that udevadm prints.
use Prim.Native.Char.{Char, code}
use frontdoor.Prelude.{ℕ, String, Bool, false, some, List, [], ◌∷◌, ◌==◌, ◌≡◌, refl, ap, ◌∙◌, All}
use frontdoor.Serial.{is_break, lines_of, split_property, properties_in, properties_of}

-- Whether no character of a text passes a test.
abbrev pub Lacks : (ℕ → Bool) → String → Type 0
Lacks p String.[] = Unit
Lacks p (String.◌∷◌ c s) = (p (code c) ≡ false) × Lacks p s

abbrev pub is_equals : ℕ → Bool
is_equals c = c == b'='

-- A key, `=`, a value and a line feed before a text.
abbrev before : String → String → String
before String.[] rest = rest
before (String.◌∷◌ c s) rest = String.◌∷◌ c (before s rest)

abbrev pub print_property : String → String → String → String
print_property key value rest = before key (String.◌∷◌ "=" (before value (String.◌∷◌ "\n" rest)))

abbrev print_properties : List (String × String) → String
print_properties [] = String.[]
print_properties ((key, value) ∷ rest) = print_property key value (print_properties rest)

-- What udevadm prints: no line break in a key or a value, and no `=` in a key.
abbrev pub IsPrintable : String × String → Type 0
IsPrintable p = Lacks is_equals p.0 × Lacks is_break p.0 × Lacks is_break p.1

lines_of-before :
    (line rest : String)
    → Lacks is_break line
    → lines_of (before line (String.◌∷◌ "\n" rest)) ≡ line ∷ lines_of rest
unfolding lines_of
lines_of-before String.[] rest h = refl
lines_of-before (String.◌∷◌ c line) rest h = rw (h.0, lines_of-before line rest h.1) refl

before-before :
    (a b : String) (c : Char) (rest : String)
    → before a (String.◌∷◌ c (before b rest)) ≡ before (before a (String.◌∷◌ c b)) rest
before-before String.[] b c rest = refl
before-before (String.◌∷◌ d a) b c rest = ap (String.◌∷◌ d) (before-before a b c rest)

Lacks-line :
    (key value : String)
    → Lacks is_break key
    → Lacks is_break value
    → Lacks is_break (before key (String.◌∷◌ "=" value))
Lacks-line String.[] value h k = (refl, k)
Lacks-line (String.◌∷◌ c key) value h k = (h.0, Lacks-line key value h.1 k)

split_property-before :
    (key value : String)
    → Lacks is_equals key
    → split_property (before key (String.◌∷◌ "=" value)) ≡ some (key, value)
unfolding split_property
split_property-before String.[] value h = refl
split_property-before (String.◌∷◌ c key) value h =
    rw (h.0, split_property-before key value h.1) refl

lines_of-print_property :
    (key value rest : String)
    → IsPrintable (key, value)
    → lines_of (print_property key value rest) ≡ before key (String.◌∷◌ "=" value) ∷ lines_of rest
lines_of-print_property key value rest (equals, keys, values) =
    ap lines_of (before-before key value "=" (String.◌∷◌ "\n" rest))
    ∙ lines_of-before (before key (String.◌∷◌ "=" value)) rest (Lacks-line key value keys values)

-- Of what udevadm prints the parser reads every property, in order.
properties_of-print :
    (properties : List (String × String))
    → All IsPrintable properties
    → properties_of (print_properties properties) ≡ properties
unfolding properties_of properties_in lines_of split_property
properties_of-print [] h = refl
properties_of-print ((key, value) ∷ rest) (printable, more) =
    rw (lines_of-print_property key value (print_properties rest) printable) (
      rw (split_property-before key value printable.0)
        (ap (λ r. (key, value) ∷ r) (properties_of-print rest more)))
