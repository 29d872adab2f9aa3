-- ===== src/Authorization/Verdict.antt =====
-- `load_stream` of bridgewire/authorization.py: what the rows of a file say of a credential.
use frontdoor.Prelude.{
  ◌+◌, ◌≡◌, refl, ◌∙◌, String, Bool, true, false, Option, none, some, List, [], ◌∷◌, ◌++◌, length,
  length-append, ok, err, arith, if◌then◌else◌, inl, inr, Result-cases, Bool-cases, is_none,
}
use frontdoor.Reader.Record.{Text}
use frontdoor.Controller.State.{AuthorizationOutcome, authorized, denied, unknown}
use frontdoor.Authorization.{
  AuthorizationRecord, normalize_key, text_eq, Row, Records, field, find_record, is_yes, put,
  add_row, add_rows, outcome_of, Parsing, load_stream, is_header, AuthorizationStore, classify,
}

-- A row that names a credential, up to case and dashes.
abbrev pub names : Text → Row → Bool
names credential row = elim (field "KEY" row) [
  | ok key ↦ text_eq (normalize_key credential) (normalize_key key)
  | err e ↦ false
]

abbrev pub admits : Row → Bool
admits row = elim (field "ALLOW" row) [ ok allow ↦ is_yes allow | err e ↦ false ]

-- The first row that names the credential decides.
unfoldable pub verdict : Text → List Row → AuthorizationOutcome
verdict credential [] = unknown
verdict credential (row ∷ rows) =
    if names credential row
    then (if admits row then authorized else denied)
    else verdict credential rows

find_record-append :
    (k : Text) (xs ys : Records)
    → find_record k (xs ++ ys)
      ≡ elim (find_record k xs) [ some r ↦ some r | none ↦ find_record k ys ]
find_record-append k [] ys = refl
find_record-append k ((other, r) ∷ xs) ys = ground (arith, find_record-append k xs ys)

-- The records before the rows decide, then the rows.
abbrev before : Option AuthorizationRecord → AuthorizationOutcome → AuthorizationOutcome
before none rest = rest
before (some r) rest = outcome_of (some r)

text_eq→≡ : (a b : Text) → text_eq a b ≡ true → a ≡ b
text_eq→≡ [] [] h = refl
text_eq→≡ [] (y ∷ ys) h = absurd (cc)
text_eq→≡ (x ∷ xs) [] h = absurd (cc)
text_eq→≡ (x ∷ xs) (y ∷ ys) h = grind (arith, text_eq→≡ xs ys)

put-append :
    (k : Text) (r : AuthorizationRecord) (b : Records)
    → is_none (find_record k b) ≡ true
    → put k r b ≡ b ++ (k, r) ∷ []
unfolding put
put-append k r [] absent = refl
put-append k r ((other, old) ∷ rest) absent = elim (Bool-cases (text_eq k other)) [
  | inl same ↦ absurd (ground (arith, same, absent))
  | inr apart ↦ ground (arith, apart, put-append k r rest (ground (arith, apart, absent)))
]

add_row-verdict :
    (c : Text) (row : Row) (b a : Records)
    → add_row row b ≡ ok a
    → (outcome : AuthorizationOutcome)
    → (before (find_record (normalize_key c) a) outcome
        ≡ before
            (find_record (normalize_key c) b)
            (if names c row then (if admits row then authorized else denied) else outcome))
      × (length a ≡ length b + 1)
unfolding add_row
add_row-verdict c row b a made outcome = (
  grind (arith, put-append, find_record-append, text_eq→≡),
  grind (arith, put-append, length-append),
)

add_rows-verdict :
    (c : Text) (rows : List Row) (b a : Records)
    → add_rows rows b ≡ ok a
    → (before (find_record (normalize_key c) a) unknown
        ≡ before (find_record (normalize_key c) b) (verdict c rows))
      × (length a ≡ length b + length rows)
unfolding add_rows verdict
add_rows-verdict c [] b a made = (grind arith, grind arith)
add_rows-verdict c (row ∷ rows) b a made = elim (Result-cases (add_row row b)) [
  | inl (mid, added) ↦
      let (decided, grown) = add_row-verdict c row b mid added (verdict c rows) in
      let (rest, total) = add_rows-verdict c rows mid a (rw added at made) in
      (rest ∙ decided, omega (arith, grown, total))
  | inr (e, failed) ↦ absurd (cc)
]

module _ (parsing : Parsing) where
  -- A load that succeeds has the header `KEY,NAME,ALLOW`, rows without an error of the validator,
  -- and one record for each row.
  abbrev pub IsLoaded : Text → List Row → Records → Type 0
  IsLoaded text rows records =
      ((fieldnames : Option (List String)) × (parsing.read_csv text ≡ ok (fieldnames, rows))
        × (is_header fieldnames ≡ true))
      × (parsing.first_error rows ≡ none)
      × (length records ≡ length rows)

  -- Where a load of a text succeeds, the text has rows under the exact header, the validator finds no
  -- error in them, every row gives one record, and a store with these records classifies every
  -- credential as the first row that names it (up to case and dashes) says, and as unknown where no
  -- row does.
  pub load_stream-classify :
      {W : Type 0} (text : Text) (s : AuthorizationStore W)
      → load_stream parsing text ≡ ok s.records
      → (rows : List Row) × IsLoaded text rows s.records
        × ((credential : Text) → classify s credential ≡ verdict credential rows)
  unfolding load_stream classify
  load_stream-classify text s loaded = elim (Result-cases (parsing.read_csv text)) [
    | inl ((fieldnames, rows), read) ↦
        let header : is_header fieldnames ≡ true = grind arith in
        let valid : parsing.first_error rows ≡ none = grind arith in
        let added : add_rows rows [] ≡ ok s.records = grind arith in
        (
          rows,
          (
            (fieldnames, read, header),
            valid,
            grind (arith, (add_rows-verdict [] rows [] s.records added).1),
          ),
          λ c. grind (arith, (add_rows-verdict c rows [] s.records added).0),
        )
    | inr (e, failed) ↦ absurd (grind arith)
  ]
