-- ===== src/Authorization.antt =====
-- bridgewire/authorization.py: the authorization file and the store of its records. The CSV reader,
-- the schema validator and the file system are parameters. Keys are raised to upper case as ASCII,
-- the only letters that the schema admits in a key.
pub mod Verdict
pub mod Store
pub mod Install
use Prim.Native.Char.{code}
use frontdoor.Prelude.{
  ℕ, ◌-◌, String, Bool, true, false, not, ◌&&◌, Option, none, some, is_none, List, [], ◌∷◌, ◌++◌,
  length, keep, Exception, value_error, key_error, attribute_error, Result, ok, err, Exec, pure,
  raise, gets, modify, ◌>>=◌, str_eq, leb, ◌==◌, if◌then◌else◌,
}
use frontdoor.Reader.Record.{Text}
use frontdoor.Clock.{Timestamp}
use frontdoor.Controller.State.{AuthorizationOutcome, authorized, denied, unknown}

pub record AuthorizationRecord : Type 0 where
  pub key : Text
  pub name : Option Text
  pub allow : Bool

-- `st_mtime_ns` and `st_size`, whose texts the revision joins, and the time of the change.
pub record Metadata : Type 0 where
  pub mtime_ns : ℕ
  pub size : ℕ
  pub modified_at : Timestamp

pub record AuthorizationSnapshot : Type 0 where
  pub loaded : Bool
  pub record_count : ℕ
  pub source_revision : Option (ℕ × ℕ)
  pub source_modified_at : Option Timestamp

abbrev pub upper_char : ℕ → ℕ
upper_char c = if leb b'a' c && leb c b'z' then c - 32 else c

abbrev pub upper : Text → Text
upper [] = []
upper (c ∷ s) = upper_char c ∷ upper s

-- `key.replace("-", "").upper()`
unfoldable pub normalize_key : Text → Text
normalize_key key = upper (keep (λ c. not (c == b'-')) key)

abbrev pub text_eq : Text → Text → Bool
text_eq [] [] = true
text_eq (x ∷ xs) (y ∷ ys) = (x == y) && text_eq xs ys
text_eq _ _ = false

-- A row of `csv.DictReader`; a missing value is `None`.
abbrev pub Row : Type 0
Row = List (String × Option Text)

-- The dictionary of the records, in the order of the insertions.
abbrev pub Records : Type 0
Records = List (Text × AuthorizationRecord)

-- `row[name]`
abbrev pub cell : String → Row → Result (Option Text)
cell name [] = err key_error
cell name ((other, value) ∷ rest) = if str_eq name other then ok value else cell name rest

-- `row[name]` as the object of a method of texts, which `None` does not have.
abbrev pub field : String → Row → Result Text
field name row = elim (cell name row) [
  | err e ↦ err e
  | ok value ↦ elim value [ none ↦ err attribute_error | some text ↦ ok text ]
]

-- `records.get(key)`
abbrev pub find_record : Text → Records → Option AuthorizationRecord
find_record key [] = none
find_record key ((other, r) ∷ rest) = if text_eq key other then some r else find_record key rest

-- `records[key] = r`: a key that is there keeps its place and loses its record.
unfoldable pub put : Text → AuthorizationRecord → Records → Records
put key r [] = (key, r) ∷ []
put key r ((other, old) ∷ rest) =
    if text_eq key other then (other, r) ∷ rest else (other, old) ∷ put key r rest

-- `row["ALLOW"].lower() == "y"`
abbrev pub is_yes : Text → Bool
is_yes allow = text_eq (upper allow) (b'Y' ∷ [])

infixl 5 ◌then_row◌
abbrev pub ◌then_row◌ : {A B : Type 0} → Result A → (A → Result B) → Result B
(ok a) then_row f = f a
(err e) then_row f = err e

-- The body of the loop over the rows.
unfoldable pub add_row : Row → Records → Result Records
unfolding put
add_row row records = field "KEY" row then_row λ key.
    let normalized = normalize_key key in
    if is_none (find_record normalized records)
    then cell "NAME" row then_row (λ name. field "ALLOW" row then_row λ allow.
        ok
          (put normalized (record { key = normalized; name = name; allow = is_yes allow }) records))
    else err value_error

unfoldable pub add_rows : List Row → Records → Result Records
add_rows [] records = ok records
add_rows (row ∷ rows) records = add_row row records then_row add_rows rows

-- The CSV reader and the validator: the field names and the rows, or an error of the reader; the
-- message of the first error of the validator.
pub record Parsing : Type 0 where
  pub read_csv : Text → Result (Option (List String) × List Row)
  pub first_error : List Row → Option String

abbrev pub is_header : Option (List String) → Bool
is_header (some (a ∷ b ∷ c ∷ [])) = str_eq a "KEY" && (str_eq b "NAME" && str_eq c "ALLOW")
is_header _ = false

-- `AuthorizationFile.load_stream`; `AuthorizationError` is a `ValueError`.
unfoldable pub load_stream : Parsing → Text → Result Records
load_stream parsing text = elim (parsing.read_csv text) [
  | err e ↦ err value_error
  | ok (fieldnames, rows) ↦
      if is_header fieldnames
      then (elim (parsing.first_error rows) [
        | some message ↦ err value_error
        | none ↦ add_rows rows []
      ])
      else err value_error
]

-- The file system: the text of a file, or `UnicodeError` or `OSError`, and its metadata.
pub record Files (W : Type 0) : Type 0 where
  pub read_text : String → W → Result Text × W
  pub stat : String → W → Result Metadata × W

-- `AuthorizationStore`, with the world of the files.
pub record AuthorizationStore (W : Type 0) : Type 0 where
  pub records : Records
  pub version : Option (ℕ × ℕ)
  pub modified_at : Option Timestamp
  pub world : W

abbrev pub new_store : {W : Type 0} → W → AuthorizationStore W
new_store w = record { records = []; version = none; modified_at = none; world = w }

module _ {W : Type 0} (parsing : Parsing) (files : Files W) where
  abbrev pub on_files : {A : Type 0} → (W → Result A × W) → Exec (AuthorizationStore W) A
  on_files f s = let (result, w) = f s.world in (result, record s { world = w })

  -- `AuthorizationFile.load`
  unfoldable pub load : String → Exec (AuthorizationStore W) Records
  load path s =
      let (read, w) = files.read_text path s.world in
      elim read [
        | ok text ↦ (load_stream parsing text, record s { world = w })
        | err e ↦ (err value_error, record s { world = w })
      ]

  -- `AuthorizationStore.reload`
  unfoldable pub reload : String → Exec (AuthorizationStore W) Unit
  reload path = do
    candidate ← load path
    metadata ← on_files (files.stat path)
    modify (λ s. record s {
      records = candidate;
      version = some (metadata.mtime_ns, metadata.size);
      modified_at = some metadata.modified_at;
    })

module _ {W : Type 0} where
  unfoldable pub store_snapshot : AuthorizationStore W → AuthorizationSnapshot
  store_snapshot s = record {
    loaded = not (is_none s.version);
    record_count = length s.records;
    source_revision = s.version;
    source_modified_at = s.modified_at;
  }

abbrev pub outcome_of : Option AuthorizationRecord → AuthorizationOutcome
outcome_of none = unknown
outcome_of (some r) = if r.allow then authorized else denied

-- `AuthorizationStore.classify`
unfoldable pub classify : {W : Type 0} → AuthorizationStore W → Text → AuthorizationOutcome
classify s credential = outcome_of (find_record (normalize_key credential) s.records)
