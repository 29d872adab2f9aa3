-- ===== src/Authorization/Store.antt =====
-- `AuthorizationStore` of bridgewire/authorization.py: its reload, and the spelling of credentials.
use frontdoor.Prelude.{
  String, Exception, Result-cases, ◌≡◌, refl, true, not, some, [], ◌∷◌, keep, length, ok, err,
  arith, ◌==◌, inl, inr,
}
use frontdoor.Reader.Record.{Text}
use frontdoor.Authorization.{
  upper, normalize_key, Parsing, Files, Metadata, AuthorizationStore, load_stream, load, reload,
  store_snapshot, classify,
}

-- Every credential is classified as before, and the snapshot is as before.
abbrev pub IsAsBefore : {W : Type 0} → AuthorizationStore W → AuthorizationStore W → Type 0
IsAsBefore before after =
    (store_snapshot after ≡ store_snapshot before)
    × ((credential : Text) → classify after credential ≡ classify before credential)

-- The snapshot shows the metadata and the number of the records of a load of the text.
abbrev pub IsReplaced : {W : Type 0} → Parsing → Text → Metadata → AuthorizationStore W → Type 0
IsReplaced parsing text metadata after =
    (load_stream parsing text ≡ ok after.records)
    × (store_snapshot after ≡ record {
      loaded = true;
      record_count = length after.records;
      source_revision = some (metadata.mtime_ns, metadata.size);
      source_modified_at = some metadata.modified_at;
    })

module _ {W : Type 0} (parsing : Parsing) (files : Files W) where
  -- A `reload` that raises leaves the classification of every credential and the snapshot as they
  -- were; one that returns has read a text whose load gave all of the records, and shows the metadata
  -- that `stat` then returned for the file.
  pub reload_all_or_nothing :
      (path : String) (s : AuthorizationStore W)
      → ((e : Exception)
          → (reload parsing files path s).0 ≡ err e
          → IsAsBefore s (reload parsing files path s).1)
        × ((reload parsing files path s).0 ≡ ok tt
            → (text : Text) × (metadata : Metadata) × ((files.read_text path s.world).0 ≡ ok text)
              × ((files.stat path (files.read_text path s.world).1).0 ≡ ok metadata)
              × IsReplaced parsing text metadata (reload parsing files path s).1)
  unfolding reload load store_snapshot classify
  reload_all_or_nothing path s = (
    λ e failed. (grind arith, λ credential. grind arith),
    λ done. elim (Result-cases (files.read_text path s.world).0) [
      | inl (text, read) ↦
          elim (Result-cases (files.stat path (files.read_text path s.world).1).0) [
            | inl (metadata, found) ↦ (text, metadata, read, found, (grind arith, grind arith))
            | inr (e, failed) ↦ absurd (grind arith)
          ]
      | inr (e, failed) ↦ absurd (grind arith)
    ],
  )

keep-upper :
    (s : Text) → keep (λ c. not (c == b'-')) (upper s) ≡ upper (keep (λ c. not (c == b'-')) s)
keep-upper [] = refl
keep-upper (c ∷ s) = ground (arith, keep-upper s)

keep_twice :
    (s : Text)
    → keep (λ c. not (c == b'-')) (keep (λ c. not (c == b'-')) s) ≡ keep (λ c. not (c == b'-')) s
keep_twice [] = refl
keep_twice (c ∷ s) = ground (arith, keep_twice s)

upper_twice : (s : Text) → upper (upper s) ≡ upper s
upper_twice [] = refl
upper_twice (c ∷ s) = ground (arith, upper_twice s)

-- A credential is classified as its spelling without dashes and in upper case is.
pub classify-normalize_key :
    {W : Type 0} (s : AuthorizationStore W) (credential : Text)
    → classify s (normalize_key credential) ≡ classify s credential
unfolding classify normalize_key
classify-normalize_key s credential = simp (keep-upper, keep_twice, upper_twice)
