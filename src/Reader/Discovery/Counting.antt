-- ===== src/Reader/Discovery/Counting.antt =====
-- What `discover_reader` decides, by the number of devices that match.
use frontdoor.Prelude.{
  ℕ, ◌+◌, ◌≤◌, ◌≡◌, refl, Bool, true, some, List, [], ◌∷◌, ◌++◌, arith, keep, count,
  count-le-length, length, sym, ap, ◌∙◌, ◌↔◌, cons-injective, Bool-cases, inl, inr,
}
use frontdoor.Reader.Discovery.{
  ReaderIdentity, SerialDevice, DiscoveryResult, found, not_found, ambiguous, matches, matching,
  discovery_of, discover_reader,
}

length-keep {ℓ} : {A : Type ℓ} (p : A → Bool) (xs : List A) → length (keep p xs) ≡ count p xs
length-keep p [] = refl
length-keep p (x ∷ xs) = ground (arith, length-keep p xs)

-- A list of which one item passes a test, taken apart at that item.
pub record Only {ℓ} {A : Type ℓ} (p : A → Bool) (xs : List A) (x : A) : Type ℓ where
  before : List A
  after : List A
  whole : xs ≡ before ++ x ∷ after
  passes : p x ≡ true
  none_before : count p before ≡ 0
  none_after : count p after ≡ 0

only {ℓ} : {A : Type ℓ} (p : A → Bool) (xs : List A) (x : A) → keep p xs ≡ x ∷ [] → Only p xs x
only p [] x h = absurd (cc)
only p (y ∷ ys) x h = elim (Bool-cases (p y)) [
  | inl passes ↦
      let (head, tail) = cons-injective (rw passes at h) in
      record {
        before = [];
        after = ys;
        whole = ap (λ z. z ∷ ys) head;
        passes = rw (← head) passes;
        none_before = refl;
        none_after = sym (length-keep p ys) ∙ ap length tail;
      }
  | inr fails ↦
      let rest = only p ys x (rw fails at h) in
      record {
        before = y ∷ rest.before;
        after = rest.after;
        whole = ap (◌∷◌ y) rest.whole;
        passes = rest.passes;
        none_before = rw fails rest.none_before;
        none_after = rest.none_after;
      }
]

-- How many devices match.
abbrev pub candidates : List SerialDevice → ReaderIdentity → ℕ
candidates devices identity = count (λ device. matches device identity) devices

-- The result against the number of devices that match.
abbrev pub IsByCount : DiscoveryResult → ℕ → ℕ → Type 0
IsByCount result matched total =
    ((result.status ≡ not_found) ↔ (matched ≡ 0))
    × ((result.status ≡ found) ↔ (matched ≡ 1))
    × ((result.status ≡ ambiguous) ↔ (2 ≤ matched))
    × (result.unrelated_count + matched ≡ total)

discovery_of-IsByCount :
    (total : ℕ) (ms : List SerialDevice)
    → length ms ≤ total
    → IsByCount (discovery_of total ms) (length ms) total
discovery_of-IsByCount total [] h = ground arith
discovery_of-IsByCount total (d ∷ []) h = ground arith
discovery_of-IsByCount total (d ∷ e ∷ ds) h = ground arith

one_device :
    (total : ℕ) (ms : List SerialDevice) (d : SerialDevice)
    → (discovery_of total ms).device ≡ some d
    → ms ≡ d ∷ []
one_device total [] d h = cc
one_device total (e ∷ []) d h = cc
one_device total (e ∷ f ∷ ms) d h = cc

module _ (devices : List SerialDevice) (identity : ReaderIdentity) where
  -- The reader is found if one device matches, not found if none does, and ambiguous if several do;
  -- every device that does not match is counted as unrelated.
  pub discover_reader-candidates :
      IsByCount (discover_reader devices identity) (candidates devices identity) (length devices)
  unfolding discover_reader
  discover_reader-candidates =
      let p = λ (d : SerialDevice). matches d identity in
      rw (← length-keep p devices) (
        discovery_of-IsByCount (length devices) (matching devices identity)
          (omega (arith, length-keep p devices, count-le-length p devices)))

  -- A device is returned only if it is the one that matches.
  discover_reader-Only :
      (device : SerialDevice)
      → (discover_reader devices identity).device ≡ some device
      → Only (λ d. matches d identity) devices device
  unfolding discover_reader
  discover_reader-Only device h =
      only (λ d. matches d identity) devices device
        (one_device (length devices) (matching devices identity) device h)
