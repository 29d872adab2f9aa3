-- ===== src/Prelude/Actions.antt =====
-- Python's exceptions and statements: an action reads and writes a state, and returns or raises.
-- What was written before a raise stays written, so the state comes back beside the error too.
use mathlib.Core.Path.{◌≡◌, refl}
use mathlib.Core.Logic.{◌⊎◌, inl, inr}
use mathlib.Core.Bool.{Bool, true, false}

-- The exceptions that the program raises or catches, by class.
pub data Exception : Type 0 where
  value_error type_error key_error attribute_error : Exception
  runtime_error assertion_error overflow_error : Exception
  os_error reader_disconnected_error subprocess_error : Exception
  snapshot_unavailable_error query_unavailable_error invalid_query_error sqlite_error
        exception_group :
      Exception

pub data Result {ℓ} (A : Type ℓ) : Type ℓ where
  ok : A → Result A
  err : Exception → Result A

abbrev pub is_ok {ℓ} : {A : Type ℓ} → Result A → Bool
is_ok (ok a) = true
is_ok (err e) = false

pub Result-cases {ℓ} :
    {A : Type ℓ} (r : Result A) → ((a : A) × (r ≡ ok a)) ⊎ ((e : Exception) × (r ≡ err e))
Result-cases (ok a) = inl (a, refl)
Result-cases (err e) = inr (e, refl)

abbrev pub Exec {ℓ} : Type ℓ → Type ℓ → Type ℓ
Exec S A = S → Result A × S

module _ {ℓ} {S A : Type ℓ} where
  abbrev pub pure : A → Exec S A
  pure a s = (ok a, s)

  abbrev pub raise : Exception → Exec S A
  raise e s = (err e, s)

  abbrev pub gets : (S → A) → Exec S A
  gets f s = (ok (f s), s)

  abbrev pub lift : Result A → Exec S A
  lift r s = (r, s)

abbrev pub modify {ℓ} : {S : Type ℓ} → (S → S) → Exec S Unit
modify f s = (ok tt, f s)

module _ {ℓ} {S A B : Type ℓ} where
  infixl 5 ◌>>=◌ ◌>>◌
  abbrev pub ◌>>=◌ : Exec S A → (A → Exec S B) → Exec S B
  ◌>>=◌ m f s = let (r, s') = m s in elim r [ ok a ↦ f a s' | err e ↦ (err e, s') ]

  abbrev pub ◌>>◌ : Exec S A → Exec S B → Exec S B
  m >> k = m >>= λ _. k

  -- `try: m` with `except Exception: handler` and `else: f`.
  abbrev pub try_else : Exec S A → (Exception → Exec S B) → (A → Exec S B) → Exec S B
  try_else m handler f s = let (r, s') = m s in elim r [ ok a ↦ f a s' | err e ↦ handler e s' ]
