-- ===== src/Prelude/Results.antt =====
-- Chains of results, where no state is at hand.
use mathlib.Core.Path.{◌≡◌, refl, subst}
use frontdoor.Prelude.Actions.{Exception, Result, ok, err}

-- The next call gets the value; an exception passes it by.
infixl 5 ◌>>=◌
unfoldable pub ◌>>=◌ {ℓ κ} :
    {Before : Type ℓ} {After : Type κ} → Result Before → (Before → Result After) → Result After
(ok value) >>= next = next value
(err raised) >>= next = err raised

ok_injective {ℓ} : {A : Type ℓ} {a b : A} → ok a ≡ ok b → a ≡ b
ok_injective same = cc

-- What holds of the value, when there is one.
pub record Ensures {ℓ κ} {A : Type ℓ} (P : A → Type κ) (r : Result A) : Type (ℓ ⊔ κ) where
  pub holds : (a : A) → r ≡ ok a → P a

module _ {ℓ κ} {A : Type ℓ} (P : A → Type κ) where
  pub Ensures-ok : (a : A) → P a → Ensures P (ok a)
  Ensures-ok a p = record { holds = λ b same. subst P (ok_injective same) p }

  pub Ensures-err : (e : Exception) → Ensures P (err e)
  Ensures-err e = record { holds = λ b same. absurd cc }

module _ {ℓ κ υ} {A : Type ℓ} {B : Type κ} (Q : B → Type υ) where
  pub Ensures-bind {ω} :
      (P : A → Type ω) (m : Result A) (f : A → Result B)
      → Ensures P m
      → ((a : A) → P a → Ensures Q (f a))
      → Ensures Q (m >>= f)
  unfolding ◌>>=◌
  Ensures-bind P (ok a) f p step = step a (p.holds a refl)
  Ensures-bind P (err e) f p step = Ensures-err Q e

  pub Ensures-after :
      (m : Result A) (f : A → Result B) → ((a : A) → Ensures Q (f a)) → Ensures Q (m >>= f)
  unfolding ◌>>=◌
  Ensures-after (ok a) f step = step a
  Ensures-after (err e) f step = Ensures-err Q e
