-- ===== src/Prelude/Texts.antt =====
-- Empty texts, and membership of a text in a list of texts.
use Prim.Native.String.{String}
use mathlib.Core.Path.{◌≡◌, sym, subst}
use mathlib.Core.Logic.{inl, inr}
use mathlib.Core.Bool.{Bool, true, false}
use mathlib.Core.List.{List, [], ◌∷◌}
use text.Mathlib.Text.{◌==◌ as str_eq}
use text.Mathlib.TextEquality.{eq_iff}
use frontdoor.Prelude.Tests.{text_in, Bool-cases}
use frontdoor.Prelude.Lists.{All}

abbrev pub is_empty : String → Bool
is_empty String.[] = true
is_empty (String.◌∷◌ c s) = false

-- What holds of every text of a list holds of a text that is in it.
pub text_in-All {κ} :
    (P : String → Type κ) (x : String) (xs : List String) → All P xs → text_in x xs ≡ true → P x
text_in-All P x [] h found = absurd (cc)
text_in-All P x (y ∷ ys) h found = elim (Bool-cases (str_eq x y)) [
  | inl same ↦ subst P (sym ((eq_iff x y).0 same)) h.0
  | inr other ↦ text_in-All P x ys h.1 (rw other at found)
]
