-- ===== src/Prelude/Texts.antt =====
-- Texts compared as a whole, and the code points of a text that the program walks through.
use Prim.Native.Nat.{ℕ}
use Prim.Native.Char.{code}
use Prim.Native.String.{String}
use mathlib.Core.Path.{◌≡◌, refl, sym, ◌∙◌}
use mathlib.Core.Logic.{◌↔◌}
use mathlib.Core.Bool.{Bool, true, false}
use mathlib.Core.List.{List, [], ◌∷◌}
use text.Mathlib.Text.{◌==◌}
use text.Mathlib.TextEquality.{eq_iff}

abbrev pub str_eq : String → String → Bool
str_eq s t = s == t

pub str_eq_iff : (s t : String) → (str_eq s t ≡ true) ↔ (s ≡ t)
str_eq_iff s t = eq_iff s t

pub apart_by : (s t : String) → str_eq s t ≡ false → ¬ (s ≡ t)
apart_by s t e p = cc (sym e ∙ (eq_iff s t).1 p)

abbrev dec_by : (s t : String) (b : Bool) → str_eq s t ≡ b → Dec (s ≡ t)
dec_by s t true e = yes ((eq_iff s t).0 e)
dec_by s t false e = no (apart_by s t e)

-- Equality of keys, as a decision.
unfoldable pub str_dec : Discrete String
str_dec s t = dec_by s t (str_eq s t) refl

-- The code points of a text: its bytes, if it is ASCII.
abbrev pub codes : String → List ℕ
codes String.[] = []
codes (String.◌∷◌ c s) = code c ∷ codes s
