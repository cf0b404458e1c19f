-- ===== src/Prelude/Text.antt =====
-- Python strings: `str.strip` leaves nothing of a text of white space, and `==`.
use Prim.Native.Nat.{ℕ}
use Prim.Native.Char.{code}
use Prim.Native.String.{String, ◌++◌}
use text.Mathlib.Text.{◌==◌ as str_eq}
use text.Mathlib.TextEquality.{eq_iff, Char-path}
use text.Mathlib.TextPositions.{eq_refl}
use mathlib.Core.Path.{◌≡◌, refl, sym, ◌∙◌, ap₂}
use mathlib.Core.List.{List, [], ◌∷◌}
use mathlib.Core.Logic.{◌↔◌}
use mathlib.Core.Bool.{Bool, true, false, not, ◌&&◌, ◌||◌}
use mathlib.Core.Option.{Option, none, some}
use native.Mathlib.Omega.{arith}
use qarunner.Prelude.Tests.{leb, ◌==◌}

-- The characters that `str.isspace` accepts.
is_space : ℕ → Bool
is_space c =
    leb 9 c && leb c 13
    || leb 28 c && leb c 32
    || c == 0x85
    || c == 0xa0
    || c == 0x1680
    || leb 0x2000 c && leb c 0x200a
    || c == 0x2028
    || c == 0x2029
    || c == 0x202f
    || c == 0x205f
    || c == 0x3000

-- `not text.strip()`.
unfoldable pub is_blank : String → Bool
unfolding is_space
is_blank String.[] = true
is_blank (String.◌∷◌ c s) = is_space (code c) && is_blank s

abbrev pub same : String → String → Bool
same s t = str_eq s t

pub same_iff : (s t : String) → (same s t ≡ true) ↔ (s ≡ t)
same_iff = eq_iff

pub same_refl : (s : String) → same s s ≡ true
same_refl = eq_refl

decide_same : (s t : String) (b : Bool) → same s t ≡ b → Dec (s ≡ t)
decide_same s t true e = yes ((eq_iff s t).0 e)
decide_same s t false e = no (λ p. differs (sym e ∙ (eq_iff s t).1 p))
  where
    differs : false ≡ true → ⊥
    differs h = cc

unfoldable pub String-discrete : Discrete String
unfolding decide_same
String-discrete s t = decide_same s t (same s t) refl

-- The code points of a text.
abbrev pub joined : List String → String
joined [] = ""
joined (s ∷ rest) = s ++ joined rest

abbrev pub codes : String → List ℕ
codes String.[] = []
codes (String.◌∷◌ c s) = code c ∷ codes s

pub codes-injective : (s t : String) → codes s ≡ codes t → s ≡ t
codes-injective String.[] String.[] e = refl
codes-injective String.[] (String.◌∷◌ d t) e = cc
codes-injective (String.◌∷◌ c s) String.[] e = cc
codes-injective (String.◌∷◌ c s) (String.◌∷◌ d t) e =
    ap₂ String.◌∷◌ (Char-path c d (head_eq e)) (codes-injective s t (tail_eq e))
  where
    head_eq : code c ∷ codes s ≡ code d ∷ codes t → code c ≡ code d
    head_eq h = ground arith

    tail_eq : code c ∷ codes s ≡ code d ∷ codes t → codes s ≡ codes t
    tail_eq h = ground arith

-- `value in values`.
abbrev pub is_in : String → List String → Bool
is_in s [] = false
is_in s (t ∷ ts) = same t s || is_in s ts

-- `len(values) != len(set(values))`.
unfoldable pub has_repeat : List String → Bool
has_repeat [] = false
has_repeat (s ∷ ss) = is_in s ss || has_repeat ss

-- `a != b` where either may be `None`.
abbrev pub texts_differ : Option String → Option String → Bool
texts_differ none none = false
texts_differ (some s) (some t) = not (same s t)
texts_differ _ _ = true
