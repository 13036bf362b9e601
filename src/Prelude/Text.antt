-- ===== src/Prelude/Text.antt =====
-- Text: equality, and the parts of `str` that the source calls. `upper` is `str.upper` on ASCII
-- letters, which is all that the type and currency codes use.
use Prim.Native.Nat.{ℕ, ◌-◌, ◌<◌, compare, Ordering}
use Prim.Native.Char.{Char, code, char, IsScalar}
use Prim.Native.String.{String}
use Prim.Native.String
use mathlib.Core.Path.{◌≡◌, refl}
use mathlib.Core.Logic.{◌↔◌, dite}
use mathlib.Core.Bool.{Bool, true, false, ◌&&◌, ◌||◌}
use mathlib.Core.List.{List, [], ◌∷◌}
use mathlib.Core.Option.{Option, none, some}
use native.Mathlib.Omega.{arith}
use native.Mathlib.Decide.{dec_lt}
use text.Mathlib.Text.{◌==◌, find?}
use text.Mathlib.TextLemmas.{cons-append}
use text.Mathlib.TextEquality.{eq_iff}
use portfolio_analytics_syst.Prelude.Tests.{leb, if◌then◌else◌}

-- `s == t` on texts
unfoldable pub str_eq : String → String → Bool
str_eq s t = s == t

pub str_eq_iff : (s t : String) → (str_eq s t ≡ true) ↔ (s ≡ t)
unfolding str_eq
str_eq_iff s t = eq_iff s t

pub str_eq_self : (s : String) → str_eq s s ≡ true
str_eq_self s = (str_eq_iff s s).1 refl

pub str_eq_comm : (s t : String) → str_eq s t ≡ str_eq t s
str_eq_comm s t = ground (arith, str_eq_iff s t, str_eq_iff t s)

-- `s in l`
unfoldable pub str_in : String → List String → Bool
unfolding str_eq
str_in s [] = false
str_in s (t ∷ l) = str_eq s t || str_in s l

-- The pieces of an f-string, joined.
unfoldable pub concat : List String → String
concat [] = ""
concat (s ∷ l) = String.◌++◌ s (concat l)

-- `bool(s)`
unfoldable pub nonempty : String → Bool
nonempty String.[] = false
nonempty (String.◌∷◌ c s) = true

pub nonempty-concat :
    (s : String) (l : List String) → nonempty s ≡ true → nonempty (concat (s ∷ l)) ≡ true
unfolding nonempty concat
nonempty-concat String.[] l h = cc
nonempty-concat (String.◌∷◌ c s) l h = rw (cons-append c s (concat l)) refl

-- `bool(o)` of an optional text
unfoldable pub present : Option String → Bool
unfolding nonempty
present none = false
present (some s) = nonempty s

-- `o or d` of an optional text
unfoldable pub or_text : Option String → String → String
unfolding nonempty
or_text none d = d
or_text (some s) d = if nonempty s then s else d

-- `part in whole` on texts
unfoldable pub occurs_in : String → String → Bool
occurs_in part whole = elim (find? whole part) [ none ↦ false | some i ↦ true ]

compare_of_lt : (a b : ℕ) → a < b → compare a b ≡ Ordering.lt
compare_of_lt a b h = ground arith

IsScalar_of_lt : (n : ℕ) → n < 55296 → IsScalar n
IsScalar_of_lt n h = rw (compare_of_lt n 55296 h) tt

-- `str.upper` on one character: an ASCII lower-case letter becomes its upper-case form.
abbrev upper_char : Char → Char
upper_char c =
    dite (dec_lt (code c) 123)
      (λ h.
        if leb 97 (code c)
        then char (code c - 32) (IsScalar_of_lt (code c - 32) (omega arith))
        else c)
      (λ _. c)

-- `s.upper()`
unfoldable pub upper : String → String
unfolding dec_lt compare_of_lt IsScalar_of_lt
upper String.[] = String.[]
upper (String.◌∷◌ c s) = String.◌∷◌ (upper_char c) (upper s)

abbrev between : ℕ → ℕ → ℕ → Bool
between lo hi n = leb lo n && leb n hi

-- `str.isspace` on one character
abbrev is_space : ℕ → Bool
is_space n =
    between 9 13 n
    || between 28 32 n
    || between 133 133 n
    || between 160 160 n
    || between 5760 5760 n
    || between 8192 8202 n
    || between 8232 8233 n
    || between 8239 8239 n
    || between 8287 8287 n
    || between 12288 12288 n

unfoldable pub lstrip : String → String
lstrip String.[] = String.[]
lstrip (String.◌∷◌ c s) = let rest = lstrip s in if is_space (code c) then rest else String.◌∷◌ c s

abbrev unless_blank : Char → String → String
unless_blank c String.[] = if is_space (code c) then String.[] else String.◌∷◌ c String.[]
unless_blank c (String.◌∷◌ d s) = String.◌∷◌ c (String.◌∷◌ d s)

unfoldable pub rstrip : String → String
rstrip String.[] = String.[]
rstrip (String.◌∷◌ c s) = unless_blank c (rstrip s)

-- `s.strip()`
unfoldable pub strip : String → String
unfolding lstrip rstrip
strip s = rstrip (lstrip s)

strip-usd : strip " USD\t " ≡ "USD"
unfolding strip
strip-usd = refl

upper-buy : upper "Buy" ≡ "BUY"
unfolding upper
upper-buy = refl
