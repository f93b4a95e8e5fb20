-- ===== src/Base/Text.antt =====
-- Texts: a JavaScript string is the list of its UTF-16 code units.
use Prim.Native.Char.{code}
use Prim.Native.Nat.{ℕ, ◌+◌}
use Prim.Native.String.{String}
use mathlib.Core.Path.{◌≡◌, refl}
use mathlib.Core.Bool.{Bool, true, false, ◌&&◌, ◌||◌}
use mathlib.Core.Option.{Option, none, some}
use mathlib.Core.List.{List, [], ◌∷◌, ◌++◌}
use native.Mathlib.Omega.{arith}
use api_wa_automation.Base.Tests.{◌==◌, leb, if◌then◌else◌}
use api_wa_automation.Base.Lists.{All, select}

abbrev pub Text : Type 0
Text = List ℕ

-- The code units of a literal.
abbrev pub codes : String → Text
codes String.[] = []
codes (String.◌∷◌ c s) = code c ∷ codes s

-- `===` on strings
abbrev pub text_eq : Text → Text → Bool
text_eq [] [] = true
text_eq [] (_ ∷ _) = false
text_eq (_ ∷ _) [] = false
text_eq (x ∷ xs) (y ∷ ys) = (x == y) && text_eq xs ys

pub text_eq_refl : (s : Text) → text_eq s s ≡ true
text_eq_refl [] = refl
text_eq_refl (x ∷ s) = ground (arith, text_eq_refl s)

pub text_eq-eq : (s t : Text) → text_eq s t ≡ true → s ≡ t
text_eq-eq [] [] h = refl
text_eq-eq [] (y ∷ t) h = cc
text_eq-eq (x ∷ s) [] h = cc
text_eq-eq (x ∷ s) (y ∷ t) h = ground (arith, text_eq-eq s t)

-- The number of characters that the database counts: a low surrogate belongs to the unit before it.
abbrev pub char_length : Text → ℕ
char_length [] = 0
char_length (c ∷ s) =
    let rest = char_length s in if leb 56320 c && leb c 57343 then rest else rest + 1

-- Emptiness is what a string's truthiness tests.
abbrev pub is_empty {ℓ} : {A : Type ℓ} → List A → Bool
is_empty [] = true
is_empty (_ ∷ _) = false

-- `s || d`
abbrev pub or_else : Text → Text → Text
or_else [] d = d
or_else (c ∷ s) d = c ∷ s

-- `s || null`
abbrev pub or_null : Text → Option Text
or_null [] = none
or_null (c ∷ s) = some (c ∷ s)

-- `opt || null`, of an optional string
abbrev pub truthy : Option Text → Option Text
truthy none = none
truthy (some s) = or_null s

-- `String.prototype.startsWith`
abbrev pub starts_with : Text → Text → Bool
starts_with s [] = true
starts_with [] (_ ∷ _) = false
starts_with (x ∷ s) (y ∷ t) = (x == y) && starts_with s t

-- `String.prototype.includes`
abbrev pub includes : Text → Text → Bool
includes [] t = starts_with [] t
includes (x ∷ s) t = starts_with (x ∷ s) t || includes s t

-- `String.prototype.endsWith`
abbrev pub ends_with : Text → Text → Bool
ends_with [] t = text_eq [] t
ends_with (x ∷ s) t = text_eq (x ∷ s) t || ends_with s t

-- The class `\d`.
abbrev pub is_digit : ℕ → Bool
is_digit c = leb b'0' c && leb c b'9'

-- `replace(/[^\d]/g, '')` and `replace(/\D/g, '')`
abbrev pub digits : Text → Text
digits = select is_digit

-- `String.prototype.split` at one code unit: `cons_first` puts a unit at the front of the first
-- part.
abbrev pub cons_first : ℕ → List Text → List Text
cons_first c [] = (c ∷ []) ∷ []
cons_first c (part ∷ parts) = (c ∷ part) ∷ parts

abbrev pub split : ℕ → Text → List Text
split sep [] = [] ∷ []
split sep (c ∷ s) = let rest = split sep s in if c == sep then [] ∷ rest else cons_first c rest

-- No code unit of the text is the separator.
abbrev pub IsFree : ℕ → Text → Type 0
IsFree sep s = All (λ c. (c == sep) ≡ false) s

pub split-IsFree : (sep : ℕ) (s : Text) → IsFree sep s → split sep s ≡ s ∷ []
split-IsFree sep [] h = refl
split-IsFree sep (c ∷ s) (e, h) = rw (e, split-IsFree sep s h)

pub split-append :
    (sep : ℕ) (s t : Text) → IsFree sep s → split sep (s ++ sep ∷ t) ≡ s ∷ split sep t
split-append sep [] t h = ground arith
split-append sep (c ∷ s) t (e, h) = rw (e, split-append sep s t h)

-- White space and line terminators, which `trim` takes off and `\s` matches.
abbrev pub is_space : ℕ → Bool
is_space c =
    (leb 9 c && leb c 13)
    || (c == 32)
    || (c == 160)
    || (c == 5760)
    || (leb 8192 c && leb c 8202)
    || (c == 8232)
    || (c == 8233)
    || (c == 8239)
    || (c == 8287)
    || (c == 12288)
    || (c == 65279)

abbrev pub trim_start : Text → Text
trim_start [] = []
trim_start (c ∷ s) = let rest = trim_start s in if is_space c then rest else c ∷ s

abbrev pub trim_end : Text → Text
trim_end [] = []
trim_end (c ∷ s) = let rest = trim_end s in if is_empty rest && is_space c then [] else c ∷ rest

-- `String.prototype.trim`
abbrev pub trim : Text → Text
trim s = trim_end (trim_start s)
