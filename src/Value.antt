-- ===== src/Value.antt =====
-- JSON and JavaScript values (`any` and `Record<string, any>` in the sources), and the parts of
-- the JavaScript runtime that the code calls and that are not defined here.
use api_wa_automation.Base.{Bool, true, false, if◌then◌else◌, ◌≡◌, Option}
use api_wa_automation.Base.Int.{ℤ, pos}
use api_wa_automation.Base.Text.{Text, text_eq}

mutual
  -- Numbers are the integers; orders, counts and delays are such.
  pub data Value : Type 0 where
    undefined null : Value
    bool : Bool → Value
    num : ℤ → Value
    str : Text → Value
    arr : Items → Value
    obj : Props → Value

  pub data Items : Type 0 where
    nil : Items
    cons : Value → Items → Items

  -- An object, by its own properties in the order of their insertion.
  pub data Props : Type 0 where
    end : Props
    prop : Text → Value → Props → Props

-- `o[k]`, of an own property
abbrev pub own : Text → Props → Value
own k end = undefined
own k (prop j v ps) = if text_eq k j then v else own k ps

-- `o[k] = v`, and the last property of `{ ...o, k: v }`
abbrev pub with_prop : Text → Value → Props → Props
with_prop k v end = prop k v end
with_prop k v (prop j w ps) = if text_eq k j then prop j v ps else prop j w (with_prop k v ps)

-- `v == null`
abbrev pub is_nullish : Value → Bool
is_nullish undefined = true
is_nullish null = true
is_nullish _ = false

-- `!!v`
abbrev pub is_truthy : Value → Bool
is_truthy undefined = false
is_truthy null = false
is_truthy (bool b) = b
is_truthy (num (pos Prim.Native.Nat.zero)) = false
is_truthy (str mathlib.Core.List.[]) = false
is_truthy _ = true

-- `v || null`
abbrev pub value_or_null : Value → Value
value_or_null v = if is_truthy v then v else null

-- What the JavaScript engine supplies: `String(v)`, `v[k]`, `toLowerCase`, regular expressions
-- (`none` where the constructor throws) and `Number(a) > Number(b)`, with the laws of the
-- language standard that the theorems use.
pub record Js : Type 0 where
  pub to_string : Value → Text
  pub member : Value → Text → Value
  pub to_lower_case : Text → Text
  pub regex_test : Text → Text → Option Bool
  pub number_gt : Value → Value → Bool
  pub to_string-str : (s : Text) → to_string (str s) ≡ s
  pub member-obj :
      (k : Text) (ps : Props) (v : Value)
      → own k ps ≡ v
      → is_nullish v ≡ false
      → member (obj ps) k ≡ v
