-- ===== src/Template.antt =====
-- src/common/helpers/template.helper.ts: `{{ key }}` placeholders.
pub mod Laws
use api_wa_automation.Base.{
  ℕ, zero, suc, ◌-◌, Bool, true, false, ◌&&◌, ◌||◌, Option, none, some, List, [], ◌∷◌, ◌++◌, ◌==◌,
  leb, length, if◌then◌else◌,
}
use api_wa_automation.Base.Text.{Text, codes, split, trim_start, starts_with, is_empty}
use api_wa_automation.Value.{Js, Value, obj, Props, is_nullish}

-- The class `[\w.]`.
abbrev pub is_word : ℕ → Bool
is_word c =
    (leb b'a' c && leb c b'z')
    || (leb b'A' c && leb c b'Z')
    || (leb b'0' c && leb c b'9')
    || (c == b'_')
    || (c == b'.')

abbrev pub take_word : Text → Text
take_word [] = []
take_word (c ∷ s) = let rest = take_word s in if is_word c then c ∷ rest else []

abbrev pub drop_word : Text → Text
drop_word [] = []
drop_word (c ∷ s) = let rest = drop_word s in if is_word c then rest else c ∷ s

-- A key, if it is not empty and `}}` follows; the text behind that.
abbrev pub close : Text → Text → Option (Text × Text)
close [] tail = none
close (k ∷ key) [] = none
close (k ∷ key) (b1 ∷ []) = none
close (k ∷ key) (b1 ∷ b2 ∷ rest) = if b1 == b'}' && b2 == b'}' then some (k ∷ key, rest) else none

-- After `{{`.
abbrev pub key_and_rest : Text → Option (Text × Text)
key_and_rest s = close (take_word (trim_start s)) (trim_start (drop_word (trim_start s)))

-- A match of the regular expression at the start of a text.
abbrev pub placeholder : Text → Option (Text × Text)
placeholder (b1 ∷ b2 ∷ s) = if b1 == b'{' && b2 == b'{' then key_and_rest s else none
placeholder _ = none

module _ ⦃js : Js⦄ where
  -- `reduce((acc, part) => (acc == null ? acc : acc[part]), context)`
  unfoldable pub resolve : List Text → Value → Value
  resolve [] acc = acc
  resolve (part ∷ parts) acc = resolve parts (if is_nullish acc then acc else js.member acc part)

  abbrev pub text_of : Value → Text
  text_of v = if is_nullish v then [] else js.to_string v

  -- The value that a key is replaced by.
  pub value_at : Props → Text → Text
  unfolding resolve
  value_at context key = text_of (resolve (split b'.' key) (obj context))

  -- One step of the replacement at the text `c ∷ s`, of which `skip` units are taken already;
  -- `render` is the replacement in `s` from a number of units on.
  abbrev replace_at : Props → ℕ → Text → (ℕ → Text) → Option (Text × Text) → Text
  replace_at context c s render none = c ∷ render 0
  replace_at context c s render (some (key, rest)) =
      value_at context key ++ render (length s - length rest)

  unfoldable pub render_from : Props → ℕ → Text → Text
  render_from context skip [] = []
  render_from context zero (c ∷ s) =
      replace_at context c s (λ n. render_from context n s) (placeholder (c ∷ s))
  render_from context (suc skip) (c ∷ s) = render_from context skip s

  unfoldable pub render_template : Text → Props → Text
  unfolding render_from
  render_template template context = render_from context 0 template
