-- ===== src/Template/Laws.antt =====
-- What rendering a template makes of plain text and of a placeholder.
use api_wa_automation.Base.{
  ℕ, suc, ◌-◌, true, false, ◌≡◌, refl, ap, subst, append_assoc, ◌∙◌, none, some, [], ◌∷◌, ◌++◌,
  ◌==◌, length, length-append, All, arith,
}
use api_wa_automation.Base.Text.{Text, codes, IsFree, split-IsFree, is_empty, is_space, trim_start}
use api_wa_automation.Value.{Js, Props, own, str, obj}
use api_wa_automation.Template.{
  is_word, take_word, drop_word, close, placeholder, value_at, resolve, render_from,
  render_template,
}

word-not_space : (c : ℕ) → is_word c ≡ true → is_space c ≡ false
word-not_space c h = ground arith

take_word-append :
    (key rest : Text) → All (λ c. is_word c ≡ true) key → take_word (key ++ b'}' ∷ rest) ≡ key
take_word-append [] rest h = refl
take_word-append (c ∷ key) rest (e, h) = rw (e, take_word-append key rest h)

drop_word-append :
    (key rest : Text)
    → All (λ c. is_word c ≡ true) key
    → drop_word (key ++ b'}' ∷ rest) ≡ b'}' ∷ rest
drop_word-append [] rest h = refl
drop_word-append (c ∷ key) rest (e, h) = rw (e, drop_word-append key rest h)

trim_start-word :
    (key rest : Text)
    → All (λ c. is_word c ≡ true) key
    → trim_start (key ++ b'}' ∷ rest) ≡ key ++ b'}' ∷ rest
trim_start-word [] rest h = refl
trim_start-word (c ∷ key) rest (e, h) = rw (word-not_space c e)

close_lem :
    (key rest : Text) → is_empty key ≡ false → close key (b'}' ∷ b'}' ∷ rest) ≡ some (key, rest)
close_lem [] rest e = cc
close_lem (k ∷ key) rest e = refl

placeholder_lem :
    (key rest : Text)
    → is_empty key ≡ false
    → All (λ c. is_word c ≡ true) key
    → placeholder (b'{' ∷ b'{' ∷ (key ++ b'}' ∷ b'}' ∷ rest)) ≡ some (key, rest)
placeholder_lem key rest e h =
    simp
      (
        trim_start-word key (b'}' ∷ rest) h,
        take_word-append key (b'}' ∷ rest) h,
        drop_word-append key (b'}' ∷ rest) h,
      )
      (close_lem key rest e)

placeholder-none : (c : ℕ) (s : Text) → (c == b'{') ≡ false → placeholder (c ∷ s) ≡ none
placeholder-none c [] e = refl
placeholder-none c (d ∷ s) e = rw e

-- The units that a placeholder takes after its first.
taken-length :
    (key rest : Text)
    → suc (length (key ++ b'}' ∷ b'}' ∷ rest)) - length rest
      ≡ length (b'{' ∷ (key ++ b'}' ∷ b'}' ∷ []))
taken-length key rest =
    omega (arith, length-append key (b'}' ∷ b'}' ∷ rest), length-append key (b'}' ∷ b'}' ∷ []))

module _ ⦃js : Js⦄ (context : Props) where
  render_from-skip :
      (taken rest : Text)
      → render_from context (length taken) (taken ++ rest) ≡ render_from context 0 rest
  unfolding render_from
  render_from-skip [] rest = refl
  render_from-skip (c ∷ taken) rest = render_from-skip taken rest

  skip_placeholder :
      (key rest : Text)
      → render_from context
          (suc (length (key ++ b'}' ∷ b'}' ∷ rest)) - length rest)
          (b'{' ∷ (key ++ b'}' ∷ b'}' ∷ rest))
        ≡ render_from context 0 rest
  skip_placeholder key rest = rw (taken-length key rest) (
      subst
        (λ (t : Text).
          render_from context (length (b'{' ∷ (key ++ b'}' ∷ b'}' ∷ []))) t
          ≡ render_from context 0 rest)
        (ap (λ (t : Text). b'{' ∷ t) (append_assoc key (b'}' ∷ b'}' ∷ []) rest))
        (render_from-skip (b'{' ∷ (key ++ b'}' ∷ b'}' ∷ [])) rest))

  -- A text with no opening brace in front stays as it is.
  pub render_template-plain :
      (text rest : Text)
      → All (λ c. (c == b'{') ≡ false) text
      → render_template (text ++ rest) context ≡ text ++ render_template rest context
  unfolding render_template
  render_template-plain [] rest h = refl
  render_template-plain (c ∷ text) rest (e, h) =
      rw (placeholder-none c (text ++ rest) e)
        (ap (λ (t : Text). c ∷ t) (render_template-plain text rest h))

  -- The text that the context holds under a key without dots.
  value_at-own :
      (key text : Text) → IsFree b'.' key → own key context ≡ str text → value_at context key ≡ text
  unfolding value_at resolve
  value_at-own key text free given =
      let found : js.member (obj context) key ≡ str text =
        js.member-obj key context (str text) given refl in
      let shown = js.to_string-str text in rw (split-IsFree b'.' key free, found) shown

  -- A placeholder whose key is not empty and consists of word characters, without dots, is replaced by
  -- the text that the context holds under the key, and the text behind it is rendered on.
  pub render_template-placeholder :
      (key text rest : Text)
      → is_empty key ≡ false
      → All (λ c. is_word c ≡ true) key
      → IsFree b'.' key
      → own key context ≡ str text
      → render_template (codes "{{" ++ (key ++ (codes "}}" ++ rest))) context
        ≡ text ++ render_template rest context
  unfolding render_template
  render_template-placeholder key text rest e h free given = rw (placeholder_lem key rest e h) (
      ap (λ (t : Text). value_at context key ++ t) (skip_placeholder key rest)
      ∙ ap (λ (t : Text). t ++ render_from context 0 rest) (value_at-own key text free given))
