-- ===== src/Automations/Branching.antt =====
-- What `resolve` of condition.engine.ts finds.
use api_wa_automation.Base.{false, ◌≡◌, refl, ◌∷◌, ◌++◌}
use api_wa_automation.Base.Text.{Text, IsFree, split-IsFree, split-append}
use api_wa_automation.Value.{Js, Value, obj, Props, own, is_nullish}
use api_wa_automation.Automations.Condition.{resolve, resolve_parts}

module _ ⦃js : Js⦄ where
  -- A field of two parts without dots of their own is the property of a property: where the first
  -- part names an object of the variables, the field is what the second names in it, unless that
  -- is null or undefined.
  pub resolve-nested :
      (outer inner : Text) (context fields : Props) (v : Value)
      → IsFree b'.' outer
      → IsFree b'.' inner
      → own outer context ≡ obj fields
      → own inner fields ≡ v
      → is_nullish v ≡ false
      → resolve (outer ++ b'.' ∷ inner) context ≡ v
  unfolding resolve resolve_parts
  resolve-nested outer inner context fields v ho hi outer_is inner_is given =
      rw (split-append b'.' outer inner ho) (
        rw (split-IsFree b'.' inner hi) (
          rw (js.member-obj outer context (obj fields) outer_is refl)
            (js.member-obj inner fields v inner_is given)))
