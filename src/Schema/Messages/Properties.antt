-- ===== src/Schema/Messages/Properties.antt =====
-- The properties and the required names of a message's schema, against its fields.
use mathlib.Core.List.{append_assoc, append-nil}
use grpcmcp.Base.{
  is_some, ℕ, zero, suc, ◌≡◌, refl, sym, ap, ◌∙◌, Bool, true, false, ◌&&◌, ◌||◌, Option, none, some,
  List, [], ◌∷◌, ◌++◌, String, arith, ◌==◌, if◌then◌else◌,
}
use grpcmcp.Schema.Json.{flag, object, Entries, find, find-put}
use grpcmcp.Schema.Fields.{FieldRules, Field, Message}
use grpcmcp.Schema.Values.{
  Generator, Gen, made, failed, panicked, out_of_fuel, ◌>>=◌, Nested, Visibility, field_visible,
  field_hide, field_ignore, should_ignore_field, get_field_rules, value_of,
}
use grpcmcp.Schema.Messages.Kept.{
  required_keyword, find-put_other, find-set_description, put_parts-keeps,
}
use grpcmcp.Schema.Messages.{
  primary_name, Parts, no_parts, add_field_properties, is_required, generate_field, add_field,
  add_fields, add_unless_ignored, with_field, object_schema, generate_message,
}

bind-made {ℓ κ} :
    {A : Type ℓ} {B : Type κ} (x : Gen A) (f : A → Gen B) {b : B}
    → (x >>= f) ≡ made b
    → (a : A) × (x ≡ made a) × (f a ≡ made b)
bind-made (made a) f h = (a, refl, h)
bind-made (failed e) f h = cc
bind-made panicked f h = cc
bind-made out_of_fuel f h = cc

abbrev pub is_visible : Visibility → Bool
is_visible field_visible = true
is_visible field_hide = false
is_visible field_ignore = false

-- a field that is neither ignored nor hidden has this property name
abbrev pub shown : Generator → List Field → String → Bool
shown g [] name = false
shown g (f ∷ fs) name =
    is_visible (should_ignore_field f) && primary_name g f == name || shown g fs name

abbrev required_by : Generator → Field → Gen (Option FieldRules) → List String
required_by g field (made rules) =
    if is_required g field rules then primary_name g field ∷ [] else []
required_by g field _ = []

abbrev required_unless_ignored : Generator → Field → Visibility → List String
required_unless_ignored g field field_ignore = []
required_unless_ignored g field _ = required_by g field (get_field_rules field)

-- the names of the required fields that are not ignored
abbrev pub required_fields : Generator → List Field → List String
required_fields g [] = []
required_fields g (f ∷ fs) =
    required_unless_ignored g f (should_ignore_field f) ++ required_fields g fs

module _ (g : Generator) (m : Nested) where
  -- what one field adds
  abbrev Added : Field → Visibility → Parts → Parts → Type 0
  Added field v before after =
      (after.required_names ≡ before.required_names ++ required_unless_ignored g field v)
      × ((name : String)
          → is_some (find name after.properties) ≡ (
              is_some (find name before.properties)
              || is_visible v && primary_name g field == name))

  add_field-made :
      (field : Field) (hide : Bool) (before after : Parts)
      → add_field g m field hide before ≡ made after
      → (rules : Option FieldRules) × (field_schema : Entries) × (get_field_rules field
          ≡ made rules)
        × (after.required_names
            ≡ before.required_names
              ++ (if is_required g field rules then primary_name g field ∷ [] else []))
        × (after.properties ≡ (add_field_properties g field hide field_schema before.properties).0)
  unfolding add_field
  add_field-made field hide before after h =
      let (rules, got, next) = bind-made (get_field_rules field) _ h in
      let (s, field_made, last) =
        bind-made (with_field field (generate_field g m field rules)) _ next in
      (
        rules,
        s,
        got,
        sym (ap (λ r. (value_of before r).required_names) last),
        sym (ap (λ r. (value_of before r).properties) last),
      )

  add_field-Added :
      (field : Field) (hide : Bool) (before after : Parts)
      → add_field g m field hide before ≡ made after
      → Added field (if hide then field_hide else field_visible) before after
  unfolding add_field_properties
  add_field-Added field true before after h =
      let (rules, s, got, names, properties) = add_field-made field true before after h in
      (
        names ∙ ap (λ r. before.required_names ++ required_by g field r) (sym got),
        λ name. ground (arith, properties),
      )
  add_field-Added field false before after h =
      let (rules, s, got, names, properties) = add_field-made field false before after h in
      (
        names ∙ ap (λ r. before.required_names ++ required_by g field r) (sym got),
        λ name.
            ground (
              arith,
              properties,
              find-put (primary_name g field) name (object s) before.properties,
            ),
      )

  same_parts :
      (before after : Parts)
      → Gen.made before ≡ made after
      → (after.required_names ≡ before.required_names ++ [])
        × ((name : String)
            → is_some (find name after.properties)
              ≡ (is_some (find name before.properties) || false))
  same_parts before after h = (
    sym (ap (λ r. (value_of before r).required_names) h) ∙ sym (append-nil before.required_names),
    λ name. ground (arith, ap (λ r. (value_of before r).properties) h),
  )

  unless_ignored-Added :
      (field : Field) (v : Visibility) (before after : Parts)
      → add_unless_ignored g m field v before ≡ made after
      → Added field v before after
  unless_ignored-Added field field_ignore before after h = same_parts before after h
  unless_ignored-Added field field_hide before after h = add_field-Added field true before after h
  unless_ignored-Added field field_visible before after h =
      add_field-Added field false before after h

  add_fields-Added :
      (fields : List Field) (before after : Parts)
      → add_fields g m fields before ≡ made after
      → (after.required_names ≡ before.required_names ++ required_fields g fields)
        × ((name : String)
            → is_some (find name after.properties)
              ≡ (is_some (find name before.properties) || shown g fields name))
  unfolding add_fields
  add_fields-Added [] before after h = same_parts before after h
  add_fields-Added (f ∷ fs) before after h =
      let (next, added, rest) = bind-made _ (add_fields g m fs) h in
      let (names, properties) = unless_ignored-Added f (should_ignore_field f) before next added in
      let (more_names, more) = add_fields-Added fs next after rest in
      (
        more_names
            ∙ ap (λ l. l ++ required_fields g fs) names
            ∙ append_assoc before.required_names
                (required_unless_ignored g f (should_ignore_field f)) (required_fields g fs),
        λ name. ground (arith, properties name, more name),
      )

-- Every schema that is generated for a message, written into an object that requires nothing yet, has
-- as its properties the names, by the option, of the fields that are neither ignored nor hidden, and
-- no other; requires the fields, less those that are ignored, that the rules or the strict mode
-- require, in their order; and allows additional properties as the option says.
pub generate_message-properties :
    (fuel : ℕ) (g : Generator) (message : Message) (schema result : Entries)
    → generate_message fuel g message schema ≡ made result
    → find "required" schema ≡ none
    → (properties : Entries) × (find "properties" result ≡ some (object properties))
      × ((name : String) → is_some (find name properties) ≡ shown g message.fields name)
      × (find "required" result ≡ required_keyword (required_fields g message.fields))
      × (find "additionalProperties" result ≡ some (flag g.options.additional_properties))
unfolding generate_message object_schema find
generate_message-properties zero g message schema result h none_yet = ground arith
generate_message-properties (suc fuel) g message schema result h none_yet =
    let m : Nested = λ t s. generate_message fuel g (g.messages t) s in
    let (parts, added, last) = bind-made (add_fields g m message.fields no_parts) _ h in
    let (names, properties) = add_fields-Added g m message.fields no_parts parts added in
    let same = ap (λ r. value_of schema r) last in
    let (r, p, a) = put_parts-keeps g (object_schema g message schema) parts (
      find-set_description g message.leading_comments message.trailing_comments _
      ∙ find-put_other "required" "type" _ schema refl
      ∙ none_yet) in
    (
      parts.properties,
      ap (find "properties") (sym same) ∙ p,
      properties,
      ap (find "required") (sym same) ∙ r ∙ ap required_keyword names,
      ap (find "additionalProperties") (sym same) ∙ a,
    )
