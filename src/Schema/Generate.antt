-- ===== src/Schema/Generate.antt =====
-- `Generate`, `Generator.generate`, `getID` and the schemas of the well-known types, which are those
-- of the message that is asked for, not of nested ones.
use grpcmcp.Base.{
  ℕ, ◌≡◌, refl, sym, ap, ◌⊎◌, inl, inr, Bool, true, false, ◌||◌, Option, none, some, List, [], ◌∷◌,
  String, arith, ◌==◌, if◌then◌else◌,
}
use grpcmcp.Base.Texts.{◌⧺◌}
use grpcmcp.Schema.Json.{text, object, Entries, empty, find, put, remove, find-remove}
use grpcmcp.Schema.Fields.{Field, Message, name_to_title}
use grpcmcp.Schema.Values.{
  Generator, Gen, made, failed, panicked, out_of_fuel, Nested, value_of, set_description,
  generate_field_validation,
}
use grpcmcp.Schema.Messages.{generate_message}

-- the function of `makeWktGenerators` that a full name has
pub data Custom : Type 0 where
  any_object duration field_mask timestamp any_value list_value null_value struct wrapper : Custom

unfoldable pub custom : String → Option Custom
custom name =
    if name == "google.protobuf.Any"
    then some any_object
    else if name == "google.protobuf.Duration"
    then some duration
    else if name == "google.protobuf.FieldMask"
    then some field_mask
    else if name == "google.protobuf.Timestamp"
    then some timestamp
    else if name == "google.protobuf.Value"
    then some any_value
    else if name == "google.protobuf.ListValue"
    then some list_value
    else if name == "google.protobuf.NullValue"
    then some null_value
    else if name == "google.protobuf.Struct"
    then some struct
    else if name == "google.protobuf.BoolValue"
        || name == "google.protobuf.BytesValue"
        || name == "google.protobuf.DoubleValue"
        || name == "google.protobuf.FloatValue"
        || name == "google.protobuf.Int32Value"
        || name == "google.protobuf.Int64Value"
        || name == "google.protobuf.StringValue"
        || name == "google.protobuf.UInt32Value"
        || name == "google.protobuf.UInt64Value"
    then some wrapper
    else none

-- `getID`
unfoldable pub get_id : Generator → String → Bool → String
get_id g full_name bundle_id =
    (if bundle_id then "" else if g.options.bundle then "#/$defs/" else "")
    ⧺ full_name
    ⧺ (if g.options.use_json_names then ".jsonschema" else ".schema")
    ⧺ (if g.options.strict then ".strict" else "")
    ⧺ (if bundle_id then ".bundle" else "")
    ⧺ ".json"

-- the first field of the wrapper, with no rules; a wrapper without one is a panic
unfoldable generate_wrapper_validation : Generator → Nested → List Field → Entries → Gen Entries
unfolding set_description generate_field_validation
generate_wrapper_validation g nested [] schema = panicked
generate_wrapper_validation g nested (field ∷ fields) schema =
    generate_field_validation g nested field true none
      (set_description g field.leading_comments field.trailing_comments schema)

abbrev typed : String → Entries → Gen Entries
typed type schema = made (put "type" (text type) schema)

unfoldable pub run_custom : Generator → Nested → Message → Custom → Entries → Gen Entries
unfolding generate_wrapper_validation
run_custom g nested message any_object schema = made (
    put "properties" (object (put "@type" (object (put "type" (text "string") empty)) empty))
      (put "type" (text "object") schema))
run_custom g nested message duration schema =
    made (put "format" (text "duration") (put "type" (text "string") schema))
run_custom g nested message field_mask schema = typed "string" schema
run_custom g nested message timestamp schema =
    made (put "format" (text "date-time") (put "type" (text "string") schema))
run_custom g nested message any_value schema = made schema
run_custom g nested message list_value schema = typed "array" schema
run_custom g nested message null_value schema = typed "null" schema
run_custom g nested message struct schema = typed "object" schema
run_custom g nested message wrapper schema =
    generate_wrapper_validation g nested message.fields schema

abbrev pub generate_or_custom : ℕ → Generator → Message → Option Custom → Entries → Gen Entries
generate_or_custom fuel g message (some c) schema =
    run_custom g (λ name s. generate_message fuel g (g.messages name) s) message c schema
generate_or_custom fuel g message none schema = generate_message fuel g message schema

unfoldable pub new_schema : Generator → Message → Entries
unfolding get_id
new_schema g message =
    let s1 = put "$schema" (text "https://json-schema.org/draft/2020-12/schema") empty in
    let s2 =
      if g.options.bundle then s1 else put "$id" (text (get_id g message.full_name false)) s1 in
    put "title" (text (name_to_title message.name)) s2

-- `Generator.generate` of a message that has not been generated yet
unfoldable pub generate : ℕ → Generator → Message → Gen Entries
unfolding custom run_custom new_schema generate_message
generate fuel g message =
    generate_or_custom fuel g message (custom message.full_name) (new_schema g message)

abbrev pub less_annotations : Entries → Entries
less_annotations schema = remove "title" (remove "$id" (remove "$schema" schema))

abbrev pub or_empty : Gen Entries → Gen Entries
or_empty (made schema) = made (less_annotations schema)
or_empty (failed e) = made empty
or_empty panicked = panicked
or_empty out_of_fuel = out_of_fuel

-- `Generate`
unfoldable pub generate_schema : ℕ → Generator → Message → Gen Entries
unfolding generate
generate_schema fuel g message = or_empty (generate fuel g message)

-- the keys that `Generate` deletes
abbrev pub is_annotation : String → Bool
is_annotation key = "title" == key || "$id" == key || "$schema" == key

or_empty-cases :
    (r : Gen Entries) (schema : Entries)
    → or_empty r ≡ made schema
    → ((e : String) × (r ≡ failed e) × (schema ≡ empty))
      ⊎ ((full : Entries) × (r ≡ made full)
          × ((key : String)
              → find key schema ≡ (if is_annotation key then none else find key full)))
or_empty-cases (failed e) schema h = inl (e, refl, sym (ap (value_of empty) h))
or_empty-cases panicked schema h = ground arith
or_empty-cases out_of_fuel schema h = ground arith
or_empty-cases (made full) schema h =
    let same = ap (value_of empty) h in
    inr (
      full,
      refl,
      λ key. ground (
        arith,
        same,
        find-remove "title" key (remove "$id" (remove "$schema" full)),
        find-remove "$id" key (remove "$schema" full),
        find-remove "$schema" key full,
      ),
    )

-- What `Generate` returns is the empty schema, which admits every value, for a message whose
-- generation fails, and otherwise the generated schema less its title, its id and its dialect.
pub generate_schema-cases :
    (fuel : ℕ) (g : Generator) (message : Message) (schema : Entries)
    → generate_schema fuel g message ≡ made schema
    → ((e : String) × (generate fuel g message ≡ failed e) × (schema ≡ empty))
      ⊎ ((full : Entries) × (generate fuel g message ≡ made full)
          × ((key : String)
              → find key schema ≡ (if is_annotation key then none else find key full)))
unfolding generate_schema
generate_schema-cases fuel g message schema h = or_empty-cases (generate fuel g message) schema h
