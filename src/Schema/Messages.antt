-- ===== src/Schema/Messages.antt =====
-- `generateMessage`, `generateField`, `addFieldProperties` and `generateMessageValidation`. The fuel
-- counts the messages that are being generated, one inside the other.
pub mod Targets
pub mod Related
pub mod Ending
pub mod Endless
pub mod Stuck
pub mod Kept
pub mod Properties
use Prim.Native.String.{String}
use grpcmcp.Base.{
  ℕ, zero, suc, Bool, true, false, not, ◌&&◌, ◌||◌, Option, List, [], ◌∷◌, ◌++◌, ◌==◌,
  if◌then◌else◌,
}
use grpcmcp.Base.Texts.{◌⧺◌, join}
use grpcmcp.Schema.Json.{flag, text, array, object, Entries, empty, entry, put, text_items}
use grpcmcp.Schema.Fields.{
  Rules, FieldRules, Field, Message, required, zero_ignored, has_implicit_default,
}
use grpcmcp.Schema.Values.{
  Generator, Gen, made, failed, panicked, out_of_fuel, ◌>>=◌, set_description, Visibility,
  field_visible, field_hide, field_ignore, should_ignore_field, get_field_rules, Nested, own_rules,
  generate_field_validation,
}

-- `useJSONNames` decides which of a field's names is the property, the other is its alias
abbrev pub primary_name : Generator → Field → String
primary_name g field = if g.options.use_json_names then field.json_name else field.name

abbrev pub alias_name : Generator → Field → String
alias_name g field = if g.options.use_json_names then field.name else field.json_name

-- what the loop of `generateMessage` keeps
pub record Parts : Type 0 where
  pub required_names : List String
  pub properties : Entries
  pub pattern_properties : Entries

abbrev pub no_parts : Parts
no_parts = record { required_names = []; properties = empty; pattern_properties = empty }

-- the properties with the field's, and its aliases
unfoldable pub add_field_properties :
    Generator → Field → Bool → Entries → Entries → Entries × List String
add_field_properties g field hide field_schema properties = (
  (if hide then properties else put (primary_name g field) (object field_schema) properties),
  (if hide then primary_name g field ∷ [] else [])
      ++ (if field.json_name == field.name then [] else alias_name g field ∷ []),
)

unfoldable pub is_required : Generator → Field → Option FieldRules → Bool
unfolding has_implicit_default
is_required g field rules =
    required (own_rules rules) && not (zero_ignored (own_rules rules))
    || g.options.strict
      && has_implicit_default field (field.is_list || field.is_map) (own_rules rules)

unfoldable pub generate_field : Generator → Nested → Field → Option FieldRules → Gen Entries
unfolding set_description generate_field_validation
generate_field g nested field rules =
    generate_field_validation g nested field false rules
      (set_description g field.leading_comments field.trailing_comments empty)

-- `fmt.Errorf("failed to generate field %q: %w", …)`
abbrev pub with_field {ℓ} : {A : Type ℓ} → Field → Gen A → Gen A
with_field field (failed e) = failed ("failed to generate field \"" ⧺ field.full_name ⧺ "\": " ⧺ e)
with_field field r = r

abbrev pub put_pattern : Bool → List String → Entries → Entries → Entries
put_pattern strict [] field_schema patterns = patterns
put_pattern strict (a ∷ aliases) field_schema patterns =
    if strict
    then patterns
    else put ("^(" ⧺ join "|" (a ∷ aliases) ⧺ ")$") (object field_schema) patterns

-- one field that is not ignored
unfoldable pub add_field : Generator → Nested → Field → Bool → Parts → Gen Parts
unfolding get_field_rules generate_field add_field_properties is_required
add_field g nested field hide parts = do
  rules ← get_field_rules field
  field_schema ← with_field field (generate_field g nested field rules)
  let (properties, aliases) = add_field_properties g field hide field_schema parts.properties
  made (record {
    required_names =
        parts.required_names
        ++ (if is_required g field rules then primary_name g field ∷ [] else []);
    properties = properties;
    pattern_properties = put_pattern g.options.strict aliases field_schema parts.pattern_properties;
  })

abbrev pub add_unless_ignored : Generator → Nested → Field → Visibility → Parts → Gen Parts
add_unless_ignored g nested field field_ignore parts = made parts
add_unless_ignored g nested field field_hide parts = add_field g nested field true parts
add_unless_ignored g nested field field_visible parts = add_field g nested field false parts

-- the loop over the fields
unfoldable pub add_fields : Generator → Nested → List Field → Parts → Gen Parts
unfolding add_field should_ignore_field
add_fields g nested [] parts = made parts
add_fields g nested (field ∷ fields) parts =
    add_unless_ignored g nested field (should_ignore_field field) parts
    >>= add_fields g nested fields

abbrev pub put_required : List String → Entries → Entries
put_required [] schema = schema
put_required (n ∷ ns) schema = put "required" (array (text_items (n ∷ ns))) schema

abbrev pub put_patterns : Entries → Entries → Entries
put_patterns empty schema = schema
put_patterns (entry k v rest) schema = put "patternProperties" (object (entry k v rest)) schema

-- what follows the loop
unfoldable pub put_parts : Generator → Entries → Parts → Entries
put_parts g schema parts = put_required parts.required_names (
    put_patterns parts.pattern_properties (
      put "additionalProperties" (flag g.options.additional_properties)
        (put "properties" (object parts.properties) schema)))

-- the schema as it is before the loop
unfoldable pub object_schema : Generator → Message → Entries → Entries
unfolding set_description
object_schema g message schema =
    set_description g message.leading_comments message.trailing_comments
      (put "type" (text "object") schema)

unfoldable pub generate_message : ℕ → Generator → Message → Entries → Gen Entries
unfolding add_fields put_parts object_schema
generate_message zero g message schema = out_of_fuel
generate_message (suc fuel) g message schema =
    add_fields g (λ name inner. generate_message fuel g (g.messages name) inner) message.fields
      no_parts
    >>= (λ parts. made (put_parts g (object_schema g message schema) parts))
