-- ===== src/Schema/Values.antt =====
-- `generateFieldValidation` and the functions about descriptions and rules. A message is the value of
-- its full name under `Generator.messages`; a nested message is generated by an argument.
use Prim.Native.String.{String}
use grpcmcp.Base.{Bool, true, false, ◌||◌, Option, none, some, List, [], ◌∷◌, ◌==◌, if◌then◌else◌}
use grpcmcp.Base.Results.{Result, ok, err}
use grpcmcp.Base.Texts.{◌⧺◌, cut, contains_text}
use grpcmcp.Schema.Json.{Json, whole, text, object, Entries, empty, find, put, put_some}
use grpcmcp.Schema.Fields.{
  Options, Ignore, unspecified, if_zero_value, always, Rules, RepeatedRules, MapRules, FieldRules,
  Kind, bool_kind, string_kind, bytes_kind, float_kind, double_kind, int32_kind, sint32_kind,
  sfixed32_kind, int64_kind, sint64_kind, sfixed64_kind, uint32_kind, fixed32_kind, uint64_kind,
  fixed64_kind, enum_kind, message_kind, group_kind, Field, Message,
}
use grpcmcp.Schema.Scalars.{
  generate_bool_validation, generate_int32_validation, generate_int64_validation,
  generate_uint32_validation, generate_uint64_validation,
}
use grpcmcp.Schema.Enums.{generate_enum_validation}
use grpcmcp.Schema.Reals.{generate_float_validation}
use grpcmcp.Schema.Texts.{generate_string_validation, generate_bytes_validation}

pub record Generator : Type 0 where
  pub options : Options
  -- strings.TrimSpace
  pub trim_space : String → String
  -- `field.Message()`, by full name
  pub messages : String → Message

-- a schema, the error that is returned, a nil dereference, or no result within the fuel
pub data Gen {ℓ} (A : Type ℓ) : Type ℓ where
  made : A → Gen A
  failed : String → Gen A
  panicked : Gen A
  out_of_fuel : Gen A

infixl 5 ◌>>=◌
abbrev pub ◌>>=◌ {ℓ κ} : {A : Type ℓ} {B : Type κ} → Gen A → (A → Gen B) → Gen B
made a >>= f = f a
failed e >>= f = failed e
panicked >>= f = panicked
out_of_fuel >>= f = out_of_fuel

-- the result, if there is one
abbrev pub value_of {ℓ} : {A : Type ℓ} → A → Gen A → A
value_of old (made a) = a
value_of old _ = old

abbrev pub text_of : Option Json → String
text_of (some (text s)) = s
text_of _ = ""

-- the sections that a comment is split into, if it is
abbrev pub sections : Generator → Option (String × String) → Entries → Entries → Entries
sections g none schema otherwise = otherwise
sections g (some (a, b)) schema otherwise =
    put "description" (text (g.trim_space b)) (put "title" (text (g.trim_space a)) schema)

abbrev pub leading : Generator → String → Entries → Entries
leading g comments schema =
    sections g (cut comments "\n\n") schema
      (sections g (cut comments "\r\n\r\n") schema (put "description" (text comments) schema))

abbrev pub trailing : Generator → String → Entries → Entries
trailing g comments schema =
    let description = text_of (find "description" schema) in
    if description == ""
    then put "description" (text comments) schema
    else put "description" (text (description ⧺ " | " ⧺ comments)) schema

-- with the leading and the trailing comments of the descriptor
unfoldable pub set_description : Generator → String → String → Entries → Entries
set_description g before after schema =
    let s1 = if before == "" then schema else leading g (g.trim_space before) schema in
    if after == "" then s1 else trailing g (g.trim_space after) s1

pub data Visibility : Type 0 where
  field_visible field_hide field_ignore : Visibility

unfoldable pub should_ignore_field : Field → Visibility
should_ignore_field field =
    if contains_text field.leading_comments "jsonschema:ignore"
      || contains_text field.trailing_comments "jsonschema:ignore"
    then field_ignore
    else if contains_text field.leading_comments "jsonschema:hide"
        || contains_text field.trailing_comments "jsonschema:hide"
    then field_hide
    else field_visible

abbrev pub unless_always : FieldRules → Ignore → Option FieldRules
unless_always r always = none
unless_always r unspecified = some r
unless_always r if_zero_value = some r

abbrev pub rules_of : Result String (Option FieldRules) → Gen (Option FieldRules)
rules_of (err e) = failed e
rules_of (ok none) = made none
rules_of (ok (some r)) = made (unless_always r r.rules.ignore)

unfoldable pub get_field_rules : Field → Gen (Option FieldRules)
get_field_rules field = rules_of field.resolved

-- the getters of rules that may be nil
abbrev pub own_rules : Option FieldRules → Option Rules
own_rules none = none
own_rules (some r) = some r.rules

abbrev pub repeated : Option FieldRules → Option RepeatedRules
repeated none = none
repeated (some r) = r.repeated

abbrev pub item_rules : Option RepeatedRules → Option Rules
item_rules none = none
item_rules (some r) = r.items

abbrev pub of_map : Option FieldRules → Option MapRules
of_map none = none
of_map (some r) = r.of_map

abbrev pub rules_of_keys : Option MapRules → Option Rules
rules_of_keys none = none
rules_of_keys (some r) = r.key_rules

abbrev pub rules_of_values : Option MapRules → Option Rules
rules_of_values none = none
rules_of_values (some r) = r.value_rules

abbrev pub put_item_counts : Option RepeatedRules → Entries → Entries
put_item_counts none schema = schema
put_item_counts (some r) schema =
    put_some "maxItems" whole r.max_items (put_some "minItems" whole r.min_items schema)

-- generates a nested message, by its name, into the schema
abbrev pub Nested : Type 0
Nested = String → Entries → Gen Entries

-- the `switch` of `generateFieldValidation`, less its branch for maps
unfoldable pub value_validation :
    Options → Nested → Kind → Field → Bool → Option Rules → Entries → Gen Entries
value_validation p nested bool_kind f i r s = made (generate_bool_validation p f i r s)
value_validation p nested (enum_kind t) f i r s = made (generate_enum_validation p f t i r s)
value_validation p nested int32_kind f i r s = made (generate_int32_validation p f i r s)
value_validation p nested sint32_kind f i r s = made (generate_int32_validation p f i r s)
value_validation p nested sfixed32_kind f i r s = made (generate_int32_validation p f i r s)
value_validation p nested int64_kind f i r s = made (generate_int64_validation p f i r s)
value_validation p nested sint64_kind f i r s = made (generate_int64_validation p f i r s)
value_validation p nested sfixed64_kind f i r s = made (generate_int64_validation p f i r s)
value_validation p nested uint32_kind f i r s = made (generate_uint32_validation p f i r s)
value_validation p nested fixed32_kind f i r s = made (generate_uint32_validation p f i r s)
value_validation p nested uint64_kind f i r s = made (generate_uint64_validation p f i r s)
value_validation p nested fixed64_kind f i r s = made (generate_uint64_validation p f i r s)
value_validation p nested float_kind f i r s = made (generate_float_validation p f i r s true)
value_validation p nested double_kind f i r s = made (generate_float_validation p f i r s false)
value_validation p nested string_kind f i r s = made (generate_string_validation p f i r s)
value_validation p nested bytes_kind f i r s = made (generate_bytes_validation p f i r s)
value_validation p nested (message_kind n) f i r s = nested n s
value_validation p nested (group_kind n) f i r s = nested n s

-- The entry message of a map has the fields of its key and its value, which are no lists or maps.
unfoldable pub map_validation : Options → Nested → List Field → Field → Entries → Gen Entries
unfolding value_validation get_field_rules
map_validation p nested (k ∷ v ∷ fields) field schema = do
  rules ← get_field_rules field
  names ← value_validation p nested k.kind k true (rules_of_keys (of_map rules)) empty
  values ← value_validation p nested v.kind v true (rules_of_values (of_map rules)) empty
  made (
      put "additionalProperties" (object values)
        (put "propertyNames" (object names) (put "type" (text "object") schema)))
map_validation p nested _ field schema = panicked

abbrev pub entry_fields : Generator → Kind → List Field
entry_fields g (message_kind n) = (g.messages n).fields
entry_fields g _ = []

-- the whole `switch`
unfoldable pub switch_validation :
    Generator → Nested → Field → Bool → Option Rules → Entries → Gen Entries
unfolding map_validation
switch_validation g nested field i rules schema =
    if field.is_map
    then map_validation g.options nested (entry_fields g field.kind) field schema
    else value_validation g.options nested field.kind field i rules schema

unfoldable pub generate_field_validation :
    Generator → Nested → Field → Bool → Option FieldRules → Entries → Gen Entries
unfolding switch_validation
generate_field_validation g nested field i rules schema =
    if field.is_list
    then (do
      items ← switch_validation g nested field true (item_rules (repeated rules)) empty
      made (
          put "items" (object items)
            (put_item_counts (repeated rules) (put "type" (text "array") schema))))
    else switch_validation g nested field i (own_rules rules) schema
