-- ===== src/Schema/Scalars.antt =====
-- The schemas of fields of the kinds bool, int32, int64, uint32 and uint64 (with their sint, sfixed
-- and fixed forms).
use Prim.Native.String.{String}
use grpcmcp.Base.{Bool, true, not, ◌&&◌, Option, none, some, [], ◌∷◌, if◌then◌else◌}
use grpcmcp.Base.Int.{ℤ, pos, negsuc}
use grpcmcp.Schema.Json.{Json, flag, text, array, nil, cons, Entries, put, put_schema}
use grpcmcp.Schema.Keywords.{Keywords, Schema, empty_schema}
use grpcmcp.Schema.Signed.{
  NumberRule, js_max_int, js_min_int, number_base, signed_pattern, string_form, int_validation,
}
use grpcmcp.Schema.Unsigned.{unsigned_pattern, uint_validation}
use grpcmcp.Schema.Fields.{
  Options, Rules, TypeRules, bool_rules, int32_rules, sint32_rules, sfixed32_rules, int64_rules,
  sint64_rules, sfixed64_rules, uint32_rules, fixed32_rules, uint64_rules, fixed64_rules, Field,
  required, type_rules, generate_default, generate_64_bit_string_default,
}

abbrev bool_const : TypeRules → Option Bool
bool_const (bool_rules c) = c
bool_const _ = none

abbrev flags : Bool → Json
flags b = array (cons (flag b) nil)

abbrev put_bool_const : Option Bool → Entries → Entries
put_bool_const none schema = schema
put_bool_const (some c) schema = put "enum" (flags c) schema

pub generate_bool_validation : Options → Field → Bool → Option Rules → Entries → Entries
unfolding generate_default
generate_bool_validation p field implicit_presence rules schema =
    let typed = put "type" (text "boolean") schema in
    if not field.has_presence && required rules
    then put "enum" (flags true) typed
    else put_bool_const (bool_const (type_rules rules))
        (generate_default p field implicit_presence rules typed)

-- the getters of the rules of each width, `none` where the field has rules of another kind
abbrev int32_rule : TypeRules → Option NumberRule
int32_rule (int32_rules r) = some r
int32_rule (sint32_rules r) = some r
int32_rule (sfixed32_rules r) = some r
int32_rule _ = none

abbrev int64_rule : TypeRules → Option NumberRule
int64_rule (int64_rules r) = some r
int64_rule (sint64_rules r) = some r
int64_rule (sfixed64_rules r) = some r
int64_rule _ = none

abbrev uint32_rule : TypeRules → Option NumberRule
uint32_rule (uint32_rules r) = some r
uint32_rule (fixed32_rules r) = some r
uint32_rule _ = none

abbrev uint64_rule : TypeRules → Option NumberRule
uint64_rule (uint64_rules r) = some r
uint64_rule (fixed64_rules r) = some r
uint64_rule _ = none

abbrev range : ℤ → ℤ → Keywords
range low high = record number_base { minimum = some low; maximum = some high }

abbrev plain_any_of : Keywords → String → Schema
plain_any_of numbers p = record empty_schema { any_of = numbers ∷ string_form p ∷ [] }

abbrev own_only : Keywords → Schema
own_only k = record empty_schema { own = k }

-- the `switch` of each function, where strict mode and the rules decide
abbrev int32_schema : Bool → Option NumberRule → Schema
int32_schema strict none =
    let numbers = range (negsuc 2147483647) (pos 2147483647) in
    if strict then own_only numbers else plain_any_of numbers signed_pattern
int32_schema strict (some r) = int_validation strict r 32 empty_schema

abbrev int64_schema : Bool → Option NumberRule → Schema
int64_schema strict none =
    if strict
    then own_only number_base
    else plain_any_of (range js_min_int js_max_int) signed_pattern
int64_schema strict (some r) = int_validation strict r 64 empty_schema

abbrev uint32_schema : Bool → Option NumberRule → Schema
uint32_schema strict none =
    let numbers = range (pos 0) (pos 4294967295) in
    if strict then own_only numbers else plain_any_of numbers unsigned_pattern
uint32_schema strict (some r) = uint_validation strict r 32 empty_schema

abbrev uint64_schema : Bool → Option NumberRule → Schema
uint64_schema strict none =
    if strict
    then own_only (record number_base { minimum = some (pos 0) })
    else plain_any_of (range (pos 0) js_max_int) unsigned_pattern
uint64_schema strict (some r) = uint_validation strict r 64 empty_schema

pub generate_int32_validation : Options → Field → Bool → Option Rules → Entries → Entries
unfolding generate_default
generate_int32_validation p field implicit_presence rules schema =
    generate_default p field implicit_presence rules
      (put_schema (int32_schema p.strict (int32_rule (type_rules rules))) schema)

pub generate_uint32_validation : Options → Field → Bool → Option Rules → Entries → Entries
unfolding generate_default
generate_uint32_validation p field implicit_presence rules schema =
    generate_default p field implicit_presence rules
      (put_schema (uint32_schema p.strict (uint32_rule (type_rules rules))) schema)

abbrev string_only : Options → String → Field → Bool → Option Rules → Entries → Entries
string_only p pattern field implicit_presence rules schema =
    generate_64_bit_string_default p field implicit_presence rules
      (put "pattern" (text pattern) (put "type" (text "string") schema))

pub generate_int64_validation : Options → Field → Bool → Option Rules → Entries → Entries
unfolding generate_default
generate_int64_validation p field implicit_presence rules schema =
    if p.string_only_64_bit_integers
    then string_only p signed_pattern field implicit_presence rules schema
    else generate_default p field implicit_presence rules
        (put_schema (int64_schema p.strict (int64_rule (type_rules rules))) schema)

pub generate_uint64_validation : Options → Field → Bool → Option Rules → Entries → Entries
unfolding generate_default
generate_uint64_validation p field implicit_presence rules schema =
    if p.string_only_64_bit_integers
    then string_only p unsigned_pattern field implicit_presence rules schema
    else generate_default p field implicit_presence rules
        (put_schema (uint64_schema p.strict (uint64_rule (type_rules rules))) schema)
