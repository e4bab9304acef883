-- ===== src/Schema/Fields.antt =====
-- What the generator reads of a field and of its rules, the options of the generator, and the
-- functions about defaults and titles.
use Prim.Native.Char.{code}
use Prim.Native.String
use Prim.Native.String.{String}
use grpcmcp.Base.{
  Char, Bool, true, false, not, ◌&&◌, ◌||◌, Option, none, some, List, leb, if◌then◌else◌,
}
use grpcmcp.Base.Int.{ℤ}
use grpcmcp.Base.Results.{Result}
use grpcmcp.Schema.Floats.{Float}
use grpcmcp.Schema.Json.{Json, text, Entries, put}
use grpcmcp.Schema.Signed.{NumberRule}
use grpcmcp.Schema.Bytes.{BytesRules, StringRules}

-- `Generator`, less its tables of messages and custom functions
pub record Options : Type 0 where
  pub use_json_names : Bool
  pub additional_properties : Bool
  pub string_only_64_bit_integers : Bool
  pub strict : Bool
  pub bundle : Bool

-- validate.Ignore
pub data Ignore : Type 0 where
  unspecified if_zero_value always : Ignore

pub record EnumRules : Type 0 where
  pub const : Option ℤ
  pub within : List ℤ
  pub not_in : List ℤ
  pub defined_only : Bool

-- the bounds of FloatRules and DoubleRules
pub data FloatGreater : Type 0 where
  no_lower : FloatGreater
  gt_float gte_float : Float → FloatGreater

pub data FloatLess : Type 0 where
  no_upper : FloatLess
  lt_bound lte_bound : Float → FloatLess

pub record FloatRules : Type 0 where
  pub is_finite : Bool
  pub const : Option Float
  pub within : List Float
  pub greater : FloatGreater
  pub less : FloatLess

-- `StringRules.well_known`, each with its value
pub data WellKnown : Type 0 where
  not_well_known : WellKnown
  hostname email ip ipv4 ipv6 uri uri_ref address uuid tuuid : Bool → WellKnown
  ipv4_with_prefixlen ipv6_with_prefixlen ip_with_prefixlen : Bool → WellKnown
  ipv4_prefix ipv6_prefix ip_prefix host_and_port : Bool → WellKnown
  -- the regex is that of a header name
  well_known_regex : Bool → WellKnown

pub record TextRules : Type 0 where
  pub lengths : StringRules
  pub pattern : Option String
  pub starts : Option String
  pub ends : Option String
  pub contains : Option String
  pub const : Option String
  pub within : List String
  pub well_known : WellKnown
  pub strict : Bool

-- the oneof `FieldRules.type`, less its two kinds for containers
pub data TypeRules : Type 0 where
  no_type_rules : TypeRules
  bool_rules : Option Bool → TypeRules
  enum_rules : EnumRules → TypeRules
  int32_rules sint32_rules sfixed32_rules : NumberRule → TypeRules
  int64_rules sint64_rules sfixed64_rules : NumberRule → TypeRules
  uint32_rules fixed32_rules uint64_rules fixed64_rules : NumberRule → TypeRules
  float_rules double_rules : FloatRules → TypeRules
  string_rules : TextRules → TypeRules
  bytes_rules : BytesRules → TypeRules

-- The rules of a value that is not a list or a map; `Option Rules` is a pointer that may be nil.
pub record Rules : Type 0 where
  pub required : Bool
  pub ignore : Ignore
  pub type_rules : TypeRules

pub record RepeatedRules : Type 0 where
  pub min_items : Option ℤ
  pub max_items : Option ℤ
  pub items : Option Rules

pub record MapRules : Type 0 where
  pub key_rules : Option Rules
  pub value_rules : Option Rules

pub record FieldRules : Type 0 where
  pub rules : Rules
  pub repeated : Option RepeatedRules
  pub of_map : Option MapRules

pub record EnumValue : Type 0 where
  pub number : ℤ
  pub name : String

pub record EnumType : Type 0 where
  pub name : String
  pub values : List EnumValue

-- protoreflect.Kind; a message, also the entry of a map, goes by its full name
pub data Kind : Type 0 where
  bool_kind string_kind bytes_kind float_kind double_kind : Kind
  int32_kind sint32_kind sfixed32_kind int64_kind sint64_kind sfixed64_kind : Kind
  uint32_kind fixed32_kind uint64_kind fixed64_kind : Kind
  enum_kind : EnumType → Kind
  message_kind group_kind : String → Kind

-- protoreflect.FieldDescriptor. `default_decimal` is the default as strconv formats it, and
-- `resolved` is what protovalidate.ResolveFieldRules answers.
pub record Field : Type 0 where
  pub name : String
  pub json_name : String
  pub full_name : String
  pub kind : Kind
  pub is_list : Bool
  pub is_map : Bool
  pub has_presence : Bool
  pub default : Json
  pub default_decimal : String
  pub leading_comments : String
  pub trailing_comments : String
  pub resolved : Result String (Option FieldRules)

pub record Message : Type 0 where
  pub full_name : String
  pub name : String
  pub fields : List Field
  pub leading_comments : String
  pub trailing_comments : String

-- `rules.GetRequired()` and `rules.GetIgnore() != IGNORE_IF_ZERO_VALUE`, where rules may be nil
abbrev pub required : Option Rules → Bool
required none = false
required (some r) = r.required

abbrev pub if_not_zero : Ignore → Bool
if_not_zero if_zero_value = true
if_not_zero unspecified = false
if_not_zero always = false

abbrev pub zero_ignored : Option Rules → Bool
zero_ignored none = false
zero_ignored (some r) = if_not_zero r.ignore

abbrev pub type_rules : Option Rules → TypeRules
type_rules none = no_type_rules
type_rules (some r) = r.type_rules

unfoldable pub has_implicit_default : Field → Bool → Option Rules → Bool
has_implicit_default field implicit_presence rules =
    if field.has_presence || implicit_presence
    then false
    else if required rules && not (zero_ignored rules)
    then false
    else true

unfoldable pub generate_default : Options → Field → Bool → Option Rules → Entries → Entries
unfolding has_implicit_default
generate_default p field implicit_presence rules schema =
    if not p.strict && has_implicit_default field implicit_presence rules
    then put "default" field.default schema
    else schema

-- `generate64BitIntegerStringDefault`, for a field of one of its kinds
unfoldable pub generate_64_bit_string_default :
    Options → Field → Bool → Option Rules → Entries → Entries
unfolding has_implicit_default
generate_64_bit_string_default p field implicit_presence rules schema =
    if p.strict || not (has_implicit_default field implicit_presence rules)
    then schema
    else put "default" (text field.default_decimal) schema

abbrev is_upper : Char → Bool
is_upper c = leb b'A' (code c) && leb (code c) b'Z'

abbrev next_is_upper : String → Bool
next_is_upper String.[] = true
next_is_upper (String.◌∷◌ d s) = is_upper d

-- the loop of `nameToTitle` behind the first letter; a name has ASCII letters only
title_rest : String → String
title_rest String.[] = String.[]
title_rest (String.◌∷◌ c s) =
    let rest = title_rest s in
    if is_upper c && not (next_is_upper s)
    then String.◌++◌ " " (String.◌∷◌ c rest)
    else String.◌∷◌ c rest

unfoldable pub name_to_title : String → String
unfolding title_rest
name_to_title String.[] = String.[]
name_to_title (String.◌∷◌ c s) = String.◌∷◌ c (title_rest s)
