-- ===== src/Schema/Examples/Messages.antt =====
-- Messages of a few fields.
use Prim.Native.String.{String}
use mathlib.Core.Path.{subst}
use grpcmcp.Base.{
  is_some, ℕ, ◌<◌, ◌≡◌, refl, ap, inr, Bool, true, false, Option, none, some, List, [], ◌∷◌, arith,
  ◌==◌, if◌then◌else◌,
}
use grpcmcp.Base.Texts.{cut}
use grpcmcp.Base.Results.{ok}
use grpcmcp.Schema.Json.{flag, text, object, Entries, empty, entry, find, put, remove}
use grpcmcp.Schema.Fields.{Options, Kind, string_kind, message_kind, Field, Message}
use grpcmcp.Schema.Values.{Generator, made}
use grpcmcp.Schema.Messages.{generate_message}
use grpcmcp.Schema.Messages.Targets.{AllUsable, IsUsable}
use grpcmcp.Schema.Messages.Ending.{Ranked, generate_message-ends}
use grpcmcp.Schema.Messages.Properties.{generate_message-properties, shown, required_fields}
use grpcmcp.Schema.Messages.Kept.{required_keyword}
use grpcmcp.Schema.Texts.{generate_string_validation}
use grpcmcp.Schema.Generate.{generate_schema}

-- the options of the server
abbrev pub options : Options
options = record {
  use_json_names = false;
  additional_properties = false;
  string_only_64_bit_integers = true;
  strict = false;
  bundle = false;
}

abbrev pub plain_field : String → Kind → Field
plain_field name kind = record {
  name = name;
  json_name = name;
  full_name = name;
  kind = kind;
  is_list = false;
  is_map = false;
  has_presence = true;
  default = text "";
  default_decimal = "0";
  leading_comments = "";
  trailing_comments = "";
  resolved = ok none;
}

abbrev pub message : String → List Field → Message
message name fields = record {
  full_name = name;
  name = name;
  fields = fields;
  leading_comments = "";
  trailing_comments = "";
}

abbrev note_field : Field
note_field = plain_field "note" string_kind

abbrev inner_field : Field
inner_field = plain_field "inner" (message_kind "a.Inner")

abbrev request_or_inner : Bool → Message
request_or_inner is_request =
    if is_request
    then message "a.Request" (inner_field ∷ note_field ∷ [])
    else message "a.Inner" (note_field ∷ [])

abbrev pub nesting : Generator
nesting = record {
  options = options;
  trim_space = λ s. s;
  messages = λ name. request_or_inner (name == "a.Request");
}

abbrev depth : String → ℕ
depth name = if name == "a.Request" then 1 else 0

abbrev text_or_empty : Option String → String
text_or_empty none = ""
text_or_empty (some s) = s

note-IsUsable : (P : String → Type 0) → IsUsable nesting P note_field
note-IsUsable P = record {
  resolves = (none, refl);
  of_map = λ e. ground arith;
  of_value = λ t e. ground arith;
}

depth-Ranked : Ranked nesting (λ name. Unit) depth
depth-Ranked name _ = fields_of (name == "a.Request")
  where
    fields_of :
        (b : Bool)
        → AllUsable nesting
            (λ t. Unit × (depth t < (if b then 1 else 0)))
            (request_or_inner b).fields
    fields_of true = (
      inr (record {
        resolves = (none, refl);
        of_map = λ e. ground arith;
        of_value = λ single t e. (tt, subst (λ s. depth s < 1) (ap text_or_empty e) (omega arith));
      }),
      (inr (note-IsUsable _), tt),
    )
    fields_of false = (inr (note-IsUsable _), tt)

generate_message-ends_example :
    (result : Entries) × ((fuel : ℕ)
      → 1 < fuel
      → generate_message fuel nesting (nesting.messages "a.Request") empty ≡ made result)
generate_message-ends_example =
    generate_message-ends nesting (λ name. Unit) depth depth-Ranked "a.Request" empty tt

abbrev note_schema : Entries
note_schema = entry "type" (text "string") empty

abbrev inner_schema : Entries
inner_schema = entry "type" (text "object") (
    entry "properties" (object (entry "note" (object note_schema) empty))
      (entry "additionalProperties" (flag false) empty))

inner-made : generate_message 1 nesting (nesting.messages "a.Inner") empty ≡ made inner_schema
unfolding generate_message cut put generate_string_validation
inner-made = refl

generate_message-properties_example :
    (properties : Entries) × (find "properties" inner_schema ≡ some (object properties))
    × ((name : String)
        → is_some (find name properties) ≡ shown nesting (nesting.messages "a.Inner").fields name)
    × (find "required" inner_schema
        ≡ required_keyword (required_fields nesting (nesting.messages "a.Inner").fields))
    × (find "additionalProperties" inner_schema ≡ some (flag false))
unfolding find
generate_message-properties_example =
    generate_message-properties 1 nesting (nesting.messages "a.Inner") empty inner_schema inner-made
      refl

-- `Generate` of the message
inner-generated : generate_schema 1 nesting (nesting.messages "a.Inner") ≡ made inner_schema
unfolding generate_schema cut put remove generate_string_validation
inner-generated = refl
