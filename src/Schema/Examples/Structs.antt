-- ===== src/Schema/Examples/Structs.antt =====
-- google.protobuf.Struct with its Value.
use Prim.Native.String.{String}
use mathlib.Core.Path.{subst}
use grpcmcp.Base.{
  ◌≡◌, ◌≢◌, refl, sym, ◌⊎◌, inl, inr, Bool, true, false, none, [], ◌∷◌, arith, ◌==◌, if◌then◌else◌,
}
use grpcmcp.Base.Texts.{cut}
use grpcmcp.Schema.Json.{empty}
use grpcmcp.Schema.Fields.{string_kind, message_kind, double_kind, Field, Message}
use grpcmcp.Schema.Values.{Generator, out_of_fuel, should_ignore_field, field_ignore, field_visible}
use grpcmcp.Schema.Messages.{generate_message}
use grpcmcp.Schema.Messages.Targets.{AllUsable}
use grpcmcp.Schema.Messages.Endless.{Sound, generate_message-endless}
use grpcmcp.Schema.Messages.Stuck.{SomeLeads}
use grpcmcp.Schema.Examples.Messages.{options, plain_field, message}

-- struct.proto: Struct has a map to Value, and Value may hold a Struct
abbrev struct_field : Field
struct_field = record (plain_field "fields" (message_kind "google.protobuf.Struct.FieldsEntry")) {
  is_map = true;
}

abbrev value_field : Field
value_field = plain_field "value" (message_kind "google.protobuf.Value")

abbrev value_message : Message
value_message = message "google.protobuf.Value" (
    plain_field "number_value" double_kind
    ∷ plain_field "struct_value" (message_kind "google.protobuf.Struct")
    ∷ [])

abbrev struct_message : Bool → Bool → Message
struct_message is_struct is_entry =
    if is_struct
    then message "google.protobuf.Struct" (struct_field ∷ [])
    else if is_entry
    then message "google.protobuf.Struct.FieldsEntry"
        (plain_field "key" string_kind ∷ value_field ∷ [])
    else value_message

abbrev structs : Generator
structs = record {
  options = options;
  trim_space = λ s. s;
  messages = λ name.
      struct_message (name == "google.protobuf.Struct")
        (name == "google.protobuf.Struct.FieldsEntry");
}

-- Struct or Value
abbrev StructOrValue : String → Type 0
StructOrValue name = (name ≡ "google.protobuf.Struct") ⊎ (name ≡ "google.protobuf.Value")

struct-Sound : Sound structs (λ name. Unit)
struct-Sound name _ =
    fields_of (name == "google.protobuf.Struct") (name == "google.protobuf.Struct.FieldsEntry")
  where
    fields_of : (b c : Bool) → AllUsable structs (λ t. Unit) (struct_message b c).fields
    fields_of true c = (
      inr (record {
        resolves = (none, refl);
        of_map = λ e. ((λ t h. tt), (λ t h. tt));
        of_value = λ e t h. tt;
      }),
      tt,
    )
    fields_of false true = (
      inr (record { resolves = (none, refl); of_map = λ e. ground arith; of_value = λ e t h. tt }),
      (
        inr (record {
          resolves = (none, refl);
          of_map = λ e. ground arith;
          of_value = λ e t h. tt;
        }),
        tt,
      ),
    )
    fields_of false false = (
      inr (record { resolves = (none, refl); of_map = λ e. ground arith; of_value = λ e t h. tt }),
      (
        inr (record {
          resolves = (none, refl);
          of_map = λ e. ground arith;
          of_value = λ e t h. tt;
        }),
        tt,
      ),
    )

visible : field_visible ≢ field_ignore
visible h = ground arith

struct-recurs :
    (name : String)
    → StructOrValue name
    → SomeLeads structs StructOrValue (structs.messages name).fields
unfolding should_ignore_field cut
struct-recurs name (inl e) =
    subst (λ n. SomeLeads structs StructOrValue (structs.messages n).fields) (sym e)
      (inl ((λ h. visible h), inl (refl, ("google.protobuf.Value", refl, inr refl))))
struct-recurs name (inr e) =
    subst (λ n. SomeLeads structs StructOrValue (structs.messages n).fields) (sym e)
      (inr (inl ((λ h. visible h), inr (refl, "google.protobuf.Struct", refl, inl refl))))

generate_message-endless_example :
    generate_message 1000 structs (structs.messages "google.protobuf.Value") empty ≡ out_of_fuel
generate_message-endless_example =
    generate_message-endless structs (λ name. Unit) StructOrValue struct-Sound (λ name h. tt)
      struct-recurs 1000 "google.protobuf.Value" empty (inr refl)
