-- ===== src/Schema/Examples/Bundles.antt =====
-- A generator that bundles, and one message.
use mathlib.Core.List.{Memᴰ}
use grpcmcp.Base.{◌≡◌, refl, true, false, some, List, [], ◌∷◌, String, lookup, insert}
use grpcmcp.Base.Texts.{cut}
use grpcmcp.Schema.Json.{Entries, text, flag, object, empty, entry, put}
use grpcmcp.Schema.Fields.{Message, name_to_title}
use grpcmcp.Schema.Values.{Generator, made}
use grpcmcp.Schema.Texts.{generate_string_validation}
use grpcmcp.Schema.Messages.{generate_message}
use grpcmcp.Schema.Generate.{generate, get_id}
use grpcmcp.Schema.Bundles.{Table, add, generate_all}
use grpcmcp.Schema.Bundles.Added.{add_all}
use grpcmcp.Schema.Bundles.Resolved.{IsBundle, generate_all-IsBundle}
use grpcmcp.Schema.Examples.Messages.{nesting, options}

abbrev bundling : Generator
bundling = record nesting { options = record options { bundle = true } }

abbrev inner : Message
inner = nesting.messages "a.Inner"

abbrev inner_table : Table
inner_table =
    (
      "a.Inner",
      record {
        id = "#/$defs/a.Inner.schema.json";
        full_name = "a.Inner";
        schema = entry "$schema" (text "https://json-schema.org/draft/2020-12/schema") (
            entry "title" (text "a. Inner") (
              entry "type" (text "object") (
                entry "properties"
                  (object (entry "note" (object (entry "type" (text "string") empty)) empty))
                  (entry "additionalProperties" (flag false) empty))));
        refs = [];
        added = true;
      },
    )
    ∷ []

inner_added : add_all 1 bundling (inner ∷ []) [] ≡ made inner_table
unfolding add generate get_id cut put lookup insert name_to_title generate_string_validation
    generate_message
inner_added = refl

generate_all-IsBundle_example :
    (out : List (String × Entries)) × (generate_all bundling inner_table ≡ some out)
    × ((name : String) (s : Entries) → Memᴰ (name, s) out → IsBundle 1 bundling (inner ∷ []) name s)
    × ((m : Message) → Memᴰ m (inner ∷ []) → (s : Entries) × Memᴰ (m.full_name, s) out)
generate_all-IsBundle_example =
    generate_all-IsBundle 1 bundling (inner ∷ []) inner_table refl inner_added
