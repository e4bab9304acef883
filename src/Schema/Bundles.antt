-- ===== src/Schema/Bundles.antt =====
-- `Generator.Add`, `Generator.Generate`, `bundleSchema` and `bundleReferences`. The map of messages is
-- an association list. The fuel of `bundle_references` counts the calls inside each other.
pub mod Ending
pub mod Added
pub mod Resolved
use Prim.Native.String.{String}
use grpcmcp.Base.{
  ℕ, zero, suc, is_some, Bool, true, false, Option, none, some, List, [], ◌∷◌, lookup, insert,
  length, if◌then◌else◌,
}
use grpcmcp.Base.Results.{Result, ok, err}
use grpcmcp.Base.Texts.{◌⧺◌, has_prefix, drop_prefix}
use grpcmcp.Schema.Json.{text, object, Entries, empty, find, put}
use grpcmcp.Schema.Fields.{Message}
use grpcmcp.Schema.Values.{Generator, Gen, made, failed, panicked, out_of_fuel}
use grpcmcp.Schema.Generate.{get_id, generate}

-- `refs` are the names of the messages that the schema refers to
pub record MsgSchema : Type 0 where
  pub id : String
  pub full_name : String
  pub schema : Entries
  pub refs : List String
  pub added : Bool

-- `Generator.schema`
abbrev pub Table : Type 0
Table = List (String × MsgSchema)

-- the id without `defsPrefix`
abbrev pub def_id : MsgSchema → String
def_id entry = if has_prefix entry.id "#/$defs/" then drop_prefix entry.id "#/$defs/" else entry.id

-- the loop over the messages that one refers to
pub each : (String → Entries → Option Entries) → List String → Entries → Option Entries
each next [] defs = some defs
each next (ref ∷ refs) defs = elim (next ref defs) [ none ↦ none | some more ↦ each next refs more ]

abbrev pub with_def : MsgSchema → Entries → Entries
with_def entry defs = put (def_id entry) (object entry.schema) defs

-- what is done of the message that the name has
abbrev pub add_entry :
    (String → Entries → Option Entries) → Option MsgSchema → Entries → Option Entries
add_entry next none defs = some defs
add_entry next (some entry) defs =
    let added = each next entry.refs (with_def entry defs) in
    if is_some (find (def_id entry) defs) then some defs else added

-- the definitions with those of the message and of all that it refers to
unfoldable pub bundle_references : ℕ → Table → String → Entries → Option Entries
unfolding each
bundle_references zero table name defs = none
bundle_references (suc fuel) table name defs =
    add_entry (λ ref more. bundle_references fuel table ref more) (lookup name table) defs

abbrev pub with_refs : Generator → MsgSchema → Option Entries → Option Entries
with_refs g entry none = none
with_refs g entry (some defs) = some (
    put "$defs" (object defs) (
      put "$ref" (text (get_id g entry.full_name false)) (
        put "$id" (text (get_id g entry.full_name true))
          (put "$schema" (text "https://json-schema.org/draft/2020-12/schema") empty))))

-- the fuel is one more than the number of messages
unfoldable pub bundle_schema : Generator → Table → MsgSchema → Option Entries
unfolding bundle_references
bundle_schema g table entry = with_refs g entry (
    each (λ ref more. bundle_references (suc (length table)) table ref more) entry.refs
      (with_def entry empty))

-- the new entry of a message, and the table in which it stands, also if the generation fails
abbrev new_entry : Generator → Message → Entries → MsgSchema
new_entry g message schema = record {
  id = get_id g message.full_name false;
  full_name = message.full_name;
  schema = schema;
  refs = [];
  added = false;
}

abbrev pub add_made : Generator → Table → Message → Gen Entries → Gen Table
add_made g table message (made schema) =
    made (insert message.full_name (record (new_entry g message schema) { added = true }) table)
add_made g table message (failed e) =
    failed ("failed to generate schema for \"" ⧺ message.full_name ⧺ "\": " ⧺ e)
add_made g table message panicked = panicked
add_made g table message out_of_fuel = out_of_fuel

abbrev add_or_mark : ℕ → Generator → Table → Message → Option MsgSchema → Gen Table
add_or_mark fuel g table message (some entry) =
    made (insert message.full_name (record entry { added = true }) table)
add_or_mark fuel g table message none = add_made g table message (generate fuel g message)

-- `Add`, whose state counts where it returns no error
unfoldable pub add : ℕ → Generator → Table → Message → Gen Table
unfolding generate
add fuel g table message = add_or_mark fuel g table message (lookup message.full_name table)

abbrev cons_some :
    String → Option Entries → Option (List (String × Entries)) → Option (List (String × Entries))
cons_some name (some schema) (some rest) = some ((name, schema) ∷ rest)
cons_some name _ _ = none

-- the bundles of the messages that were added
pub bundles : Generator → Table → Table → Option (List (String × Entries))
unfolding bundle_schema
bundles g table [] = some []
bundles g table ((name, entry) ∷ rest) =
    let later = bundles g table rest in
    if entry.added then cons_some name (bundle_schema g table entry) later else later

abbrev pub schemas : Table → List (String × Entries)
schemas [] = []
schemas ((name, entry) ∷ rest) = (name, entry.schema) ∷ schemas rest

-- `Generate`
pub generate_all : Generator → Table → Option (List (String × Entries))
unfolding bundles
generate_all g table = if g.options.bundle then bundles g table table else some (schemas table)
