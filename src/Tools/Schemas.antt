-- ===== src/Tools/Schemas.antt =====
-- grpcmcp/server.go: the input schema of a tool, which `Tools` generates with its options and encodes.
-- encoding/json is a parameter. What stands for a run that panics or does not end is one, too.
use grpcmcp.Base.{
  ℕ, String, ◌<◌, ◌≡◌, ◌≢◌, ◌⊎◌, inl, inr, refl, ap, ◌∙◌, Bool, true, NoDup, none, some, List, [],
}
use mathlib.Core.List.{Memᴰ}
use grpcmcp.Base.Results.{Result, ok}
use grpcmcp.Descriptor.{Method, Service, FileProto}
use grpcmcp.Naming.{Registries, selected, exposed}
use grpcmcp.Reflection.Contract.{DepsFirst}
use grpcmcp.Reflection.Step.{names}
use grpcmcp.Schema.Choices.{new_generator, schema_opts}
use grpcmcp.Schema.Fields.{Message}
use grpcmcp.Schema.Generate.{
  Custom, any_object, duration, field_mask, timestamp, any_value, list_value, null_value, struct,
  wrapper, custom, run_custom, new_schema, generate, generate_schema, less_annotations,
  generate_or_custom, or_empty,
}
use grpcmcp.Schema.Json.{Entries}
use grpcmcp.Schema.Messages.Ending.{Ranked, generate_message-ends}
use grpcmcp.Schema.Values.{Generator, Gen, made}
use grpcmcp.Tools.{ServerTool, Config, tools}
use grpcmcp.Tools.Resolved.{IsRegistry}
use grpcmcp.Tools.Total.{tools-Returns}

module _ (marshal : Entries → Result String String) (crash : Result String String)
    (trim_space : String → String) (messages : String → Message) (fuel : ℕ) where
  unfoldable pub generator_of : Bool → Generator
  generator_of string64 = record {
    options = new_generator (schema_opts string64);
    trim_space = trim_space;
    messages = messages;
  }

  abbrev json_of : Gen Entries → Result String String
  json_of (made schema) = marshal schema
  json_of _ = crash

  -- the JSON of the schema of a method's input
  pub input_json : Bool → Method → Result String String
  input_json string64 m = json_of (generate_schema fuel (generator_of string64) (messages m.input))

  -- A message that is given a schema: one of the set, or a well-known type other than a wrapper.
  abbrev pub IsInput : (String → Type 0) → String → Type 0
  IsInput P name =
      ((custom (messages name).full_name ≡ none) × P name)
      ⊎ ((c : Custom) × (custom (messages name).full_name ≡ some c) × (c ≢ wrapper))

  run_custom-made :
      (string64 : Bool) (c : Custom) (message : Message) (schema : Entries)
      → c ≢ wrapper
      → (full : Entries) × (generate_or_custom fuel (generator_of string64) message (some c) schema
          ≡ made full)
  unfolding run_custom
  run_custom-made string64 any_object message schema other = (_, refl)
  run_custom-made string64 duration message schema other = (_, refl)
  run_custom-made string64 field_mask message schema other = (_, refl)
  run_custom-made string64 timestamp message schema other = (_, refl)
  run_custom-made string64 any_value message schema other = (_, refl)
  run_custom-made string64 list_value message schema other = (_, refl)
  run_custom-made string64 null_value message schema other = (_, refl)
  run_custom-made string64 struct message schema other = (_, refl)
  run_custom-made string64 wrapper message schema other = absurd (other refl)

  module _ (string64 : Bool) (P : String → Type 0) (rank : String → ℕ)
      (ranked : Ranked (generator_of string64) P rank)
      (enough : (name : String) → P name → rank name < fuel) where
    generate-made :
        (name : String)
        → IsInput P name
        → (full : Entries) × (generate fuel (generator_of string64) (messages name) ≡ made full)
    unfolding generate generator_of
    generate-made name (inl (plain, has)) =
        let (full, ends) =
          generate_message-ends (generator_of string64) P rank ranked name
            (new_schema (generator_of string64) (messages name)) has in
        (
          full,
          ap
                (λ o.
                  generate_or_custom fuel (generator_of string64) (messages name) o
                    (new_schema (generator_of string64) (messages name)))
                plain
              ∙ ends fuel (enough name has),
        )
    generate-made name (inr (c, known, other)) =
        let (full, e) =
          run_custom-made string64 c (messages name)
            (new_schema (generator_of string64) (messages name)) other in
        (
          full,
          ap
                (λ o.
                  generate_or_custom fuel (generator_of string64) (messages name) o
                    (new_schema (generator_of string64) (messages name)))
                known
              ∙ e,
        )

    generate_schema-made :
        (name : String)
        → IsInput P name
        → (schema : Entries) × (generate_schema fuel (generator_of string64) (messages name)
            ≡ made schema)
    unfolding generate_schema
    generate_schema-made name input =
        let (full, e) = generate-made name input in (less_annotations full, ap or_empty e)

    -- encoding/json encodes the schemas that are generated
    abbrev pub Encodes : Type 0
    Encodes =
        (name : String) (schema : Entries)
        → generate_schema fuel (generator_of string64) (messages name) ≡ made schema
        → (raw : String) × (marshal schema ≡ ok raw)

    pub input_json-ok :
        (m : Method)
        → IsInput P m.input
        → Encodes
        → (raw : String) × (input_json string64 m ≡ ok raw)
    unfolding input_json
    input_json-ok m input encodes =
        let (schema, e) = generate_schema-made m.input input in
        let (raw, encoded) = encodes m.input schema e in (raw, ap json_of e ∙ encoded)

module _ {R : Type 0} (lib : Registries R) (marshal : Entries → Result String String)
    (crash : Result String String) (trim_space : String → String) (messages : String → Message)
    (fuel : ℕ) (cfg : Config) (P : String → Type 0) (rank : String → ℕ) where
  -- the inputs of the methods that become tools
  abbrev pub AllInputs : List FileProto → Type 0
  AllInputs fds =
      (f : FileProto)
      → Memᴰ f fds
      → (s : Service) → Memᴰ s f.services
      → selected cfg.services s ≡ true
      → (m : Method) → Memᴰ m s.methods
      → exposed cfg.method_filter m ≡ true
      → IsInput marshal crash trim_space messages fuel P m.input

  -- `Tools` succeeds on files in the order of their dependencies, with the schemas that it generates
  -- itself: if the input of each method that becomes a tool is a well-known type other than a wrapper,
  -- or one of a set of messages of which each has rules that resolve and nests only those of the set of
  -- a lower rank; with any fuel above the ranks; if the registry behaves as documented and the schemas
  -- can be encoded.
  pub tools-input_json :
      (fds : List FileProto)
      → IsRegistry lib fds
      → DepsFirst [] fds
      → NoDup (names fds)
      → fds ≢ []
      → cfg.descriptors ≡ some fds
      → (ranked : Ranked (generator_of marshal crash trim_space messages fuel cfg.string64) P rank)
      → (enough : (name : String) → P name → rank name < fuel) → AllInputs fds
      → Encodes marshal crash trim_space messages fuel cfg.string64 P rank ranked enough
      → (ts : List ServerTool) × (tools lib trim_space
            (input_json marshal crash trim_space messages fuel)
            cfg
          ≡ ok ts)
  tools-input_json fds laws ordered distinct some_file given ranked enough inputs encodes =
      tools-Returns lib trim_space (input_json marshal crash trim_space messages fuel) cfg laws
        (λ f file s service chosen m method shown.
          input_json-ok marshal crash trim_space messages fuel cfg.string64 P rank ranked enough m
            (inputs f file s service chosen m method shown) encodes)
        ordered distinct some_file given
