-- ===== src/Tools/Examples/Schemas.antt =====
-- The tools of one file, with the schemas that are generated for their inputs.
use mathlib.Core.List.Memᴰ
use mathlib.Core.List.{map-append}
use grpcmcp.Base.{
  String, ◌≡◌, refl, ap, ◌∙◌, inl, false, none, List, [], ◌∷◌, ◌++◌, map, contains, contains-append,
  arith,
}
use grpcmcp.Base.Results.{Result, ok, err}
use grpcmcp.Descriptor.{FileProto}
use grpcmcp.Naming.Examples.{file, registries}
use grpcmcp.Schema.Fields.{Message}
use grpcmcp.Schema.Generate.{custom}
use grpcmcp.Schema.Json.{Entries}
use grpcmcp.Schema.Messages.Ending.{Ranked}
use grpcmcp.Tools.{ServerTool, tools}
use grpcmcp.Tools.Examples.{config, trim}
use grpcmcp.Tools.Resolved.{IsRegistry}
use grpcmcp.Tools.Schemas.{generator_of, input_json, tools-input_json}

-- the registry that is a list of files
pub registries-IsRegistry : (fds : List FileProto) → IsRegistry registries fds
unfolding contains
registries-IsRegistry fds = record {
  empty_paths = λ p. refl;
  resolves = λ f reg given dependencies. refl;
  registers = λ f reg given fresh. record {
    next = reg ++ f ∷ [];
    registered = refl;
    paths = λ p.
        ap (λ l. contains l p) (map-append (λ g. g.name) reg (f ∷ []))
        ∙ contains-append (map (λ g. g.name) reg) (f.name ∷ []) p
        ∙ ground arith;
    newest = Memᴰ.append_right reg (Memᴰ.head refl);
    older = λ g h. Memᴰ.append_left (f ∷ []) h;
  };
}

abbrev input_message : String → Message
input_message name = record {
  full_name = "pkg.In";
  name = "In";
  fields = [];
  leading_comments = "";
  trailing_comments = "";
}

abbrev encode : Entries → Result String String
encode schema = ok "{}"

abbrev crash : Result String String
crash = err "crash"

abbrev InSet : String → Type 0
InSet name = Unit

inputs-Ranked : Ranked (generator_of encode crash trim input_message 1 false) InSet (λ name. 0)
unfolding generator_of
inputs-Ranked name h = tt

plain_input : custom "pkg.In" ≡ none
unfolding custom
plain_input = refl

tools-input_json_example :
    (ts : List ServerTool) × (tools registries trim
        (input_json encode crash trim input_message 1)
        config
      ≡ ok ts)
unfolding contains
tools-input_json_example =
    tools-input_json registries encode crash trim input_message 1 config InSet (λ name. 0)
      (file ∷ []) (registries-IsRegistry (file ∷ [])) (λ x h. cc, tt) (refl, tt) (λ e. cc) refl
      inputs-Ranked (λ name h. omega arith) (λ f h s k chosen m l shown. inl (plain_input, tt))
      (λ name schema e. ("{}", refl))
