-- ===== src/Tools/Examples.antt =====
-- The tools of one file, and a call of a tool.
pub mod Schemas
use mathlib.Core.Path.{subst}
use mathlib.Core.List.{Memᴰ}
use grpcmcp.Base.{
  String, ◌≡◌, ◌≢◌, ◌⊎◌, refl, Bool, false, none, some, List, [], ◌∷◌, map, contains, inr, sym,
  NoDup, lookup, insert,
}
use grpcmcp.Base.Results.{Result, ok, err}
use grpcmcp.Base.Texts.{◌⧺◌}
use grpcmcp.Descriptor.{Method, Service}
use grpcmcp.Header.{Header}
use grpcmcp.Forward.{static_headers}
use grpcmcp.Naming.{
  exposed, replace_dots, build_registry, build_registry_from, build_tool_namer, name_tool,
  generate_tool_name, scan_files, scan_services, scan_service, scan_methods, increment, tally,
}
use grpcmcp.Naming.Distinct.{IsPlain}
use grpcmcp.Naming.Joined.{has, Lacks}
use grpcmcp.Naming.Counting.{exposed_in, exposed_pairs, exposed_of}
use grpcmcp.Naming.Examples.{users, teams, file, registries, get_method}
use grpcmcp.Tools.{
  offered, Config, ServerTool, tools, tools_of_files, tools_of_services, tools_of_methods, tool_of,
  tool_handler, procedure_of, description_of, tool_annotations,
}
use grpcmcp.Tools.Exposed.{identity, tool_identity, tools-exposed}
use grpcmcp.Tools.Named.{name_of, AllPlain, tools-NoDup}
use grpcmcp.Tools.Answers.{IsCall, tool_handler-IsCall}

abbrev pub config : Config
config = record {
  descriptors = some (file ∷ []);
  services = "pkg.Users" ∷ [];
  string64 = false;
  method_filter = none;
  tool_name = none;
  method_description = none;
}

abbrev pub trim : String → String
trim s = s

abbrev pub schema : Bool → Method → Result String String
schema string64 m = ok "{}"

abbrev pub get_tool : ServerTool
get_tool = record {
  name = "pkg_Users__Get";
  description = "";
  raw_schema = "{}";
  annotations = record { read_only_hint = none; destructive_hint = none; idempotent_hint = none };
  procedure = "/pkg.Users/Get";
  method = get_method;
}

abbrev built : List ServerTool
built = get_tool ∷ []

built-ok : tools registries trim schema config ≡ ok built
unfolding replace_dots procedure_of description_of tool_annotations tools tools_of_files
    tools_of_services tools_of_methods tool_of offered exposed contains
built-ok = refl

tools-exposed_example :
    (file ∷ [] ≢ [])
    × (map identity built
        ≡ map
            (tool_identity registries trim schema config)
            (exposed_in ("pkg.Users" ∷ []) none (file ∷ [])))
tools-exposed_example =
    tools-exposed registries trim schema config (file ∷ []) built (λ f reg d h. cc) refl built-ok

abbrev arguments : Result String String
arguments = ok "{}"

abbrev same_text : String → Result String String
same_text s = ok s

abbrev call_unary : Header → String → Result String String
call_unary h m = err "unavailable"

tool_handler-IsCall_example :
    IsCall arguments same_text [] call_unary same_text
      (static_headers 0)
      []
      ([] ∷ [])
      (tool_handler arguments same_text [] call_unary same_text (static_headers 0) [] ([] ∷ []))
tool_handler-IsCall_example =
    tool_handler-IsCall arguments same_text [] call_unary same_text (static_headers 0) [] ([] ∷ [])

pub service-IsPlain :
    (service : Service)
    → service.full_name ≡ "pkg" ⧺ "." ⧺ service.name
    → Lacks b'_' service.full_name
    → IsPlain (service, get_method)
unfolding has
service-IsPlain service named plain = record {
  service_named = inr ("pkg", named);
  service_plain = plain;
  method_plain = refl;
  method_dotless = refl;
}
