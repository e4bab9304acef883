-- ===== src/Naming/Examples.antt =====
-- Two services with a method of the same name.
use grpcmcp.Base.{◌≡◌, false, none, List, [], ◌∷◌, map, ltb, contains, ◌++◌}
use grpcmcp.Base.Results.{ok}
use grpcmcp.Descriptor.{idempotency_unknown, Method, Service, FileProto}
use grpcmcp.Naming.{Registries, build_registry, build_tool_namer, generate_tool_name}
use grpcmcp.Naming.Counting.{
  occurrences, exposing_in, exposed_in, method_name_of, build_tool_namer_lem,
}

abbrev pub get_method : Method
get_method = record {
  name = "Get";
  input = "pkg.In";
  is_streaming_client = false;
  is_streaming_server = false;
  idempotency_level = idempotency_unknown;
  options = [];
  leading_comments = "";
  trailing_comments = "";
}

abbrev pub users : Service
users = record { full_name = "pkg.Users"; name = "Users"; methods = get_method ∷ [] }

abbrev pub teams : Service
teams = record { full_name = "pkg.Teams"; name = "Teams"; methods = get_method ∷ [] }

abbrev pub file : FileProto
file = record { name = "x.proto"; dependency = []; services = users ∷ teams ∷ [] }

-- a registry that holds the files themselves
abbrev pub registries : Registries (List FileProto)
registries = record {
  empty = [];
  new_file = λ f reg. ok f;
  has_path = λ reg p. contains (map (λ f. f.name) reg) p;
  register_file = λ reg f. ok (reg ++ f ∷ []);
  range_files = λ reg. reg;
}

build_tool_namer_lem_example :
    build_tool_namer registries (file ∷ []) [] none users get_method
    ≡ generate_tool_name
        (ltb 1 (occurrences "Users" (exposing_in [] none (build_registry registries (file ∷ [])))))
        (ltb 1 (
          occurrences "Get" (
            map
              (method_name_of [] none)
              (exposed_in [] none (build_registry registries (file ∷ []))))))
        "pkg.Users"
        "Users"
        "Get"
build_tool_namer_lem_example = build_tool_namer_lem [] none registries (file ∷ []) users get_method
