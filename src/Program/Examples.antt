-- ===== src/Program/Examples.antt =====
-- A server over stdio that requires a method option, with a refresh that fails and one that does not.
mod Calls
mod Loaded
mod Refreshed
use mathlib.Core.List.{Memᴰ}
use grpcmcp.Base.{
  ◌≢◌, arith, eq_iff, ℕ, String, ◌≡◌, refl, true, false, Option, none, some, List, [], ◌∷◌,
  contains, lookup, insert,
}
use grpcmcp.Base.Int.{pos}
use grpcmcp.Base.Texts.{◌⧺◌}
use grpcmcp.Base.Results.{Result, ok, err}
use grpcmcp.Descriptor.{Method, Service, FileProto}
use grpcmcp.Forward.{
  Heap, load, headers_provider, static_headers, operator_identity_headers, add_headers, cut_colon,
  check_collisions, find_collision,
}
use grpcmcp.Header.{Header, set, get, canonical}
use grpcmcp.Launch.{refreshes}
use grpcmcp.Naming.{
  exposed, build_registry, build_registry_from, build_tool_namer, name_tool, generate_tool_name,
  scan_files, scan_services, scan_service, scan_methods, increment, tally,
}
use grpcmcp.Naming.Examples.{get_method, registries}
use grpcmcp.Options.{
  has_method_option, method_option_fields, skip_next_field, first_varint, drop, take,
}
use grpcmcp.Options.Examples.{small_wire}
use grpcmcp.Refresh.{refresh_loop, refresh_tools, replace_tools, refresh_cfg}
use grpcmcp.Startup.{
  Flags, Settings, configure, check_flags, check_transport, serve_http, add_bearer, parse_values,
  parse_method_option, split_commas, load_descriptor_set, parse_services, named_services,
}
use grpcmcp.Tools.{
  offered, tool_handler, with_body, with_message, call_with, ServerTool, tools, tools_of_files,
  tools_of_services, tools_of_methods, tool_of, procedure_of, description_of, tool_annotations,
}
use grpcmcp.Tools.Examples.{trim, schema}
use grpcmcp.Tools.Server.{new_server}
use grpcmcp.Program.{Program, start, held_after, program_of, config_of, server_options}
use grpcmcp.Program.Sends.{start-sends_bearer}
use grpcmcp.Program.Allowed.{IsServed, held_after-IsServed}

-- field 7 has the value 7
abbrev pub marked : Method
marked = record get_method { options = 56 ∷ 7 ∷ [] }

abbrev pub users : Service
users = record {
  full_name = "pkg.Users";
  name = "Users";
  methods = get_method ∷ (record marked { name = "List" }) ∷ [];
}

abbrev pub file : FileProto
file = record { name = "x.proto"; dependency = []; services = users ∷ [] }

abbrev pub flags : Flags
flags = record {
  refresh_interval = pos 300;
  host_port = "";
  transport = "http";
  tls_crt = "";
  tls_key = "";
  ca_file = "";
  forward_operator_identity = false;
  forward_header_names = [];
  base_url = "http://b";
  require_method_option = "7:7";
  bearer_env = "";
  descriptors = "";
  reflect = true;
  server_name = "s";
  server_version = "1";
  instructions = "";
  services = "pkg.Users";
  description_method_option = 0;
  use_connect = false;
  string64 = false;
}

abbrev pub encoded : Method → Option (List ℕ)
encoded m = some m.options

abbrev pub seven : ℕ → String → Result String ℕ
seven w s = ok 7

abbrev pub count : List ServerTool → ℕ
count [] = 0
count (t ∷ ts) = 1

abbrev pub show : ℕ → String
show n = ""

abbrev pub settings : Settings String
settings = record {
  transport = "http";
  backend_tls = none;
  option_field = 7;
  option_values = 7 ∷ [];
  headers = [];
}

abbrev pub no_variable : String → Option String
no_variable name = none

abbrev pub no_file : String → Result String (List FileProto)
no_file path = err "no such file"

abbrev pub list_tool : ServerTool
list_tool = record {
  name = "List";
  description = "";
  raw_schema = "{}";
  annotations = record { read_only_hint = none; destructive_hint = none; idempotent_hint = none };
  procedure = "/pkg.Users/List";
  method = record marked { name = "List" };
}

abbrev program : Program String
program =
    program_of registries trim schema show small_wire encoded seven count flags 0 settings
      (config_of registries trim schema show small_wire encoded flags settings (some (file ∷ [])))
      (record {
        server_name = "s";
        version = "1";
        server_options = server_options flags "http";
        added_tools = list_tool ∷ [];
      })

started :
    start registries trim schema show small_wire encoded seven count flags
      (ok none)
      no_variable
      []
      0
      (ok (file ∷ []))
      no_file
    ≡ ok program
unfolding start configure check_flags check_transport serve_http add_bearer parse_method_option
    parse_values split_commas load_descriptor_set new_server tools tools_of_files tools_of_services
    tools_of_methods tool_of offered procedure_of description_of tool_annotations exposed
    parse_services named_services contains config_of has_method_option method_option_fields
    skip_next_field first_varint drop take build_tool_namer name_tool generate_tool_name scan_files
    scan_services scan_service scan_methods build_registry build_registry_from increment tally
    lookup insert check_collisions find_collision cut_colon get canonical
started = refl

held : Memᴰ list_tool (
    held_after registries trim schema show small_wire encoded seven count flags program
      (err "down" ∷ ok (file ∷ []) ∷ []))
unfolding held_after refresh_loop refresh_tools replace_tools refresh_cfg tools tools_of_files
    tools_of_services tools_of_methods tool_of offered procedure_of description_of tool_annotations
    exposed parse_services named_services split_commas contains config_of program_of
    has_method_option method_option_fields skip_next_field first_varint drop take build_tool_namer
    name_tool generate_tool_name scan_files scan_services scan_service scan_methods build_registry
    build_registry_from increment tally lookup insert refreshes
held = Memᴰ.head refl

held_after-IsServed_example : IsServed trim small_wire encoded seven flags list_tool
held_after-IsServed_example =
    held_after-IsServed registries trim schema show small_wire encoded seven count flags (ok none)
      no_variable [] 0 (ok (file ∷ [])) no_file program (err "down" ∷ ok (file ∷ []) ∷ []) list_tool
      (λ cfg f reg d h. cc) started held
