-- ===== src/Program/Examples/Calls.antt =====
-- A server over HTTP with a bearer token, and a call of a tool.
use mathlib.Core.List.{Memᴰ}
use grpcmcp.Base.{
  ◌≢◌, arith, eq_iff, String, ◌≡◌, refl, true, Option, none, some, [], ◌∷◌, contains, lookup,
  insert,
}
use grpcmcp.Base.Texts.{◌⧺◌}
use grpcmcp.Base.Results.{Result, ok}
use grpcmcp.Forward.{
  Heap, load, headers_provider, static_headers, operator_identity_headers, add_headers, cut_colon,
  check_collisions, find_collision,
}
use grpcmcp.Header.{Header, set, get, canonical}
use grpcmcp.Naming.{
  exposed, build_registry, build_registry_from, build_tool_namer, name_tool, generate_tool_name,
  scan_files, scan_services, scan_service, scan_methods, increment, tally,
}
use grpcmcp.Naming.Examples.{registries}
use grpcmcp.Options.{
  has_method_option, method_option_fields, skip_next_field, first_varint, drop, take,
}
use grpcmcp.Options.Examples.{small_wire}
use grpcmcp.Startup.{
  Flags, configure, check_flags, check_transport, serve_http, add_bearer, parse_values,
  parse_method_option, split_commas, load_descriptor_set, parse_services, named_services,
}
use grpcmcp.Tools.{
  offered, tool_handler, with_body, with_message, call_with, tools, tools_of_files,
  tools_of_services, tools_of_methods, tool_of, procedure_of, description_of, tool_annotations,
}
use grpcmcp.Tools.Examples.{trim, schema}
use grpcmcp.Tools.Server.{new_server}
use grpcmcp.Program.{Program, start, program_of, config_of, server_options}
use grpcmcp.Program.Sends.{start-sends_bearer}
use grpcmcp.Program.Examples.{
  file, flags, encoded, seven, count, show, settings, no_file, list_tool,
}

-- the same over HTTP, with a bearer token and the operator's identity
abbrev http_flags : Flags
http_flags = record flags {
  host_port = "localhost:80";
  bearer_env = "TOKEN";
  forward_operator_identity = true;
}

abbrev token : String → Option String
token name = some "t"

abbrev http_program : Program String
http_program =
    program_of registries trim schema show small_wire encoded seven count http_flags 0
      (record settings { headers = ("Authorization", "Bearer t" ∷ []) ∷ [] })
      (config_of registries trim schema show small_wire encoded http_flags settings
        (some (file ∷ [])))
      (record {
        server_name = "s";
        version = "1";
        server_options = server_options http_flags "http";
        added_tools = list_tool ∷ [];
      })

http_started :
    start registries trim schema show small_wire encoded seven count http_flags
      (ok none)
      token
      []
      0
      (ok (file ∷ []))
      no_file
    ≡ ok http_program
unfolding start configure check_flags check_transport serve_http add_bearer parse_method_option
    parse_values split_commas load_descriptor_set new_server tools tools_of_files tools_of_services
    tools_of_methods tool_of offered procedure_of description_of tool_annotations exposed
    parse_services named_services contains config_of has_method_option method_option_fields
    skip_next_field first_varint drop take build_tool_namer name_tool generate_tool_name scan_files
    scan_services scan_service scan_methods build_registry build_registry_from increment tally
    lookup insert check_collisions find_collision cut_colon get canonical set
http_started = refl

-- an inbound request that brings a token of its own
abbrev hostile : Header
hostile = ("Authorization", "Bearer mine" ∷ []) ∷ ("X-Operator-Identity", "eve" ∷ []) ∷ []

abbrev heap : Heap
heap = (("Authorization", "Bearer t" ∷ []) ∷ []) ∷ []

abbrev arguments : Result String String
arguments = ok "{}"

abbrev same_text : String → Result String String
same_text s = ok s

abbrev call_unary : Header → String → Result String String
call_unary h m = ok m

abbrev sent_request : Header × String
sent_request = (add_headers [] (load (headers_provider 0 true [] hostile heap).0 1), "{}")

sent :
    Memᴰ sent_request
      (tool_handler arguments same_text [] call_unary same_text http_program.headers hostile
        heap).sent
unfolding tool_handler with_body with_message call_with program_of headers_provider static_headers
    operator_identity_headers
sent = Memᴰ.head refl

token_named : ◌≢◌ {A = String} "TOKEN" ""
token_named = ground (arith, eq_iff "TOKEN" "")

start-sends_bearer_example : get sent_request.0 "Authorization" ≡ "Bearer " ⧺ "t"
unfolding program_of contains canonical
start-sends_bearer_example =
    start-sends_bearer registries trim schema show small_wire encoded seven count http_flags
      (ok none) token [] 0 (ok (file ∷ [])) no_file http_program "t" arguments same_text []
      call_unary same_text hostile heap sent_request token_named refl http_started refl
      (record { canonical_keys = (refl, tt); distinct = (refl, tt) }, tt) sent
