-- ===== src/Program/Examples/Refreshed.antt =====
-- A server that starts with one service, and to which a refresh brings a second one with a method of
-- the same name.
use mathlib.Core.Path.{subst}
use mathlib.Core.List.{Memᴰ}
use grpcmcp.Base.{
  String, ◌≡◌, ◌⊎◌, inl, inr, refl, sym, none, some, List, [], ◌∷◌, contains, lookup, insert, map,
  NoDup,
}
use grpcmcp.Base.Results.{Result, ok, err}
use grpcmcp.Descriptor.{FileProto}
use grpcmcp.Forward.{cut_colon, check_collisions, find_collision}
use grpcmcp.Header.{get, canonical}
use grpcmcp.Naming.{
  exposed, build_registry, build_registry_from, build_tool_namer, name_tool, generate_tool_name,
  scan_files, scan_services, scan_service, scan_methods, increment, tally,
}
use grpcmcp.Naming.Counting.{exposed_in, exposed_pairs, exposed_of}
use grpcmcp.Naming.Distinct.{IsPlain}
use grpcmcp.Naming.Joined.{has}
use grpcmcp.Naming.Examples.{users, teams, registries}
use grpcmcp.Options.Examples.{small_wire}
use grpcmcp.Launch.{refreshes}
use grpcmcp.Refresh.{refresh_loop, refresh_tools, replace_tools, refresh_cfg}
use grpcmcp.Startup.{
  Flags, Settings, configure, check_flags, check_transport, serve_http, add_bearer, parse_values,
  parse_method_option, split_commas, load_descriptor_set, parse_services, named_services,
}
use grpcmcp.Tools.{
  offered, Config, tools, tools_of_files, tools_of_services, tools_of_methods, tool_of,
  procedure_of, description_of, tool_annotations,
}
use grpcmcp.Tools.Examples.{trim, schema, get_tool, service-IsPlain}
use grpcmcp.Tools.Named.{name_of}
use grpcmcp.Tools.Server.{new_server}
use grpcmcp.Program.{Program, start, held_after, program_of, config_of, server_options}
use grpcmcp.Program.Distinct.{IsClear, held_after-NoDup}
use grpcmcp.Program.Examples.{flags, encoded, seven, count, show, settings, no_variable, no_file}

-- all methods of all services
abbrev open_flags : Flags
open_flags = record flags { require_method_option = ""; services = "" }

abbrev open_settings : Settings String
open_settings = record settings { option_field = 0; option_values = [] }

abbrev users_file : FileProto
users_file = record { name = "users.proto"; dependency = []; services = users ∷ [] }

abbrev teams_file : FileProto
teams_file = record { name = "teams.proto"; dependency = []; services = teams ∷ [] }

abbrev before : List FileProto
before = users_file ∷ []

abbrev after : List FileProto
after = users_file ∷ teams_file ∷ []

abbrev open_config : Config
open_config =
    config_of registries trim schema show small_wire encoded open_flags open_settings (some before)

abbrev open_program : Program String
open_program =
    program_of registries trim schema show small_wire encoded seven count open_flags 0 open_settings
      open_config
      (record {
        server_name = "s";
        version = "1";
        server_options = server_options open_flags "http";
        added_tools = record get_tool { name = "Get" } ∷ [];
      })

open_started :
    start registries trim schema show small_wire encoded seven count open_flags
      (ok none)
      no_variable
      []
      0
      (ok before)
      no_file
    ≡ ok open_program
unfolding start configure check_flags check_transport serve_http add_bearer parse_method_option
    parse_values split_commas load_descriptor_set new_server tools tools_of_files tools_of_services
    tools_of_methods tool_of offered procedure_of description_of tool_annotations exposed
    parse_services named_services contains config_of build_tool_namer name_tool generate_tool_name
    scan_files scan_services scan_service scan_methods build_registry build_registry_from increment
    tally lookup insert check_collisions find_collision cut_colon get canonical
open_started = refl

before-IsClear : IsClear registries trim schema open_program.cfg before
unfolding config_of program_of exposed_in exposed_pairs exposed_of exposed has build_registry
    build_registry_from contains parse_services named_services procedure_of
before-IsClear = record {
  holds = λ f h. h;
  plain = λ p h. elim h [
    | Memᴰ.head e ↦ subst IsPlain (sym e) (service-IsPlain users refl refl)
    | Memᴰ.tail h' ↦ elim h' [ ]
  ];
  distinct = (refl, tt);
}

after-IsClear : IsClear registries trim schema open_program.cfg after
unfolding config_of program_of exposed_in exposed_pairs exposed_of exposed has build_registry
    build_registry_from contains parse_services named_services procedure_of
after-IsClear = record {
  holds = λ f h. h;
  plain = λ p h. elim h [
    | Memᴰ.head e ↦ subst IsPlain (sym e) (service-IsPlain users refl refl)
    | Memᴰ.tail (Memᴰ.head e) ↦ subst IsPlain (sym e) (service-IsPlain teams refl refl)
    | Memᴰ.tail (Memᴰ.tail h') ↦ elim h' [ ]
  ];
  distinct = (refl, (refl, tt));
}

abbrev ticks : List (Result String (List FileProto))
ticks = err "down" ∷ ok after ∷ []

all-IsClear :
    (fds : List FileProto)
    → (open_program.cfg.descriptors ≡ some fds) ⊎ Memᴰ (ok fds) ticks
    → IsClear registries trim schema open_program.cfg fds
unfolding program_of config_of
all-IsClear fds (inl e) =
    let same : before ≡ fds = cc in
    subst (IsClear registries trim schema open_program.cfg) same before-IsClear
all-IsClear fds (inr (Memᴰ.head e)) = absurd cc
all-IsClear fds (inr (Memᴰ.tail (Memᴰ.head e))) =
    let same : after ≡ fds = cc in
    subst (IsClear registries trim schema open_program.cfg) same after-IsClear
all-IsClear fds (inr (Memᴰ.tail (Memᴰ.tail h))) = elim h [ ]

-- the second method of the name brings the names of the services in front
held_names :
    map name_of (
      held_after registries trim schema show small_wire encoded seven count open_flags open_program
        ticks)
    ≡ "Users__Get" ∷ "Teams__Get" ∷ []
unfolding held_after refresh_loop refresh_tools replace_tools refresh_cfg tools tools_of_files
    tools_of_services tools_of_methods tool_of offered procedure_of description_of tool_annotations
    exposed parse_services named_services contains config_of program_of build_tool_namer name_tool
    generate_tool_name scan_files scan_services scan_service scan_methods build_registry
    build_registry_from increment tally lookup insert refreshes
held_names = refl

held_after-NoDup_example : NoDup (
    map name_of (
      held_after registries trim schema show small_wire encoded seven count open_flags open_program
        ticks))
held_after-NoDup_example =
    held_after-NoDup registries trim schema show small_wire encoded seven count open_flags (ok none)
      no_variable [] 0 (ok before) no_file open_program ticks (λ cfg f reg d h. cc) open_started
      all-IsClear
