-- ===== src/Program.antt =====
-- main.go: what `main` makes of flags that are accepted, up to the server with its tools: the filter
-- and the description of methods, the configuration, and the refreshes. The library's AddTools and
-- ListTools give the number of tools that a new server holds, a parameter.
pub mod Offered
pub mod Started
pub mod Allowed
pub mod Distinct
pub mod Sends
pub mod Reflected
mod Examples
use Prim.Native.String.{String}
use grpcmcp.Base.{ℕ, ◌%◌, ◌^◌, Bool, Option, none, some, List, [], ◌∷◌, ltb, if◌then◌else◌}
use grpcmcp.Base.Results.{Result, ok, err, ◌>>=◌}
use grpcmcp.Descriptor.{Method, FileProto}
use grpcmcp.Forward.{Provider, headers_provider}
use grpcmcp.Header.{Header}
use grpcmcp.Launch.{list_changed, refreshes, backend_client}
use grpcmcp.Naming.{Registries, build_tool_namer}
use grpcmcp.Options.{Wire, has_method_option, get_method_option_string}
use grpcmcp.Refresh.{RefreshParams, refresh_loop}
use grpcmcp.Startup.{
  Flags, FlagError, Settings, is_empty, configure, load_descriptor_set, parse_services,
}
use grpcmcp.Tools.{ServerTool, Config, tools}
use grpcmcp.Tools.Server.{McpServer, new_server, BackendClient, ClientOption, connect_options}

-- why `main` exits before it serves
pub data StartError : Type 0 where
  bad_flags : FlagError → StartError
  server_error : String → StartError

abbrev pub or_exit {ℓ κ} :
    {E : Type κ} {A : Type ℓ} → (E → StartError) → Result E A → Result StartError A
or_exit reason (ok a) = ok a
or_exit reason (err e) = err (reason e)

-- server.ServerOption of mcp-go
pub data ServerOption : Type 0 where
  with_tool_capabilities : Bool → ServerOption
  with_instructions : String → ServerOption

pub server_options : Flags → String → List ServerOption
server_options f transport =
    with_tool_capabilities (list_changed f transport)
    ∷ (if is_empty f.instructions then [] else with_instructions f.instructions ∷ [])

-- `encoded` is proto.Marshal of the options of a method, `none` where there are none or it fails.
module _ (wire : Wire) (encoded : Method → Option (List ℕ)) where
  -- no field number, no filter
  abbrev pub method_filter_of : ℕ → List ℕ → Option (Method → Bool)
  method_filter_of field values =
      if ltb 0 field then some (λ m. has_method_option wire (encoded m) field values) else none

  -- the number as uint32
  abbrev pub method_description_of : ℕ → Option (Method → String)
  method_description_of field =
      if ltb 0 field
      then some (λ m. get_method_option_string wire (encoded m) (field % 2 ^ 32))
      else none

-- the files of a descriptor set, of which a nil one has none
abbrev pub files_of : Option (List FileProto) → List FileProto
files_of none = []
files_of (some fds) = fds

-- what runs when `main` has started
pub record Program (C : Type 0) : Type 0 where
  pub settings : Settings C
  pub cfg : Config
  pub headers : Provider
  pub client : BackendClient C
  pub client_options : List ClientOption
  pub mcp : McpServer ServerTool ServerOption
  pub params : RefreshParams

module _ {R : Type 0} (lib : Registries R) (trim_space : String → String)
    (input_schema : Bool → Method → Result String String) (show : ℕ → String) (wire : Wire)
    (encoded : Method → Option (List ℕ)) where
  pub config_of : {C : Type 0} → Flags → Settings C → Option (List FileProto) → Config
  config_of f s descriptor_set =
      let services = parse_services trim_space f.services in
      let filter = method_filter_of wire encoded s.option_field s.option_values in
      record {
        descriptors = descriptor_set;
        services = services;
        string64 = f.string64;
        method_filter = filter;
        tool_name = some (build_tool_namer lib (files_of descriptor_set) services filter);
        method_description = method_description_of wire encoded f.description_method_option;
      }

  module _ {C : Type 0} (parse_uint : ℕ → String → Result String ℕ)
      (count_tools : List ServerTool → ℕ) where
    -- the program, once its server is made; `pointer` is where the configured headers are
    pub program_of : Flags → ℕ → Settings C → Config → McpServer ServerTool ServerOption → Program C
    program_of f pointer s cfg mcp = record {
      settings = s;
      cfg = cfg;
      headers = headers_provider pointer f.forward_operator_identity f.forward_header_names;
      client = backend_client f s;
      client_options = connect_options f.use_connect;
      mcp = mcp;
      params = record {
        services = cfg.services;
        method_filter = cfg.method_filter;
        previous_tool_len = count_tools mcp.added_tools;
      };
    }

    -- `main`, up to the server: `reflected` is what reflection answers
    pub start :
        Flags
        → Result String (Option C)
        → (String → Option String)
        → Header
        → ℕ
        → Result String (List FileProto)
        → (String → Result String (List FileProto))
        → Result StartError (Program C)
    unfolding config_of program_of server_options
    start f backend look_up_env flag_headers pointer reflected from_file =
        or_exit bad_flags (configure parse_uint f backend look_up_env flag_headers) >>= λ s.
        or_exit server_error (load_descriptor_set f.descriptors f.reflect reflected from_file)
        >>= λ d.
            or_exit server_error (
              new_server f.server_name f.server_version (server_options f s.transport)
                (tools lib trim_space input_schema (config_of f s d)))
            >>= λ mcp. ok (program_of f pointer s (config_of f s d) mcp)

    -- the tools that the server holds after some ticks of the refresh
    pub held_after : Flags → Program C → List (Result String (List FileProto)) → List ServerTool
    held_after f g ticks =
        if refreshes f
        then (refresh_loop lib trim_space input_schema show g.cfg g.params ticks
            (g.mcp.added_tools, g.params.previous_tool_len)).0
        else g.mcp.added_tools
