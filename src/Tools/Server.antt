-- ===== src/Tools/Server.antt =====
-- grpcmcp/server.go: `NewServer`, `LoadDescriptorsFromFile`, and how a client of the backend is chosen
-- and configured. `Tool` and `ServerOption` are those of mcp-go; which of two tools of one name stays
-- is left to `AddTools` there.
use Prim.Native.String.{String}
use grpcmcp.Base.{◌≡◌, Bool, Option, none, some, List, [], ◌∷◌, ◌++◌, if◌then◌else◌}
use grpcmcp.Base.Texts.{has_prefix}
use grpcmcp.Base.Results.{Result, ok, err, ◌>>=◌}

-- an MCP server, with the tools that it was given
pub record McpServer (Tool ServerOption : Type 0) : Type 0 where
  pub server_name : String
  pub version : String
  pub server_options : List ServerOption
  pub added_tools : List Tool

-- `built` is what `Tools` returns for the configuration
unfoldable pub new_server :
    {Tool ServerOption : Type 0}
    → String
    → String
    → List ServerOption
    → Result String (List Tool)
    → Result String (McpServer Tool ServerOption)
new_server name version options built = do
  tools ← built
  ok (record {
    server_name = name;
    version = version;
    server_options = options;
    added_tools = tools;
  })

-- A new server has the tools that were built.
pub new_server-tools :
    {Tool ServerOption : Type 0} (name version : String) (options : List ServerOption)
    (built : Result String (List Tool)) (mcp : McpServer Tool ServerOption)
    → new_server name version options built ≡ ok mcp
    → built ≡ ok mcp.added_tools
unfolding new_server
new_server-tools name version options (ok ts) mcp h = cc
new_server-tools name version options (err e) mcp h = cc

-- os.ReadFile and proto.Unmarshal are arguments
pub load_descriptors_from_file :
    {Bytes Files : Type 0}
    → (String → Result String Bytes)
    → (Bytes → Result String Files)
    → String
    → Result String Files
load_descriptors_from_file read_file unmarshal path = read_file path >>= unmarshal

-- a client that was configured, one over HTTP/2 without TLS, or the default one
pub data BackendClient (C : Type 0) : Type 0 where
  configured_client : C → BackendClient C
  insecure_client default_client : BackendClient C

pub backend_http_client : {C : Type 0} → String → Option C → BackendClient C
backend_http_client base_url (some c) = configured_client c
backend_http_client base_url none =
    if has_prefix base_url "http://" then insecure_client else default_client

pub default_http_client : {C : Type 0} → String → BackendClient C
default_http_client base_url = backend_http_client base_url none

-- connect.ClientOption
pub data ClientOption : Type 0 where
  response_initializer with_grpc : ClientOption

pub connect_options : Bool → List ClientOption
connect_options use_connect =
    (response_initializer ∷ []) ++ (if use_connect then [] else with_grpc ∷ [])
