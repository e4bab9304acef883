-- ===== src/Launch.antt =====
-- main.go: what `main` starts once the flags are accepted: the transport, the handler in front of the
-- MCP server, TLS, and whether tools are refreshed. The two MCP servers of mcp-go are handlers that
-- are arguments, and so is what http.ServeMux answers on a path that it does not hold.
pub mod Guarded
mod Examples
use Prim.Native.String.{String}
use grpcmcp.Base.{
  ℕ, Bool, true, false, not, ◌&&◌, ◌||◌, Option, none, some, List, ◌==◌, if◌then◌else◌,
}
use grpcmcp.Base.Results.{Result, ok, err, ◌>>=◌}
use grpcmcp.Cert.{Disk}
use grpcmcp.Gate.{Handler, gate}
use grpcmcp.Startup.{Flags, Settings, serve_http, is_empty}
use grpcmcp.Tools.Server.{BackendClient, configured_client, default_http_client}
use grpcmcp.Tls.{HttpServer, serve_tls}

-- a handler on each path
abbrev pub Paths : Type 0
Paths = String → Handler

-- stdio, an http.Server that listens without TLS on an address, or one over TLS
pub data Serving (Pool : Type 0) : Type 0 where
  stdio : Serving Pool
  plain : String → Paths → Serving Pool
  over_tls : HttpServer Pool Paths → Serving Pool

-- `useSSE`, with the transport that the checks of the flags leave
unfoldable pub use_sse : Flags → String → Bool
unfolding serve_http
use_sse f transport = serve_http f && transport == "sse"

-- `listChanged`, which needs a stream to the client
unfoldable pub list_changed : Flags → String → Bool
unfolding use_sse serve_http
list_changed f transport = not (serve_http f) || use_sse f transport

-- reflection is repeated if it was the source of the descriptors
unfoldable pub refreshes : Flags → Bool
refreshes f = f.reflect && is_empty f.descriptors

-- `backendClient`, the one client of the process: the one with TLS options, if there is one
pub backend_client : {C : Type 0} → Flags → Settings C → BackendClient C
backend_client f s = elim s.backend_tls [
  | some c ↦ configured_client c
  | none ↦ default_http_client f.base_url
]

-- the endpoint path of streamable HTTP
abbrev pub streamable_endpoint_path : String
streamable_endpoint_path = "/mcp"

-- `valid` and `quote` are those of the gate
module _ (valid : List String) (quote : String → String) (not_found : Handler) where
  unfoldable pub sse_handler : Paths → Paths
  sse_handler sse path = gate valid quote (sse path)

  -- the mux with one path
  unfoldable pub streamable_handler : Handler → Paths
  streamable_handler streamable path =
      if path == streamable_endpoint_path then gate valid quote streamable else not_found

  -- the handler of the transport
  unfoldable pub handler_of : Flags → String → Paths → Handler → Paths
  unfolding use_sse sse_handler streamable_handler
  handler_of f transport sse streamable =
      if use_sse f transport then sse_handler sse else streamable_handler streamable

module _ {Pems Pool : Type 0} (read_file : String → Result String Pems)
    (append_certs : Pems → Option Pool) (format : ℕ → String) (disk : Disk) where
  -- over TLS if there is a certificate
  unfoldable pub listen : Flags → Paths → Result String (Serving Pool)
  unfolding serve_tls
  listen f handler = if is_empty f.tls_crt then ok (plain f.host_port handler) else (do
    server ←
        serve_tls read_file append_certs format disk handler f.host_port f.ca_file f.tls_crt
          f.tls_key
    ok (over_tls server))

  -- the end of `main`, given the handler that the transport has over HTTP
  unfoldable pub serve : Flags → Paths → Result String (Serving Pool)
  unfolding listen serve_http
  serve f handler = if serve_http f then listen f handler else ok stdio
