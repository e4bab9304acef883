-- ===== src/Launch/Examples.antt =====
-- A start with a CA file, over SSE.
use Prim.Native.String.{String}
use grpcmcp.Base.{
  ℕ, ◌≡◌, ◌≢◌, refl, ap, ◌⊎◌, Bool, true, false, Option, none, some, [], arith, ◌==◌, eq_iff,
  lookup, if◌then◌else◌,
}
use grpcmcp.Base.Int.{pos}
use grpcmcp.Base.Results.{Result, ok, err}
use grpcmcp.Cert.{Disk, new_cert_reloader, with_leaf}
use grpcmcp.Gate.{
  gate, reject_browser_origin, reject_unsupported_protocol_version, Request, Response, Handler,
  other,
}
use grpcmcp.Gate.Passing.{IsAdmitted}
use grpcmcp.Startup.{Flags, Settings, configure, check_flags}
use grpcmcp.Forward.{check_collisions}
use grpcmcp.Header.{canonical, get}
use grpcmcp.Tls.{HttpServer, require_and_verify_client_cert, empty_config, cert_pool_from_file}
use grpcmcp.Tls.Trust.{admits, verified_by}
use grpcmcp.Launch.{
  Paths, over_tls, use_sse, streamable_endpoint_path, handler_of, serve, list_changed,
}
use grpcmcp.Launch.Guarded.{handler_of-guarded, serve-verified}

abbrev flags : Flags
flags = record {
  refresh_interval = pos 300;
  host_port = "localhost:80";
  transport = "sse";
  tls_crt = "tls.crt";
  tls_key = "tls.key";
  ca_file = "ca.pem";
  forward_operator_identity = false;
  forward_header_names = [];
  base_url = "http://b";
  require_method_option = "";
  bearer_env = "";
  descriptors = "";
  reflect = true;
  server_name = "gRPC MCP Server";
  server_version = "1.0.0";
  instructions = "";
  services = "";
  description_method_option = 0;
  use_connect = false;
  string64 = false;
}

abbrev seven : ℕ → String → Result String ℕ
seven w s = ok 7

abbrev no_variable : String → Option String
no_variable name = none

abbrev settings : Settings String
settings = record {
  transport = "sse";
  backend_tls = none;
  option_field = 0;
  option_values = [];
  headers = [];
}

accepted : configure seven flags (ok none) no_variable [] ≡ ok settings
unfolding configure check_flags check_collisions
accepted = refl

abbrev read : String → Result String String
read path = if path == "ca.pem" then ok "ours" else err "no such file"

abbrev no_time : ℕ → String
no_time t = ""

abbrev both_files : Disk
both_files = record {
  cert_stat = some 1;
  key_stat = some 1;
  key_pair = ok (record { first = "leaf"; leaf = some 100 });
  parse_leaf = err "";
  now = 5;
}

abbrev signed : Option String → String → Bool
signed none c = false
signed (some roots) c = roots == c

abbrev answer : String → Response
answer s = record { status = 200; content_type = "text/plain"; body = other s }

abbrev paths : Paths
paths path r = answer path

abbrev server : HttpServer String Paths
server = record {
  addr = "localhost:80";
  handler = paths;
  tls_config = record empty_config {
    client_cas = some "ours";
    client_auth = require_and_verify_client_cert;
    get_certificate = some (record {
      cert_file = "tls.crt";
      key_file = "tls.key";
      cert = some (record { der = "leaf"; not_after = 100 });
      cert_mod = 1;
      key_mod = 1;
      last_failure = "";
    });
  };
}

serving : serve read some no_time both_files flags paths ≡ ok (over_tls server)
unfolding serve new_cert_reloader with_leaf
serving = refl

ca_named : flags.ca_file ≢ ""
ca_named e = ground (arith, (eq_iff "ca.pem" "").1 e)

serve-verified_example :
    (s : HttpServer String Paths) × (over_tls server ≡ over_tls s)
    × ((presented : Option String)
        → admits signed s.tls_config presented
          ≡ verified_by signed (cert_pool_from_file read some "ca.pem") presented)
serve-verified_example =
    serve-verified read some no_time both_files signed seven flags (ok none) no_variable [] settings
      paths (over_tls server) accepted ca_named serving

abbrev request : Request
request = record { header = []; body = "ping" }

abbrev not_found : Handler
not_found r = answer "404"

abbrev teapot : Paths
teapot path r = record { status = 418; content_type = "text/plain"; body = other path }

abbrev same_text : String → String
same_text s = s

differs :
    handler_of [] same_text not_found flags "sse" paths not_found "/sse" request
    ≢ handler_of [] same_text not_found flags "sse" teapot not_found "/sse" request
unfolding handler_of gate reject_browser_origin reject_unsupported_protocol_version get canonical
    lookup
differs e = omega (arith, ap (λ r. r.status) e)

handler_of-guarded_example :
    IsAdmitted [] same_text request
    × ((use_sse flags "sse" ≡ true) ⊎ ("/sse" ≡ streamable_endpoint_path))
handler_of-guarded_example =
    handler_of-guarded [] same_text not_found flags "sse" paths teapot not_found not_found "/sse"
      request differs

-- no client can be notified over streamable HTTP
quiet : list_changed flags "http" ≡ false
unfolding list_changed
quiet = refl
