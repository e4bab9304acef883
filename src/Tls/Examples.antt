-- ===== src/Tls/Examples.antt =====
-- TLS options with one CA file, whose pool is its text.
use Prim.Native.String.{String}
use grpcmcp.Base.{ℕ, ◌≡◌, refl, Bool, true, false, Option, none, some, ◌==◌, if◌then◌else◌}
use grpcmcp.Base.Results.{Result, ok, err}
use grpcmcp.Cert.{Disk, Reloader, new_cert_reloader, with_leaf}
use grpcmcp.Tls.{
  HttpServer, HttpClient, require_and_verify_client_cert, serve_tls, backend_tls_client,
  empty_config, cert_pool_from_file,
}
use grpcmcp.Tls.Trust.{admits, verified_by, serve_tls-admits}

abbrev read : String → Result String String
read path = if path == "ca.pem" then ok "ours" else err "no such file"

abbrev no_time : ℕ → String
no_time t = ""

abbrev both_files : Disk
both_files = record {
  cert_stat = some 1;
  key_stat = some 1;
  key_pair = ok (record { first = "leaf"; leaf = some 100 });
  parse_leaf = err "";
  now = 5;
}

-- a client's certificate is the name of what signed it
abbrev signed : Option String → String → Bool
signed none c = false
signed (some roots) c = roots == c

abbrev loaded : Reloader
loaded = record {
  cert_file = "tls.crt";
  key_file = "tls.key";
  cert = some (record { der = "leaf"; not_after = 100 });
  cert_mod = 1;
  key_mod = 1;
  last_failure = "";
}

abbrev server : HttpServer String ℕ
server = record {
  addr = "localhost:80";
  handler = 0;
  tls_config = record empty_config {
    client_cas = some "ours";
    client_auth = require_and_verify_client_cert;
    get_certificate = some loaded;
  };
}

serving :
    serve_tls read some no_time both_files 0 "localhost:80" "ca.pem" "tls.crt" "tls.key" ≡ ok server
unfolding serve_tls new_cert_reloader with_leaf
serving = refl

serve_tls-admits_example : admits signed server.tls_config (some "theirs") ≡ (
    if "ca.pem" == ""
    then true
    else verified_by signed (cert_pool_from_file read some "ca.pem") (some "theirs"))
serve_tls-admits_example =
    serve_tls-admits read some no_time both_files signed 0 "localhost:80" "ca.pem" "tls.crt"
      "tls.key" server serving (some "theirs")

abbrev client : HttpClient String
client = record {
  tls_client_config = record empty_config {
    root_cas = some "ours";
    get_client_certificate = some loaded;
  };
  force_attempt_http2 = true;
}

dialing :
    backend_tls_client read some no_time both_files "ca.pem" "tls.crt" "tls.key" ≡ ok (some client)
unfolding backend_tls_client new_cert_reloader with_leaf
dialing = refl
