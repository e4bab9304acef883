-- ===== src/Startup/Examples.antt =====
-- A start with a bearer token, and texts of flags.
use grpcmcp.Base.{ℕ, String, true, false, Option, none, some, [], ◌∷◌}
use grpcmcp.Base.Int.{pos}
use grpcmcp.Base.Results.{Result, ok}
use grpcmcp.Startup.{Flags, Settings}

abbrev flags : Flags
flags = record {
  refresh_interval = pos 300;
  host_port = "localhost:80";
  transport = "streamable-http";
  tls_crt = "";
  tls_key = "";
  ca_file = "";
  forward_operator_identity = true;
  forward_header_names = [];
  base_url = "http://b";
  require_method_option = "";
  bearer_env = "TOKEN";
  descriptors = "";
  reflect = true;
  server_name = "gRPC MCP Server";
  server_version = "1.0.0";
  instructions = "";
  services = "";
  description_method_option = 0;
  use_connect = false;
  string64 = false;
}

abbrev digit : ℕ → String → Result String ℕ
digit w s = ok 7

abbrev environment : String → Option String
environment name = some "t"

abbrev backend : Result String (Option String)
backend = ok none

abbrev settings : Settings String
settings = record {
  transport = "http";
  backend_tls = none;
  option_field = 0;
  option_values = [];
  headers = ("Authorization", "Bearer t" ∷ []) ∷ [];
}
