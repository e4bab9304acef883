-- ===== src/Gate.antt =====
-- origin.go: the two checks in front of every HTTP handler. The JSON body of an error is kept as its
-- members; `id` is always null.
pub mod Passing
mod Examples
use Prim.Native.Nat.{ℕ}
use Prim.Native.String
use grpcmcp.Base.{
  String, Bool, not, ◌&&◌, Option, none, some, List, [], ◌∷◌, contains, lookup, ◌==◌, if◌then◌else◌,
}
use grpcmcp.Base.Texts.{◌⧺◌, join}
use grpcmcp.Header.{Header, canonical, get}

pub record Request : Type 0 where
  pub header : Header
  pub body : String

-- a JSON-RPC error: the code is negative, and `minus_code` is its absolute value
pub record RpcError : Type 0 where
  pub minus_code : ℕ
  pub message : String

pub data Body : Type 0 where
  rpc_error : RpcError → Body
  other : String → Body

pub record Response : Type 0 where
  pub status : ℕ
  pub content_type : String
  pub body : Body

-- http.Handler
abbrev pub Handler : Type 0
Handler = Request → Response

-- `writeJSONRPCError`
pub json_rpc_error : ℕ → ℕ → String → Response
json_rpc_error status minus_code message = record {
  status = status;
  content_type = "application/json";
  body = rpc_error (record { minus_code = minus_code; message = message });
}

abbrev pub is_found {ℓ} : {A : Type ℓ} → Option A → Bool
is_found none = Bool.false
is_found (some a) = Bool.true

unfoldable pub reject_browser_origin : Handler → Handler
reject_browser_origin next r =
    if is_found (lookup (canonical "Origin") r.header)
    then json_rpc_error 403 32600 "Origin not allowed"
    else next r

-- `valid` is mcp.ValidProtocolVersions, `quote` is the verb %q.
module _ (valid : List String) (quote : String → String) where
  pub unsupported_message : String → String
  unsupported_message version =
      "Unsupported protocol version " ⧺ quote version ⧺ ": this server supports " ⧺ join ", " valid

  unfoldable pub reject_unsupported_protocol_version : Handler → Handler
  unfolding unsupported_message
  reject_unsupported_protocol_version next r =
      let version = get r.header "Mcp-Protocol-Version" in
      if not (version == "") && not (contains valid version)
      then json_rpc_error 400 32600 (unsupported_message version)
      else next r

  -- the handler that `main` serves under both HTTP transports
  unfoldable pub gate : Handler → Handler
  gate next = reject_browser_origin (reject_unsupported_protocol_version next)
