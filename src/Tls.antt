-- ===== src/Tls.antt =====
-- tls.go: the TLS configurations of the server and of the client of the backend (`certPoolFromFile`,
-- `serverTLSConfig`, `serveTLS`, `backendTLSClient`). Reading a file and building a pool from PEM text
-- are arguments; the certificate reloader is that of Cert, on what the disk answers at the start.
pub mod Trust
mod Examples
use Prim.Native.String.{String}
use grpcmcp.Base.{
  ℕ, Bool, true, false, not, ◌&&◌, ◌||◌, Option, none, some, List, [], ◌∷◌, ◌==◌, if◌then◌else◌,
}
use grpcmcp.Base.Texts.{◌⧺◌}
use grpcmcp.Base.Results.{Result, ok, err, ◌>>=◌}
use grpcmcp.Cert.{Disk, Reloader, new_cert_reloader}

-- tls.ClientAuthType
pub data ClientAuth : Type 0 where
  no_client_cert require_and_verify_client_cert : ClientAuth

-- The fields of tls.Config that the program sets, `Pool` being x509.CertPool: `none` is a nil pool or
-- a function that is not set.
pub record Config (Pool : Type 0) : Type 0 where
  pub root_cas : Option Pool
  pub client_cas : Option Pool
  pub client_auth : ClientAuth
  pub get_certificate : Option Reloader
  pub get_client_certificate : Option Reloader

abbrev pub empty_config : {Pool : Type 0} → Config Pool
empty_config = record {
  root_cas = none;
  client_cas = none;
  client_auth = no_client_cert;
  get_certificate = none;
  get_client_certificate = none;
}

-- http.Server, and a client with a clone of the default transport but for these fields
pub record HttpServer (Pool Handler : Type 0) : Type 0 where
  pub addr : String
  pub handler : Handler
  pub tls_config : Config Pool

pub record HttpClient (Pool : Type 0) : Type 0 where
  pub tls_client_config : Config Pool
  pub force_attempt_http2 : Bool

module _ {Pems Pool : Type 0} (read_file : String → Result String Pems)
    (append_certs : Pems → Option Pool) where
  abbrev pool_of : String → Result String Pems → Result String Pool
  pool_of path (err e) = err ("read CA file \"" ⧺ path ⧺ "\": " ⧺ e)
  pool_of path (ok pems) = elim (append_certs pems) [
    | none ↦ err ("no certificates found in CA file \"" ⧺ path ⧺ "\"")
    | some pool ↦ ok pool
  ]

  -- `%q` of a path without characters to escape
  unfoldable pub cert_pool_from_file : String → Result String Pool
  cert_pool_from_file path = pool_of path (read_file path)

  unfoldable pub server_tls_config : String → Result String (Config Pool)
  unfolding cert_pool_from_file
  server_tls_config ca_file = if ca_file == "" then ok empty_config else (do
    pool ← cert_pool_from_file ca_file
    ok (record empty_config {
      client_cas = some pool;
      client_auth = require_and_verify_client_cert;
    }))

  unfoldable pub with_roots : String → Config Pool → Result String (Config Pool)
  unfolding cert_pool_from_file
  with_roots ca_file cfg =
      if ca_file == ""
      then ok cfg
      else (do pool ← cert_pool_from_file ca_file; ok (record cfg { root_cas = some pool }))

module _ {Pool : Type 0} (format : ℕ → String) (disk : Disk) where
  unfoldable pub with_client_certificate :
      String → String → Config Pool → Result String (Config Pool)
  with_client_certificate cert_file key_file cfg =
      if cert_file == "" && key_file == ""
      then ok cfg
      else if cert_file == "" || key_file == ""
      then err "backend client certificate needs both -client-tls-crt and -client-tls-key"
      else (do
        (reloader, log) ← new_cert_reloader format cert_file key_file disk
        ok (record cfg { get_client_certificate = some reloader }))

module _ {Pems Pool : Type 0} (read_file : String → Result String Pems)
    (append_certs : Pems → Option Pool) (format : ℕ → String) (disk : Disk) where
  -- The server that listens with `ListenAndServeTLS("", "")`, or the error before it does.
  unfoldable pub serve_tls :
      {Handler : Type 0}
      → Handler
      → String
      → String
      → String
      → String
      → Result String (HttpServer Pool Handler)
  unfolding server_tls_config
  serve_tls handler addr ca_file cert_file key_file = do
    cfg ← server_tls_config read_file append_certs ca_file
    (reloader, log) ← new_cert_reloader format cert_file key_file disk
    ok (record {
      addr = addr;
      handler = handler;
      tls_config = record cfg { get_certificate = some reloader };
    })

  -- `none` is the nil client, for which the caller keeps its default
  unfoldable pub backend_tls_client :
      String → String → String → Result String (Option (HttpClient Pool))
  unfolding with_roots with_client_certificate
  backend_tls_client ca_file cert_file key_file =
      if ca_file == "" && cert_file == "" && key_file == "" then ok none else (do
        cfg ← with_roots read_file append_certs ca_file empty_config
        full ← with_client_certificate format disk cert_file key_file cfg
        ok (some (record { tls_client_config = full; force_attempt_http2 = true })))
