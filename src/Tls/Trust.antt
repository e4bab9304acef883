-- ===== src/Tls/Trust.antt =====
-- Whom the server and the client of the backend verify. Verification itself, `verify`, is that of
-- crypto/x509: against the roots of a pool, or those of the system if there is none.
use Prim.Native.String.{String}
use grpcmcp.Base.{
  is_some, ℕ, ◌≡◌, refl, sym, ap, ◌∙◌, Bool, true, false, not, ◌&&◌, ◌||◌, Option, none, some, List,
  arith, ◌==◌, if◌then◌else◌,
}
use grpcmcp.Base.Results.{Result, ok, err, ◌>>=◌, bind-eq-ok}
use grpcmcp.Cert.{Disk, Reloader, new_cert_reloader}
use grpcmcp.Tls.{
  no_client_cert, require_and_verify_client_cert, Config, HttpServer, HttpClient,
  cert_pool_from_file, server_tls_config, serve_tls, with_roots, with_client_certificate,
  backend_tls_client, empty_config,
}

-- what crypto/tls documents of a server: whether the handshake with a client goes on that presents
-- this certificate, or none
abbrev pub admits :
    {Pool Cert : Type 0} → (Option Pool → Cert → Bool) → Config Pool → Option Cert → Bool
admits verify cfg presented = elim cfg.client_auth [
  | no_client_cert ↦ true
  | require_and_verify_client_cert ↦ elim presented [
    | none ↦ false
    | some c ↦ verify cfg.client_cas c
  ]
]

-- the policy of the options: without a CA file any client, else one that its roots verify
abbrev pub verified_by :
    {Pool Cert : Type 0} → (Option Pool → Cert → Bool) → Result String Pool → Option Cert → Bool
verified_by verify (err e) presented = false
verified_by verify (ok pool) none = false
verified_by verify (ok pool) (some c) = verify (some pool) c

module _ {Pool Cert : Type 0} (verify : Option Pool → Cert → Bool) (presented : Option Cert) where
  abbrev admits_of : {Handler : Type 0} → Result String (HttpServer Pool Handler) → Bool
  admits_of (ok server) = admits verify server.tls_config presented
  admits_of (err e) = true

  abbrev admits_with : Option Reloader → Result String (Config Pool) → Bool
  admits_with reloader (ok cfg) =
      admits verify (record cfg { get_certificate = reloader }) presented
  admits_with reloader (err e) = true

  config-policy :
      (pool : Result String Pool) (any_client : Bool) (cfg : Config Pool)
      (reloader : Option Reloader)
      → (if any_client
          then ok empty_config
          else pool >>= λ p. ok (record empty_config {
            client_cas = some p;
            client_auth = require_and_verify_client_cert;
          }))
        ≡ ok cfg
      → admits verify (record cfg { get_certificate = reloader }) presented
        ≡ (if any_client then true else verified_by verify pool presented)
  config-policy pool true cfg reloader h = sym (ap (admits_with reloader) h)
  config-policy (err e) false cfg reloader h = ground arith
  config-policy (ok p) false cfg reloader h =
      sym (ap (admits_with reloader) h) ∙ required p presented
    where
      required :
          (p : Pool) (c : Option Cert)
          → admits verify
              (record empty_config {
                client_cas = some p;
                client_auth = require_and_verify_client_cert;
                get_certificate = reloader;
              })
              c
            ≡ verified_by verify (ok p) c
      required p none = refl
      required p (some c) = refl

module _ {Pems Pool Handler Cert : Type 0} (read_file : String → Result String Pems)
    (append_certs : Pems → Option Pool) (format : ℕ → String) (disk : Disk)
    (verify : Option Pool → Cert → Bool) where
  -- A server that listens admits exactly the clients of its policy: all without a CA file, and with one
  -- those that present a certificate which the roots of that file verify.
  pub serve_tls-admits :
      (handler : Handler) (addr ca_file cert_file key_file : String)
      (server : HttpServer Pool Handler)
      → serve_tls read_file append_certs format disk handler addr ca_file cert_file key_file
        ≡ ok server
      → (presented : Option Cert)
      → admits verify server.tls_config presented ≡ (
          if ca_file == ""
          then true
          else verified_by verify (cert_pool_from_file read_file append_certs ca_file) presented)
  unfolding serve_tls server_tls_config
  serve_tls-admits handler addr ca_file cert_file key_file server h presented =
      let (cfg, made_cfg, next) =
        bind-eq-ok (server_tls_config read_file append_certs ca_file) _ h in
      let ((reloader, log), loaded, last) =
        bind-eq-ok (new_cert_reloader format cert_file key_file disk) _ next in
      sym (ap (admits_of verify presented) last)
      ∙ config-policy verify presented (cert_pool_from_file read_file append_certs ca_file)
          (ca_file == "") cfg (some reloader) made_cfg

module _ {Pool : Type 0} where
  abbrev cfg_of : Result String (Config Pool) → Config Pool
  cfg_of (ok cfg) = cfg
  cfg_of (err e) = empty_config

  roots-set :
      (pool : Result String Pool) (none_given : Bool) (cfg : Config Pool)
      → (if none_given
          then ok empty_config
          else pool >>= λ p. ok (record empty_config { root_cas = some p }))
        ≡ ok cfg
      → (is_some cfg.root_cas ≡ not none_given) × (cfg.get_client_certificate ≡ none)
  roots-set pool true cfg h = (
    sym (ap (λ r. is_some (cfg_of r).root_cas) h),
    sym (ap (λ r. (cfg_of r).get_client_certificate) h),
  )
  roots-set (ok p) false cfg h = (
    sym (ap (λ r. is_some (cfg_of r).root_cas) h),
    sym (ap (λ r. (cfg_of r).get_client_certificate) h),
  )
  roots-set (err e) false cfg h = ground arith

  -- what `with_client_certificate` sets
  certificate-set :
      (loaded : Result String (Reloader × List String)) (no_cert no_key : Bool)
      (cfg full : Config Pool) (message : String)
      → cfg.get_client_certificate ≡ none
      → (if no_cert && no_key
          then ok cfg
          else if no_cert || no_key
          then err message
          else loaded >>= λ (reloader, log).
              ok (record cfg { get_client_certificate = some reloader }))
        ≡ ok full
      → (full.root_cas ≡ cfg.root_cas)
        × (is_some full.get_client_certificate ≡ not no_cert)
        × (no_cert ≡ no_key)
  certificate-set loaded true true cfg full message bare h = (
    sym (ap (λ r. (cfg_of r).root_cas) h),
    sym (ap (λ r. is_some (cfg_of r).get_client_certificate) h) ∙ ap is_some bare,
    refl,
  )
  certificate-set loaded true false cfg full message bare h = ground arith
  certificate-set loaded false true cfg full message bare h = ground arith
  certificate-set (err e) false false cfg full message bare h = ground arith
  certificate-set (ok (reloader, log)) false false cfg full message bare h = (
    sym (ap (λ r. (cfg_of r).root_cas) h),
    sym (ap (λ r. is_some (cfg_of r).get_client_certificate) h),
    refl,
  )

  abbrev config_of : Result String (Option (HttpClient Pool)) → Config Pool
  config_of (ok (some client)) = client.tls_client_config
  config_of _ = empty_config

  abbrev forces_http2 : Result String (Option (HttpClient Pool)) → Bool
  forces_http2 (ok (some client)) = client.force_attempt_http2
  forces_http2 _ = true

  client-built :
      (none_given : Bool) (cfgs : Result String (Config Pool))
      (complete : Config Pool → Result String (Config Pool)) (client : HttpClient Pool)
      → (if none_given
          then ok none
          else cfgs >>= λ cfg. complete cfg >>= λ full.
              ok (some (record { tls_client_config = full; force_attempt_http2 = true })))
        ≡ ok (some client)
      → (cfg full : Config Pool) × (cfgs ≡ ok cfg)
        × (complete cfg ≡ ok full)
        × (full ≡ client.tls_client_config)
        × (client.force_attempt_http2 ≡ true)
  client-built true cfgs complete client h = ground arith
  client-built false cfgs complete client h =
      let (cfg, first, next) = bind-eq-ok cfgs _ h in
      let (full, second, last) = bind-eq-ok (complete cfg) _ next in
      (cfg, full, first, second, ap config_of last, sym (ap forces_http2 last))

module _ {Pems Pool : Type 0} (read_file : String → Result String Pems)
    (append_certs : Pems → Option Pool) (format : ℕ → String) (disk : Disk) where
  -- A client for the backend verifies it against the roots of a CA file exactly if one is given,
  -- presents a certificate exactly if the two files for it are given, of which it never has one alone,
  -- and asks for HTTP/2.
  pub backend_tls_client-sets :
      (ca_file cert_file key_file : String) (client : HttpClient Pool)
      → backend_tls_client read_file append_certs format disk ca_file cert_file key_file
        ≡ ok (some client)
      → (is_some client.tls_client_config.root_cas ≡ not (ca_file == ""))
        × (is_some client.tls_client_config.get_client_certificate ≡ not (cert_file == ""))
        × ((cert_file == "") ≡ (key_file == ""))
        × (client.force_attempt_http2 ≡ true)
  unfolding backend_tls_client with_roots with_client_certificate
  backend_tls_client-sets ca_file cert_file key_file client h =
      let (cfg, full, with_ca, with_cert, same, http2) =
        client-built (ca_file == "" && cert_file == "" && key_file == "")
          (with_roots read_file append_certs ca_file empty_config)
          (with_client_certificate format disk cert_file key_file) client h in
      let (roots, bare) =
        roots-set (cert_pool_from_file read_file append_certs ca_file) (ca_file == "") cfg
          with_ca in
      let (kept, certificate, pair) =
        certificate-set (new_cert_reloader format cert_file key_file disk) (cert_file == "")
          (key_file == "") cfg full _ bare with_cert in
      (
        ap (λ c. is_some c.root_cas) (sym same) ∙ ap is_some kept ∙ roots,
        ap (λ c. is_some c.get_client_certificate) (sym same) ∙ certificate,
        pair,
        http2,
      )
