-- ===== src/Launch/Guarded.antt =====
-- Whom a start that is accepted serves, and which requests reach the MCP server.
use Prim.Native.String.{String}
use grpcmcp.Base.{
  ℕ, ◌≡◌, ◌≢◌, refl, sym, ap, ◌∙◌, ◌⊎◌, inl, inr, Bool, Bool-cases, true, false, not, Option, List,
  arith, ◌==◌, eq_iff, if◌then◌else◌,
}
use grpcmcp.Base.Results.{Result, ok, err, bind-eq-ok}
use grpcmcp.Cert.{Disk}
use grpcmcp.Header.{Header}
use grpcmcp.Gate.{Request, Handler}
use grpcmcp.Gate.Passing.{IsAdmitted, reached-IsAdmitted}
use grpcmcp.Startup.{Flags, Settings, serve_http, is_empty, configure}
use grpcmcp.Startup.Checked.{configure-IsAccepted}
use grpcmcp.Tls.{HttpServer, serve_tls, cert_pool_from_file}
use grpcmcp.Tls.Trust.{admits, verified_by, serve_tls-admits}
use grpcmcp.Launch.{
  Paths, Serving, over_tls, use_sse, streamable_endpoint_path, sse_handler, streamable_handler,
  handler_of, listen, serve,
}

module _ (valid : List String) (quote : String → String) (not_found : Handler) where
  -- A request that the MCP server can answer, under either HTTP transport, has no Origin header and a
  -- protocol version that is absent or supported, and is on the endpoint path unless the transport is
  -- SSE.
  pub handler_of-guarded :
      (f : Flags) (transport : String) (sse other_sse : Paths) (streamable other : Handler)
      (path : String) (r : Request)
      → handler_of valid quote not_found f transport sse streamable path r
        ≢ handler_of valid quote not_found f transport other_sse other path r
      → IsAdmitted valid quote r
        × ((use_sse f transport ≡ true) ⊎ (path ≡ streamable_endpoint_path))
  unfolding handler_of sse_handler streamable_handler
  handler_of-guarded f transport sse other_sse streamable other path r differ =
      elim (Bool-cases (use_sse f transport)) [
        | inl with_sse ↦ (
          reached-IsAdmitted valid quote (sse path) (other_sse path) r
              (λ same. differ (ground (arith, with_sse, same))),
          inl with_sse,
        )
        | inr without ↦ elim (Bool-cases (path == streamable_endpoint_path)) [
          | inl on_path ↦ (
            reached-IsAdmitted valid quote streamable other r
                (λ same. differ (ground (arith, without, on_path, same))),
            inr ((eq_iff path streamable_endpoint_path).0 on_path),
          )
          | inr elsewhere ↦ absurd (differ (ground (arith, without, elsewhere)))
        ]
      ]

not_empty : (s : String) → s ≢ "" → is_empty s ≡ false
not_empty s some_text = elim (Bool-cases (is_empty s)) [
  | inl empty ↦ absurd (some_text ((eq_iff s "").0 empty))
  | inr e ↦ e
]

module _ {ℓ} {A : Type ℓ} where
  then_of : (b : Bool) (x y : A) {z : A} → b ≡ true → (if b then x else y) ≡ z → x ≡ z
  then_of true x y e h = h
  then_of false x y e h = ground arith

  else_of : (b : Bool) (x y : A) {z : A} → b ≡ false → (if b then x else y) ≡ z → y ≡ z
  else_of true x y e h = ground arith
  else_of false x y e h = h

abbrev serving_of : {Pool : Type 0} → Serving Pool → Result String (Serving Pool) → Serving Pool
serving_of old (ok serving) = serving
serving_of old (err e) = old

module _ {Pems Pool Cert C : Type 0} (read_file : String → Result String Pems)
    (append_certs : Pems → Option Pool) (format : ℕ → String) (disk : Disk)
    (verify : Option Pool → Cert → Bool) (parse_uint : ℕ → String → Result String ℕ) where
  -- An accepted start with a CA file serves over TLS, if it serves at all, and admits exactly the
  -- clients that present a certificate which the roots of that file verify.
  pub serve-verified :
      (f : Flags) (backend : Result String (Option C)) (look_up_env : String → Option String)
      (flag_headers : Header) (s : Settings C) (handler : Paths) (serving : Serving Pool)
      → configure parse_uint f backend look_up_env flag_headers ≡ ok s
      → f.ca_file ≢ ""
      → serve read_file append_certs format disk f handler ≡ ok serving
      → (server : HttpServer Pool Paths) × (serving ≡ over_tls server)
        × ((presented : Option Cert)
            → admits verify server.tls_config presented
              ≡ verified_by verify (cert_pool_from_file read_file append_certs f.ca_file) presented)
  unfolding serve listen serve_http
  serve-verified f backend look_up_env flag_headers s handler serving accepted ca_file served =
      let valid =
        (configure-IsAccepted parse_uint f backend look_up_env flag_headers s accepted).flags in
      let with_crt = not_empty f.tls_crt (valid.ca_file ca_file) in
      let over_http = not_empty f.host_port (valid.tls_served (valid.ca_file ca_file)) in
      let (server, made_server, last) =
        bind-eq-ok
          (serve_tls read_file append_certs format disk handler f.host_port f.ca_file f.tls_crt
            f.tls_key)
          (λ server. ok (over_tls server))
          (else_of (is_empty f.tls_crt) _ _ with_crt
            (then_of (serve_http f) _ _ (ap not over_http) served)) in
      (
        server,
        sym (ap (serving_of serving) last),
        λ presented.
            serve_tls-admits read_file append_certs format disk verify handler f.host_port f.ca_file
              f.tls_crt f.tls_key server made_server presented
            ∙ with_file (f.ca_file == "") (not_empty f.ca_file ca_file),
      )
    where
      with_file : (b : Bool) {x : Bool} → b ≡ false → (if b then true else x) ≡ x
      with_file true h = ground arith
      with_file false h = refl
