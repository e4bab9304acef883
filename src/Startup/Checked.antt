-- ===== src/Startup/Checked.antt =====
-- The configurations that `main` accepts.
use text.Mathlib.TextLemmas.{append-eq-nil_iff}
use grpcmcp.Base.{
  ℕ, String, ◌≡◌, ◌≢◌, ◌↔◌, ◌⊎◌, refl, sym, ap, ◌∙◌, inl, inr, Bool, true, false, ◌||◌, Option,
  none, some, List, [], ◌∷◌, arith, length, ◌==◌, eq_iff, if◌then◌else◌,
}
use grpcmcp.Base.Int.{pos, ◌<ℤ◌}
use grpcmcp.Base.Texts.{◌⧺◌}
use grpcmcp.Base.Results.{Result, ok, err}
use grpcmcp.Header.{Header, get, set}
use grpcmcp.Header.Laws.{get-set_same}
use grpcmcp.Forward.{Heap, load, headers_provider, check_collisions}
use grpcmcp.Forward.Outbound.{trusted_headers}
use grpcmcp.Startup.{
  Flags, bad_transport, is_empty, has_names, serve_http, check_transport, check_flags, add_bearer,
  Settings, configure, parse_method_option,
}

-- the conditions on the flags alone, with the transport that is used
pub record IsValid (f : Flags) (t : String) : Type 0 where
  pub interval : pos 0 <ℤ f.refresh_interval
  pub over_http :
      f.host_port ≢ ""
      → ((t ≡ "http") × ((f.transport ≡ "http") ⊎ (f.transport ≡ "streamable-http")))
        ⊎ ((t ≡ "sse") × (f.transport ≡ "sse"))
  pub over_stdio : f.host_port ≡ "" → t ≡ f.transport
  pub tls_pair : (f.tls_crt ≡ "") ↔ (f.tls_key ≡ "")
  pub ca_file : f.ca_file ≢ "" → f.tls_crt ≢ ""
  pub tls_served : f.tls_crt ≢ "" → f.host_port ≢ ""
  pub identity_forwarded : f.forward_operator_identity ≡ true → f.host_port ≢ ""
  pub headers_forwarded : f.forward_header_names ≢ [] → f.host_port ≢ ""

has_names_lem : (ns : List String) → ns ≢ [] → has_names ns ≡ true
has_names_lem [] h = absurd (h refl)
has_names_lem (n ∷ ns) h = refl

transport_of : (f : Flags) (t : String) → check_flags f ≡ ok t → check_transport f ≡ ok t
unfolding check_flags
transport_of f t h = ground (arith, h)

http_or_sse :
    (t u : String)
    → (if u == "http" || u == "sse" then ok u else err (bad_transport u)) ≡ ok t
    → (t ≡ u) × ((u ≡ "http") ⊎ (u ≡ "sse"))
http_or_sse t u h = ground (arith, h, eq_iff u "http", eq_iff u "sse")

transport_lem :
    (f : Flags) (t : String)
    → check_transport f ≡ ok t
    → f.host_port ≢ ""
    → ((t ≡ "http") × ((f.transport ≡ "http") ⊎ (f.transport ≡ "streamable-http")))
      ⊎ ((t ≡ "sse") × (f.transport ≡ "sse"))
unfolding check_transport serve_http
transport_lem f t h http = go (f.transport == "streamable-http") refl (
    http_or_sse t (if f.transport == "streamable-http" then "http" else f.transport)
      (simp (ne, if◌then◌else◌) at h))
  where
    ne : is_empty f.host_port ≡ false
    ne = ground (arith, eq_iff f.host_port "")

    sse_http : ◌≢◌ {A = String} "http" "sse"
    sse_http = ground (arith, eq_iff "http" "sse")

    go :
        (b : Bool)
        → (f.transport == "streamable-http") ≡ b
        → (t ≡ (if b then "http" else f.transport))
          × (((if b then "http" else f.transport) ≡ "http")
              ⊎ ((if b then "http" else f.transport) ≡ "sse"))
        → ((t ≡ "http") × ((f.transport ≡ "http") ⊎ (f.transport ≡ "streamable-http")))
          ⊎ ((t ≡ "sse") × (f.transport ≡ "sse"))
    go true e (p, q) = inl (p, inr ((eq_iff f.transport "streamable-http").0 e))
    go false e (p, inl q) = inl (p ∙ q, inl q)
    go false e (p, inr q) = inr (p ∙ q, q)

check_flags-IsValid : (f : Flags) (t : String) → check_flags f ≡ ok t → IsValid f t
unfolding check_flags check_transport serve_http
check_flags-IsValid f t h = record {
  interval = ground (arith, h);
  over_http = transport_lem f t (transport_of f t h);
  over_stdio = ground (arith, h, eq_iff f.host_port "");
  tls_pair = ground (arith, h, eq_iff f.tls_crt "", eq_iff f.tls_key "");
  ca_file = ground (arith, h, eq_iff f.ca_file "", eq_iff f.tls_crt "");
  tls_served = ground (arith, h, eq_iff f.tls_crt "", eq_iff f.host_port "");
  identity_forwarded = ground (arith, h, eq_iff f.host_port "");
  headers_forwarded = λ some_name.
      ground (arith, h, eq_iff f.host_port "", has_names_lem f.forward_header_names some_name);
}

pub bearer_non_empty : (token : String) → "Bearer " ⧺ token ≢ ""
bearer_non_empty token h = prefix (append-eq-nil_iff.0 h).0
  where
    prefix : ◌≢◌ {A = String} "Bearer " ""
    prefix = ground (arith, eq_iff "Bearer " "")

module _ {C : Type 0} (parse_uint : ℕ → String → Result String ℕ) (f : Flags)
    (backend : Result String (Option C)) (look_up_env : String → Option String)
    (flag_headers : Header) where
  -- every condition of the start
  pub record IsAccepted (s : Settings C) : Type 0 where
    pub flags : IsValid f s.transport
    pub option :
        parse_method_option parse_uint f.require_method_option
        ≡ ok (s.option_field, s.option_values)
    pub bearer : add_bearer f look_up_env flag_headers ≡ ok s.headers
    pub no_collision :
        check_collisions s.headers f.forward_header_names f.forward_operator_identity ≡ none
    pub source : (f.descriptors ≢ "") ⊎ (f.reflect ≡ true)

  -- A start that is accepted had a positive refresh interval, a known transport where it serves
  -- HTTP, the TLS flags in pairs and only with a host and port, forwarding flags only with these, a
  -- method option that parses, the bearer token in the headers where one was asked for, no forwarded
  -- name among these headers, and descriptors from a file or by reflection.
  pub configure-IsAccepted :
      (s : Settings C)
      → configure parse_uint f backend look_up_env flag_headers ≡ ok s
      → IsAccepted s
  unfolding configure
  configure-IsAccepted s h = record {
    flags = check_flags-IsValid f s.transport (ground (arith, h));
    option = ground (arith, h);
    bearer = ground (arith, h);
    no_collision = ground (arith, h);
    source = ground (arith, h, eq_iff f.descriptors "");
  }

  pub bearer-get :
      (s : Settings C) (token : String)
      → f.bearer_env ≢ ""
      → look_up_env f.bearer_env ≡ some token
      → add_bearer f look_up_env flag_headers ≡ ok s.headers
      → get s.headers "Authorization" ≡ "Bearer " ⧺ token
  unfolding add_bearer
  bearer-get s token named found h =
      let set_headers : s.headers ≡ set flag_headers "Authorization" ("Bearer " ⧺ token) =
        ground (arith, h, found, eq_iff f.bearer_env "", eq_iff token "") in
      ap (λ l. get l "Authorization") set_headers
      ∙ get-set_same flag_headers "Authorization" ("Bearer " ⧺ token)

  -- If the start is accepted with the bearer token of a named variable, then every call to the
  -- backend carries `Authorization: Bearer` and the token, whatever an inbound request says, and
  -- whichever headers are forwarded.
  pub bearer_reaches_backend :
      (s : Settings C) (token : String) (p : ℕ) (inbound : Header) (heap : Heap)
      → f.bearer_env ≢ ""
      → look_up_env f.bearer_env ≡ some token
      → configure parse_uint f backend look_up_env flag_headers ≡ ok s
      → load heap p ≡ s.headers
      → get
          (load
            (headers_provider p f.forward_operator_identity f.forward_header_names inbound heap).0
            (length heap))
          "Authorization"
        ≡ "Bearer " ⧺ token
  bearer_reaches_backend s token p inbound heap named found accepted held =
      let a = configure-IsAccepted s accepted in
      let bearer = ap (λ h. get h "Authorization") held ∙ bearer-get s token named found a.bearer in
      trusted_headers p f.forward_operator_identity f.forward_header_names inbound heap
        "Authorization"
        (ap (λ h. check_collisions h f.forward_header_names f.forward_operator_identity) held
          ∙ a.no_collision)
        (λ empty. bearer_non_empty token (sym bearer ∙ empty))
      ∙ bearer
