-- ===== src/Startup.antt =====
-- main.go: the checks that `main` makes of its flags, in their order, before it loads descriptors;
-- `loadDescriptors` and `parseServices`. The environment, strconv.ParseUint, strings.TrimSpace and
-- the backend's TLS client (`backendTLSClient`) are parameters.
pub mod Checked
pub mod Accepted
pub mod Parsing
mod Examples
use Prim.Native.Char.{code}
use Prim.Native.String
use grpcmcp.Base.{
  ℕ, String, Char, Bool, true, false, not, ◌&&◌, ◌||◌, Option, none, some, List, [], ◌∷◌, eqb, ◌==◌,
  if◌then◌else◌,
}
use grpcmcp.Base.Int.{ℤ, pos, leb_ℤ}
use grpcmcp.Base.Texts.{◌⧺◌, has_prefix}
use grpcmcp.Base.Results.{Result, ok, err, ◌>>=◌}
use grpcmcp.Header.{Header, set}
use grpcmcp.Forward.{cut_colon, check_collisions}

pub record Flags : Type 0 where
  -- nanoseconds, and negative values parse
  pub refresh_interval : ℤ
  pub host_port : String
  pub transport : String
  pub tls_crt : String
  pub tls_key : String
  pub ca_file : String
  pub forward_operator_identity : Bool
  pub forward_header_names : List String
  pub base_url : String
  pub require_method_option : String
  pub bearer_env : String
  pub descriptors : String
  pub reflect : Bool
  pub server_name : String
  pub server_version : String
  pub instructions : String
  pub services : String
  pub description_method_option : ℕ
  pub use_connect : Bool
  pub string64 : Bool

-- why the process exits
pub data FlagError : Type 0 where
  refresh_interval_not_positive tls_pair ca_file_without_tls tls_without_hostport : FlagError
  forward_without_hostport method_option_format no_source : FlagError
  bad_transport bad_backend_tls bad_field_number bad_option_value : String → FlagError
  bearer_unset collision : String → FlagError

abbrev pub is_empty : String → Bool
is_empty s = s == ""

-- `serveHTTP`
unfoldable pub serve_http : Flags → Bool
serve_http f = not (is_empty f.host_port)

abbrev pub has_names : List String → Bool
has_names [] = false
has_names (n ∷ ns) = true

abbrev require : Bool → FlagError → Result FlagError (Unit {0})
require b e = if b then ok tt else err e

-- the transport, "streamable-http" spelled "http"; without a host and port it is not looked at
unfoldable pub check_transport : Flags → Result FlagError String
unfolding serve_http
check_transport f =
    let t = if f.transport == "streamable-http" then "http" else f.transport in
    if serve_http f
    then (if t == "http" || t == "sse" then ok t else err (bad_transport t))
    else ok f.transport

-- the checks of the flags alone, which end with the transport
unfoldable pub check_flags : Flags → Result FlagError String
unfolding check_transport serve_http
check_flags f =
    require (not (leb_ℤ f.refresh_interval (pos 0))) refresh_interval_not_positive >>= λ _.
    check_transport f >>= λ t.
    require
      ((not (is_empty f.tls_crt) || is_empty f.tls_key)
        && (is_empty f.tls_crt || not (is_empty f.tls_key)))
      tls_pair
    >>= λ _. require (is_empty f.ca_file || not (is_empty f.tls_crt)) ca_file_without_tls >>= λ _.
        require (is_empty f.tls_crt || not (is_empty f.host_port)) tls_without_hostport >>= λ _.
        require
          (not (f.forward_operator_identity || has_names f.forward_header_names) || serve_http f)
          forward_without_hostport
        >>= λ _. ok t

abbrev push : Char → List String → List String
push c [] = (String.◌∷◌ c String.[]) ∷ []
push c (s ∷ ss) = (String.◌∷◌ c s) ∷ ss

-- strings.Split at commas
unfoldable pub split_commas : String → List String
split_commas String.[] = String.[] ∷ []
split_commas (String.◌∷◌ c s) =
    let rest = split_commas s in if eqb (code c) b',' then String.[] ∷ rest else push c rest

module _ (parse_uint : ℕ → String → Result String ℕ) where
  -- the loop over the values
  unfoldable pub parse_values : List String → Result FlagError (List ℕ)
  parse_values [] = ok []
  parse_values (v ∷ vs) =
      let rest = parse_values vs in
      elim (parse_uint 64 v) [
        | err e ↦ err (bad_option_value e)
        | ok n ↦ rest >>= λ ns. ok (n ∷ ns)
      ]

  abbrev pub parse_parts : String → String → Result FlagError (ℕ × List ℕ)
  parse_parts field values = elim (parse_uint 32 field) [
    | err e ↦ err (bad_field_number e)
    | ok n ↦ parse_values (split_commas values) >>= λ ns. ok (n, ns)
  ]

  -- `optFieldNum` and `optValues`: strings.SplitN at the first colon, and both parts
  unfoldable pub parse_method_option : String → Result FlagError (ℕ × List ℕ)
  unfolding parse_values
  parse_method_option s = if is_empty s then ok (0, []) else elim (cut_colon s) [
    | none ↦ err method_option_format
    | some (field, values) ↦ parse_parts field values
  ]

-- the token's header, from the environment
abbrev pub with_bearer : String → Option String → Header → Result FlagError Header
with_bearer env none headers = err (bearer_unset env)
with_bearer env (some bearer) headers =
    if is_empty bearer
    then err (bearer_unset env)
    else ok (set headers "Authorization" ("Bearer " ⧺ bearer))

unfoldable pub add_bearer : Flags → (String → Option String) → Header → Result FlagError Header
add_bearer f look_up_env headers =
    if is_empty f.bearer_env
    then ok headers
    else with_bearer f.bearer_env (look_up_env f.bearer_env) headers

abbrev pub refuse_collision : Option String → Result FlagError (Unit {0})
refuse_collision none = ok tt
refuse_collision (some name) = err (collision name)

abbrev pub backend_ok {ℓ} : {C : Type ℓ} → Result String (Option C) → Result FlagError (Option C)
backend_ok (err e) = err (bad_backend_tls e)
backend_ok (ok c) = ok c

-- the TLS client, which is dropped for a plain URL
abbrev pub usable {ℓ} : {C : Type ℓ} → String → Option C → Option C
usable url c = if has_prefix url "http://" then none else c

pub record Settings {ℓ} (C : Type ℓ) : Type ℓ where
  pub transport : String
  pub backend_tls : Option C
  pub option_field : ℕ
  pub option_values : List ℕ
  pub headers : Header

module _ (parse_uint : ℕ → String → Result String ℕ) where
  unfoldable pub configure {ℓ} :
      {C : Type ℓ}
      → Flags
      → Result String (Option C)
      → (String → Option String)
      → Header
      → Result FlagError (Settings C)
  unfolding parse_method_option add_bearer
  configure f backend look_up_env flag_headers = check_flags f >>= λ t. backend_ok backend >>= λ c.
      parse_method_option parse_uint f.require_method_option >>= λ o.
      add_bearer f look_up_env flag_headers >>= λ headers.
      refuse_collision (check_collisions headers f.forward_header_names f.forward_operator_identity)
      >>= λ _. require (not (is_empty f.descriptors) || f.reflect) no_source >>= λ _. ok (record {
        transport = t;
        backend_tls = usable f.base_url c;
        option_field = o.0;
        option_values = o.1;
        headers = headers;
      })

-- `loadDescriptors`: a file wins over reflection, whose error counts all the same
unfoldable pub load_descriptor_set {ℓ} :
    {D : Type ℓ}
    → String
    → Bool
    → Result String D
    → (String → Result String D)
    → Result String (Option D)
load_descriptor_set path reflect reflected from_file =
    let loaded = if is_empty path then ok none else (from_file path >>= λ d. ok (some d)) in
    if reflect
    then elim reflected [ err e ↦ err e | ok d ↦ if is_empty path then ok (some d) else loaded ]
    else loaded

module _ (trim_space : String → String) where
  unfoldable pub named_services : List String → List String
  named_services [] = []
  named_services (s ∷ ss) =
      let rest = named_services ss in
      let service = trim_space s in if is_empty service then rest else service ∷ rest

  unfoldable pub parse_services : String → List String
  unfolding named_services
  parse_services services = if is_empty services then [] else named_services (split_commas services)
