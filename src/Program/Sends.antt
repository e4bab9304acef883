-- ===== src/Program/Sends.antt =====
-- What every call of a tool of a started server sends to the backend.
use mathlib.Core.Path.{subst}
use mathlib.Core.List.{Memᴰ}
use grpcmcp.Base.{ℕ, Bool, String, ◌≡◌, ◌≢◌, sym, ap, ◌∙◌, Option, some, List}
use grpcmcp.Base.Results.{Result, ok}
use grpcmcp.Base.Texts.{◌⧺◌}
use grpcmcp.Descriptor.{Method, FileProto}
use grpcmcp.Header.{Header, get}
use grpcmcp.Forward.{Heap, load, check_collisions}
use grpcmcp.Forward.Formed.{AllFormed}
use grpcmcp.Naming.{Registries}
use grpcmcp.Options.{Wire}
use grpcmcp.Startup.{Flags}
use grpcmcp.Startup.Checked.{configure-IsAccepted, bearer-get, bearer_non_empty}
use grpcmcp.Tools.{ServerTool, tool_handler}
use grpcmcp.Tools.Sent.{sent-get}
use grpcmcp.Program.{Program, start}
use grpcmcp.Program.Started.{start-IsStarted}

module _ {R C M : Type 0} (lib : Registries R) (trim_space : String → String)
    (input_schema : Bool → Method → Result String String) (show : ℕ → String) (wire : Wire)
    (encoded : Method → Option (List ℕ)) (parse_uint : ℕ → String → Result String ℕ)
    (count_tools : List ServerTool → ℕ) (f : Flags) (backend : Result String (Option C))
    (look_up_env : String → Option String) (flag_headers : Header) (pointer : ℕ)
    (reflected : Result String (List FileProto))
    (from_file : String → Result String (List FileProto)) (g : Program C) where
  -- If `main` starts with the bearer token of a named variable, then every request that a call of a
  -- tool sends to the backend has this token in its Authorization header, whatever the inbound request
  -- and the client's own headers are, if all header maps have canonical and distinct keys.
  pub start-sends_bearer :
      (token : String) (arguments : Result String String) (unmarshal : String → Result String M)
      (request_header : Header) (call_unary : Header → M → Result String M)
      (marshal : M → Result String String) (inbound : Header) (heap : Heap) (request : Header × M)
      → f.bearer_env ≢ ""
      → look_up_env f.bearer_env ≡ some token
      → start lib trim_space input_schema show wire encoded parse_uint count_tools f backend
          look_up_env flag_headers pointer reflected from_file
        ≡ ok g
      → load heap pointer ≡ g.settings.headers
      → AllFormed heap
      → Memᴰ request
          (tool_handler arguments unmarshal request_header call_unary marshal g.headers inbound
            heap).sent
      → get request.0 "Authorization" ≡ "Bearer " ⧺ token
  start-sends_bearer token arguments unmarshal request_header call_unary marshal inbound heap
        request named found started held formed member =
      let s =
        start-IsStarted lib trim_space input_schema show wire encoded parse_uint count_tools f
          backend look_up_env flag_headers pointer reflected from_file g started in
      let a =
        configure-IsAccepted parse_uint f backend look_up_env flag_headers g.settings s.accepted in
      let bearer =
        ap (λ h. get h "Authorization") held
        ∙ bearer-get parse_uint f backend look_up_env flag_headers g.settings token named found
            a.bearer in
      sent-get arguments unmarshal request_header call_unary marshal pointer
        f.forward_operator_identity f.forward_header_names inbound heap "Authorization" request
        formed
        (ap (λ h. check_collisions h f.forward_header_names f.forward_operator_identity) held
          ∙ a.no_collision)
        (λ empty. bearer_non_empty token (sym bearer ∙ empty))
        (subst
          (λ provider.
            Memᴰ request
              (tool_handler arguments unmarshal request_header call_unary marshal provider inbound
                heap).sent)
          s.provided member)
      ∙ bearer
