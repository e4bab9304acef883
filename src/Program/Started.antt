-- ===== src/Program/Started.antt =====
-- What a start of `main` that succeeds has made.
use mathlib.Core.Path.{subst}
use grpcmcp.Base.{ℕ, String, ◌≡◌, refl, Bool, Option, List}
use grpcmcp.Base.Results.{Result, ok, err, bind-eq-ok}
use grpcmcp.Descriptor.{Method, FileProto}
use grpcmcp.Forward.{headers_provider}
use grpcmcp.Header.{Header}
use grpcmcp.Naming.{Registries}
use grpcmcp.Options.{Wire}
use grpcmcp.Startup.{Flags, Settings, configure, load_descriptor_set}
use grpcmcp.Tools.{ServerTool, tools}
use grpcmcp.Tools.Server.{McpServer, new_server, new_server-tools}
use grpcmcp.Program.{
  Program, StartError, ServerOption, config_of, program_of, start, server_options, or_exit,
  server_error, bad_flags,
}

or_exit-ok :
    {E A : Type 0} (reason : E → StartError) (r : Result E A) (a : A)
    → or_exit reason r ≡ ok a
    → r ≡ ok a
or_exit-ok reason (ok b) a h = cc
or_exit-ok reason (err e) a h = cc

pub ok_inj : {E A : Type 0} {a b : A} → ◌≡◌ {A = Result E A} (ok a) (ok b) → a ≡ b
ok_inj h = cc

module _ {R C : Type 0} (lib : Registries R) (trim_space : String → String)
    (input_schema : Bool → Method → Result String String) (show : ℕ → String) (wire : Wire)
    (encoded : Method → Option (List ℕ)) (parse_uint : ℕ → String → Result String ℕ)
    (count_tools : List ServerTool → ℕ) where
  -- what a start makes: the settings that the flags give, the configuration, and tools built from it
  pub record IsStarted (f : Flags) (backend : Result String (Option C))
      (look_up_env : String → Option String) (flag_headers : Header) (pointer : ℕ) (g : Program C)
      : Type 0 where
    pub accepted : configure parse_uint f backend look_up_env flag_headers ≡ ok g.settings
    pub provided :
        g.headers ≡ headers_provider pointer f.forward_operator_identity f.forward_header_names
    pub descriptor_set : Option (List FileProto)
    pub configured :
        g.cfg ≡ config_of lib trim_space input_schema show wire encoded f g.settings descriptor_set
    pub services_kept : g.params.services ≡ g.cfg.services
    pub filter_kept : g.params.method_filter ≡ g.cfg.method_filter
    pub built : tools lib trim_space input_schema g.cfg ≡ ok g.mcp.added_tools

  pub start-IsStarted :
      (f : Flags) (backend : Result String (Option C)) (look_up_env : String → Option String)
      (flag_headers : Header) (pointer : ℕ) (reflected : Result String (List FileProto))
      (from_file : String → Result String (List FileProto)) (g : Program C)
      → start lib trim_space input_schema show wire encoded parse_uint count_tools f backend
          look_up_env flag_headers pointer reflected from_file
        ≡ ok g
      → IsStarted f backend look_up_env flag_headers pointer g
  unfolding start program_of
  start-IsStarted f backend look_up_env flag_headers pointer reflected from_file g h =
      let (s, accepted, h') =
        bind-eq-ok (or_exit bad_flags (configure parse_uint f backend look_up_env flag_headers)) _
          h in
      let (d, loaded, h'') =
        bind-eq-ok
          (or_exit server_error (load_descriptor_set f.descriptors f.reflect reflected from_file)) _
          h' in
      let cfg = config_of lib trim_space input_schema show wire encoded f s d in
      let serving =
        new_server f.server_name f.server_version (server_options f s.transport)
          (tools lib trim_space input_schema cfg) in
      let (mcp, served, last) = bind-eq-ok (or_exit server_error serving) _ h'' in
      finish s d mcp
        (or_exit-ok bad_flags (configure parse_uint f backend look_up_env flag_headers) s accepted)
        (new_server-tools f.server_name f.server_version (server_options f s.transport)
          (tools lib trim_space input_schema cfg) mcp (or_exit-ok server_error serving mcp served))
        (ok_inj last)
    where
      finish :
          (s : Settings C) (d : Option (List FileProto)) (mcp : McpServer ServerTool ServerOption)
          → configure parse_uint f backend look_up_env flag_headers ≡ ok s
          → tools lib trim_space input_schema
              (config_of lib trim_space input_schema show wire encoded f s d)
            ≡ ok mcp.added_tools
          → program_of lib trim_space input_schema show wire encoded parse_uint count_tools f
              pointer s
              (config_of lib trim_space input_schema show wire encoded f s d)
              mcp
            ≡ g
          → IsStarted f backend look_up_env flag_headers pointer g
      finish s d mcp accepted built same =
          subst (IsStarted f backend look_up_env flag_headers pointer) same (record {
            accepted = accepted;
            provided = refl;
            descriptor_set = d;
            configured = refl;
            services_kept = refl;
            filter_kept = refl;
            built = built;
          })
