-- ===== src/Program/Allowed.antt =====
-- Which methods a started server offers as tools, now and after refreshes.
use mathlib.Core.Path.{subst}
use mathlib.Core.List.{Memᴰ}
use grpcmcp.Base.{
  ℕ, String, ◌<◌, ◌≡◌, ◌≢◌, refl, sym, ap, ◌∙◌, inl, inr, Bool, Bool-cases, true, false, Option,
  none, some, List, [], ◌∷◌, Has, arith, ltb, if◌then◌else◌,
}
use grpcmcp.Base.Results.{Result, ok}
use grpcmcp.Descriptor.{Method, Service, FileProto}
use grpcmcp.Header.{Header}
use grpcmcp.Launch.{refreshes}
use grpcmcp.Naming.{Registries, selected, exposed}
use grpcmcp.Options.{Wire, has_method_option}
use grpcmcp.Startup.{Flags, parse_method_option, parse_services}
use grpcmcp.Startup.Checked.{configure-IsAccepted}
use grpcmcp.Tools.{ServerTool, Config, procedure_of}
use grpcmcp.Tools.Exposed.{IsFaithful}
use grpcmcp.Program.{Program, config_of, start, held_after, method_filter_of}
use grpcmcp.Program.Offered.{IsOffered, AllOffered, tools-AllOffered, refresh_loop-AllOffered}
use grpcmcp.Program.Started.{start-IsStarted, ok_inj}

module _ (trim_space : String → String) (wire : Wire) (encoded : Method → Option (List ℕ))
    (parse_uint : ℕ → String → Result String ℕ) where
  -- A tool of a method that does not stream, of a service that the flags name, if they name one, with
  -- one of the option values that they require, if they require one by a field number above zero; the
  -- tool calls that method of that service.
  pub record IsServed (f : Flags) (t : ServerTool) : Type 0 where
    pub service : Service
    pub calls : t.procedure ≡ procedure_of service t.method
    pub method_of : Memᴰ t.method service.methods
    pub unary : (t.method.is_streaming_client ≡ false) × (t.method.is_streaming_server ≡ false)
    pub service_named :
        parse_services trim_space f.services ≢ []
        → Has (parse_services trim_space f.services) service.full_name
    pub has_option :
        (field : ℕ) (values : List ℕ)
        → parse_method_option parse_uint f.require_method_option ≡ ok (field, values)
        → 0 < field
        → has_method_option wire (encoded t.method) field values ≡ true

  selected-Has :
      (names : List String) (s : Service)
      → selected names s ≡ true
      → names ≢ []
      → Has names s.full_name
  selected-Has [] s h some_name = absurd (some_name refl)
  selected-Has (n ∷ names) s h some_name = h

  exposed-unary :
      (filter : Option (Method → Bool)) (m : Method)
      → exposed filter m ≡ true
      → (m.is_streaming_client ≡ false) × (m.is_streaming_server ≡ false)
  unfolding exposed
  exposed-unary filter m h = (ground (arith, h), ground (arith, h))

  exposed-option :
      (field : ℕ) (values : List ℕ) (m : Method)
      → exposed (method_filter_of wire encoded field values) m ≡ true
      → 0 < field
      → has_method_option wire (encoded m) field values ≡ true
  unfolding exposed
  exposed-option field values m h some_field = elim (Bool-cases (ltb 0 field)) [
    | inl positive ↦ ground (
      arith,
      ap
            (λ b.
              exposed
                (if b then some (λ n. has_method_option wire (encoded n) field values) else none) m)
            (sym positive)
          ∙ h,
    )
    | inr zero_field ↦ absurd (ground arith)
  ]

  IsOffered-IsServed :
      (f : Flags) (field : ℕ) (values : List ℕ) (t : ServerTool)
      → parse_method_option parse_uint f.require_method_option ≡ ok (field, values)
      → IsOffered
          (parse_services trim_space f.services)
          (method_filter_of wire encoded field values)
          t
      → IsServed f t
  IsOffered-IsServed f field values t parsed offered = record {
    service = offered.service;
    calls = offered.calls;
    method_of = offered.exposure.method_of;
    unary = exposed-unary _ t.method offered.exposure.method_exposed;
    service_named = selected-Has _ offered.service offered.exposure.service_selected;
    has_option = λ field' values' parsed' some_field.
        let same : (field, values) ≡ (field', values') = ok_inj (sym parsed ∙ parsed') in
        exposed-option field' values' t.method
          (subst (λ o. exposed (method_filter_of wire encoded o.0 o.1) t.method ≡ true) same
            offered.exposure.method_exposed)
          some_field;
  }

module _ {R C : Type 0} (lib : Registries R) (trim_space : String → String)
    (input_schema : Bool → Method → Result String String) (show : ℕ → String) (wire : Wire)
    (encoded : Method → Option (List ℕ)) (parse_uint : ℕ → String → Result String ℕ)
    (count_tools : List ServerTool → ℕ) where
  -- Whatever the backend's reflection answers, at the start and at each refresh, a tool that a started
  -- server holds is one of a unary method of a service that the flags name, if they name one, which has
  -- the option that the flags require, if they require one by a field number above zero. This
  -- assumes that the descriptor which protodesc builds of a file has the services of the file.
  pub held_after-IsServed :
      (f : Flags) (backend : Result String (Option C)) (look_up_env : String → Option String)
      (flag_headers : Header) (pointer : ℕ) (reflected : Result String (List FileProto))
      (from_file : String → Result String (List FileProto)) (g : Program C)
      (ticks : List (Result String (List FileProto))) (t : ServerTool)
      → ((cfg : Config) → IsFaithful lib trim_space input_schema cfg)
      → start lib trim_space input_schema show wire encoded parse_uint count_tools f backend
          look_up_env flag_headers pointer reflected from_file
        ≡ ok g
      → Memᴰ t (
          held_after lib trim_space input_schema show wire encoded parse_uint count_tools f g ticks)
      → IsServed trim_space wire encoded parse_uint f t
  unfolding config_of held_after
  held_after-IsServed f backend look_up_env flag_headers pointer reflected from_file g ticks t
        faithful h member =
      let started =
        start-IsStarted lib trim_space input_schema show wire encoded parse_uint count_tools f
          backend look_up_env flag_headers pointer reflected from_file g h in
      let first =
        tools-AllOffered lib trim_space input_schema show g.cfg g.mcp.added_tools (faithful g.cfg)
          started.built in
      let accepted =
        configure-IsAccepted parse_uint f backend look_up_env flag_headers g.settings
          started.accepted in
      IsOffered-IsServed trim_space wire encoded parse_uint f g.settings.option_field
        g.settings.option_values t accepted.option
        (subst (λ c. IsOffered c.services c.method_filter t) started.configured
          (either (refreshes f)
            (refresh_loop-AllOffered lib trim_space input_schema show g.cfg faithful g.params ticks
              (g.mcp.added_tools, g.params.previous_tool_len) first)
            first t member))
    where
      either :
          (b : Bool) {xs ys : List ServerTool}
          → AllOffered lib trim_space input_schema show g.cfg xs
          → AllOffered lib trim_space input_schema show g.cfg ys
          → AllOffered lib trim_space input_schema show g.cfg (if b then xs else ys)
      either true h k = h
      either false h k = k
