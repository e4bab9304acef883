-- ===== src/Tools/Total.antt =====
-- `Tools` on files whose dependencies stand in front of them.
use mathlib.Core.Path.{subst}
use mathlib.Core.List.{Memᴰ}
use grpcmcp.Base.{
  String, ◌≡◌, ◌∙◌, inl, inr, refl, sym, ◌≢◌, some, Bool-cases, Bool, true, List, [], ◌∷◌, NoDup,
}
use grpcmcp.Base.Results.{Result, ok}
use grpcmcp.Descriptor.{Method, Service, FileProto}
use grpcmcp.Naming.{Registries, selected, exposed}
use grpcmcp.Tools.{
  ServerTool, Config, tools, tools_of, tools_of_files, tools_of_services, tools_of_methods, tool_of,
}
use grpcmcp.Reflection.Contract.{DepsFirst}
use grpcmcp.Reflection.Step.{names}
use grpcmcp.Tools.Exposed.{offered-exposed}
use grpcmcp.Tools.Resolved.{IsRegistry, IsNext, IsNext-IsStep, IsNext-start}

module _ {R : Type 0} (lib : Registries R) (trim_space : String → String)
    (input_schema : Bool → Method → Result String String) (cfg : Config) where
  -- the inputs of these methods have a schema, if they are exposed
  abbrev MethodSchemas : List Method → Type 0
  MethodSchemas ms =
      (m : Method)
      → Memᴰ m ms
      → exposed cfg.method_filter m ≡ true
      → (raw : String) × (input_schema cfg.string64 m ≡ ok raw)

  abbrev ServiceSchemas : List Service → Type 0
  ServiceSchemas ss =
      (s : Service) → Memᴰ s ss → selected cfg.services s ≡ true → MethodSchemas s.methods

  abbrev pub AllSchemas : List FileProto → Type 0
  AllSchemas fds = (f : FileProto) → Memᴰ f fds → ServiceSchemas f.services

  -- the value of a computation that has one
  abbrev Returns : Result String (List ServerTool) → Type 0
  Returns r = (ts : List ServerTool) × (r ≡ ok ts)

  tools_of_methods-Returns :
      (s : Service) (ms : List Method) (tools : List ServerTool)
      → MethodSchemas ms
      → Returns (tools_of_methods lib trim_space input_schema cfg s ms tools)
  unfolding tools_of_methods tool_of
  tools_of_methods-Returns s [] tools schemas = (tools, refl)
  tools_of_methods-Returns s (m ∷ ms) tools schemas =
      elim (Bool-cases (exposed cfg.method_filter m)) [
        | inl shown ↦
            let (raw, made) = schemas m (Memᴰ.head refl) shown in
            rw (offered-exposed cfg.method_filter m ∙ shown)
              (rw made (tools_of_methods-Returns s ms _ (λ n h. schemas n (Memᴰ.tail h))))
        | inr hidden ↦
            rw (offered-exposed cfg.method_filter m ∙ hidden)
              (tools_of_methods-Returns s ms tools (λ n h. schemas n (Memᴰ.tail h)))
      ]

  tools_of_services-Returns :
      (ss : List Service) (tools : List ServerTool)
      → ServiceSchemas ss
      → Returns (tools_of_services lib trim_space input_schema cfg ss tools)
  unfolding tools_of_services
  tools_of_services-Returns [] tools schemas = (tools, refl)
  tools_of_services-Returns (s ∷ ss) tools schemas = elim (Bool-cases (selected cfg.services s)) [
    | inl chosen ↦
        let (us, made) =
          tools_of_methods-Returns s s.methods tools (schemas s (Memᴰ.head refl) chosen) in
        rw chosen (rw made (tools_of_services-Returns ss us (λ x h. schemas x (Memᴰ.tail h))))
    | inr other ↦ rw other (tools_of_services-Returns ss tools (λ x h. schemas x (Memᴰ.tail h)))
  ]

  module _ {fds : List FileProto} (laws : IsRegistry lib fds) where
    tools_of_files-Returns :
        (fs : List FileProto) (reg : R) (before : List String) (tools : List ServerTool)
        → AllSchemas fs
        → IsNext lib fds reg before fs
        → Returns (tools_of_files lib trim_space input_schema cfg fs reg tools)
    unfolding tools_of_files
    tools_of_files-Returns [] reg before tools schemas n = (tools, refl)
    tools_of_files-Returns (f ∷ fs) reg before tools schemas n =
        let s = IsNext-IsStep lib laws reg before f fs n in
        let (us, made) = tools_of_services-Returns f.services tools (schemas f (Memᴰ.head refl)) in
        rw (s.resolved) (
          rw (s.fresh) (
            rw (s.added.registered) (
              rw made (
                tools_of_files-Returns fs s.added.next (f.name ∷ before) us
                  (λ g h. schemas g (Memᴰ.tail h)) s.rest))))

    -- `Tools` succeeds on files in the order of their dependencies, if there is one.
    pub tools-Returns :
        AllSchemas fds
        → DepsFirst [] fds
        → NoDup (names fds)
        → fds ≢ []
        → cfg.descriptors ≡ some fds
        → Returns (tools lib trim_space input_schema cfg)
    unfolding tools
    tools-Returns schemas ordered distinct some_file given =
        subst (λ o. Returns (tools_of lib trim_space input_schema cfg o)) (sym given)
          (go fds some_file (
            tools_of_files-Returns fds lib.empty [] [] schemas
              (IsNext-start lib laws ordered distinct)))
      where
        go :
            (l : List FileProto)
            → l ≢ []
            → Returns (tools_of_files lib trim_space input_schema cfg l lib.empty [])
            → Returns (tools_of lib trim_space input_schema cfg (some l))
        go [] some_file r = absurd (some_file refl)
        go (f ∷ fs) some_file r = r
