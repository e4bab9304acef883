-- ===== src/Tools/Named.antt =====
-- The names of the tools of one server.
use mathlib.Core.Path.{subst}
use mathlib.Core.List.{Memᴰ, map-map}
use grpcmcp.Base.{String, ◌≡◌, sym, ap, ◌∙◌, Bool, some, List, map, NoDup}
use grpcmcp.Base.Listed.{NoDup-map}
use grpcmcp.Base.Results.{Result, ok}
use grpcmcp.Base.Texts.{◌⧺◌}
use grpcmcp.Descriptor.{Method, Service, FileProto}
use grpcmcp.Naming.{Registries, build_tool_namer}
use grpcmcp.Naming.Apart.{scanned, HoldsAll, named, named-Same}
use grpcmcp.Naming.Counting.{exposed_in}
use grpcmcp.Naming.Distinct.{IsPlain}
use grpcmcp.Naming.Scanned.{exposed_in-Memᴰ, Memᴰ-exposed_in}
use grpcmcp.Tools.{ServerTool, Config, name_by, procedure_of, tools}
use grpcmcp.Tools.Exposed.{Identity, identity, tool_identity, IsFaithful, tools-exposed}

abbrev pub name_of : ServerTool → String
name_of t = t.name

abbrev pub called : ServerTool → String
called t = t.procedure

abbrev pub procedure_at : Service × Method → String
procedure_at (s, m) = procedure_of s m

module _ {R : Type 0} (lib : Registries R) (trim_space : String → String)
    (input_schema : Bool → Method → Result String String) (cfg : Config) where
  -- every method that becomes a tool has plain names
  abbrev pub AllPlain : List FileProto → Type 0
  AllPlain fds =
      (p : Service × Method) → Memᴰ p (exposed_in cfg.services cfg.method_filter fds) → IsPlain p

  named-NoDup :
      (fds : List FileProto)
      → HoldsAll lib cfg.services cfg.method_filter fds
      → AllPlain fds
      → NoDup (map procedure_at (exposed_in cfg.services cfg.method_filter fds))
      → NoDup (
          map
            (named lib cfg.services cfg.method_filter fds)
            (exposed_in cfg.services cfg.method_filter fds))
  unfolding procedure_of
  named-NoDup fds holds plain =
      NoDup-map (named lib cfg.services cfg.method_filter fds) procedure_at
        (exposed_in cfg.services cfg.method_filter fds)
        (λ p q h k e.
          let (full, m) =
            named-Same lib cfg.services cfg.method_filter fds p q (held p h) (held q k) (plain p h)
              (plain q k) e in
          ap (λ s. "/" ⧺ s ⧺ "/" ⧺ p.1.name) full ∙ ap (λ n. "/" ⧺ q.0.full_name ⧺ "/" ⧺ n) m)
    where
      held :
          (p : Service × Method)
          → Memᴰ p (exposed_in cfg.services cfg.method_filter fds)
          → Memᴰ p (
              exposed_in cfg.services cfg.method_filter
                (scanned lib cfg.services cfg.method_filter fds))
      held p h =
          let (f, member, at) = (Memᴰ-exposed_in cfg.services cfg.method_filter fds h).2 in
          exposed_in-Memᴰ cfg.services cfg.method_filter p f
            (scanned lib cfg.services cfg.method_filter fds) (holds f member) at

  -- what a field of the identity is, at the tools and at the pairs
  read_at :
      (fds : List FileProto) (ts : List ServerTool) (field : Identity → String)
      → map identity ts
        ≡ map
            (tool_identity lib trim_space input_schema cfg)
            (exposed_in cfg.services cfg.method_filter fds)
      → map (λ t. field (identity t)) ts
        ≡ map
            (λ p. field (tool_identity lib trim_space input_schema cfg p))
            (exposed_in cfg.services cfg.method_filter fds)
  read_at fds ts field e =
      sym (map-map field identity ts)
      ∙ ap (map field) e
      ∙ map-map field (tool_identity lib trim_space input_schema cfg)
          (exposed_in cfg.services cfg.method_filter fds)

  -- the tools of one build have distinct names, where their methods have distinct procedures
  pub tools-NoDup_of_pairs :
      (fds : List FileProto) (ts : List ServerTool)
      → IsFaithful lib trim_space input_schema cfg
      → HoldsAll lib cfg.services cfg.method_filter fds
      → AllPlain fds
      → cfg.descriptors ≡ some fds
      → cfg.tool_name ≡ some (build_tool_namer lib fds cfg.services cfg.method_filter)
      → tools lib trim_space input_schema cfg ≡ ok ts
      → NoDup (map procedure_at (exposed_in cfg.services cfg.method_filter fds))
      → NoDup (map name_of ts)
  tools-NoDup_of_pairs fds ts faithful holds plain given by h distinct =
      let same = (tools-exposed lib trim_space input_schema cfg fds ts faithful given h).1 in
      subst NoDup
        (sym (
          read_at fds ts (λ i. i.name) same
          ∙ ap
              (λ o.
                map (λ p. name_by lib trim_space input_schema o p.0 p.1)
                  (exposed_in cfg.services cfg.method_filter fds))
              by))
        (named-NoDup fds holds plain distinct)

  -- If the names of the services and methods that become tools have no underscore, and no two tools call
  -- one procedure, then tools that are built with the namer of their descriptors have distinct names,
  -- where the registry holds every file of the descriptors.
  pub tools-NoDup :
      (fds : List FileProto) (ts : List ServerTool)
      → IsFaithful lib trim_space input_schema cfg
      → HoldsAll lib cfg.services cfg.method_filter fds
      → AllPlain fds
      → cfg.descriptors ≡ some fds
      → cfg.tool_name ≡ some (build_tool_namer lib fds cfg.services cfg.method_filter)
      → tools lib trim_space input_schema cfg ≡ ok ts
      → NoDup (map called ts)
      → NoDup (map name_of ts)
  tools-NoDup fds ts faithful holds plain given by h distinct =
      tools-NoDup_of_pairs fds ts faithful holds plain given by h (
        subst NoDup
          (read_at fds ts (λ i. i.procedure)
            (tools-exposed lib trim_space input_schema cfg fds ts faithful given h).1)
          distinct)
