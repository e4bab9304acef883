-- ===== src/Program/Distinct.antt =====
-- main.go and refresh.go: the names of the tools of a server, at its start and after refreshes.
use mathlib.Core.Path.{subst}
use mathlib.Core.List.{Memᴰ}
use grpcmcp.Base.{
  ℕ, String, ◌≡◌, refl, sym, ap, ◌∙◌, ◌⊎◌, inl, inr, Bool, Bool-cases, Option, Option-cases, some,
  List, map, NoDup,
}
use grpcmcp.Base.Results.{Result, ok}
use grpcmcp.Descriptor.{Method, FileProto}
use grpcmcp.Header.{Header}
use grpcmcp.Launch.{refreshes}
use grpcmcp.Naming.{Registries, build_tool_namer}
use grpcmcp.Naming.Apart.{HoldsAll}
use grpcmcp.Naming.Counting.{exposed_in}
use grpcmcp.Options.{Wire}
use grpcmcp.Refresh.{refresh_cfg}
use grpcmcp.Refresh.Keeping.{refresh_loop-Holds}
use grpcmcp.Startup.{Flags, Settings}
use grpcmcp.Tools.{ServerTool, Config, tools}
use grpcmcp.Tools.Exposed.{IsFaithful, tools-nothing}
use grpcmcp.Tools.Named.{name_of, procedure_at, AllPlain, tools-NoDup_of_pairs}
use grpcmcp.Program.{Program, start, config_of, held_after, files_of}
use grpcmcp.Program.Started.{IsStarted, start-IsStarted}

module _ {R : Type 0} (lib : Registries R) (trim_space : String → String)
    (input_schema : Bool → Method → Result String String) where
  -- The registry holds the files, the names of the services and methods that become tools have no
  -- underscore, and their procedures are distinct.
  pub record IsClear (cfg : Config) (fds : List FileProto) : Type 0 where
    pub holds : HoldsAll lib cfg.services cfg.method_filter fds
    pub plain : AllPlain lib trim_space input_schema cfg fds
    pub distinct : NoDup (map procedure_at (exposed_in cfg.services cfg.method_filter fds))

  -- the namer is the one of the descriptors
  abbrev IsNamed : Config → Type 0
  IsNamed cfg =
      (fds : List FileProto)
      → cfg.descriptors ≡ some fds
      → cfg.tool_name ≡ some (build_tool_namer lib fds cfg.services cfg.method_filter)

  module _ (show : ℕ → String) (wire : Wire) (encoded : Method → Option (List ℕ)) where
    config_of-IsNamed :
        {C : Type 0} (f : Flags) (s : Settings C) (d : Option (List FileProto))
        → IsNamed (config_of lib trim_space input_schema show wire encoded f s d)
    unfolding config_of
    config_of-IsNamed f s d fds e =
        let cfg = config_of lib trim_space input_schema show wire encoded f s d in
        ap (λ o. some (build_tool_namer lib (files_of o) cfg.services cfg.method_filter)) e

    module _ {C : Type 0} (parse_uint : ℕ → String → Result String ℕ)
        (count_tools : List ServerTool → ℕ) where
      -- The tools that a started server holds after some refreshes have distinct names, if those files
      -- that it has started with, and those that reflection has answered with since, give the methods
      -- that become tools distinct procedures and names without underscores, and the registry holds
      -- them, each with the services that it is described with.
      pub held_after-NoDup :
          (f : Flags) (backend : Result String (Option C)) (look_up_env : String → Option String)
          (flag_headers : Header) (pointer : ℕ) (reflected : Result String (List FileProto))
          (from_file : String → Result String (List FileProto)) (g : Program C)
          (ticks : List (Result String (List FileProto)))
          → ((cfg : Config) → IsFaithful lib trim_space input_schema cfg)
          → start lib trim_space input_schema show wire encoded parse_uint count_tools f backend
              look_up_env flag_headers pointer reflected from_file
            ≡ ok g
          → ((fds : List FileProto)
              → (g.cfg.descriptors ≡ some fds) ⊎ Memᴰ (ok fds) ticks
              → IsClear g.cfg fds)
          → NoDup (
              map name_of (
                held_after lib trim_space input_schema show wire encoded parse_uint count_tools f g
                  ticks))
      unfolding held_after refresh_cfg
      held_after-NoDup f backend look_up_env flag_headers pointer reflected from_file g ticks
            faithful h clear =
          elim (Bool-cases (refreshes f)) [
            | inl on ↦ rw on (
                refresh_loop-Holds lib trim_space input_schema show g.cfg
                  (λ ts. NoDup (map name_of ts)) g.params ticks refreshed
                  (g.mcp.added_tools, g.params.previous_tool_len) first)
            | inr off ↦ rw off first
          ]
        where
          started :
              IsStarted lib trim_space input_schema show wire encoded parse_uint count_tools f
                backend look_up_env flag_headers pointer g
          started =
              start-IsStarted lib trim_space input_schema show wire encoded parse_uint count_tools f
                backend look_up_env flag_headers pointer reflected from_file g h

          by : IsNamed g.cfg
          by =
              subst IsNamed (sym started.configured)
                (config_of-IsNamed f g.settings started.descriptor_set)

          first : NoDup (map name_of g.mcp.added_tools)
          first = elim (Option-cases g.cfg.descriptors) [
            | inl absent ↦ absurd (
                tools-nothing lib trim_space input_schema g.cfg g.mcp.added_tools absent
                  started.built)
            | inr (fds, given) ↦
                let c = clear fds (inl given) in
                tools-NoDup_of_pairs lib trim_space input_schema g.cfg fds g.mcp.added_tools
                  (faithful g.cfg) c.holds c.plain given (by fds given) started.built c.distinct
          ]

          refreshed :
              (n : ℕ) (new : List FileProto) (ts : List ServerTool)
              → Memᴰ (ok new) ticks
              → tools lib trim_space input_schema (
                  refresh_cfg lib trim_space input_schema show g.cfg
                    (record g.params { previous_tool_len = n })
                    new)
                ≡ ok ts
              → NoDup (map name_of ts)
          refreshed n new ts answered made =
              let again =
                refresh_cfg lib trim_space input_schema show g.cfg
                  (record g.params { previous_tool_len = n }) new in
              let c = clear new (inr answered) in
              tools-NoDup_of_pairs lib trim_space input_schema again new ts (faithful again) c.holds
                c.plain refl
                (ap (λ sv. some (build_tool_namer lib new sv g.params.method_filter))
                    started.services_kept
                  ∙ ap (λ fl. some (build_tool_namer lib new g.cfg.services fl))
                      started.filter_kept)
                made c.distinct
