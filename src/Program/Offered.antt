-- ===== src/Program/Offered.antt =====
-- Tools that offer an exposed method of a selected service, over any number of refreshes.
use mathlib.Core.Path.{subst}
use mathlib.Core.List.Memᴰ
use mathlib.Core.List.{Memᴰ}
use grpcmcp.Base.{ℕ, String, ◌≡◌, sym, ap, ◌∙◌, inl, inr, Bool, Option-cases, Option, List}
use grpcmcp.Base.Results.{Result, ok}
use grpcmcp.Descriptor.{Method, Service, FileProto}
use grpcmcp.Naming.{Registries}
use grpcmcp.Naming.Counting.{exposed_in}
use grpcmcp.Naming.Scanned.{IsExposed, Memᴰ-exposed_in}
use grpcmcp.Refresh.{RefreshParams, refresh_cfg, refresh_loop}
use grpcmcp.Refresh.Keeping.{refresh_loop-Holds, refresh_cfg_lem}
use grpcmcp.Tools.{ServerTool, Config, procedure_of, tools}
use grpcmcp.Tools.Exposed.{identity, tool_identity, IsFaithful, tools-exposed, tools-nothing}

-- a tool of an exposed method of a selected service, whose procedure it calls
pub record IsOffered (services : List String) (filter : Option (Method → Bool)) (t : ServerTool)
    : Type 0 where
  pub service : Service
  pub exposure : IsExposed services filter (service, t.method)
  pub calls : t.procedure ≡ procedure_of service t.method

module _ {R : Type 0} (lib : Registries R) (trim_space : String → String)
    (input_schema : Bool → Method → Result String String) (show : ℕ → String) where
  -- each tool is offered
  abbrev pub AllOffered : Config → List ServerTool → Type 0
  AllOffered cfg ts = (t : ServerTool) → Memᴰ t ts → IsOffered cfg.services cfg.method_filter t

  exposure-IsOffered :
      (cfg : Config) (t : ServerTool) (p : Service × Method)
      → IsExposed cfg.services cfg.method_filter p
      → tool_identity lib trim_space input_schema cfg p ≡ identity t
      → IsOffered cfg.services cfg.method_filter t
  exposure-IsOffered cfg t p shown e =
      let same = ap (λ i. i.method) e in
      record {
        service = p.0;
        exposure = subst (λ m. IsExposed cfg.services cfg.method_filter (p.0, m)) same shown;
        calls = sym (ap (λ i. i.procedure) e) ∙ ap (procedure_of p.0) same;
      }

  pub tools-AllOffered :
      (cfg : Config) (ts : List ServerTool)
      → IsFaithful lib trim_space input_schema cfg
      → tools lib trim_space input_schema cfg ≡ ok ts
      → AllOffered cfg ts
  tools-AllOffered cfg ts faithful h t member = elim (Option-cases cfg.descriptors) [
    | inl absent ↦ absurd (tools-nothing lib trim_space input_schema cfg ts absent h)
    | inr (fds, given) ↦
        let same = (tools-exposed lib trim_space input_schema cfg fds ts faithful given h).1 in
        let (p, paired, e) =
          Memᴰ.of_map (tool_identity lib trim_space input_schema cfg)
            (exposed_in cfg.services cfg.method_filter fds)
            (subst (Memᴰ (identity t)) same (Memᴰ.map identity member)) in
        exposure-IsOffered cfg t p (Memᴰ-exposed_in cfg.services cfg.method_filter fds paired).0 e
  ]

  module _ (cfg : Config)
      (faithful : (other : Config) → IsFaithful lib trim_space input_schema other) where
    pub refresh_loop-AllOffered :
        (p : RefreshParams) (ticks : List (Result String (List FileProto)))
        → (state : List ServerTool × ℕ) → AllOffered cfg state.0
        → AllOffered cfg (refresh_loop lib trim_space input_schema show cfg p ticks state).0
    refresh_loop-AllOffered params ticks =
        refresh_loop-Holds lib trim_space input_schema show cfg (AllOffered cfg) params ticks
          (λ n new ts _ made t member.
            let p = record params { previous_tool_len = n } in
            let again = refresh_cfg lib trim_space input_schema show cfg p new in
            let (services, filter) = refresh_cfg_lem lib trim_space input_schema show cfg p new in
            let offered = tools-AllOffered again ts (faithful again) made t member in
            subst (λ sv. IsOffered sv cfg.method_filter t) services
              (subst (λ fl. IsOffered again.services fl t) filter offered))
