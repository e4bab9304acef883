-- ===== src/Refresh/Replaced.antt =====
-- `refreshTools` against the descriptors that reflection answers with: which tools the server holds.
use grpcmcp.Base.{
  ℕ, String, Bool, ◌≡◌, ◌<◌, refl, ◌∙◌, ap, inl, inr, some, List, map, length, arith, eqb, ltb,
  ◌&&◌, Bool-cases,
}
use grpcmcp.Base.Results.{Result, ok, err}
use grpcmcp.Descriptor.{Method, FileProto}
use grpcmcp.Naming.{Registries, build_tool_namer}
use grpcmcp.Naming.Counting.{exposed_in}
use grpcmcp.Tools.{ServerTool, Config, tools}
use grpcmcp.Tools.Exposed.{identity, tool_identity, IsFaithful, tools-exposed}
use grpcmcp.Refresh.{RefreshParams, refresh_cfg, replace_tools, refresh_tools}
use grpcmcp.Refresh.Keeping.{IsAttempt, refresh_tools_cases}

module _ {R : Type 0} (lib : Registries R) (trim_space : String → String)
    (input_schema : Bool → Method → Result String String) (show : ℕ → String) (cfg : Config)
    (p : RefreshParams) where
  -- the configuration with the descriptors of the refresh, and a namer that has seen them
  abbrev pub reflected_with : List FileProto → Config
  reflected_with new = record cfg {
    descriptors = some new;
    tool_name = some (build_tool_namer lib new p.services p.method_filter);
  }

  -- the tools are, in order, those of the methods that the files expose
  abbrev pub IsExposing : List FileProto → List ServerTool → Type 0
  IsExposing new ts =
      map identity ts
      ≡ map (tool_identity lib trim_space input_schema (reflected_with new))
          (exposed_in cfg.services cfg.method_filter new)

  pub record IsRefresh (held : List ServerTool) (loaded : Result String (List FileProto))
      (r : List ServerTool × Result String ℕ) : Type 0 where
    pub unreached : (e : String) → loaded ≡ err e → r ≡ (held, err e)
    pub kept : (e : String) → r.1 ≡ err e → r.0 ≡ held
    pub replaced :
        (n : ℕ)
        → r.1 ≡ ok n
        → (new : List FileProto) × (loaded ≡ ok new) × IsExposing new r.0 × (length r.0 ≡ n)
    pub not_emptied : (n : ℕ) → r.1 ≡ ok n → 0 < p.previous_tool_len → 0 < n
    pub succeeds :
        (new : List FileProto) (ts : List ServerTool)
        → loaded ≡ ok new
        → tools lib trim_space input_schema (reflected_with new) ≡ ok ts
        → (0 < p.previous_tool_len → 0 < length ts)
        → r ≡ (ts, ok (length ts))

  guarded : (n m : ℕ) → (0 < m → 0 < n) → (eqb n 0 && ltb 0 m) ≡ Bool.false
  guarded n m h = elim (Bool-cases (eqb n 0 && ltb 0 m)) [
    | inl both ↦ let some_before : 0 < m = ground arith in absurd (ground (arith, h some_before))
    | inr fine ↦ fine
  ]

  -- A refresh that has no answer from reflection, or any other error, leaves the tools that the server
  -- holds. One without an error sets the tools of the methods that the reflected files expose, in order,
  -- under the names of a namer of these files, and returns their number, which is not zero if the number
  -- before it was not. And it has no error if `Tools` succeeds on the reflected files, with some tool if
  -- there was one before. This assumes that the descriptor which protodesc builds of a file has the
  -- services of the file.
  pub refresh_tools-IsRefresh :
      (held : List ServerTool) (loaded : Result String (List FileProto))
      → ((new : List FileProto) → IsFaithful lib trim_space input_schema (reflected_with new))
      → IsRefresh held loaded (refresh_tools lib trim_space input_schema show cfg p held loaded)
  unfolding refresh_tools refresh_cfg replace_tools
  refresh_tools-IsRefresh held loaded faithful = record {
    unreached = λ e broken. rw broken refl;
    kept =
        λ e failed. elim cases [ inl (_, same) ↦ same | inr (new, ts, _, _, (counted, _, _)) ↦ cc ];
    replaced = λ n counts. elim cases [
      | inl ((e, failed), _) ↦ cc
      | inr (new, ts, loads, made, (counted, set, _)) ↦ (
        new,
        loads,
        ap (map identity) set
            ∙ (tools-exposed lib trim_space input_schema (reflected_with new) new ts (faithful new)
                refl made).1,
        ap length set ∙ cc,
      )
    ];
    not_emptied = λ n counts before. elim cases [
      | inl ((e, failed), _) ↦ cc
      | inr (new, ts, loads, made, (counted, set, some_tool)) ↦
          let same : length ts ≡ n = cc in ground (arith, same, some_tool before)
    ];
    succeeds = λ new ts loads made enough.
        rw loads (rw made (rw (guarded (length ts) p.previous_tool_len enough) refl));
  }
    where
      cases :
          IsAttempt lib trim_space input_schema show cfg p held loaded
            (refresh_tools lib trim_space input_schema show cfg p held loaded)
      cases = refresh_tools_cases lib trim_space input_schema show cfg p held loaded
