-- ===== src/Refresh/Keeping.antt =====
-- `refreshTools` and the loop of `main`: when the tools are replaced, and when they are kept.
use mathlib.Core.Path.{subst}
use mathlib.Core.List.{Memᴰ}
use grpcmcp.Base.{
  sym, ℕ, String, Bool, ◌≡◌, ◌≢◌, ◌<◌, refl, ◌⊎◌, inl, inr, List, [], ◌∷◌, length, arith, eqb, ltb,
  ◌&&◌, Bool-cases,
}
use grpcmcp.Base.Results.{Result, ok, err, Result-cases}
use grpcmcp.Descriptor.{Method, FileProto}
use grpcmcp.Naming.{Registries}
use grpcmcp.Tools.{ServerTool, Config, tools}
use grpcmcp.Refresh.{
  RefreshParams, refresh_cfg, replace_tools, refresh_tools, refresh_loop, count_after,
}

module _ {R : Type 0} (lib : Registries R) (trim_space : String → String)
    (input_schema : Bool → Method → Result String String) (show : ℕ → String) (cfg : Config) where
  -- the attempt has an error and leaves the tools
  abbrev pub Keeps : List ServerTool → List ServerTool × Result String ℕ → Type 0
  Keeps held r = ((e : String) × (r.1 ≡ err e)) × (r.0 ≡ held)

  -- the attempt sets these tools and counts them
  abbrev pub Sets : RefreshParams → List ServerTool → List ServerTool × Result String ℕ → Type 0
  Sets p ts r = (r.1 ≡ ok (length ts)) × (r.0 ≡ ts) × (0 < p.previous_tool_len → 0 < length ts)

  replace_tools_cases :
      (p : RefreshParams) (held ts : List ServerTool)
      → Keeps held (replace_tools lib trim_space input_schema show p held (ok ts))
        ⊎ Sets p ts (replace_tools lib trim_space input_schema show p held (ok ts))
  unfolding replace_tools
  replace_tools_cases p held ts =
      elim (Bool-cases (eqb (length ts) 0 && ltb 0 p.previous_tool_len)) [
        | inl lost ↦ rw lost (inl ((_, refl), refl))
        | inr fine ↦ rw fine (inr (refl, refl, λ some_tool. ground arith))
      ]

  -- an attempt keeps the tools, or sets those that `Tools` builds with the configuration of the refresh
  abbrev pub IsAttempt :
      RefreshParams
      → List ServerTool
      → Result String (List FileProto)
      → List ServerTool × Result String ℕ
      → Type 0
  IsAttempt p held loaded r =
      Keeps held r
      ⊎ ((new : List FileProto) × (ts : List ServerTool) × (loaded ≡ ok new)
          × (tools lib trim_space input_schema
                (refresh_cfg lib trim_space input_schema show cfg p new)
              ≡ ok ts)
          × Sets p ts r)

  pub refresh_tools_cases :
      (p : RefreshParams) (held : List ServerTool) (loaded : Result String (List FileProto))
      → IsAttempt p held loaded (refresh_tools lib trim_space input_schema show cfg p held loaded)
  unfolding refresh_tools replace_tools
  refresh_tools_cases p held (err e) = inl ((e, refl), refl)
  refresh_tools_cases p held (ok new) =
      elim (Result-cases (
        tools lib trim_space input_schema
          (refresh_cfg lib trim_space input_schema show cfg p new))) [
            | inr (e, failed) ↦ rw failed (inl ((e, refl), refl))
            | inl (ts, built) ↦ elim (replace_tools_cases p held ts) [
              | inl kept ↦ rw built (inl kept)
              | inr set ↦ inr (new, ts, refl, built, rw built set)
            ]
          ]

  abbrev pub IsLive : List ServerTool × ℕ → Type 0
  IsLive s = (s.0 ≢ []) × (0 < s.1)

  -- A server that holds tools, and whose count of them is not zero, holds tools after any number of
  -- refreshes, whatever the backend answers.
  pub refresh_loop-IsLive :
      (p : RefreshParams) (ticks : List (Result String (List FileProto)))
      → (state : List ServerTool × ℕ) → IsLive state
      → IsLive (refresh_loop lib trim_space input_schema show cfg p ticks state)
  unfolding refresh_loop
  refresh_loop-IsLive p [] (held, n) live = live
  refresh_loop-IsLive p (loaded ∷ ticks) (held, n) live =
      refresh_loop-IsLive p ticks _
        (step (refresh_tools_cases (record p { previous_tool_len = n }) held loaded))
    where
      reply : List ServerTool × Result String ℕ
      reply =
          refresh_tools lib trim_space input_schema show cfg (record p { previous_tool_len = n })
            held loaded

      step :
          IsAttempt (record p { previous_tool_len = n }) held loaded reply
          → IsLive (reply.0, count_after lib trim_space input_schema show n reply.1)
      step (inl ((e, failed), same)) = rw failed (rw same live)
      step (inr (new, ts, _, _, (done, set, some_tool))) =
          rw done (rw set (non_empty ts (some_tool live.1), some_tool live.1))
        where
          non_empty : (l : List ServerTool) → 0 < length l → l ≢ []
          non_empty [] h = absurd (omega arith)
          non_empty (t ∷ l) h = λ e. cc

  -- What holds of the tools that are held, and of all that are built from files which one of the ticks
  -- answers with, holds after these ticks.
  pub refresh_loop-Holds :
      (P : List ServerTool → Type 0)
      → (p : RefreshParams) (ticks : List (Result String (List FileProto)))
      → ((n : ℕ) (new : List FileProto) (ts : List ServerTool)
          → Memᴰ (ok new) ticks
          → tools lib trim_space input_schema (
              refresh_cfg lib trim_space input_schema show cfg
                (record p { previous_tool_len = n })
                new)
            ≡ ok ts
          → P ts)
      → (state : List ServerTool × ℕ) → P state.0
      → P (refresh_loop lib trim_space input_schema show cfg p ticks state).0
  unfolding refresh_loop
  refresh_loop-Holds P p [] built state h = h
  refresh_loop-Holds P p (loaded ∷ ticks) built (held, n) h =
      refresh_loop-Holds P p ticks (λ k new ts later. built k new ts (Memᴰ.tail later)) _
        (elim (refresh_tools_cases (record p { previous_tool_len = n }) held loaded) [
          | inl (failed, kept) ↦ subst P (sym kept) h
          | inr (new, ts, answered, made, (_, set, _)) ↦
              subst P (sym set) (built n new ts (Memᴰ.head (sym answered)) made)
        ])

  -- the services and the filter of the configuration are those of each refresh
  pub refresh_cfg_lem :
      (p : RefreshParams) (new : List FileProto)
      → ((refresh_cfg lib trim_space input_schema show cfg p new).services ≡ cfg.services)
        × ((refresh_cfg lib trim_space input_schema show cfg p new).method_filter
            ≡ cfg.method_filter)
  unfolding refresh_cfg
  refresh_cfg_lem p new = (refl, refl)
