-- ===== src/Refresh.antt =====
-- refresh.go: `refreshTools`, and the loop of `main` that calls it at each tick. What reflection
-- answers to an attempt, its deadline included, is a parameter; the server holds a list of tools.
pub mod Keeping
pub mod Replaced
mod Examples
use Prim.Native.String
use grpcmcp.Base.{
  ℕ, String, Bool, ◌&&◌, Option, some, List, [], ◌∷◌, length, eqb, ltb, if◌then◌else◌,
}
use grpcmcp.Base.Results.{Result, ok, err}
use grpcmcp.Descriptor.{Method, FileProto}
use grpcmcp.Naming.{Registries, build_tool_namer}
use grpcmcp.Tools.{ServerTool, Config, tools}

-- `refreshParams`, less what goes into the reflection call
pub record RefreshParams : Type 0 where
  pub services : List String
  pub method_filter : Option (Method → Bool)
  pub previous_tool_len : ℕ

-- `show` is the verb %d.
module _ {R : Type 0} (lib : Registries R) (trim_space : String → String)
    (input_schema : Bool → Method → Result String String) (show : ℕ → String) where
  unfoldable pub refresh_cfg : Config → RefreshParams → List FileProto → Config
  refresh_cfg cfg p new = record cfg {
    descriptors = some new;
    tool_name = some (build_tool_namer lib new p.services p.method_filter);
  }

  keeping_message : ℕ → String
  keeping_message n =
      String.◌++◌ "reflection matched no tools, keeping the " (String.◌++◌ (show n) " in place")

  -- what follows the build of the tools
  unfoldable pub replace_tools :
      RefreshParams
      → List ServerTool
      → Result String (List ServerTool)
      → List ServerTool × Result String ℕ
  unfolding keeping_message
  replace_tools p held (err e) = (held, err e)
  replace_tools p held (ok ts) =
      if eqb (length ts) 0 && ltb 0 p.previous_tool_len
      then (held, err (keeping_message p.previous_tool_len))
      else (ts, ok (length ts))

  -- the tools that the server holds after the attempt, and what the attempt returns
  unfoldable pub refresh_tools :
      Config
      → RefreshParams
      → List ServerTool
      → Result String (List FileProto)
      → List ServerTool × Result String ℕ
  unfolding refresh_cfg replace_tools
  refresh_tools cfg p held (err e) = (held, err e)
  refresh_tools cfg p held (ok new) =
      replace_tools p held (tools lib trim_space input_schema (refresh_cfg cfg p new))

  abbrev pub count_after : ℕ → Result String ℕ → ℕ
  count_after n (ok m) = m
  count_after n (err e) = n

  -- the loop of `main`, one attempt for each tick: the tools held, and `toolCount`
  unfoldable pub refresh_loop :
      Config
      → RefreshParams
      → List (Result String (List FileProto))
      → List ServerTool × ℕ
      → List ServerTool × ℕ
  unfolding refresh_tools
  refresh_loop cfg p [] (held, n) = (held, n)
  refresh_loop cfg p (loaded ∷ ticks) (held, n) =
      let (held', result) = refresh_tools cfg (record p { previous_tool_len = n }) held loaded in
      refresh_loop cfg p ticks (held', count_after n result)
