-- ===== src/Refresh/Examples.antt =====
-- Refreshes of a server with one tool: a backend that is down, then one that lists nothing.
use grpcmcp.Base.{ℕ, String, none, [], ◌∷◌, arith}
use grpcmcp.Base.Results.{ok, err}
use grpcmcp.Naming.Examples.{file, registries}
use grpcmcp.Tools.Examples.{config, trim, schema, get_tool}
use grpcmcp.Refresh.{RefreshParams, refresh_tools, refresh_loop}
use grpcmcp.Refresh.Replaced.{IsRefresh, refresh_tools-IsRefresh}
use grpcmcp.Refresh.Keeping.{IsLive, refresh_loop-IsLive}

abbrev params : RefreshParams
params = record { services = []; method_filter = none; previous_tool_len = 1 }

abbrev show : ℕ → String
show n = "1"

refresh_tools-IsRefresh_example :
    IsRefresh registries trim schema show config params
      (get_tool ∷ [])
      (ok (file ∷ []))
      (refresh_tools registries trim schema show config params (get_tool ∷ []) (ok (file ∷ [])))
refresh_tools-IsRefresh_example =
    refresh_tools-IsRefresh registries trim schema show config params (get_tool ∷ [])
      (ok (file ∷ [])) (λ new f reg d h. cc)

refresh_loop-IsLive_example : IsLive registries trim schema show config (
    refresh_loop registries trim schema show config params
      (err "down" ∷ ok [] ∷ [])
      (get_tool ∷ [], 1))
refresh_loop-IsLive_example =
    refresh_loop-IsLive registries trim schema show config params (err "down" ∷ ok [] ∷ [])
      (get_tool ∷ [], 1) (λ e. cc, omega arith)
