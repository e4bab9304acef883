-- ===== src/Gate/Examples.antt =====
-- Requests at the gate.
use grpcmcp.Base.{String, ◌≢◌, ap, List, [], ◌∷◌, arith, eq_iff, lookup}
use grpcmcp.Header.{get}
use grpcmcp.Gate.{
  Request, Handler, Body, other, rpc_error, gate, reject_browser_origin,
  reject_unsupported_protocol_version,
}
use grpcmcp.Gate.Passing.{Verdict, gate-Verdict}

abbrev versions : List String
versions = "2025-06-18" ∷ []

abbrev plain : Request
plain = record { header = []; body = "{}" }

abbrev from_browser : Request
from_browser = record { header = ("Origin", "https://x" ∷ []) ∷ []; body = "{}" }

abbrev answer : String → Handler
answer s r = record { status = 200; content_type = "application/json"; body = other s }

abbrev text_of : Body → String
text_of (other s) = s
text_of (rpc_error e) = ""

gate-Verdict_example :
    Verdict versions
      (λ s. s)
      (answer "yes")
      from_browser
      (gate versions (λ s. s) (answer "yes") from_browser)
gate-Verdict_example = gate-Verdict versions (λ s. s) (answer "yes") from_browser

reached : gate versions (λ s. s) (answer "yes") plain ≢ gate versions (λ s. s) (answer "no") plain
unfolding gate reject_browser_origin reject_unsupported_protocol_version lookup get
reached e = ground (arith, eq_iff "yes" "no", ap (λ r. text_of r.body) e)
