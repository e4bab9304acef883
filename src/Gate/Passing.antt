-- ===== src/Gate/Passing.antt =====
-- Which requests reach the handler behind the gate, and what the others are answered.
use grpcmcp.Base.{
  String, ◌≡◌, ◌≢◌, ◌⊎◌, inl, inr, false, none, List, arith, contains, lookup, ◌==◌, eq_iff,
  Bool-cases, Has, Option-cases,
}
use grpcmcp.Header.{canonical, get}
use grpcmcp.Gate.{
  Request, Response, Handler, json_rpc_error, is_found, reject_browser_origin,
  reject_unsupported_protocol_version, gate,
}

module _ (valid : List String) (quote : String → String) where
  -- no Origin header, not even an empty one, and a protocol version that is absent or supported
  pub record IsAdmitted (r : Request) : Type 0 where
    pub no_origin : lookup (canonical "Origin") r.header ≡ none
    pub version :
        (get r.header "Mcp-Protocol-Version" ≡ "") ⊎ Has valid (get r.header "Mcp-Protocol-Version")

  -- The three ways in which a request is answered, each with what it takes.
  pub data Verdict (next : Handler) (r : Request) (reply : Response) : Type 0 where
    passed : IsAdmitted r → reply ≡ next r → Verdict next r reply
    forbidden :
        lookup (canonical "Origin") r.header ≢ none
        → reply ≡ json_rpc_error 403 32600 "Origin not allowed"
        → Verdict next r reply
    bad_version :
        lookup (canonical "Origin") r.header ≡ none
        → get r.header "Mcp-Protocol-Version" ≢ ""
        → contains valid (get r.header "Mcp-Protocol-Version") ≡ false
        → reply.status ≡ 400
        → Verdict next r reply

  -- Every request gets one of three answers: the one of the handler behind the gate, if it has no
  -- Origin header and no unsupported version; 403 if it has an Origin header, even an empty one or
  -- one beside a bad version; 400 if it has none and names a version that is not supported.
  pub gate-Verdict : (next : Handler) (r : Request) → Verdict next r (gate valid quote next r)
  unfolding gate reject_browser_origin reject_unsupported_protocol_version json_rpc_error
  gate-Verdict next r =
      let version = get r.header "Mcp-Protocol-Version" in
      elim (Option-cases (lookup (canonical "Origin") r.header)) [
        | inr (vs, found) ↦ forbidden (λ e. cc) (rw (found, is_found))
        | inl none_found ↦ elim (Bool-cases (version == "")) [
          | inl empty ↦
              passed
                (record { no_origin = none_found; version = inl ((eq_iff version "").0 empty) })
                (ground (arith, none_found, empty))
          | inr named ↦ elim (Bool-cases (contains valid version)) [
            | inl supported ↦
                passed (record { no_origin = none_found; version = inr supported })
                  (ground (arith, none_found, supported))
            | inr unsupported ↦
                bad_version none_found (λ e. cc ((eq_iff version "").1 e)) unsupported
                  (ground (arith, none_found, named, unsupported))
          ]
        ]
      ]

  -- Only an admitted request can make two handlers behind the gate answer differently: no other
  -- request reaches them.
  pub reached-IsAdmitted :
      (next other : Handler) (r : Request)
      → gate valid quote next r ≢ gate valid quote other r
      → IsAdmitted r
  unfolding gate reject_browser_origin reject_unsupported_protocol_version
  reached-IsAdmitted next other r differ = elim (gate-Verdict next r) [
    | passed a _ ↦ a
    | forbidden present _ ↦ absurd (differ (ground (arith, present)))
    | bad_version gone named unsupported _ ↦ absurd (
        differ (
          ground
            (arith, gone, unsupported, named, eq_iff (get r.header "Mcp-Protocol-Version") "")))
  ]
