-- ===== src/Cert/Log.antt =====
-- The log of a run in which every load fails.
use Prim.Native.String.{String}
use mathlib.Core.Path.{subst}
use text.Mathlib.TextLemmas.{append-eq-nil_iff}
use grpcmcp.Base.{
  ℕ, ◌≡◌, ◌≢◌, ◌⊎◌, inl, inr, Option, none, some, List, [], ◌∷◌, ◌++◌, arith, ◌==◌, eq_iff,
  Bool-cases, if◌then◌else◌, refl,
}
use grpcmcp.Cert.{
  Certificate, Disk, Reloader, Reload, reload, certificate, keep_previous, expired_message,
  kept_message,
}
use grpcmcp.Cert.Faults.{Fails, reload-Fails}
use grpcmcp.Cert.Runs.{run}

module _ (format : ℕ → String) where
  -- every call of the run fails to load
  abbrev pub FailsAlong : Reloader → List Disk → Type 0
  FailsAlong r [] = Unit
  FailsAlong r (d ∷ ds) = ((e : String) × Fails r d e) × FailsAlong (reload format r d).state ds

  -- no line of the log repeats the line before it
  abbrev pub NoRepeat : String → List String → Type 0
  NoRepeat last [] = Unit
  NoRepeat last (m ∷ ms) = (m ≢ last) × NoRepeat m ms

  semicolon : ◌≢◌ {A = String} "; using the previous certificate, which expires " ""
  semicolon = ground (arith, eq_iff "; using the previous certificate, which expires " "")

  semicolon' : ◌≢◌ {A = String} "; the previous certificate expired " ""
  semicolon' = ground (arith, eq_iff "; the previous certificate expired " "")

  kept_message-ne-empty : (e : String) (c : Certificate) → kept_message format e c ≢ ""
  unfolding kept_message
  kept_message-ne-empty e c h = semicolon (append-eq-nil_iff.0 (append-eq-nil_iff.0 h).1).0

  expired_message-ne-empty : (e : String) (c : Certificate) → expired_message format e c ≢ ""
  unfolding expired_message
  expired_message-ne-empty e c h = semicolon' (append-eq-nil_iff.0 (append-eq-nil_iff.0 h).1).0

  -- what one failing call adds to the log, and what it remembers
  abbrev Logs : Reloader → Reload → Type 0
  Logs r reply =
      ((reply.message ≡ "") × (reply.state.last_failure ≡ r.last_failure))
      ⊎ ((reply.message ≢ "")
          × (reply.message ≢ r.last_failure)
          × (reply.state.last_failure ≡ reply.message))

  keep_previous-Logs :
      (r : Reloader) (d : Disk) (e : String) (held : Option Certificate)
      → Logs r (keep_previous format r d e held)
  unfolding keep_previous
  keep_previous-Logs r d e none = inl (refl, refl)
  keep_previous-Logs r d e (some c) = ground (
    arith,
    eq_iff (kept_message format e c) r.last_failure,
    eq_iff (expired_message format e c) r.last_failure,
    kept_message-ne-empty e c,
    expired_message-ne-empty e c,
  )

  -- While every load fails, no message is logged twice in a row, nor the one that was last recorded.
  pub run-NoRepeat :
      (r : Reloader) (ds : List Disk)
      → FailsAlong r ds
      → NoRepeat r.last_failure (run format r ds).log
  unfolding run certificate
  run-NoRepeat r [] h = tt
  run-NoRepeat r (d ∷ ds) ((e, f), h) =
      let rest = run-NoRepeat (reload format r d).state ds h in
      go (reload format r d) (rw (reload-Fails format r d f) (keep_previous-Logs r d e r.cert))
        (run format (reload format r d).state ds).log rest
    where
      go :
          (reply : Reload)
          → Logs r reply
          → (log : List String) → NoRepeat reply.state.last_failure log
          → NoRepeat r.last_failure
              ((if reply.message == "" then [] else reply.message ∷ []) ++ log)
      go reply (inl (quiet, same)) log h =
          rw ((eq_iff reply.message "").1 quiet) (subst (λ l. NoRepeat l log) same h)
      go reply (inr (loud, new, kept)) log h = elim (Bool-cases (reply.message == "")) [
        | inl empty ↦ absurd (loud ((eq_iff reply.message "").0 empty))
        | inr full ↦ rw full (new, subst (λ l. NoRepeat l log) kept h)
      ]
