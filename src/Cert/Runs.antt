-- ===== src/Cert/Runs.antt =====
-- A whole run of handshakes: where the certificates come from.
use Prim.Native.String.{String}
use mathlib.Core.Path.{subst}
use grpcmcp.Base.{ℕ, sym, inl, inr, Option, none, some, List, [], ◌∷◌, ◌++◌, Bool-cases, All, leb}
use grpcmcp.Base.Results.{Result, ok, err, Result-cases}
use grpcmcp.Cert.{
  Certificate, Disk, Reloader, load_key_pair, unchanged, reload, certificate, keep_previous,
  install,
}
use grpcmcp.Cert.Faults.{Fails, reload-Fails, keep_previous-FaultReply}
use grpcmcp.Cert.Rotation.{reload-install, reload-in_hand, unchanged-held}

module _ (format : ℕ → String) where
  -- the states, the log and the results of the calls of `certificate`, one for each disk
  pub record Trace : Type 0 where
    pub final : Reloader
    pub log : List String
    pub results : List (Result String Certificate)

  unfoldable pub run : Reloader → List Disk → Trace
  unfolding certificate
  run r [] = record { final = r; log = []; results = [] }
  run r (d ∷ ds) =
      let (r', log, result) = certificate format r d in
      let rest = run r' ds in
      record { final = rest.final; log = log ++ rest.log; results = result ∷ rest.results }

  module _ (P : Certificate → Type 0) where
    abbrev pub OfOption : Option Certificate → Type 0
    OfOption none = Unit
    OfOption (some c) = P c

    abbrev pub OfResult : Result String Certificate → Type 0
    OfResult (ok c) = P c
    OfResult (err e) = Unit

    -- what the load of the disk gives satisfies `P`
    abbrev pub IsSource : Disk → Type 0
    IsSource d = (r : Reloader) → OfResult (load_key_pair r d)

    keep_previous-All :
        (r : Reloader) (d : Disk) (e : String) (held : Option Certificate)
        → OfOption held
        → OfResult (keep_previous format r d e held).result
    unfolding keep_previous
    keep_previous-All r d e none h = tt
    keep_previous-All r d e (some c) h = elim (Bool-cases (leb c.not_after d.now)) [
      | inl expired ↦ rw expired tt
      | inr valid ↦ rw valid h
    ]

    install-All :
        (r : Reloader) (d : Disk) (c : Certificate)
        → P c
        → OfResult (install format r d c).result × OfOption (install format r d c).state.cert
    unfolding install
    install-All r d c h = (h, h)

    reload-All :
        (r : Reloader) (d : Disk)
        → OfOption r.cert
        → IsSource d
        → OfResult (reload format r d).result × OfOption (reload format r d).state.cert
    reload-All r d held source = elim (Bool-cases (unchanged r d)) [
      | inl same ↦
          let (c, has) = unchanged-held r d same in
          rw (reload-in_hand format r d same has) (subst OfOption has held, held)
      | inr changed ↦ elim (Result-cases (load_key_pair r d)) [
        | inl (c, loaded) ↦
            rw (reload-install format r d changed loaded)
              (install-All r d c (subst OfResult loaded (source r)))
        | inr (e, failed) ↦
            let f : Fails r d e = record { changed = changed; error = failed } in
            rw (reload-Fails format r d f) (
              keep_previous-All r d e r.cert held,
              subst OfOption (sym (keep_previous-FaultReply format r d e r.cert).1) held,
            )
      ]
    ]

    -- Over a whole run, every certificate that is returned, and the one that is kept at the end, is
    -- one that a load of some disk of the run gave, or the one held at the start: whatever holds of
    -- these holds of it.
    pub run-All :
        (r : Reloader) (ds : List Disk)
        → OfOption r.cert
        → All IsSource ds
        → All OfResult (run r ds).results × OfOption (run r ds).final.cert
    unfolding run
    run-All r [] held sources = (tt, held)
    run-All r (d ∷ ds) held sources =
        let (here, kept) = reload-All r d held sources.0 in
        let (later, last) = run-All (reload format r d).state ds kept sources.1 in
        ((here, later), last)
