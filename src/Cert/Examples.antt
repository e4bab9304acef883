-- ===== src/Cert/Examples.antt =====
-- A reloader with a certificate, before files that fail to load and files that load.
use Prim.Native.String.{String}
use grpcmcp.Base.{arith, ℕ, ◌≡◌, ◌↔◌, ◌<◌, refl, true, false, some, [], ◌∷◌, All}
use grpcmcp.Base.Results.{ok, err}
use grpcmcp.Cert.{
  Certificate, Disk, Reloader, load_key_pair, with_leaf, load_error, unchanged, stat_ok, reload,
}
use grpcmcp.Cert.Faults.{Fails, reload_after_failure}
use grpcmcp.Cert.Rotation.{reload_rotates}
use grpcmcp.Cert.Runs.{OfResult, OfOption, run, run-All}
use grpcmcp.Cert.Log.{FailsAlong}

abbrev old : Certificate
old = record { der = "old"; not_after = 100 }

abbrev renewed : Certificate
renewed = record { der = "new"; not_after = 200 }

abbrev holding : Reloader
holding = record {
  cert_file = "crt";
  key_file = "key";
  cert = some old;
  cert_mod = 1;
  key_mod = 1;
  last_failure = "";
}

abbrev broken : Disk
broken = record {
  cert_stat = some 2;
  key_stat = some 1;
  key_pair = err "no match";
  parse_leaf = err "unused";
  now = 50;
}

abbrev rotated : Disk
rotated = record {
  cert_stat = some 2;
  key_stat = some 2;
  key_pair = ok (record { first = "new"; leaf = some 200 });
  parse_leaf = err "unused";
  now = 50;
}

abbrev later : Disk
later = record rotated { now = 60 }

abbrev print : ℕ → String
print n = "then"

broken-Fails : Fails holding broken "load certificate (crt, key): no match"
unfolding unchanged stat_ok load_key_pair load_error
broken-Fails = record { changed = refl; error = refl }

reload_after_failure_example :
    ((c : Certificate)
      → ((reload print holding broken).result ≡ ok c)
        ↔ ((holding.cert ≡ some c) × (50 < c.not_after)))
    × ((reload print holding broken).state.cert ≡ some old)
    × ((reload print holding broken).state.cert_mod ≡ 1)
    × ((reload print holding broken).state.key_mod ≡ 1)
reload_after_failure_example =
    reload_after_failure print holding broken "load certificate (crt, key): no match" broken-Fails

rotated-changed : unchanged holding rotated ≡ false
unfolding unchanged stat_ok
rotated-changed = refl

rotated-loads : load_key_pair holding rotated ≡ ok renewed
unfolding load_key_pair with_leaf
rotated-loads = refl

rotated-ready : stat_ok rotated ≡ true
unfolding stat_ok
rotated-ready = refl

reload_rotates_example :
    ((reload print holding rotated).result ≡ ok renewed)
    × ((reload print holding rotated).state.last_failure ≡ "")
    × (reload print (reload print holding rotated).state later ≡ record {
      state = (reload print holding rotated).state;
      message = "";
      result = ok renewed;
    })
reload_rotates_example =
    reload_rotates print holding rotated later renewed rotated-changed rotated-loads rotated-ready
      refl refl

abbrev IsSmall : Certificate → Type 0
IsSmall c = c.not_after < 300

sources :
    All (λ d. (r : Reloader) → OfResult print IsSmall (load_key_pair r d)) (broken ∷ rotated ∷ [])
unfolding load_key_pair with_leaf
sources = (λ r. tt, (λ r. omega arith, tt))

run-All_example :
    All (OfResult print IsSmall) (run print holding (broken ∷ rotated ∷ [])).results
    × OfOption print IsSmall (run print holding (broken ∷ rotated ∷ [])).final.cert
run-All_example = run-All print IsSmall holding (broken ∷ rotated ∷ []) (omega arith) sources

run-fails : FailsAlong print holding (broken ∷ [])
run-fails = (("load certificate (crt, key): no match", broken-Fails), tt)
