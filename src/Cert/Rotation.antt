-- ===== src/Cert/Rotation.antt =====
-- What a reload of `certReloader` (tls.go) does when the files load, and a second call of it.
use Prim.Native.String.{String}
use grpcmcp.Base.{
  ℕ, ◌≡◌, refl, ap, ◌∙◌, inl, inr, true, false, some, arith, eq_refl, Bool-cases, eqb,
}
use grpcmcp.Base.Results.{ok, Result-cases}
use grpcmcp.Cert.{
  Certificate, Disk, Reloader, load_key_pair, unchanged, reload, keep_previous, install, load_again,
  or_load, stat_ok, with_leaf, load_error, parse_error,
}
use grpcmcp.Cert.Faults.{
  Fails, reload-Fails, keep_previous_twice, keep_previous-Fails, keep_previous-FaultReply,
}

eqb_refl : (n : ℕ) → eqb n n ≡ true
eqb_refl n = ground arith

pub unchanged-held :
    (r : Reloader) (d : Disk) → unchanged r d ≡ true → (c : Certificate) × (r.cert ≡ some c)
unfolding unchanged
unchanged-held r d same = ground arith

module _ (format : ℕ → String) where
  pub reload-install :
      (r : Reloader) (d : Disk) {c : Certificate}
      → unchanged r d ≡ false
      → load_key_pair r d ≡ ok c
      → reload format r d ≡ install format r d c
  unfolding reload load_again or_load
  reload-install r d {c} changed loaded = ground (arith, changed, loaded)

  pub reload-in_hand :
      (r : Reloader) (d : Disk) {c : Certificate}
      → unchanged r d ≡ true
      → r.cert ≡ some c
      → reload format r d ≡ record { state = r; message = ""; result = ok c }
  unfolding reload or_load
  reload-in_hand r d {c} same held = ground (arith, same, held)

  install-unchanged :
      (r : Reloader) (d e : Disk) (c : Certificate)
      → stat_ok d ≡ true
      → d.cert_stat ≡ e.cert_stat
      → d.key_stat ≡ e.key_stat
      → unchanged (install format r d c).state e ≡ true
  unfolding install unchanged
  install-unchanged r d e c ready p q = ground arith

  -- When the files have changed and load, the new certificate is served and kept, the record of the
  -- last failure is cleared, and the next call, if both modification times stay, returns it again without a load.
  pub reload_rotates :
      (r : Reloader) (d e : Disk) (c : Certificate)
      → unchanged r d ≡ false
      → load_key_pair r d ≡ ok c
      → stat_ok d ≡ true
      → d.cert_stat ≡ e.cert_stat
      → d.key_stat ≡ e.key_stat
      → ((reload format r d).result ≡ ok c)
        × ((reload format r d).state.last_failure ≡ "")
        × (reload format (reload format r d).state e
            ≡ record { state = (reload format r d).state; message = ""; result = ok c })
  reload_rotates r d e c changed loaded ready p q = rw (reload-install r d changed loaded) (
      unfold install in
      (
        refl,
        refl,
        reload-in_hand (install format r d c).state e (install-unchanged r d e c ready p q) refl,
      ))

  install-loads :
      (r : Reloader) (d : Disk) (c : Certificate)
      → load_key_pair r d ≡ ok c
      → load_key_pair (install format r d c).state d ≡ ok c
  unfolding install load_key_pair with_leaf load_error parse_error
  install-loads r d c loaded = loaded

  install_twice :
      (r : Reloader) (d : Disk) (c : Certificate)
      → install format (install format r d c).state d c
        ≡ record (install format r d c) { message = "" }
  unfolding install
  install_twice r d c = ground (arith, eq_refl c.der)

  install-in_hand :
      (r : Reloader) (d : Disk) (c : Certificate)
      → unchanged (install format r d c).state d ≡ true
      → reload format (install format r d c).state d
        ≡ record (install format r d c) { message = "" }
  unfolding install
  install-in_hand r d c same = reload-in_hand (install format r d c).state d same refl

  install-reload :
      (r : Reloader) (d : Disk) (c : Certificate)
      → load_key_pair r d ≡ ok c
      → reload format (install format r d c).state d
        ≡ record (install format r d c) { message = "" }
  install-reload r d c loaded =
      let r' : Reloader = (install format r d c).state in
      elim (Bool-cases (unchanged r' d)) [
        | inl same ↦ install-in_hand r d c same
        | inr changed ↦
            reload-install r' d changed (install-loads r d c loaded) ∙ install_twice r d c
      ]

  fail-reload :
      (r : Reloader) (d : Disk) (e : String)
      → Fails r d e
      → reload format (keep_previous format r d e r.cert).state d
        ≡ record (keep_previous format r d e r.cert) { message = "" }
  fail-reload r d e f =
      let again =
        reload-Fails format (keep_previous format r d e r.cert).state d
          (keep_previous-Fails format r d e r.cert f) in
      let same = (keep_previous-FaultReply format r d e r.cert).1 in
      again
      ∙ ap (keep_previous format (keep_previous format r d e r.cert).state d e) same
      ∙ keep_previous_twice format r d e r.cert

  -- A second call under the same conditions changes nothing, logs nothing and has the same result.
  pub reload_settles :
      (r : Reloader) (d : Disk)
      → reload format (reload format r d).state d ≡ record (reload format r d) { message = "" }
  reload_settles r d = elim (Bool-cases (unchanged r d)) [
    | inl same ↦
        let (c, held) = unchanged-held r d same in
        rw (reload-in_hand r d same held) (reload-in_hand r d same held)
    | inr changed ↦ elim (Result-cases (load_key_pair r d)) [
      | inl (c, loaded) ↦ rw (reload-install r d changed loaded) (install-reload r d c loaded)
      | inr (e, failed) ↦
          let f : Fails r d e = record { changed = changed; error = failed } in
          rw (reload-Fails format r d f) (fail-reload r d e f)
    ]
  ]
