-- ===== src/Cert/Faults.antt =====
-- What a reload of `certReloader` (tls.go) does when the files cannot be loaded.
use Prim.Native.String.{String}
use grpcmcp.Base.{ℕ, ◌<◌, ◌≡◌, ◌↔◌, refl, ◌∙◌, false, Option, none, some, arith, eq_refl}
use grpcmcp.Base.Results.{ok, err}
use grpcmcp.Cert.{
  Certificate, Disk, Reloader, Reload, load_key_pair, unchanged, reload, keep_previous,
  expired_message, kept_message, load_again, or_load, with_leaf, load_error, parse_error,
}

-- the files have changed, or cannot be read, and the load reports an error
pub record Fails (r : Reloader) (d : Disk) (e : String) : Type 0 where
  pub changed : unchanged r d ≡ false
  pub error : load_key_pair r d ≡ err e

-- the record of the last failure plays no part in a load
load_key_pair-failure :
    (r : Reloader) (d : Disk) (m : String)
    → load_key_pair (record r { last_failure = m }) d ≡ load_key_pair r d
unfolding load_key_pair with_leaf load_error parse_error
load_key_pair-failure r d m = refl

module _ (format : ℕ → String) where
  pub reload-Fails :
      (r : Reloader) (d : Disk) {e : String}
      → Fails r d e
      → reload format r d ≡ keep_previous format r d e r.cert
  unfolding reload load_again or_load
  reload-Fails r d {e} f = ground (arith, f.changed, f.error)

  abbrev pub FaultReply : Reloader → Disk → Option Certificate → Reload → Type 0
  FaultReply r d held reply =
      ((c : Certificate) → (reply.result ≡ ok c) ↔ ((held ≡ some c) × (d.now < c.not_after)))
      × (reply.state.cert ≡ r.cert)
      × (reply.state.cert_mod ≡ r.cert_mod)
      × (reply.state.key_mod ≡ r.key_mod)

  pub keep_previous-FaultReply :
      (r : Reloader) (d : Disk) (e : String) (held : Option Certificate)
      → FaultReply r d held (keep_previous format r d e held)
  unfolding keep_previous
  keep_previous-FaultReply r d e none = (λ c. ground arith, refl, refl, refl)
  keep_previous-FaultReply r d e (some old) =
      (λ c. ground arith, ground arith, ground arith, ground arith)

  -- When a load fails, a certificate is returned exactly while the previous one has not expired,
  -- and it is the previous one; the state keeps the certificate and both modification times.
  pub reload_after_failure :
      (r : Reloader) (d : Disk) (e : String)
      → Fails r d e
      → ((c : Certificate)
          → ((reload format r d).result ≡ ok c) ↔ ((r.cert ≡ some c) × (d.now < c.not_after)))
        × ((reload format r d).state.cert ≡ r.cert)
        × ((reload format r d).state.cert_mod ≡ r.cert_mod)
        × ((reload format r d).state.key_mod ≡ r.key_mod)
  reload_after_failure r d e f = rw (reload-Fails r d f) (keep_previous-FaultReply r d e r.cert)

  keep_previous-state :
      (r : Reloader) (d : Disk) (e : String) (held : Option Certificate)
      → (keep_previous format r d e held).state
        ≡ record r { last_failure = (keep_previous format r d e held).state.last_failure }
  unfolding keep_previous
  keep_previous-state r d e none = refl
  keep_previous-state r d e (some c) = ground arith

  pub keep_previous-Fails :
      (r : Reloader) (d : Disk) (e : String) (held : Option Certificate)
      → Fails r d e
      → Fails (keep_previous format r d e held).state d e
  unfolding unchanged
  keep_previous-Fails r d e held f = record {
    changed = rw (keep_previous-state r d e held) f.changed;
    error = rw (keep_previous-state r d e held) (load_key_pair-failure r d _ ∙ f.error);
  }

  -- A failure that has just been logged is not logged again, and the reply is the same.
  pub keep_previous_twice :
      (r : Reloader) (d : Disk) (e : String) (held : Option Certificate)
      → keep_previous format (keep_previous format r d e held).state d e held
        ≡ record (keep_previous format r d e held) { message = "" }
  unfolding keep_previous
  keep_previous_twice r d e none = refl
  keep_previous_twice r d e (some c) =
      ground (arith, eq_refl (expired_message format e c), eq_refl (kept_message format e c))
