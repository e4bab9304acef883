-- ===== src/Cert.antt =====
-- tls.go: `certReloader`, which serves a certificate from two files and follows their rotation.
-- The files, the clock and the parsing of certificates belong to the system and to crypto/tls: what
-- they answer during one call is a `Disk`. A time is a number of seconds, and `format` prints it.
pub mod Faults
pub mod Rotation
pub mod Runs
pub mod Log
mod Examples
use Prim.Native.String
use grpcmcp.Base.{
  is_some, ℕ, String, Bool, true, false, not, ◌&&◌, Option, none, some, List, [], ◌∷◌, leb, eqb,
  ◌==◌, if◌then◌else◌,
}
use grpcmcp.Base.Texts.{◌⧺◌}
use grpcmcp.Base.Results.{Result, ok, err}

-- tls.Certificate with its leaf: the first DER block and the leaf's NotAfter
pub record Certificate : Type 0 where
  pub der : String
  pub not_after : ℕ

-- what tls.LoadX509KeyPair returns: the leaf may be left to the caller to parse
pub record KeyPair : Type 0 where
  pub first : String
  pub leaf : Option ℕ

pub record Disk : Type 0 where
  -- os.Stat of the two files: the modification time, or nothing on an error
  pub cert_stat : Option ℕ
  pub key_stat : Option ℕ
  -- tls.LoadX509KeyPair, and x509.ParseCertificate of the first block
  pub key_pair : Result String KeyPair
  pub parse_leaf : Result String ℕ
  pub now : ℕ

pub record Reloader : Type 0 where
  pub cert_file : String
  pub key_file : String
  pub cert : Option Certificate
  pub cert_mod : ℕ
  pub key_mod : ℕ
  pub last_failure : String

-- fmt.Errorf of the two failures of `loadKeyPair`
pub load_error : Reloader → String → String
load_error r e = "load certificate (" ⧺ r.cert_file ⧺ ", " ⧺ r.key_file ⧺ "): " ⧺ e

pub parse_error : Reloader → String → String
parse_error r e = "parse certificate " ⧺ r.cert_file ⧺ ": " ⧺ e

unfoldable pub with_leaf :
    Reloader → String → Option ℕ → Result String ℕ → Result String Certificate
with_leaf r first (some t) parsed = ok (record { der = first; not_after = t })
with_leaf r first none (ok t) = ok (record { der = first; not_after = t })
with_leaf r first none (err e) = err (parse_error r e)

pub load_key_pair : Reloader → Disk → Result String Certificate
load_key_pair r d = elim d.key_pair [
  | ok p ↦ with_leaf r p.first p.leaf d.parse_leaf
  | err e ↦ err (load_error r e)
]

abbrev pub at_mod : Option ℕ → ℕ → Bool
at_mod none m = false
at_mod (some t) m = eqb t m

abbrev pub mod_or : Option ℕ → ℕ → ℕ
mod_or none m = m
mod_or (some t) m = t

pub stat_ok : Disk → Bool
stat_ok d = is_some d.cert_stat && is_some d.key_stat

-- neither file has changed since the certificate in hand was loaded
pub unchanged : Reloader → Disk → Bool
unfolding stat_ok
unchanged r d =
    stat_ok d && is_some r.cert && at_mod d.cert_stat r.cert_mod && at_mod d.key_stat r.key_mod

-- What `reload` returns, with the state that it leaves: the message to log and the certificate.
pub record Reload : Type 0 where
  pub state : Reloader
  pub message : String
  pub result : Result String Certificate

new_failure : Reloader → String → Reloader × String
new_failure r message =
    if message == r.last_failure then (r, "") else (record r { last_failure = message }, message)

module _ (format : ℕ → String) where
  pub expired_message : String → Certificate → String
  expired_message e c = e ⧺ "; the previous certificate expired " ⧺ format c.not_after ⧺ ".\n"

  pub kept_message : String → Certificate → String
  kept_message e c =
      e ⧺ "; using the previous certificate, which expires " ⧺ format c.not_after ⧺ ".\n"

  pub loaded_message : Reloader → Certificate → String
  loaded_message r c =
      "Loaded certificate " ⧺ r.cert_file ⧺ ", which expires " ⧺ format c.not_after ⧺ ".\n"

  fail_with : Reloader → String → Result String Certificate → Reload
  unfolding new_failure
  fail_with r message result =
      let (r', logged) = new_failure r message in
      record { state = r'; message = logged; result = result }

  -- the branch of `reload` for a failed load
  pub keep_previous : Reloader → Disk → String → Option Certificate → Reload
  unfolding fail_with
  keep_previous r d e none = record { state = r; message = ""; result = err e }
  keep_previous r d e (some c) =
      if leb c.not_after d.now
      then fail_with r (expired_message e c) (err e)
      else fail_with r (kept_message e c) (ok c)

  abbrev is_new : Option Certificate → Certificate → Bool
  is_new none c = true
  is_new (some old) c = not (old.der == c.der)

  -- the branch of `reload` for a load that succeeded
  pub install : Reloader → Disk → Certificate → Reload
  unfolding stat_ok
  install r d c = record {
    state = record r {
      last_failure = "";
      cert = some c;
      cert_mod = if stat_ok d then mod_or d.cert_stat r.cert_mod else r.cert_mod;
      key_mod = if stat_ok d then mod_or d.key_stat r.key_mod else r.key_mod;
    };
    message = if is_new r.cert c then loaded_message r c else "";
    result = ok c;
  }

  load_again : Reloader → Disk → Result String Certificate → Reload
  unfolding install keep_previous
  load_again r d (ok c) = install r d c
  load_again r d (err e) = keep_previous r d e r.cert

  -- the certificate that is returned with no load
  abbrev in_hand : Reloader → Disk → Option Certificate
  in_hand r d = if unchanged r d then r.cert else none

  or_load : Reloader → Disk → Option Certificate → Reload
  unfolding load_again load_key_pair
  or_load r d (some c) = record { state = r; message = ""; result = ok c }
  or_load r d none = load_again r d (load_key_pair r d)

  pub reload : Reloader → Disk → Reload
  unfolding unchanged or_load
  reload r d = or_load r d (in_hand r d)

  -- `certificate` under the lock, with what it appends to the log
  pub certificate : Reloader → Disk → Reloader × List String × Result String Certificate
  unfolding reload
  certificate r d =
      let c = reload r d in (c.state, if c.message == "" then [] else c.message ∷ [], c.result)

  abbrev fresh : String → String → Reloader
  fresh cert_file key_file = record {
    cert_file = cert_file;
    key_file = key_file;
    cert = none;
    cert_mod = 0;
    key_mod = 0;
    last_failure = "";
  }

  abbrev or_fail :
      Reloader → List String → Result String Certificate → Result String (Reloader × List String)
  or_fail r log (ok c) = ok (r, log)
  or_fail r log (err e) = err e

  -- the first load, whose failure ends the construction
  unfoldable pub new_cert_reloader : String → String → Disk → Result String (Reloader × List String)
  unfolding certificate
  new_cert_reloader cert_file key_file d =
      let (r, log, result) = certificate (fresh cert_file key_file) d in or_fail r log result

  -- `handshakeCertificate`: the cause of a failure is in the log alone
  pub handshake_certificate : Reloader → Disk → Reloader × List String × Option Certificate
  unfolding certificate
  handshake_certificate r d =
      let (r', log, result) = certificate r d in
      (r', log, elim result [ ok c ↦ some c | err _ ↦ none ])
