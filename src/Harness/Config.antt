-- ===== src/Harness/Config.antt =====
-- internal/remotebridge/harness/harness.go: the configuration, what New refuses and what dial
-- connects with. base64's decoder, net.SplitHostPort and net.ParseIP are parameters.
pub mod Usable
use platform_agent.Prelude.{
  ℕ, ◌*◌, Bool, true, false, not, ◌&&◌, ◌||◌, Option, none, some, List, [], ◌∷◌, ◌++◌, length, take,
  ltb, ◌==◌, if◌then◌else◌, Result, ok, err, require, ◌>>◌,
}
use platform_agent.Prelude.Int.{ℤ, pos, negsuc, ltb_ℤ, leb_ℤ}
use platform_agent.Bytes.{Bytes, beq}
use platform_agent.Bytes.Text.{codes}
use platform_agent.Bytes.Trim.{trim_space}
use platform_agent.Bytes.Hex.{hex_encode}
use platform_agent.SelfUpdate.Url.{equal_fold}
use platform_agent.Harness.Messages.{Capability, view_only, constrained_pty}

-- A duration is its nanoseconds, an int64.
abbrev pub second : ℕ
second = 1000000000

abbrev pub minute : ℕ
minute = 60000000000

abbrev pub version_tls12 : ℕ
version_tls12 = 0x0303

abbrev pub max_attestation_evidence_b64_len : ℕ
max_attestation_evidence_b64_len = 16 * 1024

abbrev pub hello_cert_fingerprint_unavailable : Bytes
hello_cert_fingerprint_unavailable = codes "unavailable"

abbrev pub hello_attestation_placeholder : Bytes
hello_attestation_placeholder = codes "dDMtaWRsZS1uby1hdHRlc3RhdGlvbg=="

-- What the harness reads of a tls.Config. A certificate is its chain of DER blocks.
pub record TlsConfig : Type 0 where
  pub min_version : ℕ
  pub insecure_skip_verify : Bool
  pub certificates : List (List Bytes)
  pub get_client_certificate : Bool

-- A hook is told by whether it is wired.
pub record Config : Type 0 where
  pub broker_addr : Bytes
  pub device_id_provider : Bool
  pub agent_version : Bytes
  pub insecure_plaintext : Bool
  pub tls_config : Option TlsConfig
  pub attestation_evidence_b64 : Bytes
  pub first_heartbeat_deadline : ℤ
  pub heartbeat_miss_factor : ℤ
  pub backoff_min : ℤ
  pub backoff_max : ℤ
  pub identity_poll_interval : ℤ
  pub dial_timeout : ℤ
  pub dialer : Bool
  pub pty_dispatcher : Bool
  pub screen_view_dispatcher : Bool
  pub consent_responder : Bool
  pub device_key_responder : Bool

abbrev pub or_default : ℤ → ℕ → ℤ
or_default d default = if leb_ℤ d (pos 0) then pos default else d

unfoldable pub with_defaults : Config → Config
with_defaults c =
    let least = or_default c.backoff_min second in
    let most = or_default c.backoff_max (5 * minute) in
    record c {
      first_heartbeat_deadline = or_default c.first_heartbeat_deadline (15 * second);
      heartbeat_miss_factor = or_default c.heartbeat_miss_factor 3;
      backoff_min = least;
      backoff_max = if ltb_ℤ most least then least else most;
      identity_poll_interval = or_default c.identity_poll_interval (5 * second);
      dial_timeout = or_default c.dial_timeout (10 * second);
    }

unfoldable pub has_client_certificate_material : Option TlsConfig → Bool
has_client_certificate_material none = false
has_client_certificate_material (some t) = ltb 0 (length t.certificates) || t.get_client_certificate

unfoldable pub advertised_capabilities : Config → List Capability
advertised_capabilities c =
    (if c.screen_view_dispatcher then view_only ∷ [] else [])
    ++ (if c.pty_dispatcher then constrained_pty ∷ [] else [])

unfoldable pub configured_attestation_evidence_b64 : Config → Bytes
configured_attestation_evidence_b64 c =
    let value = trim_space c.attestation_evidence_b64 in
    if length value == 0 then hello_attestation_placeholder else value

pub data EvidenceError : Type 0 where
  evidence_too_long evidence_not_single_line evidence_not_base64 : EvidenceError

pub data NewError : Type 0 where
  no_broker_address plaintext_to_remote skip_verify_refused : NewError
  evidence_refused : EvidenceError → NewError
  dispatch_requires_tls dispatch_requires_certificate no_device_id_provider : NewError

pub data DialError : Type 0 where
  dial_skip_verify dial_plaintext_to_remote : DialError

-- What the connection is made with; `custom_dialer` is the Dialer hook.
pub data Transport : Type 0 where
  custom_dialer plaintext : Transport
  tls : TlsConfig → Transport

unfoldable pub has_line_space : Bytes → Bool
has_line_space [] = false
has_line_space (c ∷ s) = (c == 32 || (c == 9 || (c == 13 || c == 10))) || has_line_space s

-- A clone of the configuration, or an empty one, at TLS 1.2 where it names no version.
unfoldable pub dial_tls_config : Option TlsConfig → TlsConfig
dial_tls_config none = record {
  min_version = version_tls12;
  insecure_skip_verify = false;
  certificates = [];
  get_client_certificate = false;
}
dial_tls_config (some t) = record t {
  min_version = if t.min_version == 0 then version_tls12 else t.min_version;
}

unfoldable pub skips_verify : Option TlsConfig → Bool
skips_verify none = false
skips_verify (some t) = t.insecure_skip_verify

module _ (sha256 : Bytes → Bytes) where
  leaf_fingerprint : List (List Bytes) → Bytes
  leaf_fingerprint [] = hello_cert_fingerprint_unavailable
  leaf_fingerprint ([] ∷ certificates) = hello_cert_fingerprint_unavailable
  leaf_fingerprint ((leaf ∷ chain) ∷ certificates) = hex_encode (sha256 leaf)

  unfoldable pub hello_cert_fingerprint : Option TlsConfig → Bytes
  unfolding leaf_fingerprint
  hello_cert_fingerprint none = hello_cert_fingerprint_unavailable
  hello_cert_fingerprint (some t) = leaf_fingerprint t.certificates

  unfoldable pub device_id_fingerprint : Bytes → Bytes
  device_id_fingerprint id =
      if length (trim_space id) == 0
      then codes "empty"
      else take 12 (hex_encode (sha256 (trim_space id)))

unfoldable pub validate_attestation_evidence_b64 :
    (Bytes → Bool) → Bytes → Result EvidenceError (Unit {0})
validate_attestation_evidence_b64 is_base64 raw =
    let value = trim_space raw in
    if length value == 0
    then ok tt
    else require (not (ltb max_attestation_evidence_b64_len (length value))) evidence_too_long
      >> require (not (has_line_space value)) evidence_not_single_line
      >> require (is_base64 value) evidence_not_base64

abbrev evidence_step : Result EvidenceError (Unit {0}) → Result NewError (Unit {0})
evidence_step (ok tt) = ok tt
evidence_step (err e) = err (evidence_refused e)

module _
    -- The host of a "host:port" text, and whether a text is a loopback IP literal.
    (split_host_port : Bytes → Option Bytes) (is_loopback_ip : Bytes → Bool) where
  abbrev host_or : Bytes → Option Bytes → Bytes
  host_or addr none = addr
  host_or addr (some host) = host

  unfoldable pub is_loopback_broker_addr : Bytes → Bool
  is_loopback_broker_addr addr =
      let trimmed = trim_space addr in
      let host = host_or trimmed (split_host_port trimmed) in
      equal_fold host (codes "localhost") || is_loopback_ip host

  unfoldable pub dial : Config → Result DialError Transport
  dial cfg =
      let config = dial_tls_config cfg.tls_config in
      if cfg.dialer
      then ok custom_dialer
      else if config.insecure_skip_verify
      then err dial_skip_verify
      else if cfg.insecure_plaintext
      then (if is_loopback_broker_addr cfg.broker_addr
          then ok plaintext
          else err dial_plaintext_to_remote)
      else ok (tls config)

  -- The checks in the order of the source; the harness keeps the configuration with its defaults.
  unfoldable pub new : (Bytes → Bool) → Config → Result NewError Config
  new is_base64 given =
      let cfg = with_defaults given in
      let real = not cfg.dialer in
      require (not (real && length (trim_space cfg.broker_addr) == 0)) no_broker_address
      >> require
          (not (real && cfg.insecure_plaintext && not (is_loopback_broker_addr cfg.broker_addr)))
          plaintext_to_remote
      >> require (not (real && skips_verify cfg.tls_config)) skip_verify_refused
      >> evidence_step (validate_attestation_evidence_b64 is_base64 cfg.attestation_evidence_b64)
      >> require (not (real && cfg.pty_dispatcher && cfg.insecure_plaintext)) dispatch_requires_tls
      >> require
          (not (real && cfg.pty_dispatcher && not (has_client_certificate_material cfg.tls_config)))
          dispatch_requires_certificate
      >> require cfg.device_id_provider no_device_id_provider
      >> ok cfg
