-- ===== src/Harness/Config/Usable.antt =====
-- Which configurations New takes, and what a harness that it made can connect with.
use platform_agent.Prelude.{
  ◌≡◌, ◌≢◌, ◌≤◌, ◌⊎◌, ◌↔◌, refl, Bool, true, false, Option, none, some, length, arith, Result, ok,
  err, require, ◌>>◌,
}
use platform_agent.Bytes.{Bytes}
use platform_agent.Bytes.Trim.{trim_space}
use platform_agent.Harness.Config.{
  Config, with_defaults, has_client_certificate_material, skips_verify, has_line_space, Transport,
  tls, custom_dialer, plaintext, TlsConfig, max_attestation_evidence_b64_len,
  validate_attestation_evidence_b64, is_loopback_broker_addr, new, dial, dial_tls_config, NewError,
  DialError,
}

require_parts {κ μ} :
    {Err : Type κ} {Out : Type μ} (b : Bool) (e : Err) (rest : Result Err Out) {v : Out}
    → (require b e >> rest) ≡ ok v
    → (b ≡ true) × (rest ≡ ok v)
require_parts false e rest h = cc
require_parts true e rest h = (refl, h)

module _ (is_base64 : Bytes → Bool) (split_host_port : Bytes → Option Bytes)
    (is_loopback_ip : Bytes → Bool) where
  abbrev loopback : Bytes → Bool
  loopback addr = is_loopback_broker_addr split_host_port is_loopback_ip addr

  -- Evidence is left out, or is one line of base64 of at most 16 KiB.
  abbrev pub IsEvidence : Bytes → Type 0
  IsEvidence value =
      (length value ≡ 0)
      ⊎ ((length value ≤ max_attestation_evidence_b64_len)
          × (has_line_space value ≡ false)
          × (is_base64 value ≡ true))

  -- What a configuration needs that connects over the network.
  pub record IsNetworked (c : Config) : Type 0 where
    pub addressed : length (trim_space c.broker_addr) ≢ 0
    pub plaintext_at_home : c.insecure_plaintext ≡ true → loopback c.broker_addr ≡ true
    pub verifying : skips_verify c.tls_config ≡ false
    pub dispatch_over_tls : c.pty_dispatcher ≡ true → c.insecure_plaintext ≡ false
    pub dispatch_certified :
        c.pty_dispatcher ≡ true → has_client_certificate_material c.tls_config ≡ true

  pub record IsUsable (c : Config) : Type 0 where
    pub identified : c.device_id_provider ≡ true
    pub evidence : IsEvidence (trim_space c.attestation_evidence_b64)
    pub networked : c.dialer ≡ false → IsNetworked c

  validate-IsEvidence :
      (raw : Bytes)
      → (validate_attestation_evidence_b64 is_base64 raw ≡ ok tt) ↔ IsEvidence (trim_space raw)
  unfolding validate_attestation_evidence_b64
  validate-IsEvidence raw = ground arith

  made : Config → Result NewError Config
  made c = new split_host_port is_loopback_ip is_base64 c

  made-IsUsable : (c h : Config) → made c ≡ ok h → IsUsable c × (h ≡ with_defaults c)
  unfolding made new with_defaults
  made-IsUsable c h e = ground (arith, validate-IsEvidence c.attestation_evidence_b64)

  IsUsable-made : (c : Config) → IsUsable c → made c ≡ ok (with_defaults c)
  unfolding made new with_defaults
  IsUsable-made c u = ground (arith, validate-IsEvidence c.attestation_evidence_b64)

  -- New makes a harness of a configuration, with its defaults filled in, exactly when the
  -- configuration is usable: it can name the device, its evidence is left out or is one line of base64
  -- within the bound, and, when it connects over the network, it has an address, leaves TLS out for a
  -- loopback address only, never skips verification, and dispatches operations only over TLS with a
  -- client certificate.
  pub new-IsUsable :
      (c h : Config)
      → (new split_host_port is_loopback_ip is_base64 c ≡ ok h)
        ↔ (IsUsable c × (h ≡ with_defaults c))
  unfolding made
  new-IsUsable c h = (made-IsUsable c h, λ p. rw p.1 (IsUsable-made c p.0))

  -- The connection of a configuration: in the process by the hook, or plaintext to a loopback address
  -- with no operation dispatch, or TLS that verifies the broker.
  abbrev pub Connects : Config → Result DialError Transport → Type 0
  Connects h (err e) = ⊥
  Connects h (ok custom_dialer) = h.dialer ≡ true
  Connects h (ok plaintext) = (loopback h.broker_addr ≡ true) × (h.pty_dispatcher ≡ false)
  Connects h (ok (tls t)) =
      (t.insecure_skip_verify ≡ false)
      × (h.pty_dispatcher ≡ true → has_client_certificate_material (some t) ≡ true)

  dial-Connects :
      (h : Config)
      → (h.dialer ≡ false → IsNetworked h)
      → Connects h (dial split_host_port is_loopback_ip h)
  unfolding dial dial_tls_config skips_verify has_client_certificate_material
  dial-Connects h networked = by_tls h.tls_config refl
    where
      by_tls :
          (o : Option TlsConfig)
          → h.tls_config ≡ o
          → Connects h (dial split_host_port is_loopback_ip h)
      by_tls none e = ground arith
      by_tls (some t) e = ground arith

  IsNetworked-with_defaults : (c : Config) → IsNetworked c → IsNetworked (with_defaults c)
  unfolding with_defaults
  IsNetworked-with_defaults c n = record {
    addressed = n.addressed;
    plaintext_at_home = n.plaintext_at_home;
    verifying = n.verifying;
    dispatch_over_tls = n.dispatch_over_tls;
    dispatch_certified = n.dispatch_certified;
  }

  -- A harness that New made is never refused by dial: it connects in the process where that hook is set,
  -- or in plaintext to a loopback address where no operation dispatch is wired, or over TLS that
  -- verifies the broker and has a client certificate where operation dispatch is wired.
  pub dial-new :
      (c h : Config)
      → new split_host_port is_loopback_ip is_base64 c ≡ ok h
      → Connects h (dial split_host_port is_loopback_ip h)
  unfolding with_defaults made
  dial-new c h e =
      let (usable, same) = made-IsUsable c h e in
      rw same (
        dial-Connects (with_defaults c)
          (λ real. IsNetworked-with_defaults c (usable.networked real)))
