-- ===== src/Operation/Permit.antt =====
-- internal/remotebridge/operation/permit.go: the permit, the bytes that the broker signs, and the
-- freshness window.
pub mod Payload
pub mod Window
use platform_agent.Prelude.{ℕ, ◌+◌, ◌-◌, ◌*◌, ◌%◌, ◌^◌, Bool, ◌&&◌, ◌++◌, length}
use platform_agent.Prelude.Int.{ℤ, pos, negsuc, ltb_ℤ, leb_ℤ, add64, sub64}
use platform_agent.Bytes.{Bytes}
use platform_agent.Bytes.Text.{codes}
use platform_agent.Bytes.BigEndian.{be32, be64}

pub record OperationPermit : Type 0 where
  pub alg : Bytes
  pub kid : Bytes
  pub permit_version : ℤ  -- int32
  pub policy_version : Bytes
  pub decision_id : Bytes
  pub session_id : Bytes
  pub operation_id : Bytes
  pub device_id : Bytes
  pub operator_subject : Bytes
  pub capability : Bytes
  pub command_hash : Bytes
  pub issued_at : ℤ  -- int64, as the two below
  pub expires_at : ℤ
  pub seq : ℤ
  pub signature_b64 : Bytes

abbrev pub permit_domain : Bytes
permit_domain = codes "RemoteBridgeOperationPermit:v1"

abbrev pub permit_alg : Bytes
permit_alg = codes "SHA256withECDSA"

abbrev pub permit_version_pinned : ℤ
permit_version_pinned = pos 1

abbrev pub max_permit_validity_millis : ℕ
max_permit_validity_millis = 15 * 60 * 1000

abbrev pub permit_clock_skew_millis : ℕ
permit_clock_skew_millis = 2 * 60 * 1000

-- Go's conversion of a signed integer to the unsigned one of its width.
abbrev pub to_uint : ℕ → ℤ → ℕ
to_uint modulus (pos n) = n % modulus
to_uint modulus (negsuc n) = modulus - 1 - n % modulus

-- A 4-byte big-endian length and the bytes. `int32(len(bs))` keeps the length modulo 2^32.
unfoldable pub write_field : Bytes → Bytes
write_field s = be32 (length s) ++ s

unfoldable pub write_int32 : ℤ → Bytes
write_int32 v = be32 (to_uint (2 ^ 32) v)

unfoldable pub write_int64 : ℤ → Bytes
write_int64 v = be64 (to_uint (2 ^ 64) v)

unfoldable pub canonical_payload : OperationPermit → Bytes
canonical_payload p =
    write_field permit_domain
    ++ (write_field p.alg
        ++ (write_field p.kid
            ++ (write_int32 p.permit_version
                ++ (write_field p.policy_version
                    ++ (write_field p.decision_id
                        ++ (write_field p.session_id
                            ++ (write_field p.operation_id
                                ++ (write_field p.device_id
                                    ++ (write_field p.operator_subject
                                        ++ (write_field p.capability
                                            ++ (write_field p.command_hash
                                                ++ (write_int64 p.issued_at
                                                    ++ (write_int64 p.expires_at
                                                        ++ write_int64 p.seq)))))))))))))

-- issuedAt - skew <= now < expiresAt + skew, for a well-formed window of at most 15 minutes. The
-- sums and the difference are int64 and wrap.
unfoldable pub is_fresh : OperationPermit → ℤ → Bool
is_fresh p now =
    ltb_ℤ (pos 0) p.issued_at
    && (ltb_ℤ (pos 0) p.expires_at
        && (ltb_ℤ p.issued_at p.expires_at
            && (leb_ℤ (sub64 p.expires_at p.issued_at) (pos max_permit_validity_millis)
                && (leb_ℤ p.issued_at (add64 now (pos permit_clock_skew_millis))
                    && ltb_ℤ now (add64 p.expires_at (pos permit_clock_skew_millis))))))
