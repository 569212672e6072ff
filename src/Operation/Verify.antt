-- ===== src/Operation/Verify.antt =====
-- internal/remotebridge/operation: Verifier.VerifyWithReason of permit.go, with the reason codes of
-- gate.go. Go's crypto/ecdsa, crypto/sha256, crypto/x509 and encoding/base64 are the `Crypto`
-- parameter.
pub mod Sound
use platform_agent.Prelude.{
  ℕ, Bool, true, false, not, ◌&&◌, ◌||◌, Option, none, some, List, [], ◌∷◌, length, if◌then◌else◌,
  ◌==◌, Result, ok, err,
}
use platform_agent.Prelude.Int.{ℤ, pos, negsuc}
use platform_agent.Bytes.{Bytes, beq}
use platform_agent.Bytes.Trim.{is_blank}
use platform_agent.Operation.Permit.{
  OperationPermit, permit_alg, permit_version_pinned, is_fresh, canonical_payload,
}

-- Decision.Reason. No reason (`""`) is `none`.
pub data Reason : Type 0 where
  permit_invalid permit_verifier_unavailable permit_kid_mismatch permit_alg_mismatch : Reason
  permit_signature_missing permit_version_mismatch permit_device_mismatch : Reason
  permit_not_fresh permit_signature_decode permit_signature_invalid : Reason
  capability_not_pty command_too_long empty_command command_mismatch : Reason
  seq_invalid seq_replay capability_not_view_only command_hash_present : Reason
  missing_session_id missing_operation_id : Reason

pub record Crypto : Type 1 where
  pub Key : Type 0
  pub base64_decode : Bytes → Option Bytes
  -- The EC P-256 key that a DER encoding holds.
  pub parse_p256 : Bytes → Option Key
  pub sha256 : Bytes → Bytes
  -- key, digest, signature
  pub verify_asn1 : Key → Bytes → Bytes → Bool

pub record Verifier (Key : Type 0) : Type 0 where
  pub public_key : Option Key
  pub expected_kid : Bytes
  pub expected_device_id : Bytes

pub data VerifierError : Type 0 where
  blank_kid blank_device_id bad_base64 bad_key : VerifierError

abbrev pub same_int : ℤ → ℤ → Bool
same_int (pos a) (pos b) = a == b
same_int (pos a) (negsuc b) = false
same_int (negsuc a) (pos b) = false
same_int (negsuc a) (negsuc b) = a == b

module _ (crypto : Crypto) where
  open crypto use {Key, base64_decode, parse_p256, sha256, verify_asn1}

  -- The two decoding steps of NewVerifier.
  broker_key : Option Bytes → Result VerifierError Key
  broker_key none = err bad_base64
  broker_key (some der) = elim (parse_p256 der) [ none ↦ err bad_key | some key ↦ ok key ]

  with_key : Bytes → Bytes → Result VerifierError Key → Result VerifierError (Verifier Key)
  with_key kid device (err e) = err e
  with_key kid device (ok key) =
      ok (record { public_key = some key; expected_kid = kid; expected_device_id = device })

  unfoldable pub new_verifier : Bytes → Bytes → Bytes → Result VerifierError (Verifier Key)
  unfolding broker_key with_key
  new_verifier key_b64 expected_kid expected_device_id =
      if is_blank expected_kid
      then err blank_kid
      else if is_blank expected_device_id
      then err blank_device_id
      else with_key expected_kid expected_device_id (broker_key (base64_decode key_b64))

  -- The last step: the decoded signature against the digest of the signed bytes.
  check_signature : Key → OperationPermit → Option Bytes → Bool × Option Reason
  check_signature key p none = (false, some permit_signature_decode)
  check_signature key p (some sig) =
      if length sig == 0
      then (false, some permit_signature_decode)
      else if not (verify_asn1 key (sha256 (canonical_payload p)) sig)
      then (false, some permit_signature_invalid)
      else (true, none)

  verify_with_key : Key → Verifier Key → OperationPermit → ℤ → Bool × Option Reason
  verify_with_key key v p now =
      if not (beq p.kid v.expected_kid)
      then (false, some permit_kid_mismatch)
      else if not (beq p.alg permit_alg)
      then (false, some permit_alg_mismatch)
      else if length p.signature_b64 == 0
      then (false, some permit_signature_missing)
      else if not (same_int p.permit_version permit_version_pinned)
      then (false, some permit_version_mismatch)
      else if not (beq p.device_id v.expected_device_id)
      then (false, some permit_device_mismatch)
      else if not (is_fresh p now)
      then (false, some permit_not_fresh)
      else check_signature key p (base64_decode p.signature_b64)

  key_or_deny : Option Key → Verifier Key → OperationPermit → ℤ → Bool × Option Reason
  key_or_deny none v p now = (false, some permit_verifier_unavailable)
  key_or_deny (some key) v p now = verify_with_key key v p now

  -- A nil verifier is `none`.
  unfoldable pub verify_with_reason :
      Option (Verifier Key) → OperationPermit → ℤ → Bool × Option Reason
  unfolding key_or_deny verify_with_key check_signature
  verify_with_reason none p now = (false, some permit_verifier_unavailable)
  verify_with_reason (some v) p now = key_or_deny v.public_key v p now
