-- ===== src/Operation/Verify/Sound.antt =====
-- When the verifier accepts.
use platform_agent.Prelude.{◌≡◌, ◌≢◌, ◌↔◌, refl, ap, true, Option, none, some, length, arith}
use platform_agent.Prelude.Int.{ℤ, pos, negsuc}
use platform_agent.Bytes.{Bytes, beq, beq_iff}
use platform_agent.Operation.Permit.{
  OperationPermit, permit_alg, permit_version_pinned, is_fresh, canonical_payload,
}
use platform_agent.Operation.Verify.{
  Crypto, Verifier, same_int, verify_with_reason, verify_with_key, key_or_deny, check_signature,
}

module _ (crypto : Crypto) where
  open crypto use {Key, base64_decode, sha256, verify_asn1}

  -- All that the verifier asks of a permit.
  pub record IsGenuine (key : Key) (v : Verifier Key) (p : OperationPermit) (now : ℤ) : Type 0 where
    pub kid : p.kid ≡ v.expected_kid
    pub alg : p.alg ≡ permit_alg
    pub has_signature : length p.signature_b64 ≢ 0
    pub version : p.permit_version ≡ permit_version_pinned
    pub device : p.device_id ≡ v.expected_device_id
    pub fresh : is_fresh p now ≡ true
    pub signature : Bytes
    pub decoded : base64_decode p.signature_b64 ≡ some signature
    pub nonempty : length signature ≢ 0
    pub signed : verify_asn1 key (sha256 (canonical_payload p)) signature ≡ true

  same_int_iff : (a : ℤ) → (same_int a permit_version_pinned ≡ true) ↔ (a ≡ permit_version_pinned)
  same_int_iff (pos n) = ground arith
  same_int_iff (negsuc n) = ground arith

  module _ (key : Key) (v : Verifier Key) (p : OperationPermit) (now : ℤ) where
    signature_tests :
        (decoded : Option Bytes)
        → (check_signature crypto key p decoded).0 ≡ true
        → (s : Bytes) × (decoded ≡ some s)
          × (length s ≢ 0)
          × (verify_asn1 key (sha256 (canonical_payload p)) s ≡ true)
    unfolding check_signature
    signature_tests none h = cc
    signature_tests (some s) h = (s, refl, ground arith, ground arith)

    field_tests :
        (verify_with_key crypto key v p now).0 ≡ true
        → (beq p.kid v.expected_kid ≡ true)
          × (beq p.alg permit_alg ≡ true)
          × (length p.signature_b64 ≢ 0)
          × (same_int p.permit_version permit_version_pinned ≡ true)
          × (beq p.device_id v.expected_device_id ≡ true)
          × (is_fresh p now ≡ true)
          × ((check_signature crypto key p (base64_decode p.signature_b64)).0 ≡ true)
    unfolding verify_with_key
    field_tests h = ground arith

    IsGenuine-of_accepted : (verify_with_key crypto key v p now).0 ≡ true → IsGenuine key v p now
    IsGenuine-of_accepted h =
        let (kid, alg, given, version, device, fresh, checked) = field_tests h in
        let (signature, decoded, nonempty, signed) = signature_tests _ checked in
        record {
          kid = (beq_iff _ _).0 kid;
          alg = (beq_iff _ _).0 alg;
          has_signature = given;
          version = (same_int_iff _).0 version;
          device = (beq_iff _ _).0 device;
          fresh = fresh;
          signature = signature;
          decoded = decoded;
          nonempty = nonempty;
          signed = signed;
        }

    accepted_of_genuine : IsGenuine key v p now → verify_with_key crypto key v p now ≡ (true, none)
    unfolding verify_with_key check_signature
    accepted_of_genuine g = ground (
      arith,
      (beq_iff p.kid v.expected_kid).1 g.kid,
      (beq_iff p.alg permit_alg).1 g.alg,
      (beq_iff p.device_id v.expected_device_id).1 g.device,
      (same_int_iff p.permit_version).1 g.version,
      g.has_signature,
      g.fresh,
      g.decoded,
      g.nonempty,
      g.signed,
    )

  -- The verifier accepts a permit exactly when it holds a key, and the permit names its key id, the
  -- pinned algorithm and version and this device, is fresh, and carries a signature that decodes to
  -- bytes which verify, under that key, for the digest of all the signed fields.
  pub verify_with_reason-IsGenuine :
      (v : Verifier Key) (p : OperationPermit) (now : ℤ)
      → ((verify_with_reason crypto (some v) p now).0 ≡ true)
        ↔ ((key : Key) × (v.public_key ≡ some key) × IsGenuine key v p now)
  unfolding verify_with_reason
  verify_with_reason-IsGenuine v p now = (there v.public_key refl, back)
    where
      there :
          (o : Option Key)
          → v.public_key ≡ o
          → (key_or_deny crypto o v p now).0 ≡ true
          → (key : Key) × (v.public_key ≡ some key) × IsGenuine key v p now
      there none e h = cc
      there (some key) e h = (key, e, IsGenuine-of_accepted key v p now h)

      back :
          ((key : Key) × (v.public_key ≡ some key) × IsGenuine key v p now)
          → (key_or_deny crypto v.public_key v p now).0 ≡ true
      back (key, e, g) = rw e (ap (λ r. r.0) (accepted_of_genuine key v p now g))
