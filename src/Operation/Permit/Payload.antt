-- ===== src/Operation/Permit/Payload.antt =====
-- The signed bytes determine every signed field.
use platform_agent.Prelude.{ℕ, ◌/◌, ◌%◌, ◌^◌, ◌<◌, ◌≤◌, ◌≡◌, refl, ap, [], ◌∷◌, ◌++◌, arith, length}
use platform_agent.Prelude.Int.{ℤ, pos, negsuc, pos_part, neg_part, IsInt64}
use platform_agent.Bytes.{Bytes}
use platform_agent.Bytes.BigEndian.{be32, be64, be32_injective}
use platform_agent.Operation.Permit.{
  OperationPermit, to_uint, write_field, write_int32, write_int64, canonical_payload,
}

-- Texts of one length at the front of equal texts are equal.
pub append_cancel : (s t r q : Bytes) → length s ≡ length t → s ++ r ≡ t ++ q → (s ≡ t) × (r ≡ q)
append_cancel [] [] r q n e = (refl, e)
append_cancel [] (y ∷ t) r q n e = absurd (omega arith)
append_cancel (x ∷ s) [] r q n e = absurd (omega arith)
append_cancel (x ∷ s) (y ∷ t) r q n e = ground (arith, append_cancel s t r q)

be32_cancel :
    (m n : ℕ) (r q : Bytes)
    → m < 2 ^ 32
    → n < 2 ^ 32
    → be32 m ++ r ≡ be32 n ++ q
    → (m ≡ n) × (r ≡ q)
be32_cancel m n r q h k e = ground (arith, be32_injective m n h k)

pub write_field_injective :
    (s t r q : Bytes)
    → length s < 2 ^ 32
    → length t < 2 ^ 32
    → write_field s ++ r ≡ write_field t ++ q
    → (s ≡ t) × (r ≡ q)
unfolding write_field
write_field_injective s t r q h k e =
    let (n, rest) = be32_cancel (length s) (length t) (s ++ r) (t ++ q) h k e in
    append_cancel s t r q n rest

abbrev pub IsInt32 : ℤ → Type 0
IsInt32 a = (pos_part a < 2 ^ 31) × (neg_part a ≤ 2 ^ 31)

to_uint32_lt : (a : ℤ) → to_uint (2 ^ 32) a < 2 ^ 32
to_uint32_lt (pos n) = omega arith
to_uint32_lt (negsuc n) = omega arith

to_uint32_injective :
    (a b : ℤ) → IsInt32 a → IsInt32 b → to_uint (2 ^ 32) a ≡ to_uint (2 ^ 32) b → a ≡ b
to_uint32_injective a b h k e = ground arith

pub write_int32_injective :
    (a b : ℤ) (r q : Bytes)
    → IsInt32 a
    → IsInt32 b
    → write_int32 a ++ r ≡ write_int32 b ++ q
    → (a ≡ b) × (r ≡ q)
unfolding write_int32
write_int32_injective a b r q h k e =
    let (n, rest) = be32_cancel _ _ r q (to_uint32_lt a) (to_uint32_lt b) e in
    (to_uint32_injective a b h k n, rest)

to_uint64_injective :
    (a b : ℤ) → IsInt64 a → IsInt64 b → to_uint (2 ^ 64) a ≡ to_uint (2 ^ 64) b → a ≡ b
to_uint64_injective a b h k e = ground arith

to_uint64_lt : (a : ℤ) → to_uint (2 ^ 64) a < 2 ^ 64
to_uint64_lt (pos n) = omega arith
to_uint64_lt (negsuc n) = omega arith

be64_injective :
    (m n : ℕ)
    → m < 2 ^ 64
    → n < 2 ^ 64
    → m / 2 ^ 56 % 256 ≡ n / 2 ^ 56 % 256
    → m / 2 ^ 48 % 256 ≡ n / 2 ^ 48 % 256
    → m / 2 ^ 40 % 256 ≡ n / 2 ^ 40 % 256
    → m / 2 ^ 32 % 256 ≡ n / 2 ^ 32 % 256
    → m / 2 ^ 24 % 256 ≡ n / 2 ^ 24 % 256
    → m / 2 ^ 16 % 256 ≡ n / 2 ^ 16 % 256
    → m / 256 % 256 ≡ n / 256 % 256
    → m % 256 ≡ n % 256
    → m ≡ n
be64_injective m n h k a b c d p q r s = omega arith

be64_cancel :
    (m n : ℕ) (r q : Bytes)
    → m < 2 ^ 64
    → n < 2 ^ 64
    → be64 m ++ r ≡ be64 n ++ q
    → (m ≡ n) × (r ≡ q)
be64_cancel m n r q h k e = ground (arith, be64_injective m n h k)

pub write_int64_injective :
    (a b : ℤ) (r q : Bytes)
    → IsInt64 a
    → IsInt64 b
    → write_int64 a ++ r ≡ write_int64 b ++ q
    → (a ≡ b) × (r ≡ q)
unfolding write_int64
write_int64_injective a b r q h k e =
    let (n, rest) = be64_cancel _ _ r q (to_uint64_lt a) (to_uint64_lt b) e in
    (to_uint64_injective a b h k n, rest)

-- What the wire format can carry: lengths below 2^32, integers of their width.
pub record IsWireable (p : OperationPermit) : Type 0 where
  pub alg : length p.alg < 2 ^ 32
  pub kid : length p.kid < 2 ^ 32
  pub permit_version : IsInt32 p.permit_version
  pub policy_version : length p.policy_version < 2 ^ 32
  pub decision_id : length p.decision_id < 2 ^ 32
  pub session_id : length p.session_id < 2 ^ 32
  pub operation_id : length p.operation_id < 2 ^ 32
  pub device_id : length p.device_id < 2 ^ 32
  pub operator_subject : length p.operator_subject < 2 ^ 32
  pub capability : length p.capability < 2 ^ 32
  pub command_hash : length p.command_hash < 2 ^ 32
  pub issued_at : IsInt64 p.issued_at
  pub expires_at : IsInt64 p.expires_at
  pub seq : IsInt64 p.seq

-- Two permits whose texts are each shorter than 2^32 bytes, whose version is an int32, and whose times
-- and sequence numbers are int64, agree in every field but the signature if their signed bytes are the
-- same: the signature covers all fourteen fields, and no field runs over into the next.
pub canonical_payload_injective :
    (p q : OperationPermit)
    → IsWireable p
    → IsWireable q
    → canonical_payload p ≡ canonical_payload q
    → record q { signature_b64 = p.signature_b64 } ≡ p
unfolding canonical_payload
canonical_payload_injective p q h k e =
    let (e0, r0) = write_field_injective _ _ _ _ (omega arith) (omega arith) e in
    let (alg, r1) = write_field_injective _ _ _ _ h.alg k.alg r0 in
    let (kid, r2) = write_field_injective _ _ _ _ h.kid k.kid r1 in
    let (version, r3) = write_int32_injective _ _ _ _ h.permit_version k.permit_version r2 in
    let (policy, r4) = write_field_injective _ _ _ _ h.policy_version k.policy_version r3 in
    let (decision, r5) = write_field_injective _ _ _ _ h.decision_id k.decision_id r4 in
    let (session, r6) = write_field_injective _ _ _ _ h.session_id k.session_id r5 in
    let (operation, r7) = write_field_injective _ _ _ _ h.operation_id k.operation_id r6 in
    let (device, r8) = write_field_injective _ _ _ _ h.device_id k.device_id r7 in
    let (operator, r9) = write_field_injective _ _ _ _ h.operator_subject k.operator_subject r8 in
    let (capability, r10) = write_field_injective _ _ _ _ h.capability k.capability r9 in
    let (hash, r11) = write_field_injective _ _ _ _ h.command_hash k.command_hash r10 in
    let (issued, r12) = write_int64_injective _ _ _ _ h.issued_at k.issued_at r11 in
    let (expires, r13) = write_int64_injective _ _ _ _ h.expires_at k.expires_at r12 in
    let r14 : write_int64 p.seq ++ [] ≡ write_int64 q.seq ++ [] = ap (λ s. s ++ []) r13 in
    let (seq, r15) = write_int64_injective _ _ _ _ h.seq k.seq r14 in
    cc (
      alg, kid, version, policy, decision, session, operation, device, operator, capability, hash,
      issued, expires, seq,
    )
