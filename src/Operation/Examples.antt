-- ===== src/Operation/Examples.antt =====
-- The permit, the command and the gate at concrete inputs, with a toy digest and signature scheme.
use platform_agent.Prelude.{
  ℕ, ◌-◌, ◌%◌, ◌^◌, ◌≡◌, ◌↔◌, refl, true, false, some, List, [], ◌∷◌, length, arith,
}
use platform_agent.Prelude.Int.{pos, add64, sub64, wrap64}
use platform_agent.Bytes.{Bytes, beq}
use platform_agent.Bytes.Text.{codes}
use platform_agent.Bytes.Hex.{hex_encode}
use platform_agent.Operation.Permit.{
  OperationPermit, permit_alg, canonical_payload, write_field, write_int32, write_int64, is_fresh,
}
use platform_agent.Operation.Permit.Payload.{IsWireable, canonical_payload_injective}
use platform_agent.Operation.Command.{
  CanonicalCommand, parse_command, java_trim, split_space_runs, to_lower, from_tokens, hash_payload,
  is_empty,
}
use platform_agent.Operation.Command.Tokens.{IsWord, one, more_of}
use platform_agent.Operation.Verify.{Crypto, Verifier, verify_with_reason}
use platform_agent.Operation.Verify.Sound.{IsGenuine, verify_with_reason-IsGenuine}
use platform_agent.Operation.Gate.{
  Authorizer, command_hash, authorize, authorize_view_only, capability_constrained_pty,
  capability_view_only, pty_steps, view_steps, verified, advance, set_seq, allow,
}
use platform_agent.Operation.Gate.Admission.{IsAdmissible, authorize-IsAdmissible}
use platform_agent.Operation.Gate.Replay.{
  Request, pty, view, serve, accepted, Increasing, accepted-Increasing,
}

-- A digest of one byte, and signatures that repeat the digest.
abbrev toy_sha256 : Bytes → Bytes
toy_sha256 s = (length s % 256) ∷ []

abbrev toy : Crypto
toy = record {
  Key = ℕ;
  base64_decode = λ s. some s;
  parse_p256 = λ s. some 7;
  sha256 = toy_sha256;
  verify_asn1 = λ k d s. beq d s;
}

abbrev identity : Bytes → Bytes
identity s = s

abbrev hostname_permit : OperationPermit
hostname_permit = record {
  alg = permit_alg;
  kid = codes "k1";
  permit_version = pos 1;
  policy_version = codes "p";
  decision_id = codes "d";
  session_id = codes "s1";
  operation_id = codes "op";
  device_id = codes "dev";
  operator_subject = codes "sub";
  capability = capability_constrained_pty;
  command_hash = codes "26";
  issued_at = pos 1000000;
  expires_at = pos 1600000;
  seq = pos 5;
  signature_b64 = 148 ∷ [];
}

abbrev view_permit : OperationPermit
view_permit = record hostname_permit {
  capability = capability_view_only;
  command_hash = [];
  seq = pos 6;
  signature_b64 = 140 ∷ [];
}

payload_length : length (canonical_payload hostname_permit) ≡ 148
unfolding canonical_payload write_field write_int32 write_int64
payload_length = refl

hash_of_hostname :
    command_hash toy_sha256 identity (parse_command identity (codes " HostName ")) ≡ codes "26"
unfolding command_hash parse_command java_trim split_space_runs to_lower from_tokens hash_payload
    write_field hex_encode
hash_of_hostname = refl

wireable : IsWireable hostname_permit
wireable = omega arith

abbrev resigned_permit : OperationPermit
resigned_permit = record hostname_permit { signature_b64 = 1 ∷ 2 ∷ 3 ∷ [] }

resigned-IsWireable : IsWireable resigned_permit
resigned-IsWireable = omega arith

same_payload : canonical_payload hostname_permit ≡ canonical_payload resigned_permit
unfolding canonical_payload
same_payload = refl

canonical_payload_injective_example :
    record resigned_permit { signature_b64 = hostname_permit.signature_b64 } ≡ hostname_permit
canonical_payload_injective_example =
    canonical_payload_injective hostname_permit resigned_permit wireable resigned-IsWireable
      same_payload

fresh_early : is_fresh hostname_permit (pos 900000) ≡ true
unfolding is_fresh add64 sub64 wrap64
fresh_early = refl

fresh_late : is_fresh hostname_permit (pos 1700000) ≡ true
unfolding is_fresh add64 sub64 wrap64
fresh_late = refl

-- A window whose end wraps round int64 is not fresh.
wrapped_window_stale :
    is_fresh
      (record hostname_permit { issued_at = pos (2 ^ 63 - 2); expires_at = pos (2 ^ 63 - 1) })
      (pos (2 ^ 63 - 2))
    ≡ false
unfolding is_fresh add64 sub64 wrap64
wrapped_window_stale = refl

abbrev ping_command : CanonicalCommand
ping_command = record { command_id = codes "ping"; argv = codes "-n" ∷ codes "4" ∷ [] }

IsWord-ping : IsWord (codes "Ping")
IsWord-ping =
    more_of _ _ _ (omega arith)
      (more_of _ _ _ (omega arith) (more_of _ _ _ (omega arith) (one _ (omega arith))))

IsWord-flag : IsWord (codes "-T")
IsWord-flag = more_of _ _ _ (omega arith) (one _ (omega arith))

abbrev broker : Verifier ℕ
broker = record { public_key = some 7; expected_kid = codes "k1"; expected_device_id = codes "dev" }

verify_with_reason-IsGenuine_example :
    ((verify_with_reason toy (some broker) hostname_permit (pos 1100000)).0 ≡ true) ↔ (
      (key : ℕ) × (broker.public_key ≡ some key)
      × IsGenuine toy key broker hostname_permit (pos 1100000))
verify_with_reason-IsGenuine_example =
    verify_with_reason-IsGenuine toy broker hostname_permit (pos 1100000)

abbrev gate : Authorizer
gate = record { verify = some (verify_with_reason toy (some broker)); last_seq = λ _. pos 0 }

hostname_allowed :
    (authorize toy_sha256 identity gate hostname_permit (codes " HostName ") (pos 1100000)).0
    ≡ allow
unfolding authorize verified pty_steps advance verify_with_reason is_fresh add64 sub64 wrap64 beq
    canonical_payload write_field write_int32 write_int64 command_hash parse_command java_trim
    split_space_runs to_lower from_tokens hash_payload hex_encode is_empty
hostname_allowed = refl

authorize-IsAdmissible_example :
    ((authorize toy_sha256 identity gate hostname_permit
        (codes " HostName ")
        (pos 1100000)).0.allowed
      ≡ true)
    ↔ IsAdmissible toy_sha256 identity gate hostname_permit (codes " HostName ") (pos 1100000)
authorize-IsAdmissible_example =
    authorize-IsAdmissible toy_sha256 identity gate hostname_permit (codes " HostName ")
      (pos 1100000)

view_allowed : (authorize_view_only gate view_permit (pos 1100000)).0 ≡ allow
unfolding authorize_view_only verified view_steps advance verify_with_reason is_fresh add64 sub64
    wrap64 beq canonical_payload write_field write_int32 write_int64
view_allowed = refl

abbrev requests : List Request
requests =
    pty hostname_permit (codes " HostName ") (pos 1100000)
    ∷ pty hostname_permit (codes " HostName ") (pos 1100000)
    ∷ view view_permit (pos 1100000)
    ∷ []

-- The second copy of the first permit is a replay.
two_accepted :
    accepted toy_sha256 identity gate requests ≡ (codes "s1", pos 5) ∷ (codes "s1", pos 6) ∷ []
unfolding accepted serve authorize authorize_view_only verified pty_steps view_steps advance set_seq
    verify_with_reason is_fresh add64 sub64 wrap64 beq canonical_payload write_field write_int32
    write_int64 command_hash parse_command java_trim split_space_runs to_lower from_tokens
    hash_payload hex_encode is_empty
two_accepted = refl

accepted-Increasing_example : Increasing (accepted toy_sha256 identity gate requests)
accepted-Increasing_example = accepted-Increasing toy_sha256 identity gate requests
