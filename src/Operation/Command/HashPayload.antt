-- ===== src/Operation/Command/HashPayload.antt =====
-- The hashed bytes determine the command.
use platform_agent.Prelude.{◌+◌, ◌^◌, ◌<◌, ◌≡◌, refl, List, [], ◌∷◌, arith, length, All}
use platform_agent.Bytes.{Bytes}
use platform_agent.Operation.Permit.{write_field}
use platform_agent.Operation.Permit.Payload.{write_field_injective}
use platform_agent.Operation.Command.{CanonicalCommand, write_fields, hash_payload}

abbrev pub IsShort : Bytes → Type 0
IsShort s = length s < 2 ^ 32

length-write_field : (s : Bytes) → length (write_field s) ≡ 4 + length s
unfolding write_field
length-write_field s = omega arith

write_fields_injective :
    (xs ys : List Bytes)
    → All IsShort xs
    → All IsShort ys
    → write_fields xs ≡ write_fields ys
    → xs ≡ ys
unfolding write_fields write_field
write_fields_injective [] [] h k e = refl
write_fields_injective [] (y ∷ ys) h k e = cc
write_fields_injective (x ∷ xs) [] h k e = cc
write_fields_injective (x ∷ xs) (y ∷ ys) h k e =
    let (first, rest) = write_field_injective x y _ _ h.0 k.0 e in
    cc (first, write_fields_injective xs ys h.1 k.1 rest)

pub record IsHashable (c : CanonicalCommand) : Type 0 where
  pub command_id : IsShort c.command_id
  pub argv : All IsShort c.argv

-- Two commands with the same hashed bytes have the same name and the same arguments in the same
-- order: no argument can be split, joined or moved under one hash input.
pub hash_payload_injective :
    (c d : CanonicalCommand) → IsHashable c → IsHashable d → hash_payload c ≡ hash_payload d → c ≡ d
unfolding hash_payload
hash_payload_injective c d h k e =
    let (domain, r0) = write_field_injective _ _ _ _ (omega arith) (omega arith) e in
    let (name, r1) = write_field_injective _ _ _ _ h.command_id k.command_id r0 in
    cc (name, write_fields_injective c.argv d.argv h.argv k.argv r1)
