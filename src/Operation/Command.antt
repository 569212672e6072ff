-- ===== src/Operation/Command.antt =====
-- internal/remotebridge/operation/command.go: the canonical command and the bytes of its hash.
pub mod Tokens
pub mod HashPayload
use platform_agent.Prelude.{ℕ, Bool, List, [], ◌∷◌, ◌++◌, map, leb, ◌==◌, if◌then◌else◌, length}
use platform_agent.Bytes.{Bytes}
use platform_agent.Bytes.Text.{codes, split, trim, is_ascii, ascii_lower_byte}
use platform_agent.Operation.Permit.{write_field}

pub record CanonicalCommand : Type 0 where
  pub command_id : Bytes
  pub argv : List Bytes

abbrev pub command_domain : Bytes
command_domain = codes "RemoteBridgeCommand:v1"

-- Characters up to the blank are cut at both ends. In UTF-8 each of them is one byte, and every
-- other character's bytes are larger.
is_java_space : ℕ → Bool
is_java_space c = leb c b' '

unfoldable pub java_trim : Bytes → Bytes
unfolding is_java_space trim
java_trim = trim is_java_space

drop_empty : List Bytes → List Bytes
drop_empty [] = []
drop_empty (p ∷ ps) = let rest = drop_empty ps in if length p == 0 then rest else p ∷ rest

unfoldable pub split_space_runs : Bytes → List Bytes
unfolding drop_empty split
split_space_runs s = drop_empty (split b' ' s)

-- strings.ToLower maps an ASCII text byte by byte; `unicode_lower` is what it does on any other.
module _ (unicode_lower : Bytes → Bytes) where
  unfoldable pub to_lower : Bytes → Bytes
  unfolding is_ascii ascii_lower_byte
  to_lower s = if is_ascii s then map ascii_lower_byte s else unicode_lower s

  -- A line that is not blank has a first token.
  unfoldable pub from_tokens : List Bytes → CanonicalCommand
  from_tokens [] = record { command_id = []; argv = [] }
  from_tokens (first ∷ rest) = record { command_id = to_lower (java_trim first); argv = rest }

  unfoldable pub parse_command : Bytes → CanonicalCommand
  parse_command command_line =
      let line = java_trim command_line in
      if length line == 0
      then record { command_id = []; argv = [] }
      else from_tokens (split_space_runs line)

unfoldable pub is_empty : CanonicalCommand → Bool
is_empty c = length c.command_id == 0

write_fields : List Bytes → Bytes
write_fields [] = []
write_fields (a ∷ rest) = write_field a ++ write_fields rest

-- The bytes whose SHA-256 is the command's hash.
unfoldable pub hash_payload : CanonicalCommand → Bytes
unfolding write_fields
hash_payload c = write_field command_domain ++ (write_field c.command_id ++ write_fields c.argv)
