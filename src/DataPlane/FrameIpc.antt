-- ===== src/DataPlane/FrameIpc.antt =====
-- internal/remotebridge/dataplane/frameipc.go: the wire protocol between the service and its
-- capture helper. A writer is a parameter that may fail on any write, given what it has taken so
-- far; a reader holds the bytes that are left before its end.
pub mod Reading
pub mod RoundTrip
use platform_agent.Prelude.{
  ℕ, ◌+◌, ◌*◌, ◌%◌, ◌^◌, Bool, true, false, not, Option, none, some, List, [], ◌∷◌, ◌++◌, length,
  take, drop, if◌then◌else◌, ◌==◌, ltb, Result, ok, err, ◌>>=◌, ◌>>◌, require,
}
use platform_agent.Bytes.{Bytes, beq}
use platform_agent.Bytes.BigEndian.{be32, word32}

abbrev pub ipc_protocol_version : ℕ
ipc_protocol_version = 1

abbrev pub max_ipc_frame_size : ℕ
max_ipc_frame_size = 16 * 2 ^ 20

abbrev pub ipc_nonce_len : ℕ
ipc_nonce_len = 32

abbrev pub ipc_header_size : ℕ
ipc_header_size = 6

abbrev pub msg_handshake : ℕ
msg_handshake = 1

abbrev pub msg_frame : ℕ
msg_frame = 2

abbrev pub msg_eof : ℕ
msg_eof = 3

abbrev pub msg_local_abort : ℕ
msg_local_abort = 4

abbrev pub msg_indicator_lost : ℕ
msg_indicator_lost = 5

abbrev pub msg_banner_create_failed : ℕ
msg_banner_create_failed = 6

abbrev pub msg_banner_not_visible : ℕ
msg_banner_not_visible = 7

abbrev pub msg_capture_start_failed : ℕ
msg_capture_start_failed = 8

abbrev pub msg_capture_lost : ℕ
msg_capture_lost = 9

-- What a read or a write ends with instead of a value.
pub data IpcError : Type 0 where
  eof unexpected_eof frame_too_large handshake_mismatch protocol_violation nonce_length : IpcError
  local_abort indicator_lost banner_create_failed banner_not_visible : IpcError
  capture_startup_failed capture_failed : IpcError
  write_failed : ℕ → IpcError

-- The bytes taken so far and the next ones, to the number of an error if the write fails.
abbrev pub Writer : Type 0
Writer = Bytes → Bytes → Option ℕ

-- One call of a writer, and what it has taken since.
unfoldable pub put : Writer → Bytes → Bytes → Option IpcError × Bytes
put w taken p = elim (w taken p) [
  | some e ↦ (some (write_failed e), taken)
  | none ↦ (none, taken ++ p)
]

unfoldable pub header : ℕ → Bytes → Bytes
header t payload = ipc_protocol_version ∷ t ∷ be32 (length payload % 2 ^ 32)

unfoldable pub put_payload : Writer → Bytes → Option IpcError × Bytes → Option IpcError × Bytes
put_payload w payload (some e, taken) = (some e, taken)
put_payload w payload (none, taken) =
    if ltb 0 (length payload) then put w taken payload else (none, taken)

unfoldable pub write_msg : Writer → Bytes → ℕ → Bytes → Option IpcError × Bytes
write_msg w taken t payload =
    if ltb max_ipc_frame_size (length payload)
    then (some frame_too_large, taken)
    else put_payload w payload (put w taken (header t payload))

-- io.ReadFull: no byte at all is an end of file, some of the bytes an unexpected one.
unfoldable pub read_full : ℕ → Bytes → Result IpcError (Bytes × Bytes)
read_full n r =
    if ltb (length r) n
    then (if length r == 0 then err eof else err unexpected_eof)
    else ok (take n r, drop n r)

-- The type, the payload, and the bytes left.
abbrev pub Message : Type 0
Message = ℕ × Bytes × Bytes

unfoldable pub read_body : ℕ → ℕ → Bytes → Result IpcError Message
read_body t n rest =
    if ltb max_ipc_frame_size n
    then err frame_too_large
    else if n == 0
    then ok (t, [], rest)
    else read_full n rest >>= λ r. ok (t, r.0, r.1)

-- The header's six bytes, checked and taken apart.
unfoldable pub read_header : Bytes → Bytes → Result IpcError Message
read_header (v ∷ t ∷ a ∷ b ∷ c ∷ d ∷ []) rest =
    require (v == ipc_protocol_version) protocol_violation >> read_body t (word32 a b c d) rest
read_header _ rest = err unexpected_eof

unfoldable pub read_msg : Bytes → Result IpcError Message
read_msg r = read_full ipc_header_size r >>= λ h. read_header h.0 h.1

unfoldable pub write_handshake : Writer → Bytes → Bytes → Option IpcError × Bytes
write_handshake w taken nonce =
    if not (length nonce == ipc_nonce_len)
    then (some nonce_length, taken)
    else write_msg w taken msg_handshake nonce

unfoldable pub verify_handshake : Bytes → Message → Result IpcError Bytes
verify_handshake expected (t, got, rest) =
    if not (t == msg_handshake)
    then err protocol_violation
    else if not (beq got expected)
    then err handshake_mismatch
    else ok rest

-- The bytes left after a handshake with the expected nonce.
unfoldable pub read_verify_handshake : Bytes → Bytes → Result IpcError Bytes
read_verify_handshake r expected =
    if not (length expected == ipc_nonce_len)
    then err nonce_length
    else read_msg r >>= verify_handshake expected

unfoldable pub write_frame : Writer → Bytes → Bytes → Option IpcError × Bytes
write_frame w taken payload = write_msg w taken msg_frame payload

unfoldable pub write_eof : Writer → Bytes → Option IpcError × Bytes
write_eof w taken = write_msg w taken msg_eof []

unfoldable pub write_local_abort : Writer → Bytes → Option IpcError × Bytes
write_local_abort w taken = write_msg w taken msg_local_abort []

unfoldable pub write_indicator_lost : Writer → Bytes → Option IpcError × Bytes
write_indicator_lost w taken = write_msg w taken msg_indicator_lost []

unfoldable pub write_banner_create_failed : Writer → Bytes → Option IpcError × Bytes
write_banner_create_failed w taken = write_msg w taken msg_banner_create_failed []

unfoldable pub write_banner_not_visible : Writer → Bytes → Option IpcError × Bytes
write_banner_not_visible w taken = write_msg w taken msg_banner_not_visible []

unfoldable pub write_capture_start_failed : Writer → Bytes → Option IpcError × Bytes
write_capture_start_failed w taken = write_msg w taken msg_capture_start_failed []

unfoldable pub write_capture_lost : Writer → Bytes → Option IpcError × Bytes
write_capture_lost w taken = write_msg w taken msg_capture_lost []

-- A signal's payload is empty.
unfoldable pub signal : Bytes → IpcError → Result IpcError (Bytes × Bytes)
signal payload e = if not (length payload == 0) then err protocol_violation else err e

unfoldable pub frame_result : Message → Result IpcError (Bytes × Bytes)
frame_result (t, payload, rest) =
    if t == msg_frame
    then ok (payload, rest)
    else if t == msg_eof
    then err eof
    else if t == msg_local_abort
    then signal payload local_abort
    else if t == msg_indicator_lost
    then signal payload indicator_lost
    else if t == msg_banner_create_failed
    then signal payload banner_create_failed
    else if t == msg_banner_not_visible
    then signal payload banner_not_visible
    else if t == msg_capture_start_failed
    then signal payload capture_startup_failed
    else if t == msg_capture_lost
    then signal payload capture_failed
    else err protocol_violation

-- The next frame's payload and the bytes left.
unfoldable pub read_frame : Bytes → Result IpcError (Bytes × Bytes)
read_frame r = read_msg r >>= frame_result
