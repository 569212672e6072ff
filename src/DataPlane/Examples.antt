-- ===== src/DataPlane/Examples.antt =====
-- The view session and the wire protocol at concrete inputs.
use platform_agent.Prelude.{
  ◌+◌, ◌*◌, ◌/◌, ◌≤◌, ◌<◌, some, All, Result, err, ◌^◌, ◌≡◌, ◌↔◌, refl, true, false, none, List, [],
  ◌∷◌, ◌++◌, length, replicate, arith, ok,
}
use platform_agent.Prelude.Int.{pos, add64, mul64, quo64, wrap64}
use platform_agent.Bytes.{Bytes}
use platform_agent.DataPlane.FrameCodec.{
  RawFrame, CodecError, out_of_range, is_readable, BoundedPngEncoder, encode, encode_from,
  encode_candidate, encode_png, apply_frame_processors, clone_raw_frame, validate_raw_frame,
  half_scale_raw_frame, half_rows, half_row, half_pixel, mean, channel_sum, box, rgba_rows,
  rgba_row,
}
use platform_agent.DataPlane.FrameCodec.Halved.{box-InFrame}
use platform_agent.DataPlane.FrameCodec.Readable.{Keeps}
use platform_agent.DataPlane.FrameCodec.Bounded.{Outcome, encode-Outcome}
use platform_agent.DataPlane.FrameCodec.Valid.{IsShaped, IsFrame, half_scale_raw_frame-IsFrame}
use platform_agent.DataPlane.ViewSession.{
  Call, offer_call, drain_call, ready_call, not_required_call, set_recording_not_required,
  activate_call, new_view_session, abort, run, egress, step, sent, offer, admit, drain, take_frames,
  flush, activate, set_recording_ready, can_send,
}
use platform_agent.DataPlane.ViewSession.Gated.{IsGated, run-IsGated, egress-abort}
use platform_agent.DataPlane.FrameIpc.{
  Writer, ipc_nonce_len, msg_handshake, read_msg, read_verify_handshake, write_frame, write_msg,
  put, put_payload, header, read_full, read_header, read_body,
}
use platform_agent.DataPlane.FrameIpc.Reading.{wire}
use platform_agent.DataPlane.FrameIpc.RoundTrip.{read_verify_handshake-wire}

-- Two slots: the first of three frames is evicted.
abbrev calls : List Call
calls =
    offer_call (9 ∷ [])
    ∷ ready_call true
    ∷ activate_call
    ∷ offer_call (1 ∷ [])
    ∷ offer_call (2 ∷ [])
    ∷ offer_call (3 ∷ [])
    ∷ drain_call (pos 1)
    ∷ []

second_sent : egress (new_view_session (pos 2)) calls ≡ (2 ∷ []) ∷ []
unfolding egress step sent new_view_session offer admit drain take_frames flush activate
    set_recording_ready can_send
second_sent = refl

-- With the recorder not required, the gate stays open when the recorder is lost; the queue is flushed.
open_without_recorder :
    can_send (
      run
        (new_view_session (pos 2))
        (not_required_call true ∷ activate_call ∷ offer_call (1 ∷ []) ∷ ready_call false ∷ []))
    ≡ true
unfolding run step new_view_session offer admit flush activate set_recording_ready
    set_recording_not_required can_send
open_without_recorder = refl

run-IsGated_example : IsGated (run (new_view_session (pos 2)) calls)
run-IsGated_example = run-IsGated (pos 2) calls

egress-abort_example : egress (abort (run (new_view_session (pos 2)) calls)) calls ≡ []
egress-abort_example = egress-abort (run (new_view_session (pos 2)) calls) calls

abbrev received : Bytes
received = 1 ∷ 2 ∷ 0 ∷ 0 ∷ 0 ∷ 2 ∷ 7 ∷ 8 ∷ 5 ∷ []

received_read : read_msg received ≡ ok (2, 7 ∷ 8 ∷ [], 5 ∷ [])
unfolding read_msg read_full read_header read_body
received_read = refl

abbrev nonce : Bytes
nonce = replicate 32 3

abbrev greeting : Bytes
greeting = 1 ∷ 1 ∷ 0 ∷ 0 ∷ 0 ∷ 32 ∷ (nonce ++ (4 ∷ []))

read_verify_handshake-wire_example :
    (read_verify_handshake greeting nonce ≡ ok (4 ∷ []))
    ↔ ((length nonce ≡ ipc_nonce_len) × (greeting ≡ wire msg_handshake nonce ++ (4 ∷ [])))
read_verify_handshake-wire_example =
    read_verify_handshake-wire greeting nonce (4 ∷ []) (omega arith)

abbrev open_writer : Writer
open_writer taken p = none

frame_written : write_frame open_writer [] (7 ∷ 8 ∷ []) ≡ (none, 1 ∷ 2 ∷ 0 ∷ 0 ∷ 0 ∷ 2 ∷ 7 ∷ 8 ∷ [])
unfolding write_frame write_msg put put_payload header
frame_written = refl

-- Two pixels by two, and an encoder that leaves the bytes as they are.
abbrev small : RawFrame
small = record {
  width = pos 2;
  height = pos 2;
  stride = pos 8;
  pixels = 10 ∷ 20 ∷ 30 ∷ 0 ∷ 20 ∷ 30 ∷ 40 ∷ 0 ∷ 30 ∷ 40 ∷ 50 ∷ 0 ∷ 40 ∷ 50 ∷ 61 ∷ 0 ∷ [];
}

abbrev plain : BoundedPngEncoder
plain = record { enc = λ w h s. ok s; max_payload_bytes = pos 4; processors = [] }

small-IsShaped : IsShaped small 2 2
small-IsShaped = record {
  width_is = refl;
  height_is = refl;
  wide = omega arith;
  tall = omega arith;
  narrow = omega arith;
  low = omega arith;
}

small-IsFrame : IsFrame small 2 2 8
small-IsFrame = record {
  shaped = small-IsShaped;
  stride_is = refl;
  padded = omega arith;
  filled = omega arith;
  held = omega arith;
}

-- The four pixels are over the budget; their mean, red first, is not.
small_mean : encode plain small ≡ some (ok (45 ∷ 35 ∷ 25 ∷ 255 ∷ []))
unfolding encode encode_from encode_candidate encode_png is_readable apply_frame_processors
    clone_raw_frame validate_raw_frame half_scale_raw_frame half_rows half_row half_pixel mean
    channel_sum box rgba_rows rgba_row add64 mul64 quo64 wrap64
small_mean = refl

plain-Keeps : Keeps plain
unfolding apply_frame_processors
plain-Keeps g w h st c = c

encode-Outcome_example :
    (r : Result CodecError Bytes) × (encode plain small ≡ some r) × Outcome plain small r
encode-Outcome_example = encode-Outcome plain small 2 2 8 small-IsFrame plain-Keeps refl

-- The products of the checks wrap: this frame has no pixel, passes them, and its first read is a panic.
abbrev wrapped : RawFrame
wrapped = record { width = pos (2 ^ 62); height = pos 1; stride = pos 0; pixels = [] }

wrapped_passes : validate_raw_frame wrapped ≡ none
unfolding validate_raw_frame mul64 wrap64
wrapped_passes = refl

wrapped_panics : encode_candidate plain wrapped ≡ err out_of_range
unfolding encode_candidate encode_png is_readable apply_frame_processors clone_raw_frame mul64
    wrap64
wrapped_panics = refl

half_scale_raw_frame-IsFrame_example :
    IsFrame (half_scale_raw_frame small) ((2 + 1) / 2) ((2 + 1) / 2) (((2 + 1) / 2) * 4)
half_scale_raw_frame-IsFrame_example = half_scale_raw_frame-IsFrame small 2 2 8 small-IsFrame

box-InFrame_example :
    (1 ≤ length (box small 0 0)) × All (λ i. i + 3 < length small.pixels) (box small 0 0)
box-InFrame_example =
    box-InFrame small 2 2 8 refl refl refl (omega arith) (omega arith) 0 0 (omega arith)
      (omega arith)
