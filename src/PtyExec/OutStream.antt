-- ===== src/PtyExec/OutStream.antt =====
-- internal/remotebridge/ptyexec/outstream.go: bytes cut into ordered frames. The send function is a
-- parameter that may depend on the frames it has been given, and may fail on each.
pub mod Framed
use platform_agent.Prelude.{
  ℕ, zero, suc, ◌+◌, ◌*◌, Bool, true, false, Option, none, some, List, [], ◌∷◌, ◌++◌, length, take,
  drop, if◌then◌else◌, ◌==◌, ltb, Result, ok, err,
}
use platform_agent.Prelude.Int.{ℤ, pos, ltb_ℤ, leb_ℤ, add64, pos_part}
use platform_agent.Bytes.{Bytes}
use platform_agent.Bytes.Text.{codes}

abbrev pub default_data_frame_chunk : ℕ
default_data_frame_chunk = 16 * 1024

abbrev pub max_data_frame_chunk : ℕ
max_data_frame_chunk = 64 * 1024

abbrev pub pty_content_type : Bytes
pty_content_type = codes "application/x-conpty-stream"

-- The fields of the protocol's frame that this code sets.
pub record DataFrame : Type 0 where
  pub stream_id : Bytes
  pub frame_seq : ℤ
  pub content_type : Bytes
  pub payload : Bytes
  pub end_stream : Bool

pub data StreamError : Type 0 where
  empty_stream_id nil_send streamer_closed : StreamError
  send_failed : ℕ → StreamError

-- The frames sent so far, and the next one, to the number of an error if the send fails.
abbrev pub Send : Type 0
Send = List DataFrame → DataFrame → Option ℕ

pub record OutputStreamer : Type 0 where
  pub stream_id : Bytes
  pub content_type : Bytes
  pub chunk : ℕ
  pub send : Send
  pub seq : ℤ
  pub closed : Bool

unfoldable pub clamp_chunk : ℤ → ℕ
clamp_chunk c =
    if leb_ℤ c (pos 0)
    then default_data_frame_chunk
    else if ltb max_data_frame_chunk (pos_part c)
    then max_data_frame_chunk
    else pos_part c

streamer_of : Bytes → Bytes → ℤ → Option Send → Result StreamError OutputStreamer
streamer_of stream_id content_type chunk none = err nil_send
streamer_of stream_id content_type chunk (some send) = ok (record {
  stream_id = stream_id;
  content_type = if length content_type == 0 then pty_content_type else content_type;
  chunk = clamp_chunk chunk;
  send = send;
  seq = pos 0;
  closed = false;
})

unfoldable pub new_output_streamer :
    Bytes → Bytes → ℤ → Option Send → Result StreamError OutputStreamer
unfolding streamer_of
new_output_streamer stream_id content_type chunk send =
    if length stream_id == 0
    then err empty_stream_id
    else streamer_of stream_id content_type chunk send

-- The streamer and the log of frames that were sent.
pub record Sent : Type 0 where
  pub streamer : OutputStreamer
  pub frames : List DataFrame

unfoldable pub frame_of : OutputStreamer → Bytes → Bool → DataFrame
frame_of s payload last = record {
  stream_id = s.stream_id;
  frame_seq = s.seq;
  content_type = s.content_type;
  payload = payload;
  end_stream = last;
}

abbrev pub advance_seq : OutputStreamer → OutputStreamer
advance_seq s = record s { seq = add64 s.seq (pos 1) }

abbrev pub Written : Type 0
Written = (ℕ × Option StreamError) × Sent

-- One turn's send has returned: an error stops the loop, else the loop goes on.
unfoldable pub after_send : Option ℕ → ℕ → Sent → Written → Written
after_send (some e) written t rest = ((written, some (send_failed e)), t)
after_send none written t rest = rest

-- The loop of Write, on fuel: each turn takes at least a byte. Out of fuel it stops with no error.
unfoldable pub write_loop : ℕ → Bytes → ℕ → Sent → Written
write_loop zero p written t = ((written, none), t)
write_loop (suc fuel) [] written t = ((written, none), t)
write_loop (suc fuel) (b ∷ p) written t =
    let n = if ltb t.streamer.chunk (length (b ∷ p)) then t.streamer.chunk else length (b ∷ p) in
    let f = frame_of t.streamer (take n (b ∷ p)) false in
    let next : Sent = record { streamer = advance_seq t.streamer; frames = t.frames ++ (f ∷ []) } in
    let rest = write_loop fuel (drop n (b ∷ p)) (written + n) next in
    after_send (t.streamer.send t.frames f) written t rest

unfoldable pub write : Sent → Bytes → Written
write t p =
    if t.streamer.closed then ((0, some streamer_closed), t) else write_loop (length p) p 0 t

unfoldable pub end_sent : Option ℕ → Sent → DataFrame → Option StreamError × Sent
end_sent (some e) t f = (some (send_failed e), t)
end_sent none t f = (none, record t { frames = t.frames ++ (f ∷ []) })

unfoldable pub close : Sent → Option StreamError × Sent
close t =
    if t.streamer.closed
    then (none, t)
    else (let shut : Sent = record t { streamer = record t.streamer { closed = true } } in
        let f = frame_of t.streamer [] true in end_sent (t.streamer.send t.frames f) shut f)

-- A copy error closes the streamer and is returned.
unfoldable pub after_copy : Written → Option StreamError × List DataFrame
after_copy ((n, some e), t) = (some e, (close t).1.frames)
after_copy ((n, none), t) = ((close t).0, (close t).1.frames)

-- The source is a reader over bytes, which io.Copy writes with one call, and with none if empty.
unfoldable pub copied : Sent → Bytes → Written
copied t [] = ((0, none), t)
copied t (b ∷ src) = write t (b ∷ src)

unfoldable pub stream_to :
    Result StreamError OutputStreamer → Bytes → Option StreamError × List DataFrame
stream_to (err e) src = (some e, [])
stream_to (ok s) src = after_copy (copied (record { streamer = s; frames = [] }) src)

unfoldable pub stream_output :
    Bytes → Bytes → ℤ → Bytes → Option Send → Option StreamError × List DataFrame
stream_output stream_id content_type chunk src send =
    stream_to (new_output_streamer stream_id content_type chunk send) src
