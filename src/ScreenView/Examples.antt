-- ===== src/ScreenView/Examples.antt =====
-- A screen view at concrete inputs.
use platform_agent.Prelude.{
  ◌≤◌, length, inl, get_or, ◌≡◌, ◌≢◌, refl, sym, ◌∙◌, true, false, none, some, List, [], ◌∷◌, ◌++◌,
  arith, ok, ◌⊎◌, ◌+◌, ◌*◌,
}
use platform_agent.Prelude.Int.{pos_part, pos, add64, sub64, mul64, quo64, rem64, wrap64}
use platform_agent.Bytes.{beq}
use platform_agent.Bytes.Text.{codes}
use platform_agent.Operation.Permit.{OperationPermit, permit_alg}
use platform_agent.Operation.Gate.{
  authorize_view_only, verified, view_steps, advance, set_seq, capability_view_only,
}
use platform_agent.DataPlane.ViewSession.{
  new_view_session, set_recording_not_required, activate, offer, drain, admit, take_frames,
  can_send, sent, abort, flush,
}
use platform_agent.PtyExec.OutStream.{Send}
use platform_agent.ScreenView.Dispatcher.{
  Dispatcher, living, cancelled, Moment, frame_offered, tick, pump_done, Feed, Ending, shut,
  context_end, image_frame, send_all, drain_feed, after_tick, after_pump, end_stream, meet, feed,
  opened_session, stream, decided_view, handle_view, default_content_type,
}
use platform_agent.Bytes.Decimal.{digits, format_int}
use platform_agent.DataPlane.FrameCodec.{RawFrame}
use platform_agent.DataPlane.FrameCodec.Valid.{IsFrame}
use platform_agent.DataPlane.Exfil.{
  mask_rect, frame_writable, cut_front, cut_back, paint_spans, paint_rows, paint_row, put_pixel,
}
use platform_agent.DataPlane.Exfil.Painted.{channel}
use platform_agent.ScreenView.MaskPolicy.Applied.{apply-same, apply-other}
use platform_agent.ScreenView.MaskPolicy.{
  apply, apply_scaled, black, MaskPolicy, no_mask, enabled, string, parse_mask_policy,
  scale_basis_points,
}
use platform_agent.ScreenView.MaskPolicy.Canonical.{
  IsMask, parse_mask_policy-string, parse_mask_policy-IsMask,
}
use platform_agent.ScreenView.Dispatcher.Ended.{feed-Stops}
use platform_agent.ScreenView.Dispatcher.Whole.{opened_feed}
use platform_agent.ScreenView.Dispatcher.Authorized.{IsStarted, handle_view-IsStarted}

abbrev permit : OperationPermit
permit = record {
  alg = permit_alg;
  kid = codes "k1";
  permit_version = pos 1;
  policy_version = codes "p";
  decision_id = codes "d";
  session_id = codes "s1";
  operation_id = codes "op";
  device_id = codes "dev";
  operator_subject = codes "sub";
  capability = capability_view_only;
  command_hash = [];
  issued_at = pos 1000000;
  expires_at = pos 1600000;
  seq = pos 6;
  signature_b64 = [];
}

abbrev dispatcher : Dispatcher
dispatcher = record {
  authorizer = record { verify = some (λ p now. (true, none)); last_seq = λ _. pos 0 };
  queue_cap = pos 2;
  drain_batch = pos 8;
  content_type = default_content_type;
}

abbrev always : Send
always log f = none

abbrev clean : List Moment
clean =
    frame_offered (1 ∷ [])
    ∷ tick living
    ∷ frame_offered (2 ∷ [])
    ∷ frame_offered (3 ∷ [])
    ∷ frame_offered (4 ∷ [])
    ∷ pump_done living none
    ∷ []

abbrev outcome : Ending × Feed
outcome = (handle_view dispatcher [] always permit (pos 1100000) (pos 1100000) none clean).0

-- The queue holds two frames: the second of four is evicted. The end frame follows.
clean_sends :
    outcome.1.frames
    ≡ image_frame dispatcher [] always (pos 0) (1 ∷ []) false
      ∷ image_frame dispatcher [] always (pos 1) (3 ∷ []) false
      ∷ image_frame dispatcher [] always (pos 2) (4 ∷ []) false
      ∷ image_frame dispatcher [] always (pos 3) [] true
      ∷ []
unfolding handle_view decided_view authorize_view_only verified view_steps advance set_seq beq
    stream feed meet drain_feed send_all after_tick after_pump end_stream opened_session
    new_view_session set_recording_not_required activate offer drain admit take_frames can_send sent
    image_frame add64 sub64 wrap64
clean_sends = refl

some_sent : outcome.1.frames ≢ []
some_sent h = let made = sym clean_sends ∙ h in cc

handle_view-IsStarted_example :
    IsStarted dispatcher [] always permit
      (pos 1100000)
      (pos 1100000)
      none
      clean
      (handle_view dispatcher [] always permit (pos 1100000) (pos 1100000) none clean).0
handle_view-IsStarted_example =
    handle_view-IsStarted dispatcher [] always permit (pos 1100000) (pos 1100000) none clean
      some_sent

abbrev opening : List Moment
opening = frame_offered (1 ∷ []) ∷ tick living ∷ frame_offered (2 ∷ []) ∷ []

was_cancelled : cancelled ≢ living
was_cancelled h = cc

-- Two frames are in the queue when the context ends within the drain, after the first of them is sent:
-- the second leaves too.
abbrev queued : List Moment
queued = frame_offered (1 ∷ []) ∷ frame_offered (2 ∷ []) ∷ []

drained_whole :
    (feed dispatcher [] always
      (opened_feed dispatcher)
      (queued ++ (tick living ∷ (tick cancelled ∷ [])))).1.frames
    ≡ image_frame dispatcher [] always (pos 0) (1 ∷ []) false
      ∷ image_frame dispatcher [] always (pos 1) (2 ∷ []) false
      ∷ []
unfolding feed meet drain_feed send_all after_tick context_end shut abort opened_session
    new_view_session set_recording_not_required activate offer drain admit take_frames can_send
    flush image_frame add64 sub64 wrap64
drained_whole = refl

feed-Stops_example :
    ((feed dispatcher [] always
        (opened_feed dispatcher)
        (queued ++ (tick living ∷ (tick cancelled ∷ [])))).1.frames
      ≡ (feed dispatcher [] always
          (opened_feed dispatcher)
          (queued ++ (tick living ∷ []))).1.frames)
    × (length
          (feed dispatcher [] always
            (opened_feed dispatcher)
            (queued ++ (tick living ∷ (tick cancelled ∷ [])))).1.frames
        ≤ length (feed dispatcher [] always (opened_feed dispatcher) queued).1.frames
          + (pos_part dispatcher.drain_batch + 1))
feed-Stops_example =
    feed-Stops dispatcher [] always (opened_feed dispatcher) queued (tick living)
      (tick cancelled ∷ []) (was_cancelled, tt)

-- "1000,2000,2500,5000": read, written back, and scaled on a screen of 1366 pixels.
abbrev corner : MaskPolicy
corner = record { x = pos 1000; y = pos 2000; width = pos 2500; height = pos 5000 }

corner-IsMask : IsMask corner
corner-IsMask = record {
  x = 1000;
  y = 2000;
  width = 2500;
  height = 5000;
  made = refl;
  wide = omega arith;
  tall = omega arith;
  across = omega arith;
  down = omega arith;
}

corner_text : string corner ≡ codes "1000,2000,2500,5000"
unfolding string enabled format_int digits
corner_text = refl

parse_mask_policy-string_example : parse_mask_policy (string corner) ≡ ok corner
parse_mask_policy-string_example = parse_mask_policy-string corner corner-IsMask

parse_mask_policy-IsMask_example : ((string corner ≡ []) × (corner ≡ no_mask)) ⊎ IsMask corner
parse_mask_policy-IsMask_example =
    parse_mask_policy-IsMask (string corner) corner parse_mask_policy-string_example

-- The upper right quarter of a screen of two pixels by two.
abbrev quarter : MaskPolicy
quarter = record { x = pos 5000; y = pos 0; width = pos 5000; height = pos 5000 }

abbrev quarter_mask : IsMask quarter
quarter_mask = record {
  x = 5000;
  y = 0;
  width = 5000;
  height = 5000;
  made = refl;
  wide = omega arith;
  tall = omega arith;
  across = omega arith;
  down = omega arith;
}

abbrev screen : RawFrame
screen = record {
  width = pos 2;
  height = pos 2;
  stride = pos 8;
  pixels = 1 ∷ 2 ∷ 3 ∷ 4 ∷ 5 ∷ 6 ∷ 7 ∷ 8 ∷ 9 ∷ 10 ∷ 11 ∷ 12 ∷ 13 ∷ 14 ∷ 15 ∷ 16 ∷ [];
}

screen-IsFrame : IsFrame screen 2 2 8
screen-IsFrame = record {
  shaped = record {
    width_is = refl;
    height_is = refl;
    wide = omega arith;
    tall = omega arith;
    narrow = omega arith;
    low = omega arith;
  };
  stride_is = refl;
  padded = omega arith;
  filled = omega arith;
  held = omega arith;
}

quarter_applied :
    (apply quarter screen).pixels
    ≡ 1 ∷ 2 ∷ 3 ∷ 4 ∷ 0 ∷ 0 ∷ 0 ∷ 255 ∷ 9 ∷ 10 ∷ 11 ∷ 12 ∷ 13 ∷ 14 ∷ 15 ∷ 16 ∷ []
unfolding apply apply_scaled enabled scale_basis_points mask_rect frame_writable cut_front cut_back
    paint_spans paint_rows paint_row put_pixel add64 sub64 mul64 quo64 rem64 wrap64
quarter_applied = refl

-- The alpha of the masked pixel.
apply-same_example : get_or (apply quarter screen).pixels (0 * 8 + 1 * 4 + 3) 0 ≡ channel black 3
apply-same_example =
    apply-same quarter quarter_mask screen 2 2 8 screen-IsFrame 1 0 3 (omega arith) (omega arith)
      (omega arith) (omega arith) (omega arith)

apply-other_example :
    get_or (apply quarter screen).pixels (1 * 8 + 0 * 4 + 2) 0
    ≡ get_or screen.pixels (1 * 8 + 0 * 4 + 2) 0
apply-other_example =
    apply-other quarter quarter_mask screen 2 2 8 screen-IsFrame 0 1 2 (omega arith)
      (inl (inl (omega arith))) (omega arith)
