-- ===== src/PtyExec/OutStream/Framed/Whole.antt =====
-- The stream of a whole output.
use platform_agent.Prelude.{
  ℕ, ◌^◌, ◌≤◌, ◌<◌, ◌≡◌, refl, sym, ap, ◌∙◌, subst, true, false, Option, none, some, List, [], ◌∷◌,
  ◌++◌, length, All, arith, take-all, Result, ok, err,
}
use platform_agent.Prelude.Int.{ℤ, pos}
use platform_agent.Bytes.{Bytes}
use platform_agent.PtyExec.OutStream.{
  DataFrame, OutputStreamer, Send, Sent, StreamError, Written, frame_of, clamp_chunk, streamer_of,
  new_output_streamer, end_sent, close, after_copy, copied, stream_to, stream_output,
  max_data_frame_chunk,
}
use platform_agent.PtyExec.OutStream.Framed.{payloads, Numbered, IsData, Cut, write-Cut}

-- The frames of a stream that ended well: the whole source in order, then one end frame.
pub record IsWhole (s : OutputStreamer) (src : Bytes) (frames : List DataFrame) : Type 0 where
  pub sent : List DataFrame
  pub ended : frames ≡ sent ++ (frame_of (record s { seq = pos (length sent) }) [] true ∷ [])
  pub numbered : Numbered 0 sent
  pub carried : payloads sent ≡ src
  pub framed : All (IsData s) sent

-- A streamer as it is made.
pub record IsNew (s : OutputStreamer) : Type 0 where
  pub closed : s.closed ≡ false
  pub chunk : 0 < s.chunk
  pub seq : s.seq ≡ pos 0

pub copied-Cut :
    (s : OutputStreamer) (src : Bytes)
    → IsNew s
    → length src < 2 ^ 63
    → Cut
        (record { streamer = s; frames = [] })
        src
        0
        0
        (copied (record { streamer = s; frames = [] }) src)
unfolding copied
copied-Cut s [] n h = record {
  sent = [];
  count = 0;
  frames = refl;
  numbered = tt;
  carried = refl;
  reported = omega arith;
  complete = λ _. refl;
  framed = tt;
  streamer = ground (arith, n.seq);
}
copied-Cut s (b ∷ src) n h = write-Cut _ (b ∷ src) 0 n.closed n.chunk n.seq (omega (arith, h))

end_sent_frames :
    (o : Option ℕ) (t : Sent) (f : DataFrame)
    → (end_sent o t f).0 ≡ none
    → (end_sent o t f).1.frames ≡ t.frames ++ (f ∷ [])
unfolding end_sent
end_sent_frames (some e) t f h = cc
end_sent_frames none t f h = refl

close_frames :
    (t : Sent)
    → t.streamer.closed ≡ false
    → (close t).0 ≡ none
    → (close t).1.frames ≡ t.frames ++ (frame_of t.streamer [] true ∷ [])
unfolding close
close_frames t c = simp c (λ h. end_sent_frames _ _ _ h)

after_copy-IsWhole :
    (s : OutputStreamer) (src : Bytes) (r : Written)
    → IsNew s
    → Cut (record { streamer = s; frames = [] }) src 0 0 r
    → (after_copy r).0 ≡ none
    → IsWhole s src (after_copy r).1
unfolding after_copy
after_copy-IsWhole s src ((n, some e), t) k c h = cc
after_copy-IsWhole s src ((n, none), t) k c h =
    let seq_at : t.streamer ≡ record s { seq = pos (length c.sent) } =
      c.streamer ∙ ap (λ j. record s { seq = pos j }) (omega arith) in
    record {
      sent = c.sent;
      ended =
          close_frames t (ap (λ u. u.closed) seq_at ∙ k.closed) h
          ∙ ap (λ fs. fs ++ (frame_of t.streamer [] true ∷ [])) c.frames
          ∙ ap (λ u. c.sent ++ (frame_of u [] true ∷ [])) seq_at;
      numbered = c.numbered;
      carried = c.carried ∙ take-all c.count src (omega (arith, c.complete refl));
      framed = c.framed;
    }

clamp_chunk_pos : (c : ℤ) → 0 < clamp_chunk c
unfolding clamp_chunk
clamp_chunk_pos (pos n) = ground arith
clamp_chunk_pos _ = ground arith

pub clamp_chunk_le : (c : ℤ) → clamp_chunk c ≤ max_data_frame_chunk
unfolding clamp_chunk
clamp_chunk_le c = ground arith

pub new_output_streamer-IsNew :
    (stream_id content_type : Bytes) (chunk : ℤ) (send : Option Send) (s : OutputStreamer)
    → new_output_streamer stream_id content_type chunk send ≡ ok s
    → IsNew s
unfolding new_output_streamer streamer_of
new_output_streamer-IsNew stream_id content_type chunk none s h = absurd (ground arith)
new_output_streamer-IsNew stream_id content_type chunk (some send) s h =
    let c : s.chunk ≡ clamp_chunk chunk = ground arith in
    record {
      closed = ground arith;
      chunk = subst (λ n. 0 < n) (sym c) (clamp_chunk_pos chunk);
      seq = ground arith;
    }

-- The stream of a source that returns no error has a streamer, and its frames carry the whole source
-- in order, each non-empty and at most a chunk and numbered from 0, and end with one empty frame
-- that is marked as the last. The source's length is one that an int holds.
pub stream_output-IsWhole :
    (stream_id content_type : Bytes) (chunk : ℤ) (src : Bytes) (send : Option Send)
    → length src < 2 ^ 63
    → (stream_output stream_id content_type chunk src send).0 ≡ none
    → (s : OutputStreamer) × (new_output_streamer stream_id content_type chunk send ≡ ok s)
      × IsWhole s src (stream_output stream_id content_type chunk src send).1
unfolding stream_output stream_to
stream_output-IsWhole stream_id content_type chunk src send h =
    go (new_output_streamer stream_id content_type chunk send) refl
  where
    go :
        (r : Result StreamError OutputStreamer)
        → new_output_streamer stream_id content_type chunk send ≡ r
        → (stream_to r src).0 ≡ none
        → (s : OutputStreamer) × (new_output_streamer stream_id content_type chunk send ≡ ok s)
          × IsWhole s src (stream_to r src).1
    go (err e) q = λ k. cc
    go (ok s) q =
        let n = new_output_streamer-IsNew stream_id content_type chunk send s q in
        λ k. (s, q, after_copy-IsWhole s src _ n (copied-Cut s src n h) k)
