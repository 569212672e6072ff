-- ===== src/ScreenView/Dispatcher/Ended.antt =====
-- The end of the context at any time of a screen view, within a drain too: what still leaves.
use platform_agent.Prelude.{
  ℕ, suc, ◌+◌, ◌≤◌, ◌≡◌, ◌⊎◌, inl, inr, refl, sym, ap, ◌∙◌, subst, Bool, true, false, Option, none,
  some, List, [], ◌∷◌, ◌++◌, length, length-append, length-take, All, arith, ltb, ltb→lt, ◌||◌,
  ◌==◌,
}
use platform_agent.Prelude.Int.{ℤ, pos, pos_part, leb_ℤ, add64}
use platform_agent.Bytes.{Bytes}
use platform_agent.DataPlane.ViewSession.{ViewSession, drain, take_frames}
use platform_agent.PtyExec.OutStream.{Send}
use platform_agent.ScreenView.Dispatcher.{
  Dispatcher, Context, living, cancelled, expired, ViewEnd, Moment, frame_offered, tick, pump_done,
  context_done, Feed, Ending, running, returned, Drained, shut, context_end, after_tick, after_pump,
  image_frame, end_stream, drain_feed, meet, feed,
}
use platform_agent.ScreenView.Dispatcher.Images.{images, IsSent, send_all-IsSent}
use platform_agent.ScreenView.Dispatcher.Whole.{
  IsOver, meet-IsOver, feed-running, feed-returned, feed-nil,
}

-- A moment after the context has ended: the pump may still offer frames, and a case that is taken sees
-- the end.
abbrev pub IsAfter : Moment → Type 0
IsAfter (frame_offered payload) = Unit
IsAfter m = IsOver m

length-drain : (s : ViewSession) (n : ℤ) → length (drain s n).0 ≤ pos_part n
unfolding drain take_frames
length-drain s n =
    by_tests s.aborted (leb_ℤ n (pos 0) || (length s.queue == 0))
      (ltb (length s.queue) (pos_part n)) refl refl refl
  where
    by_tests :
        (a b c : Bool)
        → s.aborted ≡ a
        → (leb_ℤ n (pos 0) || (length s.queue == 0)) ≡ b
        → ltb (length s.queue) (pos_part n) ≡ c
        → length (drain s n).0 ≤ pos_part n
    by_tests true b c p q r = rw (p, drain) (omega arith)
    by_tests false true c p q r = rw (p, q, drain) (omega arith)
    by_tests false false true p q r =
        rw (p, q, r, drain, take_frames, length-take (length s.queue) s.queue)
          (omega (arith, ltb→lt _ _ r))
    by_tests false false false p q r =
        rw (p, q, r, drain, take_frames, length-take (pos_part n) s.queue) (omega arith)

module _ (d : Dispatcher) (stream_id : Bytes) (send : Send) where
  length-images : (seq : ℤ) (ps : List Bytes) → length (images d stream_id send seq ps) ≡ length ps
  length-images seq [] = refl
  length-images seq (p ∷ ps) = ap suc (length-images (add64 seq (pos 1)) ps)

  -- A turn's frames are at most so many more than were sent before.
  abbrev Sends : ℕ → Feed → Feed → Type 0
  Sends n f g = length g.frames ≤ length f.frames + n

  abbrev batch : ℕ
  batch = pos_part d.drain_batch

  sent-Sends :
      (f g : Feed) (ps : List Bytes) → IsSent d stream_id send f ps g → Sends (length ps) f g
  sent-Sends f g ps s =
      let total = ap length s.parts ∙ length-append s.out s.left in
      let frames =
        ap length s.frames ∙ length-append f.frames (images d stream_id send f.seq s.out) in
      omega (arith, total, frames, length-images f.seq s.out)

  drain-Sends : (f : Feed) → Sends batch f (drain_feed d stream_id send f).1
  unfolding drain_feed
  drain-Sends f = omega (
    arith,
    sent-Sends _ _ _ (
        send_all-IsSent d stream_id send (record f { session = (drain f.session d.drain_batch).1 })
          (drain f.session d.drain_batch).0),
    length-drain f.session d.drain_batch,
  )

  end_stream-Sends : (f : Feed) → Sends 1 f (end_stream d stream_id send f)
  unfolding end_stream
  end_stream-Sends f = by_send (send f.frames (image_frame d stream_id send f.seq [] true)) refl
    where
      by_send :
          (o : Option ℕ)
          → send f.frames (image_frame d stream_id send f.seq [] true) ≡ o
          → Sends 1 f (end_stream d stream_id send f)
      by_send (some e) q = rw (q, end_stream) (omega arith)
      by_send none q =
          rw
            (
              q,
              end_stream,
              length-append f.frames (image_frame d stream_id send f.seq [] true ∷ []),
            )
            (omega arith)

  after_tick-Sends :
      (f : Feed) (r : Drained)
      → Sends batch f r.1
      → Sends (batch + 1) f (after_tick d stream_id send r).1
  unfolding after_tick shut
  after_tick-Sends f (some e, g) h = omega (arith, h)
  after_tick-Sends f (none, g) h = omega (arith, h)

  after_pump-Sends :
      (f : Feed) (r : Drained)
      → Sends batch f r.1
      → Sends (batch + 1) f (after_pump d stream_id send r).1
  unfolding after_pump shut
  after_pump-Sends f (some e, g) h = omega (arith, h)
  after_pump-Sends f (none, g) h = omega (arith, h, end_stream-Sends g)

  context_end-Sends :
      (f : Feed) (c : Context) → Sends (batch + 1) f (context_end d stream_id send c f).1
  unfolding context_end shut
  context_end-Sends f living = omega arith
  context_end-Sends f cancelled = omega arith
  context_end-Sends f expired = omega arith

  meet-Sends : (f : Feed) (m : Moment) → Sends (batch + 1) f (meet d stream_id send f m).1
  unfolding meet shut
  meet-Sends f (frame_offered p) = omega arith
  meet-Sends f (tick living) = after_tick-Sends f (drain_feed d stream_id send f) (drain-Sends f)
  meet-Sends f (tick cancelled) = context_end-Sends f cancelled
  meet-Sends f (tick expired) = context_end-Sends f expired
  meet-Sends f (pump_done living (some e)) = omega arith
  meet-Sends f (pump_done living none) =
      after_pump-Sends f (drain_feed d stream_id send f) (drain-Sends f)
  meet-Sends f (pump_done cancelled e) = context_end-Sends f cancelled
  meet-Sends f (pump_done expired e) = context_end-Sends f expired
  meet-Sends f (context_done c) = context_end-Sends f c

  meet-after : (f : Feed) (m : Moment) → IsAfter m → (meet d stream_id send f m).1.frames ≡ f.frames
  unfolding meet
  meet-after f (frame_offered p) h = refl
  meet-after f (tick c) h = (meet-IsOver d stream_id send f (tick c) h).0
  meet-after f (pump_done c e) h = (meet-IsOver d stream_id send f (pump_done c e) h).0
  meet-after f (context_done c) h = (meet-IsOver d stream_id send f (context_done c) h).0

  Ending-cases : (e : Ending) → (e ≡ running) ⊎ ((x : Option ViewEnd) × (e ≡ returned x))
  Ending-cases running = inl refl
  Ending-cases (returned x) = inr (x, refl)

  -- After the end, the frames stay as they are.
  feed-after :
      (f : Feed) (after : List Moment)
      → All IsAfter after
      → (feed d stream_id send f after).1.frames ≡ f.frames
  feed-after f [] h = ap (λ t. t.1.frames) (feed-nil d stream_id send f)
  feed-after f (m ∷ after) h = elim (Ending-cases (meet d stream_id send f m).0) [
    | inl q ↦
        ap (λ t. t.1.frames) (feed-running d stream_id send f m after q)
        ∙ feed-after (meet d stream_id send f m).1 after h.1
        ∙ meet-after f m h.0
    | inr (x, q) ↦
        ap (λ t. t.1.frames) (feed-returned d stream_id send f m after x q) ∙ meet-after f m h.0
  ]

  turn-frames :
      (f : Feed) (m : Moment) (after : List Moment)
      → All IsAfter after
      → (feed d stream_id send f (m ∷ after)).1.frames ≡ (meet d stream_id send f m).1.frames
  turn-frames f m after h = elim (Ending-cases (meet d stream_id send f m).0) [
    | inl q ↦
        ap (λ t. t.1.frames) (feed-running d stream_id send f m after q)
        ∙ feed-after (meet d stream_id send f m).1 after h
    | inr (x, q) ↦ ap (λ t. t.1.frames) (feed-returned d stream_id send f m after x q)
  ]

  -- Of three runs, the first and the second have sent the same, at most a batch and one frame more
  -- than the third.
  abbrev Stops : Ending × Feed → Ending × Feed → Ending × Feed → Type 0
  Stops t u v = (t.1.frames ≡ u.1.frames) × Sends (batch + 1) v.1 t.1

  Stops-self : (t : Ending × Feed) → Stops t t t
  Stops-self t = (refl, omega arith)

  Stops-of : (t x u y v z : Ending × Feed) → t ≡ x → u ≡ y → v ≡ z → Stops x y z → Stops t u v
  Stops-of t x u y v z p q r s =
      subst (λ a. Stops a u v) (sym p)
        (subst (λ a. Stops x a v) (sym q) (subst (λ a. Stops x y a) (sym r) s))

  -- When the context ends during the handling of a moment, be it within its drain, so that every case
  -- that is taken after it sees the end, what is sent in all is what has been sent when that moment has
  -- been handled: at most a batch of the drain and one end frame more than before it. The code does
  -- not cut a drain short.
  pub feed-Stops :
      (f : Feed) (before : List Moment) (m : Moment) (after : List Moment)
      → All IsAfter after
      → ((feed d stream_id send f (before ++ (m ∷ after))).1.frames
          ≡ (feed d stream_id send f (before ++ (m ∷ []))).1.frames)
        × (length (feed d stream_id send f (before ++ (m ∷ after))).1.frames
            ≤ length (feed d stream_id send f before).1.frames + (pos_part d.drain_batch + 1))
  feed-Stops f [] m after h = (
    turn-frames f m after h ∙ sym (turn-frames f m [] tt),
    subst (λ fs. length fs ≤ length (feed d stream_id send f []).1.frames + (batch + 1))
        (sym (turn-frames f m after h))
        (subst (λ t. Sends (batch + 1) t.1 (meet d stream_id send f m).1)
          (sym (feed-nil d stream_id send f)) (meet-Sends f m)),
  )
  feed-Stops f (b ∷ before) m after h = elim (Ending-cases (meet d stream_id send f b).0) [
    | inl q ↦
        Stops-of _ _ _ _ _ _ (feed-running d stream_id send f b (before ++ (m ∷ after)) q)
          (feed-running d stream_id send f b (before ++ (m ∷ [])) q)
          (feed-running d stream_id send f b before q)
          (feed-Stops (meet d stream_id send f b).1 before m after h)
    | inr (x, q) ↦
        Stops-of _ _ _ _ _ _ (feed-returned d stream_id send f b (before ++ (m ∷ after)) x q)
          (feed-returned d stream_id send f b (before ++ (m ∷ [])) x q)
          (feed-returned d stream_id send f b before x q) (Stops-self (meet d stream_id send f b))
  ]
