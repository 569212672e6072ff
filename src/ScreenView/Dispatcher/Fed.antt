-- ===== src/ScreenView/Dispatcher/Fed.antt =====
-- What a screen view sends, against what its producer offered.
use platform_agent.Prelude.{
  ℕ, ◌≡◌, ◌⊎◌, inl, inr, refl, sym, ap, ◌∙◌, subst, true, Option, none, some, List, [], ◌∷◌, ◌++◌,
  append_assoc, append-nil,
}
use platform_agent.Bytes.{Bytes}
use platform_agent.DataPlane.ViewSession.{ViewSession, abort, drain, offer}
use platform_agent.DataPlane.ViewSession.Ordered.{
  Within, Within-trans, Within-append, Within-front, offer-Within, drain-Within, abort-Within,
}
use platform_agent.PtyExec.OutStream.{DataFrame, Send}
use platform_agent.ScreenView.Dispatcher.Images.{images, count, IsSent, send_all-IsSent}
use platform_agent.ScreenView.Dispatcher.{
  Dispatcher, Context, living, cancelled, expired, ViewEnd, Moment, frame_offered, tick, pump_done,
  context_done, source_failed, permit_expired, Feed, Ending, running, returned, Drained,
  image_frame, drain_feed, shut, context_end, after_tick, end_stream, after_pump, meet,
}

-- The frames that the producer offered.
abbrev pub offers : List Moment → List Bytes
offers [] = []
offers (frame_offered payload ∷ moments) = payload ∷ offers moments
offers (_ ∷ moments) = offers moments

module _ (d : Dispatcher) (stream_id : Bytes) (send : Send) where
  abbrev pub last_frame : Feed → DataFrame
  last_frame f = image_frame d stream_id send f.seq [] true

  abbrev finished : Feed → Feed
  finished f = record f { frames = f.frames ++ (last_frame f ∷ []) }

  end_stream-cases :
      (f : Feed)
      → (end_stream d stream_id send f ≡ f) ⊎ (end_stream d stream_id send f ≡ finished f)
  unfolding end_stream
  end_stream-cases f = by_send (send f.frames (last_frame f)) refl
    where
      by_send :
          (o : Option ℕ)
          → send f.frames (last_frame f) ≡ o
          → (end_stream d stream_id send f ≡ f) ⊎ (end_stream d stream_id send f ≡ finished f)
      by_send none e = inr (rw (e, end_stream) refl)
      by_send (some x) e = inl (rw (e, end_stream) refl)

  -- What a turn of the loop has sent of the waiting frames and of those offered meanwhile.
  pub record IsFed (f : Feed) (os : List Bytes) (t : Ending × Feed) : Type 0 where
    pub out : List Bytes
    pub tail : List DataFrame
    pub sends : t.1.frames ≡ f.frames ++ (images d stream_id send f.seq out ++ tail)
    pub counts : t.1.seq ≡ count d stream_id send f.seq out
    pub within : Within (out ++ t.1.session.queue) (f.session.queue ++ os)
    pub ends : (tail ≡ []) ⊎ ((t.0 ≡ returned none) × (tail ≡ last_frame t.1 ∷ []))

  silent : (frames : List DataFrame) → frames ≡ frames ++ ([] ++ [])
  silent frames = sym (append-nil frames)

  -- A turn that only changes the gate.
  gate-IsFed :
      (f : Feed) (e : Ending) (s : ViewSession) (os : List Bytes)
      → Within s.queue (f.session.queue ++ os)
      → IsFed f os (e, record f { session = s })
  gate-IsFed f e s os w = record {
    out = [];
    tail = [];
    sends = silent f.frames;
    counts = refl;
    within = w;
    ends = inl refl;
  }

  drained-Within :
      (f g : Feed) (s : ViewSession) (ps : List Bytes)
      (sent : IsSent d stream_id send (record f { session = s }) ps g)
      → Within (ps ++ s.queue) (f.session.queue ++ [])
      → (left : ViewSession) → Within left.queue (g.session.queue ++ [])
      → Within (sent.out ++ left.queue) (f.session.queue ++ [])
  drained-Within f g s ps sent w left kept =
      Within-trans (Within-append (Within-front sent.out sent.left) waits) whole
    where
      waits : Within left.queue s.queue
      waits =
          subst (Within left.queue) (append-nil s.queue)
            (subst (λ q. Within left.queue (q.queue ++ [])) sent.same kept)

      whole : Within ((sent.out ++ sent.left) ++ s.queue) (f.session.queue ++ [])
      whole = subst (λ qs. Within (qs ++ s.queue) (f.session.queue ++ [])) sent.parts w

  -- A batch was sent, and the turn goes on as given.
  drained-IsFed :
      (f : Feed) (e : Ending) (g : Feed) (s : ViewSession) (ps : List Bytes)
      → IsSent d stream_id send (record f { session = s }) ps g
      → Within (ps ++ s.queue) (f.session.queue ++ [])
      → (left : ViewSession) → Within left.queue (g.session.queue ++ [])
      → IsFed f [] (e, record g { session = left })
  drained-IsFed f e g s ps sent w left kept = record {
    out = sent.out;
    tail = [];
    sends = sent.frames ∙ ap (λ fs. f.frames ++ fs) (sym (append-nil _));
    counts = sent.counts;
    within = drained-Within f g s ps sent w left kept;
    ends = inl refl;
  }

  module _ (f : Feed) (s : ViewSession) (ps : List Bytes)
      (w : Within (ps ++ s.queue) (f.session.queue ++ [])) where
    after_tick-IsFed :
        (r : Drained)
        → IsSent d stream_id send (record f { session = s }) ps r.1
        → IsFed f [] (after_tick d stream_id send r)
    unfolding after_tick shut
    after_tick-IsFed (some e, g) sent =
        drained-IsFed f _ g s ps sent w (abort g.session) (abort-Within g.session)
    after_tick-IsFed (none, g) sent =
        drained-IsFed f _ g s ps sent w g.session (Within-front g.session.queue [])

    after_pump-IsFed :
        (r : Drained)
        → IsSent d stream_id send (record f { session = s }) ps r.1
        → IsFed f [] (after_pump d stream_id send r)
    unfolding after_pump shut
    after_pump-IsFed (some e, g) sent =
        drained-IsFed f _ g s ps sent w (abort g.session) (abort-Within g.session)
    after_pump-IsFed (none, g) sent = by_last (end_stream-cases g)
      where
        fed : IsFed f [] (returned none, g)
        fed =
            drained-IsFed f (returned none) g s ps sent w g.session
              (Within-front g.session.queue [])

        by_last :
            ((end_stream d stream_id send g ≡ g) ⊎ (end_stream d stream_id send g ≡ finished g))
            → IsFed f [] (returned none, end_stream d stream_id send g)
        by_last (inl e) = subst (λ x. IsFed f [] (returned none, x)) (sym e) fed
        by_last (inr e) =
            subst (λ x. IsFed f [] (returned none, x)) (sym e)
              (record {
                out = sent.out;
                tail = last_frame g ∷ [];
                sends =
                    ap (λ fs. fs ++ (last_frame g ∷ [])) sent.frames
                    ∙ append_assoc f.frames (images d stream_id send f.seq sent.out)
                        (last_frame g ∷ []);
                counts = sent.counts;
                within = drained-Within f g s ps sent w g.session (Within-front g.session.queue []);
                ends = inr (refl, refl);
              })

  shut-IsFed : (f : Feed) (e : Option ViewEnd) → IsFed f [] (shut d stream_id send e f)
  unfolding shut
  shut-IsFed f e = gate-IsFed f (returned e) (abort f.session) [] (abort-Within f.session)

  context_end-IsFed : (f : Feed) (c : Context) → IsFed f [] (context_end d stream_id send c f)
  unfolding context_end
  context_end-IsFed f living = shut-IsFed f none
  context_end-IsFed f cancelled = shut-IsFed f none
  context_end-IsFed f expired = shut-IsFed f (some permit_expired)

  pub meet-IsFed : (f : Feed) (m : Moment) → IsFed f (offers (m ∷ [])) (meet d stream_id send f m)
  unfolding meet drain_feed
  meet-IsFed f (frame_offered p) =
      gate-IsFed f running (offer f.session p).1 (p ∷ []) (offer-Within f.session p)
  meet-IsFed f (tick living) =
      after_tick-IsFed f (drain f.session d.drain_batch).1 (drain f.session d.drain_batch).0
        (drain-Within f.session d.drain_batch) (drain_feed d stream_id send f)
        (send_all-IsSent d stream_id send _ _)
  meet-IsFed f (tick cancelled) = context_end-IsFed f cancelled
  meet-IsFed f (tick expired) = context_end-IsFed f expired
  meet-IsFed f (pump_done living (some e)) = shut-IsFed f (some (source_failed e))
  meet-IsFed f (pump_done living none) =
      after_pump-IsFed f (drain f.session d.drain_batch).1 (drain f.session d.drain_batch).0
        (drain-Within f.session d.drain_batch) (drain_feed d stream_id send f)
        (send_all-IsSent d stream_id send _ _)
  meet-IsFed f (pump_done cancelled e) = context_end-IsFed f cancelled
  meet-IsFed f (pump_done expired e) = context_end-IsFed f expired
  meet-IsFed f (context_done c) = context_end-IsFed f c
