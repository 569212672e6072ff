-- ===== src/ScreenView/Dispatcher/Whole.antt =====
-- A whole screen view: what it sends in all, and that nothing leaves once a case has seen its context
-- ended.
use platform_agent.Prelude.{
  ◌≡◌, ◌≢◌, inl, inr, refl, sym, ap, ◌∙◌, subst, Option, none, List, [], ◌∷◌, ◌++◌, append_assoc,
  append-nil,
}
use platform_agent.Prelude.Int.{pos}
use platform_agent.Bytes.{Bytes}
use platform_agent.DataPlane.ViewSession.Ordered.{
  Within, Within-self, Within-trans, Within-append, Within-front,
}
use platform_agent.PtyExec.OutStream.{DataFrame, Send}
use platform_agent.ScreenView.Dispatcher.{
  Dispatcher, living, cancelled, expired, ViewEnd, Moment, frame_offered, tick, pump_done,
  context_done, Feed, Ending, running, returned, shut, context_end, meet, feed, opened_session,
  stream,
}
use platform_agent.ScreenView.Dispatcher.Images.{images, count, images-append, count-append}
use platform_agent.ScreenView.Dispatcher.Fed.{offers, IsFed, meet-IsFed}

pub apart : {e : Option ViewEnd} → running ≢ returned e
apart h = cc

abbrev pub opened_feed : Dispatcher → Feed
opened_feed d = record { session = opened_session d; seq = pos 0; frames = [] }

-- The case of the select that the context's end is seen in.
abbrev pub IsOver : Moment → Type 0
IsOver (frame_offered p) = ⊥
IsOver (tick c) = c ≢ living
IsOver (pump_done c e) = c ≢ living
IsOver (context_done c) = Unit

module _ (d : Dispatcher) (stream_id : Bytes) (send : Send) where
  offers-cons : (m : Moment) (ms : List Moment) → offers (m ∷ ms) ≡ offers (m ∷ []) ++ offers ms
  offers-cons (frame_offered p) ms = refl
  offers-cons (tick c) ms = refl
  offers-cons (pump_done c e) ms = refl
  offers-cons (context_done c) ms = refl

  -- A turn that goes on, and then the rest.
  IsFed-append :
      (f g : Feed) (os qs : List Bytes) (t : Ending × Feed)
      → IsFed d stream_id send f os (running, g)
      → IsFed d stream_id send g qs t
      → IsFed d stream_id send f (os ++ qs) t
  IsFed-append f g os qs t a b = record {
    out = a.out ++ b.out;
    tail = b.tail;
    sends =
        b.sends
        ∙ ap (λ fs. fs ++ (images d stream_id send g.seq b.out ++ b.tail)) before
        ∙ ap (λ q. (f.frames ++ first) ++ (images d stream_id send q b.out ++ b.tail)) a.counts
        ∙ append_assoc f.frames first (second ++ b.tail)
        ∙ ap (λ fs. f.frames ++ fs) (sym (append_assoc first second b.tail))
        ∙ ap (λ fs. f.frames ++ (fs ++ b.tail))
            (sym (images-append d stream_id send f.seq a.out b.out));
    counts =
        b.counts
        ∙ ap (λ q. count d stream_id send q b.out) a.counts
        ∙ sym (count-append d stream_id send f.seq a.out b.out);
    within =
        subst (λ fs. Within fs (f.session.queue ++ (os ++ qs)))
          (sym (append_assoc a.out b.out t.1.session.queue))
          (Within-trans (Within-append (Within-self a.out) b.within) (
            subst (λ fs. Within fs (f.session.queue ++ (os ++ qs)))
              (append_assoc a.out g.session.queue qs)
              (subst (Within ((a.out ++ g.session.queue) ++ qs))
                (append_assoc f.session.queue os qs) (Within-append a.within (Within-self qs)))));
    ends = b.ends;
  }
    where
      no_tail : a.tail ≡ []
      no_tail = elim a.ends [ inl e ↦ e | inr (e, q) ↦ absurd (apart e) ]

      first : List DataFrame
      first = images d stream_id send f.seq a.out

      second : List DataFrame
      second = images d stream_id send (count d stream_id send f.seq a.out) b.out

      before : g.frames ≡ f.frames ++ first
      before =
          a.sends
          ∙ ap (λ fs. f.frames ++ (first ++ fs)) no_tail
          ∙ ap (λ fs. f.frames ++ fs) (append-nil first)

  IsFed-more :
      (f : Feed) (os qs : List Bytes) (t : Ending × Feed)
      → IsFed d stream_id send f os t
      → IsFed d stream_id send f (os ++ qs) t
  IsFed-more f os qs t a = record {
    out = a.out;
    tail = a.tail;
    sends = a.sends;
    counts = a.counts;
    within =
        Within-trans a.within (Within-append (Within-self f.session.queue) (Within-front os qs));
    ends = a.ends;
  }

  pub feed-nil : (f : Feed) → feed d stream_id send f [] ≡ (running, f)
  unfolding feed
  feed-nil f = refl

  pub feed-running :
      (f : Feed) (m : Moment) (ms : List Moment)
      → (meet d stream_id send f m).0 ≡ running
      → feed d stream_id send f (m ∷ ms) ≡ feed d stream_id send (meet d stream_id send f m).1 ms
  unfolding feed
  feed-running f m ms q = rw (q, feed) refl

  pub feed-returned :
      (f : Feed) (m : Moment) (ms : List Moment) (e : Option ViewEnd)
      → (meet d stream_id send f m).0 ≡ returned e
      → feed d stream_id send f (m ∷ ms) ≡ meet d stream_id send f m
  unfolding feed
  feed-returned f m ms e q =
      let paired : meet d stream_id send f m ≡ (returned e, (meet d stream_id send f m).1) =
        ap (λ x. (x, (meet d stream_id send f m).1)) q in
      rw (q, feed) refl ∙ sym paired

  feed-IsFed :
      (f : Feed) (ms : List Moment)
      → IsFed d stream_id send f (offers ms) (feed d stream_id send f ms)
  unfolding feed
  feed-IsFed f [] = record {
    out = [];
    tail = [];
    sends = sym (append-nil f.frames);
    counts = refl;
    within = Within-front f.session.queue [];
    ends = inl refl;
  }
  feed-IsFed f (m ∷ ms) =
      by_ending (meet d stream_id send f m).0 refl (meet-IsFed d stream_id send f m)
        (feed-IsFed (meet d stream_id send f m).1 ms)
    where
      by_ending :
          (e : Ending)
          → (meet d stream_id send f m).0 ≡ e
          → IsFed d stream_id send f (offers (m ∷ [])) (meet d stream_id send f m)
          → IsFed d stream_id send
              (meet d stream_id send f m).1
              (offers ms)
              (feed d stream_id send (meet d stream_id send f m).1 ms)
          → IsFed d stream_id send f (offers (m ∷ ms)) (feed d stream_id send f (m ∷ ms))
      by_ending running q now later =
          subst (λ os. IsFed d stream_id send f os (feed d stream_id send f (m ∷ ms)))
            (sym (offers-cons m ms))
            (subst (IsFed d stream_id send f (offers (m ∷ []) ++ offers ms))
              (sym (feed-running f m ms q))
              (IsFed-append f (meet d stream_id send f m).1 (offers (m ∷ [])) (offers ms) _
                (subst
                  (λ x.
                    IsFed d stream_id send f (offers (m ∷ [])) (x, (meet d stream_id send f m).1))
                  q now)
                later))
      by_ending (returned e) q now later =
          subst (λ os. IsFed d stream_id send f os (feed d stream_id send f (m ∷ ms)))
            (sym (offers-cons m ms))
            (subst (IsFed d stream_id send f (offers (m ∷ []) ++ offers ms))
              (sym (feed-returned f m ms e q))
              (IsFed-more f (offers (m ∷ [])) (offers ms) (meet d stream_id send f m) now))

  -- A screen view that has started sends image frames numbered from 0, whose payloads are frames that
  -- the producer offered, in the order of the offers, none twice and none made up; one end frame may
  -- follow, and only when the call returns with no error.
  pub stream-IsFed :
      (ms : List Moment)
      → IsFed d stream_id send (opened_feed d) (offers ms) (stream d stream_id send none ms)
  unfolding stream
  stream-IsFed ms = feed-IsFed (opened_feed d) ms

  pub meet-IsOver :
      (f : Feed) (m : Moment)
      → IsOver m
      → ((meet d stream_id send f m).1.frames ≡ f.frames)
        × ((meet d stream_id send f m).0 ≢ running)
  unfolding meet context_end shut
  meet-IsOver f (frame_offered p) h = absurd h
  meet-IsOver f (tick living) h = absurd (h refl)
  meet-IsOver f (tick cancelled) h = (refl, λ q. cc)
  meet-IsOver f (tick expired) h = (refl, λ q. cc)
  meet-IsOver f (pump_done living e) h = absurd (h refl)
  meet-IsOver f (pump_done cancelled e) h = (refl, λ q. cc)
  meet-IsOver f (pump_done expired e) h = (refl, λ q. cc)
  meet-IsOver f (context_done living) h = (refl, λ q. cc)
  meet-IsOver f (context_done cancelled) h = (refl, λ q. cc)
  meet-IsOver f (context_done expired) h = (refl, λ q. cc)

  -- When a case of the select sees that the context has ended, the call returns, and neither that case
  -- nor anything after it sends a frame, whatever the producer still offers.
  pub feed-IsOver :
      (f : Feed) (before : List Moment) (m : Moment) (after : List Moment)
      → IsOver m
      → ((feed d stream_id send f (before ++ (m ∷ after))).1.frames
          ≡ (feed d stream_id send f before).1.frames)
        × ((feed d stream_id send f (before ++ (m ∷ after))).0 ≢ running)
  feed-IsOver f [] m after h = by_ending (meet d stream_id send f m).0 refl (meet-IsOver f m h)
    where
      by_ending :
          (e : Ending)
          → (meet d stream_id send f m).0 ≡ e
          → ((meet d stream_id send f m).1.frames ≡ f.frames)
            × ((meet d stream_id send f m).0 ≢ running)
          → ((feed d stream_id send f (m ∷ after)).1.frames ≡ (feed d stream_id send f []).1.frames)
            × ((feed d stream_id send f (m ∷ after)).0 ≢ running)
      by_ending running q (kept, over) = absurd (over q)
      by_ending (returned e) q (kept, over) =
          subst (λ t. (t.1.frames ≡ (feed d stream_id send f []).1.frames) × (t.0 ≢ running))
            (sym (feed-returned f m after e q))
            (kept ∙ ap (λ t. t.1.frames) (sym (feed-nil f)), over)
  feed-IsOver f (b ∷ before) m after h =
      by_ending (meet d stream_id send f b).0 refl
        (feed-IsOver (meet d stream_id send f b).1 before m after h)
    where
      rest : List Moment
      rest = before ++ (m ∷ after)

      Over : Ending × Feed → Ending × Feed → Type 0
      Over t u = (t.1.frames ≡ u.1.frames) × (t.0 ≢ running)

      by_ending :
          (e : Ending)
          → (meet d stream_id send f b).0 ≡ e
          → Over
              (feed d stream_id send (meet d stream_id send f b).1 rest)
              (feed d stream_id send (meet d stream_id send f b).1 before)
          → Over (feed d stream_id send f (b ∷ rest)) (feed d stream_id send f (b ∷ before))
      by_ending running q later =
          subst (λ t. Over t (feed d stream_id send f (b ∷ before))) (sym (feed-running f b rest q))
            (subst (Over (feed d stream_id send (meet d stream_id send f b).1 rest))
              (sym (feed-running f b before q)) later)
      by_ending (returned e) q later =
          subst (λ t. Over t (feed d stream_id send f (b ∷ before)))
            (sym (feed-returned f b rest e q))
            (subst (Over (meet d stream_id send f b)) (sym (feed-returned f b before e q))
              (refl, λ r. apart (sym r ∙ q)))
