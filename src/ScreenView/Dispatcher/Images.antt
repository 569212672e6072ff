-- ===== src/ScreenView/Dispatcher/Images.antt =====
-- The numbered image frames of a screen view, and how far a batch of them is sent.
use platform_agent.Prelude.{
  ℕ, ◌≡◌, refl, sym, ap, ◌∙◌, false, Option, none, some, List, [], ◌∷◌, ◌++◌, append_assoc,
  append-nil,
}
use platform_agent.Prelude.Int.{ℤ, pos, add64}
use platform_agent.Bytes.{Bytes}
use platform_agent.PtyExec.OutStream.{DataFrame, Send}
use platform_agent.ScreenView.Dispatcher.{Dispatcher, Feed, image_frame, took, send_all}

module _ (d : Dispatcher) (stream_id : Bytes) (send : Send) where
  -- Image frames with the given payloads, numbered from the given number on.
  abbrev pub images : ℤ → List Bytes → List DataFrame
  images seq [] = []
  images seq (p ∷ ps) = image_frame d stream_id send seq p false ∷ images (add64 seq (pos 1)) ps

  abbrev pub count : ℤ → List Bytes → ℤ
  count seq [] = seq
  count seq (p ∷ ps) = count (add64 seq (pos 1)) ps

  pub images-append :
      (seq : ℤ) (ps qs : List Bytes)
      → images seq (ps ++ qs) ≡ images seq ps ++ images (count seq ps) qs
  images-append seq [] qs = refl
  images-append seq (p ∷ ps) qs =
      ap (λ fs. image_frame d stream_id send seq p false ∷ fs)
        (images-append (add64 seq (pos 1)) ps qs)

  pub count-append : (seq : ℤ) (ps qs : List Bytes) → count seq (ps ++ qs) ≡ count (count seq ps) qs
  count-append seq [] qs = refl
  count-append seq (p ∷ ps) qs = count-append (add64 seq (pos 1)) ps qs

  -- How far a batch was sent.
  pub record IsSent (f : Feed) (ps : List Bytes) (g : Feed) : Type 0 where
    pub out : List Bytes
    pub left : List Bytes
    pub parts : ps ≡ out ++ left
    pub frames : g.frames ≡ f.frames ++ images f.seq out
    pub counts : g.seq ≡ count f.seq out
    pub same : g.session ≡ f.session

  IsSent-took :
      (f : Feed) (p : Bytes) (ps : List Bytes) (g : Feed)
      → IsSent (took d stream_id send f p) ps g
      → IsSent f (p ∷ ps) g
  IsSent-took f p ps g s = record {
    out = p ∷ s.out;
    left = s.left;
    parts = ap (λ qs. p ∷ qs) s.parts;
    frames = s.frames ∙ append_assoc f.frames _ (images (add64 f.seq (pos 1)) s.out);
    counts = s.counts;
    same = s.same;
  }

  pub send_all-IsSent :
      (f : Feed) (ps : List Bytes) → IsSent f ps (send_all d stream_id send f ps).1
  unfolding send_all
  send_all-IsSent f [] = record {
    out = [];
    left = [];
    parts = refl;
    frames = sym (append-nil f.frames);
    counts = refl;
    same = refl;
  }
  send_all-IsSent f (p ∷ ps) =
      by_send (send f.frames (image_frame d stream_id send f.seq p false)) refl
        (send_all-IsSent (took d stream_id send f p) ps)
    where
      by_send :
          (o : Option ℕ)
          → send f.frames (image_frame d stream_id send f.seq p false) ≡ o
          → IsSent
              (took d stream_id send f p)
              ps
              (send_all d stream_id send (took d stream_id send f p) ps).1
          → IsSent f (p ∷ ps) (send_all d stream_id send f (p ∷ ps)).1
      by_send none e rest = rw (e, send_all) (IsSent-took f p ps _ rest)
      by_send (some x) e rest =
          rw (e, send_all)
            (record {
              out = [];
              left = p ∷ ps;
              parts = refl;
              frames = sym (append-nil f.frames);
              counts = refl;
              same = refl;
            })
