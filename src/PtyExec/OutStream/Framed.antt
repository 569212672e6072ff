-- ===== src/PtyExec/OutStream/Framed.antt =====
-- The frames of a stream: their order, their sizes and the bytes they carry.
pub mod Whole
use platform_agent.Prelude.{
  ℕ, zero, suc, ◌+◌, ◌*◌, ◌-◌, ◌^◌, ◌≤◌, ◌<◌, ◌≡◌, ◌⊎◌, inl, inr, refl, sym, ap, ◌∙◌, subst, Bool,
  true, false, Option, none, some, List, [], ◌∷◌, ◌++◌, length, take, drop, All, arith,
  append_assoc, append-nil, length-take, length-drop, if◌then◌else◌, ltb, Bool-cases,
}
use platform_agent.Prelude.Int.{ℤ, pos, add64, add64_pos}
use native.Mathlib.Numerals.{unary_clauses}
use platform_agent.Bytes.{Bytes}
use platform_agent.PtyExec.OutStream.{
  DataFrame, OutputStreamer, Sent, StreamError, Written, send_failed, frame_of, advance_seq,
  after_send, write_loop, write,
}

abbrev pub payloads : List DataFrame → Bytes
payloads [] = []
payloads (f ∷ fs) = f.payload ++ payloads fs

-- Consecutive numbers from `k`.
abbrev pub Numbered : ℕ → List DataFrame → Type 0
Numbered k [] = Unit
Numbered k (f ∷ fs) = (f.frame_seq ≡ pos k) × Numbered (suc k) fs

-- A frame of the stream's output: some bytes, at most a chunk, and not the last frame.
pub record IsData (s : OutputStreamer) (f : DataFrame) : Type 0 where
  pub stream_id : f.stream_id ≡ s.stream_id
  pub content_type : f.content_type ≡ s.content_type
  pub nonempty : 0 < length f.payload
  pub sized : length f.payload ≤ s.chunk
  pub more : f.end_stream ≡ false

-- What a write of `p` does from number `k`: it sends frames that carry the first bytes of `p`, all
-- of them if it reports no error, and reports how many.
pub record Cut (t : Sent) (p : Bytes) (k written : ℕ) (r : Written) : Type 0 where
  pub sent : List DataFrame
  pub count : ℕ
  pub frames : r.1.frames ≡ t.frames ++ sent
  pub numbered : Numbered k sent
  pub carried : payloads sent ≡ take count p
  pub reported : r.0.0 ≡ written + count
  pub complete : r.0.1 ≡ none → count ≡ length p
  pub framed : All (IsData t.streamer) sent
  pub streamer : r.1.streamer ≡ record t.streamer { seq = pos (k + length sent) }

take-add : (m n : ℕ) (p : Bytes) → take m p ++ take n (drop m p) ≡ take (m + n) p
take-add zero n p = ap (λ m. take m p) (omega arith)
take-add (suc m) zero [] = simp unary_clauses refl
take-add (suc m) (suc n) [] = simp unary_clauses refl
take-add (suc m) n (b ∷ p) =
    ap (λ q. b ∷ q) (take-add m n p)
    ∙ ap (λ j. take j (b ∷ p)) (let e : suc (m + n) ≡ suc m + n = omega arith in e)

-- A loop that sends nothing.
still :
    (t : Sent) (p : Bytes) (k written : ℕ) (e : Option StreamError)
    → t.streamer.seq ≡ pos k
    → (e ≡ none → 0 ≡ length p)
    → Cut t p k written ((written, e), t)
still t p k written e s h = record {
  sent = [];
  count = 0;
  frames = sym (append-nil t.frames);
  numbered = tt;
  carried = refl;
  reported = omega arith;
  complete = h;
  framed = tt;
  streamer = ground (arith, s);
}

-- The number of the next frame does not matter to the output.
IsData-seq :
    (s : OutputStreamer) (v : ℤ) (fs : List DataFrame)
    → All (IsData (record s { seq = v })) fs
    → All (IsData s) fs
IsData-seq s v [] h = tt
IsData-seq s v (f ∷ fs) (h, hs) = (
  record {
    stream_id = h.stream_id;
    content_type = h.content_type;
    nonempty = h.nonempty;
    sized = h.sized;
    more = h.more;
  },
  IsData-seq s v fs hs,
)

-- One turn in front of the rest.
turn :
    (t : Sent) (p : Bytes) (k written n : ℕ) (o : Option ℕ) (rest : Written)
    → t.streamer.seq ≡ pos k
    → 0 < n
    → n ≤ t.streamer.chunk
    → n ≤ length p
    → Cut
        (record {
          streamer = advance_seq t.streamer;
          frames = t.frames ++ (frame_of t.streamer (take n p) false ∷ []);
        })
        (drop n p)
        (suc k)
        (written + n)
        rest
    → Cut t p k written (after_send o written t rest)
unfolding after_send frame_of
turn t p k written n (some e) rest s a b c ih =
    still t p k written (some (send_failed e)) s (λ q. cc)
turn t p k written n none rest s a b c ih = record {
  sent = frame_of t.streamer (take n p) false ∷ ih.sent;
  count = n + ih.count;
  frames = ih.frames ∙ append_assoc t.frames (frame_of t.streamer (take n p) false ∷ []) ih.sent;
  numbered = (s, ih.numbered);
  carried = ap (λ q. take n p ++ q) ih.carried ∙ take-add n ih.count p;
  reported = omega (arith, ih.reported);
  complete = λ q. omega (arith, ih.complete q, length-drop n p, c);
  framed = (
    record {
      stream_id = refl;
      content_type = refl;
      nonempty = omega (arith, length-take n p, a, c);
      sized = omega (arith, length-take n p, b);
      more = refl;
    },
    IsData-seq t.streamer _ ih.sent ih.framed,
  );
  streamer = ih.streamer ∙ ap (λ j. record t.streamer { seq = pos j }) (omega arith);
}

next_seq :
    (t : Sent) (k : ℕ)
    → t.streamer.seq ≡ pos k
    → k + 1 < 2 ^ 63
    → advance_seq t.streamer ≡ record t.streamer { seq = pos (suc k) }
next_seq t k s h =
    ap (λ v. record t.streamer { seq = v })
      (ap (λ v. add64 v (pos 1)) s ∙ add64_pos k 1 h ∙ ap pos (omega arith))

clip :
    (c l : ℕ)
    → 0 < c
    → 0 < l
    → (0 < (if ltb c l then c else l))
      × ((if ltb c l then c else l) ≤ c)
      × ((if ltb c l then c else l) ≤ l)
clip c l h k = (ground arith, ground arith, ground arith)

write_loop-Cut :
    (fuel : ℕ) (p : Bytes) (written : ℕ) (t : Sent) (k : ℕ)
    → length p ≤ fuel
    → 0 < t.streamer.chunk
    → t.streamer.seq ≡ pos k
    → k + length p < 2 ^ 63
    → Cut t p k written (write_loop fuel p written t)
unfolding write_loop
write_loop-Cut zero [] written t k l c s h = still t [] k written none s (λ q. refl)
write_loop-Cut zero (b ∷ p) written t k l c s h = absurd (omega arith)
write_loop-Cut (suc fuel) [] written t k l c s h = still t [] k written none s (λ q. refl)
write_loop-Cut (suc fuel) (b ∷ p) written t k l c s h =
    let n = if ltb t.streamer.chunk (length (b ∷ p)) then t.streamer.chunk else length (b ∷ p) in
    let (low, chunked, whole) = clip t.streamer.chunk (length (b ∷ p)) c (omega arith) in
    let ih =
      write_loop-Cut fuel (drop n (b ∷ p)) (written + n)
        (record {
          streamer = advance_seq t.streamer;
          frames = t.frames ++ (frame_of t.streamer (take n (b ∷ p)) false ∷ []);
        })
        (suc k) (omega (arith, length-drop n (b ∷ p), l, low)) c
        (ap (λ u. u.seq) (next_seq t k s (omega (arith, h))))
        (omega (arith, length-drop n (b ∷ p), h, low)) in
    turn t (b ∷ p) k written n _ _ s low chunked whole ih

-- An open streamer with room for the numbers sends frames that carry the first bytes of `p` in
-- order, each non-empty and at most a chunk, numbered on from its number, and the count that it
-- reports is that of the bytes carried: all of `p` unless it reports an error.
pub write-Cut :
    (t : Sent) (p : Bytes) (k : ℕ)
    → t.streamer.closed ≡ false
    → 0 < t.streamer.chunk
    → t.streamer.seq ≡ pos k
    → k + length p < 2 ^ 63
    → Cut t p k 0 (write t p)
unfolding write
write-Cut t p k o c s h = simp o (write_loop-Cut (length p) p 0 t k (omega arith) c s h)
