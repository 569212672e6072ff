-- ===== src/DataPlane/FrameCodec/Bounded.antt =====
-- The bounded encoder: it returns, within its budget, the largest candidate that fits.
use platform_agent.Prelude.{
  ℕ, zero, suc, ◌+◌, ◌*◌, ◌/◌, ◌^◌, ◌≤◌, ◌<◌, ◌≡◌, ◌⊎◌, inl, inr, refl, sym, ◌∙◌, subst, Bool, true,
  false, some, arith, Result, err, ok,
}
use native.Mathlib.Nat.{pow-succ'}
use platform_agent.Prelude.Int.{pos, leb_ℤ}
use platform_agent.Bytes.{Bytes}
use platform_agent.DataPlane.FrameCodec.Valid.{
  IsShaped, IsFrame, validate_raw_frame-IsFrame, half_scale_raw_frame-IsFrame,
}
use platform_agent.DataPlane.FrameCodec.Readable.{
  Keeps, is_readable-IsFrame, encode_candidate-Encodes,
}
use platform_agent.DataPlane.FrameCodec.{
  png_encode, RawFrame, CodecError, frame_payload_budget, half_scale_raw_frame, BoundedPngEncoder,
  encode_candidate, fits, is_single, after_payload, encode_from, encode,
}

half_of_power : (k n : ℕ) → n ≤ 2 ^ suc k → (n + 1) / 2 ≤ 2 ^ k
half_of_power k n h = half_bound n (2 ^ k) (subst (λ p. n ≤ p) (pow-succ' 2 k) h)
  where
    half_bound : (a b : ℕ) → a ≤ 2 * b → (a + 1) / 2 ≤ b
    half_bound a b q = omega arith

-- The frame after so many halvings.
abbrev pub candidate : RawFrame → ℕ → RawFrame
candidate f zero = f
candidate f (suc j) = candidate (half_scale_raw_frame f) j

module _ (e : BoundedPngEncoder) where
  -- The candidate encodes, over the budget.
  abbrev pub IsOver : RawFrame → Type 0
  IsOver f = (payload : Bytes) × (encode_candidate e f ≡ ok payload) × (fits e payload ≡ false)

  -- The payload of a candidate, within the budget, where every larger one is over it.
  pub record IsLargest (f : RawFrame) (payload : Bytes) : Type 0 where
    pub index : ℕ
    pub larger : (i : ℕ) → i < index → IsOver (candidate f i)
    pub made : encode_candidate e (candidate f index) ≡ ok payload
    pub within : fits e payload ≡ true

  -- Every larger candidate is over the budget, and this one is refused by the PNG encoder, or is over too
  -- and is a single pixel.
  pub record IsRefused (f : RawFrame) (x : CodecError) : Type 0 where
    pub index : ℕ
    pub larger : (i : ℕ) → i < index → IsOver (candidate f i)
    pub why :
        ((n : ℕ) × (x ≡ png_encode n) × (encode_candidate e (candidate f index) ≡ err x))
        ⊎ ((x ≡ frame_payload_budget)
            × (is_single e (candidate f index) ≡ true)
            × IsOver (candidate f index))

  abbrev pub Outcome : RawFrame → Result CodecError Bytes → Type 0
  Outcome f (ok payload) = IsLargest f payload
  Outcome f (err x) = IsRefused f x

  none_before : (f : RawFrame) (i : ℕ) → i < 0 → IsOver (candidate f i)
  none_before f i h = absurd (omega arith)

  one_before :
      (f : RawFrame) (j : ℕ)
      → IsOver f
      → ((i : ℕ) → i < j → IsOver (candidate (half_scale_raw_frame f) i))
      → (i : ℕ) → i < suc j
      → IsOver (candidate f i)
  one_before f j over before zero h = over
  one_before f j over before (suc i) h = before i (omega arith)

  Outcome-half :
      (f : RawFrame) (r : Result CodecError Bytes)
      → IsOver f
      → Outcome (half_scale_raw_frame f) r
      → Outcome f r
  Outcome-half f (ok payload) over o = record {
    index = suc o.index;
    larger = one_before f o.index over o.larger;
    made = o.made;
    within = o.within;
  }
  Outcome-half f (err x) over o = record {
    index = suc o.index;
    larger = one_before f o.index over o.larger;
    why = o.why;
  }

  single : (f : RawFrame) (w h : ℕ) → IsShaped f w h → w ≤ 1 → h ≤ 1 → is_single e f ≡ true
  single f w h s a b =
      rw (s.width_is, s.height_is) (let wide = s.wide in let tall = s.tall in ground arith)

  Ends : ℕ → RawFrame → Type 0
  Ends fuel f = (r : Result CodecError Bytes) × (encode_from e fuel f ≡ some r) × Outcome f r

  turn-Ends :
      (fuel : ℕ) (f : RawFrame) (w h st : ℕ)
      → IsFrame f w h st
      → Keeps e
      → (is_single e f ≡ false → Ends fuel (half_scale_raw_frame f))
      → Ends (suc fuel) f
  unfolding Ends encode_from after_payload
  turn-Ends fuel f w h st c keeps smaller = elim (encode_candidate-Encodes e keeps f w h st c) [
    | inl (payload, q) ↦ by_tests payload (fits e payload) (is_single e f) q refl refl
    | inr (n, q) ↦ (
      err (png_encode n),
      rw (q, encode_from) refl,
      record { index = 0; larger = none_before f; why = inl (n, refl, q) },
    )
  ]
    where
      by_tests :
          (payload : Bytes) (b c : Bool)
          → encode_candidate e f ≡ ok payload
          → fits e payload ≡ b
          → is_single e f ≡ c
          → Ends (suc fuel) f
      by_tests payload true one q t u = (
        ok payload,
        rw (q, encode_from, after_payload, t) refl,
        record { index = 0; larger = none_before f; made = q; within = t },
      )
      by_tests payload false true q t u = (
        err frame_payload_budget,
        rw (q, encode_from, after_payload, t, u) refl,
        record { index = 0; larger = none_before f; why = inr (refl, u, (payload, q, t)) },
      )
      by_tests payload false false q t u =
          let (r, more, o) = smaller u in
          (
            r,
            rw (q, encode_from, after_payload, t, u, is_readable-IsFrame f w h st c) more,
            Outcome-half f r (payload, q, t) o,
          )

  encode_from-Ends :
      (k : ℕ) (f : RawFrame) (w h st : ℕ)
      → IsFrame f w h st
      → Keeps e
      → w ≤ 2 ^ k
      → h ≤ 2 ^ k
      → Ends (suc k) f
  encode_from-Ends zero f w h st c keeps a b = turn-Ends 0 f w h st c keeps (λ more.
      let one = single f w h c.shaped (omega (arith, a)) (omega (arith, b)) in
      let never = sym one ∙ more in cc)
  encode_from-Ends (suc k) f w h st c keeps a b = turn-Ends (suc k) f w h st c keeps (λ more.
      encode_from-Ends k (half_scale_raw_frame f) _ _ _ (half_scale_raw_frame-IsFrame f w h st c)
        keeps (half_of_power k w a) (half_of_power k h b))

  -- On a frame with all of its rows and pixels, in exact arithmetic, with a positive budget, and with
  -- processors that leave such a frame one of the same measures, the encoder returns after at most
  -- 64 turns of its loop, with no read behind the pixels. It returns a payload within the budget, of the
  -- frame halved some number of times, where every less halved frame is over the budget; or an error,
  -- when the PNG encoder refuses the next frame, or when the frame has been halved down to one pixel
  -- and that is over the budget too.
  pub encode-Outcome :
      (f : RawFrame) (w h st : ℕ)
      → IsFrame f w h st
      → Keeps e
      → leb_ℤ e.max_payload_bytes (pos 0) ≡ false
      → (r : Result CodecError Bytes) × (encode e f ≡ some r) × Outcome f r
  unfolding encode Ends
  encode-Outcome f w h st c keeps q =
      let (r, ends, o) =
        encode_from-Ends 63 f w h st c keeps (omega (arith, c.shaped.narrow))
          (omega (arith, c.shaped.low)) in
      (r, rw (q, validate_raw_frame-IsFrame f w h st c, encode) ends, o)
