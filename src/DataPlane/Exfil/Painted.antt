-- ===== src/DataPlane/Exfil/Painted.antt =====
-- Which bytes a rectangle of a colour changes.
use platform_agent.Prelude.{
  ℕ, zero, suc, ◌+◌, ◌*◌, ◌≤◌, ◌<◌, ◌≡◌, ◌≢◌, ◌⊎◌, inl, refl, ap, ◌∙◌, [], ◌∷◌, length, get_or,
  arith,
}
use platform_agent.Bytes.{Bytes}
use platform_agent.DataPlane.Exfil.{Colour, set, put_pixel, paint_row, paint_rows}

get-set_at : (p : Bytes) (i j v : ℕ) → i ≡ j → j < length p → get_or (set p i v) j 0 ≡ v
get-set_at [] i j v e h = absurd (omega arith)
get-set_at (x ∷ p) zero zero v e h = refl
get-set_at (x ∷ p) zero (suc j) v e h = absurd (omega (arith, e))
get-set_at (x ∷ p) (suc i) zero v e h = absurd (omega (arith, e))
get-set_at (x ∷ p) (suc i) (suc j) v e h = get-set_at p i j v (omega (arith, e)) (omega (arith, h))

get-set_other : (p : Bytes) (i j v : ℕ) → i ≢ j → get_or (set p i v) j 0 ≡ get_or p j 0
get-set_other [] i j v h = refl
get-set_other (x ∷ p) zero zero v h = absurd (h refl)
get-set_other (x ∷ p) zero (suc j) v h = refl
get-set_other (x ∷ p) (suc i) zero v h = refl
get-set_other (x ∷ p) (suc i) (suc j) v h = get-set_other p i j v (λ e. h (ap suc e))

length-set : (p : Bytes) (i v : ℕ) → length (set p i v) ≡ length p
length-set [] i v = refl
length-set (x ∷ p) zero v = refl
length-set (x ∷ p) (suc i) v = ap suc (length-set p i v)

-- The byte of a colour at a place of a pixel.
abbrev pub channel : Colour → ℕ → ℕ
channel c zero = c.blue
channel c (suc zero) = c.green
channel c (suc (suc zero)) = c.red
channel c (suc (suc (suc k))) = c.alpha

module _ (c : Colour) where
  length-put_pixel : (p : Bytes) (at : ℕ) → length (put_pixel p c at) ≡ length p
  unfolding put_pixel
  length-put_pixel p at =
      length-set _ (at + 3) c.alpha
      ∙ length-set _ (at + 2) c.red
      ∙ length-set _ (at + 1) c.green
      ∙ length-set p at c.blue

  put_pixel-other :
      (p : Bytes) (at j : ℕ)
      → (j < at) ⊎ (at + 4 ≤ j)
      → get_or (put_pixel p c at) j 0 ≡ get_or p j 0
  unfolding put_pixel
  put_pixel-other p at j h =
      get-set_other _ (at + 3) j c.alpha (λ e. omega (arith, h, e))
      ∙ get-set_other _ (at + 2) j c.red (λ e. omega (arith, h, e))
      ∙ get-set_other _ (at + 1) j c.green (λ e. omega (arith, h, e))
      ∙ get-set_other p at j c.blue (λ e. omega (arith, h, e))

  put_pixel-same :
      (p : Bytes) (at k j : ℕ)
      → j ≡ at + k
      → k < 4
      → at + 4 ≤ length p
      → get_or (put_pixel p c at) j 0 ≡ channel c k
  unfolding put_pixel
  put_pixel-same p at zero j e h room =
      get-set_other _ (at + 3) j c.alpha (λ q. omega (arith, e, q))
      ∙ get-set_other _ (at + 2) j c.red (λ q. omega (arith, e, q))
      ∙ get-set_other _ (at + 1) j c.green (λ q. omega (arith, e, q))
      ∙ get-set_at p at j c.blue (omega (arith, e)) (omega (arith, e, room))
  put_pixel-same p at (suc zero) j e h room =
      get-set_other _ (at + 3) j c.alpha (λ q. omega (arith, e, q))
      ∙ get-set_other _ (at + 2) j c.red (λ q. omega (arith, e, q))
      ∙ get-set_at _ (at + 1) j c.green (omega (arith, e))
          (omega (arith, e, room, length-set p at c.blue))
  put_pixel-same p at (suc (suc zero)) j e h room =
      get-set_other _ (at + 3) j c.alpha (λ q. omega (arith, e, q))
      ∙ get-set_at _ (at + 2) j c.red (omega (arith, e)) (
          omega
            (arith, e, room, length-set p at c.blue, length-set (set p at c.blue) (at + 1) c.green))
  put_pixel-same p at (suc (suc (suc zero))) j e h room =
      get-set_at _ (at + 3) j c.alpha (omega (arith, e)) (
        omega (
          arith,
          e,
          room,
          length-set p at c.blue,
          length-set (set p at c.blue) (at + 1) c.green,
          length-set (set (set p at c.blue) (at + 1) c.green) (at + 2) c.red,
        ))
  put_pixel-same p at (suc (suc (suc (suc k)))) j e h room = absurd (omega (arith, h))

  paint_row-other :
      (p : Bytes) (at n j : ℕ)
      → (j < at) ⊎ (at + n * 4 ≤ j)
      → get_or (paint_row p c at n) j 0 ≡ get_or p j 0
  unfolding paint_row
  paint_row-other p at zero j h = refl
  paint_row-other p at (suc n) j h =
      paint_row-other (put_pixel p c at) (at + 4) n j (omega (arith, h))
      ∙ put_pixel-other p at j (omega (arith, h))

  length-paint_row : (p : Bytes) (at n : ℕ) → length (paint_row p c at n) ≡ length p
  unfolding paint_row
  length-paint_row p at zero = refl
  length-paint_row p at (suc n) =
      length-paint_row (put_pixel p c at) (at + 4) n ∙ length-put_pixel p at

  paint_row-same :
      (p : Bytes) (at n i k j : ℕ)
      → j ≡ at + i * 4 + k
      → i < n
      → k < 4
      → at + n * 4 ≤ length p
      → get_or (paint_row p c at n) j 0 ≡ channel c k
  unfolding paint_row
  paint_row-same p at zero i k j e h l room = absurd (omega (arith, h))
  paint_row-same p at (suc n) zero k j e h l room =
      paint_row-other (put_pixel p c at) (at + 4) n j (inl (omega (arith, e, l)))
      ∙ put_pixel-same p at k j (omega (arith, e)) l (omega (arith, room))
  paint_row-same p at (suc n) (suc i) k j e h l room =
      paint_row-same (put_pixel p c at) (at + 4) n i k j (omega (arith, e)) (omega (arith, h)) l
        (omega (arith, room, length-put_pixel p at))

  module _ (st : ℕ) where
    pub paint_rows-other :
        (p : Bytes) (at n m j : ℕ)
        → ((r : ℕ) → r < m → (j < at + r * st) ⊎ (at + r * st + n * 4 ≤ j))
        → get_or (paint_rows p c st at n m) j 0 ≡ get_or p j 0
    unfolding paint_rows
    paint_rows-other p at n zero j h = refl
    paint_rows-other p at n (suc m) j h =
        paint_rows-other (paint_row p c at n) (at + st) n m j
          (λ r l. omega (arith, h (suc r) (omega (arith, l))))
        ∙ paint_row-other p at n j (omega (arith, h 0 (omega arith)))

    pub paint_rows-same :
        (p : Bytes) (at n m r i k j : ℕ)
        → j ≡ at + r * st + i * 4 + k
        → r < m
        → i < n
        → k < 4
        → n * 4 ≤ st
        → at + r * st + n * 4 ≤ length p
        → get_or (paint_rows p c st at n m) j 0 ≡ channel c k
    unfolding paint_rows
    paint_rows-same p at n zero r i k j e q h l pad room = absurd (omega (arith, q))
    paint_rows-same p at n (suc m) zero i k j e q h l pad room =
        paint_rows-other (paint_row p c at n) (at + st) n m j
          (λ r s. inl (omega (arith, e, h, l, pad)))
        ∙ paint_row-same p at n i k j (omega (arith, e)) h l (omega (arith, room))
    paint_rows-same p at n (suc m) (suc r) i k j e q h l pad room =
        paint_rows-same (paint_row p c at n) (at + st) n m r i k j (omega (arith, e))
          (omega (arith, q)) h l pad (omega (arith, room, length-paint_row p at n))
