-- ===== src/Bytes/Text/Trim.antt =====
-- What trimming leaves alone.
use platform_agent.Prelude.{ℕ, ◌≡◌, Bool, false, List, [], ◌∷◌}
use platform_agent.Bytes.Text.{trim, trim_right}

module _ (cut : ℕ → Bool) where
  -- A text that ends in a byte that is kept.
  pub data EndsKept : List ℕ → Type 0 where
    last : (c : ℕ) → cut c ≡ false → EndsKept (c ∷ [])
    more : (c d : ℕ) (s : List ℕ) → EndsKept (d ∷ s) → EndsKept (c ∷ d ∷ s)

  trim_right_of_EndsKept : (s : List ℕ) → EndsKept s → trim_right cut s ≡ s
  unfolding trim_right
  trim_right_of_EndsKept s (last c h) = rw h
  trim_right_of_EndsKept s (more c d t k) = rw (trim_right_of_EndsKept (d ∷ t) k)

  pub trim_of_EndsKept :
      (c : ℕ) (s : List ℕ) → cut c ≡ false → EndsKept (c ∷ s) → trim cut (c ∷ s) ≡ c ∷ s
  unfolding trim
  trim_of_EndsKept c s h k = rw h (trim_right_of_EndsKept (c ∷ s) k)
