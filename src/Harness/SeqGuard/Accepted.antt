-- ===== src/Harness/SeqGuard/Accepted.antt =====
-- Which streams the guard lets through, told without its state.
use platform_agent.Prelude.{
  ℕ, zero, suc, ◌<◌, ◌≡◌, ◌↔◌, refl, ap, true, List, [], ◌∷◌, ◌++◌, replicate, arith,
}
use platform_agent.Prelude.Int.{ℤ, pos, negsuc}
use platform_agent.Harness.SeqGuard.{InboundSeqGuard, fresh_guard, admit, admits}

-- Positive numbers, each above the one before it and the first above `last`.
abbrev pub Rises : ℕ → List ℤ → Type 0
Rises last [] = Unit
Rises last (pos n ∷ seqs) = (last < n) × Rises n seqs
Rises last (negsuc n ∷ seqs) = ⊥

-- Any number of zeros, then positive numbers that rise strictly.
pub record IsStream (seqs : List ℤ) : Type 0 where
  pub zeros : ℕ
  pub rising : List ℤ
  pub shape : seqs ≡ replicate zeros (pos 0) ++ rising
  pub rises : Rises 0 rising

abbrev sequenced_at : ℕ → InboundSeqGuard
sequenced_at last = record { sequenced = true; last = pos last }

admits-Rises : (last : ℕ) (seqs : List ℤ) → admits (sequenced_at last) seqs ≡ true → Rises last seqs
unfolding admits admit
admits-Rises last [] h = tt
admits-Rises last (pos zero ∷ seqs) h = cc
admits-Rises last (pos (suc n) ∷ seqs) h = ground (arith, admits-Rises (suc n) seqs)
admits-Rises last (negsuc n ∷ seqs) h = cc

Rises-admits : (last : ℕ) (seqs : List ℤ) → Rises last seqs → admits (sequenced_at last) seqs ≡ true
unfolding admits admit
Rises-admits last [] h = refl
Rises-admits last (pos zero ∷ seqs) h = absurd (omega (arith, h.0))
Rises-admits last (pos (suc n) ∷ seqs) h = ground (arith, Rises-admits (suc n) seqs)
Rises-admits last (negsuc n ∷ seqs) h = absurd h

IsStream-zero : {seqs : List ℤ} → IsStream seqs → IsStream (pos 0 ∷ seqs)
IsStream-zero s = record {
  zeros = suc s.zeros;
  rising = s.rising;
  shape = ap (λ rest. pos 0 ∷ rest) s.shape;
  rises = s.rises;
}

admits-IsStream : (seqs : List ℤ) → admits fresh_guard seqs ≡ true → IsStream seqs
unfolding admits admit
admits-IsStream [] h = record { zeros = 0; rising = []; shape = refl; rises = tt }
admits-IsStream (pos zero ∷ seqs) h = IsStream-zero (admits-IsStream seqs h)
admits-IsStream (pos (suc n) ∷ seqs) h = record {
  zeros = 0;
  rising = pos (suc n) ∷ seqs;
  shape = refl;
  rises = (omega arith, admits-Rises (suc n) seqs h);
}
admits-IsStream (negsuc n ∷ seqs) h = cc

admits_zeros :
    (n : ℕ) (seqs : List ℤ) → Rises 0 seqs → admits fresh_guard (replicate n (pos 0) ++ seqs) ≡ true
unfolding admits admit
admits_zeros zero [] h = refl
admits_zeros zero (pos zero ∷ seqs) h = absurd (omega (arith, h.0))
admits_zeros zero (pos (suc n) ∷ seqs) h = Rises-admits (suc n) seqs h.1
admits_zeros zero (negsuc n ∷ seqs) h = absurd h
admits_zeros (suc n) seqs h = admits_zeros n seqs h

-- A fresh guard admits every frame of a stream exactly when their numbers are any number of zeros
-- and then positive numbers, each above the one before it.
pub admits-eq-IsStream : (seqs : List ℤ) → (admits fresh_guard seqs ≡ true) ↔ IsStream seqs
admits-eq-IsStream seqs =
    (admits-IsStream seqs, λ s. rw s.shape (admits_zeros s.zeros s.rising s.rises))
