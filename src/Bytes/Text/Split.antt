-- ===== src/Bytes/Text/Split.antt =====
-- What strings.Split returns.
use platform_agent.Prelude.{
  ℕ, ◌≡◌, ◌≢◌, refl, ap, true, false, List, [], ◌∷◌, ◌++◌, arith, All, ◌==◌, Bool-cases, inl, inr,
}
use platform_agent.Bytes.Text.{split, push_head}

module _ (sep : ℕ) where
  -- Free of the separator.
  abbrev pub Free : List ℕ → Type 0
  Free = All (λ c. c ≢ sep)

  ne_test : (c : ℕ) → c ≢ sep → (c == sep) ≡ false
  ne_test c h = ground arith

  test_refl : (sep == sep) ≡ true
  test_refl = ground arith

  pub split-append_sep : (s r : List ℕ) → Free s → split sep (s ++ sep ∷ r) ≡ s ∷ split sep r
  unfolding split
  split-append_sep [] r h = rw test_refl
  split-append_sep (c ∷ s) r h = rw (ne_test c h.0) (ap (push_head c) (split-append_sep s r h.1))

  pub split_self : (s : List ℕ) → Free s → split sep s ≡ s ∷ []
  unfolding split
  split_self [] h = refl
  split_self (c ∷ s) h = rw (ne_test c h.0) (ap (push_head c) (split_self s h.1))

  All-push_head : (c : ℕ) (ps : List (List ℕ)) → c ≢ sep → All Free ps → All Free (push_head c ps)
  unfolding push_head
  All-push_head c [] h k = ((h, tt), tt)
  All-push_head c (p ∷ ps) h k = ((h, k.0), k.1)

  test_ne : (c : ℕ) → (c == sep) ≡ false → c ≢ sep
  test_ne c h = ground arith

  -- No part holds the separator.
  pub split-Free : (s : List ℕ) → All Free (split sep s)
  unfolding split
  split-Free [] = (tt, tt)
  split-Free (c ∷ s) = elim (Bool-cases (c == sep)) [
    | inl e ↦ rw e (tt, split-Free s)
    | inr e ↦ rw e (All-push_head c (split sep s) (test_ne c e) (split-Free s))
  ]
