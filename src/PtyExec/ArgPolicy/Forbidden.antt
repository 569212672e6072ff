-- ===== src/PtyExec/ArgPolicy/Forbidden.antt =====
-- No accepted argument list holds a forbidden flag.
use platform_agent.Prelude.{
  ◌≡◌, refl, subst, true, false, List, [], ◌∷◌, arith, All, ok, Bool-cases, inl, inr,
}
use platform_agent.Bytes.{Bytes, beq, beq_iff}
use platform_agent.PtyExec.ArgPolicy.{CommandSpec, ascii_lower, contains, is_arg_flag, evaluate}
use platform_agent.PtyExec.ArgPolicy.Grammar.{Item, alone, with_value, host, print, IsPermitted}
use platform_agent.PtyExec.ArgPolicy.Complete.{evaluate-Parse}

-- Folding the case of a token does not make a flag of it.
is_arg_flag-ascii_lower : (t : Bytes) → is_arg_flag (ascii_lower t) ≡ is_arg_flag t
unfolding is_arg_flag ascii_lower
is_arg_flag-ascii_lower [] = refl
is_arg_flag-ascii_lower (c ∷ t) = ground arith

abbrev AreFlags : List Bytes → Type 0
AreFlags = All (λ f. is_arg_flag f ≡ true)

contains-flag :
    (k : Bytes) (fs : List Bytes) → AreFlags fs → contains k fs ≡ true → is_arg_flag k ≡ true
unfolding contains
contains-flag k [] h e = cc
contains-flag k (f ∷ fs) h e = elim (Bool-cases (beq k f)) [
  | inl q ↦ rw ((beq_iff k f).0 q) h.0
  | inr q ↦ contains-flag k fs h.1 (rw q at e)
]

-- A token that is no flag is not forbidden.
plain_not_forbidden :
    (t : Bytes) (fs : List Bytes)
    → AreFlags fs
    → is_arg_flag t ≡ false
    → contains (ascii_lower t) fs ≡ false
plain_not_forbidden t fs h p =
    ground (arith, contains-flag (ascii_lower t) fs h, is_arg_flag-ascii_lower t)

module _ (s : CommandSpec) (flags : AreFlags s.forbidden_flags) where
  abbrev IsHarmless : Bytes → Type 0
  IsHarmless t = contains (ascii_lower t) s.forbidden_flags ≡ false

  IsHarmless-items : (is : List Item) → All (IsPermitted s) is → All IsHarmless (print is)
  IsHarmless-items [] h = tt
  IsHarmless-items (alone f ∷ is) h = (h.0.0.2, IsHarmless-items is h.1)
  IsHarmless-items (with_value f v ∷ is) h =
      (h.0.0.2, (plain_not_forbidden v _ flags h.0.4, IsHarmless-items is h.1))
  IsHarmless-items (host x ∷ is) h = (plain_not_forbidden x _ flags h.0.1, IsHarmless-items is h.1)

  -- Wherever it stands and in whatever case it is written, no token of an accepted argument list is
  -- a forbidden flag, provided that the forbidden flags begin with `/` or `-`.
  pub evaluate-no_forbidden :
      (args : List Bytes)
      → evaluate s args ≡ ok tt
      → All (λ t. contains (ascii_lower t) s.forbidden_flags ≡ false) args
  evaluate-no_forbidden args h =
      let p = (evaluate-Parse s args).0 h in
      subst (All IsHarmless) p.printed (IsHarmless-items p.items p.permitted)
