-- ===== src/PtyExec/CommandLine/Parsed.antt =====
-- The arguments of the built line are read back as they were.
use platform_agent.Prelude.{
  ℕ, ◌+◌, ◌*◌, ◌≡◌, ◌≢◌, refl, sym, ap, ◌∙◌, true, false, List, [], ◌∷◌, ◌++◌, append-nil,
  append_assoc, ◌==◌, arith, Bool-cases, inl, inr,
}
use native.Mathlib.Decide.{ℕ_discrete}
use platform_agent.Bytes.{Bytes}
use platform_agent.PtyExec.CommandLine.{
  contains_special, backslash, quote, quote_loop, quote_arg, quote_args,
}
use platform_agent.PtyExec.CommandLine.Splitter.{
  between, inside, is_blank, slashes, step, emit, at_end, split_args,
}
use platform_agent.PtyExec.CommandLine.Steps.{
  ends_plain, ends_quoted, not_special, reads_slashes, regroup, snoc_slash, special_parts,
  split_args_step, step_closes, step_literal, step_other, step_slash,
}

abbrev cons_arg : List Bytes → Bytes → List Bytes
cons_arg rest a = a ∷ rest

-- An unquoted argument is read as it stands.
reads_plain :
    (s : Bytes) (bs : ℕ) (cur : Bytes) (args : List Bytes)
    → contains_special s ≡ false
    → split_args (inside false bs cur) (s ++ quote_args args)
      ≡ (cur ++ (slashes bs ++ s)) ∷ split_args between (quote_args args)
reads_plain [] bs cur args h = rw (append-nil (slashes bs)) (ends_plain bs cur args)
reads_plain (c ∷ s) bs cur args h =
    let rest = split_args between (quote_args args) in
    let (plain, later) = special_parts c s h in
    let (no_quote, no_blank) = not_special c plain in
    elim (ℕ_discrete c backslash) [
      | yes e ↦ rw e (
          split_args_step false bs cur backslash (s ++ quote_args args) _ (step_slash false bs cur)
          ∙ reads_plain s (bs + 1) cur args later
          ∙ ap (λ t. (cur ++ t) ∷ rest) (snoc_slash bs s))
      | no ne ↦
          split_args_step false bs cur c (s ++ quote_args args) _
            (step_other false bs cur c ne no_quote no_blank)
          ∙ reads_plain s 0 (cur ++ (slashes bs ++ c ∷ [])) args later
          ∙ ap (λ t. t ∷ rest) (regroup cur (slashes bs) s c)
    ]

reads_slashes_first :
    (n : ℕ) (cur t : Bytes)
    → split_args (inside true 0 cur) (slashes n ++ t) ≡ split_args (inside true n cur) t
reads_slashes_first n cur t =
    let e : 0 + n ≡ n = omega arith in
    reads_slashes true 0 n cur t ∙ ap (λ k. split_args (inside true k cur) t) e

module _ (bs : ℕ) (s r : Bytes) where
  loop_end : quote_loop bs [] ++ r ≡ slashes (bs * 2) ++ quote ∷ r
  unfolding quote_loop
  loop_end = append_assoc (slashes (bs * 2)) (quote ∷ []) r

  loop_slash : quote_loop bs (backslash ∷ s) ++ r ≡ quote_loop (bs + 1) s ++ r
  unfolding quote_loop
  loop_slash = refl

  loop_quote :
      quote_loop bs (quote ∷ s) ++ r ≡ slashes (bs * 2 + 1) ++ quote ∷ (quote_loop 0 s ++ r)
  unfolding quote_loop
  loop_quote = append_assoc (slashes (bs * 2 + 1)) (quote ∷ quote_loop 0 s) r

  loop_other :
      (c : ℕ)
      → c ≢ backslash
      → c ≢ quote
      → quote_loop bs (c ∷ s) ++ r ≡ slashes bs ++ c ∷ (quote_loop 0 s ++ r)
  unfolding quote_loop
  loop_other c h k =
      let no_slash : (c == backslash) ≡ false = ground arith in
      let no_quote : (c == quote) ≡ false = ground arith in
      rw no_slash (rw no_quote (append_assoc (slashes bs) (c ∷ quote_loop 0 s) r))

-- The written form of a text, `bs` backslashes of it pending, is read back as the text.
reads_quoted :
    (s : Bytes) (bs : ℕ) (cur : Bytes) (args : List Bytes)
    → split_args (inside true 0 cur) (quote_loop bs s ++ quote_args args)
      ≡ (cur ++ (slashes bs ++ s)) ∷ split_args between (quote_args args)
reads_quoted [] bs cur args =
    let rest = quote_args args in
    ap (split_args (inside true 0 cur)) (loop_end bs [] rest)
    ∙ reads_slashes_first (bs * 2) cur (quote ∷ rest)
    ∙ split_args_step true (bs * 2) cur quote rest _ (step_closes bs cur)
    ∙ ends_quoted (cur ++ slashes bs) args
    ∙ ap (λ t. (cur ++ t) ∷ split_args between rest) (sym (append-nil (slashes bs)))
reads_quoted (c ∷ s) bs cur args =
    let rest = quote_args args in
    let after = split_args between rest in
    let loop = quote_loop 0 s ++ rest in
    elim (ℕ_discrete c backslash) [
      | yes e ↦ rw e (
          ap (split_args (inside true 0 cur)) (loop_slash bs s rest)
          ∙ reads_quoted s (bs + 1) cur args
          ∙ ap (λ t. (cur ++ t) ∷ after) (snoc_slash bs s))
      | no ne ↦ elim (ℕ_discrete c quote) [
        | yes e ↦ rw e (
            ap (split_args (inside true 0 cur)) (loop_quote bs s rest)
            ∙ reads_slashes_first (bs * 2 + 1) cur (quote ∷ loop)
            ∙ split_args_step true (bs * 2 + 1) cur quote loop _ (step_literal bs cur)
            ∙ reads_quoted s 0 (cur ++ (slashes bs ++ quote ∷ [])) args
            ∙ ap (λ t. t ∷ after) (regroup cur (slashes bs) s quote))
        | no nq ↦
            ap (split_args (inside true 0 cur)) (loop_other bs s rest c ne nq)
            ∙ reads_slashes_first bs cur (c ∷ loop)
            ∙ split_args_step true bs cur c loop _ (step_other true bs cur c ne nq refl)
            ∙ reads_quoted s 0 (cur ++ (slashes bs ++ c ∷ [])) args
            ∙ ap (λ t. t ∷ after) (regroup cur (slashes bs) s c)
      ]
    ]

skips_blank : (t : Bytes) → split_args between (32 ∷ t) ≡ split_args between t
unfolding split_args emit at_end step
skips_blank t = refl

starts_quoted : (t : Bytes) → split_args between (quote ∷ t) ≡ split_args (inside true 0 []) t
unfolding split_args emit at_end step
starts_quoted t = refl

starts_plain :
    (c : ℕ) (t : Bytes)
    → is_blank c ≡ false
    → split_args between (c ∷ t) ≡ split_args (inside false 0 []) (c ∷ t)
unfolding split_args emit at_end step
starts_plain c t h = rw h

quote_arg_special : (s : Bytes) → contains_special s ≡ true → quote_arg s ≡ quote ∷ quote_loop 0 s
unfolding quote_arg
quote_arg_special s h = ground arith

pub quote_arg_plain :
    (c : ℕ) (s : Bytes) → contains_special (c ∷ s) ≡ false → quote_arg (c ∷ s) ≡ c ∷ s
unfolding quote_arg
quote_arg_plain c s h = ground arith

-- One argument, quoted or not.
reads_arg :
    (a : Bytes) (args : List Bytes)
    → split_args between (quote_arg a ++ quote_args args) ≡ a ∷ split_args between (quote_args args)
reads_arg [] args = (unfold quote_arg in starts_quoted _ ∙ reads_quoted [] 0 [] args)
reads_arg (c ∷ s) args = elim (Bool-cases (contains_special (c ∷ s))) [
  | inl e ↦
      rw (quote_arg_special (c ∷ s) e)
        (starts_quoted (quote_loop 0 (c ∷ s) ++ quote_args args) ∙ reads_quoted (c ∷ s) 0 [] args)
  | inr e ↦ rw (quote_arg_plain c s e) (
      starts_plain c (s ++ quote_args args) (not_special c (special_parts c s e).0).1
      ∙ reads_plain (c ∷ s) 0 [] args e)
]

-- A program that splits what follows its name on the built line gets back exactly the arguments, in
-- order, whatever characters they hold: no argument can add, join or break another.
pub split-quote_args : (args : List Bytes) → split_args between (quote_args args) ≡ args
unfolding quote_args
split-quote_args [] = (unfold split_args at_end in refl)
split-quote_args (a ∷ args) =
    skips_blank (quote_arg a ++ quote_args args)
    ∙ reads_arg a args
    ∙ ap (λ t. a ∷ t) (split-quote_args args)
