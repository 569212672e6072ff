-- ===== src/PtyExec/CommandLine/Program.antt =====
-- The whole built line is read back.
use platform_agent.Prelude.{ℕ, ◌≡◌, ◌≢◌, refl, ap, false, List, [], ◌∷◌, ◌++◌, ◌==◌, arith}
use platform_agent.Bytes.{Bytes}
use platform_agent.PtyExec.CommandLine.{contains_special, quote, quote_args, build_command_line}
use platform_agent.PtyExec.CommandLine.Splitter.{is_blank, name_until, split_program, split_line}
use platform_agent.PtyExec.CommandLine.Steps.{not_special, special_parts}
use platform_agent.PtyExec.CommandLine.Parsed.{quote_arg_plain, split-quote_args}

name_until-plain :
    (s : Bytes) (args : List Bytes)
    → contains_special s ≡ false
    → name_until is_blank (s ++ quote_args args) ≡ (s, quote_args args)
unfolding name_until quote_args
name_until-plain [] [] h = refl
name_until-plain [] (a ∷ args) h = refl
name_until-plain (c ∷ s) args h =
    let (plain, later) = special_parts c s h in
    rw (not_special c plain).1 (ap (λ p. (c ∷ p.0, p.1)) (name_until-plain s args later))

split_program-plain :
    (c : ℕ) (s : Bytes) (args : List Bytes)
    → contains_special (c ∷ s) ≡ false
    → split_program ((c ∷ s) ++ quote_args args) ≡ (c ∷ s, quote_args args)
unfolding split_program
split_program-plain c s args h =
    let no_quote : (c == quote) ≡ false = first_plain c (not_special c (special_parts c s h).0).0 in
    rw no_quote (name_until-plain (c ∷ s) args h)
  where
    first_plain : (d : ℕ) → d ≢ quote → (d == quote) ≡ false
    first_plain d n = ground arith

-- The line of a program whose path needs no quotes splits into that path and exactly the arguments,
-- whatever characters these hold.
pub split-build_command_line :
    (c : ℕ) (exe : Bytes) (args : List Bytes)
    → contains_special (c ∷ exe) ≡ false
    → split_line (build_command_line (c ∷ exe) args) ≡ (c ∷ exe, args)
unfolding split_line build_command_line
split-build_command_line c exe args h =
    rw (quote_arg_plain c exe h)
      (rw (split_program-plain c exe args h) (rw (split-quote_args args)))
