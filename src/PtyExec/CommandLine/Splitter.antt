-- ===== src/PtyExec/CommandLine/Splitter.antt =====
-- How Windows programs split their command lines, by the rules that Microsoft documents.
use platform_agent.Prelude.{
  ℕ, ◌+◌, ◌/◌, ◌%◌, Bool, true, false, not, ◌&&◌, ◌||◌, Option, none, some, List, [], ◌∷◌, ◌++◌,
  replicate, ◌==◌, if◌then◌else◌,
}
use platform_agent.Bytes.{Bytes}
use platform_agent.PtyExec.CommandLine.{backslash, quote}

-- Where the splitter is: between arguments; in one, inside quotes or not, with backslashes pending;
-- or in one whose quotes have just closed.
pub data Mode : Type 0 where
  between : Mode
  inside : Bool → ℕ → Bytes → Mode
  after_quote : Bytes → Mode

abbrev pub is_blank : ℕ → Bool
is_blank c = c == 32 || c == 9

abbrev pub slashes : ℕ → Bytes
slashes n = replicate n backslash

-- A character in an argument: 2n backslashes and a quote are n backslashes and a change of quoting,
-- 2n + 1 are n backslashes and a quote, and other backslashes stand for themselves.
unfoldable pub step_inside : Bool → ℕ → Bytes → ℕ → Option Bytes × Mode
step_inside quoted bs cur c =
    if c == backslash
    then (none, inside quoted (bs + 1) cur)
    else if c == quote
    then (if bs % 2 == 0
        then (
          none,
          if quoted
              then after_quote (cur ++ slashes (bs / 2))
              else inside true 0 (cur ++ slashes (bs / 2)),
        )
        else (none, inside quoted 0 (cur ++ (slashes (bs / 2) ++ quote ∷ []))))
    else if not quoted && is_blank c
    then (some (cur ++ slashes bs), between)
    else (none, inside quoted 0 (cur ++ (slashes bs ++ c ∷ [])))

-- Inside quotes a doubled quote is a quote.
unfoldable pub step : Mode → ℕ → Option Bytes × Mode
unfolding step_inside
step between c = if is_blank c then (none, between) else step_inside false 0 [] c
step (inside quoted bs cur) c = step_inside quoted bs cur c
step (after_quote cur) c =
    if c == quote then (none, inside true 0 (cur ++ quote ∷ [])) else step_inside false 0 cur c

unfoldable pub emit : Option Bytes → List Bytes → List Bytes
emit none args = args
emit (some a) args = a ∷ args

unfoldable pub at_end : Mode → List Bytes
at_end between = []
at_end (inside quoted bs cur) = (cur ++ slashes bs) ∷ []
at_end (after_quote cur) = cur ∷ []

-- The arguments of a line.
unfoldable pub split_args : Mode → Bytes → List Bytes
split_args m [] = at_end m
split_args m (c ∷ s) = let (arg, next) = step m c in emit arg (split_args next s)

-- The program's name ends at the first blank, or at the closing quote if it begins with a quote,
-- and backslashes mean nothing in it.
unfoldable pub name_until : (ℕ → Bool) → Bytes → Bytes × Bytes
name_until stop [] = ([], [])
name_until stop (c ∷ s) =
    let (name, rest) = name_until stop s in if stop c then ([], c ∷ s) else (c ∷ name, rest)

unfoldable pub split_program : Bytes → Bytes × Bytes
split_program [] = ([], [])
split_program (c ∷ s) =
    if c == quote then name_until (λ d. d == quote) s else name_until is_blank (c ∷ s)

-- The program's name and its arguments.
unfoldable pub split_line : Bytes → Bytes × List Bytes
split_line s = let (name, rest) = split_program s in (name, split_args between rest)
