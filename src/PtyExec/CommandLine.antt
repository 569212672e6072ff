-- ===== src/PtyExec/CommandLine.antt =====
-- internal/remotebridge/cmdline/cmdline.go: Windows command lines. A text is the list of its
-- characters, which is what the loop over it reads.
-- An element of a text stands for one rune of it. The bytes of valid UTF-8 give the same, as the runes
-- that are told apart are ASCII; a byte that is not valid UTF-8, which the code would replace, is kept.
pub mod Splitter
pub mod Steps
pub mod Parsed
pub mod Program
use platform_agent.Prelude.{
  ℕ, zero, suc, ◌+◌, ◌*◌, Bool, true, false, ◌&&◌, ◌||◌, not, List, [], ◌∷◌, ◌++◌, length,
  replicate, ◌==◌, if◌then◌else◌,
}
use platform_agent.Bytes.{Bytes}

-- One of the characters that an argument is quoted for: blank, tab, line feed, vertical tab, quote.
unfoldable pub is_special : ℕ → Bool
is_special c = c == 32 || c == 9 || c == 10 || c == 11 || c == b'"'

unfoldable pub contains_special : Bytes → Bool
unfolding is_special
contains_special [] = false
contains_special (c ∷ s) = is_special c || contains_special s

abbrev pub backslash : ℕ
backslash = 92

abbrev pub quote : ℕ
quote = b'"'

-- The loop over the characters, `bs` backslashes pending, and the end of the text.
unfoldable pub quote_loop : ℕ → Bytes → Bytes
quote_loop bs [] = replicate (bs * 2) backslash ++ quote ∷ []
quote_loop bs (r ∷ s) =
    let pending = quote_loop (bs + 1) s in
    let rest = quote_loop 0 s in
    if r == backslash
    then pending
    else if r == quote
    then replicate (bs * 2 + 1) backslash ++ quote ∷ rest
    else replicate bs backslash ++ r ∷ rest

unfoldable pub quote_arg : Bytes → Bytes
quote_arg s = if not (length s == 0) && not (contains_special s) then s else quote ∷ quote_loop 0 s

unfoldable pub quote_args : List Bytes → Bytes
quote_args [] = []
quote_args (a ∷ args) = 32 ∷ (quote_arg a ++ quote_args args)

unfoldable pub build_command_line : Bytes → List Bytes → Bytes
build_command_line exe args = quote_arg exe ++ quote_args args
