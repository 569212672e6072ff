-- ===== src/Operation/Command/Tokens.antt =====
-- The tokens of a command line, and a line printed from a command.
use platform_agent.Prelude.{
  ℕ, ◌<◌, ◌≡◌, ◌≢◌, refl, ap, ◌∙◌, false, List, [], ◌∷◌, ◌++◌, arith, length, All, ◌==◌, Bool-cases,
  inl, inr,
}
use platform_agent.Bytes.{Bytes}
use platform_agent.Bytes.Text.{split}
use platform_agent.Bytes.Text.Split.{Free, split-append_sep, split_self, split-Free}
use platform_agent.Bytes.Text.Trim.{EndsKept, last, more, trim_of_EndsKept}
use platform_agent.Operation.Command.{
  is_java_space, java_trim, drop_empty, split_space_runs, to_lower, from_tokens, parse_command,
}

-- A token: not empty, with no blank in it.
abbrev pub IsToken : Bytes → Type 0
IsToken s = (length s ≢ 0) × Free 32 s

drop_empty-IsToken : (ps : List Bytes) → All (Free 32) ps → All IsToken (drop_empty ps)
unfolding drop_empty
drop_empty-IsToken [] h = tt
drop_empty-IsToken (p ∷ ps) h = elim (Bool-cases (length p == 0)) [
  | inl e ↦ rw e (drop_empty-IsToken ps h.1)
  | inr e ↦ rw e ((ground arith, h.0), drop_empty-IsToken ps h.1)
]

from_tokens-IsToken :
    (unicode_lower : Bytes → Bytes) (ts : List Bytes)
    → All IsToken ts
    → All IsToken (from_tokens unicode_lower ts).argv
unfolding from_tokens
from_tokens-IsToken unicode_lower [] h = tt
from_tokens-IsToken unicode_lower (t ∷ ts) h = h.1

split_space_runs-IsToken : (s : Bytes) → All IsToken (split_space_runs s)
unfolding split_space_runs
split_space_runs-IsToken s = drop_empty-IsToken (split 32 s) (split-Free 32 s)

-- Whatever the line, every argument of its command is a token: none is empty or holds a blank.
pub parse_command-IsToken :
    (unicode_lower : Bytes → Bytes) (line : Bytes)
    → All IsToken (parse_command unicode_lower line).argv
unfolding parse_command
parse_command-IsToken unicode_lower line = elim (Bool-cases (length (java_trim line) == 0)) [
  | inl e ↦ rw e tt
  | inr e ↦ rw e (from_tokens-IsToken unicode_lower _ (split_space_runs-IsToken (java_trim line)))
]

-- A word: not empty, of bytes above the blank.
pub data IsWord : Bytes → Type 0 where
  one : (c : ℕ) → 32 < c → IsWord (c ∷ [])
  more_of : (c d : ℕ) (s : Bytes) → 32 < c → IsWord (d ∷ s) → IsWord (c ∷ d ∷ s)

-- A command line: the words with one blank between.
unfoldable pub join_blank : Bytes → List Bytes → Bytes
join_blank first [] = first
join_blank first (x ∷ xs) = first ++ 32 ∷ join_blank x xs

Free-of_IsWord : (s : Bytes) → IsWord s → Free 32 s
Free-of_IsWord s (one c h) = (omega arith, tt)
Free-of_IsWord s (more_of c d t h w) = (omega arith, Free-of_IsWord (d ∷ t) w)

split-join :
    (x : Bytes) (xs : List Bytes) → IsWord x → All IsWord xs → split 32 (join_blank x xs) ≡ x ∷ xs
unfolding join_blank
split-join x [] h k = split_self 32 x (Free-of_IsWord x h)
split-join x (y ∷ ys) h k =
    split-append_sep 32 x (join_blank y ys) (Free-of_IsWord x h)
    ∙ ap (λ t. x ∷ t) (split-join y ys k.0 k.1)

drop_empty-words : (xs : List Bytes) → All IsWord xs → drop_empty xs ≡ xs
unfolding drop_empty
drop_empty-words [] h = refl
drop_empty-words ([] ∷ xs) h = elim h.0 [ ]
drop_empty-words ((c ∷ x) ∷ xs) h = ground (arith, drop_empty-words xs h.1)

kept_byte : (c : ℕ) → 32 < c → is_java_space c ≡ false
unfolding is_java_space
kept_byte c h = ground arith

EndsKept-of_IsWord : (s : Bytes) → IsWord s → EndsKept is_java_space s
EndsKept-of_IsWord s (one c h) = last c (kept_byte c h)
EndsKept-of_IsWord s (more_of c d t h w) = more c d t (EndsKept-of_IsWord (d ∷ t) w)

EndsKept-cons : (x : ℕ) (t : Bytes) → EndsKept is_java_space t → EndsKept is_java_space (x ∷ t)
EndsKept-cons x t (last c h) = more x c [] (last c h)
EndsKept-cons x t (more c d s k) = more x c (d ∷ s) (more c d s k)

EndsKept-append : (s t : Bytes) → EndsKept is_java_space t → EndsKept is_java_space (s ++ t)
EndsKept-append [] t h = h
EndsKept-append (x ∷ s) t h = EndsKept-cons x (s ++ t) (EndsKept-append s t h)

EndsKept-join :
    (x : Bytes) (xs : List Bytes)
    → IsWord x
    → All IsWord xs
    → EndsKept is_java_space (join_blank x xs)
unfolding join_blank
EndsKept-join x [] h k = EndsKept-of_IsWord x h
EndsKept-join x (y ∷ ys) h k =
    EndsKept-append x (32 ∷ join_blank y ys)
      (EndsKept-cons 32 (join_blank y ys) (EndsKept-join y ys k.0 k.1))

-- A text that begins with a byte above the blank.
abbrev StartsKept : Bytes → Type 0
StartsKept [] = ⊥
StartsKept (c ∷ s) = 32 < c

StartsKept-append : (s t : Bytes) → StartsKept s → StartsKept (s ++ t)
StartsKept-append [] t h = absurd h
StartsKept-append (c ∷ s) t h = h

StartsKept-of_IsWord : (s : Bytes) → IsWord s → StartsKept s
StartsKept-of_IsWord s (one c h) = h
StartsKept-of_IsWord s (more_of c d t h w) = h

StartsKept-join : (x : Bytes) (xs : List Bytes) → IsWord x → StartsKept (join_blank x xs)
unfolding join_blank
StartsKept-join x [] h = StartsKept-of_IsWord x h
StartsKept-join x (y ∷ ys) h = StartsKept-append x _ (StartsKept-of_IsWord x h)

java_trim-kept : (s : Bytes) → StartsKept s → EndsKept is_java_space s → java_trim s ≡ s
unfolding java_trim
java_trim-kept [] h k = absurd h
java_trim-kept (c ∷ s) h k = trim_of_EndsKept is_java_space c s (kept_byte c h) k

nonempty_test : (s : Bytes) → StartsKept s → (length s == 0) ≡ false
nonempty_test [] h = absurd h
nonempty_test (c ∷ s) h = ground arith

split_space_runs-join :
    (x : Bytes) (xs : List Bytes)
    → IsWord x
    → All IsWord xs
    → split_space_runs (join_blank x xs) ≡ x ∷ xs
unfolding split_space_runs
split_space_runs-join x xs h k =
    ap drop_empty (split-join x xs h k) ∙ drop_empty-words (x ∷ xs) (h, k)

from_tokens-word :
    (unicode_lower : Bytes → Bytes) (x : Bytes) (xs : List Bytes)
    → IsWord x
    → from_tokens unicode_lower (x ∷ xs)
      ≡ record { command_id = to_lower unicode_lower x; argv = xs }
unfolding from_tokens
from_tokens-word unicode_lower x xs h =
    rw (java_trim-kept x (StartsKept-of_IsWord x h) (EndsKept-of_IsWord x h))

-- A line of words with one blank between parses into its first word, lower-cased, and the others
-- in order and unchanged.
pub parse_command-join :
    (unicode_lower : Bytes → Bytes) (x : Bytes) (xs : List Bytes)
    → IsWord x
    → All IsWord xs
    → parse_command unicode_lower (join_blank x xs)
      ≡ record { command_id = to_lower unicode_lower x; argv = xs }
unfolding parse_command
parse_command-join unicode_lower x xs h k =
    let starts = StartsKept-join x xs h in
    rw (java_trim-kept (join_blank x xs) starts (EndsKept-join x xs h k)) (
      rw (nonempty_test (join_blank x xs) starts)
        (rw (split_space_runs-join x xs h k) (from_tokens-word unicode_lower x xs h)))
