-- ===== src/PtyExec/CommandLine/Steps.antt =====
-- How the splitter reads the pieces of a built line.
use platform_agent.Prelude.{
  ℕ, zero, suc, ◌+◌, ◌*◌, ◌/◌, ◌%◌, ◌≡◌, ◌≢◌, refl, ap, Bool, true, false, not, ◌&&◌, none, List,
  [], ◌∷◌, ◌++◌, append-nil, append_assoc, arith,
}
use platform_agent.Bytes.{Bytes}
use platform_agent.PtyExec.CommandLine.{is_special, contains_special, backslash, quote, quote_args}
use platform_agent.PtyExec.CommandLine.Splitter.{
  Mode, between, inside, after_quote, is_blank, slashes, step_inside, step, emit, at_end,
  split_args,
}

pub snoc_slash : (n : ℕ) (t : Bytes) → slashes (n + 1) ++ t ≡ slashes n ++ backslash ∷ t
snoc_slash zero t = refl
snoc_slash (suc n) t =
    let e : suc n + 1 ≡ suc (n + 1) = omega arith in rw e (ap (λ u. backslash ∷ u) (snoc_slash n t))

-- An argument that ends where the next begins.
pub ends_plain :
    (bs : ℕ) (cur : Bytes) (args : List Bytes)
    → split_args (inside false bs cur) (quote_args args)
      ≡ (cur ++ slashes bs) ∷ split_args between (quote_args args)
unfolding split_args emit at_end step quote_args
ends_plain bs cur [] = refl
ends_plain bs cur (a ∷ args) = refl

pub ends_quoted :
    (cur : Bytes) (args : List Bytes)
    → split_args (after_quote cur) (quote_args args) ≡ cur ∷ split_args between (quote_args args)
unfolding split_args emit at_end step quote_args
ends_quoted cur [] = refl
ends_quoted cur (a ∷ args) = rw append-nil

-- Backslashes are read one by one.
pub reads_slashes :
    (quoted : Bool) (bs n : ℕ) (cur t : Bytes)
    → split_args (inside quoted bs cur) (slashes n ++ t) ≡ split_args (inside quoted (bs + n) cur) t
unfolding split_args emit at_end step
reads_slashes quoted bs zero cur t = let e : bs + zero ≡ bs = omega arith in rw e
reads_slashes quoted bs (suc n) cur t =
    let e : bs + suc n ≡ (bs + 1) + n = omega arith in rw e (reads_slashes quoted (bs + 1) n cur t)

-- How the characters of an argument are read, by kind.
module _ (quoted : Bool) (bs : ℕ) (cur : Bytes) where
  pub step_other :
      (c : ℕ)
      → c ≢ backslash
      → c ≢ quote
      → (not quoted && is_blank c) ≡ false
      → step_inside quoted bs cur c ≡ (none, inside quoted 0 (cur ++ (slashes bs ++ c ∷ [])))
  unfolding step_inside
  step_other c h k b = ground arith

  pub step_slash : step_inside quoted bs cur backslash ≡ (none, inside quoted (bs + 1) cur)
  unfolding step_inside
  step_slash = refl

-- After an even number of backslashes a quote closes the quotes.
pub step_closes :
    (n : ℕ) (cur : Bytes)
    → step_inside true (n * 2) cur quote ≡ (none, after_quote (cur ++ slashes n))
unfolding step_inside
step_closes n cur =
    let even : n * 2 % 2 ≡ 0 = omega arith in
    let half : n * 2 / 2 ≡ n = omega arith in rw even (rw half)

-- After an odd number it stands for itself.
pub step_literal :
    (n : ℕ) (cur : Bytes)
    → step_inside true (n * 2 + 1) cur quote
      ≡ (none, inside true 0 (cur ++ (slashes n ++ quote ∷ [])))
unfolding step_inside
step_literal n cur =
    let odd : (n * 2 + 1) % 2 ≡ 1 = omega arith in
    let half : (n * 2 + 1) / 2 ≡ n = omega arith in rw odd (rw half)

pub regroup : (cur a s : Bytes) (c : ℕ) → (cur ++ (a ++ c ∷ [])) ++ s ≡ cur ++ (a ++ c ∷ s)
regroup cur a s c = simp append_assoc

pub not_special : (c : ℕ) → is_special c ≡ false → (c ≢ quote) × (is_blank c ≡ false)
unfolding is_special
not_special c h = (λ e. ground arith, ground arith)

pub special_parts :
    (c : ℕ) (s : Bytes)
    → contains_special (c ∷ s) ≡ false
    → (is_special c ≡ false) × (contains_special s ≡ false)
unfolding contains_special
special_parts c s h = ground arith

pub split_args_step :
    (quoted : Bool) (bs : ℕ) (cur : Bytes) (c : ℕ) (t : Bytes) (m : Mode)
    → step_inside quoted bs cur c ≡ (none, m)
    → split_args (inside quoted bs cur) (c ∷ t) ≡ split_args m t
unfolding split_args emit at_end step
split_args_step quoted bs cur c t m e = ap (λ p. emit p.0 (split_args p.1 t)) e

-- What follows the argument in a list of arguments.
