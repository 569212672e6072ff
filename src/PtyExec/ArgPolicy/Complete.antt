-- ===== src/PtyExec/ArgPolicy/Complete.antt =====
-- The policy accepts every list of permitted items.
use platform_agent.Prelude.{
  ℕ, suc, ◌+◌, ◌≤◌, ◌≡◌, ◌≢◌, ◌⊎◌, ◌↔◌, inl, inr, subst, true, false, Option, none, some, List, [],
  ◌∷◌, arith, All, ok,
}
use platform_agent.Bytes.{Bytes}
use platform_agent.PtyExec.ArgPolicy.{
  CommandSpec, flag_alone, flag_and_value, operand, is_none_rule, is_required_rule, round, finish,
  evaluate_from, evaluate,
}
use platform_agent.PtyExec.ArgPolicy.Grammar.{
  Item, alone, with_value, host, print, hosts, IsPermitted, Parse,
}
use platform_agent.PtyExec.ArgPolicy.Sound.{Parse-of_ok}

module _ (s : CommandSpec) where
  round_of_alone :
      (count : ℕ) (tok : Bytes) (next : Option Bytes)
      → IsPermitted s (alone tok)
      → round s count tok next ≡ ok flag_alone
  unfolding round
  round_of_alone count tok next h = ground arith

  round_of_value :
      (count : ℕ) (tok v : Bytes)
      → IsPermitted s (with_value tok v)
      → round s count tok (some v) ≡ ok flag_and_value
  unfolding round
  round_of_value count tok v (flag, takes, (vspec, found, accepted), nonempty, plain) =
      ground (arith, flag, takes, found, accepted, nonempty, plain)

  round_of_host :
      (count : ℕ) (tok : Bytes) (next : Option Bytes)
      → IsPermitted s (host tok)
      → is_none_rule s.operand_rule ≡ false
      → count + 1 ≤ s.max_operands
      → round s count tok next ≡ ok operand
  unfolding round
  round_of_host count tok next h hosted room = ground arith

  from_alone :
      (count : ℕ) (tok : Bytes) (rest : List Bytes)
      → IsPermitted s (alone tok)
      → evaluate_from s count (tok ∷ rest) ≡ evaluate_from s count rest
  unfolding evaluate_from
  from_alone count tok [] h = rw (round_of_alone count tok none h, evaluate_from)
  from_alone count tok (v ∷ rest) h = rw (round_of_alone count tok (some v) h, evaluate_from)

  from_value :
      (count : ℕ) (tok v : Bytes) (rest : List Bytes)
      → IsPermitted s (with_value tok v)
      → evaluate_from s count (tok ∷ v ∷ rest) ≡ evaluate_from s count rest
  unfolding evaluate_from
  from_value count tok v rest h = rw (round_of_value count tok v h, evaluate_from)

  from_host :
      (count : ℕ) (tok : Bytes) (rest : List Bytes)
      → IsPermitted s (host tok)
      → is_none_rule s.operand_rule ≡ false
      → count + 1 ≤ s.max_operands
      → evaluate_from s count (tok ∷ rest) ≡ evaluate_from s (suc count) rest
  unfolding evaluate_from
  from_host count tok [] h a b = rw (round_of_host count tok none h a b, evaluate_from)
  from_host count tok (v ∷ rest) h a b = rw (round_of_host count tok (some v) h a b, evaluate_from)

  -- Hosts are allowed, if there are any, and fit the bound.
  abbrev Bounded : ℕ → ℕ → Type 0
  Bounded count n = (n ≡ 0) ⊎ ((is_none_rule s.operand_rule ≡ false) × (count + n ≤ s.max_operands))

  ok_of_none :
      (count : ℕ)
      → (is_required_rule s.operand_rule ≡ true → count + 0 ≢ 0)
      → evaluate_from s count [] ≡ ok tt
  unfolding evaluate_from finish
  ok_of_none count r = ground arith

  ok_of_items :
      (count : ℕ) (is : List Item)
      → All (IsPermitted s) is
      → Bounded count (hosts is)
      → (is_required_rule s.operand_rule ≡ true → count + hosts is ≢ 0)
      → evaluate_from s count (print is) ≡ ok tt
  ok_of_items count [] h b r = ok_of_none count r
  ok_of_items count (alone f ∷ is) h b r =
      rw (from_alone count f (print is) h.0) (ok_of_items count is h.1 b r)
  ok_of_items count (with_value f v ∷ is) h b r =
      rw (from_value count f v (print is) h.0) (ok_of_items count is h.1 b r)
  ok_of_items count (host x ∷ is) h b r =
      let (allowed, fits) = host_bound b in
      rw (from_host count x (print is) h.0 allowed (omega arith))
        (ok_of_items (suc count) is h.1 (inr (allowed, omega arith)) (λ e. omega arith))
    where
      host_bound :
          Bounded count (suc (hosts is))
          → (is_none_rule s.operand_rule ≡ false) × (count + suc (hosts is) ≤ s.max_operands)
      host_bound (inl e) = absurd (omega arith)
      host_bound (inr p) = p

  -- The policy accepts an argument list exactly when it is made of permitted items: sized flags that
  -- are not forbidden and are known, alone or with a value that their range or set accepts, and
  -- host operands, as many as the rule allows and at least one where a host is required.
  pub evaluate-Parse : (args : List Bytes) → (evaluate s args ≡ ok tt) ↔ Parse s 0 args
  unfolding evaluate
  evaluate-Parse args = (
    Parse-of_ok s 0 args,
    λ p.
        subst (λ t. evaluate_from s 0 t ≡ ok tt) p.printed
          (ok_of_items 0 p.items p.permitted p.bounded p.required),
  )
