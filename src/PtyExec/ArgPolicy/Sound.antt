-- ===== src/PtyExec/ArgPolicy/Sound.antt =====
-- Every accepted list is made of permitted items.
use platform_agent.Prelude.{
  ℕ, suc, ◌+◌, ◌≤◌, ◌≡◌, ◌≢◌, ◌⊎◌, inl, inr, refl, ap, true, false, Option, none, some, List, [],
  ◌∷◌, length, arith, Result, ok, err,
}
use platform_agent.Bytes.{Bytes}
use platform_agent.PtyExec.ArgPolicy.{
  ArgError, ValueSpec, CommandSpec, Round, flag_alone, flag_and_value, operand, ascii_lower,
  contains, lookup, accepts, is_arg_flag, is_none_rule, round, check_value, check_value_flag,
  finish, evaluate_from,
}
use platform_agent.PtyExec.ArgPolicy.Grammar.{alone, with_value, host, IsFlag, IsPermitted, Parse}

module _ (s : CommandSpec) where
  round_alone :
      (count : ℕ) (tok : Bytes) (next : Option Bytes)
      → round s count tok next ≡ ok flag_alone
      → IsPermitted s (alone tok)
  unfolding round
  round_alone count tok none h = ground arith
  round_alone count tok (some v) h = ground arith

  value_of_check :
      (o : Option ValueSpec) (v : Bytes)
      → check_value_flag o (some v) ≡ ok flag_and_value
      → (vspec : ValueSpec) × (o ≡ some vspec)
        × (accepts vspec v ≡ true)
        × (length v ≢ 0)
        × (is_arg_flag v ≡ false)
  unfolding check_value_flag check_value
  value_of_check none v h = cc
  value_of_check (some vspec) v h = (vspec, refl, ground arith, ground arith, ground arith)

  IsFlag-of_round :
      (count : ℕ) (tok v : Bytes)
      → round s count tok (some v) ≡ ok flag_and_value
      → IsFlag s tok
        × (contains (ascii_lower tok) s.valueless_flags ≡ false)
        × (check_value_flag (lookup (ascii_lower tok) s.value_flags) (some v) ≡ ok flag_and_value)
  unfolding round
  IsFlag-of_round count tok v h = ground arith

  round_value :
      (count : ℕ) (tok v : Bytes)
      → round s count tok (some v) ≡ ok flag_and_value
      → IsPermitted s (with_value tok v)
  round_value count tok v h =
      let (flag, takes, checked) = IsFlag-of_round count tok v h in
      let (vspec, found, accepted, nonempty, plain) = value_of_check _ v checked in
      (flag, takes, (vspec, found, accepted), nonempty, plain)

  round_value_none : (count : ℕ) (tok : Bytes) → round s count tok none ≢ ok flag_and_value
  unfolding round
  round_value_none count tok h = ground arith

  round_host :
      (count : ℕ) (tok : Bytes) (next : Option Bytes)
      → round s count tok next ≡ ok operand
      → IsPermitted s (host tok)
        × (is_none_rule s.operand_rule ≡ false)
        × (count + 1 ≤ s.max_operands)
  unfolding round
  round_host count tok none h = ground arith
  round_host count tok (some v) h = ground arith

  -- What an accepted round of the loop was.
  data Accepted (count : ℕ) (tok value : Bytes) (rest : List Bytes) : Type 0 where
    by_flag :
        IsPermitted s (alone tok)
        → evaluate_from s count (value ∷ rest) ≡ ok tt
        → Accepted count tok value rest
    by_value :
        IsPermitted s (with_value tok value)
        → evaluate_from s count rest ≡ ok tt
        → Accepted count tok value rest
    by_host :
        IsPermitted s (host tok)
        → is_none_rule s.operand_rule ≡ false
        → count + 1 ≤ s.max_operands
        → evaluate_from s (suc count) (value ∷ rest) ≡ ok tt
        → Accepted count tok value rest

  Accepted-round :
      (count : ℕ) (tok value : Bytes) (rest : List Bytes)
      → evaluate_from s count (tok ∷ value ∷ rest) ≡ ok tt
      → Accepted count tok value rest
  unfolding evaluate_from
  Accepted-round count tok value rest h = go (round s count tok (some value)) refl
    where
      go :
          (r : Result ArgError Round)
          → round s count tok (some value) ≡ r
          → Accepted count tok value rest
      go (err e) q = absurd (ground arith)
      go (ok flag_alone) q = by_flag (round_alone count tok (some value) q) (ground arith)
      go (ok flag_and_value) q = by_value (round_value count tok value q) (ground arith)
      go (ok operand) q =
          let (permitted, hosted, room) = round_host count tok (some value) q in
          by_host permitted hosted room (ground arith)

  accepted_last :
      (count : ℕ) (tok : Bytes)
      → evaluate_from s count (tok ∷ []) ≡ ok tt
      → (IsPermitted s (alone tok) × (finish s count ≡ ok tt))
        ⊎ (IsPermitted s (host tok)
            × (is_none_rule s.operand_rule ≡ false)
            × (count + 1 ≤ s.max_operands)
            × (finish s (suc count) ≡ ok tt))
  unfolding evaluate_from
  accepted_last count tok h = go (round s count tok none) refl
    where
      go :
          (r : Result ArgError Round)
          → round s count tok none ≡ r
          → (IsPermitted s (alone tok) × (finish s count ≡ ok tt))
            ⊎ (IsPermitted s (host tok)
                × (is_none_rule s.operand_rule ≡ false)
                × (count + 1 ≤ s.max_operands)
                × (finish s (suc count) ≡ ok tt))
      go (err e) q = absurd (ground arith)
      go (ok flag_alone) q = inl (round_alone count tok none q, ground arith)
      go (ok flag_and_value) q = absurd (round_value_none count tok q)
      go (ok operand) q =
          let (permitted, hosted, room) = round_host count tok none q in
          inr (permitted, hosted, room, ground arith)

  Parse-nil : (count : ℕ) → finish s count ≡ ok tt → Parse s count []
  unfolding finish
  Parse-nil count h = record {
    items = [];
    printed = refl;
    permitted = tt;
    bounded = inl refl;
    required = λ r. ground arith;
  }

  Parse-alone :
      (count : ℕ) (tok : Bytes) (rest : List Bytes)
      → IsPermitted s (alone tok)
      → Parse s count rest
      → Parse s count (tok ∷ rest)
  Parse-alone count tok rest h p = record {
    items = alone tok ∷ p.items;
    printed = ap (λ t. tok ∷ t) p.printed;
    permitted = (h, p.permitted);
    bounded = p.bounded;
    required = p.required;
  }

  Parse-value :
      (count : ℕ) (tok value : Bytes) (rest : List Bytes)
      → IsPermitted s (with_value tok value)
      → Parse s count rest
      → Parse s count (tok ∷ value ∷ rest)
  Parse-value count tok value rest h p = record {
    items = with_value tok value ∷ p.items;
    printed = ap (λ t. tok ∷ value ∷ t) p.printed;
    permitted = (h, p.permitted);
    bounded = p.bounded;
    required = p.required;
  }

  Parse-host :
      (count : ℕ) (tok : Bytes) (rest : List Bytes)
      → IsPermitted s (host tok)
      → is_none_rule s.operand_rule ≡ false
      → count + 1 ≤ s.max_operands
      → Parse s (suc count) rest
      → Parse s count (tok ∷ rest)
  Parse-host count tok rest h hosted room p = record {
    items = host tok ∷ p.items;
    printed = ap (λ t. tok ∷ t) p.printed;
    permitted = (h, p.permitted);
    bounded = inr (hosted, elim p.bounded [ inl e ↦ omega arith | inr b ↦ omega arith ]);
    required = λ r. omega arith;
  }

  pub Parse-of_ok :
      (count : ℕ) (args : List Bytes) → evaluate_from s count args ≡ ok tt → Parse s count args
  Parse-of_ok count [] h = Parse-nil count (unfold evaluate_from in h)
  Parse-of_ok count (tok ∷ []) h = elim (accepted_last count tok h) [
    | inl (p, f) ↦ Parse-alone count tok [] p (Parse-nil count f)
    | inr (p, hosted, room, f) ↦ Parse-host count tok [] p hosted room (Parse-nil (suc count) f)
  ]
  Parse-of_ok count (tok ∷ value ∷ rest) h = elim (Accepted-round count tok value rest h) [
    | by_flag p q ↦ Parse-alone count tok (value ∷ rest) p (Parse-of_ok count (value ∷ rest) q)
    | by_value p q ↦ Parse-value count tok value rest p (Parse-of_ok count rest q)
    | by_host p hosted room q ↦
        Parse-host count tok (value ∷ rest) p hosted room (Parse-of_ok (suc count) (value ∷ rest) q)
  ]
