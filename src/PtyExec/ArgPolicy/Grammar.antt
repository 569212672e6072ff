-- ===== src/PtyExec/ArgPolicy/Grammar.antt =====
-- The argument lists that the policy accepts, described by what they are made of.
use platform_agent.Prelude.{
  ℕ, suc, ◌+◌, ◌≤◌, ◌≡◌, ◌≢◌, ◌⊎◌, true, false, some, List, [], ◌∷◌, length, All,
}
use platform_agent.Bytes.{Bytes}
use platform_agent.PtyExec.ArgPolicy.{
  ValueSpec, CommandSpec, arg_max_value_len, ascii_lower, contains, lookup, accepts, is_arg_flag,
  is_host, is_none_rule, is_required_rule,
}

-- One item of an argument list.
pub data Item : Type 0 where
  alone : Bytes → Item
  with_value : Bytes → Bytes → Item
  host : Bytes → Item

abbrev pub print : List Item → List Bytes
print [] = []
print (alone f ∷ is) = f ∷ print is
print (with_value f v ∷ is) = f ∷ v ∷ print is
print (host h ∷ is) = h ∷ print is

abbrev pub hosts : List Item → ℕ
hosts [] = 0
hosts (alone f ∷ is) = hosts is
hosts (with_value f v ∷ is) = hosts is
hosts (host h ∷ is) = suc (hosts is)

-- A token of 1 to 64 bytes.
abbrev pub IsSized : Bytes → Type 0
IsSized t = (length t ≢ 0) × (length t ≤ arg_max_value_len)

-- A flag in any case that is not forbidden.
abbrev pub IsFlag : CommandSpec → Bytes → Type 0
IsFlag s f =
    IsSized f × (is_arg_flag f ≡ true) × (contains (ascii_lower f) s.forbidden_flags ≡ false)

abbrev pub IsPermitted : CommandSpec → Item → Type 0
IsPermitted s (alone f) = IsFlag s f × (contains (ascii_lower f) s.valueless_flags ≡ true)
IsPermitted s (with_value f v) =
    IsFlag s f
    × (contains (ascii_lower f) s.valueless_flags ≡ false)
    × ((vspec : ValueSpec) × (lookup (ascii_lower f) s.value_flags ≡ some vspec)
        × (accepts vspec v ≡ true))
    × (length v ≢ 0)
    × (is_arg_flag v ≡ false)
IsPermitted s (host h) = IsSized h × (is_arg_flag h ≡ false) × (is_host h ≡ true)

-- `args` is a list of permitted items; `count` hosts came before it.
pub record Parse (s : CommandSpec) (count : ℕ) (args : List Bytes) : Type 0 where
  pub items : List Item
  pub printed : print items ≡ args
  pub permitted : All (IsPermitted s) items
  pub bounded :
      (hosts items ≡ 0)
      ⊎ ((is_none_rule s.operand_rule ≡ false) × (count + hosts items ≤ s.max_operands))
  pub required : is_required_rule s.operand_rule ≡ true → count + hosts items ≢ 0
