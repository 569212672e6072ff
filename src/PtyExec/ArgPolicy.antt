-- ===== src/PtyExec/ArgPolicy.antt =====
-- internal/remotebridge/ptyexec/argpolicy.go: the closed grammar of each command's arguments.
pub mod Grammar
pub mod Sound
pub mod Complete
pub mod Forbidden
use platform_agent.Prelude.{
  ℕ, suc, ◌+◌, ◌*◌, ◌-◌, Bool, true, false, not, ◌&&◌, ◌||◌, Option, none, some, List, [], ◌∷◌, map,
  length, ltb, leb, ◌==◌, if◌then◌else◌, Result, ok, err,
}
use platform_agent.Prelude.Int.{ℤ, pos, leb_ℤ}
use platform_agent.Bytes.{Bytes, beq}
use platform_agent.Bytes.Text.{codes, is_upper, is_lower, is_digit, ascii_lower_byte}

pub data ArgError : Type 0 where
  forbidden_flag unknown_flag disallowed_value disallowed_operand malformed : ArgError

abbrev pub arg_max_value_len : ℕ
arg_max_value_len = 64

pub data OperandRule : Type 0 where
  operand_none operand_optional_host operand_required_host : OperandRule

pub record ValueSpec : Type 0 where
  pub integer : Bool
  pub min : ℤ  -- int64, as `max`
  pub max : ℤ
  pub enum : List Bytes  -- lower-cased
  pub sensitive : Bool

unfoldable pub ascii_lower : Bytes → Bytes
unfolding ascii_lower_byte
ascii_lower = map ascii_lower_byte

-- A Go set of strings as the list of its members.
unfoldable pub contains : Bytes → List Bytes → Bool
contains k [] = false
contains k (x ∷ xs) = beq k x || contains k xs

abbrev pub int_range : ℤ → ℤ → ValueSpec
int_range lo hi = record { integer = true; min = lo; max = hi; enum = []; sensitive = false }

unfoldable pub one_of : List Bytes → ValueSpec
one_of values = record {
  integer = false;
  min = pos 0;
  max = pos 0;
  enum = map ascii_lower values;
  sensitive = false;
}

-- ^\d{1,18}$
unfoldable pub all_digits : Bytes → Bool
unfolding is_digit
all_digits [] = true
all_digits (c ∷ s) = is_digit c && all_digits s

unfoldable pub is_uint : Bytes → Bool
unfolding all_digits
is_uint s = all_digits s && (leb 1 (length s) && leb (length s) 18)

-- strconv.ParseInt(value, 10, 64) of at most 18 digits: it is below 2^63, so it has no error.
unfoldable pub parse_decimal : ℕ → Bytes → ℕ
parse_decimal n [] = n
parse_decimal n (c ∷ s) = parse_decimal (n * 10 + (c - b'0')) s

unfoldable pub accepts : ValueSpec → Bytes → Bool
unfolding is_uint parse_decimal
accepts s value =
    if length value == 0 || ltb arg_max_value_len (length value)
    then false
    else if s.integer
    then is_uint value
      && (leb_ℤ s.min (pos (parse_decimal 0 value)) && leb_ℤ (pos (parse_decimal 0 value)) s.max)
    else contains (ascii_lower value) s.enum

pub record CommandSpec : Type 0 where
  pub valueless_flags : List Bytes
  pub value_flags : List (Bytes × ValueSpec)
  pub forbidden_flags : List Bytes
  pub operand_rule : OperandRule
  pub max_operands : ℕ

-- A Go map with string keys as the list of its entries.
module _ {ℓ} {V : Type ℓ} where
  unfoldable pub lookup : Bytes → List (Bytes × V) → Option V
  lookup k [] = none
  lookup k ((j, v) ∷ m) = if beq k j then some v else lookup k m

-- strings.HasPrefix(token, "/") || strings.HasPrefix(token, "-")
unfoldable pub is_arg_flag : Bytes → Bool
is_arg_flag [] = false
is_arg_flag (c ∷ s) = c == b'/' || c == b'-'

-- ^[A-Za-z0-9._:-]{1,253}$
is_host_byte : ℕ → Bool
unfolding is_upper is_lower is_digit
is_host_byte c =
    is_upper c || is_lower c || is_digit c || c == b'.' || c == b'_' || c == b':' || c == b'-'

all_host : Bytes → Bool
unfolding is_host_byte
all_host [] = true
all_host (c ∷ s) = is_host_byte c && all_host s

unfoldable pub is_host : Bytes → Bool
unfolding all_host
is_host s = all_host s && (leb 1 (length s) && leb (length s) 253)

abbrev pub is_none_rule : OperandRule → Bool
is_none_rule operand_none = true
is_none_rule _ = false

abbrev pub is_required_rule : OperandRule → Bool
is_required_rule operand_required_host = true
is_required_rule _ = false

-- What one round of the loop of `evaluate` does with its token: a flag with no value, a flag that
-- takes the next token, or an operand.
pub data Round : Type 0 where
  flag_alone flag_and_value operand : Round

-- The value of a value flag is the next token.
check_value : ValueSpec → Option Bytes → Result ArgError Round
check_value vspec none = err malformed
check_value vspec (some value) =
    if length value == 0 || is_arg_flag value || not (accepts vspec value)
    then err disallowed_value
    else ok flag_and_value

check_value_flag : Option ValueSpec → Option Bytes → Result ArgError Round
check_value_flag none next = err unknown_flag
check_value_flag (some vspec) next = check_value vspec next

check_flag : CommandSpec → Bytes → Option Bytes → Result ArgError Round
check_flag s flag next =
    if contains flag s.forbidden_flags
    then err forbidden_flag
    else if contains flag s.valueless_flags
    then ok flag_alone
    else check_value_flag (lookup flag s.value_flags) next

-- `count` is the number of operands before this one.
check_operand : CommandSpec → ℕ → Bytes → Result ArgError Round
check_operand s count tok =
    if is_none_rule s.operand_rule || ltb s.max_operands (count + 1)
    then err disallowed_operand
    else if not (is_host tok)
    then err disallowed_operand
    else ok operand

unfoldable pub round : CommandSpec → ℕ → Bytes → Option Bytes → Result ArgError Round
unfolding check_value check_value_flag check_flag check_operand
round s count tok next =
    if length tok == 0 || ltb arg_max_value_len (length tok)
    then err malformed
    else if is_arg_flag tok
    then check_flag s (ascii_lower tok) next
    else check_operand s count tok

finish : CommandSpec → ℕ → Result ArgError (Unit {0})
finish s count =
    if is_required_rule s.operand_rule && count == 0 then err disallowed_operand else ok tt

-- The loop over the arguments from the current one on.
unfoldable pub evaluate_from : CommandSpec → ℕ → List Bytes → Result ArgError (Unit {0})
unfolding finish
evaluate_from s count [] = finish s count
evaluate_from s count (tok ∷ []) = elim (round s count tok none) [
  | err e ↦ err e
  | ok flag_alone ↦ evaluate_from s count []
  | ok flag_and_value ↦ err malformed
  | ok operand ↦ evaluate_from s (suc count) []
]
evaluate_from s count (tok ∷ value ∷ rest) = elim (round s count tok (some value)) [
  | err e ↦ err e
  | ok flag_alone ↦ evaluate_from s count (value ∷ rest)
  | ok flag_and_value ↦ evaluate_from s count rest
  | ok operand ↦ evaluate_from s (suc count) (value ∷ rest)
]

unfoldable pub evaluate : CommandSpec → List Bytes → Result ArgError (Unit {0})
unfolding evaluate_from
evaluate s args = evaluate_from s 0 args
