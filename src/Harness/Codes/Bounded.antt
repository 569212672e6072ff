-- ===== src/Harness/Codes/Bounded.antt =====
-- Only fixed codes reach the broker, whatever text an error has.
use platform_agent.Prelude.{
  ◌≡◌, refl, Bool, true, false, List, [], ◌∷◌, ◌++◌, map, ◌||◌, All, if◌then◌else◌,
}
use platform_agent.Bytes.{Bytes, beq, beq_refl, eq_of_beq}
use platform_agent.Bytes.Text.{codes}
use platform_agent.Operation.Verify.{Reason}
use platform_agent.PtyExec.PtyOp.{HandleError}
use platform_agent.Harness.Codes.{
  reason_text, authz_reasons, authz_reason_code, first_reason, contains, dispatch_error_code,
  matches, failed, joined_text, is_not_authorized, is_not_allowlisted, is_arg_policy,
  is_invalid_operation, is_empty_output,
}
use platform_agent.Harness.ViewCodes.{listed}
use platform_agent.Harness.ViewCodes.Preserved.{listed_later, listed_here, listed_second}

abbrev pub authz_codes : List Bytes
authz_codes = codes "not-authorized" ∷ map reason_text authz_reasons

abbrev pub dispatch_codes : List Bytes
dispatch_codes =
    failed "not-allowlisted"
    ∷ failed "arg-policy"
    ∷ failed "invalid-operation"
    ∷ failed "empty-output"
    ∷ failed "exec-failed"
    ∷ map (λ c. codes "operation-dispatch-failed:" ++ c) authz_codes

or_right : (a b : Bool) → a ≡ false → (a || b) ≡ true → b ≡ true
or_right false b e h = h
or_right true b e h = cc

listed_map :
    (front : Bytes) (cs : List Bytes) (c : Bytes)
    → listed cs c ≡ true
    → listed (map (λ d. front ++ d) cs) (front ++ c) ≡ true
unfolding listed
listed_map front [] c h = cc
listed_map front (d ∷ cs) c h = by_head (beq c d) refl (listed_map front cs c)
  where
    by_head :
        (b : Bool)
        → beq c d ≡ b
        → (listed cs c ≡ true → listed (map (λ x. front ++ x) cs) (front ++ c) ≡ true)
        → listed (map (λ x. front ++ x) (d ∷ cs)) (front ++ c) ≡ true
    by_head true e rest =
        let same : beq (front ++ c) (front ++ d) ≡ true =
          rw (eq_of_beq c d e) (beq_refl (front ++ d)) in
        rw same refl
    by_head false e rest = listed_later _ _ _ (rest (or_right (beq c d) (listed cs c) e h))

first_reason-listed :
    (rs : List Reason) (message : Bytes)
    → listed (codes "not-authorized" ∷ map reason_text rs) (first_reason rs message) ≡ true
unfolding first_reason
first_reason-listed [] message = listed_here _ _
first_reason-listed (r ∷ rs) message =
    by_test (contains message (reason_text r)) refl (first_reason-listed rs message)
  where
    by_test :
        (b : Bool)
        → contains message (reason_text r) ≡ b
        → listed (codes "not-authorized" ∷ map reason_text rs) (first_reason rs message) ≡ true
        → listed (codes "not-authorized" ∷ map reason_text (r ∷ rs)) (first_reason (r ∷ rs) message)
          ≡ true
    by_test true e rest = rw e (listed_later _ _ _ (listed_here (reason_text r) _))
    by_test false e rest = rw e (listed_second _ _ _ _ rest)

if-listed :
    (cs : List Bytes) (b : Bool) (x y : Bytes)
    → listed cs x ≡ true
    → listed cs y ≡ true
    → listed cs (if b then x else y) ≡ true
if-listed cs true x y h k = h
if-listed cs false x y h k = k

authz-listed :
    (message : Bytes)
    → listed dispatch_codes (codes "operation-dispatch-failed:" ++ authz_reason_code message) ≡ true
unfolding authz_reason_code
authz-listed message = listed_later _ _ _ (
    listed_later _ _ _ (
      listed_later _ _ _ (
        listed_later _ _ _ (
          listed_later _ _ _ (
            listed_map (codes "operation-dispatch-failed:") authz_codes _
              (first_reason-listed authz_reasons message))))))

failed-listed :
    All
      (λ c. listed dispatch_codes c ≡ true)
      (failed "not-allowlisted"
        ∷ failed "arg-policy"
        ∷ failed "invalid-operation"
        ∷ failed "empty-output"
        ∷ failed "exec-failed"
        ∷ [])
unfolding listed beq
failed-listed = (refl, (refl, (refl, (refl, (refl, tt)))))

-- However an operation fails and whatever text its errors carry, the code that the broker gets is one of
-- a fixed list: the list's five failures, or a reason of the gate.
pub dispatch_error_code-listed :
    (other_text : HandleError → Bytes) (e : HandleError) (es : List HandleError)
    → listed dispatch_codes (dispatch_error_code other_text (e ∷ es)) ≡ true
unfolding dispatch_error_code
dispatch_error_code-listed other_text e es =
    let known = failed-listed in
    if-listed dispatch_codes (matches errors is_not_authorized) _ _
      (authz-listed (joined_text other_text errors))
      (if-listed dispatch_codes (matches errors is_not_allowlisted) _ _ known.0 (
        if-listed dispatch_codes (matches errors is_arg_policy) _ _ known.1.0 (
          if-listed dispatch_codes (matches errors is_invalid_operation) _ _ known.1.1.0 (
            if-listed dispatch_codes (matches errors is_empty_output) _ _ known.1.1.1.0
              known.1.1.1.1.0))))
  where
    errors : List HandleError
    errors = e ∷ es
