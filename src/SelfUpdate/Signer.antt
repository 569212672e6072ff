-- ===== src/SelfUpdate/Signer.antt =====
-- internal/selfupdate/signerpolicy.go: the tier, the signature's evidence and the signer. The upper case of
-- a text with letters outside ASCII is a parameter.
pub mod Trusted
use platform_agent.Prelude.{
  ℕ, ◌-◌, Bool, true, false, not, ◌&&◌, ◌||◌, List, [], ◌∷◌, length, if◌then◌else◌, ◌==◌,
}
use platform_agent.Bytes.{Bytes, beq}
use platform_agent.Bytes.Text.{codes, is_lower, is_ascii}
use platform_agent.Bytes.Trim.{trim_space}

abbrev pub tier_trusted : Bytes
tier_trusted = codes "TRUSTED"

abbrev pub tier_lab_only_evidence : Bytes
tier_lab_only_evidence = codes "LAB_ONLY_EVIDENCE"

unfoldable pub is_known_tier : Bytes → Bool
is_known_tier t = beq t tier_trusted || beq t tier_lab_only_evidence

pub record TierPolicy : Type 0 where
  pub allow_lab_only : Bool
  pub domain_joined : Bool

pub data TierDecision : Type 0 where
  trusted_tier lab_tier_permitted lab_tier_refused unknown_tier : TierDecision

unfoldable pub evaluate_tier_policy : Bytes → TierPolicy → TierDecision
evaluate_tier_policy tier pol =
    if beq tier tier_trusted
    then trusted_tier
    else if beq tier tier_lab_only_evidence
    then (if pol.allow_lab_only && not pol.domain_joined
        then lab_tier_permitted
        else lab_tier_refused)
    else unknown_tier

abbrev pub tier_allowed : TierDecision → Bool
tier_allowed trusted_tier = true
tier_allowed lab_tier_permitted = true
tier_allowed _ = false

pub record AuthenticodeEvidence : Type 0 where
  pub chain_valid : Bool
  pub has_code_signing_eku : Bool
  pub signer_thumbprint : Bytes
  pub timestamped : Bool
  pub signing_time_valid : Bool
  pub current_time_valid : Bool

pub data AuthenticodeDecision : Type 0 where
  authenticode_allowed chain_invalid no_code_signing_eku validity_uncovered : AuthenticodeDecision

unfoldable pub evaluate_authenticode_policy : AuthenticodeEvidence → Bytes → AuthenticodeDecision
evaluate_authenticode_policy ev tier =
    if beq tier tier_trusted && not ev.chain_valid
    then chain_invalid
    else if not ev.has_code_signing_eku
    then no_code_signing_eku
    else if not (if ev.timestamped then ev.signing_time_valid else ev.current_time_valid)
    then validity_uncovered
    else authenticode_allowed

-- strings.ReplaceAll of one byte by nothing.
unfoldable pub remove_byte : ℕ → Bytes → Bytes
remove_byte b [] = []
remove_byte b (c ∷ s) = let rest = remove_byte b s in if c == b then rest else c ∷ rest

upper_byte : ℕ → ℕ
upper_byte c = if is_lower c then c - 32 else c

unfoldable pub ascii_upper : Bytes → Bytes
unfolding upper_byte
ascii_upper [] = []
ascii_upper (c ∷ s) = upper_byte c ∷ ascii_upper s

pub data SignerDecision : Type 0 where
  signer_allowed no_signer signer_not_allowed : SignerDecision

module _ (unicode_upper : Bytes → Bytes) where
  unfoldable pub to_upper : Bytes → Bytes
  to_upper s = if is_ascii s then ascii_upper s else unicode_upper s

  unfoldable pub normalize_thumbprint : Bytes → Bytes
  normalize_thumbprint s = remove_byte 32 (remove_byte b':' (to_upper (trim_space s)))

  unfoldable pub any_thumbprint : List Bytes → Bytes → Bool
  any_thumbprint [] want = false
  any_thumbprint (t ∷ ts) want = beq (normalize_thumbprint t) want || any_thumbprint ts want

  -- SignerAllowlist.Contains, on the list of thumbprints.
  unfoldable pub allowlist_contains : List Bytes → Bytes → Bool
  allowlist_contains thumbprints thumbprint =
      let want = normalize_thumbprint thumbprint in
      if length want == 0 then false else any_thumbprint thumbprints want

  unfoldable pub evaluate_signer_policy : Bytes → List Bytes → SignerDecision
  evaluate_signer_policy actual allow =
      if length (trim_space actual) == 0
      then no_signer
      else if not (allowlist_contains allow actual)
      then signer_not_allowed
      else signer_allowed
