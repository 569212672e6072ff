-- ===== src/SelfUpdate/Preflight.antt =====
-- internal/selfupdate/policy.go and the payload of contract.go: the gates that an update passes
-- before anything is downloaded, in their order. Of a refusal, the code and its gate are kept.
pub mod Proceeds
use platform_agent.Prelude.{
  ℕ, Bool, true, false, not, Option, none, some, List, [], ◌∷◌, length, if◌then◌else◌, ◌==◌, Result,
  ok, err,
}
use platform_agent.Prelude.Int.{ℤ}
use platform_agent.Bytes.{Bytes, beq}
use platform_agent.Bytes.Text.{codes}
use platform_agent.Bytes.Trim.{trim_space}
use platform_agent.SelfUpdate.Version.{
  VersionDecision, VersionRefusal, allowed, noop, refused, evaluate_version_policy,
}
use platform_agent.SelfUpdate.Url.{Url, UrlPolicy, UrlRefusal, CanonicalUrl, equal_fold, check_url}
use platform_agent.SelfUpdate.Signer.{
  TierPolicy, TierDecision, tier_allowed, is_known_tier, evaluate_tier_policy,
}

pub record UpdateAgentPayload : Type 0 where
  pub release_id : Bytes
  pub channel : Bytes
  pub ring : Bytes
  pub target_version : Bytes
  pub binary_url : Bytes
  pub claimed_sha256 : Bytes
  pub claimed_signer_thumbprint : Bytes
  pub signing_tier : Bytes
  pub max_bytes : ℤ
  pub claimed_accept_lab_only : Bool

pub data ShapeRefusal : Type 0 where
  no_target_version no_binary_url no_claimed_sha256 unknown_signing_tier : ShapeRefusal

unfoldable pub validate_shape : UpdateAgentPayload → Option ShapeRefusal
validate_shape p =
    if length (trim_space p.target_version) == 0
    then some no_target_version
    else if length (trim_space p.binary_url) == 0
    then some no_binary_url
    else if length (trim_space p.claimed_sha256) == 0
    then some no_claimed_sha256
    else if not (is_known_tier p.signing_tier)
    then some unknown_signing_tier
    else none

pub record PreflightInput : Type 0 where
  pub platform : Bytes
  pub current_version : Bytes
  pub max_seen_version : Bytes
  pub payload : UpdateAgentPayload
  pub url_policy : UrlPolicy
  pub tier_policy : TierPolicy

pub record PreflightEvidence : Type 0 where
  pub old_version : Bytes
  pub target_version : Bytes
  pub signing_tier : Bytes

pub data PreflightRefusal : Type 0 where
  unsupported_platform : PreflightRefusal
  shape_refused : ShapeRefusal → PreflightRefusal
  tier_refused : TierDecision → PreflightRefusal
  version_refused : VersionRefusal → PreflightRefusal
  url_refused : UrlRefusal → PreflightRefusal

-- Proceed, no operation for the current version, or a failed stage.
pub data PreflightDecision : Type 0 where
  proceed : PreflightEvidence → PreflightDecision
  preflight_noop : Bytes → PreflightDecision
  failed : PreflightRefusal → PreflightDecision

module _ (parse_ip : Bytes → Bool) (url_parse : Bytes → Option Url) where
  unfoldable pub url_gate : PreflightInput → Result UrlRefusal CanonicalUrl → PreflightDecision
  url_gate i (err e) = failed (url_refused e)
  url_gate i (ok u) = proceed (record {
    old_version = i.current_version;
    target_version = i.payload.target_version;
    signing_tier = i.payload.signing_tier;
  })

  unfoldable pub version_gate : PreflightInput → VersionDecision → PreflightDecision
  version_gate i noop = preflight_noop i.current_version
  version_gate i (refused r) = failed (version_refused r)
  version_gate i allowed =
      url_gate i (check_url parse_ip url_parse i.payload.binary_url i.url_policy)

  unfoldable pub tier_gate : PreflightInput → TierDecision → PreflightDecision
  tier_gate i d =
      if not (tier_allowed d)
      then failed (tier_refused d)
      else version_gate i
          (evaluate_version_policy i.current_version i.payload.target_version i.max_seen_version)

  unfoldable pub shape_gate : PreflightInput → Option ShapeRefusal → PreflightDecision
  shape_gate i (some r) = failed (shape_refused r)
  shape_gate i none = tier_gate i (evaluate_tier_policy i.payload.signing_tier i.tier_policy)

  unfoldable pub evaluate_preflight : PreflightInput → PreflightDecision
  evaluate_preflight i =
      if not (equal_fold (trim_space i.platform) (codes "windows"))
      then failed unsupported_platform
      else shape_gate i (validate_shape i.payload)
