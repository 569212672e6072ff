-- ===== src/SelfUpdate/Preflight/Proceeds.antt =====
-- When an update goes on to its download.
use platform_agent.Prelude.{
  ◌≡◌, ◌≢◌, ◌↔◌, ◌⊎◌, refl, sym, ap, ◌∙◌, Bool, true, false, Option, none, some, length, arith,
  Result, ok, err,
}
use platform_agent.Bytes.{Bytes, beq}
use platform_agent.Bytes.Text.{codes}
use platform_agent.Bytes.Trim.{trim_space}
use platform_agent.SelfUpdate.Version.{
  VersionDecision, allowed, noop, refused, evaluate_version_policy,
}
use platform_agent.SelfUpdate.Version.Policy.{IsUpgrade, evaluate_version_policy-IsUpgrade}
use platform_agent.SelfUpdate.Url.{Url, UrlRefusal, CanonicalUrl, equal_fold, check_url}
use platform_agent.SelfUpdate.Url.Allowed.{Passes, canonical, check_url-Passes}
use platform_agent.SelfUpdate.Signer.{
  tier_trusted, tier_lab_only_evidence, TierPolicy, TierDecision, tier_allowed,
  evaluate_tier_policy, is_known_tier,
}
use platform_agent.SelfUpdate.Preflight.{
  UpdateAgentPayload, ShapeRefusal, validate_shape, PreflightInput, PreflightEvidence, proceed,
  url_gate, version_gate, tier_gate, shape_gate, evaluate_preflight,
}

-- The tier is trusted, or it is the lab's on a host that is in no domain and has opted in.
abbrev pub IsTier : Bytes → TierPolicy → Type 0
IsTier tier pol =
    (beq tier tier_trusted ≡ true)
    ⊎ ((beq tier tier_lab_only_evidence ≡ true)
        × (pol.allow_lab_only ≡ true)
        × (pol.domain_joined ≡ false))

IsTier-iff :
    (tier : Bytes) (pol : TierPolicy)
    → (tier_allowed (evaluate_tier_policy tier pol) ≡ true) ↔ IsTier tier pol
unfolding evaluate_tier_policy
IsTier-iff tier pol = (λ h. ground arith, λ h. ground arith)

-- The payload's required texts are not blank.
pub record IsShaped (p : UpdateAgentPayload) : Type 0 where
  pub target : length (trim_space p.target_version) ≢ 0
  pub binary : length (trim_space p.binary_url) ≢ 0
  pub digest : length (trim_space p.claimed_sha256) ≢ 0

shape_iff :
    (p : UpdateAgentPayload)
    → (validate_shape p ≡ none) ↔ (
        ((length (trim_space p.target_version) ≢ 0)
          × (length (trim_space p.binary_url) ≢ 0)
          × (length (trim_space p.claimed_sha256) ≢ 0))
        × (is_known_tier p.signing_tier ≡ true))
unfolding validate_shape
shape_iff p = (λ h. ground arith, λ h. ground arith)

tier_known : (tier : Bytes) (pol : TierPolicy) → IsTier tier pol → is_known_tier tier ≡ true
unfolding is_known_tier
tier_known tier pol h = ground arith

module _ (parse_ip : Bytes → Bool) (url_parse : Bytes → Option Url) where
  -- Every gate, each by what it asks.
  pub record IsClear (i : PreflightInput) : Type 0 where
    pub windows : equal_fold (trim_space i.platform) (codes "windows") ≡ true
    pub shaped : IsShaped i.payload
    pub tier : IsTier i.payload.signing_tier i.tier_policy
    pub upgrade : IsUpgrade i.current_version i.payload.target_version i.max_seen_version
    pub download : Passes parse_ip url_parse i.url_policy i.payload.binary_url

  -- What a clean preflight hands on.
  abbrev pub evidence_of : PreflightInput → PreflightEvidence
  evidence_of i = record {
    old_version = i.current_version;
    target_version = i.payload.target_version;
    signing_tier = i.payload.signing_tier;
  }

  through_url :
      (i : PreflightInput) (e : PreflightEvidence) (r : Result UrlRefusal CanonicalUrl)
      → check_url parse_ip url_parse i.payload.binary_url i.url_policy ≡ r
      → url_gate parse_ip url_parse i r ≡ proceed e
      → Passes parse_ip url_parse i.url_policy i.payload.binary_url × (e ≡ evidence_of i)
  unfolding url_gate
  through_url i e (err x) q h = absurd cc
  through_url i e (ok c) q h = (
    ((check_url-Passes parse_ip url_parse i.payload.binary_url i.url_policy c).0 q).0,
    proceed_injective h,
  )
    where
      proceed_injective : proceed (evidence_of i) ≡ proceed e → e ≡ evidence_of i
      proceed_injective q = cc

  through_version :
      (i : PreflightInput) (e : PreflightEvidence) (d : VersionDecision)
      → version_gate parse_ip url_parse i d ≡ proceed e
      → (d ≡ allowed)
        × (Passes parse_ip url_parse i.url_policy i.payload.binary_url × (e ≡ evidence_of i))
  unfolding version_gate
  through_version i e noop h = absurd cc
  through_version i e (refused r) h = absurd cc
  through_version i e allowed h = (
    refl,
    through_url i e (check_url parse_ip url_parse i.payload.binary_url i.url_policy) refl h,
  )

  through_tier :
      (i : PreflightInput) (e : PreflightEvidence) (d : TierDecision)
      → tier_gate parse_ip url_parse i d ≡ proceed e
      → (tier_allowed d ≡ true)
        × (version_gate parse_ip url_parse i (
              evaluate_version_policy i.current_version i.payload.target_version i.max_seen_version)
            ≡ proceed e)
  unfolding tier_gate
  through_tier i e d h = (ground arith, ground arith)

  through_shape :
      (i : PreflightInput) (e : PreflightEvidence) (o : Option ShapeRefusal)
      → shape_gate parse_ip url_parse i o ≡ proceed e
      → (o ≡ none)
        × (tier_gate parse_ip url_parse i
              (evaluate_tier_policy i.payload.signing_tier i.tier_policy)
            ≡ proceed e)
  unfolding shape_gate
  through_shape i e (some r) h = absurd cc
  through_shape i e none h = (refl, h)

  through_platform :
      (i : PreflightInput) (e : PreflightEvidence)
      → evaluate_preflight parse_ip url_parse i ≡ proceed e
      → (equal_fold (trim_space i.platform) (codes "windows") ≡ true)
        × (shape_gate parse_ip url_parse i (validate_shape i.payload) ≡ proceed e)
  unfolding evaluate_preflight
  through_platform i e h = (ground arith, ground arith)

  IsClear-of_proceed :
      (i : PreflightInput) (e : PreflightEvidence)
      → evaluate_preflight parse_ip url_parse i ≡ proceed e
      → IsClear i × (e ≡ evidence_of i)
  IsClear-of_proceed i e h =
      let (windows, a) = through_platform i e h in
      let (shape, b) = through_shape i e (validate_shape i.payload) a in
      let (tier, c) =
        through_tier i e (evaluate_tier_policy i.payload.signing_tier i.tier_policy) b in
      let (up, (download, same)) = through_version i e _ c in
      let ((target, binary, digest), known) = (shape_iff i.payload).0 shape in
      (
        record {
          windows = windows;
          shaped = record { target = target; binary = binary; digest = digest };
          tier = (IsTier-iff i.payload.signing_tier i.tier_policy).0 tier;
          upgrade =
              (evaluate_version_policy-IsUpgrade i.current_version i.payload.target_version
                  i.max_seen_version).0
                up;
          download = download;
        },
        same,
      )

  proceed_of_clear :
      (i : PreflightInput)
      → IsClear i
      → evaluate_preflight parse_ip url_parse i ≡ proceed (evidence_of i)
  unfolding evaluate_preflight shape_gate tier_gate version_gate url_gate
  proceed_of_clear i c =
      rw
        (
          c.windows,
          (shape_iff i.payload).1 (
            (c.shaped.target, c.shaped.binary, c.shaped.digest),
            tier_known i.payload.signing_tier i.tier_policy c.tier,
          ),
          (IsTier-iff i.payload.signing_tier i.tier_policy).1 c.tier,
          (evaluate_version_policy-IsUpgrade i.current_version i.payload.target_version
                i.max_seen_version).1
              c.upgrade,
          (check_url-Passes parse_ip url_parse i.payload.binary_url i.url_policy
                (canonical parse_ip i.payload.binary_url c.download.url)).1
              (c.download, refl),
        )
        refl

  -- An update goes on to its download exactly when the platform is Windows, its required texts are not
  -- blank, its tier is trusted or locally permitted, its version is an upgrade above the high-water
  -- mark, and its address passes; and it hands on the current version, the target and the tier.
  pub evaluate_preflight-IsClear :
      (i : PreflightInput) (e : PreflightEvidence)
      → (evaluate_preflight parse_ip url_parse i ≡ proceed e) ↔ (IsClear i × (e ≡ evidence_of i))
  evaluate_preflight-IsClear i e =
      (IsClear-of_proceed i e, λ h. proceed_of_clear i h.0 ∙ ap proceed (sym h.1))
