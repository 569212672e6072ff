-- ===== src/SelfUpdate/Signer/Trusted.antt =====
-- Which signers and which evidence pass.
use platform_agent.Prelude.{
  ◌≡◌, ◌≢◌, ◌↔◌, ◌⊎◌, inl, inr, true, false, List, [], ◌∷◌, length, arith, Bool-cases,
}
use platform_agent.Bytes.{Bytes, beq, beq_iff}
use platform_agent.Bytes.Trim.{trim_space}
use platform_agent.SelfUpdate.Signer.{
  tier_trusted, AuthenticodeEvidence, authenticode_allowed, evaluate_authenticode_policy,
  signer_allowed, normalize_thumbprint, any_thumbprint, allowlist_contains, evaluate_signer_policy,
}

-- What the evidence must show: a chain for a trusted tier, the code-signing use, and validity at
-- the time of a trusted timestamp or now.
pub record IsSound (ev : AuthenticodeEvidence) (tier : Bytes) : Type 0 where
  pub chain : beq tier tier_trusted ≡ true → ev.chain_valid ≡ true
  pub code_signing : ev.has_code_signing_eku ≡ true
  pub at_signing : ev.timestamped ≡ true → ev.signing_time_valid ≡ true
  pub now : ev.timestamped ≡ false → ev.current_time_valid ≡ true

IsSound-parts :
    (ev : AuthenticodeEvidence) (tier : Bytes)
    → evaluate_authenticode_policy ev tier ≡ authenticode_allowed
    → IsSound ev tier
unfolding evaluate_authenticode_policy
IsSound-parts ev tier h = record {
  chain = λ q. ground arith;
  code_signing = ground arith;
  at_signing = λ q. ground arith;
  now = λ q. ground arith;
}

-- The evidence passes exactly when it shows a valid chain if the tier is the trusted one, the code
-- signing use, and validity at signing time if it is timestamped and now if it is not.
pub evaluate_authenticode_policy-IsSound :
    (ev : AuthenticodeEvidence) (tier : Bytes)
    → (evaluate_authenticode_policy ev tier ≡ authenticode_allowed) ↔ IsSound ev tier
unfolding evaluate_authenticode_policy
evaluate_authenticode_policy-IsSound ev tier =
    (IsSound-parts ev tier, λ h. ground (arith, h.chain, h.code_signing, h.at_signing, h.now))

-- A member of the list has the property.
abbrev pub Any : (Bytes → Type 0) → List Bytes → Type 0
Any P [] = ⊥
Any P (t ∷ ts) = P t ⊎ Any P ts

module _ (unicode_upper : Bytes → Bytes) where
  -- An entry of the local list is the actual signer's, up to case, colons and blanks.
  abbrev pub IsListed : Bytes → List Bytes → Type 0
  IsListed actual allow =
      Any (λ t. normalize_thumbprint unicode_upper t ≡ normalize_thumbprint unicode_upper actual)
        allow

  some_of :
      (want : Bytes) (ts : List Bytes)
      → any_thumbprint unicode_upper ts want ≡ true
      → Any (λ t. normalize_thumbprint unicode_upper t ≡ want) ts
  unfolding any_thumbprint
  some_of want [] h = cc
  some_of want (t ∷ ts) h = elim (Bool-cases (beq (normalize_thumbprint unicode_upper t) want)) [
    | inl q ↦ inl ((beq_iff _ _).0 q)
    | inr q ↦ inr (some_of want ts (ground (arith, q, h)))
  ]

  of_some :
      (want : Bytes) (ts : List Bytes)
      → Any (λ t. normalize_thumbprint unicode_upper t ≡ want) ts
      → any_thumbprint unicode_upper ts want ≡ true
  unfolding any_thumbprint
  of_some want [] h = absurd h
  of_some want (t ∷ ts) (inl q) =
      ground (arith, (beq_iff (normalize_thumbprint unicode_upper t) want).1 q)
  of_some want (t ∷ ts) (inr h) = ground (arith, of_some want ts h)

  signer_tests :
      (actual : Bytes) (allow : List Bytes)
      → (evaluate_signer_policy unicode_upper actual allow ≡ signer_allowed) ↔ (
          (length (trim_space actual) ≢ 0)
          × (length (normalize_thumbprint unicode_upper actual) ≢ 0)
          × (any_thumbprint unicode_upper allow (normalize_thumbprint unicode_upper actual) ≡ true))
  unfolding evaluate_signer_policy allowlist_contains
  signer_tests actual allow = (λ h. ground arith, λ h. ground arith)

  -- The signer passes exactly when it is not blank, is not empty once normalized, and an entry of the
  -- local list is the same once normalized: nothing that the update claims of itself plays a part.
  pub evaluate_signer_policy-IsListed :
      (actual : Bytes) (allow : List Bytes)
      → (evaluate_signer_policy unicode_upper actual allow ≡ signer_allowed) ↔ (
          (length (trim_space actual) ≢ 0)
          × (length (normalize_thumbprint unicode_upper actual) ≢ 0)
          × IsListed actual allow)
  evaluate_signer_policy-IsListed actual allow = (
    λ h. let (a, b, c) = (signer_tests actual allow).0 h in (a, b, some_of _ allow c),
    λ h. (signer_tests actual allow).1 (h.0, h.1, of_some _ allow h.2),
  )
