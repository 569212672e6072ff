-- ===== src/SelfUpdate/Url/Allowed.antt =====
-- Which addresses pass.
use platform_agent.Prelude.{
  ◌≡◌, ◌≢◌, ◌↔◌, ◌⊎◌, inl, inr, refl, sym, ap, ◌∙◌, Bool, true, false, ◌&&◌, Option, none, some,
  List, [], ◌∷◌, length, arith, All, Result, ok, err, Bool-cases,
}
use platform_agent.Prelude.Int.{pos, ◌≤ℤ◌, ◌<ℤ◌, ltb_ℤ, leb_ℤ}
use platform_agent.Bytes.{Bytes, beq}
use platform_agent.Bytes.Text.{codes, is_ascii}
use platform_agent.Bytes.Trim.{trim_space}
use platform_agent.SelfUpdate.Url.{
  UrlPolicy, CanonicalUrl, Url, UrlRefusal, lower, equal_fold, host_allowed,
  is_forbidden_ip_literal_host, check_host, check_parsed, check_url, refusal, check_hops,
  first_refusal, check_redirect_chain,
}

module _ (parse_ip : Bytes → Bool) where
  -- All that is asked of a parsed address.
  pub record IsSafe (pol : UrlPolicy) (u : Url) : Type 0 where
    pub scheme : equal_fold u.scheme (codes "https") ≡ true
    pub no_user : u.has_user ≡ false
    pub hierarchical : length u.opaque ≡ 0
    pub named : length u.hostname ≢ 0
    pub ascii : is_ascii u.hostname ≡ true
    pub not_ip : is_forbidden_ip_literal_host parse_ip (lower u.hostname) ≡ false
    pub port : (length u.port ≡ 0) ⊎ (beq u.port (codes "443") ≡ true)
    pub allowed : host_allowed pol (lower u.hostname) ≡ true

  -- The canonical form keeps the lower-case host, the port and the path.
  abbrev pub canonical : Bytes → Url → CanonicalUrl
  canonical raw u = record {
    scheme = codes "https";
    host = lower u.hostname;
    port = u.port;
    path = u.path;
    raw = raw;
  }

  host_checks :
      (pol : UrlPolicy) (u : Url) (host raw : Bytes) (c : CanonicalUrl)
      → check_host parse_ip pol u host raw ≡ ok c
      → (is_forbidden_ip_literal_host parse_ip host ≡ false)
        × ((length u.port ≡ 0) ⊎ (beq u.port (codes "443") ≡ true))
        × (host_allowed pol host ≡ true)
        × (c ≡ record {
          scheme = codes "https";
          host = host;
          port = u.port;
          path = u.path;
          raw = raw;
        })
  unfolding check_host
  host_checks pol u host raw c h = ground arith

  record ParsedTests (pol : UrlPolicy) (u : Url) (raw : Bytes) (c : CanonicalUrl) : Type 0 where
    scheme : equal_fold u.scheme (codes "https") ≡ true
    no_user : u.has_user ≡ false
    hierarchical : length u.opaque ≡ 0
    named : length u.hostname ≢ 0
    ascii : is_ascii u.hostname ≡ true
    host : check_host parse_ip pol u (lower u.hostname) raw ≡ ok c

  parsed_tests :
      (pol : UrlPolicy) (raw : Bytes) (u : Url) (c : CanonicalUrl)
      → check_parsed parse_ip pol raw (some u) ≡ ok c
      → ParsedTests pol u raw c
  unfolding check_parsed
  parsed_tests pol raw u c h = record {
    scheme = ground arith;
    no_user = ground arith;
    hierarchical = ground arith;
    named = ground arith;
    ascii = ground arith;
    host = ground arith;
  }

  parsed-IsSafe :
      (pol : UrlPolicy) (raw : Bytes) (u : Url) (c : CanonicalUrl)
      → check_parsed parse_ip pol raw (some u) ≡ ok c
      → IsSafe pol u × (c ≡ canonical raw u)
  parsed-IsSafe pol raw u c h =
      let t = parsed_tests pol raw u c h in
      let (not_ip, port, allowed, same) = host_checks pol u (lower u.hostname) raw c t.host in
      (
        record {
          scheme = t.scheme;
          no_user = t.no_user;
          hierarchical = t.hierarchical;
          named = t.named;
          ascii = t.ascii;
          not_ip = not_ip;
          port = port;
          allowed = allowed;
        },
        same,
      )

  parsed_of_IsSafe :
      (pol : UrlPolicy) (raw : Bytes) (u : Url)
      → IsSafe pol u
      → check_parsed parse_ip pol raw (some u) ≡ ok (canonical raw u)
  unfolding check_parsed check_host
  parsed_of_IsSafe pol raw u h =
      ground
        (arith, h.scheme, h.no_user, h.hierarchical, h.named, h.ascii, h.not_ip, h.port, h.allowed)

  module _ (url_parse : Bytes → Option Url) where
    -- The trimmed text parses, and all that is asked of it holds.
    pub record Passes (pol : UrlPolicy) (raw : Bytes) : Type 0 where
      pub url : Url
      pub parsed : url_parse (trim_space raw) ≡ some url
      pub safe : IsSafe pol url

    Passes-of_ok :
        (pol : UrlPolicy) (raw : Bytes) (o : Option Url) (c : CanonicalUrl)
        → url_parse (trim_space raw) ≡ o
        → check_parsed parse_ip pol raw o ≡ ok c
        → (p : Passes pol raw) × (c ≡ canonical raw p.url)
    Passes-of_ok pol raw none c e h = (unfold check_parsed in absurd cc)
    Passes-of_ok pol raw (some u) c e h =
        let (safe, same) = parsed-IsSafe pol raw u c h in
        (record { url = u; parsed = e; safe = safe }, same)

    -- An address passes exactly when it parses and is safe: https with no user and no opaque part, an
    -- ASCII host that is no address literal and is on the list, and no port but 443; and it passes as
    -- its canonical form.
    pub check_url-Passes :
        (raw : Bytes) (pol : UrlPolicy) (c : CanonicalUrl)
        → (check_url parse_ip url_parse raw pol ≡ ok c)
          ↔ ((p : Passes pol raw) × (c ≡ canonical raw p.url))
    unfolding check_url
    check_url-Passes raw pol c = (
      Passes-of_ok pol raw (url_parse (trim_space raw)) c refl,
      λ h. rw h.0.parsed (parsed_of_IsSafe pol raw h.0.url h.0.safe ∙ ap ok (sym h.1)),
    )

    pub unrefused :
        (pol : UrlPolicy) (raw : Bytes)
        → (refusal parse_ip url_parse (check_url parse_ip url_parse raw pol) ≡ none)
          ↔ Passes pol raw
    unrefused pol raw = (there (check_url parse_ip url_parse raw pol) refl, back)
      where
        there :
            (r : Result UrlRefusal CanonicalUrl)
            → check_url parse_ip url_parse raw pol ≡ r
            → refusal parse_ip url_parse r ≡ none
            → Passes pol raw
        there (ok c) e h = ((check_url-Passes raw pol c).0 e).0
        there (err x) e h = absurd cc

        back :
            Passes pol raw
            → refusal parse_ip url_parse (check_url parse_ip url_parse raw pol) ≡ none
        back p = rw ((check_url-Passes raw pol (canonical raw p.url)).1 (p, refl)) refl

    first_iff :
        (a b : Option UrlRefusal)
        → (first_refusal parse_ip url_parse a b ≡ none) ↔ ((a ≡ none) × (b ≡ none))
    unfolding first_refusal
    first_iff none b = (λ h. (refl, h), λ h. h.1)
    first_iff (some e) b = (λ h. absurd cc, λ h. absurd cc)

    hops_iff :
        (pol : UrlPolicy) (hops : List Bytes)
        → (check_hops parse_ip url_parse hops pol ≡ none) ↔ All (Passes pol) hops
    unfolding check_hops
    hops_iff pol [] = (λ h. tt, λ h. refl)
    hops_iff pol (x ∷ xs) = (
      λ h. let (a, b) = (first_iff _ _).0 h in ((unrefused pol x).0 a, (hops_iff pol xs).0 b),
      λ h. (first_iff _ _).1 ((unrefused pol x).1 h.0, (hops_iff pol xs).1 h.1),
    )

    -- CheckRedirectChain accepts a chain exactly when it has at most the policy's count of redirects, or that
    -- count is negative, and the first address and every redirect's pass.
    pub check_redirect_chain-Passes :
        (initial : Bytes) (hops : List Bytes) (pol : UrlPolicy)
        → (check_redirect_chain parse_ip url_parse initial hops pol ≡ none) ↔ (
            ((pol.max_redirects <ℤ pos 0) ⊎ (pos (length hops) ≤ℤ pol.max_redirects))
            × All (Passes pol) (initial ∷ hops))
    unfolding check_redirect_chain
    check_redirect_chain-Passes initial hops pol =
        elim (Bool-cases
          (leb_ℤ (pos 0) pol.max_redirects && ltb_ℤ pol.max_redirects (pos (length hops)))) [
            | inl q ↦ rw q (λ h. absurd cc, λ h. absurd (ground (arith, q, h.0)))
            | inr q ↦ rw q (
              λ h.
                  let (a, b) = (first_iff _ _).0 h in
                  (ground (arith, q), ((unrefused pol initial).0 a, (hops_iff pol hops).0 b)),
              λ h. (first_iff _ _).1 ((unrefused pol initial).1 h.1.0, (hops_iff pol hops).1 h.1.1),
            )
          ]
