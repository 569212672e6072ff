-- ===== src/SelfUpdate/Download/Completed.antt =====
-- Which downloads complete, and with what.
use platform_agent.Prelude.{
  ℕ, suc, ◌+◌, ◌≤◌, ◌<◌, ◌^◌, ◌≡◌, ◌↔◌, refl, sym, ap, ◌∙◌, subst, Bool, true, false, ◌&&◌,
  Bool-cases, inl, inr, ◌⊎◌, Option, none, some, List, [], ◌∷◌, length, take, All, leb, arith,
}
use platform_agent.Prelude.Int.{ℤ, pos, negsuc, leb_ℤ, ltb_ℤ, add64, add64_pos, equal_ℤ}
use platform_agent.Bytes.{Bytes}
use platform_agent.SelfUpdate.Url.{UrlPolicy, Url, UrlRefusal, check_url, refusal}
use platform_agent.SelfUpdate.Url.Allowed.{Passes, unrefused}
use platform_agent.SelfUpdate.Download.{
  Reply, copy_capped, after_copy, check_redirect, follow, fetched, requested, allowed, download,
}

status_of : (z : ℤ) → equal_ℤ z (pos 200) ≡ true → z ≡ pos 200
status_of (pos n) h = ap pos (ground arith)
status_of (negsuc n) h = absurd (ground arith)

size_cases : (a b : ℕ) → (a ≤ b) ⊎ (b < a)
size_cases a b = omega arith

not_negative : (z : ℤ) → ltb_ℤ z (pos 0) ≡ false → (m : ℕ) × (z ≡ pos m)
not_negative (pos m) h = (m, refl)
not_negative (negsuc m) h = absurd (ground arith)

-- A body within the cap is copied whole, and one over it is found over it.
module _ (max : ℕ) (body : Bytes) (h : max + 1 < 2 ^ 63) where
  copied_whole : length body ≤ max → copy_capped (add64 (pos max) (pos 1)) body ≡ (body, false)
  unfolding copy_capped
  copied_whole short =
      let positive : leb (max + 1 + 0) 0 ≡ false = ground arith in
      let within : leb (max + 1 + 0) (length body + 0) ≡ false = ground (arith, short) in
      rw (add64_pos max 1 h, positive, within) refl

  copied_over :
      max < length body → copy_capped (add64 (pos max) (pos 1)) body ≡ (take (max + 1) body, true)
  unfolding copy_capped
  copied_over long =
      let positive : leb (max + 1 + 0) 0 ≡ false = ground arith in
      let over : leb (max + 1 + 0) (length body + 0) ≡ true = ground (arith, long) in
      rw (add64_pos max 1 h, positive, over) refl

module _ (parse_ip : Bytes → Bool) (url_parse : Bytes → Option Url) where
  -- A download that is to complete: a cap on redirects that is not negative and holds, addresses that all
  -- pass, and a reply with status 200 and a body within the byte cap that is read to its end.
  pub record IsComplete (pol : UrlPolicy) (raw : Bytes) (max : ℕ) (hops : List Bytes)
      (reply : Option Reply) (body : Bytes) : Type 0 where
    pub count : ℕ
    pub cap : pol.max_redirects ≡ pos count
    pub few : length hops ≤ count
    pub passes : All (Passes parse_ip url_parse pol) (raw ∷ hops)
    pub answered : reply ≡ some (record { status = pos 200; body = body; fails = false })
    pub short : length body ≤ max
    pub some_cap : 0 < max

  over_iff :
      (m via : ℕ)
      → ((leb_ℤ (pos 0) (pos m) && ltb_ℤ (pos m) (pos via)) ≡ false → via ≤ m)
        × ((leb_ℤ (pos 0) (pos m) && ltb_ℤ (pos m) (pos via)) ≡ true → via ≤ m → ⊥)
  over_iff m via = (λ q. ground (arith, q), λ q h. ground (arith, q, h))

  check_redirect_iff :
      (pol : UrlPolicy) (m via : ℕ) (raw : Bytes)
      → pol.max_redirects ≡ pos m
      → (check_redirect parse_ip url_parse pol via raw ≡ none)
        ↔ ((via ≤ m) × Passes parse_ip url_parse pol raw)
  unfolding check_redirect
  check_redirect_iff pol m via raw e =
      let test = over_iff m via in
      let same = ap (λ c. leb_ℤ (pos 0) c && ltb_ℤ c (pos via)) e in
      elim (Bool-cases (leb_ℤ (pos 0) pol.max_redirects && ltb_ℤ pol.max_redirects (pos via))) [
        | inl q ↦ rw q (λ h. absurd cc, λ h. absurd (test.1 (sym same ∙ q) h.0))
        | inr q ↦ rw q (
          λ h. (test.0 (sym same ∙ q), (unrefused parse_ip url_parse pol raw).0 h),
          λ h. (unrefused parse_ip url_parse pol raw).1 h.1,
        )
      ]

  follow_iff :
      (pol : UrlPolicy) (m via : ℕ) (hops : List Bytes)
      → pol.max_redirects ≡ pos m
      → via ≤ m + 1
      → (follow parse_ip url_parse pol via hops ≡ none)
        ↔ ((via + length hops ≤ m + 1) × All (Passes parse_ip url_parse pol) hops)
  unfolding follow
  follow_iff pol m via [] e h = (λ q. (omega (arith, h), tt), λ q. refl)
  follow_iff pol m via (hop ∷ hops) e h =
      let rest = follow_iff pol m (suc via) hops e in
      (there rest (check_redirect parse_ip url_parse pol via hop) refl, back rest)
    where
      Rest : Type 0
      Rest =
          suc via ≤ m + 1
          → (follow parse_ip url_parse pol (suc via) hops ≡ none)
            ↔ ((suc via + length hops ≤ m + 1) × All (Passes parse_ip url_parse pol) hops)

      there :
          Rest
          → (o : Option UrlRefusal) → check_redirect parse_ip url_parse pol via hop ≡ o
          → follow parse_ip url_parse pol via (hop ∷ hops) ≡ none
          → (via + length (hop ∷ hops) ≤ m + 1) × All (Passes parse_ip url_parse pol) (hop ∷ hops)
      there rest (some x) q k = let never = rw (q, follow) at k in absurd cc
      there rest none q k =
          let (few, passes) = (check_redirect_iff pol m via hop e).0 q in
          let (more, others) = (rest (omega (arith, few))).0 (rw (q, follow) at k) in
          (omega (arith, more), (passes, others))

      back :
          Rest
          → (via + length (hop ∷ hops) ≤ m + 1) × All (Passes parse_ip url_parse pol) (hop ∷ hops)
          → follow parse_ip url_parse pol via (hop ∷ hops) ≡ none
      back rest k =
          let few : via ≤ m = omega (arith, k.0) in
          let q = (check_redirect_iff pol m via hop e).1 (few, k.1.0) in
          rw (q, follow) ((rest (omega (arith, few))).1 (omega (arith, k.0), k.1.1))

  fetched-Answered :
      (max : ℕ) (r : Reply) (body : Bytes)
      → max + 1 < 2 ^ 63
      → fetched parse_ip url_parse (pos max) (some r) ≡ record { written = body; error = none }
      → ((r.status ≡ pos 200) × ((r.body ≡ body) × (r.fails ≡ false))) × (length body ≤ max)
  unfolding fetched after_copy
  fetched-Answered max r body h k =
      by_tests (equal_ℤ r.status (pos 200)) r.fails (size_cases (length r.body) max) refl refl
    where
      by_tests :
          (a b : Bool)
          → ((length r.body ≤ max) ⊎ (max < length r.body))
          → equal_ℤ r.status (pos 200) ≡ a
          → r.fails ≡ b
          → ((r.status ≡ pos 200) × ((r.body ≡ body) × (r.fails ≡ false))) × (length body ≤ max)
      by_tests false b c p q = let never = rw (p, fetched) at k in absurd cc
      by_tests true b (inr long) p q =
          let never = rw (p, copied_over max r.body h long, fetched, after_copy) at k in absurd cc
      by_tests true true (inl short) p q =
          let never = rw (p, q, copied_whole max r.body h short, fetched, after_copy) at k in
          absurd cc
      by_tests true false (inl short) p q =
          let whole = rw (p, q, copied_whole max r.body h short, fetched, after_copy) at k in
          let same : r.body ≡ body = cc in
          ((status_of r.status p, (same, q)), subst (λ x. length x ≤ max) same short)

  fetched_of_answer :
      (max : ℕ) (body : Bytes)
      → max + 1 < 2 ^ 63
      → length body ≤ max
      → fetched parse_ip url_parse
          (pos max)
          (some (record { status = pos 200; body = body; fails = false }))
        ≡ record { written = body; error = none }
  unfolding fetched after_copy
  fetched_of_answer max body h short = rw (copied_whole max body h short) refl

  same_reply :
      (r : Reply) (body : Bytes)
      → r.status ≡ pos 200
      → r.body ≡ body
      → r.fails ≡ false
      → r ≡ record { status = pos 200; body = body; fails = false }
  same_reply r body a b c = rw (a, b, c) refl

  answered-of_fetched :
      (max : ℕ) (reply : Option Reply) (body : Bytes)
      → max + 1 < 2 ^ 63
      → fetched parse_ip url_parse (pos max) reply ≡ record { written = body; error = none }
      → (reply ≡ some (record { status = pos 200; body = body; fails = false }))
        × (length body ≤ max)
  unfolding fetched
  answered-of_fetched max none body h k = absurd cc
  answered-of_fetched max (some r) body h k =
      let ((a, (b, c)), short) = fetched-Answered max r body h k in
      (ap some (same_reply r body a b c), short)

  -- With a byte cap that is not negative and below 2^63 - 1, the download completes, and writes this
  -- body, exactly when the policy's cap on redirects is not negative, the redirects are not more than it,
  -- the first address and every redirect's pass the policy, the byte cap is positive, and the reply has
  -- status 200 and this body, which is within the byte cap and is read and written to its end.
  pub download-IsComplete :
      (pol : UrlPolicy) (raw : Bytes) (max : ℕ) (hops : List Bytes) (reply : Option Reply)
      (body : Bytes)
      → max + 1 < 2 ^ 63
      → (download parse_ip url_parse pol raw (pos max) hops reply
          ≡ record { written = body; error = none })
        ↔ IsComplete pol raw max hops reply body
  unfolding download allowed requested
  download-IsComplete pol raw max hops reply body h = (λ k. there k, back)
    where
      there :
          download parse_ip url_parse pol raw (pos max) hops reply
            ≡ record { written = body; error = none }
          → IsComplete pol raw max hops reply body
      there k =
          by_tests (ltb_ℤ pol.max_redirects (pos 0))
            (refusal parse_ip url_parse (check_url parse_ip url_parse raw pol))
            (leb_ℤ (pos max) (pos 0)) (follow parse_ip url_parse pol 1 hops) refl refl refl refl
        where
          by_tests :
              (a : Bool) (o : Option UrlRefusal) (b : Bool) (p : Option UrlRefusal)
              → ltb_ℤ pol.max_redirects (pos 0) ≡ a
              → refusal parse_ip url_parse (check_url parse_ip url_parse raw pol) ≡ o
              → leb_ℤ (pos max) (pos 0) ≡ b
              → follow parse_ip url_parse pol 1 hops ≡ p
              → IsComplete pol raw max hops reply body
          by_tests true o b p qa qo qb qp = let never = rw (qa, download) at k in absurd cc
          by_tests false (some x) b p qa qo qb qp =
              let never = rw (qa, qo, download, allowed) at k in absurd cc
          by_tests false none true p qa qo qb qp =
              let never = rw (qa, qo, qb, download, allowed) at k in absurd cc
          by_tests false none false (some x) qa qo qb qp =
              let never = rw (qa, qo, qb, qp, download, allowed, requested) at k in absurd cc
          by_tests false none false none qa qo qb qp =
              let (count, cap) = not_negative pol.max_redirects qa in
              let (few, passes) = (follow_iff pol count 1 hops cap (omega arith)).0 qp in
              let (answered, short) =
                answered-of_fetched max reply body h
                  (rw (qa, qo, qb, qp, download, allowed, requested) at k) in
              record {
                count = count;
                cap = cap;
                few = omega (arith, few);
                passes = ((unrefused parse_ip url_parse pol raw).0 qo, passes);
                answered = answered;
                short = short;
                some_cap = ground arith;
              }

      back :
          IsComplete pol raw max hops reply body
          → download parse_ip url_parse pol raw (pos max) hops reply
            ≡ record { written = body; error = none }
      back c =
          let positive : leb (max + 0) 0 ≡ false = (let p = c.some_cap in ground arith) in
          let kept : ltb_ℤ pol.max_redirects (pos 0) ≡ false =
            ap (λ z. ltb_ℤ z (pos 0)) c.cap ∙ (ground arith) in
          let followed : follow parse_ip url_parse pol 1 hops ≡ none =
            (follow_iff pol c.count 1 hops c.cap (omega arith)).1
              (omega (arith, c.few), c.passes.1) in
          let first = (unrefused parse_ip url_parse pol raw).1 c.passes.0 in
          rw (kept, first, positive, followed, c.answered) (fetched_of_answer max body h c.short)
