-- ===== src/SelfUpdate/Version/Policy.antt =====
-- What the version policy allows.
use platform_agent.Prelude.{
  ◌≡◌, ◌≢◌, ◌↔◌, ◌⊎◌, inl, inr, refl, sym, ap, ◌∙◌, Option, none, some, length, arith, ◌==◌,
  Bool-cases, some_injective,
}
use platform_agent.Bytes.{Bytes}
use platform_agent.Bytes.Trim.{trim_space}
use platform_agent.SelfUpdate.Version.{
  Version, Cmp, less, equal, greater, VersionDecision, allowed, refused, current_unparseable,
  target_unparseable, max_seen_unparseable, compare, below_seen, not_above_seen, parse_version,
  decide_version, seen_and_decide, evaluate_version_policy,
}
use platform_agent.SelfUpdate.Version.Comparison.{flip, Chain}
use platform_agent.SelfUpdate.Version.Order.{compare-IsOrder}

-- The high-water mark is blank, or a version below this one.
abbrev pub IsAbove : Bytes → Version → Type 0
IsAbove max_seen t =
    (length (trim_space max_seen) ≡ 0)
    ⊎ ((length (trim_space max_seen) ≢ 0)
        × ((m : Version) × (parse_version max_seen ≡ some m) × (compare t m ≡ greater)))

-- Both versions parse, and the target is above the current one and the mark.
pub record IsUpgrade (current target max_seen : Bytes) : Type 0 where
  pub from : Version
  pub to : Version
  pub from_parsed : parse_version current ≡ some from
  pub to_parsed : parse_version target ≡ some to
  pub up : compare to from ≡ greater
  pub unseen : IsAbove max_seen to

decide_none : (c t : Version) → (decide_version c t none ≡ allowed) ↔ (compare t c ≡ greater)
unfolding decide_version below_seen not_above_seen
decide_none c t = go (compare t c) refl
  where
    go : (x : Cmp) → compare t c ≡ x → (decide_version c t none ≡ allowed) ↔ (compare t c ≡ greater)
    go less e = rw e (λ h. absurd cc, λ h. absurd cc)
    go equal e = rw e (λ h. absurd cc, λ h. absurd cc)
    go greater e = rw e (λ h. refl, λ h. refl)

decide_some :
    (c t m : Version)
    → (decide_version c t (some m) ≡ allowed) ↔ ((compare t c ≡ greater) × (compare t m ≡ greater))
unfolding decide_version below_seen not_above_seen
decide_some c t m = go (compare t c) (compare t m) refl refl
  where
    go :
        (x y : Cmp)
        → compare t c ≡ x
        → compare t m ≡ y
        → (decide_version c t (some m) ≡ allowed)
          ↔ ((compare t c ≡ greater) × (compare t m ≡ greater))
    go less less e f = rw (e, f) (λ h. absurd cc, λ h. absurd cc)
    go less equal e f = rw (e, f) (λ h. absurd cc, λ h. absurd cc)
    go less greater e f = rw (e, f) (λ h. absurd cc, λ h. absurd cc)
    go equal less e f = rw (e, f) (λ h. absurd cc, λ h. absurd cc)
    go equal equal e f = rw (e, f) (λ h. absurd cc, λ h. absurd cc)
    go equal greater e f = rw (e, f) (λ h. absurd cc, λ h. absurd cc)
    go greater less e f = rw (e, f) (λ h. absurd cc, λ h. absurd cc)
    go greater equal e f = rw (e, f) (λ h. absurd cc, λ h. absurd cc)
    go greater greater e f = rw (e, f) (λ h. (refl, refl), λ h. refl)

two_up : (x y z : Version) → compare x y ≡ greater → compare y z ≡ greater → compare x z ≡ greater
two_up x y z h k =
    let c = compare-IsOrder.chains x y z in
    let d : Chain greater greater (compare x z) = rw (h, k) at c in d

-- The mark, once both versions have parsed.
seen_iff :
    (c t : Version) (max_seen : Bytes)
    → (seen_and_decide c t max_seen ≡ allowed) ↔ ((compare t c ≡ greater) × IsAbove max_seen t)
unfolding seen_and_decide
seen_iff c t max_seen = elim (Bool-cases (length (trim_space max_seen) == 0)) [
  | inl q ↦
      rw q (λ h. ((decide_none c t).0 h, inl (ground (arith, q))), λ h. (decide_none c t).1 h.0)
  | inr q ↦ rw q (
    there (parse_version max_seen) refl (ground (arith, q)),
    λ h. back h.0 (ground (arith, q)) h.1,
  )
]
  where
    there :
        (o : Option Version)
        → parse_version max_seen ≡ o
        → length (trim_space max_seen) ≢ 0
        → elim o [ none ↦ refused max_seen_unparseable | some m ↦ decide_version c t (some m) ]
          ≡ allowed
        → (compare t c ≡ greater) × IsAbove max_seen t
    there none e n h = cc
    there (some m) e n h =
        let (up, unseen) = (decide_some c t m).0 h in (up, inr (n, (m, e, unseen)))

    back :
        compare t c ≡ greater
        → length (trim_space max_seen) ≢ 0
        → IsAbove max_seen t
        → elim (parse_version max_seen) [
          | none ↦ refused max_seen_unparseable
          | some m ↦ decide_version c t (some m)
        ]
          ≡ allowed
    back up n (inl z) = absurd (n z)
    back up n (inr (_, (m, e, unseen))) = rw e ((decide_some c t m).1 (up, unseen))

-- The policy allows a target exactly when it and the current version parse, it is above the current
-- version, and the high-water mark is blank or parses as a version that the target is above too.
pub evaluate_version_policy-IsUpgrade :
    (current target max_seen : Bytes)
    → (evaluate_version_policy current target max_seen ≡ allowed)
      ↔ IsUpgrade current target max_seen
unfolding evaluate_version_policy
evaluate_version_policy-IsUpgrade current target max_seen =
    (there (parse_version current) (parse_version target) refl refl, back)
  where
    decide : Option Version → Option Version → VersionDecision
    decide c t = elim c [
      | none ↦ refused current_unparseable
      | some c' ↦ elim t [
        | none ↦ refused target_unparseable
        | some t' ↦ seen_and_decide c' t' max_seen
      ]
    ]

    there :
        (c t : Option Version)
        → parse_version current ≡ c
        → parse_version target ≡ t
        → decide c t ≡ allowed
        → IsUpgrade current target max_seen
    there none t e f h = absurd cc
    there (some c) none e f h = absurd cc
    there (some c) (some t) e f h =
        let (up, unseen) = (seen_iff c t max_seen).0 h in
        record { from = c; to = t; from_parsed = e; to_parsed = f; up = up; unseen = unseen }

    back :
        IsUpgrade current target max_seen
        → decide (parse_version current) (parse_version target) ≡ allowed
    back u = rw (u.from_parsed, u.to_parsed) ((seen_iff u.from u.to max_seen).1 (u.up, u.unseen))

-- A version that an upgrade left cannot come back: with the new version current, the policy does not
-- allow the old one, whatever the marks.
pub evaluate_version_policy-no_return :
    (old new mark later : Bytes)
    → evaluate_version_policy old new mark ≡ allowed
    → evaluate_version_policy new old later ≢ allowed
evaluate_version_policy-no_return old new mark later h k =
    let u = (evaluate_version_policy-IsUpgrade old new mark).0 h in
    let d = (evaluate_version_policy-IsUpgrade new old later).0 k in
    let a : d.from ≡ u.to = some_injective (sym d.from_parsed ∙ u.to_parsed) in
    let b : d.to ≡ u.from = some_injective (sym d.to_parsed ∙ u.from_parsed) in
    let down : compare u.from u.to ≡ greater =
      ap (λ x. compare x u.to) (sym b) ∙ ap (compare d.to) (sym a) ∙ d.up in
    let down' : compare u.from u.to ≡ less = compare-IsOrder.flips u.to u.from ∙ ap flip u.up in
    cc (down, down')

-- Upgrades in a row only go up: the last version is above the first.
pub evaluate_version_policy-ascends :
    (a b c mark later : Bytes)
    → evaluate_version_policy a b mark ≡ allowed
    → evaluate_version_policy b c later ≡ allowed
    → (x : Version) × (z : Version) × (parse_version a ≡ some x)
      × (parse_version c ≡ some z)
      × (compare z x ≡ greater)
evaluate_version_policy-ascends a b c mark later h k =
    let u = (evaluate_version_policy-IsUpgrade a b mark).0 h in
    let v = (evaluate_version_policy-IsUpgrade b c later).0 k in
    let same : v.from ≡ u.to = some_injective (sym v.from_parsed ∙ u.to_parsed) in
    let up : compare v.to u.to ≡ greater = ap (compare v.to) (sym same) ∙ v.up in
    (u.from, v.to, u.from_parsed, v.to_parsed, two_up v.to u.to u.from up u.up)
