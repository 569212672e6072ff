-- ===== src/Operation/Permit/Window.antt =====
-- The freshness window in whole numbers, free of int64's wrap.
use platform_agent.Prelude.{ℕ, ◌+◌, ◌*◌, ◌^◌, ◌<◌, ◌≤◌, ◌≡◌, Bool, true, ◌&&◌, arith}
use platform_agent.Prelude.Int.{
  ℤ, pos, negsuc, pos_part, neg_part, IsInt64, add64, sub64, wrap64, ltb_ℤ, leb_ℤ,
}
use platform_agent.Operation.Permit.{
  OperationPermit, is_fresh, max_permit_validity_millis, permit_clock_skew_millis,
}

-- `now` lies in the permit's window, two minutes of skew on both sides.
pub record InWindow (issued_at expires_at now : ℤ) : Type 0 where
  pub issued_positive : 0 < pos_part issued_at
  pub ordered : pos_part issued_at < pos_part expires_at
  pub short : pos_part expires_at ≤ pos_part issued_at + max_permit_validity_millis
  pub begun : pos_part issued_at + neg_part now ≤ pos_part now + permit_clock_skew_millis
  pub not_over : pos_part now < pos_part expires_at + permit_clock_skew_millis + neg_part now

-- A positive bound below a sum of int64 is below the true sum: a sum that wraps is negative.
below_add64 :
    (x now : ℤ) (c : ℕ)
    → IsInt64 now
    → c < 2 ^ 62
    → 0 < pos_part x
    → leb_ℤ x (add64 now (pos c)) ≡ true
    → pos_part x + neg_part now ≤ pos_part now + c
unfolding add64 wrap64
below_add64 (pos m) (pos n) c b h p e = ground arith
below_add64 (pos m) (negsuc n) c b h p e = ground arith
below_add64 (negsuc m) now c b h p e = absurd (omega arith)

before_add64 :
    (now y : ℤ) (c : ℕ)
    → IsInt64 now
    → IsInt64 y
    → c < 2 ^ 62
    → 0 < pos_part y
    → ltb_ℤ now (add64 y (pos c)) ≡ true
    → pos_part now < pos_part y + c + neg_part now
unfolding add64 wrap64
before_add64 (pos m) (pos n) c b k h p e = ground arith
before_add64 (negsuc m) (pos n) c b k h p e = omega arith
before_add64 now (negsuc n) c b k h p e = absurd (omega arith)

short_of_sub64 :
    (x y : ℤ) (c : ℕ)
    → IsInt64 y
    → 0 < pos_part x
    → pos_part x < pos_part y
    → leb_ℤ (sub64 y x) (pos c) ≡ true
    → pos_part y ≤ pos_part x + c
unfolding sub64 wrap64
short_of_sub64 (pos m) (pos n) c b p o e = ground arith
short_of_sub64 (negsuc m) y c b p o e = absurd (omega arith)
short_of_sub64 (pos m) (negsuc n) c b p o e = absurd (omega arith)

-- The six tests of `is_fresh`, apart.
record Tests (p : OperationPermit) (now : ℤ) : Type 0 where
  issued : ltb_ℤ (pos 0) p.issued_at ≡ true
  expires : ltb_ℤ (pos 0) p.expires_at ≡ true
  ordered : ltb_ℤ p.issued_at p.expires_at ≡ true
  short : leb_ℤ (sub64 p.expires_at p.issued_at) (pos max_permit_validity_millis) ≡ true
  begun : leb_ℤ p.issued_at (add64 now (pos permit_clock_skew_millis)) ≡ true
  not_over : ltb_ℤ now (add64 p.expires_at (pos permit_clock_skew_millis)) ≡ true

six_parts :
    (a b c d e f : Bool)
    → (a && (b && (c && (d && (e && f))))) ≡ true
    → (a ≡ true) × (b ≡ true) × (c ≡ true) × (d ≡ true) × (e ≡ true) × (f ≡ true)
six_parts a b c d e f h = ground arith

Tests-of_fresh : (p : OperationPermit) (now : ℤ) → is_fresh p now ≡ true → Tests p now
unfolding is_fresh
Tests-of_fresh p now h =
    let (issued, expires, ordered, short, begun, not_over) = six_parts _ _ _ _ _ _ h in
    record {
      issued = issued;
      expires = expires;
      ordered = ordered;
      short = short;
      begun = begun;
      not_over = not_over;
    }

positive_of_test : (x : ℤ) → ltb_ℤ (pos 0) x ≡ true → 0 < pos_part x
positive_of_test x h = ground arith

ordered_of_test : (x y : ℤ) → 0 < pos_part x → ltb_ℤ x y ≡ true → pos_part x < pos_part y
ordered_of_test x y p h = ground arith

-- A fresh permit is in its window as whole numbers tell it: no wrap of int64, in a sum or in the
-- difference, makes a permit fresh that is not.
pub is_fresh-InWindow :
    (p : OperationPermit) (now : ℤ)
    → IsInt64 p.issued_at
    → IsInt64 p.expires_at
    → IsInt64 now
    → is_fresh p now ≡ true
    → InWindow p.issued_at p.expires_at now
is_fresh-InWindow p now bi be bn h =
    let t = Tests-of_fresh p now h in
    let issued = positive_of_test p.issued_at t.issued in
    let expires = positive_of_test p.expires_at t.expires in
    let ordered = ordered_of_test p.issued_at p.expires_at issued t.ordered in
    record {
      issued_positive = issued;
      ordered = ordered;
      short = short_of_sub64 p.issued_at p.expires_at _ be issued ordered t.short;
      begun = below_add64 p.issued_at now _ bn (omega arith) issued t.begun;
      not_over = before_add64 now p.expires_at _ bn be (omega arith) expires t.not_over;
    }

-- However a permit is dated, the times at which it is fresh span less than nineteen minutes: the
-- signed fifteen and the skew on both sides.
pub fresh_span :
    (p : OperationPermit) (first last : ℤ)
    → IsInt64 p.issued_at
    → IsInt64 p.expires_at
    → IsInt64 first
    → IsInt64 last
    → is_fresh p first ≡ true
    → is_fresh p last ≡ true
    → pos_part last + neg_part first < pos_part first + neg_part last + 19 * 60 * 1000
fresh_span p first last bi be bf bl h k =
    omega (arith, is_fresh-InWindow p first bi be bf h, is_fresh-InWindow p last bi be bl k)
