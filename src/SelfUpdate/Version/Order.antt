-- ===== src/SelfUpdate/Version/Order.antt =====
-- The order of versions: their numbers, their identifiers and the whole.
use platform_agent.Prelude.{ℕ, ◌≡◌, refl, ap, Bool, true, false, List, [], ◌∷◌, length, arith}
use platform_agent.Bytes.{Bytes}
use platform_agent.SelfUpdate.Version.Comparison.{
  flip, Chain, IsOrder, below-Chain, above-Chain, to_below-Chain, to_above-Chain, lex, lex-IsOrder,
  IsOrder-of, or_else-IsOrder, on-IsOrder,
}
use platform_agent.SelfUpdate.Version.{
  cmp_uint, or_else, compare_bytes, is_numeric_ident, compare_numeric_ident, by_kind, compare_ident,
  compare_idents, compare_prerelease, compare,
}

cmp_uint-Chain : (x y z : ℕ) → Chain (cmp_uint x y) (cmp_uint y z) (cmp_uint x z)
unfolding cmp_uint
cmp_uint-Chain x y z = ground arith

pub cmp_uint-IsOrder : IsOrder cmp_uint
unfolding cmp_uint
cmp_uint-IsOrder = record { flips = λ x y. ground arith; chains = cmp_uint-Chain }

compare_bytes-lex : (a b : Bytes) → compare_bytes a b ≡ lex cmp_uint a b
unfolding compare_bytes lex
compare_bytes-lex [] [] = refl
compare_bytes-lex [] (d ∷ t) = refl
compare_bytes-lex (c ∷ s) [] = refl
compare_bytes-lex (c ∷ s) (d ∷ t) = ap (or_else (cmp_uint c d)) (compare_bytes-lex s t)

compare_bytes-IsOrder : IsOrder compare_bytes
compare_bytes-IsOrder =
    IsOrder-of (lex cmp_uint) compare_bytes compare_bytes-lex
      (lex-IsOrder cmp_uint cmp_uint-IsOrder)

-- Numeric identifiers: by length, then byte by byte.
numeric_or_else :
    (a b : Bytes)
    → compare_numeric_ident a b ≡ or_else (cmp_uint (length a) (length b)) (compare_bytes a b)
unfolding compare_numeric_ident cmp_uint or_else
numeric_or_else a b = ground arith

numeric-IsOrder : IsOrder compare_numeric_ident
numeric-IsOrder =
    IsOrder-of _ compare_numeric_ident numeric_or_else
      (or_else-IsOrder _ _ (on-IsOrder length cmp_uint cmp_uint-IsOrder) compare_bytes-IsOrder)

by_kind-flip : (m n : Bool) (a b : Bytes) → by_kind n m b a ≡ flip (by_kind m n a b)
unfolding by_kind
by_kind-flip true true a b = numeric-IsOrder.flips a b
by_kind-flip true false a b = refl
by_kind-flip false true a b = refl
by_kind-flip false false a b = compare_bytes-IsOrder.flips a b

by_kind-Chain :
    (m n k : Bool) (a b d : Bytes) → Chain (by_kind m n a b) (by_kind n k b d) (by_kind m k a d)
unfolding by_kind
by_kind-Chain true true true a b d = numeric-IsOrder.chains a b d
by_kind-Chain true true false a b d = to_below-Chain _
by_kind-Chain true false true a b d = tt
by_kind-Chain true false false a b d = below-Chain _
by_kind-Chain false true true a b d = above-Chain _
by_kind-Chain false true false a b d = tt
by_kind-Chain false false true a b d = to_above-Chain _
by_kind-Chain false false false a b d = compare_bytes-IsOrder.chains a b d

compare_ident-IsOrder : IsOrder compare_ident
unfolding compare_ident
compare_ident-IsOrder = record {
  flips = λ a b. by_kind-flip (is_numeric_ident a) (is_numeric_ident b) a b;
  chains =
      λ a b d. by_kind-Chain (is_numeric_ident a) (is_numeric_ident b) (is_numeric_ident d) a b d;
}

compare_idents-lex : (a b : List Bytes) → compare_idents a b ≡ lex compare_ident a b
unfolding compare_idents lex
compare_idents-lex [] [] = refl
compare_idents-lex [] (d ∷ t) = refl
compare_idents-lex (c ∷ s) [] = refl
compare_idents-lex (c ∷ s) (d ∷ t) = ap (or_else (compare_ident c d)) (compare_idents-lex s t)

compare_idents-IsOrder : IsOrder compare_idents
compare_idents-IsOrder =
    IsOrder-of (lex compare_ident) compare_idents compare_idents-lex
      (lex-IsOrder compare_ident compare_ident-IsOrder)

prerelease-flip : (a b : List Bytes) → compare_prerelease b a ≡ flip (compare_prerelease a b)
unfolding compare_prerelease
prerelease-flip [] [] = refl
prerelease-flip [] (b ∷ bs) = refl
prerelease-flip (a ∷ ids) [] = refl
prerelease-flip (a ∷ ids) (b ∷ bs) = compare_idents-IsOrder.flips (a ∷ ids) (b ∷ bs)

prerelease-Chain :
    (a b d : List Bytes)
    → Chain (compare_prerelease a b) (compare_prerelease b d) (compare_prerelease a d)
unfolding compare_prerelease
prerelease-Chain [] [] d = refl
prerelease-Chain [] (b ∷ bs) [] = tt
prerelease-Chain [] (b ∷ bs) (d ∷ ds) = above-Chain _
prerelease-Chain (a ∷ ids) [] [] = refl
prerelease-Chain (a ∷ ids) [] (d ∷ ds) = tt
prerelease-Chain (a ∷ ids) (b ∷ bs) [] = to_below-Chain _
prerelease-Chain (a ∷ ids) (b ∷ bs) (d ∷ ds) =
    compare_idents-IsOrder.chains (a ∷ ids) (b ∷ bs) (d ∷ ds)

prerelease-IsOrder : IsOrder compare_prerelease
prerelease-IsOrder = record { flips = prerelease-flip; chains = prerelease-Chain }

-- The precedence of versions is a total preorder: swapping two versions flips the result, and two
-- results in a row that do not point in opposite directions fix the third.
pub compare-IsOrder : IsOrder compare
unfolding compare
compare-IsOrder = or_else-IsOrder _ _ (on-IsOrder (λ v. v.major) cmp_uint cmp_uint-IsOrder) (
    or_else-IsOrder _ _ (on-IsOrder (λ v. v.minor) cmp_uint cmp_uint-IsOrder) (
      or_else-IsOrder _ _ (on-IsOrder (λ v. v.patch) cmp_uint cmp_uint-IsOrder)
        (on-IsOrder (λ v. v.prerelease) compare_prerelease prerelease-IsOrder)))
