-- ===== src/SelfUpdate/Version/Comparison.antt =====
-- Three-valued comparisons that order a type totally, and how they combine.
use platform_agent.Prelude.{◌≡◌, refl, List, [], ◌∷◌}
use platform_agent.SelfUpdate.Version.{Cmp, less, equal, greater, or_else}

abbrev pub flip : Cmp → Cmp
flip less = greater
flip equal = equal
flip greater = less

-- What two comparisons in a row say of the comparison of their ends.
abbrev pub Chain : Cmp → Cmp → Cmp → Type 0
Chain less less r = r ≡ less
Chain less equal r = r ≡ less
Chain less greater r = Unit
Chain equal q r = r ≡ q
Chain greater less r = Unit
Chain greater equal r = r ≡ greater
Chain greater greater r = r ≡ greater

-- A comparison by which a type is totally preordered.
pub record IsOrder {ℓ} {A : Type ℓ} (c : A → A → Cmp) : Type ℓ where
  pub flips : (x y : A) → c y x ≡ flip (c x y)
  pub chains : (x y z : A) → Chain (c x y) (c y z) (c x z)

pub or_else-flip : (a b : Cmp) → or_else (flip a) (flip b) ≡ flip (or_else a b)
unfolding or_else
or_else-flip less b = refl
or_else-flip equal b = refl
or_else-flip greater b = refl

pub or_else-Chain :
    (a b c d e f : Cmp)
    → Chain a b c
    → Chain d e f
    → Chain (or_else a d) (or_else b e) (or_else c f)
unfolding or_else
or_else-Chain less less c d e f h k = rw h refl
or_else-Chain less equal c d less f h k = rw h refl
or_else-Chain less equal c d equal f h k = rw h refl
or_else-Chain less equal c d greater f h k = tt
or_else-Chain less greater c d e f h k = tt
or_else-Chain equal less c less e f h k = rw h refl
or_else-Chain equal less c equal e f h k = rw h refl
or_else-Chain equal less c greater e f h k = tt
or_else-Chain equal equal c d e f h k = rw h k
or_else-Chain equal greater c less e f h k = tt
or_else-Chain equal greater c equal e f h k = rw h refl
or_else-Chain equal greater c greater e f h k = rw h refl
or_else-Chain greater less c d e f h k = tt
or_else-Chain greater equal c d less f h k = tt
or_else-Chain greater equal c d equal f h k = rw h refl
or_else-Chain greater equal c d greater f h k = rw h refl
or_else-Chain greater greater c d e f h k = rw h refl

pub below-Chain : (q : Cmp) → Chain less q less
below-Chain less = refl
below-Chain equal = refl
below-Chain greater = tt

pub above-Chain : (q : Cmp) → Chain greater q greater
above-Chain less = tt
above-Chain equal = refl
above-Chain greater = refl

pub to_below-Chain : (q : Cmp) → Chain q less less
to_below-Chain less = refl
to_below-Chain equal = refl
to_below-Chain greater = tt

pub to_above-Chain : (q : Cmp) → Chain q greater greater
to_above-Chain less = tt
to_above-Chain equal = refl
to_above-Chain greater = refl

module _ {ℓ} {A : Type ℓ} (c : A → A → Cmp) where
  -- A comparison of lists by their first difference, with a shorter one below.
  unfoldable pub lex : List A → List A → Cmp
  lex [] [] = equal
  lex [] (y ∷ ys) = less
  lex (x ∷ xs) [] = greater
  lex (x ∷ xs) (y ∷ ys) = or_else (c x y) (lex xs ys)

  lex-flip : IsOrder c → (a b : List A) → lex b a ≡ flip (lex a b)
  unfolding lex
  lex-flip o [] [] = refl
  lex-flip o [] (y ∷ ys) = refl
  lex-flip o (x ∷ xs) [] = refl
  lex-flip o (x ∷ xs) (y ∷ ys) =
      rw (o.flips x y, lex-flip o xs ys) (or_else-flip (c x y) (lex xs ys))

  lex-Chain : IsOrder c → (a b d : List A) → Chain (lex a b) (lex b d) (lex a d)
  unfolding lex
  lex-Chain o [] [] d = refl
  lex-Chain o [] (y ∷ ys) [] = tt
  lex-Chain o [] (y ∷ ys) (z ∷ zs) = below-Chain (or_else (c y z) (lex ys zs))
  lex-Chain o (x ∷ xs) [] [] = refl
  lex-Chain o (x ∷ xs) [] (z ∷ zs) = tt
  lex-Chain o (x ∷ xs) (y ∷ ys) [] = to_above-Chain (or_else (c x y) (lex xs ys))
  lex-Chain o (x ∷ xs) (y ∷ ys) (z ∷ zs) =
      or_else-Chain (c x y) (c y z) (c x z) (lex xs ys) (lex ys zs) (lex xs zs) (o.chains x y z)
        (lex-Chain o xs ys zs)

  pub lex-IsOrder : IsOrder c → IsOrder lex
  lex-IsOrder o = record { flips = lex-flip o; chains = lex-Chain o }

-- A comparison that agrees with an order is one.
pub IsOrder-of {ℓ} :
    {A : Type ℓ} (c d : A → A → Cmp) → ((x y : A) → d x y ≡ c x y) → IsOrder c → IsOrder d
IsOrder-of c d e o = record {
  flips = λ x y. rw (e y x, e x y) (o.flips x y);
  chains = λ x y z. rw (e x y, e y z, e x z) (o.chains x y z);
}

pub or_else-IsOrder {ℓ} :
    {A : Type ℓ} (c d : A → A → Cmp)
    → IsOrder c
    → IsOrder d
    → IsOrder (λ x y. or_else (c x y) (d x y))
or_else-IsOrder c d o p = record {
  flips = λ x y. rw (o.flips x y, p.flips x y) (or_else-flip (c x y) (d x y));
  chains = λ x y z.
      or_else-Chain (c x y) (c y z) (c x z) (d x y) (d y z) (d x z) (o.chains x y z)
        (p.chains x y z);
}

-- A comparison of a part orders the whole.
pub on-IsOrder {ℓ κ} :
    {A : Type ℓ} {B : Type κ} (f : B → A) (c : A → A → Cmp)
    → IsOrder c
    → IsOrder (λ (x : B) (y : B). c (f x) (f y))
on-IsOrder f c o = record {
  flips = λ x y. o.flips (f x) (f y);
  chains = λ x y z. o.chains (f x) (f y) (f z);
}
