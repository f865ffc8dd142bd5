-- ===== src/Base/Lists.antt =====
-- Lists measured by native numbers, and the Boolean filter that `Vec::retain` is.
use Prim.Native.Nat.{ℕ, suc, ◌+◌}
use mathlib.Core.Path.{◌≡◌, refl}
use mathlib.Core.Bool.{Bool, true, false, not, ◌&&◌, ◌||◌}
use mathlib.Core.List.{List, [], ◌∷◌, ◌++◌, map, Perm, perm_middle}
use mathlib.Core.List.Perm
use mathlib.Core.Option.{Option, none, some}
use native.Mathlib.Omega.{arith}
use bgpd_rs.Base.Tests.{if◌then◌else◌}
use bgpd_rs.Base.Equality.{Eq, ◌==◌}

module _ {ℓ} {A : Type ℓ} where
  abbrev pub length : List A → ℕ
  length [] = 0
  length (x ∷ xs) = suc (length xs)

  pub length-append : (xs ys : List A) → length (xs ++ ys) ≡ length xs + length ys
  length-append [] ys = omega arith
  length-append (x ∷ xs) ys = omega (arith, length-append xs ys)

  abbrev pub is_empty : List A → Bool
  is_empty [] = true
  is_empty (x ∷ xs) = false

  -- The elements that pass the test, in order: `Vec::retain` and `Iterator::filter`.
  unfoldable pub retain : (A → Bool) → List A → List A
  retain p [] = []
  retain p (x ∷ xs) = if p x then x ∷ retain p xs else retain p xs

  pub retain-append :
      (p : A → Bool) (xs ys : List A) → retain p (xs ++ ys) ≡ retain p xs ++ retain p ys
  unfolding retain
  retain-append p [] ys = refl
  retain-append p (x ∷ xs) ys = rw (retain-append p xs ys) (ground arith)

  -- A test and its negation split a list.
  pub retain-perm :
      (p : A → Bool) (xs : List A) → Perm xs (retain p xs ++ retain (λ x. not (p x)) xs)
  unfolding retain
  retain-perm p [] = Perm.nil
  retain-perm p (x ∷ xs) =
      let rest = Perm.cons x (retain-perm p xs) in
      ground (
        arith,
        rest,
        Perm.trans rest (Perm.symm (perm_middle (retain p xs) (retain (λ x. not (p x)) xs))),
      )

  pub retain-retain :
      (p q : A → Bool) (xs : List A) → retain p (retain q xs) ≡ retain (λ x. q x && p x) xs
  unfolding retain
  retain-retain p q [] = refl
  retain-retain p q (x ∷ xs) = ground (arith, retain-retain p q xs)

  pub retain_congr :
      (p q : A → Bool) (xs : List A) → ((x : A) → p x ≡ q x) → retain p xs ≡ retain q xs
  unfolding retain
  retain_congr p q [] h = refl
  retain_congr p q (x ∷ xs) h = ground (arith, retain_congr p q xs h, h x)

module _ {ℓ κ} {A : Type ℓ} {B : Type κ} where
  pub retain-map :
      (p : B → Bool) (f : A → B) (xs : List A)
      → retain p (map f xs) ≡ map f (retain (λ x. p (f x)) xs)
  unfolding retain
  retain-map p f [] = refl
  retain-map p f (x ∷ xs) = ground (arith, retain-map p f xs)

  unfoldable pub flat_map : (A → List B) → List A → List B
  flat_map f [] = []
  flat_map f (x ∷ xs) = f x ++ flat_map f xs

  unfoldable pub filter_map : (A → Option B) → List A → List B
  filter_map f [] = []
  filter_map f (x ∷ xs) = elim (f x) [ none ↦ filter_map f xs | some y ↦ y ∷ filter_map f xs ]

module _ {ℓ} {A : Type ℓ} ⦃e : Eq A⦄ where
  -- Membership in a `HashSet` or a slice.
  unfoldable pub contains : A → List A → Bool
  contains a [] = false
  contains a (x ∷ xs) = a == x || contains a xs

  pub contains-retain :
      (a : A) (p : A → Bool) (xs : List A) → contains a (retain p xs) ≡ (p a && contains a xs)
  unfolding contains retain
  contains-retain a p [] = ground arith
  contains-retain a p (x ∷ xs) = ground (arith, contains-retain a p xs, e.eq_iff a x)

  pub contains-append :
      (a : A) (xs ys : List A) → contains a (xs ++ ys) ≡ (contains a xs || contains a ys)
  unfolding contains
  contains-append a [] ys = refl
  contains-append a (x ∷ xs) ys = ground (arith, contains-append a xs ys)

  pub contains-cons_self : (a : A) (xs : List A) → contains a (a ∷ xs) ≡ true
  unfolding contains
  contains-cons_self a xs = ground (arith, e.eq_iff a a)

module _ {ℓ} {A : Type ℓ} where
  pub retain_all : (p : A → Bool) (xs : List A) → ((x : A) → p x ≡ true) → retain p xs ≡ xs
  unfolding retain
  retain_all p [] h = refl
  retain_all p (x ∷ xs) h = rw (h x, retain_all p xs h)

  pub retain_none : (p : A → Bool) (xs : List A) → ((x : A) → p x ≡ false) → retain p xs ≡ []
  unfolding retain
  retain_none p [] h = refl
  retain_none p (x ∷ xs) h = rw (h x, retain_none p xs h)
