-- ===== src/Base/Collect.antt =====
-- A walk that ends at the first failure, over parts of a list.
use bgpd_rs.Base.Outcomes.{Outcome, ok, collect, >>=-eq-ok}
use bgpd_rs.Base.Lists.{retain}
use mathlib.Core.Path.{◌≡◌}
use mathlib.Core.Bool.{Bool}
use mathlib.Core.List.{List, [], ◌∷◌, ◌++◌}
use native.Mathlib.Omega.{arith}

module _ {ℓ κ μ} {E : Type ℓ} {A : Type κ} {B : Type μ} (f : A → Outcome E B) where
  pub collect-retain :
      (p : A → Bool) (q : B → Bool) (xs : List A) {ys : List B}
      → ((x : A) (y : B) → f x ≡ ok y → p x ≡ q y)
      → collect f xs ≡ ok ys
      → collect f (retain p xs) ≡ ok (retain q ys)
  unfolding collect retain
  collect-retain p q [] agree h = ground arith
  collect-retain p q (x ∷ xs) agree h =
      let (y, hy, rest) = >>=-eq-ok (f x) _ h in
      let (ys', hys, last) = >>=-eq-ok (collect f xs) _ rest in
      let ih = collect-retain p q xs agree hys in ground (arith, agree x y, ih)

  pub collect-append :
      (xs xs' : List A) {ys ys' : List B}
      → collect f xs ≡ ok ys
      → collect f xs' ≡ ok ys'
      → collect f (xs ++ xs') ≡ ok (ys ++ ys')
  unfolding collect
  collect-append [] xs' h h' = ground arith
  collect-append (x ∷ xs) xs' h h' =
      let (y, hy, rest) = >>=-eq-ok (f x) _ h in
      let (ys', hys, last) = >>=-eq-ok (collect f xs) _ rest in
      let ih = collect-append xs xs' hys h' in ground (arith, ih)
