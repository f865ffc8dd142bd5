-- ===== src/Base/Bag.antt =====
-- Lists with their order forgotten.
use mathlib.Core.Path.{ap, sym, ◌∙◌}
use mathlib.Core.Bool.{Bool}
use mathlib.Core.Logic.{∥∥₁_map, inl, inr}
use mathlib.Core.List.{List, ◌++◌, Perm, Permᴰ}
use mathlib.Core.List.Permᴰ
use mathlib.Core.List.Perm
use mathlib.Core.Quot
use mathlib.Core.Quot.{Quot, Quot-set}
use bgpd_rs.Base.Tests.{Bool-cases}
use bgpd_rs.Base.Lists.{retain}

abbrev pub Bag {ℓ} : Type ℓ → Type ℓ
Bag A = Quot (Perm {A = A})

module _ {ℓ} {A : Type ℓ} where
  retain_permᴰ : (p : A → Bool) {xs ys : List A} → Permᴰ xs ys → Permᴰ (retain p xs) (retain p ys)
  unfolding retain
  retain_permᴰ p Permᴰ.nil = Permᴰ.nil
  retain_permᴰ p (Permᴰ.cons {a} {b} e q) =
      let rest = retain_permᴰ p q in
      elim (Bool-cases (p a)) [
        | inl h ↦ rw (h, ap p (sym e) ∙ h) (Permᴰ.cons e rest)
        | inr h ↦ rw (h, ap p (sym e) ∙ h) rest
      ]
  retain_permᴰ p (Permᴰ.swap {a} {b} {a'} {b'} {l} e f) = elim (Bool-cases (p a)) [
    | inl h ↦ elim (Bool-cases (p b)) [
      | inl k ↦ rw (h, k, ap p (sym f) ∙ k, ap p (sym e) ∙ h) (Permᴰ.swap e f)
      | inr k ↦
          rw (h, k, ap p (sym f) ∙ k, ap p (sym e) ∙ h) (Permᴰ.cons e (Permᴰ.refl (retain p l)))
    ]
    | inr h ↦ elim (Bool-cases (p b)) [
      | inl k ↦
          rw (h, k, ap p (sym f) ∙ k, ap p (sym e) ∙ h) (Permᴰ.cons f (Permᴰ.refl (retain p l)))
      | inr k ↦ rw (h, k, ap p (sym f) ∙ k, ap p (sym e) ∙ h) (Permᴰ.refl (retain p l))
    ]
  ]
  retain_permᴰ p (Permᴰ.trans q r) = Permᴰ.trans (retain_permᴰ p q) (retain_permᴰ p r)

  pub retain_perm : (p : A → Bool) {xs ys : List A} → Perm xs ys → Perm (retain p xs) (retain p ys)
  retain_perm p {xs} {ys} h = ∥∥₁_map {B = Permᴰ (retain p xs) (retain p ys)} h (retain_permᴰ p)

  unfoldable pub keep : (A → Bool) → Bag A → Bag A
  unfolding Quot-set
  keep p =
      Quot.lift Quot-set (λ xs. Quot.mk (retain p xs)) (λ xs ys h. Quot.sound (retain_perm p h))

  unfoldable pub add : List A → Bag A → Bag A
  unfolding Quot-set
  add new =
      Quot.lift Quot-set (λ xs. Quot.mk (xs ++ new))
        (λ xs ys h. Quot.sound (Perm.append_right new h))
