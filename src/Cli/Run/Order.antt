-- ===== src/Cli/Run/Order.antt =====
-- src/cli/mod.rs: the order by which the routes are sorted.
use bgpd_rs.Base.{
  ◌≡◌, refl, sym, ◌∙◌, subst, inl, inr, true, false, ◌⊎◌, List, [], ◌∷◌, ◌==◌, arith, Bool-cases,
  nat_Eq,
}
use bgpd_rs.Api.Rpc.{LearnedRoute}
use bgpd_rs.Base.Text.{Text, text_Eq}
use bgpd_rs.Base.Within.{Every, Every-map}
use bgpd_rs.Cli.Run.{sorted, place, before, compare_texts}

pub compare_texts_total : (t u : Text) → (compare_texts t u ≡ true) ⊎ (compare_texts u t ≡ true)
unfolding compare_texts
compare_texts_total [] u = inl refl
compare_texts_total (c ∷ t) [] = inr refl
compare_texts_total (c ∷ t) (d ∷ u) = ground (arith, compare_texts_total t u)

pub compare_texts_refl : (t : Text) → compare_texts t t ≡ true
compare_texts_refl t = elim (compare_texts_total t t) [ inl h ↦ h | inr h ↦ h ]

pub compare_texts_trans :
    (t u v : Text) → compare_texts t u ≡ true → compare_texts u v ≡ true → compare_texts t v ≡ true
unfolding compare_texts
compare_texts_trans [] u v h k = refl
compare_texts_trans (c ∷ t) [] v h k = cc
compare_texts_trans (c ∷ t) (d ∷ u) [] h k = cc
compare_texts_trans (c ∷ t) (d ∷ u) (e ∷ v) h k = ground (arith, compare_texts_trans t u v)

pub compare_texts_antisym :
    (t u : Text) → compare_texts t u ≡ true → compare_texts u t ≡ true → t ≡ u
unfolding compare_texts
compare_texts_antisym [] [] h k = refl
compare_texts_antisym [] (d ∷ u) h k = cc
compare_texts_antisym (c ∷ t) [] h k = cc
compare_texts_antisym (c ∷ t) (d ∷ u) h k = ground (arith, compare_texts_antisym t u)

before_total : (r s : LearnedRoute) → (before r s ≡ true) ⊎ (before s r ≡ true)
unfolding before
before_total r s = ground (
  arith,
  text_Eq.eq_iff r.afi s.afi,
  text_Eq.eq_iff s.afi r.afi,
  compare_texts_total r.afi s.afi,
  compare_texts_total r.safi s.safi,
)

-- What the order says of the two parts of the key.
pub before-afi : (r s : LearnedRoute) → before r s ≡ true → compare_texts r.afi s.afi ≡ true
unfolding before
before-afi r s h = elim (Bool-cases (r.afi == s.afi)) [
  | inl e ↦ rw ((text_Eq.eq_iff r.afi s.afi).0 e) (compare_texts_refl s.afi)
  | inr e ↦ ground arith
]

pub before-safi :
    (r s : LearnedRoute) → r.afi ≡ s.afi → before r s ≡ true → compare_texts r.safi s.safi ≡ true
unfolding before
before-safi r s e h = ground (arith, (text_Eq.eq_iff r.afi s.afi).1 e)

before_trans : (r s t : LearnedRoute) → before r s ≡ true → before s t ≡ true → before r t ≡ true
unfolding before
before_trans r s t h k = elim (Bool-cases (r.afi == t.afi)) [
  | inl e ↦
      let outer = (text_Eq.eq_iff r.afi t.afi).0 e in
      let back = subst (λ x. compare_texts s.afi x ≡ true) (sym outer) (before-afi s t k) in
      let first = compare_texts_antisym r.afi s.afi (before-afi r s h) back in
      rw e (
        compare_texts_trans r.safi s.safi t.safi (before-safi r s first h)
          (before-safi s t (sym first ∙ outer) k))
  | inr e ↦ rw e (compare_texts_trans r.afi s.afi t.afi (before-afi r s h) (before-afi s t k))
]

abbrev pub IsSorted : List LearnedRoute → Type 0
IsSorted [] = Unit
IsSorted (r ∷ rs) = Every (λ s. before r s ≡ true) rs × IsSorted rs

place-Every :
    (P : LearnedRoute → Type 0) (r : LearnedRoute) (rs : List LearnedRoute)
    → P r
    → Every P rs
    → Every P (place r rs)
unfolding place
place-Every P r [] p h = (p, tt)
place-Every P r (s ∷ ss) p (h, hs) = elim (Bool-cases (before r s)) [
  | inl e ↦ rw e (p, (h, hs))
  | inr e ↦ rw e (h, place-Every P r ss p hs)
]

before-back : (r s : LearnedRoute) → before r s ≡ false → before s r ≡ true
before-back r s h = elim (before_total r s) [ inl k ↦ cc | inr k ↦ k ]

place-IsSorted : (r : LearnedRoute) (rs : List LearnedRoute) → IsSorted rs → IsSorted (place r rs)
unfolding place
place-IsSorted r [] h = (tt, tt)
place-IsSorted r (s ∷ ss) (h, hs) = elim (Bool-cases (before r s)) [
  | inl e ↦ rw e ((e, Every-map _ _ (λ t k. before_trans r s t e k) ss h), (h, hs))
  | inr e ↦
      rw e (place-Every (λ t. before s t ≡ true) r ss (before-back r s e) h, place-IsSorted r ss hs)
]

pub sorted-IsSorted : (rs : List LearnedRoute) → IsSorted (sorted rs)
unfolding sorted
sorted-IsSorted [] = tt
sorted-IsSorted (r ∷ rs) = place-IsSorted r (sorted rs) (sorted-IsSorted rs)
