-- ===== src/Base/Within.antt =====
-- One element at its place in a list, and what is true of every element.
use mathlib.Core.Path.{◌≡◌, refl, ap, sym, ◌∙◌, subst, ap₂}
use mathlib.Core.Bool.{Bool, true}
use mathlib.Core.List.{List, [], ◌∷◌, ◌++◌, map, map-append, append_assoc}
use mathlib.Core.Option.{some}
use native.Mathlib.Omega.{arith}
use bgpd_rs.Base.Equality.{Eq, ◌==◌}
use bgpd_rs.Base.Lists.{retain, retain-append}
use bgpd_rs.Base.Map
use bgpd_rs.Base.Map.{Map}
use bgpd_rs.Base.Outcomes.{Outcome, ok, collect, >>=-eq-ok}
use bgpd_rs.Base.Tests.{Bool-cases}
use mathlib.Core.Logic.{inl, inr}

-- What stands before an element and after it.
pub record Within {ℓ} {A : Type ℓ} (x : A) (xs : List A) : Type ℓ where
  pub before : List A
  pub after : List A
  pub whole : xs ≡ before ++ x ∷ after

abbrev pub Every {ℓ κ} : {A : Type ℓ} → (A → Type κ) → List A → Type κ
Every P [] = Unit
Every P (x ∷ xs) = P x × Every P xs

module _ {ℓ} {A : Type ℓ} where
  pub cons-Within : {x : A} (y : A) {xs : List A} → Within x xs → Within x (y ∷ xs)
  cons-Within y w = record {
    before = y ∷ w.before;
    after = w.after;
    whole = ap (λ t. y ∷ t) w.whole;
  }

  pub append-Within : {x : A} (ys : List A) {xs : List A} → Within x xs → Within x (ys ++ xs)
  append-Within ys {xs} w = record {
    before = ys ++ w.before;
    after = w.after;
    whole = ap (λ t. ys ++ t) w.whole ∙ sym (append_assoc ys w.before (_ ∷ w.after));
  }

  pub Within-append : {x : A} {xs : List A} (ys : List A) → Within x xs → Within x (xs ++ ys)
  Within-append {x} ys w = record {
    before = w.before;
    after = w.after ++ ys;
    whole = ap (λ t. t ++ ys) w.whole ∙ append_assoc w.before (x ∷ w.after) ys;
  }

  pub retain-Within :
      (p : A → Bool) {x : A} {xs : List A} → p x ≡ true → Within x xs → Within x (retain p xs)
  unfolding retain
  retain-Within p {x} {xs} h w = record {
    before = retain p w.before;
    after = retain p w.after;
    whole = ap (retain p) w.whole ∙ retain-append p w.before (x ∷ w.after) ∙ rw h refl;
  }

  pub Every-retain {κ} :
      (P : A → Type κ) (p : A → Bool) (xs : List A) → Every P xs → Every P (retain p xs)
  unfolding retain
  Every-retain P p [] h = tt
  Every-retain P p (x ∷ xs) (h, hs) = elim (Bool-cases (p x)) [
    | inl e ↦ rw e (h, Every-retain P p xs hs)
    | inr e ↦ rw e (Every-retain P p xs hs)
  ]

  pub Every-any : (xs : List A) → Every (λ x. Unit {0}) xs
  Every-any [] = tt
  Every-any (x ∷ xs) = (tt, Every-any xs)

  -- What was tested, and what held before.
  pub Every-retained {κ} :
      (P : A → Type κ) (p : A → Bool) (xs : List A)
      → Every P xs
      → Every (λ x. P x × (p x ≡ true)) (retain p xs)
  unfolding retain
  Every-retained P p [] h = tt
  Every-retained P p (x ∷ xs) (h, hs) = elim (Bool-cases (p x)) [
    | inl e ↦ rw e ((h, e), Every-retained P p xs hs)
    | inr e ↦ rw e (Every-retained P p xs hs)
  ]

  -- What is true of all that stands in a list.
  pub Every-within {κ} : (P : A → Type κ) (xs : List A) → ((x : A) → Within x xs → P x) → Every P xs
  Every-within P [] h = tt
  Every-within P (x ∷ xs) h = (
    h x (record { before = []; after = xs; whole = refl }),
    Every-within P xs (λ y w. h y (cons-Within x w)),
  )

  pub Every-map {κ μ} :
      (P : A → Type κ) (Q : A → Type μ) (f : (x : A) → P x → Q x) (xs : List A)
      → Every P xs
      → Every Q xs
  Every-map P Q f [] h = tt
  Every-map P Q f (x ∷ xs) (h, hs) = (f x h, Every-map P Q f xs hs)

  pub Every-append {κ} :
      (P : A → Type κ) (xs ys : List A) → Every P xs → Every P ys → Every P (xs ++ ys)
  Every-append P [] ys h k = k
  Every-append P (x ∷ xs) ys (h, hs) k = (h, Every-append P xs ys hs k)

  pub Every-split {κ} :
      (P : A → Type κ) (xs ys : List A) → Every P (xs ++ ys) → Every P xs × Every P ys
  Every-split P [] ys h = (tt, h)
  Every-split P (x ∷ xs) ys (h, hs) = let (k, ks) = Every-split P xs ys hs in ((h, k), ks)

  pub Every-at {κ} : (P : A → Type κ) {x : A} {xs : List A} → Every P xs → Within x xs → P x
  Every-at P {x} h w = (Every-split P w.before (x ∷ w.after) (subst (Every P) w.whole h)).1.0

module _ {ℓ κ} {A : Type ℓ} {B : Type κ} where
  pub map-Within : (f : A → B) {x : A} {xs : List A} → Within x xs → Within (f x) (map f xs)
  map-Within f {x} w = record {
    before = map f w.before;
    after = map f w.after;
    whole = ap (map f) w.whole ∙ map-append f w.before (x ∷ w.after);
  }

  pub Every-map_to {μ ν} :
      (P : A → Type μ) (Q : B → Type ν) (f : A → B)
      → ((x : A) → P x → Q (f x))
      → (xs : List A) → Every P xs
      → Every Q (map f xs)
  Every-map_to P Q f g [] h = tt
  Every-map_to P Q f g (x ∷ xs) (h, hs) = (g x h, Every-map_to P Q f g xs hs)

module _ {ℓ κ μ} {E : Type ℓ} {A : Type κ} {B : Type μ} (f : A → Outcome E B) where
  pub collect-at :
      (before : List A) (x : A) (after : List A) {ys : List B}
      → collect f (before ++ x ∷ after) ≡ ok ys
      → (y : B) × (f x ≡ ok y) × Within y ys
  unfolding collect
  collect-at [] x after {ys} h =
      let (y, hy, rest) = >>=-eq-ok (f x) _ h in
      let (zs, hzs, last) = >>=-eq-ok (collect f after) _ rest in
      let made : y ∷ zs ≡ ys = ground arith in
      (y, hy, subst (Within y) made (record { before = []; after = zs; whole = refl }))
  collect-at (b ∷ before) x after {ys} h =
      let (c, hc, rest) = >>=-eq-ok (f b) _ h in
      let (zs, hzs, last) = >>=-eq-ok (collect f (before ++ x ∷ after)) _ rest in
      let (y, hy, w) = collect-at before x after hzs in
      let made : c ∷ zs ≡ ys = ground arith in (y, hy, subst (Within y) made (cons-Within c w))

  pub collect-Within :
      {x : A} {xs : List A} {ys : List B}
      → Within x xs
      → collect f xs ≡ ok ys
      → (y : B) × (f x ≡ ok y) × Within y ys
  collect-Within {x} w h = collect-at w.before x w.after (ap (collect f) (sym w.whole) ∙ h)

  pub collect-Every {ν π} :
      (P : A → Type ν) (Q : B → Type π) (xs : List A) {ys : List B}
      → ((x : A) (y : B) → f x ≡ ok y → P x → Q y)
      → collect f xs ≡ ok ys
      → Every P xs
      → Every Q ys
  unfolding collect
  collect-Every P Q [] {ys} g h e = let made : [] ≡ ys = ground arith in subst (Every Q) made tt
  collect-Every P Q (x ∷ xs) {ys} g h (e, es) =
      let (y, hy, rest) = >>=-eq-ok (f x) _ h in
      let (zs, hzs, last) = >>=-eq-ok (collect f xs) _ rest in
      let made : y ∷ zs ≡ ys = ground arith in
      subst (Every Q) made (g x y hy e, collect-Every P Q xs g hzs es)

module _ {ℓ κ} {K : Type ℓ} {V : Type κ} ⦃e : Eq K⦄ where
  pub get-Within : (k : K) (v : V) (m : Map K V) → Map.get k m ≡ some v → Within (k, v) m
  unfolding Map.get
  get-Within k v [] h = cc
  get-Within k v ((j, w) ∷ m) h = elim (Bool-cases (j == k)) [
    | inl same ↦
        let key : j ≡ k = (e.eq_iff j k).0 same in
        let value : w ≡ v = ground arith in
        record { before = []; after = m; whole = ap₂ (λ i u. (i, u) ∷ m) key value }
    | inr other ↦ cons-Within (j, w) (get-Within k v m (ground arith))
  ]

  pub Every-insert {μ} :
      (P : K × V → Type μ) (k : K) (v : V) (m : Map K V)
      → P (k, v)
      → Every P m
      → Every P (Map.insert k v m)
  unfolding Map.insert
  Every-insert P k v [] p h = (p, tt)
  Every-insert P k v ((j, w) ∷ m) p (h, hs) = elim (Bool-cases (j == k)) [
    | inl e ↦ rw e (p, hs)
    | inr e ↦ rw e (h, Every-insert P k v m p hs)
  ]

  pub Every-remove {μ} :
      (P : K × V → Type μ) (k : K) (m : Map K V) → Every P m → Every P (Map.remove k m)
  unfolding Map.remove
  Every-remove P k [] h = tt
  Every-remove P k ((j, w) ∷ m) (h, hs) = elim (Bool-cases (j == k)) [
    | inl e ↦ rw e (Every-remove P k m hs)
    | inr e ↦ rw e (h, Every-remove P k m hs)
  ]
