-- ===== src/Base/Unique.antt =====
-- Maps that hold each key once.
use bgpd_rs.Base.Equality.{Eq}
use bgpd_rs.Base.Tests.{if◌then◌else◌}
use bgpd_rs.Base.Lists.{retain}
use bgpd_rs.Base.Map.{Map, get, contains_key, upsert, contains_key-upsert}
use mathlib.Core.Path.{◌≡◌, refl}
use mathlib.Core.Bool.{Bool, false}
use mathlib.Core.List.{[], ◌∷◌, map}
use mathlib.Core.Option.{none, some}
use native.Mathlib.Omega.{arith}

module _ {ℓ κ} {K : Type ℓ} {V : Type κ} ⦃e : Eq K⦄ where
  abbrev pub IsUnique : Map K V → Type 0
  IsUnique [] = Unit {0}
  IsUnique ((k, v) ∷ m) = (contains_key k m ≡ false) × IsUnique m

  pub upsert-IsUnique :
      (k : K) (v : V) (f : V → V) (m : Map K V) → IsUnique m → IsUnique (upsert k v f m)
  unfolding upsert get
  upsert-IsUnique k v f [] u = (refl, tt)
  upsert-IsUnique k v f ((j, w) ∷ m) u = ground (
    arith,
    upsert-IsUnique k v f m u.1,
    contains_key-upsert k j v f m,
    e.eq_iff j k,
    e.eq_iff k j,
  )

  contains_retain :
      (k : K) (p : K × V → Bool) (m : Map K V)
      → contains_key k m ≡ false
      → contains_key k (retain p m) ≡ false
  unfolding retain get
  contains_retain k p [] h = refl
  contains_retain k p ((j, w) ∷ m) h = ground (arith, contains_retain k p m)

  pub retain-IsUnique : (p : K × V → Bool) (m : Map K V) → IsUnique m → IsUnique (retain p m)
  unfolding retain
  retain-IsUnique p [] u = tt
  retain-IsUnique p ((j, w) ∷ m) u =
      ground (arith, retain-IsUnique p m u.1, contains_retain j p m u.0)

  -- With unique keys a key is kept exactly when the entry under it is.
  pub get-retain :
      (k : K) (p : K × V → Bool) (m : Map K V)
      → IsUnique m
      → get k (retain p m)
        ≡ (elim (get k m) [ none ↦ none | some v ↦ if p (k, v) then some v else none ])
  unfolding retain get
  get-retain k p [] u = refl
  get-retain k p ((j, w) ∷ m) u =
      ground (arith, get-retain k p m u.1, contains_retain k p m, e.eq_iff j k)

  -- Values changed in place.
  pub contains_key-map :
      (k : K) (f : V → V) (m : Map K V)
      → contains_key k (map (λ g. (g.0, f g.1)) m) ≡ contains_key k m
  unfolding get
  contains_key-map k f [] = refl
  contains_key-map k f ((j, w) ∷ m) = ground (arith, contains_key-map k f m)

  pub map-IsUnique : (f : V → V) (m : Map K V) → IsUnique m → IsUnique (map (λ g. (g.0, f g.1)) m)
  map-IsUnique f [] u = tt
  map-IsUnique f ((j, w) ∷ m) u = ground (arith, map-IsUnique f m u.1, contains_key-map j f m)
