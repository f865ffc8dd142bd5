-- ===== src/Cli/Run/Groups.antt =====
-- src/cli/mod.rs: how the routes are sorted and grouped before they are printed.
use bgpd_rs.Base.{
  ◌≡◌, refl, ap, sym, ◌∙◌, inl, inr, List, [], ◌∷◌, Perm, flat_map, ◌==◌, Bool-cases,
}
use mathlib.Core.List.Perm
use bgpd_rs.Api.Rpc.{LearnedRoute}
use bgpd_rs.Base.Text.{Text, text_Eq}
use bgpd_rs.Base.Within.{Every}
use bgpd_rs.Cli.Run.{sorted, place, before, group_by, join_first}

abbrev pub Groups : Type 0
Groups = List (List LearnedRoute)

abbrev pub concat : Groups → List LearnedRoute
concat = flat_map (λ g. g)

-- A group has routes, and they have one key.
abbrev pub OneKey : (LearnedRoute → Text) → List LearnedRoute → Type 0
OneKey key [] = ⊥
OneKey key (r ∷ rs) = Every (λ s. key s ≡ key r) rs

place-perm : (r : LearnedRoute) (rs : List LearnedRoute) → Perm (r ∷ rs) (place r rs)
unfolding place
place-perm r [] = Perm.refl _
place-perm r (s ∷ ss) = elim (Bool-cases (before r s)) [
  | inl h ↦ rw h (Perm.refl _)
  | inr h ↦ rw h (Perm.trans (Perm.swap s r ss) (Perm.cons s (place-perm r ss)))
]

pub sorted-perm : (rs : List LearnedRoute) → Perm rs (sorted rs)
unfolding sorted
sorted-perm [] = Perm.nil
sorted-perm (r ∷ rs) = Perm.trans (Perm.cons r (sorted-perm rs)) (place-perm r (sorted rs))

module _ (key : LearnedRoute → Text) where
  join_first-concat :
      (r : LearnedRoute) (groups : Groups) → concat (join_first key r groups) ≡ r ∷ concat groups
  unfolding join_first flat_map
  join_first-concat r [] = refl
  join_first-concat r ([] ∷ groups) = refl
  join_first-concat r ((s ∷ ss) ∷ groups) = elim (Bool-cases (key r == key s)) [
    | inl h ↦ rw h refl
    | inr h ↦ rw h refl
  ]

  pub concat-group_by : (rs : List LearnedRoute) → concat (group_by key rs) ≡ rs
  unfolding group_by flat_map
  concat-group_by [] = refl
  concat-group_by (r ∷ rs) =
      join_first-concat r (group_by key rs) ∙ ap (λ t. r ∷ t) (concat-group_by rs)

  Every-same :
      {a b : Text} (rs : List LearnedRoute)
      → a ≡ b
      → Every (λ s. key s ≡ b) rs
      → Every (λ s. key s ≡ a) rs
  Every-same [] e h = tt
  Every-same (r ∷ rs) e (h, hs) = (h ∙ sym e, Every-same rs e hs)

  join_first-OneKey :
      (r : LearnedRoute) (groups : Groups)
      → Every (OneKey key) groups
      → Every (OneKey key) (join_first key r groups)
  unfolding join_first
  join_first-OneKey r [] h = (tt, tt)
  join_first-OneKey r ([] ∷ groups) (h, hs) = elim h [ ]
  join_first-OneKey r ((s ∷ ss) ∷ groups) (h, hs) = elim (Bool-cases (key r == key s)) [
    | inl e ↦
        let same = (text_Eq.eq_iff (key r) (key s)).0 e in
        rw e ((sym same, Every-same ss same h), hs)
    | inr e ↦ rw e (tt, (h, hs))
  ]

  pub group_by-OneKey : (rs : List LearnedRoute) → Every (OneKey key) (group_by key rs)
  unfolding group_by
  group_by-OneKey [] = tt
  group_by-OneKey (r ∷ rs) = join_first-OneKey r (group_by key rs) (group_by-OneKey rs)
