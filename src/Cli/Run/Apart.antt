-- ===== src/Cli/Run/Apart.antt =====
-- src/cli/mod.rs: routes that are sorted fall into groups that are apart.
use bgpd_rs.Base.{
  ◌≡◌, ◌≢◌, sym, subst, inl, inr, true, false, List, [], ◌∷◌, ◌++◌, ◌==◌, Bool-cases, flat_map,
}
use bgpd_rs.Api.Rpc.{LearnedRoute}
use bgpd_rs.Base.Text.{Text, text_Eq}
use bgpd_rs.Base.Within.{Every, Every-map}
use bgpd_rs.Cli.Run.{group_by, join_first, compare_texts}
use bgpd_rs.Cli.Run.Groups.{Groups, concat, OneKey, concat-group_by, group_by-OneKey}
use bgpd_rs.Cli.Run.Order.{compare_texts_antisym}

-- Every route of a group differs from every route of a later group.
abbrev pub Apart : (LearnedRoute → LearnedRoute → Type 0) → Groups → Type 0
Apart D [] = Unit
Apart D (g ∷ gs) = Every (λ r. Every (D r) (concat gs)) g × Apart D gs

abbrev pub Ordered : (LearnedRoute → Text) → List LearnedRoute → Type 0
Ordered key [] = Unit
Ordered key (r ∷ rs) = Every (λ s. compare_texts (key r) (key s) ≡ true) rs × Ordered key rs

module _ (key : LearnedRoute → Text) where
  -- What comes after a later key is not the earlier one.
  passed :
      (r s t : LearnedRoute)
      → compare_texts (key r) (key s) ≡ true
      → key r ≢ key s
      → compare_texts (key s) (key t) ≡ true
      → key r ≢ key t
  passed r s t h differ k e = differ (
      compare_texts_antisym (key r) (key s) h
        (subst (λ x. compare_texts (key s) x ≡ true) (sym e) k))

  other : (r s : LearnedRoute) → (key r == key s) ≡ false → key r ≢ key s
  other r s h e = let same = (text_Eq.eq_iff (key r) (key s)).1 e in cc

  join_first-Apart :
      (r : LearnedRoute) (groups : Groups)
      → Every (λ s. compare_texts (key r) (key s) ≡ true) (concat groups)
      → Ordered key (concat groups)
      → Every (OneKey key) groups
      → Apart (λ s t. key s ≢ key t) groups
      → Apart (λ s t. key s ≢ key t) (join_first key r groups)
  unfolding join_first flat_map
  join_first-Apart r [] h o k a = ((tt, tt), tt)
  join_first-Apart r ([] ∷ groups) h o (k, ks) a = elim k [ ]
  join_first-Apart r ((s ∷ ss) ∷ groups) (h, hs) (o, os) k ((a, rest), b) =
      elim (Bool-cases (key r == key s)) [
        | inl e ↦
            let same = (text_Eq.eq_iff (key r) (key s)).0 e in
            rw e ((subst (λ x. Every (λ t. x ≢ key t) (concat groups)) (sym same) a, (a, rest)), b)
        | inr e ↦
            let differ = other r s e in
            rw e (
              ((differ, Every-map _ _ (λ t. passed r s t h differ) (ss ++ concat groups) o), tt),
              ((a, rest), b),
            )
      ]

  pub group_by-Apart :
      (rs : List LearnedRoute) → Ordered key rs → Apart (λ s t. key s ≢ key t) (group_by key rs)
  unfolding group_by
  group_by-Apart [] h = tt
  group_by-Apart (r ∷ rs) (h, hs) =
      let whole = sym (concat-group_by key rs) in
      join_first-Apart r (group_by key rs)
        (subst (Every (λ s. compare_texts (key r) (key s) ≡ true)) whole h)
        (subst (Ordered key) whole hs) (group_by-OneKey key rs) (group_by-Apart rs hs)
