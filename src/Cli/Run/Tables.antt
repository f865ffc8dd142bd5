-- ===== src/Cli/Run/Tables.antt =====
-- src/cli/mod.rs: the tables that the command line prints of the routes.
use bgpd_rs.Base.{◌≡◌, refl, ap, sym, ◌∙◌, List, [], ◌∷◌, ◌++◌, map, Perm, subst, flat_map}
use mathlib.Core.List.{append_assoc}
use bgpd_rs.Api.Rpc.{LearnedRoute}
use bgpd_rs.Base.Text.{Text, text}
use bgpd_rs.Base.Within.{Every, Every-split, Every-append}
use bgpd_rs.Cli.Display.{Row}
use bgpd_rs.Cli.Run.{
  Printed, line, table, group_by, sorted, print_family, print_families, print_routes, pair_text,
}
use bgpd_rs.Cli.Run.Groups.{Groups, concat, OneKey, sorted-perm, concat-group_by, group_by-OneKey}
use bgpd_rs.Utils.Api.{TextApi}

-- The title and the table of one family.
abbrev pub family_table : (LearnedRoute → Row) → Row → List LearnedRoute → List Printed
family_table row columns [] = []
family_table row columns (r ∷ rs) =
    line (r.afi ++ (text " / " ++ r.safi)) ∷ table columns (map row (r ∷ rs)) ∷ line [] ∷ []

-- The routes of one table have one family.
abbrev pub OneFamily : List LearnedRoute → Type 0
OneFamily g = OneKey (λ r. r.afi) g × OneKey (λ r. r.safi) g

abbrev pub by_safi : List LearnedRoute → Groups
by_safi = group_by (λ r. r.safi)

abbrev pub families : List LearnedRoute → Groups
families rs = flat_map by_safi (group_by (λ r. r.afi) (sorted rs))

pub concat-append : (gs hs : Groups) → concat (gs ++ hs) ≡ concat gs ++ concat hs
unfolding flat_map
concat-append [] hs = refl
concat-append (g ∷ gs) hs =
    ap (λ t. g ++ t) (concat-append gs hs) ∙ sym (append_assoc g (concat gs) (concat hs))

pub concat-by_safi : (gs : Groups) → concat (flat_map by_safi gs) ≡ concat gs
unfolding flat_map
concat-by_safi [] = refl
concat-by_safi (g ∷ gs) =
    concat-append (by_safi g) (flat_map by_safi gs)
    ∙ rw (concat-group_by (λ r. r.safi) g, concat-by_safi gs) refl

pub families-perm : (rs : List LearnedRoute) → Perm rs (concat (families rs))
families-perm rs =
    rw
      (concat-by_safi (group_by (λ r. r.afi) (sorted rs)), concat-group_by (λ r. r.afi) (sorted rs))
      (sorted-perm rs)

-- What is true of every route is true of those in each group.
Every-concat : (P : LearnedRoute → Type 0) (gs : Groups) → Every P (concat gs) → Every (Every P) gs
unfolding flat_map
Every-concat P [] h = tt
Every-concat P (g ∷ gs) h = let (k, ks) = Every-split P g (concat gs) h in (k, Every-concat P gs ks)

Every-afi :
    (a : Text) (g : List LearnedRoute)
    → Every (λ r. r.afi ≡ a) g
    → OneKey (λ r. r.safi) g
    → OneKey (λ r. r.afi) g
Every-afi a [] h k = k
Every-afi a (r ∷ rs) (h, hs) k = subst (λ x. Every (λ s. s.afi ≡ x) rs) (sym h) hs

-- The address family of the first route is that of the whole group, and so of its parts.
part_afi :
    (r : LearnedRoute) (rs : List LearnedRoute)
    → OneKey (λ s. s.afi) (r ∷ rs)
    → Every (Every (λ s. s.afi ≡ r.afi)) (by_safi (r ∷ rs))
part_afi r rs h =
    Every-concat _ (by_safi (r ∷ rs))
      (subst (Every (λ s. s.afi ≡ r.afi)) (sym (concat-group_by (λ s. s.safi) (r ∷ rs))) (refl, h))

part-OneFamily :
    (a : Text) (gs : Groups)
    → Every (Every (λ s. s.afi ≡ a)) gs
    → Every (OneKey (λ s. s.safi)) gs
    → Every OneFamily gs
part-OneFamily a [] h k = tt
part-OneFamily a (g ∷ gs) (h, hs) (k, ks) = ((Every-afi a g h k, k), part-OneFamily a gs hs ks)

by_safi-OneFamily : (g : List LearnedRoute) → OneKey (λ s. s.afi) g → Every OneFamily (by_safi g)
unfolding group_by
by_safi-OneFamily [] h = elim h [ ]
by_safi-OneFamily (r ∷ rs) h =
    part-OneFamily r.afi (by_safi (r ∷ rs)) (part_afi r rs h)
      (group_by-OneKey (λ s. s.safi) (r ∷ rs))

pub families-OneFamily :
    (gs : Groups) → Every (OneKey (λ s. s.afi)) gs → Every OneFamily (flat_map by_safi gs)
unfolding flat_map
families-OneFamily [] h = tt
families-OneFamily (g ∷ gs) (h, hs) =
    Every-append _ (by_safi g) (flat_map by_safi gs) (by_safi-OneFamily g h)
      (families-OneFamily gs hs)

module _ (api : TextApi) (row : LearnedRoute → Row) (columns : Row) where
  abbrev tables : Groups → List Printed
  tables = flat_map (family_table row columns)

  tables-append : (gs hs : Groups) → tables (gs ++ hs) ≡ tables gs ++ tables hs
  unfolding flat_map
  tables-append [] hs = refl
  tables-append (g ∷ gs) hs =
      ap (λ t. family_table row columns g ++ t) (tables-append gs hs)
      ∙ sym (append_assoc (family_table row columns g) (tables gs) (tables hs))

  print_family-tables :
      (a : Text) (gs : Groups)
      → Every (Every (λ s. s.afi ≡ a)) gs
      → print_family api row columns a gs ≡ tables gs
  unfolding print_family pair_text flat_map
  print_family-tables a [] h = refl
  print_family-tables a ([] ∷ gs) (h, hs) = print_family-tables a gs hs
  print_family-tables a ((r ∷ rs) ∷ gs) ((h, k), hs) = rw (h, print_family-tables a gs hs) refl

  print_families-tables :
      (gs : Groups)
      → Every (OneKey (λ s. s.afi)) gs
      → print_families api row columns gs ≡ tables (flat_map by_safi gs)
  unfolding print_families flat_map group_by
  print_families-tables [] h = refl
  print_families-tables ([] ∷ gs) (h, hs) = elim h [ ]
  print_families-tables ((r ∷ rs) ∷ gs) (h, hs) =
      rw
        (
          print_family-tables r.afi (by_safi (r ∷ rs)) (part_afi r rs h),
          print_families-tables gs hs,
          tables-append (by_safi (r ∷ rs)) (flat_map by_safi gs),
        )
        refl

  pub print_routes-tables :
      (rs : List LearnedRoute) → print_routes api row columns rs ≡ tables (families rs)
  unfolding print_routes
  print_routes-tables rs =
      print_families-tables (group_by (λ r. r.afi) (sorted rs))
        (group_by-OneKey (λ r. r.afi) (sorted rs))
