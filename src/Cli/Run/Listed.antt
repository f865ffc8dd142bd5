-- ===== src/Cli/Run/Listed.antt =====
-- src/cli/mod.rs: the routes that the command line prints.
use bgpd_rs.Base.{
  ◌≡◌, ◌≢◌, refl, ap, sym, ◌∙◌, ◌⊎◌, inl, inr, true, List, [], ◌∷◌, ◌++◌, Perm, subst, flat_map, ok,
}
use bgpd_rs.Api.Rpc.{LearnedRoute}
use bgpd_rs.Base.Text.{Text}
use bgpd_rs.Base.Within.{Every, Every-map, Every-split, Every-append}
use bgpd_rs.Cli.Args.{Show, Routes, RouteOptions, routes, learned}
use bgpd_rs.Cli.Args as Args
use bgpd_rs.Cli.Display.{learned_row, learned_columns}
use bgpd_rs.Cli.Run.{Client, before, group_by, sorted, compare_texts, run_cmd, run_show}
use bgpd_rs.Cli.Run.Apart.{Apart, Ordered, group_by-Apart}
use bgpd_rs.Cli.Run.Groups.{Groups, concat, OneKey, concat-group_by, group_by-OneKey}
use bgpd_rs.Cli.Run.Order.{IsSorted, sorted-IsSorted, before-afi, before-safi}
use bgpd_rs.Cli.Run.Tables.{
  by_safi, families, family_table, OneFamily, concat-append, concat-by_safi, families-perm,
  families-OneFamily, print_routes-tables,
}
use bgpd_rs.Utils.Api.{TextApi}

-- Two routes of different families.
abbrev pub OtherFamily : LearnedRoute → LearnedRoute → Type 0
OtherFamily r s = (r.afi ≢ s.afi) ⊎ (r.safi ≢ s.safi)

Apart-map :
    {D E : LearnedRoute → LearnedRoute → Type 0} (gs : Groups)
    → ((r s : LearnedRoute) → D r s → E r s)
    → Apart D gs
    → Apart E gs
Apart-map [] f h = tt
Apart-map (g ∷ gs) f (h, hs) =
    (Every-map _ _ (λ r. Every-map _ _ (f r) (concat gs)) g h, Apart-map gs f hs)

-- The differences from two lists are one from both.
Every-both :
    (D : LearnedRoute → LearnedRoute → Type 0) (g rs ss : List LearnedRoute)
    → Every (λ r. Every (D r) rs) g
    → Every (λ r. Every (D r) ss) g
    → Every (λ r. Every (D r) (rs ++ ss)) g
Every-both D [] rs ss h k = tt
Every-both D (r ∷ g) rs ss (h, hs) (k, ks) =
    (Every-append (D r) rs ss h k, Every-both D g rs ss hs ks)

Apart-append :
    (D : LearnedRoute → LearnedRoute → Type 0) (gs hs : Groups)
    → Apart D gs
    → Apart D hs
    → Every (λ r. Every (D r) (concat hs)) (concat gs)
    → Apart D (gs ++ hs)
unfolding flat_map
Apart-append D [] hs a b c = b
Apart-append D (g ∷ gs) hs (a, rest) b c =
    let (first, later) = Every-split _ g (concat gs) c in
    (
      subst (λ t. Every (λ r. Every (D r) t) g) (sym (concat-append gs hs))
          (Every-both D g (concat gs) (concat hs) a first),
      Apart-append D gs hs rest b later,
    )

IsSorted-split : (rs ss : List LearnedRoute) → IsSorted (rs ++ ss) → IsSorted rs × IsSorted ss
IsSorted-split [] ss h = (tt, h)
IsSorted-split (r ∷ rs) ss (h, hs) =
    let (k, ks) = IsSorted-split rs ss hs in (((Every-split _ rs ss h).0, k), ks)

IsSorted-afi : (rs : List LearnedRoute) → IsSorted rs → Ordered (λ r. r.afi) rs
IsSorted-afi [] h = tt
IsSorted-afi (r ∷ rs) (h, hs) = (Every-map _ _ (before-afi r) rs h, IsSorted-afi rs hs)

Every-safi :
    (a : Text) (r : LearnedRoute) (rs : List LearnedRoute)
    → r.afi ≡ a
    → Every (λ s. s.afi ≡ a) rs
    → Every (λ s. before r s ≡ true) rs
    → Every (λ s. compare_texts r.safi s.safi ≡ true) rs
Every-safi a r [] e k h = tt
Every-safi a r (s ∷ ss) e (k, ks) (h, hs) =
    (before-safi r s (e ∙ sym k) h, Every-safi a r ss e ks hs)

IsSorted-safi :
    (a : Text) (rs : List LearnedRoute)
    → Every (λ s. s.afi ≡ a) rs
    → IsSorted rs
    → Ordered (λ s. s.safi) rs
IsSorted-safi a [] k h = tt
IsSorted-safi a (s ∷ ss) (k, ks) (h, hs) = (Every-safi a s ss k ks h, IsSorted-safi a ss ks hs)

group-safi :
    (g : List LearnedRoute) → OneKey (λ s. s.afi) g → IsSorted g → Apart OtherFamily (by_safi g)
group-safi [] k h = elim k [ ]
group-safi (r ∷ rs) k h =
    Apart-map (by_safi (r ∷ rs)) (λ s t. inr)
      (group_by-Apart (λ s. s.safi) (r ∷ rs) (IsSorted-safi r.afi (r ∷ rs) (refl, k) h))

groups-safi :
    (gs : Groups)
    → Every (OneKey (λ s. s.afi)) gs
    → IsSorted (concat gs)
    → Apart OtherFamily gs
    → Apart OtherFamily (flat_map by_safi gs)
unfolding flat_map
groups-safi [] k h a = tt
groups-safi (g ∷ gs) (k, ks) h (a, rest) =
    let (first, later) = IsSorted-split g (concat gs) h in
    Apart-append OtherFamily (by_safi g) (flat_map by_safi gs) (group-safi g k first)
      (groups-safi gs ks later rest) (rw (concat-by_safi gs, concat-group_by (λ s. s.safi) g) a)

families-Apart : (rs : List LearnedRoute) → Apart OtherFamily (families rs)
families-Apart rs =
    let gs = group_by (λ r. r.afi) (sorted rs) in
    let order = sorted-IsSorted rs in
    groups-safi gs (group_by-OneKey (λ r. r.afi) (sorted rs))
      (subst IsSorted (sym (concat-group_by (λ r. r.afi) (sorted rs))) order)
      (Apart-map gs (λ s t. inl)
        (group_by-Apart (λ r. r.afi) (sorted rs) (IsSorted-afi (sorted rs) order)))

-- The learned routes that the daemon gives are printed as one table for each family that they have,
-- under its name, with one row for every route and no other.
pub run_cmd-learned :
    (api : TextApi) (client : Client) (options : RouteOptions) {rs : List LearnedRoute}
    → client.show_routes_learned options.peer ≡ ok rs
    → (groups : Groups) × (run_cmd api client (Args.show (routes (learned options)))
        ≡ ok (flat_map (family_table (learned_row api) learned_columns) groups))
      × Perm rs (concat groups)
      × Every OneFamily groups
      × Apart OtherFamily groups
unfolding run_cmd run_show
run_cmd-learned api client options {rs} h = (
  families rs,
  rw h (ap ok (print_routes-tables api (learned_row api) learned_columns rs)),
  families-perm rs,
  families-OneFamily (group_by (λ r. r.afi) (sorted rs)) (group_by-OneKey (λ r. r.afi) (sorted rs)),
  families-Apart rs,
)
