-- ===== src/Rib/SessionRoutes.antt =====
-- src/rib/session.rs: the routes of one session, by time stamp, and which of them still have to be
-- advertised.
pub mod Tracking
pub mod Pending
use bgpd_rs.Base.{
  ℕ, ◌≡◌, refl, Bool, true, false, not, ◌&&◌, ◌||◌, if◌then◌else◌, List, [], ◌∷◌, map, Option, none,
  some, retain, contains, contains-retain, ◌==◌, nat_Eq, nat_eq_iff, arith,
}
use bgpd_rs.Base.Map
use bgpd_rs.Base.Map.{Map}
use bgpd_rs.Rib.Entry.{ExportEntry}
use bgpd_rs.Rib.Families
use bgpd_rs.Rib.Families.{Families}

pub record SessionRoutes : Type 0 where
  pub families : Families
  pub routes : Map ℕ ExportEntry
  pub pending : List ℕ
  pub advertised : List ℕ

unfoldable pub new : Families → SessionRoutes
new families = record { families = families; routes = []; pending = []; advertised = [] }

-- `HashSet::insert` and `HashSet::remove`
set_insert : ℕ → List ℕ → List ℕ
set_insert t ts = if contains t ts then ts else t ∷ ts

set_remove : ℕ → List ℕ → List ℕ
set_remove t = retain λ u. not (u == t)

listed : SessionRoutes → List ℕ → List ExportEntry
listed s ts =
    map (λ r. r.1)
      (retain (λ r. Families.contains s.families r.1.update.family)
        (retain (λ r. contains r.0 ts) s.routes))

unfoldable pub pending : SessionRoutes → List ExportEntry
unfolding listed
pending s = listed s s.pending

unfoldable pub advertised : SessionRoutes → List ExportEntry
unfolding listed
advertised s = listed s s.advertised

insert_route : SessionRoutes → ExportEntry → SessionRoutes
unfolding set_insert
insert_route s entry = record s {
  routes = Map.insert entry.timestamp entry s.routes;
  pending =
      if Map.contains_key entry.timestamp s.routes
      then s.pending
      else set_insert entry.timestamp s.pending;
}

unfoldable pub insert_routes : SessionRoutes → List ExportEntry → SessionRoutes
unfolding insert_route
insert_routes s [] = s
insert_routes s (entry ∷ entries) = insert_routes (insert_route s entry) entries

unfoldable pub mark_advertised : SessionRoutes → ExportEntry → SessionRoutes
unfolding set_insert set_remove
mark_advertised s entry = record s {
  pending = set_remove entry.timestamp s.pending;
  advertised = set_insert entry.timestamp s.advertised;
}
