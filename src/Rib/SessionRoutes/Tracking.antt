-- ===== src/Rib/SessionRoutes/Tracking.antt =====
-- src/rib/session.rs: a route is advertised once.
use bgpd_rs.Base.{
  ℕ, ◌≡◌, refl, true, false, not, ◌&&◌, ◌||◌, List, [], ◌∷◌, contains, contains-retain, ◌==◌,
  nat_Eq, nat_eq_iff, arith,
}
use bgpd_rs.Base.Map
use bgpd_rs.Rib.Entry.{ExportEntry}
use bgpd_rs.Rib.Families.{Families}
use bgpd_rs.Rib.SessionRoutes.{
  SessionRoutes, new, set_insert, set_remove, insert_route, insert_routes, mark_advertised,
}

contains-set_insert :
    (t u : ℕ) (ts : List ℕ) → contains u (set_insert t ts) ≡ (u == t || contains u ts)
unfolding set_insert contains
contains-set_insert t u ts = ground (arith, nat_eq_iff u t)

contains-set_remove :
    (t u : ℕ) (ts : List ℕ) → contains u (set_remove t ts) ≡ (not (u == t) && contains u ts)
unfolding set_remove
contains-set_remove t u ts = contains-retain u _ ts

-- Each route that the session knows is either pending or advertised, and no other time stamp is.
pub record IsTracked (s : SessionRoutes) : Type 0 where
  pub known :
      (t : ℕ) → Map.contains_key t s.routes ≡ (contains t s.pending || contains t s.advertised)
  pub apart : (t : ℕ) → (contains t s.pending && contains t s.advertised) ≡ false

pub new-IsTracked : (families : Families) → IsTracked (new families)
unfolding new Map.get contains
new-IsTracked families = record { known = λ t. refl; apart = λ t. refl }

insert_route-IsTracked :
    (s : SessionRoutes) (e : ExportEntry) → IsTracked s → IsTracked (insert_route s e)
unfolding insert_route
insert_route-IsTracked s e w = record {
  known = λ t. ground (
    arith,
    Map.get-insert e.timestamp t e s.routes,
    contains-set_insert e.timestamp t s.pending,
    w.known t,
    w.known e.timestamp,
    nat_eq_iff e.timestamp t,
    nat_eq_iff t e.timestamp,
  );
  apart = λ t. ground (
    arith,
    contains-set_insert e.timestamp t s.pending,
    w.known t,
    w.known e.timestamp,
    w.apart t,
    nat_eq_iff t e.timestamp,
  );
}

pub insert_routes-IsTracked :
    (s : SessionRoutes) (es : List ExportEntry) → IsTracked s → IsTracked (insert_routes s es)
unfolding insert_routes
insert_routes-IsTracked s [] w = w
insert_routes-IsTracked s (e ∷ es) w =
    insert_routes-IsTracked (insert_route s e) es (insert_route-IsTracked s e w)

pub mark_advertised-IsTracked :
    (s : SessionRoutes) (e : ExportEntry)
    → Map.contains_key e.timestamp s.routes ≡ true
    → IsTracked s
    → IsTracked (mark_advertised s e)
unfolding mark_advertised
mark_advertised-IsTracked s e k w = record {
  known = λ t. ground (
    arith,
    contains-set_insert e.timestamp t s.advertised,
    contains-set_remove e.timestamp t s.pending,
    w.known t,
    nat_eq_iff t e.timestamp,
  );
  apart = λ t. ground (
    arith,
    contains-set_insert e.timestamp t s.advertised,
    contains-set_remove e.timestamp t s.pending,
    w.apart t,
    nat_eq_iff t e.timestamp,
  );
}

advertised-insert_routes :
    (t : ℕ) (s : SessionRoutes) (es : List ExportEntry)
    → (insert_routes s es).advertised ≡ s.advertised
unfolding insert_routes insert_route
advertised-insert_routes t s [] = refl
advertised-insert_routes t s (e ∷ es) = advertised-insert_routes t (insert_route s e) es

-- A route that was advertised does not become pending again, whatever the table hands in later.
pub advertised_once :
    (s : SessionRoutes) (e : ExportEntry) (es : List ExportEntry)
    → IsTracked s
    → Map.contains_key e.timestamp s.routes ≡ true
    → (contains e.timestamp (insert_routes (mark_advertised s e) es).advertised ≡ true)
      × (contains e.timestamp (insert_routes (mark_advertised s e) es).pending ≡ false)
unfolding mark_advertised
advertised_once s e es w k =
    let w' = insert_routes-IsTracked _ es (mark_advertised-IsTracked s e k w) in
    let sent : contains e.timestamp (insert_routes (mark_advertised s e) es).advertised ≡ true =
      rw (advertised-insert_routes e.timestamp (mark_advertised s e) es, contains-set_insert)
        (ground (arith, nat_eq_iff e.timestamp e.timestamp)) in
    (sent, ground (arith, w'.apart e.timestamp))

pub insert_routes-known :
    (t : ℕ) (s : SessionRoutes) (es : List ExportEntry)
    → Map.contains_key t s.routes ≡ true
    → Map.contains_key t (insert_routes s es).routes ≡ true
unfolding insert_routes insert_route
insert_routes-known t s [] h = h
insert_routes-known t s (e ∷ es) h =
    insert_routes-known t (insert_route s e) es
      (ground (arith, Map.get-insert e.timestamp t e s.routes))
