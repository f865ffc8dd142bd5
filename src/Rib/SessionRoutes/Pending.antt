-- ===== src/Rib/SessionRoutes/Pending.antt =====
-- src/rib/session.rs: a new route becomes pending.
use bgpd_rs.Base.{
  ℕ, ◌≡◌, refl, ◌∙◌, ap, true, false, if◌then◌else◌, List, [], ◌∷◌, ◌++◌, none, some, contains,
  Bool-cases, inl, inr, ◌==◌, nat_Eq, nat_eq_iff, arith,
}
use bgpd_rs.Base.Map
use bgpd_rs.Base.Within.{Within, Every, retain-Within, map-Within, get-Within, Every-insert}
use bgpd_rs.Rib.Entry.{ExportEntry}
use bgpd_rs.Rib.Families
use bgpd_rs.Rib.SessionRoutes.{
  SessionRoutes, pending, listed, set_insert, insert_route, insert_routes,
}

-- All the routes with a time stamp are one.
abbrev pub Only : ℕ → ExportEntry → ExportEntry → Type 0
Only t x e = (e.timestamp == t) ≡ true → e ≡ x

-- The session has the route, and still has to send it.
abbrev pub Waits : ℕ → ExportEntry → SessionRoutes → Type 0
Waits t x s = (Map.get t s.routes ≡ some x) × (contains t s.pending ≡ true)

insert_route-Waits :
    (t : ℕ) (x e : ExportEntry) (s : SessionRoutes)
    → Only t x e
    → Waits t x s
    → Waits t x (insert_route s e)
unfolding insert_route set_insert contains
insert_route-Waits t x e s only (g, p) =
    (Map.get-insert e.timestamp t e s.routes ∙ overwritten, ground arith)
  where
    overwritten : (if e.timestamp == t then some e else Map.get t s.routes) ≡ some x
    overwritten = elim (Bool-cases (e.timestamp == t)) [
      | inl same ↦ rw same (ap some (only same))
      | inr other ↦ rw other g
    ]

insert_route-new :
    (t : ℕ) (x e : ExportEntry) (s : SessionRoutes)
    → e.timestamp ≡ t
    → e ≡ x
    → Map.get t s.routes ≡ none
    → Waits t x (insert_route s e)
unfolding insert_route set_insert contains
insert_route-new t x e s at same fresh = (
  Map.get-insert e.timestamp t e s.routes ∙ rw ((nat_eq_iff e.timestamp t).1 at) (ap some same),
  ground (arith, nat_eq_iff e.timestamp t),
)

insert_route-other :
    (t : ℕ) (e : ExportEntry) (s : SessionRoutes)
    → (e.timestamp == t) ≡ false
    → Map.get t s.routes ≡ none
    → Map.get t (insert_route s e).routes ≡ none
unfolding insert_route
insert_route-other t e s other fresh = Map.get-insert e.timestamp t e s.routes ∙ rw other fresh

insert_routes-Waits :
    (t : ℕ) (x : ExportEntry) (es : List ExportEntry) (s : SessionRoutes)
    → Every (Only t x) es
    → Waits t x s
    → Waits t x (insert_routes s es)
unfolding insert_routes
insert_routes-Waits t x [] s all w = w
insert_routes-Waits t x (e ∷ es) s (h, hs) w =
    insert_routes-Waits t x es (insert_route s e) hs (insert_route-Waits t x e s h w)

-- A route with a time stamp of its own that the session does not know is one that it has to send.
pub insert_routes-new :
    (t : ℕ) (x : ExportEntry) (before after : List ExportEntry) (s : SessionRoutes)
    → x.timestamp ≡ t
    → Every (Only t x) (before ++ x ∷ after)
    → Map.get t s.routes ≡ none
    → Waits t x (insert_routes s (before ++ x ∷ after))
unfolding insert_routes
insert_routes-new t x [] after s at (h, hs) fresh =
    insert_routes-Waits t x after (insert_route s x) hs (insert_route-new t x x s at refl fresh)
insert_routes-new t x (e ∷ before) after s at (h, hs) fresh = elim (Bool-cases (e.timestamp == t)) [
  | inl same ↦
      insert_routes-Waits t x (before ++ x ∷ after) (insert_route s e) hs
        (insert_route-new t x e s ((nat_eq_iff e.timestamp t).0 same) (h same) fresh)
  | inr other ↦
      insert_routes-new t x before after (insert_route s e) at hs
        (insert_route-other t e s other fresh)
]

-- A route that waits is listed, if its family is one of the session's.
pub Waits-pending :
    (t : ℕ) (x : ExportEntry) (s : SessionRoutes)
    → Waits t x s
    → Families.contains s.families x.update.family ≡ true
    → Within x (pending s)
unfolding pending listed
Waits-pending t x s (g, p) family =
    map-Within (λ (r : ℕ × ExportEntry). r.1)
      (retain-Within _ family (
        retain-Within (λ (r : ℕ × ExportEntry). contains r.0 s.pending) p
          (get-Within t x s.routes g)))

pub families-insert_routes :
    (s : SessionRoutes) (es : List ExportEntry) → (insert_routes s es).families ≡ s.families
unfolding insert_routes insert_route
families-insert_routes s [] = refl
families-insert_routes s (e ∷ es) = families-insert_routes (insert_route s e) es

-- What is true of the routes that a session has and of those that it takes stays true.
pub insert_routes-Every :
    (P : ExportEntry → Type 0) (s : SessionRoutes) (es : List ExportEntry)
    → Every P es
    → Every (λ r. P r.1) s.routes
    → Every (λ r. P r.1) (insert_routes s es).routes
unfolding insert_routes insert_route
insert_routes-Every P s [] h k = k
insert_routes-Every P s (e ∷ es) (h, hs) k =
    insert_routes-Every P (insert_route s e) es hs
      (Every-insert (λ r. P r.1) e.timestamp e s.routes h k)
