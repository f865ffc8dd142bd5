-- ===== src/Api/Handler/Advertise.antt =====
-- src/api/handler.rs: a route that is advertised over the API reaches the peers.
use bgpd_rs.Base.{
  ℕ, ◌≡◌, ◌∙◌, ap, sym, subst, true, List, none, some, contains, Outcome, ok, >>=-eq-ok, nat_Eq,
  arith,
}
use bgpd_rs.Base.Map
use bgpd_rs.Base.Within.{Within, Every}
use bgpd_rs.Api.Handler.{ApiError, insert, advertise_route}
use bgpd_rs.Api.Routes.{entry_to_route}
use bgpd_rs.Api.Rpc.{LearnedRoute}
use bgpd_rs.Bgp.{update_msg, Update, NlriEncoding, PathAttribute, unicast}
use bgpd_rs.Config.{AdvertiseSource, advertise_Eq}
use bgpd_rs.Config.Specs.{RouteSpec}
use bgpd_rs.Handler.{State}
use bgpd_rs.Rib.{pairs, get_routes_for_peer, insert_from_api}
use bgpd_rs.Rib.Attributes.{AttributeApi, PathAttributes, from_attributes}
use bgpd_rs.Rib.Attributes.Errors.{from_group_any}
use bgpd_rs.Rib.Attributes.Reading.{NamesVariants}
use bgpd_rs.Rib.Community.{Community}
use bgpd_rs.Rib.Entry.{ExportEntry}
use bgpd_rs.Rib.Families
use bgpd_rs.Rib.Families.{Family}
use bgpd_rs.Rib.Insertions.Api.{Inserted, insert_from_api-Inserted, Inserted-for_peer, Unused}
use bgpd_rs.Rib.SessionRoutes.Pending.{Only}
use bgpd_rs.Session.Error.{SessionError}
use bgpd_rs.Session.Peer.{Session, established}
use bgpd_rs.Session.Run.{pending_routes, advertise_source, advertise_pending}
use bgpd_rs.Session.Run.Taking.{taking, taken_pending, pending_sent}
use bgpd_rs.Session.Updates.{create_update}
use bgpd_rs.Utils.Api.{TextApi}
use bgpd_rs.Utils.Numbers.{prefix_from_network}
use bgpd_rs.Utils.Specs.{parse_asns, parse_communities, origin_of, parse_route_spec}
use bgpd_rs.Utils.Specs.Attributes.{attributes_from, parse_route_spec-from_group}

ok-attributes :
    {a b : PathAttributes} → Path (Outcome ApiError PathAttributes) (ok a) (ok b) → a ≡ b
ok-attributes h = cc

module _ (lib : AttributeApi) (names : NamesVariants lib) (api : TextApi) where
  -- What `advertise_route` has done where it answers.
  advertise_route-Inserted :
      (s : State) (route : RouteSpec) (now : ℕ) {f : Family} {attributes : List PathAttribute}
      {n : NlriEncoding} {shown : LearnedRoute} {s' : State}
      → parse_route_spec api route ≡ ok (f, (attributes, n))
      → advertise_route lib api s route now ≡ ok (shown, s')
      → (x : ExportEntry) × (shown ≡ entry_to_route api x now)
        × Inserted ApiError lib s.rib s'.rib f attributes n now x
  unfolding advertise_route insert
  advertise_route-Inserted s route now {f} {attributes} {n} {shown} {s'} parsed h =
      let added = rw parsed at h in
      let ((x, rib), hx, last) = >>=-eq-ok (insert_from_api lib s.rib f attributes n now) _ added in
      let both : ◌≡◌ {A = LearnedRoute × State} (entry_to_route api x now, record s { rib = rib })
          (shown, s') =
        ground arith in
      (
        x,
        sym (ap (λ (p : LearnedRoute × State). p.0) both),
        subst (λ r. Inserted ApiError lib s.rib r f attributes n now x)
            (ap (λ (p : LearnedRoute × State). p.1.rib) both)
            (insert_from_api-Inserted ApiError lib s.rib f attributes n now hx),
      )

  -- A route that `advertise_route` accepts reaches every established session that advertises routes
  -- of the API and has the family of the route: if no entry of the table and no route of the session
  -- has the time stamp of the call, and the session takes its routes from the table and gets through
  -- what it has to send, it sends the UPDATE of the route, with the prefix and the attributes of the
  -- specification. The answer of the call shows this route.
  pub advertise_route-sent :
      (s : State) (route : RouteSpec) (now : ℕ) {asns : List ℕ} {comms : List Community}
      {shown : LearnedRoute} {s' : State} (session : Session) (later : ℕ) {es : List ExportEntry}
      {session' : Session}
      → parse_asns route.attributes.as_path ≡ ok asns
      → parse_communities route.attributes.communities ≡ ok comms
      → advertise_route lib api s route now ≡ ok (shown, s')
      → Every (Unused now) (pairs s.rib)
      → Map.get now session.routes.routes ≡ none
      → Families.contains session.routes.families
          (record { afi = (prefix_from_network route.prefix).protocol; safi = unicast })
        ≡ true
      → contains AdvertiseSource.api session.config.advertise_sources ≡ true
      → session.state ≡ established
      → get_routes_for_peer {E = ℕ} s'.rib session.addr ≡ ok es
      → advertise_pending (taking session es) later ≡ ok session'
      → (x : ExportEntry) × (u : Update) × (shown ≡ entry_to_route api x now)
        × (x.update.nlri ≡ NlriEncoding.ip (prefix_from_network route.prefix))
        × (x.update.attributes
            ≡ attributes_from
                (some route.next_hop)
                (origin_of api route.attributes.origin)
                route.attributes.local_pref
                route.attributes.multi_exit_disc
                asns
                comms)
        × (create_update {E = SessionError × Session} (taking session es) x.update ≡ ok u)
        × Within (update_msg u) session'.protocol.sent
  advertise_route-sent s route now {asns} {comms} {shown} {s'} session later {es} ha hc h unused
        fresh family allowed state taken sends =
      let (attributes, (parsed, read)) = parse_route_spec-from_group lib names api route ha hc in
      let (x, answer, w) = advertise_route-Inserted s route now parsed h in
      let (within, only) =
        Inserted-for_peer lib s.rib s'.rib _ attributes _ now x session.addr w unused taken in
      let at : x.timestamp ≡ now = ap (λ (e : ExportEntry). e.timestamp) (sym w.entry) in
      let pending : Within x (pending_routes (taking session es)) =
        taken_pending session x es within (subst (λ t. Every (Only t x) es) (sym at) only)
          (ap (λ t. Map.get t session.routes.routes) at ∙ fresh)
          (ap (λ (e : ExportEntry). Families.contains session.routes.families e.update.family)
              (sym w.entry)
            ∙ family)
          (ap
              (λ (e : ExportEntry).
                contains (advertise_source e.source) session.config.advertise_sources)
              (sym w.entry)
            ∙ unfold advertise_source in allowed) in
      let (u, hu, sent) = pending_sent (taking session es) x later state pending sends in
      let same : ◌≡◌ {A = Outcome ApiError PathAttributes} (ok w.attributes) (ok _) =
        sym w.read ∙ from_group_any (from_attributes lib attributes) read in
      (
        x,
        u,
        answer,
        ap (λ (e : ExportEntry). e.update.nlri) (sym w.entry),
        ap (λ (e : ExportEntry). e.update.attributes) (sym w.entry) ∙ ok-attributes same,
        hu,
        sent,
      )
