-- ===== src/Session/Run/Taking.antt =====
-- src/session/manager.rs and src/session/lib.rs: a route that a session takes from the table is sent.
use bgpd_rs.Base.{ℕ, ◌≡◌, refl, ◌∙◌, ap, sym, subst, true, List, none, contains, ok, nat_Eq}
use bgpd_rs.Base.Map
use bgpd_rs.Base.Within.{Within, Every, retain-Within, map-Within, append-Within, collect-Within}
use bgpd_rs.Bgp.{update_msg, Update}
use bgpd_rs.Config.{advertise_Eq}
use bgpd_rs.Rib.Entry.{ExportEntry}
use bgpd_rs.Rib.Families
use bgpd_rs.Rib.SessionRoutes.{insert_routes}
use bgpd_rs.Rib.SessionRoutes.Pending.{
  Only, Waits, insert_routes-new, Waits-pending, families-insert_routes,
}
use bgpd_rs.Session.Error.{SessionError}
use bgpd_rs.Session.Peer.{Session, established}
use bgpd_rs.Session.Run.{pending_routes, advertise_source, advertise_pending}
use bgpd_rs.Session.Run.Advertised.{advertise_pending-sent}
use bgpd_rs.Session.Updates.{create_update}

-- A session after it has taken routes from the table, as the manager does in each of its turns.
abbrev pub taking : Session → List ExportEntry → Session
taking session es = record session { routes = insert_routes session.routes es }

-- A new route with a source that a session advertises is one of the routes that it goes on to send.
pub taken_pending :
    (session : Session) (x : ExportEntry) (es : List ExportEntry)
    → Within x es
    → Every (Only x.timestamp x) es
    → Map.get x.timestamp session.routes.routes ≡ none
    → Families.contains session.routes.families x.update.family ≡ true
    → contains (advertise_source x.source) session.config.advertise_sources ≡ true
    → Within x (pending_routes (taking session es))
unfolding pending_routes
taken_pending session x es w only fresh family allowed = retain-Within _ allowed (
    Waits-pending x.timestamp x (insert_routes session.routes es)
      (subst (λ l. Waits x.timestamp x (insert_routes session.routes l)) (sym w.whole)
        (insert_routes-new x.timestamp x w.before w.after session.routes refl
          (subst (Every (Only x.timestamp x)) w.whole only) fresh))
      (ap (λ f. Families.contains f x.update.family) (families-insert_routes session.routes es)
        ∙ family))

-- What an established session has to send, it sends.
pub pending_sent :
    (session : Session) (x : ExportEntry) (now : ℕ) {session' : Session}
    → session.state ≡ established
    → Within x (pending_routes session)
    → advertise_pending session now ≡ ok session'
    → (u : Update) × (create_update {E = SessionError × Session} session x.update ≡ ok u)
      × Within (update_msg u) session'.protocol.sent
pending_sent session x now state w h =
    let (us, hus, sent) = advertise_pending-sent session now state h in
    let (u, hu, within) =
      collect-Within (λ e. create_update {E = SessionError × Session} session e.update) w hus in
    (
      u,
      hu,
      subst (Within (update_msg u)) (sym sent)
          (append-Within session.protocol.sent (map-Within update_msg within)),
    )
