-- ===== src/Session/Run/Lifetime.antt =====
-- src/session: every state that a session can come to, from the connection on, and whatever it
-- receives, takes from the table and is configured with.
use bgpd_rs.Base.{
  ℕ, ◌≡◌, refl, subst, true, not, inr, List, [], ◌∷◌, ◌++◌, ◌∙◌, Option, ok, err, >>=-eq-ok, ◌==◌,
  expect, arith,
}
use bgpd_rs.Base.Within.{cons-Within, append-Within, Within-append, Every-within, Every-at}
use bgpd_rs.Bgp.{IpAddr, OpenParameter, Capabilities}
use bgpd_rs.Config.{PeerConfig}
use bgpd_rs.Rib.{Rib, get_routes_for_peer}
use bgpd_rs.Rib.Entry.{ExportEntry, peer, source_Eq}
use bgpd_rs.Rib.Routes.{get_routes_for_peer-Every}
use bgpd_rs.Rib.SessionRoutes as Routes
use bgpd_rs.Rib.SessionRoutes.{insert_routes}
use bgpd_rs.Rib.SessionRoutes.Pending.{insert_routes-Every, families-insert_routes}
use bgpd_rs.Session.Error.{SessionError, SessionUpdate}
use bgpd_rs.Session.Peer.{Session, Protocol, new, notify, update_config}
use bgpd_rs.Session.Run.{Event, incoming, run}
use bgpd_rs.Session.Run.Sound.{Past, Held, Heard, IsSound, Grows, IsSound-Grows, Leaves}
use bgpd_rs.Session.Run.Sound.Sending.{same, notify-IsSound}
use bgpd_rs.Session.Run.Sound.Turns.{run-IsSound}

-- What a turn adds to the past, and what the table and a configuration add.
abbrev pub heard : Event → Past → Past
heard (incoming m) past = record past { messages = m ∷ past.messages }
heard _ past = past

abbrev pub given : List ExportEntry → Past → Past
given es past = record past { routes = es ++ past.routes }

abbrev pub loaded : PeerConfig → Past → Past
loaded config past = record past { configs = config ∷ past.configs }

module _ (from_parameters : List OpenParameter → Capabilities) (addr : IpAddr) where
  -- A session and its past.
  pub data Lives : Past → Session → Type 0 where
    starts :
        (config : PeerConfig) (protocol : Protocol) (now : ℕ) {s : Session}
        → protocol.sent ≡ []
        → s.addr ≡ addr
        → new from_parameters {E = ℕ} config protocol now ≡ ok s
        → Lives (record { configs = config ∷ []; messages = []; routes = [] }) s
    takes :
        {past : Past} {s : Session} (r : Rib) {es : List ExportEntry}
        → get_routes_for_peer {E = ℕ} r s.addr ≡ ok es
        → Lives past s
        → Lives (given es past) (record s { routes = insert_routes s.routes es })
    turns :
        {past : Past} {s s' : Session} (event : Event) (now : ℕ) (u : Option SessionUpdate)
        → run from_parameters s event now ≡ ok (s', u)
        → Lives past s
        → Lives (heard event past) s'
    fails :
        {past : Past} {s s' : Session} (event : Event) (now : ℕ) (e : SessionError)
        → run from_parameters s event now ≡ err (e, s')
        → Lives past s
        → Lives (heard event past) s'
    notifies :
        {past : Past} {s s' : Session} (maj min now : ℕ)
        → notify s maj min now ≡ ok s'
        → Lives past s
        → Lives past s'
    configured :
        {past : Past} {s : Session} (config : PeerConfig)
        → Lives past s
        → Lives (loaded config past) (update_config s config)

  new-IsSound :
      (config : PeerConfig) (protocol : Protocol) (now : ℕ) {s : Session}
      → protocol.sent ≡ []
      → s.addr ≡ addr
      → new from_parameters {E = ℕ} config protocol now ≡ ok s
      → IsSound addr (record { configs = config ∷ []; messages = []; routes = [] }) s
  unfolding new Routes.new
  new-IsSound config protocol now {s} nothing at h =
      let (p, hp, made) = >>=-eq-ok (expect protocol.peer_addr) _ h in
      let c : s.config ≡ config = ground arith in
      let r : s.routes.routes ≡ [] = ground arith in
      let m : s.protocol.sent ≡ [] = ground arith in
      record {
        at = at;
        config = record { before = []; after = []; whole = rw c refl };
        routes = rw r tt;
        allowed = rw m tt;
        quiet = inr (rw m tt);
        accepted = λ h. ground arith;
      }

  heard-Grows : (event : Event) (past : Past) → Grows past (heard event past)
  heard-Grows (incoming m) past = record {
    configs = λ c w. w;
    messages = λ n w. cons-Within m w;
    routes = λ x w. w;
  }
  heard-Grows _ past = record { configs = λ c w. w; messages = λ n w. w; routes = λ x w. w }

  heard-Heard : (event : Event) (past : Past) → Heard (heard event past) event
  heard-Heard (incoming m) past = record { before = []; after = past.messages; whole = refl }
  heard-Heard _ past = tt

  taken-IsSound :
      (past : Past) (s : Session) (r : Rib) {es : List ExportEntry}
      → get_routes_for_peer {E = ℕ} r s.addr ≡ ok es
      → IsSound addr past s
      → IsSound addr (given es past) (record s { routes = insert_routes s.routes es })
  taken-IsSound past s r {es} h w =
      let grows : Grows past (given es past) = record {
        configs = λ c w. w;
        messages = λ m w. w;
        routes = λ x w. append-Within es w;
      } in
      let g = IsSound-Grows grows addr s w in
      let far = get_routes_for_peer-Every r s.addr h in
      record {
        at = g.at;
        config = g.config;
        routes =
            insert_routes-Every (Held (given es past) s.addr) s.routes es
              (Every-within (Held (given es past) s.addr) es (λ x here. (
                Every-at (λ x. not (x.source == peer s.addr) ≡ true) far here,
                Within-append past.routes here,
              )))
              g.routes;
        allowed = g.allowed;
        quiet = g.quiet;
        accepted = λ c.
            let a = g.accepted c in
            record {
              message = a.message;
              heard = a.heard;
              config = a.config;
              known = a.known;
              right_asn = a.right_asn;
              router = a.router;
              smaller = a.smaller;
              common = families-insert_routes s.routes es ∙ a.common;
            };
      }

  configured-IsSound :
      (past : Past) (config : PeerConfig) (s : Session)
      → IsSound addr past s
      → IsSound addr (loaded config past) (update_config s config)
  unfolding update_config
  configured-IsSound past config s w =
      let grows : Grows past (loaded config past) = record {
        configs = λ c w. cons-Within config w;
        messages = λ m w. w;
        routes = λ x w. w;
      } in
      let g = IsSound-Grows grows addr s w in
      record {
        at = g.at;
        config = record { before = []; after = past.configs; whole = refl };
        routes = g.routes;
        allowed = g.allowed;
        quiet = g.quiet;
        accepted = g.accepted;
      }

  -- In every state that a session can come to, also after an error: it has sent no UPDATE unless it
  -- is established; each UPDATE that it has sent is that of a route that it took from the table,
  -- with a source that one of its configurations advertises, and that was not learned from the peer
  -- itself; and once its state is OpenConfirm or Established, its router id is that of an OPEN that
  -- it received from the AS of one of its configurations, its hold time is the smaller of the two,
  -- and its families are those of its capabilities.
  pub Lives-IsSound : {past : Past} {s : Session} → Lives past s → IsSound addr past s
  Lives-IsSound (starts config protocol now nothing at h) =
      new-IsSound config protocol now nothing at h
  Lives-IsSound (takes r h l) = taken-IsSound _ _ r h (Lives-IsSound l)
  Lives-IsSound (turns {past} {s} event now u h l) =
      subst (Leaves (λ a. a.0) (IsSound addr (heard event past))) h (
        run-IsSound addr (heard event past) from_parameters s event now (heard-Heard event past)
          (IsSound-Grows (heard-Grows event past) addr s (Lives-IsSound l)))
  Lives-IsSound (fails {past} {s} event now e h l) =
      subst (Leaves (λ a. a.0) (IsSound addr (heard event past))) h (
        run-IsSound addr (heard event past) from_parameters s event now (heard-Heard event past)
          (IsSound-Grows (heard-Grows event past) addr s (Lives-IsSound l)))
  Lives-IsSound (notifies {past} {s} maj min now h l) =
      subst (Leaves same (IsSound addr past)) h
        (notify-IsSound addr past s maj min now (Lives-IsSound l))
  Lives-IsSound (configured config l) = configured-IsSound _ config _ (Lives-IsSound l)
