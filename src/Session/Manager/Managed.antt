-- ===== src/Session/Manager/Managed.antt =====
-- src/session/manager.rs: what the manager keeps from one turn to the next.
use bgpd_rs.Base.{
  ℕ, ◌≡◌, subst, List, [], ◌∷◌, ◌++◌, map, Option, none, some, is_empty, ok, expect, >>=-eq-ok,
  arith, inl, inr, Bool-cases,
}
use bgpd_rs.Base.Map
use bgpd_rs.Base.Map.{Map}
use bgpd_rs.Base.Within.{Every, Every-append, Every-insert, Every-map_to}
use bgpd_rs.Bgp.{IpAddr, ip_addr_Eq, ip_network_Eq, OpenParameter, Capabilities}
use bgpd_rs.Config.{PeerConfig, ServerConfig}
use bgpd_rs.Rib.{Rib}
use bgpd_rs.Session.Error.{SessionUpdate, ended}
use bgpd_rs.Session.Manager.{
  Manager, Walk, Wake, polled, configured, walk, get_update, after_walk, remove_all, wake,
  connection_made, add_session, find_removed_peers, drop_removed, insert_each, by_network, new,
}
use bgpd_rs.Session.Peer
use bgpd_rs.Session.Peer.{Session, Protocol, notify, update_config}
use bgpd_rs.Session.Poller
use bgpd_rs.Session.Poller.{
  NetworkApi, Poller, replace_configs, upsert_all, get_config_for_peer, first_network, config_of,
  get_connection,
}
use bgpd_rs.Session.Poller.Streams.{
  Given, FreshEvent, Knows, upsert_all-Knows, replace_configs-Knows, get_connection-Hands,
}
use bgpd_rs.Session.Run.{Event}
use bgpd_rs.Session.Run.Lifetime.{starts}
use bgpd_rs.Session.Manager.Alive.{World, Comes, Lists, Alive, Good, walk-Alive}
use bgpd_rs.Session.Manager.Remaining.{
  remove_all-Alive, find_removed_peers-Alive, drop_removed-Alive, new-addr, insert_each-Knows,
}

module _ (W : World) (from_parameters : List OpenParameter → Capabilities) where
  -- Each session is in a state that a session with its peer can come to, and all configurations
  -- are known: those that the sessions have had, the idle ones, and those on their way back.
  pub record IsManaged (m : Manager) : Type 0 where
    pub sessions : Every (Alive W from_parameters) m.sessions
    pub idle : Knows W.loads m.idle_peers.idle_peers
    pub handed : Every W.loads m.poller_tx

  pub new-IsManaged :
      (net : NetworkApi) (config : ServerConfig)
      → Every W.loads config.peers
      → IsManaged (new net config)
  unfolding new Poller.new
  new-IsManaged net config h = record {
    sessions = tt;
    idle = upsert_all-Knows W.loads net (Poller.new config.poll_interval) config.peers h tt;
    handed = tt;
  }

  module _ (net : NetworkApi) (events : IpAddr → Event) (now : ℕ) where
    add_session-IsManaged :
        (m : Manager) (stream : Protocol) (config : PeerConfig) {m' : Manager}
        → stream.sent ≡ []
        → W.loads config
        → IsManaged m
        → add_session net from_parameters events now m stream config ≡ ok m'
        → IsManaged m'
    unfolding add_session
    add_session-IsManaged m stream config {m'} fresh known w h =
        let (peer, hp, h₁) = >>=-eq-ok (expect stream.peer_addr) _ h in
        elim (Bool-cases (Map.contains_key peer.addr m.sessions)) [
          | inl there ↦
              let k = rw there at h₁ in let same : m ≡ m' = ground arith in subst IsManaged same w
          | inr absent ↦
              let k = rw absent at h₁ in
              let (s, hs, last) =
                >>=-eq-ok (Peer.new from_parameters {E = ℕ} config stream now) _ k in
              let same : record m { sessions = Map.insert peer.addr s m.sessions } ≡ m' =
                ground arith in
              let alive : Alive W from_parameters (peer.addr, s) = (
                record { configs = config ∷ []; messages = []; routes = [] },
                starts config stream now fresh
                    (new-addr W from_parameters net events now config stream hp hs) hs,
                record { configs = (known, tt); messages = tt; routes = tt },
              ) in
              subst IsManaged same (record {
                sessions =
                    Every-insert (Alive W from_parameters) peer.addr s m.sessions alive w.sessions;
                idle = w.idle;
                handed = w.handed;
              })
        ]

    connection_made-IsManaged :
        (m : Manager) (c : Option (Protocol × PeerConfig)) {m' : Manager}
        → Given W.loads c
        → IsManaged m
        → connection_made net from_parameters events now m c ≡ ok m'
        → IsManaged m'
    unfolding connection_made
    connection_made-IsManaged m none {m'} made w h =
        let same : m ≡ m' = ground arith in subst IsManaged same w
    connection_made-IsManaged m (some (stream, config)) (fresh, known) w h =
        add_session-IsManaged m stream config fresh known w h

    -- Connections are new, and only known configurations are loaded and handed back.
    abbrev pub IsFresh : Wake net from_parameters events now → Type 0
    IsFresh (polled event) = FreshEvent W.loads event
    IsFresh (configured config) = Every W.loads config.peers

    wake-IsManaged :
        (m : Manager) (w : Wake net from_parameters events now) {m' : Manager}
        → IsFresh w
        → IsManaged m
        → wake net from_parameters events now m w ≡ ok m'
        → IsManaged m'
    unfolding wake by_network
    wake-IsManaged m (polled event) fresh g h =
        let ((c, p), hc, made) = >>=-eq-ok (get_connection net m.idle_peers event) _ h in
        let (connection, knows) =
          get_connection-Hands W.loads net m.idle_peers event fresh g.idle hc in
        connection_made-IsManaged (record m { idle_peers = p }) c connection
          (record { sessions = g.sessions; idle = knows; handed = g.handed }) made
    wake-IsManaged m (configured config) {m'} fresh g h =
        let configs = insert_each net from_parameters events now [] config.peers in
        let known = insert_each-Knows W from_parameters net events now [] config.peers fresh tt in
        let found = find_removed_peers net from_parameters events now m.sessions configs in
        let (left, hd, hm) =
          >>=-eq-ok (drop_removed net from_parameters events now found.1 found.0) _ h in
        let kept =
          drop_removed-Alive W from_parameters net events now found.1 found.0
            (find_removed_peers-Alive W from_parameters net events now m.sessions configs known
              g.sessions)
            hd in
        let same : ◌≡◌ {A = Manager}
            (record m {
              config = config;
              sessions = left;
              idle_peers = replace_configs net m.idle_peers (map (λ c. c.1) configs);
            })
            m' =
          ground arith in
        subst IsManaged same (record {
          sessions = kept;
          idle =
              replace_configs-Knows W.loads net m.idle_peers (map (λ c. c.1) configs)
                (Every-map_to (λ r. W.loads r.1) W.loads (λ r. r.1) (λ r p. p) configs known);
          handed = g.handed;
        })

    after_walk-IsManaged :
        (m : Manager) (w : Wake net from_parameters events now) (walked : Walk)
        (found : Option SessionUpdate) {r : Option SessionUpdate × Manager}
        → IsFresh w
        → IsManaged m
        → Good W from_parameters walked
        → after_walk net from_parameters events now m w walked found ≡ ok r
        → IsManaged r.1
    unfolding after_walk
    after_walk-IsManaged m w walked (some x) {r} fresh g (alive, known) h =
        let same : ◌≡◌ {A = Option SessionUpdate × Manager}
            (
              some x,
              record m { sessions = walked.sessions; poller_tx = m.poller_tx ++ walked.handed },
            )
            r =
          ground arith in
        subst (λ (y : Option SessionUpdate × Manager). IsManaged y.1) same
          (record {
            sessions = alive;
            idle = g.idle;
            handed = Every-append W.loads m.poller_tx walked.handed g.handed known;
          })
    after_walk-IsManaged m w walked none {r} fresh g (alive, known) h =
        let swept : Manager = record m {
          sessions = remove_all net from_parameters events now walked.ended walked.sessions;
          poller_tx = m.poller_tx ++ walked.handed;
        } in
        let good : IsManaged swept = record {
          sessions =
              remove_all-Alive W from_parameters net events now walked.ended walked.sessions alive;
          idle = g.idle;
          handed = Every-append W.loads m.poller_tx walked.handed g.handed known;
        } in
        elim (Bool-cases (is_empty walked.ended)) [
          | inl e ↦
              let k = rw e at h in
              let (woken, hw, last) = >>=-eq-ok (wake net from_parameters events now swept w) _ k in
              let same : ◌≡◌ {A = Option SessionUpdate × Manager} (none, woken) r = ground arith in
              subst (λ (y : Option SessionUpdate × Manager). IsManaged y.1) same
                (wake-IsManaged swept w fresh good hw)
          | inr e ↦
              let k = rw e at h in
              let same : ◌≡◌ {A = Option SessionUpdate × Manager} (some (ended walked.ended), swept)
                  r =
                ground arith in
              subst (λ (y : Option SessionUpdate × Manager). IsManaged y.1) same good
        ]

    pub get_update-IsManaged :
        (m : Manager) (r : Rib) (w : Wake net from_parameters events now)
        {x : Option SessionUpdate × Manager}
        → IsFresh w
        → ((ip : IpAddr) → Comes W ip (events ip))
        → Lists W r
        → IsManaged m
        → get_update net from_parameters events now m r w ≡ ok x
        → IsManaged x.1
    unfolding get_update
    get_update-IsManaged m r w fresh comes lists g h =
        let (walked, hw, rest) = >>=-eq-ok (walk net from_parameters events now r m.sessions) _ h in
        after_walk-IsManaged m w walked walked.found fresh g
          (walk-Alive W from_parameters net events now r m.sessions comes lists g.sessions hw) rest
