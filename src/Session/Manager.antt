-- ===== src/Session/Manager.antt =====
-- src/session/manager.rs: one turn of the manager over all sessions, and its two other events.
-- `ended` are the sessions that are to be removed, `poller_tx` the channel back to the poller.
pub mod Sweep
pub mod Reload
pub mod Alive
pub mod Remaining
pub mod Managed
pub mod Disabled
use bgpd_rs.Base.{
  ℕ, suc, Bool, true, false, if◌then◌else◌, List, [], ◌∷◌, ◌++◌, map, Option, none, some, is_empty,
  Outcome, ok, err, panic, expect, ◌>>=◌, ◌==◌, nat_Eq,
}
use bgpd_rs.Base.Map
use bgpd_rs.Base.Map.{Map}
use bgpd_rs.Bgp.{IpAddr, ip_addr_Eq, IpNetwork, ip_network_Eq, OpenParameter, Capabilities}
use bgpd_rs.Config.{PeerConfig, ServerConfig}
use bgpd_rs.Rib.{Rib, get_routes_for_peer}
use bgpd_rs.Rib.SessionRoutes as Routes
use bgpd_rs.Session.Error.{
  SessionError, deconfigured, open_asn_mismatch, finite_state_machine, hold_time_expired,
  transport_error, other, SessionUpdate, learned, ended,
}
use bgpd_rs.Session.Peer
use bgpd_rs.Session.Peer.{Session, Protocol, notify, update_config}
use bgpd_rs.Session.Poller
use bgpd_rs.Session.Poller.{
  NetworkApi, Poller, PollEvent, handed_back, get_connection, replace_configs, upsert_all,
}
use bgpd_rs.Session.Run.{Event, run}

pub record Manager : Type 0 where
  pub idle_peers : Poller
  pub sessions : Map IpAddr Session
  pub config : ServerConfig
  pub poller_tx : List PeerConfig

-- What a walk over the sessions leaves: the sessions, an update that ends the turn at once, the
-- addresses of the sessions that ended, and the configurations that were handed back.
pub record Walk : Type 0 where
  pub sessions : Map IpAddr Session
  pub found : Option SessionUpdate
  pub ended : List IpAddr
  pub handed : List PeerConfig

-- The NOTIFICATION for the error that ends a session.
unfoldable pub notify_for : Session → SessionError → ℕ → Outcome (ℕ × Session) Session
notify_for s deconfigured now = notify s 6 3 now
notify_for s (hold_time_expired _) now = notify s 4 0 now
notify_for s (finite_state_machine minor) now = notify s 5 minor now
notify_for s (open_asn_mismatch _ _) now = notify s 3 2 now
notify_for s (transport_error _) now = ok s
notify_for s (other _) now = ok s

-- An `io::Error` of `notify` is passed on by `?`.
notified : Outcome (ℕ × Session) Session → Outcome ℕ Session
notified (ok s) = ok s
notified (err (e, s)) = err e
notified panic = panic

-- One session put in front of the walk over those after it.
keep : IpAddr → Session → Walk → Walk
keep ip s w = record w { sessions = (ip, s) ∷ w.sessions }

end_one : IpAddr → Session → Walk → Walk
end_one ip s w = record {
  sessions = (ip, s) ∷ w.sessions;
  found = w.found;
  ended = ip ∷ w.ended;
  handed = s.config ∷ w.handed;
}

stop : Map IpAddr Session → Option SessionUpdate → Walk
stop sessions found = record { sessions = sessions; found = found; ended = []; handed = [] }

-- A deconfigured session breaks off the walk.
after_error : IpAddr → Session → SessionError → Map IpAddr Session → Outcome ℕ Walk → Outcome ℕ Walk
unfolding stop end_one
after_error ip s deconfigured rest walked = ok (stop ((ip, s) ∷ rest) none)
after_error ip s e rest walked = do w ← walked; ok (end_one ip s w)

unfoldable pub new : NetworkApi → ServerConfig → Manager
unfolding upsert_all
new net config = record {
  idle_peers = upsert_all net (Poller.new config.poll_interval) config.peers;
  sessions = [];
  config = config;
  poller_tx = [];
}

module _ (net : NetworkApi) (from_parameters : List OpenParameter → Capabilities)
    (events : IpAddr → Event) (now : ℕ) where
  handle_result :
      IpAddr
      → Outcome (SessionError × Session) (Session × Option SessionUpdate)
      → Map IpAddr Session
      → Outcome ℕ Walk
      → Outcome ℕ Walk
  unfolding notified notify_for after_error keep stop
  handle_result ip (ok (s, some u)) rest walked = ok (stop ((ip, s) ∷ rest) (some u))
  handle_result ip (ok (s, none)) rest walked = do w ← walked; ok (keep ip s w)
  handle_result ip (err (e, s)) rest walked = do
    s' ← notified (notify_for s e now)
    after_error ip s' e rest walked
  handle_result ip panic rest walked = panic

  with_routes : Rib → Session → Outcome ℕ Session
  with_routes r s = do
    routes ← get_routes_for_peer r s.addr
    ok (record s { routes = Routes.insert_routes s.routes routes })

  unfoldable pub walk : Rib → Map IpAddr Session → Outcome ℕ Walk
  unfolding handle_result with_routes
  walk r [] = ok (stop [] none)
  walk r ((ip, s) ∷ rest) =
      let walked = walk r rest in
      do s' ← with_routes r s; handle_result ip (run from_parameters s' (events ip) now) rest walked

  pub remove_all : List IpAddr → Map IpAddr Session → Map IpAddr Session
  remove_all [] sessions = sessions
  remove_all (ip ∷ ips) sessions = remove_all ips (Map.remove ip sessions)

  -- `select!` on a connection of the poller and a change of the configuration.
  pub data Wake : Type 0 where
    polled : PollEvent → Wake
    configured : ServerConfig → Wake

  add_session : Manager → Protocol → PeerConfig → Outcome ℕ Manager
  add_session m stream config = do
    peer ← expect stream.peer_addr
    elim (Map.contains_key peer.addr m.sessions) [
      | true ↦ ok m
      | false ↦ do
        s ← Peer.new from_parameters config stream now
        ok (record m { sessions = Map.insert peer.addr s m.sessions })
    ]

  connection_made : Manager → Option (Protocol × PeerConfig) → Outcome ℕ Manager
  unfolding add_session
  connection_made m none = ok m
  connection_made m (some (stream, config)) = add_session m stream config

  pub insert_each : Map IpNetwork PeerConfig → List PeerConfig → Map IpNetwork PeerConfig
  insert_each m [] = m
  insert_each m (c ∷ cs) = insert_each (Map.insert c.remote_ip c m) cs

  unfoldable pub by_network : List PeerConfig → Map IpNetwork PeerConfig
  unfolding insert_each
  by_network configs = insert_each [] configs

  sort_one :
      IpAddr
      → Session
      → Option PeerConfig
      → Map IpAddr Session × List IpAddr
      → Map IpAddr Session × List IpAddr
  sort_one addr s (some config) (kept, removed) = ((addr, update_config s config) ∷ kept, removed)
  sort_one addr s none (kept, removed) = ((addr, s) ∷ kept, addr ∷ removed)

  -- The sessions with their configurations updated, and the addresses without one.
  unfoldable pub find_removed_peers :
      Map IpAddr Session → Map IpNetwork PeerConfig → Map IpAddr Session × List IpAddr
  unfolding sort_one
  find_removed_peers [] configs = ([], [])
  find_removed_peers ((addr, s) ∷ sessions) configs =
      sort_one addr s (Poller.get_config_for_peer net configs addr)
        (find_removed_peers sessions configs)

  pub drop_removed : List IpAddr → Map IpAddr Session → Outcome ℕ (Map IpAddr Session)
  unfolding notified
  drop_removed [] sessions = ok sessions
  drop_removed (ip ∷ ips) sessions = do
    s ← expect (Map.get ip sessions)
    s' ← notified (notify s 6 3 now)
    drop_removed ips (Map.remove ip sessions)

  unfoldable pub wake : Manager → Wake → Outcome ℕ Manager
  unfolding connection_made by_network find_removed_peers drop_removed
  wake m (polled event) = do
    (connection, p) ← get_connection net m.idle_peers event
    connection_made (record m { idle_peers = p }) connection
  wake m (configured config) = do
    let configs = by_network config.peers
    let found = find_removed_peers m.sessions configs
    sessions ← drop_removed found.1 found.0
    ok (record m {
      config = config;
      sessions = sessions;
      idle_peers = replace_configs net m.idle_peers (map (λ c. c.1) configs);
    })

  after_walk :
      Manager → Wake → Walk → Option SessionUpdate → Outcome ℕ (Option SessionUpdate × Manager)
  unfolding remove_all wake
  after_walk m w walked (some u) =
      ok (some u, record m { sessions = walked.sessions; poller_tx = m.poller_tx ++ walked.handed })
  after_walk m w walked none =
      let m' = record m {
        sessions = remove_all walked.ended walked.sessions;
        poller_tx = m.poller_tx ++ walked.handed;
      } in
      let woken = wake m' w in
      if is_empty walked.ended
      then (do m'' ← woken; ok (none, m''))
      else ok (some (ended walked.ended), m')

  unfoldable pub get_update : Manager → Rib → Wake → Outcome ℕ (Option SessionUpdate × Manager)
  unfolding after_walk
  get_update m r w = do walked ← walk r m.sessions; after_walk m w walked walked.found
