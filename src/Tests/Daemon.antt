-- ===== src/Tests/Daemon.antt =====
-- src/session/manager.rs and src/handler.rs: the theorems at concrete managers.
use bgpd_rs.Base.{
  ◌≡◌, refl, [], ◌∷◌, none, some, length, retain, if◌then◌else◌, ok, ◌==◌, ℕ_discrete, collect,
  flat_map, false,
}
use bgpd_rs.Base.Map
use bgpd_rs.Base.Map.{Map}
use bgpd_rs.Bgp.{
  IpAddr, v4, update_msg, ip_addr_Eq, ip_network_Eq, Update, PathAttribute, ipv6, unicast,
  IpAddr-discrete,
}
use bgpd_rs.Config.{ServerConfig, default_bgp_socket, default_api_socket}
use bgpd_rs.Handler.{State, apply_update, turn}
use bgpd_rs.Rib.{new, get_routes_for_peer, remove_from_peer}
use bgpd_rs.Session.Error.{ended, learned}
use bgpd_rs.Session.Manager.{Manager, Walk, polled, walk, get_update}
use bgpd_rs.Session.Manager.Sweep.{get_update-found, addresses}
use bgpd_rs.Session.Manager.Disabled.{cease, turns, turns-disabled}
use bgpd_rs.Session.Peer.{Session, SessionState-discrete, open_confirm, established}
use bgpd_rs.Session.Poller.{no_connection}
use bgpd_rs.Session.Run.{Event, end_of_stream, run, advertise_pending, handle}
use bgpd_rs.Session.Machine.{process_message}
use bgpd_rs.Session.HoldTimer
use bgpd_rs.Session.Counts
use bgpd_rs.Rib.SessionRoutes.{insert_routes}
use bgpd_rs.Tests.Data.{lib, from_parameters, session_in, peer_config, announcement}
use bgpd_rs.Tests.Connections.{net, empty_poller}

abbrev pub server_config : ServerConfig
server_config = record {
  router_id = v4 0x01010101;
  default_as = 70000;
  bgp_socket = default_bgp_socket;
  api_socket = default_api_socket;
  poll_interval = 30;
  peers = peer_config ∷ [];
}

abbrev manager : Manager
manager = record {
  idle_peers = empty_poller;
  sessions = (v4 0x7f000002, session_in open_confirm) ∷ [];
  config = server_config;
  poller_tx = [];
}

-- What a computation with the manager unfolds.
program : Unit {0}
unfolding get_update walk run advertise_pending handle process_message HoldTimer.received
    Counts.increment_received insert_routes get_routes_for_peer collect retain flat_map new
    SessionState-discrete IpAddr-discrete ℕ_discrete
program = tt

closed : IpAddr → Event
closed _ = end_of_stream

-- One session ends, and the one after it gets an update.
mixed : Update → IpAddr → Event
mixed u a = if a == v4 1 then end_of_stream else Event.incoming (update_msg u)

abbrev two_sessions : Manager
two_sessions = record manager { sessions = (v4 1, session_in open_confirm) ∷ manager.sessions }

abbrev ended_walk : Walk
ended_walk = record {
  sessions = (v4 0x7f000002, session_in open_confirm) ∷ [];
  found = none;
  ended = v4 0x7f000002 ∷ [];
  handed = peer_config ∷ [];
}

abbrev after_update : Session
after_update = record (session_in open_confirm) {
  counts = record { received = 1; sent = 0 };
  hold_timer = record { hold_timer = 90; interval = 30; last_sent = 0; last_received = 5 };
}

abbrev found_walk : Update → Walk
found_walk u = record {
  sessions = (v4 1, session_in open_confirm) ∷ (v4 0x7f000002, after_update) ∷ [];
  found = some (learned (v4 0x7f000002) u);
  ended = v4 1 ∷ [];
  handed = peer_config ∷ [];
}

found_lem :
    walk net from_parameters (mixed announcement) 5 new two_sessions.sessions
    ≡ ok (found_walk announcement)
unfolding mixed program
found_lem = refl

get_update-found_example :
    (m' : Manager) × (get_update net from_parameters
        (mixed announcement)
        5
        two_sessions
        new
        (polled no_connection)
      ≡ ok (some (learned (v4 0x7f000002) announcement), m'))
    × (addresses m'.sessions ≡ v4 1 ∷ v4 0x7f000002 ∷ [])
    × (m'.poller_tx ≡ peer_config ∷ [])
    × (length (peer_config ∷ []) ≡ length (v4 1 ∷ []))
get_update-found_example =
    get_update-found net from_parameters (mixed announcement) 5 two_sessions new
      (polled no_connection) {w = found_walk announcement} found_lem refl

abbrev manager_after : Update → Manager
manager_after u = record two_sessions {
  sessions = (found_walk u).sessions;
  poller_tx = peer_config ∷ [];
}

abbrev state : State
state = record { sessions = two_sessions; rib = new }

-- The update is an MP_REACH_NLRI without a next hop.
abbrev rejected : Update
rejected = record {
  withdrawn_routes = [];
  attributes =
      PathAttribute.mp_reach_nlri
        (record { afi = ipv6; safi = unicast; next_hop = []; announced_routes = [] })
      ∷ [];
  announced_routes = [];
}

abbrev state_after : State
state_after = record {
  sessions = record manager { sessions = []; poller_tx = peer_config ∷ [] };
  rib = new;
}

turn_lem :
    turn lib net from_parameters
      (record { sessions = manager; rib = new })
      closed
      5
      (polled no_connection)
      (λ i. i)
    ≡ ok state_after
unfolding closed program turn apply_update remove_from_peer Map.remove
turn_lem = refl

-- The configuration of the first session was disabled, and the connection of the second is closed.
abbrev disabled_session : Session
disabled_session = record (session_in established) {
  config = record peer_config { enabled = false };
}

abbrev behind : Map IpAddr Session
behind = (v4 0x7f000003, session_in established) ∷ []

abbrev disabled_manager : Manager
disabled_manager = record manager { sessions = (v4 0x7f000002, disabled_session) ∷ behind }

turns-disabled_example :
    (m' : Manager) × (s' : Session) × (turns net from_parameters
        (λ _. closed)
        (5 ∷ 6 ∷ [])
        new
        disabled_manager
      ≡ ok m')
    × (m'.sessions ≡ (v4 0x7f000002, s') ∷ behind)
    × (s'.protocol.sent ≡ cease ∷ cease ∷ [])
    × (s'.state ≡ established)
    × (s'.config ≡ disabled_session.config)
turns-disabled_example =
    turns-disabled net from_parameters (λ _. closed) (5 ∷ 6 ∷ []) disabled_manager new
      (v4 0x7f000002) disabled_session behind {es = []} refl refl (unfold program in refl)
      (λ k. refl)
