-- ===== src/Tests/Running.antt =====
-- src/handler.rs: a daemon with one configured peer, over some turns.
use bgpd_rs.Base.{
  ◌≡◌, ◌≢◌, ◌⊎◌, inl, inr, ◌++◌, refl, true, false, List, [], ◌∷◌, Option, none, some, Outcome, ok,
  err, if◌then◌else◌, ◌==◌, List-discrete, retain, contains, flat_map, collect, ℕ_discrete,
}
use bgpd_rs.Base.Map
use bgpd_rs.Bgp.{
  IpAddr, v4, v4_net, ip_addr_Eq, Message, open_msg, keep_alive, IpAddr-discrete,
  IpNetwork-discrete,
}
use bgpd_rs.Config.{
  ServerConfigSpec, default_families, default_advertise_sources, default_bgp_socket,
  default_api_socket, from_spec,
}
use bgpd_rs.Handler.{State, Stop, turn, apply_update}
use bgpd_rs.Program.{Host, Program, launch, reload}
use bgpd_rs.Program.Lifetime.{world, Launched, launched, signalled, polls, Launched-IsSound}
use bgpd_rs.Config.File.{Files, from_file}
use bgpd_rs.Base.Text.{Text, text, text_Eq}
use bgpd_rs.Handler.Start
use bgpd_rs.Rib
use bgpd_rs.Rib.{pairs}
use bgpd_rs.Rib.Entry.{ExportEntry}
use bgpd_rs.Session.Manager.Alive.{IsKnown, Lists}
use bgpd_rs.Rib.{get_routes_for_peer}
use bgpd_rs.Rib.Families
use bgpd_rs.Rib.SessionRoutes as Routes
use bgpd_rs.Rib.SessionRoutes.{insert_routes}
use bgpd_rs.Session.Capabilities.{common_capabilities}
use bgpd_rs.Session.Counts
use bgpd_rs.Session.HoldTimer
use bgpd_rs.Session.Machine.{process_message, open_received, asn_from_open, families_of}
use bgpd_rs.Session.Manager
use bgpd_rs.Session.Manager.{polled, get_update, walk, wake}
use bgpd_rs.Session.Peer
use bgpd_rs.Session.Peer.{
  Session, Protocol, SessionState-discrete, connect, established, update_state, create_open,
  is_locally_initiated, send_message,
}
use bgpd_rs.Session.Poller
use bgpd_rs.Session.Poller.{
  incoming, no_connection, get_connection, upsert_all, upsert_config, get_host_address,
  get_config_for_peer,
}
use bgpd_rs.Session.Run.{Event, run, advertise_pending, handle, pending_routes, send_or_fail}
use bgpd_rs.Session.Run.Sound.{Past, IsSound}
use bgpd_rs.Tests.Connections.{net, stream}
use bgpd_rs.Tests.Daemon.{server_config}
use bgpd_rs.Tests.Data.{lib, texts, limits, from_parameters, session_in, open_from}

-- The text of the one configuration file.
abbrev Contents : Text → Type 0
Contents t = t ≡ text "file"

abbrev pub server_spec : ServerConfigSpec
server_spec = record {
  router_id = v4 0x01010101;
  default_as = 70000;
  bgp_socket = default_bgp_socket;
  api_socket = default_api_socket;
  poll_interval = 30;
  peers =
      record {
        remote_ip = v4_net 0x7f000002 32;
        remote_as = 100;
        local_as = none;
        local_router_id = none;
        enabled = true;
        passive = false;
        hold_timer = 90;
        dest_port = 179;
        families = default_families;
        advertise_sources = default_advertise_sources;
        static_routes = [];
        static_flows = [];
      }
      ∷ [];
}

abbrev from_str : Text → Option ServerConfigSpec
from_str t = if t == text "file" then some server_spec else none

abbrev host : Host
host = record {
  files = λ _. ok (text "file");
  bind = λ _. ok tt;
  serve_rpc_api = λ _. ok tt;
  signals = ok tt;
}

contents_lem : (path contents : Text) → host.files path ≡ ok contents → Contents contents
contents_lem path contents h = cc

-- What a computation with the daemon unfolds.
program : Unit {0}
unfolding turn apply_update get_update walk wake run advertise_pending handle process_message
    HoldTimer.received HoldTimer.sent HoldTimer.new Counts.increment_received Counts.increment_sent
    Counts.new insert_routes get_routes_for_peer collect retain contains flat_map Rib.new
    SessionState-discrete IpAddr-discrete IpNetwork-discrete ℕ_discrete Manager.new Poller.new
    upsert_all upsert_config get_connection get_host_address get_config_for_peer Map.get Map.insert
    Map.remove Peer.new Routes.new Families.new Start.new open_received asn_from_open families_of
    common_capabilities update_state create_open is_locally_initiated send_message pending_routes
    send_or_fail
program = tt

abbrev begun : State
begun = record { sessions = Manager.new net server_config; rib = Rib.new }

begun_lem : Start.new lib texts limits (λ i. i) net server_config ≡ ok begun
unfolding program
begun_lem = refl

abbrev or_begun : Outcome Stop State → State
or_begun (ok s) = s
or_begun _ = begun

receives : Message → IpAddr → Event
receives m ip = Event.incoming m

-- The peer connects, its OPEN is received, and then its KEEPALIVE.
abbrev connected : State
connected = or_begun (
    turn lib net from_parameters begun (receives keep_alive) 1
      (polled (incoming stream (v4 0x7f000002))) (λ i. i))

abbrev opened : State
opened = or_begun (
    turn lib net from_parameters connected (receives (open_msg (open_from 100))) 2
      (polled no_connection) (λ i. i))

abbrev confirmed : State
confirmed =
    or_begun
      (turn lib net from_parameters opened (receives keep_alive) 3 (polled no_connection) (λ i. i))

connected_lem :
    turn lib net from_parameters begun
      (receives keep_alive)
      1
      (polled (incoming stream (v4 0x7f000002)))
      (λ i. i)
    ≡ ok connected
unfolding program
connected_lem = refl

opened_lem :
    turn lib net from_parameters connected
      (receives (open_msg (open_from 100)))
      2
      (polled no_connection)
      (λ i. i)
    ≡ ok opened
unfolding program receives
opened_lem = refl

confirmed_lem :
    turn lib net from_parameters opened (receives keep_alive) 3 (polled no_connection) (λ i. i)
    ≡ ok confirmed
unfolding program receives
confirmed_lem = refl

abbrev session : Session
session = elim (Map.get (v4 0x7f000002) confirmed.sessions.sessions) [
  | some s ↦ s
  | none ↦ session_in connect
]

session_lem :
    (Map.get (v4 0x7f000002) confirmed.sessions.sessions ≡ some session)
    × (session.state ≡ established)
unfolding program receives
session_lem = (refl, refl)

abbrev started : Program
started = record {
  server = begun;
  reloader = record { config_path = text "path"; running = true; config_tx = server_config };
}

launch_lem : launch from_str lib texts limits net host (text "path") none (λ i. i) ≡ ok started
unfolding program launch from_file from_spec List-discrete
launch_lem = refl

-- The file cannot be read at the signal after the start, and the peer connects.
abbrev unreadable : Files
unreadable _ = err 2

abbrev running : Program
running = record { server = confirmed; reloader = reload from_str started.reloader unreadable }

-- The two messages that come, and a table that stays empty.
abbrev Received : IpAddr → Message → Type 0
Received ip m = (m ≡ open_msg (open_from 100)) ⊎ (m ≡ keep_alive)

abbrev Listed : ExportEntry → Type 0
Listed x = ⊥

nothing_within : {A : Type 0} (x : A) (before after : List A) → [] ≢ before ++ x ∷ after
nothing_within x [] after h = cc
nothing_within x (y ∷ before) after h = cc

empty_lem :
    Lists (world from_str Contents Received Listed lib texts limits net from_parameters) Rib.new
unfolding program pairs
empty_lem p here x made = absurd (nothing_within p here.before here.after here.whole)

running-Launched :
    Launched from_str Contents Received Listed lib texts limits net from_parameters running
unfolding program receives
running-Launched =
    polls (receives keep_alive) 3 no_connection (λ i. i) tt (λ ip. inr refl) empty_lem confirmed_lem
      (polls (receives (open_msg (open_from 100))) 2 no_connection (λ i. i) tt (λ ip. inl refl)
        empty_lem opened_lem
        (polls (receives keep_alive) 1 (incoming stream (v4 0x7f000002)) (λ i. i) refl
          (λ ip. inr refl) empty_lem connected_lem
          (signalled unreadable (λ p c h. cc)
            (launched host (text "path") none (λ i. i) contents_lem launch_lem))))

Launched-IsSound_example :
    (past : Past) × IsKnown
      (world from_str Contents Received Listed lib texts limits net from_parameters)
      (v4 0x7f000002)
      past
    × IsSound (v4 0x7f000002) past session
Launched-IsSound_example =
    Launched-IsSound from_str Contents Received Listed lib texts limits net from_parameters
      (v4 0x7f000002) session running-Launched session_lem.0
