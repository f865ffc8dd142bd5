-- ===== src/Tests/Reloading.antt =====
-- src/main.rs: the theorems on signals at a concrete reloader and manager.
use bgpd_rs.Base.{
  ◌≡◌, refl, true, false, List, [], ◌∷◌, Option, none, some, ok, err, if◌then◌else◌, ◌==◌,
  List-discrete, retain, contains, ℕ_discrete, map, collect, flat_map,
}
use bgpd_rs.Base.Map
use bgpd_rs.Base.Text.{Text, text, text_Eq}
use bgpd_rs.Bgp.{IpAddr, v4, v4_net, ip_addr_Eq, ip_network_Eq, IpAddr-discrete, IpNetwork-discrete}
use bgpd_rs.Config.{PeerConfigSpec, ServerConfigSpec, ServerConfig, from_spec}
use bgpd_rs.Config.File.{Files, from_file}
use bgpd_rs.Program.{Reloader, reload, reload_each}
use bgpd_rs.Program.Reloading.{reload_each-readable, reload_each-wake}
use bgpd_rs.Session.Manager.{
  Manager, Walk, walk, get_update, find_removed_peers, wake, configured, by_network,
}
use bgpd_rs.Session.Peer.{open_confirm, update_config, SessionState-discrete, notify, send_message}
use bgpd_rs.Session.Poller.{replace_configs, upsert_config, get_config_for_peer, get_host_address}
use bgpd_rs.Session.Run.{Event, end_of_stream, tick, run, advertise_pending, handle}
use bgpd_rs.Handler.{State, turn, apply_update}
use bgpd_rs.Handler.Reload.{turn-removed}
use bgpd_rs.Rib.{get_routes_for_peer}
use bgpd_rs.Rib.Entry.{EntrySource-discrete}
use bgpd_rs.Rib.SessionRoutes.{insert_routes}
use bgpd_rs.Session.HoldTimer.{should_send_keepalive}
use bgpd_rs.Tests.Answers.{learned_rib}
use bgpd_rs.Tests.Connections.{net, empty_poller}
use bgpd_rs.Tests.Daemon.{server_config}
use bgpd_rs.Tests.Data.{lib, from_parameters, session_in, peer_config}
use bgpd_rs.Tests.Running.{server_spec}

-- A file with another hold time for the peer, and a malformed one.
abbrev from_str : Text → Option ServerConfigSpec
from_str t =
    if t == text "new"
    then some (record server_spec {
      peers = map (λ (p : PeerConfigSpec). record p { hold_timer = 30 }) server_spec.peers;
    })
    else none

abbrev other_config : ServerConfig
other_config = record server_config { peers = record peer_config { hold_timer = 30 } ∷ [] }

abbrev reloader : Reloader
reloader = record { config_path = text "path"; running = true; config_tx = server_config }

abbrev signals : List Files
signals = (λ _. err 2) ∷ (λ _. ok (text "new")) ∷ (λ _. ok (text "=")) ∷ (λ _. ok (text "new")) ∷ []

reload_each-readable_example :
    reload_each from_str reloader signals
    ≡ record { config_path = text "path"; running = false; config_tx = other_config }
unfolding from_file from_spec List-discrete ℕ_discrete
reload_each-readable_example = reload_each-readable from_str reloader signals refl

abbrev manager : Manager
manager = record {
  idle_peers = empty_poller;
  sessions = (v4 0x7f000002, session_in open_confirm) ∷ [];
  config = server_config;
  poller_tx = [];
}

abbrev woken : Manager
woken = record {
  idle_peers = record {
    idle_peers = (v4_net 0x7f000002 32, record peer_config { hold_timer = 30 }) ∷ [];
    interval = 30;
    delay_queue = v4 0x7f000002 ∷ [];
  };
  sessions =
      (
        v4 0x7f000002,
        record (session_in open_confirm) { config = record peer_config { hold_timer = 30 } },
      )
      ∷ [];
  config = other_config;
  poller_tx = [];
}

closed : IpAddr → Event
closed _ = end_of_stream

woken_lem :
    wake net from_parameters closed 5 manager
      (configured (reload_each from_str reloader signals).config_tx)
    ≡ ok woken
unfolding wake get_config_for_peer Map.insert Map.get IpNetwork-discrete IpAddr-discrete ℕ_discrete
    replace_configs update_config upsert_config get_host_address reload_each reload from_file
    from_spec List-discrete
woken_lem = refl

reload_each-wake_example :
    get_config_for_peer net
      (by_network net from_parameters closed 5 other_config.peers)
      (v4 0x7f000002)
    ≡ some (record peer_config { hold_timer = 30 })
unfolding from_file from_spec List-discrete ℕ_discrete
reload_each-wake_example =
    reload_each-wake from_str net from_parameters closed 5 reloader signals manager {m' = woken}
      refl woken_lem (v4 0x7f000002)
      (record (session_in open_confirm) { config = record peer_config { hold_timer = 30 } })
      (unfold Map.get IpAddr-discrete ℕ_discrete in refl)

-- The peer is taken out of the configuration while the table has a route of it.
abbrev state : State
state = record { sessions = manager; rib = learned_rib }

abbrev empty_config : ServerConfig
empty_config = record server_config { peers = [] }

silent : IpAddr → Event
silent _ = tick

abbrev quiet_walk : Walk
quiet_walk = elim (walk net from_parameters silent 5 learned_rib manager.sessions) [
  | ok w ↦ w
  | _ ↦ record { sessions = []; found = none; ended = []; handed = [] }
]

abbrev state_after : State
state_after =
    elim (turn lib net from_parameters state silent 5 (configured empty_config) (λ i. i)) [
      | ok s ↦ s
      | _ ↦ state
    ]

program : Unit {0}
unfolding silent walk run advertise_pending handle get_routes_for_peer insert_routes
    should_send_keepalive collect retain contains flat_map SessionState-discrete IpAddr-discrete
    EntrySource-discrete ℕ_discrete Map.get Map.remove get_config_for_peer by_network
program = tt

walk_lem : walk net from_parameters silent 5 learned_rib manager.sessions ≡ ok quiet_walk
unfolding program
walk_lem = refl

turn_lem :
    turn lib net from_parameters state silent 5 (configured empty_config) (λ i. i) ≡ ok state_after
unfolding program turn apply_update get_update wake find_removed_peers replace_configs notify
    send_message
turn_lem = refl

turn-removed_example :
    (Map.get (v4 0x7f000002) state_after.sessions.sessions ≡ none) × (state_after.rib ≡ learned_rib)
unfolding program
turn-removed_example =
    turn-removed lib net from_parameters state silent 5 empty_config (λ i. i) (v4 0x7f000002)
      walk_lem refl refl refl turn_lem
