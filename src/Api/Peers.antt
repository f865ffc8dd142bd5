-- ===== src/Api/Peers.antt =====
-- src/api/peers.rs: a peer as the interface shows it, with its session if it has one. The local
-- address of a connection is a parameter (`none` where the system does not know it).
use bgpd_rs.Base.{ℕ, ◌/◌, not, if◌then◌else◌, List, [], ◌∷◌, ◌++◌, map, Option, none, some}
use bgpd_rs.Base.Text.{Text, text}
use bgpd_rs.Bgp.{SocketAddr, AfiSafi, Capabilities}
use bgpd_rs.Api.Rpc.{PeerSummary, PeerDetail}
use bgpd_rs.Config.{PeerConfig, unwrap_or}
use bgpd_rs.Session.HoldTimer.{nanos}
use bgpd_rs.Session.Peer.{Session, active, idle}
use bgpd_rs.Session.Poller.{NetworkApi, get_host_address}
use bgpd_rs.Show.{show_state, show_family, show_hold_timer}
use bgpd_rs.Utils.Api.{TextApi}
use bgpd_rs.Utils.Display.{format_time_as_elapsed}

abbrev pub option_map {ℓ κ} : {A : Type ℓ} {B : Type κ} → (A → B) → Option A → Option B
option_map f none = none
option_map f (some a) = some (f a)

module _ (api : TextApi) where
  family_text : AfiSafi → Text
  family_text (afi, safi) =
      text "Address family " ++ (api.show_afi afi ++ b' ' ∷ api.show_safi safi)

  unfoldable pub capabilities_export : Capabilities → List Text
  unfolding family_text
  capabilities_export c =
      map family_text c.mp_bgp_support
      ++ (if c.route_refresh_support then text "Route Refresh" ∷ [] else [])

  module _ (net : NetworkApi) (local_addr : Session → Option SocketAddr) where
    unfoldable pub configured_peer : PeerConfig → Text
    configured_peer config = elim (get_host_address net config.remote_ip) [
      | none ↦ api.show_network config.remote_ip
      | some addr ↦ api.show_ip addr
    ]

    unfoldable pub configured_state : PeerConfig → Text
    configured_state config =
        if not config.enabled
        then text "Disabled"
        else if not config.passive
        then show_state active
        else show_state idle

    unfoldable pub peer_to_summary : PeerConfig → Option Session → Option ℕ → ℕ → PeerSummary
    unfolding configured_peer configured_state
    peer_to_summary config session prefixes_received now = record {
      peer =
          unwrap_or (option_map (λ (s : Session). api.show_ip s.addr) session)
            (configured_peer config);
      enabled = config.enabled;
      router_id = option_map (λ (s : Session). s.router_id) session;
      remote_asn = config.remote_as;
      local_asn = config.local_as;
      msg_received = option_map (λ (s : Session). s.counts.received) session;
      msg_sent = option_map (λ (s : Session). s.counts.sent) session;
      connect_time = option_map (λ (s : Session). s.connect_time / nanos) session;
      uptime = option_map (λ (s : Session). format_time_as_elapsed s.connect_time now) session;
      state =
          unwrap_or (option_map (λ (s : Session). show_state s.state) session)
            (configured_state config);
      prefixes_received = prefixes_received;
    }

    socket_text : Option SocketAddr → Text
    socket_text addr = unwrap_or (option_map api.show_socket addr) (text "---")

    unfoldable pub peer_to_detail : PeerConfig → Option Session → Option ℕ → ℕ → PeerDetail
    unfolding socket_text
    peer_to_detail config session prefixes_received now = record {
      summary = peer_to_summary config session prefixes_received now;
      capabilities =
          unwrap_or (option_map (λ (s : Session). capabilities_export s.capabilities) session)
            (map (show_family api) config.families);
      hold_timer =
          unwrap_or (option_map (λ (s : Session). s.hold_timer.hold_timer) session)
            config.hold_timer;
      hold_timer_interval =
          unwrap_or (option_map (λ (s : Session). s.hold_timer.interval) session)
            (config.hold_timer / 3);
      hold_time = option_map (λ (s : Session). show_hold_timer s.hold_timer now) session;
      last_received =
          option_map (λ (s : Session). format_time_as_elapsed s.hold_timer.last_received now)
            session;
      last_sent =
          option_map (λ (s : Session). format_time_as_elapsed s.hold_timer.last_sent now) session;
      tcp_connection =
          option_map
            (λ (s : Session). (socket_text (local_addr s), socket_text s.protocol.peer_addr))
            session;
    }
