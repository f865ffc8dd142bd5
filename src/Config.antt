-- ===== src/Config.antt =====
-- src/config/mod.rs and the parsed form of src/config/file.rs: the configuration of the daemon and
-- of its peers. An `Arc` is the value in it.
pub mod Specs
pub mod File
use bgpd_rs.Base.{
  ℕ, ℕ_discrete, Bool, true, false, not, List, [], ◌∷◌, map, Option, none, some, Eq, derived_eq,
  ◌==◌, nat_Eq,
}
use bgpd_rs.Bgp.{IpAddr, v6, IpNetwork, SocketAddr, ipv4, ipv6, unicast, safi_flowspec}
use bgpd_rs.Rib.Families.{Family}
use Specs.{RouteSpec, FlowSpec}

pub data AdvertiseSource : Type 0 where
  api peer config : AdvertiseSource

unfoldable pub AdvertiseSource-discrete : Discrete AdvertiseSource
AdvertiseSource-discrete = hlevel

instance abbrev pub advertise_Eq : Eq AdvertiseSource
advertise_Eq = derived_eq AdvertiseSource-discrete

pub record PeerConfigSpec : Type 0 where
  pub remote_ip : IpNetwork
  pub remote_as : ℕ
  pub local_as : Option ℕ
  pub local_router_id : Option IpAddr
  pub enabled : Bool
  pub passive : Bool
  pub hold_timer : ℕ
  pub dest_port : ℕ
  pub families : List Family
  pub advertise_sources : List AdvertiseSource
  pub static_routes : List RouteSpec
  pub static_flows : List FlowSpec

pub record ServerConfigSpec : Type 0 where
  pub router_id : IpAddr
  pub default_as : ℕ
  pub bgp_socket : SocketAddr
  pub api_socket : SocketAddr
  pub poll_interval : ℕ
  pub peers : List PeerConfigSpec

-- The values of `serde` for the fields that a file leaves out.
abbrev pub default_api_socket : SocketAddr
default_api_socket = record { addr = v6 0; port = 8080 }

abbrev pub default_bgp_socket : SocketAddr
default_bgp_socket = record { addr = v6 0; port = 179 }

abbrev pub default_enabled : Bool
default_enabled = true

abbrev pub default_passive : Bool
default_passive = false

abbrev pub default_poll_interval : ℕ
default_poll_interval = 30

abbrev pub default_hold_timer : ℕ
default_hold_timer = 180

abbrev pub default_dest_port : ℕ
default_dest_port = 179

abbrev pub default_families : List Family
default_families =
    record { afi = ipv4; safi = unicast }
    ∷ record { afi = ipv4; safi = safi_flowspec }
    ∷ record { afi = ipv6; safi = unicast }
    ∷ record { afi = ipv6; safi = safi_flowspec }
    ∷ []

abbrev pub default_advertise_sources : List AdvertiseSource
default_advertise_sources = api ∷ config ∷ []

pub record PeerConfig : Type 0 where
  pub remote_ip : IpNetwork
  pub remote_as : ℕ
  pub local_as : ℕ
  pub local_router_id : IpAddr
  pub enabled : Bool
  pub passive : Bool
  pub hold_timer : ℕ
  pub dest_port : ℕ
  pub families : List Family
  pub advertise_sources : List AdvertiseSource
  pub static_routes : List RouteSpec
  pub static_flows : List FlowSpec

pub record ServerConfig : Type 0 where
  pub router_id : IpAddr
  pub default_as : ℕ
  pub bgp_socket : SocketAddr
  pub api_socket : SocketAddr
  pub poll_interval : ℕ
  pub peers : List PeerConfig

unfoldable pub is_ebgp : PeerConfig → Bool
is_ebgp c = not (c.remote_as == c.local_as)

abbrev pub unwrap_or {ℓ} : {A : Type ℓ} → Option A → A → A
unwrap_or none d = d
unwrap_or (some a) d = a

unfoldable pub peer_from_spec : ServerConfigSpec → PeerConfigSpec → PeerConfig
peer_from_spec spec p = record {
  remote_ip = p.remote_ip;
  remote_as = p.remote_as;
  local_as = unwrap_or p.local_as spec.default_as;
  local_router_id = unwrap_or p.local_router_id spec.router_id;
  enabled = p.enabled;
  passive = p.passive;
  hold_timer = p.hold_timer;
  dest_port = p.dest_port;
  families = p.families;
  advertise_sources = p.advertise_sources;
  static_routes = p.static_routes;
  static_flows = p.static_flows;
}

unfoldable pub from_spec : ServerConfigSpec → ServerConfig
unfolding peer_from_spec
from_spec spec = record {
  router_id = spec.router_id;
  default_as = spec.default_as;
  bgp_socket = spec.bgp_socket;
  api_socket = spec.api_socket;
  poll_interval = spec.poll_interval;
  peers = map (peer_from_spec spec) spec.peers;
}
