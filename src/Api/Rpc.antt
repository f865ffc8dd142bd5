-- ===== src/Api/Rpc.antt =====
-- src/api/rpc.rs: what the interface takes and gives. The specifications are in Config/Specs.
use bgpd_rs.Base.{ℕ, Bool, List, Option}
use bgpd_rs.Base.Text.{Text}
use bgpd_rs.Bgp.{IpAddr, IpNetwork}
use bgpd_rs.Config.Specs.{RouteSpec, FlowSpec, default_attributes}

pub record PeerSummary : Type 0 where
  pub peer : Text
  pub enabled : Bool
  pub router_id : Option IpAddr
  pub remote_asn : ℕ
  pub local_asn : ℕ
  pub msg_received : Option ℕ
  pub msg_sent : Option ℕ
  pub connect_time : Option ℕ
  pub uptime : Option Text
  pub state : Text
  pub prefixes_received : Option ℕ

pub record PeerDetail : Type 0 where
  pub summary : PeerSummary
  pub hold_timer : ℕ
  pub hold_timer_interval : ℕ
  pub hold_time : Option Text
  pub last_received : Option Text
  pub last_sent : Option Text
  pub tcp_connection : Option (Text × Text)
  pub capabilities : List Text

pub record LearnedRoute : Type 0 where
  pub source : Text
  pub afi : Text
  pub safi : Text
  pub received_at : ℕ
  pub age : Text
  pub prefix : Text
  pub next_hop : Option IpAddr
  pub origin : Text
  pub as_path : Text
  pub local_pref : Option ℕ
  pub multi_exit_disc : Option ℕ
  pub communities : List Text

-- `RouteSpec::new` and `FlowSpec::new`
unfoldable pub new_route : IpNetwork → IpAddr → RouteSpec
new_route prefix next_hop = record {
  prefix = prefix;
  next_hop = next_hop;
  attributes = default_attributes;
}

unfoldable pub new_flow : ℕ → Text → List Text → FlowSpec
new_flow afi action matches = record {
  afi = afi;
  action = action;
  matches = matches;
  attributes = default_attributes;
}
