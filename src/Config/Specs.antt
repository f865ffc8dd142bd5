-- ===== src/Config/Specs.antt =====
-- src/api/rpc.rs: the specifications of routes and flows, as the configuration and the API give them.
use bgpd_rs.Base.{ℕ, List, [], Option, none}
use bgpd_rs.Base.Text.{Text}
use bgpd_rs.Bgp.{IpAddr, IpNetwork}

pub record SpecAttributes : Type 0 where
  pub origin : Option Text
  pub as_path : List Text
  pub local_pref : Option ℕ
  pub multi_exit_disc : Option ℕ
  pub communities : List Text

abbrev pub default_attributes : SpecAttributes
default_attributes = record {
  origin = none;
  as_path = [];
  local_pref = none;
  multi_exit_disc = none;
  communities = [];
}

pub record RouteSpec : Type 0 where
  pub prefix : IpNetwork
  pub next_hop : IpAddr
  pub attributes : SpecAttributes

pub record FlowSpec : Type 0 where
  pub afi : ℕ
  pub action : Text
  pub matches : List Text
  pub attributes : SpecAttributes
