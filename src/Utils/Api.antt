-- ===== src/Utils/Api.antt =====
-- What the code calls of `std`, of `ipnetwork` and of `bgp_rs` for texts: the Unicode tables, the
-- notation of addresses, 32-bit floats by their bits, and the texts and numbers of the types of BGP.
use bgpd_rs.Base.{ℕ, Option}
use bgpd_rs.Base.Text.{Text}
use bgpd_rs.Bgp.{IpAddr, IpNetwork, SocketAddr, Afi, Safi, Origin, Prefix, FlowspecFilter}

pub record TextApi : Type 0 where
  pub lower : Text → Text
  pub parse_ip : Text → Option IpAddr
  pub show_ip : IpAddr → Text
  pub show_network : IpNetwork → Text
  pub parse_f32 : Text → Option ℕ
  pub show_f32 : ℕ → Text
  pub show_socket : SocketAddr → Text
  pub try_afi : ℕ → Option Afi
  pub try_safi : ℕ → Option Safi
  pub show_afi : Afi → Text
  pub show_safi : Safi → Text
  pub show_origin : Origin → Text
  pub show_prefix : Prefix → Text
  pub show_filter : FlowspecFilter → Text
  pub show_other_nlri : ℕ → Text
  pub show_io_error : ℕ → Text

-- The greatest values of the fields of `FlowspecFilter`.
pub record FilterLimits : Type 0 where
  pub protocol : ℕ
  pub port : ℕ
  pub destination_port : ℕ
  pub source_port : ℕ
  pub icmp_type : ℕ
  pub icmp_code : ℕ
  pub packet_length : ℕ
