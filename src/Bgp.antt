-- ===== src/Bgp.antt =====
-- The types of the crates `bgp_rs`, `std::net` and `ipnetwork` as the code uses them: the variants
-- that it builds or matches, with a last constructor for the variants that it never names, and the
-- fields that it reads. An octet string is a list of numbers, an address a number of 32 or 128 bits.
use bgpd_rs.Base.{ℕ, ℕ_discrete, Bool, List, Eq, derived_eq, List-discrete}

pub data Afi : Type 0 where
  ipv4 ipv6 l2vpn : Afi
  other_afi : ℕ → Afi

pub data Safi : Type 0 where
  unicast safi_flowspec : Safi
  other_safi : ℕ → Safi

pub data IpAddr : Type 0 where
  v4 v6 : ℕ → IpAddr

pub record SocketAddr : Type 0 where
  pub addr : IpAddr
  pub port : ℕ

-- An address and a prefix length.
pub data IpNetwork : Type 0 where
  v4_net v6_net : ℕ → ℕ → IpNetwork

pub record Prefix : Type 0 where
  pub protocol : Afi
  pub length : ℕ
  pub prefix : List ℕ

pub data Segment : Type 0 where
  as_sequence as_set : List ℕ → Segment

pub record AsPath : Type 0 where
  pub segments : List Segment

pub data Origin : Type 0 where
  igp egp incomplete : Origin

-- The flags of an operator that the code sets, and its other bits.
pub record NumericOperator : Type 0 where
  pub and_bit : Bool
  pub gt : Bool
  pub lt : Bool
  pub eq : Bool
  pub other_bits : ℕ

-- A match of a flow rule.
pub data FlowspecFilter : Type 0 where
  destination_prefix source_prefix : Prefix → FlowspecFilter
  ip_protocol on_port destination_port source_port icmp_type icmp_code packet_length :
      List (NumericOperator × ℕ) → FlowspecFilter
  other_filter : ℕ → FlowspecFilter

pub data NlriEncoding : Type 0 where
  ip : Prefix → NlriEncoding
  flowspec : List FlowspecFilter → NlriEncoding
  other_nlri : ℕ → NlriEncoding

pub record MpReachNlri : Type 0 where
  pub afi : Afi
  pub safi : Safi
  pub next_hop : List ℕ
  pub announced_routes : List NlriEncoding

pub record MpUnreachNlri : Type 0 where
  pub afi : Afi
  pub safi : Safi
  pub withdrawn_routes : List NlriEncoding

pub data PathAttribute : Type 0 where
  origin : Origin → PathAttribute
  as_path : AsPath → PathAttribute
  next_hop : IpAddr → PathAttribute
  multi_exit_disc local_pref : ℕ → PathAttribute
  community extended_communities : List ℕ → PathAttribute
  mp_reach_nlri : MpReachNlri → PathAttribute
  mp_unreach_nlri : MpUnreachNlri → PathAttribute
  other_attribute : ℕ → PathAttribute

-- The identifiers that the code asks for, and any other by its number.
pub data Identifier : Type 0 where
  id_origin id_as_path id_next_hop id_multi_exit_disc id_local_pref id_community
        id_extended_communities id_mp_reach_nlri id_mp_unreach_nlri :
      Identifier
  id_other : ℕ → Identifier

pub record Update : Type 0 where
  pub withdrawn_routes : List NlriEncoding
  pub attributes : List PathAttribute
  pub announced_routes : List NlriEncoding

pub data OpenCapability : Type 0 where
  multi_protocol : Afi × Safi → OpenCapability
  four_byte_asn : ℕ → OpenCapability
  other_capability : ℕ → OpenCapability

pub data OpenParameter : Type 0 where
  capabilities : List OpenCapability → OpenParameter
  other_parameter : ℕ → OpenParameter

pub record Open : Type 0 where
  pub version : ℕ
  pub peer_asn : ℕ
  pub hold_timer : ℕ
  pub identifier : ℕ
  pub parameters : List OpenParameter

pub record Notification : Type 0 where
  pub major_err_code : ℕ
  pub minor_err_code : ℕ

pub data Message : Type 0 where
  open_msg : Open → Message
  keep_alive : Message
  update_msg : Update → Message
  notification_msg : Notification → Message
  route_refresh : ℕ → Message

unfoldable pub Afi-discrete : Discrete Afi
unfolding ℕ_discrete
Afi-discrete = hlevel ℕ_discrete

instance abbrev pub afi_Eq : Eq Afi
afi_Eq = derived_eq Afi-discrete

unfoldable pub Safi-discrete : Discrete Safi
unfolding ℕ_discrete
Safi-discrete = hlevel ℕ_discrete

instance abbrev pub safi_Eq : Eq Safi
safi_Eq = derived_eq Safi-discrete

unfoldable pub IpAddr-discrete : Discrete IpAddr
unfolding ℕ_discrete
IpAddr-discrete = hlevel ℕ_discrete

instance abbrev pub ip_addr_Eq : Eq IpAddr
ip_addr_Eq = derived_eq IpAddr-discrete

unfoldable pub IpNetwork-discrete : Discrete IpNetwork
unfolding ℕ_discrete
IpNetwork-discrete = hlevel ℕ_discrete

instance abbrev pub ip_network_Eq : Eq IpNetwork
ip_network_Eq = derived_eq IpNetwork-discrete

unfoldable pub Prefix-discrete : Discrete Prefix
unfolding ℕ_discrete Afi-discrete List-discrete
Prefix-discrete = hlevel (ℕ_discrete, Afi-discrete, List-discrete ℕ_discrete)

instance abbrev pub prefix_Eq : Eq Prefix
prefix_Eq = derived_eq Prefix-discrete

unfoldable pub NumericOperator-discrete : Discrete NumericOperator
unfolding ℕ_discrete
NumericOperator-discrete = hlevel ℕ_discrete

unfoldable pub FlowspecFilter-discrete : Discrete FlowspecFilter
unfolding ℕ_discrete Prefix-discrete NumericOperator-discrete List-discrete
FlowspecFilter-discrete = hlevel (ℕ_discrete, Prefix-discrete, NumericOperator-discrete)

instance abbrev pub filter_Eq : Eq FlowspecFilter
filter_Eq = derived_eq FlowspecFilter-discrete

unfoldable pub NlriEncoding-discrete : Discrete NlriEncoding
unfolding Prefix-discrete FlowspecFilter-discrete List-discrete
NlriEncoding-discrete = hlevel (ℕ_discrete, Prefix-discrete, List-discrete FlowspecFilter-discrete)

instance abbrev pub nlri_Eq : Eq NlriEncoding
nlri_Eq = derived_eq NlriEncoding-discrete

unfoldable pub Identifier-discrete : Discrete Identifier
unfolding ℕ_discrete
Identifier-discrete = hlevel ℕ_discrete

instance abbrev pub identifier_Eq : Eq Identifier
identifier_Eq = derived_eq Identifier-discrete

abbrev pub AfiSafi : Type 0
AfiSafi = Afi × Safi

unfoldable pub AfiSafi-discrete : Discrete AfiSafi
unfolding Afi-discrete Safi-discrete
AfiSafi-discrete = hlevel (Afi-discrete, Safi-discrete)

instance abbrev pub afi_safi_Eq : Eq AfiSafi
afi_safi_Eq = derived_eq AfiSafi-discrete

-- The fields of the crate's `Capabilities` that the code reads. What it only copies is a number.
pub record Capabilities : Type 0 where
  pub mp_bgp_support : List AfiSafi
  pub route_refresh_support : Bool
  pub outbound_route_filtering_support : List ℕ
  pub extended_next_hop_encoding : List (AfiSafi × ℕ)
  pub bgpsec_support : Bool
  pub multiple_labels_support : List (AfiSafi × ℕ)
  pub graceful_restart_support : List AfiSafi
  pub four_octet_asn_support : Bool
  pub add_path_support : List (AfiSafi × ℕ)
  pub extended_path_nlri_support : Bool
  pub enhanced_route_refresh_support : Bool
  pub long_lived_graceful_restart : Bool

-- The identifier that names each variant.
unfoldable pub variant : PathAttribute → Identifier
variant (origin _) = id_origin
variant (as_path _) = id_as_path
variant (next_hop _) = id_next_hop
variant (multi_exit_disc _) = id_multi_exit_disc
variant (local_pref _) = id_local_pref
variant (community _) = id_community
variant (extended_communities _) = id_extended_communities
variant (mp_reach_nlri _) = id_mp_reach_nlri
variant (mp_unreach_nlri _) = id_mp_unreach_nlri
variant (other_attribute n) = id_other n
