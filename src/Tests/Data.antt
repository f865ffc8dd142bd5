-- ===== src/Tests/Data.antt =====
-- Concrete values of the parameters, and a small table, session and messages to apply theorems to.
use bgpd_rs.Base.{
  ℕ, true, false, if◌then◌else◌, List, [], ◌∷◌, Option, none, some, length, ◌==◌, nat_Eq,
}
use bgpd_rs.Base.Text.{text, decimal}
use bgpd_rs.Utils.Api.{TextApi, FilterLimits}
use bgpd_rs.Bgp.{
  v4, v4_net, ipv4, ipv6, unicast, Prefix, ip, PathAttribute, Identifier, identifier_Eq, variant,
  id_origin, id_as_path, id_next_hop, id_multi_exit_disc, id_local_pref, id_community,
  id_extended_communities, id_mp_reach_nlri, id_mp_unreach_nlri, id_other, Update, Open,
  OpenParameter, Capabilities, igp, as_sequence,
}
use bgpd_rs.Config.{PeerConfig, default_families, default_advertise_sources}
use bgpd_rs.Rib.Attributes.{AttributeApi, PathAttributes}
use bgpd_rs.Rib.Entry.{ExportEntry, EntrySource}
use bgpd_rs.Rib.Families.{Family}
use bgpd_rs.Rib.SessionRoutes.{SessionRoutes}
use bgpd_rs.Session.HoldTimer.{HoldTimer}
use bgpd_rs.Session.Peer.{Session, SessionState}

abbrev pub code : Identifier → ℕ
code id_origin = 1
code id_as_path = 2
code id_next_hop = 3
code id_multi_exit_disc = 4
code id_local_pref = 5
code id_community = 8
code id_mp_reach_nlri = 14
code id_mp_unreach_nlri = 15
code id_extended_communities = 16
code (id_other n) = n

abbrev pub first_attribute : Identifier → List PathAttribute → Option PathAttribute
first_attribute i [] = none
first_attribute i (a ∷ as') = if variant a == i then some a else first_attribute i as'

-- The identifier is the variant's, an attribute is encoded as its code, and a hash is a length.
abbrev pub lib : AttributeApi
lib = record {
  id = variant;
  code = code;
  find = λ u i. first_attribute i u.attributes;
  encode = λ a. some (code (variant a) ∷ []);
  finish = length;
}

abbrev pub no_capabilities : Capabilities
no_capabilities = record {
  mp_bgp_support = [];
  route_refresh_support = false;
  outbound_route_filtering_support = [];
  extended_next_hop_encoding = [];
  bgpsec_support = false;
  multiple_labels_support = [];
  graceful_restart_support = [];
  four_octet_asn_support = true;
  add_path_support = [];
  extended_path_nlri_support = false;
  enhanced_route_refresh_support = false;
  long_lived_graceful_restart = false;
}

abbrev pub from_parameters : List OpenParameter → Capabilities
from_parameters _ = no_capabilities

abbrev pub ten_slash_eight : Prefix
ten_slash_eight = record { protocol = ipv4; length = 8; prefix = 10 ∷ 0 ∷ 0 ∷ 0 ∷ [] }

abbrev pub documentation_prefix : Prefix
documentation_prefix = record { protocol = ipv6; length = 16; prefix = 32 ∷ 1 ∷ [] }

abbrev pub unicast_v4 : Family
unicast_v4 = record { afi = ipv4; safi = unicast }

abbrev pub peer_config : PeerConfig
peer_config = record {
  remote_ip = v4_net 0x7f000002 32;
  remote_as = 100;
  local_as = 70000;
  local_router_id = v4 0x01010101;
  enabled = true;
  passive = false;
  hold_timer = 90;
  dest_port = 179;
  families = default_families;
  advertise_sources = default_advertise_sources;
  static_routes = [];
  static_flows = [];
}

abbrev pub silent_timer : HoldTimer
silent_timer = record { hold_timer = 90; interval = 30; last_sent = 0; last_received = 0 }

abbrev pub no_routes : SessionRoutes
no_routes = record { families = record { set = [] }; routes = []; pending = []; advertised = [] }

abbrev pub session_in : SessionState → Session
session_in state = record {
  addr = v4 0x7f000002;
  state = state;
  router_id = v4 0x7f000002;
  config = peer_config;
  protocol = record {
    peer_addr = some (record { addr = v4 0x7f000002; port = 179 });
    attempts = 0;
    outcome = λ _. none;
    sent = [];
  };
  connect_time = 0;
  hold_timer = silent_timer;
  counts = record { received = 0; sent = 0 };
  routes = no_routes;
  capabilities = no_capabilities;
}

abbrev pub open_from : ℕ → Open
open_from asn = record {
  version = 4;
  peer_asn = asn;
  hold_timer = 30;
  identifier = 0x02020202;
  parameters = [];
}

abbrev pub learned_attributes : PathAttributes
learned_attributes = record {
  next_hop = some (v4 0x7f000002);
  origin = igp;
  as_path = record { segments = as_sequence (100 ∷ []) ∷ [] };
  local_pref = none;
  multi_exit_disc = some 10;
  communities = [];
}

abbrev pub api_entry : ExportEntry
api_entry = record {
  timestamp = 5;
  source = EntrySource.api;
  update = record {
    family = unicast_v4;
    attributes = learned_attributes;
    nlri = ip ten_slash_eight;
  };
}

abbrev pub announcement : Update
announcement = record {
  withdrawn_routes = [];
  attributes = PathAttribute.origin igp ∷ PathAttribute.next_hop (v4 0x7f000002) ∷ [];
  announced_routes = ip ten_slash_eight ∷ [];
}

abbrev pub withdrawal : Update
withdrawal = record {
  withdrawn_routes = ip ten_slash_eight ∷ [];
  attributes = PathAttribute.origin igp ∷ [];
  announced_routes = ip documentation_prefix ∷ [];
}

-- Texts that are small already; only the address 10.0.0.0 is read.
abbrev pub texts : TextApi
texts = record {
  lower = λ t. t;
  parse_ip = λ _. some (v4 0x0a000000);
  show_ip = λ _. text "ip";
  show_network = λ _. text "network";
  parse_f32 = λ _. none;
  show_f32 = decimal;
  show_socket = λ _. text "socket";
  try_afi = λ n. if n == 1 then some ipv4 else none;
  try_safi = λ n. if n == 1 then some unicast else none;
  show_afi = λ _. text "afi";
  show_safi = λ _. text "safi";
  show_origin = λ _. text "origin";
  show_prefix = λ _. text "prefix";
  show_filter = λ _. text "filter";
  show_other_nlri = λ _. text "other";
  show_io_error = λ _. text "io";
}

abbrev pub limits : FilterLimits
limits = record {
  protocol = 255;
  port = 65535;
  destination_port = 65535;
  source_port = 65535;
  icmp_type = 255;
  icmp_code = 255;
  packet_length = 65535;
}
