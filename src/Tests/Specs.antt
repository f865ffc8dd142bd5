-- ===== src/Tests/Specs.antt =====
-- src/utils/parse.rs and src/handler.rs: the theorems about specifications at concrete ones.
use bgpd_rs.Base.{
  ℕ, suc, true, false, ◌≡◌, refl, [], ◌∷◌, ◌++◌, List, none, some, ok, Perm, collect, filter_map,
  List-discrete, ℕ_discrete,
}
use bgpd_rs.Base.Map
use bgpd_rs.Base.Text.{text, split, split_once, split_whitespace, is_space, parse_uint}
use bgpd_rs.Bgp.{
  igp, incomplete, v4, v4_net, PathAttribute, NlriEncoding, Identifier-discrete, variant, ipv4,
  unicast, safi_flowspec, FlowspecFilter, destination_prefix, on_port,
}
use bgpd_rs.Base.Bytes.{octets, number}
use bgpd_rs.Config.{ServerConfig, default_bgp_socket, default_api_socket}
use bgpd_rs.Config.Specs.{SpecAttributes, default_attributes, RouteSpec, FlowSpec}
use bgpd_rs.Handler.{State}
use bgpd_rs.Handler.Start.{new}
use bgpd_rs.Handler.Start.Entries.{planned, Entered, new-Entered}
use bgpd_rs.Rib
use bgpd_rs.Rib.{Rib, pairs, insert_from_config}
use bgpd_rs.Rib.Attributes.{from_attributes, from_group, hash, cache_insert}
use bgpd_rs.Rib.Community.{standard, extended, all_standard, all_extended}
use bgpd_rs.Rib.Community.Notation.{try_from}
use bgpd_rs.Rib.Entry.{RibEntry, EntrySource}
use bgpd_rs.Rib.Histories.{Reach}
use bgpd_rs.Session.Manager as Manager
use bgpd_rs.Tests.Connections.{net}
use bgpd_rs.Tests.Data.{lib, texts, limits, peer_config}
use bgpd_rs.Utils.Error.{ParseError}
use bgpd_rs.Utils.Flow.{redirect, parse_flowspec_action, action_attribute, parse_flowspec_match}
use bgpd_rs.Utils.Numbers.{
  asn_from_dotted, prefix_from_network, parse_num_operator, prefix_from_str,
}
use bgpd_rs.Utils.Specs.{
  Parts, built, parse_asns, parse_communities, origin_of, parse_attributes, parse_route_spec,
  parse_flow_spec,
}
use bgpd_rs.Utils.Specs.Attributes.{
  attributes_from, parse_route_spec-from_group, parse_flow_spec-from_group,
}

abbrev pub given : SpecAttributes
given = record {
  origin = some (text "igp");
  as_path = text "100" ∷ text "65000.100" ∷ [];
  local_pref = some 200;
  multi_exit_disc = none;
  communities = text "100:200" ∷ [];
}

abbrev pub route : RouteSpec
route = record { prefix = v4_net 0x0a000000 8; next_hop = v4 0x01010101; attributes = given }

pub asns_lem : parse_asns given.as_path ≡ ok (100 ∷ 4259840100 ∷ [])
unfolding parse_asns collect asn_from_dotted split_once parse_uint
asns_lem = refl

pub communities_lem : parse_communities given.communities ≡ ok (standard 6553800 ∷ [])
unfolding parse_communities collect try_from split parse_uint
communities_lem = refl

parse_route_spec-from_group_example :
    (attributes : List PathAttribute) × (parse_route_spec texts route
        ≡ ok (
          record { afi = (prefix_from_network route.prefix).protocol; safi = unicast },
          (attributes, NlriEncoding.ip (prefix_from_network route.prefix)),
        )
      × from_group {E = ParseError} (from_attributes lib attributes)
        ≡ ok (
            attributes_from
              (some (v4 0x01010101))
              (origin_of texts (some (text "igp")))
              (some 200)
              none
              (100 ∷ 4259840100 ∷ [])
              (standard 6553800 ∷ [])))
parse_route_spec-from_group_example =
    parse_route_spec-from_group lib (λ a. refl) texts route asns_lem communities_lem

abbrev flow : FlowSpec
flow = record {
  afi = 1;
  action = text "redirect 100:200";
  matches = text "destination 10.0.0.0/8" ∷ text "port >=80 <90" ∷ [];
  attributes = given;
}

abbrev flow_filters : List FlowspecFilter
flow_filters =
    destination_prefix (record { protocol = ipv4; length = 8; prefix = 10 ∷ 0 ∷ 0 ∷ 0 ∷ [] })
    ∷ on_port (
        (record { and_bit = false; gt = true; lt = false; eq = true; other_bits = 0 }, 80)
        ∷ (record { and_bit = true; gt = false; lt = true; eq = false; other_bits = 0 }, 90)
        ∷ [])
    ∷ []

action_lem : parse_flowspec_action texts flow.action ≡ ok (redirect (standard 6553800))
unfolding parse_flowspec_action split_whitespace is_space try_from split parse_uint List-discrete
    ℕ_discrete
action_lem = refl

attribute_lem :
    action_attribute {E = ParseError} (redirect (standard 6553800))
    ≡ ok (PathAttribute.extended_communities (9225624266165190856 ∷ []))
unfolding action_attribute number octets
attribute_lem = refl

matches_lem : collect (parse_flowspec_match texts limits) flow.matches ≡ ok flow_filters
unfolding octets collect parse_flowspec_match split_once split_whitespace is_space prefix_from_str
    parse_num_operator parse_uint List-discrete ℕ_discrete
matches_lem = refl

parse_flow_spec-from_group_example :
    (attributes : List PathAttribute) × (parse_flow_spec texts limits flow
        ≡ ok (
          record { afi = ipv4; safi = safi_flowspec },
          (attributes, NlriEncoding.flowspec flow_filters),
        )
      × from_group {E = ParseError} (from_attributes lib attributes)
        ≡ ok (
            attributes_from none
              (origin_of texts (some (text "igp")))
              (some 200)
              none
              (100 ∷ 4259840100 ∷ [])
              (standard 6553800 ∷ extended 9225624266165190856 ∷ [])))
parse_flow_spec-from_group_example =
    parse_flow_spec-from_group lib (λ a. refl) texts limits flow refl asns_lem communities_lem
      action_lem attribute_lem matches_lem

-- A peer with one route and one flow, in a daemon that starts.
abbrev settings : ServerConfig
settings = record {
  router_id = v4 0x01010101;
  default_as = 70000;
  bgp_socket = default_bgp_socket;
  api_socket = default_api_socket;
  poll_interval = 30;
  peers =
      record peer_config {
        static_routes = route ∷ [];
        static_flows = record flow { attributes = default_attributes } ∷ [];
      }
      ∷ [];
}

abbrev route_entry : RibEntry
route_entry = record {
  family = record { afi = ipv4; safi = unicast };
  source = EntrySource.config;
  timestamp = 1;
  nlri = NlriEncoding.ip (record { protocol = ipv4; length = 8; prefix = 10 ∷ 0 ∷ 0 ∷ 0 ∷ [] });
}

abbrev flow_entry : RibEntry
flow_entry = record {
  family = record { afi = ipv4; safi = safi_flowspec };
  source = EntrySource.config;
  timestamp = 2;
  nlri = NlriEncoding.flowspec flow_filters;
}

abbrev pub route_attributes : List PathAttribute
route_attributes =
    built igp (some 200) none (100 ∷ 4259840100 ∷ []) (6553800 ∷ []) []
    ++ PathAttribute.next_hop (v4 0x01010101) ∷ []

abbrev flow_attributes : List PathAttribute
flow_attributes =
    built incomplete none none [] [] []
    ++ PathAttribute.extended_communities (9225624266165190856 ∷ []) ∷ []

abbrev started : State
started = record {
  sessions = Manager.new net settings;
  rib = record {
    entries = (5, route_entry ∷ []) ∷ (3, flow_entry ∷ []) ∷ [];
    cache =
        (5, from_attributes lib route_attributes) ∷ (3, from_attributes lib flow_attributes) ∷ [];
  };
}

started_lem : new lib texts limits suc net settings ≡ ok started
unfolding new parse_route_spec parse_flow_spec parse_attributes insert_from_config cache_insert hash
    from_attributes Rib.new octets collect parse_flowspec_match split_once split_whitespace is_space
    prefix_from_str parse_num_operator parse_uint List-discrete ℕ_discrete parse_asns
    asn_from_dotted parse_communities try_from split parse_flowspec_action action_attribute number
    built all_standard all_extended filter_map prefix_from_network origin_of Map.insert Map.upsert
    Identifier-discrete variant
started_lem = refl

new-Entered_example :
    (ps : List Parts) × (planned lib texts limits suc settings.peers ≡ ok ps)
    × ((es : List (ℕ × RibEntry)) × (Entered lib suc 0 ps es × Perm (pairs started.rib) es))
    × Reach lib started.rib
new-Entered_example = new-Entered lib texts limits suc net settings started_lem
