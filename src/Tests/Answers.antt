-- ===== src/Tests/Answers.antt =====
-- src/api and the history of the table: the theorems at concrete states.
use bgpd_rs.Base.{
  ℕ, nat_Eq, Option, ◌≡◌, refl, true, inl, [], ◌∷◌, none, some, ok, retain, contains, collect,
  flat_map, filter_map, List-discrete, ℕ_discrete,
}
use bgpd_rs.Base.Map
use bgpd_rs.Base.Bytes.{octets}
use bgpd_rs.Base.Text.{split, split_once, parse_uint}
use bgpd_rs.Base.Within.{Within, Every}
use bgpd_rs.Api.Handler.{ApiError, advertise_route, show_peers, show_peer_detail}
use bgpd_rs.Api.Handler.Advertise.{advertise_route-sent}
use bgpd_rs.Session.Run.Taking.{taking}
use bgpd_rs.Api.Handler.Listing.{peer_list, session_summary, config_summary, show_peers-peer_list}
use bgpd_rs.Api.Routes.{entry_to_route}
use bgpd_rs.Api.Rpc.{PeerSummary, PeerDetail}
use mathlib.Core.List.{List, map}
use bgpd_rs.Bgp.{
  v4, Update, update_msg, NlriEncoding, SocketAddr, variant, Identifier-discrete, as_sequence,
  PathAttribute, igp, Afi-discrete, Safi-discrete, IpAddr-discrete,
}
use bgpd_rs.Config.{
  AdvertiseSource, advertise_Eq, AdvertiseSource-discrete, default_bgp_socket, default_api_socket,
  is_ebgp,
}
use bgpd_rs.Handler.{State}
use bgpd_rs.Rib.{
  Rib, new, pairs, get_routes, get_routes_for_peer, insert_from_api, update_from_peer,
}
use bgpd_rs.Rib.Attributes.{from_attributes, from_group, hash, cache_insert}
use bgpd_rs.Rib.Community.{standard, all_standard, all_extended}
use bgpd_rs.Rib.Entry.{EntrySource, EntrySource-discrete, ExportEntry}
use bgpd_rs.Rib.Families
use bgpd_rs.Rib.Families.{Family-discrete}
use bgpd_rs.Rib.Histories.{Reach, start, updated}
use bgpd_rs.Rib.Histories.Refinement.{table, wanted, table-wanted}
use bgpd_rs.Rib.Insertions.Api.{Unused}
use bgpd_rs.Rib.SessionRoutes as Routes
use bgpd_rs.Rib.SessionRoutes.{insert_routes, mark_advertised}
use bgpd_rs.Session.HoldTimer
use bgpd_rs.Session.Counts
use bgpd_rs.Rib.Parse.{parse_update}
use bgpd_rs.Session.Error.{SessionError}
use bgpd_rs.Session.Peer.{Session, established, SessionState-discrete, send_message}
use bgpd_rs.Session.Run.{
  advertise_pending, advertise_each, pending_routes, send_or_fail, advertise_source,
}
use bgpd_rs.Session.Updates.{create_update, own_path, sent_path}
use bgpd_rs.Tests.Connections.{net, empty_poller}
use bgpd_rs.Tests.Data.{
  lib, texts, peer_config, session_in, announcement, unicast_v4, ten_slash_eight, no_routes,
}
use bgpd_rs.Tests.Specs.{route, given, asns_lem, communities_lem, route_attributes}
use bgpd_rs.Utils.Numbers.{prefix_from_network, asn_from_dotted}
use bgpd_rs.Rib.Community.Notation.{try_from}
use bgpd_rs.Utils.Specs.{
  built, origin_of, parse_route_spec, parse_attributes, parse_asns, parse_communities,
}
use bgpd_rs.Utils.Specs.Attributes.{attributes_from}

abbrev pub learned_rib : Rib
learned_rib = record {
  entries =
      (
        2,
        record {
          family = unicast_v4;
          source = EntrySource.peer (v4 0x7f000002);
          timestamp = 7;
          nlri = NlriEncoding.ip ten_slash_eight;
        }
            ∷ [],
      )
      ∷ [];
  cache = (2, from_attributes lib announcement.attributes) ∷ [];
}

clock : ℕ → ℕ
clock _ = 7

learned_lem : update_from_peer lib new (v4 0x7f000002) clock announcement ≡ ok learned_rib
unfolding new update_from_peer parse_update from_attributes hash cache_insert Map.insert Map.upsert
    variant Identifier-discrete clock
learned_lem = refl

history : Reach lib learned_rib
history = updated (v4 0x7f000002) clock announcement start (inl learned_lem)

table-wanted_example : table learned_rib ≡ wanted lib history
table-wanted_example = table-wanted lib history

abbrev listening : Session
listening = record (session_in established) {
  routes = record no_routes { families = record { set = unicast_v4 ∷ [] } };
}

abbrev pub state : Rib → State
state rib = record {
  sessions = record {
    idle_peers = empty_poller;
    sessions = (v4 0x7f000002, listening) ∷ [];
    config = record {
      router_id = v4 0x01010101;
      default_as = 70000;
      bgp_socket = default_bgp_socket;
      api_socket = default_api_socket;
      poll_interval = 30;
      peers = peer_config ∷ [];
    };
    poller_tx = [];
  };
  rib = rib;
}

abbrev added_rib : Rib
added_rib = record {
  entries =
      (
        5,
        record {
          family = unicast_v4;
          source = EntrySource.api;
          timestamp = 5;
          nlri = NlriEncoding.ip ten_slash_eight;
        }
            ∷ [],
      )
      ∷ [];
  cache = (5, from_attributes lib route_attributes) ∷ [];
}

abbrev added : ExportEntry
added = record {
  timestamp = 5;
  source = EntrySource.api;
  update = record {
    family = unicast_v4;
    attributes =
        attributes_from (some (v4 0x01010101)) igp (some 200) none (100 ∷ 4259840100 ∷ [])
          (standard 6553800 ∷ []);
    nlri = NlriEncoding.ip ten_slash_eight;
  };
}

-- What a computation with a specification and the table unfolds.
program : Unit {0}
unfolding advertise_route parse_route_spec parse_attributes parse_asns collect asn_from_dotted
    split_once parse_uint parse_communities try_from split insert_from_api cache_insert hash
    from_attributes from_group all_standard all_extended Map.insert Map.upsert Map.get octets
    List-discrete filter_map Identifier-discrete prefix_from_network built origin_of ℕ_discrete new
    get_routes_for_peer get_routes pairs retain flat_map EntrySource-discrete variant
program = tt

advertised_lem :
    advertise_route lib texts (state new) route 5
    ≡ ok (entry_to_route texts added 5, state added_rib)
unfolding program
advertised_lem = refl

taken_lem : get_routes_for_peer {E = ℕ} added_rib (v4 0x7f000002) ≡ ok (added ∷ [])
unfolding program
taken_lem = refl

-- The UPDATE of an external session: the local AS in front of the path, and no local preference.
abbrev sent_update : Update
sent_update = record {
  withdrawn_routes = [];
  attributes =
      PathAttribute.origin igp
      ∷ PathAttribute.next_hop (v4 0x01010101)
      ∷ PathAttribute.local_pref 200
      ∷ PathAttribute.as_path
          (record { segments = as_sequence (70000 ∷ 100 ∷ 4259840100 ∷ []) ∷ [] })
      ∷ PathAttribute.community (6553800 ∷ [])
      ∷ [];
  announced_routes = NlriEncoding.ip ten_slash_eight ∷ [];
}

abbrev sending : Session
sending = record (taking listening (added ∷ [])) {
  protocol = record listening.protocol { attempts = 1; sent = update_msg sent_update ∷ [] };
  counts = record { received = 0; sent = 1 };
  hold_timer = HoldTimer.sent listening.hold_timer 9;
  routes = mark_advertised (taking listening (added ∷ [])).routes added;
}

sends_lem : advertise_pending (taking listening (added ∷ [])) 9 ≡ ok sending
unfolding program advertise_pending SessionState-discrete advertise_each pending_routes
    Routes.pending insert_routes contains Families.contains Family-discrete AdvertiseSource-discrete
    create_update send_or_fail send_message sent_path Counts.increment_sent Afi-discrete
    Safi-discrete is_ebgp mark_advertised HoldTimer.sent own_path IpAddr-discrete advertise_source
sends_lem = refl

unused_lem : Every (Unused 5) (pairs new)
unfolding program
unused_lem = tt

fresh_lem : Map.get 5 listening.routes.routes ≡ none
unfolding Map.get
fresh_lem = refl

family_lem : Families.contains listening.routes.families unicast_v4 ≡ true
unfolding Families.contains contains Family-discrete Afi-discrete Safi-discrete ℕ_discrete
family_lem = refl

allowed_lem : contains AdvertiseSource.api peer_config.advertise_sources ≡ true
unfolding contains AdvertiseSource-discrete
allowed_lem = refl

advertise_route-sent_example :
    (x : ExportEntry) × (u : Update) × (entry_to_route texts added 5 ≡ entry_to_route texts x 5)
    × (x.update.nlri ≡ NlriEncoding.ip (prefix_from_network route.prefix))
    × (x.update.attributes
        ≡ attributes_from
            (some (v4 0x01010101))
            (origin_of texts given.origin)
            (some 200)
            none
            (100 ∷ 4259840100 ∷ [])
            (standard 6553800 ∷ []))
    × (create_update {E = SessionError × Session} (taking listening (added ∷ [])) x.update ≡ ok u)
    × Within (update_msg u) sending.protocol.sent
unfolding prefix_from_network
advertise_route-sent_example =
    advertise_route-sent lib (λ a. refl) texts (state new) route 5 listening 9 asns_lem
      communities_lem advertised_lem unused_lem fresh_lem family_lem allowed_lem refl taken_lem
      sends_lem

abbrev pub learned : ExportEntry
learned = record {
  timestamp = 7;
  source = EntrySource.peer (v4 0x7f000002);
  update = record {
    family = unicast_v4;
    attributes = record {
      next_hop = some (v4 0x7f000002);
      origin = igp;
      as_path = record { segments = [] };
      local_pref = none;
      multi_exit_disc = none;
      communities = [];
    };
    nlri = NlriEncoding.ip ten_slash_eight;
  };
}

pub listed_lem : get_routes {E = ApiError} learned_rib ≡ ok (learned ∷ [])
unfolding program
listed_lem = refl

pub no_address : Session → Option SocketAddr
no_address _ = none

abbrev summaries : List PeerSummary
summaries =
    peer_list texts net no_address (λ x n. session_summary texts x n 9)
      (config_summary texts net no_address) (state learned_rib) (learned ∷ [])

show_peers-peer_list_example :
    (show_peers texts net no_address (state learned_rib) 9 ≡ ok summaries)
    × ((details : List PeerDetail) × (show_peer_detail texts net no_address (state learned_rib) 9
          ≡ ok details)
        × (map (λ d. d.summary) details ≡ summaries))
show_peers-peer_list_example =
    show_peers-peer_list texts net no_address (state learned_rib) 9 listed_lem
