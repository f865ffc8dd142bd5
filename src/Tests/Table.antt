-- ===== src/Tests/Table.antt =====
-- src/rib: the theorems about the table at concrete tables and updates.

use bgpd_rs.Base.{
  ℕ, ◌+◌, ◌≡◌, refl, inl, true, false, [], ◌∷◌, none, some, retain, flat_map, collect, contains, ok,
  err, panic, arith, ℕ_discrete, nat_Eq, nat_Eq,
}
use bgpd_rs.Base.Map
use bgpd_rs.Bgp.{
  IpAddr, v4, ipv6, unicast, ip, PathAttribute, MpReachNlri, Identifier-discrete, IpAddr-discrete,
  NlriEncoding-discrete, Afi-discrete, Safi-discrete, variant, igp, Update, nlri_Eq,
}
use bgpd_rs.Rib.Attributes.{PathAttributes, Group, hash, from_attributes, from_group, cache_insert}
use bgpd_rs.Rib.Attributes.Reading.{from_group-total, from_group-short_next_hop}
use bgpd_rs.Rib.Entry.{EntrySource-discrete, peer, ExportEntry, source_Eq}
use bgpd_rs.Rib.Histories.{start, updated, cached_after_any_history}
use bgpd_rs.Rib.Parse.{parse_update}
use bgpd_rs.Rib.Routes.{get_routes-split, update_from_peer-err, kept}
use bgpd_rs.Rib.SessionRoutes as Routes
use bgpd_rs.Rib.SessionRoutes.{insert_routes, mark_advertised, SessionRoutes}
use bgpd_rs.Rib.SessionRoutes.Tracking.{advertised_once, new-IsTracked, insert_routes-IsTracked}
use bgpd_rs.Rib.{
  Rib, new, pairs, get_routes, get_routes_from_peer, get_routes_for_peer, remove_from_peer,
  withdraw_peer_nlri, update_from_peer, withdraw_some, mp_withdraws,
}
use bgpd_rs.Session.Error.{SessionError, transport_error, invalid_next_hop}
use bgpd_rs.Tests.Data.{
  lib, announcement, withdrawal, api_entry, ten_slash_eight, documentation_prefix, unicast_v4,
}

-- What a computation with the table unfolds.
program : Unit {0}
unfolding new update_from_peer get_routes get_routes_from_peer get_routes_for_peer remove_from_peer
    withdraw_peer_nlri parse_update from_attributes hash cache_insert from_group Map.get Map.insert
    Map.remove Map.upsert retain flat_map collect contains variant Identifier-discrete
    IpAddr-discrete NlriEncoding-discrete EntrySource-discrete ℕ_discrete Afi-discrete Safi-discrete
program = tt

abbrev peer_ip : IpAddr
peer_ip = v4 0x7f000002

abbrev learned_rib : Rib
learned_rib = record {
  entries =
      (
        2,
        record {
          family = unicast_v4;
          source = peer peer_ip;
          timestamp = 7;
          nlri = ip ten_slash_eight;
        }
            ∷ [],
      )
      ∷ [];
  cache = (2, from_attributes lib announcement.attributes) ∷ [];
}

abbrev learned_route : ExportEntry
learned_route = record {
  timestamp = 7;
  source = peer peer_ip;
  update = record {
    family = unicast_v4;
    attributes = record {
      next_hop = some peer_ip;
      origin = igp;
      as_path = record { segments = [] };
      local_pref = none;
      multi_exit_disc = none;
      communities = [];
    };
    nlri = ip ten_slash_eight;
  };
}

clock : ℕ → ℕ
clock i = 7 + i

learned_lem : update_from_peer lib new peer_ip clock announcement ≡ ok learned_rib
unfolding program clock
learned_lem = refl

cached_after_any_history_example :
    (Map.contains_key 2 learned_rib.entries ≡ Map.contains_key 2 learned_rib.cache)
    × ((g : Group) → Map.get 2 learned_rib.cache ≡ some g → hash lib {E = SessionError} g ≡ ok 2)
cached_after_any_history_example =
    cached_after_any_history lib {r = learned_rib}
      (updated peer_ip clock announcement start (inl learned_lem)) 2

get_routes_lem : get_routes {E = SessionError} learned_rib ≡ ok (learned_route ∷ [])
unfolding program
get_routes_lem = refl

get_routes-split_example :
    (get_routes_from_peer {E = SessionError} learned_rib peer_ip ≡ ok (learned_route ∷ []))
    × (get_routes_for_peer {E = SessionError} learned_rib peer_ip ≡ ok [])
unfolding program
get_routes-split_example = get_routes-split learned_rib peer_ip get_routes_lem

replaced_rib : Rib
replaced_rib = record {
  entries =
      (
        1,
        record {
          family = unicast_v4;
          source = peer peer_ip;
          timestamp = 7;
          nlri = ip documentation_prefix;
        }
            ∷ [],
      )
      ∷ [];
  cache = (1, from_attributes lib withdrawal.attributes) ∷ [];
}

-- An update with a withdrawal and an MP_REACH_NLRI that has no next hop.
abbrev rejected : Update
rejected = record {
  withdrawn_routes = ip ten_slash_eight ∷ [];
  attributes =
      PathAttribute.mp_reach_nlri (record {
        afi = ipv6;
        safi = unicast;
        next_hop = [];
        announced_routes = ip documentation_prefix ∷ [];
      })
      ∷ [];
  announced_routes = [];
}

update_from_peer-err_example :
    (update_from_peer lib learned_rib peer_ip clock rejected
      ≡ err (
        transport_error invalid_next_hop,
        withdraw_some lib learned_rib peer_ip (ip ten_slash_eight ∷ []),
      ))
    × (pairs (withdraw_some lib learned_rib peer_ip (ip ten_slash_eight ∷ []))
        ≡ kept peer_ip (ip ten_slash_eight ∷ []) (pairs learned_rib))
update_from_peer-err_example =
    update_from_peer-err lib learned_rib peer_ip clock rejected {mp = []}
      {e = transport_error invalid_next_hop} (unfold program mp_withdraws in refl)
      (unfold program in refl)

from_group-total_example :
    (a : PathAttributes) × (from_group {E = SessionError}
        (from_attributes lib announcement.attributes)
      ≡ ok a)
from_group-total_example = from_group-total lib announcement.attributes (λ a. refl) (tt, (tt, tt))

abbrev short_nlri : MpReachNlri
short_nlri = record {
  afi = ipv6;
  safi = unicast;
  next_hop = 10 ∷ 0 ∷ 0 ∷ 1 ∷ [];
  announced_routes = ip documentation_prefix ∷ [];
}

from_group-short_next_hop_example :
    from_group {E = SessionError}
      (from_attributes lib (PathAttribute.origin igp ∷ PathAttribute.mp_reach_nlri short_nlri ∷ []))
    ≡ panic
from_group-short_next_hop_example =
    from_group-short_next_hop lib
      (PathAttribute.origin igp ∷ PathAttribute.mp_reach_nlri short_nlri ∷ []) short_nlri
      (λ a. refl) (unfold from_attributes Map.insert Map.get variant Identifier-discrete in refl)
      (unfold Afi-discrete Safi-discrete in refl) (omega arith)

abbrev known_routes : SessionRoutes
known_routes = insert_routes (Routes.new (record { set = unicast_v4 ∷ [] })) (api_entry ∷ [])

advertised_once_example :
    (contains 5 (insert_routes (mark_advertised known_routes api_entry) (api_entry ∷ [])).advertised
      ≡ true)
    × (contains 5 (insert_routes (mark_advertised known_routes api_entry) (api_entry ∷ [])).pending
        ≡ false)
advertised_once_example =
    advertised_once known_routes api_entry (api_entry ∷ [])
      (insert_routes-IsTracked (Routes.new (record { set = unicast_v4 ∷ [] })) (api_entry ∷ [])
        (new-IsTracked (record { set = unicast_v4 ∷ [] })))
      (unfold Routes.new insert_routes Map.get Map.insert in refl)
