-- ===== src/Tests/Relay.antt =====
-- src/handler.rs, src/rib and src/session: a route of one peer, and a session with another.
use bgpd_rs.Base.{ℕ, suc, List, [], ◌∷◌, ok, collect, retain, contains, flat_map, ℕ_discrete}
use bgpd_rs.Base.Map
use bgpd_rs.Base.Within.{Within}
use bgpd_rs.Bgp.{v4, IpAddr-discrete, Afi-discrete, Safi-discrete, Identifier-discrete, variant}
use bgpd_rs.Config.{AdvertiseSource, AdvertiseSource-discrete, is_ebgp}
use bgpd_rs.Rib.{Rib, new, pairs, mp_withdraws, update_from_peer, get_routes_for_peer}
use bgpd_rs.Rib.Attributes.{cache_insert, hash, from_attributes, from_group}
use bgpd_rs.Rib.Entry.{ExportEntry, EntrySource-discrete}
use bgpd_rs.Rib.Families
use bgpd_rs.Rib.Families.{Family-discrete}
use bgpd_rs.Rib.Parse.{parse_update}
use bgpd_rs.Rib.SessionRoutes as Routes
use bgpd_rs.Rib.SessionRoutes.{insert_routes, mark_advertised}
use bgpd_rs.Session.Counts
use bgpd_rs.Session.HoldTimer
use bgpd_rs.Session.Peer.{Session, SessionState-discrete, established, send_message}
use bgpd_rs.Session.Run.{
  advertise_source, advertise_pending, advertise_each, pending_routes, send_or_fail,
}
use bgpd_rs.Session.Run.Taking.{taking}
use bgpd_rs.Session.Updates.{create_update, sent_path, own_path}
use bgpd_rs.Tests.Data.{lib, session_in, peer_config, no_routes, unicast_v4, announcement}

-- A session that advertises the routes of peers.
abbrev relaying : Session
relaying = record (session_in established) {
  config = record peer_config { advertise_sources = AdvertiseSource.peer ∷ [] };
  routes = record no_routes { families = record { set = unicast_v4 ∷ [] } };
}

-- What a computation unfolds.
program : Unit {0}
unfolding update_from_peer parse_update mp_withdraws cache_insert hash from_attributes from_group
    collect Map.get Map.insert Map.upsert Identifier-discrete variant new get_routes_for_peer pairs
    retain flat_map EntrySource-discrete advertise_pending SessionState-discrete advertise_each
    pending_routes Routes.pending insert_routes contains Families.contains Family-discrete
    AdvertiseSource-discrete create_update send_or_fail send_message sent_path Counts.increment_sent
    Afi-discrete Safi-discrete is_ebgp mark_advertised HoldTimer.sent own_path IpAddr-discrete
    advertise_source ℕ_discrete
program = tt

table : Rib
unfolding program
table = elim (update_from_peer lib new (v4 9) suc announcement) [ ok r ↦ r | _ ↦ new ]

taken : List ExportEntry
unfolding program table
taken = elim (get_routes_for_peer {E = ℕ} table relaying.addr) [ ok es ↦ es | _ ↦ [] ]

sending : Session
unfolding program table taken
sending = elim (advertise_pending (taking relaying taken) 9) [ ok s ↦ s | _ ↦ relaying ]
