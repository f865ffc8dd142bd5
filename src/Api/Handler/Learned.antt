-- ===== src/Api/Handler/Learned.antt =====
-- src/api/handler.rs: the lists of learned routes.
use bgpd_rs.Base.{ℕ, ◌≡◌, refl, List, map, Option, none, some, retain, flat_map, ok, nat_Eq}
use bgpd_rs.Api.Handler.{ApiError, learned_entries, show_routes_learned}
use bgpd_rs.Api.Handler.Listing.{learned_from, collect-map}
use bgpd_rs.Api.Routes.{entry_to_route}
use bgpd_rs.Bgp.{IpAddr, ip_addr_Eq, IpNetwork, SocketAddr}
use bgpd_rs.Handler.{State}
use bgpd_rs.Rib.{get_routes, get_routes_from_peer}
use bgpd_rs.Rib.Entry.{source_Eq, ExportEntry}
use bgpd_rs.Rib.Routes.{get_routes-split}
use bgpd_rs.Session.Peer.{Session}
use bgpd_rs.Session.Poller.{NetworkApi}
use bgpd_rs.Utils.Api.{TextApi}

module _ (api : TextApi) (net : NetworkApi) (local_addr : Session → Option SocketAddr) where
  -- Where the table can be listed, the learned routes are all the listed ones, or, for a network, those
  -- learned from the peers with a session and an address in the network, session by session.
  pub show_routes_learned_lem :
      (s : State) (network : IpNetwork) (now : ℕ) {all : List ExportEntry}
      → get_routes {E = ApiError} s.rib ≡ ok all
      → (show_routes_learned api net local_addr s none now
          ≡ ok (map (λ x. entry_to_route api x now) all))
        × (show_routes_learned api net local_addr s (some network) now
            ≡ ok (
                map
                  (λ x. entry_to_route api x now)
                  (flat_map
                    (λ es. es)
                    (map
                      (λ (p : IpAddr × Session). learned_from all p.0)
                      (retain (λ p. net.contains network p.0) s.sessions.sessions)))))
  unfolding show_routes_learned learned_entries
  show_routes_learned_lem s network now {all} h = (
    rw h refl,
    rw
        (collect-map (λ (p : IpAddr × Session). get_routes_from_peer {E = ApiError} s.rib p.0)
          (λ (p : IpAddr × Session). learned_from all p.0)
          (retain (λ p. net.contains network p.0) s.sessions.sessions)
          (λ p. (get_routes-split s.rib p.0 h).0))
        refl,
  )
