-- ===== src/Api/Handler.antt =====
-- src/api/handler.rs: the calls of the interface on the state of the daemon, at a reading of the
-- clock. A panic is one of the table (`Rib.get_routes`), or of the parser.
pub mod Advertise
pub mod Added
pub mod Listing
pub mod Learned
use bgpd_rs.Base.{
  ℕ, Bool, true, List, [], ◌∷◌, ◌++◌, map, Option, none, some, not, length, retain, flat_map,
  filter_map, Outcome, ok, map_err, collect, ◌>>=◌,
}
use bgpd_rs.Base.Map
use bgpd_rs.Bgp.{IpAddr, ip_addr_Eq, IpNetwork, SocketAddr}
use bgpd_rs.Api.Peers.{peer_to_summary, peer_to_detail}
use bgpd_rs.Api.Routes.{entry_to_route}
use bgpd_rs.Api.Rpc.{PeerSummary, PeerDetail, LearnedRoute}
use bgpd_rs.Config.{PeerConfig}
use bgpd_rs.Config.Specs.{RouteSpec, FlowSpec}
use bgpd_rs.Handler.{State}
use bgpd_rs.Rib.{Rib, get_routes, get_routes_from_peer, insert_from_api}
use bgpd_rs.Rib.Attributes.{AttributeApi}
use bgpd_rs.Rib.Entry.{EntrySource, ExportEntry}
use bgpd_rs.Rib.SessionRoutes as Routes
use bgpd_rs.Session.Peer.{Session}
use bgpd_rs.Session.Poller.{NetworkApi, get_host_address}
use bgpd_rs.Show.{show_source}
use bgpd_rs.Utils.Api.{TextApi, FilterLimits}
use bgpd_rs.Utils.Error.{ParseError}
use bgpd_rs.Utils.Specs.{Parts, parse_route_spec, parse_flow_spec}

-- `Error::Custom` of `jsonrpsee`, with the text of the reason.
pub data ApiError : Type 0 where
  custom : ParseError → ApiError

module _ (api : TextApi) (net : NetworkApi) (local_addr : Session → Option SocketAddr) where
  -- A configuration whose peer has no session: a network, or a host that is not connected.
  abbrev pub is_idle : State → PeerConfig → Bool
  is_idle s config = elim (get_host_address net config.remote_ip) [
    | none ↦ true
    | some ip ↦ not (Map.contains_key ip s.sessions.sessions)
  ]

  -- The summaries and the details are made in the same way, from a function `make`.
  each_session :
      {B : Type 0}
      → (PeerConfig → Option Session → Option ℕ → ℕ → B)
      → Rib
      → ℕ
      → IpAddr × Session
      → Outcome ApiError B
  each_session make rib now (addr, session) = do
    routes ← get_routes_from_peer rib addr
    ok (make session.config (some session) (some (length routes)) now)

  unfoldable pub show_each :
      {B : Type 0}
      → (PeerConfig → Option Session → Option ℕ → ℕ → B)
      → State
      → ℕ
      → Outcome ApiError (List B)
  unfolding each_session
  show_each make s now = do
    sessions ← collect (each_session make s.rib now) s.sessions.sessions
    ok (
        sessions
        ++ map (λ config. make config none none now) (retain (is_idle s) s.sessions.config.peers))

  unfoldable pub show_peers : State → ℕ → Outcome ApiError (List PeerSummary)
  show_peers = show_each (peer_to_summary api net local_addr)

  unfoldable pub show_peer_detail : State → ℕ → Outcome ApiError (List PeerDetail)
  show_peer_detail = show_each (peer_to_detail api net local_addr)

  learned_entries : State → Option IpNetwork → Outcome ApiError (List ExportEntry)
  learned_entries s none = get_routes s.rib
  learned_entries s (some peer) = do
    found ←
        collect (λ p. get_routes_from_peer s.rib p.0)
          (retain (λ p. net.contains peer p.0) s.sessions.sessions)
    ok (flat_map (λ es. es) found)

  unfoldable pub show_routes_learned :
      State → Option IpNetwork → ℕ → Outcome ApiError (List LearnedRoute)
  unfolding learned_entries
  show_routes_learned s from_peer now = do
    entries ← learned_entries s from_peer
    ok (map (λ e. entry_to_route api e now) entries)

  is_asked : Option IpNetwork → Session → Bool
  is_asked none s = true
  is_asked (some prefix) s = net.contains prefix s.addr

  sent_to : ℕ → Session → List LearnedRoute
  sent_to now s =
      map
        (λ e. record (entry_to_route api e now) {
          source = show_source api (EntrySource.peer s.addr);
        })
        (Routes.advertised s.routes)

  unfoldable pub show_routes_advertised : State → Option IpNetwork → ℕ → List LearnedRoute
  unfolding is_asked sent_to
  show_routes_advertised s to_peer now =
      flat_map (λ p. sent_to now p.1) (retain (λ p. is_asked to_peer p.1) s.sessions.sessions)

module _ (lib : AttributeApi) (api : TextApi) where
  -- The table is changed only after the parse.
  insert : State → Parts → ℕ → Outcome ApiError (LearnedRoute × State)
  insert s (family, (attributes, nlri)) now = do
    (entry, rib) ← insert_from_api lib s.rib family attributes nlri now
    ok (entry_to_route api entry now, record s { rib = rib })

  unfoldable pub advertise_route : State → RouteSpec → ℕ → Outcome ApiError (LearnedRoute × State)
  unfolding insert
  advertise_route s route now = do
    parts ← map_err custom (parse_route_spec api route)
    insert s parts now

  unfoldable pub advertise_flow :
      FilterLimits → State → FlowSpec → ℕ → Outcome ApiError (LearnedRoute × State)
  unfolding insert
  advertise_flow limits s flow now = do
    parts ← map_err custom (parse_flow_spec api limits flow)
    insert s parts now
