-- ===== src/Handler/Start.antt =====
-- src/handler.rs: the table with the routes and the flows of the configuration. The `i`-th reading
-- of the clock is an argument.
pub mod Entries
use bgpd_rs.Base.{ℕ, suc, List, [], ◌∷◌, Outcome, ok, ◌>>=◌}
use bgpd_rs.Config.{PeerConfig, ServerConfig}
use bgpd_rs.Handler.{State}
use bgpd_rs.Rib
use bgpd_rs.Rib.{Rib, insert_from_config}
use bgpd_rs.Rib.Attributes.{AttributeApi}
use bgpd_rs.Session.Manager
use bgpd_rs.Session.Poller.{NetworkApi}
use bgpd_rs.Utils.Api.{TextApi, FilterLimits}
use bgpd_rs.Utils.Error.{ParseError}
use bgpd_rs.Utils.Specs.{Parts, parse_route_spec, parse_flow_spec}

-- The readings of the clock so far, and the table.
abbrev pub Loading : Type 0
Loading = ℕ × Rib

module _ (lib : AttributeApi) (api : TextApi) (limits : FilterLimits) (clock : ℕ → ℕ) where
  insert_specs :
      {A : Type 0} → (A → Outcome ParseError Parts) → Loading → List A → Outcome ParseError Loading
  insert_specs parse l [] = ok l
  insert_specs parse (i, r) (spec ∷ specs) = do
    (family, (attributes, nlri)) ← parse spec
    r' ← insert_from_config lib r family attributes nlri (clock i)
    insert_specs parse (suc i, r') specs

  insert_peer : Loading → PeerConfig → Outcome ParseError Loading
  unfolding insert_specs
  insert_peer l peer = do
    l' ← insert_specs (parse_route_spec api) l peer.static_routes
    insert_specs (parse_flow_spec api limits) l' peer.static_flows

  insert_peers : Loading → List PeerConfig → Outcome ParseError Loading
  unfolding insert_peer
  insert_peers l [] = ok l
  insert_peers l (peer ∷ peers) = do l' ← insert_peer l peer; insert_peers l' peers

  -- `Server::new`
  unfoldable pub new : NetworkApi → ServerConfig → Outcome ParseError State
  unfolding insert_peers
  new net config = do
    (i, rib) ← insert_peers (0, Rib.new) config.peers
    ok (record { sessions = Manager.new net config; rib = rib })
