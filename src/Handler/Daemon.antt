-- ===== src/Handler/Daemon.antt =====
-- src/handler.rs with src/api/handler.rs and src/session/manager.rs: the daemon from its start on,
-- over all the turns of its loop and all the calls of the API in between.
use bgpd_rs.Base.{
  ℕ, ◌≡◌, refl, sym, subst, List, [], Option, none, some, Outcome, ok, err, panic, arith,
}
use bgpd_rs.Base.Map
use bgpd_rs.Base.Map.{Map}
use bgpd_rs.Base.Within.{Within, Every, Every-at, get-Within}
use bgpd_rs.Api.Handler.{advertise_route, advertise_flow}
use bgpd_rs.Api.Handler.Added.{Adds, advertise_route-Adds, advertise_flow-Adds}
use bgpd_rs.Api.Rpc.{LearnedRoute}
use bgpd_rs.Bgp.{IpAddr, ip_addr_Eq, OpenParameter, Capabilities}
use bgpd_rs.Config.{ServerConfig}
use bgpd_rs.Config.Specs.{RouteSpec, FlowSpec}
use bgpd_rs.Handler.{State, turn, got, applied, apply_update}
use bgpd_rs.Handler.Start.{new}
use bgpd_rs.Handler.Start.Entries.{new-Entered, new-sessions}
use bgpd_rs.Handler.Table.{turn-Reach}
use bgpd_rs.Rib.{Step}
use bgpd_rs.Rib.Attributes.{AttributeApi}
use bgpd_rs.Rib.Histories.{Reach}
use bgpd_rs.Session.Error.{SessionUpdate}
use bgpd_rs.Session.Manager.{Manager, Wake, polled, configured, get_update}
use bgpd_rs.Session.Manager.Alive.{World, IsKnown, Comes, Lists, Alive}
use bgpd_rs.Session.Manager.Managed.{IsManaged, IsFresh, new-IsManaged, get_update-IsManaged}
use bgpd_rs.Session.Peer.{Session}
use bgpd_rs.Session.Poller.{
  NetworkApi, PollEvent, incoming, outgoing, handed_back, no_connection, channel_closed,
}
use bgpd_rs.Session.Poller.Streams.{FreshEvent}
use bgpd_rs.Session.Run.{Event}
use bgpd_rs.Session.Run.Lifetime.{Lives-IsSound}
use bgpd_rs.Session.Run.Sound.{Past, IsSound}
use bgpd_rs.Utils.Api.{TextApi, FilterLimits}

module _ (W : World) (lib : AttributeApi) (api : TextApi) (limits : FilterLimits) (net : NetworkApi)
    (from_parameters : List OpenParameter → Capabilities) where
  -- What the world may do: connections are new, and only configurations that the manager has sent
  -- back come out of its channel.
  abbrev pub Arrives : Manager → PollEvent → Type 0
  Arrives m (incoming stream ip) = stream.sent ≡ []
  Arrives m (outgoing none) = Unit
  Arrives m (outgoing (some stream)) = stream.sent ≡ []
  Arrives m (handed_back config) = Within config m.poller_tx
  Arrives m _ = Unit

  abbrev pub Happens :
      Manager → (events : IpAddr → Event) (now : ℕ) → Wake net from_parameters events now → Type 0
  Happens m events now (polled event) = Arrives m event
  Happens m events now (configured config) = Every W.loads config.peers

  -- The states of the daemon.
  pub data Runs : State → Type 0 where
    begins :
        {s : State} (clock : ℕ → ℕ) (config : ServerConfig)
        → Every W.loads config.peers
        → new lib api limits clock net config ≡ ok s
        → Runs s
    turned :
        {s s' : State} (events : IpAddr → Event) (now : ℕ)
        (wake : Wake net from_parameters events now) (clock : ℕ → ℕ)
        → Happens s.sessions events now wake
        → ((ip : IpAddr) → Comes W ip (events ip))
        → Lists W s.rib
        → turn lib net from_parameters s events now wake clock ≡ ok s'
        → Runs s
        → Runs s'
    route_added :
        {s s' : State} (route : RouteSpec) (now : ℕ) {shown : LearnedRoute}
        → advertise_route lib api s route now ≡ ok (shown, s')
        → Runs s
        → Runs s'
    flow_added :
        {s s' : State} (flow : FlowSpec) (now : ℕ) {shown : LearnedRoute}
        → advertise_flow lib api limits s flow now ≡ ok (shown, s')
        → Runs s
        → Runs s'

  -- What holds in every state of the daemon.
  pub record IsRunning (s : State) : Type 0 where
    pub managed : IsManaged W from_parameters s.sessions
    pub table : Reach lib s.rib

  Arrives-FreshEvent :
      (m : Manager) (event : PollEvent)
      → Every W.loads m.poller_tx
      → Arrives m event
      → FreshEvent W.loads event
  Arrives-FreshEvent m (incoming stream ip) known h = h
  Arrives-FreshEvent m (outgoing none) known h = tt
  Arrives-FreshEvent m (outgoing (some stream)) known h = h
  Arrives-FreshEvent m (handed_back config) known h = Every-at W.loads known h
  Arrives-FreshEvent m no_connection known h = tt
  Arrives-FreshEvent m channel_closed known h = tt

  Happens-IsFresh :
      (m : Manager) (events : IpAddr → Event) (now : ℕ) (wake : Wake net from_parameters events now)
      → Every W.loads m.poller_tx
      → Happens m events now wake
      → IsFresh W from_parameters net events now wake
  Happens-IsFresh m events now (polled event) known h = Arrives-FreshEvent m event known h
  Happens-IsFresh m events now (configured config) known h = h

  begins-IsRunning :
      (clock : ℕ → ℕ) (config : ServerConfig) {s : State}
      → Every W.loads config.peers
      → new lib api limits clock net config ≡ ok s
      → IsRunning s
  begins-IsRunning clock config {s} known h =
      let (ps, hps, entered, reach) = new-Entered lib api limits clock net config h in
      record {
        managed =
            subst (IsManaged W from_parameters)
              (sym (new-sessions lib api limits clock net config h))
              (new-IsManaged W from_parameters net config known);
        table = reach;
      }

  applied-sessions : (m : Manager) (r : Step) {s : State} → applied lib m r ≡ ok s → s.sessions ≡ m
  unfolding applied
  applied-sessions m (ok r) h = ground arith
  applied-sessions m (err (e, r)) h = cc
  applied-sessions m panic h = cc

  turn-IsManaged :
      (s : State) (events : IpAddr → Event) (now : ℕ) (wake : Wake net from_parameters events now)
      (clock : ℕ → ℕ) {s' : State}
      → IsFresh W from_parameters net events now wake
      → ((ip : IpAddr) → Comes W ip (events ip))
      → Lists W s.rib
      → IsManaged W from_parameters s.sessions
      → turn lib net from_parameters s events now wake clock ≡ ok s'
      → IsManaged W from_parameters s'.sessions
  unfolding turn
  turn-IsManaged s events now wake clock {s'} fresh comes lists w h =
      updated (get_update net from_parameters events now s.sessions s.rib wake) refl h
    where
      updated :
          (g : Outcome ℕ (Option SessionUpdate × Manager))
          → get_update net from_parameters events now s.sessions s.rib wake ≡ g
          → got lib s.rib clock g ≡ ok s'
          → IsManaged W from_parameters s'.sessions
      updated (ok (u, m)) e k =
          subst (IsManaged W from_parameters)
            (sym (applied-sessions m (apply_update lib s.rib clock u) k))
            (get_update-IsManaged W from_parameters net events now s.sessions s.rib wake fresh comes
              lists w e)
      updated (err x) e k = cc
      updated panic e k = cc

  added-IsRunning : (s s' : State) → Adds lib api s s' → IsRunning s → IsRunning s'
  added-IsRunning s s' (same, history) w = record {
    managed = subst (IsManaged W from_parameters) (sym same) w.managed;
    table = history w.table;
  }

  -- In every state of the daemon, after any turns of its loop and any calls of the API, each session
  -- is in a state that a session with the peer of its address can come to, all its configurations
  -- are among those that were loaded, and the table has a history.
  pub Runs-IsRunning : {s : State} → Runs s → IsRunning s
  Runs-IsRunning (begins clock config known h) = begins-IsRunning clock config known h
  Runs-IsRunning (turned {s} events now wake clock happens comes lists h w) =
      let r = Runs-IsRunning w in
      record {
        managed =
            turn-IsManaged s events now wake clock
              (Happens-IsFresh s.sessions events now wake r.managed.handed happens) comes lists
              r.managed h;
        table = turn-Reach lib net from_parameters s events now wake clock r.table h;
      }
  Runs-IsRunning (route_added {s} {s'} route now h w) =
      added-IsRunning s s' (advertise_route-Adds lib api s route now h) (Runs-IsRunning w)
  Runs-IsRunning (flow_added {s} {s'} flow now h w) =
      added-IsRunning s s' (advertise_flow-Adds lib api limits s flow now h) (Runs-IsRunning w)

  -- In every state of the server, a session that it has for an address is one with that address. It
  -- has sent no UPDATE unless it is established; each UPDATE that it has sent is that of a route that
  -- it took from the table, with a source that one of its configurations advertises, and that was
  -- not learned from the peer itself; and once it is in OpenConfirm or Established, its router id is
  -- that of an OPEN that it received from the AS of one of its configurations, its hold time is the
  -- smaller of the two, and its families are those of its capabilities. The configurations are
  -- among those that were loaded, the messages among those that came from the address, and the routes
  -- among the entries that the table had.
  pub Runs-IsSound :
      {s : State} (ip : IpAddr) (session : Session)
      → Runs s
      → Map.get ip s.sessions.sessions ≡ some session
      → (past : Past) × IsKnown W ip past × IsSound ip past session
  Runs-IsSound {s} ip session w h =
      let (past, lives, known) =
        Every-at (Alive W from_parameters) (Runs-IsRunning w).managed.sessions
          (get-Within ip session s.sessions.sessions h) in
      (past, known, Lives-IsSound from_parameters ip lives)
