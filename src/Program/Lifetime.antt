-- ===== src/Program/Lifetime.antt =====
-- src/main.rs with the whole daemon: the program from its start on, over all signals, all turns of
-- the server and all calls of the API.
use bgpd_rs.Base.{
  ℕ, ◌≡◌, refl, sym, ap, ◌∙◌, subst, Bool, true, false, if◌then◌else◌, List, Option, some, Outcome,
  ok, err, panic, map_err, >>=-eq-ok, map_err-eq-ok, arith,
}
use bgpd_rs.Base.Map
use bgpd_rs.Base.Text.{Text}
use bgpd_rs.Base.Within.{Every}
use bgpd_rs.Api.Handler.{advertise_route, advertise_flow}
use bgpd_rs.Api.Rpc.{LearnedRoute}
use bgpd_rs.Bgp.{Message, IpAddr, ip_addr_Eq, SocketAddr, OpenParameter, Capabilities}
use bgpd_rs.Config.{PeerConfig, ServerConfigSpec, ServerConfig}
use bgpd_rs.Config.File.{Files, from_file, FromFile, from_file-FromFile}
use bgpd_rs.Config.Specs.{RouteSpec, FlowSpec}
use bgpd_rs.Handler.{State, turn}
use bgpd_rs.Handler.Daemon.{Arrives, Runs, begins, turned, route_added, flow_added, Runs-IsSound}
use bgpd_rs.Handler.Start.{new}
use bgpd_rs.Program.{Host, Program, Reloader, reloaded, reload, launch}
use bgpd_rs.Rib.Attributes.{AttributeApi}
use bgpd_rs.Rib.Entry.{ExportEntry}
use bgpd_rs.Session.Manager.Alive.{World, IsKnown, Comes, Lists}
use bgpd_rs.Session.Manager.{polled, configured}
use bgpd_rs.Session.Peer.{Session}
use bgpd_rs.Session.Poller.{NetworkApi, PollEvent}
use bgpd_rs.Session.Run.{Event}
use bgpd_rs.Session.Run.Sound.{Past, IsSound}
use bgpd_rs.Utils.Api.{TextApi, FilterLimits}

-- `was` is what the files have contained, `received` which messages came from an address, and
-- `listed` which entries the table has had.
module _ (from_str : Text → Option ServerConfigSpec) (was : Text → Type 0)
    (received : IpAddr → Message → Type 0) (listed : ExportEntry → Type 0) (lib : AttributeApi)
    (api : TextApi) (limits : FilterLimits) (net : NetworkApi)
    (from_parameters : List OpenParameter → Capabilities) where
  abbrev pub Contain : Files → Type 0
  Contain files = (path contents : Text) → files path ≡ ok contents → was contents

  abbrev Known : PeerConfig → Type 0
  Known = FromFile from_str was

  abbrev pub world : World
  world = record { loads = FromFile from_str was; receives = received; lists = listed }

  -- The states of the program. The manager takes the value of the channel; that it waits for a new
  -- one is left out.
  pub data Launched : Program → Type 0 where
    launched :
        {p : Program} (host : Host) (config_path : Text) (api_socket : Option SocketAddr)
        (clock : ℕ → ℕ)
        → Contain host.files
        → launch from_str lib api limits net host config_path api_socket clock ≡ ok p
        → Launched p
    signalled :
        {p : Program} (files : Files)
        → Contain files
        → Launched p
        → Launched (record p { reloader = reload from_str p.reloader files })
    polls :
        {p : Program} {s : State} (events : IpAddr → Event) (now : ℕ) (event : PollEvent)
        (clock : ℕ → ℕ)
        → Arrives world lib api limits net from_parameters p.server.sessions event
        → ((ip : IpAddr) → Comes world ip (events ip))
        → Lists world p.server.rib
        → turn lib net from_parameters p.server events now (polled event) clock ≡ ok s
        → Launched p
        → Launched (record p { server = s })
    reconfigured :
        {p : Program} {s : State} (events : IpAddr → Event) (now : ℕ) (clock : ℕ → ℕ)
        → ((ip : IpAddr) → Comes world ip (events ip))
        → Lists world p.server.rib
        → turn lib net from_parameters p.server events now (configured p.reloader.config_tx) clock
          ≡ ok s
        → Launched p
        → Launched (record p { server = s })
    route_called :
        {p : Program} {s : State} (route : RouteSpec) (now : ℕ) {shown : LearnedRoute}
        → advertise_route lib api p.server route now ≡ ok (shown, s)
        → Launched p
        → Launched (record p { server = s })
    flow_called :
        {p : Program} {s : State} (flow : FlowSpec) (now : ℕ) {shown : LearnedRoute}
        → advertise_flow lib api limits p.server flow now ≡ ok (shown, s)
        → Launched p
        → Launched (record p { server = s })

  -- What the start leaves: the server of a configuration that was read, which is in the channel.
  record Begun (p : Program) : Type 0 where
    pub clock : ℕ → ℕ
    pub known : Every Known p.reloader.config_tx.peers
    pub server : new lib api limits clock net p.reloader.config_tx ≡ ok p.server

  launch-Begun :
      (host : Host) (config_path : Text) (api_socket : Option SocketAddr) (clock : ℕ → ℕ)
      {p : Program}
      → Contain host.files
      → launch from_str lib api limits net host config_path api_socket clock ≡ ok p
      → Begun p
  unfolding launch
  launch-Begun host config_path api_socket clock {p} contain h =
      let (config, hc, h₁) =
        >>=-eq-ok (map_err _ (from_file from_str host.files config_path)) _ h in
      let (_, _, h₂) = >>=-eq-ok (map_err _ (host.bind config.bgp_socket)) _ h₁ in
      let (server, hs, h₃) = >>=-eq-ok (map_err _ (new lib api limits clock net config)) _ h₂ in
      let (_, _, h₄) = >>=-eq-ok (map_err _ (host.serve_rpc_api _)) _ h₃ in
      let (_, _, made) = >>=-eq-ok (map_err _ host.signals) _ h₄ in
      let tx : config ≡ p.reloader.config_tx = grind arith in
      let on : server ≡ p.server = grind arith in
      record {
        clock = clock;
        known =
            subst (λ (c : ServerConfig). Every Known c.peers) tx
              (from_file-FromFile from_str was host.files config_path (contain config_path)
                (map_err-eq-ok _ _ hc));
        server = ap (new lib api limits clock net) (sym tx) ∙ map_err-eq-ok _ _ hs ∙ ap ok on;
      }

  reload-Known :
      (r : Reloader) (files : Files)
      → Contain files
      → Every Known r.config_tx.peers
      → Every Known (reload from_str r files).config_tx.peers
  unfolding reload reloaded
  reload-Known r files contain known =
      either r.running (reading (from_file from_str files r.config_path) refl)
    where
      reading :
          (o : Outcome ℕ ServerConfig)
          → from_file from_str files r.config_path ≡ o
          → Every Known (reloaded r o).config_tx.peers
      reading (ok config) h =
          from_file-FromFile from_str was files r.config_path (contain r.config_path) h
      reading (err e) h = known
      reading panic h = known

      either :
          (b : Bool)
          → Every Known (reloaded r (from_file from_str files r.config_path)).config_tx.peers
          → Every Known
              (if b then reloaded r (from_file from_str files r.config_path) else r).config_tx.peers
      either true read = read
      either false read = known

  -- In every state of the program the server has a history in which only configurations of the
  -- files were loaded, and the channel has one of them.
  Launched-Runs :
      {p : Program}
      → Launched p
      → Runs world lib api limits net from_parameters p.server
        × Every Known p.reloader.config_tx.peers
  Launched-Runs (launched host config_path api_socket clock contain h) =
      let b = launch-Begun host config_path api_socket clock contain h in
      (begins b.clock _ b.known b.server, b.known)
  Launched-Runs (signalled {p} files contain w) =
      let (runs, known) = Launched-Runs w in (runs, reload-Known p.reloader files contain known)
  Launched-Runs (polls events now event clock arrives comes lists h w) =
      let (runs, known) = Launched-Runs w in
      (turned events now (polled event) clock arrives comes lists h runs, known)
  Launched-Runs (reconfigured events now clock comes lists h w) =
      let (runs, known) = Launched-Runs w in
      (turned events now (configured _) clock known comes lists h runs, known)
  Launched-Runs (route_called route now h w) =
      let (runs, known) = Launched-Runs w in (route_added route now h runs, known)
  Launched-Runs (flow_called flow now h w) =
      let (runs, known) = Launched-Runs w in (flow_added flow now h runs, known)

  -- In every state of the program, after any signals, turns of the server and calls of the API, a
  -- session that it has for an address is one with that address. It has sent no UPDATE unless it is
  -- established; each UPDATE that it has sent is that of an entry that the table had, with a source
  -- that one of its configurations advertises, and that was not learned from the peer itself; and
  -- once it is in OpenConfirm or Established, its router id is that of an OPEN that came from the
  -- address and from the AS of one of its configurations, its hold time is the smaller of those of
  -- the OPEN and the configuration, and its families are those of its capabilities. All these
  -- configurations are those of peers in well-formed texts that the configuration file had.
  pub Launched-IsSound :
      {p : Program} (ip : IpAddr) (session : Session)
      → Launched p
      → Map.get ip p.server.sessions.sessions ≡ some session
      → (past : Past) × IsKnown world ip past × IsSound ip past session
  Launched-IsSound ip session w h =
      Runs-IsSound world lib api limits net from_parameters ip session (Launched-Runs w).0 h
