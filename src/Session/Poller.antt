-- ===== src/Session/Poller.antt =====
-- src/session/poller.rs: the peers without a session and the attempts to reach them. `ipnetwork` is
-- a parameter. What `select!` waits for is an event; the delay queue has one interval for all, so
-- it is in the order in which the addresses fall due.
pub mod Idle
pub mod Streams
use bgpd_rs.Base.{
  ℕ, Bool, true, false, not, ◌&&◌, if◌then◌else◌, List, [], ◌∷◌, ◌++◌, Option, none, some, Outcome,
  ok, err, panic, expect, ◌>>=◌, ◌==◌, nat_Eq,
}
use bgpd_rs.Base.Map
use bgpd_rs.Base.Map.{Map}
use bgpd_rs.Bgp.{IpAddr, IpNetwork, ip_network_Eq}
use bgpd_rs.Config.{PeerConfig}
use bgpd_rs.Session.Peer.{Protocol}

pub record NetworkApi : Type 0 where
  pub size : IpNetwork → ℕ
  pub ip : IpNetwork → IpAddr
  pub contains : IpNetwork → IpAddr → Bool

pub record Poller : Type 0 where
  pub idle_peers : Map IpNetwork PeerConfig
  pub interval : ℕ
  pub delay_queue : List IpAddr

unfoldable pub new : ℕ → Poller
new interval = record { idle_peers = []; interval = interval; delay_queue = [] }

-- `outgoing` carries what the attempt to connect to the address gives.
pub data PollEvent : Type 0 where
  incoming : Protocol → IpAddr → PollEvent
  no_connection : PollEvent
  outgoing : Option Protocol → PollEvent
  handed_back : PeerConfig → PollEvent
  channel_closed : PollEvent

module _ (net : NetworkApi) where
  -- src/utils/parse.rs
  unfoldable pub get_host_address : IpNetwork → Option IpAddr
  get_host_address network = if net.size network == 1 then some (net.ip network) else none

  enqueue : List IpAddr → Option IpAddr → List IpAddr
  enqueue queue none = queue
  enqueue queue (some ip) = queue ++ ip ∷ []

  unfoldable pub upsert_config : Poller → PeerConfig → Poller
  unfolding enqueue
  upsert_config p config = record p {
    idle_peers = Map.insert config.remote_ip config p.idle_peers;
    delay_queue =
        if Map.contains_key config.remote_ip p.idle_peers
        then p.delay_queue
        else enqueue p.delay_queue (get_host_address config.remote_ip);
  }

  unfoldable pub upsert_all : Poller → List PeerConfig → Poller
  upsert_all p [] = p
  upsert_all p (config ∷ configs) = upsert_all (upsert_config p config) configs

  unfoldable pub replace_configs : Poller → List PeerConfig → Poller
  unfolding upsert_all
  replace_configs p configs = upsert_all (record p { idle_peers = []; delay_queue = [] }) configs

  unfoldable pub first_network : IpAddr → Map IpNetwork PeerConfig → Option IpNetwork
  first_network peer [] = none
  first_network peer ((n, c) ∷ m) = if net.contains n peer then some n else first_network peer m

  unfoldable pub config_of : Map IpNetwork PeerConfig → Option IpNetwork → Option PeerConfig
  config_of idle_peers none = none
  config_of idle_peers (some network) = Map.get network idle_peers

  unfoldable pub get_config_for_peer : Map IpNetwork PeerConfig → IpAddr → Option PeerConfig
  unfolding first_network config_of
  get_config_for_peer idle_peers peer = config_of idle_peers (first_network peer idle_peers)

  abbrev pub Connection : Type 0
  Connection = Option (Protocol × PeerConfig)

  connected : Poller → IpAddr → PeerConfig → Option Protocol → Connection × Poller
  connected p addr config (some stream) = (some (stream, config), p)
  connected p addr config none = (none, record p { delay_queue = p.delay_queue ++ addr ∷ [] })

  -- A peer that is a single host is no longer idle.
  accepted : Poller → PeerConfig → Option IpAddr → Poller
  accepted p config none = p
  accepted p config (some _) = record p { idle_peers = Map.remove config.remote_ip p.idle_peers }

  module _ {ℓ} {E : Type ℓ} where
    accept : Poller → Protocol → PeerConfig → Outcome E (Connection × Poller)
    unfolding accepted
    accept p stream config = do
      idle ← expect (Map.get config.remote_ip p.idle_peers)
      ok (some (stream, idle), accepted p config (get_host_address config.remote_ip))

    answer : Poller → Protocol → Option PeerConfig → Outcome E (Connection × Poller)
    unfolding accept
    answer p stream none = ok (none, p)
    answer p stream (some config) = if config.enabled then accept p stream config else ok (none, p)

    -- `IdlePeer::connect`: a network that is no single host is `unreachable!()`.
    connect : PeerConfig → Option Protocol → Outcome E (Option Protocol)
    connect config result = do remote_ip ← expect (get_host_address config.remote_ip); ok result

    try_peer :
        Poller → IpAddr → Option Protocol → Option PeerConfig → Outcome E (Connection × Poller)
    unfolding connect connected
    try_peer p addr result none = ok (none, p)
    try_peer p addr result (some config) =
        if config.enabled && not config.passive
        then (do
          peer ← expect (Map.get config.remote_ip p.idle_peers)
          stream ← connect peer result
          ok (
              connected (record p { idle_peers = Map.remove config.remote_ip p.idle_peers }) addr
                peer stream))
        else ok (none, p)

    poll_outgoing : Poller → Option Protocol → List IpAddr → Outcome E (Connection × Poller)
    unfolding try_peer
    poll_outgoing p result [] = ok (none, p)
    poll_outgoing p result (addr ∷ queue) =
        try_peer (record p { delay_queue = queue }) addr result
          (get_config_for_peer p.idle_peers addr)

    unfoldable pub get_connection : Poller → PollEvent → Outcome E (Connection × Poller)
    unfolding answer poll_outgoing enqueue
    get_connection p (incoming stream ip) = answer p stream (get_config_for_peer p.idle_peers ip)
    get_connection p no_connection = ok (none, p)
    get_connection p (outgoing result) = poll_outgoing p result p.delay_queue
    get_connection p (handed_back config) = ok (
      none,
      record p {
        idle_peers = Map.insert config.remote_ip config p.idle_peers;
        delay_queue = enqueue p.delay_queue (get_host_address config.remote_ip);
      },
    )
    get_connection p channel_closed = ok (none, p)
