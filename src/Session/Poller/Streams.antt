-- ===== src/Session/Poller/Streams.antt =====
-- src/session/poller.rs: the connections and configurations that the poller hands over.
use bgpd_rs.Base.{
  ◌≡◌, subst, not, ◌&&◌, List, [], ◌∷◌, Option, none, some, Outcome, ok, expect, >>=-eq-ok, arith,
  Bool-cases, inl, inr,
}
use bgpd_rs.Base.Map
use bgpd_rs.Base.Map.{Map}
use bgpd_rs.Base.Within.{Every, Every-at, Every-insert, Every-remove, get-Within}
use bgpd_rs.Bgp.{IpAddr, IpNetwork, ip_network_Eq}
use bgpd_rs.Config.{PeerConfig}
use bgpd_rs.Session.Peer.{Protocol}
use bgpd_rs.Session.Poller.{
  NetworkApi, Poller, PollEvent, incoming, no_connection, outgoing, handed_back, channel_closed,
  Connection, get_config_for_peer, get_host_address, get_connection, answer, accept, accepted,
  try_peer, connect, connected, poll_outgoing, upsert_config, upsert_all, replace_configs,
}

abbrev FreshStream : Option Protocol → Type 0
FreshStream none = Unit
FreshStream (some stream) = stream.sent ≡ []

-- `P` is what is known of every configuration.
module _ (P : PeerConfig → Type 0) where
  -- A connection on which nothing was sent yet, with a known configuration.
  abbrev pub Given : Option (Protocol × PeerConfig) → Type 0
  Given none = Unit
  Given (some (stream, config)) = (stream.sent ≡ []) × P config

  abbrev pub FreshEvent : PollEvent → Type 0
  FreshEvent (incoming stream ip) = stream.sent ≡ []
  FreshEvent (outgoing result) = FreshStream result
  FreshEvent (handed_back config) = P config
  FreshEvent _ = Unit

  abbrev pub Knows : Map IpNetwork PeerConfig → Type 0
  Knows = Every (λ r. P r.1)

  known :
      (n : IpNetwork) (m : Map IpNetwork PeerConfig) {c : PeerConfig}
      → Map.get n m ≡ some c
      → Knows m
      → P c
  known n m {c} h k = Every-at (λ r. P r.1) k (get-Within n c m h)

  module _ (net : NetworkApi) where
    abbrev pub Hands : Connection net × Poller → Type 0
    Hands (c, p) = Given c × Knows p.idle_peers

    pub upsert_all-Knows :
        (p : Poller) (cs : List PeerConfig)
        → Every P cs
        → Knows p.idle_peers
        → Knows (upsert_all net p cs).idle_peers
    unfolding upsert_all upsert_config
    upsert_all-Knows p [] h k = k
    upsert_all-Knows p (c ∷ cs) (h, hs) k =
        upsert_all-Knows (upsert_config net p c) cs hs
          (Every-insert (λ r. P r.1) c.remote_ip c p.idle_peers h k)

    pub replace_configs-Knows :
        (p : Poller) (cs : List PeerConfig)
        → Every P cs
        → Knows (replace_configs net p cs).idle_peers
    unfolding replace_configs
    replace_configs-Knows p cs h = upsert_all-Knows _ cs h tt

    accepted-Knows :
        (p : Poller) (config : PeerConfig) (o : Option IpAddr)
        → Knows p.idle_peers
        → Knows (accepted net p config o).idle_peers
    unfolding accepted
    accepted-Knows p config none k = k
    accepted-Knows p config (some a) k = Every-remove (λ r. P r.1) config.remote_ip p.idle_peers k

    connected-Hands :
        (p : Poller) (ip : IpAddr) (config : PeerConfig) (result : Option Protocol)
        → FreshStream result
        → P config
        → Knows p.idle_peers
        → Hands (connected net p ip config result)
    unfolding connected
    connected-Hands p ip config none fresh h k = (tt, k)
    connected-Hands p ip config (some stream) fresh h k = ((fresh, h), k)

    module _ {ℓ} {E : Type ℓ} where
      handed :
          {x y : Connection net × Poller}
          → Path (Outcome E (Connection net × Poller)) (ok x) (ok y)
          → Hands x
          → Hands y
      handed {x} {y} h w = let same : x ≡ y = ground arith in subst Hands same w

      answer-Hands :
          (p : Poller) (stream : Protocol) (o : Option PeerConfig) {r : Connection net × Poller}
          → stream.sent ≡ []
          → Knows p.idle_peers
          → answer net {E = E} p stream o ≡ ok r
          → Hands r
      unfolding answer accept
      answer-Hands p stream none fresh k h = handed h (tt, k)
      answer-Hands p stream (some config) fresh k h = elim (Bool-cases config.enabled) [
        | inl e ↦
            let h₁ = rw e at h in
            let (idle, hi, made) =
              >>=-eq-ok (expect (Map.get config.remote_ip p.idle_peers)) _ h₁ in
            let found : Map.get config.remote_ip p.idle_peers ≡ some idle = ground arith in
            handed made (
              (fresh, known config.remote_ip p.idle_peers found k),
              accepted-Knows p config (get_host_address net config.remote_ip) k,
            )
        | inr e ↦ handed (rw e at h) (tt, k)
      ]

      try_peer-Hands :
          (p : Poller) (ip : IpAddr) (result : Option Protocol) (o : Option PeerConfig)
          {r : Connection net × Poller}
          → FreshStream result
          → Knows p.idle_peers
          → try_peer net {E = E} p ip result o ≡ ok r
          → Hands r
      unfolding try_peer connect
      try_peer-Hands p ip result none fresh k h = handed h (tt, k)
      try_peer-Hands p ip result (some config) fresh k h =
          elim (Bool-cases (config.enabled && not config.passive)) [
            | inl e ↦
                let h₀ = rw e at h in
                let (peer, hp, h₁) =
                  >>=-eq-ok (expect (Map.get config.remote_ip p.idle_peers)) _ h₀ in
                let (stream, hs, last) = >>=-eq-ok (connect net {E = E} peer result) _ h₁ in
                let (a, ha, taken) =
                  >>=-eq-ok (expect {E = E} (get_host_address net peer.remote_ip)) _ hs in
                let found : Map.get config.remote_ip p.idle_peers ≡ some peer = ground arith in
                let given : result ≡ stream = ground arith in
                let left : Poller = record p {
                  idle_peers = Map.remove config.remote_ip p.idle_peers;
                } in
                handed last (
                  connected-Hands left ip peer stream (subst FreshStream given fresh)
                    (known config.remote_ip p.idle_peers found k)
                    (Every-remove (λ r. P r.1) config.remote_ip p.idle_peers k))
            | inr e ↦ handed (rw e at h) (tt, k)
          ]

      poll_outgoing-Hands :
          (p : Poller) (result : Option Protocol) (queue : List IpAddr)
          {r : Connection net × Poller}
          → FreshStream result
          → Knows p.idle_peers
          → poll_outgoing net {E = E} p result queue ≡ ok r
          → Hands r
      unfolding poll_outgoing
      poll_outgoing-Hands p result [] fresh k h = handed h (tt, k)
      poll_outgoing-Hands p result (ip ∷ queue) fresh k h =
          try_peer-Hands (record p { delay_queue = queue }) ip result
            (get_config_for_peer net p.idle_peers ip) fresh k h

      -- The connection that the poller hands over is the one of the event, and the configuration
      -- with it is known; so are all that stay idle.
      pub get_connection-Hands :
          (p : Poller) (event : PollEvent) {r : Connection net × Poller}
          → FreshEvent event
          → Knows p.idle_peers
          → get_connection net {E = E} p event ≡ ok r
          → Hands r
      unfolding get_connection
      get_connection-Hands p (incoming stream ip) fresh k h =
          answer-Hands p stream (get_config_for_peer net p.idle_peers ip) fresh k h
      get_connection-Hands p (outgoing result) fresh k h =
          poll_outgoing-Hands p result p.delay_queue fresh k h
      get_connection-Hands p no_connection fresh k h = handed h (tt, k)
      get_connection-Hands p (handed_back config) fresh k h =
          handed h (tt, Every-insert (λ r. P r.1) config.remote_ip config p.idle_peers fresh k)
      get_connection-Hands p channel_closed fresh k h = handed h (tt, k)
