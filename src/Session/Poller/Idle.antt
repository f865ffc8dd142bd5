-- ===== src/Session/Poller/Idle.antt =====
-- src/session/poller.rs: which peers get a connection.
use bgpd_rs.Base.{
  ◌≡◌, refl, sym, subst, true, not, ◌&&◌, List, [], ◌∷◌, ◌++◌, Option, none, some, Outcome, ok,
  panic, nat_Eq, arith, Bool-cases, inl, inr,
}
use bgpd_rs.Base.Map
use bgpd_rs.Base.Map.{Map, get-insert, get-remove}
use bgpd_rs.Bgp.{IpAddr, IpNetwork, ip_network_Eq}
use bgpd_rs.Config.{PeerConfig}
use bgpd_rs.Session.Peer.{Protocol}
use bgpd_rs.Session.Poller.{
  NetworkApi, Poller, incoming, outgoing, get_host_address, upsert_config, get_config_for_peer,
  replace_configs, upsert_all, first_network, get_connection, Connection, answer, accept, accepted,
  try_peer, connected, connect, config_of, poll_outgoing,
}

-- Each configuration is kept under its own network.
pub IsKeyed : Map IpNetwork PeerConfig → Type 0
IsKeyed m = (n : IpNetwork) (c : PeerConfig) → Map.get n m ≡ some c → c.remote_ip ≡ n

module _ (net : NetworkApi) where
  first_network-contains :
      (peer : IpAddr) (m : Map IpNetwork PeerConfig) (n : IpNetwork)
      → first_network net peer m ≡ some n
      → net.contains n peer ≡ true
  unfolding first_network
  first_network-contains peer [] n h = cc
  first_network-contains peer ((j, c) ∷ m) n h = ground (arith, first_network-contains peer m n)

  config_of-found :
      (m : Map IpNetwork PeerConfig) (peer : IpAddr) (o : Option IpNetwork) {c : PeerConfig}
      → IsKeyed m
      → first_network net peer m ≡ o
      → config_of net m o ≡ some c
      → (Map.get c.remote_ip m ≡ some c) × (net.contains c.remote_ip peer ≡ true)
  unfolding IsKeyed config_of
  config_of-found m peer none keyed first h = cc
  config_of-found m peer (some n) {c} keyed first h =
      let same = keyed n c h in
      (
        subst (λ k. Map.get k m ≡ some c) (sym same) h,
        subst (λ k. net.contains k peer ≡ true) (sym same) (first_network-contains peer m n first),
      )

  get_config-found :
      (m : Map IpNetwork PeerConfig) (peer : IpAddr) {c : PeerConfig}
      → IsKeyed m
      → get_config_for_peer net m peer ≡ some c
      → (Map.get c.remote_ip m ≡ some c) × (net.contains c.remote_ip peer ≡ true)
  unfolding get_config_for_peer
  get_config-found m peer keyed h = config_of-found m peer (first_network net peer m) keyed refl h

  insert-IsKeyed :
      (m : Map IpNetwork PeerConfig) (c : PeerConfig)
      → IsKeyed m
      → IsKeyed (Map.insert c.remote_ip c m)
  unfolding IsKeyed
  insert-IsKeyed m c keyed n d h =
      grind (arith, get-insert c.remote_ip n c m, ip_network_Eq.eq_iff c.remote_ip n, keyed n d)

  remove-IsKeyed :
      (m : Map IpNetwork PeerConfig) (k : IpNetwork) → IsKeyed m → IsKeyed (Map.remove k m)
  unfolding IsKeyed
  remove-IsKeyed m k keyed n d h = grind (arith, get-remove k n m, keyed n d)

  upsert_all-IsKeyed :
      (p : Poller) (cs : List PeerConfig)
      → IsKeyed p.idle_peers
      → IsKeyed (upsert_all net p cs).idle_peers
  unfolding upsert_all upsert_config
  upsert_all-IsKeyed p [] keyed = keyed
  upsert_all-IsKeyed p (c ∷ cs) keyed =
      upsert_all-IsKeyed (upsert_config net p c) cs (insert-IsKeyed p.idle_peers c keyed)

  pub replace_configs-IsKeyed :
      (p : Poller) (cs : List PeerConfig) → IsKeyed (replace_configs net p cs).idle_peers
  unfolding replace_configs IsKeyed Map.get
  replace_configs-IsKeyed p cs = upsert_all-IsKeyed _ cs (λ n c h. cc)

  -- What an accepted connection is handed over with.
  pub Accepts : Poller → IpAddr → Connection net → Type 0
  Accepts p ip none = Unit {0}
  Accepts p ip (some (stream, c)) =
      (Map.get c.remote_ip p.idle_peers ≡ some c)
      × (c.enabled ≡ true)
      × (net.contains c.remote_ip ip ≡ true)

  accepted-IsKeyed :
      (p : Poller) (c : PeerConfig) (o : Option IpAddr)
      → IsKeyed p.idle_peers
      → IsKeyed (accepted net p c o).idle_peers
  unfolding accepted
  accepted-IsKeyed p c none keyed = keyed
  accepted-IsKeyed p c (some a) keyed = remove-IsKeyed p.idle_peers c.remote_ip keyed

  abbrev Answers {ℓ} : {E : Type ℓ} → Poller → IpAddr → Outcome E (Connection net × Poller) → Type ℓ
  Answers {E = E} p ip m =
      (r : Connection net) × (p' : Poller) × (m ≡ ok (r, p'))
      × IsKeyed p'.idle_peers
      × Accepts p ip r

  answer-config {ℓ} :
      {E : Type ℓ} (p : Poller) (stream : Protocol) (ip : IpAddr) (o : Option PeerConfig)
      → IsKeyed p.idle_peers
      → get_config_for_peer net p.idle_peers ip ≡ o
      → Answers p ip (answer net {E = E} p stream o)
  unfolding answer accept Accepts
  answer-config p stream ip none keyed found = (none, p, refl, keyed, tt)
  answer-config p stream ip (some c) keyed found =
      let (here, has) = get_config-found p.idle_peers ip keyed found in
      elim (Bool-cases c.enabled) [
        | inl on ↦ (
          some (stream, c),
          accepted net p c (get_host_address net c.remote_ip),
          simp (on, here) refl,
          accepted-IsKeyed p c _ keyed,
          (here, on, has),
        )
        | inr off ↦ (none, p, rw off refl, keyed, tt)
      ]

  -- Over a connection from an address, a poller with its configurations under their networks does
  -- not panic and stays so; if it hands the connection over, then with an idle configuration that
  -- is enabled and whose network has the address.
  pub incoming-config {ℓ} :
      {E : Type ℓ} (p : Poller) (stream : Protocol) (ip : IpAddr)
      → IsKeyed p.idle_peers
      → (r : Connection net) × (p' : Poller) × (get_connection net {E = E} p (incoming stream ip)
          ≡ ok (r, p'))
        × IsKeyed p'.idle_peers
        × Accepts p ip r
  unfolding get_connection
  incoming-config p stream ip keyed =
      answer-config p stream ip (get_config_for_peer net p.idle_peers ip) keyed refl

  -- If the configuration found for the first address in the queue is enabled, not passive and for
  -- more than one host, the poll makes the poller panic.
  pub outgoing-network {ℓ} :
      {E : Type ℓ} (p : Poller) (result : Option Protocol) (ip : IpAddr) (queue : List IpAddr)
      (c : PeerConfig)
      → IsKeyed p.idle_peers
      → p.delay_queue ≡ ip ∷ queue
      → get_config_for_peer net p.idle_peers ip ≡ some c
      → (c.enabled && not c.passive) ≡ true
      → get_host_address net c.remote_ip ≡ none
      → get_connection net {E = E} p (outgoing result) ≡ panic
  unfolding get_connection poll_outgoing try_peer connect
  outgoing-network p result ip queue c keyed first found on network =
      let (here, has) = get_config-found p.idle_peers ip keyed found in
      rw (first, found, on, here, network) refl

  -- If the configuration found for the first address in the queue is enabled, not passive and for a
  -- single host, and the attempt to connect fails, the address is queued again, and the network of
  -- the configuration is no longer idle.
  pub outgoing-unreached {ℓ} :
      {E : Type ℓ} (p : Poller) (ip a : IpAddr) (queue : List IpAddr) (c : PeerConfig)
      → IsKeyed p.idle_peers
      → p.delay_queue ≡ ip ∷ queue
      → get_config_for_peer net p.idle_peers ip ≡ some c
      → (c.enabled && not c.passive) ≡ true
      → get_host_address net c.remote_ip ≡ some a
      → (p' : Poller) × (get_connection net {E = E} p (outgoing none) ≡ ok (none, p'))
        × (Map.get c.remote_ip p'.idle_peers ≡ none)
        × (p'.delay_queue ≡ queue ++ ip ∷ [])
  unfolding get_connection poll_outgoing try_peer connect connected
  outgoing-unreached p ip a queue c keyed first found on host =
      let (here, has) = get_config-found p.idle_peers ip keyed found in
      (
        record p {
          idle_peers = Map.remove c.remote_ip p.idle_peers;
          delay_queue = queue ++ ip ∷ [];
        },
        rw (first, found, on, here, host) refl,
        ground (
          arith,
          get-remove c.remote_ip c.remote_ip p.idle_peers,
          ip_network_Eq.eq_iff c.remote_ip c.remote_ip,
        ),
        refl,
      )
