-- ===== src/Session/Manager/Remaining.antt =====
-- src/session/manager.rs: the sessions that a removal or a new configuration leaves.
use bgpd_rs.Base.{
  ℕ, ◌≡◌, refl, subst, List, [], ◌∷◌, Option, none, some, ok, expect, >>=-eq-ok, arith,
}
use bgpd_rs.Base.Map
use bgpd_rs.Base.Map.{Map}
use bgpd_rs.Base.Within.{Every, Every-at, Every-insert, Every-remove, get-Within}
use bgpd_rs.Bgp.{
  IpAddr, SocketAddr, ip_addr_Eq, IpNetwork, ip_network_Eq, OpenParameter, Capabilities,
}
use bgpd_rs.Config.{PeerConfig}
use bgpd_rs.Session.Manager.{
  notified, remove_all, find_removed_peers, drop_removed, sort_one, insert_each,
}
use bgpd_rs.Session.Peer
use bgpd_rs.Session.Peer.{Session, Protocol, notify, update_config}
use bgpd_rs.Session.Poller.{NetworkApi, get_config_for_peer, first_network, config_of}
use bgpd_rs.Session.Poller.Streams.{Knows}
use bgpd_rs.Session.Run.{Event}
use bgpd_rs.Session.Run.Lifetime.{loaded, configured as given}
use bgpd_rs.Session.Manager.Alive.{World, Alive}

module _ (W : World) (from_parameters : List OpenParameter → Capabilities) (net : NetworkApi)
    (events : IpAddr → Event) (now : ℕ) where
  pub remove_all-Alive :
      (ips : List IpAddr) (sessions : Map IpAddr Session)
      → Every (Alive W from_parameters) sessions
      → Every (Alive W from_parameters) (remove_all net from_parameters events now ips sessions)
  unfolding remove_all
  remove_all-Alive [] sessions ls = ls
  remove_all-Alive (ip ∷ ips) sessions ls =
      remove_all-Alive ips (Map.remove ip sessions)
        (Every-remove (Alive W from_parameters) ip sessions ls)

  sort_one-Alive :
      (ip : IpAddr) (s : Session) (o : Option PeerConfig) (r : Map IpAddr Session × List IpAddr)
      → ((c : PeerConfig) → o ≡ some c → W.loads c)
      → Alive W from_parameters (ip, s)
      → Every (Alive W from_parameters) r.0
      → Every (Alive W from_parameters) (sort_one net from_parameters events now ip s o r).0
  unfolding sort_one
  sort_one-Alive ip s (some c) (kept, removed) loads (past, l, known) ls = (
    (
      loaded c past,
      given c l,
      record {
        configs = (loads c refl, known.configs);
        messages = known.messages;
        routes = known.routes;
      },
    ),
    ls,
  )
  sort_one-Alive ip s none (kept, removed) known l ls = (l, ls)

  found-known :
      (configs : Map IpNetwork PeerConfig) (ip : IpAddr) (o : Option IpNetwork)
      → Knows W.loads configs
      → (c : PeerConfig) → config_of net configs o ≡ some c
      → W.loads c
  unfolding config_of
  found-known configs ip none known c h = cc
  found-known configs ip (some n) known c h =
      Every-at (λ r. W.loads r.1) known (get-Within n c configs h)

  pub find_removed_peers-Alive :
      (sessions : Map IpAddr Session) (configs : Map IpNetwork PeerConfig)
      → Knows W.loads configs
      → Every (Alive W from_parameters) sessions
      → Every
          (Alive W from_parameters)
          (find_removed_peers net from_parameters events now sessions configs).0
  unfolding find_removed_peers get_config_for_peer
  find_removed_peers-Alive [] configs known ls = tt
  find_removed_peers-Alive ((ip, s) ∷ sessions) configs known (l, ls) =
      sort_one-Alive ip s (get_config_for_peer net configs ip) _
        (found-known configs ip (first_network net ip configs) known) l
        (find_removed_peers-Alive sessions configs known ls)

  pub drop_removed-Alive :
      (ips : List IpAddr) (sessions : Map IpAddr Session) {left : Map IpAddr Session}
      → Every (Alive W from_parameters) sessions
      → drop_removed net from_parameters events now ips sessions ≡ ok left
      → Every (Alive W from_parameters) left
  unfolding drop_removed
  drop_removed-Alive [] sessions {left} ls h =
      let same : sessions ≡ left = ground arith in subst (Every (Alive W from_parameters)) same ls
  drop_removed-Alive (ip ∷ ips) sessions {left} ls h =
      let (s, hs, h₁) = >>=-eq-ok (expect (Map.get ip sessions)) _ h in
      let (s', hn, h₂) = >>=-eq-ok (notified (notify s 6 3 now)) _ h₁ in
      drop_removed-Alive ips (Map.remove ip sessions) {left = left}
        (Every-remove (Alive W from_parameters) ip sessions ls) h₂

  pub new-addr :
      (config : PeerConfig) (stream : Protocol) {peer : SocketAddr} {s : Session}
      → expect {E = ℕ} stream.peer_addr ≡ ok peer
      → Peer.new from_parameters {E = ℕ} config stream now ≡ ok s
      → s.addr ≡ peer.addr
  unfolding Peer.new
  new-addr config stream hp hs = ground arith

  pub insert_each-Knows :
      (m : Map IpNetwork PeerConfig) (cs : List PeerConfig)
      → Every W.loads cs
      → Knows W.loads m
      → Knows W.loads (insert_each net from_parameters events now m cs)
  unfolding insert_each
  insert_each-Knows m [] h k = k
  insert_each-Knows m (c ∷ cs) (h, hs) k =
      insert_each-Knows (Map.insert c.remote_ip c m) cs hs
        (Every-insert (λ r. W.loads r.1) c.remote_ip c m h k)
