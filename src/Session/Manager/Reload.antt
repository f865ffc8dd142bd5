-- ===== src/Session/Manager/Reload.antt =====
-- src/session/manager.rs: the sessions after a change of the configuration.
use bgpd_rs.Base.{
  ℕ, ◌≡◌, refl, is_empty, ◌++◌, ap, ◌∙◌, sym, true, if◌then◌else◌, List, [], ◌∷◌, Option, none,
  some, contains, Outcome, ok, expect, >>=-eq-ok, ◌==◌, arith, ◌⊎◌, inl, inr, Bool-cases,
}
use bgpd_rs.Base.Map
use bgpd_rs.Base.Map.{Map, get-remove}
use bgpd_rs.Bgp.{IpAddr, ip_addr_Eq, IpNetwork, OpenParameter, Capabilities}
use bgpd_rs.Config.{PeerConfig, ServerConfig}
use bgpd_rs.Session.Manager.{
  Manager, Wake, configured, wake, find_removed_peers, drop_removed, by_network, notified, sort_one,
  Walk, walk, remove_all, after_walk, get_update,
}
use bgpd_rs.Rib.{Rib}
use bgpd_rs.Session.Error.{SessionUpdate}
use bgpd_rs.Session.Peer.{Session, notify, update_config}
use bgpd_rs.Session.Poller.{NetworkApi, get_config_for_peer}
use bgpd_rs.Session.Run.{Event}

module _ (net : NetworkApi) (from_parameters : List OpenParameter → Capabilities)
    (events : IpAddr → Event) (now : ℕ) where
  abbrev Sorted : Map IpNetwork PeerConfig → IpAddr → Map IpAddr Session × List IpAddr → Type 0
  Sorted configs ip r =
      (s : Session)
      → Map.get ip r.0 ≡ some s
      → (get_config_for_peer net configs ip ≡ some s.config) ⊎ (contains ip r.1 ≡ true)

  sort_one-Sorted :
      (configs : Map IpNetwork PeerConfig) (ip addr : IpAddr) (s : Session) (o : Option PeerConfig)
      (kept : Map IpAddr Session) (removed : List IpAddr)
      → get_config_for_peer net configs addr ≡ o
      → Sorted configs ip (kept, removed)
      → Sorted configs ip (sort_one net from_parameters events now addr s o (kept, removed))
  unfolding sort_one Map.get contains update_config
  sort_one-Sorted configs ip addr s (some c) kept removed found sorted s' h =
      elim (Bool-cases (addr == ip)) [
        | inl same ↦
            let here : update_config s c ≡ s' = grind arith in
            inl (
              ap (get_config_for_peer net configs) (sym ((ip_addr_Eq.eq_iff addr ip).0 same))
              ∙ found
              ∙ ap (λ (x : Session). some x.config) here)
        | inr other ↦ sorted s' (grind arith)
      ]
  sort_one-Sorted configs ip addr s none kept removed found sorted s' h =
      elim (Bool-cases (addr == ip)) [
        | inl same ↦ inr (grind arith)
        | inr other ↦ elim (sorted s' (grind arith)) [ inl l ↦ inl l | inr r ↦ inr (grind arith) ]
      ]

  -- A session is updated with the configuration for its address, or its address is to be removed.
  find_removed_peers-Sorted :
      (sessions : Map IpAddr Session) (configs : Map IpNetwork PeerConfig) (ip : IpAddr)
      → Sorted configs ip (find_removed_peers net from_parameters events now sessions configs)
  unfolding find_removed_peers Map.get
  find_removed_peers-Sorted [] configs ip = λ s h. cc
  find_removed_peers-Sorted ((addr, s) ∷ sessions) configs ip =
      sort_one-Sorted configs ip addr s (get_config_for_peer net configs addr) _ _ refl
        (find_removed_peers-Sorted sessions configs ip)

  ok-inj : {v w : Map IpAddr Session} → Path (Outcome ℕ (Map IpAddr Session)) (ok v) (ok w) → v ≡ w
  ok-inj h = cc

  drop_removed-get :
      (ips : List IpAddr) (sessions : Map IpAddr Session) (ip : IpAddr) {left : Map IpAddr Session}
      → drop_removed net from_parameters events now ips sessions ≡ ok left
      → Map.get ip left ≡ (if contains ip ips then none else Map.get ip sessions)
  unfolding drop_removed contains
  drop_removed-get [] sessions ip h = ap (Map.get ip) (sym (ok-inj h))
  drop_removed-get (j ∷ ips) sessions ip {left} h =
      let (s, hs, h₁) = >>=-eq-ok (expect (Map.get j sessions)) _ h in
      let (s', hn, h₂) = >>=-eq-ok (notified (notify s 6 3 now)) _ h₁ in
      ground (
        arith,
        drop_removed-get ips (Map.remove j sessions) ip {left = left} h₂,
        get-remove j ip sessions,
        ip_addr_Eq.eq_iff j ip,
        ip_addr_Eq.eq_iff ip j,
      )

  -- After a change of the configuration, every session that is left has the configuration that the
  -- new ones give for its address.
  pub wake-configured :
      (m : Manager) (config : ServerConfig) {m' : Manager}
      → wake net from_parameters events now m (configured config) ≡ ok m'
      → (ip : IpAddr) (s : Session) → Map.get ip m'.sessions ≡ some s
      → get_config_for_peer net (by_network net from_parameters events now config.peers) ip
        ≡ some s.config
  unfolding wake
  wake-configured m config {m'} h ip s here =
      let configs = by_network net from_parameters events now config.peers in
      let found = find_removed_peers net from_parameters events now m.sessions configs in
      let (left, hd, hm) =
        >>=-eq-ok (drop_removed net from_parameters events now found.1 found.0) _ h in
      let same : left ≡ m'.sessions = grind arith in
      let got = drop_removed-get found.1 found.0 ip hd in
      let kept : (if contains ip found.1 then none else Map.get ip found.0) ≡ some s =
        sym got ∙ ap (Map.get ip) same ∙ here in
      elim (Bool-cases (contains ip found.1)) [
        | inl gone ↦ cc (gone, kept)
        | inr stays ↦ elim (find_removed_peers-Sorted m.sessions configs ip s (rw stays at kept)) [
          | inl l ↦ l
          | inr r ↦ cc (stays, r)
        ]
      ]

  -- After a change of the configuration, an address without a configuration has no session.
  pub wake-removed :
      (m : Manager) (config : ServerConfig) (ip : IpAddr) {m' : Manager}
      → wake net from_parameters events now m (configured config) ≡ ok m'
      → get_config_for_peer net (by_network net from_parameters events now config.peers) ip ≡ none
      → Map.get ip m'.sessions ≡ none
  wake-removed m config ip {m'} h absent = session (Map.get ip m'.sessions) refl
    where
      session : (o : Option Session) → Map.get ip m'.sessions ≡ o → o ≡ none
      session none e = refl
      session (some s) e = cc (absent, wake-configured m config {m' = m'} h ip s e)

  -- If no session has an update and none ends, a turn of the manager reports nothing and ends in
  -- what it woke up for.
  pub get_update-quiet :
      (m : Manager) (r : Rib) (w : Wake net from_parameters events now) {walked : Walk}
      {x : Option SessionUpdate × Manager}
      → walk net from_parameters events now r m.sessions ≡ ok walked
      → walked.found ≡ none
      → is_empty walked.ended ≡ true
      → get_update net from_parameters events now m r w ≡ ok x
      → (before after : Manager) × (wake net from_parameters events now before w ≡ ok after)
        × (x ≡ (none, after))
  unfolding get_update after_walk
  get_update-quiet m r w {walked} {x} h found quiet k =
      let swept : Manager = record m {
        sessions = remove_all net from_parameters events now walked.ended walked.sessions;
        poller_tx = m.poller_tx ++ walked.handed;
      } in
      let chain = rw (h, found, quiet) at k in
      let (woken, hw, last) = >>=-eq-ok (wake net from_parameters events now swept w) _ chain in
      (swept, woken, hw, ground arith)
