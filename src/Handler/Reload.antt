-- ===== src/Handler/Reload.antt =====
-- src/handler.rs with src/session/manager.rs: the table when peers are taken out of the configuration.
use bgpd_rs.Base.{
  ℕ, ◌≡◌, refl, ap, ◌∙◌, sym, true, List, Option, none, is_empty, Outcome, ok, err, panic, arith,
}
use bgpd_rs.Base.Map
use bgpd_rs.Bgp.{IpAddr, ip_addr_Eq, OpenParameter, Capabilities}
use bgpd_rs.Config.{ServerConfig}
use bgpd_rs.Handler.{State, apply_update, turn, got, applied}
use bgpd_rs.Rib.Attributes.{AttributeApi}
use bgpd_rs.Session.Error.{SessionUpdate}
use bgpd_rs.Session.Manager.{Manager, Walk, configured, walk, by_network, get_update}
use bgpd_rs.Session.Manager.Reload.{get_update-quiet, wake-removed}
use bgpd_rs.Session.Poller.{NetworkApi, get_config_for_peer}
use bgpd_rs.Session.Run.{Event}

module _ (lib : AttributeApi) where
  -- If no session has an update and none ends, a turn in which the manager takes a configuration
  -- ends the session with an address for which the new ones give none, and leaves the table as it
  -- is, the routes learned from that address included.
  pub turn-removed :
      (net : NetworkApi) (from_parameters : List OpenParameter → Capabilities) (s : State)
      (events : IpAddr → Event) (now : ℕ) (config : ServerConfig) (clock : ℕ → ℕ) (ip : IpAddr)
      {w : Walk} {s' : State}
      → walk net from_parameters events now s.rib s.sessions.sessions ≡ ok w
      → w.found ≡ none
      → is_empty w.ended ≡ true
      → get_config_for_peer net (by_network net from_parameters events now config.peers) ip ≡ none
      → turn lib net from_parameters s events now (configured config) clock ≡ ok s'
      → (Map.get ip s'.sessions.sessions ≡ none) × (s'.rib ≡ s.rib)
  unfolding turn got applied apply_update
  turn-removed net from_parameters s events now config clock ip {s' = s'} walked found quiet absent
        h =
      updated (get_update net from_parameters events now s.sessions s.rib (configured config)) refl
        h
    where
      updated :
          (g : Outcome ℕ (Option SessionUpdate × Manager))
          → get_update net from_parameters events now s.sessions s.rib (configured config) ≡ g
          → got lib s.rib clock g ≡ ok s'
          → (Map.get ip s'.sessions.sessions ≡ none) × (s'.rib ≡ s.rib)
      updated (ok (u, m)) e k =
          let (before, after, woken, same) =
            get_update-quiet net from_parameters events now s.sessions s.rib (configured config)
              walked found quiet e in
          let gone = wake-removed net from_parameters events now before config ip woken absent in
          let silent : u ≡ none = ap (λ (y : Option SessionUpdate × Manager). y.0) same in
          let left : m ≡ after = ap (λ (y : Option SessionUpdate × Manager). y.1) same in
          let k' = rw silent at k in
          let ends : ◌≡◌ {A = State} (record { sessions = m; rib = s.rib }) s' = ground arith in
          (
            ap (λ (t : State). Map.get ip t.sessions.sessions) (sym ends)
                ∙ ap (λ (y : Manager). Map.get ip y.sessions) left
                ∙ gone,
            sym (ap (λ (t : State). t.rib) ends),
          )
      updated (err e) x k = cc
      updated panic x k = cc
