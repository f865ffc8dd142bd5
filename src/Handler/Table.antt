-- ===== src/Handler/Table.antt =====
-- src/handler.rs: the table over the turns of the daemon.
use bgpd_rs.Base.{
  ℕ, ◌≡◌, refl, ap, ◌∙◌, sym, subst, Bool, not, ◌&&◌, true, false, List, [], ◌∷◌, Option, none,
  some, retain, retain-retain, retain_all, retain_congr, contains, Outcome, ok, err, panic, ◌==◌,
  inl, arith,
}
use bgpd_rs.Bgp.{IpAddr, ip_addr_Eq, OpenParameter, Capabilities}
use bgpd_rs.Handler.{State, failed, apply_update, remove_peers, turn, got, applied}
use bgpd_rs.Rib.{Rib, Step, pairs, remove_from_peer}
use bgpd_rs.Rib.Attributes.{AttributeApi}
use bgpd_rs.Rib.Entry.{EntrySource, EntrySource-discrete, peer, api, config, source_Eq}
use bgpd_rs.Rib.Histories.{Reach, updated, removed}
use bgpd_rs.Rib.View.{pairs-remove_from_peer}
use bgpd_rs.Session.Error.{SessionUpdate, learned, ended, SessionError}
use bgpd_rs.Session.Manager.{Manager, Wake, get_update}
use bgpd_rs.Session.Poller.{NetworkApi}
use bgpd_rs.Session.Run.{Event}

-- Whether an entry was learned from one of some peers.
pub from_any : List IpAddr → EntrySource → Bool
from_any ips (peer ip) = contains ip ips
from_any ips _ = false

from_any-cons :
    (ip : IpAddr) (ips : List IpAddr) (s : EntrySource)
    → (not (s == peer ip) && not (from_any ips s)) ≡ not (from_any (ip ∷ ips) s)
unfolding from_any contains EntrySource-discrete
from_any-cons ip ips (peer j) =
    ground
      (arith, ip_addr_Eq.eq_iff j ip, ip_addr_Eq.eq_iff ip j, source_Eq.eq_iff (peer j) (peer ip))
from_any-cons ip ips api = refl
from_any-cons ip ips config = refl

from_any-nil : (s : EntrySource) → not (from_any [] s) ≡ true
unfolding from_any contains
from_any-nil (peer j) = refl
from_any-nil _ = refl

pairs-remove_peers :
    (ips : List IpAddr) (r : Rib)
    → pairs (remove_peers ips r) ≡ retain (λ p. not (from_any ips p.1.source)) (pairs r)
unfolding remove_peers
pairs-remove_peers [] r = sym (retain_all _ (pairs r) (λ x. from_any-nil x.1.source))
pairs-remove_peers (ip ∷ ips) r =
    pairs-remove_peers ips (remove_from_peer r ip)
    ∙ ap (retain (λ p. not (from_any ips p.1.source))) (pairs-remove_from_peer r ip)
    ∙ retain-retain _ _ (pairs r)
    ∙ retain_congr _ _ (pairs r) (λ p. from_any-cons ip ips p.1.source)

module _ (lib : AttributeApi) where
  remove_peers-Reach : (ips : List IpAddr) (r : Rib) → Reach lib r → Reach lib (remove_peers ips r)
  unfolding remove_peers
  remove_peers-Reach [] r w = w
  remove_peers-Reach (ip ∷ ips) r w = remove_peers-Reach ips (remove_from_peer r ip) (removed ip w)

  apply_update-Reach :
      (r : Rib) (clock : ℕ → ℕ) (u : Option SessionUpdate) {r' : Rib}
      → Reach lib r
      → apply_update lib r clock u ≡ ok r'
      → Reach lib r'
  unfolding apply_update
  apply_update-Reach r clock (some (learned ip u)) w h = updated ip clock u w (inl h)
  apply_update-Reach r clock (some (ended ips)) {r'} w h =
      subst (Reach lib) (ground arith) (remove_peers-Reach ips r w)
  apply_update-Reach r clock none w h = subst (Reach lib) (ground arith) w

  -- When sessions end, the table keeps exactly the entries that were not learned from their peers.
  pub apply_update-ended :
      (r : Rib) (clock : ℕ → ℕ) (ips : List IpAddr)
      → (r' : Rib) × (apply_update lib r clock (some (ended ips)) ≡ ok r')
        × (pairs r' ≡ retain (λ p. not (from_any ips p.1.source)) (pairs r))
  unfolding apply_update
  apply_update-ended r clock ips = (remove_peers ips r, refl, pairs-remove_peers ips r)

  got-Reach :
      (r : Rib) (clock : ℕ → ℕ) (g : Outcome ℕ (Option SessionUpdate × Manager)) {s : State}
      → Reach lib r
      → got lib r clock g ≡ ok s
      → Reach lib s.rib
  unfolding got applied
  got-Reach r clock (ok (u, m)) w h = applied-Reach (apply_update lib r clock u) refl h
    where
      applied-Reach :
          (t : Step) {s : State}
          → apply_update lib r clock u ≡ t
          → applied lib m t ≡ ok s
          → Reach lib s.rib
      applied-Reach (ok r') {s} a h =
          let same : r' ≡ s.rib = ground arith in
          subst (Reach lib) same (apply_update-Reach r clock u w a)
      applied-Reach (err e) a h = cc
      applied-Reach panic a h = cc
  got-Reach r clock (err e) w h = cc
  got-Reach r clock panic w h = cc

  -- A turn of the daemon that goes on leads from a table with a history to a table with a history.
  pub turn-Reach :
      (net : NetworkApi) (from_parameters : List OpenParameter → Capabilities) (s : State)
      (events : IpAddr → Event) (now : ℕ) (wake : Wake net from_parameters events now)
      (clock : ℕ → ℕ) {s' : State}
      → Reach lib s.rib
      → turn lib net from_parameters s events now wake clock ≡ ok s'
      → Reach lib s'.rib
  unfolding turn
  turn-Reach net from_parameters s events now wake clock w h =
      got-Reach s.rib clock (get_update net from_parameters events now s.sessions s.rib wake) w h

  -- If the sessions give an update that the table refuses, the loop of the daemon ends with the error.
  pub turn-refused :
      (net : NetworkApi) (from_parameters : List OpenParameter → Capabilities) (s : State)
      (events : IpAddr → Event) (now : ℕ) (wake : Wake net from_parameters events now)
      (clock : ℕ → ℕ) {m : Manager} {u : SessionUpdate} {e : SessionError} {r : Rib}
      → get_update net from_parameters events now s.sessions s.rib wake ≡ ok (some u, m)
      → apply_update lib s.rib clock (some u) ≡ err (e, r)
      → turn lib net from_parameters s events now wake clock ≡ err (failed e)
  unfolding turn got applied
  turn-refused net from_parameters s events now wake clock g a = rw g (rw a refl)
