-- ===== src/Session/Manager/Alive.antt =====
-- src/session/manager.rs: the sessions that the manager keeps.
use bgpd_rs.Base.{
  ℕ, ◌≡◌, refl, subst, List, [], ◌∷◌, Option, none, some, Outcome, ok, err, panic, >>=-eq-ok, arith,
}
use bgpd_rs.Base.Map.{Map}
use bgpd_rs.Base.Within.{Within, Every, Every-at, Every-append}
use bgpd_rs.Bgp.{Message, IpAddr, ip_addr_Eq, ip_network_Eq, OpenParameter, Capabilities}
use bgpd_rs.Config.{PeerConfig}
use bgpd_rs.Rib.{Rib, pairs, export_pair, get_routes_for_peer}
use bgpd_rs.Rib.Entry.{RibEntry, ExportEntry}
use bgpd_rs.Rib.Routes.{get_routes_for_peer-exported}
use bgpd_rs.Rib.SessionRoutes.{insert_routes}
use bgpd_rs.Session.Error.{
  SessionError, deconfigured, open_asn_mismatch, finite_state_machine, hold_time_expired,
  transport_error, other, SessionUpdate,
}
use bgpd_rs.Session.Manager.{
  Walk, walk, with_routes, handle_result, after_error, notified, notify_for, stop, keep, end_one,
}
use bgpd_rs.Session.Peer.{Session, notify}
use bgpd_rs.Session.Poller.{NetworkApi}
use bgpd_rs.Session.Run.{Event, incoming, run}
use bgpd_rs.Session.Run.Sound.{Past}
use bgpd_rs.Session.Run.Lifetime.{heard, given, Lives, takes, turns, fails, notifies, Lives-IsSound}

-- What is known of all configurations that were ever loaded, of the messages that have come from an
-- address, and of the entries that the table has had.
pub record World : Type 1 where
  pub loads : PeerConfig → Type 0
  pub receives : IpAddr → Message → Type 0
  pub lists : ExportEntry → Type 0

-- What is known of the past of a session.
pub record IsKnown (W : World) (ip : IpAddr) (past : Past) : Type 0 where
  pub configs : Every W.loads past.configs
  pub messages : Every (W.receives ip) past.messages
  pub routes : Every W.lists past.routes

abbrev pub Comes : World → IpAddr → Event → Type 0
Comes W ip (incoming m) = W.receives ip m
Comes W ip _ = Unit

-- What is known of the table.
abbrev pub Lists : World → Rib → Type 0
Lists W r =
    (p : ℕ × RibEntry)
    → Within p (pairs r)
    → (x : ExportEntry) → export_pair {E = ℕ} r.cache p ≡ ok x
    → W.lists x

heard-IsKnown :
    (W : World) (ip : IpAddr) (past : Past) (event : Event)
    → Comes W ip event
    → IsKnown W ip past
    → IsKnown W ip (heard event past)
heard-IsKnown W ip past (incoming m) comes k = record {
  configs = k.configs;
  messages = (comes, k.messages);
  routes = k.routes;
}
heard-IsKnown W ip past _ comes k = k

module _ (W : World) (from_parameters : List OpenParameter → Capabilities) where
  -- A session under the address of its peer, in a state that it can come to.
  abbrev pub Alive : IpAddr × Session → Type 0
  Alive (ip, s) = (past : Past) × Lives from_parameters ip past s × IsKnown W ip past

  Alive-config : (ip : IpAddr) (s : Session) → Alive (ip, s) → W.loads s.config
  Alive-config ip s (past, l, k) =
      Every-at W.loads k.configs (Lives-IsSound from_parameters ip l).config

  -- The sessions and the configurations that a walk leaves.
  abbrev pub Good : Walk → Type 0
  Good w = Every Alive w.sessions × Every W.loads w.handed

  notify-Alive :
      (ip : IpAddr) (s : Session) (maj min now : ℕ) {s' : Session}
      → notified (notify s maj min now) ≡ ok s'
      → Alive (ip, s)
      → Alive (ip, s')
  unfolding notified
  notify-Alive ip s maj min now {s'} h (past, l, known) = sent (notify s maj min now) refl h
    where
      sent :
          (r : Outcome (ℕ × Session) Session)
          → notify s maj min now ≡ r
          → notified r ≡ ok s'
          → Alive (ip, s')
      sent (ok s₁) e k =
          let same : s₁ ≡ s' = ground arith in
          subst (λ x. Alive (ip, x)) same (past, notifies maj min now e l, known)
      sent (err x) e k = cc
      sent panic e k = cc

  notify_for-Alive :
      (ip : IpAddr) (s : Session) (e : SessionError) (now : ℕ) {s' : Session}
      → notified (notify_for s e now) ≡ ok s'
      → Alive (ip, s)
      → Alive (ip, s')
  unfolding notify_for notified
  notify_for-Alive ip s deconfigured now h l = notify-Alive ip s 6 3 now h l
  notify_for-Alive ip s (hold_time_expired n) now h l = notify-Alive ip s 4 0 now h l
  notify_for-Alive ip s (finite_state_machine n) now h l = notify-Alive ip s 5 n now h l
  notify_for-Alive ip s (open_asn_mismatch a b) now h l = notify-Alive ip s 3 2 now h l
  notify_for-Alive ip s (transport_error r) now {s'} h l =
      let same : s ≡ s' = ground arith in subst (λ x. Alive (ip, x)) same l
  notify_for-Alive ip s (other r) now {s'} h l =
      let same : s ≡ s' = ground arith in subst (λ x. Alive (ip, x)) same l

  ok-inj : {v w : Walk} → Path (Outcome ℕ Walk) (ok v) (ok w) → v ≡ w
  ok-inj h = cc

  after_error-Alive :
      (ip : IpAddr) (s : Session) (e : SessionError) (rest : Map IpAddr Session)
      (m : Outcome ℕ Walk) {w : Walk}
      → Alive (ip, s)
      → Every Alive rest
      → ((v : Walk) → m ≡ ok v → Good v)
      → after_error ip s e rest m ≡ ok w
      → Good w
  unfolding after_error stop end_one
  after_error-Alive ip s deconfigured rest m l ls walked h = subst Good (ok-inj h) ((l, ls), tt)
  after_error-Alive ip s e rest m l ls walked h =
      let (v, hv, hw) = >>=-eq-ok m _ h in
      let (good, known) = walked v hv in
      subst Good (ok-inj hw) ((l, good), (Alive-config ip s l, known))

  module _ (net : NetworkApi) (events : IpAddr → Event) (now : ℕ) where
    handle_result-Alive :
        (ip : IpAddr) (past : Past) (s : Session)
        (result : Outcome (SessionError × Session) (Session × Option SessionUpdate))
        (rest : Map IpAddr Session) (m : Outcome ℕ Walk) {w : Walk}
        → Lives from_parameters ip past s
        → Every Alive rest
        → IsKnown W ip (heard (events ip) past)
        → ((v : Walk) → m ≡ ok v → Good v)
        → run from_parameters s (events ip) now ≡ result
        → handle_result net from_parameters events now ip result rest m ≡ ok w
        → Good w
    unfolding handle_result stop keep
    handle_result-Alive ip past s (ok (s', some u)) rest m l ls ps walked e h =
        subst Good (ok-inj h)
          (((heard (events ip) past, turns (events ip) now (some u) e l, ps), ls), tt)
    handle_result-Alive ip past s (ok (s', none)) rest m l ls ps walked e h =
        let (v, hv, hw) = >>=-eq-ok m _ h in
        let (good, known) = walked v hv in
        subst Good (ok-inj hw)
          (((heard (events ip) past, turns (events ip) now none e l, ps), good), known)
    handle_result-Alive ip past s (err (x, s')) rest m l ls ps walked e h =
        let (s₁, hs, hw) = >>=-eq-ok (notified (notify_for s' x now)) _ h in
        after_error-Alive ip s₁ x rest m
          (notify_for-Alive ip s' x now hs
            (heard (events ip) past, fails (events ip) now x e l, ps))
          ls walked hw
    handle_result-Alive ip past s panic rest m l ls ps walked e h = cc

    pub walk-Alive :
        (r : Rib) (sessions : Map IpAddr Session) {w : Walk}
        → ((ip : IpAddr) → Comes W ip (events ip))
        → Lists W r
        → Every Alive sessions
        → walk net from_parameters events now r sessions ≡ ok w
        → Good w
    unfolding walk with_routes stop
    walk-Alive r [] comes lists ls h = subst Good (ok-inj h) (tt, tt)
    walk-Alive r ((ip, s) ∷ rest) {w} comes lists ((past, l, known), ls) h =
        let (s', hs, hw) = >>=-eq-ok (with_routes net from_parameters events now r s) _ h in
        let (es, he, made) = >>=-eq-ok (get_routes_for_peer {E = ℕ} r s.addr) _ hs in
        let same : record s { routes = insert_routes s.routes es } ≡ s' = ground arith in
        let taken : IsKnown W ip (given es past) = record {
          configs = known.configs;
          messages = known.messages;
          routes =
              Every-append W.lists es past.routes
                (get_routes_for_peer-exported W.lists r s.addr lists he) known.routes;
        } in
        handle_result-Alive ip (given es past) s' _ rest _ {w = w}
          (subst (Lives from_parameters ip (given es past)) same (takes r he l)) ls
          (heard-IsKnown W ip (given es past) (events ip) (comes ip) taken)
          (λ v. walk-Alive r rest {w = v} comes lists ls) refl hw
