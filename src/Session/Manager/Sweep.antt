-- ===== src/Session/Manager/Sweep.antt =====
-- src/session/manager.rs: what happens to the sessions in one turn.
use bgpd_rs.Base.{
  ℕ, suc, ◌≡◌, refl, ap, subst, List, [], ◌∷◌, ◌++◌, map, Option, none, some, length, Outcome, ok,
  err, panic, >>=-eq-ok, nat_Eq,
}
use bgpd_rs.Base.Map
use bgpd_rs.Base.Map.{Map}
use bgpd_rs.Bgp.{IpAddr, OpenParameter, Capabilities}
use bgpd_rs.Rib.{Rib}
use bgpd_rs.Session.Error.{SessionError, deconfigured, SessionUpdate, ended}
use bgpd_rs.Session.Manager.{
  Manager, Walk, Wake, walk, with_routes, handle_result, after_error, notified, notify_for, stop,
  keep, end_one, get_update, after_walk,
}
use bgpd_rs.Session.Peer.{Session}
use bgpd_rs.Session.Poller.{NetworkApi}
use bgpd_rs.Session.Run.{Event}

abbrev pub addresses : Map IpAddr Session → List IpAddr
addresses sessions = map (λ p. p.0) sessions

-- The walk has all the sessions, and a configuration for each that ended.
pub record IsWalk (sessions : Map IpAddr Session) (w : Walk) : Type 0 where
  pub same : addresses w.sessions ≡ addresses sessions
  pub handed : length w.handed ≡ length w.ended

ok-inj : {v w : Walk} → Path (Outcome ℕ Walk) (ok v) (ok w) → v ≡ w
ok-inj h = cc

end_one-IsWalk :
    (ip : IpAddr) (s s' : Session) (rest : Map IpAddr Session) (v : Walk)
    → IsWalk rest v
    → IsWalk ((ip, s') ∷ rest) (end_one ip s v)
unfolding end_one
end_one-IsWalk ip s s' rest v i = record {
  same = ap (λ xs. ip ∷ xs) i.same;
  handed = ap suc i.handed;
}

keep-IsWalk :
    (ip : IpAddr) (s s' : Session) (rest : Map IpAddr Session) (v : Walk)
    → IsWalk rest v
    → IsWalk ((ip, s') ∷ rest) (keep ip s v)
unfolding keep
keep-IsWalk ip s s' rest v i = record { same = ap (λ xs. ip ∷ xs) i.same; handed = i.handed }

stop-IsWalk :
    (ip : IpAddr) (s s' : Session) (rest : Map IpAddr Session) (u : Option SessionUpdate)
    → IsWalk ((ip, s') ∷ rest) (stop ((ip, s) ∷ rest) u)
unfolding stop
stop-IsWalk ip s s' rest u = record { same = refl; handed = refl }

after_error-IsWalk :
    (ip : IpAddr) (s s' : Session) (e : SessionError) (rest : Map IpAddr Session)
    (m : Outcome ℕ Walk) {w : Walk}
    → ((v : Walk) → m ≡ ok v → IsWalk rest v)
    → after_error ip s e rest m ≡ ok w
    → IsWalk ((ip, s') ∷ rest) w
unfolding after_error
after_error-IsWalk ip s s' deconfigured rest m walked h =
    subst (λ w. IsWalk ((ip, s') ∷ rest) w) (ok-inj h) (stop-IsWalk ip s s' rest none)
after_error-IsWalk ip s s' e rest m walked h =
    let (v, hv, hw) = >>=-eq-ok m _ h in
    subst (λ w. IsWalk ((ip, s') ∷ rest) w) (ok-inj hw)
      (end_one-IsWalk ip s s' rest v (walked v hv))

module _ (net : NetworkApi) (from_parameters : List OpenParameter → Capabilities)
    (events : IpAddr → Event) (now : ℕ) where
  handle_result-IsWalk :
      (ip : IpAddr) (s' : Session)
      (result : Outcome (SessionError × Session) (Session × Option SessionUpdate))
      (rest : Map IpAddr Session) (m : Outcome ℕ Walk) {w : Walk}
      → ((v : Walk) → m ≡ ok v → IsWalk rest v)
      → handle_result net from_parameters events now ip result rest m ≡ ok w
      → IsWalk ((ip, s') ∷ rest) w
  unfolding handle_result
  handle_result-IsWalk ip s' (ok (s, some u)) rest m walked h =
      subst (λ w. IsWalk ((ip, s') ∷ rest) w) (ok-inj h) (stop-IsWalk ip s s' rest (some u))
  handle_result-IsWalk ip s' (ok (s, none)) rest m walked h =
      let (v, hv, hw) = >>=-eq-ok m _ h in
      subst (λ w. IsWalk ((ip, s') ∷ rest) w) (ok-inj hw) (keep-IsWalk ip s s' rest v (walked v hv))
  handle_result-IsWalk ip s' (err (e, s)) rest m walked h =
      let (s₁, hs, hw) = >>=-eq-ok (notified (notify_for s e now)) _ h in
      after_error-IsWalk ip s₁ s' e rest m walked hw
  handle_result-IsWalk ip s' panic rest m walked h = cc

  -- A turn loses no session and invents none, and hands back a configuration for each that ended.
  walk-IsWalk :
      (r : Rib) (sessions : Map IpAddr Session) {w : Walk}
      → walk net from_parameters events now r sessions ≡ ok w
      → IsWalk sessions w
  unfolding walk
  walk-IsWalk r [] h = subst (IsWalk []) (ok-inj h) (record { same = refl; handed = refl })
  walk-IsWalk r ((ip, s) ∷ rest) h =
      let (s', hs, hw) = >>=-eq-ok (with_routes net from_parameters events now r s) _ h in
      handle_result-IsWalk ip s _ rest _ (λ v. walk-IsWalk r rest {w = v}) hw

  -- If the walk has an update, it is reported and no session is removed, also none that ended
  -- earlier in the walk, although one configuration for each of these goes back to the poller.
  pub get_update-found :
      (m : Manager) (r : Rib) (wake : Wake net from_parameters events now) {w : Walk}
      {u : SessionUpdate}
      → walk net from_parameters events now r m.sessions ≡ ok w
      → w.found ≡ some u
      → (m' : Manager) × (get_update net from_parameters events now m r wake ≡ ok (some u, m'))
        × (addresses m'.sessions ≡ addresses m.sessions)
        × (m'.poller_tx ≡ m.poller_tx ++ w.handed)
        × (length w.handed ≡ length w.ended)
  unfolding get_update after_walk
  get_update-found m r wake {w} walked found = (
    record m { sessions = w.sessions; poller_tx = m.poller_tx ++ w.handed },
    rw walked (rw found refl),
    (walk-IsWalk r m.sessions walked).same,
    refl,
    (walk-IsWalk r m.sessions walked).handed,
  )
