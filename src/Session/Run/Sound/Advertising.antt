-- ===== src/Session/Run/Sound/Advertising.antt =====
-- src/session/lib.rs: advertising its routes keeps a session sound.
use bgpd_rs.Base.{
  ℕ, ◌≡◌, ap, ◌∙◌, true, not, inl, inr, List, [], ◌∷◌, contains, ◌==◌, Bool-cases, nat_Eq,
}
use bgpd_rs.Base.Within.{Every, Every-map, Every-retain, Every-retained, Every-map_to}
use bgpd_rs.Bgp.{IpAddr, update_msg}
use bgpd_rs.Config.{PeerConfig, advertise_Eq}
use bgpd_rs.Rib.Entry.{ExportEntry, peer, source_Eq}
use bgpd_rs.Rib.SessionRoutes.{pending, mark_advertised}
use bgpd_rs.Session.Error.{SessionError}
use bgpd_rs.Session.Peer.{Session, established, state_Eq}
use bgpd_rs.Session.Run.{
  send_or_fail, advertise_source, pending_routes, advertise_each, advertise_pending,
}
use bgpd_rs.Session.Run.Sound.{Past, Held, IsSound, Leaves, Leaves-bind, Leaves-NoErr}
use bgpd_rs.Session.Run.Sound.Sending.{same, send_or_fail-IsSound, send_or_fail-keeps}
use bgpd_rs.Session.Updates.{create_update}
use bgpd_rs.Session.Updates.Infallible.{create_update-NoErr}

-- A route that a session may send.
abbrev May : Past → Session → ExportEntry → Type 0
May past s e =
    Held past s.addr e × (contains (advertise_source e.source) s.config.advertise_sources ≡ true)

pending_routes-May :
    (addr : IpAddr) (past : Past) (s : Session)
    → IsSound addr past s
    → Every (May past s) (pending_routes s)
unfolding pending_routes pending
pending_routes-May addr past s w =
    Every-retained (Held past s.addr)
      (λ e. contains (advertise_source e.source) s.config.advertise_sources) _
      (Every-map_to (λ r. Held past s.addr r.1) (Held past s.addr) (λ r. r.1) (λ r h. h) _
        (Every-retain _ _ _ (Every-retain _ _ _ w.routes)))

module _ (addr : IpAddr) (past : Past) where
  mark-IsSound :
      (s : Session) (e : ExportEntry)
      → IsSound addr past s
      → IsSound addr past (record s { routes = mark_advertised s.routes e })
  unfolding mark_advertised
  mark-IsSound s e w = record {
    at = w.at;
    config = w.config;
    routes = w.routes;
    allowed = w.allowed;
    quiet = w.quiet;
    accepted = w.accepted;
  }

  advertise_each-IsSound :
      (s : Session) (es : List ExportEntry) (now : ℕ)
      → s.state ≡ established
      → Every (May past s) es
      → IsSound addr past s
      → Leaves same (IsSound addr past) (advertise_each s es now)
  unfolding advertise_each
  advertise_each-IsSound s [] now up may w = w
  advertise_each-IsSound s (e ∷ es) now up (((far, held), source), may) w =
      Leaves-bind (λ u. s) same (IsSound addr past) (create_update s e.update) _
        (Leaves-NoErr (IsSound addr past) s (create_update s e.update)
          (create_update-NoErr (SessionError × Session) s e.update) w)
        (λ u made _.
          Leaves-bind same same (IsSound addr past) (send_or_fail s (update_msg u) now) _
            (send_or_fail-IsSound addr past s (update_msg u) now
              (
                record {
                  entry = e;
                  given = held;
                  sender = s;
                  config = w.config;
                  elsewhere = far;
                  source = source;
                  made = made;
                },
                inl up,
              )
              w)
            (λ s₁ sent w₁.
              let (state, at, config, routes) =
                send_or_fail-keeps s (update_msg u) now {s' = s₁} sent in
              let s₂ : Session = record s₁ { routes = mark_advertised s₁.routes e } in
              advertise_each-IsSound s₂ es now (state ∙ up)
                (Every-map (May past s) (May past s₂)
                  (λ x ((h, g), k). (
                    (ap (λ a. not (x.source == peer a)) at ∙ h, g),
                    ap
                          (λ (c : PeerConfig).
                            contains (advertise_source x.source) c.advertise_sources)
                          config
                        ∙ k,
                  ))
                  es may)
                (mark-IsSound s₁ e w₁)))

  pub advertise_pending-IsSound :
      (s : Session) (now : ℕ)
      → IsSound addr past s
      → Leaves same (IsSound addr past) (advertise_pending s now)
  unfolding advertise_pending
  advertise_pending-IsSound s now w = elim (Bool-cases (s.state == established)) [
    | inl e ↦ rw e (
        advertise_each-IsSound s (pending_routes s) now ((state_Eq.eq_iff s.state established).0 e)
          (pending_routes-May addr past s w) w)
    | inr e ↦ rw e w
  ]
