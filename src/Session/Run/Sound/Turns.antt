-- ===== src/Session/Run/Sound/Turns.antt =====
-- src/session/lib.rs: a turn of a session keeps it sound.
use bgpd_rs.Base.{
  ℕ, ◌≡◌, refl, Bool, true, false, inl, inr, List, subst, if◌then◌else◌, Option, none, some,
  Outcome, ok, err, panic, ◌>>=◌, >>=-eq-ok, ◌==◌, arith, Bool-cases,
}
use bgpd_rs.Base.Within.{Every}
use bgpd_rs.Bgp.{
  IpAddr, Message, open_msg, keep_alive, update_msg, notification_msg, route_refresh, OpenParameter,
  Capabilities, SocketAddr,
}
use bgpd_rs.Session.Counts
use bgpd_rs.Session.Error.{SessionError, SessionUpdate}
use bgpd_rs.Session.HoldTimer
use bgpd_rs.Session.HoldTimer.{should_send_keepalive}
use bgpd_rs.Session.Machine.{
  MessageResponse, reply, update, nothing, opened, open_received, process_message, process_open,
  process_keep_alive, confirm,
}
use bgpd_rs.Session.Peer.{
  Session, SessionState, connect, open_sent, open_confirm, state_Eq, update_state, create_open,
  is_locally_initiated, send_message, deliver,
}
use bgpd_rs.Session.Run.{
  Event, incoming, end_of_stream, broken, tick, send_or_log, send_or_fail, start_open,
  open_if_local, advertise_pending, respond, keep_alive_if_due, handle, run,
}
use bgpd_rs.Session.Run.Sound.{Past, Heard, NoUpdate, IsSound, Leaves, Leaves-bind, Leaves-NoErr}
use bgpd_rs.Session.Run.Sound.Sending.{same, send_or_log-IsSound, send_or_fail-IsSound}
use bgpd_rs.Session.Run.Sound.Advertising.{advertise_pending-IsSound}
use bgpd_rs.Session.Run.Sound.Messages.{
  Plain, NoUpdate-Allowed, quiet_before, create_open-NoErr, process_message-IsSound,
}
use bgpd_rs.Session.Updates.Infallible.{NoErr}

send_or_log-state :
    (s : Session) (m : Message) (now : ℕ) {s' : Session}
    → send_or_log s m now ≡ ok s'
    → s'.state ≡ s.state
unfolding send_or_log send_message deliver
send_or_log-state s m now h = ground arith

with_peer :
    (s : Session) (o : Option SocketAddr)
    → s.protocol.peer_addr ≡ o
    → NoErr (is_locally_initiated {E = SessionError × Session} s)
unfolding is_locally_initiated
with_peer s (some a) e = rw (NoErr, e) tt
with_peer s none e = rw (NoErr, e) tt

confirm-Plain :
    (from_parameters : List OpenParameter → Capabilities) (a : SessionState) (s : Session)
    {s' : Session} {r : MessageResponse}
    → confirm from_parameters a s ≡ ok (s', r)
    → Plain r
unfolding confirm
confirm-Plain from_parameters connect s {r = r} h =
    let (o, ho, hr) =
      >>=-eq-ok (create_open {E = SessionError × Session} (update_state s open_confirm)) _ h in
    let made : reply (open_msg o) ≡ r = ground arith in subst Plain made tt
confirm-Plain from_parameters open_sent s {r = r} h =
    let made : reply keep_alive ≡ r = ground arith in subst Plain made tt
confirm-Plain from_parameters _ s h = cc

process_keep_alive-Plain :
    (from_parameters : List OpenParameter → Capabilities) (a : SessionState) (s : Session)
    → Plain (process_keep_alive from_parameters a s).1
unfolding process_keep_alive
process_keep_alive-Plain from_parameters open_confirm s = tt
process_keep_alive-Plain from_parameters _ s = tt

process_message-Plain :
    (from_parameters : List OpenParameter → Capabilities) (s : Session) (m : Message) (now : ℕ)
    {s' : Session} {r : MessageResponse}
    → process_message from_parameters s m now ≡ ok (s', r)
    → Plain r
unfolding process_message process_open
process_message-Plain from_parameters s (open_msg o) now h =
    let (x, hx, hc) = >>=-eq-ok (open_received from_parameters s o) _ h in
    confirm-Plain from_parameters _ _ hc
process_message-Plain from_parameters s keep_alive now {r = r} h =
    let made : (process_keep_alive from_parameters s.state s).1 ≡ r = ground arith in
    subst Plain made (process_keep_alive-Plain from_parameters s.state s)
process_message-Plain from_parameters s (update_msg u) now {r = r} h =
    let made : update u ≡ r = ground arith in subst Plain made tt
process_message-Plain from_parameters s (notification_msg n) now {r = r} h =
    let made : nothing ≡ r = ground arith in subst Plain made tt
process_message-Plain from_parameters s (route_refresh f) now {r = r} h =
    let made : nothing ≡ r = ground arith in subst Plain made tt

module _ (addr : IpAddr) (past : Past) where
  -- Before the OPEN is answered nothing is accepted.
  opening :
      (s : Session)
      → Every NoUpdate s.protocol.sent
      → IsSound addr past s
      → IsSound addr past (update_state s open_sent)
  unfolding update_state
  opening s quiet w = record {
    at = w.at;
    config = w.config;
    routes = w.routes;
    allowed = w.allowed;
    quiet = inr quiet;
    accepted = λ h. elim h [ inl e ↦ cc | inr e ↦ cc ];
  }

  start_open-IsSound :
      (s : Session) (now : ℕ)
      → s.state ≡ connect
      → IsSound addr past s
      → Leaves same (IsSound addr past) (start_open s now)
  unfolding start_open
  start_open-IsSound s now at w =
      Leaves-bind (λ o. s) same (IsSound addr past) (create_open s) _
        (Leaves-NoErr (IsSound addr past) s (create_open s)
          (create_open-NoErr (SessionError × Session) s) w)
        (λ o made _.
          Leaves-bind same same (IsSound addr past) (send_or_log s (open_msg o) now) _
            (send_or_log-IsSound addr past s (open_msg o) now (tt, inr tt) w)
            (λ s' sent w'.
              let state = send_or_log-state s (open_msg o) now {s' = s'} sent in
              opening s' (quiet_before addr past s' w' (λ e. cc)) w'))

  open_if_local-IsSound :
      (s : Session) (now : ℕ)
      → IsSound addr past s
      → Leaves same (IsSound addr past) (open_if_local s now)
  unfolding open_if_local
  open_if_local-IsSound s now w = elim (Bool-cases (s.state == connect)) [
    | inl e ↦
        rw (Leaves, e)
          (Leaves-bind (λ b. s) same (IsSound addr past) (is_locally_initiated s) _
            (Leaves-NoErr (IsSound addr past) s (is_locally_initiated s)
              (with_peer s s.protocol.peer_addr refl) w)
            (λ local made _. opens local ((state_Eq.eq_iff s.state connect).0 e)))
    | inr e ↦ rw (Leaves, e) w
  ]
    where
      opens :
          (local : Bool)
          → s.state ≡ connect
          → Leaves same (IsSound addr past) (if local then start_open s now else ok s)
      opens true at = start_open-IsSound s now at w
      opens false at = w

  abbrev Turned : Outcome (SessionError × Session) (Session × Option SessionUpdate) → Type 0
  Turned = Leaves (λ a. a.0) (IsSound addr past)

  replying :
      (s : Session) (m : Message) (now : ℕ)
      → NoUpdate m
      → IsSound addr past s
      → Turned (do s' ← send_or_fail s m now; ok (s', none))
  replying s m now plain w =
      Leaves-bind same (λ a. a.0) (IsSound addr past) (send_or_fail s m now) _
        (send_or_fail-IsSound addr past s m now (NoUpdate-Allowed past s.addr m plain, inr plain) w)
        (λ s' sent w'. w')

  respond-IsSound :
      (s : Session) (r : MessageResponse) (now : ℕ)
      → Plain r
      → IsSound addr past s
      → Turned (respond s r now)
  unfolding respond
  respond-IsSound s (reply m) now plain w = replying s m now plain w
  respond-IsSound s (update u) now plain w = w
  respond-IsSound s nothing now plain w = w
  respond-IsSound s (opened o cs' n) now plain w = w

  keep_alive_if_due-IsSound :
      (s : Session) (now : ℕ) (due : Outcome SessionError Bool)
      → IsSound addr past s
      → Turned (keep_alive_if_due s now due)
  unfolding keep_alive_if_due
  keep_alive_if_due-IsSound s now (ok true) w = replying s keep_alive now tt w
  keep_alive_if_due-IsSound s now (ok false) w = w
  keep_alive_if_due-IsSound s now (err e) w = w
  keep_alive_if_due-IsSound s now panic w = tt

  counted-IsSound :
      (s : Session) (now : ℕ)
      → IsSound addr past s
      → IsSound addr past (record s {
        counts = Counts.increment_received s.counts;
        hold_timer = HoldTimer.received s.hold_timer now;
      })
  unfolding HoldTimer.received
  counted-IsSound s now w = record {
    at = w.at;
    config = w.config;
    routes = w.routes;
    allowed = w.allowed;
    quiet = w.quiet;
    accepted = w.accepted;
  }

  module _ (from_parameters : List OpenParameter → Capabilities) where
    handle-IsSound :
        (s : Session) (event : Event) (now : ℕ)
        → Heard past event
        → IsSound addr past s
        → Turned (handle from_parameters s event now)
    unfolding handle
    handle-IsSound s end_of_stream now heard w = w
    handle-IsSound s (broken e) now heard w = w
    handle-IsSound s tick now heard w =
        keep_alive_if_due-IsSound s now (should_send_keepalive s.hold_timer now) w
    handle-IsSound s (incoming m) now heard w =
        let counted = record s {
          counts = Counts.increment_received s.counts;
          hold_timer = HoldTimer.received s.hold_timer now;
        } in
        Leaves-bind (λ a. a.0) (λ a. a.0) (IsSound addr past)
          (process_message from_parameters counted m now) _
          (process_message-IsSound addr past from_parameters counted m now heard
            (counted-IsSound s now w))
          (λ (s', r) made w'.
            respond-IsSound s' r now (process_message-Plain from_parameters counted m now made) w')

    -- Whatever happens in a turn, also one that ends the session, the session stays sound.
    pub run-IsSound :
        (s : Session) (event : Event) (now : ℕ)
        → Heard past event
        → IsSound addr past s
        → Turned (run from_parameters s event now)
    unfolding run
    run-IsSound s event now heard w = enabled s.config.enabled
      where
        enabled :
            (b : Bool)
            → Turned (
                if b
                then (do
                  s₁ ← open_if_local s now
                  s₂ ← advertise_pending s₁ now
                  handle from_parameters s₂ event now)
                else err (SessionError.deconfigured, s))
        enabled false = w
        enabled true =
            Leaves-bind same (λ a. a.0) (IsSound addr past) (open_if_local s now) _
              (open_if_local-IsSound s now w)
              (λ s₁ _ w₁.
                Leaves-bind same (λ a. a.0) (IsSound addr past) (advertise_pending s₁ now) _
                  (advertise_pending-IsSound addr past s₁ now w₁)
                  (λ s₂ _ w₂. handle-IsSound s₂ event now heard w₂))
