-- ===== src/Session/Manager/Disabled.antt =====
-- src/session/manager.rs: a session whose configuration was disabled.
use mathlib.Core.List.{append-nil, append_assoc}
use bgpd_rs.Base.{
  ℕ, suc, ◌≡◌, refl, sym, ap, ◌∙◌, false, List, [], ◌∷◌, ◌++◌, none, Outcome, ok, err, ◌>>=◌,
}
use bgpd_rs.Base.Map.{Map}
use bgpd_rs.Bgp.{IpAddr, Message, notification_msg, OpenParameter, Capabilities}
use bgpd_rs.Config.{PeerConfig}
use bgpd_rs.Session.Counts
use bgpd_rs.Session.HoldTimer
use bgpd_rs.Rib.{Rib, get_routes_for_peer}
use bgpd_rs.Rib.Entry.{ExportEntry}
use bgpd_rs.Session.Error.{deconfigured}
use bgpd_rs.Session.Manager.{
  Manager, polled, connection_made, walk, with_routes, handle_result, after_error, notified,
  notify_for, stop, get_update, after_walk, remove_all, wake,
}
use bgpd_rs.Session.Peer.{Session, notify, send_message, deliver}
use bgpd_rs.Session.Poller.{NetworkApi, no_connection, get_connection}
use bgpd_rs.Session.Run.{Event, run}
use bgpd_rs.Session.Run.Taking.{taking}

-- `Cease` and `Deconfigured`.
abbrev pub cease : Message
cease = notification_msg (record { major_err_code = 6; minor_err_code = 3 })

-- One for each reading of the clock.
abbrev pub ceases : List ℕ → List Message
ceases [] = []
ceases (now ∷ later) = cease ∷ ceases later

-- What a turn leaves of a disabled session, whose connection takes all messages.
record IsTold (s s' : Session) : Type 0 where
  pub sent : s'.protocol.sent ≡ s.protocol.sent ++ cease ∷ []
  pub outcome : s'.protocol.outcome ≡ s.protocol.outcome
  pub addr : s'.addr ≡ s.addr
  pub state : s'.state ≡ s.state
  pub config : s'.config ≡ s.config

notify-IsTold :
    (s : Session) (es : List ExportEntry) (now : ℕ)
    → ((attempt : ℕ) → s.protocol.outcome attempt ≡ none)
    → (s' : Session) × (notify (taking s es) 6 3 now ≡ ok s') × IsTold s s'
unfolding notify send_message deliver
notify-IsTold s es now takes =
    let t = taking s es in
    (
      record t {
        protocol = record t.protocol {
          attempts = suc t.protocol.attempts;
          sent = t.protocol.sent ++ cease ∷ [];
        };
        counts = Counts.increment_sent t.counts;
        hold_timer = HoldTimer.sent t.hold_timer now;
      },
      rw (takes s.protocol.attempts) refl,
      record { sent = refl; outcome = refl; addr = refl; state = refl; config = refl },
    )

module _ (net : NetworkApi) (from_parameters : List OpenParameter → Capabilities)
    (events : ℕ → IpAddr → Event) where
  run-disabled :
      (s : Session) (event : Event) (now : ℕ)
      → s.config.enabled ≡ false
      → run from_parameters s event now ≡ err (deconfigured, s)
  unfolding run
  run-disabled s event now off = simp off

  walk-disabled :
      (r : Rib) (now : ℕ) (ip : IpAddr) (s : Session) (rest : Map IpAddr Session)
      {es : List ExportEntry} {s' : Session}
      → s.config.enabled ≡ false
      → get_routes_for_peer {E = ℕ} r s.addr ≡ ok es
      → notify (taking s es) 6 3 now ≡ ok s'
      → walk net from_parameters (events now) now r ((ip, s) ∷ rest)
        ≡ ok (stop ((ip, s') ∷ rest) none)
  unfolding walk with_routes handle_result notify_for notified after_error stop
  walk-disabled r now ip s rest {es} off taken told =
      rw (taken, run-disabled (taking s es) (events now ip) now off, told) refl

  get_update-disabled :
      (m : Manager) (r : Rib) (now : ℕ) (ip : IpAddr) (s : Session) (rest : Map IpAddr Session)
      {es : List ExportEntry} {s' : Session}
      → m.sessions ≡ (ip, s) ∷ rest
      → s.config.enabled ≡ false
      → get_routes_for_peer {E = ℕ} r s.addr ≡ ok es
      → notify (taking s es) 6 3 now ≡ ok s'
      → get_update net from_parameters (events now) now m r (polled no_connection)
        ≡ ok (none, record m { sessions = (ip, s') ∷ rest })
  unfolding get_update after_walk remove_all stop wake get_connection connection_made
  get_update-disabled m r now ip s rest first off taken told =
      rw (first, walk-disabled r now ip s rest off taken told, append-nil m.poller_tx) refl

  -- The turns at some readings of the clock, without connections and new configurations.
  abbrev pub turns : List ℕ → Rib → Manager → Outcome ℕ Manager
  turns [] r m = ok m
  turns (now ∷ later) r m = do
    (u, m') ← get_update net from_parameters (events now) now m r (polled no_connection)
    turns later r m'

  -- If the first session of the map was disabled, its routes can be listed and its connection takes
  -- all messages, then in any number of turns without connections and new configurations its peer is
  -- told as many times, it stays in the map in its state, and the sessions after it are not run,
  -- whatever they receive.
  pub turns-disabled :
      (times : List ℕ) (m : Manager) (r : Rib) (ip : IpAddr) (s : Session)
      (rest : Map IpAddr Session) {es : List ExportEntry}
      → m.sessions ≡ (ip, s) ∷ rest
      → s.config.enabled ≡ false
      → get_routes_for_peer {E = ℕ} r s.addr ≡ ok es
      → ((attempt : ℕ) → s.protocol.outcome attempt ≡ none)
      → (m' : Manager) × (s' : Session) × (turns times r m ≡ ok m')
        × (m'.sessions ≡ (ip, s') ∷ rest)
        × (s'.protocol.sent ≡ s.protocol.sent ++ ceases times)
        × (s'.state ≡ s.state)
        × (s'.config ≡ s.config)
  turns-disabled [] m r ip s rest first off taken takes =
      (m, s, refl, first, sym (append-nil s.protocol.sent), refl, refl)
  turns-disabled (now ∷ later) m r ip s rest {es} first off taken takes =
      let (s₁, told, t) = notify-IsTold s es now takes in
      let m₁ : Manager = record m { sessions = (ip, s₁) ∷ rest } in
      let (m', s', done, sessions, sent, state, config) =
        turns-disabled later m₁ r ip s₁ rest {es = es} refl
          (ap (λ (c : PeerConfig). c.enabled) t.config ∙ off)
          (ap (λ a. get_routes_for_peer {E = ℕ} r a) t.addr ∙ taken)
          (λ k. ap (λ f. f k) t.outcome ∙ takes k) in
      (
        m',
        s',
        rw (get_update-disabled m r now ip s rest first off taken told) done,
        sessions,
        sent
            ∙ ap (λ ms. ms ++ ceases later) t.sent
            ∙ append_assoc s.protocol.sent (cease ∷ []) (ceases later),
        state ∙ t.state,
        config ∙ t.config,
      )
