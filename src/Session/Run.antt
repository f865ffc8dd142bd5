-- ===== src/Session/Run.antt =====
-- src/session/lib.rs: one turn of a session. What `select!` waits for is an event, and all the
-- readings of the clock within a turn are one.
pub mod Advertised
pub mod Sound
pub mod Lifetime
pub mod Taking
use bgpd_rs.Base.{
  ℕ, Bool, true, false, if◌then◌else◌, List, [], ◌∷◌, Option, none, some, retain, contains, Outcome,
  ok, err, panic, ◌>>=◌, ◌==◌,
}
use bgpd_rs.Bgp.{Message, open_msg, keep_alive, update_msg, OpenParameter, Capabilities}
use bgpd_rs.Config.{AdvertiseSource, advertise_Eq}
use bgpd_rs.Rib.Entry.{EntrySource, ExportEntry}
use bgpd_rs.Rib.SessionRoutes as Routes
use bgpd_rs.Session.Counts
use bgpd_rs.Session.Error.{
  SessionError, deconfigured, other, from_io, stream_closed, stream_failed, SessionUpdate, learned,
}
use bgpd_rs.Session.HoldTimer
use bgpd_rs.Session.HoldTimer.{should_send_keepalive}
use bgpd_rs.Session.Machine.{Failing, MessageResponse, reply, update, process_message}
use bgpd_rs.Session.Peer.{
  Session, connect, open_sent, established, state_Eq, is_locally_initiated, update_state,
  send_message, create_open,
}
use bgpd_rs.Session.Updates.{create_update}

pub data Event : Type 0 where
  incoming : Message → Event
  -- The stream ended, or a message could not be decoded.
  end_of_stream : Event
  broken : ℕ → Event
  tick : Event

unfoldable pub advertise_source : EntrySource → AdvertiseSource
advertise_source EntrySource.api = AdvertiseSource.api
advertise_source EntrySource.config = AdvertiseSource.config
advertise_source (EntrySource.peer _) = AdvertiseSource.peer

-- `self.send_message(..).await?`
unfoldable pub send_or_fail : Session → Message → ℕ → Failing Session
send_or_fail s message now = elim (send_message s message now) [
  | ok s' ↦ ok s'
  | err (e, s') ↦ err (from_io e, s')
  | panic ↦ panic
]

-- A failed OPEN is only logged.
pub send_or_log : Session → Message → ℕ → Failing Session
send_or_log s message now = elim (send_message s message now) [
  | ok s' ↦ ok s'
  | err (e, s') ↦ ok s'
  | panic ↦ panic
]

pub start_open : Session → ℕ → Failing Session
unfolding send_or_log
start_open s now = do
  o ← create_open s
  s' ← send_or_log s (open_msg o) now
  ok (update_state s' open_sent)

-- The test on the port is made in state Connect alone.
pub open_if_local : Session → ℕ → Failing Session
unfolding start_open
open_if_local s now = elim (s.state == connect) [
  | false ↦ ok s
  | true ↦ do local ← is_locally_initiated s; if local then start_open s now else ok s
]

unfoldable pub pending_routes : Session → List ExportEntry
unfolding advertise_source
pending_routes s =
    retain (λ e. contains (advertise_source e.source) s.config.advertise_sources)
      (Routes.pending s.routes)

unfoldable pub advertise_each : Session → List ExportEntry → ℕ → Failing Session
advertise_each s [] now = ok s
advertise_each s (entry ∷ entries) now = do
  u ← create_update s entry.update
  s' ← send_or_fail s (update_msg u) now
  advertise_each (record s' { routes = Routes.mark_advertised s'.routes entry }) entries now

unfoldable pub advertise_pending : Session → ℕ → Failing Session
advertise_pending s now =
    if s.state == established then advertise_each s (pending_routes s) now else ok s

pub respond : Session → MessageResponse → ℕ → Failing (Session × Option SessionUpdate)
respond s (reply message) now = do s' ← send_or_fail s message now; ok (s', none)
respond s (update u) now = ok (s, some (learned s.addr u))
respond s _ now = ok (s, none)

pub keep_alive_if_due :
    Session → ℕ → Outcome SessionError Bool → Failing (Session × Option SessionUpdate)
keep_alive_if_due s now (err e) = err (e, s)
keep_alive_if_due s now panic = panic
keep_alive_if_due s now (ok false) = ok (s, none)
keep_alive_if_due s now (ok true) = do s' ← send_or_fail s keep_alive now; ok (s', none)

module _ (from_parameters : List OpenParameter → Capabilities) where
  unfoldable pub handle : Session → Event → ℕ → Failing (Session × Option SessionUpdate)
  unfolding respond keep_alive_if_due
  handle s end_of_stream now = err (other (stream_closed s.addr), s)
  handle s (broken e) now = err (other (stream_failed s.addr e), s)
  handle s tick now = keep_alive_if_due s now (should_send_keepalive s.hold_timer now)
  handle s (incoming message) now = do
    let counted = record s {
      counts = Counts.increment_received s.counts;
      hold_timer = HoldTimer.received s.hold_timer now;
    }
    (s', response) ← process_message from_parameters counted message now
    respond s' response now

  unfoldable pub run : Session → Event → ℕ → Failing (Session × Option SessionUpdate)
  unfolding open_if_local
  run s event now =
      if s.config.enabled
      then (do s₁ ← open_if_local s now; s₂ ← advertise_pending s₁ now; handle s₂ event now)
      else err (deconfigured, s)
