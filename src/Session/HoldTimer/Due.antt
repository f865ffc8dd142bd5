-- ===== src/Session/HoldTimer/Due.antt =====
-- src/session/hold_timer.rs: when a session expires and when a keepalive is due.
use bgpd_rs.Base.{ℕ, ◌+◌, ◌-◌, ◌*◌, ◌/◌, ◌≤◌, ◌<◌, ◌≡◌, ◌↔◌, true, ok, err, arith}
use bgpd_rs.Session.Error.{hold_time_expired}
use bgpd_rs.Session.HoldTimer.{HoldTimer, nanos, should_send_keepalive, is_expired}

is_expired_iff :
    (h : HoldTimer) (now : ℕ)
    → (is_expired h now ≡ true) ↔ (h.last_received + h.hold_timer * nanos ≤ now)
unfolding is_expired
is_expired_iff h now = ground arith

-- The error of an expired session, which has the interval, comes exactly when nothing was received
-- for the whole hold time.
pub should_send_keepalive-err :
    (h : HoldTimer) (now : ℕ)
    → (should_send_keepalive h now ≡ err (hold_time_expired h.interval))
      ↔ (h.last_received + h.hold_timer * nanos ≤ now)
unfolding should_send_keepalive
should_send_keepalive-err h now = ground arith

-- For a hold time of three seconds or more, with a third of it as interval, in a session that is
-- not expired and sent nothing in the future, a keepalive is due exactly when more than the hold
-- time less twice the interval has passed since the last message was sent.
pub should_send_keepalive-due :
    (h : HoldTimer) (now : ℕ)
    → h.interval ≡ h.hold_timer / 3
    → 3 ≤ h.hold_timer
    → h.last_sent ≤ now
    → now < h.last_received + h.hold_timer * nanos
    → (should_send_keepalive h now ≡ ok true)
      ↔ (h.last_sent + (h.hold_timer - 2 * h.interval) * nanos < now)
unfolding should_send_keepalive
should_send_keepalive-due h now i big past alive = ground arith
